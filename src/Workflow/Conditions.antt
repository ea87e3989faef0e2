-- ===== src/Workflow/Conditions.antt =====
-- services/ai-agent/src/mcp_ops_ai_agent/workflows/conditions.py. The match of the regular
-- expression `_LEGACY_CONDITION_PATTERN` and `repr` are parameters. Values have no floats here: a text
-- that only `float` reads stays a text.
use mcp_ai.Prelude.{
  String, Bool, true, false, not, ◌||◌, Option, none, some, [], ◌∷◌, ◌==◌, string_eq, elem,
  if◌then◌else◌,
}
use mcp_ai.Prelude.Text.{concat, lower, strip, contains_text}
use mcp_ai.Prelude.Number.{ℤ, parse_int}
use mcp_ai.Prelude.Dict.{Dict, get}
use mcp_ai.Prelude.Exec.{Result, ok, err}
use mcp_ai.Value.{Value, bool, int, str, list, dict, Items, nil, cons, field?, int_lt, py_eq}
use mcp_ai.Workflow.Models.{
  WorkflowNode, WorkflowCondition, ConditionOperator, eq, ne, gt, gte, lt, lte, contains, exists,
}
use mcp_ai.Workflow.Arguments.{Binding, read_output_path}

-- ConditionEvaluationError, and the TypeError of Python's `in`
pub data ConditionError : Type 0 where
  evaluation : (message : String) → ConditionError
  type_error : ConditionError

abbrev pub Outcome : Type 0 → Type 0
Outcome = Result ConditionError

item_in : Value → Items → Bool
item_in v nil = false
item_in v (cons w ws) = py_eq w v || item_in v ws

abbrev is_some : Option Value → Bool
is_some none = false
is_some (some v) = true

-- `expected in actual`, for a list, a text or a dictionary
value_in : Value → Value → Outcome Bool
unfolding item_in
value_in expected (list items) = ok (item_in expected items)
value_in (str part) (str whole) = ok (contains_text part whole)
value_in _ (str whole) = err type_error
value_in (str key) (dict fields) = ok (is_some (field? key fields))
value_in (list _) (dict fields) = err type_error
value_in (dict _) (dict fields) = err type_error
value_in expected _ = ok false

abbrev order : ConditionOperator → ℤ → ℤ → Bool
order gt a b = int_lt b a
order gte a b = not (int_lt a b)
order lt a b = int_lt a b
order lte a b = not (int_lt b a)
order _ a b = false

-- numbers only: a Boolean is none here
ordered : ConditionOperator → Value → Value → Bool
ordered operator (int a) (int b) = order operator a b
ordered operator _ _ = false

unfoldable pub compare_values : Value → ConditionOperator → Value → Outcome Bool
unfolding value_in ordered
compare_values actual eq expected = ok (py_eq actual expected)
compare_values actual ne expected = ok (not (py_eq actual expected))
compare_values actual contains expected = value_in expected actual
compare_values actual exists expected = ok false
compare_values actual operator expected = ok (ordered operator actual expected)

abbrev is_ok : Binding Value → Bool
is_ok (ok v) = true
is_ok (err message) = false

compared : Binding Value → ConditionOperator → Value → Outcome Bool
compared (ok actual) operator expected = compare_values actual operator expected
compared (err message) operator expected = err (evaluation message)

tested : Value → WorkflowCondition → ConditionOperator → Outcome Bool
unfolding compared
tested output c exists = ok (is_ok (read_output_path output c.output_path))
tested output c operator = compared (read_output_path output c.output_path) operator c.value

with_output : Option Value → WorkflowCondition → Outcome Bool
unfolding tested
with_output none c =
    err (evaluation (concat ("Condition output " ∷ c.source_node_id ∷ " is not available." ∷ [])))
with_output (some output) c = tested output c c.operator

holds : Option WorkflowCondition → WorkflowNode → Dict String Value → Outcome Bool
unfolding with_output
holds none node outputs = ok true
holds (some c) node outputs =
    if elem c.source_node_id node.depends_on
    then with_output (get c.source_node_id outputs) c
    else err (
        evaluation
          (concat ("Condition source " ∷ c.source_node_id ∷ " must be a dependency." ∷ [])))

-- the groups `source`, `path`, `operator` and `value` of a match
pub record LegacyMatch : Type 0 where
  pub source : String
  pub path : String
  pub operator : String
  pub value : String

operator_from_legacy : String → ConditionOperator
operator_from_legacy operator =
    if operator == "=="
    then eq
    else if operator == "!="
    then ne
    else if operator == ">"
    then gt
    else if operator == ">="
    then gte
    else if operator == "<"
    then lt
    else lte

int_or_text : String → Option ℤ → Value
int_or_text value none = str value
int_or_text value (some n) = int n

coerce_scalar : String → Value
unfolding int_or_text
coerce_scalar value =
    if lower value == "true"
    then bool true
    else if lower value == "false"
    then bool false
    else int_or_text value (parse_int value)

module _ (re_match : String → Option LegacyMatch) (repr : String → String) where
  matched : String → Option LegacyMatch → Outcome (Option WorkflowCondition)
  unfolding operator_from_legacy coerce_scalar
  matched condition none =
      err (
        evaluation
          (concat ("Condition " ∷ repr condition ∷ " is not a supported expression." ∷ [])))
  matched condition (some m) = ok (
      some (record {
        source_node_id = m.source;
        output_path = m.path;
        operator = operator_from_legacy m.operator;
        value = coerce_scalar (strip m.value);
      }))

  unfoldable pub parse_legacy_condition : Option String → Outcome (Option WorkflowCondition)
  unfolding matched
  parse_legacy_condition none = ok none
  parse_legacy_condition (some condition) = matched condition (re_match (strip condition))

  -- `node.typed_condition or parse_legacy_condition(node.condition)`
  condition_of : Option WorkflowCondition → Option String → Outcome (Option WorkflowCondition)
  condition_of (some c) legacy = ok (some c)
  condition_of none legacy = parse_legacy_condition legacy

  decided : Outcome (Option WorkflowCondition) → WorkflowNode → Dict String Value → Outcome Bool
  unfolding holds
  decided (ok c) node outputs = holds c node outputs
  decided (err e) node outputs = err e

  unfoldable pub condition_is_satisfied : WorkflowNode → Dict String Value → Outcome Bool
  unfolding condition_of decided
  condition_is_satisfied node outputs =
      decided (condition_of node.typed_condition node.condition) node outputs
