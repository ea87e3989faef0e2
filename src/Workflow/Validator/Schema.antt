-- ===== src/Workflow/Validator/Schema.antt =====
-- services/ai-agent/src/mcp_ops_ai_agent/workflows/validator.py: the arguments of a node against the
-- JSON schema of its tool (`_validate_arguments`, `_validate_field`), and what the registry puts in
-- place of the plan's claims (`_classify_risk`). `re.match` and `str` are parameters.
use mcp_ai.Prelude.{
  String, Bool, true, false, not, ◌&&◌, ◌||◌, Option, none, some, List, [], ◌∷◌, ◌++◌, ◌==◌, elem,
  filterb, map, string_eq, if◌then◌else◌,
}
use mcp_ai.Prelude.Text.{text_length, join}
use mcp_ai.Prelude.Number.{ℤ, pos}
use mcp_ai.Prelude.Dict.{Dict, keys, get, put}
use mcp_ai.Value.{
  Value, bool, int, str, list, dict, Items, Fields, end, nil, cons, field?, of_fields, int_of_bool,
  int_lt, py_eq,
}
use mcp_ai.Registry.{ToolMetadata, risk_value, is_high_risk}
use mcp_ai.Workflow.Models.{WorkflowNode, RetryStrategy, no_retry, fixed_delay, exponential_backoff}
use mcp_ai.Workflow.Order.{text_le}
use mcp_ai.Workflow.Validator.{Issues, issue, issue_if}

insert_text : String → List String → List String
insert_text a [] = a ∷ []
insert_text a (t ∷ ts) = if text_le a t then a ∷ t ∷ ts else t ∷ insert_text a ts

-- `sorted(texts)`
sort_texts : List String → List String
unfolding insert_text
sort_texts [] = []
sort_texts (t ∷ ts) = insert_text t (sort_texts ts)

-- the test of `isinstance` for each name of a type; a Boolean is no integer here
abbrev is_string : Value → Bool
is_string (str s) = true
is_string _ = false

abbrev is_integer : Value → Bool
is_integer (int n) = true
is_integer _ = false

abbrev is_boolean : Value → Bool
is_boolean (bool b) = true
is_boolean _ = false

abbrev is_object : Value → Bool
is_object (dict fields) = true
is_object _ = false

abbrev is_array : Value → Bool
is_array (list items) = true
is_array _ = false

-- `field_schema.get("type") == name`
abbrev is_type : Option Value → String → Bool
is_type (some (str t)) name = t == name
is_type _ name = false

-- a value of `isinstance(…, int)`, with Booleans
abbrev as_int : Option Value → Option ℤ
as_int (some (int n)) = some n
as_int (some (bool b)) = some (int_of_bool b)
as_int _ = none

abbrev too_short : Option ℤ → Value → Bool
too_short (some low) (str s) = int_lt (pos (text_length s)) low
too_short _ _ = false

abbrev too_long : Option ℤ → Value → Bool
too_long (some high) (str s) = int_lt high (pos (text_length s))
too_long _ _ = false

-- `value in items`
unfoldable pub is_item : Value → Items → Bool
is_item v nil = false
is_item v (cons w ws) = py_eq w v || is_item v ws

abbrev not_allowed : Option Value → Value → Bool
not_allowed (some (list items)) v = not (is_item v items)
not_allowed _ v = false

abbrev items_of : Items → List Value
items_of nil = []
items_of (cons v vs) = v ∷ items_of vs

-- `schema.get("properties", {})` and `schema.get("required", [])`
abbrev properties_of : Option Value → Option Fields
properties_of none = some end
properties_of (some (dict fields)) = some fields
properties_of _ = none

abbrev required_of : Option Value → List Value
required_of (some (list items)) = items_of items
required_of _ = []

-- `schema.get("additionalProperties") is False`
abbrev is_closed : Option Value → Bool
is_closed (some (bool false)) = true
is_closed _ = false

abbrev is_nil : List String → Bool
is_nil [] = true
is_nil (t ∷ ts) = false

abbrev merged : Dict String Value → Dict String Value → Dict String Value
merged base [] = base
merged base ((k, v) ∷ rest) = merged (put k v base) rest

module _ (re_match : String → String → Bool) (str_of : Value → String) where
  abbrev mismatch : Option Value → Value → Bool
  mismatch (some (str pattern)) (str s) = not (re_match pattern s)
  mismatch _ v = false

  unfoldable pub validate_field : String → String → Value → Fields → Issues
  unfolding issue
  validate_field node_id field_name value schema =
      let expected = field? "type" schema in
      issue_if (is_type expected "string" && not (is_string value))
        (issue "invalid_arguments" (field_name ∷ " must be a string." ∷ []) (some node_id))
      ++ issue_if (is_type expected "integer" && not (is_integer value))
          (issue "invalid_arguments" (field_name ∷ " must be an integer." ∷ []) (some node_id))
      ++ issue_if (is_type expected "boolean" && not (is_boolean value))
          (issue "invalid_arguments" (field_name ∷ " must be a boolean." ∷ []) (some node_id))
      ++ issue_if (is_type expected "object" && not (is_object value))
          (issue "invalid_arguments" (field_name ∷ " must be an object." ∷ []) (some node_id))
      ++ issue_if (is_type expected "array" && not (is_array value))
          (issue "invalid_arguments" (field_name ∷ " must be an array." ∷ []) (some node_id))
      ++ issue_if (mismatch (field? "pattern" schema) value)
          (issue "invalid_arguments" (field_name ∷ " does not match pattern." ∷ []) (some node_id))
      ++ issue_if (too_short (as_int (field? "minLength" schema)) value)
          (issue "invalid_arguments" (field_name ∷ " is too short." ∷ []) (some node_id))
      ++ issue_if (too_long (as_int (field? "maxLength" schema)) value)
          (issue "invalid_arguments" (field_name ∷ " is too long." ∷ []) (some node_id))
      ++ issue_if (not_allowed (field? "enum" schema) value)
          (issue "invalid_arguments" (field_name ∷ " is not an allowed value." ∷ []) (some node_id))

  -- `if isinstance(field_schema, dict)`
  field_issues : String → String → Value → Option Value → Issues
  field_issues node_id name value (some (dict schema)) = validate_field node_id name value schema
  field_issues node_id name value _ = []

  payload_issues : String → Dict String Value → Fields → Issues
  unfolding field_issues
  payload_issues node_id [] properties = []
  payload_issues node_id ((name, value) ∷ rest) properties =
      field_issues node_id name value (field? name properties)
      ++ payload_issues node_id rest properties

  -- the fields that are required and not given, but for an approval token that the gateway asks for
  missing_fields : List Value → Dict String Value → ToolMetadata → List String
  unfolding sort_texts
  missing_fields required payload m = sort_texts (
      filterb
        (λ name.
          not (elem name (keys payload)) && not (name == "approval_token" && m.requires_approval))
        (map str_of required))

  with_properties :
      Option Fields → WorkflowNode → ToolMetadata → Dict String Value → Dict String Value → Issues
  unfolding issue payload_issues missing_fields sort_texts
  with_properties none node m schema payload =
      issue "invalid_schema" ("Tool input schema is malformed." ∷ []) (some node.id) ∷ []
  with_properties (some properties) node m schema payload =
      let rejected =
        sort_texts (filterb (λ k. not (elem k (keys (of_fields properties)))) (keys payload)) in
      let missing = missing_fields (required_of (get "required" schema)) payload m in
      issue_if (is_closed (get "additionalProperties" schema) && not (is_nil rejected)) (
        issue "invalid_arguments" ("Unsupported argument fields: " ∷ join ", " rejected ∷ "." ∷ [])
          (some node.id))
      ++ issue_if (not (is_nil missing)) (
          issue "invalid_arguments" ("Missing required arguments: " ∷ join ", " missing ∷ "." ∷ [])
            (some node.id))
      ++ payload_issues node.id payload properties

  against : Option (Dict String Value) → WorkflowNode → String → ToolMetadata → Issues
  unfolding with_properties
  against none node role m = []
  against (some schema) node role m =
      with_properties (properties_of (get "properties" schema)) node m schema
        (merged (("actor_role", str role) ∷ []) node.arguments)

  unfoldable pub validate_arguments :
      Dict String (Dict String Value) → WorkflowNode → String → ToolMetadata → Issues
  unfolding against
  validate_arguments input_schemas node role m =
      against (get node.tool_name input_schemas) node role m

-- `RetryStrategy(text)`, which raises a ValueError for other texts
unfoldable pub parse_retry_strategy : String → Option RetryStrategy
parse_retry_strategy text =
    if text == "NO_RETRY"
    then some no_retry
    else if text == "FIXED_DELAY"
    then some fixed_delay
    else if text == "EXPONENTIAL_BACKOFF"
    then some exponential_backoff
    else none

unfoldable pub classified : WorkflowNode → ToolMetadata → RetryStrategy → WorkflowNode
classified node m strategy = record node {
  tool_server = m.server;
  risk_level = risk_value m.risk_level;
  approval_required = m.requires_approval || is_high_risk m.risk_level || node.approval_required;
  max_retries = m.default_max_retries;
  retry_strategy = strategy;
  timeout_seconds = m.timeout_seconds;
  compensation_tool = m.compensation_tool;
}

unfoldable pub with_strategy :
    WorkflowNode → ToolMetadata → Option RetryStrategy → Option WorkflowNode
unfolding classified
with_strategy node m none = none
with_strategy node m (some strategy) = some (classified node m strategy)

-- none where the ValueError is raised
unfoldable pub classify_risk : WorkflowNode → ToolMetadata → Option WorkflowNode
unfolding with_strategy
classify_risk node m = with_strategy node m (parse_retry_strategy m.retry_strategy)
