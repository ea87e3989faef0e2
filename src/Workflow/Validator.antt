-- ===== src/Workflow/Validator.antt =====
-- services/ai-agent/src/mcp_ops_ai_agent/workflows/validator.py: the checks of a plan on its
-- dependencies, references, conditions and edges, and what the registry puts in place of its claims.
pub mod Issues
pub mod Acyclic
pub mod Ordered
pub mod Schema
pub mod Validate
use Prim.Native.Char.{Char, code}
use mcp_ai.Prelude.{
  ℕ, zero, suc, String, Bool, true, false, not, ◌&&◌, ◌||◌, Option, none, some, List, [], ◌∷◌, ◌++◌,
  eqb, leb, elem, string_eq, if◌then◌else◌,
}
use mcp_ai.Prelude.Text.{concat, is_empty}
use mcp_ai.Prelude.Dict.{Dict, keys}
use mcp_ai.Value.{Value}
use mcp_ai.Registry.{ToolMetadata, risk_value, is_high_risk}
use mcp_ai.Workflow.Models.{
  WorkflowNode, WorkflowEdge, WorkflowPlanDraft, WorkflowValidationIssue, ArgumentReference,
  WorkflowCondition, RetryStrategy, no_retry, fixed_delay, exponential_backoff,
}

abbrev pub Issues : Type 0
Issues = List WorkflowValidationIssue

unfoldable pub issue : String → List String → Option String → WorkflowValidationIssue
issue code message node_id = record { code = code; message = concat message; node_id = node_id }

-- `if failing: issues.append(issue)`
abbrev pub issue_if : Bool → WorkflowValidationIssue → Issues
issue_if true i = i ∷ []
issue_if false i = []

dependency_issues : WorkflowNode → List String → List String → Issues
unfolding issue
dependency_issues node [] node_ids = []
dependency_issues node (dependency ∷ rest) node_ids =
    issue_if (not (elem dependency node_ids)) (
      issue "missing_dependency" ("Dependency " ∷ dependency ∷ " does not exist." ∷ [])
        (some node.id))
    ++ dependency_issues node rest node_ids

unfoldable pub validate_dependencies : List WorkflowNode → List String → Issues
unfolding dependency_issues
validate_dependencies [] node_ids = []
validate_dependencies (node ∷ nodes) node_ids =
    dependency_issues node node.depends_on node_ids ++ validate_dependencies nodes node_ids

-- `[A-Za-z0-9_.\[\]-]`
is_path_char : ℕ → Bool
is_path_char c =
    (leb 65 c && leb c 90)
    || ((leb 97 c && leb c 122)
        || ((leb 48 c && leb c 57)
            || (eqb c 95 || (eqb c 46 || (eqb c 91 || (eqb c 93 || eqb c 45))))))

-- up to `n` of them, and then the end, before which `$` lets a newline stand
path_rest : ℕ → String → Bool
unfolding is_path_char
path_rest n String.[] = true
path_rest zero (String.◌∷◌ c s) = eqb (code c) 10 && is_empty s
path_rest (suc n) (String.◌∷◌ c s) =
    if is_path_char (code c) then path_rest n s else eqb (code c) 10 && is_empty s

-- `safe_path.match(path) is not None`, with 1 to 240 characters
unfoldable pub safe_path : String → Bool
unfolding path_rest
safe_path String.[] = false
safe_path (String.◌∷◌ c s) = is_path_char (code c) && path_rest 239 s

reference_issues : WorkflowNode → List ArgumentReference → List String → Issues
unfolding issue
reference_issues node [] node_ids = []
reference_issues node (r ∷ rest) node_ids =
    issue_if (not (elem r.argument (keys node.arguments))) (
      issue "invalid_argument_reference"
        ("Reference target " ∷ r.argument ∷ " is not a node argument." ∷ []) (some node.id))
    ++ issue_if (not (elem r.source_node_id node_ids)) (
        issue "invalid_argument_reference"
          ("Reference source " ∷ r.source_node_id ∷ " does not exist." ∷ []) (some node.id))
    ++ issue_if (not (elem r.source_node_id node.depends_on)) (
        issue "invalid_argument_reference"
          ("Reference source " ∷ r.source_node_id ∷ " must be a dependency." ∷ []) (some node.id))
    ++ issue_if (not (safe_path r.output_path)) (
        issue "invalid_argument_reference"
          ("Reference output path " ∷ r.output_path ∷ " is unsafe." ∷ []) (some node.id))
    ++ reference_issues node rest node_ids

unfoldable pub validate_argument_references : List WorkflowNode → List String → Issues
unfolding reference_issues
validate_argument_references [] node_ids = []
validate_argument_references (node ∷ nodes) node_ids =
    reference_issues node node.argument_references node_ids
    ++ validate_argument_references nodes node_ids

condition_issues : WorkflowNode → Option WorkflowCondition → List String → Issues
unfolding issue
condition_issues node none node_ids = []
condition_issues node (some c) node_ids =
    issue_if (not (elem c.source_node_id node_ids)) (
      issue "invalid_condition" ("Condition source " ∷ c.source_node_id ∷ " does not exist." ∷ [])
        (some node.id))
    ++ issue_if (not (elem c.source_node_id node.depends_on)) (
        issue "invalid_condition"
          ("Condition source " ∷ c.source_node_id ∷ " must be a dependency." ∷ []) (some node.id))
    ++ issue_if (not (safe_path c.output_path)) (
        issue "invalid_condition" ("Condition output path " ∷ c.output_path ∷ " is unsafe." ∷ [])
          (some node.id))

unfoldable pub validate_typed_conditions : List WorkflowNode → List String → Issues
unfolding condition_issues
validate_typed_conditions [] node_ids = []
validate_typed_conditions (node ∷ nodes) node_ids =
    condition_issues node node.typed_condition node_ids ++ validate_typed_conditions nodes node_ids

unfoldable pub validate_edges : List WorkflowEdge → List String → Issues
unfolding issue
validate_edges [] node_ids = []
validate_edges (edge ∷ edges) node_ids =
    issue_if (not (elem edge.source node_ids))
      (issue "missing_edge_source" ("Edge source " ∷ edge.source ∷ " missing." ∷ []) none)
    ++ issue_if (not (elem edge.destination node_ids)) (
        issue "missing_edge_destination" ("Edge destination " ∷ edge.destination ∷ " missing." ∷ [])
          none)
    ++ validate_edges edges node_ids
