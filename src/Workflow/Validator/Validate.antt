-- ===== src/Workflow/Validator/Validate.antt =====
-- services/ai-agent/src/mcp_ops_ai_agent/workflows/validator.py: `WorkflowValidator.validate`.
pub mod Sound
pub mod Governed
pub mod Outcomes
use mcp_ai.Prelude.{
  ℕ, String, Bool, true, false, not, ◌||◌, Option, none, some, List, [], ◌∷◌, ◌++◌, elem, length,
  ltb, map, string_eq, if◌then◌else◌,
}
use mcp_ai.Prelude.Dict.{Dict, get}
use mcp_ai.Prelude.Exec.{Result, ok, err}
use mcp_ai.Value.{Value}
use mcp_ai.Registry.{ToolMetadata, Registry}
use mcp_ai.Gateway.Models.{Uuid}
use mcp_ai.Workflow.Models.{
  Workflow, WorkflowStatus, WorkflowNode, WorkflowPlanDraft, WorkflowValidationIssue,
}
use mcp_ai.Workflow.Validator.{
  Issues, issue, issue_if, validate_dependencies, validate_argument_references,
  validate_typed_conditions, validate_edges,
}
use mcp_ai.Workflow.Validator.Acyclic.{validate_acyclic}
use mcp_ai.Workflow.Validator.Schema.{validate_arguments, classify_risk}

-- the validator, with `re.match` and `str`
pub record WorkflowValidator : Type 0 where
  pub registry : Registry
  pub input_schemas : Dict String (Dict String Value)
  pub max_nodes : ℕ
  pub max_edges : ℕ
  pub re_match : String → String → Bool
  pub str_of : Value → String

-- WorkflowValidationError, and the ValueError of a retry strategy that is none
pub data ValidationFailure : Type 0 where
  invalid : Issues → ValidationFailure
  value_error : ValidationFailure

abbrev pub ids : List WorkflowNode → List String
ids nodes = map (λ n. n.id) nodes

-- `len(node_ids) != len(set(node_ids))`
unfoldable pub has_duplicates : List String → Bool
has_duplicates [] = false
has_duplicates (t ∷ ts) = elem t ts || has_duplicates ts

module _ (validator : WorkflowValidator) (role : String) (allowed_tool_names : List String) where
  -- the loop over the nodes: the issues of one, for what the registry says of its tool
  unfoldable pub tool_issues : WorkflowNode → ToolMetadata → Issues
  unfolding issue
  tool_issues node m =
      issue_if (not (elem node.tool_name allowed_tool_names)) (
        issue "tool_not_discovered"
          ("Tool " ∷ node.tool_name ∷ " was not in the policy-filtered discovery set." ∷ [])
          (some node.id))
      ++ issue_if (not m.enabled)
          (issue "tool_disabled" ("Tool " ∷ node.tool_name ∷ " is disabled." ∷ []) (some node.id))
      ++ validate_arguments validator.re_match validator.str_of validator.input_schemas node role m

  unfoldable pub node_issues : WorkflowNode → Option ToolMetadata → Issues
  unfolding tool_issues issue
  node_issues node none =
      issue "unknown_tool" ("Tool " ∷ node.tool_name ∷ " does not exist." ∷ []) (some node.id) ∷ []
  node_issues node (some m) = tool_issues node m

  -- and the node as it is normalized, or none where that raises
  unfoldable pub normalized_node : WorkflowNode → Option ToolMetadata → Option WorkflowNode
  normalized_node node none = some node
  normalized_node node (some m) = classify_risk node m

  abbrev pub with_node :
      Option WorkflowNode → Option (List WorkflowNode) → Option (List WorkflowNode)
  with_node none rest = none
  with_node (some n) none = none
  with_node (some n) (some ns) = some (n ∷ ns)

  unfoldable pub all_issues : List WorkflowNode → Issues
  unfolding node_issues
  all_issues [] = []
  all_issues (n ∷ ns) = node_issues n (get n.tool_name validator.registry) ++ all_issues ns

  unfoldable pub normalized_nodes : List WorkflowNode → Option (List WorkflowNode)
  unfolding normalized_node
  normalized_nodes [] = some []
  normalized_nodes (n ∷ ns) =
      with_node (normalized_node n (get n.tool_name validator.registry)) (normalized_nodes ns)

  unfoldable pub draft_issues : WorkflowPlanDraft → Issues
  unfolding issue has_duplicates all_issues
  draft_issues draft =
      issue_if (ltb validator.max_nodes (length draft.nodes))
        (issue "workflow_too_large" ("Workflow exceeds maximum node count." ∷ []) none)
      ++ issue_if (ltb validator.max_edges (length draft.edges))
          (issue "workflow_too_large" ("Workflow exceeds maximum edge count." ∷ []) none)
      ++ issue_if (has_duplicates (ids draft.nodes))
          (issue "duplicate_node_id" ("Workflow node IDs must be unique." ∷ []) none)
      ++ all_issues draft.nodes
      ++ validate_dependencies draft.nodes (ids draft.nodes)
      ++ validate_argument_references draft.nodes (ids draft.nodes)
      ++ validate_typed_conditions draft.nodes (ids draft.nodes)
      ++ validate_edges draft.edges (ids draft.nodes)
      ++ validate_acyclic draft.nodes draft.edges

abbrev pub with_workflow : Uuid → WorkflowNode → WorkflowNode
with_workflow id n = record n { workflow_id = some id }

-- the workflow that is made, with its identifier and the time
unfoldable pub validated_workflow :
    WorkflowPlanDraft
    → List WorkflowNode
    → (created_by target_environment : String) → Uuid
    → ℕ
    → Workflow
validated_workflow draft nodes created_by target_environment id now = record {
  id = id;
  user_request = draft.user_request;
  status = WorkflowStatus.validated;
  created_by = created_by;
  created_at = now;
  target_environment = target_environment;
  planner_model = draft.planner_model;
  version = 1;
  nodes = map (with_workflow id) nodes;
  edges = draft.edges;
  audit_events = [];
}

unfoldable pub concluded :
    WorkflowPlanDraft
    → (created_by target_environment : String) → Uuid
    → ℕ
    → Option (List WorkflowNode)
    → Issues
    → Result ValidationFailure Workflow
unfolding validated_workflow
concluded draft created_by target_environment id now none issues = err value_error
concluded draft created_by target_environment id now (some nodes) [] =
    ok (validated_workflow draft nodes created_by target_environment id now)
concluded draft created_by target_environment id now (some nodes) (i ∷ issues) =
    err (invalid (i ∷ issues))

unfoldable pub validate :
    WorkflowValidator
    → WorkflowPlanDraft
    → (created_by role : String) → List String
    → (target_environment : String) → Uuid
    → ℕ
    → Result ValidationFailure Workflow
unfolding concluded normalized_nodes draft_issues
validate validator draft created_by role allowed_tool_names target_environment id now =
    concluded draft created_by target_environment id now
      (normalized_nodes validator role allowed_tool_names draft.nodes)
      (draft_issues validator role allowed_tool_names draft)
