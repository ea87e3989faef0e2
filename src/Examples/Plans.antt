-- ===== src/Examples/Plans.antt =====
-- Concrete plans of two nodes: one in order, and one with a cycle that an edge closes.
use mcp_ai.Prelude.{
  ◌≡◌, ◌↔◌, refl, String, true, false, none, some, [], ◌∷◌, List, elem, filterb, string_eq,
}
use mcp_ai.Prelude.Dict.{keys, get, put}
use mcp_ai.Prelude.Exec.{Result, ok, err}
use mcp_ai.Value.{str}
use mcp_ai.Registry.{ToolMetadata, medium}
use mcp_ai.Workflow.Models.{
  Workflow, WorkflowNode, WorkflowEdge, WorkflowPlanDraft, pending, no_retry, fixed_delay,
  not_required,
}
use mcp_ai.Workflow.Order.{by_id, topological_nodes}
use mcp_ai.Workflow.Order.Precedence.{IsOrder}
use mcp_ai.Workflow.Validator.{
  validate_dependencies, validate_argument_references, validate_typed_conditions, validate_edges,
}
use mcp_ai.Workflow.Validator.Acyclic.{
  validate_acyclic, graph_of, add_nodes, add_edges, first_cycle, visit, visit_each, cycle_issue,
}
use mcp_ai.Workflow.Validator.Acyclic.Search.{Reaches}
use mcp_ai.Workflow.Validator.Acyclic.Cycles.{validate_acyclic-none}
use mcp_ai.Workflow.Validator.Ordered.{validate_acyclic-IsOrder}
use mcp_ai.Workflow.Validator.Schema.{
  validate_arguments, classify_risk, parse_retry_strategy, with_strategy, classified,
}
use mcp_ai.Workflow.Validator.Validate.{
  WorkflowValidator, ValidationFailure, validate, has_duplicates, all_issues, node_issues,
  tool_issues, normalized_nodes, normalized_node, draft_issues, validated_workflow, concluded,
}
use mcp_ai.Workflow.Validator.Validate.Outcomes.{Outcome, validate-Outcome}

abbrev build : ToolMetadata
build = record {
  tool_name = "cicd.build";
  domain = "cicd";
  description = "Build a branch.";
  risk_level = medium;
  required_permission = "cicd:execute";
  requires_approval = true;
  server = "cicd-mcp";
  category = "cicd";
  tags = [];
  required_roles = [];
  idempotent = true;
  retry_safe = true;
  default_max_retries = 2;
  retry_strategy = "FIXED_DELAY";
  compensation_tool = none;
  executable = true;
  timeout_seconds = 5;
  rate_limit = "2/second";
  enabled = true;
}

abbrev compile : WorkflowNode
compile = record {
  id = "compile";
  workflow_id = none;
  tool_name = "cicd.build";
  tool_server = "elsewhere";
  description = "Build it.";
  arguments = ("branch", str "main") ∷ [];
  argument_references = [];
  depends_on = [];
  condition = none;
  typed_condition = none;
  risk_level = "READ_ONLY";
  approval_required = false;
  execution_status = pending;
  attempts = 0;
  max_retries = 9;
  retry_strategy = no_retry;
  timeout_seconds = 30;
  last_error = none;
  started_at = none;
  completed_at = none;
  last_attempt_at = none;
  next_retry_at = none;
  result_reference = none;
  approval_id = none;
  approval_state = not_required;
  compensation_tool = none;
  policy_evaluation = none;
  knowledge_references = [];
}

abbrev verify : WorkflowNode
verify = record compile { id = "verify"; depends_on = "compile" ∷ [] }

abbrev steps : List WorkflowNode
steps = verify ∷ compile ∷ []

abbrev forth : WorkflowEdge
forth = record { source = "compile"; destination = "verify"; condition = none }

abbrev back : WorkflowEdge
back = record { source = "verify"; destination = "compile"; condition = none }

validate_acyclic-none_example :
    (validate_acyclic steps (back ∷ []) ≡ [])
    ↔ ((k : String) → ¬ Reaches (graph_of steps (back ∷ [])) k k)
validate_acyclic-none_example = validate_acyclic-none steps (back ∷ [])

steps-acyclic : validate_acyclic steps (forth ∷ []) ≡ []
unfolding validate_acyclic graph_of add_nodes add_edges first_cycle visit visit_each get put elem
    filterb
steps-acyclic = refl

-- the edge back closes a cycle, which is found
back-cyclic : validate_acyclic steps (back ∷ []) ≡ cycle_issue (some "verify")
unfolding validate_acyclic graph_of add_nodes add_edges first_cycle visit visit_each get put elem
    filterb
back-cyclic = refl

validate_acyclic-IsOrder_example : IsOrder (keys (by_id steps)) (topological_nodes steps)
validate_acyclic-IsOrder_example = validate_acyclic-IsOrder steps (forth ∷ []) steps-acyclic

abbrev validator : WorkflowValidator
validator = record {
  registry = ("cicd.build", build) ∷ [];
  input_schemas = [];
  max_nodes = 25;
  max_edges = 40;
  re_match = λ pattern text. true;
  str_of = λ v. "";
}

abbrev draft : WorkflowPlanDraft
draft = record {
  user_request = "Build main.";
  planner_model = "rules";
  nodes = steps;
  edges = forth ∷ [];
}

validate-Outcome_example :
    Outcome validator "ENGINEER"
      ("cicd.build" ∷ [])
      draft
      "w"
      (validate validator draft "engineer-1" "ENGINEER" ("cicd.build" ∷ []) "staging" "w" 5)
validate-Outcome_example =
    validate-Outcome validator "ENGINEER" ("cicd.build" ∷ []) draft "engineer-1" "staging" "w" 5

-- a plan that is valid, whose claims of a read-only tool without approval are not kept
abbrev governed : WorkflowNode → WorkflowNode
governed n = record n {
  workflow_id = some "w";
  tool_server = "cicd-mcp";
  risk_level = "MEDIUM";
  approval_required = true;
  max_retries = 2;
  retry_strategy = fixed_delay;
  timeout_seconds = 5;
}

abbrev nodes_of : Result ValidationFailure Workflow → List WorkflowNode
nodes_of (ok w) = w.nodes
nodes_of (err e) = []

validates :
    nodes_of (validate validator draft "engineer-1" "ENGINEER" ("cicd.build" ∷ []) "staging" "w" 5)
    ≡ governed verify ∷ governed compile ∷ []
unfolding validate concluded validated_workflow draft_issues normalized_nodes normalized_node
    all_issues node_issues tool_issues validate_arguments has_duplicates validate_dependencies
    validate_argument_references validate_typed_conditions validate_edges validate_acyclic graph_of
    add_nodes add_edges first_cycle visit visit_each classify_risk with_strategy classified
    parse_retry_strategy get put elem filterb
validates = refl
