-- ===== src/Capabilities/Allowed.antt =====
-- services/ai-agent/src/mcp_ops_ai_agent/capabilities/service.py: `_edge_allowed`, which asks the policy of
-- workflows about a node that it makes for the edge.
use mathlib.Core.Option
use mcp_ai.Prelude.{
  ℕ, String, Bool, true, false, ◌||◌, Option, none, some, [], ◌∷◌, List, ◌==◌, elem, string_eq,
  if◌then◌else◌,
}
use mcp_ai.Prelude.Text.{concat, contains_text}
use mcp_ai.Prelude.Dict.{Dict}
use mcp_ai.Value.{Value, str, dict, to_fields}
use mcp_ai.Registry.{Registry}
use mcp_ai.Workflow.Models.{
  WorkflowNode, pending, no_retry, not_required, PolicyDecision, allow, allow_with_approval,
}
use mcp_ai.Workflow.Policy.{evaluate}
use mcp_ai.Capabilities.Search.{CapabilityEdge}

-- `text.endswith(suffix)`
unfoldable pub ends_with : String → String → Bool
ends_with suffix String.[] = suffix == ""
ends_with suffix (String.◌∷◌ c s) = suffix == String.◌∷◌ c s || ends_with suffix s

unfoldable pub arguments_for : String → String → Dict String Value
unfolding ends_with
arguments_for tool_name destination_type =
    if elem tool_name ("restart_service" ∷ "restart_device" ∷ "update_device_configuration" ∷ [])
    then ("device_id", str "SIM-014")
      ∷ ("service_name", str "sensor-ingestor")
      ∷ ("reason", str "Capability graph policy evaluation.")
      ∷ []
    else if tool_name == "create_ticket"
    then ("device_id", str "SIM-014")
      ∷ ("title", str "Capability graph issue")
      ∷ ("description", str "Capability graph generated issue path.")
      ∷ ("priority", str "HIGH")
      ∷ ("team", str "Engineering Operations")
      ∷ ("diagnostic_evidence", dict (to_fields (("source", str "capability_graph") ∷ [])))
      ∷ []
    else if contains_text "deployment" tool_name || ends_with "environment" destination_type
    then ("deployment_id", str "deploy-2026-08-11") ∷ ("repository", str "payments-api") ∷ []
    else ("query", str "capability graph") ∷ []

-- `decision in {ALLOW, ALLOW_WITH_APPROVAL}`
abbrev pub is_allowed : PolicyDecision → Bool
is_allowed allow = true
is_allowed allow_with_approval = true
is_allowed _ = false

module _ {Float : Type 0} where
  unfoldable pub node_for : CapabilityEdge Float → WorkflowNode
  unfolding arguments_for
  node_for edge = record {
    id = concat ("capability-" ∷ edge.tool_name ∷ []);
    workflow_id = none;
    tool_name = edge.tool_name;
    tool_server = edge.mcp_server;
    description = concat ("Capability graph edge for " ∷ edge.tool_name ∷ "." ∷ []);
    arguments = arguments_for edge.tool_name edge.destination_type;
    argument_references = [];
    depends_on = [];
    condition = none;
    typed_condition = none;
    risk_level = edge.risk;
    approval_required = false;
    execution_status = pending;
    attempts = 0;
    max_retries = 0;
    retry_strategy = no_retry;
    timeout_seconds = 30;
    last_error = none;
    started_at = none;
    completed_at = none;
    last_attempt_at = none;
    next_retry_at = none;
    result_reference = none;
    approval_id = none;
    approval_state = not_required;
    compensation_tool = none;
    policy_evaluation = none;
    knowledge_references = [];
  }

  -- no answer where the evaluation is not a valid one
  unfoldable pub edge_allowed :
      Registry
      → (now : ℕ) → (role environment : String) → (disabled_servers : List String)
      → CapabilityEdge Float
      → Option Bool
  unfolding node_for
  edge_allowed registry now role environment disabled_servers edge =
      if elem edge.mcp_server disabled_servers
      then some false
      else Option.map (λ v. is_allowed v.decision)
          (evaluate registry (node_for edge) "capability-graph" role environment "planning" now)
