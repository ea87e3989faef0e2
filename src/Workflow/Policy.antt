-- ===== src/Workflow/Policy.antt =====
-- services/ai-agent/src/mcp_ops_ai_agent/workflows/policy.py: what a workflow's node may do.
-- The metrics that the code records have no effect here; `now` is the clock's reading.
pub mod Decisions
use mcp_ai.Prelude.{
  ℕ, String, Bool, true, false, not, ◌&&◌, ◌||◌, Option, none, some, List, [], ◌∷◌, ◌==◌, string_eq,
  anyb, map, elem, if◌then◌else◌,
}
use mcp_ai.Prelude.Text.{has_length, optional_length, upper, lower, strip, is_empty, concat}
use mcp_ai.Prelude.Dict.{Dict, get}
use mcp_ai.Value.{Value, str}
use mcp_ai.Auth.{Role, Permission, parse_role, parse_permission, has_permission}
use mcp_ai.Registry.{
  RiskLevel, low, medium, high, critical, risk_value, is_read_risk, is_high_risk, ToolMetadata,
  Registry,
}
use mcp_ai.Workflow.Models.{
  WorkflowNode, WorkflowPolicyEvaluation, PolicyDecision, allow, allow_with_approval, deny,
  require_additional_context, NodeStatus, denied, blocked,
}

-- a decision, the rule that made it, and the reason
abbrev pub Ruling : Type 0
Ruling = PolicyDecision × String × String

unfoldable pub normalize_environment : String → String
normalize_environment environment =
    let normalized = lower (strip environment) in
    if normalized == "development" || normalized == "local"
    then "dev"
    else if normalized == "prod"
    then "production"
    else if is_empty normalized
    then "dev"
    else normalized

granted : Option Permission → Option Role → Bool
granted (some permission) (some role) = has_permission role permission
granted _ _ = false

unfoldable pub role_authorized : String → ToolMetadata → Bool
unfolding granted
role_authorized role m = elim m.required_roles [
  | [] ↦ granted (parse_permission m.required_permission) (parse_role (upper role))
  | item ∷ items ↦ elem (upper role) (map upper (item ∷ items))
]

named : Option Value → Option String
named (some (str s)) = if is_empty (strip s) then none else some s
named _ = none

abbrev resource_keys : List String
resource_keys =
    "device_id" ∷ "service_name" ∷ "pipeline_id" ∷ "deployment_id" ∷ "repository" ∷ "ticket_id"
    ∷ "document_id" ∷ []

resource_in : List String → Dict String Value → Option String
unfolding named
resource_in [] arguments = none
resource_in (key ∷ keys) arguments = elim (named (get key arguments)) [
  | some s ↦ some s
  | none ↦ resource_in keys arguments
]

unfoldable pub resource_of : WorkflowNode → Option String
unfolding resource_in
resource_of node = resource_in resource_keys node.arguments

abbrev is_none : Option String → Bool
is_none none = true
is_none (some s) = false

unfoldable pub requires_context : ToolMetadata → String → WorkflowNode → Bool
requires_context m environment node =
    environment == "production" && is_high_risk m.risk_level && is_none (resource_of node)

abbrev is_high : RiskLevel → Bool
is_high high = true
is_high _ = false

abbrev is_critical : RiskLevel → Bool
is_critical critical = true
is_critical _ = false

unfoldable pub environment_aware_operation_decision : ToolMetadata → String → String → Ruling
environment_aware_operation_decision m role environment =
    if environment == "dev" && is_high m.risk_level
    then (allow, "environment.dev.high", "High-risk dev action is allowed.")
    else if environment == "dev" && is_critical m.risk_level
    then (allow_with_approval, "environment.dev.critical", "Critical dev action requires approval.")
    else if environment == "staging"
    then if is_critical m.risk_level && not (upper role == "ADMIN")
      then (
        deny, "environment.staging.critical", "Only admins may request critical staging actions.",
      )
      else (
        allow_with_approval, "environment.staging.operation",
        "Staging operations require human approval.",
      )
    else if environment == "production"
    then if is_critical m.risk_level && not (upper role == "ADMIN")
      then (
        deny, "environment.production.critical",
        "Critical production actions are denied for this role.",
      )
      else (
        allow_with_approval, "environment.production.operation",
        "Production operations require human approval.",
      )
    else (
      allow_with_approval, "environment.unknown.operation",
      "Unknown environments require approval for operational tools.",
    )

-- WorkflowPolicyEvaluator._decision
unfoldable pub decide : ToolMetadata → String → String → String → WorkflowNode → Ruling
unfolding environment_aware_operation_decision requires_context
decide m role environment phase node =
    let normalized_env = normalize_environment environment in
    if phase == "execution" && not m.executable
    then (
      deny,
      "tool.executable",
      concat (m.tool_name ∷ " is catalog-only and cannot execute through MCP yet." ∷ []),
    )
    else if not m.enabled
    then (deny, "tool.enabled", concat (m.tool_name ∷ " is disabled." ∷ []))
    else if not (role_authorized role m)
    then (
      deny,
      "rbac.required_permission",
      concat ("Role " ∷ role ∷ " is not authorized for " ∷ m.required_permission ∷ "." ∷ []),
    )
    else if requires_context m normalized_env node
    then (
      require_additional_context, "context.required",
      "High-risk production actions require an explicit target resource.",
    )
    else if is_read_risk m.risk_level
    then (allow, "risk.read", "Read-only or low-risk tool is allowed.")
    else if m.requires_approval || is_high_risk m.risk_level
    then environment_aware_operation_decision m role normalized_env
    else (allow, "risk.medium", "Medium-risk engineering action is allowed.")

-- the bounds that WorkflowPolicyEvaluation declares
unfoldable pub is_valid_evaluation : WorkflowPolicyEvaluation → Bool
is_valid_evaluation v =
    has_length 1 160 v.actor
    && (has_length 1 64 v.role
        && (has_length 1 128 v.tool
            && (optional_length 240 v.resource
                && (has_length 1 64 v.environment
                    && (has_length 1 32 v.risk
                        && (has_length 1 160 v.policy_rule && has_length 1 500 v.reason))))))

-- none where a ValidationError is raised
unfoldable pub constructed : WorkflowPolicyEvaluation → Option WorkflowPolicyEvaluation
constructed v = if is_valid_evaluation v then some v else none

-- `evaluate` for what the registry says of the tool
unfoldable pub evaluated :
    Option ToolMetadata
    → WorkflowNode
    → (actor role environment phase : String) → (now : ℕ) → Option WorkflowPolicyEvaluation
evaluated none node actor role environment phase now = constructed (record {
  actor = actor;
  role = role;
  tool = node.tool_name;
  resource = resource_of node;
  environment = normalize_environment environment;
  risk = "UNKNOWN";
  decision = deny;
  policy_rule = "tool.exists";
  reason = concat ("Tool " ∷ node.tool_name ∷ " is not registered." ∷ []);
  timestamp = now;
})
evaluated (some m) node actor role environment phase now =
    let ruling = decide m role environment phase node in
    constructed (record {
      actor = actor;
      role = role;
      tool = m.tool_name;
      resource = resource_of node;
      environment = normalize_environment environment;
      risk = risk_value m.risk_level;
      decision = ruling.0;
      policy_rule = ruling.1;
      reason = ruling.2;
      timestamp = now;
    })

unfoldable pub evaluate :
    Registry
    → WorkflowNode
    → (actor role environment phase : String) → (now : ℕ) → Option WorkflowPolicyEvaluation
unfolding evaluated
evaluate registry node = evaluated (get node.tool_name registry) node

-- The fields of a proposed node that `_detect_llm_policy_bypass` reports.
unfoldable pub bypass_attempts : WorkflowNode → ToolMetadata → List String
bypass_attempts proposed m =
    let rest =
      if not proposed.approval_required && (m.requires_approval || is_high_risk m.risk_level)
      then "approval_required" ∷ []
      else [] in
    if proposed.risk_level == risk_value m.risk_level then rest else "risk_level" ∷ rest

abbrev status_after : PolicyDecision → NodeStatus → NodeStatus
status_after deny status = denied
status_after require_additional_context status = blocked
status_after _ status = status

abbrev needs_approval : PolicyDecision → Bool
needs_approval allow_with_approval = true
needs_approval _ = false

abbrev trusted_risk : Option ToolMetadata → WorkflowPolicyEvaluation → String
trusted_risk (some m) evaluation = risk_value m.risk_level
trusted_risk none evaluation = evaluation.risk

unfoldable pub transform_node_with_policy :
    WorkflowNode → WorkflowPolicyEvaluation → Option ToolMetadata → WorkflowNode
transform_node_with_policy node evaluation metadata = record node {
  risk_level = trusted_risk metadata evaluation;
  approval_required = needs_approval evaluation.decision;
  policy_evaluation = some evaluation;
  execution_status = status_after evaluation.decision node.execution_status;
}
