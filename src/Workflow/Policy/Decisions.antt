-- ===== src/Workflow/Policy/Decisions.antt =====
-- What WorkflowPolicyEvaluator allows, and that a planner's own claims do not count.
use mathlib.Core.Option
use mcp_ai.Prelude.{
  ℕ, ◌≡◌, ◌≢◌, ◌↔◌, ◌⊎◌, refl, ap, String, Bool, true, false, none, inl, inr, ◌==◌, string_eq,
  eq_iff, arith, Option-cases,
}
use mcp_ai.Prelude.Text.{upper}
use mcp_ai.Prelude.Dict.{get}
use mcp_ai.Registry.{medium, high, critical, is_read_risk, is_high_risk, ToolMetadata, Registry}
use mcp_ai.Workflow.Models.{WorkflowNode, allow, allow_with_approval}
use mcp_ai.Workflow.Policy.{
  normalize_environment, role_authorized, requires_context, resource_of, decide, evaluate,
  transform_node_with_policy,
}

-- what does not need a human
abbrev pub Harmless : ToolMetadata → String → Type 0
Harmless m environment =
    (is_read_risk m.risk_level ≡ true)
    ⊎ (((m.risk_level ≡ medium) × (m.requires_approval ≡ false))
        ⊎ ((m.risk_level ≡ high) × (environment ≡ "dev")))

-- A tool is allowed without approval exactly when it is enabled (and executable, if it is to be
-- executed), the role is authorized for it, no resource is missing, and it is of read-only or low
-- risk, or of medium risk with no approval asked for, or of high risk in development.
pub decide-allow :
    (m : ToolMetadata) (role environment phase : String) (node : WorkflowNode)
    → ((decide m role environment phase node).0 ≡ allow) ↔ (
        (phase ≡ "execution" → m.executable ≡ true)
        × (m.enabled ≡ true)
        × (role_authorized role m ≡ true)
        × (requires_context m (normalize_environment environment) node ≡ false)
        × Harmless m (normalize_environment environment))
unfolding decide requires_context
decide-allow m role environment phase node =
    ground (arith, eq_iff phase "execution", eq_iff (normalize_environment environment) "dev")

-- In production, a tool of high or critical risk is never allowed without approval; and it is
-- allowed with approval only for a node that names its resource, and a critical one only for an
-- administrator.
pub decide-production :
    (m : ToolMetadata) (role environment phase : String) (node : WorkflowNode)
    → normalize_environment environment ≡ "production"
    → is_high_risk m.risk_level ≡ true
    → ((decide m role environment phase node).0 ≢ allow)
      × ((decide m role environment phase node).0 ≡ allow_with_approval
          → (resource_of node ≢ none) × (m.risk_level ≡ critical → upper role ≡ "ADMIN"))
unfolding decide requires_context
decide-production m role environment phase node e h = ground (
  arith,
  h,
  eq_iff (upper role) "ADMIN",
  ap (λ x. x == "dev") e,
  ap (λ x. x == "staging") e,
  ap (λ x. x == "production") e,
)

-- What the plan claims of a node's risk and of its need for approval changes nothing in what the
-- policy makes of the node, nor in whether the evaluation can be made.
pub claims_ignored :
    (registry : Registry) (node : WorkflowNode) (risk_level : String) (approval_required : Bool)
    (actor role environment phase : String) (now : ℕ)
    → let claimed : WorkflowNode = record node {
      risk_level = risk_level;
      approval_required = approval_required;
    } in
      Option.map
        (λ v. transform_node_with_policy claimed v (get node.tool_name registry))
        (evaluate registry claimed actor role environment phase now)
      ≡ Option.map
          (λ v. transform_node_with_policy node v (get node.tool_name registry))
          (evaluate registry node actor role environment phase now)
unfolding transform_node_with_policy evaluate decide requires_context resource_of
claims_ignored registry node risk_level approval_required actor role environment phase now =
    elim (Option-cases (get node.tool_name registry)) [ inl e ↦ rw e refl | inr (m, e) ↦ rw e refl ]
