-- ===== src/Gateway/Service/Checks.antt =====
-- services/mcp-gateway/src/mcp_ops_mcp_gateway/service.py: what a call has passed when the checks of
-- `call_tool` and `_approval_for_request` let it through.
use mcp_ai.Prelude.{
  ℕ, ◌≡◌, refl, true, false, Option, none, some, inl, inr, string_eq, eq_iff, elem, arith,
  Option-cases, Bool-cases,
}
use mcp_ai.Prelude.Dict.{get}
use mcp_ai.Prelude.Exec.{ok}
use mcp_ai.Value.{arguments_eq}
use mcp_ai.Registry.{ToolMetadata}
use mcp_ai.Gateway.Models.{Uuid, Principal, approved, allowed, ApprovalRecord, GatewayToolRequest}
use mcp_ai.Gateway.Authorizer.{authenticate, authorize}
use mcp_ai.Gateway.Approvals
use mcp_ai.Gateway.Approvals.{ApprovalStore}
use mcp_ai.Gateway.Service.{Environment, Arguments, Gateway, strip_untrusted_model_fields}
use mcp_ai.Gateway.Service.Call.{
  Frame, requested_approval, evaluate_before_execution, approval_for_request, matching_approval,
}
use mcp_ai.Gateway.Service.CallTool.{admit}

-- The tool is registered under the requested name, enabled and executable, and the role of the
-- token's principal holds its permission.
pub record IsAdmitted (g : Gateway) (request : GatewayToolRequest) (p : Principal)
    (m : ToolMetadata) : Type 0 where
  pub authentic : authenticate g.principals request.auth_token ≡ ok p
  pub registered : get request.tool_name g.registry ≡ some m
  pub enabled : m.enabled ≡ true
  pub not_disabled : elem m.tool_name g.disabled_tools ≡ false
  pub executable : m.executable ≡ true
  pub authorized : authorize p m.required_permission ≡ ok tt

-- A tool that needs approval is called only with one: it is approved, is that of the request, and
-- was granted for the same tool and arguments.
abbrev pub Gated :
    ApprovalStore → GatewayToolRequest → ToolMetadata → Option ApprovalRecord → Type 0
Gated s request m none = m.requires_approval ≡ false
Gated s request m (some a) =
    (k : Uuid) × (request.approval_id ≡ some k)
    × (get k s.approvals ≡ some a)
    × (a.status ≡ approved)
    × (a.tool_name ≡ m.tool_name)
    × (arguments_eq a.arguments (strip_untrusted_model_fields request.arguments) ≡ true)

module _ (env : Environment) where
  pub admit-quiet :
      (request : GatewayToolRequest) (at : ℕ) (f : Frame)
      → ((admit env request at f).1.gateway.dispatches ≡ f.gateway.dispatches)
        × ((admit env request at f).1.gateway.approvals ≡ f.gateway.approvals)
  unfolding admit
  admit-quiet request at f = ground arith

  pub admit-ok :
      (request : GatewayToolRequest) (at : ℕ) (f : Frame) {p : Principal} {m : ToolMetadata}
      → (admit env request at f).0 ≡ ok (p, m)
      → IsAdmitted f.gateway request p m
  unfolding admit
  admit-ok request at f h = ground arith

  matching-ok :
      (request : GatewayToolRequest) (m : ToolMetadata) (arguments : Arguments)
      (a b : ApprovalRecord)
      → matching_approval env request m arguments a ≡ ok b
      → (b ≡ a)
        × (a.status ≡ approved)
        × (a.tool_name ≡ m.tool_name)
        × (arguments_eq a.arguments arguments ≡ true)
  unfolding matching_approval
  matching-ok request m arguments a b h = ground (arith, eq_iff a.tool_name m.tool_name)

  get-ok :
      (s : ApprovalStore) (k : Uuid) (at : ℕ) (a : ApprovalRecord)
      → (Approvals.get env.uuid4 k at s).0 ≡ ok a
      → a.status ≡ approved
      → get k s.approvals ≡ some a
  unfolding Approvals.get
  get-ok s k at a h st = elim (Option-cases (get k s.approvals)) [
    | inl e ↦ ground (arith, e)
    | inr (b, e) ↦ ground (arith, e)
  ]

  pub approval-quiet :
      (request : GatewayToolRequest) (m : ToolMetadata) (arguments : Arguments) (at : ℕ)
      (g : Gateway)
      → (approval_for_request env request m arguments at g).1.dispatches ≡ g.dispatches
  unfolding approval_for_request
  approval-quiet request m arguments at g = ground arith

  requested-found :
      (k : Uuid) (request : GatewayToolRequest) (m : ToolMetadata) (args : Arguments) (at : ℕ)
      (g : Gateway) (a : ApprovalRecord)
      → (requested_approval env (some k) request m args at g).0 ≡ ok (some a)
      → (b : ApprovalRecord) × ((Approvals.get env.uuid4 k at g.approvals).0 ≡ ok b)
        × (matching_approval env request m args b ≡ ok a)
  unfolding requested_approval
  requested-found k request m args at g a h = ground arith

  requested-ok :
      (k : Option Uuid) (request : GatewayToolRequest) (m : ToolMetadata) (at : ℕ) (g : Gateway)
      (o : Option ApprovalRecord)
      → request.approval_id ≡ k
      → m.requires_approval ≡ true
      → (requested_approval env k request m (strip_untrusted_model_fields request.arguments) at g).0
        ≡ ok o
      → evaluate_before_execution env m o ≡ allowed
      → Gated g.approvals request m o
  unfolding requested_approval
  requested-ok none request m at g none e needs h d = ground arith
  requested-ok none request m at g (some a) e needs h d = ground arith
  requested-ok (some k) request m at g none e needs h d = ground arith
  requested-ok (some k) request m at g (some a) e needs h d =
      let args = strip_untrusted_model_fields request.arguments in
      let (b, found, matched) = requested-found k request m args at g a h in
      let (same, granted, tool, arguments) = matching-ok request m args b a matched in
      (
        k,
        e,
        rw same (get-ok g.approvals k at b found granted),
        rw same granted,
        rw same tool,
        rw same arguments,
      )

  pub approval-ok :
      (request : GatewayToolRequest) (m : ToolMetadata) (at : ℕ) (g : Gateway)
      (o : Option ApprovalRecord)
      → (approval_for_request env request m (strip_untrusted_model_fields request.arguments) at g).0
        ≡ ok o
      → evaluate_before_execution env m o ≡ allowed
      → Gated g.approvals request m o
  unfolding approval_for_request
  approval-ok request m at g o h d = elim (Bool-cases m.requires_approval) [
    | inl needs ↦
        requested-ok request.approval_id request m at g o refl needs (ground (arith, needs, h)) d
    | inr free ↦ ground (arith, free)
  ]
