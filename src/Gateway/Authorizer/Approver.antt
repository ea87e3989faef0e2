-- ===== src/Gateway/Authorizer/Approver.antt =====
-- services/mcp-gateway: who may decide an approval (authorize_approval in stores.py).
use mcp_ai.Prelude.{◌≡◌, ◌≢◌, ◌↔◌, ap, some, string_eq, eq_iff, arith}
use mcp_ai.Prelude.Exec.{Result, ok, err}
use mcp_ai.Auth.{admin, approver-admin, approvals_approve, permission_value, parse_permission-value}
use mcp_ai.Gateway.Errors.{Raised}
use mcp_ai.Gateway.Models.{Principal, ai_agent, ApprovalRecord}
use mcp_ai.Gateway.Authorizer.{authorize_for, not_own, authorize, authorize_approval}

abbrev pub MayDecide : Principal → ApprovalRecord → Type 0
MayDecide p a = (p.role ≡ admin) × (p.principal_type ≢ ai_agent) × (p.principal_id ≢ a.requester_id)

authorize-approver :
    (p : Principal)
    → authorize p (permission_value approvals_approve)
      ≡ authorize_for p (permission_value approvals_approve) (some approvals_approve)
unfolding authorize
authorize-approver p =
    ap (authorize_for p (permission_value approvals_approve))
      (parse_permission-value approvals_approve)

approver-allowed :
    (p : Principal)
    → (authorize_for p (permission_value approvals_approve) (some approvals_approve) ≡ ok tt)
      ↔ (p.role ≡ admin)
unfolding authorize_for
approver-allowed p = ground (arith, approver-admin p.role)

own-refused :
    (p : Principal) (a : ApprovalRecord) (r : Result Raised (Unit {0}))
    → (not_own p a r ≡ ok tt)
      ↔ ((r ≡ ok tt) × (p.principal_type ≢ ai_agent) × (p.principal_id ≢ a.requester_id))
unfolding not_own
own-refused p a (err e) = ground arith
own-refused p a (ok u) = ground (arith, eq_iff p.principal_id a.requester_id)

-- `authorize_approval` lets a principal decide an approval exactly when it is an administrator, it
-- is no AI agent, and the approval is not of its own request.
pub authorize_approval_exactly :
    (p : Principal) (a : ApprovalRecord) → (authorize_approval p a ≡ ok tt) ↔ MayDecide p a
unfolding authorize_approval
authorize_approval_exactly p a = ground (
  arith,
  own-refused p a (authorize p (permission_value approvals_approve)),
  authorize-approver p,
  approver-allowed p,
)
