-- ===== src/Gateway/Service/Operations.antt =====
-- services/mcp-gateway/src/mcp_ops_mcp_gateway/service.py: approve_operation, reject_operation,
-- list_approvals and get_approval. `model_dump` is pydantic's.
use mcp_ai.Prelude.{ℕ, String, true, false, Option, none, some, List, [], ◌∷◌}
use mcp_ai.Prelude.Exec.{pure, raise, lift, try_except, ◌>>=◌, ◌>>◌}
use mcp_ai.Value.{Value, Items, nil, cons, str, list}
use mcp_ai.Gateway.Errors.{Raised, raised, error_code}
use mcp_ai.Gateway.Models.{
  Uuid, Principal, status_value, allowed, denied, ApprovalRecord, GatewayDecision,
  GatewayToolResponse,
}
use mcp_ai.Gateway.Authorizer.{authenticate, authorize, authorize_approval}
use mcp_ai.Gateway.Approvals
use mcp_ai.Gateway.Service.{Environment, Arguments, Action, in_approvals, now}

abbrev pub text_or_empty : Option String → String
text_or_empty none = ""
text_or_empty (some s) = s

abbrev accepted : GatewayDecision → Uuid → Arguments → GatewayToolResponse
accepted decision correlation_id payload = record {
  ok = true;
  decision = decision;
  correlation_id = correlation_id;
  payload = payload;
  error = none;
}

-- `except GatewayError`
unfoldable pub or_denied : Uuid → Raised → Action GatewayToolResponse
or_denied correlation_id (raised class message) = pure (record {
  ok = false;
  decision = denied;
  correlation_id = correlation_id;
  payload = [];
  error = some (error_code class, message);
})
or_denied correlation_id e = raise e

module _ (env : Environment) where
  -- the approval that the principal of a token may decide
  unfoldable pub decidable : String → Uuid → ℕ → Action (Principal × ApprovalRecord)
  unfolding in_approvals
  decidable auth_token approval_id at = do
    principal ← λ g. (authenticate g.principals auth_token, g)
    approval ← in_approvals (Approvals.get env.uuid4 approval_id at)
    lift (authorize_approval principal approval)
    pure (principal, approval)

  unfoldable pub grant : String → Uuid → ℕ → Action GatewayToolResponse
  unfolding decidable in_approvals
  grant auth_token approval_id at = do
    (principal, approval) ← decidable auth_token approval_id at
    granted ← in_approvals (Approvals.approve env.uuid4 approval.approval_id principal at)
    pure (
        accepted allowed approval.approval_id (
          ("approval_id", str granted.approval_id)
          ∷ ("approval_status", str (status_value granted.status))
          ∷ ("approved_by", str (text_or_empty granted.approved_by))
          ∷ []))

  unfoldable pub approve_operation : String → Uuid → Action GatewayToolResponse
  unfolding grant now or_denied
  approve_operation auth_token approval_id = do
    at ← now env
    try_except (grant auth_token approval_id at) (or_denied approval_id)

  unfoldable pub refuse : String → Uuid → String → ℕ → Action GatewayToolResponse
  unfolding decidable in_approvals
  refuse auth_token approval_id reason at = do
    (principal, approval) ← decidable auth_token approval_id at
    refused ← in_approvals (Approvals.reject env.uuid4 approval_id principal reason at)
    pure (
        accepted denied approval_id (
          ("approval_id", str refused.approval_id)
          ∷ ("approval_status", str (status_value refused.status))
          ∷ ("rejected_by", str (text_or_empty refused.rejected_by))
          ∷ []))

  unfoldable pub reject_operation : String → Uuid → String → Action GatewayToolResponse
  unfolding refuse now or_denied
  reject_operation auth_token approval_id reason = do
    at ← now env
    try_except (refuse auth_token approval_id reason at) (or_denied approval_id)

  module _ (model_dump : ApprovalRecord → Value) where
    dump_all : List ApprovalRecord → Items
    dump_all [] = nil
    dump_all (a ∷ rest) = cons (model_dump a) (dump_all rest)

    abbrev listing_id : Uuid
    listing_id = "00000000-0000-0000-0000-000000000001"

    unfoldable pub list_approvals : String → Action GatewayToolResponse
    unfolding now or_denied in_approvals dump_all
    list_approvals auth_token = do
      at ← now env
      try_except
          (do
            principal ← λ g. (authenticate g.principals auth_token, g)
            lift (authorize principal "approvals:approve")
            all ← in_approvals (Approvals.list_approvals env.uuid4 at none)
            pure (accepted allowed listing_id (("approvals", list (dump_all all)) ∷ [])))
          (or_denied listing_id)

    unfoldable pub get_approval : String → Uuid → Action GatewayToolResponse
    unfolding now or_denied in_approvals
    get_approval auth_token approval_id = do
      at ← now env
      try_except
          (do
            principal ← λ g. (authenticate g.principals auth_token, g)
            lift (authorize principal "approvals:approve")
            approval ← in_approvals (Approvals.detail env.uuid4 approval_id at)
            pure (accepted allowed approval_id (("approval", model_dump approval) ∷ [])))
          (or_denied approval_id)
