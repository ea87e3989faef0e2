-- ===== src/Gateway/Service/CallTool.antt =====
-- services/mcp-gateway/src/mcp_ops_mcp_gateway/service.py: the body of McpGateway.call_tool.
use mcp_ai.Prelude.{ℕ, ◌+◌, Bool, true, false, Option, none, some, [], ◌∷◌}
use mcp_ai.Prelude.Exec.{Exec, err, pure, raise, modify, lift, try_except, ◌>>=◌, ◌>>◌}
use mcp_ai.Value.{str, dict, to_fields}
use mcp_ai.Auth.{viewer}
use mcp_ai.Registry.{ToolMetadata, risk_value}
use mcp_ai.Gateway.Errors.{Raised, raised, ErrorClass, error_code}
use mcp_ai.Gateway.Models.{
  Uuid, Principal, human, ApprovalStatus, status_value, allowed, pending_approval, GatewayDecision,
  GatewayToolRequest, GatewayToolResponse, ApprovalRecord,
}
use mcp_ai.Gateway.Authorizer.{authenticate, authorize}
use mcp_ai.Gateway.RateLimit
use mcp_ai.Gateway.Idempotency
use mcp_ai.Gateway.Idempotency.{succeeded, permanent_failed}
use mcp_ai.Gateway.Approvals
use mcp_ai.Gateway.Service.{
  Environment, Arguments, Action, in_limiter, in_idempotency, in_approvals,
  strip_untrusted_model_fields, find_metadata, check_tool_enabled, check_tool_executable,
  trusted_domain_arguments, now, validate_domain_arguments, hash_arguments, approval_binding_hash,
}
use mcp_ai.Gateway.Service.Call.{
  Frame, in_gateway, approval_for_request, evaluate_before_execution, success, failure,
  execute_with_deadline,
}

abbrev pub id_of : Option ApprovalRecord → Option Uuid
id_of none = none
id_of (some a) = some a.approval_id

module _ (env : Environment) where
  unfoldable pub fail_approval : Option ApprovalRecord → Principal → ErrorClass → Action (Unit {0})
  unfolding now in_approvals
  fail_approval none principal class = pure tt
  fail_approval (some approval) principal class = do
    at ← now env
    in_approvals (Approvals.mark_failed env.uuid4 approval principal at (error_code class))
    pure tt

  -- the inner `except GatewayError`
  on_error : Option ApprovalRecord → Principal → Raised → Action Arguments
  unfolding fail_approval
  on_error approval principal (raised class message) = do
    fail_approval approval principal class
    raise (raised class message)
  on_error approval principal e = raise e

  -- the inner `try`
  unfoldable pub attempt :
      GatewayToolRequest
      → Principal
      → ToolMetadata
      → Arguments
      → Option ApprovalRecord
      → Action Arguments
  unfolding on_error now in_idempotency execute_with_deadline
  attempt request principal m arguments approval =
      try_except
        (do
          now env
          in_idempotency (Idempotency.mark_running principal request.idempotency_key)
          execute_with_deadline env m (trusted_domain_arguments arguments principal m)
              (id_of approval))
        (on_error approval principal)

  -- The record that `mark_executed` returns is the caller's, so its status is the one to report.
  unfoldable pub settle :
      Option ApprovalRecord → Principal → Arguments → Action (Option ApprovalStatus)
  unfolding now in_approvals
  settle none principal content = pure none
  settle (some approval) principal content = do
    at ← now env
    done ← in_approvals (Approvals.mark_executed env.uuid4 approval principal at content)
    pure (some done.status)

  unfoldable pub completed_call :
      GatewayToolRequest
      → Principal
      → ToolMetadata
      → Arguments
      → Option ApprovalStatus
      → Action GatewayToolResponse
  unfolding success now in_idempotency
  completed_call request principal m content status = do
    response ←
        success env request principal m allowed (("tool_result", dict (to_fields content)) ∷ [])
          status "SUCCEEDED"
    at ← now env
    in_idempotency
        (Idempotency.complete principal request.idempotency_key response (some succeeded) at)
    pure response

  unfoldable pub settled_call :
      GatewayToolRequest
      → Principal
      → ToolMetadata
      → Option ApprovalRecord
      → Arguments
      → Action GatewayToolResponse
  unfolding settle completed_call
  settled_call request principal m approval content = do
    status ← settle approval principal content
    completed_call request principal m content status

  unfoldable pub allowed_call :
      GatewayToolRequest
      → Principal
      → ToolMetadata
      → Arguments
      → Option ApprovalRecord
      → Action GatewayToolResponse
  unfolding attempt settled_call
  allowed_call request principal m arguments approval = do
    content ← attempt request principal m arguments approval
    settled_call request principal m approval content

  unfoldable pub pending_call :
      GatewayToolRequest → Principal → ToolMetadata → Arguments → ℕ → Action GatewayToolResponse
  unfolding success in_approvals hash_arguments approval_binding_hash
  pending_call request principal m arguments at = do
    approval ← in_approvals (
        Approvals.create env.uuid4 principal m.tool_name arguments m.risk_level at
          request.workflow_id request.workflow_node_id (some (hash_arguments env arguments))
          (some (approval_binding_hash env request principal.principal_id m.tool_name arguments)))
    success env request principal m pending_approval
        (("approval_id", str approval.approval_id)
          ∷ ("approval_status", str (status_value approval.status))
          ∷ ("risk_level", str (risk_value m.risk_level))
          ∷ [])
        (some approval.status) "PENDING_APPROVAL"

  unfoldable pub decided_call :
      GatewayDecision
      → GatewayToolRequest
      → Principal
      → ToolMetadata
      → Arguments
      → ℕ
      → Option ApprovalRecord
      → Action GatewayToolResponse
  unfolding pending_call allowed_call
  decided_call pending_approval request principal m arguments at approval =
      pending_call request principal m arguments at
  decided_call _ request principal m arguments at approval =
      allowed_call request principal m arguments approval

  unfoldable pub governed_call :
      GatewayToolRequest → Principal → ToolMetadata → Arguments → ℕ → Action GatewayToolResponse
  unfolding approval_for_request decided_call
  governed_call request principal m arguments at = do
    approval ← approval_for_request env request m arguments at
    decided_call (evaluate_before_execution env m approval) request principal m arguments at
        approval

  unfoldable pub reserved_call :
      Option GatewayToolResponse
      → GatewayToolRequest
      → Principal
      → ToolMetadata
      → Arguments
      → ℕ
      → Exec Raised Frame GatewayToolResponse
  unfolding governed_call in_gateway
  reserved_call (some replay) request principal m arguments at = pure replay
  reserved_call none request principal m arguments at = do
    modify (λ f. record f { reserved = true })
    in_gateway (governed_call request principal m arguments at)

  -- the checks, up to the validated arguments
  unfoldable pub admit : GatewayToolRequest → ℕ → Exec Raised Frame (Principal × ToolMetadata)
  unfolding in_gateway in_limiter find_metadata check_tool_enabled check_tool_executable
      validate_domain_arguments
  admit request at = do
    principal ← in_gateway (λ g. (authenticate g.principals request.auth_token, g))
    modify (λ f. record f { principal = some principal })
    m ← in_gateway (find_metadata request.tool_name)
    modify (λ f. record f { metadata = some m })
    in_gateway (check_tool_enabled m)
    in_gateway (check_tool_executable m)
    in_gateway (lift (authorize principal m.required_permission))
    in_gateway (in_limiter (RateLimit.check principal m.tool_name m.rate_limit at))
    in_gateway
        (validate_domain_arguments env (strip_untrusted_model_fields request.arguments) principal m)
    pure (principal, m)

  unfoldable pub reserve_then_call :
      GatewayToolRequest → Principal → ToolMetadata → ℕ → Exec Raised Frame GatewayToolResponse
  unfolding reserved_call in_gateway in_idempotency
  reserve_then_call request principal m at = do
    replay ← in_gateway (in_idempotency (Idempotency.reserve principal request.idempotency_key at))
    reserved_call replay request principal m (strip_untrusted_model_fields request.arguments) at

  -- the outer `try`
  unfoldable pub try_call : GatewayToolRequest → ℕ → Exec Raised Frame GatewayToolResponse
  unfolding admit reserve_then_call
  try_call request at = do
    (principal, m) ← admit request at
    reserve_then_call request principal m at

  abbrev pub actor_of : Option Principal → Principal
  actor_of (some p) = p
  actor_of none = record { principal_id = "anonymous"; role = viewer; principal_type = human }

  unfoldable pub complete_failed :
      Option Principal → Bool → GatewayToolRequest → GatewayToolResponse → Action (Unit {0})
  unfolding now in_idempotency
  complete_failed (some principal) true request response = do
    at ← now env
    in_idempotency
        (Idempotency.complete principal request.idempotency_key response (some permanent_failed) at)
  complete_failed _ _ request response = pure tt

  -- the outer `except GatewayError`
  unfoldable pub refused_call : GatewayToolRequest → Raised → Exec Raised Frame GatewayToolResponse
  unfolding failure complete_failed
  refused_call request (raised class message) f =
      let (r, g) =
        (do
          response ← failure env request (actor_of f.principal) f.metadata class message
          complete_failed f.principal f.reserved request response
          pure response)
          f.gateway in
      (r, record f { gateway = g })
  refused_call request e f = (err e, f)

  -- What the caller sees: a response, or an exception that is no GatewayError.
  unfoldable pub call_tool : GatewayToolRequest → Action GatewayToolResponse
  unfolding try_call refused_call now
  call_tool request g =
      let frame : Frame = record {
        gateway = record g { ticks = g.ticks + 1 };
        principal = none;
        metadata = none;
        reserved = false;
      } in
      let (r, f) = try_except (try_call request (env.clock g.ticks)) (refused_call request) frame in
      (r, f.gateway)
