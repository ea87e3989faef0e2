-- ===== src/Gateway/Service/Call.antt =====
-- services/mcp-gateway/src/mcp_ops_mcp_gateway/service.py: McpGateway.call_tool and its helpers.
-- The names that the `except` clause reads (`principal`, `metadata`, `idempotency_reserved`) are the
-- fields of a `Frame` round the gateway, so that they keep what was assigned before a raise.
use mcp_ai.Prelude.{
  ℕ, String, Bool, true, false, not, ◌&&◌, ◌||◌, Option, none, some, List, [], ◌∷◌, ◌++◌, ◌==◌,
  if◌then◌else◌, string_eq, length,
}
use mcp_ai.Prelude.Text.{concat, is_empty}
use mcp_ai.Prelude.Dict.{get}
use mcp_ai.Prelude.Exec.{Exec, Result, ok, err, pure, modify, lift, zoom, ◌>>=◌, ◌>>◌}
use mcp_ai.Value.{Value, bool, int, str, arguments_eq}
use mcp_ai.Registry.{ToolMetadata}
use mcp_ai.Gateway.Errors.{Raised, raised, ErrorClass, error_code, malformed_arguments}
use mcp_ai.Gateway.Models.{
  Uuid, Principal, ApprovalStatus, status_value, is_approved, GatewayDecision, allowed, denied,
  pending_approval, decision_value, GatewayToolRequest, GatewayToolResponse, ApprovalRecord,
  AuditRecord,
}
use mcp_ai.Gateway.Approvals
use mcp_ai.Gateway.Approvals.{ApprovalStore}
use mcp_ai.Gateway.Service.{
  Environment, Arguments, Gateway, Action, in_approvals, now, outcome, hash_arguments,
  argument_hash, approval_binding_hash,
}

pub record Frame : Type 0 where
  pub gateway : Gateway
  pub principal : Option Principal
  pub metadata : Option ToolMetadata
  pub reserved : Bool

unfoldable pub in_gateway : {A : Type 0} → Action A → Exec Raised Frame A
in_gateway = zoom (λ f. f.gateway) (λ g f. record f { gateway = g })

-- `a and a != b` for a text that may be missing
abbrev pub differs : Option String → String → Bool
differs none b = false
differs (some a) b = not (is_empty a) && not (a == b)

-- `a is not None and a != b`
abbrev pub bound_elsewhere : Option String → Option String → Bool
bound_elsewhere none b = false
bound_elsewhere (some a) none = true
bound_elsewhere (some a) (some b) = not (a == b)

-- `_target_resource`
abbrev resource_keys : List String
resource_keys =
    "device_id" ∷ "repository" ∷ "run_id" ∷ "job_id" ∷ "ticket_id" ∷ "document_id" ∷ "procedure_id"
    ∷ []

module _ (env : Environment) where
  resource_text : Option Value → Option String
  resource_text (some (str s)) = some s
  resource_text (some (int n)) = some (env.str_of (int n))
  resource_text (some (bool b)) = some (env.str_of (bool b))
  resource_text _ = none

  target_resource : List String → Arguments → Option String
  unfolding resource_text
  target_resource [] arguments = none
  target_resource (key ∷ rest) arguments = elim (resource_text (get key arguments)) [
    | some s ↦ some s
    | none ↦ target_resource rest arguments
  ]

  refuse : String → Raised
  refuse message = raised malformed_arguments message

  -- the checks of `_approval_for_request` on the record that it found
  unfoldable pub matching_approval :
      GatewayToolRequest → ToolMetadata → Arguments → ApprovalRecord → Result Raised ApprovalRecord
  unfolding hash_arguments approval_binding_hash refuse
  matching_approval request m arguments approval =
      if not (approval.tool_name == m.tool_name) || not (arguments_eq approval.arguments arguments)
      then err (refuse "Approval does not match requested tool arguments.")
      else if differs approval.arguments_hash (hash_arguments env arguments)
      then err (refuse "Approval argument hash does not match requested arguments.")
      else if bound_elsewhere approval.workflow_id request.workflow_id
      then err (refuse "Approval is bound to a different workflow.")
      else if bound_elsewhere approval.workflow_node_id request.workflow_node_id
      then err (refuse "Approval is bound to a different workflow node.")
      else if differs approval.approval_binding_hash
          (approval_binding_hash env request approval.requester_id m.tool_name arguments)
      then err (refuse "Approval does not match requested tool arguments.")
      else if not (is_approved approval.status)
      then err (refuse (concat ("Approval status is " ∷ status_value approval.status ∷ "." ∷ [])))
      else ok approval

  unfoldable pub requested_approval :
      Option Uuid
      → GatewayToolRequest
      → ToolMetadata
      → Arguments
      → ℕ
      → Action (Option ApprovalRecord)
  unfolding in_approvals
  requested_approval none request m arguments at = pure none
  requested_approval (some approval_id) request m arguments at = do
    approval ← in_approvals (Approvals.get env.uuid4 approval_id at)
    matched ← lift (matching_approval request m arguments approval)
    pure (some matched)

  unfoldable pub approval_for_request :
      GatewayToolRequest → ToolMetadata → Arguments → ℕ → Action (Option ApprovalRecord)
  unfolding requested_approval in_approvals
  approval_for_request request m arguments at =
      if m.requires_approval
      then requested_approval request.approval_id request m arguments at
      else pure none

  -- GatewayPolicyEvaluator.evaluate_before_execution
  abbrev pub evaluate_before_execution : ToolMetadata → Option ApprovalRecord → GatewayDecision
  evaluate_before_execution m (some approval) = allowed
  evaluate_before_execution m none = if m.requires_approval then pending_approval else allowed

  append_audit : AuditRecord → Action (Unit {0})
  append_audit r = modify λ g. record g {
    approvals = record g.approvals { audit_log = g.approvals.audit_log ++ r ∷ [] };
  }

  unfoldable pub success :
      GatewayToolRequest
      → Principal
      → ToolMetadata
      → GatewayDecision
      → Arguments
      → Option ApprovalStatus
      → String
      → Action GatewayToolResponse
  unfolding append_audit argument_hash target_resource now
  success request principal m decision payload approval_status execution_status = do
    at ← now env
    append_audit (record {
      timestamp = at;
      actor_id = principal.principal_id;
      actor_role = principal.role;
      tool_name = m.tool_name;
      correlation_id = request.correlation_id;
      decision = decision;
      authorization_result = "ALLOW";
      risk_level = some m.risk_level;
      approval_status = approval_status;
      execution_status = execution_status;
      result_summary = decision_value decision;
      argument_hash = some (argument_hash env request.arguments);
      target_resource = target_resource resource_keys request.arguments;
    })
    pure (record {
      ok = true;
      decision = decision;
      correlation_id = request.correlation_id;
      payload = ("tool_name", str m.tool_name) ∷ payload;
      error = none;
    })

  unfoldable pub failure :
      GatewayToolRequest
      → Principal
      → Option ToolMetadata
      → ErrorClass
      → String
      → Action GatewayToolResponse
  unfolding append_audit argument_hash target_resource now
  failure request principal m class message = do
    at ← now env
    append_audit (record {
      timestamp = at;
      actor_id = principal.principal_id;
      actor_role = principal.role;
      tool_name = request.tool_name;
      correlation_id = request.correlation_id;
      decision = denied;
      authorization_result = "DENY";
      risk_level = elim m [ none ↦ none | some t ↦ some t.risk_level ];
      approval_status = none;
      execution_status = "DENIED";
      result_summary = error_code class;
      argument_hash = some (argument_hash env request.arguments);
      target_resource = target_resource resource_keys request.arguments;
    })
    pure (record {
      ok = false;
      decision = denied;
      correlation_id = request.correlation_id;
      payload = ("tool_name", str request.tool_name) ∷ [];
      error = some (error_code class, message);
    })

  -- `_execute_with_deadline`, with the call entered among the dispatches
  unfoldable pub execute_with_deadline : ToolMetadata → Arguments → Option Uuid → Action Arguments
  unfolding outcome
  execute_with_deadline m arguments approval g = (
    outcome env m (env.execute_tool (length g.dispatches) m arguments),
    record g {
      dispatches =
          g.dispatches ++ record { tool = m; arguments = arguments; approval = approval } ∷ [];
    },
  )
