-- ===== src/Workflow/Engine/Node.antt =====
-- services/ai-agent/src/mcp_ops_ai_agent/workflows/service.py: `_execute_node_with_recovery` and
-- `_compensate_node`. Every path of the `while True` returns in its first round, so it is no loop.
use mcp_ai.Prelude.{
  ℕ, ◌+◌, String, Bool, true, false, ◌&&◌, Option, none, some, [], ◌∷◌, string_eq, if◌then◌else◌,
}
use mcp_ai.Prelude.Text.{concat, lower, is_empty, contains_text}
use mcp_ai.Prelude.Dict.{get, put}
use mcp_ai.Prelude.Exec.{Result, ok, err, pure, raise, gets, modify, ◌>>=◌, ◌>>◌}
use mcp_ai.Value.{Value, str, arguments_eq}
use mcp_ai.Gateway.Models.{Uuid, GatewayDecision, denied, pending_approval, GatewayToolResponse}
use mcp_ai.Workflow.Models.{
  WorkflowNode, running, waiting, succeeded, failed, retrying, compensating, compensated,
  ApprovalState, executing, waiting_approval, expired, rejected,
}
use mcp_ai.Workflow.Models.{WorkflowStatus}
use mcp_ai.Workflow.Arguments.{Binding, resolve_node_arguments, normalize_tool_output}
use mcp_ai.Workflow.Retry.{transient_failure, retry_allowed, next_retry_time}
use mcp_ai.Workflow.Engine.{
  EngineEnv, propagated, CallFailure, timed_out, connection_failed, runtime_failed, other_failure,
  Action, now, draw, checkpoint, replace_nodes, commit, audit, execute_node,
}

abbrev or_else : Option ℕ → ℕ → ℕ
or_else none at = at
or_else (some started) at = started

-- the approval state where the node has an approval
abbrev state_if : Option Uuid → ApprovalState → ApprovalState → ApprovalState
state_if none new old = old
state_if (some id) new old = new

unfoldable pub running_form : WorkflowNode → ℕ → WorkflowNode
running_form node at = record node {
  execution_status = running;
  approval_state = state_if node.approval_id executing node.approval_state;
  attempts = node.attempts + 1;
  started_at = some (or_else node.started_at at);
  last_attempt_at = some at;
  last_error = none;
}

abbrev text_or : String → String → String
text_or text other = if is_empty text then other else text

error_or : Option (String × String) → String
error_or none = "tool execution failed"
error_or (some (code, message)) = text_or message (text_or code "tool execution failed")

-- `_response_error`
unfoldable pub response_error : GatewayToolResponse → String
unfolding error_or
response_error response = error_or response.error

failed_state : Option Uuid → WorkflowNode → String → ApprovalState
failed_state approval_id node error_text =
    if contains_text "expired" error_text
    then expired
    else if contains_text "rejected" error_text
    then rejected
    else ApprovalState.failed

-- `_failed_approval_state`
failed_approval_state : WorkflowNode → Option Uuid → GatewayToolResponse → ApprovalState
unfolding failed_state response_error
failed_approval_state node (some id) response =
    failed_state (some id) node (lower (response_error response))
failed_approval_state node none response =
    if node.approval_required
    then failed_state none node (lower (response_error response))
    else node.approval_state

abbrev text_or_empty : Option String → String
text_or_empty none = ""
text_or_empty (some s) = s

-- the node that stands for the compensation's request
unfoldable pub compensation_form : WorkflowNode → String → Uuid → WorkflowNode
compensation_form node tool workflow_id = record node {
  execution_status = compensating;
  tool_name = tool;
  arguments =
      ("workflow_id", str workflow_id)
      ∷ ("failed_node_id", str node.id)
      ∷ ("result_reference", str (text_or_empty node.result_reference))
      ∷ [];
}

unfoldable pub lost_form : WorkflowNode → GatewayToolResponse → ℕ → WorkflowNode
unfolding failed_approval_state
lost_form node response at = record node {
  execution_status = failed;
  approval_state = failed_approval_state node node.approval_id response;
  result_reference = some response.correlation_id;
  last_error = some (response_error response);
  completed_at = some at;
}

module _ {G : Type 0} (env : EngineEnv G) where
  parsed_id : Option Value → Option Uuid
  parsed_id (some (str text)) = env.parse_uuid text
  parsed_id _ = none

  -- `_approval_id_from_response`
  approval_id_from_response : GatewayToolResponse → Option Uuid
  unfolding parsed_id
  approval_id_from_response response = parsed_id (get "approval_id" response.payload)

  unfoldable pub failure_response : WorkflowNode → String → String → Action G GatewayToolResponse
  unfolding draw
  failure_response node code message = do
    correlation_id ← draw env
    pure (record {
      ok = false;
      decision = denied;
      correlation_id = correlation_id;
      payload = ("tool_name", str node.tool_name) ∷ [];
      error = some (code, text_or message (concat (node.tool_name ∷ " failed." ∷ [])));
    })

  -- the `except` clauses round the call
  unfoldable pub answered :
      WorkflowNode → Result CallFailure GatewayToolResponse → Action G GatewayToolResponse
  unfolding failure_response
  answered node (ok response) = pure response
  answered node (err (timed_out message)) = failure_response node "timeout" message
  answered node (err (connection_failed message)) = failure_response node "network_failure" message
  answered node (err (runtime_failed message)) =
      failure_response node "tool_server_unavailable" message
  answered node (err other_failure) = raise (propagated other_failure)

  -- the node with its arguments bound, committed if they changed
  unfoldable pub bound : WorkflowNode → WorkflowNode → Action G WorkflowNode
  unfolding commit
  bound node resolved = if arguments_eq resolved.arguments node.arguments then pure node else do
    let ready : WorkflowNode = record resolved { argument_references = [] }
    commit env "workflow.node.arguments_bound" ready
    pure ready

  -- the `try`: the node as it was run, and the response
  unfoldable pub attempted :
      Binding WorkflowNode
      → WorkflowNode
      → String
      → Option String
      → Action G (WorkflowNode × GatewayToolResponse)
  unfolding failure_response bound execute_node answered
  attempted (err message) node role auth_token = do
    response ← failure_response node "argument_binding_failed" message
    pure (node, response)
  attempted (ok resolved) node role auth_token = do
    ready ← bound node resolved
    outcome ← execute_node env ready role auth_token
    response ← answered ready outcome
    pure (ready, response)

  abbrev reference_of : Option Uuid → Uuid → String
  reference_of none result_ref = result_ref
  reference_of (some id) result_ref = id

  unfoldable pub wait_for_approval :
      WorkflowNode → String → GatewayToolResponse → Action G (Unit {0})
  unfolding audit replace_nodes checkpoint approval_id_from_response
  wait_for_approval node role response = do
    let approval_id = approval_id_from_response response
    let parked : WorkflowNode = record node {
      execution_status = waiting;
      approval_id = approval_id;
      approval_state = waiting_approval;
      result_reference = some (reference_of approval_id response.correlation_id);
    }
    modify (λ r. record r {
      nodes_by_id = put node.id parked r.nodes_by_id;
      updated = record r.updated { status = WorkflowStatus.waiting_approval };
    })
    audit env "workflow.approval_requested" role
        (concat ("Approval requested for " ∷ node.tool_name ∷ "." ∷ [])) (some node.id)
    replace_nodes env
    checkpoint env "workflow.approval.required" (some node.id)

  unfoldable pub succeed : WorkflowNode → GatewayToolResponse → Action G (Unit {0})
  unfolding commit now
  succeed node response = do
    modify λ r. record r {
      node_outputs = put node.id (normalize_tool_output response.payload) r.node_outputs;
    }
    at ← now env
    commit env "workflow.node.succeeded" (record node {
      execution_status = succeeded;
      approval_state = state_if node.approval_id ApprovalState.succeeded node.approval_state;
      result_reference = some response.correlation_id;
      completed_at = some at;
    })

  -- the end of `_compensate_node`
  unfoldable pub compensation_result :
      WorkflowNode → Result CallFailure GatewayToolResponse → Action G (Unit {0})
  unfolding now commit
  compensation_result node (err failure) = raise (propagated failure)
  compensation_result node (ok response) = do
    at ← now env
    commit env "workflow.compensation.completed" (
        if response.ok
        then record node {
          execution_status = compensated;
          completed_at = some at;
          last_error = none;
        }
        else record node {
          execution_status = failed;
          last_error = some (response_error response);
          completed_at = some at;
        })

  unfoldable pub compensate_node :
      WorkflowNode → String → String → Option String → Action G (Unit {0})
  unfolding commit execute_node compensation_result
  compensate_node node tool role auth_token = do
    let started : WorkflowNode = record node { execution_status = compensating }
    commit env "workflow.compensation.started" started
    w ← gets (λ r. r.updated)
    outcome ← execute_node env (compensation_form node tool w.id) role auth_token
    compensation_result started outcome

  -- `if failed_node.compensation_tool`
  unfoldable pub or_compensate :
      Option String → WorkflowNode → String → Option String → Action G (Unit {0})
  unfolding compensate_node
  or_compensate none node role auth_token = pure tt
  or_compensate (some tool) node role auth_token =
      if is_empty tool then pure tt else compensate_node node tool role auth_token

  unfoldable pub retry_later : WorkflowNode → Action G (Unit {0})
  unfolding now commit
  retry_later lost = do
    at ← now env
    commit env "workflow.node.retrying" (record lost {
      execution_status = retrying;
      next_retry_at = some (next_retry_time lost at);
      completed_at = none;
    })

  -- a failed node is tried again later, or compensated
  unfoldable pub recover :
      GatewayToolResponse → WorkflowNode → String → Option String → Action G (Unit {0})
  unfolding retry_later or_compensate
  recover response lost role auth_token =
      if transient_failure response && retry_allowed lost (get lost.tool_name env.tool_registry)
      then retry_later lost
      else or_compensate lost.compensation_tool lost role auth_token

  unfoldable pub fail :
      WorkflowNode → String → Option String → GatewayToolResponse → Action G (Unit {0})
  unfolding now commit recover lost_form
  fail node role auth_token response = do
    at ← now env
    commit env "workflow.node.failed" (lost_form node response at)
    recover response (lost_form node response at) role auth_token

  -- the three ends of an attempt
  unfoldable pub conclude :
      GatewayDecision
      → Bool
      → WorkflowNode
      → String
      → Option String
      → GatewayToolResponse
      → Action G (Unit {0})
  unfolding wait_for_approval succeed fail
  conclude pending_approval fine node role auth_token response =
      wait_for_approval node role response
  conclude _ true node role auth_token response = succeed node response
  conclude _ false node role auth_token response = fail node role auth_token response

  unfoldable pub execute_node_with_recovery :
      WorkflowNode → String → Option String → Action G (Unit {0})
  unfolding now commit attempted conclude running_form
  execute_node_with_recovery node role auth_token = do
    at ← now env
    commit env "workflow.node.started" (running_form node at)
    outputs ← gets (λ r. r.node_outputs)
    (ready, response) ←
        attempted (resolve_node_arguments (running_form node at) outputs) (running_form node at)
          role auth_token
    conclude response.decision response.ok ready role auth_token response
