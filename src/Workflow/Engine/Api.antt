-- ===== src/Workflow/Engine/Api.antt =====
-- services/ai-agent/src/mcp_ops_ai_agent/workflows/service.py: `execute`, `resume`, `retry_node` and
-- `cancel` of WorkflowPlanningService.
use mcp_ai.Prelude.{
  ℕ, ◌+◌, String, Bool, true, false, ◌&&◌, Option, none, some, List, [], ◌∷◌, ◌++◌, ◌==◌, map, anyb,
  string_eq, if◌then◌else◌,
}
use mcp_ai.Prelude.Text.{concat}
use mcp_ai.Prelude.Dict.{get}
use mcp_ai.Prelude.Exec.{Exec, ok, pure, raise, gets, guard, ◌>>=◌, ◌>>◌}
use mcp_ai.Registry.{Registry}
use mcp_ai.Gateway.Models.{Uuid}
use mcp_ai.Workflow.Models.{
  Workflow, WorkflowStatus, WorkflowNode, WorkflowAuditEvent, NodeStatus, pending, running, waiting,
  retrying, failed, blocked, denied, cancelled,
}
use mcp_ai.Workflow.Retry.{
  can_be_resumed, approval_expired, expire_waiting_approval, metadata_retryable,
}
use mcp_ai.Workflow.Repository.{save_workflow, get_workflow}
use mcp_ai.Workflow.Engine.{EngineEnv, EngineError, not_found, Engine}
use mcp_ai.Workflow.Engine.Loop.{run_workflow}

-- the statuses that `resume` takes up again
abbrev pub is_resumable : NodeStatus → Bool
is_resumable failed = true
is_resumable blocked = true
is_resumable retrying = true
is_resumable running = true
is_resumable _ = false

-- the statuses that `cancel` ends
abbrev pub is_cancellable : NodeStatus → Bool
is_cancellable pending = true
is_cancellable blocked = true
is_cancellable denied = true
is_cancellable waiting = true
is_cancellable running = true
is_cancellable _ = false

-- a workflow that `execute` leaves alone
abbrev pub is_held : WorkflowStatus → Bool
is_held WorkflowStatus.cancelled = true
is_held WorkflowStatus.waiting_approval = true
is_held _ = false

abbrev pub is_cancelled : WorkflowStatus → Bool
is_cancelled WorkflowStatus.cancelled = true
is_cancelled _ = false

unfoldable pub cancelled_node : WorkflowNode → WorkflowNode
cancelled_node n =
    if is_cancellable n.execution_status then record n { execution_status = cancelled } else n

unfoldable pub resumed_node : WorkflowNode → ℕ → WorkflowNode
resumed_node n at =
    if approval_expired n at
    then expire_waiting_approval n at
    else if is_resumable n.execution_status && can_be_resumed n at
    then record n { execution_status = pending }
    else n

unfoldable pub retried_node : Registry → WorkflowNode → WorkflowNode
retried_node registry n =
    if metadata_retryable (get n.tool_name registry)
    then record n { execution_status = pending; last_error = none; next_retry_at = none }
    else record n {
      execution_status = failed;
      last_error = some "manual retry denied for non-idempotent tool";
    }

unfoldable pub retried_nodes : Registry → String → List WorkflowNode → List WorkflowNode
retried_nodes registry node_id = map (λ n. if n.id == node_id then retried_node registry n else n)

abbrev event_by : Workflow → String → String → String → Option String → ℕ → WorkflowAuditEvent
event_by w event_type role message node_id at = record {
  event_type = event_type;
  actor = w.created_by;
  role = role;
  message = message;
  node_id = node_id;
  timestamp = at;
}

unfoldable pub cancelled_form : Workflow → String → ℕ → Workflow
cancelled_form w role at = record w {
  status = WorkflowStatus.cancelled;
  version = w.version + 1;
  nodes = map cancelled_node w.nodes;
  audit_events =
      w.audit_events
      ++ event_by w "workflow.cancelled" role "Workflow cancellation requested through API." none at
        ∷ [];
}

module _ {G : Type 0} (env : EngineEnv G) where
  abbrev pub Method : Type 0 → Type 0
  Method A = Exec EngineError (Engine G) A

  unfoldable pub clock_now : Method ℕ
  clock_now e = (ok (env.clock e.ticks), record e { ticks = e.ticks + 1 })

  unfoldable pub present : Uuid → Option Workflow → Method Workflow
  present id none = raise (not_found id)
  present id (some w) = pure w

  unfoldable pub find_workflow : Uuid → Method Workflow
  unfolding present
  find_workflow id = do found ← gets (λ e. get_workflow id e.repository); present id found

  -- `save_workflow`, which gives back what it is given
  unfoldable pub save : Workflow → Method Workflow
  save w e = (ok w, record e { repository = save_workflow w e.repository })

  unfoldable pub execute : Uuid → String → Option String → Method Workflow
  unfolding find_workflow
  execute id role auth_token = do
    w ← find_workflow id
    if is_held w.status then pure w else run_workflow env w role false auth_token

  -- The clock is read for each node that waits or retries in the source; one reading serves here.
  unfoldable pub resume : Uuid → String → Option String → Method Workflow
  unfolding find_workflow clock_now save
  resume id role auth_token = do
    w ← find_workflow id
    if is_cancelled w.status then pure w else do
      at ← clock_now
      saved ← save (record w {
        status = WorkflowStatus.running;
        version = w.version + 1;
        nodes = map (λ n. resumed_node n at) w.nodes;
        audit_events =
            w.audit_events
            ++ event_by w "workflow.resume_requested" role
                "Workflow resume requested from persisted checkpoint." none at
              ∷ [];
      })
      run_workflow env saved role true auth_token

  unfoldable pub retry_node : Uuid → String → String → Option String → Method Workflow
  unfolding find_workflow clock_now save
  retry_node id node_id role auth_token = do
    w ← find_workflow id
    guard (anyb (λ n. n.id == node_id) w.nodes) (not_found (concat (id ∷ ":" ∷ node_id ∷ [])))
    at ← clock_now
    saved ← save (record w {
      status = WorkflowStatus.running;
      version = w.version + 1;
      nodes = retried_nodes env.tool_registry node_id w.nodes;
      audit_events =
          w.audit_events
          ++ event_by w "workflow.node.retry_requested" role
              (concat ("Manual retry requested for node " ∷ node_id ∷ "." ∷ [])) (some node_id) at
            ∷ [];
    })
    run_workflow env saved role true auth_token

  unfoldable pub cancel : Uuid → String → Method Workflow
  unfolding find_workflow clock_now save cancelled_form
  cancel id role = do w ← find_workflow id; at ← clock_now; save (cancelled_form w role at)
