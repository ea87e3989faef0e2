-- ===== src/Workflow/Repository.antt =====
-- services/ai-agent/src/mcp_ops_ai_agent/workflows/repository.py (InMemoryWorkflowRepository) and
-- events.py (WorkflowOutboxEvent, WorkflowOutboxPublisher). Each method runs under the lock. The
-- publisher is a parameter: the text of its error, or none if it takes an event, given how many it
-- was offered before.
pub mod Drain
use mcp_ai.Prelude.{
  ℕ, zero, suc, ◌+◌, String, Bool, true, false, not, Option, none, some, List, [], ◌∷◌, ◌++◌, ◌==◌,
  take, elem, map, filterb, max, string_eq, if◌then◌else◌,
}
use mcp_ai.Prelude.Text.{first}
use mcp_ai.Prelude.Dict.{Dict, get, put}
use mcp_ai.Value.{Value}
use mcp_ai.Gateway.Models.{Uuid}
use mcp_ai.Workflow.Models.{Workflow}

pub record OutboxEvent : Type 0 where
  pub event_id : Uuid
  pub event_type : String
  pub aggregate_id : Uuid
  pub payload : Dict String Value
  pub created_at : ℕ
  pub correlation_id : Uuid
  pub source : String
  pub schema_version : String

pub record Repository : Type 0 where
  pub workflows : Dict Uuid Workflow
  pub outbox_events : List OutboxEvent

abbrev pub event_ids : List OutboxEvent → List Uuid
event_ids events = map (λ e. e.event_id) events

unfoldable pub save_workflow : Workflow → Repository → Repository
save_workflow w r = record r { workflows = put w.id w r.workflows }

unfoldable pub enqueue : OutboxEvent → List OutboxEvent → List OutboxEvent
enqueue event events =
    if elem event.event_id (event_ids events) then events else events ++ event ∷ []

unfoldable pub save_workflow_with_event : Workflow → OutboxEvent → Repository → Repository
unfolding enqueue
save_workflow_with_event w event r = record r {
  workflows = put w.id w r.workflows;
  outbox_events = enqueue event r.outbox_events;
}

unfoldable pub get_workflow : Uuid → Repository → Option Workflow
get_workflow id r = get id r.workflows

unfoldable pub pending_workflow_events : ℕ → Repository → List OutboxEvent
pending_workflow_events limit r = take (max 1 limit) r.outbox_events

unfoldable pub mark_workflow_event_published : Uuid → Repository → Repository
mark_workflow_event_published id r = record r {
  outbox_events = filterb (λ e. not (e.event_id == id)) r.outbox_events;
}

-- `mark_workflow_event_failed` does nothing here.
unfoldable pub mark_workflow_event_failed : Uuid → String → Repository → Repository
mark_workflow_event_failed id error r = r

-- what a drain has done: the repository, the events that were taken, and how many were offered
pub record Drained : Type 0 where
  pub repository : Repository
  pub delivered : List OutboxEvent
  pub offered : ℕ

module _ (publish : ℕ → OutboxEvent → Option String) where
  settle : Option String → OutboxEvent → Drained → Drained
  unfolding mark_workflow_event_published mark_workflow_event_failed
  settle none event d = record {
    repository = mark_workflow_event_published event.event_id d.repository;
    delivered = d.delivered ++ event ∷ [];
    offered = d.offered + 1;
  }
  settle (some error) event d = record {
    repository = mark_workflow_event_failed event.event_id (first 500 error) d.repository;
    delivered = d.delivered;
    offered = d.offered + 1;
  }

  unfoldable pub offer_each : List OutboxEvent → Drained → Drained
  unfolding settle
  offer_each [] d = d
  offer_each (event ∷ events) d = offer_each events (settle (publish d.offered event) event d)

  -- `drain` returns the length of `delivered`.
  unfoldable pub drain : ℕ → Repository → Drained
  drain limit r =
      offer_each (pending_workflow_events limit r)
        (record { repository = r; delivered = []; offered = 0 })
