-- ===== src/Examples/Engine.antt =====
-- Concrete runs of a workflow of two nodes, the second one after the first, and of an outbox.
use mcp_ai.Prelude.{
  ℕ, zero, suc, ◌+◌, ◌≡◌, ◌++◌, elem, ◌⊎◌, arith, allb, filterb, String, true, false, Option, none,
  some, [], ◌∷◌, refl, string_eq, All, length, max, take,
}
use mcp_ai.Prelude.Dict.{Dict, keys, put, remove, get}
use mcp_ai.Prelude.Exec.{Result, ok}
use mcp_ai.Value.{Value, str}
use mcp_ai.Registry.{ToolMetadata, Registry, medium}
use mcp_ai.Gateway.Models.{Uuid, GatewayToolRequest, GatewayToolResponse, allowed}
use mcp_ai.Workflow.Models.{
  Workflow, WorkflowStatus, WorkflowNode, ArgumentReference, pending, no_retry, not_required,
}
use mcp_ai.Workflow.Repository.{OutboxEvent, Repository, drain, get_workflow}
use mcp_ai.Workflow.Repository.Drain.{refused, taken, drop, drain_exactly}
use mcp_ai.Workflow.Arguments.{bind_arguments}
use mcp_ai.Workflow.Arguments.Bound.{Broken, Yields, Sourced, bind_arguments-Sourced}
use mcp_ai.Workflow.Order.{
  by_id, topological_nodes, rounds, or_else, keyed_onto, ready_nodes, is_ready, sort_nodes,
  insert_node, remove_each,
}
use mcp_ai.Workflow.Order.Rounds.{topological_nodes-enough}
use mcp_ai.Workflow.Order.Precedence.{IsOrder}
use mcp_ai.Workflow.Order.Stuck.{HasDeadlock, topological_nodes-IsOrder}
use mcp_ai.Workflow.Engine.{EngineEnv, Engine, CallFailure}
use mcp_ai.Workflow.Engine.Loop.{run_workflow}
use mcp_ai.Workflow.Engine.Api.{is_cancellable, cancel, execute, resume}
use mcp_ai.Workflow.Engine.Steps.{Extends}
use mcp_ai.Workflow.Engine.Judged.{Justified}
use mcp_ai.Workflow.Engine.Gated.{run_workflow-Justified}
use mcp_ai.Workflow.Engine.Persisted.{EndsSettled, run_is_persisted}
use mcp_ai.Workflow.Engine.Cancelled.{cancel_is_final}

abbrev fetch : ToolMetadata
fetch = record {
  tool_name = "cicd.fetch";
  domain = "cicd";
  description = "Fetch a log.";
  risk_level = medium;
  required_permission = "cicd:read";
  requires_approval = false;
  server = "cicd-mcp";
  category = "cicd";
  tags = [];
  required_roles = [];
  idempotent = true;
  retry_safe = true;
  default_max_retries = 0;
  retry_strategy = "none";
  compensation_tool = none;
  executable = true;
  timeout_seconds = 5;
  rate_limit = "2/second";
  enabled = true;
}

abbrev known_tools : Registry
known_tools = ("cicd.fetch", fetch) ∷ []

-- a gateway that answers every request, and counts them
abbrev answer : GatewayToolRequest → ℕ → Result CallFailure GatewayToolResponse × ℕ
answer request served = (
  ok (record {
    ok = true;
    decision = allowed;
    correlation_id = request.correlation_id;
    payload = ("tool_result", str "a log") ∷ [];
    error = none;
  }),
  served + 1,
)

abbrev engine_env : EngineEnv ℕ
engine_env = record {
  clock = λ n. n;
  uuid4 = λ n. "id";
  parse_uuid = λ text. some text;
  re_match = λ text. none;
  repr = λ text. text;
  tool_registry = known_tools;
  policy_registry = known_tools;
  call_tool = answer;
}

abbrev first_node : WorkflowNode
first_node = record {
  id = "n1";
  workflow_id = some "w";
  tool_name = "cicd.fetch";
  tool_server = "cicd-mcp";
  description = "Fetch the log.";
  arguments = ("pipeline_id", str "build") ∷ [];
  argument_references = [];
  depends_on = [];
  condition = none;
  typed_condition = none;
  risk_level = "MEDIUM";
  approval_required = false;
  execution_status = pending;
  attempts = 0;
  max_retries = 0;
  retry_strategy = no_retry;
  timeout_seconds = 30;
  last_error = none;
  started_at = none;
  completed_at = none;
  last_attempt_at = none;
  next_retry_at = none;
  result_reference = none;
  approval_id = none;
  approval_state = not_required;
  compensation_tool = none;
  policy_evaluation = none;
  knowledge_references = [];
}

abbrev second_node : WorkflowNode
second_node = record first_node { id = "n2"; depends_on = "n1" ∷ [] }

abbrev workflow : Workflow
workflow = record {
  id = "w";
  user_request = "Fetch the log twice.";
  status = WorkflowStatus.planned;
  created_by = "engineer-1";
  created_at = 0;
  target_environment = "dev";
  planner_model = "rules";
  version = 1;
  nodes = second_node ∷ first_node ∷ [];
  edges = [];
  audit_events = [];
}

abbrev fresh : Engine ℕ
fresh = record {
  repository = record { workflows = ("w", workflow) ∷ []; outbox_events = [] };
  gateway = 0;
  sent = [];
  ticks = 0;
  drawn = 0;
}

run_workflow-Justified_example :
    Extends
      (Justified engine_env "engineer-1" "dev" "ENGINEER" (second_node ∷ first_node ∷ []))
      []
      (run_workflow engine_env workflow "ENGINEER" false none fresh).1.sent
run_workflow-Justified_example =
    run_workflow-Justified engine_env workflow "ENGINEER" false none fresh

run_is_persisted_example :
    EndsSettled engine_env workflow (run_workflow engine_env workflow "ENGINEER" false none fresh)
run_is_persisted_example = run_is_persisted engine_env workflow "ENGINEER" false none fresh

cancel_is_final_example :
    (v : Workflow) × ((cancel engine_env "w" "ENGINEER" fresh).0 ≡ ok v)
    × (v.status ≡ WorkflowStatus.cancelled)
    × All (λ n. is_cancellable n.execution_status ≡ false) v.nodes
    × ((later : String) (token : Option String)
        → (execute engine_env "w" later token (cancel engine_env "w" "ENGINEER" fresh).1
            ≡ (ok v, (cancel engine_env "w" "ENGINEER" fresh).1))
          × (resume engine_env "w" later token (cancel engine_env "w" "ENGINEER" fresh).1
              ≡ (ok v, (cancel engine_env "w" "ENGINEER" fresh).1)))
unfolding get_workflow get
cancel_is_final_example = cancel_is_final engine_env "w" workflow fresh "ENGINEER" refl refl

abbrev event : Uuid → OutboxEvent
event id = record {
  event_id = id;
  event_type = "workflow.started";
  aggregate_id = "w";
  payload = [];
  created_at = 0;
  correlation_id = id;
  source = "ai-workflow-engine";
  schema_version = "1.0";
}

abbrev outbox : Repository
outbox = record { workflows = []; outbox_events = event "e1" ∷ event "e2" ∷ event "e3" ∷ [] }

-- a publisher that refuses the first event it is offered
abbrev refuse_first : ℕ → OutboxEvent → Option String
refuse_first zero e = some "unavailable"
refuse_first (suc n) e = none

drain_exactly_example : drain refuse_first 2 outbox ≡ record {
  repository = record outbox {
    outbox_events =
        refused refuse_first 0 (take (max 1 2) outbox.outbox_events)
        ++ drop (max 1 2) outbox.outbox_events;
  };
  delivered = taken refuse_first 0 (take (max 1 2) outbox.outbox_events);
  offered = length (take (max 1 2) outbox.outbox_events);
}
unfolding elem
drain_exactly_example = drain_exactly refuse_first 2 outbox (refl, (refl, (refl, tt)))

abbrev outputs : Dict String Value
outputs = ("n1", str "a log") ∷ []

abbrev whole : ArgumentReference
whole = record { argument = "log"; source_node_id = "n1"; output_path = "$" }

abbrev given : Dict String Value
given = ("log", str "") ∷ []

bind_arguments-Sourced_example :
    Yields
      (λ bound. (k : String) → Sourced outputs (whole ∷ []) given bound k)
      (Broken outputs (whole ∷ []))
      (bind_arguments outputs (whole ∷ []) given)
bind_arguments-Sourced_example = bind_arguments-Sourced outputs (whole ∷ []) given

topological_nodes-IsOrder_example :
    IsOrder
      (keys (by_id (second_node ∷ first_node ∷ [])))
      (topological_nodes (second_node ∷ first_node ∷ []))
    ⊎ (HasDeadlock (second_node ∷ first_node ∷ [])
        × (topological_nodes (second_node ∷ first_node ∷ []) ≡ second_node ∷ first_node ∷ []))
topological_nodes-IsOrder_example = topological_nodes-IsOrder (second_node ∷ first_node ∷ [])

topological_nodes-enough_example :
    or_else (rounds 5 (by_id (second_node ∷ first_node ∷ [])) []) (second_node ∷ first_node ∷ [])
    ≡ topological_nodes (second_node ∷ first_node ∷ [])
topological_nodes-enough_example =
    topological_nodes-enough (second_node ∷ first_node ∷ []) 5 (omega arith)

-- the node that depends on the other comes second, whatever the order given
orders_dependency :
    topological_nodes (second_node ∷ first_node ∷ []) ≡ first_node ∷ second_node ∷ []
unfolding topological_nodes by_id keyed_onto rounds ready_nodes is_ready sort_nodes insert_node
    remove_each or_else put remove elem allb filterb
orders_dependency = refl
