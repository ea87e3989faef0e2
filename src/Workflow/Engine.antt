-- ===== src/Workflow/Engine.antt =====
-- services/ai-agent/src/mcp_ops_ai_agent/workflows/service.py: the state of WorkflowPlanningService,
-- its checkpoints and its calls of the gateway. What is outside is the record `EngineEnv`: the clock,
-- identifiers, the gateway client over a state `G` of its own, the registry. `sent` records the
-- requests in order. Metrics and `planned` data that nothing here reads are left out.
pub mod Steps
pub mod Attempt
pub mod Node
pub mod Loop
pub mod Api
pub mod Judged
pub mod Gated
pub mod Known
pub mod Saving
pub mod Visited
pub mod Persisted
pub mod Cancelled
use mcp_ai.Prelude.{
  ℕ, leb, ◌+◌, String, Bool, true, false, not, ◌&&◌, ◌||◌, Option, none, some, List, [], ◌∷◌, ◌++◌,
  max, string_eq, ◌==◌, if◌then◌else◌,
}
use mcp_ai.Prelude.Text.{
  concat, upper, lower, is_empty, str_of_nat, contains_text, text_length, has_length,
  optional_length,
}
use mcp_ai.Prelude.Dict.{Dict, get, put}
use mcp_ai.Prelude.Exec.{
  Exec, Result, ok, err, pure, raise, gets, modify, guard, lift, zoom, ◌>>=◌, ◌>>◌,
}
use mcp_ai.Value.{Value, str}
use mcp_ai.Registry.{Registry}
use mcp_ai.Gateway.Models.{Uuid, denied, GatewayToolRequest, GatewayToolResponse}
use mcp_ai.Workflow.Models.{
  Workflow, WorkflowNode, WorkflowAuditEvent, workflow_status_value, ApprovalState, expired,
  rejected, failed,
}
use mcp_ai.Workflow.Conditions.{LegacyMatch}
use mcp_ai.Workflow.Repository.{Repository, OutboxEvent, save_workflow_with_event}

-- the exceptions of the gateway client: TimeoutError, ConnectionError, RuntimeError, any other
pub data CallFailure : Type 0 where
  timed_out connection_failed runtime_failed : (message : String) → CallFailure
  other_failure : CallFailure

-- WorkflowNotFoundError, KeyError, TypeError, pydantic's ValidationError, and what the client raised
pub data EngineError : Type 0 where
  not_found : (message : String) → EngineError
  key_error type_error validation_error : EngineError
  propagated : CallFailure → EngineError

pub record EngineEnv (G : Type 0) : Type 0 where
  pub clock : ℕ → ℕ
  pub uuid4 : ℕ → Uuid
  -- `UUID(text)`, as its canonical text
  pub parse_uuid : String → Option Uuid
  -- the match of `_LEGACY_CONDITION_PATTERN`, and `repr`
  pub re_match : String → Option LegacyMatch
  pub repr : String → String
  -- TOOL_REGISTRY, and that of the policy evaluator
  pub tool_registry : Registry
  pub policy_registry : Registry
  pub call_tool : GatewayToolRequest → G → Result CallFailure GatewayToolResponse × G

-- a request, and the nodes that were complete when it was sent
pub record Sent : Type 0 where
  pub request : GatewayToolRequest
  pub completed : List String

pub record Engine (G : Type 0) : Type 0 where
  pub repository : Repository
  pub gateway : G
  pub sent : List Sent
  pub ticks : ℕ
  pub drawn : ℕ

-- the engine, with the variables of `_run_workflow`
pub record Run (G : Type 0) : Type 0 where
  pub engine : Engine G
  pub updated : Workflow
  pub nodes_by_id : Dict String WorkflowNode
  pub node_outputs : Dict String Value
  pub completed : List String

abbrev pub Action : Type 0 → Type 0 → Type 0
Action G = Exec EngineError (Run G)

unfoldable pub looked_up :
    WorkflowNode
    → Option WorkflowNode
    → Result EngineError (List WorkflowNode)
    → Result EngineError (List WorkflowNode)
looked_up _ (some n) (ok ns) = ok (n ∷ ns)
looked_up _ (some n) (err e) = err e
looked_up _ none rest = err key_error

-- `[nodes_by_id[node.id] for node in nodes]`
unfoldable pub current_nodes :
    Dict String WorkflowNode → List WorkflowNode → Result EngineError (List WorkflowNode)
unfolding looked_up
current_nodes d [] = ok []
current_nodes d (n ∷ ns) = looked_up n (get n.id d) (current_nodes d ns)

abbrev pub payload_of : Workflow → Option String → Dict String Value
payload_of w none =
    ("workflow_id", str w.id) ∷ ("status", str (workflow_status_value w.status)) ∷ []
payload_of w (some node_id) =
    ("workflow_id", str w.id)
    ∷ ("status", str (workflow_status_value w.status))
    ∷ ("node_id", str node_id)
    ∷ []

abbrev text_or_none : Option String → String
text_or_none none = "None"
text_or_none (some s) = s

role_token : String → String
role_token role =
    if upper role == "VIEWER"
    then "viewer-token"
    else if upper role == "ENGINEER"
    then "engineer-token"
    else if upper role == "OPERATOR"
    then "operator-token"
    else if upper role == "ADMIN"
    then "admin-token"
    else "viewer-token"

abbrev token_or : Option String → String → String
token_or none other = other
token_or (some token) other = if is_empty token then other else token

unfoldable pub idempotency_key : WorkflowNode → String
idempotency_key node = concat (
    "workflow-"
    ∷ text_or_none node.workflow_id
    ∷ "-"
    ∷ node.id
    ∷ "-attempt-"
    ∷ str_of_nat (max node.attempts 1)
    ∷ [])

-- the request of `_execute_node`
unfoldable pub request_of : WorkflowNode → String → Option String → Uuid → GatewayToolRequest
unfolding role_token
request_of node role auth_token correlation_id = record {
  auth_token = token_or auth_token (role_token role);
  tool_name = node.tool_name;
  arguments = node.arguments;
  idempotency_key = idempotency_key node;
  approval_id = node.approval_id;
  correlation_id = correlation_id;
  workflow_id = node.workflow_id;
  workflow_node_id = some node.id;
}

-- the bounds that GatewayToolRequest declares
unfoldable pub is_valid_request : GatewayToolRequest → Bool
is_valid_request q =
    leb 8 (text_length q.auth_token)
    && (leb 1 (text_length q.tool_name)
        && (has_length 8 160 q.idempotency_key && optional_length 120 q.workflow_node_id))

-- the bounds that WorkflowAuditEvent declares
unfoldable pub is_valid_event : WorkflowAuditEvent → Bool
is_valid_event e =
    has_length 1 120 e.event_type
    && (has_length 1 160 e.actor
        && (has_length 1 64 e.role
            && (has_length 1 600 e.message && optional_length 120 e.node_id)))

-- `_audit_event`, by the workflow's creator
abbrev pub event_of : Workflow → String → String → String → Option String → ℕ → WorkflowAuditEvent
event_of w event_type role message node_id at = record {
  event_type = event_type;
  actor = w.created_by;
  role = role;
  message = message;
  node_id = node_id;
  timestamp = at;
}

module _ {G : Type 0} (env : EngineEnv G) where
  unfoldable pub now : Action G ℕ
  now r = (
    ok (env.clock r.engine.ticks),
    record r { engine = record r.engine { ticks = r.engine.ticks + 1 } },
  )

  unfoldable pub draw : Action G Uuid
  draw r = (
    ok (env.uuid4 r.engine.drawn),
    record r { engine = record r.engine { drawn = r.engine.drawn + 1 } },
  )

  unfoldable pub save_with : Workflow → OutboxEvent → Action G (Unit {0})
  save_with w event = modify λ r. record r {
    updated = w;
    engine = record r.engine { repository = save_workflow_with_event w event r.engine.repository };
  }

  unfoldable pub checkpoint : String → Option String → Action G (Unit {0})
  unfolding draw now save_with
  checkpoint event_type node_id = do
    w ← gets (λ r. r.updated)
    event_id ← draw
    created_at ← now
    correlation_id ← draw
    save_with (record w { version = w.version + 1 })
        (record {
          event_id = event_id;
          event_type = event_type;
          aggregate_id = w.id;
          payload = payload_of w node_id;
          created_at = created_at;
          correlation_id = correlation_id;
          source = "ai-workflow-engine";
          schema_version = "1.0";
        })

  unfoldable pub replace_nodes : Action G (Unit {0})
  replace_nodes = do
    r ← gets (λ r. r)
    nodes ← lift (current_nodes r.nodes_by_id r.updated.nodes)
    modify λ s. record s { updated = record s.updated { nodes = nodes } }

  -- `nodes_by_id[node.id] = node`, then `_replace_nodes` and `_checkpoint`
  unfoldable pub commit : String → WorkflowNode → Action G (Unit {0})
  unfolding checkpoint replace_nodes
  commit event_type node = do
    modify λ r. record r { nodes_by_id = put node.id node r.nodes_by_id }
    replace_nodes
    checkpoint event_type (some node.id)

  unfoldable pub audit : String → String → String → Option String → Action G (Unit {0})
  unfolding now
  audit event_type role message node_id = do
    at ← now
    w ← gets (λ r. r.updated)
    guard (is_valid_event (event_of w event_type role message node_id at)) validation_error
    modify λ r. record r {
      updated = record r.updated {
        audit_events = r.updated.audit_events ++ event_of w event_type role message node_id at ∷ [];
      };
    }

  -- the client's call, entered among the requests
  unfoldable pub send : GatewayToolRequest → Action G (Result CallFailure GatewayToolResponse)
  send request r =
      let (outcome, gateway) = env.call_tool request r.engine.gateway in
      (
        ok outcome,
        record r {
          engine = record r.engine {
            gateway = gateway;
            sent = r.engine.sent ++ record { request = request; completed = r.completed } ∷ [];
          };
        },
      )

  unfoldable pub execute_node :
      WorkflowNode → String → Option String → Action G (Result CallFailure GatewayToolResponse)
  unfolding draw send
  execute_node node role auth_token = do
    correlation_id ← draw
    let request = request_of node role auth_token correlation_id
    guard (is_valid_request request) validation_error
    send request
