-- ===== src/Workflow/Engine/Loop.antt =====
-- services/ai-agent/src/mcp_ops_ai_agent/workflows/service.py: `_run_workflow` and `_finish_workflow`.
use mcp_ai.Prelude.{
  ◌+◌, String, Bool, true, false, not, ◌&&◌, Option, none, some, List, [], ◌∷◌, ◌++◌, anyb, allb,
  elem, string_eq, filterb, map, if◌then◌else◌,
}
use mcp_ai.Prelude.Text.{concat}
use mcp_ai.Prelude.Dict.{Dict, get, put}
use mcp_ai.Prelude.Exec.{Exec, Result, ok, err, pure, raise, gets, modify, ◌>>=◌, ◌>>◌}
use mcp_ai.Value.{Value, str, dict, to_fields}
use mcp_ai.Workflow.Models.{
  Workflow, WorkflowStatus, workflow_status_value, WorkflowNode, NodeStatus, ready, waiting,
  retrying, succeeded, compensated, skipped, cancelled, failed, denied, blocked, ApprovalState,
  execution_queued, PolicyDecision, deny, require_additional_context, WorkflowPolicyEvaluation,
}
use mcp_ai.Workflow.Conditions.{ConditionError, evaluation, condition_is_satisfied}
use mcp_ai.Workflow.Conditions
use mcp_ai.Workflow.Policy.{evaluate, transform_node_with_policy}
use mcp_ai.Workflow.Retry.{retry_due}
use mcp_ai.Workflow.Order.{by_id, topological_nodes}
use mcp_ai.Workflow.Engine.{
  EngineEnv, EngineError, key_error, type_error, validation_error, Engine, Run, Action, now,
  checkpoint, commit, audit,
}
use mcp_ai.Workflow.Engine.Node.{execute_node_with_recovery}

-- `status in {SUCCEEDED, COMPENSATED, SKIPPED}`
abbrev pub is_complete : NodeStatus → Bool
is_complete succeeded = true
is_complete compensated = true
is_complete skipped = true
is_complete _ = false

-- the statuses that the loop passes over
abbrev pub is_settled : NodeStatus → Bool
is_settled succeeded = true
is_settled compensated = true
is_settled skipped = true
is_settled cancelled = true
is_settled failed = true
is_settled denied = true
is_settled blocked = true
is_settled _ = false

abbrev pub is_failed : NodeStatus → Bool
is_failed failed = true
is_failed denied = true
is_failed blocked = true
is_failed _ = false

abbrev pub is_retrying : NodeStatus → Bool
is_retrying retrying = true
is_retrying _ = false

abbrev pub is_waiting : NodeStatus → Bool
is_waiting waiting = true
is_waiting _ = false

abbrev pub is_queued : ApprovalState → Bool
is_queued execution_queued = true
is_queued _ = false

abbrev pub is_some : Option String → Bool
is_some none = false
is_some (some s) = true

-- the outputs and the nodes that are complete at the start
abbrev with_reference : Option String → String → Dict String Value → Dict String Value
with_reference none id outputs = outputs
with_reference (some reference) id outputs =
    put id (dict (to_fields (("result_reference", str reference) ∷ []))) outputs

unfoldable pub known_outputs : List WorkflowNode → Dict String Value → Dict String Value
known_outputs [] outputs = outputs
known_outputs (n ∷ ns) outputs = known_outputs ns (
    if is_complete n.execution_status
    then with_reference n.result_reference n.id outputs
    else outputs)

unfoldable pub completed_ids : List WorkflowNode → List String
completed_ids nodes = map (λ n. n.id) (filterb (λ n. is_complete n.execution_status) nodes)

-- how the loop goes on after a node: to the next, to `return updated`, or to `_finish_workflow`
pub data Flow : Type 0 where
  next stop finish : Flow

-- the way on from the status that an attempt leaves
abbrev pub flow_after : NodeStatus → Flow
flow_after waiting = stop
flow_after retrying = stop
flow_after failed = finish
flow_after blocked = finish
flow_after _ = next

module _ {G : Type 0} (env : EngineEnv G) where
  -- `nodes_by_id[node.id] = …`, replaced and checkpointed, and on with the next node
  unfoldable pub pass : String → WorkflowNode → Action G Flow
  unfolding commit
  pass event_type node = do commit env event_type node; pure next

  unfoldable pub with_status : WorkflowNode → NodeStatus → String → WorkflowNode
  with_status node status error = record node { execution_status = status; last_error = some error }

  unfoldable pub denied_node : WorkflowNode → String → Action G Flow
  unfolding now pass with_status
  denied_node node reason = do
    at ← now env
    pass "workflow.node.failed" (record (with_status node denied reason) { completed_at = some at })

  -- `completed.add(node.id)` where the loop goes on
  unfoldable pub flow_of : Flow → String → Action G Flow
  flow_of next id = do modify (λ r. record r { completed = r.completed ++ id ∷ [] }); pure next
  flow_of stop id = pure stop
  flow_of finish id = pure finish

  -- `latest = nodes_by_id[node.id]`
  unfoldable pub after_latest : Option WorkflowNode → String → Action G Flow
  unfolding flow_of
  after_latest none id = raise key_error
  after_latest (some latest) id = flow_of (flow_after latest.execution_status) id

  unfoldable pub executed : WorkflowNode → String → Option String → Action G Flow
  unfolding execute_node_with_recovery after_latest
  executed node role auth_token = do
    execute_node_with_recovery env node role auth_token
    modify (λ r. record r { nodes_by_id = by_id r.updated.nodes })
    d ← gets (λ r. r.nodes_by_id)
    after_latest (get node.id d) node.id

  unfoldable pub by_decision :
      PolicyDecision → String → WorkflowNode → String → Option String → Action G Flow
  unfolding denied_node pass executed with_status
  by_decision deny reason node role auth_token = denied_node node reason
  by_decision require_additional_context reason node role auth_token =
      pass "workflow.node.failed" (with_status node blocked reason)
  by_decision _ reason node role auth_token = executed node role auth_token

  unfoldable pub ready_form : WorkflowNode → WorkflowNode
  ready_form node =
      if is_waiting node.execution_status && is_some node.approval_id
      then record node { execution_status = ready; approval_state = execution_queued }
      else record node { execution_status = ready }

  unfoldable pub queue_if : Bool → String → Action G (Unit {0})
  unfolding checkpoint
  queue_if false id = pure tt
  queue_if true id = checkpoint env "workflow.approval.execution_queued" (some id)

  unfoldable pub judged : WorkflowNode → WorkflowPolicyEvaluation → WorkflowNode
  judged node ruling = transform_node_with_policy node ruling (get node.tool_name env.tool_registry)

  -- the policy decides, with the role of the run
  unfoldable pub rule :
      WorkflowNode → String → Option String → WorkflowPolicyEvaluation → Action G Flow
  unfolding commit judged by_decision
  rule node role auth_token ruling = do
    commit env "workflow.node.policy_evaluated" (judged node ruling)
    by_decision ruling.decision ruling.reason (judged node ruling) role auth_token

  unfoldable pub rule_if :
      WorkflowNode → String → Option String → Option WorkflowPolicyEvaluation → Action G Flow
  unfolding rule
  rule_if node role auth_token none = raise validation_error
  rule_if node role auth_token (some ruling) = rule node role auth_token ruling

  -- the node is ready
  unfoldable pub ruled : WorkflowNode → String → String → String → Option String → Action G Flow
  unfolding commit queue_if now rule_if
  ruled node actor environment role auth_token = do
    commit env "workflow.node.ready" node
    queue_if (is_queued node.approval_state) node.id
    at ← now env
    rule_if node role auth_token
        (evaluate env.policy_registry node actor role environment "execution" at)

  unfoldable pub broken : WorkflowNode → ConditionError → Action G Flow
  unfolding commit with_status
  broken node Conditions.type_error = raise type_error
  broken node (evaluation message) = do
    commit env "workflow.node.failed"
        (with_status node blocked (concat ("condition evaluation failed: " ∷ message ∷ [])))
    pure finish

  unfoldable pub conditioned :
      Result ConditionError Bool
      → WorkflowNode
      → (actor environment role : String) → Option String
      → Action G Flow
  unfolding broken pass ruled ready_form
  conditioned (err e) node actor environment role auth_token = broken node e
  conditioned (ok false) node actor environment role auth_token =
      pass "workflow.node.skipped" (record node { execution_status = skipped })
  conditioned (ok true) node actor environment role auth_token =
      ruled (ready_form node) actor environment role auth_token

  unfoldable pub considered :
      Bool → WorkflowNode → (actor environment role : String) → Option String → Action G Flow
  unfolding pass conditioned
  considered false node actor environment role auth_token =
      pass "workflow.node.blocked" (record node { execution_status = blocked })
  considered true node actor environment role auth_token = do
    outputs ← gets (λ r. r.node_outputs)
    conditioned (condition_is_satisfied env.re_match env.repr node outputs) node actor environment
        role auth_token

  -- a retry whose time has not come
  unfoldable pub is_early : WorkflowNode → Action G Bool
  unfolding now
  is_early node =
      if is_retrying node.execution_status
      then (now env >>= (λ at. pure (not (retry_due node at))))
      else pure false

  unfoldable pub choose : Bool → Bool → Action G Flow → Action G Flow
  choose true settled go = pure stop
  choose false true go = pure next
  choose false false go = go

  -- the body of the loop of `_run_workflow`
  unfoldable pub visit :
      WorkflowNode → (actor environment role : String) → Option String → Action G Flow
  unfolding is_early considered choose
  visit node actor environment role auth_token = do
    early ← is_early node
    completed ← gets (λ r. r.completed)
    choose early (is_settled node.execution_status) (
        considered (allb (λ d. elem d completed) node.depends_on) node actor environment role
          auth_token)

  unfoldable pub finish_workflow : String → Action G (Unit {0})
  unfolding audit checkpoint
  finish_workflow role = do
    nodes ← gets (λ r. r.updated.nodes)
    let status : WorkflowStatus =
        if anyb (λ n. is_failed n.execution_status) nodes
        then WorkflowStatus.failed
        else WorkflowStatus.completed
    modify (λ r. record r { updated = record r.updated { status = status } })
    audit env "workflow.execution_finished" role
        (concat
          ("Workflow execution finished with status " ∷ workflow_status_value status ∷ "." ∷ []))
        none
    checkpoint env "workflow.completed" none

  unfoldable pub visit_each :
      List WorkflowNode → (actor environment role : String) → Option String → Action G (Unit {0})
  unfolding visit finish_workflow
  visit_each [] actor environment role auth_token = finish_workflow role
  visit_each (node ∷ nodes) actor environment role auth_token = do
    flow ← visit node actor environment role auth_token
    elim flow [
      | next ↦ visit_each nodes actor environment role auth_token
      | stop ↦ pure tt
      | finish ↦ finish_workflow role
    ]

  abbrev pub started_event : Bool → String
  started_event true = "workflow.resumed"
  started_event false = "workflow.started"

  -- `_run_workflow`, once it has written that it starts
  abbrev pub entered : String → Option String → Unit {0} → Action G (Unit {0})
  entered role auth_token u = do
    checkpoint env "workflow.started" none
    w ← gets (λ r. r.updated)
    modify (λ r. record r {
      nodes_by_id = by_id w.nodes;
      node_outputs = known_outputs w.nodes [];
      completed = completed_ids w.nodes;
    })
    visit_each (topological_nodes w.nodes) w.created_by w.target_environment role auth_token

  unfoldable pub run_steps : String → Bool → Option String → Action G (Unit {0})
  unfolding audit checkpoint visit_each known_outputs completed_ids
  run_steps role resumed auth_token = do
    modify (λ r. record r {
      updated = record r.updated {
        status = WorkflowStatus.running;
        version = r.updated.version + 1;
      };
    })
    audit env (started_event resumed) role "Workflow execution started from persisted state." none
        >>= entered role auth_token

  abbrev pub entry : Engine G → Workflow → Run G
  entry e w = record {
    engine = e;
    updated = w;
    nodes_by_id = [];
    node_outputs = [];
    completed = [];
  }

  unfoldable pub returned : Result EngineError (Unit {0}) → Workflow → Result EngineError Workflow
  returned (ok u) w = ok w
  returned (err e) w = err e

  -- `_run_workflow`: every path returns `updated` as it stands
  unfoldable pub run_workflow :
      Workflow → String → Bool → Option String → Exec EngineError (Engine G) Workflow
  unfolding run_steps returned
  run_workflow w role resumed auth_token e =
      let (r, run) = run_steps role resumed auth_token (entry e w) in
      (returned r run.updated, run.engine)
