-- ===== src/Workflow/Engine/Visited.antt =====
-- services/ai-agent/src/mcp_ops_ai_agent/workflows/service.py: the body of the loop of `_run_workflow`, and
-- the workflow that the repository holds.
use mcp_ai.Prelude.{
  String, Bool, true, false, Option, none, some, List, refl, sym, subst, inl, inr, elem, allb,
  string_eq, All,
}
use mcp_ai.Prelude.Dict.{Dict, get}
use mcp_ai.Prelude.Exec.{Result, ok, err, ◌>>=◌, ◌>>◌, pure}
use mcp_ai.Workflow.Models.{
  Workflow, WorkflowNode, WorkflowPolicyEvaluation, PolicyDecision, allow, allow_with_approval,
  deny, require_additional_context, blocked, skipped,
}
use mcp_ai.Workflow.Conditions
use mcp_ai.Workflow.Conditions.{ConditionError, condition_is_satisfied}
use mcp_ai.Workflow.Policy.{evaluate, transform_node_with_policy}
use mcp_ai.Workflow.Order.{by_id}
use mcp_ai.Workflow.Order.Members.{if-elim}
use mcp_ai.Workflow.Engine.{EngineEnv, Action, now}
use mcp_ai.Workflow.Engine.Known.{Found, ids, by_id-Found}
use mcp_ai.Workflow.Engine.Node.{execute_node_with_recovery}
use mcp_ai.Workflow.Engine.Loop.{
  Flow, flow_after, is_retrying, next, stop, finish, is_queued, is_settled, judged, rule, pass,
  with_status, denied_node, flow_of, after_latest, executed, by_decision, queue_if, ready_form,
  rule_if, ruled, broken, conditioned, considered, is_early, choose, visit,
}
use mcp_ai.Workflow.Engine.Saving.{
  Ends, Saved, Saves, if-Saves, Commits-Saves, checkpoint-Commits, commit_then, then-Saves,
  recovery-Saves,
}

module _ {G : Type 0} (env : EngineEnv G) (w : Workflow) where
  pass-Saves : (event_type : String) (node : WorkflowNode) → Saves env w (pass env event_type node)
  unfolding pass
  pass-Saves event_type node =
      Commits-Saves env w (pass env event_type node)
        (commit_then env w event_type node (pure next) λ r h. h)

  denied_node-Saves :
      (node : WorkflowNode) (reason : String) → Saves env w (denied_node env node reason)
  unfolding denied_node now
  denied_node-Saves node reason r h = pass-Saves "workflow.node.failed" _ _ h

  flow_of-Saves : (flow : Flow) (id : String) → Saves env w (flow_of env flow id)
  unfolding flow_of
  flow_of-Saves next id r h = h
  flow_of-Saves stop id r h = h
  flow_of-Saves finish id r h = h

  after_latest-Saves :
      (d : Dict String WorkflowNode) (id : String)
      → Found d id
      → Saves env w (after_latest env (get id d) id)
  unfolding after_latest
  after_latest-Saves d id (n, e, own) r h =
      subst (λ o. Ends (Saved env w) (after_latest env o id r)) (sym e)
        (flow_of-Saves (flow_after n.execution_status) id r h)

  -- the node is one of the workflow's
  abbrev pub Own : WorkflowNode → Type 0
  Own n = (d : Dict String WorkflowNode) → All (Found d) (ids w.nodes) → Found d n.id

  executed-Saves :
      (node : WorkflowNode) (role : String) (token : Option String)
      → Own node
      → Saves env w (executed env node role token)
  unfolding executed
  executed-Saves node role token own =
      then-Saves env w (execute_node_with_recovery env node role token)
        (λ u r.
          after_latest env (get node.id (by_id r.updated.nodes)) node.id
            (record r { nodes_by_id = by_id r.updated.nodes }))
        (recovery-Saves env w node role token)
        λ u r h.
          let known : All (Found (by_id r.updated.nodes)) (ids w.nodes) =
            subst (All (Found (by_id r.updated.nodes))) h.0.3 (by_id-Found r.updated.nodes) in
          after_latest-Saves (by_id r.updated.nodes) node.id (own (by_id r.updated.nodes) known) _
            ((h.0.0, h.0.1, h.0.2, h.0.3, known), h.1)

  by_decision-Saves :
      (d : PolicyDecision) (reason : String) (node : WorkflowNode) (role : String)
      (token : Option String)
      → Own node
      → Saves env w (by_decision env d reason node role token)
  unfolding by_decision
  by_decision-Saves deny reason node role token own = denied_node-Saves node reason
  by_decision-Saves require_additional_context reason node role token own =
      pass-Saves "workflow.node.failed" (with_status env node blocked reason)
  by_decision-Saves allow reason node role token own = executed-Saves node role token own
  by_decision-Saves allow_with_approval reason node role token own =
      executed-Saves node role token own

  queue_if-Saves : (b : Bool) (id : String) → Saves env w (queue_if env b id)
  unfolding queue_if
  queue_if-Saves false id = λ r h. h
  queue_if-Saves true id =
      λ r h. checkpoint-Commits env w "workflow.approval.execution_queued" (some id) r h.0

  rule-Saves :
      (node : WorkflowNode) (role : String) (token : Option String) (v : WorkflowPolicyEvaluation)
      → Own node
      → Saves env w (rule env node role token v)
  unfolding rule judged transform_node_with_policy
  rule-Saves node role token v own = Commits-Saves env w (rule env node role token v) (
      commit_then env w "workflow.node.policy_evaluated" (judged env node v)
        (by_decision env v.decision v.reason (judged env node v) role token)
        (by_decision-Saves v.decision v.reason (judged env node v) role token own))

  rule_if-Saves :
      (o : Option WorkflowPolicyEvaluation) (node : WorkflowNode) (role : String)
      (token : Option String)
      → Own node
      → Saves env w (rule_if env node role token o)
  unfolding rule_if
  rule_if-Saves none node role token own = λ r h. inr (inl refl)
  rule_if-Saves (some v) node role token own = rule-Saves node role token v own

  ruled-Saves :
      (node : WorkflowNode) (actor environment role : String) (token : Option String)
      → Own node
      → Saves env w (ruled env node actor environment role token)
  unfolding ruled now
  ruled-Saves node actor environment role token own =
      Commits-Saves env w (ruled env node actor environment role token) (
        commit_then env w "workflow.node.ready" node
          (queue_if env (is_queued node.approval_state) node.id >> from_now)
          (then-Saves env w (queue_if env (is_queued node.approval_state) node.id) (λ u. from_now)
            (queue_if-Saves (is_queued node.approval_state) node.id)
            λ u r h. rule_if-Saves _ node role token own _ h))
    where
      from_now : Action G Flow
      from_now = now env >>= λ at.
          rule_if env node role token
            (evaluate env.policy_registry node actor role environment "execution" at)

  ready-Own : (n : WorkflowNode) → Own n → Own (ready_form env n)
  unfolding ready_form
  ready-Own n own = if-elim Own _ _ _ own own

  broken-Saves : (node : WorkflowNode) (e : ConditionError) → Saves env w (broken env node e)
  unfolding broken
  broken-Saves node Conditions.type_error r h = inl refl
  broken-Saves node (Conditions.evaluation message) r h =
      commit_then env w "workflow.node.failed" _ (pure finish) (λ s k. k) r h.0

  conditioned-Saves :
      (x : Result ConditionError Bool) (node : WorkflowNode) (actor environment role : String)
      (token : Option String)
      → Own node
      → Saves env w (conditioned env x node actor environment role token)
  unfolding conditioned
  conditioned-Saves (err e) node actor environment role token own = broken-Saves node e
  conditioned-Saves (ok false) node actor environment role token own =
      pass-Saves "workflow.node.skipped" (record node { execution_status = skipped })
  conditioned-Saves (ok true) node actor environment role token own =
      ruled-Saves (ready_form env node) actor environment role token (ready-Own node own)

  considered-Saves :
      (b : Bool) (node : WorkflowNode) (actor environment role : String) (token : Option String)
      → Own node
      → Saves env w (considered env b node actor environment role token)
  unfolding considered
  considered-Saves false node actor environment role token own r h =
      pass-Saves "workflow.node.blocked" (record node { execution_status = blocked }) r h
  considered-Saves true node actor environment role token own r h =
      conditioned-Saves (condition_is_satisfied env.re_match env.repr node r.node_outputs) node
        actor environment role token own r h

  is_early-Saves : (node : WorkflowNode) → Saves env w (is_early env node)
  unfolding is_early now
  is_early-Saves node =
      if-Saves env w (is_retrying node.execution_status) _ (pure false) (λ r h. h) (λ r h. h)

  choose-Saves :
      (early settled : Bool) (go : Action G Flow)
      → Saves env w go
      → Saves env w (choose env early settled go)
  unfolding choose
  choose-Saves true settled go saves = λ r h. h
  choose-Saves false true go saves = λ r h. h
  choose-Saves false false go saves = saves

  pub visit-Saves :
      (node : WorkflowNode) (actor environment role : String) (token : Option String)
      → Own node
      → Saves env w (visit env node actor environment role token)
  unfolding visit
  visit-Saves node actor environment role token own =
      then-Saves env w (is_early env node)
        (λ early r. choose env early (is_settled node.execution_status) (entered r.completed) r)
        (is_early-Saves node)
        λ early r.
          choose-Saves early (is_settled node.execution_status) (entered r.completed)
            (considered-Saves (allb (λ d. elem d r.completed) node.depends_on) node actor
              environment role token own)
            r
    where
      entered : List String → Action G Flow
      entered completed =
          considered env (allb (λ d. elem d completed) node.depends_on) node actor environment role
            token
