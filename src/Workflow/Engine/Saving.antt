-- ===== src/Workflow/Engine/Saving.antt =====
-- services/ai-agent/src/mcp_ops_ai_agent/workflows/service.py: the steps of an attempt, and the workflow
-- that the repository holds.
use mcp_ai.Prelude.{
  ◌<◌, String, Bool, true, false, Option, none, some, List, [], ◌≡◌, refl, sym, ◌∙◌, subst, ◌⊎◌,
  inl, inr, if◌then◌else◌, arith, string_eq, All,
}
use mcp_ai.Prelude.Text.{is_empty}
use mcp_ai.Prelude.Dict.{get}
use mcp_ai.Prelude.Exec.{Result, ok, err, and_then, ◌>>=◌, ◌>>◌, pure}
use mcp_ai.Gateway.Models.{GatewayToolResponse, GatewayDecision, pending_approval, allowed, denied}
use mcp_ai.Workflow.Models.{Workflow, WorkflowStatus, WorkflowNode, compensating}
use mcp_ai.Workflow.Arguments.{Binding, resolve_node_arguments}
use mcp_ai.Workflow.Repository.{save_workflow_with_event}
use mcp_ai.Workflow.Engine.{
  CallFailure, timed_out, connection_failed, runtime_failed, other_failure, EngineEnv, EngineError,
  type_error, validation_error, propagated, Run, Action, now, draw, save_with, send, checkpoint,
  replace_nodes, commit, execute_node,
}
use mcp_ai.Workflow.Engine.Known.{get-put-same, Found, put-All-Found, ids, current_nodes-Found}
use mcp_ai.Workflow.Engine.Node.{
  failure_response, answered, bound, attempted, wait_for_approval, succeed, fail, retry_later,
  compensation_form, compensation_result, compensate_node, or_compensate, recover, lost_form,
  conclude, running_form, execute_node_with_recovery,
}
use mcp_ai.Workflow.Engine.Steps.{audit_then, execute_then}
use mcp_ai.Workflow.Engine.Attempt.{paired, replied, called, compensation_call, concluded, tried}

-- what a run may raise: the type error of a condition, a validation error, and what the client raised
abbrev pub Excused : EngineError → Type 0
Excused e = (e ≡ type_error) ⊎ (e ≡ validation_error) ⊎ ((f : CallFailure) × (e ≡ propagated f))

-- the state is of a kind where an action returns, and what it raises is excused
abbrev pub Ends : {G A : Type 0} → (Run G → Type 0) → Result EngineError A × Run G → Type 0
Ends I (ok a, r) = I r
Ends I (err e, r) = Excused e

module _ {G A B : Type 0} (I J : Run G → Type 0) where
  and_then-Ends :
      (x : Result EngineError A) (r : Run G) (k : A → Action G B)
      → Ends I (x, r)
      → ((a : A) (r : Run G) → I r → Ends J (k a r))
      → Ends J (and_then x k r)
  and_then-Ends (ok a) r k h each = each a r h
  and_then-Ends (err e) r k h each = h

  pub then-Ends :
      (m : Action G A) (k : A → Action G B) (r : Run G)
      → Ends I (m r)
      → ((a : A) (r : Run G) → I r → Ends J (k a r))
      → Ends J ((m >>= k) r)
  then-Ends m k r h each = and_then-Ends (m r).0 (m r).1 k h each

-- the statuses of a workflow that goes on
abbrev pub Active : WorkflowStatus → Type 0
Active s = (s ≡ WorkflowStatus.running) ⊎ (s ≡ WorkflowStatus.waiting_approval)

module _ {G : Type 0} (env : EngineEnv G) (w : Workflow) where
  -- the workflow is that of the run, newer, and goes on, with the same nodes, which are all known
  abbrev pub Mid : Run G → Type 0
  Mid r =
      (r.updated.id ≡ w.id)
      × (w.version < r.updated.version)
      × Active r.updated.status
      × (ids r.updated.nodes ≡ ids w.nodes)
      × All (Found r.nodes_by_id) (ids w.nodes)

  -- and the repository holds it
  abbrev pub Held : Run G → Type 0
  Held r = get r.updated.id r.engine.repository.workflows ≡ some r.updated

  abbrev pub Saved : Run G → Type 0
  Saved r = Mid r × Held r

  abbrev pub Saves : {A : Type 0} → Action G A → Type 0
  Saves m = (r : Run G) → Saved r → Ends Saved (m r)

  abbrev pub Commits : {A : Type 0} → Action G A → Type 0
  Commits m = (r : Run G) → Mid r → Ends Saved (m r)

  pub Commits-Saves : {A : Type 0} (m : Action G A) → Commits m → Saves m
  Commits-Saves m commits r h = commits r h.0

  pub checkpoint-Commits :
      (event_type : String) (id : Option String) → Commits (checkpoint env event_type id)
  unfolding checkpoint now draw save_with save_workflow_with_event
  checkpoint-Commits event_type id r h = (
    (h.0, omega (arith, h.1), h.2, h.3, h.4),
    get-put-same r.updated.id _ r.engine.repository.workflows,
  )

  replace_nodes-Mid : (r : Run G) → Mid r → Ends Mid (replace_nodes env r)
  unfolding replace_nodes
  replace_nodes-Mid r h =
      let (ms, e, own) =
        current_nodes-Found r.nodes_by_id r.updated.nodes
          (subst (All (Found r.nodes_by_id)) (sym h.3) h.4) in
      subst (λ x. Ends Mid (and_then x replaced r)) (sym e) (h.0, h.1, h.2, own ∙ h.3, h.4)
    where
      replaced : List WorkflowNode → Action G (Unit {0})
      replaced nodes s = (ok tt, record s { updated = record s.updated { nodes = nodes } })

  pub commit-Commits :
      (event_type : String) (node : WorkflowNode) → Commits (commit env event_type node)
  unfolding commit
  commit-Commits event_type node r h =
      then-Ends Mid Saved (replace_nodes env) (λ u. checkpoint env event_type (some node.id)) _
        (replace_nodes-Mid _
          (h.0, h.1, h.2, h.3, put-All-Found node r.nodes_by_id (ids w.nodes) h.4))
        (λ u. checkpoint-Commits event_type (some node.id))

  -- after a commit, whatever keeps the workflow saved
  pub commit_then :
      {B : Type 0} (event_type : String) (node : WorkflowNode) (m : Action G B)
      → Saves m
      → Commits (commit env event_type node >> m)
  commit_then event_type node m saves r h =
      then-Ends Saved Saved (commit env event_type node) (λ u. m) r
        (commit-Commits event_type node r h) (λ u. saves)

  pub then-Saves :
      {A B : Type 0} (m : Action G A) (k : A → Action G B)
      → Saves m
      → ((a : A) → Saves (k a))
      → Saves (m >>= k)
  then-Saves m k first each r h = then-Ends Saved Saved m k r (first r h) each

  execute-Saves :
      (node : WorkflowNode) (role : String) (token : Option String)
      → Saves (execute_node env node role token)
  unfolding send
  execute-Saves node role token r h =
      execute_then env (Ends Saved) node role token r (inr (inl refl)) h

  pub if-Saves :
      {A : Type 0} (b : Bool) (m n : Action G A) → Saves m → Saves n → Saves (if b then m else n)
  if-Saves true m n hm hn = hm
  if-Saves false m n hm hn = hn

  bound-Saves : (node resolved : WorkflowNode) → Saves (bound env node resolved)
  unfolding bound
  bound-Saves node resolved =
      if-Saves _ (pure node) _ (λ r h. h)
        (Commits-Saves _ (
          commit_then "workflow.node.arguments_bound" (record resolved { argument_references = [] })
            (pure (record resolved { argument_references = [] })) (λ r h. h)))

  answered-Saves :
      (node : WorkflowNode) (outcome : Result CallFailure GatewayToolResponse)
      → Saves (answered env node outcome)
  unfolding answered failure_response draw
  answered-Saves node (ok response) r h = h
  answered-Saves node (err (timed_out message)) r h = h
  answered-Saves node (err (connection_failed message)) r h = h
  answered-Saves node (err (runtime_failed message)) r h = h
  answered-Saves node (err other_failure) r h = inr (inr (other_failure, refl))

  attempted-Saves :
      (x : Binding WorkflowNode) (node : WorkflowNode) (role : String) (token : Option String)
      → Saves (attempted env x node role token)
  unfolding attempted failure_response draw
  attempted-Saves (err message) node role token = λ r h. h
  attempted-Saves (ok n) node role token =
      then-Saves (bound env node n) (called env role token) (bound-Saves node n) λ ready.
        then-Saves (execute_node env ready role token) (replied env ready)
          (execute-Saves ready role token)
          λ outcome.
            then-Saves (answered env ready outcome) (paired env ready)
              (answered-Saves ready outcome) λ response r h. h

  wait-Saves :
      (node : WorkflowNode) (role : String) (response : GatewayToolResponse)
      → Saves (wait_for_approval env node role response)
  unfolding wait_for_approval
  wait-Saves node role response r h =
      audit_then env (Ends Saved) "workflow.approval_requested" role _ (some node.id)
        (λ u. replace_nodes env >> checkpoint env "workflow.approval.required" (some node.id)) _
        (inr (inl refl))
        (then-Ends Mid Saved (replace_nodes env)
          (λ u. checkpoint env "workflow.approval.required" (some node.id)) _
          (replace_nodes-Mid _
            (h.0.0, h.0.1, inr refl, h.0.3, put-All-Found _ r.nodes_by_id (ids w.nodes) h.0.4))
          (λ u. checkpoint-Commits "workflow.approval.required" (some node.id)))

  succeed-Saves :
      (node : WorkflowNode) (response : GatewayToolResponse) → Saves (succeed env node response)
  unfolding succeed now
  succeed-Saves node response r h = commit-Commits "workflow.node.succeeded" _ _ h.0

  retry_later-Saves : (node : WorkflowNode) → Saves (retry_later env node)
  unfolding retry_later now
  retry_later-Saves node r h = commit-Commits "workflow.node.retrying" _ _ h.0

  compensation_result-Saves :
      (node : WorkflowNode) (outcome : Result CallFailure GatewayToolResponse)
      → Saves (compensation_result env node outcome)
  unfolding compensation_result now
  compensation_result-Saves node (ok response) r h =
      commit-Commits "workflow.compensation.completed" _ _ h.0
  compensation_result-Saves node (err failure) r h = inr (inr (failure, refl))

  compensate-Saves :
      (node : WorkflowNode) (tool role : String) (token : Option String)
      → Saves (compensate_node env node tool role token)
  unfolding compensate_node
  compensate-Saves node tool role token = Commits-Saves (compensate_node env node tool role token) (
      commit_then "workflow.compensation.started" (record node { execution_status = compensating })
        (λ r. compensation_call env node tool role token r.updated.id r)
        λ r h.
          then-Saves (execute_node env (compensation_form node tool r.updated.id) role token)
            (compensation_result env (record node { execution_status = compensating }))
            (execute-Saves (compensation_form node tool r.updated.id) role token)
            (compensation_result-Saves (record node { execution_status = compensating })) r h)

  or_compensate-Saves :
      (o : Option String) (node : WorkflowNode) (role : String) (token : Option String)
      → Saves (or_compensate env o node role token)
  unfolding or_compensate
  or_compensate-Saves none node role token = λ r h. h
  or_compensate-Saves (some tool) node role token =
      if-Saves (is_empty tool) _ (compensate_node env node tool role token) (λ r h. h)
        (compensate-Saves node tool role token)

  recover-Saves :
      (response : GatewayToolResponse) (lost : WorkflowNode) (role : String) (token : Option String)
      → Saves (recover env response lost role token)
  unfolding recover
  recover-Saves response lost role token =
      if-Saves _ (retry_later env lost) (or_compensate env lost.compensation_tool lost role token)
        (retry_later-Saves lost) (or_compensate-Saves lost.compensation_tool lost role token)

  fail-Saves :
      (node : WorkflowNode) (role : String) (token : Option String) (response : GatewayToolResponse)
      → Saves (fail env node role token response)
  unfolding fail now
  fail-Saves node role token response r h =
      commit_then "workflow.node.failed" (lost_form node response (env.clock r.engine.ticks))
        (recover env response (lost_form node response (env.clock r.engine.ticks)) role token)
        (recover-Saves response (lost_form node response (env.clock r.engine.ticks)) role token) _
        h.0

  conclude-Saves :
      (d : GatewayDecision) (fine : Bool) (node : WorkflowNode) (role : String)
      (token : Option String) (response : GatewayToolResponse)
      → Saves (conclude env d fine node role token response)
  unfolding conclude
  conclude-Saves pending_approval fine node role token response = wait-Saves node role response
  conclude-Saves allowed true node role token response = succeed-Saves node response
  conclude-Saves denied true node role token response = succeed-Saves node response
  conclude-Saves allowed false node role token response = fail-Saves node role token response
  conclude-Saves denied false node role token response = fail-Saves node role token response

  pub recovery-Saves :
      (node : WorkflowNode) (role : String) (token : Option String)
      → Saves (execute_node_with_recovery env node role token)
  unfolding execute_node_with_recovery now
  recovery-Saves node role token r h =
      let running = running_form node (env.clock r.engine.ticks) in
      commit_then "workflow.node.started" running
        (λ s. tried env running role token s.node_outputs s)
        (λ s.
          then-Saves
            (attempted env (resolve_node_arguments running s.node_outputs) running role token)
            (concluded env role token)
            (attempted-Saves (resolve_node_arguments running s.node_outputs) running role token)
            (λ (ready, reply). conclude-Saves reply.decision reply.ok ready role token reply) s)
        _ h.0
