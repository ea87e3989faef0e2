-- ===== src/Workflow/Engine/Judged.antt =====
-- services/ai-agent/src/mcp_ops_ai_agent/workflows/service.py: the requests that the body of the loop of
-- `_run_workflow` sends.
use mathlib.Core.List.{Memᴰ}
use mcp_ai.Prelude.{
  ℕ, ◌+◌, String, Bool, true, false, Option, none, some, List, ◌≡◌, refl, sym, subst, ◌⊎◌, inl, inr,
  arith, elem, allb, string_eq, ◌&&◌,
}
use mcp_ai.Prelude.Dict.{get}
use mcp_ai.Prelude.Exec.{Result, ok, err, ◌>>=◌, ◌>>◌}
use mcp_ai.Gateway.Models.{GatewayToolRequest}
use mcp_ai.Workflow.Models.{
  WorkflowNode, WorkflowPolicyEvaluation, PolicyDecision, allow, allow_with_approval, deny,
  require_additional_context, blocked, skipped, ready, NodeStatus, ApprovalState, execution_queued,
}
use mcp_ai.Registry.{ToolMetadata}
use mcp_ai.Workflow.Policy.{
  decide, requires_context, evaluate, transform_node_with_policy, evaluated, resource_of,
}
use mcp_ai.Workflow.Conditions
use mcp_ai.Workflow.Conditions.{ConditionError, condition_is_satisfied}
use mcp_ai.Workflow.Order.{by_id}
use mcp_ai.Workflow.Order.Members.{if-elim}
use mcp_ai.Workflow.Engine.{
  idempotency_key, EngineEnv, Run, Sent, Action, now, draw, save_with, checkpoint, commit,
}
use mcp_ai.Workflow.Engine.Node.{execute_node_with_recovery}
use mcp_ai.Workflow.Engine.Steps.{
  Extends, Sound, Keeps, IsSilent, IsSilent-Keeps, seq-Keeps, then-Leads, commit-IsSilent,
}
use mcp_ai.Workflow.Engine.Attempt.{counted, Serves, Serves-face, execute_node_with_recovery-Keeps}
use mcp_ai.Workflow.Engine.Loop.{
  Flow, is_queued, is_settled, is_waiting, is_some, judged, rule, pass, with_status, denied_node,
  flow_of, after_latest, executed, by_decision, queue_if, ready_form, rule_if, ruled, broken,
  conditioned, considered, is_early, choose, visit,
}

-- the decisions that let a node run
abbrev pub Permits : PolicyDecision → Type 0
Permits d = (d ≡ allow) ⊎ (d ≡ allow_with_approval)

-- an evaluation that could be made lets a node run
abbrev pub Permitted : Option WorkflowPolicyEvaluation → Type 0
Permitted none = ⊥
Permitted (some v) = Permits v.decision

module _ {G : Type 0} (env : EngineEnv G) (actor environment role : String)
    (ns : List WorkflowNode) where
  -- A request is for a node of the list, whose dependencies were complete and which the policy let run
  -- in the role.
  abbrev pub Justified : Sent → Type 0
  Justified s =
      (n : WorkflowNode) × Memᴰ n ns
      × (allb (λ d. elem d s.completed) n.depends_on ≡ true)
      × ((at : ℕ) × Permitted
            (evaluate env.policy_registry n actor role environment "execution" at))
      × Serves (counted n) s.request

  module _ (before : List Sent) where
    abbrev pub Grown : Run G → Type 0
    Grown r = Extends Justified before r.engine.sent

    Sound-Grown : (c : List String) (r : Run G) → Sound Justified before c r → Grown r
    Sound-Grown c r h = h.1

    silent :
        {A : Type 0} (m : Action G A)
        → IsSilent m
        → (c : List String) (r : Run G) → Sound Justified before c r
        → Grown (m r).1
    silent m quiet c r h = (IsSilent-Keeps Justified before c m quiet r h).1

    after_latest-sent :
        (o : Option WorkflowNode) (id : String) (r : Run G)
        → (after_latest env o id r).1.engine.sent ≡ r.engine.sent
    unfolding after_latest flow_of
    after_latest-sent o id r = ground arith

    pass-IsSilent :
        (event_type : String) (node : WorkflowNode) → IsSilent (pass env event_type node)
    unfolding pass
    pass-IsSilent event_type node r = grind (arith, commit-IsSilent)

    denied_node-IsSilent :
        (node : WorkflowNode) (reason : String) → IsSilent (denied_node env node reason)
    unfolding denied_node now
    denied_node-IsSilent node reason r = grind (arith, pass-IsSilent)

    module _ (c : List String) where
      -- what is known of a node that may run
      abbrev Fit : WorkflowNode → Type 0
      Fit n =
          (q : GatewayToolRequest)
          → Serves (counted n) q
          → Justified (record { request = q; completed = c })

      abbrev Fits : WorkflowNode → Type 0
      Fits n =
          (at : ℕ)
          → Permitted (evaluate env.policy_registry n actor role environment "execution" at)
          → Fit n

      executed-Leads :
          (node : WorkflowNode) (token : Option String)
          → Fit node
          → (r : Run G) → Sound Justified before c r
          → Grown (executed env node role token r).1
      unfolding executed
      executed-Leads node token fit =
          then-Leads (Sound Justified before c) Grown (Sound-Grown c)
            (execute_node_with_recovery env node role token)
            (λ u r.
              after_latest env (get node.id (by_id r.updated.nodes)) node.id
                (record r { nodes_by_id = by_id r.updated.nodes }))
            (execute_node_with_recovery-Keeps env Justified before c node role token fit)
            λ u r h.
              subst (Extends Justified before)
                (sym (
                  after_latest-sent (get node.id (by_id r.updated.nodes)) node.id
                    (record r { nodes_by_id = by_id r.updated.nodes })))
                h.1

      by_decision-Leads :
          (d : PolicyDecision) (reason : String) (node : WorkflowNode) (token : Option String)
          → (Permits d → Fit node)
          → (r : Run G) → Sound Justified before c r
          → Grown (by_decision env d reason node role token r).1
      unfolding by_decision
      by_decision-Leads deny reason node token fit =
          silent (denied_node env node reason) (denied_node-IsSilent node reason) c
      by_decision-Leads require_additional_context reason node token fit =
          silent (pass env "workflow.node.failed" (with_status env node blocked reason))
            (pass-IsSilent "workflow.node.failed" (with_status env node blocked reason)) c
      by_decision-Leads allow reason node token fit = executed-Leads node token (fit (inl refl))
      by_decision-Leads allow_with_approval reason node token fit =
          executed-Leads node token (fit (inr refl))

      -- the node that the policy judges keeps what its request is made of
      ready-Serves :
          (n : WorkflowNode) (q : GatewayToolRequest)
          → Serves (counted (ready_form env n)) q
          → Serves (counted n) q
      unfolding ready_form
      ready-Serves n q h = Serves-face (counted (ready_form env n)) (counted n) q (ground arith) h

      evaluated-same :
          (o : Option ToolMetadata) (n : WorkflowNode) (s : NodeStatus) (a : ApprovalState) (at : ℕ)
          → evaluated o
              (record n { execution_status = s; approval_state = a })
              actor
              role
              environment
              "execution"
              at
            ≡ evaluated o n actor role environment "execution" at
      unfolding evaluated decide requires_context resource_of
      evaluated-same none n s a at = refl
      evaluated-same (some m) n s a at = refl

      ready-evaluate :
          (n : WorkflowNode) (at : ℕ)
          → evaluate env.policy_registry (ready_form env n) actor role environment "execution" at
            ≡ evaluate env.policy_registry n actor role environment "execution" at
      unfolding evaluate ready_form
      ready-evaluate n at =
          if-elim
            (λ m.
              evaluate env.policy_registry m actor role environment "execution" at
              ≡ evaluate env.policy_registry n actor role environment "execution" at)
            (is_waiting n.execution_status && is_some n.approval_id)
            (record n { execution_status = ready; approval_state = execution_queued })
            (record n { execution_status = ready })
            (evaluated-same (get n.tool_name env.policy_registry) n ready execution_queued at)
            (evaluated-same (get n.tool_name env.policy_registry) n ready n.approval_state at)

      queue_if-IsSilent : (b : Bool) (id : String) → IsSilent (queue_if env b id)
      unfolding queue_if checkpoint now draw save_with
      queue_if-IsSilent false id r = refl
      queue_if-IsSilent true id r = refl

      rule-Leads :
          (node : WorkflowNode) (token : Option String) (evaluation : WorkflowPolicyEvaluation)
          → (Permits evaluation.decision → Fit node)
          → (r : Run G) → Sound Justified before c r
          → Grown (rule env node role token evaluation r).1
      unfolding rule judged transform_node_with_policy idempotency_key
      rule-Leads node token evaluation fit =
          then-Leads (Sound Justified before c) Grown (Sound-Grown c)
            (commit env "workflow.node.policy_evaluated" (judged env node evaluation))
            (λ u.
              by_decision env evaluation.decision evaluation.reason (judged env node evaluation)
                role token)
            (IsSilent-Keeps Justified before c
              (commit env "workflow.node.policy_evaluated" (judged env node evaluation))
              (commit-IsSilent env "workflow.node.policy_evaluated" (judged env node evaluation)))
            λ u.
              by_decision-Leads evaluation.decision evaluation.reason (judged env node evaluation)
                token fit

      rule_if-Leads :
          (node : WorkflowNode) (token : Option String) (o : Option WorkflowPolicyEvaluation)
          → (Permitted o → Fit node)
          → (r : Run G) → Sound Justified before c r
          → Grown (rule_if env node role token o r).1
      unfolding rule_if
      rule_if-Leads node token none fit = λ r h. h.1
      rule_if-Leads node token (some v) fit = rule-Leads node token v fit

      ruled-Leads :
          (node : WorkflowNode) (token : Option String)
          → ((at : ℕ)
              → Permitted (evaluate env.policy_registry node actor role environment "execution" at)
              → Fit node)
          → (r : Run G) → Sound Justified before c r
          → Grown (ruled env node actor environment role token r).1
      unfolding ruled now
      ruled-Leads node token fit =
          then-Leads (Sound Justified before c) Grown (Sound-Grown c)
            (commit env "workflow.node.ready" node)
            (λ u. queue_if env (is_queued node.approval_state) node.id >> from_now)
            (IsSilent-Keeps Justified before c (commit env "workflow.node.ready" node)
              (commit-IsSilent env "workflow.node.ready" node))
            λ u.
              then-Leads (Sound Justified before c) Grown (Sound-Grown c)
                (queue_if env (is_queued node.approval_state) node.id) (λ v. from_now)
                (IsSilent-Keeps Justified before c
                  (queue_if env (is_queued node.approval_state) node.id)
                  (queue_if-IsSilent (is_queued node.approval_state) node.id))
                λ v r h.
                  rule_if-Leads node token
                    (evaluate env.policy_registry node actor role environment "execution"
                      (env.clock r.engine.ticks))
                    (fit (env.clock r.engine.ticks))
                    (record r { engine = record r.engine { ticks = r.engine.ticks + 1 } }) h
        where
          from_now : Action G Flow
          from_now = now env >>= λ at.
              rule_if env node role token
                (evaluate env.policy_registry node actor role environment "execution" at)

      broken-Leads :
          (node : WorkflowNode) (e : ConditionError) (r : Run G)
          → Sound Justified before c r
          → Grown (broken env node e r).1
      unfolding broken
      broken-Leads node Conditions.type_error =
          silent (broken env node Conditions.type_error) (λ r. refl) c
      broken-Leads node (Conditions.evaluation message) =
          silent (broken env node (Conditions.evaluation message))
            (λ r. grind (arith, commit-IsSilent)) c

      conditioned-Leads :
          (x : Result ConditionError Bool) (n : WorkflowNode) (token : Option String)
          → Fits n
          → (r : Run G) → Sound Justified before c r
          → Grown (conditioned env x n actor environment role token r).1
      unfolding conditioned
      conditioned-Leads (err e) n token fits = broken-Leads n e
      conditioned-Leads (ok false) n token fits =
          silent (pass env "workflow.node.skipped" (record n { execution_status = skipped }))
            (pass-IsSilent "workflow.node.skipped" (record n { execution_status = skipped })) c
      conditioned-Leads (ok true) n token fits =
          ruled-Leads (ready_form env n) token λ at permits q serves.
            fits at (subst (Permitted) (ready-evaluate n at) permits) q (ready-Serves n q serves)

      considered-Leads :
          (b : Bool) (n : WorkflowNode) (token : Option String)
          → (b ≡ true → Fits n)
          → (r : Run G) → Sound Justified before c r
          → Grown (considered env b n actor environment role token r).1
      unfolding considered
      considered-Leads false n token fits r h =
          silent (pass env "workflow.node.blocked" (record n { execution_status = blocked }))
            (pass-IsSilent "workflow.node.blocked" (record n { execution_status = blocked })) c r h
      considered-Leads true n token fits r h =
          conditioned-Leads (condition_is_satisfied env.re_match env.repr n r.node_outputs) n token
            (fits refl) r h

    is_early-sent :
        (n : WorkflowNode) (r : Run G) → (is_early env n r).1.engine.sent ≡ r.engine.sent
    unfolding is_early now
    is_early-sent n r = ground arith

    choose-Keeps :
        (early settled : Bool) (go : Action G Flow) (r : Run G)
        → Grown r
        → Grown (go r).1
        → Grown (choose env early settled go r).1
    unfolding choose
    choose-Keeps true settled go r h gone = h
    choose-Keeps false true go r h gone = h
    choose-Keeps false false go r h gone = gone

    pub visit-Keeps :
        (n : WorkflowNode) (token : Option String)
        → Memᴰ n ns
        → Keeps Grown (visit env n actor environment role token)
    unfolding visit
    visit-Keeps n token mem =
        seq-Keeps Grown (is_early env n)
          (λ early r. choose env early (is_settled n.execution_status) (entered r.completed) r)
          (λ r h. subst (Extends Justified before) (sym (is_early-sent n r)) h)
          λ early r h.
            choose-Keeps early (is_settled n.execution_status) (entered r.completed) r h (
              considered-Leads r.completed (allb (λ d. elem d r.completed) n.depends_on) n token
                (λ done at permits q serves. (n, mem, done, (at, permits), serves)) r (refl, h))
      where
        entered : List String → Action G Flow
        entered completed =
            considered env (allb (λ d. elem d completed) n.depends_on) n actor environment role
              token
