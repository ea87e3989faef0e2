-- ===== src/Workflow/Engine/Gated.antt =====
-- services/ai-agent/src/mcp_ops_ai_agent/workflows/service.py: the requests that a run sends.
use mathlib.Core.List.{Memᴰ}
use mcp_ai.Prelude.{
  String, Bool, Option, none, List, [], ◌∷◌, ◌≡◌, refl, sym, subst, All, string_eq,
}
use mcp_ai.Prelude.Exec.{pure}
use mcp_ai.Workflow.Models.{Workflow, WorkflowNode}
use mcp_ai.Workflow.Order.{topological_nodes}
use mcp_ai.Workflow.Order.Members.{topological_nodes-All}
use mcp_ai.Workflow.Engine.{EngineEnv, Engine, Run, Sent, Action, now, draw, save_with, checkpoint}
use mcp_ai.Workflow.Engine.Steps.{audit_then, Extends, Extends-refl, Keeps, seq-Keeps}
use mcp_ai.Workflow.Engine.Loop.{
  Flow, next, stop, finish, visit, visit_each, finish_workflow, run_steps, run_workflow,
  started_event, entered,
}
use mcp_ai.Workflow.Engine.Judged.{Justified, Grown, visit-Keeps}

module _ {G : Type 0} (env : EngineEnv G) (actor environment role : String) (ns : List WorkflowNode)
    (before : List Sent) where
  finish_workflow-sent : (r : Run G) → (finish_workflow env role r).1.engine.sent ≡ r.engine.sent
  unfolding finish_workflow checkpoint now draw save_with
  finish_workflow-sent r =
      audit_then env (λ x. x.1.engine.sent ≡ r.engine.sent) "workflow.execution_finished" role _
        none (λ u. checkpoint env "workflow.completed" none) _ refl refl

  finish-Keeps : Keeps (Grown env actor environment role ns before) (finish_workflow env role)
  finish-Keeps r h =
      subst (Extends (Justified env actor environment role ns) before)
        (sym (finish_workflow-sent r)) h

  visit_each-Keeps :
      (nodes : List WorkflowNode) (token : Option String)
      → All (λ n. Memᴰ n ns) nodes
      → Keeps
          (Grown env actor environment role ns before)
          (visit_each env nodes actor environment role token)
  unfolding visit_each
  visit_each-Keeps [] token mems = finish-Keeps
  visit_each-Keeps (node ∷ nodes) token mems =
      seq-Keeps (Grown env actor environment role ns before)
        (visit env node actor environment role token) onward
        (visit-Keeps env actor environment role ns before node token mems.0)
        (onward-Keeps (visit_each-Keeps nodes token mems.1))
    where
      onward : Flow → Action G (Unit {0})
      onward next = visit_each env nodes actor environment role token
      onward stop = pure tt
      onward finish = finish_workflow env role

      onward-Keeps :
          Keeps
            (Grown env actor environment role ns before)
            (visit_each env nodes actor environment role token)
          → (flow : Flow) → Keeps (Grown env actor environment role ns before) (onward flow)
      onward-Keeps rest next = rest
      onward-Keeps rest stop = λ r h. h
      onward-Keeps rest finish = finish-Keeps

All-Mem : (xs : List WorkflowNode) → All (λ n. Memᴰ n xs) xs
All-Mem xs = every xs (λ n mem. mem)
  where
    every :
        (ys : List WorkflowNode)
        → ((n : WorkflowNode) → Memᴰ n ys → Memᴰ n xs)
        → All (λ n. Memᴰ n xs) ys
    every [] within = tt
    every (y ∷ ys) within =
        (within y (Memᴰ.head refl), every ys (λ n mem. within n (Memᴰ.tail mem)))

-- The requests that a run of a workflow adds to those sent before are each for one of its nodes. The
-- node's dependencies were all among the nodes that the run held complete when it sent the request, and
-- the policy, at the time of some reading, lets the node run in the role of the run. The request calls
-- the node's tool or its compensation tool, with the node's approval and, for both, under one idempotency
-- key, which names the workflow, the node and the number of the attempt.
pub run_workflow-Justified :
    {G : Type 0} (env : EngineEnv G) (w : Workflow) (role : String) (resumed : Bool)
    (token : Option String) (e : Engine G)
    → Extends
        (Justified env w.created_by w.target_environment role w.nodes)
        e.sent
        (run_workflow env w role resumed token e).1.sent
unfolding run_workflow run_steps checkpoint now draw save_with
run_workflow-Justified env w role resumed token e =
    audit_then env
      (λ x.
        Extends (Justified env w.created_by w.target_environment role w.nodes) e.sent
          x.1.engine.sent)
      (started_event env resumed) role _ none (entered env role token) _ (Extends-refl _ e.sent)
      (visit_each-Keeps env w.created_by w.target_environment role w.nodes e.sent
        (topological_nodes w.nodes) token
        (topological_nodes-All (λ n. Memᴰ n w.nodes) w.nodes (All-Mem w.nodes)) _
        (Extends-refl _ e.sent))
