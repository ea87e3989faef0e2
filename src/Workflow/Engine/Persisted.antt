-- ===== src/Workflow/Engine/Persisted.antt =====
-- services/ai-agent/src/mcp_ops_ai_agent/workflows/service.py: the workflow that a run returns, and the
-- one that the repository holds.
use mcp_ai.Prelude.{
  ◌<◌, String, Bool, true, false, Option, none, some, List, [], ◌∷◌, ◌≡◌, refl, ◌⊎◌, inl, inr,
  if◌then◌else◌, arith, anyb, string_eq, All,
}
use mcp_ai.Prelude.Dict.{Dict}
use mcp_ai.Prelude.Exec.{Result, ok, err, pure}
use mcp_ai.Workflow.Models.{Workflow, WorkflowStatus, WorkflowNode}
use mcp_ai.Workflow.Order.{topological_nodes}
use mcp_ai.Workflow.Order.Members.{topological_nodes-All}
use mcp_ai.Workflow.Repository.{get_workflow, save_workflow_with_event}
use mcp_ai.Workflow.Engine.{
  EngineEnv, EngineError, Engine, Run, Action, now, draw, save_with, checkpoint,
}
use mcp_ai.Workflow.Engine.Known.{get-put-same, Found, ids, by_id-Found}
use mcp_ai.Workflow.Engine.Loop.{
  Flow, next, stop, finish, is_failed, visit, visit_each, finish_workflow, run_steps, run_workflow,
  returned, entry, started_event, entered,
}
use mcp_ai.Workflow.Engine.Steps.{audit_then}
use mcp_ai.Workflow.Engine.Saving.{Ends, then-Ends, Excused, Active, Mid, Held, Saved}
use mcp_ai.Workflow.Engine.Visited.{Own, visit-Saves}

-- the end of a workflow, by the statuses of its nodes
abbrev pub Finished : Workflow → Type 0
Finished v =
    ((v.status ≡ WorkflowStatus.completed)
      × (anyb (λ n. is_failed n.execution_status) v.nodes ≡ false))
    ⊎ ((v.status ≡ WorkflowStatus.failed)
        × (anyb (λ n. is_failed n.execution_status) v.nodes ≡ true))

module _ {G : Type 0} (env : EngineEnv G) (w : Workflow) where
  -- the workflow of the run, newer: it goes on, or it is completed or failed by its nodes
  abbrev pub Settled : Workflow → Type 0
  Settled v = (v.id ≡ w.id) × (w.version < v.version) × (Active v.status ⊎ Finished v)

  abbrev Returned : Run G → Type 0
  Returned r = Settled r.updated × Held env w r

  finish-Returned :
      (role : String) (r : Run G) → Mid env w r → Ends Returned (finish_workflow env role r)
  unfolding finish_workflow checkpoint now draw save_with save_workflow_with_event
  finish-Returned role r h =
      audit_then env (Ends Returned) "workflow.execution_finished" role _ none
        (λ u. checkpoint env "workflow.completed" none) _ (inr (inl refl))
        (
          (
            h.0,
            omega (arith, h.1),
            inr (finished-cases (anyb (λ n. is_failed n.execution_status) r.updated.nodes) refl),
          ),
          get-put-same r.updated.id _ r.engine.repository.workflows,
        )
    where
      finished-cases :
          (b : Bool)
          → anyb (λ n. is_failed n.execution_status) r.updated.nodes ≡ b
          → Finished (record r.updated {
            status = if b then WorkflowStatus.failed else WorkflowStatus.completed;
          })
      finished-cases true e = inr (refl, e)
      finished-cases false e = inl (refl, e)

  Saved-Returned : (r : Run G) → Saved env w r → Returned r
  Saved-Returned r h = ((h.0.0, h.0.1, inl h.0.2), h.1)

  visit_each-Returned :
      (nodes : List WorkflowNode) (actor environment role : String) (token : Option String)
      (r : Run G)
      → All (Own env w) nodes
      → Saved env w r
      → Ends Returned (visit_each env nodes actor environment role token r)
  unfolding visit_each
  visit_each-Returned [] actor environment role token r owns h = finish-Returned role r h.0
  visit_each-Returned (node ∷ nodes) actor environment role token r owns h =
      then-Ends (Saved env w) Returned (visit env node actor environment role token) onward r
        (visit-Saves env w node actor environment role token owns.0 r h)
        (onward-Returned (λ s. visit_each-Returned nodes actor environment role token s owns.1))
    where
      onward : Flow → Action G (Unit {0})
      onward next = visit_each env nodes actor environment role token
      onward stop = pure tt
      onward finish = finish_workflow env role

      onward-Returned :
          ((s : Run G)
            → Saved env w s
            → Ends Returned (visit_each env nodes actor environment role token s))
          → (flow : Flow) (s : Run G) → Saved env w s
          → Ends Returned (onward flow s)
      onward-Returned rest next s k = rest s k
      onward-Returned rest stop s k = Saved-Returned s k
      onward-Returned rest finish s k = finish-Returned role s k.0

  All-Own :
      (ns : List WorkflowNode)
      → ((d : Dict String WorkflowNode) → All (Found d) (ids w.nodes) → All (Found d) (ids ns))
      → All (Own env w) ns
  All-Own [] within = tt
  All-Own (n ∷ ns) within = (λ d k. (within d k).0, All-Own ns λ d k. (within d k).1)

  run_steps-Returned :
      (role : String) (resumed : Bool) (token : Option String) (e : Engine G)
      → Ends Returned (run_steps env role resumed token (entry env e w))
  unfolding run_steps checkpoint now draw save_with save_workflow_with_event
  run_steps-Returned role resumed token e =
      audit_then env (Ends Returned) (started_event env resumed) role _ none
        (entered env role token) _ (inr (inl refl))
        (visit_each-Returned (topological_nodes w.nodes) w.created_by w.target_environment role
          token _ (topological_nodes-All (Own env w) w.nodes (All-Own w.nodes λ d k. k))
          (
            (refl, omega arith, inl refl, refl, by_id-Found w.nodes),
            get-put-same w.id _ e.repository.workflows,
          ))

  -- how a run ends: with the workflow that the repository holds, or by an excused exception
  abbrev pub EndsSettled : Result EngineError Workflow × Engine G → Type 0
  EndsSettled (ok v, e) = Settled v × (get_workflow v.id e.repository ≡ some v)
  EndsSettled (err x, e) = Excused x

  returned-EndsSettled :
      (x : Result EngineError (Unit {0})) (r : Run G)
      → Ends Returned (x, r)
      → EndsSettled (returned env x r.updated, r.engine)
  unfolding returned get_workflow
  returned-EndsSettled (ok u) r t = t
  returned-EndsSettled (err e) r t = t

-- Every run ends in one of two ways. It returns the workflow, under its identifier and with a higher
-- version, and the repository then holds that workflow: it is running or waits for an approval, or it is
-- completed and no node is failed, denied or blocked, or it is failed and some node is. Or it raises: the
-- type error of a condition, the validation error of a request, a policy evaluation or an audit event
-- that is out of its bounds, or what the gateway client raised.
pub run_is_persisted :
    {G : Type 0} (env : EngineEnv G) (w : Workflow) (role : String) (resumed : Bool)
    (token : Option String) (e : Engine G)
    → EndsSettled env w (run_workflow env w role resumed token e)
unfolding run_workflow
run_is_persisted env w role resumed token e =
    returned-EndsSettled env w (run_steps env role resumed token (entry env e w)).0
      (run_steps env role resumed token (entry env e w)).1
      (run_steps-Returned env w role resumed token e)
