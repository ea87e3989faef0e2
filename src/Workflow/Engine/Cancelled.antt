-- ===== src/Workflow/Engine/Cancelled.antt =====
-- services/ai-agent/src/mcp_ops_ai_agent/workflows/service.py: what `cancel` leaves, and what `execute` and
-- `resume` then do.
use mcp_ai.Prelude.{
  String, false, Option, some, List, [], ◌∷◌, ◌≡◌, refl, All, map, string_eq, arith,
}
use mcp_ai.Prelude.Exec.{ok}
use mcp_ai.Gateway.Models.{Uuid}
use mcp_ai.Workflow.Models.{Workflow, WorkflowStatus, WorkflowNode}
use mcp_ai.Workflow.Repository.{save_workflow, get_workflow}
use mcp_ai.Workflow.Engine.{EngineEnv, Engine}
use mcp_ai.Workflow.Engine.Known.{get-put-same}
use mcp_ai.Workflow.Engine.Api.{
  is_cancellable, cancelled_node, cancelled_form, find_workflow, present, clock_now, save, execute,
  resume, cancel,
}

module _ {G : Type 0} (env : EngineEnv G) (id : Uuid) where
  held-execute :
      (w : Workflow) (e : Engine G)
      → get_workflow id e.repository ≡ some w
      → w.status ≡ WorkflowStatus.cancelled
      → (role : String) (token : Option String)
      → (execute env id role token e ≡ (ok w, e)) × (resume env id role token e ≡ (ok w, e))
  unfolding execute resume find_workflow present
  held-execute w e found off role token = (ground (arith, found, off), ground (arith, found, off))

  ended :
      (nodes : List WorkflowNode)
      → All (λ n. is_cancellable n.execution_status ≡ false) (map cancelled_node nodes)
  unfolding cancelled_node
  ended [] = tt
  ended (n ∷ ns) = (ground arith, ended ns)

  cancel-ok :
      (w : Workflow) (e : Engine G) (role : String)
      → get_workflow id e.repository ≡ some w
      → (cancel env id role e).0 ≡ ok (cancelled_form w role (env.clock e.ticks))
  unfolding cancel find_workflow present clock_now save
  cancel-ok w e role found = ground (arith, found)

  cancel-stored :
      (w : Workflow) (e : Engine G) (role : String)
      → get_workflow id e.repository ≡ some w
      → w.id ≡ id
      → get_workflow id (cancel env id role e).1.repository
        ≡ some (cancelled_form w role (env.clock e.ticks))
  unfolding cancel find_workflow present clock_now save save_workflow get_workflow cancelled_form
  cancel-stored w e role found own = ground (
    arith,
    found,
    own,
    get-put-same w.id (cancelled_form w role (env.clock e.ticks)) e.repository.workflows,
  )

-- Where the repository holds a workflow under its identifier, `cancel` returns it cancelled, with no
-- node that is pending, blocked, denied, waiting or running; and `execute` and `resume` of it then
-- return that same workflow and leave the engine as it is, so that nothing is sent.
pub cancel_is_final :
    {G : Type 0} (env : EngineEnv G) (id : Uuid) (w : Workflow) (e : Engine G) (role : String)
    → get_workflow id e.repository ≡ some w
    → w.id ≡ id
    → (v : Workflow) × ((cancel env id role e).0 ≡ ok v)
      × (v.status ≡ WorkflowStatus.cancelled)
      × All (λ n. is_cancellable n.execution_status ≡ false) v.nodes
      × ((later : String) (token : Option String)
          → (execute env id later token (cancel env id role e).1 ≡ (ok v, (cancel env id role e).1))
            × (resume env id later token (cancel env id role e).1
                ≡ (ok v, (cancel env id role e).1)))
unfolding cancelled_form
cancel_is_final env id w e role found own = (
  cancelled_form w role (env.clock e.ticks),
  cancel-ok env id w e role found,
  refl,
  ended env id w.nodes,
  held-execute env id (cancelled_form w role (env.clock e.ticks)) (cancel env id role e).1
      (cancel-stored env id w e role found own) refl,
)
