-- ===== src/Workflow/Engine/Attempt.antt =====
-- services/ai-agent/src/mcp_ops_ai_agent/workflows/service.py: the requests that
-- `_execute_node_with_recovery` sends.
use mcp_ai.Prelude.{
  ℕ, ◌+◌, max, String, Bool, true, false, Option, none, some, List, [], ◌∷◌, ◌≡◌, refl, sym, subst,
  ◌⊎◌, inl, inr, if◌then◌else◌, arith, string_eq,
}
use mcp_ai.Prelude.Text.{concat, str_of_nat, is_empty}
use mcp_ai.Prelude.Dict.{Dict}
use mcp_ai.Prelude.Exec.{Result, ok, err, ◌>>=◌, ◌>>◌, pure}
use mcp_ai.Value.{Value}
use mcp_ai.Gateway.Models.{
  Uuid, GatewayToolRequest, GatewayToolResponse, GatewayDecision, pending_approval, allowed, denied,
}
use mcp_ai.Workflow.Models.{WorkflowNode, compensating}
use mcp_ai.Workflow.Arguments.{Binding, resolve_node_arguments}
use mcp_ai.Workflow.Engine.{
  CallFailure, EngineEnv, Run, Sent, Action, now, draw, send, commit, execute_node, idempotency_key,
  request_of,
}
use mcp_ai.Workflow.Engine.Node.{
  failure_response, answered, bound, attempted, wait_for_approval, succeed, fail, retry_later,
  compensation_form, compensation_result, compensate_node, or_compensate, recover, lost_form,
  conclude, running_form, execute_node_with_recovery,
}
use mcp_ai.Workflow.Engine.Steps.{
  execute_then, Extends-snoc, Sound, Keeps, Yields, then-Yields, any_value, IsSilent-Keeps,
  then-Keeps, seq-Keeps, commit-IsSilent, bound-IsSilent, answered-IsSilent,
  wait_for_approval-IsSilent, succeed-IsSilent, retry_later-IsSilent, compensation_result-IsSilent,
}

-- what a node keeps through an attempt
abbrev pub Face : Type 0
Face = String × String × Option String × Option Uuid × ℕ × Option String

abbrev pub face : WorkflowNode → Face
face n = (n.id, n.tool_name, n.workflow_id, n.approval_id, n.attempts, n.compensation_tool)

-- the node as the attempt counts it
abbrev pub counted : WorkflowNode → WorkflowNode
counted n = record n { attempts = n.attempts + 1 }

-- a request for the node, or for its compensation, under the key of the attempt
abbrev pub Serves : WorkflowNode → GatewayToolRequest → Type 0
Serves n q =
    ((q.tool_name ≡ n.tool_name) ⊎ (n.compensation_tool ≡ some q.tool_name))
    × (q.workflow_node_id ≡ some n.id)
    × (q.approval_id ≡ n.approval_id)
    × (q.idempotency_key ≡ idempotency_key n)

abbrev ServesFace : Face → GatewayToolRequest → Type 0
ServesFace (id, tool, workflow, approval, attempts, compensation) q =
    ((q.tool_name ≡ tool) ⊎ (compensation ≡ some q.tool_name))
    × (q.workflow_node_id ≡ some id)
    × (q.approval_id ≡ approval)
    × (q.idempotency_key
        ≡ concat (
            "workflow-"
            ∷ elim workflow [ none ↦ "None" | some s ↦ s ]
            ∷ "-"
            ∷ id
            ∷ "-attempt-"
            ∷ str_of_nat (max attempts 1)
            ∷ []))

pub Serves-face :
    (a b : WorkflowNode) (q : GatewayToolRequest) → face a ≡ face b → Serves a q → Serves b q
unfolding idempotency_key
Serves-face a b q e h = subst (λ f. ServesFace f q) e h

Serves-own :
    (n : WorkflowNode) (role : String) (token : Option String) (id : Uuid)
    → Serves n (request_of n role token id)
unfolding request_of
Serves-own n role token id = (inl refl, refl, refl, refl)

Serves-compensation :
    (n : WorkflowNode) (tool role : String) (token : Option String) (w id : Uuid)
    → n.compensation_tool ≡ some tool
    → Serves n (request_of (compensation_form n tool w) role token id)
unfolding request_of compensation_form idempotency_key
Serves-compensation n tool role token w id e = (inr e, refl, refl, refl)

-- the rest of the attempt, after each of its steps
module _ {G : Type 0} (env : EngineEnv G) where
  abbrev pub paired :
      WorkflowNode → GatewayToolResponse → Action G (WorkflowNode × GatewayToolResponse)
  paired ready response = pure (ready, response)

  abbrev pub replied :
      WorkflowNode
      → Result CallFailure GatewayToolResponse
      → Action G (WorkflowNode × GatewayToolResponse)
  replied ready outcome = answered env ready outcome >>= paired ready

  abbrev pub called :
      String → Option String → WorkflowNode → Action G (WorkflowNode × GatewayToolResponse)
  called role token ready = execute_node env ready role token >>= replied ready

  abbrev pub compensation_call :
      WorkflowNode → String → String → Option String → Uuid → Action G (Unit {0})
  compensation_call node tool role token w =
      execute_node env (compensation_form node tool w) role token
      >>= compensation_result env (record node { execution_status = compensating })

  abbrev pub concluded :
      String → Option String → WorkflowNode × GatewayToolResponse → Action G (Unit {0})
  concluded role token (ready, response) =
      conclude env response.decision response.ok ready role token response

  abbrev pub tried : WorkflowNode → String → Option String → Dict String Value → Action G (Unit {0})
  tried running role token outputs =
      attempted env (resolve_node_arguments running outputs) running role token
      >>= concluded role token

module _ {G : Type 0} (env : EngineEnv G) (P : Sent → Type 0) (before : List Sent)
    (c : List String) where
  -- what is known of a node whose requests are of the kind
  abbrev Fit : WorkflowNode → Type 0
  Fit n = (q : GatewayToolRequest) → Serves n q → P (record { request = q; completed = c })

  Fit-face : (a b : WorkflowNode) → face a ≡ face b → Fit b → Fit a
  Fit-face a b e fit q h = fit q (Serves-face a b q e h)

  Fit-own :
      (n : WorkflowNode) (role : String) (token : Option String)
      → Fit n
      → (id : Uuid) → P (record { request = request_of n role token id; completed = c })
  Fit-own n role token fit id = fit (request_of n role token id) (Serves-own n role token id)

  execute-Keeps :
      (node : WorkflowNode) (role : String) (token : Option String)
      → ((id : Uuid) → P (record { request = request_of node role token id; completed = c }))
      → Keeps (Sound P before c) (execute_node env node role token)
  unfolding send
  execute-Keeps node role token p r h =
      execute_then env (λ x. Sound P before c x.1) node role token r (h.0, h.1)
        (
          h.0,
          Extends-snoc P before r.engine.sent _ h.1 (
              subst
                (λ d. P (record {
                  request = request_of node role token (env.uuid4 r.engine.drawn);
                  completed = d;
                }))
                (sym h.0) (p (env.uuid4 r.engine.drawn))),
        )

  bound-face :
      (node resolved : WorkflowNode) (r : Run G)
      → face resolved ≡ face node
      → Yields (λ n. face n ≡ face node) (bound env node resolved r).0
  unfolding bound
  bound-face node resolved r e = ground (arith, e)

  attempted-Keeps :
      (x : Binding WorkflowNode) (node : WorkflowNode) (role : String) (token : Option String)
      → Yields (λ n. face n ≡ face node) x
      → Fit node
      → Keeps (Sound P before c) (attempted env x node role token)
  unfolding attempted failure_response draw
  attempted-Keeps (err message) node role token same fit = λ r h. h
  attempted-Keeps (ok n) node role token same fit =
      then-Keeps (Sound P before c) (λ ready. face ready ≡ face node) (bound env node n)
        (called env role token)
        (IsSilent-Keeps P before c (bound env node n) (bound-IsSilent env node n))
        (λ r. bound-face node n r same)
        λ ready e.
          seq-Keeps (Sound P before c) (execute_node env ready role token) (replied env ready)
            (execute-Keeps ready role token (Fit-own ready role token (Fit-face ready node e fit)))
            λ outcome.
              seq-Keeps (Sound P before c) (answered env ready outcome) (paired env ready)
                (IsSilent-Keeps P before c (answered env ready outcome)
                  (answered-IsSilent env ready outcome))
                λ response r h. h

  attempted-face :
      (x : Binding WorkflowNode) (node : WorkflowNode) (role : String) (token : Option String)
      → Yields (λ n. face n ≡ face node) x
      → (r : Run G) → Yields (λ p. face p.0 ≡ face node) (attempted env x node role token r).0
  unfolding attempted failure_response draw
  attempted-face (err message) node role token same r = refl
  attempted-face (ok n) node role token same r =
      then-Yields (λ ready. face ready ≡ face node) (λ p. face p.0 ≡ face node) (bound env node n)
        (called env role token) (λ s. bound-face node n s same)
        (λ ready e.
          then-Yields (λ outcome. Unit) (λ p. face p.0 ≡ face node)
            (execute_node env ready role token) (replied env ready)
            (λ s. any_value (execute_node env ready role token s).0)
            λ outcome t.
              then-Yields (λ response. Unit) (λ p. face p.0 ≡ face node)
                (answered env ready outcome) (paired env ready)
                (λ s. any_value (answered env ready outcome s).0) λ response u s. e)
        r

  compensation_call-Keeps :
      (node : WorkflowNode) (tool role : String) (token : Option String) (w : Uuid)
      → node.compensation_tool ≡ some tool
      → Fit node
      → Keeps (Sound P before c) (compensation_call env node tool role token w)
  compensation_call-Keeps node tool role token w e fit =
      seq-Keeps (Sound P before c) (execute_node env (compensation_form node tool w) role token)
        (compensation_result env (record node { execution_status = compensating }))
        (execute-Keeps (compensation_form node tool w) role token λ id.
          fit (request_of (compensation_form node tool w) role token id)
            (Serves-compensation node tool role token w id e))
        λ outcome.
          IsSilent-Keeps P before c
            (compensation_result env (record node { execution_status = compensating }) outcome)
            (compensation_result-IsSilent env (record node { execution_status = compensating })
              outcome)

  commit_then-Keeps :
      {B : Type 0} (event_type : String) (node : WorkflowNode) (m : Action G B)
      → Keeps (Sound P before c) m
      → Keeps (Sound P before c) (commit env event_type node >> m)
  commit_then-Keeps event_type node m keeps =
      seq-Keeps (Sound P before c) (commit env event_type node) (λ u. m)
        (IsSilent-Keeps P before c (commit env event_type node)
          (commit-IsSilent env event_type node))
        (λ u. keeps)

  compensate-Keeps :
      (node : WorkflowNode) (tool role : String) (token : Option String)
      → node.compensation_tool ≡ some tool
      → Fit node
      → Keeps (Sound P before c) (compensate_node env node tool role token)
  unfolding compensate_node
  compensate-Keeps node tool role token e fit =
      commit_then-Keeps "workflow.compensation.started"
        (record node { execution_status = compensating })
        (λ r. compensation_call env node tool role token r.updated.id r)
        (λ r h. compensation_call-Keeps node tool role token r.updated.id e fit r h)

  if-Keeps :
      (b : Bool) (m n : Action G (Unit {0}))
      → Keeps (Sound P before c) m
      → Keeps (Sound P before c) n
      → Keeps (Sound P before c) (if b then m else n)
  if-Keeps true m n h k = h
  if-Keeps false m n h k = k

  or_compensate-Keeps :
      (o : Option String) (node : WorkflowNode) (role : String) (token : Option String)
      → node.compensation_tool ≡ o
      → Fit node
      → Keeps (Sound P before c) (or_compensate env o node role token)
  unfolding or_compensate
  or_compensate-Keeps none node role token e fit = λ r h. h
  or_compensate-Keeps (some tool) node role token e fit =
      if-Keeps (is_empty tool) _ (compensate_node env node tool role token) (λ r h. h)
        (compensate-Keeps node tool role token e fit)

  recover-Keeps :
      (response : GatewayToolResponse) (lost : WorkflowNode) (role : String) (token : Option String)
      → Fit lost
      → Keeps (Sound P before c) (recover env response lost role token)
  unfolding recover
  recover-Keeps response lost role token fit =
      if-Keeps _ (retry_later env lost) (or_compensate env lost.compensation_tool lost role token)
        (IsSilent-Keeps P before c (retry_later env lost) (retry_later-IsSilent env lost))
        (or_compensate-Keeps lost.compensation_tool lost role token refl fit)

  fail-Keeps :
      (node : WorkflowNode) (role : String) (token : Option String) (response : GatewayToolResponse)
      → Fit node
      → Keeps (Sound P before c) (fail env node role token response)
  unfolding fail now lost_form
  fail-Keeps node role token response fit r h =
      commit_then-Keeps "workflow.node.failed" (lost_form node response (env.clock r.engine.ticks))
        (recover env response (lost_form node response (env.clock r.engine.ticks)) role token)
        (recover-Keeps response (lost_form node response (env.clock r.engine.ticks)) role token
          (Fit-face (lost_form node response (env.clock r.engine.ticks)) node refl fit))
        (record r { engine = record r.engine { ticks = r.engine.ticks + 1 } }) h

  conclude-Keeps :
      (d : GatewayDecision) (fine : Bool) (node : WorkflowNode) (role : String)
      (token : Option String) (response : GatewayToolResponse)
      → Fit node
      → Keeps (Sound P before c) (conclude env d fine node role token response)
  unfolding conclude
  conclude-Keeps pending_approval fine node role token response fit =
      IsSilent-Keeps P before c (wait_for_approval env node role response)
        (wait_for_approval-IsSilent env node role response)
  conclude-Keeps allowed true node role token response fit =
      IsSilent-Keeps P before c (succeed env node response) (succeed-IsSilent env node response)
  conclude-Keeps denied true node role token response fit =
      IsSilent-Keeps P before c (succeed env node response) (succeed-IsSilent env node response)
  conclude-Keeps allowed false node role token response fit =
      fail-Keeps node role token response fit
  conclude-Keeps denied false node role token response fit = fail-Keeps node role token response fit

  resolve-Yields :
      (node : WorkflowNode) (outputs : Dict String Value)
      → Yields (λ n. face n ≡ face node) (resolve_node_arguments node outputs)
  unfolding resolve_node_arguments
  resolve-Yields node outputs = ground arith

  tried-Keeps :
      (running : WorkflowNode) (role : String) (token : Option String) (outputs : Dict String Value)
      → Fit running
      → Keeps (Sound P before c) (tried env running role token outputs)
  tried-Keeps running role token outputs fit =
      then-Keeps (Sound P before c) (λ p. face p.0 ≡ face running)
        (attempted env (resolve_node_arguments running outputs) running role token)
        (concluded env role token)
        (attempted-Keeps (resolve_node_arguments running outputs) running role token
          (resolve-Yields running outputs) fit)
        (attempted-face (resolve_node_arguments running outputs) running role token
          (resolve-Yields running outputs))
        λ (ready, response) e.
          conclude-Keeps response.decision response.ok ready role token response
            (Fit-face ready running e fit)

  pub execute_node_with_recovery-Keeps :
      (node : WorkflowNode) (role : String) (token : Option String)
      → Fit (counted node)
      → Keeps (Sound P before c) (execute_node_with_recovery env node role token)
  unfolding execute_node_with_recovery now running_form
  execute_node_with_recovery-Keeps node role token fit r h =
      let running = running_form node (env.clock r.engine.ticks) in
      commit_then-Keeps "workflow.node.started" running
        (λ s. tried env running role token s.node_outputs s)
        (λ s.
          tried-Keeps running role token s.node_outputs (Fit-face running (counted node) refl fit)
            s)
        (record r { engine = record r.engine { ticks = r.engine.ticks + 1 } }) h
