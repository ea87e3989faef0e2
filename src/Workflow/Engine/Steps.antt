-- ===== src/Workflow/Engine/Steps.antt =====
-- services/ai-agent/src/mcp_ops_ai_agent/workflows/service.py: the steps that send nothing.
use mathlib.Core.List.{append_assoc, append-nil}
use mcp_ai.Prelude.{
  Bool, true, false, ◌+◌, String, Option, List, [], ◌∷◌, ◌≡◌, refl, sym, ap, ◌∙◌, ◌++◌, subst, All,
  All-append, arith,
}
use mcp_ai.Prelude.Exec.{guard, Result, ok, err, and_then, ◌>>=◌}
use mcp_ai.Gateway.Models.{GatewayToolResponse}
use mcp_ai.Workflow.Models.{WorkflowNode}
use mcp_ai.Workflow.Engine.{
  CallFailure, EngineEnv, EngineError, validation_error, Run, Sent, Action, now, draw, save_with,
  send, checkpoint, commit, audit, replace_nodes, event_of, is_valid_event, is_valid_request,
  request_of, execute_node,
}
use mcp_ai.Workflow.Engine.Node.{
  failure_response, answered, bound, wait_for_approval, succeed, retry_later, compensation_result,
}

-- the completed nodes and the requests sent
abbrev pub view : {G : Type 0} → Run G → List String × List Sent
view r = (r.completed, r.engine.sent)

abbrev pub IsSilent : {G A : Type 0} → Action G A → Type 0
IsSilent {G} m = (r : Run G) → view (m r).1 ≡ view r

-- a check, and what follows it
module _ {G B : Type 0} (P : Result EngineError B × Run G → Type 0) where
  check_then :
      (b : Bool) (e : EngineError) (m : Action G B) (r : Run G)
      → P (err e, r)
      → P (m r)
      → P ((guard b e >>= λ u. m) r)
  check_then true e m r h h' = h'
  check_then false e m r h h' = h

module _ {G A B : Type 0} (P : Result EngineError B × Run G → Type 0) where
  guard_then :
      (b : Bool) (e : EngineError) (m : Action G A) (k : A → Action G B) (r : Run G)
      → P (err e, r)
      → P ((m >>= k) r)
      → P (((guard b e >>= λ u. m) >>= k) r)
  guard_then true e m k r h h' = h'
  guard_then false e m k r h h' = h

module _ {G : Type 0} (env : EngineEnv G) where
  -- the run at the next reading of the clock
  abbrev pub ticked : Run G → Run G
  ticked r = record r { engine = record r.engine { ticks = r.engine.ticks + 1 } }

  -- and after an audit event
  abbrev pub audited : String → String → String → Option String → Run G → Run G
  audited event_type role message id r = record (ticked r) {
    updated = record r.updated {
      audit_events =
          r.updated.audit_events
          ++ event_of r.updated event_type role message id (env.clock r.engine.ticks) ∷ [];
    };
  }

  -- an audit event is written, or is out of its bounds
  pub audit_then :
      {B : Type 0} (P : Result EngineError B × Run G → Type 0) (event_type role message : String)
      (id : Option String) (k : Unit {0} → Action G B) (r : Run G)
      → P (err validation_error, ticked r)
      → P (k tt (audited event_type role message id r))
      → P ((audit env event_type role message id >>= k) r)
  unfolding audit now
  audit_then P event_type role message id k r h h' =
      guard_then P
        (is_valid_event (event_of r.updated event_type role message id (env.clock r.engine.ticks)))
        validation_error
        (λ s. (
          ok tt,
          record s {
            updated = record s.updated {
              audit_events =
                  s.updated.audit_events
                  ++ event_of r.updated event_type role message id (env.clock r.engine.ticks) ∷ [];
            };
          },
        ))
        k (ticked r) h h'

  -- a call is sent, or its request is out of its bounds
  pub execute_then :
      (P : Result EngineError (Result CallFailure GatewayToolResponse) × Run G → Type 0)
      (node : WorkflowNode) (role : String) (token : Option String) (r : Run G)
      → let drawn = record r { engine = record r.engine { drawn = r.engine.drawn + 1 } } in
        P (err validation_error, drawn)
        → P (send env (request_of node role token (env.uuid4 r.engine.drawn)) drawn)
        → P (execute_node env node role token r)
  unfolding execute_node draw
  execute_then P node role token r h h' =
      check_then P (is_valid_request (request_of node role token (env.uuid4 r.engine.drawn)))
        validation_error (send env (request_of node role token (env.uuid4 r.engine.drawn))) _ h h'

  pub checkpoint-IsSilent :
      (event_type : String) (id : Option String) → IsSilent (checkpoint env event_type id)
  unfolding checkpoint draw now save_with
  checkpoint-IsSilent event_type id r = refl

  pub replace_nodes-IsSilent : IsSilent (replace_nodes env)
  unfolding replace_nodes
  replace_nodes-IsSilent r = ground arith

  pub audit-IsSilent :
      (event_type role message : String) (id : Option String)
      → IsSilent (audit env event_type role message id)
  unfolding audit now
  audit-IsSilent event_type role message id r = ground arith

  pub commit-IsSilent :
      (event_type : String) (node : WorkflowNode) → IsSilent (commit env event_type node)
  unfolding commit checkpoint draw now save_with replace_nodes
  commit-IsSilent event_type node r = ground arith

  pub bound-IsSilent : (node resolved : WorkflowNode) → IsSilent (bound env node resolved)
  unfolding bound
  bound-IsSilent node resolved r = grind (arith, commit-IsSilent)

  pub answered-IsSilent :
      (node : WorkflowNode) (outcome : Result CallFailure GatewayToolResponse)
      → IsSilent (answered env node outcome)
  unfolding answered failure_response draw
  answered-IsSilent node outcome r = ground arith

  pub wait_for_approval-IsSilent :
      (node : WorkflowNode) (role : String) (response : GatewayToolResponse)
      → IsSilent (wait_for_approval env node role response)
  unfolding wait_for_approval audit now draw checkpoint replace_nodes save_with
  wait_for_approval-IsSilent node role response r = ground arith

  pub succeed-IsSilent :
      (node : WorkflowNode) (response : GatewayToolResponse) → IsSilent (succeed env node response)
  unfolding succeed now
  succeed-IsSilent node response r = grind (arith, commit-IsSilent)

  pub retry_later-IsSilent : (node : WorkflowNode) → IsSilent (retry_later env node)
  unfolding retry_later now
  retry_later-IsSilent node r = grind (arith, commit-IsSilent)

  pub compensation_result-IsSilent :
      (node : WorkflowNode) (outcome : Result CallFailure GatewayToolResponse)
      → IsSilent (compensation_result env node outcome)
  unfolding compensation_result now
  compensation_result-IsSilent node outcome r = grind (arith, commit-IsSilent)

-- one list of requests goes on from another, with requests of a kind
abbrev pub Extends : (Sent → Type 0) → List Sent → List Sent → Type 0
Extends P before after = (new : List Sent) × (after ≡ before ++ new) × All P new

pub Extends-refl : (P : Sent → Type 0) (l : List Sent) → Extends P l l
Extends-refl P l = ([], sym (append-nil l), tt)

pub Extends-snoc :
    (P : Sent → Type 0) (before after : List Sent) (x : Sent)
    → Extends P before after
    → P x
    → Extends P before (after ++ x ∷ [])
Extends-snoc P before after x (new, e, h) p = (
  new ++ x ∷ [],
  ap (λ l. l ++ x ∷ []) e ∙ append_assoc before new (x ∷ []),
  All-append P new (x ∷ []) h (p, tt),
)

-- the nodes that are complete, and the kind of the requests sent since
abbrev pub Sound : {G : Type 0} → (Sent → Type 0) → List Sent → List String → Run G → Type 0
Sound P before c r = (r.completed ≡ c) × Extends P before r.engine.sent

abbrev pub Keeps : {G A : Type 0} → (Run G → Type 0) → Action G A → Type 0
Keeps {G} I m = (r : Run G) → I r → I (m r).1

-- what holds of the value, where there is one
abbrev pub Yields : {A E : Type 0} → (A → Type 0) → Result E A → Type 0
Yields J (ok a) = J a
Yields J (err e) = Unit

module _ {G A : Type 0} (P : Sent → Type 0) (before : List Sent) (c : List String)
    (m : Action G A) where
  pub IsSilent-Keeps : IsSilent m → Keeps (Sound P before c) m
  IsSilent-Keeps silent r h = subst (λ v. (v.0 ≡ c) × Extends P before v.1) (sym (silent r)) h

pub any_value : {A E : Type 0} (x : Result E A) → Yields (λ a. Unit {0}) x
any_value (ok a) = tt
any_value (err e) = tt

module _ {G : Type 0} (I : Run G → Type 0) {A B : Type 0} where
  and_then-Keeps :
      (J : A → Type 0) (x : Result EngineError A) (k : A → Action G B) (r : Run G)
      → I r
      → Yields J x
      → ((a : A) → J a → Keeps I (k a))
      → I (and_then x k r).1
  and_then-Keeps J (ok a) k r h j each = each a j r h
  and_then-Keeps J (err e) k r h j each = h

  -- one action after another, with what is known of the value between them
  pub then-Keeps :
      (J : A → Type 0) (m : Action G A) (k : A → Action G B)
      → Keeps I m
      → ((r : Run G) → Yields J (m r).0)
      → ((a : A) → J a → Keeps I (k a))
      → Keeps I (m >>= k)
  then-Keeps J m k first known each r h =
      and_then-Keeps J (m r).0 k (m r).1 (first r h) (known r) each

  pub seq-Keeps :
      (m : Action G A) (k : A → Action G B)
      → Keeps I m
      → ((a : A) → Keeps I (k a))
      → Keeps I (m >>= k)
  seq-Keeps m k first each =
      then-Keeps (λ a. Unit) m k first (λ r. any_value (m r).0) (λ a t. each a)

module _ {G A B : Type 0} (J : A → Type 0) (K : B → Type 0) where
  and_then-Yields :
      (x : Result EngineError A) (k : A → Action G B) (r : Run G)
      → Yields J x
      → ((a : A) → J a → (r : Run G) → Yields K (k a r).0)
      → Yields K (and_then x k r).0
  and_then-Yields (ok a) k r j each = each a j r
  and_then-Yields (err e) k r j each = tt

  pub then-Yields :
      (m : Action G A) (k : A → Action G B)
      → ((r : Run G) → Yields J (m r).0)
      → ((a : A) → J a → (r : Run G) → Yields K (k a r).0)
      → (r : Run G) → Yields K ((m >>= k) r).0
  then-Yields m k known each r = and_then-Yields (m r).0 k (m r).1 (known r) each

-- from one kind of state to a weaker one
module _ {G A B : Type 0} (I J : Run G → Type 0) (weaken : (r : Run G) → I r → J r) where
  and_then-Leads :
      (x : Result EngineError A) (k : A → Action G B) (r : Run G)
      → I r
      → ((a : A) (r : Run G) → I r → J (k a r).1)
      → J (and_then x k r).1
  and_then-Leads (ok a) k r h each = each a r h
  and_then-Leads (err e) k r h each = weaken r h

  pub then-Leads :
      (m : Action G A) (k : A → Action G B)
      → Keeps I m
      → ((a : A) (r : Run G) → I r → J (k a r).1)
      → (r : Run G) → I r
      → J ((m >>= k) r).1
  then-Leads m k first each r h = and_then-Leads (m r).0 k (m r).1 (first r h) each
