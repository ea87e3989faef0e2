-- ===== src/Gateway/Approvals/Lifecycle.antt =====
-- The life of one approval: the transitions of its status, and what never changes of it.
use mcp_ai.Prelude.{
  ℕ, zero, suc, ◌+◌, ◌≤◌, ◌≡◌, ◌∙◌, ap, refl, String, Bool, true, false, some, inl, inr, leb, ◌&&◌,
  ◌==◌, if◌then◌else◌, string_eq, Option-cases, Bool-cases, arith, eq_iff,
}
use mathlib.Core.Option
use mcp_ai.Value.{Value}
use mcp_ai.Prelude.Dict.{Dict, get as dict_get}
use mcp_ai.Gateway.Models.{
  Uuid, ApprovalStatus, pending, approved, rejected, expired, executed, failed, is_pending,
  is_approved, Principal, ApprovalRecord,
}
use mcp_ai.Gateway.Approvals.{ApprovalStore}
use mcp_ai.Gateway.Approvals.Effects.{
  create-get, expired_form, approved_form, rejected_form, executed_form, failed_form,
}
use mcp_ai.Gateway.Approvals.Trail.{events_of}
use mcp_ai.Gateway.Approvals.History.{
  Operation, create', detail', get', list_approvals', approve', reject', expire_pending',
  mark_executed', mark_failed', perform, effect, Reaches, here, call, empty_store,
}
use mcp_ai.Gateway.Approvals.Invariant.{Inv, perform-get}
use mcp_ai.Gateway.Approvals.Reached.{IsFresh, next-unused, Reaches-Inv, empty_store-Inv}

-- The transitions of docs/architecture/approval-workflow.md, and `fail_early`, by which
-- `mark_failed` takes a pending approval.
pub data Transition : ApprovalStatus → ApprovalStatus → Type 0 where
  grant : Transition pending approved
  refuse : Transition pending rejected
  lapse : Transition pending expired
  execute : Transition approved executed
  fail : Transition approved failed
  fail_early : Transition pending failed

-- that many transitions lead from one status to the other
pub data Chain (s : ApprovalStatus) : ApprovalStatus → ℕ → Type 0 where
  stop : Chain s s zero
  more : {t u : ApprovalStatus} {n : ℕ} → Chain s t n → Transition t u → Chain s u (suc n)

pub data Moves (a b : ApprovalRecord) : Type 0 where
  moves : (n : ℕ) → Chain a.status b.status n → b.version ≡ a.version + n → Moves a b

-- What binds an approval to its request stays as it was.
abbrev pub Fixed : ApprovalRecord → ApprovalRecord → Type 0
Fixed a b =
    (b.approval_id ≡ a.approval_id)
    × (b.requester_id ≡ a.requester_id)
    × (b.tool_name ≡ a.tool_name)
    × (b.arguments ≡ a.arguments)
    × (b.expires_at ≡ a.expires_at)
    × (b.workflow_id ≡ a.workflow_id)
    × (b.workflow_node_id ≡ a.workflow_node_id)
    × (b.arguments_hash ≡ a.arguments_hash)
    × (b.approval_binding_hash ≡ a.approval_binding_hash)

effect-Fixed : (o : Operation) (j : Uuid) (a : ApprovalRecord) → Fixed a (effect o j a)
effect-Fixed (create' _ _ _ _ _ _ _ _ _) j a = ground arith
effect-Fixed _ j a = ground arith

-- How one call changes a record, by its status and version before and after.
data Effect (s : ApprovalStatus) (v : ℕ) : ApprovalStatus → ℕ → Type 0 where
  idle : Effect s v s v
  moved : {t : ApprovalStatus} {w : ℕ} → Transition s t → w ≡ v + 1 → Effect s v t w

Change : ApprovalRecord → ApprovalRecord → Type 0
Change a b = Effect a.status a.version b.status b.version

-- `when test`: a record changes by the one transition that the test allows, or not at all
from_pending :
    (s : ApprovalStatus) (v : ℕ) (t : ApprovalStatus)
    → is_pending s ≡ true
    → Transition pending t
    → Effect s v t (v + 1)
from_pending pending v t h step = moved step refl
from_pending _ v t h step = cc

from_approved :
    (s : ApprovalStatus) (v : ℕ) (t : ApprovalStatus)
    → is_approved s ≡ true
    → Transition approved t
    → Effect s v t (v + 1)
from_approved approved v t h step = moved step refl
from_approved _ v t h step = cc

expired_form-Change : (now : ℕ) (a : ApprovalRecord) → Change a (expired_form now a)
unfolding Change
expired_form-Change now a = elim (Bool-cases (is_pending a.status && leb a.expires_at now)) [
  | inl e ↦ rw e (from_pending a.status a.version expired (ground arith) lapse)
  | inr e ↦ rw e idle
]

approved_form-Change :
    (by : Principal) (now : ℕ) (a : ApprovalRecord) → Change a (approved_form by now a)
unfolding Change
approved_form-Change by now a = elim (Bool-cases (is_pending a.status && leb a.expires_at now)) [
  | inl e ↦ rw e (from_pending a.status a.version expired (ground arith) lapse)
  | inr e ↦ rw e (elim (Bool-cases (is_pending a.status)) [
    | inl p ↦ rw p (from_pending a.status a.version approved p grant)
    | inr p ↦ rw p idle
  ])
]

rejected_form-Change :
    (by : Principal) (reason : String) (now : ℕ) (a : ApprovalRecord)
    → Change a (rejected_form by reason now a)
unfolding Change
rejected_form-Change by reason now a =
    elim (Bool-cases (is_pending a.status && leb a.expires_at now)) [
      | inl e ↦ rw e (from_pending a.status a.version expired (ground arith) lapse)
      | inr e ↦ rw e (elim (Bool-cases (is_pending a.status)) [
        | inl p ↦ rw p (from_pending a.status a.version rejected p refuse)
        | inr p ↦ rw p idle
      ])
    ]

executed_form-Change :
    (now : ℕ) (result : Dict String Value) (a : ApprovalRecord)
    → Change a (executed_form now result a)
unfolding Change
executed_form-Change now result a =
    elim (Bool-cases (is_pending a.status && leb a.expires_at now)) [
      | inl e ↦ rw e (from_pending a.status a.version expired (ground arith) lapse)
      | inr e ↦ rw e (elim (Bool-cases (is_approved a.status)) [
        | inl p ↦ rw p (from_approved a.status a.version executed p execute)
        | inr p ↦ rw p idle
      ])
    ]

failed_form-Change : (reason : String) (a : ApprovalRecord) → Change a (failed_form reason a)
unfolding Change
failed_form-Change reason a = elim (Bool-cases (is_approved a.status)) [
  | inl p ↦ rw p (from_approved a.status a.version failed p fail)
  | inr p ↦ rw p (elim (Bool-cases (is_pending a.status)) [
    | inl q ↦ rw q (from_pending a.status a.version failed q fail_early)
    | inr q ↦ rw q idle
  ])
]

when-Change :
    (b : Bool) (f : ApprovalRecord → ApprovalRecord) (a : ApprovalRecord)
    → Change a (f a)
    → Change a (if b then f a else a)
unfolding Change
when-Change true f a h = h
when-Change false f a h = idle

effect-Change : (o : Operation) (j : Uuid) (a : ApprovalRecord) → Change a (effect o j a)
effect-Change (create' _ _ _ _ _ _ _ _ _) j a = unfold Change in idle
effect-Change (list_approvals' now _) j a = expired_form-Change now a
effect-Change (detail' k now) j a =
    when-Change (k == j) (expired_form now) a (expired_form-Change now a)
effect-Change (get' k now) j a =
    when-Change (k == j) (expired_form now) a (expired_form-Change now a)
effect-Change (approve' k by now) j a =
    when-Change (k == j) (approved_form by now) a (approved_form-Change by now a)
effect-Change (reject' k by reason now) j a =
    when-Change (k == j) (rejected_form by reason now) a (rejected_form-Change by reason now a)
effect-Change (expire_pending' now) j a = expired_form-Change now a
effect-Change (mark_executed' c by now result) j a =
    when-Change (c.approval_id == j) (executed_form now result) a
      (executed_form-Change now result a)
effect-Change (mark_failed' c by now reason) j a =
    when-Change (c.approval_id == j) (failed_form reason) a (failed_form-Change reason a)

-- A change after some transitions is at most one transition more.
extend :
    {r t u : ApprovalStatus} (v : ℕ) {n w x : ℕ}
    → Chain r t n
    → w ≡ v + n
    → Effect t w u x
    → (m : ℕ) × Chain r u m × (x ≡ v + m)
extend v {n} c e idle = (n, c, e)
extend v {n} c e (moved step up) = (suc n, more c step, omega arith)

Moves-Change : (a b c : ApprovalRecord) → Moves a b → Change b c → Moves a c
unfolding Change
Moves-Change a b c (moves n chain up) h =
    let (m, chain', up') = extend a.version chain up h in moves m chain' up'

Fixed-trans : (a b c : ApprovalRecord) → Fixed a b → Fixed b c → Fixed a c
Fixed-trans a b c h k = (
  k.0 ∙ h.0,
  k.1 ∙ h.1,
  k.2 ∙ h.2,
  k.3 ∙ h.3,
  k.4 ∙ h.4,
  k.5 ∙ h.5,
  k.6 ∙ h.6,
  k.7 ∙ h.7,
  k.8 ∙ h.8,
)

abbrev pub Lives : Uuid → ApprovalRecord → ApprovalStore → Type 0
Lives k a t = (b : ApprovalRecord) × (dict_get k t.approvals ≡ some b) × Fixed a b × Moves a b

module _ (uuid4 : ℕ → Uuid) (fresh : IsFresh uuid4) where
  perform-Lives :
      (o : Operation) (t : ApprovalStore) (k : Uuid) (a : ApprovalRecord)
      → Inv uuid4 t
      → Lives k a t
      → Lives k a (perform uuid4 o t)
  perform-Lives (create' p tool args risk now w n x y) t k a v (b, old, fixed, path) =
      let (c, id, status, by, added, up) = create-get uuid4 t p tool args risk now w n x y in
      (
        b,
        ground (arith, eq_iff (uuid4 t.drawn) k, next-unused uuid4 fresh t v, added k, old),
        fixed,
        path,
      )
  perform-Lives o t k a v (b, old, fixed, path) = (
    effect o k b,
    perform-get uuid4 o t k v (λ h. h) ∙ ap (Option.map (effect o k)) old,
    Fixed-trans a b (effect o k b) fixed (effect-Fixed o k b),
    Moves-Change a b (effect o k b) path (effect-Change o k b),
  )

  Reaches-Lives :
      {s t : ApprovalStore} (k : Uuid) (a : ApprovalRecord)
      → Inv uuid4 s
      → Reaches uuid4 s t
      → dict_get k s.approvals ≡ some a
      → Lives k a t
  Reaches-Lives k a v here e =
      (a, e, (refl, refl, refl, refl, refl, refl, refl, refl, refl), moves zero stop (omega arith))
  Reaches-Lives k a v (call {t} r o) e =
      perform-Lives o t k a (Reaches-Inv uuid4 fresh v r) (Reaches-Lives k a v r e)

-- Take any history of an approval store from empty, with identifiers that never repeat, and any
-- record that the store then holds. However the history goes on, the store still holds a record
-- under that identifier: its requester, tool, arguments, expiry, workflow binding and hashes are
-- unchanged, its status has moved along the listed transitions, and its version has grown by
-- exactly the number of transitions taken.
pub approval_lifecycle :
    (uuid4 : ℕ → Uuid)
    → IsFresh uuid4
    → (ttl : ℕ) (s t : ApprovalStore) → Reaches uuid4 (empty_store ttl) s
    → Reaches uuid4 s t
    → (k : Uuid) (a : ApprovalRecord) → dict_get k s.approvals ≡ some a
    → (b : ApprovalRecord) × (dict_get k t.approvals ≡ some b) × Fixed a b × Moves a b
approval_lifecycle uuid4 fresh ttl s t r q k a e =
    Reaches-Lives uuid4 fresh k a (Reaches-Inv uuid4 fresh (empty_store-Inv uuid4 ttl) r) q e

-- After any history of an approval store from empty, with identifiers that never repeat, the
-- transition events show for each identifier at most one grant, and no more executions than
-- grants: an approval is executed at most once, and only if it was granted.
pub executed_once :
    (uuid4 : ℕ → Uuid)
    → IsFresh uuid4
    → (ttl : ℕ) (t : ApprovalStore) → Reaches uuid4 (empty_store ttl) t
    → (k : Uuid)
    → (events_of "approval.executed" k t.events ≤ events_of "approval.approved" k t.events)
      × (events_of "approval.approved" k t.events ≤ 1)
executed_once uuid4 fresh ttl t r k =
    let v = Reaches-Inv uuid4 fresh (empty_store-Inv uuid4 ttl) r in
    let c = v.counted k in
    elim (Option-cases (dict_get k t.approvals)) [
      | inl e ↦ ground (arith, e, c.executed_events, c.granted_events)
      | inr (a, e) ↦ ground (arith, e, c.executed_events, c.granted_events, v.standing k a e)
    ]
