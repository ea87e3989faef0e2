-- ===== src/Gateway/Approvals/Sweep.antt =====
-- `expire_pending`: the loop over all records expires each that is due, and no other.
use mcp_ai.Prelude.{
  ℕ, ◌≤◌, ◌≡◌, refl, false, Option, none, some, [], ◌∷◌, ◌∙◌, eq_refl, List, ◌==◌, if◌then◌else◌,
  string_eq, String, arith, eq_iff,
}
use mathlib.Core.Option
use mcp_ai.Prelude.Exec.{ok}
use mcp_ai.Prelude.Dict.{Dict, values, get-put, get as dict_get, IsDistinct, put-IsDistinct}
use mcp_ai.Gateway.Models.{Uuid, ApprovalStatus, ApprovalRecord}
use mcp_ai.Gateway.Approvals.{
  ApprovalStore, expire_if_needed, expire_each, expire_pending, list_approvals,
}
use mcp_ai.Gateway.Approvals.Effects.{IsKeyed, expired_form}
use mcp_ai.Gateway.Approvals.Trail.{events_of, events_of-snoc}

-- the records of `m` are those that the store holds under the same keys
record IsPart (m : Dict Uuid ApprovalRecord) (s : ApprovalStore) : Type 0 where
  held : (k : Uuid) (a : ApprovalRecord) → dict_get k m ≡ some a → dict_get k s.approvals ≡ some a
  keyed : (k : Uuid) (a : ApprovalRecord) → dict_get k m ≡ some a → a.approval_id ≡ k

abbrev swept : ℕ → Option ApprovalRecord → Option ApprovalRecord → Option ApprovalRecord
swept now none old = old
swept now (some a) old = some (expired_form now a)

module _ (uuid4 : ℕ → Uuid) (now : ℕ) where
  one-get :
      (a : ApprovalRecord) (s : ApprovalStore) (j : Uuid)
      → dict_get a.approval_id s.approvals ≡ some a
      → dict_get j (expire_if_needed uuid4 a now s).1.approvals
        ≡ (if a.approval_id == j then some (expired_form now a) else dict_get j s.approvals)
  unfolding expire_if_needed
  one-get a s j e =
      ground
        (arith, eq_iff a.approval_id j, e, get-put a.approval_id j (expired_form now a) s.approvals)

  one-events :
      (a : ApprovalRecord) (s : ApprovalStore) (kind : String) (j : Uuid)
      → ("approval.expired" == kind) ≡ false
      → events_of kind j (expire_if_needed uuid4 a now s).1.events ≡ events_of kind j s.events
  unfolding expire_if_needed
  one-events a s kind j h = grind (arith, events_of-snoc)

  one-kept :
      (a : ApprovalRecord) (s : ApprovalStore)
      → IsDistinct s.approvals
      → IsDistinct (expire_if_needed uuid4 a now s).1.approvals
        × (s.drawn ≤ (expire_if_needed uuid4 a now s).1.drawn)
  unfolding expire_if_needed
  one-kept a s d = ground (arith, put-IsDistinct a.approval_id (expired_form now a) s.approvals)

  one-ok :
      (a : ApprovalRecord) (s : ApprovalStore)
      → (expire_if_needed uuid4 a now s).0 ≡ ok (expired_form now a)
  unfolding expire_if_needed
  one-ok a s = ground arith

  each-cons :
      (a : ApprovalRecord) (rest : List ApprovalRecord) (s : ApprovalStore)
      → expire_each uuid4 (a ∷ rest) now s
        ≡ expire_each uuid4 rest now (expire_if_needed uuid4 a now s).1
  unfolding expire_each
  each-cons a rest s = ground (arith, one-ok a s)

  -- the rest of the records is untouched when the first is expired
  rest-IsPart :
      (k : Uuid) (a : ApprovalRecord) (m : Dict Uuid ApprovalRecord) (s : ApprovalStore)
      → IsDistinct ((k, a) ∷ m)
      → IsPart ((k, a) ∷ m) s
      → IsPart m (expire_if_needed uuid4 a now s).1
  unfolding dict_get
  rest-IsPart k a m s d p = record {
    held = λ j b e.
        ground
          (arith, eq_iff k j, d.0, p.keyed k a, p.held k a, p.held j b, eq_refl k, one-get a s j);
    keyed = λ j b e. ground (arith, eq_iff k j, d.0, p.keyed j b);
  }

  each-get :
      (m : Dict Uuid ApprovalRecord) (s : ApprovalStore) (j : Uuid)
      → IsDistinct m
      → IsPart m s
      → dict_get j (expire_each uuid4 (values m) now s).1.approvals
        ≡ swept now (dict_get j m) (dict_get j s.approvals)
  unfolding dict_get expire_each
  each-get [] s j d p = refl
  each-get ((k, a) ∷ m) s j d p = rw (each-cons a (values m) s) (
      ground (
        arith,
        eq_iff k j,
        eq_refl k,
        d.0,
        p.keyed k a,
        p.held k a,
        one-get a s j,
        each-get m (expire_if_needed uuid4 a now s).1 j d.1 (rest-IsPart k a m s d p),
      ))

  each-events :
      (rest : List ApprovalRecord) (s : ApprovalStore) (kind : String) (j : Uuid)
      → ("approval.expired" == kind) ≡ false
      → events_of kind j (expire_each uuid4 rest now s).1.events ≡ events_of kind j s.events
  unfolding expire_each
  each-events [] s kind j h = refl
  each-events (a ∷ rest) s kind j h =
      rw (each-cons a rest s)
        (each-events rest (expire_if_needed uuid4 a now s).1 kind j h ∙ one-events a s kind j h)

  each-kept :
      (rest : List ApprovalRecord) (s : ApprovalStore)
      → IsDistinct s.approvals
      → IsDistinct (expire_each uuid4 rest now s).1.approvals
        × (s.drawn ≤ (expire_each uuid4 rest now s).1.drawn)
  unfolding expire_each
  each-kept [] s d = (d, omega arith)
  each-kept (a ∷ rest) s d = rw (each-cons a rest s) (
      let (d', le) = one-kept a s d in
      let (d'', le') = each-kept rest (expire_if_needed uuid4 a now s).1 d' in (d'', omega arith))

  module _ (s : ApprovalStore) where
    pub expire_pending-kept :
        IsDistinct s.approvals
        → IsDistinct (expire_pending uuid4 now s).1.approvals
          × (s.drawn ≤ (expire_pending uuid4 now s).1.drawn)
    unfolding expire_pending
    expire_pending-kept d = each-kept (values s.approvals) s d

    -- Every record that is due is expired, and every other stays as it was.
    pub expire_pending-get :
        (j : Uuid)
        → IsDistinct s.approvals
        → IsKeyed s
        → dict_get j (expire_pending uuid4 now s).1.approvals
          ≡ Option.map (expired_form now) (dict_get j s.approvals)
    unfolding expire_pending
    expire_pending-get j d keyed =
        each-get s.approvals s j d (record { held = λ k a e. e; keyed = keyed }) ∙ ground arith

    pub expire_pending-events :
        (kind : String) (j : Uuid)
        → ("approval.expired" == kind) ≡ false
        → events_of kind j (expire_pending uuid4 now s).1.events ≡ events_of kind j s.events
    unfolding expire_pending
    expire_pending-events kind j h = each-events (values s.approvals) s kind j h

  pub list_approvals-store :
      (status : Option ApprovalStatus) (s : ApprovalStore)
      → (list_approvals uuid4 now status s).1 ≡ (expire_pending uuid4 now s).1
  unfolding list_approvals
  list_approvals-store status s = ground arith
