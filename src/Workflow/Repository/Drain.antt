-- ===== src/Workflow/Repository/Drain.antt =====
-- What a drain of the outbox delivers, and what it leaves.
use mathlib.Core.List.{append_assoc, append-nil}
use mcp_ai.Prelude.{
  ℕ, zero, suc, ◌+◌, ◌≡◌, sym, subst, refl, ap, String, false, not, Option, none, some, inl, inr,
  List, [], ◌∷◌, ◌++◌, ◌==◌, take, elem, filterb, max, length, string_eq, eq_iff, arith,
  Option-cases, Bool-cases, ◌||◌, eq_refl,
}
use mcp_ai.Gateway.Models.{Uuid}
use mcp_ai.Workflow.Repository.{
  OutboxEvent, Repository, Drained, event_ids, enqueue, pending_workflow_events, offer_each, drain,
}

-- No two events of an outbox share an identifier.
abbrev pub HasDistinctIds : List OutboxEvent → Type 0
HasDistinctIds [] = Unit
HasDistinctIds (e ∷ es) = (elem e.event_id (event_ids es) ≡ false) × HasDistinctIds es

abbrev pub drop : ℕ → List OutboxEvent → List OutboxEvent
drop zero es = es
drop (suc n) [] = []
drop (suc n) (e ∷ es) = drop n es

take-append-drop : (n : ℕ) (es : List OutboxEvent) → take n es ++ drop n es ≡ es
take-append-drop zero es = refl
take-append-drop (suc n) [] = refl
take-append-drop (suc n) (e ∷ es) = ap (λ l. e ∷ l) (take-append-drop n es)

abbrev without : Uuid → List OutboxEvent → List OutboxEvent
without id = filterb (λ e. not (e.event_id == id))

without-absent :
    (id : Uuid) (es : List OutboxEvent) → elem id (event_ids es) ≡ false → without id es ≡ es
unfolding filterb elem
without-absent id [] h = refl
without-absent id (e ∷ es) h = ground (arith, without-absent id es)

without-append :
    (id : Uuid) (es fs : List OutboxEvent) → without id (es ++ fs) ≡ without id es ++ without id fs
unfolding filterb
without-append id [] fs = refl
without-append id (e ∷ es) fs = ground (arith, without-append id es fs)

elem-append :
    (id : Uuid) (es fs : List OutboxEvent)
    → elem id (event_ids (es ++ fs)) ≡ (elem id (event_ids es) || elem id (event_ids fs))
unfolding elem
elem-append id [] fs = refl
elem-append id (e ∷ es) fs = ground (arith, elem-append id es fs)

HasDistinctIds-middle :
    (kept : List OutboxEvent) (e : OutboxEvent) (rest : List OutboxEvent)
    → HasDistinctIds (kept ++ e ∷ rest)
    → (elem e.event_id (event_ids kept) ≡ false)
      × (elem e.event_id (event_ids rest) ≡ false)
      × HasDistinctIds (kept ++ rest)
unfolding elem
HasDistinctIds-middle [] e rest h = ground arith
HasDistinctIds-middle (k ∷ kept) e rest h = ground (
  arith,
  eq_iff k.event_id e.event_id,
  eq_iff e.event_id k.event_id,
  elem-append k.event_id kept (e ∷ rest),
  elem-append k.event_id kept rest,
  HasDistinctIds-middle kept e rest h.1,
)

-- the published event, and no other, leaves the outbox
without-middle :
    (kept : List OutboxEvent) (e : OutboxEvent) (rest : List OutboxEvent)
    → HasDistinctIds (kept ++ e ∷ rest)
    → without e.event_id (kept ++ e ∷ rest) ≡ kept ++ rest
unfolding filterb
without-middle kept e rest h =
    let (before, after, _) = HasDistinctIds-middle kept e rest h in
    ground (
      arith,
      without-append e.event_id kept (e ∷ rest),
      without-absent e.event_id kept before,
      without-absent e.event_id rest after,
      eq_refl e.event_id,
    )

snoc-HasDistinctIds :
    (es : List OutboxEvent) (event : OutboxEvent)
    → HasDistinctIds es
    → elem event.event_id (event_ids es) ≡ false
    → HasDistinctIds (es ++ event ∷ [])
unfolding elem
snoc-HasDistinctIds [] event h fresh = (refl, tt)
snoc-HasDistinctIds (e ∷ es) event h fresh = ground (
  arith,
  elem-append e.event_id es (event ∷ []),
  snoc-HasDistinctIds es event h.1,
  eq_iff e.event_id event.event_id,
  eq_iff event.event_id e.event_id,
)

-- Saving with an event keeps the identifiers apart, whatever the event's.
pub enqueue-HasDistinctIds :
    (event : OutboxEvent) (es : List OutboxEvent)
    → HasDistinctIds es
    → HasDistinctIds (enqueue event es)
unfolding enqueue
enqueue-HasDistinctIds event es h = elim (Bool-cases (elem event.event_id (event_ids es))) [
  | inl old ↦ rw old h
  | inr fresh ↦ rw fresh (snoc-HasDistinctIds es event h fresh)
]

module _ (publish : ℕ → OutboxEvent → Option String) where
  -- the events that the publisher takes and refuses, when it has been offered `n` before
  abbrev pub taken : ℕ → List OutboxEvent → List OutboxEvent
  taken n [] = []
  taken n (e ∷ es) = elim (publish n e) [
    | none ↦ e ∷ taken (n + 1) es
    | some error ↦ taken (n + 1) es
  ]

  abbrev pub refused : ℕ → List OutboxEvent → List OutboxEvent
  refused n [] = []
  refused n (e ∷ es) = elim (publish n e) [
    | none ↦ refused (n + 1) es
    | some error ↦ e ∷ refused (n + 1) es
  ]

  abbrev after : Repository → List OutboxEvent → List OutboxEvent → ℕ → Drained
  after r outbox delivered n = record {
    repository = record r { outbox_events = outbox };
    delivered = delivered;
    offered = n;
  }

  offer_each_lem :
      (r : Repository) (kept es post delivered : List OutboxEvent) (n : ℕ)
      → HasDistinctIds (kept ++ (es ++ post))
      → offer_each publish es (after r (kept ++ (es ++ post)) delivered n)
        ≡ after r (kept ++ (refused n es ++ post)) (delivered ++ taken n es) (n + length es)
  unfolding offer_each
  offer_each_lem r kept [] post delivered n h = ground (arith, append-nil delivered)
  offer_each_lem r kept (e ∷ es) post delivered n h = elim (Option-cases (publish n e)) [
    | inl p ↦ ground (
      arith,
      p,
      without-middle kept e (es ++ post) h,
      (HasDistinctIds-middle kept e (es ++ post) h).2,
      offer_each_lem r kept es post (delivered ++ e ∷ []) (n + 1),
      append_assoc delivered (e ∷ []) (taken (n + 1) es),
    )
    | inr (error, p) ↦ ground (
      arith,
      p,
      append_assoc kept (e ∷ []) (es ++ post),
      append_assoc kept (e ∷ []) (refused (n + 1) es ++ post),
      offer_each_lem r (kept ++ e ∷ []) es post delivered (n + 1),
    )
  ]

  -- Where no two events of the outbox share an identifier, a drain offers the oldest `limit` events
  -- (at least one) in order, delivers those that the publisher takes and keeps those that it refuses
  -- in front of the rest: no event is lost, delivered twice or reordered, and no workflow changes.
  pub drain_exactly :
      (limit : ℕ) (r : Repository)
      → HasDistinctIds r.outbox_events
      → drain publish limit r ≡ record {
        repository = record r {
          outbox_events =
              refused 0 (take (max 1 limit) r.outbox_events) ++ drop (max 1 limit) r.outbox_events;
        };
        delivered = taken 0 (take (max 1 limit) r.outbox_events);
        offered = length (take (max 1 limit) r.outbox_events);
      }
  unfolding drain pending_workflow_events
  drain_exactly limit r h =
      let n = max 1 limit in
      let whole = take-append-drop n r.outbox_events in
      let first : HasDistinctIds (take n r.outbox_events ++ drop n r.outbox_events) =
        subst HasDistinctIds (sym whole) h in
      ground (
        arith,
        whole,
        offer_each_lem r [] (take n r.outbox_events) (drop n r.outbox_events) [] 0 first,
      )
