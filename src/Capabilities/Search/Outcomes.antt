-- ===== src/Capabilities/Search/Outcomes.antt =====
-- The search finds a path exactly when there is one.
use mcp_ai.Prelude.{
  ℕ, zero, suc, ◌+◌, ◌≤◌, ◌≡◌, ◌⊎◌, inl, inr, refl, sym, subst, String, Bool, true, false, List, [],
  ◌∷◌, ◌++◌, ◌==◌, elem, map, length, string_eq, eq_iff, arith, All, All-append, Bool-cases,
}
use mcp_ai.Prelude.Dict.{beq_refl}
use mcp_ai.Capabilities.Search.{
  CapabilityEdge, Entry, Found, path, unreachable, exhausted, outgoing, expand, search, bfs,
}
use mcp_ai.Capabilities.Search.Paths.{
  Edge, Usable, Leads, Sound, Seen, outgoing-All, expand-All, currents, elem-left, elem-right,
  expand-covers, outgoing-Among, ahead, ahead-visit, length-expand-le,
}

module _ {Float : Type 0} (edges : List (CapabilityEdge Float))
    (edge_allowed : CapabilityEdge Float → Bool) (policy_filter : Bool) (goal_type : String) where
  -- what a usable edge leads to from a visited place is visited or waits in the queue
  abbrev Closed : List String → List (Entry Float) → Type 0
  Closed visited queue =
      (e : Edge edges edge_allowed policy_filter goal_type)
      → Usable edges edge_allowed policy_filter goal_type e
      → elem e.source_type visited ≡ true
      → (elem e.destination_type visited ≡ true)
        ⊎ (elem e.destination_type (currents edges edge_allowed policy_filter goal_type queue)
            ≡ true)

  stays :
      (s t : String) (es : List (Edge edges edge_allowed policy_filter goal_type))
      (visited : List String)
      → Closed visited []
      → elem s visited ≡ true
      → Leads edges edge_allowed policy_filter goal_type s es t
      → elem t visited ≡ true
  unfolding elem
  stays s t [] visited closed i same = subst (λ v. elem v visited ≡ true) same i
  stays s t (e ∷ es) visited closed i (usable, from, rest) =
      elim (closed e usable (subst (λ v. elem v visited ≡ true) (sym from) i)) [
        | inl there ↦ stays e.destination_type t es visited closed there rest
        | inr waits ↦ absurd (ground (arith, waits))
      ]

  skip-Closed :
      (x : Entry Float) (queue : List (Entry Float)) (visited : List String)
      → elem x.current visited ≡ true
      → Closed visited (x ∷ queue)
      → Closed visited queue
  unfolding elem
  skip-Closed x queue visited old closed e usable i = elim (closed e usable i) [
    | inl there ↦ inl there
    | inr waits ↦ elim (Bool-cases (x.current == e.destination_type)) [
      | inl same ↦
          inl
            (subst (λ v. elem v visited ≡ true) ((eq_iff x.current e.destination_type).0 same) old)
      | inr other ↦ inr (ground (arith, waits, other))
    ]
  ]

  abbrev spread : Entry Float → List (Entry Float)
  spread x =
      expand edges edge_allowed policy_filter goal_type x
        (outgoing edges edge_allowed policy_filter goal_type x.current)

  expand-Closed :
      (x : Entry Float) (queue : List (Entry Float)) (visited : List String)
      → Seen edges edge_allowed policy_filter goal_type visited x
      → Closed visited (x ∷ queue)
      → Closed (x.current ∷ visited) (queue ++ spread x)
  unfolding elem outgoing
  expand-Closed x queue visited seen closed e usable i =
      elim (Bool-cases (x.current == e.source_type)) [
        | inl here ↦
            elim (expand-covers edges edge_allowed policy_filter goal_type x
              (outgoing edges edge_allowed policy_filter goal_type x.current) e
              (outgoing-Among edges edge_allowed policy_filter goal_type x.current edges e usable.0
                usable.1
                (ground
                  (arith, here, eq_iff x.current e.source_type, eq_iff e.source_type x.current)))
              usable.2) [
                | inl known ↦ elim (seen e.destination_type known) [
                  | inl before ↦ inl (ground (arith, before))
                  | inr same ↦
                      inl (ground (arith, (eq_iff x.current e.destination_type).1 (sym same)))
                ]
                | inr there ↦ inr (
                    elem-right edges edge_allowed policy_filter goal_type e.destination_type queue
                      (spread x) there)
              ]
        | inr other ↦ elim (closed e usable (ground (arith, i, other))) [
          | inl there ↦ inl (ground (arith, there))
          | inr waits ↦ elim (Bool-cases (x.current == e.destination_type)) [
            | inl same ↦ inl (ground (arith, same))
            | inr differs ↦ inr (
                elem-left edges edge_allowed policy_filter goal_type e.destination_type queue
                  (spread x) (ground (arith, waits, differs)))
          ]
        ]
      ]

  -- what is found from a source: a path of usable edges, or that there is none
  abbrev pub Outcome : String → Found Float → Type 0
  Outcome source (path nodes es) =
      Leads edges edge_allowed policy_filter goal_type source es goal_type
      × (nodes ≡ source ∷ map (λ d. d.destination_type) es)
  Outcome source unreachable =
      (es : List (Edge edges edge_allowed policy_filter goal_type))
      → ¬ Leads edges edge_allowed policy_filter goal_type source es goal_type
  Outcome source exhausted = ⊥

  Searching : String → ℕ → List (Entry Float) → List String → Type 0
  Searching source fuel queue visited =
      (length queue + ahead edges edge_allowed policy_filter goal_type visited edges ≤ fuel)
      × All
          (λ y.
            Sound edges edge_allowed policy_filter goal_type source y
            × Seen edges edge_allowed policy_filter goal_type visited y)
          queue
      × Closed visited queue
      × (elem goal_type visited ≡ false)
      × ((elem source visited ≡ true)
          ⊎ (elem source (currents edges edge_allowed policy_filter goal_type queue) ≡ true))

  nothing :
      (source : String) (fuel : ℕ) (visited : List String)
      → Searching source fuel [] visited
      → (es : List (Edge edges edge_allowed policy_filter goal_type))
      → ¬ Leads edges edge_allowed policy_filter goal_type source es goal_type
  unfolding Searching elem
  nothing source fuel visited (few, all, closed, new, start) es leads = elim start [
    | inl there ↦ absurd (ground (arith, new, stays source goal_type es visited closed there leads))
    | inr waits ↦ absurd (ground (arith, waits))
  ]

  Seen-later :
      (v : String) (source : String) (visited : List String) (queue : List (Entry Float))
      → All
          (λ y.
            Sound edges edge_allowed policy_filter goal_type source y
            × Seen edges edge_allowed policy_filter goal_type visited y)
          queue
      → All
          (λ y.
            Sound edges edge_allowed policy_filter goal_type source y
            × Seen edges edge_allowed policy_filter goal_type (v ∷ visited) y)
          queue
  unfolding elem
  Seen-later v source visited [] h = tt
  Seen-later v source visited (x ∷ queue) h = (
    (
      h.0.0,
      λ n i. elim (h.0.1 n i) [ inl before ↦ inl (ground (arith, before)) | inr here ↦ inr here ],
    ),
    Seen-later v source visited queue h.1,
  )

  skip-start :
      (source : String) (x : Entry Float) (queue : List (Entry Float)) (visited : List String)
      → elem x.current visited ≡ true
      → (elem source visited ≡ true)
        ⊎ (elem source (currents edges edge_allowed policy_filter goal_type (x ∷ queue)) ≡ true)
      → (elem source visited ≡ true)
        ⊎ (elem source (currents edges edge_allowed policy_filter goal_type queue) ≡ true)
  unfolding elem
  skip-start source x queue visited old (inl there) = inl there
  skip-start source x queue visited old (inr waits) = elim (Bool-cases (x.current == source)) [
    | inl same ↦ inl (subst (λ v. elem v visited ≡ true) ((eq_iff x.current source).0 same) old)
    | inr other ↦ inr (ground (arith, waits, other))
  ]

  expand-start :
      (source : String) (x : Entry Float) (queue : List (Entry Float)) (visited : List String)
      → (elem source visited ≡ true)
        ⊎ (elem source (currents edges edge_allowed policy_filter goal_type (x ∷ queue)) ≡ true)
      → (elem source (x.current ∷ visited) ≡ true)
        ⊎ (elem source (currents edges edge_allowed policy_filter goal_type (queue ++ spread x))
            ≡ true)
  unfolding elem
  expand-start source x queue visited (inl there) = inl (ground (arith, there))
  expand-start source x queue visited (inr waits) = elim (Bool-cases (x.current == source)) [
    | inl same ↦ inl (ground (arith, same))
    | inr other ↦ inr (
        elem-left edges edge_allowed policy_filter goal_type source queue (spread x)
          (ground (arith, waits, other)))
  ]

  length-join : (xs ys : List (Entry Float)) → length (xs ++ ys) ≡ length xs + length ys
  length-join [] ys = omega arith
  length-join (x ∷ xs) ys = omega (arith, length-join xs ys)

  expand-few :
      (x : Entry Float) (queue : List (Entry Float)) (visited : List String) (fuel : ℕ)
      → elem x.current visited ≡ false
      → length (x ∷ queue) + ahead edges edge_allowed policy_filter goal_type visited edges
        ≤ suc fuel
      → length (queue ++ spread x)
          + ahead edges edge_allowed policy_filter goal_type (x.current ∷ visited) edges
        ≤ fuel
  unfolding outgoing
  expand-few x queue visited fuel fresh few = omega (
    arith,
    few,
    length-join queue (spread x),
    length-expand-le edges edge_allowed policy_filter goal_type x
        (outgoing edges edge_allowed policy_filter goal_type x.current),
    ahead-visit edges edge_allowed policy_filter goal_type x.current visited edges fresh,
  )

  spread-All :
      (source : String) (x : Entry Float) (visited : List String)
      → Sound edges edge_allowed policy_filter goal_type source x
      → Seen edges edge_allowed policy_filter goal_type visited x
      → All
          (λ y.
            Sound edges edge_allowed policy_filter goal_type source y
            × Seen edges edge_allowed policy_filter goal_type (x.current ∷ visited) y)
          (spread x)
  unfolding outgoing
  spread-All source x visited sound seen =
      expand-All edges edge_allowed policy_filter goal_type source x visited
        (outgoing edges edge_allowed policy_filter goal_type x.current) sound seen
        (outgoing-All edges edge_allowed policy_filter goal_type source x.current edges (λ e i. i))

  search-Outcome :
      (source : String) (fuel : ℕ) (queue : List (Entry Float)) (visited : List String)
      → Searching source fuel queue visited
      → Outcome source (search edges edge_allowed policy_filter goal_type fuel queue visited)
  unfolding search Searching elem
  search-Outcome source zero [] visited h = nothing source zero visited h
  search-Outcome source zero (x ∷ queue) visited h = absurd (ground (arith, h.0))
  search-Outcome source (suc fuel) [] visited h = nothing source (suc fuel) visited h
  search-Outcome source (suc fuel) (x ∷ queue) visited (few, all, closed, new, start) =
      elim (Bool-cases (x.current == goal_type)) [
        | inl goal ↦ rw goal (
          subst (Leads edges edge_allowed policy_filter goal_type source x.edges)
              ((eq_iff x.current goal_type).0 goal) all.0.0.0,
          all.0.0.1,
        )
        | inr other ↦ elim (Bool-cases (elem x.current visited)) [
          | inl old ↦
              rw (other, old)
                (search-Outcome source fuel queue visited (
                  omega (arith, few),
                  all.1,
                  skip-Closed x queue visited old closed,
                  new,
                  skip-start source x queue visited old start,
                ))
          | inr fresh ↦
              rw (other, fresh)
                (search-Outcome source fuel (queue ++ spread x) (x.current ∷ visited) (
                  expand-few x queue visited fuel fresh few,
                  All-append
                      (λ y.
                        Sound edges edge_allowed policy_filter goal_type source y
                        × Seen edges edge_allowed policy_filter goal_type (x.current ∷ visited) y)
                      queue (spread x) (Seen-later x.current source visited queue all.1)
                      (spread-All source x visited all.0.0 all.0.1),
                  expand-Closed x queue visited all.0.1 closed,
                  ground (arith, other, new),
                  expand-start source x queue visited start,
                ))
        ]
      ]

  ahead-nil :
      (es : List (Edge edges edge_allowed policy_filter goal_type))
      → ahead edges edge_allowed policy_filter goal_type [] es ≡ length es
  unfolding ahead elem
  ahead-nil [] = refl
  ahead-nil (e ∷ es) = omega (arith, ahead-nil es)

  -- The search finds a path exactly when there is one: what it returns leads from the source to the
  -- goal by edges of the graph that are enabled and, where the filter is on, allowed, with the places it
  -- passes; and it answers that the goal is unreachable only where no such edges lead there. It never runs
  -- out of fuel.
  pub bfs-Outcome :
      (source : String) → Outcome source (bfs edges edge_allowed policy_filter goal_type source)
  unfolding bfs Searching elem
  bfs-Outcome source =
      search-Outcome source (length edges + 1)
        (record { current = source; nodes = source ∷ []; edges = [] } ∷ []) []
        (
          omega (arith, ahead-nil edges),
          (((refl, refl), λ n i. inr (ground (arith, i, eq_iff source n))), tt),
          λ e u i. absurd (ground (arith, i)),
          refl,
          inr (ground (arith, beq_refl source)),
        )
