-- ===== src/Capabilities/Search/Paths.antt =====
-- What the search finds, and when it finds nothing.
use mcp_ai.Prelude.{
  ℕ, ◌+◌, ◌≤◌, ◌≡◌, ◌∙◌, ◌⊎◌, inl, inr, refl, sym, ap, subst, String, Bool, true, false, not, ◌&&◌,
  List, [], ◌∷◌, ◌++◌, ◌==◌, elem, filterb, map, length, string_eq, eq_iff, if◌then◌else◌, arith,
  All, Bool-cases,
}
use mcp_ai.Prelude.Dict.{beq_refl}
use mcp_ai.Capabilities.Search.{CapabilityEdge, Entry, passes, expand}

module _ {Float : Type 0} (edges : List (CapabilityEdge Float))
    (edge_allowed : CapabilityEdge Float → Bool) (policy_filter : Bool) (goal_type : String) where
  abbrev pub Edge : Type 0
  Edge = CapabilityEdge Float

  abbrev pub Among : Edge → List Edge → Type 0
  Among e [] = ⊥
  Among e (x ∷ xs) = (e ≡ x) ⊎ Among e xs

  -- an edge of the graph that is enabled, and allowed where the filter is on
  abbrev pub Usable : Edge → Type 0
  Usable e =
      Among e edges
      × (e.enabled ≡ true)
      × (passes edges edge_allowed policy_filter goal_type e ≡ true)

  -- usable edges, each from where the one before it ends
  abbrev pub Leads : String → List Edge → String → Type 0
  Leads s [] t = s ≡ t
  Leads s (e ∷ es) t = Usable e × (e.source_type ≡ s) × Leads e.destination_type es t

  Leads-push :
      (s t : String) (es : List Edge) (e : Edge)
      → Leads s es t
      → Usable e
      → e.source_type ≡ t
      → Leads s (es ++ e ∷ []) e.destination_type
  Leads-push s t [] e h u i = (u, i ∙ sym h, refl)
  Leads-push s t (d ∷ es) e h u i = (h.0, h.1, Leads-push d.destination_type t es e h.2 u i)

  map-push :
      (es : List Edge) (e : Edge)
      → map (λ d. d.destination_type) (es ++ e ∷ [])
        ≡ map (λ d. d.destination_type) es ++ e.destination_type ∷ []
  map-push [] e = refl
  map-push (d ∷ es) e = ap (λ l. d.destination_type ∷ l) (map-push es e)

  elem-push :
      (n d : String) (ns : List String)
      → elem n (ns ++ d ∷ []) ≡ true
      → (elem n ns ≡ true) ⊎ (n ≡ d)
  unfolding elem
  elem-push n d [] i = inr (ground (arith, i, eq_iff d n))
  elem-push n d (m ∷ ns) i = ground (arith, i, elem-push n d ns)

  -- its nodes have been visited, but for the last one
  abbrev pub Seen : List String → Entry Float → Type 0
  Seen visited x = (n : String) → elem n x.nodes ≡ true → (elem n visited ≡ true) ⊎ (n ≡ x.current)

  module _ (source : String) where
    -- the entry ends a path from the source, through its nodes
    abbrev pub Sound : Entry Float → Type 0
    Sound x =
        Leads source x.edges x.current × (x.nodes ≡ source ∷ map (λ d. d.destination_type) x.edges)

    pub outgoing-All :
        (v : String) (es : List Edge)
        → ((e : Edge) → Among e es → Among e edges)
        → All
            (λ e. Among e edges × (e.enabled ≡ true) × (e.source_type ≡ v))
            (filterb (λ e. e.source_type == v && e.enabled) es)
    unfolding filterb
    outgoing-All v [] within = tt
    outgoing-All v (e ∷ es) within =
        let rest = outgoing-All v es (λ d i. within d (inr i)) in
        elim (Bool-cases (e.source_type == v && e.enabled)) [
          | inl fits ↦ rw fits (
            (
              within e (inl refl),
              ground (arith, fits),
              (eq_iff e.source_type v).0 (ground (arith, fits)),
            ),
            rest,
          )
          | inr not_so ↦ rw not_so rest
        ]

    pub expand-All :
        (x : Entry Float) (visited : List String) (es : List Edge)
        → Sound x
        → Seen visited x
        → All (λ e. Among e edges × (e.enabled ≡ true) × (e.source_type ≡ x.current)) es
        → All
            (λ y. Sound y × Seen (x.current ∷ visited) y)
            (expand edges edge_allowed policy_filter goal_type x es)
    unfolding expand elem
    expand-All x visited [] sound seen h = tt
    expand-All x visited (e ∷ es) sound seen h =
        let rest = expand-All x visited es sound seen h.1 in
        elim (Bool-cases (
          passes edges edge_allowed policy_filter goal_type e
          && not (elem e.destination_type x.nodes))) [
            | inl fits ↦ rw fits (
              (
                (
                  Leads-push source x.current x.edges e sound.0 (h.0.0, h.0.1, ground (arith, fits))
                      h.0.2,
                  ap (λ l. l ++ e.destination_type ∷ []) sound.1
                      ∙ ap (λ l. source ∷ l) (sym (map-push x.edges e)),
                ),
                λ n i. elim (elem-push n e.destination_type x.nodes i) [
                  | inl old ↦ elim (seen n old) [
                    | inl before ↦ inl (ground (arith, before))
                    | inr here ↦ inl (ground (arith, (eq_iff x.current n).1 (sym here)))
                  ]
                  | inr new ↦ inr new
                ],
              ),
              rest,
            )
            | inr not_so ↦ rw not_so rest
          ]

  abbrev pub currents : List (Entry Float) → List String
  currents queue = map (λ x. x.current) queue

  pub elem-left :
      (d : String) (xs ys : List (Entry Float))
      → elem d (currents xs) ≡ true
      → elem d (currents (xs ++ ys)) ≡ true
  unfolding elem
  elem-left d [] ys i = absurd (ground (arith, i))
  elem-left d (x ∷ xs) ys i = ground (arith, i, elem-left d xs ys)

  pub elem-right :
      (d : String) (xs ys : List (Entry Float))
      → elem d (currents ys) ≡ true
      → elem d (currents (xs ++ ys)) ≡ true
  unfolding elem
  elem-right d [] ys i = i
  elem-right d (x ∷ xs) ys i = ground (arith, elem-right d xs ys i)

  pub expand-covers :
      (x : Entry Float) (es : List Edge) (e : Edge)
      → Among e es
      → passes edges edge_allowed policy_filter goal_type e ≡ true
      → (elem e.destination_type x.nodes ≡ true)
        ⊎ (elem e.destination_type
              (currents (expand edges edge_allowed policy_filter goal_type x es))
            ≡ true)
  unfolding expand elem
  expand-covers x [] e i p = absurd i
  expand-covers x (d ∷ es) e (inl same) p =
      subst
        (λ g.
          (elem g.destination_type x.nodes ≡ true)
          ⊎ (elem g.destination_type
                (currents (expand edges edge_allowed policy_filter goal_type x (d ∷ es)))
              ≡ true))
        (sym same)
        (elim (Bool-cases (elem d.destination_type x.nodes)) [
          | inl known ↦ inl known
          | inr new ↦ inr (
              rw
                (
                  subst (λ g. passes edges edge_allowed policy_filter goal_type g ≡ true) same p,
                  new,
                )
                (ground (arith, beq_refl d.destination_type)))
        ])
  expand-covers x (d ∷ es) e (inr i) p = elim (expand-covers x es e i p) [
    | inl known ↦ inl known
    | inr there ↦
        elim (Bool-cases (
          passes edges edge_allowed policy_filter goal_type d
          && not (elem d.destination_type x.nodes))) [
            | inl fits ↦ inr (rw fits (ground (arith, there)))
            | inr not_so ↦ inr (rw not_so there)
          ]
  ]

  pub outgoing-Among :
      (v : String) (es : List Edge) (e : Edge)
      → Among e es
      → e.enabled ≡ true
      → (e.source_type == v) ≡ true
      → Among e (filterb (λ d. d.source_type == v && d.enabled) es)
  unfolding filterb
  outgoing-Among v [] e i on from = i
  outgoing-Among v (d ∷ es) e (inl same) on from =
      let fits : (d.source_type == v && d.enabled) ≡ true =
        subst (λ g. (g.source_type == v && g.enabled) ≡ true) same (ground (arith, on, from)) in
      rw fits (inl same)
  outgoing-Among v (d ∷ es) e (inr i) on from =
      let rest = outgoing-Among v es e i on from in
      elim (Bool-cases (d.source_type == v && d.enabled)) [
        | inl fits ↦ rw fits (inr rest)
        | inr not_so ↦ rw not_so rest
      ]

  -- the edges whose source has not been visited
  unfoldable pub ahead : List String → List Edge → ℕ
  ahead visited [] = 0
  ahead visited (e ∷ es) = ahead visited es + (if elem e.source_type visited then 0 else 1)

  pub ahead-visit :
      (v : String) (visited : List String) (es : List Edge)
      → elem v visited ≡ false
      → length (filterb (λ d. d.source_type == v && d.enabled) es) + ahead (v ∷ visited) es
        ≤ ahead visited es
  unfolding ahead filterb elem
  ahead-visit v visited [] new = omega arith
  ahead-visit v visited (e ∷ es) new =
      ground
        (arith, ahead-visit v visited es new, new, eq_iff v e.source_type, eq_iff e.source_type v)

  pub length-expand-le :
      (x : Entry Float) (es : List Edge)
      → length (expand edges edge_allowed policy_filter goal_type x es) ≤ length es
  unfolding expand
  length-expand-le x [] = omega arith
  length-expand-le x (e ∷ es) = ground (arith, length-expand-le x es)
