-- ===== src/Workflow/Validator/Acyclic/Cycles.antt =====
-- services/ai-agent/src/mcp_ops_ai_agent/workflows/validator.py: which graphs `_validate_acyclic` refuses.
use mcp_ai.Prelude.{
  ℕ, suc, ◌+◌, ◌<◌, ◌≡◌, ◌∙◌, ◌↔◌, refl, sym, ap, subst, String, true, Option, none, some, List, [],
  ◌∷◌, ◌==◌, elem, length, length-filterb-le, All, Bool-cases, string_eq, eq_iff, inl, inr, not,
  arith,
}
use mcp_ai.Prelude.Dict.{keys}
use mcp_ai.Workflow.Models.{WorkflowNode, WorkflowEdge}
use mcp_ai.Workflow.Validator.Acyclic.{
  Graph, dependencies, graph_of, Marks, Walk, fine, cyclic, exhausted, visit, first_cycle,
  cycle_issue, validate_acyclic,
}
use mcp_ai.Workflow.Validator.Acyclic.Search.{
  Step, Reaches, one, more, elem-cons, elem-head, room, Finished, Includes, Cycle, Advanced, Finds,
  visit-Finds,
}

pub elem-nil : (k : String) → elem k [] ≡ true → ⊥
unfolding elem
elem-nil k h = ground (arith, h)

length-map : (g : Graph) → length (keys g) ≡ length g
length-map [] = refl
length-map ((k, ds) ∷ g) = ap suc (length-map g)

module _ (graph : Graph) where
  pub All-within :
      (k : String) (ds vs ws : List String)
      → Includes graph vs ws
      → All (λ d. elem d (keys graph) ≡ true → elem d vs ≡ true) ds
      → elem k (keys graph) ≡ true
      → elem k ds ≡ true
      → elem k ws ≡ true
  unfolding elem
  All-within k [] vs ws to all key h = absurd (ground (arith, h))
  All-within k (d ∷ ds) vs ws to all key h = elim (Bool-cases (d == k)) [
    | inl same ↦
        let e = (eq_iff d k).0 same in
        subst (λ j. elem j ws ≡ true) e
          (to d (all.0 (subst (λ j. elem j (keys graph) ≡ true) (sym e) key)))
    | inr other ↦ All-within k ds vs ws to all.1 key (ground (arith, h, other))
  ]

  closed-Step :
      (vs : List String) (a b : String)
      → Finished graph vs
      → elem a vs ≡ true
      → Step graph a b
      → elem b vs ≡ true
  unfolding elem
  closed-Step [] a b fin h step = absurd (ground (arith, h))
  closed-Step (v ∷ vs) a b fin h step = elim (Bool-cases (v == a)) [
    | inl same ↦
        let e = (eq_iff v a).0 same in
        All-within b (dependencies graph v) vs (v ∷ vs) (λ k. elem-cons k v vs) fin.0 step.0
          (subst (λ j. elem b (dependencies graph j) ≡ true) (sym e) step.1)
    | inr other ↦ elem-cons b v vs (closed-Step vs a b fin.1 (ground (arith, h, other)) step)
  ]

  reaches-within :
      (vs : List String) (a b : String)
      → Finished graph vs
      → ((c : String) → Step graph a c → elem c vs ≡ true)
      → Reaches graph a b
      → elem b vs ≡ true
  reaches-within vs a b fin first (one step) = first b step
  reaches-within vs a b fin first (more {b = m} path step) =
      closed-Step vs m b fin (reaches-within vs a m fin first path) step

  Finished-apart :
      (vs : List String) (a : String) → Finished graph vs → elem a vs ≡ true → Reaches graph a a → ⊥
  unfolding elem
  Finished-apart [] a fin h path = absurd (ground (arith, h))
  Finished-apart (v ∷ vs) a fin h path = elim (Bool-cases (v == a)) [
    | inl same ↦
        let e = (eq_iff v a).0 same in
        Finished-apart vs a fin.1
          (reaches-within vs a a fin.1
            (λ c step.
              All-within c (dependencies graph v) vs vs (λ k i. i) fin.0 step.0
                (subst (λ j. elem c (dependencies graph j) ≡ true) (sym e) step.1))
            path)
          path
    | inr other ↦ Finished-apart vs a fin.1 (ground (arith, h, other)) path
  ]

  -- an order of the keys, each after its dependencies
  abbrev pub Ranking : List String → Type 0
  Ranking ks = (vs : List String) × Finished graph vs × Includes graph ks vs

  Includes-cons :
      (k : String) (ks vs : List String)
      → elem k vs ≡ true
      → Includes graph ks vs
      → Includes graph (k ∷ ks) vs
  unfolding elem
  Includes-cons k ks vs h within j e = elim (Bool-cases (k == j)) [
    | inl same ↦ subst (λ i. elem i vs ≡ true) ((eq_iff k j).0 same) h
    | inr other ↦ within j (ground (arith, e, other))
  ]

  -- what a search from some keys that are marked finds
  abbrev Searched : List String → List String → Option String → Type 0
  Searched seen ks none =
      (vs : List String) × Finished graph vs × Includes graph ks vs × Includes graph seen vs
  Searched seen ks (some id) = Cycle graph

  Searched-cons :
      (s t : Marks) (id : String) (ids : List String) (o : Option String)
      → Advanced graph s t
      → elem id t.visited ≡ true
      → Searched t.visited ids o
      → Searched s.visited (id ∷ ids) o
  Searched-cons s t id ids none adv done (vs, fin, inc, grow) =
      (vs, fin, Includes-cons id ids vs (grow id done) inc, λ k e. grow k (adv.2 k e))
  Searched-cons s t id ids (some k) adv done h = h

  first_cycle-Searched :
      (fuel : ℕ) (ids : List String) (s : Marks)
      → room (keys graph) [] < fuel
      → Includes graph ids (keys graph)
      → (s.visiting ≡ [])
      → Finished graph s.visited
      → Searched s.visited ids (first_cycle graph fuel ids s)
  unfolding first_cycle
  first_cycle-Searched fuel [] s enough within empty fin =
      (s.visited, fin, λ k e. absurd (elem-nil k e), λ k e. e)
  first_cycle-Searched fuel (id ∷ ids) s enough within empty fin =
      searched (visit graph fuel id s)
        (visit-Finds graph fuel id s (subst (λ vs. room (keys graph) vs < fuel) (sym empty) enough)
          (within id (elem-head id ids)) (subst (All (λ v. Reaches graph v id)) (sym empty) tt) fin)
        λ t (adv, done). Searched-cons s t id ids (first_cycle graph fuel ids t) adv done (
          first_cycle-Searched fuel ids t enough (λ k e. within k (elem-cons k id ids e))
            (adv.0 ∙ empty) adv.1)
    where
      searched :
          (w : Walk)
          → Finds graph (λ t. Advanced graph s t × (elem id t.visited ≡ true)) w
          → ((t : Marks)
              → Advanced graph s t × (elem id t.visited ≡ true)
              → Searched s.visited (id ∷ ids) (first_cycle graph fuel ids t))
          → Searched s.visited (id ∷ ids) (elim w [
            | fine t ↦ first_cycle graph fuel ids t
            | cyclic ↦ some id
            | exhausted ↦ some id
          ])
      searched (fine t) h rest = rest t h
      searched cyclic h rest = h
      searched exhausted h rest = absurd h

  keys-Searched :
      Searched []
        (keys graph)
        (first_cycle graph (length graph + 1) (keys graph) (record { visiting = []; visited = [] }))
  keys-Searched =
      first_cycle-Searched (length graph + 1) (keys graph) (record { visiting = []; visited = [] })
        (omega (arith, length-filterb-le (λ k. not (elem k [])) (keys graph), length-map graph))
        (λ k e. e) refl tt

  Ranking-acyclic :
      (vs : List String) → Finished graph vs → Includes graph (keys graph) vs → Cycle graph → ⊥
  Ranking-acyclic vs fin inc (k, path) = Finished-apart vs k fin (inc k (reached path)) path
    where
      reached : {a b : String} → Reaches graph a b → elem b (keys graph) ≡ true
      reached (one step) = step.0
      reached (more path step) = step.0

-- The check of cycles finds nothing exactly when no node depends on itself by a chain of dependencies
-- and edges.
pub validate_acyclic-none :
    (nodes : List WorkflowNode) (edges : List WorkflowEdge)
    → (validate_acyclic nodes edges ≡ []) ↔ ((k : String) → ¬ Reaches (graph_of nodes edges) k k)
unfolding validate_acyclic
validate_acyclic-none nodes edges =
    decided
      (first_cycle (graph_of nodes edges) (length (graph_of nodes edges) + 1)
        (keys (graph_of nodes edges)) (record { visiting = []; visited = [] }))
      (keys-Searched (graph_of nodes edges))
  where
    decided :
        (o : Option String)
        → Searched (graph_of nodes edges) [] (keys (graph_of nodes edges)) o
        → (cycle_issue o ≡ []) ↔ ((k : String) → ¬ Reaches (graph_of nodes edges) k k)
    decided none (vs, fin, inc, grow) =
        (λ e k path. Ranking-acyclic (graph_of nodes edges) vs fin inc (k, path), λ h. refl)
    decided (some id) (k, path) = (λ e. absurd (ground (arith, e)), λ h. absurd (h k path))

-- Where it finds nothing, there is an order of all, each after its dependencies.
pub validate_acyclic-Ranking :
    (nodes : List WorkflowNode) (edges : List WorkflowEdge)
    → validate_acyclic nodes edges ≡ []
    → Ranking (graph_of nodes edges) (keys (graph_of nodes edges))
unfolding validate_acyclic
validate_acyclic-Ranking nodes edges h =
    ranked
      (first_cycle (graph_of nodes edges) (length (graph_of nodes edges) + 1)
        (keys (graph_of nodes edges)) (record { visiting = []; visited = [] }))
      (keys-Searched (graph_of nodes edges)) h
  where
    ranked :
        (o : Option String)
        → Searched (graph_of nodes edges) [] (keys (graph_of nodes edges)) o
        → cycle_issue o ≡ []
        → Ranking (graph_of nodes edges) (keys (graph_of nodes edges))
    ranked none (vs, fin, inc, grow) e = (vs, fin, inc)
    ranked (some id) k e = absurd (ground (arith, e))
