-- ===== src/Workflow/Order/Stuck.antt =====
-- services/ai-agent/src/mcp_ops_ai_agent/workflows/service.py, `_topological_nodes`: the plans that have no
-- order.
use mcp_ai.Prelude.{
  ℕ, zero, suc, ◌≡◌, ◌⊎◌, refl, subst, String, Bool, true, false, not, Option, none, some, List, [],
  ◌∷◌, ◌++◌, ◌==◌, elem, allb, filterb, length, All, Bool-cases, string_eq, inl, inr, arith,
}
use mcp_ai.Prelude.Dict.{Dict, keys, values, get, remove, get-remove, beq_refl}
use mcp_ai.Workflow.Models.{WorkflowNode}
use mcp_ai.Workflow.Order.{
  by_id, is_ready, ready_nodes, sort_nodes, remove_each, rounds, topological_nodes,
}
use mcp_ai.Workflow.Order.Precedence.{IsOrder, topological_nodes-rounds}

elem-head : (k : String) (ks : List String) → elem k (k ∷ ks) ≡ true
unfolding elem
elem-head k ks = ground (arith, beq_refl k)

elem-later : (k d : String) (ks : List String) → elem k ks ≡ true → elem k (d ∷ ks) ≡ true
unfolding elem
elem-later k d ks h = ground (arith, h)

module _ {V : Type 0} where
  pub get-elem :
      (k : String) (v : V) (d : Dict String V) → get k d ≡ some v → elem k (keys d) ≡ true
  unfolding get elem
  get-elem k v [] h = ground (arith, h)
  get-elem k v ((j, w) ∷ d) h = elim (Bool-cases (j == k)) [
    | inl same ↦ ground (arith, same)
    | inr other ↦ ground (arith, other, get-elem k v d (ground (arith, h, other)))
  ]

  pub elem-get :
      (k : String) (d : Dict String V) → elem k (keys d) ≡ true → (v : V) × (get k d ≡ some v)
  unfolding get elem
  elem-get k [] h = absurd (ground (arith, h))
  elem-get k ((j, w) ∷ d) h = elim (Bool-cases (j == k)) [
    | inl same ↦ (w, ground (arith, same))
    | inr other ↦
        let (v, e) = elem-get k d (ground (arith, h, other)) in (v, ground (arith, other, e))
  ]

  pub All-get :
      (Q : V → Type 0) (k : String) (v : V) (d : Dict String V)
      → All Q (values d)
      → get k d ≡ some v
      → Q v
  unfolding get
  All-get Q k v [] a h = absurd (ground (arith, h))
  All-get Q k v ((j, w) ∷ d) a h = elim (Bool-cases (j == k)) [
    | inl same ↦ subst Q (ground (arith, h, same)) a.0
    | inr other ↦ All-get Q k v d a.1 (ground (arith, h, other))
  ]

-- Where no node is ready, each has a dependency that waits too.
pub filterb-nil :
    (p : WorkflowNode → Bool) (ns : List WorkflowNode)
    → filterb p ns ≡ []
    → All (λ n. p n ≡ false) ns
unfolding filterb
filterb-nil p [] h = tt
filterb-nil p (n ∷ ns) h = elim (Bool-cases (p n)) [
  | inl good ↦ absurd (ground (arith, h, good))
  | inr bad ↦ (bad, filterb-nil p ns (ground (arith, h, bad)))
]

pub waits :
    (ks ds : List String)
    → allb (λ d. not (elem d ks)) ds ≡ false
    → (e : String) × (elem e ds ≡ true) × (elem e ks ≡ true)
unfolding allb elem
waits ks [] h = absurd (ground (arith, h))
waits ks (d ∷ ds) h = elim (Bool-cases (elem d ks)) [
  | inl there ↦ (d, ground (arith, beq_refl d), there)
  | inr away ↦ let (e, i, j) = waits ks ds (ground (arith, h, away)) in (e, elem-later e d ds i, j)
]

-- some nodes, each of which depends on one of them, so that none of them can come first
abbrev pub Deadlocked : List String → List WorkflowNode → Type 0
Deadlocked ks nodes =
    (k : String)
    → elem k ks ≡ true
    → (n : WorkflowNode) × (get k (by_id nodes) ≡ some n)
      × (d : String) × (elem d n.depends_on ≡ true)
      × (elem d ks ≡ true)

abbrev pub HasDeadlock : List WorkflowNode → Type 0
HasDeadlock nodes = (k : String) × (ks : List String) × Deadlocked (k ∷ ks) nodes

module _ (nodes : List WorkflowNode) where
  -- the entries that remain are those of the plan
  abbrev Within : Dict String WorkflowNode → Type 0
  Within d = (k : String) (n : WorkflowNode) → get k d ≡ some n → get k (by_id nodes) ≡ some n

  remove_each-Within :
      (ns : List WorkflowNode) (d : Dict String WorkflowNode) → Within d → Within (remove_each ns d)
  unfolding remove_each
  remove_each-Within [] d h = h
  remove_each-Within (n ∷ ns) d h =
      remove_each-Within ns (remove n.id d) λ k m e. h k m (ground (arith, e, get-remove n.id k d))

  -- where no node that remains is ready, those that remain wait for one another
  stuck-Deadlocked :
      (d : Dict String WorkflowNode) → Within d → ready_nodes d ≡ [] → Deadlocked (keys d) nodes
  unfolding ready_nodes is_ready
  stuck-Deadlocked d within stuck k key =
      let (n, e) = elem-get k d key in
      let (w, mine, waiting) = waits (keys d) n.depends_on (
        All-get (λ m. is_ready (keys d) m ≡ false) k n d
          (filterb-nil (is_ready (keys d)) (values d) stuck) e) in
      (n, within k n e, w, mine, waiting)

  rounds-none :
      (f : ℕ) (d : Dict String WorkflowNode) (ordered : List WorkflowNode)
      → Within d
      → rounds f d ordered ≡ none
      → HasDeadlock nodes
  unfolding rounds
  rounds-none zero [] ordered h gone = absurd (ground (arith, gone))
  rounds-none (suc f) [] ordered h gone = absurd (ground (arith, gone))
  rounds-none zero (q ∷ d) ordered h gone = absurd (ground (arith, gone))
  rounds-none (suc f) (q ∷ d) ordered h gone =
      go (ready_nodes (q ∷ d)) refl
        (λ ns.
          rounds-none f (remove_each ns (q ∷ d)) (ordered ++ ns) (remove_each-Within ns (q ∷ d) h))
        gone
    where
      goes : List WorkflowNode → Option (List WorkflowNode)
      goes ready = elim ready [
        | [] ↦ none
        | n ∷ ns ↦
            rounds f (remove_each (sort_nodes (n ∷ ns)) (q ∷ d)) (ordered ++ sort_nodes (n ∷ ns))
      ]

      go :
          (ready : List WorkflowNode)
          → ready_nodes (q ∷ d) ≡ ready
          → ((ns : List WorkflowNode)
              → rounds f (remove_each ns (q ∷ d)) (ordered ++ ns) ≡ none
              → HasDeadlock nodes)
          → goes ready ≡ none
          → HasDeadlock nodes
      go [] e rest none_left = (q.0, keys d, stuck-Deadlocked (q ∷ d) h e)
      go (n ∷ ns) e rest none_left = rest (sort_nodes (n ∷ ns)) none_left

-- The nodes are ordered so that each comes after those of its dependencies that are nodes, and every
-- node has its place; or else there are nodes in the plan each of which depends on one of them, and the
-- order is the one given.
pub topological_nodes-IsOrder :
    (nodes : List WorkflowNode)
    → IsOrder (keys (by_id nodes)) (topological_nodes nodes)
      ⊎ (HasDeadlock nodes × (topological_nodes nodes ≡ nodes))
topological_nodes-IsOrder nodes = elim (topological_nodes-rounds nodes) [
  | inl good ↦ inl good
  | inr (gone, same) ↦
      inr (rounds-none nodes (length (by_id nodes)) (by_id nodes) [] (λ k n e. e) gone, same)
]
