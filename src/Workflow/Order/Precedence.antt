-- ===== src/Workflow/Order/Precedence.antt =====
-- services/ai-agent/src/mcp_ops_ai_agent/workflows/service.py, `_topological_nodes`: what comes first.
use mcp_ai.Prelude.{
  ℕ, zero, suc, ◌≤◌, ◌<◌, ◌≡◌, ◌⊎◌, refl, sym, ap, ◌∙◌, subst, inl, inr, String, true, false, not,
  Option, none, some, List, [], ◌∷◌, ◌++◌, ◌==◌, elem, allb, filterb, length, All, Bool-cases,
  Option-cases, string_eq, eq_iff, if◌then◌else◌, arith,
}
use mcp_ai.Prelude.Dict.{Dict, keys, values, remove}
use mcp_ai.Workflow.Models.{WorkflowNode}
use mcp_ai.Workflow.Order.{
  by_id, sort_nodes, is_ready, ready_nodes, remove_each, rounds, or_else, topological_nodes,
}
use mcp_ai.Workflow.Order.Members.{sort_nodes-All, ready_nodes-All}
use mcp_ai.Workflow.Order.Rounds.{
  Keyed, In, keyed_onto-Keyed, remove_each-Keyed, values-In, length-remove_each-lt,
  length-insert_node,
}

-- the identifiers seen after a list of nodes
abbrev pub after : List String → List WorkflowNode → List String
after seen [] = seen
after seen (n ∷ ns) = after (n.id ∷ seen) ns

module _ (every : List String) where
  -- the dependencies of a node that are among all the identifiers have been seen
  abbrev pub Seen : List String → WorkflowNode → Type 0
  Seen seen n = All (λ d. elem d every ≡ true → elem d seen ≡ true) n.depends_on

  -- each node of a list comes after its dependencies
  abbrev pub Precedes : List String → List WorkflowNode → Type 0
  Precedes seen [] = Unit
  Precedes seen (n ∷ ns) = Seen seen n × Precedes (n.id ∷ seen) ns

  Precedes-append :
      (seen : List String) (xs ys : List WorkflowNode)
      → Precedes seen xs
      → Precedes (after seen xs) ys
      → Precedes seen (xs ++ ys)
  Precedes-append seen [] ys h k = k
  Precedes-append seen (x ∷ xs) ys h k = (h.0, Precedes-append (x.id ∷ seen) xs ys h.1 k)

  more :
      (j : String) (seen ds : List String)
      → All (λ d. elem d every ≡ true → elem d seen ≡ true) ds
      → All (λ d. elem d every ≡ true → elem d (j ∷ seen) ≡ true) ds
  unfolding elem
  more j seen [] h = tt
  more j seen (d ∷ ds) h = (λ e. ground (arith, h.0 e), more j seen ds h.1)

  All-more :
      (j : String) (seen : List String) (ns : List WorkflowNode)
      → All (Seen seen) ns
      → All (Seen (j ∷ seen)) ns
  All-more j seen [] h = tt
  All-more j seen (n ∷ ns) h = (more j seen n.depends_on h.0, All-more j seen ns h.1)

  batch-Precedes :
      (seen : List String) (ns : List WorkflowNode) → All (Seen seen) ns → Precedes seen ns
  batch-Precedes seen [] h = tt
  batch-Precedes seen (n ∷ ns) h =
      (h.0, batch-Precedes (n.id ∷ seen) ns (All-more n.id seen ns h.1))

  -- what remains to be ordered and what was seen are all
  abbrev Covers : Dict String WorkflowNode → List String → Type 0
  Covers d seen = (k : String) → elem k every ≡ true → elem k (keys d) ≡ false → elem k seen ≡ true

  elem-keys-remove :
      (j k : String) (d : Dict String WorkflowNode)
      → (j == k) ≡ false
      → elem k (keys (remove j d)) ≡ elem k (keys d)
  unfolding elem remove
  elem-keys-remove j k [] h = refl
  elem-keys-remove j k ((i, n) ∷ d) h =
      ground (arith, h, eq_iff i j, eq_iff i k, eq_iff j k, elem-keys-remove j k d h)

  remove-Covers :
      (n : WorkflowNode) (d : Dict String WorkflowNode) (seen : List String)
      → Covers d seen
      → Covers (remove n.id d) (n.id ∷ seen)
  unfolding elem
  remove-Covers n d seen h k e gone = elim (Bool-cases (n.id == k)) [
    | inl same ↦ ground (arith, same)
    | inr other ↦ ground (arith, other, h k e (sym (elem-keys-remove n.id k d other) ∙ gone))
  ]

  remove_each-Covers :
      (ns : List WorkflowNode) (d : Dict String WorkflowNode) (seen : List String)
      → Covers d seen
      → Covers (remove_each ns d) (after seen ns)
  unfolding remove_each
  remove_each-Covers [] d seen h = h
  remove_each-Covers (n ∷ ns) d seen h =
      remove_each-Covers ns (remove n.id d) (n.id ∷ seen) (remove-Covers n d seen h)

  after-append :
      (seen : List String) (xs ys : List WorkflowNode)
      → after seen (xs ++ ys) ≡ after (after seen xs) ys
  after-append seen [] ys = refl
  after-append seen (x ∷ xs) ys = after-append (x.id ∷ seen) xs ys

  ready-Seen :
      (d : Dict String WorkflowNode) (seen ds : List String)
      → Covers d seen
      → allb (λ k. not (elem k (keys d))) ds ≡ true
      → All (λ k. elem k every ≡ true → elem k seen ≡ true) ds
  unfolding allb
  ready-Seen d seen [] h r = tt
  ready-Seen d seen (k ∷ ds) h r =
      (λ e. h k e (ground (arith, r)), ready-Seen d seen ds h (ground (arith, r)))

  filterb-Seen :
      (d : Dict String WorkflowNode) (seen : List String) (ns : List WorkflowNode)
      → Covers d seen
      → All (Seen seen) (filterb (is_ready (keys d)) ns)
  unfolding filterb is_ready
  filterb-Seen d seen [] h = tt
  filterb-Seen d seen (n ∷ ns) h = elim (Bool-cases (is_ready (keys d) n)) [
    | inl good ↦
        subst
          (λ b.
            All (Seen seen)
              (if b then n ∷ filterb (is_ready (keys d)) ns else filterb (is_ready (keys d)) ns))
          (sym good) (ready-Seen d seen n.depends_on h good, filterb-Seen d seen ns h)
    | inr bad ↦
        subst
          (λ b.
            All (Seen seen)
              (if b then n ∷ filterb (is_ready (keys d)) ns else filterb (is_ready (keys d)) ns))
          (sym bad) (filterb-Seen d seen ns h)
  ]

  -- an order that has all, each after its dependencies
  abbrev pub IsOrder : List WorkflowNode → Type 0
  IsOrder os = Precedes [] os × ((k : String) → elem k every ≡ true → elem k (after [] os) ≡ true)

  abbrev IsOrderIn : Option (List WorkflowNode) → Type 0
  IsOrderIn none = Unit
  IsOrderIn (some os) = IsOrder os

  rounds-IsOrder :
      (f : ℕ) (d : Dict String WorkflowNode) (ordered : List WorkflowNode)
      → length d ≤ f
      → Keyed d
      → Covers d (after [] ordered)
      → Precedes [] ordered
      → IsOrderIn (rounds f d ordered)
  unfolding rounds ready_nodes sort_nodes elem
  rounds-IsOrder zero [] ordered hf h c p = (p, λ k e. c k e refl)
  rounds-IsOrder (suc f) [] ordered hf h c p = (p, λ k e. c k e refl)
  rounds-IsOrder zero (q ∷ d) ordered hf h c p = ground arith
  rounds-IsOrder (suc f) (q ∷ d) ordered hf h c p =
      go (ready_nodes (q ∷ d))
        (ready_nodes-All (In (q ∷ d)) (q ∷ d) (values-In (q ∷ d) (q ∷ d) h (λ k m. m)))
        (filterb-Seen (q ∷ d) (after [] ordered) (values (q ∷ d)) c)
        λ ready shorter seen.
          rounds-IsOrder f (remove_each ready (q ∷ d)) (ordered ++ ready)
            (omega (arith, hf, shorter)) (remove_each-Keyed ready (q ∷ d) h)
            (subst (Covers (remove_each ready (q ∷ d))) (sym (after-append [] ordered ready))
              (remove_each-Covers ready (q ∷ d) (after [] ordered) c))
            (Precedes-append [] ordered ready p (batch-Precedes (after [] ordered) ready seen))
    where
      goes : List WorkflowNode → Option (List WorkflowNode)
      goes ready = elim ready [
        | [] ↦ none
        | n ∷ ns ↦
            rounds f (remove_each (sort_nodes (n ∷ ns)) (q ∷ d)) (ordered ++ sort_nodes (n ∷ ns))
      ]

      go :
          (ready : List WorkflowNode)
          → All (In (q ∷ d)) ready
          → All (Seen (after [] ordered)) ready
          → ((ns : List WorkflowNode)
              → length (remove_each ns (q ∷ d)) < length (q ∷ d)
              → All (Seen (after [] ordered)) ns
              → IsOrderIn (rounds f (remove_each ns (q ∷ d)) (ordered ++ ns)))
          → IsOrderIn (goes ready)
      go [] m s rest = tt
      go (n ∷ ns) m s rest =
          rest (sort_nodes (n ∷ ns))
            (length-remove_each-lt (sort_nodes (n ∷ ns)) (q ∷ d)
              (omega (arith, length-insert_node n (sort_nodes ns)))
              (sort_nodes-All (In (q ∷ d)) (n ∷ ns) m))
            (sort_nodes-All (Seen (after [] ordered)) (n ∷ ns) s)

-- The order, by how the rounds end.
pub topological_nodes-rounds :
    (nodes : List WorkflowNode)
    → IsOrder (keys (by_id nodes)) (topological_nodes nodes)
      ⊎ ((rounds (length (by_id nodes)) (by_id nodes) [] ≡ none)
          × (topological_nodes nodes ≡ nodes))
unfolding topological_nodes or_else by_id
topological_nodes-rounds nodes =
    elim (Option-cases (rounds (length (by_id nodes)) (by_id nodes) [])) [
      | inl stuck ↦ inr (stuck, ap (λ o. or_else o nodes) stuck)
      | inr (os, e) ↦ inl (
          subst (λ o. IsOrder (keys (by_id nodes)) (or_else o nodes)) (sym e)
            (subst (IsOrderIn (keys (by_id nodes))) e (
              rounds-IsOrder (keys (by_id nodes)) (length (by_id nodes)) (by_id nodes) []
                (omega arith) (keyed_onto-Keyed [] nodes tt)
                (λ k one gone. ground (arith, one, gone)) tt)))
    ]
