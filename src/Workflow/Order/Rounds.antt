-- ===== src/Workflow/Order/Rounds.antt =====
-- services/ai-agent/src/mcp_ops_ai_agent/workflows/service.py, `_topological_nodes`: its rounds end.
use mcp_ai.Prelude.{
  ℕ, zero, suc, ◌+◌, ◌≤◌, ◌<◌, ◌≡◌, refl, sym, ap, subst, inl, inr, String, true, Option, none,
  List, [], ◌∷◌, ◌++◌, ◌==◌, elem, length, All, Bool-cases, string_eq, eq_iff, if◌then◌else◌, arith,
}
use mcp_ai.Prelude.Dict.{Dict, keys, values, put, remove, length-remove-le, length-put-le, beq_refl}
use mcp_ai.Workflow.Models.{WorkflowNode}
use mcp_ai.Workflow.Order.{
  keyed_onto, by_id, insert_node, sort_nodes, ready_nodes, remove_each, rounds, or_else,
  topological_nodes,
}
use mcp_ai.Workflow.Order.Members.{if-elim, sort_nodes-All, ready_nodes-All}

-- every node stands under its own identifier
abbrev pub Keyed : Dict String WorkflowNode → Type 0
Keyed [] = Unit
Keyed ((k, n) ∷ d) = (n.id ≡ k) × Keyed d

put-Keyed : (n : WorkflowNode) (d : Dict String WorkflowNode) → Keyed d → Keyed (put n.id n d)
unfolding put
put-Keyed n [] h = (refl, tt)
put-Keyed n ((j, m) ∷ d) h = elim (Bool-cases (j == n.id)) [
  | inl same ↦
      subst (λ b. Keyed (if b then (j, n) ∷ d else (j, m) ∷ put n.id n d)) (sym same)
        (sym ((eq_iff j n.id).0 same), h.1)
  | inr other ↦
      subst (λ b. Keyed (if b then (j, n) ∷ d else (j, m) ∷ put n.id n d)) (sym other)
        (h.0, put-Keyed n d h.1)
]

remove-Keyed : (k : String) (d : Dict String WorkflowNode) → Keyed d → Keyed (remove k d)
unfolding remove
remove-Keyed k [] h = tt
remove-Keyed k ((j, m) ∷ d) h =
    if-elim Keyed (j == k) _ _ (remove-Keyed k d h.1) (h.0, remove-Keyed k d h.1)

pub keyed_onto-Keyed :
    (d : Dict String WorkflowNode) (ns : List WorkflowNode) → Keyed d → Keyed (keyed_onto d ns)
unfolding keyed_onto
keyed_onto-Keyed d [] h = h
keyed_onto-Keyed d (n ∷ ns) h = keyed_onto-Keyed (put n.id n d) ns (put-Keyed n d h)

pub remove_each-Keyed :
    (ns : List WorkflowNode) (d : Dict String WorkflowNode) → Keyed d → Keyed (remove_each ns d)
unfolding remove_each
remove_each-Keyed [] d h = h
remove_each-Keyed (n ∷ ns) d h = remove_each-Keyed ns (remove n.id d) (remove-Keyed n.id d h)

-- a node whose identifier is a key
abbrev pub In : Dict String WorkflowNode → WorkflowNode → Type 0
In d n = elem n.id (keys d) ≡ true

pub values-In :
    (d e : Dict String WorkflowNode)
    → Keyed d
    → ((k : String) → elem k (keys d) ≡ true → elem k (keys e) ≡ true)
    → All (In e) (values d)
unfolding elem
values-In [] e h within = tt
values-In ((k, n) ∷ d) e h within = (
  within n.id (ground (arith, h.0, beq_refl k)),
  values-In d e h.1 (λ j m. within j (ground (arith, m))),
)

length-remove-lt :
    (k : String) (d : Dict String WorkflowNode)
    → elem k (keys d) ≡ true
    → length (remove k d) < length d
unfolding remove elem
length-remove-lt k [] h = ground arith
length-remove-lt k ((j, m) ∷ d) h = elim (Bool-cases (j == k)) [
  | inl same ↦ ground (arith, same, length-remove-le k d)
  | inr other ↦ ground (arith, other, length-remove-lt k d (ground (arith, h, other)))
]

length-remove_each-le :
    (ns : List WorkflowNode) (d : Dict String WorkflowNode) → length (remove_each ns d) ≤ length d
unfolding remove_each
length-remove_each-le [] d = omega arith
length-remove_each-le (n ∷ ns) d =
    omega (arith, length-remove_each-le ns (remove n.id d), length-remove-le n.id d)

pub length-remove_each-lt :
    (ns : List WorkflowNode) (d : Dict String WorkflowNode)
    → 0 < length ns
    → All (In d) ns
    → length (remove_each ns d) < length d
unfolding remove_each
length-remove_each-lt [] d h m = ground arith
length-remove_each-lt (n ∷ ns) d h m =
    omega (arith, length-remove_each-le ns (remove n.id d), length-remove-lt n.id d m.0)

pub length-insert_node :
    (a : WorkflowNode) (ns : List WorkflowNode) → length (insert_node a ns) ≡ suc (length ns)
unfolding insert_node
length-insert_node a [] = refl
length-insert_node a (n ∷ ns) = ground (arith, length-insert_node a ns)

rounds-enough :
    (f g : ℕ) (d : Dict String WorkflowNode) (ordered : List WorkflowNode)
    → length d ≤ f
    → length d ≤ g
    → Keyed d
    → rounds f d ordered ≡ rounds g d ordered
unfolding rounds sort_nodes
rounds-enough zero zero d ordered hf hg h = refl
rounds-enough zero (suc g) [] ordered hf hg h = refl
rounds-enough (suc f) zero [] ordered hf hg h = refl
rounds-enough (suc f) (suc g) [] ordered hf hg h = refl
rounds-enough zero (suc g) (p ∷ d) ordered hf hg h = ground arith
rounds-enough (suc f) zero (p ∷ d) ordered hf hg h = ground arith
rounds-enough (suc f) (suc g) (p ∷ d) ordered hf hg h =
    go (ready_nodes (p ∷ d))
      (ready_nodes-All (In (p ∷ d)) (p ∷ d) (values-In (p ∷ d) (p ∷ d) h (λ k m. m)))
      λ ready shorter.
        rounds-enough f g (remove_each ready (p ∷ d)) (ordered ++ ready)
          (omega (arith, hf, shorter)) (omega (arith, hg, shorter))
          (remove_each-Keyed ready (p ∷ d) h)
  where
    goes : ℕ → List WorkflowNode → Option (List WorkflowNode)
    goes fuel ready = elim ready [
      | [] ↦ none
      | n ∷ ns ↦
          rounds fuel (remove_each (sort_nodes (n ∷ ns)) (p ∷ d)) (ordered ++ sort_nodes (n ∷ ns))
    ]

    go :
        (ready : List WorkflowNode)
        → All (In (p ∷ d)) ready
        → ((ns : List WorkflowNode)
            → length (remove_each ns (p ∷ d)) < length (p ∷ d)
            → rounds f (remove_each ns (p ∷ d)) (ordered ++ ns)
              ≡ rounds g (remove_each ns (p ∷ d)) (ordered ++ ns))
        → goes f ready ≡ goes g ready
    go [] m rest = refl
    go (n ∷ ns) m rest = rest (sort_nodes (n ∷ ns)) (
        length-remove_each-lt (sort_nodes (n ∷ ns)) (p ∷ d)
          (omega (arith, length-insert_node n (sort_nodes ns)))
          (sort_nodes-All (In (p ∷ d)) (n ∷ ns) m))

pub length-keyed_onto-le :
    (ns : List WorkflowNode) (d : Dict String WorkflowNode)
    → length (keyed_onto d ns) ≤ length d + length ns
unfolding keyed_onto
length-keyed_onto-le [] d = omega arith
length-keyed_onto-le (n ∷ ns) d =
    omega (arith, length-keyed_onto-le ns (put n.id n d), length-put-le n.id n d)

-- The rounds end: with any fuel from the number of nodes on, the order is the one that
-- `topological_nodes` gives.
pub topological_nodes-enough :
    (nodes : List WorkflowNode) (fuel : ℕ)
    → length nodes ≤ fuel
    → or_else (rounds fuel (by_id nodes) []) nodes ≡ topological_nodes nodes
unfolding topological_nodes by_id
topological_nodes-enough nodes fuel h =
    ap (λ o. or_else o nodes)
      (rounds-enough fuel (length (by_id nodes)) (by_id nodes) []
        (omega (arith, h, length-keyed_onto-le nodes [])) (omega arith)
        (keyed_onto-Keyed [] nodes tt))
