-- ===== src/Workflow/Validator/Ordered.antt =====
-- services/ai-agent/src/mcp_ops_ai_agent/workflows: the plans that validator.py's `_validate_acyclic` lets
-- through, and how service.py's `_topological_nodes` orders them.
use mcp_ai.Prelude.{
  ℕ, zero, suc, ◌≤◌, ◌<◌, ◌≡◌, ◌∙◌, refl, sym, ap, subst, String, true, false, Option, none, some,
  List, [], ◌∷◌, ◌++◌, ◌==◌, elem, length, All, Bool-cases, string_eq, eq_iff, inl, inr,
  if◌then◌else◌, arith,
}
use mcp_ai.Prelude.Dict.{Dict, keys, values, get, put, remove, get-put, get-remove}
use mcp_ai.Workflow.Models.{WorkflowNode, WorkflowEdge}
use mcp_ai.Workflow.Order.{
  keyed_onto, by_id, is_ready, ready_nodes, sort_nodes, remove_each, rounds, topological_nodes,
}
use mcp_ai.Workflow.Order.Members.{ready_nodes-All, sort_nodes-All}
use mcp_ai.Workflow.Order.Rounds.{
  Keyed, In, keyed_onto-Keyed, remove_each-Keyed, values-In, length-remove_each-lt,
  length-insert_node,
}
use mcp_ai.Workflow.Order.Precedence.{IsOrder, topological_nodes-rounds}
use mcp_ai.Workflow.Order.Stuck.{get-elem, elem-get, All-get, filterb-nil, waits}
use mcp_ai.Workflow.Validator.Acyclic.{
  Graph, dependencies, or_empty, add_nodes, add_edges, graph_of, validate_acyclic,
}
use mcp_ai.Workflow.Validator.Acyclic.Search.{Finished, elem-head}
use mcp_ai.Workflow.Validator.Acyclic.Cycles.{All-within, validate_acyclic-Ranking}

elem-append : (k : String) (xs ys : List String) → elem k xs ≡ true → elem k (xs ++ ys) ≡ true
unfolding elem
elem-append k [] ys h = absurd (ground (arith, h))
elem-append k (x ∷ xs) ys h = elim (Bool-cases (x == k)) [
  | inl same ↦ ground (arith, same)
  | inr other ↦ ground (arith, other, elem-append k xs ys (ground (arith, h, other)))
]

-- a node of the dictionary has its dependencies in the graph
abbrev Fit : Graph → Dict String WorkflowNode → Type 0
Fit graph d =
    (k : String) (m : WorkflowNode)
    → get k d ≡ some m
    → (elem k (keys graph) ≡ true)
      × ((e : String) → elem e m.depends_on ≡ true → elem e (dependencies graph k) ≡ true)

-- the graph of the nodes has just their dependencies
abbrev Match : Graph → Dict String WorkflowNode → Type 0
Match graph d = (k : String) (m : WorkflowNode) → get k d ≡ some m → get k graph ≡ some m.depends_on

add_nodes-Match :
    (ns : List WorkflowNode) (graph : Graph) (d : Dict String WorkflowNode)
    → Match graph d
    → Match (add_nodes ns graph) (keyed_onto d ns)
unfolding add_nodes keyed_onto
add_nodes-Match [] graph d h = h
add_nodes-Match (n ∷ ns) graph d h =
    add_nodes-Match ns (put n.id n.depends_on graph) (put n.id n d)
      λ k m e. ground (arith, e, get-put n.id k n d, get-put n.id k n.depends_on graph, h k m)

-- what an edge adds keeps the dependencies
abbrev Grows : Graph → Graph → Type 0
Grows g h =
    (k : String) (ds : List String)
    → get k g ≡ some ds
    → (es : List String) × (get k h ≡ some es)
      × ((e : String) → elem e ds ≡ true → elem e es ≡ true)

edge-Grows : (j source : String) (g : Graph) → Grows g (put j (dependencies g j ++ source ∷ []) g)
edge-Grows j source g k ds h = elim (Bool-cases (j == k)) [
  | inl same ↦
      let e = (eq_iff j k).0 same in
      let here : dependencies g j ≡ ds =
        subst (λ i. or_empty (get i g) ≡ ds) (sym e) (ap or_empty h) in
      (
        dependencies g j ++ source ∷ [],
        get-put j k (dependencies g j ++ source ∷ []) g
            ∙ ap (λ b. if b then some (dependencies g j ++ source ∷ []) else get k g) same,
        λ i m.
            elem-append i (dependencies g j) (source ∷ [])
              (subst (λ l. elem i l ≡ true) (sym here) m),
      )
  | inr other ↦ (
    ds,
    get-put j k (dependencies g j ++ source ∷ []) g
        ∙ ap (λ b. if b then some (dependencies g j ++ source ∷ []) else get k g) other
        ∙ h,
    λ i m. m,
  )
]

add_edges-Grows : (es : List WorkflowEdge) (g : Graph) → Grows g (add_edges es g)
unfolding add_edges
add_edges-Grows [] g k ds h = (ds, h, λ e i. i)
add_edges-Grows (edge ∷ es) g k ds h =
    let (ds1, h1, in1) = edge-Grows edge.destination edge.source g k ds h in
    let (ds2, h2, in2) =
      add_edges-Grows es
        (put edge.destination (dependencies g edge.destination ++ edge.source ∷ []) g) k ds1 h1 in
    (ds2, h2, λ e i. in2 e (in1 e i))

get-nil : (j : String) (n : WorkflowNode) → get j [] ≡ some n → ⊥
unfolding get
get-nil j n h = ground (arith, h)

by_id-Fit :
    (nodes : List WorkflowNode) (edges : List WorkflowEdge)
    → Fit (graph_of nodes edges) (by_id nodes)
unfolding graph_of by_id
by_id-Fit nodes edges k m h =
    let (ds, e, within) =
      add_edges-Grows edges (add_nodes nodes []) k m.depends_on
        (add_nodes-Match nodes [] [] (λ j n none_. absurd (get-nil j n none_)) k m h) in
    (
      get-elem k ds (graph_of nodes edges) e,
      λ i mem. subst (λ o. elem i (or_empty o) ≡ true) (sym e) (within i mem),
    )

remove_each-Fit :
    (graph : Graph) (ns : List WorkflowNode) (d : Dict String WorkflowNode)
    → Fit graph d
    → Fit graph (remove_each ns d)
unfolding remove_each
remove_each-Fit graph [] d h = h
remove_each-Fit graph (n ∷ ns) d h =
    remove_each-Fit graph ns (remove n.id d) λ k m e. h k m (kept k m e)
  where
    kept : (k : String) (m : WorkflowNode) → get k (remove n.id d) ≡ some m → get k d ≡ some m
    kept k m e = ground (arith, e, get-remove n.id k d)

-- A ranking of the keys leaves none that waits.
stuck-none :
    (graph : Graph) (d : Dict String WorkflowNode) (vs : List String)
    → Finished graph vs
    → Fit graph d
    → (ready_nodes d ≡ [])
    → (k : String) → elem k (keys d) ≡ true
    → elem k vs ≡ true
    → ⊥
unfolding elem ready_nodes is_ready
stuck-none graph d [] fin fit stuck k key h = absurd (ground (arith, h))
stuck-none graph d (v ∷ vs) fin fit stuck k key h = elim (Bool-cases (v == k)) [
  | inl same ↦
      let (m, e) = elem-get k d key in
      let (i, mine, waiting) = waits (keys d) m.depends_on (held m e) in
      let (n, f) = elem-get i d waiting in
      let linked : elem i (dependencies graph v) ≡ true =
        subst (λ j. elem i (dependencies graph j) ≡ true) (sym ((eq_iff v k).0 same))
          ((fit k m e).1 i mine) in
      stuck-none graph d vs fin.1 fit stuck i waiting
        (All-within graph i (dependencies graph v) vs vs (λ j x. x) fin.0 (fit i n f).0 linked)
  | inr other ↦ stuck-none graph d vs fin.1 fit stuck k key (ground (arith, h, other))
]
  where
    held : (m : WorkflowNode) → get k d ≡ some m → is_ready (keys d) m ≡ false
    held m e =
        All-get (λ n. is_ready (keys d) n ≡ false) k m d
          (filterb-nil (is_ready (keys d)) (values d) stuck) e

rounds-some :
    (graph : Graph) (vs : List String)
    → Finished graph vs
    → ((k : String) → elem k (keys graph) ≡ true → elem k vs ≡ true)
    → (f : ℕ) (d : Dict String WorkflowNode) (ordered : List WorkflowNode) → length d ≤ f
    → Keyed d
    → Fit graph d
    → rounds f d ordered ≡ none
    → ⊥
unfolding rounds ready_nodes sort_nodes
rounds-some graph vs fin all zero [] ordered hf h fit gone = ground (arith, gone)
rounds-some graph vs fin all (suc f) [] ordered hf h fit gone = ground (arith, gone)
rounds-some graph vs fin all zero (q ∷ d) ordered hf h fit gone = ground (arith, hf)
rounds-some graph vs fin all (suc f) (q ∷ d) ordered hf h fit gone =
    go (ready_nodes (q ∷ d)) refl
      (ready_nodes-All (In (q ∷ d)) (q ∷ d) (values-In (q ∷ d) (q ∷ d) h (λ k m. m)))
      (λ ready shorter.
        rounds-some graph vs fin all f (remove_each ready (q ∷ d)) (ordered ++ ready)
          (omega (arith, hf, shorter)) (remove_each-Keyed ready (q ∷ d) h)
          (remove_each-Fit graph ready (q ∷ d) fit))
      gone
  where
    goes : List WorkflowNode → Option (List WorkflowNode)
    goes ready = elim ready [
      | [] ↦ none
      | n ∷ ns ↦
          rounds f (remove_each (sort_nodes (n ∷ ns)) (q ∷ d)) (ordered ++ sort_nodes (n ∷ ns))
    ]

    first : elem q.0 (keys (q ∷ d)) ≡ true
    first = elem-head q.0 (keys d)

    go :
        (ready : List WorkflowNode)
        → ready_nodes (q ∷ d) ≡ ready
        → All (In (q ∷ d)) ready
        → ((ns : List WorkflowNode)
            → length (remove_each ns (q ∷ d)) < length (q ∷ d)
            → rounds f (remove_each ns (q ∷ d)) (ordered ++ ns) ≡ none
            → ⊥)
        → goes ready ≡ none
        → ⊥
    go [] e m rest h' =
        let (n, there) = elem-get q.0 (q ∷ d) first in
        stuck-none graph (q ∷ d) vs fin fit e q.0 first (all q.0 (fit q.0 n there).0)
    go (n ∷ ns) e m rest h' =
        rest (sort_nodes (n ∷ ns))
          (length-remove_each-lt (sort_nodes (n ∷ ns)) (q ∷ d)
            (omega (arith, length-insert_node n (sort_nodes ns)))
            (sort_nodes-All (In (q ∷ d)) (n ∷ ns) m))
          h'

-- Where the check of cycles finds nothing, the engine's order has every node of the plan, each after
-- those of its dependencies that are nodes.
pub validate_acyclic-IsOrder :
    (nodes : List WorkflowNode) (edges : List WorkflowEdge)
    → validate_acyclic nodes edges ≡ []
    → IsOrder (keys (by_id nodes)) (topological_nodes nodes)
unfolding by_id
validate_acyclic-IsOrder nodes edges h =
    let (vs, fin, all) = validate_acyclic-Ranking nodes edges h in
    elim (topological_nodes-rounds nodes) [
      | inl good ↦ good
      | inr (gone, same) ↦ absurd (
          rounds-some (graph_of nodes edges) vs fin all (length (by_id nodes)) (by_id nodes) []
            (omega arith) (keyed_onto-Keyed [] nodes tt) (by_id-Fit nodes edges) gone)
    ]
