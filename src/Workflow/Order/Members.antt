-- ===== src/Workflow/Order/Members.antt =====
-- services/ai-agent/src/mcp_ops_ai_agent/workflows/service.py, `_topological_nodes`: which nodes it
-- orders.
use mcp_ai.Prelude.{
  ℕ, zero, suc, String, Bool, true, false, Option, none, some, List, [], ◌∷◌, ◌++◌, ◌==◌, filterb,
  length, All, All-append, string_eq, if◌then◌else◌,
}
use mcp_ai.Prelude.Dict.{Dict, keys, values, put, remove}
use mcp_ai.Workflow.Models.{WorkflowNode}
use mcp_ai.Workflow.Order.{
  keyed_onto, by_id, text_le, insert_node, sort_nodes, is_ready, ready_nodes, remove_each, rounds,
  or_else, topological_nodes,
}

pub if-elim {ℓ κ} :
    {A : Type ℓ} (P : A → Type κ) (b : Bool) (x y : A) → P x → P y → P (if b then x else y)
if-elim P true x y hx hy = hx
if-elim P false x y hx hy = hy

module _ (Q : WorkflowNode → Type 0) where
  put-All :
      (k : String) (n : WorkflowNode) (d : Dict String WorkflowNode)
      → Q n
      → All Q (values d)
      → All Q (values (put k n d))
  unfolding put
  put-All k n [] q h = (q, tt)
  put-All k n ((j, m) ∷ d) q h =
      if-elim (λ (e : Dict String WorkflowNode). All Q (values e)) (j == k) _ _ (q, h.1)
        (h.0, put-All k n d q h.1)

  remove-All :
      (k : String) (d : Dict String WorkflowNode) → All Q (values d) → All Q (values (remove k d))
  unfolding remove
  remove-All k [] h = tt
  remove-All k ((j, m) ∷ d) h =
      if-elim (λ (e : Dict String WorkflowNode). All Q (values e)) (j == k) _ _ (remove-All k d h.1)
        (h.0, remove-All k d h.1)

  pub keyed_onto-All :
      (d : Dict String WorkflowNode) (ns : List WorkflowNode)
      → All Q (values d)
      → All Q ns
      → All Q (values (keyed_onto d ns))
  unfolding keyed_onto
  keyed_onto-All d [] h hs = h
  keyed_onto-All d (n ∷ ns) h hs = keyed_onto-All (put n.id n d) ns (put-All n.id n d hs.0 h) hs.1

  remove_each-All :
      (ns : List WorkflowNode) (d : Dict String WorkflowNode)
      → All Q (values d)
      → All Q (values (remove_each ns d))
  unfolding remove_each
  remove_each-All [] d h = h
  remove_each-All (n ∷ ns) d h = remove_each-All ns (remove n.id d) (remove-All n.id d h)

  insert_node-All :
      (a : WorkflowNode) (ns : List WorkflowNode) → Q a → All Q ns → All Q (insert_node a ns)
  unfolding insert_node
  insert_node-All a [] q h = (q, tt)
  insert_node-All a (n ∷ ns) q h =
      if-elim (All Q) (text_le a.id n.id) _ _ (q, h) (h.0, insert_node-All a ns q h.1)

  pub sort_nodes-All : (ns : List WorkflowNode) → All Q ns → All Q (sort_nodes ns)
  unfolding sort_nodes
  sort_nodes-All [] h = tt
  sort_nodes-All (n ∷ ns) h = insert_node-All n (sort_nodes ns) h.0 (sort_nodes-All ns h.1)

  filterb-All : (p : WorkflowNode → Bool) (ns : List WorkflowNode) → All Q ns → All Q (filterb p ns)
  unfolding filterb
  filterb-All p [] h = tt
  filterb-All p (n ∷ ns) h =
      if-elim (All Q) (p n) _ _ (h.0, filterb-All p ns h.1) (filterb-All p ns h.1)

  pub ready_nodes-All : (d : Dict String WorkflowNode) → All Q (values d) → All Q (ready_nodes d)
  unfolding ready_nodes
  ready_nodes-All d h = filterb-All (is_ready (keys d)) (values d) h

  -- the nodes of an order, where there is one
  abbrev AllIn : Option (List WorkflowNode) → Type 0
  AllIn none = Unit
  AllIn (some ns) = All Q ns

  rounds-All :
      (fuel : ℕ) (d : Dict String WorkflowNode) (ordered : List WorkflowNode)
      → All Q (values d)
      → All Q ordered
      → AllIn (rounds fuel d ordered)
  unfolding rounds
  rounds-All zero [] ordered h ho = ho
  rounds-All (suc fuel) [] ordered h ho = ho
  rounds-All zero (entry ∷ d) ordered h ho = ho
  rounds-All (suc fuel) (entry ∷ d) ordered h ho =
      round_All (ready_nodes (entry ∷ d)) (ready_nodes-All (entry ∷ d) h) λ ready q.
        rounds-All fuel (remove_each ready (entry ∷ d)) (ordered ++ ready)
          (remove_each-All ready (entry ∷ d) h) (All-append Q ordered ready ho q)
    where
      round_All :
          (ready : List WorkflowNode)
          → All Q ready
          → ((ns : List WorkflowNode)
              → All Q ns
              → AllIn (rounds fuel (remove_each ns (entry ∷ d)) (ordered ++ ns)))
          → AllIn (elim ready [
            | [] ↦ none
            | n ∷ ns ↦
                rounds fuel
                  (remove_each (sort_nodes (n ∷ ns)) (entry ∷ d))
                  (ordered ++ sort_nodes (n ∷ ns))
          ])
      round_All [] q go = tt
      round_All (n ∷ ns) q go = go (sort_nodes (n ∷ ns)) (sort_nodes-All (n ∷ ns) q)

  or_else-All :
      (o : Option (List WorkflowNode)) (ns : List WorkflowNode)
      → AllIn o
      → All Q ns
      → All Q (or_else o ns)
  unfolding or_else
  or_else-All none ns h hs = hs
  or_else-All (some os) ns h hs = h

  pub topological_nodes-All : (ns : List WorkflowNode) → All Q ns → All Q (topological_nodes ns)
  unfolding topological_nodes by_id
  topological_nodes-All ns h =
      or_else-All (rounds (length (by_id ns)) (by_id ns) []) ns
        (rounds-All (length (by_id ns)) (by_id ns) [] (keyed_onto-All [] ns tt h) tt) h
