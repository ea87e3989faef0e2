-- ===== src/Workflow/Order.antt =====
-- services/ai-agent/src/mcp_ops_ai_agent/workflows/service.py: `_topological_nodes`. The `while` loop
-- runs on as much fuel as there are nodes; each round that goes on takes at least one away.
pub mod Members
pub mod Rounds
pub mod Precedence
pub mod Stuck
use Prim.Native.Nat.{Ordering}
use Prim.Native.String
use mcp_ai.Prelude.{
  ℕ, zero, suc, String, Bool, true, false, not, Option, none, some, List, [], ◌∷◌, ◌++◌, elem,
  filterb, allb, length, string_eq, if◌then◌else◌,
}
use mcp_ai.Prelude.Dict.{Dict, keys, values, put, remove}
use mcp_ai.Workflow.Models.{WorkflowNode}

-- `{node.id: node for node in nodes}`
unfoldable pub keyed_onto : Dict String WorkflowNode → List WorkflowNode → Dict String WorkflowNode
keyed_onto d [] = d
keyed_onto d (n ∷ ns) = keyed_onto (put n.id n d) ns

unfoldable pub by_id : List WorkflowNode → Dict String WorkflowNode
unfolding keyed_onto
by_id nodes = keyed_onto [] nodes

abbrev pub text_le : String → String → Bool
text_le a b = elim (String.compare a b) [ Ordering.gt ↦ false | _ ↦ true ]

unfoldable pub insert_node : WorkflowNode → List WorkflowNode → List WorkflowNode
insert_node a [] = a ∷ []
insert_node a (n ∷ ns) = if text_le a.id n.id then a ∷ n ∷ ns else n ∷ insert_node a ns

-- `sorted(ready, key=lambda item: item.id)`
unfoldable pub sort_nodes : List WorkflowNode → List WorkflowNode
unfolding insert_node
sort_nodes [] = []
sort_nodes (n ∷ ns) = insert_node n (sort_nodes ns)

unfoldable pub is_ready : List String → WorkflowNode → Bool
is_ready waiting n = allb (λ d. not (elem d waiting)) n.depends_on

unfoldable pub ready_nodes : Dict String WorkflowNode → List WorkflowNode
unfolding is_ready
ready_nodes remaining = filterb (is_ready (keys remaining)) (values remaining)

unfoldable pub remove_each : List WorkflowNode → Dict String WorkflowNode → Dict String WorkflowNode
remove_each [] d = d
remove_each (n ∷ ns) d = remove_each ns (remove n.id d)

-- `none` where no node is ready: there is a cycle
unfoldable pub rounds :
    ℕ → Dict String WorkflowNode → List WorkflowNode → Option (List WorkflowNode)
unfolding ready_nodes sort_nodes remove_each
rounds fuel [] ordered = some ordered
rounds zero (entry ∷ remaining) ordered = some ordered
rounds (suc fuel) (entry ∷ remaining) ordered = elim (ready_nodes (entry ∷ remaining)) [
  | [] ↦ none
  | n ∷ ns ↦
      rounds fuel (remove_each (sort_nodes (n ∷ ns)) (entry ∷ remaining))
        (ordered ++ sort_nodes (n ∷ ns))
]

unfoldable pub or_else : Option (List WorkflowNode) → List WorkflowNode → List WorkflowNode
or_else none nodes = nodes
or_else (some ordered) nodes = ordered

unfoldable pub topological_nodes : List WorkflowNode → List WorkflowNode
unfolding rounds or_else
topological_nodes nodes = or_else (rounds (length (by_id nodes)) (by_id nodes) []) nodes
