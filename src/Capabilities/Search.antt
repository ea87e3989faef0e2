-- ===== src/Capabilities/Search.antt =====
-- services/ai-agent/src/mcp_ops_ai_agent/capabilities/service.py: `_bfs` and `_outgoing`. The cost of an edge
-- is a float, of a type that is a parameter; so is what `_edge_allowed` says of an edge. Each round
-- takes an entry off the queue, and an edge adds at most one, so the search runs on one more unit of
-- fuel than there are edges.
pub mod Paths
pub mod Outcomes
use mcp_ai.Prelude.{
  ℕ, zero, suc, ◌+◌, String, Bool, not, ◌&&◌, ◌||◌, List, [], ◌∷◌, ◌++◌, ◌==◌, elem, filterb,
  length, string_eq, if◌then◌else◌,
}

pub record CapabilityEdge (Float : Type 0) : Type 0 where
  pub source_type : String
  pub destination_type : String
  pub tool_name : String
  pub mcp_server : String
  pub cost : Float
  pub risk : String
  pub prerequisites : List String
  pub enabled : Bool

-- an entry of the queue
pub record Entry (Float : Type 0) : Type 0 where
  pub current : String
  pub nodes : List String
  pub edges : List (CapabilityEdge Float)

-- what a path is made from, or `_unreachable`; or that the fuel ran out
pub data Found (Float : Type 0) : Type 0 where
  path : List String → List (CapabilityEdge Float) → Found Float
  unreachable exhausted : Found Float

module _ {Float : Type 0} (edges : List (CapabilityEdge Float))
    (edge_allowed : CapabilityEdge Float → Bool) (policy_filter : Bool) (goal_type : String) where
  unfoldable pub outgoing : String → List (CapabilityEdge Float)
  outgoing resource_type = filterb (λ e. e.source_type == resource_type && e.enabled) edges

  -- `not (policy_filter and not allowed)`
  abbrev pub passes : CapabilityEdge Float → Bool
  passes e = not policy_filter || edge_allowed e

  -- what the loop over the edges puts on the queue
  unfoldable pub expand : Entry Float → List (CapabilityEdge Float) → List (Entry Float)
  expand x [] = []
  expand x (e ∷ es) =
      if passes e && not (elem e.destination_type x.nodes)
      then record {
        current = e.destination_type;
        nodes = x.nodes ++ e.destination_type ∷ [];
        edges = x.edges ++ e ∷ [];
      }
        ∷ expand x es
      else expand x es

  unfoldable pub search : ℕ → List (Entry Float) → List String → Found Float
  unfolding outgoing expand
  search zero [] visited = unreachable
  search zero (x ∷ queue) visited = exhausted
  search (suc fuel) [] visited = unreachable
  search (suc fuel) (x ∷ queue) visited =
      let skipped = search fuel queue visited in
      let deeper = search fuel (queue ++ expand x (outgoing x.current)) (x.current ∷ visited) in
      if x.current == goal_type
      then path x.nodes x.edges
      else if elem x.current visited
      then skipped
      else deeper

  unfoldable pub bfs : String → Found Float
  unfolding search
  bfs source_type =
      search (length edges + 1)
        (record { current = source_type; nodes = source_type ∷ []; edges = [] } ∷ []) []
