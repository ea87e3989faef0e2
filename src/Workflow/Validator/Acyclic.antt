-- ===== src/Workflow/Validator/Acyclic.antt =====
-- services/ai-agent/src/mcp_ops_ai_agent/workflows/validator.py: `_validate_acyclic`, a search in depth.
-- The two sets are lists. A call of `visit` adds a key of the graph to `visiting` before it goes deeper,
-- so the search runs on as much fuel as there are keys.
pub mod Search
pub mod Cycles
use mcp_ai.Prelude.{
  ℕ, zero, suc, String, Bool, true, false, not, Option, none, some, List, [], ◌∷◌, ◌++◌, ◌+◌, ◌==◌,
  elem, filterb, length, string_eq, if◌then◌else◌,
}
use mcp_ai.Prelude.Dict.{Dict, keys, get, put}
use mcp_ai.Workflow.Models.{WorkflowNode, WorkflowEdge, WorkflowValidationIssue}

abbrev pub Graph : Type 0
Graph = Dict String (List String)

-- `graph.get(node_id, [])`
abbrev pub or_empty : Option (List String) → List String
or_empty none = []
or_empty (some ds) = ds

abbrev pub dependencies : Graph → String → List String
dependencies graph id = or_empty (get id graph)

unfoldable pub add_nodes : List WorkflowNode → Graph → Graph
add_nodes [] graph = graph
add_nodes (n ∷ ns) graph = add_nodes ns (put n.id n.depends_on graph)

-- `graph.setdefault(edge.destination, []).append(edge.source)`
unfoldable pub add_edges : List WorkflowEdge → Graph → Graph
add_edges [] graph = graph
add_edges (e ∷ es) graph =
    add_edges es (put e.destination (dependencies graph e.destination ++ e.source ∷ []) graph)

unfoldable pub graph_of : List WorkflowNode → List WorkflowEdge → Graph
unfolding add_nodes add_edges
graph_of nodes edges = add_edges edges (add_nodes nodes [])

pub record Marks : Type 0 where
  pub visiting : List String
  pub visited : List String

-- what `visit` returns: true, false, or that the fuel ran out
pub data Walk : Type 0 where
  fine : Marks → Walk
  cyclic exhausted : Walk

abbrev pub then_walk : Walk → (Marks → Walk) → Walk
then_walk (fine s) k = k s
then_walk cyclic k = cyclic
then_walk exhausted k = exhausted

abbrev pub leave : String → Marks → Walk
leave id s =
    fine (record { visiting = filterb (λ v. not (v == id)) s.visiting; visited = id ∷ s.visited })

module _ (graph : Graph) where
  -- the loop over the dependencies
  unfoldable pub visit_each : (String → Marks → Walk) → List String → Marks → Walk
  visit_each visit [] s = fine s
  visit_each visit (d ∷ ds) s =
      then_walk (if elem d (keys graph) then visit d s else fine s) (visit_each visit ds)

  unfoldable pub visit : ℕ → String → Marks → Walk
  unfolding visit_each
  visit zero id s = exhausted
  visit (suc fuel) id s =
      let inside : Walk =
        then_walk
          (visit_each (visit fuel) (dependencies graph id)
            (record s { visiting = id ∷ s.visiting }))
          (leave id) in
      if elem id s.visiting then cyclic else if elem id s.visited then fine s else inside

  -- the loop over the keys: the first whose visit fails
  unfoldable pub first_cycle : ℕ → List String → Marks → Option String
  unfolding visit
  first_cycle fuel [] s = none
  first_cycle fuel (id ∷ ids) s = elim (visit fuel id s) [
    | fine t ↦ first_cycle fuel ids t
    | cyclic ↦ some id
    | exhausted ↦ some id
  ]

abbrev pub cycle_issue : Option String → List WorkflowValidationIssue
cycle_issue none = []
cycle_issue (some id) =
    record {
      code = "cycle_detected";
      message = "Workflow graph must be acyclic.";
      node_id = some id;
    }
    ∷ []

unfoldable pub validate_acyclic :
    List WorkflowNode → List WorkflowEdge → List WorkflowValidationIssue
unfolding first_cycle
validate_acyclic nodes edges =
    let graph = graph_of nodes edges in
    cycle_issue
      (first_cycle graph (length graph + 1) (keys graph) (record { visiting = []; visited = [] }))
