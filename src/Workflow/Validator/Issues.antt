-- ===== src/Workflow/Validator/Issues.antt =====
-- When the checks of a plan find nothing.
use mcp_ai.Prelude.{
  ◌≡◌, ◌↔◌, String, Bool, true, false, not, Option, none, some, List, [], ◌∷◌, ◌++◌, elem,
  string_eq, arith, All,
}
use mcp_ai.Prelude.Dict.{keys}
use mcp_ai.Workflow.Models.{
  WorkflowNode, WorkflowEdge, WorkflowValidationIssue, ArgumentReference, WorkflowCondition,
}
use mcp_ai.Workflow.Validator.{
  Issues, issue_if, dependency_issues, validate_dependencies, safe_path, reference_issues,
  validate_argument_references, condition_issues, validate_typed_conditions, validate_edges,
}

pub append-none : (xs ys : Issues) → (xs ++ ys ≡ []) ↔ ((xs ≡ []) × (ys ≡ []))
append-none [] ys = ground arith
append-none (x ∷ xs) ys = ground arith

issue_if-none : (b : Bool) (i : WorkflowValidationIssue) → (issue_if (not b) i ≡ []) ↔ (b ≡ true)
issue_if-none true i = ground arith
issue_if-none false i = ground arith

abbrev pub DependsOnKnown : List String → WorkflowNode → Type 0
DependsOnKnown node_ids node = All (λ d. elem d node_ids ≡ true) node.depends_on

dependency_issues-none :
    (node : WorkflowNode) (ds node_ids : List String)
    → (dependency_issues node ds node_ids ≡ []) ↔ All (λ d. elem d node_ids ≡ true) ds
unfolding dependency_issues
dependency_issues-none node [] node_ids = ground arith
dependency_issues-none node (d ∷ ds) node_ids = ground (
  arith,
  append-none (issue_if (not (elem d node_ids)) _) (dependency_issues node ds node_ids),
  issue_if-none (elem d node_ids) _,
  dependency_issues-none node ds node_ids,
)

abbrev pub ReferenceIsSound : WorkflowNode → List String → ArgumentReference → Type 0
ReferenceIsSound node node_ids r =
    (elem r.argument (keys node.arguments) ≡ true)
    × (elem r.source_node_id node_ids ≡ true)
    × (elem r.source_node_id node.depends_on ≡ true)
    × (safe_path r.output_path ≡ true)

reference_issues-none :
    (node : WorkflowNode) (rs : List ArgumentReference) (node_ids : List String)
    → (reference_issues node rs node_ids ≡ []) ↔ All (ReferenceIsSound node node_ids) rs
unfolding reference_issues
reference_issues-none node [] node_ids = ground arith
reference_issues-none node (r ∷ rs) node_ids = ground (
  arith,
  reference_issues-none node rs node_ids,
  elem r.argument (keys node.arguments),
  elem r.source_node_id node_ids,
  elem r.source_node_id node.depends_on,
  safe_path r.output_path,
)

abbrev pub EdgeIsSound : List String → WorkflowEdge → Type 0
EdgeIsSound node_ids edge =
    (elem edge.source node_ids ≡ true) × (elem edge.destination node_ids ≡ true)

abbrev pub ConditionIsSound : List String → WorkflowNode → Option WorkflowCondition → Type 0
ConditionIsSound node_ids node none = Unit
ConditionIsSound node_ids node (some c) =
    (elem c.source_node_id node_ids ≡ true)
    × (elem c.source_node_id node.depends_on ≡ true)
    × (safe_path c.output_path ≡ true)

condition_issues-none :
    (node : WorkflowNode) (c : Option WorkflowCondition) (node_ids : List String)
    → (condition_issues node c node_ids ≡ []) ↔ ConditionIsSound node_ids node c
unfolding condition_issues
condition_issues-none node none node_ids = ground arith
condition_issues-none node (some c) node_ids = ground arith

-- The check of the dependencies finds nothing exactly when every dependency of every node is the
-- identifier of a node.
pub validate_dependencies-none :
    (nodes : List WorkflowNode) (node_ids : List String)
    → (validate_dependencies nodes node_ids ≡ []) ↔ All (DependsOnKnown node_ids) nodes
unfolding validate_dependencies
validate_dependencies-none [] node_ids = ground arith
validate_dependencies-none (node ∷ nodes) node_ids = ground (
  arith,
  append-none (dependency_issues node node.depends_on node_ids)
      (validate_dependencies nodes node_ids),
  dependency_issues-none node node.depends_on node_ids,
  validate_dependencies-none nodes node_ids,
)

-- The checks of the references find nothing exactly when every reference of every node fills one of
-- the node's arguments, from a node that exists and that it depends on, by a safe path.
pub validate_argument_references-none :
    (nodes : List WorkflowNode) (node_ids : List String)
    → (validate_argument_references nodes node_ids ≡ [])
      ↔ All (λ node. All (ReferenceIsSound node node_ids) node.argument_references) nodes
unfolding validate_argument_references
validate_argument_references-none [] node_ids = ground arith
validate_argument_references-none (node ∷ nodes) node_ids = ground (
  arith,
  append-none (reference_issues node node.argument_references node_ids)
      (validate_argument_references nodes node_ids),
  reference_issues-none node node.argument_references node_ids,
  validate_argument_references-none nodes node_ids,
)

-- The checks of the conditions find nothing exactly when every condition of a node reads, by a safe
-- path, from a node that exists and that it depends on.
pub validate_typed_conditions-none :
    (nodes : List WorkflowNode) (node_ids : List String)
    → (validate_typed_conditions nodes node_ids ≡ [])
      ↔ All (λ node. ConditionIsSound node_ids node node.typed_condition) nodes
unfolding validate_typed_conditions
validate_typed_conditions-none [] node_ids = ground arith
validate_typed_conditions-none (node ∷ nodes) node_ids = ground (
  arith,
  append-none (condition_issues node node.typed_condition node_ids)
      (validate_typed_conditions nodes node_ids),
  condition_issues-none node node.typed_condition node_ids,
  validate_typed_conditions-none nodes node_ids,
)

-- The checks of the edges find nothing exactly when both ends of every edge are nodes.
pub validate_edges-none :
    (edges : List WorkflowEdge) (node_ids : List String)
    → (validate_edges edges node_ids ≡ []) ↔ All (EdgeIsSound node_ids) edges
unfolding validate_edges
validate_edges-none [] node_ids = ground arith
validate_edges-none (edge ∷ edges) node_ids = ground (arith, validate_edges-none edges node_ids)
