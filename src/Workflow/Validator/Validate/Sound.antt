-- ===== src/Workflow/Validator/Validate/Sound.antt =====
-- services/ai-agent/src/mcp_ops_ai_agent/workflows/validator.py: when `validate` finds no issue.
use mcp_ai.Prelude.{
  ℕ, ◌≤◌, ◌≡◌, ◌∙◌, ◌↔◌, refl, sym, subst, String, Bool, true, false, Option, none, some, List, [],
  ◌∷◌, ◌++◌, elem, length, ltb, All, string_eq, arith,
}
use mcp_ai.Prelude.Dict.{get}
use mcp_ai.Registry.{ToolMetadata}
use mcp_ai.Workflow.Models.{WorkflowNode, WorkflowPlanDraft, WorkflowValidationIssue}
use mcp_ai.Workflow.Validator.{Issues, issue_if}
use mcp_ai.Workflow.Validator.Issues.{
  append-none, DependsOnKnown, ReferenceIsSound, ConditionIsSound, EdgeIsSound,
  validate_dependencies-none, validate_argument_references-none, validate_typed_conditions-none,
  validate_edges-none,
}
use mcp_ai.Workflow.Validator.Acyclic.{graph_of}
use mcp_ai.Workflow.Validator.Acyclic.Search.{Reaches}
use mcp_ai.Workflow.Validator.Acyclic.Cycles.{validate_acyclic-none}
use mcp_ai.Workflow.Validator.Schema.{validate_arguments}
use mcp_ai.Workflow.Validator.Validate.{
  WorkflowValidator, ids, has_duplicates, tool_issues, node_issues, all_issues, draft_issues,
}

issue_if-false : (b : Bool) (i : _) → (issue_if b i ≡ []) ↔ (b ≡ false)
issue_if-false true i = ground arith
issue_if-false false i = ground arith

pub some_same : (k m : ToolMetadata) → some k ≡ some m → k ≡ m
some_same k m e = ground (arith, e)

at_most : (m n : ℕ) → (ltb m n ≡ false) ↔ (n ≤ m)
at_most m n = ground arith

both :
    {xs : Issues} {ys : Issues} {P : Type 0} {Q : Type 0}
    → (xs ≡ []) ↔ P
    → (ys ≡ []) ↔ Q
    → (xs ++ ys ≡ []) ↔ (P × Q)
both {xs = xs} {ys = ys} p q =
    let (cut, paste) = append-none xs ys in
    (λ h. (p.0 (cut h).0, q.0 (cut h).1), λ h. paste (p.1 h.0, q.1 h.1))

atop : (i : WorkflowValidationIssue) (n m : ℕ) → (issue_if (ltb m n) i ≡ []) ↔ (n ≤ m)
atop i n m = (
  λ h. (at_most m n).0 ((issue_if-false (ltb m n) _).0 h),
  λ h. (issue_if-false (ltb m n) _).1 ((at_most m n).1 h),
)

module _ (validator : WorkflowValidator) (role : String) (allowed : List String) where
  -- the registry has the node's tool, it was discovered and is enabled, and its schema takes the arguments
  abbrev pub NodeIsSound : WorkflowNode → Type 0
  NodeIsSound n =
      (m : ToolMetadata) × (get n.tool_name validator.registry ≡ some m)
      × (elem n.tool_name allowed ≡ true)
      × (m.enabled ≡ true)
      × (validate_arguments validator.re_match validator.str_of validator.input_schemas n role m
          ≡ [])

  tool_issues-none :
      (n : WorkflowNode) (m : ToolMetadata)
      → (tool_issues validator role allowed n m ≡ []) ↔ (
          (elem n.tool_name allowed ≡ true)
          × (m.enabled ≡ true)
          × (validate_arguments validator.re_match validator.str_of validator.input_schemas n role m
              ≡ []))
  unfolding tool_issues
  tool_issues-none n m = ground (arith, elem n.tool_name allowed)

  node_issues-none :
      (n : WorkflowNode) (o : Option ToolMetadata)
      → get n.tool_name validator.registry ≡ o
      → (node_issues validator role allowed n o ≡ []) ↔ NodeIsSound n
  unfolding node_issues
  node_issues-none n none e =
      (λ h. absurd (ground (arith, h)), λ (m, f, seen, on, fits). absurd (ground (arith, e, f)))
  node_issues-none n (some m) e = (
    λ h. let (seen, on, fits) = (tool_issues-none n m).0 h in (m, e, seen, on, fits),
    λ (k, f, seen, on, fits).
        let j : k ≡ m = some_same k m (sym f ∙ e) in
        (tool_issues-none n m).1 (
          seen,
          ground (arith, on, j),
          subst
              (λ i.
                validate_arguments validator.re_match validator.str_of validator.input_schemas n
                  role i
                ≡ [])
              j fits,
        ),
  )

  all_issues-none :
      (ns : List WorkflowNode) → (all_issues validator role allowed ns ≡ []) ↔ All NodeIsSound ns
  unfolding all_issues
  all_issues-none [] = (λ h. tt, λ h. refl)
  all_issues-none (n ∷ ns) =
      let (cut, paste) =
        append-none (node_issues validator role allowed n (get n.tool_name validator.registry))
          (all_issues validator role allowed ns) in
      let (sound, quiet) = node_issues-none n (get n.tool_name validator.registry) refl in
      (
        λ h. (sound (cut h).0, (all_issues-none ns).0 (cut h).1),
        λ h. paste (quiet h.0, (all_issues-none ns).1 h.1),
      )

  -- the draft is small enough, its nodes differ and are sound, and so are its parts, and it has no cycle
  abbrev pub IsValid : WorkflowPlanDraft → Type 0
  IsValid draft =
      (length draft.nodes ≤ validator.max_nodes)
      × (length draft.edges ≤ validator.max_edges)
      × (has_duplicates (ids draft.nodes) ≡ false)
      × All NodeIsSound draft.nodes
      × All (DependsOnKnown (ids draft.nodes)) draft.nodes
      × All (λ n. All (ReferenceIsSound n (ids draft.nodes)) n.argument_references) draft.nodes
      × All (λ n. ConditionIsSound (ids draft.nodes) n n.typed_condition) draft.nodes
      × All (EdgeIsSound (ids draft.nodes)) draft.edges
      × ((k : String) → ¬ Reaches (graph_of draft.nodes draft.edges) k k)

  pub draft_issues-none :
      (draft : WorkflowPlanDraft) → (draft_issues validator role allowed draft ≡ []) ↔ IsValid draft
  unfolding draft_issues
  draft_issues-none draft =
      let found =
        both
          (both
            (both
              (both
                (both
                  (both
                    (both
                      (both (atop _ (length draft.nodes) validator.max_nodes)
                        (atop _ (length draft.edges) validator.max_edges))
                      (issue_if-false (has_duplicates (ids draft.nodes)) _))
                    (all_issues-none draft.nodes))
                  (validate_dependencies-none draft.nodes (ids draft.nodes)))
                (validate_argument_references-none draft.nodes (ids draft.nodes)))
              (validate_typed_conditions-none draft.nodes (ids draft.nodes)))
            (validate_edges-none draft.edges (ids draft.nodes)))
          (validate_acyclic-none draft.nodes draft.edges) in
      (
        λ h.
            let ((((((((a, b), c), d), e), f), g), i), j) = found.0 h in
            (a, b, c, d, e, f, g, i, j),
        λ (a, b, c, d, e, f, g, i, j). found.1 ((((((((a, b), c), d), e), f), g), i), j),
      )
