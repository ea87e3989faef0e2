-- ===== src/Workflow/Validator/Validate/Outcomes.antt =====
-- services/ai-agent/src/mcp_ops_ai_agent/workflows/validator.py: what `validate` answers.
use mcp_ai.Prelude.{
  ℕ, ◌≡◌, ◌∙◌, refl, sym, String, Option, none, some, List, [], ◌∷◌, map, All, string_eq, arith,
}
use mcp_ai.Prelude.Dict.{keys}
use mcp_ai.Prelude.Exec.{Result, ok, err}
use mcp_ai.Gateway.Models.{Uuid}
use mcp_ai.Workflow.Models.{Workflow, WorkflowStatus, WorkflowNode, WorkflowPlanDraft}
use mcp_ai.Workflow.Order.{by_id, topological_nodes}
use mcp_ai.Workflow.Order.Precedence.{IsOrder}
use mcp_ai.Workflow.Validator.{Issues}
use mcp_ai.Workflow.Validator.Acyclic.Cycles.{validate_acyclic-none}
use mcp_ai.Workflow.Validator.Ordered.{validate_acyclic-IsOrder}
use mcp_ai.Workflow.Validator.Validate.{
  WorkflowValidator, ValidationFailure, invalid, value_error, normalized_nodes, draft_issues,
  with_workflow, validated_workflow, concluded, validate,
}
use mcp_ai.Workflow.Validator.Validate.Sound.{IsValid, draft_issues-none}
use mcp_ai.Workflow.Validator.Validate.Governed.{
  Pairwise, Kept, IsGoverned, HasStrategy, Normal, normalized_nodes-Normal, Pairwise-All,
  validate_acyclic-Kept,
}

module _ (validator : WorkflowValidator) (role : String) (allowed : List String) where
  -- what is answered for a plan
  abbrev pub Outcome : WorkflowPlanDraft → Uuid → Result ValidationFailure Workflow → Type 0
  Outcome draft id (ok w) =
      IsValid validator role allowed draft
      × (ks : List WorkflowNode) × (w.nodes ≡ map (with_workflow id) ks)
      × Pairwise Kept draft.nodes ks
      × All (IsGoverned validator role allowed) ks
      × (w.status ≡ WorkflowStatus.validated)
      × IsOrder (keys (by_id w.nodes)) (topological_nodes w.nodes)
  Outcome draft id (err (invalid issues)) =
      ¬ IsValid validator role allowed draft × (issues ≡ draft_issues validator role allowed draft)
  Outcome draft id (err value_error) = ¬ All (HasStrategy validator role allowed) draft.nodes

  concluded-Outcome :
      (draft : WorkflowPlanDraft) (created_by target_environment : String) (id : Uuid) (now : ℕ)
      → (o : Option (List WorkflowNode)) → Normal validator role allowed draft.nodes o
      → (issues : Issues) → draft_issues validator role allowed draft ≡ issues
      → Outcome draft id (concluded draft created_by target_environment id now o issues)
  unfolding concluded validated_workflow
  concluded-Outcome draft by target id now none h issues e = h
  concluded-Outcome draft by target id now (some ks) h (i ∷ issues) e = (
    λ valid. absurd (ground (arith, e, (draft_issues-none validator role allowed draft).1 valid)),
    sym e,
  )
  concluded-Outcome draft by target id now (some ks) h [] e =
      let valid = (draft_issues-none validator role allowed draft).0 e in
      let (kept, governed) = Pairwise-All validator role allowed draft.nodes ks h in
      (
        valid,
        ks,
        refl,
        kept,
        governed,
        refl,
        validate_acyclic-IsOrder (map (with_workflow id) ks) draft.edges (
            validate_acyclic-Kept draft.nodes ks draft.edges id kept
            ∙ (validate_acyclic-none draft.nodes draft.edges).1 valid.8),
      )

  -- `validate` lets through exactly the plans that are valid and whose tools' retry strategies exist. Of a
  -- plan let through, each node keeps its identifier, dependencies, tool and arguments; its server,
  -- risk, retries and timeout are the registry's; approval is asked for where the registry or the risk
  -- asks for it; and the engine's order has every node, each after its dependencies. A plan refused
  -- with issues is not valid, and the issues are those of the checks; one refused with a ValueError has
  -- a node whose tool names no retry strategy.
  pub validate-Outcome :
      (draft : WorkflowPlanDraft) (created_by target_environment : String) (id : Uuid) (now : ℕ)
      → Outcome draft id
          (validate validator draft created_by role allowed target_environment id now)
  unfolding validate
  validate-Outcome draft by target id now =
      concluded-Outcome draft by target id now (normalized_nodes validator role allowed draft.nodes)
        (normalized_nodes-Normal validator role allowed draft.nodes)
        (draft_issues validator role allowed draft) refl
