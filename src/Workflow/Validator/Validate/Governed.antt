-- ===== src/Workflow/Validator/Validate/Governed.antt =====
-- services/ai-agent/src/mcp_ops_ai_agent/workflows/validator.py: what `validate` puts in place of what a
-- plan claims of its nodes.
use mcp_ai.Prelude.{
  ◌≡◌, ◌≢◌, ◌∙◌, refl, sym, subst, String, true, ◌||◌, Option, none, some, List, [], ◌∷◌, map, All,
  string_eq, arith,
}
use mcp_ai.Prelude.Dict.{get, put}
use mcp_ai.Registry.{ToolMetadata, risk_value, is_high_risk}
use mcp_ai.Gateway.Models.{Uuid}
use mcp_ai.Workflow.Models.{WorkflowNode, WorkflowEdge, RetryStrategy}
use mcp_ai.Workflow.Validator.Acyclic.{Graph, add_nodes, graph_of, validate_acyclic}
use mcp_ai.Workflow.Validator.Schema.{
  classify_risk, parse_retry_strategy, with_strategy, classified,
}
use mcp_ai.Workflow.Validator.Validate.{
  WorkflowValidator, normalized_node, with_node, normalized_nodes, with_workflow,
}
use mcp_ai.Workflow.Validator.Validate.Sound.{some_same}

-- a node and what is made of it have these in common
abbrev pub Kept : WorkflowNode → WorkflowNode → Type 0
Kept n k =
    (k.id ≡ n.id)
    × (k.depends_on ≡ n.depends_on)
    × (k.tool_name ≡ n.tool_name)
    × (k.arguments ≡ n.arguments)

abbrev pub Pairwise :
    (WorkflowNode → WorkflowNode → Type 0) → List WorkflowNode → List WorkflowNode → Type 0
Pairwise R [] [] = Unit
Pairwise R [] (k ∷ ks) = ⊥
Pairwise R (n ∷ ns) [] = ⊥
Pairwise R (n ∷ ns) (k ∷ ks) = R n k × Pairwise R ns ks

some_node : (n k : WorkflowNode) → some n ≡ some k → n ≡ k
some_node n k e = ground (arith, e)

module _ (validator : WorkflowValidator) (role : String) (allowed : List String) where
  -- what the registry says of the node's tool stands in place of what the plan claims
  abbrev pub IsGoverned : WorkflowNode → Type 0
  IsGoverned n =
      (m : ToolMetadata)
      → get n.tool_name validator.registry ≡ some m
      → (n.tool_server ≡ m.server)
        × (n.risk_level ≡ risk_value m.risk_level)
        × ((m.requires_approval || is_high_risk m.risk_level) ≡ true → n.approval_required ≡ true)
        × (n.max_retries ≡ m.default_max_retries)
        × (n.timeout_seconds ≡ m.timeout_seconds)
        × (parse_retry_strategy m.retry_strategy ≡ some n.retry_strategy)

  -- the retry strategy of the node's tool is one there is
  abbrev pub HasStrategy : WorkflowNode → Type 0
  HasStrategy n =
      (m : ToolMetadata)
      → get n.tool_name validator.registry ≡ some m
      → parse_retry_strategy m.retry_strategy ≢ none

  abbrev pub Made : WorkflowNode → WorkflowNode → Type 0
  Made n k = Kept n k × IsGoverned k

  with_strategy-Made :
      (n : WorkflowNode) (m : ToolMetadata)
      → get n.tool_name validator.registry ≡ some m
      → (o : Option RetryStrategy) → parse_retry_strategy m.retry_strategy ≡ o
      → (k : WorkflowNode) → with_strategy n m o ≡ some k
      → Made n k
  unfolding with_strategy classified
  with_strategy-Made n m e none f k h = absurd (ground (arith, h))
  with_strategy-Made n m e (some strategy) f k h =
      subst (Made n) (some_node (classified n m strategy) k h) made
    where
      made : Made n (classified n m strategy)
      made = (
        (refl, refl, refl, refl),
        λ i g.
            subst
              (λ t.
                ((classified n m strategy).tool_server ≡ t.server)
                × ((classified n m strategy).risk_level ≡ risk_value t.risk_level)
                × ((t.requires_approval || is_high_risk t.risk_level) ≡ true
                    → (classified n m strategy).approval_required ≡ true)
                × ((classified n m strategy).max_retries ≡ t.default_max_retries)
                × ((classified n m strategy).timeout_seconds ≡ t.timeout_seconds)
                × (parse_retry_strategy t.retry_strategy
                    ≡ some (classified n m strategy).retry_strategy))
              (some_same m i (sym e ∙ g)) (refl, refl, λ b. ground (arith, b), refl, refl, f),
      )

  normalized_node-Made :
      (n : WorkflowNode) (o : Option ToolMetadata)
      → get n.tool_name validator.registry ≡ o
      → (k : WorkflowNode) → normalized_node validator role allowed n o ≡ some k
      → Made n k
  unfolding normalized_node classify_risk
  normalized_node-Made n none e k h =
      subst (Made n) (some_node n k h)
        ((refl, refl, refl, refl), λ m f. absurd (ground (arith, e, f)))
  normalized_node-Made n (some m) e k h =
      with_strategy-Made n m e (parse_retry_strategy m.retry_strategy) refl k h

  normalized_node-none :
      (n : WorkflowNode) (o : Option ToolMetadata)
      → get n.tool_name validator.registry ≡ o
      → normalized_node validator role allowed n o ≡ none
      → ¬ HasStrategy n
  unfolding normalized_node classify_risk
  normalized_node-none n none e h has = ground (arith, h)
  normalized_node-none n (some m) e h has =
      has m e (refused (parse_retry_strategy m.retry_strategy) h)
    where
      refused : (o : Option RetryStrategy) → with_strategy n m o ≡ none → o ≡ none
      refused none i = refl
      refused (some strategy) i = absurd (ground (arith, i))

  -- what the loop makes of the nodes
  abbrev pub Normal : List WorkflowNode → Option (List WorkflowNode) → Type 0
  Normal ns none = ¬ All HasStrategy ns
  Normal ns (some ks) = Pairwise Made ns ks

  pub normalized_nodes-Normal :
      (ns : List WorkflowNode) → Normal ns (normalized_nodes validator role allowed ns)
  unfolding normalized_nodes
  normalized_nodes-Normal [] = tt
  normalized_nodes-Normal (n ∷ ns) =
      join (normalized_node validator role allowed n (get n.tool_name validator.registry)) refl
        (normalized_nodes validator role allowed ns) (normalized_nodes-Normal ns)
    where
      join :
          (o : Option WorkflowNode)
          → normalized_node validator role allowed n (get n.tool_name validator.registry) ≡ o
          → (p : Option (List WorkflowNode)) → Normal ns p
          → Normal (n ∷ ns) (with_node validator role allowed o p)
      join none e p h =
          λ all. normalized_node-none n (get n.tool_name validator.registry) refl e all.0
      join (some k) e none h = λ all. h all.1
      join (some k) e (some ks) h =
          (normalized_node-Made n (get n.tool_name validator.registry) refl k e, h)

  pub Pairwise-All :
      (ns ks : List WorkflowNode) → Pairwise Made ns ks → Pairwise Kept ns ks × All IsGoverned ks
  Pairwise-All [] [] h = (tt, tt)
  Pairwise-All [] (k ∷ ks) h = absurd h
  Pairwise-All (n ∷ ns) [] h = absurd h
  Pairwise-All (n ∷ ns) (k ∷ ks) h =
      let (kept, all) = Pairwise-All ns ks h.1 in ((h.0.0, kept), (h.0.1, all))

-- The graph of the nodes that are made is the plan's.
add_nodes-Kept :
    (ns ks : List WorkflowNode) (id : Uuid) (graph : Graph)
    → Pairwise Kept ns ks
    → add_nodes (map (with_workflow id) ks) graph ≡ add_nodes ns graph
unfolding add_nodes
add_nodes-Kept [] [] id graph h = refl
add_nodes-Kept [] (k ∷ ks) id graph h = absurd h
add_nodes-Kept (n ∷ ns) [] id graph h = absurd h
add_nodes-Kept (n ∷ ns) (k ∷ ks) id graph h =
    cc (add_nodes-Kept ns ks id (put k.id k.depends_on graph) h.1, h.0.0, h.0.1)

pub validate_acyclic-Kept :
    (ns ks : List WorkflowNode) (edges : List WorkflowEdge) (id : Uuid)
    → Pairwise Kept ns ks
    → validate_acyclic (map (with_workflow id) ks) edges ≡ validate_acyclic ns edges
unfolding validate_acyclic graph_of
validate_acyclic-Kept ns ks edges id h = cc (add_nodes-Kept ns ks id [] h)
