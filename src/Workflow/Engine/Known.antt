-- ===== src/Workflow/Engine/Known.antt =====
-- services/ai-agent/src/mcp_ops_ai_agent/workflows/service.py: `nodes_by_id`, which has every node of
-- the workflow.
use mcp_ai.Prelude.{
  String, some, List, [], ◌∷◌, ◌≡◌, refl, sym, ap, ◌∙◌, subst, inl, inr, string_eq, eq_iff, ◌==◌,
  All, Bool-cases, map, if◌then◌else◌,
}
use mcp_ai.Prelude.Dict.{Dict, get, put, get-put, beq_refl}
use mcp_ai.Prelude.Exec.{ok}
use mcp_ai.Workflow.Models.{WorkflowNode}
use mcp_ai.Workflow.Order.{keyed_onto, by_id}
use mcp_ai.Workflow.Engine.{current_nodes, looked_up}

pub get-put-same :
    {V : Type 0} (k : String) (v : V) (d : Dict String V) → get k (put k v d) ≡ some v
get-put-same k v d = get-put k k v d ∙ ap (λ b. if b then some v else get k d) (beq_refl k)

-- a dictionary of nodes has this one, under its own identifier
abbrev pub Found : Dict String WorkflowNode → String → Type 0
Found d k = (m : WorkflowNode) × (get k d ≡ some m) × (m.id ≡ k)

put-Found :
    (n : WorkflowNode) (d : Dict String WorkflowNode) (k : String)
    → Found d k
    → Found (put n.id n d) k
put-Found n d k (m, e, own) = elim (Bool-cases (n.id == k)) [
  | inl same ↦
      (n, get-put n.id k n d ∙ ap (λ b. if b then some n else get k d) same, (eq_iff n.id k).0 same)
  | inr other ↦ (m, get-put n.id k n d ∙ ap (λ b. if b then some n else get k d) other ∙ e, own)
]

pub put-All-Found :
    (n : WorkflowNode) (d : Dict String WorkflowNode) (ks : List String)
    → All (Found d) ks
    → All (Found (put n.id n d)) ks
put-All-Found n d [] h = tt
put-All-Found n d (k ∷ ks) h = (put-Found n d k h.0, put-All-Found n d ks h.1)

abbrev pub ids : List WorkflowNode → List String
ids ns = map (λ n. n.id) ns

pub current_nodes-Found :
    (d : Dict String WorkflowNode) (ns : List WorkflowNode)
    → All (Found d) (ids ns)
    → (ms : List WorkflowNode) × (current_nodes d ns ≡ ok ms) × (ids ms ≡ ids ns)
unfolding current_nodes looked_up
current_nodes-Found d [] h = ([], refl, refl)
current_nodes-Found d (n ∷ ns) h =
    let (m, e, own) = h.0 in
    let (ms, es, owns) = current_nodes-Found d ns h.1 in
    (
      m ∷ ms,
      subst (λ o. looked_up n o (current_nodes d ns) ≡ ok (m ∷ ms)) (sym e)
          (subst (λ x. looked_up n (some m) x ≡ ok (m ∷ ms)) (sym es) refl),
      cc (own, owns),
    )

keyed_onto-Found :
    (ns : List WorkflowNode) (d : Dict String WorkflowNode) (k : String)
    → Found d k
    → Found (keyed_onto d ns) k
unfolding keyed_onto
keyed_onto-Found [] d k h = h
keyed_onto-Found (n ∷ ns) d k h = keyed_onto-Found ns (put n.id n d) k (put-Found n d k h)

keyed_onto-All-Found :
    (ns : List WorkflowNode) (d : Dict String WorkflowNode) → All (Found (keyed_onto d ns)) (ids ns)
unfolding keyed_onto
keyed_onto-All-Found [] d = tt
keyed_onto-All-Found (n ∷ ns) d = (
  keyed_onto-Found ns (put n.id n d) n.id (n, get-put-same n.id n d, refl),
  keyed_onto-All-Found ns (put n.id n d),
)

pub by_id-Found : (ns : List WorkflowNode) → All (Found (by_id ns)) (ids ns)
unfolding by_id
by_id-Found ns = keyed_onto-All-Found ns []
