-- ===== src/Gateway/Approvals/Trail.antt =====
-- The transition events of one approval, counted by their type.
use mcp_ai.Prelude.{
  ℕ, ◌+◌, ◌≡◌, String, List, [], ◌∷◌, ◌++◌, ◌&&◌, ◌==◌, if◌then◌else◌, string_eq, arith,
}
use mcp_ai.Gateway.Models.{Uuid, ApprovalEvent}

unfoldable pub events_of : String → Uuid → List ApprovalEvent → ℕ
events_of kind k [] = 0
events_of kind k (e ∷ es) =
    (if e.event_type == kind && e.approval_id == k then 1 else 0) + events_of kind k es

pub events_of-snoc :
    (kind : String) (k : Uuid) (es : List ApprovalEvent) (e : ApprovalEvent)
    → events_of kind k (es ++ e ∷ [])
      ≡ events_of kind k es + (if e.event_type == kind && e.approval_id == k then 1 else 0)
unfolding events_of
events_of-snoc kind k [] e = omega arith
events_of-snoc kind k (x ∷ es) e = omega (arith, events_of-snoc kind k es e)
