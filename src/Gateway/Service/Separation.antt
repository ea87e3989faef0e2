-- ===== src/Gateway/Service/Separation.antt =====
-- services/mcp-gateway/src/mcp_ops_mcp_gateway/service.py: what `approve_operation` needs and does.
use mcp_ai.Prelude.{
  ℕ, ◌+◌, ◌<◌, ◌≡◌, sym, subst, String, true, Option, none, some, inl, inr, Option-cases, arith,
  eq_refl, string_eq,
}
use mcp_ai.Prelude.Dict.{get, get-put}
use mcp_ai.Prelude.Exec.{Result, ok, err, handle}
use mcp_ai.Gateway.Errors.{Raised}
use mcp_ai.Gateway.Models.{Uuid, Principal, pending, approved, ApprovalRecord, GatewayToolResponse}
use mcp_ai.Gateway.Authorizer.{authenticate, authorize_approval}
use mcp_ai.Gateway.Authorizer.Approver.{MayDecide, authorize_approval_exactly}
use mcp_ai.Gateway.Approvals
use mcp_ai.Gateway.Approvals.{ApprovalStore}
use mcp_ai.Gateway.Approvals.Effects.{IsKeyed}
use mcp_ai.Gateway.Service.{Environment, Gateway}
use mcp_ai.Gateway.Service.Operations.{or_denied, decidable, grant, approve_operation}

module _ (env : Environment) where
  get-stored :
      (s : ApprovalStore) (k : Uuid) (at : ℕ) (a : ApprovalRecord)
      → (Approvals.get env.uuid4 k at s).0 ≡ ok a
      → (get k s.approvals ≡ some a) × ((Approvals.get env.uuid4 k at s).1.approvals ≡ s.approvals)
  unfolding Approvals.get
  get-stored s k at a h = elim (Option-cases (get k s.approvals)) [
    | inl e ↦ ground (arith, e)
    | inr (b, e) ↦ ground (arith, e)
  ]

  decidable-ok :
      (token : String) (k : Uuid) (at : ℕ) (g : Gateway) (p : Principal) (a : ApprovalRecord)
      → (decidable env token k at g).0 ≡ ok (p, a)
      → (authenticate g.principals token ≡ ok p)
        × ((Approvals.get env.uuid4 k at g.approvals).0 ≡ ok a)
        × (authorize_approval p a ≡ ok tt)
        × ((decidable env token k at g).1.approvals ≡ (Approvals.get env.uuid4 k at g.approvals).1)
  unfolding decidable
  decidable-ok token k at g p a h = ground arith

  approve-ok :
      (s : ApprovalStore) (k : Uuid) (p : Principal) (at : ℕ) (b : ApprovalRecord)
      → (Approvals.approve env.uuid4 k p at s).0 ≡ ok b
      → (a : ApprovalRecord) × (get k s.approvals ≡ some a)
        × (a.status ≡ pending)
        × (at < a.expires_at)
        × (get a.approval_id (Approvals.approve env.uuid4 k p at s).1.approvals ≡ some b)
        × (b.status ≡ approved)
        × (b.approved_by ≡ some p.principal_id)
  unfolding Approvals.approve
  approve-ok s k p at b h = elim (Option-cases (get k s.approvals)) [
    | inl e ↦ ground (arith, e)
    | inr (a, e) ↦ (
      a,
      e,
      ground (arith, e),
      ground (arith, e),
      ground (arith, e, eq_refl a.approval_id, get-put a.approval_id a.approval_id b s.approvals),
      ground (arith, e),
      ground (arith, e),
    )
  ]

  grant-ok :
      (token : String) (k : Uuid) (at : ℕ) (g : Gateway) (r : GatewayToolResponse)
      → (grant env token k at g).0 ≡ ok r
      → (p : Principal) × (a : ApprovalRecord) × (b : ApprovalRecord) × ((decidable env token k at
            g).0
          ≡ ok (p, a))
        × ((Approvals.approve env.uuid4 a.approval_id p at
              (decidable env token k at g).1.approvals).0
            ≡ ok b)
        × ((grant env token k at g).1.approvals
            ≡ (Approvals.approve env.uuid4 a.approval_id p at
                (decidable env token k at g).1.approvals).1)
  unfolding grant
  grant-ok token k at g r h = ground arith

  answered-ok :
      (k : Uuid) (x : Result Raised GatewayToolResponse) (g : Gateway) (r : GatewayToolResponse)
      → (handle x (or_denied k) g).0 ≡ ok r
      → r.ok ≡ true
      → (x ≡ ok r) × ((handle x (or_denied k) g).1 ≡ g)
  unfolding or_denied
  answered-ok k (ok y) g r h good = ground arith
  answered-ok k (err e) g r h good = ground arith

  abbrev pub IsApprovedBy : Principal → Option ApprovalRecord → Type 0
  IsApprovedBy p none = ⊥
  IsApprovedBy p (some b) = (b.status ≡ approved) × (b.approved_by ≡ some p.principal_id)

  -- Where every stored approval stands under its own identifier, `approve_operation` answers ok only
  -- if the token is that of a principal who may decide the approval of that identifier (an
  -- administrator, no AI agent and not the requester), and the approval is pending and has not
  -- reached its expiry; the store then holds it approved, by that principal.
  pub approve_operation_separates :
      (g : Gateway) (token : String) (k : Uuid) (r : GatewayToolResponse)
      → IsKeyed g.approvals
      → (approve_operation env token k g).0 ≡ ok r
      → r.ok ≡ true
      → (p : Principal) × (a : ApprovalRecord) × (authenticate g.principals token ≡ ok p)
        × (get k g.approvals.approvals ≡ some a)
        × MayDecide p a
        × (a.status ≡ pending)
        × (env.clock g.ticks < a.expires_at)
        × IsApprovedBy p (get k (approve_operation env token k g).1.approvals.approvals)
  unfolding approve_operation
  approve_operation_separates g token k r keyed h good =
      let at = env.clock g.ticks in
      let g' : Gateway = record g { ticks = g.ticks + 1 } in
      let answered = grant env token k at g' in
      let (granted, same) = answered-ok k answered.0 answered.1 r h good in
      let (p, a, b, decided, approval, after) = grant-ok token k at g' r granted in
      let (authentic, got, authorized, left) = decidable-ok token k at g' p a decided in
      let (stored, kept) = get-stored g.approvals k at a got in
      let (c, found, is_pending, in_time, held, status, by) =
        approve-ok (decidable env token k at g').1.approvals a.approval_id p at b approval in
      let id : a.approval_id ≡ k = keyed k a stored in
      let one : c ≡ a = ground (arith, found, left, kept, id, stored) in
      let now_held : get k (approve_operation env token k g).1.approvals.approvals ≡ some b =
        cc (same, after, held, one, id) in
      (
        p,
        a,
        authentic,
        stored,
        (authorize_approval_exactly p a).0 authorized,
        cc (one, is_pending),
        rw (sym one) in_time,
        subst (IsApprovedBy p) (sym now_held) (status, by),
      )
