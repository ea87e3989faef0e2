-- ===== src/Gateway/Approvals/Outcomes.antt =====
-- When the methods of ApprovalStore return, what they return, and what the store then holds.
use mcp_ai.Prelude.{
  ℕ, ◌+◌, ◌<◌, ◌≡◌, ◌↔◌, refl, String, Option, none, some, inl, inr, string_eq, Option-cases,
  Bool-cases, true, false, ◌&&◌, leb, arith,
}
use mcp_ai.Prelude.Exec.{Result, ok, err}
use mcp_ai.Prelude.Dict.{Dict, get as dict_get, get-put, beq_refl}
use mcp_ai.Value.{Value}
use mcp_ai.Gateway.Errors.{Raised}
use mcp_ai.Gateway.Models.{
  Uuid, pending, approved, executed, ApprovalStatus, is_pending, is_approved, is_expired, Principal,
  ApprovalRecord,
}
use mcp_ai.Gateway.Approvals.{ApprovalStore, approve, mark_executed}

abbrev pub IsOk : Result Raised ApprovalRecord → Type 0
IsOk (ok b) = Unit
IsOk (err e) = ⊥

is_pending-fresh : (s : ApprovalStatus) → is_pending s ≡ true → is_expired s ≡ false
is_pending-fresh s e = ground (arith, s)

-- a pending record whose time has not run out
abbrev pub IsOpen : ℕ → Option ApprovalRecord → Type 0
IsOpen now none = ⊥
IsOpen now (some a) = (a.status ≡ pending) × (now < a.expires_at)

abbrev pub granted_form : Principal → ℕ → ApprovalRecord → ApprovalRecord
granted_form by now a = record a {
  status = approved;
  approved_by = some by.principal_id;
  approved_at = some now;
  version = a.version + 1;
}

-- what is returned is made from the record that was there, and is stored under its identifier
abbrev pub Stores :
    (ApprovalRecord → ApprovalRecord)
    → Option ApprovalRecord
    → Result Raised ApprovalRecord × ApprovalStore
    → Type 0
Stores form o (err e, s) = Unit
Stores form o (ok b, s) =
    (a : ApprovalRecord) × (o ≡ some a)
    × (b ≡ form a)
    × (dict_get a.approval_id s.approvals ≡ some b)

-- `approve` returns exactly when the identifier names a pending approval that has not reached its
-- expiry. It then returns that record approved, with the approver, the time and the next version, and
-- the store holds what it returns under the record's identifier.
pub approve_exactly :
    (uuid4 : ℕ → Uuid) (s : ApprovalStore) (k : Uuid) (by : Principal) (now : ℕ)
    → (IsOk (approve uuid4 k by now s).0 ↔ IsOpen now (dict_get k s.approvals))
      × Stores (granted_form by now) (dict_get k s.approvals) (approve uuid4 k by now s)
unfolding approve
approve_exactly uuid4 s k by now = elim (Option-cases (dict_get k s.approvals)) [
  | inl e ↦ rw e ((ground arith), tt)
  | inr (a, e) ↦ rw e (elim (Bool-cases (is_pending a.status && leb a.expires_at now)) [
    | inl late ↦ rw late (ground (arith, late), tt)
    | inr due ↦ elim (Bool-cases (is_pending a.status)) [
      | inl waits ↦
          rw (due, is_pending-fresh a.status waits, waits)
            (ground (arith, due, waits), (a, refl, refl, simp (get-put, beq_refl)))
      | inr not_so ↦ elim (Bool-cases (is_expired a.status)) [
        | inl old ↦ rw (due, old) (ground (arith, not_so), tt)
        | inr fresh ↦ rw (due, fresh, not_so) (ground (arith, not_so), tt)
      ]
    ]
  ])
]

abbrev pub done_form : ℕ → Dict String Value → ApprovalRecord → ApprovalRecord
done_form now result a = record a {
  status = executed;
  executed_at = some now;
  execution_result = some result;
  version = a.version + 1;
}

abbrev pub IsApproved : Option ApprovalRecord → Type 0
IsApproved none = ⊥
IsApproved (some a) = a.status ≡ approved

-- `mark_executed` returns exactly when the store's record of that approval is approved, whatever
-- its expiry. It then returns that record executed, with the time, the result and the next version,
-- and the store holds what it returns under the record's identifier.
pub mark_executed_exactly :
    (uuid4 : ℕ → Uuid) (s : ApprovalStore) (c : ApprovalRecord) (by : Principal) (now : ℕ)
    (result : Dict String Value)
    → (IsOk (mark_executed uuid4 c by now result s).0
        ↔ IsApproved (dict_get c.approval_id s.approvals))
      × Stores
          (done_form now result)
          (dict_get c.approval_id s.approvals)
          (mark_executed uuid4 c by now result s)
unfolding mark_executed
mark_executed_exactly uuid4 s c by now result =
    elim (Option-cases (dict_get c.approval_id s.approvals)) [
      | inl e ↦ rw e ((ground arith), tt)
      | inr (a, e) ↦ rw e (elim (Bool-cases (is_pending a.status && leb a.expires_at now)) [
        | inl late ↦ rw late (ground (arith, late), tt)
        | inr due ↦ elim (Bool-cases (is_expired a.status)) [
          | inl old ↦ rw (due, old) (ground (arith, old), tt)
          | inr fresh ↦ elim (Bool-cases (is_approved a.status)) [
            | inl fits ↦
                rw (due, fresh, fits)
                  (ground (arith, fits), (a, refl, refl, simp (get-put, beq_refl)))
            | inr not_so ↦ rw (due, fresh, not_so) (ground (arith, not_so), tt)
          ]
        ]
      ])
    ]
