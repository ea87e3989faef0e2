-- ===== src/Gateway/Approvals/Effects.antt =====
-- What each method of ApprovalStore does to the record that it names, as a function of that record,
-- and that it leaves every other record alone.
use mcp_ai.Prelude.{
  ℕ, ◌+◌, ◌<◌, ◌≡◌, refl, String, Option, none, some, inl, inr, leb, ◌&&◌, ◌||◌, ◌==◌,
  if◌then◌else◌, string_eq, Option-cases, arith, eq_iff,
}
use mathlib.Core.Option
use mcp_ai.Registry.{RiskLevel}
use mcp_ai.Prelude.Dict.{Dict, get-put, get as dict_get}
use mcp_ai.Value.{Value}
use mcp_ai.Gateway.Models.{
  Uuid, pending, approved, rejected, expired, executed, failed, is_pending, is_approved, Principal,
  ApprovalRecord,
}
use mcp_ai.Gateway.Approvals.{
  ApprovalStore, create, detail, get, approve, reject, mark_executed, mark_failed,
}

-- the record after `_expire_if_needed`
abbrev pub expired_form : ℕ → ApprovalRecord → ApprovalRecord
expired_form now a =
    if is_pending a.status && leb a.expires_at now
    then record a { status = expired; version = a.version + 1 }
    else a

abbrev pub approved_form : Principal → ℕ → ApprovalRecord → ApprovalRecord
approved_form by now a =
    let b = expired_form now a in
    if is_pending b.status
    then record b {
      status = approved;
      approved_by = some by.principal_id;
      approved_at = some now;
      version = b.version + 1;
    }
    else b

abbrev pub rejected_form : Principal → String → ℕ → ApprovalRecord → ApprovalRecord
rejected_form by reason now a =
    let b = expired_form now a in
    if is_pending b.status
    then record b {
      status = rejected;
      rejected_by = some by.principal_id;
      rejected_at = some now;
      failure_reason = some reason;
      version = b.version + 1;
    }
    else b

abbrev pub executed_form : ℕ → Dict String Value → ApprovalRecord → ApprovalRecord
executed_form now result a =
    let b = expired_form now a in
    if is_approved b.status
    then record b {
      status = executed;
      executed_at = some now;
      execution_result = some result;
      version = b.version + 1;
    }
    else b

abbrev pub failed_form : String → ApprovalRecord → ApprovalRecord
failed_form reason a =
    if is_approved a.status || is_pending a.status
    then record a { status = failed; failure_reason = some reason; version = a.version + 1 }
    else a

-- Only the record of `k` differs, and it is changed by `f`.
abbrev pub Updates :
    Uuid → (ApprovalRecord → ApprovalRecord) → ApprovalStore → ApprovalStore → Type 0
Updates k f s t =
    (j : Uuid)
    → dict_get j t.approvals
      ≡ (if k == j then Option.map f (dict_get j s.approvals) else dict_get j s.approvals)

-- Each record stands under its own identifier.
abbrev pub IsKeyed : ApprovalStore → Type 0
IsKeyed s = (k : Uuid) (a : ApprovalRecord) → dict_get k s.approvals ≡ some a → a.approval_id ≡ k

module _ (uuid4 : ℕ → Uuid) (s : ApprovalStore) (keyed : IsKeyed s) where
  pub detail-Updates :
      (k : Uuid) (now : ℕ) → Updates k (expired_form now) s (detail uuid4 k now s).1
  unfolding detail
  detail-Updates k now j = elim (Option-cases (dict_get k s.approvals)) [
    | inl e ↦ ground (arith, eq_iff k j, e)
    | inr (a, e) ↦
        ground (arith, eq_iff k j, e, keyed k a e, get-put k j (expired_form now a) s.approvals)
  ]

  pub get-Updates : (k : Uuid) (now : ℕ) → Updates k (expired_form now) s (get uuid4 k now s).1
  unfolding get
  get-Updates k now j = elim (Option-cases (dict_get k s.approvals)) [
    | inl e ↦ ground (arith, eq_iff k j, e)
    | inr (a, e) ↦
        ground (arith, eq_iff k j, e, keyed k a e, get-put k j (expired_form now a) s.approvals)
  ]

  pub approve-Updates :
      (k : Uuid) (by : Principal) (now : ℕ)
      → Updates k (approved_form by now) s (approve uuid4 k by now s).1
  unfolding approve
  approve-Updates k by now j = elim (Option-cases (dict_get k s.approvals)) [
    | inl e ↦ ground (arith, eq_iff k j, e)
    | inr (a, e) ↦
        ground (arith, eq_iff k j, e, keyed k a e, get-put k j (approved_form by now a) s.approvals)
  ]

  pub reject-Updates :
      (k : Uuid) (by : Principal) (reason : String) (now : ℕ)
      → Updates k (rejected_form by reason now) s (reject uuid4 k by reason now s).1
  unfolding reject
  reject-Updates k by reason now j = elim (Option-cases (dict_get k s.approvals)) [
    | inl e ↦ ground (arith, eq_iff k j, e)
    | inr (a, e) ↦
        ground (
          arith,
          eq_iff k j,
          e,
          keyed k a e,
          get-put k j (rejected_form by reason now a) s.approvals,
        )
  ]

  pub mark_executed-Updates :
      (c : ApprovalRecord) (by : Principal) (now : ℕ) (result : Dict String Value)
      → Updates c.approval_id (executed_form now result) s (mark_executed uuid4 c by now result s).1
  unfolding mark_executed
  mark_executed-Updates c by now result j =
      elim (Option-cases (dict_get c.approval_id s.approvals)) [
        | inl e ↦ ground (arith, eq_iff c.approval_id j, e)
        | inr (a, e) ↦ ground (
          arith,
          eq_iff c.approval_id j,
          e,
          keyed c.approval_id a e,
          get-put c.approval_id j (executed_form now result a) s.approvals,
        )
      ]

  pub mark_failed-Updates :
      (c : ApprovalRecord) (by : Principal) (now : ℕ) (reason : String)
      → Updates c.approval_id (failed_form reason) s (mark_failed uuid4 c by now reason s).1
  unfolding mark_failed
  mark_failed-Updates c by now reason j = elim (Option-cases (dict_get c.approval_id s.approvals)) [
    | inl e ↦ ground (arith, eq_iff c.approval_id j, e)
    | inr (a, e) ↦ ground (
      arith,
      eq_iff c.approval_id j,
      e,
      keyed c.approval_id a e,
      get-put c.approval_id j (failed_form reason a) s.approvals,
    )
  ]

-- What `create` adds: a pending record under the next identifier of the supply.
pub create-get :
    (uuid4 : ℕ → Uuid) (s : ApprovalStore) (by : Principal) (tool : String)
    (arguments : Dict String Value) (risk : RiskLevel) (now : ℕ) (w n h b : Option String)
    → (a : ApprovalRecord) × (a.approval_id ≡ uuid4 s.drawn)
      × (a.status ≡ pending)
      × (a.approved_by ≡ none)
      × ((j : Uuid)
          → dict_get j (create uuid4 by tool arguments risk now w n h b s).1.approvals
            ≡ (if uuid4 s.drawn == j then some a else dict_get j s.approvals))
      × (s.drawn < (create uuid4 by tool arguments risk now w n h b s).1.drawn)
unfolding create
create-get uuid4 s by tool arguments risk now w n h b =
    (_, refl, refl, refl, λ j. get-put (uuid4 s.drawn) j _ s.approvals, omega arith)
