-- ===== src/Gateway/Approvals/Invariant.antt =====
-- The invariant of the store, and that every method keeps it.
use mcp_ai.Prelude.{
  ℕ, ◌≤◌, ◌<◌, ◌≡◌, refl, String, Bool, true, false, Option, none, some, inl, inr, if◌then◌else◌,
  string_eq, Option-cases, arith, eq_iff,
}
use mathlib.Core.Option
use mcp_ai.Prelude.Dict.{Dict, get-put, put-IsDistinct, IsDistinct, get as dict_get}
use mcp_ai.Value.{Value}
use mcp_ai.Registry.{RiskLevel}
use mcp_ai.Gateway.Models.{
  Uuid, ApprovalStatus, pending, approved, executed, Principal, ApprovalRecord,
}
use mcp_ai.Gateway.Approvals.{
  ApprovalStore, create, detail, get, approve, reject, expire_pending, mark_executed, mark_failed,
}
use mcp_ai.Gateway.Approvals.Effects.{
  IsKeyed, detail-Updates, get-Updates, approve-Updates, reject-Updates, mark_executed-Updates,
  mark_failed-Updates,
}
use mcp_ai.Gateway.Approvals.Sweep.{
  expire_pending-get, expire_pending-events, expire_pending-kept, list_approvals-store,
}
use mcp_ai.Gateway.Approvals.Trail.{events_of, events_of-snoc}
use mcp_ai.Gateway.Approvals.History.{
  Operation, create', detail', get', list_approvals', approve', reject', expire_pending',
  mark_executed', mark_failed', perform, effect,
}

abbrev pub is_executed : ApprovalStatus → Bool
is_executed executed = true
is_executed _ = false

abbrev pub executions : Option ApprovalRecord → ℕ
executions none = 0
executions (some a) = if is_executed a.status then 1 else 0

abbrev pub granted_by : Option String → ℕ
granted_by none = 0
granted_by (some _) = 1

abbrev pub grants : Option ApprovalRecord → ℕ
grants none = 0
grants (some a) = granted_by a.approved_by

-- how the status and the approver go together
abbrev pub Standing : ApprovalStatus → Option String → Type 0
Standing pending by = granted_by by ≡ 0
Standing approved by = granted_by by ≡ 1
Standing executed by = granted_by by ≡ 1
Standing _ by = Unit

-- the trail has as many executions and grants of `k` as its record shows
pub record IsCounted (s : ApprovalStore) (k : Uuid) : Type 0 where
  pub executed_events :
      events_of "approval.executed" k s.events ≡ executions (dict_get k s.approvals)
  pub granted_events : events_of "approval.approved" k s.events ≡ grants (dict_get k s.approvals)

module _ (uuid4 : ℕ → Uuid) where
  pub record Inv (s : ApprovalStore) : Type 0 where
    pub keyed : IsKeyed s
    pub distinct : IsDistinct s.approvals
    pub given :
        (k : Uuid) (a : ApprovalRecord)
        → dict_get k s.approvals ≡ some a
        → (i : ℕ) × (i < s.drawn) × (uuid4 i ≡ k)
    pub counted : (k : Uuid) → IsCounted s k
    pub standing :
        (k : Uuid) (a : ApprovalRecord)
        → dict_get k s.approvals ≡ some a
        → Standing a.status a.approved_by

  abbrev pub IsCreate : Operation → Type 0
  IsCreate (create' _ _ _ _ _ _ _ _ _) = Unit
  IsCreate _ = ⊥

  -- Every call but `create` changes a record by its effect, and adds none.
  pub perform-get :
      (o : Operation) (s : ApprovalStore) (j : Uuid)
      → Inv s
      → ¬ IsCreate o
      → dict_get j (perform uuid4 o s).approvals ≡ Option.map (effect o j) (dict_get j s.approvals)
  perform-get (create' _ _ _ _ _ _ _ _ _) s j v n = absurd (n tt)
  perform-get (list_approvals' now status) s j v n =
      rw (list_approvals-store uuid4 now status s)
        (expire_pending-get uuid4 now s j v.distinct v.keyed)
  perform-get (detail' k now) s j v n = ground (arith, detail-Updates uuid4 s v.keyed k now j)
  perform-get (get' k now) s j v n = ground (arith, get-Updates uuid4 s v.keyed k now j)
  perform-get (approve' k by now) s j v n =
      ground (arith, approve-Updates uuid4 s v.keyed k by now j)
  perform-get (reject' k by reason now) s j v n =
      ground (arith, reject-Updates uuid4 s v.keyed k by reason now j)
  perform-get (expire_pending' now) s j v n = expire_pending-get uuid4 now s j v.distinct v.keyed
  perform-get (mark_executed' c by now result) s j v n =
      ground (arith, mark_executed-Updates uuid4 s v.keyed c by now result j)
  perform-get (mark_failed' c by now reason) s j v n =
      ground (arith, mark_failed-Updates uuid4 s v.keyed c by now reason j)

  -- The forms keep the identifier, and the approver in step with the status.
  pub effect-keeps :
      (o : Operation) (j : Uuid) (a : ApprovalRecord)
      → ((effect o j a).approval_id ≡ a.approval_id)
        × (Standing a.status a.approved_by
            → Standing (effect o j a).status (effect o j a).approved_by)
  effect-keeps (create' _ _ _ _ _ _ _ _ _) j a = (refl, λ h. h)
  effect-keeps _ j a = ground arith

  -- The parts of the invariant that no record shows.
  pub perform-kept :
      (o : Operation) (s : ApprovalStore)
      → IsDistinct s.approvals
      → IsDistinct (perform uuid4 o s).approvals × (s.drawn ≤ (perform uuid4 o s).drawn)
  unfolding create detail get approve reject mark_executed mark_failed
  perform-kept (list_approvals' now status) s d =
      rw (list_approvals-store uuid4 now status s) (expire_pending-kept uuid4 now s d)
  perform-kept (expire_pending' now) s d = expire_pending-kept uuid4 now s d
  perform-kept _ s d = grind (arith, put-IsDistinct)

  module _ (s : ApprovalStore) (j : Uuid) where
    sweep-IsCounted : (now : ℕ) → Inv s → IsCounted s j → IsCounted (expire_pending uuid4 now s).1 j
    sweep-IsCounted now v c = ground (
      arith,
      expire_pending-get uuid4 now s j v.distinct v.keyed,
      expire_pending-events uuid4 now s "approval.executed" j refl,
      expire_pending-events uuid4 now s "approval.approved" j refl,
    )

    detail-IsCounted :
        (k : Uuid) (now : ℕ) → Inv s → IsCounted s j → IsCounted (detail uuid4 k now s).1 j
    unfolding detail
    detail-IsCounted k now v c = elim (Option-cases (dict_get k s.approvals)) [
      | inl e ↦ ground (arith, e)
      | inr (a, e) ↦ grind (
        arith,
        eq_iff k j,
        e,
        v.keyed k a e,
        v.standing k a e,
        detail-Updates uuid4 s v.keyed k now j,
        events_of-snoc,
      )
    ]

    get-IsCounted : (k : Uuid) (now : ℕ) → Inv s → IsCounted s j → IsCounted (get uuid4 k now s).1 j
    unfolding get
    get-IsCounted k now v c = elim (Option-cases (dict_get k s.approvals)) [
      | inl e ↦ ground (arith, e)
      | inr (a, e) ↦ grind (
        arith,
        eq_iff k j,
        e,
        v.keyed k a e,
        v.standing k a e,
        get-Updates uuid4 s v.keyed k now j,
        events_of-snoc,
      )
    ]

    approve-IsCounted :
        (k : Uuid) (by : Principal) (now : ℕ)
        → Inv s
        → IsCounted s j
        → IsCounted (approve uuid4 k by now s).1 j
    unfolding approve
    approve-IsCounted k by now v c = elim (Option-cases (dict_get k s.approvals)) [
      | inl e ↦ ground (arith, e)
      | inr (a, e) ↦ grind (
        arith,
        eq_iff k j,
        e,
        v.keyed k a e,
        v.standing k a e,
        approve-Updates uuid4 s v.keyed k by now j,
        events_of-snoc,
      )
    ]

    reject-IsCounted :
        (k : Uuid) (by : Principal) (reason : String) (now : ℕ)
        → Inv s
        → IsCounted s j
        → IsCounted (reject uuid4 k by reason now s).1 j
    unfolding reject
    reject-IsCounted k by reason now v c = elim (Option-cases (dict_get k s.approvals)) [
      | inl e ↦ ground (arith, e)
      | inr (a, e) ↦ grind (
        arith,
        eq_iff k j,
        e,
        v.keyed k a e,
        v.standing k a e,
        reject-Updates uuid4 s v.keyed k by reason now j,
        events_of-snoc,
      )
    ]

    mark_executed-IsCounted :
        (b : ApprovalRecord) (by : Principal) (now : ℕ) (result : Dict String Value)
        → Inv s
        → IsCounted s j
        → IsCounted (mark_executed uuid4 b by now result s).1 j
    unfolding mark_executed
    mark_executed-IsCounted b by now result v c =
        elim (Option-cases (dict_get b.approval_id s.approvals)) [
          | inl e ↦ ground (arith, e)
          | inr (a, e) ↦ grind (
            arith,
            eq_iff b.approval_id j,
            e,
            v.keyed b.approval_id a e,
            v.standing b.approval_id a e,
            mark_executed-Updates uuid4 s v.keyed b by now result j,
            events_of-snoc,
          )
        ]

    mark_failed-IsCounted :
        (b : ApprovalRecord) (by : Principal) (now : ℕ) (reason : String)
        → Inv s
        → IsCounted s j
        → IsCounted (mark_failed uuid4 b by now reason s).1 j
    unfolding mark_failed
    mark_failed-IsCounted b by now reason v c =
        elim (Option-cases (dict_get b.approval_id s.approvals)) [
          | inl e ↦ ground (arith, e)
          | inr (a, e) ↦ grind (
            arith,
            eq_iff b.approval_id j,
            e,
            v.keyed b.approval_id a e,
            v.standing b.approval_id a e,
            mark_failed-Updates uuid4 s v.keyed b by now reason j,
            events_of-snoc,
          )
        ]

    -- A new record has no grant and no execution, and neither had its identifier before.
    create-IsCounted :
        (p : Principal) (tool : String) (arguments : Dict String Value) (risk : RiskLevel) (now : ℕ)
        (w n h b : Option String)
        → dict_get (uuid4 s.drawn) s.approvals ≡ none
        → Inv s
        → IsCounted s j
        → IsCounted (create uuid4 p tool arguments risk now w n h b s).1 j
    unfolding create
    create-IsCounted p tool arguments risk now w n h b fresh v c =
        grind (arith, eq_iff (uuid4 s.drawn) j, fresh, get-put, events_of-snoc)

  pub perform-IsCounted :
      (o : Operation) (s : ApprovalStore) (j : Uuid)
      → dict_get (uuid4 s.drawn) s.approvals ≡ none
      → Inv s
      → IsCounted (perform uuid4 o s) j
  perform-IsCounted (create' p t r x now w n h b) s j fresh v =
      create-IsCounted s j p t r x now w n h b fresh v (v.counted j)
  perform-IsCounted (list_approvals' now status) s j fresh v =
      rw (list_approvals-store uuid4 now status s) (sweep-IsCounted s j now v (v.counted j))
  perform-IsCounted (detail' k now) s j fresh v = detail-IsCounted s j k now v (v.counted j)
  perform-IsCounted (get' k now) s j fresh v = get-IsCounted s j k now v (v.counted j)
  perform-IsCounted (approve' k by now) s j fresh v = approve-IsCounted s j k by now v (v.counted j)
  perform-IsCounted (reject' k by reason now) s j fresh v =
      reject-IsCounted s j k by reason now v (v.counted j)
  perform-IsCounted (expire_pending' now) s j fresh v = sweep-IsCounted s j now v (v.counted j)
  perform-IsCounted (mark_executed' b by now result) s j fresh v =
      mark_executed-IsCounted s j b by now result v (v.counted j)
  perform-IsCounted (mark_failed' b by now reason) s j fresh v =
      mark_failed-IsCounted s j b by now reason v (v.counted j)
