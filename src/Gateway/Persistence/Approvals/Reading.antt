-- ===== src/Gateway/Persistence/Approvals/Reading.antt =====
-- Reading an approval from the tables and from memory, with the expiry that this may write.
use mathlib.Core.Option
use mcp_ai.Prelude.{
  ℕ, ◌+◌, ◌≡◌, ◌∙◌, refl, sym, ap, Bool, true, false, none, some, [], ◌∷◌, ◌++◌, ◌==◌, leb, ◌&&◌,
  if◌then◌else◌, string_eq, eq_iff, Bool-cases, Option-cases, inl, inr,
}
use mcp_ai.Prelude.Dict.{get as dict_get, put}
use mcp_ai.Prelude.Exec.{Result, ok, err}
use mcp_ai.Auth.{admin}
use mcp_ai.Gateway.Errors.{Raised, raised, expired_approval}
use mcp_ai.Gateway.Models.{
  Uuid, service, expired, is_pending, is_expired, Principal, ApprovalRecord,
}
use mcp_ai.Gateway.Approvals as Memory
use mcp_ai.Gateway.Approvals.{ApprovalStore}
use mcp_ai.Gateway.Persistence.Table.{KeyedTable, Table}
use mcp_ai.Gateway.Persistence.Rows.{
  GatewayApprovalRow, GatewayApprovalEventRow, approval_row, event_row, pending-text,
  approval_record-row,
}
use mcp_ai.Gateway.Persistence.Approvals as Stored
use mcp_ai.Gateway.Persistence.Approvals.{ApprovalTables}
use mcp_ai.Gateway.Persistence.Approvals.Held.{Tables, Agrees, Holds, Alike, write-Agrees}

module _ (table : KeyedTable GatewayApprovalRow) (journal : Table GatewayApprovalEventRow)
    (id_factory uuid4 drawn_ids : ℕ → Uuid) where
  abbrev late_form : ApprovalRecord → ApprovalRecord
  late_form a = record a { status = expired; version = a.version + 1 }

  abbrev system : Principal
  system = record { principal_id = "system"; role = admin; principal_type = service }

  abbrev after_expiry :
      ℕ
      → ApprovalRecord
      → Tables table journal id_factory uuid4 drawn_ids
      → Tables table journal id_factory uuid4 drawn_ids
  after_expiry now a d = record d {
    approvals = table.merge a.approval_id (approval_row (late_form a)) d.approvals;
    events =
        journal.add (event_row (uuid4 d.event_ids) (late_form a) "approval.expired" system now)
          d.events;
    event_ids = d.event_ids + 1;
  }

  late_row :
      (a : ApprovalRecord)
      → record (approval_row a) { status = "EXPIRED"; version = (approval_row a).version + 1 }
        ≡ approval_row (late_form a)
  unfolding approval_row
  late_row a = refl

  id_row : (a : ApprovalRecord) → (approval_row a).approval_id ≡ a.approval_id
  unfolding approval_row
  id_row a = refl

  due_row :
      (now : ℕ) (a : ApprovalRecord)
      → ((approval_row a).status == "PENDING" && leb (approval_row a).expires_at now)
        ≡ (is_pending a.status && leb a.expires_at now)
  unfolding approval_row
  due_row now a = ap (λ b. b && leb a.expires_at now) (pending-text a.status)

  expire_row-late :
      (now : ℕ) (a : ApprovalRecord) (d : Tables table journal id_factory uuid4 drawn_ids)
      → Stored.expire_row table journal id_factory uuid4 (approval_row a) now d
        ≡ (ok tt, after_expiry now a d)
  unfolding Stored.expire_row approval_row
  expire_row-late now a d =
      rw (late_row a, approval_record-row (late_form a), id_row (late_form a)) refl

  expire_found-late :
      (k : Uuid) (now : ℕ) (a : ApprovalRecord)
      (d : Tables table journal id_factory uuid4 drawn_ids) (b : Bool)
      → (is_pending a.status && leb a.expires_at now) ≡ b
      → Stored.expire_found table journal id_factory uuid4 k now (some (approval_row a)) d
        ≡ (ok tt, if b then after_expiry now a d else d)
  unfolding Stored.expire_found
  expire_found-late k now a d true e = rw (due_row now a, e) (expire_row-late now a d)
  expire_found-late k now a d false e = rw (due_row now a, e) refl

  pub stored_record-row :
      (k : Uuid) (a : ApprovalRecord) (d : Tables table journal id_factory uuid4 drawn_ids)
      → table.find k d.approvals ≡ some (approval_row a)
      → Stored.stored_record table journal id_factory uuid4 k d ≡ (ok a, d)
  unfolding Stored.stored_record
  stored_record-row k a d e = rw (e, approval_record-row a) refl

  expire_if_needed-row :
      (k : Uuid) (now : ℕ) (a : ApprovalRecord)
      (d : Tables table journal id_factory uuid4 drawn_ids)
      → table.find k d.approvals ≡ some (approval_row a)
      → Stored.expire_if_needed table journal id_factory uuid4 k now d
        ≡ (ok tt, if is_pending a.status && leb a.expires_at now then after_expiry now a d else d)
  unfolding Stored.expire_if_needed
  expire_if_needed-row k now a d e =
      rw (e, expire_found-late k now a d (is_pending a.status && leb a.expires_at now) refl) refl

  found_late :
      (k : Uuid) (now : ℕ) (a : ApprovalRecord)
      (d : Tables table journal id_factory uuid4 drawn_ids)
      → a.approval_id ≡ k
      → table.find k (after_expiry now a d).approvals ≡ some (approval_row (late_form a))
  found_late k now a d e =
      table.find-merge a.approval_id k (approval_row (late_form a)) d.approvals
      ∙ ap (λ b. if b then some (approval_row (late_form a)) else table.find k d.approvals)
          ((eq_iff a.approval_id k).1 e)

  detail-row :
      (k : Uuid) (now : ℕ) (a : ApprovalRecord)
      (d : Tables table journal id_factory uuid4 drawn_ids) (b : Bool)
      → table.find k d.approvals ≡ some (approval_row a)
      → a.approval_id ≡ k
      → (is_pending a.status && leb a.expires_at now) ≡ b
      → Stored.detail table journal id_factory uuid4 k now d
        ≡ (if b then (ok (late_form a), after_expiry now a d) else (ok a, d))
  unfolding Stored.detail
  detail-row k now a d true e i late =
      rw (expire_if_needed-row k now a d e, late)
        (stored_record-row k (late_form a) (after_expiry now a d) (found_late k now a d i))
  detail-row k now a d false e i due =
      rw (expire_if_needed-row k now a d e, due) (stored_record-row k a d e)

  pub find-none :
      (k : Uuid) (s : ApprovalStore) (d : Tables table journal id_factory uuid4 drawn_ids)
      → Holds table journal id_factory uuid4 drawn_ids s d
      → dict_get k s.approvals ≡ none
      → table.find k d.approvals ≡ none
  find-none k s d h e = h.0.0 k ∙ ap (Option.map approval_row) e

  pub find-some :
      (k : Uuid) (a : ApprovalRecord) (s : ApprovalStore)
      (d : Tables table journal id_factory uuid4 drawn_ids)
      → Holds table journal id_factory uuid4 drawn_ids s d
      → dict_get k s.approvals ≡ some a
      → table.find k d.approvals ≡ some (approval_row a)
  find-some k a s d h e = h.0.0 k ∙ ap (Option.map approval_row) e

  -- what an expiry writes
  expiry-Agrees :
      (now : ℕ) (a : ApprovalRecord) (s : ApprovalStore)
      (d : Tables table journal id_factory uuid4 drawn_ids) (id : Uuid)
      → Holds table journal id_factory uuid4 drawn_ids s d
      → Agrees table journal id_factory uuid4 drawn_ids
          (put a.approval_id (late_form a) s.approvals)
          (s.events
            ++ record {
              event_id = id;
              approval_id = a.approval_id;
              event_type = "approval.expired";
              timestamp = now;
              actor_id = "system";
              status = expired;
              tool_name = a.tool_name;
            }
              ∷ [])
          (after_expiry now a d).approvals
          (after_expiry now a d).events
  unfolding event_row
  expiry-Agrees now a s d id h =
      write-Agrees table journal id_factory uuid4 drawn_ids s.approvals s.events d.approvals
        d.events (late_form a) _ (uuid4 d.event_ids) "approval.expired" system now refl h.0

  detail-case :
      (k : Uuid) (now : ℕ) (s : ApprovalStore) (d : Tables table journal id_factory uuid4 drawn_ids)
      (a : ApprovalRecord) (b : Bool)
      → Holds table journal id_factory uuid4 drawn_ids s d
      → dict_get k s.approvals ≡ some a
      → (is_pending a.status && leb a.expires_at now) ≡ b
      → Alike table journal id_factory uuid4 drawn_ids
          (Memory.detail drawn_ids k now s)
          (Stored.detail table journal id_factory uuid4 k now d)
  unfolding Memory.detail
  detail-case k now s d a true h e late =
      rw (detail-row k now a d true (find-some k a s d h e) (h.0.1 k a e) late, e, late)
        (refl, (expiry-Agrees now a s d (drawn_ids s.drawn) h, h.1))
  detail-case k now s d a false h e due =
      rw (detail-row k now a d false (find-some k a s d h e) (h.0.1 k a e) due, e, due) (refl, h)

  get-row :
      (k : Uuid) (now : ℕ) (a : ApprovalRecord)
      (d : Tables table journal id_factory uuid4 drawn_ids) (b : Bool)
      → table.find k d.approvals ≡ some (approval_row a)
      → a.approval_id ≡ k
      → (is_pending a.status && leb a.expires_at now) ≡ b
      → Stored.get table journal id_factory uuid4 k now d ≡ (
          if b
          then (err (raised expired_approval "Approval has expired."), after_expiry now a d)
          else if is_expired a.status
          then (err (raised expired_approval "Approval has expired."), d)
          else (ok a, d))
  unfolding Stored.get
  get-row k now a d true e i late =
      rw
        (
          expire_if_needed-row k now a d e,
          late,
          stored_record-row k (late_form a) (after_expiry now a d) (found_late k now a d i),
        )
        refl
  get-row k now a d false e i due = elim (Bool-cases (is_expired a.status)) [
    | inl old ↦ rw (expire_if_needed-row k now a d e, due, stored_record-row k a d e, old) refl
    | inr fresh ↦ rw (expire_if_needed-row k now a d e, due, stored_record-row k a d e, fresh) refl
  ]

  -- what `get` answers in both: an error, or the approval
  abbrev pub Opened :
      Uuid → ℕ → ApprovalStore → Tables table journal id_factory uuid4 drawn_ids → Type 0
  Opened k now s d =
      (r : Result Raised ApprovalRecord) × (s' : ApprovalStore) × (d' : Tables table journal
        id_factory uuid4 drawn_ids)
      × (Memory.get drawn_ids k now s ≡ (r, s'))
      × (Stored.get table journal id_factory uuid4 k now d ≡ (r, d'))
      × Holds table journal id_factory uuid4 drawn_ids s' d'

  get-case :
      (k : Uuid) (now : ℕ) (s : ApprovalStore) (d : Tables table journal id_factory uuid4 drawn_ids)
      (a : ApprovalRecord) (b : Bool)
      → Holds table journal id_factory uuid4 drawn_ids s d
      → dict_get k s.approvals ≡ some a
      → (is_pending a.status && leb a.expires_at now) ≡ b
      → Alike table journal id_factory uuid4 drawn_ids
          (Memory.get drawn_ids k now s)
          (Stored.get table journal id_factory uuid4 k now d)
  unfolding Memory.get
  get-case k now s d a true h e late =
      rw (get-row k now a d true (find-some k a s d h e) (h.0.1 k a e) late, e, late)
        (refl, (expiry-Agrees now a s d (drawn_ids s.drawn) h, h.1))
  get-case k now s d a false h e due =
      let row = get-row k now a d false (find-some k a s d h e) (h.0.1 k a e) due in
      elim (Bool-cases (is_expired a.status)) [
        | inl old ↦ rw (row, e, due, old) (refl, h)
        | inr fresh ↦ rw (row, e, due, fresh) (refl, h)
      ]

  pub get-Alike :
      (k : Uuid) (now : ℕ) (s : ApprovalStore) (d : Tables table journal id_factory uuid4 drawn_ids)
      → Holds table journal id_factory uuid4 drawn_ids s d
      → Alike table journal id_factory uuid4 drawn_ids
          (Memory.get drawn_ids k now s)
          (Stored.get table journal id_factory uuid4 k now d)
  unfolding Memory.get Stored.get Stored.expire_if_needed Stored.expire_found
  get-Alike k now s d h = elim (Option-cases (dict_get k s.approvals)) [
    | inl e ↦ rw (find-none k s d h e, e) (refl, h)
    | inr (a, e) ↦ get-case k now s d a (is_pending a.status && leb a.expires_at now) h e refl
  ]

  pub get-Opened :
      (k : Uuid) (now : ℕ) (s : ApprovalStore) (d : Tables table journal id_factory uuid4 drawn_ids)
      → Holds table journal id_factory uuid4 drawn_ids s d
      → Opened k now s d
  get-Opened k now s d h =
      let m = Memory.get drawn_ids k now s in
      let n = Stored.get table journal id_factory uuid4 k now d in
      let alike = get-Alike k now s d h in (m.0, m.1, n.1, refl, λ i. (sym alike.0 i, n.1), alike.1)

  pub detail-Alike :
      (k : Uuid) (now : ℕ) (s : ApprovalStore) (d : Tables table journal id_factory uuid4 drawn_ids)
      → Holds table journal id_factory uuid4 drawn_ids s d
      → Alike table journal id_factory uuid4 drawn_ids
          (Memory.detail drawn_ids k now s)
          (Stored.detail table journal id_factory uuid4 k now d)
  unfolding Memory.detail Stored.detail Stored.expire_if_needed Stored.expire_found
  detail-Alike k now s d h = elim (Option-cases (dict_get k s.approvals)) [
    | inl e ↦ rw (find-none k s d h e, e) (refl, h)
    | inr (a, e) ↦ detail-case k now s d a (is_pending a.status && leb a.expires_at now) h e refl
  ]
