-- ===== src/Gateway/Persistence/Approvals.antt =====
-- services/mcp-gateway/src/mcp_ops_mcp_gateway/persistence.py: the class SqlAlchemyApprovalStore.
-- Each session is a transaction of its own, as in the code: a decision reads in two and writes in a
-- third. The audit log that may be attached is the list of its records. `id_factory` and `uuid4` are
-- supplies of identifiers, with the count of those taken from each.
pub mod Held
pub mod Reading
pub mod Agreement
use mcp_ai.Prelude.{
  ℕ, ◌+◌, String, Bool, Option, none, some, List, [], ◌∷◌, ◌++◌, ◌==◌, leb, ◌&&◌, ◌||◌, not,
  if◌then◌else◌, string_eq, filterb, sort_by,
}
use mcp_ai.Prelude.Dict.{Dict}
use mcp_ai.Prelude.Text.{concat}
use mcp_ai.Prelude.Exec.{Exec, ok, pure, raise, gets, modify, guard, ◌>>=◌, ◌>>◌}
use mcp_ai.Value.{Value}
use mcp_ai.Auth.{admin}
use mcp_ai.Registry.{RiskLevel}
use mcp_ai.Gateway.Errors.{
  Raised, raised, value_error, approval_not_found, expired_approval, approval_denied,
}
use mcp_ai.Gateway.Models.{
  Uuid, seconds, service, ApprovalStatus, pending, approved, rejected, executed, failed,
  status_value, is_pending, is_approved, is_expired, allowed, Principal, ApprovalRecord,
  AuditRecord,
}
use mcp_ai.Gateway.Persistence.Table.{KeyedTable, Table, transaction}
use mcp_ai.Gateway.Persistence.Rows.{
  GatewayApprovalRow, GatewayApprovalEventRow, approval_row, approval_record, event_row,
}

pub record ApprovalTables (Approvals Events : Type 0) : Type 0 where
  pub ttl_seconds : ℕ
  pub approvals : Approvals
  pub events : Events
  pub audit_log : Option (List AuditRecord)
  pub drawn : ℕ
  pub event_ids : ℕ

module _ (table : KeyedTable GatewayApprovalRow) (journal : Table GatewayApprovalEventRow)
    (id_factory uuid4 : ℕ → Uuid) where
  abbrev pub Tables : Type 0
  Tables = ApprovalTables table.Rows journal.Rows

  abbrev pub Action : Type 0 → Type 0
  Action = Exec Raised Tables

  draw_id : Action Uuid
  draw_id s = (ok (id_factory s.drawn), record s { drawn = s.drawn + 1 })

  -- `session.merge(row)`, and `session.add` of the row of an approval
  put_row : GatewayApprovalRow → Action (Unit {0})
  put_row row = modify (λ s. record s { approvals = table.merge row.approval_id row s.approvals })

  add_event : ApprovalRecord → String → Principal → ℕ → Action (Unit {0})
  add_event a event_type actor now = modify λ s. record s {
    events = journal.add (event_row (uuid4 s.event_ids) a event_type actor now) s.events;
    event_ids = s.event_ids + 1;
  }

  append_audit : AuditRecord → Option (List AuditRecord) → Option (List AuditRecord)
  append_audit r none = none
  append_audit r (some log) = some (log ++ r ∷ [])

  audit_transition : ApprovalRecord → Principal → ℕ → String → String → String → Action (Unit {0})
  unfolding append_audit
  audit_transition a actor now event_type execution_status summary = modify λ s. record s {
    audit_log =
        append_audit
          (record {
            timestamp = now;
            actor_id = actor.principal_id;
            actor_role = actor.role;
            tool_name = event_type;
            correlation_id = a.approval_id;
            decision = allowed;
            authorization_result = "ALLOW";
            risk_level = some a.risk_level;
            approval_status = some a.status;
            execution_status = execution_status;
            result_summary = summary;
            argument_hash = none;
            target_resource = none;
          })
          s.audit_log;
  }

  unfoldable pub create :
      Principal
      → String
      → Dict String Value
      → RiskLevel
      → ℕ
      → Option Uuid
      → Option String
      → Option String
      → Option String
      → Action ApprovalRecord
  unfolding draw_id put_row add_event audit_transition
  create principal tool_name arguments risk_level now workflow_id workflow_node_id arguments_hash
        approval_binding_hash =
      do
        approval_id ← draw_id
        ttl ← gets (λ s. s.ttl_seconds)
        let approval : ApprovalRecord = record {
          approval_id = approval_id;
          requester_id = principal.principal_id;
          requester_type = principal.principal_type;
          tool_name = tool_name;
          arguments = arguments;
          risk_level = risk_level;
          status = pending;
          created_at = now;
          expires_at = now + seconds ttl;
          approved_by = none;
          approved_at = none;
          rejected_by = none;
          rejected_at = none;
          executed_at = none;
          failure_reason = none;
          execution_result = none;
          workflow_id = workflow_id;
          workflow_node_id = workflow_node_id;
          arguments_hash = arguments_hash;
          approval_binding_hash = approval_binding_hash;
          version = 1;
        }
        transaction do
          put_row (approval_row approval)
          add_event approval "approval.requested" principal now
        audit_transition approval principal now "approval.requested" "PENDING_APPROVAL"
            "Approval request created."
        pure approval

  not_found : Uuid → Raised
  not_found approval_id =
      raised approval_not_found (concat ("Approval " ∷ approval_id ∷ " was not found." ∷ []))

  unfoldable read_row : Option ApprovalRecord → Action ApprovalRecord
  read_row none = raise value_error
  read_row (some a) = pure a

  unfoldable stored : Uuid → Option GatewayApprovalRow → Action ApprovalRecord
  unfolding not_found read_row
  stored approval_id none = raise (not_found approval_id)
  stored approval_id (some row) = read_row (approval_record row)

  -- `_approval_record(approval_id)` of the store
  unfoldable stored_record : Uuid → Action ApprovalRecord
  unfolding stored
  stored_record approval_id = do
    row ← gets (λ s. table.find approval_id s.approvals)
    stored approval_id row

  unfoldable expire_row : GatewayApprovalRow → ℕ → Action (Unit {0})
  unfolding put_row add_event read_row
  expire_row row now = do
    let late : GatewayApprovalRow = record row { status = "EXPIRED"; version = row.version + 1 }
    put_row late
    approval ← read_row (approval_record late)
    add_event approval "approval.expired"
        (record { principal_id = "system"; role = admin; principal_type = service }) now

  unfoldable expire_found : Uuid → ℕ → Option GatewayApprovalRow → Action (Unit {0})
  unfolding expire_row not_found
  expire_found approval_id now none = raise (not_found approval_id)
  expire_found approval_id now (some row) =
      if row.status == "PENDING" && leb row.expires_at now then expire_row row now else pure tt

  unfoldable expire_if_needed : Uuid → ℕ → Action (Unit {0})
  unfolding expire_found
  expire_if_needed approval_id now =
      transaction
        do row ← gets (λ s. table.find approval_id s.approvals); expire_found approval_id now row

  unfoldable pub detail : Uuid → ℕ → Action ApprovalRecord
  unfolding expire_if_needed stored_record
  detail approval_id now = do expire_if_needed approval_id now; stored_record approval_id

  unfoldable pub get : Uuid → ℕ → Action ApprovalRecord
  unfolding detail expire_if_needed stored_record
  get approval_id now = do
    expire_if_needed approval_id now
    approval ← stored_record approval_id
    guard (not (is_expired approval.status)) (raised expired_approval "Approval has expired.")
    pure approval

  unfoldable save_record : ApprovalRecord → String → Principal → ℕ → Action (Unit {0})
  unfolding put_row add_event
  save_record a event_type actor now =
      transaction do put_row (approval_row a); add_event a event_type actor now

  unfoldable transition_pending : Uuid → ℕ → ApprovalStatus → Action ApprovalRecord
  unfolding get
  transition_pending approval_id now status = do
    approval ← get approval_id now
    guard (is_pending approval.status) (
        raised approval_denied (
          concat (
            "Approval is not pending; current status is "
            ∷ status_value approval.status
            ∷ "."
            ∷ [])))
    pure (record approval { status = status; version = approval.version + 1 })

  unfoldable pub approve : Uuid → Principal → ℕ → Action ApprovalRecord
  unfolding transition_pending save_record audit_transition
  approve approval_id approver now = do
    approval ← transition_pending approval_id now approved
    let granted : ApprovalRecord = record approval {
      approved_by = some approver.principal_id;
      approved_at = some now;
    }
    save_record granted "approval.approved" approver now
    audit_transition granted approver now "approval.approved" "APPROVED" "Approval granted."
    pure granted

  unfoldable pub reject : Uuid → Principal → String → ℕ → Action ApprovalRecord
  unfolding transition_pending save_record audit_transition
  reject approval_id rejector reason now = do
    approval ← transition_pending approval_id now rejected
    let refused : ApprovalRecord = record approval {
      rejected_by = some rejector.principal_id;
      rejected_at = some now;
      failure_reason = some reason;
    }
    save_record refused "approval.rejected" rejector now
    audit_transition refused rejector now "approval.rejected" "REJECTED" reason
    pure refused

  unfoldable pub mark_executed :
      ApprovalRecord → Principal → ℕ → Dict String Value → Action ApprovalRecord
  unfolding get save_record audit_transition
  mark_executed approval actor now result = do
    current ← get approval.approval_id now
    guard (is_approved current.status) (
        raised approval_denied (
          concat (
            "Approval must be APPROVED before execution; current status is "
            ∷ status_value current.status
            ∷ "."
            ∷ [])))
    let done : ApprovalRecord = record current {
      status = executed;
      executed_at = some now;
      execution_result = some result;
      version = current.version + 1;
    }
    save_record done "approval.executed" actor now
    audit_transition done actor now "approval.executed" "EXECUTED" "Approved operation executed."
    pure done

  unfoldable pub mark_failed : ApprovalRecord → Principal → ℕ → String → Action ApprovalRecord
  unfolding stored_record save_record audit_transition
  mark_failed approval actor now reason = do
    current ← stored_record approval.approval_id
    guard (is_approved current.status || is_pending current.status) (
        raised approval_denied (
          concat
            ("Approval cannot fail from current status " ∷ status_value current.status ∷ "." ∷ [])))
    let lost : ApprovalRecord = record current {
      status = failed;
      failure_reason = some reason;
      version = current.version + 1;
    }
    save_record lost "approval.failed" actor now
    audit_transition lost actor now "approval.failed" "FAILED" reason
    pure lost
