-- ===== src/Gateway/Approvals.antt =====
-- services/mcp-gateway/src/mcp_ops_mcp_gateway/stores.py: the class ApprovalStore.
-- The dictionary holds the records by identifier; a method that mutates a record writes it back.
-- The audit log is the one that the gateway attaches. `uuid4` is the supply of fresh identifiers,
-- and `drawn` counts those taken from it. The lock serialises the methods, so each is one step.
pub mod Effects
pub mod Trail
mod Sweep
pub mod History
mod Invariant
pub mod Reached
pub mod Lifecycle
pub mod Outcomes
use mcp_ai.Prelude.{
  ℕ, ◌+◌, String, Bool, true, false, Option, none, some, List, [], ◌∷◌, ◌++◌, ◌==◌, sort_by, leb,
  ◌&&◌, ◌||◌, not, if◌then◌else◌, string_eq, filterb,
}
use mcp_ai.Prelude.Dict.{Dict, values, get as dict_get, put}
use mcp_ai.Prelude.Text.{concat}
use mcp_ai.Prelude.Exec.{Exec, ok, pure, raise, gets, modify, guard, ◌>>=◌, ◌>>◌}
use mcp_ai.Value.{Value}
use mcp_ai.Auth.{admin}
use mcp_ai.Registry.{RiskLevel}
use mcp_ai.Gateway.Errors.{Raised, raised, approval_not_found, expired_approval, approval_denied}
use mcp_ai.Gateway.Models.{
  Uuid, seconds, service, ApprovalStatus, pending, approved, rejected, expired, executed, failed,
  status_value, is_pending, is_approved, is_expired, allowed, Principal, ApprovalRecord,
  AuditRecord, ApprovalEvent,
}

pub record ApprovalStore : Type 0 where
  pub ttl_seconds : ℕ
  pub approvals : Dict Uuid ApprovalRecord
  pub events : List ApprovalEvent
  pub audit_log : List AuditRecord
  pub drawn : ℕ

abbrev pub Action : Type 0 → Type 0
Action = Exec Raised ApprovalStore

module _ (uuid4 : ℕ → Uuid) where
  draw : Action Uuid
  draw s = (ok (uuid4 s.drawn), record s { drawn = s.drawn + 1 })

  save : ApprovalRecord → Action (Unit {0})
  save a = modify (λ s. record s { approvals = put a.approval_id a s.approvals })

  record_transition : ApprovalRecord → String → Principal → ℕ → String → String → Action (Unit {0})
  unfolding draw
  record_transition a event_type actor now execution_status summary = do
    event_id ← draw
    modify λ s. record s {
      events =
          s.events
          ++ record {
            event_id = event_id;
            approval_id = a.approval_id;
            event_type = event_type;
            timestamp = now;
            actor_id = actor.principal_id;
            status = a.status;
            tool_name = a.tool_name;
          }
            ∷ [];
      audit_log =
          s.audit_log
          ++ record {
            timestamp = now;
            actor_id = actor.principal_id;
            actor_role = actor.role;
            tool_name = event_type;
            correlation_id = a.approval_id;
            decision = allowed;
            authorization_result = "ALLOW";
            risk_level = some a.risk_level;
            approval_status = some a.status;
            execution_status = execution_status;
            result_summary = summary;
            argument_hash = none;
            target_resource = none;
          }
            ∷ [];
    }

  unfoldable pub create :
      Principal
      → String
      → Dict String Value
      → RiskLevel
      → ℕ
      → Option Uuid
      → Option String
      → Option String
      → Option String
      → Action ApprovalRecord
  unfolding save record_transition
  create principal tool_name arguments risk_level now workflow_id workflow_node_id arguments_hash
        approval_binding_hash =
      do
        approval_id ← draw
        ttl ← gets (λ s. s.ttl_seconds)
        let approval : ApprovalRecord = record {
          approval_id = approval_id;
          requester_id = principal.principal_id;
          requester_type = principal.principal_type;
          tool_name = tool_name;
          arguments = arguments;
          risk_level = risk_level;
          status = pending;
          created_at = now;
          expires_at = now + seconds ttl;
          approved_by = none;
          approved_at = none;
          rejected_by = none;
          rejected_at = none;
          executed_at = none;
          failure_reason = none;
          execution_result = none;
          workflow_id = workflow_id;
          workflow_node_id = workflow_node_id;
          arguments_hash = arguments_hash;
          approval_binding_hash = approval_binding_hash;
          version = 1;
        }
        save approval
        record_transition approval "approval.requested" principal now "PENDING_APPROVAL"
            "Approval request created."
        pure approval

  -- `self._approvals[approval_id]`, with its KeyError turned into ApprovalNotFound
  found : Uuid → Option ApprovalRecord → Action ApprovalRecord
  found approval_id none =
      raise
        (raised approval_not_found (concat ("Approval " ∷ approval_id ∷ " was not found." ∷ [])))
  found approval_id (some a) = pure a

  lookup_approval : Uuid → Action ApprovalRecord
  unfolding found
  lookup_approval approval_id = do
    entry ← gets (λ s. dict_get approval_id s.approvals)
    found approval_id entry

  expire : ApprovalRecord → ℕ → Action ApprovalRecord
  unfolding save record_transition
  expire a now = do
    let late : ApprovalRecord = record a { status = expired; version = a.version + 1 }
    save late
    record_transition late "approval.expired"
        (record { principal_id = "system"; role = admin; principal_type = service }) now "EXPIRED"
        "Approval expired."
    pure late

  -- The record as it is afterwards.
  expire_if_needed : ApprovalRecord → ℕ → Action ApprovalRecord
  unfolding expire
  expire_if_needed a now =
      if is_pending a.status && leb a.expires_at now then expire a now else pure a

  unfoldable pub detail : Uuid → ℕ → Action ApprovalRecord
  unfolding lookup_approval expire_if_needed
  detail approval_id now = do approval ← lookup_approval approval_id; expire_if_needed approval now

  unfoldable pub get : Uuid → ℕ → Action ApprovalRecord
  unfolding detail
  get approval_id now = do
    approval ← lookup_approval approval_id
    approval' ← expire_if_needed approval now
    guard (not (is_expired approval'.status)) (raised expired_approval "Approval has expired.")
    pure approval'

  not_pending : ApprovalRecord → Raised
  not_pending a =
      raised approval_denied
        (concat ("Approval is not pending; current status is " ∷ status_value a.status ∷ "." ∷ []))

  unfoldable pub approve : Uuid → Principal → ℕ → Action ApprovalRecord
  unfolding get not_pending
  approve approval_id approver now = do
    approval ← get approval_id now
    guard (is_pending approval.status) (not_pending approval)
    let granted : ApprovalRecord = record approval {
      status = approved;
      approved_by = some approver.principal_id;
      approved_at = some now;
      version = approval.version + 1;
    }
    save granted
    record_transition granted "approval.approved" approver now "APPROVED" "Approval granted."
    pure granted

  unfoldable pub reject : Uuid → Principal → String → ℕ → Action ApprovalRecord
  unfolding get not_pending
  reject approval_id rejector reason now = do
    approval ← get approval_id now
    guard (is_pending approval.status) (not_pending approval)
    let refused : ApprovalRecord = record approval {
      status = rejected;
      rejected_by = some rejector.principal_id;
      rejected_at = some now;
      failure_reason = some reason;
      version = approval.version + 1;
    }
    save refused
    record_transition refused "approval.rejected" rejector now "REJECTED" reason
    pure refused

  expire_each : List ApprovalRecord → ℕ → Action (Unit {0})
  unfolding expire_if_needed
  expire_each [] now = pure tt
  expire_each (a ∷ rest) now = do expire_if_needed a now; expire_each rest now

  unfoldable pub expire_pending : ℕ → Action (Unit {0})
  unfolding expire_each
  expire_pending now = do all ← gets (λ s. values s.approvals); expire_each all now

  abbrev with_status : Option ApprovalStatus → List ApprovalRecord → List ApprovalRecord
  with_status none all = all
  with_status (some status) all = filterb (λ a. status_value a.status == status_value status) all

  unfoldable pub list_approvals : ℕ → Option ApprovalStatus → Action (List ApprovalRecord)
  list_approvals now status = do
    expire_pending now
    all ← gets (λ s. values s.approvals)
    pure (sort_by (λ a. a.created_at) (with_status status all))

  unfoldable pub mark_executed :
      ApprovalRecord → Principal → ℕ → Dict String Value → Action ApprovalRecord
  unfolding get
  mark_executed approval actor now result = do
    current ← get approval.approval_id now
    guard (is_approved current.status) (
        raised approval_denied (
          concat (
            "Approval must be APPROVED before execution; current status is "
            ∷ status_value current.status
            ∷ "."
            ∷ [])))
    let done : ApprovalRecord = record current {
      status = executed;
      executed_at = some now;
      execution_result = some result;
      version = current.version + 1;
    }
    save done
    record_transition done "approval.executed" actor now "EXECUTED" "Approved operation executed."
    pure done

  unfoldable pub mark_failed : ApprovalRecord → Principal → ℕ → String → Action ApprovalRecord
  unfolding get
  mark_failed approval actor now reason = do
    current ← lookup_approval approval.approval_id
    guard (is_approved current.status || is_pending current.status) (
        raised approval_denied (
          concat
            ("Approval cannot fail from current status " ∷ status_value current.status ∷ "." ∷ [])))
    let lost : ApprovalRecord = record current {
      status = failed;
      failure_reason = some reason;
      version = current.version + 1;
    }
    save lost
    record_transition lost "approval.failed" actor now "FAILED" reason
    pure lost
