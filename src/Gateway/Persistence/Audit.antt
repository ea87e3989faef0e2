-- ===== src/Gateway/Persistence/Audit.antt =====
-- services/mcp-gateway/src/mcp_ops_mcp_gateway/persistence.py: the class SqlAlchemyAuditLog and its rows. The
-- table numbers its rows in the order in which they are added.
use mcp_ai.Prelude.{ℕ, ◌≡◌, refl, String, Option, none, some, List, [], ◌∷◌, sort_by}
use mcp_ai.Auth.{Role, admin, engineer, operator, viewer, role_value, parse_role}
use mcp_ai.Registry.{RiskLevel, read_only, low, medium, high, critical, risk_value}
use mcp_ai.Gateway.Models.{
  Uuid, GatewayDecision, allowed, denied, pending_approval, decision_value, ApprovalStatus, pending,
  approved, rejected, expired, executed, failed, status_value, AuditRecord,
}
use mcp_ai.Prelude.{◌==◌, string_eq, if◌then◌else◌}
use mcp_ai.Gateway.Persistence.Table.{NumberedTable}
use mcp_ai.Gateway.Persistence.Rows.{parse_risk, parse_status}

pub record GatewayAuditRow : Type 0 where
  pub timestamp : ℕ
  pub actor_id : String
  pub actor_role : String
  pub tool_name : String
  pub correlation_id : Uuid
  pub decision : String
  pub authorization_result : String
  pub risk_level : Option String
  pub approval_status : Option String
  pub execution_status : String
  pub result_summary : String
  pub argument_hash : Option String
  pub target_resource : Option String

-- `x.value if x else None`
abbrev pub value_or_none : {A : Type 0} → (A → String) → Option A → Option String
value_or_none value none = none
value_or_none value (some a) = some (value a)

unfoldable pub parse_decision : String → Option GatewayDecision
parse_decision t =
    if t == "ALLOWED"
    then some allowed
    else if t == "DENIED"
    then some denied
    else if t == "PENDING_APPROVAL"
    then some pending_approval
    else none

-- `E(text) if text else None`, which raises for a text that is none of the values
abbrev pub parsed_or_none : {A : Type 0} → (String → Option A) → Option String → Option (Option A)
parsed_or_none parse none = some none
parsed_or_none parse (some t) =
    if t == "" then some none else elim (parse t) [ none ↦ none | some a ↦ some (some a) ]

unfoldable pub audit_row : AuditRecord → GatewayAuditRow
audit_row r = record {
  timestamp = r.timestamp;
  actor_id = r.actor_id;
  actor_role = role_value r.actor_role;
  tool_name = r.tool_name;
  correlation_id = r.correlation_id;
  decision = decision_value r.decision;
  authorization_result = r.authorization_result;
  risk_level = value_or_none risk_value r.risk_level;
  approval_status = value_or_none status_value r.approval_status;
  execution_status = r.execution_status;
  result_summary = r.result_summary;
  argument_hash = r.argument_hash;
  target_resource = r.target_resource;
}

with_values :
    GatewayAuditRow
    → Option Role
    → Option GatewayDecision
    → Option (Option RiskLevel)
    → Option (Option ApprovalStatus)
    → Option AuditRecord
with_values r (some role) (some decision) (some risk) (some status) = some (record {
  timestamp = r.timestamp;
  actor_id = r.actor_id;
  actor_role = role;
  tool_name = r.tool_name;
  correlation_id = r.correlation_id;
  decision = decision;
  authorization_result = r.authorization_result;
  risk_level = risk;
  approval_status = status;
  execution_status = r.execution_status;
  result_summary = r.result_summary;
  argument_hash = r.argument_hash;
  target_resource = r.target_resource;
})
with_values r _ _ _ _ = none

-- none where a ValueError is raised
unfoldable pub audit_record : GatewayAuditRow → Option AuditRecord
unfolding with_values parse_decision
audit_record r =
    with_values r (parse_role r.actor_role) (parse_decision r.decision)
      (parsed_or_none parse_risk r.risk_level) (parsed_or_none parse_status r.approval_status)

-- every row's record, or none where one raises
abbrev all_some : Option AuditRecord → Option (List AuditRecord) → Option (List AuditRecord)
all_some none rest = none
all_some (some r) none = none
all_some (some r) (some rs) = some (r ∷ rs)

unfoldable pub audit_records : List GatewayAuditRow → Option (List AuditRecord)
unfolding audit_record
audit_records [] = some []
audit_records (r ∷ rs) = all_some (audit_record r) (audit_records rs)

module _ (journal : NumberedTable GatewayAuditRow) where
  unfoldable pub append : AuditRecord → journal.Rows → journal.Rows
  unfolding audit_row
  append r rows = journal.add (audit_row r) rows

  -- `order_by(timestamp, id)`
  unfoldable pub records : journal.Rows → Option (List AuditRecord)
  unfolding audit_records
  records rows = audit_records (sort_by (λ r. r.timestamp) (journal.rows rows))

role-value : (r : Role) → parse_role (role_value r) ≡ some r
unfolding parse_role
role-value admin = refl
role-value engineer = refl
role-value operator = refl
role-value viewer = refl

decision-value : (d : GatewayDecision) → parse_decision (decision_value d) ≡ some d
unfolding parse_decision
decision-value allowed = refl
decision-value denied = refl
decision-value pending_approval = refl

risk-value :
    (o : Option RiskLevel) → parsed_or_none parse_risk (value_or_none risk_value o) ≡ some o
unfolding parse_risk
risk-value none = refl
risk-value (some read_only) = refl
risk-value (some low) = refl
risk-value (some medium) = refl
risk-value (some high) = refl
risk-value (some critical) = refl

status-value :
    (o : Option ApprovalStatus)
    → parsed_or_none parse_status (value_or_none status_value o) ≡ some o
unfolding parse_status
status-value none = refl
status-value (some pending) = refl
status-value (some approved) = refl
status-value (some rejected) = refl
status-value (some expired) = refl
status-value (some executed) = refl
status-value (some failed) = refl

-- The row of an audit record reads back as the record.
pub audit_record-row : (r : AuditRecord) → audit_record (audit_row r) ≡ some r
unfolding audit_record audit_row
audit_record-row r =
    rw
      (
        role-value r.actor_role,
        decision-value r.decision,
        risk-value r.risk_level,
        status-value r.approval_status,
      )
      refl
