-- ===== src/Gateway/Persistence/Rows.antt =====
-- services/mcp-gateway/src/mcp_ops_mcp_gateway/persistence.py: the rows of approvals and of their events,
-- and the records that they stand for. An enumeration is kept as its text, and reading a text that is
-- none of its values raises a ValueError. Times come back aware of their zone.
use mcp_ai.Prelude.{ℕ, ◌≡◌, refl, String, Option, none, some, ◌==◌, string_eq, if◌then◌else◌}
use mcp_ai.Prelude.Dict.{Dict}
use mcp_ai.Value.{Value}
use mcp_ai.Registry.{RiskLevel, read_only, low, medium, high, critical, risk_value}
use mcp_ai.Gateway.Models.{
  Uuid, PrincipalType, human, ai_agent, service, ApprovalStatus, pending, approved, rejected,
  expired, executed, failed, status_value, is_pending, Principal, ApprovalRecord, ApprovalEvent,
}

pub record GatewayApprovalRow : Type 0 where
  pub approval_id : Uuid
  pub requester_id : String
  pub requester_type : String
  pub tool_name : String
  pub arguments : Dict String Value
  pub risk_level : String
  pub status : String
  pub created_at : ℕ
  pub expires_at : ℕ
  pub approved_by : Option String
  pub approved_at : Option ℕ
  pub rejected_by : Option String
  pub rejected_at : Option ℕ
  pub executed_at : Option ℕ
  pub failure_reason : Option String
  pub execution_result : Option (Dict String Value)
  pub workflow_id : Option Uuid
  pub workflow_node_id : Option String
  pub arguments_hash : Option String
  pub approval_binding_hash : Option String
  pub version : ℕ

pub record GatewayApprovalEventRow : Type 0 where
  pub event_id : Uuid
  pub approval_id : Uuid
  pub event_type : String
  pub timestamp : ℕ
  pub actor_id : String
  pub status : String
  pub tool_name : String

abbrev pub type_value : PrincipalType → String
type_value human = "HUMAN"
type_value ai_agent = "AI_AGENT"
type_value service = "SERVICE"

-- `PrincipalType(text)`, `RiskLevel(text)` and `ApprovalStatus(text)`
unfoldable pub parse_type : String → Option PrincipalType
parse_type t =
    if t == "HUMAN"
    then some human
    else if t == "AI_AGENT"
    then some ai_agent
    else if t == "SERVICE"
    then some service
    else none

unfoldable pub parse_risk : String → Option RiskLevel
parse_risk t =
    if t == "READ_ONLY"
    then some read_only
    else if t == "LOW"
    then some low
    else if t == "MEDIUM"
    then some medium
    else if t == "HIGH"
    then some high
    else if t == "CRITICAL"
    then some critical
    else none

unfoldable pub parse_status : String → Option ApprovalStatus
parse_status t =
    if t == "PENDING"
    then some pending
    else if t == "APPROVED"
    then some approved
    else if t == "REJECTED"
    then some rejected
    else if t == "EXPIRED"
    then some expired
    else if t == "EXECUTED"
    then some executed
    else if t == "FAILED"
    then some failed
    else none

unfoldable pub approval_row : ApprovalRecord → GatewayApprovalRow
approval_row a = record {
  approval_id = a.approval_id;
  requester_id = a.requester_id;
  requester_type = type_value a.requester_type;
  tool_name = a.tool_name;
  arguments = a.arguments;
  risk_level = risk_value a.risk_level;
  status = status_value a.status;
  created_at = a.created_at;
  expires_at = a.expires_at;
  approved_by = a.approved_by;
  approved_at = a.approved_at;
  rejected_by = a.rejected_by;
  rejected_at = a.rejected_at;
  executed_at = a.executed_at;
  failure_reason = a.failure_reason;
  execution_result = a.execution_result;
  workflow_id = a.workflow_id;
  workflow_node_id = a.workflow_node_id;
  arguments_hash = a.arguments_hash;
  approval_binding_hash = a.approval_binding_hash;
  version = a.version;
}

with_values :
    GatewayApprovalRow
    → Option PrincipalType
    → Option RiskLevel
    → Option ApprovalStatus
    → Option ApprovalRecord
with_values r (some requester_type) (some risk_level) (some status) = some (record {
  approval_id = r.approval_id;
  requester_id = r.requester_id;
  requester_type = requester_type;
  tool_name = r.tool_name;
  arguments = r.arguments;
  risk_level = risk_level;
  status = status;
  created_at = r.created_at;
  expires_at = r.expires_at;
  approved_by = r.approved_by;
  approved_at = r.approved_at;
  rejected_by = r.rejected_by;
  rejected_at = r.rejected_at;
  executed_at = r.executed_at;
  failure_reason = r.failure_reason;
  execution_result = r.execution_result;
  workflow_id = r.workflow_id;
  workflow_node_id = r.workflow_node_id;
  arguments_hash = r.arguments_hash;
  approval_binding_hash = r.approval_binding_hash;
  version = r.version;
})
with_values r _ _ _ = none

-- none where a ValueError is raised
unfoldable pub approval_record : GatewayApprovalRow → Option ApprovalRecord
unfolding with_values parse_type parse_risk parse_status
approval_record r =
    with_values r (parse_type r.requester_type) (parse_risk r.risk_level) (parse_status r.status)

unfoldable pub event_row : Uuid → ApprovalRecord → String → Principal → ℕ → GatewayApprovalEventRow
event_row event_id a event_type actor now = record {
  event_id = event_id;
  approval_id = a.approval_id;
  event_type = event_type;
  timestamp = now;
  actor_id = actor.principal_id;
  status = status_value a.status;
  tool_name = a.tool_name;
}

with_status : GatewayApprovalEventRow → Option ApprovalStatus → Option ApprovalEvent
with_status r none = none
with_status r (some status) = some (record {
  event_id = r.event_id;
  approval_id = r.approval_id;
  event_type = r.event_type;
  timestamp = r.timestamp;
  actor_id = r.actor_id;
  status = status;
  tool_name = r.tool_name;
})

unfoldable pub approval_event : GatewayApprovalEventRow → Option ApprovalEvent
unfolding with_status parse_status
approval_event r = with_status r (parse_status r.status)

parse_type-value : (t : PrincipalType) → parse_type (type_value t) ≡ some t
unfolding parse_type
parse_type-value human = refl
parse_type-value ai_agent = refl
parse_type-value service = refl

parse_risk-value : (r : RiskLevel) → parse_risk (risk_value r) ≡ some r
unfolding parse_risk
parse_risk-value read_only = refl
parse_risk-value low = refl
parse_risk-value medium = refl
parse_risk-value high = refl
parse_risk-value critical = refl

parse_status-value : (s : ApprovalStatus) → parse_status (status_value s) ≡ some s
unfolding parse_status
parse_status-value pending = refl
parse_status-value approved = refl
parse_status-value rejected = refl
parse_status-value expired = refl
parse_status-value executed = refl
parse_status-value failed = refl

pub pending-text : (s : ApprovalStatus) → (status_value s == "PENDING") ≡ is_pending s
pending-text pending = refl
pending-text approved = refl
pending-text rejected = refl
pending-text expired = refl
pending-text executed = refl
pending-text failed = refl

-- The row of an approval reads back as the approval.
pub approval_record-row : (a : ApprovalRecord) → approval_record (approval_row a) ≡ some a
unfolding approval_record approval_row
approval_record-row a =
    rw
      (
        parse_type-value a.requester_type,
        parse_risk-value a.risk_level,
        parse_status-value a.status,
      )
      refl
