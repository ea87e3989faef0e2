-- ===== src/Gateway/Models.antt =====
-- services/mcp-gateway/src/mcp_ops_mcp_gateway/models.py. An identifier (UUID) is its canonical
-- text, and a time is its number of microseconds since an epoch. The generated `event_id` of an
-- event is kept; `data` of a response is the field `payload`.
use mcp_ai.Prelude.{ℕ, ◌*◌, String, Bool, true, false, Option}
use mcp_ai.Prelude.Dict.{Dict}
use mcp_ai.Value.{Value}
use mcp_ai.Auth.{Role}
use mcp_ai.Registry.{RiskLevel}

abbrev pub Uuid : Type 0
Uuid = String

-- `timedelta(seconds=n)`
abbrev pub seconds : ℕ → ℕ
seconds n = n * 1000000

pub data PrincipalType : Type 0 where
  human ai_agent service : PrincipalType

abbrev pub is_ai_agent : PrincipalType → Bool
is_ai_agent ai_agent = true
is_ai_agent _ = false

pub data ApprovalStatus : Type 0 where
  pending approved rejected expired executed failed : ApprovalStatus

abbrev pub status_value : ApprovalStatus → String
status_value pending = "PENDING"
status_value approved = "APPROVED"
status_value rejected = "REJECTED"
status_value expired = "EXPIRED"
status_value executed = "EXECUTED"
status_value failed = "FAILED"

abbrev pub is_pending : ApprovalStatus → Bool
is_pending pending = true
is_pending _ = false

abbrev pub is_approved : ApprovalStatus → Bool
is_approved approved = true
is_approved _ = false

abbrev pub is_expired : ApprovalStatus → Bool
is_expired expired = true
is_expired _ = false

pub data GatewayDecision : Type 0 where
  allowed denied pending_approval : GatewayDecision

abbrev pub decision_value : GatewayDecision → String
decision_value allowed = "ALLOWED"
decision_value denied = "DENIED"
decision_value pending_approval = "PENDING_APPROVAL"

pub record Principal : Type 0 where
  pub principal_id : String
  pub role : Role
  pub principal_type : PrincipalType

pub record GatewayToolRequest : Type 0 where
  pub auth_token : String
  pub tool_name : String
  pub arguments : Dict String Value
  pub idempotency_key : String
  pub approval_id : Option Uuid
  pub correlation_id : Uuid
  pub workflow_id : Option Uuid
  pub workflow_node_id : Option String

pub record GatewayToolResponse : Type 0 where
  pub ok : Bool
  pub decision : GatewayDecision
  pub correlation_id : Uuid
  pub payload : Dict String Value
  pub error : Option (String × String)  -- its "code" and its "message"

pub record ApprovalRecord : Type 0 where
  pub approval_id : Uuid
  pub requester_id : String
  pub requester_type : PrincipalType
  pub tool_name : String
  pub arguments : Dict String Value
  pub risk_level : RiskLevel
  pub status : ApprovalStatus
  pub created_at : ℕ
  pub expires_at : ℕ
  pub approved_by : Option String
  pub approved_at : Option ℕ
  pub rejected_by : Option String
  pub rejected_at : Option ℕ
  pub executed_at : Option ℕ
  pub failure_reason : Option String
  pub execution_result : Option (Dict String Value)
  pub workflow_id : Option Uuid
  pub workflow_node_id : Option String
  pub arguments_hash : Option String
  pub approval_binding_hash : Option String
  pub version : ℕ

pub record AuditRecord : Type 0 where
  pub timestamp : ℕ
  pub actor_id : String
  pub actor_role : Role
  pub tool_name : String
  pub correlation_id : Uuid
  pub decision : GatewayDecision
  pub authorization_result : String
  pub risk_level : Option RiskLevel
  pub approval_status : Option ApprovalStatus
  pub execution_status : String
  pub result_summary : String
  pub argument_hash : Option String
  pub target_resource : Option String

pub record ApprovalEvent : Type 0 where
  pub event_id : Uuid
  pub approval_id : Uuid
  pub event_type : String
  pub timestamp : ℕ
  pub actor_id : String
  pub status : ApprovalStatus
  pub tool_name : String
