-- ===== src/Workflow/Models.antt =====
-- services/ai-agent/src/mcp_ops_ai_agent/workflows/models.py. The bounds on lengths and sizes that
-- pydantic checks when a model is made are left out, and so is `confidence`, a float. A time is its
-- number of microseconds; the dictionaries `original_plan` and `policy_transformed_plan`, which
-- nothing modelled reads, are left out.
use mcp_ai.Prelude.{ℕ, String, Bool, Option, List}
use mcp_ai.Prelude.Dict.{Dict}
use mcp_ai.Value.{Value}
use mcp_ai.Gateway.Models.{Uuid}

pub data WorkflowStatus : Type 0 where
  planned validated running waiting_approval completed failed cancelled : WorkflowStatus

pub data NodeStatus : Type 0 where
  pending ready blocked denied waiting running succeeded failed retrying : NodeStatus
  compensating compensated skipped cancelled : NodeStatus

pub data ApprovalState : Type 0 where
  not_required waiting_approval approved execution_queued executing : ApprovalState
  succeeded rejected expired failed : ApprovalState

pub data RetryStrategy : Type 0 where
  no_retry fixed_delay exponential_backoff : RetryStrategy

pub data PolicyDecision : Type 0 where
  allow allow_with_approval deny require_additional_context : PolicyDecision

pub data ConditionOperator : Type 0 where
  eq ne gt gte lt lte contains exists : ConditionOperator

pub record WorkflowPolicyEvaluation : Type 0 where
  pub actor : String
  pub role : String
  pub tool : String
  pub resource : Option String
  pub environment : String
  pub risk : String
  pub decision : PolicyDecision
  pub policy_rule : String
  pub reason : String
  pub timestamp : ℕ

pub record WorkflowEdge : Type 0 where
  pub source : String
  pub destination : String
  pub condition : Option String

pub record ArgumentReference : Type 0 where
  pub argument : String
  pub source_node_id : String
  pub output_path : String

pub record WorkflowCondition : Type 0 where
  pub source_node_id : String
  pub output_path : String
  pub operator : ConditionOperator
  pub value : Value

pub record WorkflowNode : Type 0 where
  pub id : String
  pub workflow_id : Option String
  pub tool_name : String
  pub tool_server : String
  pub description : String
  pub arguments : Dict String Value
  pub argument_references : List ArgumentReference
  pub depends_on : List String
  pub condition : Option String
  pub typed_condition : Option WorkflowCondition
  pub risk_level : String
  pub approval_required : Bool
  pub execution_status : NodeStatus
  pub attempts : ℕ
  pub max_retries : ℕ
  pub retry_strategy : RetryStrategy
  pub timeout_seconds : ℕ
  pub last_error : Option String
  pub started_at : Option ℕ
  pub completed_at : Option ℕ
  pub last_attempt_at : Option ℕ
  pub next_retry_at : Option ℕ
  pub result_reference : Option String
  pub approval_id : Option String
  pub approval_state : ApprovalState
  pub compensation_tool : Option String
  pub policy_evaluation : Option WorkflowPolicyEvaluation
  pub knowledge_references : List String

pub record WorkflowAuditEvent : Type 0 where
  pub event_type : String
  pub actor : String
  pub role : String
  pub message : String
  pub node_id : Option String
  pub timestamp : ℕ

pub record Workflow : Type 0 where
  pub id : Uuid
  pub user_request : String
  pub status : WorkflowStatus
  pub created_by : String
  pub created_at : ℕ
  pub target_environment : String
  pub planner_model : String
  pub version : ℕ
  pub nodes : List WorkflowNode
  pub edges : List WorkflowEdge
  pub audit_events : List WorkflowAuditEvent

abbrev pub workflow_status_value : WorkflowStatus → String
workflow_status_value planned = "PLANNED"
workflow_status_value validated = "VALIDATED"
workflow_status_value running = "RUNNING"
workflow_status_value waiting_approval = "WAITING_APPROVAL"
workflow_status_value completed = "COMPLETED"
workflow_status_value failed = "FAILED"
workflow_status_value cancelled = "CANCELLED"

pub record WorkflowPlanDraft : Type 0 where
  pub user_request : String
  pub planner_model : String
  pub nodes : List WorkflowNode
  pub edges : List WorkflowEdge

pub record WorkflowValidationIssue : Type 0 where
  pub code : String
  pub message : String
  pub node_id : Option String
