-- ===== src/Gateway/Service.antt =====
-- services/mcp-gateway/src/mcp_ops_mcp_gateway/service.py: the class McpGateway.
-- The state is what the gateway's objects hold; `dispatches` records, in order, the calls that
-- reached a tool server, and `ticks` counts the readings of the clock. What is outside this code is
-- the record `Environment`: the clock, the identifiers, hashing, the tool servers, `str`.
-- Metrics, logging and tracing are left out: they change nothing that is modelled here.
pub mod Call
pub mod CallTool
pub mod Operations
mod Checks
pub mod Separation
pub mod Dispatching
use mcp_ai.Prelude.{
  ℕ, ◌+◌, String, Bool, true, false, not, ◌&&◌, ◌||◌, Option, none, some, List, [], ◌∷◌, ◌++◌, ◌==◌,
  elem, if◌then◌else◌, string_eq,
}
use mcp_ai.Prelude.Text.{concat, is_empty}
use mcp_ai.Prelude.Dict.{Dict, get, put}
use mcp_ai.Prelude.Exec.{
  Exec, Result, ok, err, pure, raise, gets, modify, guard, lift, zoom, handle, try_except, ◌>>=◌,
  ◌>>◌,
}
use mcp_ai.Value.{Value, null, bool, int, str, dict, to_fields, arguments_eq}
use mcp_ai.Auth.{role_value, viewer}
use mcp_ai.Registry.{ToolMetadata, Registry, risk_value}
use mcp_ai.Gateway.Errors.{
  Raised, raised, key_error, ErrorClass, error_code, unknown_tool, disabled_tool,
  non_executable_tool, malformed_arguments, service_unavailable, tool_timeout,
}
use mcp_ai.Gateway.Models.{
  Uuid, Principal, human, ApprovalStatus, status_value, is_approved, GatewayDecision, allowed,
  denied, pending_approval, decision_value, GatewayToolRequest, GatewayToolResponse, ApprovalRecord,
  AuditRecord,
}
use mcp_ai.Gateway.Authorizer.{authenticate, authorize, authorize_approval}
use mcp_ai.Gateway.RateLimit
use mcp_ai.Gateway.RateLimit.{RateLimiter}
use mcp_ai.Gateway.Idempotency
use mcp_ai.Gateway.Idempotency.{IdempotencyStore, succeeded, permanent_failed}
use mcp_ai.Gateway.Approvals
use mcp_ai.Gateway.Approvals.{ApprovalStore}

abbrev pub Arguments : Type 0
Arguments = Dict String Value

-- what the tool server (or the thread or process that runs it) gives back
pub data Execution : Type 0 where
  result : (is_error : Bool) → (structured_content : Arguments) → Execution
  invalid_content : Execution  -- structured content that is no dictionary
  out_of_time : Execution
  worker_failed : (message : String) → Execution
  crashed : Raised → Execution  -- an exception of the tool server

pub record Environment : Type 0 where
  pub uuid4 : ℕ → Uuid
  pub clock : ℕ → ℕ
  -- `json.dumps` with sorted keys, and SHA-256 of it
  pub sha256_json : Value → String
  -- `sanitize_value` of packages/observability
  pub sanitize_value : Value → Value
  pub str_of : Value → String
  -- `validate_tool` of the tool servers
  pub validate_tool : ToolMetadata → Arguments → Execution
  -- `_execute_with_deadline`; the number is that of the calls made before
  pub execute_tool : ℕ → ToolMetadata → Arguments → Execution

pub record Dispatch : Type 0 where
  pub tool : ToolMetadata
  pub arguments : Arguments
  pub approval : Option Uuid

pub record Gateway : Type 0 where
  pub registry : Registry
  pub principals : Dict String Principal
  pub disabled_tools : List String
  pub limiter : RateLimiter
  pub idempotency : IdempotencyStore
  pub approvals : ApprovalStore
  pub dispatches : List Dispatch
  pub ticks : ℕ

abbrev pub Action : Type 0 → Type 0
Action = Exec Raised Gateway

in_limiter : {A : Type 0} → Exec Raised RateLimiter A → Action A
in_limiter = zoom (λ g. g.limiter) (λ t g. record g { limiter = t })

in_idempotency : {A : Type 0} → Exec Raised IdempotencyStore A → Action A
in_idempotency = zoom (λ g. g.idempotency) (λ t g. record g { idempotency = t })

in_approvals : {A : Type 0} → Exec Raised ApprovalStore A → Action A
in_approvals = zoom (λ g. g.approvals) (λ t g. record g { approvals = t })

-- `key not in {...}`
abbrev pub untrusted_fields : List String
untrusted_fields = "actor_role" ∷ "approval_token" ∷ "required_permission" ∷ "risk_level" ∷ []

unfoldable pub strip_untrusted_model_fields : Arguments → Arguments
strip_untrusted_model_fields [] = []
strip_untrusted_model_fields ((key, value) ∷ rest) =
    if elem key untrusted_fields
    then strip_untrusted_model_fields rest
    else (key, value) ∷ strip_untrusted_model_fields rest

metadata_or : String → Option ToolMetadata → Result Raised ToolMetadata
metadata_or tool_name none =
    err (raised unknown_tool (concat ("Unknown tool " ∷ tool_name ∷ "." ∷ [])))
metadata_or tool_name (some m) = ok m

find_metadata : String → Action ToolMetadata
unfolding metadata_or
find_metadata tool_name g = (metadata_or tool_name (get tool_name g.registry), g)

check_tool_enabled : ToolMetadata → Action (Unit {0})
check_tool_enabled m g = (
  if elem m.tool_name g.disabled_tools || not m.enabled
      then err (raised disabled_tool (concat ("Tool " ∷ m.tool_name ∷ " is disabled." ∷ [])))
      else ok tt,
  g,
)

check_tool_executable : ToolMetadata → Action (Unit {0})
check_tool_executable m =
    guard m.executable
      (raised non_executable_tool (concat ("Tool " ∷ m.tool_name ∷ " is not executable." ∷ [])))

abbrev pub governed_operation_marker : String
governed_operation_marker = "APPROVED_OPERATION_TOKEN"

unfoldable pub trusted_domain_arguments : Arguments → Principal → ToolMetadata → Arguments
trusted_domain_arguments arguments principal m =
    let routed = put "actor_role" (str (role_value principal.role)) arguments in
    if m.requires_approval
    then put "approval_token" (str governed_operation_marker) routed
    else routed

-- `self._dispatchers[metadata.domain]`
abbrev domains : List String
domains = "cicd" ∷ "device" ∷ "diagnostics" ∷ "knowledge" ∷ "repository" ∷ "ticket" ∷ []

dispatcher : ToolMetadata → Result Raised (Unit {0})
dispatcher m = if elem m.domain domains then ok tt else err key_error

module _ (env : Environment) where
  now : Action ℕ
  now g = (ok (env.clock g.ticks), record g { ticks = g.ticks + 1 })

  -- `raise MalformedArguments(str(result.structured_content["error"]))`
  error_of : Option Value → Raised
  error_of none = key_error
  error_of (some e) = raised malformed_arguments (env.str_of e)

  outcome : ToolMetadata → Execution → Result Raised Arguments
  unfolding error_of
  outcome m (result false content) = ok content
  outcome m (result true content) = err (error_of (get "error" content))
  outcome m invalid_content =
      err (raised service_unavailable "MCP dispatcher returned invalid structured output.")
  outcome m out_of_time =
      err (raised tool_timeout (concat ("Tool " ∷ m.tool_name ∷ " exceeded timeout." ∷ [])))
  outcome m (worker_failed message) = err (raised service_unavailable message)
  outcome m (crashed e) = err e

  validate_domain_arguments : Arguments → Principal → ToolMetadata → Action (Unit {0})
  unfolding outcome dispatcher
  validate_domain_arguments arguments principal m = do
    lift (dispatcher m)
    lift (outcome m (env.validate_tool m (trusted_domain_arguments arguments principal m)))
    pure tt

  hash_arguments : Arguments → String
  hash_arguments arguments = env.sha256_json (env.sanitize_value (dict (to_fields arguments)))

  argument_hash : Arguments → String
  argument_hash arguments = env.sha256_json (dict (to_fields arguments))

  abbrev text_or_null : Option String → Value
  text_or_null none = null
  text_or_null (some s) = str s

  approval_binding_hash : GatewayToolRequest → String → String → Arguments → String
  unfolding hash_arguments
  approval_binding_hash request actor_id tool_name arguments = env.sha256_json (
      dict (
        to_fields (
          ("workflow_id", text_or_null request.workflow_id)
          ∷ ("workflow_node_id", text_or_null request.workflow_node_id)
          ∷ ("tool_name", str tool_name)
          ∷ ("actor_id", str actor_id)
          ∷ ("arguments_hash", str (hash_arguments arguments))
          ∷ [])))
