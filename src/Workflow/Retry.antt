-- ===== src/Workflow/Retry.antt =====
-- services/ai-agent/src/mcp_ops_ai_agent/workflows/service.py: when a node may run again, and when
-- the wait for its approval is over. `now` is the clock's reading.
pub mod Delays
use mcp_ai.Prelude.{
  ℕ, ◌+◌, ◌-◌, ◌^◌, min, String, Bool, true, false, not, ◌&&◌, ◌||◌, Option, none, some, [], ◌∷◌,
  leb, ltb, elem, string_eq, if◌then◌else◌,
}
use mcp_ai.Prelude.Text.{is_empty}
use mcp_ai.Registry.{ToolMetadata}
use mcp_ai.Gateway.Models.{seconds, GatewayToolResponse}
use mcp_ai.Workflow.Models.{
  WorkflowNode, NodeStatus, retrying, waiting, failed, RetryStrategy, no_retry, fixed_delay,
  exponential_backoff, expired,
}

abbrev is_retrying : NodeStatus → Bool
is_retrying retrying = true
is_retrying _ = false

abbrev is_waiting : NodeStatus → Bool
is_waiting waiting = true
is_waiting _ = false

abbrev reached : ℕ → Option ℕ → Bool
reached now none = true
reached now (some at) = leb at now

unfoldable pub retry_due : WorkflowNode → ℕ → Bool
retry_due node now = reached now node.next_retry_at

-- `bool(node.compensation_tool)`
abbrev is_named : Option String → Bool
is_named none = false
is_named (some tool) = not (is_empty tool)

unfoldable pub can_be_resumed : WorkflowNode → ℕ → Bool
unfolding retry_due
can_be_resumed node now =
    if is_retrying node.execution_status
    then retry_due node now
    else leb node.attempts node.max_retries || is_named node.compensation_tool

-- `node.last_attempt_at or node.started_at`
abbrev waiting_since : Option ℕ → Option ℕ → Option ℕ
waiting_since none started = started
waiting_since (some last) started = some last

abbrev waited : ℕ → ℕ → Option ℕ → Bool
waited now timeout none = false
waited now timeout (some started) = leb (started + seconds timeout) now

unfoldable pub approval_expired : WorkflowNode → ℕ → Bool
approval_expired node now =
    if is_waiting node.execution_status
    then waited now node.timeout_seconds (waiting_since node.last_attempt_at node.started_at)
    else false

unfoldable pub expire_waiting_approval : WorkflowNode → ℕ → WorkflowNode
expire_waiting_approval node now = record node {
  execution_status = failed;
  approval_state = expired;
  last_error = some "approval expired before workflow resume";
  completed_at = some now;
}

abbrev pub metadata_retryable : Option ToolMetadata → Bool
metadata_retryable none = false
metadata_retryable (some m) = m.idempotent || m.retry_safe

abbrev is_no_retry : RetryStrategy → Bool
is_no_retry no_retry = true
is_no_retry _ = false

unfoldable pub retry_allowed : WorkflowNode → Option ToolMetadata → Bool
retry_allowed node metadata =
    if is_no_retry node.retry_strategy
    then false
    else if ltb node.max_retries node.attempts
    then false
    else metadata_retryable metadata

-- in seconds; `attempts - 1` stops at 0
unfoldable pub delay_seconds : RetryStrategy → ℕ → ℕ
delay_seconds exponential_backoff attempts = min 60 (2 ^ (attempts - 1))
delay_seconds fixed_delay attempts = 1
delay_seconds no_retry attempts = 0

unfoldable pub next_retry_time : WorkflowNode → ℕ → ℕ
unfolding delay_seconds
next_retry_time node now = now + seconds (delay_seconds node.retry_strategy node.attempts)

abbrev transient_codes : Option (String × String) → Bool
transient_codes none = false
transient_codes (some (code, message)) = elem code (
    "timeout" ∷ "network_failure" ∷ "tool_server_unavailable" ∷ "server_500" ∷ "rate_limit_exceeded"
    ∷ [])

unfoldable pub transient_failure : GatewayToolResponse → Bool
transient_failure response = if response.ok then false else transient_codes response.error
