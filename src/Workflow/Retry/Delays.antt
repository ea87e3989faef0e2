-- ===== src/Workflow/Retry/Delays.antt =====
-- How long a node waits before it runs again.
use mcp_ai.Prelude.{ℕ, zero, suc, ◌+◌, ◌-◌, ◌*◌, ◌^◌, ◌≤◌, ◌≡◌, arith, true, some}
use native.Mathlib.Nat.{pow-suc}
use mcp_ai.Gateway.Models.{seconds}
use mcp_ai.Workflow.Models.{WorkflowNode, RetryStrategy, no_retry, fixed_delay, exponential_backoff}
use mcp_ai.Workflow.Retry.{delay_seconds, next_retry_time, retry_due}

power_of_two-add : (a d : ℕ) → 2 ^ a ≤ 2 ^ (a + d)
power_of_two-add a zero = grind arith
power_of_two-add a (suc d) =
    let next : a + suc d ≡ suc (a + d) = omega arith in
    let doubled : 2 ^ suc (a + d) ≡ 2 ^ (a + d) * 2 = pow-suc 2 (a + d) in
    rw (next, doubled) (omega (arith, power_of_two-add a d))

delay_seconds-le : (s : RetryStrategy) (a d : ℕ) → delay_seconds s a ≤ delay_seconds s (a + d)
unfolding delay_seconds
delay_seconds-le exponential_backoff zero d = grind (arith, power_of_two-add 0 (d - 1))
delay_seconds-le exponential_backoff (suc a) d = grind (arith, power_of_two-add a d)
delay_seconds-le fixed_delay a d = omega arith
delay_seconds-le no_retry a d = omega arith

delay_seconds-le_60 : (s : RetryStrategy) (a : ℕ) → delay_seconds s a ≤ 60
unfolding delay_seconds
delay_seconds-le_60 exponential_backoff a = grind arith
delay_seconds-le_60 fixed_delay a = omega arith
delay_seconds-le_60 no_retry a = omega arith

-- A node that has been tried more often waits at least as long, whatever its strategy, and never
-- more than a minute; and at the time that is set its retry is due.
pub next_retry_time_grows :
    (node : WorkflowNode) (more now : ℕ)
    → let later : WorkflowNode = record node { attempts = node.attempts + more } in
      (next_retry_time node now ≤ next_retry_time later now)
      × (next_retry_time later now ≤ now + seconds 60)
      × (retry_due
            (record later { next_retry_at = some (next_retry_time later now) })
            (next_retry_time later now)
          ≡ true)
unfolding next_retry_time retry_due
next_retry_time_grows node more now =
    let grows = delay_seconds-le node.retry_strategy node.attempts more in
    let short = delay_seconds-le_60 node.retry_strategy (node.attempts + more) in
    (omega (arith, grows), omega (arith, short), ground arith)
