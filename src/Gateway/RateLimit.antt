-- ===== src/Gateway/RateLimit.antt =====
-- services/mcp-gateway/src/mcp_ops_mcp_gateway/stores.py: the class FixedWindowRateLimiter.
-- A `deque` of call times is a list, oldest first.
pub mod Window
use mcp_ai.Prelude.{
  ℕ, ◌+◌, String, Bool, true, Option, none, some, List, [], ◌∷◌, ◌++◌, ◌==◌, leb, length, not,
  if◌then◌else◌, string_eq, pair_eq,
}
use mcp_ai.Prelude.Number.{ℤ, pos, parse_int, split_once}
use mcp_ai.Prelude.Text.{concat}
use mcp_ai.Prelude.Dict.{Dict, get, put}
use mcp_ai.Prelude.Exec.{Exec, Result, ok, err, pure, gets, modify, guard, lift, ◌>>=◌, ◌>>◌}
use mcp_ai.Value.{int_lt}
use mcp_ai.Gateway.Errors.{Raised, raised, value_error, rate_limit_exceeded}
use mcp_ai.Gateway.Models.{seconds, Principal}

pub record RateLimiter : Type 0 where
  pub calls : Dict (String × String) (List ℕ)

window_of : String → Option ℕ
window_of text =
    if text == "minute"
    then some (seconds 60)
    else if text == "second"
    then some (seconds 1)
    else none

with_count : Option ℤ → Option ℕ → Result Raised (ℤ × ℕ)
with_count (some count) (some window) = ok (count, window)
with_count _ _ = err value_error

limit_of : Option (String × String) → Result Raised (ℤ × ℕ)
unfolding window_of with_count
limit_of none = err value_error
limit_of (some (count_text, window_text)) =
    with_count (parse_int count_text) (window_of window_text)

unfoldable pub parse_rate_limit : String → Result Raised (ℤ × ℕ)
unfolding limit_of
parse_rate_limit rate_limit = limit_of (split_once "/" rate_limit)

-- `while calls and now - calls[0] >= window: calls.popleft()`
unfoldable pub drop_old : ℕ → ℕ → List ℕ → List ℕ
drop_old now window [] = []
drop_old now window (c ∷ calls) =
    if leb (c + window) now then drop_old now window calls else c ∷ calls

-- a key of the `defaultdict`
abbrev pub calls_of : Option (List ℕ) → List ℕ
calls_of none = []
calls_of (some calls) = calls

unfoldable pub check : Principal → String → String → ℕ → Exec Raised RateLimiter (Unit {0})
check principal tool_name rate_limit now = do
  (allowed, window) ← lift (parse_rate_limit rate_limit)
  let key : String × String = (principal.principal_id, tool_name)
  found ← gets (λ s. calls_of (get key s.calls))
  let calls = drop_old now window found
  modify (λ s. record s { calls = put key calls s.calls })
  guard (int_lt (pos (length calls)) allowed)
      (raised rate_limit_exceeded (concat ("Rate limit exceeded for " ∷ tool_name ∷ "." ∷ [])))
  modify (λ s. record s { calls = put key (calls ++ now ∷ []) s.calls })
