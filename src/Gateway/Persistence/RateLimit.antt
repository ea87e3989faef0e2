-- ===== src/Gateway/Persistence/RateLimit.antt =====
-- services/mcp-gateway/src/mcp_ops_mcp_gateway/persistence.py: the class SqlAlchemyFixedWindowRateLimiter.
-- Its `_parse_rate_limit` is that of stores.py.
pub mod Counted
pub mod Agreement
use mcp_ai.Prelude.{ℕ, ◌+◌, String, Bool, not, ◌&&◌, [], ◌∷◌, ◌==◌, leb, string_eq}
use mcp_ai.Prelude.Number.{pos}
use mcp_ai.Prelude.Text.{concat}
use mcp_ai.Prelude.Exec.{Exec, gets, modify, guard, lift, ◌>>=◌, ◌>>◌}
use mcp_ai.Value.{int_lt}
use mcp_ai.Gateway.Errors.{Raised, raised, rate_limit_exceeded}
use mcp_ai.Gateway.Models.{Principal}
use mcp_ai.Gateway.RateLimit.{parse_rate_limit}
use mcp_ai.Gateway.Persistence.Table.{Table, transaction}

pub record CallRow : Type 0 where
  pub principal_id : String
  pub tool_name : String
  pub called_at : ℕ

-- `called_at <= window_start`
abbrev pub has_left : ℕ → ℕ → CallRow → Bool
has_left now window r = leb (r.called_at + window) now

-- the calls that are counted
abbrev pub counts_for : String → String → ℕ → ℕ → CallRow → Bool
counts_for principal_id tool_name now window r =
    r.principal_id == principal_id && (r.tool_name == tool_name && not (has_left now window r))

module _ (table : Table CallRow) where
  unfoldable pub check : Principal → String → String → ℕ → Exec Raised table.Rows (Unit {0})
  check principal tool_name rate_limit now = do
    (allowed, window) ← lift (parse_rate_limit rate_limit)
    transaction do
      modify (table.delete_where (has_left now window))
      count ← gets (table.count_where (counts_for principal.principal_id tool_name now window))
      guard (int_lt (pos count) allowed)
          (raised rate_limit_exceeded (concat ("Rate limit exceeded for " ∷ tool_name ∷ "." ∷ [])))
      modify (
          table.add (record {
            principal_id = principal.principal_id;
            tool_name = tool_name;
            called_at = now;
          }))
