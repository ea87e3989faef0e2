-- ===== src/Gateway/Persistence/RateLimit/Agreement.antt =====
-- The limiter over a database against the one in memory.
use mcp_ai.Prelude.{
  ℕ, ◌≡◌, refl, List, [], ◌∷◌, length, string_eq, pair_eq, arith, Bool-cases, inl, inr, All,
}
use mcp_ai.Prelude.Number.{ℤ, pos}
use mcp_ai.Prelude.Exec.{Result, ok, err}
use mcp_ai.Prelude.Dict.{get}
use mcp_ai.Value.{int_lt}
use mcp_ai.Gateway.Errors.{Raised}
use mcp_ai.Gateway.RateLimit
use mcp_ai.Gateway.RateLimit.{RateLimiter, parse_rate_limit, drop_old, calls_of}
use mcp_ai.Gateway.RateLimit.Window.{Call, Ascending}
use mcp_ai.Gateway.Persistence.Table.{Table}
use mcp_ai.Gateway.Persistence.RateLimit as Stored
use mcp_ai.Gateway.Persistence.RateLimit.{CallRow, has_left, counts_for}
use mcp_ai.Gateway.Persistence.RateLimit.Counted.{
  Agrees, kept, later-Agrees, delete-Agrees, dropped-Agrees, added-Agrees,
}

-- the limit of a call, if it is one, is per that window
abbrev pub Windowed : ℕ → Call → Type 0
Windowed window c = (n : ℤ) (w : ℕ) → parse_rate_limit c.rate_limit ≡ ok (n, w) → w ≡ window

module _ (table : Table CallRow) (window : ℕ) where
  abbrev Alike :
      Call
      → Result Raised (ℤ × ℕ)
      → Result Raised (Unit {0}) × table.Rows
      → Result Raised (Unit {0}) × RateLimiter
      → Type 0
  Alike c r (a, t) (b, s) = (a ≡ b) × Agrees table window c.at (kept s) t

  parsed-Alike :
      (c : Call) (s : RateLimiter) (t : table.Rows) (r : Result Raised (ℤ × ℕ))
      → parse_rate_limit c.rate_limit ≡ r
      → Windowed window c
      → Agrees table window c.at (kept s) t
      → Alike c r
          (Stored.check table c.principal c.tool_name c.rate_limit c.at t)
          (RateLimit.check c.principal c.tool_name c.rate_limit c.at s)
  unfolding Stored.check RateLimit.check
  parsed-Alike c s t (err e) limit windowed h = rw limit (refl, h)
  parsed-Alike c s t (ok (n, w)) limit windowed h =
      let p = c.principal.principal_id in
      let calls = drop_old c.at window (kept s p c.tool_name) in
      let t' = table.delete_where (has_left c.at window) t in
      let count : table.count_where (counts_for p c.tool_name c.at window) t' ≡ length calls =
        (delete-Agrees table window c.at (kept s) t h).0 p c.tool_name c.at (omega arith) in
      elim (Bool-cases (int_lt (pos (length calls)) n)) [
        | inl room ↦
            rw (limit, windowed n w limit, count, room)
              (
                refl,
                added-Agrees table window p c.tool_name c.at s t'
                    (delete-Agrees table window c.at (kept s) t h),
              )
        | inr full ↦
            rw (limit, windowed n w limit, count, full)
              (refl, dropped-Agrees table window p c.tool_name c.at s t h)
      ]

-- what the limiters answer to calls made in this order
unfoldable pub answers : RateLimiter → List Call → List (Result Raised (Unit {0}))
answers s [] = []
answers s (c ∷ cs) =
    let (r, s') = RateLimit.check c.principal c.tool_name c.rate_limit c.at s in r ∷ answers s' cs

unfoldable pub stored_answers :
    (table : Table CallRow) → table.Rows → List Call → List (Result Raised (Unit {0}))
stored_answers table t [] = []
stored_answers table t (c ∷ cs) =
    let (r, t') = Stored.check table c.principal c.tool_name c.rate_limit c.at t in
    r ∷ stored_answers table t' cs

module _ (table : Table CallRow) (window : ℕ) where
  agreeing-answers :
      (now : ℕ) (cs : List Call) (s : RateLimiter) (t : table.Rows)
      → Ascending now cs
      → All (Windowed window) cs
      → Agrees table window now (kept s) t
      → stored_answers table t cs ≡ answers s cs
  unfolding stored_answers answers
  agreeing-answers now [] s t up windowed h = refl
  agreeing-answers now (c ∷ cs) s t up windowed h =
      let (same, after) =
        parsed-Alike table window c s t (parse_rate_limit c.rate_limit) refl windowed.0
          (later-Agrees table window now c.at (kept s) t up.0 h) in
      let rest =
        agreeing-answers c.at cs (RateLimit.check c.principal c.tool_name c.rate_limit c.at s).1
          (Stored.check table c.principal c.tool_name c.rate_limit c.at t).1 up.1 windowed.1
          after in
      cc (same, rest)

  -- Over any table that adds, counts and deletes rows, and from no calls at all, the limiter over a
  -- database answers calls in an order of time just as the one in memory does, error by error, where
  -- all limits that parse are per one window; how many calls they allow may differ.
  pub stored_answers-answers :
      (cs : List Call)
      → Ascending 0 cs
      → All (Windowed window) cs
      → stored_answers table table.empty cs ≡ answers (record { calls = [] }) cs
  stored_answers-answers cs up windowed =
      agreeing-answers 0 cs (record { calls = [] }) table.empty up windowed
        (
          λ p tool later le.
              unfold get drop_old in table.count-empty (counts_for p tool later window),
          unfold get in λ p tool. tt,
        )
