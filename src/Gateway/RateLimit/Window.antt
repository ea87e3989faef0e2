-- ===== src/Gateway/RateLimit/Window.antt =====
-- How many calls the limiter lets through in any window of time.
use mcp_ai.Prelude.{
  ℕ, ◌+◌, ◌≤◌, ◌<◌, ◌≡◌, ◌∙◌, refl, ap, String, Bool, true, false, ◌⊎◌, inl, inr, List, [], ◌∷◌,
  ◌++◌, ◌==◌, ◌&&◌, leb, ltb, leb→le, sym, length, if◌then◌else◌, string_eq, pair_eq, pair_beq_iff,
  arith, Bool-cases, All, All-append,
}
use mathlib.Core.Bool.{and-false}
use mathlib.Core.List.{append_assoc, append-nil}
use mcp_ai.Prelude.Number.{ℤ, pos, negsuc}
use mcp_ai.Prelude.Exec.{Result, ok, err}
use mcp_ai.Prelude.Dict.{get, get-put, beq_refl}
use mcp_ai.Value.{int_lt}
use mcp_ai.Gateway.Errors.{Raised}
use mcp_ai.Gateway.Models.{Principal}
use mcp_ai.Gateway.RateLimit.{RateLimiter, parse_rate_limit, drop_old, calls_of, check}

-- the times that lie in the window that ends at `t`
abbrev pub in_window : ℕ → ℕ → List ℕ → ℕ
in_window window t [] = 0
in_window window t (u ∷ us) =
    (if leb u t && ltb t (u + window) then 1 else 0) + in_window window t us

in_window-append :
    (window t : ℕ) (us vs : List ℕ)
    → in_window window t (us ++ vs) ≡ in_window window t us + in_window window t vs
in_window-append window t [] vs = omega arith
in_window-append window t (u ∷ us) vs = omega (arith, in_window-append window t us vs)

in_window-le : (window t : ℕ) (us : List ℕ) → in_window window t us ≤ length us
in_window-le window t [] = omega arith
in_window-le window t (u ∷ us) = ground (arith, in_window-le window t us)

-- times that a window ending at `now` or later has left behind
abbrev Gone : ℕ → ℕ → List ℕ → Type 0
Gone window now us = All (λ u. u + window ≤ now) us

in_window-Gone :
    (window t now : ℕ) (us : List ℕ) → Gone window now us → now ≤ t → in_window window t us ≡ 0
in_window-Gone window t now [] h le = refl
in_window-Gone window t now (u ∷ us) h le = ground (arith, in_window-Gone window t now us h.1 le)

Gone-later :
    (window now later : ℕ) (us : List ℕ) → Gone window now us → now ≤ later → Gone window later us
Gone-later window now later [] h le = tt
Gone-later window now later (u ∷ us) h le = (omega arith, Gone-later window now later us h.1 le)

-- the accepted times `log` against the calls kept
record IsWindow (allowed window now : ℕ) (log calls : List ℕ) : Type 0 where
  dropped : List ℕ
  split : log ≡ dropped ++ calls
  gone : Gone window now dropped
  few : (t : ℕ) → in_window window t log ≤ allowed

-- `drop_old` moves calls that are gone to the dropped ones.
drop_old-append :
    (window now : ℕ) (dropped calls : List ℕ)
    → Gone window now dropped
    → (more : List ℕ) × Gone window now more
      × (dropped ++ calls ≡ more ++ drop_old now window calls)
unfolding drop_old
drop_old-append window now dropped [] g = (dropped, g, refl)
drop_old-append window now dropped (c ∷ calls) g = elim (Bool-cases (leb (c + window) now)) [
  | inl e ↦
      let one : Gone window now (c ∷ []) = (leb→le (c + window) now e, tt) in
      let both = All-append (λ u. u + window ≤ now) dropped (c ∷ []) g one in
      let (more, gone, split) = drop_old-append window now (dropped ++ c ∷ []) calls both in
      (more, gone, rw e (sym (append_assoc dropped (c ∷ []) calls) ∙ split))
  | inr e ↦ (dropped, g, rw e refl)
]

module _ (allowed window : ℕ) where
  later-IsWindow :
      (now later : ℕ) (log calls : List ℕ)
      → now ≤ later
      → IsWindow allowed window now log calls
      → IsWindow allowed window later log calls
  later-IsWindow now later log calls le w = record {
    dropped = w.dropped;
    split = w.split;
    gone = Gone-later window now later w.dropped w.gone le;
    few = w.few;
  }

  advance-IsWindow :
      (now later : ℕ) (log calls : List ℕ)
      → now ≤ later
      → IsWindow allowed window now log calls
      → IsWindow allowed window later log (drop_old later window calls)
  advance-IsWindow now later log calls le w =
      let (more, gone, split) =
        drop_old-append window later w.dropped calls
          (Gone-later window now later w.dropped w.gone le) in
      record { dropped = more; split = w.split ∙ split; gone = gone; few = w.few }

  accept-IsWindow :
      (now : ℕ) (log calls : List ℕ)
      → length calls < allowed
      → IsWindow allowed window now log calls
      → IsWindow allowed window now (log ++ now ∷ []) (calls ++ now ∷ [])
  accept-IsWindow now log calls room w = record {
    dropped = w.dropped;
    split = ap (λ l. l ++ now ∷ []) w.split ∙ append_assoc w.dropped calls (now ∷ []);
    gone = w.gone;
    few = λ t.
        let parts = ap (in_window window t) w.split ∙ in_window-append window t w.dropped calls in
        ground (
          arith,
          in_window-append window t log (now ∷ []),
          w.few t,
          parts,
          in_window-Gone window t now w.dropped w.gone,
          in_window-le window t calls,
        );
  }

-- One call of `check`, as a client makes it.
pub record Call : Type 0 where
  pub principal : Principal
  pub tool_name : String
  pub rate_limit : String
  pub at : ℕ

abbrev pub key_of : Call → String × String
key_of c = (c.principal.principal_id, c.tool_name)

abbrev pub is_ok : Result Raised (Unit {0}) → Bool
is_ok (ok _) = true
is_ok (err _) = false

-- The times of the calls with key `k` that `check` lets through, when it is called in this order.
unfoldable pub admitted : String × String → RateLimiter → List Call → List ℕ
admitted k s [] = []
admitted k s (c ∷ cs) =
    let (r, s') = check c.principal c.tool_name c.rate_limit c.at s in
    let rest = admitted k s' cs in if is_ok r && key_of c == k then c.at ∷ rest else rest

-- times that do not go back
abbrev pub Ascending : ℕ → List Call → Type 0
Ascending now [] = Unit
Ascending now (c ∷ cs) = (now ≤ c.at) × Ascending c.at cs

-- every call with key `k` is made under the limit `count` per `window`
abbrev pub Limited : String × String → ℤ → ℕ → List Call → Type 0
Limited k count window =
    All (λ c. key_of c ≡ k → parse_rate_limit c.rate_limit ≡ ok (count, window))

abbrev pub at_most : ℤ → ℕ
at_most (pos n) = n
at_most (negsuc n) = 0

below : (n : ℕ) (count : ℤ) → int_lt (pos n) count ≡ true → n < at_most count
below n (pos m) h = ground arith
below n (negsuc m) h = cc

abbrev kept : String × String → RateLimiter → List ℕ
kept k s = calls_of (get k s.calls)

module _ (count : ℤ) (window : ℕ) where
  abbrev Checked :
      String × String → ℕ → RateLimiter → Result Raised (Unit {0}) × RateLimiter → Type 0
  Checked k now s (r, t) =
      (is_ok r ≡ true)
        × (length (drop_old now window (kept k s)) < at_most count)
        × (kept k t ≡ drop_old now window (kept k s) ++ now ∷ [])
      ⊎ (is_ok r ≡ false) × (kept k t ≡ drop_old now window (kept k s))

  check-key :
      (c : Call) (s : RateLimiter)
      → parse_rate_limit c.rate_limit ≡ ok (count, window)
      → Checked (key_of c) c.at s (check c.principal c.tool_name c.rate_limit c.at s)
  unfolding check
  check-key c s limit =
      let left = drop_old c.at window (kept (key_of c) s) in
      elim (Bool-cases (int_lt (pos (length left)) count)) [
        | inl room ↦ inl (
          rw (limit, room),
          below (length left) count room,
          rw (limit, room) (simp (get-put, beq_refl)),
        )
        | inr full ↦ inr (rw (limit, full), rw (limit, full) (simp (get-put, beq_refl)))
      ]

module _ (k : String × String) (count : ℤ) (window : ℕ) where
  check-same :
      (c : Call) (s : RateLimiter)
      → key_of c ≡ k
      → parse_rate_limit c.rate_limit ≡ ok (count, window)
      → Checked count window k c.at s (check c.principal c.tool_name c.rate_limit c.at s)
  check-same c s same limit = rw (← same) (check-key count window c s limit)

  check-other :
      (c : Call) (s : RateLimiter)
      → (key_of c == k) ≡ false
      → kept k (check c.principal c.tool_name c.rate_limit c.at s).1 ≡ kept k s
  unfolding check
  check-other c s other = grind (arith, other, get-put)

  admitted-few :
      (now : ℕ) (log : List ℕ) (s : RateLimiter) (cs : List Call)
      → Ascending now cs
      → Limited k count window cs
      → IsWindow (at_most count) window now log (kept k s)
      → (t : ℕ) → in_window window t (log ++ admitted k s cs) ≤ at_most count
  unfolding admitted
  admitted-few now log s [] up lim w t = rw append-nil (w.few t)
  admitted-few now log s (c ∷ cs) up lim w t =
      let (r, s') = check c.principal c.tool_name c.rate_limit c.at s in
      let aged = advance-IsWindow (at_most count) window now c.at log (kept k s) up.0 w in
      elim (Bool-cases (key_of c == k)) [
        | inl same ↦
            let key = (pair_beq_iff (key_of c) k).0 same in
            elim (check-same c s key (lim.0 key)) [
              | inl (passed, room, stored) ↦
                  let kept' = accept-IsWindow (at_most count) window c.at log _ room aged in
                  rw (passed, same, ← append_assoc log (c.at ∷ []))
                    (admitted-few c.at (log ++ c.at ∷ []) s' cs up.1 lim.1 (rw stored kept') t)
              | inr (refused, stored) ↦
                  rw refused (admitted-few c.at log s' cs up.1 lim.1 (rw stored aged) t)
            ]
        | inr other ↦ rw other (
            simp and-false (
              admitted-few c.at log s' cs up.1 lim.1
                (rw (check-other c s other)
                  (later-IsWindow (at_most count) window now c.at log (kept k s) up.0 w))
                t))
      ]

-- Take calls of `check` in an order of time, for any mix of principals and tools, from an empty
-- limiter, where every call with the key `k` is under the limit of `count` per `window`. However
-- they fall, at most `count` of the calls with key `k` that are let through (none, if it is
-- negative) lie in any window of that length, `t - window < u` and `u ≤ t`.
pub check_window :
    (k : String × String) (count : ℤ) (window : ℕ) (cs : List Call)
    → Ascending 0 cs
    → Limited k count window cs
    → (t : ℕ) → in_window window t (admitted k (record { calls = [] }) cs) ≤ at_most count
check_window k count window cs up lim t =
    admitted-few k count window 0 [] (record { calls = [] }) cs up lim
      (record { dropped = []; split = unfold get in refl; gone = tt; few = λ u. omega arith }) t
