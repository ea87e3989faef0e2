-- ===== src/Prelude/Number.antt =====
-- `int(text)` on ASCII text, and `text.split(sep, maxsplit=1)` at one character.
use Prim.Native.Nat.{ℕ, ◌+◌, ◌*◌, ◌-◌}
use Prim.Native.Char.{Char, code}
use Prim.Native.String.{String}
use mathlib.Core.Path.{◌≡◌, refl}
use mathlib.Core.Bool.{Bool, true, false, ◌&&◌}
use mathlib.Core.Option
use mathlib.Core.Option.{Option, none, some}
use mcp_ai.Prelude.Tests.{eqb, leb, if◌then◌else◌}
use mcp_ai.Prelude.Text.{strip}

-- `negsuc n` is -(n + 1).
pub data ℤ : Type 0 where
  pos : ℕ → ℤ
  negsuc : ℕ → ℤ

abbrev pub neg : ℕ → ℤ
neg n = if eqb n 0 then pos 0 else negsuc (n - 1)

-- digits, with single underscores between them
digits : ℕ → Bool → String → Option ℕ
digits n after_digit String.[] = if after_digit then some n else none
digits n after_digit (String.◌∷◌ c s) =
    let next = digits (n * 10 + (code c - 48)) true s in
    let skip = digits n false s in
    if leb 48 (code c) && leb (code c) 57
    then next
    else if eqb (code c) 95 && after_digit
    then skip
    else none

signed : String → Option ℤ
unfolding digits
signed String.[] = none
signed (String.◌∷◌ c s) =
    let minus = Option.map neg (digits 0 false s) in
    let plus = Option.map pos (digits 0 false s) in
    let none_given = Option.map pos (digits 0 false (String.◌∷◌ c s)) in
    if eqb (code c) 45 then minus else if eqb (code c) 43 then plus else none_given

-- `none` stands for the ValueError.
unfoldable pub parse_int : String → Option ℤ
unfolding signed
parse_int s = signed (strip s)

abbrev cons_left : Char → Option (String × String) → Option (String × String)
cons_left c none = none
cons_left c (some (l, r)) = some (String.◌∷◌ c l, r)

-- the two sides of the first separator, if there is one
unfoldable pub split_once : Char → String → Option (String × String)
split_once sep String.[] = none
split_once sep (String.◌∷◌ c s) =
    let rest = split_once sep s in
    if eqb (code c) (code sep) then some (String.[], s) else cons_left c rest

splits : split_once "/" "60/minute/x" ≡ some ("60", "minute/x")
unfolding split_once
splits = refl

parses_int : parse_int " -1_000" ≡ some (negsuc 999)
unfolding parse_int strip
parses_int = refl
