-- ===== src/Prelude/Text.antt =====
-- `str.upper`, `str.lower` and `str.strip`. The case of letters is that of ASCII; the white space
-- of `strip` is that of `str.isspace`.
use Prim.Native.Nat.{ℕ, zero, suc, ◌/◌, ◌%◌}
use Prim.Native.Char.{Char, code}
use Prim.Native.String.{String, ◌++◌}
use mathlib.Core.Path.{◌≡◌, refl}
use mathlib.Core.Bool.{Bool, true, false, ◌&&◌, ◌||◌}
use mathlib.Core.Option.{Option, none, some}
use mathlib.Core.List.{List, [], ◌∷◌}
use mcp_ai.Prelude.Tests.{eqb, leb, ltb, if◌then◌else◌}

abbrev letters : List (Char × Char)
letters =
    ("a", "A")
    ∷ ("b", "B")
    ∷ ("c", "C")
    ∷ ("d", "D")
    ∷ ("e", "E")
    ∷ ("f", "F")
    ∷ ("g", "G")
    ∷ ("h", "H")
    ∷ ("i", "I")
    ∷ ("j", "J")
    ∷ ("k", "K")
    ∷ ("l", "L")
    ∷ ("m", "M")
    ∷ ("n", "N")
    ∷ ("o", "O")
    ∷ ("p", "P")
    ∷ ("q", "Q")
    ∷ ("r", "R")
    ∷ ("s", "S")
    ∷ ("t", "T")
    ∷ ("u", "U")
    ∷ ("v", "V")
    ∷ ("w", "W")
    ∷ ("x", "X")
    ∷ ("y", "Y")
    ∷ ("z", "Z")
    ∷ []

to_upper : Char → List (Char × Char) → Char
to_upper c [] = c
to_upper c ((low, up) ∷ t) = if eqb (code c) (code low) then up else to_upper c t

to_lower : Char → List (Char × Char) → Char
to_lower c [] = c
to_lower c ((low, up) ∷ t) = if eqb (code c) (code up) then low else to_lower c t

unfoldable pub upper : String → String
unfolding to_upper
upper String.[] = String.[]
upper (String.◌∷◌ c s) = String.◌∷◌ (to_upper c letters) (upper s)

unfoldable pub lower : String → String
unfolding to_lower
lower String.[] = String.[]
lower (String.◌∷◌ c s) = String.◌∷◌ (to_lower c letters) (lower s)

is_space : ℕ → Bool
is_space n =
    (leb 9 n && leb n 13)
    || ((leb 28 n && leb n 32)
        || (eqb n 133
            || (eqb n 160
                || (eqb n 5760
                    || ((leb 8192 n && leb n 8202)
                        || (eqb n 8232
                            || (eqb n 8233 || (eqb n 8239 || (eqb n 8287 || eqb n 12288)))))))))

lstrip : String → String
unfolding is_space
lstrip String.[] = String.[]
lstrip (String.◌∷◌ c s) = if is_space (code c) then lstrip s else String.◌∷◌ c s

abbrev snoc_trimmed : Char → String → String
unfolding is_space
snoc_trimmed c String.[] = if is_space (code c) then String.[] else String.◌∷◌ c String.[]
snoc_trimmed c (String.◌∷◌ d s) = String.◌∷◌ c (String.◌∷◌ d s)

rstrip : String → String
rstrip String.[] = String.[]
rstrip (String.◌∷◌ c s) = snoc_trimmed c (rstrip s)

unfoldable pub strip : String → String
unfolding lstrip rstrip
strip s = rstrip (lstrip s)

-- `not s` for a text
unfoldable pub is_empty : String → Bool
is_empty String.[] = true
is_empty (String.◌∷◌ _ _) = false

-- `", ".join(items)`
unfoldable pub join : String → List String → String
join sep [] = ""
join sep (x ∷ []) = x
join sep (x ∷ y ∷ xs) = x ++ (sep ++ join sep (y ∷ xs))

-- s[:n]
abbrev pub first : ℕ → String → String
first zero s = ""
first (suc n) String.[] = ""
first (suc n) (String.◌∷◌ c s) = String.◌∷◌ c (first n s)

-- len(text)
unfoldable pub text_length : String → ℕ
text_length String.[] = 0
text_length (String.◌∷◌ c s) = suc (text_length s)

-- a field with `min_length` and `max_length`
unfoldable pub has_length : ℕ → ℕ → String → Bool
unfolding text_length
has_length low high s = leb low (text_length s) && leb (text_length s) high

-- a field that may be None, with `max_length`
unfoldable pub optional_length : ℕ → Option String → Bool
unfolding has_length
optional_length most none = true
optional_length most (some s) = has_length 0 most s

-- an f-string, from its pieces
abbrev pub concat : List String → String
concat [] = ""
concat (x ∷ xs) = x ++ concat xs

-- `str(n)`
abbrev digits : List String
digits = "0" ∷ "1" ∷ "2" ∷ "3" ∷ "4" ∷ "5" ∷ "6" ∷ "7" ∷ "8" ∷ "9" ∷ []

digit : ℕ → List String → String
digit n [] = ""
digit zero (d ∷ ds) = d
digit (suc n) (d ∷ ds) = digit n ds

-- on fuel, of which a number itself is enough
number_text : ℕ → ℕ → String
unfolding digit
number_text zero n = digit n digits
number_text (suc fuel) n =
    let high = number_text fuel (n / 10) in
    if ltb n 10 then digit n digits else high ++ digit (n % 10) digits

unfoldable pub str_of_nat : ℕ → String
unfolding number_text
str_of_nat n = number_text n n

-- `part in whole`
starts_with : String → String → Bool
starts_with String.[] s = true
starts_with (String.◌∷◌ c p) String.[] = false
starts_with (String.◌∷◌ c p) (String.◌∷◌ d s) = eqb (code c) (code d) && starts_with p s

unfoldable pub contains_text : String → String → Bool
unfolding starts_with
contains_text part String.[] = starts_with part String.[]
contains_text part (String.◌∷◌ c s) = starts_with part (String.◌∷◌ c s) || contains_text part s

number_shown : str_of_nat 1_203 ≡ "1203"
unfolding str_of_nat
number_shown = refl

part_found : contains_text "expire" "has expired" ≡ true
unfolding contains_text
part_found = refl

strip_trims : strip "  Prod \n" ≡ "Prod"
unfolding strip is_space
strip_trims = refl

lower_word : lower "Prod-9" ≡ "prod-9"
unfolding lower
lower_word = refl

upper_word : upper "Admin" ≡ "ADMIN"
unfolding upper
upper_word = refl
