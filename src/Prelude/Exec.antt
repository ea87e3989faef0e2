-- ===== src/Prelude/Exec.antt =====
-- Methods that mutate an object and may raise: what was written before a raise stays written, so
-- the state comes back beside the error too.
use mathlib.Core.Bool.{Bool, true, false}

pub data Result {ℓ κ} (E : Type ℓ) (A : Type κ) : Type (ℓ ⊔ κ) where
  ok : A → Result E A
  err : E → Result E A

abbrev pub Exec : Type 0 → Type 0 → Type 0 → Type 0
Exec E S A = S → Result E A × S

module _ {E S A : Type 0} where
  abbrev pub pure : A → Exec E S A
  pure a s = (ok a, s)

  abbrev pub raise : E → Exec E S A
  raise e s = (err e, s)

  -- an expression over the state
  abbrev pub gets : (S → A) → Exec E S A
  gets f s = (ok (f s), s)

  -- a pure function that may raise
  abbrev pub lift : Result E A → Exec E S A
  lift r s = (r, s)

  -- `try: m` / `except E as exc: handler(exc)`
  abbrev pub handle : Result E A → (E → Exec E S A) → Exec E S A
  handle (ok a) h = pure a
  handle (err e) h = h e

  abbrev pub try_except : Exec E S A → (E → Exec E S A) → Exec E S A
  try_except m h s = let (r, s') = m s in handle r h s'

module _ {E S : Type 0} where
  abbrev pub modify : (S → S) → Exec E S (Unit {0})
  modify f s = (ok tt, f s)

  abbrev pub guard : Bool → E → Exec E S (Unit {0})
  guard true e = pure tt
  guard false e = raise e

module _ {E S A B : Type 0} where
  abbrev pub and_then : Result E A → (A → Exec E S B) → Exec E S B
  and_then (ok a) f = f a
  and_then (err e) f = raise e

  infixl 5 ◌>>=◌ ◌>>◌
  abbrev pub ◌>>=◌ : Exec E S A → (A → Exec E S B) → Exec E S B
  ◌>>=◌ m f s = let (r, s') = m s in and_then r f s'

  abbrev pub ◌>>◌ : Exec E S A → Exec E S B → Exec E S B
  m >> n = m >>= λ _. n

-- the part of a state that a component owns
module _ {E S T A : Type 0} where
  abbrev pub zoom : (S → T) → (T → S → S) → Exec E T A → Exec E S A
  zoom get set m s = let (r, t) = m (get s) in (r, set t s)
