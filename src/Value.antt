-- ===== src/Value.antt =====
-- The JSON-like values (`Any`) that tool arguments, outputs and conditions carry, with Python's
-- equality on them: `True == 1`, and dictionaries are compared without regard to order.
-- Floating-point values are not modelled.
use mathlib.Core.Bool.{◌&&◌}
use mcp_ai.Prelude.{
  ℕ, zero, suc, String, ◌≡◌, refl, Bool, true, false, Option, none, some, [], ◌∷◌, eqb, ltb, ◌==◌,
  string_eq, if◌then◌else◌,
}
use mcp_ai.Prelude.Number.{ℤ, pos, negsuc}
use mcp_ai.Prelude.Dict.{Dict}

abbrev pub int_eq : ℤ → ℤ → Bool
int_eq (pos a) (pos b) = eqb a b
int_eq (negsuc a) (negsuc b) = eqb a b
int_eq _ _ = false

abbrev pub int_lt : ℤ → ℤ → Bool
int_lt (pos a) (pos b) = ltb a b
int_lt (pos a) (negsuc b) = false
int_lt (negsuc a) (pos b) = true
int_lt (negsuc a) (negsuc b) = ltb b a

mutual
  pub data Value : Type 0 where
    null : Value
    bool : Bool → Value
    int : ℤ → Value
    str : String → Value
    list : Items → Value
    dict : Fields → Value

  pub data Fields : Type 0 where
    end : Fields
    field : String → Value → Fields → Fields

  pub data Items : Type 0 where
    nil : Items
    cons : Value → Items → Items

abbrev pub to_fields : Dict String Value → Fields
to_fields [] = end
to_fields ((k, v) ∷ m) = field k v (to_fields m)

abbrev pub of_fields : Fields → Dict String Value
of_fields end = []
of_fields (field k v m) = (k, v) ∷ of_fields m

unfoldable pub field? : String → Fields → Option Value
field? k end = none
field? k (field j v m) = if j == k then some v else field? k m

unfoldable pub items_length : Items → ℕ
items_length nil = 0
items_length (cons v vs) = suc (items_length vs)

unfoldable pub fields_length : Fields → ℕ
fields_length end = 0
fields_length (field k v m) = suc (fields_length m)

unfoldable pub item? : ℕ → Items → Option Value
item? n nil = none
item? zero (cons v vs) = some v
item? (suc n) (cons v vs) = item? n vs

-- A Boolean is an `int` to Python.
abbrev pub int_of_bool : Bool → ℤ
int_of_bool true = pos 1
int_of_bool false = pos 0

unfoldable mutual
  -- a == b
  pub py_eq : Value → Value → Bool
  py_eq null null = true
  py_eq (bool a) (bool b) = int_eq (int_of_bool a) (int_of_bool b)
  py_eq (bool a) (int n) = int_eq (int_of_bool a) n
  py_eq (int n) (bool b) = int_eq n (int_of_bool b)
  py_eq (int n) (int m) = int_eq n m
  py_eq (str s) (str t) = s == t
  py_eq (list xs) (list ys) = py_eq_items xs ys
  py_eq (dict xs) (dict ys) = eqb (fields_length xs) (fields_length ys) && py_eq_fields xs ys
  py_eq _ _ = false

  pub py_eq_items : Items → Items → Bool
  py_eq_items nil nil = true
  py_eq_items (cons v vs) (cons w ws) = py_eq v w && py_eq_items vs ws
  py_eq_items _ _ = false

  -- every item of the first is one of the second
  pub py_eq_fields : Fields → Fields → Bool
  py_eq_fields end ws = true
  py_eq_fields (field k v vs) ws = elim (field? k ws) [
    | none ↦ false
    | some w ↦ py_eq v w && py_eq_fields vs ws
  ]

-- equality of two argument dictionaries
unfoldable pub arguments_eq : Dict String Value → Dict String Value → Bool
unfolding py_eq field? fields_length
arguments_eq xs ys = py_eq (dict (to_fields xs)) (dict (to_fields ys))

-- isinstance(value, str)
abbrev pub is_str : Value → Bool
is_str (str _) = true
is_str _ = false

order_is_forgotten :
    arguments_eq (("a", int (pos 1)) ∷ ("b", null) ∷ []) (("b", null) ∷ ("a", bool true) ∷ [])
    ≡ true
unfolding arguments_eq
order_is_forgotten = refl
