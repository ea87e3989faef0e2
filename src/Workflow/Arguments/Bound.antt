-- ===== src/Workflow/Arguments/Bound.antt =====
-- services/ai-agent/src/mcp_ops_ai_agent/workflows/arguments.py: the arguments that references fill.
use mathlib.Core.List.{Memᴰ}
use mcp_ai.Prelude.{
  String, true, Option, none, some, List, [], ◌∷◌, ◌≡◌, ◌≢◌, refl, ap, ◌∙◌, ◌⊎◌, inl, inr, All,
  Bool-cases, ◌==◌, string_eq, eq_iff, if◌then◌else◌, arith,
}
use mcp_ai.Prelude.Text.{is_empty}
use mcp_ai.Prelude.Exec.{ok, err}
use mcp_ai.Prelude.Dict.{Dict, get, put, get-put}
use mcp_ai.Value.{Value}
use mcp_ai.Workflow.Models.{ArgumentReference}
use mcp_ai.Workflow.Arguments.{
  Binding, bind_arguments, present, output_of, read_output_path, ◌>>=◌, ◌>>◌,
}

-- what holds of the value, where there is one, and what holds where there is none
abbrev pub Yields : {A : Type 0} → (A → Type 0) → Type 0 → Binding A → Type 0
Yields J F (ok a) = J a
Yields J F (err e) = F

then-Yields :
    {A B : Type 0} (J : B → Type 0) (F : Type 0) (x : Binding A) (k : A → Binding B)
    → ((e : String) → x ≡ err e → F)
    → ((a : A) → x ≡ ok a → Yields J F (k a))
    → Yields J F (x >>= k)
then-Yields J F (ok a) k fails each = each a refl
then-Yields J F (err e) k fails each = fails e refl

weaken-Yields :
    {A : Type 0} (J K : A → Type 0) (F H : Type 0) (x : Binding A)
    → ((a : A) → J a → K a)
    → (F → H)
    → Yields J F x
    → Yields K H x
weaken-Yields J K F H (ok a) to fails h = to a h
weaken-Yields J K F H (err e) to fails h = fails h

present-err : (value name e : String) → present value name ≡ err e → is_empty value ≡ true
unfolding present
present-err value name e h = ground arith

output_of-ok :
    (o : Option Value) (source : String) (v : Value) → output_of o source ≡ ok v → o ≡ some v
unfolding output_of
output_of-ok none source v h = ground arith
output_of-ok (some u) source v h = ground arith

output_of-err : (o : Option Value) (source e : String) → output_of o source ≡ err e → o ≡ none
unfolding output_of
output_of-err none source e h = refl
output_of-err (some u) source e h = ground arith

module _ (outputs : Dict String Value) where
  -- a value that a reference reads from the outputs
  abbrev pub Reads : ArgumentReference → Value → Type 0
  Reads r v =
      (output : Value) × (get r.source_node_id outputs ≡ some output)
      × (read_output_path output r.output_path ≡ ok v)

  -- a reference that lacks a field, or whose source has no output, or none along its path
  abbrev pub Unreadable : ArgumentReference → Type 0
  Unreadable r =
      ((is_empty r.source_node_id ≡ true)
        ⊎ ((is_empty r.argument ≡ true) ⊎ (is_empty r.output_path ≡ true)))
      ⊎ ((get r.source_node_id outputs ≡ none)
          ⊎ ((output : Value) × (get r.source_node_id outputs ≡ some output)
              × ((e : String) × (read_output_path output r.output_path ≡ err e))))

  -- where an argument comes from: it is as it was, and no reference names it, or a reference reads it
  abbrev pub Sourced :
      List ArgumentReference → Dict String Value → Dict String Value → String → Type 0
  Sourced rs arguments bound k =
      (All (λ r. r.argument ≢ k) rs × (get k bound ≡ get k arguments))
      ⊎ ((r : ArgumentReference) × Memᴰ r rs
          × (r.argument ≡ k)
          × ((v : Value) × Reads r v × (get k bound ≡ some v)))

  abbrev GoodFor : List ArgumentReference → Dict String Value → Dict String Value → Type 0
  GoodFor rs arguments bound = (k : String) → Sourced rs arguments bound k

  abbrev pub Broken : List ArgumentReference → Type 0
  Broken rs = (r : ArgumentReference) × Memᴰ r rs × Unreadable r

  Sourced-cons :
      (r : ArgumentReference) (rs : List ArgumentReference) (arguments bound : Dict String Value)
      (v : Value) (k : String)
      → Reads r v
      → Sourced rs (put r.argument v arguments) bound k
      → Sourced (r ∷ rs) arguments bound k
  Sourced-cons r rs arguments bound v k reads (inr (s, mem, named, value)) =
      inr (s, Memᴰ.tail mem, named, value)
  Sourced-cons r rs arguments bound v k reads (inl (apart, same)) =
      elim (Bool-cases (r.argument == k)) [
        | inl h ↦ inr (
          r,
          Memᴰ.head refl,
          (eq_iff r.argument k).0 h,
          (
            v,
            reads,
            same
                ∙ get-put r.argument k v arguments
                ∙ ap (λ b. if b then some v else get k arguments) h,
          ),
        )
        | inr h ↦ inl (
          (λ e. ground (arith, h, (eq_iff r.argument k).1 e), apart),
          same
              ∙ get-put r.argument k v arguments
              ∙ ap (λ b. if b then some v else get k arguments) h,
        )
      ]

  module _ (r : ArgumentReference) (rs : List ArgumentReference)
      (arguments : Dict String Value) where
    abbrev Bound : Binding (Dict String Value) → Type 0
    Bound = Yields (GoodFor (r ∷ rs) arguments) (Broken (r ∷ rs))

    abbrev kept : Value → Binding (Dict String Value)
    kept v = bind_arguments outputs rs (put r.argument v arguments)

    abbrev entered : Value → Binding (Dict String Value)
    entered output = read_output_path output r.output_path >>= kept

    abbrev looked : Binding (Dict String Value)
    looked = output_of (get r.source_node_id outputs) r.source_node_id >>= entered

    bad : Unreadable r → Broken (r ∷ rs)
    bad h = (r, Memᴰ.head refl, h)

    read-Bound :
        ((v : Value) → Yields (GoodFor rs (put r.argument v arguments)) (Broken rs) (kept v))
        → Bound looked
    read-Bound later =
        then-Yields (GoodFor (r ∷ rs) arguments) (Broken (r ∷ rs))
          (output_of (get r.source_node_id outputs) r.source_node_id) entered
          (λ e eo.
            bad (inr (inl (output_of-err (get r.source_node_id outputs) r.source_node_id e eo))))
          λ output eo.
            let found : get r.source_node_id outputs ≡ some output =
              output_of-ok (get r.source_node_id outputs) r.source_node_id output eo in
            then-Yields (GoodFor (r ∷ rs) arguments) (Broken (r ∷ rs))
              (read_output_path output r.output_path) kept
              (λ e ee. bad (inr (inr (output, found, (e, ee)))))
              λ v ev.
                weaken-Yields (GoodFor rs (put r.argument v arguments)) (GoodFor (r ∷ rs) arguments)
                  (Broken rs) (Broken (r ∷ rs)) (kept v)
                  (λ bound good k.
                    Sourced-cons r rs arguments bound v k (output, found, ev) (good k))
                  (λ (s, mem, h). (s, Memᴰ.tail mem, h)) (later v)

    abbrev with_path : Binding (Dict String Value)
    with_path = present r.output_path "output_path" >> looked

    abbrev with_argument : Binding (Dict String Value)
    with_argument = present r.argument "argument" >> with_path

    present-Bound :
        Bound looked → Bound (present r.source_node_id "source_node_id" >> with_argument)
    present-Bound h =
        then-Yields (GoodFor (r ∷ rs) arguments) (Broken (r ∷ rs))
          (present r.source_node_id "source_node_id") (λ u. with_argument)
          (λ e ee. bad (inl (inl (present-err r.source_node_id "source_node_id" e ee))))
          λ a ea.
            then-Yields (GoodFor (r ∷ rs) arguments) (Broken (r ∷ rs))
              (present r.argument "argument") (λ u. with_path)
              (λ e ee. bad (inl (inr (inl (present-err r.argument "argument" e ee)))))
              λ b eb.
                then-Yields (GoodFor (r ∷ rs) arguments) (Broken (r ∷ rs))
                  (present r.output_path "output_path") (λ u. looked)
                  (λ e ee. bad (inl (inr (inr (present-err r.output_path "output_path" e ee)))))
                  λ c ec. h

-- Where the references of a node bind, each of its arguments is as it was, if no reference names it, and
-- otherwise holds what one of the references that name it reads from the output of its source. Where
-- they do not, one of them lacks a field, or its source has no output, or none along its path.
pub bind_arguments-Sourced :
    (outputs : Dict String Value) (rs : List ArgumentReference) (arguments : Dict String Value)
    → Yields
        (λ bound. (k : String) → Sourced outputs rs arguments bound k)
        (Broken outputs rs)
        (bind_arguments outputs rs arguments)
unfolding bind_arguments
bind_arguments-Sourced outputs [] arguments = λ k. inl (tt, refl)
bind_arguments-Sourced outputs (r ∷ rs) arguments = present-Bound outputs r rs arguments (
    read-Bound outputs r rs arguments
      λ v. bind_arguments-Sourced outputs rs (put r.argument v arguments))
