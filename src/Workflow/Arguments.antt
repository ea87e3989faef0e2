-- ===== src/Workflow/Arguments.antt =====
-- services/ai-agent/src/mcp_ops_ai_agent/workflows/arguments.py. `isdigit` is that of ASCII digits.
pub mod Bound
use Prim.Native.Char.{Char, code}
use mcp_ai.Prelude.{
  ℕ, ◌≡◌, refl, String, Bool, true, false, not, ◌&&◌, ◌||◌, Option, none, some, List, [], ◌∷◌, eqb,
  leb, string_eq, if◌then◌else◌,
}
use mcp_ai.Prelude.Text.{concat, is_empty, strip}
use mcp_ai.Prelude.Number.{ℤ, pos, negsuc, parse_int}
use mcp_ai.Prelude.Dict.{Dict, get, put}
use mcp_ai.Prelude.Exec.{Result, ok, err}
use mcp_ai.Value.{
  Value, null, bool, int, str, list, dict, Items, Fields, field, field?, item?, of_fields,
  to_fields,
}
use mcp_ai.Workflow.Models.{WorkflowNode, ArgumentReference}

-- the message of an ArgumentBindingError
abbrev pub Binding : Type 0 → Type 0
Binding = Result String

-- the segments of `path.replace("[", ".").replace("]", "").split(".")`, the last one first begun
abbrev push_char : Char → List String → List String
push_char c [] = String.◌∷◌ c "" ∷ []
push_char c (s ∷ ss) = String.◌∷◌ c s ∷ ss

unfoldable pub segments : String → List String
segments String.[] = "" ∷ []
segments (String.◌∷◌ c s) =
    let rest = segments s in
    if eqb (code c) 46 || eqb (code c) 91
    then "" ∷ rest
    else if eqb (code c) 93
    then rest
    else push_char c rest

is_digits : String → Bool
is_digits String.[] = true
is_digits (String.◌∷◌ c s) = leb 48 (code c) && leb (code c) 57 && is_digits s

abbrev index_of : Option ℤ → ℕ
index_of (some (pos n)) = n
index_of _ = 0

missing : List String → Binding Value
missing message = err (concat message)

or_missing : Option Value → List String → Binding Value
unfolding missing
or_missing none message = missing message
or_missing (some v) message = ok v

-- one step of the loop of `read_output_path`
enter : String → Value → String → Binding Value
unfolding or_missing is_digits
enter path (dict fields) segment =
    or_missing (field? segment fields) ("Output path " ∷ path ∷ " is missing." ∷ [])
enter path (list items) segment =
    if is_digits segment
    then or_missing (item? (index_of (parse_int segment)) items)
        ("Output path " ∷ path ∷ " index is out of range." ∷ [])
    else missing ("Output path " ∷ path ∷ " cannot be resolved." ∷ [])
enter path _ segment = missing ("Output path " ∷ path ∷ " cannot be resolved." ∷ [])

follow : String → Binding Value → List String → Binding Value
unfolding enter
follow path (err e) ss = err e
follow path (ok v) [] = ok v
follow path (ok v) (segment ∷ ss) =
    if is_empty segment then follow path (ok v) ss else follow path (enter path v segment) ss

unfoldable pub read_output_path : Value → String → Binding Value
unfolding follow segments
read_output_path payload path = follow path (ok payload) (segments path)

-- `_reference_value`
unfoldable pub present : String → String → Binding (Unit {0})
present value field_name =
    if is_empty value
    then err (concat ("Argument reference is missing " ∷ field_name ∷ "." ∷ []))
    else ok tt

unfoldable pub output_of : Option Value → String → Binding Value
output_of none source = err (concat ("Dependency output " ∷ source ∷ " is not available." ∷ []))
output_of (some v) source = ok v

infixl 5 ◌>>=◌ ◌>>◌
abbrev pub ◌>>=◌ : {A B : Type 0} → Binding A → (A → Binding B) → Binding B
ok a >>= k = k a
err e >>= k = err e

abbrev pub ◌>>◌ : {B : Type 0} → Binding (Unit {0}) → Binding B → Binding B
m >> k = m >>= λ _. k

unfoldable pub bind_arguments :
    Dict String Value → List ArgumentReference → Dict String Value → Binding (Dict String Value)
unfolding present output_of read_output_path
bind_arguments outputs [] arguments = ok arguments
bind_arguments outputs (r ∷ rs) arguments = do
  present r.source_node_id "source_node_id"
  present r.argument "argument"
  present r.output_path "output_path"
  output ← output_of (get r.source_node_id outputs) r.source_node_id
  value ← read_output_path output r.output_path
  bind_arguments outputs rs (put r.argument value arguments)

-- the node with its references read, and unchanged where it has none
unfoldable pub resolve_node_arguments : WorkflowNode → Dict String Value → Binding WorkflowNode
unfolding bind_arguments
resolve_node_arguments node outputs = do
  arguments ← bind_arguments outputs node.argument_references node.arguments
  ok (record node { arguments = arguments })

abbrev or_true : Option Value → Value
or_true none = bool true
or_true (some v) = v

abbrev envelope : Value → Value → Value
envelope fine content = dict (to_fields (("ok", fine) ∷ ("data", content) ∷ []))

-- what `tool_result` holds
tool_result : Value → Value
tool_result (dict fields) = elim (field? "data" fields) [
  | some content ↦ envelope (or_true (field? "ok" fields)) content
  | none ↦ envelope (or_true (field? "ok" fields)) (dict fields)
]
tool_result v = envelope (bool true) v

unfoldable pub normalize_tool_output : Dict String Value → Value
unfolding tool_result
normalize_tool_output payload = elim (get "tool_result" payload) [
  | some v ↦ tool_result v
  | none ↦ elim (get "data" payload) [
    | some content ↦ envelope (or_true (get "ok" payload)) content
    | none ↦ envelope (bool true) (dict (to_fields payload))
  ]
]
