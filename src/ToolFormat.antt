-- ===== src/ToolFormat.antt =====
-- protocol.rs and tool_format.rs: how a model writes a tool call, and the parser for it. Text is a
-- list of code points.
pub mod Value
pub mod Probe
pub mod Derive
pub mod Results
pub mod TurnEnd
pub mod Closers
pub mod Total
pub mod Scan
pub mod RoundTrip
pub mod Cut
use mathlib.Core.List.{reverse}
use rampipe.Common.{
  ℕ, zero, suc, ◌+◌, ◌≡◌, Bool, true, false, not, ◌&&◌, ◌||◌, List, [], ◌∷◌, ◌++◌, map, Option,
  none, some, length, take, drop, if◌then◌else◌, ltb, leb, ◌==◌, is_some, nat_eq,
}
use rampipe.Common.Text.{
  Text, codes, text_eq, is_empty, starts_with, strip_prefix, find, rfind, ends_with, trim,
  trim_start, trim_end,
}
use Value.{Json, Fields, insert_field, get, as_str}
use Value

-- `protocol::ToolCall`.
pub record ToolCall : Type 0 where
  pub name : Text
  pub arguments : Json

-- `protocol::ToolFormat`, one record of spans for each family.
pub record JsonSpans : Type 0 where
  pub call_open : Text
  pub call_close : Text
  pub name_key : Text
  pub arguments_key : Text

pub record DelimitedSpans : Type 0 where
  pub call_open : Text
  pub name_close : Text
  pub arg_open : Text
  pub arg_name_close : Text
  pub arg_close : Text
  pub call_close : Text

pub record SeparatedSpans : Type 0 where
  pub call_open : Text
  pub name_close : Text
  pub arg_name_close : Text
  pub value_open : Text
  pub arg_close : Text
  pub arg_sep : Text
  pub call_close : Text

pub data ToolFormat : Type 0 where
  json : JsonSpans → ToolFormat
  delimited : DelimitedSpans → ToolFormat
  separated : SeparatedSpans → ToolFormat

abbrev pub call_open : ToolFormat → Text
call_open (json f) = f.call_open
call_open (delimited f) = f.call_open
call_open (separated f) = f.call_open

abbrev pub call_close : ToolFormat → Text
call_close (json f) = f.call_close
call_close (delimited f) = f.call_close
call_close (separated f) = f.call_close

-- The prefixes of `closer` behind each `>`, the longest first, `closer` itself left out. `done` is
-- what was passed, in reverse.
unfoldable pub shorter_closers : Text → Text → List Text
shorter_closers done [] = []
shorter_closers done (c ∷ s) =
    let later = shorter_closers (c ∷ done) s in
    if (c == b'>') && not (is_empty s) then later ++ reverse (c ∷ done) ∷ [] else later

-- `close_candidates`.
unfoldable pub close_candidates : Text → List Text
unfolding shorter_closers
close_candidates [] = []
close_candidates (c ∷ s) = (c ∷ s) ∷ shorter_closers [] (c ∷ s)

-- The first candidate that occurs, with its position and length.
unfoldable pub first_found : Text → List Text → Option (ℕ × ℕ)
unfolding find
first_found text [] = none
first_found text (p ∷ ps) = elim (find text p) [
  | some at ↦ some (at, length p)
  | none ↦ first_found text ps
]

-- `find_close`.
unfoldable pub find_close : Text → Text → Option (ℕ × ℕ)
unfolding first_found close_candidates
find_close text call_close = first_found text (close_candidates call_close)

-- `named`.
unfoldable pub named : Text → Fields → Option ToolCall
named [] arguments = none
named (c ∷ s) arguments = some (record { name = c ∷ s; arguments = Value.object arguments })

-- `find_sep`.
unfoldable pub find_sep : Text → Text → Option ℕ
unfolding find
find_sep text [] = none
find_sep text (c ∷ s) = find text (c ∷ s)

-- What a call's closer leaves: the body, and the text behind it.
abbrev pub cut_body : Text → Option (ℕ × ℕ) → Text × Text
cut_body after_open none = (after_open, [])
cut_body after_open (some (end, len)) = (take end after_open, drop (end + len) after_open)

abbrev pub push_call : Option ToolCall → List ToolCall → List ToolCall
push_call none calls = calls
push_call (some call) calls = call ∷ calls

-- `out_of_fuel` stands for a loop that has not ended.
pub data Run {ℓ} (A : Type ℓ) : Type ℓ where
  returns : A → Run A
  out_of_fuel : Run A

infixl 5 ◌>>=◌
abbrev pub ◌>>=◌ {ℓ κ} : {A : Type ℓ} {B : Type κ} → Run A → (A → Run B) → Run B
returns a >>= f = f a
out_of_fuel >>= f = out_of_fuel

-- What a round of `scan_calls` does with the call that it cut out; `again` is the rest of the loop.
-- The calls of the later rounds come behind this round's.
unfoldable pub scan_body :
    (Text → Run (List ToolCall))
    → (Text → Run (Option ToolCall))
    → Text × Text
    → Run (List ToolCall)
scan_body again read_body (body, remainder) = read_body body >>= λ call. elim (is_empty remainder) [
  | true ↦ returns (push_call call [])
  | false ↦ again remainder >>= λ calls. returns (push_call call calls)
]

-- The loop of `scan_calls`.
unfoldable pub scan_loop :
    ℕ → Text → Text → (Text → Run (Option ToolCall)) → Text → Run (List ToolCall)
scan_loop zero call_open call_close read_body rest = out_of_fuel
scan_loop (suc fuel) call_open call_close read_body rest = elim (find rest call_open) [
  | none ↦ returns []
  | some start ↦
      let after_open = drop (start + length call_open) rest in
      scan_body (scan_loop fuel call_open call_close read_body) read_body
        (cut_body after_open (find_close after_open call_close))
]

-- `scan_calls`. Each round takes at least one character off.
unfoldable pub scan_calls :
    Text → Text → Text → (Text → Run (Option ToolCall)) → Run (List ToolCall)
unfolding scan_loop
scan_calls text call_open call_close read_body =
    scan_loop (suc (length text)) call_open call_close read_body text

-- The body of a call in the family `Json`; `from_str` is `serde_json::from_str`.
module _ (from_str : Text → Option Json) where
  abbrev with_arguments : Text → Option Json → Option ToolCall
  with_arguments [] arguments = none
  with_arguments (c ∷ s) none = some (record { name = c ∷ s; arguments = Value.null })
  with_arguments (c ∷ s) (some v) = some (record { name = c ∷ s; arguments = v })

  unfoldable pub read_json : JsonSpans → Text → Option ToolCall
  unfolding trim get as_str
  read_json f body = elim (from_str (trim body)) [
    | none ↦ none
    | some value ↦ elim (get f.name_key value) [
      | none ↦ none
      | some found ↦ elim (as_str found) [
        | none ↦ none
        | some name ↦ with_arguments name (get f.arguments_key value)
      ]
    ]
  ]

-- A value and what stands behind it: up to the closer, or all there is.
abbrev pub cut_at : Text → ℕ → Option ℕ → Text × Text
cut_at text len none = (text, [])
cut_at text len (some end) = (take end text, drop (end + len) text)

-- What a round does with an argument that it cut out; `again` is the rest of the loop.
unfoldable pub put_value : (Text → Fields → Run Fields) → Fields → Text → Text × Text → Run Fields
put_value again arguments arg_name (value, next) =
    let arguments' = insert_field arg_name (Value.string value) arguments in
    elim (is_empty next) [ true ↦ returns arguments' | false ↦ again next arguments' ]

-- The loop over the arguments in `parse_delimited_calls`.
unfoldable pub delimited_args : ℕ → DelimitedSpans → Text → Fields → Run Fields
delimited_args zero f args_rest arguments = out_of_fuel
delimited_args (suc fuel) f args_rest arguments = elim (find args_rest f.arg_open) [
  | none ↦ returns arguments
  | some arg_start ↦
      let after_arg_open = drop (arg_start + length f.arg_open) args_rest in
      elim (find after_arg_open f.arg_name_close) [
        | none ↦ returns arguments
        | some arg_name_end ↦
            let after_name = drop (arg_name_end + length f.arg_name_close) after_arg_open in
            put_value (delimited_args fuel f) arguments (trim (take arg_name_end after_arg_open))
              (cut_at after_name (length f.arg_close) (find after_name f.arg_close))
      ]
]

-- The body of a call in the family `Delimited`.
unfoldable pub read_delimited : DelimitedSpans → Text → Run (Option ToolCall)
read_delimited f body = elim (find body f.name_close) [
  | none ↦ returns none
  | some name_end ↦
      let name = trim (take name_end body) in
      let args = drop (name_end + length f.name_close) body in
      delimited_args (suc (length args)) f args Value.end >>= λ arguments.
      returns (named name arguments)
]

-- A bare value ends at the next separator, or at the end.
unfoldable pub bare_value : SeparatedSpans → Text → Text × Text
bare_value f after_name = elim (find_sep after_name f.arg_sep) [
  | some end ↦ (trim (take end after_name), drop end after_name)
  | none ↦ (trim after_name, [])
]

-- A value of `split_args` and what stands behind it: wrapped up to its closer, or bare up to the
-- next separator.
unfoldable pub split_value : SeparatedSpans → Text → Text × Text
split_value f after_name = elim (strip_prefix after_name f.value_open) [
  | none ↦ bare_value f after_name
  | some inner ↦ elim (is_empty f.value_open) [
    | true ↦ bare_value f after_name
    | false ↦ cut_at inner (length f.arg_close) (find inner f.arg_close)
  ]
]

abbrev pub push_arg : Text → Text → List (Text × Text) → List (Text × Text)
push_arg [] value out = out
push_arg (c ∷ s) value out = (c ∷ s, value) ∷ out

-- The text behind the next separator.
unfoldable pub behind_sep : SeparatedSpans → Text → Text
behind_sep f remainder = elim (find_sep remainder f.arg_sep) [
  | some at ↦ drop (at + length f.arg_sep) remainder
  | none ↦ []
]

-- The loop of `split_args`. The arguments of the later rounds come behind this round's.
unfoldable pub split_loop : ℕ → SeparatedSpans → Text → Run (List (Text × Text))
split_loop zero f rest = out_of_fuel
split_loop (suc fuel) f rest = elim (is_empty rest) [
  | true ↦ returns []
  | false ↦ elim (find rest f.arg_name_close) [
    | none ↦ returns []
    | some at ↦
        let key = trim (take at rest) in
        let after_name = drop (at + length f.arg_name_close) rest in
        let cut = split_value f after_name in
        split_loop fuel f (behind_sep f cut.1) >>= λ out. returns (push_arg key cut.0 out)
  ]
]

-- `split_args`.
unfoldable pub split_args : SeparatedSpans → Text → Run (List (Text × Text))
unfolding split_loop
split_args f args = split_loop (suc (length args)) f args

-- The arguments in order, a later one over an earlier of the same name.
unfoldable pub collect : List (Text × Text) → Fields → Fields
collect [] arguments = arguments
collect ((k, v) ∷ out) arguments = collect out (insert_field k (Value.string v) arguments)

-- The body of a call in the family `Separated`.
unfoldable pub read_separated : SeparatedSpans → Text → Run (Option ToolCall)
read_separated f body = elim (find body f.name_close) [
  | none ↦ returns none
  | some name_end ↦
      let name = trim (take name_end body) in
      split_args f (drop (name_end + length f.name_close) body) >>= λ out.
      returns (named name (collect out Value.end))
]

module _ (from_str : Text → Option Json) where
  -- `parse_json_calls`, `parse_delimited_calls` and `parse_separated_calls`, by `parse_tool_calls`.
  unfoldable pub parse_tool_calls : Text → ToolFormat → Run (List ToolCall)
  unfolding scan_calls scan_body find_close find trim read_json read_delimited delimited_args
      put_value named read_separated split_args split_value bare_value behind_sep find_sep
      strip_prefix insert_field collect
  parse_tool_calls text (json f) =
      scan_calls text f.call_open f.call_close (λ body. returns (read_json from_str f body))
  parse_tool_calls text (delimited f) = scan_calls text f.call_open f.call_close (read_delimited f)
  parse_tool_calls text (separated f) = scan_calls text f.call_open f.call_close (read_separated f)
