-- ===== src/ToolFormat/Total.antt =====
-- tool_format.rs: the loops of `parse_tool_calls` and their ends.
use rampipe.Common.{
  ℕ, zero, suc, ◌+◌, ◌≤◌, ◌<◌, ◌≡◌, refl, ◌⊎◌, inl, inr, false, List, [], ◌∷◌, Option, none, some,
  arith, length, take, drop, length-drop, Bool-cases, Option-cases,
}
use rampipe.Common.Text.{Text, is_empty, find, trim, strip_prefix}
use rampipe.Common.Text.Find.{find-le}
use rampipe.ToolFormat.Value.{Json, Fields, insert_field}
use rampipe.ToolFormat.Value
use rampipe.ToolFormat.{
  ToolCall, ToolFormat, json, delimited, separated, DelimitedSpans, SeparatedSpans, Run, returns,
  out_of_fuel, ◌>>=◌, cut_body, cut_at, push_call, push_arg, scan_body, scan_loop, scan_calls,
  put_value, delimited_args, read_delimited, split_value, bare_value, behind_sep, split_loop,
  split_args, read_separated, read_json, collect, named, find_sep, find_close, parse_tool_calls,
}
use rampipe.ToolFormat.Closers.{find_close_bounds}

abbrev pub Returns {ℓ} : {A : Type ℓ} → Run A → Type ℓ
Returns {A} r = (a : A) × (r ≡ returns a)

>>=-Returns {ℓ κ} :
    {A : Type ℓ} {B : Type κ} (m : Run A) (f : A → Run B)
    → Returns m
    → ((a : A) → Returns (f a))
    → Returns (m >>= f)
>>=-Returns m f (a, e) h = rw e (h a)

is_empty-length : (s : Text) → is_empty s ≡ false → 1 ≤ length s
is_empty-length [] h = ground arith
is_empty-length (c ∷ s) h = omega arith

-- The rest behind a call is shorter, if it is not empty.
cut_body-shrinks :
    (after closer : Text)
    → is_empty (cut_body after (find_close after closer)).1 ≡ false
    → length (cut_body after (find_close after closer)).1 < length after
cut_body-shrinks after closer h = elim (Option-cases (find_close after closer)) [
  | inl e ↦ absurd (ground (arith, rw e at h))
  | inr ((at, len), e) ↦
      let b = find_close_bounds after closer at len e in
      rw e (omega (arith, b, length-drop (at + len) after))
]

scan_body-Returns :
    (again : Text → Run (List ToolCall)) (read_body : Text → Run (Option ToolCall))
    (cut : Text × Text)
    → ((body : Text) → Returns (read_body body))
    → (is_empty cut.1 ≡ false → Returns (again cut.1))
    → Returns (scan_body again read_body cut)
unfolding scan_body
scan_body-Returns again read_body (body, remainder) total later =
    >>=-Returns (read_body body) _ (total body) (λ call. elim (Bool-cases (is_empty remainder)) [
      | inl y ↦ rw y (push_call call [], refl)
      | inr n ↦
          rw n (>>=-Returns (again remainder) _ (later n) (λ calls. (push_call call calls, refl)))
    ])

scan_loop-Returns :
    (fuel : ℕ) (opener closer : Text) (read_body : Text → Run (Option ToolCall)) (rest : Text)
    → ((body : Text) → Returns (read_body body))
    → length rest < fuel
    → Returns (scan_loop fuel opener closer read_body rest)
unfolding scan_loop
scan_loop-Returns zero opener closer read_body rest total h = absurd (omega arith)
scan_loop-Returns (suc fuel) opener closer read_body rest total h =
    elim (Option-cases (find rest opener)) [
      | inl e ↦ rw (e, scan_loop) ([], refl)
      | inr (start, e) ↦
          let after = drop (start + length opener) rest in
          rw (e, scan_loop)
            (scan_body-Returns (scan_loop fuel opener closer read_body) read_body
              (cut_body after (find_close after closer)) total
              (λ n.
                scan_loop-Returns fuel opener closer read_body
                  (cut_body after (find_close after closer)).1 total
                  (omega (
                    arith,
                    cut_body-shrinks after closer n,
                    length-drop (start + length opener) rest,
                  ))))
    ]

-- A scan ends, whatever the spans, if the reader of the bodies does.
scan_calls-Returns :
    (text opener closer : Text) (read_body : Text → Run (Option ToolCall))
    → ((body : Text) → Returns (read_body body))
    → Returns (scan_calls text opener closer read_body)
unfolding scan_calls
scan_calls-Returns text opener closer read_body total =
    scan_loop-Returns (suc (length text)) opener closer read_body text total (omega arith)

cut_at-le : (text : Text) (len : ℕ) (o : Option ℕ) → length (cut_at text len o).1 ≤ length text
cut_at-le text len none = omega arith
cut_at-le text len (some end) = omega (arith, length-drop (end + len) text)

cut_at-lt :
    (text pattern : Text)
    → is_empty (cut_at text (length pattern) (find text pattern)).1 ≡ false
    → length (cut_at text (length pattern) (find text pattern)).1 + length pattern ≤ length text
cut_at-lt text pattern h = elim (Option-cases (find text pattern)) [
  | inl e ↦ absurd (ground (arith, rw e at h))
  | inr (at, e) ↦
      rw e (omega (arith, find-le text pattern at e, length-drop (at + length pattern) text))
]

-- The spans of an argument, together.
abbrev pub arg_span : DelimitedSpans → ℕ
arg_span f = length f.arg_open + length f.arg_name_close + length f.arg_close

put_value-Returns :
    (again : Text → Fields → Run Fields) (arguments : Fields) (key : Text) (cut : Text × Text)
    → ((a : Fields) → is_empty cut.1 ≡ false → Returns (again cut.1 a))
    → Returns (put_value again arguments key cut)
unfolding put_value
put_value-Returns again arguments key (value, next) later = elim (Bool-cases (is_empty next)) [
  | inl y ↦ rw (y, put_value) (insert_field key (Value.string value) arguments, refl)
  | inr n ↦ rw (n, put_value) (later (insert_field key (Value.string value) arguments) n)
]

delimited_args-Returns :
    (fuel : ℕ) (f : DelimitedSpans) (rest : Text) (arguments : Fields)
    → 1 ≤ arg_span f
    → length rest < fuel
    → Returns (delimited_args fuel f rest arguments)
unfolding delimited_args
delimited_args-Returns zero f rest arguments p h = absurd (omega arith)
delimited_args-Returns (suc fuel) f rest arguments p h =
    elim (Option-cases (find rest f.arg_open)) [
      | inl e ↦ rw (e, delimited_args) (arguments, refl)
      | inr (i, e) ↦
          let after = drop (i + length f.arg_open) rest in
          elim (Option-cases (find after f.arg_name_close)) [
            | inl e' ↦ rw (e, e', delimited_args) (arguments, refl)
            | inr (j, e') ↦
                let value = drop (j + length f.arg_name_close) after in
                let cut = cut_at value (length f.arg_close) (find value f.arg_close) in
                rw (e, e', delimited_args)
                  (put_value-Returns (delimited_args fuel f) arguments (trim (take j after)) cut
                    (λ a n. delimited_args-Returns fuel f cut.1 a p (
                      omega (
                        arith,
                        cut_at-lt value f.arg_close n,
                        length-drop (i + length f.arg_open) rest,
                        length-drop (j + length f.arg_name_close) after,
                        find-le rest f.arg_open i e,
                        find-le after f.arg_name_close j e',
                      ))))
          ]
    ]

read_delimited-Returns :
    (f : DelimitedSpans) (body : Text) → 1 ≤ arg_span f → Returns (read_delimited f body)
unfolding read_delimited
read_delimited-Returns f body p = elim (Option-cases (find body f.name_close)) [
  | inl e ↦ rw (e, read_delimited) (none, refl)
  | inr (i, e) ↦
      rw (e, read_delimited)
        (>>=-Returns
          (delimited_args (suc (length (drop (i + length f.name_close) body))) f
            (drop (i + length f.name_close) body) Value.end)
          _
          (delimited_args-Returns (suc (length (drop (i + length f.name_close) body))) f
            (drop (i + length f.name_close) body) Value.end p (omega arith))
          (λ arguments. (named (trim (take i body)) arguments, refl)))
]

find_sep-le :
    (text sep : Text) (at : ℕ)
    → find_sep text sep ≡ some at
    → (at + length sep ≤ length text) × (1 ≤ length sep)
unfolding find_sep
find_sep-le text [] at h = absurd (ground arith)
find_sep-le text (c ∷ s) at h = (find-le text (c ∷ s) at h, omega arith)

behind_sep-lt :
    (f : SeparatedSpans) (text : Text)
    → (behind_sep f text ≡ []) ⊎ (length (behind_sep f text) < length text)
unfolding behind_sep
behind_sep-lt f text = elim (Option-cases (find_sep text f.arg_sep)) [
  | inl e ↦ inl (rw (e, behind_sep))
  | inr (at, e) ↦ inr (
      rw (e, behind_sep)
        (omega (arith, find_sep-le text f.arg_sep at e, length-drop (at + length f.arg_sep) text)))
]

bare_value-le : (f : SeparatedSpans) (text : Text) → length (bare_value f text).1 ≤ length text
unfolding bare_value
bare_value-le f text = elim (Option-cases (find_sep text f.arg_sep)) [
  | inl e ↦ rw (e, bare_value) (omega arith)
  | inr (at, e) ↦ rw (e, bare_value) (omega (arith, length-drop at text))
]

strip_prefix-le :
    (text pattern inner : Text)
    → strip_prefix text pattern ≡ some inner
    → length inner ≤ length text
unfolding strip_prefix
strip_prefix-le text pattern inner h = ground (arith, length-drop (length pattern) text)

split_value-le : (f : SeparatedSpans) (text : Text) → length (split_value f text).1 ≤ length text
unfolding split_value strip_prefix
split_value-le f text = elim (Option-cases (strip_prefix text f.value_open)) [
  | inl e ↦ rw (e, split_value) (bare_value-le f text)
  | inr (inner, e) ↦ elim (Bool-cases (is_empty f.value_open)) [
    | inl y ↦ rw (e, y, split_value) (bare_value-le f text)
    | inr n ↦
        rw (e, n, split_value)
          (omega (
            arith,
            strip_prefix-le text f.value_open inner e,
            cut_at-le inner (length f.arg_close) (find inner f.arg_close),
          ))
  ]
]

split_loop-Returns :
    (fuel : ℕ) (f : SeparatedSpans) (rest : Text)
    → length rest < fuel
    → Returns (split_loop fuel f rest)
unfolding split_loop
split_loop-Returns zero f rest h = absurd (omega arith)
split_loop-Returns (suc fuel) f rest h = elim (Bool-cases (is_empty rest)) [
  | inl y ↦ rw (y, split_loop) ([], refl)
  | inr n ↦ elim (Option-cases (find rest f.arg_name_close)) [
    | inl e ↦ rw (n, e, split_loop) ([], refl)
    | inr (at, e) ↦
        let after = drop (at + length f.arg_name_close) rest in
        let cut = split_value f after in
        let short : length (behind_sep f cut.1) < fuel = elim (behind_sep-lt f cut.1) [
          | inl none_left ↦ rw none_left (omega (arith, is_empty-length rest n))
          | inr lt ↦
              omega (arith, split_value-le f after, length-drop (at + length f.arg_name_close) rest)
        ] in
        rw (n, e, split_loop)
          (>>=-Returns (split_loop fuel f (behind_sep f cut.1)) _
            (split_loop-Returns fuel f (behind_sep f cut.1) short)
            (λ out. (push_arg (trim (take at rest)) cut.0 out, refl)))
  ]
]

read_separated-Returns : (f : SeparatedSpans) (body : Text) → Returns (read_separated f body)
unfolding read_separated split_args
read_separated-Returns f body = elim (Option-cases (find body f.name_close)) [
  | inl e ↦ rw (e, read_separated) (none, refl)
  | inr (i, e) ↦
      let args = drop (i + length f.name_close) body in
      rw (e, read_separated)
        (>>=-Returns (split_loop (suc (length args)) f args) _
          (split_loop-Returns (suc (length args)) f args (omega arith))
          (λ out. (named (trim (take i body)) (collect out Value.end), refl)))
]

-- The formats whose argument loop makes headway: a delimited one has a span around its arguments.
abbrev pub Advances : ToolFormat → Type 0
Advances (json f) = Unit
Advances (delimited f) = 1 ≤ arg_span f
Advances (separated f) = Unit

-- `parse_tool_calls` ends on every text, for every JSON and separated format, and for every
-- delimited one in which one of the three spans around an argument is not empty.
pub parse_tool_calls-Returns :
    (from_str : Text → Option Json) (text : Text) (format : ToolFormat)
    → Advances format
    → Returns (parse_tool_calls from_str text format)
unfolding parse_tool_calls
parse_tool_calls-Returns from_str text (json f) h =
    scan_calls-Returns text f.call_open f.call_close _ (λ body. (read_json from_str f body, refl))
parse_tool_calls-Returns from_str text (delimited f) h =
    scan_calls-Returns text f.call_open f.call_close _ (λ body. read_delimited-Returns f body h)
parse_tool_calls-Returns from_str text (separated f) h =
    scan_calls-Returns text f.call_open f.call_close _ (read_separated-Returns f)

-- A delimited format with nothing around its arguments.
abbrev pub unspanned : Text → Text → Text → DelimitedSpans
unspanned opener name_close closer = record {
  call_open = opener;
  name_close = name_close;
  arg_open = [];
  arg_name_close = [];
  arg_close = [];
  call_close = closer;
}

-- In a delimited format with nothing around its arguments, the argument loop of
-- `parse_delimited_calls` runs out of any number of rounds on a block that is not empty.
pub delimited_args_diverges :
    (fuel : ℕ) (opener name_close closer : Text) (c : ℕ) (s : Text) (arguments : Fields)
    → delimited_args fuel (unspanned opener name_close closer) (c ∷ s) arguments ≡ out_of_fuel
unfolding delimited_args put_value find
delimited_args_diverges zero opener name_close closer c s arguments = refl
delimited_args_diverges (suc fuel) opener name_close closer c s arguments =
    delimited_args_diverges fuel opener name_close closer c s
      (insert_field (trim []) (Value.string []) arguments)
