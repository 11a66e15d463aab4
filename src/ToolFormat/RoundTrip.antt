-- ===== src/ToolFormat/RoundTrip.antt =====
-- tool_format.rs: turns written in a delimited format, and the parser of it.
use mathlib.Core.Path.{ap₂}
use rampipe.Common.{
  ℕ, zero, suc, ◌+◌, ◌<◌, ◌≡◌, ◌≢◌, refl, ap, ◌∙◌, inl, inr, true, List, [], ◌∷◌, ◌++◌, map, Option,
  none, some, arith, length, take, drop, length-append, take_exact, Bool-cases,
}
use rampipe.Common.Text.{Text, is_empty, find, trim}
use rampipe.Common.Text.Find.{Clear, find-Clear, find-Clear-none, drop-past}
use rampipe.ToolFormat.Value.{Json, Fields, insert_field}
use rampipe.ToolFormat.Value
use rampipe.ToolFormat.{
  ToolCall, delimited, DelimitedSpans, Run, returns, cut_at, put_value, delimited_args,
  read_delimited, collect, named, parse_tool_calls,
}
use rampipe.ToolFormat.Scan.{Item, text_of, IsReadable, scan_calls-text_of, length-pos}

-- A name and its arguments, as a host would write them.
pub record Spoken : Type 0 where
  pub name : Text
  pub arguments : List (Text × Text)

abbrev pub call_of : Spoken → ToolCall
call_of s = record { name = s.name; arguments = Value.object (collect s.arguments Value.end) }

module _ (f : DelimitedSpans) where
  abbrev pub put_args : List (Text × Text) → Text
  put_args [] = []
  put_args ((k, v) ∷ more) =
      f.arg_open ++ (k ++ (f.arg_name_close ++ (v ++ (f.arg_close ++ put_args more))))

  -- No key is padded, and each key and value ends at the first closer behind it.
  abbrev pub CanPut : List (Text × Text) → Type 0
  CanPut [] = Unit
  CanPut ((k, v) ∷ more) =
      (trim k ≡ k)
      × Clear f.arg_name_close k (f.arg_name_close ++ (v ++ (f.arg_close ++ put_args more)))
      × Clear f.arg_close v (f.arg_close ++ put_args more)
      × CanPut more

  abbrev pub put_body : Spoken → Text
  put_body s = s.name ++ (f.name_close ++ put_args s.arguments)

delimited_args_found :
    (fuel : ℕ) (f : DelimitedSpans) (rest after : Text) (i j : ℕ) (arguments : Fields)
    → find rest f.arg_open ≡ some i
    → drop (i + length f.arg_open) rest ≡ after
    → find after f.arg_name_close ≡ some j
    → delimited_args (suc fuel) f rest arguments
      ≡ put_value (delimited_args fuel f) arguments (trim (take j after)) (
          cut_at
            (drop (j + length f.arg_name_close) after)
            (length f.arg_close)
            (find (drop (j + length f.arg_name_close) after) f.arg_close))
unfolding delimited_args
delimited_args_found fuel f rest after i j arguments a b c = rw (a, b, c, delimited_args) (rw b)

cut_at-Clear :
    (closer v rest : Text)
    → Clear closer v (closer ++ rest)
    → cut_at (v ++ (closer ++ rest)) (length closer) (find (v ++ (closer ++ rest)) closer)
      ≡ (v, rest)
cut_at-Clear closer v rest h =
    rw (find-Clear closer v rest h, take_exact v (closer ++ rest), drop-past v closer rest)

put_value_next :
    (again : Text → Fields → Run Fields) (arguments : Fields) (key value next : Text)
    (result : Fields)
    → again next (insert_field key (Value.string value) arguments) ≡ returns result
    → (is_empty next ≡ true → result ≡ insert_field key (Value.string value) arguments)
    → put_value again arguments key (value, next) ≡ returns result
unfolding put_value
put_value_next again arguments key value next result later stop =
    elim (Bool-cases (is_empty next)) [
      | inl y ↦ rw (y, put_value, stop y)
      | inr n ↦ rw (n, put_value, later)
    ]

put_args-nil :
    (f : DelimitedSpans) (args : List (Text × Text))
    → f.arg_open ≢ []
    → is_empty (put_args f args) ≡ true
    → args ≡ []
put_args-nil f [] n h = refl
put_args-nil f ((k, v) ∷ more) n h = absurd (n (go f.arg_open h))
  where
    go :
        (o : Text)
        → is_empty (o ++ (k ++ (f.arg_name_close ++ (v ++ (f.arg_close ++ put_args f more)))))
          ≡ true
        → o ≡ []
    go [] e = refl
    go (c ∷ o) e = cc

delimited_args-put_args :
    (fuel : ℕ) (f : DelimitedSpans) (args : List (Text × Text)) (arguments : Fields)
    → f.arg_open ≢ []
    → CanPut f args
    → length (put_args f args) < fuel
    → delimited_args fuel f (put_args f args) arguments ≡ returns (collect args arguments)
unfolding collect
delimited_args-put_args zero f args arguments n ok h = absurd (omega arith)
delimited_args-put_args (suc fuel) f [] arguments n ok h =
    unfold delimited_args in rw (find-Clear-none f.arg_open [] n tt, delimited_args)
delimited_args-put_args (suc fuel) f ((k, v) ∷ more) arguments n ok h =
    let rest = put_args f more in
    let value = v ++ (f.arg_close ++ rest) in
    let after = k ++ (f.arg_name_close ++ value) in
    let key : trim (take (length k) after) ≡ k =
      ap trim (take_exact k (f.arg_name_close ++ value)) ∙ ok.0 in
    let cut =
      ap (λ t. cut_at t (length f.arg_close) (find t f.arg_close))
        (drop-past k f.arg_name_close value)
      ∙ cut_at-Clear f.arg_close v rest ok.2 in
    let shorter : length rest < fuel = omega (
      arith,
      length-append f.arg_open after,
      length-append k (f.arg_name_close ++ value),
      length-append f.arg_name_close value,
      length-append v (f.arg_close ++ rest),
      length-append f.arg_close rest,
      length-pos f.arg_open n,
    ) in
    delimited_args_found fuel f (f.arg_open ++ after) after 0 (length k) arguments
      (find-Clear f.arg_open [] after tt) (drop-past [] f.arg_open after)
      (find-Clear f.arg_name_close k value ok.1)
    ∙ ap₂ (put_value (delimited_args fuel f) arguments) key cut
    ∙ put_value_next (delimited_args fuel f) arguments k v rest
        (collect more (insert_field k (Value.string v) arguments))
        (delimited_args-put_args fuel f more (insert_field k (Value.string v) arguments) n ok.3
          shorter)
        (λ y.
          ap (λ m. collect m (insert_field k (Value.string v) arguments)) (put_args-nil f more n y))

named-ne :
    (name : Text) (fields : Fields)
    → name ≢ []
    → named name fields ≡ some (record { name = name; arguments = Value.object fields })
unfolding named
named-ne [] fields n = absurd (n refl)
named-ne (c ∷ s) fields n = refl

-- A body that a host can write and the parser reads back.
abbrev pub CanSay : DelimitedSpans → Spoken → Type 0
CanSay f s =
    (s.name ≢ [])
    × (trim s.name ≡ s.name)
    × Clear f.name_close s.name (f.name_close ++ put_args f s.arguments)
    × CanPut f s.arguments

read_delimited-put_body :
    (f : DelimitedSpans) (s : Spoken)
    → f.arg_open ≢ []
    → CanSay f s
    → read_delimited f (put_body f s) ≡ returns (some (call_of s))
unfolding read_delimited
read_delimited-put_body f s n ok =
    let args = put_args f s.arguments in
    let found = find-Clear f.name_close s.name args ok.2 in
    let read =
      delimited_args-put_args (suc (length args)) f s.arguments Value.end n ok.3 (omega arith) in
    rw (found, read_delimited)
      (rw (drop-past s.name f.name_close args, take_exact s.name (f.name_close ++ args), ok.1, read)
        (ap returns (named-ne s.name (collect s.arguments Value.end) ok.0)))

-- Prose and calls in turn, as a model writes them.
abbrev pub item_of : DelimitedSpans → Text × Spoken → Item
item_of f (prose, s) = record { prose = prose; body = put_body f s; call = call_of s }

abbrev pub written : DelimitedSpans → List (Text × Spoken) → Text → Text
written f said tail = text_of f.call_open f.call_close (map (item_of f) said) tail

-- Each call can be said, no opener begins in the prose, and no closer in a body.
abbrev pub CanWrite : DelimitedSpans → List (Text × Spoken) → Text → Type 0
CanWrite f [] tail = find tail f.call_open ≡ none
CanWrite f ((prose, s) ∷ said) tail =
    Clear f.call_open prose (f.call_open ++ (put_body f s ++ (f.call_close ++ written f said tail)))
    × Clear f.call_close (put_body f s) (f.call_close ++ written f said tail)
    × CanSay f s
    × CanWrite f said tail

CanWrite-IsReadable :
    (f : DelimitedSpans) (said : List (Text × Spoken)) (tail : Text)
    → f.arg_open ≢ []
    → CanWrite f said tail
    → IsReadable f.call_open f.call_close (read_delimited f) (map (item_of f) said) tail
CanWrite-IsReadable f [] tail n ok = ok
CanWrite-IsReadable f ((prose, s) ∷ said) tail n ok =
    (ok.0, ok.1, read_delimited-put_body f s n ok.2, CanWrite-IsReadable f said tail n ok.3)

calls-map :
    (f : DelimitedSpans) (said : List (Text × Spoken))
    → map (λ i. i.call) (map (item_of f) said) ≡ map (λ x. call_of x.1) said
calls-map f [] = refl
calls-map f ((prose, s) ∷ said) = ap (◌∷◌ (call_of s)) (calls-map f said)

-- A turn that is written in a delimited format, prose and calls in turn, is parsed to exactly its
-- calls in order, if the opener, closer and argument opener are not empty, no marker begins
-- inside what it ends, no call has an empty name, and neither the names of calls nor those of
-- arguments have white space around them.
pub parse_tool_calls-written :
    (from_str : Text → Option Json) (f : DelimitedSpans) (said : List (Text × Spoken)) (tail : Text)
    → f.call_open ≢ []
    → f.call_close ≢ []
    → f.arg_open ≢ []
    → CanWrite f said tail
    → parse_tool_calls from_str (written f said tail) (delimited f)
      ≡ returns (map (λ x. call_of x.1) said)
unfolding parse_tool_calls
parse_tool_calls-written from_str f said tail opens closes n ok =
    scan_calls-text_of f.call_open f.call_close opens closes (read_delimited f)
      (map (item_of f) said) tail (CanWrite-IsReadable f said tail n ok)
    ∙ ap returns (calls-map f said)
