-- ===== src/ToolFormat/Derive/Payload.antt =====
-- tool_format.rs: a JSON format that was derived, and the payload that it was derived from.
use rampipe.Common.{
  ℕ, suc, ◌+◌, ◌-◌, ◌≤◌, ◌≡◌, refl, ap, sym, ◌∙◌, ◌⊎◌, inl, inr, none, Bool, true, false, [], ◌∷◌,
  ◌++◌, Option, some, arith, length, take, drop, take_exact, length-take, length-drop,
  length-append, take-append-drop, append_assoc, zero, leb, ◌==◌, ==-refl, Bool-cases,
}
use rampipe.Common.Chain.{>>=-cases, guard-cases, some-inj}
use rampipe.Common.Text.{
  Text, codes, text_eq, text_beq_iff, find, rfind, trim, trim_start, trim_end, is_whitespace,
}
use rampipe.Common.Text.Find.{rfind_split, rfind-le}
use rampipe.Common.Text.Slice.{slice, slice_from, slice_split, slice_from_split, find-drop}
use mathlib.Core.List.{reverse, reverse-append, reverse-reverse}
use rampipe.ToolFormat.{ToolFormat, json, JsonSpans, read_json}
use rampipe.ToolFormat.Value.{Json, Fields, end, field, object, string, get_field}
use rampipe.ToolFormat.Probe.{name_probe, val1}
use rampipe.ToolFormat.Derive.{
  derive_json_format, comes_before, earlier, key_where, is_text, is_object_with, has_value,
  as_object,
}

-- `serde_json::Map` holds a key once.
abbrev pub Lacks : Text → Fields → Type 0
Lacks k end = Unit
Lacks k (field j v fs) = ((k == j) ≡ false) × Lacks k fs

abbrev pub Distinct : Fields → Type 0
Distinct end = Unit
Distinct (field k v fs) = Lacks k fs × Distinct fs

-- The key is the one at hand, or that of a later entry.
earlier_cases : (k : Text) (o : Option Text) → (earlier k o ≡ k) ⊎ (o ≡ some (earlier k o))
earlier_cases k none = inl refl
earlier_cases k (some j) = elim (Bool-cases (comes_before j k)) [
  | inl y ↦ rw y (inr refl)
  | inr n ↦ rw n (inl refl)
]

key_where-Lacks :
    (test : Json → Bool) (k j : Text) (fs : Fields)
    → Lacks k fs
    → key_where test fs ≡ some j
    → (k == j) ≡ false
unfolding key_where
key_where-Lacks test k j end lacks h = cc
key_where-Lacks test k j (field i v fs) lacks h = elim (Bool-cases (test v)) [
  | inr n ↦ key_where-Lacks test k j fs lacks.1 (rw n at h)
  | inl y ↦
      let first : earlier i (key_where test fs) ≡ j = some-inj (rw y at h) in
      elim (earlier_cases i (key_where test fs)) [
        | inl here ↦ rw (sym first ∙ here) lacks.0
        | inr later ↦ key_where-Lacks test k j fs lacks.1 (later ∙ ap some first)
      ]
]

-- The key that `key_where` answers leads to a value that passes the test.
get_field-key_where :
    (test : Json → Bool) (k : Text) (fs : Fields)
    → Distinct fs
    → key_where test fs ≡ some k
    → (v : Json) × (get_field k fs ≡ some v) × (test v ≡ true)
unfolding key_where get_field
get_field-key_where test k end d h = cc
get_field-key_where test k (field j v fs) d h =
    let ih = get_field-key_where test k fs d.1 in
    elim (Bool-cases (test v)) [
      | inr n ↦ later ih (rw n at h)
      | inl y ↦
          let first : earlier j (key_where test fs) ≡ k = some-inj (rw y at h) in
          elim (earlier_cases j (key_where test fs)) [
            | inl here ↦ let e : j ≡ k = sym here ∙ first in (v, rw (e, ==-refl k), y)
            | inr rest ↦ later ih (rest ∙ ap some first)
          ]
    ]
  where
    later :
        (key_where test fs ≡ some k → (w : Json) × (get_field k fs ≡ some w) × (test w ≡ true))
        → key_where test fs ≡ some k
        → (w : Json) × (get_field k (field j v fs) ≡ some w) × (test w ≡ true)
    later ih h =
        let (w, found, passes) = ih h in
        let other = key_where-Lacks test j k fs d.0 h in (w, rw other found, passes)

is_text_sound : (text : Text) (v : Json) → is_text text v ≡ true → v ≡ string text
is_text_sound text (string s) h = ap string ((text_beq_iff s text).0 h)
is_text_sound text Json.null h = cc
is_text_sound text (Json.boolean b) h = cc
is_text_sound text (Json.number n) h = cc
is_text_sound text (Json.array xs) h = cc
is_text_sound text (object fs) h = cc

is_object_with_sound :
    (text : Text) (v : Json)
    → is_object_with text v ≡ true
    → (fs : Fields) × (v ≡ object fs) × (has_value text fs ≡ true)
is_object_with_sound text (object fs) h = (fs, refl, h)
is_object_with_sound text (string s) h = cc
is_object_with_sound text Json.null h = cc
is_object_with_sound text (Json.boolean b) h = cc
is_object_with_sound text (Json.number n) h = cc
is_object_with_sound text (Json.array xs) h = cc

as_object_sound : (v : Json) (fs : Fields) → as_object v ≡ some fs → v ≡ object fs
as_object_sound (object gs) fs h = ap object (some-inj h)
as_object_sound (string s) fs h = cc
as_object_sound Json.null fs h = cc
as_object_sound (Json.boolean b) fs h = cc
as_object_sound (Json.number n) fs h = cc
as_object_sound (Json.array xs) fs h = cc

-- A text between braces has no white space around it.
trim_braces : (s : Text) → trim (b'{' ∷ (s ++ b'}' ∷ [])) ≡ b'{' ∷ (s ++ b'}' ∷ [])
unfolding trim trim_start trim_end is_whitespace
trim_braces s = rw (reverse-append (b'{' ∷ s) (b'}' ∷ [])) (
    reverse-append (b'}' ∷ []) (reverse (b'{' ∷ s))
    ∙ ap (λ q. q ++ b'}' ∷ []) (reverse-reverse (b'{' ∷ s)))

drop-append : (i : ℕ) (s t : Text) → i ≤ length s → drop i (s ++ t) ≡ drop i s ++ t
drop-append zero s t h = refl
drop-append (suc i) [] t h = absurd (omega arith)
drop-append (suc i) (c ∷ s) t h = drop-append i s t (omega arith)

-- A text that begins with one brace and ends with the other.
between :
    (front rest payload x : Text)
    → b'{' ∷ x ≡ front ++ (b'}' ∷ rest)
    → payload ≡ front ++ b'}' ∷ []
    → (mid : Text) × (payload ≡ b'{' ∷ (mid ++ b'}' ∷ []))
between [] rest payload x e p = absurd (ground (arith, e))
between (c ∷ front) rest payload x e p =
    let c' : c ≡ b'{' = ground (arith, e) in (front, rw c' at p)

-- The outermost braces of a text, and what is between them.
braces :
    (region payload : Text) (i j : ℕ)
    → find region (codes "{") ≡ some i
    → rfind region (codes "}") ≡ some j
    → i ≤ j
    → slice region i (suc j) ≡ some payload
    → (mid : Text) × (payload ≡ b'{' ∷ (mid ++ b'}' ∷ []))
unfolding slice
braces region payload i j found last le cut =
    let front = drop i (take j region) in
    let rest = drop (j + 1) region in
    let l : length (take j region) ≡ j =
      omega (arith, length-take {0} j region, rfind-le region (codes "}") j last) in
    let e : drop i region ≡ front ++ (b'}' ∷ rest) =
      ap (drop i) (rfind_split region (codes "}") j last)
      ∙ drop-append i (take j region) (b'}' ∷ rest) (omega (arith, l)) in
    let n : suc j - i ≡ length (front ++ b'}' ∷ []) =
      omega (arith, length-append {0} front (b'}' ∷ []), length-drop {0} i (take j region), l) in
    let whole : payload ≡ take (suc j - i) (drop i region) = ground (arith, cut) in
    between front rest payload (drop (i + 1) region)
      (sym (find-drop region (codes "{") i found) ∙ e)
      (whole
        ∙ (ap (take (suc j - i)) (e ∙ sym (append_assoc front (b'}' ∷ []) rest))
            ∙ (ap (λ k. take k ((front ++ b'}' ∷ []) ++ rest)) n
                ∙ take_exact (front ++ b'}' ∷ []) rest)))

-- What a JSON format was read from: a payload in the region, and the object that it parses to.
pub record Carries (from_str : Text → Option Json) (region : Text) (f : JsonSpans) : Type 0 where
  pub payload : Text
  pub fields : Fields
  pub as_written : region ≡ f.call_open ++ (payload ++ f.call_close)
  pub parsed : from_str payload ≡ some (object fields)
  pub trimmed : trim payload ≡ payload
  pub named_by : key_where (is_text name_probe) fields ≡ some f.name_key
  pub argued_by : key_where (is_object_with val1) fields ≡ some f.arguments_key

pub derive_json_format-Carries :
    (from_str : Text → Option Json) (region : Text) (format : ToolFormat)
    → derive_json_format from_str region ≡ some format
    → (f : JsonSpans) × (format ≡ json f) × Carries from_str region f
unfolding derive_json_format
derive_json_format-Carries from_str region format h =
    >>=-cases (find region (codes "{")) _ h λ i found h1.
      >>=-cases (rfind region (codes "}")) _ h1 λ j last h2. guard-cases (leb i j) _ h2 λ le h3.
        >>=-cases (slice region i (suc j)) _ h3 λ payload cut h4.
          >>=-cases (from_str payload) _ h4 λ v parsed h5.
            >>=-cases (as_object v) _ h5 λ fields is_object h6.
              >>=-cases (key_where (is_text name_probe) fields) _ h6 λ name_key named_by h7.
                >>=-cases (key_where (is_object_with val1) fields) _ h7
                  λ arguments_key argued_by h8.
                    >>=-cases (slice_from region (suc j)) _ h8 λ call_close cut_close h9.
                      let (mid, e) =
                        braces region payload i j found last (ground (arith, le)) cut in
                      (
                        record {
                          call_open = take i region;
                          call_close = call_close;
                          name_key = name_key;
                          arguments_key = arguments_key;
                        },
                        sym (some-inj h9),
                        record {
                          payload = payload;
                          fields = fields;
                          as_written =
                              sym (take-append-drop i region)
                              ∙ ap (λ q. take i region ++ q)
                                  (slice_split region payload i (suc j) cut
                                    ∙ ap (λ q. payload ++ q)
                                        (slice_from_split region call_close (suc j) cut_close));
                          parsed = parsed ∙ ap some (as_object_sound v fields is_object);
                          trimmed = rw e (trim_braces mid);
                          named_by = named_by;
                          argued_by = argued_by;
                        },
                      )

-- The parser reads the payload back.
pub read_json-Carries :
    (from_str : Text → Option Json) (region : Text) (f : JsonSpans) (c : Carries from_str region f)
    → Distinct c.fields
    → (arguments : Fields) × (read_json from_str f c.payload
        ≡ some (record { name = name_probe; arguments = object arguments }))
      × (has_value val1 arguments ≡ true)
unfolding read_json
read_json-Carries from_str region f c distinct =
    let (v, found, is_name) =
      get_field-key_where (is_text name_probe) f.name_key c.fields distinct c.named_by in
    let (w, found', is_args) =
      get_field-key_where (is_object_with val1) f.arguments_key c.fields distinct c.argued_by in
    let (arguments, e, argued) = is_object_with_sound val1 w is_args in
    let name = found ∙ ap some (is_text_sound name_probe v is_name) in
    let args = found' ∙ ap some e in
    (arguments, rw (c.trimmed, c.parsed, name, args, read_json), argued)
