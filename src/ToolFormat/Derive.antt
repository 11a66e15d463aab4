-- ===== src/ToolFormat/Derive.antt =====
-- tool_format.rs: recovering how a model writes a tool call from what its chat template renders.
-- Offsets count characters, but where the code compares bytes.
pub mod Layout
pub mod Sound
pub mod Separated
pub mod Payload
pub mod Rendered
use rampipe.Common.{
  ℕ, suc, ◌+◌, ◌-◌, Bool, true, false, not, ◌&&◌, ◌||◌, List, [], ◌∷◌, ◌++◌, Option, none, some,
  length, take, drop, ltb, leb, if◌then◌else◌, ◌==◌, nat_eq, or_else, unwrap_or,
}
use rampipe.Common.Chain.{◌>>=◌, ◌>>◌, guard}
use rampipe.Common.Text.{
  Text, codes, text_eq, is_empty, find, rfind, strip_prefix, contains, starts_with,
}
use rampipe.Common.Text.Slice.{slice, slice_from, slice_bytes, as_bytes, strip_suffix}
use rampipe.ToolFormat.{ToolFormat, json, delimited, separated}
use rampipe.ToolFormat.Value.{
  Json, Items, Fields, nil, cons, end, field, string, array, object, boolean, number, null, as_str,
}
use rampipe.ToolFormat.Probe.{
  items, pair, message, name_probe, arg1, val1, arg2, val2, user_probe, plain_probe,
}
use mathlib.Core.List.{reverse}

-- `common_prefix_len`.
unfoldable pub common_prefix_len : List ℕ → List ℕ → ℕ
common_prefix_len [] b = 0
common_prefix_len (x ∷ a) [] = 0
common_prefix_len (x ∷ a) (y ∷ b) = if x == y then suc (common_prefix_len a b) else 0

-- `common_suffix_len`.
unfoldable pub common_suffix_len : List ℕ → List ℕ → ℕ
unfolding common_prefix_len
common_suffix_len a b = common_prefix_len (reverse a) (reverse b)

-- `diverging_region`.
unfoldable pub diverging_region : Text → Text → Option Text
unfolding common_prefix_len common_suffix_len as_bytes slice_bytes
diverging_region plain with_calls =
    let prefix = common_prefix_len (as_bytes plain) (as_bytes with_calls) in
    let suffix =
      common_suffix_len (drop prefix (as_bytes plain)) (drop prefix (as_bytes with_calls)) in
    slice_bytes with_calls prefix (length (as_bytes with_calls) - suffix)

-- `shared_prefix`.
unfoldable pub shared_prefix : Text → Text → Text
unfolding common_prefix_len as_bytes slice_bytes
shared_prefix a b = unwrap_or (slice_bytes a 0 (common_prefix_len (as_bytes a) (as_bytes b))) []

-- The order of `str`: that of the bytes of UTF-8, which is that of the code points.
unfoldable pub comes_before : Text → Text → Bool
comes_before s [] = false
comes_before [] (d ∷ t) = true
comes_before (c ∷ s) (d ∷ t) = let rest = comes_before s t in if c == d then rest else ltb c d

abbrev pub earlier : Text → Option Text → Text
earlier k none = k
earlier k (some j) = if comes_before j k then j else k

-- The key of the first entry whose value passes the test, in the order of the keys, which is how a
-- `Map` is read.
unfoldable pub key_where : (Json → Bool) → Fields → Option Text
unfolding comes_before
key_where test end = none
key_where test (field k v fs) =
    let rest = key_where test fs in if test v then some (earlier k rest) else rest

-- `value.as_str() == Some(text)`.
abbrev pub is_text : Text → Json → Bool
is_text text (string s) = s == text
is_text text null = false
is_text text (boolean b) = false
is_text text (number n) = false
is_text text (array xs) = false
is_text text (object fs) = false

-- An object with the text among its values.
unfoldable pub has_value : Text → Fields → Bool
has_value text end = false
has_value text (field k v fs) = is_text text v || has_value text fs

abbrev pub is_object_with : Text → Json → Bool
is_object_with text (object fs) = has_value text fs
is_object_with text (string s) = false
is_object_with text null = false
is_object_with text (boolean b) = false
is_object_with text (number n) = false
is_object_with text (array xs) = false

-- `Value::as_object`.
abbrev pub as_object : Json → Option Fields
as_object (object fs) = some fs
as_object (string s) = none
as_object null = none
as_object (boolean b) = none
as_object (number n) = none
as_object (array xs) = none

-- `derive_json_format`.
unfoldable pub derive_json_format : (Text → Option Json) → Text → Option ToolFormat
unfolding find rfind slice slice_from key_where has_value
derive_json_format from_str region = do
  open_at ← find region (codes "{")
  close_at ← rfind region (codes "}")
  guard (leb open_at close_at)
  payload ← slice region open_at (suc close_at)
  parsed ← from_str payload
  fields ← as_object parsed
  name_key ← key_where (is_text name_probe) fields
  arguments_key ← key_where (is_object_with val1) fields
  call_close ← slice_from region (suc close_at)
  some (
      json (record {
        call_open = take open_at region;
        call_close = call_close;
        name_key = name_key;
        arguments_key = arguments_key;
      }))

-- Where the five sentinels of a call stand.
pub record Sightings : Type 0 where
  pub name_at : ℕ
  pub arg1_at : ℕ
  pub val1_at : ℕ
  pub arg2_at : ℕ
  pub val2_at : ℕ

unfoldable pub sight : Text → Option Sightings
unfolding find
sight region = do
  name_at ← find region name_probe
  arg1_at ← find region arg1
  val1_at ← find region val1
  arg2_at ← find region arg2
  val2_at ← find region val2
  some (record {
    name_at = name_at;
    arg1_at = arg1_at;
    val1_at = val1_at;
    arg2_at = arg2_at;
    val2_at = val2_at;
  })

unfoldable pub are_in_order : Sightings → Bool
are_in_order at =
    ltb at.name_at at.arg1_at
    && (ltb at.arg1_at at.val1_at && (ltb at.val1_at at.arg2_at && ltb at.arg2_at at.val2_at))

-- What follows the name in the call without arguments.
unfoldable pub after_name : Text → Option Text
unfolding find slice_from
after_name no_args_region = do
  no_args_name_at ← find no_args_region name_probe
  slice_from no_args_region (no_args_name_at + length name_probe)

-- `derive_delimited_format`.
unfoldable pub derive_delimited_format : Text → Text → Sightings → Option ToolFormat
unfolding slice slice_from after_name shared_prefix strip_prefix
derive_delimited_format region no_args_region at = do
  name_to_arg1 ← slice region (at.name_at + length name_probe) at.arg1_at
  val1_to_arg2 ← slice region (at.val1_at + length val1) at.arg2_at
  after_val2 ← slice_from region (at.val2_at + length val2)
  after_name_no_args ← after_name no_args_region
  let name_close = shared_prefix name_to_arg1 after_name_no_args
  let arg_close = shared_prefix val1_to_arg2 after_val2
  arg_open ← strip_prefix name_to_arg1 name_close
  call_close ← strip_prefix after_val2 arg_close
  guard (not (is_empty name_close || (is_empty arg_open || is_empty arg_close)))
  guard (val1_to_arg2 == arg_close ++ arg_open)
  guard (after_name_no_args == name_close ++ call_close)
  arg_name_close ← slice region (at.arg1_at + length arg1) at.val1_at
  guard (not (is_empty arg_name_close))
  second ← slice region (at.arg2_at + length arg2) at.val2_at
  guard (second == arg_name_close)
  some (
      delimited (record {
        call_open = take at.name_at region;
        name_close = name_close;
        arg_open = arg_open;
        arg_name_close = arg_name_close;
        arg_close = arg_close;
        call_close = call_close;
      }))

-- What is left of a name's closer without the value's wrapper behind it, and the wrapper.
abbrev pub unwrap : Text → Text → Option Text → Text × Text
unwrap arg_name_close arg_close none = (arg_name_close, [])
unwrap arg_name_close arg_close (some bare) =
    if not (is_empty arg_close) && not (is_empty bare)
    then (bare, arg_close)
    else (arg_name_close, [])

-- `derive_separated_format`.
unfoldable pub derive_separated_format : Text → Text → Sightings → Option ToolFormat
unfolding slice slice_from after_name strip_prefix strip_suffix find contains starts_with
derive_separated_format region no_args_region at = do
  name_close ← slice region (at.name_at + length name_probe) at.arg1_at
  introduced ← slice region (at.arg1_at + length arg1) at.val1_at
  val1_to_arg2 ← slice region (at.val1_at + length val1) at.arg2_at
  after_val2 ← slice_from region (at.val2_at + length val2)
  after_name_no_args ← after_name no_args_region
  call_close ← strip_prefix after_name_no_args name_close
  closing_at ← find after_val2 call_close
  let arg_close = take closing_at after_val2
  arg_sep ← strip_prefix val1_to_arg2 arg_close
  second ← slice region (at.arg2_at + length arg2) at.val2_at
  guard (second == introduced)
  let unwrapped = unwrap introduced arg_close (strip_suffix introduced arg_close)
  guard (
      not (
        is_empty name_close || (is_empty unwrapped.0 || (is_empty arg_sep || is_empty call_close))))
  guard (not (contains arg_sep unwrapped.0 || starts_with call_close arg_sep))
  some (
      separated (record {
        call_open = take at.name_at region;
        name_close = name_close;
        arg_name_close = unwrapped.0;
        value_open = unwrapped.1;
        arg_close = arg_close;
        arg_sep = arg_sep;
        call_close = call_close;
      }))

-- The formats that depend on the order of the sentinels, the stricter first.
unfoldable pub derive_positional : Text → Text → Sightings → Option ToolFormat
unfolding are_in_order derive_delimited_format derive_separated_format
derive_positional region no_args_region at = do
  guard (are_in_order at)
  or_else (derive_delimited_format region no_args_region at)
      (derive_separated_format region no_args_region at)

-- An assistant's message that calls the probe with these arguments.
abbrev pub calling : Fields → Json
calling arguments = object (
    pair "role" (codes "assistant") (
      pair "content" [] (
        field (codes "tool_calls")
          (array (
            items (
              object (
                pair "type" (codes "function") (
                  field (codes "function")
                    (object
                      (pair "name" name_probe (field (codes "arguments") (object arguments) end)))
                    end))
              ∷ [])))
          end)))

abbrev pub answered_by : Json → Json
answered_by reply = array (items (message "user" user_probe ∷ reply ∷ []))

abbrev pub two_arguments : Fields
two_arguments = field arg1 (string val1) (field arg2 (string val2) end)

module _ (render : Text → Json → Option Json → Option Text) (from_str : Text → Option Json) where
  -- `derive_tool_call_format`.
  unfoldable pub derive_tool_call_format : Text → Option ToolFormat
  unfolding diverging_region sight derive_json_format derive_positional
  derive_tool_call_format template_text = do
    plain ← render template_text (answered_by (message "assistant" plain_probe)) none
    with_calls ← render template_text (answered_by (calling two_arguments)) none
    no_args ← render template_text (answered_by (calling end)) none
    region ← diverging_region plain with_calls
    no_args_region ← diverging_region plain no_args
    at ← sight region
    or_else (derive_json_format from_str region) (derive_positional region no_args_region at)
