-- ===== src/Tests/Derive.antt =====
-- tool_format.rs: three small chat templates, and the formats that are derived from them.
use Prim.Native.String.{String}
use rampipe.Common.{
  ◌≡◌, ◌≢◌, refl, List, [], ◌∷◌, ◌++◌, Option, none, some, arith, if◌then◌else◌, true, subst, inl,
  inr, Bool-cases,
}
use rampipe.Common.Text.{Text, codes, text_beq, starts_with}
use rampipe.Common.Text.Slice.{char_index}
use rampipe.ToolFormat.{
  ToolCall, json, delimited, separated, JsonSpans, DelimitedSpans, SeparatedSpans, returns,
  read_json, parse_tool_calls,
}
use rampipe.ToolFormat.Value.{
  Json, Items, Fields, nil, cons, end, field, string, array, object, boolean, number, null, get,
  get_field,
}
use rampipe.ToolFormat.RoundTrip.{written}
use rampipe.ToolFormat.Probe.{name_probe, val1}
use rampipe.ToolFormat.Derive.{
  answered_by, calling, two_arguments, derive_tool_call_format, has_value,
}
use rampipe.ToolFormat.Derive.Sound.{probe}
use rampipe.ToolFormat.Derive.Separated.{put_separated}
use rampipe.ToolFormat.Derive.Payload.{Distinct}
use rampipe.ToolFormat.Derive.Rendered.{
  derive_tool_call_format-written, derive_tool_call_format-put_separated,
  read_json-derive_tool_call_format, parse_tool_calls-derive_tool_call_format,
}

-- The text of a value that is a text.
abbrev text_of : Option Json → Text
text_of (some (string s)) = s
text_of (some null) = []
text_of (some (boolean b)) = []
text_of (some (number n)) = n
text_of (some (array xs)) = []
text_of (some (object fs)) = []
text_of none = []

abbrev first_item : Option Json → Option Json
first_item (some (array (cons v vs))) = some v
first_item (some (array nil)) = none
first_item (some (string s)) = none
first_item (some null) = none
first_item (some (boolean b)) = none
first_item (some (number n)) = none
first_item (some (object fs)) = none
first_item none = none

abbrev member : String → Option Json → Option Json
member key none = none
member key (some v) = get (codes key) v

abbrev fields_of : Option Json → Fields
fields_of (some (object fs)) = fs
fields_of (some (string s)) = end
fields_of (some null) = end
fields_of (some (boolean b)) = end
fields_of (some (number n)) = end
fields_of (some (array xs)) = end
fields_of none = end

-- A template that writes a call with the given function of its name and arguments.
module _ (write : Text → Fields → Text) where
  abbrev write_call : Option Json → Text
  write_call none = []
  write_call (some call) =
      let called = member "function" (some call) in
      write (text_of (member "name" called)) (fields_of (member "arguments" called))

  abbrev write_messages : Items → Text
  write_messages nil = []
  write_messages (cons m rest) =
      (codes "[" ++ (text_of (member "role" (some m)) ++ codes "]"))
      ++ (text_of (member "content" (some m))
          ++ (write_call (first_item (member "tool_calls" (some m)))
              ++ (codes "[end]" ++ write_messages rest)))

  abbrev pub template : Text → Json → Option Json → Option Text
  template text (array messages) tools = some (write_messages messages)
  template text (string s) tools = none
  template text null tools = none
  template text (boolean b) tools = none
  template text (number n) tools = none
  template text (object fs) tools = none

abbrev blocks : Fields → Text
blocks end = []
blocks (field k v fs) =
    codes "<a>" ++ (k ++ (codes "=" ++ (text_of (some v) ++ (codes "</a>" ++ blocks fs))))

abbrev pub in_blocks : Text → Fields → Text
in_blocks name arguments =
    codes "<c>" ++ (name ++ (codes "|" ++ (blocks arguments ++ codes "</c>")))

abbrev pub no_json : Text → Option Json
no_json s = none

-- The spans that the two renderings leave: a boundary may stand inside a tag.
abbrev block_spans : DelimitedSpans
block_spans = record {
  call_open = codes "<c>";
  name_close = codes "|<";
  arg_open = codes "a>";
  arg_name_close = codes "=";
  arg_close = codes "</a><";
  call_close = codes "/c>";
}

derives_blocks :
    derive_tool_call_format (template in_blocks) no_json [] ≡ some (delimited block_spans)
unfolding derive_tool_call_format get get_field text_beq char_index
derives_blocks = refl

derive_tool_call_format-written_example :
    (before after before' after' : Text) × (template in_blocks []
        (answered_by (calling two_arguments))
        none
      ≡ some (written block_spans ((before, probe) ∷ []) after))
    × (template in_blocks [] (answered_by (calling end)) none
        ≡ some (before' ++ (name_probe ++ (codes "|<" ++ (codes "/c>" ++ after')))))
    × (codes "|<" ≢ [])
    × (codes "a>" ≢ [])
    × (codes "=" ≢ [])
    × (codes "</a><" ≢ [])
derive_tool_call_format-written_example =
    derive_tool_call_format-written (template in_blocks) no_json [] block_spans derives_blocks

parse_tool_calls-derive_tool_call_format_example :
    (calls : List ToolCall) × (parse_tool_calls no_json
        (codes "so <c>f|<a>x=1</a></c>")
        (delimited block_spans)
      ≡ returns calls)
parse_tool_calls-derive_tool_call_format_example =
    parse_tool_calls-derive_tool_call_format (template in_blocks) no_json [] (delimited block_spans)
      (codes "so <c>f|<a>x=1</a></c>") derives_blocks

abbrev pairs : Fields → Text
pairs end = []
pairs (field k v end) = k ++ (codes ":'" ++ (text_of (some v) ++ codes "'"))
pairs (field k v (field j w fs)) =
    k ++ (codes ":'" ++ (text_of (some v) ++ (codes "'," ++ pairs (field j w fs))))

abbrev with_separator : Text → Fields → Text
with_separator name arguments =
    codes "<c>" ++ (name ++ (codes "(" ++ (pairs arguments ++ codes ")</c>")))

abbrev separated_spans : SeparatedSpans
separated_spans = record {
  call_open = codes "<c>";
  name_close = codes "(";
  arg_name_close = codes ":";
  value_open = codes "'";
  arg_close = codes "'";
  arg_sep = codes ",";
  call_close = codes ")</c>";
}

derives_separator :
    derive_tool_call_format (template with_separator) no_json [] ≡ some (separated separated_spans)
unfolding derive_tool_call_format get get_field text_beq char_index
derives_separator = refl

derive_tool_call_format-put_separated_example :
    (before after before' after' : Text) × (template with_separator []
        (answered_by (calling two_arguments))
        none
      ≡ some (
          before
          ++ (codes "<c>" ++ (put_separated separated_spans probe ++ (codes ")</c>" ++ after)))))
    × (template with_separator [] (answered_by (calling end)) none
        ≡ some (before' ++ (name_probe ++ (codes "(" ++ (codes ")</c>" ++ after')))))
    × (codes "(" ≢ [])
    × (codes ":" ≢ [])
    × (codes "," ≢ [])
    × (codes ")</c>" ≢ [])
derive_tool_call_format-put_separated_example =
    derive_tool_call_format-put_separated (template with_separator) no_json [] separated_spans
      derives_separator

abbrev in_object : Text → Fields → Text
in_object name arguments =
    codes "<c>" ++ (codes "{" ++ (name ++ (codes "," ++ (pairs arguments ++ codes "}</c>"))))

-- A reader that knows one object.
abbrev call_object : Fields
call_object =
    field (codes "arguments") (object two_arguments) (field (codes "name") (string name_probe) end)

abbrev known_json : Text → Option Json
known_json s = if starts_with s (codes "{") then some (object call_object) else none

abbrev json_spans : JsonSpans
json_spans = record {
  call_open = codes "<c>";
  call_close = codes "</c>";
  name_key = codes "name";
  arguments_key = codes "arguments";
}

derives_object : derive_tool_call_format (template in_object) known_json [] ≡ some (json json_spans)
unfolding derive_tool_call_format get get_field text_beq char_index starts_with
derives_object = refl

known_json-Distinct :
    (s : Text) (fields : Fields) → known_json s ≡ some (object fields) → Distinct fields
unfolding text_beq
known_json-Distinct s fields h = elim (Bool-cases (starts_with s (codes "{"))) [
  | inr n ↦ absurd (ground (arith, rw n at h))
  | inl y ↦
      let h' : some (object call_object) ≡ some (object fields) = rw y at h in
      let e : call_object ≡ fields = cc in subst Distinct e ((refl, tt), (tt, tt))
]

read_json-derive_tool_call_format_example :
    (before payload after : Text) × (arguments : Fields) × (template in_object []
        (answered_by (calling two_arguments))
        none
      ≡ some (before ++ (codes "<c>" ++ (payload ++ (codes "</c>" ++ after)))))
    × (read_json known_json json_spans payload
        ≡ some (record { name = name_probe; arguments = object arguments }))
    × (has_value val1 arguments ≡ true)
read_json-derive_tool_call_format_example =
    read_json-derive_tool_call_format (template in_object) known_json [] known_json-Distinct
      json_spans derives_object
