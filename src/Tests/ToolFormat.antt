-- ===== src/Tests/ToolFormat.antt =====
-- tool_format.rs: a delimited format of short markers, and turns written in it.
use rampipe.Common.{
  ◌++◌, ℕ, ◌+◌, ◌≤◌, ◌<◌, ◌≡◌, ◌≢◌, refl, ◌⊎◌, inl, inr, true, false, List, [], ◌∷◌, map, Option,
  none, some, arith, take, drop,
}
use rampipe.Common.Text.{
  Text, codes, starts_with, find, rfind, ends_with, trim, trim_start, trim_end,
}
use rampipe.ToolFormat.Value.{Json, Fields}
use rampipe.ToolFormat.Value
use rampipe.ToolFormat.{
  delimited, DelimitedSpans, returns, out_of_fuel, shorter_closers, close_candidates, first_found,
  find_close, delimited_args, parse_tool_calls,
}
use rampipe.ToolFormat.TurnEnd.{is_unclosed, of, last_close, is_open, reached, ends_mid_call}
use rampipe.ToolFormat.Total.{Returns, parse_tool_calls-Returns, unspanned, delimited_args_diverges}
use rampipe.ToolFormat.RoundTrip.{Spoken, call_of, CanWrite, written, parse_tool_calls-written}
use rampipe.ToolFormat.Cut.{
  EndsAt, reached_cut, reached-last, ends_mid_call-unclosed, ends_mid_call_sound,
}

abbrev spans : DelimitedSpans
spans = record {
  call_open = codes "<c>";
  name_close = codes "|";
  arg_open = codes "<a>";
  arg_name_close = codes "=";
  arg_close = codes "</a>";
  call_close = codes "</f></c>";
}

-- No JSON is read.
abbrev no_json : Text → Option Json
no_json t = none

-- Two calls, with prose before each and behind the last.
abbrev said : List (Text × Spoken)
said =
    (codes "First ", record { name = codes "read"; arguments = (codes "path", codes "a/b") ∷ [] })
    ∷ (codes " then ", record { name = codes "stop"; arguments = [] })
    ∷ []

said-CanWrite : CanWrite spans said (codes " done")
unfolding starts_with trim trim_start trim_end find
said-CanWrite = ground arith

parse_tool_calls-written_example :
    parse_tool_calls no_json (written spans said (codes " done")) (delimited spans)
    ≡ returns (map (λ x. call_of x.1) said)
parse_tool_calls-written_example =
    parse_tool_calls-written no_json spans said (codes " done") (ground arith) (ground arith)
      (ground arith) said-CanWrite

parse_tool_calls-Returns_example :
    Returns (parse_tool_calls no_json (codes "<c>read|<a>path") (delimited spans))
parse_tool_calls-Returns_example =
    parse_tool_calls-Returns no_json (codes "<c>read|<a>path") (delimited spans) (omega arith)

delimited_args_diverges_example :
    delimited_args 9 (unspanned (codes "<c>") (codes "|") (codes "</c>")) (codes "path") Value.end
    ≡ out_of_fuel
delimited_args_diverges_example =
    delimited_args_diverges 9 (codes "<c>") (codes "|") (codes "</c>") b'p' (codes "ath") Value.end

-- A call, and the beginning of a fabricated answer.
abbrev fabricated : Text
fabricated = codes "<c>stop|</f></c> user:"

cut_there : reached (of (delimited spans)) fabricated ≡ some 16
unfolding of reached last_close is_open close_candidates shorter_closers rfind trim_start
    starts_with
cut_there = refl

reached_cut_example :
    EndsAt fabricated (of (delimited spans)).closers 16
    × (trim_start (drop 16 fabricated) ≢ [])
    × (starts_with (trim_start (drop 16 fabricated)) (codes "<c>") ≡ false)
    × (starts_with (codes "<c>") (trim_start (drop 16 fabricated)) ≡ false)
unfolding of
reached_cut_example = reached_cut (of (delimited spans)) fabricated 16 cut_there

-- The shorter closer ends at the twelfth character.
shorter_there : EndsAt fabricated (of (delimited spans)).closers 12
unfolding of close_candidates shorter_closers
shorter_there = inr (inl (codes "<c>stop|", codes "</c> user:", refl, refl))

reached-last_example : 12 ≤ 16
reached-last_example = reached-last (of (delimited spans)) fabricated 16 12 cut_there shorter_there

abbrev cut_text : Text
cut_text = codes "Now <c>read|<a>pa"

ends_mid_call-unclosed_example : ends_mid_call cut_text (delimited spans) ≡ true
unfolding trim_end rfind starts_with find_close first_found close_candidates shorter_closers find
ends_mid_call-unclosed_example =
    ends_mid_call-unclosed (delimited spans) cut_text (codes "Now ") (codes "read|<a>pa") b'<'
      (codes "c>") refl refl refl refl

-- A call is complete, but its closer goes with the white space at the end.
abbrev ending_blank : DelimitedSpans
ending_blank = record {
  call_open = codes "CALL ";
  name_close = codes "(";
  arg_open = codes "<a>";
  arg_name_close = codes "=";
  arg_close = codes "</a>";
  call_close = 10 ∷ [];
}

ends_mid_call_test : ends_mid_call (codes "CALL f(" ++ 10 ∷ []) (delimited ending_blank) ≡ true
unfolding ends_mid_call is_unclosed trim_end rfind starts_with find_close first_found
    close_candidates shorter_closers find
ends_mid_call_test = refl

ends_mid_call_sound_example :
    ((i : ℕ) × (rfind (trim_end cut_text) (codes "<c>") ≡ some i)
      × ((codes "</f></c>" ≡ [])
          ⊎ (find_close (drop (i + 3) (trim_end cut_text)) (codes "</f></c>") ≡ none)))
    ⊎ ((k : ℕ) × (1 ≤ k) × (k < 3) × (ends_with (trim_end cut_text) (take k (codes "<c>")) ≡ true))
ends_mid_call_sound_example =
    ends_mid_call_sound (delimited spans) cut_text ends_mid_call-unclosed_example
