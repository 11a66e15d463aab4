-- ===== src/ToolFormat/TurnEnd.antt =====
-- tool_format.rs: `TurnEnd`, which ends a turn that has moved on from calling tools, and
-- `ends_mid_call`, which tells a turn that was cut off in a call.
use rampipe.Common.{
  ℕ, zero, suc, ◌+◌, max, Bool, true, false, ◌||◌, List, [], ◌∷◌, Option, none, some, length, take,
  drop, if◌then◌else◌,
}
use rampipe.Common.Text.{Text, is_empty, starts_with, rfind, ends_with, trim_start, trim_end}
use rampipe.ToolFormat.{ToolFormat, call_open, call_close, close_candidates, find_close}

pub record TurnEnd : Type 0 where
  pub call_open : Text
  pub closers : List Text

-- `TurnEnd::of`.
unfoldable pub of : ToolFormat → TurnEnd
unfolding close_candidates
of format = record { call_open = call_open format; closers = close_candidates (call_close format) }

abbrev pub later : Option ℕ → Option ℕ → Option ℕ
later none o = o
later (some a) none = some a
later (some a) (some b) = some (max a b)

abbrev pub end_of : Option ℕ → Text → Option ℕ
end_of none closer = none
end_of (some at) closer = some (at + length closer)

-- The end of the last closer in the text.
unfoldable pub last_close : Text → List Text → Option ℕ
unfolding rfind
last_close text [] = none
last_close text (closer ∷ closers) =
    later (end_of (rfind text closer) closer) (last_close text closers)

-- Whether what follows a call may still be another.
unfoldable pub is_open : TurnEnd → Text → Bool
unfolding trim_start starts_with
is_open e tail =
    let after = trim_start tail in
    is_empty after || (starts_with after e.call_open || starts_with e.call_open after)

-- `TurnEnd::reached`.
unfoldable pub reached : TurnEnd → Text → Option ℕ
unfolding last_close is_open
reached e text = elim (is_empty e.call_open) [
  | true ↦ none
  | false ↦ elim (last_close text e.closers) [
    | none ↦ none
    | some end ↦ if is_open e (drop end text) then none else some end
  ]
]

-- Whether the text ends with one of the first `n` proper prefixes of the opener.
unfoldable pub ends_with_prefix : Text → Text → ℕ → Bool
unfolding ends_with
ends_with_prefix text opener zero = false
ends_with_prefix text opener (suc n) =
    ends_with text (take (suc n) opener) || ends_with_prefix text opener n

-- Whether the last call that was opened is still open.
unfoldable pub is_unclosed : Text → Text → Text → Bool
is_unclosed text opener closer = elim (rfind text opener) [
  | none ↦ false
  | some opened ↦ elim (is_empty closer) [
    | true ↦ true
    | false ↦ elim (find_close (drop (opened + length opener) text) closer) [
      | none ↦ true
      | some found ↦ false
    ]
  ]
]

-- One less, for the prefixes that are shorter than the opener.
abbrev pub proper : Text → ℕ
proper [] = 0
proper (c ∷ s) = length s

-- `ends_mid_call`.
unfoldable pub ends_mid_call : Text → ToolFormat → Bool
ends_mid_call text format = elim (is_empty (call_open format)) [
  | true ↦ false
  | false ↦
      let trimmed = trim_end text in
      is_unclosed trimmed (call_open format) (call_close format)
      || ends_with_prefix trimmed (call_open format) (proper (call_open format))
]
