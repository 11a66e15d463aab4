-- ===== src/Daemon/Connection/Outcomes.antt =====
-- bin/rampiped.rs: the counters of `record_outcome` over the lines of a conversation.
use rampipe.Common.{
  ℕ, ◌+◌, ◌≤◌, ◌<◌, ◌≡◌, Bool, List, [], ◌∷◌, Option, arith, length, Bool-cases, inl, inr,
}
use rampipe.Common.Text.{Text}
use rampipe.Common.Int.{ℤ}
use rampipe.Settings.{WireSampling}
use rampipe.Conversation.Generation.{Engine}
use rampipe.Conversation.Session.{Conversation, Sent, answered, failed, unfinished}
use rampipe.ToolFormat.Value.{Json}
use rampipe.Registry.{u64_mod}
use rampipe.Daemon.{SharedState, record_outcome}
use rampipe.Daemon.Connection.{
  Connection, Line, unreadable, snapshot, turn, Response, opened, snapshotted, opened_with_tools,
  turn_answered, turn_failed, save_failed, not_decoded, not_opened, not_loaded, response_of,
  generated_in, run_conversation_turn, handle_line, handle_lines,
}

-- The turns among replies that were answered, and those that failed.
abbrev pub is_answer : Response → ℕ
is_answer (turn_answered r) = 1
is_answer opened = 0
is_answer snapshotted = 0
is_answer (opened_with_tools b) = 0
is_answer turn_failed = 0
is_answer save_failed = 0
is_answer not_decoded = 0
is_answer not_opened = 0
is_answer (not_loaded e) = 0

abbrev pub is_failure : Response → ℕ
is_failure turn_failed = 1
is_failure (turn_answered r) = 0
is_failure opened = 0
is_failure snapshotted = 0
is_failure (opened_with_tools b) = 0
is_failure save_failed = 0
is_failure not_decoded = 0
is_failure not_opened = 0
is_failure (not_loaded e) = 0

abbrev pub tally : (Response → ℕ) → List Response → ℕ
tally f [] = 0
tally f (r ∷ rs) = f r + tally f rs

-- The counters grew by one answer or one failure, as the reply says.
abbrev pub Counts : SharedState → Response → SharedState → Type 0
Counts st r st' =
    (st'.requests_served ≡ st.requests_served + is_answer r)
    × (st'.requests_failed ≡ st.requests_failed + is_failure r)
    × (is_answer r ≤ 1)
    × (is_failure r ≤ 1)

record_outcome-Counts :
    (now : ℕ) (st : SharedState) (path : Text) (s : Sent)
    → st.requests_served + 1 < u64_mod
    → st.requests_failed + 1 < u64_mod
    → Counts st (response_of s) (record_outcome now st path (generated_in (response_of s)))
unfolding record_outcome
record_outcome-Counts now st path (answered r) h k =
    (omega arith, omega arith, omega arith, omega arith)
record_outcome-Counts now st path (failed e) h k =
    (omega arith, omega arith, omega arith, omega arith)
record_outcome-Counts now st path unfinished h k =
    (omega arith, omega arith, omega arith, omega arith)

module _ {Ctx Sampler Decoder : Type 0} (en : Engine Ctx Sampler Decoder)
    (seq_rm seq_add : Ctx → ℕ → ℕ → Option Ctx) (str_to_token : Text → Bool → Option (List ℕ))
    (from_str : Text → Option Json) (saves : Conversation Ctx → Bool) (now : ℕ) (path : Text)
    (configured : WireSampling) (configured_tokens : Option ℤ) where
  pub handle_line-Counts :
      (k : Connection Ctx) (l : Line)
      → k.state.requests_served + 1 < u64_mod
      → k.state.requests_failed + 1 < u64_mod
      → let (k', r) =
          handle_line en seq_rm seq_add str_to_token from_str saves now path configured
            configured_tokens k l in
        Counts k.state r k'.state
  unfolding handle_line run_conversation_turn
  handle_line-Counts k unreadable h f = (omega arith, omega arith, omega arith, omega arith)
  handle_line-Counts k snapshot h f = elim (Bool-cases (saves k.conversation)) [
    | inl y ↦ rw (y, handle_line) (omega arith, omega arith, omega arith, omega arith)
    | inr n ↦ rw (n, handle_line) (omega arith, omega arith, omega arith, omega arith)
  ]
  handle_line-Counts k (turn t) h f = record_outcome-Counts now k.state path _ h f

  -- After a conversation's lines the daemon's counters of served and failed requests have grown
  -- by exactly the turns that were answered and those that failed, if they do not leave `u64`.
  pub handle_lines-tally :
      (k : Connection Ctx) (ls : List Line)
      → k.state.requests_served + length ls < u64_mod
      → k.state.requests_failed + length ls < u64_mod
      → let (k', rs) =
          handle_lines en seq_rm seq_add str_to_token from_str saves now path configured
            configured_tokens k ls in
        (k'.state.requests_served ≡ k.state.requests_served + tally is_answer rs)
        × (k'.state.requests_failed ≡ k.state.requests_failed + tally is_failure rs)
  unfolding handle_lines
  handle_lines-tally k [] h f = (omega arith, omega arith)
  handle_lines-tally k (l ∷ ls) h f =
      let after =
        handle_line en seq_rm seq_add str_to_token from_str saves now path configured
          configured_tokens k l in
      let c = handle_line-Counts k l (omega arith) (omega arith) in
      let ih = handle_lines-tally after.0 ls (omega (arith, c)) (omega (arith, c)) in
      elim (Bool-cases after.0.is_open) [
        | inl y ↦ rw y (omega (arith, c, ih), omega (arith, c, ih))
        | inr n ↦ rw n (omega (arith, c), omega (arith, c))
      ]
