-- ===== src/Daemon/Connection.antt =====
-- bin/rampiped.rs: `handle_conversation` and `run_conversation_turn`, the daemon's side of one
-- conversation. A line is given by what `serde_json` makes of it, and each reply is taken to be
-- written. Opening the conversation and saving its state are llama.cpp's, so parameters.
pub mod Outcomes
pub mod Managed
use rampipe.Common.{
  ℕ, suc, ◌+◌, ◌-◌, Bool, true, false, List, [], ◌∷◌, ◌++◌, Option, none, some, if◌then◌else◌,
  unwrap_or, or_else, is_some,
}
use rampipe.Common.Text.{Text, text_eq}
use rampipe.Common.Map.{get, insert}
use rampipe.Common.Int.{ℤ, pos}
use rampipe.Settings.{
  WireSampling, ModelSettings, sampling_for, max_new_tokens_for, wire_sampling_to_sampling,
}
use rampipe.Conversation.Generation.{Engine}
use rampipe.Conversation.Session.{
  Conversation, Request, GenerationResult, Sent, answered, failed, unfinished, send,
  send_tool_results,
}
use rampipe.ToolFormat.Value.{Json}
use rampipe.Daemon.{SharedState, Session, Ensured, ready, record_outcome}

-- `ConversationTurnRequest`; the predicate is `GrammarCompletion::into_predicate`'s.
pub record TurnRequest : Type 0 where
  pub message : Text
  pub tool_results : Option (List Text)
  pub max_new_tokens : Option ℤ
  pub sampling : Option WireSampling
  pub grammar : Option Text
  pub grammar_complete : Option (Text → Bool)
  pub assistant_prefill : Option Text

-- `DEFAULT_MAX_NEW_TOKENS`.
abbrev pub default_max_new_tokens : ℤ
default_max_new_tokens = pos 4096

-- `ConversationResponse`, with its errors told apart.
pub data Response : Type 0 where
  opened snapshotted : Response
  opened_with_tools : Bool → Response
  turn_answered : GenerationResult → Response
  turn_failed save_failed not_decoded not_opened : Response
  not_loaded : Ensured → Response

pub data Line : Type 0 where
  unreadable snapshot : Line
  turn : TurnRequest → Line

unfoldable pub request_of : WireSampling → Option ℤ → TurnRequest → Request
unfolding wire_sampling_to_sampling
request_of configured configured_tokens t = record {
  max_new_tokens = unwrap_or (or_else t.max_new_tokens configured_tokens) default_max_new_tokens;
  sampling = wire_sampling_to_sampling (unwrap_or t.sampling configured);
  grammar = t.grammar;
  grammar_complete = t.grammar_complete;
}

-- The reference that a connection holds to the session of its model.
abbrev hold_in : SharedState → Text → Option Session → SharedState
hold_in st path none = st
hold_in st path (some s) = record st {
  sessions = insert path (record s { strong_count = s.strong_count + 1 }) st.sessions;
}

unfoldable pub hold : SharedState → Text → SharedState
unfolding get insert
hold st path = hold_in st path (get path st.sessions)

abbrev release_in : SharedState → Text → Option Session → SharedState
release_in st path none = st
release_in st path (some s) = record st {
  sessions = insert path (record s { strong_count = s.strong_count - 1 }) st.sessions;
}

-- The drop of that reference, with which the connection's thread ends.
unfoldable pub give_up : SharedState → Text → SharedState
unfolding get insert
give_up st path = release_in st path (get path st.sessions)

abbrev pub response_of : Sent → Response
response_of (answered r) = turn_answered r
response_of (failed e) = turn_failed
response_of unfinished = turn_failed

-- What `record_outcome` is told of a turn's response.
abbrev pub generated_in : Response → Option ℕ
generated_in (turn_answered r) = some r.tokens_generated
generated_in opened = none
generated_in snapshotted = none
generated_in (opened_with_tools b) = none
generated_in turn_failed = none
generated_in save_failed = none
generated_in not_decoded = none
generated_in not_opened = none
generated_in (not_loaded e) = none

-- What opening or restoring gave; a context size of zero ends the connection without a reply.
pub data Opening (Ctx : Type 0) : Type 0 where
  conversing : Conversation Ctx → Opening Ctx
  refused no_size : Opening Ctx

-- A connection: the shared store, its conversation, and whether it still reads.
pub record Connection (Ctx : Type 0) : Type 0 where
  pub state : SharedState
  pub conversation : Conversation Ctx
  pub is_open : Bool

module _ {Ctx Sampler Decoder : Type 0} (en : Engine Ctx Sampler Decoder)
    (seq_rm seq_add : Ctx → ℕ → ℕ → Option Ctx) (str_to_token : Text → Bool → Option (List ℕ))
    (from_str : Text → Option Json) (saves : Conversation Ctx → Bool) where
  abbrev turn_by :
      Conversation Ctx → TurnRequest → Option (List Text) → Request → Conversation Ctx × Sent
  turn_by c t none req =
      send en seq_rm seq_add str_to_token from_str c t.message t.assistant_prefill req
  turn_by c t (some results) req =
      send_tool_results en seq_rm seq_add str_to_token from_str c results req

  -- `run_conversation_turn`.
  unfoldable pub run_conversation_turn :
      Conversation Ctx → TurnRequest → WireSampling → Option ℤ → Conversation Ctx × Response
  unfolding send send_tool_results request_of
  run_conversation_turn c t configured configured_tokens =
      let after = turn_by c t t.tool_results (request_of configured configured_tokens t) in
      (after.0, response_of after.1)

  -- The loop of `handle_conversation` for one line, with its reply; `now` is the time in seconds.
  unfoldable pub handle_line :
      ℕ → Text → WireSampling → Option ℤ → Connection Ctx → Line → Connection Ctx × Response
  unfolding record_outcome
  handle_line now path configured configured_tokens k unreadable = (k, not_decoded)
  handle_line now path configured configured_tokens k snapshot =
      if saves k.conversation then (record k { is_open = false }, snapshotted) else (k, save_failed)
  handle_line now path configured configured_tokens k (turn t) =
      let after = run_conversation_turn k.conversation t configured configured_tokens in
      (
        record k {
          state = record_outcome now k.state path (generated_in after.1);
          conversation = after.0;
        },
        after.1,
      )

  -- The loop, to the end of the input.
  unfoldable pub handle_lines :
      ℕ
      → Text
      → WireSampling
      → Option ℤ
      → Connection Ctx
      → List Line
      → Connection Ctx × List Response
  unfolding run_conversation_turn handle_line
  handle_lines now path configured configured_tokens k [] = (record k { is_open = false }, [])
  handle_lines now path configured configured_tokens k (l ∷ ls) =
      let after = handle_line now path configured configured_tokens k l in
      let rest = handle_lines now path configured configured_tokens after.0 ls in
      if after.0.is_open then (rest.0, after.1 ∷ rest.1) else (after.0, after.1 ∷ [])

  abbrev greeting : Bool → Conversation Ctx → Response
  greeting offers_tools c =
      if offers_tools then opened_with_tools (is_some c.tool_format) else opened

  unfoldable pub open_by :
      ℕ
      → Text
      → WireSampling
      → Option ℤ
      → Bool
      → List Line
      → SharedState
      → Opening Ctx
      → SharedState × List Response
  unfolding handle_lines
  open_by now path configured configured_tokens tools lines st refused = (st, not_opened ∷ [])
  open_by now path configured configured_tokens tools lines st no_size = (st, [])
  open_by now path configured configured_tokens tools lines st (conversing c) =
      let run =
        handle_lines now path configured configured_tokens
          (record { state = st; conversation = c; is_open = true }) lines in
      (run.0.state, greeting tools c ∷ run.1)

  -- `handle_conversation` from the loaded model on. Each way out drops the connection's reference.
  unfoldable pub handle_conversation :
      ℕ
      → ModelSettings
      → Option Text
      → Text
      → Bool
      → List Line
      → SharedState × Ensured
      → Opening Ctx
      → SharedState × List Response
  unfolding open_by hold give_up sampling_for max_new_tokens_for
  handle_conversation now settings file_name path tools lines (st, ready) opening =
      let run =
        open_by now path (sampling_for settings file_name) (max_new_tokens_for settings file_name)
          tools lines (hold st path) opening in
      (give_up run.0 path, run.1)
  handle_conversation now settings file_name path tools lines (st, e) opening =
      (st, not_loaded e ∷ [])
