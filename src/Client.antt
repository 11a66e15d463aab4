-- ===== src/Client.antt =====
-- client.rs: the client's side of the wire. What comes of a request on the socket is `Answer`: an
-- error of one of its steps, or the response that `serde_json` reads. Error texts are left out.
pub mod Converse
use rampipe.Common.{ℕ, suc, ◌+◌, ◌%◌, Bool, true, false, List, [], ◌∷◌, Option, none, some}
use rampipe.Common.Text.{Text}
use rampipe.Common.Int.{ℤ}
use rampipe.Common.Float.{F32}
use rampipe.Registry.{u64_mod}
use rampipe.Settings.{WirePenalties, WireSampling}
use rampipe.Conversation.Generation.{Penalties, Sampling}
use rampipe.Conversation.Session.{GenerationResult}
use rampipe.ToolFormat.{ToolCall, Run, returns}
use rampipe.ToolFormat.Value.{Json}
use rampipe.Daemon.Connection.{
  TurnRequest, Response, opened, snapshotted, opened_with_tools, turn_answered, turn_failed,
  save_failed, not_decoded, not_opened, not_loaded,
}
use rampipe.Daemon.Messages.{
  GrammarCompletion, into_predicate, GenerateRequest, GenerateResponse, EmbedResponse,
}
use mathlib.Core.Option

pub data RampipedError : Type 0 where
  connect encode send read decode : RampipedError
  remote : RampipedError
  unexpected : RampipedError

pub data Answer (R : Type 0) : Type 0 where
  broken : RampipedError → Answer R
  answered : R → Answer R

pub data Outcome (A : Type 0) : Type 0 where
  ok : A → Outcome A
  err : RampipedError → Outcome A

pub record GenerateOutcome : Type 0 where
  pub text : Text
  pub tokens_generated : ℕ
  pub committed_tokens : ℕ
  pub context_size : ℕ
  pub formatted_prompt : Text
  pub tool_calls : Run (List ToolCall)
  pub truncated_tool_call : Bool

pub record EmbedOutcome : Type 0 where
  pub vectors : List (List F32)
  pub n_embd : ℕ

-- `RampipedClient::generate`: a one-shot response has neither totals nor tool calls.
unfoldable pub generate_outcome : Answer GenerateResponse → Outcome GenerateOutcome
generate_outcome (broken e) = Outcome.err e
generate_outcome (answered (GenerateResponse.err e)) = Outcome.err remote
generate_outcome (answered (GenerateResponse.ok text tokens_generated formatted_prompt)) =
    Outcome.ok (record {
      text = text;
      tokens_generated = tokens_generated;
      committed_tokens = 0;
      context_size = 0;
      formatted_prompt = formatted_prompt;
      tool_calls = returns [];
      truncated_tool_call = false;
    })

-- `RampipedClient::embed`.
unfoldable pub embed_outcome : Answer EmbedResponse → Outcome EmbedOutcome
embed_outcome (broken e) = Outcome.err e
embed_outcome (answered (EmbedResponse.err e)) = Outcome.err remote
embed_outcome (answered (EmbedResponse.ok vectors n_embd)) =
    Outcome.ok (record { vectors = vectors; n_embd = n_embd })

-- `RampipedConversation`, less its two ends of the socket.
pub record RampipedConversation : Type 0 where
  pub supports_tool_calls : Bool
  pub turns : ℕ

-- `RampipedConversation::open`. Of the daemon's errors the code has one.
unfoldable pub open_outcome : Answer Response → Outcome RampipedConversation
open_outcome (broken e) = Outcome.err e
open_outcome (answered Response.opened) =
    Outcome.ok (record { supports_tool_calls = false; turns = 0 })
open_outcome (answered (opened_with_tools b)) =
    Outcome.ok (record { supports_tool_calls = b; turns = 0 })
open_outcome (answered (turn_answered r)) = Outcome.err unexpected
open_outcome (answered snapshotted) = Outcome.err unexpected
open_outcome (answered turn_failed) = Outcome.err remote
open_outcome (answered save_failed) = Outcome.err remote
open_outcome (answered not_decoded) = Outcome.err remote
open_outcome (answered not_opened) = Outcome.err remote
open_outcome (answered (not_loaded e)) = Outcome.err remote

abbrev pub outcome_of : GenerationResult → GenerateOutcome
outcome_of r = record {
  text = r.text;
  tokens_generated = r.tokens_generated;
  committed_tokens = r.committed_tokens;
  context_size = r.context_size;
  formatted_prompt = r.formatted_prompt;
  tool_calls = r.tool_calls;
  truncated_tool_call = r.truncated_tool_call;
}

-- `RampipedConversation::exchange`, from the answer on; a `usize` of 64 bits.
unfoldable pub exchange_outcome :
    RampipedConversation → Answer Response → RampipedConversation × Outcome GenerateOutcome
exchange_outcome c (broken e) = (c, Outcome.err e)
exchange_outcome c (answered (turn_answered r)) =
    (record c { turns = (c.turns + 1) % u64_mod }, Outcome.ok (outcome_of r))
exchange_outcome c (answered Response.opened) = (c, Outcome.err unexpected)
exchange_outcome c (answered (opened_with_tools b)) = (c, Outcome.err unexpected)
exchange_outcome c (answered snapshotted) = (c, Outcome.err unexpected)
exchange_outcome c (answered turn_failed) = (c, Outcome.err remote)
exchange_outcome c (answered save_failed) = (c, Outcome.err remote)
exchange_outcome c (answered not_decoded) = (c, Outcome.err remote)
exchange_outcome c (answered not_opened) = (c, Outcome.err remote)
exchange_outcome c (answered (not_loaded e)) = (c, Outcome.err remote)

-- `RampipedConversation::snapshot`.
unfoldable pub snapshot_outcome : Answer Response → Outcome Unit
snapshot_outcome (broken e) = Outcome.err e
snapshot_outcome (answered snapshotted) = Outcome.ok tt
snapshot_outcome (answered Response.opened) = Outcome.err unexpected
snapshot_outcome (answered (opened_with_tools b)) = Outcome.err unexpected
snapshot_outcome (answered (turn_answered r)) = Outcome.err unexpected
snapshot_outcome (answered turn_failed) = Outcome.err remote
snapshot_outcome (answered save_failed) = Outcome.err remote
snapshot_outcome (answered not_decoded) = Outcome.err remote
snapshot_outcome (answered not_opened) = Outcome.err remote
snapshot_outcome (answered (not_loaded e)) = Outcome.err remote

abbrev penalties_to_wire : Penalties → WirePenalties
penalties_to_wire p = record {
  last_n = p.last_n;
  repeat = p.repeat;
  freq = p.freq;
  present = p.present;
}

unfoldable pub sampling_to_wire : Sampling → WireSampling
sampling_to_wire (Sampling.greedy p) = WireSampling.greedy (penalties_to_wire p)
sampling_to_wire (Sampling.temperature t top_k top_p min_p seed p) =
    WireSampling.temperature t top_k top_p min_p seed (penalties_to_wire p)

-- The requests, as the daemon reads them.
module _ (from_str : Text → Option Json) where
  -- `RampipedConversation::send`.
  unfoldable pub send_request :
      Text
      → Option ℤ
      → Option WireSampling
      → Option Text
      → Option Text
      → Option GrammarCompletion
      → TurnRequest
  unfolding into_predicate
  send_request message max_new_tokens sampling grammar assistant_prefill grammar_completion =
      record {
        tool_results = none;
        message = message;
        max_new_tokens = max_new_tokens;
        sampling = sampling;
        grammar = grammar;
        grammar_complete = Option.map (into_predicate from_str) grammar_completion;
        assistant_prefill = assistant_prefill;
      }

  -- `RampipedConversation::send_tool_results`.
  unfoldable pub results_request :
      List Text
      → Option ℤ
      → Option WireSampling
      → Option Text
      → Option GrammarCompletion
      → TurnRequest
  unfolding into_predicate
  results_request results max_new_tokens sampling grammar grammar_completion = record {
    tool_results = some results;
    message = [];
    max_new_tokens = max_new_tokens;
    sampling = sampling;
    grammar = grammar;
    grammar_complete = Option.map (into_predicate from_str) grammar_completion;
    assistant_prefill = none;
  }

  -- `ConversationHandle::send` of a `RampipedConversation`, to its request.
  unfoldable pub handle_send :
      Text → ℤ → Sampling → Option Text → Option Text → Option GrammarCompletion → TurnRequest
  unfolding send_request sampling_to_wire
  handle_send message max_new_tokens sampling grammar assistant_prefill grammar_completion =
      send_request message (some max_new_tokens) (some (sampling_to_wire sampling)) grammar
        assistant_prefill grammar_completion

  -- `ConversationHandle::send_tool_results` of a `RampipedConversation`, to its request.
  unfoldable pub handle_send_tool_results :
      List Text → ℤ → Sampling → Option Text → Option GrammarCompletion → TurnRequest
  unfolding results_request sampling_to_wire
  handle_send_tool_results results max_new_tokens sampling grammar grammar_completion =
      results_request results (some max_new_tokens) (some (sampling_to_wire sampling)) grammar
        grammar_completion
