-- ===== src/Client/Converse.antt =====
-- client.rs and bin/rampiped.rs: a client and the daemon in conversation, turn by turn.
use rampipe.Common.{ℕ, ◌+◌, ◌<◌, ◌≡◌, refl, Bool, List, [], ◌∷◌, Option, arith, length}
use rampipe.Common.Text.{Text}
use rampipe.Common.Int.{ℤ}
use rampipe.Registry.{u64_mod}
use rampipe.Settings.{WireSampling, wire_sampling_to_sampling}
use rampipe.Conversation.Generation.{Engine, Sampling}
use rampipe.Conversation.Session.{Conversation, Request, Sent}
use rampipe.ToolFormat.Value.{Json}
use rampipe.Daemon.Connection.{
  Connection, TurnRequest, turn, handle_line, run_conversation_turn, request_of, response_of,
}
use rampipe.Daemon.Connection.Outcomes.{is_answer, is_failure, handle_line-Counts}
use rampipe.Daemon.Messages.{GrammarCompletion, into_predicate}
use rampipe.Client.{
  RampipedConversation, Answer, exchange_outcome, sampling_to_wire, send_request, results_request,
  handle_send, handle_send_tool_results,
}
use mathlib.Core.Option

sent_counts :
    (c : RampipedConversation) (s : Sent)
    → c.turns + 1 < u64_mod
    → ((exchange_outcome c (Answer.answered (response_of s))).0.turns
        ≡ c.turns + is_answer (response_of s))
      × (is_answer (response_of s) + is_failure (response_of s) ≡ 1)
unfolding exchange_outcome
sent_counts c (Sent.answered r) h = (omega arith, omega arith)
sent_counts c (Sent.failed e) h = (omega arith, omega arith)
sent_counts c Sent.unfinished h = (omega arith, omega arith)

module _ {Ctx Sampler Decoder : Type 0} (en : Engine Ctx Sampler Decoder)
    (seq_rm seq_add : Ctx → ℕ → ℕ → Option Ctx) (str_to_token : Text → Bool → Option (List ℕ))
    (from_str : Text → Option Json) (saves : Conversation Ctx → Bool) (now : ℕ) (path : Text)
    (configured : WireSampling) (configured_tokens : Option ℤ) where
  -- Each turn is sent, and its response read, before the next.
  unfoldable pub converse :
      Connection Ctx
      → RampipedConversation
      → List TurnRequest
      → Connection Ctx × RampipedConversation
  unfolding exchange_outcome handle_line
  converse k c [] = (k, c)
  converse k c (t ∷ ts) =
      let after =
        handle_line en seq_rm seq_add str_to_token from_str saves now path configured
          configured_tokens k (turn t) in
      converse after.0 (exchange_outcome c (Answer.answered after.1)).0 ts

  turn_counts :
      (k : Connection Ctx) (c : RampipedConversation) (t : TurnRequest)
      → c.turns + 1 < u64_mod
      → let r =
          (handle_line en seq_rm seq_add str_to_token from_str saves now path configured
            configured_tokens k
            (turn t)).1 in
        ((exchange_outcome c (Answer.answered r)).0.turns ≡ c.turns + is_answer r)
        × (is_answer r + is_failure r ≡ 1)
  unfolding handle_line run_conversation_turn exchange_outcome
  turn_counts k c t h = sent_counts c _ h

  -- While a client and the daemon converse turn by turn, the client's count of turns and the
  -- daemon's counter of served requests grow by the same, and the daemon counts each turn once,
  -- as served or as failed, if no counter leaves 64 bits.
  pub converse-turns :
      (k : Connection Ctx) (c : RampipedConversation) (ts : List TurnRequest)
      → c.turns + length ts < u64_mod
      → k.state.requests_served + length ts < u64_mod
      → k.state.requests_failed + length ts < u64_mod
      → let (k', c') = converse k c ts in
        (c'.turns + k.state.requests_served ≡ c.turns + k'.state.requests_served)
        × (k'.state.requests_served + k'.state.requests_failed
            ≡ k.state.requests_served + k.state.requests_failed + length ts)
  unfolding converse
  converse-turns k c [] h s f = (omega arith, omega arith)
  converse-turns k c (t ∷ ts) h s f =
      let after =
        handle_line en seq_rm seq_add str_to_token from_str saves now path configured
          configured_tokens k (turn t) in
      let (more, one) = turn_counts k c t (omega arith) in
      let counts =
        handle_line-Counts en seq_rm seq_add str_to_token from_str saves now path configured
          configured_tokens k (turn t) (omega arith) (omega arith) in
      let (grown, sum) =
        converse-turns after.0 (exchange_outcome c (Answer.answered after.1)).0 ts
          (omega (arith, more, one)) (omega (arith, counts, one)) (omega (arith, counts, one)) in
      (omega (arith, grown, more, counts), omega (arith, sum, counts, one))

-- Whatever the daemon has configured, a turn that is sent through the handle runs as asked.
pub request_of-handle_send :
    (from_str : Text → Option Json) (configured : WireSampling) (configured_tokens : Option ℤ)
    (message : Text) (max_new_tokens : ℤ) (sampling : Sampling) (grammar prefill : Option Text)
    (completion : Option GrammarCompletion)
    → let asked : Request = record {
      max_new_tokens = max_new_tokens;
      sampling = sampling;
      grammar = grammar;
      grammar_complete = Option.map (into_predicate from_str) completion;
    } in
      (request_of configured configured_tokens
          (handle_send from_str message max_new_tokens sampling grammar prefill completion)
        ≡ asked)
      × ((results : List Text)
          → request_of configured configured_tokens
              (handle_send_tool_results from_str results max_new_tokens sampling grammar completion)
            ≡ asked)
unfolding request_of handle_send handle_send_tool_results send_request results_request
    sampling_to_wire wire_sampling_to_sampling
request_of-handle_send from_str configured configured_tokens message m (Sampling.greedy p) grammar
      prefill completion =
    (refl, λ results. refl)
request_of-handle_send from_str configured configured_tokens message m
      (Sampling.temperature t top_k top_p min_p seed p) grammar prefill completion =
    (refl, λ results. refl)
