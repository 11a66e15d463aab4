-- ===== src/Conversation/Session.antt =====
-- llama.rs: `Conversation::send`, `send_tool_results` and what they share, from making room to the
-- bookkeeping of the two turns. The tokenizer is a parameter beside `Engine`.
pub mod Commit
pub mod Agreement
use rampipe.Common.{
  ℕ, suc, ◌+◌, ◌/◌, ◌%◌, ◌^◌, Bool, true, false, not, ◌&&◌, List, [], ◌∷◌, ◌++◌, map, Option, none,
  some, length, if◌then◌else◌,
}
use rampipe.Common.Text.{Text, codes, is_empty, starts_with}
use rampipe.Common.Int.{ℤ, pos, add32}
use rampipe.Conversation.Window.{
  Role, TurnBoundary, Window, LlamaSessionError, backend, Outcome, done, err, out_of_fuel,
  ensure_room_for,
}
use rampipe.Conversation.Generation.{
  Engine, Generation, Limits, Sampling, Decoded, Ending, decode_chunked, run_generation_loop,
}
use rampipe.Conversation.Generation
use rampipe.Conversation.Template.{ConversationTemplate}
use rampipe.ToolFormat.{ToolFormat, ToolCall, Run, returns, parse_tool_calls}
use rampipe.ToolFormat.Value.{Json}
use rampipe.ToolFormat.Results.{ToolResultSpans, join, render}
use rampipe.ToolFormat.TurnEnd.{TurnEnd, of, ends_mid_call}

-- `Conversation`: the window and what the code reads to build a turn.
pub record Conversation (Ctx : Type 0) : Type 0 where
  pub window : Window Ctx
  pub template : ConversationTemplate
  pub opening : Text
  pub system_for_first_turn : Option Text
  pub tool_format : Option ToolFormat
  pub tool_result_spans : Option ToolResultSpans

-- `Conversation::turn_count`.
unfoldable pub turn_count {ℓ} : {A : Type ℓ} → List A → ℕ
turn_count turns = length turns / 2

-- `GenerationResult`, without the clock.
pub record GenerationResult : Type 0 where
  pub text : Text
  pub tokens_generated : ℕ
  pub committed_tokens : ℕ
  pub context_size : ℕ
  pub formatted_prompt : Text
  pub tool_calls : Run (List ToolCall)
  pub truncated_tool_call : Bool

-- What the caller of `send` chooses.
pub record Request : Type 0 where
  pub max_new_tokens : ℤ
  pub sampling : Sampling
  pub grammar : Option Text
  pub grammar_complete : Option (Text → Bool)

-- What a call has come to; `unfinished` stands for a loop that has not ended.
pub data Sent : Type 0 where
  answered : GenerationResult → Sent
  failed : LlamaSessionError → Sent
  unfinished : Sent

-- Text that was generated for a turn.
pub data Said : Type 0 where
  said : Text → ℕ → Said
  not_said : LlamaSessionError → Said
  still_running : Said

abbrev pub is_first {ℓ} : {A : Type ℓ} → List A → Bool
is_first [] = true
is_first (t ∷ ts) = false

abbrev pub first_message : Option Text → Bool → Text → Text
first_message none first message = message
first_message (some system) false message = message
first_message (some system) true message = system ++ (codes "\n\n" ++ message)

abbrev pub prefilled : Option Text → Text → Text
prefilled none text = text
prefilled (some prefill) text = prefill ++ text

abbrev pub behind : Text → Option Text → Text
behind text none = text
behind text (some prefill) = text ++ prefill

abbrev pub tool_calls_of : (Text → Option Json) → Text → Option ToolFormat → Run (List ToolCall)
tool_calls_of from_str text none = returns []
tool_calls_of from_str text (some format) = parse_tool_calls from_str text format

abbrev pub severed : Text → Option ToolFormat → Bool
severed text none = false
severed text (some format) = ends_mid_call text format

abbrev pub turn_end_of : Option ToolFormat → Option TurnEnd
turn_end_of none = none
turn_end_of (some format) = some (of format)

-- The text of a turn.
unfoldable pub user_text : {Ctx : Type 0} → Conversation Ctx → Text → Option Text → Text
user_text c message prefill =
    let first = is_first c.window.turns in
    let opening = if first then c.opening else c.template.turn_transition in
    behind
      (opening
        ++ (first_message c.system_for_first_turn first message ++ c.template.generation_open))
      prefill

-- `slice::starts_with`, on tokens.
abbrev pub protect : {Ctx : Type 0} → Window Ctx → List ℕ → List ℕ → Window Ctx
protect w user_tokens opening_tokens =
    if starts_with user_tokens opening_tokens
    then record w { protected_prefix = length opening_tokens }
    else w

-- The two turns of an exchange, as they are pushed.
abbrev pub push_user : {Ctx : Type 0} → Window Ctx → Ctx → List ℕ → Window Ctx
push_user w ctx tokens = record w {
  ctx = ctx;
  committed_pos = w.committed_pos + length tokens;
  turns =
      w.turns
      ++ record {
        role = Role.user;
        start_pos = w.committed_pos;
        end_pos = w.committed_pos + length tokens;
      }
        ∷ [];
  tokens = w.tokens ++ tokens;
}

abbrev pub push_assistant : {Ctx : Type 0} → Window Ctx → Ctx → ℕ → List ℕ → Window Ctx
push_assistant w ctx committed_pos tokens = record w {
  ctx = ctx;
  committed_pos = committed_pos;
  turns =
      w.turns
      ++ record { role = Role.assistant; start_pos = w.committed_pos; end_pos = committed_pos }
        ∷ [];
  tokens = w.tokens ++ tokens;
}

-- A failure in the loop leaves the cache and the position where they are, and nothing else changed.
abbrev pub stray : {Ctx : Type 0} → Window Ctx → Ctx → ℕ → Window Ctx
stray w ctx committed_pos = record w { ctx = ctx; committed_pos = committed_pos }

abbrev pub limits : {Ctx : Type 0} → Option TurnEnd → Request → Window Ctx → Limits
limits turn_end req w = record {
  n_ctx = w.n_ctx;
  max_new_tokens = req.max_new_tokens;
  sampling = req.sampling;
  grammar = req.grammar;
  grammar_complete = req.grammar_complete;
  turn_end = turn_end;
}

unfoldable pub end_turn :
    {Ctx Sampler Decoder : Type 0}
    → Window Ctx
    → Generation Ctx Sampler Decoder × Ending
    → Window Ctx × Said
end_turn w (g, Ending.finished) =
    (push_assistant w g.ctx g.n_cur g.generated_tokens, said g.text (length g.generated_tokens))
end_turn w (g, Ending.failed) = (stray w g.ctx g.n_cur, not_said backend)
end_turn w (g, Ending.out_of_fuel) = (w, still_running)

module _ {Ctx Sampler Decoder : Type 0} (en : Engine Ctx Sampler Decoder)
    (seq_rm seq_add : Ctx → ℕ → ℕ → Option Ctx) (turn_end : Option TurnEnd) (req : Request) where
  -- The user's turn was decoded, or not: push it, and generate the answer.
  unfoldable pub answer : Window Ctx → List ℕ → Decoded Ctx → Window Ctx × Said
  unfolding run_generation_loop end_turn
  answer w tokens d = elim d.ok [
    | false ↦ (record w { ctx = d.ctx }, not_said backend)
    | true ↦
        let w' = push_user w d.ctx tokens in
        end_turn w' (run_generation_loop en (limits turn_end req w') d.ctx d.batch w'.committed_pos)
  ]

  unfoldable pub decode_turn : List ℕ → Window Ctx × Outcome → Window Ctx × Said
  unfolding decode_chunked answer
  decode_turn tokens (w, done) = answer w tokens (decode_chunked en w.ctx [] w.committed_pos tokens)
  decode_turn tokens (w, err e) = (w, not_said e)
  decode_turn tokens (w, out_of_fuel) = (w, still_running)

  -- What `send` and `send_tool_results` do with the tokens of their turn.
  unfoldable pub exchange : Window Ctx → List ℕ → Window Ctx × Said
  unfolding ensure_room_for decode_turn
  exchange w tokens =
      decode_turn tokens
        (ensure_room_for seq_rm seq_add w (add32 (pos (length tokens)) req.max_new_tokens))

module _ {Ctx Sampler Decoder : Type 0} (en : Engine Ctx Sampler Decoder)
    (seq_rm seq_add : Ctx → ℕ → ℕ → Option Ctx) (str_to_token : Text → Bool → Option (List ℕ))
    (from_str : Text → Option Json) where
  unfoldable pub report :
      Conversation Ctx → Text → Option Text → Window Ctx × Said → Conversation Ctx × Sent
  unfolding parse_tool_calls ends_mid_call
  report c prompt prefill (w, said text n) =
      let whole = prefilled prefill text in
      (
        record c { window = w },
        answered (record {
          text = whole;
          tokens_generated = n;
          committed_tokens = w.committed_pos;
          context_size = w.n_ctx;
          formatted_prompt = prompt;
          tool_calls = tool_calls_of from_str whole c.tool_format;
          truncated_tool_call = severed whole c.tool_format;
        }),
      )
  report c prompt prefill (w, not_said e) = (record c { window = w }, failed e)
  report c prompt prefill (w, still_running) = (record c { window = w }, unfinished)

  -- On the first turn the opening's tokens become the protected prefix, if the turn begins so.
  unfoldable pub guard_opening : Conversation Ctx → Text → Bool → List ℕ → Option (Window Ctx)
  guard_opening c opening first user_tokens = elim (first && not (is_empty opening)) [
    | false ↦ some c.window
    | true ↦ elim (str_to_token opening first) [
      | none ↦ none
      | some opening_tokens ↦ some (protect c.window user_tokens opening_tokens)
    ]
  ]

  -- `Conversation::send`.
  unfoldable pub send : Conversation Ctx → Text → Option Text → Request → Conversation Ctx × Sent
  unfolding user_text guard_opening exchange report
  send c message prefill req =
      let first = is_first c.window.turns in
      let opening = if first then c.opening else c.template.turn_transition in
      let prompt = user_text c message prefill in
      elim (str_to_token prompt first) [
        | none ↦ (c, failed backend)
        | some user_tokens ↦ elim (guard_opening c opening first user_tokens) [
          | none ↦ (c, failed backend)
          | some w ↦
              report c prompt prefill
                (exchange en seq_rm seq_add (turn_end_of c.tool_format) req w user_tokens)
        ]
      ]

  -- `Conversation::send_tool_results`.
  unfoldable pub send_tool_results :
      Conversation Ctx → List Text → Request → Conversation Ctx × Sent
  unfolding send render join report exchange
  send_tool_results c results req = elim c.tool_result_spans [
    | none ↦ send c (join (codes "\n") results) none req
    | some spans ↦
        let text_in = render spans results in
        elim (str_to_token text_in false) [
          | none ↦ (c, failed backend)
          | some tokens ↦
              report c text_in none
                (exchange en seq_rm seq_add (turn_end_of c.tool_format) req c.window tokens)
        ]
  ]
