-- ===== src/Tests/Agreement.antt =====
-- llama.rs: an exchange over a cache that is a function from positions to tokens.
use rampipe.Common.{ℕ, suc, ◌+◌, ◌≡◌, refl, true, [], ◌∷◌, none, some, arith, get_elem?, nat_beq}
use rampipe.Common.Text.{contains, find, starts_with}
use rampipe.Common.Int.{pos, add32, wrap32}
use rampipe.Common.Float.{f32_eq, f32_lt, f32_one}
use rampipe.Conversation.Window.{Window, OverflowPolicy, ensure_room_for}
use rampipe.Conversation.Window.Shape.{IsShaped}
use rampipe.Conversation.Generation.{
  Engine, Sampling, decode_chunked, decode_loop, add_chunk, run_generation_loop, generation_loop,
  round, is_spent, pick, take_token, feed, settle, turn_cut, inside_open_think,
}
use rampipe.Conversation.Generation.Feeding.{written, laid, decode_chunked-laid}
use rampipe.Conversation.Session.{Request, end_turn, answer, decode_turn, exchange}
use rampipe.Conversation.Session.Agreement.{exchange-Agrees}
use rampipe.Tests.Window.{Cache, clear, move, clear_lem, move_lem}

abbrev writing : Engine Cache ℕ ℕ
writing = record {
  decode = λ c es. ((λ i. written es i (c i)), true);
  chain = λ stages. some 0;
  sample = λ s c i. (s, s);
  accept = λ s t. suc s;
  is_eog_token = λ t. nat_beq t 3;
  new_decoder = 0;
  token_to_piece = λ d t. some ((b'a' + t) ∷ [], d);
}

abbrev plain : Request
plain = record {
  max_new_tokens = pos 5;
  sampling = Sampling.greedy (record { last_n = pos 0; repeat = f32_one; freq = 0; present = 0 });
  grammar = none;
  grammar_complete = none;
}

abbrev blank : Window Cache
blank = record {
  ctx = λ i. none;
  committed_pos = 0;
  n_ctx = 16;
  turns = [];
  overflow = OverflowPolicy.drop_oldest_turns;
  tokens = [];
  protected_prefix = 0;
}

blank-IsShaped : IsShaped blank
blank-IsShaped = record { spans = omega arith; in_step = refl }

decode_chunked-laid_example :
    (decode_chunked writing (λ i. none) [] 4 (7 ∷ 8 ∷ [])).ctx 5 ≡ laid 4 (7 ∷ 8 ∷ []) 5 none
unfolding decode_chunked decode_loop add_chunk
decode_chunked-laid_example =
    decode_chunked-laid writing (λ c. c) (λ c es i h. refl) (λ i. none) [] 4 (7 ∷ 8 ∷ []) 5 refl

-- The position of the answer's second token.
exchange-Agrees_example :
    (exchange writing clear move none plain blank (7 ∷ 8 ∷ [])).0.ctx 3
    ≡ get_elem? (exchange writing clear move none plain blank (7 ∷ 8 ∷ [])).0.tokens 3
unfolding exchange ensure_room_for add32 wrap32 decode_turn answer end_turn decode_chunked
    decode_loop add_chunk run_generation_loop generation_loop round is_spent pick take_token feed
    settle turn_cut inside_open_think contains find starts_with f32_eq f32_lt
exchange-Agrees_example =
    exchange-Agrees writing clear move none plain (λ c. c) (λ c es i h. refl) clear_lem move_lem
      blank (7 ∷ 8 ∷ []) (b'a' ∷ b'b' ∷ b'c' ∷ []) 3 3 blank-IsShaped (λ i. refl) refl
