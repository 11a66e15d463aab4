-- ===== src/Tests/Session.antt =====
-- llama.rs: an exchange with an engine that counts. Its context is the number of tokens that it
-- decoded, and it samples its own number of accepted tokens; the fourth ends generation.
use rampipe.Common.{
  ℕ, suc, ◌+◌, ◌<◌, ◌≡◌, refl, [], ◌∷◌, Option, none, some, arith, length, ltb, nat_beq,
}
use rampipe.Common.Text.{contains, find, starts_with}
use rampipe.Common.Int.{pos, add32, wrap32}
use rampipe.Common.Float.{f32_eq, f32_lt, f32_one}
use rampipe.Conversation.Window.{Window, OverflowPolicy, done, ensure_room_for}
use rampipe.Conversation.Window.Shape.{IsShaped}
use rampipe.Conversation.Generation.{
  Engine, Generation, Sampling, decode_chunked, decode_loop, add_chunk, run_generation_loop,
  generation_loop, round, is_spent, pick, take_token, feed, settle, turn_cut, inside_open_think,
}
use rampipe.Conversation.Generation.Bounds.{Bounded, run_generation_loop-Bounded}
use rampipe.Conversation.Session.{Request, end_turn, answer, decode_turn, exchange, limits}
use rampipe.Conversation.Session.Commit.{
  Committed, roomy, answering, exchange-Committed, exchange_stray,
}

-- Decoding fails at a context of `top`.
abbrev counting : ℕ → Engine ℕ ℕ ℕ
counting top = record {
  decode = λ c es. (c + length es, ltb (c + length es) top);
  chain = λ stages. some 0;
  sample = λ s c i. (s, s);
  accept = λ s t. suc s;
  is_eog_token = λ t. nat_beq t 3;
  new_decoder = 0;
  token_to_piece = λ d t. some ((b'a' + t) ∷ [], d);
}

abbrev plain : Request
plain = record {
  max_new_tokens = pos 5;
  sampling = Sampling.greedy (record { last_n = pos 0; repeat = f32_one; freq = 0; present = 0 });
  grammar = none;
  grammar_complete = none;
}

abbrev blank_window : Window ℕ
blank_window = record {
  ctx = 0;
  committed_pos = 0;
  n_ctx = 16;
  turns = [];
  overflow = OverflowPolicy.fail;
  tokens = [];
  protected_prefix = 0;
}

abbrev stay : ℕ → ℕ → ℕ → Option ℕ
stay c p0 p1 = some c

blank_window-IsShaped : IsShaped blank_window
blank_window-IsShaped = record { spans = omega arith; in_step = refl }

run_generation_loop-Bounded_example :
    Bounded
      (counting 99)
      (limits none plain blank_window)
      4
      5
      (run_generation_loop (counting 99) (limits none plain blank_window) 4 [] 4)
run_generation_loop-Bounded_example =
    run_generation_loop-Bounded (counting 99) (limits none plain blank_window) 4 [] 4 5 refl

exchange-Committed_example :
    let kept = (roomy (counting 99) stay stay none plain blank_window (7 ∷ 8 ∷ [])).0 in
    let run = answering (counting 99) stay stay none plain kept (7 ∷ 8 ∷ []) in
    ((roomy (counting 99) stay stay none plain blank_window (7 ∷ 8 ∷ [])).1 ≡ done)
    × Committed kept
        (7 ∷ 8 ∷ [])
        run
        (exchange (counting 99) stay stay none plain blank_window (7 ∷ 8 ∷ [])).0
    × (run.0.text ≡ b'a' ∷ b'b' ∷ b'c' ∷ [])
    × (length run.0.generated_tokens ≡ 3)
unfolding exchange ensure_room_for add32 wrap32 decode_turn answer end_turn decode_chunked
    decode_loop add_chunk run_generation_loop generation_loop round is_spent pick take_token feed
    settle turn_cut inside_open_think contains find starts_with f32_eq f32_lt
exchange-Committed_example =
    exchange-Committed (counting 99) stay stay none plain blank_window (7 ∷ 8 ∷ []) 5
      (b'a' ∷ b'b' ∷ b'c' ∷ []) 3 refl blank_window-IsShaped refl

-- The third token of four is not decoded.
abbrev cut_short : Generation ℕ ℕ ℕ
cut_short =
    (run_generation_loop (counting 5) (limits none plain blank_window) 2
      ((decode_chunked (counting 5) 0 [] 0 (7 ∷ 8 ∷ [])).batch) 2).0

exchange_stray_example :
    let w' = (exchange (counting 5) stay stay none plain blank_window (7 ∷ 8 ∷ [])).0 in
    (length w'.tokens < w'.committed_pos) × (length w'.turns ≡ 1)
unfolding ensure_room_for add32 wrap32 decode_chunked decode_loop add_chunk run_generation_loop
    generation_loop round is_spent pick take_token feed settle turn_cut inside_open_think contains
    find starts_with f32_eq f32_lt
exchange_stray_example =
    exchange_stray (counting 5) stay stay none plain blank_window blank_window (7 ∷ 8 ∷ [])
      cut_short blank_window-IsShaped refl refl refl (omega arith)
