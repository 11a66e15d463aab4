-- ===== src/Conversation/Session/Agreement.antt =====
-- llama.rs: the token list and the KV cache, position for position, over an exchange.
use rampipe.Common.{
  ℕ, zero, suc, ◌+◌, ◌≤◌, ◌<◌, ◌≡◌, ◌≢◌, refl, ap, sym, ◌∙◌, true, ◌&&◌, List, [], ◌∷◌, ◌++◌,
  append_assoc, append-nil, Option, none, some, arith, length, length-append, get_elem?,
  if◌then◌else◌, leb, ltb, nat_beq, Bool-cases, inl, inr,
}
use rampipe.Common.Text.{Text}
use rampipe.Common.Int.{pos, add32}
use rampipe.Conversation.Window.{Window, Outcome, done, err, out_of_fuel, backend, ensure_room_for}
use rampipe.Conversation.Window.Shape.{IsShaped, ensure_room_for-Keeps}
use rampipe.Conversation.Window.Lockstep.{ensure_room_for-Lockstep}
use rampipe.Conversation.Generation.{
  Engine, Entry, Generation, Ending, decode_chunked, run_generation_loop,
}
use rampipe.Conversation.Generation.Feeding.{
  written, laid, Fed, decode_chunked-laid, run_generation_loop-Fed,
}
use rampipe.Conversation.Session.{
  Request, said, push_user, limits, end_turn, answer, decode_turn, exchange,
}
use rampipe.ToolFormat.TurnEnd.{TurnEnd}

get_elem?-snoc :
    (ts : List ℕ) (u i : ℕ)
    → get_elem? (ts ++ u ∷ []) i ≡ (if nat_beq (length ts) i then some u else get_elem? ts i)
get_elem?-snoc [] u zero = refl
get_elem?-snoc [] u (suc i) = ground arith
get_elem?-snoc (t ∷ ts) u zero = ground arith
get_elem?-snoc (t ∷ ts) u (suc i) = ground (arith, get_elem?-snoc ts u i)

-- Tokens laid behind a list are the list with them appended.
laid-get_elem? :
    (ts us : List ℕ) (i : ℕ) → laid (length ts) us i (get_elem? ts i) ≡ get_elem? (ts ++ us) i
laid-get_elem? ts [] i = ap (λ l. get_elem? l i) (sym (append-nil ts))
laid-get_elem? ts (u ∷ us) i =
    let e : suc (length ts) ≡ length (ts ++ u ∷ []) = omega (arith, length-append ts (u ∷ [])) in
    ap (laid (suc (length ts)) us i) (sym (get_elem?-snoc ts u i))
    ∙ ap (λ k. laid k us i (get_elem? (ts ++ u ∷ []) i)) e
    ∙ laid-get_elem? (ts ++ u ∷ []) us i
    ∙ ap (λ l. get_elem? l i) (append_assoc ts (u ∷ []) us)

module _ {Ctx Sampler Decoder : Type 0} (en : Engine Ctx Sampler Decoder)
    (seq_rm seq_add : Ctx → ℕ → ℕ → Option Ctx) (turn_end : Option TurnEnd) (req : Request)
    (view : Ctx → ℕ → Option ℕ)
    (writes : (c : Ctx) (es : List Entry) (i : ℕ)
      → (en.decode c es).1 ≡ true
      → view (en.decode c es).0 i ≡ written es i (view c i)) where
  abbrev pub Agrees : Window Ctx → Type 0
  Agrees w = (i : ℕ) → view w.ctx i ≡ get_elem? w.tokens i

  end_turn-Agrees :
      (w : Window Ctx) (run : Generation Ctx Sampler Decoder × Ending) (text : Text) (n : ℕ)
      → length w.tokens ≡ w.committed_pos
      → (run.1 ≡ Ending.finished
          → Fed en view writes (limits turn_end req w) w.committed_pos (get_elem? w.tokens) run.0)
      → (end_turn w run).1 ≡ said text n
      → Agrees (end_turn w run).0
  unfolding end_turn
  end_turn-Agrees w (g, Ending.finished) text n e fed h = λ i.
      (fed refl).1 i
      ∙ ap (λ k. laid k g.generated_tokens i (get_elem? w.tokens i)) (sym e)
      ∙ laid-get_elem? w.tokens g.generated_tokens i
  end_turn-Agrees w (g, Ending.failed) text n e fed h = absurd (ground arith)
  end_turn-Agrees w (g, Ending.out_of_fuel) text n e fed h = absurd (ground arith)

  answer-Agrees :
      (kept : Window Ctx) (tokens : List ℕ) (text : Text) (n : ℕ)
      → length kept.tokens ≡ kept.committed_pos
      → Agrees kept
      → (answer en seq_rm seq_add turn_end req kept tokens
          (decode_chunked en kept.ctx [] kept.committed_pos tokens)).1
        ≡ said text n
      → Agrees
          (answer en seq_rm seq_add turn_end req kept tokens
            (decode_chunked en kept.ctx [] kept.committed_pos tokens)).0
  unfolding answer
  answer-Agrees kept tokens text n e held h =
      let d = decode_chunked en kept.ctx [] kept.committed_pos tokens in
      let w = push_user kept d.ctx tokens in
      elim (Bool-cases d.ok) [
        | inr bad ↦ absurd (ground (arith, rw (bad, answer) at h))
        | inl good ↦
            rw (good, answer)
              (end_turn-Agrees w
                (run_generation_loop en (limits turn_end req w) d.ctx d.batch w.committed_pos) text
                n (omega (arith, e, length-append kept.tokens tokens))
                (run_generation_loop-Fed en view writes (limits turn_end req w) w.committed_pos
                  (get_elem? w.tokens) d.ctx d.batch
                  (λ i.
                    decode_chunked-laid en view writes kept.ctx [] kept.committed_pos tokens i good
                    ∙ ap (laid kept.committed_pos tokens i) (held i)
                    ∙ ap (λ k. laid k tokens i (get_elem? kept.tokens i)) (sym e)
                    ∙ laid-get_elem? kept.tokens tokens i))
                (rw (good, answer) at h))
      ]

  decode_turn-Agrees :
      (tokens : List ℕ) (kept : Window Ctx) (o : Outcome) (text : Text) (n : ℕ)
      → length kept.tokens ≡ kept.committed_pos
      → (o ≢ err backend → Agrees kept)
      → (decode_turn en seq_rm seq_add turn_end req tokens (kept, o)).1 ≡ said text n
      → Agrees (decode_turn en seq_rm seq_add turn_end req tokens (kept, o)).0
  unfolding decode_turn
  decode_turn-Agrees tokens kept done text n e held h =
      answer-Agrees kept tokens text n e (held (ground arith)) h
  decode_turn-Agrees tokens kept (err x) text n e held h = absurd (ground arith)
  decode_turn-Agrees tokens kept out_of_fuel text n e held h = absurd (ground arith)

  module _
      (rm_clears : (c c' : Ctx) (p0 p1 i : ℕ)
        → seq_rm c p0 p1 ≡ some c'
        → view c' i ≡ (if leb p0 i && ltb i p1 then none else view c i))
      (add_moves : (c c' : Ctx) (p0 n i : ℕ)
        → n ≤ p0
        → ((j : ℕ) → p0 ≤ j + n → j < p0 → view c j ≡ none)
        → seq_add c p0 n ≡ some c'
        → view c' i ≡ (if leb p0 (i + n) then view c (i + n) else view c i)) where
    -- If a successful decode writes each token at its own position, and llama.cpp's
    -- `kv_cache_seq_rm` and `kv_cache_seq_add` do what they document, then after an exchange that
    -- succeeds the token list agrees with the cache at every position, as it did before, for a
    -- window whose turns lie in order: through eviction, the turn's chunks and the tokens of the
    -- answer.
    pub exchange-Agrees :
        (w : Window Ctx) (tokens : List ℕ) (text : Text) (n i : ℕ)
        → IsShaped w
        → Agrees w
        → (exchange en seq_rm seq_add turn_end req w tokens).1 ≡ said text n
        → let w' = (exchange en seq_rm seq_add turn_end req w tokens).0 in
          view w'.ctx i ≡ get_elem? w'.tokens i
    unfolding exchange
    exchange-Agrees w tokens text n i v held h =
        let needed = add32 (pos (length tokens)) req.max_new_tokens in
        let kept = ensure_room_for seq_rm seq_add w needed in
        let shaped = (ensure_room_for-Keeps seq_rm seq_add w needed v).0 in
        decode_turn-Agrees tokens kept.0 kept.1 text n shaped.in_step
          (ensure_room_for-Lockstep seq_rm seq_add view rm_clears add_moves w needed v held) h i
