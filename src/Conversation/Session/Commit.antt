-- ===== src/Conversation/Session/Commit.antt =====
-- llama.rs: the bookkeeping of an exchange, after a success and after a failure of llama.cpp.
use rampipe.Common.{
  ℕ, suc, ◌+◌, ◌≤◌, ◌<◌, ◌≡◌, refl, ap, subst, ◌∙◌, ◌⊎◌, inl, inr, true, List, [], ◌∷◌, ◌++◌,
  Option, arith, length, length-append, Bool-cases,
}
use rampipe.Common.Text.{Text}
use rampipe.Common.Int.{pos, add32}
use rampipe.Conversation.Window.{
  Role, TurnBoundary, Window, backend, Outcome, done, err, out_of_fuel, ensure_room_for,
}
use rampipe.Conversation.Window.Shape.{IsShaped, Spans, ensure_room_for-Keeps}
use rampipe.Conversation.Generation.{
  Engine, Generation, Decoded, Ending, decode_chunked, run_generation_loop,
}
use rampipe.Conversation.Generation.Bounds.{Bounded, run_generation_loop-Bounded}
use rampipe.Conversation.Session.{
  Request, said, not_said, push_user, push_assistant, stray, limits, end_turn, answer, decode_turn,
  exchange,
}
use rampipe.ToolFormat.TurnEnd.{TurnEnd}

Spans-snoc :
    (lo : ℕ) (ts : List TurnBoundary) (hi e : ℕ) (r : Role)
    → Spans lo ts hi
    → hi ≤ e
    → Spans lo (ts ++ record { role = r; start_pos = hi; end_pos = e } ∷ []) e
Spans-snoc lo [] hi e r s h = (s, h, omega arith)
Spans-snoc lo (t ∷ ts) hi e r s h = (s.0, s.1, Spans-snoc t.end_pos ts hi e r s.2 h)

push_user-IsShaped :
    {Ctx : Type 0} (w : Window Ctx) (ctx : Ctx) (tokens : List ℕ)
    → IsShaped w
    → IsShaped (push_user w ctx tokens)
push_user-IsShaped w ctx tokens v = record {
  spans =
      Spans-snoc 0 w.turns w.committed_pos (w.committed_pos + length tokens) Role.user v.spans
        (omega arith);
  in_step = omega (arith, v.in_step, length-append w.tokens tokens);
}

push_assistant-IsShaped :
    {Ctx : Type 0} (w : Window Ctx) (ctx : Ctx) (n : ℕ) (tokens : List ℕ)
    → IsShaped w
    → length tokens + w.committed_pos ≡ n
    → IsShaped (push_assistant w ctx n tokens)
push_assistant-IsShaped w ctx n tokens v e = record {
  spans = Spans-snoc 0 w.turns w.committed_pos n Role.assistant v.spans (omega arith);
  in_step = omega (arith, v.in_step, length-append w.tokens tokens);
}

-- What a run of the generation loop that finished leaves behind the window `kept`: that window in
-- order, with its limits, the cache as the run left it, the turn's tokens and the run's own behind
-- the tokens, and a turn of either side behind the turns.
abbrev pub Committed :
    {Ctx Sampler Decoder : Type 0}
    → Window Ctx
    → List ℕ
    → Generation Ctx Sampler Decoder × Ending
    → Window Ctx
    → Type 0
Committed kept tokens (g, ending) w =
    (ending ≡ Ending.finished)
    × IsShaped w
    × (w.ctx ≡ g.ctx)
    × (w.n_ctx ≡ kept.n_ctx)
    × (w.protected_prefix ≡ kept.protected_prefix)
    × (w.committed_pos ≡ kept.committed_pos + length tokens + length g.generated_tokens)
    × (w.tokens ≡ (kept.tokens ++ tokens) ++ g.generated_tokens)
    × (w.turns
        ≡ (kept.turns
            ++ record {
              role = Role.user;
              start_pos = kept.committed_pos;
              end_pos = kept.committed_pos + length tokens;
            }
              ∷ [])
          ++ record {
            role = Role.assistant;
            start_pos = kept.committed_pos + length tokens;
            end_pos = w.committed_pos;
          }
            ∷ [])

end_turn-Committed :
    {Ctx Sampler Decoder : Type 0} (en : Engine Ctx Sampler Decoder) (turn_end : Option TurnEnd)
    (req : Request) (kept : Window Ctx) (ctx : Ctx) (tokens : List ℕ) (m : ℕ)
    (run : Generation Ctx Sampler Decoder × Ending) (text : Text) (n : ℕ)
    → IsShaped kept
    → Bounded en (limits turn_end req kept) (kept.committed_pos + length tokens) m run
    → (end_turn (push_user kept ctx tokens) run).1 ≡ said text n
    → Committed kept tokens run (end_turn (push_user kept ctx tokens) run).0
      × (run.0.text ≡ text)
      × (length run.0.generated_tokens ≡ n)
unfolding end_turn
end_turn-Committed en turn_end req kept ctx tokens m (g, Ending.finished) text n v b h =
    let whole = counts b.4 in
    (
      (
        refl,
        push_assistant-IsShaped (push_user kept ctx tokens) g.ctx g.n_cur g.generated_tokens
            (push_user-IsShaped kept ctx tokens v) whole,
        refl,
        refl,
        refl,
        omega (arith, whole),
        refl,
        refl,
      ),
      ground arith,
      ground arith,
    )
  where
    counts : {A : Type 0} → (Ending.finished ≡ Ending.failed) ⊎ A → A
    counts (inl e) = absurd (ground arith)
    counts (inr e) = e
end_turn-Committed en turn_end req kept ctx tokens m (g, Ending.failed) text n v b h =
    absurd (ground arith)
end_turn-Committed en turn_end req kept ctx tokens m (g, Ending.out_of_fuel) text n v b h =
    absurd (ground arith)

module _ {Ctx Sampler Decoder : Type 0} (en : Engine Ctx Sampler Decoder)
    (seq_rm seq_add : Ctx → ℕ → ℕ → Option Ctx) (turn_end : Option TurnEnd) (req : Request) where
  -- The run that answers a turn: from the decoded turn on, behind its last token.
  abbrev pub answering : Window Ctx → List ℕ → Generation Ctx Sampler Decoder × Ending
  answering kept tokens =
      let d = decode_chunked en kept.ctx [] kept.committed_pos tokens in
      run_generation_loop en (limits turn_end req kept) d.ctx d.batch
        (kept.committed_pos + length tokens)

  answer-Committed :
      (kept : Window Ctx) (tokens : List ℕ) (m : ℕ) (text : Text) (n : ℕ)
      → req.max_new_tokens ≡ pos m
      → IsShaped kept
      → let d = decode_chunked en kept.ctx [] kept.committed_pos tokens in
        (answer en seq_rm seq_add turn_end req kept tokens d).1 ≡ said text n
        → Committed kept tokens
            (answering kept tokens)
            (answer en seq_rm seq_add turn_end req kept tokens d).0
          × ((answering kept tokens).0.text ≡ text)
          × (length (answering kept tokens).0.generated_tokens ≡ n)
  unfolding answer
  answer-Committed kept tokens m text n e v h =
      let d = decode_chunked en kept.ctx [] kept.committed_pos tokens in
      elim (Bool-cases d.ok) [
        | inr bad ↦ absurd (ground (arith, rw (bad, answer) at h))
        | inl good ↦
            rw (good, answer)
              (end_turn-Committed en turn_end req kept d.ctx tokens m (answering kept tokens) text n
                v
                (run_generation_loop-Bounded en (limits turn_end req kept) d.ctx d.batch
                  (kept.committed_pos + length tokens) m e)
                (rw (good, answer) at h))
      ]

  decode_turn-Committed :
      (tokens : List ℕ) (kept : Window Ctx) (o : Outcome) (m : ℕ) (text : Text) (n : ℕ)
      → req.max_new_tokens ≡ pos m
      → IsShaped kept
      → (decode_turn en seq_rm seq_add turn_end req tokens (kept, o)).1 ≡ said text n
      → (o ≡ done)
        × Committed kept tokens
            (answering kept tokens)
            (decode_turn en seq_rm seq_add turn_end req tokens (kept, o)).0
        × ((answering kept tokens).0.text ≡ text)
        × (length (answering kept tokens).0.generated_tokens ≡ n)
  unfolding decode_turn
  decode_turn-Committed tokens kept done m text n e v h =
      let (left, text_is, count) = answer-Committed kept tokens m text n e v h in
      (refl, left, text_is, count)
  decode_turn-Committed tokens kept (err x) m text n e v h = absurd (ground arith)
  decode_turn-Committed tokens kept out_of_fuel m text n e v h = absurd (ground arith)

  abbrev pub roomy : Window Ctx → List ℕ → Window Ctx × Outcome
  roomy w tokens = ensure_room_for seq_rm seq_add w (add32 (pos (length tokens)) req.max_new_tokens)

  -- An exchange that succeeds, in a window whose turns lie in order and with a token limit that
  -- is not negative, has made room, and what it says is the text of the run of
  -- `run_generation_loop` from the decoded turn, which finished. It leaves the window that making
  -- room left in order, with its limits, the cache as the run left it, the turn's tokens and
  -- exactly the run's generated ones behind its tokens, a turn of the user and one of the
  -- assistant over their positions behind its turns, and the position moved on by as many.
  pub exchange-Committed :
      (w : Window Ctx) (tokens : List ℕ) (m : ℕ) (text : Text) (n : ℕ)
      → req.max_new_tokens ≡ pos m
      → IsShaped w
      → (exchange en seq_rm seq_add turn_end req w tokens).1 ≡ said text n
      → ((roomy w tokens).1 ≡ done)
        × Committed
            (roomy w tokens).0
            tokens
            (answering (roomy w tokens).0 tokens)
            (exchange en seq_rm seq_add turn_end req w tokens).0
        × ((answering (roomy w tokens).0 tokens).0.text ≡ text)
        × (length (answering (roomy w tokens).0 tokens).0.generated_tokens ≡ n)
  unfolding exchange
  exchange-Committed w tokens m text n e v h =
      decode_turn-Committed tokens (roomy w tokens).0 (roomy w tokens).1 m text n e
        (ensure_room_for-Keeps seq_rm seq_add w (add32 (pos (length tokens)) req.max_new_tokens)
          v).0
        h

  answer_ok :
      (kept : Window Ctx) (tokens : List ℕ) (d : Decoded Ctx)
      → d.ok ≡ true
      → answer en seq_rm seq_add turn_end req kept tokens d
        ≡ end_turn (push_user kept d.ctx tokens) (
            run_generation_loop en
              (limits turn_end req kept)
              d.ctx
              d.batch
              (kept.committed_pos + length tokens))
  unfolding answer
  answer_ok kept tokens d ok = rw (ok, answer)

  -- If llama.cpp fails after tokens of the answer were fed, in a window whose turns lie in order,
  -- the exchange leaves a token list that is shorter than the committed positions, and one turn
  -- more than making room left.
  pub exchange_stray :
      (w kept : Window Ctx) (tokens : List ℕ) (g : Generation Ctx Sampler Decoder)
      → IsShaped w
      → roomy w tokens ≡ (kept, done)
      → (decode_chunked en kept.ctx [] kept.committed_pos tokens).ok ≡ true
      → run_generation_loop en
          (limits turn_end req kept)
          (decode_chunked en kept.ctx [] kept.committed_pos tokens).ctx
          (decode_chunked en kept.ctx [] kept.committed_pos tokens).batch
          (kept.committed_pos + length tokens)
        ≡ (g, Ending.failed)
      → kept.committed_pos + length tokens < g.n_cur
      → let w' = (exchange en seq_rm seq_add turn_end req w tokens).0 in
        (length w'.tokens < w'.committed_pos) × (length w'.turns ≡ suc (length kept.turns))
  unfolding exchange decode_turn end_turn
  exchange_stray w kept tokens g v room ok run fed =
      let whole =
        (ensure_room_for-Keeps seq_rm seq_add w (add32 (pos (length tokens)) req.max_new_tokens)
          v).0 in
      let v' : IsShaped kept = subst (λ (r : Window Ctx × Outcome). IsShaped r.0) room whole in
      let d = decode_chunked en kept.ctx [] kept.committed_pos tokens in
      let w' = push_user kept d.ctx tokens in
      let ends : exchange en seq_rm seq_add turn_end req w tokens
          ≡ (stray w' g.ctx g.n_cur, not_said backend) =
        ap (decode_turn en seq_rm seq_add turn_end req tokens) room
        ∙ answer_ok kept tokens d ok
        ∙ ap (end_turn w') run in
      rw ends (
        omega (arith, v'.in_step, length-append kept.tokens tokens),
        omega (
          arith,
          length-append kept.turns (
              record {
                role = Role.user;
                start_pos = kept.committed_pos;
                end_pos = kept.committed_pos + length tokens;
              }
              ∷ []),
        ),
      )
