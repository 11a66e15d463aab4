-- ===== src/Conversation/Generation/Bounds.antt =====
-- llama.rs: how far `run_generation_loop` goes, in positions and in the token budget.
use rampipe.Common.{
  ℕ, zero, suc, ◌+◌, ◌≤◌, ◌<◌, max, ◌≡◌, ◌≢◌, refl, sym, ap, ◌∙◌, ◌⊎◌, inl, inr, Bool, true, false,
  List, [], ◌∷◌, ◌++◌, Option, none, some, arith, length, length-append, Bool-cases, Option-cases,
}
use rampipe.Common.Text.{Text}
use rampipe.Common.Int.{pos, leb_ℤ}
use rampipe.Conversation.Generation.{
  Engine, Entry, Generation, Limits, Ending, finished, failed, out_of_fuel, Round, stops, breaks,
  goes_on, is_complete, turn_cut, inside_open_think, pick, pick_by, pick_fresh, feed, settle, say,
  take_token, is_spent, round, generation_loop, started, start_plain, start_by, run_generation_loop,
  build_chain,
}

module _ {Ctx Sampler Decoder : Type 0} (en : Engine Ctx Sampler Decoder) (lim : Limits) where
  -- What a round does to the position, the number of tokens and the budget, `n`, `l` and `b` before.
  abbrev pub Moved : ℕ → ℕ → ℕ → Round en lim → Type 0
  Moved n l b (stops g) = (g.n_cur ≡ n) × (length g.generated_tokens ≡ l) × (g.budget_used ≤ suc b)
  Moved n l b (breaks g) =
      (n ≤ g.n_cur) × (g.n_cur ≤ suc n) × (length g.generated_tokens ≡ l) × (g.budget_used ≤ suc b)
  Moved n l b (goes_on g) =
      (g.n_cur ≡ suc n) × (length g.generated_tokens ≡ suc l) × (g.budget_used ≤ suc b)

  feed-Moved :
      (g : Generation Ctx Sampler Decoder) (t b : ℕ)
      → g.budget_used ≤ suc b
      → Moved g.n_cur (length g.generated_tokens) b (feed en lim g t)
  unfolding feed
  feed-Moved g t b h =
      elim (Bool-cases
        (en.decode g.ctx (record { token = t; position = g.n_cur; logits = true } ∷ [])).1) [
          | inl y ↦ rw (y, feed) (refl, omega (arith, length-append g.generated_tokens (t ∷ [])), h)
          | inr n ↦ rw (n, feed) (omega arith, omega arith, refl, h)
        ]

  settle-Moved :
      (g : Generation Ctx Sampler Decoder) (t b : ℕ)
      → g.budget_used ≤ suc b
      → Moved g.n_cur (length g.generated_tokens) b (settle en lim g t)
  unfolding settle
  settle-Moved g t b h = elim (Bool-cases (is_complete lim.grammar_complete g.text)) [
    | inl y ↦ rw (y, settle) (refl, refl, h)
    | inr n ↦ elim (Option-cases (turn_cut lim.turn_end g.text)) [
      | inl e ↦ rw (n, e, settle) (feed-Moved g t b h)
      | inr (cut, e) ↦ rw (n, e, settle) (refl, refl, h)
    ]
  ]

  say-Moved :
      (g : Generation Ctx Sampler Decoder) (inside : Bool) (t : ℕ) (o : Option (Text × Decoder))
      → Moved g.n_cur (length g.generated_tokens) g.budget_used (say en lim g inside t o)
  unfolding say
  say-Moved g inside t none = (omega arith, omega arith, refl, omega arith)
  say-Moved g true t (some (piece, decoder)) =
      settle-Moved (record g { text = g.text ++ piece; decoder = decoder }) t g.budget_used
        (omega arith)
  say-Moved g false t (some (piece, decoder)) =
      settle-Moved
        (record g { text = g.text ++ piece; decoder = decoder; budget_used = suc g.budget_used }) t
        g.budget_used (omega arith)

  take_token-Moved :
      (g : Generation Ctx Sampler Decoder) (t : ℕ)
      → Moved g.n_cur (length g.generated_tokens) g.budget_used (take_token en lim g t)
  unfolding take_token
  take_token-Moved g t = elim (Bool-cases (en.is_eog_token t)) [
    | inl y ↦ elim (Bool-cases (inside_open_think g.text)) [
      | inl i ↦ rw (y, i, take_token) (feed-Moved g t g.budget_used (omega arith))
      | inr o ↦ rw (y, o, take_token) (refl, refl, omega arith)
    ]
    | inr n ↦
        rw (n, take_token)
          (say-Moved g (inside_open_think g.text) t (en.token_to_piece g.decoder t))
  ]

  pick_fresh_lem :
      (g g' : Generation Ctx Sampler Decoder) (t : ℕ) (o : Option Sampler)
      → pick_fresh en lim g o ≡ some (t, g')
      → (g'.n_cur ≡ g.n_cur)
        × (g'.generated_tokens ≡ g.generated_tokens)
        × (g'.budget_used ≡ g.budget_used)
  unfolding pick_fresh
  pick_fresh_lem g g' t none h = absurd (ground arith)
  pick_fresh_lem g g' t (some s) h = ground arith

  pick_by_lem :
      (g g' : Generation Ctx Sampler Decoder) (t : ℕ) (o : Option Sampler)
      → pick_by en lim g o ≡ some (t, g')
      → (g'.n_cur ≡ g.n_cur)
        × (g'.generated_tokens ≡ g.generated_tokens)
        × (g'.budget_used ≡ g.budget_used)
  unfolding pick_by
  pick_by_lem g g' t (some s) h = ground arith
  pick_by_lem g g' t none h =
      pick_fresh_lem g g' t (en.chain (build_chain lim.sampling lim.grammar)) h

  is_spent-false :
      (g : Generation Ctx Sampler Decoder)
      → is_spent en lim g ≡ false
      → (g.n_cur < lim.n_ctx) × (leb_ℤ lim.max_new_tokens (pos g.budget_used) ≡ false)
  unfolding is_spent
  is_spent-false g h = ground arith

  -- A round from a state that is not spent.
  abbrev Went : Generation Ctx Sampler Decoder → Round en lim → Type 0
  Went g (stops g') =
      (g'.n_cur ≡ g.n_cur)
      × (length g'.generated_tokens ≡ length g.generated_tokens)
      × ((g'.budget_used ≤ g.budget_used)
          ⊎ ((leb_ℤ lim.max_new_tokens (pos g.budget_used) ≡ false)
              × (g'.budget_used ≤ suc g.budget_used)))
  Went g (breaks g') =
      (g.n_cur ≤ g'.n_cur)
      × (g'.n_cur ≤ suc g.n_cur)
      × (length g'.generated_tokens ≡ length g.generated_tokens)
      × ((g'.budget_used ≤ g.budget_used)
          ⊎ ((leb_ℤ lim.max_new_tokens (pos g.budget_used) ≡ false)
              × (g'.budget_used ≤ suc g.budget_used)))
      × (g.n_cur < lim.n_ctx)
  Went g (goes_on g') =
      (g'.n_cur ≡ suc g.n_cur)
      × (length g'.generated_tokens ≡ suc (length g.generated_tokens))
      × (leb_ℤ lim.max_new_tokens (pos g.budget_used) ≡ false)
      × (g'.budget_used ≤ suc g.budget_used)
      × (g.n_cur < lim.n_ctx)

  Moved-Went :
      (g : Generation Ctx Sampler Decoder) (r : Round en lim)
      → (g.n_cur < lim.n_ctx) × (leb_ℤ lim.max_new_tokens (pos g.budget_used) ≡ false)
      → Moved g.n_cur (length g.generated_tokens) g.budget_used r
      → Went g r
  Moved-Went g (stops g') (h, k) m = (m.0, m.1, inr (k, m.2))
  Moved-Went g (breaks g') (h, k) m = (m.0, m.1, m.2, inr (k, m.3), h)
  Moved-Went g (goes_on g') (h, k) m = (m.0, m.1, k, m.2, h)

  round-Went : (g : Generation Ctx Sampler Decoder) → Went g (round en lim g)
  unfolding round pick
  round-Went g = elim (Bool-cases (is_spent en lim g)) [
    | inl y ↦ rw (y, round) (refl, refl, inl (omega arith))
    | inr n ↦ elim (Option-cases (pick en lim g)) [
      | inl e ↦
          rw (n, e, round)
            (omega arith, omega arith, refl, inl (omega arith), (is_spent-false g n).0)
      | inr ((t, g'), e) ↦
          let (same, tokens, budget) = pick_by_lem g g' t g.plain_sampler e in
          rw (n, e, round)
            (Moved-Went g (take_token en lim g' t) (is_spent-false g n)
              (rw (← same, ← tokens, ← budget) (take_token-Moved g' t)))
    ]
  ]

  loop-ne-fuel :
      (fuel : ℕ) (g : Generation Ctx Sampler Decoder)
      → lim.n_ctx < fuel + g.n_cur
      → 1 ≤ fuel
      → (generation_loop en lim fuel g).1 ≢ out_of_fuel
  unfolding generation_loop
  loop-ne-fuel zero g h k = absurd (omega arith)
  loop-ne-fuel (suc fuel) g h k = by_round (round en lim g) refl (round-Went g) (loop-ne-fuel fuel)
    where
      by_round :
          (r : Round en lim)
          → round en lim g ≡ r
          → Went g r
          → ((g' : Generation Ctx Sampler Decoder)
              → lim.n_ctx < fuel + g'.n_cur
              → 1 ≤ fuel
              → (generation_loop en lim fuel g').1 ≢ out_of_fuel)
          → (generation_loop en lim (suc fuel) g).1 ≢ out_of_fuel
      by_round (stops g') e w later = rw (e, generation_loop) (ground arith)
      by_round (breaks g') e w later = rw (e, generation_loop) (ground arith)
      by_round (goes_on g') e w later =
          rw (e, generation_loop) (later g' (omega (arith, w)) (omega (arith, w)))

  -- Where the loop may end, from the position `n`.
  abbrev pub Within :
      Generation Ctx Sampler Decoder → Generation Ctx Sampler Decoder × Ending → Type 0
  Within g (g', e) =
      (g.n_cur ≤ g'.n_cur)
      × (g'.n_cur ≤ max g.n_cur lim.n_ctx)
      × (length g'.generated_tokens + g.n_cur ≤ length g.generated_tokens + g'.n_cur)
      × (e ≢ failed → length g'.generated_tokens + g.n_cur ≡ length g.generated_tokens + g'.n_cur)

  loop-Within :
      (fuel : ℕ) (g : Generation Ctx Sampler Decoder) → Within g (generation_loop en lim fuel g)
  unfolding generation_loop
  loop-Within zero g = (omega arith, omega arith, omega arith, λ n. refl)
  loop-Within (suc fuel) g = by_round (round en lim g) refl (round-Went g) (loop-Within fuel)
    where
      by_round :
          (r : Round en lim)
          → round en lim g ≡ r
          → Went g r
          → ((g' : Generation Ctx Sampler Decoder) → Within g' (generation_loop en lim fuel g'))
          → Within g (generation_loop en lim (suc fuel) g)
      by_round (stops g') e w later =
          rw (e, generation_loop)
            (omega (arith, w), omega (arith, w), omega (arith, w), λ n. omega (arith, w))
      by_round (breaks g') e w later =
          rw (e, generation_loop)
            (omega (arith, w), omega (arith, w), omega (arith, w), λ n. absurd (n refl))
      by_round (goes_on g') e w later =
          let ih = later g' in
          rw (e, generation_loop)
            (
              omega (arith, w, ih),
              omega (arith, w, ih),
              omega (arith, w, ih),
              λ n. omega (arith, w, ih.3 n),
            )

  loop_budget :
      (fuel : ℕ) (g : Generation Ctx Sampler Decoder) (m : ℕ)
      → lim.max_new_tokens ≡ pos m
      → g.budget_used ≤ m
      → (generation_loop en lim fuel g).0.budget_used ≤ m
  unfolding generation_loop
  loop_budget zero g m e h = h
  loop_budget (suc fuel) g m e h =
      by_round (round en lim g) refl (round-Went g) (λ g'. loop_budget fuel g' m e)
    where
      below : (b : ℕ) → leb_ℤ lim.max_new_tokens (pos b) ≡ false → b < m
      below b k =
          let k' : leb_ℤ (pos m) (pos b) ≡ false = sym (ap (λ z. leb_ℤ z (pos b)) e) ∙ k in
          ground arith

      by_round :
          (r : Round en lim)
          → round en lim g ≡ r
          → Went g r
          → ((g' : Generation Ctx Sampler Decoder)
              → g'.budget_used ≤ m
              → (generation_loop en lim fuel g').0.budget_used ≤ m)
          → (generation_loop en lim (suc fuel) g).0.budget_used ≤ m
      by_round (stops g') q (p, t, inl s) later = rw (q, generation_loop) (omega arith)
      by_round (stops g') q (p, t, inr (k, s)) later =
          rw (q, generation_loop) (omega (arith, below g.budget_used k))
      by_round (breaks g') q (p, p', t, inl s, l) later = rw (q, generation_loop) (omega arith)
      by_round (breaks g') q (p, p', t, inr (k, s), l) later =
          rw (q, generation_loop) (omega (arith, below g.budget_used k))
      by_round (goes_on g') q (p, t, k, s, l) later =
          rw (q, generation_loop) (later g' (omega (arith, below g.budget_used k)))

  -- What a run may give: an end of the code, the positions inside the context, as many generated
  -- tokens as positions were taken unless llama.cpp failed, and no more of the budget than there is.
  abbrev pub Bounded : ℕ → ℕ → Generation Ctx Sampler Decoder × Ending → Type 0
  Bounded n m run =
      (run.1 ≢ out_of_fuel)
      × (n ≤ run.0.n_cur)
      × (run.0.n_cur ≤ max n lim.n_ctx)
      × (length run.0.generated_tokens + n ≤ run.0.n_cur)
      × ((run.1 ≡ failed) ⊎ (length run.0.generated_tokens + n ≡ run.0.n_cur))
      × (run.0.budget_used ≤ m)

  run_from :
      (ctx : Ctx) (batch : List Entry) (n m : ℕ) (s : Option Sampler)
      → lim.max_new_tokens ≡ pos m
      → Bounded n m (generation_loop en lim (suc lim.n_ctx) (started en lim ctx batch n s))
  run_from ctx batch n m s e =
      let g = started en lim ctx batch n s in
      let w = loop-Within (suc lim.n_ctx) g in
      (
        loop-ne-fuel (suc lim.n_ctx) g (omega arith) (omega arith),
        w.0,
        w.1,
        omega (arith, w.2),
        by_end (length (generation_loop en lim (suc lim.n_ctx) g).0.generated_tokens)
            (generation_loop en lim (suc lim.n_ctx) g).0.n_cur
            (generation_loop en lim (suc lim.n_ctx) g).1 w.3,
        loop_budget (suc lim.n_ctx) g m e (omega arith),
      )
    where
      by_end : (l k : ℕ) (x : Ending) → (x ≢ failed → l + n ≡ 0 + k) → (x ≡ failed) ⊎ (l + n ≡ k)
      by_end l k failed h = inl refl
      by_end l k finished h = inr (omega (arith, h (ground arith)))
      by_end l k out_of_fuel h = inr (omega (arith, h (ground arith)))

  -- `run_generation_loop` ends, with a token limit that is not negative. It stays inside the
  -- context, or where it began, counts a generated token for each position that it takes unless
  -- llama.cpp fails, and uses no more than the token limit.
  pub run_generation_loop-Bounded :
      (ctx : Ctx) (batch : List Entry) (n_cur m : ℕ)
      → lim.max_new_tokens ≡ pos m
      → Bounded n_cur m (run_generation_loop en lim ctx batch n_cur)
  unfolding run_generation_loop start_by start_plain
  run_generation_loop-Bounded ctx batch n_cur m e = by_grammar lim.grammar
    where
      by_plain : (o : Option Sampler) → Bounded n_cur m (start_plain en lim ctx batch n_cur o)
      by_plain none = (ground arith, omega arith, omega arith, omega arith, inl refl, omega arith)
      by_plain (some s) = run_from ctx batch n_cur m (some s) e

      by_grammar : (o : Option Text) → Bounded n_cur m (start_by en lim ctx batch n_cur o)
      by_grammar none = by_plain (en.chain (build_chain lim.sampling none))
      by_grammar (some g) = run_from ctx batch n_cur m none e
