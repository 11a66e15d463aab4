-- ===== src/Conversation/Generation/Feeding.antt =====
-- llama.rs: what `decode_chunked` and the loop of `run_generation_loop` write into the cache.
use rampipe.Common.{
  ℕ, zero, suc, ◌+◌, ◌≤◌, ◌≡◌, refl, ap, sym, subst, ◌∙◌, Bool, true, List, [], ◌∷◌, ◌++◌, Option,
  none, some, arith, length, take, drop, take-append-drop, length-take, length-drop, if◌then◌else◌,
  leb, leb→le, nat_beq, Bool-cases, Option-cases, inl, inr, length-append,
}
use rampipe.Common.Text.{Text}
use rampipe.Conversation.Generation.{
  Engine, Entry, add_chunk, decode_loop, decode_chunked, Generation, Limits, Ending, Round, stops,
  breaks, goes_on, is_complete, turn_cut, inside_open_think, pick, pick_by, pick_fresh, accept_all,
  last_logits, feed, settle, counted, say, take_token, is_spent, round, generation_loop,
  build_chain, started, start_plain, start_by, run_generation_loop,
}

-- What a batch writes at position `i`, over what was there.
abbrev pub written : List Entry → ℕ → Option ℕ → Option ℕ
written [] i old = old
written (e ∷ es) i old = written es i (if nat_beq e.position i then some e.token else old)

-- Tokens laid from position `n` on, over what was there.
abbrev pub laid : ℕ → List ℕ → ℕ → Option ℕ → Option ℕ
laid n [] i old = old
laid n (t ∷ ts) i old = laid (suc n) ts i (if nat_beq n i then some t else old)

written-add_chunk :
    (n index last i : ℕ) (ts : List ℕ) (old : Option ℕ)
    → written (add_chunk n index last ts) i old ≡ laid (n + index) ts i old
unfolding add_chunk
written-add_chunk n index last i [] old = refl
written-add_chunk n index last i (t ∷ ts) old =
    let e : n + suc index ≡ suc (n + index) = omega arith in
    written-add_chunk n (suc index) last i ts (if nat_beq (n + index) i then some t else old)
    ∙ ap (λ k. laid k ts i (if nat_beq (n + index) i then some t else old)) e

laid-append :
    (n i : ℕ) (xs ys : List ℕ) (old : Option ℕ)
    → laid n (xs ++ ys) i old ≡ laid (n + length xs) ys i (laid n xs i old)
laid-append n i [] ys old = let e : n ≡ n + 0 = omega arith in ap (λ k. laid k ys i old) e
laid-append n i (x ∷ xs) ys old =
    let e : suc n + length xs ≡ n + suc (length xs) = omega arith in
    laid-append (suc n) i xs ys (if nat_beq n i then some x else old)
    ∙ ap (λ k. laid k ys i (laid (suc n) xs i (if nat_beq n i then some x else old))) e

drop_all : (n : ℕ) (ts : List ℕ) → length ts ≤ n → drop n ts ≡ []
drop_all zero [] h = refl
drop_all (suc n) [] h = refl
drop_all zero (t ∷ ts) h = absurd (omega arith)
drop_all (suc n) (t ∷ ts) h = drop_all n ts (omega arith)

-- Behind a full chunk the next one begins; behind a shorter one nothing is left.
chunk_next :
    (size m index i : ℕ) (ts : List ℕ) (old : Option ℕ)
    → laid (m + (index + size)) (drop size ts) i old
      ≡ laid (m + index + length (take size ts)) (drop size ts) i old
chunk_next size m index i ts old = elim (Bool-cases (leb size (length ts))) [
  | inl full ↦
      let le : size ≤ length ts = leb→le size (length ts) full in
      let e : m + (index + size) ≡ m + index + length (take size ts) =
        omega (arith, length-take size ts) in
      ap (λ k. laid k (drop size ts) i old) e
  | inr part ↦ let lt : length ts ≤ size = ground arith in rw (drop_all size ts lt) refl
]

module _ {Ctx Sampler Decoder : Type 0} (en : Engine Ctx Sampler Decoder)
    (view : Ctx → ℕ → Option ℕ)
    (writes : (c : Ctx) (es : List Entry) (i : ℕ)
      → (en.decode c es).1 ≡ true
      → view (en.decode c es).0 i ≡ written es i (view c i)) where
  decode_loop-laid :
      (fuel : ℕ) (ctx : Ctx) (batch : List Entry) (n_cur last index : ℕ) (ts : List ℕ) (i : ℕ)
      → length ts ≤ fuel
      → (decode_loop en fuel ctx batch n_cur last index ts).ok ≡ true
      → view (decode_loop en fuel ctx batch n_cur last index ts).ctx i
        ≡ laid (n_cur + index) ts i (view ctx i)
  unfolding decode_loop
  decode_loop-laid zero ctx batch n_cur last index [] i h ok = refl
  decode_loop-laid zero ctx batch n_cur last index (t ∷ ts) i h ok = absurd (omega arith)
  decode_loop-laid (suc fuel) ctx batch n_cur last index [] i h ok = refl
  decode_loop-laid (suc fuel) ctx batch n_cur last index (t ∷ ts) i h ok =
      let chunk = add_chunk n_cur index last (take 512 (t ∷ ts)) in
      let left = en.decode ctx chunk in
      elim (Bool-cases left.1) [
        | inr bad ↦ absurd (ground (arith, rw (bad, decode_loop) at ok))
        | inl good ↦
            let ih =
              decode_loop-laid fuel left.0 chunk n_cur last (index + 512) (drop 512 (t ∷ ts)) i
                (omega (arith, length-drop 512 (t ∷ ts))) (rw (good, decode_loop) at ok) in
            rw (good, decode_loop)
              (ih
                ∙ ap (laid (n_cur + (index + 512)) (drop 512 (t ∷ ts)) i) (
                    writes ctx chunk i good
                    ∙ written-add_chunk n_cur index last i (take 512 (t ∷ ts)) (view ctx i))
                ∙ chunk_next 512 n_cur index i (t ∷ ts)
                    (laid (n_cur + index) (take 512 (t ∷ ts)) i (view ctx i))
                ∙ sym (
                    laid-append (n_cur + index) i (take 512 (t ∷ ts)) (drop 512 (t ∷ ts))
                      (view ctx i))
                ∙ ap (λ us. laid (n_cur + index) us i (view ctx i)) (take-append-drop 512 (t ∷ ts)))
      ]

  -- If a successful decode writes each token at its own position, the cache has after a
  -- successful `decode_chunked` each token at its position, counted from the given one, and what
  -- it had at every other, however many chunks there are.
  pub decode_chunked-laid :
      (ctx : Ctx) (batch : List Entry) (n_cur : ℕ) (tokens : List ℕ) (i : ℕ)
      → (decode_chunked en ctx batch n_cur tokens).ok ≡ true
      → view (decode_chunked en ctx batch n_cur tokens).ctx i ≡ laid n_cur tokens i (view ctx i)
  unfolding decode_chunked
  decode_chunked-laid ctx batch n_cur [] i ok = refl
  decode_chunked-laid ctx batch n_cur (t ∷ ts) i ok =
      let e : n_cur + 0 ≡ n_cur = omega arith in
      decode_loop-laid (length (t ∷ ts)) ctx batch n_cur (length ts) 0 (t ∷ ts) i (omega arith) ok
      ∙ ap (λ k. laid k (t ∷ ts) i (view ctx i)) e

  module _ (lim : Limits) (n : ℕ) (old : ℕ → Option ℕ) where
    -- The cache holds the generated tokens from position `n` on, over `old`.
    abbrev pub Fed : Generation Ctx Sampler Decoder → Type 0
    Fed g =
        (length g.generated_tokens + n ≡ g.n_cur)
        × ((i : ℕ) → view g.ctx i ≡ laid n g.generated_tokens i (old i))

    abbrev RoundFed : Round en lim → Type 0
    RoundFed (stops g) = Fed g
    RoundFed (breaks g) = Unit
    RoundFed (goes_on g) = Fed g

    feed-Fed : (g : Generation Ctx Sampler Decoder) (t : ℕ) → Fed g → RoundFed (feed en lim g t)
    unfolding feed
    feed-Fed g t (at, held) =
        elim (Bool-cases
          (en.decode g.ctx (record { token = t; position = g.n_cur; logits = true } ∷ [])).1) [
            | inr bad ↦ rw (bad, feed) tt
            | inl good ↦
                rw (good, feed)
                  (omega (arith, at, length-append g.generated_tokens (t ∷ [])), λ i. fed_at i good)
          ]
      where
        batch : List Entry
        batch = record { token = t; position = g.n_cur; logits = true } ∷ []

        fed_at :
            (i : ℕ)
            → (en.decode g.ctx batch).1 ≡ true
            → view (en.decode g.ctx batch).0 i ≡ laid n (g.generated_tokens ++ t ∷ []) i (old i)
        fed_at i good =
            let e : g.n_cur ≡ n + length g.generated_tokens = omega (arith, at) in
            writes g.ctx batch i good
            ∙ ap (laid g.n_cur (t ∷ []) i) (held i)
            ∙ ap (λ k. laid k (t ∷ []) i (laid n g.generated_tokens i (old i))) e
            ∙ sym (laid-append n i g.generated_tokens (t ∷ []) (old i))

    settle-Fed : (g : Generation Ctx Sampler Decoder) (t : ℕ) → Fed g → RoundFed (settle en lim g t)
    unfolding settle
    settle-Fed g t f = elim (Bool-cases (is_complete lim.grammar_complete g.text)) [
      | inl y ↦ rw (y, settle) f
      | inr k ↦ elim (Option-cases (turn_cut lim.turn_end g.text)) [
        | inl e ↦ rw (k, e, settle) (feed-Fed g t f)
        | inr (cut, e) ↦ rw (k, e, settle) f
      ]
    ]

    say-Fed :
        (g : Generation Ctx Sampler Decoder) (inside : Bool) (t : ℕ) (o : Option (Text × Decoder))
        → Fed g
        → RoundFed (say en lim g inside t o)
    unfolding say
    say-Fed g inside t none f = tt
    say-Fed g inside t (some (piece, decoder)) f =
        settle-Fed
          (record g {
            text = g.text ++ piece;
            decoder = decoder;
            budget_used = counted en lim inside g.budget_used;
          })
          t f

    take_token-Fed :
        (g : Generation Ctx Sampler Decoder) (t : ℕ) → Fed g → RoundFed (take_token en lim g t)
    unfolding take_token
    take_token-Fed g t f = elim (Bool-cases (en.is_eog_token t)) [
      | inl y ↦ elim (Bool-cases (inside_open_think g.text)) [
        | inl i ↦ rw (y, i, take_token) (feed-Fed g t f)
        | inr o ↦ rw (y, o, take_token) f
      ]
      | inr k ↦
          rw (k, take_token)
            (say-Fed g (inside_open_think g.text) t (en.token_to_piece g.decoder t) f)
    ]

    pick_fresh-Fed :
        (g g' : Generation Ctx Sampler Decoder) (t : ℕ) (o : Option Sampler)
        → pick_fresh en lim g o ≡ some (t, g')
        → Fed g
        → Fed g'
    unfolding pick_fresh
    pick_fresh-Fed g g' t none h f = absurd (ground arith)
    pick_fresh-Fed g g' t (some s) h f =
        let drawn =
          (en.sample (accept_all en lim s g.accepted_tokens) g.ctx (last_logits en lim g)).0 in
        let e : record g { accepted_tokens = g.accepted_tokens ++ drawn ∷ [] } ≡ g' =
          ground arith in
        subst (λ (x : Generation Ctx Sampler Decoder). Fed x) e f

    pick_by-Fed :
        (g g' : Generation Ctx Sampler Decoder) (t : ℕ) (o : Option Sampler)
        → pick_by en lim g o ≡ some (t, g')
        → Fed g
        → Fed g'
    unfolding pick_by
    pick_by-Fed g g' t none h f =
        pick_fresh-Fed g g' t (en.chain (build_chain lim.sampling lim.grammar)) h f
    pick_by-Fed g g' t (some s) h f =
        let drawn = en.sample s g.ctx (last_logits en lim g) in
        let e : record g { plain_sampler = some (en.accept drawn.1 drawn.0) } ≡ g' = ground arith in
        subst (λ (x : Generation Ctx Sampler Decoder). Fed x) e f

    round-Fed : (g : Generation Ctx Sampler Decoder) → Fed g → RoundFed (round en lim g)
    unfolding round pick
    round-Fed g f = elim (Bool-cases (is_spent en lim g)) [
      | inl y ↦ rw (y, round) f
      | inr k ↦ elim (Option-cases (pick en lim g)) [
        | inl e ↦ rw (k, e, round) tt
        | inr ((t, g'), e) ↦
            rw (k, e, round) (take_token-Fed g' t (pick_by-Fed g g' t g.plain_sampler e f))
      ]
    ]

    loop-Fed :
        (fuel : ℕ) (g : Generation Ctx Sampler Decoder)
        → Fed g
        → (generation_loop en lim fuel g).1 ≡ Ending.finished
        → Fed (generation_loop en lim fuel g).0
    unfolding generation_loop
    loop-Fed zero g f h = f
    loop-Fed (suc fuel) g f h = by_round (round en lim g) refl (round-Fed g f) (loop-Fed fuel)
      where
        by_round :
            (r : Round en lim)
            → round en lim g ≡ r
            → RoundFed r
            → ((g' : Generation Ctx Sampler Decoder)
                → Fed g'
                → (generation_loop en lim fuel g').1 ≡ Ending.finished
                → Fed (generation_loop en lim fuel g').0)
            → Fed (generation_loop en lim (suc fuel) g).0
        by_round (stops g') e f' later = rw (e, generation_loop) f'
        by_round (breaks g') e f' later = absurd (ground (arith, rw (e, generation_loop) at h))
        by_round (goes_on g') e f' later =
            rw (e, generation_loop) (later g' f' (rw (e, generation_loop) at h))

    run-Fed :
        (ctx : Ctx) (batch : List Entry) (s : Option Sampler)
        → ((i : ℕ) → view ctx i ≡ old i)
        → (generation_loop en lim (suc lim.n_ctx) (started en lim ctx batch n s)).1
          ≡ Ending.finished
        → Fed (generation_loop en lim (suc lim.n_ctx) (started en lim ctx batch n s)).0
    run-Fed ctx batch s held h =
        loop-Fed (suc lim.n_ctx) (started en lim ctx batch n s) (omega arith, held) h

    -- A run that finishes has laid its tokens from its first position on.
    pub run_generation_loop-Fed :
        (ctx : Ctx) (batch : List Entry)
        → ((i : ℕ) → view ctx i ≡ old i)
        → (run_generation_loop en lim ctx batch n).1 ≡ Ending.finished
        → Fed (run_generation_loop en lim ctx batch n).0
    unfolding run_generation_loop start_by start_plain
    run_generation_loop-Fed ctx batch held h = by_grammar lim.grammar h
      where
        by_plain :
            (o : Option Sampler)
            → (start_plain en lim ctx batch n o).1 ≡ Ending.finished
            → Fed (start_plain en lim ctx batch n o).0
        by_plain none h' = absurd (ground arith)
        by_plain (some s) h' = run-Fed ctx batch (some s) held h'

        by_grammar :
            (o : Option Text)
            → (start_by en lim ctx batch n o).1 ≡ Ending.finished
            → Fed (start_by en lim ctx batch n o).0
        by_grammar none h' = by_plain (en.chain (build_chain lim.sampling none)) h'
        by_grammar (some g) h' = run-Fed ctx batch none held h'
