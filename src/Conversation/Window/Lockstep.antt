-- ===== src/Conversation/Window/Lockstep.antt =====
-- llama.rs: the token list and the KV cache, position for position, under `ensure_room_for`.
use rampipe.Common.{
  ℕ, zero, suc, ◌+◌, ◌-◌, ◌≤◌, ◌<◌, max, ◌&&◌, List, [], ◌∷◌, ◌++◌, Option, none, some, length,
  get_elem?, take, drop, if◌then◌else◌, leb, ltb, ◌≡◌, ◌≢◌, refl, ap, arith, Bool-cases,
  Option-cases, ◌⊎◌, inl, inr,
}
use rampipe.Common.Int.{ℤ, pos, ltb_ℤ, add32}
use rampipe.Conversation.Window.{
  TurnBoundary, Window, err, drain, next_pair, is_over, drop_loop, drop_oldest_turns_for,
  ensure_room_for, on_overflow, fail, drop_oldest_turns, OverflowPolicy, backend, LlamaSessionError,
}
use rampipe.Conversation.Window.Shape.{
  next_pair-some, IsShaped, dropped, dropped-IsShaped, Spans, Spans-le,
}
use rampipe.Conversation.Window.Bound.{drop_pair_cases}

get_elem?-drop : (n i : ℕ) (ts : List ℕ) → get_elem? (drop n ts) i ≡ get_elem? ts (n + i)
get_elem?-drop zero i ts = ap (get_elem? ts) (omega arith)
get_elem?-drop (suc n) i [] = refl
get_elem?-drop (suc n) i (t ∷ ts) =
    let e : suc n + i ≡ suc (n + i) = omega arith in rw e (get_elem?-drop n i ts)

get_elem?-splice :
    (s j : ℕ) (xs ys : List ℕ)
    → s ≤ length xs
    → get_elem? (take s xs ++ ys) j ≡ (if ltb j s then get_elem? xs j else get_elem? ys (j - s))
get_elem?-splice zero j xs ys h = ground arith
get_elem?-splice (suc s) j [] ys h = absurd (omega arith)
get_elem?-splice (suc s) zero (x ∷ xs) ys h = ground arith
get_elem?-splice (suc s) (suc j) (x ∷ xs) ys h = ground (arith, get_elem?-splice s j xs ys)

-- A drained list, position by position.
get_elem?-drain :
    (start end i : ℕ) (ts : List ℕ)
    → start ≤ end
    → start ≤ length ts
    → get_elem? (drain start end ts) i
      ≡ (if ltb i start then get_elem? ts i else get_elem? ts (i + (end - start)))
get_elem?-drain start end i ts h k =
    ground (arith, get_elem?-splice start i ts (drop end ts) k, get_elem?-drop end (i - start) ts)

module _ {Ctx : Type 0} (seq_rm seq_add : Ctx → ℕ → ℕ → Option Ctx) (view : Ctx → ℕ → Option ℕ)
    (rm_clears : (c c' : Ctx) (p0 p1 i : ℕ)
      → seq_rm c p0 p1 ≡ some c'
      → view c' i ≡ (if leb p0 i && ltb i p1 then none else view c i))
    (add_moves : (c c' : Ctx) (p0 n i : ℕ)
      → n ≤ p0
      → ((j : ℕ) → p0 ≤ j + n → j < p0 → view c j ≡ none)
      → seq_add c p0 n ≡ some c'
      → view c' i ≡ (if leb p0 (i + n) then view c (i + n) else view c i)) where
  abbrev pub Lockstep : Window Ctx → Type 0
  Lockstep w = (i : ℕ) → view w.ctx i ≡ get_elem? w.tokens i

  dropped-Lockstep :
      (w : Window Ctx) (t u : TurnBoundary) (rest : List TurnBoundary) (c d : Ctx)
      → IsShaped w
      → w.turns ≡ t ∷ u ∷ rest
      → max t.start_pos w.protected_prefix < u.end_pos
      → seq_rm w.ctx (max t.start_pos w.protected_prefix) u.end_pos ≡ some d
      → seq_add d u.end_pos (u.end_pos - max t.start_pos w.protected_prefix) ≡ some c
      → Lockstep w
      → Lockstep (dropped seq_rm seq_add w t u rest c)
  dropped-Lockstep w t u rest c d v at lt rm add held i =
      let start = max t.start_pos w.protected_prefix in
      let end = u.end_pos in
      let s : Spans 0 (t ∷ u ∷ rest) w.committed_pos = rw at at v.spans in
      let top = Spans-le end rest w.committed_pos s.2.2 in
      let moved =
        add_moves d c end (end - start) i (omega arith)
          (λ j h k. ground (arith, rm_clears w.ctx d start end j rm)) add in
      ground (
        arith,
        moved,
        rm_clears w.ctx d start end i rm,
        rm_clears w.ctx d start end (i + (end - start)) rm,
        held i,
        held (i + (end - start)),
        v.in_step,
        get_elem?-drain start end i w.tokens (omega arith) (omega (arith, v.in_step)),
      )

  drop_loop-Lockstep :
      (fuel : ℕ) (w : Window Ctx) (needed : ℤ) (freed : ℕ)
      → IsShaped w
      → Lockstep w
      → (drop_loop seq_rm seq_add fuel w needed freed).1 ≢ err backend
      → Lockstep (drop_loop seq_rm seq_add fuel w needed freed).0
  unfolding drop_loop
  drop_loop-Lockstep zero w needed freed v held ok = held
  drop_loop-Lockstep (suc fuel) w needed freed v held ok =
      elim (Bool-cases (is_over w.committed_pos needed freed w.n_ctx)) [
        | inr fits ↦ rw (fits, drop_loop) held
        | inl over ↦ elim (Option-cases (next_pair w.turns)) [
          | inl e ↦ rw (over, e, drop_loop) held
          | inr ((t, u, rest), e) ↦ elim (drop_pair_cases seq_rm seq_add w t u rest) [
            | inl (w', er, e', why) ↦
                rw (over, e, e', drop_loop)
                  (stopped w' er rest why (rw (over, e, e', drop_loop) at ok))
            | inr (c, lt, e', d, rm, add) ↦
                let at = next_pair-some w.turns e in
                rw (over, e, e', drop_loop)
                  (drop_loop-Lockstep fuel (dropped seq_rm seq_add w t u rest c) needed
                    (freed + (u.end_pos - max t.start_pos w.protected_prefix))
                    (dropped-IsShaped seq_rm seq_add w t u rest c at lt v)
                    (dropped-Lockstep w t u rest c d v at lt rm add held)
                    (rw (over, e, e', drop_loop) at ok))
          ]
        ]
      ]
    where
      stopped :
          (w' : Window Ctx) (er : LlamaSessionError) (rest : List TurnBoundary)
          → ((er ≡ backend) ⊎ (w' ≡ record w { turns = rest }))
          → err er ≢ err backend
          → Lockstep w'
      stopped w' er rest (inl b) n = absurd (n (ap err b))
      stopped w' er rest (inr e) n = rw e held

  on_overflow-Lockstep :
      (o : OverflowPolicy) (w : Window Ctx) (needed : ℤ)
      → IsShaped w
      → Lockstep w
      → (on_overflow seq_rm seq_add o w needed).1 ≢ err backend
      → Lockstep (on_overflow seq_rm seq_add o w needed).0
  unfolding on_overflow drop_oldest_turns_for
  on_overflow-Lockstep fail w needed v held ok = held
  on_overflow-Lockstep drop_oldest_turns w needed v held ok =
      drop_loop-Lockstep (suc (length w.turns)) w needed 0 v held ok

  -- If llama.cpp's `kv_cache_seq_rm` and `kv_cache_seq_add` do what they document and neither
  -- fails, the token list agrees with the cache at every position after `ensure_room_for`, as it
  -- did before, for a window whose turns lie in order.
  pub ensure_room_for-Lockstep :
      (w : Window Ctx) (needed : ℤ)
      → IsShaped w
      → Lockstep w
      → (ensure_room_for seq_rm seq_add w needed).1 ≢ err backend
      → Lockstep (ensure_room_for seq_rm seq_add w needed).0
  unfolding ensure_room_for
  ensure_room_for-Lockstep w needed v held ok =
      elim (Bool-cases (ltb_ℤ (add32 (pos w.committed_pos) needed) (pos w.n_ctx))) [
        | inl fits ↦ rw fits held
        | inr over ↦ rw over (on_overflow-Lockstep w.overflow w needed v held (rw over at ok))
      ]
