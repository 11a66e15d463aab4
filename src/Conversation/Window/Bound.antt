-- ===== src/Conversation/Window/Bound.antt =====
-- llama.rs: how much room `drop_oldest_turns_for` makes.
use rampipe.Common.{
  ℕ, zero, suc, ◌+◌, ◌-◌, ◌^◌, ◌*◌, ◌≤◌, ◌<◌, max, true, false, List, [], ◌∷◌, map, Option, some,
  length, leb, ◌≡◌, ◌≢◌, refl, sym, ap, ◌∙◌, arith, Bool-cases, Option-cases, ◌⊎◌, inl, inr,
}
use rampipe.Common.Int.{ℤ, pos, add32_nat, sub32_nat}
use rampipe.Conversation.Window.{
  TurnBoundary, Window, done, out_of_fuel, shift, next_pair, is_over, shifted, gave_up, drop_pair,
  drop_loop, drop_oldest_turns_for, conversation_too_large_to_trim, backend, LlamaSessionError,
}
use rampipe.Conversation.Window.Shape.{
  next_pair-some, IsShaped, dropped, dropped-IsShaped, Spans, Spans-le,
}

-- Without overflow the test of the loop is the one on numbers.
pub is_over_nat :
    (c m freed n : ℕ)
    → c + m < 2 ^ 31
    → freed < 2 ^ 31
    → is_over c (pos m) freed n ≡ leb (n + freed) (c + m)
unfolding is_over
is_over_nat c m freed n h k = rw (add32_nat c m h, sub32_nat (c + m) freed h k) (ground arith)

length-map-shift : (n : ℕ) (ts : List TurnBoundary) → length (map (shift n) ts) ≡ length ts
length-map-shift n [] = refl
length-map-shift n (t ∷ ts) = ap suc (length-map-shift n ts)

module _ {Ctx : Type 0} (seq_rm seq_add : Ctx → ℕ → ℕ → Option Ctx) where
  -- A round either gives up or drops the two turns.
  pub drop_pair_cases :
      (w : Window Ctx) (t u : TurnBoundary) (rest : List TurnBoundary)
      → ((w' : Window Ctx) × (e : LlamaSessionError) × (drop_pair seq_rm seq_add w t u rest
            ≡ gave_up w' e)
          × ((e ≡ backend) ⊎ (w' ≡ record w { turns = rest })))
        ⊎ ((c : Ctx) × (max t.start_pos w.protected_prefix < u.end_pos)
            × (drop_pair seq_rm seq_add w t u rest
                ≡ shifted
                    (dropped seq_rm seq_add w t u rest c)
                    (u.end_pos - max t.start_pos w.protected_prefix))
            × (d : Ctx) × (seq_rm w.ctx (max t.start_pos w.protected_prefix) u.end_pos ≡ some d)
            × (seq_add d u.end_pos (u.end_pos - max t.start_pos w.protected_prefix) ≡ some c))
  unfolding drop_pair
  drop_pair_cases w t u rest =
      elim (Bool-cases (leb u.end_pos (max t.start_pos w.protected_prefix))) [
        | inl inside ↦
            inl (record w { turns = rest }, conversation_too_large_to_trim, rw inside, inr refl)
        | inr outside ↦
            elim (Option-cases (seq_rm w.ctx (max t.start_pos w.protected_prefix) u.end_pos)) [
              | inl e ↦
                  inl (record w { turns = rest }, backend, rw (outside, e, drop_pair), inl refl)
              | inr (c, e) ↦
                  elim (Option-cases
                    (seq_add c u.end_pos (u.end_pos - max t.start_pos w.protected_prefix))) [
                      | inl e' ↦ inl (
                        record w { ctx = c; turns = rest },
                        backend,
                        rw (outside, e, e', drop_pair),
                        inl refl,
                      )
                      | inr (c', e') ↦
                          inr (c', ground arith, rw (outside, e, e', drop_pair), c, e, e')
                    ]
            ]
      ]

  drop_loop-ne-fuel :
      (fuel : ℕ) (w : Window Ctx) (needed : ℤ) (freed : ℕ)
      → length w.turns < fuel
      → (drop_loop seq_rm seq_add fuel w needed freed).1 ≢ out_of_fuel
  unfolding drop_loop
  drop_loop-ne-fuel zero w needed freed h = absurd (omega arith)
  drop_loop-ne-fuel (suc fuel) w needed freed h =
      elim (Bool-cases (is_over w.committed_pos needed freed w.n_ctx)) [
        | inr fits ↦ rw (fits, drop_loop) (ground arith)
        | inl over ↦ elim (Option-cases (next_pair w.turns)) [
          | inl e ↦ rw (over, e, drop_loop) (ground arith)
          | inr ((t, u, rest), e) ↦ elim (drop_pair_cases w t u rest) [
            | inl (w', er, e', _) ↦ rw (over, e, e', drop_loop) (ground arith)
            | inr (c, lt, e', d', rm', add') ↦
                let shorter = ap length (next_pair-some w.turns e) in
                rw (over, e, e', drop_loop)
                  (drop_loop-ne-fuel fuel (dropped seq_rm seq_add w t u rest c) needed
                    (freed + (u.end_pos - max t.start_pos w.protected_prefix))
                    (omega (
                      arith,
                      shorter,
                      length-map-shift (u.end_pos - max t.start_pos w.protected_prefix) rest,
                    )))
          ]
        ]
      ]

  drop_loop_bound :
      (fuel : ℕ) (w : Window Ctx) (m freed : ℕ)
      → IsShaped w
      → w.committed_pos + m < 2 ^ 31
      → freed + w.committed_pos < 2 ^ 31
      → (drop_loop seq_rm seq_add fuel w (pos m) freed).1 ≡ done
      → let w' = (drop_loop seq_rm seq_add fuel w (pos m) freed).0 in
        (w'.committed_pos ≤ w.committed_pos)
        × (w'.committed_pos + w'.committed_pos + m < w.n_ctx + freed + w.committed_pos)
  unfolding drop_loop
  drop_loop_bound zero w m freed v h k d = absurd (ground arith)
  drop_loop_bound (suc fuel) w m freed v h k d =
      elim (Bool-cases (is_over w.committed_pos (pos m) freed w.n_ctx)) [
        | inr fits ↦
            let fits' = sym (is_over_nat w.committed_pos m freed w.n_ctx h (omega arith)) ∙ fits in
            rw (fits, drop_loop) (omega arith, ground (arith, fits'))
        | inl over ↦ elim (Option-cases (next_pair w.turns)) [
          | inl e ↦ absurd (ground (arith, rw (over, e, drop_loop) at d))
          | inr ((t, u, rest), e) ↦ elim (drop_pair_cases w t u rest) [
            | inl (w', er, e', _) ↦ absurd (ground (arith, rw (over, e, e', drop_loop) at d))
            | inr (c, lt, e', d', rm', add') ↦
                let at : w.turns ≡ t ∷ u ∷ rest = next_pair-some w.turns e in
                let s : Spans 0 (t ∷ u ∷ rest) w.committed_pos = rw at at v.spans in
                let top = Spans-le u.end_pos rest w.committed_pos s.2.2 in
                let r = u.end_pos - max t.start_pos w.protected_prefix in
                let ih =
                  drop_loop_bound fuel (dropped seq_rm seq_add w t u rest c) m (freed + r)
                    (dropped-IsShaped seq_rm seq_add w t u rest c at lt v) (omega arith)
                    (omega arith) (rw (over, e, e', drop_loop) at d) in
                rw (over, e, e', drop_loop) (omega (arith, ih), omega (arith, ih))
          ]
        ]
      ]

  -- The loop of `drop_oldest_turns_for` ends with an answer of the code, for every window and
  -- need.
  pub drop_oldest_turns_for_total :
      (w : Window Ctx) (needed : ℤ)
      → (drop_oldest_turns_for seq_rm seq_add w needed).1 ≢ out_of_fuel
  unfolding drop_oldest_turns_for
  drop_oldest_turns_for_total w needed =
      drop_loop-ne-fuel (suc (length w.turns)) w needed 0 (omega arith)

  -- After a success of `drop_oldest_turns_for` the committed positions are no more than before,
  -- and with the needed ones they are below the window's size and the positions that were freed
  -- together, if no sum leaves `i32`.
  pub drop_oldest_turns_for_bound :
      (w : Window Ctx) (m : ℕ)
      → IsShaped w
      → w.committed_pos + m < 2 ^ 31
      → (drop_oldest_turns_for seq_rm seq_add w (pos m)).1 ≡ done
      → let w' = (drop_oldest_turns_for seq_rm seq_add w (pos m)).0 in
        (w'.committed_pos ≤ w.committed_pos)
        × (w'.committed_pos + m < w.n_ctx + (w.committed_pos - w'.committed_pos))
  unfolding drop_oldest_turns_for
  drop_oldest_turns_for_bound w m v h d =
      let b = drop_loop_bound (suc (length w.turns)) w m 0 v h (omega arith) d in
      (b.0, omega (arith, b))

  one_round :
      (fuel : ℕ) (w w' : Window Ctx) (needed : ℤ) (t u : TurnBoundary) (rest : List TurnBoundary)
      (r : ℕ)
      → is_over w.committed_pos needed 0 w.n_ctx ≡ true
      → w.turns ≡ t ∷ u ∷ rest
      → drop_pair seq_rm seq_add w t u rest ≡ shifted w' r
      → is_over w'.committed_pos needed (0 + r) w'.n_ctx ≡ false
      → drop_loop seq_rm seq_add (suc (suc fuel)) w needed 0 ≡ (w', done)
  unfolding drop_loop
  one_round fuel w w' needed t u rest r over at e fits =
      let pair : next_pair w.turns ≡ some (t, u, rest) = rw at refl in
      rw (over, pair, e, fits, drop_loop)

  -- If one exchange is dropped, the message still does not fit, and less is missing than was
  -- freed, `drop_oldest_turns_for` succeeds with too little room.
  pub drop_oldest_turns_for_short :
      (w : Window Ctx) (m : ℕ) (t u : TurnBoundary) (rest : List TurnBoundary) (c c' : Ctx)
      → IsShaped w
      → w.committed_pos + m < 2 ^ 31
      → w.turns ≡ t ∷ u ∷ rest
      → seq_rm w.ctx (max t.start_pos w.protected_prefix) u.end_pos ≡ some c
      → seq_add c u.end_pos (u.end_pos - max t.start_pos w.protected_prefix) ≡ some c'
      → w.n_ctx + (u.end_pos - max t.start_pos w.protected_prefix) ≤ w.committed_pos + m
      → w.committed_pos + m < w.n_ctx + 2 * (u.end_pos - max t.start_pos w.protected_prefix)
      → ((drop_oldest_turns_for seq_rm seq_add w (pos m)).1 ≡ done)
        × (w.n_ctx ≤ (drop_oldest_turns_for seq_rm seq_add w (pos m)).0.committed_pos + m)
  unfolding drop_oldest_turns_for drop_pair
  drop_oldest_turns_for_short w m t u rest c c' v h at rm add low high =
      let r = u.end_pos - max t.start_pos w.protected_prefix in
      let s : Spans 0 (t ∷ u ∷ rest) w.committed_pos = rw at at v.spans in
      let top = Spans-le u.end_pos rest w.committed_pos s.2.2 in
      let over : is_over w.committed_pos (pos m) 0 w.n_ctx ≡ true =
        is_over_nat w.committed_pos m 0 w.n_ctx h (omega arith) ∙ ground arith in
      let fits : is_over (w.committed_pos - r) (pos m) (0 + r) w.n_ctx ≡ false =
        is_over_nat (w.committed_pos - r) m (0 + r) w.n_ctx (omega arith) (omega arith)
        ∙ ground arith in
      let inside : leb u.end_pos (max t.start_pos w.protected_prefix) ≡ false = ground arith in
      let e : drop_pair seq_rm seq_add w t u rest
          ≡ shifted (dropped seq_rm seq_add w t u rest c') r =
        rw (inside, rm, add, drop_pair) in
      let run =
        one_round (length rest + 1) w (dropped seq_rm seq_add w t u rest c') (pos m) t u rest r over
          at e fits in
      let fuel : length w.turns ≡ suc (length rest + 1) = rw at (omega arith) in
      rw (fuel, run) (refl, omega arith)
