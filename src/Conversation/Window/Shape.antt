-- ===== src/Conversation/Window/Shape.antt =====
-- llama.rs: the spans of the turns, the token list and the opening, under `ensure_room_for`.
use rampipe.Common.{
  ℕ, zero, suc, ◌+◌, ◌-◌, ◌≤◌, ◌<◌, max, List, [], ◌∷◌, ◌++◌, map, Option, some, length, take, drop,
  leb, ◌≡◌, refl, ap, ◌∙◌, arith, length-append, length-take, length-drop, Bool-cases, Option-cases,
  inl, inr,
}
use rampipe.Common.Int.{ℤ, pos, add32, ltb_ℤ}
use rampipe.Conversation.Window.{
  TurnBoundary, Window, Outcome, err, shift, drain, next_pair, is_over, Step, shifted, gave_up,
  drop_pair, drop_loop, drop_oldest_turns_for, ensure_room_for, on_overflow, fail,
  drop_oldest_turns, OverflowPolicy,
}

-- The spans lie in order from `lo` to `hi`.
abbrev pub Spans : ℕ → List TurnBoundary → ℕ → Type 0
Spans lo [] hi = lo ≤ hi
Spans lo (t ∷ ts) hi = (lo ≤ t.start_pos) × (t.start_pos ≤ t.end_pos) × Spans t.end_pos ts hi

pub Spans-le : (lo : ℕ) (ts : List TurnBoundary) (hi : ℕ) → Spans lo ts hi → lo ≤ hi
Spans-le lo [] hi s = s
Spans-le lo (t ∷ ts) hi s = omega (arith, Spans-le t.end_pos ts hi s.2)

Spans-lower :
    (lo lo' : ℕ) (ts : List TurnBoundary) (hi : ℕ) → lo' ≤ lo → Spans lo ts hi → Spans lo' ts hi
Spans-lower lo lo' [] hi h s = omega arith
Spans-lower lo lo' (t ∷ ts) hi h s = (omega arith, s.1, s.2)

Spans-shift :
    (n lo : ℕ) (ts : List TurnBoundary) (hi : ℕ)
    → n ≤ lo
    → Spans lo ts hi
    → Spans (lo - n) (map (shift n) ts) (hi - n)
Spans-shift n lo [] hi h s = omega arith
Spans-shift n lo (t ∷ ts) hi h s =
    (omega arith, omega arith, Spans-shift n t.end_pos ts hi (omega arith) s.2)

pub record IsShaped {Ctx : Type 0} (w : Window Ctx) : Type 0 where
  pub spans : Spans 0 w.turns w.committed_pos
  pub in_step : length w.tokens ≡ w.committed_pos

pub next_pair-some :
    (ts : List TurnBoundary) {t u : TurnBoundary} {rest : List TurnBoundary}
    → next_pair ts ≡ some (t, u, rest)
    → ts ≡ t ∷ u ∷ rest
next_pair-some [] h = absurd (ground arith)
next_pair-some (t ∷ []) h = absurd (ground arith)
next_pair-some (t ∷ u ∷ ts) h = ground arith

length-drain :
    (start end : ℕ) (ts : List ℕ)
    → start ≤ end
    → end ≤ length ts
    → length (drain start end ts) ≡ length ts - (end - start)
length-drain start end ts h k =
    omega
      (arith, length-append (take start ts) (drop end ts), length-take start ts, length-drop end ts)

pub take-drain :
    (n start end : ℕ) (ts : List ℕ)
    → n ≤ start
    → start ≤ length ts
    → take n (drain start end ts) ≡ take n ts
take-drain n start end ts h k = go n start ts (drop end ts) h k
  where
    go :
        (n start : ℕ) (xs ys : List ℕ)
        → n ≤ start
        → start ≤ length xs
        → take n (take start xs ++ ys) ≡ take n xs
    go zero start xs ys h k = refl
    go (suc n) zero xs ys h k = absurd (omega arith)
    go (suc n) (suc start) [] ys h k = absurd (omega arith)
    go (suc n) (suc start) (x ∷ xs) ys h k =
        ap (◌∷◌ x) (go n start xs ys (omega arith) (omega arith))

module _ {Ctx : Type 0} (seq_rm seq_add : Ctx → ℕ → ℕ → Option Ctx) where
  abbrev pub StepHas {ℓ} : (Window Ctx → Type ℓ) → Step seq_rm seq_add → Type ℓ
  StepHas P (shifted w n) = P w
  StepHas P (gave_up w e) = P w

  -- What one round keeps, the loop keeps, whether it ends well or not.
  pub drop_loop_rule {ℓ} :
      (P : Window Ctx → Type ℓ)
      → ((w : Window Ctx) (t u : TurnBoundary) (rest : List TurnBoundary)
          → w.turns ≡ t ∷ u ∷ rest
          → P w
          → StepHas P (drop_pair seq_rm seq_add w t u rest))
      → (fuel : ℕ) (w : Window Ctx) (needed : ℤ) (freed : ℕ) → P w
      → P (drop_loop seq_rm seq_add fuel w needed freed).0
  unfolding drop_loop
  drop_loop_rule P keep zero w needed freed p = p
  drop_loop_rule P keep (suc fuel) w needed freed p =
      elim (Bool-cases (is_over w.committed_pos needed freed w.n_ctx)) [
        | inr fits ↦ rw (fits, drop_loop) p
        | inl over ↦ elim (Option-cases (next_pair w.turns)) [
          | inl e ↦ rw (over, e, drop_loop) p
          | inr ((t, u, rest), e) ↦
              rw (over, e, drop_loop)
                (round (drop_pair seq_rm seq_add w t u rest)
                  (keep w t u rest (next_pair-some w.turns e) p)
                  (λ w'. drop_loop_rule P keep fuel w' needed))
        ]
      ]
    where
      round :
          (s : Step seq_rm seq_add)
          → StepHas P s
          → ((w' : Window Ctx) (f : ℕ) → P w' → P (drop_loop seq_rm seq_add fuel w' needed f).0)
          → P
              (elim s as (λ s'. Window Ctx × Outcome) [
                | shifted w' removed ↦ drop_loop seq_rm seq_add fuel w' needed (freed + removed)
                | gave_up w' e ↦ (w', err e)
              ]).0
      round (shifted w' removed) h again = again w' (freed + removed) h
      round (gave_up w' e) h again = h

  abbrev pub dropped :
      Window Ctx → TurnBoundary → TurnBoundary → List TurnBoundary → Ctx → Window Ctx
  dropped w t u rest c =
      let start = max t.start_pos w.protected_prefix in
      let end = u.end_pos in
      record w {
        ctx = c;
        turns = map (shift (end - start)) rest;
        committed_pos = w.committed_pos - (end - start);
        tokens = drain start end w.tokens;
      }

  -- The ways in which one round can go.
  pub drop_pair_rule {ℓ} :
      (P : Window Ctx → Type ℓ) (w : Window Ctx) (t u : TurnBoundary) (rest : List TurnBoundary)
      → ((c : Ctx) → P (record w { ctx = c; turns = rest }))
      → ((c : Ctx) → max t.start_pos w.protected_prefix < u.end_pos → P (dropped w t u rest c))
      → StepHas P (drop_pair seq_rm seq_add w t u rest)
  unfolding drop_pair
  drop_pair_rule P w t u rest stop go =
      elim (Bool-cases (leb u.end_pos (max t.start_pos w.protected_prefix))) [
        | inl inside ↦ rw (inside, drop_pair) (stop w.ctx)
        | inr outside ↦
            elim (Option-cases (seq_rm w.ctx (max t.start_pos w.protected_prefix) u.end_pos)) [
              | inl e ↦ rw (outside, e, drop_pair) (stop w.ctx)
              | inr (c, e) ↦
                  elim (Option-cases
                    (seq_add c u.end_pos (u.end_pos - max t.start_pos w.protected_prefix))) [
                      | inl e' ↦ rw (outside, e, e', drop_pair) (stop c)
                      | inr (c', e') ↦ rw (outside, e, e', drop_pair) (go c' (ground arith))
                    ]
            ]
      ]

  abbrev pub Keeps : Window Ctx → Window Ctx → Type 0
  Keeps w w' =
      IsShaped w'
      × (w'.n_ctx ≡ w.n_ctx)
      × (w'.protected_prefix ≡ w.protected_prefix)
      × (take w.protected_prefix w'.tokens ≡ take w.protected_prefix w.tokens)

  rest-IsShaped :
      (w : Window Ctx) (t u : TurnBoundary) (rest : List TurnBoundary) (c : Ctx)
      → w.turns ≡ t ∷ u ∷ rest
      → IsShaped w
      → IsShaped (record w { ctx = c; turns = rest })
  rest-IsShaped w t u rest c e h =
      let s : Spans 0 (t ∷ u ∷ rest) w.committed_pos = rw e at h.spans in
      record {
        spans = Spans-lower u.end_pos 0 rest w.committed_pos (omega arith) s.2.2;
        in_step = h.in_step;
      }

  pub dropped-IsShaped :
      (w : Window Ctx) (t u : TurnBoundary) (rest : List TurnBoundary) (c : Ctx)
      → w.turns ≡ t ∷ u ∷ rest
      → max t.start_pos w.protected_prefix < u.end_pos
      → IsShaped w
      → IsShaped (dropped w t u rest c)
  dropped-IsShaped w t u rest c e h v =
      let s : Spans 0 (t ∷ u ∷ rest) w.committed_pos = rw e at v.spans in
      let start = max t.start_pos w.protected_prefix in
      let top = Spans-le u.end_pos rest w.committed_pos s.2.2 in
      record {
        spans =
            Spans-lower (u.end_pos - (u.end_pos - start)) 0 (map (shift (u.end_pos - start)) rest)
              (w.committed_pos - (u.end_pos - start)) (omega arith)
              (Spans-shift (u.end_pos - start) u.end_pos rest w.committed_pos (omega arith) s.2.2);
        in_step = omega (
          arith,
          v.in_step,
          length-drain start u.end_pos w.tokens (omega arith) (omega (arith, v.in_step)),
        );
      }

  drop_pair-Keeps :
      (w₀ w : Window Ctx) (t u : TurnBoundary) (rest : List TurnBoundary)
      → w.turns ≡ t ∷ u ∷ rest
      → Keeps w₀ w
      → StepHas (Keeps w₀) (drop_pair seq_rm seq_add w t u rest)
  drop_pair-Keeps w₀ w t u rest e (v, n, p, o) =
      drop_pair_rule (Keeps w₀) w t u rest (λ c. (rest-IsShaped w t u rest c e v, n, p, o))
        (λ c h. (dropped-IsShaped w t u rest c e h v, n, p, kept c h ∙ o))
    where
      kept :
          (c : Ctx)
          → max t.start_pos w.protected_prefix < u.end_pos
          → take w₀.protected_prefix (dropped w t u rest c).tokens
            ≡ take w₀.protected_prefix w.tokens
      kept c h =
          let s : Spans 0 (t ∷ u ∷ rest) w.committed_pos = rw e at v.spans in
          take-drain w₀.protected_prefix (max t.start_pos w.protected_prefix) u.end_pos w.tokens
            (omega arith) (omega (arith, v.in_step, Spans-le u.end_pos rest w.committed_pos s.2.2))

  on_overflow-Keeps :
      (o : OverflowPolicy) (w : Window Ctx) (needed : ℤ)
      → IsShaped w
      → Keeps w (on_overflow seq_rm seq_add o w needed).0
  unfolding on_overflow drop_oldest_turns_for
  on_overflow-Keeps fail w needed v = (v, refl, refl, refl)
  on_overflow-Keeps drop_oldest_turns w needed v =
      drop_loop_rule (Keeps w) (drop_pair-Keeps w) (suc (length w.turns)) w needed 0
        (v, refl, refl, refl)

  -- For a window whose turns lie in order, `ensure_room_for` keeps the turns in order inside the
  -- committed positions, the token list as long as the cache, the limits as they were and the
  -- tokens of the opening, under each policy and with each outcome.
  pub ensure_room_for-Keeps :
      (w : Window Ctx) (needed : ℤ)
      → IsShaped w
      → Keeps w (ensure_room_for seq_rm seq_add w needed).0
  unfolding ensure_room_for
  ensure_room_for-Keeps w needed v =
      elim (Bool-cases (ltb_ℤ (add32 (pos w.committed_pos) needed) (pos w.n_ctx))) [
        | inl fits ↦ rw fits (v, refl, refl, refl)
        | inr over ↦ rw over (on_overflow-Keeps w.overflow w needed v)
      ]
