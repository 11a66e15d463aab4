-- ===== src/Tests/Window.antt =====
-- llama.rs: a window of twelve positions, its cache a function from positions to tokens.
use rampipe.Common.{
  ℕ, ◌+◌, ◌-◌, ◌≤◌, ◌<◌, ◌≡◌, refl, sym, ap, ◌&&◌, List, [], ◌∷◌, Option, none, some, arith,
  get_elem?, if◌then◌else◌, leb, ltb,
}
use rampipe.Common.Int.{pos, add32, sub32, wrap32}
use rampipe.Conversation.Window.{
  Role, TurnBoundary, Window, OverflowPolicy, done, drop_oldest_turns_for, ensure_room_for, is_over,
  drop_pair, drop_loop,
}
use rampipe.Conversation.Window.Shape.{IsShaped, Keeps, ensure_room_for-Keeps}
use rampipe.Conversation.Window.Bound.{drop_oldest_turns_for_bound, drop_oldest_turns_for_short}
use rampipe.Conversation.Window.Lockstep.{ensure_room_for-Lockstep}

abbrev pub Cache : Type 0
Cache = ℕ → Option ℕ

abbrev pub clear : Cache → ℕ → ℕ → Option Cache
clear c p0 p1 = some (λ i. if leb p0 i && ltb i p1 then none else c i)

-- The positions from `p0` on move down by `n`.
abbrev pub move : Cache → ℕ → ℕ → Option Cache
move c p0 n = some (λ i. if leb p0 (i + n) then c (i + n) else c i)

pub clear_lem :
    (c c' : Cache) (p0 p1 i : ℕ)
    → clear c p0 p1 ≡ some c'
    → c' i ≡ (if leb p0 i && ltb i p1 then none else c i)
clear_lem c c' p0 p1 i h = ap (λ (o : Option Cache). cell o) (sym h)
  where
    cell : Option Cache → Option ℕ
    cell none = none
    cell (some d) = d i

pub move_lem :
    (c c' : Cache) (p0 n i : ℕ)
    → n ≤ p0
    → ((j : ℕ) → p0 ≤ j + n → j < p0 → c j ≡ none)
    → move c p0 n ≡ some c'
    → c' i ≡ (if leb p0 (i + n) then c (i + n) else c i)
move_lem c c' p0 n i le free h = ap (λ (o : Option Cache). cell o) (sym h)
  where
    cell : Option Cache → Option ℕ
    cell none = none
    cell (some d) = d i

abbrev spoken : List ℕ
spoken = 101 ∷ 102 ∷ 103 ∷ 104 ∷ 105 ∷ 106 ∷ 107 ∷ 108 ∷ 109 ∷ 110 ∷ []

abbrev turn : Role → ℕ → ℕ → TurnBoundary
turn r s e = record { role = r; start_pos = s; end_pos = e }

-- Ten positions, the first two the opening; two exchanges.
abbrev full : Window Cache
full = record {
  ctx = get_elem? spoken;
  committed_pos = 10;
  n_ctx = 12;
  turns =
      turn Role.user 0 4
      ∷ turn Role.assistant 4 6
      ∷ turn Role.user 6 8
      ∷ turn Role.assistant 8 10
      ∷ [];
  overflow = OverflowPolicy.drop_oldest_turns;
  tokens = spoken;
  protected_prefix = 2;
}

full-IsShaped : IsShaped full
full-IsShaped = record { spans = omega arith; in_step = refl }

ensure_room_for-Lockstep_example :
    (ensure_room_for clear move full (pos 3)).0.ctx 5
    ≡ get_elem? (ensure_room_for clear move full (pos 3)).0.tokens 5
unfolding ensure_room_for drop_oldest_turns_for drop_pair drop_loop is_over add32 sub32 wrap32
ensure_room_for-Lockstep_example =
    ensure_room_for-Lockstep clear move (λ c. c) clear_lem move_lem full (pos 3) full-IsShaped
      (λ i. refl) (ground arith) 5

ensure_room_for-Keeps_example : Keeps clear move full (ensure_room_for clear move full (pos 3)).0
ensure_room_for-Keeps_example = ensure_room_for-Keeps clear move full (pos 3) full-IsShaped

drop_oldest_turns_for_bound_example :
    let w' = (drop_oldest_turns_for clear move full (pos 3)).0 in
    (w'.committed_pos ≤ 10) × (w'.committed_pos + 3 < 12 + (10 - w'.committed_pos))
unfolding drop_oldest_turns_for drop_pair drop_loop is_over add32 sub32 wrap32
drop_oldest_turns_for_bound_example =
    drop_oldest_turns_for_bound clear move full 3 full-IsShaped (omega arith) refl

-- Seven more tokens in a window of twelve, of which ten are taken: four are freed, and thirteen
-- positions are wanted.
drop_oldest_turns_for_short_example :
    ((drop_oldest_turns_for clear move full (pos 7)).1 ≡ done)
    × (12 ≤ (drop_oldest_turns_for clear move full (pos 7)).0.committed_pos + 7)
drop_oldest_turns_for_short_example =
    drop_oldest_turns_for_short clear move full 7 (turn Role.user 0 4) (turn Role.assistant 4 6)
      (turn Role.user 6 8 ∷ turn Role.assistant 8 10 ∷ [])
      (λ i. if leb 2 i && ltb i 6 then none else get_elem? spoken i)
      (λ i.
        if leb 6 (i + 4)
        then (if leb 2 (i + 4) && ltb (i + 4) 6 then none else get_elem? spoken (i + 4))
        else (if leb 2 i && ltb i 6 then none else get_elem? spoken i))
      full-IsShaped (omega arith) refl refl refl (omega arith) (omega arith)
