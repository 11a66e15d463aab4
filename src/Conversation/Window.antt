-- ===== src/Conversation/Window.antt =====
-- llama.rs: the turns of a `Conversation`, `ensure_room_for` and `drop_oldest_turns_for`.
-- Positions are token counts and so natural numbers; `needed` is an `i32` of either sign.
pub mod Shape
pub mod Bound
pub mod Lockstep
use rampipe.Common.{
  ℕ, zero, suc, ◌+◌, ◌-◌, max, Bool, true, false, List, [], ◌∷◌, ◌++◌, map, Option, none, some,
  length, take, drop, if◌then◌else◌, leb,
}
use rampipe.Common.Int.{ℤ, pos, add32, sub32, ltb_ℤ}

pub data Role : Type 0 where
  user assistant : Role

pub record TurnBoundary : Type 0 where
  pub role : Role
  pub start_pos : ℕ
  pub end_pos : ℕ

pub data OverflowPolicy : Type 0 where
  fail drop_oldest_turns : OverflowPolicy

-- The errors that the conversation's own code distinguishes; `backend` is one of llama.cpp's.
pub data LlamaSessionError : Type 0 where
  conversation_context_full : ℕ → ℤ → ℕ → LlamaSessionError
  conversation_too_large_to_trim : LlamaSessionError
  backend : LlamaSessionError

-- `out_of_fuel` stands for a loop that has not ended.
pub data Outcome : Type 0 where
  done : Outcome
  err : LlamaSessionError → Outcome
  out_of_fuel : Outcome

-- The fields of `Conversation` that eviction reads and writes. A token is a number.
pub record Window (Ctx : Type 0) : Type 0 where
  pub ctx : Ctx
  pub committed_pos : ℕ
  pub n_ctx : ℕ
  pub turns : List TurnBoundary
  pub overflow : OverflowPolicy
  pub tokens : List ℕ
  pub protected_prefix : ℕ

abbrev pub shift : ℕ → TurnBoundary → TurnBoundary
shift removed t = record t { start_pos = t.start_pos - removed; end_pos = t.end_pos - removed }

-- `tokens.drain(start..end)`.
abbrev pub drain : ℕ → ℕ → List ℕ → List ℕ
drain start end tokens = take start tokens ++ drop end tokens

abbrev pub next_pair : List TurnBoundary → Option (TurnBoundary × TurnBoundary × List TurnBoundary)
next_pair [] = none
next_pair (t ∷ []) = none
next_pair (t ∷ u ∷ ts) = some (t, u, ts)

-- `committed_pos + needed - freed >= n_ctx`, in `i32`.
unfoldable pub is_over : ℕ → ℤ → ℕ → ℕ → Bool
is_over committed_pos needed freed n_ctx =
    if ltb_ℤ (sub32 (add32 (pos committed_pos) needed) (pos freed)) (pos n_ctx) then false else true

-- `kv_cache_seq_rm(0, p0, p1)` and `kv_cache_seq_add(0, p0, end, -n)` of llama.cpp.
module _ {Ctx : Type 0} (seq_rm seq_add : Ctx → ℕ → ℕ → Option Ctx) where
  pub data Step : Type 0 where
    shifted : Window Ctx → ℕ → Step
    gave_up : Window Ctx → LlamaSessionError → Step

  -- One round of the loop, with the two oldest turns taken off.
  unfoldable pub drop_pair : Window Ctx → TurnBoundary → TurnBoundary → List TurnBoundary → Step
  drop_pair w oldest answer rest =
      let start = max oldest.start_pos w.protected_prefix in
      let end = answer.end_pos in
      let removed = end - start in
      if leb end start
      then gave_up (record w { turns = rest }) conversation_too_large_to_trim
      else elim (seq_rm w.ctx start end) [
        | none ↦ gave_up (record w { turns = rest }) backend
        | some ctx ↦ elim (seq_add ctx end removed) [
          | none ↦ gave_up (record w { ctx = ctx; turns = rest }) backend
          | some ctx' ↦
              shifted
                (record w {
                  ctx = ctx';
                  turns = map (shift removed) rest;
                  committed_pos = w.committed_pos - removed;
                  tokens = drain start end w.tokens;
                })
                removed
        ]
      ]

  -- The `while` loop of `drop_oldest_turns_for`.
  unfoldable pub drop_loop : ℕ → Window Ctx → ℤ → ℕ → Window Ctx × Outcome
  drop_loop zero w needed freed = (w, out_of_fuel)
  drop_loop (suc fuel) w needed freed = elim (is_over w.committed_pos needed freed w.n_ctx) [
    | false ↦ (w, done)
    | true ↦ elim (next_pair w.turns) [
      | none ↦ (w, err conversation_too_large_to_trim)
      | some (oldest, answer, rest) ↦ elim (drop_pair w oldest answer rest) [
        | shifted w' removed ↦ drop_loop fuel w' needed (freed + removed)
        | gave_up w' e ↦ (w', err e)
      ]
    ]
  ]

  -- `Conversation::drop_oldest_turns_for`. Each round takes two turns off.
  unfoldable pub drop_oldest_turns_for : Window Ctx → ℤ → Window Ctx × Outcome
  unfolding drop_loop
  drop_oldest_turns_for w needed = drop_loop (suc (length w.turns)) w needed 0

  on_overflow : OverflowPolicy → Window Ctx → ℤ → Window Ctx × Outcome
  on_overflow fail w needed = (w, err (conversation_context_full w.committed_pos needed w.n_ctx))
  on_overflow drop_oldest_turns w needed = drop_oldest_turns_for w needed

  -- `Conversation::ensure_room_for`.
  unfoldable pub ensure_room_for : Window Ctx → ℤ → Window Ctx × Outcome
  unfolding on_overflow
  ensure_room_for w needed =
      if ltb_ℤ (add32 (pos w.committed_pos) needed) (pos w.n_ctx)
      then (w, done)
      else on_overflow w.overflow w needed
