-- ===== src/Common/Int.antt =====
-- Signed integers over the native numbers, and the wrap-around of 32-bit ones.
use Prim.Native.Nat.{ℕ, suc, ◌+◌, ◌-◌, ◌%◌, ◌^◌, ◌≤◌, ◌<◌}
use mathlib.Core.Path.{◌≡◌}
use mathlib.Core.Bool.{Bool}
use native.Mathlib.Omega.{arith}
use rampipe.Common.Tests.{ltb, leb, if◌then◌else◌}

-- `negsuc n` is -(n + 1).
pub data ℤ : Type 0 where
  pos : ℕ → ℤ
  negsuc : ℕ → ℤ

abbrev pub pos_part : ℤ → ℕ
pos_part (pos n) = n
pos_part (negsuc n) = 0

abbrev pub neg_part : ℤ → ℕ
neg_part (pos n) = 0
neg_part (negsuc n) = suc n

-- a - b.
abbrev pub sub_ℕ : ℕ → ℕ → ℤ
sub_ℕ a b = if leb b a then pos (a - b) else negsuc (b - a - 1)

abbrev pub ltb_ℤ : ℤ → ℤ → Bool
ltb_ℤ a b = ltb (pos_part a + neg_part b) (pos_part b + neg_part a)

abbrev pub leb_ℤ : ℤ → ℤ → Bool
leb_ℤ a b = leb (pos_part a + neg_part b) (pos_part b + neg_part a)

-- An integer as the `i32` of the same low 32 bits.
unfoldable pub wrap32 : ℤ → ℤ
wrap32 (pos n) = let m = n % 2 ^ 32 in if ltb m (2 ^ 31) then pos m else negsuc (2 ^ 32 - 1 - m)
wrap32 (negsuc n) = let m = n % 2 ^ 32 in if ltb m (2 ^ 31) then negsuc m else pos (2 ^ 32 - 1 - m)

-- `i32` addition and subtraction.
unfoldable pub add32 : ℤ → ℤ → ℤ
unfolding wrap32
add32 a b = wrap32 (sub_ℕ (pos_part a + pos_part b) (neg_part a + neg_part b))

unfoldable pub sub32 : ℤ → ℤ → ℤ
unfolding wrap32
sub32 a b = wrap32 (sub_ℕ (pos_part a + neg_part b) (neg_part a + pos_part b))

-- `x` lies in the range of `i32`.
abbrev pub IsI32 : ℤ → Type 0
IsI32 x = (pos_part x < 2 ^ 31) × (neg_part x ≤ 2 ^ 31)

pub wrap32_id : (x : ℤ) → IsI32 x → wrap32 x ≡ x
unfolding wrap32
wrap32_id (pos n) h = ground arith
wrap32_id (negsuc n) h = ground arith

pub add32_nat : (a b : ℕ) → a + b < 2 ^ 31 → add32 (pos a) (pos b) ≡ pos (a + b)
unfolding add32
add32_nat a b h = ground (arith, wrap32_id (pos (a + b)) (omega arith))

pub sub32_nat : (a b : ℕ) → a < 2 ^ 31 → b < 2 ^ 31 → sub32 (pos a) (pos b) ≡ sub_ℕ a b
unfolding sub32
sub32_nat a b h k = ground arith
