-- ===== src/Common/Float.antt =====
-- IEEE 754 numbers by their bit patterns. The comparisons are written out on the bits; the
-- arithmetic that the program does on them is a parameter where it occurs.
use Prim.Native.Nat.{ℕ, ◌%◌}
use mathlib.Core.Bool.{Bool, false, not, ◌&&◌, ◌||◌}
use rampipe.Common.Tests.{ltb, leb, nat_beq, if◌then◌else◌}

abbrev pub F32 : Type 0
F32 = ℕ

abbrev pub F64 : Type 0
F64 = ℕ

-- The patterns of `1.0` and `0.0`.
abbrev pub f32_one : F32
f32_one = 0x3f80_0000

abbrev pub f32_zero : F32
f32_zero = 0

-- `sign` is the pattern with only the sign bit, `infinity` that of the positive infinity.
module _ (sign infinity : ℕ) where
  is_nan : ℕ → Bool
  is_nan a = ltb infinity (a % sign)

  order_eq : ℕ → ℕ → Bool
  unfolding is_nan
  order_eq a b =
      (not (is_nan a) && not (is_nan b))
      && (nat_beq a b || (nat_beq (a % sign) 0 && nat_beq (b % sign) 0))

  order_lt : ℕ → ℕ → Bool
  unfolding is_nan
  order_lt a b =
      (not (is_nan a) && not (is_nan b))
      && (if leb sign a
          then (if leb sign b
              then ltb (b % sign) (a % sign)
              else not (nat_beq (a % sign) 0 && nat_beq (b % sign) 0))
          else (if leb sign b then false else ltb (a % sign) (b % sign)))

unfoldable pub f32_eq : F32 → F32 → Bool
unfolding order_eq
f32_eq = order_eq 0x8000_0000 0x7f80_0000

unfoldable pub f32_lt : F32 → F32 → Bool
unfolding order_lt
f32_lt = order_lt 0x8000_0000 0x7f80_0000

unfoldable pub f64_le : F64 → F64 → Bool
unfolding order_lt order_eq
f64_le a b =
    order_lt 0x8000_0000_0000_0000 0x7ff0_0000_0000_0000 a b
    || order_eq 0x8000_0000_0000_0000 0x7ff0_0000_0000_0000 a b
