-- ===== src/Common/Text.antt =====
-- Rust's `str` as a list of code points, with the methods that the program calls. Offsets count
-- characters where Rust counts bytes; `len` is the length in bytes of the UTF-8 encoding.
pub mod Find
pub mod Slice
use Prim.Native.Char.{code}
use Prim.Native.String.{String}
use Prim.Native.Nat.{ℕ, suc, ◌+◌}
use mathlib.Core.Path.{◌≡◌, refl}
use mathlib.Core.Logic.{◌↔◌}
use mathlib.Core.Bool.{Bool, true, false, ◌&&◌, ◌||◌}
use mathlib.Core.Option.{Option, none, some}
use mathlib.Core.Option
use mathlib.Core.List.{List, [], ◌∷◌, reverse}
use native.Mathlib.Omega.{arith}
use rampipe.Common.Tests.{nat_beq, leb, ltb, if◌then◌else◌, Eq, is_some}
use rampipe.Common.Lists.{length, drop}

abbrev pub Text : Type 0
Text = List ℕ

-- A literal of the source.
abbrev pub codes : String → Text
codes String.[] = []
codes (String.◌∷◌ c s) = code c ∷ codes s

unfoldable pub text_beq : Text → Text → Bool
text_beq [] [] = true
text_beq [] (d ∷ t) = false
text_beq (c ∷ s) [] = false
text_beq (c ∷ s) (d ∷ t) = nat_beq c d && text_beq s t

text_beq_sound : (s t : Text) → text_beq s t ≡ true → s ≡ t
unfolding text_beq
text_beq_sound [] [] h = refl
text_beq_sound [] (d ∷ t) h = cc
text_beq_sound (c ∷ s) [] h = cc
text_beq_sound (c ∷ s) (d ∷ t) h = ground (arith, text_beq_sound s t)

text_beq_self : (s : Text) → text_beq s s ≡ true
unfolding text_beq
text_beq_self [] = refl
text_beq_self (c ∷ s) = ground (arith, text_beq_self s)

pub text_beq_iff : (s t : Text) → (text_beq s t ≡ true) ↔ (s ≡ t)
text_beq_iff s t = (text_beq_sound s t, λ e. rw e (text_beq_self t))

instance abbrev pub text_eq : Eq Text
text_eq = record { beq = text_beq; agrees = text_beq_iff }

-- Bytes of one character in UTF-8.
abbrev pub utf8_width : ℕ → ℕ
utf8_width c = if ltb c 0x80 then 1 else if ltb c 0x800 then 2 else if ltb c 0x1_0000 then 3 else 4

-- `str::len`.
unfoldable pub len : Text → ℕ
len [] = 0
len (c ∷ s) = utf8_width c + len s

abbrev pub is_empty : Text → Bool
is_empty [] = true
is_empty (c ∷ s) = false

-- `text.starts_with(pattern)`.
unfoldable pub starts_with : Text → Text → Bool
starts_with s [] = true
starts_with [] (p ∷ ps) = false
starts_with (c ∷ s) (p ∷ ps) = nat_beq c p && starts_with s ps

-- `text.strip_prefix(pattern)`.
unfoldable pub strip_prefix : Text → Text → Option Text
unfolding starts_with
strip_prefix s p = if starts_with s p then some (drop (length p) s) else none

-- `text.find(pattern)`, the first occurrence.
unfoldable pub find : Text → Text → Option ℕ
unfolding starts_with
find [] p = if starts_with [] p then some 0 else none
find (c ∷ s) p =
    let rest = find s p in if starts_with (c ∷ s) p then some 0 else Option.map suc rest

-- `text.rfind(pattern)`, the last occurrence.
unfoldable pub rfind : Text → Text → Option ℕ
unfolding starts_with
rfind [] p = if starts_with [] p then some 0 else none
rfind (c ∷ s) p = elim (rfind s p) [
  | some i ↦ some (suc i)
  | none ↦ if starts_with (c ∷ s) p then some 0 else none
]

-- `text.contains(pattern)`.
unfoldable pub contains : Text → Text → Bool
unfolding find
contains s p = is_some (find s p)

-- `text.ends_with(pattern)`.
unfoldable pub ends_with : Text → Text → Bool
unfolding starts_with
ends_with s p = starts_with (reverse s) (reverse p)

-- `char::is_whitespace`, Unicode's White_Space.
unfoldable pub is_whitespace : ℕ → Bool
is_whitespace c =
    (leb 9 c && leb c 13)
    || (nat_beq c 0x20
        || (nat_beq c 0x85
            || (nat_beq c 0xa0
                || (nat_beq c 0x1680
                    || ((leb 0x2000 c && leb c 0x200a)
                        || (nat_beq c 0x2028
                            || (nat_beq c 0x2029
                                || (nat_beq c 0x202f
                                    || (nat_beq c 0x205f || nat_beq c 0x3000)))))))))

unfoldable pub trim_start : Text → Text
unfolding is_whitespace
trim_start [] = []
trim_start (c ∷ s) = let rest = trim_start s in if is_whitespace c then rest else c ∷ s

unfoldable pub trim_end : Text → Text
unfolding trim_start
trim_end s = reverse (trim_start (reverse s))

unfoldable pub trim : Text → Text
unfolding trim_start trim_end
trim s = trim_end (trim_start s)
