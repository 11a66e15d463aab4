-- ===== src/Common/Text/Slice.antt =====
-- Slices of a text, by characters and by bytes of its UTF-8 encoding.
use rampipe.Common.Tests.{ltb, leb, if◌then◌else◌, Bool-cases}
use rampipe.Common.Lists.{
  length, take, drop, take-append-drop, drop-drop, drop_exact, length-take, take_exact,
  length-append,
}
use rampipe.Common.Chain.{◌>>=◌, >>=-eq-some}
use rampipe.Common.Text.{Text, utf8_width, starts_with, strip_prefix, ends_with, find}
use rampipe.Common.Text.Find.{starts_with_split, find_split, find-le}
use Prim.Native.Nat.{ℕ, zero, suc, ◌+◌, ◌-◌, ◌/◌, ◌%◌}
use mathlib.Core.Path.{◌≡◌, ap, sym, ◌∙◌}
use mathlib.Core.Logic.{inl, inr}
use mathlib.Core.Bool.{◌&&◌}
use mathlib.Core.Option.{Option, none, some}
use mathlib.Core.Option
use mathlib.Core.List.{List, [], ◌∷◌, ◌++◌, reverse, reverse-append, reverse-reverse}
use native.Mathlib.Omega.{arith}

-- `text.get(from..to)`, between characters.
unfoldable pub slice : Text → ℕ → ℕ → Option Text
slice s i j = if leb i j && leb j (length s) then some (take (j - i) (drop i s)) else none

-- `text.get(from..)`.
unfoldable pub slice_from : Text → ℕ → Option Text
slice_from s i = if leb i (length s) then some (drop i s) else none

-- `text.strip_suffix(pattern)`.
unfoldable pub strip_suffix : Text → Text → Option Text
unfolding ends_with
strip_suffix s p = if ends_with s p then some (take (length s - length p) s) else none

-- One character in UTF-8.
abbrev pub utf8 : ℕ → List ℕ
utf8 c =
    if ltb c 0x80
    then c ∷ []
    else if ltb c 0x800
    then (0xc0 + c / 64) ∷ (0x80 + c % 64) ∷ []
    else if ltb c 0x1_0000
    then (0xe0 + c / 4096) ∷ (0x80 + c / 64 % 64) ∷ (0x80 + c % 64) ∷ []
    else (0xf0 + c / 262144) ∷ (0x80 + c / 4096 % 64) ∷ (0x80 + c / 64 % 64) ∷ (0x80 + c % 64) ∷ []

-- `text.as_bytes()`.
unfoldable pub as_bytes : Text → List ℕ
as_bytes [] = []
as_bytes (c ∷ s) = utf8 c ++ as_bytes s

-- The number of characters in front of a byte, if one begins there or the text ends.
unfoldable pub char_index : Text → ℕ → Option ℕ
char_index s zero = some 0
char_index [] (suc at) = none
char_index (c ∷ s) (suc at) =
    if ltb (suc at) (utf8_width c)
    then none
    else Option.map suc (char_index s (suc at - utf8_width c))

-- `text.get(from..to)`, by bytes.
unfoldable pub slice_bytes : Text → ℕ → ℕ → Option Text
unfolding char_index slice
slice_bytes s i j = do from ← char_index s i; to ← char_index s j; slice s from to

pub slice_split : (s t : Text) (i j : ℕ) → slice s i j ≡ some t → drop i s ≡ t ++ drop j s
unfolding slice
slice_split s t i j h = elim (Bool-cases (leb i j && leb j (length s))) [
  | inr n ↦ absurd (ground (arith, rw n at h))
  | inl y ↦
      let e : take (j - i) (drop i s) ≡ t = ground (arith, rw y at h) in
      let k : i + (j - i) ≡ j = ground arith in
      sym (take-append-drop (j - i) (drop i s)) ∙ rw (e, drop-drop i (j - i) s, k)
]

pub slice_from_split : (s t : Text) (i : ℕ) → slice_from s i ≡ some t → drop i s ≡ t
unfolding slice_from
slice_from_split s t i h = ground arith

pub slice_bytes_split :
    (s t : Text) (i j : ℕ)
    → slice_bytes s i j ≡ some t
    → (before after : Text) × (s ≡ before ++ (t ++ after))
unfolding slice_bytes
slice_bytes_split s t i j h =
    let (from, _, h') = >>=-eq-some (char_index s i) _ h in
    let (to, _, h'') = >>=-eq-some (char_index s j) _ h' in
    (
      take from s,
      drop to s,
      sym (take-append-drop from s) ∙ ap (λ r. take from s ++ r) (slice_split s t from to h''),
    )

pub strip_prefix_split : (s p t : Text) → strip_prefix s p ≡ some t → s ≡ p ++ t
unfolding strip_prefix
strip_prefix_split s p t h = elim (Bool-cases (starts_with s p)) [
  | inl y ↦
      let e : drop (length p) s ≡ t = ground (arith, rw y at h) in
      rw (← e) (starts_with_split s p y)
  | inr n ↦ absurd (ground (arith, rw n at h))
]

-- A pattern stands where it was found, with what is behind it.
pub find-drop : (s p : Text) (i : ℕ) → find s p ≡ some i → drop i s ≡ p ++ drop (i + length p) s
find-drop s p i h =
    let rest = p ++ drop (i + length p) s in
    let l : i ≡ length (take i s) = omega (arith, length-take {0} i s, find-le s p i h) in
    ap (drop i) (find_split s p i h)
    ∙ (ap (λ n. drop n (take i s ++ rest)) l ∙ drop_exact (take i s) rest)

pub strip_suffix_split : (s p t : Text) → strip_suffix s p ≡ some t → s ≡ t ++ p
unfolding strip_suffix ends_with
strip_suffix_split s p t h = elim (Bool-cases (starts_with (reverse s) (reverse p))) [
  | inr n ↦ absurd (ground (arith, rw n at h))
  | inl y ↦
      let d = reverse (drop (length (reverse p)) (reverse s)) in
      let e : s ≡ d ++ p =
        sym (reverse-reverse s)
        ∙ (ap reverse (starts_with_split (reverse s) (reverse p) y)
            ∙ (reverse-append (reverse p) (drop (length (reverse p)) (reverse s))
                ∙ ap (λ q. d ++ q) (reverse-reverse p))) in
      let k : length s - length p ≡ length d = omega (arith, ap length e, length-append {0} d p) in
      let e' : take (length s - length p) s ≡ t = ground (arith, rw y at h) in
      let f : d ≡ t =
        sym (take_exact d p)
        ∙ (ap (λ n. take n (d ++ p)) (sym k) ∙ (ap (take (length s - length p)) (sym e) ∙ e')) in
      e ∙ ap (λ q. q ++ p) f
]
