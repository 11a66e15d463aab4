-- ===== src/Common/Text/Find.antt =====
-- What `find`, `rfind` and `starts_with` answer.
use rampipe.Common.Tests.{Bool-cases, Option-cases}
use rampipe.Common.Lists.{length, take, drop, drop_exact}
use rampipe.Common.Text.{Text, starts_with, find, rfind}
use Prim.Native.Nat.{ℕ, suc, ◌+◌, ◌≤◌}
use mathlib.Core.Path.{◌≡◌, refl, ap, ◌∙◌}
use mathlib.Core.Logic.{inl, inr, ◌≢◌}
use mathlib.Core.Bool.{true, false}
use mathlib.Core.Option.{none, some}
use mathlib.Core.List.{[], ◌∷◌, ◌++◌, append-nil}
use native.Mathlib.Omega.{arith}

pub starts_with-nil : (s : Text) → starts_with s [] ≡ true
unfolding starts_with
starts_with-nil [] = refl
starts_with-nil (c ∷ s) = refl

pub starts_with_self : (p r : Text) → starts_with (p ++ r) p ≡ true
unfolding starts_with
starts_with_self [] r = starts_with-nil r
starts_with_self (c ∷ p) r = ground (arith, starts_with_self p r)

pub starts_with-length : (s p : Text) → starts_with s p ≡ true → length p ≤ length s
unfolding starts_with
starts_with-length s [] h = omega arith
starts_with-length [] (c ∷ p) h = ground arith
starts_with-length (d ∷ s) (c ∷ p) h = ground (arith, starts_with-length s p)

-- A text that starts with a pattern is the pattern and what is behind it.
pub starts_with_split : (s p : Text) → starts_with s p ≡ true → s ≡ p ++ drop (length p) s
unfolding starts_with
starts_with_split s [] h = refl
starts_with_split [] (c ∷ p) h = ground arith
starts_with_split (d ∷ s) (c ∷ p) h = ground (arith, starts_with_split s p)

-- An occurrence lies inside the text.
pub find-le : (s p : Text) (i : ℕ) → find s p ≡ some i → i + length p ≤ length s
unfolding find
find-le [] p i h = ground (arith, starts_with-length [] p)
find-le (c ∷ s) p i h = elim (Bool-cases (starts_with (c ∷ s) p)) [
  | inl y ↦ ground (arith, starts_with-length (c ∷ s) p y)
  | inr n ↦ elim (Option-cases (find s p)) [
    | inl e ↦ absurd (ground arith)
    | inr (j, e) ↦ let ih = find-le s p j e in ground arith
  ]
]

-- The pattern stands where it was found.
pub find_split :
    (s p : Text) (i : ℕ) → find s p ≡ some i → s ≡ take i s ++ (p ++ drop (i + length p) s)
unfolding find
find_split [] p i h =
    let y : starts_with [] p ≡ true = ground arith in
    let z : i ≡ 0 = ground arith in
    rw z (starts_with_split [] p y ∙ ap (λ k. p ++ drop k []) (omega arith))
find_split (c ∷ s) p i h = elim (Bool-cases (starts_with (c ∷ s) p)) [
  | inl y ↦
      let z : i ≡ 0 = ground arith in
      rw z (starts_with_split (c ∷ s) p y ∙ ap (λ k. p ++ drop k (c ∷ s)) (omega arith))
  | inr n ↦ elim (Option-cases (find s p)) [
    | inl e ↦ absurd (ground arith)
    | inr (j, e) ↦
        let z : i ≡ suc j = ground arith in
        let w : suc j + length p ≡ suc (j + length p) = omega arith in
        rw (z, w) (ap (◌∷◌ c) (find_split s p j e))
  ]
]

-- No occurrence of `p` begins inside `a`, in `a ++ r`.
abbrev pub Clear : Text → Text → Text → Type 0
Clear p [] r = Unit
Clear p (c ∷ a) r = (starts_with (c ∷ (a ++ r)) p ≡ false) × Clear p a r

-- `find` skips what is clear of the pattern.
pub find-Clear : (p a r : Text) → Clear p a (p ++ r) → find (a ++ (p ++ r)) p ≡ some (length a)
unfolding find
find-Clear [] [] [] h = unfold starts_with in refl
find-Clear [] [] (d ∷ r) h = unfold starts_with in refl
find-Clear (c ∷ p) [] r h = rw (starts_with_self (c ∷ p) r)
find-Clear p (c ∷ a) r h = ground (arith, find-Clear p a r h.1)

pub find-Clear-none : (p a : Text) → p ≢ [] → Clear p a [] → find a p ≡ none
unfolding find starts_with
find-Clear-none [] [] n h = absurd (n refl)
find-Clear-none (c ∷ p) [] n h = refl
find-Clear-none p (c ∷ a) n h = ground (arith, find-Clear-none p a n h.1, append-nil a)

-- The last occurrence, if none begins behind its first character.
pub rfind_last :
    (pre : Text) (c : ℕ) (p r : Text)
    → rfind (p ++ r) (c ∷ p) ≡ none
    → rfind (pre ++ (c ∷ (p ++ r))) (c ∷ p) ≡ some (length pre)
unfolding rfind
rfind_last [] c p r h = rw (h, rfind, starts_with_self (c ∷ p) r)
rfind_last (d ∷ pre) c p r h = rw (rfind_last pre c p r h, rfind)

-- What is left behind two pieces, and a piece in front.
pub drop-past : (a b x : Text) → drop (length a + length b) (a ++ (b ++ x)) ≡ x
drop-past [] b x = ap (λ n. drop n (b ++ x)) (omega arith) ∙ drop_exact b x
drop-past (c ∷ a) b x =
    let e : suc (length a) + length b ≡ suc (length a + length b) = omega arith in
    rw e (drop-past a b x)

-- The last occurrence stands where it was found, and none begins behind it.
pub rfind_split :
    (s p : Text) (i : ℕ) → rfind s p ≡ some i → s ≡ take i s ++ (p ++ drop (i + length p) s)
unfolding rfind
rfind_split [] p i h =
    let y : starts_with [] p ≡ true = ground arith in
    let z : i ≡ 0 = ground arith in
    rw z (starts_with_split [] p y ∙ ap (λ k. p ++ drop k []) (omega arith))
rfind_split (c ∷ s) p i h = elim (Option-cases (rfind s p)) [
  | inr (j, e) ↦
      let h' : some (suc j) ≡ some i = rw (e, rfind) at h in
      let z : i ≡ suc j = ground (arith, h') in
      let w : suc j + length p ≡ suc (j + length p) = omega arith in
      rw (z, w) (ap (◌∷◌ c) (rfind_split s p j e))
  | inl e ↦ elim (Bool-cases (starts_with (c ∷ s) p)) [
    | inl y ↦
        let h' : some 0 ≡ some i = rw (e, rfind, y) at h in
        let z : i ≡ 0 = ground (arith, h') in
        rw z (starts_with_split (c ∷ s) p y ∙ ap (λ k. p ++ drop k (c ∷ s)) (omega arith))
    | inr n ↦ absurd (ground (arith, rw (e, rfind, n) at h))
  ]
]

rfind_somewhere : (s p : Text) → starts_with s p ≡ true → (i : ℕ) × (rfind s p ≡ some i)
unfolding rfind
rfind_somewhere [] p y = (0, rw y)
rfind_somewhere (c ∷ s) p y = elim (Option-cases (rfind s p)) [
  | inr (j, e) ↦ (suc j, rw (e, rfind))
  | inl e ↦ (0, rw (e, rfind, y))
]

pub rfind_latest : (a p b : Text) → (i : ℕ) × (rfind (a ++ (p ++ b)) p ≡ some i) × (length a ≤ i)
unfolding rfind
rfind_latest [] p b =
    let (i, e) = rfind_somewhere (p ++ b) p (starts_with_self p b) in (i, e, omega arith)
rfind_latest (c ∷ a) p b = let (i, e, h) = rfind_latest a p b in (suc i, rw (e, rfind), omega arith)

pub rfind-le : (s p : Text) (i : ℕ) → rfind s p ≡ some i → i ≤ length s
unfolding rfind
rfind-le [] p i h = ground arith
rfind-le (c ∷ s) p i h = elim (Option-cases (rfind s p)) [
  | inr (j, e) ↦
      let h' : some (suc j) ≡ some i = rw (e, rfind) at h in
      let ih = rfind-le s p j e in ground (arith, h')
  | inl e ↦ ground (arith, rw (e, rfind) at h)
]
