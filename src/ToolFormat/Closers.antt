-- ===== src/ToolFormat/Closers.antt =====
-- tool_format.rs: the candidates for a closer, and what `find_close` finds.
use mathlib.Core.List.{reverse, reverse-cons}
use rampipe.Common.{
  ℕ, ◌+◌, ◌≤◌, ◌≡◌, ◌≢◌, refl, ap, ◌∙◌, ◌⊎◌, inl, inr, true, not, ◌&&◌, List, [], ◌∷◌, ◌++◌,
  append_assoc, Option, some, arith, length, length-append, ◌==◌, nat_eq, Bool-cases, Option-cases,
  All, All-append,
}
use rampipe.Common.Text.{Text, is_empty, find}
use rampipe.Common.Text.Find.{find-le}
use rampipe.ToolFormat.{shorter_closers, close_candidates, first_found, find_close}

-- A whole number of tags at the front of the closer: all of it, or up to one of its `>`.
abbrev pub IsCloser : Text → Text → Type 0
IsCloser full p =
    ((p ≡ full) × (p ≢ []))
    ⊎ ((body : Text) × (rest : Text) × (p ≡ body ++ b'>' ∷ []) × (full ≡ p ++ rest) × (rest ≢ []))

cons-ne : (c : ℕ) (s : Text) → (c ∷ s) ≢ []
cons-ne c s e = cc

tag_end-IsCloser :
    (full past : Text) (c : ℕ) (s : Text)
    → full ≡ reverse past ++ c ∷ s
    → ((c == b'>') && not (is_empty s)) ≡ true
    → IsCloser full (reverse (c ∷ past))
tag_end-IsCloser full past c [] e y = absurd (ground arith)
tag_end-IsCloser full past c (d ∷ s) e y =
    let at : c ≡ b'>' = ground arith in
    inr (
      reverse past,
      d ∷ s,
      reverse-cons c past ∙ ap (λ k. reverse past ++ k ∷ []) at,
      rw (reverse-cons c past, append_assoc) e,
      cons-ne d s,
    )

shorter_closers-IsCloser :
    (full past s : Text) → full ≡ reverse past ++ s → All (IsCloser full) (shorter_closers past s)
unfolding shorter_closers
shorter_closers-IsCloser full past [] e = tt
shorter_closers-IsCloser full past (c ∷ s) e =
    let later =
      shorter_closers-IsCloser full (c ∷ past) s (rw (reverse-cons c past, append_assoc) e) in
    elim (Bool-cases ((c == b'>') && not (is_empty s))) [
      | inl y ↦ rw y (All-append (IsCloser full) _ _ later (tag_end-IsCloser full past c s e y, tt))
      | inr n ↦ rw n later
    ]

-- Each of the `close_candidates` of a closer is the closer itself and not empty, or a proper
-- beginning of it that ends with `>`.
pub close_candidates-IsCloser : (full : Text) → All (IsCloser full) (close_candidates full)
unfolding close_candidates
close_candidates-IsCloser [] = tt
close_candidates-IsCloser (c ∷ s) =
    (inl (refl, cons-ne c s), shorter_closers-IsCloser (c ∷ s) [] (c ∷ s) refl)

IsCloser-pos : (full p : Text) → IsCloser full p → 1 ≤ length p
IsCloser-pos full [] (inl (e, n)) = absurd (n refl)
IsCloser-pos full (c ∷ p) (inl h) = omega arith
IsCloser-pos full p (inr (body, rest, e, h, n)) =
    omega (arith, ap length e, length-append body (b'>' ∷ []))

-- A candidate that was found, where it was found.
abbrev pub Hit : Text → List Text → ℕ → ℕ → Type 0
Hit text [] at len = ⊥
Hit text (p ∷ ps) at len = ((find text p ≡ some at) × (length p ≡ len)) ⊎ Hit text ps at len

first_found-Hit :
    (text : Text) (ps : List Text) (at len : ℕ)
    → first_found text ps ≡ some (at, len)
    → Hit text ps at len
unfolding first_found
first_found-Hit text [] at len h = ground arith
first_found-Hit text (p ∷ ps) at len h = elim (Option-cases (find text p)) [
  | inl e ↦ inr (first_found-Hit text ps at len (rw (e, first_found) at h))
  | inr (i, e) ↦
      let h' : ◌≡◌ {A = Option (ℕ × ℕ)} (some (i, length p)) (some (at, len)) =
        rw (e, first_found) at h in
      inl (e ∙ ground arith, ground arith)
]

Hit-bounds :
    (full text : Text) (ps : List Text) (at len : ℕ)
    → All (IsCloser full) ps
    → Hit text ps at len
    → (1 ≤ len) × (at + len ≤ length text)
Hit-bounds full text [] at len a h = absurd h
Hit-bounds full text (p ∷ ps) at len a (inl (e, l)) =
    (omega (arith, IsCloser-pos full p a.0), omega (arith, find-le text p at e))
Hit-bounds full text (p ∷ ps) at len a (inr h) = Hit-bounds full text ps at len a.1 h

-- A closer that was found is not empty and lies inside the text.
pub find_close_bounds :
    (text closer : Text) (at len : ℕ)
    → find_close text closer ≡ some (at, len)
    → (1 ≤ len) × (at + len ≤ length text)
unfolding find_close
find_close_bounds text closer at len h =
    Hit-bounds closer text (close_candidates closer) at len (close_candidates-IsCloser closer)
      (first_found-Hit text (close_candidates closer) at len h)
