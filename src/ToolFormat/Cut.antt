-- ===== src/ToolFormat/Cut.antt =====
-- tool_format.rs: where a turn is cut, and which turns count as severed.
use rampipe.Common.{
  ℕ, zero, suc, ◌+◌, ◌≤◌, ◌<◌, ◌≡◌, ◌≢◌, refl, sym, ap, ◌∙◌, ◌⊎◌, inl, inr, Bool, true, false, ◌||◌,
  List, [], ◌∷◌, ◌++◌, Option, none, some, arith, length, take, drop, length-take, Bool-cases,
  Option-cases,
}
use rampipe.Common.Text.{Text, is_empty, rfind, starts_with, trim_start, trim_end, ends_with}
use rampipe.Common.Text.Find.{rfind-le, rfind_split, rfind_latest, rfind_last, drop-past}
use rampipe.ToolFormat.{ToolFormat, call_open, call_close, find_close}
use rampipe.ToolFormat.TurnEnd.{
  TurnEnd, later, end_of, last_close, is_open, reached, ends_with_prefix, is_unclosed, proper,
  ends_mid_call,
}

-- A closer of the list ends at `end`, and none ends behind.
abbrev pub EndsAt : Text → List Text → ℕ → Type 0
EndsAt text [] end = ⊥
EndsAt text (p ∷ ps) end =
    ((a : Text) × (b : Text) × (text ≡ a ++ (p ++ b)) × (end ≡ length a + length p))
    ⊎ EndsAt text ps end

later_cases : (o o' : Option ℕ) (m : ℕ) → later o o' ≡ some m → (o ≡ some m) ⊎ (o' ≡ some m)
later_cases none o' m h = inr h
later_cases (some a) none m h = inl h
later_cases (some a) (some b) m h = ground arith

later_bound :
    (o o' : Option ℕ) (m n : ℕ) → later o o' ≡ some m → (o ≡ some n) ⊎ (o' ≡ some n) → n ≤ m
later_bound none o' m n h (inl e) = absurd (ground arith)
later_bound none o' m n h (inr e) = ground arith
later_bound (some a) none m n h (inl e) = ground arith
later_bound (some a) none m n h (inr e) = absurd (ground arith)
later_bound (some a) (some b) m n h (inl e) = ground arith
later_bound (some a) (some b) m n h (inr e) = ground arith

end_of-EndsAt :
    (text p : Text) (end : ℕ)
    → end_of (rfind text p) p ≡ some end
    → (a : Text) × (b : Text) × (text ≡ a ++ (p ++ b)) × (end ≡ length a + length p)
end_of-EndsAt text p end h = elim (Option-cases (rfind text p)) [
  | inl e ↦ absurd (ground (arith, rw e at h))
  | inr (i, e) ↦
      let s = rfind_split text p i e in
      let within : i ≤ length text = rfind-le text p i e in
      let h' : some (i + length p) ≡ some end = rw e at h in
      (take i text, drop (i + length p) text, s, omega (arith, end_eq h', length-take i text))
]
  where
    end_eq : {m n : ℕ} → some m ≡ some n → n ≡ m
    end_eq h = ground arith

last_close-EndsAt :
    (text : Text) (ps : List Text) (end : ℕ) → last_close text ps ≡ some end → EndsAt text ps end
unfolding last_close
last_close-EndsAt text [] end h = absurd (ground arith)
last_close-EndsAt text (p ∷ ps) end h =
    elim (later_cases (end_of (rfind text p) p) (last_close text ps) end h) [
      | inl e ↦ inl (end_of-EndsAt text p end e)
      | inr e ↦ inr (last_close-EndsAt text ps end e)
    ]

later-none : (o o' : Option ℕ) → later o o' ≡ none → (o ≡ none) × (o' ≡ none)
later-none none o' h = (refl, h)
later-none (some a) none h = absurd (ground arith)
later-none (some a) (some b) h = absurd (ground arith)

last_close-none :
    (text : Text) (ps : List Text) (other : ℕ)
    → last_close text ps ≡ none
    → EndsAt text ps other
    → ⊥
unfolding last_close
last_close-none text [] other h at = at
last_close-none text (p ∷ ps) other h (inl (a, b, e, o)) =
    let (i, found, le) = rfind_latest a p b in
    let found' : rfind text p ≡ some i = ap (λ t. rfind t p) e ∙ found in
    let n : end_of (some i) p ≡ none =
      rw found' at (later-none (end_of (rfind text p) p) (last_close text ps) h).0 in
    ground (arith, n)
last_close-none text (p ∷ ps) other h (inr at) =
    last_close-none text ps other (later-none (end_of (rfind text p) p) (last_close text ps) h).1 at

last_close-bound :
    (text : Text) (ps : List Text) (end other : ℕ)
    → last_close text ps ≡ some end
    → EndsAt text ps other
    → other ≤ end
unfolding last_close
last_close-bound text [] end other h at = absurd at
last_close-bound text (p ∷ ps) end other h (inl (a, b, e, o)) =
    let (i, found, le) = rfind_latest a p b in
    let found' : rfind text p ≡ some i = ap (λ t. rfind t p) e ∙ found in
    let n =
      later_bound (end_of (rfind text p) p) (last_close text ps) end (i + length p) h
        (inl (rw found')) in
    omega (arith, n)
last_close-bound text (p ∷ ps) end other h (inr at) = elim (Option-cases (last_close text ps)) [
  | inl e ↦ absurd (last_close-none text ps other e at)
  | inr (m, e) ↦
      let ih = last_close-bound text ps m other e at in
      let n = later_bound (end_of (rfind text p) p) (last_close text ps) end m h (inr e) in
      omega arith
]

is_open-false :
    (e : TurnEnd) (tail : Text)
    → is_open e tail ≡ false
    → (trim_start tail ≢ [])
      × (starts_with (trim_start tail) e.call_open ≡ false)
      × (starts_with e.call_open (trim_start tail) ≡ false)
unfolding is_open
is_open-false e tail h = (not_empty (trim_start tail) (ground arith), ground arith, ground arith)
  where
    not_empty : (s : Text) → is_empty s ≡ false → s ≢ []
    not_empty [] n = cc
    not_empty (c ∷ s) n = λ e. cc

reached_parts :
    (e : TurnEnd) (text : Text) (end : ℕ)
    → reached e text ≡ some end
    → (last_close text e.closers ≡ some end) × (is_open e (drop end text) ≡ false)
unfolding reached
reached_parts e text end h = elim (Bool-cases (is_empty e.call_open)) [
  | inl y ↦ absurd (ground (arith, rw (y, reached) at h))
  | inr n ↦ elim (Option-cases (last_close text e.closers)) [
    | inl c ↦ absurd (ground (arith, rw (n, c, reached) at h))
    | inr (m, c) ↦ elim (Bool-cases (is_open e (drop m text))) [
      | inl o ↦ absurd (ground (arith, rw (n, c, o, reached) at h))
      | inr o ↦
          let h' : some m ≡ some end = rw (n, c, o, reached) at h in
          let same : m ≡ end = ground (arith, h') in
          (c ∙ ap some same, ap (λ k. is_open e (drop k text)) (sym same) ∙ o)
    ]
  ]
]

-- `TurnEnd::reached` cuts a turn behind a closer in it, and only if what follows is more than
-- white space and neither begins with the opener nor is the beginning of one.
pub reached_cut :
    (e : TurnEnd) (text : Text) (end : ℕ)
    → reached e text ≡ some end
    → EndsAt text e.closers end
      × (trim_start (drop end text) ≢ [])
      × (starts_with (trim_start (drop end text)) e.call_open ≡ false)
      × (starts_with e.call_open (trim_start (drop end text)) ≡ false)
reached_cut e text end h =
    let (c, o) = reached_parts e text end h in
    let (a, b, d) = is_open-false e (drop end text) o in
    (last_close-EndsAt text e.closers end c, a, b, d)

-- No closer ends behind the cut that `TurnEnd::reached` gives.
pub reached-last :
    (e : TurnEnd) (text : Text) (end other : ℕ)
    → reached e text ≡ some end
    → EndsAt text e.closers other
    → other ≤ end
reached-last e text end other h at =
    last_close-bound text e.closers end other (reached_parts e text end h).0 at

is_unclosed_lem :
    (text opener closer rest : Text) (i : ℕ)
    → rfind text opener ≡ some i
    → drop (i + length opener) text ≡ rest
    → find_close rest closer ≡ none
    → is_unclosed text opener closer ≡ true
unfolding is_unclosed
is_unclosed_lem text opener closer rest i found behind unclosed =
    elim (Bool-cases (is_empty closer)) [
      | inl y ↦ rw (found, y, is_unclosed)
      | inr n ↦ rw (found, n, behind, unclosed, is_unclosed)
    ]

-- `ends_mid_call` holds of a text that, without the white space at its end, holds an opener, not
-- empty, behind which no other begins and no closer is found.
pub ends_mid_call-unclosed :
    (format : ToolFormat) (text pre rest : Text) (c : ℕ) (o : Text)
    → call_open format ≡ c ∷ o
    → trim_end text ≡ pre ++ (c ∷ (o ++ rest))
    → rfind (o ++ rest) (c ∷ o) ≡ none
    → find_close rest (call_close format) ≡ none
    → ends_mid_call text format ≡ true
unfolding ends_mid_call
ends_mid_call-unclosed format text pre rest c o opens e last unclosed =
    let whole : Text = pre ++ (c ∷ (o ++ rest)) in
    let severed : is_unclosed whole (call_open format) (call_close format) ≡ true = rw opens (
      is_unclosed_lem whole (c ∷ o) (call_close format) rest (length pre)
        (rfind_last pre c o rest last) (drop-past pre (c ∷ o) rest) unclosed) in
    let begun : is_empty (call_open format) ≡ false = rw opens in
    rw (begun, ends_mid_call, e, severed)

is_unclosed_inv :
    (text opener closer : Text)
    → is_unclosed text opener closer ≡ true
    → (i : ℕ) × (rfind text opener ≡ some i)
      × ((closer ≡ []) ⊎ (find_close (drop (i + length opener) text) closer ≡ none))
unfolding is_unclosed
is_unclosed_inv text opener closer h = elim (Option-cases (rfind text opener)) [
  | inl e ↦ absurd (ground (arith, rw (e, is_unclosed) at h))
  | inr (i, e) ↦ elim (Bool-cases (is_empty closer)) [
    | inl y ↦ (i, e, inl (empty_nil closer y))
    | inr n ↦ elim (Option-cases (find_close (drop (i + length opener) text) closer)) [
      | inl f ↦ (i, e, inr f)
      | inr (x, f) ↦ absurd (ground (arith, rw (e, n, f, is_unclosed) at h))
    ]
  ]
]
  where
    empty_nil : (s : Text) → is_empty s ≡ true → s ≡ []
    empty_nil [] y = refl
    empty_nil (c ∷ s) y = cc

ends_with_prefix_inv :
    (text opener : Text) (n : ℕ)
    → ends_with_prefix text opener n ≡ true
    → (k : ℕ) × (1 ≤ k) × (k ≤ n) × (ends_with text (take k opener) ≡ true)
unfolding ends_with_prefix
ends_with_prefix_inv text opener zero h = absurd (ground arith)
ends_with_prefix_inv text opener (suc n) h =
    elim (Bool-cases (ends_with text (take (suc n) opener))) [
      | inl y ↦ (suc n, omega arith, omega arith, y)
      | inr m ↦
          let (k, lo, hi, e) = ends_with_prefix_inv text opener n (ground arith) in
          (k, lo, omega arith, e)
    ]

-- If `ends_mid_call` holds of a text, then without the white space at its end, which may be part
-- of a closer, the text has a last opener with no closer found behind it, or the format has no
-- closer, or the text ends in a proper beginning of the opener.
pub ends_mid_call_sound :
    (format : ToolFormat) (text : Text)
    → ends_mid_call text format ≡ true
    → ((i : ℕ) × (rfind (trim_end text) (call_open format) ≡ some i)
        × ((call_close format ≡ [])
            ⊎ (find_close (drop (i + length (call_open format)) (trim_end text)) (call_close format)
                ≡ none)))
      ⊎ ((k : ℕ) × (1 ≤ k)
          × (k < length (call_open format))
          × (ends_with (trim_end text) (take k (call_open format)) ≡ true))
unfolding ends_mid_call
ends_mid_call_sound format text h = elim (Bool-cases (is_empty (call_open format))) [
  | inl y ↦ absurd (ground (arith, rw (y, ends_mid_call) at h))
  | inr n ↦ elim (Bool-cases (is_unclosed (trim_end text) (call_open format) (call_close format))) [
    | inl u ↦ inl (is_unclosed_inv (trim_end text) (call_open format) (call_close format) u)
    | inr u ↦
        let (k, lo, hi, e) =
          ends_with_prefix_inv (trim_end text) (call_open format) (proper (call_open format))
            (prefix_of (rw (n, u, ends_mid_call) at h)) in
        inr (k, lo, omega (arith, proper-lt (call_open format) n), e)
  ]
]
  where
    prefix_of : {b : Bool} → (false || b) ≡ true → b ≡ true
    prefix_of h = h

    proper-lt : (s : Text) → is_empty s ≡ false → proper s < length s
    proper-lt [] m = absurd (ground arith)
    proper-lt (c ∷ s) m = omega arith
