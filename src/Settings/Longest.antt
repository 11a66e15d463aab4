-- ===== src/Settings/Longest.antt =====
-- model_settings.rs: `entry_for`, by the keys that occur in the file name.
use rampipe.Common.{
  ℕ, ◌≤◌, ◌≡◌, refl, ap, sym, subst, ◌⊎◌, inl, inr, Bool, true, List, [], ◌∷◌, ◌++◌, Option, none,
  some, arith, if◌then◌else◌, ltb, or_else, Bool-cases,
}
use rampipe.Common.Text.{Text, len, contains}
use rampipe.Settings.{Entry, ModelSettings, longer, longest, entry_of, entry_for}

-- The best so far, which the search never loses against a longer one.
abbrev AtLeast : ℕ → Option (Text × Entry) → Type 0
AtLeast n none = ⊥
AtLeast n (some b) = n ≤ len b.0

longer-AtLeast :
    (n : ℕ) (best : Option (Text × Entry)) (e : Text × Entry)
    → AtLeast n best
    → AtLeast n (longer best e)
longer-AtLeast n none e h = absurd h
longer-AtLeast n (some b) e h = elim (Bool-cases (ltb (len e.0) (len b.0))) [
  | inl y ↦ rw y h
  | inr k ↦ rw k (ground (arith, k))
]

longer_self : (best : Option (Text × Entry)) (e : Text × Entry) → AtLeast (len e.0) (longer best e)
longer_self none e = omega arith
longer_self (some b) e = elim (Bool-cases (ltb (len e.0) (len b.0))) [
  | inl y ↦ rw y (ground (arith, y))
  | inr k ↦ rw k (omega arith)
]

longest-AtLeast :
    (name : Text) (n : ℕ) (best : Option (Text × Entry)) (es : List (Text × Entry))
    → AtLeast n best
    → AtLeast n (longest name best es)
unfolding longest
longest-AtLeast name n best [] h = h
longest-AtLeast name n best (e ∷ es) h = elim (Bool-cases (contains name e.0)) [
  | inl y ↦ rw y (longest-AtLeast name n (longer best e) es (longer-AtLeast n best e h))
  | inr k ↦ rw k (longest-AtLeast name n best es h)
]

longest-past :
    (name : Text) (best : Option (Text × Entry)) (front back : List (Text × Entry)) (k : Text)
    (e : Entry)
    → contains name k ≡ true
    → AtLeast (len k) (longest name best (front ++ (k, e) ∷ back))
unfolding longest
longest-past name best [] back k e h =
    subst
      (λ (b : Bool). AtLeast (len k) (longest name (if b then longer best (k, e) else best) back))
      (sym h) (longest-AtLeast name (len k) (longer best (k, e)) back (longer_self best (k, e)))
longest-past name best (f ∷ front) back k e h =
    longest-past name (if contains name f.0 then longer best f else best) front back k e h

-- An entry of the list whose key occurs in the name.
abbrev pub Matches : Text → List (Text × Entry) → Text × Entry → Type 0
Matches name es (k, e) =
    (contains name k ≡ true)
    × (front : List (Text × Entry)) × (back : List (Text × Entry)) × (es ≡ front ++ (k, e) ∷ back)

Matches-later :
    (name : Text) (d e : Text × Entry) (es : List (Text × Entry))
    → Matches name es e
    → Matches name (d ∷ es) e
Matches-later name d (k, e) es (c, front, back, at) = (c, d ∷ front, back, ap (◌∷◌ d) at)

longer_cases :
    (best : Option (Text × Entry)) (e x : Text × Entry)
    → longer best e ≡ some x
    → (best ≡ some x) ⊎ (e ≡ x)
longer_cases none e x h = inr (ground arith)
longer_cases (some b) e x h = elim (Bool-cases (ltb (len e.0) (len b.0))) [
  | inl y ↦ inl (rw y at h)
  | inr k ↦
      let h' : ◌≡◌ {A = Option (Text × Entry)} (some e) (some x) = rw k at h in inr (ground arith)
]

longest-Matches :
    (name : Text) (best : Option (Text × Entry)) (es : List (Text × Entry)) (x : Text × Entry)
    → longest name best es ≡ some x
    → (best ≡ some x) ⊎ Matches name es x
unfolding longest
longest-Matches name best [] x h = inl h
longest-Matches name best ((k, e) ∷ es) x h = elim (Bool-cases (contains name k)) [
  | inr n ↦ elim (longest-Matches name best es x (rw n at h)) [
    | inl b ↦ inl b
    | inr m ↦ inr (Matches-later name (k, e) x es m)
  ]
  | inl y ↦ elim (longest-Matches name (longer best (k, e)) es x (rw y at h)) [
    | inr m ↦ inr (Matches-later name (k, e) x es m)
    | inl b ↦ elim (longer_cases best (k, e) x b) [
      | inl b' ↦ inl b'
      | inr same ↦
          inr (subst (λ (z : Text × Entry). Matches name ((k, e) ∷ es) z) same (y, [], es, refl))
    ]
  ]
]

-- If any key of the settings occurs in the file name, `entry_for` gives the entry of a key that
-- occurs in it and is at least as long.
pub entry_for_longest :
    (s : ModelSettings) (name k : Text) (e : Entry) (front back : List (Text × Entry))
    → s.models ≡ front ++ (k, e) ∷ back
    → contains name k ≡ true
    → (k' : Text) × (e' : Entry) × Matches name s.models (k', e')
      × (len k ≤ len k')
      × (entry_for s (some name) ≡ some e')
unfolding entry_for
entry_for_longest s name k e front back at h =
    found (longest name none s.models) refl (rw at (longest-past name none front back k e h))
  where
    found :
        (o : Option (Text × Entry))
        → longest name none s.models ≡ o
        → AtLeast (len k) o
        → (k' : Text) × (e' : Entry) × Matches name s.models (k', e')
          × (len k ≤ len k')
          × (or_else (entry_of (longest name none s.models)) s.default ≡ some e')
    found none q a = absurd a
    found (some (k', e')) q a = elim (longest-Matches name none s.models (k', e') q) [
      | inl n ↦ absurd (ground arith)
      | inr m ↦ (k', e', m, a, ap (λ o. or_else (entry_of o) s.default) q)
    ]
