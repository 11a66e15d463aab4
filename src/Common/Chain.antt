-- ===== src/Common/Chain.antt =====
-- The operator `?` on an `Option`, and an early return of `None`.
use rampipe.Common.Tests.{or_else}
use mathlib.Core.Path.{◌≡◌, refl}
use mathlib.Core.Logic.{◌⊎◌, inl, inr}
use mathlib.Core.Bool.{Bool, true, false, ◌&&◌}
use mathlib.Core.Option.{Option, none, some}

infixl 5 ◌>>=◌ ◌>>◌
abbrev pub ◌>>=◌ {ℓ κ} : {A : Type ℓ} {B : Type κ} → Option A → (A → Option B) → Option B
none >>= f = none
some a >>= f = f a

abbrev pub ◌>>◌ {ℓ} : {B : Type ℓ} → Option (Unit {0}) → Option B → Option B
m >> k = m >>= λ _. k

abbrev pub guard : Bool → Option (Unit {0})
guard true = some tt
guard false = none

-- What a chain that ends with a value went through.
pub >>=-eq-some {ℓ κ} :
    {A : Type ℓ} {B : Type κ} (m : Option A) (f : A → Option B) {b : B}
    → (m >>= f) ≡ some b
    → (a : A) × (m ≡ some a) × (f a ≡ some b)
>>=-eq-some none f h = cc
>>=-eq-some (some a) f h = (a, refl, h)

pub guard-some {ℓ} :
    {B : Type ℓ} (test : Bool) (k : Option B) {b : B}
    → (guard test >> k) ≡ some b
    → (test ≡ true) × (k ≡ some b)
guard-some true k h = (refl, h)
guard-some false k h = cc

-- The same, as a rule: what is to be shown may suppose the value.
pub >>=-cases {ℓ κ ρ} :
    {A : Type ℓ} {B : Type κ} {P : Type ρ} (m : Option A) (f : A → Option B) {b : B}
    → (m >>= f) ≡ some b
    → ((a : A) → m ≡ some a → f a ≡ some b → P)
    → P
>>=-cases none f h k = absurd (cc)
>>=-cases (some a) f h k = k a refl h

pub guard-cases {ℓ ρ} :
    {B : Type ℓ} {P : Type ρ} (test : Bool) (k : Option B) {b : B}
    → (guard test >> k) ≡ some b
    → (test ≡ true → k ≡ some b → P)
    → P
guard-cases true k h next = next refl h
guard-cases false k h next = absurd (cc)

pub some-inj {ℓ} : {A : Type ℓ} {a b : A} → some a ≡ some b → a ≡ b
some-inj h = cc

pub or_else-some {ℓ} :
    {A : Type ℓ} (o p : Option A) {a : A} → or_else o p ≡ some a → (o ≡ some a) ⊎ (p ≡ some a)
or_else-some none p h = inr h
or_else-some (some b) p h = inl h

pub &&-true : (a b : Bool) → (a && b) ≡ true → (a ≡ true) × (b ≡ true)
&&-true true b h = (refl, h)
&&-true false b h = cc
