-- ===== src/Common/Map.antt =====
-- A `HashMap` as an association list: a key is held once, and the order carries no meaning.
use rampipe.Common.Tests.{if◌then◌else◌, Eq, ◌==◌}
use rampipe.Common.Lists.{length}
use Prim.Native.Nat.{◌≤◌, ◌<◌}
use mathlib.Core.Path.{◌≡◌}
use mathlib.Core.Logic.{◌≢◌}
use mathlib.Core.Option.{Option, none, some}
use mathlib.Core.List.{List, [], ◌∷◌}
use native.Mathlib.Omega.{arith}

module _ {ℓ κ} {K : Type ℓ} {V : Type κ} ⦃e : Eq K⦄ where
  unfoldable pub get : K → List (K × V) → Option V
  get k [] = none
  get k ((j, v) ∷ m) = if j == k then some v else get k m

  unfoldable pub remove : K → List (K × V) → List (K × V)
  remove k [] = []
  remove k ((j, v) ∷ m) = let rest = remove k m in if j == k then rest else (j, v) ∷ rest

  unfoldable pub insert : K → V → List (K × V) → List (K × V)
  insert k v m = (k, v) ∷ remove k m

  pub get-remove :
      (k j : K) (m : List (K × V)) → get j (remove k m) ≡ (if k == j then none else get j m)
  unfolding get remove
  get-remove k j [] = ground arith
  get-remove k j ((i, w) ∷ m) =
      ground (arith, get-remove k j m, e.agrees k j, e.agrees i k, e.agrees i j)

  pub get-insert :
      (k j : K) (v : V) (m : List (K × V))
      → get j (insert k v m) ≡ (if k == j then some v else get j m)
  unfolding get insert
  get-insert k j v m = ground (arith, get-remove k j m)

  pub get-insert_self : (k : K) (v : V) (m : List (K × V)) → get k (insert k v m) ≡ some v
  get-insert_self k v m = ground (arith, get-insert k k v m, e.agrees k k)

  pub get-remove_self : (k : K) (m : List (K × V)) → get k (remove k m) ≡ none
  get-remove_self k m = ground (arith, get-remove k k m, e.agrees k k)

  pub get-insert_ne : (k j : K) (v : V) (m : List (K × V)) → k ≢ j → get j (insert k v m) ≡ get j m
  get-insert_ne k j v m h = ground (arith, get-insert k j v m, e.agrees k j)

  pub get-remove_ne : (k j : K) (m : List (K × V)) → k ≢ j → get j (remove k m) ≡ get j m
  get-remove_ne k j m h = ground (arith, get-remove k j m, e.agrees k j)

  -- Each key is held once.
  abbrev pub Distinct : List (K × V) → Type κ
  Distinct [] = Unit
  Distinct ((k, v) ∷ m) = (get k m ≡ none) × Distinct m

  pub remove-Distinct : (k : K) (m : List (K × V)) → Distinct m → Distinct (remove k m)
  unfolding remove
  remove-Distinct k [] h = tt
  remove-Distinct k ((j, v) ∷ m) h = ground (arith, remove-Distinct k m h.1, get-remove k j m)

  pub insert-Distinct : (k : K) (v : V) (m : List (K × V)) → Distinct m → Distinct (insert k v m)
  unfolding insert
  insert-Distinct k v m h = (get-remove_self k m, remove-Distinct k m h)

  pub length-remove_le : (k : K) (m : List (K × V)) → length (remove k m) ≤ length m
  unfolding remove
  length-remove_le k [] = omega arith
  length-remove_le k ((j, v) ∷ m) = ground (arith, length-remove_le k m)

  -- Removing a key that is there makes the map smaller.
  pub length-remove_lt :
      (k : K) (v : V) (m : List (K × V)) → get k m ≡ some v → length (remove k m) < length m
  unfolding get remove
  length-remove_lt k v [] h = ground arith
  length-remove_lt k v ((j, w) ∷ m) h = ground (arith, length-remove_le k m, length-remove_lt k v m)
