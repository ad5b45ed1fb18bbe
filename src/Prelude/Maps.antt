-- ===== src/Prelude/Maps.antt =====
-- A `HashMap` with integer keys, as an association list with one entry for each key.
use Prim.Native.Nat.{ℕ, ◌≤◌, ◌<◌}
use mathlib.Core.Path.{◌≡◌, refl}
use mathlib.Core.Bool.{Bool}
use mathlib.Core.Option.{Option, none, some}
use mathlib.Core.List.{List, [], ◌∷◌}
use native.Mathlib.Omega.{arith}
use aurelia.Prelude.Tests.{◌==◌, if◌then◌else◌, is_some}
use aurelia.Prelude.Lists.{length}

abbrev pub Map {ℓ} : Type ℓ → Type ℓ
Map V = List (ℕ × V)

module _ {ℓ} {V : Type ℓ} where
  unfoldable pub get : Map V → ℕ → Option V
  get [] k = none
  get ((j, v) ∷ m) k = if j == k then some v else get m k

  unfoldable pub remove : Map V → ℕ → Map V
  remove [] k = []
  remove ((j, v) ∷ m) k = let rest = remove m k in if j == k then rest else (j, v) ∷ rest

  unfoldable pub insert : Map V → ℕ → V → Map V
  insert m k v = (k, v) ∷ remove m k

  abbrev pub contains_key : Map V → ℕ → Bool
  contains_key m k = is_some (get m k)

  pub get-remove : (m : Map V) (k j : ℕ) → get (remove m k) j ≡ (if k == j then none else get m j)
  unfolding get remove
  get-remove [] k j = ground arith
  get-remove ((i, v) ∷ m) k j = ground (arith, get-remove m k j)

  pub get-insert :
      (m : Map V) (k : ℕ) (v : V) (j : ℕ)
      → get (insert m k v) j ≡ (if k == j then some v else get m j)
  unfolding get insert
  get-insert m k v j = ground (arith, get-remove m k j)

  pub get-nil : (k : ℕ) → get [] k ≡ none
  unfolding get
  get-nil k = refl

  pub length-remove-le : (m : Map V) (k : ℕ) → length (remove m k) ≤ length m
  unfolding remove
  length-remove-le [] k = omega arith
  length-remove-le ((j, v) ∷ m) k = ground (arith, length-remove-le m k)

  pub remove_missing : (m : Map V) (k : ℕ) → get m k ≡ none → remove m k ≡ m
  unfolding get remove
  remove_missing [] k h = refl
  remove_missing ((j, v) ∷ m) k h = ground (arith, remove_missing m k)

  -- Removing a key that is present shortens the map.
  pub length-remove-lt :
      (m : Map V) (k : ℕ) (v : V) → get m k ≡ some v → length (remove m k) < length m
  unfolding get remove
  length-remove-lt [] k v h = cc
  length-remove-lt ((j, w) ∷ m) k v h = ground (arith, length-remove-le m k, length-remove-lt m k v)
