-- ===== src/Map.antt =====
-- `HashMap`, `HashSet` and `BTreeMap` as association lists with one entry for each key. The order of
-- the list stands for one order of iteration; no theorem depends on which.
pub mod Laws
pub mod Totals
use podmesh.Prelude.{
  ℕ, ◌+◌, ◌≡◌, Bool, ◌&&◌, Option, none, some, List, [], ◌∷◌, Eq, ◌==◌, if◌then◌else◌, length,
  is_some,
}

abbrev pub Map {ℓ κ} : Type ℓ → Type κ → Type (ℓ ⊔ κ)
Map K V = List (K × V)

module _ {ℓ κ} {K : Type ℓ} {V : Type κ} where
  -- `len`
  abbrev pub size : Map K V → ℕ
  size m = length m

  -- `retain`, with the test on the key and the value
  unfoldable pub retain_entries : (K → V → Bool) → Map K V → Map K V
  retain_entries p [] = []
  retain_entries p ((k, v) ∷ m) =
      let rest = retain_entries p m in if p k v then (k, v) ∷ rest else rest

  unfoldable pub map_values {ι} : {W : Type ι} → (V → W) → Map K V → Map K W
  map_values f [] = []
  map_values f ((k, v) ∷ m) = (k, f v) ∷ map_values f m

  -- the sum of `f` over `values()`
  unfoldable pub total : (V → ℕ) → Map K V → ℕ
  total f [] = 0
  total f ((k, v) ∷ m) = f v + total f m

  -- a property of every value
  abbrev pub All {ι} : (V → Type ι) → Map K V → Type ι
  All P [] = Unit
  All P ((k, v) ∷ m) = P v × All P m

module _ {ℓ κ} {K : Type ℓ} ⦃e : Eq K⦄ {V : Type κ} where
  unfoldable pub get : Map K V → K → Option V
  get [] k = none
  get ((j, v) ∷ m) k = if j == k then some v else get m k

  abbrev pub contains_key : Map K V → K → Bool
  contains_key m k = is_some (get m k)

  unfoldable pub remove : Map K V → K → Map K V
  remove [] k = []
  remove ((j, v) ∷ m) k = let rest = remove m k in if j == k then rest else (j, v) ∷ rest

  unfoldable pub insert : Map K V → K → V → Map K V
  insert m k v = (k, v) ∷ remove m k

  abbrev pub UniqueKeys : Map K V → Type κ
  UniqueKeys [] = Unit
  UniqueKeys ((k, v) ∷ m) = (get m k ≡ none) × UniqueKeys m
