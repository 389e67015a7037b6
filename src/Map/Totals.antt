-- ===== src/Map/Totals.antt =====
-- Sizes of maps and sums over their values.
use podmesh.Prelude.{
  if◌then◌else◌, ap, ap, refl, ℕ, suc, ◌+◌, ◌≤◌, ◌≡◌, Bool, none, some, [], ◌∷◌, Eq, arith,
}
use podmesh.Map.{Map, size, get, remove, insert, retain_entries, map_values, total, UniqueKeys}
use podmesh.Map.Laws.{remove_absent}

module _ {ℓ κ} {K : Type ℓ} ⦃e : Eq K⦄ {V : Type κ} where
  pub total-remove :
      (f : V → ℕ) (m : Map K V) (k : K) (v : V)
      → UniqueKeys m
      → get m k ≡ some v
      → total f m ≡ f v + total f (remove m k)
  unfolding get remove total
  total-remove f [] k v u h = cc
  total-remove f ((j, w) ∷ m) k v u h =
      ground (arith, total-remove f m k v u.1, remove_absent m k, e.test_decides j k)

  pub size-remove :
      (m : Map K V) (k : K) (v : V)
      → UniqueKeys m
      → get m k ≡ some v
      → size m ≡ suc (size (remove m k))
  unfolding get remove
  size-remove [] k v u h = cc
  size-remove ((j, w) ∷ m) k v u h =
      ground (arith, size-remove m k v u.1, remove_absent m k, e.test_decides j k)

  pub size-remove-le : (m : Map K V) (k : K) → size (remove m k) ≤ size m
  unfolding remove
  size-remove-le [] k = omega arith
  size-remove-le ((j, v) ∷ m) k = ground (arith, size-remove-le m k)

  pub total-remove-le : (f : V → ℕ) (m : Map K V) (k : K) → total f (remove m k) ≤ total f m
  unfolding remove total
  total-remove-le f [] k = omega arith
  total-remove-le f ((j, v) ∷ m) k = ground (arith, total-remove-le f m k)

  -- A new key adds its value to a sum.
  pub total-insert_new :
      (f : V → ℕ) (m : Map K V) (k : K) (v : V)
      → get m k ≡ none
      → total f (insert m k v) ≡ f v + total f m
  unfolding insert total
  total-insert_new f m k v h = rw (remove_absent m k h)

  pub size-insert_new :
      (m : Map K V) (k : K) (v : V) → get m k ≡ none → size (insert m k v) ≡ suc (size m)
  unfolding insert
  size-insert_new m k v h = rw (remove_absent m k h)

  pub size-insert-le : (m : Map K V) (k : K) (v : V) → size (insert m k v) ≤ suc (size m)
  unfolding insert
  size-insert-le m k v = omega (arith, size-remove-le m k)

  -- A new value for a key that is there replaces the old one in a sum.
  pub total-insert_old :
      (f : V → ℕ) (m : Map K V) (k : K) (v w : V)
      → UniqueKeys m
      → get m k ≡ some v
      → total f (insert m k w) + f v ≡ f w + total f m
  unfolding insert total
  total-insert_old f m k v w u h = omega (arith, total-remove f m k v u h)

  pub size-insert_old :
      (m : Map K V) (k : K) (v w : V)
      → UniqueKeys m
      → get m k ≡ some v
      → size (insert m k w) ≡ size m
  unfolding insert
  size-insert_old m k v w u h = omega (arith, size-remove m k v u h)

module _ {ℓ κ} {K : Type ℓ} {V : Type κ} where
  pub total-retain_entries-le :
      (f : V → ℕ) (p : K → V → Bool) (m : Map K V) → total f (retain_entries p m) ≤ total f m
  unfolding retain_entries total
  total-retain_entries-le f p [] = omega arith
  total-retain_entries-le f p ((k, v) ∷ m) = ground (arith, total-retain_entries-le f p m)

  pub size-retain_entries-le : (p : K → V → Bool) (m : Map K V) → size (retain_entries p m) ≤ size m
  unfolding retain_entries
  size-retain_entries-le p [] = omega arith
  size-retain_entries-le p ((k, v) ∷ m) = ground (arith, size-retain_entries-le p m)

  pub size-map_values {ι} : {W : Type ι} (f : V → W) (m : Map K V) → size (map_values f m) ≡ size m
  unfolding map_values
  size-map_values f [] = refl
  size-map_values f ((k, v) ∷ m) = ap suc (size-map_values f m)

module _ {ℓ κ} {K : Type ℓ} ⦃e : Eq K⦄ {V : Type κ} where
  pub total-insert-le :
      (f : V → ℕ) (m : Map K V) (k : K) (v : V) → total f (insert m k v) ≤ f v + total f m
  unfolding insert total
  total-insert-le f m k v = omega (arith, total-remove-le f m k)

  pub size-retain_entries-remove :
      (p : K → V → Bool) (m : Map K V) (k : K)
      → size (retain_entries p (remove m k)) ≤ size (retain_entries p m)
  unfolding retain_entries remove
  size-retain_entries-remove p [] k = omega arith
  size-retain_entries-remove p ((j, v) ∷ m) k = ground (arith, size-retain_entries-remove p m k)

  -- Another entry counts at most once among those that pass a test, and only if it passes.
  pub size-retain_entries-insert :
      (p : K → V → Bool) (m : Map K V) (k : K) (v : V)
      → size (retain_entries p (insert m k v))
        ≤ (if p k v then suc (size (retain_entries p m)) else size (retain_entries p m))
  unfolding retain_entries insert
  size-retain_entries-insert p m k v = ground (arith, size-retain_entries-remove p m k)

  pub size-retain_entries-retain :
      (p q : K → V → Bool) (m : Map K V)
      → size (retain_entries p (retain_entries q m)) ≤ size (retain_entries p m)
  unfolding retain_entries
  size-retain_entries-retain p q [] = omega arith
  size-retain_entries-retain p q ((j, v) ∷ m) = ground (arith, size-retain_entries-retain p q m)

  pub total-insert :
      (f : V → ℕ) (m : Map K V) (k : K) (v : V)
      → total f (insert m k v) ≡ f v + total f (remove m k)
  unfolding insert total
  total-insert f m k v = refl
