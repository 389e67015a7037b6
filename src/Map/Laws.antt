-- ===== src/Map/Laws.antt =====
-- What lookups show after each operation of a map, and that keys stay unique.
use podmesh.Prelude.{
  subst, ◌≡◌, refl, Bool, true, none, some, [], ◌∷◌, Eq, ◌==◌, if◌then◌else◌, arith, Bool-cases,
  inl, inr,
}
use podmesh.Map.{Map, get, remove, insert, retain_entries, map_values, UniqueKeys, All}

module _ {ℓ κ} {K : Type ℓ} ⦃e : Eq K⦄ {V : Type κ} where
  pub get-remove : (m : Map K V) (k j : K) → get (remove m k) j ≡ (if k == j then none else get m j)
  unfolding get remove
  get-remove [] k j = ground arith
  get-remove ((i, v) ∷ m) k j =
      ground (arith, get-remove m k j, e.test_decides i k, e.test_decides i j, e.test_decides k j)

  pub get-insert :
      (m : Map K V) (k j : K) (v : V) → get (insert m k v) j ≡ (if k == j then some v else get m j)
  unfolding get insert
  get-insert m k j v = ground (arith, get-remove m k j)

  pub remove_absent : (m : Map K V) (k : K) → get m k ≡ none → remove m k ≡ m
  unfolding get remove
  remove_absent [] k h = refl
  remove_absent ((j, v) ∷ m) k h = ground (arith, remove_absent m k)

  pub remove-UniqueKeys : (m : Map K V) (k : K) → UniqueKeys m → UniqueKeys (remove m k)
  unfolding remove
  remove-UniqueKeys [] k u = tt
  remove-UniqueKeys ((j, v) ∷ m) k u = ground (arith, remove-UniqueKeys m k u.1, get-remove m k j)

  pub insert-UniqueKeys : (m : Map K V) (k : K) (v : V) → UniqueKeys m → UniqueKeys (insert m k v)
  unfolding insert
  insert-UniqueKeys m k v u =
      (ground (arith, get-remove m k k, e.test_decides k k), remove-UniqueKeys m k u)

  pub retain_entries_absent :
      (p : K → V → Bool) (m : Map K V) (k : K) → get m k ≡ none → get (retain_entries p m) k ≡ none
  unfolding get retain_entries
  retain_entries_absent p [] k h = refl
  retain_entries_absent p ((j, v) ∷ m) k h = ground (arith, retain_entries_absent p m k)

  pub retain_entries-UniqueKeys :
      (p : K → V → Bool) (m : Map K V) → UniqueKeys m → UniqueKeys (retain_entries p m)
  unfolding retain_entries
  retain_entries-UniqueKeys p [] u = tt
  retain_entries-UniqueKeys p ((j, v) ∷ m) u =
      ground (arith, retain_entries-UniqueKeys p m, retain_entries_absent p m j)

  -- What a `retain` leaves at a key.
  pub get-retain_entries :
      (p : K → V → Bool) (m : Map K V) (k : K) (v : V)
      → UniqueKeys m
      → get m k ≡ some v
      → get (retain_entries p m) k ≡ (if p k v then some v else none)
  unfolding get retain_entries
  get-retain_entries p [] k v u h = cc
  get-retain_entries p ((j, w) ∷ m) k v u h =
      ground
        (arith, get-retain_entries p m k v u.1, retain_entries_absent p m j, e.test_decides j k)

  pub get_from_retained :
      (p : K → V → Bool) (m : Map K V) (k : K) (v : V)
      → get (retain_entries p m) k ≡ some v
      → UniqueKeys m
      → get m k ≡ some v
  unfolding get retain_entries
  get_from_retained p [] k v h u = h
  get_from_retained p ((j, w) ∷ m) k v h u =
      ground (arith, get_from_retained p m k v, retain_entries_absent p m j, e.test_decides j k)

  pub remove-All {ι} : (P : V → Type ι) (m : Map K V) (k : K) → All P m → All P (remove m k)
  unfolding remove
  remove-All P [] k a = tt
  remove-All P ((j, v) ∷ m) k a = elim (Bool-cases (j == k)) [
    | inl hit ↦ rw (hit, remove) (remove-All P m k a.1)
    | inr miss ↦ rw (miss, remove) (a.0, remove-All P m k a.1)
  ]

  pub insert-All {ι} :
      (P : V → Type ι) (m : Map K V) (k : K) (v : V) → P v → All P m → All P (insert m k v)
  unfolding insert
  insert-All P m k v p a = (p, remove-All P m k a)

  pub retain_entries-All {ι} :
      (P : V → Type ι) (p : K → V → Bool) (m : Map K V) → All P m → All P (retain_entries p m)
  unfolding retain_entries
  retain_entries-All P p [] a = tt
  retain_entries-All P p ((j, v) ∷ m) a = elim (Bool-cases (p j v)) [
    | inl hit ↦ rw (hit, retain_entries) (a.0, retain_entries-All P p m a.1)
    | inr miss ↦ rw (miss, retain_entries) (retain_entries-All P p m a.1)
  ]

  pub get-All {ι} :
      (P : V → Type ι) (m : Map K V) (k : K) (v : V) → All P m → get m k ≡ some v → P v
  unfolding get
  get-All P [] k v a h = absurd (cc)
  get-All P ((j, w) ∷ m) k v a h = elim (Bool-cases (j == k)) [
    | inl hit ↦ found hit
    | inr miss ↦ get-All P m k v a.1 (ground arith)
  ]
    where
      found : (j == k) ≡ true → P v
      found hit = subst P (ground arith) a.0

  pub get-map_values {ι} :
      {W : Type ι} (f : V → W) (m : Map K V) (k : K)
      → get (map_values f m) k ≡ elim (get m k) [ none ↦ none | some v ↦ some (f v) ]
  unfolding get map_values
  get-map_values f [] k = refl
  get-map_values f ((j, v) ∷ m) k = ground (arith, get-map_values f m k)

  pub map_values-UniqueKeys {ι} :
      {W : Type ι} (f : V → W) (m : Map K V) → UniqueKeys m → UniqueKeys (map_values f m)
  unfolding map_values
  map_values-UniqueKeys f [] u = tt
  map_values-UniqueKeys f ((k, v) ∷ m) u =
      (rw (get-map_values f m k, u.0), map_values-UniqueKeys f m u.1)
