-- ===== src/Prelude/Lists.antt =====
-- Lists measured by native numbers, Boolean membership and tests over lists.
use Prim.Native.Nat.{ℕ, zero, suc, ◌+◌, ◌≤◌, min}
use mathlib.Core.Path.{◌≡◌, refl}
use mathlib.Core.Bool.{Bool, true, false, ◌&&◌, ◌||◌}
use mathlib.Core.List.{List, [], ◌∷◌, ◌++◌}
use native.Mathlib.Omega.{arith}
use podmesh.Prelude.Tests.{Eq, ◌==◌, eq_lem, if◌then◌else◌}

module _ {ℓ} {A : Type ℓ} where
  abbrev pub length : List A → ℕ
  length [] = 0
  length (x ∷ xs) = suc (length xs)

  abbrev pub all : (A → Bool) → List A → Bool
  all p [] = true
  all p (x ∷ xs) = p x && all p xs

  abbrev pub any : (A → Bool) → List A → Bool
  any p [] = false
  any p (x ∷ xs) = p x || any p xs

  -- `VecDeque::retain` and `Iterator::filter`.
  abbrev pub retain : (A → Bool) → List A → List A
  retain p [] = []
  retain p (x ∷ xs) = let rest = retain p xs in if p x then x ∷ rest else rest

  abbrev pub take : ℕ → List A → List A
  take zero xs = []
  take (suc n) [] = []
  take (suc n) (x ∷ xs) = x ∷ take n xs

  pub length-append : (xs ys : List A) → length (xs ++ ys) ≡ length xs + length ys
  length-append [] ys = omega arith
  length-append (x ∷ xs) ys = omega (arith, length-append xs ys)

  pub length-retain-le : (p : A → Bool) (xs : List A) → length (retain p xs) ≤ length xs
  length-retain-le p [] = omega arith
  length-retain-le p (x ∷ xs) = ground (arith, length-retain-le p xs)

  pub length-take : (n : ℕ) (xs : List A) → length (take n xs) ≡ min n (length xs)
  length-take zero xs = omega arith
  length-take (suc n) [] = omega arith
  length-take (suc n) (x ∷ xs) = omega (arith, length-take n xs)

module _ {ℓ} {A : Type ℓ} ⦃e : Eq A⦄ where
  abbrev pub elem : A → List A → Bool
  elem a [] = false
  elem a (x ∷ xs) = (x == a) || elem a xs

  -- A test that all pass is passed by each.
  pub all-elem :
      (p : A → Bool) (xs : List A) (a : A) → all p xs ≡ true → elem a xs ≡ true → p a ≡ true
  all-elem p [] a h e = absurd (cc)
  all-elem p (x ∷ xs) a h e = ground (arith, eq_lem x a, all-elem p xs a)

  -- No key stands twice.
  abbrev pub Distinct : List A → Type 0
  Distinct [] = Unit {0}
  Distinct (x ∷ xs) = (elem x xs ≡ false) × Distinct xs

  pub elem-append : (a : A) (xs ys : List A) → elem a (xs ++ ys) ≡ (elem a xs || elem a ys)
  elem-append a [] ys = refl
  elem-append a (x ∷ xs) ys = ground (arith, elem-append a xs ys)

  pub append-Distinct :
      (a : A) (xs : List A) → elem a xs ≡ false → Distinct xs → Distinct (xs ++ a ∷ [])
  append-Distinct a [] h d = (refl, tt)
  append-Distinct a (x ∷ xs) h d = ground (
    arith,
    elem-append x xs (a ∷ []),
    append-Distinct a xs,
    e.test_decides x a,
    e.test_decides a x,
  )

  pub elem-retain : (p : A → Bool) (a : A) (xs : List A) → elem a (retain p xs) ≡ (elem a xs && p a)
  elem-retain p a [] = refl
  elem-retain p a (x ∷ xs) = ground (arith, elem-retain p a xs, e.test_decides x a)

  pub retain-Distinct : (p : A → Bool) (xs : List A) → Distinct xs → Distinct (retain p xs)
  retain-Distinct p [] d = tt
  retain-Distinct p (x ∷ xs) d = ground (arith, elem-retain p x xs, retain-Distinct p xs)
