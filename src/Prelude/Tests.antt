-- ===== src/Prelude/Tests.antt =====
-- Boolean tests on numbers and keys, the conditional, and case splits that keep an equation.
use Prim.Native.Nat.{ℕ, ◌+◌, ◌-◌, ◌^◌, min, compare, Ordering}
use Prim.Native.String.{String}
use mathlib.Core.Path.{◌≡◌, refl}
use mathlib.Core.Logic.{◌↔◌, ◌⊎◌, inl, inr}
use mathlib.Core.Bool.{Bool, true, false, ◌&&◌}
use mathlib.Core.Option.{Option, none, some}
use mathlib.Core.List.{List, [], ◌∷◌}
use native.Mathlib.Omega.{arith}
use text.Mathlib.Text.{◌==◌ as text_eq}
use text.Mathlib.TextEquality.{eq_iff}

abbrev pub ltb : ℕ → ℕ → Bool
ltb a b = elim (compare a b) [ Ordering.lt ↦ true | _ ↦ false ]

abbrev pub leb : ℕ → ℕ → Bool
leb a b = elim (compare a b) [ Ordering.gt ↦ false | _ ↦ true ]

abbrev pub nat_beq : ℕ → ℕ → Bool
nat_beq a b = elim (compare a b) [ Ordering.eq ↦ true | _ ↦ false ]

infix 1 if◌then◌else◌
abbrev pub if◌then◌else◌ {ℓ} : {A : Type ℓ} → Bool → A → A → A
if true then x else y = x
if false then x else y = y

pub nat_beq_iff : (a b : ℕ) → (nat_beq a b ≡ true) ↔ (a ≡ b)
nat_beq_iff a b = (λ h. ground arith, λ h. ground arith)

-- Equality tests of keys.
pub record Eq {ℓ} (A : Type ℓ) : Type ℓ where
  pub test : A → A → Bool
  pub test_decides : (x y : A) → (test x y ≡ true) ↔ (x ≡ y)

infix 50 ◌==◌
abbrev pub ◌==◌ {ℓ} : {A : Type ℓ} ⦃e : Eq A⦄ → A → A → Bool
◌==◌ ⦃e⦄ = e.test

pub eq_lem {ℓ} : {K : Type ℓ} ⦃e : Eq K⦄ → (j k : K) → ((j == k) ≡ true) ↔ (j ≡ k)
eq_lem ⦃e⦄ = e.test_decides

instance abbrev pub nat_eq : Eq ℕ
nat_eq = record { test = nat_beq; test_decides = nat_beq_iff }

instance abbrev pub string_eq : Eq String
string_eq = record { test = text_eq; test_decides = eq_iff }

module _ {ℓ} {A : Type ℓ} ⦃e : Eq A⦄ where
  abbrev pub list_test : List A → List A → Bool
  list_test [] [] = true
  list_test [] (y ∷ ys) = false
  list_test (x ∷ xs) [] = false
  list_test (x ∷ xs) (y ∷ ys) = (x == y) && list_test xs ys

  pub list_test_lem : (xs ys : List A) → (list_test xs ys ≡ true) ↔ (xs ≡ ys)
  list_test_lem [] [] = (λ h. refl, λ h. refl)
  list_test_lem [] (y ∷ ys) = (λ h. absurd (cc), λ h. absurd (cc))
  list_test_lem (x ∷ xs) [] = (λ h. absurd (cc), λ h. absurd (cc))
  list_test_lem (x ∷ xs) (y ∷ ys) = (
    λ h. ground (arith, list_test_lem xs ys, e.test_decides x y),
    λ h. ground (arith, list_test_lem xs ys, e.test_decides x y),
  )

instance abbrev pub list_eq {ℓ} : {A : Type ℓ} ⦃e : Eq A⦄ → Eq (List A)
list_eq = record { test = list_test; test_decides = list_test_lem }

pub Bool-cases : (b : Bool) → (b ≡ true) ⊎ (b ≡ false)
Bool-cases true = inl refl
Bool-cases false = inr refl

pub Option-cases {ℓ} : {A : Type ℓ} (o : Option A) → (o ≡ none) ⊎ ((a : A) × (o ≡ some a))
Option-cases none = inl refl
Option-cases (some a) = inr (a, refl)

-- The wrapping bounds and the saturating additions of Rust's unsigned integers.
abbrev pub u32_max : ℕ
u32_max = 2 ^ 32 - 1

abbrev pub u64_max : ℕ
u64_max = 2 ^ 64 - 1

abbrev pub saturating_add : ℕ → ℕ → ℕ
saturating_add a b = min (a + b) u64_max

abbrev pub is_some {ℓ} : {A : Type ℓ} → Option A → Bool
is_some none = false
is_some (some a) = true

abbrev pub is_none {ℓ} : {A : Type ℓ} → Option A → Bool
is_none none = true
is_none (some a) = false
