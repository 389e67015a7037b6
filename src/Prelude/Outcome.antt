-- ===== src/Prelude/Outcome.antt =====
-- `anyhow::Result`: a value or an error with its message, `?`, and `ensure!`.
use Prim.Native.String.{String}
use mathlib.Core.Path.{◌≡◌, refl}
use mathlib.Core.Logic.{◌⊎◌, inl, inr}
use mathlib.Core.Bool.{Bool, true, false}
use mathlib.Core.Option.{Option, none, some}

pub data Result {ℓ} (A : Type ℓ) : Type ℓ where
  ok : A → Result A
  err : String → Result A

infixl 5 ◌>>=◌ ◌>>◌
-- `let x = m?;` and what comes after it
abbrev pub ◌>>=◌ {α β} : {X : Type α} {Y : Type β} → Result X → (X → Result Y) → Result Y
ok x >>= rest = rest x
err message >>= rest = err message

-- `m?;` for a check that answers nothing
abbrev pub ◌>>◌ {β} : {Y : Type β} → Result (Unit {0}) → Result Y → Result Y
check >> rest = check >>= λ nothing. rest

abbrev pub ensure : Bool → String → Result (Unit {0})
ensure true e = ok tt
ensure false e = err e

-- `Option::context` and `ok_or_else`.
abbrev pub context {ℓ} : {A : Type ℓ} → Option A → String → Result A
context none e = err e
context (some a) e = ok a

abbrev pub is_ok {ℓ} : {A : Type ℓ} → Result A → Bool
is_ok (ok a) = true
is_ok (err e) = false

pub Result-cases {ℓ} :
    {A : Type ℓ} (r : Result A) → ((a : A) × (r ≡ ok a)) ⊎ ((e : String) × (r ≡ err e))
Result-cases (ok a) = inl (a, refl)
Result-cases (err e) = inr (e, refl)

-- What a successful bind is made of.
pub >>=-eq-ok {α β} :
    {X : Type α} {Y : Type β} (m : Result X) (f : X → Result Y) {b : Y}
    → (m >>= f) ≡ ok b
    → (a : X) × (m ≡ ok a) × (f a ≡ ok b)
>>=-eq-ok (ok a) f h = (a, refl, h)
>>=-eq-ok (err e) f h = absurd (cc)
