-- ===== src/Manifest/Quantity.antt =====
-- `parse_cpu` and `parse_bytes` of shared/protocol/src/manifest_resources.rs.
pub mod Rounding
pub mod Printing
pub mod Worth
use podmesh.Manifest.{checked_add, checked_mul}
use podmesh.Prelude.{u64_max, ltb, ensure, u32_max, none, some, ◌>>=◌, ◌>>◌, ok, err}
use podmesh.Manifest.Text.{is_digit, is_blank, parse_number, split_once, strip_suffix, Bytes}
use podmesh.Prelude.{
  length, leb, all, ◌&&◌, zero, [], ◌++◌, some, not, suc, ◌∷◌, ok, Bool, Result, List, ℕ, ◌+◌, ◌-◌,
  ◌*◌, ◌/◌, ◌^◌,
}

-- `split_once('.').unwrap_or((text, ""))`
pub whole_and_fraction : Bytes → Bytes × Bytes
whole_and_fraction text = elim (split_once b'.' text) [ none ↦ (text, []) | some parts ↦ parts ]

pub are_parts : ℕ → Bytes → Bytes → Bool
are_parts longest whole fraction =
    not (is_blank whole)
    && all is_digit whole
    && leb (length fraction) longest
    && all is_digit fraction

-- The zeros that the loop pushes, one each round.
pub push_zeros : ℕ → Bytes → Bytes
push_zeros zero text = text
push_zeros (suc rounds) text = push_zeros rounds (text ++ b'0' ∷ [])

pub parse_milli : Bytes → Result ℕ
parse_milli milli = do
  value ← parse_number u32_max "invalid millicore quantity" milli
  ensure (ltb 0 value) "CPU limit must be greater than zero"
  ok value

pub parse_cores : Bytes → Result ℕ
parse_cores quantity =
    let (whole, fraction) = whole_and_fraction quantity in
    do
      ensure (are_parts 3 whole fraction) "unsupported CPU quantity"
      cores ← parse_number u32_max "invalid CPU quantity" whole
      thousandths ←
          parse_number u32_max "invalid CPU fraction" (push_zeros (3 - length fraction) fraction)
      scaled ← checked_mul u32_max cores 1000 "CPU quantity overflow"
      milli ← checked_add u32_max scaled thousandths "CPU quantity overflow"
      ensure (ltb 0 milli) "CPU limit must be greater than zero"
      ok milli

unfoldable pub parse_cpu : Bytes → Result ℕ
unfolding parse_milli parse_cores whole_and_fraction are_parts push_zeros
parse_cpu quantity = elim (strip_suffix (b'm' ∷ []) quantity) [
  | some milli ↦ parse_milli milli
  | none ↦ parse_cores quantity
]

abbrev pub suffixes : List (Bytes × ℕ)
suffixes =
    (b'T' ∷ b'i' ∷ [], 1024 ^ 4)
    ∷ (b'G' ∷ b'i' ∷ [], 1024 ^ 3)
    ∷ (b'M' ∷ b'i' ∷ [], 1024 ^ 2)
    ∷ (b'K' ∷ b'i' ∷ [], 1024)
    ∷ (b'T' ∷ [], 1000 ^ 4)
    ∷ (b'G' ∷ [], 1000 ^ 3)
    ∷ (b'M' ∷ [], 1000 ^ 2)
    ∷ (b'K' ∷ [], 1000)
    ∷ []

-- `find_map` over the suffixes; a text with none of them counts single bytes.
pub number_and_unit : List (Bytes × ℕ) → Bytes → Bytes × ℕ
number_and_unit [] quantity = (quantity, 1)
number_and_unit ((suffix, multiplier) ∷ rest) quantity = elim (strip_suffix suffix quantity) [
  | some number ↦ (number, multiplier)
  | none ↦ number_and_unit rest quantity
]

abbrev pub u128_max : ℕ
u128_max = 2 ^ 128 - 1

-- The bytes of `whole.fraction` units, rounded up, where the fraction counts parts of `scale`.
pub round_up : ℕ → ℕ → ℕ → ℕ → Result ℕ
round_up whole fraction scale multiplier = do
  shifted ← checked_mul u128_max whole scale "byte quantity overflow"
  joined ← checked_add u128_max shifted fraction "byte quantity overflow"
  scaled ← checked_mul u128_max joined multiplier "byte quantity overflow"
  padded ← checked_add u128_max scaled (scale - 1) "byte quantity rounding overflow"
  ensure (ltb 0 (padded / scale)) "byte limit must be greater than zero"
  ensure (leb (padded / scale) u64_max) "byte quantity exceeds u64"
  ok (padded / scale)

pub fraction_value : Bytes → Result ℕ
fraction_value [] = ok 0
fraction_value (d ∷ ds) = parse_number u128_max "invalid byte quantity fraction" (d ∷ ds)

pub parse_amount : Bytes → ℕ → Result ℕ
unfolding whole_and_fraction are_parts fraction_value round_up
parse_amount number multiplier =
    let (whole, fraction) = whole_and_fraction number in
    do
      ensure (are_parts 9 whole fraction) "unsupported byte quantity"
      units ← parse_number u128_max "invalid byte quantity" whole
      parts ← fraction_value fraction
      round_up units parts (10 ^ length fraction) multiplier

unfoldable pub parse_bytes : Bytes → Result ℕ
unfolding number_and_unit parse_amount
parse_bytes quantity =
    let (number, multiplier) = number_and_unit suffixes quantity in parse_amount number multiplier
