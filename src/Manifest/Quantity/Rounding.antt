-- ===== src/Manifest/Quantity/Rounding.antt =====
-- What a byte quantity is worth: its exact value, rounded up to a whole byte.
use podmesh.Manifest.Text.Digits.{parse_number_total, parse_number_value}
use podmesh.Map.{All}
use podmesh.Manifest.Text.{is_digit, value_of, Bytes}
use native.Mathlib.Nat.{one-le-pow, pow-le-pow_right, div-eq_of_lt-le}
use podmesh.Manifest.{checked_mul, checked_add}
use podmesh.Manifest.Quantity.{
  u128_max, is_digit, are_parts, whole_and_fraction, suffixes, number_and_unit, Bytes,
  fraction_value, checked_add, round_up,
}
use podmesh.Prelude.{
  refl, [], ◌∷◌, all, true, length, List, ◌^◌, u64_max, ◌/◌, ◌-◌, ℕ, arith, ◌≤◌, ◌<◌, ◌≡◌, ok, ◌*◌,
  ◌+◌,
}

-- The quotient that is taken after one less than the divisor is added.
ceiling :
    (exact scale n : ℕ)
    → 0 < scale
    → (exact + (scale - 1)) / scale ≡ n
    → (exact ≤ n * scale) × (n * scale < exact + scale)
ceiling exact scale n pos e = grind arith

pub round_up_lem :
    (whole fraction scale multiplier n : ℕ)
    → 0 < scale
    → round_up whole fraction scale multiplier ≡ ok n
    → (0 < n)
      × (n ≤ u64_max)
      × ((whole * scale + fraction) * multiplier ≤ n * scale)
      × (n * scale < (whole * scale + fraction) * multiplier + scale)
unfolding round_up checked_add checked_mul
round_up_lem whole fraction scale multiplier n pos e =
    let quotient : (((whole * scale + fraction) * multiplier) + (scale - 1)) / scale ≡ n =
      ground arith in
    (
      ground arith,
      ground arith,
      (ceiling ((whole * scale + fraction) * multiplier) scale n pos quotient).0,
      (ceiling ((whole * scale + fraction) * multiplier) scale n pos quotient).1,
    )

module _ (whole fraction scale multiplier n : ℕ) (pos : 0 < scale) (small : scale ≤ 1000000000)
    (unit : 0 < multiplier) (above : (whole * scale + fraction) * multiplier ≤ n * scale)
    (below : n * scale < (whole * scale + fraction) * multiplier + scale) (some_bytes : 0 < n)
    (fits : n ≤ u64_max) where
  exact_quotient : ((whole * scale + fraction) * multiplier + (scale - 1)) / scale ≡ n
  exact_quotient = div-eq_of_lt-le scale (omega (arith, above, below, pos)) (grind arith)

  joined_le : whole * scale + fraction ≤ (whole * scale + fraction) * multiplier
  joined_le = grind arith

  exact_le : n * scale ≤ u64_max * 1000000000
  exact_le = grind arith

  pub round_up_total : round_up whole fraction scale multiplier ≡ ok n
  unfolding round_up checked_add checked_mul
  round_up_total = ground (arith, exact_quotient, joined_le, exact_le)

pub scale_bounds : (k : ℕ) → k ≤ 9 → (0 < 10 ^ k) × (10 ^ k ≤ 1000000000)
scale_bounds k h = (one-le-pow k 10 (omega arith), pow-le-pow_right (omega arith) h)

-- The parts of a quantity, and what they are worth in parts of a byte.
abbrev pub whole_of : Bytes → Bytes
whole_of q = (whole_and_fraction (number_and_unit suffixes q).0).0

abbrev pub fraction_of : Bytes → Bytes
fraction_of q = (whole_and_fraction (number_and_unit suffixes q).0).1

abbrev pub unit_of : Bytes → ℕ
unit_of q = (number_and_unit suffixes q).1

abbrev pub parts_per_byte : Bytes → ℕ
parts_per_byte q = 10 ^ length (fraction_of q)

abbrev pub exact_of : Bytes → ℕ
exact_of q = (value_of 0 (whole_of q) * parts_per_byte q + value_of 0 (fraction_of q)) * unit_of q

-- The quantity is well formed, and `n` is the least number of bytes that is enough for it.
pub record IsWorth (q : Bytes) (n : ℕ) : Type 0 where
  pub well_formed : are_parts 9 (whole_of q) (fraction_of q) ≡ true
  pub above : exact_of q ≤ n * parts_per_byte q
  pub below : n * parts_per_byte q < exact_of q + parts_per_byte q
  pub some_bytes : 0 < n
  pub fits : n ≤ u64_max

pub number_and_unit_pos :
    (table : List (Bytes × ℕ)) (q : Bytes)
    → All (λ m. 0 < m) table
    → 0 < (number_and_unit table q).1
unfolding number_and_unit
number_and_unit_pos [] q h = omega arith
number_and_unit_pos ((suffix, multiplier) ∷ rest) q h =
    ground (arith, number_and_unit_pos rest q h.1)

pub fraction_value_lem :
    (fraction : Bytes) (v : ℕ)
    → all is_digit fraction ≡ true
    → fraction_value fraction ≡ ok v
    → v ≡ value_of 0 fraction
unfolding fraction_value value_of
fraction_value_lem [] v h e = cc
fraction_value_lem (d ∷ ds) v h e =
    (parse_number_value u128_max "invalid byte quantity fraction" (d ∷ ds) h v e).0

pub fraction_value_total :
    (fraction : Bytes)
    → all is_digit fraction ≡ true
    → value_of 0 fraction ≤ u128_max
    → fraction_value fraction ≡ ok (value_of 0 fraction)
unfolding fraction_value value_of
fraction_value_total [] h fits = refl
fraction_value_total (d ∷ ds) h fits =
    parse_number_total u128_max "invalid byte quantity fraction" (d ∷ ds) h refl fits
