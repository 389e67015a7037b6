-- ===== src/Manifest/Quantity/Worth.antt =====
-- `parse_bytes` answers what a quantity is worth, and nothing else.
use podmesh.Manifest.Text.Digits.{parse_number_total, parse_number_value}
use podmesh.Manifest.Quantity.Rounding.{
  round_up_total, number_and_unit_pos, fraction_value_total, exact_of, fraction_value_lem, unit_of,
  scale_bounds, parts_per_byte, fraction_of, round_up_lem, whole_of, IsWorth,
}
use podmesh.Manifest.Quantity.{
  suffixes, fraction_value, round_up, u128_max, parse_number, parse_amount, are_parts, parse_bytes,
}
use podmesh.Manifest.Text.{value_of, parse_number, Bytes}
use podmesh.Prelude.{
  u64_max, ◌↔◌, Result-cases, Bool-cases, length, ℕ, arith, ◌≤◌, ◌<◌, ◌≡◌, ok, ◌*◌, ◌+◌, true, inl,
  inr,
}

parts_contained :
    (whole fraction scale multiplier : ℕ)
    → 0 < scale
    → 0 < multiplier
    → (whole ≤ (whole * scale + fraction) * multiplier)
      × (fraction ≤ (whole * scale + fraction) * multiplier)
parts_contained whole fraction scale multiplier s m = (grind arith, grind arith)

module _ (q : Bytes) (n : ℕ) where
  parsed :
      parse_bytes q ≡ ok n
      → (are_parts 9 (whole_of q) (fraction_of q) ≡ true)
        × (round_up
              (value_of 0 (whole_of q))
              (value_of 0 (fraction_of q))
              (parts_per_byte q)
              (unit_of q)
            ≡ ok n)
  unfolding parse_bytes parse_amount are_parts
  parsed e = elim (Bool-cases (are_parts 9 (whole_of q) (fraction_of q))) [
    | inr bad ↦ absurd (ground arith)
    | inl good ↦ elim (Result-cases (parse_number u128_max "invalid byte quantity" (whole_of q))) [
      | inr (m, wrong) ↦ absurd (ground arith)
      | inl (u, whole) ↦ elim (Result-cases (fraction_value (fraction_of q))) [
        | inr (m, wrong) ↦ absurd (ground arith)
        | inl (v, fraction) ↦
            let same_whole : u ≡ value_of 0 (whole_of q) =
              (parse_number_value u128_max "invalid byte quantity" (whole_of q) (ground arith) u
                whole).0 in
            let same_fraction : v ≡ value_of 0 (fraction_of q) =
              fraction_value_lem (fraction_of q) v (ground arith) fraction in
            (good, ground arith)
      ]
    ]
  ]

  scale_of :
      are_parts 9 (whole_of q) (fraction_of q) ≡ true
      → (0 < parts_per_byte q) × (parts_per_byte q ≤ 1000000000)
  unfolding are_parts
  scale_of good = scale_bounds (length (fraction_of q)) (ground arith)

  only-IsWorth : parse_bytes q ≡ ok n → IsWorth q n
  only-IsWorth e =
      let (good, rounded) = parsed e in
      let (some_bytes, fits, above, below) =
        round_up_lem (value_of 0 (whole_of q)) (value_of 0 (fraction_of q)) (parts_per_byte q)
          (unit_of q) n (scale_of good).0 rounded in
      record {
        well_formed = good;
        above = above;
        below = below;
        some_bytes = some_bytes;
        fits = fits;
      }

  module _ (h : IsWorth q n) where
    bounded : exact_of q ≤ u64_max * 1000000000
    bounded = grind (arith, h.above, h.fits, (scale_of h.well_formed).1)

    contained : (value_of 0 (whole_of q) ≤ exact_of q) × (value_of 0 (fraction_of q) ≤ exact_of q)
    contained =
        (parts_contained (value_of 0 (whole_of q)) (value_of 0 (fraction_of q)) (parts_per_byte q)
          (unit_of q) (scale_of h.well_formed).0 unit_pos)
      where
        unit_pos : 0 < unit_of q
        unit_pos = number_and_unit_pos suffixes q (omega arith)

    all-IsWorth : parse_bytes q ≡ ok n
    unfolding parse_bytes parse_amount are_parts
    all-IsWorth = ground (
      arith,
      h.well_formed,
      parse_number_total u128_max "invalid byte quantity" (whole_of q),
      fraction_value_total (fraction_of q),
      contained,
      bounded,
      round_up_total (value_of 0 (whole_of q)) (value_of 0 (fraction_of q)) (parts_per_byte q)
          (unit_of q) n (scale_of h.well_formed).0 (scale_of h.well_formed).1
          (number_and_unit_pos suffixes q (omega arith)) h.above h.below h.some_bytes h.fits,
    )

-- `parse_bytes` answers `n` exactly when the quantity is well formed and `n` bytes, at least one and
-- at most the largest u64, are the least whole number that is enough for it: it never undercounts,
-- no intermediate product overflows for such an answer, and every such quantity is accepted.
pub parse_bytes-IsWorth : (q : Bytes) (n : ℕ) → (parse_bytes q ≡ ok n) ↔ IsWorth q n
parse_bytes-IsWorth q n = (only-IsWorth q n, all-IsWorth q n)
