-- ===== src/Manifest/Quantity/Printing.antt =====
-- Decimal numbers, written out and read back.
use podmesh.Prelude.{nat_eq, nat_beq_iff}
use podmesh.Manifest.{checked_add, checked_mul}
use podmesh.Manifest.Text.Digits.{parse_number_total, value_of-append}
use podmesh.Manifest.Quantity.{
  parse_number, push_zeros, checked_mul, are_parts, whole_and_fraction, parse_cores, is_digit,
  parse_milli, is_blank, parse_cpu,
}
use podmesh.Manifest.Text.{
  parse_number, is_digit, is_blank, Bytes, strip_suffix, split_once, value_of,
}
use podmesh.Prelude.{
  u32_max, nat_beq_iff, none, some, ltb, refl, ◌&&◌, Bool-cases, if◌then◌else◌, ◌++◌, Bool, all, ℕ,
  arith, ◌≤◌, ◌<◌, ◌≡◌, ok, ◌*◌, ◌+◌, ◌/◌, ◌%◌, zero, suc, [], ◌∷◌, true, false, inl, inr,
}

-- The decimal digits of a number, the first one first; as many rounds as the number are enough.
print_rounds : ℕ → ℕ → Bytes
print_rounds zero n = []
print_rounds (suc f) n =
    let rest = print_rounds f (n / 10) in
    if ltb n 10 then (48 + n) ∷ [] else rest ++ (48 + n % 10) ∷ []

pub print : ℕ → Bytes
unfolding print_rounds
print n = print_rounds (suc n) n

all-append : (p : ℕ → Bool) (xs ys : Bytes) → all p (xs ++ ys) ≡ (all p xs && all p ys)
all-append p [] ys = refl
all-append p (x ∷ xs) ys = ground (arith, all-append p xs ys)

blank-append : (xs : Bytes) (d : ℕ) → is_blank (xs ++ d ∷ []) ≡ false
blank-append [] d = refl
blank-append (x ∷ xs) d = refl

pub record Writes (text : Bytes) (n : ℕ) : Type 0 where
  pub digits : all is_digit text ≡ true
  pub full : is_blank text ≡ false
  pub value : value_of 0 text ≡ n

print_rounds-Writes : (f n : ℕ) → n < f → Writes (print_rounds f n) n
unfolding print_rounds value_of
print_rounds-Writes zero n h = absurd (omega arith)
print_rounds-Writes (suc f) n h = elim (Bool-cases (ltb n 10)) [
  | inl small ↦
      rw (small, print_rounds) (record { digits = ground arith; full = refl; value = ground arith })
  | inr large ↦
      let ih : Writes (print_rounds f (n / 10)) (n / 10) =
        print_rounds-Writes f (n / 10) (ground arith) in
      rw (large, print_rounds)
        (record {
          digits = ground (
            arith,
            ih.digits,
            all-append is_digit (print_rounds f (n / 10)) ((48 + n % 10) ∷ []),
          );
          full = blank-append (print_rounds f (n / 10)) (48 + n % 10);
          value =
              ground
                (arith, ih.value, value_of-append 0 (print_rounds f (n / 10)) ((48 + n % 10) ∷ []));
        })
]

pub print-Writes : (n : ℕ) → Writes (print n) n
unfolding print
print-Writes n = print_rounds-Writes (suc n) n (omega arith)

-- A suffix that was put at the end comes off.
strip_suffix-append : (text : Bytes) (m : ℕ) → strip_suffix (m ∷ []) (text ++ m ∷ []) ≡ some text
unfolding strip_suffix
strip_suffix-append [] m = ground (arith, nat_beq_iff m m)
strip_suffix-append (x ∷ []) m = ground (arith, nat_beq_iff m m)
strip_suffix-append (x ∷ y ∷ text) m = ground (arith, strip_suffix-append (y ∷ text) m)

-- Digits have no letter at their end and no point.
strip_suffix_digits :
    (text : Bytes) → all is_digit text ≡ true → strip_suffix (b'm' ∷ []) text ≡ none
unfolding strip_suffix
strip_suffix_digits [] h = refl
strip_suffix_digits (x ∷ xs) h = ground (arith, strip_suffix_digits xs, nat_beq_iff x b'm')

split_once_digits : (text : Bytes) → all is_digit text ≡ true → split_once b'.' text ≡ none
unfolding split_once
split_once_digits [] h = refl
split_once_digits (x ∷ xs) h = ground (arith, split_once_digits xs)

-- A processor share that is written in thousandths, or in whole processors, is read back as its
-- thousandths, where these are positive and fit a u32.
pub parse_cpu-print :
    (m n : ℕ)
    → 0 < m
    → m ≤ u32_max
    → 0 < n
    → n * 1000 ≤ u32_max
    → (parse_cpu (print m ++ b'm' ∷ []) ≡ ok m) × (parse_cpu (print n) ≡ ok (n * 1000))
unfolding parse_cpu parse_milli parse_cores whole_and_fraction are_parts checked_mul checked_add
    push_zeros
parse_cpu-print m n some_milli fits some_cores all_fit = (
  ground (
    arith,
    strip_suffix-append (print m) b'm',
    parse_number_total u32_max "invalid millicore quantity" (print m),
    v.digits,
    v.full,
    v.value,
  ),
  ground (
    arith,
    strip_suffix_digits (print n),
    split_once_digits (print n),
    parse_number_total u32_max "invalid CPU quantity" (print n),
    w.digits,
    w.full,
    w.value,
    no_fraction,
  ),
)
  where
    v : Writes (print m) m
    v = print-Writes m

    w : Writes (print n) n
    w = print-Writes n

    no_fraction : parse_number u32_max "invalid CPU fraction" (b'0' ∷ b'0' ∷ b'0' ∷ []) ≡ ok 0
    no_fraction = unfold parse_number in refl
