-- ===== src/Manifest/Text/Digits.antt =====
-- What parsing makes of texts that are digits only.
use podmesh.Manifest.Text.{is_blank, parse_number, is_digit, Bytes, value_of, strip_plus}
use podmesh.Prelude.{
  refl, ◌-◌, all, ◌++◌, String, ℕ, arith, ◌≤◌, ◌≡◌, ok, ◌*◌, ◌+◌, [], ◌∷◌, true, false,
}

-- A digit is no plus sign.
pub strip_plus_digits : (text : Bytes) → all is_digit text ≡ true → strip_plus text ≡ text
unfolding strip_plus
strip_plus_digits [] h = refl
strip_plus_digits (x ∷ xs) h = ground arith

module _ (largest : ℕ) (message : String) (text : Bytes) (digits : all is_digit text ≡ true) where
  pub parse_number_value :
      (n : ℕ) → parse_number largest message text ≡ ok n → (n ≡ value_of 0 text) × (n ≤ largest)
  unfolding parse_number
  parse_number_value n e =
      (ground (arith, strip_plus_digits text digits), ground (arith, strip_plus_digits text digits))

  pub parse_number_total :
      is_blank text ≡ false
      → value_of 0 text ≤ largest
      → parse_number largest message text ≡ ok (value_of 0 text)
  unfolding parse_number
  parse_number_total full fits = ground (arith, strip_plus_digits text digits)

-- Digits that are joined write the number of the first with the second after it.
pub value_of-append : (n : ℕ) (ds es : Bytes) → value_of n (ds ++ es) ≡ value_of (value_of n ds) es
unfolding value_of
value_of-append n [] es = refl
value_of-append n (d ∷ ds) es = value_of-append (n * 10 + (d - 48)) ds es
