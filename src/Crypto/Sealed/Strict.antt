-- ===== src/Crypto/Sealed/Strict.antt =====
-- Bytes after a sealed message are refused.
use podmesh.Prelude.{◌>>◌, nat_eq, ◌==◌, ensure}
use podmesh.Crypto.Sealed.{
  open_with, from_be_bytes, drop, first_or_zero, Primitives, decrypt_payload_from_recipient_blob,
}
use podmesh.Manifest.Text.{Bytes}
use podmesh.Prelude.{
  Result, String, nat_beq_iff, ◌==◌, Bool, leb, take, length, ℕ, ◌≡◌, ◌≢◌, ◌≤◌, ◌<◌, ◌+◌, ◌-◌, refl,
  arith, [], ◌∷◌, ◌++◌, ok, err, zero, suc, true, false, ap, ◌∙◌, length-append,
}

take_within : (n : ℕ) (xs ys : Bytes) → n ≤ length xs → take n (xs ++ ys) ≡ take n xs
take_within zero xs ys h = refl
take_within (suc n) [] ys h = absurd (omega arith)
take_within (suc n) (x ∷ xs) ys h = ap (λ t. x ∷ t) (take_within n xs ys (omega arith))

drop_within : (n : ℕ) (xs ys : Bytes) → n ≤ length xs → drop n (xs ++ ys) ≡ drop n xs ++ ys
drop_within zero xs ys h = refl
drop_within (suc n) [] ys h = absurd (omega arith)
drop_within (suc n) (x ∷ xs) ys h = drop_within n xs ys (omega arith)

length-drop : (n : ℕ) (xs : Bytes) → length (drop n xs) ≡ length xs - n
length-drop zero xs = omega arith
length-drop (suc n) [] = omega arith
length-drop (suc n) (x ∷ xs) = omega (arith, length-drop n xs)

first_within : (xs ys : Bytes) → 0 < length xs → first_or_zero (xs ++ ys) ≡ first_or_zero xs
first_within [] ys h = absurd (omega arith)
first_within (x ∷ xs) ys h = refl

-- What an accepted message has shown.
record Framed (blob : Bytes) : Type 0 where
  long : 61 ≤ length blob
  version : first_or_zero blob ≡ 4
  declared : length (drop 61 blob) ≡ from_be_bytes (take 4 (drop 57 blob))

three_checks :
    (a b c : Bool) (x y z : String) (r : Result Bytes) (v : Bytes)
    → (do ensure a x; ensure b y; ensure c z; r) ≡ ok v
    → (a ≡ true) × (b ≡ true) × (c ≡ true)
three_checks true true true x y z r v e = (refl, refl, refl)
three_checks true true false x y z r v e = absurd (cc)
three_checks true false c x y z r v e = absurd (cc)
three_checks false b c x y z r v e = absurd (cc)

third_check :
    (a b c : Bool) (x y z : String) (r : Result Bytes)
    → a ≡ true
    → b ≡ true
    → c ≡ false
    → (do ensure a x; ensure b y; ensure c z; r) ≡ err z
third_check a b c x y z r p q f = rw (p, q, f) refl

is_long : (n : ℕ) → 61 ≤ n → leb 61 n ≡ true
is_long n h = ground arith

long_of : (n : ℕ) → leb 61 n ≡ true → 61 ≤ n
long_of n h = ground arith

differ : (m n : ℕ) → m ≢ n → (m == n) ≡ false
differ m n h = ground (arith, nat_beq_iff m n)

accepted-Framed :
    (p : Primitives) (private blob payload : Bytes)
    → decrypt_payload_from_recipient_blob p blob private ≡ ok payload
    → Framed blob
unfolding decrypt_payload_from_recipient_blob
accepted-Framed p private blob payload e =
    let (long, version, declared) =
      three_checks (leb 61 (length blob)) (first_or_zero blob == 4)
        (length (drop 61 blob) == from_be_bytes (take 4 (drop 57 blob))) "sealed blob too short"
        "unsupported sealed-blob version"
        "sealed blob length disagrees with declared ciphertext length" (open_with p blob private)
        payload e in
    record {
      long = long_of (length blob) long;
      version = (nat_beq_iff (first_or_zero blob) 4).0 version;
      declared =
          (nat_beq_iff (length (drop 61 blob)) (from_be_bytes (take 4 (drop 57 blob)))).0 declared;
    }

-- A sealed message that is accepted is refused once any bytes follow it, with any key.
pub decrypt-append :
    (p : Primitives) (private other blob payload rest : Bytes)
    → decrypt_payload_from_recipient_blob p blob private ≡ ok payload
    → 0 < length rest
    → decrypt_payload_from_recipient_blob p (blob ++ rest) other
      ≡ err "sealed blob length disagrees with declared ciphertext length"
unfolding decrypt_payload_from_recipient_blob
decrypt-append p private other blob payload rest e more =
    let f : Framed blob = accepted-Framed p private blob payload e in
    let sum : length (blob ++ rest) ≡ length blob + length rest = length-append {0} blob rest in
    let field_at : take 4 (drop 57 (blob ++ rest)) ≡ take 4 (drop 57 blob) =
      ap (take 4) (drop_within 57 blob rest (omega (arith, f.long)))
      ∙ take_within 4 (drop 57 blob) rest (omega (arith, f.long, length-drop 57 blob)) in
    let after : length (drop 61 (blob ++ rest)) ≡ length (drop 61 blob) + length rest =
      ap (λ (t : Bytes). length t) (drop_within 61 blob rest f.long)
      ∙ length-append {0} (drop 61 blob) rest in
    third_check (leb 61 (length (blob ++ rest))) (first_or_zero (blob ++ rest) == 4)
      (length (drop 61 (blob ++ rest)) == from_be_bytes (take 4 (drop 57 (blob ++ rest))))
      "sealed blob too short" "unsupported sealed-blob version"
      "sealed blob length disagrees with declared ciphertext length"
      (open_with p (blob ++ rest) other)
      (is_long (length (blob ++ rest)) (omega (arith, f.long, sum)))
      ((nat_beq_iff (first_or_zero (blob ++ rest)) 4).1
        (first_within blob rest (omega (arith, f.long)) ∙ f.version))
      (differ (length (drop 61 (blob ++ rest))) (from_be_bytes (take 4 (drop 57 (blob ++ rest))))
        (λ same. absurd (omega (arith, after, f.declared, ap from_be_bytes field_at, more))))
