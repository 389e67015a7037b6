-- ===== src/Crypto/Sealed/Opening.antt =====
-- A sealed message opens for its recipient, and in one form only.
use native.Mathlib.Nat.{zero-add, suc-add}
use mathlib.Core.List.{append_assoc}
use podmesh.Crypto.Sealed.{
  derive_sealed_key, open_with, seal_with, kem_key_bytes, decapsulate_share, encapsulate_to_pubkey,
  decrypt_payload_from_recipient_blob, encrypt_payload_for_recipient, header_of, to_be_bytes, drop,
  from_be_bytes, first_or_zero, Primitives,
}
use podmesh.Manifest.Text.{Bytes}
use podmesh.Prelude.{
  nat_beq_iff, leb, Option-cases, ◌+◌, take, length, u32_max, ◌≤◌, ℕ, ◌≡◌, refl, arith, [], ◌∷◌,
  ◌++◌, some, ok, inl, inr, zero, suc, true, ap, ◌∙◌, length-append,
}

-- What the primitives promise: both sides agree on a secret, public keys have 32 bytes, and what is
-- encrypted is decrypted with the same key, nonce and associated data.
pub record AreSound (p : Primitives) : Type 0 where
  pub agreement :
      (a b : Bytes) → p.diffie_hellman a (p.public_of b) ≡ p.diffie_hellman b (p.public_of a)
  pub key_size : (a : Bytes) → length (p.public_of a) ≡ 32
  pub opens :
      (key nonce data_bytes text sealed : Bytes)
      → p.encrypt key nonce data_bytes text ≡ some sealed
      → p.decrypt key nonce data_bytes sealed ≡ some text

take_front : (n : ℕ) (xs ys : Bytes) → length xs ≡ n → take n (xs ++ ys) ≡ xs
take_front zero [] ys e = refl
take_front zero (x ∷ xs) ys e = absurd (omega arith)
take_front (suc n) [] ys e = absurd (omega arith)
take_front (suc n) (x ∷ xs) ys e = ap (λ t. x ∷ t) (take_front n xs ys (omega arith))

drop_front : (n k : ℕ) (xs ys : Bytes) → length xs ≡ n → drop (n + k) (xs ++ ys) ≡ drop k ys
drop_front zero k [] ys e = rw zero-add
drop_front zero k (x ∷ xs) ys e = absurd (omega arith)
drop_front (suc n) k [] ys e = absurd (omega arith)
drop_front (suc n) k (x ∷ xs) ys e = rw suc-add (drop_front n k xs ys (omega arith))

bytes_of_length : (n : ℕ) → n ≤ u32_max → from_be_bytes (to_be_bytes n) ≡ n
bytes_of_length n h = omega arith

-- The places of the parts of a sealed message.
record Parts (blob ephemeral nonce ciphertext header : Bytes) : Type 0 where
  version : first_or_zero blob ≡ 4
  ephemeral_at : take 32 (drop 1 blob) ≡ ephemeral
  nonce_at : take 24 (drop 33 blob) ≡ nonce
  length_at : take 4 (drop 57 blob) ≡ to_be_bytes (length ciphertext)
  header_at : take 61 blob ≡ header
  ciphertext_at : drop 61 blob ≡ ciphertext
  long_enough : 61 ≤ length blob

module _ (p : Primitives) (ephemeral nonce ciphertext : Bytes) (keyed : length ephemeral ≡ 32)
    (nonced : length nonce ≡ 24) where
  abbrev blob_of : Bytes
  blob_of = header_of p ephemeral nonce (length ciphertext) ++ ciphertext

  header_length : length (header_of p ephemeral nonce (length ciphertext)) ≡ 61
  unfolding header_of
  header_length = omega (
    arith,
    length-append {0} ephemeral (nonce ++ to_be_bytes (length ciphertext)),
    length-append {0} nonce (to_be_bytes (length ciphertext)),
  )

  tail_of : Bytes
  tail_of = nonce ++ (to_be_bytes (length ciphertext) ++ ciphertext)

  blob_lem : blob_of ≡ 4 ∷ (ephemeral ++ tail_of)
  unfolding header_of tail_of
  blob_lem = simp append_assoc

  parts : Parts blob_of ephemeral nonce ciphertext (header_of p ephemeral nonce (length ciphertext))
  unfolding tail_of header_of
  parts = record {
    version = refl;
    ephemeral_at = rw blob_lem (take_front 32 ephemeral tail_of keyed);
    nonce_at = rw blob_lem (
        ap (take 24) (drop_front 32 0 ephemeral tail_of keyed)
        ∙ take_front 24 nonce (to_be_bytes (length ciphertext) ++ ciphertext) nonced);
    length_at = rw blob_lem (
        ap (take 4) (
          drop_front 32 24 ephemeral tail_of keyed
          ∙ drop_front 24 0 nonce (to_be_bytes (length ciphertext) ++ ciphertext) nonced));
    header_at =
        take_front 61 (header_of p ephemeral nonce (length ciphertext)) ciphertext header_length;
    ciphertext_at =
        drop_front 61 0 (header_of p ephemeral nonce (length ciphertext)) ciphertext header_length;
    long_enough = omega (
      arith,
      header_length,
      length-append {0} (header_of p ephemeral nonce (length ciphertext)) ciphertext,
    );
  }

is_long : (n : ℕ) → 61 ≤ n → leb 61 n ≡ true
is_long n h = ground arith

open-Parts :
    (p : Primitives) (private payload blob ephemeral nonce ciphertext header : Bytes)
    → Parts blob ephemeral nonce ciphertext header
    → length private ≡ 32
    → length ephemeral ≡ 32
    → length ciphertext ≤ u32_max
    → p.was_contributory (p.diffie_hellman private ephemeral) ≡ true
    → p.decrypt
        (derive_sealed_key p (p.diffie_hellman private ephemeral) ephemeral (p.public_of private))
        nonce
        header
        ciphertext
      ≡ some payload
    → decrypt_payload_from_recipient_blob p blob private ≡ ok payload
unfolding decrypt_payload_from_recipient_blob
open-Parts p private payload blob ephemeral nonce ciphertext header at own theirs short agreed
      plain =
    let declared : from_be_bytes (take 4 (drop 57 blob)) ≡ length ciphertext =
      rw at.length_at (bytes_of_length (length ciphertext) short) in
    let long : leb 61 (length blob) ≡ true = is_long (length blob) at.long_enough in
    rw
      (
        long,
        at.version,
        at.ephemeral_at,
        at.nonce_at,
        at.header_at,
        at.ciphertext_at,
        declared,
        (nat_beq_iff (length ciphertext) (length ciphertext)).1 refl,
        own,
        theirs,
        agreed,
        plain,
      )
      refl

-- A message that was sealed to the key of a recipient, under fresh random bytes, is opened with the
-- private key and gives back what was sealed.
pub decrypt-encrypt :
    (p : Primitives) (private payload secret nonce blob : Bytes)
    → AreSound p
    → length private ≡ 32
    → length nonce ≡ 24
    → encrypt_payload_for_recipient p (p.public_of private) payload secret nonce ≡ ok blob
    → decrypt_payload_from_recipient_blob p blob private ≡ ok payload
unfolding encrypt_payload_for_recipient decrypt_payload_from_recipient_blob encapsulate_to_pubkey
    decapsulate_share kem_key_bytes seal_with open_with
decrypt-encrypt p private payload secret nonce blob sound keyed nonced e =
    elim (Option-cases (
      p.encrypt key nonce (header_of p (p.public_of secret) nonce (length payload + 16)) payload)) [
        | inl failed ↦ absurd (ground arith)
        | inr (ciphertext, sealed) ↦
            let size : length ciphertext ≡ length payload + 16 = ground arith in
            let same : blob
                ≡ header_of p (p.public_of secret) nonce (length ciphertext) ++ ciphertext =
              ground arith in
            open-Parts p private payload blob (p.public_of secret) nonce ciphertext
              (header_of p (p.public_of secret) nonce (length ciphertext))
              (rw same
                (parts p (p.public_of secret) nonce ciphertext (sound.key_size secret) nonced))
              keyed (sound.key_size secret) (ground arith)
              (rw (sound.agreement private secret) (ground arith))
              (rw (sound.agreement private secret, size)
                (sound.opens key nonce
                  (header_of p (p.public_of secret) nonce (length payload + 16)) payload ciphertext
                  sealed))
      ]
  where
    key : Bytes
    key =
        derive_sealed_key p (p.diffie_hellman secret (p.public_of private)) (p.public_of secret)
          (p.public_of private)
