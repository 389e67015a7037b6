-- ===== src/Crypto/Tests.antt =====
-- A toy signature and a toy cipher, and the theorems on them.
use podmesh.Crypto.Sealed.Strict.{decrypt-append}
use podmesh.Crypto.Domain.Unambiguous.{bind_injective}
use podmesh.Crypto.Sealed.Opening.{decrypt-encrypt, AreSound}
use podmesh.Crypto.Sealed.{
  drop, header_of, decrypt_payload_from_recipient_blob, Primitives, encrypt_payload_for_recipient,
}
use podmesh.Manifest.Text.{Bytes}
use podmesh.Crypto.Signing.{
  sign_verify, Ed25519, verify_domain, SignsSoundly, sign_domain, IsUsable,
}
use podmesh.Prelude.{
  sym, Option, ap, ℕ, ◌≡◌, refl, arith, [], ◌∷◌, ◌++◌, none, some, ok, err, true, false, nat_eq,
  list_eq, length, zero, suc,
}
use podmesh.Crypto.Domain.{capacity_offer}

repeated : ℕ → ℕ → Bytes
repeated zero b = []
repeated (suc n) b = b ∷ repeated n b

abbrev zeros : Bytes
zeros = repeated 32 0

-- Every signature is 64 ones and passes; every key is a point and not weak.
abbrev toy_signature : Ed25519
toy_signature = record {
  public_of = λ sk. repeated 32 5;
  sign = λ sk m. repeated 64 1;
  is_point = λ key. true;
  is_weak = λ key. false;
  verify_strict = λ key m s. true;
}

toy-SignsSoundly : SignsSoundly toy_signature
unfolding repeated
toy-SignsSoundly = record { size = λ sk m. refl; verifies = λ sk m. refl }

toy-IsUsable : IsUsable toy_signature (toy_signature.public_of zeros)
unfolding repeated
toy-IsUsable = record { size = refl; point = refl; strong = refl }

signs : sign_domain toy_signature zeros capacity_offer (1 ∷ []) ≡ ok (repeated 64 1)
unfolding sign_domain repeated
signs = refl

sign_verify_example :
    (verify_domain toy_signature
        (toy_signature.public_of zeros)
        capacity_offer
        (1 ∷ [])
        (repeated 64 1)
      ≡ ok tt)
    × (length (repeated 64 1) ≡ 64)
sign_verify_example =
    sign_verify toy_signature toy-SignsSoundly zeros capacity_offer (1 ∷ []) (repeated 64 1)
      toy-IsUsable signs

bind_injective_example : (capacity_offer ≡ capacity_offer) × (◌≡◌ {A = Bytes} (7 ∷ []) (7 ∷ []))
bind_injective_example = bind_injective capacity_offer capacity_offer (7 ∷ []) (7 ∷ []) refl

-- One public key, one secret, and a cipher that appends a tag of 16 zeros.
abbrev toy : Primitives
toy = record {
  public_of = λ secret. repeated 32 5;
  diffie_hellman = λ secret key. repeated 32 6;
  was_contributory = λ shared. true;
  derive_key = λ transcript. repeated 32 7;
  encrypt = λ key nonce header text. some (repeated 16 0 ++ text);
  decrypt = λ key nonce header sealed. some (drop 16 sealed);
}

toy-AreSound : AreSound toy
unfolding repeated
toy-AreSound = record {
  agreement = λ a b. refl;
  key_size = λ a. refl;
  opens = λ key nonce header text sealed e.
      ap (λ (o : Option Bytes). elim o [ none ↦ none | some t ↦ some (drop 16 t) ]) (sym e);
}

abbrev sealed_blob : Bytes
sealed_blob = header_of toy (repeated 32 5) (repeated 24 9) 18 ++ (repeated 16 0 ++ (1 ∷ 2 ∷ []))

seals :
    encrypt_payload_for_recipient toy
      (toy.public_of zeros)
      (1 ∷ 2 ∷ [])
      (repeated 32 3)
      (repeated 24 9)
    ≡ ok sealed_blob
unfolding encrypt_payload_for_recipient repeated
seals = refl

decrypt-encrypt_example :
    decrypt_payload_from_recipient_blob toy sealed_blob zeros ≡ ok (1 ∷ 2 ∷ [])
unfolding repeated
decrypt-encrypt_example =
    decrypt-encrypt toy zeros (1 ∷ 2 ∷ []) (repeated 32 3) (repeated 24 9) sealed_blob toy-AreSound
      refl refl seals

opens_blob : decrypt_payload_from_recipient_blob toy sealed_blob zeros ≡ ok (1 ∷ 2 ∷ [])
unfolding repeated
opens_blob =
    decrypt-encrypt toy zeros (1 ∷ 2 ∷ []) (repeated 32 3) (repeated 24 9) sealed_blob toy-AreSound
      refl refl seals

decrypt-append_example :
    decrypt_payload_from_recipient_blob toy (sealed_blob ++ 0 ∷ []) zeros
    ≡ err "sealed blob length disagrees with declared ciphertext length"
decrypt-append_example =
    decrypt-append toy zeros zeros sealed_blob (1 ∷ 2 ∷ []) (0 ∷ []) opens_blob (omega arith)
