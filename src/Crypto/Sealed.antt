-- ===== src/Crypto/Sealed.antt =====
-- Messages sealed to the key of a recipient (shared/crypto/src/lib.rs). X25519, the key derivation
-- and the cipher are parameters, and so are the random bytes.
pub mod Opening
pub mod Strict
use podmesh.Prelude.{
  ℕ, ◌+◌, ◌*◌, ◌/◌, ◌%◌, ◌^◌, ◌≡◌, Bool, true, false, ◌==◌, nat_eq, List, [], ◌∷◌, ◌++◌, length,
  take, Option, none, some, leb, u32_max, Result, ok, err, ensure, context, ◌>>=◌, ◌>>◌, zero, suc,
  String,
}
use podmesh.Manifest.Text.{Bytes}

pub record Primitives : Type 0 where
  -- the public key of a private one, the agreed secret, and whether both keys went into it
  pub public_of : Bytes → Bytes
  pub diffie_hellman : Bytes → Bytes → Bytes
  pub was_contributory : Bytes → Bool
  -- `blake3::derive_key` with the context of sealed messages
  pub derive_key : Bytes → Bytes
  -- key, nonce, associated data and text
  pub encrypt : Bytes → Bytes → Bytes → Bytes → Option Bytes
  pub decrypt : Bytes → Bytes → Bytes → Bytes → Option Bytes

abbrev pub drop : ℕ → Bytes → Bytes
drop zero xs = xs
drop (suc n) [] = []
drop (suc n) (x ∷ xs) = drop n xs

abbrev pub sealed_blob_version : ℕ
sealed_blob_version = 4

abbrev pub sealed_header_len : ℕ
sealed_header_len = 61

abbrev pub poly1305_tag_size : ℕ
poly1305_tag_size = 16

-- `to_be_bytes` and `from_be_bytes` of a u32.
abbrev pub to_be_bytes : ℕ → Bytes
to_be_bytes n = (n / 2 ^ 24 % 256) ∷ (n / 2 ^ 16 % 256) ∷ (n / 2 ^ 8 % 256) ∷ (n % 256) ∷ []

abbrev pub from_be_bytes : Bytes → ℕ
from_be_bytes (a ∷ b ∷ c ∷ d ∷ []) = a * 2 ^ 24 + b * 2 ^ 16 + c * 2 ^ 8 + d
from_be_bytes _ = 0

abbrev pub first_or_zero : Bytes → ℕ
first_or_zero [] = 0
first_or_zero (x ∷ xs) = x

module _ (p : Primitives) where
  pub kem_key_bytes : Bytes → String → Result Bytes
  kem_key_bytes bytes message = do ensure (length bytes == 32) message; ok bytes

  pub derive_sealed_key : Bytes → Bytes → Bytes → Bytes
  derive_sealed_key shared ephemeral recipient = p.derive_key (shared ++ (ephemeral ++ recipient))

  -- The secret of the sender is new for each message.
  pub encapsulate_to_pubkey : Bytes → Bytes → Result (Bytes × Bytes)
  unfolding kem_key_bytes
  encapsulate_to_pubkey recipient secret = do
    key ← kem_key_bytes recipient "invalid recipient public key: expected 32 bytes"
    ensure (p.was_contributory (p.diffie_hellman secret key))
        "recipient X25519 public key is low order and yields a predictable shared secret"
    ok (p.public_of secret, p.diffie_hellman secret key)

  pub decapsulate_share : Bytes → Bytes → Result Bytes
  unfolding kem_key_bytes
  decapsulate_share private ephemeral = do
    own ← kem_key_bytes private "invalid private key: expected 32 bytes"
    theirs ← kem_key_bytes ephemeral "invalid ephemeral public key: expected 32 bytes"
    ensure (p.was_contributory (p.diffie_hellman own theirs))
        "sender X25519 ephemeral key is low order and yields a predictable shared secret"
    ok (p.diffie_hellman own theirs)

  unfoldable pub header_of : Bytes → Bytes → ℕ → Bytes
  header_of ephemeral nonce ciphertext_len =
      sealed_blob_version ∷ (ephemeral ++ (nonce ++ to_be_bytes ciphertext_len))

  pub seal_with : Bytes → Bytes → Bytes → Bytes → Bytes → Result Bytes
  unfolding header_of
  seal_with key ephemeral nonce recipient payload = do
    ensure (leb (length payload + poly1305_tag_size) u32_max) "payload too large to seal"
    ciphertext ←
        context
          (p.encrypt key nonce (header_of ephemeral nonce (length payload + poly1305_tag_size))
            payload)
          "XChaCha20-Poly1305 encrypt error"
    ensure (length ciphertext == (length payload + poly1305_tag_size))
        "sealed ciphertext length disagrees with the authenticated header"
    ok (header_of ephemeral nonce (length payload + poly1305_tag_size) ++ ciphertext)

  unfoldable pub encrypt_payload_for_recipient : Bytes → Bytes → Bytes → Bytes → Result Bytes
  unfolding encapsulate_to_pubkey derive_sealed_key seal_with
  encrypt_payload_for_recipient recipient payload secret nonce =
      encapsulate_to_pubkey recipient secret >>= λ agreed.
      seal_with (derive_sealed_key agreed.1 agreed.0 recipient) agreed.0 nonce recipient payload

  pub open_with : Bytes → Bytes → Result Bytes
  unfolding derive_sealed_key decapsulate_share kem_key_bytes
  open_with blob private = do
    shared ← decapsulate_share private (take 32 (drop 1 blob))
    own ← kem_key_bytes private "invalid private key: expected 32 bytes"
    context
        (p.decrypt (derive_sealed_key shared (take 32 (drop 1 blob)) (p.public_of own))
          (take 24 (drop 33 blob)) (take sealed_header_len blob) (drop sealed_header_len blob))
        "XChaCha20-Poly1305 decrypt error"

  pub decrypt_payload_from_recipient_blob : Bytes → Bytes → Result Bytes
  unfolding open_with
  decrypt_payload_from_recipient_blob blob private = do
    ensure (leb sealed_header_len (length blob)) "sealed blob too short"
    ensure (first_or_zero blob == sealed_blob_version) "unsupported sealed-blob version"
    ensure (length (drop sealed_header_len blob) == from_be_bytes (take 4 (drop 57 blob)))
        "sealed blob length disagrees with declared ciphertext length"
    open_with blob private
