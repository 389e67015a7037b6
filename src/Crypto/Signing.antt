-- ===== src/Crypto/Signing.antt =====
-- `sign_domain` and `verify_domain` of shared/crypto/src/lib.rs. Ed25519 is a parameter.
use podmesh.Crypto.Domain.{bind, SignatureDomain}
use podmesh.Prelude.{
  ◌≡◌, Bool, true, false, not, ◌==◌, nat_eq, length, Result, ok, ensure, ◌>>=◌, ◌>>◌, arith,
}
use podmesh.Manifest.Text.{Bytes}

-- Keys and signatures as bytes: the key that belongs to a private key, a signature, which public
-- keys are points of the curve, which of those are weak, and the strict check of a signature.
pub record Ed25519 : Type 0 where
  pub public_of : Bytes → Bytes
  pub sign : Bytes → Bytes → Bytes
  pub is_point : Bytes → Bool
  pub is_weak : Bytes → Bool
  pub verify_strict : Bytes → Bytes → Bytes → Bool

module _ (k : Ed25519) where
  pub signing_key_from : Bytes → Result Bytes
  signing_key_from sk = do ensure (length sk == 32) "Invalid private key size"; ok sk

  pub verifying_key_from : Bytes → Result Bytes
  verifying_key_from pub_bytes = do
    ensure (length pub_bytes == 32) "Invalid public key size"
    ensure (k.is_point pub_bytes) "Invalid public key"
    ensure (not (k.is_weak pub_bytes)) "Ed25519 public key is of small order"
    ok pub_bytes

  unfoldable pub sign_domain : Bytes → SignatureDomain → Bytes → Result Bytes
  unfolding signing_key_from
  sign_domain sk domain message = do
    key ← signing_key_from sk
    ok (k.sign key (bind domain message))

  unfoldable pub verify_domain : Bytes → SignatureDomain → Bytes → Bytes → Result (Unit {0})
  unfolding verifying_key_from
  verify_domain pub_bytes domain message signature = do
    ensure (length signature == 64) "Invalid signature size"
    key ← verifying_key_from pub_bytes
    ensure (k.verify_strict key (bind domain message) signature) "signature verification failed"

-- What Ed25519 promises of its own signatures: their size, and that they verify.
pub record SignsSoundly (k : Ed25519) : Type 0 where
  pub size : (sk m : Bytes) → length (k.sign sk m) ≡ 64
  pub verifies : (sk m : Bytes) → k.verify_strict (k.public_of sk) m (k.sign sk m) ≡ true

-- A public key that is accepted at all.
pub record IsUsable (k : Ed25519) (key : Bytes) : Type 0 where
  pub size : length key ≡ 32
  pub point : k.is_point key ≡ true
  pub strong : k.is_weak key ≡ false

module _ (k : Ed25519) (sound : SignsSoundly k) (sk : Bytes) where
  -- If Ed25519 verifies its own signatures and the signer's public key is accepted, a signature over a
  -- message under a domain verifies for that key, message and domain, and has 64 bytes.
  pub sign_verify :
      (domain : SignatureDomain) (message signature : Bytes)
      → IsUsable k (k.public_of sk)
      → sign_domain k sk domain message ≡ ok signature
      → (verify_domain k (k.public_of sk) domain message signature ≡ ok tt)
        × (length signature ≡ 64)
  unfolding sign_domain verify_domain
  sign_verify domain message signature usable e =
      let same : signature ≡ k.sign sk (bind domain message) = ground arith in
      (
        rw same (
            ground (
              arith,
              sound.size sk (bind domain message),
              sound.verifies sk (bind domain message),
              usable.size,
              usable.point,
              usable.strong,
            )),
        rw same (sound.size sk (bind domain message)),
      )
