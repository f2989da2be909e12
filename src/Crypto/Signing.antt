-- ===== src/Crypto/Signing.antt =====
-- shared/src/crypto/signing.rs.
use tapauth.Prelude.{◌≡◌, ◌↔◌, true, not, Result, ok, fail_if, ◌>>◌, Bytes, length, nat_beq, arith}
use tapauth.Crypto.Crates.{Crates, CrateLaws, CryptoError, invalid_signature}
use tapauth.Crypto.Keys.{Ed25519KeyPair, keypair_of}

module _ (c : Crates) where
  unfoldable pub sign_ed25519 : Ed25519KeyPair → Bytes → Bytes
  sign_ed25519 keypair message = c.ed25519_sign keypair.signing_key_bytes message

  unfoldable pub verify_ed25519 : Bytes → Bytes → Bytes → Result CryptoError (Unit {0})
  verify_ed25519 public_key message signature = do
    fail_if (not (c.ed25519_is_point public_key)) invalid_signature
    fail_if (not (nat_beq (length signature) 64)) invalid_signature
    fail_if (not (c.ed25519_verify public_key message signature)) invalid_signature
    ok tt

  -- A signature that the curve's own check accepts: the key is a point, the signature has 64 bytes.
  abbrev pub IsSignature : Bytes → Bytes → Bytes → Type 0
  IsSignature k m s =
      (c.ed25519_is_point k ≡ true) × (length s ≡ 64) × (c.ed25519_verify k m s ≡ true)

  pub verify_ed25519_iff : (k m s : Bytes) → (verify_ed25519 k m s ≡ ok tt) ↔ IsSignature k m s
  unfolding verify_ed25519
  verify_ed25519_iff k m s = (λ h. ground arith, λ h. ground arith)

  pub sign_ed25519-IsSignature :
      CrateLaws c
      → (seed m : Bytes)
      → IsSignature (c.ed25519_public seed) m (sign_ed25519 (keypair_of c seed) m)
  unfolding sign_ed25519
  sign_ed25519-IsSignature laws seed m =
      (laws.public_is_point seed, laws.sign_length seed m, laws.sign_verifies seed m)
