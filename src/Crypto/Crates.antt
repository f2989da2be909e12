-- ===== src/Crypto/Crates.antt =====
-- What shared/src/crypto takes from third-party crates (ed25519-dalek, x25519-dalek, aes-gcm, hkdf,
-- hmac, sha2, hex), as a record of functions, and the documented behaviour that proofs rely on.
use tapauth.Prelude.{ℕ, String, Bool, true, Option, some, List, ◌≡◌, Bytes, length}

pub data CryptoError : Type 0 where
  invalid_key_length invalid_signature encryption_failed decryption_failed : CryptoError
  key_derivation_failed random_generation_failed system_time_error : CryptoError

pub record Crates : Type 0 where
  -- ed25519-dalek: `SigningKey::verifying_key`, `sign`, `VerifyingKey::from_bytes` and `verify`.
  pub ed25519_public : Bytes → Bytes
  pub ed25519_sign : Bytes → Bytes → Bytes
  pub ed25519_is_point : Bytes → Bool
  pub ed25519_verify : Bytes → Bytes → Bytes → Bool
  -- x25519-dalek: `PublicKey::from` and `diffie_hellman`.
  pub x25519_public : Bytes → Bytes
  pub x25519_shared : Bytes → Bytes → Bytes
  -- aes-gcm: key, nonce, message, associated data.
  pub aes_encrypt : Bytes → Bytes → Bytes → Bytes → Option Bytes
  pub aes_decrypt : Bytes → Bytes → Bytes → Bytes → Option Bytes
  -- hkdf: input key, info parts, output length, with no salt.
  pub hkdf_expand : Bytes → List Bytes → ℕ → Option Bytes
  -- hmac: key and message; `none` is a rejected key.
  pub hmac_sha256 : Bytes → Bytes → Option Bytes
  pub sha256 : Bytes → Bytes
  pub hex_encode : Bytes → String
  pub hex_decode : String → Option Bytes

pub record CrateLaws (c : Crates) : Type 0 where
  -- A signature verifies under the signer's key, which is a curve point, and has 64 bytes.
  pub sign_verifies :
      (k m : Bytes) → c.ed25519_verify (c.ed25519_public k) m (c.ed25519_sign k m) ≡ true
  pub public_is_point : (k : Bytes) → c.ed25519_is_point (c.ed25519_public k) ≡ true
  pub sign_length : (k m : Bytes) → length (c.ed25519_sign k m) ≡ 64
  pub ed25519_public_length : (k : Bytes) → length (c.ed25519_public k) ≡ 32
  -- What is sealed opens under the same key, nonce and data.
  pub decrypt-encrypt :
      (k n m a s : Bytes) → c.aes_encrypt k n m a ≡ some s → c.aes_decrypt k n s a ≡ some m
  -- Both sides of the exchange compute one secret.
  pub shared_comm :
      (a b : Bytes) → c.x25519_shared a (c.x25519_public b) ≡ c.x25519_shared b (c.x25519_public a)
  pub x25519_public_length : (k : Bytes) → length (c.x25519_public k) ≡ 32
  -- HMAC accepts keys of every length and returns 32 bytes.
  pub hmac_total : (k m : Bytes) → (t : Bytes) × (c.hmac_sha256 k m ≡ some t) × (length t ≡ 32)
  pub sha256_length : (m : Bytes) → length (c.sha256 m) ≡ 32
  -- HKDF fills the output that it is given.
  pub hkdf_length :
      (k : Bytes) (i : List Bytes) (n : ℕ) (t : Bytes) → c.hkdf_expand k i n ≡ some t → length t ≡ n
