-- ===== src/Crypto/Keys.antt =====
-- shared/src/crypto/keys.rs. Random bytes are an argument: `none` is a failed `getrandom::fill`.
use tapauth.Prelude.{Option, Result, ok, ok_or, ◌>>=◌, Bytes}
use tapauth.Crypto.Crates.{Crates, CryptoError, random_generation_failed}

pub record Ed25519KeyPair : Type 0 where
  pub signing_key_bytes : Bytes
  pub verifying_key : Bytes

pub record X25519KeyPair : Type 0 where
  pub secret_bytes : Bytes
  pub public : Bytes

pub record ClientSymmetricKey : Type 0 where
  pub as_bytes : Bytes

pub record PairingSymmetricKey : Type 0 where
  pub as_bytes : Bytes

module _ (c : Crates) where
  abbrev pub keypair_of : Bytes → Ed25519KeyPair
  keypair_of seed = record { signing_key_bytes = seed; verifying_key = c.ed25519_public seed }

  abbrev pub exchange_keypair_of : Bytes → X25519KeyPair
  exchange_keypair_of secret = record { secret_bytes = secret; public = c.x25519_public secret }

  unfoldable pub generate_keypair : Option Bytes → Result CryptoError Ed25519KeyPair
  generate_keypair random = do seed ← ok_or random random_generation_failed; ok (keypair_of seed)

  unfoldable pub generate_exchange_keypair : Option Bytes → Result CryptoError X25519KeyPair
  generate_exchange_keypair random = do
    secret ← ok_or random random_generation_failed
    ok (exchange_keypair_of secret)

  unfoldable pub diffie_hellman : X25519KeyPair → Bytes → Result CryptoError Bytes
  diffie_hellman pair their_public = ok (c.x25519_shared pair.secret_bytes their_public)

unfoldable pub generate_csk : Option Bytes → Result CryptoError ClientSymmetricKey
generate_csk random = do key ← ok_or random random_generation_failed; ok (record { as_bytes = key })
