-- ===== src/Protocol/Pairing.antt =====
-- shared/src/protocol/pairing.rs: the sessions of the two sides of a pairing. A session is dropped
-- by its owner once a call of it fails, and a function returns its new value with its result.
-- Random bytes are arguments: `none` is a failed `getrandom::fill`.
pub mod Client
pub mod Server
pub mod Frames
pub mod Steps
pub mod Agreement
pub mod Safety
use tapauth.Prelude.{ℕ, Option, none, List, [], ◌∷◌, Result, ok, err, ◌>>=◌, Bytes}
use tapauth.Crypto.Crates.{Crates, CryptoError}
use tapauth.Crypto.Keys.{
  Ed25519KeyPair, X25519KeyPair, PairingSymmetricKey, generate_exchange_keypair,
}

-- `PAIRING_VERSION`.
abbrev pub pairing_version : ℕ
pairing_version = 1

pub record ClientPairingSession : Type 0 where
  pub x25519_keypair : X25519KeyPair
  pub ed25519_keypair : Ed25519KeyPair
  pub server_x25519_public : Option Bytes
  pub psk : Option PairingSymmetricKey
  pub sas : Option Bytes
  pub server_supported_symmetric : List ℕ
  pub server_supported_hash : List ℕ
  pub server_supported_signature : List ℕ

pub record ServerPairingSession : Type 0 where
  pub x25519_keypair : X25519KeyPair
  pub ed25519_public_key : Bytes
  pub client_x25519_public : Option Bytes
  pub psk : Option PairingSymmetricKey
  pub sas : Option Bytes

module _ (c : Crates) where
  unfoldable pub new_client :
      Ed25519KeyPair → Option Bytes → Result CryptoError ClientPairingSession
  unfolding generate_exchange_keypair
  new_client ed25519_keypair random = do
    x25519_keypair ← generate_exchange_keypair c random
    ok (record {
      x25519_keypair = x25519_keypair;
      ed25519_keypair = ed25519_keypair;
      server_x25519_public = none;
      psk = none;
      sas = none;
      server_supported_symmetric = [];
      server_supported_hash = [];
      server_supported_signature = [];
    })

  unfoldable pub new_server : Bytes → Option Bytes → Result CryptoError ServerPairingSession
  unfolding generate_exchange_keypair
  new_server ed25519_public_key random = do
    x25519_keypair ← generate_exchange_keypair c random
    ok (record {
      x25519_keypair = x25519_keypair;
      ed25519_public_key = ed25519_public_key;
      client_x25519_public = none;
      psk = none;
      sas = none;
    })
