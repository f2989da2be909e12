-- ===== src/Protocol/Message.antt =====
-- proto/auth_protocol.proto as the types that prost generates, its encoding as a parameter, and
-- the errors of shared/src/protocol/messages.rs. Enum fields hold the raw number of the wire.
use tapauth.Prelude.{ℕ, String, Bool, Option, List, Bytes}
use tapauth.Crypto.Crates.{CryptoError}

pub record AuthenticationRequest : Type 0 where
  pub challenge : Bytes
  pub username : String
  pub hostname : String
  pub timestamp_unix_seconds : ℕ

pub record AuthenticationGrant : Type 0 where
  pub signed_challenge : Bytes

pub record AuthenticationDenial : Type 0 where
  pub challenge : Bytes

pub record GrantConfirmation : Type 0 where
  pub challenge : Bytes

pub record AuthenticationCancel : Type 0 where
  pub challenge : Bytes

pub data Payload : Type 0 where
  auth_request : AuthenticationRequest → Payload
  auth_grant : AuthenticationGrant → Payload
  auth_denial : AuthenticationDenial → Payload
  grant_confirmation : GrantConfirmation → Payload
  auth_cancel : AuthenticationCancel → Payload

pub record WrapperMessage : Type 0 where
  pub version : ℕ
  pub signature_algorithm : ℕ
  pub signature : Bytes
  pub payload : Option Payload

pub record EncryptedPacket : Type 0 where
  pub temporal_identifier : Bytes
  pub encryption_algorithm : ℕ
  pub ciphertext : Bytes

pub record PairingHello : Type 0 where
  pub version : ℕ
  pub x25519_public_key : Bytes
  pub ed25519_public_key : Bytes
  pub device_name : String
  pub supported_symmetric_algorithms : List ℕ
  pub supported_hash_algorithms : List ℕ
  pub supported_signature_algorithms : List ℕ

pub record PairingResponse : Type 0 where
  pub version : ℕ
  pub x25519_public_key : Bytes
  pub ed25519_public_key : Bytes
  pub device_name : String
  pub selected_symmetric_algorithm : ℕ
  pub selected_hash_algorithm : ℕ
  pub selected_signature_algorithm : ℕ

pub record PairingCskMessage : Type 0 where
  pub encrypted_csk : Bytes
  pub username : String

pub record PairingComplete : Type 0 where
  pub success : Bool
  pub hash_algorithm : ℕ
  pub csk_hash : Bytes

-- `SignatureAlgorithm::Ed25519`, `SymmetricAlgorithm::Aes256Gcm` and `HashAlgorithm::Sha256`.
abbrev pub ed25519 : ℕ
ed25519 = 1

abbrev pub aes_256_gcm : ℕ
aes_256_gcm = 1

abbrev pub sha_256 : ℕ
sha_256 = 1

-- prost's `encode_to_vec` and `decode`, which a build generates.
pub record Codec : Type 0 where
  pub encode_wrapper : WrapperMessage → Bytes
  pub decode_wrapper : Bytes → Option WrapperMessage
  pub encode_hello : PairingHello → Bytes
  pub decode_hello : Bytes → Option PairingHello
  pub encode_response : PairingResponse → Bytes
  pub decode_response : Bytes → Option PairingResponse
  pub encode_csk_message : PairingCskMessage → Bytes
  pub decode_csk_message : Bytes → Option PairingCskMessage
  pub encode_complete : PairingComplete → Bytes
  pub decode_complete : Bytes → Option PairingComplete

pub data ProtocolError : Type 0 where
  serialization deserialization invalid_signature invalid_message_format io : ProtocolError
  crypto : CryptoError → ProtocolError
  missing_field : String → ProtocolError
