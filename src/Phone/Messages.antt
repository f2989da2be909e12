-- ===== src/Phone/Messages.antt =====
-- shared/src/jni_api.rs: the messages of an authentication, as the phone reads and writes them.
use tapauth.Prelude.{
  ℕ, String, Option, some, none, [], ◌++◌, Result, ok, err, ok_or, fail_if, not, ◌>>=◌, ◌>>◌, Bytes,
  length, ◌==◌, nat_eq, ltb, get_to, get_from,
}
use tapauth.Crypto.Crates.{Crates}
use tapauth.Crypto.Encryption.{encrypt_aes_gcm, decrypt_aes_gcm}
use tapauth.Crypto.Temporal.{generate_current_temporal_identifier}
use tapauth.Protocol.Message.{
  Codec, WrapperMessage, AuthenticationRequest, GrantConfirmation, AuthenticationCancel, Payload,
  auth_request, auth_grant, auth_denial, grant_confirmation, auth_cancel, EncryptedPacket, ed25519,
  aes_256_gcm,
}
use tapauth.Protocol.Messages.{sign_wrapper_message}
use tapauth.Phone.{Exception, io, security, to_fixed, to_ed25519_keypair, throwing, decoded}

-- prost's encoding of the packet that carries a wrapper, which a build generates.
pub record PacketCodec : Type 0 where
  pub encode : EncryptedPacket → Bytes
  pub decode : Bytes → Option EncryptedPacket

-- The objects of Java that carry a payload with the signature of its wrapper.
pub record Signed (A : Type 0) : Type 0 where
  pub content : A
  pub signature_algorithm : ℕ
  pub signature : Bytes

unfoldable pub signed_by : {A : Type 0} → WrapperMessage → A → Signed A
signed_by wrapper a = record {
  content = a;
  signature_algorithm = wrapper.signature_algorithm;
  signature = wrapper.signature;
}

unfoldable pub expect_request : Option Payload → Result Exception AuthenticationRequest
expect_request (some (auth_request request)) = ok request
expect_request _ = err io

expect_confirmation : Option Payload → Result Exception GrantConfirmation
expect_confirmation (some (grant_confirmation confirmation)) = ok confirmation
expect_confirmation _ = err io

expect_cancel : Option Payload → Result Exception AuthenticationCancel
expect_cancel (some (auth_cancel cancel)) = ok cancel
expect_cancel _ = err io

type_name : Option Payload → String
type_name (some (auth_request _)) = "AUTH_REQUEST"
type_name (some (auth_grant _)) = "AUTH_GRANT"
type_name (some (auth_denial _)) = "AUTH_DENIAL"
type_name (some (grant_confirmation _)) = "GRANT_CONFIRMATION"
type_name (some (auth_cancel _)) = "AUTH_CANCEL"
type_name none = "UNKNOWN"

module _ (p : Codec) where
  unfoldable pub parse_auth_request : Bytes → Result Exception (Signed AuthenticationRequest)
  unfolding expect_request signed_by
  parse_auth_request request_bytes = do
    wrapper ← decoded (p.decode_wrapper request_bytes)
    request ← expect_request wrapper.payload
    ok (signed_by wrapper request)

  unfoldable pub parse_grant_confirmation : Bytes → Result Exception (Signed GrantConfirmation)
  unfolding expect_confirmation signed_by
  parse_grant_confirmation confirmation_bytes = do
    wrapper ← decoded (p.decode_wrapper confirmation_bytes)
    confirmation ← expect_confirmation wrapper.payload
    ok (signed_by wrapper confirmation)

  unfoldable pub parse_authentication_cancel :
      Bytes → Result Exception (Signed AuthenticationCancel)
  unfolding expect_cancel signed_by
  parse_authentication_cancel cancel_bytes = do
    wrapper ← decoded (p.decode_wrapper cancel_bytes)
    cancel ← expect_cancel wrapper.payload
    ok (signed_by wrapper cancel)

  unfoldable pub determine_message_type : Bytes → Result Exception String
  unfolding type_name
  determine_message_type wrapper_message_bytes = do
    wrapper ← decoded (p.decode_wrapper wrapper_message_bytes)
    ok (type_name wrapper.payload)

  unfoldable pub serialize_auth_request_for_verification : Bytes → String → String → ℕ → ℕ → Bytes
  serialize_auth_request_for_verification challenge username hostname timestamp
        signature_algorithm =
      p.encode_wrapper (record {
        version = 1;
        signature_algorithm = signature_algorithm;
        signature = [];
        payload = some (
            auth_request (record {
              challenge = challenge;
              username = username;
              hostname = hostname;
              timestamp_unix_seconds = timestamp;
            }));
      })

module _ (c : Crates) (p : Codec) where
  -- The common end of the two functions below: the wrapper is signed and encoded.
  sign_payload : Payload → Bytes → Result Exception Bytes
  unfolding to_ed25519_keypair
  sign_payload payload private_key = do
    keypair ← to_ed25519_keypair c private_key
    let wrapper : WrapperMessage = record {
      version = 1;
      signature_algorithm = ed25519;
      signature = [];
      payload = some payload;
    }
    signed ← throwing io (sign_wrapper_message c p wrapper keypair)
    ok (p.encode_wrapper signed)

  unfoldable pub create_grant_wrapper_message : Bytes → Bytes → Result Exception Bytes
  unfolding sign_payload
  create_grant_wrapper_message signed_challenge private_key =
      sign_payload (auth_grant (record { signed_challenge = signed_challenge })) private_key

  unfoldable pub create_denial_wrapper_message : Bytes → Bytes → Result Exception Bytes
  unfolding to_fixed sign_payload
  create_denial_wrapper_message challenge private_key = do
    challenge_bytes ← to_fixed 32 challenge
    sign_payload (auth_denial (record { challenge = challenge_bytes })) private_key

module _ (c : Crates) (q : PacketCodec) where
  unfoldable pub parse_encrypted_packet_structure : Bytes → Result Exception EncryptedPacket
  parse_encrypted_packet_structure packet_bytes = decoded (q.decode packet_bytes)

  unfoldable pub extract_temporal_identifier : Bytes → Result Exception Bytes
  extract_temporal_identifier packet_bytes = do
    packet ← decoded (q.decode packet_bytes)
    fail_if (not (length packet.temporal_identifier == 16)) io
    ok packet.temporal_identifier

  -- `random` is what `getrandom::fill` made of the nonce.
  unfoldable pub create_encrypted_packet :
      Option ℕ → Option Bytes → Bytes → Bytes → Result Exception Bytes
  unfolding to_fixed encrypt_aes_gcm
  create_encrypted_packet clock random csk wrapper_message_bytes = do
    csk_array ← to_fixed 32 csk
    nonce ← ok_or random security
    sealed ← throwing security (encrypt_aes_gcm c csk_array nonce wrapper_message_bytes [])
    temporal_id ←
        throwing security
          (generate_current_temporal_identifier c (record { as_bytes = csk_array }) clock)
    ok (
        q.encode (record {
          temporal_identifier = temporal_id;
          encryption_algorithm = aes_256_gcm;
          ciphertext = nonce ++ sealed;
        }))

  unfoldable pub decrypt_encrypted_packet : Bytes → Bytes → Result Exception Bytes
  unfolding to_fixed decrypt_aes_gcm
  decrypt_encrypted_packet csk encrypted_packet_bytes = do
    csk_array ← to_fixed 32 csk
    packet ← decoded (q.decode encrypted_packet_bytes)
    fail_if (ltb (length packet.ciphertext) 12) security
    nonce ← ok_or (get_to 12 packet.ciphertext) security
    actual_ciphertext ← ok_or (get_from 12 packet.ciphertext) security
    throwing security (decrypt_aes_gcm c csk_array nonce actual_ciphertext [])
