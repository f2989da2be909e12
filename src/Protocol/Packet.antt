-- ===== src/Protocol/Packet.antt =====
-- shared/src/protocol/packet.rs.
use tapauth.Prelude.{ℕ, Option, none, some, [], Result, ok, ok_or, map_err, ◌>>=◌, Bytes}
use tapauth.Crypto.Crates.{Crates}
use tapauth.Crypto.Keys.{ClientSymmetricKey}
use tapauth.Crypto.Temporal.{generate_current_temporal_identifier}
use tapauth.Crypto.Encryption.{
  encrypt_with_csk, decrypt_with_csk, encrypt_with_csk_and_random_nonce,
  decrypt_with_csk_and_prepended_nonce,
}
use tapauth.Protocol.Message.{
  Codec, WrapperMessage, AuthenticationRequest, AuthenticationGrant, AuthenticationDenial,
  GrantConfirmation, AuthenticationCancel, Payload, auth_request, auth_grant, auth_denial,
  grant_confirmation, auth_cancel, EncryptedPacket, ed25519, aes_256_gcm, ProtocolError, crypto,
  deserialization,
}

abbrev wrap : Payload → WrapperMessage
wrap payload = record {
  version = 1;
  signature_algorithm = ed25519;
  signature = [];
  payload = some payload;
}

unfoldable pub wrap_auth_request : AuthenticationRequest → WrapperMessage
wrap_auth_request request = wrap (auth_request request)

unfoldable pub wrap_auth_grant : AuthenticationGrant → WrapperMessage
wrap_auth_grant grant = wrap (auth_grant grant)

unfoldable pub wrap_auth_denial : AuthenticationDenial → WrapperMessage
wrap_auth_denial denial = wrap (auth_denial denial)

unfoldable pub wrap_grant_confirmation : GrantConfirmation → WrapperMessage
wrap_grant_confirmation confirmation = wrap (grant_confirmation confirmation)

unfoldable pub wrap_auth_cancel : AuthenticationCancel → WrapperMessage
wrap_auth_cancel cancel = wrap (auth_cancel cancel)

challenge_of : Option Payload → Option Bytes
challenge_of (some (auth_request req)) = some req.challenge
challenge_of (some (auth_denial denial)) = some denial.challenge
challenge_of (some (grant_confirmation conf)) = some conf.challenge
challenge_of (some (auth_cancel cancel)) = some cancel.challenge
challenge_of _ = none

unfoldable pub extract_challenge : WrapperMessage → Option Bytes
unfolding challenge_of
extract_challenge wrapper = challenge_of wrapper.payload

module _ (c : Crates) (p : Codec) where
  unfoldable pub create_encrypted_packet :
      Option ℕ
      → ClientSymmetricKey
      → Bytes
      → Bytes
      → WrapperMessage
      → Result ProtocolError EncryptedPacket
  create_encrypted_packet clock csk challenge context wrapper = do
    temporal_identifier ← map_err crypto (generate_current_temporal_identifier c csk clock)
    let plaintext = p.encode_wrapper wrapper
    ciphertext ← map_err crypto (encrypt_with_csk c csk challenge context plaintext)
    ok (record {
      temporal_identifier = temporal_identifier;
      encryption_algorithm = aes_256_gcm;
      ciphertext = ciphertext;
    })

  -- `random` is what `getrandom::fill` made of the nonce.
  unfoldable pub create_encrypted_packet_with_csk_nonce :
      Option ℕ
      → Option Bytes
      → ClientSymmetricKey
      → WrapperMessage
      → Result ProtocolError EncryptedPacket
  create_encrypted_packet_with_csk_nonce clock random csk wrapper = do
    temporal_identifier ← map_err crypto (generate_current_temporal_identifier c csk clock)
    let plaintext = p.encode_wrapper wrapper
    ciphertext ← map_err crypto (encrypt_with_csk_and_random_nonce c csk random plaintext)
    ok (record {
      temporal_identifier = temporal_identifier;
      encryption_algorithm = aes_256_gcm;
      ciphertext = ciphertext;
    })

  unfoldable pub decrypt_encrypted_packet :
      ClientSymmetricKey → Bytes → Bytes → EncryptedPacket → Result ProtocolError WrapperMessage
  decrypt_encrypted_packet csk challenge context packet = do
    plaintext ← map_err crypto (decrypt_with_csk c csk challenge context packet.ciphertext)
    ok_or (p.decode_wrapper plaintext) deserialization

  unfoldable pub decrypt_encrypted_packet_with_csk_nonce :
      ClientSymmetricKey → EncryptedPacket → Result ProtocolError WrapperMessage
  decrypt_encrypted_packet_with_csk_nonce csk packet = do
    plaintext ← map_err crypto (decrypt_with_csk_and_prepended_nonce c csk packet.ciphertext)
    ok_or (p.decode_wrapper plaintext) deserialization
