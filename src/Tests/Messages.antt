-- ===== src/Tests/Messages.antt =====
-- Runs of the messages of shared/src/protocol.
use tapauth.Prelude.{Bytes, bytes_eq, ◌≡◌, ◌↔◌, refl, some, ok, true, arith}
use tapauth.Crypto.Keys.{keypair_of}
use tapauth.Crypto.Signing.{sign_ed25519}
use tapauth.Crypto.Temporal.Window.{verify_temporal_identifier-young}
use tapauth.Crypto.Temporal.{
  generate_current_temporal_identifier_ble, generate_temporal_identifier_ble,
  verify_temporal_identifier_ble, verify_temporal_identifier, current_time_window,
  generate_temporal_identifier, generate_current_temporal_identifier,
}
use tapauth.Crypto.Encryption.{encrypt_with_csk_and_random_nonce, seal_prepending}
use tapauth.Protocol.Message.{EncryptedPacket}
use tapauth.Protocol.Messages.{create_auth_grant, sign_wrapper_message, verify_auth_grant}
use tapauth.Protocol.Packet.{
  wrap_auth_grant, create_encrypted_packet_with_csk_nonce, decrypt_encrypted_packet_with_csk_nonce,
}
use tapauth.Protocol.Grants.{IsGrant, verify_auth_grant_iff}
use tapauth.Protocol.Delivery.{decrypt-create_packet}
use tapauth.Tests.Toy.{
  crates, crates-laws, codec, csk, nonce, phone_seed, phone_key, challenge, grant, granted,
}

verify_auth_grant_iff_example :
    (verify_auth_grant crates codec grant challenge phone_key ≡ ok tt)
    ↔ IsGrant crates codec grant challenge phone_key
verify_auth_grant_iff_example = verify_auth_grant_iff crates codec grant challenge phone_key

grant_made : create_auth_grant crates codec (keypair_of crates phone_seed) challenge ≡ ok granted
unfolding create_auth_grant sign_ed25519
grant_made = refl

grant_signed :
    sign_wrapper_message crates codec (wrap_auth_grant granted) (keypair_of crates phone_seed)
    ≡ ok grant
unfolding sign_wrapper_message wrap_auth_grant sign_ed25519
grant_signed = refl

grant_packed :
    (packet : EncryptedPacket) × (create_encrypted_packet_with_csk_nonce crates codec
        (some 600)
        (some nonce)
        csk
        grant
      ≡ ok packet)
unfolding create_encrypted_packet_with_csk_nonce generate_current_temporal_identifier
    current_time_window generate_temporal_identifier encrypt_with_csk_and_random_nonce
    seal_prepending
grant_packed = (_, refl)

decrypt-create_packet_example :
    (decrypt_encrypted_packet_with_csk_nonce crates codec csk grant_packed.0 ≡ ok grant)
    × (generate_current_temporal_identifier crates csk (some 600)
        ≡ ok grant_packed.0.temporal_identifier)
decrypt-create_packet_example =
    decrypt-create_packet crates codec crates-laws csk (some 600) nonce grant
      {packet = grant_packed.0} refl refl grant_packed.1

current_made :
    (identifier : Bytes) × (generate_current_temporal_identifier crates csk (some 600)
      ≡ ok identifier)
unfolding generate_current_temporal_identifier current_time_window generate_temporal_identifier
current_made = (_, refl)

current_made_ble :
    (identifier : Bytes) × (generate_current_temporal_identifier_ble crates csk (some 600)
      ≡ ok identifier)
unfolding generate_current_temporal_identifier_ble current_time_window
    generate_temporal_identifier_ble
current_made_ble = (_, refl)

-- Made in window 10, and tested when window 11 has begun.
verify_temporal_identifier-young_example :
    (verify_temporal_identifier crates csk (some 659) (some 660) current_made.0 ≡ ok true)
    × (verify_temporal_identifier_ble crates csk (some 659) (some 660) current_made_ble.0 ≡ ok true)
verify_temporal_identifier-young_example =
    verify_temporal_identifier-young crates crates-laws csk 600 659 660 current_made.0
      current_made_ble.0 (omega arith) (omega arith) (omega arith) current_made.1 current_made_ble.1
