-- ===== src/Protocol/Delivery.antt =====
-- What shared/src/protocol/packet.rs packs, it unpacks.
use tapauth.Prelude.{
  ℕ, ◌≡◌, Option, some, ok, >>=-eq-ok, map_err, map_err-eq-ok, Bytes, length, arith,
}
use tapauth.Crypto.Crates.{Crates, CrateLaws}
use tapauth.Crypto.Keys.{ClientSymmetricKey}
use tapauth.Crypto.Temporal.{generate_current_temporal_identifier}
use tapauth.Crypto.Encryption.{encrypt_with_csk_and_random_nonce}
use tapauth.Crypto.Encryption.RoundTrip.{decrypt-encrypt_csk}
use tapauth.Protocol.Message.{Codec, WrapperMessage, EncryptedPacket, crypto}
use tapauth.Protocol.Packet.{
  create_encrypted_packet_with_csk_nonce, decrypt_encrypted_packet_with_csk_nonce,
}

-- A message packed under a client key with a 12-byte nonce is what unpacking under that key
-- gives back, and the packet carries the key's identifier of the current window; prost is taken
-- to decode what it encoded for this message.
pub decrypt-create_packet :
    (c : Crates) (p : Codec)
    → CrateLaws c
    → (csk : ClientSymmetricKey) (clock : Option ℕ) (nonce : Bytes) (wrapper : WrapperMessage)
      {packet : EncryptedPacket}
    → length nonce ≡ 12
    → p.decode_wrapper (p.encode_wrapper wrapper) ≡ some wrapper
    → create_encrypted_packet_with_csk_nonce c p clock (some nonce) csk wrapper ≡ ok packet
    → (decrypt_encrypted_packet_with_csk_nonce c p csk packet ≡ ok wrapper)
      × (generate_current_temporal_identifier c csk clock ≡ ok packet.temporal_identifier)
unfolding create_encrypted_packet_with_csk_nonce decrypt_encrypted_packet_with_csk_nonce
decrypt-create_packet c p laws csk clock nonce wrapper {packet} sized decodes made =
    let (tid, is_tid, made₁) =
      >>=-eq-ok (map_err crypto (generate_current_temporal_identifier c csk clock)) _ made in
    let plaintext = p.encode_wrapper wrapper in
    let (s, is_sealed, made₂) =
      >>=-eq-ok (map_err crypto (encrypt_with_csk_and_random_nonce c csk (some nonce) plaintext)) _
        made₁ in
    let opened =
      decrypt-encrypt_csk c laws csk nonce plaintext sized (map_err-eq-ok crypto _ is_sealed) in
    (ground (arith, opened), ground (arith, map_err-eq-ok crypto _ is_tid))
