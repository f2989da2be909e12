-- ===== src/Phone/Request.antt =====
-- A request that tapauthd/src/auth_handler.rs sends, as the phone of shared/src/jni_api.rs reads
-- and checks it.
use tapauth.Prelude.{
  ℕ, ◌≡◌, refl, sym, ap, ◌∙◌, String, true, Option, some, [], ◌++◌, ok, ok_or, map_err,
  map_err-eq-ok, >>=-ended, ok_or-eq-ok, ok_inj, Bytes, length, nat_eq, take-length-append,
  drop-length-append, length-append, arith,
}
use tapauth.Crypto.Crates.{Crates, CrateLaws, encryption_failed}
use tapauth.Crypto.Keys.{ClientSymmetricKey, keypair_of}
use tapauth.Crypto.Temporal.{generate_current_temporal_identifier}
use tapauth.Crypto.Encryption.{
  encrypt_aes_gcm, decrypt_aes_gcm, encrypt_with_csk_and_random_nonce, seal_prepending,
}
use tapauth.Protocol.Message.{Codec, WrapperMessage, AuthenticationRequest, EncryptedPacket, crypto}
use tapauth.Protocol.Messages.{
  create_auth_request_with_challenge, sign_wrapper_message, signed_part,
}
use tapauth.Protocol.Packet.{wrap_auth_request, create_encrypted_packet_with_csk_nonce}
use tapauth.Protocol.Grants.{verify_wrapper_signature_iff, verify_wrapper_signature-sign}
use tapauth.Phone.{to_fixed-whole}
use tapauth.Phone.Keys.{verify_signature}
use tapauth.Phone.Messages.{
  PacketCodec, Signed, parse_auth_request, serialize_auth_request_for_verification, expect_request,
  signed_by, decrypt_encrypted_packet,
}

module _ (c : Crates) (p : Codec) (q : PacketCodec) (laws : CrateLaws c) where
  -- The phone opens what was sealed with the nonce in front.
  decrypt_encrypted_packet-append :
      (csk nonce sealed m : Bytes) (packet : EncryptedPacket)
      → length csk ≡ 32
      → length nonce ≡ 12
      → q.decode (q.encode packet) ≡ some packet
      → packet.ciphertext ≡ nonce ++ sealed
      → c.aes_decrypt csk nonce sealed [] ≡ some m
      → decrypt_encrypted_packet c q csk (q.encode packet) ≡ ok m
  unfolding decrypt_encrypted_packet decrypt_aes_gcm
  decrypt_encrypted_packet-append csk nonce sealed m packet whole sized carried splits opened =
      rw (to_fixed-whole 32 csk whole, carried, splits)
        (ground (
          arith,
          length-append nonce sealed,
          take-length-append nonce sealed 12 sized,
          drop-length-append nonce sealed 12 sized,
        ))

  -- The ciphertext of a packet of the daemon.
  create_packet-ciphertext :
      (clock : Option ℕ) (nonce : Bytes) (csk : ClientSymmetricKey) (wrapper : WrapperMessage)
      {packet : EncryptedPacket}
      → create_encrypted_packet_with_csk_nonce c p clock (some nonce) csk wrapper ≡ ok packet
      → (sealed : Bytes) × (c.aes_encrypt csk.as_bytes nonce (p.encode_wrapper wrapper) []
          ≡ some sealed)
        × (packet.ciphertext ≡ nonce ++ sealed)
  unfolding create_encrypted_packet_with_csk_nonce encrypt_with_csk_and_random_nonce seal_prepending
      encrypt_aes_gcm
  create_packet-ciphertext clock nonce csk wrapper made =
      >>=-ended (map_err crypto (generate_current_temporal_identifier c csk clock)) _ made
        λ tid is_tid made₁.
          >>=-ended
            (map_err crypto
              (encrypt_with_csk_and_random_nonce c csk (some nonce) (p.encode_wrapper wrapper)))
            _ made₁
            λ ciphertext is_sealed made₂.
              >>=-ended
                (ok_or (c.aes_encrypt csk.as_bytes nonce (p.encode_wrapper wrapper) [])
                  encryption_failed)
                _ (map_err-eq-ok crypto _ is_sealed)
                λ sealed sealing made₃. (
                  sealed,
                  ok_or-eq-ok _ _ sealing,
                  sym (ap (λ m. m.ciphertext) (ok_inj made₂)) ∙ sym (ok_inj made₃),
                )

  -- A request that the daemon makes, signs and encrypts under a 32-byte client key with a 12-byte
  -- nonce is decrypted and parsed by the phone with the challenge, user and host that the daemon
  -- put in, and the daemon's signature verifies over the request as the phone serializes it again;
  -- prost is taken to decode the two messages.
  pub verify_signature-create_request :
      (seed nonce challenge : Bytes) (csk : ClientSymmetricKey) (clock : Option ℕ)
      (username hostname : String) (request : AuthenticationRequest) (wrapper : WrapperMessage)
      (packet : EncryptedPacket)
      → length csk.as_bytes ≡ 32
      → length nonce ≡ 12
      → create_auth_request_with_challenge clock username hostname challenge ≡ ok request
      → sign_wrapper_message c p (wrap_auth_request request) (keypair_of c seed) ≡ ok wrapper
      → p.decode_wrapper (p.encode_wrapper wrapper) ≡ some wrapper
      → create_encrypted_packet_with_csk_nonce c p clock (some nonce) csk wrapper ≡ ok packet
      → q.decode (q.encode packet) ≡ some packet
      → (message : Bytes) × (r : Signed AuthenticationRequest) × (decrypt_encrypted_packet c q
            csk.as_bytes
            (q.encode packet)
          ≡ ok message)
        × (parse_auth_request p message ≡ ok r)
        × (r.content.challenge ≡ challenge)
        × (r.content.username ≡ username)
        × (r.content.hostname ≡ hostname)
        × (verify_signature c
              (c.ed25519_public seed)
              (serialize_auth_request_for_verification p r.content.challenge r.content.username
                r.content.hostname r.content.timestamp_unix_seconds r.signature_algorithm)
              r.signature
            ≡ ok true)
  unfolding parse_auth_request expect_request signed_by serialize_auth_request_for_verification
      wrap_auth_request sign_wrapper_message create_auth_request_with_challenge verify_signature
  verify_signature-create_request seed nonce challenge csk clock username hostname request wrapper
        packet whole sized made signs decodes packs carried =
      let (sealed, sealing, splits) = create_packet-ciphertext clock nonce csk wrapper packs in
      let opened =
        laws.decrypt-encrypt csk.as_bytes nonce (p.encode_wrapper wrapper) [] sealed sealing in
      let (point, long, verified) =
        (verify_wrapper_signature_iff c p wrapper (c.ed25519_public seed)).0
          (verify_wrapper_signature-sign c p laws seed (wrap_auth_request request) signs) in
      let is_wrapper = ok_inj signs in
      let message : serialize_auth_request_for_verification p request.challenge request.username
            request.hostname request.timestamp_unix_seconds wrapper.signature_algorithm
          ≡ signed_part c p wrapper =
        rw (← is_wrapper) refl in
      let payload = sym (ap (λ w. w.payload) is_wrapper) in
      let checked : verify_signature c (c.ed25519_public seed) (signed_part c p wrapper)
            wrapper.signature
          ≡ ok true =
        rw
          (
            to_fixed-whole 32 (c.ed25519_public seed) (laws.ed25519_public_length seed),
            to_fixed-whole 64 wrapper.signature long,
            point,
            verified,
          )
          refl in
      (
        p.encode_wrapper wrapper,
        signed_by wrapper request,
        decrypt_encrypted_packet-append csk.as_bytes nonce sealed (p.encode_wrapper wrapper) packet
            whole sized carried splits opened,
        rw (decodes, payload) refl,
        ground (arith, made),
        ground (arith, made),
        ground (arith, made),
        rw message checked,
      )
