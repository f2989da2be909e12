-- ===== src/Phone/Approval.antt =====
-- The phone of shared/src/jni_api.rs and the daemon of tapauthd/src/auth_handler.rs, one after the
-- other.
use tapauth.Prelude.{
  ℕ, ◌≡◌, refl, sym, ◌∙◌, String, Option, some, List, [], ◌∷◌, ◌++◌, All, Result, ok, err, ok_or,
  >>=-ended, ok_or-eq-ok, ok_inj, Bytes, length, nat_eq,
}
use tapauth.Crypto.Crates.{Crates, CrateLaws, encryption_failed}
use tapauth.Crypto.Keys.{ClientSymmetricKey, keypair_of}
use tapauth.Crypto.Signing.{IsSignature, sign_ed25519, sign_ed25519-IsSignature}
use tapauth.Crypto.Temporal.{generate_current_temporal_identifier}
use tapauth.Crypto.Encryption.{encrypt_aes_gcm, encrypt_with_csk_and_random_nonce, seal_prepending}
use tapauth.Crypto.Encryption.RoundTrip.{decrypt-encrypt_csk}
use tapauth.Protocol.Message.{
  Codec, WrapperMessage, AuthenticationGrant, EncryptedPacket, aes_256_gcm,
}
use tapauth.Protocol.Messages.{sign_wrapper_message, signed_part}
use tapauth.Protocol.Packet.{wrap_auth_grant, decrypt_encrypted_packet_with_csk_nonce}
use tapauth.Protocol.Grants.{
  verify_wrapper_signature_iff, verify_wrapper_signature-sign, payload-sign,
}
use tapauth.Daemon.Auth.Response.{Context, response, Action}
use tapauth.Daemon.Auth.Evidence.{KeyHolder}
use tapauth.Daemon.Auth.Loop.{Round, authenticate_with_transport}
use tapauth.Daemon.Auth.Progress.{IsOpen, IsQuiet, BringsGrant, grant-succeeds}
use tapauth.Phone.{Exception, security, to_fixed, to_fixed-whole, to_ed25519_keypair, throwing}
use tapauth.Phone.Keys.{sign_data}
use tapauth.Phone.Messages.{PacketCodec, create_grant_wrapper_message, create_encrypted_packet}

throwing-eq-ok :
    {E A : Type 0} (e : Exception) (r : Result E A) {a : A} → throwing e r ≡ ok a → r ≡ ok a
throwing-eq-ok e (ok a) h = cc
throwing-eq-ok e (err x) h = cc

some_inj : {A : Type 0} {a b : A} → ◌≡◌ {A = Option A} (some a) (some b) → a ≡ b
some_inj h = cc

sealed_with_nonce :
    (c : Crates) (csk : ClientSymmetricKey) (nonce m sealed : Bytes)
    → c.aes_encrypt csk.as_bytes nonce m [] ≡ some sealed
    → encrypt_with_csk_and_random_nonce c csk (some nonce) m ≡ ok (nonce ++ sealed)
unfolding encrypt_with_csk_and_random_nonce seal_prepending encrypt_aes_gcm
sealed_with_nonce c csk nonce m sealed h = rw h refl

module _ (c : Crates) (p : Codec) (q : PacketCodec) (laws : CrateLaws c) where
  sign_data-eq :
      (seed m : Bytes) → length seed ≡ 32 → sign_data c seed m ≡ ok (c.ed25519_sign seed m)
  unfolding sign_data
  sign_data-eq seed m sized = rw (to_fixed-whole 32 seed sized) refl

  create_grant_wrapper_message-eq :
      (seed signed_challenge : Bytes) (wrapper : WrapperMessage)
      → length seed ≡ 32
      → sign_wrapper_message c p
          (wrap_auth_grant (record { signed_challenge = signed_challenge }))
          (keypair_of c seed)
        ≡ ok wrapper
      → create_grant_wrapper_message c p signed_challenge seed ≡ ok (p.encode_wrapper wrapper)
  unfolding create_grant_wrapper_message to_ed25519_keypair wrap_auth_grant
  create_grant_wrapper_message-eq seed signed_challenge wrapper sized signs = rw (sized, signs) refl

  -- A packet that the phone makes is opened by the daemon that shares its key.
  create_encrypted_packet-opens :
      (clock : Option ℕ) (nonce : Bytes) (csk : ClientSymmetricKey) (wrapper : WrapperMessage)
      (sent : Bytes) (arrived : EncryptedPacket)
      → ((m : EncryptedPacket) → q.decode (q.encode m) ≡ some m)
      → length nonce ≡ 12
      → length csk.as_bytes ≡ 32
      → p.decode_wrapper (p.encode_wrapper wrapper) ≡ some wrapper
      → create_encrypted_packet c q clock (some nonce) csk.as_bytes (p.encode_wrapper wrapper)
        ≡ ok sent
      → q.decode sent ≡ some arrived
      → decrypt_encrypted_packet_with_csk_nonce c p csk arrived ≡ ok wrapper
  unfolding create_encrypted_packet encrypt_aes_gcm decrypt_encrypted_packet_with_csk_nonce
  create_encrypted_packet-opens clock nonce csk wrapper sent arrived carried sized whole decodes
        made arrives =
      >>=-ended (to_fixed 32 csk.as_bytes) _ made λ key is_key made₁.
        >>=-ended
          (throwing security
            (ok_or (c.aes_encrypt key nonce (p.encode_wrapper wrapper) []) encryption_failed))
          _ made₁
          λ sealed is_sealed made₂.
            >>=-ended
              (throwing security
                (generate_current_temporal_identifier c (record { as_bytes = key }) clock))
              _ made₂
              λ tid is_tid made₃.
                let m : Bytes = p.encode_wrapper wrapper in
                let same_key : csk.as_bytes ≡ key =
                  ok_inj (sym (to_fixed-whole 32 csk.as_bytes whole) ∙ is_key) in
                let enc : c.aes_encrypt csk.as_bytes nonce m [] ≡ some sealed =
                  rw same_key (ok_or-eq-ok _ _ (throwing-eq-ok security _ is_sealed)) in
                let packet : EncryptedPacket = record {
                  temporal_identifier = tid;
                  encryption_algorithm = aes_256_gcm;
                  ciphertext = nonce ++ sealed;
                } in
                let same : packet ≡ arrived =
                  some_inj (sym (carried packet) ∙ rw (ok_inj made₃) arrives) in
                let opened =
                  decrypt-encrypt_csk c laws csk nonce m sized
                    (sealed_with_nonce c csk nonce m sealed enc) in
                rw (← same, opened, decodes) refl

  -- Where a phone whose public key belongs to a paired server signs the challenge of an attempt with
  -- its 32-byte key, and signing the wrapper of this grant and encrypting it under the client key
  -- with a 12-byte nonce end well, the phone's functions give the signature and the wrapper's bytes,
  -- and the attempt succeeds when the packet arrives in time after rounds in which nothing arrived;
  -- prost is taken to decode what it encoded.
  pub approval-succeeds :
      (ctx : Context) (packet : EncryptedPacket) (seed : Bytes) (wrapper : WrapperMessage)
      (clock : Option ℕ) (nonce sent : Bytes) (arrived : EncryptedPacket) (address : String)
      (quiet : List Round) (r : Round) (rest : List Round)
      → ((m : EncryptedPacket) → q.decode (q.encode m) ≡ some m)
      → length seed ≡ 32
      → length nonce ≡ 12
      → length ctx.csk.as_bytes ≡ 32
      → length ctx.challenge ≡ 32
      → KeyHolder c p ctx.servers (c.ed25519_public seed)
      → sign_wrapper_message c p
          (wrap_auth_grant (record { signed_challenge = c.ed25519_sign seed ctx.challenge }))
          (keypair_of c seed)
        ≡ ok wrapper
      → p.decode_wrapper (p.encode_wrapper wrapper) ≡ some wrapper
      → create_encrypted_packet c q clock (some nonce) ctx.csk.as_bytes (p.encode_wrapper wrapper)
        ≡ ok sent
      → q.decode sent ≡ some arrived
      → All (IsQuiet c p ctx packet) quiet
      → IsOpen c p ctx packet r
      → r.received ≡ ok (response arrived address)
      → (signed_challenge message : Bytes) × (actions : List Action) × (sign_data c seed
            ctx.challenge
          ≡ ok signed_challenge)
        × (create_grant_wrapper_message c p signed_challenge seed ≡ ok message)
        × (message ≡ p.encode_wrapper wrapper)
        × (authenticate_with_transport c p ctx packet (quiet ++ r ∷ rest) ≡ some (ok tt, actions))
  unfolding wrap_auth_grant sign_ed25519
  approval-succeeds ctx packet seed wrapper clock nonce sent arrived address quiet r rest carried
        sized_seed sized_nonce whole sized_challenge holder signs decodes made arrives silent
        is_open received =
      let key : Bytes = c.ed25519_public seed in
      let signed_challenge : Bytes = c.ed25519_sign seed ctx.challenge in
      let g : AuthenticationGrant = record { signed_challenge = signed_challenge } in
      let signed : IsSignature c key (signed_part c p wrapper) wrapper.signature =
        (verify_wrapper_signature_iff c p wrapper key).0
          (verify_wrapper_signature-sign c p laws seed (wrap_auth_grant g) signs) in
      let brings : BringsGrant c p ctx packet r = record {
        is_open = is_open;
        wrapper = wrapper;
        authentic = record {
          packet = arrived;
          address = address;
          was_received = received;
          decrypts =
              create_encrypted_packet-opens clock nonce ctx.csk wrapper sent arrived carried
                sized_nonce whole decodes made arrives;
          key = key;
          signer = holder;
          signed = signed;
        };
        grants = record {
          key = key;
          granter = holder;
          is_grant = record {
            grant = g;
            is_payload = payload-sign c p (wrap_auth_grant g) (keypair_of c seed) signs;
            challenge_length = sized_challenge;
            wrapper_signed = signed;
            challenge_signed = sign_ed25519-IsSignature c laws seed ctx.challenge;
          };
        };
      } in
      let (actions, succeeds) = grant-succeeds c p ctx packet quiet r rest silent brings in
      (
        signed_challenge,
        p.encode_wrapper wrapper,
        actions,
        sign_data-eq seed ctx.challenge sized_seed,
        create_grant_wrapper_message-eq seed signed_challenge wrapper sized_seed signs,
        refl,
        succeeds,
      )
