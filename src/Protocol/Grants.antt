-- ===== src/Protocol/Grants.antt =====
-- Which grants shared/src/protocol/messages.rs accepts.
use tapauth.Prelude.{
  ◌≡◌, ◌↔◌, Option, some, none, [], ok, >>=-eq-ok, map_err-eq-ok, Bytes, length, arith,
}
use tapauth.Crypto.Crates.{Crates, CrateLaws}
use tapauth.Crypto.Keys.{Ed25519KeyPair, keypair_of}
use tapauth.Crypto.Signing.{IsSignature, sign_ed25519, verify_ed25519_iff, sign_ed25519-IsSignature}
use tapauth.Protocol.Message.{
  Codec, WrapperMessage, AuthenticationGrant, auth_grant, auth_request, auth_denial,
  grant_confirmation, auth_cancel, Payload, ed25519, crypto,
}
use tapauth.Protocol.Messages.{
  signed_part, sign_wrapper_message, verify_wrapper_signature, create_auth_grant, verify_auth_grant,
  check_challenge, expect_grant,
}
use tapauth.Protocol.Packet.{wrap_auth_grant}

expect_grant-eq-ok :
    (o : Option Payload) {g : AuthenticationGrant} → expect_grant o ≡ ok g → o ≡ some (auth_grant g)
expect_grant-eq-ok none h = cc
expect_grant-eq-ok (some (auth_grant g)) h = cc
expect_grant-eq-ok (some (auth_request r)) h = cc
expect_grant-eq-ok (some (auth_denial r)) h = cc
expect_grant-eq-ok (some (grant_confirmation r)) h = cc
expect_grant-eq-ok (some (auth_cancel r)) h = cc

check_challenge_iff : (b : Bytes) → (check_challenge b ≡ ok tt) ↔ (length b ≡ 32)
check_challenge_iff b = (λ h. ground arith, λ h. ground arith)

module _ (c : Crates) (p : Codec) where
  pub verify_wrapper_signature_iff :
      (wrapper : WrapperMessage) (key : Bytes)
      → (verify_wrapper_signature c p wrapper key ≡ ok tt)
        ↔ IsSignature c key (signed_part c p wrapper) wrapper.signature
  unfolding verify_wrapper_signature
  verify_wrapper_signature_iff wrapper key =
      let law = verify_ed25519_iff c key (signed_part c p wrapper) wrapper.signature in
      (λ h. law.0 (map_err-eq-ok crypto _ h), λ s. rw (law.1 s))

  -- A message signed by a key pair verifies under the public key of that pair.
  pub verify_wrapper_signature-sign :
      CrateLaws c
      → (seed : Bytes) (wrapper : WrapperMessage) {signed : WrapperMessage}
      → sign_wrapper_message c p wrapper (keypair_of c seed) ≡ ok signed
      → verify_wrapper_signature c p signed (c.ed25519_public seed) ≡ ok tt
  unfolding sign_wrapper_message verify_wrapper_signature
  verify_wrapper_signature-sign laws seed wrapper {signed} h =
      let unsigned = record wrapper { signature_algorithm = ed25519; signature = [] } in
      let m = p.encode_wrapper unsigned in
      ground (
        arith,
        (verify_ed25519_iff c (c.ed25519_public seed) m (sign_ed25519 c (keypair_of c seed) m)).1
            (sign_ed25519-IsSignature c laws seed m),
      )

  -- What makes a wrapper a grant of a challenge by the holder of a key.
  pub record IsGrant (wrapper : WrapperMessage) (challenge key : Bytes) : Type 0 where
    pub grant : AuthenticationGrant
    pub is_payload : wrapper.payload ≡ some (auth_grant grant)
    pub challenge_length : length challenge ≡ 32
    pub wrapper_signed : IsSignature c key (signed_part c p wrapper) wrapper.signature
    pub challenge_signed : IsSignature c key challenge grant.signed_challenge

  accepted-IsGrant :
      (wrapper : WrapperMessage) (challenge key : Bytes)
      → verify_auth_grant c p wrapper challenge key ≡ ok tt
      → IsGrant wrapper challenge key
  unfolding verify_auth_grant
  accepted-IsGrant wrapper challenge key h =
      let (_, sized, h₁) = >>=-eq-ok (check_challenge challenge) _ h in
      let (_, signed, h₂) = >>=-eq-ok (verify_wrapper_signature c p wrapper key) _ h₁ in
      let (g, found, h₃) = >>=-eq-ok (expect_grant wrapper.payload) _ h₂ in
      record {
        grant = g;
        is_payload = expect_grant-eq-ok wrapper.payload found;
        challenge_length = (check_challenge_iff challenge).0 sized;
        wrapper_signed = (verify_wrapper_signature_iff wrapper key).0 signed;
        challenge_signed =
            (verify_ed25519_iff c key challenge g.signed_challenge).0 (map_err-eq-ok crypto _ h₃);
      }

  IsGrant-accepted :
      (wrapper : WrapperMessage) (challenge key : Bytes)
      → IsGrant wrapper challenge key
      → verify_auth_grant c p wrapper challenge key ≡ ok tt
  unfolding verify_auth_grant
  IsGrant-accepted wrapper challenge key g = ground (
    arith,
    g.is_payload,
    (check_challenge_iff challenge).1 g.challenge_length,
    (verify_wrapper_signature_iff wrapper key).1 g.wrapper_signed,
    (verify_ed25519_iff c key challenge g.grant.signed_challenge).1 g.challenge_signed,
  )

  -- A grant is accepted exactly when its payload is a grant, the challenge has 32 bytes, and both
  -- the wrapper and the challenge are signed under the given key.
  pub verify_auth_grant_iff :
      (wrapper : WrapperMessage) (challenge key : Bytes)
      → (verify_auth_grant c p wrapper challenge key ≡ ok tt) ↔ IsGrant wrapper challenge key
  verify_auth_grant_iff wrapper challenge key =
      (accepted-IsGrant wrapper challenge key, IsGrant-accepted wrapper challenge key)

  pub payload-sign :
      (wrapper : WrapperMessage) (keypair : Ed25519KeyPair) {signed : WrapperMessage}
      → sign_wrapper_message c p wrapper keypair ≡ ok signed
      → signed.payload ≡ wrapper.payload
  unfolding sign_wrapper_message
  payload-sign wrapper keypair h = ground arith

  create_auth_grant-eq-ok :
      (keypair : Ed25519KeyPair) (challenge : Bytes) {g : AuthenticationGrant}
      → create_auth_grant c p keypair challenge ≡ ok g
      → (length challenge ≡ 32) × (g.signed_challenge ≡ sign_ed25519 c keypair challenge)
  unfolding create_auth_grant
  create_auth_grant-eq-ok keypair challenge h = ground arith

  -- The grant that a server makes with `create_auth_grant`, wraps and signs with the same key pair
  -- is accepted for that challenge under the server's public key.
  pub verify_auth_grant-create :
      CrateLaws c
      → (seed challenge : Bytes) {g : AuthenticationGrant} {wrapper : WrapperMessage}
      → create_auth_grant c p (keypair_of c seed) challenge ≡ ok g
      → sign_wrapper_message c p (wrap_auth_grant g) (keypair_of c seed) ≡ ok wrapper
      → verify_auth_grant c p wrapper challenge (c.ed25519_public seed) ≡ ok tt
  unfolding wrap_auth_grant
  verify_auth_grant-create laws seed challenge {g} {wrapper} made signed =
      let keypair = keypair_of c seed in
      let (sized, is_signed) = create_auth_grant-eq-ok keypair challenge made in
      let challenge_signature = sign_ed25519-IsSignature c laws seed challenge in
      (verify_auth_grant_iff wrapper challenge (c.ed25519_public seed)).1 (record {
        grant = g;
        is_payload = payload-sign (wrap_auth_grant g) keypair signed;
        challenge_length = sized;
        wrapper_signed =
            (verify_wrapper_signature_iff wrapper (c.ed25519_public seed)).0
              (verify_wrapper_signature-sign laws seed (wrap_auth_grant g) signed);
        challenge_signed = rw is_signed challenge_signature;
      })
