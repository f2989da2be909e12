-- ===== src/Daemon/Auth/Evidence.antt =====
-- What an accepted answer in tapauthd/src/auth_handler.rs rests on: a packet that was received, a
-- paired server, and signatures under that server's key.
use tapauth.Prelude.{
  ◌≡◌, true, Option, none, some, Result, ok, err, is_ok, map_err, map_err-eq-ok, >>=-eq-ok, Bytes,
  bytes_eq, contains, length, values, any, any-Among, Among, Bool, Bool-cases, Option-cases, inl,
  inr, arith, refl, ℕ, String, List,
}
use tapauth.Crypto.Crates.{Crates}
use tapauth.Crypto.Signing.{IsSignature}
use tapauth.Config.Servers.{PairedServer}
use tapauth.Protocol.Message.{
  Codec, WrapperMessage, Payload, AuthenticationDenial, auth_request, auth_grant, auth_denial,
  grant_confirmation, auth_cancel, EncryptedPacket,
}
use tapauth.Protocol.Messages.{signed_part, verify_wrapper_signature, verify_auth_grant}
use tapauth.Protocol.Packet.{decrypt_encrypted_packet_with_csk_nonce}
use tapauth.Protocol.Grants.{IsGrant, verify_auth_grant_iff, verify_wrapper_signature_iff}
use tapauth.Daemon.Auth.Response.{
  AuthHandlerError, explicit_denial, protocol, ReceiveResult, nothing, response, Context, Servers,
  fingerprint, with_key, verify_response_signature, examine, wait_for_response, handle_auth_grant,
  handle_auth_denial, denial, dispatch, process_auth_response,
}

is_ok-eq : {E : Type 0} (r : Result E (Unit {0})) → is_ok r ≡ true → r ≡ ok tt
is_ok-eq (ok _) h = refl
is_ok-eq (err e) h = cc

module _ (c : Crates) (p : Codec) where
  -- A paired server with a 32-byte key.
  pub record KeyHolder (servers : Servers) (key : Bytes) : Type 0 where
    pub server : PairedServer
    pub is_paired : Among server (values servers)
    pub is_key : c.hex_decode server.public_key ≡ some key
    pub key_length : length key ≡ 32

  with_key-eq-true :
      (check : Bytes → Bool) (server : PairedServer)
      → with_key c p check server ≡ true
      → (key : Bytes) × (c.hex_decode server.public_key ≡ some key)
        × (length key ≡ 32)
        × (check key ≡ true)
  with_key-eq-true check server h = elim (Option-cases (c.hex_decode server.public_key)) [
    | inl missing ↦ absurd (ground arith)
    | inr (key, e) ↦ (key, e, ground arith, ground arith)
  ]

  any-with_key :
      (check : Bytes → Bool) (servers : Servers)
      → any (with_key c p check) (values servers) ≡ true
      → (key : Bytes) × KeyHolder servers key × (check key ≡ true)
  any-with_key check servers h =
      let (server, paired, passes) = any-Among (with_key c p check) (values servers) h in
      let (key, e, sized, checked) = with_key-eq-true check server passes in
      (key, record { server = server; is_paired = paired; is_key = e; key_length = sized }, checked)

  -- The packet of an answer decrypts under the client key to a wrapper that a paired server signed.
  pub record Authentic (ctx : Context) (received : Result AuthHandlerError ReceiveResult)
      (wrapper : WrapperMessage) : Type 0 where
    pub packet : EncryptedPacket
    pub address : String
    pub was_received : received ≡ ok (response packet address)
    pub decrypts : decrypt_encrypted_packet_with_csk_nonce c p ctx.csk packet ≡ ok wrapper
    pub key : Bytes
    pub signer : KeyHolder ctx.servers key
    pub signed : IsSignature c key (signed_part c p wrapper) wrapper.signature

  -- The wrapper is a grant of the attempt's challenge by a paired server.
  pub record Grants (ctx : Context) (wrapper : WrapperMessage) : Type 0 where
    pub key : Bytes
    pub granter : KeyHolder ctx.servers key
    pub is_grant : IsGrant c p wrapper ctx.challenge key

  -- The wrapper is a denial of the attempt's challenge.
  pub record Denies (ctx : Context) (wrapper : WrapperMessage) : Type 0 where
    pub refusal : AuthenticationDenial
    pub is_payload : wrapper.payload ≡ some (auth_denial refusal)
    pub same_challenge : refusal.challenge ≡ ctx.challenge

  examine-Authentic :
      (ctx : Context) (packet : EncryptedPacket) (address : String) {w : WrapperMessage}
      {a : String}
      → examine c p ctx.csk ctx.servers packet address ≡ ok (some (w, a))
      → Authentic ctx (ok (response packet address)) w
  unfolding examine verify_response_signature
  examine-Authentic ctx packet address {w} h =
      let decrypted = decrypt_encrypted_packet_with_csk_nonce c p ctx.csk packet in
      let (w', is_ok_w, h₁) = >>=-eq-ok (map_err protocol decrypted) _ h in
      let check = λ (key : Bytes). is_ok (verify_wrapper_signature c p w' key) in
      elim (Bool-cases (any (with_key c p check) (values ctx.servers))) [
        | inl found ↦
            let same : w' ≡ w = ground arith in
            let (key, holder, checked) = any-with_key check ctx.servers found in
            let signed = (verify_wrapper_signature_iff c p w' key).0 (is_ok-eq _ checked) in
            rw (← same) (record {
              packet = packet;
              address = address;
              was_received = refl;
              decrypts = map_err-eq-ok protocol decrypted is_ok_w;
              key = key;
              signer = holder;
              signed = signed;
            })
        | inr missing ↦ absurd (ground arith)
      ]

  pub wait-Authentic :
      (ctx : Context) (cache : List Bytes) (received : Result AuthHandlerError ReceiveResult)
      {wrapper : WrapperMessage} {address : String}
      → (wait_for_response c p ctx.csk ctx.servers cache received).0 ≡ ok (some (wrapper, address))
      → Authentic ctx received wrapper
  unfolding wait_for_response
  wait-Authentic ctx cache (err e) h = cc
  wait-Authentic ctx cache (ok nothing) h = cc
  wait-Authentic ctx cache (ok (response packet address)) {wrapper} {address = a} h =
      elim (Bool-cases (contains cache (fingerprint packet))) [
        | inl seen ↦ absurd (ground arith)
        | inr fresh ↦ examine-Authentic ctx packet address {a = a} (ground arith)
      ]

  grant-Grants :
      (clock : Option ℕ) (random : Option Bytes) (ctx : Context) (wrapper : WrapperMessage)
      {r : Result AuthHandlerError (Unit {0})}
      → (handle_auth_grant c p clock random ctx wrapper).0 ≡ ok r
      → Grants ctx wrapper
  unfolding handle_auth_grant
  grant-Grants clock random ctx wrapper h =
      let check = λ (key : Bytes). is_ok (verify_auth_grant c p wrapper ctx.challenge key) in
      elim (Bool-cases (any (with_key c p check) (values ctx.servers))) [
        | inl found ↦
            let (key, holder, checked) = any-with_key check ctx.servers found in
            record {
              key = key;
              granter = holder;
              is_grant =
                  (verify_auth_grant_iff c p wrapper ctx.challenge key).0 (is_ok-eq _ checked);
            }
        | inr missing ↦ absurd (ground arith)
      ]

  dispatch-Grants :
      (clock : Option ℕ) (random : Option Bytes) (ctx : Context) (w : WrapperMessage)
      (o : Option Payload)
      → (dispatch c p clock random ctx w o).0 ≡ ok (ok tt)
      → Grants ctx w
  unfolding dispatch denial handle_auth_denial
  dispatch-Grants clock random ctx w (some (auth_grant g)) h = grant-Grants clock random ctx w h
  dispatch-Grants clock random ctx w (some (auth_denial d)) h = absurd (ground arith)
  dispatch-Grants clock random ctx w (some (auth_request d)) h = cc
  dispatch-Grants clock random ctx w (some (grant_confirmation d)) h = cc
  dispatch-Grants clock random ctx w (some (auth_cancel d)) h = cc
  dispatch-Grants clock random ctx w none h = cc

  -- A wrapper that ends the attempt well is a grant by a paired server.
  pub process-Grants :
      (clock : Option ℕ) (random : Option Bytes) (ctx : Context) (wrapper : WrapperMessage)
      → (process_auth_response c p clock random ctx wrapper).0 ≡ ok (ok tt)
      → Grants ctx wrapper
  unfolding process_auth_response
  process-Grants clock random ctx wrapper h =
      dispatch-Grants clock random ctx wrapper wrapper.payload h

  denial-Denies :
      (clock : Option ℕ) (random : Option Bytes) (ctx : Context) (o : Option Payload)
      {r : Result AuthHandlerError (Unit {0})}
      → (denial c p clock random ctx o).0 ≡ ok r
      → (d : AuthenticationDenial) × (o ≡ some (auth_denial d)) × (d.challenge ≡ ctx.challenge)
  unfolding denial
  denial-Denies clock random ctx (some (auth_denial d)) h =
      (d, refl, ground (arith, bytes_eq.beq_iff d.challenge ctx.challenge))
  denial-Denies clock random ctx (some (auth_grant g)) h = cc
  denial-Denies clock random ctx (some (auth_request d)) h = cc
  denial-Denies clock random ctx (some (grant_confirmation d)) h = cc
  denial-Denies clock random ctx (some (auth_cancel d)) h = cc
  denial-Denies clock random ctx none h = cc

  dispatch-Denies :
      (clock : Option ℕ) (random : Option Bytes) (ctx : Context) (w : WrapperMessage)
      (o : Option Payload)
      → (dispatch c p clock random ctx w o).0 ≡ ok (err explicit_denial)
      → Denies ctx w
  unfolding dispatch handle_auth_denial handle_auth_grant
  dispatch-Denies clock random ctx w (some (auth_denial d)) h =
      let (refusal, is_payload, same) = denial-Denies clock random ctx w.payload h in
      record { refusal = refusal; is_payload = is_payload; same_challenge = same }
  dispatch-Denies clock random ctx w (some (auth_grant g)) h = absurd (ground arith)
  dispatch-Denies clock random ctx w (some (auth_request d)) h = cc
  dispatch-Denies clock random ctx w (some (grant_confirmation d)) h = cc
  dispatch-Denies clock random ctx w (some (auth_cancel d)) h = cc
  dispatch-Denies clock random ctx w none h = cc

  -- A wrapper that ends the attempt as denied is a denial of its challenge.
  pub process-Denies :
      (clock : Option ℕ) (random : Option Bytes) (ctx : Context) (wrapper : WrapperMessage)
      → (process_auth_response c p clock random ctx wrapper).0 ≡ ok (err explicit_denial)
      → Denies ctx wrapper
  unfolding process_auth_response
  process-Denies clock random ctx wrapper h =
      dispatch-Denies clock random ctx wrapper wrapper.payload h
