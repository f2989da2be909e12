-- ===== src/Daemon/Auth/Users.antt =====
-- What the lists of allowed users mean to an attempt of tapauthd/src/auth_handler.rs.
use tapauth.Prelude.{
  inl, inr, sym, ◌∙◌, map_err, ◌>>=◌, ◌≡◌, refl, ap, ◌||◌, ℕ, String, Bool, Option, none, some,
  List, [], ◌∷◌, Result, ok, err, map, any, values, Bytes, bytes_eq, if◌then◌else◌, is_ok,
}
use tapauth.Crypto.Crates.{Crates}
use tapauth.Config.Servers.{PairedServer}
use tapauth.Protocol.Message.{
  Codec, WrapperMessage, Payload, auth_request, auth_grant, auth_denial, grant_confirmation,
  auth_cancel, EncryptedPacket,
}
use tapauth.Protocol.Packet.{decrypt_encrypted_packet_with_csk_nonce}
use tapauth.Protocol.Messages.{verify_wrapper_signature, verify_auth_grant}
use tapauth.Daemon.Auth.Response.{
  AuthHandlerError, ReceiveResult, nothing, response, Servers, Context, with_key,
  verify_response_signature, examine, wait_for_response, protocol, send_confirmation_background,
  handle_auth_grant, handle_auth_denial, denial, dispatch, process_auth_response,
}
use tapauth.Daemon.Auth.Loop.{
  Round, Session, Turn-cases, start, answered, after_wait, after_send, turn, authenticate_from,
  authenticate_with_transport, authenticate_from-return, authenticate_from-continue,
}

-- The same servers with other lists of users.
abbrev pub reassigned : (PairedServer → List String) → Servers → Servers
reassigned users servers =
    map
      (λ (entry : String × PairedServer).
        (entry.0, record entry.1 { allowed_users = users entry.1 }))
      servers

module _ (c : Crates) (p : Codec) (users : PairedServer → List String) where
  abbrev pub reassigned_context : Context → Context
  reassigned_context ctx = record ctx { servers = reassigned users ctx.servers }

  any-reassigned :
      (check : Bytes → Bool) (servers : Servers)
      → any (with_key c p check) (values (reassigned users servers))
        ≡ any (with_key c p check) (values servers)
  any-reassigned check [] = refl
  any-reassigned check ((name, server) ∷ servers) =
      ap (λ b. with_key c p check server || b) (any-reassigned check servers)

  examine-reassigned :
      (ctx : Context) (q : EncryptedPacket) (a : String)
      → examine c p ctx.csk (reassigned users ctx.servers) q a ≡ examine c p ctx.csk ctx.servers q a
  unfolding examine verify_response_signature
  examine-reassigned ctx q a = λ i.
      map_err protocol (decrypt_encrypted_packet_with_csk_nonce c p ctx.csk q) >>= λ w. ok (
        if any-reassigned (λ key. is_ok (verify_wrapper_signature c p w key)) ctx.servers i
        then some (w, a)
        else none)

  wait-reassigned :
      (ctx : Context) (cache : List Bytes) (received : Result AuthHandlerError ReceiveResult)
      → wait_for_response c p ctx.csk (reassigned users ctx.servers) cache received
        ≡ wait_for_response c p ctx.csk ctx.servers cache received
  unfolding wait_for_response
  wait-reassigned ctx cache (err e) = refl
  wait-reassigned ctx cache (ok nothing) = refl
  wait-reassigned ctx cache (ok (response q a)) = rw (examine-reassigned ctx q a) refl

  grant-reassigned :
      (clock : Option ℕ) (random : Option Bytes) (ctx : Context) (w : WrapperMessage)
      → handle_auth_grant c p clock random (reassigned_context ctx) w
        ≡ handle_auth_grant c p clock random ctx w
  unfolding handle_auth_grant send_confirmation_background
  grant-reassigned clock random ctx w =
      rw (any-reassigned (λ key. is_ok (verify_auth_grant c p w ctx.challenge key)) ctx.servers)
        refl

  dispatch-reassigned :
      (clock : Option ℕ) (random : Option Bytes) (ctx : Context) (w : WrapperMessage)
      (x : Option Payload)
      → dispatch c p clock random (reassigned_context ctx) w x ≡ dispatch c p clock random ctx w x
  unfolding dispatch handle_auth_denial denial send_confirmation_background
  dispatch-reassigned clock random ctx w none = refl
  dispatch-reassigned clock random ctx w (some (auth_grant g)) = grant-reassigned clock random ctx w
  dispatch-reassigned clock random ctx w (some (auth_request r)) = refl
  dispatch-reassigned clock random ctx w (some (auth_denial d)) = refl
  dispatch-reassigned clock random ctx w (some (grant_confirmation g)) = refl
  dispatch-reassigned clock random ctx w (some (auth_cancel d)) = refl

  after_wait-reassigned :
      (ctx : Context) (packet : EncryptedPacket) (r : Round) (s : Session)
      (waited : Result AuthHandlerError (Option (WrapperMessage × String)))
      → after_wait c p (reassigned_context ctx) packet r s waited
        ≡ after_wait c p ctx packet r s waited
  unfolding process_auth_response
  after_wait-reassigned ctx packet r s (err e) = refl
  after_wait-reassigned ctx packet r s (ok none) = refl
  after_wait-reassigned ctx packet r s (ok (some (w, a))) =
      ap (answered c p ctx packet s) (dispatch-reassigned r.clock r.random ctx w w.payload)

  after_send-reassigned :
      (ctx : Context) (packet : EncryptedPacket) (r : Round) (s : Session)
      (sent : Result AuthHandlerError (Unit {0}))
      → after_send c p (reassigned_context ctx) packet r s sent ≡ after_send c p ctx packet r s sent
  after_send-reassigned ctx packet r s (err e) = refl
  after_send-reassigned ctx packet r s (ok _) =
      rw (wait-reassigned ctx s.nonce_cache r.received) (after_wait-reassigned ctx packet r _ _)

  turn-reassigned :
      (ctx : Context) (packet : EncryptedPacket) (r : Round) (s : Session)
      → turn c p (reassigned_context ctx) packet r s ≡ turn c p ctx packet r s
  unfolding turn
  turn-reassigned ctx packet r s = rw (after_send-reassigned ctx packet r s r.sent) refl

  from-reassigned :
      (ctx : Context) (packet : EncryptedPacket) (rounds : List Round) (s : Session)
      → authenticate_from c p (reassigned_context ctx) packet rounds s
        ≡ authenticate_from c p ctx packet rounds s
  unfolding authenticate_from
  from-reassigned ctx packet [] s = refl
  from-reassigned ctx packet (r ∷ rounds) s =
      let other = reassigned_context ctx in
      let same = turn-reassigned ctx packet r s in
      elim (Turn-cases (turn c p ctx packet r s)) [
        | inl (result, actions, ended) ↦
            authenticate_from-return c p other packet r rounds s (same ∙ ended)
            ∙ sym (authenticate_from-return c p ctx packet r rounds s ended)
        | inr (s', went_on) ↦
            authenticate_from-continue c p other packet r rounds s (same ∙ went_on)
            ∙ (from-reassigned ctx packet rounds s'
                ∙ sym (authenticate_from-continue c p ctx packet r rounds s went_on))
      ]

  -- Whatever the users are that the paired servers are allowed for, an attempt comes to the same
  -- result and actions: the grant of a server that is not allowed for the user counts as well.
  pub authenticate_with_transport-reassigned :
      (ctx : Context) (packet : EncryptedPacket) (rounds : List Round)
      → authenticate_with_transport c p (reassigned_context ctx) packet rounds
        ≡ authenticate_with_transport c p ctx packet rounds
  unfolding authenticate_with_transport
  authenticate_with_transport-reassigned ctx packet rounds = from-reassigned ctx packet rounds start
