-- ===== src/Daemon/Auth/Soundness.antt =====
-- What an attempt of tapauthd/src/auth_handler.rs may conclude, over every course of events.
use tapauth.Prelude.{
  contains, bytes_eq, ◌≤◌, leb→le, ◌≡◌, ◌⊎◌, Option, none, some, List, [], ◌∷◌, Result, ok, err,
  Bytes, leb, Among, first, later, refl, Bool-cases, Result-cases, inl, inr, arith, String,
}
use tapauth.Crypto.Crates.{Crates}
use tapauth.Network.Discovery.{get_session_timeout}
use tapauth.Protocol.Message.{Codec, WrapperMessage, EncryptedPacket, ProtocolError}
use tapauth.Protocol.Packet.{decrypt_encrypted_packet_with_csk_nonce}
use tapauth.Daemon.Auth.Response.{
  AuthHandlerError, timeout, protocol, ReceiveResult, nothing, response, fingerprint, examine,
  Action, ResponseError, Context, wait_for_response, process_auth_response,
}
use tapauth.Daemon.Auth.Evidence.{Authentic, Grants, wait-Authentic, process-Grants}
use tapauth.Daemon.Auth.Loop.{
  Round, Session, return, start, Turn-cases, answered, after_wait, after_send, turn,
  authenticate_from, authenticate_with_transport,
}

module _ (c : Crates) (p : Codec) (ctx : Context) (packet : EncryptedPacket) where
  -- Why a round ends the attempt with a result.
  pub data Cause (r : Round) (result : Result AuthHandlerError (Unit {0})) : Type 0 where
    timed_out : get_session_timeout ≤ r.elapsed → result ≡ err timeout → Cause r result
    send_failed : (e : AuthHandlerError) → r.sent ≡ err e → result ≡ err e → Cause r result
    receive_failed : (e : AuthHandlerError) → r.received ≡ err e → result ≡ err e → Cause r result
    unreadable :
        (q : EncryptedPacket) (address : String) (e : ProtocolError)
        → r.received ≡ ok (response q address)
        → decrypt_encrypted_packet_with_csk_nonce c p ctx.csk q ≡ err e
        → result ≡ err (protocol e)
        → Cause r result
    answer :
        (wrapper : WrapperMessage)
        → Authentic c p ctx r.received wrapper
        → (process_auth_response c p r.clock r.random ctx wrapper).0 ≡ ok result
        → Cause r result

  examine-err :
      (q : EncryptedPacket) (a : String) {e : AuthHandlerError}
      → examine c p ctx.csk ctx.servers q a ≡ err e
      → (x : ProtocolError) × (decrypt_encrypted_packet_with_csk_nonce c p ctx.csk q ≡ err x)
        × (e ≡ protocol x)
  unfolding examine
  examine-err q a {e} h =
      elim (Result-cases (decrypt_encrypted_packet_with_csk_nonce c p ctx.csk q)) [
        | inl (w, opened) ↦ absurd (ground arith)
        | inr (x, failed) ↦ (x, failed, ground arith)
      ]

  wait-err :
      (cache : List Bytes) (received : Result AuthHandlerError ReceiveResult) {e : AuthHandlerError}
      → (wait_for_response c p ctx.csk ctx.servers cache received).0 ≡ err e
      → (received ≡ err e)
        ⊎ ((q : EncryptedPacket) × (a : String) × (x : ProtocolError) × (received
              ≡ ok (response q a))
            × (decrypt_encrypted_packet_with_csk_nonce c p ctx.csk q ≡ err x)
            × (e ≡ protocol x))
  unfolding wait_for_response
  wait-err cache (err e) h = inl (ground arith)
  wait-err cache (ok nothing) h = cc
  wait-err cache (ok (response q a)) {e} h = elim (Bool-cases (contains cache (fingerprint q))) [
    | inl seen ↦ absurd (ground arith)
    | inr fresh ↦
        let (x, failed, same) = examine-err q a {e = e} (ground arith) in
        inr (q, a, x, refl, failed, same)
  ]

  answered-return :
      (s : Session) (a : Result ResponseError (Result AuthHandlerError (Unit {0})) × List Action)
      {result : Result AuthHandlerError (Unit {0})} {actions : List Action}
      → answered c p ctx packet s a ≡ return result actions
      → a.0 ≡ ok result
  answered-return s (ok r, done) h = cc
  answered-return s (err e, done) h = cc

  after_wait-Cause :
      (r : Round) (s : Session) (cache : List Bytes)
      (waited : Result AuthHandlerError (Option (WrapperMessage × String)))
      {result : Result AuthHandlerError (Unit {0})} {actions : List Action}
      → (wait_for_response c p ctx.csk ctx.servers cache r.received).0 ≡ waited
      → after_wait c p ctx packet r s waited ≡ return result actions
      → Cause r result
  after_wait-Cause r s cache (ok none) e h = cc
  after_wait-Cause r s cache (ok (some (w, a))) e h =
      answer w (wait-Authentic c p ctx cache r.received e)
        (answered-return s (process_auth_response c p r.clock r.random ctx w) h)
  after_wait-Cause r s cache (err x) {result} e h =
      let same : result ≡ err x = ground arith in
      elim (wait-err cache r.received e) [
        | inl failed ↦ receive_failed x failed same
        | inr (q, a, y, arrived, fails, is_y) ↦ unreadable q a y arrived fails (ground arith)
      ]

  after_send-Cause :
      (r : Round) (s : Session) (sent : Result AuthHandlerError (Unit {0}))
      {result : Result AuthHandlerError (Unit {0})} {actions : List Action}
      → r.sent ≡ sent
      → after_send c p ctx packet r s sent ≡ return result actions
      → Cause r result
  after_send-Cause r s (err e) is_sent h = send_failed e is_sent (ground arith)
  after_send-Cause r s (ok _) is_sent h = after_wait-Cause r _ s.nonce_cache _ refl h

  turn-Cause :
      (r : Round) (s : Session) {result : Result AuthHandlerError (Unit {0})}
      {actions : List Action}
      → turn c p ctx packet r s ≡ return result actions
      → Cause r result
  unfolding turn
  turn-Cause r s {result} h = elim (Bool-cases (leb get_session_timeout r.elapsed)) [
    | inl late ↦ timed_out (leb→le _ _ late) (ground arith)
    | inr early ↦ after_send-Cause r s r.sent refl (rw early at h)
  ]

  from-Cause :
      (rounds : List Round) (s : Session) {result : Result AuthHandlerError (Unit {0})}
      {actions : List Action}
      → authenticate_from c p ctx packet rounds s ≡ some (result, actions)
      → (r : Round) × Among r rounds × Cause r result
  unfolding authenticate_from
  from-Cause [] s h = cc
  from-Cause (r ∷ rounds) s {result} {actions} h = elim (Turn-cases (turn c p ctx packet r s)) [
    | inl (result', actions', ended) ↦
        let same : result' ≡ result = ground arith in
        (r, first refl, rw (← same) (turn-Cause r s ended))
    | inr (s', went_on) ↦
        let (r', there, cause) =
          from-Cause rounds s' {result = result} {actions = actions} (ground arith) in
        (r', later there, cause)
  ]

  -- Whatever an attempt concludes, one of its rounds is the cause: it came after the session
  -- timeout, the transport failed to send or to receive, a packet that it received could
  -- not be decrypted or decoded, or a wrapper that a paired server signed was processed to that result.
  pub authenticate_with_transport-Cause :
      (rounds : List Round) {result : Result AuthHandlerError (Unit {0})} {actions : List Action}
      → authenticate_with_transport c p ctx packet rounds ≡ some (result, actions)
      → (r : Round) × Among r rounds × Cause r result
  unfolding authenticate_with_transport
  authenticate_with_transport-Cause rounds h = from-Cause rounds start h

  -- A round that brought a wrapper, signed by a paired server, which grants the challenge.
  pub record GrantedIn (rounds : List Round) : Type 0 where
    pub round : Round
    pub took_place : Among round rounds
    pub wrapper : WrapperMessage
    pub authentic : Authentic c p ctx round.received wrapper
    pub grants : Grants c p ctx wrapper

  Cause-GrantedIn :
      {rounds : List Round} (r : Round) → Among r rounds → Cause r (ok tt) → GrantedIn rounds
  Cause-GrantedIn r there (timed_out _ e) = cc
  Cause-GrantedIn r there (send_failed _ _ e) = cc
  Cause-GrantedIn r there (receive_failed _ _ e) = cc
  Cause-GrantedIn r there (unreadable _ _ _ _ _ e) = cc
  Cause-GrantedIn r there (answer w authentic processed) = record {
    round = r;
    took_place = there;
    wrapper = w;
    authentic = authentic;
    grants = process-Grants c p r.clock r.random ctx w processed;
  }

  -- An attempt that succeeds, after whatever packets, has received a packet that decrypts under the
  -- client key to a wrapper signed by a paired server, and that wrapper is a grant in which a
  -- paired server's 32-byte key signs both the wrapper and this attempt's own challenge.
  pub success-GrantedIn :
      (rounds : List Round) {actions : List Action}
      → authenticate_with_transport c p ctx packet rounds ≡ some (ok tt, actions)
      → GrantedIn rounds
  success-GrantedIn rounds h =
      let (r, there, cause) = authenticate_with_transport-Cause rounds h in
      Cause-GrantedIn r there cause
