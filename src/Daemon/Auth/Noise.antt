-- ===== src/Daemon/Auth/Noise.antt =====
-- What tapauthd/src/auth_handler.rs makes of packets that are no answer: a replayed packet is
-- ignored, and a packet that cannot be read ends the attempt.
use tapauth.Prelude.{
  ◌≡◌, ◌∙◌, sym, refl, Among, first, later, true, some, List, [], ◌∷◌, ◌++◌, Result, ok, err, Bytes,
  Bool-cases, inl, inr, leb, arith, String, contains, bytes_eq, All, beq_refl, Option, none,
}
use tapauth.Crypto.Crates.{Crates}
use tapauth.Network.Discovery.{get_session_timeout}
use tapauth.Protocol.Message.{Codec, WrapperMessage, EncryptedPacket, ProtocolError}
use tapauth.Protocol.Packet.{decrypt_encrypted_packet_with_csk_nonce}
use tapauth.Daemon.Auth.Response.{
  AuthHandlerError, protocol, ReceiveResult, nothing, response, ResponseError, Action, Context,
  fingerprint, examine, wait_for_response, process_auth_response,
}
use tapauth.Daemon.Auth.Loop.{
  Round, Session, continue, start, answered, after_wait, after_send, turn,
  authenticate_with_transport, authenticate_from, authenticate_from-return,
  authenticate_from-continue, Turn-cases,
}
use tapauth.Daemon.Auth.Progress.{IsOpen, IsQuiet, fresh_turn, from_quiet}

module _ (c : Crates) (p : Codec) (ctx : Context) (packet : EncryptedPacket) where
  unreadable-examine :
      (q : EncryptedPacket) (a : String) {x : ProtocolError}
      → decrypt_encrypted_packet_with_csk_nonce c p ctx.csk q ≡ err x
      → examine c p ctx.csk ctx.servers q a ≡ err (protocol x)
  unfolding examine
  unreadable-examine q a failed = rw failed

  -- A packet that does not decrypt or decode under the client key ends the attempt with that error
  -- when it is the first to arrive, whatever would be received afterwards.
  pub unreadable-ends :
      (quiet : List Round) (r : Round) (rest : List Round) (q : EncryptedPacket) (a : String)
      (x : ProtocolError)
      → All (IsQuiet c p ctx packet) quiet
      → IsOpen c p ctx packet r
      → r.received ≡ ok (response q a)
      → decrypt_encrypted_packet_with_csk_nonce c p ctx.csk q ≡ err x
      → (actions : List Action) × (authenticate_with_transport c p ctx packet (quiet ++ r ∷ rest)
          ≡ some (err (protocol x), actions))
  unfolding authenticate_with_transport
  unreadable-ends quiet r rest q a x all_quiet is_open received failed =
      from_quiet c p ctx packet quiet r rest start (err (protocol x)) all_quiet (λ s same. (
        _,
        fresh_turn c p ctx packet r s q a is_open received (rw same)
            (unreadable-examine q a failed),
      ))

  answered-cache :
      (s : Session) (a : Result ResponseError (Result AuthHandlerError (Unit {0})) × List Action)
      {t : Session}
      → answered c p ctx packet s a ≡ continue t
      → t.nonce_cache ≡ s.nonce_cache
  answered-cache s (ok r, done) h = cc
  answered-cache s (err e, done) h = ground arith

  after_wait-cache :
      (r : Round) (s : Session)
      (waited : Result AuthHandlerError (Option (WrapperMessage × String))) {t : Session}
      → after_wait c p ctx packet r s waited ≡ continue t
      → t.nonce_cache ≡ s.nonce_cache
  after_wait-cache r s (ok (some (w, a))) h =
      answered-cache s (process_auth_response c p r.clock r.random ctx w) h
  after_wait-cache r s (ok none) h = ground arith
  after_wait-cache r s (err e) h = cc

  -- Once remembered, a packet stays remembered.
  wait-keeps :
      (cache : List Bytes) (received : Result AuthHandlerError ReceiveResult) (b : Bytes)
      → contains cache b ≡ true
      → contains (wait_for_response c p ctx.csk ctx.servers cache received).1 b ≡ true
  unfolding wait_for_response
  wait-keeps cache (err e) b h = h
  wait-keeps cache (ok nothing) b h = h
  wait-keeps cache (ok (response q a)) b h = ground arith

  -- A packet that was looked at is remembered.
  wait-remembers :
      (cache : List Bytes) (q : EncryptedPacket) (a : String)
      → contains
          (wait_for_response c p ctx.csk ctx.servers cache (ok (response q a))).1
          (fingerprint q)
        ≡ true
  unfolding wait_for_response
  wait-remembers cache q a = ground (arith, beq_refl (fingerprint q))

  after_send-cache :
      (r : Round) (s : Session) (sent : Result AuthHandlerError (Unit {0})) {t : Session}
      → after_send c p ctx packet r s sent ≡ continue t
      → t.nonce_cache ≡ (wait_for_response c p ctx.csk ctx.servers s.nonce_cache r.received).1
  after_send-cache r s (err e) h = cc
  after_send-cache r s (ok _) h = after_wait-cache r _ _ h

  turn-cache :
      (r : Round) (s : Session) {t : Session}
      → turn c p ctx packet r s ≡ continue t
      → t.nonce_cache ≡ (wait_for_response c p ctx.csk ctx.servers s.nonce_cache r.received).1
  unfolding turn
  turn-cache r s h = elim (Bool-cases (leb get_session_timeout r.elapsed)) [
    | inl late ↦ absurd (ground arith)
    | inr early ↦ after_send-cache r s r.sent (rw early at h)
  ]

  -- The same round, had nothing arrived.
  abbrev pub silence : Round → Round
  silence r = record r { received = ok nothing }

  after_send-replay :
      (r : Round) (s : Session) (sent : Result AuthHandlerError (Unit {0})) (q : EncryptedPacket)
      (a : String)
      → r.received ≡ ok (response q a)
      → contains s.nonce_cache (fingerprint q) ≡ true
      → after_send c p ctx packet r s sent ≡ after_send c p ctx packet (silence r) s sent
  unfolding wait_for_response
  after_send-replay r s (err e) q a received seen = refl
  after_send-replay r s (ok _) q a received seen = rw (received, seen)

  turn-replay :
      (r : Round) (s : Session) (q : EncryptedPacket) (a : String)
      → r.received ≡ ok (response q a)
      → contains s.nonce_cache (fingerprint q) ≡ true
      → turn c p ctx packet r s ≡ turn c p ctx packet (silence r) s
  unfolding turn
  turn-replay r s q a received seen = rw (after_send-replay r s r.sent q a received seen)

  module _ (r : Round) (rest : List Round) (q : EncryptedPacket) (a : String) where
    abbrev SameEnd : List Round → Session → Type 0
    SameEnd before s =
        authenticate_from c p ctx packet (before ++ r ∷ rest) s
        ≡ authenticate_from c p ctx packet (before ++ silence r ∷ rest) s

    -- A round before makes the same move whatever comes after it.
    same_step :
        (b : Round) (before : List Round) (s : Session)
        → ((t : Session) → turn c p ctx packet b s ≡ continue t → SameEnd before t)
        → SameEnd (b ∷ before) s
    same_step b before s later_same = elim (Turn-cases (turn c p ctx packet b s)) [
      | inl (result, actions, ended) ↦
          authenticate_from-return c p ctx packet b (before ++ r ∷ rest) s ended
          ∙ sym (authenticate_from-return c p ctx packet b (before ++ silence r ∷ rest) s ended)
      | inr (t, went_on) ↦
          authenticate_from-continue c p ctx packet b (before ++ r ∷ rest) s went_on
          ∙ later_same t went_on
          ∙ sym (authenticate_from-continue c p ctx packet b (before ++ silence r ∷ rest) s went_on)
    ]

    seen-SameEnd :
        r.received ≡ ok (response q a)
        → (before : List Round) (s : Session) → contains s.nonce_cache (fingerprint q) ≡ true
        → SameEnd before s
    unfolding authenticate_from
    seen-SameEnd received [] s seen = rw (authenticate_from, turn-replay r s q a received seen)
    seen-SameEnd received (b ∷ before) s seen = same_step b before s (λ t went_on.
        seen-SameEnd received before t
          (rw (turn-cache b s went_on) (wait-keeps s.nonce_cache b.received (fingerprint q) seen)))

    received-SameEnd :
        r.received ≡ ok (response q a)
        → (before : List Round) (s : Session) {b : Round} {a' : String} → Among b before
        → b.received ≡ ok (response q a')
        → SameEnd before s
    received-SameEnd received [] s x earlier = elim x [ ]
    received-SameEnd received (b ∷ before) s {a' = a'} (first e) earlier =
        same_step b before s (λ t went_on.
          seen-SameEnd received before t
            (rw (turn-cache b s went_on, ← e, earlier) (wait-remembers s.nonce_cache q a')))
    received-SameEnd received (b ∷ before) s {b = b'} (later there) earlier =
        same_step b before s (λ t _. received-SameEnd received before t {b = b'} there earlier)

  -- Receiving again a packet that an earlier round received has the effect of receiving nothing:
  -- with the same rounds before and after, the attempt comes to the same result and actions.
  pub replay-eq-silence :
      (before : List Round) (r : Round) (rest : List Round) (q : EncryptedPacket) (a a' : String)
      {b : Round}
      → Among b before
      → b.received ≡ ok (response q a')
      → r.received ≡ ok (response q a)
      → authenticate_with_transport c p ctx packet (before ++ r ∷ rest)
        ≡ authenticate_with_transport c p ctx packet (before ++ silence r ∷ rest)
  unfolding authenticate_with_transport
  replay-eq-silence before r rest q a a' {b} there earlier received =
      received-SameEnd r rest q a received before start {b = b} {a' = a'} there earlier
