-- ===== src/Daemon/Auth/Progress.antt =====
-- The attempt of tapauthd/src/auth_handler.rs ends in time, accepts a grant that arrives, ignores
-- replays, and is ended by a packet that cannot be read.
use tapauth.Prelude.{
  ℕ, ◌≤◌, ◌<◌, ◌≡◌, refl, ◌+◌, ◌%◌, ◌^◌, All, true, false, Option, some, List, [], ◌∷◌, ◌++◌,
  Result, ok, err, Bytes, leb, Among, first, later, Bool, ◌∙◌, inl, inr, arith, String, contains,
  bytes_eq, le→leb, any, Among-any, values, is_ok,
}
use tapauth.Crypto.Crates.{Crates}
use tapauth.Network.Discovery.{get_session_timeout, get_client_retry_interval}
use tapauth.Protocol.Message.{
  Codec, WrapperMessage, EncryptedPacket, Payload, AuthenticationGrant, auth_grant,
}
use tapauth.Protocol.Messages.{verify_auth_grant, verify_wrapper_signature}
use tapauth.Protocol.Grants.{verify_auth_grant_iff, verify_wrapper_signature_iff}
use tapauth.Daemon.Auth.Response.{
  AuthHandlerError, timeout, nothing, response, Action, call, finalize, send_request,
  receive_response, Context, Servers, fingerprint, with_key, examine, verify_response_signature,
  wait_for_response, send_confirmation_background, handle_auth_grant, dispatch,
  process_auth_response,
}
use tapauth.Daemon.Auth.Evidence.{KeyHolder, Authentic, Grants}
use tapauth.Daemon.Auth.Loop.{
  Round, Session, return, continue, start, Turn-cases, turn, authenticate_from,
  authenticate_from-return, authenticate_from-continue, after_wait, authenticate_with_transport,
}

holder-any :
    (c : Crates) (p : Codec) (check : Bytes → Bool) (servers : Servers) (key : Bytes)
    → KeyHolder c p servers key
    → check key ≡ true
    → any (with_key c p check) (values servers) ≡ true
holder-any c p check servers key holder passes =
    Among-any (with_key c p check) holder.server holder.is_paired
      (ground (arith, holder.is_key, holder.key_length))

module _ (c : Crates) (p : Codec) (ctx : Context) (packet : EncryptedPacket) where
  ends_late :
      (r : Round) (s : Session)
      → get_session_timeout ≤ r.elapsed
      → turn c p ctx packet r s ≡ return (err timeout) (s.actions ++ call finalize ∷ [])
  unfolding turn
  ends_late r s late = rw (le→leb get_session_timeout r.elapsed late)

  from_ends :
      (rounds : List Round) (s : Session) {r : Round}
      → Among r rounds
      → get_session_timeout ≤ r.elapsed
      → (x : Result AuthHandlerError (Unit {0}) × List Action) × (authenticate_from c p ctx packet
            rounds s
          ≡ some x)
  from_ends [] s x late = elim x [ ]
  from_ends (r ∷ rounds) s (first e) late =
      let late_turn = ends_late r s (rw (← e) late) in
      (
        (err timeout, s.actions ++ call finalize ∷ []),
        authenticate_from-return c p ctx packet r rounds s late_turn,
      )
  from_ends (r ∷ rounds) s (later there) late = elim (Turn-cases (turn c p ctx packet r s)) [
    | inl (result, actions, ended) ↦
        ((result, actions), authenticate_from-return c p ctx packet r rounds s ended)
    | inr (s', went_on) ↦
        let (x, done) = from_ends rounds s' there late in
        (x, authenticate_from-continue c p ctx packet r rounds s went_on ∙ done)
  ]

  -- An attempt returns once a round begins at or after the session timeout of 120 seconds,
  -- whatever was sent and received before.
  pub authenticate_with_transport_ends :
      (rounds : List Round) {r : Round}
      → Among r rounds
      → get_session_timeout ≤ r.elapsed
      → (x : Result AuthHandlerError (Unit {0}) × List Action) × (authenticate_with_transport c p
            ctx packet rounds
          ≡ some x)
  unfolding authenticate_with_transport
  authenticate_with_transport_ends rounds there late = from_ends rounds start there late

  Authentic-examine :
      (q : EncryptedPacket) (a : String) (w : WrapperMessage)
      → Authentic c p ctx (ok (response q a)) w
      → examine c p ctx.csk ctx.servers q a ≡ ok (some (w, a))
  unfolding examine verify_response_signature
  Authentic-examine q a w auth =
      let check = λ (key : Bytes). is_ok (verify_wrapper_signature c p w key) in
      let signed = (verify_wrapper_signature_iff c p w auth.key).1 auth.signed in
      let found : any (with_key c p check) (values ctx.servers) ≡ true =
        holder-any c p check ctx.servers auth.key auth.signer (rw signed) in
      ground (arith, auth.decrypts, auth.was_received, found)

  dispatch-grant :
      (clock : Option ℕ) (random : Option Bytes) (w : WrapperMessage) (o : Option Payload)
      {g : AuthenticationGrant}
      → o ≡ some (auth_grant g)
      → dispatch c p clock random ctx w o ≡ handle_auth_grant c p clock random ctx w
  unfolding dispatch
  dispatch-grant clock random w o e = rw e

  grant-accept :
      (clock : Option ℕ) (random : Option Bytes) (w : WrapperMessage)
      → any
          (with_key c p (λ key. is_ok (verify_auth_grant c p w ctx.challenge key)))
          (values ctx.servers)
        ≡ true
      → handle_auth_grant c p clock random ctx w
        ≡ (ok (ok tt), send_confirmation_background c p clock random ctx)
  unfolding handle_auth_grant
  grant-accept clock random w found = rw found

  Grants-process :
      (clock : Option ℕ) (random : Option Bytes) (w : WrapperMessage)
      → Grants c p ctx w
      → process_auth_response c p clock random ctx w
        ≡ (ok (ok tt), send_confirmation_background c p clock random ctx)
  unfolding process_auth_response
  Grants-process clock random w g =
      let check = λ (key : Bytes). is_ok (verify_auth_grant c p w ctx.challenge key) in
      let accepted = (verify_auth_grant_iff c p w ctx.challenge g.key).1 g.is_grant in
      let found = holder-any c p check ctx.servers g.key g.granter (rw accepted) in
      dispatch-grant clock random w w.payload g.is_grant.is_payload
      ∙ grant-accept clock random w found

  -- In time, and the request was sent.
  pub record IsOpen (r : Round) : Type 0 where
    pub in_time : r.elapsed < get_session_timeout
    pub was_sent : r.sent ≡ ok tt

  pub sending : Session → List Action
  sending s =
      s.actions
      ++ call (send_request packet)
        ∷ call (receive_response (get_client_retry_interval s.attempt))
        ∷ []

  -- A round whose packet was not seen before is decided by what the packet holds.
  pub fresh_turn :
      (r : Round) (s : Session) (q : EncryptedPacket) (a : String)
      {result : Result AuthHandlerError (Option (WrapperMessage × String))}
      → IsOpen r
      → r.received ≡ ok (response q a)
      → contains s.nonce_cache (fingerprint q) ≡ false
      → examine c p ctx.csk ctx.servers q a ≡ result
      → turn c p ctx packet r s
        ≡ after_wait c p ctx packet r
            (record s { nonce_cache = fingerprint q ∷ s.nonce_cache; actions = sending s })
            result
  unfolding turn wait_for_response sending
  fresh_turn r s q a {result} open_ received fresh examined =
      let early : leb get_session_timeout r.elapsed ≡ false = ground arith in
      rw (early, open_.was_sent, received, fresh, examined)

  -- A round in which nothing arrived.
  pub record IsQuiet (r : Round) : Type 0 where
    pub is_open : IsOpen r
    pub silent : r.received ≡ ok nothing

  quiet_turn :
      (r : Round) (s : Session)
      → IsQuiet r
      → turn c p ctx packet r s
        ≡ continue (record s { attempt = (s.attempt + 1) % 2 ^ 32; actions = sending s })
  unfolding turn wait_for_response sending
  quiet_turn r s q =
      let early : leb get_session_timeout r.elapsed ≡ false = ground arith in
      rw (early, q.is_open.was_sent, q.silent)

  -- What has to come in for the attempt to succeed.
  pub record BringsGrant (r : Round) : Type 0 where
    pub is_open : IsOpen r
    pub wrapper : WrapperMessage
    pub authentic : Authentic c p ctx r.received wrapper
    pub grants : Grants c p ctx wrapper

  grant_turn :
      (r : Round) (s : Session)
      → (g : BringsGrant r) → contains s.nonce_cache (fingerprint g.authentic.packet) ≡ false
      → turn c p ctx packet r s
        ≡ return (ok tt) (sending s ++ send_confirmation_background c p r.clock r.random ctx)
  grant_turn r s g fresh =
      let auth = g.authentic in
      let examined =
        Authentic-examine auth.packet auth.address g.wrapper (rw auth.was_received at auth) in
      fresh_turn r s auth.packet auth.address g.is_open auth.was_received fresh examined
      ∙ rw (Grants-process r.clock r.random g.wrapper g.grants)

  -- Quiet rounds leave the nonce cache alone, so a round that ends the attempt whatever the
  -- attempt's number and actions still ends it after them.
  pub from_quiet :
      (quiet : List Round) (r : Round) (rest : List Round) (s : Session)
      (result : Result AuthHandlerError (Unit {0}))
      → All IsQuiet quiet
      → ((s' : Session)
          → s'.nonce_cache ≡ s.nonce_cache
          → (actions : List Action) × (turn c p ctx packet r s' ≡ return result actions))
      → (actions : List Action) × (authenticate_from c p ctx packet (quiet ++ r ∷ rest) s
          ≡ some (result, actions))
  from_quiet [] r rest s result _ ends =
      let (actions, ended) = ends s refl in
      (actions, authenticate_from-return c p ctx packet r rest s ended)
  from_quiet (q ∷ quiet) r rest s result (is_quiet, all_quiet) ends =
      let (actions, done) = from_quiet quiet r rest _ result all_quiet ends in
      (
        actions,
        authenticate_from-continue c p ctx packet q (quiet ++ r ∷ rest) s (quiet_turn q s is_quiet)
            ∙ done,
      )

  -- After any number of rounds in which nothing arrived, a round that brings an authentic grant of
  -- the challenge in time makes the attempt succeed, whatever would come after it.
  pub grant-succeeds :
      (quiet : List Round) (r : Round) (rest : List Round)
      → All IsQuiet quiet
      → BringsGrant r
      → (actions : List Action) × (authenticate_with_transport c p ctx packet (quiet ++ r ∷ rest)
          ≡ some (ok tt, actions))
  unfolding authenticate_with_transport
  grant-succeeds quiet r rest all_quiet g =
      from_quiet quiet r rest start (ok tt) all_quiet (λ s same. (_, grant_turn r s g (rw same)))
