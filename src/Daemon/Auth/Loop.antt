-- ===== src/Daemon/Auth/Loop.antt =====
-- tapauthd/src/auth_handler.rs, `authenticate_with_transport`: requests are repeated until an
-- answer counts, the transport fails or the session times out.
use tapauth.Prelude.{
  ◌≡◌, refl, ◌⊎◌, inl, inr, ℕ, ◌+◌, ◌%◌, ◌^◌, String, Option, none, some, List, [], ◌∷◌, ◌++◌,
  Result, ok, err, if◌then◌else◌, Bytes, leb,
}
use tapauth.Crypto.Crates.{Crates}
use tapauth.Network.Discovery.{get_client_retry_interval, get_session_timeout}
use tapauth.Protocol.Message.{Codec, WrapperMessage, EncryptedPacket}
use tapauth.Daemon.Auth.Response.{
  AuthHandlerError, timeout, ReceiveResult, ResponseError, Action, call, send_request,
  receive_response, finalize, Context, wait_for_response, process_auth_response,
}

-- What one turn of the loop meets: the time since the start in milliseconds, what sending and
-- receiving gave, and the clock and the random nonce for a confirmation.
pub record Round : Type 0 where
  pub elapsed : ℕ
  pub sent : Result AuthHandlerError (Unit {0})
  pub received : Result AuthHandlerError ReceiveResult
  pub clock : Option ℕ
  pub random : Option Bytes

-- The loop's variables, and what it has done so far.
pub record Session : Type 0 where
  pub attempt : ℕ  -- u32
  pub nonce_cache : List Bytes
  pub actions : List Action

pub data Turn : Type 0 where
  return : Result AuthHandlerError (Unit {0}) → List Action → Turn
  continue : Session → Turn

pub Turn-cases :
    (t : Turn)
    → ((result : Result AuthHandlerError (Unit {0})) × (actions : List Action) × (t
          ≡ return result actions))
      ⊎ ((s : Session) × (t ≡ continue s))
Turn-cases (return result actions) = inl (result, actions, refl)
Turn-cases (continue s) = inr (s, refl)

abbrev pub start : Session
start = record { attempt = 0; nonce_cache = []; actions = [] }

module _ (c : Crates) (p : Codec) (ctx : Context) (packet : EncryptedPacket) where
  abbrev pub answered :
      Session → Result ResponseError (Result AuthHandlerError (Unit {0})) × List Action → Turn
  answered s (ok result, done) = return result (s.actions ++ done)
  answered s (err e, done) = continue (record s { actions = s.actions ++ done })

  -- The `match` on `wait_for_response`.
  abbrev pub after_wait :
      Round → Session → Result AuthHandlerError (Option (WrapperMessage × String)) → Turn
  after_wait r s (ok (some (wrapper, address))) =
      answered s (process_auth_response c p r.clock r.random ctx wrapper)
  after_wait r s (ok none) = continue (record s { attempt = (s.attempt + 1) % 2 ^ 32 })
  after_wait r s (err e) = return (err e) (s.actions ++ call finalize ∷ [])

  abbrev pub after_send : Round → Session → Result AuthHandlerError (Unit {0}) → Turn
  after_send r s (err e) =
      return (err e) (s.actions ++ call (send_request packet) ∷ call finalize ∷ [])
  after_send r s (ok _) =
      let (waited, cache) = wait_for_response c p ctx.csk ctx.servers s.nonce_cache r.received in
      let interval = get_client_retry_interval s.attempt in
      after_wait r
        (record s {
          nonce_cache = cache;
          actions = s.actions ++ call (send_request packet) ∷ call (receive_response interval) ∷ [];
        })
        waited

  unfoldable pub turn : Round → Session → Turn
  turn r s =
      if leb get_session_timeout r.elapsed
      then return (err timeout) (s.actions ++ call finalize ∷ [])
      else after_send r s r.sent

  -- `none`: the rounds have run out and the loop still waits.
  unfoldable pub authenticate_from :
      List Round → Session → Option (Result AuthHandlerError (Unit {0}) × List Action)
  authenticate_from [] s = none
  authenticate_from (r ∷ rounds) s = elim (turn r s) [
    | return result actions ↦ some (result, actions)
    | continue s' ↦ authenticate_from rounds s'
  ]

  unfoldable pub authenticate_with_transport :
      List Round → Option (Result AuthHandlerError (Unit {0}) × List Action)
  unfolding authenticate_from
  authenticate_with_transport rounds = authenticate_from rounds start

  pub authenticate_from-return :
      (r : Round) (rounds : List Round) (s : Session) {result : Result AuthHandlerError (Unit {0})}
      {actions : List Action}
      → turn r s ≡ return result actions
      → authenticate_from (r ∷ rounds) s ≡ some (result, actions)
  unfolding authenticate_from
  authenticate_from-return r rounds s ended = rw (ended, authenticate_from)

  pub authenticate_from-continue :
      (r : Round) (rounds : List Round) (s : Session) {s' : Session}
      → turn r s ≡ continue s'
      → authenticate_from (r ∷ rounds) s ≡ authenticate_from rounds s'
  unfolding authenticate_from
  authenticate_from-continue r rounds s went_on = rw (went_on, authenticate_from)
