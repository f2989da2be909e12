-- ===== src/Daemon/Handle.antt =====
-- tapauthd/src/auth_handler.rs, `AuthSession`: one authentication from the request's guards over
-- the race of the transports to the outcome that PAM is told. The firewall's port, the entry of
-- the cancel registry and the cancel that is multicast after the deadline are not followed.
pub mod Transports
pub mod Access
use tapauth.Prelude.{
  ℕ, ◌*◌, String, Bool, true, false, not, ◌&&◌, ◌||◌, Option, none, some, List, [], ◌∷◌, ◌++◌,
  Result, ok, err, map_err, ◌>>=◌, if◌then◌else◌, Bytes, ltb, any, values, is_empty,
}
use tapauth.Crypto.Crates.{Crates}
use tapauth.Crypto.Keys.{Ed25519KeyPair, ClientSymmetricKey}
use tapauth.Crypto.Temporal.{generate_current_temporal_identifier_ble}
use tapauth.Config.Servers.{PairedServer, is_user_allowed}
use tapauth.Protocol.Message.{Codec, EncryptedPacket, ProtocolError}
use tapauth.Protocol.Messages.{
  create_auth_request_with_challenge, create_auth_cancel, sign_wrapper_message,
}
use tapauth.Protocol.Packet.{
  wrap_auth_request, wrap_auth_cancel, create_encrypted_packet_with_csk_nonce,
}
use tapauth.Daemon.State.{DaemonState, InitProblem}
use tapauth.Daemon.Auth.Response.{
  AuthHandlerError, explicit_denial, transport_disabled, protocol, crypto, Context, Servers,
}
use tapauth.Daemon.Auth.Loop.{Round, authenticate_with_transport}
use tapauth.Daemon.Auth.Race.{
  TaskEnd, returned, Event, ble_done, udp_done, cancelled, await_auth_result,
}

pub data PamOutcome : Type 0 where
  success denied timeout ignore error : PamOutcome

-- Which text `detail` holds.
pub data Detail : Type 0 where
  all_transports_disabled no_paired_devices_configured no_servers_authorized : Detail
  init_error : Option (List InitProblem) → Detail
  authenticated explicitly_denied authentication_timeout : Detail
  authentication_failed : AuthHandlerError → Detail

pub record PamAuthenticateResponse : Type 0 where
  pub outcome : PamOutcome
  pub detail : Detail
  pub challenge : Bytes

pub record TransportsEnabled : Type 0 where
  pub network : Bool
  pub ble : Bool

abbrev pub any_transport : TransportsEnabled → Bool
any_transport t = t.network || t.ble

pub record AuthSession : Type 0 where
  pub state : DaemonState
  pub username : String
  pub challenge : Bytes
  pub transports : TransportsEnabled

-- What happens while both tasks run: at a time in milliseconds one of them ends, or PAM cancels.
pub data Happening : Type 0 where
  ble_ends udp_ends cancel : Happening

-- The world of one attempt: the clock and the random nonces, whether BLE comes up, what the
-- rounds of the two transports meet, and the happenings in order of time.
pub record World : Type 0 where
  pub clock : Option ℕ
  pub request_nonce : Option Bytes
  pub cancel_nonce : Option Bytes
  pub ble_comes_up : Bool
  pub ble_rounds : List Round
  pub udp_rounds : List Round
  pub happenings : List (ℕ × Happening)

-- `tokio::time::timeout`: what happens before the deadline.
before : ℕ → List (ℕ × Happening) → List Happening
before deadline [] = []
before deadline ((t, h) ∷ hs) =
    let rest = before deadline hs in if ltb t deadline then h ∷ rest else []

module _ (c : Crates) (p : Codec) where
  unfoldable pub create_cancel_packet :
      Option ℕ
      → Option Bytes
      → Ed25519KeyPair
      → ClientSymmetricKey
      → Bytes
      → Result AuthHandlerError EncryptedPacket
  create_cancel_packet clock random keypair csk challenge = do
    msg ← map_err protocol (create_auth_cancel challenge)
    wrapper ← map_err protocol (sign_wrapper_message c p (wrap_auth_cancel msg) keypair)
    map_err protocol (create_encrypted_packet_with_csk_nonce c p clock random csk wrapper)

  unfoldable pub create_request_packet :
      Option ℕ
      → Option Bytes
      → String
      → String
      → Ed25519KeyPair
      → ClientSymmetricKey
      → Bytes
      → Result ProtocolError EncryptedPacket
  create_request_packet clock random username hostname keypair csk challenge = do
    request ← create_auth_request_with_challenge clock username hostname challenge
    wrapper ← sign_wrapper_message c p (wrap_auth_request request) keypair
    create_encrypted_packet_with_csk_nonce c p clock random csk wrapper

  -- How a transport's task ends; `none` while it has not returned. A transport that is disabled
  -- or did not come up is a task that fails at once.
  unfoldable pub task_end : Bool → Context → EncryptedPacket → List Round → Option TaskEnd
  task_end false ctx packet rounds = some (returned (err transport_disabled))
  task_end true ctx packet rounds = elim (authenticate_with_transport c p ctx packet rounds) [
    | none ↦ none
    | some (result, actions) ↦ some (returned result)
  ]

  done : (TaskEnd → Event) → Option TaskEnd → List Event
  done event none = []
  done event (some end) = event end ∷ []

  -- `spawn_auth_tasks` and the events that the race sees.
  unfoldable pub events :
      TransportsEnabled → World → Context → EncryptedPacket → List Happening → List Event
  unfolding task_end done
  events t w ctx packet [] = []
  events t w ctx packet (ble_ends ∷ hs) =
      done ble_done (task_end (t.ble && w.ble_comes_up) ctx packet w.ble_rounds)
      ++ events t w ctx packet hs
  events t w ctx packet (udp_ends ∷ hs) =
      done udp_done (task_end t.network ctx packet w.udp_rounds) ++ events t w ctx packet hs
  events t w ctx packet (cancel ∷ hs) = cancelled ∷ events t w ctx packet hs

  -- What can fail before the tasks are spawned.
  prepare : World → Context → Result AuthHandlerError EncryptedPacket
  prepare w ctx = do
    temporal_id ← map_err crypto (generate_current_temporal_identifier_ble c ctx.csk w.clock)
    create_cancel_packet w.clock w.cancel_nonce ctx.keypair ctx.csk ctx.challenge

  -- `none`: the deadline came first.
  unfoldable pub try_parallel_authentication :
      TransportsEnabled
      → World
      → Context
      → EncryptedPacket
      → ℕ
      → Option (Result AuthHandlerError (Unit {0}))
  unfolding events before prepare
  try_parallel_authentication t w ctx packet deadline = elim (prepare w ctx) [
    | err e ↦ some (err e)
    | ok cancel_packet ↦
        elim (await_auth_result t.network (t.ble && w.ble_comes_up)
          (events t w ctx packet (before deadline w.happenings))) [
            | none ↦ none
            | some (result, effects) ↦ some result
          ]
  ]

  respond : PamOutcome → Detail → Bytes → PamAuthenticateResponse
  respond outcome detail challenge = record {
    outcome = outcome;
    detail = detail;
    challenge = challenge;
  }

  conclude : Bytes → Option (Result AuthHandlerError (Unit {0})) → PamAuthenticateResponse
  conclude challenge (some (ok _)) = respond success authenticated challenge
  conclude challenge (some (err explicit_denial)) = respond denied explicitly_denied challenge
  conclude challenge (some (err e)) = respond ignore (authentication_failed e) challenge
  conclude challenge none = respond timeout authentication_timeout challenge

  -- `timeout_seconds.unwrap_or(30)`, in milliseconds.
  abbrev pub timeout_duration : Option ℕ → ℕ
  timeout_duration none = 30 * 1000
  timeout_duration (some s) = s * 1000

  -- The part after the guards; the request's packet may fail to be made.
  unfoldable pub attempt :
      World
      → AuthSession
      → Option ℕ
      → Ed25519KeyPair
      → ClientSymmetricKey
      → Result AuthHandlerError PamAuthenticateResponse
  unfolding respond conclude
  attempt w s timeout_seconds keypair csk = do
    packet ← map_err protocol (
        create_request_packet w.clock w.request_nonce s.username s.state.hostname keypair csk
          s.challenge)
    let ctx : Context = record {
      challenge = s.challenge;
      keypair = keypair;
      csk = csk;
      servers = s.state.paired_servers;
    }
    ok (
        conclude s.challenge (
          try_parallel_authentication s.transports w ctx packet (timeout_duration timeout_seconds)))

  -- The names of the paired servers that may authenticate the user.
  abbrev pub allowed_servers : String → Servers → Bool
  allowed_servers username servers =
      any (λ server. is_user_allowed server username) (values servers)

  unfoldable pub handle_authenticate :
      World → AuthSession → Option ℕ → Result AuthHandlerError PamAuthenticateResponse
  unfolding respond
  handle_authenticate w s timeout_seconds =
      if not (any_transport s.transports)
      then ok (respond ignore all_transports_disabled s.challenge)
      else if is_empty s.state.paired_servers
      then ok (respond ignore no_paired_devices_configured s.challenge)
      else elim s.state.keypair [
        | none ↦ ok (respond error (init_error s.state.init_error) s.challenge)
        | some keypair ↦ elim s.state.csk [
          | none ↦ ok (respond error (init_error s.state.init_error) s.challenge)
          | some csk ↦
              if not (allowed_servers s.username s.state.paired_servers)
              then ok (respond ignore no_servers_authorized s.challenge)
              else attempt w s timeout_seconds keypair csk
        ]
      ]
