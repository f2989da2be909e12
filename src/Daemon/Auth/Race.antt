-- ===== src/Daemon/Auth/Race.antt =====
-- tapauthd/src/auth_handler.rs, `await_auth_result` and what it calls: both transports race, and a
-- cancel from PAM ends the race. `abort` of a task that has ended changes nothing.
pub mod Outcome
pub mod Cancel
use tapauth.Prelude.{
  ℕ, Bool, true, false, ◌&&◌, Option, none, some, List, [], ◌∷◌, ◌++◌, Result, ok, err,
  if◌then◌else◌,
}
use tapauth.Daemon.Auth.Response.{AuthHandlerError, explicit_denial, denied}

-- How a spawned task ended: with its own result, or by a panic.
pub data TaskEnd : Type 0 where
  returned : Result AuthHandlerError (Unit {0}) → TaskEnd
  panicked : TaskEnd

pub data Event : Type 0 where
  ble_done udp_done : TaskEnd → Event
  cancelled : Event

pub data Effect : Type 0 where
  abort_ble abort_udp : Effect
  udp_send_cancel : Effect
  -- A background task of the BLE transport: `send_cancel` then `finalize`, or `finalize` alone.
  ble_cancel_and_finalize ble_finalize : Effect
  sleep : ℕ → Effect

pub data Reaction : Type 0 where
  conclude : Result AuthHandlerError (Unit {0}) → List Effect → Reaction
  await : Bool → Bool → Reaction

-- `network`: the Local Network transport is enabled. `ble`: there is a BLE transport.
module _ (network ble : Bool) where
  when : Bool → Effect → List Effect
  when b e = if b then e ∷ [] else []

  unfoldable pub multicast_cancel_on_success : List Effect
  unfolding when
  multicast_cancel_on_success = when ble ble_cancel_and_finalize ++ when network udp_send_cancel

  unfoldable pub cleanup_transports : List Effect
  unfolding when
  cleanup_transports = when ble ble_finalize ++ when network udp_send_cancel

  unfoldable pub handle_cancellation : List Effect
  unfolding when
  handle_cancellation =
      when network udp_send_cancel
      ++ (when ble ble_finalize ++ (sleep 100 ∷ abort_ble ∷ abort_udp ∷ []))

  -- The arm of one transport: which task to abort, and the flags if it failed.
  abbrev arm : Effect → Reaction → TaskEnd → Reaction
  arm abort failed (returned (ok _)) = conclude (ok tt) (abort ∷ multicast_cancel_on_success)
  arm abort failed (returned (err explicit_denial)) =
      conclude (err explicit_denial) (abort ∷ cleanup_transports)
  arm abort failed _ = failed

  -- One turn of `select!`: the arm of a transport that has failed is disabled.
  abbrev pub react : Bool → Bool → Event → Reaction
  react ble_failed udp_failed (ble_done end) =
      if ble_failed then await ble_failed udp_failed else arm abort_udp (await true udp_failed) end
  react ble_failed udp_failed (udp_done end) =
      if udp_failed then await ble_failed udp_failed else arm abort_ble (await ble_failed true) end
  react ble_failed udp_failed cancelled = conclude (err denied) handle_cancellation

  -- `none`: the events have run out and the race goes on.
  unfoldable pub await_from :
      Bool → Bool → List Event → Option (Result AuthHandlerError (Unit {0}) × List Effect)
  await_from ble_failed udp_failed [] =
      if ble_failed && udp_failed then some (err denied, []) else none
  await_from ble_failed udp_failed (e ∷ events) = elim (ble_failed && udp_failed) [
    | true ↦ some (err denied, [])
    | false ↦ elim (react ble_failed udp_failed e) [
      | conclude result effects ↦ some (result, effects)
      | await ble_failed' udp_failed' ↦ await_from ble_failed' udp_failed' events
    ]
  ]

  unfoldable pub await_auth_result :
      List Event → Option (Result AuthHandlerError (Unit {0}) × List Effect)
  unfolding await_from
  await_auth_result = await_from false false
