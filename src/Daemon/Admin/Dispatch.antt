-- ===== src/Daemon/Admin/Dispatch.antt =====
-- tapauthd/src/admin_handler.rs, `handle_admin_request`, in a build without the TPM. A wait for the
-- phone is taken without what other handlers do meanwhile, and answers are told apart by status.
use tapauth.Prelude.{
  ◌≡◌, inl, inr, refl, ℕ, String, Bool, true, false, not, Option, none, some, Result, ok, err,
  if◌then◌else◌, Bytes, Bool-cases,
}
use tapauth.Crypto.Crates.{Crates}
use tapauth.Config.Manager.{Disk, System, load_paired_servers, remove_user_from_pairing, rotate_csk}
use tapauth.Daemon.State.{DaemonState, Loads, reload, is_healthy, IsConsistent, reload-IsConsistent}
use tapauth.Daemon.Admin.Pairing.{
  Pairings, Accepted, handle_start_pairing, take_pending, put_active,
}
use tapauth.Daemon.Admin.Complete.{Completion, handle_complete_pairing}
use tapauth.Daemon.Admin.Settings.{Settings, SaveConfigRequest, handle_save_config}

pub data AdminStatus : Type 0 where
  admin_success admin_error admin_unauthorized : AdminStatus

-- A request, with what the outside does while it is handled.
pub data AdminRequest : Type 0 where
  get_servers get_config get_daemon_status recover_tpm empty_request : AdminRequest
  start_pairing : Option ℕ → AdminRequest
  wait_for_pairing : ℕ → Accepted → AdminRequest
  complete_pairing : ℕ → Completion → AdminRequest
  remove_device : String → AdminRequest
  rotate_key : Option Bytes → AdminRequest
  save_config : Bool → Bool → SaveConfigRequest → AdminRequest

pub record AdminState : Type 0 where
  pub daemon : DaemonState
  pub pairings : Pairings
  pub disk : Disk
  pub settings : Settings

abbrev status_of : {E A : Type 0} → Result E A → AdminStatus
status_of (ok _) = admin_success
status_of (err _) = admin_error

abbrev pub needs_reload : AdminRequest → Bool
needs_reload (complete_pairing _ _) = true
needs_reload (remove_device _) = true
needs_reload (rotate_key _) = true
needs_reload (save_config _ _ _) = true
needs_reload recover_tpm = true
needs_reload _ = false

module _ (c : Crates) (sys : System) where
  wait : ℕ → Accepted → Pairings → AdminStatus × Pairings
  wait port accepted s =
      let (taken, after) = take_pending port s in
      elim taken [
        | err _ ↦ (admin_error, after)
        | ok p ↦ let (result, last) = put_active p accepted after in (status_of result, last)
      ]

  -- The `match` on the payload.
  unfoldable pub answer : String → AdminRequest → AdminState → AdminStatus × AdminState
  unfolding wait
  answer username get_servers s = (status_of (load_paired_servers sys s.disk), s)
  answer username get_config s = (admin_success, s)
  answer username get_daemon_status s = (admin_success, s)
  answer username recover_tpm s = (admin_error, s)
  answer username empty_request s = (admin_error, s)
  answer username (start_pairing port) s =
      let (result, pairings) = handle_start_pairing port s.pairings in
      (status_of result, record s { pairings = pairings })
  answer username (wait_for_pairing port accepted) s =
      let (status, pairings) = wait port accepted s.pairings in
      (status, record s { pairings = pairings })
  answer username (complete_pairing port given) s =
      let (result, pairings, disk) =
        handle_complete_pairing c sys given username port s.pairings s.disk in
      (status_of result, record s { pairings = pairings; disk = disk })
  answer username (remove_device id) s =
      let (result, disk) = remove_user_from_pairing sys id username s.disk in
      (status_of result, record s { disk = disk })
  answer username (rotate_key random) s =
      let (result, disk) = rotate_csk sys random s.disk in
      (status_of result, record s { disk = disk })
  answer username (save_config saves_toml saves_client req) s =
      let (result, settings) = handle_save_config saves_toml saves_client req s.settings in
      (status_of result, record s { settings = settings })

  -- `identity` is the name that `resolve_peer` gives, `authorized` the verdict of PolKit, and
  -- `loads` what a reload reads.
  unfoldable pub handle_admin_request :
      (Disk → Settings → Loads)
      → Option String
      → Bool
      → AdminRequest
      → AdminState
      → AdminStatus × AdminState
  handle_admin_request loads identity authorized request s = elim identity [
    | none ↦ (admin_error, s)
    | some username ↦
        let (status, after) = answer username request s in
        let reloaded = record after {
          daemon = reload (loads after.disk after.settings) after.daemon;
        } in
        if not authorized
        then (admin_unauthorized, s)
        else if needs_reload request
        then (status, reloaded)
        else (status, after)
  ]

  answer-daemon :
      (username : String) (request : AdminRequest) (s : AdminState)
      → (answer username request s).1.daemon ≡ s.daemon
  unfolding answer
  answer-daemon username get_servers s = refl
  answer-daemon username get_config s = refl
  answer-daemon username get_daemon_status s = refl
  answer-daemon username recover_tpm s = refl
  answer-daemon username empty_request s = refl
  answer-daemon username (start_pairing port) s = refl
  answer-daemon username (wait_for_pairing port accepted) s = refl
  answer-daemon username (complete_pairing port given) s = refl
  answer-daemon username (remove_device id) s = refl
  answer-daemon username (rotate_key random) s = refl
  answer-daemon username (save_config _ _ req) s = refl

  -- No request, whatever the caller may do and whatever fails to load, leaves a consistent daemon
  -- inconsistent or a healthy daemon unhealthy.
  pub handle_admin_request-IsConsistent :
      (loads : Disk → Settings → Loads) (identity : Option String) (authorized : Bool)
      (request : AdminRequest) (s : AdminState)
      → IsConsistent s.daemon
      → IsConsistent (handle_admin_request loads identity authorized request s).1.daemon
        × (is_healthy s.daemon ≡ true
            → is_healthy (handle_admin_request loads identity authorized request s).1.daemon ≡ true)
  unfolding handle_admin_request
  handle_admin_request-IsConsistent loads none authorized request s h = (h, λ healthy. healthy)
  handle_admin_request-IsConsistent loads (some username) false request s h =
      (h, λ healthy. healthy)
  handle_admin_request-IsConsistent loads (some username) true request s h =
      let after = (answer username request s).1 in
      let same = answer-daemon username request s in
      let (consistent, healthy) =
        reload-IsConsistent (loads after.disk after.settings) after.daemon in
      elim (Bool-cases (needs_reload request)) [
        | inl reloads ↦ rw reloads (consistent, λ was. healthy (rw same was))
        | inr keeps ↦ rw keeps (rw same h, λ was. rw same was)
      ]
