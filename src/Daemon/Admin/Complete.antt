-- ===== src/Daemon/Admin/Complete.antt =====
-- tapauthd/src/admin_handler.rs, `handle_complete_pairing` and the handlers of the paired devices.
pub mod Outcome
use tapauth.Prelude.{
  ◌≡◌, sym, ℕ, String, Bool, true, Option, none, some, [], ◌∷◌, Result, ok, err, map_err,
  if◌then◌else◌, Bytes, string_eq, lookup, ◌∙◌, arith, Result-cases, Bool-cases, Option-cases, inl,
  inr, refl, ap, length, ◌==◌, nat_eq, ◌||◌, false,
}
use tapauth.Crypto.Crates.{Crates}
use tapauth.Crypto.Keys.{ClientSymmetricKey, generate_csk}
use tapauth.Config.Servers.{PairedServer, is_user_allowed}
use tapauth.Config.Files.{invalid_config, is_accessible, is_owned, read_secure_file}
use tapauth.Config.Rotation.{save_csk-load}
use tapauth.Config.Manager.{
  Servers, Disk, System, load_paired_servers, load_csk, has_csk_file, save_csk, add_paired_server,
  save_paired_servers,
}
use tapauth.Config.Pairings.{add_paired_server-load, add_paired_server-loads}
use tapauth.Daemon.Admin.Pairing.{
  PairingState, AdminError, csk_corrupt, csk_generation_failed, csk_load_failed, completion_failed,
  csk_save_failed, server_save_failed, ActivePairing, Pairings, take_active,
}

-- The key to hand over: the stored one, or a fresh one where there is none.
unfoldable pub choose_csk : System → Option Bytes → Disk → Result AdminError ClientSymmetricKey
choose_csk sys random disk = elim (load_csk sys disk) [
  | ok csk ↦ ok csk
  | err invalid_config ↦
      if has_csk_file disk
      then err csk_corrupt
      else map_err (λ _. csk_generation_failed) (generate_csk random)
  | err _ ↦ err csk_load_failed
]

-- What the phone, the clock and the random generator give to a completion.
pub record Completion : Type 0 where
  pub random : Option Bytes
  pub now : ℕ
  -- Whether `finish_pairing` with this key succeeds.
  pub finishes : ClientSymmetricKey → Bool

module _ (c : Crates) where
  abbrev pub paired_server : String → ℕ → ActivePairing → PairedServer
  paired_server username now a = record {
    name = a.server_device_name;
    public_key = c.hex_encode a.server_public_key;
    allowed_users = username ∷ [];
    paired_at = now;
  }

  add_server : System → String → ℕ → ActivePairing → Disk → Result AdminError String × Disk
  add_server sys username now a disk =
      let id = c.hex_encode a.server_public_key in
      let (result, after) = add_paired_server sys id (paired_server username now a) disk in
      (elim result [ ok _ ↦ ok id | err _ ↦ err server_save_failed ], after)

  save_and_add :
      System
      → String
      → ℕ
      → ActivePairing
      → ClientSymmetricKey
      → Disk
      → Result AdminError String × Disk
  unfolding add_server
  save_and_add sys username now a csk disk =
      let (result, saved) = save_csk sys csk disk in
      elim result [
        | err _ ↦ (err csk_save_failed, saved)
        | ok _ ↦ add_server sys username now a saved
      ]

  -- The part of `handle_complete_pairing` after it took the pairing out of the slot.
  unfoldable pub finish_completion :
      System → Completion → String → ActivePairing → Disk → Result AdminError String × Disk
  unfolding save_and_add
  finish_completion sys given username a disk = elim (choose_csk sys given.random disk) [
    | err e ↦ (err e, disk)
    | ok csk ↦
        if given.finishes csk
        then save_and_add sys username given.now a csk disk
        else (err completion_failed, disk)
  ]

  unfoldable pub handle_complete_pairing :
      System
      → Completion
      → String
      → ℕ
      → Pairings
      → Disk
      → Result AdminError String × Pairings × Disk
  handle_complete_pairing sys given username port s disk =
      let (taken, after) = take_active port s in
      elim taken [
        | err e ↦ (err e, after, disk)
        | ok a ↦
            let (result, saved) = finish_completion sys given username a disk in
            (result, after, saved)
      ]
