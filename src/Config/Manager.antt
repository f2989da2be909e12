-- ===== src/Config/Manager.antt =====
-- shared/src/config.rs, `ClientConfigManager`: the paired servers and the client symmetric key.
-- The state is the client's directory, and the calls of the file system succeed or fail as told.
use tapauth.Prelude.{
  String, Bool, true, false, not, Option, none, some, [], Result, ok, err, ok_or, ◌>>=◌, map_err,
  if◌then◌else◌, Bytes, ◌==◌, nat_eq, string_eq, length, Map, lookup, insert, remove, retain,
  is_empty, is_some,
}
use tapauth.Crypto.Keys.{ClientSymmetricKey, generate_csk}
use tapauth.Config.Servers.{PairedServer}
use tapauth.Config.Files.{
  ConfigError, io, json, crypto, invalid_config, File, Identity, Access, read_secure_file,
  write_secure_file, ensure_secure_directory,
}

abbrev pub Servers : Type 0
Servers = Map String PairedServer

-- The client's directory. A file of servers whose content does not parse holds `none`.
pub record Disk : Type 0 where
  pub csk_file : Option (File Bytes)
  pub servers_file : Option (File (Option Servers))

-- The process, and which calls of the file system succeed.
pub record System : Type 0 where
  pub who : Identity
  pub servers_access : Access
  pub csk_access : Access
  pub makes_directory : Bool
  pub writes_servers : Bool
  pub writes_csk : Bool
  pub removes : Bool

abbrev parsed : Option Servers → Result ConfigError Servers
parsed content = ok_or content json

unfoldable pub load_paired_servers : System → Disk → Result ConfigError Servers
load_paired_servers sys disk = elim disk.servers_file [
  | none ↦ ok []
  | some file ↦ do content ← read_secure_file sys.who sys.servers_access file; parsed content
]

unfoldable pub save_paired_servers : System → Servers → Disk → Result ConfigError (Unit {0}) × Disk
save_paired_servers sys servers disk = elim (ensure_secure_directory sys.who sys.makes_directory) [
  | err e ↦ (err e, disk)
  | ok _ ↦
      let (result, file) =
        write_secure_file sys.who sys.writes_servers (some servers) disk.servers_file in
      (result, record disk { servers_file = file })
]

-- Saves, and gives the value if that succeeded.
abbrev pub saving : {A : Type 0} → System → Servers → Disk → A → Result ConfigError A × Disk
saving sys servers disk a =
    let (result, after) = save_paired_servers sys servers disk in (result >>= (λ _. ok a), after)

unfoldable pub add_paired_server :
    System → String → PairedServer → Disk → Result ConfigError (Unit {0}) × Disk
add_paired_server sys id server disk = elim (load_paired_servers sys disk) [
  | err e ↦ (err e, disk)
  | ok servers ↦ saving sys (insert id server servers) disk tt
]

unfoldable pub remove_paired_server : System → String → Disk → Result ConfigError (Unit {0}) × Disk
remove_paired_server sys id disk = elim (load_paired_servers sys disk) [
  | err e ↦ (err e, disk)
  | ok servers ↦ saving sys (remove id servers) disk tt
]

-- `server.allowed_users.retain(|u| u != username)`.
abbrev pub without_user : String → PairedServer → PairedServer
without_user username server = record server {
  allowed_users = retain (λ u. not (u == username)) server.allowed_users;
}

unfoldable pub remove_user_from_pairing :
    System → String → String → Disk → Result ConfigError Bool × Disk
remove_user_from_pairing sys id username disk = elim (load_paired_servers sys disk) [
  | err e ↦ (err e, disk)
  | ok servers ↦ elim (lookup id servers) [
    | none ↦ (ok true, disk)
    | some server ↦
        let rest = without_user username server in
        if is_empty rest.allowed_users
        then saving sys (remove id servers) disk true
        else saving sys (insert id rest servers) disk false
  ]
]

unfoldable pub clear_paired_servers : System → Disk → Result ConfigError (Unit {0}) × Disk
clear_paired_servers sys disk =
    if not (is_some disk.servers_file)
    then (ok tt, disk)
    else if not sys.removes
    then (err io, disk)
    else (ok tt, record disk { servers_file = none })

unfoldable pub load_csk : System → Disk → Result ConfigError ClientSymmetricKey
load_csk sys disk = elim disk.csk_file [
  | none ↦ err invalid_config
  | some file ↦ do
    bytes ← read_secure_file sys.who sys.csk_access file
    if length bytes == 32 then ok (record { as_bytes = bytes }) else err invalid_config
]

unfoldable pub save_csk : System → ClientSymmetricKey → Disk → Result ConfigError (Unit {0}) × Disk
save_csk sys csk disk = elim (ensure_secure_directory sys.who sys.makes_directory) [
  | err e ↦ (err e, disk)
  | ok _ ↦
      let (result, file) = write_secure_file sys.who sys.writes_csk csk.as_bytes disk.csk_file in
      (result, record disk { csk_file = file })
]

unfoldable pub has_csk_file : Disk → Bool
has_csk_file disk = is_some disk.csk_file

unfoldable pub generate_and_save_csk :
    System → Option Bytes → Disk → Result ConfigError ClientSymmetricKey × Disk
generate_and_save_csk sys random disk = elim (map_err (λ _. crypto) (generate_csk random)) [
  | err e ↦ (err e, disk)
  | ok csk ↦ let (result, after) = save_csk sys csk disk in (result >>= (λ _. ok csk), after)
]

-- A failure to clear the servers is ignored.
unfoldable pub rotate_csk :
    System → Option Bytes → Disk → Result ConfigError ClientSymmetricKey × Disk
rotate_csk sys random disk = generate_and_save_csk sys random (clear_paired_servers sys disk).1
