-- ===== src/Config/Pairings.antt =====
-- What the operations of shared/src/config.rs on paired servers leave to be loaded.
use tapauth.Prelude.{
  ◌≡◌, refl, String, Bool, true, false, not, ◌&&◌, Option, none, some, List, [], ◌∷◌, ok,
  if◌then◌else◌, ◌==◌, string_eq, lookup, insert, remove, retain, any, is_empty, is_some, arith,
  lookup-insert, lookup-remove, inl, inr, Option-cases, Result-cases, Bool-cases,
}
use tapauth.Config.Servers.{PairedServer}
use tapauth.Config.Files.{
  File, is_owned, is_accessible, read_secure_file, ensure_secure_directory, read-write_secure_file,
}
use tapauth.Config.Manager.{
  Servers, Disk, System, load_paired_servers, save_paired_servers, add_paired_server, without_user,
  remove_user_from_pairing, saving,
}

read-owned :
    {A : Type 0} (sys : System) (file : File A) {content : A}
    → read_secure_file sys.who sys.servers_access file ≡ ok content
    → is_owned sys.who (some file) ≡ true
unfolding read_secure_file
read-owned sys file h = ground arith

pub load-owned :
    (sys : System) (disk : Disk) {servers : Servers}
    → load_paired_servers sys disk ≡ ok servers
    → is_owned sys.who disk.servers_file ≡ true
unfolding load_paired_servers
load-owned sys disk {servers} h = elim (Option-cases disk.servers_file) [
  | inl missing ↦ rw missing refl
  | inr (file, there) ↦ elim (Result-cases (read_secure_file sys.who sys.servers_access file)) [
    | inl (content, reads) ↦ rw there (read-owned sys file reads)
    | inr (e, fails) ↦ absurd (ground arith)
  ]
]

save-load :
    (sys : System) (servers : Servers) (disk : Disk)
    → is_accessible sys.servers_access ≡ true
    → is_owned sys.who disk.servers_file ≡ true
    → (save_paired_servers sys servers disk).0 ≡ ok tt
    → load_paired_servers sys (save_paired_servers sys servers disk).1 ≡ ok servers
unfolding save_paired_servers load_paired_servers
save-load sys servers disk accessible owned h =
    elim (Result-cases (ensure_secure_directory sys.who sys.makes_directory)) [
      | inr (e, fails) ↦ absurd (ground arith)
      | inl (_, made) ↦
          let (file, there, reads) =
            read-write_secure_file sys.who sys.who sys.writes_servers sys.servers_access
              (some servers) disk.servers_file refl accessible owned (ground arith) in
          rw (save_paired_servers, made, load_paired_servers, there, reads) refl
    ]

pub saving-load :
    {A : Type 0} (sys : System) (servers : Servers) (disk : Disk) (a : A) {b : A} {after : Disk}
    → is_accessible sys.servers_access ≡ true
    → is_owned sys.who disk.servers_file ≡ true
    → saving sys servers disk a ≡ (ok b, after)
    → (load_paired_servers sys after ≡ ok servers) × (a ≡ b)
saving-load sys servers disk a {b} {after} accessible owned h =
    elim (Result-cases (save_paired_servers sys servers disk).0) [
      | inr (e, fails) ↦ absurd (ground arith)
      | inl (_, saved) ↦
          let same : (save_paired_servers sys servers disk).1 ≡ after = ground arith in
          (rw (← same) (save-load sys servers disk accessible owned saved), ground arith)
    ]

-- The paired servers after an addition that succeeded: the new server under its name, in place of
-- any older entry, and all others as they were.
pub add_paired_server-load :
    (sys : System) (id : String) (server : PairedServer) (disk : Disk) {servers : Servers}
    {after : Disk}
    → is_accessible sys.servers_access ≡ true
    → load_paired_servers sys disk ≡ ok servers
    → add_paired_server sys id server disk ≡ (ok tt, after)
    → (servers' : Servers) × (load_paired_servers sys after ≡ ok servers')
      × ((j : String) → lookup j servers' ≡ (if id == j then some server else lookup j servers))
unfolding add_paired_server
add_paired_server-load sys id server disk {servers} {after} accessible loaded h =
    let (loads, _) =
      saving-load sys (insert id server servers) disk tt {b = tt} {after = after} accessible
        (load-owned sys disk {servers = servers} loaded) (rw (add_paired_server, loaded) at h) in
    (insert id server servers, loads, λ j. lookup-insert id j server servers)

pub add_paired_server-loads :
    (sys : System) (id : String) (server : PairedServer) (disk : Disk)
    → (add_paired_server sys id server disk).0 ≡ ok tt
    → (servers : Servers) × (load_paired_servers sys disk ≡ ok servers)
unfolding add_paired_server
add_paired_server-loads sys id server disk h = elim (Result-cases (load_paired_servers sys disk)) [
  | inr (e, fails) ↦ absurd (ground arith)
  | inl loaded ↦ loaded
]

-- The users who are left are the others who were allowed.
any-retain :
    (username u : String) (users : List String)
    → any (λ v. v == u) (retain (λ v. not (v == username)) users)
      ≡ (any (λ v. v == u) users && not (u == username))
any-retain username u [] = refl
any-retain username u (v ∷ users) = elim (Bool-cases (v == username)) [
  | inl same ↦
      let is : v ≡ username = (string_eq.beq_iff v username).0 same in
      ground
        (arith, any-retain username u users, string_eq.beq_iff v u, string_eq.beq_iff u username)
  | inr other ↦
      ground
        (arith, any-retain username u users, string_eq.beq_iff v u, string_eq.beq_iff u username)
]

load-accessible :
    (sys : System) (id : String) (disk : Disk) {servers : Servers} {server : PairedServer}
    → load_paired_servers sys disk ≡ ok servers
    → lookup id servers ≡ some server
    → is_accessible sys.servers_access ≡ true
unfolding load_paired_servers read_secure_file
load-accessible sys id disk {servers} h there = elim (Option-cases disk.servers_file) [
  | inl missing ↦ let nothing : servers ≡ [] = ground arith in absurd (ground arith)
  | inr (file, found) ↦ ground arith
]

-- What is left of an entry: nothing if no user is left, and else the entry without the user.
abbrev pub remaining : String → Option PairedServer → Option PairedServer
remaining username none = none
remaining username (some server) =
    if is_empty (without_user username server).allowed_users
    then none
    else some (without_user username server)

-- The entries after a user was removed, and whether the entry is gone.
pub remove_user_from_pairing-entries :
    (sys : System) (id username : String) (disk : Disk) {servers : Servers} {gone : Bool}
    {after : Disk}
    → load_paired_servers sys disk ≡ ok servers
    → remove_user_from_pairing sys id username disk ≡ (ok gone, after)
    → (servers' : Servers) × (load_paired_servers sys after ≡ ok servers')
      × ((j : String)
          → lookup j servers'
            ≡ (if id == j then remaining username (lookup id servers) else lookup j servers))
      × (gone ≡ not (is_some (lookup id servers')))
unfolding remove_user_from_pairing
remove_user_from_pairing-entries sys id username disk {servers} {gone} {after} loaded h =
    let owned = load-owned sys disk {servers = servers} loaded in
    elim (Option-cases (lookup id servers)) [
      | inl missing ↦
          let same : disk ≡ after = ground arith in
          let whole : gone ≡ true = ground arith in
          (servers, rw (← same) loaded, λ j. ground (arith, string_eq.beq_iff id j), ground arith)
      | inr (server, there) ↦
          let accessible =
            load-accessible sys id disk {servers = servers} {server = server} loaded there in
          elim (Bool-cases (is_empty (without_user username server).allowed_users)) [
            | inl nobody ↦
                let (loads, whole) =
                  saving-load sys (remove id servers) disk true {b = gone} {after = after}
                    accessible owned (rw (remove_user_from_pairing, loaded, there, nobody) at h) in
                (
                  remove id servers,
                  loads,
                  λ j. ground (arith, lookup-remove id j servers, string_eq.beq_iff id j),
                  ground (arith, lookup-remove id id servers, string_eq.beq_iff id id),
                )
            | inr somebody ↦
                let (loads, whole) =
                  saving-load sys (insert id (without_user username server) servers) disk false
                    {b = gone} {after = after} accessible owned
                    (rw (remove_user_from_pairing, loaded, there, somebody) at h) in
                (
                  insert id (without_user username server) servers,
                  loads,
                  λ j. ground (
                    arith,
                    lookup-insert id j (without_user username server) servers,
                    string_eq.beq_iff id j,
                  ),
                  ground (
                    arith,
                    lookup-insert id id (without_user username server) servers,
                    string_eq.beq_iff id id,
                  ),
                )
          ]
    ]
