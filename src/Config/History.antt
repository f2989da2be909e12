-- ===== src/Config/History.antt =====
-- Sequences of the operations of shared/src/config.rs on paired servers, against a function from
-- names to servers that forgets files, owners and order.
use tapauth.Prelude.{
  ◌≡◌, refl, ◌∙◌, ap, String, true, Option, none, some, List, [], ◌∷◌, Result, ok, err,
  if◌then◌else◌, Bytes, ◌==◌, string_eq, lookup, remove, arith, lookup-remove,
}
use tapauth.Config.Servers.{PairedServer}
use tapauth.Config.Files.{ConfigError, is_accessible}
use tapauth.Config.Manager.{
  Servers, Disk, System, load_paired_servers, add_paired_server, remove_paired_server,
  remove_user_from_pairing, clear_paired_servers, rotate_csk, generate_and_save_csk, save_csk,
}
use tapauth.Config.Pairings.{
  remaining, load-owned, saving-load, add_paired_server-load, remove_user_from_pairing-entries,
}
use tapauth.Config.Rotation.{clear-none}

pub data Operation : Type 0 where
  add : String → PairedServer → Operation
  remove_server : String → Operation
  remove_user : String → String → Operation
  clear : Operation
  rotate : Option Bytes → Operation

abbrev discard : {A : Type 0} → Result ConfigError A × Disk → Result ConfigError (Unit {0}) × Disk
discard (ok a, disk) = (ok tt, disk)
discard (err e, disk) = (err e, disk)

unfoldable pub perform : System → Operation → Disk → Result ConfigError (Unit {0}) × Disk
perform sys (add id server) disk = add_paired_server sys id server disk
perform sys (remove_server id) disk = remove_paired_server sys id disk
perform sys (remove_user id username) disk = discard (remove_user_from_pairing sys id username disk)
perform sys clear disk = clear_paired_servers sys disk
perform sys (rotate random) disk = discard (rotate_csk sys random disk)

-- The operations ended well, one after another.
pub data Performed (sys : System) : List Operation → Disk → Disk → Type 0 where
  nothing : {disk : Disk} → Performed sys [] disk disk
  then_more :
      {op : Operation} {ops : List Operation} {disk next after : Disk}
      → perform sys op disk ≡ (ok tt, next)
      → Performed sys ops next after
      → Performed sys (op ∷ ops) disk after

abbrev pub Known : Type 0
Known = String → Option PairedServer

-- The specification of one operation, and of a sequence.
unfoldable pub specified : Operation → Known → Known
specified (add id server) known j = if id == j then some server else known j
specified (remove_server id) known j = if id == j then none else known j
specified (remove_user id username) known j =
    if id == j then remaining username (known id) else known j
specified clear known j = none
specified (rotate random) known j = none

unfoldable pub all_specified : List Operation → Known → Known
unfolding specified
all_specified [] known = known
all_specified (op ∷ ops) known = all_specified ops (specified op known)

-- The disk is read as the function tells.
pub record Represents (sys : System) (disk : Disk) (known : Known) : Type 0 where
  pub servers : Servers
  pub loads : load_paired_servers sys disk ≡ ok servers
  pub same : (j : String) → lookup j servers ≡ known j

discard-ok :
    {A : Type 0} (r : Result ConfigError A × Disk) {after : Disk}
    → discard r ≡ (ok tt, after)
    → (a : A) × (r ≡ (ok a, after))
discard-ok (ok a, disk) h = (a, ground arith)
discard-ok (err e, disk) h = absurd (ground arith)

Represents-none :
    (sys : System) (disk : Disk) → disk.servers_file ≡ none → Represents sys disk (λ _. none)
unfolding load_paired_servers
Represents-none sys disk missing = record {
  servers = [];
  loads = rw missing refl;
  same = λ j. refl;
}

remove_paired_server-load :
    (sys : System) (id : String) (disk : Disk) {servers : Servers} {after : Disk}
    → is_accessible sys.servers_access ≡ true
    → load_paired_servers sys disk ≡ ok servers
    → remove_paired_server sys id disk ≡ (ok tt, after)
    → (servers' : Servers) × (load_paired_servers sys after ≡ ok servers')
      × ((j : String) → lookup j servers' ≡ (if id == j then none else lookup j servers))
unfolding remove_paired_server
remove_paired_server-load sys id disk {servers} {after} accessible loaded h =
    let (loads, _) =
      saving-load sys (remove id servers) disk tt {b = tt} {after = after} accessible
        (load-owned sys disk {servers = servers} loaded) (rw (remove_paired_server, loaded) at h) in
    (remove id servers, loads, λ j. lookup-remove id j servers)

rotate_csk-servers_file :
    (sys : System) (random : Option Bytes) (disk : Disk)
    → (rotate_csk sys random disk).1.servers_file ≡ (clear_paired_servers sys disk).1.servers_file
unfolding rotate_csk generate_and_save_csk save_csk
rotate_csk-servers_file sys random disk = ground arith

perform-Represents :
    (sys : System) (op : Operation) (disk : Disk) (known : Known) {after : Disk}
    → is_accessible sys.servers_access ≡ true
    → sys.removes ≡ true
    → Represents sys disk known
    → perform sys op disk ≡ (ok tt, after)
    → Represents sys after (specified op known)
unfolding perform specified
perform-Represents sys (add id server) disk known {after} accessible removes r h =
    let (servers, loads, same) =
      add_paired_server-load sys id server disk {servers = r.servers} {after = after} accessible
        r.loads h in
    record { servers = servers; loads = loads; same = λ j. ground (arith, same j, r.same j) }
perform-Represents sys (remove_server id) disk known {after} accessible removes r h =
    let (servers, loads, same) =
      remove_paired_server-load sys id disk {servers = r.servers} {after = after} accessible r.loads
        h in
    record { servers = servers; loads = loads; same = λ j. ground (arith, same j, r.same j) }
perform-Represents sys (remove_user id username) disk known {after} accessible removes r h =
    let (gone, performed) = discard-ok (remove_user_from_pairing sys id username disk) h in
    let (servers, loads, same, _) =
      remove_user_from_pairing-entries sys id username disk {servers = r.servers} {gone = gone}
        {after = after} r.loads performed in
    record { servers = servers; loads = loads; same = λ j. rw (← r.same id, ← r.same j) (same j) }
perform-Represents sys clear disk known {after} accessible removes r h =
    let is_after : (clear_paired_servers sys disk).1 ≡ after = ap (λ x. x.1) h in
    Represents-none sys after (rw (← is_after) (clear-none sys disk removes).0)
perform-Represents sys (rotate random) disk known {after} accessible removes r h =
    let (csk, performed) = discard-ok (rotate_csk sys random disk) h in
    let is_after : (rotate_csk sys random disk).1 ≡ after = ap (λ x. x.1) performed in
    Represents-none sys after
      (rw (← is_after) (rotate_csk-servers_file sys random disk ∙ (clear-none sys disk removes).0))

-- Any sequence of operations on paired servers that end well, on a directory where the file of
-- servers can be read and removed, refines the same sequence on a function from names to servers: what is loaded
-- afterwards is what the function tells.
pub Performed-Represents :
    (sys : System) (ops : List Operation) (disk after : Disk) (known : Known)
    → is_accessible sys.servers_access ≡ true
    → sys.removes ≡ true
    → Represents sys disk known
    → Performed sys ops disk after
    → Represents sys after (all_specified ops known)
unfolding all_specified
Performed-Represents sys [] disk after known accessible removes r nothing = r
Performed-Represents sys (op ∷ ops) disk after known accessible removes r
      (then_more {next = next} h more) =
    Performed-Represents sys ops next after (specified op known) accessible removes
      (perform-Represents sys op disk known accessible removes r h) more
