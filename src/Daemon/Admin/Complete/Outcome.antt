-- ===== src/Daemon/Admin/Complete/Outcome.antt =====
-- What a pairing that was completed by tapauthd/src/admin_handler.rs has done.
use tapauth.Prelude.{
  ◌≡◌, sym, ℕ, String, true, Option, none, some, ok, Bytes, string_eq, lookup, ◌∙◌, arith,
  Result-cases, Bool-cases, Option-cases, inl, inr, refl, ap, length, ◌==◌, nat_eq,
}
use tapauth.Crypto.Crates.{Crates}
use tapauth.Crypto.Keys.{ClientSymmetricKey, generate_csk}
use tapauth.Config.Servers.{PairedServer, is_user_allowed}
use tapauth.Config.Files.{is_accessible, is_owned, read_secure_file}
use tapauth.Config.Rotation.{save_csk-load}
use tapauth.Config.Manager.{
  Servers, Disk, System, load_paired_servers, load_csk, has_csk_file, save_csk, add_paired_server,
  save_paired_servers,
}
use tapauth.Config.Pairings.{add_paired_server-load, add_paired_server-loads}
use tapauth.Daemon.Admin.Pairing.{PairingState, ActivePairing, Pairings, take_active}
use tapauth.Daemon.Admin.Complete.{
  choose_csk, Completion, paired_server, add_server, save_and_add, finish_completion,
  handle_complete_pairing,
}

module _ (c : Crates) where
  -- The key was stored before, or there was no key file and it is fresh.
  pub data IsChosen (sys : System) (random : Option Bytes) (disk : Disk) (csk : ClientSymmetricKey)
      : Type 0 where
    was_stored : load_csk sys disk ≡ ok csk → IsChosen sys random disk csk
    is_fresh : disk.csk_file ≡ none → random ≡ some csk.as_bytes → IsChosen sys random disk csk

  -- What a completed pairing has done.
  pub record IsCompleted (sys : System) (given : Completion) (username : String) (s s' : Pairings)
      (disk after : Disk) (id : String) : Type 0 where
    pub pairing : ActivePairing
    pub was_active : s.slot ≡ some (PairingState.active pairing)
    pub slot_is_free : s'.slot ≡ none
    pub csk : ClientSymmetricKey
    pub chosen : IsChosen sys given.random disk csk
    pub phone_confirmed : given.finishes csk ≡ true
    pub key_loads : load_csk sys after ≡ ok csk
    pub id_is_key : id ≡ c.hex_encode pairing.server_public_key
    pub servers : Servers
    pub loads : load_paired_servers sys after ≡ ok servers
    pub server : PairedServer
    pub stored : lookup id servers ≡ some server
    pub has_name : server.name ≡ pairing.server_device_name
    pub has_key : server.public_key ≡ c.hex_encode pairing.server_public_key
    pub allows : (u : String) → is_user_allowed server u ≡ (username == u)

  take_active-ok :
      (port : ℕ) (s : Pairings) {a : ActivePairing}
      → (take_active port s).0 ≡ ok a
      → (s.slot ≡ some (PairingState.active a)) × ((take_active port s).1.slot ≡ none)
  unfolding take_active
  take_active-ok port s h = ground arith

  add_paired_server-csk_file :
      (sys : System) (id : String) (server : PairedServer) (disk : Disk)
      → (add_paired_server sys id server disk).1.csk_file ≡ disk.csk_file
  unfolding add_paired_server save_paired_servers
  add_paired_server-csk_file sys id server disk = ground arith

  load_csk-csk_file :
      (sys : System) (disk disk' : Disk)
      → disk'.csk_file ≡ disk.csk_file
      → load_csk sys disk' ≡ load_csk sys disk
  unfolding load_csk
  load_csk-csk_file sys disk disk' same = rw same refl

  choose_csk-IsChosen :
      (sys : System) (random : Option Bytes) (disk : Disk) {csk : ClientSymmetricKey}
      → choose_csk sys random disk ≡ ok csk
      → IsChosen sys random disk csk
  unfolding choose_csk generate_csk has_csk_file
  choose_csk-IsChosen sys random disk {csk} h = elim (Result-cases (load_csk sys disk)) [
    | inl (stored, loaded) ↦
        let same : stored ≡ csk = ground arith in was_stored (loaded ∙ ap ok same)
    | inr (e, fails) ↦ elim (Option-cases disk.csk_file) [
      | inr (file, there) ↦ absurd (ground arith)
      | inl missing ↦ elim (Option-cases random) [
        | inl nothing ↦ absurd (ground arith)
        | inr (key, drawn) ↦
            let same : key ≡ csk.as_bytes = ground arith in is_fresh missing (drawn ∙ ap some same)
      ]
    ]
  ]

  -- A chosen key has 32 bytes, and its file, if there is one, is root's or tapauthd's.
  IsChosen-saves :
      (sys : System) (random : Option Bytes) (disk : Disk) (csk : ClientSymmetricKey)
      → ((key : Bytes) → random ≡ some key → length key ≡ 32)
      → IsChosen sys random disk csk
      → (is_owned sys.who disk.csk_file ≡ true) × (length csk.as_bytes ≡ 32)
  unfolding load_csk read_secure_file
  IsChosen-saves sys random disk csk sized (is_fresh missing fresh) =
      (rw missing refl, sized csk.as_bytes fresh)
  IsChosen-saves sys random disk csk sized (was_stored loaded) = elim (Option-cases disk.csk_file) [
    | inl missing ↦ absurd (ground arith)
    | inr (file, there) ↦
        let whole : (length file.content == 32) ≡ true = ground arith in
        let same : file.content ≡ csk.as_bytes = ground arith in
        (
          rw there (ground arith),
          sym (ap length same) ∙ (nat_eq.beq_iff (length file.content) 32).0 whole,
        )
  ]

  add_server-ok :
      (sys : System) (username : String) (now : ℕ) (a : ActivePairing) (disk : Disk) {id : String}
      {after : Disk}
      → is_accessible sys.servers_access ≡ true
      → add_server c sys username now a disk ≡ (ok id, after)
      → (id ≡ c.hex_encode a.server_public_key)
        × (servers : Servers) × (load_paired_servers sys after ≡ ok servers)
        × (lookup id servers ≡ some (paired_server c username now a))
        × (after.csk_file ≡ disk.csk_file)
  unfolding add_server
  add_server-ok sys username now a disk {id} {after} accessible h =
      let key = c.hex_encode a.server_public_key in
      let server = paired_server c username now a in
      elim (Result-cases (add_paired_server sys key server disk).0) [
        | inr (e, fails) ↦ absurd (ground arith)
        | inl (_, added) ↦
            let (old, loaded) = add_paired_server-loads sys key server disk added in
            let saved : (add_paired_server sys key server disk).1 ≡ after = ground arith in
            let same : key ≡ id = ground arith in
            let (servers, loads, entries) =
              add_paired_server-load sys key server disk {servers = old} {after = after} accessible
                loaded (λ i. (added i, saved i)) in
            (
              sym same,
              servers,
              loads,
              rw (← same) (entries key ∙ ground (arith, string_eq.beq_iff key key)),
              rw (← saved) (add_paired_server-csk_file sys key server disk),
            )
      ]

  save_and_add-ok :
      (sys : System) (username : String) (now : ℕ) (a : ActivePairing) (csk : ClientSymmetricKey)
      (disk : Disk) {id : String} {after : Disk}
      → save_and_add c sys username now a csk disk ≡ (ok id, after)
      → ((save_csk sys csk disk).0 ≡ ok tt)
        × (add_server c sys username now a (save_csk sys csk disk).1 ≡ (ok id, after))
  unfolding save_and_add
  save_and_add-ok sys username now a csk disk h = ground arith

  -- Where the client's files can be read and random keys have 32 bytes, a pairing that was
  -- completed for a user was active in the slot, which it leaves free; the phone finished the
  -- protocol with the key that was stored before or, without a key file, a fresh one; that key is
  -- loaded from then on; and so is, under the answered name, a server with the phone's key and name
  -- that allows this user and nobody else, whoever it allowed before.
  pub handle_complete_pairing-IsCompleted :
      (sys : System) (given : Completion) (username : String) (port : ℕ) (s : Pairings)
      (disk : Disk) {id : String} {s' : Pairings} {after : Disk}
      → is_accessible sys.servers_access ≡ true
      → is_accessible sys.csk_access ≡ true
      → ((key : Bytes) → given.random ≡ some key → length key ≡ 32)
      → handle_complete_pairing c sys given username port s disk ≡ (ok id, s', after)
      → IsCompleted sys given username s s' disk after id
  unfolding handle_complete_pairing finish_completion is_user_allowed
  handle_complete_pairing-IsCompleted sys given username port s disk {id} {s'} {after} servers_read
        key_reads sized h =
      elim (Result-cases (take_active port s).0) [
        | inr (e, fails) ↦ absurd (ground arith)
        | inl (a, took) ↦ elim (Result-cases (choose_csk sys given.random disk)) [
          | inr (e, fails) ↦ absurd (ground arith)
          | inl (csk, chose) ↦ elim (Bool-cases (given.finishes csk)) [
            | inr refused ↦ absurd (ground arith)
            | inl confirmed ↦
                let (was_active, is_free) = take_active-ok port s took in
                let left : (take_active port s).1 ≡ s' = ground arith in
                let (saved, added) =
                  save_and_add-ok sys username given.now a csk disk {id = id} {after = after}
                    (ground arith) in
                let (same, servers, loads, stored, kept) =
                  add_server-ok sys username given.now a (save_csk sys csk disk).1 {id = id}
                    {after = after} servers_read added in
                let chosen = choose_csk-IsChosen sys given.random disk chose in
                let (owned, whole) = IsChosen-saves sys given.random disk csk sized chosen in
                let (key_loads, _) = save_csk-load sys csk disk key_reads owned whole saved in
                record {
                  pairing = a;
                  was_active = was_active;
                  slot_is_free = rw (← left) is_free;
                  csk = csk;
                  chosen = chosen;
                  phone_confirmed = confirmed;
                  key_loads =
                      load_csk-csk_file sys (save_csk sys csk disk).1 after kept ∙ key_loads;
                  id_is_key = same;
                  servers = servers;
                  loads = loads;
                  server = paired_server c username given.now a;
                  stored = stored;
                  has_name = refl;
                  has_key = refl;
                  allows = λ u. ground arith;
                }
          ]
        ]
      ]
