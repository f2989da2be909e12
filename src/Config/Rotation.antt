-- ===== src/Config/Rotation.antt =====
-- What a rotation of the client key in shared/src/config.rs leaves to be loaded.
use tapauth.Prelude.{
  ◌≡◌, refl, true, none, some, [], ok, string_eq, arith, inl, inr, Result-cases, Bytes, length,
}
use tapauth.Crypto.Keys.{ClientSymmetricKey, generate_csk}
use tapauth.Config.Files.{is_owned, is_accessible, ensure_secure_directory, read-write_secure_file}
use tapauth.Config.Manager.{
  Disk, System, load_paired_servers, clear_paired_servers, load_csk, save_csk,
  generate_and_save_csk, rotate_csk,
}

pub save_csk-load :
    (sys : System) (csk : ClientSymmetricKey) (disk : Disk)
    → is_accessible sys.csk_access ≡ true
    → is_owned sys.who disk.csk_file ≡ true
    → length csk.as_bytes ≡ 32
    → (save_csk sys csk disk).0 ≡ ok tt
    → (load_csk sys (save_csk sys csk disk).1 ≡ ok csk)
      × ((save_csk sys csk disk).1.servers_file ≡ disk.servers_file)
unfolding save_csk load_csk
save_csk-load sys csk disk accessible owned sized h =
    elim (Result-cases (ensure_secure_directory sys.who sys.makes_directory)) [
      | inr (e, fails) ↦ absurd (ground arith)
      | inl (_, made) ↦
          let (file, there, reads) =
            read-write_secure_file sys.who sys.who sys.writes_csk sys.csk_access csk.as_bytes
              disk.csk_file refl accessible owned (ground arith) in
          (rw (save_csk, made, load_csk, there, reads, sized) refl, rw (save_csk, made) refl)
    ]

pub clear-none :
    (sys : System) (disk : Disk)
    → sys.removes ≡ true
    → ((clear_paired_servers sys disk).1.servers_file ≡ none)
      × ((clear_paired_servers sys disk).1.csk_file ≡ disk.csk_file)
unfolding clear_paired_servers
clear-none sys disk removes = ground arith

-- A rotation to a key of 32 bytes that succeeded, where the file of servers can be removed, the key
-- file can be read and an old key file was root's or tapauthd's, leaves no paired server, and the
-- key that is loaded from then on is the fresh one.
pub rotate_csk-load :
    (sys : System) (key : Bytes) (disk : Disk) {csk : ClientSymmetricKey} {after : Disk}
    → sys.removes ≡ true
    → is_accessible sys.csk_access ≡ true
    → is_owned sys.who disk.csk_file ≡ true
    → length key ≡ 32
    → rotate_csk sys (some key) disk ≡ (ok csk, after)
    → (load_paired_servers sys after ≡ ok []) × (load_csk sys after ≡ ok csk) × (csk.as_bytes ≡ key)
unfolding rotate_csk generate_and_save_csk generate_csk load_paired_servers
rotate_csk-load sys key disk {csk} {after} removes accessible owned sized h =
    let cleared = (clear_paired_servers sys disk).1 in
    let fresh : ClientSymmetricKey = record { as_bytes = key } in
    let (no_servers, kept) = clear-none sys disk removes in
    elim (Result-cases (save_csk sys fresh cleared).0) [
      | inr (e, fails) ↦ absurd (ground arith)
      | inl (_, saved) ↦
          let is_after : (save_csk sys fresh cleared).1 ≡ after = ground arith in
          let is_csk : fresh ≡ csk = ground arith in
          let (loads, same) =
            save_csk-load sys fresh cleared accessible (rw kept owned) sized saved in
          (
            rw (← is_after, load_paired_servers, same, no_servers) refl,
            rw (← is_after, ← is_csk) loads,
            rw (← is_csk) refl,
          )
    ]
