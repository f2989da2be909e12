-- ===== src/Config/Files.antt =====
-- shared/src/config.rs: the files that only tapauthd and root may own, how they are written and
-- what is checked before they are read. Release builds: `TAPAUTH_STATE_DIR` is not looked at.
use tapauth.Prelude.{
  ◌≡◌, ℕ, Bool, true, false, not, ◌&&◌, ◌||◌, Option, none, some, Result, ok, err, if◌then◌else◌,
  ◌==◌, nat_eq, arith, Bool-cases, inl, inr, refl,
}

pub data ConfigError : Type 0 where
  io json crypto invalid_config insufficient_permissions tpm : ConfigError

-- A file: its owner, the permission bits, and what it holds.
pub record File (A : Type 0) : Type 0 where
  pub owner_uid : ℕ
  pub mode : ℕ
  pub content : A

-- Who the process is. `tapauthd_uid` is `none` if there is no such user.
pub record Identity : Type 0 where
  pub euid : ℕ
  pub tapauthd_uid : Option ℕ

-- Whether `fs::metadata` and `fs::read` of a file succeed for the process.
pub record Access : Type 0 where
  pub stats : Bool
  pub reads : Bool

abbrev pub is_accessible : Access → Bool
is_accessible access = access.stats && access.reads

abbrev is_tapauthd : Identity → ℕ → Bool
is_tapauthd who uid = elim who.tapauthd_uid [ none ↦ false | some u ↦ uid == u ]

abbrev is_trusted : Identity → ℕ → Bool
is_trusted who uid = uid == 0 || is_tapauthd who uid

-- There is no file, or root or tapauthd owns it.
abbrev pub is_owned : {A : Type 0} → Identity → Option (File A) → Bool
is_owned who none = true
is_owned who (some file) = is_trusted who file.owner_uid

unfoldable pub read_secure_file : {A : Type 0} → Identity → Access → File A → Result ConfigError A
read_secure_file who access file =
    if not access.stats
    then err io
    else if not (is_trusted who file.owner_uid)
    then err insufficient_permissions
    else if not (file.mode == 384) && not (file.mode == 256)  -- 0o600, 0o400
    then err insufficient_permissions
    else if not access.reads
    then err io
    else ok file.content

abbrev is_privileged : Identity → Bool
is_privileged who = is_tapauthd who who.euid || who.euid == 0

-- The owner of a file after it was written: a new file is the writer's, and root gives it to the
-- user tapauthd where there is one.
kept_owner : {A : Type 0} → Identity → Option (File A) → ℕ
kept_owner who none = who.euid
kept_owner who (some file) = file.owner_uid

owner_after : {A : Type 0} → Identity → Option (File A) → ℕ
unfolding kept_owner
owner_after who old =
    if is_tapauthd who who.euid
    then kept_owner who old
    else elim who.tapauthd_uid [ none ↦ kept_owner who old | some uid ↦ uid ]

-- `makes`: the calls of the file system succeed.
unfoldable pub ensure_secure_directory : Identity → Bool → Result ConfigError (Unit {0})
ensure_secure_directory who makes =
    if not (is_privileged who)
    then err insufficient_permissions
    else if not makes
    then err io
    else ok tt

-- `writes`: the calls of the file system succeed; if not, the old file is kept here.
unfoldable pub write_secure_file :
    {A : Type 0}
    → Identity
    → Bool
    → A
    → Option (File A)
    → Result ConfigError (Unit {0}) × Option (File A)
unfolding owner_after
write_secure_file who writes content old =
    if not (is_privileged who)
    then (err insufficient_permissions, old)
    else if not writes
    then (err io, old)
    else (ok tt, some (record { owner_uid = owner_after who old; mode = 384; content = content }))

owner_after-trusted :
    {A : Type 0} (who : Identity) (old : Option (File A))
    → is_owned who old ≡ true
    → is_privileged who ≡ true
    → is_trusted who (owner_after who old) ≡ true
unfolding owner_after kept_owner
owner_after-trusted who none owned privileged = ground arith
owner_after-trusted who (some file) owned privileged = ground arith

-- What a file that was written with success holds is read back by any process of the same host
-- that can stat and read the file, if an old file was root's or tapauthd's.
pub read-write_secure_file :
    {A : Type 0} (who reader : Identity) (writes : Bool) (access : Access) (content : A)
    (old : Option (File A))
    → reader.tapauthd_uid ≡ who.tapauthd_uid
    → is_accessible access ≡ true
    → is_owned who old ≡ true
    → (write_secure_file who writes content old).0 ≡ ok tt
    → (file : File A) × ((write_secure_file who writes content old).1 ≡ some file)
      × (read_secure_file reader access file ≡ ok content)
unfolding write_secure_file owner_after kept_owner read_secure_file
read-write_secure_file who reader writes access content old same_host accessible owned h =
    elim (Bool-cases (is_privileged who && writes)) [
      | inr refused ↦ absurd (ground arith)
      | inl accepted ↦
          let trusted : is_trusted reader (owner_after who old) ≡ true =
            rw same_host (owner_after-trusted who old owned (ground arith)) in
          let stats : access.stats ≡ true = ground arith in
          let reads : access.reads ≡ true = ground arith in
          (
            record { owner_uid = owner_after who old; mode = 384; content = content },
            ground arith,
            rw (stats, trusted, reads) refl,
          )
    ]
