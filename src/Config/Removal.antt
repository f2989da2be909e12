-- ===== src/Config/Removal.antt =====
-- Who may authenticate after a user was removed from a pairing of shared/src/config.rs.
use tapauth.Prelude.{
  ◌≡◌, ◌↔◌, refl, sym, ◌∙◌, ap, String, Bool, true, false, not, ◌&&◌, Option, none, some, List, [],
  ◌∷◌, ok, ◌==◌, string_eq, lookup, retain, any, is_empty, is_some, arith, inl, inr, Bool-cases,
}
use tapauth.Config.Servers.{PairedServer, is_user_allowed}
use tapauth.Config.Manager.{
  Servers, Disk, System, load_paired_servers, without_user, remove_user_from_pairing,
}
use tapauth.Config.Pairings.{remaining, remove_user_from_pairing-entries}

-- The users who are left are the others who were allowed.
any-retain :
    (username u : String) (users : List String)
    → any (λ v. v == u) (retain (λ v. not (v == username)) users)
      ≡ (any (λ v. v == u) users && not (u == username))
any-retain username u [] = refl
any-retain username u (v ∷ users) =
    let rest = any-retain username u users in
    elim (Bool-cases (v == u)) [
      | inl same ↦
          let is : v ≡ u = (string_eq.beq_iff v u).0 same in
          let alike : (v == username) ≡ (u == username) = ap (λ x. x == username) is in ground arith
      | inr other ↦ ground arith
    ]

-- A server that is there after a user was removed from it.
pub record IsReduced (username : String) (server server' : PairedServer) : Type 0 where
  pub same_name : server'.name ≡ server.name
  pub same_key : server'.public_key ≡ server.public_key
  pub same_time : server'.paired_at ≡ server.paired_at
  pub allows :
      (u : String) → is_user_allowed server' u ≡ (is_user_allowed server u && not (u == username))

without_user-IsReduced :
    (username : String) (server : PairedServer)
    → IsReduced username server (without_user username server)
unfolding is_user_allowed
without_user-IsReduced username server = record {
  same_name = refl;
  same_key = refl;
  same_time = refl;
  allows = λ u. any-retain username u server.allowed_users;
}

-- No user is left exactly when nobody else was allowed.
is_empty-retain :
    (username : String) (users : List String)
    → is_empty (retain (λ v. not (v == username)) users) ≡ true
    → (u : String) → any (λ v. v == u) users ≡ true
    → u ≡ username
is_empty-retain username [] nobody u allowed = absurd (ground arith)
is_empty-retain username (v ∷ users) nobody u allowed = elim (Bool-cases (v == username)) [
  | inr other ↦ absurd (ground arith)
  | inl same ↦
      let is : v ≡ username = (string_eq.beq_iff v username).0 same in
      elim (Bool-cases (v == u)) [
        | inl hit ↦ sym ((string_eq.beq_iff v u).0 hit) ∙ is
        | inr miss ↦ is_empty-retain username users (ground arith) u (ground arith)
      ]
]

retain-is_empty :
    (username : String) (users : List String)
    → ((u : String) → any (λ v. v == u) users ≡ true → u ≡ username)
    → is_empty (retain (λ v. not (v == username)) users) ≡ true
retain-is_empty username [] alone = refl
retain-is_empty username (v ∷ users) alone =
    let itself : (v == v) ≡ true = (string_eq.beq_iff v v).1 refl in
    let is : v ≡ username = alone v (ground arith) in
    let same : (v == username) ≡ true = (string_eq.beq_iff v username).1 is in
    rw same (retain-is_empty username users (λ u allowed. alone u (ground arith)))

-- After a user was removed from a pairing: what is loaded then, and what was answered.
pub record IsRemoved (sys : System) (id username : String) (servers : Servers) (after : Disk)
    (gone : Bool) : Type 0 where
  pub servers' : Servers
  pub loads : load_paired_servers sys after ≡ ok servers'
  pub other_servers : (j : String) → (id == j) ≡ false → lookup j servers' ≡ lookup j servers
  pub reduced :
      (server' : PairedServer)
      → lookup id servers' ≡ some server'
      → (server : PairedServer) × (lookup id servers ≡ some server)
        × IsReduced username server server'
  pub answered : gone ≡ not (is_some (lookup id servers'))
  pub alone :
      (server : PairedServer)
      → lookup id servers ≡ some server
      → (gone ≡ true) ↔ ((u : String) → is_user_allowed server u ≡ true → u ≡ username)

remaining-some :
    (username : String) (known : Option PairedServer) {server' : PairedServer}
    → remaining username known ≡ some server'
    → (server : PairedServer) × (known ≡ some server) × IsReduced username server server'
remaining-some username none h = cc
remaining-some username (some server) {server'} h =
    let same : without_user username server ≡ server' = ground arith in
    (server, refl, rw (← same) (without_user-IsReduced username server))

remaining-empty :
    (username : String) (server : PairedServer)
    → not (is_some (remaining username (some server)))
      ≡ is_empty (without_user username server).allowed_users
remaining-empty username server =
    elim (Bool-cases (is_empty (without_user username server).allowed_users)) [
      | inl nobody ↦ rw nobody refl
      | inr somebody ↦ rw somebody refl
    ]

-- After a user was removed from a pairing, that server allows every other user as before and the
-- removed one no more, and its name, key and time of pairing are as before; all other servers are
-- as before; and the pairing is gone, as the answer tells, exactly if it allowed nobody else.
pub remove_user_from_pairing-IsRemoved :
    (sys : System) (id username : String) (disk : Disk) {servers : Servers} {gone : Bool}
    {after : Disk}
    → load_paired_servers sys disk ≡ ok servers
    → remove_user_from_pairing sys id username disk ≡ (ok gone, after)
    → IsRemoved sys id username servers after gone
unfolding is_user_allowed
remove_user_from_pairing-IsRemoved sys id username disk {servers} {gone} {after} loaded h =
    let (servers', loads, entries, answered) =
      remove_user_from_pairing-entries sys id username disk {servers = servers} {gone = gone}
        {after = after} loaded h in
    let itself : (id == id) ≡ true = (string_eq.beq_iff id id).1 refl in
    let mine : lookup id servers' ≡ remaining username (lookup id servers) =
      entries id ∙ rw itself refl in
    record {
      servers' = servers';
      loads = loads;
      other_servers = λ j differs. entries j ∙ rw differs refl;
      reduced = λ server' there. remaining-some username (lookup id servers) (sym mine ∙ there);
      answered = answered;
      alone = λ server there.
          let left : lookup id servers' ≡ remaining username (some server) = mine ∙ rw there refl in
          let empty : gone ≡ is_empty (without_user username server).allowed_users =
            answered ∙ (ap (λ o. not (is_some o)) left ∙ remaining-empty username server) in
          (
            λ is_gone. is_empty-retain username server.allowed_users (sym empty ∙ is_gone),
            λ only. empty ∙ retain-is_empty username server.allowed_users only,
          );
    }
