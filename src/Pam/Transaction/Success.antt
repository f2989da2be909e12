-- ===== src/Pam/Transaction/Success.antt =====
-- client-pam/src/pam_logic.rs: what has happened when the host is told of a success.
use tapauth.Prelude.{
  ◌≡◌, refl, ◌⊎◌, inl, inr, ℕ, ◌-◌, ◌<◌, true, ◌&&◌, none, some, String, Option-cases, Bool-cases,
  arith, string_eq, ◌==◌,
}
use tapauth.Pam.Host.{guard_display_manager_bypass}
use tapauth.Pam.Outcome.{PamCode, pam_success, pam_authinfo_unavail, pam_auth_err, pam_user_unknown}
use tapauth.Pam.Reuse.{
  LastConclusion, Lock, poisoned, held, cached_from, reusable_conclusion, start_authentication,
  verdict_reuse_window,
}
use tapauth.Pam.Attempt.{Attempt, service_item, mode_of, is_pre_collected, request_of}
use tapauth.Pam.Transaction.{
  Concluded, wait, look_up, start, static, daemon_path, authenticate_inner, authenticate,
}
use tapauth.Pam.Transaction.Answers.{ReadInTime, wait-success}

module _ (number : PamCode → ℕ) where
  -- The code is that of the recorded conclusion, which is about the same user and service and is
  -- younger than the window.
  pub record IsReplay (lock : Lock) (a : Attempt) (c : Concluded) : Type 0 where
    pub username : String
    pub service : String
    pub prev : LastConclusion
    pub user_known : a.user ≡ some username
    pub service_known : a.service ≡ some service
    pub recorded : lock ≡ held (some prev)
    pub same_user : prev.username ≡ username
    pub same_service : prev.service ≡ service
    pub young : a.looked_up_at - prev.concluded_at < verdict_reuse_window
    pub same_code : prev.code ≡ c.code

  -- A request for the user was sent, and the daemon's success was read in time.
  pub record IsGrant (a : Attempt) (c : Concluded) : Type 0 where
    pub username : String
    pub request_id : String
    pub user_known : a.user ≡ some username
    pub connected : a.connected ≡ true
    pub sent : a.sent ≡ true
    pub request : c.request ≡ some (request_of a username request_id)
    pub read : ReadInTime a 0

  look_up-IsReplay :
      (lock : Lock) (a : Attempt) (username : String) {c : Concluded} {code age : ℕ}
      → a.user ≡ some username
      → look_up lock a username ≡ some (code, age)
      → code ≡ c.code
      → IsReplay lock a c
  unfolding look_up cached_from reusable_conclusion
  look_up-IsReplay poisoned a username {c} known found same = elim (Option-cases a.service) [
    | inl unknown ↦ absurd (ground arith)
    | inr (service, is) ↦ absurd (ground arith)
  ]
  look_up-IsReplay (held none) a username {c} known found same = elim (Option-cases a.service) [
    | inl unknown ↦ absurd (ground arith)
    | inr (service, is) ↦ absurd (ground arith)
  ]
  look_up-IsReplay (held (some prev)) a username {c} known found same =
      elim (Option-cases a.service) [
        | inl unknown ↦ absurd (ground arith)
        | inr (service, is) ↦
            let user : (prev.username == username) ≡ true = ground arith in
            let serv : (prev.service == service) ≡ true = ground arith in
            record {
              username = username;
              service = service;
              prev = prev;
              user_known = known;
              service_known = is;
              recorded = refl;
              same_user = (string_eq.beq_iff prev.username username).0 user;
              same_service = (string_eq.beq_iff prev.service service).0 serv;
              young = ground arith;
              same_code = ground arith;
            }
      ]

  start-success :
      (a : Attempt) (username request_id : String) {c : Concluded}
      → ((code : PamCode) → number code ≡ number pam_success → code ≡ pam_success)
      → a.user ≡ some username
      → start number a username request_id ≡ some c
      → c.code ≡ number pam_success
      → IsGrant a c
  unfolding start start_authentication
  start-success a username request_id {c} distinct known started granted =
      elim (Bool-cases (a.connected && a.sent)) [
        | inr failed ↦
            let same = distinct pam_authinfo_unavail (ground arith) in absurd (ground arith)
        | inl went ↦ elim (Option-cases (wait a)) [
          | inl waits ↦ absurd (ground arith)
          | inr (w, waited) ↦
              let code : number w.code ≡ number pam_success = ground arith in
              record {
                username = username;
                request_id = request_id;
                user_known = known;
                connected = ground arith;
                sent = ground arith;
                request = ground arith;
                read = wait-success a {w = w} waited (distinct w.code code);
              }
        ]
      ]

  daemon_path-success :
      (lock : Lock) (a : Attempt) (username : String) {c : Concluded}
      → ((code : PamCode) → number code ≡ number pam_success → code ≡ pam_success)
      → a.user ≡ some username
      → daemon_path number lock a username ≡ some c
      → c.code ≡ number pam_success
      → IsReplay lock a c ⊎ IsGrant a c
  unfolding daemon_path static
  daemon_path-success lock a username {c} distinct known ended granted =
      elim (Option-cases (look_up lock a username)) [
        | inr ((code, age), found) ↦ inl (
            look_up-IsReplay lock a username {c = c} {code = code} {age = age} known found
              (ground arith))
        | inl missing ↦ elim (Option-cases a.request_id) [
          | inl no_bytes ↦ let same = distinct pam_auth_err (ground arith) in absurd (ground arith)
          | inr (request_id, random) ↦
              inr
                (start-success a username request_id {c = c} distinct known (ground arith) granted)
        ]
      ]

  -- Where no other code has the number of `PAM_SUCCESS`, a call that tells the host of a success
  -- replays a success that was recorded for the same user and service less than the window ago,
  -- or it has sent a request for the user and has read the daemon's success in a turn that started
  -- before the deadline.
  pub authenticate-success :
      (lock : Lock) (a : Attempt) {c : Concluded} {next : Lock}
      → ((code : PamCode) → number code ≡ number pam_success → code ≡ pam_success)
      → authenticate number lock a ≡ some (c, next)
      → c.code ≡ number pam_success
      → IsReplay lock a c ⊎ IsGrant a c
  unfolding authenticate authenticate_inner static
  authenticate-success lock a {c} distinct ended granted =
      elim (Bool-cases (guard_display_manager_bypass (service_item a) a.variable_is_set)) [
        | inl bypassed ↦
            let same = distinct pam_authinfo_unavail (ground arith) in absurd (ground arith)
        | inr passed ↦ elim (Option-cases a.user) [
          | inl unknown ↦
              let same = distinct pam_user_unknown (ground arith) in absurd (ground arith)
          | inr (username, known) ↦ elim (Bool-cases a.has_conversation) [
            | inr silent ↦ let same = distinct pam_auth_err (ground arith) in absurd (ground arith)
            | inl talks ↦ elim (Bool-cases (is_pre_collected (mode_of a))) [
              | inl collected ↦
                  let same = distinct pam_authinfo_unavail (ground arith) in absurd (ground arith)
              | inr waits ↦
                  daemon_path-success lock a username {c = c} distinct known (ground arith) granted
            ]
          ]
        ]
      ]
