-- ===== src/Pam/Transaction/Refines.antt =====
-- client-pam/src/pam_logic.rs: a call that reaches the daemon path is a call of the model of Reuse.
use tapauth.Prelude.{◌≡◌, ℕ, true, false, some, String, arith}
use tapauth.Pam.Host.{guard_display_manager_bypass}
use tapauth.Pam.Outcome.{PamCode}
use tapauth.Pam.Reuse.{Lock, Call, cached_from, record_verdict, start_authentication}
use tapauth.Pam.Reuse
use tapauth.Pam.Attempt.{Attempt, service_item, mode_of, is_pre_collected}
use tapauth.Pam.Transaction.{
  Concluded, look_up, start, daemon_path, authenticate_inner, authenticate,
}

-- The call of Reuse that an attempt of a user with an outcome is.
abbrev pub call_of : Attempt → String → ℕ → Call
call_of a username code = record {
  username = username;
  service = a.service;
  looked_up_at = a.looked_up_at;
  connected = a.connected;
  sent = a.sent;
  code = code;
  returned_at = a.returned_at;
}

-- What takes a call past the returns that never look at the recorded verdict.
pub record ReachesDaemonPath (a : Attempt) (username request_id : String) : Type 0 where
  pub passes : guard_display_manager_bypass (service_item a) a.variable_is_set ≡ false
  pub known : a.user ≡ some username
  pub talks : a.has_conversation ≡ true
  pub waits : is_pre_collected (mode_of a) ≡ false
  pub random : a.request_id ≡ some request_id

module _ (number : PamCode → ℕ) where
  -- A call that passes the guards and ends returns the code, and leaves the record, that the
  -- abstract call does which looks up the same user and service, connects and sends as it does
  -- and concludes with its code.
  pub authenticate-Reuse :
      (lock : Lock) (a : Attempt) (username request_id : String) {c : Concluded} {next : Lock}
      → ReachesDaemonPath a username request_id
      → authenticate number lock a ≡ some (c, next)
      → Reuse.authenticate lock (call_of a username c.code) ≡ (c.code, next)
  unfolding authenticate authenticate_inner daemon_path start start_authentication look_up
      Reuse.authenticate Reuse.authenticate_inner record_verdict cached_from
  authenticate-Reuse lock a username request_id {c} {next} r ended =
      let passes = r.passes in
      let known = r.known in
      let talks = r.talks in let waits = r.waits in let random = r.random in ground arith
