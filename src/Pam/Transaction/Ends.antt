-- ===== src/Pam/Transaction/Ends.antt =====
-- client-pam/src/pam_logic.rs: a call of `authenticate` ends by its operation timeout.
use tapauth.Prelude.{
  ◌≡◌, ℕ, ◌+◌, ◌*◌, ◌≤◌, inl, inr, Option-cases, is_some, arith, Among, true, String,
}
use tapauth.Pam.Outcome.{PamCode}
use tapauth.Pam.Reuse.{Lock, start_authentication}
use tapauth.Pam.Waiting.{event_loops_end, run_gui_event_loop, run_sequential_event_loop}
use tapauth.Pam.Waiting
use tapauth.Pam.Terminal.{run_terminal_loop_ends, run_terminal_loop}
use tapauth.Pam.Terminal
use tapauth.Pam.Attempt.{Attempt, effective_timeout_secs, timeout_secs, deadline}
use tapauth.Pam.Transaction.{
  sequential_wait, threaded_wait, terminal_wait, wait, start, daemon_path, authenticate_inner,
  authenticate,
}

-- The wait is never longer than the operation timeout of the configuration.
pub timeout_secs-le : (a : Attempt) → timeout_secs a ≤ a.config.pam_operation_timeout_secs
unfolding timeout_secs effective_timeout_secs
timeout_secs-le a = ground arith

deadline-le :
    (a : Attempt) → deadline a ≤ a.waits_from + a.config.pam_operation_timeout_secs * 1000000000
unfolding deadline
deadline-le a = let le = timeout_secs-le a in omega arith

-- Both loops of an attempt are given a turn that starts at an instant or later.
pub record IsServedAt (a : Attempt) (instant : ℕ) : Type 0 where
  pub now : ℕ
  pub polled : Waiting.Polled
  pub there : Among (now, polled) a.turns
  pub late : instant ≤ now
  pub terminal_now : ℕ
  pub terminal_polled : Terminal.Polled
  pub terminal_there : Among (terminal_now, terminal_polled) a.terminal_turns
  pub terminal_late : instant ≤ terminal_now

abbrev IsServed : Attempt → Type 0
IsServed a = IsServedAt a (a.waits_from + a.config.pam_operation_timeout_secs * 1000000000)

sequential_wait-ends : (a : Attempt) → IsServed a → is_some (sequential_wait a) ≡ true
unfolding sequential_wait
sequential_wait-ends a s =
    let le = deadline-le a in
    let late = s.late in
    let ended = event_loops_end (deadline a) s.now s.polled a.turns s.there (omega arith) in
    ground arith

threaded_wait-ends : (a : Attempt) → IsServed a → is_some (threaded_wait a) ≡ true
unfolding threaded_wait
threaded_wait-ends a s =
    let le = deadline-le a in
    let late = s.late in
    let ended = event_loops_end (deadline a) s.now s.polled a.turns s.there (omega arith) in
    ground arith

terminal_wait-ends : (a : Attempt) → IsServed a → is_some (terminal_wait a) ≡ true
unfolding terminal_wait
terminal_wait-ends a s =
    let le = deadline-le a in
    let late = s.terminal_late in
    let ended =
      run_terminal_loop_ends (deadline a) s.terminal_now s.terminal_polled true a.terminal_turns
        s.terminal_there (omega arith) in
    ground arith

wait-ends : (a : Attempt) → IsServed a → is_some (wait a) ≡ true
unfolding wait
wait-ends a s =
    let s0 = sequential_wait-ends a s in
    let s1 = threaded_wait-ends a s in let s2 = terminal_wait-ends a s in ground arith

module _ (number : PamCode → ℕ) where
  start-ends :
      (a : Attempt) (username request_id : String)
      → IsServed a
      → is_some (start number a username request_id) ≡ true
  unfolding start start_authentication
  start-ends a username request_id s = let ended = wait-ends a s in ground arith

  daemon_path-ends :
      (lock : Lock) (a : Attempt) (username : String)
      → IsServed a
      → is_some (daemon_path number lock a username) ≡ true
  unfolding daemon_path
  daemon_path-ends lock a username s = elim (Option-cases a.request_id) [
    | inl missing ↦ ground arith
    | inr (request_id, random) ↦ let ended = start-ends a username request_id s in ground arith
  ]

  -- A call returns if both of its loops have a turn that begins at or after the instant which lies
  -- the configured operation timeout after the start of the wait, whatever came before.
  pub authenticate_ends :
      (lock : Lock) (a : Attempt)
      → IsServedAt a (a.waits_from + a.config.pam_operation_timeout_secs * 1000000000)
      → is_some (authenticate number lock a) ≡ true
  unfolding authenticate authenticate_inner
  authenticate_ends lock a s = elim (Option-cases a.user) [
    | inl unknown ↦ ground arith
    | inr (username, known) ↦ let ended = daemon_path-ends lock a username s in ground arith
  ]
