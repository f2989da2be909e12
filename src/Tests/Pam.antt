-- ===== src/Tests/Pam.antt =====
-- Runs of the PAM module.
use tapauth.Prelude.{
  none, ◌⊎◌, Bytes, codes, ◌≡◌, ◌≢◌, ◌↔◌, refl, arith, ℕ, ◌+◌, true, false, some, List, [], ◌∷◌, ok,
  first, later, is_some,
}
use tapauth.Pam.Host.{
  threaded, conversation_mode, is_gdm_reauth, is_dm_service, guard_display_manager_bypass,
  guard-conversation_mode,
}
use tapauth.Pam.Terminal.{eof, socket_turn, after_key, tty_turn, terminal_turn, run_terminal_loop}
use tapauth.Pam.Terminal
use tapauth.Pam.Attempt.{
  Attempt, mode_of, has_terminal, effective_timeout_secs, timeout_secs, deadline,
}
use tapauth.Pam.Transaction.{Concluded, terminal_wait, wait, look_up, static, daemon_path}
use tapauth.Pam.Transaction
use tapauth.Pam.Transaction.Success.{IsReplay, IsGrant, authenticate-success}
use tapauth.Pam.Transaction.Ends.{authenticate_ends}
use tapauth.Pam.Reuse
use tapauth.Pam.Outcome.{
  PamCode, pam_perm_denied, pam_auth_err, pam_authinfo_unavail, pam_user_unknown, outcome_from_raw,
  pam_success, pam_ignore, map_pam_outcome, map_pam_outcome-success,
}
use tapauth.Pam.Reuse.{
  Lock, record_verdict, start_authentication, LastConclusion, held, Call, authenticate,
  authenticate_all, repeated, record_conclusion, authenticate_all-duplicates, authenticate-fresh,
}
use tapauth.Pam.Waiting.{
  Ready, ready, idle, PollTurn, run_gui_event_loop, run_sequential_event_loop, seen,
  run_gui_event_loop-eq-sequential,
}

abbrev unknown_outcome : ℕ
unknown_outcome = 99

map_pam_outcome-success_example :
    ((map_pam_outcome unknown_outcome ≡ pam_success) ↔ (unknown_outcome ≡ 0))
    × (map_pam_outcome unknown_outcome ≢ pam_ignore)
map_pam_outcome-success_example = map_pam_outcome-success unknown_outcome

abbrev denied_at_1000 : LastConclusion
denied_at_1000 = record { concluded_at = 1000; username = "alice"; service = "kde"; code = 6 }

abbrev call_at : ℕ → Call
call_at t = record {
  username = "alice";
  service = some "kde";
  looked_up_at = t;
  connected = true;
  sent = true;
  code = 0;
  returned_at = t + 5;
}

abbrev duplicates : List Call
duplicates = call_at 2000 ∷ call_at 500000999 ∷ []

authenticate_all-duplicates_example :
    authenticate_all (held (some denied_at_1000)) duplicates
    ≡ (repeated 6 duplicates, held (some denied_at_1000))
authenticate_all-duplicates_example = authenticate_all-duplicates denied_at_1000 duplicates refl

abbrev answered : Ready
answered = record {
  entered = false;
  readable = true;
  hung_up = true;
  read = ok (some 0);
  pipe_readable = false;
}

abbrev turns : List PollTurn
turns = (0, idle) ∷ (5, ready answered) ∷ (30, idle) ∷ []

run_gui_event_loop-eq-sequential_example :
    seen (run_gui_event_loop 30 turns) ≡ run_sequential_event_loop 30 turns
run_gui_event_loop-eq-sequential_example = run_gui_event_loop-eq-sequential 30 turns refl

abbrev gdm : Bytes
gdm = codes "GDM-password"

guard-conversation_mode_example :
    ((guard_display_manager_bypass (some gdm) true ≡ false) ↔ (true ≡ true))
    × ((conversation_mode gdm (some "gdm-session-wor") (is_gdm_reauth gdm true) ≡ threaded)
        ↔ (true ≡ true))
guard-conversation_mode_example = guard-conversation_mode gdm "gdm-session-wor" true refl refl

-- Numbers of the codes as Linux-PAM has them.
abbrev linux_pam : PamCode → ℕ
linux_pam pam_success = 0
linux_pam pam_perm_denied = 6
linux_pam pam_auth_err = 7
linux_pam pam_authinfo_unavail = 9
linux_pam pam_user_unknown = 10
linux_pam pam_ignore = 25

linux_pam-distinct : (code : PamCode) → linux_pam code ≡ linux_pam pam_success → code ≡ pam_success
linux_pam-distinct pam_success h = refl
linux_pam-distinct pam_perm_denied h = ground arith
linux_pam-distinct pam_auth_err h = ground arith
linux_pam-distinct pam_authinfo_unavail h = ground arith
linux_pam-distinct pam_user_unknown h = ground arith
linux_pam-distinct pam_ignore h = ground arith

abbrev tapped : Terminal.Ready
tapped = record {
  readable = true;
  hung_up = false;
  read = ok (some 0);
  tty_readable = false;
  tty_hung_up = true;
  key = eof;
}

abbrev at_end : ℕ
at_end = 120000000001

-- A call of `sudo` on a terminal: a key, a turn that was interrupted, and the daemon's success.
abbrev sudo : Attempt
sudo = record {
  config = record { pam_operation_timeout_secs = 120; pam_gui_timeout_secs = 30 };
  service = some "sudo";
  user = some "alice";
  process = some "sudo";
  variable_is_set = false;
  has_conversation = true;
  tty_opens = true;
  looked_up_at = 0;
  request_id = some "00ff";
  connected = true;
  sent = true;
  pipe_made = true;
  thread_spawned = true;
  waits_from = 1;
  turns = (at_end, idle) ∷ [];
  terminal_turns =
      (2, Terminal.idle)
      ∷ (3, Terminal.failed)
      ∷ (5, Terminal.ready tapped)
      ∷ (at_end, Terminal.idle)
      ∷ [];
  returned_at = 9;
}

abbrev no_lock : Lock
no_lock = held none

sudo_returns :
    (c : Concluded) × (next : Lock) × (Transaction.authenticate linux_pam no_lock sudo
      ≡ some (c, next))
    × (c.code ≡ 0)
unfolding Transaction.authenticate Transaction.authenticate_inner daemon_path Transaction.start
    static start_authentication look_up wait terminal_wait run_terminal_loop terminal_turn
    socket_turn tty_turn after_key has_terminal mode_of conversation_mode is_gdm_reauth
    is_dm_service guard_display_manager_bypass deadline timeout_secs effective_timeout_secs
    map_pam_outcome outcome_from_raw record_verdict Reuse.record_conclusion Reuse.cached_from
sudo_returns = (_, _, refl, refl)

authenticate-success_example :
    IsReplay linux_pam no_lock sudo sudo_returns.0 ⊎ IsGrant linux_pam sudo sudo_returns.0
authenticate-success_example =
    authenticate-success linux_pam no_lock sudo {c = sudo_returns.0} {next = sudo_returns.1}
      linux_pam-distinct sudo_returns.2 sudo_returns.3

authenticate_ends_example : is_some (Transaction.authenticate linux_pam no_lock sudo) ≡ true
authenticate_ends_example = authenticate_ends linux_pam no_lock sudo (record {
  now = at_end;
  polled = idle;
  there = first refl;
  late = omega arith;
  terminal_now = at_end;
  terminal_polled = Terminal.idle;
  terminal_there = later (later (later (first refl)));
  terminal_late = omega arith;
})
