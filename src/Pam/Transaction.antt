-- ===== src/Pam/Transaction.antt =====
-- client-pam/src/pam_logic.rs: a whole call of `authenticate`, from the host's guard to the code
-- it is given. What libpam, the system and the daemon answer is in the `Attempt`; the text messages
-- are left out, and so is joining the worker thread. Instants are in nanoseconds.
use tapauth.Prelude.{
  ◌≡◌, ℕ, ◌+◌, ◌*◌, min, String, Bool, true, false, not, ◌&&◌, Option, none, some, List, [], ◌∷◌,
  if◌then◌else◌, ltb, codes, Bytes, Result, ok, err,
}
use tapauth.Pam.Host.{
  ConversationMode, threaded, pre_collected, sequential, guard_display_manager_bypass,
}
use tapauth.Pam.Outcome.{
  PamCode, pam_auth_err, pam_authinfo_unavail, pam_user_unknown, map_pam_outcome,
}
use tapauth.Pam.Reuse.{Verdict, Lock, cached_from, record_verdict, start_authentication}
use tapauth.Pam.Waiting.{
  ExitReason, timeout, ipc_response_received, ipc_error, password_entered, password_failed,
  Response, run_gui_event_loop, run_sequential_event_loop,
}
use tapauth.Ipc.{PamAuthenticateRequest}
use tapauth.Pam.Waiting
use tapauth.Pam.Terminal.{answered, complained, skipped, timed_out, run_terminal_loop}
use tapauth.Pam.Terminal
use tapauth.Pam.Attempt.{
  Attempt, service_item, mode_of, is_pre_collected, has_terminal, deadline, request_of,
}
mod Answers
pub mod Success
pub mod Ends
pub mod Refines

-- How the wait ended: the code, and the reasons of the cancels that were tried.
pub record Wait : Type 0 where
  pub code : PamCode
  pub cancels : List String

-- How the call ended; the code is libpam's number.
pub record Concluded : Type 0 where
  pub code : ℕ
  pub verdict : Option Verdict
  pub request : Option PamAuthenticateRequest
  pub cancels : List String

ends : PamCode → List String → Wait
ends code cancels = record { code = code; cancels = cancels }

after_sequential : ExitReason → Option Response → Wait
after_sequential ipc_response_received (some resp) = ends (map_pam_outcome resp) []
after_sequential ipc_response_received none = ends pam_authinfo_unavail []
after_sequential timeout resp = ends pam_authinfo_unavail []
after_sequential ipc_error resp = ends pam_authinfo_unavail ("gui-ipc-error" ∷ [])
after_sequential password_entered resp = ends pam_authinfo_unavail ("gui-ipc-error" ∷ [])
after_sequential password_failed resp = ends pam_authinfo_unavail ("gui-ipc-error" ∷ [])

unfoldable pub sequential_wait : Attempt → Option Wait
unfolding after_sequential ends
sequential_wait a = elim (run_sequential_event_loop (deadline a) a.turns) [
  | none ↦ none
  | some (reason, resp) ↦ some (after_sequential reason resp)
]

-- The reasons with which the graphical loop sends its cancel.
cancels_of : ExitReason → List String
cancels_of password_entered = "gui-password-skip" ∷ []
cancels_of password_failed = "gui-password-failed" ∷ []
cancels_of timeout = []
cancels_of ipc_response_received = []
cancels_of ipc_error = []

after_gui : Waiting.Exit → Wait
after_gui e =
    ends (elim e.auth_response [ some resp ↦ map_pam_outcome resp | none ↦ pam_authinfo_unavail ])
      (cancels_of e.reason)

unfoldable pub threaded_wait : Attempt → Option Wait
unfolding after_gui cancels_of ends
threaded_wait a =
    if not a.pipe_made
    then some (ends pam_auth_err ("gui-pipe2-fail" ∷ []))
    else if not a.thread_spawned
    then some (ends pam_auth_err ("gui-thread-spawn-fail" ∷ []))
    else elim (run_gui_event_loop (deadline a) a.turns) [
      | none ↦ none
      | some e ↦ some (after_gui e)
    ]

after_terminal : Terminal.Exit → Wait
after_terminal (answered resp) = ends (map_pam_outcome resp) []
after_terminal (complained complaint) = ends pam_authinfo_unavail []
after_terminal skipped = ends pam_authinfo_unavail ("tty-skip" ∷ [])
after_terminal timed_out = ends pam_authinfo_unavail []

unfoldable pub terminal_wait : Attempt → Option Wait
unfolding after_terminal ends
terminal_wait a = elim (run_terminal_loop (deadline a) true a.terminal_turns) [
  | none ↦ none
  | some e ↦ some (after_terminal e)
]

-- `none`: the turns have run out and the call still waits.
unfoldable pub wait : Attempt → Option Wait
unfolding sequential_wait threaded_wait terminal_wait
wait a = if has_terminal a then terminal_wait a else elim (mode_of a) [
  | sequential ↦ sequential_wait a
  | threaded ↦ threaded_wait a
  | pre_collected ↦ some (ends pam_authinfo_unavail [])
]

unfoldable pub look_up : Lock → Attempt → String → Option (ℕ × ℕ)
look_up lock a username = elim a.service [
  | none ↦ none
  | some service ↦ cached_from lock username service a.looked_up_at
]

-- `number` is libpam's number of a code.
module _ (number : PamCode → ℕ) where
  -- A return that arms no verdict and sends nothing.
  unfoldable pub static : PamCode → Concluded
  static code = record { code = number code; verdict = none; request = none; cancels = [] }

  replayed : Attempt → String → ℕ → Concluded
  replayed a username code = record {
    code = code;
    verdict = some (record { username = username; service = a.service; from_cache = true });
    request = none;
    cancels = [];
  }

  concluded : Wait → PamAuthenticateRequest → Option Verdict → Concluded
  concluded w request verdict = record {
    code = number w.code;
    verdict = verdict;
    request = some request;
    cancels = w.cancels;
  }

  unstarted : Option Verdict → Concluded
  unstarted verdict = record {
    code = number pam_authinfo_unavail;
    verdict = verdict;
    request = none;
    cancels = [];
  }

  unfoldable pub start : Attempt → String → String → Option Concluded
  unfolding unstarted concluded
  start a username request_id =
      let (started, verdict) = start_authentication a.connected a.sent username a.service none in
      elim started [
        | err _ ↦ some (unstarted verdict)
        | ok _ ↦ elim (wait a) [
          | none ↦ none
          | some w ↦ some (concluded w (request_of a username request_id) verdict)
        ]
      ]

  -- From the lookup of a duplicate on.
  unfoldable pub daemon_path : Lock → Attempt → String → Option Concluded
  unfolding replayed static
  daemon_path lock a username = elim (look_up lock a username) [
    | some (code, age) ↦ some (replayed a username code)
    | none ↦ elim a.request_id [
      | none ↦ some (static pam_auth_err)
      | some request_id ↦ start a username request_id
    ]
  ]

  unfoldable pub authenticate_inner : Lock → Attempt → Option Concluded
  unfolding static
  authenticate_inner lock a =
      if guard_display_manager_bypass (service_item a) a.variable_is_set
      then some (static pam_authinfo_unavail)
      else elim a.user [
        | none ↦ some (static pam_user_unknown)
        | some username ↦
            if not a.has_conversation
            then some (static pam_auth_err)
            else if is_pre_collected (mode_of a)
            then some (static pam_authinfo_unavail)
            else daemon_path lock a username
      ]

  unfoldable pub authenticate : Lock → Attempt → Option (Concluded × Lock)
  unfolding authenticate_inner
  authenticate lock a = elim (authenticate_inner lock a) [
    | none ↦ none
    | some c ↦ some (c, record_verdict c.verdict c.code a.returned_at lock)
  ]
