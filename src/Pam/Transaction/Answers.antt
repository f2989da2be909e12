-- ===== src/Pam/Transaction/Answers.antt =====
-- client-pam/src/pam_logic.rs: what was read when a wait ends with a success.
use tapauth.Prelude.{
  ◌≡◌, refl, ◌⊎◌, inl, inr, ◌∙◌, ap, ℕ, ◌<◌, true, Option, none, some, Option-cases, Bool-cases, ok,
  Among, arith, string_eq,
}
use tapauth.Pam.Host.{ConversationMode, threaded, pre_collected, sequential}
use tapauth.Pam.Outcome.{pam_success, map_pam_outcome, map_pam_outcome-success}
use tapauth.Pam.Waiting.{
  Response, ExitReason, timeout, ipc_response_received, ipc_error, password_entered,
  password_failed, run_gui_event_loop, run_sequential_event_loop, run_gui_event_loop-response,
}
use tapauth.Pam.Waiting.Sequential.{run_sequential_event_loop-response}
use tapauth.Pam.Waiting
use tapauth.Pam.Terminal.{
  Exit, answered, complained, skipped, timed_out, run_terminal_loop, run_terminal_loop-answered,
}
use tapauth.Pam.Terminal
use tapauth.Pam.Attempt.{Attempt, mode_of, has_terminal, deadline}
use tapauth.Pam.Transaction.{
  Wait, after_sequential, after_gui, after_terminal, ends, sequential_wait, threaded_wait,
  terminal_wait, wait,
}

-- The response with an outcome was read from the daemon in a turn of one of the loops that
-- started before the deadline.
pub data ReadInTime (a : Attempt) (resp : Response) : Type 0 where
  graphical :
      (now : ℕ) (r : Waiting.Ready)
      → Among (now, Waiting.ready r) a.turns
      → now < deadline a
      → r.read ≡ ok (some resp)
      → ReadInTime a resp
  at_terminal :
      (now : ℕ) (r : Terminal.Ready)
      → Among (now, Terminal.ready r) a.terminal_turns
      → now < deadline a
      → r.read ≡ ok (some resp)
      → ReadInTime a resp

success-raw : (resp : Response) → map_pam_outcome resp ≡ pam_success → resp ≡ 0
success-raw resp h = (map_pam_outcome-success resp).0.0 h

after_sequential-success :
    (reason : ExitReason) (resp : Option Response)
    → (after_sequential reason resp).code ≡ pam_success
    → resp ≡ some 0
unfolding after_sequential ends
after_sequential-success ipc_response_received (some resp) h = ap some (success-raw resp h)
after_sequential-success ipc_response_received none h = cc
after_sequential-success timeout resp h = cc
after_sequential-success ipc_error resp h = cc
after_sequential-success password_entered resp h = cc
after_sequential-success password_failed resp h = cc

sequential_wait-success :
    (a : Attempt) {w : Wait} → sequential_wait a ≡ some w → w.code ≡ pam_success → ReadInTime a 0
unfolding sequential_wait
sequential_wait-success a {w} h granted =
    elim (Option-cases (run_sequential_event_loop (deadline a) a.turns)) [
      | inl waits ↦ absurd (ground arith)
      | inr ((reason, resp), ended) ↦
          let same : after_sequential reason resp ≡ w = ground arith in
          let zero : resp ≡ some 0 =
            after_sequential-success reason resp (ap (λ x. x.code) same ∙ granted) in
          let (now, r, there, before, read) =
            run_sequential_event_loop-response (deadline a) a.turns {reason = reason} {resp = 0}
              (ground arith) in
          graphical now r there before read
    ]

after_gui-success : (e : Waiting.Exit) → (after_gui e).code ≡ pam_success → e.auth_response ≡ some 0
unfolding after_gui ends
after_gui-success e h = elim (Option-cases e.auth_response) [
  | inl nothing ↦ absurd (ground arith)
  | inr (resp, is) ↦ is ∙ ap some (success-raw resp (ground arith))
]

threaded_wait-success :
    (a : Attempt) {w : Wait} → threaded_wait a ≡ some w → w.code ≡ pam_success → ReadInTime a 0
unfolding threaded_wait ends
threaded_wait-success a {w} h granted =
    elim (Option-cases (run_gui_event_loop (deadline a) a.turns)) [
      | inl waits ↦ absurd (ground arith)
      | inr (e, ended) ↦
          let same : after_gui e ≡ w = ground arith in
          let zero : e.auth_response ≡ some 0 =
            after_gui-success e (ap (λ x. x.code) same ∙ granted) in
          let (now, r, there, before, untouched, read) =
            run_gui_event_loop-response (deadline a) a.turns {e = e} {resp = 0} ended zero in
          graphical now r there before read
    ]

after_terminal-success : (e : Exit) → (after_terminal e).code ≡ pam_success → e ≡ answered 0
unfolding after_terminal ends
after_terminal-success (answered resp) h = ap answered (success-raw resp h)
after_terminal-success (complained complaint) h = cc
after_terminal-success skipped h = cc
after_terminal-success timed_out h = cc

terminal_wait-success :
    (a : Attempt) {w : Wait} → terminal_wait a ≡ some w → w.code ≡ pam_success → ReadInTime a 0
unfolding terminal_wait
terminal_wait-success a {w} h granted =
    elim (Option-cases (run_terminal_loop (deadline a) true a.terminal_turns)) [
      | inl waits ↦ absurd (ground arith)
      | inr (e, ended) ↦
          let same : after_terminal e ≡ w = ground arith in
          let zero : e ≡ answered 0 = after_terminal-success e (ap (λ x. x.code) same ∙ granted) in
          let (now, r, there, before, read) =
            run_terminal_loop-answered (deadline a) true a.terminal_turns {resp = 0}
              (ended ∙ ap some zero) in
          at_terminal now r there before read
    ]

mode-cases : (m : ConversationMode) → (m ≡ sequential) ⊎ ((m ≡ threaded) ⊎ (m ≡ pre_collected))
mode-cases sequential = inl refl
mode-cases threaded = inr (inl refl)
mode-cases pre_collected = inr (inr refl)

pub wait-success :
    (a : Attempt) {w : Wait} → wait a ≡ some w → w.code ≡ pam_success → ReadInTime a 0
unfolding wait ends
wait-success a {w} h granted = elim (Bool-cases (has_terminal a)) [
  | inl terminal ↦ terminal_wait-success a {w = w} (ground arith) granted
  | inr graphic ↦ elim (mode-cases (mode_of a)) [
    | inl seq ↦ sequential_wait-success a {w = w} (ground arith) granted
    | inr (inl thr) ↦ threaded_wait-success a {w = w} (ground arith) granted
    | inr (inr pre) ↦ absurd (ground arith)
  ]
]
