-- ===== src/Pam/Waiting.antt =====
-- client-pam/src/pam_logic.rs: the two loops that wait for the daemon. What `poll` and the reads of
-- one turn gave is an argument, and instants are in nanoseconds.
use tapauth.Prelude.{
  is_some, Option-cases, ◌≡◌, refl, inl, inr, ℕ, ◌≤◌, ◌<◌, Bool, true, false, not, ◌&&◌, Option,
  none, some, List, [], ◌∷◌, Result, ok, err, if◌then◌else◌, leb, arith, Among, first, later,
  Bool-cases,
}
pub mod Sequential

pub data ExitReason : Type 0 where
  timeout ipc_response_received ipc_error password_entered password_failed : ExitReason

pub data Complaint : Type 0 where
  connection_lost communication_error : Complaint

-- The daemon's response, by its raw outcome.
abbrev pub Response : Type 0
Response = ℕ

-- `revents` of the daemon's socket, and what a read of it gives: `ok none` is an incomplete frame.
pub record Ready : Type 0 where
  pub entered : Bool  -- `password_entered`
  pub readable : Bool
  pub hung_up : Bool  -- `POLLHUP` or `POLLERR`
  pub read : Result (Unit {0}) (Option Response)
  pub pipe_readable : Bool

-- `poll`: nothing before its timeout, something is ready, `EINTR`, or another error.
pub data Polled : Type 0 where
  idle interrupted failed : Polled
  ready : Ready → Polled

-- One turn: the time at its start, and its `poll`.
abbrev pub PollTurn : Type 0
PollTurn = ℕ × Polled

-- What a loop returns: the reason, the response and the pending error.
pub record Exit : Type 0 where
  pub reason : ExitReason
  pub auth_response : Option Response
  pub pending_error : Option Complaint
  pub cancel_sent : Bool

exit : ExitReason → Option Complaint → Exit
exit reason complaint = record {
  reason = reason;
  auth_response = none;
  pending_error = complaint;
  cancel_sent = false;
}

responded : Response → Exit
responded resp = record {
  reason = ipc_response_received;
  auth_response = some resp;
  pending_error = none;
  cancel_sent = false;
}

cancelling : ExitReason → Exit
cancelling reason = record {
  reason = reason;
  auth_response = none;
  pending_error = none;
  cancel_sent = true;
}

-- The socket with `POLLIN`: `none` is `continue`.
after_read : Bool → Result (Unit {0}) (Option Response) → Option Exit
after_read hung_up (ok (some resp)) = some (responded resp)
after_read hung_up (ok none) =
    if hung_up then some (exit ipc_error (some connection_lost)) else none
after_read hung_up (err _) = some (exit ipc_error (some communication_error))

-- The self-pipe, which is looked at if the socket had nothing to say.
after_pipe : Bool → Option Exit
after_pipe pipe_readable = if pipe_readable then some (cancelling password_failed) else none

-- The body of the graphical loop after the deadline test.
unfoldable pub gui_turn : Polled → Option Exit
unfolding exit responded cancelling after_read after_pipe
gui_turn idle = none
gui_turn interrupted = none
gui_turn failed = some (exit ipc_error (some communication_error))
gui_turn (ready r) =
    if r.entered
    then some (cancelling password_entered)
    else if r.readable
    then after_read r.hung_up r.read
    else if r.hung_up
    then some (exit ipc_error (some connection_lost))
    else after_pipe r.pipe_readable

-- `none`: the turns have run out and the loop still waits.
unfoldable pub run_gui_event_loop : ℕ → List PollTurn → Option Exit
unfolding gui_turn
run_gui_event_loop deadline [] = none
run_gui_event_loop deadline ((now, polled) ∷ turns) =
    let rest = run_gui_event_loop deadline turns in
    if leb deadline now
    then some (exit timeout none)
    else elim (gui_turn polled) [ some e ↦ some e | none ↦ rest ]

-- The body of the sequential loop; it keeps no message and sends no cancel.
unfoldable pub sequential_turn : Polled → Option (ExitReason × Option Response)
sequential_turn idle = none
sequential_turn interrupted = none
sequential_turn failed = some (ipc_error, none)
sequential_turn (ready r) =
    if r.readable
    then elim r.read [
      | ok (some resp) ↦ some (ipc_response_received, some resp)
      | ok none ↦ if r.hung_up then some (ipc_error, none) else none
      | err _ ↦ some (ipc_error, none)
    ]
    else if r.hung_up
    then some (ipc_error, none)
    else none

unfoldable pub run_sequential_event_loop : ℕ → List PollTurn → Option (ExitReason × Option Response)
unfolding sequential_turn
run_sequential_event_loop deadline [] = none
run_sequential_event_loop deadline ((now, polled) ∷ turns) =
    let rest = run_sequential_event_loop deadline turns in
    if leb deadline now
    then some (timeout, none)
    else elim (sequential_turn polled) [ some e ↦ some e | none ↦ rest ]

-- Turns in which the user neither submits a password nor dismisses the dialog.
abbrev pub is_untouched : Polled → Bool
is_untouched (ready r) = not r.entered && not r.pipe_readable
is_untouched _ = true

abbrev pub are_untouched : List PollTurn → Bool
are_untouched [] = true
are_untouched ((_, polled) ∷ turns) = is_untouched polled && are_untouched turns

abbrev pub seen : Option Exit → Option (ExitReason × Option Response)
seen none = none
seen (some e) = some (e.reason, e.auth_response)

-- While the user touches nothing, the graphical loop and the sequential loop end for the same
-- reason with the same response, or both still wait.
pub run_gui_event_loop-eq-sequential :
    (deadline : ℕ) (turns : List PollTurn)
    → are_untouched turns ≡ true
    → seen (run_gui_event_loop deadline turns) ≡ run_sequential_event_loop deadline turns
unfolding run_gui_event_loop gui_turn run_sequential_event_loop sequential_turn exit responded
    cancelling after_read after_pipe
run_gui_event_loop-eq-sequential deadline [] h = refl
run_gui_event_loop-eq-sequential deadline ((now, polled) ∷ turns) h =
    ground (arith, run_gui_event_loop-eq-sequential deadline turns)

-- A turn that starts at the deadline or later ends both loops, whatever came before.
pub event_loops_end :
    (deadline now : ℕ) (polled : Polled) (turns : List PollTurn)
    → Among (now, polled) turns
    → deadline ≤ now
    → (is_some (run_gui_event_loop deadline turns) ≡ true)
      × (is_some (run_sequential_event_loop deadline turns) ≡ true)
unfolding run_gui_event_loop run_sequential_event_loop
event_loops_end deadline now polled [] there late = elim there [ ]
event_loops_end deadline now polled ((t, q) ∷ turns) (first same) late =
    let at : t ≡ now = ground arith in ground arith
event_loops_end deadline now polled ((t, q) ∷ turns) (later there) late =
    ground (arith, event_loops_end deadline now polled turns there late)

gui_turn-response :
    (polled : Polled) {e : Exit} {resp : Response}
    → gui_turn polled ≡ some e
    → e.auth_response ≡ some resp
    → (r : Ready) × (polled ≡ ready r) × (r.entered ≡ false) × (r.read ≡ ok (some resp))
unfolding gui_turn exit responded cancelling after_read after_pipe
gui_turn-response idle h answered = cc
gui_turn-response interrupted h answered = cc
gui_turn-response failed h answered = ground arith
gui_turn-response (ready r) {e} {resp} h answered = (r, refl, ground arith, ground arith)

-- A loop that hands a response to its caller has read it from the daemon in a turn that started
-- before the deadline and in which no password had been entered.
pub run_gui_event_loop-response :
    (deadline : ℕ) (turns : List PollTurn) {e : Exit} {resp : Response}
    → run_gui_event_loop deadline turns ≡ some e
    → e.auth_response ≡ some resp
    → (now : ℕ) × (r : Ready) × Among (now, ready r) turns
      × (now < deadline)
      × (r.entered ≡ false)
      × (r.read ≡ ok (some resp))
unfolding run_gui_event_loop exit
run_gui_event_loop-response deadline [] h answered = cc
run_gui_event_loop-response deadline ((now, polled) ∷ turns) {e} {resp} h answered =
    elim (Bool-cases (leb deadline now)) [
      | inl late ↦ absurd (ground arith)
      | inr early ↦ elim (Option-cases (gui_turn polled)) [
        | inl waits ↦
            let (t, r, there, before, untouched, read) =
              run_gui_event_loop-response deadline turns {e = e} {resp = resp} (ground arith)
                answered in
            (t, r, later there, before, untouched, read)
        | inr (x, ends) ↦
            let same : x ≡ e = ground arith in
            let (r, is, untouched, read) =
              gui_turn-response polled {e = e} {resp = resp} (rw (ends, same) refl) answered in
            (now, r, first (rw is refl), ground arith, untouched, read)
      ]
    ]
