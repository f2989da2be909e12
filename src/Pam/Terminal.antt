-- ===== src/Pam/Terminal.antt =====
-- client-pam/src/pam_logic.rs: the end of `authenticate_inner`, which waits for the daemon on a
-- terminal where Enter skips the phone. Instants are in nanoseconds; the text messages are left out.
use tapauth.Prelude.{
  ◌≡◌, refl, inl, inr, ℕ, ◌≤◌, ◌<◌, Bool, true, false, ◌||◌, Option, none, some, List, [], ◌∷◌,
  Result, ok, err, Result-cases, if◌then◌else◌, leb, nat_beq, arith, Among, first, later,
  Bool-cases, is_some,
}
use tapauth.Pam.Waiting.{Response, Complaint, connection_lost, communication_error}

-- `tty.read(&mut kb[..1])`.
pub data Key : Type 0 where
  pressed : ℕ → Key
  eof would_block read_failed : Key

-- `revents` of the socket and of the terminal, and what reading them gives.
pub record Ready : Type 0 where
  pub readable : Bool
  pub hung_up : Bool
  pub read : Result (Unit {0}) (Option Response)
  pub tty_readable : Bool
  pub tty_hung_up : Bool
  pub key : Key

-- `poll`: nothing before its timeout, something is ready, or an error, `EINTR` among them.
pub data Polled : Type 0 where
  idle failed : Polled
  ready : Ready → Polled

abbrev pub PollTurn : Type 0
PollTurn = ℕ × Polled

pub data Exit : Type 0 where
  answered : Response → Exit
  complained : Complaint → Exit
  skipped timed_out : Exit

-- A part of a turn returns, or it goes on with `poll_tty`.
abbrev pub Step : Type 0
Step = Result Exit Bool

unfoldable pub socket_turn : Ready → Option Exit
socket_turn r =
    if r.readable
    then elim r.read [
      | ok (some resp) ↦ some (answered resp)
      | ok none ↦ if r.hung_up then some (complained connection_lost) else none
      | err _ ↦ some (complained communication_error)
    ]
    else if r.hung_up
    then some (complained connection_lost)
    else none

-- `b'\n'` or `b'\r'`.
abbrev pub is_enter : ℕ → Bool
is_enter b = nat_beq b 10 || nat_beq b 13

unfoldable pub after_key : Key → Step
after_key (pressed b) = if is_enter b then err skipped else ok true
after_key eof = ok false
after_key would_block = ok true
after_key read_failed = ok false

unfoldable pub tty_turn : Bool → Ready → Step
unfolding after_key
tty_turn false r = ok false
tty_turn true r =
    if r.tty_readable then after_key r.key else if r.tty_hung_up then ok false else ok true

-- The body of the loop after the deadline test.
unfoldable pub terminal_turn : Bool → Polled → Step
unfolding socket_turn tty_turn
terminal_turn poll_tty idle = ok poll_tty
terminal_turn poll_tty failed = ok poll_tty
terminal_turn poll_tty (ready r) = elim (socket_turn r) [
  | some e ↦ err e
  | none ↦ tty_turn poll_tty r
]

-- `none`: the turns have run out and the loop still waits.
unfoldable pub run_terminal_loop : ℕ → Bool → List PollTurn → Option Exit
unfolding terminal_turn
run_terminal_loop deadline poll_tty [] = none
run_terminal_loop deadline poll_tty ((now, polled) ∷ turns) =
    if leb deadline now then some timed_out else elim (terminal_turn poll_tty polled) [
      | err e ↦ some e
      | ok next ↦ run_terminal_loop deadline next turns
    ]

-- A turn that starts at the deadline or later ends the loop, whatever came before.
pub run_terminal_loop_ends :
    (deadline now : ℕ) (polled : Polled) (poll_tty : Bool) (turns : List PollTurn)
    → Among (now, polled) turns
    → deadline ≤ now
    → is_some (run_terminal_loop deadline poll_tty turns) ≡ true
unfolding run_terminal_loop
run_terminal_loop_ends deadline now polled poll_tty [] there late = elim there [ ]
run_terminal_loop_ends deadline now polled poll_tty ((t, q) ∷ turns) (first same) late =
    let at : t ≡ now = ground arith in ground arith
run_terminal_loop_ends deadline now polled poll_tty ((t, q) ∷ turns) (later there) late =
    elim (Bool-cases (leb deadline t)) [
      | inl over ↦ rw over refl
      | inr early ↦ elim (Result-cases (terminal_turn poll_tty q)) [
        | inl (next, goes_on) ↦
            let rest : is_some (run_terminal_loop deadline next turns) ≡ true =
              run_terminal_loop_ends deadline now polled next turns there late in
            rw (early, goes_on) rest
        | inr (e, ends) ↦ rw (early, ends) refl
      ]
    ]

terminal_turn-answered :
    (poll_tty : Bool) (polled : Polled) {resp : Response}
    → terminal_turn poll_tty polled ≡ err (answered resp)
    → (r : Ready) × (polled ≡ ready r) × (r.read ≡ ok (some resp))
unfolding terminal_turn socket_turn tty_turn after_key
terminal_turn-answered poll_tty idle h = cc
terminal_turn-answered poll_tty failed h = cc
terminal_turn-answered false (ready r) h = (r, refl, ground arith)
terminal_turn-answered true (ready r) h = (r, refl, ground arith)

-- A response that the loop hands on was read from the daemon in a turn before the deadline.
pub run_terminal_loop-answered :
    (deadline : ℕ) (poll_tty : Bool) (turns : List PollTurn) {resp : Response}
    → run_terminal_loop deadline poll_tty turns ≡ some (answered resp)
    → (now : ℕ) × (r : Ready) × Among (now, ready r) turns
      × (now < deadline)
      × (r.read ≡ ok (some resp))
unfolding run_terminal_loop
run_terminal_loop-answered deadline poll_tty [] h = cc
run_terminal_loop-answered deadline poll_tty ((now, polled) ∷ turns) {resp} h =
    elim (Bool-cases (leb deadline now)) [
      | inl late ↦ absurd (ground arith)
      | inr early ↦ elim (Result-cases (terminal_turn poll_tty polled)) [
        | inl (next, goes_on) ↦
            let (t, r, there, before, read) =
              run_terminal_loop-answered deadline next turns {resp = resp} (ground arith) in
            (t, r, later there, before, read)
        | inr (e, ends) ↦
            let same : e ≡ answered resp = ground arith in
            let (r, is, read) =
              terminal_turn-answered poll_tty polled {resp = resp} (rw (ends, same) refl) in
            (now, r, first (rw is refl), ground arith, read)
      ]
    ]
