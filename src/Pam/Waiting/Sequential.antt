-- ===== src/Pam/Waiting/Sequential.antt =====
-- client-pam/src/pam_logic.rs: what the sequential loop read when it has a response.
use tapauth.Prelude.{
  ◌≡◌, refl, inl, inr, ℕ, ◌<◌, some, Option-cases, List, [], ◌∷◌, ok, leb, arith, Among, first,
  later, Bool-cases,
}
use tapauth.Pam.Waiting.{
  ExitReason, Response, Ready, Polled, PollTurn, idle, interrupted, failed, ready, sequential_turn,
  run_sequential_event_loop,
}

sequential_turn-response :
    (polled : Polled) {reason : ExitReason} {resp : Response}
    → sequential_turn polled ≡ some (reason, some resp)
    → (r : Ready) × (polled ≡ ready r) × (r.read ≡ ok (some resp))
unfolding sequential_turn
sequential_turn-response idle h = cc
sequential_turn-response interrupted h = cc
sequential_turn-response failed h = ground arith
sequential_turn-response (ready r) h = (r, refl, ground arith)

-- The sequential loop, too, has read its response before the deadline.
pub run_sequential_event_loop-response :
    (deadline : ℕ) (turns : List PollTurn) {reason : ExitReason} {resp : Response}
    → run_sequential_event_loop deadline turns ≡ some (reason, some resp)
    → (now : ℕ) × (r : Ready) × Among (now, ready r) turns
      × (now < deadline)
      × (r.read ≡ ok (some resp))
unfolding run_sequential_event_loop
run_sequential_event_loop-response deadline [] h = cc
run_sequential_event_loop-response deadline ((now, polled) ∷ turns) {reason} {resp} h =
    elim (Bool-cases (leb deadline now)) [
      | inl late ↦ absurd (ground arith)
      | inr early ↦ elim (Option-cases (sequential_turn polled)) [
        | inl waits ↦
            let (t, r, there, before, read) =
              run_sequential_event_loop-response deadline turns {reason = reason} {resp = resp}
                (ground arith) in
            (t, r, later there, before, read)
        | inr (x, ends) ↦
            let same : x ≡ (reason, some resp) = ground arith in
            let (r, is, read) =
              sequential_turn-response polled {reason = reason} {resp = resp}
                (rw (ends, same) refl) in
            (now, r, first (rw is refl), ground arith, read)
      ]
    ]
