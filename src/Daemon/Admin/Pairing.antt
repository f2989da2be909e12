-- ===== src/Daemon/Admin/Pairing.antt =====
-- tapauthd/src/admin_handler.rs: the slot that holds the pairing in progress. What the network, the
-- firewall and the phone do is an argument; a handler that gives up the lock is two operations.
use tapauth.Prelude.{
  ℕ, ◌+◌, ◌%◌, ◌^◌, String, Bool, not, ◌&&◌, Option, none, some, List, [], ◌∷◌, Result, ok, err,
  if◌then◌else◌, Bytes, ◌==◌, nat_eq, retain,
}

pub data AdminError : Type 0 where
  setup_failed session_in_progress already_active no_pending_session port_mismatch : AdminError
  accept_failed superseded initiation_failed still_pending no_active_session : AdminError
  csk_corrupt csk_generation_failed csk_load_failed completion_failed csk_save_failed : AdminError
  server_save_failed : AdminError

-- The stream, the listener and the firewall guard are left out.
pub record PendingPairing : Type 0 where
  pub port : ℕ
  pub generation : ℕ

pub record ActivePairing : Type 0 where
  pub server_public_key : Bytes
  pub server_device_name : String
  pub port : ℕ
  pub generation : ℕ

pub data PairingState : Type 0 where
  pending : PendingPairing → PairingState
  active : ActivePairing → PairingState

-- A pairing that a handler holds outside the slot: it has its generation and is not in the slot yet,
-- or it was taken out to wait for the phone.
pub data Held : Type 0 where
  starting accepting : PendingPairing → Held

abbrev pub pairing_of : Held → PendingPairing
pairing_of (starting p) = p
pairing_of (accepting p) = p

-- The counter of generations (u64), the slot, the pairings that handlers hold, and the generations
-- for which the timers were spawned, whether they have fired or not.
pub record Pairings : Type 0 where
  pub next_generation : ℕ
  pub slot : Option PairingState
  pub held : List Held
  pub pending_timers : List ℕ
  pub active_timers : List ℕ

abbrev pub start : Pairings
start = record {
  next_generation = 0;
  slot = none;
  held = [];
  pending_timers = [];
  active_timers = [];
}

-- The held pairings without those of a generation.
abbrev pub others : ℕ → List Held → List Held
others gen held = retain (λ h. not ((pairing_of h).generation == gen)) held

-- `handle_start_pairing` before it takes the lock. `port` is what the keypair, the listener, the
-- firewall and the session came to: the number of the port, or a failure of one of them.
unfoldable pub take_generation : Option ℕ → Pairings → Result AdminError PendingPairing × Pairings
take_generation none s = (err setup_failed, s)
take_generation (some port) s =
    let p : PendingPairing = record { port = port; generation = s.next_generation } in
    (
      ok p,
      record s { next_generation = (s.next_generation + 1) % 2 ^ 64; held = starting p ∷ s.held },
    )

-- The rest of `handle_start_pairing`, under the lock. On success the port is answered.
unfoldable pub put_pending : PendingPairing → Pairings → Result AdminError ℕ × Pairings
put_pending p s =
    let left = record s { held = others p.generation s.held } in
    elim s.slot [
      | some _ ↦ (err session_in_progress, left)
      | none ↦ (
        ok p.port,
        record left { slot = some (pending p); pending_timers = p.generation ∷ s.pending_timers },
      )
    ]

-- Both parts, with nothing in between.
unfoldable pub handle_start_pairing : Option ℕ → Pairings → Result AdminError ℕ × Pairings
unfolding take_generation put_pending
handle_start_pairing port s =
    let (taken, counted) = take_generation port s in
    elim taken [ err e ↦ (err e, counted) | ok p ↦ put_pending p counted ]

-- Port 0 asks for whatever pairing there is.
abbrev pub port_differs : ℕ → ℕ → Bool
port_differs asked expected = not (asked == 0) && not (asked == expected)

-- `handle_wait_for_pairing` up to the release of the lock.
unfoldable pub take_pending : ℕ → Pairings → Result AdminError PendingPairing × Pairings
take_pending port s = elim s.slot [
  | none ↦ (err no_pending_session, s)
  | some (active _) ↦ (err already_active, s)
  | some (pending p) ↦
      if port_differs port p.port
      then (err port_mismatch, s)
      else (ok p, record s { slot = none; held = accepting p ∷ s.held })
]

-- The phone connected and the first half of the protocol gave its key and name, or not.
pub data Accepted : Type 0 where
  not_accepted not_initiated : Accepted
  initiated : Bytes → String → Accepted

-- The rest of `handle_wait_for_pairing`, for the pairing that it took.
unfoldable pub put_active : PendingPairing → Accepted → Pairings → Result AdminError ℕ × Pairings
put_active p accepted s =
    let left = record s { held = others p.generation s.held } in
    elim accepted [
      | not_accepted ↦ (err accept_failed, left)
      | not_initiated ↦ (err initiation_failed, left)
      | initiated key name ↦ elim s.slot [
        | some _ ↦ (err superseded, left)
        | none ↦ (
          ok p.port,
          record left {
            slot = some (
                active (record {
                  server_public_key = key;
                  server_device_name = name;
                  port = p.port;
                  generation = p.generation;
                }));
            active_timers = p.generation ∷ s.active_timers;
          },
        )
      ]
    ]

-- The two timers, each for the pairing of one generation.
unfoldable pub pairing_timeout : ℕ → Pairings → Pairings
pairing_timeout gen s = elim s.slot [
  | some (pending p) ↦ if p.generation == gen then record s { slot = none } else s
  | _ ↦ s
]

unfoldable pub active_pairing_timeout : ℕ → Pairings → Pairings
active_pairing_timeout gen s = elim s.slot [
  | some (active a) ↦ if a.generation == gen then record s { slot = none } else s
  | _ ↦ s
]

-- `handle_complete_pairing` up to the release of the lock.
unfoldable pub take_active : ℕ → Pairings → Result AdminError ActivePairing × Pairings
take_active port s = elim s.slot [
  | none ↦ (err no_active_session, s)
  | some (pending _) ↦ (err still_pending, s)
  | some (active a) ↦
      if port_differs port a.port then (err port_mismatch, s) else (ok a, record s { slot = none })
]
