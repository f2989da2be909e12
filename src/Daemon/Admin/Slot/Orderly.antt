-- ===== src/Daemon/Admin/Slot/Orderly.antt =====
-- The generations of the pairings in progress of tapauthd/src/admin_handler.rs stay apart.
use tapauth.Prelude.{
  ◌≡◌, ◌≢◌, refl, inl, inr, ℕ, ◌+◌, ◌%◌, ◌^◌, ◌<◌, Option, none, some, List, ◌∷◌, ◌++◌, ◌==◌,
  nat_eq, Among, All, arith, Bool-cases,
}
use tapauth.Daemon.Admin.Pairing.{
  PendingPairing, ActivePairing, PairingState, pending, active, Pairings, Held, starting, accepting,
  pairing_of, others, take_generation, put_pending, port_differs, take_pending, Accepted,
  not_accepted, not_initiated, initiated, put_active, pairing_timeout, active_pairing_timeout,
  take_active,
}
use tapauth.Daemon.Admin.Slot.{
  Step, start_begins, start_ends, wait_begins, wait_ends, pending_expires, active_expires,
  completion_begins, Reached, at_start, after, generation_of, slot_generations, held_generations,
  generations, IsOrderly, All-below-suc, All-differs, All-others, others-differ, Distinct-others,
  Among-below, Distinct,
}

abbrev state : ℕ → Option PairingState → List Held → List ℕ → List ℕ → Pairings
state c x hs pt at = record {
  next_generation = c;
  slot = x;
  held = hs;
  pending_timers = pt;
  active_timers = at;
}

-- A state with another slot and other held pairings and the same counter and timers.
abbrev moved : Pairings → Option PairingState → List Held → Pairings
moved s x hs = record s { slot = x; held = hs }

-- An operation that leaves the counter and the timers alone.
moves :
    (n : ℕ) (s : Pairings) (x : Option PairingState) (hs : List Held)
    → IsOrderly n s
    → All (λ g. g < s.next_generation) (generations (moved s x hs))
    → Distinct (generations (moved s x hs))
    → IsOrderly (n + 1) (moved s x hs)
moves n s x hs h below distinct =
    let counted = h.counted in
    record {
      counted = omega arith;
      below = below;
      distinct = distinct;
      pending_timed = h.pending_timed;
      active_timed = h.active_timed;
    }

kept : (n : ℕ) (s : Pairings) → IsOrderly n s → IsOrderly (n + 1) s
kept n s h = moves n s s.slot s.held h h.below h.distinct

-- The held pairings of an orderly state are orderly without what is in the slot.
held-orderly :
    (c : ℕ) (x : Option PairingState) (hs : List Held)
    → All (λ g. g < c) (slot_generations x ++ held_generations hs)
    → Distinct (slot_generations x ++ held_generations hs)
    → All (λ g. g < c) (held_generations hs) × Distinct (held_generations hs)
held-orderly c none hs below distinct = (below, distinct)
held-orderly c (some x) hs below distinct = (below.1, distinct.1)

emptied : (n : ℕ) (s : Pairings) → IsOrderly n s → IsOrderly (n + 1) (record s { slot = none })
emptied n s h =
    let (below, distinct) = held-orderly s.next_generation s.slot s.held h.below h.distinct in
    moves n s none s.held h below distinct

without :
    (c g : ℕ) (x : Option PairingState) (hs : List Held)
    → All (λ y. y < c) (slot_generations x ++ held_generations hs)
    → Distinct (slot_generations x ++ held_generations hs)
    → All (λ y. y < c) (slot_generations x ++ held_generations (others g hs))
      × Distinct (slot_generations x ++ held_generations (others g hs))
without c g none hs below distinct =
    (All-others (λ y. y < c) g hs below, Distinct-others g hs distinct)
without c g (some x) hs (first_below, below) (first_differs, distinct) = (
  (first_below, All-others (λ y. y < c) g hs below),
  (All-others (λ y. y ≢ generation_of x) g hs first_differs, Distinct-others g hs distinct),
)

-- The pairings of a generation are let go.
let_go :
    (n g : ℕ) (s : Pairings)
    → IsOrderly n s
    → IsOrderly (n + 1) (record s { held = others g s.held })
let_go n g s h =
    let (below, distinct) = without s.next_generation g s.slot s.held h.below h.distinct in
    moves n s s.slot (others g s.held) h below distinct

-- A pairing that was held takes the empty slot.
placed :
    (c : ℕ) (x : Held) (y : PairingState) (hs : List Held)
    → (pairing_of x).generation ≡ generation_of y
    → Among x hs
    → All (λ g. g < c) (held_generations hs)
    → Distinct (held_generations hs)
    → All (λ g. g < c) (generation_of y ∷ held_generations (others (generation_of y) hs))
      × Distinct (generation_of y ∷ held_generations (others (generation_of y) hs))
placed c x y hs same there below distinct = (
  (
    rw (← same) (Among-below x c hs there below),
    All-others (λ g. g < c) (generation_of y) hs below,
  ),
  (others-differ (generation_of y) hs, Distinct-others (generation_of y) hs distinct),
)

-- A new generation joins those that are held.
joins :
    (c : ℕ) (x : Option PairingState) (hs : List Held)
    → All (λ g. g < c) (slot_generations x ++ held_generations hs)
    → Distinct (slot_generations x ++ held_generations hs)
    → All (λ g. g < c + 1) (slot_generations x ++ (c ∷ held_generations hs))
      × Distinct (slot_generations x ++ (c ∷ held_generations hs))
joins c none hs below distinct = (
  (omega arith, All-below-suc c (held_generations hs) below),
  (All-differs c (held_generations hs) below, distinct),
)
joins c (some x) hs (first_below, below) (first_differs, distinct) = (
  (omega arith, (omega arith, All-below-suc c (held_generations hs) below)),
  (
    (λ e. absurd (omega arith), first_differs),
    (All-differs c (held_generations hs) below, distinct),
  ),
)

take_generation-IsOrderly :
    (n : ℕ) (port : Option ℕ) (s : Pairings)
    → n + 1 < 2 ^ 64
    → IsOrderly n s
    → IsOrderly (n + 1) (take_generation port s).1
unfolding take_generation
take_generation-IsOrderly n none s small h = kept n s h
take_generation-IsOrderly n (some port) s small h =
    let counted = h.counted in
    let next : (s.next_generation + 1) % 2 ^ 64 ≡ s.next_generation + 1 = omega arith in
    let (below, distinct) = joins s.next_generation s.slot s.held h.below h.distinct in
    rw next (record {
      counted = omega arith;
      below = below;
      distinct = distinct;
      pending_timed = All-below-suc s.next_generation s.pending_timers h.pending_timed;
      active_timed = All-below-suc s.next_generation s.active_timers h.active_timed;
    })

put_pending-IsOrderly :
    (n : ℕ) (p : PendingPairing) (c : ℕ) (x : Option PairingState) (hs : List Held) (pt at : List ℕ)
    → Among (starting p) hs
    → IsOrderly n (state c x hs pt at)
    → IsOrderly (n + 1) (put_pending p (state c x hs pt at)).1
unfolding put_pending
put_pending-IsOrderly n p c (some x) hs pt at there h =
    let_go n p.generation (state c (some x) hs pt at) h
put_pending-IsOrderly n p c none hs pt at there h =
    let counted = h.counted in
    let (below, distinct) = placed c (starting p) (pending p) hs refl there h.below h.distinct in
    record {
      counted = omega arith;
      below = below;
      distinct = distinct;
      pending_timed = (below.0, h.pending_timed);
      active_timed = h.active_timed;
    }

take_pending-IsOrderly :
    (n port c : ℕ) (x : Option PairingState) (hs : List Held) (pt at : List ℕ)
    → IsOrderly n (state c x hs pt at)
    → IsOrderly (n + 1) (take_pending port (state c x hs pt at)).1
unfolding take_pending
take_pending-IsOrderly n port c none hs pt at h = kept n _ h
take_pending-IsOrderly n port c (some (active a)) hs pt at h = kept n _ h
take_pending-IsOrderly n port c (some (pending p)) hs pt at h =
    elim (Bool-cases (port_differs port p.port)) [
      | inl differs ↦ rw differs (kept n (state c (some (pending p)) hs pt at) h)
      | inr same ↦ rw same (
          moves n (state c (some (pending p)) hs pt at) none (accepting p ∷ hs) h h.below
            h.distinct)
    ]

put_active-IsOrderly :
    (n : ℕ) (p : PendingPairing) (accepted : Accepted) (c : ℕ) (x : Option PairingState)
    (hs : List Held) (pt at : List ℕ)
    → Among (accepting p) hs
    → IsOrderly n (state c x hs pt at)
    → IsOrderly (n + 1) (put_active p accepted (state c x hs pt at)).1
unfolding put_active
put_active-IsOrderly n p not_accepted c x hs pt at there h =
    let_go n p.generation (state c x hs pt at) h
put_active-IsOrderly n p not_initiated c x hs pt at there h =
    let_go n p.generation (state c x hs pt at) h
put_active-IsOrderly n p (initiated key name) c (some x) hs pt at there h =
    let_go n p.generation (state c (some x) hs pt at) h
put_active-IsOrderly n p (initiated key name) c none hs pt at there h =
    let counted = h.counted in
    let a : ActivePairing = record {
      server_public_key = key;
      server_device_name = name;
      port = p.port;
      generation = p.generation;
    } in
    let (below, distinct) = placed c (accepting p) (active a) hs refl there h.below h.distinct in
    record {
      counted = omega arith;
      below = below;
      distinct = distinct;
      pending_timed = h.pending_timed;
      active_timed = (below.0, h.active_timed);
    }

timeout-IsOrderly :
    (n gen c : ℕ) (x : Option PairingState) (hs : List Held) (pt at : List ℕ)
    → IsOrderly n (state c x hs pt at)
    → IsOrderly (n + 1) (pairing_timeout gen (state c x hs pt at))
      × IsOrderly (n + 1) (active_pairing_timeout gen (state c x hs pt at))
unfolding pairing_timeout active_pairing_timeout
timeout-IsOrderly n gen c none hs pt at h = (kept n _ h, kept n _ h)
timeout-IsOrderly n gen c (some (pending p)) hs pt at h = elim (Bool-cases (p.generation == gen)) [
  | inl same ↦ (rw same (emptied n (state c (some (pending p)) hs pt at) h), kept n _ h)
  | inr differs ↦ (rw differs (kept n (state c (some (pending p)) hs pt at) h), kept n _ h)
]
timeout-IsOrderly n gen c (some (active a)) hs pt at h = elim (Bool-cases (a.generation == gen)) [
  | inl same ↦ (kept n _ h, rw same (emptied n (state c (some (active a)) hs pt at) h))
  | inr differs ↦ (kept n _ h, rw differs (kept n (state c (some (active a)) hs pt at) h))
]

take_active-IsOrderly :
    (n port c : ℕ) (x : Option PairingState) (hs : List Held) (pt at : List ℕ)
    → IsOrderly n (state c x hs pt at)
    → IsOrderly (n + 1) (take_active port (state c x hs pt at)).1
unfolding take_active
take_active-IsOrderly n port c none hs pt at h = kept n _ h
take_active-IsOrderly n port c (some (pending p)) hs pt at h = kept n _ h
take_active-IsOrderly n port c (some (active a)) hs pt at h =
    elim (Bool-cases (port_differs port a.port)) [
      | inl differs ↦ rw differs (kept n (state c (some (active a)) hs pt at) h)
      | inr same ↦ rw same (emptied n (state c (some (active a)) hs pt at) h)
    ]

Step-IsOrderly :
    (n : ℕ) {s t : Pairings} → n + 1 < 2 ^ 64 → IsOrderly n s → Step s t → IsOrderly (n + 1) t
Step-IsOrderly n {s} small h (start_begins port) = take_generation-IsOrderly n port s small h
Step-IsOrderly n {s} small h (start_ends p there) =
    put_pending-IsOrderly n p s.next_generation s.slot s.held s.pending_timers s.active_timers there
      h
Step-IsOrderly n {s} small h (wait_begins port) =
    take_pending-IsOrderly n port s.next_generation s.slot s.held s.pending_timers s.active_timers h
Step-IsOrderly n {s} small h (wait_ends p accepted there) =
    put_active-IsOrderly n p accepted s.next_generation s.slot s.held s.pending_timers
      s.active_timers there h
Step-IsOrderly n {s} small h (pending_expires gen _) =
    (timeout-IsOrderly n gen s.next_generation s.slot s.held s.pending_timers s.active_timers h).0
Step-IsOrderly n {s} small h (active_expires gen _) =
    (timeout-IsOrderly n gen s.next_generation s.slot s.held s.pending_timers s.active_timers h).1
Step-IsOrderly n {s} small h (completion_begins port) =
    take_active-IsOrderly n port s.next_generation s.slot s.held s.pending_timers s.active_timers h

-- In every state that fewer than 2^64 operations lead to, in whatever order the handlers count
-- generations and take the lock and the timers fire, no two pairings in progress share a
-- generation, and the generation that comes next is above those of all pairings in progress and of
-- all timers that were ever spawned, so none of these timers is for a later pairing.
pub Reached-IsOrderly : (n : ℕ) {s : Pairings} → n < 2 ^ 64 → Reached n s → IsOrderly n s
Reached-IsOrderly _ small at_start = record {
  counted = omega arith;
  below = tt;
  distinct = tt;
  pending_timed = tt;
  active_timed = tt;
}
Reached-IsOrderly _ small (after {n = n} {s = s} reached step) =
    Step-IsOrderly n {s = s} small (Reached-IsOrderly n {s = s} (omega arith) reached) step
