-- ===== src/Daemon/Admin/Slot.antt =====
-- The pairings in progress of tapauthd/src/admin_handler.rs over every interleaving of handlers and
-- timers.
pub mod Orderly
use tapauth.Prelude.{
  ◌≡◌, ◌≢◌, inl, inr, ℕ, ◌+◌, ◌%◌, ◌^◌, ◌≤◌, ◌<◌, not, Option, none, some, List, [], ◌∷◌, ◌++◌, map,
  Bytes, ◌==◌, nat_eq, retain, All, Among, arith, Bool-cases, String,
}
use tapauth.Daemon.Admin.Pairing.{
  PendingPairing, PairingState, pending, active, Pairings, start, Held, starting, accepting,
  pairing_of, others, take_generation, put_pending, port_differs, take_pending, Accepted,
  not_accepted, not_initiated, initiated, put_active, pairing_timeout, active_pairing_timeout,
  take_active,
}

-- One operation under the lock, by whichever handler or timer comes next.
pub data Step (s : Pairings) : Pairings → Type 0 where
  start_begins : (port : Option ℕ) → Step s (take_generation port s).1
  start_ends : (p : PendingPairing) → Among (starting p) s.held → Step s (put_pending p s).1
  wait_begins : (port : ℕ) → Step s (take_pending port s).1
  wait_ends :
      (p : PendingPairing) (accepted : Accepted)
      → Among (accepting p) s.held
      → Step s (put_active p accepted s).1
  pending_expires : (gen : ℕ) → Among gen s.pending_timers → Step s (pairing_timeout gen s)
  active_expires : (gen : ℕ) → Among gen s.active_timers → Step s (active_pairing_timeout gen s)
  completion_begins : (port : ℕ) → Step s (take_active port s).1

-- The states after so many operations.
pub data Reached : ℕ → Pairings → Type 0 where
  at_start : Reached 0 start
  after : {n : ℕ} {s t : Pairings} → Reached n s → Step s t → Reached (n + 1) t

abbrev pub generation_of : PairingState → ℕ
generation_of (pending p) = p.generation
generation_of (active a) = a.generation

abbrev pub slot_generations : Option PairingState → List ℕ
slot_generations none = []
slot_generations (some x) = generation_of x ∷ []

abbrev pub held_generations : List Held → List ℕ
held_generations hs = map (λ h. (pairing_of h).generation) hs

-- The generations of all pairings in progress.
abbrev pub generations : Pairings → List ℕ
generations s = slot_generations s.slot ++ held_generations s.held

abbrev pub Distinct : List ℕ → Type 0
Distinct [] = Unit
Distinct (x ∷ xs) = All (λ y. y ≢ x) xs × Distinct xs

-- Every generation in use, of a pairing or of a timer that was ever spawned, is below the counter,
-- no two pairings use one, and the counter has not passed the number of operations.
pub record IsOrderly (n : ℕ) (s : Pairings) : Type 0 where
  pub counted : s.next_generation ≤ n
  pub below : All (λ g. g < s.next_generation) (generations s)
  pub distinct : Distinct (generations s)
  pub pending_timed : All (λ g. g < s.next_generation) s.pending_timers
  pub active_timed : All (λ g. g < s.next_generation) s.active_timers

All-below-suc : (n : ℕ) (xs : List ℕ) → All (λ g. g < n) xs → All (λ g. g < n + 1) xs
All-below-suc n [] h = tt
All-below-suc n (x ∷ xs) (first, rest) = (omega arith, All-below-suc n xs rest)

All-differs : (n : ℕ) (xs : List ℕ) → All (λ g. g < n) xs → All (λ y. y ≢ n) xs
All-differs n [] h = tt
All-differs n (x ∷ xs) (first, rest) = (λ e. absurd (omega arith), All-differs n xs rest)

All-others :
    (P : ℕ → Type 0) (g : ℕ) (ps : List Held)
    → All P (held_generations ps)
    → All P (held_generations (others g ps))
All-others P g [] h = tt
All-others P g (p ∷ ps) (first, rest) = elim (Bool-cases ((pairing_of p).generation == g)) [
  | inl same ↦ rw same (All-others P g ps rest)
  | inr differs ↦ rw differs (first, All-others P g ps rest)
]

others-differ : (g : ℕ) (ps : List Held) → All (λ y. y ≢ g) (held_generations (others g ps))
others-differ g [] = tt
others-differ g (p ∷ ps) = elim (Bool-cases ((pairing_of p).generation == g)) [
  | inl same ↦ rw same (others-differ g ps)
  | inr differs ↦ rw differs (λ e. absurd (ground arith), others-differ g ps)
]

Distinct-others :
    (g : ℕ) (ps : List Held)
    → Distinct (held_generations ps)
    → Distinct (held_generations (others g ps))
Distinct-others g [] h = tt
Distinct-others g (p ∷ ps) (first, rest) = elim (Bool-cases ((pairing_of p).generation == g)) [
  | inl same ↦ rw same (Distinct-others g ps rest)
  | inr differs ↦
      rw differs
        (All-others (λ y. y ≢ (pairing_of p).generation) g ps first, Distinct-others g ps rest)
]

Among-below :
    (p : Held) (n : ℕ) (ps : List Held)
    → Among p ps
    → All (λ g. g < n) (held_generations ps)
    → (pairing_of p).generation < n
Among-below p n [] there h = elim there [ ]
Among-below p n (q ∷ ps) (Among.first same) (first, rest) = rw same first
Among-below p n (q ∷ ps) (Among.later there) (first, rest) = Among-below p n ps there rest
