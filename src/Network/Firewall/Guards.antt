-- ===== src/Network/Firewall/Guards.antt =====
-- The interleavings of shared/src/firewall.rs: a guard is taken, a reference goes, and the `Drop`
-- of a guard without references runs at some later time.
use tapauth.Prelude.{
  ◌≡◌, refl, ℕ, ◌<◌, Bool, true, false, not, ◌&&◌, ◌||◌, List, [], ◌∷◌, ◌++◌, ok, err, lookup,
  insert, lookup-insert, ◌==◌, nat_eq, any, ltb, if◌then◌else◌, arith, Bool-cases, Result-cases,
  Option-cases, inl, inr, ◌⊎◌,
}
use tapauth.Network.Firewall.{
  Protocol, FirewallGuard, Host, Event, opened, closed, PortControl, Firewall, or_new, control,
  new_guard, open_port, release, do_drop_close,
}

-- Whether the last command about a port that took effect opened it. The code takes a close that
-- failed for done.
unfoldable pub is_open_after : ℕ → List Event → Bool
is_open_after p [] = false
is_open_after p (opened g (ok _) ∷ before) =
    let rest = is_open_after p before in if g.port == p then true else rest
is_open_after p (opened g (err _) ∷ before) = is_open_after p before
is_open_after p (closed g result ∷ before) =
    let rest = is_open_after p before in if g.port == p then false else rest

pub data Step (s : Firewall) : Firewall → Type 0 where
  takes : (host : Host) (port : ℕ) (protocol : Protocol) → Step s (new_guard host port protocol s).1
  releases : (port : ℕ) → 0 < (control port s).strong → Step s (release port s)
  drops :
      (host : Host) (g : FirewallGuard) (before later : List FirewallGuard)
      → s.dropping ≡ before ++ g ∷ later
      → Step s (do_drop_close host g (record s { dropping = before ++ later }))

pub data Reached : Firewall → Type 0 where
  at_start : Reached (record { guards = []; dropping = []; events = [] })
  after : {s t : Firewall} → Reached s → Step s t → Reached t

abbrev pub is_dropping : ℕ → List FirewallGuard → Bool
is_dropping p gs = any (λ g. g.port == p) gs

-- What holds of a port, its control block given.
pub record IsSettled (p : ℕ) (c : PortControl) (events : List Event) (dropping : List FirewallGuard)
    : Type 0 where
  pub flagged : c.is_open ≡ is_open_after p events
  pub held : 0 < c.strong → c.is_open ≡ true
  pub due : c.is_open ≡ true → c.strong ≡ 0 → is_dropping p dropping ≡ true

abbrev pub Settled : ℕ → Firewall → Type 0
Settled p s = IsSettled p (control p s) s.events s.dropping

control-insert :
    (p q : ℕ) (c : PortControl) (s t : Firewall)
    → t.guards ≡ insert q c s.guards
    → control p t ≡ (if q == p then c else control p s)
unfolding control or_new
control-insert p q c s t h = ground (arith, lookup-insert q p c s.guards)

Settled-insert :
    (p q : ℕ) (c : PortControl) (s t : Firewall)
    → t.guards ≡ insert q c s.guards
    → (q ≡ p → IsSettled p c t.events t.dropping)
    → ((q == p) ≡ false → IsSettled p (control p s) t.events t.dropping)
    → Settled p t
Settled-insert p q c s t h same differs =
    rw (control-insert p q c s t h) (elim (Bool-cases (q == p)) [
      | inl e ↦ rw e (same ((nat_eq.beq_iff q p).0 e))
      | inr e ↦ rw e (differs e)
    ])

takes-Settled :
    (host : Host) (q : ℕ) (protocol : Protocol) (s : Firewall) (p : ℕ)
    → Settled p s
    → Settled p (new_guard host q protocol s).1
unfolding new_guard is_open_after
takes-Settled host q protocol s p h = elim (Bool-cases (ltb 0 (control q s).strong)) [
  | inl live ↦ rw live (
      Settled-insert p q _ s _ refl
        (λ e. record {
          flagged = ground (arith, h.flagged);
          held = ground (arith, h.held);
          due = ground (arith);
        })
        (λ e. h))
  | inr dead ↦ elim (Bool-cases (control q s).is_open) [
    | inl shut ↦
        rw (dead, shut)
          (Settled-insert p q _ s _ refl
            (λ e. record {
              flagged = ground (arith, h.flagged);
              held = λ _. refl;
              due = ground (arith);
            })
            (λ e. h))
    | inr open_now ↦ elim (Result-cases (open_port host)) [
      | inl (_, opens) ↦
          rw (dead, open_now, opens)
            (Settled-insert p q _ s _ refl
              (λ e. record { flagged = ground (arith); held = λ _. refl; due = ground (arith) })
              (λ e. record { flagged = rw e h.flagged; held = h.held; due = h.due }))
      | inr (_, fails) ↦
          rw (dead, open_now, fails)
            (Settled-insert p q _ s _ refl
              (λ e. record {
                flagged = ground (arith, h.flagged);
                held = ground (arith, h.held);
                due = ground (arith);
              })
              (λ e. record { flagged = h.flagged; held = h.held; due = h.due }))
    ]
  ]
]

releases-Settled :
    (q : ℕ) (s : Firewall) (p : ℕ)
    → 0 < (control q s).strong
    → Settled p s
    → Settled p (release q s)
unfolding release
releases-Settled q s p some_left h = elim (Bool-cases ((control q s).strong == 1)) [
  | inl last ↦ rw last (
      Settled-insert p q _ s _ refl
        (λ e. record {
          flagged = ground (arith, h.flagged);
          held = ground (arith, h.held);
          due = ground (arith);
        })
        (λ e. record { flagged = h.flagged; held = h.held; due = rw e h.due }))
  | inr more ↦ rw more (
      Settled-insert p q _ s _ refl
        (λ e. record {
          flagged = ground (arith, h.flagged);
          held = ground (arith, h.held);
          due = ground (arith);
        })
        (λ e. h))
]

is_dropping-middle :
    (p : ℕ) (g : FirewallGuard) (before later : List FirewallGuard)
    → is_dropping p (before ++ g ∷ later) ≡ (g.port == p || is_dropping p (before ++ later))
is_dropping-middle p g [] later = refl
is_dropping-middle p g (x ∷ before) later = ground (arith, is_dropping-middle p g before later)

-- A due `Drop` that is forgotten matters to its own port alone, and not while that is held or shut.
forgets-Settled :
    (p : ℕ) (s : Firewall) (g : FirewallGuard) (before later : List FirewallGuard)
    → s.dropping ≡ before ++ g ∷ later
    → ((g.port == p) ≡ false) ⊎ ((control p s).is_open ≡ true → 0 < (control p s).strong)
    → Settled p s
    → Settled p (record s { dropping = before ++ later })
unfolding control
forgets-Settled p s g before later split spared h = record {
  flagged = h.flagged;
  held = h.held;
  due = λ opened none_left.
      ground (arith, h.due opened none_left, split, is_dropping-middle p g before later, spared);
}

drops-Settled :
    (host : Host) (g : FirewallGuard) (s : Firewall) (p : ℕ) (before later : List FirewallGuard)
    → s.dropping ≡ before ++ g ∷ later
    → Settled p s
    → Settled p (do_drop_close host g (record s { dropping = before ++ later }))
unfolding do_drop_close is_open_after control or_new
drops-Settled host g s p before later split h =
    let left : Firewall = record s { dropping = before ++ later } in
    elim (Option-cases (lookup g.port s.guards)) [
      | inl absent ↦
          rw (do_drop_close, absent)
            (forgets-Settled p s g before later split
              (elim (Bool-cases (g.port == p)) [
                | inl same ↦ inr (ground (arith, nat_eq.beq_iff g.port p))
                | inr other ↦ inl other
              ])
              h)
      | inr (ctrl, present) ↦ elim (Bool-cases (not (ltb 0 ctrl.strong) && ctrl.is_open)) [
        | inl closes ↦
            rw (do_drop_close, present, closes)
              (Settled-insert p g.port _ left _ refl
                (λ e. record {
                  flagged = ground (arith);
                  held = ground (arith);
                  due = ground (arith);
                })
                (λ e.
                  let spared = forgets-Settled p s g before later split (inl e) h in
                  record { flagged = rw e spared.flagged; held = spared.held; due = spared.due }))
        | inr stays ↦
            rw (do_drop_close, present, stays)
              (forgets-Settled p s g before later split
                (elim (Bool-cases (g.port == p)) [
                  | inl same ↦ inr (λ opened. ground (arith, nat_eq.beq_iff g.port p))
                  | inr other ↦ inl other
                ])
                h)
      ]
    ]

Step-Settled : {s t : Firewall} (p : ℕ) → Step s t → Settled p s → Settled p t
Step-Settled {s} p (takes host port protocol) h = takes-Settled host port protocol s p h
Step-Settled {s} p (releases port live) h = releases-Settled port s p live h
Step-Settled {s} p (drops host g before later split) h =
    drops-Settled host g s p before later split h

Reached-Settled : {s : Firewall} (p : ℕ) → Reached s → Settled p s
unfolding control or_new is_open_after
Reached-Settled p at_start = record { flagged = refl; held = ground arith; due = ground arith }
Reached-Settled p (after r step) = Step-Settled p step (Reached-Settled p r)

-- After whatever sequence of guards taken, references released and drops run late, while a
-- reference to a port's guard is held the last command for that port that took effect opened it.
pub Reached-held :
    (s : Firewall) (p : ℕ) → Reached s → 0 < (control p s).strong → is_open_after p s.events ≡ true
Reached-held s p r held = let h = Reached-Settled p r in ground (arith, h.flagged, h.held)

-- A port without references whose drops have all run is shut, if a close that failed counts.
pub Reached-closed :
    (s : Firewall) (p : ℕ)
    → Reached s
    → (control p s).strong ≡ 0
    → is_dropping p s.dropping ≡ false
    → is_open_after p s.events ≡ false
Reached-closed s p r none_left none_due =
    let h = Reached-Settled p r in ground (arith, h.flagged, h.due)
