-- ===== src/Daemon/Auth/Race/Outcome.antt =====
-- How the race of tapauthd/src/auth_handler.rs ends.
use tapauth.Prelude.{
  ◌≡◌, sym, ◌∙◌, ◌⊎◌, inl, inr, refl, Bool, true, false, ◌&&◌, Option, some, List, [], ◌∷◌, Result,
  ok, err, Among, first, later, arith, Bool-cases,
}
use tapauth.Daemon.Auth.Response.{AuthHandlerError, explicit_denial, denied}
use tapauth.Daemon.Auth.Race.{
  TaskEnd, returned, Event, ble_done, udp_done, cancelled, Effect, abort_ble, abort_udp, Reaction,
  conclude, await, react, await_from, await_auth_result, handle_cancellation,
  multicast_cancel_on_success, cleanup_transports, arm,
}

-- A task's end that is neither a success nor an explicit denial.
abbrev pub is_failure : TaskEnd → Bool
is_failure (returned (ok _)) = false
is_failure (returned (err explicit_denial)) = false
is_failure _ = true

abbrev pub all_failures : List TaskEnd → Bool
all_failures [] = true
all_failures (e ∷ es) = is_failure e && all_failures es

module _ (network ble : Bool) where
  -- The event that decides a race, with the result and what is done at the end.
  pub data Decision : Event → Result AuthHandlerError (Unit {0}) → List Effect → Type 0 where
    ble_success :
        Decision
          (ble_done (returned (ok tt)))
          (ok tt)
          (abort_udp ∷ multicast_cancel_on_success network ble)
    udp_success :
        Decision
          (udp_done (returned (ok tt)))
          (ok tt)
          (abort_ble ∷ multicast_cancel_on_success network ble)
    ble_denial :
        Decision
          (ble_done (returned (err explicit_denial)))
          (err explicit_denial)
          (abort_udp ∷ cleanup_transports network ble)
    udp_denial :
        Decision
          (udp_done (returned (err explicit_denial)))
          (err explicit_denial)
          (abort_ble ∷ cleanup_transports network ble)
    cancellation : Decision cancelled (err denied) (handle_cancellation network ble)

  Reaction-cases :
      (x : Reaction)
      → ((r : Result AuthHandlerError (Unit {0})) × (es : List Effect) × (x ≡ conclude r es))
        ⊎ ((b : Bool) × (u : Bool) × (x ≡ await b u))
  Reaction-cases (conclude r es) = inl (r, es, refl)
  Reaction-cases (await b u) = inr (b, u, refl)

  conclude-inj-result :
      {r q : Result AuthHandlerError (Unit {0})} {es fs : List Effect}
      → conclude r es ≡ conclude q fs
      → (r ≡ q) × (es ≡ fs)
  conclude-inj-result h = ground arith

  -- A task ends with a success or a denial, or its arm only takes the flags of a failure.
  pub arm-cases :
      (abort : Effect) (x : Reaction) (end : TaskEnd)
      → (end ≡ returned (ok tt))
        ⊎ ((end ≡ returned (err explicit_denial))
            ⊎ ((arm network ble abort x end ≡ x) × (is_failure end ≡ true)))
  arm-cases abort x end = ground arith

  await-conclude :
      {b u : Bool} {r : Result AuthHandlerError (Unit {0})} {es : List Effect}
      → await b u ≡ conclude r es
      → ⊥
  await-conclude h = cc

  decide :
      {e : Event} {r q : Result AuthHandlerError (Unit {0})} {es fs : List Effect}
      → Decision e r es
      → conclude r es ≡ conclude q fs
      → Decision e q fs
  decide d h = let (same, these) = conclude-inj-result h in rw (← same, ← these) d

  ble-Decision :
      (u : Bool) (end : TaskEnd) {r : Result AuthHandlerError (Unit {0})} {es : List Effect}
      → arm network ble abort_udp (await true u) end ≡ conclude r es
      → Decision (ble_done end) r es
  ble-Decision u end h = elim (arm-cases abort_udp (await true u) end) [
    | inl won ↦ rw won (decide ble_success (rw won at h))
    | inr (inl refused) ↦ rw refused (decide ble_denial (rw refused at h))
    | inr (inr (same, _)) ↦ absurd (await-conclude (rw same at h))
  ]

  udp-Decision :
      (b : Bool) (end : TaskEnd) {r : Result AuthHandlerError (Unit {0})} {es : List Effect}
      → arm network ble abort_ble (await b true) end ≡ conclude r es
      → Decision (udp_done end) r es
  udp-Decision b end h = elim (arm-cases abort_ble (await b true) end) [
    | inl won ↦ rw won (decide udp_success (rw won at h))
    | inr (inl refused) ↦ rw refused (decide udp_denial (rw refused at h))
    | inr (inr (same, _)) ↦ absurd (await-conclude (rw same at h))
  ]

  react-Decision :
      (b u : Bool) (e : Event) {r : Result AuthHandlerError (Unit {0})} {es : List Effect}
      → react network ble b u e ≡ conclude r es
      → Decision e r es
  react-Decision b u cancelled h = decide cancellation h
  react-Decision true u (ble_done end) h = absurd (await-conclude h)
  react-Decision false u (ble_done end) h = ble-Decision u end h
  react-Decision b true (udp_done end) h = absurd (await-conclude h)
  react-Decision b false (udp_done end) h = udp-Decision b end h

  -- A transport has failed: its flag says so, or a task of it ended with a failure.
  pub Failed : (TaskEnd → Event) → Bool → List Event → Type 0
  Failed done flag events =
      (flag ≡ true) ⊎ ((end : TaskEnd) × Among (done end) events × (is_failure end ≡ true))

  -- Why a race that has got to some flags ends: an event that decides it, or both transports have
  -- failed.
  pub data Ending (ble_failed udp_failed : Bool) (events : List Event)
      (result : Result AuthHandlerError (Unit {0})) (effects : List Effect) : Type 0 where
    decided :
        (e : Event)
        → Among e events
        → Decision e result effects
        → Ending ble_failed udp_failed events result effects
    exhausted :
        Failed ble_done ble_failed events
        → Failed udp_done udp_failed events
        → result ≡ err denied
        → effects ≡ []
        → Ending ble_failed udp_failed events result effects

  -- What a turn that goes on has seen of a transport.
  abbrev Noted : (TaskEnd → Event) → Bool → Bool → Event → Type 0
  Noted done before flag e =
      flag ≡ true → (before ≡ true) ⊎ ((end : TaskEnd) × (e ≡ done end) × (is_failure end ≡ true))

  await-inj : {b u b' u' : Bool} → await b u ≡ await b' u' → (b ≡ b') × (u ≡ u')
  await-inj h = ground arith

  react-Noted :
      (b u : Bool) (e : Event) {b' u' : Bool}
      → react network ble b u e ≡ await b' u'
      → Noted ble_done b b' e × Noted udp_done u u' e
  react-Noted b u cancelled h = absurd (await-conclude (sym h))
  react-Noted true u (ble_done end) h =
      let (same, these) = await-inj h in (λ _. inl refl, λ f. inl (these ∙ f))
  react-Noted b true (udp_done end) h =
      let (same, these) = await-inj h in (λ f. inl (same ∙ f), λ _. inl refl)
  react-Noted false u (ble_done end) h = elim (arm-cases abort_udp (await true u) end) [
    | inl won ↦ absurd (await-conclude (sym (rw won at h)))
    | inr (inl refused) ↦ absurd (await-conclude (sym (rw refused at h)))
    | inr (inr (same, failed)) ↦
        let (_, these) = await-inj (rw same at h) in
        (λ _. inr (end, refl, failed), λ f. inl (these ∙ f))
  ]
  react-Noted b false (udp_done end) h = elim (arm-cases abort_ble (await b true) end) [
    | inl won ↦ absurd (await-conclude (sym (rw won at h)))
    | inr (inl refused) ↦ absurd (await-conclude (sym (rw refused at h)))
    | inr (inr (same, failed)) ↦
        let (these, _) = await-inj (rw same at h) in
        (λ f. inl (these ∙ f), λ _. inr (end, refl, failed))
  ]

  Failed-later :
      (done : TaskEnd → Event) (before flag : Bool) (e : Event) (events : List Event)
      → Noted done before flag e
      → Failed done flag events
      → Failed done before (e ∷ events)
  unfolding Failed
  Failed-later done before flag e events noted (inr (end, there, failed)) =
      inr (end, later there, failed)
  Failed-later done before flag e events noted (inl set) = elim (noted set) [
    | inl already ↦ inl already
    | inr (end, is, failed) ↦ inr (end, first (sym is), failed)
  ]

  Ending-later :
      (b u b' u' : Bool) (e : Event) (events : List Event) {r : Result AuthHandlerError (Unit {0})}
      {es : List Effect}
      → Noted ble_done b b' e
      → Noted udp_done u u' e
      → Ending b' u' events r es
      → Ending b u (e ∷ events) r es
  Ending-later b u b' u' e events noted noted' (decided f there d) = decided f (later there) d
  Ending-later b u b' u' e events noted noted' (exhausted x y failed none_left) =
      exhausted (Failed-later ble_done b b' e events noted x)
        (Failed-later udp_done u u' e events noted' y) failed none_left

  pair-inj :
      {r q : Result AuthHandlerError (Unit {0})} {es fs : List Effect}
      → ◌≡◌ {A = Option (Result AuthHandlerError (Unit {0}) × List Effect)}
          (some (r, es))
          (some (q, fs))
      → (r ≡ q) × (es ≡ fs)
  pair-inj h = ground arith

  both-Ending :
      {b u : Bool} {events : List Event} {r : Result AuthHandlerError (Unit {0})} {es : List Effect}
      → (b && u) ≡ true
      → ◌≡◌ {A = Option (Result AuthHandlerError (Unit {0}) × List Effect)}
          (some (err denied, []))
          (some (r, es))
      → Ending b u events r es
  unfolding Failed
  both-Ending both h =
      let (same, these) = pair-inj h in
      exhausted (inl (ground arith)) (inl (ground arith)) (sym same) (sym these)

  await_from-Ending :
      (b u : Bool) (events : List Event) {r : Result AuthHandlerError (Unit {0})} {es : List Effect}
      → await_from network ble b u events ≡ some (r, es)
      → Ending b u events r es
  unfolding await_from
  await_from-Ending b u [] h = elim (Bool-cases (b && u)) [
    | inl both ↦ both-Ending both (rw (await_from, both) at h)
    | inr going ↦ absurd (ground arith)
  ]
  await_from-Ending b u (e ∷ events) {r} {es} h = elim (Bool-cases (b && u)) [
    | inl both ↦ both-Ending both (rw (await_from, both) at h)
    | inr going ↦ elim (Reaction-cases (react network ble b u e)) [
      | inl (q, fs, ended) ↦
          let (same, these) =
            pair-inj {r = q} {q = r} {es = fs} {fs = es} (rw (await_from, going, ended) at h) in
          decided e (first refl) (react-Decision b u e (rw (← same, ← these) ended))
      | inr (b', u', waits) ↦
          let (noted, noted') = react-Noted b u e waits in
          Ending-later b u b' u' e events noted noted'
            (await_from-Ending b' u' events (rw (await_from, going, waits) at h))
    ]
  ]

  pub await_auth_result-Ending :
      (events : List Event) {r : Result AuthHandlerError (Unit {0})} {es : List Effect}
      → await_auth_result network ble events ≡ some (r, es)
      → Ending false false events r es
  unfolding await_auth_result
  await_auth_result-Ending events h = await_from-Ending false false events h
