-- ===== src/Daemon/Handle/Transports.antt =====
-- Which transport brought a success of tapauthd/src/auth_handler.rs.
use tapauth.Prelude.{
  ◌≡◌, refl, ◌⊎◌, inl, inr, ℕ, Bool, true, false, ◌&&◌, Option, none, some, List, [], ◌∷◌, ◌++◌, ok,
  Among, first, later, Option-cases, Result-cases, arith,
}
use tapauth.Crypto.Crates.{Crates}
use tapauth.Protocol.Message.{Codec, EncryptedPacket}
use tapauth.Daemon.Auth.Response.{Context}
use tapauth.Daemon.Auth.Loop.{Round, authenticate_with_transport}
use tapauth.Daemon.Auth.Soundness.{GrantedIn, success-GrantedIn}
use tapauth.Daemon.Auth.Race.{
  TaskEnd, returned, Event, ble_done, udp_done, cancelled, Effect, await_auth_result,
}
use tapauth.Daemon.Auth.Race.Outcome.{
  Ending, decided, exhausted, ble_success, udp_success, await_auth_result-Ending,
}
use tapauth.Daemon.Handle.{
  TransportsEnabled, Happening, ble_ends, udp_ends, cancel, World, before, task_end, events,
  prepare, try_parallel_authentication, done,
}

module _ (c : Crates) (p : Codec) where
  task_end-success :
      (on : Bool) (ctx : Context) (packet : EncryptedPacket) (rounds : List Round)
      → task_end c p on ctx packet rounds ≡ some (returned (ok tt))
      → (on ≡ true) × GrantedIn c p ctx packet rounds
  unfolding task_end
  task_end-success false ctx packet rounds h = absurd (ground arith)
  task_end-success true ctx packet rounds h =
      elim (Option-cases (authenticate_with_transport c p ctx packet rounds)) [
        | inl waiting ↦ absurd (ground arith)
        | inr ((result, actions), ended) ↦
            let won : result ≡ ok tt = ground arith in
            (
              refl,
              success-GrantedIn c p ctx packet rounds {actions = actions} (rw (ended, won) refl),
            )
      ]

  -- A transport that is on brought the grant.
  unfoldable pub Brought : TransportsEnabled → World → Context → EncryptedPacket → Type 0
  Brought t w ctx packet =
      ((t.network ≡ true) × GrantedIn c p ctx packet w.udp_rounds)
      ⊎ ((t.ble ≡ true) × GrantedIn c p ctx packet w.ble_rounds)

  done-Among :
      (event : TaskEnd → Event) (end : Option TaskEnd) {e : Event} {rest : List Event}
      → Among e (done c p event end ++ rest)
      → ((x : TaskEnd) × (end ≡ some x) × (e ≡ event x)) ⊎ Among e rest
  unfolding done
  done-Among event none there = inr there
  done-Among event (some x) (first same) = inl (x, refl, same)
  done-Among event (some x) (later there) = inr there

  -- Where an event of the race comes from.
  data Source (t : TransportsEnabled) (w : World) (ctx : Context) (packet : EncryptedPacket)
      (e : Event) : Type 0 where
    of_cancel : e ≡ cancelled → Source t w ctx packet e
    of_udp :
        (x : TaskEnd)
        → task_end c p t.network ctx packet w.udp_rounds ≡ some x
        → e ≡ udp_done x
        → Source t w ctx packet e
    of_ble :
        (x : TaskEnd)
        → task_end c p (t.ble && w.ble_comes_up) ctx packet w.ble_rounds ≡ some x
        → e ≡ ble_done x
        → Source t w ctx packet e

  events-Source :
      (t : TransportsEnabled) (w : World) (ctx : Context) (packet : EncryptedPacket)
      (hs : List Happening) {e : Event}
      → Among e (events c p t w ctx packet hs)
      → Source t w ctx packet e
  unfolding events
  events-Source t w ctx packet [] there = elim there [ ]
  events-Source t w ctx packet (cancel ∷ hs) (first same) = of_cancel same
  events-Source t w ctx packet (cancel ∷ hs) (later there) = events-Source t w ctx packet hs there
  events-Source t w ctx packet (ble_ends ∷ hs) there =
      elim (done-Among ble_done (task_end c p (t.ble && w.ble_comes_up) ctx packet w.ble_rounds)
        there) [
          | inl (x, ended, same) ↦ of_ble x ended same
          | inr after ↦ events-Source t w ctx packet hs after
        ]
  events-Source t w ctx packet (udp_ends ∷ hs) there =
      elim (done-Among udp_done (task_end c p t.network ctx packet w.udp_rounds) there) [
        | inl (x, ended, same) ↦ of_udp x ended same
        | inr after ↦ events-Source t w ctx packet hs after
      ]

  Source-udp :
      (t : TransportsEnabled) (w : World) (ctx : Context) (packet : EncryptedPacket)
      → Source t w ctx packet (udp_done (returned (ok tt)))
      → Brought t w ctx packet
  unfolding Brought
  Source-udp t w ctx packet (of_cancel same) = cc
  Source-udp t w ctx packet (of_ble x ended same) = cc
  Source-udp t w ctx packet (of_udp x ended same) =
      let is : x ≡ returned (ok tt) = ground arith in
      inl (task_end-success t.network ctx packet w.udp_rounds (rw (ended, is) refl))

  Source-ble :
      (t : TransportsEnabled) (w : World) (ctx : Context) (packet : EncryptedPacket)
      → Source t w ctx packet (ble_done (returned (ok tt)))
      → Brought t w ctx packet
  unfolding Brought
  Source-ble t w ctx packet (of_cancel same) = cc
  Source-ble t w ctx packet (of_udp x ended same) = cc
  Source-ble t w ctx packet (of_ble x ended same) =
      let is : x ≡ returned (ok tt) = ground arith in
      let (on, granted) =
        task_end-success (t.ble && w.ble_comes_up) ctx packet w.ble_rounds (rw (ended, is) refl) in
      inr (ground arith, granted)

  Ending-Brought :
      (t : TransportsEnabled) (w : World) (ctx : Context) (packet : EncryptedPacket)
      (hs : List Happening) {effects : List Effect}
      → Ending t.network
          (t.ble && w.ble_comes_up)
          false
          false
          (events c p t w ctx packet hs)
          (ok tt)
          effects
      → Brought t w ctx packet
  Ending-Brought t w ctx packet hs (exhausted _ _ e _) = cc
  Ending-Brought t w ctx packet hs (decided _ there ble_success) =
      Source-ble t w ctx packet (events-Source t w ctx packet hs there)
  Ending-Brought t w ctx packet hs (decided _ there udp_success) =
      Source-udp t w ctx packet (events-Source t w ctx packet hs there)

  pub try_parallel-Brought :
      (t : TransportsEnabled) (w : World) (ctx : Context) (packet : EncryptedPacket) (deadline : ℕ)
      → try_parallel_authentication c p t w ctx packet deadline ≡ some (ok tt)
      → Brought t w ctx packet
  unfolding try_parallel_authentication
  try_parallel-Brought t w ctx packet deadline h = elim (Result-cases (prepare c p w ctx)) [
    | inr (e, failed) ↦ absurd (ground arith)
    | inl (q, prepared) ↦
        let hs = before deadline w.happenings in
        elim (Option-cases
          (await_auth_result t.network (t.ble && w.ble_comes_up) (events c p t w ctx packet hs))) [
            | inl waiting ↦ absurd (ground arith)
            | inr ((result, effects), ended) ↦
                let won : result ≡ ok tt = ground arith in
                Ending-Brought t w ctx packet hs (
                  await_auth_result-Ending t.network (t.ble && w.ble_comes_up)
                    (events c p t w ctx packet hs) {es = effects} (rw (ended, won) refl))
          ]
  ]
