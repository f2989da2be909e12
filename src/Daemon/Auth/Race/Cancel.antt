-- ===== src/Daemon/Auth/Race/Cancel.antt =====
-- A cancel from PAM in the race of tapauthd/src/auth_handler.rs.
use tapauth.Prelude.{
  ◌≡◌, inl, inr, refl, Bool, true, false, some, List, [], ◌∷◌, ◌++◌, err, Among, first, later,
  arith, map, if◌then◌else◌,
}
use tapauth.Daemon.Auth.Response.{denied}
use tapauth.Daemon.Auth.Race.{
  TaskEnd, Event, ble_done, cancelled, Effect, abort_ble, abort_udp, udp_send_cancel, ble_finalize,
  sleep, await, await_from, await_auth_result, handle_cancellation,
}
use tapauth.Daemon.Auth.Race.Outcome.{all_failures, arm-cases}

module _ (network ble : Bool) where
  await_from-cancel :
      (failures : List TaskEnd) (b : Bool) (rest : List Event)
      → all_failures failures ≡ true
      → await_from network ble b false (map ble_done failures ++ (cancelled ∷ rest))
        ≡ some (err denied, handle_cancellation network ble)
  unfolding await_from
  await_from-cancel [] true rest h = refl
  await_from-cancel [] false rest h = refl
  await_from-cancel (end ∷ failures) true rest h =
      await_from-cancel failures true rest (ground arith)
  await_from-cancel (end ∷ failures) false rest h =
      elim (arm-cases network ble abort_udp (await true false) end) [
        | inl won ↦ absurd (ground arith)
        | inr (inl refused) ↦ absurd (ground arith)
        | inr (inr (same, _)) ↦
            rw (await_from, same) (await_from-cancel failures true rest (ground arith))
      ]

  Among-append : {e : Effect} (xs ys : List Effect) → Among e ys → Among e (xs ++ ys)
  Among-append [] ys there = there
  Among-append (x ∷ xs) ys there = later (Among-append xs ys there)

  handle_cancellation-effects :
      Among abort_ble (handle_cancellation network ble)
      × Among abort_udp (handle_cancellation network ble)
      × (network ≡ true → Among udp_send_cancel (handle_cancellation network ble))
      × (ble ≡ true → Among ble_finalize (handle_cancellation network ble))
  unfolding handle_cancellation
  handle_cancellation-effects =
      let aborts : List Effect = sleep 100 ∷ abort_ble ∷ abort_udp ∷ [] in
      let finalizes : List Effect = if ble then ble_finalize ∷ [] else [] in
      let cancels : List Effect = if network then udp_send_cancel ∷ [] else [] in
      (
        Among-append cancels (finalizes ++ aborts)
            (Among-append finalizes aborts (later (first refl))),
        Among-append cancels (finalizes ++ aborts)
            (Among-append finalizes aborts (later (later (first refl)))),
        λ on. rw on (first refl),
        λ on. Among-append cancels (finalizes ++ aborts) (rw on (first refl)),
      )

  -- A cancel from PAM still ends the race after the BLE transport has failed or panicked: the
  -- result is a denial, both tasks are aborted, the cancel packet is multicast where the network is
  -- enabled, and a BLE transport that is there is finalized.
  pub cancel-after_failures :
      (failures : List TaskEnd) (rest : List Event)
      → all_failures failures ≡ true
      → (effects : List Effect) × (await_auth_result network ble
            (map ble_done failures ++ (cancelled ∷ rest))
          ≡ some (err denied, effects))
        × Among abort_ble effects
        × Among abort_udp effects
        × (network ≡ true → Among udp_send_cancel effects)
        × (ble ≡ true → Among ble_finalize effects)
  unfolding await_auth_result
  cancel-after_failures failures rest h =
      let (a, b, c, d) = handle_cancellation-effects in
      (handle_cancellation network ble, await_from-cancel failures false rest h, a, b, c, d)
