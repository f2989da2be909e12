-- ===== src/Crypto/Temporal/Window.antt =====
-- How long shared/src/crypto/temporal.rs accepts an identifier that it made.
use tapauth.Prelude.{
  ap, ok_or, get_to, ◌≢◌, false, ◌≡◌, refl, ℕ, ◌+◌, ◌-◌, ◌/◌, ◌≤◌, true, some, ok, Bytes, length,
  take, ◌==◌, bytes_eq, nat_eq, Bool-cases, inl, inr, arith, to_be_bytes,
}
use tapauth.Crypto.Crates.{Crates, CrateLaws, key_derivation_failed}
use tapauth.Crypto.Keys.{ClientSymmetricKey}
use tapauth.Crypto.Temporal.{
  current_time_window, identifier_of_width, previous_of_width, verify_of_width,
  generate_temporal_identifier, generate_temporal_identifier_ble,
  generate_current_temporal_identifier, generate_current_temporal_identifier_ble,
  verify_temporal_identifier, verify_temporal_identifier_ble,
}

get_to-take :
    (width n : ℕ) (bytes : Bytes)
    → length bytes ≡ n
    → width ≤ n
    → get_to width bytes ≡ some (take width bytes)
get_to-take width n bytes sized fits = ground arith

module _ (c : Crates) (laws : CrateLaws c) where
  -- An identifier can be made for every window.
  identifier-made :
      (width : ℕ) (csk : ClientSymmetricKey) (window : ℕ)
      → width ≤ 32
      → (identifier : Bytes) × (identifier_of_width c width csk window ≡ ok identifier)
  unfolding identifier_of_width
  identifier-made width csk window fits =
      let (mac, made, sized) = laws.hmac_total csk.as_bytes (to_be_bytes 8 window) in
      (
        take width mac,
        rw made (ap (λ o. ok_or o key_derivation_failed) (get_to-take width 32 mac sized fits)),
      )

  accepts-current :
      (width : ℕ) (csk : ClientSymmetricKey) (now now' : ℕ) (identifier : Bytes)
      → identifier_of_width c width csk (now / 60) ≡ ok identifier
      → verify_of_width c width csk (some now) (some now') identifier ≡ ok true
  unfolding verify_of_width current_time_window
  accepts-current width csk now now' identifier made =
      rw (verify_of_width, made, (bytes_eq.beq_iff identifier identifier).1 refl) refl

  previous-made :
      (width : ℕ) (csk : ClientSymmetricKey) (window now : ℕ) (identifier : Bytes)
      → now / 60 ≡ window + 1
      → identifier_of_width c width csk window ≡ ok identifier
      → previous_of_width c width csk (some now) ≡ ok identifier
  unfolding previous_of_width current_time_window
  previous-made width csk window now identifier next made =
      let positive : (window + 1 == 0) ≡ false = ground arith in
      let before : window + 1 - 1 ≡ window = omega arith in
      rw (previous_of_width, next, positive, before) made

  accepts-previous :
      (width : ℕ) (csk : ClientSymmetricKey) (window now now' : ℕ) (identifier : Bytes)
      → width ≤ 32
      → now' / 60 ≡ window + 1
      → identifier_of_width c width csk window ≡ ok identifier
      → verify_of_width c width csk (some now) (some now') identifier ≡ ok true
  unfolding verify_of_width current_time_window
  accepts-previous width csk window now now' identifier fits next made =
      let (current, is_current) = identifier-made width csk (now / 60) fits in
      let is_previous = previous-made width csk window now' identifier next made in
      let same = (bytes_eq.beq_iff identifier identifier).1 refl in
      elim (Bool-cases (identifier == current)) [
        | inl matches ↦ rw (verify_of_width, is_current, matches) refl
        | inr differs ↦ rw (verify_of_width, is_current, differs, is_previous, same) refl
      ]

  accepts-young :
      (width : ℕ) (csk : ClientSymmetricKey) (made_at now now' : ℕ) (identifier : Bytes)
      → width ≤ 32
      → made_at ≤ now
      → now ≤ now'
      → now' ≤ made_at + 60
      → identifier_of_width c width csk (made_at / 60) ≡ ok identifier
      → verify_of_width c width csk (some now) (some now') identifier ≡ ok true
  accepts-young width csk made_at now now' identifier fits before between young made =
      elim (Bool-cases (now / 60 == made_at / 60)) [
        | inl same_window ↦
            let same : now / 60 ≡ made_at / 60 =
              (nat_eq.beq_iff (now / 60) (made_at / 60)).0 same_window in
            accepts-current width csk now now' identifier (rw same made)
        | inr other_window ↦
            let other : now / 60 ≢ made_at / 60 =
              λ e. absurd (ground (arith, (nat_eq.beq_iff (now / 60) (made_at / 60)).1 e)) in
            accepts-previous width csk (made_at / 60) now now' identifier fits (omega arith) made
      ]

  -- The identifiers of 16 bytes and of the 10 of BLE that are made at some time are accepted under
  -- the same key by a test that reads its clock twice, the later time at most 60 seconds after.
  pub verify_temporal_identifier-young :
      (csk : ClientSymmetricKey) (made_at now now' : ℕ) (identifier identifier_ble : Bytes)
      → made_at ≤ now
      → now ≤ now'
      → now' ≤ made_at + 60
      → generate_current_temporal_identifier c csk (some made_at) ≡ ok identifier
      → generate_current_temporal_identifier_ble c csk (some made_at) ≡ ok identifier_ble
      → (verify_temporal_identifier c csk (some now) (some now') identifier ≡ ok true)
        × (verify_temporal_identifier_ble c csk (some now) (some now') identifier_ble ≡ ok true)
  unfolding generate_current_temporal_identifier generate_current_temporal_identifier_ble
      verify_temporal_identifier verify_temporal_identifier_ble current_time_window
      generate_temporal_identifier generate_temporal_identifier_ble
  verify_temporal_identifier-young csk made_at now now' identifier identifier_ble before between
        young made made_ble =
      (
        accepts-young 16 csk made_at now now' identifier (omega arith) before between young made,
        accepts-young 10 csk made_at now now' identifier_ble (omega arith) before between young
            made_ble,
      )
