-- ===== src/Phone/Identifiers.antt =====
-- shared/src/jni_api.rs: the identifiers by which a phone knows its client. A time of Java is the
-- number that it is cast to.
use tapauth.Prelude.{
  ℕ, ◌/◌, Bool, Option, Result, err, ◌>>=◌, if◌then◌else◌, Bytes, length, ◌==◌, nat_eq,
}
use tapauth.Crypto.Crates.{Crates}
use tapauth.Crypto.Keys.{ClientSymmetricKey}
use tapauth.Crypto.Temporal.{
  time_window_seconds, generate_temporal_identifier, generate_temporal_identifier_ble,
  verify_temporal_identifier, verify_temporal_identifier_ble,
}
use tapauth.Phone.{Exception, illegal_argument, security, to_fixed, throwing}

module _ (c : Crates) where
  unfoldable pub generate_temporal_id : Bytes → ℕ → Result Exception Bytes
  unfolding to_fixed
  generate_temporal_id csk timestamp_seconds = do
    csk_array ← to_fixed 32 csk
    throwing security (
        generate_temporal_identifier c (record { as_bytes = csk_array })
          (timestamp_seconds / time_window_seconds))

  unfoldable pub generate_temporal_id_ble : Bytes → ℕ → Result Exception Bytes
  unfolding to_fixed
  generate_temporal_id_ble csk timestamp_seconds = do
    csk_array ← to_fixed 32 csk
    throwing security (
        generate_temporal_identifier_ble c (record { as_bytes = csk_array })
          (timestamp_seconds / time_window_seconds))

  -- The two readings of the clock are arguments.
  unfoldable pub verify_temporal_id : Bytes → Bytes → Option ℕ → Option ℕ → Result Exception Bool
  unfolding to_fixed
  verify_temporal_id id csk clock clock' = do
    csk_array ← to_fixed 32 csk
    let key : ClientSymmetricKey = record { as_bytes = csk_array }
    if length id == 16
        then throwing security (verify_temporal_identifier c key clock clock' id)
        else if length id == 10
        then throwing security (verify_temporal_identifier_ble c key clock clock' id)
        else err illegal_argument
