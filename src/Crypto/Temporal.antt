-- ===== src/Crypto/Temporal.antt =====
-- shared/src/crypto/temporal.rs. The clock is an argument, read anew wherever the code reads it:
-- `none` is a clock before 1970, `some t` is `t` seconds after.
pub mod Window
use tapauth.Prelude.{
  ℕ, ◌-◌, ◌/◌, Bool, true, Option, Result, ok, ok_or, fail_if, ◌>>=◌, ◌>>◌, if◌then◌else◌, Bytes,
  ◌==◌, bytes_eq, nat_eq, to_be_bytes, get_to,
}
use tapauth.Crypto.Crates.{Crates, CryptoError, key_derivation_failed, system_time_error}
use tapauth.Crypto.Keys.{ClientSymmetricKey}

abbrev pub time_window_seconds : ℕ
time_window_seconds = 60

unfoldable pub current_time_window : Option ℕ → Result CryptoError ℕ
current_time_window clock = do now ← ok_or clock system_time_error; ok (now / time_window_seconds)

module _ (c : Crates) where
  -- The common body of the two widths: 16 bytes on the network, 10 over BLE.
  identifier_of_width : ℕ → ClientSymmetricKey → ℕ → Result CryptoError Bytes
  identifier_of_width width csk window = do
    bytes ← ok_or (c.hmac_sha256 csk.as_bytes (to_be_bytes 8 window)) key_derivation_failed
    ok_or (get_to width bytes) key_derivation_failed

  previous_of_width : ℕ → ClientSymmetricKey → Option ℕ → Result CryptoError Bytes
  unfolding current_time_window identifier_of_width
  previous_of_width width csk clock = do
    window ← current_time_window clock
    fail_if (window == 0) key_derivation_failed
    identifier_of_width width csk (window - 1)

  verify_of_width : ℕ → ClientSymmetricKey → Option ℕ → Option ℕ → Bytes → Result CryptoError Bool
  unfolding current_time_window identifier_of_width previous_of_width
  verify_of_width width csk clock clock' identifier = do
    window ← current_time_window clock
    current ← identifier_of_width width csk window
    if identifier == current
        then ok true
        else previous_of_width width csk clock' >>= λ previous. ok (identifier == previous)

  unfoldable pub generate_temporal_identifier : ClientSymmetricKey → ℕ → Result CryptoError Bytes
  unfolding identifier_of_width
  generate_temporal_identifier = identifier_of_width 16

  unfoldable pub generate_temporal_identifier_ble :
      ClientSymmetricKey → ℕ → Result CryptoError Bytes
  unfolding identifier_of_width
  generate_temporal_identifier_ble = identifier_of_width 10

  unfoldable pub generate_current_temporal_identifier :
      ClientSymmetricKey → Option ℕ → Result CryptoError Bytes
  unfolding current_time_window generate_temporal_identifier
  generate_current_temporal_identifier csk clock = do
    window ← current_time_window clock
    generate_temporal_identifier csk window

  unfoldable pub generate_current_temporal_identifier_ble :
      ClientSymmetricKey → Option ℕ → Result CryptoError Bytes
  unfolding current_time_window generate_temporal_identifier_ble
  generate_current_temporal_identifier_ble csk clock = do
    window ← current_time_window clock
    generate_temporal_identifier_ble csk window

  unfoldable pub generate_previous_temporal_identifier :
      ClientSymmetricKey → Option ℕ → Result CryptoError Bytes
  unfolding previous_of_width
  generate_previous_temporal_identifier = previous_of_width 16

  unfoldable pub generate_previous_temporal_identifier_ble :
      ClientSymmetricKey → Option ℕ → Result CryptoError Bytes
  unfolding previous_of_width
  generate_previous_temporal_identifier_ble = previous_of_width 10

  -- The first clock reading is for the current window, the second for the previous one.
  unfoldable pub verify_temporal_identifier :
      ClientSymmetricKey → Option ℕ → Option ℕ → Bytes → Result CryptoError Bool
  unfolding verify_of_width
  verify_temporal_identifier = verify_of_width 16

  unfoldable pub verify_temporal_identifier_ble :
      ClientSymmetricKey → Option ℕ → Option ℕ → Bytes → Result CryptoError Bool
  unfolding verify_of_width
  verify_temporal_identifier_ble = verify_of_width 10
