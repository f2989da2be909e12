-- ===== src/Protocol/Messages.antt =====
-- shared/src/protocol/messages.rs. The clock and the random challenge are arguments.
use tapauth.Prelude.{
  ℕ, String, ◌+◌, ◌-◌, Bool, false, not, ◌&&◌, Option, none, some, [], Result, ok, err, ok_or,
  fail_if, map_err, ◌>>=◌, ◌>>◌, Bytes, ◌==◌, nat_eq, length, leb,
}
use tapauth.Crypto.Crates.{Crates, random_generation_failed, system_time_error}
use tapauth.Crypto.Keys.{Ed25519KeyPair}
use tapauth.Crypto.Signing.{sign_ed25519, verify_ed25519}
use tapauth.Protocol.Message.{
  Codec, WrapperMessage, AuthenticationRequest, AuthenticationGrant, AuthenticationDenial,
  GrantConfirmation, AuthenticationCancel, Payload, auth_grant, ed25519, ProtocolError, crypto,
  invalid_message_format,
}

-- `if challenge.len() != 32 { return Err(InvalidMessageFormat) }`.
abbrev pub check_challenge : Bytes → Result ProtocolError (Unit {0})
check_challenge challenge = fail_if (not (length challenge == 32)) invalid_message_format

abbrev pub max_clock_skew : ℕ
max_clock_skew = 60

unfoldable pub create_auth_request_with_challenge :
    Option ℕ → String → String → Bytes → Result ProtocolError AuthenticationRequest
create_auth_request_with_challenge clock username hostname challenge = do
  check_challenge challenge
  timestamp ← ok_or clock (crypto system_time_error)
  ok (record {
    challenge = challenge;
    username = username;
    hostname = hostname;
    timestamp_unix_seconds = timestamp;
  })

unfoldable pub create_auth_request :
    Option ℕ → Option Bytes → String → String → Result ProtocolError AuthenticationRequest
unfolding create_auth_request_with_challenge
create_auth_request clock random username hostname = do
  challenge ← ok_or random (crypto random_generation_failed)
  create_auth_request_with_challenge clock username hostname challenge

-- `now.saturating_sub(MAX_CLOCK_SKEW)` is subtraction that stops at 0; `now + MAX_CLOCK_SKEW` does
-- not reach 2^64 for a clock of this age of the universe.
unfoldable pub is_request_timestamp_valid : Option ℕ → AuthenticationRequest → Bool
is_request_timestamp_valid none request = false
is_request_timestamp_valid (some now) request =
    leb request.timestamp_unix_seconds (now + max_clock_skew)
    && leb (now - max_clock_skew) request.timestamp_unix_seconds

unfoldable pub create_auth_denial : Bytes → Result ProtocolError AuthenticationDenial
create_auth_denial challenge = do check_challenge challenge; ok (record { challenge = challenge })

unfoldable pub create_grant_confirmation : Bytes → Result ProtocolError GrantConfirmation
create_grant_confirmation challenge = do
  check_challenge challenge
  ok (record { challenge = challenge })

unfoldable pub create_auth_cancel : Bytes → Result ProtocolError AuthenticationCancel
create_auth_cancel challenge = do check_challenge challenge; ok (record { challenge = challenge })

-- The `match &wrapper.payload` of `verify_auth_grant`.
abbrev pub expect_grant : Option Payload → Result ProtocolError AuthenticationGrant
expect_grant (some (auth_grant g)) = ok g
expect_grant _ = err invalid_message_format

module _ (c : Crates) (p : Codec) where
  -- What is signed: the message with an empty signature.
  abbrev pub signed_part : WrapperMessage → Bytes
  signed_part wrapper = p.encode_wrapper (record wrapper { signature = [] })

  unfoldable pub sign_wrapper_message :
      WrapperMessage → Ed25519KeyPair → Result ProtocolError WrapperMessage
  sign_wrapper_message wrapper keypair = do
    let unsigned = record wrapper { signature_algorithm = ed25519; signature = [] }
    ok (record unsigned { signature = sign_ed25519 c keypair (p.encode_wrapper unsigned) })

  unfoldable pub verify_wrapper_signature : WrapperMessage → Bytes → Result ProtocolError (Unit {0})
  verify_wrapper_signature wrapper public_key =
      map_err crypto (verify_ed25519 c public_key (signed_part wrapper) wrapper.signature)

  unfoldable pub create_auth_grant :
      Ed25519KeyPair → Bytes → Result ProtocolError AuthenticationGrant
  create_auth_grant keypair challenge = do
    check_challenge challenge
    ok (record { signed_challenge = sign_ed25519 c keypair challenge })

  unfoldable pub verify_auth_grant :
      WrapperMessage → Bytes → Bytes → Result ProtocolError (Unit {0})
  unfolding verify_wrapper_signature
  verify_auth_grant wrapper challenge server_public_key = do
    check_challenge challenge
    verify_wrapper_signature wrapper server_public_key
    grant ← expect_grant wrapper.payload
    map_err crypto (verify_ed25519 c server_public_key challenge grant.signed_challenge)
