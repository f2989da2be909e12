-- ===== src/Daemon/Auth/Response.antt =====
-- tapauthd/src/auth_handler.rs: what is done with one response packet, from `wait_for_response` to
-- `send_confirmation_background`. Randomness and the clock are arguments.
use tapauth.Prelude.{
  ℕ, String, Bool, false, not, ◌&&◌, Option, none, some, List, [], ◌∷◌, ◌++◌, Result, ok, err,
  map_err, is_ok, ◌>>=◌, if◌then◌else◌, Bytes, ◌==◌, nat_eq, bytes_eq, length, any, contains, Map,
  values,
}
use tapauth.Crypto.Crates.{Crates, CryptoError}
use tapauth.Crypto.Keys.{Ed25519KeyPair, ClientSymmetricKey}
use tapauth.Config.Servers.{PairedServer}
use tapauth.Protocol.Message.{
  Codec, WrapperMessage, Payload, auth_grant, auth_denial, EncryptedPacket, ProtocolError,
}
use tapauth.Protocol.Messages.{
  sign_wrapper_message, verify_wrapper_signature, verify_auth_grant, create_grant_confirmation,
}
use tapauth.Protocol.Packet.{
  wrap_grant_confirmation, create_encrypted_packet_with_csk_nonce,
  decrypt_encrypted_packet_with_csk_nonce,
}

-- `#[from]` errors of other modules that no branch reads carry no payload here.
pub data AuthHandlerError : Type 0 where
  config network timeout denied explicit_denial no_paired_devices : AuthHandlerError
  transport_disabled : AuthHandlerError
  protocol : ProtocolError → AuthHandlerError
  crypto : CryptoError → AuthHandlerError
  ble_error : String → AuthHandlerError

-- transport/types.rs: `Timeout`, or a packet with its sender's address.
pub data ReceiveResult : Type 0 where
  nothing : ReceiveResult
  response : EncryptedPacket → String → ReceiveResult

-- `ResponseError::InvalidMessage` is the only error of `process_auth_response`.
pub data ResponseError : Type 0 where
  invalid_message : ResponseError

-- A call of the transport.
pub data TransportCall : Type 0 where
  send_request send_confirmation : EncryptedPacket → TransportCall
  receive_response : ℕ → TransportCall
  finalize : TransportCall

-- What an attempt does, in order: a call that it waits for, or a background task of calls.
pub data Action : Type 0 where
  call : TransportCall → Action
  spawn : List TransportCall → Action

abbrev pub Servers : Type 0
Servers = Map String PairedServer

-- `temporal_identifier` followed by the ciphertext.
abbrev pub fingerprint : EncryptedPacket → Bytes
fingerprint packet = packet.temporal_identifier ++ packet.ciphertext

abbrev pub Processed : Type 0
Processed = Result ResponseError (Result AuthHandlerError (Unit {0})) × List Action

-- What an attempt keeps fixed: the challenge, the keys and the paired servers.
pub record Context : Type 0 where
  pub challenge : Bytes
  pub keypair : Ed25519KeyPair
  pub csk : ClientSymmetricKey
  pub servers : Servers

module _ (c : Crates) (p : Codec) where
  -- `hex::decode(&server.public_key)` of 32 bytes, put to a check of that key.
  abbrev pub with_key : (Bytes → Bool) → PairedServer → Bool
  with_key check server = elim (c.hex_decode server.public_key) [
    | none ↦ false
    | some key ↦ length key == 32 && check key
  ]

  unfoldable pub verify_response_signature : WrapperMessage → Servers → Bool
  verify_response_signature wrapper servers =
      any (with_key (λ key. is_ok (verify_wrapper_signature c p wrapper key))) (values servers)

  -- A packet that was not seen before.
  unfoldable pub examine :
      ClientSymmetricKey
      → Servers
      → EncryptedPacket
      → String
      → Result AuthHandlerError (Option (WrapperMessage × String))
  examine csk servers packet address = do
    wrapper ← map_err protocol (decrypt_encrypted_packet_with_csk_nonce c p csk packet)
    ok (if verify_response_signature wrapper servers then some (wrapper, address) else none)

  -- The nonce cache is returned with the result; `none` is to keep waiting.
  unfoldable pub wait_for_response :
      ClientSymmetricKey
      → Servers
      → List Bytes
      → Result AuthHandlerError ReceiveResult
      → Result AuthHandlerError (Option (WrapperMessage × String)) × List Bytes
  wait_for_response csk servers cache (err e) = (err e, cache)
  wait_for_response csk servers cache (ok nothing) = (ok none, cache)
  wait_for_response csk servers cache (ok (response packet address)) =
      if contains cache (fingerprint packet)
      then (ok none, cache)
      else (examine csk servers packet address, fingerprint packet ∷ cache)

  -- Three sends, 150 ms apart, whose results are ignored, and the transport is torn down.
  abbrev pub confirmation_task : EncryptedPacket → List TransportCall
  confirmation_task packet =
      send_confirmation packet ∷ send_confirmation packet ∷ send_confirmation packet ∷ finalize ∷ []

  confirmation_packet : Option ℕ → Option Bytes → Context → Result ProtocolError EncryptedPacket
  confirmation_packet clock random ctx = do
    confirmation ← create_grant_confirmation ctx.challenge
    wrapper ← sign_wrapper_message c p (wrap_grant_confirmation confirmation) ctx.keypair
    create_encrypted_packet_with_csk_nonce c p clock random ctx.csk wrapper

  -- A failure to make the packet is logged, and nothing is sent.
  unfoldable pub send_confirmation_background : Option ℕ → Option Bytes → Context → List Action
  unfolding confirmation_packet
  send_confirmation_background clock random ctx = elim (confirmation_packet clock random ctx) [
    | ok packet ↦ spawn (confirmation_task packet) ∷ []
    | err e ↦ []
  ]

  unfoldable pub handle_auth_grant : Option ℕ → Option Bytes → Context → WrapperMessage → Processed
  handle_auth_grant clock random ctx wrapper =
      let valid =
        any (with_key (λ key. is_ok (verify_auth_grant c p wrapper ctx.challenge key)))
          (values ctx.servers) in
      if valid
      then (ok (ok tt), send_confirmation_background clock random ctx)
      else (err invalid_message, [])

  unfoldable pub denial : Option ℕ → Option Bytes → Context → Option Payload → Processed
  denial clock random ctx (some (auth_denial d)) =
      if not (d.challenge == ctx.challenge)
      then (err invalid_message, [])
      else (ok (err explicit_denial), send_confirmation_background clock random ctx)
  denial clock random ctx _ = (err invalid_message, [])

  unfoldable pub handle_auth_denial : Option ℕ → Option Bytes → Context → WrapperMessage → Processed
  unfolding denial
  handle_auth_denial clock random ctx wrapper = denial clock random ctx wrapper.payload

  unfoldable pub dispatch :
      Option ℕ → Option Bytes → Context → WrapperMessage → Option Payload → Processed
  unfolding handle_auth_grant handle_auth_denial
  dispatch clock random ctx wrapper (some (auth_grant g)) =
      handle_auth_grant clock random ctx wrapper
  dispatch clock random ctx wrapper (some (auth_denial d)) =
      handle_auth_denial clock random ctx wrapper
  dispatch clock random ctx wrapper _ = (err invalid_message, [])

  unfoldable pub process_auth_response :
      Option ℕ → Option Bytes → Context → WrapperMessage → Processed
  unfolding dispatch
  process_auth_response clock random ctx wrapper = dispatch clock random ctx wrapper wrapper.payload
