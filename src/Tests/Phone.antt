-- ===== src/Tests/Phone.antt =====
-- Runs of the phone's functions against the daemon.
use tapauth.Prelude.{
  ◌≡◌, refl, ℕ, true, Option, none, some, List, [], ◌∷◌, ◌++◌, ok, Bytes, length, take, drop, first,
  take-length-append, drop-length-append, arith,
}
use tapauth.Crypto.Signing.{sign_ed25519}
use tapauth.Crypto.Temporal.{generate_current_temporal_identifier}
use tapauth.Crypto.Encryption.{encrypt_with_csk_and_random_nonce}
use tapauth.Protocol.Message.{
  Codec, WrapperMessage, AuthenticationRequest, auth_request, EncryptedPacket,
}
use tapauth.Protocol.Messages.{create_auth_request_with_challenge, sign_wrapper_message}
use tapauth.Protocol.Packet.{
  wrap_auth_request, wrap_auth_grant, create_encrypted_packet_with_csk_nonce,
}
use tapauth.Daemon.Auth.Response.{response, nothing, Action}
use tapauth.Daemon.Auth.Loop.{Round, authenticate_with_transport}
use tapauth.Phone.Keys.{sign_data, verify_signature}
use tapauth.Phone.Messages.{
  PacketCodec, Signed, create_grant_wrapper_message, create_encrypted_packet,
  decrypt_encrypted_packet, parse_auth_request, serialize_auth_request_for_verification,
}
use tapauth.Phone.Approval.{approval-succeeds}
use tapauth.Phone.Request.{verify_signature-create_request}
use tapauth.Tests.Toy.{
  crates, crates-laws, codec, ctx, csk, nonce, challenge, phone, grant, packed, fit,
}

abbrev seed : Bytes
seed = fit 32 (7 ∷ 7 ∷ [])

-- The length of the identifier, the algorithm, and the bytes of both fields.
abbrev decode_packet : Bytes → Option EncryptedPacket
decode_packet (n ∷ algorithm ∷ b) = some (record {
  temporal_identifier = take n b;
  encryption_algorithm = algorithm;
  ciphertext = drop n b;
})
decode_packet _ = none

abbrev packets : PacketCodec
packets = record {
  encode = λ m.
      length m.temporal_identifier ∷ m.encryption_algorithm ∷ m.temporal_identifier ++ m.ciphertext;
  decode = decode_packet;
}

packets-carry : (m : EncryptedPacket) → packets.decode (packets.encode m) ≡ some m
packets-carry m =
    rw
      (
        take-length-append m.temporal_identifier m.ciphertext (length m.temporal_identifier) refl,
        drop-length-append m.temporal_identifier m.ciphertext (length m.temporal_identifier) refl,
      )
      refl

abbrev arrived : EncryptedPacket
arrived = record {
  temporal_identifier = fit 16 csk.as_bytes;
  encryption_algorithm = 1;
  ciphertext = (packed grant).ciphertext;
}

abbrev round : ℕ → Round
round t = record { elapsed = t; sent = ok tt; received = ok nothing; clock = none; random = none }

abbrev granting : Round
granting = record (round 400) { received = ok (response arrived "phone") }

approval-succeeds_example :
    (signed_challenge message : Bytes) × (actions : List Action) × (sign_data crates seed challenge
      ≡ ok signed_challenge)
    × (create_grant_wrapper_message crates codec signed_challenge seed ≡ ok message)
    × (message ≡ codec.encode_wrapper grant)
    × (authenticate_with_transport crates codec ctx (packed grant) ((round 0 ∷ []) ++ granting ∷ [])
        ≡ some (ok tt, actions))
unfolding sign_wrapper_message sign_ed25519 wrap_auth_grant create_encrypted_packet
    generate_current_temporal_identifier
approval-succeeds_example =
    approval-succeeds crates codec packets crates-laws ctx (packed grant) seed grant (some 600)
      nonce (packets.encode arrived) arrived "phone" (round 0 ∷ []) granting [] packets-carry refl
      refl refl refl
      (record { server = phone; is_paired = first refl; is_key = refl; key_length = refl }) refl
      refl refl refl
      (record { is_open = record { in_time = omega arith; was_sent = refl }; silent = refl }, tt)
      (record { in_time = omega arith; was_sent = refl }) refl

-- A codec for the request of one user on one host.
abbrev request_codec : Codec
request_codec = record codec {
  decode_wrapper = λ b. some (record {
    version = 1;
    signature_algorithm = 1;
    signature = take 64 b;
    payload = some (
        auth_request (record {
          challenge = drop 65 b;
          username = "alice";
          hostname = "laptop";
          timestamp_unix_seconds = 600;
        }));
  });
}

abbrev request : AuthenticationRequest
request = record {
  challenge = challenge;
  username = "alice";
  hostname = "laptop";
  timestamp_unix_seconds = 600;
}

abbrev signed_request : WrapperMessage
signed_request = record {
  version = 1;
  signature_algorithm = 1;
  signature = fit 64 (fit 32 (4 ∷ []) ++ (fit 64 [] ++ 1 ∷ challenge));
  payload = some (auth_request request);
}

abbrev sent : EncryptedPacket
sent = record {
  temporal_identifier = fit 16 csk.as_bytes;
  encryption_algorithm = 1;
  ciphertext =
      nonce ++ (fit 16 (csk.as_bytes ++ nonce) ++ request_codec.encode_wrapper signed_request);
}

verify_signature-create_request_example :
    (message : Bytes) × (r : Signed AuthenticationRequest) × (decrypt_encrypted_packet crates
        packets csk.as_bytes
        (packets.encode sent)
      ≡ ok message)
    × (parse_auth_request request_codec message ≡ ok r)
    × (r.content.challenge ≡ challenge)
    × (r.content.username ≡ "alice")
    × (r.content.hostname ≡ "laptop")
    × (verify_signature crates
          (crates.ed25519_public (4 ∷ []))
          (serialize_auth_request_for_verification request_codec r.content.challenge
            r.content.username r.content.hostname r.content.timestamp_unix_seconds
            r.signature_algorithm)
          r.signature
        ≡ ok true)
unfolding create_auth_request_with_challenge sign_wrapper_message wrap_auth_request
    create_encrypted_packet_with_csk_nonce sign_ed25519 generate_current_temporal_identifier
    encrypt_with_csk_and_random_nonce
verify_signature-create_request_example =
    verify_signature-create_request crates request_codec packets crates-laws (4 ∷ []) nonce
      challenge csk (some 600) "alice" "laptop" request signed_request sent refl refl refl refl refl
      refl refl
