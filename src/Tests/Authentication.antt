-- ===== src/Tests/Authentication.antt =====
-- Runs of one attempt of tapauthd/src/auth_handler.rs over one transport.
use tapauth.Prelude.{
  String, arith, ◌≡◌, refl, ◌++◌, ℕ, none, some, List, [], ◌∷◌, Result, ok, err, Among, first,
  later,
}
use tapauth.Crypto.Signing.{verify_ed25519}
use tapauth.Crypto.Encryption.{decrypt_with_csk_and_prepended_nonce, open_prepended}
use tapauth.Protocol.Message.{WrapperMessage, EncryptedPacket, ProtocolError}
use tapauth.Protocol.Messages.{verify_wrapper_signature, verify_auth_grant}
use tapauth.Protocol.Packet.{decrypt_encrypted_packet_with_csk_nonce}
use tapauth.Daemon.Auth.Response.{
  AuthHandlerError, protocol, nothing, response, wait_for_response, examine,
  verify_response_signature, process_auth_response, dispatch, handle_auth_grant, Action,
  send_confirmation_background,
}
use tapauth.Daemon.Auth.Evidence.{KeyHolder, Authentic, Grants}
use tapauth.Daemon.Auth.Loop.{Round, turn, authenticate_with_transport, authenticate_from}
use tapauth.Daemon.Auth.Soundness.{
  Cause, GrantedIn, success-GrantedIn, authenticate_with_transport-Cause,
}
use tapauth.Daemon.Auth.Progress.{
  IsQuiet, BringsGrant, grant-succeeds, authenticate_with_transport_ends,
}
use tapauth.Daemon.Auth.Noise.{unreadable-ends, silence, replay-eq-silence}
use tapauth.Config.Servers.{PairedServer}
use tapauth.Daemon.Auth.Users.{reassigned_context, authenticate_with_transport-reassigned}
use tapauth.Tests.Toy.{crates, codec, ctx, csk, servers, phone, phone_key, grant, granted, packed}

abbrev quiet : ℕ → Round
quiet t = record { elapsed = t; sent = ok tt; received = ok nothing; clock = none; random = none }

abbrev pub brings : ℕ → WrapperMessage → Round
brings t w = record (quiet t) { received = ok (response (packed w) "phone") }

-- Nothing comes, and then the phone's grant.
abbrev pub rounds : List Round
rounds = quiet 0 ∷ brings 400 grant ∷ []

abbrev request : EncryptedPacket
request = packed grant

grant_opens : decrypt_encrypted_packet_with_csk_nonce crates codec csk (packed grant) ≡ ok grant
unfolding decrypt_encrypted_packet_with_csk_nonce decrypt_with_csk_and_prepended_nonce
    open_prepended
grant_opens = refl

run_succeeds :
    (actions : List Action) × (authenticate_with_transport crates codec ctx request rounds
      ≡ some (ok tt, actions))
unfolding decrypt_encrypted_packet_with_csk_nonce decrypt_with_csk_and_prepended_nonce
    open_prepended authenticate_with_transport authenticate_from turn wait_for_response examine
    verify_response_signature process_auth_response dispatch handle_auth_grant verify_auth_grant
    verify_wrapper_signature verify_ed25519 send_confirmation_background
run_succeeds = (_, refl)

success-GrantedIn_example : GrantedIn crates codec ctx request rounds
success-GrantedIn_example =
    success-GrantedIn crates codec ctx request rounds {actions = run_succeeds.0} run_succeeds.1

authenticate_with_transport-Cause_example :
    (r : Round) × Among r rounds × Cause crates codec ctx request r (ok tt)
authenticate_with_transport-Cause_example =
    authenticate_with_transport-Cause crates codec ctx request rounds {result = ok tt}
      {actions = run_succeeds.0} run_succeeds.1

phone-KeyHolder : KeyHolder crates codec servers phone_key
phone-KeyHolder = record {
  server = phone;
  is_paired = first refl;
  is_key = refl;
  key_length = refl;
}

grant-Authentic : Authentic crates codec ctx (ok (response (packed grant) "phone")) grant
grant-Authentic = record {
  packet = packed grant;
  address = "phone";
  was_received = refl;
  decrypts = grant_opens;
  key = phone_key;
  signer = phone-KeyHolder;
  signed = (refl, refl, refl);
}

grant-Grants : Grants crates codec ctx grant
grant-Grants = record {
  key = phone_key;
  granter = phone-KeyHolder;
  is_grant = record {
    grant = granted;
    is_payload = refl;
    challenge_length = refl;
    wrapper_signed = (refl, refl, refl);
    challenge_signed = (refl, refl, refl);
  };
}

quiet-IsQuiet : IsQuiet crates codec ctx request (quiet 0)
quiet-IsQuiet = record {
  is_open = record { in_time = omega arith; was_sent = refl };
  silent = refl;
}

brings-BringsGrant : BringsGrant crates codec ctx request (brings 400 grant)
brings-BringsGrant = record {
  is_open = record { in_time = omega arith; was_sent = refl };
  wrapper = grant;
  authentic = grant-Authentic;
  grants = grant-Grants;
}

grant-succeeds_example :
    (actions : List Action) × (authenticate_with_transport crates codec ctx request
        ((quiet 0 ∷ []) ++ brings 400 grant ∷ [])
      ≡ some (ok tt, actions))
grant-succeeds_example =
    grant-succeeds crates codec ctx request (quiet 0 ∷ []) (brings 400 grant) [] (quiet-IsQuiet, tt)
      brings-BringsGrant

authenticate_with_transport_ends_example :
    (x : Result AuthHandlerError (Unit {0}) × List Action) × (authenticate_with_transport crates
        codec ctx request
        (quiet 0 ∷ quiet 120000 ∷ [])
      ≡ some x)
authenticate_with_transport_ends_example =
    authenticate_with_transport_ends crates codec ctx request (quiet 0 ∷ quiet 120000 ∷ [])
      {r = quiet 120000} (later (first refl)) (omega arith)

-- A packet under another key.
abbrev foreign : EncryptedPacket
foreign = record { temporal_identifier = []; encryption_algorithm = 1; ciphertext = 1 ∷ 2 ∷ [] }

foreign_fails :
    (x : ProtocolError) × (decrypt_encrypted_packet_with_csk_nonce crates codec csk foreign ≡ err x)
unfolding decrypt_encrypted_packet_with_csk_nonce decrypt_with_csk_and_prepended_nonce
    open_prepended
foreign_fails = (_, refl)

abbrev brings_foreign : Round
brings_foreign = record (quiet 400) { received = ok (response foreign "neighbour") }

unreadable-ends_example :
    (actions : List Action) × (authenticate_with_transport crates codec ctx request
        ((quiet 0 ∷ []) ++ brings_foreign ∷ brings 900 grant ∷ [])
      ≡ some (err (protocol foreign_fails.0), actions))
unreadable-ends_example =
    unreadable-ends crates codec ctx request (quiet 0 ∷ []) brings_foreign (brings 900 grant ∷ [])
      foreign "neighbour" foreign_fails.0 (quiet-IsQuiet, tt)
      (record { in_time = omega arith; was_sent = refl }) refl foreign_fails.1

-- The grant without its signature.
abbrev stale : WrapperMessage
stale = record grant { signature = [] }

replay-eq-silence_example :
    authenticate_with_transport crates codec ctx request
      ((brings 0 stale ∷ []) ++ brings 400 stale ∷ brings 900 grant ∷ [])
    ≡ authenticate_with_transport crates codec ctx request (
        (brings 0 stale ∷ [])
        ++ silence crates codec ctx request (brings 400 stale) ∷ brings 900 grant ∷ [])
replay-eq-silence_example =
    replay-eq-silence crates codec ctx request (brings 0 stale ∷ []) (brings 400 stale)
      (brings 900 grant ∷ []) (packed stale) "phone" "phone" {b = brings 0 stale} (first refl) refl
      refl

-- The phone is not allowed for anyone, and its grant still counts.
abbrev nobody : PairedServer → List String
nobody _ = []

authenticate_with_transport-reassigned_example :
    authenticate_with_transport crates codec
      (reassigned_context crates codec nobody ctx)
      request
      rounds
    ≡ authenticate_with_transport crates codec ctx request rounds
authenticate_with_transport-reassigned_example =
    authenticate_with_transport-reassigned crates codec nobody ctx request rounds
