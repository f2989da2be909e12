-- ===== src/Tests/Daemon.antt =====
-- Runs of the daemon from a request to its answer.
use tapauth.Prelude.{
  Among, List, codes, ◌≡◌, refl, ◌++◌, map, ℕ, String, true, false, none, some, List, [], ◌∷◌, ok,
  err, any, ◌==◌, string_eq,
}
use tapauth.Crypto.Signing.{sign_ed25519, verify_ed25519}
use tapauth.Crypto.Temporal.{
  current_time_window, generate_temporal_identifier, generate_current_temporal_identifier,
  generate_temporal_identifier_ble, generate_current_temporal_identifier_ble,
}
use tapauth.Crypto.Encryption.{
  encrypt_with_csk_and_random_nonce, seal_prepending, decrypt_with_csk_and_prepended_nonce,
  open_prepended,
}
use tapauth.Protocol.Messages.{
  create_auth_request_with_challenge, create_auth_cancel, sign_wrapper_message,
  verify_wrapper_signature, verify_auth_grant,
}
use tapauth.Protocol.Packet.{
  wrap_auth_request, wrap_auth_cancel, create_encrypted_packet_with_csk_nonce,
  decrypt_encrypted_packet_with_csk_nonce,
}
use tapauth.Daemon.Auth.Response.{
  denied, transport_disabled, wait_for_response, examine, verify_response_signature,
  process_auth_response, dispatch, handle_auth_grant, send_confirmation_background,
}
use tapauth.Daemon.Auth.Loop.{turn, authenticate_from, authenticate_with_transport}
use tapauth.Daemon.Auth.Race.{
  Effect, abort_ble, abort_udp, udp_send_cancel, ble_finalize, TaskEnd, returned, panicked, Event,
  ble_done, udp_done, cancelled, Effect, await_from, await_auth_result, multicast_cancel_on_success,
}
use tapauth.Daemon.Auth.Race.Cancel.{cancel-after_failures}
use tapauth.Daemon.State.{DaemonState, Loads, new, is_healthy, IsConsistent}
use tapauth.Daemon.Handle.{
  PamAuthenticateResponse, success, AuthSession, World, ble_ends, udp_ends, create_cancel_packet,
  create_request_packet, task_end, events, try_parallel_authentication, attempt,
  handle_authenticate,
}
use tapauth.Daemon.Handle.Access.{Authenticated, handle_authenticate-success}
use tapauth.Config.Manager.{System}
use tapauth.Daemon.Admin.Pairing.{start}
use tapauth.Daemon.Admin.Dispatch.{
  remove_device, AdminState, handle_admin_request, handle_admin_request-IsConsistent,
}
use tapauth.Daemon.Requests.{admit_request, admitted, admitted-spaced}
use tapauth.Config.Servers.{is_user_allowed}
use tapauth.Tests.Toy.{crates, codec, csk, keypair, servers, challenge, nonce}
use tapauth.Tests.Authentication.{rounds}

abbrev events_in_order : List Event
events_in_order = ble_done panicked ∷ udp_done (returned (ok tt)) ∷ cancelled ∷ []

abbrev failures : List TaskEnd
failures = returned (err transport_disabled) ∷ []

cancel-after_failures_example :
    (effects : List Effect) × (await_auth_result true false
        (map ble_done failures ++ (cancelled ∷ []))
      ≡ some (err denied, effects))
    × Among abort_ble effects
    × Among abort_udp effects
    × (true ≡ true → Among udp_send_cancel effects)
    × (false ≡ true → Among ble_finalize effects)
cancel-after_failures_example = cancel-after_failures true false failures [] refl

abbrev state : DaemonState
state = record {
  paired_servers = servers;
  keypair = some keypair;
  csk = some csk;
  hostname = "desk";
  init_error = none;
}

abbrev broken_loads : Loads
broken_loads = record {
  load_keypair = err "sealed";
  load_csk = ok csk;
  load_paired_servers = ok servers;
  load_config = ok "desk";
}

started : (s : DaemonState) × (new broken_loads ≡ ok s)
unfolding new
started = (_, refl)

abbrev session : AuthSession
session = record {
  state = state;
  username = "alice";
  challenge = challenge;
  transports = record { network = true; ble = false };
}

abbrev world : World
world = record {
  clock = some 600;
  request_nonce = some nonce;
  cancel_nonce = some nonce;
  ble_comes_up = false;
  ble_rounds = [];
  udp_rounds = rounds;
  happenings = (1, ble_ends) ∷ (400, udp_ends) ∷ [];
}

succeeded :
    (response : PamAuthenticateResponse) × (handle_authenticate crates codec world session (some 30)
      ≡ ok response)
    × (response.outcome ≡ success)
unfolding handle_authenticate attempt try_parallel_authentication events task_end
    create_cancel_packet create_request_packet create_auth_request_with_challenge create_auth_cancel
    sign_wrapper_message wrap_auth_request wrap_auth_cancel sign_ed25519
    create_encrypted_packet_with_csk_nonce generate_current_temporal_identifier
    generate_temporal_identifier current_time_window generate_temporal_identifier_ble
    generate_current_temporal_identifier_ble encrypt_with_csk_and_random_nonce seal_prepending
    decrypt_encrypted_packet_with_csk_nonce decrypt_with_csk_and_prepended_nonce open_prepended
    authenticate_with_transport authenticate_from turn wait_for_response examine
    verify_response_signature process_auth_response dispatch handle_auth_grant verify_auth_grant
    verify_wrapper_signature verify_ed25519 send_confirmation_background await_auth_result
    await_from multicast_cancel_on_success is_user_allowed
succeeded = (_, refl, refl)

handle_authenticate-success_example : Authenticated crates codec world session
handle_authenticate-success_example =
    handle_authenticate-success crates codec world session (some 30) {response = succeeded.0}
      succeeded.1 succeeded.2

abbrev later_requests : List (ℕ × String)
later_requests = (100, "bob") ∷ (999999999, "alice") ∷ []

first_admitted : (admit_request 0 "alice" []).0 ≡ true
unfolding admit_request
first_admitted = refl

admitted-spaced_example :
    any (λ r. r.1 == "alice") (admitted later_requests (admit_request 0 "alice" []).1) ≡ false
admitted-spaced_example = admitted-spaced 0 "alice" [] later_requests first_admitted refl

abbrev system : System
system = record {
  who = record { euid = 120; tapauthd_uid = some 120 };
  servers_access = record { stats = true; reads = true };
  csk_access = record { stats = true; reads = true };
  makes_directory = true;
  writes_servers = true;
  writes_csk = true;
  removes = true;
}

abbrev admin_state : AdminState
admin_state = record {
  daemon = state;
  pairings = start;
  disk = record {
    csk_file = none;
    servers_file = some (record { owner_uid = 120; mode = 384; content = some servers });
  };
  settings = record {
    toml = record { udp_port = 36692; enable_ble = true; enable_network = true };
    hostname = codes "desk";
  };
}

state-IsConsistent : IsConsistent state
unfolding is_healthy
state-IsConsistent = (λ _. refl, λ _. refl)

handle_admin_request-IsConsistent_example :
    IsConsistent
      (handle_admin_request crates system
        (λ _ _. broken_loads)
        (some "alice")
        true
        (remove_device "phone")
        admin_state).1.daemon
    × (is_healthy state ≡ true
        → is_healthy
            (handle_admin_request crates system
              (λ _ _. broken_loads)
              (some "alice")
              true
              (remove_device "phone")
              admin_state).1.daemon
          ≡ true)
handle_admin_request-IsConsistent_example =
    handle_admin_request-IsConsistent crates system (λ _ _. broken_loads) (some "alice") true
      (remove_device "phone") admin_state state-IsConsistent
