-- ===== src/Tests/Config.antt =====
-- Runs of the configuration of the client and of a completed pairing.
use tapauth.Prelude.{
  codes, ◌<◌, ◌≤◌, is_empty, ◌≡◌, refl, true, false, Option, none, some, [], ◌∷◌, List, first, ok,
  lookup, string_eq, Bytes, arith,
}
use tapauth.Crypto.Keys.{generate_csk}
use tapauth.Config.Servers.{PairedServer}
use tapauth.Config.Files.{
  Identity, Access, File, read_secure_file, write_secure_file, read-write_secure_file,
  ensure_secure_directory,
}
use tapauth.Config.Manager.{
  Servers, Disk, System, load_paired_servers, save_paired_servers, add_paired_server,
  remove_paired_server, remove_user_from_pairing, load_csk, save_csk, clear_paired_servers,
  generate_and_save_csk, rotate_csk,
}
use tapauth.Config.Removal.{IsRemoved, remove_user_from_pairing-IsRemoved}
use tapauth.Config.History.{
  Operation, add, remove_user, remove_server, perform, nothing, then_more, Known, Represents,
  all_specified, Performed-Represents,
}
use tapauth.Config.Rotation.{rotate_csk-load}
use tapauth.Daemon.Admin.Pairing.{
  ActivePairing, active, Pairings, start, PendingPairing, take_generation, put_pending,
  take_pending, take_active,
}
use tapauth.Daemon.Admin.Settings.{
  Settings, SaveConfigRequest, trim, handle_save_config, handle_save_config-ok,
}
use tapauth.Daemon.Admin.Slot.{
  Reached, at_start, after, start_begins, start_ends, wait_begins, IsOrderly,
}
use tapauth.Daemon.Admin.Slot.Orderly.{Reached-IsOrderly}
use tapauth.Daemon.Admin.Complete.{
  Completion, finish_completion, handle_complete_pairing, choose_csk,
}
use tapauth.Daemon.Admin.Complete.Outcome.{IsCompleted, handle_complete_pairing-IsCompleted}
use tapauth.Tests.Toy.{crates, csk, servers, phone_key}

abbrev daemon : Identity
daemon = record { euid = 120; tapauthd_uid = some 120 }

abbrev system : System
system = record {
  who = daemon;
  servers_access = record { stats = true; reads = true };
  csk_access = record { stats = true; reads = true };
  makes_directory = true;
  writes_servers = true;
  writes_csk = true;
  removes = true;
}

abbrev disk : Disk
disk = record {
  csk_file = some (record { owner_uid = 120; mode = 384; content = csk.as_bytes });
  servers_file = some (record { owner_uid = 120; mode = 384; content = some servers });
}

-- Root reads what tapauthd wrote.
abbrev root : Identity
root = record { euid = 0; tapauthd_uid = some 120 }

abbrev readable : Access
readable = record { stats = true; reads = true }

written : (write_secure_file daemon true (some servers) disk.servers_file).0 ≡ ok tt
unfolding write_secure_file
written = refl

read-write_secure_file_example :
    (file : File (Option Servers)) × ((write_secure_file daemon true
        (some servers)
        disk.servers_file).1
      ≡ some file)
    × (read_secure_file root readable file ≡ ok (some servers))
read-write_secure_file_example =
    read-write_secure_file daemon root true readable (some servers) disk.servers_file refl refl refl
      written

loaded : load_paired_servers system disk ≡ ok servers
unfolding load_paired_servers read_secure_file
loaded = refl

removed : (after : Disk) × (remove_user_from_pairing system "phone" "alice" disk ≡ (ok true, after))
unfolding remove_user_from_pairing load_paired_servers read_secure_file save_paired_servers
    ensure_secure_directory write_secure_file
removed = (_, refl)

remove_user_from_pairing-IsRemoved_example : IsRemoved system "phone" "alice" servers removed.0 true
remove_user_from_pairing-IsRemoved_example =
    remove_user_from_pairing-IsRemoved system "phone" "alice" disk {servers = servers} {gone = true}
      {after = removed.0} loaded removed.1

abbrev fresh_key : Bytes
fresh_key = phone_key

rotated :
    (after : Disk) × (rotate_csk system (some fresh_key) disk
      ≡ (ok (record { as_bytes = fresh_key }), after))
unfolding rotate_csk clear_paired_servers generate_and_save_csk generate_csk save_csk
    ensure_secure_directory write_secure_file
rotated = (_, refl)

rotate_csk-load_example :
    (load_paired_servers system rotated.0 ≡ ok [])
    × (load_csk system rotated.0 ≡ ok (record { as_bytes = fresh_key }))
    × (fresh_key ≡ fresh_key)
rotate_csk-load_example =
    rotate_csk-load system fresh_key disk {csk = record { as_bytes = fresh_key }}
      {after = rotated.0} refl refl refl refl rotated.1

abbrev pairing : ActivePairing
pairing = record {
  server_public_key = phone_key;
  server_device_name = "Phone";
  port = 4000;
  generation = 0;
}

abbrev in_progress : Pairings
in_progress = record {
  next_generation = 1;
  slot = some (active pairing);
  held = [];
  pending_timers = 0 ∷ [];
  active_timers = 0 ∷ [];
}

abbrev given : Completion
given = record { random = none; now = 9; finishes = λ _. true }

completed :
    (s' : Pairings) × (after : Disk) × (handle_complete_pairing crates system given "bob" 4000
        in_progress disk
      ≡ (ok "phone", s', after))
unfolding handle_complete_pairing take_active finish_completion choose_csk load_csk read_secure_file
    save_csk ensure_secure_directory write_secure_file add_paired_server load_paired_servers
    save_paired_servers
completed = (_, _, refl)

handle_complete_pairing-IsCompleted_example :
    IsCompleted crates system given "bob" in_progress completed.0 disk completed.1 "phone"
handle_complete_pairing-IsCompleted_example =
    handle_complete_pairing-IsCompleted crates system given "bob" 4000 in_progress disk
      {id = "phone"} {s' = completed.0} {after = completed.1} refl refl (λ key drawn. cc)
      completed.2

abbrev first_pairing : PendingPairing
first_pairing = record { port = 4000; generation = 0 }

abbrev waited : Pairings
waited = (take_pending 0 (put_pending first_pairing (take_generation (some 4000) start).1).1).1

waited-Reached : Reached 3 waited
unfolding take_generation
waited-Reached =
    after
      (after (after at_start (start_begins (some 4000))) (start_ends first_pairing (first refl)))
      (wait_begins 0)

Reached-IsOrderly_example : IsOrderly 3 waited
Reached-IsOrderly_example = Reached-IsOrderly 3 {s = waited} (omega arith) waited-Reached

abbrev settings : Settings
settings = record {
  toml = record { udp_port = 36692; enable_ble = true; enable_network = true };
  hostname = codes "desk";
}

abbrev save_request : SaveConfigRequest
save_request = record {
  hostname = codes " lab ";
  udp_port = 4000;
  enable_ble = some false;
  enable_network = none;
}

saved : (after : Settings) × (handle_save_config true true save_request settings ≡ (ok tt, after))
unfolding handle_save_config trim
saved = (_, refl)

handle_save_config-ok_example :
    (saved.0.toml.udp_port ≡ 4000)
    × (0 < saved.0.toml.udp_port)
    × (saved.0.toml.udp_port ≤ 65535)
    × (saved.0.hostname ≡ trim (codes " lab "))
    × (is_empty saved.0.hostname ≡ false)
    × (save_request.enable_ble ≡ none → saved.0.toml.enable_ble ≡ true)
    × (save_request.enable_network ≡ none → saved.0.toml.enable_network ≡ true)
handle_save_config-ok_example =
    handle_save_config-ok true true save_request settings {s' = saved.0} saved.1

-- Two users of a new pairing, of which one is removed again.
abbrev tablet : PairedServer
tablet = record {
  name = "Tablet";
  public_key = "other";
  allowed_users = "alice" ∷ "bob" ∷ [];
  paired_at = 1;
}

abbrev operations : List Operation
operations = add "tablet" tablet ∷ remove_user "tablet" "bob" ∷ remove_server "phone" ∷ []

abbrev known : Known
known j = lookup j servers

Performed-Represents_example :
    Represents system
      (perform system
        (remove_server "phone")
        (perform system
          (remove_user "tablet" "bob")
          (perform system (add "tablet" tablet) disk).1).1).1
      (all_specified operations known)
unfolding load_paired_servers read_secure_file perform add_paired_server save_paired_servers
    ensure_secure_directory write_secure_file remove_user_from_pairing remove_paired_server
Performed-Represents_example =
    Performed-Represents system operations disk _ known refl refl
      (record { servers = servers; loads = refl; same = λ j. refl })
      (then_more refl (then_more refl (then_more refl nothing)))
