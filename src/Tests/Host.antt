-- ===== src/Tests/Host.antt =====
-- Runs of the firewall's guards and of the daemon's socket.
use tapauth.Prelude.{
  ◌≡◌, refl, true, false, Option, none, some, [], ◌∷◌, map, ok, Bytes, remove, arith, string_eq,
  ◌==◌, bytes_eq, if◌then◌else◌,
}
use tapauth.Network.Firewall.{
  udp, Host, success, Firewall, control, new_guard, release, do_drop_close,
}
use tapauth.Network.Firewall.Guards.{
  takes, releases, drops, at_start, after, is_open_after, Reached-held,
}
use tapauth.Network.Firewall.Idle.{has_rule, are_plain, Reached-idle}
use tapauth.Ipc.{ignore, Msg, pam_cancel, pam_response, IpcEnvelope, IpcCodec}
use tapauth.Ipc.Client.{fresh, chunk, recv_response, poll, send_cancel}
use tapauth.Ipc.Polling.{nonblocking, poll-recv_response}
use tapauth.Ipc.Connection.{ServerState, Served, arrives, plain, handle_conn}
use tapauth.Ipc.Connection.Cancel.{handle_conn-send_cancel}

abbrev working : Host
working = record { firewalld_active = true; firewall_cmd = success; iptables = success }

abbrev shut : Firewall
shut = record { guards = []; dropping = []; events = [] }

held : Firewall
unfolding new_guard
held = (new_guard working 36692 udp shut).1

held_twice : Firewall
unfolding new_guard held
held_twice = (new_guard working 36692 udp held).1

Reached-held_example : is_open_after 36692 held_twice.events ≡ true
unfolding held_twice held new_guard
Reached-held_example =
    Reached-held held_twice 36692
      (after (after at_start (takes working 36692 udp)) (takes working 36692 udp)) (ground arith)

abbrev released : Firewall
released = release 36692 held

abbrev closed : Firewall
closed =
    do_drop_close working (record { port = 36692; protocol = udp })
      (record released { dropping = [] })

Reached-idle_example : has_rule 36692 udp closed.events ≡ false
unfolding are_plain held new_guard release do_drop_close control
Reached-idle_example =
    Reached-idle closed 36692 udp udp
      (after (after (after at_start (takes working 36692 udp)) (releases 36692 (omega arith)))
        (drops working (record { port = 36692; protocol = udp }) [] [] refl))
      refl refl refl

-- Each side's message of a cancel is one byte.
abbrev reply : IpcEnvelope (Unit {0}) (Unit {0})
reply = record { msg = some (pam_response (plain ignore "Cancel forwarded")) }

abbrev cancel : IpcEnvelope (Unit {0}) (Unit {0})
cancel = record { msg = some (pam_cancel (record { reason = "tty-skip"; request_id = "r1" })) }

abbrev encode_msg : Option (Msg (Unit {0}) (Unit {0})) → Bytes
encode_msg (some (pam_response _)) = 9 ∷ []
encode_msg (some (pam_cancel _)) = 5 ∷ []
encode_msg _ = []

abbrev codec : IpcCodec (Unit {0}) (Unit {0})
codec = record {
  encode = λ m. encode_msg m.msg;
  decode = λ b. if b == (9 ∷ []) then some reply else if b == (5 ∷ []) then some cancel else none;
}

-- The answer comes in three reads of two turns.
poll-recv_response_example :
    poll codec (map (map chunk) (((0 ∷ 0 ∷ []) ∷ (0 ∷ []) ∷ []) ∷ ((1 ∷ 9 ∷ []) ∷ []) ∷ [])) fresh
    ≡ nonblocking (recv_response codec (0 ∷ 0 ∷ 0 ∷ 1 ∷ 9 ∷ []))
poll-recv_response_example =
    poll-recv_response codec (((0 ∷ 0 ∷ []) ∷ (0 ∷ []) ∷ []) ∷ ((1 ∷ 9 ∷ []) ∷ []) ∷ [])

abbrev state : ServerState (Unit {0})
state = record { cancel_registry = ("r1", 7) ∷ []; told = []; rest = tt }

handle_conn-send_cancel_example :
    (sent : Bytes) × (served : Served (Unit {0})) × (handle_conn codec
        (λ _ s. (plain ignore "", s))
        (λ _ s. (tt, s))
        true
        (arrives sent)
        none
        state
      ≡ served)
    × (send_cancel codec "tty-skip" "r1" served.written
        ≡ ok (sent, plain ignore "Cancel forwarded"))
    × (served.result ≡ ok tt)
    × (served.state ≡ record state {
      cancel_registry = remove "r1" state.cancel_registry;
      told = 7 ∷ state.told;
    })
handle_conn-send_cancel_example =
    handle_conn-send_cancel codec (λ _ s. (plain ignore "", s)) (λ _ s. (tt, s)) "tty-skip" "r1" 7
      state refl (record { decoded = refl; fits = omega arith; not_empty = omega arith })
      (record { decoded = refl; fits = omega arith; not_empty = omega arith })
