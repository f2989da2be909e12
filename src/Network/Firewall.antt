-- ===== src/Network/Firewall.antt =====
-- shared/src/firewall.rs: the guards that share a port, and the commands that open and close it.
-- What the commands answer is an argument. No thread panics while it holds a lock, so the locks
-- are never poisoned.
pub mod Guards
pub mod Idle
use tapauth.Prelude.{
  ℕ, suc, ◌-◌, Bool, true, false, not, ◌&&◌, Option, none, some, List, [], ◌∷◌, Result, ok, err,
  Map, lookup, insert, ◌==◌, nat_eq, ltb, if◌then◌else◌, is_ok,
}

pub data Protocol : Type 0 where
  tcp udp : Protocol

pub data FirewallError : Type 0 where
  iptables firewall_cmd io : FirewallError

pub record FirewallGuard : Type 0 where
  pub port : ℕ
  pub protocol : Protocol

-- What became of a command.
pub data Status : Type 0 where
  success failure not_found io_problem : Status

-- The answers of `systemctl is-active firewalld`, of `firewall-cmd` and of `iptables`.
pub record Host : Type 0 where
  pub firewalld_active : Bool
  pub firewall_cmd : Status
  pub iptables : Status

-- `run_firewalld_port_action`.
unfoldable pub run_firewalld_port_action : Status → Result FirewallError (Unit {0})
run_firewalld_port_action success = ok tt
run_firewalld_port_action failure = err firewall_cmd
run_firewalld_port_action not_found = err firewall_cmd
run_firewalld_port_action io_problem = err firewall_cmd

-- The match on the status of `iptables`, the same for `-I` and for `-D`.
unfoldable pub run_iptables : Status → Result FirewallError (Unit {0})
run_iptables success = ok tt
run_iptables failure = err iptables
run_iptables not_found = ok tt
run_iptables io_problem = err io

unfoldable pub open_port : Host → Result FirewallError (Unit {0})
unfolding run_firewalld_port_action run_iptables
open_port host =
    if host.firewalld_active
    then run_firewalld_port_action host.firewall_cmd
    else run_iptables host.iptables

unfoldable pub close_port : Host → Result FirewallError (Unit {0})
unfolding run_firewalld_port_action run_iptables
close_port host =
    if host.firewalld_active
    then run_firewalld_port_action host.firewall_cmd
    else run_iptables host.iptables

-- What was asked of the firewall, and how it ended.
pub data Event : Type 0 where
  opened closed : FirewallGuard → Result FirewallError (Unit {0}) → Event

-- `PortControl`: the number of strong references to the guard that `weak` names, that guard's
-- protocol, and the flag. A guard is made only when the one before it has no reference left.
pub record PortControl : Type 0 where
  pub strong : ℕ
  pub protocol : Protocol
  pub is_open : Bool

-- `GUARDS`, the guards without references whose `Drop` has not run yet, and the commands so far,
-- the last one first.
pub record Firewall : Type 0 where
  pub guards : Map ℕ PortControl
  pub dropping : List FirewallGuard
  pub events : List Event

-- `or_insert_with`: a port that is not in the map has no guard and is shut.
unfoldable pub or_new : Option PortControl → PortControl
or_new none = record { strong = 0; protocol = tcp; is_open = false }
or_new (some control) = control

unfoldable pub control : ℕ → Firewall → PortControl
unfolding or_new
control port s = or_new (lookup port s.guards)

-- `FirewallGuard::new`: the guard that is returned may be an existing one.
unfoldable pub new_guard :
    Host → ℕ → Protocol → Firewall → Result FirewallError FirewallGuard × Firewall
unfolding control open_port
new_guard host port protocol s =
    let ctrl = control port s in
    let wanted : FirewallGuard = record { port = port; protocol = protocol } in
    let made : PortControl = record { strong = 1; protocol = protocol; is_open = true } in
    if ltb 0 ctrl.strong
    then (
      ok (record { port = port; protocol = ctrl.protocol }),
      record s { guards = insert port (record ctrl { strong = suc ctrl.strong }) s.guards },
    )
    else if ctrl.is_open
    then (ok wanted, record s { guards = insert port made s.guards })
    else elim (open_port host) [
      | ok _ ↦ (
        ok wanted,
        record s { guards = insert port made s.guards; events = opened wanted (ok tt) ∷ s.events },
      )
      | err e ↦ (
        err e,
        record s { guards = insert port ctrl s.guards; events = opened wanted (err e) ∷ s.events },
      )
    ]

-- A reference goes: with the last one the guard's `Drop` is due.
unfoldable pub release : ℕ → Firewall → Firewall
unfolding control
release port s =
    let ctrl = control port s in
    let left = record s {
      guards = insert port (record ctrl { strong = ctrl.strong - 1 }) s.guards;
    } in
    if ctrl.strong == 1
    then record left { dropping = record { port = port; protocol = ctrl.protocol } ∷ s.dropping }
    else left

-- `do_drop_close`.
unfoldable pub do_drop_close : Host → FirewallGuard → Firewall → Firewall
unfolding close_port
do_drop_close host guard s = elim (lookup guard.port s.guards) [
  | none ↦ s
  | some ctrl ↦
      if not (ltb 0 ctrl.strong) && ctrl.is_open
      then record s {
        guards = insert guard.port (record ctrl { is_open = false }) s.guards;
        events = closed guard (close_port host) ∷ s.events;
      }
      else s
]
