-- ===== src/Network/Firewall/Idle.antt =====
-- What the firewall of shared/src/firewall.rs holds when nobody holds a guard.
use tapauth.Prelude.{
  ◌≡◌, refl, ℕ, Bool, true, false, not, ◌&&◌, ◌||◌, List, [], ◌∷◌, ok, err, is_ok, ◌==◌, nat_eq,
  if◌then◌else◌, arith,
}
use tapauth.Network.Firewall.{Protocol, tcp, udp, Event, opened, closed, Firewall, control}
use tapauth.Network.Firewall.Guards.{Reached, is_dropping, is_open_after, Reached-closed}

abbrev pub is_protocol : Protocol → Protocol → Bool
is_protocol tcp tcp = true
is_protocol udp udp = true
is_protocol tcp udp = false
is_protocol udp tcp = false

-- Whether the rule of a port and a protocol is in the firewall after the commands: a command that
-- failed has changed nothing.
unfoldable pub has_rule : ℕ → Protocol → List Event → Bool
has_rule p q [] = false
has_rule p q (opened g (ok _) ∷ before) =
    let rest = has_rule p q before in if g.port == p && is_protocol g.protocol q then true else rest
has_rule p q (opened g (err _) ∷ before) = has_rule p q before
has_rule p q (closed g (ok _) ∷ before) =
    let rest = has_rule p q before in
    if g.port == p && is_protocol g.protocol q then false else rest
has_rule p q (closed g (err _) ∷ before) = has_rule p q before

-- Every command for a port was for one protocol, and no close of it failed.
unfoldable pub are_plain : ℕ → Protocol → List Event → Bool
are_plain p q [] = true
are_plain p q (opened g _ ∷ before) =
    (not (g.port == p) || is_protocol g.protocol q) && are_plain p q before
are_plain p q (closed g result ∷ before) =
    (not (g.port == p) || (is_protocol g.protocol q && is_ok result)) && are_plain p q before

is_protocol-same : (a b d : Protocol) → is_protocol a b ≡ true → is_protocol a d ≡ is_protocol b d
is_protocol-same a b d same = ground arith

has_rule-is_open_after :
    (p : ℕ) (q q' : Protocol) (events : List Event)
    → are_plain p q events ≡ true
    → has_rule p q' events ≡ (is_open_after p events && is_protocol q q')
unfolding has_rule are_plain is_open_after
has_rule-is_open_after p q q' [] plain = refl
has_rule-is_open_after p q q' (opened g (ok _) ∷ before) plain =
    let rest = has_rule-is_open_after p q q' before in
    let same = is_protocol-same g.protocol q q' in ground arith
has_rule-is_open_after p q q' (opened g (err _) ∷ before) plain =
    let rest = has_rule-is_open_after p q q' before in ground arith
has_rule-is_open_after p q q' (closed g (ok _) ∷ before) plain =
    let rest = has_rule-is_open_after p q q' before in
    let same = is_protocol-same g.protocol q q' in ground arith
has_rule-is_open_after p q q' (closed g (err _) ∷ before) plain =
    let rest = has_rule-is_open_after p q q' before in ground arith

-- After whatever sequence of guards taken, references released and drops run late, if every command for a port was for one protocol and none of its
-- closes failed, the firewall has no rule of either protocol for the port when no reference to its
-- guard is left and its drops have all run.
pub Reached-idle :
    (s : Firewall) (p : ℕ) (q q' : Protocol)
    → Reached s
    → (control p s).strong ≡ 0
    → is_dropping p s.dropping ≡ false
    → are_plain p q s.events ≡ true
    → has_rule p q' s.events ≡ false
Reached-idle s p q q' r none_left none_due plain =
    let shut = Reached-closed s p r none_left none_due in
    rw (has_rule-is_open_after p q q' s.events plain, shut) refl
