-- ===== src/Tests/Networks.antt =====
-- A test of the network allowlist.
use fluxion.Prelude.{
  ℕ, ◌^◌, String, [], ◌∷◌, Option, none, some, Bool, true, false, any, ltb, ◌==◌, decimal,
  read_digits, read_digits-decimal, split_once, split_once-at, rsplit_once, if◌then◌else◌, ◌≡◌, ◌↔◌,
  refl, arith,
}
use fluxion.Registry.Roundtrip.{colon-IsChar}
use fluxion.Workflow.Validate.{◌<>◌}
use fluxion.Host.Network.{Net, entry_matches, entries, resolve_network_allow}
use fluxion.Host.Allowlist.{IsIpv4, IsCurrent, resolve_network_allow-permits}

abbrev show : Bool → String
show true = "1.1.1.1"
show false = "2.2.2.2"

abbrev parse_ip : String → Option Bool
parse_ip s = if s == "1.1.1.1" then some true else if s == "2.2.2.2" then some false else none

abbrev with_ip : String → Option Bool → Option (Bool × ℕ)
with_ip p none = none
with_ip p (some a) = some (a, read_digits 0 p)

abbrev parse_socket_addr : Option (String × String) → Option (Bool × ℕ)
parse_socket_addr none = none
parse_socket_addr (some (h, p)) = with_ip p (parse_ip h)

abbrev same : Bool → Bool → Bool
same true true = true
same false false = true
same _ _ = false

-- Two addresses, and a host that has one of them.
abbrev net : Net
net = record {
  Ip = Bool;
  same = same;
  parse_socket_addr = λ s. parse_socket_addr (split_once 0x3a s);
  parse_ip = parse_ip;
  parse_u16 = λ s. if ltb (read_digits 0 s) (2 ^ 16) then some (read_digits 0 s) else none;
  show = show;
  lookup_host = λ t. if t == "host:443" then some (true ∷ true ∷ []) else none;
}

same_iff : (a b : Bool) → (same a b ≡ true) ↔ (a ≡ b)
same_iff true true = (λ h. refl, λ h. refl)
same_iff true false = (λ h. cc, λ h. cc)
same_iff false true = (λ h. cc, λ h. cc)
same_iff false false = (λ h. refl, λ h. refl)

shown_port :
    (a : Bool) (p : ℕ)
    → parse_socket_addr (split_once 0x3a (show a <> ":" <> decimal p)) ≡ some (a, p)
unfolding split_once
shown_port true p =
    rw (split_once-at 0x3a ":" colon-IsChar "1.1.1.1" (decimal p) refl, parse_socket_addr)
      (rw (read_digits-decimal p, with_ip) refl)
shown_port false p =
    rw (split_once-at 0x3a ":" colon-IsChar "2.2.2.2" (decimal p) refl, parse_socket_addr)
      (rw (read_digits-decimal p, with_ip) refl)

shown_alone : (a : Bool) → parse_socket_addr (split_once 0x3a (show a)) ≡ none
unfolding split_once
shown_alone true = refl
shown_alone false = refl

shown_ip : (a : Bool) → parse_ip (show a) ≡ some a
shown_ip true = refl
shown_ip false = refl

net-IsIpv4 : IsIpv4 net
net-IsIpv4 = record {
  same_iff = same_iff;
  port_bound = λ s p h. ground arith;
  with_port = λ a p h. shown_port a p;
  no_port = shown_alone;
  alone = shown_ip;
}

resolve_network_allow-permits_example :
    (any
        (entry_matches net true 443)
        (entries net (resolve_network_allow net 0 ("host:443" ∷ "2.2.2.2" ∷ []) []).0)
      ≡ true)
    × IsCurrent net true 443 net-IsIpv4
        (resolve_network_allow net 0 ("host:443" ∷ "2.2.2.2" ∷ []) []).1
unfolding rsplit_once split_once read_digits decimal
resolve_network_allow-permits_example =
    resolve_network_allow-permits net true 443 net-IsIpv4 0 ("host:443" ∷ "2.2.2.2" ∷ []) []
      (λ s ips at h. cc)
