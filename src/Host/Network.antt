-- ===== src/Host/Network.antt =====
-- The network allowlist of crates/fluxion-host/src/lib.rs: parsing, resolving host names through a
-- cache, and the test that build_wasi_ctx installs. Addresses, their texts and DNS are parameters, and
-- a call is made at one time.
use fluxion.Prelude.{
  ℕ, ◌*◌, ◌-◌, String, List, [], ◌∷◌, ◌++◌, Map, Option, none, some, Bool, false, ◌&&◌, any, map,
  ltb, nat_eq, lookup, insert, decimal, rsplit_once, if◌then◌else◌,
}
use fluxion.Outcome.{Outcome, ok, err}
use fluxion.Workflow.Validate.{◌<>◌}
use fluxion.Expand.Defs.{get_or_else}

pub record Net : Type 1 where
  pub Ip : Type 0
  pub same : Ip → Ip → Bool
  pub parse_socket_addr : String → Option (Ip × ℕ)
  pub parse_ip : String → Option Ip
  pub parse_u16 : String → Option ℕ
  pub show : Ip → String
  pub lookup_host : String → Option (List Ip)

pub data NetworkEntry (Ip : Type 0) : Type 0 where
  exact : Ip → (port : ℕ) → NetworkEntry Ip
  any_port : Ip → NetworkEntry Ip

-- In nanoseconds.
abbrev pub dns_cache_ttl : ℕ
dns_cache_ttl = 60 * 1_000_000_000

module _ (n : Net) where
  open n use {Ip, same, parse_socket_addr, parse_ip, parse_u16, show, lookup_host}

  abbrev pub entry_matches : Ip → ℕ → NetworkEntry Ip → Bool
  entry_matches ip port (exact a p) = same a ip && nat_eq p port
  entry_matches ip port (any_port a) = same a ip

  abbrev pub socket_or_ip : Option (Ip × ℕ) → Option Ip → Option (NetworkEntry Ip)
  socket_or_ip (some (a, p)) _ = some (exact a p)
  socket_or_ip none (some a) = some (any_port a)
  socket_or_ip none none = none

  abbrev pub parse_network_entry : String → Option (NetworkEntry Ip)
  parse_network_entry s = socket_or_ip (parse_socket_addr s) (parse_ip s)

  abbrev pub split_port : String → Option (String × String) → String × Option ℕ
  split_port s none = (s, none)
  split_port s (some (h, p)) = elim (parse_u16 p) [ some k ↦ (h, some k) | none ↦ (s, none) ]

  abbrev pub host_port : String → String × Option ℕ
  host_port s = split_port s (rsplit_once 0x3a s)

  abbrev pub with_port : Option ℕ → Ip → String
  with_port (some p) ip = show ip <> ":" <> decimal p
  with_port none ip = show ip

  abbrev pub DnsCache : Type 0
  DnsCache = Map (List Ip × ℕ)

  -- seen.insert(*ip)
  abbrev pub unseen : List Ip → List Ip → List Ip
  unseen seen [] = []
  unseen seen (ip ∷ ips) =
      let fresh = ip ∷ unseen (ip ∷ seen) ips in
      let rest = unseen seen ips in if any (same ip) seen then rest else fresh

  abbrev pub cached : ℕ → Option (List Ip × ℕ) → Option (List Ip)
  cached now none = none
  cached now (some (ips, at)) = if ltb (now - at) dns_cache_ttl then some ips else none

  abbrev pub looked_up :
      ℕ → String → Option ℕ → Option (List Ip) → DnsCache → List String × DnsCache
  looked_up now s port none cache = ([], cache)
  looked_up now s port (some addrs) cache =
      (map (with_port port) (unseen [] addrs), insert s (unseen [] addrs, now) cache)

  abbrev pub lookup_target : String × Option ℕ → String
  lookup_target (host, port) = host <> ":" <> decimal (get_or_else 0 port)

  abbrev pub resolve_host :
      ℕ → String → String × Option ℕ → Option (List Ip) → DnsCache → List String × DnsCache
  resolve_host now s (host, port) (some ips) cache = (map (with_port port) ips, cache)
  resolve_host now s (host, port) none cache =
      looked_up now s port (lookup_host (lookup_target (host, port))) cache

  abbrev pub resolve_parsed :
      ℕ → String → Option (NetworkEntry Ip) → DnsCache → List String × DnsCache
  resolve_parsed now s (some e) cache = (s ∷ [], cache)
  resolve_parsed now s none cache =
      resolve_host now s (host_port s) (cached now (lookup s cache)) cache

  unfoldable pub resolve_entry : ℕ → String → DnsCache → List String × DnsCache
  unfolding rsplit_once decimal
  resolve_entry now s cache = resolve_parsed now s (parse_network_entry s) cache

  unfoldable pub resolve_network_allow : ℕ → List String → DnsCache → List String × DnsCache
  unfolding resolve_entry
  resolve_network_allow now [] cache = ([], cache)
  resolve_network_allow now (s ∷ allow) cache =
      let (out, cache') = resolve_entry now s cache in
      let (more, cache'') = resolve_network_allow now allow cache' in (out ++ more, cache'')

  -- filter_map(|s| parse_network_entry(s))
  abbrev pub consed : Option (NetworkEntry Ip) → List (NetworkEntry Ip) → List (NetworkEntry Ip)
  consed (some e) rest = e ∷ rest
  consed none rest = rest

  abbrev pub entries : List String → List (NetworkEntry Ip)
  entries [] = []
  entries (s ∷ allow) = consed (parse_network_entry s) (entries allow)

  abbrev pub gate : List (NetworkEntry Ip) → Outcome String (Ip → ℕ → Bool)
  gate [] = err "network.allow has entries but none resolved to a valid IP address"
  gate (e ∷ es) = ok (λ ip port. any (entry_matches ip port) (e ∷ es))

  -- The test for the addresses that a component may use.
  unfoldable pub socket_addr_check : List String → Outcome String (Ip → ℕ → Bool)
  socket_addr_check [] = ok (λ ip port. false)
  socket_addr_check (s ∷ allow) = gate (entries (s ∷ allow))
