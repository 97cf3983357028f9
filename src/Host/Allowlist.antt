-- ===== src/Host/Allowlist.antt =====
-- Which addresses the network allowlist permits after its names were resolved.
use fluxion.Prelude.{
  ℕ, ◌^◌, ◌<◌, String, List, [], ◌∷◌, ◌++◌, Option, none, some, Bool, true, false, ◌&&◌, ◌||◌, any,
  map, nat_eq, lookup, insert, decimal, ◌≡◌, ◌↔◌, refl, sym, ap, ◌∙◌, subst, inl, inr, arith,
  rsplit_once, Bool-cases, Option-cases, String-cases, lookup-insert,
}
use fluxion.Workflow.Validate.{◌<>◌}
use fluxion.Expand.Defs.{get_or_else}
use fluxion.Host.Network.{
  Net, NetworkEntry, entry_matches, parse_network_entry, socket_or_ip, split_port, host_port,
  with_port, DnsCache, unseen, cached, looked_up, lookup_target, resolve_host, resolve_parsed,
  resolve_entry, resolve_network_allow, consed, entries,
}

-- The texts of IPv4 addresses are read back, with or without a port of 16 bits.
pub record IsIpv4 (n : Net) : Type 0 where
  pub same_iff : (a b : n.Ip) → (n.same a b ≡ true) ↔ (a ≡ b)
  pub port_bound : (s : String) (p : ℕ) → n.parse_u16 s ≡ some p → p < 2 ^ 16
  pub with_port :
      (a : n.Ip) (p : ℕ)
      → p < 2 ^ 16
      → n.parse_socket_addr (n.show a <> ":" <> decimal p) ≡ some (a, p)
  pub no_port : (a : n.Ip) → n.parse_socket_addr (n.show a) ≡ none
  pub alone : (a : n.Ip) → n.parse_ip (n.show a) ≡ some a

module _ (n : Net) (ip : n.Ip) (port : ℕ) where
  abbrev is_port : Option ℕ → Bool
  is_port none = true
  is_port (some p) = nat_eq p port

  abbrev is_ip : n.Ip → Bool
  is_ip a = n.same a ip

  abbrev permits_as : String × Option ℕ → Option (NetworkEntry n.Ip) → Bool
  permits_as host (some e) = entry_matches n ip port e
  permits_as host none =
      any is_ip (get_or_else [] (n.lookup_host (lookup_target n host))) && is_port host.1

  -- An entry of the allowlist permits the address: as an address, or as a host that DNS knows under it.
  abbrev pub permits : String → Bool
  permits s = permits_as (host_port n s) (parse_network_entry n s)

  abbrev opens : List String → Bool
  opens allow = any (entry_matches n ip port) (entries n allow)

  abbrev matched : Option (NetworkEntry n.Ip) → Bool
  matched none = false
  matched (some e) = entry_matches n ip port e

  any-consed :
      (o : Option (NetworkEntry n.Ip)) (rest : List (NetworkEntry n.Ip))
      → any (entry_matches n ip port) (consed n o rest)
        ≡ (matched o || any (entry_matches n ip port) rest)
  any-consed none rest = refl
  any-consed (some e) rest = refl

  opens-append : (a b : List String) → opens (a ++ b) ≡ (opens a || opens b)
  opens-append [] b = refl
  opens-append (s ∷ a) b =
      any-consed (parse_network_entry n s) (entries n (a ++ b))
      ∙ ground (arith, opens-append a b, any-consed (parse_network_entry n s) (entries n a))

  module _ (v : IsIpv4 n) where
    seen-has :
        (x : n.Ip) (seen : List n.Ip)
        → any (n.same x) seen ≡ true
        → is_ip x ≡ true
        → any is_ip seen ≡ true
    seen-has x [] h q = cc
    seen-has x (y ∷ ys) h q = elim (Bool-cases (n.same x y)) [
      | inl e ↦ rw (ap is_ip (sym ((v.same_iff x y).0 e)) ∙ q) refl
      | inr e ↦ ground (arith, seen-has x ys)
    ]

    any-unseen :
        (seen ips : List n.Ip)
        → (any is_ip seen || any is_ip (unseen n seen ips)) ≡ (any is_ip seen || any is_ip ips)
    any-unseen seen [] = refl
    any-unseen seen (x ∷ ips) =
        ground (arith, any-unseen seen ips, any-unseen (x ∷ seen) ips, seen-has x seen)

    opens-with_port :
        (p : Option ℕ)
        → ((k : ℕ) → p ≡ some k → k < 2 ^ 16)
        → (ips : List n.Ip) → opens (map (with_port n p) ips) ≡ (any is_ip ips && is_port p)
    opens-with_port p small [] = refl
    opens-with_port none small (a ∷ ips) =
        rw (v.no_port a, socket_or_ip)
          (rw (v.alone a, socket_or_ip) (ground (arith, opens-with_port none small ips)))
    opens-with_port (some k) small (a ∷ ips) =
        rw (v.with_port a k (small k refl), socket_or_ip)
          (ground (arith, opens-with_port (some k) small ips))

    split_port-small :
        (s : String) (o : Option (String × String)) (k : ℕ)
        → (split_port n s o).1 ≡ some k
        → k < 2 ^ 16
    split_port-small s none k e = cc
    split_port-small s (some (h, p)) k e = elim (Option-cases (n.parse_u16 p)) [
      | inl q ↦ let no : none ≡ some k = rw (q, split_port) at e in absurd (ground arith)
      | inr (j, q) ↦
          let yes : some j ≡ some k = rw (q, split_port) at e in
          subst (λ i. i < 2 ^ 16) (ap (get_or_else 0) yes) (v.port_bound p j q)
    ]

    -- A cached answer is the one that DNS gives.
    abbrev pub IsCurrent : DnsCache n → Type 0
    IsCurrent c =
        (s : String) (ips : List n.Ip) (at : ℕ)
        → lookup s c ≡ some (ips, at)
        → (addrs : List n.Ip) × (n.lookup_host (lookup_target n (host_port n s)) ≡ some addrs)
          × (ips ≡ unseen n [] addrs)

    cached-some :
        (now : ℕ) (o : Option (List n.Ip × ℕ)) (ips : List n.Ip)
        → cached n now o ≡ some ips
        → (at : ℕ) × (o ≡ some (ips, at))
    cached-some now none ips e = cc
    cached-some now (some (xs, at)) ips e = (at, ground arith)

    -- The texts of the addresses of a host permit what its name permits.
    host-permits :
        (s : String) (addrs : List n.Ip)
        → n.lookup_host (lookup_target n (host_port n s)) ≡ some addrs
        → opens (map (with_port n (host_port n s).1) (unseen n [] addrs))
          ≡ permits_as (host_port n s) none
    host-permits s addrs e =
        opens-with_port (host_port n s).1 (λ k q. split_port-small s (rsplit_once 0x3a s) k q)
          (unseen n [] addrs)
        ∙ (ap (λ b. b && is_port (host_port n s).1) (any-unseen [] addrs)
            ∙ ap (λ o. any is_ip (get_or_else [] o) && is_port (host_port n s).1) (sym e))

    abbrev ips_of : Option (List n.Ip × ℕ) → List n.Ip
    ips_of none = []
    ips_of (some (ips, at)) = ips

    insert-IsCurrent :
        (now : ℕ) (s : String) (addrs : List n.Ip) (c : DnsCache n)
        → n.lookup_host (lookup_target n (host_port n s)) ≡ some addrs
        → IsCurrent c
        → IsCurrent (insert s (unseen n [] addrs, now) c)
    insert-IsCurrent now s addrs c e ok t ips at found = elim (String-cases s t) [
      | inl (q, b) ↦
          let new : some (unseen n [] addrs, now) ≡ some (ips, at) =
            sym (lookup-insert s t (unseen n [] addrs, now) c ∙ rw b refl) ∙ found in
          (
            addrs,
            subst (λ x. n.lookup_host (lookup_target n (host_port n x)) ≡ some addrs) q e,
            sym (ap ips_of new),
          )
      | inr (q, b) ↦
          ok t ips at (sym (lookup-insert s t (unseen n [] addrs, now) c ∙ rw b refl) ∙ found)
    ]

    resolve_entry-permits :
        (now : ℕ) (s : String) (c : DnsCache n)
        → IsCurrent c
        → (opens (resolve_entry n now s c).0 ≡ permits s) × IsCurrent (resolve_entry n now s c).1
    unfolding resolve_entry
    resolve_entry-permits now s c ok = parsed (parse_network_entry n s) refl
      where
        asked :
            (o : Option (List n.Ip))
            → n.lookup_host (lookup_target n (host_port n s)) ≡ o
            → (opens (looked_up n now s (host_port n s).1 o c).0 ≡ permits_as (host_port n s) none)
              × IsCurrent (looked_up n now s (host_port n s).1 o c).1
        asked none e =
            (ap (λ o. any is_ip (get_or_else [] o) && is_port (host_port n s).1) (sym e), ok)
        asked (some addrs) e = (host-permits s addrs e, insert-IsCurrent now s addrs c e ok)

        known :
            (f : Option (List n.Ip))
            → cached n now (lookup s c) ≡ f
            → (opens (resolve_host n now s (host_port n s) f c).0 ≡ permits_as (host_port n s) none)
              × IsCurrent (resolve_host n now s (host_port n s) f c).1
        known (some ips) e =
            let (at, found) = cached-some now (lookup s c) ips e in
            let (addrs, q, same) = ok s ips at found in
            (
              ap (λ x. opens (map (with_port n (host_port n s).1) x)) same ∙ host-permits s addrs q,
              ok,
            )
        known none e = asked (n.lookup_host (lookup_target n (host_port n s))) refl

        parsed :
            (o : Option (NetworkEntry n.Ip))
            → parse_network_entry n s ≡ o
            → (opens (resolve_parsed n now s o c).0 ≡ permits_as (host_port n s) o)
              × IsCurrent (resolve_parsed n now s o c).1
        parsed (some e) q = (
          any-consed (parse_network_entry n s) [] ∙ (ap (λ o. matched o || false) q ∙ ground arith),
          ok,
        )
        parsed none q = known (cached n now (lookup s c)) refl

    -- For IPv4 addresses: an address passes the test that is installed for the resolved allowlist
    -- exactly if an entry of the allowlist permits it, as an address, with its port if it has one, or as
    -- a host that DNS knows under this address, with the port of the entry if it has one. The answers
    -- in the cache are assumed to be those that DNS gives, and they are so afterwards.
    pub resolve_network_allow-permits :
        (now : ℕ) (allow : List String) (c : DnsCache n)
        → IsCurrent c
        → (any (entry_matches n ip port) (entries n (resolve_network_allow n now allow c).0)
            ≡ any permits allow)
          × IsCurrent (resolve_network_allow n now allow c).1
    unfolding resolve_network_allow
    resolve_network_allow-permits now [] c ok = (refl, ok)
    resolve_network_allow-permits now (s ∷ allow) c ok =
        let (here, ok') = resolve_entry-permits now s c ok in
        let (rest, ok'') =
          resolve_network_allow-permits now allow (resolve_entry n now s c).1 ok' in
        (opens-append (resolve_entry n now s c).0 _ ∙ ground (arith, here, rest), ok'')
