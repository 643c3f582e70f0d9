-- ===== src/Resolve/Cached.antt =====
-- The DNS cache of internal/dns.go is keyed by the domain alone.
use bill_vpn.Common.{
  ◌≡◌, refl, true, Option, some, List, ◌∷◌, Bytes, arith, Option-cases, inl, inr, ◌>>=◌,
}
use bill_vpn.Policy.{DnsMode}
use bill_vpn.Resolve.{
  Network, Caches, cache_get, do_dns_resolve, dns_resolve, remember_resolved, answers_of,
  first_question, pick_by_mode,
}

-- What a resolution that does not come from the cache adds to it.
do_dns_resolve-adds :
    (net : Network) (domain ip : Bytes) (mode : DnsMode) (c d : Caches)
    (get : List (Bytes × Bytes) → Bytes → Option Bytes)
    → net.cached ≡ some get
    → do_dns_resolve net domain mode c ≡ (d, some ip)
    → d.dns ≡ (domain, ip) ∷ c.dns
unfolding do_dns_resolve remember_resolved
do_dns_resolve-adds net domain ip mode c d get on h =
    elim (Option-cases
      (answers_of net (first_question domain mode) >>= pick_by_mode net domain mode)) [
        | inl e ↦ absurd (ground (arith, e))
        | inr (ip2, e) ↦ ground (arith, e, on)
      ]

-- With a cache that returns what was added last, an address that was resolved in one mode is the
-- answer for the domain in every mode: after a look-up for IPv4 only, a look-up for IPv6 only
-- returns the IPv4 address.
pub dns_resolve_any_mode :
    (net : Network) (domain ip : Bytes) (mode other : DnsMode) (c d : Caches)
    (get : List (Bytes × Bytes) → Bytes → Option Bytes)
    → net.cached ≡ some get
    → ((cs : List (Bytes × Bytes)) → get ((domain, ip) ∷ cs) domain ≡ some ip)
    → do_dns_resolve net domain mode c ≡ (d, some ip)
    → dns_resolve net domain other d ≡ (d, some (ip, true))
unfolding dns_resolve cache_get
dns_resolve_any_mode net domain ip mode other c d get on last h =
    let added = do_dns_resolve-adds net domain ip mode c d get on h in
    let hit : cache_get net d domain ≡ some ip = rw (cache_get, on, added) (last c.dns) in
    rw (dns_resolve, hit) refl
