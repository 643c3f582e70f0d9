-- ===== src/Resolve.antt =====
-- How a domain becomes an address: `doDNSResolve` and `dnsResolve` of internal/dns.go, the
-- resolver of internal/resolver.go, and `resolveBootstrapHost` of internal/config.go. What the
-- cache of the package freelru answers after a list of additions, the exchange with the DNS server
-- and the look-up of the system are arguments. The calls through `singleflight` give the result of
-- the function that they run.
pub mod Families
pub mod Cached
pub mod Tests
use bill_vpn.Common.{
  Bool, true, false, ◌||◌, Option, none, some, List, [], ◌∷◌, ◌++◌, Bytes, codes, if◌then◌else◌,
  ◌==◌, ◌>>=◌, ℕ,
}
use bill_vpn.FakeAnswer.{Rr, Msg, type_a, type_aaaa, is_other}
use bill_vpn.Policy.{DnsMode, dns_unknown, prefer_ipv4, prefer_ipv6, ipv4_only, ipv6_only}
use bill_vpn.Recorded.{remember_mapping}
use bill_vpn.Route.{is_empty}

-- What was added to `dnsCache` and to `ipDomainCache`, the last first.
pub record Caches : Type 0 where
  pub dns : List (Bytes × Bytes)
  pub ip_domains : List (Bytes × Bytes)

-- An address of `bootstrapLookupIP`, which may be nil: its text and, for IPv4, that of `To4`.
pub record IpAddr : Type 0 where
  pub text : Bytes
  pub v4 : Option Bytes

-- The outside: `dnsCache` is nil when `cached` is `none`; the exchange is given the question, if
-- one was set, and is `none` for an error.
pub record Network : Type 0 where
  pub cached : Option (List (Bytes × Bytes) → Bytes → Option Bytes)
  pub exchange : Option (Bytes × ℕ) → Option Msg
  pub lookup_ip : Bytes → Option (List (Option IpAddr))
  pub is_ip : Bytes → Bool

-- `pickFirstARecord` and `pickFirstAAAARecord`, by the type of the record.
pub pick_first : ℕ → List Rr → Option Bytes
pick_first kind [] = none
pick_first kind (rr ∷ rrs) = if is_other kind rr.header then pick_first kind rrs else some rr.value

-- The question of the first exchange.
pub first_question : Bytes → DnsMode → Option (Bytes × ℕ)
first_question domain prefer_ipv4 = some (domain ++ codes ".", type_a)
first_question domain ipv4_only = some (domain ++ codes ".", type_a)
first_question domain prefer_ipv6 = some (domain ++ codes ".", type_aaaa)
first_question domain ipv6_only = some (domain ++ codes ".", type_aaaa)
first_question domain dns_unknown = none

-- An exchange whose response has no error code; its answers.
pub answers_of : Network → Option (Bytes × ℕ) → Option (List Rr)
answers_of net question = do
  resp ← net.exchange question
  if resp.rcode == 0 then some resp.answer else none

-- The second exchange of the modes with a preference.
pub pick_other : Network → Bytes → ℕ → Option Bytes
unfolding answers_of pick_first
pick_other net domain kind =
    answers_of net (some (domain ++ codes ".", kind)) >>= (λ rrs. pick_first kind rrs)

pub pick_preferred : Network → Bytes → ℕ → ℕ → List Rr → Option Bytes
unfolding pick_first pick_other
pick_preferred net domain kind other_kind rrs = elim (pick_first kind rrs) [
  | some ip ↦ some ip
  | none ↦ pick_other net domain other_kind
]

-- The `switch` on the mode. `String` of a nil address, for a mode that is not set, is `<nil>`.
pub pick_by_mode : Network → Bytes → DnsMode → List Rr → Option Bytes
unfolding pick_first pick_preferred
pick_by_mode net domain ipv4_only rrs = pick_first type_a rrs
pick_by_mode net domain ipv6_only rrs = pick_first type_aaaa rrs
pick_by_mode net domain prefer_ipv4 rrs = pick_preferred net domain type_a type_aaaa rrs
pick_by_mode net domain prefer_ipv6 rrs = pick_preferred net domain type_aaaa type_a rrs
pick_by_mode net domain dns_unknown rrs = some (codes "<nil>")

pub remember_resolved : Network → Bytes → Bytes → Caches → Caches
remember_resolved net domain ip c = record {
  dns = elim net.cached [ none ↦ c.dns | some get ↦ (domain, ip) ∷ c.dns ];
  ip_domains = remember_mapping domain ip c.ip_domains;
}

-- `doDNSResolve`
pub do_dns_resolve : Network → Bytes → DnsMode → Caches → Caches × Option Bytes
unfolding first_question answers_of pick_by_mode remember_resolved
do_dns_resolve net domain mode c =
    elim (answers_of net (first_question domain mode) >>= pick_by_mode net domain mode) [
      | none ↦ (c, none)
      | some ip ↦ (remember_resolved net domain ip c, some ip)
    ]

-- `dnsCache.Get`
pub cache_get : Network → Caches → Bytes → Option Bytes
cache_get net c key = elim net.cached [ none ↦ none | some get ↦ get c.dns key ]

-- `dnsResolve`; the Boolean is `cached`.
pub dns_resolve : Network → Bytes → DnsMode → Caches → Caches × Option (Bytes × Bool)
unfolding cache_get do_dns_resolve
dns_resolve net domain mode c = elim (cache_get net c domain) [
  | some ip ↦ (c, some (ip, true))
  | none ↦
      let (c', r) = do_dns_resolve net domain mode c in
      (c', elim r [ none ↦ none | some ip ↦ some (ip, false) ])
]

-- `coreResolver.Resolve`
pub resolve_domain : Network → Bytes → DnsMode → Caches → Caches × Option (Bytes × Bool)
unfolding dns_resolve
resolve_domain net domain mode c =
    let (c', r) = dns_resolve net domain mode c in
    elim r [
      | none ↦ (c', none)
      | some (ip, was) ↦
          (record c' { ip_domains = remember_mapping domain ip c'.ip_domains }, some (ip, was))
    ]

-- `pickBootstrapIP`, with the text of the first address so far.
pub pick_from : Bytes → List (Option IpAddr) → Bytes
pick_from first [] = first
pick_from first (none ∷ addrs) = pick_from first addrs
pick_from first (some addr ∷ addrs) = elim addr.v4 [
  | some v4 ↦ v4
  | none ↦ pick_from (if is_empty first then addr.text else first) addrs
]

pub pick_bootstrap_ip : List (Option IpAddr) → Bytes
unfolding pick_from
pick_bootstrap_ip = pick_from []

-- `resolveBootstrapHost`
pub resolve_bootstrap_host : Network → Bytes → Caches → Caches × Option Bytes
unfolding cache_get pick_bootstrap_ip remember_resolved
resolve_bootstrap_host net host c =
    if is_empty host || net.is_ip host then (c, some host) else elim (cache_get net c host) [
      | some ip ↦ (c, some ip)
      | none ↦ elim (net.lookup_ip host) [
        | none ↦ (c, none)
        | some addrs ↦
            let ip = pick_bootstrap_ip addrs in
            if is_empty ip then (c, none) else (remember_resolved net host ip c, some ip)
      ]
    ]
