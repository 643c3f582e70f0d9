-- ===== src/Recorded.antt =====
-- The DNS answers that internal/dns.go records for a domain, from `rememberRecordedDNSAnswers` to
-- `lookupRecordedDNSIP`, and `fallbackFakeTTL`. The cache `ipDomainCache` of the package freelru
-- is the list of the entries added to it, the last one first; times are nanoseconds.
pub mod Reads
pub mod Tests
use bill_vpn.Common.{
  ℕ, ◌+◌, ◌*◌, Bool, true, false, not, ◌&&◌, Option, none, some, List, [], ◌∷◌, Bytes,
  Bytes-discrete, if◌then◌else◌, ltb, ◌==◌, find, put, delete,
}
use bill_vpn.FakeIp.{to_lower, second, default_fake_ttl}
use bill_vpn.Policy.{DnsMode, dns_unknown, prefer_ipv4, prefer_ipv6, ipv4_only, ipv6_only}
use bill_vpn.Route.{is_empty}

-- `recordedDNSEntry`
pub record Entry : Type 0 where
  pub ipv4 : Bytes
  pub ipv4_expire : ℕ
  pub ipv6 : Bytes
  pub ipv6_expire : ℕ

abbrev pub no_entry : Entry
no_entry = record { ipv4 = []; ipv4_expire = 0; ipv6 = []; ipv6_expire = 0 }

-- `dns.RR`: the text of the address and the TTL of an A or AAAA record, and the rest.
pub data Answer : Type 0 where
  a aaaa : Bytes → ℕ → Answer
  other : ℕ → Answer

pub record Records : Type 0 where
  pub recorded : List (Bytes × Entry)
  pub ip_domains : List (Bytes × Bytes)

-- `ttlOrDefault`
pub ttl_or_default : ℕ → ℕ
ttl_or_default ttl = if ttl == 0 then 300 else ttl

-- `rememberDomainIPMapping`
pub remember_mapping : Bytes → Bytes → List (Bytes × Bytes) → List (Bytes × Bytes)
remember_mapping domain ip m =
    if is_empty domain then m else if is_empty ip then m else (ip, domain) ∷ m

pub remember_answer :
    ℕ → Bytes → Answer → Entry × List (Bytes × Bytes) → Entry × List (Bytes × Bytes)
unfolding ttl_or_default remember_mapping
remember_answer now domain (a ip ttl) (e, m) = (
  record e { ipv4 = ip; ipv4_expire = now + ttl_or_default ttl * second },
  remember_mapping domain ip m,
)
remember_answer now domain (aaaa ip ttl) (e, m) = (
  record e { ipv6 = ip; ipv6_expire = now + ttl_or_default ttl * second },
  remember_mapping domain ip m,
)
remember_answer now domain (other ttl) (e, m) = (e, m)

pub remember_all :
    ℕ → Bytes → List Answer → Entry × List (Bytes × Bytes) → Entry × List (Bytes × Bytes)
unfolding remember_answer
remember_all now domain [] s = s
remember_all now domain (r ∷ rs) s = remember_all now domain rs (remember_answer now domain r s)

-- `recordedDNSIPs[domain]`, the zero entry if there is none.
pub entry_at : Bytes → List (Bytes × Entry) → Entry
entry_at domain m = elim (find Bytes-discrete domain m) [ none ↦ no_entry | some e ↦ e ]

pub remember_recorded_dns_answers : ℕ → Bytes → List Answer → Records → Records
unfolding remember_all entry_at
remember_recorded_dns_answers now domain [] s = s
remember_recorded_dns_answers now domain (r ∷ rs) s =
    if is_empty domain
    then s
    else (let key = to_lower domain in
        let (e, m) = remember_all now key (r ∷ rs) (entry_at key s.recorded, s.ip_domains) in
        if is_empty e.ipv4 && is_empty e.ipv6
        then record s { ip_domains = m }
        else record { recorded = put Bytes-discrete key e s.recorded; ip_domains = m })

-- `entry.ipv4 != "" && now.Before(entry.ipv4Expire)`
abbrev pub is_valid_until : ℕ → Bytes → ℕ → Bool
is_valid_until now ip expire = not (is_empty ip) && ltb now expire

-- The entry with what has expired cleared.
pub prune_entry : ℕ → Entry → Entry
prune_entry now e =
    let four = is_valid_until now e.ipv4 e.ipv4_expire in
    let six = is_valid_until now e.ipv6 e.ipv6_expire in
    record {
      ipv4 = if four then e.ipv4 else [];
      ipv4_expire = if four then e.ipv4_expire else 0;
      ipv6 = if six then e.ipv6 else [];
      ipv6_expire = if six then e.ipv6_expire else 0;
    }

abbrev pub when_valid : Bool → Bytes → Option Bytes → Option Bytes
when_valid valid ip rest = if valid then some ip else rest

-- The `switch` on the DNS mode.
pub select_ip : DnsMode → Bool → Bool → Entry → Option Bytes
select_ip ipv4_only four six e = when_valid four e.ipv4 none
select_ip ipv6_only four six e = when_valid six e.ipv6 none
select_ip prefer_ipv6 four six e = when_valid six e.ipv6 (when_valid four e.ipv4 none)
select_ip prefer_ipv4 four six e = when_valid four e.ipv4 (when_valid six e.ipv6 none)
select_ip dns_unknown four six e = when_valid four e.ipv4 (when_valid six e.ipv6 none)

pub lookup_recorded_dns_ip : ℕ → Bytes → DnsMode → Records → Records × Option Bytes
unfolding prune_entry select_ip
lookup_recorded_dns_ip now domain mode s =
    if is_empty domain
    then (s, none)
    else (let key = to_lower domain in
        elim (find Bytes-discrete key s.recorded) [
          | none ↦ (s, none)
          | some e ↦
              let four = is_valid_until now e.ipv4 e.ipv4_expire in
              let six = is_valid_until now e.ipv6 e.ipv6_expire in
              let kept = prune_entry now e in
              if is_empty kept.ipv4 && is_empty kept.ipv6
              then (record s { recorded = delete Bytes-discrete key s.recorded }, none)
              else (
                record s { recorded = put Bytes-discrete key kept s.recorded },
                select_ip mode four six kept,
              )
        ])

-- The body of the loop in `consider`, at the TTL of a record that has a header.
pub consider_one : ℕ → ℕ → ℕ
consider_one least ttl =
    if ttl == 0 then least else if least == 0 then ttl else if ltb ttl least then ttl else least

-- The closure `consider` of `fallbackFakeTTL`.
pub consider : ℕ → List ℕ → ℕ
unfolding consider_one
consider least [] = least
consider least (ttl ∷ ttls) = consider (consider_one least ttl) ttls

-- `fallbackFakeTTL`, over the sections of the response, if there is one.
pub fallback_fake_ttl : Option (List ℕ × List ℕ × List ℕ) → ℕ
unfolding consider
fallback_fake_ttl none = default_fake_ttl
fallback_fake_ttl (some (answer, ns, extra)) =
    let least = consider (consider (consider 0 answer) ns) extra in
    if least == 0 then default_fake_ttl else least
