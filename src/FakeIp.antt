-- ===== src/FakeIp.antt =====
-- The fake-IP store of internal/fake_ip.go. An address is its number, a prefix the number of its
-- network address and the count of its addresses, and a time the nanoseconds since some epoch.
-- `Addr.String` is the parameter `to_text`. The loop of `Allocate` takes fuel, `none` if it runs
-- out.
pub mod Linked
pub mod Valid
pub mod Allocate
pub mod Leases
pub mod Tests
use bill_vpn.Common.{
  ℕ, zero, suc, ◌+◌, ◌-◌, ◌*◌, ◌/◌, Bool, true, false, not, ◌&&◌, Option, none, some, List, [], ◌∷◌,
  map, Bytes, Bytes-discrete, find, put, delete, ltb, leb, ◌==◌, if◌then◌else◌, ite, ℤ, pos, negsuc,
  pos_part, ltb_ℤ,
}

pub record Prefix : Type 0 where
  pub base : ℕ
  pub span : ℕ

-- `Prefix.Contains`
pub contains : Prefix → ℕ → Bool
contains p a = (a / p.span) == (p.base / p.span)

pub record Entry : Type 0 where
  pub domain : Bytes
  pub ip : Bytes
  pub expires_at : ℕ

pub record Store : Type 0 where
  pub prefix : Prefix
  pub next : ℕ
  pub domain_to_entry : List (Bytes × Entry)
  pub ip_to_entry : List (Bytes × Entry)

pub new_store : Prefix → Store
new_store p = record { prefix = p; next = p.base + 1; domain_to_entry = []; ip_to_entry = [] }

-- `strings.ToLower` on ASCII.
unfoldable pub to_lower : Bytes → Bytes
to_lower = map (λ c. if leb b'A' c && leb c b'Z' then c + 32 else c)

-- `entry.expiresAt.After(now)`
abbrev pub is_live : ℕ → Entry → Bool
is_live now e = ltb now e.expires_at

abbrev pub lookup_entry : Bytes → List (Bytes × Entry) → Option Entry
lookup_entry = find Bytes-discrete

drop_domain : Entry → List (Bytes × Entry) → List (Bytes × Entry)
drop_domain e m = elim (lookup_entry e.domain m) [
  | none ↦ m
  | some current ↦ ite (Bytes-discrete current.ip e.ip) (delete Bytes-discrete e.domain m) m
]

drop_ip : Entry → List (Bytes × Entry) → List (Bytes × Entry)
drop_ip e m = elim (lookup_entry e.ip m) [
  | none ↦ m
  | some current ↦ ite (Bytes-discrete current.domain e.domain) (delete Bytes-discrete e.ip m) m
]

pub delete_entry : Store → Entry → Store
unfolding drop_domain drop_ip
delete_entry s e = record s {
  domain_to_entry = drop_domain e s.domain_to_entry;
  ip_to_entry = drop_ip e s.ip_to_entry;
}

-- One round of `cleanupExpiredLocked`, at a key of the map.
cleanup_key : ℕ → Bytes → Store → Store
unfolding delete_entry
cleanup_key now k s = elim (lookup_entry k s.domain_to_entry) [
  | none ↦ s
  | some e ↦ if not (is_live now e) then delete_entry s e else s
]

cleanup_keys : ℕ → List Bytes → Store → Store
unfolding cleanup_key
cleanup_keys now [] s = s
cleanup_keys now (k ∷ ks) s = cleanup_keys now ks (cleanup_key now k s)

-- The loop over the map `domainToEntry`: its keys as they stand at the start.
pub cleanup_expired : ℕ → Store → Store
unfolding cleanup_keys
cleanup_expired now s = cleanup_keys now (map (λ b. b.0) s.domain_to_entry) s

-- The results of `Allocate` beside the new store.
pub data Allocation : Type 0 where
  allocated : Bytes → Allocation
  empty_domain exhausted : Allocation

abbrev pub second : ℕ
second = 1_000_000_000

abbrev pub default_fake_ttl : ℕ
default_fake_ttl = 60

pub is_empty : Bytes → Bool
is_empty [] = true
is_empty (c ∷ s) = false

-- `now.Add(lifetime)` with the default for a lifetime that is not positive.
pub expiry : ℕ → ℤ → ℕ
expiry now lifetime =
    now + (if ltb_ℤ (pos 0) lifetime then pos_part lifetime else default_fake_ttl * second)

-- A domain that has an entry keeps its address and gets a new time.
pub refresh : Store → Bytes → ℕ → Entry → Store
refresh s domain expires e =
    let fresh : Entry = record e { expires_at = expires } in
    record s {
      domain_to_entry = put Bytes-discrete domain fresh s.domain_to_entry;
      ip_to_entry = put Bytes-discrete fresh.ip fresh s.ip_to_entry;
    }

pub put_entry : Store → Entry → Store
put_entry s e = record s {
  domain_to_entry = put Bytes-discrete e.domain e s.domain_to_entry;
  ip_to_entry = put Bytes-discrete e.ip e s.ip_to_entry;
}

-- `if !s.prefix.Contains(candidate) { candidate = s.prefix.Addr().Next() }`
pub wrap_candidate : Prefix → ℕ → ℕ
unfolding contains
wrap_candidate p a = if contains p a then a else p.base + 1

module _ (to_text : ℕ → Bytes) where
  -- The end of the loop's body: the candidate is taken.
  pub assign : Store → Bytes → ℕ → ℕ → Store
  unfolding put_entry
  assign s domain expires a =
      record (put_entry s (record { domain = domain; ip = to_text a; expires_at = expires })) {
        next = a + 1;
      }

  pub allocate_loop : ℕ → ℕ → Bytes → ℕ → ℕ → ℕ → Store → Option (Store × Allocation)
  unfolding wrap_candidate delete_entry assign
  allocate_loop zero now domain expires start candidate s = none
  allocate_loop (suc fuel) now domain expires start candidate s =
      let a = wrap_candidate s.prefix candidate in
      let rest = allocate_loop fuel now domain expires start (a + 1) s in
      elim (lookup_entry (to_text a) s.ip_to_entry) [
        | none ↦ some (assign s domain expires a, allocated (to_text a))
        | some e ↦
            if is_live now e
            then if a + 1 == start then some (s, exhausted) else rest
            else some (assign (delete_entry s e) domain expires a, allocated (to_text a))
      ]

  -- The part of `Allocate` behind the cleanup.
  pub allocate_locked : ℕ → Bytes → ℕ → Store → Option (Store × Allocation)
  allocate_locked now domain expires s = elim (lookup_entry domain s.domain_to_entry) [
    | some e ↦ some (refresh s domain expires e, allocated e.ip)
    | none ↦ allocate_loop (s.prefix.span + 2) now domain expires s.next s.next s
  ]

  -- `Allocate`, with the time that `s.now()` returns.
  pub allocate : ℕ → Bytes → ℤ → Store → Option (Store × Allocation)
  unfolding expiry
  allocate now domain lifetime s =
      if is_empty (to_lower domain)
      then some (s, empty_domain)
      else allocate_locked now (to_lower domain) (expiry now lifetime) (cleanup_expired now s)

-- `LookupDomain`, with the time that `s.now()` returns.
pub lookup_domain : ℕ → Bytes → Store → Store × Option Bytes
lookup_domain now ip s = elim (lookup_entry ip s.ip_to_entry) [
  | none ↦ (s, none)
  | some e ↦ if not (is_live now e) then (delete_entry s e, none) else (s, some e.domain)
]

-- `fakeIPLifetime`, with `dnsCacheTTL` as an argument; nanoseconds.
pub fake_ip_lifetime : ℕ → ℕ → ℕ
fake_ip_lifetime dns_cache_ttl ttl =
    let lifetime = (if ttl == 0 then default_fake_ttl else ttl) * second in
    if ltb lifetime dns_cache_ttl then dns_cache_ttl else lifetime

-- `lookupFakeDomainByIP`: the IPv4 store first, then the IPv6 store.
pub lookup_fake_domain : ℕ → Bytes → Store → Store → Store × Store × Option Bytes
unfolding lookup_domain
lookup_fake_domain now ip v4 v6 =
    let (v4', r) = lookup_domain now ip v4 in
    elim r [
      | some d ↦ (v4', v6, some d)
      | none ↦ let (v6', r') = lookup_domain now ip v6 in (v4', v6', r')
    ]
