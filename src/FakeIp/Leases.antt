-- ===== src/FakeIp/Leases.antt =====
-- The promises of the store of internal/fake_ip.go to its callers: `Allocate` on every branch, and
-- the domain that `LookupDomain` finds for an address that `Allocate` gave out.
use bill_vpn.Common.{
  pos, ◌+◌, ℕ, refl, ◌≤◌, ◌<◌, ◌≡◌, ◌≢◌, refl, some, Bytes, true, false, arith, Option-cases,
  Bool-cases, inl, inr, Returns, returns, Returns-map, ℤ, [], ◌*◌, ◌∷◌,
}
use bill_vpn.FakeIp.{
  Store, allocated, is_live, lookup_entry, cleanup_expired, allocate, expiry, to_lower, is_empty,
  lookup_domain, delete_entry, fake_ip_lifetime, second,
}
use bill_vpn.FakeIp.Linked.{Cleans-cleanup_expired, Cleans-delete_entry}
use bill_vpn.FakeIp.Valid.{IsValid, IsValid-Cleans}
use bill_vpn.FakeIp.Allocate.{Outcome, refused, taken, allocate_locked-Returns, cleaned-Outcome}

is_empty_sound : (d : Bytes) → is_empty d ≡ true → d ≡ []
unfolding is_empty
is_empty_sound [] e = refl
is_empty_sound (c ∷ d) e = cc

is_empty_complete : (d : Bytes) → is_empty d ≡ false → d ≢ []
unfolding is_empty
is_empty_complete [] e h = cc
is_empty_complete (c ∷ d) e h = cc

-- For a valid store, `Allocate` ends, on every branch. A domain that is empty is refused and the
-- store stays. A result address is bound to the lower-case domain until the new expiry, in a
-- store that is valid again and keeps every live entry of another domain. The error of a full
-- pool comes only if every address of the pool is live.
pub allocate-Outcome :
    (to_text : ℕ → Bytes) (now : ℕ) (domain : Bytes) (lifetime : ℤ) (s : Store)
    → IsValid to_text s
    → Returns
        (Outcome to_text now (to_lower domain) (expiry now lifetime) s)
        (allocate to_text now domain lifetime s)
unfolding allocate
allocate-Outcome to_text now domain lifetime s v = elim (Bool-cases (is_empty (to_lower domain))) [
  | inl e ↦ rw e (returns (refused (is_empty_sound (to_lower domain) e) refl))
  | inr e ↦
      let c = Cleans-cleanup_expired now s v.linked in
      rw e (
        Returns-map
          (λ r o.
            cleaned-Outcome to_text now (to_lower domain) (expiry now lifetime) s v
              (cleanup_expired now s) r c o (is_empty_complete (to_lower domain) e))
          (allocate_locked-Returns to_text now (to_lower domain) (expiry now lifetime)
            (cleanup_expired now s) (IsValid-Cleans to_text now s (cleanup_expired now s) v c)))
]

-- An address that `Allocate` returned for a domain, on a valid store, is looked up as that domain
-- (in lower case) until the lease's expiry, and the lookup leaves the store as it is.
pub lookup_domain-allocate :
    (to_text : ℕ → Bytes) (now later : ℕ) (domain : Bytes) (lifetime : ℤ) (s t : Store) (ip : Bytes)
    → IsValid to_text s
    → allocate to_text now domain lifetime s ≡ some (t, allocated ip)
    → later < expiry now lifetime
    → lookup_domain later ip t ≡ (t, some (to_lower domain))
unfolding lookup_domain
lookup_domain-allocate to_text now later domain lifetime s t ip v e soon =
    go (rw (← e) (allocate-Outcome to_text now domain lifetime s v))
  where
    go :
        Returns
          (Outcome to_text now (to_lower domain) (expiry now lifetime) s)
          (some (t, allocated ip))
        → lookup_domain later ip t ≡ (t, some (to_lower domain))
    go (returns (taken w found keeps)) = ground (arith, soon)

-- A lookup keeps a valid store valid.
pub lookup_domain-IsValid :
    (to_text : ℕ → Bytes) (now : ℕ) (ip : Bytes) (s : Store)
    → IsValid to_text s
    → IsValid to_text ((lookup_domain now ip s).0)
unfolding lookup_domain
lookup_domain-IsValid to_text now ip s v = elim (Option-cases (lookup_entry ip s.ip_to_entry)) [
  | inl absent ↦ rw (lookup_domain, absent) v
  | inr (e, found) ↦ elim (Bool-cases (is_live now e)) [
    | inl live ↦ rw (lookup_domain, found, live) v
    | inr dead ↦
        let (place, linked) = v.linked.by_ip ip e found in
        rw (lookup_domain, found, dead)
          (IsValid-Cleans to_text now s (delete_entry s e) v
            (Cleans-delete_entry now s e v.linked linked dead))
  ]
]

-- A lease is at least as long as the DNS cache's lifetime, as the record's time to live, and as one
-- second.
pub fake_ip_lifetime-bounds :
    (cache ttl : ℕ)
    → (cache ≤ fake_ip_lifetime cache ttl)
      × (ttl * second ≤ fake_ip_lifetime cache ttl)
      × (second ≤ fake_ip_lifetime cache ttl)
unfolding fake_ip_lifetime
fake_ip_lifetime-bounds cache ttl = (ground arith, ground arith, ground arith)

-- The expiry of a lease of a second or more.
pub expiry-second : (now n : ℕ) → second ≤ n → now + second ≤ expiry now (pos n)
unfolding expiry
expiry-second now n h = ground arith
