-- ===== src/FakeIp/Tests.antt =====
-- Runs of the store of internal/fake_ip.go, and its theorems at a small pool.
use bill_vpn.Common.{
  ℕ, ◌≡◌, refl, some, [], ◌∷◌, Bytes, codes, pos, arith, Returns, find, put, delete, Bytes-discrete,
}
use bill_vpn.FakeIp.{
  Prefix, Store, Entry, new_store, allocate, allocated, lookup_domain, to_lower, expiry, contains,
  is_empty, cleanup_expired, cleanup_keys, wrap_candidate, assign, put_entry, allocate_loop,
  allocate_locked,
}
use bill_vpn.FakeIp.Valid.{IsNetwork, new_store-IsValid}
use bill_vpn.FakeIp.Allocate.{Outcome}
use bill_vpn.FakeIp.Leases.{allocate-Outcome, lookup_domain-allocate}

program : Unit {0}
unfolding contains to_lower is_empty expiry cleanup_expired cleanup_keys wrap_candidate put_entry
    assign allocate_loop allocate_locked allocate new_store find put delete Bytes-discrete
    lookup_domain
program = tt

abbrev four : Prefix
four = record { base = 100; span = 4 }

abbrev to_text : ℕ → Bytes
to_text a = a ∷ []

abbrev entry : Entry
entry = record { domain = codes "a.b"; ip = 101 ∷ []; expires_at = 15 }

abbrev leased : Store
leased = record {
  prefix = four;
  next = 102;
  domain_to_entry = (codes "a.b", entry) ∷ [];
  ip_to_entry = (101 ∷ [], entry) ∷ [];
}

abbrev fresh : Store
fresh = record { prefix = four; next = 101; domain_to_entry = []; ip_to_entry = [] }

four-IsNetwork : IsNetwork four
four-IsNetwork = record { index = 25; aligned = refl; room = omega arith }

first_lease :
    allocate to_text 5 (codes "A.b") (pos 10) (new_store four) ≡ some (leased, allocated (101 ∷ []))
unfolding program
first_lease = refl

allocate-Outcome_example :
    Returns
      (Outcome to_text 5 (to_lower (codes "A.b")) (expiry 5 (pos 10)) (new_store four))
      (allocate to_text 5 (codes "A.b") (pos 10) (new_store four))
allocate-Outcome_example =
    allocate-Outcome to_text 5 (codes "A.b") (pos 10) (new_store four)
      (new_store-IsValid to_text four four-IsNetwork)

lookup_domain-allocate_example :
    lookup_domain 14 (101 ∷ []) leased ≡ (leased, some (to_lower (codes "A.b")))
lookup_domain-allocate_example =
    lookup_domain-allocate to_text 5 14 (codes "A.b") (pos 10) (new_store four) leased (101 ∷ [])
      (new_store-IsValid to_text four four-IsNetwork) first_lease (unfold program in omega arith)
