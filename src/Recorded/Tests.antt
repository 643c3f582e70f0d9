-- ===== src/Recorded/Tests.antt =====
-- The theorems on the recorded DNS answers of internal/dns.go at one domain.
use bill_vpn.Common.{
  ℕ_discrete, delete, put, ◌≡◌, refl, some, [], ◌∷◌, ◌++◌, Bytes-discrete, codes, find, put, arith,
}
use bill_vpn.FakeIp.{to_lower}
use bill_vpn.Policy.{prefer_ipv4, ipv4_only}
use bill_vpn.Recorded.{
  Entry, no_entry, Records, a, other, lookup_recorded_dns_ip, remember_recorded_dns_answers,
  prune_entry, select_ip, ttl_or_default,
}
use bill_vpn.Recorded.Reads.{Answers, lookup_recorded_sound, lookup_recorded-remember}

program : Unit {0}
unfolding lookup_recorded_dns_ip prune_entry select_ip find put delete Bytes-discrete ℕ_discrete
    to_lower ttl_or_default
program = tt

abbrev entry : Entry
entry = record no_entry { ipv4 = codes "1.2.3.4"; ipv4_expire = 50 }

abbrev records : Records
records = record { recorded = (codes "a.b", entry) ∷ []; ip_domains = [] }

looked_up :
    lookup_recorded_dns_ip 40 (codes "A.b") prefer_ipv4 records ≡ (records, some (codes "1.2.3.4"))
unfolding program
looked_up = refl

lookup_recorded_sound_example :
    (e : Entry) × (find Bytes-discrete (to_lower (codes "A.b")) records.recorded ≡ some e)
    × Answers 40 prefer_ipv4 e (codes "1.2.3.4")
lookup_recorded_sound_example =
    lookup_recorded_sound 40 (codes "A.b") prefer_ipv4 records records (codes "1.2.3.4") looked_up

lookup_recorded-remember_example :
    (lookup_recorded_dns_ip 45 (codes "A.b") ipv4_only (
      remember_recorded_dns_answers 40
        (codes "A.b")
        ((other 3 ∷ []) ++ (a (codes "1.2.3.4") 0 ∷ []))
        records)).1
    ≡ some (codes "1.2.3.4")
lookup_recorded-remember_example =
    lookup_recorded-remember 40 45 (codes "A.b") (other 3 ∷ []) b'1' (codes ".2.3.4") 0 records
      (λ e. ground arith) (unfold program in omega arith)
