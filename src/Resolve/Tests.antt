-- ===== src/Resolve/Tests.antt =====
-- The theorems on internal/dns.go for a server that knows `a.b` by an IPv4 address.
use bill_vpn.Common.{
  ◌≡◌, refl, true, false, Option, none, some, List, [], ◌∷◌, Bytes, Bytes-discrete, ℕ_discrete,
  codes, ite, arith,
}
use bill_vpn.FakeAnswer.{Rr, Msg}
use bill_vpn.Policy.{ipv4_only, ipv6_only}
use bill_vpn.Recorded.{remember_mapping}
use bill_vpn.Resolve.{
  Caches, Network, pick_first, first_question, answers_of, pick_by_mode, remember_resolved,
  do_dns_resolve, dns_resolve,
}
use bill_vpn.Resolve.Families.{Found, do_dns_resolve-Found}
use bill_vpn.Resolve.Cached.{dns_resolve_any_mode}

abbrev record_a : Rr
record_a = record {
  header = some (record { name = codes "a.b."; rrtype = 1; class = 1; ttl = 60 });
  value = codes "1.2.3.4";
}

abbrev answer : Msg
answer = record { rcode = 0; question = []; answer = record_a ∷ []; ns = []; extra = [] }

abbrev last_added : List (Bytes × Bytes) → Bytes → Option Bytes
last_added [] d = none
last_added ((k, v) ∷ cs) d = ite (Bytes-discrete k d) (some v) none

abbrev network : Network
network = record {
  cached = some last_added;
  exchange = λ question. some answer;
  lookup_ip = λ host. none;
  is_ip = λ host. false;
}

abbrev empty : Caches
empty = record { dns = []; ip_domains = [] }

abbrev resolved : Caches
resolved = record {
  dns = (codes "a.b", codes "1.2.3.4") ∷ [];
  ip_domains = remember_mapping (codes "a.b") (codes "1.2.3.4") [];
}

resolves_once :
    do_dns_resolve network (codes "a.b") ipv4_only empty ≡ (resolved, some (codes "1.2.3.4"))
unfolding do_dns_resolve answers_of first_question pick_by_mode pick_first remember_resolved
resolves_once = refl

do_dns_resolve-Found_example : Found network (codes "a.b") ipv4_only (codes "1.2.3.4")
do_dns_resolve-Found_example =
    do_dns_resolve-Found network (codes "a.b") (codes "1.2.3.4") ipv4_only empty resolved
      (λ e. ground (arith, e)) resolves_once

dns_resolve_any_mode_example :
    dns_resolve network (codes "a.b") ipv6_only resolved ≡ (resolved, some (codes "1.2.3.4", true))
unfolding Bytes-discrete ℕ_discrete
dns_resolve_any_mode_example =
    dns_resolve_any_mode network (codes "a.b") (codes "1.2.3.4") ipv4_only ipv6_only empty resolved
      last_added refl (λ cs. refl) resolves_once
