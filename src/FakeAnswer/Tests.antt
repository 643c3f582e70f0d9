-- ===== src/FakeAnswer/Tests.antt =====
-- The theorem on `handleDNSQuery` of internal/dns.go for a query of a name that has a rule.
use bill_vpn.Common.{ℕ, refl, true, false, some, [], ◌∷◌, Bytes, codes, arith, Returns}
use bill_vpn.FakeIp.{Prefix, new_store, to_lower}
use bill_vpn.FakeIp.Valid.{new_store-IsValid}
use bill_vpn.Route.Tests.{env, rule_uses_fake_ip}
use bill_vpn.FakeAnswer.{Question, Msg, Stores, Outside}
use bill_vpn.FakeAnswer.Recovers.{Recovered}
use bill_vpn.FakeAnswer.Query.{handle_dns_query, trim_dot, handle_dns_query-Recovered}

abbrev four : Prefix
four = record { base = 100; span = 4 }

abbrev to_text : ℕ → Bytes
to_text a = a ∷ []

abbrev outside : Outside
outside = record {
  now = 5;
  to_text = to_text;
  dns_cache_ttl = 7;
  env = env;
  is_ipv4_text = λ s. true;
  is_ipv6_text = λ s. false;
}

abbrev stores : Stores
stores = record {
  v4 = new_store four;
  v6 = new_store four;
  records = record { recorded = []; ip_domains = [] };
}

abbrev question : Question
question = record { qname = codes "a.b."; qtype = 1; qclass = 1 }

abbrev upstream : Msg
upstream = record { rcode = 0; question = question ∷ []; answer = []; ns = []; extra = [] }

handle_dns_query-Recovered_example :
    Returns
      (Recovered outside (codes "a.b"))
      (handle_dns_query outside (question ∷ []) (some upstream) stores)
unfolding to_lower trim_dot
handle_dns_query-Recovered_example =
    handle_dns_query-Recovered outside question upstream stores (λ n e. ground (arith, e))
      (new_store-IsValid to_text four (record { index = 25; aligned = refl; room = omega arith }))
      refl refl refl rule_uses_fake_ip
