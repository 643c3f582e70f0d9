-- ===== src/FakeAnswer/Query.antt =====
-- `handleDNSQuery` of internal/dns.go: which queries are answered with fake addresses.
use bill_vpn.Common.{
  ◌≡◌, ◌≢◌, true, not, Option, none, some, List, [], ◌∷◌, Bytes, if◌then◌else◌, ◌==◌, ℕ, arith,
  Returns, Returns-if,
}
use bill_vpn.FakeIp.{to_lower}
use bill_vpn.FakeIp.Valid.{IsValid}
use bill_vpn.Route.{should_use_fake_ip}
use bill_vpn.FakeAnswer.{
  Question, Msg, Stores, Outside, Reply, refused, replied, type_a, type_aaaa,
  build_fake_address_response,
}
use bill_vpn.FakeAnswer.Recovers.{Recovered, build_fake_address_response-Recovered}

-- `dns.ClassINET`
abbrev pub class_inet : ℕ
class_inet = 1

-- `strings.TrimSuffix(name, ".")`
unfoldable pub trim_dot : Bytes → Bytes
trim_dot [] = []
trim_dot (c ∷ []) = if c == b'.' then [] else c ∷ []
trim_dot (c ∷ d ∷ s) = c ∷ trim_dot (d ∷ s)

-- A query that goes to the server as it is.
pub pass_through : Option Msg → Stores → Option (Stores × Reply Msg)
pass_through none s = some (s, refused)
pass_through (some m) s = some (s, replied m)

-- `handleDNSQuery`, with the questions of the request and what `dnsExchange` returns for it.
pub handle_dns_query : Outside → List Question → Option Msg → Stores → Option (Stores × Reply Msg)
unfolding pass_through trim_dot
handle_dns_query o [] upstream s = pass_through upstream s
handle_dns_query o (q ∷ []) upstream s =
    if not (q.qclass == class_inet)
    then pass_through upstream s
    else if q.qtype == type_a
    then build_fake_address_response o (q ∷ []) upstream (to_lower (trim_dot q.qname)) type_a s
    else if q.qtype == type_aaaa
    then build_fake_address_response o (q ∷ []) upstream (to_lower (trim_dot q.qname)) type_aaaa s
    else pass_through upstream s
handle_dns_query o (q ∷ r ∷ qs) upstream s = pass_through upstream s

-- A query with one question, for the IPv4 address of a name whose domain (in lower case, without a
-- last dot) has a rule, answered by the upstream server without an error: an error is returned, or
-- a response in whose answer section every record of type A holds an address that the store looks
-- up as that domain for a second at least, and then the store is valid again.
pub handle_dns_query-Recovered :
    (o : Outside) (q : Question) (upstream : Msg) (s : Stores)
    → ((n : ℕ) → o.to_text n ≢ [])
    → IsValid o.to_text s.v4
    → q.qclass ≡ class_inet
    → q.qtype ≡ type_a
    → upstream.rcode ≡ 0
    → should_use_fake_ip o.env (to_lower (trim_dot q.qname)) ≡ true
    → Returns
        (Recovered o (to_lower (trim_dot q.qname)))
        (handle_dns_query o (q ∷ []) (some upstream) s)
unfolding handle_dns_query
handle_dns_query-Recovered o q upstream s nonempty v class kind success ruled =
    Returns-if (not (q.qclass == class_inet)) (λ e. absurd (ground arith))
      (λ e.
        Returns-if (q.qtype == type_a)
          (λ f.
            build_fake_address_response-Recovered o (to_lower (trim_dot q.qname)) nonempty q
              upstream s v success ruled)
          (λ f. absurd (ground arith)))
