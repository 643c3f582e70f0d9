-- ===== src/PolicyConn/Tests.antt =====
-- The theorems on the wrapper of internal/tun_bridge.go at small writes.
use bill_vpn.Common.{◌≡◌, refl, true, false, none, [], ◌∷◌, ◌++◌, codes, pos, Returns, All}
use mathlib.Core.List.{flatten}
use bill_vpn.ClientHello.{byte_at, u16_at}
use bill_vpn.ClientHello.Tests.{parsed_empty, empty_record}
use bill_vpn.Policy.{zero_policy, raw, block, tls_rf}
use bill_vpn.Route.Plan.{DialPlan, source_mobile}
use bill_vpn.PolicyConn.{World, write_all, write_conn}
use bill_vpn.PolicyConn.Twice.{tail_sent_twice}
use bill_vpn.PolicyConn.Streams.{sent, Closes, new_conn, blocked_sends_nothing, raw_sends_all}

abbrev raw_plan : DialPlan
raw_plan = record {
  source = source_mobile;
  origin_host = codes "a.b";
  origin_port = pos 443;
  recovered_domain = [];
  matched_domain = false;
  matched_ip = false;
  target_host = codes "1.2.3.4";
  target_port = pos 443;
  policy = record zero_policy { mode = raw };
  blocked = false;
}

abbrev block_plan : DialPlan
block_plan = record raw_plan { policy = record zero_policy { mode = block } }

abbrev tls_plan : DialPlan
tls_plan = record raw_plan { policy = record zero_policy { mode = tls_rf } }

abbrev world : World
world = record {
  accepts = λ es e. true;
  find_domain = λ d. none;
  default_policy = zero_policy;
  fake_ttl = λ p host ipv6. none;
}

blocked_sends_nothing_example :
    Returns
      (λ c. All Closes c.events)
      (write_all world ((1 ∷ []) ∷ (2 ∷ []) ∷ []) (new_conn block_plan))
blocked_sends_nothing_example =
    blocked_sends_nothing world block_plan ((1 ∷ []) ∷ (2 ∷ []) ∷ []) refl

raw_sends_all_example :
    Returns
      (λ c. sent c.events ≡ flatten ((1 ∷ []) ∷ (2 ∷ 3 ∷ []) ∷ []))
      (write_all world ((1 ∷ []) ∷ (2 ∷ 3 ∷ []) ∷ []) (new_conn raw_plan))
raw_sends_all_example =
    raw_sends_all world raw_plan ((1 ∷ []) ∷ (2 ∷ 3 ∷ []) ∷ []) (λ es e. refl) refl refl

tail_sent_twice_example :
    Returns
      (λ d. sent d.events ≡ (22 ∷ 3 ∷ 1 ∷ 0 ∷ 0 ∷ 77 ∷ []) ++ (77 ∷ []))
      (write_conn world (22 ∷ 3 ∷ 1 ∷ 0 ∷ 0 ∷ 77 ∷ []) (new_conn tls_plan))
tail_sent_twice_example =
    tail_sent_twice world tls_plan 0 77 (1 ∷ 0 ∷ 0 ∷ 77 ∷ []) [] parsed_empty (λ es e. refl) refl
      refl (unfold u16_at byte_at in refl) refl refl empty_record refl
