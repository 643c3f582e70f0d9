-- ===== src/Tunnel/Tests.antt =====
-- The theorems on internal/tunnel.go for a client that sends a ClientHello for `a.b`.
use bill_vpn.Common.{
  refl, true, false, none, some, [], ◌∷◌, ◌++◌, Bytes, codes, pos, arith, Returns,
}
use bill_vpn.ClientHello.Tests.{named_hello, parsed_named, named_record}
use bill_vpn.Policy.{Policy, zero_policy, merge_policies, ttl_d, direct, block}
use bill_vpn.Route.{Env, find_rule}
use bill_vpn.Probe.{error}
use bill_vpn.Desync.{moved}
use bill_vpn.Desync.Sends.{all_ok}
use bill_vpn.Tunnel.{World, Request, policy_of, handle_tls}
use bill_vpn.Tunnel.Blocked.{Untouched, blocks_block, handle_tls_blocked}
use bill_vpn.Tunnel.Dispatch.{HttpRead, unparsed}

abbrev block_policy : Policy
block_policy = record zero_policy { mode = block }

abbrev env : Env
env = record {
  is_ip = λ host. false;
  domain_matcher = some (λ domain. some block_policy);
  gfw_matcher = none;
  gfw_bypass = none;
  ipv4_matcher = λ ip. none;
  ipv6_matcher = λ ip. none;
  default_policy = record zero_policy { mode = direct };
  transform_ip = λ ip net. none;
  pool = λ tag. none;
  bootstrap = λ host. none;
  recorded = λ host mode. none;
  resolve = λ host mode. none;
  recover_domain = λ ip. [];
}

abbrev world : World
world = record {
  env = env;
  dial_ok = true;
  write_fails = none;
  copy_fails = some 1;
  fragment_fails = none;
  ttl_rules = none;
  ttl_search = error;
  outcomes = all_ok (pos 64) (moved 100 ∷ []) 16;
}

abbrev request : Request
request = record {
  policy = record zero_policy { mode = ttl_d; fake_ttl = pos 3 };
  reply_first = true;
  origin_host = codes "a.b";
  target = codes "1.2.3.4:443";
}

abbrev sent : Bytes
sent = named_hello ++ (23 ∷ 9 ∷ [])

abbrev no_http : Bytes → HttpRead
no_http s = unparsed 0

abbrev elsewhere : Request
elsewhere = record request { origin_host = codes "c.d" }

handle_tls_blocked_example : Returns Untouched (handle_tls world elsewhere sent 68)
unfolding policy_of find_rule merge_policies
handle_tls_blocked_example =
    handle_tls_blocked world elsewhere sent (codes "a.b") 68 parsed_named (omega arith)
      (omega arith) named_record refl refl refl (λ e. ground (arith, e)) blocks_block
