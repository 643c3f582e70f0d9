-- ===== src/HttpProxy/Tests.antt =====
-- The theorem on internal/http.go for a host whose rule blocks.
use bill_vpn.Common.{
  ℕ_discrete, Bytes-discrete, ◌≡◌, refl, true, false, Option, none, some, [], ◌++◌, Bytes, codes,
  pos, arith, ite,
}
use bill_vpn.FakeIp.{to_lower}
use bill_vpn.Policy.{Policy, zero_policy, block}
use bill_vpn.Route.{Env, find_rule, classify_domain_route}
use bill_vpn.Route.Decide.{gen_policy_with_options, domain_rule}
use bill_vpn.Route.Tests.{env}
use bill_vpn.Route.Plan.{DialPlan, plan_request, plan_of, source_http, preserve_domain_target}
use bill_vpn.HttpProxy.{Incoming, Outside, http_request, forward_http_request, forwarded}
use bill_vpn.HttpProxy.Blocked.{blocked_is_forwarded}

abbrev block_rules : Bytes → Option Policy
block_rules domain =
    ite (Bytes-discrete domain (codes "a.b")) (some (record zero_policy { mode = block })) none

abbrev block_env : Env
block_env = record env { domain_matcher = some block_rules }

abbrev plan : DialPlan
plan = record {
  source = source_http;
  origin_host = codes "a.b";
  origin_port = pos 80;
  recovered_domain = [];
  matched_domain = true;
  matched_ip = false;
  target_host = [];
  target_port = pos 80;
  policy = zero_policy;
  blocked = true;
}

planned :
    plan_request block_env true (http_request (codes "a.b") (pos 80) preserve_domain_target)
    ≡ some plan
unfolding plan_request plan_of gen_policy_with_options domain_rule classify_domain_route find_rule
    to_lower Bytes-discrete ℕ_discrete
planned = refl

abbrev outside : Outside
outside = record {
  split_host_port = λ host. some (codes "a.b", codes "80");
  join_host_port = λ host port. host ++ codes ":80";
  atoi = λ text. some (pos 80);
  hijacks = true;
  dial_ok = true;
  write_ok = true;
  round_trip = λ addr. some (pos 200);
}

abbrev request : Incoming
request = record {
  is_connect = false;
  is_abs = true;
  host = codes "a.b:80";
  url_host = codes "a.b:80";
  scheme = codes "http";
  request_uri = codes "/";
}

blocked_is_forwarded_example :
    forward_http_request block_env outside request ≡ forwarded (codes ":80") (pos 200)
blocked_is_forwarded_example =
    blocked_is_forwarded block_env outside request (codes "a.b") (codes "80") (pos 80) (pos 200)
      plan refl (λ e. ground (arith, e)) refl refl refl planned refl refl
