-- ===== src/Route/Tests.antt =====
-- The theorems on the decisions of internal/policy.go and internal/dial_plan.go in one small
-- environment: `a.b` and the address `1` have policies, and the fake address `9` is `a.b`.
use bill_vpn.Common.{
  ℕ_discrete, Bytes-discrete, ◌≡◌, refl, true, false, none, some, Option, [], ◌∷◌, Bytes,
  Bytes-discrete, codes, ite, pos, arith, Bool,
}
use bill_vpn.FakeIp.{to_lower}
use bill_vpn.Policy.{Policy, zero_policy, direct, tls_rf}
use bill_vpn.Route.{
  Env, find_rule, get_ip_policy, has_byte, is_ipv6, map_target, classify_domain_route,
  should_use_fake_ip,
}
use bill_vpn.Route.Decide.{gen_policy_with_options}
use bill_vpn.Route.Decide.Sound.{Decided, gen_policy_with_options-Decided}
use bill_vpn.Route.Plan.{RequestContext, plan_request, source_mobile, resolve_domain_target}
use bill_vpn.Route.Plan.Recover.{with_origin, plan_request-recovered}

program : Unit {0}
unfolding find_rule get_ip_policy has_byte is_ipv6 map_target Bytes-discrete ℕ_discrete to_lower
program = tt

abbrev pub direct_policy : Policy
direct_policy = record zero_policy { mode = direct }

abbrev pub mapped_policy : Policy
mapped_policy = record zero_policy { mode = tls_rf; map_to = some (codes "2") }

abbrev pub rules : Bytes → Option Policy
rules domain = ite (Bytes-discrete domain (codes "a.b")) (some direct_policy) none

abbrev pub addresses : Bytes → Option Policy
addresses ip = ite (Bytes-discrete ip (codes "1")) (some mapped_policy) none

abbrev pub is_digit_text : Bytes → Bool
is_digit_text (c ∷ []) = true
is_digit_text _ = false

abbrev pub env : Env
env = record {
  is_ip = is_digit_text;
  domain_matcher = some rules;
  gfw_matcher = none;
  gfw_bypass = none;
  ipv4_matcher = addresses;
  ipv6_matcher = λ ip. none;
  default_policy = record zero_policy { mode = tls_rf };
  transform_ip = λ ip net. none;
  pool = λ tag. none;
  bootstrap = λ host. none;
  recorded = λ host mode. none;
  resolve = λ host mode. some (codes "1");
  recover_domain = λ ip. codes "a.b";
}

-- `a.b` has a rule, so it is answered with fake addresses.
pub rule_uses_fake_ip : should_use_fake_ip env (codes "a.b") ≡ true
unfolding program should_use_fake_ip classify_domain_route
rule_uses_fake_ip = refl

abbrev request : RequestContext
request = record {
  source = source_mobile;
  host = codes "9";
  port = pos 443;
  domain_target_mode = resolve_domain_target;
}

gen_policy_with_options-Decided_example :
    Decided (gen_policy_with_options env true true (codes "a.b"))
gen_policy_with_options-Decided_example =
    gen_policy_with_options-Decided env refl true true (codes "a.b")

plan_request-recovered_example :
    plan_request env true request
    ≡ with_origin
        (codes "9")
        (codes "a.b")
        (plan_request env true (record request { host = codes "a.b" }))
plan_request-recovered_example =
    plan_request-recovered env true request b'a' (codes ".b") (λ e. ground arith) refl refl refl
