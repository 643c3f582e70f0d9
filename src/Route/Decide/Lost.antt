-- ===== src/Route/Decide/Lost.antt =====
-- Two places where the decision of internal/policy.go and internal/utils.go loses a policy: a rule
-- looked up in another case than it was found in, and a redirection without a logger.
use bill_vpn.Common.{
  ◌≡◌, ◌≢◌, refl, Bool, true, false, none, some, [], ◌∷◌, Bytes, Bytes-discrete, if_neg, ℕ,
}
use bill_vpn.FakeIp.{to_lower}
use bill_vpn.Policy.{Policy, merge_policies, plain_fallback_policy}
use bill_vpn.Route.{
  is_empty-false, Env, find_rule, classify_domain_route, route_rule, ip_redirect, map_target,
  get_ip_policy,
}
use bill_vpn.Route.Decide.{domain_rule, domain_policy, decide_target, gen_policy_with_options}

classify-rule :
    (env : Env) (host : Bytes) (q : Policy)
    → to_lower host ≢ []
    → find_rule env (to_lower host) ≡ some q
    → classify_domain_route env host ≡ route_rule
unfolding classify_domain_route
classify-rule env host q full e =
    rw (classify_domain_route, is_empty-false (to_lower host) full, e) refl

-- For a host with a rule for its lower-case spelling and none for its own spelling, the policy is
-- the plain fallback merged with the default policy, and no domain counts as matched.
pub rule_lost_by_case :
    (env : Env) (logged resolve_domain : Bool) (host : Bytes) (q : Policy)
    → env.is_ip host ≡ false
    → to_lower host ≢ []
    → find_rule env (to_lower host) ≡ some q
    → find_rule env host ≡ none
    → gen_policy_with_options env logged resolve_domain host
      ≡ decide_target env logged resolve_domain host none
          (merge_policies (plain_fallback_policy ∷ env.default_policy ∷ []))
          false
unfolding gen_policy_with_options domain_rule domain_policy
rule_lost_by_case env logged resolve_domain host q not_ip full lower none_found =
    rw (gen_policy_with_options, not_ip, classify-rule env host q full lower, none_found) refl

-- When an address has a policy whose map_to names another address, `ipRedirect` returns that
-- policy if it has a logger, and the policy of the new address (perhaps none) if it has not.
pub policy_lost_without_logger :
    (env : Env) (ip target : Bytes) (p : Policy) (c : ℕ) (map_to : Bytes)
    → get_ip_policy env ip ≡ some p
    → p.map_to ≡ some (c ∷ map_to)
    → map_target env ip (c ∷ map_to) ≡ some target
    → ip ≢ target
    → (ip_redirect env true ip ≡ some (target, some p))
      × (ip_redirect env false ip ≡ some (target, get_ip_policy env target))
unfolding ip_redirect
policy_lost_without_logger env ip target p c map_to found mapped e other = (
  simp (ip_redirect, found, mapped, e, if_neg {C = Bool} (Bytes-discrete ip target) other),
  simp (ip_redirect, found, mapped, e),
)
