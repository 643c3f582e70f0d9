-- ===== src/Route/Decide.antt =====
-- `genPolicyWithOptions` of internal/policy.go, from the policy of the domain on.
pub mod Sound
pub mod Lost
use bill_vpn.Common.{
  Bool, true, false, not, ◌&&◌, ◌||◌, Option, none, some, [], ◌∷◌, Bytes, if◌then◌else◌, ◌==◌,
}
use bill_vpn.Policy.{Policy, is_block, merge_policies, plain_fallback_policy, gfw_fallback_policy}
use bill_vpn.Route.{
  Env, RouteClass, route_plain, route_rule, route_gfw, is_some, find_rule, classify_domain_route,
  ip_redirect, Decision, fails, blocks, decides, choose_host,
}

-- The branch for a host that is an IP address.
pub gen_ip_policy : Env → Bool → Bytes → Decision
gen_ip_policy env logged host = elim (ip_redirect env logged host) [
  | none ↦ fails false false
  | some (dst, ip_policy) ↦
      let first : Policy = elim ip_policy [ none ↦ plain_fallback_policy | some q ↦ q ] in
      let p = merge_policies (first ∷ env.default_policy ∷ []) in
      if is_block p.mode
      then blocks false (is_some ip_policy)
      else decides dst p false (is_some ip_policy)
]

-- The domain's own policy, and `matchedDomain`.
unfoldable pub domain_rule : Env → Bytes → RouteClass → Option Policy × Bool
unfolding find_rule
domain_rule env host route_rule = (find_rule env host, is_some (find_rule env host))
domain_rule env host route_gfw = (none, true)
domain_rule env host route_plain = (none, false)

-- The policy that the domain's is merged to, without one of its address.
pub domain_policy : Env → RouteClass → Option Policy → Policy
domain_policy env r (some q) = merge_policies (q ∷ env.default_policy ∷ [])
domain_policy env route_gfw none = merge_policies (gfw_fallback_policy ∷ env.default_policy ∷ [])
domain_policy env route_rule none = merge_policies (plain_fallback_policy ∷ env.default_policy ∷ [])
domain_policy env route_plain none =
    merge_policies (plain_fallback_policy ∷ env.default_policy ∷ [])

-- `if strings.HasPrefix(dstHost, tagPrefix)`
pub pool_target : Env → Bytes → Option Bytes
pool_target env [] = some []
pool_target env (c ∷ tag) = if c == b'$' then env.pool tag else some (c ∷ tag)

-- The recorded answer first, then the resolver.
pub resolve_target : Env → Bool → Bool → Policy → Bytes → Option Bytes
resolve_target env skip resolve_domain p dst =
    if not skip && resolve_domain && not (env.is_ip dst)
    then elim (env.recorded dst p.dns_mode) [
      | some ip ↦ some ip
      | none ↦ env.resolve dst p.dns_mode
    ]
    else some dst

-- The redirection of the address, and the policy of its network.
pub redirect_target : Env → Bool → Bool → Option Policy → Policy → Bool → Bytes → Decision
redirect_target env logged skip rule p matched dst =
    if skip || not (env.is_ip dst)
    then decides dst p matched false
    else elim (ip_redirect env logged dst) [
      | none ↦ fails matched false
      | some (target, none) ↦ decides target p matched false
      | some (target, some q) ↦
          let merged : Policy = elim rule [
            | none ↦ merge_policies (q ∷ env.default_policy ∷ [])
            | some r ↦ merge_policies (r ∷ q ∷ env.default_policy ∷ [])
          ] in
          if is_block merged.mode then blocks matched true else decides target merged matched true
    ]

-- The code behind the policy of the domain.
pub decide_target : Env → Bool → Bool → Bytes → Option Policy → Policy → Bool → Decision
unfolding choose_host pool_target resolve_target redirect_target
decide_target env logged resolve_domain host rule p matched =
    let (chosen, skip) = choose_host p.host host in
    elim (pool_target env chosen) [
      | none ↦ fails matched false
      | some dst ↦ elim (resolve_target env skip resolve_domain p dst) [
        | none ↦ fails matched false
        | some target ↦ redirect_target env logged skip rule p matched target
      ]
    ]

unfoldable pub gen_policy_with_options : Env → Bool → Bool → Bytes → Decision
unfolding gen_ip_policy classify_domain_route domain_rule domain_policy decide_target
gen_policy_with_options env logged resolve_domain host =
    if env.is_ip host
    then gen_ip_policy env logged host
    else (let r = classify_domain_route env host in
        let (rule, matched) = domain_rule env host r in
        if elim rule [ none ↦ false | some q ↦ is_block q.mode ]
        then blocks matched false
        else decide_target env logged resolve_domain host rule (domain_policy env r rule) matched)
