-- ===== src/Route/Decide/Sound.antt =====
-- What the decisions of `genPolicyWithOptions` (internal/policy.go) promise.
use bill_vpn.Common.{
  ◌≡◌, refl, Bool, true, false, not, ◌||◌, Option, none, some, Bytes, if◌then◌else◌, Bool-cases,
  Option-cases, inl, inr,
}
use bill_vpn.Policy.{Policy, is_block, plain_fallback_policy, gfw_fallback_policy}
use bill_vpn.Policy.Merge.{merge_two-open}
use bill_vpn.Route.{
  Env, RouteClass, route_plain, route_rule, route_gfw, classify_domain_route, ip_redirect, Decision,
  fails, blocks, decides, choose_host,
}
use bill_vpn.Route.Decide.{
  gen_ip_policy, domain_rule, domain_policy, pool_target, resolve_target, redirect_target,
  decide_target, gen_policy_with_options,
}

-- A decision either fails, or blocks, or has a policy that does not block.
pub data Decided : Decision → Type 0 where
  is_failed : (d i : Bool) → Decided (fails d i)
  is_blocked : (d i : Bool) → Decided (blocks d i)
  is_decided :
      {dst : Bytes} {p : Policy} {d i : Bool}
      → is_block p.mode ≡ false
      → Decided (decides dst p d i)

Decided-if :
    (dst : Bytes) (p : Policy) (d i : Bool)
    → Decided (if is_block p.mode then blocks d i else decides dst p d i)
Decided-if dst p d i = elim (Bool-cases (is_block p.mode)) [
  | inl e ↦ rw e (is_blocked d i)
  | inr e ↦ rw e (is_decided e)
]

module _ (env : Env) (open_default : is_block env.default_policy.mode ≡ false) (logged : Bool) where
  gen_ip_policy-Decided : (host : Bytes) → Decided (gen_ip_policy env logged host)
  unfolding gen_ip_policy
  gen_ip_policy-Decided host = elim (Option-cases (ip_redirect env logged host)) [
    | inl e ↦ rw (gen_ip_policy, e) (is_failed false false)
    | inr ((t, none), e) ↦ rw (gen_ip_policy, e) (Decided-if t _ false false)
    | inr ((t, some q), e) ↦ rw (gen_ip_policy, e) (Decided-if t _ false true)
  ]

  redirect_target-Decided :
      (skip matched : Bool) (rule : Option Policy) (p : Policy) (dst : Bytes)
      → is_block p.mode ≡ false
      → Decided (redirect_target env logged skip rule p matched dst)
  unfolding redirect_target
  redirect_target-Decided skip matched rule p dst h =
      elim (Bool-cases (skip || not (env.is_ip dst))) [
        | inl e ↦ rw (redirect_target, e) (is_decided h)
        | inr e ↦ elim (Option-cases (ip_redirect env logged dst)) [
          | inl f ↦ rw (redirect_target, e, f) (is_failed matched false)
          | inr ((t, none), f) ↦ rw (redirect_target, e, f) (is_decided h)
          | inr ((t, some q), f) ↦ rw (redirect_target, e, f) (Decided-if t _ matched true)
        ]
      ]

  decide_target-Decided :
      (resolve_domain matched : Bool) (host : Bytes) (rule : Option Policy) (p : Policy)
      → is_block p.mode ≡ false
      → Decided (decide_target env logged resolve_domain host rule p matched)
  unfolding decide_target
  decide_target-Decided resolve_domain matched host rule p h =
      let (chosen, skip) = choose_host p.host host in
      elim (Option-cases (pool_target env chosen)) [
        | inl e ↦ rw (decide_target, e) (is_failed matched false)
        | inr (dst, e) ↦ elim (Option-cases (resolve_target env skip resolve_domain p dst)) [
          | inl f ↦ rw (decide_target, e, f) (is_failed matched false)
          | inr (target, f) ↦
              rw (decide_target, e, f) (redirect_target-Decided skip matched rule p target h)
        ]
      ]

  domain_policy-open :
      (r : RouteClass) (rule : Option Policy)
      → (elim rule [ none ↦ false | some q ↦ is_block q.mode ]) ≡ false
      → is_block (domain_policy env r rule).mode ≡ false
  unfolding domain_policy plain_fallback_policy gfw_fallback_policy
  domain_policy-open r (some q) h = merge_two-open q env.default_policy h open_default
  domain_policy-open route_gfw none h =
      merge_two-open gfw_fallback_policy env.default_policy refl open_default
  domain_policy-open route_rule none h =
      merge_two-open plain_fallback_policy env.default_policy refl open_default
  domain_policy-open route_plain none h =
      merge_two-open plain_fallback_policy env.default_policy refl open_default

  -- With a default policy that does not block, a decision for any host fails, or blocks, or has a
  -- policy that does not block: no blocked policy goes out as a plan to dial.
  pub gen_policy_with_options-Decided :
      (resolve_domain : Bool) (host : Bytes)
      → Decided (gen_policy_with_options env logged resolve_domain host)
  unfolding gen_policy_with_options
  gen_policy_with_options-Decided resolve_domain host = elim (Bool-cases (env.is_ip host)) [
    | inl e ↦ rw (gen_policy_with_options, e) (gen_ip_policy-Decided host)
    | inr e ↦
        let r = classify_domain_route env host in
        let (rule, matched) = domain_rule env host r in
        elim (Bool-cases (elim rule as (λ q. Bool) [ none ↦ false | some q ↦ is_block q.mode ])) [
          | inl f ↦ rw (gen_policy_with_options, e, f) (is_blocked matched false)
          | inr f ↦
              rw (gen_policy_with_options, e, f)
                (decide_target-Decided resolve_domain matched host rule _
                  (domain_policy-open r rule f))
        ]
  ]
