-- ===== src/Route/Plan.antt =====
-- `PlanRequest`, `TargetAddress` and `OriginAddress` of internal/dial_plan.go.
pub mod Recover
use bill_vpn.Common.{Bool, true, false, Option, none, some, [], Bytes, if◌then◌else◌, ℤ, pos, ltb_ℤ}
use bill_vpn.Policy.{Policy}
use bill_vpn.Route.{Env, is_empty, Decision}
use bill_vpn.Route.Decide.{gen_policy_with_options}

pub data RequestSource : Type 0 where
  source_unknown source_mobile source_socks5 source_http : RequestSource

pub data DomainTargetMode : Type 0 where
  resolve_domain_target preserve_domain_target : DomainTargetMode

pub record RequestContext : Type 0 where
  pub source : RequestSource
  pub host : Bytes
  pub port : ℤ
  pub domain_target_mode : DomainTargetMode

pub record DialPlan : Type 0 where
  pub source : RequestSource
  pub origin_host : Bytes
  pub origin_port : ℤ
  pub recovered_domain : Bytes
  pub matched_domain : Bool
  pub matched_ip : Bool
  pub target_host : Bytes
  pub target_port : ℤ
  pub policy : Policy
  pub blocked : Bool

abbrev pub resolves : DomainTargetMode → Bool
resolves preserve_domain_target = false
resolves resolve_domain_target = true

-- The end of `PlanRequest`.
unfoldable pub plan_of : RequestContext → Bytes → Decision → Option DialPlan
plan_of req recovered d =
    if d.failed
    then none
    else some (record {
      source = req.source;
      origin_host = req.host;
      origin_port = req.port;
      recovered_domain = recovered;
      matched_domain = d.matched_domain;
      matched_ip = d.matched_ip;
      target_host = d.dst_host;
      target_port = if ltb_ℤ (pos 0) d.policy.port then d.policy.port else req.port;
      policy = d.policy;
      blocked = d.blocked;
    })

-- `none` stands for an error.
unfoldable pub plan_request : Env → Bool → RequestContext → Option DialPlan
unfolding plan_of
plan_request env logged req =
    if is_empty req.host
    then none
    else (let recovered = if env.is_ip req.host then env.recover_domain req.host else [] in
        let planning_host = if is_empty recovered then req.host else recovered in
        plan_of req recovered
          (gen_policy_with_options env logged (resolves req.domain_target_mode) planning_host))

-- `TargetAddress`, with `net.JoinHostPort` as an argument.
unfoldable pub target_address : (Bytes → ℤ → Bytes) → DialPlan → Bytes
target_address join plan =
    if ltb_ℤ (pos 0) plan.target_port
    then join plan.target_host plan.target_port
    else plan.target_host

-- `OriginAddress`
pub origin_address : (Bytes → ℤ → Bytes) → DialPlan → Bytes
origin_address join plan =
    if ltb_ℤ (pos 0) plan.origin_port
    then join plan.origin_host plan.origin_port
    else plan.origin_host
