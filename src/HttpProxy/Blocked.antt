-- ===== src/HttpProxy/Blocked.antt =====
-- What internal/http.go does with a request that its plan blocks.
use bill_vpn.Common.{
  ◌≡◌, ◌≢◌, refl, sym, ap, ◌∙◌, inl, inr, Bool, true, false, Option, none, some, [], Bytes,
  if◌then◌else◌, ℤ, pos, ltb_ℤ, arith, Bool-cases,
}
use bill_vpn.Policy.{zero_policy, is_block}
use bill_vpn.Route.{Env, is_empty, is_empty-false, Decision}
use bill_vpn.Route.Decide.Sound.{
  Decided, is_failed, is_blocked, is_decided, gen_policy_with_options-Decided,
}
use bill_vpn.Route.Plan.{
  RequestContext, DialPlan, plan_of, plan_request, resolves, target_address, preserve_domain_target,
}
use bill_vpn.HttpProxy.{
  Incoming, Outside, forwarded, http_request, forward_plan, forward_to, forward_host,
  forward_http_request,
}

-- What is left of a plan that blocks.
abbrev empty_plan : RequestContext → Bytes → Bool → Bool → DialPlan
empty_plan req recovered d i = record {
  source = req.source;
  origin_host = req.host;
  origin_port = req.port;
  recovered_domain = recovered;
  matched_domain = d;
  matched_ip = i;
  target_host = [];
  target_port = req.port;
  policy = zero_policy;
  blocked = true;
}

abbrev IsEmpty : RequestContext → DialPlan → Type 0
IsEmpty req plan =
    (recovered : Bytes) × (d : Bool) × (i : Bool) × (plan ≡ empty_plan req recovered d i)

abbrev blocked_of : Option DialPlan → Bool
blocked_of none = false
blocked_of (some plan) = plan.blocked

plan_of-IsEmpty :
    (req : RequestContext) (recovered : Bytes) (d : Decision) (plan : DialPlan)
    → Decided d
    → plan_of req recovered d ≡ some plan
    → plan.blocked ≡ true
    → IsEmpty req plan
unfolding plan_of
plan_of-IsEmpty req recovered d plan (is_failed a b) h k = absurd (ground (arith, h))
plan_of-IsEmpty req recovered d plan (is_blocked a b) h k =
    let same : empty_plan req recovered a b ≡ plan = cc in (recovered, a, b, sym same)
plan_of-IsEmpty req recovered d plan (is_decided o) h k =
    let f : false ≡ plan.blocked = ap blocked_of h in absurd (ground (arith, f, k))

plan_request-IsEmpty :
    (env : Env) (req : RequestContext) (plan : DialPlan)
    → is_block env.default_policy.mode ≡ false
    → plan_request env true req ≡ some plan
    → plan.blocked ≡ true
    → IsEmpty req plan
unfolding plan_request
plan_request-IsEmpty env req plan lets h k = elim (Bool-cases (is_empty req.host)) [
  | inl e ↦ absurd (ground (arith, plan_request, e, h))
  | inr e ↦
      let recovered = if env.is_ip req.host then env.recover_domain req.host else [] in
      let host = if is_empty recovered then req.host else recovered in
      plan_of-IsEmpty req recovered _ plan
        (gen_policy_with_options-Decided env lets true (resolves req.domain_target_mode) host)
        (rw (plan_request, e) at h) k
]

forward_plan_empty :
    (o : Outside) (req : Incoming) (asked : RequestContext) (recovered : Bytes) (d i : Bool)
    (code : ℤ)
    → ltb_ℤ (pos 0) asked.port ≡ true
    → o.round_trip (o.join_host_port [] asked.port) ≡ some code
    → forward_plan o req req.host (empty_plan asked recovered d i)
      ≡ forwarded (o.join_host_port [] asked.port) code
unfolding forward_plan target_address
forward_plan_empty o req asked recovered d i code positive trip =
    let target : target_address o.join_host_port (empty_plan asked recovered d i)
        ≡ o.join_host_port [] asked.port =
      rw (target_address, positive) refl in
    let back : o.round_trip (target_address o.join_host_port (empty_plan asked recovered d i))
        ≡ some code =
      ap o.round_trip target ∙ trip in
    rw (forward_plan, back) (ap (λ a. forwarded a code) target)

-- Where the default policy does not block: a request to be forwarded whose Host splits into a
-- name and a positive port, and for which the plan blocks, is not refused. It is sent on to the
-- address that `net.JoinHostPort` makes of the empty host and the port, and the client gets that
-- answer.
pub blocked_is_forwarded :
    (env : Env) (o : Outside) (req : Incoming) (origin text : Bytes) (port code : ℤ)
    (plan : DialPlan)
    → is_block env.default_policy.mode ≡ false
    → req.host ≢ []
    → o.split_host_port req.host ≡ some (origin, text)
    → o.atoi text ≡ some port
    → ltb_ℤ (pos 0) port ≡ true
    → plan_request env true (http_request origin port preserve_domain_target) ≡ some plan
    → plan.blocked ≡ true
    → o.round_trip (o.join_host_port [] port) ≡ some code
    → forward_http_request env o req ≡ forwarded (o.join_host_port [] port) code
unfolding forward_http_request forward_host
blocked_is_forwarded env o req origin text port code plan lets full split parse positive planned
      blocked trip =
    let (recovered, d, i, e) =
      plan_request-IsEmpty env (http_request origin port preserve_domain_target) plan lets planned
        blocked in
    let sent : forward_plan o req req.host plan ≡ forwarded (o.join_host_port [] port) code =
      ap (forward_plan o req req.host) e
      ∙ forward_plan_empty o req (http_request origin port preserve_domain_target) recovered d i
          code positive trip in
    rw (is_empty-false req.host full, forward_host, split, forward_to, parse, planned) sent
