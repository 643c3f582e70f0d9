-- ===== src/Route/Plan/Recover.antt =====
-- `PlanRequest` of internal/dial_plan.go on the addresses that the DNS answers gave out.
use bill_vpn.Common.{◌≡◌, ◌≢◌, Bool, true, false, Option, none, some, [], ◌∷◌, Bytes, arith, ℕ}
use bill_vpn.Route.{is_empty-false, Env, Decision}
use bill_vpn.Route.Plan.{RequestContext, DialPlan, plan_of, plan_request, resolves}
use bill_vpn.Route.Decide.{gen_policy_with_options}

-- The plan with another origin.
pub with_origin : Bytes → Bytes → Option DialPlan → Option DialPlan
with_origin host domain none = none
with_origin host domain (some plan) =
    some (record plan { origin_host = host; recovered_domain = domain })

-- A request for an address that belongs to a domain is planned as the request for the domain
-- itself: the two plans differ in the origin host and the recovered domain only, and one fails
-- when the other does.
pub plan_request-recovered :
    (env : Env) (logged : Bool) (req : RequestContext) (c : ℕ) (domain : Bytes)
    → req.host ≢ []
    → env.is_ip req.host ≡ true
    → env.recover_domain req.host ≡ c ∷ domain
    → env.is_ip (c ∷ domain) ≡ false
    → plan_request env logged req
      ≡ with_origin req.host
          (c ∷ domain)
          (plan_request env logged (record req { host = c ∷ domain }))
unfolding plan_request with_origin plan_of
plan_request-recovered env logged req c domain full ip back name =
    rw (plan_request, is_empty-false req.host full, ip, back, name)
      (same (gen_policy_with_options env logged (resolves req.domain_target_mode) (c ∷ domain)))
  where
    same :
        (d : Decision)
        → plan_of req (c ∷ domain) d
          ≡ with_origin req.host (c ∷ domain) (plan_of (record req { host = c ∷ domain }) [] d)
    same d = ground arith
