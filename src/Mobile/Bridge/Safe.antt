-- ===== src/Mobile/Bridge/Safe.antt =====
-- What mobile/bill_proxy.go opens and sends, and what it refuses.
use bill_vpn.Common.{
  ℕ, ◌≡◌, refl, ◌⊎◌, inl, inr, Bool, true, false, not, Option, none, some, [], Bytes, if◌then◌else◌,
  arith, Bool-cases, Option-cases,
}
use bill_vpn.Policy.{is_block}
use bill_vpn.PolicyConn.Streams.{new_conn}
use bill_vpn.Route.{Env, is_empty, Decision}
use bill_vpn.Route.Decide.Sound.{
  Decided, is_failed, is_blocked, is_decided, gen_policy_with_options-Decided,
}
use bill_vpn.Route.Plan.{RequestContext, DialPlan, plan_of, plan_request, resolves, target_address}
use bill_vpn.Mobile.Bridge.{
  Network, Dialed, plan_failed, blocked_by_policy, connect_failed, local_dns, plain, wrapped,
  mobile_request, is_ttl_d, dial_plan, dial_context, is_vpn_dns_address,
}

-- A plan that lets a connection pass has a policy that does not block.
abbrev Passes : Option DialPlan → Type 0
Passes none = Unit
Passes (some plan) = (plan.blocked ≡ true) ⊎ (is_block plan.policy.mode ≡ false)

plan_of-Passes :
    (req : RequestContext) (recovered : Bytes) (d : Decision)
    → Decided d
    → Passes (plan_of req recovered d)
unfolding plan_of
plan_of-Passes req recovered d (is_failed a b) = tt
plan_of-Passes req recovered d (is_blocked a b) = inl refl
plan_of-Passes req recovered d (is_decided o) = inr o

plan_request-Passes :
    (env : Env) (req : RequestContext)
    → is_block env.default_policy.mode ≡ false
    → Passes (plan_request env true req)
unfolding plan_request
plan_request-Passes env req lets = elim (Bool-cases (is_empty req.host)) [
  | inl e ↦ rw (plan_request, e) tt
  | inr e ↦
      let recovered = if env.is_ip req.host then env.recover_domain req.host else [] in
      let host = if is_empty recovered then req.host else recovered in
      rw (plan_request, e)
        (plan_of-Passes req recovered _
          (gen_policy_with_options-Decided env lets true (resolves req.domain_target_mode) host))
]

-- A plan that lets the connection pass, whose target is the address.
pub record Lets (env : Env) (net : Network) (host : Bytes) (port : ℕ) (plan : DialPlan)
    (addr : Bytes) : Type 0 where
  pub planned : plan_request env true (mobile_request host port) ≡ some plan
  pub passes : plan.blocked ≡ false
  pub mode_open : is_block plan.policy.mode ≡ false
  pub target : addr ≡ target_address net.join_host_port plan

-- What `DialContext` may do for a destination, and when.
pub data Dials (env : Env) (net : Network) (host : Bytes) (port : ℕ) : Dialed → Type 0 where
  to_dns : is_vpn_dns_address host port ≡ true → Dials env net host port local_dns
  without_plan :
      plan_request env true (mobile_request host port) ≡ none → Dials env net host port plan_failed
  stopped :
      (plan : DialPlan)
      → plan_request env true (mobile_request host port) ≡ some plan
      → plan.blocked ≡ true
      → Dials env net host port blocked_by_policy
  unreachable :
      (plan : DialPlan) (addr : Bytes)
      → Lets env net host port plan addr
      → net.connects addr ≡ false
      → Dials env net host port connect_failed
  in_the_open :
      {addr : Bytes} (plan : DialPlan)
      → Lets env net host port plan addr
      → net.connects addr ≡ true
      → is_ttl_d plan.policy.mode ≡ true
      → Dials env net host port (plain addr)
  by_policy :
      {addr : Bytes} (plan : DialPlan)
      → Lets env net host port plan addr
      → net.connects addr ≡ true
      → is_ttl_d plan.policy.mode ≡ false
      → Dials env net host port (wrapped addr (new_conn plan))

open_mode :
    (plan : DialPlan)
    → Passes (some plan)
    → plan.blocked ≡ false
    → is_block plan.policy.mode ≡ false
open_mode plan (inl h) k = absurd (ground (arith, h, k))
open_mode plan (inr h) k = h

Dials-if :
    {env : Env} {net : Network} {host : Bytes} {port : ℕ} (b : Bool) {x y : Dialed}
    → (b ≡ true → Dials env net host port x)
    → (b ≡ false → Dials env net host port y)
    → Dials env net host port (if b then x else y)
Dials-if true h k = h refl
Dials-if false h k = k refl

dial_plan-Dials :
    (env : Env) (net : Network) (host : Bytes) (port : ℕ) (plan : DialPlan)
    → plan_request env true (mobile_request host port) ≡ some plan
    → Passes (some plan)
    → Dials env net host port (dial_plan net plan)
unfolding dial_plan
dial_plan-Dials env net host port plan h p =
    let addr = target_address net.join_host_port plan in
    let lets : plan.blocked ≡ false → Lets env net host port plan addr =
      λ e. record { planned = h; passes = e; mode_open = open_mode plan p e; target = refl } in
    Dials-if plan.blocked (stopped plan h) (λ e.
      Dials-if (not (net.connects addr)) (λ f. unreachable plan addr (lets e) (ground (arith, f)))
        (λ f.
          Dials-if (is_ttl_d plan.policy.mode) (in_the_open plan (lets e) (ground (arith, f)))
            (by_policy plan (lets e) (ground (arith, f)))))

-- Where the default policy does not block: `DialContext` to a valid address ends in one of six
-- ways. It serves DNS for the address and port of the VPN's DNS server only; it refuses a
-- destination whose plan blocks; and it opens connections only to the target address of a plan
-- that does not block and whose policy does not block, wrapped by that plan unless the mode is
-- `ttl-d`.
pub dial_context-Dials :
    (env : Env) (net : Network) (host : Bytes) (port : ℕ)
    → is_block env.default_policy.mode ≡ false
    → Dials env net host port (dial_context env net (some host) port)
unfolding dial_context
dial_context-Dials env net host port lets = elim (Bool-cases (is_vpn_dns_address host port)) [
  | inl e ↦ rw (dial_context, e) (to_dns e)
  | inr e ↦ elim (Option-cases (plan_request env true (mobile_request host port))) [
    | inl f ↦ rw (dial_context, e, f) (without_plan f)
    | inr (plan, f) ↦
        rw (dial_context, e, f)
          (dial_plan-Dials env net host port plan f
            (rw f at (plan_request-Passes env (mobile_request host port) lets)))
  ]
]
