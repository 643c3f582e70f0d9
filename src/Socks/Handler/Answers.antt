-- ===== src/Socks/Handler/Answers.antt =====
-- What a client of `socks5Handler` (internal/socks5.go) is answered to a CONNECT.
use bill_vpn.Common.{
  ℕ, ◌+◌, ◌*◌, ◌≡◌, refl, inl, inr, Bool, true, false, ◌&&◌, ◌||◌, Option, none, some, [], ◌∷◌,
  ◌++◌, Bytes, length, length-append, take-append_length, drop-append_length, if◌then◌else◌, ltb,
  ◌==◌, arith, Bool-cases, ap,
}
use bill_vpn.Policy.{is_true, is_block}
use bill_vpn.Route.{Env, has_byte, is_empty, Decision}
use bill_vpn.Route.Decide.Sound.{
  Decided, is_failed, is_blocked, is_decided, gen_policy_with_options-Decided,
}
use bill_vpn.Route.Plan.{RequestContext, DialPlan, plan_of, plan_request, resolves}
use bill_vpn.Socks.{Texts, good, bad, invalid_type, read_n, read_socks_addr, reply}
use bill_vpn.Socks.Handler.{
  Session, Network, tunnelled, replies, wrote, planned, serve_plan, socks_request, connect,
  serve_addr, serve_request, serve_methods, socks5_handler,
}

-- The answer without the branches for `ReplyFirst` on a blocked request and for the mode
-- ModeBlock.
pub answered : Network → Bytes → Option DialPlan → Session
answered net rest none = replies 1
answered net rest (some plan) =
    if plan.blocked
    then replies 2
    else if is_true plan.policy.reply_first || net.dial_ok
    then record { writes = reply 0 ∷ []; served = tunnelled plan rest }
    else replies 1

no_reply : (b : Bool) → ◌≡◌ {A = ℕ} (if b && false then 0 else 2) 2
no_reply true = refl
no_reply false = refl

plan_of-answered :
    (net : Network) (atyp : ℕ) (rest : Bytes) (req : RequestContext) (recovered : Bytes)
    (d : Decision)
    → Decided d
    → planned net atyp rest (plan_of req recovered d) ≡ answered net rest (plan_of req recovered d)
unfolding plan_of answered serve_plan
plan_of-answered net atyp rest req recovered d (is_failed a b) = refl
plan_of-answered net atyp rest req recovered d (is_blocked a b) = ap replies (no_reply (atyp == 3))
plan_of-answered net atyp rest req recovered d (is_decided h) = rw h refl

module _ (t : Texts) (env : Env) (open_default : is_block env.default_policy.mode ≡ false) where
  planned-answered :
      (net : Network) (atyp : ℕ) (rest : Bytes) (req : RequestContext)
      → planned net atyp rest (plan_request env true req)
        ≡ answered net rest (plan_request env true req)
  unfolding plan_request answered
  planned-answered net atyp rest req = elim (Bool-cases (is_empty req.host)) [
    | inl e ↦ rw (plan_request, e) refl
    | inr e ↦
        let recovered = if env.is_ip req.host then env.recover_domain req.host else [] in
        let host = if is_empty recovered then req.host else recovered in
        rw (plan_request, e)
          (plan_of-answered net atyp rest req recovered _ (
            gen_policy_with_options-Decided env open_default true (resolves req.domain_target_mode)
              host))
  ]

  -- The types of an address that can be read.
  known_type :
      (atyp : ℕ) (body host rest : Bytes)
      → read_socks_addr t atyp body ≡ good host rest
      → ((atyp == 1) || (atyp == 3) || (atyp == 4)) ≡ true
  unfolding read_socks_addr
  known_type atyp body host rest h = elim (Bool-cases (atyp == 1)) [
    | inl e ↦ rw e refl
    | inr e ↦ elim (Bool-cases (atyp == 4)) [
      | inl f ↦ ground (arith, f)
      | inr f ↦ elim (Bool-cases (atyp == 3)) [
        | inl g ↦ ground (arith, g)
        | inr g ↦
            let wrong : read_socks_addr t atyp body ≡ bad invalid_type =
              rw (read_socks_addr, e, f, g) refl in
            absurd (ground (arith, wrong, h))
      ]
    ]
  ]

  -- Where the default policy does not block: a client that offers the method 0 and sends a CONNECT
  -- for an address that can be read and a port is answered by the plan for that host and port
  -- alone: failure (1) without a plan, not allowed (2) if the plan blocks, and else success (0),
  -- the tunnel then starting at the first byte behind the request, unless the dial that comes
  -- first fails (1). A blocked request is never told success, whatever the policies say of
  -- replying first.
  pub socks5_handler-answered :
      (net : Network) (methods body host rest : Bytes) (reserved atyp hi lo : ℕ)
      → has_byte 0 methods ≡ true
      → read_socks_addr t atyp body ≡ good host (hi ∷ lo ∷ rest)
      → socks5_handler t env
          (record net { method_sent = true })
          (5 ∷ length methods ∷ (methods ++ (5 ∷ 1 ∷ reserved ∷ atyp ∷ body)))
        ≡ wrote (5 ∷ 0 ∷ []) (
            answered
              (record net { method_sent = true })
              rest
              (plan_request env true (socks_request host (hi * 256 + lo))))
  unfolding socks5_handler read_n serve_methods serve_request connect serve_addr answered
  socks5_handler-answered net methods body host rest reserved atyp hi lo offered addr =
      let request : Bytes = 5 ∷ 1 ∷ reserved ∷ atyp ∷ body in
      let enough : ltb (length (methods ++ request)) (length methods) ≡ false =
        ground (arith, length-append methods request) in
      rw
        (
          enough,
          take-append_length methods request,
          drop-append_length methods request,
          offered,
          addr,
          known_type atyp body host (hi ∷ lo ∷ rest) addr,
        )
        (ap (wrote (5 ∷ 0 ∷ [])) (
          planned-answered (record net { method_sent = true }) atyp rest
            (socks_request host (hi * 256 + lo))))
