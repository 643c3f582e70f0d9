-- ===== src/HttpProxy.antt =====
-- The HTTP proxy of internal/http.go: `httpHandler`, `handleConnect` and `forwardHTTPRequest`, from
-- a request to what the client is answered and where the request goes. The functions of the
-- packages net and strconv, and the outcomes of dials, writes and round trips are arguments.
pub mod Blocked
pub mod Tests
use bill_vpn.Common.{
  Bool, true, false, not, ◌&&◌, ◌||◌, Option, none, some, [], ◌∷◌, ◌++◌, Bytes, Bytes-discrete,
  codes, if◌then◌else◌, ite, ℤ, pos, ltb_ℤ, eqb_ℤ,
}
use bill_vpn.Policy.{Policy, is_true, is_block, is_zero, is_unset_int}
use bill_vpn.Route.{Env, is_empty}
use bill_vpn.Route.Plan.{
  RequestContext, DomainTargetMode, resolve_domain_target, preserve_domain_target, source_http,
  DialPlan, plan_request, target_address,
}

-- A request: whether its method is CONNECT, whether its URL is absolute, its Host field and the
-- parts of the URL.
pub record Incoming : Type 0 where
  pub is_connect : Bool
  pub is_abs : Bool
  pub host : Bytes
  pub url_host : Bytes
  pub scheme : Bytes
  pub request_uri : Bytes

-- `net.SplitHostPort`, `net.JoinHostPort` and `strconv.Atoi`, and how the other calls end; a round
-- trip to an address has a status, or fails.
pub record Outside : Type 0 where
  pub split_host_port : Bytes → Option (Bytes × Bytes)
  pub join_host_port : Bytes → ℤ → Bytes
  pub atoi : Bytes → Option ℤ
  pub hijacks : Bool
  pub dial_ok : Bool
  pub write_ok : Bool
  pub round_trip : Bytes → Option ℤ

-- The handler writes a status, perhaps with `Location`, or nothing (net/http then answers 200); or
-- it takes the connection over, and closes it or hands it to `handleTunnel`; or it sends the
-- request on to an address and answers with a status.
pub data Outcome : Type 0 where
  unanswered : Outcome
  status : ℤ → Option Bytes → Outcome
  bad_gateway dropped : Outcome
  tunnelled : DialPlan → Bytes → Outcome
  forwarded : Bytes → ℤ → Outcome

abbrev pub http_request : Bytes → ℤ → DomainTargetMode → RequestContext
http_request host port mode = record {
  source = source_http;
  host = host;
  port = port;
  domain_target_mode = mode;
}

-- The end of `handleConnect`, from the policy on.
pub connect_plan : Outside → DialPlan → Outcome
connect_plan o plan =
    if plan.blocked
    then status (pos 403) none
    else if is_block plan.policy.mode
    then status (pos 403) none
    else if not o.hijacks
    then status (pos 500) none
    else if is_true plan.policy.reply_first || o.dial_ok
    then if o.write_ok then tunnelled plan (target_address o.join_host_port plan) else dropped
    else bad_gateway

pub handle_connect : Env → Outside → Incoming → Outcome
unfolding connect_plan
handle_connect env o req =
    if is_empty req.host then status (pos 400) none else elim (o.split_host_port req.host) [
      | none ↦ unanswered
      | some (host, port) ↦ elim (o.atoi port) [
        | none ↦ unanswered
        | some n ↦ elim (plan_request env true (http_request host n resolve_domain_target)) [
          | none ↦ status (pos 500) none
          | some plan ↦ connect_plan o plan
        ]
      ]
    ]

abbrev pub default_port : Bytes → Bytes
default_port scheme = ite (Bytes-discrete scheme (codes "https")) (codes "443") (codes "80")

-- The `Location` of a redirection that a policy asks for.
pub location_of : Policy → Incoming → Bytes → Option Bytes
location_of p req host =
    if eqb_ℤ p.http_status (pos 301) || eqb_ℤ p.http_status (pos 302)
    then some (
        (if is_empty req.scheme then codes "https" else req.scheme)
        ++ (codes "://" ++ (host ++ req.request_uri)))
    else none

-- The end of `forwardHTTPRequest`, from the policy on; `host` is the one that was asked for.
pub forward_plan : Outside → Incoming → Bytes → DialPlan → Outcome
unfolding location_of
forward_plan o req host plan =
    let p = plan.policy in
    let target = target_address o.join_host_port plan in
    if not (is_zero p.http_status || is_unset_int p.http_status)
    then status p.http_status (location_of p req host)
    else if is_block p.mode
    then status (pos 403) none
    else elim (o.round_trip target) [
      | none ↦ status (pos 502) none
      | some code ↦ forwarded target code
    ]

-- The request to the host and port of `host`.
pub forward_to : Env → Outside → Incoming → Bytes → Bytes → Bytes → Outcome
unfolding forward_plan
forward_to env o req host origin port = elim (o.atoi port) [
  | none ↦ status (pos 400) none
  | some n ↦ elim (plan_request env true (http_request origin n preserve_domain_target)) [
    | none ↦ status (pos 500) none
    | some plan ↦ forward_plan o req host plan
  ]
]

pub forward_host : Env → Outside → Incoming → Bytes → Outcome
unfolding forward_to
forward_host env o req host = elim (o.split_host_port host) [
  | none ↦ forward_to env o req host host (default_port req.scheme)
  | some (origin, port) ↦ forward_to env o req host origin port
]

pub forward_http_request : Env → Outside → Incoming → Outcome
unfolding forward_host
forward_http_request env o req =
    if is_empty req.host
    then if is_empty req.url_host
      then status (pos 400) none
      else forward_host env o req req.url_host
    else forward_host env o req req.host

pub http_handler : Env → Outside → Incoming → Outcome
unfolding handle_connect forward_http_request
http_handler env o req =
    if req.is_connect
    then handle_connect env o req
    else if not req.is_abs
    then status (pos 403) none
    else forward_http_request env o req
