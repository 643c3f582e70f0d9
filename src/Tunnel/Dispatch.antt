-- ===== src/Tunnel/Dispatch.antt =====
-- `handleHTTP` and `handleTunnel` of internal/tunnel.go.
pub mod Whole
use bill_vpn.Common.{
  ℕ, zero, suc, ◌+◌, Bool, true, false, not, ◌&&◌, ◌||◌, Option, none, some, List, [], ◌∷◌, ◌++◌,
  Bytes, Bytes-discrete, codes, length, take, drop, if◌then◌else◌, ltb, ◌==◌, ite, ◌>>=◌, ℤ, pos,
}
use bill_vpn.Common.{eqb_ℤ}
use bill_vpn.ClientHello.{byte_at, u16_at}
use bill_vpn.Policy.{
  Policy, Mode, unknown, raw, direct, tls_rf, ttl_d, block, tls_alert, is_zero, is_unset_int,
  merge_policies,
}
use bill_vpn.Route.{Env, is_empty, ip_redirect}
use bill_vpn.Fragment.{write}
use bill_vpn.Tunnel.Events.{
  Response, dialled, answered, wrote, copied, goes_on, failed, hangs, Run, fails, before,
}
use bill_vpn.Tunnel.{World, Request, policy_of, handle_tls, write_once}

-- A request: its Host field and the URL's, the rest of the URL, and what `Write` makes of it.
pub record HttpRequest : Type 0 where
  pub req_host : Bytes
  pub url_host : Bytes
  pub request_uri : Bytes
  pub wire : Bytes

-- What `http.ReadRequest` makes of the bytes, and how many it takes.
pub data HttpRead : Type 0 where
  parsed : HttpRequest → ℕ → HttpRead
  unparsed : ℕ → HttpRead

pub host_of : HttpRequest → Bytes → Bytes
host_of q origin =
    if is_empty q.req_host then if is_empty q.url_host then origin else q.url_host else q.req_host

-- The policy of the request's host, with that of the address its policy names; `none` is an error.
pub http_policy : Env → Bytes → Option Policy
unfolding policy_of
http_policy env host = redirected (policy_of env host).host
  where
    redirected : Option Bytes → Option Policy
    redirected none = some (policy_of env host)
    redirected (some []) = some (policy_of env host)
    redirected (some (c ∷ name)) =
        if c == b'^'
        then some (policy_of env host)
        else ip_redirect env true (c ∷ name) >>= (λ r. elim r.1 [
          | none ↦ some (policy_of env host)
          | some q ↦ some (merge_policies (policy_of env host ∷ q ∷ env.default_policy ∷ []))
        ])

abbrev pub bad_gateway : Response
bad_gateway = record { status = pos 502; location = none }

-- The answer that a policy's status asks for.
pub status_answer : ℤ → Bytes → Bytes → Response
status_answer status host uri = record {
  status = status;
  location =
      if eqb_ℤ status (pos 301) || eqb_ℤ status (pos 302)
      then some (codes "https://" ++ (host ++ uri))
      else none;
}

-- `handleHTTP`
pub handle_http : World → Request → HttpRequest → Run
unfolding http_policy host_of write_once status_answer
handle_http w r q = elim (http_policy w.env (host_of q r.origin_host)) [
  | none ↦ fails
  | some p ↦
      if is_zero p.http_status || is_unset_int p.http_status
      then if r.reply_first
        then if w.dial_ok
          then before (dialled r.target ∷ []) (write_once w q.wire)
          else record fails { events = dialled r.target ∷ answered bad_gateway ∷ [] }
        else write_once w q.wire
      else record fails {
        events =
            answered (status_answer p.http_status (host_of q r.origin_host) q.request_uri) ∷ [];
      }
]

-- `bytesHasPrefix` with one prefix.
unfoldable pub has_prefix : Bytes → Bytes → Bool
has_prefix s [] = true
has_prefix [] (c ∷ p) = false
has_prefix (d ∷ s) (c ∷ p) = (d == c) && has_prefix s p

unfoldable pub any_prefix : Bytes → List Bytes → Bool
unfolding has_prefix
any_prefix s [] = false
any_prefix s (p ∷ ps) = has_prefix s p || any_prefix s ps

abbrev pub methods : List Bytes
methods =
    codes "GET "
    ∷ codes "POST "
    ∷ codes "HEAD "
    ∷ codes "PUT "
    ∷ codes "DELETE "
    ∷ codes "OPTIONS "
    ∷ codes "TRACE "
    ∷ codes "PATCH "
    ∷ []

-- `io.Copy` of what is left of the client's bytes, which may fail behind a part of them.
unfoldable pub copy_rest : World → Bytes → Run → Run
copy_rest w rest run = elim w.copy_fails [
  | none ↦ record { events = run.events ++ (copied rest ∷ []); end = goes_on }
  | some n ↦ record { events = run.events ++ (copied (take n rest) ∷ []); end = failed }
]

-- The two copies, which need a connection to the destination: without one the type assertion
-- panics. Where the copy fails, both connections are closed.
abbrev pub splice_on : World → Bool → Bytes → Run → Option Run
splice_on w connected rest run = elim run.end [
  | goes_on ↦ if connected then some (copy_rest w rest run) else none
  | failed ↦ some run
  | hangs ↦ some run
]

abbrev pub is_raw : Mode → Bool
is_raw raw = true
is_raw _ = false

abbrev pub idle : Run
idle = record { events = []; end = goes_on }

-- The branch for a TLS record: its length is read from the first bytes.
pub tunnel_tls : World → Request → ℕ → Bytes → Option Run
unfolding handle_tls
tunnel_tls w r buffered sent = do
  payload_len ← u16_at sent 3
  run ← handle_tls w r (take buffered sent) (5 + payload_len)
  splice_on w true (drop (5 + payload_len) sent) run

pub tunnel_http : World → Request → HttpRead → Bytes → Option Run
unfolding handle_http
tunnel_http w r (parsed q n) sent = splice_on w true (drop n sent) (handle_http w r q)
tunnel_http w r (unparsed n) sent = splice_on w (not r.reply_first) (drop n sent) idle

-- The mode ModeRaw.
pub tunnel_raw : World → Request → Bytes → Option Run
tunnel_raw w r sent =
    if r.reply_first
    then if w.dial_ok
      then splice_on w true sent (record { events = dialled r.target ∷ []; end = goes_on })
      else some (record fails { events = dialled r.target ∷ [] })
    else splice_on w true sent idle

-- The rest of the dispatch.
pub tunnel_peeked : World → Request → (Bytes → HttpRead) → ℕ → Bytes → Option Run
unfolding any_prefix tunnel_tls tunnel_http
tunnel_peeked w r read_request buffered sent = if ltb (length sent) 10 then some fails else do
  first ← byte_at sent 0
  second ← byte_at sent 1
  if (first == 22) && (second == 3)
      then tunnel_tls w r buffered sent
      else if any_prefix (take 10 sent) methods
      then tunnel_http w r (read_request sent) sent
      else splice_on w (not r.reply_first) sent idle

-- `handleTunnel`, for all the bytes that the client sends, of which the given number is buffered
-- behind `Peek`. The destination is connected from the start unless the client was answered first.
pub handle_tunnel : World → Request → (Bytes → HttpRead) → ℕ → Bytes → Option Run
unfolding tunnel_raw tunnel_peeked
handle_tunnel w r read_request buffered sent =
    if is_raw r.policy.mode
    then tunnel_raw w r sent
    else tunnel_peeked w r read_request buffered sent
