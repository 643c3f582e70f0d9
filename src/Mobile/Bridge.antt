-- ===== src/Mobile/Bridge.antt =====
-- `BillProxy` of mobile/bill_proxy.go, by which tun2socks dials what the device sends: streams in
-- `DialContext`, datagrams in `billPacketConn.WriteTo`. Logging is left out, but for the text of a
-- plan's message. An invalid destination address is `none`.
pub mod Safe
pub mod Answers
use bill_vpn.Common.{
  ℕ, ◌+◌, ◌%◌, Bool, true, false, not, ◌&&◌, Option, none, some, [], ◌∷◌, ◌++◌, Bytes,
  Bytes-discrete, codes, length, if◌then◌else◌, ite, ltb, ◌==◌, ℤ, pos, ltb_ℤ, ◌>>=◌,
}
use bill_vpn.Policy.{Mode, ttl_d}
use bill_vpn.PolicyConn.{Conn}
use bill_vpn.PolicyConn.Streams.{new_conn}
use bill_vpn.Route.{Env, is_empty}
use bill_vpn.Route.Plan.{
  RequestContext, source_mobile, resolve_domain_target, DialPlan, plan_request, target_address,
  origin_address,
}
use bill_vpn.Mobile.Queue.{PacketConn, Case, Outcome, accepted, enqueue_packet}

-- `IsVPNDNSAddress` of internal/fake_ip.go.
unfoldable pub is_vpn_dns_address : Bytes → ℕ → Bool
is_vpn_dns_address host port = ite (Bytes-discrete host (codes "172.19.0.2")) (port == 53) false

-- `net.JoinHostPort`, whether the dialer connects to an address, and `net.ResolveUDPAddr`, whose
-- result is the text of the address it writes to.
pub record Network : Type 0 where
  pub join_host_port : Bytes → ℤ → Bytes
  pub connects : Bytes → Bool
  pub resolve_udp_addr : Bytes → Option Bytes

-- The result of `DialContext`: an error, the pipe to the local DNS server, or a connection to an
-- address, which a `policyConn` may wrap.
pub data Dialed : Type 0 where
  invalid_metadata plan_failed blocked_by_policy connect_failed : Dialed
  local_dns : Dialed
  plain : Bytes → Dialed
  wrapped : Bytes → Conn → Dialed

abbrev pub mobile_request : Bytes → ℕ → RequestContext
mobile_request host port = record {
  source = source_mobile;
  host = host;
  port = pos port;
  domain_target_mode = resolve_domain_target;
}

abbrev pub is_ttl_d : Mode → Bool
is_ttl_d ttl_d = true
is_ttl_d _ = false

-- The end of `DialContext`, from the plan on.
unfoldable pub dial_plan : Network → DialPlan → Dialed
dial_plan net plan =
    let target = target_address net.join_host_port plan in
    if plan.blocked
    then blocked_by_policy
    else if not (net.connects target)
    then connect_failed
    else if is_ttl_d plan.policy.mode
    then plain target
    else wrapped target (new_conn plan)

-- `DialContext`
unfoldable pub dial_context : Env → Network → Option Bytes → ℕ → Dialed
unfolding is_vpn_dns_address dial_plan
dial_context env net none port = invalid_metadata
dial_context env net (some host) port =
    if is_vpn_dns_address host port
    then local_dns
    else elim (plan_request env true (mobile_request host port)) [
      | none ↦ plan_failed
      | some plan ↦ dial_plan net plan
    ]

-- The result of `WriteTo`: an error, a datagram for the inner connection to send to an address,
-- or the answer to a DNS query, which is in the queue, with the length that is returned.
pub data Written : Type 0 where
  invalid_destination no_plan refused unresolved no_answer queue_closed : Written
  sends : Bytes → Bytes → Written
  answered : ℕ → Written

-- `handleDNSQuery`, with `bill.HandleDNSQueryPacket` as an argument; `none` blocks. Its answer
-- comes from the address that the query went to.
unfoldable pub handle_dns_query :
    (Bytes → Option Bytes) → Case → Bytes → Bytes → PacketConn → Option (PacketConn × Written)
unfolding enqueue_packet
handle_dns_query handle on payload addr pc = elim (handle payload) [
  | none ↦ some (pc, no_answer)
  | some resp ↦ enqueue_packet on resp addr pc >>= (λ r. elim r.1 [
    | accepted _ ↦ some (r.0, answered (length payload))
    | _ ↦ some (r.0, queue_closed)
  ])
]

-- The end of `WriteTo`, from the plan on.
unfoldable pub write_plan : Network → Bytes → DialPlan → Written
write_plan net payload plan =
    if plan.blocked
    then refused
    else elim (net.resolve_udp_addr (target_address net.join_host_port plan)) [
      | none ↦ unresolved
      | some dst ↦ sends dst payload
    ]

-- `billPacketConn.WriteTo` to an IP address and a port.
unfoldable pub write_to :
    Env
    → Network
    → (Bytes → Option Bytes)
    → Case
    → Bytes
    → Option Bytes
    → ℕ
    → PacketConn
    → Option (PacketConn × Written)
unfolding is_vpn_dns_address handle_dns_query write_plan
write_to env net handle on payload none port pc = some (pc, invalid_destination)
write_to env net handle on payload (some host) port pc =
    if is_vpn_dns_address host port
    then handle_dns_query handle on payload (net.join_host_port host (pos port)) pc
    else elim (plan_request env true (mobile_request host port)) [
      | none ↦ some (pc, no_plan)
      | some plan ↦ some (pc, write_plan net payload plan)
    ]

-- `joinPlanLogMessage`, up to the name of the mode at its end.
pub join_plan_log_message : (Bytes → ℤ → Bytes) → Bytes → DialPlan → Bytes → Bytes
join_plan_log_message join network plan target =
    let origin =
      if is_empty plan.recovered_domain
      then origin_address join plan
      else if ltb_ℤ (pos 0) plan.origin_port
      then join plan.recovered_domain plan.origin_port
      else plan.recovered_domain in
    network ++ (codes " " ++ (origin ++ (codes " -> " ++ (target ++ codes " mode="))))

-- `nextID`: the counter that it leaves, and its result.
pub next_id : ℕ → ℕ × ℕ
next_id counter = let id = (counter + 1) % 4294967296 in if ltb 1048575 id then (0, 0) else (id, id)
