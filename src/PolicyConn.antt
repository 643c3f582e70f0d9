-- ===== src/PolicyConn.antt =====
-- The connection wrapper `policyConn` of internal/tun_bridge.go, which holds back what is written
-- until it sees a TLS record, and then sends it as the plan of the connection says. What it does
-- to the inner connection is a list of events, and `accepts` says whether the next one has no
-- error. `none` is a panic.
pub mod Streams
pub mod Twice
pub mod Tests
use bill_vpn.Common.{
  ℕ, ◌+◌, Bool, true, false, not, ◌&&◌, ◌||◌, Option, none, some, List, [], ◌∷◌, ◌++◌, Bytes,
  length, take, drop, slice, ltb, leb, ◌==◌, if◌then◌else◌, ◌>>=◌, ℤ, pos, negsuc, ltb_ℤ, pos_part,
}
use bill_vpn.ClientHello.{Parsed, parse_client_hello, byte_at, u16_at}
use bill_vpn.Fragment.{Op, send_records}
use bill_vpn.Policy.{
  Policy, Mode, raw, direct, tls_rf, ttl_d, block, tls_alert, unknown, is_block, is_true, is_zero,
  is_unset_int, merge_policies,
}
use bill_vpn.Route.{is_some}
use bill_vpn.Route.Plan.{DialPlan}

-- `broke e` is a call that failed, perhaps behind a part of its bytes.
pub data Event : Type 0 where
  wrote : Bytes → Event
  fragmented : List Op → Event
  desynced : Bool → Bytes → ℤ → ℕ → ℤ → ℤ → Event
  alert : Option Bytes → ℕ → Event
  shut : Event
  broke : Event → Event

pub record Conn : Type 0 where
  pub plan : DialPlan
  pub handled : Bool
  pub closed : Bool
  pub pending : Bytes
  pub events : List Event

-- What the wrapper asks of the rest of the program: the inner connection, the domain matcher, the
-- default policy, and `getFakeTTL` (`none` for an error).
pub record World : Type 0 where
  pub accepts : List Event → Event → Bool
  pub find_domain : Bytes → Option Policy
  pub default_policy : Policy
  pub fake_ttl : Policy → Bytes → Bool → Option ℤ

-- One call on the inner connection, and whether it had no error.
pub act : World → Event → Conn → Conn × Bool
act w e c =
    if w.accepts c.events e
    then (record c { events = c.events ++ (e ∷ []) }, true)
    else (record c { events = c.events ++ (broke e ∷ []) }, false)

-- A call whose error is ignored.
pub act_anyway : World → Event → Conn → Conn
unfolding act
act_anyway w e c = (act w e c).0

-- `flushPendingLocked`; the Boolean says that there was no error.
pub flush_pending : World → Conn → Conn × Bool
unfolding act
flush_pending w c = elim c.pending as (λ p. Conn × Bool) [
  | [] ↦ (record c { handled = true }, true)
  | x ∷ p ↦
      let (c', ok) = act w (wrote (x ∷ p)) c in
      if ok then (record c' { handled = true; pending = [] }, true) else (c', false)
]

-- Close, behind an alert or not; the result is `io.EOF`.
pub refuse : World → Conn → Conn × Bool
unfolding act_anyway
refuse w c = (act_anyway w shut (record c { closed = true }), false)

pub refuse_alert : World → Option Bytes → ℕ → Conn → Conn × Bool
unfolding act_anyway
refuse_alert w ver description c =
    (act_anyway w shut (act_anyway w (alert ver description) (record c { closed = true })), false)

-- `tlsAlertAccessDenied` and `tlsAlertProtocolVersion` of internal/tunnel.go.
abbrev pub access_denied : ℕ
access_denied = 70

abbrev pub protocol_version : ℕ
protocol_version = 49

-- `len(c.plan.TargetHost) > 0 && c.plan.TargetHost[0] == '['`
pub is_bracketed : Bytes → Bool
is_bracketed [] = false
is_bracketed (c ∷ s) = c == b'['

-- `desyncSend` searches for a dot at the position of the name, and panics when there is none, unless
-- one of its calls has failed before.
abbrev pub desync_or_panic : Conn × Bool → Conn → ℤ → Option (Conn × Bool)
desync_or_panic r c (pos _) = some r
desync_or_panic (_, true) c (negsuc _) = none
desync_or_panic (c', false) c (negsuc _) = some (c', false)

-- The branch for `ModeTTLD`.
pub send_desync : World → Policy → Bytes → Parsed → Conn → Option (Conn × Bool)
unfolding act is_bracketed
send_desync w p hello h c =
    let ipv6 = is_bracketed c.plan.target_host in
    let ttl : Option ℤ =
      if is_zero p.fake_ttl || is_unset_int p.fake_ttl
      then w.fake_ttl p c.plan.target_host ipv6
      else some p.fake_ttl in
    elim ttl [
      | none ↦ some (c, false)
      | some t ↦
          desync_or_panic (act w (desynced ipv6 hello h.sni_pos h.sni_len t p.fake_sleep) c) c
            h.sni_pos
    ]

-- The last `switch` of `handleTLSLocked`.
pub forward : World → Mode → Bytes → Parsed → Conn → Option (Conn × Bool)
unfolding act send_desync
forward w tls_rf hello h c =
    let p = c.plan.policy in
    send_records hello h.sni_pos h.sni_len p.num_records p.num_segments (is_true p.oob)
      (is_true p.oob_ex) (is_true p.mod_minor_ver) p.send_interval
    >>= (λ ops. some (act w (fragmented ops) c))
forward w ttl_d hello h c = send_desync w c.plan.policy hello h c
forward w direct hello h c = some (act w (wrote hello) c)
forward w raw hello h c = some (act w (wrote hello) c)
forward w unknown hello h c = some (act w (wrote hello) c)
forward w block hello h c = some (act w (wrote hello) c)
forward w tls_alert hello h c = some (act w (wrote hello) c)

abbrev pub is_tls_alert : Mode → Bool
is_tls_alert tls_alert = true
is_tls_alert _ = false

-- The mode that the domain of the ClientHello asks for, if it has a policy.
pub sni_mode : World → Bytes → Parsed → Option Mode
sni_mode w hello h =
    if ltb_ℤ (pos 0) h.sni_pos && ltb 0 h.sni_len
    then slice hello (pos_part h.sni_pos) (pos_part h.sni_pos + h.sni_len) >>= (λ sni.
      elim (w.find_domain sni) [
        | none ↦ some unknown
        | some q ↦ some (merge_policies (q ∷ w.default_policy ∷ [])).mode
      ])
    else some unknown

-- `handleTLSLocked`
pub handle_tls : World → Bytes → Conn → Option (Conn × Bool)
unfolding flush_pending refuse refuse_alert forward sni_mode
handle_tls w hello c = do
  h ← parse_client_hello hello
  let p = c.plan.policy
  if is_some h.error
      then some (flush_pending w c)
      else if is_tls_alert p.mode
      then some (refuse_alert w h.prt_ver access_denied c)
      else if is_true p.tls13_only && not h.has_key_share
      then some (refuse_alert w h.prt_ver protocol_version c)
      else do
        mode ← sni_mode w hello h
        if is_block mode
            then some (refuse w c)
            else if is_tls_alert mode
            then some (refuse_alert w h.prt_ver access_denied c)
            else forward w p.mode hello h c

-- The bytes behind the first record, when that has been handled.
pub send_tail : World → Bytes → Conn → Conn
unfolding act
send_tail w [] c = c
send_tail w (x ∷ tail) c =
    let (c', ok) = act w (wrote (x ∷ tail)) c in if ok then c' else record c' { closed = true }

pub finish_record : World → Bytes → Conn × Bool → Conn
unfolding send_tail
finish_record w tail (c, false) = record c { closed = true }
finish_record w tail (c, true) = send_tail w tail (record c { handled = true; pending = [] })

abbrev pub close_unless : Conn × Bool → Conn
close_unless (c, ok) = record c { closed = not ok }

-- The branch for five bytes or more.
pub handle_first : World → Conn → Option Conn
unfolding handle_tls finish_record flush_pending
handle_first w c = do
  b0 ← byte_at c.pending 0
  b1 ← byte_at c.pending 1
  if not (b0 == 22 && b1 == 3)
      then some (close_unless (flush_pending w (record c { handled = true })))
      else do
        len ← u16_at c.pending 3
        if ltb (length c.pending) (5 + len) then some c else do
          r ← handle_tls w (take (5 + len) c.pending) c
          some (finish_record w (drop (5 + len) c.pending) r)

abbrev pub is_raw : Mode → Bool
is_raw raw = true
is_raw _ = false

-- `tryHandlePendingLocked`
pub try_handle_pending : World → Conn → Option Conn
unfolding handle_first act_anyway flush_pending
try_handle_pending w c =
    if length c.pending == 0
    then some c
    else if c.plan.blocked || is_block c.plan.policy.mode
    then some (act_anyway w shut (record c { closed = true }))
    else if is_raw c.plan.policy.mode
    then some (close_unless (flush_pending w c))
    else if ltb (length c.pending) 5
    then some c
    else handle_first w c

-- `Write`, up to its results: the number of the bytes, or an error of the inner connection.
pub write_conn : World → Bytes → Conn → Option Conn
unfolding try_handle_pending act_anyway
write_conn w b c =
    if c.closed
    then some c
    else if c.handled
    then some (act_anyway w (wrote b) c)
    else try_handle_pending w (record c { pending = c.pending ++ b })

-- A sequence of writes.
pub write_all : World → List Bytes → Conn → Option Conn
unfolding write_conn
write_all w [] c = some c
write_all w (b ∷ bs) c = write_conn w b c >>= write_all w bs
