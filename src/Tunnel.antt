-- ===== src/Tunnel.antt =====
-- The tunnel between a client and a destination: internal/tunnel.go. `handleTunnel`, `handleTLS`,
-- `handleHTTP` and `sendTLSAlert` are functions of the bytes that the client sends. The outcomes
-- of dials and writes and what `http.ReadRequest` makes of the bytes are arguments; logging and
-- the copy from the destination to the client are left out.
pub mod Events
pub mod Dispatch
pub mod Hello
pub mod Blocked
pub mod Tests
use bill_vpn.Common.{
  ℕ, suc, ◌+◌, Bool, true, false, not, ◌&&◌, ◌||◌, Option, none, some, List, [], ◌∷◌, ◌++◌, map,
  Bytes, Bytes-discrete, codes, length, take, drop, slice, if◌then◌else◌, ltb, ◌==◌, ite, ◌>>=◌, ℤ,
  pos, negsuc, pos_part, ltb_ℤ, eqb_ℤ,
}
use bill_vpn.ClientHello.{Parsed, ParseError, byte_at, u16_at, parse_client_hello}
use bill_vpn.Policy.{
  Policy, Mode, unknown, raw, direct, tls_rf, ttl_d, block, tls_alert, is_true, is_zero,
  is_unset_int, merge_policies,
}
use bill_vpn.Route.{Env, is_empty, find_rule, ip_redirect}
use bill_vpn.Fragment.{Op, write, send_with_oob, sleep, send_records}
use bill_vpn.Probe.{Search, get_fake_ttl}
use bill_vpn.TtlRules.{Rule}
use bill_vpn.Desync.{Syscall, Ending, Outcomes, desync_send, done}
use bill_vpn.Tunnel.Events.{
  Response, Event, dialled, alerted, answered, wrote, called, copied, End, goes_on, failed, hangs,
  Run, fails, before,
}

-- What the tunnel meets: whether dials succeed, where a write or the copy of what is left fails
-- (`some n` for an error behind n bytes), the number of the operation of `sendRecords` that fails
-- with the bytes that it still sends, the search for a TTL, and the system calls.
pub record World : Type 0 where
  pub env : Env
  pub dial_ok : Bool
  pub write_fails : Option ℕ
  pub copy_fails : Option ℕ
  pub fragment_fails : Option (ℕ × ℕ)
  pub ttl_rules : Option (List Rule)
  pub ttl_search : Search
  pub outcomes : Outcomes

pub record Request : Type 0 where
  pub policy : Policy
  pub reply_first : Bool
  pub origin_host : Bytes
  pub target : Bytes

-- `sendTLSAlert`; `none` is a panic.
pub send_tls_alert : Option Bytes → ℕ → ℕ → Option Run
send_tls_alert none desc level = none
send_tls_alert (some ver) desc level = do
  hi ← byte_at ver 0
  lo ← byte_at ver 1
  some (record fails { events = alerted (21 ∷ hi ∷ lo ∷ 0 ∷ 2 ∷ level ∷ desc ∷ []) ∷ [] })

-- The dial that comes late where the client was answered first.
pub connect_first : World → Request → Option Run → Option Run
connect_first w r rest =
    if r.reply_first
    then if w.dial_ok
      then rest >>= (λ run. some (before (dialled r.target ∷ []) run))
      else some (record fails { events = dialled r.target ∷ [] })
    else rest

-- One `Write`, which may fail behind a part of the bytes.
pub write_once : World → Bytes → Run
write_once w b = elim w.write_fails [
  | none ↦ record { events = wrote (write b) ∷ []; end = goes_on }
  | some n ↦ record { events = wrote (write (take n b)) ∷ []; end = failed }
]

-- What an operation that fails has sent.
abbrev pub part_of : ℕ → List Op → List Op
part_of n [] = []
part_of n (write b ∷ ops) = write (take n b) ∷ []
part_of n (send_with_oob b c ∷ ops) = write (take n b) ∷ []
part_of n (sleep ∷ ops) = []

-- The operations up to the one that fails, if one does.
pub run_ops : Option (ℕ × ℕ) → List Op → Run
run_ops none ops = record { events = map wrote ops; end = goes_on }
run_ops (some (k, n)) ops = record {
  events = map wrote (take k ops ++ part_of n (drop k ops));
  end = if ltb k (length ops) then failed else goes_on;
}

abbrev pub end_of : Ending → End
end_of done = goes_on
end_of Ending.failed = failed
end_of Ending.hangs = hangs

pub send_desync : World → Request → Bytes → ℤ → ℕ → Option Run
send_desync w r hello sni_pos sni_len = do
  _ ← byte_at r.target 0
  let ttl : ℤ = elim (get_fake_ttl w.ttl_rules r.policy w.ttl_search) [
    | none ↦ negsuc 0
    | some t ↦ t
  ]
  (calls, ending) ← desync_send w.outcomes hello sni_pos sni_len ttl r.policy.fake_sleep
  some (record { events = map called calls; end = end_of ending })

-- The switch on the mode.
pub send_hello : World → Request → Bytes → ℤ → ℕ → Mode → Option Run
unfolding write_once run_ops send_desync
send_hello w r hello sni_pos sni_len direct = some (write_once w hello)
send_hello w r hello sni_pos sni_len tls_rf =
    let p = r.policy in
    send_records hello sni_pos sni_len p.num_records p.num_segments (is_true p.oob)
      (is_true p.oob_ex) (is_true p.mod_minor_ver) p.send_interval
    >>= (λ ops. some (run_ops w.fragment_fails ops))
send_hello w r hello sni_pos sni_len ttl_d = send_desync w r hello sni_pos sni_len
send_hello w r hello sni_pos sni_len unknown = some (record fails { end = goes_on })
send_hello w r hello sni_pos sni_len raw = some (record fails { end = goes_on })
send_hello w r hello sni_pos sni_len block = some (record fails { end = goes_on })
send_hello w r hello sni_pos sni_len tls_alert = some (record fails { end = goes_on })

-- The policy of a name.
pub policy_of : Env → Bytes → Policy
policy_of env name = elim (find_rule env name) [
  | none ↦ env.default_policy
  | some q ↦ merge_policies (q ∷ env.default_policy ∷ [])
]

-- What the mode of the name's policy leaves to do.
pub check_name : Mode → Option Bytes → Option Run → Option Run
unfolding send_tls_alert
check_name block ver rest = some fails
check_name tls_alert ver rest = send_tls_alert ver 70 2
check_name _ ver rest = rest

-- The branch of `handleTLS` for a message that names a server.
pub handle_name : World → Request → Bytes → Parsed → Option Run
unfolding check_name connect_first send_hello policy_of
handle_name w r hello parsed = do
  name ← slice hello (pos_part parsed.sni_pos) (pos_part parsed.sni_pos + parsed.sni_len)
  let rest = connect_first w r (send_hello w r hello parsed.sni_pos parsed.sni_len r.policy.mode)
  ite (Bytes-discrete r.origin_host name) rest
      (check_name (policy_of w.env name).mode parsed.prt_ver rest)

abbrev pub is_tls_alert : Mode → Bool
is_tls_alert tls_alert = true
is_tls_alert _ = false

-- `handleTLS` behind the parser.
pub handle_hello : World → Request → Bytes → Parsed → Option Run
unfolding handle_name connect_first write_once send_tls_alert
handle_hello w r hello parsed =
    if is_tls_alert r.policy.mode
    then send_tls_alert parsed.prt_ver 70 2
    else if is_true r.policy.tls13_only && not parsed.has_key_share
    then send_tls_alert parsed.prt_ver 49 2
    else if ltb_ℤ (pos 0) parsed.sni_pos && ltb 0 parsed.sni_len
    then handle_name w r hello parsed
    else connect_first w r (some (write_once w hello))

abbrev pub unless_error : Parsed → Option Run → Option Run
unless_error parsed rest = elim parsed.error [ none ↦ rest | some e ↦ some fails ]

-- `handleTLS`: the one `Read` gets what is buffered of the record.
pub handle_tls : World → Request → Bytes → ℕ → Option Run
unfolding handle_hello
handle_tls w r buffered record_len =
    let hello = take record_len buffered in
    if ltb (length hello) record_len
    then some fails
    else parse_client_hello hello
      >>= (λ parsed. unless_error parsed (handle_hello w r hello parsed))
