-- ===== src/Doh.antt =====
-- DNS over HTTPS (internal/config.go): `interceptConn`, which sends the ClientHello to the DoH
-- server as the server's policy says, and in Doh/Target the address that `genDialContext` dials.
-- `none` is a panic. What is done to the inner connection is a list of calls; the events are those
-- of `policyConn`.
pub mod Hello
pub mod Target
pub mod Tests
use bill_vpn.Common.{
  ℕ, Bool, true, false, not, ◌&&◌, ◌||◌, Option, none, some, List, [], ◌∷◌, ◌++◌, Bytes, length,
  if◌then◌else◌, ◌>>=◌, ◌==◌, ℤ, negsuc, eqb_ℤ,
}
use bill_vpn.ClientHello.{Parsed, parse_client_hello, byte_at}
use bill_vpn.Fragment.{send_records}
use bill_vpn.Policy.{
  Policy, Mode, raw, direct, tls_rf, ttl_d, block, tls_alert, unknown, is_block, is_true,
}
use bill_vpn.PolicyConn.{Event, wrote, fragmented, desynced, is_tls_alert}
use bill_vpn.Route.{is_some}

-- A call that had no error, or one that failed, which may have sent a part of its bytes.
pub data Call : Type 0 where
  made broke : Event → Call

pub record InterceptConn : Type 0 where
  pub handled : Bool
  pub events : List Call

-- `dohConnPolicy`, `RemoteAddr().String()`, `getFakeTTL` (`none` for an error), and whether the
-- next call on the inner connection succeeds, after those before.
pub record World : Type 0 where
  pub policy : Policy
  pub remote_addr : Bytes
  pub fake_ttl : Policy → Bytes → Bool → Option ℤ
  pub accepts : List Call → Event → Bool

-- One call on the inner connection for the bytes, and the number that `Write` returns; the inner
-- `none` is an error.
unfoldable pub act : World → Event → Bytes → InterceptConn → InterceptConn × Option ℕ
act w e b c =
    if w.accepts c.events e
    then (record c { events = c.events ++ (made e ∷ []) }, some (length b))
    else (record c { events = c.events ++ (broke e ∷ []) }, none)

-- The branch for `ModeTTLD`.
unfoldable pub write_desync :
    World → Bytes → Parsed → InterceptConn → Option (InterceptConn × Option ℕ)
unfolding act
write_desync w b h c = byte_at w.remote_addr 0 >>= (λ first.
    elim (w.fake_ttl w.policy w.remote_addr (first == b'[')) [
      | none ↦ some (c, none)
      | some ttl ↦
          some (act w (desynced (first == b'[') b h.sni_pos h.sni_len ttl w.policy.fake_sleep) b c)
    ])

-- The last `switch`.
unfoldable pub write_hello :
    World → Mode → Bytes → Parsed → InterceptConn → Option (InterceptConn × Option ℕ)
unfolding act write_desync
write_hello w direct b h c = some (act w (wrote b) b c)
write_hello w raw b h c = some (act w (wrote b) b c)
write_hello w ttl_d b h c = write_desync w b h c
write_hello w tls_rf b h c =
    let p = w.policy in
    send_records b h.sni_pos h.sni_len p.num_records p.num_segments (is_true p.oob)
      (is_true p.oob_ex) (is_true p.mod_minor_ver) p.send_interval
    >>= (λ ops. some (act w (fragmented ops) b c))
write_hello w unknown b h c = some (c, some (length b))
write_hello w block b h c = some (c, some (length b))
write_hello w tls_alert b h c = some (c, some (length b))

-- The first `Write`, behind the test on the mode.
unfoldable pub write_first : World → Bytes → InterceptConn → Option (InterceptConn × Option ℕ)
unfolding act write_hello
write_first w b c = parse_client_hello b >>= (λ h.
    if is_some h.error
    then some (c, none)
    else if is_true w.policy.tls13_only && not h.has_key_share
    then some (c, none)
    else if eqb_ℤ h.sni_pos (negsuc 0)
    then some (act w (wrote b) b c)
    else write_hello w w.policy.mode b h c)

-- `interceptConn.Write`
unfoldable pub write : World → Bytes → InterceptConn → Option (InterceptConn × Option ℕ)
unfolding act write_first
write w b c =
    if c.handled
    then some (act w (wrote b) b c)
    else if is_block w.policy.mode || is_tls_alert w.policy.mode
    then some (record c { handled = true }, none)
    else write_first w b (record c { handled = true })

abbrev pub new_conn : InterceptConn
new_conn = record { handled = false; events = [] }
