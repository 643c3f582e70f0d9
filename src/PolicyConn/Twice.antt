-- ===== src/PolicyConn/Twice.antt =====
-- What a `policyConn` (internal/tun_bridge.go) sends of bytes behind a record that does not parse.
use bill_vpn.Common.{
  ℕ, ◌+◌, ◌≡◌, refl, true, false, ◌||◌, some, List, [], ◌∷◌, ◌++◌, Bytes, length, take, drop, ltb,
  ◌==◌, append-nil, arith, Returns, returns,
}
use bill_vpn.ClientHello.{Parsed, parse_client_hello, byte_at, u16_at}
use bill_vpn.Policy.{is_block}
use bill_vpn.Route.{is_some}
use bill_vpn.Route.Plan.{DialPlan}
use bill_vpn.PolicyConn.{
  Event, wrote, Conn, World, act, flush_pending, handle_tls, send_tail, finish_record, handle_first,
  is_raw, try_handle_pending, write_conn,
}
use bill_vpn.PolicyConn.Streams.{sent, new_conn}

act-ok :
    (w : World) (e : Event) (c : Conn)
    → w.accepts c.events e ≡ true
    → act w e c ≡ (record c { events = c.events ++ (e ∷ []) }, true)
unfolding act
act-ok w e c ok = rw ok refl

flush_then_tail :
    (w : World) (plan : DialPlan) (x : ℕ) (tail : Bytes) (y : ℕ) (held : Bytes)
    → ((es : List Event) (e : Event) → w.accepts es e ≡ true)
    → sent
        (finish_record w
          (x ∷ tail)
          (flush_pending w (record (new_conn plan) { pending = y ∷ held }))).events
      ≡ (y ∷ held) ++ (x ∷ tail)
unfolding finish_record flush_pending send_tail sent new_conn
flush_then_tail w plan x tail y held ok =
    rw
      (
        act-ok w (wrote (y ∷ held)) (record (new_conn plan) { pending = y ∷ held })
            (ok [] (wrote (y ∷ held))),
        act-ok w (wrote (x ∷ tail))
            (record (new_conn plan) { handled = true; events = wrote (y ∷ held) ∷ [] })
            (ok (wrote (y ∷ held) ∷ []) (wrote (x ∷ tail))),
        append-nil tail,
      )
      refl

twice_from_first :
    (w : World) (plan : DialPlan) (len x : ℕ) (rest tail : Bytes) (h : Parsed)
    → ((es : List Event) (e : Event) → w.accepts es e ≡ true)
    → u16_at (22 ∷ 3 ∷ rest) 3 ≡ some len
    → ltb (length (22 ∷ 3 ∷ rest)) (5 + len) ≡ false
    → drop (5 + len) (22 ∷ 3 ∷ rest) ≡ x ∷ tail
    → parse_client_hello (take (5 + len) (22 ∷ 3 ∷ rest)) ≡ some h
    → is_some h.error ≡ true
    → Returns
        (λ d. sent d.events ≡ (22 ∷ 3 ∷ rest) ++ (x ∷ tail))
        (handle_first w (record (new_conn plan) { pending = 22 ∷ 3 ∷ rest }))
unfolding handle_first new_conn byte_at
twice_from_first w plan len x rest tail h ok n whole more parse bad =
    rw (handle_first, n, whole, handle_tls, parse, bad, more)
      (returns (flush_then_tail w plan x tail 22 (3 ∷ rest) ok))

-- On a plan that neither blocks nor is in raw mode: when the first write to the connection starts
-- as a TLS record that is complete but does not parse, and more bytes stand behind it, the inner
-- connection, if it takes everything, gets all bytes written and then those behind the record a
-- second time.
pub tail_sent_twice :
    (w : World) (plan : DialPlan) (len x : ℕ) (rest tail : Bytes) (h : Parsed)
    → ((es : List Event) (e : Event) → w.accepts es e ≡ true)
    → (plan.blocked || is_block plan.policy.mode) ≡ false
    → is_raw plan.policy.mode ≡ false
    → u16_at (22 ∷ 3 ∷ rest) 3 ≡ some len
    → ltb (length (22 ∷ 3 ∷ rest)) (5 + len) ≡ false
    → drop (5 + len) (22 ∷ 3 ∷ rest) ≡ x ∷ tail
    → parse_client_hello (take (5 + len) (22 ∷ 3 ∷ rest)) ≡ some h
    → is_some h.error ≡ true
    → Returns
        (λ d. sent d.events ≡ (22 ∷ 3 ∷ rest) ++ (x ∷ tail))
        (write_conn w (22 ∷ 3 ∷ rest) (new_conn plan))
unfolding write_conn try_handle_pending new_conn
tail_sent_twice w plan len x rest tail h ok unblocked not_raw n whole more parse bad =
    let first = twice_from_first w plan len x rest tail h ok n whole more parse bad in
    let there : (length (22 ∷ 3 ∷ rest) == 0) ≡ false = ground arith in
    let header : ltb (length (22 ∷ 3 ∷ rest)) 5 ≡ false = ground (arith, whole) in
    rw (there, unblocked, not_raw, header) first
