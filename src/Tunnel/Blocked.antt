-- ===== src/Tunnel/Blocked.antt =====
-- A server name whose policy blocks it (internal/tunnel.go, `handleTLS`).
use bill_vpn.Common.{
  ℕ, ◌+◌, ◌≤◌, ◌≡◌, ◌≢◌, refl, ◌⊎◌, inl, inr, true, false, not, ◌&&◌, Option, none, some, [], ◌∷◌,
  Bytes, Bytes-discrete, length, length-take, take, slice, ite, ltb, arith, pos, pos_part, ltb_ℤ,
  Returns, returns, Returns-if,
}
use mathlib.Core.Path.{subst}
use bill_vpn.ClientHello.{Parsed, ParseError, byte_at, parse_client_hello}
use bill_vpn.ClientHello.Bounds.{HasVersion, IsSound, parse_client_hello-IsSound}
use bill_vpn.Policy.{unknown, raw, direct, tls_rf, ttl_d, Mode, block, tls_alert, is_true}
use bill_vpn.Tunnel.Events.{alerted, failed, Run, fails}
use bill_vpn.Tunnel.{
  World, Request, send_tls_alert, check_name, policy_of, handle_name, is_tls_alert, handle_hello,
  handle_tls,
}

-- The tunnel has ended and has not even dialled: all it did is an alert to the client at most.
pub Untouched : Run → Type 0
Untouched run =
    (run.end ≡ failed) × ((run.events ≡ []) ⊎ ((b : Bytes) × (run.events ≡ (alerted b ∷ []))))

send_tls_alert-Untouched :
    (ver : Option Bytes) (desc level : ℕ)
    → HasVersion ver
    → Returns Untouched (send_tls_alert ver desc level)
unfolding Untouched send_tls_alert byte_at
send_tls_alert-Untouched none desc level h = elim h [ ]
send_tls_alert-Untouched (some []) desc level h = absurd (ground arith)
send_tls_alert-Untouched (some (x ∷ [])) desc level h = absurd (ground arith)
send_tls_alert-Untouched (some (x ∷ y ∷ v)) desc level h = returns (refl, inr (_, refl))

-- The modes of a name's policy that block it.
pub data Blocks : Mode → Type 0 where
  blocks_block : Blocks block
  blocks_alert : Blocks tls_alert

check_name-Untouched :
    (m : Mode) (ver : Option Bytes) (rest : Option Run)
    → Blocks m
    → HasVersion ver
    → Returns Untouched (check_name m ver rest)
unfolding check_name Untouched
check_name-Untouched block ver rest m v = returns (refl, inl refl)
check_name-Untouched tls_alert ver rest m v = send_tls_alert-Untouched ver 70 2 v
check_name-Untouched unknown ver rest m v = elim m [ ]
check_name-Untouched raw ver rest m v = elim m [ ]
check_name-Untouched direct ver rest m v = elim m [ ]
check_name-Untouched tls_rf ver rest m v = elim m [ ]
check_name-Untouched ttl_d ver rest m v = elim m [ ]

Returns-ite_no {ℓ κ μ} :
    {A : Type ℓ} {P : Type κ} {Q : A → Type μ} (d : Dec P) (x y : Option A)
    → ¬ P
    → Returns Q y
    → Returns Q (ite d x y)
Returns-ite_no (yes p) x y h k = absurd (h p)
Returns-ite_no (no n) x y h k = k

handle_name-Untouched :
    (w : World) (r : Request) (hello name : Bytes) (p : Parsed)
    → HasVersion p.prt_ver
    → slice hello (pos_part p.sni_pos) (pos_part p.sni_pos + p.sni_len) ≡ some name
    → r.origin_host ≢ name
    → Blocks (policy_of w.env name).mode
    → Returns Untouched (handle_name w r hello p)
unfolding handle_name
handle_name-Untouched w r hello name p v at other blocked = rw at (
    Returns-ite_no (Bytes-discrete r.origin_host name) _ _ other
      (check_name-Untouched _ p.prt_ver _ blocked v))

unless_error-Untouched :
    (o : Option ParseError) (rest : Option Run)
    → o ≡ none
    → Returns Untouched rest
    → Returns Untouched (elim o [ none ↦ rest | some e ↦ some fails ])
unless_error-Untouched none rest e h = h
unless_error-Untouched (some x) rest e h = absurd (ground (arith, e))

-- A record that the buffer holds in full, whose ClientHello names a server other than the host that
-- was asked for, and the policy of that name is to block it or to alert. Whatever the policy and
-- the mode of the host asked for, whether the client was answered first, and however dials and
-- writes end: `handleTLS` ends the tunnel without dialling or sending to the destination, and the
-- client is sent one alert at most.
pub handle_tls_blocked :
    (w : World) (r : Request) (buffered name : Bytes) (record_len : ℕ) (p : Parsed)
    → 5 ≤ record_len
    → record_len ≤ length buffered
    → parse_client_hello (take record_len buffered) ≡ some p
    → p.error ≡ none
    → (ltb_ℤ (pos 0) p.sni_pos && ltb 0 p.sni_len) ≡ true
    → slice (take record_len buffered) (pos_part p.sni_pos) (pos_part p.sni_pos + p.sni_len)
      ≡ some name
    → r.origin_host ≢ name
    → Blocks (policy_of w.env name).mode
    → Returns Untouched (handle_tls w r buffered record_len)
unfolding handle_tls handle_hello
handle_tls_blocked w r buffered name record_len p five fits parse ok named at other blocked =
    let hello = take record_len buffered in
    let size : length hello ≡ record_len = omega (arith, length-take record_len buffered) in
    let full : ltb (length hello) record_len ≡ false = ground arith in
    let (q, e, sound) = parse_client_hello-IsSound hello (omega arith) in
    let same : q ≡ p = cc in
    let ver : HasVersion p.prt_ver = (subst (λ (x : Parsed). IsSound hello x) same sound).1 ok in
    rw (full, parse)
      (unless_error-Untouched p.error _ ok (
        Returns-if (is_tls_alert r.policy.mode) (λ _. send_tls_alert-Untouched _ 70 2 ver)
          λ _.
            Returns-if (is_true r.policy.tls13_only && not p.has_key_share)
              (λ _. send_tls_alert-Untouched _ 49 2 ver)
              λ _.
                Returns-if (ltb_ℤ (pos 0) p.sni_pos && ltb 0 p.sni_len)
                  (λ _. handle_name-Untouched w r hello name p ver at other blocked)
                  (λ unnamed. absurd (ground (arith, unnamed, named)))))
