-- ===== src/Tunnel/Hello.antt =====
-- `handleTLS` (internal/tunnel.go) in the modes that keep the ClientHello whole: how much of the
-- message the destination gets.
use bill_vpn.Common.{
  ℕ, ◌+◌, ◌≤◌, ◌<◌, ◌≡◌, refl, ◌⊎◌, inl, inr, true, not, ◌&&◌, Option, none, some, List, [], ◌∷◌,
  map, append-nil, Bytes, Bytes-discrete, length, take, slice_value, Option-cases, drop,
  take-append-drop, ◌++◌, ltb, ite, arith, ℤ, pos, ltb_ℤ, sym, Returns, returns, Returns-if,
  Returns-bind, get_elem?-some, if◌then◌else◌, ◌>>=◌,
}
use mathlib.Core.Path.{subst}
use bill_vpn.ClientHello.{Parsed, ParseError, byte_at, parse_client_hello}
use bill_vpn.ClientHello.Bounds.{HasVersion, InRange, parse_client_hello-IsSound}
use bill_vpn.Policy.{Mode, unknown, raw, direct, tls_rf, ttl_d, block, tls_alert, is_true}
use bill_vpn.Desync.{Syscall, Ending, Splice, splice_loop, done}
use bill_vpn.Desync.Sends.{Noisy, all_ok, desync_send-Noisy}
use bill_vpn.Tunnel.Events.{called, upstream, goes_on, failed, Run, fails}
use bill_vpn.Tunnel.{
  end_of, World, Request, send_tls_alert, connect_first, write_once, send_desync, send_hello,
  check_name, handle_name, is_tls_alert, handle_hello, unless_error, handle_tls,
}

-- The tunnel goes on, and the destination has got all of the bytes; or it has ended, and the
-- destination has got those up to some point, none if no write and no copy fails.
unfoldable pub AllOrPart : World → Bytes → Run → Type 0
AllOrPart w b run =
    ((run.end ≡ goes_on) × (upstream run.events ≡ b))
    ⊎ ((run.end ≡ failed)
        × ((missed : Bytes) × (upstream run.events ++ missed ≡ b))
        × (w.write_fails ≡ none → w.copy_fails ≡ none → upstream run.events ≡ []))

-- Nothing of the bytes has got to the destination.
ended-AllOrPart :
    (w : World) (b : Bytes) (run : Run)
    → run.end ≡ failed
    → upstream run.events ≡ []
    → AllOrPart w b run
unfolding AllOrPart
ended-AllOrPart w b run e f = inr (e, (b, rw f refl), λ _ _. f)

-- The modes that send the message as it is.
pub data KeepsWhole : Mode → Type 0 where
  direct_whole : KeepsWhole direct
  ttl_whole : KeepsWhole ttl_d

pub fails-AllOrPart : (w : World) (b : Bytes) → AllOrPart w b fails
unfolding upstream
fails-AllOrPart w b = ended-AllOrPart w b fails refl refl

write_once-AllOrPart : (w : World) (b : Bytes) → AllOrPart w b (write_once w b)
unfolding upstream AllOrPart write_once
write_once-AllOrPart w b = elim (Option-cases w.write_fails) [
  | inl e ↦ rw (write_once, e) (inl (refl, append-nil b))
  | inr (n, e) ↦
      rw (write_once, e)
        (inr (
          refl,
          (drop n b, rw (append-nil (take n b)) (take-append-drop n b)),
          λ sends _. absurd (ground (arith, sends, e)),
        ))
]

send_tls_alert-AllOrPart :
    (w : World) (b : Bytes) (ver : Option Bytes) (desc level : ℕ)
    → HasVersion ver
    → Returns (AllOrPart w b) (send_tls_alert ver desc level)
unfolding send_tls_alert upstream byte_at
send_tls_alert-AllOrPart w b none desc level h = elim h [ ]
send_tls_alert-AllOrPart w b (some []) desc level h = absurd (ground arith)
send_tls_alert-AllOrPart w b (some (x ∷ [])) desc level h = absurd (ground arith)
send_tls_alert-AllOrPart w b (some (x ∷ y ∷ v)) desc level h =
    returns (ended-AllOrPart w b _ refl refl)

connect_first-AllOrPart :
    (w : World) (r : Request) (b : Bytes) (rest : Option Run)
    → Returns (AllOrPart w b) rest
    → Returns (AllOrPart w b) (connect_first w r rest)
unfolding upstream connect_first AllOrPart
connect_first-AllOrPart w r b rest h =
    Returns-if r.reply_first
      (λ _.
        Returns-if w.dial_ok (λ _. Returns-bind h λ run good. returns good)
          (λ _. returns (inr (refl, (b, refl), λ _ _. refl))))
      (λ _. h)

-- The calls of `desyncSend` bring the packet.
Noisy-AllOrPart :
    (w : World) (hello : Bytes) (n : ℕ) (fake_ttl ttl sleep : ℤ) (calls : List Syscall × Ending)
    → Noisy hello n fake_ttl ttl sleep calls
    → AllOrPart w hello (record { events = map called calls.0; end = end_of calls.1 })
unfolding AllOrPart upstream Noisy
Noisy-AllOrPart w hello n fake_ttl ttl sleep calls noisy =
    let (fake, page, after, rest, e, _, whole, _, _) = noisy in
    rw (e) (inl (refl, rw (append-nil rest) whole))

ite-Returns {ℓ κ} :
    {A : Type ℓ} {P : Type κ} {Q : A → Type 0} (d : Dec P) {x y : Option A}
    → Returns Q x
    → Returns Q y
    → Returns Q (ite d x y)
ite-Returns (yes p) h k = h
ite-Returns (no n) h k = k

module _ (w₀ : World) (r : Request) (hello : Bytes) (ttl : ℤ) (splices : List Splice) (page : ℕ)
    (room : 0 < page) (to_host : 0 < length r.target)
    (drains : (k : ℕ) → k ≤ length hello → splice_loop splices k ≡ done) where
  abbrev w : World
  w = record w₀ { outcomes = all_ok ttl splices page }

  send_desync-AllOrPart :
      (n len : ℕ)
      → n + len < length hello
      → Returns (AllOrPart w hello) (send_desync w r hello (pos n) len)
  unfolding send_desync byte_at AllOrPart
  send_desync-AllOrPart n len h =
      let (c, e) = get_elem?-some r.target 0 to_host in
      rw e (
        Returns-bind
          (desync_send-Noisy ttl _ r.policy.fake_sleep splices page n hello room drains len h)
          λ calls noisy. returns (Noisy-AllOrPart w hello n _ ttl r.policy.fake_sleep calls noisy))

  send_hello-AllOrPart :
      (m : Mode) (n len : ℕ)
      → KeepsWhole m
      → n + len < length hello
      → Returns (AllOrPart w hello) (send_hello w r hello (pos n) len m)
  unfolding send_hello
  send_hello-AllOrPart direct n len direct_whole h = returns (write_once-AllOrPart w hello)
  send_hello-AllOrPart ttl_d n len ttl_whole h = send_desync-AllOrPart n len h
  send_hello-AllOrPart unknown n len k h = elim k [ ]
  send_hello-AllOrPart raw n len k h = elim k [ ]
  send_hello-AllOrPart tls_rf n len k h = elim k [ ]
  send_hello-AllOrPart block n len k h = elim k [ ]
  send_hello-AllOrPart tls_alert n len k h = elim k [ ]

  check_name-AllOrPart :
      (m : Mode) (ver : Option Bytes) (rest : Option Run)
      → HasVersion ver
      → Returns (AllOrPart w hello) rest
      → Returns (AllOrPart w hello) (check_name m ver rest)
  unfolding check_name
  check_name-AllOrPart block ver rest v h = returns (fails-AllOrPart w hello)
  check_name-AllOrPart tls_alert ver rest v h = send_tls_alert-AllOrPart w hello ver 70 2 v
  check_name-AllOrPart unknown ver rest v h = h
  check_name-AllOrPart raw ver rest v h = h
  check_name-AllOrPart direct ver rest v h = h
  check_name-AllOrPart tls_rf ver rest v h = h
  check_name-AllOrPart ttl_d ver rest v h = h

  handle_name-AllOrPart :
      (p : Parsed) (n : ℕ)
      → KeepsWhole r.policy.mode
      → HasVersion p.prt_ver
      → n + p.sni_len < length hello
      → Returns (AllOrPart w hello) (handle_name w r hello (record p { sni_pos = pos n }))
  unfolding handle_name
  handle_name-AllOrPart p n m v h =
      let rest =
        connect_first-AllOrPart w r hello _ (send_hello-AllOrPart r.policy.mode n p.sni_len m h) in
      rw (slice_value hello n (n + p.sni_len) (omega arith) (omega arith)) (
        ite-Returns (Bytes-discrete r.origin_host _) rest
          (check_name-AllOrPart _ p.prt_ver _ v rest))

  handle_hello-AllOrPart :
      (p : Parsed)
      → KeepsWhole r.policy.mode
      → HasVersion p.prt_ver
      → InRange hello p.sni_pos p.sni_len
      → ((n : ℕ) → p.sni_pos ≡ pos n → n + p.sni_len < length hello)
      → Returns (AllOrPart w hello) (handle_hello w r hello p)
  unfolding handle_hello
  handle_hello-AllOrPart p m v range inside =
      Returns-if (is_tls_alert r.policy.mode) (λ _. send_tls_alert-AllOrPart w hello _ 70 2 v)
        λ _.
          Returns-if (is_true r.policy.tls13_only && not p.has_key_share)
            (λ _. send_tls_alert-AllOrPart w hello _ 49 2 v)
            λ _.
              Returns-if (ltb_ℤ (pos 0) p.sni_pos && ltb 0 p.sni_len)
                (λ named. named_case range named)
                λ _. connect_first-AllOrPart w r hello _ (returns (write_once-AllOrPart w hello))
    where
      named_case :
          InRange hello p.sni_pos p.sni_len
          → (ltb_ℤ (pos 0) p.sni_pos && ltb 0 p.sni_len) ≡ true
          → Returns (AllOrPart w hello) (handle_name w r hello p)
      named_case (inl (e, f)) named = absurd (ground (arith, e, f, named))
      named_case (inr (n, e, low, fits)) named =
          subst
            (λ z. Returns (AllOrPart w hello) (handle_name w r hello (record p { sni_pos = z })))
            (sym e) (handle_name-AllOrPart p n m v (inside n e))

  -- A test that only an absent error passes.
  unless_error-AllOrPart :
      (o : Option ParseError) (rest : Option Run)
      → (o ≡ none → Returns (AllOrPart w hello) rest)
      → Returns (AllOrPart w hello) (elim o [ none ↦ rest | some e ↦ some fails ])
  unless_error-AllOrPart none rest h = h refl
  unless_error-AllOrPart (some e) rest h = returns (fails-AllOrPart w hello)

  -- `hello` is what the buffer holds of the record.
  pub handle_tls-AllOrPart :
      (buffered : Bytes) (record_len : ℕ)
      → 5 ≤ record_len
      → hello ≡ take record_len buffered
      → KeepsWhole r.policy.mode
      → ((p : Parsed) (n : ℕ)
          → parse_client_hello hello ≡ some p
          → p.sni_pos ≡ pos n
          → n + p.sni_len < length hello)
      → Returns
          (AllOrPart (record w₀ { outcomes = all_ok ttl splices page }) hello)
          (handle_tls (record w₀ { outcomes = all_ok ttl splices page }) r buffered record_len)
  unfolding handle_tls
  handle_tls-AllOrPart buffered record_len five whole m inside =
      subst
        (λ (l : Bytes). Returns (AllOrPart w hello) (
          if ltb (length l) record_len
          then some fails
          else parse_client_hello l
            >>= (λ parsed. unless_error parsed (handle_hello w r l parsed))))
        whole
        (Returns-if (ltb (length hello) record_len) (λ _. returns (fails-AllOrPart w hello))
          λ full.
            let long : 5 ≤ length hello = ground arith in
            let (p, parsed, sound) = parse_client_hello-IsSound hello long in
            rw parsed (
              unless_error-AllOrPart p.error _
                λ ok. handle_hello-AllOrPart p m (sound.1 ok) sound.0 (λ n e. inside p n parsed e)))
