-- ===== src/Recorded/Reads.antt =====
-- What a lookup of a recorded DNS answer (internal/dns.go) returns, and the TTL of the fake
-- answers.
use bill_vpn.Common.{
  ℕ, ◌+◌, ◌*◌, ◌<◌, ◌≤◌, ◌≡◌, ◌≢◌, refl, sym, Bool, true, false, some, List, [], ◌∷◌, ◌++◌, Bytes,
  Bytes-discrete, if◌then◌else◌, ◌==◌, find, arith, find-put, ◌⊎◌, inl, inr, Option-cases,
}
use bill_vpn.FakeIp.{to_lower, second, default_fake_ttl}
use bill_vpn.Policy.{DnsMode, dns_unknown, prefer_ipv4, prefer_ipv6, ipv4_only, ipv6_only}
use bill_vpn.Route.{is_empty}
use bill_vpn.Recorded.{
  Entry, Answer, a, Records, ttl_or_default, remember_answer, remember_all, entry_at,
  remember_recorded_dns_answers, is_valid_until, prune_entry, select_ip, lookup_recorded_dns_ip,
  consider_one, consider, fallback_fake_ttl,
}

remember_all-append :
    (now : ℕ) (domain : Bytes) (rs : List Answer) (r : Answer) (s : Entry × List (Bytes × Bytes))
    → remember_all now domain (rs ++ (r ∷ [])) s
      ≡ remember_answer now domain r (remember_all now domain rs s)
unfolding remember_all
remember_all-append now domain [] r s = refl
remember_all-append now domain (x ∷ rs) r s =
    remember_all-append now domain rs r (remember_answer now domain x s)

-- Whatever the recorded entry holds, an address that the choice returns is of a family that the
-- mode allows, is not empty, and has not expired.
pub data Answers (now : ℕ) (mode : DnsMode) (e : Entry) (ip : Bytes) : Type 0 where
  from_ipv4 : mode ≢ ipv6_only → e.ipv4 ≡ ip → ip ≢ [] → now < e.ipv4_expire → Answers now mode e ip
  from_ipv6 : mode ≢ ipv4_only → e.ipv6 ≡ ip → ip ≢ [] → now < e.ipv6_expire → Answers now mode e ip

is_empty-false : (d : Bytes) → is_empty d ≡ false → d ≢ []
is_empty-false [] h = absurd (ground arith)
is_empty-false (c ∷ d) h = λ e. ground arith

valid-now : (now : ℕ) (ip : Bytes) (t : ℕ) → is_valid_until now ip t ≡ true → now < t
valid-now now ip t h = ground arith

valid-nonempty :
    (now : ℕ) (ip : Bytes) (t : ℕ) → is_valid_until now ip t ≡ true → is_empty ip ≡ false
valid-nonempty now ip t h = ground arith

module _ (now : ℕ) (e : Entry) (ip : Bytes) where
  four :
      {mode : DnsMode}
      → mode ≢ ipv6_only
      → is_valid_until now e.ipv4 e.ipv4_expire ≡ true
      → e.ipv4 ≡ ip
      → Answers now mode e ip
  four allowed v same =
      from_ipv4 allowed same
        (rw (← same) (is_empty-false e.ipv4 (valid-nonempty now e.ipv4 e.ipv4_expire v)))
        (valid-now now e.ipv4 e.ipv4_expire v)

  six :
      {mode : DnsMode}
      → mode ≢ ipv4_only
      → is_valid_until now e.ipv6 e.ipv6_expire ≡ true
      → e.ipv6 ≡ ip
      → Answers now mode e ip
  six allowed v same =
      from_ipv6 allowed same
        (rw (← same) (is_empty-false e.ipv6 (valid-nonempty now e.ipv6 e.ipv6_expire v)))
        (valid-now now e.ipv6 e.ipv6_expire v)

  select_ip-Answers :
      (mode : DnsMode)
      → select_ip mode
          (is_valid_until now e.ipv4 e.ipv4_expire)
          (is_valid_until now e.ipv6 e.ipv6_expire)
          (prune_entry now e)
        ≡ some ip
      → Answers now mode e ip
  unfolding select_ip prune_entry
  select_ip-Answers mode h =
      by_family mode (is_valid_until now e.ipv4 e.ipv4_expire)
        (is_valid_until now e.ipv6 e.ipv6_expire) refl refl h
    where
      by_family :
          (m : DnsMode) (v4 v6 : Bool)
          → v4 ≡ is_valid_until now e.ipv4 e.ipv4_expire
          → v6 ≡ is_valid_until now e.ipv6 e.ipv6_expire
          → select_ip m v4 v6 (prune_entry now e) ≡ some ip
          → Answers now m e ip
      by_family ipv4_only true v6 h4 h6 f = four (λ g. ground arith) (sym h4) (ground arith)
      by_family ipv4_only false v6 h4 h6 f = absurd (ground arith)
      by_family ipv6_only v4 true h4 h6 f = six (λ g. ground arith) (sym h6) (ground arith)
      by_family ipv6_only v4 false h4 h6 f = absurd (ground arith)
      by_family prefer_ipv4 true v6 h4 h6 f = four (λ g. ground arith) (sym h4) (ground arith)
      by_family prefer_ipv4 false true h4 h6 f = six (λ g. ground arith) (sym h6) (ground arith)
      by_family prefer_ipv4 false false h4 h6 f = absurd (ground arith)
      by_family dns_unknown true v6 h4 h6 f = four (λ g. ground arith) (sym h4) (ground arith)
      by_family dns_unknown false true h4 h6 f = six (λ g. ground arith) (sym h6) (ground arith)
      by_family dns_unknown false false h4 h6 f = absurd (ground arith)
      by_family prefer_ipv6 v4 true h4 h6 f = six (λ g. ground arith) (sym h6) (ground arith)
      by_family prefer_ipv6 true false h4 h6 f = four (λ g. ground arith) (sym h4) (ground arith)
      by_family prefer_ipv6 false false h4 h6 f = absurd (ground arith)

-- When a lookup of a domain returns an address, the domain (in lower case) has a recorded entry
-- that holds it, in a family that the mode allows, and that address is not empty and not expired.
pub lookup_recorded_sound :
    (now : ℕ) (domain : Bytes) (mode : DnsMode) (s t : Records) (ip : Bytes)
    → lookup_recorded_dns_ip now domain mode s ≡ (t, some ip)
    → (e : Entry) × (find Bytes-discrete (to_lower domain) s.recorded ≡ some e)
      × Answers now mode e ip
unfolding lookup_recorded_dns_ip
lookup_recorded_sound now domain mode s t ip h =
    elim (Option-cases (find Bytes-discrete (to_lower domain) s.recorded)) [
      | inl none_found ↦ absurd (ground arith)
      | inr (e, found) ↦ (e, found, select_ip-Answers now e ip mode (ground arith))
    ]

read_ipv4 :
    (later : ℕ) (domain : Bytes) (s : Records) (e : Entry) (c : ℕ) (ip : Bytes)
    → domain ≢ []
    → find Bytes-discrete (to_lower domain) s.recorded ≡ some e
    → e.ipv4 ≡ c ∷ ip
    → later < e.ipv4_expire
    → (lookup_recorded_dns_ip later domain ipv4_only s).1 ≡ some (c ∷ ip)
unfolding lookup_recorded_dns_ip prune_entry select_ip
read_ipv4 later [] s e c ip full found here soon = absurd (full refl)
read_ipv4 later (d ∷ domain) s e c ip full found here soon = ground (arith, found, here, soon)

stored_ipv4 :
    (now : ℕ) (domain : Bytes) (x : Answer) (rs : List Answer) (s : Records) (c : ℕ) (ip : Bytes)
    (expire : ℕ)
    → domain ≢ []
    → (remember_all now
        (to_lower domain)
        (x ∷ rs)
        (entry_at (to_lower domain) s.recorded, s.ip_domains)).0.ipv4
      ≡ c ∷ ip
    → (remember_all now
        (to_lower domain)
        (x ∷ rs)
        (entry_at (to_lower domain) s.recorded, s.ip_domains)).0.ipv4_expire
      ≡ expire
    → (e : Entry) × (find Bytes-discrete
          (to_lower domain)
          (remember_recorded_dns_answers now domain (x ∷ rs) s).recorded
        ≡ some e)
      × (e.ipv4 ≡ c ∷ ip)
      × (e.ipv4_expire ≡ expire)
unfolding remember_recorded_dns_answers
stored_ipv4 now [] x rs s c ip expire full h k = absurd (full refl)
stored_ipv4 now (d ∷ domain) x rs s c ip expire full h k =
    let key = to_lower (d ∷ domain) in
    let e = (remember_all now key (x ∷ rs) (entry_at key s.recorded, s.ip_domains)).0 in
    (e, ground (arith, find-put Bytes-discrete key key e s.recorded, h), h, k)

last_ipv4 :
    (now : ℕ) (key : Bytes) (rs : List Answer) (c : ℕ) (ip : Bytes) (ttl : ℕ)
    (s : Entry × List (Bytes × Bytes))
    → ((remember_all now key (rs ++ (a (c ∷ ip) ttl ∷ [])) s).0.ipv4 ≡ c ∷ ip)
      × ((remember_all now key (rs ++ (a (c ∷ ip) ttl ∷ [])) s).0.ipv4_expire
          ≡ now + ttl_or_default ttl * second)
unfolding remember_answer
last_ipv4 now key rs c ip ttl s =
    rw (remember_all-append now key rs (a (c ∷ ip) ttl) s) (refl, refl)

-- An address that a response records last for a domain, as an A record, is what a lookup of the
-- domain for IPv4 returns until the record's time to live (300 seconds for 0) is over.
pub lookup_recorded-remember :
    (now later : ℕ) (domain : Bytes) (rs : List Answer) (c : ℕ) (ip : Bytes) (ttl : ℕ) (s : Records)
    → domain ≢ []
    → later < now + ttl_or_default ttl * second
    → (lookup_recorded_dns_ip later domain ipv4_only
        (remember_recorded_dns_answers now domain (rs ++ (a (c ∷ ip) ttl ∷ [])) s)).1
      ≡ some (c ∷ ip)
lookup_recorded-remember now later domain [] c ip ttl s full soon =
    let key = to_lower domain in
    let (last, until) = last_ipv4 now key [] c ip ttl (entry_at key s.recorded, s.ip_domains) in
    let (e, found, here, expire) =
      stored_ipv4 now domain (a (c ∷ ip) ttl) [] s c ip _ full last until in
    read_ipv4 later domain _ e c ip full found here (omega (arith, expire, soon))
lookup_recorded-remember now later domain (x ∷ rs) c ip ttl s full soon =
    let key = to_lower domain in
    let (last, until) =
      last_ipv4 now key (x ∷ rs) c ip ttl (entry_at key s.recorded, s.ip_domains) in
    let (e, found, here, expire) =
      stored_ipv4 now domain x (rs ++ (a (c ∷ ip) ttl ∷ [])) s c ip _ full last until in
    read_ipv4 later domain _ e c ip full found here (omega (arith, expire, soon))

pub data Among (t : ℕ) : List ℕ → Type 0 where
  here : {ts : List ℕ} → Among t (t ∷ ts)
  there : {u : ℕ} {ts : List ℕ} → Among t ts → Among t (u ∷ ts)

one-least : (least t : ℕ) → 0 < least → (0 < consider_one least t) × (consider_one least t ≤ least)
unfolding consider_one
one-least least t h = (ground arith, ground arith)

one-below : (least t : ℕ) → 0 < t → (0 < consider_one least t) × (consider_one least t ≤ t)
unfolding consider_one
one-below least t h = (ground arith, ground arith)

-- The least so far stays or falls.
consider-least :
    (least : ℕ) (ts : List ℕ) → 0 < least → (0 < consider least ts) × (consider least ts ≤ least)
unfolding consider
consider-least least [] h = (h, omega arith)
consider-least least (t ∷ ts) h =
    let (low, high) = one-least least t h in
    let (low', high') = consider-least (consider_one least t) ts low in (low', omega arith)

consider-below :
    (least t : ℕ) (ts : List ℕ)
    → 0 < t
    → Among t ts
    → (0 < consider least ts) × (consider least ts ≤ t)
unfolding consider
consider-below least t [] h m = elim m [ ]
consider-below least t (_ ∷ ts) h here =
    let (low, high) = one-below least t h in
    let (low', high') = consider-least (consider_one least t) ts low in (low', omega arith)
consider-below least t (u ∷ ts) h (there m) = consider-below (consider_one least u) t ts h m

finish :
    (least t : ℕ)
    → (0 < least) × (least ≤ t)
    → let ttl = if least == 0 then default_fake_ttl else least in (0 < ttl) × (ttl ≤ t)
finish least t (low, high) = (ground arith, ground arith)

-- For a response that has a positive time to live in any of its sections, that of the fake answer
-- is positive and not above it.
pub fallback_fake_ttl-least :
    (answer ns extra : List ℕ) (t : ℕ)
    → 0 < t
    → Among t answer ⊎ (Among t ns ⊎ Among t extra)
    → let ttl = fallback_fake_ttl (some (answer, ns, extra)) in (0 < ttl) × (ttl ≤ t)
unfolding fallback_fake_ttl
fallback_fake_ttl-least answer ns extra t h (inl m) =
    let (low, high) = consider-below 0 t answer h m in
    let (low', high') = consider-least (consider 0 answer) ns low in
    let (low2, high2) = consider-least (consider (consider 0 answer) ns) extra low' in
    finish _ t (low2, omega arith)
fallback_fake_ttl-least answer ns extra t h (inr (inl m)) =
    let (low', high') = consider-below (consider 0 answer) t ns h m in
    let (low2, high2) = consider-least (consider (consider 0 answer) ns) extra low' in
    finish _ t (low2, omega arith)
fallback_fake_ttl-least answer ns extra t h (inr (inr m)) =
    finish _ t (consider-below (consider (consider 0 answer) ns) t extra h m)
