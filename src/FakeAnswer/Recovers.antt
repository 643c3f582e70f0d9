-- ===== src/FakeAnswer/Recovers.antt =====
-- The fake addresses in the answers of `buildFakeAddressResponse` (internal/dns.go) lead back to
-- the domain that was asked for, through the store of internal/fake_ip.go.
use bill_vpn.Common.{
  ℕ, ◌+◌, ◌≤◌, ◌<◌, ◌≡◌, ◌≢◌, All, All-snoc, All-map, ◌⊎◌, refl, sym, ◌∙◌, true, false, not, Option,
  none, some, List, [], ◌∷◌, ◌++◌, Bytes, Bytes-discrete, if◌then◌else◌, ◌==◌, find, put, pos,
  arith, Returns, returns, Returns-bind, Returns-if, Returns-value, Option-cases, inl, inr,
}
use bill_vpn.FakeIp.{
  Store, Allocation, allocated, empty_domain, exhausted, allocate, fake_ip_lifetime, expiry,
  to_lower, lookup_domain, second,
}
use bill_vpn.FakeIp.Valid.{IsValid}
use bill_vpn.FakeIp.Allocate.{Outcome, taken, full}
use bill_vpn.FakeIp.Allocate
use bill_vpn.FakeIp.Leases.{
  allocate-Outcome, lookup_domain-allocate, fake_ip_lifetime-bounds, expiry-second,
}
use bill_vpn.Recorded.{fallback_fake_ttl}
use bill_vpn.Route.{is_empty-false, should_use_fake_ip}
use bill_vpn.FakeAnswer.{
  Header, Rr, Msg, Question, Stores, Outside, Reply, refused, replied, type_a, of_allocation,
  allocate_fake_ip, build_fake_answer_rr, build_question_fake_answer_rr, Loop, Step, stop, go_on,
  is_other, name_of, ttl_of, ensure_fake_ip, replace_answer, replace_answers, ttls_of,
  answer_question, build_fake_address_response,
}

-- For a second at least, the address is looked up as the domain.
pub Leads : Outside → Bytes → Store → Bytes → Type 0
Leads o domain s ip =
    (later : ℕ) → later < o.now + second → lookup_domain later ip s ≡ (s, some (to_lower domain))

-- What `buildFakeAddressResponse` returns for a domain that has a rule.
pub data Recovered (o : Outside) (domain : Bytes) : Stores × Reply Msg → Type 0 where
  gave_up : {t : Stores} → Recovered o domain (t, refused)
  answered :
      {t : Stores} {m : Msg}
      → IsValid o.to_text t.v4
      → All (λ rr. (is_other type_a rr.header ≡ true) ⊎ Leads o domain t.v4 rr.value) m.answer
      → Recovered o domain (t, replied m)

module _ (o : Outside) (domain : Bytes) (nonempty : (a : ℕ) → o.to_text a ≢ []) where
  -- What an allocation gives.
  data Given : Stores × Reply Bytes → Type 0 where
    denied : {t : Stores} → Given (t, refused)
    given :
        {t : Stores} {ip : Bytes}
        → IsValid o.to_text t.v4
        → Leads o domain t.v4 ip
        → ip ≢ []
        → Given (t, replied ip)

  long_enough :
      (ttl : ℕ) → o.now + second ≤ expiry o.now (pos (fake_ip_lifetime o.dns_cache_ttl ttl))
  long_enough ttl =
      expiry-second o.now (fake_ip_lifetime o.dns_cache_ttl ttl)
        (fake_ip_lifetime-bounds o.dns_cache_ttl ttl).2

  Given-by :
      (ttl : ℕ) (s t : Store) (a : Allocation)
      → IsValid o.to_text s
      → allocate o.to_text o.now domain (pos (fake_ip_lifetime o.dns_cache_ttl ttl)) s ≡ some (t, a)
      → Outcome o.to_text o.now
          (to_lower domain)
          (expiry o.now (pos (fake_ip_lifetime o.dns_cache_ttl ttl)))
          s
          (t, a)
      → (rest : Stores) → Given (record rest { v4 = t }, of_allocation a)
  unfolding Leads
  Given-by ttl s t (allocated ip) v e (taken w found keeps) rest =
      given w
        (λ later soon.
          lookup_domain-allocate o.to_text o.now later domain _ s t ip v e
            (omega (arith, long_enough ttl)))
        (let (n, place, low, high) = w.placed ip _ found in λ none_. nonempty n (sym place ∙ none_))
  Given-by ttl s t exhausted v e (full w all) rest = denied
  Given-by ttl s t empty_domain v e (Allocate.refused h k) rest = denied

  allocate_fake_ip-Given :
      (ttl : ℕ) (s : Stores)
      → IsValid o.to_text s.v4
      → Returns Given (allocate_fake_ip o domain type_a ttl s)
  unfolding allocate_fake_ip
  allocate_fake_ip-Given ttl s v =
      let (r, e, out) = Returns-value (
        allocate-Outcome o.to_text o.now domain (pos (fake_ip_lifetime o.dns_cache_ttl ttl)) s.v4
          v) in
      rw e (returns (Given-by ttl s.v4 r.0 r.1 v e out s))

  abbrev IsGood : Loop → Rr → Type 0
  IsGood l rr = (is_other type_a rr.header ≡ true) ⊎ (rr.value ≡ l.fake_ip)

  -- The loop once it has its fake address.
  record Holding (l : Loop) : Type 0 where
    valid : IsValid o.to_text l.stores.v4
    leads : Leads o domain l.stores.v4 l.fake_ip
    has_ip : l.fake_ip ≢ []
    good : All (IsGood l) l.out

  -- Between two rounds of the loop: no answer of the type is there yet, or all lead to the domain.
  data Held (l : Loop) : Type 0 where
    waiting :
        IsValid o.to_text l.stores.v4
        → l.fake_ip ≡ []
        → l.replaced ≡ false
        → All (λ rr. is_other type_a rr.header ≡ true) l.out
        → Held l
    holding : Holding l → Held l

  data Goes {κ} (P : Loop → Type κ) : Step → Type κ where
    stopped : {s : Stores} → Goes P (stop s)
    goes : {l : Loop} → P l → Goes P (go_on l)

  allocated_round :
      (l : Loop)
      → All (λ rr. is_other type_a rr.header ≡ true) l.out
      → (r : Stores × Reply Bytes) → Given r
      → Returns (Goes Holding) (elim r.1 as (λ x. Option Step) [
        | refused ↦ some (stop r.0)
        | replied ip ↦ some (go_on (record l { stores = r.0; fake_ip = ip }))
      ])
  allocated_round l others _ denied = returns stopped
  allocated_round l others _ (given v leads has) = returns (
      goes (record {
        valid = v;
        leads = leads;
        has_ip = has;
        good = All-map _ _ l.out (λ rr h. inl h) others;
      }))

  ensure_fake_ip-Holding :
      (ttl : ℕ) (l : Loop) → Held l → Returns (Goes Holding) (ensure_fake_ip o domain type_a ttl l)
  unfolding ensure_fake_ip
  ensure_fake_ip-Holding ttl l (holding h) =
      rw (ensure_fake_ip, is_empty-false l.fake_ip h.has_ip) (returns (goes h))
  ensure_fake_ip-Holding ttl l (waiting v none_ not_yet others) =
      rw (ensure_fake_ip, none_)
        (Returns-bind (allocate_fake_ip-Given ttl l.stores v) (allocated_round l others))

  built_good :
      (l : Loop) (header : Option Header) (rr : Rr)
      → build_fake_answer_rr o header l.fake_ip ≡ replied rr
      → rr.value ≡ l.fake_ip
  unfolding build_fake_answer_rr
  built_good l none rr e = absurd (ground arith)
  built_good l (some h) rr e = ground arith

  replace_answer-Holding :
      (header : Option Header) (l : Loop) → Holding l → Goes Holding (replace_answer o header l)
  unfolding replace_answer
  replace_answer-Holding header l h =
      elim (Option-cases (find Bytes-discrete (name_of header) l.names)) [
        | inr (seen, e) ↦
            rw (replace_answer, e)
              (goes (record { valid = h.valid; leads = h.leads; has_ip = h.has_ip; good = h.good }))
        | inl e ↦ rw (replace_answer, e) (added (build_fake_answer_rr o header l.fake_ip) refl)
      ]
    where
      added :
          (r : Reply Rr)
          → r ≡ build_fake_answer_rr o header l.fake_ip
          → Goes Holding (elim r as (λ x. Step) [
            | refused ↦ stop l.stores
            | replied rr ↦ go_on (record l {
              replaced = true;
              names = put Bytes-discrete (name_of header) true l.names;
              out = l.out ++ (rr ∷ []);
            })
          ])
      added refused e = stopped
      added (replied rr) e = goes (record {
        valid = h.valid;
        leads = h.leads;
        has_ip = h.has_ip;
        good = All-snoc _ l.out rr h.good (inr (built_good l header rr (sym e)));
      })

  skip-Held :
      (l : Loop) (rr : Rr)
      → is_other type_a rr.header ≡ true
      → Held l
      → Held (record l { out = l.out ++ (rr ∷ []) })
  skip-Held l rr e (waiting v none_ not_yet others) =
      waiting v none_ not_yet (All-snoc _ l.out rr others e)
  skip-Held l rr e (holding h) = holding (record {
    valid = h.valid;
    leads = h.leads;
    has_ip = h.has_ip;
    good = All-snoc _ l.out rr h.good (inl e);
  })

  replace_answers-Held :
      (rrs : List Rr) (l : Loop)
      → Held l
      → Returns (Goes Held) (replace_answers o domain type_a rrs l)
  unfolding replace_answers
  replace_answers-Held [] l h = returns (goes h)
  replace_answers-Held (rr ∷ rrs) l h =
      Returns-if (is_other type_a rr.header)
        (λ e. replace_answers-Held rrs (record l { out = l.out ++ (rr ∷ []) }) (skip-Held l rr e h))
        (λ e.
          Returns-bind (ensure_fake_ip-Holding (ttl_of rr.header) l h)
            (λ st g. one (replace_answers-Held rrs) st g))
    where
      two :
          ((l2 : Loop) → Held l2 → Returns (Goes Held) (replace_answers o domain type_a rrs l2))
          → (st : Step) → Goes Holding st
          → Returns (Goes Held) (elim st as (λ x. Option Step) [
            | stop s ↦ some (stop s)
            | go_on l2 ↦ replace_answers o domain type_a rrs l2
          ])
      two rest _ stopped = returns stopped
      two rest _ (goes {l = l2} g) = rest l2 (holding g)

      one :
          ((l2 : Loop) → Held l2 → Returns (Goes Held) (replace_answers o domain type_a rrs l2))
          → (st : Step) → Goes Holding st
          → Returns (Goes Held) (elim st as (λ x. Option Step) [
            | stop s ↦ some (stop s)
            | go_on l' ↦ elim (replace_answer o rr.header l') [
              | stop s ↦ some (stop s)
              | go_on l2 ↦ replace_answers o domain type_a rrs l2
            ]
          ])
      one rest _ stopped = returns stopped
      one rest _ (goes {l = l'} g) =
          two rest (replace_answer o rr.header l') (replace_answer-Holding rr.header l' g)

  from_question :
      (upstream : Msg) (q : Question) (ttl : ℕ) (r : Stores × Reply Bytes)
      → Given r
      → Returns (Recovered o domain) (elim r.1 as (λ x. Option (Stores × Reply Msg)) [
        | refused ↦ some (r.0, refused)
        | replied ip ↦ elim (build_question_fake_answer_rr o q ip ttl) [
          | refused ↦ some (r.0, refused)
          | replied rr ↦ some (r.0, replied (record upstream { answer = rr ∷ [] }))
        ]
      ])
  unfolding build_question_fake_answer_rr build_fake_answer_rr
  from_question upstream q ttl _ denied = returns gave_up
  from_question upstream q ttl _ (given {t = t} {ip = ip} v leads has) =
      go (build_question_fake_answer_rr o q ip ttl) refl
    where
      go :
          (b : Reply Rr)
          → b ≡ build_question_fake_answer_rr o q ip ttl
          → Returns (Recovered o domain) (elim b as (λ x. Option (Stores × Reply Msg)) [
            | refused ↦ some (t, refused)
            | replied rr ↦ some (t, replied (record upstream { answer = rr ∷ [] }))
          ])
      go refused e = returns gave_up
      go (replied rr) e =
          let same : rr.value ≡ ip = ground arith in returns (answered v (inr (rw same leads), tt))

  abbrev fallback : Msg → ℕ
  fallback m = fallback_fake_ttl (some (ttls_of m.answer, ttls_of m.ns, ttls_of m.extra))

  from_loop :
      (upstream : Msg) (q : Question) (st : Step)
      → Goes Held st
      → Returns (Recovered o domain) (elim st as (λ x. Option (Stores × Reply Msg)) [
        | stop s2 ↦ some (s2, refused)
        | go_on l ↦
            if l.replaced
            then some (l.stores, replied (record upstream { answer = l.out }))
            else answer_question o domain type_a upstream (q ∷ []) l.stores
      ])
  unfolding answer_question
  from_loop upstream q _ stopped = returns gave_up
  from_loop upstream q _ (goes {l = l} (waiting v none_ not_yet others)) = rw not_yet (
      Returns-bind (allocate_fake_ip-Given (fallback upstream) l.stores v)
        (from_question upstream q (fallback upstream)))
  from_loop upstream q _ (goes {l = l} (holding h)) =
      Returns-if l.replaced
        (λ e. returns (answered h.valid (All-map _ _ l.out (λ rr g. lead_of rr g) h.good)))
        (λ e.
          Returns-bind (allocate_fake_ip-Given (fallback upstream) l.stores h.valid)
            (from_question upstream q (fallback upstream)))
    where
      lead_of :
          (rr : Rr)
          → IsGood l rr
          → (is_other type_a rr.header ≡ true) ⊎ Leads o domain l.stores.v4 rr.value
      lead_of rr (inl e) = inl e
      lead_of rr (inr e) = inr (rw e h.leads)

  -- A query of type A for a domain that has a rule, answered by the upstream server without an
  -- error: the response is built, or an error is, and in the response every record of type A holds
  -- an address that the store looks up as the domain (in lower case) for a second at least. The
  -- store is valid again.
  pub build_fake_address_response-Recovered :
      (q : Question) (upstream : Msg) (s : Stores)
      → IsValid o.to_text s.v4
      → upstream.rcode ≡ 0
      → should_use_fake_ip o.env domain ≡ true
      → Returns
          (Recovered o domain)
          (build_fake_address_response o (q ∷ []) (some upstream) domain type_a s)
  unfolding build_fake_address_response
  build_fake_address_response-Recovered q upstream s v success ruled =
      Returns-if (not (upstream.rcode == 0)) (λ e. absurd (ground arith))
        (λ e.
          Returns-if (not (should_use_fake_ip o.env domain)) (λ f. absurd (ground arith))
            (λ f.
              Returns-bind (replace_answers-Held upstream.answer _ (waiting v refl refl tt))
                (from_loop upstream q)))
