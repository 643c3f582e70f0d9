-- ===== src/FakeAnswer.antt =====
-- The DNS answers with fake addresses: `buildFakeAddressResponse` and what it calls in
-- internal/dns.go, and `allocateFakeIP` of internal/fake_ip.go. The answer of the upstream server
-- and the tests on the text of an address are arguments.
pub mod Recovers
pub mod Query
pub mod Tests
use bill_vpn.Common.{
  ℕ, Bool, true, false, not, Option, none, some, List, [], ◌∷◌, ◌++◌, Bytes, Bytes-discrete,
  if◌then◌else◌, ◌==◌, map, ◌>>=◌, find, put, pos,
}
use bill_vpn.FakeIp.{
  Store, Allocation, allocated, empty_domain, exhausted, allocate, fake_ip_lifetime,
  default_fake_ttl,
}
use bill_vpn.Route.{Env, is_empty, should_use_fake_ip}
use bill_vpn.Recorded.{Answer, Records, remember_recorded_dns_answers, fallback_fake_ttl}

-- `dns.RR_Header`
pub record Header : Type 0 where
  pub name : Bytes
  pub rrtype : ℕ
  pub class : ℕ
  pub ttl : ℕ

-- `dns.RR`: its header, if there is one, and its address or other data as text.
pub record Rr : Type 0 where
  pub header : Option Header
  pub value : Bytes

-- `dns.Question`
pub record Question : Type 0 where
  pub qname : Bytes
  pub qtype : ℕ
  pub qclass : ℕ

-- The parts of `dns.Msg` that the code reads.
pub record Msg : Type 0 where
  pub rcode : ℕ
  pub question : List Question
  pub answer : List Rr
  pub ns : List Rr
  pub extra : List Rr

-- `dns.TypeA` and `dns.TypeAAAA`.
abbrev pub type_a : ℕ
type_a = 1

abbrev pub type_aaaa : ℕ
type_aaaa = 28

pub record Stores : Type 0 where
  pub v4 : Store
  pub v6 : Store
  pub records : Records

-- What stands outside: the clock, `Addr.String`, `dnsCacheTTL`, the decisions on domains, and
-- whether a text is an IPv4 address or an IPv6 address proper.
pub record Outside : Type 0 where
  pub now : ℕ
  pub to_text : ℕ → Bytes
  pub dns_cache_ttl : ℕ
  pub env : Env
  pub is_ipv4_text : Bytes → Bool
  pub is_ipv6_text : Bytes → Bool

-- A result that is an error or a value; the error of `Allocate` is not told from the others.
pub data Reply {ℓ} (A : Type ℓ) : Type ℓ where
  refused : Reply A
  replied : A → Reply A

abbrev pub of_allocation : Allocation → Reply Bytes
of_allocation (allocated ip) = replied ip
of_allocation empty_domain = refused
of_allocation exhausted = refused

-- `allocateFakeIP`; `none` if the fuel of the allocation runs out.
pub allocate_fake_ip : Outside → Bytes → ℕ → ℕ → Stores → Option (Stores × Reply Bytes)
allocate_fake_ip o domain qtype ttl s =
    let lifetime = pos (fake_ip_lifetime o.dns_cache_ttl ttl) in
    if qtype == type_a
    then allocate o.to_text o.now domain lifetime s.v4
      >>= (λ r. some (record s { v4 = r.0 }, of_allocation r.1))
    else if qtype == type_aaaa
    then allocate o.to_text o.now domain lifetime s.v6
      >>= (λ r. some (record s { v6 = r.0 }, of_allocation r.1))
    else some (s, refused)

-- `buildFakeAnswerRR`
pub build_fake_answer_rr : Outside → Option Header → Bytes → Reply Rr
build_fake_answer_rr o none fake_ip = refused
build_fake_answer_rr o (some h) fake_ip =
    let fresh = record h { ttl = if h.ttl == 0 then default_fake_ttl else h.ttl } in
    if h.rrtype == type_a
    then if o.is_ipv4_text fake_ip
      then replied (record { header = some fresh; value = fake_ip })
      else refused
    else if h.rrtype == type_aaaa
    then if o.is_ipv6_text fake_ip
      then replied (record { header = some fresh; value = fake_ip })
      else refused
    else refused

-- `buildQuestionFakeAnswerRR`
pub build_question_fake_answer_rr : Outside → Question → Bytes → ℕ → Reply Rr
unfolding build_fake_answer_rr
build_question_fake_answer_rr o q fake_ip ttl =
    build_fake_answer_rr o
      (some (record { name = q.qname; rrtype = q.qtype; class = q.qclass; ttl = ttl })) fake_ip

-- The variables of the loop over the answers.
pub record Loop : Type 0 where
  pub stores : Stores
  pub fake_ip : Bytes
  pub replaced : Bool
  pub names : List (Bytes × Bool)
  pub out : List Rr

-- A step of the loop ends the function with an error, or goes on.
pub data Step : Type 0 where
  stop : Stores → Step
  go_on : Loop → Step

-- `header == nil || header.Rrtype != qtype`
abbrev pub is_other : ℕ → Option Header → Bool
is_other qtype none = true
is_other qtype (some h) = not (h.rrtype == qtype)

abbrev pub name_of : Option Header → Bytes
name_of none = []
name_of (some h) = h.name

abbrev pub ttl_of : Option Header → ℕ
ttl_of none = 0
ttl_of (some h) = h.ttl

-- `if fakeIP == "" { … }`
pub ensure_fake_ip : Outside → Bytes → ℕ → ℕ → Loop → Option Step
unfolding allocate_fake_ip
ensure_fake_ip o domain qtype ttl l =
    if is_empty l.fake_ip
    then allocate_fake_ip o domain qtype ttl l.stores >>= (λ r. elim r.1 [
      | refused ↦ some (stop r.0)
      | replied ip ↦ some (go_on (record l { stores = r.0; fake_ip = ip }))
    ])
    else some (go_on l)

-- The end of the loop's body, where the answer has its fake address.
pub replace_answer : Outside → Option Header → Loop → Step
unfolding build_fake_answer_rr
replace_answer o header l = elim (find Bytes-discrete (name_of header) l.names) [
  | some seen ↦ go_on (record l { replaced = true })
  | none ↦ elim (build_fake_answer_rr o header l.fake_ip) [
    | refused ↦ stop l.stores
    | replied rr ↦ go_on (record l {
      replaced = true;
      names = put Bytes-discrete (name_of header) true l.names;
      out = l.out ++ (rr ∷ []);
    })
  ]
]

pub replace_answers : Outside → Bytes → ℕ → List Rr → Loop → Option Step
unfolding ensure_fake_ip replace_answer
replace_answers o domain qtype [] l = some (go_on l)
replace_answers o domain qtype (rr ∷ rrs) l =
    if is_other qtype rr.header
    then replace_answers o domain qtype rrs (record l { out = l.out ++ (rr ∷ []) })
    else ensure_fake_ip o domain qtype (ttl_of rr.header) l >>= (λ r. elim r [
      | stop s ↦ some (stop s)
      | go_on l' ↦ elim (replace_answer o rr.header l') [
        | stop s ↦ some (stop s)
        | go_on l2 ↦ replace_answers o domain qtype rrs l2
      ]
    ])

abbrev pub ttls_of : List Rr → List ℕ
ttls_of = map (λ rr. ttl_of rr.header)

-- The end of the function, where no answer was replaced.
pub answer_question :
    Outside → Bytes → ℕ → Msg → List Question → Stores → Option (Stores × Reply Msg)
unfolding allocate_fake_ip build_question_fake_answer_rr
answer_question o domain qtype upstream [] s = some (s, replied upstream)
answer_question o domain qtype upstream (q ∷ qs) s =
    let ttl =
      fallback_fake_ttl
        (some (ttls_of upstream.answer, ttls_of upstream.ns, ttls_of upstream.extra)) in
    allocate_fake_ip o domain qtype ttl s >>= (λ r. elim r.1 [
      | refused ↦ some (r.0, refused)
      | replied ip ↦ elim (build_question_fake_answer_rr o q ip ttl) [
        | refused ↦ some (r.0, refused)
        | replied rr ↦ some (r.0, replied (record upstream { answer = rr ∷ [] }))
      ]
    ])

-- The answers as the recorder of addresses sees them.
pub to_answer : Rr → Answer
to_answer rr = elim rr.header [
  | none ↦ Answer.other 0
  | some h ↦
      if h.rrtype == type_a
      then Answer.a rr.value h.ttl
      else if h.rrtype == type_aaaa
      then Answer.aaaa rr.value h.ttl
      else Answer.other h.ttl
]

-- `buildFakeAddressResponse`, with the questions of the request and the result of `dnsExchange`.
pub build_fake_address_response :
    Outside → List Question → Option Msg → Bytes → ℕ → Stores → Option (Stores × Reply Msg)
unfolding replace_answers answer_question to_answer
build_fake_address_response o questions none domain qtype s = some (s, refused)
build_fake_address_response o questions (some upstream) domain qtype s =
    if not (upstream.rcode == 0)
    then some (s, replied upstream)
    else (let s' = record s {
      records =
          remember_recorded_dns_answers o.now domain (map to_answer upstream.answer) s.records;
    } in
        if not (should_use_fake_ip o.env domain)
        then some (s', replied upstream)
        else replace_answers o domain qtype upstream.answer
            (record { stores = s'; fake_ip = []; replaced = false; names = []; out = [] })
          >>= (λ r. elim r [
            | stop s2 ↦ some (s2, refused)
            | go_on l ↦
                if l.replaced
                then some (l.stores, replied (record upstream { answer = l.out }))
                else answer_question o domain qtype upstream questions l.stores
          ]))
