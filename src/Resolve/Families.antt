-- ===== src/Resolve/Families.antt =====
-- Which records the result of `doDNSResolve` (internal/dns.go) may come from, and which address
-- `pickBootstrapIP` (internal/config.go) takes.
use bill_vpn.Common.{
  ◌≡◌, ◌≢◌, refl, false, none, some, List, [], ◌∷◌, ◌++◌, Bytes, codes, ℕ, arith, Option-cases,
  Bool-cases, inl, inr, ◌⊎◌,
}
use bill_vpn.FakeAnswer.{Rr, type_a, type_aaaa, is_other}
use bill_vpn.Policy.{DnsMode, dns_unknown, prefer_ipv4, prefer_ipv6, ipv4_only, ipv6_only}
use bill_vpn.Resolve.{
  Network, Caches, pick_first, answers_of, first_question, pick_other, pick_preferred, pick_by_mode,
  do_dns_resolve,
}

-- The address stands in a record of the kind, in the answers.
pub data Among (kind : ℕ) (ip : Bytes) : List Rr → Type 0 where
  here :
      {rr : Rr} {rrs : List Rr}
      → is_other kind rr.header ≡ false
      → rr.value ≡ ip
      → Among kind ip (rr ∷ rrs)
  there : {rr : Rr} {rrs : List Rr} → Among kind ip rrs → Among kind ip (rr ∷ rrs)

-- Which kinds a mode allows, after which answer of the first exchange.
pub data Allows (rrs : List Rr) : DnsMode → ℕ → Type 0 where
  only_a : Allows rrs ipv4_only type_a
  only_aaaa : Allows rrs ipv6_only type_aaaa
  first_a : Allows rrs prefer_ipv4 type_a
  first_aaaa : Allows rrs prefer_ipv6 type_aaaa
  then_aaaa : pick_first type_a rrs ≡ none → Allows rrs prefer_ipv4 type_aaaa
  then_a : pick_first type_aaaa rrs ≡ none → Allows rrs prefer_ipv6 type_a

-- Where the address comes from.
pub record Found (net : Network) (domain : Bytes) (mode : DnsMode) (ip : Bytes) : Type 0 where
  pub first : List Rr
  pub answered : answers_of net (first_question domain mode) ≡ some first
  pub kind : ℕ
  pub allowed : Allows first mode kind
  pub rrs : List Rr
  pub asked : answers_of net (some (domain ++ codes ".", kind)) ≡ some rrs
  pub among : Among kind ip rrs

pick_first-Among :
    (kind : ℕ) (rrs : List Rr) (ip : Bytes) → pick_first kind rrs ≡ some ip → Among kind ip rrs
unfolding pick_first
pick_first-Among kind [] ip h = absurd (ground arith)
pick_first-Among kind (rr ∷ rrs) ip h = elim (Bool-cases (is_other kind rr.header)) [
  | inl e ↦ there (pick_first-Among kind rrs ip (ground (arith, e)))
  | inr e ↦ here e (ground (arith, e))
]

pick_other-Among :
    (net : Network) (domain : Bytes) (kind : ℕ) (ip : Bytes)
    → pick_other net domain kind ≡ some ip
    → (rrs : List Rr) × (answers_of net (some (domain ++ codes ".", kind)) ≡ some rrs)
      × Among kind ip rrs
unfolding pick_other
pick_other-Among net domain kind ip h =
    elim (Option-cases (answers_of net (some (domain ++ codes ".", kind)))) [
      | inl e ↦ absurd (ground (arith, e))
      | inr (rrs, e) ↦ (rrs, e, pick_first-Among kind rrs ip (ground (arith, e)))
    ]

module _ (net : Network) (domain ip : Bytes) where
  preferred-Found :
      (mode : DnsMode) (kind other_kind : ℕ) (rrs : List Rr)
      → Allows rrs mode kind
      → (pick_first kind rrs ≡ none → Allows rrs mode other_kind)
      → first_question domain mode ≡ some (domain ++ codes ".", kind)
      → answers_of net (first_question domain mode) ≡ some rrs
      → pick_preferred net domain kind other_kind rrs ≡ some ip
      → Found net domain mode ip
  unfolding pick_preferred
  preferred-Found mode kind other_kind rrs first second_ q e h =
      elim (Option-cases (pick_first kind rrs)) [
        | inl none_ ↦
            let (rrs2, e2, among) =
              pick_other-Among net domain other_kind ip (ground (arith, none_)) in
            record {
              first = rrs;
              answered = e;
              kind = other_kind;
              allowed = second_ none_;
              rrs = rrs2;
              asked = e2;
              among = among;
            }
        | inr (ip2, f) ↦ record {
          first = rrs;
          answered = e;
          kind = kind;
          allowed = first;
          rrs = rrs;
          asked = rw (← q) e;
          among = pick_first-Among kind rrs ip (ground (arith, f));
        }
      ]

  pick_by_mode-Found :
      (mode : DnsMode) (rrs : List Rr)
      → answers_of net (first_question domain mode) ≡ some rrs
      → pick_by_mode net domain mode rrs ≡ some ip
      → (mode ≡ dns_unknown) ⊎ Found net domain mode ip
  unfolding pick_by_mode first_question
  pick_by_mode-Found ipv4_only rrs e h = inr (record {
    first = rrs;
    answered = e;
    kind = type_a;
    allowed = only_a;
    rrs = rrs;
    asked = e;
    among = pick_first-Among type_a rrs ip h;
  })
  pick_by_mode-Found ipv6_only rrs e h = inr (record {
    first = rrs;
    answered = e;
    kind = type_aaaa;
    allowed = only_aaaa;
    rrs = rrs;
    asked = e;
    among = pick_first-Among type_aaaa rrs ip h;
  })
  pick_by_mode-Found prefer_ipv4 rrs e h =
      inr (preferred-Found prefer_ipv4 type_a type_aaaa rrs first_a then_aaaa refl e h)
  pick_by_mode-Found prefer_ipv6 rrs e h =
      inr (preferred-Found prefer_ipv6 type_aaaa type_a rrs first_aaaa then_a refl e h)
  pick_by_mode-Found dns_unknown rrs e h = inl refl

-- When `doDNSResolve` returns an address and the mode is set, the address stands in a record of a
-- kind that the mode allows, in a response without an error to a question of that kind for the
-- domain. The other kind of a mode with a preference is allowed only if the first response has no
-- record of the preferred kind.
pub do_dns_resolve-Found :
    (net : Network) (domain ip : Bytes) (mode : DnsMode) (c d : Caches)
    → mode ≢ dns_unknown
    → do_dns_resolve net domain mode c ≡ (d, some ip)
    → Found net domain mode ip
unfolding do_dns_resolve
do_dns_resolve-Found net domain ip mode c d set h =
    elim (Option-cases (answers_of net (first_question domain mode))) [
      | inl e ↦ absurd (ground (arith, e))
      | inr (rrs, e) ↦ elim (Option-cases (pick_by_mode net domain mode rrs)) [
        | inl f ↦ absurd (ground (arith, e, f))
        | inr (ip2, f) ↦
            let same : ip2 ≡ ip = ground (arith, e, f) in
            elim (pick_by_mode-Found net domain ip mode rrs e (rw (f, same) refl)) [
              | inl unset ↦ absurd (set unset)
              | inr found ↦ found
            ]
      ]
    ]
