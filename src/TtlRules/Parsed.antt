-- ===== src/TtlRules/Parsed.antt =====
-- The parse of the TTL rules of internal/desync.go ends, and what the rules compute.
use bill_vpn.Common.{
  ◌%◌, ℤ, ℕ, ◌⊎◌, ◌↔◌, ◌==◌, Bool-cases, zero, suc, ◌+◌, ◌-◌, ◌*◌, ◌<◌, ◌≤◌, ◌≡◌, ◌≢◌, refl, some,
  List, [], ◌∷◌, ◌++◌, Bytes, length, arith, Option-cases, inl, inr,
}
use mathlib.Core.Path.{subst}
use bill_vpn.TtlRules.Applied.{Among, here, Among-snoc, Falling}
use bill_vpn.TtlRules.{
  Rule, to_int, digits, skip_semicolon, parse_value, parse_operator, parse_rule, Parse, stuck,
  failed, parsed, parse_rules, parse_ttl_rules,
}

-- The scan over digits never gains a byte, and loses as many as it counts.
digits-length :
    (count acc : ℕ) (b : Bytes)
    → length (digits count acc b).2 + (digits count acc b).0 ≡ length b + count
unfolding digits
digits-length count acc [] = refl
digits-length count acc (c ∷ b) =
    ground (arith, digits-length (count + 1) ((acc * 10 + (c - b'0')) % 18446744073709551616) b)

skip_semicolon-length : (b : Bytes) → length (skip_semicolon b) ≤ length b
unfolding skip_semicolon
skip_semicolon-length [] = omega arith
skip_semicolon-length (c ∷ b) = ground arith

parse_value-length :
    (x : ℤ) (op : ℕ) (b : Bytes) (r : Rule) (rest : Bytes)
    → parse_value x op b ≡ some (r, rest)
    → length rest ≤ length b
unfolding parse_value
parse_value-length x op b r rest h =
    grind (arith, digits-length 0 0 b, skip_semicolon-length (digits 0 0 b).2)

parse_operator-length :
    (x : ℤ) (b : Bytes) (r : Rule) (rest : Bytes)
    → parse_operator x b ≡ some (r, rest)
    → length rest ≤ length b
unfolding parse_operator
parse_operator-length x [] r rest h = absurd (ground arith)
parse_operator-length x (op ∷ b) r rest h = grind (arith, parse_value-length x op b r rest)

parse_rule-length :
    (b : Bytes) (r : Rule) (rest : Bytes) → parse_rule b ≡ some (r, rest) → length rest < length b
unfolding parse_rule
parse_rule-length b r rest h = grind (
  arith,
  digits-length 0 0 b,
  parse_operator-length (to_int (digits 0 0 b).1) (digits 0 0 b).2 r rest,
)

-- One of the two operators.
pub IsOperator : ℕ → Type 0
IsOperator op = (op ≡ b'-') ⊎ (op ≡ b'=')

parse_value-typ :
    (x : ℤ) (op : ℕ) (b : Bytes) (r : Rule) (rest : Bytes)
    → parse_value x op b ≡ some (r, rest)
    → r.typ ≡ op
unfolding parse_value
parse_value-typ x op b r rest h = ground arith

parse_operator-IsOperator :
    (x : ℤ) (b : Bytes) (r : Rule) (rest : Bytes)
    → parse_operator x b ≡ some (r, rest)
    → IsOperator r.typ
unfolding parse_operator IsOperator
parse_operator-IsOperator x [] r rest h = absurd (ground arith)
parse_operator-IsOperator x (op ∷ b) r rest h = grind (arith, parse_value-typ x op b r rest)

parse_rule-IsOperator :
    (b : Bytes) (r : Rule) (rest : Bytes) → parse_rule b ≡ some (r, rest) → IsOperator r.typ
unfolding parse_rule
parse_rule-IsOperator b r rest h =
    let n = to_int (digits 0 0 b).1 in
    elim (Bool-cases ((digits 0 0 b).0 == 0)) [
      | inl e ↦ absurd (ground (arith, e, h))
      | inr e ↦ parse_operator-IsOperator n (digits 0 0 b).2 r rest (ground (arith, e, h))
    ]

-- One or more rules, each with one of the operators.
pub record IsRules (rules : List Rule) : Type 0 where
  pub nonempty : rules ≢ []
  pub operators : (q : Rule) → Among q rules → IsOperator q.typ

-- A parse is refused or gives at least one rule.
data Gathered : Parse → Type 0 where
  none_gathered : Gathered failed
  some_gathered : {rules : List Rule} → IsRules rules → Gathered (parsed rules)

IsRules-snoc :
    (rules : List Rule) (r : Rule)
    → ((q : Rule) → Among q rules → IsOperator q.typ)
    → IsOperator r.typ
    → IsRules (rules ++ (r ∷ []))
IsRules-snoc rules r h op = record {
  nonempty = grows rules;
  operators = λ q m. elim (Among-snoc q r rules m) [
    | inl old ↦ h q old
    | inr e ↦ subst (λ (x : Rule). IsOperator x.typ) e op
  ];
}
  where
    grows : (l : List Rule) → l ++ (r ∷ []) ≢ []
    grows [] = λ e. ground arith
    grows (x ∷ l) = λ e. ground arith

no_rule_yet : (q : Rule) → Among q [] → IsOperator q.typ
no_rule_yet q m = elim m [ ]

-- The fuel is enough, and a rule is never lost.
parse_rules-Gathered :
    (fuel : ℕ) (rules : List Rule) (b : Bytes)
    → length b ≤ fuel
    → IsRules rules
    → Gathered (parse_rules fuel rules b)
unfolding parse_rules
parse_rules-Gathered fuel rules [] h full = some_gathered full
parse_rules-Gathered zero rules (c ∷ b) h full = absurd (omega arith)
parse_rules-Gathered (suc fuel) rules (c ∷ b) h full = elim (Option-cases (parse_rule (c ∷ b))) [
  | inl e ↦ rw (parse_rules, e) none_gathered
  | inr ((r, rest), e) ↦
      let shorter = parse_rule-length (c ∷ b) r rest e in
      let op = parse_rule-IsOperator (c ∷ b) r rest e in
      rw (parse_rules, e)
        (parse_rules-Gathered fuel (rules ++ (r ∷ [])) rest (omega arith)
          (IsRules-snoc rules r full.operators op))
]

first_rule-Gathered : (c : ℕ) (b : Bytes) → Gathered (parse_rules (length (c ∷ b)) [] (c ∷ b))
unfolding parse_rules
first_rule-Gathered c b = elim (Option-cases (parse_rule (c ∷ b))) [
  | inl e ↦ rw (parse_rules, e) none_gathered
  | inr ((r, rest), e) ↦
      let shorter = parse_rule-length (c ∷ b) r rest e in
      let op = parse_rule-IsOperator (c ∷ b) r rest e in
      rw (parse_rules, e)
        (parse_rules-Gathered (length b) (r ∷ []) rest (omega arith)
          (IsRules-snoc [] r no_rule_yet op))
]

-- What a sort by falling threshold promises.
abbrev pub Sorts : (List Rule → List Rule) → Type 0
Sorts sort =
    (rules : List Rule) → Falling (sort rules) × ((q : Rule) → Among q (sort rules) ↔ Among q rules)

-- An error, or one or more rules that fall in their thresholds.
pub data Outcome : Parse → Type 0 where
  rejected : Outcome failed
  accepted : {rules : List Rule} → IsRules rules → Falling rules → Outcome (parsed rules)

-- The sort keeps the rules.
sort-IsRules :
    (sort : List Rule → List Rule)
    → Sorts sort
    → (rules : List Rule) → IsRules rules
    → IsRules (sort rules)
sort-IsRules sort sorts [] h = absurd (h.nonempty refl)
sort-IsRules sort sorts (r ∷ rules) h =
    let among = (sorts (r ∷ rules)).1 in
    record {
      nonempty = λ e. not_among (subst (λ l. Among r l) e ((among r).1 here));
      operators = λ q m. h.operators q ((among q).0 m);
    }
  where
    not_among : Among r [] → ⊥
    not_among m = elim m [ ]

-- For every configuration, with a sort that keeps the rules and puts them by falling threshold,
-- `parseTTLRules` ends: with an error, or with a list of one or more rules, each with the operator
-- `-` or `=`, that fall in their thresholds. It never returns an empty list, so the branch of
-- `loadTTLRules` for a plain integer is never taken.
pub parse_ttl_rules-Outcome :
    (sort : List Rule → List Rule) (conf : Bytes) → Sorts sort → Outcome (parse_ttl_rules sort conf)
unfolding parse_ttl_rules
parse_ttl_rules-Outcome sort [] sorts = rejected
parse_ttl_rules-Outcome sort (c ∷ conf) sorts =
    go (parse_rules (length (c ∷ conf)) [] (c ∷ conf)) (first_rule-Gathered c conf)
  where
    go :
        (p : Parse)
        → Gathered p
        → Outcome (elim p as (λ q. Parse) [
          | stuck ↦ stuck
          | failed ↦ failed
          | parsed rules ↦ parsed (sort rules)
        ])
    go _ none_gathered = rejected
    go _ (some_gathered {rules} full) =
        accepted (sort-IsRules sort sorts rules full) (sorts rules).0
