-- ===== src/TtlRules/Tests.antt =====
-- The theorems on the TTL rules of internal/desync.go at two rules.
use mathlib.Core.Path.{subst}
use bill_vpn.Common.{
  Bool, true, false, ◌⊎◌, inl, inr, ltb_ℤ, if◌then◌else◌, Bool-cases, ◌≡◌, refl, some, List, [],
  ◌∷◌, codes, pos, ◌≤ℤ◌, arith,
}
use bill_vpn.TtlRules.{
  Rule, parse_ttl_rules, parsed, calc_ttl, digits, skip_semicolon, parse_value, parse_operator,
  parse_rule, parse_rules,
}
use bill_vpn.TtlRules.Parsed.{Sorts, Outcome, parse_ttl_rules-Outcome}
use bill_vpn.TtlRules.Applied.{
  Among, here, there, Falling, falling_nil, falling_cons, apply_rule, calc_ttl-best,
}

program : Unit {0}
unfolding digits skip_semicolon parse_value parse_operator parse_rule parse_rules parse_ttl_rules
program = tt

-- A sort by insertion.
insert_rule : Rule → List Rule → List Rule
insert_rule r [] = r ∷ []
insert_rule r (q ∷ rules) =
    let rest = insert_rule r rules in
    if ltb_ℤ r.threshold q.threshold then q ∷ rest else r ∷ q ∷ rules

insertion_sort : List Rule → List Rule
unfolding insert_rule
insertion_sort [] = []
insertion_sort (r ∷ rules) = insert_rule r (insertion_sort rules)

Among-if :
    (q : Rule) (b : Bool) (xs ys : List Rule)
    → Among q (if b then xs else ys)
    → Among q xs ⊎ Among q ys
Among-if q true xs ys m = inl m
Among-if q false xs ys m = inr m

in_if :
    (q : Rule) (b : Bool) (xs ys : List Rule)
    → Among q xs
    → Among q ys
    → Among q (if b then xs else ys)
in_if q true xs ys h k = h
in_if q false xs ys h k = k

Among-tail : (q x : Rule) (rules : List Rule) → Among q (x ∷ rules) → (x ≡ q) ⊎ Among q rules
Among-tail _ x rules here = inl refl
Among-tail q x rules (there m) = inr m

Among-insert_rule :
    (q r : Rule) (rules : List Rule) → Among q (insert_rule r rules) → (r ≡ q) ⊎ Among q rules
unfolding insert_rule
Among-insert_rule q r [] m = Among-tail q r [] m
Among-insert_rule q r (x ∷ rules) m =
    elim (Among-if q (ltb_ℤ r.threshold x.threshold) (x ∷ insert_rule r rules) (r ∷ x ∷ rules) m) [
      | inl front ↦ elim (Among-tail q x (insert_rule r rules) front) [
        | inl e ↦ inr (subst (λ (y : Rule). Among y (x ∷ rules)) e here)
        | inr behind ↦ elim (Among-insert_rule q r rules behind) [
          | inl e ↦ inl e
          | inr old ↦ inr (there old)
        ]
      ]
      | inr back ↦ Among-tail q r (x ∷ rules) back
    ]

inserted-Among : (r : Rule) (rules : List Rule) → Among r (insert_rule r rules)
unfolding insert_rule
inserted-Among r [] = here
inserted-Among r (x ∷ rules) =
    in_if r (ltb_ℤ r.threshold x.threshold) _ _ (there (inserted-Among r rules)) here

kept-Among : (q r : Rule) (rules : List Rule) → Among q rules → Among q (insert_rule r rules)
unfolding insert_rule
kept-Among q r [] m = elim m [ ]
kept-Among _ r (x ∷ rules) here = in_if x (ltb_ℤ r.threshold x.threshold) _ _ here (there here)
kept-Among q r (x ∷ rules) (there m) =
    in_if q (ltb_ℤ r.threshold x.threshold) _ _ (there (kept-Among q r rules m)) (there (there m))

insert_rule-Falling : (r : Rule) (rules : List Rule) → Falling rules → Falling (insert_rule r rules)
unfolding insert_rule
insert_rule-Falling r [] f = falling_cons (λ q m. elim m [ ]) falling_nil
insert_rule-Falling r (x ∷ rules) (falling_cons most f) =
    elim (Bool-cases (ltb_ℤ r.threshold x.threshold)) [
      | inl less ↦
          let low : r.threshold ≤ℤ x.threshold = ground (arith, less) in
          rw (insert_rule, less)
            (falling_cons {r = x} {rs = insert_rule r rules}
              (λ q m. elim (Among-insert_rule q r rules m) [
                | inl e ↦ subst (λ (y : Rule). y.threshold ≤ℤ x.threshold) e low
                | inr old ↦ most q old
              ])
              (insert_rule-Falling r rules f))
      | inr more ↦
          let high : x.threshold ≤ℤ r.threshold = ground (arith, more) in
          rw (insert_rule, more)
            (falling_cons {r = r} {rs = x ∷ rules}
              (λ q m. elim (Among-tail q x rules m) [
                | inl e ↦ subst (λ (y : Rule). y.threshold ≤ℤ r.threshold) e high
                | inr old ↦ omega (arith, high, most q old)
              ])
              (falling_cons most f))
    ]

insertion_sort-Falling : (rules : List Rule) → Falling (insertion_sort rules)
unfolding insertion_sort
insertion_sort-Falling [] = falling_nil
insertion_sort-Falling (r ∷ rules) = insert_rule-Falling r _ (insertion_sort-Falling rules)

from_insertion_sort :
    (q : Rule) (rules : List Rule) → Among q (insertion_sort rules) → Among q rules
unfolding insertion_sort
from_insertion_sort q [] m = m
from_insertion_sort q (r ∷ rules) m = elim (Among-insert_rule q r (insertion_sort rules) m) [
  | inl e ↦ subst (λ (y : Rule). Among y (r ∷ rules)) e here
  | inr old ↦ there (from_insertion_sort q rules old)
]

into_insertion_sort :
    (q : Rule) (rules : List Rule) → Among q rules → Among q (insertion_sort rules)
unfolding insertion_sort
into_insertion_sort q [] m = elim m [ ]
into_insertion_sort _ (r ∷ rules) here = inserted-Among r (insertion_sort rules)
into_insertion_sort q (r ∷ rules) (there m) =
    kept-Among q r (insertion_sort rules) (into_insertion_sort q rules m)

insertion_sort-Sorts : Sorts insertion_sort
insertion_sort-Sorts rules = (
  insertion_sort-Falling rules,
  λ q. (λ m. from_insertion_sort q rules m, λ m. into_insertion_sort q rules m),
)

abbrev minus : Rule
minus = record { threshold = pos 13; typ = b'-'; val = pos 4 }

abbrev equal : Rule
equal = record { threshold = pos 5; typ = b'='; val = pos 3 }

two_rules : parse_ttl_rules insertion_sort (codes "5=3;13-4") ≡ parsed (minus ∷ equal ∷ [])
unfolding program insertion_sort
two_rules = refl

parse_ttl_rules-Outcome_example : Outcome (parse_ttl_rules insertion_sort (codes "5=3;13-4"))
parse_ttl_rules-Outcome_example =
    parse_ttl_rules-Outcome insertion_sort (codes "5=3;13-4") insertion_sort-Sorts

none_above : (q : Rule) → Among q [] → q.threshold ≤ℤ pos 5
none_above q m = elim m [ ]

one_below : (q : Rule) → Among q (equal ∷ []) → q.threshold ≤ℤ pos 13
one_below _ here = omega arith
one_below q (there m) = elim m [ ]

calc_ttl-best_example :
    (r : Rule) × Among r (minus ∷ equal ∷ [])
    × (r.threshold ≤ℤ pos 20)
    × (pos 5 ≤ℤ r.threshold)
    × (calc_ttl (minus ∷ equal ∷ []) (pos 20) ≡ some (apply_rule r (pos 20)))
calc_ttl-best_example =
    calc_ttl-best (minus ∷ equal ∷ []) (pos 20) equal
      (falling_cons one_below (falling_cons none_above falling_nil)) (there here) (omega arith)
