-- ===== src/TtlRules/Applied.antt =====
-- What the rules that internal/desync.go has sorted compute for a TTL.
use bill_vpn.Common.{
  ◌++◌, ◌⊎◌, ◌≡◌, refl, Bool, false, some, List, [], ◌∷◌, if◌then◌else◌, ◌==◌, ℤ, ◌-ℤ◌, ◌≤ℤ◌, ltb_ℤ,
  arith, Bool-cases, inl, inr,
}
use bill_vpn.TtlRules.{Rule, wrap_int, calc_ttl}

pub data Among (r : Rule) : List Rule → Type 0 where
  here : {rs : List Rule} → Among r (r ∷ rs)
  there : {q : Rule} {rs : List Rule} → Among r rs → Among r (q ∷ rs)

-- A rule of a list with one more at its end.
pub Among-snoc : (q r : Rule) (rs : List Rule) → Among q (rs ++ (r ∷ [])) → Among q rs ⊎ (r ≡ q)
Among-snoc q _ [] here = inr refl
Among-snoc q r [] (there m) = elim m [ ]
Among-snoc _ r (x ∷ rs) here = inl here
Among-snoc q r (x ∷ rs) (there m) = elim (Among-snoc q r rs m) [
  | inl old ↦ inl (there old)
  | inr e ↦ inr e
]

-- The rules fall in their thresholds.
pub data Falling : List Rule → Type 0 where
  falling_nil : Falling []
  falling_cons :
      {r : Rule} {rs : List Rule}
      → ((q : Rule) → Among q rs → q.threshold ≤ℤ r.threshold)
      → Falling rs
      → Falling (r ∷ rs)

-- The value that one rule computes.
pub apply_rule : Rule → ℤ → ℤ
apply_rule r ttl = if r.typ == b'-' then wrap_int (ttl -ℤ r.val) else r.val

if_neg_test {ℓ} : {A : Type ℓ} (b : Bool) (x y : A) → b ≡ false → (if b then x else y) ≡ y
if_neg_test b x y h = rw h refl

-- For rules that fall in their thresholds, and a TTL that some rule's threshold does not exceed,
-- the result is that of a rule whose threshold the TTL reaches and which is at least the
-- threshold of every other such rule `q`.
pub calc_ttl-best :
    (rules : List Rule) (ttl : ℤ) (q : Rule)
    → Falling rules
    → Among q rules
    → q.threshold ≤ℤ ttl
    → (r : Rule) × Among r rules
      × (r.threshold ≤ℤ ttl)
      × (q.threshold ≤ℤ r.threshold)
      × (calc_ttl rules ttl ≡ some (apply_rule r ttl))
unfolding calc_ttl apply_rule
calc_ttl-best [] ttl q f m low = elim m [ ]
calc_ttl-best (r ∷ rules) ttl _ f here low =
    (r, here, low, omega arith, if_neg_test (ltb_ℤ ttl r.threshold) _ _ (ground arith))
calc_ttl-best (r ∷ rules) ttl q (falling_cons most f) (there m) low =
    elim (Bool-cases (ltb_ℤ ttl r.threshold)) [
      | inl above ↦
          let (s, among, fits, most', e) = calc_ttl-best rules ttl q f m low in
          (s, there among, fits, most', rw (above, calc_ttl) e)
      | inr fits ↦ (r, here, ground arith, most q m, rw fits refl)
    ]
