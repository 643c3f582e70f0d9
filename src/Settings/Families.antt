-- ===== src/Settings/Families.antt =====
-- The address matchers that internal/config.go builds.
use bill_vpn.Common.{
  ◌≡◌, refl, ap, Bool, true, false, some, List, [], ◌∷◌, Bytes, if◌then◌else◌, Returns, returns,
  Returns-bind, Returns-value, Bool-cases, inl, inr,
}
use bill_vpn.Policy.{Policy}
use bill_vpn.Pattern.Ends.{expand_pattern-Returns}
use bill_vpn.Route.{is_ipv6}
use bill_vpn.Settings.Matchers.{split_loop, expand_all, domain_entries, by_family, ip_entries}

expand_all-Returns : (es : List Bytes) → Returns (λ _. Unit {0}) (expand_all es)
unfolding expand_all
expand_all-Returns [] = returns tt
expand_all-Returns (e ∷ es) =
    Returns-bind (expand_pattern-Returns e)
      (λ ps _. Returns-bind (expand_all-Returns es) (λ qs _. returns tt))

domain_entries-Returns :
    (policies : List (Bytes × Policy)) → Returns (λ _. Unit {0}) (domain_entries policies)
unfolding domain_entries
domain_entries-Returns [] = returns tt
domain_entries-Returns ((patterns, policy) ∷ policies) =
    Returns-bind (expand_all-Returns (split_loop [] patterns))
      (λ ps _. Returns-bind (domain_entries-Returns policies) (λ es _. returns tt))

-- The entries of one family, in order.
pub entries_of : Bool → List (Bytes × Policy) → List (Bytes × Policy)
entries_of v6 [] = []
entries_of true (e ∷ es) = if is_ipv6 e.0 then e ∷ entries_of true es else entries_of true es
entries_of false (e ∷ es) = if is_ipv6 e.0 then entries_of false es else e ∷ entries_of false es

by_family-entries_of :
    (es : List (Bytes × Policy)) → by_family es ≡ (entries_of false es, entries_of true es)
unfolding by_family entries_of
by_family-entries_of [] = refl
by_family-entries_of (e ∷ es) = elim (Bool-cases (is_ipv6 e.0)) [
  | inl h ↦ rw (by_family, entries_of, h, by_family-entries_of es) refl
  | inr h ↦ rw (by_family, entries_of, h, by_family-entries_of es) refl
]

-- `buildIPMatchers` ends on every configuration, and gives each matcher exactly the entries of its
-- family, in their order.
pub ip_entries-by_family :
    (policies : List (Bytes × Policy))
    → (es : List (Bytes × Policy)) × (domain_entries policies ≡ some es)
      × (ip_entries policies ≡ some (entries_of false es, entries_of true es))
unfolding ip_entries
ip_entries-by_family policies =
    let (es, e, _) = Returns-value (domain_entries-Returns policies) in
    (es, e, rw e (ap some (by_family-entries_of es)))
