-- ===== src/Settings/Matchers.antt =====
-- The entries that `buildDomainMatcher` and `buildIPMatchers` of internal/config.go put into the
-- matchers of the package addrtrie, in the order of the policies; `none` if the fuel of a pattern
-- runs out.
use bill_vpn.Common.{Option, some, List, [], ◌∷◌, ◌++◌, map, Bytes, if◌then◌else◌, ◌==◌, ◌>>=◌}
use bill_vpn.Policy.{Policy}
use bill_vpn.Pattern.{expand_pattern}
use bill_vpn.Route.{is_ipv6}

-- `strings.SplitSeq(patterns, ";")`, with the part read so far.
unfoldable pub split_loop : Bytes → Bytes → List Bytes
split_loop curr [] = curr ∷ []
split_loop curr (c ∷ s) =
    let next = split_loop (if c == b';' then [] else curr ++ (c ∷ [])) s in
    if c == b';' then curr ∷ next else next

-- The patterns of one policy.
unfoldable pub expand_all : List Bytes → Option (List Bytes)
expand_all [] = some []
expand_all (e ∷ es) = expand_pattern e >>= (λ ps. expand_all es >>= (λ qs. some (ps ++ qs)))

-- `buildDomainMatcher`
unfoldable pub domain_entries : List (Bytes × Policy) → Option (List (Bytes × Policy))
unfolding split_loop expand_all
domain_entries [] = some []
domain_entries ((patterns, policy) ∷ policies) =
    expand_all (split_loop [] patterns)
    >>= (λ ps. domain_entries policies >>= (λ es. some (map (λ p. (p, policy)) ps ++ es)))

-- The branch of `buildIPMatchers`: the entries for IPv4, and those for IPv6.
unfoldable pub by_family : List (Bytes × Policy) → List (Bytes × Policy) × List (Bytes × Policy)
by_family [] = ([], [])
by_family ((ip, policy) ∷ es) =
    let r = by_family es in
    if is_ipv6 ip then (r.0, (ip, policy) ∷ r.1) else ((ip, policy) ∷ r.0, r.1)

-- `buildIPMatchers`
unfoldable pub ip_entries :
    List (Bytes × Policy) → Option (List (Bytes × Policy) × List (Bytes × Policy))
unfolding domain_entries by_family
ip_entries policies = domain_entries policies >>= (λ es. some (by_family es))
