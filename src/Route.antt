-- ===== src/Route.antt =====
-- How a host gets its policy and its target: internal/policy.go (from `classifyDomainRoute` to
-- `genPolicyWithOptions`), `ipRedirect` and `getIPPolicy`, `isGFWDomain`, and `PlanRequest` of
-- internal/dial_plan.go. Logging is left out, but for the one place where it decides the result.
pub mod Plan
pub mod Decide
pub mod Tests
use bill_vpn.Common.{
  ◌≡◌, ◌≢◌, refl, ℕ, Bool, true, false, not, ◌&&◌, ◌||◌, Option, none, some, List, [], ◌∷◌, Bytes,
  Bytes-discrete, codes, if◌then◌else◌, ◌==◌, ite, ◌>>=◌, ℤ, pos,
}
use bill_vpn.FakeIp.{to_lower}
use bill_vpn.Policy.{
  Policy, DnsMode, is_block, merge_policies, plain_fallback_policy, gfw_fallback_policy,
  zero_policy,
}

-- What a decision reads: the matchers of the package addrtrie (`none` for a nil matcher), the
-- functions of the package net, and what the resolver, the recorded DNS answers and the IP pools
-- answer at that time (`none` for an error or a miss).
pub record Env : Type 0 where
  pub is_ip : Bytes → Bool
  pub domain_matcher : Option (Bytes → Option Policy)
  pub gfw_matcher : Option (Bytes → Bool)
  pub gfw_bypass : Option (Bytes → Bool)
  pub ipv4_matcher : Bytes → Option Policy
  pub ipv6_matcher : Bytes → Option Policy
  pub default_policy : Policy
  pub transform_ip : Bytes → Bytes → Option Bytes
  pub pool : Bytes → Option Bytes
  pub bootstrap : Bytes → Option Bytes
  pub recorded : Bytes → DnsMode → Option Bytes
  pub resolve : Bytes → DnsMode → Option Bytes
  pub recover_domain : Bytes → Bytes

abbrev pub is_empty : Bytes → Bool
is_empty [] = true
is_empty (c ∷ s) = false

pub is_empty-false : (d : Bytes) → d ≢ [] → is_empty d ≡ false
is_empty-false [] h = absurd (h refl)
is_empty-false (c ∷ d) h = refl

pub data RouteClass : Type 0 where
  route_plain route_rule route_gfw : RouteClass

abbrev pub is_some {ℓ} : {A : Type ℓ} → Option A → Bool
is_some none = false
is_some (some a) = true

-- `strings.Contains` with a text of one byte.
unfoldable pub has_byte : ℕ → Bytes → Bool
has_byte c [] = false
has_byte c (d ∷ s) = (c == d) || has_byte c s

-- `isIPv6`
pub is_ipv6 : Bytes → Bool
unfolding has_byte
is_ipv6 ip = has_byte b':' ip

pub get_ip_policy : Env → Bytes → Option Policy
unfolding is_ipv6
get_ip_policy env ip = if is_ipv6 ip then env.ipv6_matcher ip else env.ipv4_matcher ip

unfoldable pub is_gfw_domain : Env → Bytes → Bool
is_gfw_domain env domain = if is_empty domain then false else elim env.gfw_matcher [
  | none ↦ false
  | some matched ↦ elim env.gfw_bypass [
    | none ↦ matched (to_lower domain)
    | some bypass ↦ if bypass (to_lower domain) then false else matched (to_lower domain)
  ]
]

-- `domainMatcher.Find`
unfoldable pub find_rule : Env → Bytes → Option Policy
find_rule env domain = elim env.domain_matcher [ none ↦ none | some matcher ↦ matcher domain ]

unfoldable pub classify_domain_route : Env → Bytes → RouteClass
unfolding find_rule is_gfw_domain
classify_domain_route env host =
    let domain = to_lower host in
    if is_empty domain
    then route_plain
    else if is_some (find_rule env domain)
    then route_rule
    else if is_gfw_domain env domain
    then route_gfw
    else route_plain

pub should_use_fake_ip : Env → Bytes → Bool
unfolding classify_domain_route
should_use_fake_ip env domain = elim (classify_domain_route env domain) [
  | route_rule ↦ true
  | route_gfw ↦ true
  | route_plain ↦ false
]

-- The address that `MapTo` names.
pub map_target : Env → Bytes → Bytes → Option Bytes
unfolding has_byte
map_target env ip [] = some ip
map_target env ip (c ∷ map_to) =
    if c == b'$'
    then env.pool map_to
    else if has_byte b'/' (c ∷ map_to)
    then env.transform_ip ip (c ∷ map_to)
    else if env.is_ip (c ∷ map_to)
    then some (c ∷ map_to)
    else env.bootstrap (c ∷ map_to)

-- `ipRedirect`; `logged` says whether it is given a logger.
pub ip_redirect : Env → Bool → Bytes → Option (Bytes × Option Policy)
unfolding get_ip_policy map_target
ip_redirect env logged ip = elim (get_ip_policy env ip) [
  | none ↦ some (ip, none)
  | some policy ↦ elim policy.map_to [
    | none ↦ some (ip, some policy)
    | some map_to ↦
        if is_empty map_to
        then some (ip, some policy)
        else map_target env ip map_to >>= (λ target.
          if logged && ite (Bytes-discrete ip target) false true
          then some (target, some policy)
          else some (target, get_ip_policy env target))
  ]
]

-- The results of `genPolicyWithOptions`.
pub record Decision : Type 0 where
  pub dst_host : Bytes
  pub policy : Policy
  pub failed : Bool
  pub blocked : Bool
  pub matched_domain : Bool
  pub matched_ip : Bool

abbrev pub fails : Bool → Bool → Decision
fails d i = record {
  dst_host = [];
  policy = zero_policy;
  failed = true;
  blocked = false;
  matched_domain = d;
  matched_ip = i;
}

abbrev pub blocks : Bool → Bool → Decision
blocks d i = record (fails d i) { failed = false; blocked = true }

abbrev pub decides : Bytes → Policy → Bool → Bool → Decision
decides dst p d i = record {
  dst_host = dst;
  policy = p;
  failed = false;
  blocked = false;
  matched_domain = d;
  matched_ip = i;
}

-- The host that `Policy.Host` selects, and `skipIPRedirect`.
unfoldable pub choose_host : Option Bytes → Bytes → Bytes × Bool
choose_host none origin = (origin, false)
choose_host (some []) origin = (origin, false)
choose_host (some (c ∷ host)) origin =
    ite (Bytes-discrete (c ∷ host) (codes "self")) (origin, false)
      (if c == b'^' then (if is_empty host then origin else host, true) else (c ∷ host, false))
