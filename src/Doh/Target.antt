-- ===== src/Doh/Target.antt =====
-- The address of the DoH server: `genDialContext` of internal/config.go behind `url.Parse`, whose
-- host and port are given, with `strconv.FormatInt` as an argument. `none` is an error.
use bill_vpn.Common.{
  ◌≡◌, refl, ap, ◌∙◌, ℕ_discrete, Bool, false, not, ◌||◌, Option, none, some, List, [], ◌∷◌, Bytes,
  Bytes-discrete, codes, if◌then◌else◌, ite, ◌>>=◌, ◌==◌, ℤ,
}
use bill_vpn.Policy.{Policy, merge_policies, is_unset_int}
use bill_vpn.Route.{Env, is_empty, find_rule, ip_redirect, choose_host}

pub record Target : Type 0 where
  pub host : Bytes
  pub policy : Policy

abbrev pub to_list : Option Policy → List Policy
to_list none = []
to_list (some p) = p ∷ []

-- `mergePolicies(domainPolicy, ipPolicy, &defaultPolicy)` over those that are there; with neither
-- it is the default policy itself.
unfoldable pub policy_of : Env → Option Policy → Option Policy → Policy
policy_of env none none = env.default_policy
policy_of env (some d) none = merge_policies (d ∷ env.default_policy ∷ [])
policy_of env none (some q) = merge_policies (q ∷ env.default_policy ∷ [])
policy_of env (some d) (some q) = merge_policies (d ∷ q ∷ env.default_policy ∷ [])

-- `ipRedirect`, without a logger, and the policy that it leaves.
unfoldable pub redirect : Env → Option Policy → Bytes → Option Target
unfolding policy_of
redirect env rule host =
    ip_redirect env false host
    >>= (λ r. some (record { host = r.0; policy = policy_of env rule r.1 }))

-- `disableRedirect`
unfoldable pub keeps_host : Env → Bytes → Bool
keeps_host env [] = false
keeps_host env (c ∷ host) =
    (c == b'^') || (ite (Bytes-discrete (c ∷ host) (codes "self")) false (env.is_ip (c ∷ host)))

-- The host without the `^` in front.
unfoldable pub strip_caret : Bytes → Bytes
strip_caret [] = []
strip_caret (c ∷ host) = if c == b'^' then host else c ∷ host

-- The address of a pool, for a tag.
unfoldable pub pool_host : Env → Bytes → Option Bytes
pool_host env [] = some []
pool_host env (c ∷ tag) = if c == b'$' then env.pool tag else some (c ∷ tag)

-- `resolveBootstrapHost`, for what is not an address.
unfoldable pub resolve_host : Env → Bytes → Option Bytes
resolve_host env host = if env.is_ip host then some host else env.bootstrap host

-- The branch for a policy with a host.
unfoldable pub target_of_host : Env → Option Policy → Policy → Bytes → Option Target
unfolding keeps_host strip_caret pool_host resolve_host redirect
target_of_host env rule p text =
    if keeps_host env text
    then pool_host env (strip_caret text) >>= (λ host. some (record { host = host; policy = p }))
    else pool_host env text >>= (λ host. resolve_host env host >>= redirect env rule)

-- The branch for a name, with its rule.
unfoldable pub target_of_name : Env → Bytes → Option Policy → Policy → Option Bytes → Option Target
unfolding target_of_host
target_of_name env host rule p none = some (record { host = host; policy = p })
target_of_name env host rule p (some text) =
    if is_empty text
    then some (record { host = host; policy = p })
    else target_of_host env rule p text

-- `genDialContext`, up to the port.
unfoldable pub doh_target : Env → Bytes → Option Target
unfolding policy_of redirect target_of_name
doh_target env host =
    let rule = find_rule env host in
    let p = policy_of env rule none in
    if env.is_ip host then redirect env none host else target_of_name env host rule p p.host

-- The port that is dialled.
unfoldable pub doh_port : (ℤ → Bytes) → Policy → Bytes → Bytes
doh_port format_int p url_port =
    if not (is_unset_int p.port)
    then format_int p.port
    else if is_empty url_port
    then codes "443"
    else url_port

choose_host_self : (host : Bytes) → choose_host (some (codes "self")) host ≡ (host, false)
unfolding choose_host Bytes-discrete ℕ_discrete
choose_host_self host = refl

target_of_self :
    (env : Env) (rule : Policy) (p : Policy)
    → env.is_ip (codes "self") ≡ false
    → target_of_host env (some rule) p (codes "self")
      ≡ (env.bootstrap (codes "self") >>= redirect env (some rule))
unfolding target_of_host keeps_host pool_host resolve_host Bytes-discrete ℕ_discrete
target_of_self env rule p name = rw name refl

-- Where a name has a rule whose policy has the host `self`, which means the name itself to the
-- routing decisions, the name of the DoH server is replaced by the name `self`: there is no target
-- unless that name resolves.
pub self_is_resolved :
    (env : Env) (host : Bytes) (rule : Policy)
    → env.is_ip host ≡ false
    → env.is_ip (codes "self") ≡ false
    → find_rule env host ≡ some rule
    → (merge_policies (rule ∷ env.default_policy ∷ [])).host ≡ some (codes "self")
    → (choose_host (merge_policies (rule ∷ env.default_policy ∷ [])).host host ≡ (host, false))
      × (doh_target env host ≡ (env.bootstrap (codes "self") >>= redirect env (some rule)))
unfolding doh_target policy_of target_of_name
self_is_resolved env host rule name self_name found text =
    let p = merge_policies (rule ∷ env.default_policy ∷ []) in
    (
      ap (λ h. choose_host h host) text ∙ choose_host_self host,
      rw name (
          ap (λ r. let q = policy_of env r none in target_of_name env host r q q.host) found
          ∙ (ap (target_of_name env host (some rule) p) text
              ∙ target_of_self env rule p self_name)),
    )
