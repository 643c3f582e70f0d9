-- ===== src/Settings/Stale.antt =====
-- What `LoadConfig` of internal/config.go leaves of an earlier configuration.
use bill_vpn.Common.{
  ℕ, ◌≡◌, refl, Bool, true, false, Option, List, [], Bytes, codes, if◌then◌else◌, ℤ, pos,
  Option-cases, inl, inr,
}
use bill_vpn.Pool.{IpPool}
use bill_vpn.Route.{is_empty}
use bill_vpn.TtlRules.{Rule}
use bill_vpn.Tunnel.Dispatch.{has_prefix}
use bill_vpn.Doh.Target.{doh_target}
use bill_vpn.Settings.{
  Config, Globals, Outside, ◌then_stage◌, set_log_level, set_pools, set_singleflights,
  set_dns_cache, set_ttl_cache, set_ttl_rules, set_matchers, direct_doh, set_upstream, load_config,
}

-- The variables that a configuration sets only if it has a value for them.
pub record Carried : Type 0 where
  pub log_level : Bytes
  pub ip_pools : List (Bytes × IpPool)
  pub dns_singleflight : Bool
  pub ttl_singleflight : Bool
  pub dns_cache : Option ℕ
  pub ip_domain_cache : Option ℕ
  pub dns_cache_ttl : ℤ
  pub ttl_cache : Option ℕ
  pub ttl_cache_ttl : ℤ
  pub ttl_rules : Option (List Rule)
  pub sem : Option ℕ

abbrev pub carried : Globals → Carried
carried g = record {
  log_level = g.log_level;
  ip_pools = g.ip_pools;
  dns_singleflight = g.dns_singleflight;
  ttl_singleflight = g.ttl_singleflight;
  dns_cache = g.dns_cache;
  ip_domain_cache = g.ip_domain_cache;
  dns_cache_ttl = g.dns_cache_ttl;
  ttl_cache = g.ttl_cache;
  ttl_cache_ttl = g.ttl_cache_ttl;
  ttl_rules = g.ttl_rules;
  sem = g.sem;
}

-- A configuration without a log level, pools, single flights, caches and TTL rules.
abbrev pub bare : Config → Config
bare c = record c {
  log_level = [];
  ip_pools = [];
  dns_singleflight = false;
  ttl_singleflight = false;
  dns_cache_ttl = pos 0;
  ttl_cache_ttl = pos 0;
  fake_ttl_rules = [];
}

data Carries (k : Carried) : Globals × Bool → Type 0 where
  carries : {g : Globals} {b : Bool} → carried g ≡ k → Carries k (g, b)

Carries-fst : {k : Carried} {r : Globals × Bool} → Carries k r → carried r.0 ≡ k
Carries-fst (carries e) = e

Carries-then :
    (k : Carried) (r : Globals × Bool) (f : Globals → Globals × Bool)
    → Carries k r
    → ((g : Globals) → carried g ≡ k → Carries k (f g))
    → Carries k (r then_stage f)
unfolding ◌then_stage◌
Carries-then k (g, true) f (carries e) h = h g e
Carries-then k (g, false) f (carries e) h = carries e

Carries-if :
    {k : Carried} (b : Bool) {x y : Globals × Bool}
    → Carries k x
    → Carries k y
    → Carries k (if b then x else y)
Carries-if true h j = h
Carries-if false h j = j

set_matchers-Carries :
    (o : Outside) (c : Config) (k : Carried) (g : Globals)
    → carried g ≡ k
    → Carries k (set_matchers o c g)
unfolding set_matchers
set_matchers-Carries o c k g e = Carries-if o.loads_gfw_list (carries e) (carries e)

direct_doh-Carries :
    (o : Outside) (k : Carried) (g : Globals) → carried g ≡ k → Carries k (direct_doh o g)
unfolding direct_doh
direct_doh-Carries o k g e = elim (Option-cases (o.parse_url g.dns_addr)) [
  | inl f ↦ rw (direct_doh, f) (carries e)
  | inr ((host, port), f) ↦ elim (Option-cases (doh_target (o.env_of g) host)) [
    | inl h ↦ rw (direct_doh, f, h) (carries e)
    | inr (t, h) ↦ rw (direct_doh, f, h) (carries e)
  ]
]

set_upstream-Carries :
    (o : Outside) (c : Config) (k : Carried) (g : Globals)
    → carried g ≡ k
    → Carries k (set_upstream o c g)
unfolding set_upstream
set_upstream-Carries o c k g e =
    Carries-if (has_prefix c.dns_addr (codes "https://"))
      (Carries-if (is_empty c.doh_proxy)
        (direct_doh-Carries o k (record g { dns_addr = c.dns_addr }) e)
        (Carries-if (o.new_socks5 c.doh_proxy) (carries e) (carries e)))
      (carries e)

-- A configuration that leaves out the log level, the pools, the single flights, the caches and the
-- TTL rules keeps all of them as an earlier one has set them, whether it is accepted or not.
pub load_config-carried :
    (o : Outside) (c : Config) (g : Globals) → carried (load_config o (bare c) g).0 ≡ carried g
unfolding load_config set_log_level set_pools set_singleflights set_dns_cache set_ttl_cache
    set_ttl_rules ◌then_stage◌
load_config-carried o c g = Carries-fst (
    Carries-then (carried g) _ (set_upstream o (bare c))
      (set_matchers-Carries o (bare c) (carried g) (record g { default_policy = c.default_policy })
        refl)
      (set_upstream-Carries o (bare c) (carried g)))
