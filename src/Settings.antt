-- ===== src/Settings.antt =====
-- The configuration: `LoadConfig` of internal/config.go behind the decoder of JSON, which fills the
-- global variables of the package. They are a record, and a stage that fails keeps what it and the
-- stages before it have set. In Settings/Matchers the entries of the address matchers.
pub mod Matchers
pub mod Stale
pub mod Families
pub mod Tests
use bill_vpn.Common.{
  ℕ, ◌*◌, ◌%◌, ◌-◌, Bool, true, false, not, ◌||◌, Option, none, some, List, [], ◌∷◌, ◌++◌, map,
  Bytes, Bytes-discrete, codes, if◌then◌else◌, ite, ltb, ℤ, pos, negsuc, pos_part, ltb_ℤ, eqb_ℤ,
}
use bill_vpn.Policy.{Policy}
use bill_vpn.Pool.{IpPool}
use bill_vpn.Route.{Env, is_empty}
use bill_vpn.TtlRules.{Rule, Parse, parsed, parse_ttl_rules}
use bill_vpn.Tunnel.Dispatch.{has_prefix}
use bill_vpn.Doh.Target.{Target, doh_target, doh_port}

-- `Config`
pub record Config : Type 0 where
  pub log_level : Bytes
  pub transmit_file_limit : ℤ
  pub socks5_addr : Bytes
  pub http_addr : Bytes
  pub dns_addr : Bytes
  pub udp_size : ℕ
  pub doh_proxy : Bytes
  pub fake_ttl_rules : Bytes
  pub dns_singleflight : Bool
  pub dns_cache_ttl : ℤ
  pub dns_cache_capacity : ℤ
  pub ttl_singleflight : Bool
  pub ttl_cache_ttl : ℤ
  pub ttl_cache_capacity : ℤ
  pub ip_pools : List (Bytes × IpPool)
  pub default_policy : Policy
  pub domain_policies : List (Bytes × Policy)
  pub ip_policies : List (Bytes × Policy)

-- How DNS messages are exchanged: over HTTPS to a host and port by a policy, or through a SOCKS5
-- proxy; or by `dns.Client` with a UDP size, if it is set.
pub data Upstream : Type 0 where
  no_upstream : Upstream
  doh_direct : Bytes → Bytes → Policy → Upstream
  doh_socks : Bytes → Upstream
  do53 : Option ℕ → Upstream

-- A cache is its capacity, and the lifetime of its entries is in nanoseconds.
pub record Globals : Type 0 where
  pub log_level : Bytes
  pub default_policy : Policy
  pub ip_pools : List (Bytes × IpPool)
  pub dns_singleflight : Bool
  pub ttl_singleflight : Bool
  pub dns_cache : Option ℕ
  pub ip_domain_cache : Option ℕ
  pub dns_cache_ttl : ℤ
  pub ttl_cache : Option ℕ
  pub ttl_cache_ttl : ℤ
  pub ttl_rules : Option (List Rule)
  pub sem : Option ℕ
  pub domain_policies : List (Bytes × Policy)
  pub ip_policies : List (Bytes × Policy)
  pub gfw_loaded : Bool
  pub dns_addr : Bytes
  pub upstream : Upstream

-- `strings.ToUpper`, `IPPool.Init` for a tag, `freelru.NewSharded`, `sort.Slice`, whether this is
-- Windows, `loadBuiltinGFWList`, the environment of decisions for the variables, `url.Parse` with
-- the host and the port, `strconv.FormatInt`, and `proxy.SOCKS5`.
pub record Outside : Type 0 where
  pub to_upper : Bytes → Bytes
  pub inits : Bytes × IpPool → Bool
  pub new_sharded : ℕ → Bool
  pub sort : List Rule → List Rule
  pub windows : Bool
  pub loads_gfw_list : Bool
  pub env_of : Globals → Env
  pub parse_url : Bytes → Option (Bytes × Bytes)
  pub format_int : ℤ → Bytes
  pub new_socks5 : Bytes → Bool

-- What follows a stage that has not failed.
infixl 5 ◌then_stage◌
unfoldable pub ◌then_stage◌ : Globals × Bool → (Globals → Globals × Bool) → Globals × Bool
(g, false) then_stage f = (g, false)
(g, true) then_stage f = f g

abbrev pub is_level : Bytes → Bool
is_level s =
    ite (Bytes-discrete s (codes "DEBUG")) true (
      ite (Bytes-discrete s (codes "INFO")) true
        (ite (Bytes-discrete s (codes "ERROR")) true false))

unfoldable pub set_log_level : Outside → Config → Globals → Globals × Bool
set_log_level o c g =
    if is_empty c.log_level
    then (g, true)
    else if is_level (o.to_upper c.log_level)
    then (record g { log_level = o.to_upper c.log_level }, true)
    else (g, false)

abbrev pub all_of {ℓ} : {A : Type ℓ} → (A → Bool) → List A → Bool
all_of p [] = true
all_of p (x ∷ xs) = if p x then all_of p xs else false

-- The pools are tested in an order of the map's.
unfoldable pub set_pools : Outside → Config → Globals → Globals × Bool
set_pools o c g = elim c.ip_pools [
  | [] ↦ (record g { default_policy = c.default_policy }, true)
  | pool ∷ pools ↦ (
    record g { default_policy = c.default_policy; ip_pools = pool ∷ pools },
    all_of o.inits (pool ∷ pools),
  )
]

unfoldable pub set_singleflights : Config → Globals → Globals × Bool
set_singleflights c g = (
  record g {
    dns_singleflight = c.dns_singleflight || g.dns_singleflight;
    ttl_singleflight = c.ttl_singleflight || g.ttl_singleflight;
  },
  true,
)

-- `time.Duration(n) * time.Second`, which wraps round at 64 bits.
pub seconds : ℕ → ℤ
seconds n =
    let ns = (n * 1000000000) % 18446744073709551616 in
    if ltb ns 9223372036854775808 then pos ns else negsuc (18446744073709551616 - ns - 1)

-- `uint32(n)`
abbrev pub uint32 : ℤ → ℕ
uint32 n = pos_part n % 4294967296

unfoldable pub set_dns_cache : Outside → Config → Globals → Globals × Bool
set_dns_cache o c g =
    if ltb_ℤ c.dns_cache_ttl (pos 0)
    then (g, false)
    else if eqb_ℤ c.dns_cache_ttl (pos 0)
    then (g, true)
    else if ltb_ℤ c.dns_cache_capacity (pos 1)
    then (g, false)
    else if not (o.new_sharded (uint32 c.dns_cache_capacity))
    then (record g { dns_cache = none }, false)
    else (
      record g {
        dns_cache = some (uint32 c.dns_cache_capacity);
        ip_domain_cache = some (uint32 c.dns_cache_capacity);
        dns_cache_ttl = seconds (pos_part c.dns_cache_ttl);
      },
      true,
    )

unfoldable pub set_ttl_cache : Outside → Config → Globals → Globals × Bool
set_ttl_cache o c g =
    if ltb_ℤ c.ttl_cache_ttl (pos 0)
    then (g, false)
    else if eqb_ℤ c.ttl_cache_ttl (pos 0)
    then (g, true)
    else if ltb_ℤ c.ttl_cache_capacity (pos 1)
    then (g, false)
    else if not (o.new_sharded (uint32 c.ttl_cache_capacity))
    then (record g { ttl_cache = none }, false)
    else (
      record g {
        ttl_cache = some (uint32 c.ttl_cache_capacity);
        ttl_cache_ttl = seconds (pos_part c.ttl_cache_ttl);
      },
      true,
    )

-- `loadTTLRules`, and the semaphore on Windows.
unfoldable pub set_ttl_rules : Outside → Config → Globals → Globals × Bool
set_ttl_rules o c g =
    let with_sem : Option ℕ =
      if o.windows
      then if ltb_ℤ (pos 0) c.transmit_file_limit
        then some (pos_part c.transmit_file_limit)
        else g.sem
      else g.sem in
    if is_empty c.fake_ttl_rules
    then (g, true)
    else elim (parse_ttl_rules o.sort c.fake_ttl_rules) [
      | parsed rules ↦ (record g { ttl_rules = some rules; sem = with_sem }, true)
      | _ ↦ (g, false)
    ]

unfoldable pub set_matchers : Outside → Config → Globals → Globals × Bool
set_matchers o c g =
    let matched = record g { domain_policies = c.domain_policies } in
    if o.loads_gfw_list
    then (record matched { gfw_loaded = true; ip_policies = c.ip_policies }, true)
    else (matched, false)

unfoldable pub direct_doh : Outside → Globals → Globals × Bool
direct_doh o g = elim (o.parse_url g.dns_addr) [
  | none ↦ (g, false)
  | some (host, port) ↦ elim (doh_target (o.env_of g) host) [
    | none ↦ (g, false)
    | some t ↦ (
      record g { upstream = doh_direct t.host (doh_port o.format_int t.policy port) t.policy },
      true,
    )
  ]
]

unfoldable pub set_upstream : Outside → Config → Globals → Globals × Bool
unfolding direct_doh
set_upstream o c g =
    let addressed = record g { dns_addr = c.dns_addr } in
    if has_prefix c.dns_addr (codes "https://")
    then if is_empty c.doh_proxy
      then direct_doh o addressed
      else if o.new_socks5 c.doh_proxy
      then (record addressed { upstream = doh_socks c.doh_proxy }, true)
      else (addressed, false)
    else (
      record addressed { upstream = do53 (if ltb 0 c.udp_size then some c.udp_size else none) },
      true,
    )

-- `LoadConfig`, with the addresses that it returns, or `none` for an error.
unfoldable pub load_config : Outside → Config → Globals → Globals × Option (Bytes × Bytes)
unfolding ◌then_stage◌ set_log_level set_pools set_singleflights set_dns_cache set_ttl_cache
    set_ttl_rules set_matchers set_upstream
load_config o c g =
    let r =
      set_log_level o c g
      then_stage set_pools o c
      then_stage set_singleflights c
      then_stage set_dns_cache o c
      then_stage set_ttl_cache o c
      then_stage set_ttl_rules o c
      then_stage set_matchers o c
      then_stage set_upstream o c in
    (r.0, if r.1 then some (c.socks5_addr, c.http_addr) else none)
