-- ===== src/Settings/Tests.antt =====
-- The theorem on `LoadConfig` of internal/config.go for a second configuration without a pool.
use bill_vpn.Common.{◌≡◌, true, false, none, some, [], ◌∷◌, codes, pos}
use bill_vpn.Policy.{zero_policy}
use bill_vpn.Route.Tests.{env}
use bill_vpn.Pool.{IpPool}
use bill_vpn.Settings.{Config, Globals, Outside, no_upstream, load_config}
use bill_vpn.Settings.Stale.{carried, bare, load_config-carried}

abbrev config : Config
config = record {
  log_level = codes "debug";
  transmit_file_limit = pos 0;
  socks5_addr = codes ":1080";
  http_addr = [];
  dns_addr = codes "8.8.8.8:53";
  udp_size = 4096;
  doh_proxy = [];
  fake_ttl_rules = [];
  dns_singleflight = true;
  dns_cache_ttl = pos 60;
  dns_cache_capacity = pos 100;
  ttl_singleflight = false;
  ttl_cache_ttl = pos 0;
  ttl_cache_capacity = pos 0;
  ip_pools = [];
  default_policy = zero_policy;
  domain_policies = [];
  ip_policies = [];
}

abbrev pool : IpPool
pool = record {
  ips = codes "1" ∷ [];
  best_indexes = 0 ∷ [];
  best_weights = 1 ∷ [];
  total_weight = 1;
  cur_valid_ips = 1;
  counter = 0;
}

abbrev running : Globals
running = record {
  log_level = codes "INFO";
  default_policy = zero_policy;
  ip_pools = (codes "a", pool) ∷ [];
  dns_singleflight = false;
  ttl_singleflight = false;
  dns_cache = some 100;
  ip_domain_cache = some 100;
  dns_cache_ttl = pos 60000000000;
  ttl_cache = none;
  ttl_cache_ttl = pos 0;
  ttl_rules = none;
  sem = none;
  domain_policies = [];
  ip_policies = [];
  gfw_loaded = true;
  dns_addr = [];
  upstream = no_upstream;
}

abbrev outside : Outside
outside = record {
  to_upper = λ s. s;
  inits = λ p. true;
  new_sharded = λ n. true;
  sort = λ rules. rules;
  windows = false;
  loads_gfw_list = true;
  env_of = λ g. env;
  parse_url = λ s. none;
  format_int = λ n. [];
  new_socks5 = λ s. true;
}

load_config-carried_example :
    carried (load_config outside (bare config) running).0 ≡ carried running
load_config-carried_example = load_config-carried outside config running
