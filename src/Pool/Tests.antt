-- ===== src/Pool/Tests.antt =====
-- The theorems on internal/ip_pool.go for a pool of three addresses, of which the best two are
-- used, and two of which answer.
use bill_vpn.Common.{
  ℕ, zero, suc, ◌≡◌, refl, true, none, some, Option, List, [], ◌∷◌, codes, pos, arith, Returns,
}
use bill_vpn.Pool.{
  IpResult, IpPool, tally, test_ip, less, insert_result, sort_results, clamp, write_indexes,
  write_weights, written, update_best, collect, scan, get,
}
use mathlib.Core.List.{flatten}
use bill_vpn.Pattern.{
  expand_pattern, expand, split_open, split_close, split_by_pipe, split_loop, combine,
}
use bill_vpn.Pool.Parse.{
  Net, Source, PoolFields, unmarshal_pool, parse_ip_list, parse_sources, add_all, add_one,
  configure, choose_top, choose_attempts, choose_concurrency, choose_duration, zeros,
}
use bill_vpn.Pool.Parse.Fresh.{Unless, Accepted, unmarshal_pool-Accepted}
use bill_vpn.Pool.Life.{parsed, scanned, Listed, get-Listed}
use bill_vpn.Pool.Valid.{IsValid}
use bill_vpn.Pool.Picks.{get_share}

abbrev fresh : IpPool
fresh = record {
  ips = codes "1" ∷ codes "2" ∷ codes "3" ∷ [];
  best_indexes = 0 ∷ 0 ∷ [];
  best_weights = 0 ∷ 0 ∷ [];
  total_weight = 0;
  cur_valid_ips = 0;
  counter = 4;
}

abbrev dials : ℕ → List (Option ℕ)
dials zero = none ∷ none ∷ []
dials (suc zero) = some 20 ∷ none ∷ []
dials (suc (suc n)) = some 10 ∷ some 30 ∷ []

abbrev weight : IpResult → ℕ
weight r = r.latency

abbrev order : List ℕ
order = 1 ∷ 0 ∷ 2 ∷ []

abbrev scanned_pool : IpPool
scanned_pool = record fresh {
  best_indexes = 2 ∷ 1 ∷ [];
  best_weights = 20 ∷ 20 ∷ [];
  total_weight = 40;
  cur_valid_ips = 2;
}

scan_run : scan weight dials order fresh ≡ scanned_pool
unfolding scan collect test_ip tally update_best sort_results insert_result less write_indexes
    write_weights written clamp
scan_run = refl

fresh-IsValid : IsValid fresh
fresh-IsValid = record {
  small = omega arith;
  same_size = refl;
  few = omega arith;
  inside = tt;
  weighted = tt;
  total = refl;
}

scanned_pool-IsValid : IsValid scanned_pool
scanned_pool-IsValid = record {
  small = omega arith;
  same_size = refl;
  few = omega arith;
  inside = (omega arith, (omega arith, tt));
  weighted = ((omega arith, omega arith), ((omega arith, omega arith), tt));
  total = refl;
}

get_share_example :
    get (record scanned_pool { counter = 30 })
    ≡ some (record scanned_pool { counter = 31 }, codes "2")
get_share_example =
    get_share (record scanned_pool { counter = 30 }) 1 1 20 (codes "2")
      (record {
        small = omega arith;
        same_size = refl;
        few = omega arith;
        inside = (omega arith, (omega arith, tt));
        weighted = ((omega arith, omega arith), ((omega arith, omega arith), tt));
        total = refl;
      })
      (λ e. ground (arith, e)) refl refl refl (omega arith) (omega arith)

abbrev net : Net
net = record {
  is_addr = λ s. true;
  parse_prefix = λ s. none;
  lookup_ip = λ s. none;
  parse_duration = λ s. none;
}

abbrev source : Source
source = record {
  ips = codes "(1|2)" ∷ codes "3" ∷ [];
  port = pos 443;
  top_ip_count = pos 2;
  max_concurrency = pos 0;
  timeout = [];
  update_interval = [];
  attempts = pos 0;
}

abbrev config : PoolFields
config = record {
  pool = record fresh { counter = 0 };
  port = 443;
  top_ip_count = 2;
  attempts = 4;
  timeout = pos 1000000000;
  update_interval = pos 1800000000000;
  concurrency = pos 100;
}

unmarshal_run : unmarshal_pool net source ≡ some (some config)
unfolding unmarshal_pool parse_ip_list parse_sources add_all add_one expand_pattern expand
    split_open split_close split_by_pipe split_loop combine flatten configure choose_top
    choose_attempts choose_concurrency choose_duration zeros
unmarshal_run = refl

unmarshal_pool-Accepted_example : Returns (Unless Accepted) (unmarshal_pool net source)
unmarshal_pool-Accepted_example = unmarshal_pool-Accepted net source

get-Listed_example :
    Returns
      (Listed config.pool (scan weight dials order config.pool))
      (get (scan weight dials order config.pool))
get-Listed_example =
    get-Listed net source config (scan weight dials order config.pool) unmarshal_run
      (scanned weight dials order parsed (omega arith, (omega arith, (omega arith, tt))))
