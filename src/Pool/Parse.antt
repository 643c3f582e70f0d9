-- ===== src/Pool/Parse.antt =====
-- The parser of internal/ip_pool.go: `parseIPList` and `UnmarshalJSON` behind `json.Unmarshal`.
-- The packages net, net/netip and time are arguments; the addresses of a family are numbers up to
-- a last one. The inner `none` is an error, the outer one a panic or fuel that runs out.
pub mod Fresh
use bill_vpn.Common.{
  ℕ, zero, suc, ◌+◌, ◌-◌, ◌%◌, Bool, true, false, not, ◌&&◌, ◌||◌, Option, none, some, List, [],
  ◌∷◌, ◌++◌, Bytes, length, if◌then◌else◌, ltb, leb, ◌==◌, ◌>>=◌, ℤ, pos, pos_part, ltb_ℤ, eqb_ℤ,
}
use bill_vpn.Pattern.{expand_pattern}
use bill_vpn.Pool.{IpPool, is_nil}

-- `netip.Prefix`: its address, `Contains`, the last address of its family, and their texts.
pub record Prefix : Type 0 where
  pub start : ℕ
  pub contains : ℕ → Bool
  pub last : ℕ
  pub to_text : ℕ → Bytes

-- `netip.ParseAddr`, `netip.ParsePrefix`, `net.LookupIP` with the texts of its addresses, and
-- `time.ParseDuration`.
pub record Net : Type 0 where
  pub is_addr : Bytes → Bool
  pub parse_prefix : Bytes → Option Prefix
  pub lookup_ip : Bytes → Option (List Bytes)
  pub parse_duration : Bytes → Option ℤ

-- `maxIPPoolSize`
abbrev pub max_ip_pool_size : ℕ
max_ip_pool_size = 1000

-- The loop over the addresses of a prefix, with room for a number of them.
pub walk : Prefix → ℕ → ℕ → List Bytes → Option (List Bytes)
walk p zero addr ips = none
walk p (suc room) addr ips =
    let more = ips ++ (p.to_text addr ∷ []) in
    let rest = walk p room (addr + 1) more in
    if addr == p.last || not (p.contains (addr + 1)) then some more else rest

pub add_prefix : Prefix → List Bytes → Option (List Bytes)
unfolding walk
add_prefix p ips =
    if p.contains p.start then walk p (max_ip_pool_size - length ips) p.start ips else some ips

-- The loop over the addresses of a name.
pub add_addrs : List Bytes → List Bytes → Option (List Bytes)
add_addrs [] ips = some ips
add_addrs (a ∷ addrs) ips =
    let rest = add_addrs addrs (ips ++ (a ∷ [])) in
    if leb max_ip_pool_size (length ips) then none else rest

unfoldable pub add_one : Net → Bytes → List Bytes → Option (List Bytes)
unfolding add_prefix add_addrs
add_one net s ips =
    if leb max_ip_pool_size (length ips)
    then none
    else if net.is_addr s
    then some (ips ++ (s ∷ []))
    else elim (net.parse_prefix s) [
      | some p ↦ add_prefix p ips
      | none ↦ net.lookup_ip s >>= (λ addrs. add_addrs addrs ips)
    ]

unfoldable pub add_all : Net → List Bytes → List Bytes → Option (List Bytes)
unfolding add_one
add_all net [] ips = some ips
add_all net (s ∷ ss) ips = add_one net s ips >>= add_all net ss

-- The loops of `parseIPList`, with the list read so far.
unfoldable pub parse_sources : Net → List Bytes → List Bytes → Option (Option (List Bytes))
unfolding add_all
parse_sources net [] ips = some (some ips)
parse_sources net (pattern ∷ sources) ips = expand_pattern pattern >>= (λ ss.
    elim (add_all net ss ips) [ none ↦ some none | some more ↦ parse_sources net sources more ])

unfoldable pub parse_ip_list : Net → List Bytes → Option (Option (List Bytes))
unfolding parse_sources
parse_ip_list net sources = parse_sources net sources []

-- `tmp`, the fields as the JSON has them.
pub record Source : Type 0 where
  pub ips : List Bytes
  pub port : ℤ
  pub top_ip_count : ℤ
  pub max_concurrency : ℤ
  pub timeout : Bytes
  pub update_interval : Bytes
  pub attempts : ℤ

-- The fields of `IPPool` that the parser sets; times in nanoseconds, `concurrency` the capacity of
-- `sem`.
pub record PoolFields : Type 0 where
  pub pool : IpPool
  pub port : ℕ
  pub top_ip_count : ℕ
  pub attempts : ℕ
  pub timeout : ℤ
  pub update_interval : ℤ
  pub concurrency : ℤ

unfoldable pub choose_top : ℤ → ℕ → Option ℕ
choose_top top n =
    if eqb_ℤ top (pos 0)
    then some 3
    else if not (ltb_ℤ (pos 0) top) || (ltb_ℤ (pos 255) top || ltb_ℤ (pos n) top)
    then none
    else some (pos_part top % 256)

unfoldable pub choose_attempts : ℤ → Option ℕ
choose_attempts attempts =
    if eqb_ℤ attempts (pos 0)
    then some 4
    else if not (ltb_ℤ (pos 0) attempts) || ltb_ℤ (pos 255) attempts
    then none
    else some (pos_part attempts % 256)

unfoldable pub choose_concurrency : ℤ → Option ℤ
choose_concurrency c =
    if eqb_ℤ c (pos 0) then some (pos 100) else if ltb_ℤ c (pos 1) then none else some c

unfoldable pub choose_duration : Net → ℤ → Bytes → Option ℤ
choose_duration net default [] = some default
choose_duration net default (c ∷ s) =
    net.parse_duration (c ∷ s) >>= (λ d. if ltb_ℤ (pos 0) d then some d else none)

-- `make([]int, n)`
unfoldable pub zeros : ℕ → List ℕ
zeros zero = []
zeros (suc n) = 0 ∷ zeros n

abbrev pub fresh_pool : List Bytes → ℕ → IpPool
fresh_pool ips top = record {
  ips = ips;
  best_indexes = zeros top;
  best_weights = zeros top;
  total_weight = 0;
  cur_valid_ips = 0;
  counter = 0;
}

-- `UnmarshalJSON` behind `parseIPList`.
unfoldable pub configure : Net → Source → List Bytes → Option PoolFields
unfolding choose_top choose_attempts choose_concurrency choose_duration
configure net tmp ips =
    if is_nil ips
      || (ltb max_ip_pool_size (length ips) || ltb_ℤ (pos (length ips)) tmp.top_ip_count)
    then none
    else if not (ltb_ℤ (pos 0) tmp.port) || ltb_ℤ (pos 65535) tmp.port
    then none
    else do
      concurrency ← choose_concurrency tmp.max_concurrency
      top ← choose_top tmp.top_ip_count (length ips)
      attempts ← choose_attempts tmp.attempts
      timeout ← choose_duration net (pos 1000000000) tmp.timeout
      interval ← choose_duration net (pos 1800000000000) tmp.update_interval
      some (record {
        pool = fresh_pool ips top;
        port = pos_part tmp.port % 65536;
        top_ip_count = top;
        attempts = attempts;
        timeout = timeout;
        update_interval = interval;
        concurrency = concurrency;
      })

-- `UnmarshalJSON`
unfoldable pub unmarshal_pool : Net → Source → Option (Option PoolFields)
unfolding parse_ip_list configure
unmarshal_pool net tmp =
    parse_ip_list net tmp.ips
    >>= (λ parsed. elim parsed [ none ↦ some none | some ips ↦ some (configure net tmp ips) ])
