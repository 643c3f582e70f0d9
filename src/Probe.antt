-- ===== src/Probe.antt =====
-- The search for the least TTL that reaches a host, `detectMinimalReachableTTL` of
-- internal/desync_linux.go, and `getFakeTTL` of internal/desync.go, which takes its result through
-- the rules. The outcome of each dial is an argument. The loop has fuel, `none` if it runs out;
-- TTLs are natural numbers, since `mid` is never below 1.
pub mod Least
pub mod Tests
use bill_vpn.Common.{
  ℕ, zero, suc, ◌+◌, ◌-◌, ◌/◌, Bool, true, false, ◌||◌, Option, none, some, List, [], ◌∷◌, Bytes,
  if◌then◌else◌, ltb, ℤ, pos, negsuc, ◌-ℤ◌, eqb_ℤ,
}
use bill_vpn.Policy.{Policy, is_zero, is_unset_int}
use bill_vpn.TtlRules.{Rule, calc_ttl}

-- How one call of `dialer.Dial` ends.
pub data Dial : Type 0 where
  connected timed_out broken : Dial

-- The attempts with one TTL: a connection, none, or an error that ends the search.
pub data Attempts : Type 0 where
  reached missed broke : Attempts

pub try_dial : (ℕ → Dial) → ℕ → ℕ → Attempts
try_dial dial i zero = missed
try_dial dial i (suc n) =
    let rest = try_dial dial (i + 1) n in
    elim (dial i) [ connected ↦ reached | timed_out ↦ rest | broken ↦ broke ]

pub data Search : Type 0 where
  out_of_fuel error : Search
  found : Option ℕ → Search

-- The loop; the dial is given the TTL and the number of the attempt.
pub search_ttl : (ℕ → ℕ → Dial) → ℕ → ℕ → ℕ → ℕ → Option ℕ → Search
unfolding try_dial
search_ttl dial attempts zero low high best = if ltb high low then found best else out_of_fuel
search_ttl dial attempts (suc fuel) low high best =
    let mid = (low + high) / 2 in
    let down = search_ttl dial attempts fuel low (mid - 1) (some mid) in
    let up = search_ttl dial attempts fuel (mid + 1) high best in
    if ltb high low
    then found best
    else elim (try_dial (dial mid) 0 attempts) [ reached ↦ down | missed ↦ up | broke ↦ error ]

-- `detectMinimalReachableTTL` without its entry in the cache.
pub detect_minimal_reachable_ttl : (ℕ → ℕ → Dial) → ℕ → ℕ → Search
unfolding search_ttl
detect_minimal_reachable_ttl dial max_ttl attempts = search_ttl dial attempts max_ttl 1 max_ttl none

-- `getMinimalReachableTTL`: the cached TTL for the address, if there is one.
pub get_minimal_reachable_ttl : Option ℕ → (ℕ → ℕ → Dial) → ℕ → ℕ → Search
unfolding detect_minimal_reachable_ttl
get_minimal_reachable_ttl (some ttl) dial max_ttl attempts = found (some ttl)
get_minimal_reachable_ttl none dial max_ttl attempts =
    detect_minimal_reachable_ttl dial max_ttl attempts

-- `calcTTL`, or one less where no rules are configured.
pub fake_of_reachable : Option (List Rule) → ℕ → Option ℤ
fake_of_reachable none ttl = some (pos ttl -ℤ pos 1)
fake_of_reachable (some rules) ttl = calc_ttl rules (pos ttl)

-- `getFakeTTL`; `none` is an error, which comes with the TTL -1.
pub get_fake_ttl : Option (List Rule) → Policy → Search → Option ℤ
unfolding fake_of_reachable
get_fake_ttl rules p result =
    if is_zero p.fake_ttl || is_unset_int p.fake_ttl
    then elim result [
      | out_of_fuel ↦ none
      | error ↦ none
      | found none ↦ none
      | found (some ttl) ↦ fake_of_reachable rules ttl
    ]
    else some p.fake_ttl
