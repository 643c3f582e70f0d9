-- ===== src/Pool.antt =====
-- The pools of internal/ip_pool.go behind their parser: `testIP`, `scan`, `updateBest`, `Get` and
-- `getFromIPPool`. The outcomes of dials, the order in which the tests end, and the weight that the
-- floating-point formula gives before it is clamped are arguments. A loss is counted in failed
-- attempts. `topIPCount` is the length of the two arrays that `UnmarshalJSON` makes of it.
pub mod Parse
pub mod Life
pub mod Valid
pub mod Picks
pub mod Tests
use bill_vpn.Common.{
  ℕ, zero, suc, ◌+◌, ◌-◌, ◌/◌, ◌%◌, Bool, true, false, ◌&&◌, ◌||◌, Option, none, some, List, [],
  ◌∷◌, ◌++◌, map, Bytes, length, get_elem?, take, slice, if◌then◌else◌, ltb, ◌==◌, ◌>>=◌, min, ite,
  find,
}

pub record IpResult : Type 0 where
  pub ip_index : ℕ
  pub latency : ℕ
  pub failures : ℕ

pub record IpPool : Type 0 where
  pub ips : List Bytes
  pub best_indexes : List ℕ
  pub best_weights : List ℕ
  pub total_weight : ℕ
  pub cur_valid_ips : ℕ
  pub counter : ℕ

-- The latencies of the dials that succeed, and the number of those that do not.
pub tally : List (Option ℕ) → List ℕ × ℕ
tally [] = ([], 0)
tally (none ∷ ds) = ((tally ds).0, suc (tally ds).1)
tally (some t ∷ ds) = (t ∷ (tally ds).0, (tally ds).1)

abbrev pub sum : List ℕ → ℕ
sum [] = 0
sum (n ∷ ns) = n + sum ns

-- `testIP`, and the filter of `scan`: `none` where every attempt fails.
pub test_ip : ℕ → List (Option ℕ) → Option IpResult
unfolding tally
test_ip i dials =
    let (latencies, failures) = tally dials in
    if length latencies == 0
    then none
    else some
        (record { ip_index = i; latency = sum latencies / length latencies; failures = failures })

pub less : IpResult → IpResult → Bool
less a b = if a.failures == b.failures then ltb a.latency b.latency else ltb a.failures b.failures

-- `sort.SliceStable` by `less`.
pub insert_result : IpResult → List IpResult → List IpResult
unfolding less
insert_result r [] = r ∷ []
insert_result r (s ∷ rs) =
    let rest = insert_result r rs in if less s r then s ∷ rest else r ∷ s ∷ rs

pub sort_results : List IpResult → List IpResult
unfolding insert_result
sort_results [] = []
sort_results (r ∷ rs) = insert_result r (sort_results rs)

-- `minWeight` and `maxWeight`.
pub clamp : ℕ → ℕ
clamp w = if ltb w 1 then 1 else if ltb 10000 w then 10000 else w

-- The loop of `updateBest`, and the one that clears the weights behind.
pub write_indexes : List IpResult → List ℕ → List ℕ
write_indexes [] old = old
write_indexes (r ∷ rs) [] = []
write_indexes (r ∷ rs) (i ∷ old) = r.ip_index ∷ write_indexes rs old

pub write_weights : (IpResult → ℕ) → List IpResult → List ℕ → List ℕ
unfolding clamp
write_weights weight rs [] = []
write_weights weight [] (w ∷ old) = 0 ∷ write_weights weight [] old
write_weights weight (r ∷ rs) (w ∷ old) = clamp (weight r) ∷ write_weights weight rs old

-- `validCount`
pub written : List IpResult → List ℕ → ℕ
written [] old = 0
written (r ∷ rs) [] = 0
written (r ∷ rs) (i ∷ old) = suc (written rs old)

abbrev pub is_nil {ℓ} : {A : Type ℓ} → List A → Bool
is_nil [] = true
is_nil (x ∷ xs) = false

-- `updateBest`
unfoldable pub update_best : (IpResult → ℕ) → List IpResult → IpPool → IpPool
unfolding sort_results write_indexes write_weights written
update_best weight results p =
    let sorted = sort_results results in
    let weights = write_weights weight sorted p.best_weights in
    if is_nil results then p else record p {
      best_indexes = write_indexes sorted p.best_indexes;
      best_weights = weights;
      total_weight = sum weights;
      cur_valid_ips = written sorted p.best_indexes;
    }

-- The results of the tests, in the order in which they end.
pub collect : (ℕ → List (Option ℕ)) → List ℕ → List IpResult
unfolding test_ip
collect dials [] = []
collect dials (i ∷ order) = elim (test_ip i (dials i)) [
  | none ↦ collect dials order
  | some r ↦ r ∷ collect dials order
]

-- `scan`, in a pool that is not closed.
unfoldable pub scan : (IpResult → ℕ) → (ℕ → List (Option ℕ)) → List ℕ → IpPool → IpPool
unfolding collect update_best
scan weight dials order p = update_best weight (collect dials order) p

-- The loop of `Get`.
pub pick : List ℕ → List ℕ → ℕ → ℕ → Option ℕ
pick (i ∷ indexes) (w ∷ weights) acc target =
    let rest = pick indexes weights (acc + w) target in
    if ltb target (acc + w) then some i else rest
pick _ _ acc target = none

-- `Get`; `none` is a panic. The counter has 32 bits.
pub get : IpPool → Option (IpPool × Bytes)
unfolding pick
get p = if p.cur_valid_ips == 0 then some (p, []) else do
  indexes ← slice p.best_indexes 0 p.cur_valid_ips
  weights ← slice p.best_weights 0 p.cur_valid_ips
  total ← (if p.total_weight % 4294967296 == 0 then none else some (p.total_weight % 4294967296))
  i ← elim (pick indexes weights 0 (p.counter % total)) [
    | some i ↦ some i
    | none ↦ get_elem? indexes 0
  ]
  ip ← get_elem? p.ips i
  some (record p { counter = (p.counter + 1) % 4294967296 }, ip)

-- `getFromIPPool`: the inner `none` is an error.
pub get_from_ip_pool : (Bytes → Option IpPool) → Bytes → Option (Option Bytes)
unfolding get
get_from_ip_pool pools tag = elim (pools tag) [
  | none ↦ some none
  | some p ↦ get p >>= (λ r. if is_nil r.1 then some none else some (some r.1))
]
