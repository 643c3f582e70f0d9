-- ===== src/Pool/Picks.antt =====
-- What `Get` of internal/ip_pool.go returns.
use bill_vpn.Common.{
  ℕ, zero, suc, ◌+◌, ◌*◌, ◌%◌, ◌≤◌, ◌<◌, ◌≡◌, ◌≢◌, refl, ◌⊎◌, inl, inr, true, false, some, List, [],
  ◌∷◌, Bytes, length, length-take, get_elem?, take, slice, slice_value, get_elem?-some, dec_lt,
  ℕ_discrete, Returns, Returns-of, All, ltb, ◌==◌, arith, ap, ◌∙◌,
}
use native.Mathlib.Nat.{mod-lt}
use bill_vpn.Pool.{IpPool, sum, pick, get}
use bill_vpn.Pool.Valid.{IsWeight, IsValid}

-- The slot whose share holds the target.
pick_share :
    (indexes weights : List ℕ) (acc i k w target : ℕ)
    → get_elem? indexes i ≡ some k
    → get_elem? weights i ≡ some w
    → acc + sum (take i weights) ≤ target
    → target < acc + sum (take i weights) + w
    → pick indexes weights acc target ≡ some k
unfolding pick
pick_share [] weights acc i k w target e f low high = absurd (ground (arith, e))
pick_share (j ∷ indexes) [] acc i k w target e f low high = absurd (ground (arith, f))
pick_share (j ∷ indexes) (v ∷ weights) acc zero k w target e f low high =
    let hit : ltb target (acc + v) ≡ true = ground (arith, f) in rw hit e
pick_share (j ∷ indexes) (v ∷ weights) acc (suc i) k w target e f low high =
    let miss : ltb target (acc + v) ≡ false = ground arith in
    rw miss (pick_share indexes weights (acc + v) i k w target e f (omega arith) (omega arith))

sum_bound : (ws : List ℕ) → All IsWeight ws → sum ws ≤ 10000 * length ws
sum_bound [] h = omega arith
sum_bound (w ∷ ws) ((low, high), h) = omega (arith, sum_bound ws h)

sum_positive : (ws : List ℕ) → All IsWeight ws → 0 < length ws → 0 < sum ws
sum_positive [] h long = absurd (omega arith)
sum_positive (w ∷ ws) ((low, high), h) long = omega arith

-- The total of a pool in use is positive and fits 32 bits.
total_fits :
    (p : IpPool)
    → IsValid p
    → p.cur_valid_ips ≢ 0
    → (p.total_weight % 4294967296 ≡ p.total_weight) × (0 < p.total_weight)
total_fits p v used =
    let ws = take p.cur_valid_ips p.best_weights in
    let few = v.few in
    let same = v.same_size in
    let most = v.small in
    let size : length ws ≡ p.cur_valid_ips =
      omega (arith, length-take p.cur_valid_ips p.best_weights) in
    let positive = sum_positive ws v.weighted (omega (arith, used)) in
    let bound = sum_bound ws v.weighted in let total = v.total in (omega arith, omega arith)

slice_start : (xs : List ℕ) (n : ℕ) → n ≤ length xs → slice xs 0 n ≡ some (take n xs)
slice_start xs n h = slice_value xs 0 n (omega arith) h ∙ ap (λ m. some (take m xs)) (omega arith)

-- The result for a slot that the loop picks.
get_value :
    (p : IpPool) (k : ℕ) (ip : Bytes)
    → IsValid p
    → p.cur_valid_ips ≢ 0
    → pick
        (take p.cur_valid_ips p.best_indexes)
        (take p.cur_valid_ips p.best_weights)
        0
        (p.counter % p.total_weight)
      ≡ some k
    → get_elem? p.ips k ≡ some ip
    → get p ≡ some (record p { counter = (p.counter + 1) % 4294967296 }, ip)
unfolding get
get_value p k ip v used chosen address =
    let unused : (p.cur_valid_ips == 0) ≡ false = ground (arith, used) in
    let same = v.same_size in
    let few = v.few in
    let (wraps, positive) = total_fits p v used in
    let nonzero : (p.total_weight == 0) ≡ false = ground arith in
    rw (
      unused,
      slice_start p.best_indexes p.cur_valid_ips few,
      slice_start p.best_weights p.cur_valid_ips (omega arith),
      wraps,
      nonzero,
      chosen,
      address,
    )

-- In a valid pool that has a working address, the slots divide the residues of the counter by the
-- total weight into shares of their weights: whenever the residue lies in the share of a slot, that
-- slot's address is returned, and only the counter changes, which wraps at 2^32.
pub get_share :
    (p : IpPool) (i k w : ℕ) (ip : Bytes)
    → IsValid p
    → p.cur_valid_ips ≢ 0
    → get_elem? (take p.cur_valid_ips p.best_indexes) i ≡ some k
    → get_elem? (take p.cur_valid_ips p.best_weights) i ≡ some w
    → get_elem? p.ips k ≡ some ip
    → sum (take i (take p.cur_valid_ips p.best_weights)) ≤ p.counter % p.total_weight
    → p.counter % p.total_weight < sum (take i (take p.cur_valid_ips p.best_weights)) + w
    → get p ≡ some (record p { counter = (p.counter + 1) % 4294967296 }, ip)
get_share p i k w ip v used at share address low high =
    get_value p k ip v used
      (pick_share _ _ 0 i k w (p.counter % p.total_weight) at share (omega arith) (omega arith))
      address

pick_total :
    (n : ℕ) (indexes weights : List ℕ) (acc target : ℕ)
    → length weights ≡ length indexes
    → All (λ (i : ℕ). i < n) indexes
    → acc ≤ target
    → target < acc + sum weights
    → (k : ℕ) × (pick indexes weights acc target ≡ some k) × (k < n)
unfolding pick
pick_total n [] [] acc target e h low high = absurd (omega arith)
pick_total n [] (w ∷ weights) acc target e h low high = absurd (omega arith)
pick_total n (j ∷ indexes) [] acc target e h low high = absurd (omega arith)
pick_total n (j ∷ indexes) (w ∷ weights) acc target e (h, hs) low high =
    elim (dec_lt target (acc + w)) [
      | yes lt ↦ let hit : ltb target (acc + w) ≡ true = ground arith in (j, rw hit refl, h)
      | no ge ↦
          let miss : ltb target (acc + w) ≡ false = ground arith in
          let (k, e2, h2) =
            pick_total n indexes weights (acc + w) target (omega arith) hs (omega arith)
              (omega arith) in
          (k, rw miss e2, h2)
    ]

-- Without a working address nothing is returned and nothing changes; otherwise an address of the
-- pool is, and the counter moves on by one.
unfoldable pub Picked : IpPool → IpPool × Bytes → Type 0
Picked p r =
    ((p.cur_valid_ips ≡ 0) × (r ≡ (p, [])))
    ⊎ ((p.cur_valid_ips ≢ 0)
        × ((k : ℕ) × (get_elem? p.ips k ≡ some r.1)
            × (r.0 ≡ record p { counter = (p.counter + 1) % 4294967296 })))

-- `Get` does not panic in a valid pool: neither by a division by zero nor out of range. It returns
-- nothing exactly when no address works, and otherwise an address of the pool.
pub get-Picked : (p : IpPool) → IsValid p → Returns (Picked p) (get p)
unfolding get Picked
get-Picked p v = elim (ℕ_discrete p.cur_valid_ips 0) [
  | yes e ↦
      let unused : (p.cur_valid_ips == 0) ≡ true = ground (arith, e) in
      Returns-of {a = (p, [])} (simp (unused) refl) (inl (e, refl))
  | no used ↦
      let same = v.same_size in
      let total = v.total in
      let (_, positive) = total_fits p v used in
      let (k, chosen, inside) =
        pick_total (length p.ips) (take p.cur_valid_ips p.best_indexes)
          (take p.cur_valid_ips p.best_weights) 0 (p.counter % p.total_weight)
          (omega (
            arith,
            length-take p.cur_valid_ips p.best_indexes,
            length-take p.cur_valid_ips p.best_weights,
          ))
          v.inside (omega arith) (omega (arith, mod-lt p.counter positive)) in
      let (ip, address) = get_elem?-some p.ips k inside in
      Returns-of (get_value p k ip v used chosen address) (inr (used, (k, address, refl)))
]
