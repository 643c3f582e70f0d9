-- ===== src/Pool/Valid.antt =====
-- The state of a pool (internal/ip_pool.go) after any scan.
use bill_vpn.Common.{
  ℕ, suc, ◌+◌, ◌≤◌, ◌<◌, ◌≡◌, refl, inl, inr, Bool, true, false, Option, List, [], ◌∷◌, length,
  take, All, if◌then◌else◌, ◌==◌, arith, Bool-cases, ap,
}
use bill_vpn.Pool.{
  IpResult, IpPool, sum, tally, test_ip, less, insert_result, sort_results, clamp, write_indexes,
  write_weights, written, update_best, collect, scan,
}

abbrev pub IsWeight : ℕ → Type 0
IsWeight w = (1 ≤ w) × (w ≤ 10000)

-- The places in use hold indexes of the pool and weights between the bounds, whose sum is the total.
pub record IsValid (p : IpPool) : Type 0 where
  pub small : length p.best_indexes ≤ 255
  pub same_size : length p.best_weights ≡ length p.best_indexes
  pub few : p.cur_valid_ips ≤ length p.best_indexes
  pub inside : All (λ (i : ℕ). i < length p.ips) (take p.cur_valid_ips p.best_indexes)
  pub weighted : All IsWeight (take p.cur_valid_ips p.best_weights)
  pub total : p.total_weight ≡ sum (take p.cur_valid_ips p.best_weights)

abbrev pub Within : ℕ → List IpResult → Type 0
Within n rs = All (λ (r : IpResult). r.ip_index < n) rs

insert_result-Within :
    (n : ℕ) (r : IpResult) (rs : List IpResult)
    → r.ip_index < n
    → Within n rs
    → Within n (insert_result r rs)
unfolding insert_result
insert_result-Within n r [] h k = (h, tt)
insert_result-Within n r (s ∷ rs) h (k, ks) = placed (insert_result-Within n r rs h ks) (less s r)
  where
    placed :
        Within n (insert_result r rs)
        → (b : Bool) → Within n (if b then s ∷ insert_result r rs else r ∷ s ∷ rs)
    placed ih true = (k, ih)
    placed ih false = (h, (k, ks))

sort_results-Within : (n : ℕ) (rs : List IpResult) → Within n rs → Within n (sort_results rs)
unfolding sort_results
sort_results-Within n [] h = tt
sort_results-Within n (r ∷ rs) (h, hs) =
    insert_result-Within n r (sort_results rs) h (sort_results-Within n rs hs)

clamp-IsWeight : (w : ℕ) → IsWeight (clamp w)
unfolding clamp
clamp-IsWeight w = (ground arith, ground arith)

length-write_indexes :
    (rs : List IpResult) (old : List ℕ) → length (write_indexes rs old) ≡ length old
unfolding write_indexes
length-write_indexes [] old = refl
length-write_indexes (r ∷ rs) [] = refl
length-write_indexes (r ∷ rs) (i ∷ old) = ap suc (length-write_indexes rs old)

written-few : (rs : List IpResult) (old : List ℕ) → written rs old ≤ length old
unfolding written
written-few [] old = omega arith
written-few (r ∷ rs) [] = omega arith
written-few (r ∷ rs) (i ∷ old) = omega (arith, written-few rs old)

write_indexes-inside :
    (n : ℕ) (rs : List IpResult) (old : List ℕ)
    → Within n rs
    → All (λ (i : ℕ). i < n) (take (written rs old) (write_indexes rs old))
unfolding write_indexes written
write_indexes-inside n [] old h = tt
write_indexes-inside n (r ∷ rs) [] h = tt
write_indexes-inside n (r ∷ rs) (i ∷ old) (h, hs) = (h, write_indexes-inside n rs old hs)

module _ (weight : IpResult → ℕ) where
  length-write_weights :
      (rs : List IpResult) (old : List ℕ) → length (write_weights weight rs old) ≡ length old
  unfolding write_weights
  length-write_weights [] [] = refl
  length-write_weights (r ∷ rs) [] = refl
  length-write_weights [] (w ∷ old) = ap suc (length-write_weights [] old)
  length-write_weights (r ∷ rs) (w ∷ old) = ap suc (length-write_weights rs old)

  cleared : (old : List ℕ) → sum (write_weights weight [] old) ≡ 0
  unfolding write_weights
  cleared [] = refl
  cleared (w ∷ old) = omega (arith, cleared old)

  -- The arrays have one length, so as many weights as indexes are written.
  write_weights-weighted :
      (rs : List IpResult) (old indexes : List ℕ)
      → length old ≡ length indexes
      → All IsWeight (take (written rs indexes) (write_weights weight rs old))
  unfolding write_weights written
  write_weights-weighted [] old indexes e = tt
  write_weights-weighted (r ∷ rs) [] [] e = tt
  write_weights-weighted (r ∷ rs) [] (i ∷ indexes) e = absurd (omega arith)
  write_weights-weighted (r ∷ rs) (w ∷ old) [] e = tt
  write_weights-weighted (r ∷ rs) (w ∷ old) (i ∷ indexes) e =
      (clamp-IsWeight (weight r), write_weights-weighted rs old indexes (omega arith))

  write_weights-total :
      (rs : List IpResult) (old indexes : List ℕ)
      → length old ≡ length indexes
      → sum (write_weights weight rs old)
        ≡ sum (take (written rs indexes) (write_weights weight rs old))
  unfolding write_weights written
  write_weights-total [] old indexes e = cleared old
  write_weights-total (r ∷ rs) [] [] e = refl
  write_weights-total (r ∷ rs) [] (i ∷ indexes) e = absurd (omega arith)
  write_weights-total (r ∷ rs) (w ∷ old) [] e = absurd (omega arith)
  write_weights-total (r ∷ rs) (w ∷ old) (i ∷ indexes) e =
      ap (λ k. clamp (weight r) + k) (write_weights-total rs old indexes (omega arith))

  update_best-IsValid :
      (rs : List IpResult) (p : IpPool)
      → Within (length p.ips) rs
      → IsValid p
      → IsValid (update_best weight rs p)
  unfolding update_best
  update_best-IsValid [] p h v = v
  update_best-IsValid (r ∷ rs) p h v =
      let sorted = sort_results (r ∷ rs) in
      let size = length-write_indexes sorted p.best_indexes in
      let same = v.same_size in
      let most = v.small in
      record {
        small = omega arith;
        same_size = omega (arith, length-write_weights sorted p.best_weights);
        few = omega (arith, written-few sorted p.best_indexes);
        inside =
            write_indexes-inside (length p.ips) sorted p.best_indexes
              (sort_results-Within (length p.ips) (r ∷ rs) h);
        weighted = write_weights-weighted sorted p.best_weights p.best_indexes same;
        total = write_weights-total sorted p.best_weights p.best_indexes same;
      }

collect-Within :
    (n : ℕ) (dials : ℕ → List (Option ℕ)) (order : List ℕ)
    → All (λ (i : ℕ). i < n) order
    → Within n (collect dials order)
unfolding collect test_ip
collect-Within n dials [] h = tt
collect-Within n dials (i ∷ order) (h, hs) =
    let ih = collect-Within n dials order hs in
    elim (Bool-cases (length (tally (dials i)).0 == 0)) [
      | inl e ↦ rw (collect, test_ip, e) ih
      | inr e ↦ rw (collect, test_ip, e) (h, ih)
    ]

-- A scan keeps the pool valid, whatever the tests measure, in whatever order they end, and whatever
-- the weights are before they are clamped.
pub scan-IsValid :
    (weight : IpResult → ℕ) (dials : ℕ → List (Option ℕ)) (order : List ℕ) (p : IpPool)
    → All (λ (i : ℕ). i < length p.ips) order
    → IsValid p
    → IsValid (scan weight dials order p)
unfolding scan
scan-IsValid weight dials order p h v =
    update_best-IsValid weight (collect dials order) p (collect-Within (length p.ips) dials order h)
      v
