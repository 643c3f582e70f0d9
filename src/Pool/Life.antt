-- ===== src/Pool/Life.antt =====
-- A pool of internal/ip_pool.go from its parser on, through scans and calls of `Get`.
use bill_vpn.Common.{
  ℕ, ◌+◌, ◌%◌, ◌<◌, ◌≡◌, ◌≢◌, get_elem?, Returns-map, refl, sym, ap, ◌∙◌, Option, some, List, [],
  ◌∷◌, Bytes, length, All, ◌⊎◌, inl, inr, Returns, returns,
}
use mathlib.Core.Path.{subst}
use bill_vpn.Pool.{IpResult, IpPool, scan, get, update_best, collect}
use bill_vpn.Pool.Valid.{IsValid, scan-IsValid}
use bill_vpn.Pool.Picks.{Picked, get-Picked}
use bill_vpn.Pool.Parse.{Net, Source, PoolFields, unmarshal_pool}
use bill_vpn.Pool.Parse.Fresh.{Accepted, Unless, fine, unmarshal_pool-Accepted}

-- The pools that an accepted configuration comes to: by scans, whose tests end in any order and
-- measure anything, and by calls of `Get`.
pub data Reached (start : IpPool) : IpPool → Type 0 where
  parsed : Reached start start
  scanned :
      {p : IpPool} (weight : IpResult → ℕ) (dials : ℕ → List (Option ℕ)) (order : List ℕ)
      → Reached start p
      → All (λ (i : ℕ). i < length p.ips) order
      → Reached start (scan weight dials order p)
  got : {p p' : IpPool} {ip : Bytes} → Reached start p → get p ≡ some (p', ip) → Reached start p'

-- What scans and picks keep: the pool is valid, and its addresses are those it started with.
record Kept (start p : IpPool) : Type 0 where
  valid : IsValid p
  same_ips : p.ips ≡ start.ips

counted-Kept : (start p : IpPool) (n : ℕ) → Kept start p → Kept start (record p { counter = n })
counted-Kept start p n k =
    let v = k.valid in
    record {
      valid = record {
        small = v.small;
        same_size = v.same_size;
        few = v.few;
        inside = v.inside;
        weighted = v.weighted;
        total = v.total;
      };
      same_ips = k.same_ips;
    }

Picked-Kept : (start p p' : IpPool) (ip : Bytes) → Kept start p → Picked p (p', ip) → Kept start p'
unfolding Picked
Picked-Kept start p p' ip v (inl (e, h)) = subst (Kept start) (sym (ap (λ r. r.0) h)) v
Picked-Kept start p p' ip v (inr (used, (k, h, e))) =
    subst (Kept start) (sym e) (counted-Kept start p ((p.counter + 1) % 4294967296) v)

Returns-Picked : (p : IpPool) (r : IpPool × Bytes) → Returns (Picked p) (some r) → Picked p r
Returns-Picked p r (returns h) = h

Returns-Kept :
    (start p p' : IpPool) (ip : Bytes) (r : Option (IpPool × Bytes))
    → Kept start p
    → Returns (Picked p) r
    → r ≡ some (p', ip)
    → Kept start p'
Returns-Kept start p p' ip r v h e =
    Picked-Kept start p p' ip v (Returns-Picked p (p', ip) (rw e at h))

update_best_ips :
    (weight : IpResult → ℕ) (results : List IpResult) (p : IpPool)
    → (update_best weight results p).ips ≡ p.ips
unfolding update_best
update_best_ips weight [] p = refl
update_best_ips weight (r ∷ rs) p = refl

scan_ips :
    (weight : IpResult → ℕ) (dials : ℕ → List (Option ℕ)) (order : List ℕ) (p : IpPool)
    → (scan weight dials order p).ips ≡ p.ips
unfolding scan
scan_ips weight dials order p = update_best_ips weight (collect dials order) p

Reached-Kept : (start p : IpPool) → IsValid start → Reached start p → Kept start p
Reached-Kept start p v parsed = record { valid = v; same_ips = refl }
Reached-Kept start p v (scanned {p = q} weight dials order r h) =
    let k = Reached-Kept start q v r in
    record {
      valid = scan-IsValid weight dials order q h k.valid;
      same_ips = scan_ips weight dials order q ∙ k.same_ips;
    }
Reached-Kept start p v (got {p = q} {ip = ip} r e) =
    let k = Reached-Kept start q v r in Returns-Kept start q p ip (get q) k (get-Picked q k.valid) e

-- The address that a pool returns is one of its list, and there is none exactly while no address
-- works.
abbrev pub Listed : IpPool → IpPool → IpPool × Bytes → Type 0
Listed start p r =
    ((p.cur_valid_ips ≡ 0) × (r.1 ≡ []))
    ⊎ ((p.cur_valid_ips ≢ 0) × ((k : ℕ) × (get_elem? start.ips k ≡ some r.1)))

Picked-Listed :
    (start p : IpPool) (r : IpPool × Bytes) → Kept start p → Picked p r → Listed start p r
unfolding Picked
Picked-Listed start p r kept (inl (e, h)) = inl (e, ap (λ q. q.1) h)
Picked-Listed start p r kept (inr (used, (k, h, e))) = inr (used, (k, rw (sym kept.same_ips) h))

config-Accepted : (c : PoolFields) → Unless Accepted (some c) → Accepted c
config-Accepted c (fine h) = h

Returns-config :
    (c : PoolFields) → Returns (Unless Accepted) (some (some c)) → Unless Accepted (some c)
Returns-config c (returns h) = h

-- However often a pool that the parser accepts has been scanned and asked, in whatever order the
-- tests of a scan end and whatever they measure: `Get` does not panic, and it returns an address
-- of the parsed list, or nothing while no address works.
pub get-Listed :
    (net : Net) (tmp : Source) (c : PoolFields) (p : IpPool)
    → unmarshal_pool net tmp ≡ some (some c)
    → Reached c.pool p
    → Returns (Listed c.pool p) (get p)
get-Listed net tmp c p accepted r =
    let start : Accepted c =
      config-Accepted c (Returns-config c (rw accepted at (unmarshal_pool-Accepted net tmp))) in
    let k = Reached-Kept c.pool p start.valid r in
    Returns-map (λ q h. Picked-Listed c.pool p q k h) (get-Picked p k.valid)
