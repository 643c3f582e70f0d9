-- ===== src/Probe/Least.antt =====
-- The search of internal/desync_linux.go finds the least TTL that reaches the host.
use bill_vpn.Common.{
  ℕ, zero, suc, ◌+◌, ◌-◌, ◌/◌, ◌≤◌, ◌<◌, ◌≡◌, ◌≢◌, refl, sym, ltb→lt, lt→ltb, Option, none, some,
  ltb, arith, Bool-cases, inl, inr,
}
use bill_vpn.Probe.{
  Dial, broken, Attempts, reached, missed, broke, try_dial, Search, error, found, search_ttl,
  detect_minimal_reachable_ttl,
}

-- An attempt that breaks off needs a dial that does.
try_dial-unbroken :
    (dial : ℕ → Dial) (i n : ℕ) → ((k : ℕ) → dial k ≢ broken) → try_dial dial i n ≢ broke
unfolding try_dial
try_dial-unbroken dial i zero h = λ e. ground arith
try_dial-unbroken dial i (suc n) h = grind (arith, h i, try_dial-unbroken dial (i + 1) n h)

module _ (dial : ℕ → ℕ → Dial) (attempts : ℕ) where
  unfoldable pub Reaches : ℕ → Type 0
  Reaches t = try_dial (dial t) 0 attempts ≡ reached

  -- What the search returns: the least TTL from 1 to the bound that reaches the host, or that
  -- there is none.
  pub data IsLeast (max : ℕ) : Search → Type 0 where
    least :
        {t : ℕ}
        → 1 ≤ t
        → t ≤ max
        → Reaches t
        → ((u : ℕ) → 1 ≤ u → u < t → ¬ Reaches u)
        → IsLeast max (found (some t))
    unreached : ((u : ℕ) → 1 ≤ u → u ≤ max → ¬ Reaches u) → IsLeast max (found none)

  module _ (unbroken : (t k : ℕ) → dial t k ≢ broken)
      (monotone : (t u : ℕ) → t ≤ u → Reaches t → Reaches u) (max : ℕ) where
    -- The best so far is the first TTL behind the range that is left, or nothing reaches.
    data Best (high : ℕ) : Option ℕ → Type 0 where
      best_some : {t : ℕ} → t ≡ high + 1 → 1 ≤ t → t ≤ max → Reaches t → Best high (some t)
      best_none : high ≡ max → Best high none

    done :
        (low high : ℕ) (best : Option ℕ)
        → high < low
        → low ≤ high + 1
        → ((u : ℕ) → 1 ≤ u → u < low → ¬ Reaches u)
        → Best high best
        → IsLeast max (found best)
    done low high _ end top below (best_some e lo hi r) =
        least lo hi r (λ u one small. below u one (omega arith))
    done low high _ end top below (best_none e) =
        unreached (λ u one small. below u one (omega arith))

    lower_first :
        (low mid : ℕ)
        → ((u : ℕ) → 1 ≤ u → u < low → ¬ Reaches u)
        → try_dial (dial mid) 0 attempts ≡ missed
        → (u : ℕ) → 1 ≤ u
        → u < mid + 1
        → ¬ Reaches u
    unfolding Reaches
    lower_first low mid below miss u one small r =
        absurd (ground (arith, monotone u mid (omega arith) r))

    search_ttl-IsLeast :
        (fuel low high : ℕ) (best : Option ℕ)
        → 1 ≤ low
        → low ≤ high + 1
        → high ≤ max
        → high + 1 ≤ fuel + low
        → ((u : ℕ) → 1 ≤ u → u < low → ¬ Reaches u)
        → Best high best
        → IsLeast max (search_ttl dial attempts fuel low high best)
    unfolding search_ttl Reaches
    search_ttl-IsLeast zero low high best one top inside enough below b =
        rw (search_ttl, lt→ltb high low (omega arith))
          (done low high best (omega arith) top below b)
    search_ttl-IsLeast (suc fuel) low high best one top inside enough below b =
        let mid = (low + high) / 2 in
        elim (Bool-cases (ltb high low)) [
          | inl e ↦ rw (search_ttl, e) (done low high best (ltb→lt high low e) top below b)
          | inr e ↦
              let room : low ≤ high = ground arith in
              rw (search_ttl, e)
                (half mid (try_dial (dial mid) 0 attempts) refl
                  (λ r.
                    search_ttl-IsLeast fuel low (mid - 1) (some mid) one (omega arith) (omega arith)
                      (omega arith) below (best_some (omega arith) (omega arith) (omega arith) r))
                  (λ miss.
                    search_ttl-IsLeast fuel (mid + 1) high best (omega arith) (omega arith) inside
                      (omega arith) (lower_first low mid below miss) b))
        ]
      where
        half :
            (mid : ℕ) (a : Attempts)
            → a ≡ try_dial (dial mid) 0 attempts
            → (try_dial (dial mid) 0 attempts ≡ reached
                → IsLeast max (search_ttl dial attempts fuel low (mid - 1) (some mid)))
            → (try_dial (dial mid) 0 attempts ≡ missed
                → IsLeast max (search_ttl dial attempts fuel (mid + 1) high best))
            → IsLeast max (elim a as (λ x. Search) [
              | reached ↦ search_ttl dial attempts fuel low (mid - 1) (some mid)
              | missed ↦ search_ttl dial attempts fuel (mid + 1) high best
              | broke ↦ error
            ])
        half mid reached e down up = down (sym e)
        half mid missed e down up = up (sym e)
        half mid broke e down up =
            absurd (try_dial-unbroken (dial mid) 0 attempts (unbroken mid) (sym e))

-- If no dial ends with another error than a timeout, and a host that is reached with one TTL is
-- reached with every larger one, the search ends and finds the least TTL from 1 to the bound that
-- reaches the host, or that none does.
pub detect_minimal_reachable_ttl-IsLeast :
    (dial : ℕ → ℕ → Dial) (max attempts : ℕ)
    → ((t k : ℕ) → dial t k ≢ broken)
    → ((t u : ℕ) → t ≤ u → Reaches dial attempts t → Reaches dial attempts u)
    → IsLeast dial attempts max (detect_minimal_reachable_ttl dial max attempts)
unfolding detect_minimal_reachable_ttl
detect_minimal_reachable_ttl-IsLeast dial max attempts unbroken monotone =
    search_ttl-IsLeast dial attempts unbroken monotone max max 1 max none (omega arith)
      (omega arith) (omega arith) (omega arith) (λ u one small. absurd (omega arith))
      (best_none refl)
