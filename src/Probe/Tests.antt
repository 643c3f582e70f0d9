-- ===== src/Probe/Tests.antt =====
-- The search of internal/desync_linux.go for a host that is five hops away.
use bill_vpn.Common.{ℕ, ◌≤◌, ◌≡◌, ◌≢◌, refl, false, if◌then◌else◌, ltb, arith, Bool-cases, inl, inr}
use bill_vpn.Probe.{Dial, connected, timed_out, broken, try_dial, detect_minimal_reachable_ttl}
use bill_vpn.Probe.Least.{Reaches, IsLeast, detect_minimal_reachable_ttl-IsLeast}

abbrev dial : ℕ → ℕ → Dial
dial t k = if ltb t 5 then timed_out else connected

dial_unbroken : (t k : ℕ) → dial t k ≢ broken
dial_unbroken t k e = ground (arith, e)

dial_monotone : (t u : ℕ) → t ≤ u → Reaches dial 2 t → Reaches dial 2 u
unfolding Reaches try_dial
dial_monotone t u le r = elim (Bool-cases (ltb t 5)) [
  | inl e ↦ absurd (ground (arith, e, r))
  | inr e ↦ let f : ltb u 5 ≡ false = ground arith in rw (try_dial, dial, f) refl
]

detect_minimal_reachable_ttl-IsLeast_example :
    IsLeast dial 2 16 (detect_minimal_reachable_ttl dial 16 2)
detect_minimal_reachable_ttl-IsLeast_example =
    detect_minimal_reachable_ttl-IsLeast dial 16 2 dial_unbroken dial_monotone
