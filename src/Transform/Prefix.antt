-- ===== src/Transform/Prefix.antt =====
-- `transformIP` of internal/utils.go keeps the host's part and takes the network's.
use Prim.Native.Nat.{bit_and, bit_or}
use bill_vpn.Common.{
  ◌≤◌, ℕ, zero, suc, ◌+◌, ◌-◌, ◌*◌, ◌/◌, ◌%◌, ◌^◌, ◌<◌, ◌≡◌, refl, sym, ap, ◌∙◌, Bool, true, false,
  ◌&&◌, none, some, [], ◌∷◌, Bytes, if◌then◌else◌, min, inl, inr, Bool-cases, ℕ_discrete, leb, ◌==◌,
  ==_iff, arith, All,
}
use bill_vpn.Transform.{Netip, same, mask, new_byte, new_bytes, transform_ip}

-- The predicate tested at `count` numbers, from the first one on.
tests_from : (ℕ → Bool) → ℕ → ℕ → Bool
tests_from p first zero = true
tests_from p first (suc count) = if p first then tests_from p (first + 1) count else false

tested :
    (p : ℕ → Bool) (first count x : ℕ)
    → tests_from p first count ≡ true
    → first ≤ x
    → x < first + count
    → p x ≡ true
unfolding tests_from
tested p first zero x h low high = absurd (omega arith)
tested p first (suc count) x h low high = elim (Bool-cases (p first)) [
  | inr fails ↦ absurd (ground (arith, fails, h))
  | inl holds ↦ elim (ℕ_discrete first x) [
    | yes here ↦ ap p (sym here) ∙ holds
    | no later ↦
        tested p (first + 1) count x (rw (tests_from, holds) at h) (omega (arith, later))
          (omega arith)
  ]
]

tested_byte : (p : ℕ → Bool) (x : ℕ) → tests_from p 0 256 ≡ true → x < 256 → p x ≡ true
tested_byte p x table small = tested p 0 256 x table (omega arith) (omega arith)

-- For a mask M that clears the bits below P.
abbrev cuts : ℕ → ℕ → ℕ → Bool
cuts P M x =
    (bit_and x M == x / P * P)
    && ((bit_and x (255 - M) == x % P) && (bit_or (x / P * P) (x % P) == x))

and_true : (a b : Bool) → (a && b) ≡ true → (a ≡ true) × (b ≡ true)
and_true true true h = (refl, refl)
and_true true false h = absurd (ground (arith, h))
and_true false b h = absurd (ground (arith, h))

merge :
    (P M net ip : ℕ)
    → tests_from (cuts P M) 0 256 ≡ true
    → net < 256
    → ip < 256
    → net / P * P + ip % P < 256
    → (net / P * P + ip % P) / P * P ≡ net / P * P
    → (net / P * P + ip % P) % P ≡ ip % P
    → bit_or (bit_and net M) (bit_and ip (255 - M)) ≡ net / P * P + ip % P
merge P M net ip table small fits inside high low =
    let x = net / P * P + ip % P in
    let (a, _) = and_true _ _ (tested_byte (cuts P M) net table small) in
    let (_, b) = and_true _ _ (tested_byte (cuts P M) ip table fits) in
    let (b1, _) = and_true _ _ b in
    let (_, c) = and_true _ _ (tested_byte (cuts P M) x table inside) in
    let (_, c1) = and_true _ _ c in
    let e1 : bit_and net M ≡ net / P * P = (==_iff _ _).0 a in
    let e2 : bit_and ip (255 - M) ≡ ip % P = (==_iff _ _).0 b1 in
    let e3 : bit_or (x / P * P) (x % P) ≡ x = (==_iff _ _).0 c1 in
    rw (e1, e2)
      (ap (λ h. bit_or h (ip % P)) (sym high) ∙ (ap (λ l. bit_or (x / P * P) l) (sym low) ∙ e3))

-- The byte in which the network's part ends after `r` bits.
abbrev pub joined : ℕ → ℕ → ℕ → ℕ
joined r net ip = net / 2 ^ (8 - r) * 2 ^ (8 - r) + ip % 2 ^ (8 - r)

merge_mask :
    (r net ip : ℕ)
    → 0 < r
    → r < 8
    → net < 256
    → ip < 256
    → bit_or (bit_and net (mask r)) (bit_and ip (255 - mask r)) ≡ joined r net ip
unfolding tests_from
merge_mask zero net ip lo hi small fits = absurd (omega arith)
merge_mask (suc zero) net ip lo hi small fits =
    merge 128 128 net ip refl small fits (omega arith) (omega arith) (omega arith)
merge_mask (suc (suc zero)) net ip lo hi small fits =
    merge 64 192 net ip refl small fits (omega arith) (omega arith) (omega arith)
merge_mask (suc (suc (suc zero))) net ip lo hi small fits =
    merge 32 224 net ip refl small fits (omega arith) (omega arith) (omega arith)
merge_mask (suc (suc (suc (suc zero)))) net ip lo hi small fits =
    merge 16 240 net ip refl small fits (omega arith) (omega arith) (omega arith)
merge_mask (suc (suc (suc (suc (suc zero))))) net ip lo hi small fits =
    merge 8 248 net ip refl small fits (omega arith) (omega arith) (omega arith)
merge_mask (suc (suc (suc (suc (suc (suc zero)))))) net ip lo hi small fits =
    merge 4 252 net ip refl small fits (omega arith) (omega arith) (omega arith)
merge_mask (suc (suc (suc (suc (suc (suc (suc zero))))))) net ip lo hi small fits =
    merge 2 254 net ip refl small fits (omega arith) (omega arith) (omega arith)
merge_mask (suc (suc (suc (suc (suc (suc (suc (suc r)))))))) net ip lo hi small fits =
    absurd (omega arith)

new_byte-joined :
    (bits i net ip : ℕ)
    → net < 256
    → ip < 256
    → new_byte bits i net ip ≡ joined (min 8 (bits - i * 8)) net ip
unfolding new_byte
new_byte-joined bits i net ip small fits = elim (Bool-cases (leb (i * 8 + 8) bits)) [
  | inl e ↦
      let full : min 8 (bits - i * 8) ≡ 8 = ground (arith, e) in
      rw (new_byte, e) (omega arith ∙ ap (λ r. joined r net ip) (sym full))
  | inr e ↦ elim (Bool-cases (leb bits (i * 8))) [
    | inl f ↦
        let none_left : min 8 (bits - i * 8) ≡ 0 = ground (arith, f) in
        rw (new_byte, e, f) (omega arith ∙ ap (λ r. joined r net ip) (sym none_left))
    | inr f ↦
        let some_left : bits - i * 8 ≡ min 8 (bits - i * 8) = ground (arith, e, f) in
        rw (new_byte, e, f)
          (merge_mask (bits - i * 8) net ip (ground (arith, f)) (ground (arith, e)) small fits
            ∙ ap (λ r. joined r net ip) some_left)
  ]
]

-- Byte by byte: the bits of the network that the prefix has in this byte, and then the address's.
unfoldable pub join_all : ℕ → ℕ → Bytes → Bytes → Bytes
join_all bits i (n ∷ net) (b ∷ ip) =
    joined (min 8 (bits - i * 8)) n b ∷ join_all bits (i + 1) net ip
join_all bits i _ _ = []

abbrev pub IsByte : ℕ → Type 0
IsByte b = b < 256

new_bytes-join_all :
    (bits i : ℕ) (net ip : Bytes)
    → All IsByte net
    → All IsByte ip
    → new_bytes bits i net ip ≡ join_all bits i net ip
unfolding new_bytes join_all
new_bytes-join_all bits i [] ip h g = refl
new_bytes-join_all bits i (n ∷ net) [] h g = refl
new_bytes-join_all bits i (n ∷ net) (b ∷ ip) (h, hs) (g, gs) =
    rw (new_byte-joined bits i n b h g, new_bytes-join_all bits (i + 1) net ip hs gs) refl

-- Where the address and the prefix are of the same family, the new address is printed from bytes
-- of which each is n / 2^s * 2^s + b % 2^s, for the network's byte n and the address's byte b,
-- where 8 - s of the prefix's bits lie in this byte. Otherwise it is an error.
pub transform_ip-join_all :
    (p : Netip) (ip_text net_text ip net : Bytes) (four four' : Bool) (bits : ℕ)
    → p.parse_addr ip_text ≡ some (four, ip)
    → p.parse_prefix net_text ≡ some (four', net, bits)
    → All IsByte net
    → All IsByte ip
    → transform_ip p ip_text net_text
      ≡ (if same four four' then some (p.to_text (join_all bits 0 net ip)) else none)
unfolding transform_ip
transform_ip-join_all p ip_text net_text ip net four four' bits e f h g =
    rw (e, f, new_bytes-join_all bits 0 net ip h g) refl
