-- ===== src/Fragment/Dot.antt =====
-- `findLastDot` (internal/utils.go): where it returns, and where it reads out of range.
use bill_vpn.Common.{
  ℕ, zero, suc, ◌+◌, ◌/◌, ◌≤◌, ◌<◌, ◌≡◌, refl, Bool, true, Option, none, some, Bytes, length,
  get_elem?-some, [], ◌∷◌, Returns-value, pos-+ℤ, dec_lt, ◌==◌, arith, ℤ, pos, ◌+ℤ◌, Returns,
  returns, Returns-if, Returns-bind, Returns-of, ◌↔◌,
}
use bill_vpn.ClientHello.{byte_at, unset_pos}
use bill_vpn.Fragment.{index, scan_dot, middle, find_last_dot}

-- The cut lies in the name, on its first byte at least and one byte behind it at most.
abbrev pub CutIn : ℕ → ℕ → ℤ × Bool → Type 0
CutIn n len r = (c : ℕ) × (r.0 ≡ pos c) × (n ≤ c) × (c ≤ n + len)

index-Returns :
    (b : Bytes) (n k : ℕ) → n + k < length b → Returns (λ _. Unit {0}) (index b (pos n +ℤ pos k))
unfolding index byte_at ◌+ℤ◌
index-Returns b n k h = let (x, e) = get_elem?-some b (n + k) h in rw (pos-+ℤ n k) (Returns-of e tt)

data DotIn (n len : ℕ) : Option ℤ → Type 0 where
  no_dot : DotIn n len none
  dot_at : {z : ℤ} → CutIn n len (z, true) → DotIn n len (some z)

scan_dot-Returns :
    (b : Bytes) (n len rounds : ℕ)
    → rounds ≤ len
    → n + len < length b
    → Returns (DotIn n len) (scan_dot b (pos n) rounds)
unfolding scan_dot
scan_dot-Returns b n len zero le h = Returns-bind (index-Returns b n 0 (omega arith)) λ c _.
    Returns-if (c == b'.') (λ _. returns (dot_at (n + 0, pos-+ℤ n 0, omega arith, omega arith)))
      (λ _. returns no_dot)
scan_dot-Returns b n len (suc k) le h =
    Returns-bind (index-Returns b n (suc k) (omega arith)) λ c _.
      Returns-if (c == b'.')
        (λ _. returns (dot_at (n + suc k, pos-+ℤ n (suc k), omega arith, omega arith)))
        (λ _. scan_dot-Returns b n len k (omega arith) h)

middle-CutIn : (n len : ℕ) (r : Option ℤ) → DotIn n len r → CutIn n len (middle (pos n) len r)
unfolding middle
middle-CutIn n len r no_dot = (len / 2 + n, pos-+ℤ (len / 2) n, omega arith, omega arith)
middle-CutIn n len r (dot_at c) = c

pub find_last_dot-Returns :
    (b : Bytes) (n len : ℕ)
    → n + len < length b
    → Returns (CutIn n len) (find_last_dot b (pos n) len)
unfolding find_last_dot
find_last_dot-Returns b n len h =
    Returns-bind (scan_dot-Returns b n len len (omega arith) h)
      λ r q. returns (middle-CutIn n len r q)

index_end : (b : Bytes) (i : ℕ) → length b ≤ i → index b (pos i) ≡ none
unfolding index byte_at
index_end [] i h = refl
index_end (x ∷ b) zero h = absurd (omega arith)
index_end (x ∷ b) (suc i) h = index_end b i (omega arith)

scan_dot_end : (b : Bytes) (n len : ℕ) → length b ≤ n + len → scan_dot b (pos n) len ≡ none
unfolding scan_dot
scan_dot_end b n zero h = rw (pos-+ℤ n 0, index_end b (n + 0) h)
scan_dot_end b n (suc k) h = rw (pos-+ℤ n (suc k), index_end b (n + suc k) h)

-- The search for a dot starts one byte behind the name. So it reads out of range, and the program
-- panics, for every name that ends where the input ends, and for no name that ends before.
pub find_last_dot-eq-none_iff :
    (b : Bytes) (n len : ℕ)
    → n + len ≤ length b
    → (find_last_dot b (pos n) len ≡ none) ↔ (n + len ≡ length b)
unfolding find_last_dot
find_last_dot-eq-none_iff b n len h = (
  λ e. elim (dec_lt (n + len) (length b)) [
    | yes lt ↦ let (r, f, _) = Returns-value (find_last_dot-Returns b n len lt) in cc
    | no ge ↦ omega arith
  ],
  λ e. rw (scan_dot_end b n len (omega arith)),
)

-- With no name found (position -1, length 0) the search reads at index -1 and panics.
pub find_last_dot_unset : (b : Bytes) → find_last_dot b unset_pos 0 ≡ none
unfolding find_last_dot scan_dot index ◌+ℤ◌
find_last_dot_unset b = refl
