-- ===== src/Pattern/Ends.antt =====
-- `expandPattern` of internal/utils.go ends on every text.
use bill_vpn.Common.{
  ℕ, zero, suc, ◌+◌, ◌-◌, ◌<◌, ◌≡◌, refl, ◌⊎◌, Bool, true, false, Option, none, some, [], ◌∷◌,
  Bytes, length, if◌then◌else◌, ◌==◌, arith, inl, inr, Returns, returns, Returns-bind,
}
use bill_vpn.Pattern.{behind, split_open, split_close, expand, expand_pattern}

-- What stands behind is shorter.
data Shorter (s : Bytes) : Option (Bytes × Bytes) → Type 0 where
  missing : Shorter s none
  found : (a b : Bytes) → length b < length s → Shorter s (some (a, b))

Shorter-behind :
    (c : ℕ) (s : Bytes) (r : Option (Bytes × Bytes)) → Shorter s r → Shorter (c ∷ s) (behind c r)
Shorter-behind c s none h = missing
Shorter-behind c s (some (x, y)) (found a b h) = found (c ∷ a) b (omega arith)

Shorter-if :
    {s : Bytes} (b : Bool) {x y : Option (Bytes × Bytes)}
    → Shorter s x
    → Shorter s y
    → Shorter s (if b then x else y)
Shorter-if true h k = h
Shorter-if false h k = k

split_open-Shorter : (s : Bytes) → Shorter s (split_open s)
unfolding split_open
split_open-Shorter [] = missing
split_open-Shorter (c ∷ s) =
    Shorter-if (c == b'(') (found [] s (omega arith)) (Shorter-behind c s _ (split_open-Shorter s))

split_close-Shorter : (depth : ℕ) (s : Bytes) → Shorter s (split_close depth s)
unfolding split_close
split_close-Shorter depth [] = missing
split_close-Shorter depth (c ∷ s) =
    let rest = Shorter-behind c s _ (
      split_close-Shorter (if c == b'(' then depth + 1 else if c == b')' then depth - 1 else depth)
        s) in
    Shorter-if (c == b'(') rest
      (Shorter-if (c == b')') (Shorter-if (depth - 1 == 0) (found [] s (omega arith)) rest) rest)

Shorter-cases :
    {s : Bytes} {r : Option (Bytes × Bytes)}
    → Shorter s r
    → (r ≡ none) ⊎ ((a : Bytes) × (b : Bytes) × (r ≡ some (a, b)) × (length b < length s))
Shorter-cases missing = inl refl
Shorter-cases (found a b h) = inr (a, b, refl, h)

expand-Returns : (fuel : ℕ) (s : Bytes) → length s < fuel → Returns (λ _. Unit {0}) (expand fuel s)
unfolding expand
expand-Returns zero s h = absurd (omega arith)
expand-Returns (suc fuel) s h = elim (Shorter-cases (split_open-Shorter s)) [
  | inl e ↦ rw (expand, e) (returns tt)
  | inr (before, opened, e, lt) ↦ elim (Shorter-cases (split_close-Shorter 1 opened)) [
    | inl f ↦ rw (expand, e, f) (returns tt)
    | inr (inner, after, f, lt') ↦
        rw (expand, e, f)
          (Returns-bind (expand-Returns fuel after (omega arith)) (λ suffixes _. returns tt))
  ]
]

-- The fuel is enough for every text.
pub expand_pattern-Returns : (s : Bytes) → Returns (λ _. Unit {0}) (expand_pattern s)
unfolding expand_pattern
expand_pattern-Returns s = expand-Returns (suc (length s)) s (omega arith)
