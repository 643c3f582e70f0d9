-- ===== src/Common/Lists.antt =====
-- Lists measured and indexed by native numbers, under the library's names.
use Prim.Native.Nat.{ℕ, zero, suc, ◌+◌, ◌-◌, ◌<◌, ◌≤◌, min}
use mathlib.Core.Path.{◌≡◌, refl, ap}
use mathlib.Core.Bool.{true, ◌&&◌}
use bill_vpn.Common.Tests.{leb, if◌then◌else◌}
use mathlib.Core.List.{List, [], ◌∷◌, ◌++◌, map}
use mathlib.Core.Option.{Option, none, some}
use native.Mathlib.Omega.{arith}

module _ {ℓ} {A : Type ℓ} where
  abbrev pub length : List A → ℕ
  length [] = 0
  length (x ∷ xs) = suc (length xs)

  abbrev pub get_elem? : List A → ℕ → Option A
  get_elem? [] i = none
  get_elem? (x ∷ xs) zero = some x
  get_elem? (x ∷ xs) (suc i) = get_elem? xs i

  -- A write out of bounds changes nothing.
  abbrev pub set : List A → ℕ → A → List A
  set [] i v = []
  set (x ∷ xs) zero v = v ∷ xs
  set (x ∷ xs) (suc i) v = x ∷ set xs i v

  pub length-append : (xs ys : List A) → length (xs ++ ys) ≡ length xs + length ys
  length-append [] ys = omega arith
  length-append (x ∷ xs) ys = omega (arith, length-append xs ys)

module _ {ℓ} {A : Type ℓ} where
  pub length-set : (xs : List A) (i : ℕ) (v : A) → length (set xs i v) ≡ length xs
  length-set [] i v = refl
  length-set (x ∷ xs) zero v = refl
  length-set (x ∷ xs) (suc i) v = ap suc (length-set xs i v)

module _ {ℓ} {A : Type ℓ} where
  abbrev pub take : ℕ → List A → List A
  take zero l = []
  take (suc n) [] = []
  take (suc n) (a ∷ l) = a ∷ take n l

  abbrev pub drop : ℕ → List A → List A
  drop zero xs = xs
  drop (suc n) [] = []
  drop (suc n) (x ∷ xs) = drop n xs

  pub take-append-drop : (n : ℕ) (xs : List A) → take n xs ++ drop n xs ≡ xs
  take-append-drop zero xs = refl
  take-append-drop (suc n) [] = refl
  take-append-drop (suc n) (x ∷ xs) = rw (take-append-drop n xs)

  pub length-take : (n : ℕ) (xs : List A) → length (take n xs) ≡ min n (length xs)
  length-take zero xs = omega arith
  length-take (suc n) [] = omega arith
  length-take (suc n) (x ∷ xs) = omega (arith, length-take n xs)

  pub length-drop : (n : ℕ) (xs : List A) → length (drop n xs) ≡ length xs - n
  length-drop zero xs = omega arith
  length-drop (suc n) [] = omega arith
  length-drop (suc n) (x ∷ xs) = omega (arith, length-drop n xs)

  pub length-map {κ} : {B : Type κ} (xs : List A) (f : A → B) → length (map f xs) ≡ length xs
  length-map [] f = refl
  length-map (x ∷ xs) f = ap suc (length-map xs f)

-- `xs[a:b]`: `none` where Go panics.
module _ {ℓ} {A : Type ℓ} where
  abbrev pub slice : List A → ℕ → ℕ → Option (List A)
  slice xs a b = if leb a b && leb b (length xs) then some (take (b - a) (drop a xs)) else none

  pub get_elem?-some : (xs : List A) (i : ℕ) → i < length xs → (x : A) × (get_elem? xs i ≡ some x)
  get_elem?-some [] i h = elim h [ ]
  get_elem?-some (x ∷ xs) zero h = (x, refl)
  get_elem?-some (x ∷ xs) (suc i) h = get_elem?-some xs i (omega arith)

module _ {ℓ} {A : Type ℓ} where
  pub drop-nil : (n : ℕ) → drop {A = A} n [] ≡ []
  drop-nil zero = refl
  drop-nil (suc n) = refl

  pub drop-drop : (m n : ℕ) (xs : List A) → drop m (drop n xs) ≡ drop (n + m) xs
  drop-drop m zero xs = ap (λ k. drop k xs) (omega arith)
  drop-drop m (suc n) [] = rw (drop-nil m, drop-nil (suc n + m))
  drop-drop m (suc n) (x ∷ xs) =
      let e : suc n + m ≡ suc (n + m) = omega arith in rw e (drop-drop m n xs)

  pub take-append_length : (xs ys : List A) → take (length xs) (xs ++ ys) ≡ xs
  take-append_length [] ys = refl
  take-append_length (x ∷ xs) ys = ap (◌∷◌ x) (take-append_length xs ys)

  pub drop-append_length : (xs ys : List A) → drop (length xs) (xs ++ ys) ≡ ys
  drop-append_length [] ys = refl
  drop-append_length (x ∷ xs) ys = drop-append_length xs ys

  pub slice_value :
      (xs : List A) (a b : ℕ)
      → a ≤ b
      → b ≤ length xs
      → slice xs a b ≡ some (take (b - a) (drop a xs))
  slice_value xs a b h k = let e : (leb a b && leb b (length xs)) ≡ true = ground arith in rw e

  pub take_of_length-le : (n : ℕ) (l : List A) → length l ≤ n → take n l ≡ l
  take_of_length-le (suc n) (a ∷ l) le = rw (take_of_length-le n l (omega arith))
  take_of_length-le (suc n) [] le = refl
  take_of_length-le zero [] le = refl
  take_of_length-le zero (a ∷ l) le = absurd (omega arith)

-- The places of a list that is put together from parts.
module _ {ℓ} {A : Type ℓ} where
  pub slice-middle :
      (pre b rest : List A)
      → slice (pre ++ (b ++ rest)) (length pre) (length pre + length b) ≡ some b
  slice-middle pre b rest =
      let n : length pre + length b - length pre ≡ length b = omega arith in
      let inside : length pre + length b ≤ length (pre ++ (b ++ rest)) =
        omega (arith, length-append pre (b ++ rest), length-append b rest) in
      rw (
        slice_value (pre ++ (b ++ rest)) (length pre) (length pre + length b) (omega arith) inside,
        drop-append_length pre (b ++ rest),
        n,
        take-append_length b rest,
      )

  pub get_elem?-append_length :
      (pre : List A) (a : A) (rest : List A) → get_elem? (pre ++ (a ∷ rest)) (length pre) ≡ some a
  get_elem?-append_length [] a rest = refl
  get_elem?-append_length (x ∷ pre) a rest = get_elem?-append_length pre a rest

-- A predicate on every element, and what lists keep of it.
abbrev pub All {ℓ κ} : {A : Type ℓ} → (A → Type κ) → List A → Type κ
All P [] = Unit
All P (x ∷ l) = P x × All P l

pub All-snoc {ℓ κ} :
    {A : Type ℓ} (P : A → Type κ) (l : List A) (a : A) → All P l → P a → All P (l ++ (a ∷ []))
All-snoc P [] a h p = (p, tt)
All-snoc P (x ∷ l) a (q, h) p = (q, All-snoc P l a h p)

pub All-map {ℓ κ μ} :
    {A : Type ℓ} (P : A → Type κ) (Q : A → Type μ) (l : List A)
    → ((a : A) → P a → Q a)
    → All P l
    → All Q l
All-map P Q [] f h = tt
All-map P Q (x ∷ l) f (p, h) = (f x p, All-map P Q l f h)
