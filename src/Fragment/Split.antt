-- ===== src/Fragment/Split.antt =====
-- What `splitAndAppend` and `makeRecord` (internal/fragment.go) produce: the pieces spell the
-- data, and a reader of TLS records gets the payloads back.
use mathlib.Core.List.{flatten}
use bill_vpn.Common.{
  ℕ, zero, suc, ◌+◌, ◌-◌, ◌*◌, ◌/◌, ◌<◌, ◌≡◌, refl, ap, ◌∙◌, ◌||◌, Option, none, some, List, [],
  ◌∷◌, ◌++◌, Bytes, length, take, drop, drop-drop, take-append-drop, take-append_length,
  drop-append_length, ◌%◌, append-nil, append_assoc, arith, pos, ◌>>=◌, slice, ◌==◌, ltb,
  length-append, Bool-cases, inl, inr, length-drop, length-take, ◌≤◌,
}
use native.Mathlib.Nat.{zero-mul}
use bill_vpn.ClientHello.{byte_at, u16_at}
use bill_vpn.Fragment.{make_record, parts, pieces, add_header, split_and_append}

parts_last :
    (d : Bytes) (base i : ℕ) {n : ℕ} → i + 1 ≡ n → parts d base n i 1 ≡ drop (i * base) d ∷ []
unfolding parts
parts_last d base i e = ground arith

pub parts_step :
    (d : Bytes) (base n i left : ℕ)
    → i + 1 < n
    → parts d base n i (suc left) ≡ take base (drop (i * base) d) ∷ parts d base n (i + 1) left
unfolding parts
parts_step d base n i left h = ground arith

-- The parts of the loop, from part `i` on, spell the data from there on.
flatten-parts :
    (d : Bytes) (base n i left : ℕ)
    → i + suc left ≡ n
    → flatten (parts d base n i (suc left)) ≡ drop (i * base) d
unfolding flatten
flatten-parts d base n i zero e = rw (parts_last d base i e) (append-nil _)
flatten-parts d base n i (suc left) e =
    let ih = flatten-parts d base n (i + 1) left (omega arith) in
    let shift : drop ((i + 1) * base) d ≡ drop base (drop (i * base) d) =
      rw (drop-drop base (i * base) d) (ap (λ k. drop k d) (grind arith)) in
    rw (parts_step d base n i (suc left) (omega arith), ih, shift)
      (take-append-drop base (drop (i * base) d))

pub flatten-parts_all : (d : Bytes) (base n : ℕ) → 0 < n → flatten (parts d base n 0 n) ≡ d
flatten-parts_all d base zero h = absurd (omega arith)
flatten-parts_all d base (suc n) h =
    flatten-parts d base (suc n) 0 n (omega arith) ∙ ap (λ k. drop k d) (zero-mul base)

pub flatten-pieces : (d : Bytes) (n : ℕ) → 0 < n → flatten (pieces d n) ≡ d
unfolding pieces flatten
flatten-pieces d n h = elim (Bool-cases (n == 1 || ltb (length d) n)) [
  | inl one ↦ rw one (append-nil d)
  | inr more ↦ rw more (flatten-parts_all d (length d / n) n h)
]

pub split_pos :
    (d : Bytes) (h : Option Bytes) (n : ℕ)
    → 0 < n
    → split_and_append d h (pos n) ≡ add_header h (pieces d n)
unfolding split_and_append
split_pos d h n p = ground arith

-- With no header the pieces spell the data, if at least one is asked for.
pub flatten-split_and_append :
    (d : Bytes) (n : ℕ) → 0 < n → flatten (split_and_append d none (pos n)) ≡ d
unfolding add_header
flatten-split_and_append d n h = rw (split_pos d none n h) (flatten-pieces d n h)

-- A reader of TLS records: the payloads of the records that the stream consists of.
unfoldable pub read_records : ℕ → Bytes → Option Bytes
read_records zero s = none
read_records (suc fuel) [] = some []
read_records (suc fuel) (x ∷ s) = do
  len ← u16_at (x ∷ s) 3
  payload ← slice (x ∷ s) 5 (5 + len)
  rest ← read_records fuel (drop (5 + len) (x ∷ s))
  some (payload ++ rest)

-- A slice that starts behind five bytes and takes what follows them.
slice_payload :
    (a b c d e n : ℕ) (p s : Bytes)
    → n ≡ length p
    → slice (a ∷ b ∷ c ∷ d ∷ e ∷ p ++ s) 5 (5 + n) ≡ some p
slice_payload a b c d e n p s h =
    let same : 5 + n - 5 ≡ length p = omega arith in
    rw same (ground (arith, length-append p s, take-append_length p s))

drop_payload :
    (a b c d e n : ℕ) (p s : Bytes) → n ≡ length p → drop (5 + n) (a ∷ b ∷ c ∷ d ∷ e ∷ p ++ s) ≡ s
drop_payload a b c d e n p s h =
    let same : 5 + n ≡ suc (suc (suc (suc (suc (length p))))) = omega arith in
    rw same (drop-append_length p s)

read_records-make_record :
    (fuel : ℕ) (a b c : ℕ) (p s : Bytes) {r : Bytes}
    → length p < 65536
    → read_records fuel s ≡ some r
    → read_records (suc fuel) (make_record (a ∷ b ∷ c ∷ []) p ++ s) ≡ some (p ++ r)
unfolding read_records make_record u16_at byte_at
read_records-make_record fuel a b c p s {r} h e =
    let hi = length p % 65536 / 256 in
    let lo = length p % 256 in
    let value : hi * 256 + lo ≡ length p = omega arith in
    rw (
      slice_payload a b c hi lo (hi * 256 + lo) p s value,
      drop_payload a b c hi lo (hi * 256 + lo) p s value,
      e,
    )

-- Every payload fits the length field of a record.
abbrev pub AllShort : List Bytes → Type 0
AllShort [] = Unit
AllShort (p ∷ ps) = (length p < 65536) × AllShort ps

-- A reader of the records that the header was put on gets the data back.
pub read_records-add_header :
    (fuel a b c : ℕ) (ps : List Bytes)
    → length ps < fuel
    → AllShort ps
    → read_records fuel (flatten (add_header (some (a ∷ b ∷ c ∷ [])) ps)) ≡ some (flatten ps)
unfolding add_header flatten
read_records-add_header zero a b c ps h short = absurd (omega arith)
read_records-add_header (suc fuel) a b c [] h short = unfold read_records in refl
read_records-add_header (suc fuel) a b c (p ∷ ps) h short =
    read_records-make_record fuel a b c p _ short.0
      (read_records-add_header fuel a b c ps (omega arith) short.1)

pub add_header-append :
    (h : Bytes) (ps qs : List Bytes)
    → add_header (some h) (ps ++ qs) ≡ add_header (some h) ps ++ add_header (some h) qs
unfolding add_header
add_header-append h [] qs = refl
add_header-append h (p ∷ ps) qs = rw (add_header-append h ps qs)

pub AllShort-append : (ps qs : List Bytes) → AllShort ps → AllShort qs → AllShort (ps ++ qs)
AllShort-append [] qs hp hq = hq
AllShort-append (p ∷ ps) qs hp hq = (hp.0, AllShort-append ps qs hp.1 hq)

parts-AllShort :
    (d : Bytes) (base n i left : ℕ) → length d < 65536 → AllShort (parts d base n i left)
unfolding parts
parts-AllShort d base n i zero h = tt
parts-AllShort d base n i (suc left) h = (
  ground (arith, length-drop (i * base) d, length-take base (drop (i * base) d)),
  parts-AllShort d base n (i + 1) left h,
)

pub pieces-AllShort : (d : Bytes) (n : ℕ) → length d < 65536 → AllShort (pieces d n)
unfolding pieces
pieces-AllShort d n h = elim (Bool-cases (n == 1 || ltb (length d) n)) [
  | inl one ↦ rw one (h, tt)
  | inr more ↦ rw more (parts-AllShort d _ n 0 n h)
]

pub length-add_header :
    (h : Bytes) (ps : List Bytes) → length ps ≤ length (flatten (add_header (some h) ps))
unfolding add_header flatten make_record
length-add_header h [] = omega arith
length-add_header h (p ∷ ps) = omega (
  arith,
  length-add_header h ps,
  length-append (make_record h p) (flatten (add_header (some h) ps)),
  length-append (take 3 (h ++ 0 ∷ 0 ∷ 0 ∷ [])) ((length p % 65536 / 256) ∷ (length p % 256) ∷ p),
)

pub flatten-append : (ps qs : List Bytes) → flatten (ps ++ qs) ≡ flatten ps ++ flatten qs
unfolding flatten
flatten-append [] qs = refl
flatten-append (p ∷ ps) qs = simp (flatten-append ps, append_assoc)

read_records-split :
    (a b c : ℕ) (l r : Bytes) (m n : ℕ)
    → 0 < m
    → 0 < n
    → length l < 65536
    → length r < 65536
    → let h = some (a ∷ b ∷ c ∷ []) in
      let stream = flatten (split_and_append l h (pos m) ++ split_and_append r h (pos n)) in
      read_records (suc (length stream)) stream ≡ some (l ++ r)
read_records-split a b c l r m n hm hn hl hr =
    let h = a ∷ b ∷ c ∷ [] in
    let ps = pieces l m ++ pieces r n in
    let fuel = length-add_header h ps in
    let short = AllShort-append _ _ (pieces-AllShort l m hl) (pieces-AllShort r n hr) in
    let spells : flatten ps ≡ l ++ r =
      rw (flatten-append, flatten-pieces l m hm, flatten-pieces r n hn) in
    rw (split_pos l (some h) m hm, split_pos r (some h) n hn, ← add_header-append h, ← spells)
      (read_records-add_header (suc (length (flatten (add_header (some h) ps)))) a b c ps
        (omega (arith, fuel)) short)

-- The two calls of `splitAndAppend` with a header: a reader of the resulting records gets the two
-- halves of the data back, in their order, whatever the numbers of pieces are.
pub read_records-split_and_append :
    (h l r : Bytes) (m n : ℕ)
    → length h ≡ 3
    → 0 < m
    → 0 < n
    → length l < 65536
    → length r < 65536
    → let stream =
        flatten (split_and_append l (some h) (pos m) ++ split_and_append r (some h) (pos n)) in
      read_records (suc (length stream)) stream ≡ some (l ++ r)
read_records-split_and_append (a ∷ b ∷ c ∷ []) l r m n e = read_records-split a b c l r m n
read_records-split_and_append h l r m n e = absurd (omega arith)
