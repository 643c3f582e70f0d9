-- ===== src/Pattern/Words.antt =====
-- `expandPattern` (internal/utils.go) lists every choice of a pattern once, in order.
use bill_vpn.Common.{
  ℕ, zero, suc, ◌≤◌, ◌<◌, ◌≡◌, refl, false, ◌||◌, none, some, List, [], ◌∷◌, ◌++◌, append_assoc,
  append-nil, Bytes, length, length-append, All, All-map, ◌==◌, arith, ap, ◌∙◌,
}
use bill_vpn.Route.{has_byte}
use bill_vpn.Pattern.{
  split_loop, split_by_pipe, split_open, split_close, combine, expand, expand_pattern,
}

-- A text without the three special bytes.
abbrev pub IsPlain : Bytes → Type 0
IsPlain s = (has_byte b'(' s ≡ false) × (has_byte b')' s ≡ false) × (has_byte b'|' s ≡ false)

has_byte-append : (c : ℕ) (a b : Bytes) → has_byte c (a ++ b) ≡ has_byte c a || has_byte c b
unfolding has_byte
has_byte-append c [] b = refl
has_byte-append c (x ∷ a) b = ground (arith, has_byte-append c a b)

-- The text of a choice: the alternatives with `|` between.
abbrev pub join : Bytes → List Bytes → Bytes
join first [] = first
join first (next ∷ rest) = first ++ (b'|' ∷ join next rest)

-- A literal text and a choice in brackets behind it.
pub record Piece : Type 0 where
  pub literal : Bytes
  pub first : Bytes
  pub others : List Bytes

abbrev pub IsPiece : Piece → Type 0
IsPiece p = (has_byte b'(' p.literal ≡ false) × IsPlain p.first × All IsPlain p.others

-- The text of a pattern: pieces, and a choice without brackets at the end.
unfoldable pub render : List Piece → Bytes → List Bytes → Bytes
render [] first others = join first others
render (p ∷ ps) first others =
    p.literal ++ (b'(' ∷ (join p.first p.others ++ (b')' ∷ render ps first others)))

-- Its words: for each piece the literal and an alternative, the alternatives of the first piece
-- varying last.
unfoldable pub words : List Piece → Bytes → List Bytes → List Bytes
unfolding combine
words [] first others = first ∷ others
words (p ∷ ps) first others = combine p.literal (p.first ∷ p.others) (words ps first others)

split_loop-plain :
    (curr w s : Bytes)
    → has_byte b'|' w ≡ false
    → split_loop curr (w ++ s) ≡ split_loop (curr ++ w) s
unfolding split_loop has_byte
split_loop-plain curr [] s h = rw (append-nil curr)
split_loop-plain curr (c ∷ w) s h =
    let e : (c == b'|') ≡ false = ground (arith, h) in
    let k : has_byte b'|' w ≡ false = ground (arith, h) in
    rw (e, split_loop-plain (curr ++ (c ∷ [])) w s k, append_assoc curr (c ∷ []) w) refl

split_loop-join :
    (first : Bytes) (others : List Bytes)
    → IsPlain first
    → All IsPlain others
    → split_loop [] (join first others) ≡ first ∷ others
unfolding split_loop
split_loop-join first [] (_, _, h) k =
    let e = split_loop-plain [] first [] h in rw (append-nil first) at e
split_loop-join first (next ∷ rest) (_, _, h) (k, ks) =
    split_loop-plain [] first (b'|' ∷ join next rest) h
    ∙ ap (◌∷◌ first) (split_loop-join next rest k ks)

split_open-plain :
    (a s : Bytes) → has_byte b'(' a ≡ false → split_open (a ++ (b'(' ∷ s)) ≡ some (a, s)
unfolding split_open has_byte
split_open-plain [] s h = refl
split_open-plain (c ∷ a) s h =
    let e : (c == b'(') ≡ false = ground (arith, h) in
    rw (e, split_open-plain a s (ground (arith, h))) refl

split_open-none : (a : Bytes) → has_byte b'(' a ≡ false → split_open a ≡ none
unfolding split_open has_byte
split_open-none [] h = refl
split_open-none (c ∷ a) h =
    let e : (c == b'(') ≡ false = ground (arith, h) in
    rw (e, split_open-none a (ground (arith, h))) refl

split_close-plain :
    (a s : Bytes)
    → has_byte b'(' a ≡ false
    → has_byte b')' a ≡ false
    → split_close 1 (a ++ (b')' ∷ s)) ≡ some (a, s)
unfolding split_close has_byte
split_close-plain [] s h k = refl
split_close-plain (c ∷ a) s h k =
    let e : (c == b'(') ≡ false = ground (arith, h) in
    let f : (c == b')') ≡ false = ground (arith, k) in
    rw (e, f, split_close-plain a s (ground (arith, h)) (ground (arith, k))) refl

join_none :
    (b : ℕ) (first : Bytes) (others : List Bytes)
    → (b == b'|') ≡ false
    → has_byte b first ≡ false
    → All (λ (w : Bytes). has_byte b w ≡ false) others
    → has_byte b (join first others) ≡ false
unfolding has_byte
join_none b first [] n h k = h
join_none b first (next ∷ rest) n h (k, ks) =
    let ih = join_none b next rest n k ks in
    rw (has_byte-append b first (b'|' ∷ join next rest), h, n, ih)

split_by_pipe-join :
    (first : Bytes) (others : List Bytes)
    → IsPlain first
    → All IsPlain others
    → split_by_pipe (join first others) ≡ first ∷ others
unfolding split_by_pipe
split_by_pipe-join first others h k = looped (join first others) ∙ split_loop-join first others h k
  where
    looped : (s : Bytes) → split_by_pipe s ≡ split_loop [] s
    looped [] = refl
    looped (c ∷ s) = refl

no_open :
    (others : List Bytes) → All IsPlain others → All (λ (w : Bytes). has_byte b'(' w ≡ false) others
no_open others h = All-map IsPlain _ others (λ w k. k.0) h

no_close :
    (others : List Bytes) → All IsPlain others → All (λ (w : Bytes). has_byte b')' w ≡ false) others
no_close others h = All-map IsPlain _ others (λ w k. k.1) h

expand-render :
    (fuel : ℕ) (ps : List Piece) (first : Bytes) (others : List Bytes)
    → length ps < fuel
    → All IsPiece ps
    → IsPlain first
    → All IsPlain others
    → expand fuel (render ps first others) ≡ some (words ps first others)
unfolding expand render words
expand-render zero ps first others h pieces plain rest = absurd (omega arith)
expand-render (suc fuel) [] first others h pieces plain rest = rw (
  expand,
  split_open-none (join first others)
      (join_none b'(' first others refl plain.0 (no_open others rest)),
  split_by_pipe-join first others plain rest,
)
expand-render (suc fuel) (p ∷ ps) first others h ((literal, one, more), pieces) plain rest =
    let choice = join p.first p.others in
    let after = render ps first others in
    rw (
      expand,
      split_open-plain p.literal (choice ++ (b')' ∷ after)) literal,
      split_close-plain choice after
          (join_none b'(' p.first p.others refl one.0 (no_open p.others more))
          (join_none b')' p.first p.others refl one.1 (no_close p.others more)),
      expand-render fuel ps first others (omega arith) pieces plain rest,
      split_by_pipe-join p.first p.others one more,
    )

length-render :
    (ps : List Piece) (first : Bytes) (others : List Bytes)
    → length ps ≤ length (render ps first others)
unfolding render
length-render [] first others = omega arith
length-render (p ∷ ps) first others =
    let after = render ps first others in
    let choice = join p.first p.others in
    omega (
      arith,
      length-render ps first others,
      length-append p.literal (b'(' ∷ (choice ++ (b')' ∷ after))),
      length-append choice (b')' ∷ after),
    )

-- A pattern of pieces, each a literal without an opening bracket and a choice in brackets, with a
-- choice without brackets at its end, where the alternatives hold none of the bytes `(`, `)` and
-- `|`: `expandPattern` returns, and returns exactly its words, in order.
pub expand_pattern-render :
    (ps : List Piece) (first : Bytes) (others : List Bytes)
    → All IsPiece ps
    → IsPlain first
    → All IsPlain others
    → expand_pattern (render ps first others) ≡ some (words ps first others)
unfolding expand_pattern
expand_pattern-render ps first others =
    expand-render (suc (length (render ps first others))) ps first others
      (omega (arith, length-render ps first others))
