-- ===== src/Fragment/Deliver.antt =====
-- What `sendRecords` (internal/fragment.go) puts on the connection, on every path.
use mathlib.Core.List.{flatten}
use bill_vpn.Common.{
  ℕ, suc, ◌+◌, ◌-◌, ◌/◌, ◌≤◌, ◌<◌, ◌≡◌, refl, Bool, true, false, not, ◌&&◌, ◌||◌, some, List, [],
  ◌∷◌, ◌++◌, Bytes, length, take, drop, slice, slice_value, take_of_length-le, append_assoc,
  append-nil, take-append-drop, length-take, length-drop, drop-drop, ◌==◌, arith, ℤ, pos, negsuc,
  ltb_ℤ, eqb_ℤ, pos--ℤ, Returns, returns, Returns-if, Returns-bind, Returns-map, Returns-of,
  Bool-cases, inl, inr,
}
use bill_vpn.Fragment.{
  Op, write, send_with_oob, sleep, pause, half_ℤ, cut_at, send_each, send_single, send_chunks,
  send_first, segment_loop, send_merged, send_multi, record_chunks,
}
use bill_vpn.Fragment.Dot.{CutIn, find_last_dot-Returns}
use bill_vpn.Fragment.Split.{
  flatten-append, flatten-split_and_append, flatten-parts_all, read_records,
  read_records-split_and_append,
}

-- The bytes that the operations put in band, urgent bytes left out.
unfoldable pub stream : List Op → Bytes
stream [] = []
stream (write p ∷ os) = p ++ stream os
stream (send_with_oob p c ∷ os) = p ++ stream os
stream (sleep ∷ os) = stream os

stream-append : (xs ys : List Op) → stream (xs ++ ys) ≡ stream xs ++ stream ys
unfolding stream
stream-append [] ys = refl
stream-append (write p ∷ os) ys = simp (stream-append os ys, append_assoc)
stream-append (send_with_oob p c ∷ os) ys = simp (stream-append os ys, append_assoc)
stream-append (sleep ∷ os) ys = stream-append os ys

pub stream-pause : (interval : ℤ) (ys : List Op) → stream (pause interval ++ ys) ≡ stream ys
unfolding stream pause
stream-pause interval ys = elim (Bool-cases (ltb_ℤ (pos 0) interval)) [
  | inl e ↦ rw e
  | inr e ↦ rw e
]

stream-send_each :
    (oob : Bool) (interval : ℤ) (ps : List Bytes) → stream (send_each oob interval ps) ≡ flatten ps
unfolding stream send_each flatten
stream-send_each oob interval [] = refl
stream-send_each true interval (p ∷ ps) =
    rw (stream-pause interval (send_each false interval ps), stream-send_each false interval ps)
stream-send_each false interval (p ∷ ps) =
    rw (stream-pause interval (send_each false interval ps), stream-send_each false interval ps)

-- The two ends of data that is cut in two.
abbrev pub Cuts : Bytes → ℕ → ℕ → Bytes × Bytes → Type 0
Cuts d a n r =
    (r.0 ++ r.1 ≡ drop a d)
    × (length r.0 ≤ length d)
    × (length r.1 ≤ length d)
    × (n ≤ length r.0 + a)

take-drop : (d : Bytes) (a c : ℕ) → a ≤ c → take (c - a) (drop a d) ++ drop c d ≡ drop a d
take-drop d a c le =
    let e : a + (c - a) ≡ c = omega arith in
    let whole = take-append-drop (c - a) (drop a d) in rw (drop-drop (c - a) a d, e) at whole

cut_at-Returns :
    (d : Bytes) (a c n : ℕ)
    → a ≤ c
    → c ≤ length d
    → n ≤ c
    → Returns (Cuts d a n) (cut_at d a (pos c))
unfolding cut_at
cut_at-Returns d a c n le fits low =
    let tail : take (length d - c) (drop c d) ≡ drop c d =
      take_of_length-le _ _ (omega (arith, length-drop c d)) in
    Returns-of {a = (take (c - a) (drop a d), drop c d)}
      (rw (slice_value d a c le fits, slice_value d c (length d) fits (omega arith), tail))
      (
        take-drop d a c le,
        omega (arith, length-take (c - a) (drop a d), length-drop a d),
        omega (arith, length-drop c d),
        omega (arith, length-take (c - a) (drop a d), length-drop a d),
      )

pub cut_name :
    (d : Bytes) (a n len : ℕ) (at : ℤ × Bool)
    → a ≤ n
    → n + len ≤ length d
    → CutIn n len at
    → Returns (Cuts d a n) (cut_at d a at.0)
cut_name d a n len at low fits (c, e, ge, le) =
    rw e (cut_at-Returns d a c n (omega arith) (omega arith) ge)

-- What a sender without the urgent-byte trick must put in band for the single-record path.
pub send_single-Returns :
    (b : Bytes) (n len : ℕ) (segments : ℕ) (oob : Bool) (interval : ℤ)
    → 0 < segments
    → n + len < length b
    → Returns (λ ops. stream ops ≡ b) (send_single b (pos n) len (pos segments) oob interval)
unfolding send_single stream half_ℤ
send_single-Returns b n len segments oob interval hs h =
    Returns-if (eqb_ℤ (pos segments) (pos 1)) (λ _. returns (append-nil b))
      λ many.
        let two : 2 ≤ segments = ground arith in
        let m = segments / 2 in
        let k = segments - segments / 2 in
        Returns-bind (find_last_dot-Returns b n len h) λ at q.
          Returns-bind (cut_name b 0 n len at (omega arith) (omega arith) q)
            λ (l, r) (whole, _, _, _). returns (
              rw
                (
                  stream-send_each oob interval _,
                  pos--ℤ segments m (omega arith),
                  flatten-append,
                  flatten-split_and_append l m (omega arith),
                  flatten-split_and_append r k (omega arith),
                )
                whole)

segment_loop-Returns :
    (rest : Bytes) (n : ℕ) (oob : Bool) (interval : ℤ)
    → 0 < n
    → Returns (λ ops. stream ops ≡ rest) (segment_loop rest (pos n) oob interval)
unfolding segment_loop
segment_loop-Returns rest n oob interval h =
    Returns-if (n == 0) (λ e. absurd (ground arith))
      λ _.
        returns
          (rw (stream-send_each oob interval _) (flatten-parts_all rest (length rest / n) n h))

send_merged-Returns :
    (merged : Bytes) (n : ℕ) (oob : Bool) (interval : ℤ)
    → 0 < n
    → Returns (λ ops. stream ops ≡ merged) (send_merged merged (pos n) oob false interval)
unfolding send_merged stream
send_merged-Returns merged n oob interval h =
    Returns-if (eqb_ℤ (pos n) (pos 1) || not (ltb_ℤ (pos n) (pos (length merged))))
      (λ _. returns (append-nil merged))
      λ _. Returns-bind (segment_loop-Returns merged n oob interval h) λ ops e. returns e

-- One send for each record, the first with an urgent byte behind it.
send_chunks-Returns :
    (interval : ℤ) (i : ℕ) (cs : List Bytes)
    → Returns (λ ops. stream ops ≡ flatten cs) (send_chunks true false interval i cs)
unfolding send_chunks send_first stream flatten
send_chunks-Returns interval i [] = returns refl
send_chunks-Returns interval i (c ∷ cs) =
    Returns-bind (send_chunks-Returns interval (i + 1) cs) λ rest e.
      Returns-if (i == 0) (λ _. returns (rw (stream-pause interval rest, e)))
        λ _.
          Returns-if (i == 1 && false) (λ _. returns (rw e))
            λ _. returns (rw (stream-pause interval rest, e))

-- The handshake bytes behind the first record header, as a reader of the records gets them.
abbrev pub Delivers : Bytes → List Op → Type 0
Delivers b ops = read_records (suc (length (stream ops))) (stream ops) ≡ some (drop 5 b)

chunks-Delivers :
    (b h : Bytes) (n : ℕ) (lr : Bytes × Bytes) (records : ℕ) (ops : List Op)
    → 2 ≤ records
    → length b < 65536
    → length h ≡ 3
    → Cuts b 5 n lr
    → stream ops ≡ flatten (record_chunks h lr (pos records))
    → Delivers b ops
unfolding record_chunks half_ℤ
chunks-Delivers b h n (l, r) records ops hr fits hh (whole, hl, hr', _) e =
    let left = records / 2 in
    let right = records - records / 2 in
    rw (e, ← whole, pos--ℤ records left (omega arith))
      (read_records-split_and_append h l r left right hh (omega arith) (omega arith) (omega arith)
        (omega arith))

pub header-Returns : (b : Bytes) → 3 ≤ length b → Returns (λ h. length h ≡ 3) (slice b 0 3)
header-Returns b h = Returns-of (slice_value b 0 3 (omega arith) h) (omega (arith, length-take 3 b))

module _ (b : Bytes) (n len records : ℕ) (interval : ℤ) (hr : 2 ≤ records) (low : 5 ≤ n)
    (h : n + len < length b) (fits : length b < 65536) where
  -- The two ways to send the records that keep them all: cut anew into a positive number of
  -- segments, or one by one with an urgent byte.
  pub send_multi-Returns :
      (segments : ℕ) (oob : Bool)
      → 0 < segments
      → Returns
          (Delivers b)
          (send_multi b (pos n) len (pos records) (pos segments) oob false interval)
  unfolding send_multi
  send_multi-Returns segments oob hs = Returns-bind (find_last_dot-Returns b n len h) λ at q.
      Returns-bind (header-Returns b (omega arith)) λ header hh.
        Returns-bind (cut_name b 5 n len at low (omega arith) q) λ lr cuts.
          Returns-map (λ ops. chunks-Delivers b header n lr records ops hr fits hh cuts)
            (send_merged-Returns _ segments oob interval hs)

  pub send_multi_oob-Returns :
      Returns (Delivers b) (send_multi b (pos n) len (pos records) (negsuc 0) true false interval)
  unfolding send_multi
  send_multi_oob-Returns = Returns-bind (find_last_dot-Returns b n len h) λ at q.
      Returns-bind (header-Returns b (omega arith)) λ header hh.
        Returns-bind (cut_name b 5 n len at low (omega arith) q) λ lr cuts.
          Returns-map (λ ops. chunks-Delivers b header n lr records ops hr fits hh cuts)
            (send_chunks-Returns interval 0 _)
