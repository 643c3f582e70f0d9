-- ===== src/Fragment/Lost.antt =====
-- The settings of `sendRecords` (internal/fragment.go) under which the message does not arrive:
-- counts that were never set, and one send for each record without an urgent byte.
use mathlib.Core.List.{flatten}
use bill_vpn.Common.{
  ℕ, zero, suc, ◌+◌, ◌-◌, ◌*◌, ◌/◌, ◌≤◌, ◌<◌, ◌≡◌, refl, sym, ◌∙◌, Bool, false, not, some, List, [],
  ◌∷◌, ◌++◌, Bytes, length, drop, arith, ℤ, pos, negsuc, eqb_ℤ, ◌-ℤ◌, pos--ℤ, Returns, returns,
  Returns-bind, Returns-if, ◌==◌, ◌&&◌, ltb, ◌||◌, Bool-cases, inl, inr, Returns-map, append_assoc,
  take, length-take, length-drop,
}
use bill_vpn.Fragment.{
  Op, half_ℤ, pieces, parts, add_header, make_record, split_and_append, record_chunks, send_first,
  send_chunks, send_merged, send_multi, send_records,
}
use bill_vpn.Fragment.Deliver.{stream, stream-pause, header-Returns, cut_name}
use bill_vpn.Fragment.Dot.{find_last_dot-Returns}
use bill_vpn.Fragment.Send.{with_minor, length-with_minor, drop-with_minor, minor-Returns}
use bill_vpn.Fragment.Split.{
  flatten-append, flatten-pieces, pieces-AllShort, AllShort-append, read_records,
  read_records-add_header, split_pos, parts_step, add_header-append, length-add_header, AllShort,
}

-- The first piece holds a byte of the data.
pieces_first :
    (d : Bytes) (n : ℕ)
    → 0 < n
    → 0 < length d
    → (p : Bytes) × (ps : List Bytes) × (pieces d n ≡ p ∷ ps) × (0 < length p)
unfolding pieces
pieces_first d zero hn hd = absurd (omega arith)
pieces_first d (suc n) hn hd = elim (Bool-cases (suc n == 1 || ltb (length d) (suc n))) [
  | inl one ↦ (d, [], rw one, hd)
  | inr more ↦
      let base = length d / suc n in
      let some_base : 1 ≤ base = ground arith in
      let zeroth : 0 * base ≡ 0 = omega arith in
      let first = take base (drop (0 * base) d) in
      (
        first,
        parts d base (suc n) 1 n,
        rw more (parts_step d base (suc n) 0 n (ground arith)),
        omega (arith, length-take base (drop (0 * base) d), length-drop (0 * base) d),
      )
]

-- The loop over the chunks with neither `oob` nor `oobex` sends every chunk but the first.
send_chunks_plain :
    (interval : ℤ) (i : ℕ) (cs : List Bytes)
    → 0 < i
    → Returns (λ ops. stream ops ≡ flatten cs) (send_chunks false false interval i cs)
unfolding send_chunks stream flatten
send_chunks_plain interval i [] h = returns refl
send_chunks_plain interval i (c ∷ cs) h =
    Returns-bind (send_chunks_plain interval (i + 1) cs (omega arith)) λ rest e.
      Returns-if (i == 0) (λ z. absurd (ground arith))
        λ _.
          Returns-if (i == 1 && false) (λ f. absurd (ground arith))
            λ _. returns (rw (stream-pause interval rest, e))

send_chunks_first :
    (interval : ℤ) (c : Bytes) (cs : List Bytes)
    → Returns (λ ops. stream ops ≡ flatten cs) (send_chunks false false interval 0 (c ∷ cs))
unfolding send_chunks send_first
send_chunks_first interval c cs =
    Returns-bind (send_chunks_plain interval 1 cs (omega arith)) λ rest e. returns e

-- A reader gets only what follows a first piece that holds a byte.
abbrev pub Loses : Bytes → List Op → Type 0
Loses b ops =
    (p r : Bytes) × (read_records (suc (length (stream ops))) (stream ops) ≡ some r)
    × (p ++ r ≡ drop 5 b)
    × (0 < length p)

-- A reader gets the pieces behind the first from the records behind the first.
Loses-chunks :
    (b h : Bytes) (p : Bytes) (ps : List Bytes) (interval : ℤ)
    → length h ≡ 3
    → AllShort ps
    → p ++ flatten ps ≡ drop 5 b
    → 0 < length p
    → Returns (Loses b) (send_chunks false false interval 0 (add_header (some h) (p ∷ ps)))
unfolding add_header
Loses-chunks b (x ∷ y ∷ z ∷ []) p ps interval e short whole some_byte =
    let h = x ∷ y ∷ z ∷ [] in
    let records = flatten (add_header (some h) ps) in
    let enough : length ps < suc (length records) = omega (arith, length-add_header h ps) in
    let read = read_records-add_header (suc (length records)) x y z ps enough short in
    Returns-map (λ ops sent. (p, flatten ps, rw sent read, whole, some_byte))
      (send_chunks_first interval (make_record h p) (add_header (some h) ps))
Loses-chunks b h p ps interval e short whole some_byte = absurd (omega arith)

record_chunks-pos :
    (h : Bytes) (lr : Bytes × Bytes) (records : ℕ)
    → 2 ≤ records
    → record_chunks h lr (pos records)
      ≡ add_header (some h) (pieces lr.0 (records / 2) ++ pieces lr.1 (records - records / 2))
unfolding record_chunks half_ℤ
record_chunks-pos h lr records hr =
    let m = records / 2 in
    let k = records - m in
    rw (
      pos--ℤ records m (omega arith),
      split_pos lr.0 (some h) m (omega arith),
      split_pos lr.1 (some h) k (omega arith),
      add_header-append h,
    )

Loses-cuts :
    (b h l r : Bytes) (m k : ℕ) (interval : ℤ)
    → length h ≡ 3
    → length b < 65536
    → l ++ r ≡ drop 5 b
    → length l ≤ length b
    → length r ≤ length b
    → 0 < length l
    → 0 < m
    → 0 < k
    → Returns
        (Loses b)
        (send_chunks false false interval 0 (add_header (some h) (pieces l m ++ pieces r k)))
unfolding flatten
Loses-cuts b h l r m k interval hh fits whole hl hr some_l hm hk =
    from (pieces_first l m hm some_l) (pieces-AllShort l m (omega arith)) (flatten-pieces l m hm)
  where
    from :
        (p : Bytes) × (ps : List Bytes) × (pieces l m ≡ p ∷ ps) × (0 < length p)
        → AllShort (pieces l m)
        → flatten (pieces l m) ≡ l
        → Returns
            (Loses b)
            (send_chunks false false interval 0 (add_header (some h) (pieces l m ++ pieces r k)))
    from (p, ps, e, some_byte) short spells =
        let short' = (rw e at short).1 in
        let spells' : p ++ flatten ps ≡ l = rw e at spells in
        let all : p ++ flatten (ps ++ pieces r k) ≡ drop 5 b =
          rw (flatten-append, ← whole, ← spells', flatten-pieces r k hk)
            (sym (append_assoc p _ _)) in
        rw e (
          Loses-chunks b h p (ps ++ pieces r k) interval hh
            (AllShort-append _ _ short' (pieces-AllShort r k (omega arith))) all some_byte)

module _ (b : Bytes) (n len records : ℕ) (interval : ℤ) (hr : 2 ≤ records) (low : 5 < n)
    (h : n + len < length b) (fits : length b < 65536) where
  send_multi-Loses :
      Returns (Loses b) (send_multi b (pos n) len (pos records) (negsuc 0) false false interval)
  unfolding send_multi
  send_multi-Loses = Returns-bind (find_last_dot-Returns b n len h) λ at q.
      Returns-bind (header-Returns b (omega arith)) λ header hh.
        Returns-bind (cut_name b 5 n len at (omega arith) (omega arith) q) λ lr cuts.
          let (whole, hl, hr', long) = cuts in
          rw (record_chunks-pos header lr records hr) (
            Loses-cuts b header lr.0 lr.1 (records / 2) (records - records / 2) interval hh fits
              whole hl hr' (omega arith) (omega arith) (omega arith))

-- With `segments == -1` and neither `oob` nor `oobex` the first record is never written: the call
-- does not panic and reports no error, and a reader of the records gets a proper end of the
-- handshake message only.
pub send_records_drops_first :
    (hello : Bytes) (n len records : ℕ) (mod_minor : Bool) (interval : ℤ)
    → 5 < n
    → n + len < length hello
    → length hello < 65536
    → 2 ≤ records
    → Returns
        (Loses hello)
        (send_records hello (pos n) len (pos records) (negsuc 0) false false mod_minor interval)
unfolding send_records
send_records_drops_first hello n len records mod_minor interval low h fits hr =
    let b = with_minor mod_minor hello in
    let size : length b ≡ length hello = length-with_minor mod_minor hello in
    Returns-bind (minor-Returns mod_minor hello (omega arith)) λ _ _.
      Returns-if (not (eqb_ℤ (pos records) (pos 1)))
        (λ _.
          Returns-map
            (λ ops (p, r, e, whole, some_byte).
              (p, r, e, whole ∙ drop-with_minor mod_minor hello, some_byte))
            (send_multi-Loses b n len records interval hr low (omega arith) (omega arith)))
        (λ one. absurd (ground arith))

-- With the counts of records and segments both unset (0) the call panics on no input of its
-- callers and reports no error, and what it writes holds no byte of the message.
pub send_records_unset :
    (hello : Bytes) (n len : ℕ) (oob mod_minor : Bool) (interval : ℤ)
    → 5 ≤ n
    → n + len < length hello
    → Returns
        (λ ops. stream ops ≡ [])
        (send_records hello (pos n) len (pos 0) (pos 0) oob false mod_minor interval)
unfolding send_records send_multi record_chunks half_ℤ split_and_append send_merged stream flatten
    ◌-ℤ◌
send_records_unset hello n len oob mod_minor interval low h =
    let b = with_minor mod_minor hello in
    let size : length b ≡ length hello = length-with_minor mod_minor hello in
    Returns-bind (minor-Returns mod_minor hello (omega arith)) λ _ _.
      Returns-bind (find_last_dot-Returns b n len (omega arith)) λ at q.
        Returns-bind (header-Returns b (omega arith)) λ header hh.
          Returns-bind (cut_name b 5 n len at low (omega arith) q) λ lr cuts. returns refl
