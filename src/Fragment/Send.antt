-- ===== src/Fragment/Send.antt =====
-- `sendRecords` (internal/fragment.go) as its callers use it: with the name's range that
-- `parseClientHello` reports.
use bill_vpn.Common.{
  ℕ, ◌+◌, ◌≤◌, ◌<◌, ◌≡◌, refl, ◌⊎◌, inl, inr, Bool, true, false, not, some, List, [], ap, ◌∙◌, ◌∷◌,
  Bytes, length, drop, set, length-set, if◌then◌else◌, arith, ℤ, pos, negsuc, eqb_ℤ, Returns,
  returns, Returns-bind, Returns-if, Returns-of, Returns-map, get_elem?-some,
}
use bill_vpn.ClientHello.{byte_at}
use bill_vpn.Fragment.{Op, send_multi, send_records}
use bill_vpn.Fragment.Deliver.{
  stream, Delivers, send_single-Returns, send_multi-Returns, send_multi_oob-Returns,
}

-- The message with the minor version byte of its record header set to 4, if that is asked for.
abbrev pub with_minor : Bool → Bytes → Bytes
with_minor mod_minor hello = if mod_minor then set hello 2 4 else hello

pub length-with_minor : (m : Bool) (b : Bytes) → length (with_minor m b) ≡ length b
length-with_minor true b = length-set b 2 4
length-with_minor false b = refl

pub drop-with_minor : (m : Bool) (b : Bytes) → drop 5 (with_minor m b) ≡ drop 5 b
drop-with_minor false b = refl
drop-with_minor true [] = refl
drop-with_minor true (x ∷ []) = refl
drop-with_minor true (x ∷ y ∷ []) = refl
drop-with_minor true (x ∷ y ∷ z ∷ b) = refl

pub minor-Returns :
    (m : Bool) (b : Bytes)
    → 2 < length b
    → Returns (λ _. Unit {0}) (if m then byte_at b 2 else some 0)
unfolding byte_at
minor-Returns true b h = let (x, e) = get_elem?-some b 2 h in Returns-of e tt
minor-Returns false b h = returns tt

-- One record, a positive number of segments, no `oobex`: the call does not panic, and what it puts
-- in band is the message as it came, but for the version byte.
pub send_records_one :
    (hello : Bytes) (n len segments : ℕ) (oob mod_minor : Bool) (interval : ℤ)
    → 5 ≤ n
    → n + len < length hello
    → 0 < segments
    → Returns
        (λ ops. stream ops ≡ with_minor mod_minor hello)
        (send_records hello (pos n) len (pos 1) (pos segments) oob false mod_minor interval)
unfolding send_records
send_records_one hello n len segments oob mod_minor interval low h hs =
    Returns-bind (minor-Returns mod_minor hello (omega arith)) λ _ _.
      let same = length-with_minor mod_minor hello in
      send_single-Returns (with_minor mod_minor hello) n len segments oob interval hs (omega arith)

-- Two records or more, sent as a positive number of segments, or one by one (`segments == -1`)
-- with `oob`, and no `oobex`: the call does not panic, and a reader of the TLS records that it puts
-- in band gets the handshake message, byte for byte, however the pieces fall.
pub send_records_many :
    (hello : Bytes) (n len records : ℕ) (segments : ℤ) (oob mod_minor : Bool) (interval : ℤ)
    → 5 ≤ n
    → n + len < length hello
    → length hello < 65536
    → 2 ≤ records
    → ((s : ℕ) × (segments ≡ pos s) × (0 < s)) ⊎ ((segments ≡ negsuc 0) × (oob ≡ true))
    → Returns
        (Delivers hello)
        (send_records hello (pos n) len (pos records) segments oob false mod_minor interval)
unfolding send_records
send_records_many hello n len records segments oob mod_minor interval low h fits hr cases =
    Returns-bind (minor-Returns mod_minor hello (omega arith)) λ _ _.
      Returns-if (not (eqb_ℤ (pos records) (pos 1))) (λ _. multi cases)
        (λ one. absurd (ground arith))
  where
    b : Bytes
    b = with_minor mod_minor hello

    size : length b ≡ length hello
    size = length-with_minor mod_minor hello

    unread : (ops : List Op) → Delivers b ops → Delivers hello ops
    unread ops d = d ∙ ap some (drop-with_minor mod_minor hello)

    multi :
        ((s : ℕ) × (segments ≡ pos s) × (0 < s)) ⊎ ((segments ≡ negsuc 0) × (oob ≡ true))
        → Returns
            (Delivers hello)
            (send_multi b (pos n) len (pos records) segments oob false interval)
    multi (inl (s, e, hs)) = rw e (
        Returns-map unread (
          send_multi-Returns b n len records interval hr low (omega (arith, size))
            (omega (arith, size)) s oob hs))
    multi (inr (e, f)) =
        rw (e, f)
          (Returns-map unread (
            send_multi_oob-Returns b n len records interval hr low (omega (arith, size))
              (omega (arith, size))))
