-- ===== src/Fragment/Tests.antt =====
-- The theorems on `sendRecords` of internal/fragment.go and `findLastDot` of internal/utils.go at
-- small inputs.
use bill_vpn.Common.{
  ℕ, ◌+◌, ◌≡◌, ◌↔◌, none, length, refl, inl, true, false, [], ◌∷◌, Bytes, arith, pos, negsuc,
  Returns,
}
use bill_vpn.Fragment.{send_records, find_last_dot}
use bill_vpn.Fragment.Dot.{find_last_dot-eq-none_iff}
use bill_vpn.Fragment.Deliver.{Delivers}
use bill_vpn.Fragment.Send.{send_records_many}
use bill_vpn.Fragment.Lost.{Loses, send_records_drops_first}

-- A record header, and a name `a.b` at 7 with a byte behind it.
abbrev hello : Bytes
hello = 22 ∷ 3 ∷ 1 ∷ 0 ∷ 6 ∷ 9 ∷ 8 ∷ b'a' ∷ b'.' ∷ b'b' ∷ 7 ∷ []

send_records_many_example :
    Returns (Delivers hello) (send_records hello (pos 7) 3 (pos 4) (pos 3) false false true (pos 0))
send_records_many_example =
    send_records_many hello 7 3 4 (pos 3) false true (pos 0) (omega arith) (omega arith)
      (omega arith) (omega arith) (inl (3, refl, omega arith))

send_records_drops_first_example :
    Returns (Loses hello) (send_records hello (pos 7) 3 (pos 4) (negsuc 0) false false true (pos 0))
send_records_drops_first_example =
    send_records_drops_first hello 7 3 4 true (pos 0) (omega arith) (omega arith) (omega arith)
      (omega arith)

find_last_dot-eq-none_iff_example :
    (find_last_dot (b'a' ∷ b'b' ∷ []) (pos 0) 2 ≡ none)
    ↔ (0 + 2 ≡ length {A = ℕ} (b'a' ∷ b'b' ∷ []))
find_last_dot-eq-none_iff_example = find_last_dot-eq-none_iff (b'a' ∷ b'b' ∷ []) 0 2 (omega arith)
