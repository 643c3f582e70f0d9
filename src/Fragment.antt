-- ===== src/Fragment.antt =====
-- internal/fragment.go and `findLastDot` of internal/utils.go: how a ClientHello is cut into TLS
-- records and TCP segments. What the code does to the connection is the list of its operations in
-- their order, when none of them fails. `none` is a panic of the Go code:
-- an index or a slice bound out of range, or a division by zero.
pub mod Split
pub mod Deliver
pub mod Dot
pub mod Send
pub mod Lost
pub mod Tests
use mathlib.Core.List.{flatten}
use bill_vpn.ClientHello.{byte_at}
use bill_vpn.Common.{
  ℕ, zero, suc, ◌+◌, ◌-◌, ◌*◌, ◌/◌, ◌%◌, Bool, true, false, not, ◌&&◌, ◌||◌, Option, none, some,
  List, [], ◌∷◌, ◌++◌, Bytes, length, take, drop, set, slice, ltb, leb, ◌==◌, if◌then◌else◌, ◌>>=◌,
  ℤ, pos, negsuc, ◌+ℤ◌, ◌-ℤ◌, ltb_ℤ, eqb_ℤ,
}

-- `data[i]` at a signed index.
pub index : Bytes → ℤ → Option ℕ
index b (pos i) = byte_at b i
index b (negsuc i) = none

-- The loop of `findLastDot`, from `sniPos + rounds` down to `sniPos`.
pub scan_dot : Bytes → ℤ → ℕ → Option (Option ℤ)
scan_dot b at zero = do
  c ← index b (at +ℤ pos 0)
  if c == b'.' then some (some (at +ℤ pos 0)) else some none
scan_dot b at (suc n) = do
  c ← index b (at +ℤ pos (suc n))
  if c == b'.' then some (some (at +ℤ pos (suc n))) else scan_dot b at n

pub middle : ℤ → ℕ → Option ℤ → ℤ × Bool
middle at len (some i) = (i, true)
middle at len none = (pos (len / 2) +ℤ at, false)

pub find_last_dot : Bytes → ℤ → ℕ → Option (ℤ × Bool)
find_last_dot b sni_pos sni_len = do
  found ← scan_dot b sni_pos sni_len
  some (middle sni_pos sni_len found)

-- One call on the connection, or a sleep.
pub data Op : Type 0 where
  write : Bytes → Op
  send_with_oob : Bytes → ℕ → Op
  sleep : Op

-- `if interval > 0 { time.Sleep(interval) }`
pub pause : ℤ → List Op
pause interval = if ltb_ℤ (pos 0) interval then sleep ∷ [] else []

-- `makeRecord`: the three bytes of the header, the length, the payload.
pub make_record : Bytes → Bytes → Bytes
make_record header payload =
    take 3 (header ++ 0 ∷ 0 ∷ 0 ∷ [])
    ++ ((length payload % 65536) / 256) ∷ (length payload % 256) ∷ payload

-- The loop over `i` of `splitAndAppend`, with the rounds left: `data[i*base:]` at last, else
-- `data[i*base:(i+1)*base]`.
pub parts : Bytes → ℕ → ℕ → ℕ → ℕ → List Bytes
parts d base n i zero = []
parts d base n i (suc left) =
    (if i + 1 == n then drop (i * base) d else take base (drop (i * base) d))
    ∷ parts d base n (i + 1) left

pub add_header : Option Bytes → List Bytes → List Bytes
add_header none ps = ps
add_header (some h) [] = []
add_header (some h) (p ∷ ps) = make_record h p ∷ add_header (some h) ps

-- The pieces of the data: one if one is asked for or the data is shorter than their number.
pub pieces : Bytes → ℕ → List Bytes
pieces d n = if n == 1 || ltb (length d) n then d ∷ [] else parts d (length d / n) n 0 n

-- `splitAndAppend`: the list of pieces that it appends; `header` is nil as `none`.
pub split_and_append : Bytes → Option Bytes → ℤ → List Bytes
split_and_append d header (negsuc _) = []
split_and_append d header (pos n) = if n == 0 then [] else add_header header (pieces d n)

-- Go's division truncates toward zero.
pub half_ℤ : ℤ → ℤ
half_ℤ (pos n) = pos (n / 2)
half_ℤ (negsuc n) = pos 0 -ℤ pos (suc n / 2)

-- `data[a:cut]` and `data[cut:]` for a signed `cut`.
pub cut_at : Bytes → ℕ → ℤ → Option (Bytes × Bytes)
cut_at d a (negsuc _) = none
cut_at d a (pos cut) = do l ← slice d a cut; r ← slice d cut (length d); some (l, r)

-- The two sends of `oobex` and the rest of the data.
pub oob_ex : Bytes → ℤ → Option (List Op × Bytes)
oob_ex d interval = do
  first ← slice d 0 15
  c ← byte_at d 15
  second ← slice d 16 35
  rest ← slice d 35 (length d)
  some (send_with_oob first c ∷ send_with_oob second 0 ∷ pause interval, rest)

-- The loop over packets or segments: the first is sent with an urgent byte if `oob`.
pub send_each : Bool → ℤ → List Bytes → List Op
send_each oob interval [] = []
send_each oob interval (p ∷ ps) =
    (if oob then send_with_oob p 0 else write p) ∷ pause interval ++ send_each false interval ps

-- The capacity that `make` is asked for: a negative one is a panic.
abbrev pub room_for : ℤ → Option ℕ
room_for (pos n) = some n
room_for (negsuc _) = none

pub send_single : Bytes → ℤ → ℕ → ℤ → Bool → ℤ → Option (List Op)
send_single b offset len segments oob interval =
    if eqb_ℤ segments (pos 1) then some (write b ∷ []) else do
      _ ← room_for segments
      (cut, _) ← find_last_dot b offset len
      (l, r) ← cut_at b 0 cut
      let left = half_ℤ segments
      some (
          send_each oob interval
            (split_and_append l none left ++ split_and_append r none (segments -ℤ left)))

-- The branch `i == 0` of the loop over the chunks.
pub send_first : Bool → Bool → ℤ → Bytes → List Op → Option (List Op)
send_first oob oobex interval c rest =
    if oob
    then some (send_with_oob c 0 ∷ pause interval ++ rest)
    else if not oobex
    then some rest
    else do
      l ← slice c 0 (length c - 1)
      x ← byte_at c (length c - 1)
      some (send_with_oob l x ∷ rest)

-- `segments == -1`: one send for each record.
pub send_chunks : Bool → Bool → ℤ → ℕ → List Bytes → Option (List Op)
send_chunks oob oobex interval i [] = some []
send_chunks oob oobex interval i (c ∷ cs) = do
  rest ← send_chunks oob oobex interval (i + 1) cs
  if i == 0
      then send_first oob oobex interval c rest
      else if i == 1 && oobex
      then some (send_with_oob c 0 ∷ rest)
      else some (write c ∷ pause interval ++ rest)

-- `base := len(merged) / segments` and the loop over the segments: a negative count makes no
-- round, and zero divides by zero.
pub segment_loop : Bytes → ℤ → Bool → ℤ → Option (List Op)
segment_loop rest (negsuc _) oob interval = some []
segment_loop rest (pos n) oob interval =
    if n == 0 then none else some (send_each oob interval (parts rest (length rest / n) n 0 n))

-- The chunks merged into one stream and cut into `segments` parts.
pub send_merged : Bytes → ℤ → Bool → Bool → ℤ → Option (List Op)
send_merged merged segments oob oobex interval = do
  (before, rest) ← if oobex then oob_ex merged interval else some ([], merged)
  if eqb_ℤ segments (pos 1) || not (ltb_ℤ segments (pos (length rest)))
      then some (before ++ write rest ∷ [])
      else do ops ← segment_loop rest segments oob interval; some (before ++ ops)

-- The two calls of `splitAndAppend` that fill `chunks`.
pub record_chunks : Bytes → Bytes × Bytes → ℤ → List Bytes
record_chunks header (l, r) records =
    split_and_append l (some header) (half_ℤ records)
    ++ split_and_append r (some header) (records -ℤ half_ℤ records)

pub send_multi : Bytes → ℤ → ℕ → ℤ → ℤ → Bool → Bool → ℤ → Option (List Op)
send_multi b offset len records segments oob oobex interval = do
  _ ← room_for records
  (cut, _) ← find_last_dot b offset len
  header ← slice b 0 3
  lr ← cut_at b 5 cut
  let chunks = record_chunks header lr records
  if eqb_ℤ segments (negsuc 0)
      then send_chunks oob oobex interval 0 chunks
      else send_merged (flatten chunks) segments oob oobex interval

-- `sendRecords` up to its effects: the operations on the connection in their order.
pub send_records : Bytes → ℤ → ℕ → ℤ → ℤ → Bool → Bool → Bool → ℤ → Option (List Op)
send_records hello offset len records segments oob oobex mod_minor interval = do
  _ ← if mod_minor then byte_at hello 2 else some 0
  let b = if mod_minor then set hello 2 4 else hello
  if not (eqb_ℤ records (pos 1))
      then send_multi b offset len records segments oob oobex interval
      else if not oobex
      then send_single b offset len segments oob interval
      else do
        (before, rest) ← oob_ex b interval
        ops ← send_single rest (offset -ℤ pos 35) len segments oob interval
        some (before ++ ops)
