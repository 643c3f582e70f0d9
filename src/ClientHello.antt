-- ===== src/ClientHello.antt =====
-- `parseClientHello` of internal/utils.go, in the order of its checks. The result of a definition
-- is `none` where the Go code would panic on an index out of range. The loop over the extensions
-- takes fuel: each round moves the offset up by four bytes at least.
pub mod Bounds
pub mod Tests
use bill_vpn.Common.{
  ℕ, zero, suc, ◌+◌, ◌*◌, ◌<◌, Bool, true, false, not, ◌&&◌, Option, none, some, Bytes, length,
  get_elem?, slice, ltb, leb, ◌==◌, if◌then◌else◌, ◌>>=◌, ℤ, pos, negsuc, eqb_ℤ,
}

-- The errors that the parser reports.
pub data ParseError : Type 0 where
  record_exceeds_data handshake_too_short : ParseError
  not_client_hello : ℕ → ParseError
  handshake_exceeds_record hello_too_short end_after_random session_id_exceeds : ParseError
  no_cipher_suites cipher_suites_exceed no_compression compression_exceeds : ParseError
  extensions_exceed extension_exceeds sni_too_short sni_list_mismatch : ParseError
  sni_entry_too_short sni_bad_name_type sni_name_exceeds : ParseError

-- The five results; `prt_ver` is a nil slice as long as it is `none`.
pub record Parsed : Type 0 where
  pub prt_ver : Option Bytes
  pub sni_pos : ℤ
  pub sni_len : ℕ
  pub has_key_share : Bool
  pub error : Option ParseError

abbrev pub unset_pos : ℤ
unset_pos = negsuc 0

-- `data[i]`
unfoldable pub byte_at : Bytes → ℕ → Option ℕ
byte_at = get_elem?

-- `binary.BigEndian.Uint16(data[i : i+2])`
unfoldable pub u16_at : Bytes → ℕ → Option ℕ
u16_at bytes i = do hi ← byte_at bytes i; lo ← byte_at bytes (i + 1); some (hi * 256 + lo)

pub fail : Option Bytes → ParseError → Option Parsed
fail ver e = some (record {
  prt_ver = ver;
  sni_pos = unset_pos;
  sni_len = 0;
  has_key_share = false;
  error = some e;
})

-- The state of the loop over the extensions.
pub record Scan : Type 0 where
  pub scan_pos : ℤ
  pub scan_len : ℕ
  pub key_share : Bool

scan_result : Option Bytes → Scan → Option ParseError → Option Parsed
scan_result ver s e = some (record {
  prt_ver = ver;
  sni_pos = s.scan_pos;
  sni_len = s.scan_len;
  has_key_share = s.key_share;
  error = e;
})

-- The outcome of one round: leave the loop, or go on with the next extension.
pub data Round : Type 0 where
  stop : Scan → Option ParseError → Round
  next : Scan → Round

-- The body under `sniPos == -1 && extType == extTypeSNI`.
read_sni : Bytes → ℕ → ℕ → Scan → Option Round
read_sni bytes start ext_len s = if ltb ext_len 2 then some (stop s (some sni_too_short)) else do
  list_len ← u16_at bytes start
  if not (list_len + 2 == ext_len)
      then some (stop s (some sni_list_mismatch))
      else if ltb (start + ext_len) (start + 2 + 3)
      then some (stop s (some sni_entry_too_short))
      else do
        name_type ← byte_at bytes (start + 2)
        if not (name_type == 0) then some (stop s (some sni_bad_name_type)) else do
          name_len ← u16_at bytes (start + 2 + 1)
          let found = record s { scan_pos = pos (start + 2 + 3); scan_len = name_len }
          if ltb (start + ext_len) (start + 2 + 3 + name_len)
              then some (stop s (some sni_name_exceeds))
              else if s.key_share
              then some (stop found none)
              else some (next found)

-- One round of the loop, behind the check of the extension's length.
scan_extension : Bytes → ℕ → ℕ → ℕ → Scan → Option Round
scan_extension bytes ext_type start ext_len s =
    let s' = record s { key_share = if ext_type == 0x33 then true else s.key_share } in
    if ext_type == 0x33 && not (eqb_ℤ s.scan_pos unset_pos)
    then some (stop s' none)
    else if eqb_ℤ s.scan_pos unset_pos && ext_type == 0
    then read_sni bytes start ext_len s'
    else some (next s')

resume : Option Bytes → (Scan → Option Parsed) → Round → Option Parsed
resume ver loop (stop s e) = scan_result ver s e
resume ver loop (next s) = loop s

pub scan_extensions : ℕ → Bytes → Option Bytes → ℕ → ℕ → Scan → Option Parsed
unfolding resume
scan_extensions zero bytes ver offset end s = none
scan_extensions (suc fuel) bytes ver offset end s =
    if not (leb (offset + 4) end) then scan_result ver s none else do
      ext_type ← u16_at bytes offset
      ext_len ← u16_at bytes (offset + 2)
      if ltb end (offset + 4 + ext_len)
          then scan_result ver (record s { key_share = false }) (some extension_exceeds)
          else do
            round ← scan_extension bytes ext_type (offset + 4) ext_len s
            resume ver (λ s'. scan_extensions fuel bytes ver (offset + 4 + ext_len) end s') round

pub parse_extensions : Bytes → Option Bytes → ℕ → Option Parsed
parse_extensions bytes ver offset =
    let start : Scan = record { scan_pos = unset_pos; scan_len = 0; key_share = false } in
    if ltb (length bytes) (offset + 2) then scan_result ver start none else do
      total ← u16_at bytes offset
      if ltb (length bytes) (offset + 2 + total)
          then fail ver extensions_exceed
          else scan_extensions (suc total) bytes ver (offset + 2) (offset + 2 + total) start

parse_compression : Bytes → Option Bytes → ℕ → Option Parsed
parse_compression bytes ver offset =
    if leb (length bytes) offset then fail ver no_compression else do
      n ← byte_at bytes offset
      if ltb (length bytes) (offset + 1 + n)
          then fail ver compression_exceeds
          else parse_extensions bytes ver (offset + 1 + n)

parse_cipher_suites : Bytes → Option Bytes → ℕ → Option Parsed
parse_cipher_suites bytes ver offset =
    if ltb (length bytes) (offset + 2) then fail ver no_cipher_suites else do
      n ← u16_at bytes offset
      if ltb (length bytes) (offset + 2 + n)
          then fail ver cipher_suites_exceed
          else parse_compression bytes ver (offset + 2 + n)

parse_session_id : Bytes → Option Bytes → ℕ → Option Parsed
parse_session_id bytes ver offset =
    if leb (length bytes) offset then fail ver end_after_random else do
      n ← byte_at bytes offset
      if ltb (length bytes) (offset + 1 + n)
          then fail ver session_id_exceeds
          else parse_cipher_suites bytes ver (offset + 1 + n)

parse_hello : Bytes → ℕ → Option Parsed
parse_hello bytes record_len = do
  b1 ← byte_at bytes 6
  b2 ← byte_at bytes 7
  b3 ← byte_at bytes 8
  let handshake_len = b1 * 65536 + b2 * 256 + b3
  if ltb record_len (handshake_len + 4)
      then fail none handshake_exceeds_record
      else if ltb handshake_len (2 + 32 + 1)
      then fail none hello_too_short
      else do ver ← slice bytes 9 11; parse_session_id bytes (some ver) 43

pub parse_client_hello : Bytes → Option Parsed
parse_client_hello bytes = do
  record_len ← u16_at bytes 3
  if ltb (length bytes) (5 + record_len)
      then fail none record_exceeds_data
      else if ltb record_len 4
      then fail none handshake_too_short
      else do
        kind ← byte_at bytes 5
        if not (kind == 1) then fail none (not_client_hello kind) else parse_hello bytes record_len
