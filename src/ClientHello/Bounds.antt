-- ===== src/ClientHello/Bounds.antt =====
-- What a caller of `parseClientHello` (internal/utils.go) may rely on.
use bill_vpn.Common.{
  ℕ, zero, suc, ◌+◌, ◌*◌, ◌≤◌, ◌<◌, ◌≡◌, refl, ◌⊎◌, inl, inr, not, ◌&&◌, Option, none, some, Bytes,
  length, get_elem?-some, ◌-◌, length-take, length-drop, drop, slice, ltb, leb, ◌==◌, arith, ℤ, pos,
  eqb_ℤ, Returns, returns, Returns-if, Returns-bind, Returns-of, Returns-value,
}
use bill_vpn.ClientHello.{
  Parsed, ParseError, Scan, Round, stop, next, unset_pos, byte_at, u16_at, fail, scan_result,
  read_sni, scan_extension, scan_extensions, resume, parse_extensions, parse_compression,
  parse_cipher_suites, parse_session_id, parse_hello, parse_client_hello,
}

-- The range of the server name: none found, or a range of the input behind every fixed header.
abbrev pub InRange : Bytes → ℤ → ℕ → Type 0
InRange b at len =
    ((at ≡ unset_pos) × (len ≡ 0)) ⊎ ((n : ℕ) × (at ≡ pos n) × (58 ≤ n) × (n + len ≤ length b))

abbrev pub HasVersion : Option Bytes → Type 0
HasVersion none = ⊥
HasVersion (some v) = length v ≡ 2

abbrev pub IsSound : Bytes → Parsed → Type 0
IsSound b p = InRange b p.sni_pos p.sni_len × (p.error ≡ none → HasVersion p.prt_ver)

byte_at-Returns : (b : Bytes) (i : ℕ) → i < length b → Returns (λ _. Unit {0}) (byte_at b i)
unfolding byte_at
byte_at-Returns b i h = let (x, e) = get_elem?-some b i h in Returns-of e tt

u16_at-Returns : (b : Bytes) (i : ℕ) → i + 1 < length b → Returns (λ _. Unit {0}) (u16_at b i)
unfolding u16_at
u16_at-Returns b i h =
    Returns-bind (byte_at-Returns b i (omega arith))
      λ hi _. Returns-bind (byte_at-Returns b (i + 1) h) λ lo _. returns tt

fail-IsSound : (b : Bytes) (v : Option Bytes) (e : ParseError) → Returns (IsSound b) (fail v e)
unfolding fail
fail-IsSound b v e = returns (inl (refl, refl), λ h. ground arith)

abbrev ScanIn : Bytes → Scan → Type 0
ScanIn b s = InRange b s.scan_pos s.scan_len

scan_result-IsSound :
    (b v : Bytes) (s : Scan) (e : Option ParseError)
    → length v ≡ 2
    → ScanIn b s
    → Returns (IsSound b) (scan_result (some v) s e)
unfolding scan_result
scan_result-IsSound b v s e hv hs = returns (hs, λ _. hv)

data RoundIn (b : Bytes) : Round → Type 0 where
  stop_in : {s : Scan} {e : Option ParseError} → ScanIn b s → RoundIn b (stop s e)
  next_in : {s : Scan} → ScanIn b s → RoundIn b (next s)

read_sni-RoundIn :
    (b : Bytes) (start len : ℕ) (s : Scan)
    → 53 ≤ start
    → start + len ≤ length b
    → ScanIn b s
    → Returns (RoundIn b) (read_sni b start len s)
unfolding read_sni
read_sni-RoundIn b start len s low fits hs =
    Returns-if (ltb len 2) (λ _. returns (stop_in hs))
      λ long. Returns-bind (u16_at-Returns b start (ground arith)) λ list_len _.
        Returns-if (not (list_len + 2 == len)) (λ _. returns (stop_in hs))
          λ _.
            Returns-if (ltb (start + len) (start + 2 + 3)) (λ _. returns (stop_in hs))
              λ room. Returns-bind (byte_at-Returns b (start + 2) (ground arith)) λ name_type _.
                Returns-if (not (name_type == 0)) (λ _. returns (stop_in hs))
                  λ _. Returns-bind (u16_at-Returns b (start + 2 + 1) (ground arith)) λ n _.
                    Returns-if (ltb (start + len) (start + 2 + 3 + n)) (λ _. returns (stop_in hs))
                      λ inside.
                        let at = (inr (start + 2 + 3, refl, omega arith, ground arith)) in
                        Returns-if s.key_share (λ _. returns (stop_in at))
                          (λ _. returns (next_in at))

scan_extension-RoundIn :
    (b : Bytes) (kind start len : ℕ) (s : Scan)
    → 53 ≤ start
    → start + len ≤ length b
    → ScanIn b s
    → Returns (RoundIn b) (scan_extension b kind start len s)
unfolding scan_extension
scan_extension-RoundIn b kind start len s low fits hs =
    Returns-if (kind == 0x33 && not (eqb_ℤ s.scan_pos unset_pos)) (λ _. returns (stop_in hs))
      λ _.
        Returns-if (eqb_ℤ s.scan_pos unset_pos && kind == 0)
          (λ _. read_sni-RoundIn b start len _ low fits hs) (λ _. returns (next_in hs))

resume-IsSound :
    (b v : Bytes) (loop : Scan → Option Parsed) (r : Round)
    → length v ≡ 2
    → ((s : Scan) → ScanIn b s → Returns (IsSound b) (loop s))
    → RoundIn b r
    → Returns (IsSound b) (resume (some v) loop r)
unfolding resume
resume-IsSound b v loop r hv hl (stop_in hs) = scan_result-IsSound b v _ _ hv hs
resume-IsSound b v loop r hv hl (next_in hs) = hl _ hs

-- Each round moves the offset up by four at least, so the fuel does not run out.
scan_extensions-IsSound :
    (fuel : ℕ) (b v : Bytes) (offset end : ℕ) (s : Scan)
    → end < offset + fuel
    → offset ≤ end
    → end ≤ length b
    → 49 ≤ offset
    → length v ≡ 2
    → ScanIn b s
    → Returns (IsSound b) (scan_extensions fuel b (some v) offset end s)
unfolding scan_extensions
scan_extensions-IsSound zero b v offset end s lt order fits low hv hs = absurd (omega arith)
scan_extensions-IsSound (suc fuel) b v offset end s lt order fits low hv hs =
    Returns-if (not (leb (offset + 4) end)) (λ _. scan_result-IsSound b v s _ hv hs)
      λ header. Returns-bind (u16_at-Returns b offset (ground arith)) λ kind _.
        Returns-bind (u16_at-Returns b (offset + 2) (ground arith)) λ len _.
          Returns-if (ltb end (offset + 4 + len)) (λ _. scan_result-IsSound b v _ _ hv hs)
            λ room.
              let start_low : 53 ≤ offset + 4 = omega arith in
              let inside : offset + 4 + len ≤ length b = ground arith in
              let fuel_left : end < offset + 4 + len + fuel = omega arith in
              let next_order : offset + 4 + len ≤ end = ground arith in
              let next_low : 49 ≤ offset + 4 + len = omega arith in
              let loop = (λ (s' : Scan) (h : ScanIn b s').
                scan_extensions-IsSound fuel b v (offset + 4 + len) end s' fuel_left next_order fits
                  next_low hv h) in
              Returns-bind (scan_extension-RoundIn b kind (offset + 4) len s start_low inside hs)
                λ r q. resume-IsSound b v _ r hv loop q

parse_extensions-IsSound :
    (b v : Bytes) (offset : ℕ)
    → 47 ≤ offset
    → length v ≡ 2
    → Returns (IsSound b) (parse_extensions b (some v) offset)
unfolding parse_extensions
parse_extensions-IsSound b v offset low hv =
    Returns-if (ltb (length b) (offset + 2))
      (λ _. scan_result-IsSound b v _ _ hv (inl (refl, refl)))
      λ room. Returns-bind (u16_at-Returns b offset (ground arith)) λ total _.
        Returns-if (ltb (length b) (offset + 2 + total)) (λ _. fail-IsSound b _ _)
          λ inside.
            scan_extensions-IsSound (suc total) b v (offset + 2) (offset + 2 + total) _
              (omega arith) (omega arith) (ground arith) (omega arith) hv (inl (refl, refl))

parse_compression-IsSound :
    (b v : Bytes) (offset : ℕ)
    → 46 ≤ offset
    → length v ≡ 2
    → Returns (IsSound b) (parse_compression b (some v) offset)
unfolding parse_compression
parse_compression-IsSound b v offset low hv =
    Returns-if (leb (length b) offset) (λ _. fail-IsSound b _ _)
      λ room. Returns-bind (byte_at-Returns b offset (ground arith)) λ n _.
        Returns-if (ltb (length b) (offset + 1 + n)) (λ _. fail-IsSound b _ _)
          λ inside. parse_extensions-IsSound b v (offset + 1 + n) (omega arith) hv

parse_cipher_suites-IsSound :
    (b v : Bytes) (offset : ℕ)
    → 44 ≤ offset
    → length v ≡ 2
    → Returns (IsSound b) (parse_cipher_suites b (some v) offset)
unfolding parse_cipher_suites
parse_cipher_suites-IsSound b v offset low hv =
    Returns-if (ltb (length b) (offset + 2)) (λ _. fail-IsSound b _ _)
      λ room. Returns-bind (u16_at-Returns b offset (ground arith)) λ n _.
        Returns-if (ltb (length b) (offset + 2 + n)) (λ _. fail-IsSound b _ _)
          λ inside. parse_compression-IsSound b v (offset + 2 + n) (omega arith) hv

parse_session_id-IsSound :
    (b v : Bytes) → length v ≡ 2 → Returns (IsSound b) (parse_session_id b (some v) 43)
unfolding parse_session_id
parse_session_id-IsSound b v hv =
    Returns-if (leb (length b) 43) (λ _. fail-IsSound b _ _)
      λ room. Returns-bind (byte_at-Returns b 43 (ground arith)) λ n _.
        Returns-if (ltb (length b) (43 + 1 + n)) (λ _. fail-IsSound b _ _)
          λ inside. parse_cipher_suites-IsSound b v (43 + 1 + n) (omega arith) hv

slice-Returns :
    (b : Bytes) (i j : ℕ) → i ≤ j → j ≤ length b → Returns (λ v. length v ≡ j - i) (slice b i j)
slice-Returns b i j le fits =
    Returns-if (leb i j && leb j (length b))
      (λ _. returns (omega (arith, length-take (j - i) (drop i b), length-drop i b)))
      (λ out. absurd (ground arith))

parse_hello-IsSound :
    (b : Bytes) (record_len : ℕ)
    → 5 + record_len ≤ length b
    → 4 ≤ record_len
    → Returns (IsSound b) (parse_hello b record_len)
unfolding parse_hello
parse_hello-IsSound b record_len fits long =
    Returns-bind (byte_at-Returns b 6 (omega arith)) λ b1 _.
      Returns-bind (byte_at-Returns b 7 (omega arith)) λ b2 _.
        Returns-bind (byte_at-Returns b 8 (omega arith)) λ b3 _.
          let n = b1 * 65536 + b2 * 256 + b3 in
          Returns-if (ltb record_len (n + 4)) (λ _. fail-IsSound b _ _)
            λ inside.
              Returns-if (ltb n (2 + 32 + 1)) (λ _. fail-IsSound b _ _)
                λ enough.
                  let room : 11 ≤ length b = ground arith in
                  Returns-bind (slice-Returns b 9 11 (omega arith) room)
                    λ v hv. parse_session_id-IsSound b v hv

parse_client_hello-Returns : (b : Bytes) → 5 ≤ length b → Returns (IsSound b) (parse_client_hello b)
unfolding parse_client_hello
parse_client_hello-Returns b h = Returns-bind (u16_at-Returns b 3 (omega arith)) λ n _.
    Returns-if (ltb (length b) (5 + n)) (λ _. fail-IsSound b _ _)
      λ fits.
        Returns-if (ltb n 4) (λ _. fail-IsSound b _ _)
          λ long.
            let inside : 5 + n ≤ length b = ground arith in
            let enough : 4 ≤ n = ground arith in
            Returns-bind (byte_at-Returns b 5 (omega arith)) λ kind _.
              Returns-if (not (kind == 1)) (λ _. fail-IsSound b _ _)
                λ _. parse_hello-IsSound b n inside enough

-- On any input of at least the five bytes of a record header the parser returns: it neither reads
-- out of range nor loops for ever. The reported name is absent (position -1, length 0) or lies
-- inside the input behind the fixed headers, and without an error the version has its two bytes.
pub parse_client_hello-IsSound :
    (b : Bytes) → 5 ≤ length b → (p : Parsed) × (parse_client_hello b ≡ some p) × IsSound b p
parse_client_hello-IsSound b h = Returns-value (parse_client_hello-Returns b h)
