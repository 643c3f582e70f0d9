-- ===== src/ClientHello/Tests.antt =====
-- The parser of internal/utils.go on two records that are too short.
use bill_vpn.Common.{◌≡◌, refl, none, false, true, some, pos, [], ◌∷◌, Bytes, arith}
use bill_vpn.ClientHello.{
  Parsed, parse_client_hello, parse_hello, parse_session_id, parse_cipher_suites, parse_compression,
  parse_extensions, scan_extensions, resume, scan_extension, read_sni, scan_result,
  handshake_too_short, unset_pos, fail, byte_at, u16_at,
}
use bill_vpn.ClientHello.Bounds.{IsSound, parse_client_hello-IsSound}

program : Unit {0}
unfolding parse_client_hello parse_hello parse_session_id parse_cipher_suites parse_compression
    parse_extensions scan_extensions resume scan_extension read_sni scan_result fail byte_at u16_at
program = tt

-- A record without a handshake message.
abbrev pub parsed_empty : Parsed
parsed_empty = record {
  prt_ver = none;
  sni_pos = unset_pos;
  sni_len = 0;
  has_key_share = false;
  error = some handshake_too_short;
}

pub empty_record : parse_client_hello (22 ∷ 3 ∷ 1 ∷ 0 ∷ 0 ∷ []) ≡ some parsed_empty
unfolding program
empty_record = refl

-- A message that names `a.b`, with a key share behind the name.
abbrev pub named_hello : Bytes
named_hello =
    22 ∷ 3 ∷ 1 ∷ 0 ∷ 63 ∷ 1 ∷ 0 ∷ 0 ∷ 59 ∷ 3 ∷ 3 ∷ 0 ∷ 0 ∷ 0 ∷ 0 ∷ 0 ∷ 0 ∷ 0 ∷ 0 ∷ 0 ∷ 0 ∷ 0 ∷ 0 ∷ 0
    ∷ 0 ∷ 0 ∷ 0 ∷ 0 ∷ 0 ∷ 0 ∷ 0 ∷ 0 ∷ 0 ∷ 0 ∷ 0 ∷ 0 ∷ 0 ∷ 0 ∷ 0 ∷ 0 ∷ 0 ∷ 0 ∷ 0 ∷ 0 ∷ 0 ∷ 2 ∷ 19 ∷ 1
    ∷ 1 ∷ 0 ∷ 0 ∷ 16 ∷ 0 ∷ 0 ∷ 0 ∷ 8 ∷ 0 ∷ 6 ∷ 0 ∷ 0 ∷ 3 ∷ b'a' ∷ b'.' ∷ b'b' ∷ 0 ∷ 51 ∷ 0 ∷ 0 ∷ []

abbrev pub parsed_named : Parsed
parsed_named = record {
  prt_ver = some (3 ∷ 3 ∷ []);
  sni_pos = pos 61;
  sni_len = 3;
  has_key_share = true;
  error = none;
}

pub named_record : parse_client_hello named_hello ≡ some parsed_named
unfolding program
named_record = refl

abbrev short_hello : Bytes
short_hello = 22 ∷ 3 ∷ 1 ∷ 0 ∷ 6 ∷ 1 ∷ 0 ∷ 0 ∷ 2 ∷ 3 ∷ 3 ∷ []

parse_client_hello-IsSound_example :
    (p : Parsed) × (parse_client_hello short_hello ≡ some p) × IsSound short_hello p
parse_client_hello-IsSound_example = parse_client_hello-IsSound short_hello (omega arith)
