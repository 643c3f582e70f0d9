-- ===== src/Socks.antt =====
-- The SOCKS5 server of internal/socks5.go: `socks5Handler` as a function of the bytes that the
-- client sends, the codec of its UDP packets, and the loop of `handleUDPAssociate`. The texts of
-- IP addresses, the look-up of a UDP address and the results of dials and writes are arguments.
pub mod Udp
pub mod Handler
pub mod Tests
use bill_vpn.Common.{
  ℕ, zero, suc, ◌+◌, ◌/◌, ◌%◌, Bool, true, false, not, ◌&&◌, Option, none, some, List, [], ◌∷◌,
  ◌++◌, Bytes, length, take, drop, if◌then◌else◌, ltb, leb, ◌==◌, ◌>>=◌,
}
use bill_vpn.Route.{has_byte}

-- `net.IP`: four bytes, or sixteen.
pub data Ip : Type 0 where
  ip4 : ℕ → ℕ → ℕ → ℕ → Ip
  ip6 : Bytes → Ip

pub record Texts : Type 0 where
  pub ip_text : Bytes → Bytes
  pub parse_ip : Bytes → Option Ip

-- `readN`: the first n bytes, and those behind them.
pub read_n : ℕ → Bytes → Option (Bytes × Bytes)
read_n n s = if ltb (length s) n then none else some (take n s, drop n s)

-- The ways in which the address of a request can be wrong.
pub data AddrError : Type 0 where
  cut_short invalid_type : AddrError

pub data Addr : Type 0 where
  bad : AddrError → Addr
  good : Bytes → Bytes → Addr

abbrev pub addr_of : (Bytes → Bytes) → Option (Bytes × Bytes) → Addr
addr_of text none = bad cut_short
addr_of text (some (b, rest)) = good (text b) rest

pub read_domain : Bytes → Addr
unfolding read_n
read_domain [] = bad cut_short
read_domain (n ∷ rest) = addr_of (λ b. b) (read_n n rest)

-- `readSocksAddr`
pub read_socks_addr : Texts → ℕ → Bytes → Addr
unfolding read_n read_domain
read_socks_addr t atyp s =
    if atyp == 1
    then addr_of t.ip_text (read_n 4 s)
    else if atyp == 4
    then addr_of t.ip_text (read_n 16 s)
    else if atyp == 3
    then read_domain s
    else bad invalid_type

-- `sendReply`: the reply without an address.
pub reply : ℕ → Bytes
reply rep = 5 ∷ rep ∷ 0 ∷ 1 ∷ 0 ∷ 0 ∷ 0 ∷ 0 ∷ 0 ∷ 0 ∷ []

-- `binary.BigEndian.AppendUint16` behind a conversion to uint16.
pub port_bytes : ℕ → Bytes
port_bytes port = (port / 256) % 256 ∷ port % 256 ∷ []

-- The reply with an address.
pub reply_addr : ℕ → Ip → ℕ → Bytes
unfolding port_bytes
reply_addr rep (ip4 a b c d) port = 5 ∷ rep ∷ 0 ∷ 1 ∷ a ∷ b ∷ c ∷ d ∷ port_bytes port
reply_addr rep (ip6 b) port = 5 ∷ rep ∷ 0 ∷ 4 ∷ b ++ port_bytes port
