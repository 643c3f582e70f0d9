-- ===== src/Transform.antt =====
-- `transformIP` of internal/utils.go: an address moved into a network. The parsers and printer of
-- the package netip are arguments; `none` is an error.
pub mod Prefix
pub mod Tests
use Prim.Native.Nat.{bit_and, bit_or}
use bill_vpn.Common.{
  ℕ, ◌+◌, ◌-◌, ◌*◌, ◌%◌, ◌^◌, Bool, true, false, not, Option, none, some, List, [], ◌∷◌, Bytes,
  if◌then◌else◌, leb, ◌>>=◌,
}

-- `netip.ParseAddr`, with `Is4` and the bytes; `netip.ParsePrefix`, with `Is4`, the bytes of
-- `Masked().Addr()` and `Bits`; and the text of an address.
pub record Netip : Type 0 where
  pub parse_addr : Bytes → Option (Bool × Bytes)
  pub parse_prefix : Bytes → Option (Bool × Bytes × ℕ)
  pub to_text : Bytes → Bytes

-- `uint8(0xFF << (8 - maskBits))`
abbrev pub mask : ℕ → ℕ
mask mask_bits = (255 * 2 ^ (8 - mask_bits)) % 256

-- The byte number `i` of the new address.
unfoldable pub new_byte : ℕ → ℕ → ℕ → ℕ → ℕ
new_byte bits i net ip =
    if leb (i * 8 + 8) bits
    then net
    else if leb bits (i * 8)
    then ip
    else bit_or (bit_and net (mask (bits - i * 8))) (bit_and ip (255 - mask (bits - i * 8)))

-- The loop, from the byte number `i` on.
unfoldable pub new_bytes : ℕ → ℕ → Bytes → Bytes → Bytes
unfolding new_byte
new_bytes bits i (n ∷ net) (b ∷ ip) = new_byte bits i n b ∷ new_bytes bits (i + 1) net ip
new_bytes bits i _ _ = []

abbrev pub same : Bool → Bool → Bool
same true b = b
same false b = not b

-- `transformIP`
pub transform_ip : Netip → Bytes → Bytes → Option Bytes
unfolding new_bytes
transform_ip n ip_text net_text = n.parse_addr ip_text >>= (λ ip.
    n.parse_prefix net_text >>= (λ prefix.
      if same ip.0 prefix.0 then some (n.to_text (new_bytes prefix.2 0 prefix.1 ip.1)) else none))
