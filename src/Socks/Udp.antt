-- ===== src/Socks/Udp.antt =====
-- The UDP packets of internal/socks5.go: `encodeSocksUDPAddr`, `decodeSocksUDPPacket`, and the
-- relay of `handleUDPAssociate`.
pub mod RoundTrip
use bill_vpn.Common.{
  ℕ, ◌+◌, Bool, true, false, not, Option, none, some, List, [], ◌∷◌, ◌++◌, Bytes, Bytes-discrete,
  length, drop, slice, if◌then◌else◌, ltb, ◌==◌, ◌>>=◌, ite,
}
use bill_vpn.ClientHello.{byte_at, u16_at}
use bill_vpn.Socks.{Ip, ip4, ip6, Texts, port_bytes}

-- An address, split into its host and port.
pub record Peer : Type 0 where
  pub host : Bytes
  pub port : ℕ

pub encode_host : Bytes → Option Ip → Option Bytes
encode_host host (some (ip4 a b c d)) = some (1 ∷ a ∷ b ∷ c ∷ d ∷ [])
encode_host host (some (ip6 b)) = some (4 ∷ b)
encode_host host none = if ltb 255 (length host) then none else some (3 ∷ length host ∷ host)

-- `encodeSocksUDPAddr`; `none` is an error.
pub encode_socks_udp_addr : Texts → Peer → Option Bytes
unfolding encode_host port_bytes
encode_socks_udp_addr t p = do
  head ← encode_host p.host (t.parse_ip p.host)
  some (head ++ port_bytes p.port)

pub data UdpError : Type 0 where
  too_short fragmented unsupported unresolved : UdpError

pub data Decoded {ℓ} (A : Type ℓ) : Type ℓ where
  wrong : UdpError → Decoded A
  right : A → Decoded A

-- The host of a packet and the offset behind it; `none` is a panic.
pub decode_host : Texts → Bytes → ℕ → Option (Decoded (Bytes × ℕ))
decode_host t packet kind =
    if kind == 1
    then if ltb (length packet) 10
      then some (wrong too_short)
      else slice packet 4 8 >>= (λ b. some (right (t.ip_text b, 8)))
    else if kind == 4
    then if ltb (length packet) 22
      then some (wrong too_short)
      else slice packet 4 20 >>= (λ b. some (right (t.ip_text b, 20)))
    else if kind == 3
    then if ltb (length packet) 5
      then some (wrong too_short)
      else byte_at packet 4 >>= (λ n.
        if ltb (length packet) (7 + n)
        then some (wrong too_short)
        else slice packet 5 (5 + n) >>= (λ b. some (right (b, 5 + n))))
    else some (wrong unsupported)

-- The end: the port, and the payload behind it.
pub decode_port : Bytes → Decoded (Bytes × ℕ) → Option (Decoded (Peer × Bytes))
decode_port packet (wrong e) = some (wrong e)
decode_port packet (right (host, offset)) = do
  port ← u16_at packet offset
  some (right (record { host = host; port = port }, drop (offset + 2) packet))

-- `decodeSocksUDPPacket` up to `net.ResolveUDPAddr`.
pub decode_socks_udp_packet : Texts → Bytes → Option (Decoded (Peer × Bytes))
unfolding decode_host decode_port
decode_socks_udp_packet t packet =
    if ltb (length packet) 4
    then some (wrong too_short)
    else (byte_at packet 2 >>= (λ frag.
        if not (frag == 0)
        then some (wrong fragmented)
        else byte_at packet 3 >>= (λ kind. decode_host t packet kind >>= decode_port packet)))

-- The relay: the address of the client, once it has sent a packet, and the packets sent.
pub record Relay : Type 0 where
  pub client : Option Bytes
  pub out : List (Bytes × Bytes)

abbrev pub resolve_and_send :
    (Peer → Option Bytes) → Relay → Option (Decoded (Peer × Bytes)) → Option Relay
resolve_and_send resolve r none = none
resolve_and_send resolve r (some (wrong e)) = some r
resolve_and_send resolve r (some (right (peer, payload))) = elim (resolve peer) [
  | none ↦ some r
  | some target ↦ some (record r { out = r.out ++ ((target, payload) ∷ []) })
]

-- A packet from the client.
pub from_client : Texts → (Peer → Option Bytes) → Bytes → Bytes → Relay → Option Relay
unfolding decode_socks_udp_packet
from_client t resolve addr packet r =
    resolve_and_send resolve (record r { client = some addr }) (decode_socks_udp_packet t packet)

-- A packet from elsewhere, for the client.
pub from_target : Texts → Peer → Bytes → Bytes → Relay → Relay
unfolding encode_socks_udp_addr
from_target t peer client packet r = elim (encode_socks_udp_addr t peer) [
  | none ↦ r
  | some head ↦ record r { out = r.out ++ ((client, 0 ∷ 0 ∷ 0 ∷ head ++ packet) ∷ []) }
]

-- One round of the loop of `handleUDPAssociate`: a packet from the address `addr`, whose host and
-- port are `peer`. The last argument of the first function is the client's address, if known.
pub relay_from :
    Texts → (Peer → Option Bytes) → Bytes → Peer → Bytes → Relay → Option Bytes → Option Relay
unfolding from_client from_target
relay_from t resolve addr peer packet r none = from_client t resolve addr packet r
relay_from t resolve addr peer packet r (some client) =
    ite (Bytes-discrete addr client) (from_client t resolve addr packet r)
      (some (from_target t peer client packet r))

pub relay : Texts → (Peer → Option Bytes) → Bytes → Peer → Bytes → Relay → Option Relay
unfolding relay_from
relay t resolve addr peer packet r = relay_from t resolve addr peer packet r r.client
