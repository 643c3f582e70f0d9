-- ===== src/Socks/Udp/RoundTrip.antt =====
-- A packet that carries what `encodeSocksUDPAddr` made is decoded to the same peer and payload.
use bill_vpn.Common.{
  ℕ, suc, ◌+◌, ◌*◌, ◌/◌, ◌%◌, ◌<◌, ◌≤◌, ◌≡◌, refl, ap, false, Option, none, some, [], ◌∷◌, ◌++◌,
  Bytes, length, length-append, drop, slice, slice-middle, get_elem?-append_length, append_assoc,
  sym, ◌∙◌, Returns, Returns-value, returns, if_neg, ◌≢◌, Bytes-discrete, ltb, arith, Option-cases,
  inl, inr,
}
use bill_vpn.ClientHello.{byte_at, u16_at}
use bill_vpn.Socks.{Ip, ip4, ip6, Texts, port_bytes}
use bill_vpn.Socks.Udp.{
  Peer, encode_host, encode_socks_udp_addr, right, Relay, from_client, relay_from, relay,
  from_target, decode_host, decode_port, decode_socks_udp_packet,
}

-- The text by which a decoded packet names the host.
abbrev canonical_text : Texts → Bytes → Option Ip → Bytes
canonical_text t host none = host
canonical_text t host (some (ip4 a b c d)) = t.ip_text (a ∷ b ∷ c ∷ d ∷ [])
canonical_text t host (some (ip6 b)) = t.ip_text b

pub canonical : Texts → Bytes → Bytes
canonical t host = canonical_text t host (t.parse_ip host)

byte_after :
    (pre : Bytes) (hi lo : ℕ) (rest : Bytes)
    → byte_at (pre ++ (hi ∷ lo ∷ rest)) (length pre + 1) ≡ some lo
unfolding byte_at
byte_after [] hi lo rest = refl
byte_after (x ∷ pre) hi lo rest =
    let e : suc (length pre) + 1 ≡ suc (length pre + 1) = omega arith in
    rw e (byte_after pre hi lo rest)

u16_at-append :
    (pre : Bytes) (hi lo : ℕ) (rest : Bytes)
    → u16_at (pre ++ (hi ∷ lo ∷ rest)) (length pre) ≡ some (hi * 256 + lo)
unfolding u16_at byte_at
u16_at-append pre hi lo rest =
    rw (get_elem?-append_length pre hi (lo ∷ rest), byte_after pre hi lo rest)

drop-two :
    (pre : Bytes) (hi lo : ℕ) (rest : Bytes)
    → drop (length pre + 2) (pre ++ (hi ∷ lo ∷ rest)) ≡ rest
drop-two [] hi lo rest = refl
drop-two (x ∷ pre) hi lo rest =
    let e : suc (length pre) + 2 ≡ suc (length pre + 2) = omega arith in
    rw e (drop-two pre hi lo rest)

port_bytes_size : (port : ℕ) → length (port_bytes port) ≡ 2
unfolding port_bytes
port_bytes_size port = refl

-- The end of a packet, from its parts.
decode_port_end :
    (pre host : Bytes) (port : ℕ) (payload : Bytes)
    → port < 65536
    → decode_port (pre ++ (port_bytes port ++ payload)) (right (host, length pre))
      ≡ some (right (record { host = host; port = port }, payload))
unfolding decode_port port_bytes
decode_port_end pre host port payload h =
    let value : ((port / 256) % 256) * 256 + port % 256 ≡ port = omega arith in
    rw
      (
        u16_at-append pre ((port / 256) % 256) (port % 256) payload,
        drop-two pre ((port / 256) % 256) (port % 256) payload,
        value,
      )
      refl

module _ (t : Texts) (port : ℕ) (payload : Bytes) (small : port < 65536) where
  -- What the host's decoding leaves to do.
  decode_whole :
      (kind off : ℕ) (tail pre host : Bytes)
      → (0 ∷ 0 ∷ 0 ∷ kind ∷ tail) ≡ pre ++ (port_bytes port ++ payload)
      → decode_host t (0 ∷ 0 ∷ 0 ∷ kind ∷ tail) kind ≡ some (right (host, off))
      → off ≡ length pre
      → decode_socks_udp_packet t (0 ∷ 0 ∷ 0 ∷ kind ∷ tail)
        ≡ some (right (record { host = host; port = port }, payload))
  unfolding decode_socks_udp_packet byte_at
  decode_whole kind off tail pre host e h place =
      let short : ltb (length (0 ∷ 0 ∷ 0 ∷ kind ∷ tail)) 4 ≡ false = ground arith in
      rw (short, h, place, e) (decode_port_end pre host port payload small)

  decode_ip4 :
      (a b c d : ℕ)
      → decode_socks_udp_packet t (0 ∷ 0 ∷ 0 ∷ 1 ∷ a ∷ b ∷ c ∷ d ∷ (port_bytes port ++ payload))
        ≡ some (right (record { host = t.ip_text (a ∷ b ∷ c ∷ d ∷ []); port = port }, payload))
  unfolding decode_host
  decode_ip4 a b c d =
      let rest : Bytes = port_bytes port ++ payload in
      let packet : Bytes = 0 ∷ 0 ∷ 0 ∷ 1 ∷ a ∷ b ∷ c ∷ d ∷ rest in
      let two : 2 ≤ length rest =
        omega (arith, length-append (port_bytes port) payload, port_bytes_size port) in
      let short : ltb (length packet) 10 ≡ false = ground arith in
      decode_whole 1 8 (a ∷ b ∷ c ∷ d ∷ rest) (0 ∷ 0 ∷ 0 ∷ 1 ∷ a ∷ b ∷ c ∷ d ∷ [])
        (t.ip_text (a ∷ b ∷ c ∷ d ∷ [])) refl
        (rw (short, slice-middle (0 ∷ 0 ∷ 0 ∷ 1 ∷ []) (a ∷ b ∷ c ∷ d ∷ []) rest) refl) refl

  decode_ip6 :
      (b : Bytes)
      → length b ≡ 16
      → decode_socks_udp_packet t (0 ∷ 0 ∷ 0 ∷ 4 ∷ (b ++ (port_bytes port ++ payload)))
        ≡ some (right (record { host = t.ip_text b; port = port }, payload))
  unfolding decode_host
  decode_ip6 b n =
      let rest : Bytes = port_bytes port ++ payload in
      let pre : Bytes = 0 ∷ 0 ∷ 0 ∷ 4 ∷ [] in
      let size : length (b ++ rest) ≡ 16 + length rest = omega (arith, length-append b rest, n) in
      let two : 2 ≤ length rest =
        omega (arith, length-append (port_bytes port) payload, port_bytes_size port) in
      let short : ltb (length (pre ++ (b ++ rest))) 22 ≡ false = ground arith in
      let end : length pre + length b ≡ 20 = omega arith in
      let place : 20 ≡ length (pre ++ b) = omega arith in
      let middle : slice (pre ++ (b ++ rest)) 4 20 ≡ some b =
        ap (λ k. slice (pre ++ (b ++ rest)) 4 k) (sym end) ∙ slice-middle pre b rest in
      decode_whole 4 20 (b ++ rest) (pre ++ b) (t.ip_text b) (sym (append_assoc pre b rest))
        (rw (short, middle) refl) place

  decode_domain :
      (host : Bytes)
      → decode_socks_udp_packet t
          (0 ∷ 0 ∷ 0 ∷ 3 ∷ length host ∷ (host ++ (port_bytes port ++ payload)))
        ≡ some (right (record { host = host; port = port }, payload))
  unfolding decode_host byte_at
  decode_domain host =
      let rest : Bytes = port_bytes port ++ payload in
      let pre : Bytes = 0 ∷ 0 ∷ 0 ∷ 3 ∷ length host ∷ [] in
      let size : length (host ++ rest) ≡ length host + length rest = length-append host rest in
      let two : 2 ≤ length rest =
        omega (arith, length-append (port_bytes port) payload, port_bytes_size port) in
      let short : ltb (length (pre ++ (host ++ rest))) 5 ≡ false = ground arith in
      let long : ltb (length (pre ++ (host ++ rest))) (7 + length host) ≡ false = ground arith in
      decode_whole 3 (5 + length host) (length host ∷ (host ++ rest)) (pre ++ host) host
        (sym (append_assoc pre host rest)) (rw (short, long, slice-middle pre host rest) refl)
        (omega (arith, length-append pre host))

-- What `encodeSocksUDPAddr` makes of a peer, read behind the three bytes of a packet's head.
pub Reads : Texts → Peer → Bytes → Bytes → Type 0
Reads t p payload head =
    decode_socks_udp_packet t (0 ∷ 0 ∷ 0 ∷ (head ++ payload))
    ≡ some (right (record { host = canonical t p.host; port = p.port }, payload))

encode_socks_udp_addr-Reads :
    (t : Texts) (p : Peer) (payload : Bytes)
    → p.port < 65536
    → ((b : Bytes) → t.parse_ip p.host ≡ some (ip6 b) → length b ≡ 16)
    → (t.parse_ip p.host ≡ none → length p.host ≤ 255)
    → Returns (Reads t p payload) (encode_socks_udp_addr t p)
unfolding encode_socks_udp_addr encode_host Reads canonical
encode_socks_udp_addr-Reads t p payload small six short = elim (Option-cases (t.parse_ip p.host)) [
  | inl e ↦
      let far : ltb 255 (length p.host) ≡ false = ground (arith, short e) in
      rw (canonical, Reads, e, far)
        (returns (
          rw (append_assoc p.host (port_bytes p.port) payload)
            (decode_domain t p.port payload small p.host)))
  | inr (ip4 a b c d, e) ↦
      rw (canonical, Reads, e) (returns (decode_ip4 t p.port payload small a b c d))
  | inr (ip6 b, e) ↦
      rw (canonical, Reads, e)
        (returns (
          rw (append_assoc b (port_bytes p.port) payload)
            (decode_ip6 t p.port payload small b (six b e))))
]

-- What one round does with a packet from a peer other than the client: the client is sent a
-- packet that reads as it.
pub Delivered : Texts → Peer → Bytes → Bytes → Relay → Relay → Type 0
Delivered t peer packet client r r2 =
    (head : Bytes) × (r2
      ≡ record r { out = r.out ++ ((client, 0 ∷ 0 ∷ 0 ∷ (head ++ packet)) ∷ []) })
    × Reads t peer packet head

from_target-Delivered :
    (t : Texts) (peer : Peer) (client packet : Bytes) (r : Relay)
    → Returns (Reads t peer packet) (encode_socks_udp_addr t peer)
    → Delivered t peer packet client r (from_target t peer client packet r)
unfolding from_target Delivered
from_target-Delivered t peer client packet r h =
    let (head, e, reads) = Returns-value h in rw (from_target, e) (head, refl, reads)

-- While a client is known, a packet from another address, whose port is below 2^16 and whose host
-- is an address of 16 bytes at most or a name of 255 at most, makes the relay send one packet
-- more, to the client, and that packet decodes to the same payload from the same port and from
-- the host's canonical text; nothing else changes.
pub relay-Delivered :
    (t : Texts) (resolve : Peer → Option Bytes) (addr client : Bytes) (peer : Peer) (packet : Bytes)
    (r : Relay)
    → r.client ≡ some client
    → addr ≢ client
    → peer.port < 65536
    → ((b : Bytes) → t.parse_ip peer.host ≡ some (ip6 b) → length b ≡ 16)
    → (t.parse_ip peer.host ≡ none → length peer.host ≤ 255)
    → Returns (Delivered t peer packet client r) (relay t resolve addr peer packet r)
unfolding relay relay_from
relay-Delivered t resolve addr client peer packet r known other small six short =
    let reads = encode_socks_udp_addr-Reads t peer packet small six short in
    let hit : relay t resolve addr peer packet r ≡ some (from_target t peer client packet r) =
      ap (relay_from t resolve addr peer packet r) known
      ∙ if_neg (Bytes-discrete addr client) other (from_client t resolve addr packet r)
          (some (from_target t peer client packet r)) in
    rw hit (returns (from_target-Delivered t peer client packet r reads))
