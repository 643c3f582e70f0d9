-- ===== src/Mobile/Bridge/Answers.antt =====
-- A DNS query that the device sends in a datagram (mobile/bill_proxy.go) is answered through the
-- packet queue (mobile/queued_packet_conn.go).
use bill_vpn.Common.{
  ℕ, ◌≤◌, ◌<◌, ◌≡◌, refl, true, Option, some, List, [], ◌∷◌, ◌++◌, Bytes, length, get_elem?,
  get_elem?-append_length, ltb, arith, pos,
}
use bill_vpn.Route.{Env}
use bill_vpn.Mobile.Queue.{
  Packet, PacketConn, on_packets, Outcome, delivered, cut, enqueue_packet, capacity,
}
use bill_vpn.Mobile.Queue.Progress.{Reading, open_conn, Ready, packet_is_read}
use bill_vpn.Mobile.Bridge.{Network, answered, is_vpn_dns_address, write_to, handle_dns_query}

-- The answer, from the address that the query went to.
abbrev pub answer_packet : Network → Bytes → ℕ → Bytes → Packet
answer_packet net host port resp = record {
  payload = resp;
  addr = net.join_host_port host (pos port);
}

write_to_dns :
    (env : Env) (net : Network) (handle : Bytes → Option Bytes) (payload host resp : Bytes)
    (port : ℕ) (ps : List Packet)
    → is_vpn_dns_address host port ≡ true
    → handle payload ≡ some resp
    → length ps < capacity
    → write_to env net handle on_packets payload (some host) port (open_conn ps)
      ≡ some (open_conn (ps ++ (answer_packet net host port resp ∷ [])), answered (length payload))
unfolding write_to handle_dns_query enqueue_packet
write_to_dns env net handle payload host resp port ps vpn answer room =
    let free : ltb (length ps) capacity ≡ true = ground (arith, room) in
    rw (write_to, vpn, handle_dns_query, answer, enqueue_packet, free) refl

-- A query to the VPN's DNS server that the handler answers, written to an open connection without
-- a deadline on which `ps` wait, fewer than the channel holds: the write returns the query's
-- length, and the answer is read, cut to the reader's buffer, once those before it have been. No
-- read up to then blocks for good, however the selects choose.
pub query_is_answered :
    (env : Env) (net : Network) (handle : Bytes → Option Bytes) (payload host resp : Bytes)
    (port : ℕ) (ps : List Packet)
    → is_vpn_dns_address host port ≡ true
    → handle payload ≡ some resp
    → length ps < capacity
    → (pc : PacketConn) × (write_to env net handle on_packets payload
          (some host)
          port
          (open_conn ps)
        ≡ some (pc, answered (length payload)))
      × ((os : List Outcome) (pc' : PacketConn)
          → Reading pc os pc'
          → (length os ≤ length ps → Ready pc')
            × (length ps < length os
                → (n : ℕ) × (get_elem? os (length ps)
                    ≡ some (delivered n (cut n (answer_packet net host port resp))))))
query_is_answered env net handle payload host resp port ps vpn answer room =
    let packet = answer_packet net host port resp in
    (
      open_conn (ps ++ (packet ∷ [])),
      write_to_dns env net handle payload host resp port ps vpn answer room,
      λ os pc' r.
          packet_is_read (ps ++ (packet ∷ [])) (length ps) packet os pc'
            (get_elem?-append_length ps packet []) r,
    )
