-- ===== src/Tunnel/Dispatch/Whole.antt =====
-- `handleTunnel` (internal/tunnel.go): how much the destination gets of what the client sends.
use bill_vpn.Common.{ℕ, ◌+◌, ◌≤◌, ◌<◌, ◌≡◌, some, List, Bytes, length, take, ℤ, pos}
use bill_vpn.ClientHello.{Parsed, u16_at, parse_client_hello}
use bill_vpn.Desync.{Splice, splice_loop, done}
use bill_vpn.Desync.Sends.{all_ok}
use bill_vpn.Tunnel.{World, Request}
use bill_vpn.Tunnel.Hello.{KeepsWhole}

module _ (w₀ : World) (r : Request) (sent : Bytes) (ttl : ℤ) (splices : List Splice) (page : ℕ)
    (room : 0 < page) (to_host : 0 < length r.target)
    (drains : (k : ℕ) → k ≤ length sent → splice_loop splices k ≡ done)
    (keeps : KeepsWhole r.policy.mode)
    (inside : (k : ℕ) (p : Parsed) (n : ℕ)
      → u16_at sent 3 ≡ some k
      → parse_client_hello (take (5 + k) sent) ≡ some p
      → p.sni_pos ≡ pos n
      → n + p.sni_len < 5 + k) where
  abbrev w : World
  w = record w₀ { outcomes = all_ok ttl splices page }
