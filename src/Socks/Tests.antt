-- ===== src/Socks/Tests.antt =====
-- The theorems on internal/socks5.go for small packets and a short handshake.
use bill_vpn.Common.{◌≡◌, refl, true, none, some, [], ◌∷◌, Bytes, codes, arith, Returns}
use bill_vpn.Route.{has_byte}
use bill_vpn.Route.Tests.{env}
use bill_vpn.Route.Plan.{plan_request}
use bill_vpn.Socks.{Texts, read_n, read_domain, read_socks_addr}
use bill_vpn.Socks.Udp.{Peer, Relay, relay}
use bill_vpn.Socks.Udp.RoundTrip.{Delivered, relay-Delivered}
use bill_vpn.Socks.Handler.{Network, wrote, socks_request, socks5_handler}
use bill_vpn.Socks.Handler.Answers.{answered, socks5_handler-answered}

abbrev texts : Texts
texts = record { ip_text = λ b. b; parse_ip = λ host. none }

abbrev peer : Peer
peer = record { host = codes "a.b"; port = 53 }

abbrev started : Relay
started = record { client = some (1 ∷ []); out = [] }

relay-Delivered_example :
    Returns
      (Delivered texts peer (7 ∷ 8 ∷ []) (1 ∷ []) started)
      (relay texts (λ p. none) (2 ∷ []) peer (7 ∷ 8 ∷ []) started)
relay-Delivered_example =
    relay-Delivered texts (λ p. none) (2 ∷ []) (1 ∷ []) peer (7 ∷ 8 ∷ []) started refl
      (λ e. ground (arith, e)) (omega arith) (λ b e. absurd (ground (arith, e))) (λ e. omega arith)

abbrev network : Network
network = record { method_sent = true; dial_ok = true; udp_reply = none }

abbrev address : Bytes
address = 3 ∷ b'a' ∷ b'.' ∷ b'b' ∷ 1 ∷ 187 ∷ 22 ∷ []

socks5_handler-answered_example :
    socks5_handler texts env network (5 ∷ 2 ∷ 2 ∷ 0 ∷ 5 ∷ 1 ∷ 0 ∷ 3 ∷ address)
    ≡ wrote
        (5 ∷ 0 ∷ [])
        (answered network (22 ∷ []) (plan_request env true (socks_request (codes "a.b") 443)))
unfolding read_n read_domain read_socks_addr has_byte
socks5_handler-answered_example =
    socks5_handler-answered texts env refl network (2 ∷ 0 ∷ []) address (codes "a.b") (22 ∷ []) 0 3
      1 187 refl refl
