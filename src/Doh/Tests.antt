-- ===== src/Doh/Tests.antt =====
-- The theorem on the DoH connection of internal/config.go for a ClientHello that is split.
use bill_vpn.Common.{ℕ, ◌+◌, ◌<◌, ◌≡◌, true, Option, none, some, codes, length, pos}
use bill_vpn.ClientHello.{Parsed}
use bill_vpn.ClientHello.Tests.{named_hello}
use bill_vpn.Policy.{zero_policy, Policy, tls_rf}
use bill_vpn.Doh.{World}

abbrev policy : Policy
policy = record zero_policy { mode = tls_rf; num_records = pos 4; num_segments = pos 3 }

abbrev world : World
world = record {
  policy = policy;
  remote_addr = codes "1.1.1.1:443";
  fake_ttl = λ p addr v6. none;
  accepts = λ es e. true;
}

abbrev IsInside : Option Parsed → Type 0
IsInside none = Unit
IsInside (some h) = (n : ℕ) → h.sni_pos ≡ pos n → n + h.sni_len < length named_hello
