-- ===== src/Policy/Names.antt =====
-- The texts of `Mode`, `DNSMode` and `BoolWithDefault` (internal/policy.go, internal/dns.go): their
-- `String` and `UnmarshalJSON`. The text is what `json.Unmarshal` gives for a mode, and the JSON
-- itself for a Boolean; `strings.TrimSpace` trims the bytes that are spaces.
use bill_vpn.Common.{
  ℕ, ◌≡◌, ◌≢◌, refl, ℕ_discrete, Bool, Option, none, some, List, [], ◌∷◌, Bytes, Bytes-discrete,
  codes, ite, arith,
}
use bill_vpn.FakeIp.{to_lower}
use bill_vpn.Gfw.{trim}
use bill_vpn.Policy.{
  Mode, unknown, raw, direct, tls_rf, ttl_d, block, tls_alert, DnsMode, dns_unknown, prefer_ipv4,
  prefer_ipv6, ipv4_only, ipv6_only, BoolWithDefault, bool_unset, bool_false, bool_true,
}

-- `Mode.String`
unfoldable pub mode_text : Mode → Bytes
mode_text raw = codes "raw"
mode_text direct = codes "direct"
mode_text tls_rf = codes "tls-rf"
mode_text ttl_d = codes "ttl-d"
mode_text block = codes "block"
mode_text tls_alert = codes "tls-alert"
mode_text unknown = codes "unknown"

-- The values with their texts, and the one that a text names.
unfoldable pub named : {A : Type 0} → Bytes → List (Bytes × A) → Option A
named s [] = none
named s ((t, a) ∷ rest) = ite (Bytes-discrete t s) (some a) (named s rest)

abbrev pub modes : List (Bytes × Mode)
modes =
    (codes "raw", raw)
    ∷ (codes "direct", direct)
    ∷ (codes "tls-rf", tls_rf)
    ∷ (codes "ttl-d", ttl_d)
    ∷ (codes "block", block)
    ∷ (codes "tls-alert", tls_alert)
    ∷ []

-- `Mode.UnmarshalJSON`; `none` is an error.
unfoldable pub unmarshal_mode : (ℕ → Bool) → Bytes → Option Mode
unfolding named
unmarshal_mode is_space s = named (to_lower (trim is_space s)) modes

-- `DNSMode.String`
unfoldable pub dns_mode_text : DnsMode → Bytes
dns_mode_text prefer_ipv4 = codes "prefer_ipv4"
dns_mode_text prefer_ipv6 = codes "prefer_ipv6"
dns_mode_text ipv4_only = codes "ipv4_only"
dns_mode_text ipv6_only = codes "ipv6_only"
dns_mode_text dns_unknown = codes "unknown"

abbrev pub dns_modes : List (Bytes × DnsMode)
dns_modes =
    (codes "prefer_ipv4", prefer_ipv4)
    ∷ (codes "prefer_ipv6", prefer_ipv6)
    ∷ (codes "ipv4_only", ipv4_only)
    ∷ (codes "ipv6_only", ipv6_only)
    ∷ []

-- `DNSMode.UnmarshalJSON`
unfoldable pub unmarshal_dns_mode : Bytes → Option DnsMode
unfolding named
unmarshal_dns_mode s = named s dns_modes

-- `BoolWithDefault.UnmarshalJSON`
unfoldable pub unmarshal_bool : Bytes → Option BoolWithDefault
unfolding named
unmarshal_bool s =
    named s
      ((codes "null", bool_unset) ∷ (codes "false", bool_false) ∷ (codes "true", bool_true) ∷ [])

-- The text of a DNS mode that is set is read as that mode.
pub unmarshal_dns_mode-text :
    (m : DnsMode) → m ≢ dns_unknown → unmarshal_dns_mode (dns_mode_text m) ≡ some m
unfolding unmarshal_dns_mode dns_mode_text named Bytes-discrete ℕ_discrete
unmarshal_dns_mode-text prefer_ipv4 h = refl
unmarshal_dns_mode-text prefer_ipv6 h = refl
unmarshal_dns_mode-text ipv4_only h = refl
unmarshal_dns_mode-text ipv6_only h = refl
unmarshal_dns_mode-text dns_unknown h = absurd (h refl)

-- A text that is read as a mode is that mode's, in any case and between spaces.
pub text-unmarshal_mode :
    (is_space : ℕ → Bool) (s : Bytes) (m : Mode)
    → unmarshal_mode is_space s ≡ some m
    → to_lower (trim is_space s) ≡ mode_text m
unfolding unmarshal_mode named mode_text
text-unmarshal_mode is_space s m h = lookup (to_lower (trim is_space s)) h
  where
    lookup : (t : Bytes) → named t modes ≡ some m → t ≡ mode_text m
    lookup t e = ground (arith, e)
