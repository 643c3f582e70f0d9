-- ===== src/Policy.antt =====
-- The policies of internal/policy.go: their data, their validation when the configuration is
-- decoded, and `mergePolicies`. Pointers to strings are options, durations are integers
-- (nanoseconds), and -1 is the sentinel `unsetInt`.
pub mod Decode
pub mod Merge
pub mod Names
pub mod Tests
use bill_vpn.Common.{
  ℕ, Bool, true, false, not, ◌&&◌, Option, none, some, List, [], ◌∷◌, Bytes, if◌then◌else◌, ℤ, pos,
  negsuc, eqb_ℤ,
}

abbrev pub unset_int : ℤ
unset_int = negsuc 0

-- `Mode`; `ModeDefault` is `ModeTLSRF`.
pub data Mode : Type 0 where
  unknown raw direct tls_rf ttl_d block tls_alert : Mode

abbrev pub mode_default : Mode
mode_default = tls_rf

-- `DNSMode` of internal/dns.go; `DNSModeDefault` is `DNSModePreferIPv4`.
pub data DnsMode : Type 0 where
  dns_unknown prefer_ipv4 prefer_ipv6 ipv4_only ipv6_only : DnsMode

abbrev pub dns_mode_default : DnsMode
dns_mode_default = prefer_ipv4

-- `BoolWithDefault`
pub data BoolWithDefault : Type 0 where
  bool_unset bool_false bool_true : BoolWithDefault

pub record Policy : Type 0 where
  pub reply_first : BoolWithDefault
  pub dns_mode : DnsMode
  pub connect_timeout : ℤ
  pub host : Option Bytes
  pub map_to : Option Bytes
  pub port : ℤ
  pub http_status : ℤ
  pub tls13_only : BoolWithDefault
  pub mode : Mode
  pub num_records : ℤ
  pub num_segments : ℤ
  pub oob : BoolWithDefault
  pub oob_ex : BoolWithDefault
  pub mod_minor_ver : BoolWithDefault
  pub send_interval : ℤ
  pub fake_ttl : ℤ
  pub fake_sleep : ℤ
  pub max_ttl : ℤ
  pub attempts : ℤ
  pub single_timeout : ℤ

-- `Policy{}`
abbrev pub zero_policy : Policy
zero_policy = record {
  reply_first = bool_unset;
  dns_mode = dns_unknown;
  connect_timeout = pos 0;
  host = none;
  map_to = none;
  port = pos 0;
  http_status = pos 0;
  tls13_only = bool_unset;
  mode = unknown;
  num_records = pos 0;
  num_segments = pos 0;
  oob = bool_unset;
  oob_ex = bool_unset;
  mod_minor_ver = bool_unset;
  send_interval = pos 0;
  fake_ttl = pos 0;
  fake_sleep = pos 0;
  max_ttl = pos 0;
  attempts = pos 0;
  single_timeout = pos 0;
}

-- The tests for the value that counts as not set, field by field.
abbrev pub is_unset_bool : BoolWithDefault → Bool
is_unset_bool bool_unset = true
is_unset_bool _ = false

abbrev pub is_true : BoolWithDefault → Bool
is_true bool_true = true
is_true _ = false

abbrev pub is_unknown : Mode → Bool
is_unknown unknown = true
is_unknown _ = false

abbrev pub is_block : Mode → Bool
is_block block = true
is_block _ = false

abbrev pub is_dns_unknown : DnsMode → Bool
is_dns_unknown dns_unknown = true
is_dns_unknown _ = false

abbrev pub is_nil : Option Bytes → Bool
is_nil none = true
is_nil (some _) = false

abbrev pub is_zero : ℤ → Bool
is_zero z = eqb_ℤ z (pos 0)

abbrev pub is_unset_int : ℤ → Bool
is_unset_int z = eqb_ℤ z unset_int

-- `if merged.F == unset && p.F != unset { merged.F = p.F }`
abbrev pub fill {ℓ} : {A : Type ℓ} → (A → Bool) → A → A → A
fill is_unset merged p = if is_unset merged && not (is_unset p) then p else merged

-- The body of the loop of `mergePolicies`.
pub merge_step : Policy → Policy → Policy
merge_step m p = record {
  reply_first = fill is_unset_bool m.reply_first p.reply_first;
  dns_mode = fill is_dns_unknown m.dns_mode p.dns_mode;
  connect_timeout = fill is_unset_int m.connect_timeout p.connect_timeout;
  host = fill is_nil m.host p.host;
  map_to = fill is_nil m.map_to p.map_to;
  port = fill is_zero m.port p.port;
  http_status = fill is_unset_int m.http_status p.http_status;
  tls13_only = fill is_unset_bool m.tls13_only p.tls13_only;
  mode = fill is_unknown m.mode p.mode;
  num_records = fill is_zero m.num_records p.num_records;
  num_segments = fill is_zero m.num_segments p.num_segments;
  oob = fill is_unset_bool m.oob p.oob;
  oob_ex = fill is_unset_bool m.oob_ex p.oob_ex;
  mod_minor_ver = fill is_unset_bool m.mod_minor_ver p.mod_minor_ver;
  send_interval = fill is_unset_int m.send_interval p.send_interval;
  fake_ttl = fill is_unset_int m.fake_ttl p.fake_ttl;
  fake_sleep = fill is_zero m.fake_sleep p.fake_sleep;
  max_ttl = fill is_zero m.max_ttl p.max_ttl;
  attempts = fill is_zero m.attempts p.attempts;
  single_timeout = fill is_unset_int m.single_timeout p.single_timeout;
}

pub merge_loop : Policy → List Policy → Policy
merge_loop m [] = m
merge_loop m (p ∷ ps) = merge_loop (merge_step m p) ps

abbrev pub merge_start : Policy
merge_start = record zero_policy {
  http_status = unset_int;
  send_interval = unset_int;
  fake_ttl = unset_int;
  connect_timeout = unset_int;
  single_timeout = unset_int;
}

unfoldable pub apply_policy_defaults : Policy → Policy
apply_policy_defaults p = record p {
  mode = if is_unknown p.mode then mode_default else p.mode;
  dns_mode = if is_dns_unknown p.dns_mode then dns_mode_default else p.dns_mode;
}

unfoldable pub merge_policies : List Policy → Policy
unfolding merge_loop merge_step apply_policy_defaults
merge_policies ps = apply_policy_defaults (merge_loop merge_start ps)

unfoldable pub plain_fallback_policy : Policy
plain_fallback_policy = record zero_policy { mode = raw }

unfoldable pub gfw_fallback_policy : Policy
gfw_fallback_policy = record zero_policy { mode = tls_rf }
