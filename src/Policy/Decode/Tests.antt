-- ===== src/Policy/Decode/Tests.antt =====
-- The decoding of internal/policy.go at one configuration.
use bill_vpn.Common.{◌≡◌, refl, none, some, Bytes, Option, codes, ℤ, pos, negsuc}
use bill_vpn.Policy.{Policy, zero_policy, unset_int, tls_rf, bool_unset, bool_true, dns_unknown}
use bill_vpn.Policy.Decode.{
  RawPolicy, ok, unmarshal_policy, check_text, check_int, check_duration, check_parsed, IsValid,
  unmarshal_policy-IsValid,
}

program : Unit {0}
unfolding unmarshal_policy check_text check_int check_duration check_parsed
program = tt

abbrev raw_policy : RawPolicy
raw_policy = record {
  raw_reply_first = bool_unset;
  raw_connect_timeout = some (codes "2s");
  raw_host = some (codes "self");
  raw_map_to = none;
  raw_port = some (pos 8443);
  raw_dns_mode = dns_unknown;
  raw_http_status = none;
  raw_tls13_only = bool_true;
  raw_mode = tls_rf;
  raw_num_records = some (pos 4);
  raw_num_segments = some (negsuc 0);
  raw_oob = bool_unset;
  raw_oob_ex = bool_unset;
  raw_mod_minor_ver = bool_unset;
  raw_send_interval = none;
  raw_fake_ttl = some (pos 0);
  raw_fake_sleep = none;
  raw_max_ttl = some (pos 64);
  raw_attempts = none;
  raw_single_timeout = none;
}

abbrev two_seconds : Bytes → Option ℤ
two_seconds text = some (pos 2_000_000_000)

abbrev decoded : Policy
decoded = record zero_policy {
  connect_timeout = pos 2_000_000_000;
  host = some (codes "self");
  port = pos 8443;
  http_status = unset_int;
  tls13_only = bool_true;
  mode = tls_rf;
  num_records = pos 4;
  num_segments = negsuc 0;
  send_interval = unset_int;
  max_ttl = pos 64;
  single_timeout = unset_int;
}

decodes : unmarshal_policy two_seconds raw_policy ≡ ok decoded
unfolding program
decodes = refl

unmarshal_policy-IsValid_example : IsValid decoded
unmarshal_policy-IsValid_example = unmarshal_policy-IsValid two_seconds raw_policy decoded decodes
