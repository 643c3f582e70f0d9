-- ===== src/Policy/Merge.antt =====
-- What `mergePolicies` (internal/policy.go) makes of its list: the first policy whose field
-- differs from the value it is compared with decides it.
use bill_vpn.Common.{
  ◌≡◌, refl, Bool, true, false, Option, none, some, List, [], ◌∷◌, map, if◌then◌else◌, ℤ, pos,
  eqb_ℤ_sound, Bytes, ap, ◌∙◌, arith, Bool-cases, inl, inr,
}
use bill_vpn.Policy.{
  Policy, unset_int, Mode, DnsMode, BoolWithDefault, is_unset_bool, is_unknown, is_block,
  is_dns_unknown, is_nil, is_zero, is_unset_int, fill, merge_step, merge_loop, merge_start,
  apply_policy_defaults, merge_policies, plain_fallback_policy, bool_unset, unknown, dns_unknown,
  raw,
}

-- The first value that passes the test, or the one that stands for none.
pub first_set {ℓ} : {A : Type ℓ} → (A → Bool) → A → List A → A
first_set is_unset none_set [] = none_set
first_set is_unset none_set (a ∷ as_) = if is_unset a then first_set is_unset none_set as_ else a

-- Each field of the merged policy, read off the list.
pub merge_spec : List Policy → Policy
merge_spec ps = record {
  reply_first = first_set is_unset_bool bool_unset (map (λ p. p.reply_first) ps);
  dns_mode = first_set is_dns_unknown dns_unknown (map (λ p. p.dns_mode) ps);
  connect_timeout = first_set is_unset_int unset_int (map (λ p. p.connect_timeout) ps);
  host = first_set is_nil none (map (λ p. p.host) ps);
  map_to = first_set is_nil none (map (λ p. p.map_to) ps);
  port = first_set is_zero (pos 0) (map (λ p. p.port) ps);
  http_status = first_set is_unset_int unset_int (map (λ p. p.http_status) ps);
  tls13_only = first_set is_unset_bool bool_unset (map (λ p. p.tls13_only) ps);
  mode = first_set is_unknown unknown (map (λ p. p.mode) ps);
  num_records = first_set is_zero (pos 0) (map (λ p. p.num_records) ps);
  num_segments = first_set is_zero (pos 0) (map (λ p. p.num_segments) ps);
  oob = first_set is_unset_bool bool_unset (map (λ p. p.oob) ps);
  oob_ex = first_set is_unset_bool bool_unset (map (λ p. p.oob_ex) ps);
  mod_minor_ver = first_set is_unset_bool bool_unset (map (λ p. p.mod_minor_ver) ps);
  send_interval = first_set is_unset_int unset_int (map (λ p. p.send_interval) ps);
  fake_ttl = first_set is_unset_int unset_int (map (λ p. p.fake_ttl) ps);
  fake_sleep = first_set is_zero (pos 0) (map (λ p. p.fake_sleep) ps);
  max_ttl = first_set is_zero (pos 0) (map (λ p. p.max_ttl) ps);
  attempts = first_set is_zero (pos 0) (map (λ p. p.attempts) ps);
  single_timeout = first_set is_unset_int unset_int (map (λ p. p.single_timeout) ps);
}

-- The loop on one field.
fill_all {ℓ} : {A : Type ℓ} → (A → Bool) → A → List A → A
fill_all is_unset m [] = m
fill_all is_unset m (a ∷ as_) = fill_all is_unset (fill is_unset m a) as_

fill_all_set {ℓ} :
    {A : Type ℓ} (is_unset : A → Bool) (m : A) (l : List A)
    → is_unset m ≡ false
    → fill_all is_unset m l ≡ m
unfolding fill_all
fill_all_set is_unset m [] h = refl
fill_all_set is_unset m (a ∷ as_) h = rw (h, fill_all) (fill_all_set is_unset m as_ h)

fill_all-first_set {ℓ} :
    {A : Type ℓ} (is_unset : A → Bool) (m : A) (l : List A)
    → is_unset m ≡ true
    → ((a : A) → is_unset a ≡ true → a ≡ m)
    → fill_all is_unset m l ≡ first_set is_unset m l
unfolding fill_all first_set
fill_all-first_set is_unset m [] h only = refl
fill_all-first_set is_unset m (a ∷ as_) h only = elim (Bool-cases (is_unset a)) [
  | inl e ↦ rw (h, e, first_set) (fill_all-first_set is_unset m as_ h only)
  | inr e ↦ rw (h, e, first_set) (fill_all_set is_unset a as_ e)
]

fields : Policy → List Policy → Policy
fields m ps = record {
  reply_first = fill_all is_unset_bool m.reply_first (map (λ p. p.reply_first) ps);
  dns_mode = fill_all is_dns_unknown m.dns_mode (map (λ p. p.dns_mode) ps);
  connect_timeout = fill_all is_unset_int m.connect_timeout (map (λ p. p.connect_timeout) ps);
  host = fill_all is_nil m.host (map (λ p. p.host) ps);
  map_to = fill_all is_nil m.map_to (map (λ p. p.map_to) ps);
  port = fill_all is_zero m.port (map (λ p. p.port) ps);
  http_status = fill_all is_unset_int m.http_status (map (λ p. p.http_status) ps);
  tls13_only = fill_all is_unset_bool m.tls13_only (map (λ p. p.tls13_only) ps);
  mode = fill_all is_unknown m.mode (map (λ p. p.mode) ps);
  num_records = fill_all is_zero m.num_records (map (λ p. p.num_records) ps);
  num_segments = fill_all is_zero m.num_segments (map (λ p. p.num_segments) ps);
  oob = fill_all is_unset_bool m.oob (map (λ p. p.oob) ps);
  oob_ex = fill_all is_unset_bool m.oob_ex (map (λ p. p.oob_ex) ps);
  mod_minor_ver = fill_all is_unset_bool m.mod_minor_ver (map (λ p. p.mod_minor_ver) ps);
  send_interval = fill_all is_unset_int m.send_interval (map (λ p. p.send_interval) ps);
  fake_ttl = fill_all is_unset_int m.fake_ttl (map (λ p. p.fake_ttl) ps);
  fake_sleep = fill_all is_zero m.fake_sleep (map (λ p. p.fake_sleep) ps);
  max_ttl = fill_all is_zero m.max_ttl (map (λ p. p.max_ttl) ps);
  attempts = fill_all is_zero m.attempts (map (λ p. p.attempts) ps);
  single_timeout = fill_all is_unset_int m.single_timeout (map (λ p. p.single_timeout) ps);
}

merge_loop-fields : (m : Policy) (ps : List Policy) → merge_loop m ps ≡ fields m ps
unfolding merge_loop merge_step fields fill_all
merge_loop-fields m [] = refl
merge_loop-fields m (p ∷ ps) = merge_loop-fields (merge_step m p) ps

only_bool : (b : BoolWithDefault) → is_unset_bool b ≡ true → b ≡ bool_unset
only_bool b h = ground arith

only_dns : (d : DnsMode) → is_dns_unknown d ≡ true → d ≡ dns_unknown
only_dns d h = ground arith

only_mode : (m : Mode) → is_unknown m ≡ true → m ≡ unknown
only_mode m h = ground arith

only_nil : (o : Option Bytes) → is_nil o ≡ true → o ≡ none
only_nil none h = refl
only_nil (some b) h = ground arith

only_int : (z : ℤ) → is_unset_int z ≡ true → z ≡ unset_int
only_int z = eqb_ℤ_sound z unset_int

only_zero : (z : ℤ) → is_zero z ≡ true → z ≡ pos 0
only_zero z = eqb_ℤ_sound z (pos 0)

fields-merge_spec : (ps : List Policy) → fields merge_start ps ≡ merge_spec ps
unfolding fields merge_spec
fields-merge_spec ps = λ i. record {
  reply_first =
      fill_all-first_set is_unset_bool merge_start.reply_first (map (λ p. p.reply_first) ps) refl
        only_bool i;
  dns_mode =
      fill_all-first_set is_dns_unknown merge_start.dns_mode (map (λ p. p.dns_mode) ps) refl
        only_dns i;
  connect_timeout =
      fill_all-first_set is_unset_int merge_start.connect_timeout (map (λ p. p.connect_timeout) ps)
        refl only_int i;
  host = fill_all-first_set is_nil merge_start.host (map (λ p. p.host) ps) refl only_nil i;
  map_to = fill_all-first_set is_nil merge_start.map_to (map (λ p. p.map_to) ps) refl only_nil i;
  port = fill_all-first_set is_zero merge_start.port (map (λ p. p.port) ps) refl only_zero i;
  http_status =
      fill_all-first_set is_unset_int merge_start.http_status (map (λ p. p.http_status) ps) refl
        only_int i;
  tls13_only =
      fill_all-first_set is_unset_bool merge_start.tls13_only (map (λ p. p.tls13_only) ps) refl
        only_bool i;
  mode = fill_all-first_set is_unknown merge_start.mode (map (λ p. p.mode) ps) refl only_mode i;
  num_records =
      fill_all-first_set is_zero merge_start.num_records (map (λ p. p.num_records) ps) refl
        only_zero i;
  num_segments =
      fill_all-first_set is_zero merge_start.num_segments (map (λ p. p.num_segments) ps) refl
        only_zero i;
  oob = fill_all-first_set is_unset_bool merge_start.oob (map (λ p. p.oob) ps) refl only_bool i;
  oob_ex =
      fill_all-first_set is_unset_bool merge_start.oob_ex (map (λ p. p.oob_ex) ps) refl only_bool i;
  mod_minor_ver =
      fill_all-first_set is_unset_bool merge_start.mod_minor_ver (map (λ p. p.mod_minor_ver) ps)
        refl only_bool i;
  send_interval =
      fill_all-first_set is_unset_int merge_start.send_interval (map (λ p. p.send_interval) ps) refl
        only_int i;
  fake_ttl =
      fill_all-first_set is_unset_int merge_start.fake_ttl (map (λ p. p.fake_ttl) ps) refl only_int
        i;
  fake_sleep =
      fill_all-first_set is_zero merge_start.fake_sleep (map (λ p. p.fake_sleep) ps) refl only_zero
        i;
  max_ttl =
      fill_all-first_set is_zero merge_start.max_ttl (map (λ p. p.max_ttl) ps) refl only_zero i;
  attempts =
      fill_all-first_set is_zero merge_start.attempts (map (λ p. p.attempts) ps) refl only_zero i;
  single_timeout =
      fill_all-first_set is_unset_int merge_start.single_timeout (map (λ p. p.single_timeout) ps)
        refl only_int i;
}

-- For every list, each of the twenty fields of the merged policy is that of the first policy of
-- the list in which it differs from the value that `mergePolicies` compares it with: 0 for the port,
-- the numbers of records and segments, the sleep of the fake packet, the largest TTL and the
-- attempts, -1 for the other numbers, and the unset, unknown or nil value elsewhere. So the port -1
-- of a policy that was decoded without one is taken, and so is a 0 that is compared with -1. Where
-- no policy has another value the field has that one, but the mode and the DNS mode are then the
-- defaults.
pub merge_policies-merge_spec :
    (ps : List Policy) → merge_policies ps ≡ apply_policy_defaults (merge_spec ps)
unfolding merge_policies
merge_policies-merge_spec ps =
    ap apply_policy_defaults (merge_loop-fields merge_start ps ∙ fields-merge_spec ps)

-- Policies that do not block merge to one that does not.
pub merge_two-open :
    (q d : Policy)
    → is_block q.mode ≡ false
    → is_block d.mode ≡ false
    → is_block (merge_policies (q ∷ d ∷ [])).mode ≡ false
merge_two-open q d hq hd =
    rw merge_policies-merge_spec (unfold apply_policy_defaults merge_spec first_set in ground arith)

pub merge_three-open :
    (q r d : Policy)
    → is_block q.mode ≡ false
    → is_block r.mode ≡ false
    → is_block d.mode ≡ false
    → is_block (merge_policies (q ∷ r ∷ d ∷ [])).mode ≡ false
merge_three-open q r d hq hr hd =
    rw merge_policies-merge_spec (unfold apply_policy_defaults merge_spec first_set in ground arith)

-- A policy that was decoded without a port holds the sentinel -1 there, which the merge takes for a
-- port: the ports of the policies behind it, the default policy's too, never apply.
pub port_shadowed :
    (p : Policy) (ps : List Policy)
    → p.port ≡ unset_int
    → (merge_policies (p ∷ ps)).port ≡ unset_int
port_shadowed p ps h =
    rw merge_policies-merge_spec (unfold merge_spec first_set apply_policy_defaults in rw h)

-- The fallback policy of a host that no rule matches holds 0, not the sentinel, in its durations,
-- its HTTP status and its fake TTL. So the merge never takes these fields from the default policy.
pub plain_fallback_shadows :
    (d : Policy)
    → let m = merge_policies (plain_fallback_policy ∷ d ∷ []) in
      (m.connect_timeout ≡ pos 0)
      × (m.http_status ≡ pos 0)
      × (m.send_interval ≡ pos 0)
      × (m.fake_ttl ≡ pos 0)
      × (m.single_timeout ≡ pos 0)
      × (m.mode ≡ raw)
unfolding merge_policies plain_fallback_policy
plain_fallback_shadows d = (refl, refl, refl, refl, refl, refl)
