-- ===== src/Policy/Tests.antt =====
-- The theorems on the policies of internal/policy.go at small policies.
use bill_vpn.Common.{◌≡◌, [], ◌∷◌, pos}
use bill_vpn.Policy.{
  Policy, zero_policy, unset_int, merge_policies, apply_policy_defaults, tls_rf, direct, bool_true,
}
use bill_vpn.Policy.Merge.{merge_spec, merge_policies-merge_spec}

abbrev no_port : Policy
no_port = record zero_policy { port = unset_int; mode = direct }

abbrev default_port : Policy
default_port = record zero_policy { port = pos 443; mode = tls_rf; oob = bool_true }

merge_policies-merge_spec_example :
    merge_policies (no_port ∷ default_port ∷ [])
    ≡ apply_policy_defaults (merge_spec (no_port ∷ default_port ∷ []))
merge_policies-merge_spec_example = merge_policies-merge_spec (no_port ∷ default_port ∷ [])
