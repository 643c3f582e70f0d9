-- ===== src/Gfw/Tests.antt =====
-- The theorem on internal/gfwlist.go for a list with a comment, a rule and an exception.
use bill_vpn.Common.{
  ◌≡◌, refl, ◌↔◌, Bool, false, none, some, List, [], ◌∷◌, ◌++◌, Bytes, Bytes-discrete, ℕ_discrete,
  codes, ◌==◌,
}
use bill_vpn.FakeIp.{to_lower}
use bill_vpn.Tunnel.Dispatch.{has_prefix}
use bill_vpn.Gfw.{
  Outside, trim_left, trim_right, remove, split_lines, before_any, contains, url_part, port_part,
  match_host, extract_host, normalize_rule, rule_of, less, insert_key, add_rule, collect,
  parse_embedded,
}
use bill_vpn.Gfw.Members.{In, side}
use bill_vpn.Gfw.Hosts.{Host, IsHost}
use bill_vpn.Gfw.Lists.{Entry, comment, rule, exception, Listed, parse_embedded-Listed}

program : Unit {0}
unfolding trim_left trim_right remove split_lines before_any contains url_part port_part match_host
    extract_host normalize_rule rule_of less insert_key add_rule collect parse_embedded has_prefix
    to_lower Bytes-discrete ℕ_discrete
program = tt

abbrev blocked_host : Host
blocked_host = record { first = b'b'; middle = codes "."; last = b'a' }

abbrev bypass_host : Host
bypass_host = record { first = b'c'; middle = codes "."; last = b'a' }

abbrev entries : List Entry
entries = comment (codes "c") ∷ rule blocked_host ∷ exception bypass_host ∷ []

abbrev text : Bytes
text = codes "!c" ++ (10 ∷ (codes "||b.a" ++ (10 ∷ (codes "@@||c.a" ++ (10 ∷ [])))))

abbrev outside : Outside
outside = record {
  is_space = λ c. c == b' ';
  decode = λ s. some text;
  url_host = λ s. [];
  split_host_port = λ s. none;
  find_host = λ s. s;
  is_ip = λ s. false;
}

blocked_host-IsHost : IsHost outside blocked_host
unfolding program
blocked_host-IsHost = record {
  plain = ((refl, refl), ((refl, refl), ((refl, refl), tt)));
  first_plain = ((refl, refl), refl);
  last_plain = ((refl, refl), refl);
  lower = refl;
  no_port = refl;
  found = refl;
  no_ip = refl;
}

bypass_host-IsHost : IsHost outside bypass_host
unfolding program
bypass_host-IsHost = record {
  plain = ((refl, refl), ((refl, refl), ((refl, refl), tt)));
  first_plain = ((refl, refl), refl);
  last_plain = ((refl, refl), refl);
  lower = refl;
  no_port = refl;
  found = refl;
  no_ip = refl;
}

parse_embedded-Listed_example :
    (sets : List Bytes × List Bytes) × (parse_embedded outside (codes "eA= ") ≡ some sets)
    × ((bypass : Bool) (p : Bytes) → In p (side bypass sets) ↔ Listed bypass p entries)
parse_embedded-Listed_example =
    parse_embedded-Listed outside (codes "eA= ") entries (refl, refl, refl)
      ((refl, tt), (blocked_host-IsHost, (bypass_host-IsHost, tt))) refl

listed : parse_embedded outside (codes "eA= ") ≡ some (codes "*b.a" ∷ [], codes "*c.a" ∷ [])
unfolding program
listed = refl
