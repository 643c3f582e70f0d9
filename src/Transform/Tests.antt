-- ===== src/Transform/Tests.antt =====
-- The theorem on `transformIP` of internal/utils.go for 192.168.77.5 and 10.1.32.0/19.
use bill_vpn.Common.{◌≡◌, refl, true, some, none, [], ◌∷◌, Bytes, codes, if◌then◌else◌, arith}
use bill_vpn.Transform.{Netip, same, transform_ip, new_bytes, new_byte}
use bill_vpn.Transform.Prefix.{join_all, transform_ip-join_all}

abbrev ip : Bytes
ip = 192 ∷ 168 ∷ 77 ∷ 5 ∷ []

abbrev net : Bytes
net = 10 ∷ 1 ∷ 32 ∷ 0 ∷ []

abbrev netip : Netip
netip = record {
  parse_addr = λ s. some (true, ip);
  parse_prefix = λ s. some (true, net, 19);
  to_text = λ b. b;
}

moved : new_bytes 19 0 net ip ≡ 10 ∷ 1 ∷ 45 ∷ 5 ∷ []
unfolding new_bytes new_byte
moved = refl

transform_ip-join_all_example :
    transform_ip netip (codes "i") (codes "n")
    ≡ (if same true true then some (join_all 19 0 net ip) else none)
transform_ip-join_all_example =
    transform_ip-join_all netip (codes "i") (codes "n") ip net true true 19 refl refl
      (omega arith, (omega arith, (omega arith, (omega arith, tt))))
      (omega arith, (omega arith, (omega arith, (omega arith, tt))))
