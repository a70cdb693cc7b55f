-- ===== src/Ip/Tests.antt =====
-- The address laws at concrete addresses.
use rtrlib.Prelude.{◌≡◌, ◌↔◌, refl, true, arith}
use rtrlib.Ip.{IpAddr, v4, v6, rtr_get_bits, equal_bits, rtr_ip_addr_equal}
use rtrlib.Ip.Laws.{Agree, equal_bits_iff, eq_of_Agree, rtr_ip_addr_equal_iff}

abbrev ten : IpAddr
ten = v4 167772160

abbrev ten_one : IpAddr
ten_one = v4 167837696

abbrev doc : IpAddr
doc = v6 536939960 0 0 1

same_network : equal_bits ten ten_one 15 ≡ true
unfolding equal_bits rtr_get_bits
same_network = refl

equal_bits_iff_example : (equal_bits ten ten_one 15 ≡ true) ↔ Agree ten ten_one 15
equal_bits_iff_example =
    equal_bits_iff ten ten_one 15 (omega arith) (omega arith) refl (omega arith)

eq_of_Agree_example : doc ≡ doc
eq_of_Agree_example =
    eq_of_Agree doc doc (omega arith, omega arith, omega arith, omega arith)
      (omega arith, omega arith, omega arith, omega arith) refl (λ i h. refl)

rtr_ip_addr_equal_iff_example : (rtr_ip_addr_equal ten ten_one ≡ true) ↔ (ten ≡ ten_one)
rtr_ip_addr_equal_iff_example = rtr_ip_addr_equal_iff ten ten_one
