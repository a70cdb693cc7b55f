-- ===== src/Ip/Laws.antt =====
-- What the trie needs of addresses, bit by bit.
use native.Mathlib.Decide.{ℕ_discrete}
use rtrlib.Prelude.{arith, suc, ℕ, ◌≤◌, ◌<◌, ◌≡◌, ◌↔◌, true}
use rtrlib.Ip.AddrBits.{equal_bits_iff_bits, same_side_iff, eq_of_bits}
use rtrlib.Ip.{v4, v6, IpAddr, ver, width, IsWords, rtr_ip_addr_equal, is_left_child, equal_bits}

-- The first `n` bits of `a` and `b` are the same.
abbrev pub Agree : IpAddr → IpAddr → ℕ → Type 0
Agree a b n = (i : ℕ) → i < n → is_left_child a i ≡ is_left_child b i

-- rtr_ip_addr_equal decides equality of addresses, of the version too.
pub rtr_ip_addr_equal_iff : (a b : IpAddr) → (rtr_ip_addr_equal a b ≡ true) ↔ (a ≡ b)
unfolding rtr_ip_addr_equal
rtr_ip_addr_equal_iff (v4 a) (v4 b) = ground arith
rtr_ip_addr_equal_iff (v4 a) (v6 b0 b1 b2 b3) = ground arith
rtr_ip_addr_equal_iff (v6 a0 a1 a2 a3) (v4 b) = ground arith
rtr_ip_addr_equal_iff (v6 a0 a1 a2 a3) (v6 b0 b1 b2 b3) = ground arith

-- For two addresses of one version with words of 32 bits and a length within their width, the comparison of trie_lookup by
-- rtr_ip_addr_get_bits and rtr_ip_addr_equal holds exactly if is_left_child answers the same for both
-- addresses at every level below that length.
pub equal_bits_iff :
    (a b : IpAddr) (n : ℕ)
    → IsWords a
    → IsWords b
    → ver a ≡ ver b
    → n ≤ width (ver a)
    → (equal_bits a b n ≡ true) ↔ Agree a b n
equal_bits_iff a b n ha hb hv h =
    let q = equal_bits_iff_bits a b n ha hb hv h in
    (
      λ e i l. (same_side_iff a b i hv (omega arith)).1 (q.0 e i l),
      λ f. q.1 (λ i l. (same_side_iff a b i hv (omega arith)).0 (f i l)),
    )

-- Two addresses of one version with words of 32 bits for which is_left_child answers the same at every level are equal.
pub eq_of_Agree :
    (a b : IpAddr) → IsWords a → IsWords b → ver a ≡ ver b → Agree a b (width (ver a)) → a ≡ b
eq_of_Agree a b ha hb hv h = eq_of_bits a b ha hb hv (λ i l. (same_side_iff a b i hv l).0 (h i l))

-- One more bit that agrees.
pub Agree-suc :
    (a b : IpAddr) (n : ℕ) → Agree a b n → is_left_child a n ≡ is_left_child b n → Agree a b (suc n)
Agree-suc a b n h e i lt = elim (ℕ_discrete i n) [ yes p ↦ rw p e | no p ↦ h i (omega arith) ]
