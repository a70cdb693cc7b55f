-- ===== src/Ip.antt =====
-- Addresses: lib/utils.c (rtr_get_bits), lib/ipv4.c, lib/ipv6.c and lib/ip.c. The union of an address
-- is a sum of the two versions, its words are numbers below 2 ^ 32, and a shift by 32 or more, which C
-- leaves open, is a division. Assertions are compiled out, as in a release build.
pub mod Bits
pub mod Words
pub mod AddrBits
pub mod Laws
pub mod Clear
mod Tests
use Prim.Native.Nat.{bit_and, min}
use rtrlib.Prelude.{
  ℕ, ◌+◌, ◌-◌, ◌*◌, ◌/◌, ◌%◌, ◌^◌, ◌<◌, ◌&&◌, Bool, true, false, ◌==◌, ltb, leb, if◌then◌else◌,
}

pub data IpVersion : Type 0 where
  ipv4 ipv6 : IpVersion

pub data IpAddr : Type 0 where
  v4 : ℕ → IpAddr
  v6 : ℕ → ℕ → ℕ → ℕ → IpAddr

abbrev pub ver : IpAddr → IpVersion
ver (v4 a) = ipv4
ver (v6 a b c d) = ipv6

-- The number of bits of an address.
abbrev pub width : IpVersion → ℕ
width ipv4 = 32
width ipv6 = 128

-- The words of the address are of type uint32_t.
abbrev pub IsWords : IpAddr → Type 0
IsWords (v4 a) = a < 2 ^ 32
IsWords (v6 a b c d) = (a < 2 ^ 32) × (b < 2 ^ 32) × (c < 2 ^ 32) × (d < 2 ^ 32)

abbrev pub u32_max : ℕ
u32_max = 2 ^ 32 - 1

unfoldable pub rtr_get_bits : ℕ → ℕ → ℕ → ℕ
rtr_get_bits val from number =
    let mask = if number == 32 then u32_max else u32_max - u32_max / 2 ^ number in
    bit_and (mask / 2 ^ from) val

-- `word k` of rtr_ipv6_get_bits: the bits of word `k` between `first_bit` and `first_bit + quantity`,
-- where `bits_left` are left to extract.
unfoldable pub ipv6_word : ℕ → ℕ → ℕ → ℕ → ℕ → ℕ
ipv6_word k val first_bit quantity bits_left =
    if leb first_bit (32 * k + 31) && ltb (32 * k) (first_bit + quantity)
    then rtr_get_bits val (if ltb first_bit (32 * k) then 0 else first_bit - 32 * k)
        (min bits_left 32)
    else 0

-- `bits_left` after word `k`.
unfoldable pub ipv6_left : ℕ → ℕ → ℕ → ℕ → ℕ
ipv6_left k first_bit quantity bits_left =
    if leb first_bit (32 * k + 31) && ltb (32 * k) (first_bit + quantity)
    then bits_left - min bits_left 32
    else bits_left

unfoldable pub rtr_ipv6_get_bits : ℕ → ℕ → ℕ → ℕ → ℕ → ℕ → IpAddr
rtr_ipv6_get_bits a b c d first_bit quantity =
    let first = if leb first_bit 31 then rtr_get_bits a first_bit (min quantity 32) else 0 in
    let left1 = if leb first_bit 31 then quantity - min quantity 32 else quantity in
    let left2 = ipv6_left 1 first_bit quantity left1 in
    let left3 = ipv6_left 2 first_bit quantity left2 in
    v6 first (ipv6_word 1 b first_bit quantity left1) (ipv6_word 2 c first_bit quantity left2)
      (ipv6_word 3 d first_bit quantity left3)

unfoldable pub rtr_ip_addr_get_bits : IpAddr → ℕ → ℕ → IpAddr
unfolding rtr_ipv6_get_bits ipv6_word ipv6_left
rtr_ip_addr_get_bits (v4 a) from number = v4 (rtr_get_bits a from number)
rtr_ip_addr_get_bits (v6 a b c d) from number = rtr_ipv6_get_bits a b c d from number

unfoldable pub rtr_ip_addr_is_zero : IpAddr → Bool
rtr_ip_addr_is_zero (v4 a) = a == 0
rtr_ip_addr_is_zero (v6 a b c d) = a == 0 && b == 0 && c == 0 && d == 0

unfoldable pub rtr_ip_addr_equal : IpAddr → IpAddr → Bool
rtr_ip_addr_equal (v4 a) (v4 b) = a == b
rtr_ip_addr_equal (v4 a) (v6 b0 b1 b2 b3) = false
rtr_ip_addr_equal (v6 a0 a1 a2 a3) (v4 b) = false
rtr_ip_addr_equal (v6 a0 a1 a2 a3) (v6 b0 b1 b2 b3) = a0 == b0 && a1 == b1 && a2 == b2 && a3 == b3

-- is_left_child of pfx/trie/trie.c: bit `lvl` is 0. The level is narrowed to a uint8_t.
unfoldable pub is_left_child : IpAddr → ℕ → Bool
unfolding rtr_ip_addr_is_zero rtr_ip_addr_get_bits
is_left_child addr lvl = rtr_ip_addr_is_zero (rtr_ip_addr_get_bits addr (lvl % 256) 1)

-- The first `n` bits agree, as trie_lookup compares them.
unfoldable pub equal_bits : IpAddr → IpAddr → ℕ → Bool
unfolding rtr_ip_addr_equal rtr_ip_addr_get_bits
equal_bits a b n = rtr_ip_addr_equal (rtr_ip_addr_get_bits a 0 n) (rtr_ip_addr_get_bits b 0 n)
