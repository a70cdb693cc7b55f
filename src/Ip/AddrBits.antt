-- ===== src/Ip/AddrBits.antt =====
-- is_left_child and equal_bits on whole addresses, bit by bit.
use Prim.Native.Nat.{min}
use native.Mathlib.Decide.{dec_lt}
use rtrlib.Prelude.{
  ℕ, ◌+◌, ◌-◌, ◌*◌, ◌%◌, ◌^◌, ◌≤◌, ◌<◌, ◌≡◌, ◌↔◌, refl, sym, ap, ◌∙◌, arith, Bool, true, false,
  ◌==◌, ==_iff, ltb, if◌then◌else◌,
}
use rtrlib.Ip.{
  IpAddr, v4, v6, ver, width, IsWords, rtr_get_bits, rtr_ipv6_get_bits, ipv6_word, ipv6_left,
  rtr_ip_addr_is_zero, rtr_ip_addr_equal, is_left_child, equal_bits,
}
use rtrlib.Ip.Words.{word_bit, leading, rtr_get_bits-leading, rtr_get_bits_single_zero, leading_iff}

-- Bit `i` of an address.
abbrev pub addr_bit : IpAddr → ℕ → ℕ
addr_bit (v4 a) i = word_bit a i
addr_bit (v6 a b c d) i =
    if ltb i 32
    then word_bit a i
    else if ltb i 64
    then word_bit b (i - 32)
    else if ltb i 96
    then word_bit c (i - 64)
    else word_bit d (i - 96)

single_0 : (a b c d i : ℕ) → i < 32 → rtr_ipv6_get_bits a b c d i 1 ≡ v6 (rtr_get_bits a i 1) 0 0 0
unfolding rtr_ipv6_get_bits ipv6_word ipv6_left
single_0 a b c d i h = ground arith

single_1 :
    (a b c d i : ℕ)
    → 32 ≤ i
    → i < 64
    → rtr_ipv6_get_bits a b c d i 1 ≡ v6 0 (rtr_get_bits b (i - 32) 1) 0 0
unfolding rtr_ipv6_get_bits ipv6_word ipv6_left
single_1 a b c d i h k = ground arith

single_2 :
    (a b c d i : ℕ)
    → 64 ≤ i
    → i < 96
    → rtr_ipv6_get_bits a b c d i 1 ≡ v6 0 0 (rtr_get_bits c (i - 64) 1) 0
unfolding rtr_ipv6_get_bits ipv6_word ipv6_left
single_2 a b c d i h k = ground arith

single_3 :
    (a b c d i : ℕ)
    → 96 ≤ i
    → i < 128
    → rtr_ipv6_get_bits a b c d i 1 ≡ v6 0 0 0 (rtr_get_bits d (i - 96) 1)
unfolding rtr_ipv6_get_bits ipv6_word ipv6_left
single_3 a b c d i h k = ground arith

level_lem : (i : ℕ) → i < 128 → i % 256 ≡ i
level_lem i h = omega arith

-- The one bit of a word that is extracted is 0.
zero_of_v6 :
    (a b c d i : ℕ)
    → i < 128
    → (rtr_ip_addr_is_zero (rtr_ipv6_get_bits a b c d i 1) ≡ true) ↔ (addr_bit (v6 a b c d) i ≡ 0)
unfolding rtr_ip_addr_is_zero
zero_of_v6 a b c d i h = elim (dec_lt i 32) [
  | yes p ↦ rw (single_0 a b c d i p) (ground (arith, rtr_get_bits_single_zero a i))
  | no p ↦ elim (dec_lt i 64) [
    | yes q ↦
        rw (single_1 a b c d i (omega arith) q)
          (ground (arith, rtr_get_bits_single_zero b (i - 32)))
    | no q ↦ elim (dec_lt i 96) [
      | yes s ↦
          rw (single_2 a b c d i (omega arith) s)
            (ground (arith, rtr_get_bits_single_zero c (i - 64)))
      | no s ↦
          rw (single_3 a b c d i (omega arith) h)
            (ground (arith, rtr_get_bits_single_zero d (i - 96)))
    ]
  ]
]

is_left_child_v6 :
    (a b c d i : ℕ)
    → i < 128
    → is_left_child (v6 a b c d) i ≡ rtr_ip_addr_is_zero (rtr_ipv6_get_bits a b c d i 1)
unfolding is_left_child
is_left_child_v6 a b c d i h = rw (level_lem i h)

is_left_child_v4 : (a i : ℕ) → i < 128 → is_left_child (v4 a) i ≡ (rtr_get_bits a i 1 == 0)
unfolding is_left_child
is_left_child_v4 a i h = rw (level_lem i h)

is_left_child_iff :
    (a : IpAddr) (i : ℕ) → i < width (ver a) → (is_left_child a i ≡ true) ↔ (addr_bit a i ≡ 0)
is_left_child_iff (v4 a) i h =
    rw (is_left_child_v4 a i (omega arith)) (ground (arith, rtr_get_bits_single_zero a i))
is_left_child_iff (v6 a b c d) i h = rw (is_left_child_v6 a b c d i h) (zero_of_v6 a b c d i h)

word_leading :
    (k v n left : ℕ)
    → v < 2 ^ 32
    → left ≡ n - 32 * k
    → ipv6_word k v 0 n left ≡ leading v (min left 32)
unfolding ipv6_word
word_leading k v n left h e = elim (dec_lt (32 * k) n) [
  | yes p ↦ ground (arith, rtr_get_bits-leading v (min left 32))
  | no p ↦ let z : min left 32 ≡ 0 = omega arith in rw z (ground arith)
]

left_1 : (n : ℕ) → n - min n 32 ≡ n - 32 * 1
left_1 n = omega arith

left_suc : (k n left : ℕ) → left ≡ n - 32 * k → ipv6_left k 0 n left ≡ n - 32 * (k + 1)
unfolding ipv6_left
left_suc k n left e = ground arith

rtr_ipv6_get_bits-leading :
    (a b c d n : ℕ)
    → IsWords (v6 a b c d)
    → rtr_ipv6_get_bits a b c d 0 n
      ≡ v6
          (leading a (min n 32))
          (leading b (min (n - 32) 32))
          (leading c (min (n - 64) 32))
          (leading d (min (n - 96) 32))
unfolding rtr_ipv6_get_bits
rtr_ipv6_get_bits-leading a b c d n h = λ i. v6 (first i) (second i) (third i) (fourth i)
  where
    lefts : ℕ → ℕ
    lefts k = n - 32 * k

    left2 : ipv6_left 1 0 n (n - min n 32) ≡ n - 32 * 2
    left2 = left_suc 1 n (n - min n 32) (left_1 n)

    left3 : ipv6_left 2 0 n (ipv6_left 1 0 n (n - min n 32)) ≡ n - 32 * 3
    left3 = left_suc 2 n (ipv6_left 1 0 n (n - min n 32)) left2

    first : rtr_get_bits a 0 (min n 32) ≡ leading a (min n 32)
    first = rtr_get_bits-leading a (min n 32) h.0 (omega arith)

    second : ipv6_word 1 b 0 n (n - min n 32) ≡ leading b (min (n - 32) 32)
    second =
        word_leading 1 b n (n - min n 32) h.1 (left_1 n) ∙ ap (λ t. leading b (min t 32)) (left_1 n)

    third : ipv6_word 2 c 0 n (ipv6_left 1 0 n (n - min n 32)) ≡ leading c (min (n - 64) 32)
    third =
        word_leading 2 c n (ipv6_left 1 0 n (n - min n 32)) h.2 left2
        ∙ ap (λ t. leading c (min t 32)) left2

    fourth :
        ipv6_word 3 d 0 n (ipv6_left 2 0 n (ipv6_left 1 0 n (n - min n 32)))
        ≡ leading d (min (n - 96) 32)
    fourth =
        word_leading 3 d n (ipv6_left 2 0 n (ipv6_left 1 0 n (n - min n 32))) h.3 left3
        ∙ ap (λ t. leading d (min t 32)) left3

-- The first `n` bits of two addresses of one version are extracted to the same address exactly if they
-- are the same one by one.
abbrev pub SameBits : IpAddr → IpAddr → ℕ → Type 0
SameBits a b n = (i : ℕ) → i < n → addr_bit a i ≡ addr_bit b i

bit_0 : (a b c d i : ℕ) → i < 32 → addr_bit (v6 a b c d) i ≡ word_bit a i
bit_0 a b c d i h = ground arith

bit_1 : (a b c d i : ℕ) → 32 ≤ i → i < 64 → addr_bit (v6 a b c d) i ≡ word_bit b (i - 32)
bit_1 a b c d i h k = ground arith

bit_2 : (a b c d i : ℕ) → 64 ≤ i → i < 96 → addr_bit (v6 a b c d) i ≡ word_bit c (i - 64)
bit_2 a b c d i h k = ground arith

bit_3 : (a b c d i : ℕ) → 96 ≤ i → addr_bit (v6 a b c d) i ≡ word_bit d (i - 96)
bit_3 a b c d i h = ground arith

-- Bits of word `k` among the first `n` bits.
word_part :
    (n : ℕ) (v w : ℕ)
    → v < 2 ^ 32
    → w < 2 ^ 32
    → (leading v (min n 32) ≡ leading w (min n 32))
      ↔ ((i : ℕ) → i < min n 32 → word_bit v i ≡ word_bit w i)
word_part n v w hv hw = leading_iff v w (min n 32) hv hw (omega arith)

abbrev WordsSame : IpAddr → IpAddr → ℕ → Type 0
WordsSame (v6 a0 a1 a2 a3) (v6 b0 b1 b2 b3) n =
    (leading a0 (min n 32) ≡ leading b0 (min n 32))
    × (leading a1 (min (n - 32) 32) ≡ leading b1 (min (n - 32) 32))
    × (leading a2 (min (n - 64) 32) ≡ leading b2 (min (n - 64) 32))
    × (leading a3 (min (n - 96) 32) ≡ leading b3 (min (n - 96) 32))
WordsSame (v6 a0 a1 a2 a3) (v4 b) n = ⊥
WordsSame (v4 a) b n = ⊥

module _ (a0 a1 a2 a3 b0 b1 b2 b3 n : ℕ) (ha : IsWords (v6 a0 a1 a2 a3))
    (hb : IsWords (v6 b0 b1 b2 b3)) (h : n ≤ 128) where
  bits_of_words :
      WordsSame (v6 a0 a1 a2 a3) (v6 b0 b1 b2 b3) n → SameBits (v6 a0 a1 a2 a3) (v6 b0 b1 b2 b3) n
  bits_of_words s i l = elim (dec_lt i 32) [
    | yes p ↦
        bit_0 a0 a1 a2 a3 i p
        ∙ (word_part n a0 b0 ha.0 hb.0).0 s.0 i (omega arith)
        ∙ sym (bit_0 b0 b1 b2 b3 i p)
    | no p ↦ elim (dec_lt i 64) [
      | yes q ↦
          bit_1 a0 a1 a2 a3 i (omega arith) q
          ∙ (word_part (n - 32) a1 b1 ha.1 hb.1).0 s.1 (i - 32) (omega arith)
          ∙ sym (bit_1 b0 b1 b2 b3 i (omega arith) q)
      | no q ↦ elim (dec_lt i 96) [
        | yes t ↦
            bit_2 a0 a1 a2 a3 i (omega arith) t
            ∙ (word_part (n - 64) a2 b2 ha.2 hb.2).0 s.2 (i - 64) (omega arith)
            ∙ sym (bit_2 b0 b1 b2 b3 i (omega arith) t)
        | no t ↦
            bit_3 a0 a1 a2 a3 i (omega arith)
            ∙ (word_part (n - 96) a3 b3 ha.3 hb.3).0 s.3 (i - 96) (omega arith)
            ∙ sym (bit_3 b0 b1 b2 b3 i (omega arith))
      ]
    ]
  ]

  words_of_bits :
      SameBits (v6 a0 a1 a2 a3) (v6 b0 b1 b2 b3) n → WordsSame (v6 a0 a1 a2 a3) (v6 b0 b1 b2 b3) n
  words_of_bits f = (
    (word_part n a0 b0 ha.0 hb.0).1 (λ i l. ground (arith, f i)),
    (word_part (n - 32) a1 b1 ha.1 hb.1).1
        (λ i l. let e : i + 32 - 32 ≡ i = omega arith in ground (arith, e, f (i + 32))),
    (word_part (n - 64) a2 b2 ha.2 hb.2).1
        (λ i l. let e : i + 64 - 64 ≡ i = omega arith in ground (arith, e, f (i + 64))),
    (word_part (n - 96) a3 b3 ha.3 hb.3).1
        (λ i l. let e : i + 96 - 96 ≡ i = omega arith in ground (arith, e, f (i + 96))),
  )

equal_bits_v4 :
    (a b n : ℕ) → equal_bits (v4 a) (v4 b) n ≡ (rtr_get_bits a 0 n == rtr_get_bits b 0 n)
unfolding equal_bits
equal_bits_v4 a b n = refl

equal_bits_v6 :
    (a0 a1 a2 a3 b0 b1 b2 b3 n : ℕ)
    → equal_bits (v6 a0 a1 a2 a3) (v6 b0 b1 b2 b3) n
      ≡ rtr_ip_addr_equal (rtr_ipv6_get_bits a0 a1 a2 a3 0 n) (rtr_ipv6_get_bits b0 b1 b2 b3 0 n)
unfolding equal_bits
equal_bits_v6 a0 a1 a2 a3 b0 b1 b2 b3 n = refl

same_words :
    (a0 a1 a2 a3 b0 b1 b2 b3 : ℕ)
    → (rtr_ip_addr_equal (v6 a0 a1 a2 a3) (v6 b0 b1 b2 b3) ≡ true)
      ↔ ((a0 ≡ b0) × (a1 ≡ b1) × (a2 ≡ b2) × (a3 ≡ b3))
unfolding rtr_ip_addr_equal
same_words a0 a1 a2 a3 b0 b1 b2 b3 = ground arith

equal_v6_iff :
    (a0 a1 a2 a3 b0 b1 b2 b3 n : ℕ)
    → IsWords (v6 a0 a1 a2 a3)
    → IsWords (v6 b0 b1 b2 b3)
    → (equal_bits (v6 a0 a1 a2 a3) (v6 b0 b1 b2 b3) n ≡ true)
      ↔ WordsSame (v6 a0 a1 a2 a3) (v6 b0 b1 b2 b3) n
equal_v6_iff a0 a1 a2 a3 b0 b1 b2 b3 n ha hb =
    rw
      (
        equal_bits_v6 a0 a1 a2 a3 b0 b1 b2 b3 n,
        rtr_ipv6_get_bits-leading a0 a1 a2 a3 n ha,
        rtr_ipv6_get_bits-leading b0 b1 b2 b3 n hb,
      )
      (same_words _ _ _ _ _ _ _ _)

-- The first `n` bits are compared one by one.
pub equal_bits_iff_bits :
    (a b : IpAddr) (n : ℕ)
    → IsWords a
    → IsWords b
    → ver a ≡ ver b
    → n ≤ width (ver a)
    → (equal_bits a b n ≡ true) ↔ SameBits a b n
equal_bits_iff_bits (v4 a) (v4 b) n ha hb hv h =
    rw (equal_bits_v4 a b n, rtr_get_bits-leading a n ha h, rtr_get_bits-leading b n hb h)
      (let q = ==_iff (leading a n) (leading b n) in
        let k = leading_iff a b n ha hb h in (λ e. k.0 (q.0 e), λ f. q.1 (k.1 f)))
equal_bits_iff_bits (v4 a) (v6 b0 b1 b2 b3) n ha hb hv h = cc
equal_bits_iff_bits (v6 a0 a1 a2 a3) (v4 b) n ha hb hv h = cc
equal_bits_iff_bits (v6 a0 a1 a2 a3) (v6 b0 b1 b2 b3) n ha hb hv h =
    let q = equal_v6_iff a0 a1 a2 a3 b0 b1 b2 b3 n ha hb in
    (
      λ e. bits_of_words a0 a1 a2 a3 b0 b1 b2 b3 n ha hb h (q.0 e),
      λ f. q.1 (words_of_bits a0 a1 a2 a3 b0 b1 b2 b3 n ha hb h f),
    )

leading_all : (a : ℕ) → leading a 32 ≡ a
leading_all a = omega arith

-- Two addresses of one version with the same bits are the same.
pub eq_of_bits :
    (a b : IpAddr) → IsWords a → IsWords b → ver a ≡ ver b → SameBits a b (width (ver a)) → a ≡ b
eq_of_bits (v4 a) (v4 b) ha hb hv f =
    ap v4 (sym (leading_all a) ∙ (leading_iff a b 32 ha hb (omega arith)).1 f ∙ leading_all b)
eq_of_bits (v4 a) (v6 b0 b1 b2 b3) ha hb hv f = cc
eq_of_bits (v6 a0 a1 a2 a3) (v4 b) ha hb hv f = cc
eq_of_bits (v6 a0 a1 a2 a3) (v6 b0 b1 b2 b3) ha hb hv f =
    let s = words_of_bits a0 a1 a2 a3 b0 b1 b2 b3 128 ha hb (omega arith) f in
    let e0 : a0 ≡ b0 = sym (leading_all a0) ∙ s.0 ∙ leading_all b0 in
    let e1 : a1 ≡ b1 = sym (leading_all a1) ∙ s.1 ∙ leading_all b1 in
    let e2 : a2 ≡ b2 = sym (leading_all a2) ∙ s.2 ∙ leading_all b2 in
    let e3 : a3 ≡ b3 = sym (leading_all a3) ∙ s.3 ∙ leading_all b3 in cc

pub addr_bit-lt : (a : IpAddr) (i : ℕ) → addr_bit a i < 2
addr_bit-lt (v4 a) i = omega arith
addr_bit-lt (v6 a b c d) i = ground arith

sides :
    (p q : Bool) (x y : ℕ)
    → x < 2
    → y < 2
    → (p ≡ true) ↔ (x ≡ 0)
    → (q ≡ true) ↔ (y ≡ 0)
    → (p ≡ q) ↔ (x ≡ y)
sides true true x y hx hy f g = ground arith
sides true false x y hx hy f g = ground arith
sides false true x y hx hy f g = ground arith
sides false false x y hx hy f g = ground arith

-- A bit decides the side on which an address stands.
pub same_side_iff :
    (a b : IpAddr) (i : ℕ)
    → ver a ≡ ver b
    → i < width (ver a)
    → (is_left_child a i ≡ is_left_child b i) ↔ (addr_bit a i ≡ addr_bit b i)
same_side_iff a b i hv h =
    sides (is_left_child a i) (is_left_child b i) (addr_bit a i) (addr_bit b i) (addr_bit-lt a i)
      (addr_bit-lt b i) (is_left_child_iff a i h) (is_left_child_iff b i (rw hv at h))
