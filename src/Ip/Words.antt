-- ===== src/Ip/Words.antt =====
-- rtr_get_bits on one word, bit by bit. Bit 0 is the first, that of the highest value.
use native.Mathlib.Decide.{ℕ_discrete}
use native.Mathlib.Nat.{mul-div_cancel}
use rtrlib.Prelude.{
  if◌then◌else◌, ℕ, zero, suc, ◌+◌, ◌-◌, ◌*◌, ◌/◌, ◌%◌, ◌^◌, ◌≤◌, ◌<◌, ◌≡◌, ◌↔◌, refl, sym, ap, ◌∙◌,
  arith, Bool, true, ◌==◌, ==_iff,
}
use rtrlib.Ip.{false, rtr_get_bits, u32_max}
use rtrlib.Ip.Bits.{shift_suc', bit_and_single, bit_and_leading, pow_pos}

-- The test holds for every number below the bound.
unfoldable pub check_below : ℕ → (ℕ → Bool) → Bool
check_below zero test = true
check_below (suc bound) test = if test bound then check_below bound test else false

pub check_below_sound :
    (bound : ℕ) (test : ℕ → Bool) (i : ℕ)
    → check_below bound test ≡ true
    → i < bound
    → test i ≡ true
unfolding check_below
check_below_sound zero test i h b = absurd (omega arith)
check_below_sound (suc bound) test i h b = elim (ℕ_discrete i bound) [
  | yes e ↦ rw e (ground arith)
  | no e ↦ check_below_sound bound test i (ground arith) (omega arith)
]

abbrev mask_of : ℕ → ℕ
mask_of n = if n == 32 then u32_max else u32_max - u32_max / 2 ^ n

single_table : check_below 32 (λ i. mask_of 1 / 2 ^ i == 2 ^ (31 - i)) ≡ true
unfolding check_below
single_table = refl

leading_table : check_below 33 (λ n. mask_of n / 2 ^ 0 == 2 ^ 32 - 2 ^ (32 - n)) ≡ true
unfolding check_below
leading_table = refl

-- Bit `i` of a word.
abbrev pub word_bit : ℕ → ℕ → ℕ
word_bit v i = (v / 2 ^ (31 - i)) % 2

-- The first `n` bits of a word.
abbrev pub leading : ℕ → ℕ → ℕ
leading v n = v / 2 ^ (32 - n) * 2 ^ (32 - n)

pub rtr_get_bits_single : (v i : ℕ) → i < 32 → rtr_get_bits v i 1 ≡ word_bit v i * 2 ^ (31 - i)
unfolding rtr_get_bits
rtr_get_bits_single v i h =
    rw ((==_iff _ _).0 (check_below_sound 32 _ i single_table h)) (bit_and_single (31 - i) v)

pub rtr_get_bits-leading : (v n : ℕ) → v < 2 ^ 32 → n ≤ 32 → rtr_get_bits v 0 n ≡ leading v n
unfolding rtr_get_bits
rtr_get_bits-leading v n h k =
    let e : n + (32 - n) ≡ 32 = omega arith in
    rw ((==_iff _ _).0 (check_below_sound 33 _ n leading_table (omega arith)))
      (rw e at (bit_and_leading n (32 - n) v (rw e h)))

mul_cancel : (x y k : ℕ) → x * 2 ^ k ≡ y * 2 ^ k → x ≡ y
mul_cancel x y k e =
    sym (mul-div_cancel x (pow_pos k)) ∙ ap (λ (t : ℕ). t / 2 ^ k) e ∙ mul-div_cancel y (pow_pos k)

pub rtr_get_bits_single_zero : (v i : ℕ) → i < 32 → (rtr_get_bits v i 1 ≡ 0) ↔ (word_bit v i ≡ 0)
rtr_get_bits_single_zero v i h = (
  λ e. mul_cancel (word_bit v i) 0 (31 - i) (sym (rtr_get_bits_single v i h) ∙ e ∙ omega arith),
  λ e. rtr_get_bits_single v i h ∙ rw e (omega arith),
)

-- One more bit: what is before it, and the bit itself.
shifted_suc : (v n : ℕ) → n < 32 → v / 2 ^ (32 - n) ≡ v / 2 ^ (32 - suc n) / 2
shifted_suc v n h =
    let e : 32 - n ≡ suc (31 - n) = omega arith in
    let f : 32 - suc n ≡ 31 - n = omega arith in rw (e, f) (shift_suc' v (31 - n))

bit_of_shifted : (v n : ℕ) → word_bit v n ≡ v / 2 ^ (32 - suc n) % 2
bit_of_shifted v n = let f : 32 - suc n ≡ 31 - n = omega arith in rw f

abbrev SameShifted : ℕ → ℕ → ℕ → Type 0
SameShifted v w n =
    (v / 2 ^ (32 - n) ≡ w / 2 ^ (32 - n)) ↔ ((i : ℕ) → i < n → word_bit v i ≡ word_bit w i)

shifted_step : (v w n : ℕ) → n < 32 → SameShifted v w n → SameShifted v w (suc n)
shifted_step v w n h ih = (to, from)
  where
    to :
        v / 2 ^ (32 - suc n) ≡ w / 2 ^ (32 - suc n)
        → (i : ℕ) → i < suc n
        → word_bit v i ≡ word_bit w i
    to e i b = elim (ℕ_discrete i n) [
      | yes p ↦ rw p (bit_of_shifted v n ∙ ap (λ (t : ℕ). t % 2) e ∙ sym (bit_of_shifted w n))
      | no p ↦
          ih.0 (shifted_suc v n h ∙ ap (λ (t : ℕ). t / 2) e ∙ sym (shifted_suc w n h)) i
            (omega arith)
    ]

    from :
        ((i : ℕ) → i < suc n → word_bit v i ≡ word_bit w i)
        → v / 2 ^ (32 - suc n) ≡ w / 2 ^ (32 - suc n)
    from f = omega (
      arith,
      ih.1 (λ i b. f i (omega arith)),
      f n (omega arith),
      shifted_suc v n h,
      shifted_suc w n h,
      bit_of_shifted v n,
      bit_of_shifted w n,
    )

-- The first bits as a number are the same exactly if they are the same one by one.
shifted_iff : (v w n : ℕ) → v < 2 ^ 32 → w < 2 ^ 32 → n ≤ 32 → SameShifted v w n
shifted_iff v w zero hv hw h = (λ _ i b. absurd (omega arith), λ _. omega arith)
shifted_iff v w (suc n) hv hw h = shifted_step v w n h (shifted_iff v w n hv hw (omega arith))

pub leading_iff :
    (v w n : ℕ)
    → v < 2 ^ 32
    → w < 2 ^ 32
    → n ≤ 32
    → (leading v n ≡ leading w n) ↔ ((i : ℕ) → i < n → word_bit v i ≡ word_bit w i)
leading_iff v w n hv hw h =
    let s = shifted_iff v w n hv hw h in
    (
      λ e. s.0 (mul_cancel (v / 2 ^ (32 - n)) (w / 2 ^ (32 - n)) (32 - n) e),
      λ f. ap (λ (t : ℕ). t * 2 ^ (32 - n)) (s.1 f),
    )
