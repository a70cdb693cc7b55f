-- ===== src/Ip/Bits.antt =====
-- rtr_get_bits as arithmetic: the mask keeps the leading bits of a word, or one of its bits.
use Prim.Native.Nat.{min, bit_and, digits, bit_and-bitwise}
use native.Mathlib.Nat.{mul_comm, pow-suc, div-div-eq-div-mul}
use rtrlib.Prelude.{
  ◌∙◌, ap, sym, ℕ, zero, suc, ◌+◌, ◌-◌, ◌*◌, ◌/◌, ◌%◌, ◌^◌, ◌≤◌, ◌<◌, ◌≡◌, refl, arith,
}

-- The conjunction of `x` and `y`, digit by digit, where `fuel` digits of `x` are read.
abbrev and_from : ℕ → ℕ → ℕ → ℕ
and_from fuel x y = digits (λ _. zero) min fuel x y

and_from-zero : (fuel y : ℕ) → and_from fuel zero y ≡ zero
and_from-zero zero y = refl
and_from-zero (suc fuel) y = refl

-- Fuel beyond `x` changes nothing.
enough_fuel : (x y k j : ℕ) → x ≤ k → x ≤ j → and_from k x y ≡ and_from j x y
enough_fuel zero y k j hk hj = and_from-zero k y ∙ sym (and_from-zero j y)
enough_fuel (suc x) y zero j hk hj = absurd (omega arith)
enough_fuel (suc x) y (suc k) zero hk hj = absurd (omega arith)
enough_fuel (suc x) y (suc k) (suc j) hk hj =
    let rest = enough_fuel (suc x / 2) (y / 2) k j (omega arith) (omega arith) in
    omega (arith, rest)

zero-bit_and : (y : ℕ) → bit_and zero y ≡ zero
zero-bit_and y = bit_and-bitwise zero y

-- The last digit, and the digits in front of it.
bit_and_step : (x y : ℕ) → bit_and x y ≡ min (x % 2) (y % 2) + 2 * bit_and (x / 2) (y / 2)
bit_and_step zero y = omega (arith, zero-bit_and (y / 2), zero-bit_and y)
bit_and_step (suc x) y =
    let half = suc x / 2 in
    let fewer = enough_fuel half (y / 2) x half (omega arith) (omega arith) in
    omega (arith, fewer, bit_and-bitwise half (y / 2), bit_and-bitwise (suc x) y)

-- A number without its last `suc k` binary digits.
pub shift_suc : (v k : ℕ) → v / 2 ^ suc k ≡ v / 2 / 2 ^ k
shift_suc v k = rw (pow-suc 2 k, mul_comm (2 ^ k) 2) (sym (div-div-eq-div-mul v 2 (2 ^ k)))

pub shift_suc' : (v k : ℕ) → v / 2 ^ suc k ≡ v / 2 ^ k / 2
shift_suc' v k = rw (pow-suc 2 k) (sym (div-div-eq-div-mul v (2 ^ k) 2))

-- A step on a mask whose half and last digit are known.
bit_and_halved :
    (a a' d b : ℕ) → a ≡ a' * 2 + d → d < 2 → bit_and a b ≡ min d (b % 2) + 2 * bit_and a' (b / 2)
bit_and_halved a a' d b e h =
    let half : a / 2 ≡ a' = omega arith in
    let last : a % 2 ≡ d = omega arith in rw (← half, ← last) (bit_and_step a b)

-- A mask of one bit.
pub bit_and_single : (j v : ℕ) → bit_and (2 ^ j) v ≡ (v / 2 ^ j) % 2 * 2 ^ j
bit_and_single zero v = omega (arith, bit_and_step 1 v, zero-bit_and (v / 2))
bit_and_single (suc j) v = rw (shift_suc v j) (
    omega (
      arith,
      bit_and_halved (2 ^ suc j) (2 ^ j) 0 v (omega (arith, pow-suc 2 j)) (omega arith),
      bit_and_single j (v / 2),
      ap (λ (t : ℕ). (v / 2 / 2 ^ j) % 2 * t) (pow-suc 2 j),
    ))

pub pow_pos : (n : ℕ) → 0 < 2 ^ n
pow_pos zero = omega arith
pow_pos (suc n) = omega (arith, pow-suc 2 n, pow_pos n)

-- A mask of ones keeps a number that fits.
bit_and_ones : (n v : ℕ) → v < 2 ^ n → bit_and (2 ^ n - 1) v ≡ v
bit_and_ones zero v h = omega (arith, zero-bit_and v)
bit_and_ones (suc n) v h = omega (
  arith,
  bit_and_halved (2 ^ suc n - 1) (2 ^ n - 1) 1 v (omega (arith, pow-suc 2 n, pow_pos n))
      (omega arith),
  bit_and_ones n (v / 2) (omega (arith, pow-suc 2 n)),
)

-- A mask of `n` ones before `k` zeros.
pub bit_and_leading :
    (n k v : ℕ) → v < 2 ^ (n + k) → bit_and (2 ^ (n + k) - 2 ^ k) v ≡ v / 2 ^ k * 2 ^ k
bit_and_leading n zero v h =
    let e : n + 0 ≡ n = omega arith in rw e (omega (arith, bit_and_ones n v (rw e at h)))
bit_and_leading n (suc k) v h =
    let e : n + suc k ≡ suc (n + k) = omega arith in
    let h' : v < 2 ^ suc (n + k) = rw e at h in
    rw (e, shift_suc v k)
      (omega (
        arith,
        bit_and_halved (2 ^ suc (n + k) - 2 ^ suc k) (2 ^ (n + k) - 2 ^ k) 0 v
            (omega (arith, pow-suc 2 (n + k), pow-suc 2 k)) (omega arith),
        bit_and_leading n k (v / 2) (omega (arith, pow-suc 2 (n + k))),
        ap (λ (t : ℕ). v / 2 / 2 ^ k * t) (pow-suc 2 k),
      ))
