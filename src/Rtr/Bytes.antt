-- ===== src/Rtr/Bytes.antt =====
-- Bytes of a PDU: 32 bit numbers in network byte order, which the code reads by ntohl and writes by
-- rtr_convert_long.
use rtrlib.Prelude.{
  ℕ, zero, suc, ◌+◌, ◌*◌, ◌/◌, ◌%◌, ◌^◌, ◌<◌, ◌≡◌, refl, List, [], ◌∷◌, ◌++◌, arith, length,
}

-- 0 behind the end.
abbrev pub byte_at : List ℕ → ℕ → ℕ
byte_at [] i = 0
byte_at (b ∷ bs) zero = b
byte_at (b ∷ bs) (suc i) = byte_at bs i

-- The bytes from index `i` on.
abbrev pub from_byte : List ℕ → ℕ → List ℕ
from_byte bs zero = bs
from_byte [] (suc i) = []
from_byte (b ∷ bs) (suc i) = from_byte bs i

abbrev pub be32_head : List ℕ → ℕ
be32_head bs = byte_at bs 0 * 2 ^ 24 + byte_at bs 1 * 2 ^ 16 + byte_at bs 2 * 2 ^ 8 + byte_at bs 3

-- `ntohl(*(uint32_t *)(bs + i))`
abbrev pub be32_at : List ℕ → ℕ → ℕ
be32_at bs i = be32_head (from_byte bs i)

abbrev pub be32 : ℕ → List ℕ
be32 v = v / 2 ^ 24 % 256 ∷ v / 2 ^ 16 % 256 ∷ v / 2 ^ 8 % 256 ∷ v % 256 ∷ []

from_byte-append : (xs ys : List ℕ) → from_byte (xs ++ ys) (length xs) ≡ ys
from_byte-append [] ys = refl
from_byte-append (x ∷ xs) ys = from_byte-append xs ys

be32_head-be32 : (v : ℕ) (ys : List ℕ) → v < 2 ^ 32 → be32_head (be32 v ++ ys) ≡ v
be32_head-be32 v ys h = omega arith

-- A number below 2^32 is read back where it was written.
pub be32_at-be32 :
    (xs : List ℕ) (v : ℕ) (ys : List ℕ)
    → v < 2 ^ 32
    → be32_at (xs ++ (be32 v ++ ys)) (length xs) ≡ v
be32_at-be32 xs v ys h = rw (from_byte-append xs (be32 v ++ ys)) (be32_head-be32 v ys h)

-- Reading behind the first of two lists.
pub from_byte-behind :
    (xs ys : List ℕ) (k i : ℕ) → i ≡ length xs + k → from_byte (xs ++ ys) i ≡ from_byte ys k
from_byte-behind [] ys k i e = let q : i ≡ k = omega (arith, e) in rw q refl
from_byte-behind (x ∷ xs) ys k zero e = ground (arith, e)
from_byte-behind (x ∷ xs) ys k (suc i) e = from_byte-behind xs ys k i (omega (arith, e))
