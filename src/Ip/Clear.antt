-- ===== src/Ip/Clear.antt =====
-- An executable test that an address has no bit set behind a prefix length.
use rtrlib.Prelude.{ℕ, ◌≤◌, ◌<◌, ◌≡◌, Bool, true, ltb, ◌||◌, arith}
use rtrlib.Ip.{IpAddr, is_left_child}
use rtrlib.Ip.Words.{check_below, check_below_sound}

abbrev pub clear_at : IpAddr → ℕ → ℕ → Bool
clear_at a len i = ltb i len || is_left_child a i

unfoldable pub is_clear : IpAddr → ℕ → ℕ → Bool
unfolding check_below is_left_child
is_clear a len n = check_below n (clear_at a len)

clear_bit : (a : IpAddr) (len n i : ℕ) → is_clear a len n ≡ true → i < n → clear_at a len i ≡ true
unfolding is_clear
clear_bit a len n i h lt = check_below_sound n (clear_at a len) i h lt

pub is_clear_lem :
    (a : IpAddr) (len n : ℕ)
    → is_clear a len n ≡ true
    → (i : ℕ) → len ≤ i
    → i < n
    → is_left_child a i ≡ true
is_clear_lem a len n h i b lt = from_or (clear_bit a len n i h lt)
  where
    from_or : clear_at a len i ≡ true → is_left_child a i ≡ true
    from_or q = ground arith
