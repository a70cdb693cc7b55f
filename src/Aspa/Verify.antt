-- ===== src/Aspa/Verify.antt =====
-- rtr_aspa_verify_as_path of aspa/aspa_verification.c, and what its answers mean. `n` is the index of the
-- origin, `len - 1`. The table is not NULL; the lock is left out.
use rtrlib.Aspa.Ramps.{find_left, down_ramp, find_right, is_not_provider, up_ramp, HopResult}
use rtrlib.Prelude.{
  ℕ, ◌+◌, ◌-◌, Bool, true, leb, ◌==◌, if◌then◌else◌, Option, none, some, List, length,
}
use rtrlib.Aspa.Hop.{Store, asn_at, aspa_check_hop}

pub data VerificationResult : Type 0 where
  as_path_unknown as_path_invalid as_path_valid : VerificationResult

pub data Direction : Type 0 where
  upstream downstream : Direction

-- The hop from index `i` to `i - 1`, and the hop from `i` to `i + 1`.
abbrev pub up_hop : Store → List ℕ → ℕ → HopResult
up_hop store as_path i = aspa_check_hop store (asn_at as_path i) (asn_at as_path (i - 1))

abbrev pub down_hop : Store → List ℕ → ℕ → HopResult
down_hop store as_path i = aspa_check_hop store (asn_at as_path i) (asn_at as_path (i + 1))

-- The nP+ hop that the search from the right finds. The hop at the end of the up-ramp is known.
abbrev pub from_right : (ℕ → HopResult) → ℕ → ℕ → Option ℕ
from_right up lo r = if is_not_provider (up r) then some r else find_right up lo r

abbrev pub from_left : (ℕ → HopResult) → ℕ → ℕ → Bool
from_left down l rr = if is_not_provider (down l) then true else find_left down rr (l + 1) rr

abbrev pub if_found : Option ℕ → VerificationResult
if_found none = as_path_unknown
if_found (some c) = as_path_invalid

-- The upstream algorithm on a path of two or more, and of any length.
unfoldable pub verify_up : (ℕ → HopResult) → ℕ → VerificationResult
unfolding up_ramp find_right
verify_up up n =
    let r = up_ramp up n in if r == 0 then as_path_valid else if_found (from_right up 0 r)

abbrev pub both_found : (ℕ → HopResult) → ℕ → Option ℕ → VerificationResult
both_found down l none = as_path_unknown
both_found down l (some rr) = if from_left down l rr then as_path_invalid else as_path_unknown

unfoldable pub verify_down : (ℕ → HopResult) → (ℕ → HopResult) → ℕ → VerificationResult
unfolding up_ramp down_ramp find_right find_left
verify_down up down n =
    let r = up_ramp up n in
    let l = down_ramp down r 0 r in
    if leb (r - l) 1 then as_path_valid else both_found down l (from_right up (l + 1) r)

unfoldable pub rtr_aspa_verify_as_path : Store → List ℕ → Direction → VerificationResult
unfolding verify_up verify_down aspa_check_hop
rtr_aspa_verify_as_path store as_path upstream =
    if leb (length as_path) 1
    then as_path_valid
    else verify_up (up_hop store as_path) (length as_path - 1)
rtr_aspa_verify_as_path store as_path downstream =
    if leb (length as_path) 2
    then as_path_valid
    else verify_down (up_hop store as_path) (down_hop store as_path) (length as_path - 1)
