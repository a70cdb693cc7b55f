-- ===== src/Aspa/Tests.antt =====
-- Path verification at a small store.
use rtrlib.Aspa.Attested.{aspa_check_hop_lem, HopIs}
use rtrlib.Prelude.{false, ◌≡◌, refl, [], ◌∷◌}
use rtrlib.Aspa.Ramps.{provider_plus}
use rtrlib.Aspa.Hop.{binary_search_asns, aspa_check_hop, Store}
use rtrlib.Aspa.Verify.{
  upstream, downstream, as_path_valid, as_path_invalid, as_path_unknown, rtr_aspa_verify_as_path,
}
use rtrlib.Aspa.Correct.{AnswerIs, rtr_aspa_verify_as_path_lem}

-- AS 1 has the providers 2 and 3, AS 2 has the provider 4, and AS 5 the provider 6.
abbrev store : Store
store =
    (record { customer_asn = 1; provider_asns = 2 ∷ 3 ∷ [] }
      ∷ record { customer_asn = 2; provider_asns = 4 ∷ [] }
      ∷ [])
    ∷ (record { customer_asn = 5; provider_asns = 6 ∷ [] } ∷ [])
    ∷ []

rtr_aspa_verify_as_path_example :
    AnswerIs store
      (4 ∷ 2 ∷ 1 ∷ [])
      upstream
      (rtr_aspa_verify_as_path store (4 ∷ 2 ∷ 1 ∷ []) upstream)
rtr_aspa_verify_as_path_example = rtr_aspa_verify_as_path_lem store (4 ∷ 2 ∷ 1 ∷ []) upstream

valid_path : rtr_aspa_verify_as_path store (4 ∷ 2 ∷ 1 ∷ []) upstream ≡ as_path_valid
unfolding rtr_aspa_verify_as_path
valid_path = refl

invalid_path : rtr_aspa_verify_as_path store (3 ∷ 2 ∷ 1 ∷ []) upstream ≡ as_path_invalid
unfolding rtr_aspa_verify_as_path
invalid_path = refl

unknown_path : rtr_aspa_verify_as_path store (7 ∷ 4 ∷ 2 ∷ 1 ∷ []) upstream ≡ as_path_unknown
unfolding rtr_aspa_verify_as_path
unknown_path = refl

route_leak : rtr_aspa_verify_as_path store (5 ∷ 2 ∷ 1 ∷ 7 ∷ 2 ∷ []) downstream ≡ as_path_invalid
unfolding rtr_aspa_verify_as_path
route_leak = refl

aspa_check_hop_example : HopIs store 1 3 (aspa_check_hop store 1 3)
aspa_check_hop_example = aspa_check_hop_lem store 1 3

attested : aspa_check_hop store 1 3 ≡ provider_plus
unfolding aspa_check_hop
attested = refl

-- Two AS numbers that are 2 ^ 31 or more apart: the search does not find the last provider.
missed : binary_search_asns 4000000000 (1 ∷ 2 ∷ 4000000000 ∷ []) ≡ false
unfolding binary_search_asns
missed = refl
