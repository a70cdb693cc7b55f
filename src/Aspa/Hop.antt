-- ===== src/Aspa/Hop.antt =====
-- The table that aspa/aspa_verification.c reads, aspa_array_search of aspa/aspa_array/aspa_array.c, and
-- aspa_check_hop. An array is the list of its `size` records; the store is the list of its nodes' arrays.
use rtrlib.Prelude.{
  ℕ, zero, suc, ◌+◌, ◌-◌, ◌/◌, ◌%◌, ◌^◌, Bool, true, false, ltb, leb, ◌==◌, if◌then◌else◌, Option,
  none, some, List, [], ◌∷◌, length,
}
use rtrlib.Aspa.Ramps.{HopResult, no_attestation, not_provider_plus, provider_plus}

pub record AspaRecord : Type 0 where
  pub customer_asn : ℕ
  pub provider_asns : List ℕ

abbrev pub Store : Type 0
Store = List (List AspaRecord)

abbrev pub asn_at : List ℕ → ℕ → ℕ
asn_at [] i = 0
asn_at (a ∷ rest) zero = a
asn_at (a ∷ rest) (suc i) = asn_at rest i

abbrev pub record_at : List AspaRecord → ℕ → Option AspaRecord
record_at [] i = none
record_at (a ∷ rest) zero = some a
record_at (a ∷ rest) (suc i) = record_at rest i

-- `val >= 0`, where `val` is the difference of the two uint32_t read as an int of 32 bits.
abbrev pub not_negative : ℕ → ℕ → Bool
not_negative cas pivot = ltb ((cas + 2 ^ 32 - pivot) % 2 ^ 32) (2 ^ 31)

-- The loop of binary_search_asns, with fuel for its rounds.
unfoldable pub search_asns : ℕ → ℕ → List ℕ → ℕ → ℕ → Bool
search_asns zero cas array base top = false
search_asns (suc fuel) cas array base top =
    let mid = top / 2 in
    let pivot = base + mid in
    let next = if not_negative cas (asn_at array pivot) then pivot else base in
    let rest = search_asns fuel cas array next (top - mid) in
    if asn_at array pivot == cas then true else if mid == 0 then false else rest

-- Whether the pointer is not NULL. Each round but the last halves what is left, so `len` rounds are enough.
unfoldable pub binary_search_asns : ℕ → List ℕ → Bool
unfolding search_asns
binary_search_asns cas array = search_asns (length array) cas array 0 (length array)

-- The loop of aspa_array_search, with fuel for its rounds.
unfoldable pub search_records : ℕ → List AspaRecord → ℕ → ℕ → ℕ → Option AspaRecord
search_records zero array customer left right = none
search_records (suc fuel) array customer left right = elim (leb left right) [
  | false ↦ none
  | true ↦ elim (record_at array ((left + right) / 2)) [
    | none ↦ none
    | some r ↦ elim (r.customer_asn == customer) [
      | true ↦ some r
      | false ↦ elim (ltb r.customer_asn customer) [
        | true ↦ search_records fuel array customer ((left + right) / 2 + 1) right
        | false ↦ elim ((left + right) / 2 == 0) [
          | true ↦ none
          | false ↦ search_records fuel array customer left ((left + right) / 2 - 1)
        ]
      ]
    ]
  ]
]

unfoldable pub aspa_array_search : List AspaRecord → ℕ → Option AspaRecord
unfolding search_records
aspa_array_search [] customer = none
aspa_array_search (r ∷ rs) customer =
    search_records (length (r ∷ rs)) (r ∷ rs) customer 0 (length (r ∷ rs) - 1)

-- The loop over the store.
unfoldable pub check_store : Store → ℕ → ℕ → Bool → HopResult
unfolding aspa_array_search binary_search_asns
check_store [] customer provider found = if found then not_provider_plus else no_attestation
check_store (array ∷ store) customer provider found = elim (aspa_array_search array customer) [
  | none ↦ check_store store customer provider found
  | some r ↦ elim (binary_search_asns provider r.provider_asns) [
    | true ↦ provider_plus
    | false ↦ check_store store customer provider true
  ]
]

unfoldable pub aspa_check_hop : Store → ℕ → ℕ → HopResult
unfolding check_store
aspa_check_hop store customer provider =
    if customer == provider then provider_plus else check_store store customer provider false
