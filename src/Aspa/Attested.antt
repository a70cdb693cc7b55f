-- ===== src/Aspa/Attested.antt =====
-- What the answers of aspa_check_hop say of the store.

use rtrlib.Prelude.{
  ℕ, zero, suc, ◌+◌, ◌-◌, ◌/◌, ◌≤◌, ◌<◌, ◌≡◌, ◌≢◌, ◌⊎◌, inl, inr, refl, sym, subst, Bool, true,
  false, ◌==◌, ==_iff, Bool-cases, if◌then◌else◌, Option, none, some, List, [], ◌∷◌, length, Elem,
  arith,
}
use rtrlib.Aspa.Ramps.{HopResult, no_attestation, not_provider_plus, provider_plus}
use rtrlib.Aspa.Hop.{
  AspaRecord, Store, asn_at, record_at, not_negative, search_asns, binary_search_asns,
  search_records, aspa_array_search, check_store, aspa_check_hop,
}

asn_at-Elem : (xs : List ℕ) (i : ℕ) → i < length xs → Elem (asn_at xs i) xs
asn_at-Elem [] i h = omega arith
asn_at-Elem (x ∷ xs) zero h = inl refl
asn_at-Elem (x ∷ xs) (suc i) h = inr (asn_at-Elem xs i (omega arith))

record_at-Elem :
    (xs : List AspaRecord) (i : ℕ) (r : AspaRecord) → record_at xs i ≡ some r → Elem r xs
record_at-Elem [] i r h = ground arith
record_at-Elem (x ∷ xs) zero r h = ground arith
record_at-Elem (x ∷ xs) (suc i) r h = inr (record_at-Elem xs i r h)

abbrev next_base : ℕ → List ℕ → ℕ → ℕ → ℕ
next_base cas array base mid =
    if not_negative cas (asn_at array (base + mid)) then base + mid else base

next_base-le : (cas : ℕ) (array : List ℕ) (base mid : ℕ) → next_base cas array base mid ≤ base + mid
next_base-le cas array base mid = ground arith

-- A provider that is found stands in the array.
search_asns-Elem :
    (fuel cas : ℕ) (array : List ℕ) (base top : ℕ)
    → 0 < top
    → base + top ≤ length array
    → search_asns fuel cas array base top ≡ true
    → Elem cas array
unfolding search_asns
search_asns-Elem zero cas array base top p h e = ground arith
search_asns-Elem (suc fuel) cas array base top p h e =
    elim (Bool-cases (asn_at array (base + top / 2) == cas)) [
      | inl q ↦
          subst (λ x. Elem x array) ((==_iff (asn_at array (base + top / 2)) cas).0 q)
            (asn_at-Elem array (base + top / 2) (omega arith))
      | inr q ↦
          search_asns-Elem fuel cas array (next_base cas array base (top / 2)) (top - top / 2)
            (omega arith) (omega (arith, next_base-le cas array base (top / 2))) (found q)
    ]
  where
    found :
        (asn_at array (base + top / 2) == cas) ≡ false
        → search_asns fuel cas array (next_base cas array base (top / 2)) (top - top / 2) ≡ true
    found q = ground arith

binary_search_asns-Elem :
    (cas : ℕ) (array : List ℕ) → binary_search_asns cas array ≡ true → Elem cas array
unfolding binary_search_asns
binary_search_asns-Elem cas [] e = ground arith
binary_search_asns-Elem cas (x ∷ xs) e =
    search_asns-Elem (length (x ∷ xs)) cas (x ∷ xs) 0 (length (x ∷ xs)) (omega arith) (omega arith)
      e

IsFor : ℕ → List AspaRecord → AspaRecord → Type 0
IsFor customer array r = Elem r array × (r.customer_asn ≡ customer)

search_records-IsFor :
    (fuel : ℕ) (array : List AspaRecord) (customer left right : ℕ) (r : AspaRecord)
    → search_records fuel array customer left right ≡ some r
    → IsFor customer array r
unfolding search_records IsFor
search_records-IsFor zero array customer left right r e = ground arith
search_records-IsFor (suc fuel) array customer left right r e = ground (
  arith,
  record_at-Elem array ((left + right) / 2) r,
  search_records-IsFor fuel array customer ((left + right) / 2 + 1) right r,
  search_records-IsFor fuel array customer left ((left + right) / 2 - 1) r,
)

aspa_array_search-IsFor :
    (array : List AspaRecord) (customer : ℕ) (r : AspaRecord)
    → aspa_array_search array customer ≡ some r
    → IsFor customer array r
unfolding aspa_array_search
aspa_array_search-IsFor [] customer r e = ground arith
aspa_array_search-IsFor (x ∷ xs) customer r e =
    search_records-IsFor (length (x ∷ xs)) (x ∷ xs) customer 0 (length (x ∷ xs) - 1) r e

-- Some array of the store has the property.
abbrev pub SomeArray : (List AspaRecord → Type 0) → Store → Type 0
SomeArray P [] = ⊥
SomeArray P (array ∷ store) = P array ⊎ SomeArray P store

abbrev pub HasCustomer : ℕ → List AspaRecord → Type 0
HasCustomer customer array = (r : AspaRecord) × Elem r array × (r.customer_asn ≡ customer)

abbrev pub Attests : ℕ → ℕ → List AspaRecord → Type 0
Attests customer provider array =
    (r : AspaRecord) × Elem r array × (r.customer_asn ≡ customer) × Elem provider r.provider_asns

StoreIs : Store → ℕ → ℕ → Bool → HopResult → Type 0
StoreIs store customer provider found provider_plus = SomeArray (Attests customer provider) store
StoreIs store customer provider found not_provider_plus =
    (found ≡ true) ⊎ SomeArray (HasCustomer customer) store
StoreIs store customer provider found no_attestation = found ≡ false

StoreIs-later :
    (array : List AspaRecord) (store : Store) (customer provider : ℕ) (found : Bool) (h : HopResult)
    → StoreIs store customer provider found h
    → StoreIs (array ∷ store) customer provider found h
unfolding StoreIs
StoreIs-later array store customer provider found provider_plus s = inr s
StoreIs-later array store customer provider found not_provider_plus (inl e) = inl e
StoreIs-later array store customer provider found not_provider_plus (inr s) = inr (inr s)
StoreIs-later array store customer provider found no_attestation s = s

StoreIs-found :
    (array : List AspaRecord) (store : Store) (customer provider : ℕ) (found : Bool) (h : HopResult)
    → HasCustomer customer array
    → StoreIs store customer provider true h
    → StoreIs (array ∷ store) customer provider found h
unfolding StoreIs
StoreIs-found array store customer provider found provider_plus a s = inr s
StoreIs-found array store customer provider found not_provider_plus a s = inr (inl a)
StoreIs-found array store customer provider found no_attestation a s = absurd (ground arith)

module _ (array : List AspaRecord) (store : Store) (customer provider : ℕ) (found : Bool) where
  abbrev Here : HopResult → Type 0
  Here = StoreIs (array ∷ store) customer provider found

  check_store-none :
      aspa_array_search array customer ≡ none
      → check_store (array ∷ store) customer provider found
        ≡ check_store store customer provider found
  unfolding check_store
  check_store-none e = ground arith

  check_store-hit :
      (r : AspaRecord)
      → aspa_array_search array customer ≡ some r
      → binary_search_asns provider r.provider_asns ≡ true
      → check_store (array ∷ store) customer provider found ≡ provider_plus
  unfolding check_store
  check_store-hit r e b = ground arith

  check_store-miss :
      (r : AspaRecord)
      → aspa_array_search array customer ≡ some r
      → binary_search_asns provider r.provider_asns ≡ false
      → check_store (array ∷ store) customer provider found
        ≡ check_store store customer provider true
  unfolding check_store
  check_store-miss r e b = ground arith

  has_customer :
      (r : AspaRecord) → aspa_array_search array customer ≡ some r → HasCustomer customer array
  unfolding IsFor
  has_customer r e = let f = aspa_array_search-IsFor array customer r e in (r, f.0, f.1)

  attests :
      (r : AspaRecord)
      → aspa_array_search array customer ≡ some r
      → binary_search_asns provider r.provider_asns ≡ true
      → Here provider_plus
  unfolding IsFor StoreIs
  attests r e b =
      let f = aspa_array_search-IsFor array customer r e in
      inl (r, f.0, f.1, binary_search_asns-Elem provider r.provider_asns b)

  step_lem :
      (o : Option AspaRecord)
      → aspa_array_search array customer ≡ o
      → ((known : Bool)
          → StoreIs store customer provider known (check_store store customer provider known))
      → Here (check_store (array ∷ store) customer provider found)
  unfolding StoreIs
  step_lem none e ih =
      subst (StoreIs (array ∷ store) customer provider found) (sym (check_store-none e)) (
        StoreIs-later array store customer provider found
          (check_store store customer provider found) (ih found))
  step_lem (some r) e ih = elim (Bool-cases (binary_search_asns provider r.provider_asns)) [
    | inl b ↦
        subst (StoreIs (array ∷ store) customer provider found) (sym (check_store-hit r e b))
          (attests r e b)
    | inr b ↦
        subst (StoreIs (array ∷ store) customer provider found) (sym (check_store-miss r e b)) (
          StoreIs-found array store customer provider found
            (check_store store customer provider true) (has_customer r e) (ih true))
  ]

check_store_lem :
    (store : Store) (customer provider : ℕ) (found : Bool)
    → StoreIs store customer provider found (check_store store customer provider found)
unfolding check_store StoreIs
check_store_lem [] customer provider true = inl refl
check_store_lem [] customer provider false = refl
check_store_lem (array ∷ store) customer provider found =
    step_lem array store customer provider found (aspa_array_search array customer) refl
      (check_store_lem store customer provider)

-- What an answer of aspa_check_hop rests on.
abbrev pub HopIs : Store → ℕ → ℕ → HopResult → Type 0
HopIs store customer provider provider_plus =
    (customer ≡ provider) ⊎ SomeArray (Attests customer provider) store
HopIs store customer provider not_provider_plus =
    (customer ≢ provider) × SomeArray (HasCustomer customer) store
HopIs store customer provider no_attestation = customer ≢ provider

HopIs-of :
    (store : Store) (customer provider : ℕ) (h : HopResult)
    → customer ≢ provider
    → StoreIs store customer provider false h
    → HopIs store customer provider h
unfolding StoreIs
HopIs-of store customer provider provider_plus n s = inr s
HopIs-of store customer provider not_provider_plus n (inl e) = absurd (ground arith)
HopIs-of store customer provider not_provider_plus n (inr s) = (n, s)
HopIs-of store customer provider no_attestation n s = n

aspa_check_hop-same :
    (store : Store) (customer provider : ℕ)
    → (customer == provider) ≡ true
    → aspa_check_hop store customer provider ≡ provider_plus
unfolding aspa_check_hop
aspa_check_hop-same store customer provider e = ground arith

aspa_check_hop-other :
    (store : Store) (customer provider : ℕ)
    → (customer == provider) ≡ false
    → aspa_check_hop store customer provider ≡ check_store store customer provider false
unfolding aspa_check_hop
aspa_check_hop-other store customer provider e = ground arith

-- aspa_check_hop answers P+ only where the two AS numbers are the same or a record of the store names the
-- provider for the customer, and nP+ only where they differ and a record for the customer exists; where
-- they are the same it answers P+. This holds for any store, sorted or not.
pub aspa_check_hop_lem :
    (store : Store) (customer provider : ℕ)
    → HopIs store customer provider (aspa_check_hop store customer provider)
aspa_check_hop_lem store customer provider = elim (Bool-cases (customer == provider)) [
  | inl e ↦
      subst (HopIs store customer provider) (sym (aspa_check_hop-same store customer provider e))
        (inl (ground arith))
  | inr e ↦
      subst (HopIs store customer provider) (sym (aspa_check_hop-other store customer provider e)) (
        HopIs-of store customer provider (check_store store customer provider false) (ground arith)
          (check_store_lem store customer provider false))
]
