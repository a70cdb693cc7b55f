-- ===== src/Aspa/Intact.antt =====
-- The loops of aspa_table_update_compute_internal of aspa/aspa.c leave arrays that have not been overrun.
use rtrlib.Prelude.{
  ◌==◌, ℕ, suc, ◌+◌, ◌≤◌, ◌≡◌, inl, inr, refl, sym, ap, subst, true, false, Bool-cases, Option,
  none, some, List, [], ◌∷◌, arith, length,
}
use rtrlib.Aspa.Hop.{AspaRecord}
use rtrlib.Aspa.Array.{AspaArray, aspa_array_reserve}
use rtrlib.Aspa.Update.{
  count, UpdateOperation, Memory, Computed, Progress, Round, fail, one, two, append_new, round,
  copy_rest, skip_same, last_of, finish, also, compute_from, aspa_table_update_compute_internal,
}
use rtrlib.Aspa.Memory.{
  HasSpare, IsWithin, IsWithin-le, append_old, IsSafe, RoundIsSafe, round-RoundIsSafe,
}

-- No array has been overrun.
abbrev pub IsIntact : Progress → Type 0
IsIntact st = (st.new_array.overrun ≡ false) × (st.replaced.overrun ≡ false)

IsSafe-IsIntact : (n : ℕ) (st : Progress) → IsSafe n st → IsIntact st
IsSafe-IsIntact n st h = (h.0.2, h.1.2)

copy_rest-IsIntact :
    (mem : Memory) (es : List AspaRecord) (st : Progress)
    → IsWithin (length es) 0 st
    → IsIntact (copy_rest mem es st)
unfolding copy_rest
copy_rest-IsIntact mem [] st h = (h.0.2, h.1.2)
copy_rest-IsIntact mem (e ∷ es) st h =
    copy_rest-IsIntact mem es (append_new mem st e false).1
      (append_old mem st e false (length es) 0 h).0

skip_same-le : (l : Option AspaRecord) (es : List AspaRecord) → length (skip_same l es) ≤ length es
skip_same-le none es = omega arith
skip_same-le (some l) [] = omega arith
skip_same-le (some l) (e ∷ es) = elim (Bool-cases (l.customer_asn == e.customer_asn)) [
  | inl t ↦ rw (skip_same, t) (omega arith)
  | inr f ↦ rw (skip_same, f) (omega arith)
]

finish-IsIntact : (mem : Memory) (st : Progress) → IsSafe 0 st → IsIntact (finish mem st)
unfolding finish
finish-IsIntact mem st h =
    let es = skip_same (last_of st.new_array.records) st.existing in
    let k = skip_same-le (last_of st.new_array.records) st.existing in
    copy_rest-IsIntact mem es st
      (IsWithin-le (length st.existing) (length es) 0 0 st (omega (arith, k)) (omega arith) h)

last_round :
    (mem : Memory) (qsort : List ℕ → List ℕ) (i : ℕ) (cur : UpdateOperation) (st : Progress)
    (r : Round)
    → round mem qsort cur none st ≡ r
    → RoundIsSafe 0 r
    → IsIntact (compute_from mem qsort i (cur ∷ []) st).progress
unfolding compute_from
last_round mem qsort i cur st (fail v n c st') e h = rw (compute_from, e) (IsSafe-IsIntact 0 st' h)
last_round mem qsort i cur st (one c st') e h = rw (compute_from, e) (finish-IsIntact mem st' h)
last_round mem qsort i cur st (two c n st') e h = rw (compute_from, e) (finish-IsIntact mem st' h)

other_one :
    (mem : Memory) (qsort : List ℕ → List ℕ) (i : ℕ) (cur next : UpdateOperation)
    (ops : List UpdateOperation) (st : Progress) (c : UpdateOperation) (st' : Progress)
    → round mem qsort cur (some next) st ≡ one c st'
    → compute_from mem qsort i (cur ∷ next ∷ ops) st
      ≡ also c (compute_from mem qsort (suc i) (next ∷ ops) st')
unfolding compute_from
other_one mem qsort i cur next ops st c st' e = rw (compute_from, e) refl

other_two :
    (mem : Memory) (qsort : List ℕ → List ℕ) (i : ℕ) (cur next : UpdateOperation)
    (ops : List UpdateOperation) (st : Progress) (c n : UpdateOperation) (st' : Progress)
    → round mem qsort cur (some next) st ≡ two c n st'
    → compute_from mem qsort i (cur ∷ next ∷ ops) st
      ≡ also c (also n (compute_from mem qsort (suc (suc i)) ops st'))
unfolding compute_from
other_two mem qsort i cur next ops st c n st' e = rw (compute_from, e) refl

other_round :
    (mem : Memory) (qsort : List ℕ → List ℕ) (i : ℕ) (cur next : UpdateOperation)
    (ops : List UpdateOperation) (st : Progress) (r : Round)
    → round mem qsort cur (some next) st ≡ r
    → RoundIsSafe (suc (length ops)) r
    → ((x : Progress)
        → IsSafe (suc (length ops)) x
        → IsIntact (compute_from mem qsort (suc i) (next ∷ ops) x).progress)
    → ((x : Progress)
        → IsSafe (length ops) x
        → IsIntact (compute_from mem qsort (suc (suc i)) ops x).progress)
    → IsIntact (compute_from mem qsort i (cur ∷ next ∷ ops) st).progress
unfolding compute_from
other_round mem qsort i cur next ops st (fail v n c st') e h f g =
    rw (compute_from, e) (IsSafe-IsIntact (suc (length ops)) st' h)
other_round mem qsort i cur next ops st (one c st') e h f g =
    subst (λ (o : Computed). IsIntact o.progress)
      (sym (other_one mem qsort i cur next ops st c st' e)) (f st' h)
other_round mem qsort i cur next ops st (two c n st') e h f g =
    subst (λ (o : Computed). IsIntact o.progress)
      (sym (other_two mem qsort i cur next ops st c n st' e))
      (g st' (
        IsWithin-le (length st'.existing) (length st'.existing) (suc (length ops)) (length ops) st'
          (omega arith) (omega arith) h))

compute_from-IsIntact :
    (mem : Memory) (qsort : List ℕ → List ℕ) (i : ℕ) (ops : List UpdateOperation) (st : Progress)
    → IsSafe (length ops) st
    → IsIntact (compute_from mem qsort i ops st).progress
unfolding compute_from
compute_from-IsIntact mem qsort i [] st h = finish-IsIntact mem st h
compute_from-IsIntact mem qsort i (cur ∷ []) st h =
    last_round mem qsort i cur st (round mem qsort cur none st) refl
      (round-RoundIsSafe mem qsort cur none 0 st h)
compute_from-IsIntact mem qsort i (cur ∷ next ∷ ops) st h =
    other_round mem qsort i cur next ops st (round mem qsort cur (some next) st) refl
      (round-RoundIsSafe mem qsort cur (some next) (suc (length ops)) st h)
      (λ x k. compute_from-IsIntact mem qsort (suc i) (next ∷ ops) x k)
      (λ x k. compute_from-IsIntact mem qsort (suc (suc i)) ops x k)

-- An array as aspa_array_create leaves it.
abbrev pub created : AspaArray
created = record { records = []; capacity = 128; bytes = 3072; overrun = false }

count-length : (ops : List UpdateOperation) → count ops ≡ length ops
count-length [] = refl
count-length (op ∷ ops) = ap suc (count-length ops)

reserved : (n : ℕ) → HasSpare n (aspa_array_reserve true created n).array
unfolding aspa_array_reserve
reserved n = ground arith

-- On new arrays, where the space that is asked for first can be had and with at most 169 operations, the loops
-- overrun neither the new array nor the one for replaced records, whichever of their appends can allocate.
pub aspa_table_update_compute_internal-IsIntact :
    (mem : Memory) (qsort : List ℕ → List ℕ) (array : AspaArray) (ops : List UpdateOperation)
    → length ops ≤ 169
    → IsIntact
        (aspa_table_update_compute_internal true mem qsort array created ops created).progress
unfolding aspa_table_update_compute_internal
aspa_table_update_compute_internal-IsIntact mem qsort array ops few =
    let n = length array.records + count ops in
    let st : Progress = record {
      existing = array.records;
      new_array = (aspa_array_reserve true created n).array;
      replaced = created;
      used = 0;
    } in
    compute_from-IsIntact mem qsort 0 ops st (
      subst (λ z. HasSpare (length array.records + z) (aspa_array_reserve true created n).array)
          (count-length ops) (reserved n),
      (ground (arith, few), inl (refl, refl), refl),
    )
