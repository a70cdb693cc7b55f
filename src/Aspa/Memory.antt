-- ===== src/Aspa/Memory.antt =====
-- aspa_table_update_compute_internal of aspa/aspa.c writes no record behind the memory of its arrays: whichever
-- allocations succeed in its loops, after a successful reservation, with at most 169 operations.
use rtrlib.Prelude.{
  ℕ, suc, ◌+◌, ◌*◌, ◌≤◌, ◌≡◌, ◌⊎◌, inl, inr, refl, sym, subst, Bool, true, false, Bool-cases, ltb,
  Option, none, some, List, [], ◌∷◌, arith, length,
}
use rtrlib.Aspa.Hop.{AspaRecord}
use rtrlib.Aspa.Array.{
  AspaArray, record_bytes, aspa_array_append, aspa_array_insert_internal, aspa_array_reallocate,
  length-insert_at,
}
use rtrlib.Aspa.Table.{AspaOperation, add, remove}
use rtrlib.Aspa.Update.{
  UpdateOperation, Memory, Progress, Round, fail, one, two, matches, first, rest, next_is, sorted,
  with_providers, append_new, append_replaced, copy_smaller, cancel, note_replaced, append_added,
  if_cancelled, handle_add, handle_remove, handle, round,
}

-- An array with room for `n` records more, as it was reserved.
abbrev pub HasSpare : ℕ → AspaArray → Type 0
HasSpare n a =
    (length a.records + n ≤ a.capacity)
    × (record_bytes * a.capacity ≤ a.bytes)
    × (a.overrun ≡ false)

-- An array that began with room for 128 records, and whose allocation made larger once has room for 169.
abbrev pub HasSome : ℕ → AspaArray → Type 0
HasSome n a =
    (length a.records + n ≤ 169)
    × ((a.capacity ≡ 128) × (a.bytes ≡ 3072) ⊎ (a.capacity ≡ 1128) × (a.bytes ≡ 4072))
    × (a.overrun ≡ false)

append-HasSpare :
    (grow copy : Bool) (a : AspaArray) (r : AspaRecord) (c : Bool) (n : ℕ)
    → HasSpare (suc n) a
    → HasSpare n (aspa_array_append grow copy a r c).array
unfolding aspa_array_append aspa_array_insert_internal aspa_array_reallocate
append-HasSpare grow copy a r c n h =
    let e = length-insert_at a.records (length a.records) r (omega arith) in ground arith

append-HasSome :
    (grow copy : Bool) (a : AspaArray) (r : AspaRecord) (c : Bool) (n : ℕ)
    → HasSome (suc n) a
    → HasSome n (aspa_array_append grow copy a r c).array
unfolding aspa_array_append aspa_array_insert_internal aspa_array_reallocate
append-HasSome grow copy a r c n h =
    let e = length-insert_at a.records (length a.records) r (omega arith) in ground arith

-- There is room for `l` records of the old array and for those of `n` operations.
abbrev pub IsWithin : ℕ → ℕ → Progress → Type 0
IsWithin l n st = HasSpare (l + n) st.new_array × HasSome n st.replaced

pub IsWithin-le :
    (l l' n n' : ℕ) (st : Progress) → l' + n' ≤ l + n → n' ≤ n → IsWithin l n st → IsWithin l' n' st
IsWithin-le l l' n n' st a b h = ground arith

-- Room for a record less is left, and the old records are where they were.
pub append_old :
    (mem : Memory) (st : Progress) (r : AspaRecord) (c : Bool) (l n : ℕ)
    → IsWithin (suc l) n st
    → IsWithin l n (append_new mem st r c).1 × ((append_new mem st r c).1.existing ≡ st.existing)
unfolding append_new
append_old mem st r c l n h = (
  (
    append-HasSpare (mem st.used).0 (mem st.used).1 st.new_array r c (l + n)
        (subst (λ z. HasSpare z st.new_array) (ground arith) h.0),
    h.1,
  ),
  refl,
)

append_more :
    (mem : Memory) (st : Progress) (r : AspaRecord) (c : Bool) (l n : ℕ)
    → IsWithin l (suc n) st
    → (HasSpare (l + n) (append_new mem st r c).1.new_array
        × HasSome (suc n) (append_new mem st r c).1.replaced)
      × ((append_new mem st r c).1.existing ≡ st.existing)
unfolding append_new
append_more mem st r c l n h = (
  (
    append-HasSpare (mem st.used).0 (mem st.used).1 st.new_array r c (l + n)
        (subst (λ z. HasSpare z st.new_array) (ground arith) h.0),
    h.1,
  ),
  refl,
)

append_noted :
    (mem : Memory) (st : Progress) (r : AspaRecord) (l n : ℕ)
    → HasSpare (l + n) st.new_array
    → HasSome (suc n) st.replaced
    → IsWithin l n (append_replaced mem st r).1
      × ((append_replaced mem st r).1.existing ≡ st.existing)
unfolding append_replaced
append_noted mem st r l n h k =
    ((h, append-HasSome (mem st.used).0 (mem st.used).1 st.replaced r false n k), refl)

-- A state within the room for what is left of the old array.
abbrev pub IsSafe : ℕ → Progress → Type 0
IsSafe n st = IsWithin (length st.existing) n st

copy_smaller-IsSafe :
    (mem : Memory) (c : ℕ) (es : List AspaRecord) (n : ℕ) (st : Progress)
    → IsWithin (length es) n st
    → IsSafe n (copy_smaller mem c es st).1
unfolding copy_smaller
copy_smaller-IsSafe mem c [] n st h = h
copy_smaller-IsSafe mem c (e ∷ es) n st h =
    let (k, q) = append_old mem st e false (length es) n h in
    elim (Bool-cases (ltb e.customer_asn c)) [
      | inr f ↦ rw (copy_smaller, f) h
      | inl t ↦ elim (Bool-cases (append_new mem st e false).0) [
        | inl y ↦
            rw (copy_smaller, t, y) (copy_smaller-IsSafe mem c es n (append_new mem st e false).1 k)
        | inr y ↦ rw (copy_smaller, t, y) k
      ]
    ]

-- After a round there is room for the operations behind it.
abbrev pub RoundIsSafe : ℕ → Round → Type 0
RoundIsSafe n (fail v i c st) = IsSafe n st
RoundIsSafe n (one c st) = IsSafe n st
RoundIsSafe n (two c d st) = IsSafe n st

note_replaced-RoundIsSafe :
    (mem : Memory) (cur : UpdateOperation) (o : Option AspaRecord) (n : ℕ) (st : Progress)
    → HasSpare (length st.existing + n) st.new_array
    → HasSome (suc n) st.replaced
    → RoundIsSafe n (note_replaced mem cur o st)
note_replaced-RoundIsSafe mem cur none n st h k = (h, ground arith)
note_replaced-RoundIsSafe mem cur (some e) n st h k =
    let (g, q) = append_noted mem st e (length st.existing) n h k in
    let g' = subst (λ z. IsWithin (length z) n (append_replaced mem st e).1) (sym q) g in
    elim (Bool-cases (matches cur.rec.customer_asn (some e))) [
      | inr f ↦ rw (note_replaced, f) (h, ground arith)
      | inl t ↦ elim (Bool-cases (append_replaced mem st e).0) [
        | inl y ↦ rw (note_replaced, t, y) g'
        | inr y ↦ rw (note_replaced, t, y) g'
      ]
    ]

append_added-RoundIsSafe :
    (mem : Memory) (cur : UpdateOperation) (n : ℕ) (st : Progress)
    → IsSafe (suc n) st
    → RoundIsSafe n (append_added mem cur st)
append_added-RoundIsSafe mem cur n st h =
    let (g, q) = append_more mem st cur.rec true (length st.existing) n h in
    let st' = (append_new mem st cur.rec true).1 in
    let spare = subst (λ z. HasSpare (length z + n) st'.new_array) (sym q) g.0 in
    elim (Bool-cases (append_new mem st cur.rec true).0) [
      | inl y ↦
          rw (append_added, y)
            (note_replaced-RoundIsSafe mem cur (first st.existing) n st' spare g.1)
      | inr y ↦ rw (append_added, y) (spare, ground (arith, g.1))
    ]

IsSafe-rest :
    (n : ℕ) (st : Progress) (es : List AspaRecord)
    → IsWithin (length es) n st
    → IsWithin (length (rest es)) n st
IsSafe-rest n st [] h = h
IsSafe-rest n st (e ∷ es) h =
    IsWithin-le (suc (length es)) (length es) n n st (omega arith) (omega arith) h

IsSafe-one : (n : ℕ) (st : Progress) → IsSafe (suc n) st → IsSafe n st
IsSafe-one n st h =
    IsWithin-le (length st.existing) (length st.existing) (suc n) n st (omega arith) (omega arith) h

cancel-RoundIsSafe :
    (cur next : UpdateOperation) (n : ℕ) (st : Progress)
    → IsSafe n st
    → RoundIsSafe n (cancel cur next st)
cancel-RoundIsSafe cur next n st h =
    elim (Bool-cases (matches cur.rec.customer_asn (first st.existing))) [
      | inl t ↦ rw (cancel, t) (IsSafe-rest n st st.existing h)
      | inr f ↦ rw (cancel, f) h
    ]

if_cancelled-RoundIsSafe :
    (mem : Memory) (cur : UpdateOperation) (next : Option UpdateOperation) (n : ℕ) (st : Progress)
    → IsSafe (suc n) st
    → RoundIsSafe n (if_cancelled mem cur next st)
if_cancelled-RoundIsSafe mem cur none n st h = append_added-RoundIsSafe mem cur n st h
if_cancelled-RoundIsSafe mem cur (some d) n st h =
    elim (Bool-cases (next_is false cur.rec.customer_asn (some d))) [
      | inl t ↦ rw (if_cancelled, t) (cancel-RoundIsSafe cur d n st (IsSafe-one n st h))
      | inr f ↦ rw (if_cancelled, f) (append_added-RoundIsSafe mem cur n st h)
    ]

handle_add-RoundIsSafe :
    (mem : Memory) (cur : UpdateOperation) (next : Option UpdateOperation) (n : ℕ) (st : Progress)
    → IsSafe (suc n) st
    → RoundIsSafe n (handle_add mem cur next st)
unfolding handle_add
handle_add-RoundIsSafe mem cur next n st h =
    elim (Bool-cases (next_is true cur.rec.customer_asn next)) [
      | inl t ↦ rw (handle_add, t) (IsSafe-one n st h)
      | inr f ↦ rw (handle_add, f) (if_cancelled-RoundIsSafe mem cur next n st h)
    ]

handle_remove-RoundIsSafe :
    (cur : UpdateOperation) (next : Option UpdateOperation) (n : ℕ) (st : Progress)
    → IsSafe n st
    → RoundIsSafe n (handle_remove cur next st)
unfolding handle_remove
handle_remove-RoundIsSafe cur next n st h =
    elim (Bool-cases (matches cur.rec.customer_asn (first st.existing))) [
      | inl t ↦ elim (Bool-cases (next_is false cur.rec.customer_asn next)) [
        | inl u ↦ rw (handle_remove, t, u) h
        | inr u ↦ rw (handle_remove, t, u) (IsSafe-rest n st st.existing h)
      ]
      | inr f ↦ rw (handle_remove, f) h
    ]

handle-RoundIsSafe :
    (mem : Memory) (cur : UpdateOperation) (next : Option UpdateOperation) (n : ℕ) (b : Bool)
    (st : Progress) (o : AspaOperation)
    → cur.operation ≡ o
    → IsSafe (suc n) st
    → RoundIsSafe n (handle mem cur next (b, st))
unfolding handle
handle-RoundIsSafe mem cur next n false st o e h = IsSafe-one n st h
handle-RoundIsSafe mem cur next n true st add e h =
    rw (handle, e) (handle_add-RoundIsSafe mem cur next n st h)
handle-RoundIsSafe mem cur next n true st remove e h =
    rw (handle, e) (handle_remove-RoundIsSafe cur next n st (IsSafe-one n st h))

pub round-RoundIsSafe :
    (mem : Memory) (qsort : List ℕ → List ℕ) (cur : UpdateOperation) (next : Option UpdateOperation)
    (n : ℕ) (st : Progress)
    → IsSafe (suc n) st
    → RoundIsSafe n (round mem qsort cur next st)
unfolding round
round-RoundIsSafe mem qsort cur next n st h =
    let o = copy_smaller mem cur.rec.customer_asn st.existing st in
    handle-RoundIsSafe mem (with_providers cur (sorted qsort cur.rec.provider_asns)) next n o.0 o.1
      cur.operation refl (copy_smaller-IsSafe mem cur.rec.customer_asn st.existing (suc n) st h)
