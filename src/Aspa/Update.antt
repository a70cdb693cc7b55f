-- ===== src/Aspa/Update.antt =====
-- aspa_table_update_compute_internal of aspa/aspa.c: a new array from an old one and a list of sorted
-- operations. The old array is given by the records from `existing_i` on. `mem k` says for the k-th
-- aspa_array_append whether its two allocations succeed. `qsort`, of the C library, sorts providers. The
-- assertions of debug builds are left out, and ASPA_NOTIFY_NO_OPS is 0.
use rtrlib.Prelude.{
  ℕ, suc, ◌+◌, Bool, true, false, not, ltb, ◌==◌, ◌&&◌, if◌then◌else◌, Option, none, some, List, [],
  ◌∷◌, length,
}
use rtrlib.Aspa.Hop.{AspaRecord}
use rtrlib.Aspa.Array.{
  AspaStatus, success, duplicate_record, record_not_found, error, AspaArray, aspa_array_append,
  aspa_array_reserve,
}
use rtrlib.Aspa.Table.{AspaOperation, add, remove}

-- Where its providers were set to NULL or freed, the record of an operation has the empty list.
pub record UpdateOperation : Type 0 where
  pub index : ℕ
  pub operation : AspaOperation
  pub rec : AspaRecord
  pub is_no_op : Bool

-- The state of the loops: the records of the old array from `existing_i` on, the new array, the replaced
-- records, and the count of calls of aspa_array_append.
pub record Progress : Type 0 where
  pub existing : List AspaRecord
  pub new_array : AspaArray
  pub replaced : AspaArray
  pub used : ℕ

abbrev pub Memory : Type 0
Memory = ℕ → Bool × Bool

-- Whether an append succeeds, and the state after it.
unfoldable pub append_new : Memory → Progress → AspaRecord → Bool → Bool × Progress
unfolding aspa_array_append
append_new mem st r copy =
    let o = aspa_array_append (mem st.used).0 (mem st.used).1 st.new_array r copy in
    (
      elim o.status [ success ↦ true | _ ↦ false ],
      record st { new_array = o.array; used = suc st.used },
    )

unfoldable pub append_replaced : Memory → Progress → AspaRecord → Bool × Progress
unfolding aspa_array_append
append_replaced mem st r =
    let o = aspa_array_append (mem st.used).0 (mem st.used).1 st.replaced r false in
    (
      elim o.status [ success ↦ true | _ ↦ false ],
      record st { replaced = o.array; used = suc st.used },
    )

-- The inner loop: the records with a smaller customer are taken over.
unfoldable pub copy_smaller : Memory → ℕ → List AspaRecord → Progress → Bool × Progress
unfolding append_new
copy_smaller mem cas [] st = (true, record st { existing = [] })
copy_smaller mem cas (e ∷ es) st = elim (ltb e.customer_asn cas) [
  | true ↦ elim (append_new mem st e false).0 [
    | true ↦ copy_smaller mem cas es (append_new mem st e false).1
    | false ↦ (false, record (append_new mem st e false).1 { existing = es })
  ]
  | false ↦ (true, record st { existing = e ∷ es })
]

-- One round of the outer loop: it fails, at this operation or at the next, or it has dealt with this
-- operation, or with this one and the next. The operations are as they have been changed.
pub data Round : Type 0 where
  fail : AspaStatus → ℕ → UpdateOperation → Progress → Round
  one : UpdateOperation → Progress → Round
  two : UpdateOperation → UpdateOperation → Progress → Round

abbrev pub matches : ℕ → Option AspaRecord → Bool
matches cas none = false
matches cas (some e) = e.customer_asn == cas

abbrev is_add : AspaOperation → Bool
is_add add = true
is_add remove = false

-- The next operation has the customer and this type.
abbrev pub next_is : Bool → ℕ → Option UpdateOperation → Bool
next_is wants_add cas none = false
next_is wants_add cas (some n) =
    (n.rec.customer_asn == cas) && (if is_add n.operation then wants_add else not wants_add)

abbrev pub first : List AspaRecord → Option AspaRecord
first [] = none
first (e ∷ es) = some e

abbrev pub rest : List AspaRecord → List AspaRecord
rest [] = []
rest (e ∷ es) = es

abbrev pub providers_of : Option AspaRecord → List ℕ
providers_of none = []
providers_of (some e) = e.provider_asns

abbrev pub with_providers : UpdateOperation → List ℕ → UpdateOperation
with_providers op ps = record op { rec = record op.rec { provider_asns = ps } }

-- An addition whose record the next operation removes again.
abbrev pub cancel : UpdateOperation → UpdateOperation → Progress → Round
cancel cur next st =
    if matches cur.rec.customer_asn (first st.existing)
    then two (record cur { is_no_op = true })
        (with_providers next (providers_of (first st.existing)))
        (record st { existing = rest st.existing })
    else two (record cur { is_no_op = true }) (record next { is_no_op = true }) st

-- The record that an addition replaces is noted.
abbrev pub note_replaced : Memory → UpdateOperation → Option AspaRecord → Progress → Round
note_replaced mem cur none st = one cur st
note_replaced mem cur (some e) st =
    if matches cur.rec.customer_asn (some e)
    then (if (append_replaced mem st e).0
        then one cur (append_replaced mem st e).1
        else fail error 0 cur (append_replaced mem st e).1)
    else one cur st

abbrev pub append_added : Memory → UpdateOperation → Progress → Round
append_added mem cur st =
    if (append_new mem st cur.rec true).0
    then note_replaced mem cur (first st.existing) (append_new mem st cur.rec true).1
    else fail error 0 cur (append_new mem st cur.rec true).1

abbrev pub if_cancelled : Memory → UpdateOperation → Option UpdateOperation → Progress → Round
if_cancelled mem cur none st = append_added mem cur st
if_cancelled mem cur (some next) st =
    if next_is false cur.rec.customer_asn (some next)
    then cancel cur next st
    else append_added mem cur st

unfoldable pub handle_add : Memory → UpdateOperation → Option UpdateOperation → Progress → Round
unfolding append_new append_replaced
handle_add mem cur next st =
    if next_is true cur.rec.customer_asn next
    then fail duplicate_record 1 (with_providers cur []) st
    else if_cancelled mem cur next st

unfoldable pub handle_remove : UpdateOperation → Option UpdateOperation → Progress → Round
handle_remove cur next st =
    if matches cur.rec.customer_asn (first st.existing)
    then (if next_is false cur.rec.customer_asn next
        then fail record_not_found 1 cur st
        else one (with_providers cur (providers_of (first st.existing)))
            (record st { existing = rest st.existing }))
    else fail record_not_found 0 cur st

unfoldable pub handle : Memory → UpdateOperation → Option UpdateOperation → Bool × Progress → Round
unfolding handle_add handle_remove
handle mem cur next (false, st) = fail error 0 cur st
handle mem cur next (true, st) = elim cur.operation [
  | add ↦ handle_add mem cur next st
  | remove ↦ handle_remove cur next st
]

abbrev pub sorted : (List ℕ → List ℕ) → List ℕ → List ℕ
sorted qsort [] = []
sorted qsort (a ∷ as_numbers) = qsort (a ∷ as_numbers)

unfoldable pub round :
    Memory → (List ℕ → List ℕ) → UpdateOperation → Option UpdateOperation → Progress → Round
unfolding handle copy_smaller
round mem qsort cur next st =
    handle mem (with_providers cur (sorted qsort cur.rec.provider_asns)) next
      (copy_smaller mem cur.rec.customer_asn st.existing st)

-- The last loop, which ignores what aspa_array_append returns.
unfoldable pub copy_rest : Memory → List AspaRecord → Progress → Progress
unfolding append_new
copy_rest mem [] st = record st { existing = [] }
copy_rest mem (e ∷ es) st = copy_rest mem es (append_new mem st e false).1

abbrev pub last_of : List AspaRecord → Option AspaRecord
last_of [] = none
last_of (e ∷ []) = some e
last_of (e ∷ f ∷ es) = last_of (f ∷ es)

-- The old record is left out where the last new one has its customer.
abbrev pub skip_same : Option AspaRecord → List AspaRecord → List AspaRecord
skip_same none es = es
skip_same (some l) [] = []
skip_same (some l) (e ∷ es) = if l.customer_asn == e.customer_asn then es else e ∷ es

unfoldable pub finish : Memory → Progress → Progress
unfolding copy_rest
finish mem st = copy_rest mem (skip_same (last_of st.new_array.records) st.existing) st

-- What the call leaves: what it returns, the operations, the position of the failed one, and the arrays.
pub record Computed : Type 0 where
  pub status : AspaStatus
  pub operations : List UpdateOperation
  pub failed : Option ℕ
  pub progress : Progress

abbrev pub also : UpdateOperation → Computed → Computed
also op c = record c { operations = op ∷ c.operations }

-- The loop over the operations from position `i` on. The round at the last one does not deal with two.
unfoldable pub compute_from :
    Memory → (List ℕ → List ℕ) → ℕ → List UpdateOperation → Progress → Computed
unfolding round finish
compute_from mem qsort i [] st = record {
  status = success;
  operations = [];
  failed = none;
  progress = finish mem st;
}
compute_from mem qsort i (cur ∷ []) st = elim (round mem qsort cur none st) [
  | fail v n c st' ↦ record {
    status = v;
    operations = c ∷ [];
    failed = some (i + n);
    progress = st';
  }
  | one c st' ↦ also c (compute_from mem qsort (suc i) [] st')
  | two c n st' ↦ also c (compute_from mem qsort (suc i) [] st')
]
compute_from mem qsort i (cur ∷ next ∷ ops) st = elim (round mem qsort cur (some next) st) [
  | fail v n c st' ↦ record {
    status = v;
    operations = c ∷ next ∷ ops;
    failed = some (i + n);
    progress = st';
  }
  | one c st' ↦ also c (compute_from mem qsort (suc i) (next ∷ ops) st')
  | two c n st' ↦ also c (also n (compute_from mem qsort (suc (suc i)) ops st'))
]

abbrev pub count : List UpdateOperation → ℕ
count [] = 0
count (op ∷ ops) = suc (count ops)

-- `reserve` says whether the space that is asked for first can be had.
unfoldable pub aspa_table_update_compute_internal :
    Bool
    → Memory
    → (List ℕ → List ℕ)
    → AspaArray
    → AspaArray
    → List UpdateOperation
    → AspaArray
    → Computed
unfolding aspa_array_reserve compute_from
aspa_table_update_compute_internal reserve mem qsort array new_array ops replaced =
    compute_from mem qsort 0 ops (record {
      existing = array.records;
      new_array = (aspa_array_reserve reserve new_array (length array.records + count ops)).array;
      replaced = replaced;
      used = 0;
    })
