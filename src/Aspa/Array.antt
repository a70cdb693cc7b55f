-- ===== src/Aspa/Array.antt =====
-- aspa/aspa_array/aspa_array.c: the array of ASPA records. The list holds the `size` records that have been
-- written. `bytes` is the size of their allocation, and `overrun` says that a record has been written behind it,
-- or cut off by making it smaller: from then on what the code does is not defined. The arguments `grow`,
-- `copy`, `shrink` and `ok` say whether the call's allocations succeed. No pointer is NULL, and a record without
-- providers has the empty list.
use rtrlib.Prelude.{
  ℕ, zero, suc, ◌+◌, ◌*◌, ◌||◌, ◌⊎◌, ◌≡◌, ◌≤◌, ◌<◌, refl, ap, Bool, true, false, ltb, leb,
  if◌then◌else◌, Option, none, some, List, [], ◌∷◌, length, arith,
}
use rtrlib.Aspa.Hop.{AspaRecord, record_at}

pub data AspaStatus : Type 0 where
  success error duplicate_record record_not_found not_initialized : AspaStatus

pub record AspaArray : Type 0 where
  pub records : List AspaRecord
  pub capacity : ℕ
  pub bytes : ℕ
  pub overrun : Bool

-- sizeof(struct rtr_aspa_record) where pointers have 64 bits.
abbrev pub record_bytes : ℕ
record_bytes = 24

-- What a call returns, and the array after it.
pub record ArrayOutcome : Type 0 where
  pub status : AspaStatus
  pub array : AspaArray

unfoldable pub aspa_array_create : Bool → Bool → Option AspaArray
aspa_array_create data_ok array_ok =
    if data_ok
    then (if array_ok
        then some
            (record { records = []; capacity = 128; bytes = record_bytes * 128; overrun = false })
        else none)
    else none

-- 1000 bytes more are allocated, and 1000 records more are counted.
unfoldable pub aspa_array_reallocate : Bool → AspaArray → ArrayOutcome
aspa_array_reallocate grow a =
    if grow
    then record {
      status = success;
      array = record a { capacity = a.capacity + 1000; bytes = record_bytes * a.capacity + 1000 };
    }
    else record { status = error; array = a }

-- The records from the index on move back by one. The index is at most the length.
abbrev pub insert_at : List AspaRecord → ℕ → AspaRecord → List AspaRecord
insert_at rs zero r = r ∷ rs
insert_at [] (suc i) r = []
insert_at (x ∷ rs) (suc i) r = x ∷ insert_at rs i r

-- The providers of a record can be copied.
abbrev pub can_copy : Bool → Bool → List ℕ → Bool
can_copy copy copy_providers [] = true
can_copy copy true (a ∷ as_numbers) = copy
can_copy copy false (a ∷ as_numbers) = true

-- One record more does not go into the allocation.
abbrev pub is_too_small : AspaArray → Bool
is_too_small a = ltb a.bytes (record_bytes * (length a.records + 1))

-- The part after the array has been made larger.
abbrev pub place : Bool → AspaArray → ℕ → AspaRecord → Bool → ArrayOutcome
place copy a index r copy_providers =
    if can_copy copy copy_providers r.provider_asns
    then record {
      status = success;
      array = record a {
        records = insert_at a.records index r;
        overrun = a.overrun || is_too_small a;
      };
    }
    else record { status = error; array = a }

unfoldable pub aspa_array_insert_internal :
    Bool → Bool → AspaArray → ℕ → AspaRecord → Bool → ArrayOutcome
unfolding aspa_array_reallocate
aspa_array_insert_internal grow copy a index r copy_providers =
    if leb a.capacity (length a.records)
    then (if grow
        then place copy (aspa_array_reallocate grow a).array index r copy_providers
        else aspa_array_reallocate grow a)
    else place copy a index r copy_providers

unfoldable pub aspa_array_insert : Bool → Bool → AspaArray → ℕ → AspaRecord → Bool → ArrayOutcome
unfolding aspa_array_insert_internal
aspa_array_insert grow copy a index r copy_providers =
    if ltb (length a.records) index
    then record { status = error; array = a }
    else aspa_array_insert_internal grow copy a index r copy_providers

unfoldable pub aspa_array_append : Bool → Bool → AspaArray → AspaRecord → Bool → ArrayOutcome
unfolding aspa_array_insert_internal
aspa_array_append grow copy a r copy_providers =
    aspa_array_insert_internal grow copy a (length a.records) r copy_providers

abbrev pub remove_at : List AspaRecord → ℕ → List AspaRecord
remove_at [] i = []
remove_at (x ∷ rs) zero = rs
remove_at (x ∷ rs) (suc i) = x ∷ remove_at rs i

-- A capacity that is much larger than the array is reduced: to as many bytes as are then counted in records.
unfoldable pub reduce : Bool → AspaArray → AspaArray
reduce shrink a =
    if ltb (length a.records + 1000) a.capacity
    then (if shrink
        then record a {
          capacity = length a.records + 1000;
          bytes = length a.records + 1000;
          overrun = a.overrun || ltb (length a.records + 1000) (record_bytes * length a.records);
        }
        else a)
    else a

unfoldable pub aspa_array_remove : Bool → AspaArray → ℕ → ArrayOutcome
unfolding reduce
aspa_array_remove shrink a index =
    if leb (length a.records) index
    then record { status = record_not_found; array = a }
    else record {
      status = success;
      array = reduce shrink (record a { records = remove_at a.records index });
    }

unfoldable pub aspa_array_get_record : AspaArray → ℕ → Option AspaRecord
aspa_array_get_record a index = record_at a.records index

unfoldable pub aspa_array_reserve : Bool → AspaArray → ℕ → ArrayOutcome
aspa_array_reserve ok a n =
    if leb n a.capacity
    then record { status = success; array = a }
    else if ok
    then record { status = success; array = record a { capacity = n; bytes = record_bytes * n } }
    else record { status = error; array = a }

-- The size is at most the capacity.
abbrev pub HasRoom : AspaArray → Type 0
HasRoom a = length a.records ≤ a.capacity

pub length-insert_at :
    (rs : List AspaRecord) (i : ℕ) (r : AspaRecord)
    → i ≤ length rs
    → length (insert_at rs i r) ≡ suc (length rs)
length-insert_at rs zero r h = refl
length-insert_at [] (suc i) r h = ground arith
length-insert_at (x ∷ rs) (suc i) r h = ap suc (length-insert_at rs i r (omega arith))

length-remove_at : (rs : List AspaRecord) (i : ℕ) → length (remove_at rs i) ≤ length rs
length-remove_at [] i = omega arith
length-remove_at (x ∷ rs) zero = omega arith
length-remove_at (x ∷ rs) (suc i) = let h = length-remove_at rs i in omega arith

remove_at-insert_at :
    (rs : List AspaRecord) (i : ℕ) (r : AspaRecord)
    → i ≤ length rs
    → remove_at (insert_at rs i r) i ≡ rs
remove_at-insert_at rs zero r h = refl
remove_at-insert_at [] (suc i) r h = ground arith
remove_at-insert_at (x ∷ rs) (suc i) r h =
    ap (λ z. x ∷ z) (remove_at-insert_at rs i r (omega arith))

pub record_at-insert_at :
    (rs : List AspaRecord) (i : ℕ) (r : AspaRecord)
    → i ≤ length rs
    → record_at (insert_at rs i r) i ≡ some r
record_at-insert_at rs zero r h = refl
record_at-insert_at [] (suc i) r h = ground arith
record_at-insert_at (x ∷ rs) (suc i) r h = record_at-insert_at rs i r (omega arith)

-- aspa_array_insert keeps the size within the capacity, and so does aspa_array_append.
internal-HasRoom :
    (grow copy : Bool) (a : AspaArray) (i : ℕ) (r : AspaRecord) (c : Bool)
    → HasRoom a
    → i ≤ length a.records
    → HasRoom (aspa_array_insert_internal grow copy a i r c).array
unfolding aspa_array_insert_internal aspa_array_reallocate
internal-HasRoom grow copy a i r c h k = let e = length-insert_at a.records i r k in ground arith

pub aspa_array_append-HasRoom :
    (grow copy : Bool) (a : AspaArray) (r : AspaRecord) (c : Bool)
    → HasRoom a
    → HasRoom (aspa_array_append grow copy a r c).array
unfolding aspa_array_append
aspa_array_append-HasRoom grow copy a r c h =
    internal-HasRoom grow copy a (length a.records) r c h (omega arith)

insert-HasRoom :
    (grow copy : Bool) (a : AspaArray) (i : ℕ) (r : AspaRecord) (c : Bool)
    → HasRoom a
    → HasRoom (aspa_array_insert grow copy a i r c).array
unfolding aspa_array_insert
insert-HasRoom grow copy a i r c h = let k = internal-HasRoom grow copy a i r c h in ground arith

remove-HasRoom :
    (shrink : Bool) (a : AspaArray) (i : ℕ)
    → HasRoom a
    → HasRoom (aspa_array_remove shrink a i).array
unfolding aspa_array_remove reduce
remove-HasRoom shrink a i h = let k = length-remove_at a.records i in ground arith

reserve-HasRoom :
    (ok : Bool) (a : AspaArray) (n : ℕ) → HasRoom a → HasRoom (aspa_array_reserve ok a n).array
unfolding aspa_array_reserve
reserve-HasRoom ok a n h = ground arith

-- The calls that change an array.
pub data ArrayCall : Type 0 where
  insert_call : Bool → Bool → ℕ → AspaRecord → Bool → ArrayCall
  append_call : Bool → Bool → AspaRecord → Bool → ArrayCall
  remove_call : Bool → ℕ → ArrayCall
  reserve_call : Bool → ℕ → ArrayCall

abbrev pub run_call : AspaArray → ArrayCall → ArrayOutcome
run_call a (insert_call grow copy i r c) = aspa_array_insert grow copy a i r c
run_call a (append_call grow copy r c) = aspa_array_append grow copy a r c
run_call a (remove_call shrink i) = aspa_array_remove shrink a i
run_call a (reserve_call ok n) = aspa_array_reserve ok a n

-- Every call that changes an array keeps its size within its capacity, whichever allocations succeed.
pub run_call-HasRoom : (a : AspaArray) (c : ArrayCall) → HasRoom a → HasRoom (run_call a c).array
run_call-HasRoom a (insert_call grow copy i r c) h = insert-HasRoom grow copy a i r c h
run_call-HasRoom a (append_call grow copy r c) h = aspa_array_append-HasRoom grow copy a r c h
run_call-HasRoom a (remove_call shrink i) h = remove-HasRoom shrink a i h
run_call-HasRoom a (reserve_call ok n) h = reserve-HasRoom ok a n h

-- The allocation has the bytes for as many records as are counted, as a new or a reserved array has.
abbrev pub IsWhole : AspaArray → Type 0
IsWhole a = record_bytes * a.capacity ≤ a.bytes

-- On an array that has not been overrun, whose size is within its capacity and its capacity within its bytes,
-- and which has at most 43 records or at most 1000 more counted than it has: inserting at an index within the
-- array, or at its end, where the allocations succeed, succeeds; the record is then at that index, and removing
-- it there succeeds and gives the records from before. Neither call overruns the allocation.
pub aspa_array_remove-insert :
    (shrink : Bool) (a : AspaArray) (i : ℕ) (r : AspaRecord) (c : Bool)
    → i ≤ length a.records
    → HasRoom a
    → IsWhole a
    → a.overrun ≡ false
    → (length a.records ≤ 43) ⊎ (a.capacity ≤ length a.records + 1000)
    → let o = aspa_array_insert true true a i r c in
      let u = aspa_array_remove shrink o.array i in
      (o.status ≡ success)
      × (aspa_array_get_record o.array i ≡ some r)
      × (u.status ≡ success)
      × (u.array.records ≡ a.records)
      × (o.array.overrun ≡ false)
      × (u.array.overrun ≡ false)
unfolding aspa_array_insert aspa_array_insert_internal aspa_array_reallocate aspa_array_remove
    reduce aspa_array_get_record
aspa_array_remove-insert shrink a i r c h room is_whole intact small =
    let e = length-insert_at a.records i r h in
    let f = remove_at-insert_at a.records i r h in
    let g = record_at-insert_at a.records i r h in
    let z : a.overrun || is_too_small (aspa_array_reallocate true a).array ≡ false = ground arith in
    ground arith

length-remove_at_exact :
    (rs : List AspaRecord) (i : ℕ) → i < length rs → suc (length (remove_at rs i)) ≡ length rs
length-remove_at_exact [] i h = ground arith
length-remove_at_exact (x ∷ rs) zero h = refl
length-remove_at_exact (x ∷ rs) (suc i) h = ap suc (length-remove_at_exact rs i (omega arith))

-- Removing any record of an array of more than 44 whose capacity exceeds its size by 1000 or more, where the
-- reallocation succeeds, succeeds and cuts off records: the allocation is then too small for those that the
-- array still counts.
pub aspa_array_remove_overrun :
    (a : AspaArray) (i : ℕ)
    → i < length a.records
    → 44 < length a.records
    → length a.records + 999 < a.capacity
    → let u = aspa_array_remove true a i in
      (u.status ≡ success)
      × (u.array.overrun ≡ true)
      × (u.array.bytes < record_bytes * length u.array.records)
unfolding aspa_array_remove reduce
aspa_array_remove_overrun a i h many spare =
    let e = length-remove_at_exact a.records i h in ground arith
