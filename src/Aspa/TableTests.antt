-- ===== src/Aspa/TableTests.antt =====
-- The theorems on the array and the table at small ones.
use rtrlib.Aspa.Intact.{aspa_table_update_compute_internal-IsIntact, IsIntact, created}
use rtrlib.Prelude.{
  zero, length, length, ◌*◌, none, ◌<◌, suc, inr, ◌++◌, inl, ℕ, ◌≡◌, refl, Bool, true, false, List,
  [], ◌∷◌, some, arith,
}
use rtrlib.Aspa.Hop.{AspaRecord}
use rtrlib.Aspa.Array.{
  aspa_array_remove_overrun, record_bytes, aspa_array_remove-insert, AspaArray, HasRoom, success,
  aspa_array_insert, aspa_array_remove, aspa_array_get_record, run_call, insert_call,
  run_call-HasRoom, aspa_array_remove-insert,
}
use rtrlib.Aspa.Table.{
  aspa_store_get_node, remove, AspaTable, add, rtr_aspa_table_src_remove, aspa_table_src_replace,
}
use rtrlib.Aspa.Sources.{
  IsWithout, IsReplace, rtr_aspa_table_src_remove-IsWithout, aspa_table_src_replace-IsReplace,
}
use rtrlib.Aspa.Update.{UpdateOperation}
use rtrlib.Aspa.Swap.{
  Consumed, Allocations, aspa_table_update_swap_in_compute, aspa_table_update_swap_in_discard,
}
use rtrlib.Aspa.Sorted.{HasCustomer, apply_all}
use rtrlib.Aspa.Merge.{enough}
use rtrlib.Aspa.OneByOne.{Succeeds, aspa_table_update_compute_internal-one_by_one}
use rtrlib.Aspa.Update.{aspa_table_update_compute_internal}
use rtrlib.Aspa.Discard.{IsUndone, discard-swap_in_compute}

abbrev customer : ℕ → AspaRecord
customer asn = record { customer_asn = asn; provider_asns = 9 ∷ [] }

abbrev two_records : AspaArray
two_records = record {
  records = customer 1 ∷ customer 3 ∷ [];
  capacity = 2;
  bytes = 48;
  overrun = false;
}

run_call-HasRoom_example :
    HasRoom (run_call two_records (insert_call true true 1 (customer 2) true)).array
run_call-HasRoom_example =
    run_call-HasRoom two_records (insert_call true true 1 (customer 2) true) (omega arith)

aspa_array_remove-insert_example :
    let o = aspa_array_insert true true two_records 1 (customer 2) true in
    let u = aspa_array_remove true o.array 1 in
    (o.status ≡ success)
    × (aspa_array_get_record o.array 1 ≡ some (customer 2))
    × (u.status ≡ success)
    × (u.array.records ≡ customer 1 ∷ customer 3 ∷ [])
    × (o.array.overrun ≡ false)
    × (u.array.overrun ≡ false)
aspa_array_remove-insert_example =
    aspa_array_remove-insert true two_records 1 (customer 2) true (omega arith) (omega arith)
      (omega arith) refl (inl (omega arith))

abbrev customers : ℕ → List AspaRecord
customers zero = []
customers (suc n) = customer n ∷ customers n

-- An array of 45 records, as it was reserved for 1128.
abbrev wide : AspaArray
wide = record { records = customers 45; capacity = 1128; bytes = 27072; overrun = false }

aspa_array_remove_overrun_example :
    let u = aspa_array_remove true wide 0 in
    (u.status ≡ success)
    × (u.array.overrun ≡ true)
    × (u.array.bytes < record_bytes * length u.array.records)
aspa_array_remove_overrun_example =
    aspa_array_remove_overrun wide 0 (omega arith) (omega arith) (omega arith)

abbrev all_succeed : ℕ → Bool
all_succeed i = true

abbrev dst : AspaTable
dst = record {
  has_callback = true;
  store =
      record { socket = 1; array = two_records } ∷ record { socket = 2; array = two_records } ∷ [];
}

abbrev src : AspaTable
src = record {
  has_callback = false;
  store =
      record {
        socket = 2;
        array = record { records = []; capacity = 128; bytes = 3072; overrun = false };
      }
      ∷ [];
}

rtr_aspa_table_src_remove-IsWithout_example :
    IsWithout 2 dst (rtr_aspa_table_src_remove all_succeed dst 2 true).table
rtr_aspa_table_src_remove-IsWithout_example =
    rtr_aspa_table_src_remove-IsWithout all_succeed dst 2 true ((refl, tt), (tt, tt))

aspa_table_src_replace-IsReplace_example :
    IsReplace 2 dst src
      (aspa_table_src_replace true all_succeed all_succeed all_succeed dst src 2 true false)
aspa_table_src_replace-IsReplace_example =
    aspa_table_src_replace-IsReplace true all_succeed all_succeed all_succeed dst src 2 true false
      ((refl, tt), (tt, tt)) (tt, tt)

abbrev allocations : Allocations
allocations = record {
  update = true;
  first_array = (true, true);
  new_node = true;
  new_array = (true, true);
  replaced = (true, true);
  reserve = true;
  appends = λ k. (true, true);
}

abbrev operations : List UpdateOperation
operations = record { index = 0; operation = add; rec = customer 2; is_no_op = false } ∷ []

discard-swap_in_compute_example :
    let o =
      aspa_table_update_swap_in_compute allocations (λ ps. ps) (λ ops. ops) dst 1 operations in
    (c : Consumed) × (aspa_table_update_swap_in_discard all_succeed o.table o.update o.locked
      ≡ some c)
    × IsUndone dst c
unfolding aspa_store_get_node
discard-swap_in_compute_example =
    discard-swap_in_compute allocations (λ ps. ps) (λ ops. ops) dst 1 operations all_succeed
      (record {
        first_array = refl;
        new_node = refl;
        new_array = refl;
        replaced = refl;
        reserve = refl;
      })
      (λ ops. refl) (omega arith) refl

-- Where no new array can be made, discarding is undefined.
discard_undefined :
    let m = record allocations { new_array = (false, true) } in
    let o = aspa_table_update_swap_in_compute m (λ ps. ps) (λ ops. ops) dst 1 operations in
    aspa_table_update_swap_in_discard all_succeed o.table o.update o.locked ≡ none
unfolding aspa_table_update_swap_in_compute aspa_table_update_swap_in_discard
discard_undefined = refl

-- Customer 2 is added between the others, and customer 3 removed.
abbrev removal : UpdateOperation
removal = record {
  index = 1;
  operation = remove;
  rec = record { customer_asn = 3; provider_asns = [] };
  is_no_op = false;
}

other_customers : ¬ HasCustomer 2 two_records.records
other_customers h = elim h [
  | inl q ↦ ground arith
  | inr k ↦ elim k [ inl q ↦ ground arith | inr b ↦ b ]
]

aspa_table_update_compute_internal-IsIntact_example :
    IsIntact
      (aspa_table_update_compute_internal true enough
        (λ ps. ps)
        two_records
        created
        (operations ++ removal ∷ [])
        created).progress
aspa_table_update_compute_internal-IsIntact_example =
    aspa_table_update_compute_internal-IsIntact enough (λ ps. ps) two_records
      (operations ++ removal ∷ []) (omega arith)

one_by_one_example :
    Succeeds (apply_all (λ ps. ps) (operations ++ removal ∷ []) two_records.records) (
      aspa_table_update_compute_internal true enough
        (λ ps. ps)
        two_records
        created
        (operations ++ removal ∷ [])
        created)
one_by_one_example =
    aspa_table_update_compute_internal-one_by_one true (λ ps. ps) two_records created created
      (operations ++ removal ∷ []) ((omega arith, tt), (tt, tt)) ((omega arith, tt), (tt, tt))
      (other_customers, (inr (inl refl), tt)) refl

-- An addition that replaces a record, and another one behind it: the old record is in the new array too.
abbrev replacement : AspaRecord
replacement = record { customer_asn = 1; provider_asns = 8 ∷ [] }

replaced_and_kept :
    (aspa_table_update_compute_internal true enough
      (λ ps. ps)
      (record { records = customer 1 ∷ []; capacity = 128; bytes = 3072; overrun = false })
      created
      (record { index = 0; operation = add; rec = replacement; is_no_op = false }
        ∷ record { index = 1; operation = add; rec = customer 2; is_no_op = false }
        ∷ [])
      created).progress.new_array.records
    ≡ replacement ∷ customer 1 ∷ customer 2 ∷ []
unfolding aspa_table_update_compute_internal
replaced_and_kept = refl
