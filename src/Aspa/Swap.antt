-- ===== src/Aspa/Swap.antt =====
-- aspa_table_update_swap_in_compute, and aspa_table_update_swap_in_apply and aspa_table_update_swap_in_discard
-- by aspa_table_update_swap_in_consume, of aspa/aspa.c. No pointer that a caller passes is NULL, except that
-- `*update` is NULL before the computation. `sort_operations` stands for qsort with compare_update_operations.
use rtrlib.Prelude.{
  ◌||◌, ℕ, suc, Bool, true, false, if◌then◌else◌, Option, none, some, List, [], ◌∷◌, ◌++◌,
}
use rtrlib.Aspa.Array.{
  AspaStatus, success, duplicate_record, record_not_found, error, not_initialized, AspaArray,
  aspa_array_create,
}
use rtrlib.Aspa.Table.{
  AspaTable, AspaNode, Told, aspa_table_notify_clients, aspa_store_create_node, aspa_store_get_node,
  set_array,
}
use rtrlib.Aspa.Update.{
  UpdateOperation, Progress, Memory, Computed, aspa_table_update_compute_internal,
}

-- `node`, `new_array` and `replaced_records` of an update: all NULL, or the node of the socket with the two
-- arrays. They are undefined where the call returns early and leaves `node` and `new_array` as rtr_malloc gives
-- them, and where an array has been overrun.
pub data UpdateResult : Type 0 where
  undefined no_result : UpdateResult
  ready : ℕ → AspaArray → AspaArray → UpdateResult

pub record AspaUpdate : Type 0 where
  pub operations : List UpdateOperation
  pub failed : Option ℕ
  pub result : UpdateResult

-- Which allocations of the call succeed: the update, the two of a first array with its node, those of the new
-- array and of the one for replaced records, and those of the loops.
pub record Allocations : Type 0 where
  pub update : Bool
  pub first_array : Bool × Bool
  pub new_node : Bool
  pub new_array : Bool × Bool
  pub replaced : Bool × Bool
  pub reserve : Bool
  pub appends : Memory

-- What a call leaves: what it returns, the table, the update, and whether `update_lock` is held.
pub record SwapOutcome : Type 0 where
  pub status : AspaStatus
  pub table : AspaTable
  pub update : Option AspaUpdate
  pub locked : Bool

abbrev pub early : List UpdateOperation → AspaTable → SwapOutcome
early ops t = record {
  status = error;
  table = t;
  update = some (record { operations = ops; failed = none; result = undefined });
  locked = true;
}

abbrev pub result_of : AspaStatus → ℕ → Progress → UpdateResult
result_of success socket p = ready socket p.new_array p.replaced
result_of duplicate_record socket p = no_result
result_of record_not_found socket p = no_result
result_of error socket p = no_result
result_of not_initialized socket p = no_result

-- An array that the call reads or writes has been overrun; `old` is that of the node.
abbrev pub is_overrun : AspaArray → Progress → Bool
is_overrun old p = old.overrun || (p.new_array.overrun || p.replaced.overrun)

abbrev pub computed : AspaTable → ℕ → AspaArray → Computed → SwapOutcome
computed t socket old c = record {
  status = c.status;
  table = t;
  update = some (record {
    operations = c.operations;
    failed = c.failed;
    result = if is_overrun old c.progress then undefined else result_of c.status socket c.progress;
  });
  locked = true;
}

-- The part after the node has been found or made; `a` is its array.
unfoldable pub compute_for :
    Allocations → (List ℕ → List ℕ) → AspaTable → ℕ → AspaArray → List UpdateOperation → SwapOutcome
unfolding aspa_array_create aspa_table_update_compute_internal
compute_for m qsort t socket a ops = elim (aspa_array_create m.new_array.0 m.new_array.1) [
  | none ↦ early ops t
  | some new_array ↦ elim (aspa_array_create m.replaced.0 m.replaced.1) [
    | none ↦ early ops t
    | some replaced ↦
        computed t socket a
          (aspa_table_update_compute_internal m.reserve m.appends qsort a new_array ops replaced)
  ]
]

abbrev pub make_node :
    Allocations → (List ℕ → List ℕ) → AspaTable → ℕ → List UpdateOperation → SwapOutcome
make_node m qsort t socket ops = elim (aspa_array_create m.first_array.0 m.first_array.1) [
  | none ↦ early ops t
  | some a ↦ elim (aspa_store_create_node m.new_node t.store socket a) [
    | none ↦ early ops t
    | some store ↦ compute_for m qsort (record t { store = store }) socket a ops
  ]
]

abbrev pub compute_sorted :
    Allocations → (List ℕ → List ℕ) → AspaTable → ℕ → List UpdateOperation → SwapOutcome
compute_sorted m qsort t socket ops = elim (aspa_store_get_node t.store socket) [
  | none ↦ make_node m qsort t socket ops
  | some (i, n) ↦ compute_for m qsort t socket n.array ops
]

unfoldable pub aspa_table_update_swap_in_compute :
    Allocations
    → (List ℕ → List ℕ)
    → (List UpdateOperation → List UpdateOperation)
    → AspaTable
    → ℕ
    → List UpdateOperation
    → SwapOutcome
unfolding compute_for aspa_array_create aspa_store_create_node aspa_store_get_node
aspa_table_update_swap_in_compute m qsort sort_operations t socket [] = record {
  status = success;
  table = t;
  update = none;
  locked = false;
}
aspa_table_update_swap_in_compute m qsort sort_operations t socket (op ∷ ops) =
    if m.update
    then compute_sorted m qsort t socket (sort_operations (op ∷ ops))
    else record { status = error; table = t; update = none; locked = false }

-- What a call leaves: the table, the update, what the clients are told, and whether `update_lock` is held.
pub record Consumed : Type 0 where
  pub table : AspaTable
  pub update : Option AspaUpdate
  pub told : List Told
  pub locked : Bool

-- `mem i` is for the copy of the providers of the i-th operation.
unfoldable pub notify_operations : (ℕ → Bool) → AspaTable → ℕ → ℕ → List UpdateOperation → List Told
unfolding aspa_table_notify_clients
notify_operations mem t socket i [] = []
notify_operations mem t socket i (op ∷ ops) =
    (if op.is_no_op then [] else aspa_table_notify_clients (mem i) t op.rec socket op.operation)
    ++ notify_operations mem t socket (suc i) ops

abbrev pub swap_in : (ℕ → Bool) → AspaTable → AspaUpdate → ℕ → AspaArray → ℕ × AspaNode → Consumed
swap_in mem t u socket new_array (i, n) = record {
  table = record t { store = set_array t.store i new_array };
  update = none;
  told = notify_operations mem t socket 0 u.operations;
  locked = false;
}

-- A call that returns at once.
abbrev pub untouched : AspaTable → AspaUpdate → Consumed
untouched t u = record { table = t; update = some u; told = []; locked = true }

abbrev pub apply_to :
    (ℕ → Bool) → AspaTable → AspaUpdate → ℕ → AspaArray → Option (ℕ × AspaNode) → Consumed
apply_to mem t u socket new_array none = untouched t u
apply_to mem t u socket new_array (some p) = swap_in mem t u socket new_array p

abbrev pub apply_ready :
    (ℕ → Bool) → AspaTable → AspaUpdate → Option ℕ → UpdateResult → Option Consumed
apply_ready mem t u f undefined = none
apply_ready mem t u f no_result = some (untouched t u)
apply_ready mem t u (some i) (ready socket new_array replaced) = some (untouched t u)
apply_ready mem t u none (ready socket new_array replaced) =
    some (apply_to mem t u socket new_array (aspa_store_get_node t.store socket))

abbrev pub dropped : AspaTable → Consumed
dropped t = record { table = t; update = none; told = []; locked = false }

abbrev pub discard_ready : AspaTable → UpdateResult → Option Consumed
discard_ready t undefined = none
discard_ready t no_result = some (dropped t)
discard_ready t (ready socket new_array replaced) = some (dropped t)

-- `none` where what the code does is not defined: it reads the fields of the update, and where they are
-- undefined discarding frees `new_array`, and after an early return also the providers of the additions, which
-- lie inside of the PDUs. The table still has the update's node, since its `update_lock` is held. What else is
-- freed is left out.
unfoldable pub aspa_table_update_swap_in_consume :
    (ℕ → Bool) → AspaTable → Option AspaUpdate → Bool → Bool → Option Consumed
unfolding aspa_store_get_node set_array notify_operations
aspa_table_update_swap_in_consume mem t none apply locked =
    some (record { table = t; update = none; told = []; locked = locked })
aspa_table_update_swap_in_consume mem t (some u) true locked = apply_ready mem t u u.failed u.result
aspa_table_update_swap_in_consume mem t (some u) false locked = discard_ready t u.result

unfoldable pub aspa_table_update_swap_in_apply :
    (ℕ → Bool) → AspaTable → Option AspaUpdate → Bool → Option Consumed
unfolding aspa_table_update_swap_in_consume
aspa_table_update_swap_in_apply mem t u locked =
    aspa_table_update_swap_in_consume mem t u true locked

unfoldable pub aspa_table_update_swap_in_discard :
    (ℕ → Bool) → AspaTable → Option AspaUpdate → Bool → Option Consumed
unfolding aspa_table_update_swap_in_consume
aspa_table_update_swap_in_discard mem t u locked =
    aspa_table_update_swap_in_consume mem t u false locked
