-- ===== src/Rtr/AspaUpdate.antt =====
-- The ASPA part of rtr_sync_update_tables in rtr/packets.c: rtr_aspa_provider_count,
-- rtr_aspa_pdu_2_aspa_operation and rtr_compute_update_aspa_table, then applying or discarding the update. The
-- table is not NULL, and `id` stands for the socket.
use rtrlib.Prelude.{
  ℕ, zero, suc, ◌+◌, ◌-◌, ◌/◌, ◌%◌, Bool, true, false, ◌==◌, ◌&&◌, if◌then◌else◌, Option, none,
  some, List, [], ◌∷◌,
}
use rtrlib.Aspa.Array.{
  AspaStatus, success, duplicate_record, record_not_found, error, not_initialized,
}
use rtrlib.Aspa.Table.{AspaTable, add, remove}
use rtrlib.Aspa.Update.{UpdateOperation}
use rtrlib.Aspa.Swap.{
  AspaUpdate, Allocations, SwapOutcome, Consumed, aspa_table_update_swap_in_compute,
  aspa_table_update_swap_in_apply, aspa_table_update_swap_in_discard,
}
use rtrlib.Rtr.Socket.{RtrSocket, error_fatal, rtr_change_socket_state}
use rtrlib.Rtr.Bytes.{be32_at}
use rtrlib.Rtr.Update.{StoredPdu}

-- The length is at least 12, which rtr_pdu_check_size tests.
unfoldable pub rtr_aspa_provider_count : StoredPdu → ℕ
rtr_aspa_provider_count pdu = (pdu.header.len - 12) / 4

-- The numbers from byte `i` on.
abbrev pub numbers_at : List ℕ → ℕ → ℕ → List ℕ
numbers_at payload i zero = []
numbers_at payload i (suc n) = be32_at payload i ∷ numbers_at payload (i + 4) n

abbrev pub is_announcement : StoredPdu → Bool
is_announcement pdu = pdu.header.byte2 % 2 == 1

unfoldable pub rtr_aspa_pdu_2_aspa_operation : ℕ → StoredPdu → UpdateOperation
unfolding rtr_aspa_provider_count
rtr_aspa_pdu_2_aspa_operation i pdu = record {
  index = i;
  operation = if is_announcement pdu then add else remove;
  rec = record {
    customer_asn = be32_at pdu.payload 0;
    provider_asns =
        if is_announcement pdu then numbers_at pdu.payload 4 (rtr_aspa_provider_count pdu) else [];
  };
  is_no_op = false;
}

abbrev with_operation :
    UpdateOperation → Option (List UpdateOperation) → Option (List UpdateOperation)
with_operation op none = none
with_operation op (some ops) = some (op ∷ ops)

-- The loop that makes the operations; `none` where an announcement has no provider.
unfoldable pub make_operations : ℕ → List StoredPdu → Option (List UpdateOperation)
unfolding rtr_aspa_pdu_2_aspa_operation
make_operations i [] = some []
make_operations i (pdu ∷ pdus) =
    let later = make_operations (suc i) pdus in
    if is_announcement pdu && rtr_aspa_provider_count pdu == 0
    then none
    else with_operation (rtr_aspa_pdu_2_aspa_operation i pdu) later

-- Whether RTR_SUCCESS is returned, the socket, what the computation of the update leaves, and the codes of
-- the error PDUs that are sent. Internal errors are not sent, as in Rtr/Update.
pub record AspaComputed : Type 0 where
  pub done : Bool
  pub socket : RtrSocket
  pub swap : SwapOutcome
  pub sent : List ℕ

abbrev pub nothing_computed : AspaTable → SwapOutcome
nothing_computed t = record { status = success; table = t; update = none; locked = false }

abbrev pub stopped : RtrSocket → SwapOutcome → List ℕ → AspaComputed
stopped s o codes = record {
  done = false;
  socket = rtr_change_socket_state s error_fatal;
  swap = o;
  sent = codes;
}

abbrev pub went_through : RtrSocket → SwapOutcome → AspaComputed
went_through s o = record { done = true; socket = s; swap = o; sent = [] }

abbrev pub failed_operation : Option AspaUpdate → Bool
failed_operation none = false
failed_operation (some u) = elim u.failed [ none ↦ false | some i ↦ true ]

-- With a failed operation, and without one.
abbrev pub report_failed : RtrSocket → SwapOutcome → AspaStatus → AspaComputed
report_failed s o duplicate_record = stopped s o (7 ∷ [])
report_failed s o record_not_found = stopped s o (6 ∷ [])
report_failed s o success = went_through s o
report_failed s o error = went_through s o
report_failed s o not_initialized = went_through s o

abbrev pub report_other : RtrSocket → SwapOutcome → AspaStatus → AspaComputed
report_other s o success = went_through s o
report_other s o status = stopped s o []

abbrev pub report_computed : RtrSocket → SwapOutcome → AspaComputed
report_computed s o =
    if failed_operation o.update then report_failed s o o.status else report_other s o o.status

-- `ops_ok` says whether the operations can be allocated.
unfoldable pub rtr_compute_update_aspa_table :
    Bool
    → Allocations
    → (List ℕ → List ℕ)
    → (List UpdateOperation → List UpdateOperation)
    → ℕ
    → RtrSocket
    → AspaTable
    → List StoredPdu
    → AspaComputed
unfolding make_operations
rtr_compute_update_aspa_table ops_ok m qsort sort_operations id s t [] =
    went_through s (nothing_computed t)
rtr_compute_update_aspa_table ops_ok m qsort sort_operations id s t (pdu ∷ pdus) =
    if ops_ok
    then elim (make_operations 0 (pdu ∷ pdus)) [
      | none ↦ stopped s (nothing_computed t) (9 ∷ [])
      | some ops ↦
          report_computed s (aspa_table_update_swap_in_compute m qsort sort_operations t id ops)
    ]
    else stopped s (nothing_computed t) []

-- Whether to proceed, the socket, and what applying or discarding leaves, `none` where that is undefined.
pub record AspaUpdated : Type 0 where
  pub proceed : Bool
  pub socket : RtrSocket
  pub consumed : Option Consumed

abbrev pub consume : (ℕ → Bool) → AspaComputed → AspaUpdated
consume mem c = record {
  proceed = c.done;
  socket = c.socket;
  consumed =
      if c.done
      then aspa_table_update_swap_in_apply mem c.swap.table c.swap.update c.swap.locked
      else aspa_table_update_swap_in_discard mem c.swap.table c.swap.update c.swap.locked;
}

-- The part of rtr_sync_update_tables after the prefixes and the router keys have been put in.
unfoldable pub update_aspa :
    Bool
    → Allocations
    → (List ℕ → List ℕ)
    → (List UpdateOperation → List UpdateOperation)
    → (ℕ → Bool)
    → ℕ
    → RtrSocket
    → AspaTable
    → List StoredPdu
    → AspaUpdated
unfolding rtr_compute_update_aspa_table
update_aspa ops_ok m qsort sort_operations mem id s t pdus =
    consume mem (rtr_compute_update_aspa_table ops_ok m qsort sort_operations id s t pdus)
