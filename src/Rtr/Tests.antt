-- ===== src/Rtr/Tests.antt =====
-- The theorems on rtr/packets.c at small sockets and PDUs.
use rtrlib.Aspa.Hop.{AspaRecord}
use rtrlib.Prelude.{
  none, some, Option, ◌↔◌, ℕ, ◌≡◌, ◌≢◌, ◌≤◌, ◌<◌, ◌⊎◌, refl, Bool, true, false, List, [], ◌∷◌, ◌++◌,
  some, arith,
}
use rtrlib.Ip.{rtr_get_bits, v4}
use rtrlib.Ip.Clear.{is_clear, is_clear_lem}
use rtrlib.Pfx.Table.{PfxTable, rtr_pfx_table_init}
use rtrlib.Pfx.Records.{IsTable, IsRecord, InTable}
use rtrlib.Pfx.Reach.{init, IsReached-IsTable}
use rtrlib.Pfx.Members.{held}
use rtrlib.Rtr.Socket.{
  success, invalid_param, RtrSocket, shutdown, sync, connecting, fast_reconnect, default_min_max,
  rtr_change_socket_state, change_states, change_states-shutdown,
}
use rtrlib.Rtr.Interval.{
  IsInitialised, rtr_init, rtr_init_lem, AreLimits, HasIntervals, expiration,
  rtr_check_interval_option, rtr_check_interval_option-HasIntervals,
}
use rtrlib.Rtr.Bytes.{be32}
use rtrlib.Pfx.Data.{PfxRecord}
use rtrlib.Rtr.Pdu.{session_field, rtr_pdu_check_size, Header}
use rtrlib.Rtr.Receive.{
  whole, received, rtr_receive_pdu, check_header, check_payload, downgrade, IsAccepted,
  rtr_receive_pdu-IsAccepted, rtr_receive_pdu-version,
}
use rtrlib.Rtr.Handle.{
  rtr_handle_eod_pdu, rtr_handle_error_pdu, rtr_handle_eod_pdu-HasIntervals,
  rtr_handle_error_pdu-version,
}
use rtrlib.Rtr.Update.{
  StoredPdu, Change, update_prefixes, rtr_undo_update_pfx_table_batch, change_of,
  rtr_prefix_pdu_2_pfx_record,
}
use rtrlib.Rtr.Undo.{Unmade}
use rtrlib.Rtr.Restore.{
  rtr_undo_update_pfx_table_batch_lem, rtr_undo_update_pfx_table_batch-InTable,
}
use rtrlib.Aspa.Table.{aspa_store_get_node, AspaTable}
use rtrlib.Aspa.Merge.{enough}
use rtrlib.Aspa.Discard.{held_for}
use rtrlib.Aspa.Swap.{
  Consumed, aspa_table_update_swap_in_compute, Allocations, aspa_table_update_swap_in_apply,
}
use rtrlib.Rtr.AspaUpdate.{update_aspa}
use rtrlib.Rtr.Released.{IsFinished, update_aspa-IsFinished}
use rtrlib.Rtr.Atomic.{IsAtomic, changes_of, update_prefixes-IsAtomic}

abbrev socket : RtrSocket
socket = record {
  tr_socket = 0;
  refresh_interval = 3600;
  last_update = 0;
  expire_interval = 7200;
  retry_interval = 600;
  iv_mode = default_min_max;
  state = sync;
  session_id = 7;
  request_session_id = false;
  serial_number = 1;
  connection_state_fp = true;
  version = 2;
  has_received_pdus = false;
  is_resetting = false;
  events = [];
}

socket-HasIntervals : HasIntervals socket
socket-HasIntervals = record {
  expire_low = omega arith;
  expire_high = omega arith;
  refresh_low = omega arith;
  refresh_high = omega arith;
  retry_low = omega arith;
  retry_high = omega arith;
}

change_states-shutdown_example :
    let u = rtr_change_socket_state socket shutdown in
    ((change_states u (connecting ∷ sync ∷ [])).state ≡ shutdown)
    × ((change_states u (connecting ∷ sync ∷ [])).events ≡ u.events)
change_states-shutdown_example = change_states-shutdown socket (connecting ∷ sync ∷ [])

rtr_check_interval_option-HasIntervals_example :
    HasIntervals (rtr_check_interval_option socket default_min_max 1000000 expiration)
rtr_check_interval_option-HasIntervals_example =
    rtr_check_interval_option-HasIntervals socket default_min_max 1000000 expiration
      (λ e. ground arith) socket-HasIntervals

-- An expire interval that is too long becomes the longest one.
clamped :
    (rtr_check_interval_option socket default_min_max 1000000 expiration).expire_interval ≡ 172800
unfolding rtr_check_interval_option
clamped = refl

rtr_init_example :
    let o = rtr_init socket (some 1) 3600 7200 600 default_min_max true in
    (o.0 ≡ success)
      × IsInitialised socket o.1 (some 1) 3600 7200 600 default_min_max true
      × AreLimits 3600 7200 600
    ⊎ (o.0 ≡ invalid_param) × (o.1 ≡ record socket { tr_socket = 1 }) × (¬ AreLimits 3600 7200 600)
rtr_init_example = rtr_init_lem socket (some 1) 3600 7200 600 default_min_max true

abbrev response : Header
response = record { ver = 1; pdu_type = 3; byte2 = 0; byte3 = 7; len = 8 }

response_received : (rtr_receive_pdu socket (whole response [])).rtval ≡ received
unfolding rtr_receive_pdu check_header check_payload downgrade rtr_pdu_check_size
response_received = refl

rtr_receive_pdu-IsAccepted_example :
    IsAccepted socket (whole response []) (rtr_receive_pdu socket (whole response []))
rtr_receive_pdu-IsAccepted_example =
    rtr_receive_pdu-IsAccepted socket (whole response []) response_received

rtr_receive_pdu-version_example : (rtr_receive_pdu socket (whole response [])).socket.version ≤ 2
rtr_receive_pdu-version_example = rtr_receive_pdu-version socket (whole response [])

-- The first PDU lowers the version.
lowered : (rtr_receive_pdu socket (whole response [])).socket.version ≡ 1
unfolding rtr_receive_pdu check_header check_payload downgrade rtr_pdu_check_size
lowered = refl

abbrev eod : Header
eod = record { ver = 1; pdu_type = 7; byte2 = 0; byte3 = 7; len = 24 }

abbrev intervals : List ℕ
intervals = be32 5 ++ (be32 0 ++ (be32 0 ++ be32 1000000))

rtr_handle_eod_pdu-HasIntervals_example : HasIntervals (rtr_handle_eod_pdu socket eod intervals).1
rtr_handle_eod_pdu-HasIntervals_example =
    rtr_handle_eod_pdu-HasIntervals socket eod intervals (λ e. ground arith) socket-HasIntervals

abbrev wrong_version_report : Header
wrong_version_report = record { ver = 1; pdu_type = 10; byte2 = 0; byte3 = 4; len = 16 }

rtr_handle_error_pdu-version_example :
    let o = rtr_handle_error_pdu socket wrong_version_report in
    (o.state ≡ fast_reconnect)
      × (session_field wrong_version_report ≡ 4)
      × (wrong_version_report.ver ≤ 2)
      × (wrong_version_report.ver < 2)
      × (o.version ≡ wrong_version_report.ver)
    ⊎ (o.state ≢ fast_reconnect)
      × ((o.version ≡ 2)
            × (¬ (
                (session_field wrong_version_report ≡ 4)
                × (wrong_version_report.ver ≤ 2)
                × (wrong_version_report.ver < 2)))
          ⊎ (sync ≡ shutdown)
            × (o.state ≡ shutdown)
            × (session_field wrong_version_report ≡ 4)
            × (wrong_version_report.ver ≤ 2)
            × (wrong_version_report.ver < 2)
            × (o.version ≡ wrong_version_report.ver))
rtr_handle_error_pdu-version_example =
    rtr_handle_error_pdu-version socket wrong_version_report (λ e. ground arith)

-- The announcement of 10.0.0.0/8 up to length 16 for AS 64496.
abbrev prefix_pdu : StoredPdu
prefix_pdu = record {
  header = record { ver = 1; pdu_type = 4; byte2 = 0; byte3 = 0; len = 20 };
  payload = 1 ∷ 8 ∷ 16 ∷ 0 ∷ 10 ∷ 0 ∷ 0 ∷ 0 ∷ be32 64496;
}

abbrev change : Change
change = record {
  announce = true;
  rec = record { asn = 64496; prefix = v4 167772160; min_len = 8; max_len = 16; socket = 1 };
}

clear_change : is_clear (v4 167772160) 8 32 ≡ true
unfolding is_clear rtr_get_bits
clear_change = refl

change-IsRecord : IsRecord change.rec
change-IsRecord = record {
  words = omega arith;
  fits = omega arith;
  canonical = is_clear_lem (v4 167772160) 8 32 clear_change;
}

abbrev empty : PfxTable
empty = rtr_pfx_table_init true

empty-IsTable : IsTable empty
empty-IsTable = IsReached-IsTable empty (init true)

abbrev all_succeed : ℕ → ℕ → Bool
all_succeed i k = true

reads : change_of 1 prefix_pdu ≡ some change
unfolding change_of
reads = refl

update_prefixes-IsAtomic_example :
    IsAtomic 1
      (held empty)
      (changes_of 1 (prefix_pdu ∷ []))
      (update_prefixes all_succeed 0 1 socket empty [] (prefix_pdu ∷ []))
unfolding change_of rtr_prefix_pdu_2_pfx_record
update_prefixes-IsAtomic_example =
    update_prefixes-IsAtomic all_succeed 0 1 socket empty (prefix_pdu ∷ []) (λ i k. refl)
      empty-IsTable (change-IsRecord, tt) (tt, tt)

rtr_undo_update_pfx_table_batch_example :
    let u = rtr_undo_update_pfx_table_batch all_succeed 0 1 empty (prefix_pdu ∷ []) in
    (u.done ≡ true)
    × IsTable u.table
    × ((s : PfxRecord) → InTable s u.table ↔ Unmade (change ∷ []) s (InTable s empty))
rtr_undo_update_pfx_table_batch_example =
    rtr_undo_update_pfx_table_batch_lem all_succeed 0 1 empty (prefix_pdu ∷ []) (change ∷ [])
      (λ i k. refl) (reads, tt) (change-IsRecord, tt) empty-IsTable

-- The same record withdrawn.
abbrev withdrawal : StoredPdu
withdrawal = record prefix_pdu { payload = 0 ∷ 8 ∷ 16 ∷ 0 ∷ 10 ∷ 0 ∷ 0 ∷ 0 ∷ be32 64496 }

reads_withdrawal : change_of 1 withdrawal ≡ some (record change { announce = false })
unfolding change_of
reads_withdrawal = refl

not_in_empty : ¬ InTable change.rec empty
not_in_empty i = i.entry_in

rtr_undo_update_pfx_table_batch-InTable_example :
    let u = rtr_undo_update_pfx_table_batch all_succeed 0 1 empty (prefix_pdu ∷ withdrawal ∷ []) in
    (u.done ≡ true) × InTable change.rec u.table
rtr_undo_update_pfx_table_batch-InTable_example =
    rtr_undo_update_pfx_table_batch-InTable all_succeed 0 1 empty prefix_pdu withdrawal change.rec
      (λ i k. refl) reads reads_withdrawal change-IsRecord empty-IsTable not_in_empty

-- Customer 5 with the provider 9.
abbrev aspa_pdu : StoredPdu
aspa_pdu = record {
  header = record { ver = 2; pdu_type = 11; byte2 = 1; byte3 = 0; len = 16 };
  payload = be32 5 ++ be32 9;
}

abbrev allocations : Allocations
allocations = record {
  update = true;
  first_array = (true, true);
  new_node = true;
  new_array = (true, true);
  replaced = (true, true);
  reserve = true;
  appends = enough;
}

abbrev aspa_table : AspaTable
aspa_table = record { has_callback = true; store = [] }

update_aspa-IsFinished_example : IsFinished aspa_table (
    update_aspa true allocations
      (λ ps. ps)
      (λ ops. ops)
      (λ i. true)
      1
      socket
      aspa_table
      (aspa_pdu ∷ []))
unfolding aspa_store_get_node
update_aspa-IsFinished_example =
    update_aspa-IsFinished true allocations (λ ps. ps) (λ ops. ops) (λ i. true) 1 socket aspa_table
      (aspa_pdu ∷ [])
      (record {
        first_array = refl;
        new_node = refl;
        new_array = refl;
        replaced = refl;
        reserve = refl;
      })
      refl (λ ops. refl) (omega arith) refl

abbrev records_left : Option Consumed → List AspaRecord
records_left none = []
records_left (some c) = held_for c.table 1

aspa_records :
    records_left
      (update_aspa true allocations
        (λ ps. ps)
        (λ ops. ops)
        (λ i. true)
        1
        socket
        aspa_table
        (aspa_pdu ∷ [])).consumed
    ≡ record { customer_asn = 5; provider_asns = 9 ∷ [] } ∷ []
unfolding update_aspa aspa_table_update_swap_in_compute aspa_table_update_swap_in_apply
aspa_records = refl

abbrev lock_left : Option Consumed → Bool
lock_left none = false
lock_left (some c) = c.locked

-- Where an append cannot allocate, the update is neither applied nor reported, and the lock is not released.
lock_is_kept :
    let u =
      update_aspa true
        (record allocations { appends = λ k. (true, false) })
        (λ ps. ps)
        (λ ops. ops)
        (λ i. true)
        1
        socket
        aspa_table
        (aspa_pdu ∷ []) in
    (u.proceed ≡ true) × (lock_left u.consumed ≡ true)
unfolding update_aspa aspa_table_update_swap_in_compute aspa_table_update_swap_in_apply
lock_is_kept = (refl, refl)
