-- ===== src/Rtr/Update.antt =====
-- How rtr/packets.c puts prefix PDUs into the prefix table, and takes them back: rtr_prefix_pdu_2_pfx_record,
-- rtr_update_pfx_table, rtr_undo_update_pfx_table and its batch, and the prefix part of
-- rtr_sync_update_tables. The table is not NULL, and `id` stands for the socket. `mem j` says which
-- allocations of the j-th call on the table succeed.
use rtrlib.Prelude.{
  ℕ, suc, Bool, true, false, ◌==◌, if◌then◌else◌, Option, none, some, List, [], ◌∷◌, ◌++◌,
}
use rtrlib.Ip.{v4, v6}
use rtrlib.Pfx.Data.{
  PfxRecord, PfxRtval, success, error, duplicate_record, record_not_found, not_initialized,
}
use rtrlib.Pfx.Table.{PfxTable, PfxOperation, Outcome, rtr_pfx_table_add, rtr_pfx_table_remove}
use rtrlib.Pfx.Purge.{SrcRemoved, rtr_pfx_table_src_remove}
use rtrlib.Rtr.Socket.{RtrSocket, error_fatal, rtr_change_socket_state}
use rtrlib.Rtr.Bytes.{byte_at, be32_at}
use rtrlib.Rtr.Pdu.{Header, ipv4_prefix}

-- A PDU that has been received and stored.
pub record StoredPdu : Type 0 where
  pub header : Header
  pub payload : List ℕ

-- A prefix PDU whose type is not IPv4 is an IPv6 one.
unfoldable pub rtr_prefix_pdu_2_pfx_record : ℕ → StoredPdu → PfxRecord
rtr_prefix_pdu_2_pfx_record id pdu =
    if pdu.header.pdu_type == ipv4_prefix
    then record {
      asn = be32_at pdu.payload 8;
      prefix = v4 (be32_at pdu.payload 4);
      min_len = byte_at pdu.payload 1;
      max_len = byte_at pdu.payload 2;
      socket = id;
    }
    else record {
      asn = be32_at pdu.payload 20;
      prefix =
          v6 (be32_at pdu.payload 4) (be32_at pdu.payload 8) (be32_at pdu.payload 12)
            (be32_at pdu.payload 16);
      min_len = byte_at pdu.payload 1;
      max_len = byte_at pdu.payload 2;
      socket = id;
    }

-- A prefix PDU by its flags and its record.
pub record Change : Type 0 where
  pub announce : Bool
  pub rec : PfxRecord

-- `none` where the flags are invalid.
unfoldable pub change_of : ℕ → StoredPdu → Option Change
unfolding rtr_prefix_pdu_2_pfx_record
change_of id pdu =
    if byte_at pdu.payload 0 == 1
    then some (record { announce = true; rec = rtr_prefix_pdu_2_pfx_record id pdu })
    else if byte_at pdu.payload 0 == 0
    then some (record { announce = false; rec = rtr_prefix_pdu_2_pfx_record id pdu })
    else none

unfoldable pub apply_change : (ℕ → Bool) → PfxTable → Change → Outcome
apply_change mem t c =
    if c.announce then rtr_pfx_table_add mem t c.rec else rtr_pfx_table_remove mem t c.rec

unfoldable pub undo_change : (ℕ → Bool) → PfxTable → Change → Outcome
undo_change mem t c =
    if c.announce then rtr_pfx_table_remove mem t c.rec else rtr_pfx_table_add mem t c.rec

-- Whether RTR_SUCCESS is returned, the socket, the table, what the clients are told, and the codes of the
-- error PDUs that are sent.
pub record Updated : Type 0 where
  pub done : Bool
  pub socket : RtrSocket
  pub table : PfxTable
  pub notified : List (PfxOperation × PfxRecord)
  pub sent : List ℕ

-- An internal error is reported with no erroneous PDU, which rtr_send_error_pdu_from_host does not send.
abbrev pub report_update : PfxRtval → List ℕ
report_update success = []
report_update duplicate_record = 7 ∷ []
report_update record_not_found = 6 ∷ []
report_update error = []
report_update not_initialized = []

abbrev pub is_success : PfxRtval → Bool
is_success success = true
is_success not_initialized = true
is_success v = false

unfoldable pub rtr_update_pfx_table : (ℕ → Bool) → ℕ → RtrSocket → PfxTable → StoredPdu → Updated
unfolding change_of apply_change
rtr_update_pfx_table mem id s t pdu = elim (change_of id pdu) [
  | none ↦ record { done = false; socket = s; table = t; notified = []; sent = 0 ∷ [] }
  | some c ↦
      let o = apply_change mem t c in
      record {
        done = is_success o.rtval;
        socket = if is_success o.rtval then s else rtr_change_socket_state s error_fatal;
        table = o.table;
        notified = o.notified;
        sent = report_update o.rtval;
      }
]

-- Whether the batch returns RTR_SUCCESS, and the table.
pub record Undone : Type 0 where
  pub done : Bool
  pub table : PfxTable

abbrev pub is_error : PfxRtval → Bool
is_error error = true
is_error v = false

abbrev pub table_of : PfxTable → Option SrcRemoved → PfxTable
table_of t none = t
table_of t (some o) = o.table

-- Where a record cannot be undone all records of the socket are removed.
abbrev pub purge_all : (ℕ → Bool) → ℕ → PfxTable → Undone
purge_all mem id t = record { done = false; table = table_of t (rtr_pfx_table_src_remove mem t id) }

-- The PDUs are undone in the order in which they were put in. One with invalid flags cannot be undone either.
unfoldable pub rtr_undo_update_pfx_table_batch :
    (ℕ → ℕ → Bool) → ℕ → ℕ → PfxTable → List StoredPdu → Undone
rtr_undo_update_pfx_table_batch mem j id t [] = record { done = true; table = t }
rtr_undo_update_pfx_table_batch mem j id t (pdu ∷ pdus) = elim (change_of id pdu) [
  | none ↦ purge_all (mem j) id t
  | some c ↦ elim (is_error (undo_change (mem j) t c).rtval) [
    | true ↦ purge_all (mem (suc j)) id (undo_change (mem j) t c).table
    | false ↦ rtr_undo_update_pfx_table_batch mem (suc j) id (undo_change (mem j) t c).table pdus
  ]
]

-- What the loops over the prefix PDUs leave: whether to proceed, and whether undoing failed.
pub record PrefixesUpdated : Type 0 where
  pub proceed : Bool
  pub undo_failed : Bool
  pub socket : RtrSocket
  pub table : PfxTable
  pub sent : List ℕ

-- `before` are the PDUs that have been put in. The IPv6 PDUs follow the IPv4 ones, and an error at any of
-- them undoes all before it, in that order.
unfoldable pub update_prefixes :
    (ℕ → ℕ → Bool)
    → ℕ
    → ℕ
    → RtrSocket
    → PfxTable
    → List StoredPdu
    → List StoredPdu
    → PrefixesUpdated
update_prefixes mem j id s t before [] = record {
  proceed = true;
  undo_failed = false;
  socket = s;
  table = t;
  sent = [];
}
update_prefixes mem j id s t before (pdu ∷ pdus) =
    let o = rtr_update_pfx_table (mem j) id s t pdu in
    elim o.done [
      | true ↦ update_prefixes mem (suc j) id o.socket o.table (before ++ pdu ∷ []) pdus
      | false ↦
          let u = rtr_undo_update_pfx_table_batch mem (suc j) id o.table before in
          record {
            proceed = false;
            undo_failed = if u.done then false else true;
            socket = o.socket;
            table = u.table;
            sent = o.sent;
          }
    ]
