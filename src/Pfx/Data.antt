-- ===== src/Pfx/Data.antt =====
-- The records of one node of the table: data_elem and node_data of pfx/trie/trie-pfx.c. A node_data is the
-- list of its elements, and the pointer to an rtr_socket is a number. `mem i` says whether the i-th
-- allocation of a call of the table succeeds.
use rtrlib.Prelude.{
  ◌||◌, leb, not, ℕ, zero, suc, Bool, false, ◌&&◌, ◌==◌, if◌then◌else◌, Option, none, some, List,
  [], ◌∷◌, ◌++◌,
}
use mathlib.Core.Option
use rtrlib.Ip.{IpAddr}
use rtrlib.Trie.Defs.{Entry}

pub record DataElem : Type 0 where
  pub asn : ℕ
  pub max_len : ℕ
  pub socket : ℕ

abbrev pub NodeData : Type 0
NodeData = List DataElem

pub record PfxRecord : Type 0 where
  pub asn : ℕ
  pub prefix : IpAddr
  pub min_len : ℕ
  pub max_len : ℕ
  pub socket : ℕ

pub data PfxRtval : Type 0 where
  success error duplicate_record record_not_found not_initialized : PfxRtval

-- What a node keeps of a record, and the record that a node stands for.
abbrev pub elem_of : PfxRecord → DataElem
elem_of r = record { asn = r.asn; max_len = r.max_len; socket = r.socket }

abbrev pub record_of : Entry NodeData → DataElem → PfxRecord
record_of e d = record {
  asn = d.asn;
  prefix = e.prefix;
  min_len = e.len;
  max_len = d.max_len;
  socket = d.socket;
}

-- `none` is RTR_PFX_ERROR.
unfoldable pub pfx_table_append_elem : Bool → NodeData → PfxRecord → Option NodeData
pfx_table_append_elem ok data' r = if ok then some (data' ++ elem_of r ∷ []) else none

-- The node, its data and the array are allocated in turn.
unfoldable pub pfx_table_create_node : (ℕ → Bool) → PfxRecord → Option (Entry NodeData)
unfolding pfx_table_append_elem
pfx_table_create_node mem r =
    if mem 0
    then (if mem 1
        then Option.map
            (λ (d : NodeData). record { prefix = r.prefix; len = r.min_len; payload = d })
            (pfx_table_append_elem (mem 2) [] r)
        else none)
    else none

abbrev pub is_elem : PfxRecord → DataElem → Bool
is_elem r d = d.asn == r.asn && d.max_len == r.max_len && d.socket == r.socket

-- The index of the element, where there is one.
unfoldable pub pfx_table_find_elem : NodeData → PfxRecord → Option ℕ
pfx_table_find_elem [] r = none
pfx_table_find_elem (d ∷ ds) r =
    if is_elem r d then some 0 else Option.map suc (pfx_table_find_elem ds r)

-- The array with the elements behind `index` moved one place forward, and `data->len` one less.
abbrev pub drop_elem : NodeData → ℕ → NodeData
drop_elem [] index = []
drop_elem (d ∷ ds) zero = ds
drop_elem (d ∷ ds) (suc index) = d ∷ drop_elem ds index

-- The element at `index`, as a list.
abbrev pub deleted_elem : NodeData → ℕ → NodeData
deleted_elem [] index = []
deleted_elem (d ∷ ds) zero = d ∷ []
deleted_elem (d ∷ ds) (suc index) = deleted_elem ds index

-- Where the array cannot be made smaller the element is put back, at the end.
unfoldable pub pfx_table_del_elem : Bool → NodeData → ℕ → PfxRtval × NodeData
pfx_table_del_elem ok data' index = elim (drop_elem data' index) [
  | [] ↦ (success, [])
  | d ∷ ds ↦ if ok then (success, d ∷ ds) else (error, (d ∷ ds) ++ deleted_elem data' index)
]

unfoldable pub pfx_table_elem_matches : NodeData → ℕ → ℕ → Bool
pfx_table_elem_matches [] asn prefix_len = false
pfx_table_elem_matches (d ∷ ds) asn prefix_len =
    not (d.asn == 0) && d.asn == asn && leb prefix_len d.max_len
    || pfx_table_elem_matches ds asn prefix_len

-- The records that are written, which are `data->len`.
unfoldable pub pfx_table_node2pfx_record : Entry NodeData → NodeData → List PfxRecord
pfx_table_node2pfx_record e [] = []
pfx_table_node2pfx_record e (d ∷ ds) = record_of e d ∷ pfx_table_node2pfx_record e ds
