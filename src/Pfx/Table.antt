-- ===== src/Pfx/Table.antt =====
-- The table, rtr_pfx_table_add and rtr_pfx_table_remove of pfx/trie/trie-pfx.c. A call gives its return
-- value, the table, and the calls of the update callback in their order.
use rtrlib.Prelude.{ℕ, Bool, if◌then◌else◌, none, some, List, [], ◌∷◌}
use rtrlib.Ip.{IpVersion, ipv4, ipv6, ver}
use rtrlib.Trie.Defs.{Trie, null, node, Position, plug, trie_insert, trie_lookup_exact, trie_remove}
use rtrlib.Pfx.Data.{
  NodeData, PfxRecord, PfxRtval, success, error, duplicate_record, record_not_found,
  pfx_table_append_elem, pfx_table_create_node, pfx_table_find_elem, pfx_table_del_elem,
}

abbrev pub PfxTrie : Type 0
PfxTrie = Trie NodeData

-- `update_fp` says whether a callback is installed.
pub record PfxTable : Type 0 where
  pub ipv4_root : PfxTrie
  pub ipv6_root : PfxTrie
  pub update_fp : Bool

pub data PfxOperation : Type 0 where
  removed added : PfxOperation

pub record Outcome : Type 0 where
  pub rtval : PfxRtval
  pub table : PfxTable
  pub notified : List (PfxOperation × PfxRecord)

abbrev pub rtr_pfx_table_init : Bool → PfxTable
rtr_pfx_table_init update_fp = record { ipv4_root = null; ipv6_root = null; update_fp = update_fp }

abbrev pub pfx_table_get_root : PfxTable → IpVersion → PfxTrie
pfx_table_get_root t ipv4 = t.ipv4_root
pfx_table_get_root t ipv6 = t.ipv6_root

abbrev pub set_root : PfxTable → IpVersion → PfxTrie → PfxTable
set_root t ipv4 root = record t { ipv4_root = root }
set_root t ipv6 root = record t { ipv6_root = root }

abbrev pub pfx_table_notify_clients :
    PfxTable → PfxOperation → PfxRecord → List (PfxOperation × PfxRecord)
pfx_table_notify_clients t op r = if t.update_fp then (op, r) ∷ [] else []

-- `node->data`, and the node with other data.
abbrev pub data_of : PfxTrie → NodeData
data_of null = []
data_of (node e l r) = e.payload

abbrev pub with_data : PfxTrie → NodeData → PfxTrie
with_data null d = null
with_data (node e l r) d = node (record e { payload = d }) l r

-- What a call does to the tree of the record's version.
pub record TreeOutcome : Type 0 where
  pub rtval : PfxRtval
  pub root : PfxTrie

abbrev pub unchanged : PfxRtval → PfxTrie → TreeOutcome
unchanged v root = record { rtval = v; root = root }

-- The branch of rtr_pfx_table_add where the node exists.
unfoldable pub append_to : (ℕ → Bool) → PfxTrie → Position NodeData → PfxRecord → TreeOutcome
unfolding pfx_table_find_elem pfx_table_append_elem plug
append_to mem root pos r = elim (pfx_table_find_elem (data_of pos.focus) r) [
  | some i ↦ unchanged duplicate_record root
  | none ↦ elim (pfx_table_append_elem (mem 0) (data_of pos.focus) r) [
    | none ↦ unchanged error root
    | some d ↦ record { rtval = success; root = plug pos.path (with_data pos.focus d) }
  ]
]

-- The branch where it does not.
unfoldable pub insert_new : (ℕ → Bool) → PfxTrie → Position NodeData → PfxRecord → TreeOutcome
unfolding pfx_table_create_node plug trie_insert
insert_new mem root pos r = elim (pfx_table_create_node mem r) [
  | none ↦ unchanged error root
  | some new ↦ record { rtval = success; root = plug pos.path (trie_insert pos.focus new pos.lvl) }
]

-- In the empty tree the new node is the root.
unfoldable pub add_to_root : (ℕ → Bool) → PfxTrie → PfxRecord → TreeOutcome
unfolding append_to insert_new trie_lookup_exact
add_to_root mem null r = elim (pfx_table_create_node mem r) [
  | none ↦ unchanged error null
  | some new ↦ record { rtval = success; root = node new null null }
]
add_to_root mem (node e l rr) r =
    let pos = trie_lookup_exact (node e l rr) r.prefix r.min_len 0 [] in
    if pos.found then append_to mem (node e l rr) pos r else insert_new mem (node e l rr) pos r

abbrev pub notify_on_success : PfxTable → PfxOperation → PfxRecord → TreeOutcome → Outcome
notify_on_success t op r o = record {
  rtval = o.rtval;
  table = set_root t (ver r.prefix) o.root;
  notified = elim o.rtval [ success ↦ pfx_table_notify_clients t op r | _ ↦ [] ];
}

-- The table and the record are not NULL.
unfoldable pub rtr_pfx_table_add : (ℕ → Bool) → PfxTable → PfxRecord → Outcome
unfolding add_to_root
rtr_pfx_table_add mem t r =
    notify_on_success t added r (add_to_root mem (pfx_table_get_root t (ver r.prefix)) r)

-- The node is taken out of the tree when its last record is gone.
unfoldable pub shrink_node : PfxTrie → Position NodeData → PfxRecord → NodeData → TreeOutcome
unfolding plug
shrink_node root pos r [] = elim (trie_remove (with_data pos.focus []) r.prefix r.min_len pos.lvl) [
  | none ↦ unchanged error root
  | some x ↦ record { rtval = success; root = plug pos.path x.rest }
]
shrink_node root pos r (d ∷ ds) = record {
  rtval = success;
  root = plug pos.path (with_data pos.focus (d ∷ ds));
}

abbrev pub after_del : PfxTrie → Position NodeData → PfxRecord → PfxRtval × NodeData → TreeOutcome
after_del root pos r (success, d) = shrink_node root pos r d
after_del root pos r (v, d) = record { rtval = v; root = plug pos.path (with_data pos.focus d) }

unfoldable pub remove_from_root : (ℕ → Bool) → PfxTrie → PfxRecord → TreeOutcome
unfolding shrink_node trie_remove pfx_table_find_elem pfx_table_del_elem trie_lookup_exact
remove_from_root mem root r =
    let pos = trie_lookup_exact root r.prefix r.min_len 0 [] in
    if pos.found
    then elim (pfx_table_find_elem (data_of pos.focus) r) [
      | none ↦ unchanged record_not_found root
      | some i ↦ after_del root pos r (pfx_table_del_elem (mem 0) (data_of pos.focus) i)
    ]
    else unchanged record_not_found root

unfoldable pub rtr_pfx_table_remove : (ℕ → Bool) → PfxTable → PfxRecord → Outcome
unfolding remove_from_root
rtr_pfx_table_remove mem t r =
    notify_on_success t removed r (remove_from_root mem (pfx_table_get_root t (ver r.prefix)) r)
