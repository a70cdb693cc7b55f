-- ===== src/Pfx/Purge.antt =====
-- rtr_pfx_table_src_remove and pfx_table_remove_id of pfx/trie/trie-pfx.c. `mem` says which reallocations
-- succeed, and `k` counts them.
use rtrlib.Prelude.{
  ℕ, zero, suc, ◌+◌, Bool, true, false, ◌==◌, if◌then◌else◌, Option, none, some, List, [], ◌∷◌,
  ◌++◌,
}
use rtrlib.Trie.Defs.{Entry, null, node, trie_remove}
use rtrlib.Pfx.Data.{DataElem, NodeData, PfxRecord, PfxRtval, success, error, record_of}
use rtrlib.Pfx.Table.{PfxTable, PfxTrie}

-- What the loop over the elements of a node leaves: whether it went through, the elements, the records that
-- are gone in their order, and the count of reallocations.
pub record Swept : Type 0 where
  pub done : Bool
  pub elems : NodeData
  pub gone : List DataElem
  pub used : ℕ

abbrev pub is_empty : NodeData → Bool
is_empty [] = true
is_empty (d ∷ ds) = false

abbrev also_gone : DataElem → Swept → Swept
also_gone d s = record s { gone = d ∷ s.gone }

-- `before` are the elements in front of index `i`. pfx_table_del_elem moves the others forward, and where
-- the array cannot be made smaller it puts the element back, at the end.
unfoldable pub sweep : (ℕ → Bool) → ℕ → ℕ → NodeData → NodeData → Swept
sweep mem socket k before [] = record { done = true; elems = before; gone = []; used = k }
sweep mem socket k before (d ∷ ds) = elim (d.socket == socket) [
  | false ↦ sweep mem socket k (before ++ d ∷ []) ds
  | true ↦ elim (is_empty (before ++ ds)) [
    | true ↦ record { done = true; elems = []; gone = d ∷ []; used = k }
    | false ↦ elim (mem k) [
      | true ↦ also_gone d (sweep mem socket (suc k) before ds)
      | false ↦ record { done = false; elems = (before ++ ds) ++ d ∷ []; gone = []; used = suc k }
    ]
  ]
]

-- What a call on a subtree leaves: whether it succeeds, the subtree, the records whose removal the clients
-- are told, and the count of reallocations.
pub record Purged : Type 0 where
  pub done : Bool
  pub tree : PfxTrie
  pub gone : List PfxRecord
  pub used : ℕ

abbrev pub records_of : Entry NodeData → List DataElem → List PfxRecord
records_of e [] = []
records_of e (d ∷ ds) = record_of e d ∷ records_of e ds

abbrev pub after : List PfxRecord → Purged → Purged
after gone p = record p { gone = gone ++ p.gone }

-- The left child has been dealt with; the right one comes next.
abbrev pub with_left :
    Entry NodeData → PfxTrie → List PfxRecord → Purged → Option Purged → Option Purged
with_left e r gone left right = elim left.done [
  | false ↦ some (record left { tree = node e left.tree r; gone = gone ++ left.gone })
  | true ↦ elim right [
    | none ↦ none
    | some p ↦
        some (record p { tree = node e left.tree p.tree; gone = (gone ++ left.gone) ++ p.gone })
  ]
]

-- `none` means that the fuel ran out. A call on NULL, which the code does not make, does nothing.
unfoldable pub pfx_table_remove_id : ℕ → (ℕ → Bool) → ℕ → ℕ → PfxTrie → ℕ → Option Purged
unfolding sweep trie_remove
pfx_table_remove_id zero mem socket k t lvl = none
pfx_table_remove_id (suc fuel) mem socket k null lvl =
    some (record { done = true; tree = null; gone = []; used = k })
pfx_table_remove_id (suc fuel) mem socket k (node e l r) lvl =
    let s = sweep mem socket k [] e.payload in
    let e' = record e { payload = s.elems } in
    elim s.done [
      | false ↦
          some
            (record { done = false; tree = node e' l r; gone = records_of e s.gone; used = s.used })
      | true ↦ elim (is_empty s.elems) [
        | true ↦ elim (trie_remove (node e' l r) e.prefix e.len lvl) [
          | none ↦ some (record {
            done = false;
            tree = node e' l r;
            gone = records_of e s.gone;
            used = s.used;
          })
          | some x ↦ elim (pfx_table_remove_id fuel mem socket s.used x.rest lvl) [
            | none ↦ none
            | some p ↦ some (after (records_of e s.gone) p)
          ]
        ]
        | false ↦ elim (pfx_table_remove_id fuel mem socket s.used l (suc lvl)) [
          | none ↦ none
          | some left ↦
              with_left e' r (records_of e s.gone) left
                (pfx_table_remove_id fuel mem socket left.used r (suc lvl))
        ]
      ]
    ]

-- The number of nodes.
abbrev pub size : PfxTrie → ℕ
size null = 0
size (node e l r) = suc (size l + size r)

-- The outcome of the whole call: the return value, the table, and the records whose removal is told.
pub record SrcRemoved : Type 0 where
  pub rtval : PfxRtval
  pub table : PfxTable
  pub gone : List PfxRecord

abbrev pub second_tree : PfxTable → Purged → Option Purged → Option SrcRemoved
second_tree t p4 none = none
second_tree t p4 (some p6) = some (record {
  rtval = if p6.done then success else error;
  table = record t { ipv4_root = p4.tree; ipv6_root = p6.tree };
  gone = p4.gone ++ p6.gone;
})

-- Fuel for one more call than the tree has nodes is enough. The table is not NULL.
unfoldable pub rtr_pfx_table_src_remove : (ℕ → Bool) → PfxTable → ℕ → Option SrcRemoved
unfolding pfx_table_remove_id
rtr_pfx_table_src_remove mem t socket =
    elim (pfx_table_remove_id (suc (size t.ipv4_root)) mem socket 0 t.ipv4_root 0) [
      | none ↦ none
      | some p4 ↦ elim p4.done [
        | false ↦
            some
              (record { rtval = error; table = record t { ipv4_root = p4.tree }; gone = p4.gone })
        | true ↦
            second_tree t p4
              (pfx_table_remove_id (suc (size t.ipv6_root)) mem socket p4.used t.ipv6_root 0)
      ]
    ]
