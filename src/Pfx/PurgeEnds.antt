-- ===== src/Pfx/PurgeEnds.antt =====
-- The fuel of pfx_table_remove_id, of pfx/trie/trie-pfx.c, is enough.
use mathlib.Core.Option
use rtrlib.Prelude.{
  ℕ, zero, suc, ◌+◌, ◌≡◌, ◌≢◌, ◌<◌, ◌⊎◌, inl, inr, refl, sym, subst, Bool, Bool-cases, ltb, Option,
  none, some, List, [], arith,
}
use rtrlib.Trie.Defs.{
  Entry, null, node, Removed, lift, remove_matched, trie_remove, replace_node_data,
}
use rtrlib.Trie.Exact.{prefix_is_same_iff}
use rtrlib.Trie.RemoveSpec.{trie_remove_here}
use rtrlib.Pfx.Data.{PfxRecord, NodeData}
use rtrlib.Pfx.Table.{PfxTrie, PfxTable}
use rtrlib.Pfx.Purge.{
  Purged, sweep, is_empty, records_of, with_left, size, second_tree, pfx_table_remove_id,
  rtr_pfx_table_src_remove,
}

-- Removing a node takes one away from the size.
abbrev SizeIs : ℕ → Option (Removed NodeData) → Type 0
SizeIs n none = Unit {0}
SizeIs n (some x) = suc (size x.rest) ≡ n

map_left :
    (e : Entry NodeData) (l r : PfxTrie) (o : Option (Removed NodeData))
    → SizeIs (size l) o
    → SizeIs
        (suc (size l + size r))
        (Option.map (λ (x : Removed NodeData). record { gone = x.gone; rest = node e x.rest r }) o)
map_left e l r none h = tt
map_left e l r (some x) h = omega (arith, h)

map_right :
    (e : Entry NodeData) (l r : PfxTrie) (o : Option (Removed NodeData))
    → SizeIs (size r) o
    → SizeIs
        (suc (size l + size r))
        (Option.map (λ (x : Removed NodeData). record { gone = x.gone; rest = node e l x.rest }) o)
map_right e l r none h = tt
map_right e l r (some x) h = omega (arith, h)

size-remove_matched : (t : PfxTrie) (d : NodeData) → SizeIs (size t) (remove_matched t d)
unfolding remove_matched
size-remove_matched null d = tt
size-remove_matched (node e null null) d = refl
size-remove_matched (node e (node a al ar) null) d =
    map_left (replace_node_data e (node a al ar)) (node a al ar) null
      (remove_matched (node a al ar) d) (size-remove_matched (node a al ar) d)
size-remove_matched (node e null (node b bl br)) d =
    map_right (replace_node_data e (node b bl br)) null (node b bl br)
      (remove_matched (node b bl br) d) (size-remove_matched (node b bl br) d)
size-remove_matched (node e (node a al ar) (node b bl br)) d = elim (Bool-cases (ltb a.len b.len)) [
  | inl h ↦
      rw (remove_matched, lift, h)
        (map_left (replace_node_data e (node a al ar)) (node a al ar) (node b bl br)
          (remove_matched (node a al ar) d) (size-remove_matched (node a al ar) d))
  | inr h ↦
      rw (remove_matched, lift, h)
        (map_right (replace_node_data e (node b bl br)) (node a al ar) (node b bl br)
          (remove_matched (node b bl br) d) (size-remove_matched (node b bl br) d))
]

size-trie_remove :
    (e : Entry NodeData) (l r : PfxTrie) (lvl : ℕ)
    → SizeIs (suc (size l + size r)) (trie_remove (node e l r) e.prefix e.len lvl)
size-trie_remove e l r lvl =
    subst (SizeIs (suc (size l + size r)))
      (sym (
        trie_remove_here e l r e.prefix e.len lvl
          ((prefix_is_same_iff e e.prefix e.len).1 (refl, refl))))
      (size-remove_matched (node e l r) e.payload)

abbrev HasEnded : Option Purged → Type 0
HasEnded none = ⊥
HasEnded (some p) = Unit {0}

ended_cases : (o : Option Purged) → HasEnded o → (p : Purged) × (o ≡ some p)
ended_cases none h = absurd h
ended_cases (some p) h = (p, refl)

with_left-HasEnded :
    (e : Entry NodeData) (r : PfxTrie) (gone : List PfxRecord) (left : Purged)
    (right : Option Purged)
    → HasEnded right
    → HasEnded (with_left e r gone left right)
with_left-HasEnded e r gone left none h = absurd h
with_left-HasEnded e r gone left (some p) h = elim (Bool-cases left.done) [
  | inl d ↦ rw (with_left, d) tt
  | inr d ↦ rw (with_left, d) tt
]

removed_cases :
    (o : Option (Removed NodeData)) → (o ≡ none) ⊎ ((x : Removed NodeData) × (o ≡ some x))
removed_cases none = inl refl
removed_cases (some x) = inr (x, refl)

pfx_table_remove_id-HasEnded :
    (fuel : ℕ) (mem : ℕ → Bool) (socket k : ℕ) (t : PfxTrie) (lvl : ℕ)
    → size t < fuel
    → HasEnded (pfx_table_remove_id fuel mem socket k t lvl)
unfolding pfx_table_remove_id
pfx_table_remove_id-HasEnded zero mem socket k t lvl h = omega (arith, h)
pfx_table_remove_id-HasEnded (suc fuel) mem socket k null lvl h = tt
pfx_table_remove_id-HasEnded (suc fuel) mem socket k (node e l r) lvl h =
    let s = sweep mem socket k [] e.payload in
    let e' = record e { payload = s.elems } in
    elim (Bool-cases s.done) [
      | inr d ↦ rw (pfx_table_remove_id, d) tt
      | inl d ↦ elim (Bool-cases (is_empty s.elems)) [
        | inl z ↦ elim (removed_cases (trie_remove (node e' l r) e.prefix e.len lvl)) [
          | inl q ↦ rw (pfx_table_remove_id, d, z, q) tt
          | inr (x, q) ↦
              let less : suc (size x.rest) ≡ suc (size l + size r) =
                subst (SizeIs (suc (size l + size r))) q (size-trie_remove e' l r lvl) in
              let (p, f) = ended_cases (pfx_table_remove_id fuel mem socket s.used x.rest lvl) (
                pfx_table_remove_id-HasEnded fuel mem socket s.used x.rest lvl
                  (omega (arith, less, h))) in
              rw (pfx_table_remove_id, d, z, q, f) tt
        ]
        | inr z ↦
            let (left, f) = ended_cases (pfx_table_remove_id fuel mem socket s.used l (suc lvl)) (
              pfx_table_remove_id-HasEnded fuel mem socket s.used l (suc lvl) (omega (arith, h))) in
            rw (pfx_table_remove_id, d, z, f)
              (with_left-HasEnded e' r (records_of e s.gone) left
                (pfx_table_remove_id fuel mem socket left.used r (suc lvl))
                (pfx_table_remove_id-HasEnded fuel mem socket left.used r (suc lvl)
                  (omega (arith, h))))
      ]
    ]

second_tree-some :
    (t : PfxTable) (p : Purged) (o : Option Purged) → HasEnded o → second_tree t p o ≢ none
second_tree-some t p none h = absurd h
second_tree-some t p (some q) h = λ e. ground arith

-- rtr_pfx_table_src_remove comes to an end on every table, whatever the shape of its trees and whichever
-- allocations succeed: the fuel, one more than the number of a tree's nodes, is enough for its recursion.
pub rtr_pfx_table_src_remove_ends :
    (mem : ℕ → Bool) (t : PfxTable) (socket : ℕ) → rtr_pfx_table_src_remove mem t socket ≢ none
unfolding rtr_pfx_table_src_remove
rtr_pfx_table_src_remove_ends mem t socket =
    let (p4, f) =
      ended_cases (pfx_table_remove_id (suc (size t.ipv4_root)) mem socket 0 t.ipv4_root 0) (
        pfx_table_remove_id-HasEnded (suc (size t.ipv4_root)) mem socket 0 t.ipv4_root 0
          (omega arith)) in
    elim (Bool-cases p4.done) [
      | inl d ↦
          rw (rtr_pfx_table_src_remove, f, d)
            (second_tree-some t p4
              (pfx_table_remove_id (suc (size t.ipv6_root)) mem socket p4.used t.ipv6_root 0)
              (pfx_table_remove_id-HasEnded (suc (size t.ipv6_root)) mem socket p4.used t.ipv6_root
                0 (omega arith)))
      | inr d ↦ rw (rtr_pfx_table_src_remove, f, d) (λ e. ground arith)
    ]
