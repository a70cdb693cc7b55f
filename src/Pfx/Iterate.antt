-- ===== src/Pfx/Iterate.antt =====
-- pfx_table_for_each_rec of pfx/trie/trie-pfx.c, with the functions that call it and pfx_table_swap. What is
-- given are the records with which the callback is called, in their order.
use rtrlib.Prelude.{◌↔◌, ◌⊎◌, inl, inr, refl, subst, List, [], ◌∷◌, ◌++◌, Elem, arith}
use rtrlib.Trie.Defs.{Entry, null, node}
use rtrlib.Trie.Exact.{IsFor}
use rtrlib.Pfx.Data.{NodeData, PfxRecord, elem_of, pfx_table_node2pfx_record}
use rtrlib.Pfx.Table.{PfxTable, PfxTrie}
use rtrlib.Pfx.Records.{InTree}

unfoldable pub pfx_table_for_each_rec : PfxTrie → List PfxRecord
unfolding pfx_table_node2pfx_record
pfx_table_for_each_rec null = []
pfx_table_for_each_rec (node e l r) =
    pfx_table_for_each_rec l ++ pfx_table_node2pfx_record e e.payload ++ pfx_table_for_each_rec r

unfoldable pub rtr_pfx_table_for_each_ipv4_record : PfxTable → List PfxRecord
unfolding pfx_table_for_each_rec
rtr_pfx_table_for_each_ipv4_record t = pfx_table_for_each_rec t.ipv4_root

unfoldable pub rtr_pfx_table_for_each_ipv6_record : PfxTable → List PfxRecord
unfolding pfx_table_for_each_rec
rtr_pfx_table_for_each_ipv6_record t = pfx_table_for_each_rec t.ipv6_root

-- The two tables after the call. Each keeps its callback.
abbrev pub pfx_table_swap : PfxTable → PfxTable → PfxTable × PfxTable
pfx_table_swap a b = (
  record a { ipv4_root = b.ipv4_root; ipv6_root = b.ipv6_root },
  record b { ipv4_root = a.ipv4_root; ipv6_root = a.ipv6_root },
)

Elem-of_append : {A : Type 0} (x : A) (xs ys : List A) → Elem x (xs ++ ys) ↔ (Elem x xs ⊎ Elem x ys)
Elem-of_append x [] ys = ground arith
Elem-of_append x (y ∷ xs) ys = ground (arith, Elem-of_append x xs ys)

Holds : PfxRecord → Entry NodeData → NodeData → Type 0
Holds r e ds = IsFor r.prefix r.min_len e × Elem (elem_of r) ds

Elem-node2pfx_record :
    (r : PfxRecord) (e : Entry NodeData) (ds : NodeData)
    → Elem r (pfx_table_node2pfx_record e ds) ↔ Holds r e ds
unfolding pfx_table_node2pfx_record Holds
Elem-node2pfx_record r e [] = ground arith
Elem-node2pfx_record r e (d ∷ ds) = ground (arith, Elem-node2pfx_record r e ds)

InTree-node :
    (r : PfxRecord) (e : Entry NodeData) (l rr : PfxTrie)
    → InTree r (node e l rr) ↔ (InTree r l ⊎ Holds r e e.payload ⊎ InTree r rr)
unfolding Holds
InTree-node r e l rr = (to, from)
  where
    to : InTree r (node e l rr) → InTree r l ⊎ Holds r e e.payload ⊎ InTree r rr
    to h = elim h.entry_in [
      | inl q ↦
          inr (inl (subst (λ (x : Entry NodeData). Holds r x x.payload) q (h.entry_for, h.elem)))
      | inr (inl i) ↦
          inl (record { entry = h.entry; entry_in = i; entry_for = h.entry_for; elem = h.elem })
      | inr (inr i) ↦
          inr
            (inr (record { entry = h.entry; entry_in = i; entry_for = h.entry_for; elem = h.elem }))
    ]

    from : (InTree r l ⊎ Holds r e e.payload ⊎ InTree r rr) → InTree r (node e l rr)
    from (inl h) = record {
      entry = h.entry;
      entry_in = inr (inl h.entry_in);
      entry_for = h.entry_for;
      elem = h.elem;
    }
    from (inr (inl h)) = record { entry = e; entry_in = inl refl; entry_for = h.0; elem = h.1 }
    from (inr (inr h)) = record {
      entry = h.entry;
      entry_in = inr (inr h.entry_in);
      entry_for = h.entry_for;
      elem = h.elem;
    }

abbrev Parts : Type 0 → Type 0 → Type 0 → Type 0
Parts A B C = A ⊎ B ⊎ C

parts : {A B C A' B' C' : Type 0} → (A ↔ A') → (B ↔ B') → (C ↔ C') → Parts A B C ↔ Parts A' B' C'
parts a b c = (
  λ h. elim h [
    | inl x ↦ inl (a.0 x)
    | inr (inl x) ↦ inr (inl (b.0 x))
    | inr (inr x) ↦ inr (inr (c.0 x))
  ],
  λ h. elim h [
    | inl x ↦ inl (a.1 x)
    | inr (inl x) ↦ inr (inl (b.1 x))
    | inr (inr x) ↦ inr (inr (c.1 x))
  ],
)

Elem-three :
    (r : PfxRecord) (xs ys zs : List PfxRecord)
    → Elem r (xs ++ ys ++ zs) ↔ Parts (Elem r xs) (Elem r ys) (Elem r zs)
Elem-three r xs ys zs = ground (arith, Elem-of_append r (xs ++ ys) zs, Elem-of_append r xs ys)

-- pfx_table_for_each_rec calls the callback for a record exactly if the tree holds it, for any tree.
pub Elem-for_each_rec :
    (r : PfxRecord) (t : PfxTrie) → Elem r (pfx_table_for_each_rec t) ↔ InTree r t
unfolding pfx_table_for_each_rec
Elem-for_each_rec r null = ((λ h. absurd h), λ h. h.entry_in)
Elem-for_each_rec r (node e l rr) =
    let three =
      Elem-three r (pfx_table_for_each_rec l) (pfx_table_node2pfx_record e e.payload)
        (pfx_table_for_each_rec rr) in
    let same =
      parts (Elem-for_each_rec r l) (Elem-node2pfx_record r e e.payload) (Elem-for_each_rec r rr) in
    let whole = InTree-node r e l rr in
    (λ h. whole.1 (same.0 (three.0 h)), λ h. three.1 (same.1 (whole.0 h)))
