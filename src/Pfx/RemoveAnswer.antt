-- ===== src/Pfx/RemoveAnswer.antt =====
-- rtr_pfx_table_remove of pfx/trie/trie-pfx.c where its reallocation succeeds: which of its values it returns.
use rtrlib.Trie.Defs.{Position}
use rtrlib.Pfx.Members.{Removes, Records}
use rtrlib.Pfx.Table.{PfxTrie, rtr_pfx_table_remove}
use rtrlib.Pfx.Data.{PfxRecord, PfxRtval}
use rtrlib.Ip.{IpVersion}
use Prim.Native.Nat.{ℕ}
use rtrlib.Prelude.{
  ℕ, ◌≡◌, ◌⊎◌, inl, inr, refl, subst, ap, ◌∙◌, Bool, true, Option, none, some, [], ◌∷◌, arith,
  length,
}
use rtrlib.Ip.{IpVersion, ver}
use rtrlib.Trie.Defs.{Entry, null, node, Position, trie_lookup_exact}
use rtrlib.Trie.Exact.{IsForNode, FoundIn, prefix_is_same_iff}
use rtrlib.Trie.Find.{trie_lookup_exact_lem}
use rtrlib.Pfx.Data.{
  NodeData, DataElem, PfxRecord, PfxRtval, success, error, record_not_found, duplicate_record,
  not_initialized, pfx_table_find_elem, pfx_table_del_elem, drop_elem,
}
use rtrlib.Pfx.Table.{
  PfxTrie, PfxTable, TreeOutcome, shrink_node, after_del, remove_from_root, rtr_pfx_table_remove,
  data_of, pfx_table_get_root,
}
use rtrlib.Pfx.Records.{IsPfxTree, IsTable, InTable, IsPfxTree-of}
use rtrlib.Pfx.Place.{IsTrie-with_data}
use rtrlib.Pfx.Members.{Records, Removes, held, rtr_pfx_table_remove-Removes}
use rtrlib.Trie.Remove.{remove_matched_lem}
use rtrlib.Trie.Plug.{IsTrie-of_plug}
use rtrlib.Pfx.Remove.{
  del_elem_last, del_elem_ok, shrink_node_removed, remove_missing, remove_not_in_node,
  remove_in_node, here, for,
}

module _ (v : IpVersion) (r : PfxRecord) (root : PfxTrie) (pos : Position NodeData)
    (x : Entry NodeData) (l rr : PfxTrie) (w : IsPfxTree v root)
    (found : FoundIn r.prefix r.min_len root pos) (e : pos.focus ≡ node x l rr) where
  last_success : (shrink_node root pos r []).rtval ≡ success
  last_success =
      let t =
        IsTrie-of_plug v pos.path (node (record x { payload = [] }) l rr)
          (IsTrie-with_data pos.path l rr v x (here v r root pos x l rr w found e).trie []) in
      let (y, q, f) =
        remove_matched_lem v (length pos.path) (node (record x { payload = [] }) l rr) [] t refl in
      ap (λ (o : TreeOutcome). o.rtval)
        (shrink_node_removed root pos r x l rr y e
          ((prefix_is_same_iff x r.prefix r.min_len).1 (for v r root pos x l rr w found e)) q)

  more_success : (d : DataElem) (ds : NodeData) → (shrink_node root pos r (d ∷ ds)).rtval ≡ success
  unfolding shrink_node
  more_success d ds = refl

  del_success :
      (i : ℕ) (ds : NodeData)
      → drop_elem x.payload i ≡ ds
      → (after_del root pos r (pfx_table_del_elem true x.payload i)).rtval ≡ success
  del_success i [] z =
      ap (λ p. (after_del root pos r p).rtval) (del_elem_last true x.payload i z) ∙ last_success
  del_success i (d ∷ ds) z =
      ap (λ p. (after_del root pos r p).rtval) (del_elem_ok x.payload i d ds z) ∙ more_success d ds

-- Either SUCCESS or RECORD_NOT_FOUND.
abbrev IsAnswer : PfxRtval → Type 0
IsAnswer a = (a ≡ success) ⊎ (a ≡ record_not_found)

found-IsAnswer :
    (v : IpVersion) (r : PfxRecord) (mem : ℕ → Bool) (root : PfxTrie)
    → IsPfxTree v root
    → mem 0 ≡ true
    → let pos = trie_lookup_exact root r.prefix r.min_len 0 [] in
      pos.found ≡ true
      → FoundIn r.prefix r.min_len root pos
      → (t : PfxTrie) → pos.focus ≡ t
      → (o : Option ℕ) → pfx_table_find_elem (data_of t) r ≡ o
      → IsAnswer (remove_from_root mem root r).rtval
found-IsAnswer v r mem root w m f found null e o q =
    absurd (subst (IsForNode r.prefix r.min_len) e found.node_for)
found-IsAnswer v r mem root w m f found (node x l rr) e none q = inr (
    ap (λ (o : TreeOutcome). o.rtval)
      (remove_not_in_node mem root r f (ap (λ z. pfx_table_find_elem (data_of z) r) e ∙ q)))
found-IsAnswer v r mem root w m f found (node x l rr) e (some i) q =
    let pos = trie_lookup_exact root r.prefix r.min_len 0 [] in
    inl (
      ap (λ (o : TreeOutcome). o.rtval)
        (remove_in_node mem root r i f (ap (λ z. pfx_table_find_elem (data_of z) r) e ∙ q)
          ∙ ap (λ z. after_del root pos r (pfx_table_del_elem (mem 0) (data_of z) i)) e
          ∙ ap (λ b. after_del root pos r (pfx_table_del_elem b x.payload i)) m)
      ∙ del_success v r root pos x l rr w found e i (drop_elem x.payload i) refl)

root-IsAnswer :
    (v : IpVersion) (mem : ℕ → Bool) (root : PfxTrie) (r : PfxRecord)
    → IsPfxTree v root
    → mem 0 ≡ true
    → IsAnswer (remove_from_root mem root r).rtval
root-IsAnswer v mem root r w m =
    let pos = trie_lookup_exact root r.prefix r.min_len 0 [] in
    elim (trie_lookup_exact_lem v root r.prefix r.min_len w.trie) [
      | inl (f, found) ↦
          found-IsAnswer v r mem root w m f found pos.focus refl
            (pfx_table_find_elem (data_of pos.focus) r) refl
      | inr (f, miss) ↦ inr (ap (λ (o : TreeOutcome). o.rtval) (remove_missing mem root r f))
    ]

answer :
    (mem : ℕ → Bool) (t : PfxTable) (r : PfxRecord)
    → IsTable t
    → mem 0 ≡ true
    → IsAnswer (rtr_pfx_table_remove mem t r).rtval
unfolding rtr_pfx_table_remove
answer mem t r w m =
    root-IsAnswer (ver r.prefix) mem (pfx_table_get_root t (ver r.prefix)) r
      (IsPfxTree-of t (ver r.prefix) w) m

old_of : (P Q : Records) (r : PfxRecord) (a : PfxRtval) → Removes r a P Q → a ≡ success → P r
old_of P Q r success h e = h.0
old_of P Q r record_not_found h e = ground arith
old_of P Q r error h e = ground arith
old_of P Q r duplicate_record h e = absurd h
old_of P Q r not_initialized h e = absurd h

new_of :
    (P Q : Records) (r : PfxRecord) (a : PfxRtval) → Removes r a P Q → a ≡ record_not_found → ¬ P r
new_of P Q r record_not_found h e = h.0
new_of P Q r success h e = ground arith
new_of P Q r error h e = ground arith
new_of P Q r duplicate_record h e = absurd h
new_of P Q r not_initialized h e = absurd h

-- Where its reallocation succeeds rtr_pfx_table_remove does not answer ERROR: on a well formed table it
-- answers SUCCESS if the table holds the record, and else RECORD_NOT_FOUND.
pub rtr_pfx_table_remove_answer :
    (mem : ℕ → Bool) (t : PfxTable) (r : PfxRecord)
    → IsTable t
    → mem 0 ≡ true
    → let o = rtr_pfx_table_remove mem t r in
      (o.rtval ≡ success) × InTable r t ⊎ (o.rtval ≡ record_not_found) × (¬ InTable r t)
rtr_pfx_table_remove_answer mem t r w m =
    let o = rtr_pfx_table_remove mem t r in
    let h = rtr_pfx_table_remove-Removes mem t r w in
    elim (answer mem t r w m) [
      | inl s ↦ inl (s, old_of (held t) (held o.table) r o.rtval h s)
      | inr n ↦ inr (n, new_of (held t) (held o.table) r o.rtval h n)
    ]
