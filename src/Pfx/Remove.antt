-- ===== src/Pfx/Remove.antt =====
-- rtr_pfx_table_remove: on every branch, which records the table holds afterwards.
use mathlib.Core.Bool.{false≢true}
use rtrlib.Trie.RemoveSpec.{trie_remove_here}
use rtrlib.Pfx.Add.{
  other, callback, callback_lem, get_root-set_root, get_root-set_root_other, IsTable-set_root,
}
use rtrlib.Pfx.Data.{duplicate_record, not_initialized}
use rtrlib.Prelude.{
  ℕ, ◌≡◌, ◌≢◌, ◌↔◌, ◌⊎◌, inl, inr, refl, sym, subst, ap, ◌∙◌, Bool, true, false, Bool-cases, Option,
  none, some, [], ◌∷◌, ◌++◌, Elem, arith, length,
}
use rtrlib.Ip.{IpVersion, ver}
use rtrlib.Trie.Defs.{
  Entry, null, node, Position, Removed, plug, trie_remove, remove_matched, trie_lookup_exact,
  prefix_is_same,
}
use rtrlib.Trie.Invariant.{All-in}
use rtrlib.Trie.Exact.{IsFor, IsForNode, FoundIn, prefix_is_same_iff}
use rtrlib.Trie.Find.{trie_lookup_exact_lem}
use rtrlib.Trie.Remove.{remove_matched_lem}
use rtrlib.Trie.Plug.{IsTrie-of_plug, In-plug}
use rtrlib.Pfx.Data.{
  NodeData, DataElem, PfxRecord, PfxRtval, success, error, record_not_found, elem_of, is_elem,
  pfx_table_find_elem, pfx_table_del_elem, drop_elem, deleted_elem,
}
use rtrlib.Pfx.Table.{
  PfxTrie, PfxTable, TreeOutcome, Outcome, shrink_node, after_del, remove_from_root,
  rtr_pfx_table_remove, with_data, data_of, pfx_table_get_root, removed,
}
use rtrlib.Pfx.Records.{IsData, IsNodup, IsPfxTree, IsTable, InTree, IsPfxTree-of}
use rtrlib.Pfx.Elems.{
  Elem-append, IsNodup-append, pfx_table_find_elem_lem, FindIs, IsNodup-drop_elem, is_elem_iff,
}
use rtrlib.Pfx.Place.{IsTrie-with_data}
use rtrlib.Pfx.RemoveTree.{
  HasRemoved, HasKept, RemoveIs, not_in_tree, removed-Elem, kept_elems, removed_node,
}

-- What pfx_table_del_elem leaves, by the elements that are left.
pub del_elem_last :
    (ok : Bool) (ds : NodeData) (i : ℕ)
    → drop_elem ds i ≡ []
    → pfx_table_del_elem ok ds i ≡ (success, [])
unfolding pfx_table_del_elem
del_elem_last ok ds i h = ground arith

pub del_elem_ok :
    (ds : NodeData) (i : ℕ) (y : DataElem) (ys : NodeData)
    → drop_elem ds i ≡ y ∷ ys
    → pfx_table_del_elem true ds i ≡ (success, y ∷ ys)
unfolding pfx_table_del_elem
del_elem_ok ds i y ys h = ground arith

del_elem_error :
    (ds : NodeData) (i : ℕ) (y : DataElem) (ys : NodeData)
    → drop_elem ds i ≡ y ∷ ys
    → pfx_table_del_elem false ds i ≡ (error, (y ∷ ys) ++ deleted_elem ds i)
unfolding pfx_table_del_elem
del_elem_error ds i y ys h = ground arith

-- An element is another one, or it is not.
elem_cases : (r : PfxRecord) (d : DataElem) → (d ≡ elem_of r) ⊎ (d ≢ elem_of r)
elem_cases r d = elim (Bool-cases (is_elem r d)) [
  | inl y ↦ inl (sym ((is_elem_iff r d).0 y))
  | inr n ↦ inr (λ q. false≢true (sym n ∙ (is_elem_iff r d).1 (sym q)))
]

only-Elem :
    (r : PfxRecord) (ds : NodeData) (i : ℕ)
    → drop_elem ds i ≡ []
    → ((d : DataElem) → Elem d (drop_elem ds i) ↔ (Elem d ds × (d ≢ elem_of r)))
    → (d : DataElem) → Elem d ds
    → d ≡ elem_of r
only-Elem r ds i z f d m = elim (elem_cases r d) [
  | inl q ↦ q
  | inr n ↦ absurd (subst (Elem d) z ((f d).1 (m, n)))
]

pub shrink_node_removed :
    (root : PfxTrie) (pos : Position NodeData) (r : PfxRecord) (x : Entry NodeData) (l rr : PfxTrie)
    (y : Removed NodeData)
    → pos.focus ≡ node x l rr
    → prefix_is_same x r.prefix r.min_len ≡ true
    → remove_matched (node (record x { payload = [] }) l rr) [] ≡ some y
    → shrink_node root pos r [] ≡ record { rtval = success; root = plug pos.path y.rest }
unfolding shrink_node
shrink_node_removed root pos r x l rr y e h q =
    let t : trie_remove (with_data pos.focus []) r.prefix r.min_len pos.lvl ≡ some y =
      ap (λ f. trie_remove (with_data f []) r.prefix r.min_len pos.lvl) e
      ∙ trie_remove_here (record x { payload = [] }) l rr r.prefix r.min_len pos.lvl h
      ∙ q in
    ground arith

-- The statement about a whole outcome.
abbrev Removes : IpVersion → PfxRecord → PfxTrie → TreeOutcome → Type 0
Removes v r root o = RemoveIs v root r o.rtval o.root

module _ (v : IpVersion) (r : PfxRecord) (root : PfxTrie) (pos : Position NodeData)
    (x : Entry NodeData) (l rr : PfxTrie) (w : IsPfxTree v root)
    (found : FoundIn r.prefix r.min_len root pos) (e : pos.focus ≡ node x l rr) where
  whole : plug pos.path (node x l rr) ≡ root
  whole = ap (plug pos.path) (sym e) ∙ found.whole_tree

  pub here : IsPfxTree v (plug pos.path (node x l rr))
  here = subst (IsPfxTree v) (sym whole) w

  pub for : IsFor r.prefix r.min_len x
  for = subst (IsForNode r.prefix r.min_len) e found.node_for

  nodup : IsNodup x.payload
  nodup =
      (All-in IsData _ x here.nodes ((In-plug x pos.path (node x l rr)).1 (inr (inl refl)))).nodup

  -- The last record of the node.
  shrink_last :
      Elem (elem_of r) x.payload
      → ((d : DataElem) → Elem d x.payload → d ≡ elem_of r)
      → Removes v r root (shrink_node root pos r [])
  shrink_last m only =
      let t =
        IsTrie-of_plug v pos.path (node (record x { payload = [] }) l rr)
          (IsTrie-with_data pos.path l rr v x here.trie []) in
      let (y, q, f) =
        remove_matched_lem v (length pos.path) (node (record x { payload = [] }) l rr) [] t refl in
      subst (Removes v r root)
        (sym (
          shrink_node_removed root pos r x l rr y e
            ((prefix_is_same_iff x r.prefix r.min_len).1 for) q))
        (subst (λ z. HasRemoved v z (plug pos.path y.rest) r) whole
          (removed_node v r pos.path x l rr here for y.rest f.well_formed f.entries m only))

  -- Another record of the node stays.
  shrink_more :
      (y : DataElem) (ys : NodeData)
      → IsNodup (y ∷ ys)
      → Elem (elem_of r) x.payload
      → ((d : DataElem) → Elem d (y ∷ ys) ↔ (Elem d x.payload × (d ≢ elem_of r)))
      → Removes v r root (shrink_node root pos r (y ∷ ys))
  unfolding shrink_node
  shrink_more y ys nd m f =
      subst (λ z. HasRemoved v root (plug pos.path (with_data z (y ∷ ys))) r) (sym e)
        (subst (λ z. HasRemoved v z (plug pos.path (node (record x { payload = y ∷ ys }) l rr)) r)
          whole (removed-Elem v r pos.path x l rr here for (y ∷ ys) (λ h. cc) nd m f))

  keep_all :
      (y : DataElem) (ys : NodeData)
      → IsNodup (y ∷ ys)
      → Elem (elem_of r) x.payload
      → ((d : DataElem) → Elem d (y ∷ ys) ↔ (Elem d x.payload × (d ≢ elem_of r)))
      → HasKept v root (plug pos.path (with_data pos.focus ((y ∷ ys) ++ elem_of r ∷ [])))
  keep_all y ys nd m f =
      subst (λ z. HasKept v root (plug pos.path (with_data z ((y ∷ ys) ++ elem_of r ∷ [])))) (sym e)
        (subst
          (λ z.
            HasKept v z
              (plug pos.path (node (record x { payload = (y ∷ ys) ++ elem_of r ∷ [] }) l rr)))
          whole
          (kept_elems v r pos.path x l rr here for ((y ∷ ys) ++ elem_of r ∷ []) (λ h. cc)
            (IsNodup-append (y ∷ ys) (elem_of r) nd (λ i. ((f (elem_of r)).0 i).1 refl)) same))
    where
      same : (d : DataElem) → Elem d ((y ∷ ys) ++ elem_of r ∷ []) ↔ Elem d x.payload
      same d = (to, from)
        where
          to : Elem d ((y ∷ ys) ++ elem_of r ∷ []) → Elem d x.payload
          to i = elim ((Elem-append d (y ∷ ys) (elem_of r ∷ [])).0 i) [
            | inl j ↦ ((f d).0 j).0
            | inr (inl q) ↦ subst (λ z. Elem z x.payload) (sym q) m
            | inr (inr b) ↦ absurd b
          ]

          from : Elem d x.payload → Elem d ((y ∷ ys) ++ elem_of r ∷ [])
          from j = elim (elem_cases r d) [
            | inl q ↦ (Elem-append d (y ∷ ys) (elem_of r ∷ [])).1 (inr (inl q))
            | inr n ↦ (Elem-append d (y ∷ ys) (elem_of r ∷ [])).1 (inl ((f d).1 (j, n)))
          ]

  del_lem :
      (ok : Bool) (i : ℕ) (ds : NodeData)
      → FindIs x.payload r (some i)
      → drop_elem x.payload i ≡ ds
      → Removes v r root (after_del root pos r (pfx_table_del_elem ok x.payload i))
  del_lem ok i [] f z =
      subst (λ p. Removes v r root (after_del root pos r p)) (sym (del_elem_last ok x.payload i z))
        (shrink_last f.0 (only-Elem r x.payload i z (f.2 nodup)))
  del_lem true i (y ∷ ys) f z =
      subst (λ p. Removes v r root (after_del root pos r p)) (sym (del_elem_ok x.payload i y ys z))
        (shrink_more y ys (subst IsNodup z (IsNodup-drop_elem x.payload i nodup)) f.0
          (λ d. subst (λ ps. Elem d ps ↔ (Elem d x.payload × (d ≢ elem_of r))) z (f.2 nodup d)))
  del_lem false i (y ∷ ys) f z =
      subst (λ p. Removes v r root (after_del root pos r p))
        (sym (del_elem_error x.payload i y ys z))
        (subst (λ ps. HasKept v root (plug pos.path (with_data pos.focus ((y ∷ ys) ++ ps))))
          (sym f.1)
          (keep_all y ys (subst IsNodup z (IsNodup-drop_elem x.payload i nodup)) f.0
            (λ d. subst (λ ps. Elem d ps ↔ (Elem d x.payload × (d ≢ elem_of r))) z (f.2 nodup d))))

pub remove_missing :
    (mem : ℕ → Bool) (root : PfxTrie) (r : PfxRecord)
    → (trie_lookup_exact root r.prefix r.min_len 0 []).found ≡ false
    → remove_from_root mem root r ≡ record { rtval = record_not_found; root = root }
unfolding remove_from_root
remove_missing mem root r f = rw f

pub remove_not_in_node :
    (mem : ℕ → Bool) (root : PfxTrie) (r : PfxRecord)
    → let pos = trie_lookup_exact root r.prefix r.min_len 0 [] in
      pos.found ≡ true
      → pfx_table_find_elem (data_of pos.focus) r ≡ none
      → remove_from_root mem root r ≡ record { rtval = record_not_found; root = root }
unfolding remove_from_root
remove_not_in_node mem root r f q = rw f (ground arith)

pub remove_in_node :
    (mem : ℕ → Bool) (root : PfxTrie) (r : PfxRecord) (i : ℕ)
    → let pos = trie_lookup_exact root r.prefix r.min_len 0 [] in
      pos.found ≡ true
      → pfx_table_find_elem (data_of pos.focus) r ≡ some i
      → remove_from_root mem root r
        ≡ after_del root pos r (pfx_table_del_elem (mem 0) (data_of pos.focus) i)
unfolding remove_from_root
remove_in_node mem root r i f q = rw f (ground arith)

remove_found :
    (v : IpVersion) (r : PfxRecord) (mem : ℕ → Bool) (root : PfxTrie)
    → IsPfxTree v root
    → let pos = trie_lookup_exact root r.prefix r.min_len 0 [] in
      pos.found ≡ true
      → FoundIn r.prefix r.min_len root pos
      → (t : PfxTrie) → pos.focus ≡ t
      → (o : Option ℕ) → pfx_table_find_elem (data_of t) r ≡ o
      → FindIs (data_of t) r o
      → Removes v r root (remove_from_root mem root r)
remove_found v r mem root w f found null e o q k =
    absurd (subst (IsForNode r.prefix r.min_len) e found.node_for)
remove_found v r mem root w f found (node x l rr) e none q k =
    let pos = trie_lookup_exact root r.prefix r.min_len 0 [] in
    subst (Removes v r root)
      (sym (remove_not_in_node mem root r f (ap (λ z. pfx_table_find_elem (data_of z) r) e ∙ q)))
      (
        subst (λ z. ¬ InTree r z) (whole v r root pos x l rr w found e)
            (not_in_tree v r pos.path x l rr (here v r root pos x l rr w found e)
              (for v r root pos x l rr w found e) k),
        refl,
      )
remove_found v r mem root w f found (node x l rr) e (some i) q k =
    let pos = trie_lookup_exact root r.prefix r.min_len 0 [] in
    subst (Removes v r root)
      (sym (
        remove_in_node mem root r i f (ap (λ z. pfx_table_find_elem (data_of z) r) e ∙ q)
        ∙ ap (λ z. after_del root pos r (pfx_table_del_elem (mem 0) (data_of z) i)) e))
      (del_lem v r root pos x l rr w found e (mem 0) i (drop_elem x.payload i) k refl)

remove_from_root_lem :
    (v : IpVersion) (mem : ℕ → Bool) (root : PfxTrie) (r : PfxRecord)
    → IsPfxTree v root
    → Removes v r root (remove_from_root mem root r)
remove_from_root_lem v mem root r w =
    let pos = trie_lookup_exact root r.prefix r.min_len 0 [] in
    elim (trie_lookup_exact_lem v root r.prefix r.min_len w.trie) [
      | inl (f, found) ↦
          remove_found v r mem root w f found pos.focus refl
            (pfx_table_find_elem (data_of pos.focus) r) refl
            (pfx_table_find_elem_lem (data_of pos.focus) r)
      | inr (f, miss) ↦
          subst (Removes v r root) (sym (remove_missing mem root r f))
            ((λ i. miss i.entry i.entry_in i.entry_for), refl)
    ]

-- What a call of rtr_pfx_table_remove does.
pub record HasRemove (t : PfxTable) (r : PfxRecord) (o : Outcome) : Type 0 where
  pub tree :
      RemoveIs
        (ver r.prefix)
        (pfx_table_get_root t (ver r.prefix))
        r
        o.rtval
        (pfx_table_get_root o.table (ver r.prefix))
  pub other_tree :
      pfx_table_get_root o.table (other (ver r.prefix))
      ≡ pfx_table_get_root t (other (ver r.prefix))
  pub well_formed : IsTable o.table
  pub notified : o.notified ≡ callback t removed r o.rtval

IsPfxTree-of_RemoveIs :
    (v : IpVersion) (root root' : PfxTrie) (r : PfxRecord) (a : PfxRtval)
    → IsPfxTree v root
    → RemoveIs v root r a root'
    → IsPfxTree v root'
IsPfxTree-of_RemoveIs v root root' r success w h = h.well_formed
IsPfxTree-of_RemoveIs v root root' r duplicate_record w h = absurd h
IsPfxTree-of_RemoveIs v root root' r error w h = h.well_formed
IsPfxTree-of_RemoveIs v root root' r record_not_found w h = subst (IsPfxTree v) (sym h.1) w
IsPfxTree-of_RemoveIs v root root' r not_initialized w h = absurd h

-- On a well formed table rtr_pfx_table_remove keeps the table well formed and the tree of the other version
-- as it was. It answers SUCCESS only for a record that its tree holds, and then the tree holds the records
-- from before but that one; it answers RECORD_NOT_FOUND only for a record that the tree does not hold, and
-- then the tree stays as it was. On ERROR the tree holds the same records, and there is no other answer.
-- The callback is called on SUCCESS alone.
pub rtr_pfx_table_remove_lem :
    (mem : ℕ → Bool) (t : PfxTable) (r : PfxRecord)
    → IsTable t
    → HasRemove t r (rtr_pfx_table_remove mem t r)
unfolding rtr_pfx_table_remove
rtr_pfx_table_remove_lem mem t r w =
    let v = ver r.prefix in
    let root = pfx_table_get_root t v in
    let o = remove_from_root mem root r in
    let old = IsPfxTree-of t v w in
    let a = remove_from_root_lem v mem root r old in
    record {
      tree = subst (RemoveIs v root r o.rtval) (sym (get_root-set_root t v o.root)) a;
      other_tree = get_root-set_root_other t v o.root;
      well_formed =
          IsTable-set_root t v o.root w (IsPfxTree-of_RemoveIs v root o.root r o.rtval old a);
      notified = callback_lem t removed r o;
    }
