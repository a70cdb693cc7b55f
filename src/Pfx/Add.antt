-- ===== src/Pfx/Add.antt =====
-- rtr_pfx_table_add: on every branch, which records the table holds afterwards.
use rtrlib.Pfx.AddTree.{
  add_first, add_inserted, add_appended, create_node_cases, HasAdded, AddIs, new_entry,
}
use rtrlib.Prelude.{
  if◌then◌else◌, subst, ℕ, ◌≡◌, ◌≢◌, ◌⊎◌, inl, inr, refl, sym, ap, ◌∙◌, Bool, true, false,
  Bool-cases, Option, none, some, List, [], ◌∷◌, ◌++◌, Elem, arith,
}
use rtrlib.Ip.{ipv4, ipv6, IpVersion, ver}
use rtrlib.Trie.Defs.{Crumb, Entry, null, node, Position, plug, trie_insert, trie_lookup_exact}
use rtrlib.Trie.Invariant.{In}
use rtrlib.Trie.Exact.{IsForNode, IsFor, FoundIn}
use rtrlib.Trie.Find.{trie_lookup_exact_lem, insert_at_place}
use rtrlib.Pfx.Data.{
  NodeData, PfxRecord, PfxRtval, success, error, duplicate_record, record_not_found,
  not_initialized, elem_of, pfx_table_find_elem, pfx_table_create_node,
}
use rtrlib.Pfx.Table.{
  notify_on_success, PfxOperation, PfxTrie, PfxTable, TreeOutcome, Outcome, append_to, insert_new,
  add_to_root, rtr_pfx_table_add, pfx_table_get_root, added, set_root,
}
use rtrlib.Pfx.Records.{IsPfxTree, IsTable, InTree, InTable, IsRecord, IsPfxTree-of}
use rtrlib.Pfx.Elems.{pfx_table_find_elem_lem, FindIs}
use rtrlib.Pfx.Place.{InTree-plug}

append_to_duplicate :
    (mem : ℕ → Bool) (root : PfxTrie) (pos : Position NodeData) (r : PfxRecord) (x : Entry NodeData)
    (l rr : PfxTrie) (i : ℕ)
    → pos.focus ≡ node x l rr
    → pfx_table_find_elem x.payload r ≡ some i
    → append_to mem root pos r ≡ record { rtval = duplicate_record; root = root }
unfolding append_to
append_to_duplicate mem root pos r x l rr i e q = ground arith

append_to_appended :
    (mem : ℕ → Bool) (root : PfxTrie) (pos : Position NodeData) (r : PfxRecord) (x : Entry NodeData)
    (l rr : PfxTrie)
    → pos.focus ≡ node x l rr
    → pfx_table_find_elem x.payload r ≡ none
    → mem 0 ≡ true
    → append_to mem root pos r ≡ record {
      rtval = success;
      root = plug pos.path (node (record x { payload = x.payload ++ elem_of r ∷ [] }) l rr);
    }
unfolding append_to
append_to_appended mem root pos r x l rr e q y = ground arith

append_to_error :
    (mem : ℕ → Bool) (root : PfxTrie) (pos : Position NodeData) (r : PfxRecord) (x : Entry NodeData)
    (l rr : PfxTrie)
    → pos.focus ≡ node x l rr
    → pfx_table_find_elem x.payload r ≡ none
    → mem 0 ≡ false
    → append_to mem root pos r ≡ record { rtval = error; root = root }
unfolding append_to
append_to_error mem root pos r x l rr e q y = ground arith

insert_new_error :
    (mem : ℕ → Bool) (root : PfxTrie) (pos : Position NodeData) (r : PfxRecord)
    → pfx_table_create_node mem r ≡ none
    → insert_new mem root pos r ≡ record { rtval = error; root = root }
unfolding insert_new
insert_new_error mem root pos r n = ground arith

insert_new_inserted :
    (mem : ℕ → Bool) (root : PfxTrie) (pos : Position NodeData) (r : PfxRecord)
    → pfx_table_create_node mem r ≡ some (new_entry r)
    → insert_new mem root pos r ≡ record {
      rtval = success;
      root = plug pos.path (trie_insert pos.focus (new_entry r) pos.lvl);
    }
unfolding insert_new
insert_new_inserted mem root pos r n = ground arith

add_to_null_error :
    (mem : ℕ → Bool) (r : PfxRecord)
    → pfx_table_create_node mem r ≡ none
    → add_to_root mem null r ≡ record { rtval = error; root = null }
unfolding add_to_root
add_to_null_error mem r n = ground arith

add_to_null :
    (mem : ℕ → Bool) (r : PfxRecord)
    → pfx_table_create_node mem r ≡ some (new_entry r)
    → add_to_root mem null r ≡ record { rtval = success; root = node (new_entry r) null null }
unfolding add_to_root
add_to_null mem r n = ground arith

add_found :
    (mem : ℕ → Bool) (x : Entry NodeData) (l rr : PfxTrie) (r : PfxRecord)
    → let pos = trie_lookup_exact (node x l rr) r.prefix r.min_len 0 [] in
      pos.found ≡ true → add_to_root mem (node x l rr) r ≡ append_to mem (node x l rr) pos r
unfolding add_to_root
add_found mem x l rr r f = rw f

add_missing :
    (mem : ℕ → Bool) (x : Entry NodeData) (l rr : PfxTrie) (r : PfxRecord)
    → let pos = trie_lookup_exact (node x l rr) r.prefix r.min_len 0 [] in
      pos.found ≡ false → add_to_root mem (node x l rr) r ≡ insert_new mem (node x l rr) pos r
unfolding add_to_root
add_missing mem x l rr r f = rw f

module _ (v : IpVersion) (r : PfxRecord) (h : ver r.prefix ≡ v) (rec : IsRecord r) where
  -- The statement about a whole outcome.
  abbrev Adds : PfxTrie → TreeOutcome → Type 0
  Adds root o = AddIs v root r o.rtval o.root

  append_found :
      (path : List (Crumb NodeData)) (x : Entry NodeData) (l rr root : PfxTrie)
      → plug path (node x l rr) ≡ root
      → IsFor r.prefix r.min_len x
      → Elem (elem_of r) x.payload
      → InTree r root
  append_found path x l rr root p k m =
      subst (InTree r) p ((InTree-plug path l rr x r).1 (inr (k, m)))

  append_to_lem :
      (mem : ℕ → Bool) (root : PfxTrie) (pos : Position NodeData) (x : Entry NodeData)
      (l rr : PfxTrie)
      → IsPfxTree v root
      → FoundIn r.prefix r.min_len root pos
      → pos.focus ≡ node x l rr
      → (o : Option ℕ) → pfx_table_find_elem x.payload r ≡ o
      → FindIs x.payload r o
      → Adds root (append_to mem root pos r)
  append_to_lem mem root pos x l rr w found e (some i) q f =
      subst (Adds root) (sym (append_to_duplicate mem root pos r x l rr i e q)) (
        append_found pos.path x l rr root (ap (plug pos.path) (sym e) ∙ found.whole_tree)
            (subst (IsForNode r.prefix r.min_len) e found.node_for) f.0,
        refl,
      )
  append_to_lem mem root pos x l rr w found e none q f = elim (Bool-cases (mem 0)) [
    | inl y ↦
        let whole : plug pos.path (node x l rr) ≡ root =
          ap (plug pos.path) (sym e) ∙ found.whole_tree in
        let k = subst (IsForNode r.prefix r.min_len) e found.node_for in
        subst (Adds root) (sym (append_to_appended mem root pos r x l rr e q y)) (
          subst
            (λ t.
              HasAdded v t
                (plug pos.path (node (record x { payload = x.payload ++ elem_of r ∷ [] }) l rr)) r)
            whole (add_appended v r h rec pos.path x l rr (subst (IsPfxTree v) (sym whole) w) k f))
    | inr n ↦ subst (Adds root) (sym (append_to_error mem root pos r x l rr e q n)) refl
  ]

  insert_new_lem :
      (mem : ℕ → Bool) (x : Entry NodeData) (l rr : PfxTrie)
      → let root = node x l rr in
        let pos = trie_lookup_exact root r.prefix r.min_len 0 [] in
        IsPfxTree v root
        → pos.found ≡ false
        → ((y : Entry NodeData) → In y root → ¬ IsFor r.prefix r.min_len y)
        → Adds root (insert_new mem root pos r)
  insert_new_lem mem x l rr w f miss =
      let root = node x l rr in
      let pos = trie_lookup_exact root r.prefix r.min_len 0 [] in
      elim (create_node_cases mem r) [
        | inl n ↦ subst (Adds root) (sym (insert_new_error mem root pos r n)) refl
        | inr y ↦ subst (Adds root) (sym (insert_new_inserted mem root pos r y)) (
            subst (λ t. HasAdded v root t r) (sym (insert_at_place v x l rr (new_entry r) w.trie f))
              (add_inserted v r h rec root w miss))
      ]

  FoundIn-node :
      (root : PfxTrie) (pos : Position NodeData)
      → FoundIn r.prefix r.min_len root pos
      → (t : PfxTrie) → pos.focus ≡ t
      → IsForNode r.prefix r.min_len t
  FoundIn-node root pos f t e = subst (IsForNode r.prefix r.min_len) e f.node_for

  append_at :
      (mem : ℕ → Bool) (root : PfxTrie) (pos : Position NodeData)
      → IsPfxTree v root
      → FoundIn r.prefix r.min_len root pos
      → (t : PfxTrie) → pos.focus ≡ t
      → Adds root (append_to mem root pos r)
  append_at mem root pos w found null e = absurd (FoundIn-node root pos found null e)
  append_at mem root pos w found (node x l rr) e =
      append_to_lem mem root pos x l rr w found e (pfx_table_find_elem x.payload r) refl
        (pfx_table_find_elem_lem x.payload r)

  add_to_root_lem :
      (mem : ℕ → Bool) (root : PfxTrie) → IsPfxTree v root → Adds root (add_to_root mem root r)
  add_to_root_lem mem null w = elim (create_node_cases mem r) [
    | inl n ↦ subst (Adds null) (sym (add_to_null_error mem r n)) refl
    | inr y ↦ subst (Adds null) (sym (add_to_null mem r y)) (add_first v r h rec)
  ]
  add_to_root_lem mem (node x l rr) w =
      let root = node x l rr in
      let pos = trie_lookup_exact root r.prefix r.min_len 0 [] in
      elim (trie_lookup_exact_lem v root r.prefix r.min_len w.trie) [
        | inl (f, found) ↦
            subst (Adds root) (sym (add_found mem x l rr r f))
              (append_at mem root pos w found pos.focus refl)
        | inr (f, miss) ↦
            subst (Adds root) (sym (add_missing mem x l rr r f))
              (insert_new_lem mem x l rr w f miss)
      ]

abbrev pub other : IpVersion → IpVersion
other ipv4 = ipv6
other ipv6 = ipv4

-- The callback is called exactly on SUCCESS, where one is installed.
abbrev pub callback :
    PfxTable → PfxOperation → PfxRecord → PfxRtval → List (PfxOperation × PfxRecord)
callback t op r success = if t.update_fp then (op, r) ∷ [] else []
callback t op r _ = []

-- What a call of rtr_pfx_table_add does.
pub record HasAdd (t : PfxTable) (r : PfxRecord) (o : Outcome) : Type 0 where
  pub tree :
      AddIs
        (ver r.prefix)
        (pfx_table_get_root t (ver r.prefix))
        r
        o.rtval
        (pfx_table_get_root o.table (ver r.prefix))
  pub other_tree :
      pfx_table_get_root o.table (other (ver r.prefix))
      ≡ pfx_table_get_root t (other (ver r.prefix))
  pub well_formed : IsTable o.table
  pub notified : o.notified ≡ callback t added r o.rtval

IsPfxTree-of_AddIs :
    (v : IpVersion) (root root' : PfxTrie) (r : PfxRecord) (a : PfxRtval)
    → IsPfxTree v root
    → AddIs v root r a root'
    → IsPfxTree v root'
IsPfxTree-of_AddIs v root root' r success w h = h.well_formed
IsPfxTree-of_AddIs v root root' r duplicate_record w h = subst (IsPfxTree v) (sym h.1) w
IsPfxTree-of_AddIs v root root' r error w h = subst (IsPfxTree v) (sym h) w
IsPfxTree-of_AddIs v root root' r record_not_found w h = absurd h
IsPfxTree-of_AddIs v root root' r not_initialized w h = absurd h

pub get_root-set_root :
    (t : PfxTable) (v : IpVersion) (root : PfxTrie)
    → pfx_table_get_root (set_root t v root) v ≡ root
get_root-set_root t ipv4 root = refl
get_root-set_root t ipv6 root = refl

pub get_root-set_root_other :
    (t : PfxTable) (v : IpVersion) (root : PfxTrie)
    → pfx_table_get_root (set_root t v root) (other v) ≡ pfx_table_get_root t (other v)
get_root-set_root_other t ipv4 root = refl
get_root-set_root_other t ipv6 root = refl

pub IsTable-set_root :
    (t : PfxTable) (v : IpVersion) (root : PfxTrie)
    → IsTable t
    → IsPfxTree v root
    → IsTable (set_root t v root)
IsTable-set_root t ipv4 root w h = record { tree4 = h; tree6 = w.tree6 }
IsTable-set_root t ipv6 root w h = record { tree4 = w.tree4; tree6 = h }

pub callback_lem :
    (t : PfxTable) (op : PfxOperation) (r : PfxRecord) (o : TreeOutcome)
    → (notify_on_success t op r o).notified ≡ callback t op r o.rtval
callback_lem t op r o = ground arith

-- On a well formed table, for a record whose prefix has words of 32 bits, a length within its width and no
-- bit set behind it, rtr_pfx_table_add keeps the table well formed and the tree of the other version as it
-- was. It answers SUCCESS only for a record that its tree does not hold, and then the tree holds that
-- record and those before; it answers DUPLICATE_RECORD only for a record that the tree holds. On
-- DUPLICATE_RECORD and ERROR the tree stays as it was, and there is no other answer. The callback is called
-- on SUCCESS alone.
pub rtr_pfx_table_add_lem :
    (mem : ℕ → Bool) (t : PfxTable) (r : PfxRecord)
    → IsTable t
    → IsRecord r
    → HasAdd t r (rtr_pfx_table_add mem t r)
unfolding rtr_pfx_table_add
rtr_pfx_table_add_lem mem t r w rec =
    let v = ver r.prefix in
    let root = pfx_table_get_root t v in
    let o = add_to_root mem root r in
    let old = IsPfxTree-of t v w in
    let a = add_to_root_lem v r refl rec mem root old in
    record {
      tree = subst (AddIs v root r o.rtval) (sym (get_root-set_root t v o.root)) a;
      other_tree = get_root-set_root_other t v o.root;
      well_formed =
          IsTable-set_root t v o.root w (IsPfxTree-of_AddIs v root o.root r o.rtval old a);
      notified = callback_lem t added r o;
    }

add_to_root-ne-error :
    (mem : ℕ → Bool) (root : PfxTrie) (r : PfxRecord)
    → mem 0 ≡ true
    → mem 1 ≡ true
    → mem 2 ≡ true
    → (add_to_root mem root r).rtval ≢ error
unfolding add_to_root
add_to_root-ne-error mem null r a b c e = ground arith
add_to_root-ne-error mem (node x l rr) r a b c e = ground arith

answer_of :
    (v : IpVersion) (root root' : PfxTrie) (r : PfxRecord) (a : PfxRtval)
    → AddIs v root r a root'
    → a ≢ error
    → (a ≡ duplicate_record) × InTree r root ⊎ (a ≡ success) × (¬ InTree r root)
answer_of v root root' r success h n = inr (refl, h.new)
answer_of v root root' r duplicate_record h n = inl (refl, h.0)
answer_of v root root' r error h n = absurd (n refl)
answer_of v root root' r record_not_found h n = absurd h
answer_of v root root' r not_initialized h n = absurd h

-- Where its three allocations succeed rtr_pfx_table_add does not answer ERROR: on a well formed table, for a
-- record whose prefix has words of 32 bits, a length within its width and no bit set behind it, it answers DUPLICATE_RECORD if the table holds the record, and else SUCCESS.
pub rtr_pfx_table_add_answer :
    (mem : ℕ → Bool) (t : PfxTable) (r : PfxRecord)
    → IsTable t
    → IsRecord r
    → mem 0 ≡ true
    → mem 1 ≡ true
    → mem 2 ≡ true
    → let o = rtr_pfx_table_add mem t r in
      (o.rtval ≡ duplicate_record) × InTable r t ⊎ (o.rtval ≡ success) × (¬ InTable r t)
unfolding rtr_pfx_table_add
rtr_pfx_table_add_answer mem t r w rec a b c =
    let root = pfx_table_get_root t (ver r.prefix) in
    let o = add_to_root mem root r in
    answer_of (ver r.prefix) root o.root r o.rtval
      (add_to_root_lem (ver r.prefix) r refl rec mem root (IsPfxTree-of t (ver r.prefix) w))
      (add_to_root-ne-error mem root r a b c)
