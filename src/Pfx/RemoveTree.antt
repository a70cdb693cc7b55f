-- ===== src/Pfx/RemoveTree.antt =====
-- What the tree holds when one record is taken out of a node, or a node out of the tree.
use rtrlib.Pfx.AddTree.{record_eq}
use rtrlib.Prelude.{
  ◌≡◌, ◌≢◌, ◌↔◌, ◌⊎◌, inl, inr, refl, sym, subst, ap, ◌∙◌, List, [], Elem, arith, length,
}
use rtrlib.Ip.{IpVersion}
use rtrlib.Trie.Defs.{Entry, node, Crumb, plug}
use rtrlib.Trie.Invariant.{In, All-in, All-of_In, IsTrie}
use rtrlib.Trie.Exact.{IsFor}
use rtrlib.Trie.Plug.{In-plug, SubKeys, IsTrie-plug}
use rtrlib.Pfx.Data.{
  NodeData, DataElem, PfxRecord, PfxRtval, success, error, duplicate_record, record_not_found,
  not_initialized, elem_of,
}
use rtrlib.Pfx.Table.{PfxTrie}
use rtrlib.Pfx.Records.{IsData, IsNodup, IsPfxTree, InTree}
use rtrlib.Pfx.Place.{Outside, InTree-plug, InTree-plug_gone, Outside-differs, IsTrie-with_data}

-- The tree `root'` holds the records of `root` but the record `r`.
pub record HasRemoved (v : IpVersion) (root root' : PfxTrie) (r : PfxRecord) : Type 0 where
  pub old : InTree r root
  pub well_formed : IsPfxTree v root'
  pub records : (s : PfxRecord) → InTree s root' ↔ (InTree s root × (s ≢ r))

-- The tree `root'` holds the records of `root`.
pub record HasKept (v : IpVersion) (root root' : PfxTrie) : Type 0 where
  pub well_formed : IsPfxTree v root'
  pub records : (s : PfxRecord) → InTree s root' ↔ InTree s root

-- What is known of the tree by the value that is returned.
abbrev pub RemoveIs : IpVersion → PfxTrie → PfxRecord → PfxRtval → PfxTrie → Type 0
RemoveIs v root r success root' = HasRemoved v root root' r
RemoveIs v root r record_not_found root' = (¬ InTree r root) × (root' ≡ root)
RemoveIs v root r error root' = HasKept v root root'
RemoveIs v root r duplicate_record root' = ⊥
RemoveIs v root r not_initialized root' = ⊥

module _ (v : IpVersion) (r : PfxRecord) (path : List (Crumb NodeData)) (e : Entry NodeData)
    (l rr : PfxTrie) (w : IsPfxTree v (plug path (node e l rr)))
    (k : IsFor r.prefix r.min_len e) where
  pub not_in_tree : (¬ Elem (elem_of r) e.payload) → ¬ InTree r (plug path (node e l rr))
  not_in_tree miss i = elim ((InTree-plug path l rr e r).0 i) [
    | inl o ↦ Outside-differs path l rr v e w.trie r o k
    | inr m ↦ miss m.1
  ]

  -- A record elsewhere is another record.
  Outside-ne : (s : PfxRecord) → Outside path l rr s → s ≢ r
  Outside-ne s o q = Outside-differs path l rr v e w.trie r (subst (Outside path l rr) q o) k

  in_old : Elem (elem_of r) e.payload → InTree r (plug path (node e l rr))
  in_old m = (InTree-plug path l rr e r).1 (inr (k, m))

  elem_ne : (s : PfxRecord) → IsFor s.prefix s.min_len e → s ≢ r → elem_of s ≢ elem_of r
  elem_ne s f n q = n (record_eq s r (sym f.0 ∙ k.0) (sym f.1 ∙ k.1) q)

  -- The nodes keep their promises when the data of this node become `ps`.
  nodes_with :
      (ps : NodeData)
      → ps ≢ []
      → IsNodup ps
      → IsPfxTree v (plug path (node (record e { payload = ps }) l rr))
  nodes_with ps ne nd = record {
    trie = IsTrie-with_data path l rr v e w.trie ps;
    nodes = All-of_In IsData _ λ x i.
        elim ((In-plug x path (node (record e { payload = ps }) l rr)).0 i) [
          | inl p ↦ All-in IsData _ x w.nodes ((In-plug x path (node e l rr)).1 (inl p))
          | inr (inl p) ↦ subst IsData (sym p) (record { filled = ne; nodup = nd })
          | inr (inr p) ↦ All-in IsData _ x w.nodes ((In-plug x path (node e l rr)).1 (inr (inr p)))
        ];
  }

  pub removed-Elem :
      (ps : NodeData)
      → ps ≢ []
      → IsNodup ps
      → Elem (elem_of r) e.payload
      → ((d : DataElem) → Elem d ps ↔ (Elem d e.payload × (d ≢ elem_of r)))
      → HasRemoved v (plug path (node e l rr)) (plug path (node (record e { payload = ps }) l rr)) r
  removed-Elem ps ne nd m f = record {
    old = in_old m;
    well_formed = nodes_with ps ne nd;
    records = λ s. (to s, from s);
  }
    where
      to :
          (s : PfxRecord)
          → InTree s (plug path (node (record e { payload = ps }) l rr))
          → InTree s (plug path (node e l rr)) × (s ≢ r)
      to s i = elim ((InTree-plug path l rr (record e { payload = ps }) s).0 i) [
        | inl o ↦ ((InTree-plug path l rr e s).1 (inl o), Outside-ne s o)
        | inr (g, h) ↦
            let (h', n) = (f (elem_of s)).0 h in
            ((InTree-plug path l rr e s).1 (inr (g, h')), λ q. n (ap elem_of q))
      ]

      from :
          (s : PfxRecord)
          → InTree s (plug path (node e l rr)) × (s ≢ r)
          → InTree s (plug path (node (record e { payload = ps }) l rr))
      from s (i, n) = elim ((InTree-plug path l rr e s).0 i) [
        | inl o ↦ (InTree-plug path l rr (record e { payload = ps }) s).1 (inl o)
        | inr (g, h) ↦
            (InTree-plug path l rr (record e { payload = ps }) s).1
              (inr (g, (f (elem_of s)).1 (h, elem_ne s g n)))
      ]

  pub kept_elems :
      (ps : NodeData)
      → ps ≢ []
      → IsNodup ps
      → ((d : DataElem) → Elem d ps ↔ Elem d e.payload)
      → HasKept v (plug path (node e l rr)) (plug path (node (record e { payload = ps }) l rr))
  kept_elems ps ne nd f = record {
    well_formed = nodes_with ps ne nd;
    records = λ s. (to s, from s);
  }
    where
      to :
          (s : PfxRecord)
          → InTree s (plug path (node (record e { payload = ps }) l rr))
          → InTree s (plug path (node e l rr))
      to s i = elim ((InTree-plug path l rr (record e { payload = ps }) s).0 i) [
        | inl o ↦ (InTree-plug path l rr e s).1 (inl o)
        | inr (g, h) ↦ (InTree-plug path l rr e s).1 (inr (g, (f (elem_of s)).0 h))
      ]

      from :
          (s : PfxRecord)
          → InTree s (plug path (node e l rr))
          → InTree s (plug path (node (record e { payload = ps }) l rr))
      from s i = elim ((InTree-plug path l rr e s).0 i) [
        | inl o ↦ (InTree-plug path l rr (record e { payload = ps }) s).1 (inl o)
        | inr (g, h) ↦
            (InTree-plug path l rr (record e { payload = ps }) s).1 (inr (g, (f (elem_of s)).1 h))
      ]

  -- The node had no other record, and is gone.
  pub removed_node :
      (rest : PfxTrie)
      → IsTrie v (length path) rest
      → ((x : Entry NodeData) → In x rest ↔ (In x l ⊎ In x rr))
      → Elem (elem_of r) e.payload
      → ((d : DataElem) → Elem d e.payload → d ≡ elem_of r)
      → HasRemoved v (plug path (node e l rr)) (plug path rest) r
  removed_node rest t below m only = record {
    old = in_old m;
    well_formed = record {
      trie = IsTrie-plug v path (node e l rr) rest keys (λ _. t) w.trie;
      nodes = All-of_In IsData _ λ x i.
          All-in IsData _ x w.nodes
            ((In-plug x path (node e l rr)).1 (ground (arith, In-plug x path rest, below x)));
    };
    records = λ s. (to s, from s);
  }
    where
      keys : SubKeys rest (node e l rr)
      keys x i = (x, inr ((below x).0 i), (refl, refl))

      to :
          (s : PfxRecord) → InTree s (plug path rest) → InTree s (plug path (node e l rr)) × (s ≢ r)
      to s i =
          let o = (InTree-plug_gone path l rr rest s below).0 i in
          ((InTree-plug path l rr e s).1 (inl o), Outside-ne s o)

      from :
          (s : PfxRecord) → InTree s (plug path (node e l rr)) × (s ≢ r) → InTree s (plug path rest)
      from s (i, n) = elim ((InTree-plug path l rr e s).0 i) [
        | inl o ↦ (InTree-plug_gone path l rr rest s below).1 o
        | inr (g, h) ↦ absurd (elem_ne s g n (only (elem_of s) h))
      ]
