-- ===== src/Pfx/AddTree.antt =====
-- What one more record makes of a tree: in an empty tree, in a new node, in a node that is there.
use Prim.Native.Nat.{zero-le}
use rtrlib.Prelude.{
  subst, ℕ, ◌≡◌, ◌↔◌, ◌⊎◌, inl, inr, refl, sym, ◌∙◌, Bool, none, some, List, [], ◌∷◌, ◌++◌, Elem,
  arith,
}
use rtrlib.Ip.{IpVersion, ver}
use rtrlib.Trie.Defs.{Crumb, Entry, null, node, plug, trie_insert}
use rtrlib.Trie.Invariant.{In, All-in, All-of_In, IsEntry}
use rtrlib.Trie.Exact.{IsFor}
use rtrlib.Trie.Insert.{In-trie_insert, trie_insert-IsTrie}
use rtrlib.Trie.Plug.{In-plug}
use rtrlib.Pfx.Data.{
  NodeData, PfxRecord, PfxRtval, success, error, duplicate_record, record_not_found,
  not_initialized, elem_of, pfx_table_create_node,
}
use rtrlib.Pfx.Table.{PfxTrie}
use rtrlib.Pfx.Records.{IsData, IsPfxTree, InTree, IsRecord}
use rtrlib.Pfx.Elems.{Elem-append, append-ne-nil, IsNodup-append}
use rtrlib.Pfx.Place.{InEntry, InTree-plug, Outside-differs, IsTrie-with_data}

-- The tree `root'` holds the records of `root` and the record `r`.
pub record HasAdded (v : IpVersion) (root root' : PfxTrie) (r : PfxRecord) : Type 0 where
  pub new : ¬ InTree r root
  pub well_formed : IsPfxTree v root'
  pub records : (s : PfxRecord) → InTree s root' ↔ ((s ≡ r) ⊎ InTree s root)

-- What is known of the tree by the value that is returned.
abbrev pub AddIs : IpVersion → PfxTrie → PfxRecord → PfxRtval → PfxTrie → Type 0
AddIs v root r success root' = HasAdded v root root' r
AddIs v root r duplicate_record root' = InTree r root × (root' ≡ root)
AddIs v root r error root' = root' ≡ root
AddIs v root r record_not_found root' = ⊥
AddIs v root r not_initialized root' = ⊥

-- The entry that pfx_table_create_node makes.
abbrev pub new_entry : PfxRecord → Entry NodeData
new_entry r = record { prefix = r.prefix; len = r.min_len; payload = elem_of r ∷ [] }

pub create_node_cases :
    (mem : ℕ → Bool) (r : PfxRecord)
    → (pfx_table_create_node mem r ≡ none) ⊎ (pfx_table_create_node mem r ≡ some (new_entry r))
unfolding pfx_table_create_node
create_node_cases mem r = ground arith

pub record_eq :
    (s r : PfxRecord) → s.prefix ≡ r.prefix → s.min_len ≡ r.min_len → elem_of s ≡ elem_of r → s ≡ r
record_eq s r p n e = ground arith

InEntry-new_entry : (s r : PfxRecord) → InEntry s (new_entry r) → s ≡ r
InEntry-new_entry s r (k, inl e) = record_eq s r (sym k.0) (sym k.1) e
InEntry-new_entry s r (k, inr e) = absurd e

IsEntry-new_entry :
    (v : IpVersion) (r : PfxRecord) → ver r.prefix ≡ v → IsRecord r → IsEntry v (new_entry r)
IsEntry-new_entry v r h w = record {
  version = h;
  words = w.words;
  fits = rw (← h) w.fits;
  canonical = λ i a b. w.canonical i a (rw (← h) at b);
}

IsData-new_entry : (r : PfxRecord) → IsData (new_entry r)
IsData-new_entry r = record { filled = λ h. cc; nodup = ((λ h. h), tt) }

module _ (v : IpVersion) (r : PfxRecord) (h : ver r.prefix ≡ v) (rec : IsRecord r) where
  -- The first record of the tree.
  pub add_first : HasAdded v null (node (new_entry r) null null) r
  add_first = record {
    new = λ i. i.entry_in;
    well_formed = record {
      trie = (zero-le, IsEntry-new_entry v r h rec, tt, tt, tt, tt);
      nodes = (IsData-new_entry r, tt, tt);
    };
    records = λ s. (to s, from s);
  }
    where
      to : (s : PfxRecord) → InTree s (node (new_entry r) null null) → (s ≡ r) ⊎ InTree s null
      to s i = elim i.entry_in [
        | inl p ↦ inl (InEntry-new_entry s r (subst (InEntry s) p (i.entry_for, i.elem)))
        | inr (inl b) ↦ absurd b
        | inr (inr b) ↦ absurd b
      ]

      from : (s : PfxRecord) → (s ≡ r) ⊎ InTree s null → InTree s (node (new_entry r) null null)
      from s (inl p) = rw p (record {
        entry = new_entry r;
        entry_in = inl refl;
        entry_for = (refl, refl);
        elem = inl refl;
      })
      from s (inr i) = absurd i.entry_in

  -- A new node, in a tree with no node for the prefix.
  pub add_inserted :
      (root : PfxTrie)
      → IsPfxTree v root
      → ((x : Entry NodeData) → In x root → ¬ IsFor r.prefix r.min_len x)
      → HasAdded v root (trie_insert root (new_entry r) 0) r
  add_inserted root w miss = record {
    new = λ i. miss i.entry i.entry_in i.entry_for;
    well_formed = record {
      trie =
          trie_insert-IsTrie v 0 root (new_entry r) w.trie (IsEntry-new_entry v r h rec) zero-le
            (All-of_In _ root (λ x i. ((λ j b. absurd (omega arith)), miss x i)));
      nodes = All-of_In IsData (trie_insert root (new_entry r) 0) filled;
    };
    records = λ s. (to s, from s);
  }
    where
      filled : (x : Entry NodeData) → In x (trie_insert root (new_entry r) 0) → IsData x
      filled x i = elim ((In-trie_insert x root (new_entry r) 0).0 i) [
        | inl p ↦ rw p (IsData-new_entry r)
        | inr b ↦ All-in IsData root x w.nodes b
      ]

      to : (s : PfxRecord) → InTree s (trie_insert root (new_entry r) 0) → (s ≡ r) ⊎ InTree s root
      to s i = elim ((In-trie_insert i.entry root (new_entry r) 0).0 i.entry_in) [
        | inl p ↦ inl (InEntry-new_entry s r (subst (InEntry s) p (i.entry_for, i.elem)))
        | inr b ↦
            inr (record { entry = i.entry; entry_in = b; entry_for = i.entry_for; elem = i.elem })
      ]

      from : (s : PfxRecord) → (s ≡ r) ⊎ InTree s root → InTree s (trie_insert root (new_entry r) 0)
      from s (inl p) = rw p (record {
        entry = new_entry r;
        entry_in = (In-trie_insert (new_entry r) root (new_entry r) 0).1 (inl refl);
        entry_for = (refl, refl);
        elem = inl refl;
      })
      from s (inr i) = record {
        entry = i.entry;
        entry_in = (In-trie_insert i.entry root (new_entry r) 0).1 (inr i.entry_in);
        entry_for = i.entry_for;
        elem = i.elem;
      }

  -- One more element at a node that is there.
  pub add_appended :
      (path : List (Crumb NodeData)) (e : Entry NodeData) (l rr : PfxTrie)
      → IsPfxTree v (plug path (node e l rr))
      → IsFor r.prefix r.min_len e
      → (¬ Elem (elem_of r) e.payload)
      → HasAdded v
          (plug path (node e l rr))
          (plug path (node (record e { payload = e.payload ++ elem_of r ∷ [] }) l rr))
          r
  add_appended path e l rr w k miss = record {
    new = λ i. elim ((InTree-plug path l rr e r).0 i) [
      | inl o ↦ Outside-differs path l rr v e w.trie r o k
      | inr i' ↦ miss i'.1
    ];
    well_formed = record {
      trie = IsTrie-with_data path l rr v e w.trie (e.payload ++ elem_of r ∷ []);
      nodes = All-of_In IsData _ good;
    };
    records = λ s. (to s, from s);
  }
    where
      e' : Entry NodeData
      e' = record e { payload = e.payload ++ elem_of r ∷ [] }

      old : IsData e
      old = All-in IsData _ e w.nodes ((In-plug e path (node e l rr)).1 (inr (inl refl)))

      good : (x : Entry NodeData) → In x (plug path (node e' l rr)) → IsData x
      good x i = elim ((In-plug x path (node e' l rr)).0 i) [
        | inl p ↦ All-in IsData _ x w.nodes ((In-plug x path (node e l rr)).1 (inl p))
        | inr (inl p) ↦ subst IsData (sym p) (record {
          filled = append-ne-nil e.payload (elem_of r);
          nodup = IsNodup-append e.payload (elem_of r) old.nodup miss;
        })
        | inr (inr p) ↦ All-in IsData _ x w.nodes ((In-plug x path (node e l rr)).1 (inr (inr p)))
      ]

      to :
          (s : PfxRecord)
          → InTree s (plug path (node e' l rr))
          → (s ≡ r) ⊎ InTree s (plug path (node e l rr))
      to s i = elim ((InTree-plug path l rr e' s).0 i) [
        | inl o ↦ inr ((InTree-plug path l rr e s).1 (inl o))
        | inr (f, m) ↦ elim ((Elem-append (elem_of s) e.payload (elem_of r ∷ [])).0 m) [
          | inl m' ↦ inr ((InTree-plug path l rr e s).1 (inr (f, m')))
          | inr m' ↦ inl (InEntry-new_entry s r ((sym k.0 ∙ f.0, sym k.1 ∙ f.1), m'))
        ]
      ]

      from :
          (s : PfxRecord)
          → (s ≡ r) ⊎ InTree s (plug path (node e l rr))
          → InTree s (plug path (node e' l rr))
      from s (inl p) = rw p (
          (InTree-plug path l rr e' r).1
            (inr (k, (Elem-append (elem_of r) e.payload (elem_of r ∷ [])).1 (inr (inl refl)))))
      from s (inr i) = elim ((InTree-plug path l rr e s).0 i) [
        | inl o ↦ (InTree-plug path l rr e' s).1 (inl o)
        | inr (f, m) ↦
            (InTree-plug path l rr e' s).1
              (inr (f, (Elem-append (elem_of s) e.payload (elem_of r ∷ [])).1 (inl m)))
      ]
