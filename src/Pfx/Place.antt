-- ===== src/Pfx/Place.antt =====
-- The records of a tree, seen from one of its nodes.
use rtrlib.Prelude.{
  arith, ◌↔◌, ◌⊎◌, inl, inr, refl, sym, ◌∙◌, List, Elem, length, Bool, true, false,
}
use rtrlib.Ip.{IpVersion}
use rtrlib.Trie.Defs.{Entry, node, Crumb, plug}
use rtrlib.Trie.Invariant.{In, All-in, IsBelow, SameKey, IsTrie, All-map}
use rtrlib.Trie.Exact.{IsFor}
use rtrlib.Trie.Plug.{InPath, In-plug, SubKeys, IsTrie-plug, IsTrie-of_plug, InPath-differs}
use rtrlib.Pfx.Data.{NodeData, PfxRecord, elem_of}
use rtrlib.Pfx.Table.{PfxTrie}
use rtrlib.Pfx.Records.{InTree}

-- The record stands in an entry `e`.
abbrev pub InEntry : PfxRecord → Entry NodeData → Type 0
InEntry s e = IsFor s.prefix s.min_len e × Elem (elem_of s) e.payload

module _ (path : List (Crumb NodeData)) (l r : PfxTrie) where
  -- The entries of the tree but that of the node.
  abbrev pub Elsewhere : Entry NodeData → Type 0
  Elsewhere x = InPath x path ⊎ In x l ⊎ In x r

  -- The record stands in another node.
  abbrev pub Outside : PfxRecord → Type 0
  Outside s = (x : Entry NodeData) × Elsewhere x × InEntry s x

  pub InTree-plug :
      (e : Entry NodeData) (s : PfxRecord)
      → InTree s (plug path (node e l r)) ↔ (Outside s ⊎ InEntry s e)
  InTree-plug e s = (to, from)
    where
      to : InTree s (plug path (node e l r)) → Outside s ⊎ InEntry s e
      to i = elim ((In-plug i.entry path (node e l r)).0 i.entry_in) [
        | inl p ↦ inl (i.entry, inl p, (i.entry_for, i.elem))
        | inr (inl p) ↦ inr (rw (← p) (i.entry_for, i.elem))
        | inr (inr p) ↦ inl (i.entry, inr p, (i.entry_for, i.elem))
      ]

      from : Outside s ⊎ InEntry s e → InTree s (plug path (node e l r))
      from (inl (x, p, (k, h))) = record {
        entry = x;
        entry_in = (In-plug x path (node e l r)).1 (ground arith);
        entry_for = k;
        elem = h;
      }
      from (inr (k, h)) = record {
        entry = e;
        entry_in = (In-plug e path (node e l r)).1 (inr (inl refl));
        entry_for = k;
        elem = h;
      }

  -- The node is gone, and the entries below it are left.
  pub InTree-plug_gone :
      (rest : PfxTrie) (s : PfxRecord)
      → ((x : Entry NodeData) → In x rest ↔ (In x l ⊎ In x r))
      → InTree s (plug path rest) ↔ Outside s
  InTree-plug_gone rest s below = (to, from)
    where
      to : InTree s (plug path rest) → Outside s
      to i = elim ((In-plug i.entry path rest).0 i.entry_in) [
        | inl p ↦ (i.entry, inl p, (i.entry_for, i.elem))
        | inr p ↦ (i.entry, inr ((below i.entry).0 p), (i.entry_for, i.elem))
      ]

      from : Outside s → InTree s (plug path rest)
      from (x, inl p, (k, h)) = record {
        entry = x;
        entry_in = (In-plug x path rest).1 (inl p);
        entry_for = k;
        elem = h;
      }
      from (x, inr p, (k, h)) = record {
        entry = x;
        entry_in = (In-plug x path rest).1 (inr ((below x).1 p));
        entry_for = k;
        elem = h;
      }

  module _ (v : IpVersion) (e : Entry NodeData) (w : IsTrie v 0 (plug path (node e l r))) where
    Elsewhere-differs : (x : Entry NodeData) → Elsewhere x → ¬ SameKey x e
    Elsewhere-differs x i k = elim i [
      | inl p ↦ InPath-differs v path (node e l r) x e w p (inl refl) k
      | inr (inl b) ↦ (All-in (IsBelow (length path) true e) l x here.2 b).other (sym k.0, sym k.1)
      | inr (inr b) ↦ (All-in (IsBelow (length path) false e) r x here.3 b).other (sym k.0, sym k.1)
    ]
      where
        here : IsTrie v (length path) (node e l r)
        here = IsTrie-of_plug v path (node e l r) w

    -- A record for the node's prefix stands in no other node.
    pub Outside-differs : (s : PfxRecord) → Outside s → ¬ IsFor s.prefix s.min_len e
    Outside-differs s (x, i, (k, _)) n = Elsewhere-differs x i (k.0 ∙ sym n.0, k.1 ∙ sym n.1)

    -- Other data make no difference to the tree.
    pub IsTrie-with_data :
        (d : NodeData) → IsTrie v 0 (plug path (node (record e { payload = d }) l r))
    IsTrie-with_data d =
        IsTrie-plug v path (node e l r) (node (record e { payload = d }) l r) keys same w
      where
        keys : SubKeys (node (record e { payload = d }) l r) (node e l r)
        keys x (inl p) = (e, inl refl, rw p (refl, refl))
        keys x (inr i) = (x, inr i, (refl, refl))

        below :
            (b : Bool) (x : Entry NodeData)
            → IsBelow (length path) b e x
            → IsBelow (length path) b (record e { payload = d }) x
        below b x h = record { heap = h.heap; side = h.side; other = h.other }

        same :
            IsTrie v (length path) (node e l r)
            → IsTrie v (length path) (node (record e { payload = d }) l r)
        same t = (
          t.0,
          record {
            version = t.1.version;
            words = t.1.words;
            fits = t.1.fits;
            canonical = t.1.canonical;
          },
          All-map _ _ l (below true) t.2,
          All-map _ _ r (below false) t.3,
          t.4,
          t.5,
        )
