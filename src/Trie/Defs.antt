-- ===== src/Trie/Defs.antt =====
-- The operations of pfx/trie/trie.c.
use mathlib.Core.Option
use rtrlib.Prelude.{
  ℕ, zero, suc, Bool, true, false, ◌&&◌, ◌==◌, ltb, leb, if◌then◌else◌, Option, none, some, List,
  [], ◌∷◌, ◌++◌,
}
use rtrlib.Ip.{IpAddr, rtr_ip_addr_equal, is_left_child, equal_bits}

-- The fields of a trie_node but its pointers.
pub record Entry (D : Type 0) : Type 0 where
  pub prefix : IpAddr
  pub len : ℕ
  pub payload : D

pub data Trie (D : Type 0) : Type 0 where
  null : Trie D
  node : Entry D → Trie D → Trie D → Trie D

-- The node that trie_lookup returns, with the level that it leaves in `*lvl`.
pub record Hit (D : Type 0) : Type 0 where
  pub at : Trie D
  pub lvl : ℕ

-- One step of a walk from the root: the parent's entry, the side taken, the subtree not taken.
pub record Crumb (D : Type 0) : Type 0 where
  pub parent : Entry D
  pub left : Bool
  pub sibling : Trie D

-- What trie_lookup_exact returns: `*found`, `*lvl`, and the node with the way up from it. `focus` is
-- `null` where NULL is returned.
pub record Position (D : Type 0) : Type 0 where
  pub found : Bool
  pub lvl : ℕ
  pub path : List (Crumb D)
  pub focus : Trie D

-- A node that trie_remove took out of the tree, and the tree that is left.
pub record Removed (D : Type 0) : Type 0 where
  pub gone : Entry D
  pub rest : Trie D

-- The way that trie_remove goes on from the node that it empties.
pub data Lift : Type 0 where
  is_leaf from_left from_right : Lift

abbrev pub lvl_above : ℕ → ℕ
lvl_above zero = zero
lvl_above (suc lvl) = lvl

module _ {D : Type 0} where
  -- The test at the head of trie_insert, with swap_nodes: what stays in the node, and what goes down.
  abbrev pub kept : Entry D → Entry D → Entry D
  kept root new = if ltb new.len root.len then new else root

  abbrev pub moved : Entry D → Entry D → Entry D
  moved root new = if ltb new.len root.len then root else new

  -- A call at a missing child is add_child_node at its parent.
  unfoldable pub trie_insert : Trie D → Entry D → ℕ → Trie D
  trie_insert null new lvl = node new null null
  trie_insert (node e l r) new lvl = elim (is_left_child (moved e new).prefix lvl) [
    | true ↦ node (kept e new) (trie_insert l (moved e new) (suc lvl)) r
    | false ↦ node (kept e new) l (trie_insert r (moved e new) (suc lvl))
  ]

  unfoldable pub trie_lookup : Trie D → IpAddr → ℕ → ℕ → Hit D
  trie_lookup null prefix mask_len lvl = record { at = null; lvl = lvl }
  trie_lookup (node e l r) prefix mask_len lvl =
      elim (leb e.len mask_len && equal_bits e.prefix prefix e.len) [
        | true ↦ record { at = node e l r; lvl = lvl }
        | false ↦ elim (is_left_child prefix lvl) [
          | true ↦ trie_lookup l prefix mask_len (suc lvl)
          | false ↦ trie_lookup r prefix mask_len (suc lvl)
        ]
      ]

  abbrev pub is_null : Trie D → Bool
  is_null null = true
  is_null (node e l r) = false

  abbrev pub join : Crumb D → Trie D → Trie D
  join c t = if c.left then node c.parent t c.sibling else node c.parent c.sibling t

  -- The whole tree, from a place in it.
  unfoldable pub plug : List (Crumb D) → Trie D → Trie D
  plug [] t = t
  plug (c ∷ path) t = plug path (join c t)

  -- `(*lvl)--; return root_node->parent;`
  abbrev pub parent_of : ℕ → List (Crumb D) → Trie D → Position D
  parent_of lvl [] t = record { found = false; lvl = lvl_above lvl; path = []; focus = null }
  parent_of lvl (c ∷ path) t = record {
    found = false;
    lvl = lvl_above lvl;
    path = path;
    focus = join c t;
  }

  abbrev pub prefix_is_same : Entry D → IpAddr → ℕ → Bool
  prefix_is_same n p mask_len = n.len == mask_len && rtr_ip_addr_equal n.prefix p

  -- The loop stands at a node of level `lvl` that it reached by `path`.
  unfoldable pub trie_lookup_exact : Trie D → IpAddr → ℕ → ℕ → List (Crumb D) → Position D
  trie_lookup_exact null prefix mask_len lvl path = record {
    found = false;
    lvl = lvl;
    path = path;
    focus = null;
  }
  trie_lookup_exact (node e l r) prefix mask_len lvl path = elim (ltb 0 lvl && ltb mask_len e.len) [
    | true ↦ parent_of lvl path (node e l r)
    | false ↦ elim (prefix_is_same e prefix mask_len) [
      | true ↦ record { found = true; lvl = lvl; path = path; focus = node e l r }
      | false ↦ elim (is_left_child prefix lvl) [
        | true ↦ elim (is_null l) [
          | true ↦ record { found = false; lvl = lvl; path = path; focus = node e l r }
          | false ↦
              trie_lookup_exact l prefix mask_len (suc lvl)
                (record { parent = e; left = true; sibling = r } ∷ path)
        ]
        | false ↦ elim (is_null r) [
          | true ↦ record { found = false; lvl = lvl; path = path; focus = node e l r }
          | false ↦
              trie_lookup_exact r prefix mask_len (suc lvl)
                (record { parent = e; left = false; sibling = l } ∷ path)
        ]
      ]
    ]
  ]

  -- Which child trie_remove swaps with: the one with the shorter prefix, the right one on a tie.
  abbrev pub lift : Trie D → Trie D → Lift
  lift null null = is_leaf
  lift (node a al ar) null = from_left
  lift null (node b bl br) = from_right
  lift (node a al ar) (node b bl br) = if ltb a.len b.len then from_left else from_right

  -- replace_node_data of the entry `e` by the entry of a child.
  abbrev pub replace_node_data : Entry D → Trie D → Entry D
  replace_node_data e null = e
  replace_node_data e (node c l r) = c

  -- The first branch of trie_remove, at a node whose data pointer is `tmp`. The recursive call is made
  -- with the child's own prefix and length, so it takes the first branch again.
  unfoldable pub remove_matched : Trie D → D → Option (Removed D)
  remove_matched null tmp = none
  remove_matched (node e l r) tmp = elim (lift l r) [
    | is_leaf ↦ some (record { gone = record e { payload = tmp }; rest = null })
    | from_left ↦
        Option.map
          (λ (x : Removed D). record {
            gone = x.gone;
            rest = node (replace_node_data e l) x.rest r;
          })
          (remove_matched l tmp)
    | from_right ↦
        Option.map
          (λ (x : Removed D). record {
            gone = x.gone;
            rest = node (replace_node_data e r) l x.rest;
          })
          (remove_matched r tmp)
  ]

  unfoldable pub trie_remove : Trie D → IpAddr → ℕ → ℕ → Option (Removed D)
  unfolding remove_matched
  trie_remove null prefix mask_len lvl = none
  trie_remove (node e l r) prefix mask_len lvl = elim (prefix_is_same e prefix mask_len) [
    | true ↦ remove_matched (node e l r) e.payload
    | false ↦ elim (is_left_child prefix lvl) [
      | true ↦
          Option.map (λ (x : Removed D). record { gone = x.gone; rest = node e x.rest r })
            (trie_remove l prefix mask_len (suc lvl))
      | false ↦
          Option.map (λ (x : Removed D). record { gone = x.gone; rest = node e l x.rest })
            (trie_remove r prefix mask_len (suc lvl))
    ]
  ]

  -- The array that trie_get_children fills, where no allocation fails.
  unfoldable pub trie_get_children : Trie D → List (Trie D)
  trie_get_children null = []
  trie_get_children (node e l r) =
      (if is_null l then [] else l ∷ trie_get_children l)
      ++ (if is_null r then [] else r ∷ trie_get_children r)
