-- ===== src/Trie/Invariant.antt =====
-- When a tree of pfx/trie/trie.c is well formed, and what follows for any entry below a node.
use rtrlib.Prelude.{refl, ℕ, suc, ◌≤◌, ◌<◌, ◌≡◌, ◌⊎◌, inl, inr, Bool, true, false, arith}
use rtrlib.Ip.{IpVersion, ver, width, IsWords, is_left_child}
use rtrlib.Trie.Defs.{Entry, Trie, null, node}

module _ {D : Type 0} where
  -- Every entry of the tree has the property.
  abbrev pub All : (Entry D → Type 0) → Trie D → Type 0
  All P null = Unit {0}
  All P (node e l r) = P e × All P l × All P r

  -- The entry stands in the tree.
  abbrev pub In : Entry D → Trie D → Type 0
  In x null = ⊥
  In x (node e l r) = (x ≡ e) ⊎ In x l ⊎ In x r

  pub All-in : (P : Entry D → Type 0) (t : Trie D) (x : Entry D) → All P t → In x t → P x
  All-in P null x a h = elim h [ ]
  All-in P (node e l r) x a h = ground (arith, All-in P l x, All-in P r x)

  pub All-of_In : (P : Entry D → Type 0) (t : Trie D) → ((x : Entry D) → In x t → P x) → All P t
  All-of_In P null h = tt
  All-of_In P (node e l r) h = (
    h e (inl refl),
    All-of_In P l (λ x m. h x (inr (inl m))),
    All-of_In P r (λ x m. h x (inr (inr m))),
  )

  pub All-map :
      (P Q : Entry D → Type 0) (t : Trie D) → ((x : Entry D) → P x → Q x) → All P t → All Q t
  All-map P Q null f a = tt
  All-map P Q (node e l r) f a = (f e a.0, All-map P Q l f a.1, All-map P Q r f a.2)

  -- An entry that the tree of version `v` may hold: no bit is set behind its length.
  pub record IsEntry (v : IpVersion) (e : Entry D) : Type 0 where
    pub version : ver e.prefix ≡ v
    pub words : IsWords e.prefix
    pub fits : e.len ≤ width v
    pub canonical : (i : ℕ) → e.len ≤ i → i < width v → is_left_child e.prefix i ≡ true

  -- The two entries are for the same prefix.
  abbrev pub SameKey : Entry D → Entry D → Type 0
  SameKey e x = (e.prefix ≡ x.prefix) × (e.len ≡ x.len)

  -- What an entry `x` below a node of level `lvl` with entry `e` keeps: its prefix is as long, it is for
  -- another prefix, and bit `lvl` says on which side it stands.
  pub record IsBelow (lvl : ℕ) (left : Bool) (e x : Entry D) : Type 0 where
    pub heap : e.len ≤ x.len
    pub side : is_left_child x.prefix lvl ≡ left
    pub other : ¬ SameKey e x

  -- A tree whose root has level `lvl`.
  abbrev pub IsTrie : IpVersion → ℕ → Trie D → Type 0
  IsTrie v lvl null = Unit {0}
  IsTrie v lvl (node e l r) =
      (lvl ≤ e.len)
      × IsEntry v e
      × All (IsBelow lvl true e) l
      × All (IsBelow lvl false e) r
      × IsTrie v (suc lvl) l
      × IsTrie v (suc lvl) r
