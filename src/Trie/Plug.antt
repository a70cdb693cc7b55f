-- ===== src/Trie/Plug.antt =====
-- A change at one place of a tree, as the callers of pfx/trie/trie.c make it through a node's pointer.
use rtrlib.Ip.{is_left_child}
use rtrlib.Prelude.{
  not, subst, ap, ◌∙◌, ℕ, suc, ◌≡◌, ◌↔◌, ◌⊎◌, inl, inr, refl, sym, Bool, true, false, arith,
  Bool-cases, List, [], ◌∷◌, length,
}
use rtrlib.Ip.{IpVersion}
use rtrlib.Trie.Defs.{Entry, Trie, Crumb, plug, join}
use rtrlib.Trie.Invariant.{All, In, All-in, All-of_In, SameKey, IsBelow, IsTrie}

not_self : (b : Bool) → b ≡ not b → ⊥
not_self true h = cc
not_self false h = cc

module _ {D : Type 0} where
  -- The entry stands on the way or beside it.
  abbrev pub InPath : Entry D → List (Crumb D) → Type 0
  InPath x [] = ⊥
  InPath x (c ∷ path) = (x ≡ c.parent) ⊎ In x c.sibling ⊎ InPath x path

  In-join :
      (x : Entry D) (c : Crumb D) (t : Trie D)
      → In x (join c t) ↔ ((x ≡ c.parent) ⊎ In x c.sibling ⊎ In x t)
  In-join x c t = elim (Bool-cases c.left) [
    | inl e ↦ rw e (ground arith)
    | inr e ↦ rw e (ground arith)
  ]

  pub In-plug :
      (x : Entry D) (path : List (Crumb D)) (t : Trie D)
      → In x (plug path t) ↔ (InPath x path ⊎ In x t)
  unfolding plug
  In-plug x [] t = ground arith
  In-plug x (c ∷ path) t = ground (arith, In-plug x path (join c t), In-join x c t)

  -- Every entry of `t'` is for a prefix that `t` has.
  abbrev pub SubKeys : Trie D → Trie D → Type 0
  SubKeys t' t = (x : Entry D) → In x t' → (y : Entry D) × In y t × SameKey y x

  IsBelow-SameKey :
      (lvl : ℕ) (left : Bool) (e x y : Entry D)
      → SameKey y x
      → IsBelow lvl left e y
      → IsBelow lvl left e x
  IsBelow-SameKey lvl left e x y (p, n) b = record {
    heap = rw (← n) b.heap;
    side = rw (← p) b.side;
    other = λ same. b.other (same.0 ∙ sym p, same.1 ∙ sym n);
  }

  All-SubKeys :
      (lvl : ℕ) (left : Bool) (e : Entry D) (t t' : Trie D)
      → SubKeys t' t
      → All (IsBelow lvl left e) t
      → All (IsBelow lvl left e) t'
  All-SubKeys lvl left e t t' s a = All-of_In (IsBelow lvl left e) t' λ x i.
      let (y, iy, k) = s x i in
      IsBelow-SameKey lvl left e x y k (All-in (IsBelow lvl left e) t y a iy)

  SubKeys-join : (c : Crumb D) (t t' : Trie D) → SubKeys t' t → SubKeys (join c t') (join c t)
  SubKeys-join c t t' s x i = elim ((In-join x c t').0 i) [
    | inl e ↦ (x, (In-join x c t).1 (inl e), (refl, refl))
    | inr (inl b) ↦ (x, (In-join x c t).1 (inr (inl b)), (refl, refl))
    | inr (inr b) ↦ let (y, iy, k) = s x b in (y, (In-join y c t).1 (inr (inr iy)), k)
  ]

  IsTrie-join :
      (v : IpVersion) (lvl : ℕ) (c : Crumb D) (t t' : Trie D)
      → SubKeys t' t
      → (IsTrie v (suc lvl) t → IsTrie v (suc lvl) t')
      → IsTrie v lvl (join c t)
      → IsTrie v lvl (join c t')
  IsTrie-join v lvl c t t' s f = elim (Bool-cases c.left) [
    | inl e ↦ rw e λ w. (w.0, w.1, All-SubKeys lvl true c.parent t t' s w.2, w.3, f w.4, w.5)
    | inr e ↦ rw e λ w. (w.0, w.1, w.2, All-SubKeys lvl false c.parent t t' s w.3, w.4, f w.5)
  ]

  -- A place may be given another tree that keeps its level and brings no new prefix.
  pub IsTrie-plug :
      (v : IpVersion) (path : List (Crumb D)) (t t' : Trie D)
      → SubKeys t' t
      → (IsTrie v (length path) t → IsTrie v (length path) t')
      → IsTrie v 0 (plug path t)
      → IsTrie v 0 (plug path t')
  unfolding plug
  IsTrie-plug v [] t t' s f w = f w
  IsTrie-plug v (c ∷ path) t t' s f w =
      IsTrie-plug v path (join c t) (join c t') (SubKeys-join c t t' s)
        (IsTrie-join v (length path) c t t' s f) w

  IsTrie-of_join :
      (v : IpVersion) (lvl : ℕ) (c : Crumb D) (t : Trie D)
      → IsTrie v lvl (join c t)
      → IsTrie v (suc lvl) t
  IsTrie-of_join v lvl c t = elim (Bool-cases c.left) [
    | inl e ↦ rw e λ w. w.4
    | inr e ↦ rw e λ w. w.5
  ]

  pub IsTrie-of_plug :
      (v : IpVersion) (path : List (Crumb D)) (t : Trie D)
      → IsTrie v 0 (plug path t)
      → IsTrie v (length path) t
  unfolding plug
  IsTrie-of_plug v [] t w = w
  IsTrie-of_plug v (c ∷ path) t w =
      IsTrie-of_join v (length path) c t (IsTrie-of_plug v path (join c t) w)

  -- An entry on the way or beside it is for another prefix than one at the place.
  pub InPath-differs :
      (v : IpVersion) (path : List (Crumb D)) (t : Trie D) (x y : Entry D)
      → IsTrie v 0 (plug path t)
      → InPath x path
      → In y t
      → ¬ SameKey x y
  unfolding plug
  InPath-differs v [] t x y w i j k = i
  InPath-differs v (c ∷ path) t x y w i j k = elim i [
    | inl e ↦ (parent_below w').other (subst (λ z. SameKey z y) e k)
    | inr (inl b) ↦ sibling_differs w' b
    | inr (inr p) ↦ InPath-differs v path (join c t) x y w p ((In-join y c t).1 (inr (inr j))) k
  ]
    where
      w' : IsTrie v (length path) (join c t)
      w' = IsTrie-of_plug v path (join c t) w

      parent_below : IsTrie v (length path) (join c t) → IsBelow (length path) c.left c.parent y
      parent_below = elim (Bool-cases c.left) [
        | inl e ↦ rw e λ u. All-in (IsBelow (length path) true c.parent) t y u.2 j
        | inr e ↦ rw e λ u. All-in (IsBelow (length path) false c.parent) t y u.3 j
      ]

      side_of :
          IsTrie v (length path) (join c t)
          → In x c.sibling
          → is_left_child x.prefix (length path) ≡ not c.left
      side_of = elim (Bool-cases c.left) [
        | inl e ↦ rw e λ u b. (All-in (IsBelow (length path) false c.parent) c.sibling x u.3 b).side
        | inr e ↦ rw e λ u b. (All-in (IsBelow (length path) true c.parent) c.sibling x u.2 b).side
      ]

      sibling_differs : IsTrie v (length path) (join c t) → In x c.sibling → ⊥
      sibling_differs u b = not_self c.left (
          sym (parent_below u).side
          ∙ ap (λ a. is_left_child a (length path)) (sym k.0)
          ∙ side_of u b)
