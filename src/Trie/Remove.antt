-- ===== src/Trie/Remove.antt =====
-- trie_remove: it takes one entry out, and keeps the tree well formed.
use mathlib.Core.Bool.{false≢true}
use rtrlib.Prelude.{
  ap, ltb, ◌∙◌, ℕ, suc, ◌≤◌, ◌≡◌, ◌↔◌, ◌⊎◌, inl, inr, refl, sym, true, false, arith, Bool-cases,
  some,
}
use rtrlib.Ip.{IpVersion, is_left_child}
use rtrlib.Trie.Defs.{Entry, Trie, null, node, Removed, Lift, lift, remove_matched, is_null}
use rtrlib.Trie.Invariant.{In, All-in, All-of_In, SameKey, IsBelow, IsTrie}

module _ {D : Type 0} where
  -- The entry stands below the root.
  abbrev pub InBelow : Entry D → Trie D → Type 0
  InBelow x null = ⊥
  InBelow x (node e l r) = In x l ⊎ In x r

  -- No entry of the tree has a shorter prefix.
  abbrev IsLeast : Entry D → Trie D → Type 0
  IsLeast a t = (x : Entry D) → In x t → a.len ≤ x.len

  IsLeast-of_root :
      (v : IpVersion) (lvl : ℕ) (a b : Entry D) (l r : Trie D)
      → IsTrie v lvl (node b l r)
      → a.len ≤ b.len
      → IsLeast a (node b l r)
  IsLeast-of_root v lvl a b l r t h x i =
      ground (arith, All-in (IsBelow lvl true b) l x t.2, All-in (IsBelow lvl false b) r x t.3)

  sides_differ :
      (lvl : ℕ) (a x : Entry D)
      → SameKey a x
      → is_left_child a.prefix lvl ≡ true
      → is_left_child x.prefix lvl ≡ false
      → ⊥
  sides_differ lvl a x k p q = false≢true (sym q ∙ ap (λ n. is_left_child n lvl) (sym k.0) ∙ p)

  -- The entry `a` of the left child moves up, and leaves `l'` of that child.
  IsTrie-lifted_left :
      (v : IpVersion) (lvl : ℕ) (e a : Entry D) (al ar r l' : Trie D)
      → IsTrie v lvl (node e (node a al ar) r)
      → IsTrie v (suc lvl) l'
      → ((x : Entry D) → In x l' ↔ (In x al ⊎ In x ar))
      → IsLeast a r
      → IsTrie v lvl (node a l' r)
  IsTrie-lifted_left v lvl e a al ar r l' t w i least = (
    omega (arith, t.4.0),
    t.4.1,
    All-of_In (IsBelow lvl true a) l' below,
    All-of_In (IsBelow lvl false a) r beside,
    w,
    t.5,
  )
    where
      below : (x : Entry D) → In x l' → IsBelow lvl true a x
      below x h = elim ((i x).0 h) [
        | inl m ↦
            let b = All-in (IsBelow (suc lvl) true a) al x t.4.2 m in
            record {
              heap = b.heap;
              side = (All-in (IsBelow lvl true e) al x t.2.1 m).side;
              other = b.other;
            }
        | inr m ↦
            let b = All-in (IsBelow (suc lvl) false a) ar x t.4.3 m in
            record {
              heap = b.heap;
              side = (All-in (IsBelow lvl true e) ar x t.2.2 m).side;
              other = b.other;
            }
      ]

      beside : (x : Entry D) → In x r → IsBelow lvl false a x
      beside x h =
          let b = (All-in (IsBelow lvl false e) r x t.3 h).side in
          record { heap = least x h; side = b; other = λ k. sides_differ lvl a x k t.2.0.side b }

  -- The entry `b` of the right child moves up, and leaves `r'` of that child.
  IsTrie-lifted_right :
      (v : IpVersion) (lvl : ℕ) (e b : Entry D) (l bl br r' : Trie D)
      → IsTrie v lvl (node e l (node b bl br))
      → IsTrie v (suc lvl) r'
      → ((x : Entry D) → In x r' ↔ (In x bl ⊎ In x br))
      → IsLeast b l
      → IsTrie v lvl (node b l r')
  IsTrie-lifted_right v lvl e b l bl br r' t w i least = (
    omega (arith, t.5.0),
    t.5.1,
    All-of_In (IsBelow lvl true b) l beside,
    All-of_In (IsBelow lvl false b) r' below,
    t.4,
    w,
  )
    where
      below : (x : Entry D) → In x r' → IsBelow lvl false b x
      below x h = elim ((i x).0 h) [
        | inl m ↦
            let k = All-in (IsBelow (suc lvl) true b) bl x t.5.2 m in
            record {
              heap = k.heap;
              side = (All-in (IsBelow lvl false e) bl x t.3.1 m).side;
              other = k.other;
            }
        | inr m ↦
            let k = All-in (IsBelow (suc lvl) false b) br x t.5.3 m in
            record {
              heap = k.heap;
              side = (All-in (IsBelow lvl false e) br x t.3.2 m).side;
              other = k.other;
            }
      ]

      beside : (x : Entry D) → In x l → IsBelow lvl true b x
      beside x h =
          let k = (All-in (IsBelow lvl true e) l x t.2 h).side in
          record {
            heap = least x h;
            side = k;
            other = λ same. sides_differ lvl x b (sym same.0, sym same.1) k t.3.0.side;
          }

  -- What trie_remove does at the node for the prefix: it gives back the node's data, and leaves a
  -- well formed tree of exactly the entries below the node.
  pub record RemovedFrom (v : IpVersion) (lvl : ℕ) (t : Trie D) (d : D) (x : Removed D)
      : Type 0 where
    pub payload : x.gone.payload ≡ d
    pub well_formed : IsTrie v lvl x.rest
    pub entries : (y : Entry D) → In y x.rest ↔ InBelow y t

  lift_left :
      (v : IpVersion) (lvl : ℕ) (e a : Entry D) (al ar r : Trie D) (d : D)
      → IsTrie v lvl (node e (node a al ar) r)
      → lift (node a al ar) r ≡ Lift.from_left
      → IsLeast a r
      → (x : Removed D) × (remove_matched (node a al ar) d ≡ some x)
        × RemovedFrom v (suc lvl) (node a al ar) d x
      → (x : Removed D) × (remove_matched (node e (node a al ar) r) d ≡ some x)
        × RemovedFrom v lvl (node e (node a al ar) r) d x
  unfolding remove_matched
  lift_left v lvl e a al ar r d t h least (x, q, f) = (
    record { gone = x.gone; rest = node a x.rest r },
    ground arith,
    record {
      payload = f.payload;
      well_formed = IsTrie-lifted_left v lvl e a al ar r x.rest t f.well_formed f.entries least;
      entries = λ y. ground (arith, f.entries y);
    },
  )

  lift_right :
      (v : IpVersion) (lvl : ℕ) (e b : Entry D) (l bl br : Trie D) (d : D)
      → IsTrie v lvl (node e l (node b bl br))
      → lift l (node b bl br) ≡ Lift.from_right
      → IsLeast b l
      → (x : Removed D) × (remove_matched (node b bl br) d ≡ some x)
        × RemovedFrom v (suc lvl) (node b bl br) d x
      → (x : Removed D) × (remove_matched (node e l (node b bl br)) d ≡ some x)
        × RemovedFrom v lvl (node e l (node b bl br)) d x
  unfolding remove_matched
  lift_right v lvl e b l bl br d t h least (x, q, f) = (
    record { gone = x.gone; rest = node b l x.rest },
    ground arith,
    record {
      payload = f.payload;
      well_formed = IsTrie-lifted_right v lvl e b l bl br x.rest t f.well_formed f.entries least;
      entries = λ y. ground (arith, f.entries y);
    },
  )

  pub remove_matched_lem :
      (v : IpVersion) (lvl : ℕ) (t : Trie D) (d : D)
      → IsTrie v lvl t
      → is_null t ≡ false
      → (x : Removed D) × (remove_matched t d ≡ some x) × RemovedFrom v lvl t d x
  unfolding remove_matched
  remove_matched_lem v lvl null d t n = cc
  remove_matched_lem v lvl (node e null null) d t n = (
    record { gone = record e { payload = d }; rest = null },
    refl,
    record { payload = refl; well_formed = tt; entries = λ y. ground arith },
  )
  remove_matched_lem v lvl (node e (node a al ar) null) d t n =
      lift_left v lvl e a al ar null d t refl (λ x h. absurd h)
        (remove_matched_lem v (suc lvl) (node a al ar) d t.4 refl)
  remove_matched_lem v lvl (node e null (node b bl br)) d t n =
      lift_right v lvl e b null bl br d t refl (λ x h. absurd h)
        (remove_matched_lem v (suc lvl) (node b bl br) d t.5 refl)
  remove_matched_lem v lvl (node e (node a al ar) (node b bl br)) d t n =
      let left = remove_matched_lem v (suc lvl) (node a al ar) d t.4 refl in
      let right = remove_matched_lem v (suc lvl) (node b bl br) d t.5 refl in
      elim (Bool-cases (ltb a.len b.len)) [
        | inl h ↦
            lift_left v lvl e a al ar (node b bl br) d t (ground arith)
              (IsLeast-of_root v (suc lvl) a b bl br t.5 (ground arith)) left
        | inr h ↦
            lift_right v lvl e b (node a al ar) bl br d t (ground arith)
              (IsLeast-of_root v (suc lvl) b a al ar t.4 (ground arith)) right
      ]
