-- ===== src/Trie/Insert.antt =====
-- trie_insert: what it holds afterwards, and that it keeps the tree well formed.
use rtrlib.Prelude.{
  ℕ, suc, ◌≤◌, ◌<◌, ◌≡◌, ◌↔◌, ◌⊎◌, inl, inr, sym, subst, ◌∙◌, ltb, Bool, true, false, arith,
  Bool-cases,
}
use native.Mathlib.Decide.{dec_lt}
use native.Mathlib.Nat.{le_trans, le_antisymm}
use rtrlib.Ip.{IpVersion, ver, width, is_left_child}
use rtrlib.Ip.Laws.{Agree, eq_of_Agree, Agree-suc}
use rtrlib.Trie.Defs.{Entry, Trie, null, node, kept, moved, trie_insert}
use rtrlib.Trie.Invariant.{All, In, IsEntry, SameKey, IsBelow, IsTrie, All-map}

module _ {D : Type 0} where
  -- trie_insert, with swap_nodes, keeps all entries of any tree and adds the new one: an entry stands in the
  -- resulting tree exactly if it is the new one or stood in the tree before.
  pub In-trie_insert :
      (x : Entry D) (t : Trie D) (new : Entry D) (lvl : ℕ)
      → In x (trie_insert t new lvl) ↔ ((x ≡ new) ⊎ In x t)
  unfolding trie_insert
  In-trie_insert x null new lvl = ground arith
  In-trie_insert x (node e l r) new lvl = ground (
    arith,
    In-trie_insert x l (moved e new) (suc lvl),
    In-trie_insert x r (moved e new) (suc lvl),
  )

  All-trie_insert :
      (P : Entry D → Type 0) (t : Trie D) (new : Entry D) (lvl : ℕ)
      → All P t
      → P new
      → All P (trie_insert t new lvl)
  unfolding trie_insert
  All-trie_insert P null new lvl a h = (h, tt, tt)
  All-trie_insert P (node e l r) new lvl a h = ground (
    arith,
    All-trie_insert P l (moved e new) (suc lvl),
    All-trie_insert P r (moved e new) (suc lvl),
  )

  -- `k` stays in a node of level `lvl`, and `m` goes down from it.
  record Split (v : IpVersion) (lvl : ℕ) (k m : Entry D) : Type 0 where
    level : lvl ≤ k.len
    order : k.len ≤ m.len
    stays : IsEntry v k
    goes : IsEntry v m
    agree : Agree k.prefix m.prefix lvl
    other : ¬ SameKey k m

  -- Two prefixes of a length that is all used up would be the same.
  same_of_used_up :
      (v : IpVersion) (lvl : ℕ) (k m : Entry D) → Split v lvl k m → m.len ≤ lvl → SameKey k m
  same_of_used_up v lvl k m s h = (
    eq_of_Agree k.prefix m.prefix s.stays.words s.goes.words (s.stays.version ∙ sym s.goes.version)
        (λ i b. bits i b),
    le_antisymm s.order (le_trans h s.level),
  )
    where
      bits : Agree k.prefix m.prefix (width (ver k.prefix))
      bits i b = elim (dec_lt i lvl) [
        | yes low ↦ s.agree i low
        | no high ↦
            s.stays.canonical i (omega (arith, s.order)) (rw s.stays.version at b)
            ∙ sym (s.goes.canonical i (omega arith) (rw s.stays.version at b))
      ]

  lt-len_of_Split : (v : IpVersion) (lvl : ℕ) (k m : Entry D) → Split v lvl k m → lvl < m.len
  lt-len_of_Split v lvl k m s = elim (dec_lt lvl m.len) [
    | yes h ↦ h
    | no h ↦ absurd (s.other (same_of_used_up v lvl k m s (omega arith)))
  ]

  IsBelow-of_Split :
      (v : IpVersion) (lvl : ℕ) (left : Bool) (k m : Entry D)
      → Split v lvl k m
      → is_left_child m.prefix lvl ≡ left
      → IsBelow lvl left k m
  IsBelow-of_Split v lvl left k m s h = record { heap = s.order; side = h; other = s.other }

  -- What is known of the entries of a tree into which `new` goes.
  abbrev pub Admits : ℕ → Entry D → Entry D → Type 0
  Admits lvl new x = Agree x.prefix new.prefix lvl × (¬ SameKey x new)

  -- The facts under which one step of trie_insert is taken, with `k` and `m` chosen.
  record Step (v : IpVersion) (lvl : ℕ) (k m : Entry D) (l r : Trie D) : Type 0 where
    split : Split v lvl k m
    below_l : All (IsBelow lvl true k) l
    below_r : All (IsBelow lvl false k) r
    left : IsTrie v (suc lvl) l
    right : IsTrie v (suc lvl) r
    admits_l : All (Admits lvl m) l
    admits_r : All (Admits lvl m) r

  Admits-suc :
      (lvl : ℕ) (k m x : Entry D) (side : Bool)
      → is_left_child m.prefix lvl ≡ side
      → Admits lvl m x × IsBelow lvl side k x
      → Admits (suc lvl) m x
  Admits-suc lvl k m x side e (a, b) = (Agree-suc x.prefix m.prefix lvl a.0 (b.side ∙ sym e), a.1)

  All-both : (P Q : Entry D → Type 0) (t : Trie D) → All P t → All Q t → All (λ x. P x × Q x) t
  All-both P Q null a b = tt
  All-both P Q (node e l r) a b = ((a.0, b.0), All-both P Q l a.1 b.1, All-both P Q r a.2 b.2)

  IsTrie-left :
      (v : IpVersion) (lvl : ℕ) (k m : Entry D) (l r : Trie D)
      → Step v lvl k m l r
      → is_left_child m.prefix lvl ≡ true
      → (IsEntry v m
          → suc lvl ≤ m.len
          → All (Admits (suc lvl) m) l
          → IsTrie v (suc lvl) (trie_insert l m (suc lvl)))
      → IsTrie v lvl (node k (trie_insert l m (suc lvl)) r)
  IsTrie-left v lvl k m l r s e ih = (
    s.split.level,
    s.split.stays,
    All-trie_insert (IsBelow lvl true k) l m (suc lvl) s.below_l
        (IsBelow-of_Split v lvl true k m s.split e),
    s.below_r,
    ih s.split.goes (lt-len_of_Split v lvl k m s.split) (
        All-map _ _ l (λ x h. Admits-suc lvl k m x true e h)
          (All-both (Admits lvl m) (IsBelow lvl true k) l s.admits_l s.below_l)),
    s.right,
  )

  IsTrie-right :
      (v : IpVersion) (lvl : ℕ) (k m : Entry D) (l r : Trie D)
      → Step v lvl k m l r
      → is_left_child m.prefix lvl ≡ false
      → (IsEntry v m
          → suc lvl ≤ m.len
          → All (Admits (suc lvl) m) r
          → IsTrie v (suc lvl) (trie_insert r m (suc lvl)))
      → IsTrie v lvl (node k l (trie_insert r m (suc lvl)))
  IsTrie-right v lvl k m l r s e ih = (
    s.split.level,
    s.split.stays,
    s.below_l,
    All-trie_insert (IsBelow lvl false k) r m (suc lvl) s.below_r
        (IsBelow-of_Split v lvl false k m s.split e),
    s.left,
    ih s.split.goes (lt-len_of_Split v lvl k m s.split) (
        All-map _ _ r (λ x h. Admits-suc lvl k m x false e h)
          (All-both (Admits lvl m) (IsBelow lvl false k) r s.admits_r s.below_r)),
  )

  IsBelow-swap :
      (lvl : ℕ) (left : Bool) (e new x : Entry D)
      → new.len ≤ e.len
      → Admits lvl new x × IsBelow lvl left e x
      → IsBelow lvl left new x
  IsBelow-swap lvl left e new x h (a, b) = record {
    heap = le_trans h b.heap;
    side = b.side;
    other = λ same. a.1 (sym same.0, sym same.1);
  }

  Admits-swap :
      (lvl : ℕ) (left : Bool) (e new x : Entry D)
      → Admits lvl new e
      → Admits lvl new x × IsBelow lvl left e x
      → Admits lvl e x
  Admits-swap lvl left e new x h (a, b) =
      (λ i lt. a.0 i lt ∙ sym (h.0 i lt), λ same. b.other (sym same.0, sym same.1))

  -- The step where `new` stays above, and the step where it goes down.
  Step-swapped :
      (v : IpVersion) (lvl : ℕ) (e new : Entry D) (l r : Trie D)
      → IsTrie v lvl (node e l r)
      → IsEntry v new
      → lvl ≤ new.len
      → All (Admits lvl new) (node e l r)
      → new.len < e.len
      → Step v lvl new e l r
  Step-swapped v lvl e new l r t n h a lt =
      let le : new.len ≤ e.len = omega arith in
      let both_l = All-both (Admits lvl new) (IsBelow lvl true e) l a.1 t.2 in
      let both_r = All-both (Admits lvl new) (IsBelow lvl false e) r a.2 t.3 in
      record {
        split = record {
          level = h;
          order = le;
          stays = n;
          goes = t.1;
          agree = λ i b. sym (a.0.0 i b);
          other = λ same. a.0.1 (sym same.0, sym same.1);
        };
        below_l = All-map _ _ l (λ x. IsBelow-swap lvl true e new x le) both_l;
        below_r = All-map _ _ r (λ x. IsBelow-swap lvl false e new x le) both_r;
        left = t.4;
        right = t.5;
        admits_l = All-map _ _ l (λ x. Admits-swap lvl true e new x a.0) both_l;
        admits_r = All-map _ _ r (λ x. Admits-swap lvl false e new x a.0) both_r;
      }

  Step-kept :
      (v : IpVersion) (lvl : ℕ) (e new : Entry D) (l r : Trie D)
      → IsTrie v lvl (node e l r)
      → IsEntry v new
      → All (Admits lvl new) (node e l r)
      → e.len ≤ new.len
      → Step v lvl e new l r
  Step-kept v lvl e new l r t n a le = record {
    split = record { level = t.0; order = le; stays = t.1; goes = n; agree = a.0.0; other = a.0.1 };
    below_l = t.2;
    below_r = t.3;
    left = t.4;
    right = t.5;
    admits_l = a.1;
    admits_r = a.2;
  }

  Step-chosen :
      (v : IpVersion) (lvl : ℕ) (e new : Entry D) (l r : Trie D)
      → IsTrie v lvl (node e l r)
      → IsEntry v new
      → lvl ≤ new.len
      → All (Admits lvl new) (node e l r)
      → Step v lvl (kept e new) (moved e new) l r
  Step-chosen v lvl e new l r t n h a = elim (Bool-cases (ltb new.len e.len)) [
    | inl p ↦ rw p (Step-swapped v lvl e new l r t n h a (ground arith))
    | inr p ↦ rw p (Step-kept v lvl e new l r t n a (ground arith))
  ]

  trie_insert_left :
      (e : Entry D) (l r : Trie D) (new : Entry D) (lvl : ℕ)
      → is_left_child (moved e new).prefix lvl ≡ true
      → trie_insert (node e l r) new lvl
        ≡ node (kept e new) (trie_insert l (moved e new) (suc lvl)) r
  unfolding trie_insert
  trie_insert_left e l r new lvl b = ground arith

  trie_insert_right :
      (e : Entry D) (l r : Trie D) (new : Entry D) (lvl : ℕ)
      → is_left_child (moved e new).prefix lvl ≡ false
      → trie_insert (node e l r) new lvl
        ≡ node (kept e new) l (trie_insert r (moved e new) (suc lvl))
  unfolding trie_insert
  trie_insert_right e l r new lvl b = ground arith

  -- trie_insert at level `lvl` keeps a tree well formed, for a new entry of its version with words of 32
  -- bits, a length within its width and no bit set behind it,
  -- that is at least `lvl` long, agrees with the tree's entries in the first `lvl` bits, and is for a prefix
  -- that the tree does not hold.
  pub trie_insert-IsTrie :
      (v : IpVersion) (lvl : ℕ) (t : Trie D) (new : Entry D)
      → IsTrie v lvl t
      → IsEntry v new
      → lvl ≤ new.len
      → All (Admits lvl new) t
      → IsTrie v lvl (trie_insert t new lvl)
  unfolding trie_insert
  trie_insert-IsTrie v lvl null new t n h a = (h, n, tt, tt, tt, tt)
  trie_insert-IsTrie v lvl (node e l r) new t n h a =
      let m = moved e new in
      let s = Step-chosen v lvl e new l r t n h a in
      elim (Bool-cases (is_left_child m.prefix lvl)) [
        | inl b ↦
            subst (IsTrie v lvl) (sym (trie_insert_left e l r new lvl b))
              (IsTrie-left v lvl (kept e new) m l r s b (trie_insert-IsTrie v (suc lvl) l m s.left))
        | inr b ↦
            subst (IsTrie v lvl) (sym (trie_insert_right e l r new lvl b)) (
              IsTrie-right v lvl (kept e new) m l r s b
                (trie_insert-IsTrie v (suc lvl) r m s.right))
      ]
