-- ===== src/Trie/RemoveSpec.antt =====
-- trie_remove on a whole tree: it takes out exactly the entry for the prefix.
use mathlib.Core.Option
use mathlib.Core.Bool.{false≢true}
use rtrlib.Prelude.{
  ◌∙◌, subst, ℕ, suc, ◌≡◌, ◌↔◌, inl, inr, refl, sym, true, false, arith, Bool-cases, Option, none,
  some,
}
use rtrlib.Ip.{IpVersion, IpAddr, is_left_child}
use rtrlib.Trie.Defs.{Entry, Trie, null, node, Removed, remove_matched, trie_remove, prefix_is_same}
use rtrlib.Trie.Invariant.{In, All-in, All-of_In, IsBelow, IsTrie}
use rtrlib.Trie.Exact.{IsFor, prefix_is_same_iff}
use rtrlib.Trie.Remove.{RemovedFrom, remove_matched_lem}

module _ {D : Type 0} where
  -- The removed node carries the data of the entry for the prefix, and all other entries stay.
  pub record TookOut (v : IpVersion) (lvl : ℕ) (t : Trie D) (p : IpAddr) (m : ℕ) (x : Removed D)
      : Type 0 where
    pub well_formed : IsTrie v lvl x.rest
    pub entries : (y : Entry D) → In y x.rest ↔ (In y t × (¬ IsFor p m y))
    pub entry : Entry D
    pub entry_in : In entry t
    pub entry_for : IsFor p m entry
    pub payload : x.gone.payload ≡ entry.payload

  abbrev pub RemoveIs : IpVersion → ℕ → Trie D → IpAddr → ℕ → Option (Removed D) → Type 0
  RemoveIs v lvl t p m none = (y : Entry D) → In y t → ¬ IsFor p m y
  RemoveIs v lvl t p m (some x) = TookOut v lvl t p m x

  here :
      (v : IpVersion) (lvl : ℕ) (e : Entry D) (l r : Trie D) (p : IpAddr) (m : ℕ)
      → IsTrie v lvl (node e l r)
      → IsFor p m e
      → (o : Option (Removed D))
      → (x : Removed D) × (o ≡ some x) × RemovedFrom v lvl (node e l r) e.payload x
      → RemoveIs v lvl (node e l r) p m o
  here v lvl e l r p m t k none (x, q, f) = cc
  here v lvl e l r p m t k (some z) (x, q, f) =
      let zx : z ≡ x = ground arith in
      record {
        well_formed = rw zx f.well_formed;
        entries = λ y. rw zx (
            ground (
              arith,
              f.entries y,
              All-in (IsBelow lvl true e) l y t.2,
              All-in (IsBelow lvl false e) r y t.3,
            ));
        entry = e;
        entry_in = inl refl;
        entry_for = k;
        payload = rw zx f.payload;
      }

  -- The recursive call went to the left child.
  below_left :
      (v : IpVersion) (lvl : ℕ) (e : Entry D) (l r : Trie D) (p : IpAddr) (m : ℕ)
      → IsTrie v lvl (node e l r)
      → (¬ IsFor p m e)
      → is_left_child p lvl ≡ true
      → (o : Option (Removed D)) → RemoveIs v (suc lvl) l p m o
      → RemoveIs v lvl
          (node e l r)
          p
          m
          (Option.map (λ (x : Removed D). record { gone = x.gone; rest = node e x.rest r }) o)
  below_left v lvl e l r p m t no_e b none f =
      λ y i k. ground (arith, f y, All-in (IsBelow lvl false e) r y t.3)
  below_left v lvl e l r p m t no_e b (some x) f = record {
    well_formed = (
      t.0,
      t.1,
      All-of_In (IsBelow lvl true e) x.rest
          (λ y i. All-in (IsBelow lvl true e) l y t.2 ((f.entries y).0 i).0),
      t.3,
      f.well_formed,
      t.5,
    );
    entries = λ y. ground (arith, f.entries y, All-in (IsBelow lvl false e) r y t.3);
    entry = f.entry;
    entry_in = inr (inl f.entry_in);
    entry_for = f.entry_for;
    payload = f.payload;
  }

  below_right :
      (v : IpVersion) (lvl : ℕ) (e : Entry D) (l r : Trie D) (p : IpAddr) (m : ℕ)
      → IsTrie v lvl (node e l r)
      → (¬ IsFor p m e)
      → is_left_child p lvl ≡ false
      → (o : Option (Removed D)) → RemoveIs v (suc lvl) r p m o
      → RemoveIs v lvl
          (node e l r)
          p
          m
          (Option.map (λ (x : Removed D). record { gone = x.gone; rest = node e l x.rest }) o)
  below_right v lvl e l r p m t no_e b none f =
      λ y i k. ground (arith, f y, All-in (IsBelow lvl true e) l y t.2)
  below_right v lvl e l r p m t no_e b (some x) f = record {
    well_formed = (
      t.0,
      t.1,
      t.2,
      All-of_In (IsBelow lvl false e) x.rest
          (λ y i. All-in (IsBelow lvl false e) r y t.3 ((f.entries y).0 i).0),
      t.4,
      f.well_formed,
    );
    entries = λ y. ground (arith, f.entries y, All-in (IsBelow lvl true e) l y t.2);
    entry = f.entry;
    entry_in = inr (inr f.entry_in);
    entry_for = f.entry_for;
    payload = f.payload;
  }

  pub trie_remove_here :
      (e : Entry D) (l r : Trie D) (p : IpAddr) (m lvl : ℕ)
      → prefix_is_same e p m ≡ true
      → trie_remove (node e l r) p m lvl ≡ remove_matched (node e l r) e.payload
  unfolding trie_remove
  trie_remove_here e l r p m lvl h = ground arith

  trie_remove_left :
      (e : Entry D) (l r : Trie D) (p : IpAddr) (m lvl : ℕ)
      → prefix_is_same e p m ≡ false
      → is_left_child p lvl ≡ true
      → trie_remove (node e l r) p m lvl
        ≡ Option.map
            (λ (x : Removed D). record { gone = x.gone; rest = node e x.rest r })
            (trie_remove l p m (suc lvl))
  unfolding trie_remove
  trie_remove_left e l r p m lvl h b = ground arith

  trie_remove_right :
      (e : Entry D) (l r : Trie D) (p : IpAddr) (m lvl : ℕ)
      → prefix_is_same e p m ≡ false
      → is_left_child p lvl ≡ false
      → trie_remove (node e l r) p m lvl
        ≡ Option.map
            (λ (x : Removed D). record { gone = x.gone; rest = node e l x.rest })
            (trie_remove r p m (suc lvl))
  unfolding trie_remove
  trie_remove_right e l r p m lvl h b = ground arith

  -- On a well formed tree trie_remove returns NULL if no entry is for the prefix. Else it takes a node out
  -- that carries the data of the entry for the prefix, and the rest is well formed and has exactly the other
  -- entries.
  pub trie_remove_lem :
      (v : IpVersion) (lvl : ℕ) (t : Trie D) (p : IpAddr) (m : ℕ)
      → IsTrie v lvl t
      → RemoveIs v lvl t p m (trie_remove t p m lvl)
  unfolding trie_remove
  trie_remove_lem v lvl null p m t = λ y i k. i
  trie_remove_lem v lvl (node e l r) p m t =
      let k = prefix_is_same_iff e p m in
      elim (Bool-cases (prefix_is_same e p m)) [
        | inl h ↦ subst (RemoveIs v lvl (node e l r) p m) (sym (trie_remove_here e l r p m lvl h)) (
            here v lvl e l r p m t (k.0 h) (remove_matched (node e l r) e.payload)
              (remove_matched_lem v lvl (node e l r) e.payload t refl))
        | inr h ↦
            let no_e : ¬ IsFor p m e = λ g. false≢true (sym h ∙ k.1 g) in
            elim (Bool-cases (is_left_child p lvl)) [
              | inl b ↦
                  subst (RemoveIs v lvl (node e l r) p m) (sym (trie_remove_left e l r p m lvl h b))
                    (below_left v lvl e l r p m t no_e b (trie_remove l p m (suc lvl))
                      (trie_remove_lem v (suc lvl) l p m t.4))
              | inr b ↦
                  subst (RemoveIs v lvl (node e l r) p m)
                    (sym (trie_remove_right e l r p m lvl h b))
                    (below_right v lvl e l r p m t no_e b (trie_remove r p m (suc lvl))
                      (trie_remove_lem v (suc lvl) r p m t.5))
            ]
      ]
