-- ===== src/Trie/Exact.antt =====
-- trie_lookup_exact: it finds an entry exactly if the tree holds it, and else a place to insert it.

use rtrlib.Prelude.{
  sym, ◌∙◌, ap, inr, inl, ltb, Bool-cases, ◌≤◌, ◌⊎◌, ℕ, suc, ◌≡◌, ◌↔◌, true, false, arith, List,
  ◌∷◌, length, ==_iff,
}
use rtrlib.Ip.{is_left_child, IpAddr, IpVersion}
use rtrlib.Ip.Laws.{rtr_ip_addr_equal_iff}
use rtrlib.Trie.Defs.{
  join, is_null, trie_insert, Entry, Trie, null, node, Crumb, Position, plug, prefix_is_same,
  trie_lookup_exact,
}
use rtrlib.Trie.Invariant.{All, In, All-in, IsBelow, IsTrie}

module _ {D : Type 0} where
  -- The entry is for the prefix `p` of length `m`.
  abbrev pub IsFor : IpAddr → ℕ → Entry D → Type 0
  IsFor p m e = (e.prefix ≡ p) × (e.len ≡ m)

  pub prefix_is_same_iff :
      (e : Entry D) (p : IpAddr) (m : ℕ) → (prefix_is_same e p m ≡ true) ↔ IsFor p m e
  prefix_is_same_iff e p m = ground (arith, rtr_ip_addr_equal_iff e.prefix p, ==_iff e.len m)

  -- The focus is a node for the prefix.
  abbrev pub IsForNode : IpAddr → ℕ → Trie D → Type 0
  IsForNode p m null = ⊥
  IsForNode p m (node e l r) = IsFor p m e

  -- What trie_lookup_exact promises where it has found the prefix below `path`.
  pub record FoundIn (p : IpAddr) (m : ℕ) (whole : Trie D) (pos : Position D) : Type 0 where
    pub whole_tree : plug pos.path pos.focus ≡ whole
    pub level : length pos.path ≡ pos.lvl
    pub node_for : IsForNode p m pos.focus

  pub found_lem :
      (t : Trie D) (p : IpAddr) (m lvl : ℕ) (path : List (Crumb D))
      → length path ≡ lvl
      → (trie_lookup_exact t p m lvl path).found ≡ true
      → FoundIn p m (plug path t) (trie_lookup_exact t p m lvl path)
  unfolding trie_lookup_exact plug
  found_lem null p m lvl path h f = cc
  found_lem (node e l r) p m lvl path h f = ground (
    arith,
    prefix_is_same_iff e p m,
    found_lem l p m (suc lvl) (record { parent = e; left = true; sibling = r } ∷ path),
    found_lem r p m (suc lvl) (record { parent = e; left = false; sibling = l } ∷ path),
  )

  -- Where it has not, no entry of the tree is for the prefix.
  pub missing_lem :
      (v : IpVersion) (t : Trie D) (p : IpAddr) (m lvl : ℕ) (path : List (Crumb D)) (x : Entry D)
      → IsTrie v lvl t
      → (trie_lookup_exact t p m lvl path).found ≡ false
      → In x t
      → ¬ IsFor p m x
  unfolding trie_lookup_exact
  missing_lem v null p m lvl path x t f i k = i
  missing_lem v (node e l r) p m lvl path x t f i k = ground (
    arith,
    prefix_is_same_iff e p m,
    All-in (IsBelow lvl true e) l x t.2,
    All-in (IsBelow lvl false e) r x t.3,
    missing_lem v l p m (suc lvl) (record { parent = e; left = true; sibling = r } ∷ path) x t.4,
    missing_lem v r p m (suc lvl) (record { parent = e; left = false; sibling = l } ∷ path) x t.5,
  )

  -- The loop does not turn back at the root of the tree, which has level `lvl`.
  abbrev pub Passes : ℕ → ℕ → Trie D → Type 0
  Passes lvl m null = ⊥
  Passes lvl m (node e l r) = (lvl ≡ 0) ⊎ (e.len ≤ m)

  -- `new` inserted at the place that trie_lookup_exact returns.
  abbrev pub placed : Position D → Entry D → Trie D
  placed pos new = plug pos.path (trie_insert pos.focus new pos.lvl)

  trie_insert-join :
      (c : Crumb D) (t : Trie D) (new : Entry D) (lvl : ℕ)
      → c.parent.len ≤ new.len
      → is_left_child new.prefix lvl ≡ c.left
      → trie_insert (join c t) new lvl ≡ join c (trie_insert t new (suc lvl))
  unfolding trie_insert
  trie_insert-join c t new lvl h b = elim (Bool-cases c.left) [
    | inl e ↦ rw e (ground arith)
    | inr e ↦ rw e (ground arith)
  ]

  turn_back :
      (f : Entry D) (fl fr : Trie D) (p : IpAddr) (m lvl : ℕ) (c : Crumb D) (path : List (Crumb D))
      → ltb m f.len ≡ true
      → trie_lookup_exact (node f fl fr) p m (suc lvl) (c ∷ path)
        ≡ record { found = false; lvl = lvl; path = path; focus = join c (node f fl fr) }
  unfolding trie_lookup_exact
  turn_back f fl fr p m lvl c path h = ground arith

  -- One step down, to the child `t` of a node that the loop passes.
  place_step :
      (t : Trie D) (c : Crumb D) (new : Entry D) (lvl : ℕ) (path : List (Crumb D))
      → All (IsBelow lvl c.left c.parent) t
      → is_left_child new.prefix lvl ≡ c.left
      → is_null t ≡ false
      → (Passes (suc lvl) new.len t
          → placed (trie_lookup_exact t new.prefix new.len (suc lvl) (c ∷ path)) new
            ≡ plug (c ∷ path) (trie_insert t new (suc lvl)))
      → placed (trie_lookup_exact t new.prefix new.len (suc lvl) (c ∷ path)) new
        ≡ plug path (trie_insert (join c t) new lvl)
  unfolding plug
  place_step null c new lvl path a b n ih = cc
  place_step (node f fl fr) c new lvl path a b n ih = elim (Bool-cases (ltb new.len f.len)) [
    | inl back ↦
        ap (λ (p : Position D). placed p new) (turn_back f fl fr new.prefix new.len lvl c path back)
    | inr on ↦
        ih (inr (ground arith))
        ∙ ap (plug path)
            (sym (trie_insert-join c (node f fl fr) new lvl (omega (arith, a.0.heap, short on)) b))
  ]
    where
      short : ltb new.len f.len ≡ false → f.len ≤ new.len
      short on = ground arith

  abbrev left_crumb : Entry D → Trie D → Crumb D
  left_crumb e r = record { parent = e; left = true; sibling = r }

  abbrev right_crumb : Entry D → Trie D → Crumb D
  right_crumb e l = record { parent = e; left = false; sibling = l }

  -- The three ways out of a round of the loop that finds nothing.
  exact_cases :
      (e : Entry D) (l r : Trie D) (p : IpAddr) (m lvl : ℕ) (path : List (Crumb D))
      → Passes lvl m (node e l r)
      → (trie_lookup_exact (node e l r) p m lvl path).found ≡ false
      → (trie_lookup_exact (node e l r) p m lvl path
          ≡ record { found = false; lvl = lvl; path = path; focus = node e l r })
        ⊎ ((is_left_child p lvl ≡ true)
            × (is_null l ≡ false)
            × (trie_lookup_exact (node e l r) p m lvl path
                ≡ trie_lookup_exact l p m (suc lvl) (left_crumb e r ∷ path)))
        ⊎ ((is_left_child p lvl ≡ false)
            × (is_null r ≡ false)
            × (trie_lookup_exact (node e l r) p m lvl path
                ≡ trie_lookup_exact r p m (suc lvl) (right_crumb e l ∷ path)))
  unfolding trie_lookup_exact
  exact_cases e l r p m lvl path g f = ground arith

  pub place_lem :
      (v : IpVersion) (t : Trie D) (new : Entry D) (lvl : ℕ) (path : List (Crumb D))
      → IsTrie v lvl t
      → Passes lvl new.len t
      → (trie_lookup_exact t new.prefix new.len lvl path).found ≡ false
      → placed (trie_lookup_exact t new.prefix new.len lvl path) new
        ≡ plug path (trie_insert t new lvl)
  place_lem v null new lvl path t g f = absurd g
  place_lem v (node e l r) new lvl path t g f =
      let same = λ (a b : Position D) (q : a ≡ b). ap (λ (p : Position D). placed p new) q in
      let miss =
        λ (b : Position D) (q : trie_lookup_exact (node e l r) new.prefix new.len lvl path ≡ b).
          sym (ap (λ (p : Position D). p.found) q) ∙ f in
      elim (exact_cases e l r new.prefix new.len lvl path g f) [
        | inl q ↦ same _ _ q
        | inr (inl (b, n, q)) ↦
            same _ _ q
            ∙ place_step l (left_crumb e r) new lvl path t.2 b n
                (λ h. place_lem v l new (suc lvl) (left_crumb e r ∷ path) t.4 h (miss _ q))
        | inr (inr (b, n, q)) ↦
            same _ _ q
            ∙ place_step r (right_crumb e l) new lvl path t.3 b n
                (λ h. place_lem v r new (suc lvl) (right_crumb e l ∷ path) t.5 h (miss _ q))
      ]
