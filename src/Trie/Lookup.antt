-- ===== src/Trie/Lookup.antt =====
-- trie_lookup: it walks along the entries that cover a prefix, shortest first.
use mathlib.Core.Bool.{false≢true}
use rtrlib.Prelude.{
  Bool-cases, subst, ap, ℕ, suc, ◌≤◌, ◌≡◌, ◌↔◌, inl, inr, refl, sym, ◌∙◌, Bool, true, false, ◌&&◌,
  leb, if◌then◌else◌, arith, List, [], ◌∷◌, Elem,
}
use rtrlib.Ip.{IpAddr, IpVersion, ver, IsWords, is_left_child, equal_bits}
use rtrlib.Ip.Laws.{Agree, equal_bits_iff}
use rtrlib.Trie.Defs.{Entry, Trie, null, node, Hit, trie_lookup}
use rtrlib.Trie.Invariant.{In, All-in, IsEntry, IsBelow, IsTrie}

module _ {D : Type 0} where
  -- The entry's prefix covers the prefix `q` of length `m`.
  pub record IsCovering (q : IpAddr) (m : ℕ) (x : Entry D) : Type 0 where
    pub shorter : x.len ≤ m
    pub agree : Agree x.prefix q x.len

  -- The test of trie_lookup.
  abbrev pub covers : IpAddr → ℕ → Entry D → Bool
  covers q m x = leb x.len m && equal_bits x.prefix q x.len

  pub covers_iff :
      (v : IpVersion) (q : IpAddr) (m : ℕ) (x : Entry D)
      → IsEntry v x
      → IsWords q
      → ver q ≡ v
      → (covers q m x ≡ true) ↔ IsCovering q m x
  covers_iff v q m x e w h = (
    λ c. record { shorter = ground arith; agree = iff.0 (ground arith) },
    λ c. back c.shorter (iff.1 c.agree),
  )
    where
      iff : (equal_bits x.prefix q x.len ≡ true) ↔ Agree x.prefix q x.len
      iff = equal_bits_iff x.prefix q x.len e.words w (e.version ∙ sym h) (rw e.version e.fits)

      back : x.len ≤ m → equal_bits x.prefix q x.len ≡ true → covers q m x ≡ true
      back a b = ground arith

  -- The covering entries on the way down, in the order of the walk.
  unfoldable pub covering : Trie D → IpAddr → ℕ → ℕ → List (Entry D)
  covering null q m lvl = []
  covering (node e l r) q m lvl =
      let rest =
        if is_left_child q lvl then covering l q m (suc lvl) else covering r q m (suc lvl) in
      if covers q m e then e ∷ rest else rest

  abbrev pub HitIs : IpAddr → ℕ → ℕ → Trie D → List (Entry D) → Type 0
  HitIs q m lvl null xs = xs ≡ []
  HitIs q m lvl (node e l r) xs =
      (xs
        ≡ e ∷ (if is_left_child q lvl then covering l q m (suc lvl) else covering r q m (suc lvl)))
      × (covers q m e ≡ true)

  -- trie_lookup stops at the first covering entry, and the walk can go on below it.
  pub trie_lookup_lem :
      (t : Trie D) (q : IpAddr) (m lvl : ℕ)
      → let h = trie_lookup t q m lvl in HitIs q m h.lvl h.at (covering t q m lvl)
  unfolding trie_lookup covering
  trie_lookup_lem null q m lvl = refl
  trie_lookup_lem (node e l r) q m lvl =
      ground (arith, trie_lookup_lem l q m (suc lvl), trie_lookup_lem r q m (suc lvl))

  -- No entry stands above its length.
  pub le-len_of_In :
      (v : IpVersion) (lvl : ℕ) (t : Trie D) (x : Entry D) → IsTrie v lvl t → In x t → lvl ≤ x.len
  le-len_of_In v lvl null x t h = elim h [ ]
  le-len_of_In v lvl (node e l r) x t (inl p) = rw p t.0
  le-len_of_In v lvl (node e l r) x t (inr (inl h)) =
      omega (arith, le-len_of_In v (suc lvl) l x t.4 h)
  le-len_of_In v lvl (node e l r) x t (inr (inr h)) =
      omega (arith, le-len_of_In v (suc lvl) r x t.5 h)

  pub IsEntry-of_In :
      (v : IpVersion) (lvl : ℕ) (t : Trie D) (x : Entry D) → IsTrie v lvl t → In x t → IsEntry v x
  IsEntry-of_In v lvl null x t h = elim h [ ]
  IsEntry-of_In v lvl (node e l r) x t (inl p) = rw p t.1
  IsEntry-of_In v lvl (node e l r) x t (inr (inl h)) = IsEntry-of_In v (suc lvl) l x t.4 h
  IsEntry-of_In v lvl (node e l r) x t (inr (inr h)) = IsEntry-of_In v (suc lvl) r x t.5 h

  -- A covering entry below a node stands on the side on which the walk goes on.
  side_of_covering_left :
      (v : IpVersion) (lvl : ℕ) (e x : Entry D) (l r : Trie D) (q : IpAddr) (m : ℕ)
      → IsTrie v lvl (node e l r)
      → In x l
      → IsCovering q m x
      → is_left_child q lvl ≡ true
  side_of_covering_left v lvl e x l r q m t h c =
      sym (c.agree lvl (le-len_of_In v (suc lvl) l x t.4 h))
      ∙ (All-in (IsBelow lvl true e) l x t.2 h).side

  side_of_covering_right :
      (v : IpVersion) (lvl : ℕ) (e x : Entry D) (l r : Trie D) (q : IpAddr) (m : ℕ)
      → IsTrie v lvl (node e l r)
      → In x r
      → IsCovering q m x
      → is_left_child q lvl ≡ false
  side_of_covering_right v lvl e x l r q m t h c =
      sym (c.agree lvl (le-len_of_In v (suc lvl) r x t.5 h))
      ∙ (All-in (IsBelow lvl false e) r x t.3 h).side

  -- The walk meets exactly the covering entries of the tree.
  pub Elem-covering :
      (v : IpVersion) (lvl : ℕ) (t : Trie D) (q : IpAddr) (m : ℕ) (x : Entry D)
      → IsTrie v lvl t
      → IsWords q
      → ver q ≡ v
      → Elem x (covering t q m lvl) ↔ (In x t × IsCovering q m x)
  unfolding covering
  Elem-covering v lvl null q m x t w h = ground arith
  Elem-covering v lvl (node e l r) q m x t w h =
      let cov = covers_iff v q m e t.1 w h in
      let left = Elem-covering v (suc lvl) l q m x t.4 w h in
      let right = Elem-covering v (suc lvl) r q m x t.5 w h in
      ground (
        arith,
        cov,
        left,
        right,
        side_of_covering_left v lvl e x l r q m t,
        side_of_covering_right v lvl e x l r q m t,
      )

  -- What trie_lookup promises of the node that it returns.
  abbrev pub IsShortest : IpAddr → ℕ → Trie D → Trie D → Type 0
  IsShortest q m t null = (x : Entry D) → In x t → ¬ IsCovering q m x
  IsShortest q m t (node e l r) =
      In e t × IsCovering q m e × ((x : Entry D) → In x t → IsCovering q m x → e.len ≤ x.len)

  IsShortest-left :
      (v : IpVersion) (lvl : ℕ) (e : Entry D) (l r : Trie D) (q : IpAddr) (m : ℕ) (found : Trie D)
      → IsTrie v lvl (node e l r)
      → (¬ IsCovering q m e)
      → is_left_child q lvl ≡ true
      → IsShortest q m l found
      → IsShortest q m (node e l r) found
  IsShortest-left v lvl e l r q m null t no_e b s =
      λ x i c. ground (arith, s x, side_of_covering_right v lvl e x l r q m t)
  IsShortest-left v lvl e l r q m (node f fl fr) t no_e b s = (
    inr (inl s.0),
    s.1,
    λ x i c. ground (arith, s.2 x, side_of_covering_right v lvl e x l r q m t),
  )

  IsShortest-right :
      (v : IpVersion) (lvl : ℕ) (e : Entry D) (l r : Trie D) (q : IpAddr) (m : ℕ) (found : Trie D)
      → IsTrie v lvl (node e l r)
      → (¬ IsCovering q m e)
      → is_left_child q lvl ≡ false
      → IsShortest q m r found
      → IsShortest q m (node e l r) found
  IsShortest-right v lvl e l r q m null t no_e b s =
      λ x i c. ground (arith, s x, side_of_covering_left v lvl e x l r q m t)
  IsShortest-right v lvl e l r q m (node f fl fr) t no_e b s = (
    inr (inr s.0),
    s.1,
    λ x i c. ground (arith, s.2 x, side_of_covering_left v lvl e x l r q m t),
  )

  IsShortest-head :
      (v : IpVersion) (lvl : ℕ) (e : Entry D) (l r : Trie D) (q : IpAddr) (m : ℕ)
      → IsTrie v lvl (node e l r)
      → IsCovering q m e
      → IsShortest q m (node e l r) (node e l r)
  IsShortest-head v lvl e l r q m t c = (
    inl refl,
    c,
    λ x i cx.
        ground (arith, All-in (IsBelow lvl true e) l x t.2, All-in (IsBelow lvl false e) r x t.3),
  )

  trie_lookup_hit :
      (e : Entry D) (l r : Trie D) (q : IpAddr) (m lvl : ℕ)
      → covers q m e ≡ true
      → (trie_lookup (node e l r) q m lvl).at ≡ node e l r
  unfolding trie_lookup
  trie_lookup_hit e l r q m lvl h = ground arith

  trie_lookup_left :
      (e : Entry D) (l r : Trie D) (q : IpAddr) (m lvl : ℕ)
      → covers q m e ≡ false
      → is_left_child q lvl ≡ true
      → trie_lookup (node e l r) q m lvl ≡ trie_lookup l q m (suc lvl)
  unfolding trie_lookup
  trie_lookup_left e l r q m lvl h b = ground arith

  trie_lookup_right :
      (e : Entry D) (l r : Trie D) (q : IpAddr) (m lvl : ℕ)
      → covers q m e ≡ false
      → is_left_child q lvl ≡ false
      → trie_lookup (node e l r) q m lvl ≡ trie_lookup r q m (suc lvl)
  unfolding trie_lookup
  trie_lookup_right e l r q m lvl h b = ground arith

  -- In a well formed tree, for an address of its version with words of 32 bits, trie_lookup returns a node that covers the prefix
  -- with the least length, and NULL only if no node of the tree covers it.
  pub trie_lookup-IsShortest :
      (v : IpVersion) (lvl : ℕ) (t : Trie D) (q : IpAddr) (m : ℕ)
      → IsTrie v lvl t
      → IsWords q
      → ver q ≡ v
      → IsShortest q m t (trie_lookup t q m lvl).at
  unfolding trie_lookup
  trie_lookup-IsShortest v lvl null q m t w h = λ x i c. i
  trie_lookup-IsShortest v lvl (node e l r) q m t w h =
      let cov = covers_iff v q m e t.1 w h in
      elim (Bool-cases (covers q m e)) [
        | inl c ↦
            subst (IsShortest q m (node e l r)) (sym (trie_lookup_hit e l r q m lvl c))
              (IsShortest-head v lvl e l r q m t (cov.0 c))
        | inr c ↦
            let no_e : ¬ IsCovering q m e = λ k. false≢true (sym c ∙ cov.1 k) in
            elim (Bool-cases (is_left_child q lvl)) [
              | inl b ↦
                  subst (IsShortest q m (node e l r))
                    (ap (λ (k : Hit D). k.at) (sym (trie_lookup_left e l r q m lvl c b)))
                    (IsShortest-left v lvl e l r q m _ t no_e b
                      (trie_lookup-IsShortest v (suc lvl) l q m t.4 w h))
              | inr b ↦
                  subst (IsShortest q m (node e l r))
                    (ap (λ (k : Hit D). k.at) (sym (trie_lookup_right e l r q m lvl c b)))
                    (IsShortest-right v lvl e l r q m _ t no_e b
                      (trie_lookup-IsShortest v (suc lvl) r q m t.5 w h))
            ]
      ]
