-- ===== src/Trie/Find.antt =====
-- trie_lookup_exact on a whole tree, as rtr_pfx_table_add and rtr_pfx_table_remove call it.
use rtrlib.Prelude.{ℕ, ◌≡◌, ◌⊎◌, inl, inr, refl, true, false, Bool-cases, []}
use rtrlib.Ip.{IpVersion, IpAddr}
use rtrlib.Trie.Defs.{Entry, Trie, node, Position, trie_lookup_exact, trie_insert, plug}
use rtrlib.Trie.Invariant.{In, IsTrie}
use rtrlib.Trie.Exact.{IsFor, FoundIn, found_lem, missing_lem, place_lem}

module _ {D : Type 0} where
  -- The prefix was found, at a node for it, or no entry of the tree is for it.
  abbrev pub ExactIs : IpAddr → ℕ → Trie D → Position D → Type 0
  ExactIs p m t pos =
      (pos.found ≡ true) × FoundIn p m t pos
      ⊎ (pos.found ≡ false) × ((x : Entry D) → In x t → ¬ IsFor p m x)

  -- In a well formed tree trie_lookup_exact finds the node for a prefix exactly if there is one.
  pub trie_lookup_exact_lem :
      (v : IpVersion) (t : Trie D) (p : IpAddr) (m : ℕ)
      → IsTrie v 0 t
      → ExactIs p m t (trie_lookup_exact t p m 0 [])
  unfolding plug
  trie_lookup_exact_lem v t p m w = elim (Bool-cases (trie_lookup_exact t p m 0 []).found) [
    | inl f ↦ inl (f, found_lem t p m 0 [] refl f)
    | inr f ↦ inr (f, λ x. missing_lem v t p m 0 [] x w f)
  ]

  -- In a well formed tree that is not empty, where the prefix is missing, inserting at the node that trie_lookup_exact returns, with the level
  -- that it leaves, gives the tree that inserting at the root gives.
  pub insert_at_place :
      (v : IpVersion) (e : Entry D) (l r : Trie D) (new : Entry D)
      → IsTrie v 0 (node e l r)
      → (trie_lookup_exact (node e l r) new.prefix new.len 0 []).found ≡ false
      → let pos = trie_lookup_exact (node e l r) new.prefix new.len 0 [] in
        plug pos.path (trie_insert pos.focus new pos.lvl) ≡ trie_insert (node e l r) new 0
  unfolding plug
  insert_at_place v e l r new w f = place_lem v (node e l r) new 0 [] w (inl refl) f
