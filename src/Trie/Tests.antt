-- ===== src/Trie/Tests.antt =====
-- The theorems on the trie at small trees of IPv4 prefixes.
use rtrlib.Prelude.{subst, ℕ, ◌≡◌, ◌↔◌, ◌⊎◌, refl, true, false, arith, some, []}
use rtrlib.Ip.{v4, ipv4, is_left_child, rtr_get_bits, equal_bits, rtr_ip_addr_equal}
use rtrlib.Ip.Clear.{is_clear, is_clear_lem}
use rtrlib.Trie.Defs.{
  Entry, Trie, null, node, trie_insert, trie_lookup, trie_lookup_exact, trie_remove, plug,
}
use rtrlib.Trie.Invariant.{In, IsEntry, IsTrie}
use rtrlib.Trie.Insert.{In-trie_insert, trie_insert-IsTrie}
use rtrlib.Trie.Lookup.{IsShortest, trie_lookup-IsShortest}
use rtrlib.Trie.Find.{ExactIs, trie_lookup_exact_lem, insert_at_place}
use rtrlib.Trie.RemoveSpec.{RemoveIs, trie_remove_lem}

-- 10.128.0.0/9, 10.0.0.0/8 and 128.0.0.0/1.
abbrev half : Entry ℕ
half = record { prefix = v4 176160768; len = 9; payload = 1 }

abbrev ten : Entry ℕ
ten = record { prefix = v4 167772160; len = 8; payload = 2 }

abbrev upper : Entry ℕ
upper = record { prefix = v4 2147483648; len = 1; payload = 3 }

clear_half : is_clear (v4 176160768) 9 32 ≡ true
unfolding is_clear rtr_get_bits
clear_half = refl

clear_ten : is_clear (v4 167772160) 8 32 ≡ true
unfolding is_clear rtr_get_bits
clear_ten = refl

clear_upper : is_clear (v4 2147483648) 1 32 ≡ true
unfolding is_clear rtr_get_bits
clear_upper = refl

half-IsEntry : IsEntry ipv4 half
half-IsEntry = record {
  version = refl;
  words = omega arith;
  fits = omega arith;
  canonical = is_clear_lem (v4 176160768) 9 32 clear_half;
}

ten-IsEntry : IsEntry ipv4 ten
ten-IsEntry = record {
  version = refl;
  words = omega arith;
  fits = omega arith;
  canonical = is_clear_lem (v4 167772160) 8 32 clear_ten;
}

upper-IsEntry : IsEntry ipv4 upper
upper-IsEntry = record {
  version = refl;
  words = omega arith;
  fits = omega arith;
  canonical = is_clear_lem (v4 2147483648) 1 32 clear_upper;
}

-- The root is 10.0.0.0/8 with 10.128.0.0/9 on its left.
abbrev two : Trie ℕ
two = node ten (node half null null) null

one-IsTrie : IsTrie ipv4 0 (node half null null)
one-IsTrie = (omega arith, half-IsEntry, tt, tt, tt, tt)

ten_into_one : trie_insert (node half null null) ten 0 ≡ two
unfolding trie_insert is_left_child rtr_get_bits equal_bits
ten_into_one = refl

trie_insert-IsTrie_example : IsTrie ipv4 0 (trie_insert (node half null null) ten 0)
trie_insert-IsTrie_example =
    trie_insert-IsTrie ipv4 0 (node half null null) ten one-IsTrie ten-IsEntry (omega arith)
      ((λ i h. absurd (omega arith), λ k. ground arith), tt, tt)

In-trie_insert_example :
    In half (trie_insert (node half null null) ten 0)
    ↔ ((half ≡ ten) ⊎ In half (node half null null))
In-trie_insert_example = In-trie_insert half (node half null null) ten 0

-- The same tree, built by the operation.
abbrev built : Trie ℕ
built = trie_insert (node half null null) ten 0

two-IsTrie : IsTrie ipv4 0 two
two-IsTrie = subst (IsTrie ipv4 0) ten_into_one (
    trie_insert-IsTrie ipv4 0 (node half null null) ten one-IsTrie ten-IsEntry (omega arith)
      ((λ i h. absurd (omega arith), λ k. ground arith), tt, tt))

trie_lookup-IsShortest_example :
    IsShortest (v4 176160768) 24 two (trie_lookup two (v4 176160768) 24 0).at
trie_lookup-IsShortest_example =
    trie_lookup-IsShortest ipv4 0 two (v4 176160768) 24 two-IsTrie (omega arith) refl

trie_lookup_exact_example :
    ExactIs (v4 176160768) 9 two (trie_lookup_exact two (v4 176160768) 9 0 [])
trie_lookup_exact_example = trie_lookup_exact_lem ipv4 two (v4 176160768) 9 two-IsTrie

missing : (trie_lookup_exact two upper.prefix upper.len 0 []).found ≡ false
unfolding trie_lookup_exact is_left_child rtr_get_bits equal_bits
missing = refl

insert_at_place_example :
    let pos = trie_lookup_exact two upper.prefix upper.len 0 [] in
    plug pos.path (trie_insert pos.focus upper pos.lvl) ≡ trie_insert two upper 0
insert_at_place_example =
    insert_at_place ipv4 ten (node half null null) null upper two-IsTrie missing

trie_remove_example : RemoveIs ipv4 0 two (v4 167772160) 8 (trie_remove two (v4 167772160) 8 0)
trie_remove_example = trie_remove_lem ipv4 0 two (v4 167772160) 8 two-IsTrie

removed_root :
    trie_remove two (v4 167772160) 8 0
    ≡ some (record {
      gone = record { prefix = v4 176160768; len = 9; payload = 2 };
      rest = node half null null;
    })
unfolding trie_remove rtr_ip_addr_equal
removed_root = refl
