-- ===== src/Pfx/Validate.antt =====
-- rtr_pfx_table_validate_r and rtr_pfx_table_validate of pfx/trie/trie-pfx.c, and what their loop computes.
-- The fuel of the loop is the height of the tree.
use Prim.Native.Nat.{max}
use mathlib.Core.List.{append-nil, append_assoc}
use rtrlib.Prelude.{
  ◌∙◌, arith, Bool-cases, inl, inr, refl, arith, ℕ, zero, suc, ◌≤◌, Bool, true, false, ◌&&◌, ◌||◌,
  not, if◌then◌else◌, Option, none, some, List, [], ◌∷◌, ◌++◌, ◌≡◌,
}
use rtrlib.Ip.{IpAddr, ver, is_left_child}
use rtrlib.Trie.Defs.{is_null, Entry, null, node, trie_lookup}
use rtrlib.Trie.Lookup.{covering, HitIs, trie_lookup_lem}
use rtrlib.Pfx.Data.{
  NodeData, PfxRecord, PfxRtval, success, error, pfx_table_elem_matches, pfx_table_node2pfx_record,
}
use rtrlib.Pfx.Table.{PfxTable, PfxTrie, pfx_table_get_root, data_of}

pub data PfxvState : Type 0 where
  valid not_found invalid : PfxvState

-- `result` is what is written to `*result`, and `reason` the array that the caller is given.
pub record Validation : Type 0 where
  pub rtval : PfxRtval
  pub result : Option PfxvState
  pub reason : List PfxRecord

-- Where an allocation fails the reasons are freed, and no result is written.
abbrev pub out_of_memory : Validation
out_of_memory = record { rtval = error; result = none; reason = [] }

abbrev pub verdict : PfxvState → List PfxRecord → Validation
verdict s reason = record { rtval = success; result = some s; reason = reason }

abbrev pub child_on : IpAddr → ℕ → PfxTrie → PfxTrie
child_on prefix lvl null = null
child_on prefix lvl (node e l r) = if is_left_child prefix lvl then l else r

unfoldable pub height : PfxTrie → ℕ
height null = 0
height (node e l r) = suc (max (height l) (height r))

-- The end of a round of the loop, after the call of trie_lookup; `rec` is the next round.
abbrev pub next_round :
    (PfxTrie → ℕ → List PfxRecord → Option Validation)
    → Bool
    → Bool
    → List PfxRecord
    → PfxTrie
    → ℕ
    → Option Validation
next_round rec fails want reason null lvl = some (verdict invalid reason)
next_round rec fails want reason (node e l r) lvl =
    if fails
    then some out_of_memory
    else rec (node e l r) lvl
        (if want then reason ++ pfx_table_node2pfx_record e e.payload else reason)

-- The `while` loop, at the node `n` of level `lvl`; `want` says that the caller asks for the reasons,
-- whose array was allocated `k` times. `none` means that the fuel ran out.
unfoldable pub validate_loop :
    ℕ → (ℕ → Bool) → ℕ → Bool → PfxTrie → ℕ → ℕ → IpAddr → ℕ → List PfxRecord → Option Validation
unfolding pfx_table_elem_matches trie_lookup pfx_table_node2pfx_record
validate_loop zero mem k want n lvl asn prefix prefix_len reason = none
validate_loop (suc fuel) mem k want n lvl asn prefix prefix_len reason =
    let hit = trie_lookup (child_on prefix lvl n) prefix prefix_len (suc lvl) in
    let next =
      next_round
        (λ n' lvl' reason'.
          validate_loop fuel mem (suc k) want n' lvl' asn prefix prefix_len reason')
        (want && not (mem k)) want reason hit.at hit.lvl in
    if pfx_table_elem_matches (data_of n) asn prefix_len then some (verdict valid reason) else next

-- What follows the first call of trie_lookup, which has returned the node of level `lvl`.
abbrev pub validate_at : (ℕ → Bool) → ℕ → Bool → ℕ → IpAddr → ℕ → PfxTrie → ℕ → Option Validation
validate_at mem fuel want asn prefix prefix_len null lvl = some (verdict not_found [])
validate_at mem fuel want asn prefix prefix_len (node e l r) lvl =
    if want && not (mem 0)
    then some out_of_memory
    else validate_loop fuel mem 1 want (node e l r) lvl asn prefix prefix_len
        (if want then pfx_table_node2pfx_record e e.payload else [])

-- An empty tree has no node to return.
unfoldable pub rtr_pfx_table_validate_r :
    (ℕ → Bool) → PfxTable → Bool → ℕ → IpAddr → ℕ → Option Validation
unfolding validate_loop height
rtr_pfx_table_validate_r mem t want asn prefix prefix_len =
    let root = pfx_table_get_root t (ver prefix) in
    let hit = trie_lookup root prefix prefix_len 0 in
    validate_at mem (height root) want asn prefix prefix_len hit.at hit.lvl

-- No reason is asked for.
unfoldable pub rtr_pfx_table_validate : PfxTable → ℕ → IpAddr → ℕ → Option Validation
unfolding rtr_pfx_table_validate_r
rtr_pfx_table_validate t asn prefix prefix_len =
    rtr_pfx_table_validate_r (λ _. true) t false asn prefix prefix_len

-- What the loop computes, over the covering entries `xs` that are left on its way.
unfoldable pub any_matches : List (Entry NodeData) → ℕ → ℕ → Bool
any_matches [] asn prefix_len = false
any_matches (e ∷ xs) asn prefix_len =
    pfx_table_elem_matches e.payload asn prefix_len || any_matches xs asn prefix_len

-- The records of the entries up to the first that matches.
unfoldable pub visited : List (Entry NodeData) → ℕ → ℕ → List PfxRecord
visited [] asn prefix_len = []
visited (e ∷ xs) asn prefix_len =
    pfx_table_node2pfx_record e e.payload
    ++ (if pfx_table_elem_matches e.payload asn prefix_len then [] else visited xs asn prefix_len)

pub height-trie_lookup :
    (t : PfxTrie) (q : IpAddr) (m lvl : ℕ) → height (trie_lookup t q m lvl).at ≤ height t
unfolding height trie_lookup
height-trie_lookup null q m lvl = omega arith
height-trie_lookup (node e l r) q m lvl =
    ground (arith, height-trie_lookup l q m (suc lvl), height-trie_lookup r q m (suc lvl))

abbrev pub state_of : Bool → PfxvState
state_of b = if b then valid else invalid

-- The reasons that the loop still adds, behind those of the node at which it stands.
abbrev pub rest_of : List (Entry NodeData) → ℕ → ℕ → List PfxRecord
rest_of [] asn m = []
rest_of (e ∷ xs) asn m = if pfx_table_elem_matches e.payload asn m then [] else visited xs asn m

height_child : (l r : PfxTrie) (b : Bool) → height (if b then l else r) ≤ max (height l) (height r)
height_child l r true = omega arith
height_child l r false = omega arith

next_lem :
    (rec : PfxTrie → ℕ → List PfxRecord → Option Validation) (fails want : Bool)
    (reason : List PfxRecord) (at : PfxTrie) (lvl : ℕ) (ys : List (Entry NodeData)) (asn : ℕ)
    (q : IpAddr) (m : ℕ)
    → fails ≡ false
    → HitIs q m lvl at ys
    → ((reason' : List PfxRecord)
        → is_null at ≡ false
        → rec at lvl reason'
          ≡ some (
              verdict
                (state_of (any_matches ys asn m))
                (if want then reason' ++ rest_of ys asn m else reason')))
    → next_round rec fails want reason at lvl
      ≡ some (
          verdict
            (state_of (any_matches ys asn m))
            (if want then reason ++ visited ys asn m else reason))
unfolding any_matches visited
next_lem rec fails true reason null lvl ys asn q m f is ih = rw (is, append-nil reason)
next_lem rec fails false reason null lvl ys asn q m f is ih = rw is
next_lem rec fails true reason (node e l r) lvl ys asn q m f (is, _) ih =
    rw f (ih (reason ++ pfx_table_node2pfx_record e e.payload) refl ∙ rw is (rw append_assoc))
next_lem rec fails false reason (node e l r) lvl ys asn q m f is ih = rw f (ih reason refl)

loop_round :
    (e : Entry NodeData) (ys : List (Entry NodeData)) (asn m : ℕ) (want : Bool)
    (reason : List PfxRecord) (next : Option Validation)
    → next
      ≡ some (
          verdict
            (state_of (any_matches ys asn m))
            (if want then reason ++ visited ys asn m else reason))
    → (if pfx_table_elem_matches e.payload asn m then some (verdict valid reason) else next)
      ≡ some (
          verdict
            (state_of (any_matches (e ∷ ys) asn m))
            (if want then reason ++ rest_of (e ∷ ys) asn m else reason))
unfolding any_matches
loop_round e ys asn m want reason next h =
    elim (Bool-cases (pfx_table_elem_matches e.payload asn m)) [
      | inl y ↦ rw y (done want)
      | inr y ↦ rw y h
    ]
  where
    done :
        (w : Bool)
        → some (verdict valid reason) ≡ some (verdict valid (if w then reason ++ [] else reason))
    done true = rw append-nil
    done false = refl

pub loop_lem :
    (fuel : ℕ) (mem : ℕ → Bool) (k : ℕ) (want : Bool) (n : PfxTrie) (lvl asn : ℕ) (q : IpAddr)
    (m : ℕ) (reason : List PfxRecord) (xs : List (Entry NodeData))
    → ((i : ℕ) → (want && not (mem i)) ≡ false)
    → height n ≤ fuel
    → HitIs q m lvl n xs
    → is_null n ≡ false
    → validate_loop fuel mem k want n lvl asn q m reason
      ≡ some (
          verdict
            (state_of (any_matches xs asn m))
            (if want then reason ++ rest_of xs asn m else reason))
unfolding validate_loop height any_matches
loop_lem fuel mem k want null lvl asn q m reason xs ok h is n = cc
loop_lem zero mem k want (node e l r) lvl asn q m reason xs ok h is n = absurd (omega arith)
loop_lem (suc fuel) mem k want (node e l r) lvl asn q m reason xs ok h (is, _) n =
    let child = if is_left_child q lvl then l else r in
    let hit = trie_lookup child q m (suc lvl) in
    let split = Bool-cases (is_left_child q lvl) in
    let low : height hit.at ≤ fuel =
      omega
        (arith, height-trie_lookup child q m (suc lvl), height_child l r (is_left_child q lvl)) in
    let is' : xs ≡ e ∷ covering child q m (suc lvl) = elim split [
      | inl b ↦ rw b (rw b at is)
      | inr b ↦ rw b (rw b at is)
    ] in
    rw is' (
      loop_round e (covering child q m (suc lvl)) asn m want reason _ (
        next_lem (λ n' lvl' reason'. validate_loop fuel mem (suc k) want n' lvl' asn q m reason')
          (want && not (mem k)) want reason hit.at hit.lvl (covering child q m (suc lvl)) asn q m
          (ok k) (trie_lookup_lem child q m (suc lvl))
          (λ reason' nn.
            loop_lem fuel mem (suc k) want hit.at hit.lvl asn q m reason'
              (covering child q m (suc lvl)) ok low (trie_lookup_lem child q m (suc lvl)) nn)))
