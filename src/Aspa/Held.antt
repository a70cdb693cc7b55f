-- ===== src/Aspa/Held.antt =====
-- The records that the ASPA table of aspa/aspa.c holds for a socket, after the operations on the store.
use rtrlib.Prelude.{
  ℕ, suc, ◌≡◌, ◌≢◌, ◌⊎◌, inl, inr, refl, sym, ap, ◌∙◌, subst, true, false, Bool-cases, ◌==◌, Option,
  none, some, List, [], ◌∷◌, arith,
}
use rtrlib.Aspa.Array.{AspaArray}
use rtrlib.Aspa.Table.{AspaNode, aspa_store_get_node, aspa_store_remove_node, set_array, next_index}

abbrev pub array_at : Option (ℕ × AspaNode) → Option AspaArray
array_at none = none
array_at (some (i, n)) = some n.array

-- The array of the first node of the socket.
abbrev pub array_of : List AspaNode → ℕ → Option AspaArray
array_of ns s = array_at (aspa_store_get_node ns s)

-- Node `n` is the first of its socket, with index `i`.
pub data IsFirst : List AspaNode → ℕ → ℕ → AspaNode → Type 0 where
  here :
      {s : ℕ} (n : AspaNode) (ns : List AspaNode) → (n.socket == s) ≡ true → IsFirst (n ∷ ns) s 0 n
  there :
      {s i : ℕ} {m : AspaNode} (n : AspaNode) (ns : List AspaNode)
      → (n.socket == s) ≡ false
      → IsFirst ns s i m
      → IsFirst (n ∷ ns) s (suc i) m

pub get_here :
    (n : AspaNode) (ns : List AspaNode) (s : ℕ)
    → (n.socket == s) ≡ true
    → aspa_store_get_node (n ∷ ns) s ≡ some (0, n)
unfolding aspa_store_get_node
get_here n ns s e = rw (aspa_store_get_node, e) refl

get_there :
    (n : AspaNode) (ns : List AspaNode) (s : ℕ)
    → (n.socket == s) ≡ false
    → aspa_store_get_node (n ∷ ns) s ≡ next_index (aspa_store_get_node ns s)
unfolding aspa_store_get_node
get_there n ns s e = rw (aspa_store_get_node, e) refl

-- What aspa_store_get_node finds.
pub get_node_lem :
    (ns : List AspaNode) (s : ℕ)
    → (aspa_store_get_node ns s ≡ none)
      ⊎ ((i : ℕ) × (n : AspaNode) × (aspa_store_get_node ns s ≡ some (i, n)) × IsFirst ns s i n)
unfolding aspa_store_get_node
get_node_lem [] s = inl refl
get_node_lem (n ∷ ns) s = elim (Bool-cases (n.socket == s)) [
  | inl e ↦ inr (0, n, get_here n ns s e, here n ns e)
  | inr e ↦ elim (get_node_lem ns s) [
    | inl h ↦ inl (get_there n ns s e ∙ ap next_index h)
    | inr (i, m, h, f) ↦ inr (suc i, m, get_there n ns s e ∙ ap next_index h, there n ns e f)
  ]
]

pub get_first :
    {ns : List AspaNode} {s i : ℕ} {n : AspaNode}
    → IsFirst ns s i n
    → aspa_store_get_node ns s ≡ some (i, n)
get_first {s = s} (here n ns e) = get_here n ns s e
get_first {s = s} (there n ns e f) = get_there n ns s e ∙ ap next_index (get_first f)

array_of-there :
    (n : AspaNode) (ns : List AspaNode) (s : ℕ)
    → (n.socket == s) ≡ false
    → array_of (n ∷ ns) s ≡ array_of ns s
array_of-there n ns s e = ap array_at (get_there n ns s e) ∙ of_next (aspa_store_get_node ns s)
  where
    of_next : (o : Option (ℕ × AspaNode)) → array_at (next_index o) ≡ array_at o
    of_next none = refl
    of_next (some (i, n)) = refl

array_of-here :
    (n : AspaNode) (ns : List AspaNode) (s : ℕ)
    → (n.socket == s) ≡ true
    → array_of (n ∷ ns) s ≡ some n.array
array_of-here n ns s e = ap array_at (get_here n ns s e)

array_of-cons :
    (n : AspaNode) (ns ms : List AspaNode) (s : ℕ)
    → array_of ns s ≡ array_of ms s
    → array_of (n ∷ ns) s ≡ array_of (n ∷ ms) s
array_of-cons n ns ms s h = elim (Bool-cases (n.socket == s)) [
  | inl e ↦ array_of-here n ns s e ∙ sym (array_of-here n ms s e)
  | inr e ↦ array_of-there n ns s e ∙ h ∙ sym (array_of-there n ms s e)
]

-- The array of the socket is the one that was set, and the others stay.
pub array_of-set_array :
    {ns : List AspaNode} {s i : ℕ} {n : AspaNode} (a : AspaArray)
    → IsFirst ns s i n
    → array_of (set_array ns i a) s ≡ some a
unfolding set_array
array_of-set_array {s = s} a (here n ns e) = array_of-here (record n { array = a }) ns s e
array_of-set_array {s = s} a (there {i = i} n ns e f) =
    array_of-there n (set_array ns i a) s e ∙ array_of-set_array a f

differs : (x s u : ℕ) → (x == s) ≡ true → u ≢ s → (x == u) ≡ false
differs x s u e n = ground arith

pub array_of-set_array_other :
    {ns : List AspaNode} {s i : ℕ} {n : AspaNode} (a : AspaArray) (u : ℕ)
    → IsFirst ns s i n
    → u ≢ s
    → array_of (set_array ns i a) u ≡ array_of ns u
unfolding set_array
array_of-set_array_other {s = s} a u (here n ns e) d =
    let k = differs n.socket s u e d in
    array_of-there (record n { array = a }) ns u k ∙ sym (array_of-there n ns u k)
array_of-set_array_other a u (there {i = i} n ns e f) d =
    array_of-cons n (set_array ns i a) ns u (array_of-set_array_other a u f d)

pub array_of-remove_other :
    {ns : List AspaNode} {s i : ℕ} {n : AspaNode} (u : ℕ)
    → IsFirst ns s i n
    → u ≢ s
    → array_of (aspa_store_remove_node ns i) u ≡ array_of ns u
unfolding aspa_store_remove_node
array_of-remove_other {s = s} u (here n ns e) d =
    sym (array_of-there n ns u (differs n.socket s u e d))
array_of-remove_other u (there {i = i} n ns e f) d =
    array_of-cons n (aspa_store_remove_node ns i) ns u (array_of-remove_other u f d)

-- Every socket has at most one node.
abbrev pub HasNone : ℕ → List AspaNode → Type 0
HasNone s [] = Unit {0}
HasNone s (n ∷ ns) = ((n.socket == s) ≡ false) × HasNone s ns

abbrev pub IsStore : List AspaNode → Type 0
IsStore [] = Unit {0}
IsStore (n ∷ ns) = HasNone n.socket ns × IsStore ns

array_of-HasNone : (s : ℕ) (ns : List AspaNode) → HasNone s ns → array_of ns s ≡ none
unfolding aspa_store_get_node
array_of-HasNone s [] h = refl
array_of-HasNone s (n ∷ ns) h = array_of-there n ns s h.0 ∙ array_of-HasNone s ns h.1

pub HasNone-array_of : (s : ℕ) (ns : List AspaNode) → aspa_store_get_node ns s ≡ none → HasNone s ns
unfolding aspa_store_get_node
HasNone-array_of s [] h = tt
HasNone-array_of s (n ∷ ns) h = elim (Bool-cases (n.socket == s)) [
  | inl e ↦ ground (arith, get_here n ns s e)
  | inr e ↦ (e, HasNone-array_of s ns (of_none (sym (get_there n ns s e) ∙ h)))
]
  where
    of_none : {o : Option (ℕ × AspaNode)} → next_index o ≡ none → o ≡ none
    of_none {o = none} q = refl
    of_none {o = some (i, n)} q = ground arith

HasNone-remove :
    {ns : List AspaNode} {s i : ℕ} {n : AspaNode} (u : ℕ)
    → IsFirst ns s i n
    → HasNone u ns
    → HasNone u (aspa_store_remove_node ns i)
unfolding aspa_store_remove_node
HasNone-remove u (here n ns e) h = h.1
HasNone-remove u (there n ns e f) h = (h.0, HasNone-remove u f h.1)

HasNone-set_array :
    {ns : List AspaNode} {s i : ℕ} {n : AspaNode} (a : AspaArray) (u : ℕ)
    → IsFirst ns s i n
    → HasNone u ns
    → HasNone u (set_array ns i a)
unfolding set_array
HasNone-set_array a u (here n ns e) h = h
HasNone-set_array a u (there n ns e f) h = (h.0, HasNone-set_array a u f h.1)

same_socket : (x s : ℕ) (ns : List AspaNode) → (x == s) ≡ true → HasNone x ns → HasNone s ns
same_socket x s ns e h = subst (λ z. HasNone z ns) (ground arith) h

pub array_of-remove :
    {ns : List AspaNode} {s i : ℕ} {n : AspaNode}
    → IsFirst ns s i n
    → IsStore ns
    → array_of (aspa_store_remove_node ns i) s ≡ none
unfolding aspa_store_remove_node
array_of-remove {s = s} (here n ns e) w = array_of-HasNone s ns (same_socket n.socket s ns e w.0)
array_of-remove {s = s} (there {i = i} n ns e f) w =
    array_of-there n (aspa_store_remove_node ns i) s e ∙ array_of-remove f w.1

pub IsStore-remove :
    {ns : List AspaNode} {s i : ℕ} {n : AspaNode}
    → IsFirst ns s i n
    → IsStore ns
    → IsStore (aspa_store_remove_node ns i)
unfolding aspa_store_remove_node
IsStore-remove (here n ns e) w = w.1
IsStore-remove (there n ns e f) w = (HasNone-remove n.socket f w.0, IsStore-remove f w.1)

pub IsStore-set_array :
    {ns : List AspaNode} {s i : ℕ} {n : AspaNode} (a : AspaArray)
    → IsFirst ns s i n
    → IsStore ns
    → IsStore (set_array ns i a)
unfolding set_array
IsStore-set_array a (here n ns e) w = w
IsStore-set_array a (there n ns e f) w =
    (HasNone-set_array a n.socket f w.0, IsStore-set_array a f w.1)

pub array_of-cons_here :
    (socket : ℕ) (a : AspaArray) (ns : List AspaNode)
    → array_of (record { socket = socket; array = a } ∷ ns) socket ≡ some a
array_of-cons_here socket a ns =
    array_of-here (record { socket = socket; array = a }) ns socket (ground arith)

pub array_of-cons_other :
    (socket : ℕ) (a : AspaArray) (ns : List AspaNode) (s : ℕ)
    → s ≢ socket
    → array_of (record { socket = socket; array = a } ∷ ns) s ≡ array_of ns s
array_of-cons_other socket a ns s d =
    array_of-there (record { socket = socket; array = a }) ns s (ground arith)
