-- ===== src/Aspa/Discard.antt =====
-- Computing an update of aspa/aspa.c, and then discarding it: how aspa_table_update_swap_in_compute ends, where
-- its arrays can be made, and which records the table holds.
use rtrlib.Aspa.Intact.{aspa_table_update_compute_internal-IsIntact, created}
use rtrlib.Prelude.{
  ◌≤◌, length, ◌||◌, ℕ, ◌≡◌, ◌⊎◌, inl, inr, refl, sym, ap, ◌∙◌, subst, Bool, true, false,
  Bool-cases, Option, none, some, List, [], ◌∷◌, arith,
}
use rtrlib.Aspa.Hop.{AspaRecord}
use rtrlib.Aspa.Array.{
  duplicate_record, record_not_found, not_initialized, error, success, AspaStatus, AspaArray,
  aspa_array_create,
}
use rtrlib.Aspa.Table.{AspaNode, AspaTable, aspa_store_get_node, aspa_store_create_node}
use rtrlib.Aspa.Intact.{aspa_table_update_compute_internal-IsIntact}
use rtrlib.Aspa.Held.{
  get_here, get_here, array_of, array_at, get_node_lem, array_of-cons_here, array_of-cons_other,
}
use rtrlib.Aspa.Update.{
  Computed, aspa_table_update_compute_internal, aspa_table_update_compute_internal, Computed,
  Progress, Memory, UpdateOperation,
}
use rtrlib.Aspa.Swap.{
  is_overrun, result_of, result_of, discard_ready, computed, dropped,
  aspa_table_update_swap_in_consume, Allocations, SwapOutcome, Consumed, compute_for, make_node,
  compute_sorted, aspa_table_update_swap_in_compute, aspa_table_update_swap_in_discard,
}
use native.Mathlib.Decide.{ℕ_discrete}

abbrev pub records_in : Option AspaArray → List AspaRecord
records_in none = []
records_in (some a) = a.records

-- The records that the table holds for the socket; a node with an empty array is as good as none.
abbrev pub held_for : AspaTable → ℕ → List AspaRecord
held_for t s = records_in (array_of t.store s)

pub array_cases : (o : Option AspaArray) → (o ≡ none) ⊎ ((a : AspaArray) × (o ≡ some a))
array_cases none = inl refl
array_cases (some a) = inr (a, refl)

-- The arrays and the node of a call can be made, and the space that is asked for first can be had.
pub record HasArrays (m : Allocations) : Type 0 where
  pub first_array : m.first_array ≡ (true, true)
  pub new_node : m.new_node ≡ true
  pub new_array : m.new_array ≡ (true, true)
  pub replaced : m.replaced ≡ (true, true)
  pub reserve : m.reserve ≡ true

-- The socket's array, where there is one, has been overrun.
abbrev pub overrun_of : Option AspaArray → Bool
overrun_of none = false
overrun_of (some a) = a.overrun

create_lem : (p : Bool × Bool) → p ≡ (true, true) → aspa_array_create p.0 p.1 ≡ some created
unfolding aspa_array_create
create_lem p e = rw e refl

-- A new node with an empty array changes no socket's records.
same_with_node :
    (t : AspaTable) (socket : ℕ) (a : AspaArray)
    → aspa_store_get_node t.store socket ≡ none
    → a.records ≡ []
    → (s : ℕ)
    → held_for (record t { store = record { socket = socket; array = a } ∷ t.store }) s
      ≡ held_for t s
same_with_node t socket a g e s = elim (ℕ_discrete s socket) [
  | yes q ↦
      subst
        (λ s.
          records_in (array_of (record { socket = socket; array = a } ∷ t.store) s) ≡ held_for t s)
        (sym q)
        (ap records_in (array_of-cons_here socket a t.store)
          ∙ e
          ∙ sym (ap (λ o. records_in (array_at o)) g))
  | no q ↦ ap records_in (array_of-cons_other socket a t.store s q)
]

-- How the call ends: without an operation, without memory for the update, or with a result on arrays that have
-- not been overrun.
pub data IsEnd (t : AspaTable) (socket : ℕ) (mem : Memory) (qsort : List ℕ → List ℕ)
    : SwapOutcome → Type 0 where
  not_begun :
      (v : AspaStatus)
      → (v ≡ success) ⊎ (v ≡ error)
      → IsEnd t socket mem qsort (record { status = v; table = t; update = none; locked = false })
  went_on :
      (t' : AspaTable) (a : AspaArray) (ops : List UpdateOperation) (p : ℕ × AspaNode)
      (c : Computed)
      → ((s : ℕ) → held_for t' s ≡ held_for t s)
      → aspa_store_get_node t'.store socket ≡ some p
      → aspa_table_update_compute_internal true mem qsort a created ops created ≡ c
      → is_overrun a c.progress ≡ false
      → IsEnd t socket mem qsort (computed t' socket a c)

or_false : (a b c : Bool) → a ≡ false → b ≡ false → c ≡ false → (a || (b || c)) ≡ false
or_false a b c e f g = rw (e, f, g) refl

module _ (m : Allocations) (qsort : List ℕ → List ℕ) (has : HasArrays m) (t : AspaTable)
    (socket : ℕ) (ops : List UpdateOperation) (few : length ops ≤ 169) where
  compute_for_lem :
      (t' : AspaTable) (a : AspaArray)
      → compute_for m qsort t' socket a ops
        ≡ computed t' socket a
            (aspa_table_update_compute_internal true m.appends qsort a created ops created)
  unfolding compute_for
  compute_for_lem t' a =
      rw
        (
          compute_for,
          create_lem m.new_array has.new_array,
          create_lem m.replaced has.replaced,
          has.reserve,
        )
        refl

  compute_for-IsEnd :
      (t' : AspaTable) (a : AspaArray) (p : ℕ × AspaNode)
      → ((s : ℕ) → held_for t' s ≡ held_for t s)
      → aspa_store_get_node t'.store socket ≡ some p
      → a.overrun ≡ false
      → IsEnd t socket m.appends qsort (compute_for m qsort t' socket a ops)
  compute_for-IsEnd t' a p same g e =
      let h = aspa_table_update_compute_internal-IsIntact m.appends qsort a ops few in
      rw (compute_for_lem t' a) (
        went_on t' a ops p
          (aspa_table_update_compute_internal true m.appends qsort a created ops created) same g
          refl (or_false _ _ _ e h.0 h.1))

  make_node-IsEnd :
      aspa_store_get_node t.store socket ≡ none
      → IsEnd t socket m.appends qsort (make_node m qsort t socket ops)
  unfolding aspa_store_create_node
  make_node-IsEnd g =
      let n : AspaNode = record { socket = socket; array = created } in
      rw (make_node, create_lem m.first_array has.first_array, aspa_store_create_node, has.new_node)
        (compute_for-IsEnd (record t { store = n ∷ t.store }) created (0, n)
          (same_with_node t socket created g refl) (get_here n t.store socket (ground arith)) refl)

  compute_sorted-IsEnd :
      overrun_of (array_of t.store socket) ≡ false
      → IsEnd t socket m.appends qsort (compute_sorted m qsort t socket ops)
  compute_sorted-IsEnd e = elim (get_node_lem t.store socket) [
    | inl g ↦ rw (compute_sorted, g) (make_node-IsEnd g)
    | inr (i, n, g, f) ↦
        rw (compute_sorted, g)
          (compute_for-IsEnd t n.array (i, n) (λ s. refl) g
            (subst (λ o. overrun_of (array_at o) ≡ false) g e))
  ]

pub compute-IsEnd :
    (m : Allocations) (qsort : List ℕ → List ℕ)
    (sort_operations : List UpdateOperation → List UpdateOperation) (t : AspaTable) (socket : ℕ)
    (ops : List UpdateOperation)
    → HasArrays m
    → ((xs : List UpdateOperation) → length (sort_operations xs) ≡ length xs)
    → length ops ≤ 169
    → overrun_of (array_of t.store socket) ≡ false
    → IsEnd t socket m.appends qsort
        (aspa_table_update_swap_in_compute m qsort sort_operations t socket ops)
unfolding aspa_table_update_swap_in_compute
compute-IsEnd m qsort sort_operations t socket [] has keeps few e = not_begun success (inl refl)
compute-IsEnd m qsort sort_operations t socket (op ∷ ops) has keeps few e =
    elim (Bool-cases m.update) [
      | inl k ↦ rw k (
          compute_sorted-IsEnd m qsort has t socket (sort_operations (op ∷ ops))
            (subst (λ n. n ≤ 169) (sym (keeps (op ∷ ops))) few) e)
      | inr k ↦ rw k (not_begun error (inr refl))
    ]

-- What discarding leaves.
pub record IsUndone (t : AspaTable) (c : Consumed) : Type 0 where
  pub same : (s : ℕ) → held_for c.table s ≡ held_for t s
  pub silent : c.told ≡ []
  pub consumed : c.update ≡ none
  pub unlocked : c.locked ≡ false

discard_status :
    (t : AspaTable) (v : AspaStatus) (socket : ℕ) (p : Progress)
    → discard_ready t (result_of v socket p) ≡ some (dropped t)
discard_status t success socket p = refl
discard_status t duplicate_record socket p = refl
discard_status t record_not_found socket p = refl
discard_status t error socket p = refl
discard_status t not_initialized socket p = refl

pub discard-IsEnd :
    (mem : ℕ → Bool) (t : AspaTable) (socket : ℕ) (appends : Memory) (qsort : List ℕ → List ℕ)
    (o : SwapOutcome)
    → IsEnd t socket appends qsort o
    → (c : Consumed) × (aspa_table_update_swap_in_discard mem o.table o.update o.locked ≡ some c)
      × IsUndone t c
unfolding aspa_table_update_swap_in_discard aspa_table_update_swap_in_consume
discard-IsEnd mem t socket appends qsort _ (not_begun v h) =
    (dropped t, refl, record { same = λ s. refl; silent = refl; consumed = refl; unlocked = refl })
discard-IsEnd mem t socket appends qsort _ (went_on t' a ops p c same g q e) = (
  dropped t',
  rw e (discard_status t' c.status socket c.progress),
  record { same = same; silent = refl; consumed = refl; unlocked = refl },
)

-- Where the arrays and the node of a call of aspa_table_update_swap_in_compute can be made and the space it asks
-- for first can be had, with at most 169 operations, which the sorting keeps in number, and the socket's array
-- not overrun: what the call leaves can be discarded, whatever it returned and whichever other allocations
-- succeeded. Then every socket's records are those from before, no client is told anything, the update is gone,
-- and `update_lock` is not held.
pub discard-swap_in_compute :
    (m : Allocations) (qsort : List ℕ → List ℕ)
    (sort_operations : List UpdateOperation → List UpdateOperation) (t : AspaTable) (socket : ℕ)
    (ops : List UpdateOperation) (mem : ℕ → Bool)
    → HasArrays m
    → ((xs : List UpdateOperation) → length (sort_operations xs) ≡ length xs)
    → length ops ≤ 169
    → overrun_of (array_of t.store socket) ≡ false
    → let o = aspa_table_update_swap_in_compute m qsort sort_operations t socket ops in
      (c : Consumed) × (aspa_table_update_swap_in_discard mem o.table o.update o.locked ≡ some c)
      × IsUndone t c
discard-swap_in_compute m qsort sort_operations t socket ops mem has keeps few e =
    discard-IsEnd mem t socket m.appends qsort
      (aspa_table_update_swap_in_compute m qsort sort_operations t socket ops)
      (compute-IsEnd m qsort sort_operations t socket ops has keeps few e)
