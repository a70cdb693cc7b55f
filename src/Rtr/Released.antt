-- ===== src/Rtr/Released.antt =====
-- The ASPA part of rtr_sync_update_tables in rtr/packets.c: `update_lock` of the ASPA table is released.
use rtrlib.Prelude.{
  ◌≤◌, suc, length, ◌≢◌, ℕ, ◌≡◌, ◌⊎◌, inl, inr, refl, sym, subst, Bool, true, false, Bool-cases,
  Option, none, some, List, [], ◌∷◌, arith,
}
use rtrlib.Aspa.Array.{
  AspaStatus, success, error, duplicate_record, record_not_found, not_initialized, AspaArray,
}
use rtrlib.Aspa.Table.{AspaTable, AspaNode, aspa_store_get_node}
use rtrlib.Aspa.Update.{UpdateOperation, Progress, Memory, aspa_table_update_compute_internal}
use rtrlib.Aspa.Merge.{enough}
use rtrlib.Aspa.NoError.{IsReason, IsOutcome, compute_from-IsOutcome}
use rtrlib.Aspa.Intact.{created}
use rtrlib.Aspa.Held.{array_of}
use rtrlib.Aspa.Discard.{
  HasArrays, overrun_of, IsEnd, not_begun, went_on, compute-IsEnd, discard-IsEnd, held_for,
  IsUndone,
}
use rtrlib.Aspa.Swap.{
  Consumed, is_overrun, SwapOutcome, Allocations, computed, aspa_table_update_swap_in_compute,
  aspa_table_update_swap_in_consume, aspa_table_update_swap_in_apply,
  aspa_table_update_swap_in_discard,
}
use rtrlib.Rtr.Socket.{RtrSocket}
use rtrlib.Rtr.Update.{StoredPdu}
use rtrlib.Rtr.AspaUpdate.{
  AspaComputed, AspaUpdated, make_operations, nothing_computed, stopped, report_computed,
  report_failed, report_other, failed_operation, consume, rtr_compute_update_aspa_table,
  update_aspa,
}

compute_internal-IsOutcome :
    (b : Bool) (mem : Memory) (qsort : List ℕ → List ℕ) (a n : AspaArray)
    (ops : List UpdateOperation) (r : AspaArray)
    → mem ≡ enough
    → IsOutcome (aspa_table_update_compute_internal b mem qsort a n ops r)
unfolding aspa_table_update_compute_internal
compute_internal-IsOutcome b mem qsort a n ops r e =
    subst (λ m. IsOutcome (aspa_table_update_compute_internal b m qsort a n ops r)) (sym e)
      (compute_from-IsOutcome qsort 0 ops _)

-- `update_lock` is not held at the end, which is defined.
abbrev IsReleased : AspaUpdated → Type 0
IsReleased u = (c : Consumed) × (u.consumed ≡ some c) × (c.locked ≡ false)

not-IsReason :
    (v : AspaStatus) (f : Option ℕ)
    → v ≢ duplicate_record
    → v ≢ record_not_found
    → (p : ℕ) → f ≡ some p
    → ¬ ((v ≡ success) × (f ≡ none) ⊎ IsReason v × ((p : ℕ) × (f ≡ some p)))
not-IsReason v f a b p e h = elim h [
  | inl (x, y) ↦ ground (arith, e, y)
  | inr (inl x, y) ↦ a x
  | inr (inr x, y) ↦ b x
]

module _ (mem : ℕ → Bool) (s : RtrSocket) (t : AspaTable) (id : ℕ) (p : ℕ × AspaNode)
    (g : aspa_store_get_node t.store id ≡ some p) (ops : List UpdateOperation) (pr : Progress)
    (a : AspaArray) (intact : is_overrun a pr ≡ false) where
  release :
      (v : AspaStatus) (f : Option ℕ)
      → (v ≡ success) × (f ≡ none) ⊎ IsReason v × ((p : ℕ) × (f ≡ some p))
      → IsReleased (
          consume mem (
            report_computed s (
              computed t id a
                (record { status = v; operations = ops; failed = f; progress = pr }))))
  unfolding aspa_table_update_swap_in_apply aspa_table_update_swap_in_discard
      aspa_table_update_swap_in_consume
  release success none h = rw (intact, g) (_, refl, refl)
  release error none h = rw intact (_, refl, refl)
  release duplicate_record none h = rw intact (_, refl, refl)
  release record_not_found none h = rw intact (_, refl, refl)
  release not_initialized none h = rw intact (_, refl, refl)
  release duplicate_record (some i) h = rw intact (_, refl, refl)
  release record_not_found (some i) h = rw intact (_, refl, refl)
  release success (some i) h =
      absurd (not-IsReason success (some i) (λ e. ground arith) (λ e. ground arith) i refl h)
  release error (some i) h =
      absurd (not-IsReason error (some i) (λ e. ground arith) (λ e. ground arith) i refl h)
  release not_initialized (some i) h =
      absurd
        (not-IsReason not_initialized (some i) (λ e. ground arith) (λ e. ground arith) i refl h)

IsEnd-IsReleased :
    (mem : ℕ → Bool) (s : RtrSocket) (t : AspaTable) (id : ℕ) (appends : Memory)
    (qsort : List ℕ → List ℕ) (o : SwapOutcome)
    → appends ≡ enough
    → IsEnd t id appends qsort o
    → IsReleased (consume mem (report_computed s o))
unfolding aspa_table_update_swap_in_apply aspa_table_update_swap_in_discard
    aspa_table_update_swap_in_consume
IsEnd-IsReleased mem s t id appends qsort _ good (not_begun v (inl e)) = rw e (_, refl, refl)
IsEnd-IsReleased mem s t id appends qsort _ good (not_begun v (inr e)) = rw e (_, refl, refl)
IsEnd-IsReleased mem s t id appends qsort _ good (went_on t' a ops p c same g q intact) =
    release mem s t' id p g c.operations c.progress a intact c.status c.failed
      (subst IsOutcome q (compute_internal-IsOutcome true appends qsort a created ops created good))

-- What holds of the ASPA part at its end, which is defined: `update_lock` is not held; and not to proceed leaves
-- every socket's records, with no client told anything.
pub record IsFinished (t : AspaTable) (u : AspaUpdated) : Type 0 where
  pub left : Consumed
  pub consumed : u.consumed ≡ some left
  pub released : left.locked ≡ false
  pub all_or_none :
      (u.proceed ≡ true) ⊎ ((x : ℕ) → held_for left.table x ≡ held_for t x) × (left.told ≡ [])

finished :
    (mem : ℕ → Bool) (t : AspaTable) (c : AspaComputed)
    → IsReleased (consume mem c)
    → (d : Consumed) × (aspa_table_update_swap_in_discard mem c.swap.table c.swap.update
          c.swap.locked
        ≡ some d)
      × IsUndone t d
    → IsFinished t (consume mem c)
finished mem t c (l, r, k) (d, q, h) = elim (Bool-cases c.done) [
  | inl e ↦ record { left = l; consumed = r; released = k; all_or_none = inl e }
  | inr e ↦ record {
    left = d;
    consumed = rw (consume, e) q;
    released = h.unlocked;
    all_or_none = inr (h.same, h.silent);
  }
]

swap_failed : (s : RtrSocket) (o : SwapOutcome) (v : AspaStatus) → (report_failed s o v).swap ≡ o
swap_failed s o success = refl
swap_failed s o error = refl
swap_failed s o duplicate_record = refl
swap_failed s o record_not_found = refl
swap_failed s o not_initialized = refl

swap_other : (s : RtrSocket) (o : SwapOutcome) (v : AspaStatus) → (report_other s o v).swap ≡ o
swap_other s o success = refl
swap_other s o error = refl
swap_other s o duplicate_record = refl
swap_other s o record_not_found = refl
swap_other s o not_initialized = refl

swap_of : (s : RtrSocket) (o : SwapOutcome) → (report_computed s o).swap ≡ o
swap_of s o = elim (Bool-cases (failed_operation o.update)) [
  | inl e ↦ rw (report_computed, e) (swap_failed s o o.status)
  | inr e ↦ rw (report_computed, e) (swap_other s o o.status)
]

operations_cases :
    (o : Option (List UpdateOperation))
    → (o ≡ none) ⊎ ((ops : List UpdateOperation) × (o ≡ some ops))
operations_cases none = inl refl
operations_cases (some ops) = inr (ops, refl)

make_operations-length :
    (i : ℕ) (pdus : List StoredPdu) (ops : List UpdateOperation)
    → make_operations i pdus ≡ some ops
    → length ops ≡ length pdus
unfolding make_operations
make_operations-length i [] ops e = ground arith
make_operations-length i (pdu ∷ pdus) ops e =
    elim (operations_cases (make_operations (suc i) pdus)) [
      | inl f ↦ ground (arith, e, f)
      | inr (later, f) ↦ let k = make_operations-length (suc i) pdus later f in ground arith
    ]

nothing-IsFinished :
    (mem : ℕ → Bool) (s : RtrSocket) (t : AspaTable) (codes : List ℕ)
    → IsFinished t (consume mem (stopped s (nothing_computed t) codes))
unfolding aspa_table_update_swap_in_discard aspa_table_update_swap_in_consume
nothing-IsFinished mem s t codes = record {
  left = _;
  consumed = refl;
  released = refl;
  all_or_none = inr ((λ x. refl), refl);
}

-- Where the arrays and the node of the update can be made, the space it asks for first and the memory of its
-- appends can be had, with at most 169 PDUs, a sorting that keeps the number of operations, and the socket's
-- array not overrun, whether or not the operations and the update can be allocated: update_aspa ends, with
-- `update_lock` released; and it either proceeds, or the table holds every socket's records from before and no
-- client has been told anything. What it frees is left out.
pub update_aspa-IsFinished :
    (ops_ok : Bool) (m : Allocations) (qsort : List ℕ → List ℕ)
    (sort_operations : List UpdateOperation → List UpdateOperation) (mem : ℕ → Bool) (id : ℕ)
    (s : RtrSocket) (t : AspaTable) (pdus : List StoredPdu)
    → HasArrays m
    → m.appends ≡ enough
    → ((xs : List UpdateOperation) → length (sort_operations xs) ≡ length xs)
    → length pdus ≤ 169
    → overrun_of (array_of t.store id) ≡ false
    → IsFinished t (update_aspa ops_ok m qsort sort_operations mem id s t pdus)
unfolding update_aspa rtr_compute_update_aspa_table aspa_table_update_swap_in_apply
    aspa_table_update_swap_in_consume
update_aspa-IsFinished ops_ok m qsort sort_operations mem id s t [] has good keeps few intact =
    record { left = _; consumed = refl; released = refl; all_or_none = inl refl }
update_aspa-IsFinished ops_ok m qsort sort_operations mem id s t (pdu ∷ pdus) has good keeps few
      intact =
    elim (Bool-cases ops_ok) [
      | inr k ↦ rw k (nothing-IsFinished mem s t [])
      | inl k ↦ elim (operations_cases (make_operations 0 (pdu ∷ pdus))) [
        | inl e ↦ rw (k, e) (nothing-IsFinished mem s t (9 ∷ []))
        | inr (ops, e) ↦
            let o = aspa_table_update_swap_in_compute m qsort sort_operations t id ops in
            let n = make_operations-length 0 (pdu ∷ pdus) ops e in
            let end =
              compute-IsEnd m qsort sort_operations t id ops has keeps
                (subst (λ i. i ≤ 169) (sym n) few) intact in
            rw (k, e)
              (finished mem t (report_computed s o)
                (IsEnd-IsReleased mem s t id m.appends qsort o good end)
                (subst
                  (λ (x : SwapOutcome).
                    (d : Consumed) × (aspa_table_update_swap_in_discard mem x.table x.update
                        x.locked
                      ≡ some d)
                    × IsUndone t d)
                  (sym (swap_of s o)) (discard-IsEnd mem t id m.appends qsort o end)))
      ]
    ]
