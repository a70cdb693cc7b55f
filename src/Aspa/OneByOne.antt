-- ===== src/Aspa/OneByOne.antt =====
-- aspa_table_update_compute_internal of aspa/aspa.c does what its operations do one at a time.
use rtrlib.Prelude.{
  ℕ, suc, ◌≡◌, ◌⊎◌, inl, inr, refl, sym, ap, ◌∙◌, subst, Bool, true, none, List, [], ◌∷◌, ◌++◌,
  arith,
}
use rtrlib.Aspa.Hop.{AspaRecord}
use rtrlib.Aspa.Array.{success, AspaArray, aspa_array_reserve}
use rtrlib.Aspa.Table.{AspaOperation, add, remove}
use rtrlib.Aspa.Update.{
  UpdateOperation, Computed, Progress, matches, first, rest, compute_from,
  aspa_table_update_compute_internal,
}
use rtrlib.Aspa.Sorted.{
  IsSorted, OpsAbove, IsOrdered, Fits, AllFit, small, large, apply_all, push, push_small,
  insert_record_lem, delete_record_lem,
}
use rtrlib.Aspa.Customers.{matches-HasCustomer, AllFit-large, AllFit-rest}
use rtrlib.Aspa.Merge.{enough, append_assoc, IsAt}
use rtrlib.Aspa.Rounds.{compute_step, finish_lem, add_round, remove_round, prepared}
use rtrlib.Aspa.Sorted.{insert_record, delete_record}

added_list :
    (qsort : List ℕ → List ℕ) (cur : UpdateOperation) (ops : List UpdateOperation)
    (acc es : List AspaRecord)
    → OpsAbove cur.rec.customer_asn ops
    → cur.operation ≡ add
    → ((acc ++ small cur.rec.customer_asn es) ++ (prepared qsort cur).rec ∷ [])
        ++ apply_all qsort ops (large cur.rec.customer_asn es)
      ≡ acc ++ apply_all qsort (cur ∷ ops) es
added_list qsort cur ops acc es above e =
    let c = cur.rec.customer_asn in
    let r = (prepared qsort cur).rec in
    append_assoc (acc ++ small c es) (r ∷ []) (apply_all qsort ops (large c es))
    ∙ append_assoc acc (small c es) (r ∷ apply_all qsort ops (large c es))
    ∙ ap (λ z. acc ++ z)
        (ap (λ z. small c es ++ z) (sym (push qsort ops r (large c es) above))
          ∙ sym (push_small qsort ops c es (r ∷ large c es) above)
          ∙ ap (apply_all qsort ops) (
              sym (insert_record_lem r es)
              ∙ ap
                  (λ (o : AspaOperation). elim o [
                    | add ↦ insert_record r es
                    | remove ↦ delete_record c es
                  ])
                  (sym e)))

removed_list :
    (qsort : List ℕ → List ℕ) (cur : UpdateOperation) (ops : List UpdateOperation)
    (acc es : List AspaRecord)
    → OpsAbove cur.rec.customer_asn ops
    → cur.operation ≡ remove
    → matches cur.rec.customer_asn (first (large cur.rec.customer_asn es)) ≡ true
    → (acc ++ small cur.rec.customer_asn es)
        ++ apply_all qsort ops (rest (large cur.rec.customer_asn es))
      ≡ acc ++ apply_all qsort (cur ∷ ops) es
removed_list qsort cur ops acc es above e m =
    let c = cur.rec.customer_asn in
    append_assoc acc (small c es) (apply_all qsort ops (rest (large c es)))
    ∙ ap (λ z. acc ++ z)
        (sym (push_small qsort ops c es (rest (large c es)) above)
          ∙ ap (apply_all qsort ops) (
              sym (delete_record_lem c es m)
              ∙ ap
                  (λ (o : AspaOperation). elim o [
                    | add ↦ insert_record (prepared qsort cur).rec es
                    | remove ↦ delete_record c es
                  ])
                  (sym e)))

-- The call succeeds with these records.
abbrev pub Succeeds : List AspaRecord → Computed → Type 0
Succeeds rs o = (o.status ≡ success) × (o.failed ≡ none) × (o.progress.new_array.records ≡ rs)

kind_cases : (o : AspaOperation) → (o ≡ add) ⊎ (o ≡ remove)
kind_cases add = inl refl
kind_cases remove = inr refl

loop_lem :
    (qsort : List ℕ → List ℕ) (ops : List UpdateOperation) (i : ℕ) (st : Progress)
    (acc es : List AspaRecord)
    → IsAt st acc es
    → IsOrdered ops
    → AllFit ops es
    → Succeeds (acc ++ apply_all qsort ops es) (compute_from enough qsort i ops st)
unfolding compute_from
loop_lem qsort [] i st acc es w od fit = (refl, refl, finish_lem st acc es w)
loop_lem qsort (cur ∷ ops) i st acc es w od fit = elim (kind_cases cur.operation) [
  | inl e ↦
      let c = cur.rec.customer_asn in
      let miss = subst (λ o. Fits o c es) e fit.0 in
      let (st', q, at) = add_round qsort cur ops st acc es w od.0 e miss in
      let later =
        loop_lem qsort ops (suc i) st' ((acc ++ small c es) ++ (prepared qsort cur).rec ∷ [])
          (large c es) at od.1 (AllFit-large c ops es od.0 fit.1) in
      subst (Succeeds (acc ++ apply_all qsort (cur ∷ ops) es))
        (sym (compute_step qsort i cur (prepared qsort cur) ops st st' q))
        (later.0, later.1, later.2 ∙ added_list qsort cur ops acc es od.0 e)
  | inr e ↦
      let c = cur.rec.customer_asn in
      let hit = subst (λ o. Fits o c es) e fit.0 in
      let m = matches-HasCustomer c es w.in_order hit in
      let (op, st', q, at) = remove_round qsort cur ops st acc es w od.0 e hit in
      let later =
        loop_lem qsort ops (suc i) st' (acc ++ small c es) (rest (large c es)) at od.1
          (AllFit-rest c ops (large c es) od.0 m (AllFit-large c ops es od.0 fit.1)) in
      subst (Succeeds (acc ++ apply_all qsort (cur ∷ ops) es))
        (sym (compute_step qsort i cur op ops st st' q))
        (later.0, later.1, later.2 ∙ removed_list qsort cur ops acc es od.0 e m)
]

reserve_records :
    (ok : Bool) (a : AspaArray) (n : ℕ) → (aspa_array_reserve ok a n).array.records ≡ a.records
unfolding aspa_array_reserve
reserve_records ok a n = ground arith

-- Where the appends can allocate, the old array is sorted by customers, the operations rise strictly by their
-- customers, each added customer is not in the old array and each removed one is,
-- aspa_table_update_compute_internal succeeds without a failed operation, and the records of the new array,
-- empty before, are those that the operations leave when they are applied to the old array one at a time: an
-- addition puts its record in its place, with sorted providers, and a removal takes its customer's record out.
-- Whether the memory of the new array holds them is left aside.
pub aspa_table_update_compute_internal-one_by_one :
    (reserve : Bool) (qsort : List ℕ → List ℕ) (array new_array replaced : AspaArray)
    (ops : List UpdateOperation)
    → IsSorted array.records
    → IsOrdered ops
    → AllFit ops array.records
    → new_array.records ≡ []
    → Succeeds
        (apply_all qsort ops array.records)
        (aspa_table_update_compute_internal reserve enough qsort array new_array ops replaced)
unfolding aspa_table_update_compute_internal
aspa_table_update_compute_internal-one_by_one reserve qsort array new_array replaced ops w od fit
      e =
    loop_lem qsort ops 0 _ [] array.records
      (record {
        records = reserve_records reserve new_array _ ∙ e;
        existing = refl;
        ahead = tt;
        in_order = w;
      })
      od fit
