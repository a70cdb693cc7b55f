-- ===== src/Aspa/Rounds.antt =====
-- The rounds of aspa_table_update_compute_internal of aspa/aspa.c on operations of different customers.
use rtrlib.Prelude.{
  ℕ, suc, ◌≡◌, refl, sym, ap, ◌∙◌, subst, Bool, true, false, ◌==◌, Option, none, some, List, [],
  ◌∷◌, ◌++◌, arith,
}
use rtrlib.Aspa.Hop.{AspaRecord}
use rtrlib.Aspa.Table.{AspaOperation, add, remove}
use rtrlib.Aspa.Update.{
  providers_of, UpdateOperation, Progress, one, matches, first, rest, next_is, sorted,
  with_providers, append_new, copy_smaller, note_replaced, append_added, if_cancelled, handle_add,
  handle_remove, handle, round, copy_rest, last_of, skip_same, finish, also, compute_from,
}
use rtrlib.Aspa.Sorted.{HasCustomer, OpsAbove, small, large}
use rtrlib.Aspa.Customers.{AllAbove-large, IsSorted-rest, matches-HasCustomer, matches-none}
use rtrlib.Aspa.Merge.{
  enough, append_new_lem, append_assoc, append_nil, last_of-append, skip_same-Ahead,
  copy_smaller_lem, Ahead, IsAt,
}

abbrev pub next_of : List UpdateOperation → Option UpdateOperation
next_of [] = none
next_of (op ∷ ops) = some op

next_is-OpsAbove :
    (b : Bool) (c : ℕ) (ops : List UpdateOperation)
    → OpsAbove c ops
    → next_is b c (next_of ops) ≡ false
next_is-OpsAbove b c [] h = refl
next_is-OpsAbove b c (op ∷ ops) h =
    let k : (op.rec.customer_asn == c) ≡ false = ground (arith, h.0) in rw k refl

-- An operation with its providers sorted.
abbrev pub prepared : (List ℕ → List ℕ) → UpdateOperation → UpdateOperation
prepared qsort op = with_providers op (sorted qsort op.rec.provider_asns)

round_at :
    (qsort : List ℕ → List ℕ) (cur : UpdateOperation) (next : Option UpdateOperation)
    (st : Progress) (es : List AspaRecord)
    → st.existing ≡ es
    → (copy_smaller enough cur.rec.customer_asn es st).0 ≡ true
    → round enough qsort cur next st
      ≡ handle enough
          (prepared qsort cur)
          next
          (true, (copy_smaller enough cur.rec.customer_asn es st).1)
unfolding round
round_at qsort cur next st es e h =
    ap
      (λ z. handle enough (prepared qsort cur) next (copy_smaller enough cur.rec.customer_asn z st))
      e
    ∙ ap
        (λ b.
          handle enough (prepared qsort cur) next
            (b, (copy_smaller enough cur.rec.customer_asn es st).1))
        h

note_none :
    (cur : UpdateOperation) (o : Option AspaRecord) (st : Progress)
    → matches cur.rec.customer_asn o ≡ false
    → note_replaced enough cur o st ≡ one cur st
note_none cur none st h = refl
note_none cur (some e) st h = rw (note_replaced, h) refl

added_lem :
    (cur : UpdateOperation) (st : Progress)
    → matches cur.rec.customer_asn (first st.existing) ≡ false
    → append_added enough cur st ≡ one cur (append_new enough st cur.rec true).1
added_lem cur st h =
    rw (append_added, (append_new_lem st cur.rec true).0)
      (note_none cur (first st.existing) (append_new enough st cur.rec true).1 h)

if_cancelled_lem :
    (cur : UpdateOperation) (next : Option UpdateOperation) (st : Progress)
    → next_is false cur.rec.customer_asn next ≡ false
    → if_cancelled enough cur next st ≡ append_added enough cur st
if_cancelled_lem cur none st h = refl
if_cancelled_lem cur (some n) st h = rw (if_cancelled, h) refl

handle_lem :
    (cur : UpdateOperation) (next : Option UpdateOperation) (st : Progress) (o : AspaOperation)
    → cur.operation ≡ o
    → handle enough cur next (true, st)
      ≡ elim o [ add ↦ handle_add enough cur next st | remove ↦ handle_remove cur next st ]
unfolding handle
handle_lem cur next st o e =
    ap
      (λ (o : AspaOperation). elim o [
        | add ↦ handle_add enough cur next st
        | remove ↦ handle_remove cur next st
      ])
      e

handle_add_lem :
    (cur : UpdateOperation) (next : Option UpdateOperation) (st : Progress)
    → cur.operation ≡ add
    → ((b : Bool) → next_is b cur.rec.customer_asn next ≡ false)
    → matches cur.rec.customer_asn (first st.existing) ≡ false
    → handle enough cur next (true, st) ≡ one cur (append_new enough st cur.rec true).1
unfolding handle_add
handle_add_lem cur next st e n m =
    handle_lem cur next st add e
    ∙ rw (handle_add, n true) (if_cancelled_lem cur next st (n false) ∙ added_lem cur st m)

handle_remove_lem :
    (cur : UpdateOperation) (next : Option UpdateOperation) (st : Progress)
    → cur.operation ≡ remove
    → ((b : Bool) → next_is b cur.rec.customer_asn next ≡ false)
    → matches cur.rec.customer_asn (first st.existing) ≡ true
    → handle enough cur next (true, st)
      ≡ one
          (with_providers cur (providers_of (first st.existing)))
          (record st { existing = rest st.existing })
unfolding handle_remove
handle_remove_lem cur next st e n m =
    handle_lem cur next st remove e ∙ rw (handle_remove, m, n false) refl

-- A round that deals with one operation.
pub compute_step :
    (qsort : List ℕ → List ℕ) (i : ℕ) (cur c : UpdateOperation) (ops : List UpdateOperation)
    (st st' : Progress)
    → round enough qsort cur (next_of ops) st ≡ one c st'
    → compute_from enough qsort i (cur ∷ ops) st
      ≡ also c (compute_from enough qsort (suc i) ops st')
unfolding compute_from
compute_step qsort i cur c [] st st' h = rw (compute_from, h) refl
compute_step qsort i cur c (op ∷ ops) st st' h = rw (compute_from, h) refl

copy_rest_lem :
    (es : List AspaRecord) (st : Progress)
    → (copy_rest enough es st).new_array.records ≡ st.new_array.records ++ es
unfolding copy_rest
copy_rest_lem [] st = sym (append_nil st.new_array.records)
copy_rest_lem (e ∷ es) st =
    copy_rest_lem es (append_new enough st e false).1
    ∙ ap (λ z. z ++ es) (append_new_lem st e false).1
    ∙ append_assoc st.new_array.records (e ∷ []) es

pub finish_lem :
    (st : Progress) (acc es : List AspaRecord)
    → IsAt st acc es
    → (finish enough st).new_array.records ≡ acc ++ es
unfolding finish
finish_lem st acc es h =
    copy_rest_lem (skip_same (last_of st.new_array.records) st.existing) st
    ∙ ap (λ z. z ++ skip_same (last_of z) st.existing) h.records
    ∙ ap (λ z. acc ++ skip_same (last_of acc) z) h.existing
    ∙ ap (λ z. acc ++ z) (skip_same-Ahead (last_of acc) es h.ahead)

Ahead-rest : (l : Option AspaRecord) (es : List AspaRecord) → Ahead l es → Ahead l (rest es)
Ahead-rest none es h = tt
Ahead-rest (some l) [] h = tt
Ahead-rest (some l) (e ∷ es) h = h.1

-- One addition: the state after its round.
pub add_round :
    (qsort : List ℕ → List ℕ) (cur : UpdateOperation) (ops : List UpdateOperation) (st : Progress)
    (acc es : List AspaRecord)
    → IsAt st acc es
    → OpsAbove cur.rec.customer_asn ops
    → cur.operation ≡ add
    → (¬ HasCustomer cur.rec.customer_asn es)
    → (st' : Progress) × (round enough qsort cur (next_of ops) st ≡ one (prepared qsort cur) st')
      × IsAt st'
          ((acc ++ small cur.rec.customer_asn es) ++ (prepared qsort cur).rec ∷ [])
          (large cur.rec.customer_asn es)
add_round qsort cur ops st acc es w above e miss =
    let c = cur.rec.customer_asn in
    let (ok, at) = copy_smaller_lem c acc es st w.records w.ahead w.in_order in
    let st1 = (copy_smaller enough c es st).1 in
    let m = matches-none c es miss in
    let h = append_new_lem st1 (prepared qsort cur).rec true in
    (
      (append_new enough st1 (prepared qsort cur).rec true).1,
      round_at qsort cur (next_of ops) st es w.existing ok
          ∙ handle_add_lem (prepared qsort cur) (next_of ops) st1 e
              (λ b. next_is-OpsAbove b c ops above) (ap (λ z. matches c (first z)) at.existing ∙ m),
      record {
        records = h.1 ∙ ap (λ z. z ++ (prepared qsort cur).rec ∷ []) at.records;
        existing = h.2 ∙ at.existing;
        ahead =
            subst (λ z. Ahead z (large c es))
              (sym (last_of-append (acc ++ small c es) (prepared qsort cur).rec))
              (AllAbove-large c es w.in_order m);
        in_order = at.in_order;
      },
    )

-- One removal.
pub remove_round :
    (qsort : List ℕ → List ℕ) (cur : UpdateOperation) (ops : List UpdateOperation) (st : Progress)
    (acc es : List AspaRecord)
    → IsAt st acc es
    → OpsAbove cur.rec.customer_asn ops
    → cur.operation ≡ remove
    → HasCustomer cur.rec.customer_asn es
    → (op : UpdateOperation) × (st' : Progress) × (round enough qsort cur (next_of ops) st
        ≡ one op st')
      × IsAt st' (acc ++ small cur.rec.customer_asn es) (rest (large cur.rec.customer_asn es))
remove_round qsort cur ops st acc es w above e hit =
    let c = cur.rec.customer_asn in
    let (ok, at) = copy_smaller_lem c acc es st w.records w.ahead w.in_order in
    let st1 = (copy_smaller enough c es st).1 in
    let m = matches-HasCustomer c es w.in_order hit in
    (
      with_providers (prepared qsort cur) (providers_of (first st1.existing)),
      record st1 { existing = rest st1.existing },
      round_at qsort cur (next_of ops) st es w.existing ok
          ∙ handle_remove_lem (prepared qsort cur) (next_of ops) st1 e
              (λ b. next_is-OpsAbove b c ops above) (ap (λ z. matches c (first z)) at.existing ∙ m),
      record {
        records = at.records;
        existing = ap rest at.existing;
        ahead = Ahead-rest (last_of (acc ++ small c es)) (large c es) at.ahead;
        in_order = IsSorted-rest (large c es) at.in_order;
      },
    )
