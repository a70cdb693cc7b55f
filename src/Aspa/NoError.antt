-- ===== src/Aspa/NoError.antt =====
-- aspa_table_update_compute_internal of aspa/aspa.c where its appends can allocate: it does not answer ERROR.
use rtrlib.Prelude.{
  ℕ, suc, ◌≡◌, ◌⊎◌, inl, inr, refl, sym, ap, subst, true, false, Bool-cases, ltb, Option, none,
  some, List, [], ◌∷◌,
}
use rtrlib.Aspa.Hop.{AspaRecord}
use rtrlib.Aspa.Array.{AspaStatus, success, duplicate_record, record_not_found}
use rtrlib.Aspa.Table.{AspaOperation, add, remove}
use rtrlib.Aspa.Update.{
  UpdateOperation, Computed, Progress, Round, fail, one, two, matches, first, next_is, sorted,
  with_providers, append_new, append_replaced, copy_smaller, cancel, note_replaced, append_added,
  if_cancelled, handle_add, handle_remove, handle, round, also, compute_from,
}
use rtrlib.Aspa.Merge.{enough, append_new_lem, append_lem}

-- A round fails for a reason other than memory.
abbrev pub IsReason : AspaStatus → Type 0
IsReason v = (v ≡ duplicate_record) ⊎ (v ≡ record_not_found)

abbrev HasReason : Round → Type 0
HasReason (fail v n c st) = IsReason v
HasReason (one c st) = Unit {0}
HasReason (two c n st) = Unit {0}

append_replaced_lem : (st : Progress) (r : AspaRecord) → (append_replaced enough st r).0 ≡ true
unfolding append_replaced
append_replaced_lem st r =
    ap (λ (v : AspaStatus). elim v [ success ↦ true | _ ↦ false ])
      (append_lem st.replaced r false).0

copy_smaller_ok :
    (c : ℕ) (es : List AspaRecord) (st : Progress) → (copy_smaller enough c es st).0 ≡ true
unfolding copy_smaller
copy_smaller_ok c [] st = refl
copy_smaller_ok c (e ∷ es) st = elim (Bool-cases (ltb e.customer_asn c)) [
  | inl t ↦
      rw (copy_smaller, t, (append_new_lem st e false).0)
        (copy_smaller_ok c es (append_new enough st e false).1)
  | inr f ↦ rw (copy_smaller, f) refl
]

note_replaced-HasReason :
    (cur : UpdateOperation) (o : Option AspaRecord) (st : Progress)
    → HasReason (note_replaced enough cur o st)
note_replaced-HasReason cur none st = tt
note_replaced-HasReason cur (some e) st =
    elim (Bool-cases (matches cur.rec.customer_asn (some e))) [
      | inl t ↦ rw (note_replaced, t, append_replaced_lem st e) tt
      | inr f ↦ rw (note_replaced, f) tt
    ]

append_added-HasReason :
    (cur : UpdateOperation) (st : Progress) → HasReason (append_added enough cur st)
append_added-HasReason cur st =
    rw (append_added, (append_new_lem st cur.rec true).0)
      (note_replaced-HasReason cur (first st.existing) (append_new enough st cur.rec true).1)

cancel-HasReason : (cur next : UpdateOperation) (st : Progress) → HasReason (cancel cur next st)
cancel-HasReason cur next st =
    elim (Bool-cases (matches cur.rec.customer_asn (first st.existing))) [
      | inl t ↦ rw (cancel, t) tt
      | inr f ↦ rw (cancel, f) tt
    ]

if_cancelled-HasReason :
    (cur : UpdateOperation) (next : Option UpdateOperation) (st : Progress)
    → HasReason (if_cancelled enough cur next st)
if_cancelled-HasReason cur none st = append_added-HasReason cur st
if_cancelled-HasReason cur (some n) st =
    elim (Bool-cases (next_is false cur.rec.customer_asn (some n))) [
      | inl t ↦ rw (if_cancelled, t) (cancel-HasReason cur n st)
      | inr f ↦ rw (if_cancelled, f) (append_added-HasReason cur st)
    ]

handle_add-HasReason :
    (cur : UpdateOperation) (next : Option UpdateOperation) (st : Progress)
    → HasReason (handle_add enough cur next st)
unfolding handle_add
handle_add-HasReason cur next st = elim (Bool-cases (next_is true cur.rec.customer_asn next)) [
  | inl t ↦ rw (handle_add, t) (inl refl)
  | inr f ↦ rw (handle_add, f) (if_cancelled-HasReason cur next st)
]

handle_remove-HasReason :
    (cur : UpdateOperation) (next : Option UpdateOperation) (st : Progress)
    → HasReason (handle_remove cur next st)
unfolding handle_remove
handle_remove-HasReason cur next st =
    elim (Bool-cases (matches cur.rec.customer_asn (first st.existing))) [
      | inl t ↦ elim (Bool-cases (next_is false cur.rec.customer_asn next)) [
        | inl u ↦ rw (handle_remove, t, u) (inr refl)
        | inr u ↦ rw (handle_remove, t, u) tt
      ]
      | inr f ↦ rw (handle_remove, f) (inr refl)
    ]

handle-HasReason :
    (cur : UpdateOperation) (next : Option UpdateOperation) (st : Progress) (o : AspaOperation)
    → cur.operation ≡ o
    → HasReason (handle enough cur next (true, st))
unfolding handle
handle-HasReason cur next st add e = rw (handle, e) (handle_add-HasReason cur next st)
handle-HasReason cur next st remove e = rw (handle, e) (handle_remove-HasReason cur next st)

round-HasReason :
    (qsort : List ℕ → List ℕ) (cur : UpdateOperation) (next : Option UpdateOperation)
    (st : Progress)
    → HasReason (round enough qsort cur next st)
unfolding round
round-HasReason qsort cur next st =
    let c = cur.rec.customer_asn in
    let op = with_providers cur (sorted qsort cur.rec.provider_asns) in
    let o = copy_smaller enough c st.existing st in
    subst (λ b. HasReason (handle enough op next (b, o.1))) (sym (copy_smaller_ok c st.existing st))
      (handle-HasReason op next o.1 cur.operation refl)

-- The call succeeds without a failed operation, or it fails at one for a reason other than memory.
abbrev pub IsOutcome : Computed → Type 0
IsOutcome o =
    (o.status ≡ success) × (o.failed ≡ none) ⊎ IsReason o.status × ((p : ℕ) × (o.failed ≡ some p))

last_round :
    (qsort : List ℕ → List ℕ) (i : ℕ) (cur : UpdateOperation) (st : Progress) (r : Round)
    → round enough qsort cur none st ≡ r
    → HasReason r
    → IsOutcome (compute_from enough qsort i (cur ∷ []) st)
unfolding compute_from
last_round qsort i cur st (fail v n c st') e h = rw (compute_from, e) (inr (h, (_, refl)))
last_round qsort i cur st (one c st') e h = rw (compute_from, e) (inl (refl, refl))
last_round qsort i cur st (two c n st') e h = rw (compute_from, e) (inl (refl, refl))

other_one :
    (qsort : List ℕ → List ℕ) (i : ℕ) (cur next : UpdateOperation) (ops : List UpdateOperation)
    (st : Progress) (c : UpdateOperation) (st' : Progress)
    → round enough qsort cur (some next) st ≡ one c st'
    → compute_from enough qsort i (cur ∷ next ∷ ops) st
      ≡ also c (compute_from enough qsort (suc i) (next ∷ ops) st')
unfolding compute_from
other_one qsort i cur next ops st c st' e = rw (compute_from, e) refl

other_two :
    (qsort : List ℕ → List ℕ) (i : ℕ) (cur next : UpdateOperation) (ops : List UpdateOperation)
    (st : Progress) (c n : UpdateOperation) (st' : Progress)
    → round enough qsort cur (some next) st ≡ two c n st'
    → compute_from enough qsort i (cur ∷ next ∷ ops) st
      ≡ also c (also n (compute_from enough qsort (suc (suc i)) ops st'))
unfolding compute_from
other_two qsort i cur next ops st c n st' e = rw (compute_from, e) refl

other_round :
    (qsort : List ℕ → List ℕ) (i : ℕ) (cur next : UpdateOperation) (ops : List UpdateOperation)
    (st : Progress) (r : Round)
    → round enough qsort cur (some next) st ≡ r
    → HasReason r
    → ((x : Progress) → IsOutcome (compute_from enough qsort (suc i) (next ∷ ops) x))
    → ((x : Progress) → IsOutcome (compute_from enough qsort (suc (suc i)) ops x))
    → IsOutcome (compute_from enough qsort i (cur ∷ next ∷ ops) st)
unfolding compute_from
other_round qsort i cur next ops st (fail v n c st') e h f g =
    rw (compute_from, e) (inr (h, (_, refl)))
other_round qsort i cur next ops st (one c st') e h f g =
    subst IsOutcome (sym (other_one qsort i cur next ops st c st' e)) (f st')
other_round qsort i cur next ops st (two c n st') e h f g =
    subst IsOutcome (sym (other_two qsort i cur next ops st c n st' e)) (g st')

pub compute_from-IsOutcome :
    (qsort : List ℕ → List ℕ) (i : ℕ) (ops : List UpdateOperation) (st : Progress)
    → IsOutcome (compute_from enough qsort i ops st)
unfolding compute_from
compute_from-IsOutcome qsort i [] st = inl (refl, refl)
compute_from-IsOutcome qsort i (cur ∷ []) st =
    last_round qsort i cur st (round enough qsort cur none st) refl
      (round-HasReason qsort cur none st)
compute_from-IsOutcome qsort i (cur ∷ next ∷ ops) st =
    other_round qsort i cur next ops st (round enough qsort cur (some next) st) refl
      (round-HasReason qsort cur (some next) st)
      (λ x. compute_from-IsOutcome qsort (suc i) (next ∷ ops) x)
      (λ x. compute_from-IsOutcome qsort (suc (suc i)) ops x)
