-- ===== src/Aspa/Merge.antt =====
-- aspa_table_update_compute_internal of aspa/aspa.c on operations of different customers: one pass over the
-- sorted array does what the operations do one at a time.
use rtrlib.Prelude.{
  ℕ, ◌≡◌, inl, inr, refl, sym, ap, ◌∙◌, subst, Bool, true, false, Bool-cases, leb, ltb, ◌==◌,
  Option, none, some, List, [], ◌∷◌, ◌++◌, arith, length,
}
use rtrlib.Aspa.Hop.{AspaRecord}
use rtrlib.Aspa.Array.{
  AspaStatus, success, AspaArray, can_copy, insert_at, aspa_array_append,
  aspa_array_insert_internal, aspa_array_reallocate,
}
use rtrlib.Aspa.Update.{Memory, Progress, append_new, copy_smaller, last_of, skip_same}
use rtrlib.Aspa.Sorted.{AllAbove, IsSorted, small, large, ltb_cases}

-- Every allocation succeeds.
abbrev pub enough : Memory
enough = λ k. (true, true)

can_copy-true : (c : Bool) (ps : List ℕ) → can_copy true c ps ≡ true
can_copy-true c [] = refl
can_copy-true true (a ∷ ps) = refl
can_copy-true false (a ∷ ps) = refl

insert_at_end : (rs : List AspaRecord) (r : AspaRecord) → insert_at rs (length rs) r ≡ rs ++ r ∷ []
insert_at_end [] r = refl
insert_at_end (x ∷ rs) r = ap (λ z. x ∷ z) (insert_at_end rs r)

pub append_lem :
    (a : AspaArray) (r : AspaRecord) (c : Bool)
    → let o = aspa_array_append true true a r c in
      (o.status ≡ success) × (o.array.records ≡ a.records ++ r ∷ [])
unfolding aspa_array_append aspa_array_insert_internal aspa_array_reallocate
append_lem a r c = elim (Bool-cases (leb a.capacity (length a.records))) [
  | inl e ↦ rw (e, can_copy-true c r.provider_asns) (refl, insert_at_end a.records r)
  | inr e ↦ rw (e, can_copy-true c r.provider_asns) (refl, insert_at_end a.records r)
]

pub append_new_lem :
    (st : Progress) (r : AspaRecord) (c : Bool)
    → let o = append_new enough st r c in
      (o.0 ≡ true)
      × (o.1.new_array.records ≡ st.new_array.records ++ r ∷ [])
      × (o.1.existing ≡ st.existing)
unfolding append_new
append_new_lem st r c =
    let h = append_lem st.new_array r c in
    (ap (λ (v : AspaStatus). elim v [ success ↦ true | _ ↦ false ]) h.0, h.1, refl)

pub append_assoc : (xs ys zs : List AspaRecord) → (xs ++ ys) ++ zs ≡ xs ++ (ys ++ zs)
append_assoc [] ys zs = refl
append_assoc (x ∷ xs) ys zs = ap (λ z. x ∷ z) (append_assoc xs ys zs)

pub append_nil : (xs : List AspaRecord) → xs ++ [] ≡ xs
append_nil [] = refl
append_nil (x ∷ xs) = ap (λ z. x ∷ z) (append_nil xs)

pub last_of-append : (xs : List AspaRecord) (r : AspaRecord) → last_of (xs ++ r ∷ []) ≡ some r
last_of-append [] r = refl
last_of-append (x ∷ []) r = refl
last_of-append (x ∷ y ∷ xs) r = last_of-append (y ∷ xs) r

-- What is left of the old array lies above the last record of the new one.
abbrev pub Ahead : Option AspaRecord → List AspaRecord → Type 0
Ahead none es = Unit {0}
Ahead (some l) es = AllAbove l.customer_asn es

pub skip_same-Ahead :
    (l : Option AspaRecord) (es : List AspaRecord) → Ahead l es → skip_same l es ≡ es
skip_same-Ahead none es h = refl
skip_same-Ahead (some l) [] h = refl
skip_same-Ahead (some l) (e ∷ es) h =
    let k : (l.customer_asn == e.customer_asn) ≡ false = ground (arith, h.0) in rw k refl

-- The state between two rounds: `acc` is the new array, and `es` is left of the old one.
pub record IsAt (st : Progress) (acc es : List AspaRecord) : Type 0 where
  pub records : st.new_array.records ≡ acc
  pub existing : st.existing ≡ es
  pub ahead : Ahead (last_of acc) es
  pub in_order : IsSorted es

copy_next :
    (c : ℕ) (e : AspaRecord) (es : List AspaRecord) (st : Progress)
    → ltb e.customer_asn c ≡ true
    → copy_smaller enough c (e ∷ es) st ≡ copy_smaller enough c es (append_new enough st e false).1
unfolding copy_smaller
copy_next c e es st h = rw (copy_smaller, h, (append_new_lem st e false).0) refl

copy_stop :
    (c : ℕ) (e : AspaRecord) (es : List AspaRecord) (st : Progress)
    → ltb e.customer_asn c ≡ false
    → copy_smaller enough c (e ∷ es) st ≡ (true, record st { existing = e ∷ es })
unfolding copy_smaller
copy_stop c e es st h = rw (copy_smaller, h) refl

-- The inner loop.
abbrev pub Copied : ℕ → List AspaRecord → List AspaRecord → Bool × Progress → Type 0
Copied c acc es o = (o.0 ≡ true) × IsAt o.1 (acc ++ small c es) (large c es)

pub copy_smaller_lem :
    (c : ℕ) (acc es : List AspaRecord) (st : Progress)
    → st.new_array.records ≡ acc
    → Ahead (last_of acc) es
    → IsSorted es
    → Copied c acc es (copy_smaller enough c es st)
unfolding copy_smaller
copy_smaller_lem c acc [] st r a w = (
  refl,
  record {
    records = r ∙ sym (append_nil acc);
    existing = refl;
    ahead = subst (λ z. Ahead (last_of z) []) (sym (append_nil acc)) a;
    in_order = tt;
  },
)
copy_smaller_lem c acc (e ∷ es) st r a w = elim (ltb_cases e.customer_asn c) [
  | inl (t, l) ↦
      let h = append_new_lem st e false in
      let later =
        copy_smaller_lem c (acc ++ e ∷ []) es (append_new enough st e false).1
          (h.1 ∙ ap (λ z. z ++ e ∷ []) r) (subst (λ z. Ahead z es) (sym (last_of-append acc e)) w.0)
          w.1 in
      subst (Copied c acc (e ∷ es)) (sym (copy_next c e es st t)) (
        rw t (
          later.0,
          subst
              (λ z.
                IsAt (copy_smaller enough c es (append_new enough st e false).1).1 z (large c es))
              (append_assoc acc (e ∷ []) (small c es)) later.1,
        ))
  | inr (f, l) ↦ subst (Copied c acc (e ∷ es)) (sym (copy_stop c e es st f)) (
      rw f (
        refl,
        record {
          records = r ∙ sym (append_nil acc);
          existing = refl;
          ahead = subst (λ z. Ahead (last_of z) (e ∷ es)) (sym (append_nil acc)) a;
          in_order = w;
        },
      ))
]
