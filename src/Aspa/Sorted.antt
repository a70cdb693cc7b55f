-- ===== src/Aspa/Sorted.antt =====
-- Sorted arrays of ASPA records, and the operations of an update applied to one, one at a time.
use rtrlib.Prelude.{
  ℕ, ◌≡◌, ◌<◌, ◌⊎◌, inl, inr, refl, ap, ◌∙◌, subst, true, false, ltb, ◌==◌, if◌then◌else◌, List, [],
  ◌∷◌, ◌++◌, arith,
}
use rtrlib.Aspa.Hop.{AspaRecord}
use rtrlib.Aspa.Table.{AspaOperation, add, remove}
use rtrlib.Aspa.Update.{UpdateOperation, matches, first, rest, sorted, with_providers}

-- Every record's customer is above `c`.
abbrev pub AllAbove : ℕ → List AspaRecord → Type 0
AllAbove c [] = Unit {0}
AllAbove c (e ∷ es) = (c < e.customer_asn) × AllAbove c es

-- The customers rise strictly.
abbrev pub IsSorted : List AspaRecord → Type 0
IsSorted [] = Unit {0}
IsSorted (e ∷ es) = AllAbove e.customer_asn es × IsSorted es

abbrev pub OpsAbove : ℕ → List UpdateOperation → Type 0
OpsAbove c [] = Unit {0}
OpsAbove c (op ∷ ops) = (c < op.rec.customer_asn) × OpsAbove c ops

abbrev pub IsOrdered : List UpdateOperation → Type 0
IsOrdered [] = Unit {0}
IsOrdered (op ∷ ops) = OpsAbove op.rec.customer_asn ops × IsOrdered ops

abbrev pub HasCustomer : ℕ → List AspaRecord → Type 0
HasCustomer c [] = ⊥
HasCustomer c (e ∷ es) = (e.customer_asn ≡ c) ⊎ HasCustomer c es

-- An added customer is new to the array, and a removed one is in it.
abbrev pub Fits : AspaOperation → ℕ → List AspaRecord → Type 0
Fits add c es = ¬ HasCustomer c es
Fits remove c es = HasCustomer c es

abbrev pub AllFit : List UpdateOperation → List AspaRecord → Type 0
AllFit [] es = Unit {0}
AllFit (op ∷ ops) es = Fits op.operation op.rec.customer_asn es × AllFit ops es

-- The records below `c`, and the others.
abbrev pub small : ℕ → List AspaRecord → List AspaRecord
small c [] = []
small c (e ∷ es) = if ltb e.customer_asn c then e ∷ small c es else []

abbrev pub large : ℕ → List AspaRecord → List AspaRecord
large c [] = []
large c (e ∷ es) = if ltb e.customer_asn c then large c es else e ∷ es

-- A record is put in its place, or the record of a customer is taken out.
abbrev pub insert_record : AspaRecord → List AspaRecord → List AspaRecord
insert_record r [] = r ∷ []
insert_record r (e ∷ es) =
    let later = insert_record r es in
    if ltb e.customer_asn r.customer_asn then e ∷ later else r ∷ e ∷ es

abbrev pub delete_record : ℕ → List AspaRecord → List AspaRecord
delete_record c [] = []
delete_record c (e ∷ es) =
    let later = delete_record c es in if e.customer_asn == c then es else e ∷ later

abbrev pub apply_one : (List ℕ → List ℕ) → UpdateOperation → List AspaRecord → List AspaRecord
apply_one qsort op es = elim op.operation [
  | add ↦ insert_record (with_providers op (sorted qsort op.rec.provider_asns)).rec es
  | remove ↦ delete_record op.rec.customer_asn es
]

abbrev pub apply_all : (List ℕ → List ℕ) → List UpdateOperation → List AspaRecord → List AspaRecord
apply_all qsort [] es = es
apply_all qsort (op ∷ ops) es = apply_all qsort ops (apply_one qsort op es)

pub ltb_cases : (a b : ℕ) → ((ltb a b ≡ true) × (a < b)) ⊎ ((ltb a b ≡ false) × (¬ (a < b)))
ltb_cases a b = ground arith

pub lt_ltb : (a b : ℕ) → a < b → ltb a b ≡ true
lt_ltb a b h = ground arith

lt_eqb : (a b : ℕ) → a < b → (a == b) ≡ false
lt_eqb a b h = ground arith

-- A record below the operations stays in front.
push_one :
    (qsort : List ℕ → List ℕ) (op : UpdateOperation) (x : AspaRecord) (es : List AspaRecord)
    → x.customer_asn < op.rec.customer_asn
    → (o : AspaOperation) → op.operation ≡ o
    → apply_one qsort op (x ∷ es) ≡ x ∷ apply_one qsort op es
push_one qsort op x es h add e = rw (e, lt_ltb x.customer_asn op.rec.customer_asn h) refl
push_one qsort op x es h remove e = rw (e, lt_eqb x.customer_asn op.rec.customer_asn h) refl

pub push :
    (qsort : List ℕ → List ℕ) (ops : List UpdateOperation) (x : AspaRecord) (es : List AspaRecord)
    → OpsAbove x.customer_asn ops
    → apply_all qsort ops (x ∷ es) ≡ x ∷ apply_all qsort ops es
push qsort [] x es h = refl
push qsort (op ∷ ops) x es h =
    ap (apply_all qsort ops) (push_one qsort op x es h.0 op.operation refl)
    ∙ push qsort ops x (apply_one qsort op es) h.1

pub OpsAbove-lt : (a b : ℕ) (ops : List UpdateOperation) → a < b → OpsAbove b ops → OpsAbove a ops
OpsAbove-lt a b [] l h = tt
OpsAbove-lt a b (op ∷ ops) l h = (omega (arith, h.0), OpsAbove-lt a b ops l h.1)

pub push_small :
    (qsort : List ℕ → List ℕ) (ops : List UpdateOperation) (c : ℕ) (es ys : List AspaRecord)
    → OpsAbove c ops
    → apply_all qsort ops (small c es ++ ys) ≡ small c es ++ apply_all qsort ops ys
push_small qsort ops c [] ys h = refl
push_small qsort ops c (e ∷ es) ys h = elim (ltb_cases e.customer_asn c) [
  | inl (t, l) ↦ rw t (
      push qsort ops e (small c es ++ ys) (OpsAbove-lt e.customer_asn c ops l h)
      ∙ ap (λ z. e ∷ z) (push_small qsort ops c es ys h))
  | inr (f, l) ↦ rw f refl
]

pub insert_record_lem :
    (r : AspaRecord) (es : List AspaRecord)
    → insert_record r es ≡ small r.customer_asn es ++ r ∷ large r.customer_asn es
insert_record_lem r [] = refl
insert_record_lem r (e ∷ es) = elim (ltb_cases e.customer_asn r.customer_asn) [
  | inl (t, l) ↦ rw t (ap (λ z. e ∷ z) (insert_record_lem r es))
  | inr (f, l) ↦ rw f refl
]

pub delete_record_lem :
    (c : ℕ) (es : List AspaRecord)
    → matches c (first (large c es)) ≡ true
    → delete_record c es ≡ small c es ++ rest (large c es)
delete_record_lem c [] h = refl
delete_record_lem c (e ∷ es) h = elim (ltb_cases e.customer_asn c) [
  | inl (t, l) ↦
      rw (t, lt_eqb e.customer_asn c l)
        (ap (λ z. e ∷ z)
          (delete_record_lem c es
            (subst (λ b. matches c (first (if b then large c es else e ∷ es)) ≡ true) t h)))
  | inr (f, l) ↦
      let k : (e.customer_asn == c) ≡ true =
        subst (λ b. matches c (first (if b then large c es else e ∷ es)) ≡ true) f h in
      rw (f, k) refl
]
