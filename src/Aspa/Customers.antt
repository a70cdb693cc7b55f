-- ===== src/Aspa/Customers.antt =====
-- Which customers the rest of a sorted array of ASPA records has.
use rtrlib.Prelude.{
  subst, ℕ, ◌≡◌, ◌≢◌, ◌<◌, if◌then◌else◌, ◌⊎◌, ◌↔◌, inl, inr, refl, true, false, ◌==◌, List, [],
  ◌∷◌, arith,
}
use rtrlib.Aspa.Hop.{AspaRecord}
use rtrlib.Aspa.Table.{AspaOperation, add, remove}
use rtrlib.Aspa.Update.{UpdateOperation, matches, first, rest}
use rtrlib.Aspa.Sorted.{AllAbove, IsSorted, OpsAbove, HasCustomer, Fits, AllFit, large, ltb_cases}

AllAbove-lt : (a b : ℕ) (es : List AspaRecord) → a < b → AllAbove b es → AllAbove a es
AllAbove-lt a b [] l h = tt
AllAbove-lt a b (e ∷ es) l h = (omega (arith, h.0), AllAbove-lt a b es l h.1)

no_customer : (c : ℕ) (es : List AspaRecord) → AllAbove c es → ¬ HasCustomer c es
no_customer c [] h k = k
no_customer c (e ∷ es) h k = elim k [
  | inl q ↦ omega (arith, h.0, q)
  | inr m ↦ no_customer c es h.1 m
]

pub IsSorted-large : (c : ℕ) (es : List AspaRecord) → IsSorted es → IsSorted (large c es)
IsSorted-large c [] w = tt
IsSorted-large c (e ∷ es) w = elim (ltb_cases e.customer_asn c) [
  | inl (t, l) ↦ rw t (IsSorted-large c es w.1)
  | inr (f, l) ↦ rw f w
]

pub IsSorted-rest : (es : List AspaRecord) → IsSorted es → IsSorted (rest es)
IsSorted-rest [] w = tt
IsSorted-rest (e ∷ es) w = w.1

eqb_cases : (a b : ℕ) → ((a == b) ≡ true) × (a ≡ b) ⊎ ((a == b) ≡ false) × (a ≢ b)
eqb_cases a b = ground arith

below : (a c : ℕ) → a < c → a ≢ c
below a c l q = omega (arith, l, q)

-- Whether the first record that is not below a customer is its own.
pub matches-HasCustomer :
    (c : ℕ) (es : List AspaRecord)
    → IsSorted es
    → HasCustomer c es
    → matches c (first (large c es)) ≡ true
matches-HasCustomer c [] w h = absurd h
matches-HasCustomer c (e ∷ es) w h = elim (ltb_cases e.customer_asn c) [
  | inl (t, l) ↦ elim h [
    | inl q ↦ absurd (below e.customer_asn c l q)
    | inr m ↦ rw t (matches-HasCustomer c es w.1 m)
  ]
  | inr (f, l) ↦ elim (eqb_cases e.customer_asn c) [
    | inl (q, k) ↦ rw (f, q) refl
    | inr (q, k) ↦ elim h [
      | inl z ↦ absurd (k z)
      | inr m ↦
          absurd (no_customer c es (AllAbove-lt c e.customer_asn es (omega (arith, l, k)) w.0) m)
    ]
  ]
]

pub matches-none :
    (c : ℕ) (es : List AspaRecord) → (¬ HasCustomer c es) → matches c (first (large c es)) ≡ false
matches-none c [] h = refl
matches-none c (e ∷ es) h = elim (ltb_cases e.customer_asn c) [
  | inl (t, l) ↦ rw t (matches-none c es (λ m. h (inr m)))
  | inr (f, l) ↦ elim (eqb_cases e.customer_asn c) [
    | inl (q, k) ↦ absurd (h (inl k))
    | inr (q, k) ↦ rw (f, q) refl
  ]
]

between : (a c d : ℕ) → a < c → c < d → a ≢ d
between a c d l h q = omega (arith, l, h, q)

-- A larger customer is in what is left if and only if it was there.
HasCustomer-large :
    (c d : ℕ) (es : List AspaRecord) → c < d → HasCustomer d es ↔ HasCustomer d (large c es)
HasCustomer-large c d [] h = ((λ x. x), λ x. x)
HasCustomer-large c d (e ∷ es) h = elim (ltb_cases e.customer_asn c) [
  | inl (t, l) ↦
      let later = HasCustomer-large c d es h in
      rw t (
        λ k. elim k [ inl q ↦ absurd (between e.customer_asn c d l h q) | inr m ↦ later.0 m ],
        λ k. inr (later.1 k),
      )
  | inr (f, l) ↦ rw f ((λ x. x), λ x. x)
]

HasCustomer-rest :
    (c d : ℕ) (es : List AspaRecord)
    → c < d
    → matches c (first es) ≡ true
    → HasCustomer d es ↔ HasCustomer d (rest es)
HasCustomer-rest c d (e ∷ es) h m =
    (λ k. elim k [ inl q ↦ ground (arith, m, q, h) | inr x ↦ x ], λ k. inr k)
HasCustomer-rest c d [] h m = ((λ x. x), λ x. x)

Fits-iff :
    (o : AspaOperation) (c : ℕ) (es fs : List AspaRecord)
    → (HasCustomer c es ↔ HasCustomer c fs)
    → Fits o c es
    → Fits o c fs
Fits-iff add c es fs i h = λ k. h (i.1 k)
Fits-iff remove c es fs i h = i.0 h

pub AllFit-large :
    (c : ℕ) (ops : List UpdateOperation) (es : List AspaRecord)
    → OpsAbove c ops
    → AllFit ops es
    → AllFit ops (large c es)
AllFit-large c [] es a h = tt
AllFit-large c (op ∷ ops) es a h = (
  Fits-iff op.operation op.rec.customer_asn es (large c es)
      (HasCustomer-large c op.rec.customer_asn es a.0) h.0,
  AllFit-large c ops es a.1 h.1,
)

pub AllFit-rest :
    (c : ℕ) (ops : List UpdateOperation) (es : List AspaRecord)
    → OpsAbove c ops
    → matches c (first es) ≡ true
    → AllFit ops es
    → AllFit ops (rest es)
AllFit-rest c [] es a m h = tt
AllFit-rest c (op ∷ ops) es a m h = (
  Fits-iff op.operation op.rec.customer_asn es (rest es)
      (HasCustomer-rest c op.rec.customer_asn es a.0 m) h.0,
  AllFit-rest c ops es a.1 m h.1,
)

-- What is not below a customer that the array does not have is above it.
pub AllAbove-large :
    (c : ℕ) (es : List AspaRecord)
    → IsSorted es
    → matches c (first (large c es)) ≡ false
    → AllAbove c (large c es)
AllAbove-large c [] w h = tt
AllAbove-large c (e ∷ es) w h = elim (ltb_cases e.customer_asn c) [
  | inl (t, l) ↦ rw t (
      AllAbove-large c es w.1
        (subst (λ b. matches c (first (if b then large c es else e ∷ es)) ≡ false) t h))
  | inr (f, l) ↦
      let k : (e.customer_asn == c) ≡ false =
        subst (λ b. matches c (first (if b then large c es else e ∷ es)) ≡ false) f h in
      let g : c < e.customer_asn = ground (arith, k, l) in
      rw f (g, AllAbove-lt c e.customer_asn es g w.0)
]
