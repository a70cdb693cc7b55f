-- ===== src/Pfx/Elems.antt =====
-- What the operations on the array of one node do to its elements.
use mathlib.Core.Option
use mathlib.Core.Bool.{false≢true}
use rtrlib.Prelude.{
  subst, Bool-cases, ℕ, zero, suc, ◌≡◌, ◌≢◌, ◌↔◌, ◌⊎◌, inl, inr, sym, ◌∙◌, true, Option, none, some,
  [], ◌∷◌, ◌++◌, Elem, arith,
}
use rtrlib.Pfx.Data.{
  NodeData, DataElem, PfxRecord, elem_of, is_elem, pfx_table_find_elem, drop_elem, deleted_elem,
}
use rtrlib.Pfx.Records.{IsNodup}

pub Elem-append : (d : DataElem) (xs ys : NodeData) → Elem d (xs ++ ys) ↔ (Elem d xs ⊎ Elem d ys)
Elem-append d [] ys = ground arith
Elem-append d (x ∷ xs) ys = ground (arith, Elem-append d xs ys)

pub append-ne-nil : (xs : NodeData) (y : DataElem) → (xs ++ y ∷ []) ≢ []
append-ne-nil [] y h = cc
append-ne-nil (x ∷ xs) y h = cc

pub IsNodup-append :
    (xs : NodeData) (y : DataElem) → IsNodup xs → (¬ Elem y xs) → IsNodup (xs ++ y ∷ [])
IsNodup-append [] y n h = ((λ e. e), tt)
IsNodup-append (x ∷ xs) y n h =
    (λ e. ground (arith, Elem-append x xs (y ∷ [])), IsNodup-append xs y n.1 (λ e. h (inr e)))

pub is_elem_iff : (r : PfxRecord) (d : DataElem) → (is_elem r d ≡ true) ↔ (elem_of r ≡ d)
is_elem_iff r d = ground arith

abbrev pub FindIs : NodeData → PfxRecord → Option ℕ → Type 0
FindIs ds r none = ¬ Elem (elem_of r) ds
FindIs ds r (some i) =
    Elem (elem_of r) ds
    × (deleted_elem ds i ≡ elem_of r ∷ [])
    × (IsNodup ds → (d : DataElem) → Elem d (drop_elem ds i) ↔ (Elem d ds × (d ≢ elem_of r)))

find_cons :
    (x : DataElem) (ds : NodeData) (r : PfxRecord) (o : Option ℕ)
    → elem_of r ≢ x
    → FindIs ds r o
    → FindIs (x ∷ ds) r (Option.map suc o)
find_cons x ds r none n f = λ e. ground arith
find_cons x ds r (some i) n f = (inr f.0, f.1, λ u d. ground (arith, f.2 u.1 d))

head_gone :
    (x : DataElem) (ds : NodeData) (r : PfxRecord)
    → elem_of r ≡ x
    → IsNodup (x ∷ ds)
    → (d : DataElem) → Elem d ds ↔ (Elem d (x ∷ ds) × (d ≢ elem_of r))
head_gone x ds r p u d =
    (λ e. (inr e, λ q. u.0 (subst (λ z. Elem z ds) (q ∙ p) e)), λ (e, n). ground arith)

Elem-of_drop_elem : (d : DataElem) (ds : NodeData) (i : ℕ) → Elem d (drop_elem ds i) → Elem d ds
Elem-of_drop_elem d [] i e = e
Elem-of_drop_elem d (x ∷ ds) zero e = inr e
Elem-of_drop_elem d (x ∷ ds) (suc i) (inl p) = inl p
Elem-of_drop_elem d (x ∷ ds) (suc i) (inr e) = inr (Elem-of_drop_elem d ds i e)

-- pfx_table_find_elem finds the element exactly if it is there, and its index is that of the element.
pub pfx_table_find_elem_lem :
    (ds : NodeData) (r : PfxRecord) → FindIs ds r (pfx_table_find_elem ds r)
unfolding pfx_table_find_elem
pfx_table_find_elem_lem [] r = λ e. e
pfx_table_find_elem_lem (x ∷ ds) r = elim (Bool-cases (is_elem r x)) [
  | inl y ↦ let p = (is_elem_iff r x).0 y in rw y (inl p, rw p, λ u d. head_gone x ds r p u d)
  | inr y ↦ rw y (
      find_cons x ds r (pfx_table_find_elem ds r) (λ p. false≢true (sym y ∙ (is_elem_iff r x).1 p))
        (pfx_table_find_elem_lem ds r))
]

-- The array without the element has no element twice.
pub IsNodup-drop_elem : (ds : NodeData) (i : ℕ) → IsNodup ds → IsNodup (drop_elem ds i)
IsNodup-drop_elem [] i n = tt
IsNodup-drop_elem (d ∷ ds) zero n = n.1
IsNodup-drop_elem (d ∷ ds) (suc i) n =
    (λ e. n.0 (Elem-of_drop_elem d ds i e), IsNodup-drop_elem ds i n.1)
