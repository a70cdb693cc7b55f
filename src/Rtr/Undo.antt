-- ===== src/Rtr/Undo.antt =====
-- Undoing a failed update of the prefix table by rtr/packets.c, on sets of records: made changes and undone
-- ones, and when undoing in the order of making restores the set.
use native.Mathlib.Decide.{ℕ_discrete}
use rtrlib.Prelude.{◌≡◌, ◌≢◌, ◌↔◌, ◌⊎◌, inl, inr, sym, subst, Bool, true, false, List, [], ◌∷◌}
use rtrlib.Ip.{IpAddr}
use rtrlib.Pfx.Data.{PfxRecord}
use rtrlib.Pfx.Members.{Records}
use rtrlib.Rtr.Update.{Change}

IpAddr-discrete : Discrete IpAddr
IpAddr-discrete = hlevel ℕ_discrete

PfxRecord-discrete : Discrete PfxRecord
PfxRecord-discrete = hlevel (ℕ_discrete, IpAddr-discrete)

-- Whether `s` is in the set after a change, or after undoing it, by whether it was before.
abbrev pub MadeAt : Bool → PfxRecord → PfxRecord → Type 0 → Type 0
MadeAt true r s X = (s ≡ r) ⊎ X
MadeAt false r s X = X × (s ≢ r)

abbrev pub UndoneAt : Bool → PfxRecord → PfxRecord → Type 0 → Type 0
UndoneAt true r s X = X × (s ≢ r)
UndoneAt false r s X = (s ≡ r) ⊎ X

abbrev pub Made : List Change → PfxRecord → Type 0 → Type 0
Made [] s X = X
Made (c ∷ cs) s X = Made cs s (MadeAt c.announce c.rec s X)

abbrev pub Unmade : List Change → PfxRecord → Type 0 → Type 0
Unmade [] s X = X
Unmade (c ∷ cs) s X = Unmade cs s (UndoneAt c.announce c.rec s X)

-- The change could be made: an announced record was new, and a withdrawn one was there.
abbrev pub CanMake : Bool → Type 0 → Type 0
CanMake true X = ¬ X
CanMake false X = X

abbrev pub CanMakeAll : List Change → Records → Type 0
CanMakeAll [] P = Unit {0}
CanMakeAll (c ∷ cs) P =
    CanMake c.announce (P c.rec) × CanMakeAll cs (λ s. MadeAt c.announce c.rec s (P s))

-- No change is about the record.
abbrev pub Untouched : PfxRecord → List Change → Type 0
Untouched s [] = Unit {0}
Untouched s (c ∷ cs) = (s ≢ c.rec) × Untouched s cs

-- No two changes are about the same record.
abbrev pub AreDistinct : List Change → Type 0
AreDistinct [] = Unit {0}
AreDistinct (c ∷ cs) = Untouched c.rec cs × AreDistinct cs

UndoneAt_iff :
    {X Y : Type 0} (b : Bool) (r s : PfxRecord) → (X ↔ Y) → UndoneAt b r s X ↔ UndoneAt b r s Y
UndoneAt_iff true r s h = ((λ a. (h.0 a.0, a.1)), λ a. (h.1 a.0, a.1))
UndoneAt_iff false r s h = (
  λ a. elim a [ inl e ↦ inl e | inr x ↦ inr (h.0 x) ],
  λ a. elim a [ inl e ↦ inl e | inr x ↦ inr (h.1 x) ],
)

pub MadeAt_iff :
    {X Y : Type 0} (b : Bool) (r s : PfxRecord) → (X ↔ Y) → MadeAt b r s X ↔ MadeAt b r s Y
MadeAt_iff false r s h = ((λ a. (h.0 a.0, a.1)), λ a. (h.1 a.0, a.1))
MadeAt_iff true r s h = (
  λ a. elim a [ inl e ↦ inl e | inr x ↦ inr (h.0 x) ],
  λ a. elim a [ inl e ↦ inl e | inr x ↦ inr (h.1 x) ],
)

pub Unmade_iff :
    {X Y : Type 0} (cs : List Change) (s : PfxRecord) → (X ↔ Y) → Unmade cs s X ↔ Unmade cs s Y
Unmade_iff [] s h = h
Unmade_iff (c ∷ cs) s h = Unmade_iff cs s (UndoneAt_iff c.announce c.rec s h)

pub Made_iff :
    {X Y : Type 0} (cs : List Change) (s : PfxRecord) → (X ↔ Y) → Made cs s X ↔ Made cs s Y
Made_iff [] s h = h
Made_iff (c ∷ cs) s h = Made_iff cs s (MadeAt_iff c.announce c.rec s h)

-- A change leaves other records alone.
MadeAt_other : {X : Type 0} (b : Bool) (r s : PfxRecord) → s ≢ r → MadeAt b r s X ↔ X
MadeAt_other true r s n = (λ a. elim a [ inl e ↦ absurd (n e) | inr x ↦ x ], λ x. inr x)
MadeAt_other false r s n = ((λ a. a.0), λ x. (x, n))

UndoneAt_other : {X : Type 0} (b : Bool) (r s : PfxRecord) → s ≢ r → UndoneAt b r s X ↔ X
UndoneAt_other false r s n = (λ a. elim a [ inl e ↦ absurd (n e) | inr x ↦ x ], λ x. inr x)
UndoneAt_other true r s n = ((λ a. a.0), λ x. (x, n))

pub iff_trans : {X Y Z : Type 0} → (X ↔ Y) → (Y ↔ Z) → (X ↔ Z)
iff_trans f g = ((λ x. g.0 (f.0 x)), λ z. f.1 (g.1 z))

pub iff_sym : {X Y : Type 0} → (X ↔ Y) → (Y ↔ X)
iff_sym f = (f.1, f.0)

Unmade-Untouched :
    {X : Type 0} (cs : List Change) (s : PfxRecord) → Untouched s cs → Unmade cs s X ↔ X
Unmade-Untouched [] s u = ((λ x. x), λ x. x)
Unmade-Untouched (c ∷ cs) s u =
    iff_trans (Unmade-Untouched cs s u.1) (UndoneAt_other c.announce c.rec s u.0)

-- Undone after it was made, the record is in the set if and only if it was before.
undone_back :
    {X : Type 0} (Y : Type 0) (b : Bool) (r s : PfxRecord)
    → s ≡ r
    → CanMake b X
    → UndoneAt b r s Y ↔ X
undone_back Y true r s e n = ((λ a. absurd (a.1 e)), λ x. absurd (n x))
undone_back Y false r s e x = ((λ a. x), λ a. inl e)

pub CanMake_iff : {X Y : Type 0} (b : Bool) → (X ↔ Y) → CanMake b X → CanMake b Y
CanMake_iff true h n = λ y. n (h.1 y)
CanMake_iff false h x = h.0 x

-- Whether changes can be made depends on their own records alone.
CanMakeAll-iff :
    (cs : List Change) (r : PfxRecord) (P Q : Records)
    → Untouched r cs
    → ((s : PfxRecord) → s ≢ r → P s ↔ Q s)
    → CanMakeAll cs P
    → CanMakeAll cs Q
CanMakeAll-iff [] r P Q u h m = tt
CanMakeAll-iff (c ∷ cs) r P Q u h m = (
  CanMake_iff c.announce (h c.rec (λ e. u.0 (sym e))) m.0,
  CanMakeAll-iff cs r (λ s. MadeAt c.announce c.rec s (P s)) (λ s. MadeAt c.announce c.rec s (Q s))
      u.1 (λ s n. MadeAt_iff c.announce c.rec s (h s n)) m.1,
)

-- Undoing distinct changes in the order in which they were made gives the set from before back.
pub Unmade-Made :
    (cs : List Change) (P : Records)
    → AreDistinct cs
    → CanMakeAll cs P
    → (s : PfxRecord) → Unmade cs s (Made cs s (P s)) ↔ P s
Unmade-Made [] P d m s = ((λ x. x), λ x. x)
Unmade-Made (c ∷ cs) P d m s =
    let made = Made cs s (MadeAt c.announce c.rec s (P s)) in
    let later =
      Unmade-Made cs P d.1
        (CanMakeAll-iff cs c.rec (λ x. MadeAt c.announce c.rec x (P x)) P d.0
          (λ x n. MadeAt_other c.announce c.rec x n) m.1)
        s in
    elim (PfxRecord-discrete s c.rec) [
      | yes e ↦ iff_trans (Unmade-Untouched cs s (subst (λ x. Untouched x cs) (sym e) d.0)) (
          undone_back made c.announce c.rec s e (subst (λ x. CanMake c.announce (P x)) (sym e) m.0))
      | no n ↦
          iff_trans
            (Unmade_iff cs s (
              iff_trans (UndoneAt_other c.announce c.rec s n)
                (Made_iff cs s (MadeAt_other c.announce c.rec s n))))
            later
    ]
