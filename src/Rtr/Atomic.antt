-- ===== src/Rtr/Atomic.antt =====
-- The loops over the prefix PDUs of rtr_sync_update_tables in rtr/packets.c: they make all changes or none.
use rtrlib.Prelude.{
  ℕ, suc, ◌≡◌, ◌↔◌, ◌⊎◌, inl, inr, refl, sym, ap, ◌∙◌, subst, Bool, true, false, Option, none, some,
  List, [], ◌∷◌, ◌++◌, if◌then◌else◌,
}
use rtrlib.Pfx.Data.{PfxRecord}
use rtrlib.Pfx.Table.{PfxTable}
use rtrlib.Pfx.Records.{IsTable, IsRecord, InTable}
use rtrlib.Pfx.Members.{Records, Same, held}
use rtrlib.Rtr.Socket.{RtrSocket}
use rtrlib.Rtr.Update.{
  StoredPdu, Change, PrefixesUpdated, change_of, apply_change, is_success, rtr_update_pfx_table,
  rtr_undo_update_pfx_table_batch, update_prefixes,
}
use rtrlib.Rtr.Undo.{
  MadeAt, Made, CanMake, CanMakeAll, Untouched, AreDistinct, Unmade_iff, MadeAt_iff, Unmade-Made,
  CanMake_iff, iff_trans, iff_sym,
}
use rtrlib.Rtr.Restore.{Reads, AreRecords, make_at, rtr_undo_update_pfx_table_batch_lem}

-- The changes of the PDUs whose flags are valid.
abbrev pub with_change : Option Change → List Change → List Change
with_change none cs = cs
with_change (some c) cs = c ∷ cs

abbrev pub changes_of : ℕ → List StoredPdu → List Change
changes_of id [] = []
changes_of id (p ∷ ps) = with_change (change_of id p) (changes_of id ps)

Untouched-prefix : (s : PfxRecord) (cs ds : List Change) → Untouched s (cs ++ ds) → Untouched s cs
Untouched-prefix s [] ds u = tt
Untouched-prefix s (c ∷ cs) ds u = (u.0, Untouched-prefix s cs ds u.1)

AreDistinct-prefix : (cs ds : List Change) → AreDistinct (cs ++ ds) → AreDistinct cs
AreDistinct-prefix [] ds d = tt
AreDistinct-prefix (c ∷ cs) ds d = (Untouched-prefix c.rec cs ds d.0, AreDistinct-prefix cs ds d.1)

snoc-append : (cs ds : List Change) (c : Change) → (cs ++ c ∷ []) ++ ds ≡ cs ++ c ∷ ds
snoc-append [] ds c = refl
snoc-append (x ∷ cs) ds c = ap (λ z. x ∷ z) (snoc-append cs ds c)

Made-snoc :
    (X : Type 0) (cs : List Change) (c : Change) (s : PfxRecord)
    → Made (cs ++ c ∷ []) s X ↔ MadeAt c.announce c.rec s (Made cs s X)
Made-snoc X [] c s = ((λ x. x), λ x. x)
Made-snoc X (x ∷ cs) c s = Made-snoc (MadeAt x.announce x.rec s X) cs c s

CanMakeAll-snoc :
    (cs : List Change) (c : Change) (P : Records)
    → CanMakeAll cs P
    → CanMake c.announce (Made cs c.rec (P c.rec))
    → CanMakeAll (cs ++ c ∷ []) P
CanMakeAll-snoc [] c P m k = (k, tt)
CanMakeAll-snoc (x ∷ cs) c P m k =
    (m.0, CanMakeAll-snoc cs c (λ s. MadeAt x.announce x.rec s (P s)) m.1 k)

AreRecords-snoc :
    (cs : List Change) (c : Change) → AreRecords cs → IsRecord c.rec → AreRecords (cs ++ c ∷ [])
AreRecords-snoc [] c k h = (h, tt)
AreRecords-snoc (x ∷ cs) c k h = (k.0, AreRecords-snoc cs c k.1 h)

Reads-snoc :
    (id : ℕ) (ps : List StoredPdu) (cs : List Change) (p : StoredPdu) (c : Change)
    → Reads id ps cs
    → change_of id p ≡ some c
    → Reads id (ps ++ p ∷ []) (cs ++ c ∷ [])
Reads-snoc id [] [] p c rd e = (e, tt)
Reads-snoc id [] (x ∷ cs) p c rd e = absurd rd
Reads-snoc id (q ∷ ps) [] p c rd e = absurd rd
Reads-snoc id (q ∷ ps) (x ∷ cs) p c rd e = (rd.0, Reads-snoc id ps cs p c rd.1 e)

-- How far the loops are: the changes `cs` have been made to the set `P`.
record IsMidway (id : ℕ) (P : Records) (cs : List Change) (t : PfxTable) (before : List StoredPdu)
    : Type 0 where
  reads : Reads id before cs
  well_formed : IsTable t
  are_records : AreRecords cs
  can_make : CanMakeAll cs P
  made : (s : PfxRecord) → InTable s t ↔ Made cs s (P s)

-- What they leave: all changes, or the set from before.
pub record IsAtomic (id : ℕ) (P : Records) (cs : List Change) (u : PrefixesUpdated) : Type 0 where
  pub well_formed : IsTable u.table
  pub undo_failed : u.undo_failed ≡ false
  pub records :
      (u.proceed ≡ true) × CanMakeAll cs P × ((s : PfxRecord) → InTable s u.table ↔ Made cs s (P s))
      ⊎ (u.proceed ≡ false) × Same P (held u.table)

-- The step of the loop, by what rtr_update_pfx_table answers.
update_invalid :
    (mem : ℕ → Bool) (id : ℕ) (s : RtrSocket) (t : PfxTable) (p : StoredPdu)
    → change_of id p ≡ none
    → let o = rtr_update_pfx_table mem id s t p in (o.done ≡ false) × (o.table ≡ t)
unfolding rtr_update_pfx_table
update_invalid mem id s t p e = rw (rtr_update_pfx_table, e) (refl, refl)

update_valid :
    (mem : ℕ → Bool) (id : ℕ) (s : RtrSocket) (t : PfxTable) (p : StoredPdu) (c : Change)
    → change_of id p ≡ some c
    → let o = rtr_update_pfx_table mem id s t p in
      (o.done ≡ is_success (apply_change mem t c).rtval) × (o.table ≡ (apply_change mem t c).table)
unfolding rtr_update_pfx_table
update_valid mem id s t p c e = rw (rtr_update_pfx_table, e) (refl, refl)

module _ (mem : ℕ → ℕ → Bool) (j id : ℕ) (s : RtrSocket) (t : PfxTable) (before : List StoredPdu)
    (p : StoredPdu) (ps : List StoredPdu) where
  loop_next :
      (rtr_update_pfx_table (mem j) id s t p).done ≡ true
      → let o = rtr_update_pfx_table (mem j) id s t p in
        update_prefixes mem j id s t before (p ∷ ps)
        ≡ update_prefixes mem (suc j) id o.socket o.table (before ++ p ∷ []) ps
  unfolding update_prefixes
  loop_next e = rw (update_prefixes, e) refl

  loop_stop :
      (rtr_update_pfx_table (mem j) id s t p).done ≡ false
      → let o = rtr_update_pfx_table (mem j) id s t p in
        let b = rtr_undo_update_pfx_table_batch mem (suc j) id o.table before in
        let u = update_prefixes mem j id s t before (p ∷ ps) in
        (u.proceed ≡ false)
        × (u.undo_failed ≡ (if b.done then false else true))
        × (u.table ≡ b.table)
  unfolding update_prefixes
  loop_stop e = rw (update_prefixes, e) (refl, refl, refl)

-- An error undoes the changes.
stop_lem :
    (mem : ℕ → ℕ → Bool) (j id : ℕ) (s : RtrSocket) (t : PfxTable) (before : List StoredPdu)
    (p : StoredPdu) (ps : List StoredPdu) (P : Records) (cs ds : List Change)
    → ((i k : ℕ) → mem i k ≡ true)
    → IsMidway id P cs t before
    → AreDistinct (cs ++ ds)
    → let o = rtr_update_pfx_table (mem j) id s t p in
      o.done ≡ false
      → IsTable o.table
      → Same (held t) (held o.table)
      → IsAtomic id P (cs ++ ds) (update_prefixes mem j id s t before (p ∷ ps))
stop_lem mem j id s t before p ps P cs ds m w d e w' same =
    let o = rtr_update_pfx_table (mem j) id s t p in
    let b = rtr_undo_update_pfx_table_batch mem (suc j) id o.table before in
    let (fin, bw, bs) =
      rtr_undo_update_pfx_table_batch_lem mem (suc j) id o.table before cs m w.reads w.are_records
        w' in
    let (np, uf, tb) = loop_stop mem j id s t before p ps e in
    record {
      well_formed = subst IsTable (sym tb) bw;
      undo_failed = uf ∙ ap (λ x. if x then false else true) fin;
      records = inr (
        np,
        subst (λ t. Same P (held t)) (sym tb)
            (λ x. iff_trans (bs x) (
              iff_trans (Unmade_iff cs x (iff_trans (same x) (w.made x)))
                (Unmade-Made cs P (AreDistinct-prefix cs ds d) w.can_make x))),
      );
    }

IsMidway-next :
    (id : ℕ) (P : Records) (cs : List Change) (t t' : PfxTable) (before : List StoredPdu)
    (p : StoredPdu) (c : Change)
    → IsMidway id P cs t before
    → change_of id p ≡ some c
    → IsRecord c.rec
    → IsTable t'
    → CanMake c.announce (InTable c.rec t)
    → ((s : PfxRecord) → InTable s t' ↔ MadeAt c.announce c.rec s (InTable s t))
    → IsMidway id P (cs ++ c ∷ []) t' (before ++ p ∷ [])
IsMidway-next id P cs t t' before p c w e k w' can f = record {
  reads = Reads-snoc id before cs p c w.reads e;
  well_formed = w';
  are_records = AreRecords-snoc cs c w.are_records k;
  can_make = CanMakeAll-snoc cs c P w.can_make (CanMake_iff c.announce (w.made c.rec) can);
  made = λ s.
      iff_trans (f s)
        (iff_trans (MadeAt_iff c.announce c.rec s (w.made s)) (iff_sym (Made-snoc (P s) cs c s)));
}

change_cases : (o : Option Change) → (o ≡ none) ⊎ ((c : Change) × (o ≡ some c))
change_cases none = inl refl
change_cases (some c) = inr (c, refl)

append_nil : (cs : List Change) → cs ≡ cs ++ []
append_nil [] = refl
append_nil (c ∷ cs) = ap (λ z. c ∷ z) (append_nil cs)

all_made :
    (mem : ℕ → ℕ → Bool) (j id : ℕ) (s : RtrSocket) (t : PfxTable) (before : List StoredPdu)
    (P : Records) (cs : List Change)
    → IsMidway id P cs t before
    → IsAtomic id P cs (update_prefixes mem j id s t before [])
unfolding update_prefixes
all_made mem j id s t before P cs w = record {
  well_formed = w.well_formed;
  undo_failed = refl;
  records = inl (refl, w.can_make, w.made);
}

loop_lem :
    (mem : ℕ → ℕ → Bool) (j id : ℕ) (s : RtrSocket) (t : PfxTable) (before ps : List StoredPdu)
    (P : Records) (cs : List Change)
    → ((i k : ℕ) → mem i k ≡ true)
    → IsMidway id P cs t before
    → AreRecords (changes_of id ps)
    → AreDistinct (cs ++ changes_of id ps)
    → IsAtomic id P (cs ++ changes_of id ps) (update_prefixes mem j id s t before ps)
loop_lem mem j id s t before [] P cs m w k d =
    subst (λ z. IsAtomic id P z (update_prefixes mem j id s t before [])) (append_nil cs)
      (all_made mem j id s t before P cs w)
loop_lem mem j id s t before (p ∷ ps) P cs m w k d = elim (change_cases (change_of id p)) [
  | inl e ↦
      let (f, g) = update_invalid (mem j) id s t p e in
      stop_lem mem j id s t before p ps P cs (changes_of id (p ∷ ps)) m w d f
        (subst IsTable (sym g) w.well_formed)
        (subst (λ z. Same (held t) (held z)) (sym g) (λ x. ((λ i. i), λ i. i)))
  | inr (c, e) ↦
      let (f, g) = update_valid (mem j) id s t p c e in
      let q : changes_of id (p ∷ ps) ≡ c ∷ changes_of id ps =
        ap (λ o. with_change o (changes_of id ps)) e in
      let k' = subst AreRecords q k in
      let (w', step) = make_at (mem j) t c.announce c.rec w.well_formed k'.0 in
      elim step [
        | inl (ok, can, h) ↦
            let o = rtr_update_pfx_table (mem j) id s t p in
            let whole = snoc-append cs (changes_of id ps) c ∙ ap (λ z. cs ++ z) (sym q) in
            subst (IsAtomic id P (cs ++ changes_of id (p ∷ ps)))
              (sym (loop_next mem j id s t before p ps (f ∙ ok)))
              (subst
                (λ z.
                  IsAtomic id P z
                    (update_prefixes mem (suc j) id o.socket o.table (before ++ p ∷ []) ps))
                whole
                (loop_lem mem (suc j) id o.socket o.table (before ++ p ∷ []) ps P (cs ++ c ∷ []) m
                  (subst (λ z. IsMidway id P (cs ++ c ∷ []) z (before ++ p ∷ [])) (sym g)
                    (IsMidway-next id P cs t (apply_change (mem j) t c).table before p c w e k'.0 w'
                      can h))
                  k'.1 (subst AreDistinct (sym whole) d)))
        | inr (bad, same) ↦
            stop_lem mem j id s t before p ps P cs (changes_of id (p ∷ ps)) m w d (f ∙ bad)
              (subst IsTable (sym g) w') (subst (λ z. Same (held t) (held z)) (sym g) same)
      ]
]

-- The loops over the prefix PDUs make all changes or none. On a well formed table, where every allocation
-- succeeds, the records that the PDUs with valid flags announce and withdraw have words of 32 bits, a length
-- within the width and no bit set behind it, and no two of them are the same, undoing does not fail and the
-- table stays well formed; and either the loops proceed, every announced record was new, every withdrawn
-- one was there, and all changes are made, or they do not, and the table holds the records from before.
pub update_prefixes-IsAtomic :
    (mem : ℕ → ℕ → Bool) (j id : ℕ) (s : RtrSocket) (t : PfxTable) (pdus : List StoredPdu)
    → ((i k : ℕ) → mem i k ≡ true)
    → IsTable t
    → AreRecords (changes_of id pdus)
    → AreDistinct (changes_of id pdus)
    → IsAtomic id (held t) (changes_of id pdus) (update_prefixes mem j id s t [] pdus)
update_prefixes-IsAtomic mem j id s t pdus m w k d =
    loop_lem mem j id s t [] pdus (held t) [] m
      (record {
        reads = tt;
        well_formed = w;
        are_records = tt;
        can_make = tt;
        made = λ s. ((λ i. i), λ i. i);
      })
      k d
