-- ===== src/Rtr/Restore.antt =====
-- rtr_undo_update_pfx_table_batch and the loops over the prefix PDUs of rtr_sync_update_tables in
-- rtr/packets.c: whether a failed update leaves the prefix table as it was.
use rtrlib.Prelude.{
  ℕ, suc, ◌≡◌, ◌≢◌, ◌↔◌, ◌⊎◌, inl, inr, refl, sym, subst, Bool, true, false, some, List, [], ◌∷◌,
  arith,
}
use rtrlib.Pfx.Data.{
  PfxRecord, PfxRtval, success, error, duplicate_record, record_not_found, not_initialized,
}
use rtrlib.Pfx.Table.{PfxTable, rtr_pfx_table_add, rtr_pfx_table_remove}
use rtrlib.Pfx.Records.{IsTable, IsRecord, InTable}
use rtrlib.Pfx.Add.{rtr_pfx_table_add_lem, rtr_pfx_table_add_answer}
use rtrlib.Pfx.Remove.{rtr_pfx_table_remove_lem}
use rtrlib.Pfx.RemoveAnswer.{rtr_pfx_table_remove_answer}
use rtrlib.Pfx.Members.{
  Records, Same, Adds, Removes, held, rtr_pfx_table_add-Adds, rtr_pfx_table_remove-Removes,
}
use rtrlib.Rtr.Update.{
  StoredPdu, Change, change_of, apply_change, undo_change, is_success, is_error,
  rtr_undo_update_pfx_table_batch, Undone,
}
use rtrlib.Rtr.Undo.{MadeAt, UndoneAt, Unmade, CanMake, Unmade_iff, iff_trans}

-- The removal of `r` is the set without it, whether it was there or not.
removed_set :
    (P Q : Records) (r : PfxRecord) (a : PfxRtval)
    → Removes r a P Q
    → (a ≡ success) × P r ⊎ (a ≡ record_not_found) × (¬ P r)
    → (is_error a ≡ false) × ((s : PfxRecord) → Q s ↔ (P s × (s ≢ r)))
removed_set P Q r success h k = (refl, h.1)
removed_set P Q r record_not_found h k =
    (refl, λ s. (λ q. ((h.1 s).0 q, λ e. h.0 (subst P e ((h.1 s).0 q))), λ p. (h.1 s).1 p.0))
removed_set P Q r error h k = ground arith
removed_set P Q r duplicate_record h k = absurd h
removed_set P Q r not_initialized h k = absurd h

added_set :
    (P Q : Records) (r : PfxRecord) (a : PfxRtval)
    → Adds r a P Q
    → (a ≡ duplicate_record) × P r ⊎ (a ≡ success) × (¬ P r)
    → (is_error a ≡ false) × ((s : PfxRecord) → Q s ↔ ((s ≡ r) ⊎ P s))
added_set P Q r success h k = (refl, h.1)
added_set P Q r duplicate_record h k = (
  refl,
  λ s. (
    λ q. inr ((h.1 s).0 q),
    λ p. elim p [ inl e ↦ (h.1 s).1 (subst P (sym e) h.0) | inr x ↦ (h.1 s).1 x ],
  ),
)
added_set P Q r error h k = ground arith
added_set P Q r record_not_found h k = absurd h
added_set P Q r not_initialized h k = absurd h

-- Undoing one change.
abbrev UndoStep : (ℕ → Bool) → PfxTable → Change → Type 0
UndoStep mem t c =
    let o = undo_change mem t c in
    IsTable o.table
    × (is_error o.rtval ≡ false)
    × ((s : PfxRecord) → InTable s o.table ↔ UndoneAt c.announce c.rec s (InTable s t))

undo_at :
    (mem : ℕ → Bool) (t : PfxTable) (b : Bool) (r : PfxRecord)
    → IsTable t
    → IsRecord r
    → ((k : ℕ) → mem k ≡ true)
    → UndoStep mem t (record { announce = b; rec = r })
unfolding undo_change
undo_at mem t true r w k m =
    let o = rtr_pfx_table_remove mem t r in
    let h =
      removed_set (held t) (held o.table) r o.rtval (rtr_pfx_table_remove-Removes mem t r w)
        (rtr_pfx_table_remove_answer mem t r w (m 0)) in
    ((rtr_pfx_table_remove_lem mem t r w).well_formed, h.0, h.1)
undo_at mem t false r w k m =
    let o = rtr_pfx_table_add mem t r in
    let h =
      added_set (held t) (held o.table) r o.rtval (rtr_pfx_table_add-Adds mem t r w k)
        (rtr_pfx_table_add_answer mem t r w k (m 0) (m 1) (m 2)) in
    ((rtr_pfx_table_add_lem mem t r w k).well_formed, h.0, h.1)

-- Making one: it goes through and could be made, or the set stays.
abbrev pub MakeStep : (ℕ → Bool) → PfxTable → Change → Type 0
MakeStep mem t c =
    let o = apply_change mem t c in
    IsTable o.table
    × ((is_success o.rtval ≡ true)
          × CanMake c.announce (InTable c.rec t)
          × ((s : PfxRecord) → InTable s o.table ↔ MadeAt c.announce c.rec s (InTable s t))
        ⊎ (is_success o.rtval ≡ false) × Same (held t) (held o.table))

add_step :
    (P Q : Records) (r : PfxRecord) (a : PfxRtval)
    → Adds r a P Q
    → (is_success a ≡ true) × (¬ P r) × ((s : PfxRecord) → Q s ↔ ((s ≡ r) ⊎ P s))
      ⊎ (is_success a ≡ false) × Same P Q
add_step P Q r success h = inl (refl, h.0, h.1)
add_step P Q r duplicate_record h = inr (refl, h.1)
add_step P Q r error h = inr (refl, h)
add_step P Q r record_not_found h = absurd h
add_step P Q r not_initialized h = absurd h

remove_step :
    (P Q : Records) (r : PfxRecord) (a : PfxRtval)
    → Removes r a P Q
    → (is_success a ≡ true) × P r × ((s : PfxRecord) → Q s ↔ (P s × (s ≢ r)))
      ⊎ (is_success a ≡ false) × Same P Q
remove_step P Q r success h = inl (refl, h.0, h.1)
remove_step P Q r record_not_found h = inr (refl, h.1)
remove_step P Q r error h = inr (refl, h)
remove_step P Q r duplicate_record h = absurd h
remove_step P Q r not_initialized h = absurd h

pub make_at :
    (mem : ℕ → Bool) (t : PfxTable) (b : Bool) (r : PfxRecord)
    → IsTable t
    → IsRecord r
    → MakeStep mem t (record { announce = b; rec = r })
unfolding apply_change
make_at mem t true r w k =
    let o = rtr_pfx_table_add mem t r in
    (
      (rtr_pfx_table_add_lem mem t r w k).well_formed,
      add_step (held t) (held o.table) r o.rtval (rtr_pfx_table_add-Adds mem t r w k),
    )
make_at mem t false r w k =
    let o = rtr_pfx_table_remove mem t r in
    (
      (rtr_pfx_table_remove_lem mem t r w).well_formed,
      remove_step (held t) (held o.table) r o.rtval (rtr_pfx_table_remove-Removes mem t r w),
    )

-- The changes of PDUs, each of them with valid flags.
abbrev pub Reads : ℕ → List StoredPdu → List Change → Type 0
Reads id [] [] = Unit {0}
Reads id (p ∷ ps) (c ∷ cs) = (change_of id p ≡ some c) × Reads id ps cs
Reads id [] (c ∷ cs) = ⊥
Reads id (p ∷ ps) [] = ⊥

-- The records may be in a table.
abbrev pub AreRecords : List Change → Type 0
AreRecords [] = Unit {0}
AreRecords (c ∷ cs) = IsRecord c.rec × AreRecords cs

batch_next :
    (mem : ℕ → ℕ → Bool) (j id : ℕ) (t : PfxTable) (p : StoredPdu) (ps : List StoredPdu)
    (c : Change)
    → change_of id p ≡ some c
    → is_error (undo_change (mem j) t c).rtval ≡ false
    → rtr_undo_update_pfx_table_batch mem j id t (p ∷ ps)
      ≡ rtr_undo_update_pfx_table_batch mem (suc j) id (undo_change (mem j) t c).table ps
unfolding rtr_undo_update_pfx_table_batch
batch_next mem j id t p ps c e f = rw (rtr_undo_update_pfx_table_batch, e, f) refl

-- Where every allocation succeeds, on a well formed table, for PDUs with valid flags whose records have words
-- of 32 bits, a length within its width and no bit set behind it: the batch succeeds and keeps the table well
-- formed, and its records are those that the inverses of the changes give, applied in the order of the PDUs.
pub rtr_undo_update_pfx_table_batch_lem :
    (mem : ℕ → ℕ → Bool) (j id : ℕ) (t : PfxTable) (ps : List StoredPdu) (cs : List Change)
    → ((i k : ℕ) → mem i k ≡ true)
    → Reads id ps cs
    → AreRecords cs
    → IsTable t
    → let u = rtr_undo_update_pfx_table_batch mem j id t ps in
      (u.done ≡ true)
      × IsTable u.table
      × ((s : PfxRecord) → InTable s u.table ↔ Unmade cs s (InTable s t))
unfolding rtr_undo_update_pfx_table_batch
rtr_undo_update_pfx_table_batch_lem mem j id t [] [] m rd k w = (refl, w, λ s. ((λ x. x), λ x. x))
rtr_undo_update_pfx_table_batch_lem mem j id t [] (c ∷ cs) m rd k w = absurd rd
rtr_undo_update_pfx_table_batch_lem mem j id t (p ∷ ps) [] m rd k w = absurd rd
rtr_undo_update_pfx_table_batch_lem mem j id t (p ∷ ps) (c ∷ cs) m rd k w =
    let (w', f, h) = undo_at (mem j) t c.announce c.rec w k.0 (m j) in
    let t' = (undo_change (mem j) t c).table in
    let later = rtr_undo_update_pfx_table_batch_lem mem (suc j) id t' ps cs m rd.1 k.1 w' in
    subst
      (λ (u : Undone).
        (u.done ≡ true)
        × IsTable u.table
        × ((s : PfxRecord) → InTable s u.table ↔ Unmade (c ∷ cs) s (InTable s t)))
      (sym (batch_next mem j id t p ps c rd.0 f))
      (later.0, later.1, λ s. iff_trans (later.2 s) (Unmade_iff cs s (h s)))

-- Where a record was announced and then withdrawn, undoing both leaves it in the table, though the table did
-- not hold it: with every allocation succeeding, on a well formed table, for a record whose prefix has words
-- of 32 bits, a length within its width and no bit set behind it, the batch succeeds on the two PDUs and the
-- table holds the record.
pub rtr_undo_update_pfx_table_batch-InTable :
    (mem : ℕ → ℕ → Bool) (j id : ℕ) (t : PfxTable) (p q : StoredPdu) (r : PfxRecord)
    → ((i k : ℕ) → mem i k ≡ true)
    → change_of id p ≡ some (record { announce = true; rec = r })
    → change_of id q ≡ some (record { announce = false; rec = r })
    → IsRecord r
    → IsTable t
    → (¬ InTable r t)
    → let u = rtr_undo_update_pfx_table_batch mem j id t (p ∷ q ∷ []) in
      (u.done ≡ true) × InTable r u.table
rtr_undo_update_pfx_table_batch-InTable mem j id t p q r m e f k w n =
    let (fin, w', h) =
      rtr_undo_update_pfx_table_batch_lem mem j id t (p ∷ q ∷ [])
        (record { announce = true; rec = r } ∷ record { announce = false; rec = r } ∷ []) m
        (e, (f, tt)) (k, (k, tt)) w in
    (fin, (h r).1 (inl refl))
