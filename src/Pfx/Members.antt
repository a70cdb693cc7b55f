-- ===== src/Pfx/Members.antt =====
-- The table as a set of records: what rtr_pfx_table_add and rtr_pfx_table_remove of pfx/trie/trie-pfx.c do,
-- with the two trees put together.
use rtrlib.Prelude.{ℕ, ◌≡◌, ◌≢◌, ◌↔◌, ◌⊎◌, inl, inr, refl, sym, ap, ◌∙◌, subst, Bool, arith}
use rtrlib.Ip.{IpVersion, ipv4, ipv6, ver}
use rtrlib.Pfx.Data.{
  PfxRecord, PfxRtval, success, error, duplicate_record, record_not_found, not_initialized,
}
use rtrlib.Pfx.Table.{PfxTable, pfx_table_get_root, rtr_pfx_table_add, rtr_pfx_table_remove}
use rtrlib.Pfx.Records.{IsTable, IsRecord, InTable, InTree}
use rtrlib.Pfx.Add.{other, rtr_pfx_table_add_lem}
use rtrlib.Pfx.AddTree.{AddIs, HasAdded}
use rtrlib.Pfx.Remove.{rtr_pfx_table_remove_lem}
use rtrlib.Pfx.RemoveTree.{RemoveIs, HasRemoved}

-- A set of records.
abbrev pub Records : Type 1
Records = PfxRecord → Type 0

abbrev pub Same : Records → Records → Type 0
Same P Q = (s : PfxRecord) → Q s ↔ P s

-- What adding `r` with the answer does to a set of records.
abbrev pub Adds : PfxRecord → PfxRtval → Records → Records → Type 0
Adds r success P Q = (¬ P r) × ((s : PfxRecord) → Q s ↔ ((s ≡ r) ⊎ P s))
Adds r duplicate_record P Q = P r × Same P Q
Adds r error P Q = Same P Q
Adds r record_not_found P Q = ⊥
Adds r not_initialized P Q = ⊥

-- What removing it does.
abbrev pub Removes : PfxRecord → PfxRtval → Records → Records → Type 0
Removes r success P Q = P r × ((s : PfxRecord) → Q s ↔ (P s × (s ≢ r)))
Removes r record_not_found P Q = (¬ P r) × Same P Q
Removes r error P Q = Same P Q
Removes r duplicate_record P Q = ⊥
Removes r not_initialized P Q = ⊥

abbrev pub held : PfxTable → Records
held t = λ s. InTable s t

ver_cases : (v w : IpVersion) → (w ≡ v) ⊎ (w ≡ other v)
ver_cases ipv4 ipv4 = inl refl
ver_cases ipv4 ipv6 = inr refl
ver_cases ipv6 ipv4 = inr refl
ver_cases ipv6 ipv6 = inl refl

other_ne : (v : IpVersion) → v ≢ other v
other_ne ipv4 e = ground arith
other_ne ipv6 e = ground arith

module _ (t u : PfxTable) (r : PfxRecord)
    (same : pfx_table_get_root u (other (ver r.prefix))
      ≡ pfx_table_get_root t (other (ver r.prefix))) where
  -- A record of the other version is held as before, and is not `r`.
  of_other : (s : PfxRecord) → ver s.prefix ≡ other (ver r.prefix) → InTable s u ↔ InTable s t
  of_other s e =
      subst (λ w. InTree s (pfx_table_get_root u w) ↔ InTree s (pfx_table_get_root t w)) (sym e)
        (subst (λ x. InTree s x ↔ InTree s (pfx_table_get_root t (other (ver r.prefix)))) (sym same)
          ((λ h. h), λ h. h))

  differs : (s : PfxRecord) → ver s.prefix ≡ other (ver r.prefix) → s ≢ r
  differs s e q = other_ne (ver r.prefix) (sym (ap (λ (x : PfxRecord). ver x.prefix) q) ∙ e)

  added_at :
      HasAdded
        (ver r.prefix)
        (pfx_table_get_root t (ver r.prefix))
        (pfx_table_get_root u (ver r.prefix))
        r
      → (s : PfxRecord) → InTable s u ↔ ((s ≡ r) ⊎ InTable s t)
  added_at h s = elim (ver_cases (ver r.prefix) (ver s.prefix)) [
    | inl e ↦
        subst
          (λ w. InTree s (pfx_table_get_root u w) ↔ ((s ≡ r) ⊎ InTree s (pfx_table_get_root t w)))
          (sym e) (h.records s)
    | inr e ↦ (
      λ i. inr ((of_other s e).0 i),
      λ i. elim i [ inl q ↦ absurd (differs s e q) | inr j ↦ (of_other s e).1 j ],
    )
  ]

  removed_at :
      HasRemoved
        (ver r.prefix)
        (pfx_table_get_root t (ver r.prefix))
        (pfx_table_get_root u (ver r.prefix))
        r
      → (s : PfxRecord) → InTable s u ↔ (InTable s t × (s ≢ r))
  removed_at h s = elim (ver_cases (ver r.prefix) (ver s.prefix)) [
    | inl e ↦
        subst
          (λ w. InTree s (pfx_table_get_root u w) ↔ (InTree s (pfx_table_get_root t w) × (s ≢ r)))
          (sym e) (h.records s)
    | inr e ↦ ((λ i. ((of_other s e).0 i, differs s e)), λ i. (of_other s e).1 i.0)
  ]

  kept_at :
      ((s : PfxRecord)
        → InTree s (pfx_table_get_root u (ver r.prefix))
          ↔ InTree s (pfx_table_get_root t (ver r.prefix)))
      → Same (held t) (held u)
  kept_at h s = elim (ver_cases (ver r.prefix) (ver s.prefix)) [
    | inl e ↦
        subst (λ w. InTree s (pfx_table_get_root u w) ↔ InTree s (pfx_table_get_root t w)) (sym e)
          (h s)
    | inr e ↦ of_other s e
  ]

  same_at :
      pfx_table_get_root u (ver r.prefix) ≡ pfx_table_get_root t (ver r.prefix)
      → Same (held t) (held u)
  same_at e = kept_at (λ s.
      subst (λ x. InTree s x ↔ InTree s (pfx_table_get_root t (ver r.prefix))) (sym e)
        ((λ h. h), λ h. h))

  Adds-of :
      (a : PfxRtval)
      → AddIs
          (ver r.prefix)
          (pfx_table_get_root t (ver r.prefix))
          r
          a
          (pfx_table_get_root u (ver r.prefix))
      → Adds r a (held t) (held u)
  Adds-of success h = (h.new, added_at h)
  Adds-of duplicate_record h = (h.0, same_at h.1)
  Adds-of error h = same_at h
  Adds-of record_not_found h = h
  Adds-of not_initialized h = h

  Removes-of :
      (a : PfxRtval)
      → RemoveIs
          (ver r.prefix)
          (pfx_table_get_root t (ver r.prefix))
          r
          a
          (pfx_table_get_root u (ver r.prefix))
      → Removes r a (held t) (held u)
  Removes-of success h = (h.old, removed_at h)
  Removes-of record_not_found h = (h.0, same_at h.1)
  Removes-of error h = kept_at h.records
  Removes-of duplicate_record h = h
  Removes-of not_initialized h = h

-- rtr_pfx_table_add implements adding to a set of records, those of both versions together: for a well
-- formed table and a record whose prefix has words of 32 bits, a length within its width and no bit set
-- behind it, SUCCESS adds a record that was not there, DUPLICATE_RECORD is for one that was there, on it and
-- on ERROR the set stays, and there is no other answer.
pub rtr_pfx_table_add-Adds :
    (mem : ℕ → Bool) (t : PfxTable) (r : PfxRecord)
    → IsTable t
    → IsRecord r
    → let o = rtr_pfx_table_add mem t r in Adds r o.rtval (held t) (held o.table)
rtr_pfx_table_add-Adds mem t r w k =
    let o = rtr_pfx_table_add mem t r in
    let h = rtr_pfx_table_add_lem mem t r w k in Adds-of t o.table r h.other_tree o.rtval h.tree

-- rtr_pfx_table_remove implements removing from a set of records, those of both versions together: on a
-- well formed table SUCCESS removes a record that was there, RECORD_NOT_FOUND is for one that was not, on it
-- and on ERROR the set stays, and there is no other answer.
pub rtr_pfx_table_remove-Removes :
    (mem : ℕ → Bool) (t : PfxTable) (r : PfxRecord)
    → IsTable t
    → let o = rtr_pfx_table_remove mem t r in Removes r o.rtval (held t) (held o.table)
rtr_pfx_table_remove-Removes mem t r w =
    let o = rtr_pfx_table_remove mem t r in
    let h = rtr_pfx_table_remove_lem mem t r w in Removes-of t o.table r h.other_tree o.rtval h.tree
