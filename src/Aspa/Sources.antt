-- ===== src/Aspa/Sources.antt =====
-- rtr_aspa_table_src_remove and aspa_table_src_replace of aspa/aspa.c: whose records the tables hold
-- afterwards.
use rtrlib.Prelude.{
  Bool-cases, ℕ, ◌≡◌, ◌≢◌, ◌⊎◌, inl, inr, refl, sym, ap, subst, Bool, true, false, none, some, [],
}
use rtrlib.Aspa.Array.{success, error, AspaArray}
use rtrlib.Aspa.Table.{
  AspaNode, AspaTable, TableOutcome, Replaced, aspa_store_get_node, aspa_store_create_node,
  aspa_table_remove_node, rtr_aspa_table_src_remove, aspa_table_src_replace,
}
use rtrlib.Aspa.Held.{
  array_of, array_at, IsFirst, get_node_lem, IsStore, HasNone-array_of, IsStore-remove,
  array_of-remove, array_of-remove_other, array_of-set_array, array_of-set_array_other,
  IsStore-set_array, array_of-cons_other, array_of-cons_here,
}

-- The store after the records of the socket are gone.
pub record IsWithout (socket : ℕ) (t u : AspaTable) : Type 0 where
  pub well_formed : IsStore u.store
  pub gone : array_of u.store socket ≡ none
  pub others : (s : ℕ) → s ≢ socket → array_of u.store s ≡ array_of t.store s

remove_found :
    (mem : ℕ → Bool) (t : AspaTable) (socket i : ℕ) (n : AspaNode) (notify : Bool)
    → IsStore t.store
    → IsFirst t.store socket i n
    → IsWithout socket t (aspa_table_remove_node mem t i n notify).table
unfolding aspa_table_remove_node
remove_found mem t socket i n notify w f = record {
  well_formed = IsStore-remove f w;
  gone = array_of-remove f w;
  others = λ s d. array_of-remove_other s f d;
}

src_remove_none :
    (mem : ℕ → Bool) (t : AspaTable) (socket : ℕ) (notify : Bool)
    → aspa_store_get_node t.store socket ≡ none
    → rtr_aspa_table_src_remove mem t socket notify
      ≡ record { status = success; table = t; told = [] }
unfolding rtr_aspa_table_src_remove
src_remove_none mem t socket notify e = rw (rtr_aspa_table_src_remove, e) refl

src_remove_some :
    (mem : ℕ → Bool) (t : AspaTable) (socket i : ℕ) (n : AspaNode) (notify : Bool)
    → aspa_store_get_node t.store socket ≡ some (i, n)
    → rtr_aspa_table_src_remove mem t socket notify ≡ aspa_table_remove_node mem t i n notify
unfolding rtr_aspa_table_src_remove
src_remove_some mem t socket i n notify e = rw (rtr_aspa_table_src_remove, e) refl

-- On a table with at most one node for each socket, rtr_aspa_table_src_remove leaves no array for the socket,
-- keeps the arrays of all other sockets, and leaves at most one node for each.
pub rtr_aspa_table_src_remove-IsWithout :
    (mem : ℕ → Bool) (t : AspaTable) (socket : ℕ) (notify : Bool)
    → IsStore t.store
    → IsWithout socket t (rtr_aspa_table_src_remove mem t socket notify).table
rtr_aspa_table_src_remove-IsWithout mem t socket notify w = elim (get_node_lem t.store socket) [
  | inl e ↦
      subst (λ (o : TableOutcome). IsWithout socket t o.table)
        (sym (src_remove_none mem t socket notify e))
        (record { well_formed = w; gone = ap array_at e; others = λ s d. refl })
  | inr (i, n, e, f) ↦
      subst (λ (o : TableOutcome). IsWithout socket t o.table)
        (sym (src_remove_some mem t socket i n notify e)) (remove_found mem t socket i n notify w f)
]

-- The store with `a` for the socket.
pub record IsWith (socket : ℕ) (a : AspaArray) (t u : AspaTable) : Type 0 where
  pub well_formed : IsStore u.store
  pub present : array_of u.store socket ≡ some a
  pub others : (s : ℕ) → s ≢ socket → array_of u.store s ≡ array_of t.store s

-- What aspa_table_src_replace does: it moves the array, or does nothing.
pub record IsMoved (socket : ℕ) (dst src : AspaTable) (o : Replaced) : Type 0 where
  pub array : AspaArray
  pub from : array_of src.store socket ≡ some array
  pub done : o.status ≡ success
  pub to : IsWith socket array dst o.dst
  pub left : IsWithout socket src o.src

abbrev pub IsReplace : ℕ → AspaTable → AspaTable → Replaced → Type 0
IsReplace socket dst src o =
    IsMoved socket dst src o ⊎ (o.status ≡ error) × (o.dst ≡ dst) × (o.src ≡ src)

module _ (ok : Bool) (m1 m2 m3 : ℕ → Bool) (dst src : AspaTable) (socket : ℕ) (nd ns : Bool) where
  abbrev outcome : Replaced
  outcome = aspa_table_src_replace ok m1 m2 m3 dst src socket nd ns

  IsReplace-none : aspa_store_get_node src.store socket ≡ none → IsReplace socket dst src outcome
  unfolding aspa_table_src_replace
  IsReplace-none e = rw (aspa_table_src_replace, e) (inr (refl, refl, refl))

  IsReplace-both :
      (i : ℕ) (n : AspaNode) (j : ℕ) (d : AspaNode)
      → IsStore dst.store
      → IsStore src.store
      → aspa_store_get_node src.store socket ≡ some (i, n)
      → IsFirst src.store socket i n
      → aspa_store_get_node dst.store socket ≡ some (j, d)
      → IsFirst dst.store socket j d
      → IsReplace socket dst src outcome
  unfolding aspa_table_src_replace
  IsReplace-both i n j d wd ws e f g h =
      rw (aspa_table_src_replace, e, g)
        (inl (record {
          array = n.array;
          from = ap array_at e;
          done = refl;
          to = record {
            well_formed = IsStore-set_array n.array h wd;
            present = array_of-set_array n.array h;
            others = λ s q. array_of-set_array_other n.array s h q;
          };
          left = record {
            well_formed = IsStore-remove f ws;
            gone = array_of-remove f ws;
            others = λ s q. array_of-remove_other s f q;
          };
        }))

  IsReplace-new :
      (i : ℕ) (n : AspaNode)
      → IsStore dst.store
      → IsStore src.store
      → aspa_store_get_node src.store socket ≡ some (i, n)
      → IsFirst src.store socket i n
      → aspa_store_get_node dst.store socket ≡ none
      → ok ≡ true
      → IsReplace socket dst src outcome
  unfolding aspa_table_src_replace aspa_store_create_node
  IsReplace-new i n wd ws e f g k =
      rw (aspa_table_src_replace, e, g, k)
        (inl (record {
          array = n.array;
          from = ap array_at e;
          done = refl;
          to = record {
            well_formed = (HasNone-array_of socket dst.store g, wd);
            present = array_of-cons_here socket n.array dst.store;
            others = λ s q. array_of-cons_other socket n.array dst.store s q;
          };
          left = record {
            well_formed = IsStore-remove f ws;
            gone = array_of-remove f ws;
            others = λ s q. array_of-remove_other s f q;
          };
        }))

  IsReplace-failed :
      (i : ℕ) (n : AspaNode)
      → aspa_store_get_node src.store socket ≡ some (i, n)
      → aspa_store_get_node dst.store socket ≡ none
      → ok ≡ false
      → IsReplace socket dst src outcome
  unfolding aspa_table_src_replace aspa_store_create_node
  IsReplace-failed i n e g k = rw (aspa_table_src_replace, e, g, k) (inr (refl, refl, refl))

-- On tables with at most one node for each socket, aspa_table_src_replace either succeeds or changes neither
-- table and returns an error. Where it succeeds, the array that the source has for the socket is the one of
-- the destination, the source has none for it, all other sockets keep their arrays in both tables, and each
-- socket has at most one node in them.
pub aspa_table_src_replace-IsReplace :
    (ok : Bool) (m1 m2 m3 : ℕ → Bool) (dst src : AspaTable) (socket : ℕ) (nd ns : Bool)
    → IsStore dst.store
    → IsStore src.store
    → IsReplace socket dst src (aspa_table_src_replace ok m1 m2 m3 dst src socket nd ns)
aspa_table_src_replace-IsReplace ok m1 m2 m3 dst src socket nd ns wd ws =
    elim (get_node_lem src.store socket) [
      | inl e ↦ IsReplace-none ok m1 m2 m3 dst src socket nd ns e
      | inr (i, n, e, f) ↦ elim (get_node_lem dst.store socket) [
        | inl g ↦ elim (Bool-cases ok) [
          | inl k ↦ IsReplace-new ok m1 m2 m3 dst src socket nd ns i n wd ws e f g k
          | inr k ↦ IsReplace-failed ok m1 m2 m3 dst src socket nd ns i n e g k
        ]
        | inr (j, d, g, h) ↦ IsReplace-both ok m1 m2 m3 dst src socket nd ns i n j d wd ws e f g h
      ]
    ]
