-- ===== src/Pfx/Origin.antt =====
-- Origin validation: what rtr_pfx_table_validate_r decides, against RFC 6811.
use rtrlib.Trie.Exact.{IsFor}
use mathlib.Core.Bool.{false≢true}
use rtrlib.Prelude.{
  subst, ap, Bool-cases, leb, ◌==◌, ◌∙◌, refl, suc, sym, ℕ, ◌≤◌, ◌≡◌, ◌≢◌, ◌↔◌, inl, inr, Bool,
  true, false, ◌&&◌, not, List, [], ◌∷◌, ◌++◌, Elem, some, arith, if◌then◌else◌,
}
use rtrlib.Ip.{is_left_child, IpAddr, ver, IsWords}
use rtrlib.Ip.Laws.{Agree}
use rtrlib.Trie.Defs.{Entry, trie_lookup, null, node}
use rtrlib.Trie.Invariant.{In, All-in}
use rtrlib.Trie.Lookup.{IsEntry-of_In, covering, HitIs, IsCovering, trie_lookup_lem, Elem-covering}
use rtrlib.Pfx.Data.{
  DataElem, NodeData, PfxRecord, elem_of, record_of, pfx_table_elem_matches,
  pfx_table_node2pfx_record,
}
use rtrlib.Pfx.Table.{PfxTable, PfxTrie, pfx_table_get_root}
use rtrlib.Pfx.Records.{IsData, IsPfxTree, IsTable, InTree, InTable, IsPfxTree-of}
use rtrlib.Pfx.Validate.{
  validate_at, PfxvState, valid, not_found, invalid, Validation, verdict, state_of, any_matches,
  visited, rest_of, rtr_pfx_table_validate_r, loop_lem, height, height-trie_lookup,
}

-- "Covered" and "matched" of RFC 6811, section 2.
pub record IsCover (q : IpAddr) (m : ℕ) (r : PfxRecord) : Type 0 where
  pub version : ver r.prefix ≡ ver q
  pub shorter : r.min_len ≤ m
  pub agree : Agree r.prefix q r.min_len

pub record IsMatch (asn m : ℕ) (r : PfxRecord) : Type 0 where
  pub not_zero : r.asn ≢ 0
  pub same_asn : r.asn ≡ asn
  pub long_enough : m ≤ r.max_len

pub OriginIs : PfxTable → ℕ → IpAddr → ℕ → PfxvState → Type 0
OriginIs t asn q m valid = (r : PfxRecord) × InTable r t × IsCover q m r × IsMatch asn m r
OriginIs t asn q m not_found = (r : PfxRecord) → InTable r t → ¬ IsCover q m r
OriginIs t asn q m invalid =
    ((r : PfxRecord) × InTable r t × IsCover q m r)
    × ((r : PfxRecord) → InTable r t → IsCover q m r → ¬ IsMatch asn m r)

-- What is written for the covering entries on the way.
abbrev result_of : List (Entry NodeData) → ℕ → ℕ → Bool → Validation
result_of [] asn m want = verdict not_found []
result_of (e ∷ xs) asn m want =
    verdict (state_of (any_matches (e ∷ xs) asn m)) (if want then visited (e ∷ xs) asn m else [])

validate_from :
    (mem : ℕ → Bool) (want : Bool) (asn : ℕ) (q : IpAddr) (m : ℕ) (fuel : ℕ) (at : PfxTrie)
    (lvl : ℕ) (xs : List (Entry NodeData))
    → ((i : ℕ) → (want && not (mem i)) ≡ false)
    → height at ≤ fuel
    → HitIs q m lvl at xs
    → validate_at mem fuel want asn q m at lvl ≡ some (result_of xs asn m want)
unfolding visited
validate_from mem want asn q m fuel null lvl xs ok h is = rw is
validate_from mem want asn q m fuel (node e l r) lvl xs ok h is = rw (ok 0) (
    loop_lem fuel mem 1 want (node e l r) lvl asn q m
      (if want then pfx_table_node2pfx_record e e.payload else []) xs ok h is refl
    ∙ rw is.0 (reasons want))
  where
    ys : List (Entry NodeData)
    ys = if is_left_child q lvl then covering l q m (suc lvl) else covering r q m (suc lvl)

    reasons :
        (w : Bool)
        → some (
            verdict (state_of (any_matches (e ∷ ys) asn m)) (
              if w
              then (if w then pfx_table_node2pfx_record e e.payload else [])
                ++ rest_of (e ∷ ys) asn m
              else (if w then pfx_table_node2pfx_record e e.payload else [])))
          ≡ some (
              verdict
                (state_of (any_matches (e ∷ ys) asn m))
                (if w then visited (e ∷ ys) asn m else []))
    reasons true = refl
    reasons false = refl

validate_result :
    (mem : ℕ → Bool) (t : PfxTable) (want : Bool) (asn : ℕ) (q : IpAddr) (m : ℕ)
    → ((i : ℕ) → (want && not (mem i)) ≡ false)
    → rtr_pfx_table_validate_r mem t want asn q m
      ≡ some (result_of (covering (pfx_table_get_root t (ver q)) q m 0) asn m want)
unfolding rtr_pfx_table_validate_r
validate_result mem t want asn q m ok =
    let root = pfx_table_get_root t (ver q) in
    let hit = trie_lookup root q m 0 in
    validate_from mem want asn q m (height root) hit.at hit.lvl (covering root q m 0) ok
      (height-trie_lookup root q m 0) (trie_lookup_lem root q m 0)

-- An element that pfx_table_elem_matches accepts.
abbrev ElemMatches : ℕ → ℕ → DataElem → Type 0
ElemMatches asn m d = (d.asn ≢ 0) × (d.asn ≡ asn) × (m ≤ d.max_len)

ElemMatches-sound :
    (ds : NodeData) (asn m : ℕ)
    → pfx_table_elem_matches ds asn m ≡ true
    → (d : DataElem) × Elem d ds × ElemMatches asn m d
unfolding pfx_table_elem_matches
ElemMatches-sound [] asn m h = cc
ElemMatches-sound (d ∷ ds) asn m h =
    elim (Bool-cases (not (d.asn == 0) && d.asn == asn && leb m d.max_len)) [
      | inl y ↦ (d, inl refl, ground arith)
      | inr y ↦ let (x, i, k) = ElemMatches-sound ds asn m (ground arith) in (x, inr i, k)
    ]

ElemMatches-complete :
    (ds : NodeData) (asn m : ℕ) (d : DataElem)
    → Elem d ds
    → ElemMatches asn m d
    → pfx_table_elem_matches ds asn m ≡ true
unfolding pfx_table_elem_matches
ElemMatches-complete [] asn m d i k = absurd i
ElemMatches-complete (x ∷ ds) asn m d i k = ground (arith, ElemMatches-complete ds asn m d)

any_matches_sound :
    (xs : List (Entry NodeData)) (asn m : ℕ)
    → any_matches xs asn m ≡ true
    → (e : Entry NodeData) × Elem e xs × (d : DataElem) × Elem d e.payload × ElemMatches asn m d
unfolding any_matches
any_matches_sound [] asn m h = cc
any_matches_sound (e ∷ xs) asn m h = elim (Bool-cases (pfx_table_elem_matches e.payload asn m)) [
  | inl y ↦ let (d, i, k) = ElemMatches-sound e.payload asn m y in (e, inl refl, d, i, k)
  | inr y ↦ let (f, j, d, i, k) = any_matches_sound xs asn m (ground arith) in (f, inr j, d, i, k)
]

any_matches_complete :
    (xs : List (Entry NodeData)) (asn m : ℕ) (e : Entry NodeData) (d : DataElem)
    → Elem e xs
    → Elem d e.payload
    → ElemMatches asn m d
    → any_matches xs asn m ≡ true
unfolding any_matches
any_matches_complete [] asn m e d j i k = absurd j
any_matches_complete (x ∷ xs) asn m e d (inl p) i k =
    let y = ElemMatches-complete e.payload asn m d i k in rw (← p) (rw y)
any_matches_complete (x ∷ xs) asn m e d (inr j) i k =
    let y = any_matches_complete xs asn m e d j i k in ground arith

some-Elem : (ds : NodeData) → ds ≢ [] → (d : DataElem) × Elem d ds
some-Elem [] h = absurd (h refl)
some-Elem (d ∷ ds) h = (d, inl refl)

-- A record of the table with the node that holds it.
record_in :
    (t : PfxTrie) (e : Entry NodeData) (d : DataElem)
    → In e t
    → Elem d e.payload
    → InTree (record_of e d) t
record_in t e d i h = record { entry = e; entry_in = i; entry_for = (refl, refl); elem = h }

IsCover-of_covering :
    (q : IpAddr) (m : ℕ) (e : Entry NodeData) (d : DataElem)
    → ver e.prefix ≡ ver q
    → IsCovering q m e
    → IsCover q m (record_of e d)
IsCover-of_covering q m e d h c = record { version = h; shorter = c.shorter; agree = c.agree }

-- The node of a covering record is met on the way.
IsCovering-of_IsCover :
    (q : IpAddr) (m : ℕ) (r : PfxRecord) (e : Entry NodeData)
    → IsFor r.prefix r.min_len e
    → IsCover q m r
    → IsCovering q m e
IsCovering-of_IsCover q m r e k c = record {
  shorter = rw k.1 c.shorter;
  agree = λ i h. ap (λ a. is_left_child a i) k.0 ∙ c.agree i (omega (arith, h, k.1));
}

module _ (t : PfxTable) (asn : ℕ) (q : IpAddr) (m : ℕ) (w : IsTable t) (words : IsWords q) where
  abbrev root_q : PfxTrie
  root_q = pfx_table_get_root t (ver q)

  abbrev way : List (Entry NodeData)
  way = covering root_q q m 0

  tree_q : IsPfxTree (ver q) root_q
  tree_q = IsPfxTree-of t (ver q) w

  on_way : (e : Entry NodeData) → Elem e way ↔ (In e root_q × IsCovering q m e)
  on_way e = Elem-covering (ver q) 0 root_q q m e tree_q.trie words refl

  version_of : (e : Entry NodeData) → In e root_q → ver e.prefix ≡ ver q
  version_of e i = (IsEntry-of_In (ver q) 0 root_q e tree_q.trie i).version

  in_table :
      (e : Entry NodeData) (d : DataElem)
      → In e root_q
      → Elem d e.payload
      → InTable (record_of e d) t
  in_table e d i h = rw (version_of e i) (record_in root_q e d i h)

  node_of : (r : PfxRecord) → InTable r t → IsCover q m r → InTree r root_q
  node_of r i c = subst (λ v. InTree r (pfx_table_get_root t v)) c.version i

  met : (r : PfxRecord) (i : InTable r t) (c : IsCover q m r) → Elem (node_of r i c).entry way
  met r i c =
      let n = node_of r i c in
      (on_way n.entry).1 (n.entry_in, IsCovering-of_IsCover q m r n.entry n.entry_for c)

  first-Elem : (e : Entry NodeData) → In e root_q → (d : DataElem) × Elem d e.payload
  first-Elem e i = some-Elem e.payload (All-in IsData root_q e tree_q.nodes i).filled

  origin_of : List (Entry NodeData) → PfxvState
  origin_of [] = not_found
  origin_of (e ∷ xs) = state_of (any_matches (e ∷ xs) asn m)

  -- The state is right if the walk meets a node that covers the prefix.
  OriginIs-cons :
      (e : Entry NodeData) (xs : List (Entry NodeData))
      → way ≡ e ∷ xs
      → OriginIs t asn q m (state_of (any_matches (e ∷ xs) asn m))
  unfolding OriginIs
  OriginIs-cons e xs h = elim (Bool-cases (any_matches (e ∷ xs) asn m)) [
    | inl y ↦
        let (f, j, d, i, k) = any_matches_sound (e ∷ xs) asn m y in
        let (n, c) = (on_way f).0 (rw h j) in
        rw y (
          record_of f d,
          in_table f d n i,
          IsCover-of_covering q m f d (version_of f n) c,
          record { not_zero = k.0; same_asn = k.1; long_enough = k.2 },
        )
    | inr y ↦
        let (n, c) = (on_way e).0 (rw h (inl refl)) in
        let (d, i) = first-Elem e n in
        rw y (
          (record_of e d, in_table e d n i, IsCover-of_covering q m e d (version_of e n) c),
          λ r ir cr k. false≢true (
              sym y
              ∙ any_matches_complete (e ∷ xs) asn m (node_of r ir cr).entry (elem_of r)
                  (subst (Elem (node_of r ir cr).entry) h (met r ir cr)) (node_of r ir cr).elem
                  (k.not_zero, k.same_asn, k.long_enough)),
        )
  ]

  OriginIs-nil : way ≡ [] → OriginIs t asn q m not_found
  unfolding OriginIs
  OriginIs-nil h r i c = subst (Elem (node_of r i c).entry) h (met r i c)

  Validated : Bool → List (Entry NodeData) → Type 0
  Validated want xs =
      (s : PfxvState) × (reason : List PfxRecord) × (some (result_of xs asn m want)
        ≡ some (verdict s reason))
      × OriginIs t asn q m s

  validated : (want : Bool) (xs : List (Entry NodeData)) → way ≡ xs → Validated want xs
  unfolding Validated
  validated want [] h = (not_found, [], refl, OriginIs-nil h)
  validated want (e ∷ xs) h = (
    state_of (any_matches (e ∷ xs) asn m),
    (if want then visited (e ∷ xs) asn m else []),
    refl,
    OriginIs-cons e xs h,
  )

-- Origin validation of RFC 6811: on a well formed table, for an address whose words are of 32 bits, and
-- where no allocation for the reasons fails, if they are wanted, rtr_pfx_table_validate_r returns SUCCESS, and its result is NOT_FOUND if no record covers the prefix, VALID if
-- some covering record matches, and INVALID if there are covering records and none matches.
pub validate_correct :
    (mem : ℕ → Bool) (t : PfxTable) (want : Bool) (asn : ℕ) (q : IpAddr) (m : ℕ)
    → IsTable t
    → IsWords q
    → ((i : ℕ) → (want && not (mem i)) ≡ false)
    → (s : PfxvState) × (reason : List PfxRecord) × (rtr_pfx_table_validate_r mem t want asn q m
        ≡ some (verdict s reason))
      × OriginIs t asn q m s
unfolding Validated
validate_correct mem t want asn q m w words ok =
    let (s, reason, e, o) =
      validated t asn q m w words want (covering (pfx_table_get_root t (ver q)) q m 0) refl in
    (s, reason, validate_result mem t want asn q m ok ∙ e, o)
