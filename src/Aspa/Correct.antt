-- ===== src/Aspa/Correct.antt =====
-- What the answers of rtr_aspa_verify_as_path mean, in terms of the hops of the path.
use native.Mathlib.Decide.{ℕ_discrete}
use rtrlib.Prelude.{
  ap, ℕ, ◌+◌, ◌-◌, ◌≤◌, ◌<◌, ◌≡◌, ◌≢◌, sym, subst, true, false, ltb, leb, if◌then◌else◌, Option,
  none, some, List, length, arith, inl, inr, Bool-cases,
}
use rtrlib.Aspa.Ramps.{
  HopResult, not_provider_plus, provider_plus, is_not_provider, up_ramp, down_ramp, find_right,
  find_left, IsUpRamp, IsDownRamp, HasUpRamp, HasDownRamp, RightIs, LeftIs, up_ramp_lem,
  down_ramp_lem, find_right_lem, find_left_lem, le_trans, is_not_provider_lem, not_not_provider_lem,
  LeftIs-suc,
}
use rtrlib.Aspa.Hop.{Store}
use rtrlib.Aspa.Verify.{
  VerificationResult, as_path_unknown, as_path_invalid, as_path_valid, Direction, upstream,
  downstream, up_hop, down_hop, from_right, from_left, if_found, verify_up, both_found, verify_down,
  rtr_aspa_verify_as_path,
}

-- The origin is at index `n`. A route that was sent upstream is valid where all hops go from customer to
-- provider, and invalid where one is attested not to.
abbrev pub UpstreamIs : (ℕ → HopResult) → ℕ → VerificationResult → Type 0
UpstreamIs up n as_path_valid = IsUpRamp up n 0
UpstreamIs up n as_path_invalid = (c : ℕ) × (0 < c) × (c ≤ n) × (up c ≡ not_provider_plus)
UpstreamIs up n as_path_unknown =
    (IsUpRamp up n 0 → ⊥) × ((c : ℕ) → 0 < c → c ≤ n → up c ≢ not_provider_plus)

-- An up-ramp and a down-ramp that cover the path but for one hop at most.
pub record IsValidPath (up down : ℕ → HopResult) (n : ℕ) : Type 0 where
  pub r : ℕ
  pub l : ℕ
  pub within : r ≤ n
  pub up_to : IsUpRamp up n r
  pub down_to : IsDownRamp down l
  pub meets : r ≤ l + 1

-- Two hops attested not to go to a provider that oppose each other, with an AS between them.
pub record IsLeak (up down : ℕ → HopResult) (n : ℕ) : Type 0 where
  pub c : ℕ
  pub k : ℕ
  pub within : c ≤ n
  pub apart : k + 1 < c
  pub right_hop : up c ≡ not_provider_plus
  pub left_hop : down k ≡ not_provider_plus

abbrev pub DownstreamIs : (ℕ → HopResult) → (ℕ → HopResult) → ℕ → VerificationResult → Type 0
DownstreamIs up down n as_path_valid = IsValidPath up down n
DownstreamIs up down n as_path_invalid = IsLeak up down n
DownstreamIs up down n as_path_unknown = (IsValidPath up down n → ⊥) × (IsLeak up down n → ⊥)

not_both : (h : HopResult) → h ≡ provider_plus → h ≡ not_provider_plus → ⊥
not_both h a b = ground arith

from_right_lem : (up : ℕ → HopResult) (lo r : ℕ) → lo < r → RightIs up lo r (from_right up lo r)
from_right_lem up lo r h = elim (Bool-cases (is_not_provider (up r))) [
  | inl e ↦
      subst (RightIs up lo r) (sym (found e))
        (h, omega arith, is_not_provider_lem (up r) e, λ c a b q. omega arith)
  | inr e ↦ subst (RightIs up lo r) (sym (next e)) (find_right_lem up lo r)
]
  where
    found : is_not_provider (up r) ≡ true → from_right up lo r ≡ some r
    found e = ground arith

    next : is_not_provider (up r) ≡ false → from_right up lo r ≡ find_right up lo r
    next e = ground arith

from_left_lem :
    (down : ℕ → HopResult) (l rr : ℕ) → l + 1 < rr → LeftIs down l rr (from_left down l rr)
from_left_lem down l rr h = elim (Bool-cases (is_not_provider (down l))) [
  | inl e ↦
      subst (LeftIs down l rr) (sym (found e)) (l, omega arith, h, is_not_provider_lem (down l) e)
  | inr e ↦ subst (LeftIs down l rr) (sym (next e)) (
      LeftIs-suc down l rr (find_left down rr (l + 1) rr) (not_not_provider_lem (down l) e)
        (find_left_lem down rr (l + 1) rr (omega arith)))
]
  where
    found : is_not_provider (down l) ≡ true → from_left down l rr ≡ true
    found e = ground arith

    next : is_not_provider (down l) ≡ false → from_left down l rr ≡ find_left down rr (l + 1) rr
    next e = ground arith

verify_up-zero : (up : ℕ → HopResult) (n : ℕ) → up_ramp up n ≡ 0 → verify_up up n ≡ as_path_valid
unfolding verify_up
verify_up-zero up n e = ground arith

verify_up-suc :
    (up : ℕ → HopResult) (n : ℕ)
    → 0 < up_ramp up n
    → verify_up up n ≡ if_found (from_right up 0 (up_ramp up n))
unfolding verify_up
verify_up-suc up n e = ground arith

-- No nP+ hop is on an up-ramp.
on_ramp :
    (up : ℕ → HopResult) (n r c : ℕ) → IsUpRamp up n r → c ≤ n → up c ≡ not_provider_plus → c ≤ r
on_ramp up n r c h b e = elim (Bool-cases (ltb r c)) [
  | inl q ↦ absurd (not_both (up c) (h c (ground arith) b) e)
  | inr q ↦ ground arith
]

on_down_ramp :
    (down : ℕ → HopResult) (l k : ℕ) → IsDownRamp down l → down k ≡ not_provider_plus → l ≤ k
on_down_ramp down l k h e = elim (Bool-cases (ltb k l)) [
  | inl q ↦ absurd (not_both (down k) (h k (ground arith)) e)
  | inr q ↦ ground arith
]

lt_of : (l k c : ℕ) → l ≤ k → k + 1 < c → l + 1 < c
lt_of l k c h g = omega arith

lt_of' : (k c rr : ℕ) → k + 1 < c → c ≤ rr → k + 1 < rr
lt_of' k c rr h g = omega arith

upstream_answer :
    (up : ℕ → HopResult) (n r : ℕ) (found : Option ℕ)
    → HasUpRamp up n r
    → 0 < r
    → RightIs up 0 r found
    → UpstreamIs up n (if_found found)
upstream_answer up n r none h p f = (
  λ a. elim h.ends [ inl e ↦ omega arith | inr e ↦ e (a r p h.within) ],
  λ c a b e. f c a (on_ramp up n r c h.ramp b e) e,
)
upstream_answer up n r (some c) h p (a, b, e, m) = (c, a, le_trans c r n b h.within, e)

-- With the hops given, the upstream answer is valid where all hops go from customer to provider, invalid
-- where a hop is attested not to, and unknown where neither holds.
pub verify_up_lem : (up : ℕ → HopResult) (n : ℕ) → UpstreamIs up n (verify_up up n)
verify_up_lem up n = elim (ℕ_discrete (up_ramp up n) 0) [
  | yes e ↦
      subst (UpstreamIs up n) (sym (verify_up-zero up n e))
        (subst (IsUpRamp up n) e (up_ramp_lem up n).ramp)
  | no e ↦ subst (UpstreamIs up n) (sym (verify_up-suc up n (omega arith))) (
      upstream_answer up n (up_ramp up n) (from_right up 0 (up_ramp up n)) (up_ramp_lem up n)
        (omega arith) (from_right_lem up 0 (up_ramp up n) (omega arith)))
]

past_up : (up : ℕ → HopResult) (n r r' : ℕ) → HasUpRamp up n r → 0 < r → IsUpRamp up n r' → r ≤ r'
past_up up n r r' u p h = elim (Bool-cases (ltb r' r)) [
  | inl q ↦ elim u.ends [
    | inl e ↦ absurd (omega arith)
    | inr e ↦ absurd (e (h r (ground arith) u.within))
  ]
  | inr q ↦ ground arith
]

past_down :
    (down : ℕ → HopResult) (r l l' : ℕ) → HasDownRamp down r l → l < r → IsDownRamp down l' → l' ≤ l
past_down down r l l' d p h = elim (Bool-cases (ltb l l')) [
  | inl q ↦ elim d.ends [ inl e ↦ absurd (omega arith) | inr e ↦ absurd (e (h l (ground arith))) ]
  | inr q ↦ ground arith
]

meet : (r l r' l' : ℕ) → l + 1 < r → r ≤ r' → l' ≤ l → r' ≤ l' + 1 → ⊥
meet r l r' l' g a b m = omega arith

-- The ends of the two loops, more than one hop apart.
module _ (up down : ℕ → HopResult) (n r l : ℕ) (u : HasUpRamp up n r) (d : HasDownRamp down r l)
    (g : l + 1 < r) where
  no_valid : IsValidPath up down n → ⊥
  no_valid v =
      meet r l v.r v.l g (past_up up n r v.r u (omega arith) v.up_to)
        (past_down down r l v.l d (omega arith) v.down_to) v.meets

  bounds : (x : IsLeak up down n) → (x.c ≤ r) × (l ≤ x.k)
  bounds x =
      (on_ramp up n r x.c u.ramp x.within x.right_hop, on_down_ramp down l x.k d.ramp x.left_hop)

  gap_none : RightIs up (l + 1) r none → IsLeak up down n → ⊥
  gap_none f x = f x.c (lt_of l x.k x.c (bounds x).1 x.apart) (bounds x).0 x.right_hop

  gap_no_left :
      (rr : ℕ) → RightIs up (l + 1) r (some rr) → LeftIs down l rr false → IsLeak up down n → ⊥
  gap_no_left rr (a, b, e, m) f x = f x.k (bounds x).1 (lt_of' x.k x.c rr x.apart below) x.left_hop
    where
      below : x.c ≤ rr
      below = elim (Bool-cases (ltb rr x.c)) [
        | inl q ↦ absurd (m x.c (ground arith) (bounds x).0 x.right_hop)
        | inr q ↦ ground arith
      ]

  gap_answer :
      (found : Option ℕ)
      → RightIs up (l + 1) r found
      → DownstreamIs up down n (both_found down l found)
  gap_answer none f = (no_valid, gap_none f)
  gap_answer (some rr) (a, b, e, m) = elim (Bool-cases (from_left down l rr)) [
    | inl q ↦
        subst (DownstreamIs up down n) (sym (leak q))
          (of_left (subst (LeftIs down l rr) q (from_left_lem down l rr a)))
    | inr q ↦ subst (DownstreamIs up down n) (sym (no_leak q)) (
      no_valid,
      gap_no_left rr (a, b, e, m) (subst (LeftIs down l rr) q (from_left_lem down l rr a)),
    )
  ]
    where
      leak : from_left down l rr ≡ true → both_found down l (some rr) ≡ as_path_invalid
      leak q = ap (λ b. if b then as_path_invalid else as_path_unknown) q

      no_leak : from_left down l rr ≡ false → both_found down l (some rr) ≡ as_path_unknown
      no_leak q = ap (λ b. if b then as_path_invalid else as_path_unknown) q

      of_left : LeftIs down l rr true → IsLeak up down n
      of_left (k, x, y, z) = record {
        c = rr;
        k = k;
        within = le_trans rr r n b u.within;
        apart = y;
        right_hop = e;
        left_hop = z;
      }

verify_down-near :
    (up down : ℕ → HopResult) (n : ℕ)
    → leb (up_ramp up n - down_ramp down (up_ramp up n) 0 (up_ramp up n)) 1 ≡ true
    → verify_down up down n ≡ as_path_valid
unfolding verify_down
verify_down-near up down n e = ground arith

verify_down-gap :
    (up down : ℕ → HopResult) (n : ℕ)
    → leb (up_ramp up n - down_ramp down (up_ramp up n) 0 (up_ramp up n)) 1 ≡ false
    → verify_down up down n
      ≡ both_found down
          (down_ramp down (up_ramp up n) 0 (up_ramp up n))
          (from_right up (down_ramp down (up_ramp up n) 0 (up_ramp up n) + 1) (up_ramp up n))
unfolding verify_down
verify_down-gap up down n e = ground arith

-- With the hops given, the downstream answer is valid where an up-ramp and a down-ramp cover the path but
-- for one hop at most, invalid where two hops attested not to go to a provider oppose each other with an AS
-- between them, and unknown where neither holds.
pub verify_down_lem :
    (up down : ℕ → HopResult) (n : ℕ) → DownstreamIs up down n (verify_down up down n)
verify_down_lem up down n = elim (Bool-cases (leb (r - l) 1)) [
  | inl e ↦ subst (DownstreamIs up down n) (sym (verify_down-near up down n e)) (record {
    r = r;
    l = l;
    within = u.within;
    up_to = u.ramp;
    down_to = d.ramp;
    meets = ground arith;
  })
  | inr e ↦ subst (DownstreamIs up down n) (sym (verify_down-gap up down n e)) (
      gap_answer up down n r l u d (ground arith) (from_right up (l + 1) r)
        (from_right_lem up (l + 1) r (ground arith)))
]
  where
    r : ℕ
    r = up_ramp up n

    l : ℕ
    l = down_ramp down r 0 r

    u : HasUpRamp up n r
    u = up_ramp_lem up n

    d : HasDownRamp down r l
    d = down_ramp_lem down r 0 r (omega arith) (omega arith) (λ i h. absurd (omega arith))

abbrev pub AnswerIs : Store → List ℕ → Direction → VerificationResult → Type 0
AnswerIs store as_path upstream v = UpstreamIs (up_hop store as_path) (length as_path - 1) v
AnswerIs store as_path downstream v =
    DownstreamIs (up_hop store as_path) (down_hop store as_path) (length as_path - 1) v

one :
    (store : Store) (as_path : List ℕ)
    → leb (length as_path) 1 ≡ true
    → rtr_aspa_verify_as_path store as_path upstream ≡ as_path_valid
unfolding rtr_aspa_verify_as_path
one store as_path e = ground arith

many :
    (store : Store) (as_path : List ℕ)
    → leb (length as_path) 1 ≡ false
    → rtr_aspa_verify_as_path store as_path upstream
      ≡ verify_up (up_hop store as_path) (length as_path - 1)
unfolding rtr_aspa_verify_as_path
many store as_path e = ground arith

one_or_two :
    (store : Store) (as_path : List ℕ)
    → leb (length as_path) 2 ≡ true
    → rtr_aspa_verify_as_path store as_path downstream ≡ as_path_valid
unfolding rtr_aspa_verify_as_path
one_or_two store as_path e = ground arith

three :
    (store : Store) (as_path : List ℕ)
    → leb (length as_path) 2 ≡ false
    → rtr_aspa_verify_as_path store as_path downstream
      ≡ verify_down (up_hop store as_path) (down_hop store as_path) (length as_path - 1)
unfolding rtr_aspa_verify_as_path
three store as_path e = ground arith

-- For every path and store, and in both directions, what the answer means in terms of aspa_check_hop. In
-- the upstream direction a path is valid where all hops go from customer to provider, invalid where a hop
-- is attested not to, and unknown where neither holds. In the downstream direction it is valid where an
-- up-ramp and a down-ramp cover it but for one hop at most, invalid where two hops attested not to go to a
-- provider oppose each other with an AS between them, and unknown where neither holds.
pub rtr_aspa_verify_as_path_lem :
    (store : Store) (as_path : List ℕ) (direction : Direction)
    → AnswerIs store as_path direction (rtr_aspa_verify_as_path store as_path direction)
rtr_aspa_verify_as_path_lem store as_path upstream = elim (Bool-cases (leb (length as_path) 1)) [
  | inl e ↦
      subst (AnswerIs store as_path upstream) (sym (one store as_path e))
        (λ i a b. absurd (ground arith))
  | inr e ↦
      subst (AnswerIs store as_path upstream) (sym (many store as_path e))
        (verify_up_lem (up_hop store as_path) (length as_path - 1))
]
rtr_aspa_verify_as_path_lem store as_path downstream = elim (Bool-cases (leb (length as_path) 2)) [
  | inl e ↦ subst (AnswerIs store as_path downstream) (sym (one_or_two store as_path e)) (record {
    r = length as_path - 1;
    l = 0;
    within = omega arith;
    up_to = λ i a b. absurd (omega arith);
    down_to = λ i a. absurd (omega arith);
    meets = ground arith;
  })
  | inr e ↦
      subst (AnswerIs store as_path downstream) (sym (three store as_path e))
        (verify_down_lem (up_hop store as_path) (down_hop store as_path) (length as_path - 1))
]
