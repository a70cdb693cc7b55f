-- ===== src/Aspa/Ramps.antt =====
-- The loops of aspa/aspa_verification.c along an AS path. `up i` is the result of the hop from index `i` to
-- index `i - 1` of the path, and `down i` that of the hop from `i` to `i + 1`.
use native.Mathlib.Decide.{ℕ_discrete}
use rtrlib.Prelude.{
  subst, Bool-cases, sym, ℕ, zero, suc, ◌+◌, ◌≤◌, ◌<◌, ◌≡◌, ◌≢◌, ◌⊎◌, inl, inr, refl, Bool, true,
  false, ◌&&◌, ltb, if◌then◌else◌, Option, none, some, arith,
}

pub data HopResult : Type 0 where
  no_attestation not_provider_plus provider_plus : HopResult

abbrev pub is_provider : HopResult → Bool
is_provider provider_plus = true
is_provider not_provider_plus = false
is_provider no_attestation = false

abbrev pub is_not_provider : HopResult → Bool
is_not_provider not_provider_plus = true
is_not_provider provider_plus = false
is_not_provider no_attestation = false

-- `while (r > 0 && up r == P+) r--`.
unfoldable pub up_ramp : (ℕ → HopResult) → ℕ → ℕ
up_ramp up zero = zero
up_ramp up (suc r) = if is_provider (up (suc r)) then up_ramp up r else suc r

-- `while (l < r && down l == P+) l++`, with fuel for the rounds that are left.
unfoldable pub down_ramp : (ℕ → HopResult) → ℕ → ℕ → ℕ → ℕ
down_ramp down zero l r = l
down_ramp down (suc fuel) l r =
    if ltb l r && is_provider (down l) then down_ramp down fuel (l + 1) r else l

-- `while (rr > lo)`: the first hop nP+ from index `rr` down.
unfoldable pub find_right : (ℕ → HopResult) → ℕ → ℕ → Option ℕ
find_right up lo zero = none
find_right up lo (suc rr) =
    if ltb lo (suc rr)
    then (if is_not_provider (up (suc rr)) then some (suc rr) else find_right up lo rr)
    else none

-- `while (ll + 1 < rr)`: whether there is a hop nP+ from index `ll` up, with fuel for the rounds left.
unfoldable pub find_left : (ℕ → HopResult) → ℕ → ℕ → ℕ → Bool
find_left down zero ll rr = false
find_left down (suc fuel) ll rr =
    if ltb (ll + 1) rr
    then (if is_not_provider (down ll) then true else find_left down fuel (ll + 1) rr)
    else false

-- All hops from index `n` up to index `r` go from customer to provider.
abbrev pub IsUpRamp : (ℕ → HopResult) → ℕ → ℕ → Type 0
IsUpRamp up n r = (i : ℕ) → r < i → i ≤ n → up i ≡ provider_plus

-- All hops from index 0 to index `l`, seen from the left, go from customer to provider.
abbrev pub IsDownRamp : (ℕ → HopResult) → ℕ → Type 0
IsDownRamp down l = (i : ℕ) → i < l → down i ≡ provider_plus

pub record HasUpRamp (up : ℕ → HopResult) (n r : ℕ) : Type 0 where
  pub within : r ≤ n
  pub ramp : IsUpRamp up n r
  pub ends : (r ≡ 0) ⊎ (up r ≢ provider_plus)

is_provider_lem : (h : HopResult) → is_provider h ≡ true → h ≡ provider_plus
is_provider_lem provider_plus e = refl
is_provider_lem not_provider_plus e = absurd (ground arith)
is_provider_lem no_attestation e = absurd (ground arith)

not_provider_lem : (h : HopResult) → is_provider h ≡ false → h ≢ provider_plus
not_provider_lem h e q = ground arith

pub is_not_provider_lem : (h : HopResult) → is_not_provider h ≡ true → h ≡ not_provider_plus
is_not_provider_lem not_provider_plus e = refl
is_not_provider_lem provider_plus e = absurd (ground arith)
is_not_provider_lem no_attestation e = absurd (ground arith)

pub not_not_provider_lem : (h : HopResult) → is_not_provider h ≡ false → h ≢ not_provider_plus
not_not_provider_lem h e q = ground arith

up_ramp-true :
    (up : ℕ → HopResult) (r : ℕ)
    → is_provider (up (suc r)) ≡ true
    → up_ramp up (suc r) ≡ up_ramp up r
unfolding up_ramp
up_ramp-true up r e = ground arith

up_ramp-false :
    (up : ℕ → HopResult) (r : ℕ) → is_provider (up (suc r)) ≡ false → up_ramp up (suc r) ≡ suc r
unfolding up_ramp
up_ramp-false up r e = ground arith

pub le_trans : (a b c : ℕ) → a ≤ b → b ≤ c → a ≤ c
le_trans a b c h g = omega arith

le_suc : (a b : ℕ) → a ≤ b → a ≤ suc b
le_suc a b h = omega arith

-- The loop ends at the end of the longest up-ramp.
pub up_ramp_lem : (up : ℕ → HopResult) (n : ℕ) → HasUpRamp up n (up_ramp up n)
unfolding up_ramp
up_ramp_lem up zero = record {
  within = omega arith;
  ramp = λ i a b. absurd (omega arith);
  ends = inl refl;
}
up_ramp_lem up (suc n) = elim (Bool-cases (is_provider (up (suc n)))) [
  | inl e ↦ subst (HasUpRamp up (suc n)) (sym (up_ramp-true up n e)) (record {
    within = le_suc (up_ramp up n) n (up_ramp_lem up n).within;
    ramp = λ i a b. elim (ℕ_discrete i (suc n)) [
      | yes q ↦ subst (λ j. up j ≡ provider_plus) (sym q) (is_provider_lem (up (suc n)) e)
      | no q ↦ (up_ramp_lem up n).ramp i a (omega arith)
    ];
    ends = (up_ramp_lem up n).ends;
  })
  | inr e ↦ subst (HasUpRamp up (suc n)) (sym (up_ramp-false up n e)) (record {
    within = omega arith;
    ramp = λ i a b. absurd (omega arith);
    ends = inr (not_provider_lem (up (suc n)) e);
  })
]

pub record HasDownRamp (down : ℕ → HopResult) (r l : ℕ) : Type 0 where
  pub within : l ≤ r
  pub ramp : IsDownRamp down l
  pub ends : (l ≡ r) ⊎ (down l ≢ provider_plus)

down_ramp-true :
    (down : ℕ → HopResult) (fuel l r : ℕ)
    → (ltb l r && is_provider (down l)) ≡ true
    → down_ramp down (suc fuel) l r ≡ down_ramp down fuel (l + 1) r
unfolding down_ramp
down_ramp-true down fuel l r e = ground arith

down_ramp-false :
    (down : ℕ → HopResult) (fuel l r : ℕ)
    → (ltb l r && is_provider (down l)) ≡ false
    → down_ramp down (suc fuel) l r ≡ l
unfolding down_ramp
down_ramp-false down fuel l r e = ground arith

ramp-suc :
    (down : ℕ → HopResult) (l : ℕ)
    → IsDownRamp down l
    → down l ≡ provider_plus
    → IsDownRamp down (l + 1)
ramp-suc down l d e i h = elim (ℕ_discrete i l) [
  | yes q ↦ subst (λ j. down j ≡ provider_plus) (sym q) e
  | no q ↦ d i (omega arith)
]

stops :
    (down : ℕ → HopResult) (l r : ℕ)
    → l ≤ r
    → (ltb l r && is_provider (down l)) ≡ false
    → (l ≡ r) ⊎ (down l ≢ provider_plus)
stops down l r h e = elim (Bool-cases (is_provider (down l))) [
  | inl q ↦ inl (ground arith)
  | inr q ↦ inr (not_provider_lem (down l) q)
]

-- With fuel for all the hops the loop ends at the end of the longest down-ramp in front of index `r`.
pub down_ramp_lem :
    (down : ℕ → HopResult) (fuel l r : ℕ)
    → l ≤ r
    → r ≤ fuel + l
    → IsDownRamp down l
    → HasDownRamp down r (down_ramp down fuel l r)
unfolding down_ramp
down_ramp_lem down zero l r h f d = record { within = h; ramp = d; ends = inl (omega arith) }
down_ramp_lem down (suc fuel) l r h f d = elim (Bool-cases (ltb l r && is_provider (down l))) [
  | inl e ↦ subst (HasDownRamp down r) (sym (down_ramp-true down fuel l r e)) (
      down_ramp_lem down fuel (l + 1) r (ground arith) (omega arith)
        (ramp-suc down l d (is_provider_lem (down l) (ground arith))))
  | inr e ↦
      subst (HasDownRamp down r) (sym (down_ramp-false down fuel l r e))
        (record { within = h; ramp = d; ends = stops down l r h e })
]

find_right-false :
    (up : ℕ → HopResult) (lo rr : ℕ) → ltb lo (suc rr) ≡ false → find_right up lo (suc rr) ≡ none
unfolding find_right
find_right-false up lo rr e = ground arith

find_right-found :
    (up : ℕ → HopResult) (lo rr : ℕ)
    → ltb lo (suc rr) ≡ true
    → is_not_provider (up (suc rr)) ≡ true
    → find_right up lo (suc rr) ≡ some (suc rr)
unfolding find_right
find_right-found up lo rr e f = ground arith

find_right-next :
    (up : ℕ → HopResult) (lo rr : ℕ)
    → ltb lo (suc rr) ≡ true
    → is_not_provider (up (suc rr)) ≡ false
    → find_right up lo (suc rr) ≡ find_right up lo rr
unfolding find_right
find_right-next up lo rr e f = ground arith

-- What the search from the right finds.
abbrev pub RightIs : (ℕ → HopResult) → ℕ → ℕ → Option ℕ → Type 0
RightIs up lo rr none = (c : ℕ) → lo < c → c ≤ rr → up c ≢ not_provider_plus
RightIs up lo rr (some c) =
    (lo < c)
    × (c ≤ rr)
    × (up c ≡ not_provider_plus)
    × ((c' : ℕ) → c < c' → c' ≤ rr → up c' ≢ not_provider_plus)

RightIs-suc :
    (up : ℕ → HopResult) (lo rr : ℕ) (found : Option ℕ)
    → up (suc rr) ≢ not_provider_plus
    → RightIs up lo rr found
    → RightIs up lo (suc rr) found
RightIs-suc up lo rr none n h = λ c a b. elim (ℕ_discrete c (suc rr)) [
  | yes q ↦ subst (λ j. up j ≢ not_provider_plus) (sym q) n
  | no q ↦ h c a (omega arith)
]
RightIs-suc up lo rr (some c) n (a, b, e, h) = (
  a,
  omega arith,
  e,
  λ c' x y. elim (ℕ_discrete c' (suc rr)) [
    | yes q ↦ subst (λ j. up j ≢ not_provider_plus) (sym q) n
    | no q ↦ h c' x (omega arith)
  ],
)

-- The search finds the hop nP+ that is nearest to the right end, where there is one above `lo`.
pub find_right_lem : (up : ℕ → HopResult) (lo rr : ℕ) → RightIs up lo rr (find_right up lo rr)
unfolding find_right
find_right_lem up lo zero = λ c a b e. omega arith
find_right_lem up lo (suc rr) = elim (Bool-cases (ltb lo (suc rr))) [
  | inr e ↦
      subst (RightIs up lo (suc rr)) (sym (find_right-false up lo rr e)) (λ c a b q. ground arith)
  | inl e ↦ elim (Bool-cases (is_not_provider (up (suc rr)))) [
    | inl f ↦
        subst (RightIs up lo (suc rr)) (sym (find_right-found up lo rr e f))
          (ground arith, omega arith, is_not_provider_lem (up (suc rr)) f, λ c a b q. omega arith)
    | inr f ↦ subst (RightIs up lo (suc rr)) (sym (find_right-next up lo rr e f)) (
        RightIs-suc up lo rr (find_right up lo rr) (not_not_provider_lem (up (suc rr)) f)
          (find_right_lem up lo rr))
  ]
]

find_left-false :
    (down : ℕ → HopResult) (fuel ll rr : ℕ)
    → ltb (ll + 1) rr ≡ false
    → find_left down (suc fuel) ll rr ≡ false
unfolding find_left
find_left-false down fuel ll rr e = ground arith

find_left-found :
    (down : ℕ → HopResult) (fuel ll rr : ℕ)
    → ltb (ll + 1) rr ≡ true
    → is_not_provider (down ll) ≡ true
    → find_left down (suc fuel) ll rr ≡ true
unfolding find_left
find_left-found down fuel ll rr e f = ground arith

find_left-next :
    (down : ℕ → HopResult) (fuel ll rr : ℕ)
    → ltb (ll + 1) rr ≡ true
    → is_not_provider (down ll) ≡ false
    → find_left down (suc fuel) ll rr ≡ find_left down fuel (ll + 1) rr
unfolding find_left
find_left-next down fuel ll rr e f = ground arith

abbrev pub LeftIs : (ℕ → HopResult) → ℕ → ℕ → Bool → Type 0
LeftIs down ll rr true = (k : ℕ) × (ll ≤ k) × (k + 1 < rr) × (down k ≡ not_provider_plus)
LeftIs down ll rr false = (k : ℕ) → ll ≤ k → k + 1 < rr → down k ≢ not_provider_plus

pub LeftIs-suc :
    (down : ℕ → HopResult) (ll rr : ℕ) (found : Bool)
    → down ll ≢ not_provider_plus
    → LeftIs down (ll + 1) rr found
    → LeftIs down ll rr found
LeftIs-suc down ll rr true n (k, a, b, e) = (k, omega arith, b, e)
LeftIs-suc down ll rr false n h = λ k a b. elim (ℕ_discrete k ll) [
  | yes q ↦ subst (λ j. down j ≢ not_provider_plus) (sym q) n
  | no q ↦ h k (omega arith) b
]

-- With fuel for all the hops the search says whether there is a hop nP+ from index `ll` on that leaves an
-- AS in front of index `rr`.
pub find_left_lem :
    (down : ℕ → HopResult) (fuel ll rr : ℕ)
    → rr ≤ fuel + ll + 1
    → LeftIs down ll rr (find_left down fuel ll rr)
unfolding find_left
find_left_lem down zero ll rr h = λ k a b e. omega arith
find_left_lem down (suc fuel) ll rr h = elim (Bool-cases (ltb (ll + 1) rr)) [
  | inr e ↦
      subst (LeftIs down ll rr) (sym (find_left-false down fuel ll rr e)) (λ k a b q. ground arith)
  | inl e ↦ elim (Bool-cases (is_not_provider (down ll))) [
    | inl f ↦
        subst (LeftIs down ll rr) (sym (find_left-found down fuel ll rr e f))
          (ll, omega arith, ground arith, is_not_provider_lem (down ll) f)
    | inr f ↦ subst (LeftIs down ll rr) (sym (find_left-next down fuel ll rr e f)) (
        LeftIs-suc down ll rr (find_left down fuel (ll + 1) rr) (not_not_provider_lem (down ll) f)
          (find_left_lem down fuel (ll + 1) rr (omega arith)))
  ]
]
