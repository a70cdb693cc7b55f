-- ===== src/Pfx/Tests.antt =====
-- The theorems on the table at small tables of IPv4 prefixes.
use rtrlib.Prelude.{◌↔◌, ◌≢◌, none, Elem, ◌∷◌, ℕ, ◌≡◌, ◌⊎◌, refl, Bool, true, arith, some, [], List}
use rtrlib.Ip.{v4, is_left_child, rtr_get_bits, equal_bits}
use rtrlib.Ip.Clear.{is_clear, is_clear_lem}
use rtrlib.Pfx.Data.{PfxRecord, success, duplicate_record, record_not_found}
use rtrlib.Pfx.Table.{PfxTable, rtr_pfx_table_init, rtr_pfx_table_add, rtr_pfx_table_remove}
use rtrlib.Pfx.Records.{IsTable, IsRecord, InTable, InTree}
use rtrlib.Pfx.Validate.{PfxvState, valid, verdict, rtr_pfx_table_validate_r}
use rtrlib.Pfx.Add.{HasAdd, rtr_pfx_table_add_lem, rtr_pfx_table_add_answer}
use rtrlib.Pfx.Remove.{HasRemove, rtr_pfx_table_remove_lem}
use rtrlib.Pfx.RemoveAnswer.{rtr_pfx_table_remove_answer}
use rtrlib.Pfx.Purge.{rtr_pfx_table_src_remove}
use rtrlib.Pfx.PurgeEnds.{rtr_pfx_table_src_remove_ends}
use rtrlib.Pfx.Reach.{IsReached, init, step, added, IsReached-IsTable}
use rtrlib.Pfx.Iterate.{
  pfx_table_for_each_rec, rtr_pfx_table_for_each_ipv4_record, Elem-for_each_rec,
}
use rtrlib.Pfx.Origin.{OriginIs, validate_correct}

abbrev all_succeed : ℕ → Bool
all_succeed i = true

-- 10.0.0.0/8 and 10.128.0.0/9, up to length 16, for AS 64496.
abbrev ten : PfxRecord
ten = record { asn = 64496; prefix = v4 167772160; min_len = 8; max_len = 16; socket = 1 }

abbrev half : PfxRecord
half = record { asn = 64496; prefix = v4 176160768; min_len = 9; max_len = 16; socket = 1 }

clear_half : is_clear (v4 176160768) 9 32 ≡ true
unfolding is_clear rtr_get_bits
clear_half = refl

clear_ten : is_clear (v4 167772160) 8 32 ≡ true
unfolding is_clear rtr_get_bits
clear_ten = refl

ten-IsRecord : IsRecord ten
ten-IsRecord = record {
  words = omega arith;
  fits = omega arith;
  canonical = is_clear_lem (v4 167772160) 8 32 clear_ten;
}

half-IsRecord : IsRecord half
half-IsRecord = record {
  words = omega arith;
  fits = omega arith;
  canonical = is_clear_lem (v4 176160768) 9 32 clear_half;
}

abbrev empty : PfxTable
empty = rtr_pfx_table_init true

abbrev one : PfxTable
one = (rtr_pfx_table_add all_succeed empty half).table

abbrev two : PfxTable
two = (rtr_pfx_table_add all_succeed one ten).table

empty-IsTable : IsTable empty
empty-IsTable = IsReached-IsTable empty (init true)

one-IsTable : IsTable one
one-IsTable = (rtr_pfx_table_add_lem all_succeed empty half empty-IsTable half-IsRecord).well_formed

two-IsReached : IsReached two
two-IsReached =
    step one two (step empty one (init true) (added all_succeed half half-IsRecord))
      (added all_succeed ten ten-IsRecord)

two-IsTable : IsTable two
two-IsTable = (rtr_pfx_table_add_lem all_succeed one ten one-IsTable ten-IsRecord).well_formed

IsReached-IsTable_example : IsTable two
IsReached-IsTable_example = IsReached-IsTable two two-IsReached

rtr_pfx_table_add_example : HasAdd one ten (rtr_pfx_table_add all_succeed one ten)
rtr_pfx_table_add_example = rtr_pfx_table_add_lem all_succeed one ten one-IsTable ten-IsRecord

rtr_pfx_table_add_answer_example :
    let o = rtr_pfx_table_add all_succeed two ten in
    (o.rtval ≡ duplicate_record) × InTable ten two ⊎ (o.rtval ≡ success) × (¬ InTable ten two)
rtr_pfx_table_add_answer_example =
    rtr_pfx_table_add_answer all_succeed two ten two-IsTable ten-IsRecord refl refl refl

rtr_pfx_table_remove_example : HasRemove two ten (rtr_pfx_table_remove all_succeed two ten)
rtr_pfx_table_remove_example = rtr_pfx_table_remove_lem all_succeed two ten two-IsTable

validate_correct_example :
    (s : PfxvState) × (reason : List PfxRecord) × (rtr_pfx_table_validate_r all_succeed two true
        64496
        (v4 176160768)
        16
      ≡ some (verdict s reason))
    × OriginIs two 64496 (v4 176160768) 16 s
validate_correct_example =
    validate_correct all_succeed two true 64496 (v4 176160768) 16 two-IsTable (omega arith)
      (λ i. refl)

-- 10.128.0.0/16 from AS 64496 is valid, with the record of 10.0.0.0/8 for a reason.
valid_route :
    rtr_pfx_table_validate_r all_succeed two true 64496 (v4 176160768) 16
    ≡ some (verdict valid (ten ∷ []))
unfolding rtr_pfx_table_validate_r rtr_pfx_table_add is_left_child rtr_get_bits equal_bits
valid_route = refl

Elem-for_each_rec_example :
    Elem half (pfx_table_for_each_rec two.ipv4_root) ↔ InTree half two.ipv4_root
Elem-for_each_rec_example = Elem-for_each_rec half two.ipv4_root

-- The left subtree comes first: 10.128.0.0/9 stands on the left of 10.0.0.0/8.
all_records : rtr_pfx_table_for_each_ipv4_record two ≡ half ∷ ten ∷ []
unfolding rtr_pfx_table_for_each_ipv4_record rtr_pfx_table_add is_left_child rtr_get_bits equal_bits
all_records = refl

rtr_pfx_table_remove_answer_example :
    let o = rtr_pfx_table_remove all_succeed two ten in
    (o.rtval ≡ success) × InTable ten two ⊎ (o.rtval ≡ record_not_found) × (¬ InTable ten two)
rtr_pfx_table_remove_answer_example =
    rtr_pfx_table_remove_answer all_succeed two ten two-IsTable refl

rtr_pfx_table_src_remove_ends_example : rtr_pfx_table_src_remove all_succeed two 1 ≢ none
rtr_pfx_table_src_remove_ends_example = rtr_pfx_table_src_remove_ends all_succeed two 1
