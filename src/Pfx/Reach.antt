-- ===== src/Pfx/Reach.antt =====
-- The tables that calls of rtr_pfx_table_init, rtr_pfx_table_add and rtr_pfx_table_remove lead to.
use rtrlib.Prelude.{ℕ, Bool}
use rtrlib.Pfx.Data.{PfxRecord}
use rtrlib.Pfx.Table.{PfxTable, rtr_pfx_table_init, rtr_pfx_table_add, rtr_pfx_table_remove}
use rtrlib.Pfx.Records.{IsTable, IsRecord}
use rtrlib.Pfx.Add.{rtr_pfx_table_add_lem}
use rtrlib.Pfx.Remove.{rtr_pfx_table_remove_lem}

-- One call, with any allocations failing. Only records whose prefix has no bit set behind its length are
-- added; any record may be removed.
pub data IsStep (t : PfxTable) : PfxTable → Type 0 where
  added : (mem : ℕ → Bool) (r : PfxRecord) → IsRecord r → IsStep t (rtr_pfx_table_add mem t r).table
  removed : (mem : ℕ → Bool) (r : PfxRecord) → IsStep t (rtr_pfx_table_remove mem t r).table

pub data IsReached : PfxTable → Type 0 where
  init : (update_fp : Bool) → IsReached (rtr_pfx_table_init update_fp)
  step : (t t' : PfxTable) → IsReached t → IsStep t t' → IsReached t'

step-IsTable : (t t' : PfxTable) → IsTable t → IsStep t t' → IsTable t'
step-IsTable t _ w (added mem r h) = (rtr_pfx_table_add_lem mem t r w h).well_formed
step-IsTable t _ w (removed mem r) = (rtr_pfx_table_remove_lem mem t r w).well_formed

-- Every table that calls of rtr_pfx_table_add and rtr_pfx_table_remove lead to from a new one, whatever
-- allocations fail, is well formed, if only records are added whose prefix has words of
-- 32 bits, a length within its width and no bit set behind it.
pub IsReached-IsTable : (t : PfxTable) → IsReached t → IsTable t
IsReached-IsTable _ (init update_fp) = record {
  tree4 = record { trie = tt; nodes = tt };
  tree6 = record { trie = tt; nodes = tt };
}
IsReached-IsTable t' (step t _ h s) = step-IsTable t t' (IsReached-IsTable t h) s
