-- ===== src/Pfx/Records.antt =====
-- Which records a table holds, and when a table is well formed.
use rtrlib.Prelude.{true, ◌<◌, ℕ, ◌≤◌, ◌≡◌, ◌≢◌, [], ◌∷◌, Elem}
use rtrlib.Ip.{IpVersion, ipv4, ipv6, ver, width, IsWords, is_left_child}
use rtrlib.Trie.Defs.{Entry}
use rtrlib.Trie.Invariant.{All, In, IsTrie}
use rtrlib.Trie.Exact.{IsFor}
use rtrlib.Pfx.Data.{NodeData, PfxRecord, elem_of}
use rtrlib.Pfx.Table.{PfxTable, PfxTrie, pfx_table_get_root}

abbrev pub IsNodup : NodeData → Type 0
IsNodup [] = Unit {0}
IsNodup (d ∷ ds) = (¬ Elem d ds) × IsNodup ds

-- A node holds at least one record, and none twice.
pub record IsData (e : Entry NodeData) : Type 0 where
  pub filled : e.payload ≢ []
  pub nodup : IsNodup e.payload

pub record IsPfxTree (v : IpVersion) (t : PfxTrie) : Type 0 where
  pub trie : IsTrie v 0 t
  pub nodes : All IsData t

pub record IsTable (t : PfxTable) : Type 0 where
  pub tree4 : IsPfxTree ipv4 t.ipv4_root
  pub tree6 : IsPfxTree ipv6 t.ipv6_root

-- The tree has a node for the record's prefix, with an element for it.
pub record InTree (r : PfxRecord) (t : PfxTrie) : Type 0 where
  pub entry : Entry NodeData
  pub entry_in : In entry t
  pub entry_for : IsFor r.prefix r.min_len entry
  pub elem : Elem (elem_of r) entry.payload

abbrev pub InTable : PfxRecord → PfxTable → Type 0
InTable r t = InTree r (pfx_table_get_root t (ver r.prefix))

-- The prefix of a record that a table may hold: no bit is set behind its length.
pub record IsRecord (r : PfxRecord) : Type 0 where
  pub words : IsWords r.prefix
  pub fits : r.min_len ≤ width (ver r.prefix)
  pub canonical :
      (i : ℕ) → r.min_len ≤ i → i < width (ver r.prefix) → is_left_child r.prefix i ≡ true

pub IsPfxTree-of : (t : PfxTable) (v : IpVersion) → IsTable t → IsPfxTree v (pfx_table_get_root t v)
IsPfxTree-of t ipv4 w = w.tree4
IsPfxTree-of t ipv6 w = w.tree6
