-- ===== src/Aspa/Table.antt =====
-- aspa/aspa.c: the ASPA table, its store with a node for each socket, and the operations on the store. No
-- table, node or array is NULL, and `socket` stands for a socket's address. The locks are left out: an
-- operation is one step. `mem i` says whether the copy of the providers of record `i` that a client is shown
-- can be allocated.
use rtrlib.Prelude.{
  ℕ, zero, suc, Bool, true, false, ◌==◌, if◌then◌else◌, Option, none, some, List, [], ◌∷◌, ◌++◌,
}
use rtrlib.Aspa.Hop.{AspaRecord}
use rtrlib.Aspa.Array.{AspaStatus, success, error, AspaArray}

pub data AspaOperation : Type 0 where
  add remove : AspaOperation

pub record AspaNode : Type 0 where
  pub socket : ℕ
  pub array : AspaArray

-- Whether `update_fp` is set, and the nodes in their order.
pub record AspaTable : Type 0 where
  pub has_callback : Bool
  pub store : List AspaNode

-- A call of `update_fp`.
pub record Told : Type 0 where
  pub rec : AspaRecord
  pub socket : ℕ
  pub operation : AspaOperation

unfoldable pub rtr_aspa_table_init : Bool → AspaTable
rtr_aspa_table_init has_callback = record { has_callback = has_callback; store = [] }

abbrev pub can_show : Bool → List ℕ → Bool
can_show ok [] = true
can_show ok (a ∷ rest) = ok

-- The calls made: one, or none where there is no callback or the providers cannot be copied.
unfoldable pub aspa_table_notify_clients :
    Bool → AspaTable → AspaRecord → ℕ → AspaOperation → List Told
aspa_table_notify_clients ok t r socket op =
    if t.has_callback
    then (if can_show ok r.provider_asns
        then record { rec = r; socket = socket; operation = op } ∷ []
        else [])
    else []

-- The loops that tell about all records of an array.
unfoldable pub notify_all :
    (ℕ → Bool) → AspaTable → List AspaRecord → ℕ → ℕ → AspaOperation → List Told
unfolding aspa_table_notify_clients
notify_all mem t [] i socket op = []
notify_all mem t (r ∷ rs) i socket op =
    aspa_table_notify_clients (mem i) t r socket op ++ notify_all mem t rs (suc i) socket op

-- `none` where the node cannot be allocated.
unfoldable pub aspa_store_create_node :
    Bool → List AspaNode → ℕ → AspaArray → Option (List AspaNode)
aspa_store_create_node ok store socket a =
    if ok then some (record { socket = socket; array = a } ∷ store) else none

-- The node at the index is taken out.
unfoldable pub aspa_store_remove_node : List AspaNode → ℕ → List AspaNode
aspa_store_remove_node [] i = []
aspa_store_remove_node (n ∷ ns) zero = ns
aspa_store_remove_node (n ∷ ns) (suc i) = n ∷ aspa_store_remove_node ns i

abbrev pub next_index : Option (ℕ × AspaNode) → Option (ℕ × AspaNode)
next_index none = none
next_index (some (i, n)) = some (suc i, n)

-- The first node of the socket, with its index.
unfoldable pub aspa_store_get_node : List AspaNode → ℕ → Option (ℕ × AspaNode)
aspa_store_get_node [] socket = none
aspa_store_get_node (n ∷ ns) socket = elim (n.socket == socket) [
  | true ↦ some (0, n)
  | false ↦ next_index (aspa_store_get_node ns socket)
]

-- `(*node)->aspa_array = a`.
unfoldable pub set_array : List AspaNode → ℕ → AspaArray → List AspaNode
set_array [] i a = []
set_array (n ∷ ns) zero a = record n { array = a } ∷ ns
set_array (n ∷ ns) (suc i) a = n ∷ set_array ns i a

-- What a call leaves: what it returns, the table, and what the clients are told.
pub record TableOutcome : Type 0 where
  pub status : AspaStatus
  pub table : AspaTable
  pub told : List Told

unfoldable pub aspa_table_remove_node : (ℕ → Bool) → AspaTable → ℕ → AspaNode → Bool → TableOutcome
unfolding aspa_store_remove_node notify_all
aspa_table_remove_node mem t i n notify = record {
  status = success;
  table = record t { store = aspa_store_remove_node t.store i };
  told = if notify then notify_all mem t n.array.records 0 n.socket remove else [];
}

unfoldable pub rtr_aspa_table_src_remove : (ℕ → Bool) → AspaTable → ℕ → Bool → TableOutcome
unfolding aspa_store_get_node aspa_table_remove_node
rtr_aspa_table_src_remove mem t socket notify = elim (aspa_store_get_node t.store socket) [
  | none ↦ record { status = success; table = t; told = [] }
  | some (i, n) ↦ aspa_table_remove_node mem t i n notify
]

-- The loop of rtr_aspa_table_free, which takes out the first node until there is none; `mem j` is for the
-- records of the j-th node.
unfoldable pub free_nodes : (ℕ → ℕ → Bool) → ℕ → Bool → List AspaNode → Bool → List Told
unfolding aspa_table_remove_node
free_nodes mem j has_callback [] notify = []
free_nodes mem j has_callback (n ∷ ns) notify =
    (aspa_table_remove_node (mem j) (record { has_callback = has_callback; store = n ∷ ns }) 0 n
      notify).told
    ++ free_nodes mem (suc j) has_callback ns notify

unfoldable pub rtr_aspa_table_free : (ℕ → ℕ → Bool) → AspaTable → Bool → TableOutcome
unfolding free_nodes
rtr_aspa_table_free mem t notify = record {
  status = success;
  table = record t { store = [] };
  told = free_nodes mem 0 t.has_callback t.store notify;
}

-- What aspa_table_src_replace leaves: both tables, and what the clients of each are told.
pub record Replaced : Type 0 where
  pub status : AspaStatus
  pub dst : AspaTable
  pub src : AspaTable
  pub told_dst : List Told
  pub told_src : List Told

abbrev pub told_if : Bool → List Told → List Told
told_if b told = if b then told else []

-- After the swap. `old` are the records that the node of the destination had.
abbrev pub replaced :
    (ℕ → Bool)
    → (ℕ → Bool)
    → (ℕ → Bool)
    → AspaTable
    → AspaTable
    → ℕ
    → AspaArray
    → List AspaRecord
    → Bool
    → Bool
    → List AspaNode
    → List AspaNode
    → Replaced
replaced m1 m2 m3 dst src socket a old notify_dst notify_src dst_store src_store = record {
  status = success;
  dst = record dst { store = dst_store };
  src = record src { store = src_store };
  told_dst =
      told_if notify_dst
        (notify_all m2 dst old 0 socket remove ++ notify_all m3 dst a.records 0 socket add);
  told_src = told_if notify_src (notify_all m1 src a.records 0 socket remove);
}

-- The two tables are different ones. `ok` is for a new node, and each loop over records has its own `mem`.
unfoldable pub aspa_table_src_replace :
    Bool → (ℕ → Bool) → (ℕ → Bool) → (ℕ → Bool) → AspaTable → AspaTable → ℕ → Bool → Bool → Replaced
unfolding aspa_store_get_node aspa_store_create_node aspa_store_remove_node set_array notify_all
aspa_table_src_replace ok m1 m2 m3 dst src socket notify_dst notify_src =
    elim (aspa_store_get_node src.store socket) [
      | none ↦ record { status = error; dst = dst; src = src; told_dst = []; told_src = [] }
      | some (i, n) ↦ elim (aspa_store_get_node dst.store socket) [
        | some (j, d) ↦
            replaced m1 m2 m3 dst src socket n.array d.array.records notify_dst notify_src
              (set_array dst.store j n.array) (aspa_store_remove_node src.store i)
        | none ↦ elim (aspa_store_create_node ok dst.store socket n.array) [
          | none ↦ record { status = error; dst = dst; src = src; told_dst = []; told_src = [] }
          | some store ↦
              replaced m1 m2 m3 dst src socket n.array [] notify_dst notify_src store
                (aspa_store_remove_node src.store i)
        ]
      ]
    ]
