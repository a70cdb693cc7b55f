-- ===== src/Lib.antt =====
-- RTRlib: validation of BGP routes with data of the RPKI. An application keeps a prefix table
-- (rtr_pfx_table_*) with the route origins that caches attest, and an ASPA table with the providers of
-- autonomous systems; it asks the first for the state of a route's origin, and the second for that of its AS
-- path. A thread for each connection (rtrlib/rtr) receives PDUs from a cache and puts their records into the
-- tables by the same operations.
--
-- - Prelude: Boolean tests on numbers, lists, and the library names that all modules use.
-- - Ip: rtrlib/lib/ip.c, ipv4.c, ipv6.c and rtr_get_bits of utils.c. An address is one word or four. Ip/Bits,
--   Ip/Words and Ip/AddrBits go down to the bits of a word, Ip/Laws says what the trie needs of them, and
--   Ip/Clear tests that no bit is set behind a length.
-- - Trie: rtrlib/pfx/trie/trie.c. Trie/Defs has the operations by the names of the source, Trie/Invariant
--   the order of the tree (a node's prefix is no longer than those below it, and bit `lvl` of an entry says
--   on which side of a node of level `lvl` it stands), and Trie/Insert, Lookup, Exact, Plug, Find, Remove and
--   RemoveSpec the proofs for one operation each. A pointer to a node is a tree, and the parent pointers are
--   the path from the root.
-- - Pfx: rtrlib/pfx/trie/trie-pfx.c, over Trie with the list of a node's elements as its data. Pfx/Data and
--   Pfx/Table have the operations, Pfx/Validate the origin validation, Pfx/Records the invariant and the
--   records of a table, Pfx/Iterate the walk over all records, Pfx/Purge the removal by socket, and Pfx/Add,
--   Remove, PurgeEnds, RemoveAnswer, Members, Reach and Origin the proofs.
-- - Aspa: rtrlib/aspa. Aspa/Ramps has the loops along a path of aspa_verification.c, Aspa/Hop the look-up of
--   one hop, Aspa/Verify the two directions, and Aspa/Correct and Attested the proofs. Aspa/Array is
--   aspa_array.c; Aspa/Table, Update and Swap are aspa.c (the store, the computation of a new array, and its
--   swapping in), with the proofs in Aspa/Held, Sources and Discard, and those on the new array in
--   Aspa/Sorted, Customers, Merge, Rounds, OneByOne and NoError, and on its memory in Aspa/Memory and Intact.
-- - Rtr: rtrlib/rtr/packets.c, with rtr_init of rtr.c. Rtr/Socket has the socket and its states, Rtr/Interval
--   the intervals, Rtr/Bytes and Pdu the PDUs and their sizes, Rtr/Receive the checks of rtr_receive_pdu,
--   Rtr/Handle the reactions to single PDUs, and Rtr/Update the change of the prefix table by stored PDUs
--   with its undoing, on which Rtr/Undo, Restore and Atomic have the proofs. Rtr/AspaUpdate is the change of the
--   ASPA table, with a proof in Rtr/Released.
--
-- Every allocation of an operation may fail: an argument `mem` says which ones succeed. Locks are left
-- out, since each operation holds the lock of its table for as long as it reads or changes it; `update_lock`
-- of the ASPA table, which is held from computing an update to its end, is a field of the outcomes in
-- Aspa/Swap. qsort of the C library is an argument.
-- Assertions are compiled out. A pointer to an rtr_socket is a number. The loop of
-- rtr_pfx_table_validate_r has the height of the tree for fuel, which a walk down cannot use up; the
-- loops along an AS path have its length, and the two searches the length of their arrays;
-- pfx_table_remove_id has one more than the number of nodes, one of which each call goes down by or takes
-- out. Words are numbers below 2 ^ 32, which the theorems that need it state.
--
-- An ASPA array counts the bytes of its allocation, of which a record takes 24 with pointers of 64 bits, and says
-- whether a record has been written behind them or cut off (`overrun`): the code counts more records than it has
-- bytes for. What it does from there on is not defined; computing an update (Aspa/Swap) says so, and so it does
-- of the fields that an early return leaves as they were allocated. Applying or discarding such an update is
-- `none`. An update of at most 169 operations whose reservation succeeds stays within its memory: the array for
-- replaced records has 4072 bytes when it has been made larger.
--
-- Not modelled: copies and differences of prefix tables; which memory is freed, and what still refers to it; the SPKI table and BGPsec; parsing and printing of addresses; the order in which PDUs are
-- received and stored, the state machine of a connection and the connection manager; transports and logging;
-- the tools; and the copies of tommyds and mustach.
mod Prelude
pub mod Ip
pub mod Trie
pub mod Pfx
pub mod Aspa
pub mod Rtr
