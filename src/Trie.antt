-- ===== src/Trie.antt =====
-- pfx/trie/trie.c: the prefix tree. A `struct trie_node *` is a tree, NULL is `null`; the parent
-- pointer is the path that a walk has come down, and `void *data` is a payload of any type. Node
-- identity shows only in which place of the tree a node stands.
pub mod Defs
pub mod Invariant
pub mod Insert
pub mod Lookup
pub mod Exact
pub mod Plug
pub mod Remove
pub mod RemoveSpec
pub mod Find
mod Tests
