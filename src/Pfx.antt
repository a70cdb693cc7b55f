-- ===== src/Pfx.antt =====
-- pfx/trie/trie-pfx.c: the table of validated prefixes. The locks are left out: an operation is one step.
pub mod Data
pub mod Table
pub mod Validate
pub mod Records
pub mod Elems
pub mod Place
pub mod AddTree
pub mod Add
pub mod RemoveTree
pub mod Remove
pub mod Reach
pub mod Iterate
pub mod Purge
pub mod PurgeEnds
pub mod Members
pub mod RemoveAnswer
pub mod Origin
mod Tests
