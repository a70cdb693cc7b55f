-- ===== src/Aspa.antt =====
-- aspa/: autonomous system provider authorisation.
pub mod Ramps
pub mod Hop
pub mod Verify
pub mod Correct
pub mod Attested
pub mod Array
pub mod Table
pub mod Update
pub mod Swap
pub mod Held
pub mod Sources
pub mod Discard
pub mod Sorted
pub mod Customers
pub mod Merge
pub mod Rounds
pub mod OneByOne
pub mod NoError
pub mod Memory
pub mod Intact
mod Tests
mod TableTests
