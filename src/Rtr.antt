-- ===== src/Rtr.antt =====
-- rtr/: the client side of the RPKI to router protocol, from rtr/packets.c and rtr/rtr.c.
pub mod Socket
pub mod Interval
pub mod Bytes
pub mod Pdu
pub mod Receive
pub mod Handle
pub mod Update
pub mod Undo
pub mod Restore
pub mod Atomic
pub mod AspaUpdate
pub mod Released
mod Tests
