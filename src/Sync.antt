-- ===== src/Sync.antt =====
-- crates/mnemo-core/src/sync.rs: clocks, replicated data types and digests for nodes that exchange
-- deltas and merge them in any order.
pub mod Hlc
pub mod Slots
pub mod VectorClock
pub mod GCounter
pub mod LwwRegister
pub mod LwwMap
pub mod OrSet
pub mod Merkle
