-- ===== src/Queue/Ops.antt =====
-- What the operations of the queue keep and promise.
pub mod Accept
pub mod Posted
pub mod Quotas
pub mod Acked
pub mod Sweeps
pub mod Sorting
pub mod Reads
pub mod Members
pub mod Fills
pub mod Pages
pub mod Lockstep
pub mod Imports
pub mod Bounds
pub mod Rounds
pub mod Purged
pub mod Pruned
