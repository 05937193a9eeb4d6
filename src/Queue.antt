-- ===== src/Queue.antt =====
-- internal/queue: the store-and-forward queue.
pub mod Auth
pub mod Types
pub mod Store
pub mod Post
pub mod Fetch
pub mod Acks
pub mod Purge
pub mod Replicate
pub mod Invariant
pub mod Effects
pub mod Ops
pub mod Run
