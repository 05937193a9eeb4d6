-- ===== src/Peer.antt =====
-- internal/peer/pool.go: the roster of peers that the relay replicates with.
pub mod Pool
pub mod Roster
pub mod Configured
pub mod Healths
