-- ===== src/Mesh.antt =====
-- internal/mesh/syncer.go: the pull of a peer's pages into the queue, the presence table and the pool.
pub mod Syncer
pub mod Steady
pub mod Chain
pub mod Cursors
pub mod Drained
pub mod Serving
pub mod Rising
pub mod Pulled
pub mod Carried
