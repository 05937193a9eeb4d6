-- ===== src/Prekey.antt =====
-- internal/prekey/store.go: the pools of one-time prekeys, from which each sender claims its own.
pub mod Pools
pub mod Publish
pub mod Claim
pub mod Every
pub mod Fill
pub mod Caps
pub mod Kinds
pub mod Run
pub mod Once
pub mod Bucket
pub mod Rate
