-- ===== src/Presence.antt =====
-- internal/presence/store.go: leases on who is online, their revocations, and the share of the table
-- that a caller may hold.
pub mod Table
pub mod Beats
pub mod Lists
pub mod Revoke
pub mod Invariant
pub mod Victims
pub mod Outcomes
pub mod Run
pub mod Drops
pub mod Leases
