-- ===== src/Attachment.antt =====
-- internal/attachment/relay.go: the live pass-through of attachment chunks.
pub mod Bitmap
pub mod Transit
pub mod Types
pub mod Push
pub mod Ends
pub mod Invariant
pub mod Verdicts
pub mod Pushes
pub mod Run
pub mod Caps
pub mod Ledger
pub mod Moves
pub mod Handed
pub mod Traces
pub mod Replays
pub mod Charges
pub mod Spent
pub mod Billing
pub mod Refusals
