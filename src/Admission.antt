-- ===== src/Admission.antt =====
-- internal/admission and internal/httpapi/admission.go: which circles the relay carries mail for.
pub mod Types
pub mod Store
pub mod Proof
pub mod Sessions
pub mod Tokens
pub mod Linked
pub mod Lockstep
pub mod Opening
pub mod Forgetting
pub mod Gate
pub mod Upkeep
pub mod Run
pub mod Nonces
pub mod SingleUse
pub mod Outcomes
pub mod Redeemed
pub mod Redeems
pub mod Indexes
pub mod Codes
pub mod Retyped
pub mod Digits
pub mod Minted
