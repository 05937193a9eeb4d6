-- ===== src/Admission/Types.antt =====
-- internal/admission/credential.go and store.go: the credential, its terms, and the errors of the gate.
use dee_relay.Base.{ℕ, String, ℤ}
use dee_relay.Model.{Time}

pub data Error : Type 0 where
  unknown_credential expired_credential bad_proof gate_busy no_session : Error

-- A value or the error that came in its place.
pub data Result {ℓ} (A : Type ℓ) : Type ℓ where
  ok : A → Result A
  err : Error → Result A

pub record Terms : Type 0 where
  pub tier : String
  pub not_after : Time
  pub queue_slots : ℤ
  pub retention_window : ℕ
  pub attachment_bytes : ℤ
  pub concurrent_transfers : ℤ
  pub transit_bytes_per_day : ℤ
  pub max_per_pair : ℤ

pub record Credential : Type 0 where
  pub id : String
  pub terms : Terms

-- What an admitted request is charged to and bounded by.
pub record Grant : Type 0 where
  pub index : ℕ
  pub id : String
  pub terms : Terms
