-- ===== src/Queue/Types.antt =====
-- internal/queue/store.go: the errors, the caps, and what a credential may lower.
use dee_relay.Base.{
  ◌≡◌, refl, ◌⊎◌, inl, inr, ℕ, ◌==◌, nat_key, ◌||◌, ltb, if◌then◌else◌, ℤ, pos, negsuc,
}
use dee_relay.Model.{Duration}

pub data Error : Type 0 where
  duplicate expired queue_full pair_quota_full slots_full : Error
  payload_too_large invalid not_owned : Error

pub data Result {ℓ} (A : Type ℓ) : Type ℓ where
  ok : A → Result A
  err : Error → Result A

pub Result-cases {ℓ} :
    {A : Type ℓ} (r : Result A) → ((a : A) × (r ≡ ok a)) ⊎ ((e : Error) × (r ≡ err e))
Result-cases (ok a) = inl (a, refl)
Result-cases (err e) = inr (e, refl)

pub record Grant : Type 0 where
  pub credential : ℕ
  pub slots : ℤ
  pub max_per_pair : ℤ
  pub retention : ℤ

-- `Grant{}`
abbrev pub no_grant : Grant
no_grant = record { credential = 0; slots = pos 0; max_per_pair = pos 0; retention = pos 0 }

unfoldable pub lower_of : ℕ → ℤ → ℕ
lower_of box (pos n) = if n == 0 || ltb box n then box else n
lower_of box (negsuc n) = box

unfoldable pub lower_of_duration : Duration → ℤ → Duration
lower_of_duration box (pos n) = if n == 0 || ltb box n then box else n
lower_of_duration box (negsuc n) = box

pub record StoreConfig : Type 0 where
  pub max_messages : ℤ
  pub max_acks : ℤ
  pub max_purges : ℤ
  pub max_per_pair : ℤ
  pub max_payload_bytes : ℤ
  pub max_ttl : ℤ
  pub default_ttl : ℤ

pub record Stats : Type 0 where
  pub messages : ℕ
  pub acks : ℕ
  pub purges : ℕ

pub record ImportResult : Type 0 where
  pub accepted_messages : ℕ
  pub duplicate_messages : ℕ
  pub accepted_acks : ℕ
  pub duplicate_acks : ℕ
  pub rejected : ℕ
