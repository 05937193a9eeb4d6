-- ===== src/Map/Entries.antt =====
-- A predicate on every entry of a map, through its writes and reads.
use dee_relay.Base.{◌≡◌, some, [], ◌∷◌, arith, Key, All, if_pos, if_neg}
use dee_relay.Map.{Map, lookup, insert, remove}

abbrev pub Entries {ℓ} : {K V : Type ℓ} → (K → V → Type ℓ) → Map K V → Type ℓ
Entries P m = All (λ e. P e.0 e.1) m

module _ {K V : Type 0} ⦃k : Key K⦄ (P : K → V → Type 0) where
  pub Entries-insert :
      (key : K) (v : V) (m : Map K V) → P key v → Entries P m → Entries P (insert key v m)
  unfolding insert
  Entries-insert key v [] p ps = (p, tt)
  Entries-insert key v ((j, w) ∷ m) p ps = elim (k.dec j key) [
    | yes e ↦ rw (if_pos _ e) (p, ps.1)
    | no ne ↦ rw (if_neg _ ne) (ps.0, Entries-insert key v m p ps.1)
  ]

  pub Entries-remove : (key : K) (m : Map K V) → Entries P m → Entries P (remove key m)
  unfolding remove
  Entries-remove key [] ps = tt
  Entries-remove key ((j, w) ∷ m) ps = elim (k.dec j key) [
    | yes e ↦ rw (if_pos _ e) (Entries-remove key m ps.1)
    | no ne ↦ rw (if_neg _ ne) (ps.0, Entries-remove key m ps.1)
  ]

  pub Entries-lookup :
      (key : K) (m : Map K V) {v : V} → lookup key m ≡ some v → Entries P m → P key v
  unfolding lookup
  Entries-lookup key [] e ps = cc
  Entries-lookup key ((j, w) ∷ m) e ps = elim (k.dec j key) [
    | yes same ↦ ground arith
    | no ne ↦ Entries-lookup key m (ground arith) ps.1
  ]
