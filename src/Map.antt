-- ===== src/Map.antt =====
-- The language's `map[K]V` as a list of entries, and the laws of its reads and writes.
-- `range` visits the entries in the order of the list.
pub mod Count
pub mod Counter
pub mod Domain
pub mod Entries
pub mod Keep
use dee_relay.Base.{
  ℕ, suc, ◌+◌, ◌≤◌, ◌≡◌, refl, ap, Bool, true, false, ite, if_pos, if_neg, Option, none, some, List,
  [], ◌∷◌, arith, Key, length, Option-cases, ◌⊎◌, inl, inr,
}

abbrev pub Map {ℓ} : Type ℓ → Type ℓ → Type ℓ
Map K V = List (K × V)

module _ {ℓ} {K V : Type ℓ} ⦃k : Key K⦄ where
  -- `v, ok := m[key]`
  unfoldable pub lookup : K → Map K V → Option V
  lookup key [] = none
  lookup key ((j, v) ∷ m) = ite (k.dec j key) (some v) (lookup key m)

  -- `_, ok := m[key]`
  unfoldable pub has : K → Map K V → Bool
  has key m = elim (lookup key m) [ none ↦ false | some v ↦ true ]

  -- `m[key]` at the zero value `d`
  unfoldable pub get_or : V → K → Map K V → V
  get_or d key m = elim (lookup key m) [ none ↦ d | some v ↦ v ]

  -- `m[key] = v`
  unfoldable pub insert : K → V → Map K V → Map K V
  insert key v [] = (key, v) ∷ []
  insert key v ((j, w) ∷ m) = ite (k.dec j key) ((key, v) ∷ m) ((j, w) ∷ insert key v m)

  -- `delete(m, key)`
  unfoldable pub remove : K → Map K V → Map K V
  remove key [] = []
  remove key ((j, w) ∷ m) = ite (k.dec j key) (remove key m) ((j, w) ∷ remove key m)

  -- No key stands twice.
  abbrev pub Distinct : Map K V → Type ℓ
  Distinct [] = Unit
  Distinct ((j, v) ∷ m) = (lookup j m ≡ none) × Distinct m

  pub lookup-insert :
      (key j : K) (v : V) (m : Map K V)
      → lookup j (insert key v m) ≡ ite (k.dec key j) (some v) (lookup j m)
  unfolding lookup insert
  lookup-insert key j v [] = refl
  lookup-insert key j v ((i, w) ∷ m) = ground (arith, lookup-insert key j v m)

  pub lookup-insert_same : (key : K) (v : V) (m : Map K V) → lookup key (insert key v m) ≡ some v
  lookup-insert_same key v m = ground (arith, lookup-insert key key v m)

  pub lookup-remove :
      (key j : K) (m : Map K V) → lookup j (remove key m) ≡ ite (k.dec key j) none (lookup j m)
  unfolding lookup remove
  lookup-remove key j [] = ground arith
  lookup-remove key j ((i, w) ∷ m) = ground (arith, lookup-remove key j m)

  pub remove_absent : (key : K) (m : Map K V) → lookup key m ≡ none → remove key m ≡ m
  unfolding lookup remove
  remove_absent key [] h = refl
  remove_absent key ((i, w) ∷ m) h = ground (arith, remove_absent key m)

  pub Distinct-insert : (key : K) (v : V) (m : Map K V) → Distinct m → Distinct (insert key v m)
  unfolding lookup insert
  Distinct-insert key v [] d = (refl, tt)
  Distinct-insert key v ((i, w) ∷ m) d =
      ground (arith, Distinct-insert key v m, lookup-insert key i v m)

  pub Distinct-remove : (key : K) (m : Map K V) → Distinct m → Distinct (remove key m)
  unfolding lookup remove
  Distinct-remove key [] d = tt
  Distinct-remove key ((i, w) ∷ m) d = ground (arith, Distinct-remove key m, lookup-remove key i m)
