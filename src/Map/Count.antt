-- ===== src/Map/Count.antt =====
-- How many entries of a map satisfy a test, and how a write changes the number.
use dee_relay.Base.{
  ℕ, ◌+◌, ◌≤◌, ◌≡◌, Bool, Option, none, some, [], ◌∷◌, arith, Key, length, if◌then◌else◌,
}
use dee_relay.Map.{Map, lookup, insert, remove, Distinct, remove_absent}

abbrev pub one_if : Bool → ℕ
one_if b = if b then 1 else 0

-- The weight of what a key holds.
abbrev pub held {ℓ} : {V : Type ℓ} → (V → Bool) → Option V → ℕ
held p none = 0
held p (some v) = one_if (p v)

abbrev pub is_held {ℓ} : {V : Type ℓ} → Option V → ℕ
is_held none = 0
is_held (some v) = 1

module _ {ℓ} {K V : Type ℓ} where
  unfoldable pub count : (V → Bool) → Map K V → ℕ
  count p [] = 0
  count p ((j, v) ∷ m) = one_if (p v) + count p m

  pub count-le-length : (p : V → Bool) (m : Map K V) → count p m ≤ length m
  unfolding count
  count-le-length p [] = omega arith
  count-le-length p ((j, v) ∷ m) = ground (arith, count-le-length p m)

module _ {ℓ} {K V : Type ℓ} ⦃k : Key K⦄ where
  pub count-insert :
      (p : V → Bool) (key : K) (v : V) (m : Map K V)
      → count p (insert key v m) + held p (lookup key m) ≡ count p m + one_if (p v)
  unfolding count lookup insert
  count-insert p key v [] = omega arith
  count-insert p key v ((j, w) ∷ m) = ground (arith, count-insert p key v m)

  pub count-remove :
      (p : V → Bool) (key : K) (m : Map K V)
      → Distinct m
      → count p (remove key m) + held p (lookup key m) ≡ count p m
  unfolding count lookup remove
  count-remove p key [] d = omega arith
  count-remove p key ((j, w) ∷ m) d = ground (arith, count-remove p key m, remove_absent key m)

  pub length-insert :
      (key : K) (v : V) (m : Map K V)
      → length (insert key v m) + is_held (lookup key m) ≡ length m + 1
  unfolding lookup insert
  length-insert key v [] = omega arith
  length-insert key v ((j, w) ∷ m) = ground (arith, length-insert key v m)

  pub length-remove :
      (key : K) (m : Map K V)
      → Distinct m
      → length (remove key m) + is_held (lookup key m) ≡ length m
  unfolding lookup remove
  length-remove key [] d = omega arith
  length-remove key ((j, w) ∷ m) d = ground (arith, length-remove key m, remove_absent key m)

  pub held-le-count : (p : V → Bool) (key : K) (m : Map K V) → held p (lookup key m) ≤ count p m
  unfolding count lookup
  held-le-count p key [] = omega arith
  held-le-count p key ((j, v) ∷ m) = ground (arith, held-le-count p key m)
