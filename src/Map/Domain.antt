-- ===== src/Map/Domain.antt =====
-- A map whose keys all come from other maps is no longer than those.
use dee_relay.Base.{◌+◌, ◌≤◌, ◌≡◌, some, [], ◌∷◌, arith, Key, length, if◌then◌else◌, ◌==◌, ite}
use dee_relay.Map.{Map, lookup, remove, Distinct, lookup-remove, Distinct-remove}
use dee_relay.Map.Count.{count, is_held, length-remove}

module _ {ℓ} {K : Type ℓ} ⦃k : Key K⦄ where
  pub held_head : {U : Type ℓ} (key : K) (u : U) (c : Map K U) → lookup key ((key, u) ∷ c) ≡ some u
  unfolding lookup
  held_head key u c = ground arith

  pub held_tail :
      {U : Type ℓ} (key j : K) (u : U) (c : Map K U)
      → is_held (lookup j c) ≤ is_held (lookup j ((key, u) ∷ c))
  unfolding lookup
  held_tail key j u c = ground arith

module _ {ℓ} {K : Type ℓ} ⦃k : Key K⦄ {J V : Type ℓ} (f : V → K) where
  -- The entries of another class.
  unfoldable pub without : K → Map J V → Map J V
  without key [] = []
  without key ((j, v) ∷ m) = let rest = without key m in if f v == key then rest else (j, v) ∷ rest

  length-without :
      (key : K) (m : Map J V) → length (without key m) + count (λ v. f v == key) m ≡ length m
  unfolding without count
  length-without key [] = omega arith
  length-without key ((j, v) ∷ m) = ground (arith, length-without key m)

  count-without :
      (key other : K) (m : Map J V)
      → count (λ v. f v == other) (without key m)
        ≡ ite (k.dec key other) 0 (count (λ v. f v == other) m)
  unfolding without count
  count-without key other [] = ground arith
  count-without key other ((j, v) ∷ m) = ground (arith, count-without key other m)

  pub domain_le :
      {U W : Type ℓ} (c : Map K U) (n : Map K W) (m : Map J V)
      → Distinct c
      → Distinct n
      → ((key : K) → is_held (lookup key c) ≤ is_held (lookup key n) + count (λ v. f v == key) m)
      → length c ≤ length n + length m
  domain_le [] n m dc dn h = omega arith
  domain_le ((key, u) ∷ c) n m dc dn h = omega (
    arith,
    domain_le c (remove key n) (without key m) dc.1 (Distinct-remove key n dn) smaller,
    length-remove key n dn,
    length-without key m,
    here,
  )
    where
      here : 1 ≤ is_held (lookup key n) + count (λ v. f v == key) m
      here = ground (arith, h key, held_head key u c)

      smaller :
          (j : K)
          → is_held (lookup j c)
            ≤ is_held (lookup j (remove key n)) + count (λ v. f v == j) (without key m)
      smaller j =
          ground
            (arith, h j, held_tail key j u c, dc.0, lookup-remove key j n, count-without key j m)
