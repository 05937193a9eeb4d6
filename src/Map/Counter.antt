-- ===== src/Map/Counter.antt =====
-- Counters kept in a `map[K]int`, which hold no entry at zero, and their laws.
use dee_relay.Base.{ℕ, ◌+◌, ◌-◌, ◌<◌, ◌≡◌, Option, none, some, arith, Key, if◌then◌else◌, leb, ite}
use dee_relay.Map.{
  Map, lookup, get_or, insert, remove, lookup-insert, lookup-remove, Distinct, Distinct-insert,
  Distinct-remove,
}

module _ {K : Type 0} ⦃k : Key K⦄ where
  -- `m[key]++`
  unfoldable pub bump : K → Map K ℕ → Map K ℕ
  bump key m = insert key (get_or 0 key m + 1) m

  -- `if m[key] <= 1 { delete(m, key) } else { m[key]-- }`
  unfoldable pub drop_one : K → Map K ℕ → Map K ℕ
  drop_one key m =
      if leb (get_or 0 key m) 1 then remove key m else insert key (get_or 0 key m - 1) m

-- A counter holds a number, and is absent at zero.
abbrev pub Counts : Option ℕ → ℕ → Type 0
Counts none n = n ≡ 0
Counts (some c) n = (c ≡ n) × (0 < n)

module _ {K : Type 0} ⦃k : Key K⦄ (key : K) (m : Map K ℕ) (d : Distinct m) where
  pub Distinct-bump : Distinct (bump key m)
  unfolding bump
  Distinct-bump = Distinct-insert key (get_or 0 key m + 1) m d

  pub Distinct-drop_one : Distinct (drop_one key m)
  unfolding drop_one
  Distinct-drop_one =
      ground (arith, Distinct-insert key (get_or 0 key m - 1) m d, Distinct-remove key m d)

module _ {K : Type 0} ⦃k : Key K⦄ (m : Map K ℕ) (key j : K) (n : ℕ) where
  pub bump-Counts :
      Counts (lookup j m) n → Counts (lookup j (bump key m)) (ite (k.dec key j) (n + 1) n)
  unfolding bump get_or
  bump-Counts h = ground (arith, lookup-insert key j (get_or 0 key m + 1) m)

  pub drop_one-Counts :
      Counts (lookup j m) (ite (k.dec key j) (n + 1) n) → Counts (lookup j (drop_one key m)) n
  unfolding drop_one get_or
  drop_one-Counts h =
      ground (arith, lookup-insert key j (get_or 0 key m - 1) m, lookup-remove key j m)
