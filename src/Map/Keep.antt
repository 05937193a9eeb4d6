-- ===== src/Map/Keep.antt =====
-- The verdict of a scan over the entries of a map, key by key.
use dee_relay.Base.{
  ◌≡◌, refl, Bool, false, ◌||◌, ◌&&◌, Option, none, some, [], ◌∷◌, arith, Key, if◌then◌else◌, ◌==◌,
}
use dee_relay.Map.{Map, lookup, Distinct}

-- An entry that fails the test stays.
abbrev pub keep_unless {ℓ} : {A : Type ℓ} → (A → Bool) → Option A → Option A
keep_unless p none = none
keep_unless p (some a) = if p a then none else some a

pub keep_unless_congr {ℓ} :
    {A : Type ℓ} (p q : A → Bool) (o : Option A)
    → ((a : A) → p a ≡ q a)
    → keep_unless p o ≡ keep_unless q o
keep_unless_congr p q none h = refl
keep_unless_congr p q (some a) h = rw (h a)

-- Some entry of the key passes the test.
abbrev pub passes : {K V : Type 0} ⦃k : Key K⦄ → (V → Bool) → K → Map K V → Bool
passes p key [] = false
passes p key ((j, v) ∷ m) = (j == key && p v) || passes p key m

module _ {K V : Type 0} ⦃k : Key K⦄ (p : V → Bool) where
  pub passes_absent : (key : K) (m : Map K V) → lookup key m ≡ none → passes p key m ≡ false
  unfolding lookup
  passes_absent key [] h = refl
  passes_absent key ((j, v) ∷ m) h = ground (arith, passes_absent key m)

  pub passes-lookup :
      (key : K) (m : Map K V)
      → Distinct m
      → (if passes p key m then none else lookup key m) ≡ keep_unless p (lookup key m)
  unfolding lookup
  passes-lookup key [] d = refl
  passes-lookup key ((j, v) ∷ m) d = ground (arith, passes-lookup key m d.1, passes_absent key m)
