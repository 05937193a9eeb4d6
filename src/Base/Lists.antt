-- ===== src/Base/Lists.antt =====
-- Lists measured by native numbers, under the library's names, and predicates on lists.
use Prim.Native.Nat.{ℕ, zero, suc, ◌+◌, ◌≤◌, min}
use mathlib.Core.Path.{◌≡◌, refl, ap}
use mathlib.Core.Logic.{◌⊎◌}
use mathlib.Core.List.{List, [], ◌∷◌, ◌++◌}
use native.Mathlib.Omega.{arith}

module _ {ℓ} {A : Type ℓ} where
  abbrev pub take : ℕ → List A → List A
  take zero _ = []
  take _ [] = []
  take (suc k) (y ∷ ys) = y ∷ take k ys

  abbrev pub length : List A → ℕ
  length [] = zero
  length (_ ∷ ys) = 1 + length ys

  pub length-append : (xs ys : List A) → length (xs ++ ys) ≡ length xs + length ys
  length-append [] ys = omega arith
  length-append (x ∷ xs) ys = omega (arith, length-append xs ys)

  pub length-take : (k : ℕ) (ys : List A) → length (take k ys) ≡ min k (length ys)
  length-take zero ys = omega arith
  length-take (suc k) [] = omega arith
  length-take (suc k) (y ∷ ys) = omega (arith, length-take k ys)

  -- A prefix that could be longer is the whole list.
  pub take_of_length-le : (k : ℕ) (ys : List A) → length ys ≤ k → take k ys ≡ ys
  take_of_length-le (suc k) (y ∷ ys) fits = ap (◌∷◌ y) (take_of_length-le k ys (omega arith))
  take_of_length-le (suc k) [] fits = refl
  take_of_length-le zero [] fits = refl
  take_of_length-le zero (y ∷ ys) fits = absurd (omega arith)

-- Every element satisfies the predicate.
abbrev pub All {ℓ κ} : {A : Type ℓ} → (A → Type κ) → List A → Type κ
All P [] = Unit
All P (x ∷ xs) = P x × All P xs

-- Stands in a list.
abbrev pub In : {A : Type 0} → A → List A → Type 0
In x [] = ⊥
In x (y ∷ ys) = (y ≡ x) ⊎ In x ys
