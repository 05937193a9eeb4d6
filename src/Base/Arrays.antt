-- ===== src/Base/Arrays.antt =====
-- Slices read and written by index.
use Prim.Native.Nat.{ℕ, zero, suc, ◌+◌, ◌<◌}
use mathlib.Core.Path.{◌≡◌, refl, ap}
use mathlib.Core.Logic.{◌≢◌}
use mathlib.Core.List.{List, [], ◌∷◌}
use mathlib.Core.Option.{Option, none, some}
use native.Mathlib.Omega.{arith}
use dee_relay.Base.Lists.{length}

module _ {ℓ} {A : Type ℓ} where
  -- `xs[i]`, which is nothing where the program would panic
  abbrev pub get_elem? : List A → ℕ → Option A
  get_elem? [] i = none
  get_elem? (y ∷ ys) zero = some y
  get_elem? (y ∷ ys) (suc i) = get_elem? ys i

  -- `xs[i] = v`
  abbrev pub set : List A → ℕ → A → List A
  set [] i v = []
  set (y ∷ ys) zero v = v ∷ ys
  set (y ∷ ys) (suc i) v = y ∷ set ys i v

  pub length-set : (ys : List A) (i : ℕ) (v : A) → length (set ys i v) ≡ length ys
  length-set [] i v = refl
  length-set (y ∷ ys) zero v = refl
  length-set (y ∷ ys) (suc i) v = ap (λ n. 1 + n) (length-set ys i v)

  pub get_elem?-set_same :
      (ys : List A) (i : ℕ) (v : A) → i < length ys → get_elem? (set ys i v) i ≡ some v
  get_elem?-set_same [] i v h = absurd (omega arith)
  get_elem?-set_same (y ∷ ys) zero v h = refl
  get_elem?-set_same (y ∷ ys) (suc i) v h = get_elem?-set_same ys i v (omega arith)

  pub get_elem?-set_other :
      (ys : List A) (i j : ℕ) (v : A) → i ≢ j → get_elem? (set ys i v) j ≡ get_elem? ys j
  get_elem?-set_other [] i j v h = refl
  get_elem?-set_other (y ∷ ys) zero zero v h = absurd (h refl)
  get_elem?-set_other (y ∷ ys) zero (suc j) v h = refl
  get_elem?-set_other (y ∷ ys) (suc i) zero v h = refl
  get_elem?-set_other (y ∷ ys) (suc i) (suc j) v h =
      get_elem?-set_other ys i j v (λ e. h (ap suc e))

  pub get_elem?_in_range :
      (ys : List A) (i : ℕ) → i < length ys → (v : A) × (get_elem? ys i ≡ some v)
  get_elem?_in_range [] i h = absurd (omega arith)
  get_elem?_in_range (y ∷ ys) zero h = (y, refl)
  get_elem?_in_range (y ∷ ys) (suc i) h = get_elem?_in_range ys i (omega arith)

  pub get_elem?-lt : (ys : List A) (i : ℕ) {v : A} → get_elem? ys i ≡ some v → i < length ys
  get_elem?-lt [] i e = cc
  get_elem?-lt (y ∷ ys) zero e = omega arith
  get_elem?-lt (y ∷ ys) (suc i) e = omega (arith, get_elem?-lt ys i e)
