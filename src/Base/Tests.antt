-- ===== src/Base/Tests.antt =====
-- Boolean tests, the conditional, and equality of keys as an interface.
use Prim.Native.Nat.{ℕ, ◌≤◌, ◌<◌, compare, Ordering}
use Prim.Native.String.{String}
use mathlib.Core.Path.{◌≡◌, refl}
use mathlib.Core.Logic.{◌↔◌, ◌⊎◌, inl, inr, ite}
use mathlib.Core.Bool.{Bool, true, false}
use mathlib.Core.Option.{Option, none, some}
use native.Mathlib.Decide.{ℕ_discrete}
use native.Mathlib.Omega.{arith}
use text.Mathlib.Text.{◌==◌ as str_eq}
use text.Mathlib.TextEquality.{eq_iff}

-- These compute to `compare`, which the tactics read.
abbrev pub ltb : ℕ → ℕ → Bool
ltb a b = elim (compare a b) [ Ordering.lt ↦ true | _ ↦ false ]

abbrev pub leb : ℕ → ℕ → Bool
leb a b = elim (compare a b) [ Ordering.gt ↦ false | _ ↦ true ]

infix 1 if◌then◌else◌
abbrev pub if◌then◌else◌ {ℓ} : {A : Type ℓ} → Bool → A → A → A
if true then x else y = x
if false then x else y = y

pub Bool-cases : (b : Bool) → (b ≡ true) ⊎ (b ≡ false)
Bool-cases true = inl refl
Bool-cases false = inr refl

-- What both branches satisfy, the conditional does.
pub if_both {ℓ κ} :
    {A : Type ℓ} (P : A → Type κ) (b : Bool) {x y : A} → P x → P y → P (if b then x else y)
if_both P true p q = p
if_both P false p q = q

pub Option-cases {ℓ} : {A : Type ℓ} (o : Option A) → (o ≡ none) ⊎ ((a : A) × (o ≡ some a))
Option-cases none = inl refl
Option-cases (some a) = inr (a, refl)

-- What the language's `==` decides: the equality of two keys.
pub record Key {ℓ} (K : Type ℓ) : Type ℓ where
  pub dec : Discrete K

decide_by {ℓ} : {A : Type ℓ} (b : Bool) {a c : A} → (b ≡ true) ↔ (a ≡ c) → Dec (a ≡ c)
decide_by true h = yes (h.0 refl)
decide_by false h = no (λ e. cc (h.1 e))

unfoldable pub string_discrete : Discrete String
unfolding decide_by
string_discrete s t = decide_by (str_eq s t) (eq_iff s t)

instance abbrev pub nat_key : Key ℕ
nat_key = record { dec = ℕ_discrete }

instance abbrev pub string_key : Key String
string_key = record { dec = string_discrete }

infix 50 ◌==◌ ◌/=◌
abbrev pub ◌==◌ {ℓ} : {K : Type ℓ} ⦃k : Key K⦄ → K → K → Bool
◌==◌ ⦃k⦄ a b = ite (k.dec a b) true false

abbrev pub ◌/=◌ {ℓ} : {K : Type ℓ} ⦃k : Key K⦄ → K → K → Bool
◌/=◌ ⦃k⦄ a b = ite (k.dec a b) false true

pub ==_iff {ℓ} : {K : Type ℓ} ⦃k : Key K⦄ (a b : K) → ((a == b) ≡ true) ↔ (a ≡ b)
==_iff ⦃k⦄ a b = ground arith

pub ltb→lt : (a b : ℕ) → ltb a b ≡ true → a < b
ltb→lt a b h = ground arith

pub leb→le : (a b : ℕ) → leb a b ≡ true → a ≤ b
leb→le a b h = ground arith

pub lt→ltb : (a b : ℕ) → a < b → ltb a b ≡ true
lt→ltb a b h = ground arith
