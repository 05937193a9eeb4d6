-- ===== src/Queue/Ops/Sorting.antt =====
-- `sort.Slice` and the cut to a limit: a sorted rearrangement, and a prefix of it.
use dee_relay.Base.{
  ℕ, zero, suc, ◌≤◌, ◌<◌, ◌≡◌, List, [], ◌∷◌, arith, leb, leb→le, Bool-cases, inl, inr, length,
  take, All, ◌++◌, refl, sym, ap, subst, take_of_length-le, if_both, length-take,
}
use mathlib.Core.List.{Perm}
use mathlib.Core.List.Perm
use dee_relay.Queue.Fetch.{insert_by, sort_by}

pub All-take {ℓ κ} :
    {A : Type ℓ} (P : A → Type κ) (n : ℕ) (xs : List A) → All P xs → All P (take n xs)
All-take P zero xs h = tt
All-take P (suc n) [] h = tt
All-take P (suc n) (x ∷ xs) h = (h.0, All-take P n xs h.1)

All-const {ℓ κ} : {A : Type ℓ} (P : A → Type κ) → ((x : A) → P x) → (xs : List A) → All P xs
All-const P h [] = tt
All-const P h (x ∷ xs) = (h x, All-const P h xs)

All-append_right {ℓ κ} :
    {A : Type ℓ} (P : A → Type κ) (xs ys : List A) → All P (xs ++ ys) → All P ys
All-append_right P [] ys h = h
All-append_right P (x ∷ xs) ys h = All-append_right P xs ys h.1

All-both {ℓ κ} :
    {A : Type ℓ} (P Q : A → Type κ) (xs : List A) → All P xs → All Q xs → All (λ x. P x × Q x) xs
All-both P Q [] h k = tt
All-both P Q (x ∷ xs) h k = ((h.0, k.0), All-both P Q xs h.1 k.1)

-- A cut that is shorter than its limit has cut nothing.
pub take_short {ℓ} : {A : Type ℓ} (n : ℕ) (xs : List A) → length (take n xs) < n → take n xs ≡ xs
take_short n xs h = take_of_length-le n xs (omega (arith, length-take n xs))

module _ {ℓ} {A : Type ℓ} (key : A → ℕ) where
  -- Each element is at most what follows it.
  abbrev pub IsSorted : List A → Type 0
  IsSorted [] = Unit
  IsSorted (x ∷ xs) = All (λ y. key x ≤ key y) xs × IsSorted xs

  All-insert_by {κ} :
      (P : A → Type κ) (x : A) (xs : List A) → P x → All P xs → All P (insert_by key x xs)
  unfolding insert_by
  All-insert_by P x [] p h = (p, tt)
  All-insert_by P x (y ∷ ys) p h =
      if_both (All P) (leb (key x) (key y)) (p, h) (h.0, All-insert_by P x ys p h.1)

  pub All-sort_by {κ} : (P : A → Type κ) (xs : List A) → All P xs → All P (sort_by key xs)
  unfolding sort_by
  All-sort_by P [] h = tt
  All-sort_by P (x ∷ xs) h = All-insert_by P x (sort_by key xs) h.0 (All-sort_by P xs h.1)

  All-le : (a : ℕ) (b : ℕ) (ys : List A) → a ≤ b → All (λ y. b ≤ key y) ys → All (λ y. a ≤ key y) ys
  All-le a b [] h all = tt
  All-le a b (y ∷ ys) h all = (omega arith, All-le a b ys h all.1)

  insert_by-IsSorted : (x : A) (xs : List A) → IsSorted xs → IsSorted (insert_by key x xs)
  unfolding insert_by
  insert_by-IsSorted x [] s = (tt, tt)
  insert_by-IsSorted x (y ∷ ys) s = elim (Bool-cases (leb (key x) (key y))) [
    | inl le ↦
        rw le (let h = leb→le (key x) (key y) le in ((h, All-le (key x) (key y) ys h s.0), s))
    | inr gt ↦
        rw gt
          (All-insert_by (λ z. key y ≤ key z) x ys (ground arith) s.0, insert_by-IsSorted x ys s.1)
  ]

  pub sort_by-IsSorted : (xs : List A) → IsSorted (sort_by key xs)
  unfolding sort_by
  sort_by-IsSorted [] = tt
  sort_by-IsSorted (x ∷ xs) = insert_by-IsSorted x (sort_by key xs) (sort_by-IsSorted xs)

  insert_by-perm : (x : A) (xs : List A) → Perm (insert_by key x xs) (x ∷ xs)
  unfolding insert_by
  insert_by-perm x [] = Perm.refl (x ∷ [])
  insert_by-perm x (y ∷ ys) =
      if_both (λ zs. Perm zs (x ∷ y ∷ ys)) (leb (key x) (key y)) (Perm.refl (x ∷ y ∷ ys))
        (Perm.trans (Perm.cons y (insert_by-perm x ys)) (Perm.swap x y ys))

  pub sort_by-perm : (xs : List A) → Perm (sort_by key xs) xs
  unfolding sort_by
  sort_by-perm [] = Perm.refl []
  sort_by-perm (x ∷ xs) =
      Perm.trans (insert_by-perm x (sort_by key xs)) (Perm.cons x (sort_by-perm xs))

  pub take-IsSorted : (n : ℕ) (xs : List A) → IsSorted xs → IsSorted (take n xs)
  take-IsSorted zero xs s = tt
  take-IsSorted (suc n) [] s = tt
  take-IsSorted (suc n) (x ∷ xs) s =
      (All-take (λ y. key x ≤ key y) n xs s.0, take-IsSorted n xs s.1)

  -- A cut of a sorted list: what is cut off is at least as great as what is kept.
  pub cut_sorted :
      (n : ℕ) (xs : List A)
      → IsSorted xs
      → (ys : List A) × (take n xs ++ ys ≡ xs) × All (λ b. All (λ a. key a ≤ key b) (take n xs)) ys
  cut_sorted zero xs s = (xs, refl, All-const (λ b. Unit) (λ b. tt) xs)
  cut_sorted (suc n) [] s = ([], refl, tt)
  cut_sorted (suc n) (x ∷ xs) s =
      let (ys, e, h) = cut_sorted n xs s.1 in
      let above =
        All-append_right (λ b. key x ≤ key b) (take n xs) ys
          (subst (All (λ b. key x ≤ key b)) (sym e) s.0) in
      (
        ys,
        ap (◌∷◌ x) e,
        All-both (λ b. key x ≤ key b) (λ b. All (λ a. key a ≤ key b) (take n xs)) ys above h,
      )
