-- ===== src/Queue/Ops/Members.antt =====
-- What stands in a list, in a sorted rearrangement of it, and in a cut of that.
use dee_relay.Base.{
  In, ℕ, zero, suc, ◌≤◌, ◌⊎◌, inl, inr, refl, List, [], ◌∷◌, ◌++◌, string_key, take, All, if_both,
  leb, subst,
}
use dee_relay.Queue.Fetch.{insert_by, sort_by}
use dee_relay.Queue.Ops.Sorting.{IsSorted}

module _ {A : Type 0} where
  pub In-left : (x : A) (xs ys : List A) → In x xs → In x (xs ++ ys)
  In-left x [] ys h = absurd h
  In-left x (y ∷ xs) ys (inl e) = inl e
  In-left x (y ∷ xs) ys (inr h) = inr (In-left x xs ys h)

  pub In-right : (x : A) (xs ys : List A) → In x ys → In x (xs ++ ys)
  In-right x [] ys h = h
  In-right x (y ∷ xs) ys h = inr (In-right x xs ys h)

  all_in : (P : A → Type 0) (x : A) (xs : List A) → All P xs → In x xs → P x
  all_in P x [] all h = absurd h
  all_in P x (y ∷ xs) all (inl e) = subst P e all.0
  all_in P x (y ∷ xs) all (inr h) = all_in P x xs all.1 h

module _ {A : Type 0} (key : A → ℕ) where
  In-insert_new : (x : A) (ys : List A) → In x (insert_by key x ys)
  unfolding insert_by
  In-insert_new x [] = inl refl
  In-insert_new x (y ∷ ys) =
      if_both (In x) (leb (key x) (key y)) (inl refl) (inr (In-insert_new x ys))

  In-insert_old : (z x : A) (ys : List A) → In z ys → In z (insert_by key x ys)
  unfolding insert_by
  In-insert_old z x [] h = absurd h
  In-insert_old z x (y ∷ ys) h =
      if_both (In z) (leb (key x) (key y)) (inr h)
        (elim h [ inl e ↦ inl e | inr k ↦ inr (In-insert_old z x ys k) ])

  pub In-sort_by : (z : A) (xs : List A) → In z xs → In z (sort_by key xs)
  unfolding sort_by
  In-sort_by z [] h = absurd h
  In-sort_by z (x ∷ xs) (inl e) =
      subst (λ w. In w (insert_by key x (sort_by key xs))) e (In-insert_new x (sort_by key xs))
  In-sort_by z (x ∷ xs) (inr h) = In-insert_old z x (sort_by key xs) (In-sort_by z xs h)

  -- What a cut of a sorted list leaves out is no smaller than what it keeps.
  pub In-take :
      (r : A) (n : ℕ) (xs : List A)
      → IsSorted key xs
      → In r xs
      → In r (take n xs) ⊎ All (λ t. key t ≤ key r) (take n xs)
  In-take r zero xs s h = inr tt
  In-take r (suc n) [] s h = absurd h
  In-take r (suc n) (x ∷ xs) s (inl e) = inl (inl e)
  In-take r (suc n) (x ∷ xs) s (inr h) = elim (In-take r n xs s.1 h) [
    | inl k ↦ inl (inr k)
    | inr all ↦ inr (all_in (λ y. key x ≤ key y) r xs s.0 h, all)
  ]
