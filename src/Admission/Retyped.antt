-- ===== src/Admission/Retyped.antt =====
-- A code that a person types again, in small letters, in groups, with an O for a zero, is the code.
use dee_relay.Base.{
  ℕ, zero, suc, ◌+◌, ◌-◌, ◌*◌, ◌/◌, ◌%◌, ◌^◌, ◌≤◌, ◌<◌, ◌≡◌, ◌≢◌, ◌⊎◌, inl, inr, refl, ap, ◌∙◌,
  subst, true, some, List, [], ◌∷◌, ◌++◌, nat_key, ℕ_discrete, is_space, leb, ltb, if_both,
  Bool-cases, arith, All, length,
}
use dee_relay.Admission.Codes.{
  code_alphabet, point_at, emit, encode, new_code, to_upper, trim_points_left, trim_points_right,
  keep_last, contains, normal_point, normal_points, normalize_code,
}

abbrev IsDigit : ℕ → Type 0
IsDigit d = contains code_alphabet d ≡ true

-- How a person may write a letter of a code: as it is, small, or as the letter it is mistaken for.
pub data Spells : ℕ → ℕ → Type 0 where
  same : (d : ℕ) → Spells d d
  small : (d : ℕ) → 65 ≤ d → d ≤ 90 → Spells (d + 32) d
  big_o : Spells 79 48
  small_o : Spells 111 48
  big_i : Spells 73 49
  small_i : Spells 105 49
  big_l : Spells 76 49
  small_l : Spells 108 49

-- A space, a hyphen, a point: no letter and no digit of ASCII, nor of the two letters that become one.
pub record IsGrouping (c : ℕ) : Type 0 where
  pub no_digit : (c < 48) ⊎ (57 < c)
  pub no_capital : (c < 65) ⊎ (90 < c)
  pub no_small : (c < 97) ⊎ (122 < c)
  pub no_dotless_i : c ≢ 0x131
  pub no_long_s : c ≢ 0x17f

pub data Retypes : List ℕ → List ℕ → Type 0 where
  ends : Retypes [] []
  writes :
      (c d : ℕ) (typed code : List ℕ)
      → Spells c d
      → Retypes typed code
      → Retypes (c ∷ typed) (d ∷ code)
  groups :
      (c : ℕ) (typed code : List ℕ) → IsGrouping c → Retypes typed code → Retypes (c ∷ typed) code

grouping-normal_point : (c : ℕ) → IsGrouping c → normal_point (to_upper c) ≡ []
unfolding normal_point to_upper contains
grouping-normal_point c g =
    ground (arith, g.no_digit, g.no_capital, g.no_small, g.no_dotless_i, g.no_long_s)

space-normal_point : (c : ℕ) → is_space c ≡ true → normal_point (to_upper c) ≡ []
unfolding is_space
space-normal_point c h = grouping-normal_point c (record {
  no_digit = ground arith;
  no_capital = ground arith;
  no_small = ground arith;
  no_dotless_i = λ e. ground arith;
  no_long_s = λ e. ground arith;
})

-- A letter of the alphabet is not one of the four that stand for something else, and is no small one.
digit_range : (d : ℕ) → IsDigit d → (d ≢ 79) × (d ≢ 73) × (d ≢ 76) × (d ≢ 85) × (d ≤ 90)
unfolding contains
digit_range d h =
    (λ e. ground arith, λ e. ground arith, λ e. ground arith, λ e. ground arith, ground arith)

misread :
    (normal_point (to_upper 79) ≡ 48 ∷ [])
    × (normal_point (to_upper 111) ≡ 48 ∷ [])
    × (normal_point (to_upper 73) ≡ 49 ∷ [])
    × (normal_point (to_upper 105) ≡ 49 ∷ [])
    × (normal_point (to_upper 76) ≡ 49 ∷ [])
    × (normal_point (to_upper 108) ≡ 49 ∷ [])
unfolding normal_point to_upper ℕ_discrete
misread = (refl, refl, refl, refl, refl, refl)

spelled : (c d : ℕ) → Spells c d → IsDigit d → normal_point (to_upper c) ≡ d ∷ []
unfolding normal_point to_upper
spelled _ _ (same d) h = let (o, i, l, u, low) = digit_range d h in ground (arith, o, i, l, u, low)
spelled _ _ (small d from to) h =
    let (o, i, l, u, low) = digit_range d h in ground (arith, o, i, l, u, low)
spelled _ _ big_o h = misread.0
spelled _ _ small_o h = misread.1
spelled _ _ big_i h = misread.2
spelled _ _ small_i h = misread.3
spelled _ _ big_l h = misread.4
spelled _ _ small_l h = misread.5

point_at-contains : (xs : List ℕ) (i : ℕ) → i < length xs → contains xs (point_at xs i) ≡ true
unfolding contains point_at
point_at-contains [] i h = absurd (omega arith)
point_at-contains (x ∷ xs) zero h = ground arith
point_at-contains (x ∷ xs) (suc i) h = ground (arith, point_at-contains xs i (omega arith))

point_at-IsDigit : (n : ℕ) → IsDigit (point_at code_alphabet (n % 32))
point_at-IsDigit n = point_at-contains code_alphabet (n % 32) (omega arith)

emit-IsDigit : (rounds acc bits : ℕ) → All IsDigit (emit rounds acc bits).0
unfolding emit
emit-IsDigit zero acc bits = tt
emit-IsDigit (suc rounds) acc bits =
    if_both (λ (x : List ℕ × ℕ). All IsDigit x.0) (leb 5 bits)
      (point_at-IsDigit (acc / 2 ^ (bits - 5)), emit-IsDigit rounds acc (bits - 5)) tt

All-append : (xs ys : List ℕ) → All IsDigit xs → All IsDigit ys → All IsDigit (xs ++ ys)
All-append [] ys h k = k
All-append (x ∷ xs) ys h k = (h.0, All-append xs ys h.1 k)

encode-IsDigit : (acc bits : ℕ) (raw : List ℕ) → All IsDigit (encode acc bits raw)
unfolding encode
encode-IsDigit acc bits [] =
    if_both (All IsDigit) (ltb 0 bits) (point_at-IsDigit (acc * 2 ^ (5 - bits) % 2 ^ 32), tt) tt
encode-IsDigit acc bits (b ∷ raw) =
    let shifted = (acc * 256 + b) % 2 ^ 32 in
    let x = emit (bits + 8) shifted (bits + 8) in
    All-append x.0 (encode shifted x.1 raw) (emit-IsDigit (bits + 8) shifted (bits + 8))
      (encode-IsDigit shifted x.1 raw)

normal_points-left : (cs : List ℕ) → normal_points (trim_points_left cs) ≡ normal_points cs
unfolding normal_points trim_points_left
normal_points-left [] = refl
normal_points-left (c ∷ cs) = elim (Bool-cases (is_space c)) [
  | inl space ↦ rw (space, space-normal_point c space) (normal_points-left cs)
  | inr other ↦ rw other refl
]

normal_points-keep_last :
    (c : ℕ) (cs : List ℕ) → normal_points (keep_last c cs) ≡ normal_points (c ∷ cs)
unfolding normal_points keep_last
normal_points-keep_last c [] = elim (Bool-cases (is_space c)) [
  | inl space ↦ rw (space, space-normal_point c space) refl
  | inr other ↦ rw other refl
]
normal_points-keep_last c (d ∷ ds) = refl

normal_points-right : (cs : List ℕ) → normal_points (trim_points_right cs) ≡ normal_points cs
unfolding normal_points trim_points_right
normal_points-right [] = refl
normal_points-right (c ∷ cs) =
    normal_points-keep_last c (trim_points_right cs)
    ∙ ap (λ r. normal_point (to_upper c) ++ r) (normal_points-right cs)

Retypes-normal_points :
    (typed code : List ℕ) → Retypes typed code → All IsDigit code → normal_points typed ≡ code
unfolding normal_points
Retypes-normal_points _ _ ends h = refl
Retypes-normal_points _ _ (writes c d typed code s r) h =
    rw (spelled c d s h.0) (ap (λ r. d ∷ r) (Retypes-normal_points typed code r h.1))
Retypes-normal_points _ _ (groups c typed code g r) h =
    rw (grouping-normal_point c g) (Retypes-normal_points typed code r h)

-- A minted code, however it is typed again, normalizes to the code: each letter as it is, small, or
-- as the letter it is mistaken for, with spaces, hyphens and the like anywhere.
pub normalize_code-minted :
    (raw code typed : List ℕ)
    → new_code (some raw) ≡ some code
    → Retypes typed code
    → normalize_code typed ≡ code
unfolding new_code normalize_code
normalize_code-minted raw code typed e r =
    let minted : encode 0 0 raw ≡ code = cc in
    normal_points-right (trim_points_left typed)
    ∙ normal_points-left typed
    ∙ Retypes-normal_points typed code r (subst (All IsDigit) minted (encode-IsDigit 0 0 raw))
