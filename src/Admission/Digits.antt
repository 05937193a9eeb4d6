-- ===== src/Admission/Digits.antt =====
-- NewCode keeps every bit that was drawn: the digits of a code spell the number of its bytes.
use dee_relay.Base.{
  ℕ, zero, suc, ◌+◌, ◌-◌, ◌*◌, ◌/◌, ◌%◌, ◌^◌, ◌≤◌, ◌<◌, ◌≡◌, refl, ap, ◌∙◌, Bool, true, ◌&&◌, List,
  [], ◌∷◌, ◌++◌, nat_key, ℕ_discrete, ◌==◌, ltb, if◌then◌else◌, arith, All,
}
use dee_relay.Admission.Codes.{code_alphabet, point_at, emit, encode}

-- Where a letter stands in the alphabet.
unfoldable place : List ℕ → ℕ → ℕ
place [] c = 0
place (x ∷ xs) c = if x == c then 0 else 1 + place xs c

-- The number that digits spell in base 32, after what came before them, and bytes in base 256.
unfoldable pub code_number : ℕ → List ℕ → ℕ
unfolding place
code_number n [] = n
code_number n (c ∷ cs) = code_number (n * 32 + place code_alphabet c) cs

unfoldable pub byte_number : ℕ → List ℕ → ℕ
byte_number n [] = n
byte_number n (b ∷ bs) = byte_number (n * 256 + b) bs

unfoldable all_below : ℕ → (ℕ → Bool) → Bool
all_below zero p = true
all_below (suc n) p = p n && all_below n p

all_below-each : (n : ℕ) (p : ℕ → Bool) (i : ℕ) → all_below n p ≡ true → i < n → p i ≡ true
unfolding all_below
all_below-each zero p i h lt = absurd (omega arith)
all_below-each (suc n) p i h lt = elim (ℕ_discrete i n) [
  | yes e ↦ ap p e ∙ ground arith
  | no other ↦ all_below-each n p i (ground arith) (omega (arith, other))
]

abbrev stands : ℕ → Bool
stands i = place code_alphabet (point_at code_alphabet i) == i

all-stand : all_below 32 stands ≡ true
unfolding all_below place point_at ℕ_discrete
all-stand = refl

place-point_at : (n : ℕ) → place code_alphabet (point_at code_alphabet (n % 32)) ≡ n % 32
place-point_at n =
    let h = all_below-each 32 stands (n % 32) all-stand (omega arith) in ground (arith, h)

-- The bits left over, at most four, and the digits that one more byte gives.
abbrev left_of : ℕ → ℕ
left_of bits = (bits + 8) % 5

-- What the digits so far and the bits left over spell together.
abbrev Spelled : ℕ → ℕ → ℕ → ℕ → Type 0
Spelled n acc bits v = n * 2 ^ bits + acc % 2 ^ bits ≡ v

emit-0 :
    (n acc b v : ℕ)
    → b < 256
    → Spelled n acc 0 v
    → Spelled
        (code_number n (emit 8 ((acc * 256 + b) % 2 ^ 32) 8).0)
        ((acc * 256 + b) % 2 ^ 32)
        3
        (v * 256 + b)
unfolding emit code_number
emit-0 n acc b v small h = omega (arith, place-point_at ((acc * 256 + b) % 2 ^ 32 / 8))

emit-1 :
    (n acc b v : ℕ)
    → b < 256
    → Spelled n acc 1 v
    → Spelled
        (code_number n (emit 9 ((acc * 256 + b) % 2 ^ 32) 9).0)
        ((acc * 256 + b) % 2 ^ 32)
        4
        (v * 256 + b)
unfolding emit code_number
emit-1 n acc b v small h = omega (arith, place-point_at ((acc * 256 + b) % 2 ^ 32 / 16))

emit-2 :
    (n acc b v : ℕ)
    → b < 256
    → Spelled n acc 2 v
    → Spelled
        (code_number n (emit 10 ((acc * 256 + b) % 2 ^ 32) 10).0)
        ((acc * 256 + b) % 2 ^ 32)
        0
        (v * 256 + b)
unfolding emit code_number
emit-2 n acc b v small h = omega (
  arith,
  place-point_at ((acc * 256 + b) % 2 ^ 32 / 32),
  place-point_at ((acc * 256 + b) % 2 ^ 32 / 1),
)

emit-3 :
    (n acc b v : ℕ)
    → b < 256
    → Spelled n acc 3 v
    → Spelled
        (code_number n (emit 11 ((acc * 256 + b) % 2 ^ 32) 11).0)
        ((acc * 256 + b) % 2 ^ 32)
        1
        (v * 256 + b)
unfolding emit code_number
emit-3 n acc b v small h = omega (
  arith,
  place-point_at ((acc * 256 + b) % 2 ^ 32 / 64),
  place-point_at ((acc * 256 + b) % 2 ^ 32 / 2),
)

emit-4 :
    (n acc b v : ℕ)
    → b < 256
    → Spelled n acc 4 v
    → Spelled
        (code_number n (emit 12 ((acc * 256 + b) % 2 ^ 32) 12).0)
        ((acc * 256 + b) % 2 ^ 32)
        2
        (v * 256 + b)
unfolding emit code_number
emit-4 n acc b v small h = omega (
  arith,
  place-point_at ((acc * 256 + b) % 2 ^ 32 / 128),
  place-point_at ((acc * 256 + b) % 2 ^ 32 / 4),
)

code_number-append :
    (n : ℕ) (xs ys : List ℕ) → code_number n (xs ++ ys) ≡ code_number (code_number n xs) ys
unfolding code_number
code_number-append n [] ys = refl
code_number-append n (x ∷ xs) ys = code_number-append (n * 32 + place code_alphabet x) xs ys

-- The zero bits that fill up the last digit.
unfoldable pub pad : ℕ → List ℕ → ℕ
pad bits [] = if ltb 0 bits then 5 - bits else 0
pad bits (b ∷ raw) = pad ((bits + 8) % 5) raw

abbrev pub AreBytes : List ℕ → Type 0
AreBytes raw = All (λ b. b < 256) raw

pub encode-code_number :
    (bits : ℕ) (raw : List ℕ) (n acc v : ℕ)
    → bits ≤ 4
    → Spelled n acc bits v
    → AreBytes raw
    → code_number n (encode acc bits raw) ≡ byte_number v raw * 2 ^ pad bits raw
unfolding encode code_number byte_number pad
encode-code_number zero [] n acc v few h bytes = omega (arith, h)
encode-code_number (suc zero) [] n acc v few h bytes =
    omega (arith, h, place-point_at (acc * 16 % 2 ^ 32))
encode-code_number (suc (suc zero)) [] n acc v few h bytes =
    omega (arith, h, place-point_at (acc * 8 % 2 ^ 32))
encode-code_number (suc (suc (suc zero))) [] n acc v few h bytes =
    omega (arith, h, place-point_at (acc * 4 % 2 ^ 32))
encode-code_number (suc (suc (suc (suc zero)))) [] n acc v few h bytes =
    omega (arith, h, place-point_at (acc * 2 % 2 ^ 32))
encode-code_number (suc (suc (suc (suc (suc bits))))) [] n acc v few h bytes =
    absurd (omega (arith, few))
encode-code_number zero (b ∷ raw) n acc v few h bytes =
    let shifted = (acc * 256 + b) % 2 ^ 32 in
    let digits = (emit 8 shifted 8).0 in
    code_number-append n digits (encode shifted 3 raw)
    ∙ encode-code_number 3 raw (code_number n digits) shifted (v * 256 + b) (omega arith)
        (emit-0 n acc b v bytes.0 h) bytes.1
encode-code_number (suc zero) (b ∷ raw) n acc v few h bytes =
    let shifted = (acc * 256 + b) % 2 ^ 32 in
    let digits = (emit 9 shifted 9).0 in
    code_number-append n digits (encode shifted 4 raw)
    ∙ encode-code_number 4 raw (code_number n digits) shifted (v * 256 + b) (omega arith)
        (emit-1 n acc b v bytes.0 h) bytes.1
encode-code_number (suc (suc zero)) (b ∷ raw) n acc v few h bytes =
    let shifted = (acc * 256 + b) % 2 ^ 32 in
    let digits = (emit 10 shifted 10).0 in
    code_number-append n digits (encode shifted 0 raw)
    ∙ encode-code_number 0 raw (code_number n digits) shifted (v * 256 + b) (omega arith)
        (emit-2 n acc b v bytes.0 h) bytes.1
encode-code_number (suc (suc (suc zero))) (b ∷ raw) n acc v few h bytes =
    let shifted = (acc * 256 + b) % 2 ^ 32 in
    let digits = (emit 11 shifted 11).0 in
    code_number-append n digits (encode shifted 1 raw)
    ∙ encode-code_number 1 raw (code_number n digits) shifted (v * 256 + b) (omega arith)
        (emit-3 n acc b v bytes.0 h) bytes.1
encode-code_number (suc (suc (suc (suc zero)))) (b ∷ raw) n acc v few h bytes =
    let shifted = (acc * 256 + b) % 2 ^ 32 in
    let digits = (emit 12 shifted 12).0 in
    code_number-append n digits (encode shifted 2 raw)
    ∙ encode-code_number 2 raw (code_number n digits) shifted (v * 256 + b) (omega arith)
        (emit-4 n acc b v bytes.0 h) bytes.1
encode-code_number (suc (suc (suc (suc (suc bits))))) (b ∷ raw) n acc v few h bytes =
    absurd (omega (arith, few))
