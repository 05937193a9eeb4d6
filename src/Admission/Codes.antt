-- ===== src/Admission/Codes.antt =====
-- internal/admission/credential.go: redemption codes, NewCode and NormalizeCode, on texts of code points.
-- The random bytes are an argument. Of the code points above ASCII, ToUpper takes two to ASCII; any
-- other is dropped whatever it becomes, so it stands for itself.
use dee_relay.Base.{
  ℕ, zero, suc, ◌+◌, ◌-◌, ◌*◌, ◌/◌, ◌%◌, ◌^◌, Bool, false, ◌&&◌, ◌||◌, Option, none, some, List, [],
  ◌∷◌, ◌++◌, nat_key, is_space, ◌==◌, leb, ltb, if◌then◌else◌,
}

-- `"0123456789ABCDEFGHJKMNPQRSTVWXYZ"`
abbrev pub code_alphabet : List ℕ
code_alphabet =
    48 ∷ 49 ∷ 50 ∷ 51 ∷ 52 ∷ 53 ∷ 54 ∷ 55 ∷ 56 ∷ 57 ∷ 65 ∷ 66 ∷ 67 ∷ 68 ∷ 69 ∷ 70 ∷ 71 ∷ 72 ∷ 74
    ∷ 75 ∷ 77 ∷ 78 ∷ 80 ∷ 81 ∷ 82 ∷ 83 ∷ 84 ∷ 86 ∷ 87 ∷ 88 ∷ 89 ∷ 90 ∷ []

-- `xs[i]`, of an index in range.
unfoldable pub point_at : List ℕ → ℕ → ℕ
point_at [] i = 0
point_at (x ∷ xs) zero = x
point_at (x ∷ xs) (suc i) = point_at xs i

-- The digits that are whole, and the number of bits left over; each round takes five bits, so as many
-- rounds as there are bits are enough.
unfoldable pub emit : ℕ → ℕ → ℕ → List ℕ × ℕ
unfolding point_at
emit zero acc bits = ([], bits)
emit (suc rounds) acc bits =
    let (rest, left) = emit rounds acc (bits - 5) in
    if leb 5 bits
    then (point_at code_alphabet (acc / 2 ^ (bits - 5) % 32) ∷ rest, left)
    else ([], bits)

unfoldable pub encode : ℕ → ℕ → List ℕ → List ℕ
unfolding emit
encode acc bits [] =
    if ltb 0 bits then point_at code_alphabet (acc * 2 ^ (5 - bits) % 2 ^ 32 % 32) ∷ [] else []
encode acc bits (b ∷ bs) =
    let shifted = (acc * 256 + b) % 2 ^ 32 in
    let (digits, left) = emit (bits + 8) shifted (bits + 8) in digits ++ encode shifted left bs

-- Nothing, where the bytes cannot be drawn.
unfoldable pub new_code : Option (List ℕ) → Option (List ℕ)
unfolding encode
new_code none = none
new_code (some raw) = some (encode 0 0 raw)

unfoldable pub to_upper : ℕ → ℕ
to_upper c =
    if leb 97 c && leb c 122
    then c - 32
    else if c == 0x131
    then 73
    else if c == 0x17f
    then 83
    else c

-- `strings.TrimSpace`
unfoldable pub trim_points_left : List ℕ → List ℕ
trim_points_left [] = []
trim_points_left (c ∷ cs) = if is_space c then trim_points_left cs else c ∷ cs

-- The text without the spaces at its end, given its rest without them.
unfoldable pub keep_last : ℕ → List ℕ → List ℕ
keep_last c [] = if is_space c then [] else c ∷ []
keep_last c (d ∷ ds) = c ∷ d ∷ ds

unfoldable pub trim_points_right : List ℕ → List ℕ
unfolding keep_last
trim_points_right [] = []
trim_points_right (c ∷ cs) = keep_last c (trim_points_right cs)

unfoldable pub contains : List ℕ → ℕ → Bool
contains [] c = false
contains (x ∷ xs) c = x == c || contains xs c

-- What one letter adds: `O`, `I` and `L` are read as digits, `U` stays, grouping is dropped.
unfoldable pub normal_point : ℕ → List ℕ
unfolding contains
normal_point r =
    if r == 79
    then 48 ∷ []
    else if r == 73 || r == 76
    then 49 ∷ []
    else if r == 85
    then 85 ∷ []
    else if contains code_alphabet r
    then r ∷ []
    else []

unfoldable pub normal_points : List ℕ → List ℕ
unfolding to_upper normal_point
normal_points [] = []
normal_points (c ∷ cs) = normal_point (to_upper c) ++ normal_points cs

unfoldable pub normalize_code : List ℕ → List ℕ
unfolding trim_points_left trim_points_right normal_points
normalize_code code = normal_points (trim_points_right (trim_points_left code))
