-- ===== src/Base/Text.antt =====
-- The part of the language's `strings` package that the program uses, on texts of code points.
use Prim.Native.Nat.{ℕ}
use Prim.Native.Char.{code}
use Prim.Native.String.{String}
use mathlib.Core.Path.{◌≡◌, refl}
use mathlib.Core.Logic.{◌≢◌}
use mathlib.Core.Bool.{Bool, true, false, ◌&&◌, ◌||◌}
use native.Mathlib.Decide.{ℕ_discrete}
use dee_relay.Base.Tests.{leb, if◌then◌else◌, ◌==◌, nat_key}

-- `unicode.IsSpace`.
unfoldable pub is_space : ℕ → Bool
is_space c =
    leb 0x09 c && leb c 0x0d
    || c == 0x20
    || c == 0x85
    || c == 0xa0
    || c == 0x1680
    || leb 0x2000 c && leb c 0x200a
    || c == 0x2028
    || c == 0x2029
    || c == 0x202f
    || c == 0x205f
    || c == 0x3000

unfoldable pub is_empty : String → Bool
is_empty String.[] = true
is_empty (String.◌∷◌ c s) = false

unfoldable pub trim_left : String → String
trim_left String.[] = String.[]
trim_left (String.◌∷◌ c s) = if is_space (code c) then trim_left s else String.◌∷◌ c s

unfoldable pub trim_right : String → String
trim_right String.[] = String.[]
trim_right (String.◌∷◌ c s) =
    let r = trim_right s in if is_space (code c) && is_empty r then String.[] else String.◌∷◌ c r

-- `strings.TrimSpace`.
unfoldable pub trim_space : String → String
unfolding trim_left trim_right is_space is_empty
trim_space s = trim_right (trim_left s)

trim_space_example : trim_space " \t a b \n" ≡ "a b"
unfolding trim_space ℕ_discrete
trim_space_example = refl

pub is_empty→eq : (s : String) → is_empty s ≡ true → s ≡ ""
unfolding is_empty
is_empty→eq String.[] h = refl
is_empty→eq (String.◌∷◌ c s) h = cc

pub ne→not_empty : (s : String) → s ≢ "" → is_empty s ≡ false
unfolding is_empty
ne→not_empty String.[] h = absurd (h refl)
ne→not_empty (String.◌∷◌ c s) h = refl

pub not_empty→ne : (s : String) → is_empty s ≡ false → s ≢ ""
unfolding is_empty
not_empty→ne String.[] h e = cc
not_empty→ne (String.◌∷◌ c s) h e = cc
