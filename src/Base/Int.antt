-- ===== src/Base/Int.antt =====
-- The language's signed integers, as far as the program compares them with zero.
use Prim.Native.Nat.{ℕ}
use mathlib.Core.Bool.{Bool, true, false}
use dee_relay.Base.Tests.{◌==◌, nat_key, if◌then◌else◌, ltb}

-- `negsuc n` is -(n + 1).
pub data ℤ : Type 0 where
  pos : ℕ → ℤ
  negsuc : ℕ → ℤ

-- `if v <= 0 { v = fallback }`
unfoldable pub or_default : ℕ → ℤ → ℕ
or_default fallback (pos n) = if n == 0 then fallback else n
or_default fallback (negsuc n) = fallback

-- The number of a value that is not negative.
unfoldable pub natural : ℤ → ℕ
natural (pos n) = n
natural (negsuc n) = 0

-- `a < b` against a number, and `a > 0`
unfoldable pub is_below : ℤ → ℕ → Bool
is_below (pos n) k = ltb n k
is_below (negsuc n) k = true

unfoldable pub is_positive : ℤ → Bool
is_positive (pos n) = ltb 0 n
is_positive (negsuc n) = false
