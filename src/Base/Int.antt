-- ===== src/Base/Int.antt =====
-- Signed integers over the native numbers: Go's `int` holds those from -2^63 to 2^63 - 1.
use Prim.Native.Nat.{ℕ, ◌^◌, ◌<◌}
use mathlib.Core.Bool.{Bool, true, false}
use tool_public_ubo.Base.Tests.{leb, ◌==◌}

-- `negsuc n` is -(n + 1).
pub data ℤ : Type 0 where
  pos : ℕ → ℤ
  negsuc : ℕ → ℤ

abbrev pub int_limit : ℕ
int_limit = 2 ^ 63

-- The integers that an `int` of 64 bits holds.
abbrev pub IsInt : ℤ → Type 0
IsInt (pos n) = n < int_limit
IsInt (negsuc n) = n < int_limit

-- `x == k` and `x <= k` for a constant k that is not negative
unfoldable pub eq_ℕ : ℤ → ℕ → Bool
eq_ℕ (pos n) k = n == k
eq_ℕ (negsuc n) k = false

unfoldable pub le_ℕ : ℤ → ℕ → Bool
le_ℕ (pos n) k = leb n k
le_ℕ (negsuc n) k = true
