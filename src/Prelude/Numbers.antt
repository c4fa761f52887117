-- ===== src/Prelude/Numbers.antt =====
-- A JavaScript number, as far as the SDK's guards tell numbers apart.
use Prim.Native.Nat.{ℕ}
use mathlib.Core.Bool.{Bool, false}
use cantelop_sdk.Prelude.Tests.{leb}

-- `negative n` is -(n + 1); `other` is any fraction, infinity or NaN.
pub data Number : Type 0 where
  natural : ℕ → Number
  negative : ℕ → Number
  other : Number

abbrev pub max_safe_integer : ℕ
max_safe_integer = 9007199254740991

-- `Number.isSafeInteger(value) && value >= 0`.
abbrev pub is_safe_natural : Number → Bool
is_safe_natural (natural n) = leb n max_safe_integer
is_safe_natural (negative _) = false
is_safe_natural other = false
