-- ===== src/Base/Int64.antt =====
-- Go's int64: two's-complement wrap-around over ℤ, and the range of the type.
use convert_usdt_from_trc.Base.Tests.{ltb, if◌then◌else◌}
use convert_usdt_from_trc.Base.Int.{ℤ, pos, negsuc, pos_part, neg_part, neg}
use Prim.Native.Nat.{ℕ, suc, ◌-◌, ◌/◌, ◌%◌, ◌^◌, ◌≤◌, ◌<◌}
use mathlib.Core.Path.{◌≡◌}
use mathlib.Core.Bool.{Bool}
use native.Mathlib.Omega.{arith}

-- -2^63 ≤ a < 2^63.
abbrev pub IsInt64 : ℤ → Type 0
IsInt64 a = (pos_part a < 2 ^ 63) × (neg_part a ≤ 2 ^ 63)

-- Whether an integer is a value of int64.
abbrev pub in_int64 : ℤ → Bool
in_int64 (pos n) = ltb n (2 ^ 63)
in_int64 (negsuc n) = ltb n (2 ^ 63)

-- The residue of an integer modulo 2^64, as an unsigned word.
abbrev pub word : ℤ → ℕ
word (pos n) = n % 2 ^ 64
word (negsuc n) = 2 ^ 64 - 1 - n % 2 ^ 64

-- The signed reading of a word.
abbrev pub signed : ℕ → ℤ
signed u = if ltb u (2 ^ 63) then pos u else negsuc (2 ^ 64 - 1 - u)

unfoldable pub wrap64 : ℤ → ℤ
wrap64 a = signed (word a)

-- A value in range is unchanged by the wrap-around.
pub wrap64_id : (a : ℤ) → IsInt64 a → wrap64 a ≡ a
unfolding wrap64
wrap64_id (pos n) h = ground arith
wrap64_id (negsuc n) h = ground arith

-- Whatever it is applied to, the wrap-around yields a value of the type.
pub wrap64-IsInt64 : (a : ℤ) → IsInt64 (wrap64 a)
unfolding wrap64
wrap64-IsInt64 (pos n) = ground arith
wrap64-IsInt64 (negsuc n) = ground arith

-- Go's `/` and `%`: the quotient is truncated towards zero, the remainder has the dividend's sign.
abbrev pub signed_quot : ℤ → ℕ → ℤ
signed_quot (pos n) d = pos (n / d)
signed_quot (negsuc n) d = neg (pos (suc n / d))

abbrev pub signed_rem : ℤ → ℕ → ℤ
signed_rem (pos n) d = pos (n % d)
signed_rem (negsuc n) d = neg (pos (suc n % d))

-- `-x` on int64: the least value is its own negative.
unfoldable pub wrap_neg : ℤ → ℤ
unfolding wrap64 neg
wrap_neg a = wrap64 (neg a)

-- `int16(i)` of a non-negative int.
unfoldable pub to_int16 : ℕ → ℤ
to_int16 i = let u = i % 2 ^ 16 in if ltb u (2 ^ 15) then pos u else negsuc (2 ^ 16 - 1 - u)
