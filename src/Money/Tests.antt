-- ===== src/Money/Tests.antt =====
-- Amounts at the edges of int64.
use convert_usdt_from_trc.Base.{◌≡◌, refl, if◌then◌else◌, some, none, ◌^◌, ◌-◌, arith}
use convert_usdt_from_trc.Base.Int.{ℤ, pos, negsuc, ◌+ℤ◌, ◌-ℤ◌, neg}
use convert_usdt_from_trc.Base.Int64.{in_int64}
use convert_usdt_from_trc.Base.Result.{ok, err, ◌>>=◌}
use convert_usdt_from_trc.Money.{
  usdt_trc20, Amount, overflow, validate, decimals, checked_add, checked_sub, negate, is_min,
}
use convert_usdt_from_trc.Money.Bounds.{checked_add_exact, checked_sub_exact, negate_exact}
use convert_usdt_from_trc.Money.Decimal.{format, parse_decimal}
use convert_usdt_from_trc.Money.RoundTrip.{parse_decimal-format}

abbrev largest : ℤ
largest = pos (2 ^ 63 - 1)

abbrev amount : ℤ → Amount
amount u = record { asset = usdt_trc20; units = u }

checked_add_exact_example :
    checked_add largest (pos 1)
    ≡ (if in_int64 (largest +ℤ pos 1) then some (largest +ℤ pos 1) else none)
checked_add_exact_example =
    checked_add_exact largest (pos 1) (omega arith, omega arith) (omega arith, omega arith)

checked_sub_exact_example :
    checked_sub (negsuc 9) largest
    ≡ (if in_int64 (negsuc 9 -ℤ largest) then some (negsuc 9 -ℤ largest) else none)
checked_sub_exact_example =
    checked_sub_exact (negsuc 9) largest (omega arith, omega arith) (omega arith, omega arith)

negate_exact_example :
    negate (amount (negsuc 41))
    ≡ (if in_int64 (neg (negsuc 41)) then ok (amount (neg (negsuc 41))) else err overflow)
unfolding validate decimals
negate_exact_example = negate_exact (amount (negsuc 41)) (omega arith, omega arith) refl

parse_decimal-format_example :
    (format (amount (negsuc 2990699999)) >>= λ text. parse_decimal text usdt_trc20)
    ≡ (if is_min (negsuc 2990699999) then err overflow else ok (amount (negsuc 2990699999)))
unfolding decimals
parse_decimal-format_example =
    parse_decimal-format (amount (negsuc 2990699999)) 6 refl (omega arith, omega arith)
