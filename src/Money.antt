-- ===== src/Money.antt =====
-- ledger/internal/money/asset.go and amount.go: assets, amounts in minor units and their checked
-- arithmetic. relayd/internal/money declares the same code.
pub mod Bounds
pub mod Decimal
pub mod RoundTrip
mod Tests
use convert_usdt_from_trc.Base.{
  ℕ, ◌+◌, ◌-◌, ◌≡◌, ◌↔◌, Bool, true, false, ◌&&◌, Option, none, some, arith, if◌then◌else◌, ◌==◌,
  not,
}
use convert_usdt_from_trc.Base.Int.{ℤ, pos, negsuc, ◌+ℤ◌, ◌-ℤ◌, neg, ltb_ℤ, is_neg}
use convert_usdt_from_trc.Base.Int64.{wrap64}
use convert_usdt_from_trc.Base.Result.{Result, ok, err, ◌>>=◌, ◌>>◌, fail_if, is_ok}
use convert_usdt_from_trc.Base.Text.{String, str_eq, eq_iff}

pub data Error : Type 0 where
  zero_value_amount asset_mismatch overflow unknown_asset invalid_decimal too_many_decimals : Error

-- `type Asset string`: the four constants, and any other spelling, the empty one included.
pub data Asset : Type 0 where
  usdt_bep20 usdt_trc20 trx bnb : Asset
  other : String → Asset

-- `a == b` on assets.
abbrev pub asset_eq : Asset → Asset → Bool
asset_eq usdt_bep20 usdt_bep20 = true
asset_eq usdt_trc20 usdt_trc20 = true
asset_eq trx trx = true
asset_eq bnb bnb = true
asset_eq (other s) (other t) = str_eq s t
asset_eq _ _ = false

pub asset_eq_iff : (a b : Asset) → (asset_eq a b ≡ true) ↔ (a ≡ b)
asset_eq_iff (other s) (other t) = ground (arith, eq_iff s t)
asset_eq_iff usdt_bep20 b = ground arith
asset_eq_iff _ b = ground arith

unfoldable pub decimals : Asset → Result Error ℕ
decimals usdt_bep20 = ok 6
decimals usdt_trc20 = ok 6
decimals trx = ok 6
decimals bnb = ok 9
decimals (other s) = err unknown_asset

unfoldable pub valid : Asset → Bool
unfolding decimals
valid a = is_ok (decimals a)

pub record Amount : Type 0 where
  pub asset : Asset
  pub units : ℤ  -- int64

-- `a.Asset == ""`.
abbrev is_unset : Asset → Bool
is_unset (other s) = str_eq s ""
is_unset _ = false

unfoldable pub validate : Amount → Result Error (Unit {0})
unfolding valid
validate a = do
  fail_if (is_unset a.asset) zero_value_amount
  if valid a.asset then ok tt else err unknown_asset

-- `checkedAddInt64`: the sum wraps, and the signs of the operands tell whether it did.
unfoldable pub checked_add : ℤ → ℤ → Option ℤ
checked_add a b =
    let sum = wrap64 (a +ℤ b) in
    if ltb_ℤ (pos 0) b && ltb_ℤ sum a
    then none
    else if ltb_ℤ b (pos 0) && ltb_ℤ a sum
    then none
    else some sum

-- The sign bit of `a ^ b`, from the sign bits of the operands.
abbrev sign_xor : Bool → Bool → Bool
sign_xor true b = not b
sign_xor false b = b

-- `checkedSubInt64`: `a ^ b` is negative where the sign bits differ.
unfoldable pub checked_sub : ℤ → ℤ → Option ℤ
checked_sub a b =
    let diff = wrap64 (a -ℤ b) in
    if sign_xor (is_neg a) (is_neg b) && sign_xor (is_neg a) (is_neg diff) then none else some diff

-- math.MinInt64, -2^63.
abbrev pub min_int64 : ℤ
min_int64 = negsuc 9223372036854775807

-- `Amount{Asset: asset, Units: units}, nil` for a checked result, or ErrOverflow.
abbrev amount_or_overflow : Asset → Option ℤ → Result Error Amount
amount_or_overflow a none = err overflow
amount_or_overflow a (some u) = ok (record { asset = a; units = u })

unfoldable pub add : Amount → Amount → Result Error Amount
add a b = do
  validate a
  validate b
  if asset_eq a.asset b.asset
      then amount_or_overflow a.asset (checked_add a.units b.units)
      else err asset_mismatch

unfoldable pub sub : Amount → Amount → Result Error Amount
sub a b = do
  validate a
  validate b
  if asset_eq a.asset b.asset
      then amount_or_overflow a.asset (checked_sub a.units b.units)
      else err asset_mismatch

-- `a.Units == math.MinInt64`.
abbrev pub is_min : ℤ → Bool
is_min (pos n) = false
is_min (negsuc n) = n == 9223372036854775807

unfoldable pub negate : Amount → Result Error Amount
negate a = do
  validate a
  fail_if (is_min a.units) overflow
  ok (record { asset = a.asset; units = wrap64 (neg a.units) })
