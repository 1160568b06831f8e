-- ===== src/Money/Bounds.antt =====
-- Exactness of the checked arithmetic of ledger/internal/money/amount.go.
use convert_usdt_from_trc.Base.{true, suc, zero, ◌≡◌, refl, none, some, arith, if◌then◌else◌}
use convert_usdt_from_trc.Base.Int.{neg, ℤ, pos, negsuc, ◌+ℤ◌, ◌-ℤ◌}
use convert_usdt_from_trc.Base.Int64.{wrap64, IsInt64, in_int64}
use convert_usdt_from_trc.Base.Result.{Result, ok, err, ◌>>◌, fail_if}
use convert_usdt_from_trc.Money.{
  Error, Asset, Amount, overflow, checked_add, checked_sub, validate, negate, is_min, add, asset_eq,
}

-- Given two int64 values, checkedAddInt64 yields their mathematical sum if that is an int64 value,
-- and reports an overflow otherwise.
pub checked_add_exact :
    (a b : ℤ)
    → IsInt64 a
    → IsInt64 b
    → checked_add a b ≡ (if in_int64 (a +ℤ b) then some (a +ℤ b) else none)
unfolding checked_add wrap64 ◌+ℤ◌
checked_add_exact (pos a) (pos b) h k = ground arith
checked_add_exact (pos a) (negsuc b) h k = ground arith
checked_add_exact (negsuc a) (pos b) h k = ground arith
checked_add_exact (negsuc a) (negsuc b) h k = ground arith

pub checked_add-eq_some :
    (a b c : ℤ) → IsInt64 a → IsInt64 b → checked_add a b ≡ some c → (c ≡ a +ℤ b) × IsInt64 c
unfolding checked_add wrap64 ◌+ℤ◌
checked_add-eq_some (pos a) (pos b) c h k e = ground arith
checked_add-eq_some (pos a) (negsuc b) c h k e = ground arith
checked_add-eq_some (negsuc a) (pos b) c h k e = ground arith
checked_add-eq_some (negsuc a) (negsuc b) c h k e = ground arith

-- A sum that Add returns is the mathematical one, in the asset of both operands.
pub add-eq_ok :
    (x y z : Amount)
    → IsInt64 x.units
    → IsInt64 y.units
    → add x y ≡ ok z
    → (z.units ≡ x.units +ℤ y.units)
      × IsInt64 z.units
      × (z.asset ≡ x.asset)
      × (asset_eq x.asset y.asset ≡ true)
unfolding add
add-eq_ok x y z h k e = ground (arith, checked_add-eq_some x.units y.units z.units h k)

-- Given two int64 values, checkedSubInt64 yields their mathematical difference if that is an int64
-- value, and reports an overflow otherwise.
pub checked_sub_exact :
    (a b : ℤ)
    → IsInt64 a
    → IsInt64 b
    → checked_sub a b ≡ (if in_int64 (a -ℤ b) then some (a -ℤ b) else none)
unfolding checked_sub wrap64 ◌-ℤ◌
checked_sub_exact (pos a) (pos b) h k = ground arith
checked_sub_exact (pos a) (negsuc b) h k = ground arith
checked_sub_exact (negsuc a) (pos b) h k = ground arith
checked_sub_exact (negsuc a) (negsuc b) h k = ground arith

negate_units :
    (a : Asset) (u : ℤ)
    → IsInt64 u
    → ◌≡◌ {A = Result Error Amount}
        (fail_if (is_min u) overflow >> ok (record { asset = a; units = wrap64 (neg u) }))
        (if in_int64 (neg u) then ok (record { asset = a; units = neg u }) else err overflow)
unfolding wrap64 neg
negate_units a (pos zero) h = refl
negate_units a (pos (suc n)) h = ground arith
negate_units a (negsuc n) h = ground arith

-- Neg yields the opposite of every int64 value but math.MinInt64, where it reports an overflow.
pub negate_exact :
    (x : Amount)
    → IsInt64 x.units
    → validate x ≡ ok tt
    → negate x ≡ (
        if in_int64 (neg x.units)
        then ok (record { asset = x.asset; units = neg x.units })
        else err overflow)
unfolding negate
negate_exact x h v = rw v (negate_units x.asset x.units h)

negate_units-eq_ok :
    (a : Asset) (u : ℤ) (y : Amount)
    → IsInt64 u
    → ◌≡◌ {A = Result Error Amount}
        (fail_if (is_min u) overflow >> ok (record { asset = a; units = wrap64 (neg u) }))
        (ok y)
    → (y.asset ≡ a) × (y.units ≡ neg u) × IsInt64 y.units
unfolding wrap64 neg
negate_units-eq_ok a (pos zero) y h e = ground arith
negate_units-eq_ok a (pos (suc n)) y h e = ground arith
negate_units-eq_ok a (negsuc n) y h e = ground arith

after_check :
    (r : Result Error (Unit {0})) (k : Result Error Amount) (y : Amount)
    → (r >> k) ≡ ok y
    → k ≡ ok y
after_check (ok u) k y e = e
after_check (Result.err x) k y e = cc

-- What Neg returns is the opposite, in the same asset.
pub negate-eq_ok :
    (x y : Amount)
    → IsInt64 x.units
    → negate x ≡ ok y
    → (y.asset ≡ x.asset) × (y.units ≡ neg x.units) × IsInt64 y.units
unfolding negate
negate-eq_ok x y h e = negate_units-eq_ok x.asset x.units y h (after_check (validate x) _ y e)
