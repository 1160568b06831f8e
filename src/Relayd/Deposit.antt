-- ===== src/Relayd/Deposit.antt =====
-- relayd/internal/orchestrate/amounts.go: recording what arrived for a leg, with its division into profit
-- and forward.
-- The ledger's balance of the leg's suspense account and the stored pricing are read from outside: they are
-- arguments.
pub mod Recorded
use convert_usdt_from_trc.Base.{Bool, true, false, ◌&&◌, not, Option, none, some, []}
use convert_usdt_from_trc.Base.Int.{ℤ, pos, ltb_ℤ, leb_ℤ}
use convert_usdt_from_trc.Base.Result.{Result}
use convert_usdt_from_trc.Base.Action.{ok, err, ◌>>=◌, ◌>>◌, pure, raise_if}
use convert_usdt_from_trc.Base.Text.{String}
use convert_usdt_from_trc.Money.{Amount, asset_eq}
use convert_usdt_from_trc.Relayd.Legs.{Leg, Error, M, no_deposit_booked, wrong_asset}
use convert_usdt_from_trc.Relayd.Legs.Amounts.{store_deposit, sum_is}
use convert_usdt_from_trc.Relayd.Pricing.{Config, split, for_direction}

-- The fields of the ledger's order that are read here.
pub record LedgerOrder : Type 0 where
  pub amount_in : Amount
  pub fee_units : Amount
  pub sender_address : Option String

-- What the calls outside return: the balance booked to the leg's account, and the admin's pricing
-- (`none` without a pricing store, an error where it cannot be read).
pub record Outside : Type 0 where
  pub booked : Result Error Amount
  pub pricing : Option (Result Error Config)

-- pricingFor: the leg's snapshot, or the admin's pricing, or the order's fee as a flat amount.
abbrev or_zero : Option ℤ → ℤ
or_zero none = pos 0
or_zero (some u) = u

abbrev flat : ℤ → ℤ → Config
flat bps min_profit = record {
  profit_bps = bps;
  min_profit = min_profit;
  min_amount_in = pos 0;
  max_amount_in = pos 0;
  directions = [];
}

abbrev then_for : Result Error Config → String → Result Error Config
then_for (Result.ok c) direction = Result.ok (for_direction c direction)
then_for (Result.err e) direction = Result.err e

abbrev admin_pricing : Option (Result Error Config) → String → ℤ → Result Error Config
admin_pricing none direction fee = Result.ok (flat (pos 0) fee)
admin_pricing (some r) direction fee = then_for r direction

abbrev leg_pricing : Option ℤ → Option ℤ → Result Error Config → Result Error Config
leg_pricing none min_profit other = other
leg_pricing (some bps) min_profit other = Result.ok (flat bps (or_zero min_profit))

unfoldable pub pricing_for : Outside → Leg → LedgerOrder → Result Error Config
pricing_for outside leg order =
    leg_pricing leg.profit_bps leg.min_profit
      (admin_pricing outside.pricing leg.direction order.fee_units.units)

-- A deposit under the current minimum, where that can be read.
abbrev pub under_minimum : Option (Result Error Config) → ℤ → Bool
under_minimum none units = false
under_minimum (some (Result.err e)) units = false
under_minimum (some (Result.ok c)) units = ltb_ℤ units c.min_amount_in

-- The two parts, or all of it as the amount to hand back, and whether it is the latter.
abbrev pub parts : Bool → Amount → Option (Amount × Amount) → Amount × Amount × Bool
parts under received none = (record { asset = received.asset; units = pos 0 }, received, true)
parts true received (some (p, f)) =
    (record { asset = received.asset; units = pos 0 }, received, true)
parts false received (some (p, f)) = (p, f, false)

abbrev pub sender_of : Option String → String
sender_of none = ""
sender_of (some s) = s

-- Whether a recorded leg is taken for one that cannot be forwarded.
abbrev pub parts_missing : Option Amount → Option Amount → Amount → Bool
parts_missing (some p) (some f) received = not (sum_is p f received)
parts_missing _ _ received = true

-- What a call outside returned, as a step on the table.
abbrev pub lift : {A : Type 0} → Result Error A → M A
lift (Result.ok a) t = ok a t
lift (Result.err e) t = err e t

unfoldable pub record_new : Outside → Leg → LedgerOrder → M (Leg × Bool)
record_new outside leg order = do
  received ← lift outside.booked
  raise_if (leb_ℤ received.units (pos 0)) no_deposit_booked
  raise_if (not (asset_eq received.asset leg.amount_in.asset)) wrong_asset
  cfg ← lift (pricing_for outside leg order)
  let under =
      ltb_ℤ received.units leg.amount_in.units && under_minimum outside.pricing received.units
  let all = parts under received (split cfg received)
  recorded ← store_deposit leg.external_id received (sender_of order.sender_address) all.0 all.1
  pure (recorded, all.2)

abbrev pub record_known : Outside → Leg → LedgerOrder → Option Amount → M (Leg × Bool)
record_known outside leg order none = record_new outside leg order
record_known outside leg order (some received) =
    pure (leg, parts_missing leg.profit_amount leg.forward_amount received)

-- recordDeposit of a leg that was read earlier: the leg as recorded, and whether the deposit is too small to
-- forward.
unfoldable pub record_deposit : Outside → Leg → LedgerOrder → M (Leg × Bool)
record_deposit outside leg order = record_known outside leg order leg.received_amount

abbrev or_quoted : Option Amount → Amount → Amount
or_quoted none quoted = quoted
or_quoted (some a) quoted = a

-- receivedFor and profitFor.
unfoldable pub received_for : Leg → LedgerOrder → Amount
received_for leg order = or_quoted leg.received_amount order.amount_in

unfoldable pub profit_for : Leg → LedgerOrder → Amount
profit_for leg order = or_quoted leg.profit_amount order.fee_units
