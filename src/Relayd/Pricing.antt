-- ===== src/Relayd/Pricing.antt =====
-- relayd/internal/pricing/pricing.go: the profit kept from a deposit, and what is forwarded.
pub mod Exact
use convert_usdt_from_trc.Base.{
  ◌+◌, Bool, true, ◌&&◌, ◌||◌, not, Option, none, some, List, [], ◌∷◌, if◌then◌else◌,
}
use convert_usdt_from_trc.Base.Int.{ℤ, pos, ◌+ℤ◌, ◌-ℤ◌, ◌*ℤ◌, ltb_ℤ, leb_ℤ}
use convert_usdt_from_trc.Base.Int64.{wrap64, signed_quot, signed_rem}
use convert_usdt_from_trc.Base.Text.{String, str_eq}
use convert_usdt_from_trc.Money.{Amount}

-- One direction's profit rule.
pub record Margin : Type 0 where
  pub profit_bps : ℤ
  pub min_profit : ℤ

pub record Config : Type 0 where
  pub profit_bps : ℤ
  pub min_profit : ℤ
  pub min_amount_in : ℤ
  pub max_amount_in : ℤ
  pub directions : List (String × Margin)

-- `c.Directions[direction]`, of a map.
abbrev lookup : String → List (String × Margin) → Option Margin
lookup d [] = none
lookup d ((k, m) ∷ rest) = if str_eq k d then some m else lookup d rest

abbrev with_margin : Config → Option Margin → Config
with_margin c none = c
with_margin c (some m) = record c { profit_bps = m.profit_bps; min_profit = m.min_profit }

unfoldable pub for_direction : Config → String → Config
for_direction c direction = with_margin c (lookup direction c.directions)

abbrev known_direction : String → Bool
known_direction d = str_eq d "TRC20_TO_BEP20" || str_eq d "BEP20_TO_TRC20"

-- profit_bps of 0 to 9999, and a min_profit from 0 to below the smallest deposit.
abbrev fair : ℤ → ℤ → ℤ → Bool
fair bps min_profit min_amount_in =
    not (ltb_ℤ bps (pos 0))
    && not (leb_ℤ (pos 10000) bps)
    && not (ltb_ℤ min_profit (pos 0))
    && not (leb_ℤ min_amount_in min_profit)

abbrev fair_directions : ℤ → List (String × Margin) → Bool
fair_directions min_amount_in [] = true
fair_directions min_amount_in ((d, m) ∷ rest) =
    known_direction d
    && fair m.profit_bps m.min_profit min_amount_in
    && fair_directions min_amount_in rest

-- Validate: every failure is ErrInvalid.
unfoldable pub valid_config : Config → Bool
valid_config c =
    fair c.profit_bps c.min_profit c.min_amount_in
    && not (leb_ℤ c.min_amount_in (pos 0))
    && not (ltb_ℤ c.max_amount_in c.min_amount_in)
    && fair_directions c.min_amount_in c.directions

-- The rate's part of the profit, in int64 arithmetic.
unfoldable pub rate_part : ℤ → ℤ → ℤ
rate_part bps received = wrap64 (
    wrap64 (signed_quot received 10000 *ℤ bps)
    +ℤ signed_quot (wrap64 (signed_rem received 10000 *ℤ bps)) 10000)

unfoldable pub profit : Config → ℤ → ℤ
profit c received =
    let p = rate_part c.profit_bps received in if ltb_ℤ p c.min_profit then c.min_profit else p

-- The profit and what is forwarded; `none` where nothing would be left.
unfoldable pub split : Config → Amount → Option (Amount × Amount)
split c received =
    let p = profit c received.units in
    if leb_ℤ received.units p
    then none
    else some
        (record received { units = p }, record received { units = wrap64 (received.units -ℤ p) })
