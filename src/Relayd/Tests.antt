-- ===== src/Relayd/Tests.antt =====
-- The relay service's pricing on concrete deposits.
mod Legs
use convert_usdt_from_trc.Base.{ℕ, ◌*◌, ◌/◌, ◌≡◌, refl, [], arith}
use convert_usdt_from_trc.Base.Int.{pos}
use convert_usdt_from_trc.Money.{Amount, usdt_bep20}
use convert_usdt_from_trc.Relayd.Pricing.{Config, valid_config, profit}
use convert_usdt_from_trc.Relayd.Pricing.Exact.{larger, profit_exact, SplitsWhole, split_whole}

-- A quarter of a percent, at least half a USDT, on deposits from 10 USDT on.
abbrev pub quarter : Config
quarter = record {
  profit_bps = pos 25;
  min_profit = pos 500000;
  min_amount_in = pos 10000000;
  max_amount_in = pos 10000000000;
  directions = [];
}

abbrev pub usdt : ℕ → Amount
usdt n = record { asset = usdt_bep20; units = pos n }

profit_exact_example : profit quarter (pos 999999999) ≡ pos (larger (25 * 999999999 / 10000) 500000)
unfolding valid_config
profit_exact_example = profit_exact quarter 999999999 refl (omega arith)

split_whole_example : SplitsWhole quarter (usdt 10000000)
unfolding valid_config
split_whole_example =
    split_whole quarter (usdt 10000000) refl (omega arith, omega arith) (omega arith)
