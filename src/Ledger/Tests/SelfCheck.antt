-- ===== src/Ledger/Tests/SelfCheck.antt =====
-- The self-check on sound books, and on books whose cache is ahead of the lines.
use convert_usdt_from_trc.Base.{◌≡◌, refl, [], ◌∷◌, List, true}
use convert_usdt_from_trc.Base.Int.{ℤ, pos, ◌-ℤ◌}
use convert_usdt_from_trc.Money.{Asset, usdt_bep20}
use convert_usdt_from_trc.Ledger.Rows.{World, Discrepancy}
use convert_usdt_from_trc.Ledger.Journal.Balance.{
  trial_balance, verify_balances, verify_rows, cached_units, order_rows, assets_of,
}
use convert_usdt_from_trc.Ledger.SelfCheck.{run_once}
use convert_usdt_from_trc.Ledger.SelfCheck.Quiet.{run_once-IsSound}
use convert_usdt_from_trc.Ledger.SelfCheck.Halting.{Judged, run_once-Judged}
use convert_usdt_from_trc.Ledger.Tests.{env0, world0, world0-IsSound}

abbrev ceilings0 : List (Asset × ℤ)
ceilings0 = (usdt_bep20, pos 1000) ∷ []

run_once-IsSound_example : (run_once env0 ceilings0 world0).1 ≡ world0
run_once-IsSound_example = run_once-IsSound env0 ceilings0 world0 world0-IsSound

abbrev ahead : World
ahead = record world0 {
  balances =
      record {
        account_id = 1;
        asset = usdt_bep20;
        balance_units = pos 5;
        last_entry_id = 1;
        updated_at = 0;
      }
      ∷ [];
}

abbrev gap : Discrepancy
gap = record {
  account_id = 1;
  account_code = "asset:deposit:bsc";
  asset = usdt_bep20;
  cached_units = pos 5;
  computed_units = pos 0;
}

run_once-Judged_example : Judged true ahead (run_once env0 ceilings0 ahead).1
unfolding trial_balance assets_of verify_balances verify_rows cached_units order_rows ◌-ℤ◌
run_once-Judged_example = run_once-Judged env0 ceilings0 ahead [] (gap ∷ []) refl refl refl
