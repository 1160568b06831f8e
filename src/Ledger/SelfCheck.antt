-- ===== src/Ledger/SelfCheck.antt =====
-- ledger/internal/recon/reconciler.go: one cycle of the self-check.
-- A failure to read is only logged; the map of the totals is a list.
pub mod Quiet
pub mod Halting
use convert_usdt_from_trc.Base.{
  Bool, true, false, not, Option, none, some, List, [], ◌∷◌, ◌++◌, if◌then◌else◌,
}
use convert_usdt_from_trc.Base.Int.{ℤ, ltb_ℤ, is_neg, is_zero}
use convert_usdt_from_trc.Base.Int64.{wrap_neg}
use convert_usdt_from_trc.Base.Table.{find}
use convert_usdt_from_trc.Base.Text.{String}
use convert_usdt_from_trc.Money.{Asset, Amount}
use convert_usdt_from_trc.Ledger.Rows.{World, Env, Discrepancy, text, int, discrepancies}
use convert_usdt_from_trc.Ledger.Monad.{Outcome, ok, err}
use convert_usdt_from_trc.Ledger.Halt.{
  SetParams, set, is_halted, reason_trial_balance_broken, reason_cache_divergence,
}
use convert_usdt_from_trc.Ledger.Orders.Reorg.{corridor_account_for}
use convert_usdt_from_trc.Ledger.Journal.Hash.{asset_text}
use convert_usdt_from_trc.Ledger.Journal.Balance.{balance, trial_balance, verify_balances}

-- A warning that a corridor account is beyond its ceiling.
pub record CeilingWarning : Type 0 where
  pub account : String
  pub magnitude_units : ℤ
  pub ceiling_units : ℤ

abbrev pub world_after : {A : Type 0} → Outcome A → World
world_after (ok a w) = w
world_after (err e w) = w

abbrev pub nonzero : Asset × ℤ → Bool
nonzero t = not (is_zero t.1)

abbrev pub trial_params : Asset × ℤ → SetParams
trial_params (a, total) = record {
  reason = reason_trial_balance_broken;
  detail = ("asset", text (asset_text a)) ∷ ("total_units", int total) ∷ [];
  actor = "recon:self_check";
}

-- The configured ceilings, a map.
module _ (env : Env) (ceilings : List (Asset × ℤ)) where
  abbrev pub cache_params : List Discrepancy → SetParams
  cache_params ds = record {
    reason = reason_cache_divergence;
    detail = ("discrepancies", discrepancies ds) ∷ [];
    actor = "recon:self_check";
  }

  abbrev pub judge_total : Option (Asset × ℤ) → World → Bool × World
  judge_total none w = (false, w)
  judge_total (some t) w = (true, world_after (set env (trial_params t) w))

  abbrev pub judge_totals : Outcome (List (Asset × ℤ)) → Bool × World
  judge_totals (ok totals w) = judge_total (find nonzero totals) w
  judge_totals (err e w) = (false, w)

  unfoldable pub check_trial_balance : World → Bool × World
  check_trial_balance w = judge_totals (trial_balance w)

  abbrev pub judge_cache : Outcome (List Discrepancy) → Bool × World
  judge_cache (ok [] w) = (false, w)
  judge_cache (ok (d ∷ ds) w) = (true, world_after (set env (cache_params (d ∷ ds)) w))
  judge_cache (err e w) = (false, w)

  unfoldable pub check_cache_divergence : World → Bool × World
  check_cache_divergence w = judge_cache (verify_balances w)

  abbrev magnitude : ℤ → ℤ
  magnitude u = if is_neg u then wrap_neg u else u

  abbrev ceiling_warning : Asset × ℤ → Outcome Amount → List CeilingWarning
  ceiling_warning (a, ceiling) (err e w) = []
  ceiling_warning (a, ceiling) (ok b w) =
      if ltb_ℤ ceiling (magnitude b.units)
      then record {
        account = corridor_account_for a;
        magnitude_units = magnitude b.units;
        ceiling_units = ceiling;
      }
        ∷ []
      else []

  abbrev ceiling_warnings : List (Asset × ℤ) → World → List CeilingWarning
  ceiling_warnings [] w = []
  ceiling_warnings (c ∷ cs) w =
      ceiling_warning c (balance (corridor_account_for c.0) w) ++ ceiling_warnings cs w

  unfoldable pub check_corridor_ceiling : World → List CeilingWarning
  check_corridor_ceiling w = ceiling_warnings ceilings w

  abbrev pub third : Bool × World → List CeilingWarning × World
  third (true, w) = ([], w)
  third (false, w) = (check_corridor_ceiling w, w)

  abbrev pub second : Bool × World → List CeilingWarning × World
  second (true, w) = ([], w)
  second (false, w) = third (check_cache_divergence w)

  abbrev pub checks : Outcome Bool → List CeilingWarning × World
  checks (err e w) = ([], w)
  checks (ok true w) = ([], w)
  checks (ok false w) = second (check_trial_balance w)

  -- RunOnce: the warnings, and the tables afterwards.
  unfoldable pub run_once : World → List CeilingWarning × World
  run_once w = checks (is_halted w)
