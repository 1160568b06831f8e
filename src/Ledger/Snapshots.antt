-- ===== src/Ledger/Snapshots.antt =====
-- ledger/internal/recon/snapshot.go: what a chain holds, against what the ledger says it holds.
pub mod Drift
use convert_usdt_from_trc.Base.{ℕ, Bool, true, false, [], ◌∷◌, ◌==◌, if◌then◌else◌}
use convert_usdt_from_trc.Base.Int.{ℤ, pos, ◌-ℤ◌, pos_part, leb_ℤ, is_neg}
use convert_usdt_from_trc.Base.Int64.{wrap64, wrap_neg}
use convert_usdt_from_trc.Base.Text.{String, str_eq}
use convert_usdt_from_trc.Money.{Asset, trx, asset_eq}
use convert_usdt_from_trc.Ledger.Rows.{
  Env, Account, SnapshotRow, text, int, invalid_snapshot_params,
}
use convert_usdt_from_trc.Ledger.Monad.{ok, M, ◌>>=◌, ◌>>◌, pure, raise_if, modify}
use convert_usdt_from_trc.Ledger.Accounts.{get_by_code}
use convert_usdt_from_trc.Ledger.Halt.{SetParams, set, reason_balance_drift}
use convert_usdt_from_trc.Ledger.Journal.Hash.{asset_text}
use convert_usdt_from_trc.Ledger.Journal.Balance.{balance_as_of}

pub record SnapshotParams : Type 0 where
  pub account_code : String
  pub observed_units : ℤ
  pub chain_ref : String
  pub watermark : ℤ
  pub observed_at : ℕ

pub record SnapshotResult : Type 0 where
  pub drift_units : ℤ
  pub halted : Bool

unfoldable pub validate_snapshot : SnapshotParams → M (Unit {0})
validate_snapshot p = do
  raise_if (str_eq p.account_code "") invalid_snapshot_params
  raise_if (str_eq p.chain_ref "") invalid_snapshot_params
  raise_if (leb_ℤ p.watermark (pos 0)) invalid_snapshot_params
  raise_if (p.observed_at == 0) invalid_snapshot_params

-- Config.toleranceFor, of the configured tolerance for TRX.
unfoldable pub tolerance_for : ℤ → Asset → ℤ
tolerance_for trx_tolerance_units a = if asset_eq a trx then trx_tolerance_units else pos 0

-- The drift and its absolute value, in unchecked int64 arithmetic.
unfoldable pub drift_of : ℤ → ℤ → ℤ
drift_of observed ledger = wrap64 (observed -ℤ ledger)

unfoldable pub abs_drift : ℤ → ℤ
abs_drift d = if is_neg d then wrap_neg d else d

abbrev pub snapshot_row : SnapshotParams → Account → ℤ → ℤ → SnapshotRow
snapshot_row p acc ledger drift = record {
  account_id = acc.id;
  asset = acc.asset;
  observed_units = p.observed_units;
  chain_ref = p.chain_ref;
  ledger_units = ledger;
  watermark = pos_part p.watermark;
  drift_units = drift;
  observed_at = p.observed_at;
}

unfoldable pub drift_params : SnapshotParams → Account → ℤ → ℤ → SetParams
drift_params p acc ledger drift = record {
  reason = reason_balance_drift;
  detail =
      ("account_code", text p.account_code)
      ∷ ("asset", text (asset_text acc.asset))
      ∷ ("observed_units", int p.observed_units)
      ∷ ("ledger_units", int ledger)
      ∷ ("drift_units", int drift)
      ∷ ("watermark", int p.watermark)
      ∷ ("chain_ref", text p.chain_ref)
      ∷ [];
  actor = "recon:snapshot_ingestion";
}

module _ (env : Env) (trx_tolerance_units : ℤ) where
  -- From the comparison with the tolerance on.
  unfoldable pub check_drift : SnapshotParams → Account → ℤ → ℤ → M SnapshotResult
  check_drift p acc ledger drift w =
      if leb_ℤ (abs_drift drift) (tolerance_for trx_tolerance_units acc.asset)
      then ok (record { drift_units = drift; halted = false }) w
      else (set env (drift_params p acc ledger drift)
            >> pure (record { drift_units = drift; halted = true }))
          w

  -- IngestSnapshot.
  unfoldable pub ingest_snapshot : SnapshotParams → M SnapshotResult
  ingest_snapshot p = do
    validate_snapshot p
    acc ← get_by_code p.account_code
    ledger_amount ← balance_as_of p.account_code (pos_part p.watermark)
    let drift = drift_of p.observed_units ledger_amount.units
    modify
        (λ w. record w { snapshots = snapshot_row p acc ledger_amount.units drift ∷ w.snapshots })
    check_drift p acc ledger_amount.units drift
