-- ===== src/Ledger/Tests/Snapshots.antt =====
-- A snapshot of an account that the ledger believes empty.
use convert_usdt_from_trc.Base.{refl, false, arith}
use convert_usdt_from_trc.Base.Int.{pos, ◌-ℤ◌}
use convert_usdt_from_trc.Base.Int64.{wrap64}
use convert_usdt_from_trc.Money.{usdt_bep20}
use convert_usdt_from_trc.Ledger.Rows.{Account, asset}
use convert_usdt_from_trc.Ledger.Monad.{Outcome}
use convert_usdt_from_trc.Ledger.Accounts.{get_by_code}
use convert_usdt_from_trc.Ledger.Halt.{set}
use convert_usdt_from_trc.Ledger.Journal.Hash.{asset_text}
use convert_usdt_from_trc.Ledger.Journal.Balance.{balance_as_of}
use convert_usdt_from_trc.Ledger.Snapshots.{
  SnapshotParams, SnapshotResult, validate_snapshot, tolerance_for, drift_of, abs_drift,
  drift_params, check_drift, ingest_snapshot,
}
use convert_usdt_from_trc.Ledger.Snapshots.Drift.{Decided, ingest_snapshot-Decided}
use convert_usdt_from_trc.Ledger.Tests.{env0, world0, world_of, value_of, account}

abbrev five : SnapshotParams
five = record {
  account_code = "asset:deposit:bsc";
  observed_units = pos 5;
  chain_ref = "block-1";
  watermark = pos 1;
  observed_at = 4000;
}

abbrev ingested : Outcome SnapshotResult
ingested = ingest_snapshot env0 (pos 100) five world0

abbrev result : SnapshotResult
result = value_of (record { drift_units = pos 0; halted = false }) ingested

-- The account of the snapshot.
abbrev deposits : Account
deposits = account 1 "asset:deposit:bsc" asset usdt_bep20

ingest_snapshot-Decided_example : Decided 100 five deposits result world0 (world_of ingested)
unfolding ingest_snapshot validate_snapshot get_by_code balance_as_of check_drift tolerance_for
    drift_of abs_drift drift_params set asset_text wrap64 ◌-ℤ◌
ingest_snapshot-Decided_example =
    ingest_snapshot-Decided env0 100 five deposits result world0 (world_of ingested) refl
      (omega arith) refl
