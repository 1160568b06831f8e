-- ===== src/Watcher/Tests/Orphans.antt =====
-- An orphaned deposit that is recorded twice and resolved.
use convert_usdt_from_trc.Base.{◌≡◌, refl, [], ◌∷◌}
use convert_usdt_from_trc.Base.Int.{pos}
use convert_usdt_from_trc.Base.Action.{ok, err}
use convert_usdt_from_trc.Watcher.Orphaned.{
  Report, Orphans, already_resolved, new_orphan, record_orphan, resolved, resolve,
}
use convert_usdt_from_trc.Watcher.Orphaned.Once.{resolve_once, record_orphan-record_orphan}

abbrev late : Report
late = record {
  order_id = 7;
  external_id = "order-7";
  tx_hash = "0xaa";
  log_index = 3;
  amount = pos 20000000;
  detected_at = 1000;
  order_state_at_detection = "expired";
  address = "0xd";
}

abbrev nothing_yet : Orphans
nothing_yet = record { rows = []; next_id = 1 }

abbrev recorded : Orphans
recorded = record { rows = new_orphan 1 late ∷ []; next_id = 2 }

abbrev refunded : Orphans
refunded = record {
  rows = resolved 2000 "refunded" "operator" (new_orphan 1 late) ∷ [];
  next_id = 2;
}

record_orphan-record_orphan_example :
    record_orphan (record late { order_state_at_detection = "unknown" }) recorded ≡ ok tt recorded
unfolding record_orphan
record_orphan-record_orphan_example =
    record_orphan-record_orphan late (record late { order_state_at_detection = "unknown" })
      nothing_yet recorded refl refl refl

resolve_once_example : resolve 3000 1 "kept" "another" refunded ≡ err already_resolved refunded
unfolding resolve
resolve_once_example =
    resolve_once 2000 3000 1 "refunded" "operator" "kept" "another"
      (resolved 2000 "refunded" "operator" (new_orphan 1 late)) recorded refunded refl
