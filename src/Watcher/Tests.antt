-- ===== src/Watcher/Tests.antt =====
-- The deposit watcher on concrete deposits.
mod Votes
mod Orphans
use convert_usdt_from_trc.Base.{
  ℕ, ◌≡◌, refl, true, false, some, List, [], ◌∷◌, Option, leb, inl, All,
}
use convert_usdt_from_trc.Base.Int.{pos}
use convert_usdt_from_trc.Base.Text.{String}
use convert_usdt_from_trc.Watcher.Candidates.{Key, ObservedLog, exact, new_candidate}
use convert_usdt_from_trc.Base.Table.{order_by}
use convert_usdt_from_trc.Watcher.Deposits.{save, set_status, load_detected}
use convert_usdt_from_trc.Watcher.Finality.{
  Env, State, delivered, on_log_observed, restore, check_finality, check_stale_pending, check_ready,
  ready_candidates, topics_for, finalize, record_status, check_post_final_reorgs,
}
use convert_usdt_from_trc.Watcher.Finality.Keys.{DistinctKeys}
use convert_usdt_from_trc.Watcher.Finality.Closing.{IsDurable, Inv}
use convert_usdt_from_trc.Watcher.Finality.Once.{
  observed, ticked, restarted, History, run_event, run_events, started, run_event-Inv, reports_once,
}
use convert_usdt_from_trc.Watcher.Finality.Verified.{Accounted, check_finality-Accounted}
use convert_usdt_from_trc.Watcher.Finality.Progress.{check_finality-leaves}

abbrev log1 : ObservedLog
log1 = record {
  tx_hash = "0xaa";
  log_index = 3;
  height = 90;
  block_time = 1000;
  order_id = 7;
  external_id = "order-7";
  customer_id = "c1";
  amount = pos 20000000;
  sender_address = "0x1";
  address = "0xd";
}

abbrev key1 : Key
key1 = record { tx_hash = "0xaa"; log_index = 3 }

abbrev rank0 : String → ℕ
rank0 s = 0

abbrev answer1 : ℕ → List String → Option (List Key)
answer1 h ts = some (key1 ∷ [])

-- The providers agree on height 100, and on one log; the ledger takes every report.
abbrev env1 : Env
env1 = record {
  has_store = true;
  alerts_stale = true;
  stale_ceiling = 300000000000;
  now = 2000;
  collation = rank0;
  latest_finalized = some 100;
  logs_at = answer1;
  on_final = λ c. delivered;
  record_orphan = λ c. true;
  report_reorg = λ c. true;
  save_fails = false;
  load_fails = false;
  set_status_fails = λ k. false;
}

env1-IsDurable : IsDurable env1
env1-IsDurable = record { stored = refl; written = λ k. refl }

-- Seen twice, reported, seen again after a restart.
abbrev busy : History
busy =
    (env1, ticked)
    ∷ (env1, observed log1 exact)
    ∷ (env1, restarted)
    ∷ (env1, ticked)
    ∷ (env1, observed log1 exact)
    ∷ (env1, observed log1 exact)
    ∷ []

reports_once_example : DistinctKeys (run_events busy started).reports
reports_once_example = reports_once busy (
  env1-IsDurable,
  (env1-IsDurable, (env1-IsDurable, (env1-IsDurable, (env1-IsDurable, (env1-IsDurable, tt))))),
)

-- Only the first tick reports it.
busy_reports : (run_events busy started).reports ≡ key1 ∷ []
unfolding run_events run_event on_log_observed save restore load_detected order_by check_finality
    check_stale_pending check_ready ready_candidates topics_for finalize record_status set_status
    check_post_final_reorgs
busy_reports = refl

-- Without a store, a deposit that is seen again after it was forgotten is reported again.
abbrev forgetful : ℕ → Env
forgetful now = record env1 { has_store = false; now = now }

reported_twice :
    (run_events
      ((forgetful 700000000000, ticked)
        ∷ (forgetful 700000000000, observed log1 exact)
        ∷ (forgetful 700000000000, ticked)
        ∷ (forgetful 2000, ticked)
        ∷ (forgetful 2000, observed log1 exact)
        ∷ [])
      started).reports
    ≡ key1 ∷ key1 ∷ []
unfolding run_events run_event on_log_observed check_finality check_stale_pending check_ready
    ready_candidates topics_for finalize record_status check_post_final_reorgs
reported_twice = refl

abbrev tracked : State
tracked = record started { pending = new_candidate log1 exact 1500 ∷ [] }

check_finality-Accounted_example :
    All (Accounted env1 tracked) (check_finality env1 tracked).1.reports
check_finality-Accounted_example = check_finality-Accounted env1 tracked

check_finality-leaves_example :
    All (λ c. leb c.log.height 100 ≡ false) (check_finality env1 tracked).1.pending
check_finality-leaves_example =
    check_finality-leaves env1 100 tracked refl (λ x ts. (key1 ∷ [], refl)) (λ c. inl refl)

run_event-Inv_example : Inv (run_event env1 (observed log1 exact) started)
run_event-Inv_example = run_event-Inv env1 (observed log1 exact) started env1-IsDurable (record {
  pending_open = tt;
  pending_distinct = tt;
  reports_known = tt;
  reports_closed = tt;
  reports_distinct = tt;
})
