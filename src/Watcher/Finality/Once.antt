-- ===== src/Watcher/Finality/Once.antt =====
-- How often the tracker of depositwatcher/internal/finality/finality.go reports one deposit.
use convert_usdt_from_trc.Base.{ℕ, Option, none, some, List, [], ◌∷◌, All}
use convert_usdt_from_trc.Watcher.Candidates.{ObservedLog, Classification}
use convert_usdt_from_trc.Watcher.Finality.{
  Env, State, check_ready, check_stale_pending, check_post_final_reorgs, check_finality,
  check_finality_at, on_log_observed, restore,
}
use convert_usdt_from_trc.Watcher.Finality.Keys.{DistinctKeys}
use convert_usdt_from_trc.Watcher.Finality.Closing.{Inv, IsDurable}
use convert_usdt_from_trc.Watcher.Finality.Heights.{check_ready-Inv}
use convert_usdt_from_trc.Watcher.Finality.Recheck.{
  core-Inv, check_post_final_reorgs-SameCore, check_stale_pending-Inv,
}
use convert_usdt_from_trc.Watcher.Finality.Arrivals.{on_log_observed-Inv, restore-Inv}

check_finality-Inv :
    (env : Env) → IsDurable env → (s : State) → Inv s → Inv (check_finality env s).1
unfolding check_finality
check_finality-Inv env ok s i = at env.latest_finalized
  where
    at : (o : Option ℕ) → Inv (check_finality_at env o s).1
    at none = i
    at (some h) =
        let stale = check_stale_pending env s in
        let checked = check_ready env h stale in
        core-Inv checked (check_post_final_reorgs env checked)
          (check_post_final_reorgs-SameCore env checked)
          (check_ready-Inv env ok h stale (check_stale_pending-Inv env s i))

-- What happens to a watcher: a log arrives, the ticker fires, or the process starts again.
pub data Event : Type 0 where
  observed : ObservedLog → Classification → Event
  ticked restarted : Event

unfoldable pub run_event : Env → Event → State → State
run_event env (observed log cl) s = (on_log_observed env log cl s).1
run_event env ticked s = (check_finality env s).1
run_event env restarted s = (restore env (record s { pending = []; finalized = [] })).2

abbrev pub History : Type 0
History = List (Env × Event)

-- Events, the latest first.
unfoldable pub run_events : History → State → State
run_events [] s = s
run_events ((env, e) ∷ h) s = run_event env e (run_events h s)

abbrev pub started : State
started = record {
  pending = [];
  finalized = [];
  deposits = [];
  detected_total = 0;
  finalized_total = 0;
  reports = [];
  orphans = [];
  reorgs = [];
  stale_alerts = [];
}

-- With a store that takes its updates, every event keeps the tracked deposits open in the table, each once,
-- and the reported ones closed there, each reported once.
pub run_event-Inv :
    (env : Env) (e : Event) (s : State) → IsDurable env → Inv s → Inv (run_event env e s)
unfolding run_event
run_event-Inv env (observed log cl) s ok i = on_log_observed-Inv env ok log cl s i
run_event-Inv env ticked s ok i = check_finality-Inv env ok s i
run_event-Inv env restarted s ok i =
    restore-Inv env (record s { pending = []; finalized = [] })
      (record {
        pending_open = tt;
        pending_distinct = tt;
        reports_known = i.reports_known;
        reports_closed = i.reports_closed;
        reports_distinct = i.reports_distinct;
      })

run_events-Inv : (h : History) → All (λ e. IsDurable e.0) h → Inv (run_events h started)
unfolding run_events
run_events-Inv [] ok = record {
  pending_open = tt;
  pending_distinct = tt;
  reports_known = tt;
  reports_closed = tt;
  reports_distinct = tt;
}
run_events-Inv ((env, e) ∷ h) ok =
    run_event-Inv env e (run_events h started) ok.0 (run_events-Inv h ok.1)

-- With a store that takes its updates, whatever logs arrive and arrive again, whatever the providers answer
-- and however often the process starts again, no deposit is reported to the ledger twice.
pub reports_once :
    (h : History) → All (λ e. IsDurable e.0) h → DistinctKeys (run_events h started).reports
reports_once h ok = (run_events-Inv h ok).reports_distinct
