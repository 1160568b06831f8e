-- ===== src/Watcher/Finality.antt =====
-- depositwatcher/internal/finality/finality.go, Design A: the tracker of deposits.
-- A map is a list of candidates, in some order of its iteration; the log entries of a call are kept in the
-- lists of State beside the tracker.
pub mod Keys
pub mod Closing
pub mod Heights
pub mod Recheck
pub mod Arrivals
pub mod Once
pub mod Verified
pub mod Progress
use convert_usdt_from_trc.Base.{
  ℕ, ◌+◌, ◌-◌, Bool, true, false, ◌&&◌, ◌||◌, not, Option, none, some, List, [], ◌∷◌, ◌++◌, map,
  ◌==◌, leb, ltb, if◌then◌else◌, length,
}
use convert_usdt_from_trc.Base.Table.{exists, select, update}
use convert_usdt_from_trc.Base.Text.{String, str_eq}
use convert_usdt_from_trc.Watcher.Candidates.{
  Key, key_eq, ObservedLog, key, Candidate, key_of, Classification, is_zero_value, new_candidate,
}
use convert_usdt_from_trc.Watcher.Deposits.{
  Status, Row, is_detected, reported, orphaned, dropped, save, set_status, load_detected,
}

-- What OnFinal returns: nothing, an error that wraps ErrPermanentFailure, with its text, or another one.
pub data Delivery : Type 0 where
  delivered failed : Delivery
  refused : String → Delivery

-- One call's surroundings: the configuration, the clock, which is read once, and what the calls outside return in it.
pub record Env : Type 0 where
  pub has_store : Bool
  pub alerts_stale : Bool
  pub stale_ceiling : ℕ
  pub now : ℕ
  pub collation : String → ℕ
  pub latest_finalized : Option ℕ
  pub logs_at : ℕ → List String → Option (List Key)
  pub on_final : Candidate → Delivery
  pub record_orphan : Candidate → Bool
  pub report_reorg : Candidate → Bool
  pub save_fails : Bool
  pub load_fails : Bool
  pub set_status_fails : Key → Bool

-- The tracker's two maps, the deposits table, the two counters, and the keys of the reports that were made.
pub record State : Type 0 where
  pub pending : List Candidate
  pub finalized : List Candidate
  pub deposits : List Row
  pub detected_total : ℕ
  pub finalized_total : ℕ
  pub reports : List Key
  pub orphans : List Key
  pub reorgs : List Key
  pub stale_alerts : List Key

pub data Error : Type 0 where
  saving_failed loading_failed withheld : Error

abbrev pub has : Key → Candidate → Bool
has k c = key_eq (key_of c) k

abbrev pub remove : Key → List Candidate → List Candidate
remove k cs = select (λ c. not (has k c)) cs

-- finalizedRetention, in nanoseconds.
abbrev pub finalized_retention : ℕ
finalized_retention = 600000000000

-- topicsFor: the wallets that a query is scoped to, or none of them.
unfoldable pub topics_for : List Candidate → List String
topics_for cs = if exists (λ c. str_eq c.log.address "") cs then [] else map (λ c. c.log.address) cs

unfoldable pub ready_candidates : ℕ → State → List Candidate
ready_candidates final_height s = select (λ c. leb c.log.height final_height) s.pending

unfoldable pub drop : Key → State → State
drop k s = record s { pending = remove k s.pending }

abbrev pub not_there : String
not_there = "no longer present at its height before finality (pre-final reorg)"

abbrev pub at_height : ℕ → List Candidate → List Candidate
at_height h cs = select (λ c. c.log.height == h) cs

-- The keys of byHeight.
abbrev pub heights : List Candidate → List ℕ
heights [] = []
heights (c ∷ cs) =
    let rest = heights cs in
    if exists (λ h. c.log.height == h) rest then rest else c.log.height ∷ rest

abbrev pub contradict : Key → List Candidate → List Candidate
contradict k cs = update (has k) (λ c. record c { contradicted = true }) cs

abbrev pub restore_each : List Candidate → State → State
restore_each [] s = s
restore_each (c ∷ cs) s =
    restore_each cs
      (if exists (has (key_of c)) s.pending then s else record s { pending = c ∷ s.pending })

module _ (env : Env) where
  abbrev track : ObservedLog → Classification → State → State
  track log classification s = record s {
    pending = new_candidate log classification env.now ∷ s.pending;
    detected_total = s.detected_total + 1;
  }

  abbrev pub saved : ObservedLog → Classification → State → List Row × Bool × Status → State
  saved log classification s (rows, known, status) =
      if known && not (is_detected status)
      then record s { deposits = rows }
      else track log classification (record s { deposits = rows })

  unfoldable pub on_log_observed : ObservedLog → Classification → State → Option Error × State
  on_log_observed log classification s =
      if exists (has (key log)) s.finalized || exists (has (key log)) s.pending
      then (none, s)
      else if is_zero_value classification
      then (none, s)
      else if not env.has_store
      then (none, track log classification s)
      else if env.save_fails
      then (some saving_failed, s)
      else (
        none,
        saved log classification s
            (save env.now (new_candidate log classification env.now) s.deposits),
      )

  unfoldable pub restore : State → Option Error × ℕ × State
  restore s =
      if not env.has_store
      then (none, 0, s)
      else if env.load_fails
      then (some loading_failed, 0, s)
      else (
        none,
        length (load_detected env.collation s.deposits),
        restore_each (load_detected env.collation s.deposits) s,
      )

  -- setStatus: a failure is only logged.
  unfoldable pub record_status : Key → Status → String → State → State
  record_status k status note s =
      if not env.has_store || env.set_status_fails k
      then s
      else record s { deposits = set_status k status note s.deposits }

  abbrev pub is_stale : Candidate → Bool
  is_stale c = not c.alerted_stale && ltb env.stale_ceiling (env.now - c.detected_at)

  unfoldable pub check_stale_pending : State → State
  check_stale_pending s =
      if env.alerts_stale
      then record s {
        pending = update is_stale (λ c. record c { alerted_stale = true }) s.pending;
        stale_alerts = map key_of (select is_stale s.pending) ++ s.stale_alerts;
      }
      else s

  -- HandleUnreportable, and whether the deposit was recorded.
  unfoldable pub handle_unreportable : Candidate → State → Bool × State
  handle_unreportable c s =
      if env.record_orphan c
      then (true, record s { orphans = key_of c ∷ s.orphans })
      else (false, s)

  abbrev pub after_delivery : Candidate → State → State
  after_delivery c s = record s {
    finalized = record c { finalized_at = some env.now } ∷ remove (key_of c) s.finalized;
    pending = remove (key_of c) s.pending;
    finalized_total = s.finalized_total + 1;
  }

  abbrev after_orphan : Candidate → String → Bool × State → State
  after_orphan c note (true, s) = drop (key_of c) (record_status (key_of c) orphaned note s)
  after_orphan c note (false, s) = s

  abbrev pub finalize_as : Candidate → Delivery → State → State
  finalize_as c delivered s =
      after_delivery c
        (record_status (key_of c) reported "" (record s { reports = key_of c ∷ s.reports }))
  finalize_as c (refused note) s = after_orphan c note (handle_unreportable c s)
  finalize_as c failed s = s

  unfoldable pub finalize : Candidate → State → State
  finalize c s = finalize_as c (env.on_final c) s

  abbrev pub check_one : List Key → Candidate → State → State
  check_one present c s =
      if exists (key_eq (key_of c)) present
      then finalize c s
      else record_status (key_of c) dropped not_there (drop (key_of c) s)

  -- The candidates of one height, after the logs there were read.
  abbrev pub check_each : List Key → List Candidate → State → State
  check_each present [] s = s
  check_each present (c ∷ cs) s = check_each present cs (check_one present c s)

  abbrev pub check_read : Option (List Key) → List Candidate → State → State
  check_read none cs s = s
  check_read (some present) cs s = check_each present cs s

  abbrev pub check_heights : List ℕ → List Candidate → State → State
  check_heights [] ready s = s
  check_heights (h ∷ hs) ready s =
      check_heights hs ready
        (check_read (env.logs_at h (topics_for (at_height h ready))) (at_height h ready) s)

  unfoldable pub handle_post_final_reorg : Candidate → State → State
  handle_post_final_reorg c s =
      if env.report_reorg c
      then record s { finalized = remove (key_of c) s.finalized; reorgs = key_of c ∷ s.reorgs }
      else record s { finalized = contradict (key_of c) s.finalized }

  abbrev pub recheck_one : List Key → Candidate → State → State
  recheck_one present c s =
      if exists (key_eq (key_of c)) present then s else handle_post_final_reorg c s

  abbrev pub recheck_each : List Key → List Candidate → State → State
  recheck_each present [] s = s
  recheck_each present (c ∷ cs) s = recheck_each present cs (recheck_one present c s)

  abbrev pub recheck_read : Option (List Key) → List Candidate → State → State
  recheck_read none cs s = s
  recheck_read (some present) cs s = recheck_each present cs s

  abbrev pub recheck_heights : List ℕ → List Candidate → State → State
  recheck_heights [] cs s = s
  recheck_heights (h ∷ hs) cs s =
      recheck_heights hs cs
        (recheck_read (env.logs_at h (topics_for (at_height h cs))) (at_height h cs) s)

  abbrev pub forgotten : Option ℕ → Bool
  forgotten none = false
  forgotten (some at) = ltb finalized_retention (env.now - at)

  unfoldable pub check_post_final_reorgs : State → State
  check_post_final_reorgs s =
      let kept = select (λ c. not (forgotten c.finalized_at)) s.finalized in
      recheck_heights (heights kept) kept (record s { finalized = kept })

  unfoldable pub check_ready : ℕ → State → State
  check_ready final_height s =
      let ready = ready_candidates final_height s in check_heights (heights ready) ready s

  abbrev pub check_finality_at : Option ℕ → State → Option Error × State
  check_finality_at none s = (some withheld, s)
  check_finality_at (some h) s =
      (none, check_post_final_reorgs (check_ready h (check_stale_pending s)))

  unfoldable pub check_finality : State → Option Error × State
  check_finality s = check_finality_at env.latest_finalized s

unfoldable pub pending_count : State → ℕ
pending_count s = length s.pending

unfoldable pub finalized_count : State → ℕ
finalized_count s = length s.finalized

abbrev oldest_of : List Candidate → Option ℕ → Option ℕ
oldest_of [] found = found
oldest_of (c ∷ cs) none = oldest_of cs (some c.detected_at)
oldest_of (c ∷ cs) (some at) =
    oldest_of cs (some (if ltb c.detected_at at then c.detected_at else at))

unfoldable pub oldest_pending_detected_at : State → Option ℕ
oldest_pending_detected_at s = oldest_of s.pending none
