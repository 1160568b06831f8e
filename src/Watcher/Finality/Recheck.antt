-- ===== src/Watcher/Finality/Recheck.antt =====
-- The checks of depositwatcher/internal/finality/finality.go that close no deposit: stale ones, and those that
-- are final already.
use convert_usdt_from_trc.Base.{
  ℕ, ◌≡◌, refl, ap, ◌∙◌, true, not, Option, none, some, List, [], ◌∷◌, if◌then◌else◌, Bool-cases,
  inl, inr,
}
use convert_usdt_from_trc.Base.Table.{exists, select, update}
use convert_usdt_from_trc.Watcher.Candidates.{Key, key_eq, Candidate, key_of}
use convert_usdt_from_trc.Watcher.Deposits.{Row}
use convert_usdt_from_trc.Watcher.Finality.{
  forgotten, Env, State, has, heights, at_height, topics_for, check_stale_pending, is_stale,
  recheck_each, recheck_read, recheck_heights, recheck_one, handle_post_final_reorg,
  check_post_final_reorgs,
}
use convert_usdt_from_trc.Watcher.Finality.Keys.{IsDistinct, AllOpen}
use convert_usdt_from_trc.Watcher.Finality.Closing.{Inv}

-- A step that only touches what the tracker remembers of finalized deposits.
abbrev pub SameCore : State → State → Type 0
SameCore s s' = (s'.pending ≡ s.pending) × (s'.deposits ≡ s.deposits) × (s'.reports ≡ s.reports)

core_trans : (s t u : State) → SameCore s t → SameCore t u → SameCore s u
core_trans s t u (p, d, r) (p', d', r') = (p' ∙ p, d' ∙ d, r' ∙ r)

pub core-Inv : (s s' : State) → SameCore s s' → Inv s → Inv s'
core-Inv s s' (p, d, r) i = record {
  pending_open = rw p (rw d i.pending_open);
  pending_distinct = rw p i.pending_distinct;
  reports_known = rw r (rw d i.reports_known);
  reports_closed = rw r (rw d i.reports_closed);
  reports_distinct = rw r i.reports_distinct;
}

module _ (env : Env) where
  reorg-SameCore : (c : Candidate) (s : State) → SameCore s (handle_post_final_reorg env c s)
  unfolding handle_post_final_reorg
  reorg-SameCore c s = elim (Bool-cases (env.report_reorg c)) [
    | inl done ↦ rw done (refl, refl, refl)
    | inr later ↦ rw later (refl, refl, refl)
  ]

  recheck_one-SameCore :
      (present : List Key) (c : Candidate) (s : State) → SameCore s (recheck_one env present c s)
  recheck_one-SameCore present c s = elim (Bool-cases (exists (key_eq (key_of c)) present)) [
    | inl there ↦ rw there (refl, refl, refl)
    | inr gone ↦ rw gone (reorg-SameCore c s)
  ]

  recheck_each-SameCore :
      (present : List Key) (cs : List Candidate) (s : State)
      → SameCore s (recheck_each env present cs s)
  recheck_each-SameCore present [] s = (refl, refl, refl)
  recheck_each-SameCore present (c ∷ cs) s =
      core_trans s (recheck_one env present c s) (recheck_each env present (c ∷ cs) s)
        (recheck_one-SameCore present c s)
        (recheck_each-SameCore present cs (recheck_one env present c s))

  recheck_read-SameCore :
      (o : Option (List Key)) (cs : List Candidate) (s : State)
      → SameCore s (recheck_read env o cs s)
  recheck_read-SameCore none cs s = (refl, refl, refl)
  recheck_read-SameCore (some present) cs s = recheck_each-SameCore present cs s

  recheck_heights-SameCore :
      (hs : List ℕ) (cs : List Candidate) (s : State) → SameCore s (recheck_heights env hs cs s)
  recheck_heights-SameCore [] cs s = (refl, refl, refl)
  recheck_heights-SameCore (h ∷ hs) cs s =
      let read = env.logs_at h (topics_for (at_height h cs)) in
      core_trans s (recheck_read env read (at_height h cs) s) (recheck_heights env (h ∷ hs) cs s)
        (recheck_read-SameCore read (at_height h cs) s)
        (recheck_heights-SameCore hs cs (recheck_read env read (at_height h cs) s))

  pub check_post_final_reorgs-SameCore : (s : State) → SameCore s (check_post_final_reorgs env s)
  unfolding check_post_final_reorgs
  check_post_final_reorgs-SameCore s =
      let kept = select (λ c. not (forgotten env c.finalized_at)) s.finalized in
      recheck_heights-SameCore (heights kept) kept (record s { finalized = kept })

  absent-alerted :
      (k : Key) (cs : List Candidate)
      → exists (has k) (update (is_stale env) (λ c. record c { alerted_stale = true }) cs)
        ≡ exists (has k) cs
  absent-alerted k [] = refl
  absent-alerted k (c ∷ cs) = elim (Bool-cases (is_stale env c)) [
    | inl on ↦ rw on (ap (λ t. if has k c then true else t) (absent-alerted k cs))
    | inr off ↦ rw off (ap (λ t. if has k c then true else t) (absent-alerted k cs))
  ]

  alerted-IsDistinct :
      (cs : List Candidate)
      → IsDistinct cs
      → IsDistinct (update (is_stale env) (λ c. record c { alerted_stale = true }) cs)
  alerted-IsDistinct [] d = tt
  alerted-IsDistinct (c ∷ cs) d = elim (Bool-cases (is_stale env c)) [
    | inl on ↦ rw on (absent-alerted (key_of c) cs ∙ d.0, alerted-IsDistinct cs d.1)
    | inr off ↦ rw off (absent-alerted (key_of c) cs ∙ d.0, alerted-IsDistinct cs d.1)
  ]

  alerted-AllOpen :
      (rows : List Row) (cs : List Candidate)
      → AllOpen rows cs
      → AllOpen rows (update (is_stale env) (λ c. record c { alerted_stale = true }) cs)
  alerted-AllOpen rows [] a = tt
  alerted-AllOpen rows (c ∷ cs) a = elim (Bool-cases (is_stale env c)) [
    | inl on ↦ rw on (a.0, alerted-AllOpen rows cs a.1)
    | inr off ↦ rw off (a.0, alerted-AllOpen rows cs a.1)
  ]

  pub check_stale_pending-Inv : (s : State) → Inv s → Inv (check_stale_pending env s)
  unfolding check_stale_pending
  check_stale_pending-Inv s i = elim (Bool-cases env.alerts_stale) [
    | inr off ↦ rw off i
    | inl on ↦ rw on (record {
      pending_open = alerted-AllOpen s.deposits s.pending i.pending_open;
      pending_distinct = alerted-IsDistinct s.pending i.pending_distinct;
      reports_known = i.reports_known;
      reports_closed = i.reports_closed;
      reports_distinct = i.reports_distinct;
    })
  ]
