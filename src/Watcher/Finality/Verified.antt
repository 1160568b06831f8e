-- ===== src/Watcher/Finality/Verified.antt =====
-- Which deposits a tick of depositwatcher/internal/finality/finality.go reports to the ledger.
use convert_usdt_from_trc.Base.{
  ℕ, ◌≡◌, refl, sym, ap, ◌∙◌, subst, Bool, true, false, ◌||◌, not, Option, none, some, List, [],
  ◌∷◌, ◌==◌, if◌then◌else◌, arith, Bool-cases, inl, inr, ◌⊎◌, All, All-imp, ==_iff, leb,
}
use convert_usdt_from_trc.Base.Table.{exists, select}
use convert_usdt_from_trc.Base.Text.{String}
use convert_usdt_from_trc.Watcher.Candidates.{Key, key_eq, Candidate, key_of}
use convert_usdt_from_trc.Watcher.Deposits.{Status, reported, orphaned, dropped}
use convert_usdt_from_trc.Watcher.Finality.{
  Delivery, delivered, failed, refused, Env, State, record_status, drop, handle_unreportable,
  finalize, finalize_as, not_there, check_one, check_each, check_read, check_heights, heights,
  at_height, topics_for, check_ready, ready_candidates, check_stale_pending, check_finality,
  check_finality_at,
}
use convert_usdt_from_trc.Watcher.Finality.Keys.{key_eq_refl}
use convert_usdt_from_trc.Watcher.Finality.Heights.{All-select}
use convert_usdt_from_trc.Watcher.Finality.Recheck.{check_post_final_reorgs-SameCore}

module _ (env : Env) where
  -- A deposit at or below the final height, whose log the providers agree is at its height, and which the
  -- ledger took.
  pub record IsVerified (final_height : ℕ) (k : Key) : Type 0 where
    pub deposit : Candidate
    pub present : List Key
    pub topics : List String
    pub its_key : key_of deposit ≡ k
    pub final : leb deposit.log.height final_height ≡ true
    pub agreed : env.logs_at deposit.log.height topics ≡ some present
    pub there : exists (key_eq k) present ≡ true
    pub taken : env.on_final deposit ≡ delivered

  record_status-reports :
      (k : Key) (st : Status) (note : String) (s : State)
      → (record_status env k st note s).reports ≡ s.reports
  unfolding record_status
  record_status-reports k st note s =
      elim (Bool-cases (not env.has_store || env.set_status_fails k)) [
        | inl off ↦ rw off refl
        | inr on ↦ rw on refl
      ]

  orphan-reports :
      (c : Candidate) (note : String) (s : State)
      → (finalize_as env c (refused note) s).reports ≡ s.reports
  unfolding handle_unreportable drop
  orphan-reports c note s = elim (Bool-cases (env.record_orphan c)) [
    | inr off ↦ rw off refl
    | inl on ↦ rw on (
        record_status-reports (key_of c) orphaned note
          (record s { orphans = key_of c ∷ s.orphans }))
  ]

  finalize_as-reports :
      (c : Candidate) (d : Delivery) (s : State) (P : Key → Type 0)
      → All P s.reports
      → (d ≡ delivered → P (key_of c))
      → All P (finalize_as env c d s).reports
  finalize_as-reports c delivered s P a p =
      subst (All P)
        (sym (
          record_status-reports (key_of c) reported ""
            (record s { reports = key_of c ∷ s.reports })))
        (p refl, a)
  finalize_as-reports c (refused note) s P a p = subst (All P) (sym (orphan-reports c note s)) a
  finalize_as-reports c failed s P a p = a

  check_one-reports :
      (present : List Key) (c : Candidate) (s : State) (P : Key → Type 0)
      → All P s.reports
      → (exists (key_eq (key_of c)) present ≡ true → env.on_final c ≡ delivered → P (key_of c))
      → All P (check_one env present c s).reports
  unfolding finalize drop
  check_one-reports present c s P a j = split (exists (key_eq (key_of c)) present) refl
    where
      split :
          (b : Bool)
          → exists (key_eq (key_of c)) present ≡ b
          → All P
              (if b
                then finalize env c s
                else record_status env (key_of c) dropped not_there (drop (key_of c) s)).reports
      split true there = finalize_as-reports c (env.on_final c) s P a (j there)
      split false gone =
          subst (All P)
            (sym (record_status-reports (key_of c) dropped not_there (drop (key_of c) s))) a

  check_each-reports :
      (present : List Key) (cs : List Candidate) (s : State) (P : Key → Type 0)
      → All P s.reports
      → All
          (λ c.
            exists (key_eq (key_of c)) present ≡ true → env.on_final c ≡ delivered → P (key_of c))
          cs
      → All P (check_each env present cs s).reports
  check_each-reports present [] s P a j = a
  check_each-reports present (c ∷ cs) s P a j =
      check_each-reports present cs (check_one env present c s) P
        (check_one-reports present c s P a j.0) j.1

  check_heights-reports :
      (final_height : ℕ) (hs : List ℕ) (ready : List Candidate) (s : State) (P : Key → Type 0)
      → All (λ c. leb c.log.height final_height ≡ true) ready
      → ((k : Key) → IsVerified final_height k → P k)
      → All P s.reports
      → All P (check_heights env hs ready s).reports
  check_heights-reports final_height [] ready s P low v a = a
  check_heights-reports final_height (h ∷ hs) ready s P low v a =
      check_heights-reports final_height hs ready (check_read env read (at_height h ready) s) P low
        v (by_logs read refl)
    where
      read : Option (List Key)
      read = env.logs_at h (topics_for (at_height h ready))

      by_logs :
          (o : Option (List Key))
          → read ≡ o
          → All P (check_read env o (at_height h ready) s).reports
      by_logs none e = a
      by_logs (some present) e = check_each-reports present (at_height h ready) s P a (
          All-select (λ c. c.log.height == h)
            (λ c.
              exists (key_eq (key_of c)) present ≡ true → env.on_final c ≡ delivered → P (key_of c))
            ready
            (All-imp _ _ ready
              (λ c below at there taken. v (key_of c) (record {
                deposit = c;
                present = present;
                topics = topics_for (at_height h ready);
                its_key = refl;
                final = below;
                agreed =
                    ap (λ x. env.logs_at x (topics_for (at_height h ready)))
                      ((==_iff c.log.height h).0 at)
                    ∙ e;
                there = there;
                taken = taken;
              }))
              low))

  ready_low :
      (h : ℕ) (cs : List Candidate)
      → All (λ c. leb c.log.height h ≡ true) (select (λ c. leb c.log.height h) cs)
  ready_low h [] = tt
  ready_low h (c ∷ cs) = elim (Bool-cases (leb c.log.height h)) [
    | inl low ↦ rw low (low, ready_low h cs)
    | inr high ↦ rw high (ready_low h cs)
  ]

  check_ready-reports :
      (h : ℕ) (s : State) (P : Key → Type 0)
      → ((k : Key) → IsVerified h k → P k)
      → All P s.reports
      → All P (check_ready env h s).reports
  unfolding check_ready ready_candidates
  check_ready-reports h s P v a =
      check_heights-reports h (heights (ready_candidates h s)) (ready_candidates h s) s P
        (ready_low h s.pending) v a

-- What a report was made for, or that it was made before.
abbrev pub Accounted : Env → State → Key → Type 0
Accounted env s k =
    (exists (key_eq k) s.reports ≡ true)
    ⊎ ((h : ℕ) × (env.latest_finalized ≡ some h) × IsVerified env h k)

reported_before : (ks : List Key) → All (λ k. exists (key_eq k) ks ≡ true) ks
reported_before [] = tt
reported_before (k ∷ ks) =
    (rw (key_eq_refl k) refl, All-imp _ _ ks (λ x h. rw h (ground arith)) (reported_before ks))

-- Every deposit that a tick reports was final: the providers agreed on a finalized height, its own height is not
-- above it, its log is among those that they agree on at its height, and the ledger took it; all other
-- reports were there before.
pub check_finality-Accounted :
    (env : Env) (s : State) → All (Accounted env s) (check_finality env s).1.reports
unfolding check_finality check_stale_pending
check_finality-Accounted env s = at env.latest_finalized refl
  where
    stale-reports : (check_stale_pending env s).reports ≡ s.reports
    stale-reports = elim (Bool-cases env.alerts_stale) [
      | inl on ↦ rw on refl
      | inr off ↦ rw off refl
    ]

    at :
        (o : Option ℕ)
        → env.latest_finalized ≡ o
        → All (Accounted env s) (check_finality_at env o s).1.reports
    at none e = All-imp _ _ s.reports (λ k h. inl h) (reported_before s.reports)
    at (some h) e =
        let (p, d, same) =
          check_post_final_reorgs-SameCore env (check_ready env h (check_stale_pending env s)) in
        subst (All (Accounted env s)) (sym same) (
          check_ready-reports env h (check_stale_pending env s) (Accounted env s)
            (λ k v. inr (h, e, v))
            (subst (All (Accounted env s)) (sym stale-reports)
              (All-imp _ _ s.reports (λ k there. inl there) (reported_before s.reports))))
