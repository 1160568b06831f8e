-- ===== src/Watcher/Finality/Arrivals.antt =====
-- How a deposit comes into the tracker of depositwatcher/internal/finality/finality.go: observed, or restored.
use convert_usdt_from_trc.Base.{
  ℕ, ◌≡◌, refl, sym, ◌∙◌, subst, true, false, ◌||◌, List, [], ◌∷◌, arith, Bool-cases, inl, inr, All,
  All-imp, All-zip, All-map, Option-cases, leb,
}
use convert_usdt_from_trc.Base.Table.{
  insert_by, order_by, find, exists, select, find-none, find-exists_and,
}
use convert_usdt_from_trc.Base.Text.{String}
use convert_usdt_from_trc.Watcher.Candidates.{
  Key, key_eq, key, ObservedLog, Classification, is_zero_value, Candidate, key_of, new_candidate,
}
use convert_usdt_from_trc.Watcher.Deposits.{
  candidate_of, Row, is_detected, has_key, new_deposit, load_detected, save,
}
use convert_usdt_from_trc.Watcher.Finality.{
  Env, State, has, on_log_observed, saved, restore, restore_each,
}
use convert_usdt_from_trc.Watcher.Finality.Keys.{key_eq-eq, key_eq_refl, is_open, AllOpen}
use convert_usdt_from_trc.Watcher.Finality.Closing.{Inv, IsDurable}

new_row-closed :
    (now : ℕ) (log : ObservedLog) (cl : Classification) (k : Key) (rows : List Row)
    → exists (has_key (key log)) rows ≡ false
    → exists (has_key k) rows ≡ true
    → is_open k rows ≡ false
    → is_open k (new_deposit now (new_candidate log cl now) ∷ rows) ≡ false
new_row-closed now log cl k rows unknown known closed = elim (Bool-cases (key_eq (key log) k)) [
  | inr other ↦ rw other closed
  | inl same ↦
      let there =
        subst (λ x. exists (has_key x) rows ≡ true) (sym (key_eq-eq (key log) k same)) known in
      let both = sym there ∙ unknown in cc
]

observed-Inv :
    (env : Env) (log : ObservedLog) (cl : Classification) (s : State)
    → exists (has (key log)) s.pending ≡ false
    → Inv s
    → Inv (saved env log cl s (save env.now (new_candidate log cl env.now) s.deposits))
unfolding save
observed-Inv env log cl s fresh i = elim (Option-cases (find (has_key (key log)) s.deposits)) [
  | inl new ↦
      let unknown = find-none (has_key (key log)) s.deposits new in
      rw new (record {
        pending_open = (
          rw (key_eq_refl (key log)) refl,
          All-imp _ _ s.pending (λ c o. rw o (ground arith)) i.pending_open,
        );
        pending_distinct = (fresh, i.pending_distinct);
        reports_known = All-imp _ _ s.reports (λ k h. rw h (ground arith)) i.reports_known;
        reports_closed =
            All-zip (λ k. exists (has_key k) s.deposits ≡ true) (λ k. is_open k s.deposits ≡ false)
              _ s.reports
              (λ k known closed. new_row-closed env.now log cl k s.deposits unknown known closed)
              i.reports_known i.reports_closed;
        reports_distinct = i.reports_distinct;
      })
  | inr (r, old) ↦ elim (Bool-cases (is_detected r.status)) [
    | inr done ↦ rw old (rw done i)
    | inl still ↦ rw old (
        rw still (record {
          pending_open = (
            find-exists_and (has_key (key log)) (λ x. is_detected x.status) s.deposits r old still,
            i.pending_open,
          );
          pending_distinct = (fresh, i.pending_distinct);
          reports_known = i.reports_known;
          reports_closed = i.reports_closed;
          reports_distinct = i.reports_distinct;
        }))
  ]
]

pub on_log_observed-Inv :
    (env : Env)
    → IsDurable env
    → (log : ObservedLog) (cl : Classification) (s : State) → Inv s
    → Inv (on_log_observed env log cl s).1
unfolding on_log_observed
on_log_observed-Inv env ok log cl s i =
    elim (Bool-cases (exists (has (key log)) s.finalized || exists (has (key log)) s.pending)) [
      | inl twice ↦ rw twice i
      | inr fresh ↦ elim (Bool-cases (is_zero_value cl)) [
        | inl zero ↦ rw fresh (rw zero i)
        | inr some_value ↦ elim (Bool-cases env.save_fails) [
          | inl fails ↦ rw fresh (rw some_value (rw ok.stored (rw fails i)))
          | inr saves ↦ rw fresh (
              rw some_value
                (rw ok.stored (rw saves (observed-Inv env log cl s (ground (arith, fresh)) i))))
        ]
      ]
    ]

-- What a restart loads is open.
selected-open :
    (rows : List Row)
    → All (λ r. is_open (key r.log) rows ≡ true) (select (λ r. is_detected r.status) rows)
selected-open [] = tt
selected-open (r ∷ rs) = elim (Bool-cases (is_detected r.status)) [
  | inl still ↦ rw still (
    rw (key_eq_refl (key r.log)) refl,
    All-imp _ _ _ (λ x o. rw o (ground arith)) (selected-open rs),
  )
  | inr done ↦ rw done (All-imp _ _ _ (λ x o. rw o (ground arith)) (selected-open rs))
]

All-insert_by :
    (Q : Row → Type 0) (rank : Row → ℕ) (r : Row) (rs : List Row)
    → Q r
    → All Q rs
    → All Q (insert_by rank r rs)
All-insert_by Q rank r [] q a = (q, tt)
All-insert_by Q rank r (x ∷ xs) q a = elim (Bool-cases (leb (rank r) (rank x))) [
  | inl le ↦ rw le (q, a)
  | inr gt ↦ rw gt (a.0, All-insert_by Q rank r xs q a.1)
]

All-order_by :
    (Q : Row → Type 0) (rank : Row → ℕ) (rs : List Row) → All Q rs → All Q (order_by rank rs)
unfolding order_by
All-order_by Q rank [] a = tt
All-order_by Q rank (r ∷ rs) a =
    All-insert_by Q rank r (order_by rank rs) a.0 (All-order_by Q rank rs a.1)

load_detected-AllOpen :
    (collation : String → ℕ) (rows : List Row) → AllOpen rows (load_detected collation rows)
unfolding load_detected
load_detected-AllOpen collation rows =
    All-map (λ c. is_open (key_of c) rows ≡ true) candidate_of _
      (All-order_by _ _ _ (All-order_by _ _ _ (All-order_by _ _ _ (selected-open rows))))

restore_each-Inv :
    (cs : List Candidate) (s : State) → AllOpen s.deposits cs → Inv s → Inv (restore_each cs s)
restore_each-Inv [] s a i = i
restore_each-Inv (c ∷ cs) s a i = elim (Bool-cases (exists (has (key_of c)) s.pending)) [
  | inl there ↦ rw there (restore_each-Inv cs s a.1 i)
  | inr new ↦ rw new (
      restore_each-Inv cs (record s { pending = c ∷ s.pending }) a.1
        (record {
          pending_open = (a.0, i.pending_open);
          pending_distinct = (new, i.pending_distinct);
          reports_known = i.reports_known;
          reports_closed = i.reports_closed;
          reports_distinct = i.reports_distinct;
        }))
]

pub restore-Inv : (env : Env) (s : State) → Inv s → Inv (restore env s).2
unfolding restore
restore-Inv env s i = elim (Bool-cases env.has_store) [
  | inr off ↦ rw off i
  | inl on ↦ elim (Bool-cases env.load_fails) [
    | inl fails ↦ rw on (rw fails i)
    | inr loads ↦ rw on (
        rw loads (
          restore_each-Inv (load_detected env.collation s.deposits) s
            (load_detected-AllOpen env.collation s.deposits) i))
  ]
]
