-- ===== src/Watcher/Orphaned/Once.antt =====
-- An orphaned deposit of depositwatcher/internal/orphaned/orphaned.go is recorded once and resolved once.
use convert_usdt_from_trc.Base.{
  ℕ, ◌+◌, ◌≡◌, refl, ap, ◌∙◌, subst, true, false, ◌&&◌, Option, none, some, List, [], ◌∷◌, ◌==◌,
  arith, Bool-cases, Option-cases, inl, inr, ==_iff,
}
use convert_usdt_from_trc.Base.Action.{ok, err, state_of, or_raise, raise, ◌>>=◌}
use convert_usdt_from_trc.Base.Table.{find, exists, update, find-exists, exists-find}
use convert_usdt_from_trc.Base.Text.{String, str_eq, eq_refl}
use convert_usdt_from_trc.Watcher.Orphaned.{
  Report, Deposit, Orphans, not_found, already_resolved, same_log, new_orphan, record_orphan,
  with_id, get_orphan, unresolved, resolved, resolve,
}

none-unresolved :
    (id now : ℕ) (r by : String) (ds : List Deposit)
    → find (unresolved id) (update (unresolved id) (resolved now r by) ds) ≡ none
none-unresolved id now r by [] = refl
none-unresolved id now r by (d ∷ ds) = elim (Bool-cases (unresolved id d)) [
  | inl hit ↦
      let gone : unresolved id (resolved now r by d) ≡ false = ground arith in
      rw hit (rw gone (none-unresolved id now r by ds))
  | inr miss ↦ rw miss (rw miss (none-unresolved id now r by ds))
]

-- Where one is unresolved, one is there, before and after.
still_there :
    (id now : ℕ) (r by : String) (ds : List Deposit)
    → exists (unresolved id) ds ≡ true
    → exists (with_id id) (update (unresolved id) (resolved now r by) ds) ≡ true
still_there id now r by [] h = cc
still_there id now r by (d ∷ ds) h = elim (Bool-cases (unresolved id d)) [
  | inl hit ↦ let same : with_id id d ≡ true = ground (arith, hit) in rw hit (rw same refl)
  | inr miss ↦
      let rest = still_there id now r by ds (let k = rw miss at h in k) in
      rw miss (ground (arith, rest))
]

-- After a successful Resolve, every later one of the same deposit gets ErrAlreadyResolved and changes nothing.
pub resolve_once :
    (now later id : ℕ) (r by r' by' : String) (d : Deposit) (t t' : Orphans)
    → resolve now id r by t ≡ ok d t'
    → resolve later id r' by' t' ≡ err already_resolved t'
unfolding resolve get_orphan
resolve_once now later id r by r' by' d t t' h = elim (Option-cases (find (unresolved id) t.rows)) [
  | inl gone ↦ let k = rw gone at h in absurd_get t (find (with_id id) t.rows) k
  | inr (x, found) ↦
      let moved : record t { rows = update (unresolved id) (resolved now r by) t.rows } ≡ t' =
        ap state_of (let k = rw found at h in k) in
      let (y, there) =
        exists-find (with_id id) _
          (still_there id now r by t.rows (find-exists (unresolved id) t.rows x found)) in
      subst (λ s. resolve later id r' by' s ≡ err already_resolved s) moved
        (rw (none-unresolved id now r by t.rows) (rw there refl))
]
  where
    absurd_get :
        (s : Orphans) (o : Option Deposit)
        → (or_raise o not_found >>= λ x. raise already_resolved) s ≡ ok d t'
        → resolve later id r' by' t' ≡ err already_resolved t'
    absurd_get s none k = cc
    absurd_get s (some x) k = cc

-- Recording the same log again changes nothing, whatever else the second report says.
pub record_orphan-record_orphan :
    (r r' : Report) (t t' : Orphans)
    → r'.tx_hash ≡ r.tx_hash
    → r'.log_index ≡ r.log_index
    → record_orphan r t ≡ ok tt t'
    → record_orphan r' t' ≡ ok tt t'
unfolding record_orphan
record_orphan-record_orphan r r' t t' same_tx same_index h = rw there' refl
  where
    there : exists (same_log r) t'.rows ≡ true
    there = elim (Bool-cases (exists (same_log r) t.rows)) [
      | inl old ↦
          let same : t ≡ t' = ap state_of (let k = rw old at h in k) in
          subst (λ s. exists (same_log r) s.rows ≡ true) same old
      | inr new ↦
          let same : record { rows = new_orphan t.next_id r ∷ t.rows; next_id = t.next_id + 1 }
              ≡ t' =
            ap state_of (let k = rw new at h in k) in
          subst (λ s. exists (same_log r) s.rows ≡ true) same
            (rw (eq_refl r.tx_hash) (rw ((==_iff r.log_index r.log_index).1 refl) refl))
    ]

    there' : exists (same_log r') t'.rows ≡ true
    there' =
        ap
          (λ x.
            exists (λ d. str_eq d.report.tx_hash x && (d.report.log_index == r'.log_index)) t'.rows)
          same_tx
        ∙ ap
            (λ i.
              exists (λ d. str_eq d.report.tx_hash r.tx_hash && (d.report.log_index == i)) t'.rows)
            same_index
        ∙ there
