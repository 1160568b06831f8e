-- ===== src/Watcher/Finality/Closing.antt =====
-- What the finality check of depositwatcher/internal/finality/finality.go does to one deposit, and to those of
-- one height.
use convert_usdt_from_trc.Base.{
  ◌≡◌, refl, sym, ap, ◌∙◌, subst, true, false, List, [], ◌∷◌, arith, Bool-cases, inl, inr, ◌⊎◌, All,
}
use convert_usdt_from_trc.Base.Table.{exists}
use convert_usdt_from_trc.Base.Text.{String}
use convert_usdt_from_trc.Watcher.Candidates.{Key, key_eq, Candidate, key_of}
use convert_usdt_from_trc.Watcher.Deposits.{
  Status, Row, is_detected, reported, orphaned, dropped, has_key, set_status,
}
use convert_usdt_from_trc.Watcher.Finality.{
  Delivery, delivered, failed, refused, Env, State, has, remove, record_status, drop,
  handle_unreportable, finalize, finalize_as, not_there, check_one, check_each,
}
use convert_usdt_from_trc.Watcher.Finality.Keys.{
  key_eq-eq, key_eq_sym, is_open, IsDistinct, DistinctKeys, closed-is_open, other-is_open,
  known-set_status, remove-IsDistinct, AllOpen, remove-AllOpen,
}

-- Every tracked deposit is open in the table, once; every reported one has a row there that is closed.
pub record Inv (s : State) : Type 0 where
  pub pending_open : AllOpen s.deposits s.pending
  pub pending_distinct : IsDistinct s.pending
  pub reports_known : All (λ k. exists (has_key k) s.deposits ≡ true) s.reports
  pub reports_closed : All (λ k. is_open k s.deposits ≡ false) s.reports
  pub reports_distinct : DistinctKeys s.reports

-- What the check of one deposit does to the maps and the table.
pub data Closes (k : Key) (s s' : State) : Type 0 where
  untouched :
      s'.pending ≡ s.pending → s'.deposits ≡ s.deposits → s'.reports ≡ s.reports → Closes k s s'
  closed :
      (st : Status) (note : String)
      → is_detected st ≡ false
      → s'.pending ≡ remove k s.pending
      → s'.deposits ≡ set_status k st note s.deposits
      → (s'.reports ≡ s.reports) ⊎ (s'.reports ≡ k ∷ s.reports)
      → Closes k s s'

-- Only the key itself may be closed.
abbrev pub KeepsOthers : Key → State → State → Type 0
KeepsOthers k s s' =
    (k' : Key) → key_eq k k' ≡ false → is_open k' s'.deposits ≡ is_open k' s.deposits

Closes-KeepsOthers : (k : Key) (s s' : State) → Closes k s s' → KeepsOthers k s s'
Closes-KeepsOthers k s s' (untouched p d r) k' other = ap (is_open k') d
Closes-KeepsOthers k s s' (closed st note c p d r) k' other =
    ap (is_open k') d ∙ other-is_open k st note c k' other s.deposits

not_reported :
    (k : Key) (rows : List Row) (ks : List Key)
    → is_open k rows ≡ true
    → All (λ k'. is_open k' rows ≡ false) ks
    → exists (key_eq k) ks ≡ false
not_reported k rows [] h a = refl
not_reported k rows (x ∷ xs) h a = elim (Bool-cases (key_eq k x)) [
  | inr off ↦ rw off (not_reported k rows xs h a.1)
  | inl on ↦
      let clash = subst (λ y. is_open y rows ≡ false) (sym (key_eq-eq k x on)) a.0 in
      let both = sym h ∙ clash in cc
]

-- Closing a key leaves the closed ones closed.
closed-closed :
    (k : Key) (st : Status) (note : String)
    → is_detected st ≡ false
    → (rows : List Row) (ks : List Key) → All (λ k'. is_open k' rows ≡ false) ks
    → All (λ k'. is_open k' (set_status k st note rows) ≡ false) ks
closed-closed k st note c rows [] a = tt
closed-closed k st note c rows (x ∷ xs) a = (
  elim (Bool-cases (key_eq k x)) [
    | inl on ↦
        subst (λ y. is_open y (set_status k st note rows) ≡ false) (key_eq-eq k x on)
          (closed-is_open k st note c rows)
    | inr off ↦ other-is_open k st note c x off rows ∙ a.0
  ],
  closed-closed k st note c rows xs a.1,
)

known-known :
    (k : Key) (st : Status) (note : String)
    → is_detected st ≡ false
    → (rows : List Row) (ks : List Key) → All (λ k'. exists (has_key k') rows ≡ true) ks
    → All (λ k'. exists (has_key k') (set_status k st note rows) ≡ true) ks
known-known k st note c rows [] a = tt
known-known k st note c rows (x ∷ xs) a =
    (known-set_status k st note c x rows ∙ a.0, known-known k st note c rows xs a.1)

open-known : (k : Key) (rows : List Row) → is_open k rows ≡ true → exists (has_key k) rows ≡ true
open-known k [] h = cc
open-known k (r ∷ rs) h = ground (arith, open-known k rs)

Closes-Inv : (k : Key) (s s' : State) → is_open k s.deposits ≡ true → Closes k s s' → Inv s → Inv s'
Closes-Inv k s s' o (untouched p d r) i = record {
  pending_open = rw p (rw d i.pending_open);
  pending_distinct = rw p i.pending_distinct;
  reports_known = rw r (rw d i.reports_known);
  reports_closed = rw r (rw d i.reports_closed);
  reports_distinct = rw r i.reports_distinct;
}
Closes-Inv k s s' o (closed st note c p d (inl r)) i = record {
  pending_open = rw p (
      rw d (
        remove-AllOpen k s.deposits (set_status k st note s.deposits) s.pending
          (λ k' h. other-is_open k st note c k' h s.deposits) i.pending_open));
  pending_distinct = rw p (remove-IsDistinct k s.pending i.pending_distinct);
  reports_known = rw r (rw d (known-known k st note c s.deposits s.reports i.reports_known));
  reports_closed = rw r (rw d (closed-closed k st note c s.deposits s.reports i.reports_closed));
  reports_distinct = rw r i.reports_distinct;
}
Closes-Inv k s s' o (closed st note c p d (inr r)) i = record {
  pending_open = rw p (
      rw d (
        remove-AllOpen k s.deposits (set_status k st note s.deposits) s.pending
          (λ k' h. other-is_open k st note c k' h s.deposits) i.pending_open));
  pending_distinct = rw p (remove-IsDistinct k s.pending i.pending_distinct);
  reports_known =
      subst (λ rows. All (λ k'. exists (has_key k') rows ≡ true) s'.reports) (sym d)
        (subst (λ ks. All (λ k'. exists (has_key k') (set_status k st note s.deposits) ≡ true) ks)
          (sym r)
          (
            known-set_status k st note c k s.deposits ∙ open-known k s.deposits o,
            known-known k st note c s.deposits s.reports i.reports_known,
          ));
  reports_closed =
      subst (λ rows. All (λ k'. is_open k' rows ≡ false) s'.reports) (sym d)
        (subst (λ ks. All (λ k'. is_open k' (set_status k st note s.deposits) ≡ false) ks) (sym r)
          (
            closed-is_open k st note c s.deposits,
            closed-closed k st note c s.deposits s.reports i.reports_closed,
          ));
  reports_distinct =
      rw r (not_reported k s.deposits s.reports o i.reports_closed, i.reports_distinct);
}

-- A store whose updates do not fail.
pub record IsDurable (env : Env) : Type 0 where
  pub stored : env.has_store ≡ true
  pub written : (k : Key) → env.set_status_fails k ≡ false

module _ (env : Env) (ok : IsDurable env) where
  record_status_eq :
      (k : Key) (st : Status) (note : String) (s : State)
      → record_status env k st note s ≡ record s { deposits = set_status k st note s.deposits }
  unfolding record_status
  record_status_eq k st note s = rw ok.stored (rw (ok.written k) refl)

  orphaned-Closes :
      (c : Candidate) (note : String) (s : State)
      → Closes (key_of c) s (finalize_as env c (refused note) s)
  unfolding handle_unreportable drop
  orphaned-Closes c note s = elim (Bool-cases (env.record_orphan c)) [
    | inr kept ↦ rw kept (untouched refl refl refl)
    | inl taken ↦ rw taken (
        rw (record_status_eq (key_of c) orphaned note (record s { orphans = key_of c ∷ s.orphans }))
          (closed orphaned note refl refl refl (inl refl)))
  ]

  delivered-Closes :
      (c : Candidate) (s : State) → Closes (key_of c) s (finalize_as env c delivered s)
  delivered-Closes c s =
      rw (record_status_eq (key_of c) reported "" (record s { reports = key_of c ∷ s.reports }))
        (closed reported "" refl refl refl (inr refl))

  finalize_as-Closes :
      (c : Candidate) (d : Delivery) (s : State) → Closes (key_of c) s (finalize_as env c d s)
  finalize_as-Closes c delivered s = delivered-Closes c s
  finalize_as-Closes c (refused note) s = orphaned-Closes c note s
  finalize_as-Closes c failed s = untouched refl refl refl

  dropped-Closes :
      (c : Candidate) (s : State)
      → Closes (key_of c) s (record_status env (key_of c) dropped not_there (drop (key_of c) s))
  unfolding drop
  dropped-Closes c s =
      rw (record_status_eq (key_of c) dropped not_there (drop (key_of c) s))
        (closed dropped not_there refl refl refl (inl refl))

  check_one-Closes :
      (present : List Key) (c : Candidate) (s : State)
      → Closes (key_of c) s (check_one env present c s)
  unfolding finalize
  check_one-Closes present c s = elim (Bool-cases (exists (key_eq (key_of c)) present)) [
    | inl there ↦ rw there (finalize_as-Closes c (env.on_final c) s)
    | inr gone ↦ rw gone (dropped-Closes c s)
  ]

  AllOpen-kept :
      (c : Candidate) (s s' : State) (cs : List Candidate)
      → KeepsOthers (key_of c) s s'
      → exists (has (key_of c)) cs ≡ false
      → AllOpen s.deposits cs
      → AllOpen s'.deposits cs
  AllOpen-kept c s s' [] keep fresh a = tt
  AllOpen-kept c s s' (d ∷ ds) keep fresh a = elim (Bool-cases (has (key_of c) d)) [
    | inl hit ↦ let k = rw hit at fresh in cc
    | inr miss ↦ (
      keep (key_of d) (key_eq_sym (key_of d) (key_of c) miss) ∙ a.0,
      AllOpen-kept c s s' ds keep (let k = rw miss at fresh in k) a.1,
    )
  ]

  -- A pass over deposits that are open in the table, each once.
  pub check_each-Inv :
      (present : List Key) (cs : List Candidate) (s : State)
      → IsDistinct cs
      → AllOpen s.deposits cs
      → Inv s
      → Inv (check_each env present cs s)
        × ((k : Key)
            → exists (has k) cs ≡ false
            → is_open k (check_each env present cs s).deposits ≡ is_open k s.deposits)
  check_each-Inv present [] s d a i = (i, λ k h. refl)
  check_each-Inv present (c ∷ cs) s d a i =
      let step = check_one-Closes present c s in
      let keep = Closes-KeepsOthers (key_of c) s (check_one env present c s) step in
      let (done, others) =
        check_each-Inv present cs (check_one env present c s) d.1
          (AllOpen-kept c s (check_one env present c s) cs keep d.0 a.1)
          (Closes-Inv (key_of c) s (check_one env present c s) a.0 step i) in
      (
        done,
        λ k h. elim (Bool-cases (has k c)) [
          | inl hit ↦ let bad = rw hit at h in cc
          | inr miss ↦ others k (let rest = rw miss at h in rest) ∙ keep k miss
        ],
      )
