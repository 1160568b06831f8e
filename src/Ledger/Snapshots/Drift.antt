-- ===== src/Ledger/Snapshots/Drift.antt =====
-- When IngestSnapshot of ledger/internal/recon/snapshot.go halts the ledger.
use convert_usdt_from_trc.Base.{
  ◌≡◌, refl, sym, ap, ◌∙◌, true, not, ◌∷◌, ℕ, suc, ◌+◌, ◌^◌, ◌<◌, ltb, arith, some, subst,
  if◌then◌else◌, Bool-cases, inl, inr,
}
use convert_usdt_from_trc.Base.Int.{ℤ, pos, negsuc, ◌-ℤ◌, neg, pos_part, neg_part, leb_ℤ}
use convert_usdt_from_trc.Ledger.Rows.{World, Env, Account, account_not_found}
use convert_usdt_from_trc.Ledger.Monad.{ok, >>=-eq-ok, ok_injective, after_check, or_raise-eq-ok}
use convert_usdt_from_trc.Ledger.Accounts.{get_by_code}
use convert_usdt_from_trc.Ledger.Halt.{set}
use convert_usdt_from_trc.Ledger.Journal.Balance.{balance_as_of, scan_int64, computed_units_as_of}
use convert_usdt_from_trc.Base.Int64.{in_int64, wrap64, wrap_neg, wrap64_id}
use convert_usdt_from_trc.Base.Table.{find}
use convert_usdt_from_trc.Base.Text.{String, str_eq}
use convert_usdt_from_trc.Money.{Amount, Asset, asset_eq, trx}
use convert_usdt_from_trc.Ledger.Snapshots.{
  SnapshotParams, SnapshotResult, validate_snapshot, tolerance_for, drift_of, abs_drift,
  snapshot_row, check_drift, ingest_snapshot,
}

-- How much an account may be off, in TRX or in another asset.
abbrev pub allowance : ℕ → Asset → ℕ
allowance trx_tolerance a = if asset_eq a trx then trx_tolerance else 0

-- How far an integer is from zero.
abbrev pub distance : ℤ → ℕ
distance d = pos_part d + neg_part d

-- The ledger's balance of an account at a watermark, and how far the observation is off, as integers.
abbrev pub ledger_units : SnapshotParams → Account → World → ℤ
ledger_units p acc w = computed_units_as_of acc.id (pos_part p.watermark) w.lines

abbrev pub true_drift : SnapshotParams → Account → World → ℤ
true_drift p acc w = p.observed_units -ℤ ledger_units p acc w

-- The snapshot is recorded with the exact drift, and the ledger is halted exactly beyond the allowance.
abbrev pub Decided : ℕ → SnapshotParams → Account → SnapshotResult → World → World → Type 0
Decided tolerance p acc r w w' =
    (r.drift_units ≡ true_drift p acc w)
    × (r.halted ≡ ltb (allowance tolerance acc.asset) (distance (true_drift p acc w)))
    × (w'.system.halted ≡ (if r.halted then true else w.system.halted))
    × (w'.snapshots ≡ snapshot_row p acc (ledger_units p acc w) (true_drift p acc w) ∷ w.snapshots)

drift_of-exact :
    (observed ledger : ℤ)
    → distance (observed -ℤ ledger) < 2 ^ 63
    → drift_of observed ledger ≡ observed -ℤ ledger
unfolding drift_of
drift_of-exact observed ledger h = wrap64_id (observed -ℤ ledger) (omega arith, omega arith)

neg-negsuc : (n : ℕ) → neg (negsuc n) ≡ pos (suc n)
unfolding neg
neg-negsuc n = ground arith

abs_drift-distance : (d : ℤ) → distance d < 2 ^ 63 → abs_drift d ≡ pos (distance d)
unfolding abs_drift wrap_neg
abs_drift-distance (pos n) h = ground arith
abs_drift-distance (negsuc n) h =
    ap wrap64 (neg-negsuc n)
    ∙ wrap64_id (pos (suc n)) (omega arith, omega arith)
    ∙ ap pos (let same : suc n ≡ 0 + suc n = omega arith in same)

within_allowance :
    (tolerance : ℕ) (a : Asset) (d : ℤ)
    → distance d < 2 ^ 63
    → leb_ℤ (abs_drift d) (tolerance_for (pos tolerance) a)
      ≡ not (ltb (allowance tolerance a) (distance d))
unfolding tolerance_for
within_allowance tolerance a d h = rw (abs_drift-distance d h) (ground arith)

check_drift-Decided :
    (env : Env) (tolerance : ℕ) (p : SnapshotParams) (acc : Account) (ledger drift : ℤ)
    (r : SnapshotResult) (w w' : World)
    → distance drift < 2 ^ 63
    → check_drift env (pos tolerance) p acc ledger drift w ≡ ok r w'
    → (r.drift_units ≡ drift)
      × (r.halted ≡ ltb (allowance tolerance acc.asset) (distance drift))
      × (w'.system.halted ≡ (if r.halted then true else w.system.halted))
      × (w'.snapshots ≡ w.snapshots)
unfolding check_drift set
check_drift-Decided env tolerance p acc ledger drift r w w' range e =
    let e' = rw (within_allowance tolerance acc.asset drift range) at e in
    elim (Bool-cases (ltb (allowance tolerance acc.asset) (distance drift))) [
      | inr within ↦
          let d = ok_injective (rw within at e') in
          (
            ap (λ (t : SnapshotResult). t.drift_units) (sym d.0),
            ap (λ (t : SnapshotResult). t.halted) (sym d.0) ∙ rw within refl,
            rw (sym d.0) (rw (sym d.1) refl),
            ap (λ (t : World). t.snapshots) (sym d.1),
          )
      | inl beyond ↦
          let d = ok_injective (rw beyond at e') in
          (
            ap (λ (t : SnapshotResult). t.drift_units) (sym d.0),
            ap (λ (t : SnapshotResult). t.halted) (sym d.0) ∙ rw beyond refl,
            rw (sym d.0) (rw (sym d.1) refl),
            ap (λ (t : World). t.snapshots) (sym d.1),
          )
    ]

check_drift-recorded :
    (env : Env) (tolerance : ℕ) (p : SnapshotParams) (acc : Account) (r : SnapshotResult)
    (w w' : World)
    → distance (true_drift p acc w) < 2 ^ 63
    → check_drift env (pos tolerance) p acc (ledger_units p acc w) (true_drift p acc w) (record w {
      snapshots = snapshot_row p acc (ledger_units p acc w) (true_drift p acc w) ∷ w.snapshots;
    })
      ≡ ok r w'
    → Decided tolerance p acc r w w'
check_drift-recorded env tolerance p acc r w w' range e =
    check_drift-Decided env tolerance p acc (ledger_units p acc w) (true_drift p acc w) r
      (record w {
        snapshots = snapshot_row p acc (ledger_units p acc w) (true_drift p acc w) ∷ w.snapshots;
      })
      w' range e

-- The rest of the call, at the account and the balance that were read.
abbrev RestOf : Env → ℤ → SnapshotParams → SnapshotResult → World → Account → ℤ → ℤ → World → Type 0
RestOf env tolerance p r w' acc ledger drift w =
    check_drift env tolerance p acc ledger drift
      (record w { snapshots = snapshot_row p acc ledger drift ∷ w.snapshots })
    ≡ ok r w'

after_read :
    (env : Env) (tolerance : ℤ) (p : SnapshotParams) (acc' acc : Account) (a : Amount)
    (r : SnapshotResult) (w v w' : World)
    → acc' ≡ acc
    → w ≡ v
    → a.units ≡ ledger_units p acc w
    → drift_of p.observed_units a.units ≡ true_drift p acc w
    → RestOf env tolerance p r w' acc' a.units (drift_of p.observed_units a.units) v
    → RestOf env tolerance p r w' acc (ledger_units p acc w) (true_drift p acc w) w
after_read env tolerance p acc' acc a r w v w' same there units exact e =
    subst (λ d. RestOf env tolerance p r w' acc (ledger_units p acc w) d w) exact
      (subst (λ u. RestOf env tolerance p r w' acc u (drift_of p.observed_units a.units) w) units
        (subst (λ x. RestOf env tolerance p r w' x a.units (drift_of p.observed_units a.units) w)
          same
          (subst
            (λ t. RestOf env tolerance p r w' acc' a.units (drift_of p.observed_units a.units) t)
            (sym there) e)))

validate_snapshot-eq_ok :
    (p : SnapshotParams) (u : Unit {0}) (w w' : World) → validate_snapshot p w ≡ ok u w' → w ≡ w'
unfolding validate_snapshot
validate_snapshot-eq_ok p u w w' e = ground arith

-- The row of `accounts` with a code.
abbrev pub Named : String → Account → World → Type 0
Named code acc w = find (λ (a : Account). str_eq a.code code) w.accounts ≡ some acc

get_by_code-eq_ok :
    (code : String) (acc : Account) (w w' : World)
    → get_by_code code w ≡ ok acc w'
    → Named code acc w × (w ≡ w')
unfolding get_by_code
get_by_code-eq_ok code acc w w' e =
    let h =
      or_raise-eq-ok (find (λ (a : Account). str_eq a.code code) w.accounts) account_not_found acc w
        w' e in
    (h.0, h.1)

some_eq : {A : Type 0} (a b : A) → some a ≡ some b → a ≡ b
some_eq a b h = cc

balance_as_of-eq_ok :
    (code : String) (n : ℕ) (acc : Account) (a : Amount) (w w' : World)
    → Named code acc w
    → balance_as_of code n w ≡ ok a w'
    → (a.units ≡ computed_units_as_of acc.id n w.lines) × (w ≡ w')
unfolding balance_as_of
balance_as_of-eq_ok code n acc a w w' named e =
    let (acc', w1, found, e1) = >>=-eq-ok (get_by_code code) _ e in
    let (named', same) = get_by_code-eq_ok code acc' w w1 found in
    let (units, w2, scanned, e2) =
      >>=-eq-ok (scan_int64 (computed_units_as_of acc'.id n w1.lines)) _ e1 in
    let e3 = after_check (not (in_int64 (computed_units_as_of acc'.id n w1.lines))) _ _ scanned in
    let (read, last) = ok_injective e3.1 in
    let (amount, end) = ok_injective e2 in
    let same_account : acc' ≡ acc = some_eq acc' acc (sym named' ∙ named) in
    (
      ap (λ (t : Amount). t.units) (sym amount)
          ∙ sym read
          ∙ ap (λ (t : World). computed_units_as_of acc'.id n t.lines) (sym same)
          ∙ ap (λ (t : Account). computed_units_as_of t.id n w.lines) same_account,
      same ∙ last ∙ end,
    )

-- Every snapshot that IngestSnapshot accepts is recorded, with the difference between what was
-- observed and the sum of the account's lines up to the watermark, exactly, where it lies strictly
-- within 2^63 of zero and the tolerance is not negative; the ledger is halted exactly where this
-- difference, up or down, exceeds what the account's asset allows, which is the tolerance for TRX
-- and nothing for the others, and otherwise keeps its flag.
pub ingest_snapshot-Decided :
    (env : Env) (tolerance : ℕ) (p : SnapshotParams) (acc : Account) (r : SnapshotResult)
    (w w' : World)
    → Named p.account_code acc w
    → distance (true_drift p acc w) < 2 ^ 63
    → ingest_snapshot env (pos tolerance) p w ≡ ok r w'
    → Decided tolerance p acc r w w'
unfolding ingest_snapshot
ingest_snapshot-Decided env tolerance p acc r w w' named range e =
    let (u, w1, checked, e1) = >>=-eq-ok (validate_snapshot p) _ e in
    let same1 = validate_snapshot-eq_ok p u w w1 checked in
    let (acc', w2, found, e2) = >>=-eq-ok (get_by_code p.account_code) _ e1 in
    let (named', same2) = get_by_code-eq_ok p.account_code acc' w1 w2 found in
    let (a, w3, read, e3) = >>=-eq-ok (balance_as_of p.account_code (pos_part p.watermark)) _ e2 in
    let back : w ≡ w2 = same1 ∙ same2 in
    let same_account : acc' ≡ acc = some_eq acc' acc (
      sym named'
      ∙ ap (λ (t : World). find (λ (x : Account). str_eq x.code p.account_code) t.accounts)
          (sym same1)
      ∙ named) in
    let (units, same3) =
      balance_as_of-eq_ok p.account_code (pos_part p.watermark) acc a w w3 named (
        subst (λ (t : World). balance_as_of p.account_code (pos_part p.watermark) t ≡ ok a w3)
          (sym back) read) in
    let exact : drift_of p.observed_units a.units ≡ true_drift p acc w =
      ap (drift_of p.observed_units) units
      ∙ drift_of-exact p.observed_units (ledger_units p acc w) range in
    check_drift-recorded env tolerance p acc r w w' range
      (after_read env (pos tolerance) p acc' acc a r w w3 w' same_account same3 units exact e3)
