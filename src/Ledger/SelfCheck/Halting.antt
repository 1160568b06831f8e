-- ===== src/Ledger/SelfCheck/Halting.antt =====
-- When the self-check of ledger/internal/recon/reconciler.go halts the ledger.
use convert_usdt_from_trc.Base.{
  ◌≡◌, refl, sym, ap, ◌∙◌, subst, Bool, true, false, ◌&&◌, ◌||◌, not, List, [], ◌∷◌, ◌==◌, arith,
  if◌then◌else◌, Bool-cases, inl, inr, Option-cases,
}
use convert_usdt_from_trc.Base.Int.{ℤ, is_zero, ◌-ℤ◌, pos, negsuc}
use convert_usdt_from_trc.Base.Int64.{in_int64}
use convert_usdt_from_trc.Base.Table.{find, exists, find-exists, find-none}
use convert_usdt_from_trc.Money.{Asset, asset_eq, asset_eq_iff}
use convert_usdt_from_trc.Ledger.Rows.{World, Env, Discrepancy, LineRow, BalanceRow, Account}
use convert_usdt_from_trc.Ledger.Monad.{ok, >>=-eq-ok, ok_injective, after_check}
use convert_usdt_from_trc.Ledger.Halt.{set}
use convert_usdt_from_trc.Ledger.Journal.Balance.{
  trial_balance, verify_balances, verify_rows, order_rows, insert_row, scan_discrepancies,
  scan_int64, cached_units, computed_units, asset_units, scan_totals, assets_of,
}
use convert_usdt_from_trc.Ledger.SelfCheck.{
  nonzero, judge_totals, check_trial_balance, check_cache_divergence, second, run_once,
}
use convert_usdt_from_trc.Ledger.SelfCheck.Quiet.{run_once-at}

-- Whether two integers are the same.
abbrev pub same_units : ℤ → ℤ → Bool
same_units (pos n) (pos m) = n == m
same_units (negsuc n) (negsuc m) = n == m
same_units a b = false

-- Whether the lines of some asset that occurs in them do not sum to zero.
abbrev pub out_of_balance : List LineRow → Bool
out_of_balance ls = exists (λ (l : LineRow). not (same_units (asset_units l.asset ls) (pos 0))) ls

-- Whether the cached balance of some account is not the sum of its lines.
abbrev pub stale_cache : World → Bool
stale_cache w =
    exists
      (λ (a : Account).
        not (same_units (cached_units a.id w.balances) (computed_units a.id w.lines)))
      w.accounts

zero-same_units : (a b : ℤ) → is_zero (a -ℤ b) ≡ same_units a b
unfolding ◌-ℤ◌
zero-same_units (pos n) (pos m) = ground arith
zero-same_units (pos n) (negsuc m) = ground arith
zero-same_units (negsuc n) (pos m) = ground arith
zero-same_units (negsuc n) (negsuc m) = ground arith

zero-same : (a : ℤ) → is_zero a ≡ same_units a (pos 0)
zero-same (pos n) = ground arith
zero-same (negsuc n) = refl

-- A test of the assets finds one among those that occur exactly where it finds one in a line.
exists-assets_of :
    (p : Asset → Bool) (ls : List LineRow)
    → exists p (assets_of ls) ≡ exists (λ (l : LineRow). p l.asset) ls
unfolding assets_of
exists-assets_of p [] = refl
exists-assets_of p (l ∷ ls) =
    elim (Bool-cases (exists (λ (k : LineRow). asset_eq k.asset l.asset) ls)) [
      | inl old ↦ rw old (exists-assets_of p ls ∙ sym (covered p l.asset ls old))
      | inr new ↦ rw new (ap (λ b. if p l.asset then true else b) (exists-assets_of p ls))
    ]
  where
    covered :
        (p : Asset → Bool) (a : Asset) (ls : List LineRow)
        → exists (λ (k : LineRow). asset_eq k.asset a) ls ≡ true
        → (if p a then true else exists (λ (l : LineRow). p l.asset) ls)
          ≡ exists (λ (l : LineRow). p l.asset) ls
    covered p a [] h = cc
    covered p a (k ∷ ks) h = elim (Bool-cases (asset_eq k.asset a)) [
      | inl same ↦ let e = (asset_eq_iff k.asset a).0 same in rw e (ground arith)
      | inr other ↦ let rest = covered p a ks (rw other at h) in ground (arith, rest)
    ]

scan_totals-nonzero :
    (ls : List LineRow) (as' : List Asset) (totals : List (Asset × ℤ)) (w w' : World)
    → scan_totals ls as' w ≡ ok totals w'
    → exists nonzero totals ≡ exists (λ a. not (same_units (asset_units a ls) (pos 0))) as'
scan_totals-nonzero ls [] totals w w' e = rw (sym (ok_injective e).0) refl
scan_totals-nonzero ls (a ∷ as') totals w w' e =
    let (total, w1, scanned, e1) = >>=-eq-ok (scan_int64 (asset_units a ls)) _ e in
    let e2 = after_check (not (in_int64 (asset_units a ls))) _ _ scanned in
    let (rest, w2, read, e3) = >>=-eq-ok (scan_totals ls as') _ e1 in
    let tail = scan_totals-nonzero ls as' rest w1 w2 read in
    ap (exists nonzero) (sym (ok_injective e3).0)
    ∙ ap (λ u. if not (is_zero u) then true else exists nonzero rest) (sym (ok_injective e2.1).0)
    ∙ ap (λ b. if not b then true else exists nonzero rest) (zero-same (asset_units a ls))
    ∙ ap (λ b. if not (same_units (asset_units a ls) (pos 0)) then true else b) tail

abbrev has_some : List Discrepancy → Bool
has_some [] = false
has_some (d ∷ ds) = true

has_some-insert_row : (d : Discrepancy) (ds : List Discrepancy) → has_some (insert_row d ds) ≡ true
has_some-insert_row d [] = refl
has_some-insert_row d (e ∷ es) = ground arith

has_some-order_rows : (ds : List Discrepancy) → has_some (order_rows ds) ≡ has_some ds
unfolding order_rows
has_some-order_rows [] = refl
has_some-order_rows (d ∷ ds) = has_some-insert_row d (order_rows ds)

has_some-verify_rows :
    (bs : List BalanceRow) (ls : List LineRow) (as' : List Account)
    → has_some (verify_rows bs ls as')
      ≡ exists
          (λ (a : Account). not (same_units (cached_units a.id bs) (computed_units a.id ls)))
          as'
unfolding verify_rows
has_some-verify_rows bs ls [] = refl
has_some-verify_rows bs ls (a ∷ as') =
    let z = zero-same_units (cached_units a.id bs) (computed_units a.id ls) in
    elim (Bool-cases (same_units (cached_units a.id bs) (computed_units a.id ls))) [
      | inl same ↦ rw (z ∙ same, same) (has_some-verify_rows bs ls as')
      | inr apart ↦ rw (z ∙ apart, apart) refl
    ]

scan_discrepancies-same :
    (rows ds : List Discrepancy) (w w' : World) → scan_discrepancies rows w ≡ ok ds w' → rows ≡ ds
scan_discrepancies-same [] ds w w' e = (ok_injective e).0
scan_discrepancies-same (r ∷ rows) ds w w' e =
    let e1 = after_check (not (in_int64 r.cached_units && in_int64 r.computed_units)) _ _ e in
    let (rest, w2, read, e2) = >>=-eq-ok (scan_discrepancies rows) _ e1.1 in
    ap (λ t. r ∷ t) (scan_discrepancies-same rows rest w w2 read) ∙ (ok_injective e2).0

has_some-verify_balances :
    (ds : List Discrepancy) (w : World) → verify_balances w ≡ ok ds w → has_some ds ≡ stale_cache w
unfolding verify_balances
has_some-verify_balances ds w e =
    ap has_some (
      sym
        (scan_discrepancies-same (order_rows (verify_rows w.balances w.lines w.accounts)) ds w w e))
    ∙ has_some-order_rows (verify_rows w.balances w.lines w.accounts)
    ∙ has_some-verify_rows w.balances w.lines w.accounts

nonzero-trial_balance :
    (totals : List (Asset × ℤ)) (w : World)
    → trial_balance w ≡ ok totals w
    → exists nonzero totals ≡ out_of_balance w.lines
unfolding trial_balance
nonzero-trial_balance totals w e =
    scan_totals-nonzero w.lines (assets_of w.lines) totals w w e
    ∙ exists-assets_of (λ a. not (same_units (asset_units a w.lines) (pos 0))) w.lines

-- What a cycle leaves of a running ledger: whether it is halted, and the books as they were.
pub record Judged (halts : Bool) (w w' : World) : Type 0 where
  pub halted : w'.system.halted ≡ halts
  pub lines_kept : w'.lines ≡ w.lines
  pub balances_kept : w'.balances ≡ w.balances

after_trial :
    (env : Env) (ceilings : List (Asset × ℤ)) (w : World) (ds : List Discrepancy)
    → verify_balances w ≡ ok ds w
    → w.system.halted ≡ false
    → Judged (has_some ds) w (second env ceilings (false, w)).1
unfolding check_cache_divergence set
after_trial env ceilings w [] read running =
    rw read (record { halted = running; lines_kept = refl; balances_kept = refl })
after_trial env ceilings w (d ∷ ds) read running =
    rw read (record { halted = refl; lines_kept = refl; balances_kept = refl })

read-Judged :
    (env : Env) (ceilings : List (Asset × ℤ)) (w : World) (totals : List (Asset × ℤ))
    (ds : List Discrepancy)
    → w.system.halted ≡ false
    → trial_balance w ≡ ok totals w
    → verify_balances w ≡ ok ds w
    → Judged (exists nonzero totals || has_some ds) w (run_once env ceilings w).1
unfolding check_trial_balance set
read-Judged env ceilings w totals ds running trial cache =
    subst (λ x. Judged (exists nonzero totals || has_some ds) w x.1)
      (sym (
        run_once-at env ceilings w false running
        ∙ ap (λ o. second env ceilings (judge_totals env ceilings o)) trial))
      (elim (Option-cases (find nonzero totals)) [
        | inl zero ↦
            rw (zero, find-none nonzero totals zero) (after_trial env ceilings w ds cache running)
        | inr (t, found) ↦
            rw (found, find-exists nonzero totals t found)
              (record { halted = refl; lines_kept = refl; balances_kept = refl })
      ])

-- Where the two reads succeed, a cycle on a running ledger halts it exactly if the lines of some asset
-- do not sum to zero or some account's cached balance is not the sum of its lines; it never touches
-- lines or balances.
pub run_once-Judged :
    (env : Env) (ceilings : List (Asset × ℤ)) (w : World) (totals : List (Asset × ℤ))
    (ds : List Discrepancy)
    → w.system.halted ≡ false
    → trial_balance w ≡ ok totals w
    → verify_balances w ≡ ok ds w
    → Judged (out_of_balance w.lines || stale_cache w) w (run_once env ceilings w).1
run_once-Judged env ceilings w totals ds running trial cache =
    subst (λ b. Judged b w (run_once env ceilings w).1)
      (ap (λ b. b || has_some ds) (nonzero-trial_balance totals w trial)
        ∙ ap (λ b. out_of_balance w.lines || b) (has_some-verify_balances ds w cache))
      (read-Judged env ceilings w totals ds running trial cache)
