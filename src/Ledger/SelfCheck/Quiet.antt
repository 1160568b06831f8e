-- ===== src/Ledger/SelfCheck/Quiet.antt =====
-- What the self-check of ledger/internal/recon/reconciler.go does to the books.
use convert_usdt_from_trc.Base.{
  ℕ, ◌≡◌, refl, ap, ◌∙◌, Bool, true, false, none, List, [], ◌∷◌, Bool-cases, inl, inr,
}
use convert_usdt_from_trc.Base.Int.{ℤ, pos, is_zero, ◌-ℤ◌, int_laws}
use convert_usdt_from_trc.Base.Table.{find}
use convert_usdt_from_trc.Money.{Asset}
use convert_usdt_from_trc.Ledger.Rows.{World, Env, LineRow, BalanceRow, Account}
use convert_usdt_from_trc.Ledger.Monad.{ok}
use convert_usdt_from_trc.Ledger.Halt.{is_halted}
use convert_usdt_from_trc.Ledger.Journal.Balance.{
  trial_balance, verify_balances, verify_rows, order_rows, cached_units, computed_units,
  asset_units, scan_totals, assets_of,
}
use convert_usdt_from_trc.Ledger.Journal.Sound.{IsSound}
use convert_usdt_from_trc.Ledger.SelfCheck.{
  nonzero, judge_total, judge_totals, check_trial_balance, check_cache_divergence, second, third,
  checks, run_once,
}

-- Where every asset sums to zero, so does every total that was read.
scan_zero :
    (ls : List LineRow) (as' : List Asset) (w : World)
    → ((a : Asset) → asset_units a ls ≡ pos 0)
    → (totals : List (Asset × ℤ)) × (scan_totals ls as' w ≡ ok totals w)
      × (find nonzero totals ≡ none)
scan_zero ls [] w z = ([], refl, refl)
scan_zero ls (a ∷ as') w z =
    let (totals, read, none_left) = scan_zero ls as' w z in
    ((a, pos 0) ∷ totals, rw (z a) (rw read refl), none_left)

check_trial_balance-quiet :
    (env : Env) (ceilings : List (Asset × ℤ)) (w : World)
    → IsSound w
    → check_trial_balance env ceilings w ≡ (false, w)
unfolding check_trial_balance trial_balance
check_trial_balance-quiet env ceilings w s =
    let (totals, read, zero) = scan_zero w.lines (assets_of w.lines) w s.trial_closes in
    ap (judge_totals env ceilings) read ∙ ap (λ o. judge_total env ceilings o w) zero

no_difference : (c : ℤ) → c -ℤ c ≡ pos 0
no_difference c = omega int_laws

verify_rows-empty :
    (bs : List BalanceRow) (ls : List LineRow) (as' : List Account)
    → ((id : ℕ) → cached_units id bs ≡ computed_units id ls)
    → verify_rows bs ls as' ≡ []
unfolding verify_rows
verify_rows-empty bs ls [] h = refl
verify_rows-empty bs ls (a ∷ as') h =
    let same : is_zero (cached_units a.id bs -ℤ computed_units a.id ls) ≡ true =
      ap (λ c. is_zero (c -ℤ computed_units a.id ls)) (h a.id)
      ∙ ap is_zero (no_difference (computed_units a.id ls)) in
    rw same (verify_rows-empty bs ls as' h)

check_cache_divergence-quiet :
    (env : Env) (ceilings : List (Asset × ℤ)) (w : World)
    → IsSound w
    → check_cache_divergence env ceilings w ≡ (false, w)
unfolding check_cache_divergence verify_balances order_rows
check_cache_divergence-quiet env ceilings w s =
    let none_found = verify_rows-empty w.balances w.lines w.accounts s.cache_agrees in
    rw none_found refl

pub run_once-at :
    (env : Env) (ceilings : List (Asset × ℤ)) (w : World) (b : Bool)
    → w.system.halted ≡ b
    → run_once env ceilings w ≡ checks env ceilings (ok b w)
unfolding run_once is_halted
run_once-at env ceilings w b h = ap (λ x. checks env ceilings (ok x w)) h

-- On sound books a cycle of the self-check changes no table, whether the ledger is halted or not.
pub run_once-IsSound :
    (env : Env) (ceilings : List (Asset × ℤ)) (w : World)
    → IsSound w
    → (run_once env ceilings w).1 ≡ w
run_once-IsSound env ceilings w s = elim (Bool-cases w.system.halted) [
  | inl halted ↦ ap (λ x. x.1) (run_once-at env ceilings w true halted)
  | inr running ↦
      ap (λ x. x.1) (run_once-at env ceilings w false running)
      ∙ ap (λ x. (second env ceilings x).1) (check_trial_balance-quiet env ceilings w s)
      ∙ ap (λ x. (third env ceilings x).1) (check_cache_divergence-quiet env ceilings w s)
]
