-- ===== src/Ledger/Journal/Balance.antt =====
-- ledger/internal/journal/balance.go: the cached balances, and the sums that they must agree with.
use convert_usdt_from_trc.Base.{ℕ, ◌&&◌, not, List, [], ◌∷◌, leb, ◌==◌, if◌then◌else◌}
use convert_usdt_from_trc.Base.Int.{ℤ, pos, ◌-ℤ◌, is_zero}
use convert_usdt_from_trc.Base.Int64.{in_int64}
use convert_usdt_from_trc.Base.Table.{exists, sum_where}
use convert_usdt_from_trc.Base.Text.{String}
use convert_usdt_from_trc.Money.{Asset, Amount, asset_eq}
use convert_usdt_from_trc.Ledger.Rows.{Account, LineRow, BalanceRow, Discrepancy, scan_range}
use convert_usdt_from_trc.Ledger.Monad.{M, ◌>>=◌, ◌>>◌, pure, raise_if, gets}
use convert_usdt_from_trc.Ledger.Accounts.{get_by_code}
use convert_usdt_from_trc.Ledger.Journal.Hash.{text_lt}

-- `Scan(&units)` of a numeric into an int64.
abbrev pub scan_int64 : ℤ → M ℤ
scan_int64 u = do raise_if (not (in_int64 u)) scan_range; pure u

-- The account's row of account_balances, 0 without one.
unfoldable pub cached_units : ℕ → List BalanceRow → ℤ
cached_units id [] = pos 0
cached_units id (b ∷ bs) = if b.account_id == id then b.balance_units else cached_units id bs

-- `SELECT COALESCE(SUM(amount_units), 0) FROM journal_lines WHERE account_id = $1`.
abbrev pub computed_units : ℕ → List LineRow → ℤ
computed_units id = sum_where (λ l. l.account_id == id) (λ l. l.units)

-- The same `AND entry_id <= $2`.
abbrev pub computed_units_as_of : ℕ → ℕ → List LineRow → ℤ
computed_units_as_of id entry_id =
    sum_where (λ l. l.account_id == id && leb l.entry_id entry_id) (λ l. l.units)

-- `SELECT asset, SUM(amount_units) FROM journal_lines GROUP BY asset`, at one asset.
abbrev pub asset_units : Asset → List LineRow → ℤ
asset_units a = sum_where (λ l. asset_eq l.asset a) (λ l. l.units)

unfoldable pub balance : String → M Amount
balance code = do
  acc ← get_by_code code
  cached ← gets (λ w. cached_units acc.id w.balances)
  units ← scan_int64 cached
  pure (record { asset = acc.asset; units = units })

unfoldable pub balance_computed : String → M Amount
balance_computed code = do
  acc ← get_by_code code
  computed ← gets (λ w. computed_units acc.id w.lines)
  units ← scan_int64 computed
  pure (record { asset = acc.asset; units = units })

unfoldable pub balance_as_of : String → ℕ → M Amount
balance_as_of code max_entry_id = do
  acc ← get_by_code code
  computed ← gets (λ w. computed_units_as_of acc.id max_entry_id w.lines)
  units ← scan_int64 computed
  pure (record { asset = acc.asset; units = units })

-- The accounts whose cache and lines disagree.
unfoldable pub verify_rows : List BalanceRow → List LineRow → List Account → List Discrepancy
unfolding cached_units
verify_rows bs ls [] = []
verify_rows bs ls (a ∷ as') =
    let rest = verify_rows bs ls as' in
    let cached = cached_units a.id bs in
    let computed = computed_units a.id ls in
    if is_zero (cached -ℤ computed)
    then rest
    else record {
      account_id = a.id;
      account_code = a.code;
      asset = a.asset;
      cached_units = cached;
      computed_units = computed;
    }
      ∷ rest

abbrev pub scan_discrepancies : List Discrepancy → M (List Discrepancy)
scan_discrepancies [] = pure []
scan_discrepancies (d ∷ ds) = do
  raise_if (not (in_int64 d.cached_units && in_int64 d.computed_units)) scan_range
  rest ← scan_discrepancies ds
  pure (d ∷ rest)

abbrev pub insert_row : Discrepancy → List Discrepancy → List Discrepancy
insert_row d [] = d ∷ []
insert_row d (e ∷ es) =
    let rest = insert_row d es in
    if text_lt e.account_code d.account_code then e ∷ rest else d ∷ e ∷ es

-- `ORDER BY a.code`.
unfoldable pub order_rows : List Discrepancy → List Discrepancy
order_rows [] = []
order_rows (d ∷ ds) = insert_row d (order_rows ds)

unfoldable pub verify_balances : M (List Discrepancy)
verify_balances = do
  rows ← gets (λ w. order_rows (verify_rows w.balances w.lines w.accounts))
  scan_discrepancies rows

-- The assets that occur in the lines, each once.
unfoldable pub assets_of : List LineRow → List Asset
assets_of [] = []
assets_of (l ∷ ls) =
    let rest = assets_of ls in
    if exists (λ k. asset_eq k.asset l.asset) ls then rest else l.asset ∷ rest

abbrev pub scan_totals : List LineRow → List Asset → M (List (Asset × ℤ))
scan_totals ls [] = pure []
scan_totals ls (a ∷ as') = do
  total ← scan_int64 (asset_units a ls)
  rest ← scan_totals ls as'
  pure ((a, total) ∷ rest)

unfoldable pub trial_balance : M (List (Asset × ℤ))
trial_balance w = scan_totals w.lines (assets_of w.lines) w
