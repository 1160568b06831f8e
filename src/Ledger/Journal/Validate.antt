-- ===== src/Ledger/Journal/Validate.antt =====
-- ledger/internal/journal/validate.go: the rules that an entry request must meet.
pub mod Balanced
use convert_usdt_from_trc.Base.{
  ℕ, suc, Bool, true, ◌&&◌, not, List, [], ◌∷◌, ltb, if◌then◌else◌, length,
}
use convert_usdt_from_trc.Base.Int.{ℤ, pos, is_zero}
use convert_usdt_from_trc.Base.Int64.{to_int16}
use convert_usdt_from_trc.Base.Text.{String, str_eq, len}
use convert_usdt_from_trc.Money
use convert_usdt_from_trc.Money.{Asset, Amount, asset_eq}
use convert_usdt_from_trc.Ledger.Rows.{
  Account, Line, EntryRequest, too_few_lines, too_many_lines, zero_amount_line, line_asset_mismatch,
  unbalanced, invalid_idempotency_key,
}
use convert_usdt_from_trc.Ledger.Monad.{M, ◌>>=◌, ◌>>◌, pure, raise_if, lift_money}
use convert_usdt_from_trc.Ledger.Accounts.{get_by_code}

pub record ResolvedLine : Type 0 where
  pub seq : ℤ
  pub account : Account
  pub amount : Amount

abbrev pub max_lines : ℕ
max_lines = 32767

abbrev pub max_idempotency_key_len : ℕ
max_idempotency_key_len = 255

unfoldable pub validate_idempotency_key : String → M (Unit {0})
validate_idempotency_key key = do
  raise_if (str_eq key "") invalid_idempotency_key
  raise_if (ltb max_idempotency_key_len (len key)) invalid_idempotency_key

-- `sums := make(map[money.Asset]money.Amount)`.
abbrev pub Sums : Type 0
Sums = List (Asset × Amount)

-- `sums[a]`, or the zero amount of the asset.
unfoldable pub sum_of : Asset → Sums → Amount
sum_of a [] = record { asset = a; units = pos 0 }
sum_of a ((b, s) ∷ rest) = if asset_eq a b then s else sum_of a rest

-- `sums[a] = s`.
unfoldable pub put_sum : Asset → Amount → Sums → Sums
put_sum a s [] = (a, s) ∷ []
put_sum a s ((b, t) ∷ rest) = if asset_eq a b then (a, s) ∷ rest else (b, t) ∷ put_sum a s rest

abbrev cons_line : ResolvedLine → List ResolvedLine × Sums → M (List ResolvedLine × Sums)
cons_line r (rs, sums) = pure (r ∷ rs, sums)

-- One line of the loop: the account that it resolves to, and the sum of its asset so far.
unfoldable pub check_line : Line → Sums → M (Account × Amount)
check_line line sums = do
  raise_if (is_zero line.amount.units) zero_amount_line
  acc ← get_by_code line.account_code
  raise_if (not (asset_eq line.amount.asset acc.asset)) line_asset_mismatch
  sum ← lift_money (Money.add (sum_of acc.asset sums) line.amount)
  pure (acc, sum)

-- `for i, line := range req.Lines`, from index `i` on.
unfoldable pub check_lines : ℕ → List Line → Sums → M (List ResolvedLine × Sums)
check_lines i [] sums = pure ([], sums)
check_lines i (line ∷ rest) sums = do
  (acc, sum) ← check_line line sums
  more ← check_lines (suc i) rest (put_sum acc.asset sum sums)
  cons_line (record { seq = to_int16 i; account = acc; amount = line.amount }) more

-- `for asset, sum := range sums`.
unfoldable pub all_zero : Sums → Bool
all_zero [] = true
all_zero ((a, s) ∷ rest) = is_zero s.units && all_zero rest

abbrev pub check_sums : List ResolvedLine × Sums → M (List ResolvedLine)
check_sums (resolved, sums) = do raise_if (not (all_zero sums)) unbalanced; pure resolved

unfoldable pub validate : EntryRequest → M (List ResolvedLine)
validate req = do
  validate_idempotency_key req.idempotency_key
  raise_if (ltb (length req.lines) 2) too_few_lines
  raise_if (ltb max_lines (length req.lines)) too_many_lines
  result ← check_lines 0 req.lines []
  check_sums result
