-- ===== src/Ledger/Journal/Reverse.antt =====
-- ledger/internal/journal/reversal.go: posting the negation of an entry.
pub mod Negation
pub mod Once
use convert_usdt_from_trc.Base.{
  ℕ, ◌+◌, ◌||◌, some, List, [], ◌∷◌, map, ◌==◌, if◌then◌else◌, is_some,
}
use convert_usdt_from_trc.Base.Int.{ℤ}
use convert_usdt_from_trc.Base.Table.{exists}
use Prim.Native.String.{◌++◌ as append}
use convert_usdt_from_trc.Base.Text.{String, str_eq}
use convert_usdt_from_trc.Money
use convert_usdt_from_trc.Money.{Amount, negate}
use convert_usdt_from_trc.Ledger.Rows.{
  Env, Line, EntryRequest, Entry, PostedLine, text, created, already_reversed,
  cannot_reverse_a_reversal, invalid_reverse_params, constraint_violation,
}
use convert_usdt_from_trc.Ledger.Monad.{ok, err, M, ◌>>=◌, ◌>>◌, pure, raise_if, gets, lift_money}
use convert_usdt_from_trc.Ledger.Journal.Hash.{canonical_hash}
use convert_usdt_from_trc.Ledger.Journal.Validate.{validate_idempotency_key}
use convert_usdt_from_trc.Ledger.Journal.Post.{
  LineToApply, insert_lines_and_apply_balances, entry_row, get_entry_by_id, load_lines, reverses,
  order_exists, key_taken, reversal_taken,
}

pub record NegatedLine : Type 0 where
  pub seq : ℤ
  pub account_id : ℕ
  pub account_code : String
  pub amount : Amount

-- `for i, pl := range originalLines`.
unfoldable pub negate_lines : List PostedLine → M (List NegatedLine)
negate_lines [] = pure []
negate_lines (pl ∷ pls) = do
  opposite ← lift_money (negate pl.amount)
  rest ← negate_lines pls
  pure (
      record {
        seq = pl.seq;
        account_id = pl.account_id;
        account_code = pl.account_code;
        amount = opposite;
      }
      ∷ rest)

abbrev hash_line : NegatedLine → Line
hash_line n = record { account_code = n.account_code; amount = n.amount }

abbrev pub line_to_apply : NegatedLine → LineToApply
line_to_apply n = record {
  seq = n.seq;
  account_id = n.account_id;
  account_code = n.account_code;
  asset = n.amount.asset;
  units = n.amount.units;
}

-- "ledger:reverse:" + the original entry's key.
abbrev pub reversal_key : String → String
reversal_key key = append "ledger:reverse:" key

-- The request whose hash the reversal carries, and whose values its row takes.
unfoldable pub reversal_request : Entry → List NegatedLine → String → String → ℕ → EntryRequest
reversal_request original negated actor reason occurred_at = record {
  idempotency_key = reversal_key original.idempotency_key;
  entry_type = "reversal";
  actor = actor;
  occurred_at = occurred_at;
  order_id = original.order_id;
  lines = map hash_line negated;
  metadata = some (
      ("reversal_of_idempotency_key", text original.idempotency_key)
      ∷ ("reason", text reason)
      ∷ []);
}

module _ (env : Env) where
  -- `INSERT INTO journal_entries … RETURNING …`: a violated unique key, of either column, is the
  -- driver's 23505, which Reverse reports as ErrAlreadyReversed.
  unfoldable pub insert_reversal : EntryRequest → List ℕ → ℕ → M Entry
  insert_reversal req hash original_id w =
      let row = entry_row env w.next_entry req hash (some original_id) in
      if key_taken req.idempotency_key w.entries || reversal_taken (some original_id) w.entries
      then err already_reversed w
      else if order_exists req.order_id w.orders
      then ok row (record w { entries = row ∷ w.entries; next_entry = w.next_entry + 1 })
      else err constraint_violation w

  -- From the original entry's lines on.
  unfoldable pub reverse_lines : Entry → String → String → ℕ → M Entry
  reverse_lines original actor reason occurred_at = do
    original_lines ← load_lines original.id
    negated ← negate_lines original_lines
    let req = reversal_request original negated actor reason occurred_at
    validate_idempotency_key req.idempotency_key
    entry ← insert_reversal req (canonical_hash env req) original.id
    posted ← insert_lines_and_apply_balances env entry.id (map line_to_apply negated)
    pure (record entry { lines = posted; outcome = created })

  -- Reverse. A zero time.Time is 0.
  unfoldable pub reverse_entry : ℕ → String → String → ℕ → M Entry
  reverse_entry original_id actor reason occurred_at = do
    raise_if (str_eq actor "") invalid_reverse_params
    raise_if (str_eq reason "") invalid_reverse_params
    raise_if (occurred_at == 0) invalid_reverse_params
    original ← get_entry_by_id original_id
    raise_if (is_some original.reversal_of) cannot_reverse_a_reversal
    reversed ← gets (λ w. exists (reverses original_id) w.entries)
    raise_if reversed already_reversed
    reverse_lines original actor reason occurred_at
