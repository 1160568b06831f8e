-- ===== src/Ledger/Tests/Journal.antt =====
-- The journal on concrete tables.
use convert_usdt_from_trc.Base.{ℕ, ◌≡◌, ◌≢◌, refl, sym, ap, ◌≤◌, List, [], ◌∷◌, arith, length}
use convert_usdt_from_trc.Base.Int.{pos, ◌+ℤ◌, neg}
use convert_usdt_from_trc.Base.Int64.{wrap64, wrap_neg, to_int16}
use convert_usdt_from_trc.Base.Table.{order_by}
use convert_usdt_from_trc.Money.{
  Asset, add, negate, valid, checked_add, validate as validate_amount,
}
use convert_usdt_from_trc.Ledger.Rows.{
  Entry, replayed, idempotency_conflict, already_reversed, cannot_reverse_a_reversal,
}
use convert_usdt_from_trc.Ledger.Monad.{Outcome, ok, err}
use convert_usdt_from_trc.Ledger.Accounts.{get_by_code}
use convert_usdt_from_trc.Ledger.Journal.Hash.{
  canonical_hash, hash_payload, sort_lines, line_lt, asset_text,
}
use convert_usdt_from_trc.Ledger.Journal.Validate.{
  validate_idempotency_key, sum_of, put_sum, check_line, check_lines, all_zero, validate, max_lines,
  ResolvedLine,
}
use convert_usdt_from_trc.Ledger.Journal.Validate.Balanced.{
  validate_sound, requested_units, ResolvesExactly,
}
use convert_usdt_from_trc.Ledger.Journal.Post.{
  apply_balance, apply_balances, join_accounts, stored_lines, load_lines, get_entry_by_id,
  insert_lines_and_apply_balances, insert_entry, post_lines, post,
}
use convert_usdt_from_trc.Ledger.Journal.Post.Books.{post-IsSound}
use convert_usdt_from_trc.Ledger.Journal.Post.Replay.{post-post, post-conflict}
use convert_usdt_from_trc.Ledger.Journal.Balance.{cached_units}
use convert_usdt_from_trc.Ledger.Journal.Sound.{IsSound}
use convert_usdt_from_trc.Ledger.Journal.Reverse.{
  negate_lines, reversal_request, insert_reversal, reverse_lines, reverse_entry,
}
use convert_usdt_from_trc.Ledger.Journal.Reverse.Once.{
  reverse_entry-IsSound, cached-reverse_entry, reverse_entry_once, entry_account_units,
}
use convert_usdt_from_trc.Ledger.Tests.{
  env0, world0, world0-IsSound, deposit, deposit-in_range, world_of, value_of, no_entry,
}

abbrev posted : Outcome Entry
posted = post env0 (deposit 3000) world0

posted-IsSound : IsSound (world_of posted)
unfolding post validate validate_idempotency_key check_line check_lines sum_of put_sum all_zero
    get_by_code canonical_hash hash_payload sort_lines line_lt asset_text insert_entry post_lines
    insert_lines_and_apply_balances apply_balance apply_balances checked_add valid order_by add
    wrap64 ◌+ℤ◌ validate_amount to_int16
posted-IsSound =
    post-IsSound env0 (deposit 3000) {entry = value_of no_entry posted} {w = world0}
      {w' = world_of posted} deposit-in_range world0-IsSound refl

post-IsSound_example : IsSound (world_of posted)
unfolding post validate validate_idempotency_key check_line check_lines sum_of put_sum all_zero
    get_by_code canonical_hash hash_payload sort_lines line_lt asset_text insert_entry post_lines
    insert_lines_and_apply_balances apply_balance apply_balances checked_add valid order_by add
    wrap64 ◌+ℤ◌ validate_amount to_int16
post-IsSound_example =
    post-IsSound env0 (deposit 3000) {entry = value_of no_entry posted} {w = world0}
      {w' = world_of posted} deposit-in_range world0-IsSound refl

post-post_example :
    (again : Entry) × (post env0 (deposit 3000) (world_of posted) ≡ ok again (world_of posted))
    × (again.id ≡ 1)
    × (again.outcome ≡ replayed)
unfolding post validate validate_idempotency_key check_line check_lines sum_of put_sum all_zero
    get_by_code canonical_hash hash_payload sort_lines line_lt asset_text insert_entry post_lines
    insert_lines_and_apply_balances apply_balance apply_balances checked_add valid order_by add
    wrap64 ◌+ℤ◌ validate_amount to_int16
post-post_example =
    post-post env0 env0 (deposit 3000) (value_of no_entry posted) world0 (world_of posted) refl refl

abbrev stamp : ℕ → List ℕ
stamp t = t ∷ []

abbrev first : List ℕ → ℕ
first [] = 0
first (t ∷ ts) = t

different : stamp 3000 ≢ stamp 4000
different h = let same = ap first h in omega arith

post-conflict_example :
    post env0 (deposit 4000) (world_of posted) ≡ err idempotency_conflict (world_of posted)
unfolding post validate validate_idempotency_key check_line check_lines sum_of put_sum all_zero
    get_by_code canonical_hash hash_payload sort_lines line_lt asset_text insert_entry post_lines
    insert_lines_and_apply_balances apply_balance apply_balances checked_add valid order_by add
    wrap64 ◌+ℤ◌ validate_amount to_int16
post-conflict_example =
    post-conflict env0 (deposit 3000) (deposit 4000) (value_of no_entry posted) _ world0
      (world_of posted) refl refl refl (λ h. different (ap (λ t. t) (sym h)))

abbrev resolved : List ResolvedLine
resolved = value_of [] (validate (deposit 3000) world0)

validate_sound_example :
    (world0 ≡ world0)
    × ResolvesExactly world0 0 (deposit 3000).lines resolved
    × ((a : Asset) → requested_units a (deposit 3000).lines ≡ pos 0)
    × (2 ≤ length (deposit 3000).lines)
    × (length (deposit 3000).lines ≤ max_lines)
unfolding validate validate_idempotency_key check_line check_lines sum_of put_sum all_zero
    get_by_code canonical_hash hash_payload sort_lines line_lt asset_text checked_add valid order_by
    add wrap64 ◌+ℤ◌ validate_amount to_int16
validate_sound_example =
    validate_sound (deposit 3000) {rs = resolved} {w = world0} {w' = world0} deposit-in_range refl

reverse_entry-IsSound_example :
    IsSound (world_of (reverse_entry env0 1 "watcher" "reorg" 6000 (world_of posted)))
unfolding post validate validate_idempotency_key check_line check_lines sum_of put_sum all_zero
    get_by_code canonical_hash hash_payload sort_lines line_lt asset_text insert_entry post_lines
    insert_lines_and_apply_balances apply_balance apply_balances checked_add valid order_by add
    wrap64 ◌+ℤ◌ validate_amount to_int16 get_entry_by_id reverse_entry reverse_lines load_lines
    stored_lines join_accounts negate_lines negate reversal_request insert_reversal neg wrap_neg
reverse_entry-IsSound_example =
    reverse_entry-IsSound env0 1 "watcher" "reorg" 6000
      (value_of no_entry (reverse_entry env0 1 "watcher" "reorg" 6000 (world_of posted)))
      (world_of posted) (world_of (reverse_entry env0 1 "watcher" "reorg" 6000 (world_of posted)))
      posted-IsSound refl

abbrev taken_back : Outcome Entry
taken_back = reverse_entry env0 1 "watcher" "reorg" 6000 (world_of posted)

cached-reverse_entry_example :
    cached_units 1 (world_of taken_back).balances
    ≡ cached_units 1 (world_of posted).balances
      +ℤ neg (entry_account_units 1 1 (world_of posted).lines)
unfolding post validate validate_idempotency_key check_line check_lines sum_of put_sum all_zero
    get_by_code canonical_hash hash_payload sort_lines line_lt asset_text insert_entry post_lines
    insert_lines_and_apply_balances apply_balance apply_balances checked_add valid order_by add
    wrap64 ◌+ℤ◌ validate_amount to_int16 get_entry_by_id reverse_entry reverse_lines load_lines
    stored_lines join_accounts negate_lines negate reversal_request insert_reversal neg wrap_neg
cached-reverse_entry_example =
    cached-reverse_entry env0 1 "watcher" "reorg" 6000 (value_of no_entry taken_back)
      (world_of posted) (world_of taken_back) posted-IsSound refl 1

reverse_entry_once_example :
    (reverse_entry env0 1 "operator" "again" 8000 (world_of taken_back)
      ≡ err already_reversed (world_of taken_back))
    × (reverse_entry env0
          (value_of no_entry taken_back).id
          "operator"
          "again"
          8000
          (world_of taken_back)
        ≡ err cannot_reverse_a_reversal (world_of taken_back))
unfolding post validate validate_idempotency_key check_line check_lines sum_of put_sum all_zero
    get_by_code canonical_hash hash_payload sort_lines line_lt asset_text insert_entry post_lines
    insert_lines_and_apply_balances apply_balance apply_balances checked_add valid order_by add
    wrap64 ◌+ℤ◌ validate_amount to_int16 get_entry_by_id reverse_entry reverse_lines load_lines
    stored_lines join_accounts negate_lines negate reversal_request insert_reversal neg wrap_neg
reverse_entry_once_example =
    reverse_entry_once env0 env0 1 "watcher" "operator" "reorg" "again" 6000 8000
      (value_of no_entry taken_back) (world_of posted) (world_of taken_back) posted-IsSound refl
      refl refl refl
