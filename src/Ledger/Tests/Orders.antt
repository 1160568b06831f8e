-- ===== src/Ledger/Tests/Orders.antt =====
-- The orders on concrete tables.
use convert_usdt_from_trc.Base.{◌≡◌, refl, true, none, some, [], ◌∷◌, arith, All, ◌==◌}
use convert_usdt_from_trc.Base.Int.{pos, ◌+ℤ◌, neg}
use convert_usdt_from_trc.Base.Int64.{IsInt64, wrap64, wrap_neg, to_int16}
use convert_usdt_from_trc.Base.Table.{find, order_by}
use convert_usdt_from_trc.Base.Text.{print_decimal}
use convert_usdt_from_trc.Money.{
  usdt_bep20, usdt_trc20, add, negate, valid, checked_add, validate as validate_amount,
}
use convert_usdt_from_trc.Ledger.Rows.{
  World, OrderRow, Order, quoted, funded, dispatching, held, refunded, standard,
}
use convert_usdt_from_trc.Ledger.Monad.{Outcome, ok}
use convert_usdt_from_trc.Ledger.Accounts.{get_by_code}
use convert_usdt_from_trc.Ledger.Halt.{set, is_halted, cache_is_halted}
use convert_usdt_from_trc.Ledger.Journal.Hash.{
  canonical_hash, hash_payload, sort_lines, line_lt, asset_text,
}
use convert_usdt_from_trc.Ledger.Journal.Validate.{
  validate_idempotency_key, sum_of, put_sum, check_line, check_lines, all_zero, validate,
}
use convert_usdt_from_trc.Ledger.Journal.Post.{
  apply_balance, apply_balances, join_accounts, stored_lines, load_lines,
  get_entry_by_idempotency_key, get_entry_by_id, resolve_existing, insert_lines_and_apply_balances,
  insert_entry, post_lines, post,
}
use convert_usdt_from_trc.Ledger.Journal.Post.Books.{post-IsSound}
use convert_usdt_from_trc.Ledger.Journal.Balance.{cached_units}
use convert_usdt_from_trc.Ledger.Journal.Sound.{IsSound}
use convert_usdt_from_trc.Ledger.Journal.Reverse.{
  negate_lines, reversal_request, insert_reversal, reverse_lines, reverse_entry,
}
use convert_usdt_from_trc.Ledger.Tests.{
  env0, world0, world0-IsSound, deposit, deposit-in_range, world_of, value_of, no_entry,
}
use convert_usdt_from_trc.Ledger.Orders.{
  CreateParams, valid_state, get, scan_order, row_assets, transition_table, relay_pair,
  check_relay_assets, check_fixed_assets, check_assets, validate_create, direction_of, valid_tier,
}
use convert_usdt_from_trc.Ledger.Orders.Create.{create, insert_order, get-create, Carries}
use convert_usdt_from_trc.Ledger.Orders.Table.{
  Route, begin, Legal, pays_out-blocked, unpaid, unscreened-unpaid, blocked_while_halted,
  needs_entry, quote,
}
use convert_usdt_from_trc.Ledger.Orders.Transition.{
  TransitionParams, transition, validate_transition, legal, check_halt, check_halt_flags, move,
  compare_and_swap, log_transition, illegal_or_replay, replay_if_already_posted, key_exists,
}
use convert_usdt_from_trc.Ledger.Orders.Safety.{
  transition-IsSound, halted-pays_out, Repeats, transition-log-Legal, HasWalk, transition-HasWalk,
}
use convert_usdt_from_trc.Ledger.Orders.Reorg.{
  handle_deposit_reorg, reorg_scenario_b, reorg_scenario_a, reorg_retry_from_quoted,
  corridor_account_for, halt_params,
}
use convert_usdt_from_trc.Ledger.Orders.Reorg.Effects.{handle_deposit_reorg-Handled, Handled}
use convert_usdt_from_trc.Ledger.Rows.{TransitionRow, screened}
use convert_usdt_from_trc.Ledger.Tests.{order0, running}

abbrev fund : TransitionParams
fund = record {
  actor = "watcher";
  reason = "deposit is final";
  occurred_at = 3000;
  entry = some (deposit 3000);
  entry_id = none;
  sender_address = some "0x1";
}

abbrev no_order : Order
no_order = scan_order order0

abbrev funding : Outcome Order
funding = transition env0 1 funded 0 fund world0

transition-IsSound_example : IsSound (world_of funding)
unfolding post validate validate_idempotency_key check_line check_lines sum_of put_sum all_zero
    get_by_code canonical_hash hash_payload sort_lines line_lt asset_text insert_entry post_lines
    insert_lines_and_apply_balances apply_balance apply_balances checked_add valid order_by add
    wrap64 ◌+ℤ◌ validate_amount to_int16 transition valid_state validate_transition get scan_order
    row_assets transition_table legal check_halt check_halt_flags is_halted cache_is_halted move
    compare_and_swap log_transition illegal_or_replay replay_if_already_posted key_exists
    get_entry_by_idempotency_key resolve_existing load_lines stored_lines join_accounts
transition-IsSound_example =
    transition-IsSound env0 1 funded 0 fund (value_of no_order funding) world0 (world_of funding)
      deposit-in_range refl world0-IsSound

transition-log-Legal_example :
    All (λ (t : TransitionRow). Legal t.from_state t.to_state) (world_of funding).transitions
unfolding post validate validate_idempotency_key check_line check_lines sum_of put_sum all_zero
    get_by_code canonical_hash hash_payload sort_lines line_lt asset_text insert_entry post_lines
    insert_lines_and_apply_balances apply_balance apply_balances checked_add valid order_by add
    wrap64 ◌+ℤ◌ validate_amount to_int16 transition valid_state validate_transition get scan_order
    row_assets transition_table legal check_halt check_halt_flags is_halted cache_is_halted move
    compare_and_swap log_transition illegal_or_replay replay_if_already_posted key_exists
    get_entry_by_idempotency_key resolve_existing load_lines stored_lines join_accounts
transition-log-Legal_example =
    transition-log-Legal env0 1 funded 0 fund (value_of no_order funding) world0 (world_of funding)
      deposit-in_range refl tt

transition-HasWalk_example : HasWalk (world_of funding).orders
unfolding post validate validate_idempotency_key check_line check_lines sum_of put_sum all_zero
    get_by_code canonical_hash hash_payload sort_lines line_lt asset_text insert_entry post_lines
    insert_lines_and_apply_balances apply_balance apply_balances checked_add valid order_by add
    wrap64 ◌+ℤ◌ validate_amount to_int16 transition valid_state validate_transition get scan_order
    row_assets transition_table legal check_halt check_halt_flags is_halted cache_is_halted move
    compare_and_swap log_transition illegal_or_replay replay_if_already_posted key_exists
    get_entry_by_idempotency_key resolve_existing load_lines stored_lines join_accounts
transition-HasWalk_example =
    transition-HasWalk env0 1 funded 0 fund (value_of no_order funding) order0 world0
      (world_of funding) deposit-in_range refl refl (quote, tt) (quote, tt) (refl, tt)

-- A halted ledger whose order was refunded by the entry that is posted.
abbrev stopped : World
stopped = record (world_of (post env0 (deposit 3000) world0)) {
  system = record running { halted = true };
  orders = record order0 { state = refunded } ∷ [];
}

abbrev refund : TransitionParams
refund = record fund { sender_address = none }

abbrev refunding : Outcome Order
refunding = transition env0 1 refunded 0 refund stopped

halted-pays_out_example :
    Repeats env0 1 refunded 0 refund (value_of no_order refunding) stopped (world_of refunding)
unfolding post validate validate_idempotency_key check_line check_lines sum_of put_sum all_zero
    get_by_code canonical_hash hash_payload sort_lines line_lt asset_text insert_entry post_lines
    insert_lines_and_apply_balances apply_balance apply_balances checked_add valid order_by add
    wrap64 ◌+ℤ◌ validate_amount to_int16 transition valid_state validate_transition get scan_order
    row_assets transition_table legal check_halt check_halt_flags is_halted cache_is_halted move
    compare_and_swap log_transition illegal_or_replay replay_if_already_posted key_exists
    get_entry_by_idempotency_key resolve_existing load_lines stored_lines join_accounts
halted-pays_out_example =
    halted-pays_out env0 1 refunded 0 refund (value_of no_order refunding) stopped
      (world_of refunding) deposit-in_range refl refl refl

pays_out-blocked_example :
    (blocked_while_halted (transition_table screened dispatching) ≡ true)
    × (needs_entry (transition_table screened dispatching) ≡ true)
pays_out-blocked_example = pays_out-blocked screened dispatching refl

-- A quoted order that was funded and then held.
unscreened-unpaid_example : unpaid held ≡ true
unfolding transition_table
unscreened-unpaid_example =
    unscreened-unpaid held (Route.move {s = funded} (Route.move {s = quoted} begin refl) refl) refl

-- The deposit of an order that is being paid out.
abbrev paid : World
paid = record (world_of (post env0 (deposit 3000) world0)) {
  orders = record order0 { state = dispatching } ∷ [];
}

abbrev report : Outcome Order
report = handle_deposit_reorg env0 1 "deposit:1" "watcher" paid

paid_in_range :
    (row : OrderRow)
    → find (λ (r : OrderRow). r.id == 1) paid.orders ≡ some row
    → IsInt64 row.amount_out
paid_in_range row h =
    let same : row ≡ record order0 { state = dispatching } = cc in
    rw same (omega arith, omega arith)

paid-IsSound : IsSound paid
unfolding post validate validate_idempotency_key check_line check_lines sum_of put_sum all_zero
    get_by_code canonical_hash hash_payload sort_lines line_lt asset_text insert_entry post_lines
    insert_lines_and_apply_balances apply_balance apply_balances checked_add valid order_by add
    wrap64 ◌+ℤ◌ validate_amount to_int16 transition valid_state validate_transition get scan_order
    row_assets transition_table legal check_halt check_halt_flags is_halted cache_is_halted move
    compare_and_swap log_transition illegal_or_replay replay_if_already_posted key_exists
    get_entry_by_idempotency_key resolve_existing load_lines stored_lines join_accounts cached_units
paid-IsSound =
    let s =
      post-IsSound env0 (deposit 3000) {entry = value_of no_entry (post env0 (deposit 3000) world0)}
        {w = world0} {w' = world_of (post env0 (deposit 3000) world0)} deposit-in_range
        world0-IsSound refl in
    record {
      cache_agrees = s.cache_agrees;
      entries_balance = s.entries_balance;
      trial_closes = s.trial_closes;
      lines_posted = s.lines_posted;
      lines_named = s.lines_named;
      accounts_known = s.accounts_known;
      units_in_range = s.units_in_range;
      ids_drawn = s.ids_drawn;
    }

handle_deposit_reorg-Handled_example :
    (row : OrderRow) × (find (λ (r : OrderRow). r.id == 1) paid.orders ≡ some row)
    × Handled env0 "deposit:1" row (value_of no_order report) paid (world_of report)
unfolding post validate validate_idempotency_key check_line check_lines sum_of put_sum all_zero
    get_by_code canonical_hash hash_payload sort_lines line_lt asset_text insert_entry post_lines
    insert_lines_and_apply_balances apply_balance apply_balances checked_add valid order_by add
    wrap64 ◌+ℤ◌ validate_amount to_int16 get_entry_by_id reverse_entry reverse_lines load_lines
    stored_lines join_accounts negate_lines negate reversal_request insert_reversal neg wrap_neg
    transition valid_state validate_transition get scan_order row_assets transition_table legal
    check_halt check_halt_flags is_halted cache_is_halted move compare_and_swap log_transition
    illegal_or_replay replay_if_already_posted key_exists get_entry_by_idempotency_key
    resolve_existing handle_deposit_reorg reorg_scenario_b reorg_scenario_a reorg_retry_from_quoted
    set corridor_account_for print_decimal halt_params
handle_deposit_reorg-Handled_example =
    handle_deposit_reorg-Handled env0 1 "deposit:1" "watcher" (value_of no_order report) paid
      (world_of report) paid_in_range paid-IsSound refl

abbrev request : CreateParams
request = record {
  external_id = "order-2";
  customer_id = "customer-1";
  tier = standard;
  amount_in = record { asset = usdt_bep20; units = pos 500000 };
  amount_out = record { asset = usdt_trc20; units = pos 490000 };
  fee_units = record { asset = usdt_trc20; units = pos 9000 };
  network_fee_units = record { asset = usdt_trc20; units = pos 1000 };
  recipient_address = "T2";
  quoted_at = 100;
  quote_expires_at = 900;
}

abbrev creation : Outcome Order
creation = create env0 request world0

get-create_example :
    Carries request (value_of no_order creation)
    × (get (value_of no_order creation).id (world_of creation)
        ≡ ok (value_of no_order creation) (world_of creation))
unfolding create validate_create check_assets check_relay_assets check_fixed_assets insert_order
    valid_tier scan_order row_assets direction_of relay_pair
get-create_example =
    get-create env0 request (value_of no_order creation) world0 (world_of creation) refl
