-- ===== src/Ledger/Orders/Reorg.antt =====
-- ledger/internal/orders/reorg.go: a deposit that a chain reorganisation took back.
pub mod AfterPayout
pub mod BeforeDispatch
pub mod Effects
use convert_usdt_from_trc.Base.{ℕ, not, none, some, [], ◌∷◌, is_some}
use convert_usdt_from_trc.Base.Int.{pos}
use convert_usdt_from_trc.Base.Int64.{wrap_neg}
use Prim.Native.String.{◌++◌ as append}
use convert_usdt_from_trc.Base.Text.{String, print_decimal}
use convert_usdt_from_trc.Money.{Asset}
use convert_usdt_from_trc.Ledger.Journal.Hash.{asset_text}
use convert_usdt_from_trc.Ledger.Rows.{
  Env, State, Order, EntryRequest, Entry, text, int, quoted, funded, dispatching, settled,
  unexpected_state,
}
use convert_usdt_from_trc.Ledger.Monad.{Outcome, ok, err, M, ◌>>=◌, ◌>>◌, pure, raise, raise_if}
use convert_usdt_from_trc.Ledger.Halt.{SetParams, set, reason_post_settlement_reorg}
use convert_usdt_from_trc.Ledger.Journal.Post.{post, get_entry_by_idempotency_key, reversal_of}
use convert_usdt_from_trc.Ledger.Journal.Reverse.{reverse_entry}
use convert_usdt_from_trc.Ledger.Orders.{get}
use convert_usdt_from_trc.Ledger.Orders.Transition.{transition}

unfoldable pub corridor_account_for : Asset → String
corridor_account_for a = append "position:corridor:" (asset_text a)

-- A key that names no entry is ErrUnexpectedState; the lookup has no other error.
abbrev pub known_entry : Outcome Entry → Outcome Entry
known_entry (ok e w) = ok e w
known_entry (err x w) = err unexpected_state w

unfoldable pub reorg_retry_from_quoted : Order → String → M Order
reorg_retry_from_quoted order original_entry_key = do
  original ← λ w. known_entry (get_entry_by_idempotency_key original_entry_key w)
  reversal ← reversal_of original.id
  raise_if (not (is_some reversal)) unexpected_state
  pure order

-- The entry that books the payout as a loss.
abbrev pub loss_request : ℕ → Order → String → EntryRequest
loss_request now order actor =
    let asset = order.amount_out.asset in
    let units = order.amount_out.units in
    record {
      idempotency_key = append "ledger:reorg_loss:" (print_decimal order.id);
      entry_type = "reorg_loss";
      actor = actor;
      occurred_at = now;
      order_id = some order.id;
      lines =
          record {
            account_code = "expense:loss:reorg";
            amount = record { asset = asset; units = units };
          }
          ∷ record {
            account_code = corridor_account_for asset;
            amount = record { asset = asset; units = wrap_neg units };
          }
          ∷ [];
      metadata = none;
    }

unfoldable pub halt_params : Order → String → String → SetParams
halt_params order original_entry_key actor = record {
  reason = reason_post_settlement_reorg;
  detail =
      ("order_id", int (pos order.id))
      ∷ ("order_external_id", text order.external_id)
      ∷ ("original_entry_key", text original_entry_key)
      ∷ ("loss_asset", text (asset_text order.amount_out.asset))
      ∷ ("loss_units", int order.amount_out.units)
      ∷ [];
  actor = actor;
}

module _ (env : Env) where
  -- The deposit is reversed, and the order goes back to quoted.
  unfoldable pub reorg_scenario_a : Order → String → String → M Order
  reorg_scenario_a order original_entry_key actor = do
    original ← get_entry_by_idempotency_key original_entry_key
    reversal ← reverse_entry env original.id actor "deposit reorged out before dispatch" env.clock
    transition env order.id quoted order.version (record {
      actor = actor;
      reason = "deposit reorged out before dispatch";
      occurred_at = env.clock;
      entry = none;
      entry_id = some reversal.id;
      sender_address = none;
    })

  -- The deposit is reversed, the payout is booked as a loss, and the ledger is halted.
  unfoldable pub reorg_scenario_b : Order → String → String → M Order
  reorg_scenario_b order original_entry_key actor = do
    original ← get_entry_by_idempotency_key original_entry_key
    reversal ← reverse_entry env original.id actor "deposit reorged out post-dispatch" env.clock
    loss ← post env (loss_request env.clock order actor)
    set env (halt_params order original_entry_key actor)
    pure order

  abbrev pub by_state : State → Order → String → String → M Order
  by_state funded order key actor = reorg_scenario_a order key actor
  by_state dispatching order key actor = reorg_scenario_b order key actor
  by_state settled order key actor = reorg_scenario_b order key actor
  by_state quoted order key actor = reorg_retry_from_quoted order key
  by_state s order key actor = raise unexpected_state

  unfoldable pub handle_deposit_reorg : ℕ → String → String → M Order
  handle_deposit_reorg id original_entry_key actor = do
    order ← get id
    by_state order.state order original_entry_key actor
