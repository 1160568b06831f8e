-- ===== src/Ledger/Orders/Reorg/Effects.antt =====
-- What HandleDepositReorg of ledger/internal/orders/reorg.go leaves behind.
use convert_usdt_from_trc.Base.{ℕ, ◌≡◌, refl, sym, subst, some, ◌==◌, inl, inr, ◌⊎◌, ==_iff}
use convert_usdt_from_trc.Base.Int64.{IsInt64}
use convert_usdt_from_trc.Base.Table.{find}
use convert_usdt_from_trc.Base.Text.{String}
use convert_usdt_from_trc.Ledger.Rows.{
  World, Env, State, Order, OrderRow, quoted, funded, dispatching, settled,
}
use convert_usdt_from_trc.Ledger.Monad.{ok, >>=-eq-ok}
use convert_usdt_from_trc.Ledger.Journal.Sound.{IsSound}
use convert_usdt_from_trc.Ledger.Orders.{get, scan_order}
use convert_usdt_from_trc.Ledger.Orders.Transition.Steps.{get-eq_ok}
use convert_usdt_from_trc.Ledger.Orders.Safety.{find-true}
use convert_usdt_from_trc.Ledger.Orders.Reorg.{by_state, handle_deposit_reorg}
use convert_usdt_from_trc.Ledger.Orders.Reorg.AfterPayout.{
  Halted, TakenBack, LossBooked, reorg_scenario_b-Halted,
}
use convert_usdt_from_trc.Ledger.Orders.Reorg.BeforeDispatch.{
  DepositReversed, BackToQuoted, retry-eq_ok, reorg_scenario_a-quoted,
}

-- What a report did, by the state in which it found the order.
pub data Handled (env : Env) (key : String) (row : OrderRow) (o : Order) (w w' : World)
    : Type 0 where
  after_payout :
      ((row.state ≡ dispatching) ⊎ (row.state ≡ settled))
      → o ≡ scan_order row
      → Halted w w'
      → TakenBack key w w'
      → LossBooked env (scan_order row) w'
      → Handled env key row o w w'
  before_dispatch :
      row.state ≡ funded
      → DepositReversed key w w'
      → BackToQuoted env row o w w'
      → IsSound w'
      → Handled env key row o w w'
  redelivered :
      row.state ≡ quoted
      → o ≡ scan_order row
      → w ≡ w'
      → TakenBack key w w'
      → Handled env key row o w w'

by_state-Handled :
    (env : Env) (row : OrderRow) (key actor : String) (s : State) (o : Order) (w w' : World)
    → row.state ≡ s
    → find (λ (r : OrderRow). r.id == row.id) w.orders ≡ some row
    → IsInt64 (scan_order row).amount_out.units
    → IsSound w
    → by_state env s (scan_order row) key actor w ≡ ok o w'
    → Handled env key row o w w'
by_state-Handled env row key actor funded o w w' at' here range s e =
    let h = reorg_scenario_a-quoted env row key actor o w w' here s e in
    before_dispatch at' h.0 h.1 h.2
by_state-Handled env row key actor dispatching o w w' at' here range s e =
    let h = reorg_scenario_b-Halted env (scan_order row) key actor o w w' range s e in
    after_payout (inl at') h.0 h.1 h.2 h.3
by_state-Handled env row key actor settled o w w' at' here range s e =
    let h = reorg_scenario_b-Halted env (scan_order row) key actor o w w' range s e in
    after_payout (inr at') h.0 h.1 h.2 h.3
by_state-Handled env row key actor quoted o w w' at' here range s e =
    let h = retry-eq_ok (scan_order row) key o w w' e in redelivered at' h.0 h.1 h.2
by_state-Handled env row key actor t o w w' at' here range s e = cc

-- A handled report found the order in one of four states. After a payout the deposit's entry is
-- reversed, the loss booked, the ledger halted and no order moved; before dispatch the deposit's
-- entry is reversed, every cached balance falls by what it had moved there, and the order's row and
-- the log bring the order back to quoted at its next version; on a quoted order, whose deposit
-- already has its reversal, nothing changes. The books stay sound. From any other state the report
-- is refused.
pub handle_deposit_reorg-Handled :
    (env : Env) (id : ℕ) (key actor : String) (o : Order) (w w' : World)
    → ((row : OrderRow)
        → find (λ (r : OrderRow). r.id == id) w.orders ≡ some row
        → IsInt64 row.amount_out)
    → IsSound w
    → handle_deposit_reorg env id key actor w ≡ ok o w'
    → (row : OrderRow) × (find (λ (r : OrderRow). r.id == id) w.orders ≡ some row)
      × Handled env key row o w w'
unfolding handle_deposit_reorg scan_order
handle_deposit_reorg-Handled env id key actor o w w' range s e =
    let (order, w1, read, e1) = >>=-eq-ok (get id) _ e in
    let (row, found, scanned, same) = get-eq_ok id read in
    let same_id : row.id ≡ id =
      (==_iff row.id id).0 (find-true (λ (r : OrderRow). r.id == id) w.orders row found) in
    (
      row,
      found,
      by_state-Handled env row key actor row.state o w w' refl
          (subst (λ n. find (λ (r : OrderRow). r.id == n) w.orders ≡ some row) (sym same_id) found)
          (range row found) s
          (subst (λ (c : Order). by_state env (scan_order row).state c key actor w ≡ ok o w')
            scanned
            (subst (λ (c : Order). by_state env c.state order key actor w ≡ ok o w') scanned
              (subst (λ t. by_state env order.state order key actor t ≡ ok o w') (sym same) e1))),
    )
