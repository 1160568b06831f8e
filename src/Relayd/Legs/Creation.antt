-- ===== src/Relayd/Legs/Creation.antt =====
-- Create of relayd/internal/relay/relay.go.
use convert_usdt_from_trc.Base.{
  ℕ, ◌+◌, Bool, true, ◌&&◌, ◌||◌, not, Option, none, some, ◌∷◌, if◌then◌else◌, ltb,
}
use convert_usdt_from_trc.Base.Action.{ok, err}
use convert_usdt_from_trc.Base.Int.{ℤ, pos, is_neg, ltb_ℤ}
use convert_usdt_from_trc.Base.Table.{exists}
use convert_usdt_from_trc.Base.Text.{String, str_eq}
use convert_usdt_from_trc.Money.{Asset, Amount, asset_eq, usdt_bep20, usdt_trc20}
use convert_usdt_from_trc.Relayd.Legs.{
  awaiting_deposit, Leg, constraint_violation, M, has_id, get_by_external_id,
}

-- A leg before its insertion: what the caller of Create fills in.
pub record NewLeg : Type 0 where
  pub external_id : String
  pub order_id : ℕ
  pub direction : String
  pub customer_id : String
  pub destination_address : String
  pub deposit_address : String
  pub deposit_derivation_index : Option ℕ
  pub amount_in : Amount
  pub amount_out_expected : Amount
  pub customer_label : Option String
  pub profit_bps : Option ℤ
  pub min_profit : Option ℤ

-- The checks of the columns that an insertion fills.
abbrev known_direction : String → Bool
known_direction d = str_eq d "TRC20_TO_BEP20" || str_eq d "BEP20_TO_TRC20"

abbrev is_usdt : Asset → Bool
is_usdt a = asset_eq a usdt_bep20 || asset_eq a usdt_trc20

abbrev fair_rate : Option ℤ → Bool
fair_rate none = true
fair_rate (some b) = not (is_neg b) && ltb_ℤ b (pos 10000)

abbrev not_negative : Option ℤ → Bool
not_negative none = true
not_negative (some u) = not (is_neg u)

abbrev allowed_index : Option ℕ → Bool
allowed_index none = true
allowed_index (some i) = ltb i 2147483648

unfoldable pub allowed_row : NewLeg → Bool
allowed_row l =
    known_direction l.direction
    && is_usdt l.amount_in.asset
    && is_usdt l.amount_out_expected.asset
    && fair_rate l.profit_bps
    && not_negative l.min_profit
    && allowed_index l.deposit_derivation_index

-- now() of a statement.
module _ (now : ℕ) where
  abbrev pub new_row : ℕ → NewLeg → Leg
  new_row id l = record {
    id = id;
    external_id = l.external_id;
    order_id = l.order_id;
    direction = l.direction;
    status = awaiting_deposit;
    customer_id = l.customer_id;
    destination_address = l.destination_address;
    deposit_address = l.deposit_address;
    deposit_derivation_index = l.deposit_derivation_index;
    amount_in = l.amount_in;
    amount_out_expected = l.amount_out_expected;
    amount_out_actual = none;
    upstream_provider_name = none;
    upstream_order_id = none;
    upstream_deposit_address = none;
    forward_tx_id = none;
    refund_tx_id = none;
    stale_alerted_at = none;
    forward_attempt_started_at = none;
    created_at = now;
    updated_at = now;
    customer_label = l.customer_label;
    profit_bps = l.profit_bps;
    min_profit = l.min_profit;
    received_amount = none;
    sender_address = none;
    profit_amount = none;
    forward_amount = none;
    vendor_fee_amount = none;
    lease_released_at = none;
    payout_tx_id = none;
  }

  -- Create: `INSERT … ON CONFLICT (external_id) DO NOTHING RETURNING …`, else the row that is there.
  unfoldable pub create : NewLeg → M Leg
  create l t =
      if not (allowed_row l)
      then err constraint_violation t
      else if exists (has_id l.external_id) t.rows
      then get_by_external_id l.external_id t
      else ok (new_row t.next_id l)
          (record t { rows = new_row t.next_id l ∷ t.rows; next_id = t.next_id + 1 })
