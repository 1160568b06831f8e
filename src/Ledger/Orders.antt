-- ===== src/Ledger/Orders.antt =====
-- ledger/internal/orders/order.go, transitions.go and store.go: the order state machine.
pub mod Table
pub mod Create
pub mod Transition
pub mod Safety
pub mod Reorg
use convert_usdt_from_trc.Base.{
  ℕ, Bool, true, false, ◌&&◌, ◌||◌, not, Option, none, some, List, [], ◌∷◌, ltb, ◌==◌,
  if◌then◌else◌,
}
use convert_usdt_from_trc.Base.Int.{ℤ}
use convert_usdt_from_trc.Base.Table.{find, exists, select, order_by}
use convert_usdt_from_trc.Base.Text.{String, str_eq}
use convert_usdt_from_trc.Money.{Asset, Amount, usdt_bep20, usdt_trc20, asset_eq}
use convert_usdt_from_trc.Ledger.Rows.{
  State, Tier, Order, OrderRow, RelayDirection, quoted, funded, screened, dispatching, settled,
  held, refunded, expired, relay, bep20_to_trc20, trc20_to_bep20, order_not_found, invalid_params,
}
use convert_usdt_from_trc.Ledger.Monad.{M, ◌>>=◌, ◌>>◌, pure, raise_if, gets, or_raise}

-- `s == v` on states and tiers.
abbrev pub state_eq : State → State → Bool
state_eq quoted quoted = true
state_eq funded funded = true
state_eq screened screened = true
state_eq dispatching dispatching = true
state_eq settled settled = true
state_eq held held = true
state_eq refunded refunded = true
state_eq expired expired = true
state_eq (State.other s) (State.other t) = str_eq s t
state_eq _ _ = false

abbrev pub all_states : List State
all_states = quoted ∷ funded ∷ screened ∷ dispatching ∷ settled ∷ held ∷ refunded ∷ expired ∷ []

unfoldable pub valid_state : State → Bool
valid_state s = exists (state_eq s) all_states

unfoldable pub terminal : State → Bool
terminal settled = true
terminal refunded = true
terminal expired = true
terminal s = false

abbrev pub is_relay : Tier → Bool
is_relay relay = true
is_relay t = false

-- Tier.Valid, over allTiers.
unfoldable pub valid_tier : Tier → Bool
valid_tier (Tier.other s) = false
valid_tier t = true

pub record Rule : Type 0 where
  pub requires_entry : Bool
  pub halt_blocked : Bool

abbrev rule : Bool → Bool → Option Rule
rule e h = some (record { requires_entry = e; halt_blocked = h })

-- transitionTable.
unfoldable pub transition_table : State → State → Option Rule
transition_table quoted funded = rule true false
transition_table quoted expired = rule false false
transition_table funded screened = rule false false
transition_table funded held = rule false false
transition_table funded refunded = rule true true
transition_table funded quoted = rule true false
transition_table held screened = rule false false
transition_table held refunded = rule true true
transition_table screened dispatching = rule true true
transition_table screened refunded = rule true true
transition_table dispatching settled = rule true true
transition_table dispatching held = rule true false
transition_table _ _ = none

pub record CreateParams : Type 0 where
  pub external_id : String
  pub customer_id : String
  pub tier : Tier
  pub amount_in : Amount
  pub amount_out : Amount
  pub fee_units : Amount
  pub network_fee_units : Amount
  pub recipient_address : String
  pub quoted_at : ℕ
  pub quote_expires_at : ℕ

-- The corridor of a relay order: either direction.
unfoldable pub relay_pair : Asset → Asset → Bool
relay_pair i o =
    (asset_eq i usdt_bep20 && asset_eq o usdt_trc20)
    || (asset_eq i usdt_trc20 && asset_eq o usdt_bep20)

-- The assets of a relay order.
unfoldable pub check_relay_assets : CreateParams → M (Unit {0})
check_relay_assets p = do
  raise_if (not (relay_pair p.amount_in.asset p.amount_out.asset)) invalid_params
  raise_if (not (asset_eq p.fee_units.asset p.amount_in.asset)) invalid_params
  raise_if (not (asset_eq p.network_fee_units.asset p.amount_in.asset)) invalid_params

-- The assets of an order of any other tier.
unfoldable pub check_fixed_assets : CreateParams → M (Unit {0})
check_fixed_assets p = do
  raise_if (not (asset_eq p.amount_in.asset usdt_bep20)) invalid_params
  raise_if (not (asset_eq p.amount_out.asset usdt_trc20)) invalid_params
  raise_if (not (asset_eq p.fee_units.asset usdt_trc20)) invalid_params
  raise_if (not (asset_eq p.network_fee_units.asset usdt_trc20)) invalid_params

unfoldable pub check_assets : CreateParams → M (Unit {0})
check_assets p w = if is_relay p.tier then check_relay_assets p w else check_fixed_assets p w

unfoldable pub validate_create : CreateParams → M (Unit {0})
validate_create p = do
  raise_if (str_eq p.external_id "") invalid_params
  raise_if (str_eq p.customer_id "") invalid_params
  raise_if (not (valid_tier p.tier)) invalid_params
  check_assets p
  raise_if (str_eq p.recipient_address "") invalid_params
  raise_if (p.quoted_at == 0) invalid_params
  raise_if (not (ltb p.quoted_at p.quote_expires_at)) invalid_params

-- The direction that Create stores: only a relay order has one.
unfoldable pub direction_of : CreateParams → Option RelayDirection
direction_of p =
    if is_relay p.tier
    then some (if asset_eq p.amount_in.asset usdt_trc20 then trc20_to_bep20 else bep20_to_trc20)
    else none

-- The assets that a row's amounts are read in: those of amount_in and amount_out.
unfoldable pub row_assets : Tier → Option RelayDirection → Asset × Asset
row_assets relay (some trc20_to_bep20) = (usdt_trc20, usdt_bep20)
row_assets t d = (usdt_bep20, usdt_trc20)

abbrev amount : Asset → ℤ → Amount
amount a u = record { asset = a; units = u }

unfoldable pub scan_order : OrderRow → Order
scan_order r =
    let assets = row_assets r.tier r.relay_direction in
    let fee = if is_relay r.tier then assets.0 else assets.1 in
    record {
      id = r.id;
      external_id = r.external_id;
      customer_id = r.customer_id;
      tier = r.tier;
      state = r.state;
      amount_in = amount assets.0 r.amount_in;
      amount_out = amount assets.1 r.amount_out;
      fee_units = amount fee r.fee_units;
      network_fee_units = amount fee r.network_fee_units;
      recipient_address = r.recipient_address;
      sender_address = r.sender_address;
      quoted_at = r.quoted_at;
      quote_expires_at = r.quote_expires_at;
      version = r.version;
      created_at = r.created_at;
      updated_at = r.updated_at;
    }

unfoldable pub get : ℕ → M Order
get id = do
  found ← gets (λ w. find (λ r. r.id == id) w.orders)
  row ← or_raise found order_not_found
  pure (scan_order row)

unfoldable pub get_by_external_id : String → M Order
get_by_external_id external_id = do
  found ← gets (λ w. find (λ r. str_eq r.external_id external_id) w.orders)
  row ← or_raise found order_not_found
  pure (scan_order row)

abbrev scan_orders : List OrderRow → List Order
scan_orders [] = []
scan_orders (r ∷ rs) = scan_order r ∷ scan_orders rs

unfoldable pub list_by_state : State → M (List Order)
list_by_state s =
    gets (λ w. scan_orders (order_by (λ r. r.id) (select (λ r. state_eq r.state s) w.orders)))
