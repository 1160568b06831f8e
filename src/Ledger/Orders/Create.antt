-- ===== src/Ledger/Orders/Create.antt =====
-- Create of ledger/internal/orders/store.go, and what it stores.
use convert_usdt_from_trc.Base.{
  ℕ, ◌+◌, ◌≡◌, refl, true, false, not, none, some, List, ◌∷◌, ltb, ◌==◌, if◌then◌else◌, arith,
  Bool-cases, inl, inr, ◌⊎◌, ==_iff, subst, sym, ap, ◌∙◌,
}
use convert_usdt_from_trc.Base.Table.{exists}
use convert_usdt_from_trc.Base.Text.{str_eq}
use convert_usdt_from_trc.Money.{Asset, Amount, usdt_bep20, usdt_trc20, asset_eq, asset_eq_iff}
use convert_usdt_from_trc.Ledger.Rows.{
  Tier, World, Env, Order, OrderRow, quoted, relay, constraint_violation, bep20_to_trc20,
  trc20_to_bep20,
}
use convert_usdt_from_trc.Ledger.Monad.{ok, err, M, ◌>>◌, >>=-eq-ok, raise_if-eq-ok, after_check}
use convert_usdt_from_trc.Ledger.Orders.{
  CreateParams, validate_create, check_assets, check_relay_assets, check_fixed_assets, direction_of,
  row_assets, scan_order, is_relay, relay_pair, valid_tier, get,
}

module _ (env : Env) where
  abbrev pub order_row : ℕ → CreateParams → OrderRow
  order_row id p = record {
    id = id;
    external_id = p.external_id;
    customer_id = p.customer_id;
    tier = p.tier;
    state = quoted;
    amount_in = p.amount_in.units;
    amount_out = p.amount_out.units;
    fee_units = p.fee_units.units;
    network_fee_units = p.network_fee_units.units;
    recipient_address = p.recipient_address;
    sender_address = none;
    quoted_at = p.quoted_at;
    quote_expires_at = p.quote_expires_at;
    version = 0;
    created_at = env.now;
    updated_at = env.now;
    relay_direction = direction_of p;
  }

  -- `INSERT INTO orders … RETURNING …`; external_id is unique.
  unfoldable pub insert_order : CreateParams → M Order
  insert_order p w =
      let row = order_row w.next_order p in
      if exists (λ r. str_eq r.external_id p.external_id) w.orders
      then err constraint_violation w
      else ok (scan_order row) (record w { orders = row ∷ w.orders; next_order = w.next_order + 1 })

  unfoldable pub create : CreateParams → M Order
  create p = do validate_create p; insert_order p

-- The assets that a valid request carries are those that its row is read in.
abbrev AssetsKept : CreateParams → Type 0
AssetsKept p =
    let assets = row_assets p.tier (direction_of p) in
    let fee = if is_relay p.tier then assets.0 else assets.1 in
    (p.amount_in.asset ≡ assets.0)
    × (p.amount_out.asset ≡ assets.1)
    × (p.fee_units.asset ≡ fee)
    × (p.network_fee_units.asset ≡ fee)

is_relay_eq : (t : Tier) → is_relay t ≡ true → t ≡ relay
is_relay_eq relay h = refl
is_relay_eq t h = cc

check_relay_assets-eq_ok :
    (p : CreateParams) (u : Unit {0}) (w w' : World)
    → check_relay_assets p w ≡ ok u w'
    → (w ≡ w')
      × (relay_pair p.amount_in.asset p.amount_out.asset ≡ true)
      × (p.fee_units.asset ≡ p.amount_in.asset)
      × (p.network_fee_units.asset ≡ p.amount_in.asset)
unfolding check_relay_assets
check_relay_assets-eq_ok p u w w' e = ground (
  arith,
  asset_eq_iff p.fee_units.asset p.amount_in.asset,
  asset_eq_iff p.network_fee_units.asset p.amount_in.asset,
)

check_fixed_assets-eq_ok :
    (p : CreateParams) (u : Unit {0}) (w w' : World)
    → check_fixed_assets p w ≡ ok u w'
    → (w ≡ w')
      × (p.amount_in.asset ≡ usdt_bep20)
      × (p.amount_out.asset ≡ usdt_trc20)
      × (p.fee_units.asset ≡ usdt_trc20)
      × (p.network_fee_units.asset ≡ usdt_trc20)
unfolding check_fixed_assets
check_fixed_assets-eq_ok p u w w' e = ground (
  arith,
  asset_eq_iff p.amount_in.asset usdt_bep20,
  asset_eq_iff p.amount_out.asset usdt_trc20,
  asset_eq_iff p.fee_units.asset usdt_trc20,
  asset_eq_iff p.network_fee_units.asset usdt_trc20,
)

relay_pair-cases :
    (i o : Asset)
    → relay_pair i o ≡ true
    → ((i ≡ usdt_bep20) × (o ≡ usdt_trc20)) ⊎ ((i ≡ usdt_trc20) × (o ≡ usdt_bep20))
unfolding relay_pair
relay_pair-cases i o h = ground (
  arith,
  asset_eq_iff i usdt_bep20,
  asset_eq_iff o usdt_trc20,
  asset_eq_iff i usdt_trc20,
  asset_eq_iff o usdt_bep20,
)

fixed_row_assets :
    (t : Tier) (d : _) → is_relay t ≡ false → row_assets t d ≡ (usdt_bep20, usdt_trc20)
unfolding row_assets
fixed_row_assets relay d h = cc
fixed_row_assets t d h = refl

relay_direction_read :
    (i o : Asset)
    → relay_pair i o ≡ true
    → row_assets relay (some (if asset_eq i usdt_trc20 then trc20_to_bep20 else bep20_to_trc20))
      ≡ (i, o)
unfolding row_assets
relay_direction_read i o h = elim (relay_pair-cases i o h) [
  | inl (bep, trc) ↦ rw (bep, trc)
  | inr (trc, bep) ↦ rw (trc, bep)
]

relay_row :
    (p : CreateParams)
    → is_relay p.tier ≡ true
    → relay_pair p.amount_in.asset p.amount_out.asset ≡ true
    → row_assets p.tier (direction_of p) ≡ (p.amount_in.asset, p.amount_out.asset)
unfolding direction_of
relay_row p is h = rw is (
    ap
      (λ t.
        row_assets t
          (some (if asset_eq p.amount_in.asset usdt_trc20 then trc20_to_bep20 else bep20_to_trc20)))
      (is_relay_eq p.tier is)
    ∙ relay_direction_read p.amount_in.asset p.amount_out.asset h)

kept_of :
    (p : CreateParams) (assets : Asset × Asset)
    → row_assets p.tier (direction_of p) ≡ assets
    → let fee = if is_relay p.tier then assets.0 else assets.1 in
      (p.amount_in.asset ≡ assets.0)
        × (p.amount_out.asset ≡ assets.1)
        × (p.fee_units.asset ≡ fee)
        × (p.network_fee_units.asset ≡ fee)
      → AssetsKept p
kept_of p assets e h = rw e h

check_assets-kept :
    (p : CreateParams) (u : Unit {0}) (w w' : World)
    → check_assets p w ≡ ok u w'
    → (w ≡ w') × AssetsKept p
unfolding check_assets
check_assets-kept p u w w' e = elim (Bool-cases (is_relay p.tier)) [
  | inl is ↦
      let c = check_relay_assets-eq_ok p u w w' (rw is at e) in
      (
        c.0,
        kept_of p (p.amount_in.asset, p.amount_out.asset) (relay_row p is c.1)
            (refl, refl, rw is c.2, rw is c.3),
      )
  | inr not' ↦
      let c = check_fixed_assets-eq_ok p u w w' (rw not' at e) in
      (
        c.0,
        kept_of p (usdt_bep20, usdt_trc20) (fixed_row_assets p.tier (direction_of p) not')
            (c.1, c.2, rw not' c.3, rw not' c.4),
      )
]

-- The values of a request, as an order would carry them.
abbrev pub Carries : CreateParams → Order → Type 0
Carries p o =
    (o.external_id ≡ p.external_id)
    × (o.customer_id ≡ p.customer_id)
    × (o.tier ≡ p.tier)
    × (o.state ≡ quoted)
    × (o.version ≡ 0)
    × (o.amount_in ≡ p.amount_in)
    × (o.amount_out ≡ p.amount_out)
    × (o.fee_units ≡ p.fee_units)
    × (o.network_fee_units ≡ p.network_fee_units)
    × (o.recipient_address ≡ p.recipient_address)
    × (o.quoted_at ≡ p.quoted_at)
    × (o.quote_expires_at ≡ p.quote_expires_at)
    × (o.sender_address ≡ none)

amount_path : (x : Amount) (a : Asset) → x.asset ≡ a → record { asset = a; units = x.units } ≡ x
amount_path x a h = rw (sym h)

scan_order-Carries :
    (env : Env) (id : ℕ) (p : CreateParams)
    → AssetsKept p
    → Carries p (scan_order (order_row env id p))
unfolding scan_order
scan_order-Carries env id p (i, o, f, n) = (
  refl,
  refl,
  refl,
  refl,
  refl,
  amount_path p.amount_in _ i,
  amount_path p.amount_out _ o,
  amount_path p.fee_units _ f,
  amount_path p.network_fee_units _ n,
  refl,
  refl,
  refl,
  refl,
)

validate_create-eq_ok :
    (p : CreateParams) (u : Unit {0}) (w w' : World)
    → validate_create p w ≡ ok u w'
    → (w ≡ w') × AssetsKept p
unfolding validate_create
validate_create-eq_ok p u w w' e =
    let e1 = after_check (str_eq p.external_id "") _ _ e in
    let e2 = after_check (str_eq p.customer_id "") _ _ e1.1 in
    let e3 = after_check (not (valid_tier p.tier)) _ _ e2.1 in
    let (v, w1, checked, e4) = >>=-eq-ok (check_assets p) _ e3.1 in
    let (same, kept) = check_assets-kept p v w w1 checked in
    let e5 = after_check (str_eq p.recipient_address "") _ _ e4 in
    let e6 = after_check (p.quoted_at == 0) _ _ e5.1 in
    (same ∙ (raise_if-eq-ok (not (ltb p.quoted_at p.quote_expires_at)) _ e6.1).1, kept)

insert_order-eq_ok :
    (env : Env) (p : CreateParams) (o : Order) (w w' : World)
    → insert_order env p w ≡ ok o w'
    → (o ≡ scan_order (order_row env w.next_order p))
      × (w'.orders ≡ order_row env w.next_order p ∷ w.orders)
unfolding insert_order
insert_order-eq_ok env p o w w' e = ground arith

get_first :
    (row : OrderRow) (rows : List OrderRow) (w : World)
    → w.orders ≡ row ∷ rows
    → get row.id w ≡ ok (scan_order row) w
unfolding get
get_first row rows w h = rw h (ground (arith, ==_iff row.id row.id))

-- Create returns a quoted order, version 0, without a sender, that carries every value of the request,
-- the amounts in the request's assets, whatever the tier and the direction, although its row keeps bare
-- units; and reading the
-- order back by its id yields the same order.
pub get-create :
    (env : Env) (p : CreateParams) (o : Order) (w w' : World)
    → create env p w ≡ ok o w'
    → Carries p o × (get o.id w' ≡ ok o w')
unfolding create
get-create env p o w w' e =
    let (u, w1, checked, e1) = >>=-eq-ok (validate_create p) _ e in
    let (same, kept) = validate_create-eq_ok p u w w1 checked in
    let (result, rows) = insert_order-eq_ok env p o w1 w' e1 in
    (
      subst (Carries p) (sym result) (scan_order-Carries env w1.next_order p kept),
      subst (λ (t : Order). get t.id w' ≡ ok t w') (sym result)
          (unfold scan_order in get_first (order_row env w1.next_order p) w1.orders w' rows),
    )
