-- ===== src/Relayd/Legs/Amounts.antt =====
-- RecordDeposit, RecordPayoutTx and RecordVendorFee of relayd/internal/relay/relay.go.
use convert_usdt_from_trc.Base.{Bool, ◌&&◌, ◌||◌, not, some, if◌then◌else◌, is_some}
use convert_usdt_from_trc.Base.Action.{ok, err, ◌>>◌, raise_if, modify}
use convert_usdt_from_trc.Base.Int.{ℤ, pos, is_neg, ltb_ℤ, ◌+ℤ◌, ◌-ℤ◌, is_zero}
use convert_usdt_from_trc.Base.Int64.{wrap64}
use convert_usdt_from_trc.Base.Table.{exists}
use convert_usdt_from_trc.Base.Text.{String}
use convert_usdt_from_trc.Money.{Amount, asset_eq}
use convert_usdt_from_trc.Relayd.Legs.{
  Leg, unbalanced_parts, constraint_violation, M, has_id, get_by_external_id, update_rows,
}

-- The two parts add up, in int64.
abbrev pub sum_is : Amount → Amount → Amount → Bool
sum_is p f r = is_zero (wrap64 (p.units +ℤ f.units) -ℤ r.units)

abbrev pub in_asset_of : Leg → Amount → Amount
in_asset_of l a = record { asset = l.amount_in.asset; units = a.units }

abbrev pub with_deposit : Amount → String → Amount → Amount → Leg → Leg
with_deposit received sender profit forward l = record l {
  received_amount = some (in_asset_of l received);
  sender_address = some sender;
  profit_amount = some (in_asset_of l profit);
  forward_amount = some (in_asset_of l forward);
}

abbrev pub unrecorded : String → Leg → Bool
unrecorded external_id l = has_id external_id l && not (is_some l.received_amount)

-- The checks of the three columns.
abbrev pub allowed_parts : Amount → Amount → Amount → Bool
allowed_parts received profit forward =
    ltb_ℤ (pos 0) received.units && not (is_neg profit.units) && ltb_ℤ (pos 0) forward.units

unfoldable pub store_parts : String → Amount → String → Amount → Amount → M (Unit {0})
store_parts external_id received sender profit forward t =
    if exists (unrecorded external_id) t.rows && not (allowed_parts received profit forward)
    then err constraint_violation t
    else ok tt
        (update_rows (unrecorded external_id) (with_deposit received sender profit forward) t)

-- RecordDeposit.
unfoldable pub store_deposit : String → Amount → String → Amount → Amount → M Leg
store_deposit external_id received sender profit forward = do
  raise_if
      (not (sum_is profit forward received)
        || not (asset_eq profit.asset received.asset)
        || not (asset_eq forward.asset received.asset))
      unbalanced_parts
  store_parts external_id received sender profit forward
  get_by_external_id external_id

unfoldable pub record_payout_tx : String → String → M (Unit {0})
record_payout_tx external_id tx =
    modify (update_rows (has_id external_id) (λ l. record l { payout_tx_id = some tx }))

unfoldable pub record_vendor_fee : String → ℤ → M (Unit {0})
record_vendor_fee external_id units =
    modify (update_rows (has_id external_id) (λ l. record l { vendor_fee_amount = some units }))
