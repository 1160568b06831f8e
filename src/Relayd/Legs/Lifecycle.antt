-- ===== src/Relayd/Legs/Lifecycle.antt =====
-- Every call of the store of relayd/internal/relay/relay.go, and what it does to one leg.
use convert_usdt_from_trc.Base.{
  ℕ, ◌+◌, ◌≡◌, ◌⊎◌, Bool, true, false, ◌||◌, not, Option, none, some, ◌∷◌, is_some,
}
use convert_usdt_from_trc.Base.Action.{state_of}
use convert_usdt_from_trc.Base.Int.{ℤ}
use convert_usdt_from_trc.Base.Table.{exists}
use convert_usdt_from_trc.Base.Text.{String}
use convert_usdt_from_trc.Money.{Amount}
use convert_usdt_from_trc.Relayd.Legs.{
  Status, awaiting_deposit, forwarding, forwarded, settled, failed, refund_pending, refunded,
  unrecoverable, expired, status_eq, Leg, Legs, update_rows, has_id,
}
use convert_usdt_from_trc.Relayd.Legs.Amounts.{
  sum_is, store_deposit, record_payout_tx, record_vendor_fee,
}
use convert_usdt_from_trc.Relayd.Legs.Creation.{NewLeg, create, new_row}
use convert_usdt_from_trc.Relayd.Legs.Marks.{
  mark_forwarding, replace_vendor_order, mark_forwarded, mark_settled, mark_failed,
  mark_refund_pending, mark_refunded, mark_unrecoverable, mark_expired, mark_stale_alerted,
  mark_forward_attempt_started, mark_lease_released,
}

-- A call of the store that writes.
pub data Op : Type 0 where
  create_leg : NewLeg → Op
  to_forwarding : String → String → String → String → Op
  replace_order : String → String → String → String → String → Op
  to_forwarded : String → String → Op
  to_settled : String → Amount → Op
  to_failed to_refund_pending to_unrecoverable to_expired : String → Op
  to_refunded : String → String → Op
  stale_alerted attempt_started lease_released : String → Op
  deposit_recorded : String → Amount → String → Amount → Amount → Op
  payout_recorded : String → String → Op
  vendor_fee_recorded : String → ℤ → Op

-- The table after a call at the time `now`, whether it succeeds or fails.
unfoldable pub run : ℕ → Op → Legs → Legs
run now (create_leg l) t = state_of (create now l t)
run now (to_forwarding e p o a) t = state_of (mark_forwarding now e p o a t)
run now (replace_order e old p o a) t = state_of (replace_vendor_order now e old p o a t)
run now (to_forwarded e x) t = state_of (mark_forwarded now e x t)
run now (to_settled e a) t = state_of (mark_settled now e a t)
run now (to_failed e) t = state_of (mark_failed now e t)
run now (to_refund_pending e) t = state_of (mark_refund_pending now e t)
run now (to_unrecoverable e) t = state_of (mark_unrecoverable now e t)
run now (to_expired e) t = state_of (mark_expired now e t)
run now (to_refunded e x) t = state_of (mark_refunded now e x t)
run now (stale_alerted e) t = state_of (mark_stale_alerted now e t)
run now (attempt_started e) t = state_of (mark_forward_attempt_started now e t)
run now (lease_released e) t = state_of (mark_lease_released now e t)
run now (deposit_recorded e r s p f) t = state_of (store_deposit e r s p f t)
run now (payout_recorded e x) t = state_of (record_payout_tx e x t)
run now (vendor_fee_recorded e u) t = state_of (record_vendor_fee e u t)

-- The edges of the lifecycle.
abbrev pub edge : Status → Status → Bool
edge awaiting_deposit forwarding = true
edge awaiting_deposit refund_pending = true
edge awaiting_deposit expired = true
edge forwarding forwarded = true
edge forwarding failed = true
edge forwarding refund_pending = true
edge forwarded settled = true
edge forwarded failed = true
edge forwarded unrecoverable = true
edge refund_pending refunded = true
edge s t = false

-- A status that comes after the forward was broadcast.
abbrev pub after_forward : Status → Bool
after_forward forwarded = true
after_forward settled = true
after_forward failed = true
after_forward unrecoverable = true
after_forward s = false

-- A status that only a forwarded leg has.
abbrev pub needs_forward : Status → Bool
needs_forward forwarded = true
needs_forward settled = true
needs_forward unrecoverable = true
needs_forward s = false

abbrev pub parts_agree : Option Amount → Option Amount → Option Amount → Bool
parts_agree none none none = true
parts_agree (some p) (some f) (some r) = sum_is p f r
parts_agree _ _ _ = false

-- The transactions that a leg's status says were sent are recorded, and no other is; a recorded deposit
-- is recorded with both parts, which add up.
pub record IsClean (l : Leg) : Type 0 where
  pub forward_known : not (is_some l.forward_tx_id) || after_forward l.status ≡ true
  pub refund_known : not (is_some l.refund_tx_id) || status_eq l.status refunded ≡ true
  pub forward_sent : not (needs_forward l.status) || is_some l.forward_tx_id ≡ true
  pub refund_sent : not (status_eq l.status refunded) || is_some l.refund_tx_id ≡ true
  pub parts_known : parts_agree l.profit_amount l.forward_amount l.received_amount ≡ true

-- No deposit was recorded, or all that was recorded of it is as it was.
abbrev pub DepositKept : Leg → Leg → Type 0
DepositKept l l' =
    (is_some l.received_amount ≡ false)
    ⊎ (l'.received_amount ≡ l.received_amount)
      × (l'.sender_address ≡ l.sender_address)
      × (l'.profit_amount ≡ l.profit_amount)
      × (l'.forward_amount ≡ l.forward_amount)

-- What one statement may do to one leg.
pub record Advances (l l' : Leg) : Type 0 where
  pub same_leg : l'.external_id ≡ l.external_id
  pub same_amount : l'.amount_in ≡ l.amount_in
  pub along : status_eq l.status l'.status || edge l.status l'.status ≡ true
  pub deposit_kept : DepositKept l l'
  pub clean : IsClean l → IsClean l'

-- An UPDATE that advances every leg that it selects.
abbrev pub Moves : (Leg → Bool) → (Leg → Leg) → Type 0
Moves p f = (l : Leg) → p l ≡ true → Advances l (f l)

pub data Effect (t t' : Legs) : Type 0 where
  nothing : t' ≡ t → Effect t t'
  inserted :
      (now : ℕ) (l : NewLeg)
      → exists (has_id l.external_id) t.rows ≡ false
      → t' ≡ record t { rows = new_row now t.next_id l ∷ t.rows; next_id = t.next_id + 1 }
      → Effect t t'
  updated : (p : Leg → Bool) (f : Leg → Leg) → Moves p f → t' ≡ update_rows p f t → Effect t t'
