-- ===== src/Relayd/Legs/Effects.antt =====
-- What each call of the store of relayd/internal/relay/relay.go does to its table.
use convert_usdt_from_trc.Base.{
  ℕ, ◌≡◌, refl, sym, subst, Bool, true, false, ◌&&◌, ◌||◌, not, Option, none, some, is_some, arith,
  Bool-cases, inl, inr,
}
use convert_usdt_from_trc.Base.Action.{
  bind_outcome, Outcome, ok, err, ◌>>◌, raise_if, or_raise, state_of,
}
use convert_usdt_from_trc.Base.Table.{find, exists}
use convert_usdt_from_trc.Base.Text.{String}
use convert_usdt_from_trc.Money.{Amount}
use convert_usdt_from_trc.Relayd.Legs.{
  forwarding, forwarded, settled, failed, refund_pending, refunded, unrecoverable, expired, Leg,
  Error, Legs, M, leg_not_found, get_by_external_id, update_rows, selects, has_id,
}
use convert_usdt_from_trc.Relayd.Legs.Amounts.{
  sum_is, with_deposit, unrecorded, allowed_parts, store_parts, store_deposit, record_payout_tx,
  record_vendor_fee,
}
use convert_usdt_from_trc.Relayd.Legs.Creation.{NewLeg, create, allowed_row}
use convert_usdt_from_trc.Relayd.Legs.Marks.{
  has_order, order_taken, mark_forwarding, replace_vendor_order, mark_forwarded, mark_settled,
  mark_failed, mark_refund_pending, mark_refunded, mark_unrecoverable, mark_expired,
  mark_stale_alerted, not_alerted, mark_forward_attempt_started, mark_lease_released, from_awaiting,
  from_forwarding, from_forwarded, from_refund_pending,
}
use convert_usdt_from_trc.Relayd.Legs.Lifecycle.{
  Op, run, create_leg, to_forwarding, replace_order, to_forwarded, to_settled, to_failed,
  to_refund_pending, to_unrecoverable, to_expired, to_refunded, stale_alerted, attempt_started,
  lease_released, deposit_recorded, payout_recorded, vendor_fee_recorded, Advances, Moves, Effect,
  inserted, updated, nothing,
}
use convert_usdt_from_trc.Relayd.Legs.Moves.{
  mark-Effect, forwarding-Moves, forwarded-Moves, settled-Moves, unrecoverable-Moves, expired-Moves,
  failed-Moves, refund_pending-Moves, refunded-Moves, same-Advances,
}

mark_forwarding-Effect :
    (now : ℕ) (e p o a : String) (t : Legs) → Effect t (state_of (mark_forwarding now e p o a t))
unfolding mark_forwarding
mark_forwarding-Effect now e p o a t =
    elim (Bool-cases
      (exists (selects e from_awaiting) t.rows && exists (order_taken e p o) t.rows)) [
        | inl taken ↦ rw taken (nothing refl)
        | inr free ↦
            rw free (mark-Effect e from_awaiting forwarding _ t (forwarding-Moves now e p o a))
      ]

replaced-Advances :
    (now : ℕ) (l : Leg) (p o a : String)
    → Advances l (record l {
      upstream_provider_name = some p;
      upstream_order_id = some o;
      upstream_deposit_address = some a;
      updated_at = now;
    })
replaced-Advances now l p o a =
    same-Advances l _ refl refl refl refl refl (inr (refl, refl, refl, refl)) (λ c. c.parts_known)

replace_vendor_order-Effect :
    (now : ℕ) (e old p o a : String) (t : Legs)
    → Effect t (state_of (replace_vendor_order now e old p o a t))
unfolding replace_vendor_order
replace_vendor_order-Effect now e old p o a t =
    elim (Bool-cases (exists (has_order e old) t.rows)) [
      | inr gone ↦ rw gone (nothing refl)
      | inl there ↦ elim (Bool-cases (exists (order_taken e p o) t.rows)) [
        | inl taken ↦ rw there (rw taken (nothing refl))
        | inr free ↦
            rw there
              (rw free (updated (has_order e old) _ (λ l h. replaced-Advances now l p o a) refl))
      ]
    ]

or_raise-state : (found : Option Leg) (t : Legs) → state_of (or_raise found leg_not_found t) ≡ t
or_raise-state none t = refl
or_raise-state (some l) t = refl

create-Effect : (now : ℕ) (l : NewLeg) (t : Legs) → Effect t (state_of (create now l t))
unfolding create get_by_external_id
create-Effect now l t = elim (Bool-cases (allowed_row l)) [
  | inr bad ↦ rw bad (nothing refl)
  | inl good ↦ elim (Bool-cases (exists (has_id l.external_id) t.rows)) [
    | inl old ↦ rw good (rw old (nothing (or_raise-state (find (has_id l.external_id) t.rows) t)))
    | inr new ↦ rw good (rw new (inserted now l new refl))
  ]
]

deposit-Advances :
    (e : String) (received : Amount) (sender : String) (p f : Amount) (l : Leg)
    → sum_is p f received ≡ true
    → unrecorded e l ≡ true
    → Advances l (with_deposit received sender p f l)
deposit-Advances e received sender p f l sum h =
    same-Advances l (with_deposit received sender p f l) refl refl refl refl refl
      (inl (ground (arith, h))) (λ c. sum)

store_parts-Effect :
    (e : String) (received : Amount) (sender : String) (p f : Amount) (t : Legs)
    → sum_is p f received ≡ true
    → Effect t (state_of (store_parts e received sender p f t))
unfolding store_parts
store_parts-Effect e received sender p f t sum =
    elim (Bool-cases (exists (unrecorded e) t.rows && not (allowed_parts received p f))) [
      | inl bad ↦ rw bad (nothing refl)
      | inr good ↦
          rw good
            (updated (unrecorded e) _ (λ l h. deposit-Advances e received sender p f l sum h) refl)
    ]

simple : (p : Leg → Bool) (f : Leg → Leg) (t : Legs) → Moves p f → Effect t (update_rows p f t)
simple p f t h = updated p f h refl

checked-Effect :
    (b : Bool) (t : Legs) (k : M Leg)
    → (b ≡ false → Effect t (state_of (k t)))
    → Effect t (state_of ((raise_if b Error.unbalanced_parts >> k) t))
checked-Effect true t k h = nothing refl
checked-Effect false t k h = h refl

then_get-state :
    (r : Outcome Error Legs (Unit {0})) (e : String)
    → state_of (bind_outcome r (λ _. get_by_external_id e)) ≡ state_of r
unfolding get_by_external_id
then_get-state (ok a t) e = or_raise-state (find (has_id e) t.rows) t
then_get-state (err x t) e = refl

store_deposit-Effect :
    (e : String) (r : Amount) (sender : String) (p f : Amount) (t : Legs)
    → Effect t (state_of (store_deposit e r sender p f t))
unfolding store_deposit
store_deposit-Effect e r sender p f t =
    checked-Effect _ t (store_parts e r sender p f >> get_by_external_id e) (λ h.
      subst (λ s. Effect t s) (sym (then_get-state (store_parts e r sender p f t) e))
        (store_parts-Effect e r sender p f t (ground (arith, h))))

-- Every call of the store, successful or not, changes nothing, or inserts one new leg, or advances the
-- legs that its statement selects.
pub run-Effect : (now : ℕ) (op : Op) (t : Legs) → Effect t (run now op t)
unfolding run mark_forwarded mark_settled mark_failed mark_refund_pending mark_refunded
    mark_unrecoverable mark_expired mark_stale_alerted mark_forward_attempt_started
    mark_lease_released record_payout_tx record_vendor_fee
run-Effect now (create_leg l) t = create-Effect now l t
run-Effect now (to_forwarding e p o a) t = mark_forwarding-Effect now e p o a t
run-Effect now (replace_order e old p o a) t = replace_vendor_order-Effect now e old p o a t
run-Effect now (to_forwarded e x) t =
    mark-Effect e from_forwarding forwarded _ t (forwarded-Moves now e x)
run-Effect now (to_settled e a) t = mark-Effect e from_forwarded settled _ t (settled-Moves now e a)
run-Effect now (to_failed e) t =
    mark-Effect e (λ s. from_forwarding s || from_forwarded s) failed _ t (failed-Moves now e)
run-Effect now (to_refund_pending e) t =
    mark-Effect e (λ s. from_awaiting s || from_forwarding s) refund_pending _ t
      (refund_pending-Moves now e)
run-Effect now (to_unrecoverable e) t =
    mark-Effect e from_forwarded unrecoverable _ t (unrecoverable-Moves now e)
run-Effect now (to_expired e) t = mark-Effect e from_awaiting expired _ t (expired-Moves now e)
run-Effect now (to_refunded e x) t =
    mark-Effect e from_refund_pending refunded _ t (refunded-Moves now e x)
run-Effect now (stale_alerted e) t =
    simple (not_alerted e) (λ l. record l { stale_alerted_at = some now }) t
      (λ l h.
        same-Advances l (record l { stale_alerted_at = some now }) refl refl refl refl refl
          (inr (refl, refl, refl, refl)) (λ c. c.parts_known))
run-Effect now (attempt_started e) t =
    simple (λ l. has_id e l && not (is_some l.forward_attempt_started_at))
      (λ l. record l { forward_attempt_started_at = some now }) t
      (λ l h.
        same-Advances l (record l { forward_attempt_started_at = some now }) refl refl refl refl
          refl (inr (refl, refl, refl, refl)) (λ c. c.parts_known))
run-Effect now (lease_released e) t =
    simple (λ l. has_id e l && not (is_some l.lease_released_at))
      (λ l. record l { lease_released_at = some now }) t
      (λ l h.
        same-Advances l (record l { lease_released_at = some now }) refl refl refl refl refl
          (inr (refl, refl, refl, refl)) (λ c. c.parts_known))
run-Effect now (deposit_recorded e r s p f) t = store_deposit-Effect e r s p f t
run-Effect now (payout_recorded e x) t =
    simple (has_id e) (λ l. record l { payout_tx_id = some x }) t
      (λ l h.
        same-Advances l (record l { payout_tx_id = some x }) refl refl refl refl refl
          (inr (refl, refl, refl, refl)) (λ c. c.parts_known))
run-Effect now (vendor_fee_recorded e u) t =
    simple (has_id e) (λ l. record l { vendor_fee_amount = some u }) t
      (λ l h.
        same-Advances l (record l { vendor_fee_amount = some u }) refl refl refl refl refl
          (inr (refl, refl, refl, refl)) (λ c. c.parts_known))
