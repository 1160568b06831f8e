-- ===== src/Relayd/Legs/Marks.antt =====
-- The statements of relayd/internal/relay/relay.go that move a leg along, and those that note a time.
use convert_usdt_from_trc.Base.{
  ℕ, Bool, false, ◌&&◌, ◌||◌, not, Option, none, some, if◌then◌else◌, is_some,
}
use convert_usdt_from_trc.Base.Action.{ok, err, modify}
use convert_usdt_from_trc.Base.Table.{exists}
use convert_usdt_from_trc.Base.Text.{String, str_eq}
use convert_usdt_from_trc.Money.{Amount}
use convert_usdt_from_trc.Relayd.Legs.{
  Status, awaiting_deposit, forwarding, forwarded, settled, failed, refund_pending, refunded,
  unrecoverable, expired, status_eq, Leg, not_in_expected_status, constraint_violation, M, has_id,
  update_rows, selects, mark,
}

-- The unique index on the vendor and its order.
abbrev same_text : Option String → String → Bool
same_text none s = false
same_text (some r) s = str_eq r s

abbrev pub order_taken : String → String → String → Leg → Bool
order_taken external_id provider order_id l =
    not (has_id external_id l)
    && same_text l.upstream_provider_name provider
    && same_text l.upstream_order_id order_id

abbrev pub from_awaiting : Status → Bool
from_awaiting s = status_eq s awaiting_deposit

abbrev pub from_forwarding : Status → Bool
from_forwarding s = status_eq s forwarding

abbrev pub from_forwarded : Status → Bool
from_forwarded s = status_eq s forwarded

abbrev pub from_refund_pending : Status → Bool
from_refund_pending s = status_eq s refund_pending

abbrev pub has_order : String → String → Leg → Bool
has_order external_id old l =
    has_id external_id l && status_eq l.status forwarding && same_text l.upstream_order_id old

abbrev pub not_alerted : String → Leg → Bool
not_alerted external_id l = has_id external_id l && not (is_some l.stale_alerted_at)

-- now() of a statement.
module _ (now : ℕ) where
  unfoldable pub mark_forwarding : String → String → String → String → M (Unit {0})
  mark_forwarding external_id provider order_id deposit_address t =
      if exists (selects external_id from_awaiting) t.rows
        && exists (order_taken external_id provider order_id) t.rows
      then err constraint_violation t
      else mark external_id from_awaiting forwarding
          (λ l. record l {
            status = forwarding;
            upstream_provider_name = some provider;
            upstream_order_id = some order_id;
            upstream_deposit_address = some deposit_address;
            updated_at = now;
          })
          t

  unfoldable pub replace_vendor_order : String → String → String → String → String → M (Unit {0})
  replace_vendor_order external_id old provider order_id deposit_address t =
      if exists (has_order external_id old) t.rows
      then if exists (order_taken external_id provider order_id) t.rows
        then err constraint_violation t
        else ok tt (
            update_rows (has_order external_id old)
              (λ l. record l {
                upstream_provider_name = some provider;
                upstream_order_id = some order_id;
                upstream_deposit_address = some deposit_address;
                updated_at = now;
              })
              t)
      else err not_in_expected_status t

  unfoldable pub mark_forwarded : String → String → M (Unit {0})
  mark_forwarded external_id tx =
      mark external_id from_forwarding forwarded
        (λ l. record l { status = forwarded; forward_tx_id = some tx; updated_at = now })

  unfoldable pub mark_settled : String → Amount → M (Unit {0})
  mark_settled external_id actual = mark external_id from_forwarded settled (λ l. record l {
    status = settled;
    amount_out_actual = some (record { asset = l.amount_out_expected.asset; units = actual.units });
    updated_at = now;
  })

  unfoldable pub mark_failed : String → M (Unit {0})
  mark_failed external_id =
      mark external_id (λ s. from_forwarding s || from_forwarded s) failed
        (λ l. record l { status = failed; updated_at = now })

  unfoldable pub mark_refund_pending : String → M (Unit {0})
  mark_refund_pending external_id =
      mark external_id (λ s. from_awaiting s || from_forwarding s) refund_pending
        (λ l. record l { status = refund_pending; updated_at = now })

  unfoldable pub mark_refunded : String → String → M (Unit {0})
  mark_refunded external_id tx =
      mark external_id from_refund_pending refunded
        (λ l. record l { status = refunded; refund_tx_id = some tx; updated_at = now })

  unfoldable pub mark_unrecoverable : String → M (Unit {0})
  mark_unrecoverable external_id =
      mark external_id from_forwarded unrecoverable
        (λ l. record l { status = unrecoverable; updated_at = now })

  unfoldable pub mark_expired : String → M (Unit {0})
  mark_expired external_id =
      mark external_id from_awaiting expired (λ l. record l { status = expired; updated_at = now })

  -- Whether this call is the first.
  unfoldable pub mark_stale_alerted : String → M Bool
  mark_stale_alerted external_id t =
      ok (exists (not_alerted external_id) t.rows)
        (update_rows (not_alerted external_id) (λ l. record l { stale_alerted_at = some now }) t)

  unfoldable pub mark_forward_attempt_started : String → M (Unit {0})
  mark_forward_attempt_started external_id = modify (
      update_rows (λ l. has_id external_id l && not (is_some l.forward_attempt_started_at))
        (λ l. record l { forward_attempt_started_at = some now }))

  unfoldable pub mark_lease_released : String → M (Unit {0})
  mark_lease_released external_id = modify (
      update_rows (λ l. has_id external_id l && not (is_some l.lease_released_at))
        (λ l. record l { lease_released_at = some now }))
