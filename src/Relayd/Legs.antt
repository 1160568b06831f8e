-- ===== src/Relayd/Legs.antt =====
-- relayd/internal/relay/relay.go: the relay_legs table, with its reads and the guarded UPDATE of its statements.
pub mod Creation
pub mod Marks
pub mod Amounts
pub mod Lifecycle
pub mod Moves
pub mod Effects
pub mod Safety
pub mod Retry
use convert_usdt_from_trc.Base.{
  ℕ, Bool, true, false, ◌&&◌, not, Option, List, if◌then◌else◌, is_some,
}
use convert_usdt_from_trc.Base.Action.{ok, Action, ◌>>=◌, ◌>>◌, raise_if, gets, or_raise}
use convert_usdt_from_trc.Base.Int.{ℤ}
use convert_usdt_from_trc.Base.Table.{find, exists, select, update, order_by}
use convert_usdt_from_trc.Base.Text.{String, str_eq}
use convert_usdt_from_trc.Money.{Amount}

-- Status, of which the column's check admits these.
pub data Status : Type 0 where
  awaiting_deposit forwarding forwarded settled failed refund_pending refunded unrecoverable
        expired :
      Status

abbrev pub status_eq : Status → Status → Bool
status_eq awaiting_deposit awaiting_deposit = true
status_eq forwarding forwarding = true
status_eq forwarded forwarded = true
status_eq settled settled = true
status_eq failed failed = true
status_eq refund_pending refund_pending = true
status_eq refunded refunded = true
status_eq unrecoverable unrecoverable = true
status_eq expired expired = true
status_eq _ _ = false

-- A row as scanLeg reads it: an amount has the asset of its column's partner.
pub record Leg : Type 0 where
  pub id : ℕ
  pub external_id : String
  pub order_id : ℕ
  pub direction : String
  pub status : Status
  pub customer_id : String
  pub destination_address : String
  pub deposit_address : String
  pub deposit_derivation_index : Option ℕ
  pub amount_in : Amount
  pub amount_out_expected : Amount
  pub amount_out_actual : Option Amount
  pub upstream_provider_name : Option String
  pub upstream_order_id : Option String
  pub upstream_deposit_address : Option String
  pub forward_tx_id : Option String
  pub refund_tx_id : Option String
  pub stale_alerted_at : Option ℕ
  pub forward_attempt_started_at : Option ℕ
  pub created_at : ℕ
  pub updated_at : ℕ
  pub customer_label : Option String
  pub profit_bps : Option ℤ
  pub min_profit : Option ℤ
  pub received_amount : Option Amount
  pub sender_address : Option String
  pub profit_amount : Option Amount
  pub forward_amount : Option Amount
  pub vendor_fee_amount : Option ℤ
  pub lease_released_at : Option ℕ
  pub payout_tx_id : Option String

-- The errors of the store, and those of recordDeposit, which calls it.
pub data Error : Type 0 where
  leg_not_found not_in_expected_status unbalanced_parts constraint_violation : Error
  no_deposit_booked wrong_asset ledger_unreachable pricing_unreadable : Error

-- The table, and the next id of its sequence.
pub record Legs : Type 0 where
  pub rows : List Leg
  pub next_id : ℕ

abbrev pub M : Type 0 → Type 0
M A = Action Error Legs A

abbrev pub has_id : String → Leg → Bool
has_id external_id l = str_eq l.external_id external_id

unfoldable pub get_by_external_id : String → M Leg
get_by_external_id external_id = do
  found ← gets (λ t. find (has_id external_id) t.rows)
  or_raise found leg_not_found

unfoldable pub list_by_status : Status → M (List Leg)
list_by_status s = gets (λ t. order_by (λ l. l.id) (select (λ l. status_eq l.status s) t.rows))

-- A status at which a deposit wallet is handed back.
abbrev pub lease_ends : Status → Bool
lease_ends settled = true
lease_ends refunded = true
lease_ends unrecoverable = true
lease_ends expired = true
lease_ends s = false

unfoldable pub list_leases_to_release : M (List Leg)
list_leases_to_release = gets (λ t.
    order_by (λ l. l.id)
      (select (λ l. not (is_some l.lease_released_at) && lease_ends l.status) t.rows))

-- checkAlreadyAt: a leg that stands there already is a replay.
unfoldable pub check_already_at : String → Status → M (Unit {0})
check_already_at external_id want = do
  current ← get_by_external_id external_id
  raise_if (not (status_eq current.status want)) not_in_expected_status

-- `UPDATE relay_legs SET f WHERE external_id = … AND guard`; the rest runs where no row was affected.
abbrev pub update_rows : (Leg → Bool) → (Leg → Leg) → Legs → Legs
update_rows p f t = record t { rows = update p f t.rows }

abbrev pub selects : String → (Status → Bool) → Leg → Bool
selects external_id from l = has_id external_id l && from l.status

unfoldable pub mark : String → (Status → Bool) → Status → (Leg → Leg) → M (Unit {0})
mark external_id from to f t =
    if exists (selects external_id from) t.rows
    then ok tt (update_rows (selects external_id from) f t)
    else check_already_at external_id to t
