-- ===== src/Ledger/Rows.antt =====
-- The rows that the ledger stores and the values that its packages exchange: the types of
-- ledger/internal/accounts/account.go, journal/journal.go, orders/order.go and halt/halt.go, and
-- the tables of ledger/migrations as one record.
use convert_usdt_from_trc.Base.{ℕ, Bool, Option, List}
use convert_usdt_from_trc.Base.Int.{ℤ}
use convert_usdt_from_trc.Base.Text.{String}
use convert_usdt_from_trc.Money
use convert_usdt_from_trc.Money.{Asset, Amount}

-- The sentinels that `errors.Is` finds in the errors of the ledger's packages, and the two that
-- the driver reports: a violated constraint, and a number that does not fit its Go type.
pub data Error : Type 0 where
  money : Money.Error → Error
  invalid_code unknown_account_type account_not_found : Error
  too_few_lines too_many_lines zero_amount_line line_asset_mismatch unbalanced : Error
  invalid_idempotency_key idempotency_conflict : Error
  entry_not_found already_reversed cannot_reverse_a_reversal invalid_reverse_params : Error
  clear_requires_operator halt_cache_not_configured system_halted : Error
  order_not_found illegal_transition version_conflict entry_required entry_not_allowed : Error
  invalid_params unexpected_state invalid_snapshot_params : Error
  constraint_violation scan_range : Error

-- accounts.Type: the closed set, and any other spelling.
pub data AccountType : Type 0 where
  asset liability revenue expense equity position : AccountType
  other : String → AccountType

pub record Discrepancy : Type 0 where
  pub account_id : ℕ
  pub account_code : String
  pub asset : Asset
  pub cached_units : ℤ
  pub computed_units : ℤ

-- A value of the `map[string]any` fields.
pub data Value : Type 0 where
  text : String → Value
  int : ℤ → Value
  discrepancies : List Discrepancy → Value

abbrev pub Detail : Type 0
Detail = List (String × Value)

-- A time.Time is its nanoseconds since Go's zero time, which is 0.
pub record Account : Type 0 where
  pub id : ℕ
  pub code : String
  pub account_type : AccountType
  pub asset : Asset
  pub normal_side : ℤ
  pub is_active : Bool
  pub opened_at : ℕ
  pub metadata : Detail

pub record Line : Type 0 where
  pub account_code : String
  pub amount : Amount

pub record EntryRequest : Type 0 where
  pub idempotency_key : String
  pub entry_type : String
  pub actor : String
  pub occurred_at : ℕ
  pub order_id : Option ℕ
  pub lines : List Line
  pub metadata : Option Detail

pub record PostedLine : Type 0 where
  pub seq : ℤ
  pub account_id : ℕ
  pub account_code : String
  pub amount : Amount

pub data PostOutcome : Type 0 where
  created replayed : PostOutcome

pub record Entry : Type 0 where
  pub id : ℕ
  pub idempotency_key : String
  pub payload_hash : List ℕ
  pub entry_type : String
  pub order_id : Option ℕ
  pub actor : String
  pub occurred_at : ℕ
  pub recorded_at : ℕ
  pub reversal_of : Option ℕ
  pub metadata : Detail
  pub lines : List PostedLine
  pub outcome : PostOutcome

-- A row of journal_lines.
pub record LineRow : Type 0 where
  pub entry_id : ℕ
  pub seq : ℤ
  pub account_id : ℕ
  pub asset : Asset
  pub units : ℤ

-- A row of account_balances.
pub record BalanceRow : Type 0 where
  pub account_id : ℕ
  pub asset : Asset
  pub balance_units : ℤ
  pub last_entry_id : ℕ
  pub updated_at : ℕ

-- orders.State and orders.Tier: the closed sets, and any other spelling.
pub data State : Type 0 where
  quoted funded screened dispatching settled held refunded expired : State
  other : String → State

pub data Tier : Type 0 where
  direct standard sweep relay : Tier
  other : String → Tier

pub data RelayDirection : Type 0 where
  bep20_to_trc20 trc20_to_bep20 : RelayDirection

-- A row of orders: the four amounts are bare units there.
pub record OrderRow : Type 0 where
  pub id : ℕ
  pub external_id : String
  pub customer_id : String
  pub tier : Tier
  pub state : State
  pub amount_in : ℤ
  pub amount_out : ℤ
  pub fee_units : ℤ
  pub network_fee_units : ℤ
  pub recipient_address : String
  pub sender_address : Option String
  pub quoted_at : ℕ
  pub quote_expires_at : ℕ
  pub version : ℕ
  pub created_at : ℕ
  pub updated_at : ℕ
  pub relay_direction : Option RelayDirection

-- orders.Order: the amounts carry their assets.
pub record Order : Type 0 where
  pub id : ℕ
  pub external_id : String
  pub customer_id : String
  pub tier : Tier
  pub state : State
  pub amount_in : Amount
  pub amount_out : Amount
  pub fee_units : Amount
  pub network_fee_units : Amount
  pub recipient_address : String
  pub sender_address : Option String
  pub quoted_at : ℕ
  pub quote_expires_at : ℕ
  pub version : ℕ
  pub created_at : ℕ
  pub updated_at : ℕ

-- A row of order_transitions.
pub record TransitionRow : Type 0 where
  pub order_id : ℕ
  pub from_state : State
  pub to_state : State
  pub entry_id : Option ℕ
  pub actor : String
  pub reason : String
  pub occurred_at : ℕ

-- The row of system_state.
pub record SystemState : Type 0 where
  pub halted : Bool
  pub halt_reason : Option String
  pub halt_detail : Option Detail
  pub halted_at : Option ℕ
  pub halted_by : Option String
  pub cleared_at : Option ℕ
  pub cleared_by : Option String

-- A row of halt_log; `set_halt` and `clear_halt` are the actions 'set' and 'clear'.
pub data HaltAction : Type 0 where
  set_halt clear_halt : HaltAction

pub record HaltLogRow : Type 0 where
  pub action : HaltAction
  pub reason : Option String
  pub detail : Option Detail
  pub note : Option String
  pub actor : String

-- A row of recon_snapshots.
pub record SnapshotRow : Type 0 where
  pub account_id : ℕ
  pub asset : Asset
  pub observed_units : ℤ
  pub chain_ref : String
  pub ledger_units : ℤ
  pub watermark : ℕ
  pub drift_units : ℤ
  pub observed_at : ℕ

-- halt.Cache, without its pool and its mutex.
pub record HaltCache : Type 0 where
  pub halted : Bool
  pub updated_at : ℕ

-- The tables, the next ids of their sequences, and the process's halt cache.
pub record World : Type 0 where
  pub accounts : List Account
  pub entries : List Entry
  pub lines : List LineRow
  pub balances : List BalanceRow
  pub orders : List OrderRow
  pub transitions : List TransitionRow
  pub system : SystemState
  pub halt_log : List HaltLogRow
  pub snapshots : List SnapshotRow
  pub next_account : ℕ
  pub next_entry : ℕ
  pub next_order : ℕ
  pub halt_cache : Option HaltCache

-- What canonicalHash serialises.
pub record HashPayload : Type 0 where
  pub entry_type : String
  pub order_id : Option ℕ
  pub lines : List Line
  pub occurred_at : ℕ

-- What a call reads from outside the tables: SHA-256 of the payload's JSON, the transaction's
-- now(), time.Now(), the committed halt flag that the halt cache's own connection reads, and what
-- other transactions commit to the orders between this one's first read and its UPDATE.
pub record Env : Type 0 where
  pub digest : HashPayload → List ℕ
  pub now : ℕ
  pub clock : ℕ
  pub committed_halted : Bool
  pub other_commits : List OrderRow → List OrderRow
