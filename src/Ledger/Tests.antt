-- ===== src/Ledger/Tests.antt =====
-- Concrete tables of the ledger: a quoted order, and the request that books its deposit.
mod Journal
mod Orders
mod Snapshots
mod SelfCheck
use convert_usdt_from_trc.Base.{ℕ, refl, true, false, none, some, [], ◌∷◌, arith, All}
use convert_usdt_from_trc.Base.Int.{ℤ, pos, negsuc}
use convert_usdt_from_trc.Base.Int64.{IsInt64}
use convert_usdt_from_trc.Base.Text.{String}
use convert_usdt_from_trc.Money.{Asset, usdt_bep20, usdt_trc20}
use convert_usdt_from_trc.Ledger.Rows.{
  World, Env, Account, AccountType, Line, EntryRequest, Entry, OrderRow, SystemState, asset,
  position, expense, quoted, standard, replayed,
}
use convert_usdt_from_trc.Ledger.Monad.{Outcome, ok, err}
use convert_usdt_from_trc.Ledger.Journal.Post.{reversal_of}
use convert_usdt_from_trc.Ledger.Journal.Balance.{cached_units}
use convert_usdt_from_trc.Ledger.Journal.Sound.{IsSound}

-- A digest that tells requests of different instants apart.
abbrev pub env0 : Env
env0 = record {
  digest = λ p. p.occurred_at ∷ [];
  now = 5000;
  clock = 7000;
  committed_halted = false;
  other_commits = λ rows. rows;
}

abbrev pub account : ℕ → String → AccountType → Asset → Account
account id code kind a = record {
  id = id;
  code = code;
  account_type = kind;
  asset = a;
  normal_side = pos 1;
  is_active = true;
  opened_at = 1;
  metadata = [];
}

abbrev pub order0 : OrderRow
order0 = record {
  id = 1;
  external_id = "order-1";
  customer_id = "customer-1";
  tier = standard;
  state = quoted;
  amount_in = pos 1000000;
  amount_out = pos 990000;
  fee_units = pos 9000;
  network_fee_units = pos 1000;
  recipient_address = "T1";
  sender_address = none;
  quoted_at = 100;
  quote_expires_at = 900;
  version = 0;
  created_at = 100;
  updated_at = 100;
  relay_direction = none;
}

abbrev pub running : SystemState
running = record {
  halted = false;
  halt_reason = none;
  halt_detail = none;
  halted_at = none;
  halted_by = none;
  cleared_at = none;
  cleared_by = none;
}

abbrev pub world0 : World
world0 = record {
  accounts =
      account 1 "asset:deposit:bsc" asset usdt_bep20
      ∷ account 2 "position:corridor:USDT_BEP20" position usdt_bep20
      ∷ account 3 "expense:loss:reorg" expense usdt_trc20
      ∷ account 4 "position:corridor:USDT_TRC20" position usdt_trc20
      ∷ [];
  entries = [];
  lines = [];
  balances = [];
  orders = order0 ∷ [];
  transitions = [];
  system = running;
  halt_log = [];
  snapshots = [];
  next_account = 5;
  next_entry = 1;
  next_order = 2;
  halt_cache = some (record { halted = false; updated_at = 7000 });
}

pub world0-IsSound : IsSound world0
unfolding cached_units
world0-IsSound = record {
  cache_agrees = λ id. refl;
  entries_balance = λ e a. refl;
  trial_closes = λ a. refl;
  lines_posted = tt;
  lines_named = tt;
  accounts_known = tt;
  units_in_range = tt;
  ids_drawn = tt;
}

abbrev pub line : String → Asset → ℤ → Line
line code a u = record { account_code = code; amount = record { asset = a; units = u } }

abbrev pub deposit : ℕ → EntryRequest
deposit occurred_at = record {
  idempotency_key = "deposit:1";
  entry_type = "deposit_final";
  actor = "watcher";
  occurred_at = occurred_at;
  order_id = some 1;
  lines =
      line "asset:deposit:bsc" usdt_bep20 (pos 1000000)
      ∷ line "position:corridor:USDT_BEP20" usdt_bep20 (negsuc 999999)
      ∷ [];
  metadata = none;
}

pub deposit-in_range : All (λ l. IsInt64 l.amount.units) (deposit 3000).lines
deposit-in_range = (omega arith, (omega arith, tt))

abbrev pub world_of : {A : Type 0} → Outcome A → World
world_of (ok a w) = w
world_of (err e w) = w

abbrev pub value_of : {A : Type 0} → A → Outcome A → A
value_of d (ok a w) = a
value_of d (err e w) = d

abbrev pub no_entry : Entry
no_entry = record {
  id = 0;
  idempotency_key = "";
  payload_hash = [];
  entry_type = "";
  order_id = none;
  actor = "";
  occurred_at = 0;
  recorded_at = 0;
  reversal_of = none;
  metadata = [];
  lines = [];
  outcome = replayed;
}
