-- ===== src/Lib.antt =====
-- This library models the ledger of the USDT bridge between TRC20 and BEP20 (ledger/internal), the relay
-- service's legs and what it records of a deposit (relayd/internal), and the tracker of the BSC deposit
-- watcher (depositwatcher/internal).
--
-- The ledger keeps double-entry books of amounts in several assets, a state machine of orders, and a
-- halt flag. Orders post entries in the transaction that moves them; a reorganisation report reverses
-- a deposit's entry and, after a payout, halts the ledger. Moves that pay out check the halt flag.
--
-- The deposit watcher tracks a transfer to a leased wallet until the chain's finality covers it, and then
-- reports it to the ledger. The relay service keeps a leg for each order: the deposit that arrived,
-- the vendor's order, the forward or refund transaction, and its status.
--
-- The files:
-- - Base and its modules: shared names, int64 arithmetic over integers, results, tables of rows.
-- - Money (ledger/internal/money, which relayd/internal/money repeats): amounts, their checked
--   arithmetic, Format and ParseDecimal. Money.Bounds and Money.RoundTrip prove.
-- - Ledger.Rows: the rows of every table and the record World of all tables; Ledger.Monad: a call of a
--   package as a function from the tables to a value or an error, with the tables as they then are.
-- - Ledger.Accounts (accounts/), Ledger.Halt (halt/), Ledger.Journal and its modules Hash, Validate,
--   Post, Reverse and Balance (journal/), Ledger.Orders and its modules Create, Transition and Reorg
--   (orders/). A Go function has the same name in snake case; getEntryByID is get_entry_by_id and
--   Reverse is reverse_entry. Sound,
--   Books, Replay, Frame, Negation, Once, Steps, Outcomes, Table, Safety, AfterPayout, BeforeDispatch
--   and Effects prove.
-- - Ledger.Snapshots (recon/snapshot.go and toleranceFor of recon/config.go); Drift proves.
-- - Ledger.SelfCheck (recon/reconciler.go); Quiet and Halting prove.
-- - Relayd.Pricing (relayd/internal/pricing); Relayd.Legs (relayd/internal/relay/relay.go) and its modules
--   Creation, Marks and Amounts, a function for each statement on relay_legs; Relayd.Deposit
--   (relayd/internal/orchestrate/amounts.go), over the table of legs. Legs.Lifecycle gathers the calls and
--   states what one may do to a leg; Legs.Moves and Legs.Effects prove it of each call, Legs.Safety and
--   Legs.Retry of sequences of them.
-- - Watcher.Candidates and Watcher.Deposits (chain/classify.go, deposits/deposits.go), Watcher.Finality
--   (finality/finality.go): the maps are lists, and byHeight is the list of the heights with the
--   candidates of each. Finality.Keys, Closing, Heights, Recheck, Arrivals, Once, Verified and Progress
--   prove. Watcher.Confirmations (finality/async.go) and its modules Maps and Quorum: the votes of the
--   providers in Design B. Watcher.Agreement (chain/agreement.go and LatestFinalized of
--   chain/finality.go): what enough providers report alike; Winner, Keys and Count prove. Watcher.Orphaned
--   (orphaned/orphaned.go): the deposits left to an operator; Once proves.
-- - Tests under Money, Ledger, Relayd and Watcher: the theorems at concrete values.
--
-- A query is a function on the list of a table's rows, in the order of the statements, with unique
-- keys and foreign keys as the tables have them. What other transactions commit between the first
-- read of a Transition and its UPDATE is the function other_commits of Env; the digest of a payload
-- (SHA-256 of its JSON), the clocks and the committed halt flag are fields of Env too. Times are
-- nanoseconds from Go's zero time. int64 arithmetic wraps where the source does not check it.
--
-- Fuel: digits_of runs on 20 steps and print_decimal on 19, since an int64 has at most 19 digits;
-- RoundTrip proves the first enough. All other loops are structural.
--
-- What a call outside returns is an argument: the chain providers' agreed answers, the ledger's and the
-- stores' failures are the fields of Watcher.Finality.Env, one for each call, with the clock, which is read
-- once in a call; a balance and the admin's pricing are those of Relayd.Deposit.Outside. Calls on the
-- tracker are taken one after another, as if its mutex were held over the whole of each.
--
-- Not modelled: failures of the database driver, gaps in sequences, overflow of numeric and int32
-- columns, the audit log, error texts (only the sentinels), HTTP, JSON, the mutex of the halt cache,
-- the ticker of the self-check, the tick of Design B, the providers' queries and LogsAt, the rest of relayd
-- and of the watcher, and the other services.
pub mod Base
pub mod Money
pub mod Ledger
pub mod Relayd
pub mod Watcher
