-- ===== src/Ledger/Orders/Transition.antt =====
-- Transition of ledger/internal/orders/store.go: the one way an order's state changes.
pub mod Steps
pub mod Outcomes
use convert_usdt_from_trc.Base.{
  ℕ, ◌+◌, Bool, true, false, ◌&&◌, ◌||◌, not, Option, none, some, List, ◌∷◌, ◌==◌, if◌then◌else◌,
  is_some,
}
use convert_usdt_from_trc.Base.Table.{find, exists, update}
use convert_usdt_from_trc.Base.Text.{String, str_eq}
use convert_usdt_from_trc.Ledger.Rows.{
  Env, State, Order, OrderRow, TransitionRow, EntryRequest, Entry, funded, illegal_transition,
  version_conflict, entry_required, entry_not_allowed, invalid_params, system_halted,
  constraint_violation,
}
use convert_usdt_from_trc.Ledger.Monad.{Outcome, ok, err, M, ◌>>=◌, ◌>>◌, pure, raise, raise_if}
use convert_usdt_from_trc.Ledger.Halt.{is_halted, cache_is_halted}
use convert_usdt_from_trc.Ledger.Journal.Post.{post, get_entry_by_idempotency_key}
use convert_usdt_from_trc.Ledger.Orders.{
  Rule, transition_table, valid_state, state_eq, scan_order, get,
}

pub record TransitionParams : Type 0 where
  pub actor : String
  pub reason : String
  pub occurred_at : ℕ
  pub entry : Option EntryRequest
  pub entry_id : Option ℕ
  pub sender_address : Option String

abbrev is_empty_text : Option String → Bool
is_empty_text none = false
is_empty_text (some s) = str_eq s ""

unfoldable pub validate_transition : TransitionParams → M (Unit {0})
validate_transition p = do
  raise_if (str_eq p.actor "") invalid_params
  raise_if (str_eq p.reason "") invalid_params
  raise_if (p.occurred_at == 0) invalid_params
  raise_if (is_some p.entry && is_some p.entry_id) invalid_params
  raise_if (is_empty_text p.sender_address) invalid_params

-- `errors.Is(err, journal.ErrEntryNotFound)` on the lookup of the key; the lookup has no other error.
abbrev pub known_of : Outcome Entry → Outcome Bool
known_of (ok e w) = ok true w
known_of (err x w) = ok false w

unfoldable pub key_exists : String → M Bool
key_exists key w = known_of (get_entry_by_idempotency_key key w)

abbrev pub or_illegal : Option Order → M Order
or_illegal none = raise illegal_transition
or_illegal (some o) = pure o

-- The row that the UPDATE's WHERE clause selects.
abbrev pub at_version : ℕ → ℕ → OrderRow → Bool
at_version id version r = r.id == id && r.version == version

abbrev pub coalesce : Option String → Option String → Option String
coalesce none old = old
coalesce (some s) old = some s

module _ (env : Env) where
  -- The order as it stands, where the entry was posted before; `none` defers to the caller.
  unfoldable pub replay_if_already_posted : Order → EntryRequest → M (Option Order)
  replay_if_already_posted current req = do
    known ← key_exists req.idempotency_key
    if known then post env req >>= (λ e. pure (some current)) else pure none

  -- The pair is not in the table.
  unfoldable pub illegal_or_replay : Order → State → Option EntryRequest → M Order
  illegal_or_replay current to none w = err illegal_transition w
  illegal_or_replay current to (some req) w =
      if state_eq to current.state
      then (replay_if_already_posted current req >>= or_illegal) w
      else err illegal_transition w

  -- The cached flag first, then the row of this transaction.
  unfoldable pub check_halt_flags : M (Unit {0})
  check_halt_flags = do
    fast_halted ← cache_is_halted env
    raise_if fast_halted system_halted
    auth_halted ← is_halted
    raise_if auth_halted system_halted

  unfoldable pub check_halt : Rule → M (Unit {0})
  check_halt r w = if r.halt_blocked then check_halt_flags w else ok tt w

  -- What a successful UPDATE sets.
  abbrev pub moved : State → Option String → OrderRow → OrderRow
  moved to sender r = record r {
    state = to;
    version = r.version + 1;
    updated_at = env.now;
    sender_address = coalesce sender r.sender_address;
  }

  -- The UPDATE on the row that its WHERE clause found, and on the tables that others have committed.
  abbrev pub swap : ℕ → State → ℕ → Option String → Option OrderRow → M Order
  swap id to expected sender none w = err version_conflict w
  swap id to expected sender (some r) w = ok (scan_order (moved to sender r)) (record w {
    orders = update (at_version id expected) (moved to sender) (env.other_commits w.orders);
  })

  -- `UPDATE orders … WHERE id = $2 AND version = $3 RETURNING …`, after what others have committed.
  unfoldable pub compare_and_swap : ℕ → State → ℕ → Option String → M Order
  compare_and_swap id to expected sender w =
      swap id to expected sender (find (at_version id expected) (env.other_commits w.orders)) w

  abbrev pub transition_row : ℕ → State → State → Option ℕ → TransitionParams → TransitionRow
  transition_row id from to entry_id p = record {
    order_id = id;
    from_state = from;
    to_state = to;
    entry_id = entry_id;
    actor = p.actor;
    reason = p.reason;
    occurred_at = p.occurred_at;
  }

  -- The foreign key of order_transitions.entry_id.
  abbrev pub entry_exists : Option ℕ → List Entry → Bool
  entry_exists none es = true
  entry_exists (some id) es = exists (λ e. e.id == id) es

  unfoldable pub log_transition : TransitionRow → M (Unit {0})
  log_transition row w =
      if entry_exists row.entry_id w.entries
      then ok tt (record w { transitions = row ∷ w.transitions })
      else err constraint_violation w

  abbrev post_entry : TransitionParams → Option EntryRequest → M (Option ℕ)
  post_entry p none = pure p.entry_id
  post_entry p (some req) = do entry ← post env req; pure (some entry.id)

  -- From the posting of the entry on.
  unfoldable pub move : ℕ → State → State → ℕ → TransitionParams → M Order
  move id from to expected p = do
    entry_id ← post_entry p p.entry
    updated ← compare_and_swap id to expected p.sender_address
    log_transition (transition_row id from to entry_id p)
    pure updated

  -- The pair is in the table, with the rule `r`.
  unfoldable pub legal : Rule → Order → ℕ → State → ℕ → TransitionParams → M Order
  legal r current id to expected p = do
    check_halt r
    raise_if (r.requires_entry && not (is_some p.entry) && not (is_some p.entry_id)) entry_required
    raise_if (not r.requires_entry && (is_some p.entry || is_some p.entry_id)) entry_not_allowed
    raise_if (is_some p.sender_address && not (state_eq to funded)) invalid_params
    move id current.state to expected p

  abbrev pub by_rule : Option Rule → Order → ℕ → State → ℕ → TransitionParams → M Order
  by_rule none current id to expected p = illegal_or_replay current to p.entry
  by_rule (some r) current id to expected p = legal r current id to expected p

  -- Transition.
  unfoldable pub transition : ℕ → State → ℕ → TransitionParams → M Order
  transition id to expected p = do
    raise_if (not (valid_state to)) invalid_params
    validate_transition p
    current ← get id
    raise_if (not (current.version == expected)) version_conflict
    by_rule (transition_table current.state to) current id to expected p
