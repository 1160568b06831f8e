-- ===== src/Watcher/Orphaned.antt =====
-- depositwatcher/internal/orphaned/orphaned.go: the deposits that the ledger has no open order for.
pub mod Once
use convert_usdt_from_trc.Base.{
  ℕ, ◌+◌, Bool, ◌&&◌, not, Option, none, some, List, ◌∷◌, ◌==◌, if◌then◌else◌, is_some,
}
use convert_usdt_from_trc.Base.Int.{ℤ}
use convert_usdt_from_trc.Base.Action.{ok, Action, ◌>>=◌, ◌>>◌, raise, gets, or_raise, modify}
use convert_usdt_from_trc.Base.Table.{find, exists, update}
use convert_usdt_from_trc.Base.Text.{String, str_eq}

-- What Record inserts.
pub record Report : Type 0 where
  pub order_id : ℕ
  pub external_id : String
  pub tx_hash : String
  pub log_index : ℕ
  pub amount : ℤ
  pub detected_at : ℕ
  pub order_state_at_detection : String
  pub address : String

pub record Deposit : Type 0 where
  pub id : ℕ
  pub report : Report
  pub resolution : Option String
  pub resolved_at : Option ℕ
  pub resolved_by : Option String

-- The table, and the next id of its sequence.
pub record Orphans : Type 0 where
  pub rows : List Deposit
  pub next_id : ℕ

pub data Error : Type 0 where
  not_found already_resolved : Error

abbrev pub M : Type 0 → Type 0
M A = Action Error Orphans A

abbrev pub same_log : Report → Deposit → Bool
same_log r d = str_eq d.report.tx_hash r.tx_hash && (d.report.log_index == r.log_index)

abbrev pub new_orphan : ℕ → Report → Deposit
new_orphan id r = record {
  id = id;
  report = r;
  resolution = none;
  resolved_at = none;
  resolved_by = none;
}

-- Record: `INSERT … ON CONFLICT (tx_hash, log_index) DO NOTHING`.
unfoldable pub record_orphan : Report → M (Unit {0})
record_orphan r = modify (λ t.
    if exists (same_log r) t.rows
    then t
    else record { rows = new_orphan t.next_id r ∷ t.rows; next_id = t.next_id + 1 })

abbrev pub with_id : ℕ → Deposit → Bool
with_id id d = d.id == id

unfoldable pub get_orphan : ℕ → M Deposit
get_orphan id = do found ← gets (λ t. find (with_id id) t.rows); or_raise found not_found

abbrev pub unresolved : ℕ → Deposit → Bool
unresolved id d = with_id id d && not (is_some d.resolution)

abbrev pub resolved : ℕ → String → String → Deposit → Deposit
resolved now resolution by d = record d {
  resolution = some resolution;
  resolved_at = some now;
  resolved_by = some by;
}

abbrev pub settle : ℕ → ℕ → String → String → Option Deposit → M Deposit
settle now id resolution by none t = (get_orphan id >>= λ d. raise already_resolved) t
settle now id resolution by (some d) t =
    ok (resolved now resolution by d)
      (record t { rows = update (unresolved id) (resolved now resolution by) t.rows })

-- Resolve at the time `now`.
unfoldable pub resolve : ℕ → ℕ → String → String → M Deposit
resolve now id resolution by t = settle now id resolution by (find (unresolved id) t.rows) t
