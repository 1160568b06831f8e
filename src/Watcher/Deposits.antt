-- ===== src/Watcher/Deposits.antt =====
-- depositwatcher/internal/deposits/deposits.go: the deposits table.
use convert_usdt_from_trc.Base.{
  ℕ, Bool, true, false, Option, none, some, List, ◌∷◌, map, ◌==◌, if◌then◌else◌,
}
use convert_usdt_from_trc.Base.Table.{find, select, update, order_by}
use convert_usdt_from_trc.Base.Text.{String, str_eq}
use convert_usdt_from_trc.Watcher.Candidates.{
  Key, key_eq, ObservedLog, key, Candidate, Classification, new_candidate,
}

pub data Status : Type 0 where
  detected reported orphaned dropped : Status

abbrev pub is_detected : Status → Bool
is_detected detected = true
is_detected s = false

pub record Row : Type 0 where
  pub log : ObservedLog
  pub classification : Classification
  pub detected_at : ℕ
  pub status : Status
  pub note : Option String

abbrev pub has_key : Key → Row → Bool
has_key k r = key_eq (key r.log) k

abbrev pub new_deposit : ℕ → Candidate → Row
new_deposit now c = record {
  log = c.log;
  classification = c.classification;
  detected_at = now;
  status = detected;
  note = none;
}

-- Save: the rows, whether the deposit was known, and its status.
abbrev save_found : ℕ → Candidate → List Row → Option Row → List Row × Bool × Status
save_found now c rows none = (new_deposit now c ∷ rows, false, detected)
save_found now c rows (some r) = (rows, true, r.status)

unfoldable pub save : ℕ → Candidate → List Row → List Row × Bool × Status
save now c rows = save_found now c rows (find (has_key (key c.log)) rows)

abbrev note_of : String → Option String
note_of s = if str_eq s "" then none else some s

-- SetStatus.
unfoldable pub set_status : Key → Status → String → List Row → List Row
set_status k status note rows =
    update (has_key k) (λ r. record r { status = status; note = note_of note }) rows

abbrev pub candidate_of : Row → Candidate
candidate_of r = new_candidate r.log r.classification r.detected_at

-- LoadDetected; `collation` ranks the texts the way the database orders them.
unfoldable pub load_detected : (String → ℕ) → List Row → List Candidate
load_detected collation rows = map candidate_of (
    order_by (λ r. r.log.height)
      (order_by (λ r. collation r.log.tx_hash)
        (order_by (λ r. r.log.log_index) (select (λ r. is_detected r.status) rows))))

-- ForOrder.
unfoldable pub for_order : ℕ → List Row → List Row
for_order order_id rows =
    order_by (λ r. r.log.height)
      (order_by (λ r. r.log.log_index) (select (λ r. r.log.order_id == order_id) rows))
