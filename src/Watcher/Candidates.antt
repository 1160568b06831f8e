-- ===== src/Watcher/Candidates.antt =====
-- depositwatcher/internal/finality/finality.go and internal/chain/classify.go: a deposit on its way to finality.
use convert_usdt_from_trc.Base.{ℕ, Bool, true, false, ◌&&◌, if◌then◌else◌, Option, none, ◌==◌}
use convert_usdt_from_trc.Base.Int.{ℤ, ltb_ℤ, ◌-ℤ◌, is_zero}
use convert_usdt_from_trc.Base.Text.{String, str_eq}

-- candidateKey.
pub record Key : Type 0 where
  pub tx_hash : String
  pub log_index : ℕ

abbrev pub key_eq : Key → Key → Bool
key_eq a b = str_eq a.tx_hash b.tx_hash && (a.log_index == b.log_index)

pub data Classification : Type 0 where
  exact overpay underpay dust zero_value : Classification

abbrev pub is_zero_value : Classification → Bool
is_zero_value zero_value = true
is_zero_value c = false

-- ClassifyAgainstOrder.
unfoldable pub classify_against_order : ℤ → ℤ → ℤ → Classification
classify_against_order amount quoted dust_floor =
    if is_zero amount
    then zero_value
    else if is_zero (amount -ℤ quoted)
    then exact
    else if ltb_ℤ quoted amount
    then overpay
    else if ltb_ℤ amount dust_floor
    then dust
    else underpay

pub record ObservedLog : Type 0 where
  pub tx_hash : String
  pub log_index : ℕ
  pub height : ℕ
  pub block_time : ℕ
  pub order_id : ℕ
  pub external_id : String
  pub customer_id : String
  pub amount : ℤ
  pub sender_address : String
  pub address : String

abbrev pub key : ObservedLog → Key
key o = record { tx_hash = o.tx_hash; log_index = o.log_index }

-- The fields of Design B (async.go) are left out: these functions do not read them.
pub record Candidate : Type 0 where
  pub log : ObservedLog
  pub classification : Classification
  pub detected_at : ℕ
  pub alerted_stale : Bool
  pub finalized_at : Option ℕ
  pub contradicted : Bool

abbrev pub key_of : Candidate → Key
key_of c = key c.log

abbrev pub new_candidate : ObservedLog → Classification → ℕ → Candidate
new_candidate log classification now = record {
  log = log;
  classification = classification;
  detected_at = now;
  alerted_stale = false;
  finalized_at = none;
  contradicted = false;
}
