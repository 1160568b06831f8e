-- ===== src/Watcher/Confirmations.antt =====
-- depositwatcher/internal/finality/async.go: the votes of the providers on one deposit.
-- A map is an association list without a name twice. The texts of the notes are left out.
pub mod Maps
pub mod Quorum
use convert_usdt_from_trc.Base.{
  ℕ, Bool, true, false, ◌&&◌, ◌||◌, not, Option, none, some, List, [], ◌∷◌, ◌==◌, leb, ltb,
  if◌then◌else◌, length, map,
}
use convert_usdt_from_trc.Base.Int.{ℤ, ◌-ℤ◌, is_zero}
use convert_usdt_from_trc.Base.Table.{find, exists, select}
use convert_usdt_from_trc.Base.Text.{String, str_eq}

pub data AsyncCandidateStatus : Type 0 where
  async_pending quorum_reached async_not_found disagreement_alert : AsyncCandidateStatus

pub record ProviderObservation : Type 0 where
  pub height : ℕ
  pub block_hash : String
  pub present : Bool
  pub order_id : ℕ
  pub amount : ℤ

pub record HashKey : Type 0 where
  pub height : ℕ
  pub block_hash : String

pub record FactsKey : Type 0 where
  pub hash : HashKey
  pub order_id : ℕ
  pub amount : ℤ

abbrev pub hash_key : ProviderObservation → HashKey
hash_key o = record { height = o.height; block_hash = o.block_hash }

abbrev pub facts_key : ProviderObservation → FactsKey
facts_key o = record { hash = hash_key o; order_id = o.order_id; amount = o.amount }

abbrev pub hash_eq : HashKey → HashKey → Bool
hash_eq a b = (a.height == b.height) && str_eq a.block_hash b.block_hash

abbrev pub facts_eq : FactsKey → FactsKey → Bool
facts_eq a b = hash_eq a.hash b.hash && (a.order_id == b.order_id) && is_zero (a.amount -ℤ b.amount)

module _ {V : Type 0} where
  abbrev pub delete : String → List (String × V) → List (String × V)
  delete name m = select (λ e. not (str_eq e.0 name)) m

  abbrev pub put : String → V → List (String × V) → List (String × V)
  put name v m = (name, v) ∷ delete name m

  -- Whether a provider other than this one said something else.
  abbrev pub another : String → (V → Bool) → List (String × V) → Bool
  another name differs m = exists (λ e. not (str_eq e.0 name) && differs e.1) m

pub record CandidateConfirmations : Type 0 where
  pub min_agreement : ℕ
  pub present_by_provider : List (String × FactsKey)
  pub absent_by_provider : List (String × HashKey)
  pub disagreement : Bool

unfoldable pub new_candidate_confirmations : ℕ → CandidateConfirmations
new_candidate_confirmations min_agreement = record {
  min_agreement = if ltb min_agreement 1 then 1 else min_agreement;
  present_by_provider = [];
  absent_by_provider = [];
  disagreement = false;
}

unfoldable pub status_locked : CandidateConfirmations → AsyncCandidateStatus
status_locked c =
    if c.disagreement
    then disagreement_alert
    else if leb c.min_agreement (length c.present_by_provider)
    then quorum_reached
    else if leb c.min_agreement (length c.absent_by_provider)
    then async_not_found
    else async_pending

-- The provider's own latest view, in one of the two maps.
abbrev pub seen_view :
    String → ProviderObservation → CandidateConfirmations → CandidateConfirmations
seen_view name obs c = record c {
  absent_by_provider = delete name c.absent_by_provider;
  present_by_provider = put name (facts_key obs) c.present_by_provider;
}

abbrev pub missing_view :
    String → ProviderObservation → CandidateConfirmations → CandidateConfirmations
missing_view name obs c = record c {
  present_by_provider = delete name c.present_by_provider;
  absent_by_provider = put name (hash_key obs) c.absent_by_provider;
}

abbrev pub store_view :
    String → ProviderObservation → CandidateConfirmations → CandidateConfirmations
store_view name obs c = if obs.present then seen_view name obs c else missing_view name obs c

unfoldable pub record_disagreement :
    String
    → ProviderObservation
    → CandidateConfirmations
    → AsyncCandidateStatus × CandidateConfirmations
record_disagreement name obs c =
    (disagreement_alert, store_view name obs (record c { disagreement = true }))

-- A vote that contradicts another provider's.
unfoldable pub contradicts : String → ProviderObservation → CandidateConfirmations → Bool
contradicts name obs c =
    another name (λ f. not (hash_eq f.hash (hash_key obs))) c.present_by_provider
    || another name (λ h. not (hash_eq h (hash_key obs))) c.absent_by_provider
    || (obs.present && another name (λ f. not (facts_eq f (facts_key obs))) c.present_by_provider)

unfoldable pub record_confirmed :
    String
    → ProviderObservation
    → CandidateConfirmations
    → AsyncCandidateStatus × CandidateConfirmations
record_confirmed name obs c =
    if contradicts name obs c
    then record_disagreement name obs c
    else (status_locked (store_view name obs c), store_view name obs c)

-- ConfirmedProviders and AbsentProviders, before they are sorted.
abbrev pub names : {V : Type 0} → List (String × V) → List String
names m = map (λ e. e.0) m

-- ProviderHeightMonitor: the highest finalized height of each provider.
abbrev pub height_of : String → List (String × ℕ) → Option (String × ℕ)
height_of name m = find (λ e. str_eq e.0 name) m

abbrev check_seen : String → ℕ → List (String × ℕ) → Option (String × ℕ) → Bool × List (String × ℕ)
check_seen name height m none = (true, put name height m)
check_seen name height m (some prior) =
    if ltb height prior.1
    then (false, m)
    else if ltb prior.1 height
    then (true, put name height m)
    else (true, m)

unfoldable pub check : String → ℕ → List (String × ℕ) → Bool × List (String × ℕ)
check name height m = check_seen name height m (height_of name m)
