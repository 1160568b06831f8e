-- ===== src/Watcher/Agreement.antt =====
-- depositwatcher/internal/chain/agreement.go and LatestFinalized of chain/finality.go: what enough providers
-- report alike.
-- The map of the groups is a list, of which the loop takes the last first; K is the type of what is
-- reported and `eq` its equality. Which provider is marked healthy or not (recordSuccess, recordFailure)
-- is what `succeeded` and `failed` say.
pub mod Winner
pub mod Keys
pub mod Count
use convert_usdt_from_trc.Base.{
  ℕ, Bool, true, false, ◌&&◌, not, Option, none, some, List, [], ◌∷◌, ◌++◌, map, ◌==◌, ltb,
  if◌then◌else◌, length,
}
use convert_usdt_from_trc.Base.Table.{exists, select}
use convert_usdt_from_trc.Base.Text.{String, str_eq}

-- namedResult: without a key, the provider failed.
pub record NamedResult (K : Type 0) : Type 0 where
  pub name : String
  pub key : Option K

pub data Agreed (K : Type 0) : Type 0 where
  agreed : K → Agreed K
  ambiguous_agreement no_agreement : Agreed K

module _ {K : Type 0} (eq : K → K → Bool) where
  abbrev reports : K → NamedResult K → Bool
  reports k r = elim r.key [ none ↦ false | some k' ↦ eq k' k ]

  abbrev pub names_for : K → List (NamedResult K) → List String
  names_for k rs = map (λ r. r.name) (select (reports k) rs)

  abbrev pub add_key : Option K → List K → List K
  add_key none ks = ks
  add_key (some k) ks = if exists (eq k) ks then ks else k ∷ ks

  abbrev pub keys_of : List (NamedResult K) → List K
  keys_of [] = []
  keys_of (r ∷ rs) = add_key r.key (keys_of rs)

  -- Each key with the names of the providers that report it.
  unfoldable pub groups : List (NamedResult K) → List (K × List String)
  groups rs = map (λ k. (k, names_for k rs)) (keys_of rs)

-- The largest group so far, and whether another one is as large.
abbrev pub Leader : Type 0 → Type 0
Leader K = Option (K × List String) × Bool

module _ {K : Type 0} (min_agreement : ℕ) where
  abbrev contend : K × List String → Option (K × List String) → Bool → Leader K
  contend g none ambiguous = (some g, ambiguous)
  contend g (some w) ambiguous =
      if length g.1 == length w.1
      then (some w, true)
      else if ltb (length w.1) (length g.1)
      then (some g, false)
      else (some w, ambiguous)

  abbrev pub consider : K × List String → Leader K → Leader K
  consider g (w, ambiguous) =
      if ltb (length g.1) min_agreement then (w, ambiguous) else contend g w ambiguous

  abbrev pub tally : List (K × List String) → Leader K
  tally [] = (none, false)
  tally (g ∷ gs) = consider g (tally gs)

  abbrev pub outcome : Leader K → Agreed K
  outcome (w, true) = ambiguous_agreement
  outcome (none, false) = no_agreement
  outcome (some w, false) = agreed w.0

  abbrev pub decide : List (K × List String) → Agreed K
  decide gs = outcome (tally gs)

  abbrev winning : Leader K → List String
  winning (some w, false) = w.1
  winning l = []

  abbrev flat : List (K × List String) → List String
  flat [] = []
  flat (g ∷ gs) = g.1 ++ flat gs

  abbrev pub members : List (K × List String) → Leader K → List String × List String
  members [] l = ([], [])
  members (g ∷ []) (none, ambiguous) = ([], [])
  members (g ∷ []) (some w, ambiguous) = (w.1, [])
  members (g ∷ h ∷ gs) l = (
    select (λ n. exists (str_eq n) (winning l)) (flat (g ∷ h ∷ gs)),
    select (λ n. not (exists (str_eq n) (winning l))) (flat (g ∷ h ∷ gs)),
  )

abbrev errors : {K : Type 0} → List (NamedResult K) → List String
errors rs = map (λ r. r.name) (select (λ r. elim r.key [ none ↦ true | some k ↦ false ]) rs)

-- resolveAgreement: the result, and the providers that took part in it and those that did not.
unfoldable pub resolve_agreement :
    {K : Type 0} → (K → K → Bool) → ℕ → List (NamedResult K) → Agreed K × List String × List String
resolve_agreement eq min_agreement rs =
    let gs = groups eq rs in
    let taking_part = members min_agreement gs (tally min_agreement gs) in
    (decide min_agreement gs, taking_part.0, errors rs ++ taking_part.1)

-- LatestFinalized: a height with its hash.
pub record FinalizedKey : Type 0 where
  pub height : ℕ
  pub hash : String

abbrev pub finalized_eq : FinalizedKey → FinalizedKey → Bool
finalized_eq a b = (a.height == b.height) && str_eq a.hash b.hash

unfoldable pub latest_finalized : ℕ → List (NamedResult FinalizedKey) → Agreed FinalizedKey
latest_finalized min_agreement rs = (resolve_agreement finalized_eq min_agreement rs).0
