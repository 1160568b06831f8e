-- ===== src/Watcher/Finality/Keys.antt =====
-- The keys of depositwatcher/internal/finality/finality.go: maps of candidates, and the open rows of the
-- deposits table.
use convert_usdt_from_trc.Base.{
  ◌≡◌, refl, sym, ap, ◌∙◌, subst, Bool, true, false, ◌&&◌, List, [], ◌∷◌, if◌then◌else◌, arith,
  Bool-cases, inl, inr, All, ==_iff,
}
use convert_usdt_from_trc.Base.Table.{exists}
use convert_usdt_from_trc.Base.Text.{String, eq_iff, eq_refl}
use convert_usdt_from_trc.Watcher.Candidates.{Key, key_eq, key, Candidate, key_of}
use convert_usdt_from_trc.Watcher.Deposits.{Status, Row, is_detected, has_key, set_status}
use convert_usdt_from_trc.Watcher.Finality.{has, remove}

pub key_eq-eq : (a b : Key) → key_eq a b ≡ true → a ≡ b
key_eq-eq a b h =
    let t : a.tx_hash ≡ b.tx_hash = (eq_iff a.tx_hash b.tx_hash).0 (ground (arith, h)) in
    let i : a.log_index ≡ b.log_index = (==_iff a.log_index b.log_index).0 (ground (arith, h)) in
    λ x. record { tx_hash = t x; log_index = i x }

pub key_eq_refl : (a : Key) → key_eq a a ≡ true
key_eq_refl a = rw (eq_refl a.tx_hash) ((==_iff a.log_index a.log_index).1 refl)

pub key_eq_sym : (a b : Key) → key_eq a b ≡ false → key_eq b a ≡ false
key_eq_sym a b h = elim (Bool-cases (key_eq b a)) [
  | inr off ↦ off
  | inl on ↦
      let same = key_eq-eq b a on in
      let clash = rw same at h in let k = rw (key_eq_refl a) at clash in cc
]

-- Whether a key's row still waits for its report.
abbrev pub open_row : Key → Row → Bool
open_row k r = has_key k r && is_detected r.status

abbrev pub is_open : Key → List Row → Bool
is_open k rows = exists (open_row k) rows

-- Maps: their keys differ.
abbrev pub IsDistinct : List Candidate → Type 0
IsDistinct [] = Unit
IsDistinct (c ∷ cs) = (exists (has (key_of c)) cs ≡ false) × IsDistinct cs

abbrev pub DistinctKeys : List Key → Type 0
DistinctKeys [] = Unit
DistinctKeys (k ∷ ks) = (exists (key_eq k) ks ≡ false) × DistinctKeys ks

module _ (k : Key) (st : Status) (note : String) (closing : is_detected st ≡ false) where
  -- A status that is not DETECTED closes its key's rows, and no other.
  pub closed-is_open : (rows : List Row) → is_open k (set_status k st note rows) ≡ false
  unfolding set_status
  closed-is_open [] = refl
  closed-is_open (r ∷ rs) = elim (Bool-cases (has_key k r)) [
    | inl hit ↦ rw hit (rw hit (rw closing (closed-is_open rs)))
    | inr miss ↦ rw miss (rw miss (closed-is_open rs))
  ]

  pub other-is_open :
      (k' : Key)
      → key_eq k k' ≡ false
      → (rows : List Row) → is_open k' (set_status k st note rows) ≡ is_open k' rows
  unfolding set_status
  other-is_open k' other [] = refl
  other-is_open k' other (r ∷ rs) = elim (Bool-cases (has_key k r)) [
    | inr miss ↦ rw miss (ap (λ t. if open_row k' r then true else t) (other-is_open k' other rs))
    | inl hit ↦
        let off : has_key k' r ≡ false =
          subst (λ x. key_eq x k' ≡ false) (sym (key_eq-eq (key r.log) k hit)) other in
        rw hit (rw off (other-is_open k' other rs))
  ]

  pub known-set_status :
      (k' : Key) (rows : List Row)
      → exists (has_key k') (set_status k st note rows) ≡ exists (has_key k') rows
  unfolding set_status
  known-set_status k' [] = refl
  known-set_status k' (r ∷ rs) = elim (Bool-cases (has_key k r)) [
    | inr miss ↦ rw miss (ap (λ t. if has_key k' r then true else t) (known-set_status k' rs))
    | inl hit ↦ rw hit (ap (λ t. if has_key k' r then true else t) (known-set_status k' rs))
  ]

exists-remove :
    (k k' : Key) (cs : List Candidate)
    → exists (has k') cs ≡ false
    → exists (has k') (remove k cs) ≡ false
exists-remove k k' [] h = refl
exists-remove k k' (c ∷ cs) h = ground (arith, exists-remove k k' cs)

pub remove-IsDistinct : (k : Key) (cs : List Candidate) → IsDistinct cs → IsDistinct (remove k cs)
remove-IsDistinct k [] d = tt
remove-IsDistinct k (c ∷ cs) d = elim (Bool-cases (has k c)) [
  | inl hit ↦ rw hit (remove-IsDistinct k cs d.1)
  | inr miss ↦ rw miss (exists-remove k (key_of c) cs d.0, remove-IsDistinct k cs d.1)
]

abbrev pub AllOpen : List Row → List Candidate → Type 0
AllOpen rows cs = All (λ c. is_open (key_of c) rows ≡ true) cs

-- What a key's removal leaves is open, where only that key was closed.
pub remove-AllOpen :
    (k : Key) (rows rows' : List Row) (cs : List Candidate)
    → ((k' : Key) → key_eq k k' ≡ false → is_open k' rows' ≡ is_open k' rows)
    → AllOpen rows cs
    → AllOpen rows' (remove k cs)
remove-AllOpen k rows rows' [] same a = tt
remove-AllOpen k rows rows' (c ∷ cs) same a = elim (Bool-cases (has k c)) [
  | inl hit ↦ rw hit (remove-AllOpen k rows rows' cs same a.1)
  | inr miss ↦ rw miss (
    same (key_of c) (key_eq_sym (key_of c) k miss) ∙ a.0,
    remove-AllOpen k rows rows' cs same a.1,
  )
]
