-- ===== src/Watcher/Agreement/Keys.antt =====
-- The keys that LatestFinalized of depositwatcher/internal/chain/finality.go groups by, against what each
-- provider reported.
use convert_usdt_from_trc.Base.{
  ℕ, ◌+◌, ◌≡◌, refl, sym, ap, ◌∙◌, subst, Bool, true, false, Option, none, some, List, [], ◌∷◌, ◌≤◌,
  if◌then◌else◌, arith, Bool-cases, inl, inr, All, All-imp, length, ==_iff, Option-cases,
}
use convert_usdt_from_trc.Base.Table.{exists}
use convert_usdt_from_trc.Base.Text.{eq_iff, eq_refl}
use convert_usdt_from_trc.Watcher.Agreement.{
  keys_of, add_key, names_for, NamedResult, FinalizedKey, finalized_eq,
}

abbrev pub Result : Type 0
Result = NamedResult FinalizedKey

-- Whether a provider reported this height with this hash; one that failed reported nothing.
abbrev pub reported : FinalizedKey → Option FinalizedKey → Bool
reported k none = false
reported k (some k') = finalized_eq k' k

-- How many providers reported it.
unfoldable pub count_for : FinalizedKey → List Result → ℕ
count_for k [] = 0
count_for k (r ∷ rs) = (if reported k r.key then 1 else 0) + count_for k rs

-- A property of what a provider reported, if it reported anything.
abbrev pub Holds : (FinalizedKey → Type 0) → Option FinalizedKey → Type 0
Holds P none = Unit {0}
Holds P (some k) = P k

pub finalized_eq-eq : (a b : FinalizedKey) → finalized_eq a b ≡ true → a ≡ b
finalized_eq-eq a b h =
    let height : a.height ≡ b.height = (==_iff a.height b.height).0 (ground (arith, h)) in
    let hash : a.hash ≡ b.hash = (eq_iff a.hash b.hash).0 (ground (arith, h)) in
    ap (λ n. record a { height = n }) height ∙ ap (λ t. record b { hash = t }) hash

pub finalized_eq_refl : (a : FinalizedKey) → finalized_eq a a ≡ true
finalized_eq_refl a = rw (eq_refl a.hash) (ground (arith, ==_iff a.height a.height))

pub length-names_for :
    (k : FinalizedKey) (rs : List Result) → length (names_for finalized_eq k rs) ≡ count_for k rs
unfolding count_for
length-names_for k [] = refl
length-names_for k (r ∷ rs) =
    let rest = length-names_for k rs in
    elim (Option-cases r.key) [
      | inl failed ↦ rw failed (rest ∙ omega arith)
      | inr (k', there) ↦ elim (Bool-cases (finalized_eq k' k)) [
        | inl same ↦ rw there (rw same (omega arith))
        | inr other ↦ rw there (rw other (omega arith))
      ]
    ]

All-add_key :
    (P : FinalizedKey → Type 0) (o : Option FinalizedKey) (ks : List FinalizedKey)
    → Holds P o
    → All P ks
    → All P (add_key finalized_eq o ks)
All-add_key P none ks h a = a
All-add_key P (some k) ks h a = elim (Bool-cases (exists (finalized_eq k) ks)) [
  | inl old ↦ rw old a
  | inr new ↦ rw new (h, a)
]

-- What holds of all that was reported holds of the keys.
pub All-keys_of :
    (P : FinalizedKey → Type 0) (rs : List Result)
    → All (λ (r : Result). Holds P r.key) rs
    → All P (keys_of finalized_eq rs)
All-keys_of P [] h = tt
All-keys_of P (r ∷ rs) h = All-add_key P r.key (keys_of finalized_eq rs) h.0 (All-keys_of P rs h.1)

All-exists :
    (P : FinalizedKey → Type 0) (k : FinalizedKey) (ks : List FinalizedKey)
    → exists (finalized_eq k) ks ≡ true
    → All P ks
    → P k
All-exists P k [] h a = cc
All-exists P k (x ∷ xs) h a = elim (Bool-cases (finalized_eq k x)) [
  | inl same ↦ subst P (sym (finalized_eq-eq k x same)) a.0
  | inr other ↦ All-exists P k xs (rw other at h) a.1
]

add_key-All :
    (P : FinalizedKey → Type 0) (o : Option FinalizedKey) (ks : List FinalizedKey)
    → All P (add_key finalized_eq o ks)
    → Holds P o × All P ks
add_key-All P none ks a = (tt, a)
add_key-All P (some k) ks a = elim (Bool-cases (exists (finalized_eq k) ks)) [
  | inl old ↦ let rest = rw old at a in (All-exists P k ks old rest, rest)
  | inr new ↦ let both = rw new at a in both
]

-- And what holds of the keys holds of all that was reported.
pub keys_of-All :
    (P : FinalizedKey → Type 0) (rs : List Result)
    → All P (keys_of finalized_eq rs)
    → All (λ (r : Result). Holds P r.key) rs
keys_of-All P [] a = tt
keys_of-All P (r ∷ rs) a =
    let (here, rest) = add_key-All P r.key (keys_of finalized_eq rs) a in
    (here, keys_of-All P rs rest)

-- No key stands twice.
abbrev pub Apart : List FinalizedKey → Type 0
Apart [] = Unit {0}
Apart (k ∷ ks) = (exists (finalized_eq k) ks ≡ false) × Apart ks

add_key-Apart :
    (o : Option FinalizedKey) (ks : List FinalizedKey)
    → Apart ks
    → Apart (add_key finalized_eq o ks)
add_key-Apart none ks a = a
add_key-Apart (some k) ks a = elim (Bool-cases (exists (finalized_eq k) ks)) [
  | inl old ↦ rw old a
  | inr new ↦ rw new (new, a)
]

pub keys_of-Apart : (rs : List Result) → Apart (keys_of finalized_eq rs)
keys_of-Apart [] = tt
keys_of-Apart (r ∷ rs) = add_key-Apart r.key (keys_of finalized_eq rs) (keys_of-Apart rs)

add_key-exists :
    (k : FinalizedKey) (o : Option FinalizedKey) (ks : List FinalizedKey)
    → (reported k o ≡ false → exists (finalized_eq k) ks ≡ true)
    → exists (finalized_eq k) (add_key finalized_eq o ks) ≡ true
add_key-exists k none ks h = h refl
add_key-exists k (some k') ks h = elim (Bool-cases (finalized_eq k' k)) [
  | inl same ↦
      let e = finalized_eq-eq k' k same in
      elim (Bool-cases (exists (finalized_eq k') ks)) [
        | inl old ↦ rw old (subst (λ x. exists (finalized_eq x) ks ≡ true) e old)
        | inr new ↦ rw new (rw e (rw (finalized_eq_refl k) refl))
      ]
  | inr other ↦ elim (Bool-cases (exists (finalized_eq k') ks)) [
    | inl old ↦ rw old (h other)
    | inr new ↦ rw new (let rest = h other in ground (arith, rest))
  ]
]

-- What is counted at all is a key.
pub count_for-exists :
    (k : FinalizedKey) (rs : List Result)
    → 1 ≤ count_for k rs
    → exists (finalized_eq k) (keys_of finalized_eq rs) ≡ true
unfolding count_for
count_for-exists k [] h = absurd (let bad : 1 ≤ 0 = h in omega arith)
count_for-exists k (r ∷ rs) h =
    add_key-exists k r.key (keys_of finalized_eq rs)
      (λ miss. count_for-exists k rs (let rest = rw miss at h in omega arith))

more_counted :
    (k : FinalizedKey) (r : Result) (rs : List Result) → count_for k rs ≤ count_for k (r ∷ rs)
unfolding count_for
more_counted k r rs = omega arith

first_counted :
    (r : Result) (rs : List Result) (o : Option FinalizedKey)
    → r.key ≡ o
    → Holds (λ k. 1 ≤ count_for k (r ∷ rs)) o
unfolding count_for
first_counted r rs none h = tt
first_counted r rs (some k) h = rw h (rw (finalized_eq_refl k) (omega arith))

Holds-imp :
    (P Q : FinalizedKey → Type 0) (o : Option FinalizedKey)
    → ((k : FinalizedKey) → P k → Q k)
    → Holds P o
    → Holds Q o
Holds-imp P Q none f h = tt
Holds-imp P Q (some k) f h = f k h

-- All that was reported is counted.
pub All-counted :
    (rs : List Result) → All (λ (r : Result). Holds (λ k. 1 ≤ count_for k rs) r.key) rs
All-counted [] = tt
All-counted (r ∷ rs) = (
  first_counted r rs r.key refl,
  All-imp _ _ rs
      (λ (x : Result) h.
        Holds-imp (λ k. 1 ≤ count_for k rs) (λ k. 1 ≤ count_for k (r ∷ rs)) x.key
          (λ k c. let m = more_counted k r rs in omega arith) h)
      (All-counted rs),
)
