-- ===== src/Watcher/Agreement/Count.antt =====
-- LatestFinalized of depositwatcher/internal/chain/finality.go against a count of what each provider
-- reported.
use convert_usdt_from_trc.Base.{
  ℕ, ◌≡◌, refl, sym, ap, ◌∙◌, subst, true, false, ◌⊎◌, List, [], ◌∷◌, ◌++◌, map, ◌≤◌, ◌<◌, ◌↔◌,
  arith, Bool-cases, inl, inr, All, All-imp, length,
}
use convert_usdt_from_trc.Base.Table.{exists}
use convert_usdt_from_trc.Base.Text.{String}
use convert_usdt_from_trc.Watcher.Agreement.{
  agreed, keys_of, names_for, groups, FinalizedKey, finalized_eq, latest_finalized,
  resolve_agreement,
}
use convert_usdt_from_trc.Watcher.Agreement.Winner.{IsWinner, decide-IsWinner}
use convert_usdt_from_trc.Watcher.Agreement.Keys.{
  Result, count_for, Holds, finalized_eq-eq, finalized_eq_refl, length-names_for, All-keys_of,
  keys_of-All, Apart, keys_of-Apart, count_for-exists, All-counted,
}

-- A pair is the one in question, or was reported by fewer providers.
abbrev pub Beaten : FinalizedKey → List Result → FinalizedKey → Type 0
Beaten k rs k' = (k' ≡ k) ⊎ (count_for k' rs < count_for k rs)

-- Some provider reported the pair, enough did, and fewer reported any other.
abbrev pub HasMost : ℕ → FinalizedKey → List Result → Type 0
HasMost min_agreement k rs =
    (1 ≤ count_for k rs)
    × (min_agreement ≤ count_for k rs)
    × All (λ (r : Result). Holds (Beaten k rs) r.key) rs

abbrev group_of : List Result → FinalizedKey → FinalizedKey × List String
group_of rs k = (k, names_for finalized_eq k rs)

module _ {A : Type 0} (P : A → Type 0) where
  All-joined : (xs ys : List A) (x : A) → All P xs → P x → All P ys → All P (xs ++ x ∷ ys)
  All-joined [] ys x a h b = (h, b)
  All-joined (y ∷ xs) ys x a h b = (a.0, All-joined xs ys x a.1 h b)

  All-parts : (xs ys : List A) (x : A) → All P (xs ++ x ∷ ys) → All P xs × P x × All P ys
  All-parts [] ys x a = (tt, a.0, a.1)
  All-parts (y ∷ xs) ys x a =
      let (before, here, after) = All-parts xs ys x a.1 in ((a.0, before), here, after)

map-append : {A B : Type 0} (f : A → B) (xs ys : List A) → map f (xs ++ ys) ≡ map f xs ++ map f ys
map-append f [] ys = refl
map-append f (x ∷ xs) ys = ap (λ t. f x ∷ t) (map-append f xs ys)

All-of_map :
    {A B : Type 0} (P : B → Type 0) (f : A → B) (xs : List A)
    → All P (map f xs)
    → All (λ x. P (f x)) xs
All-of_map P f [] a = tt
All-of_map P f (x ∷ xs) a = (a.0, All-of_map P f xs a.1)

All-to_map :
    {A B : Type 0} (P : B → Type 0) (f : A → B) (xs : List A)
    → All (λ x. P (f x)) xs
    → All P (map f xs)
All-to_map P f [] a = tt
All-to_map P f (x ∷ xs) a = (a.0, All-to_map P f xs a.1)

-- A key stands at one place.
abbrev StandsIn : FinalizedKey → List FinalizedKey → Type 0
StandsIn k ks =
    (before : List FinalizedKey) × (after : List FinalizedKey) × (ks ≡ before ++ k ∷ after)
    × All (λ x. finalized_eq k x ≡ false) before
    × All (λ x. finalized_eq k x ≡ false) after

none_equal :
    (k : FinalizedKey) (ks : List FinalizedKey)
    → exists (finalized_eq k) ks ≡ false
    → All (λ x. finalized_eq k x ≡ false) ks
none_equal k [] h = tt
none_equal k (x ∷ xs) h = elim (Bool-cases (finalized_eq k x)) [
  | inl same ↦ absurd (let bad = rw same at h in cc)
  | inr other ↦ (other, none_equal k xs (rw other at h))
]

exists-StandsIn :
    (k : FinalizedKey) (ks : List FinalizedKey)
    → exists (finalized_eq k) ks ≡ true
    → Apart ks
    → StandsIn k ks
exists-StandsIn k [] h a = cc
exists-StandsIn k (x ∷ xs) h a = elim (Bool-cases (finalized_eq k x)) [
  | inl same ↦
      let e = finalized_eq-eq k x same in
      (
        [],
        xs,
        ap (λ t. t ∷ xs) (sym e),
        tt,
        none_equal k xs (subst (λ t. exists (finalized_eq t) xs ≡ false) (sym e) a.0),
      )
  | inr other ↦
      let (before, after, there, b, c) = exists-StandsIn k xs (rw other at h) a.1 in
      (x ∷ before, after, ap (λ t. x ∷ t) there, (other, b), c)
]

-- Among other keys, each beaten one has fewer names.
fewer_names :
    (k : FinalizedKey) (rs : List Result) (ks : List FinalizedKey)
    → All (λ x. finalized_eq k x ≡ false) ks
    → All (Beaten k rs) ks
    → All (λ g. length g.1 < length (names_for finalized_eq k rs)) (map (group_of rs) ks)
fewer_names k rs [] d b = tt
fewer_names k rs (x ∷ xs) d b = (
  elim b.0 [
    | inl same ↦ absurd (
        let bad : true ≡ false =
          sym (finalized_eq_refl k) ∙ subst (λ t. finalized_eq k t ≡ false) same d.0 in
        cc)
    | inr less ↦ let m = length-names_for x rs in let n = length-names_for k rs in omega arith
  ],
  fewer_names k rs xs d.1 b.1,
)

-- What a winning group says of the count.
IsWinner-HasMost :
    (min_agreement : ℕ) (k : FinalizedKey) (names : List String) (rs : List Result)
    → IsWinner min_agreement (groups finalized_eq rs) (k, names)
    → HasMost min_agreement k rs
unfolding groups
IsWinner-HasMost min_agreement k names rs i =
    let keys = keys_of finalized_eq rs in
    let Named : FinalizedKey × List String → Type 0 =
      λ g. (g.1 ≡ names_for finalized_eq g.0 rs) × (1 ≤ count_for g.0 rs) in
    let named : All Named (map (group_of rs) keys) = All-to_map Named (group_of rs) keys (
      All-imp _ _ keys (λ x h. (refl, h))
        (All-keys_of (λ x. 1 ≤ count_for x rs) rs (All-counted rs))) in
    let here = (All-parts Named i.before i.after (k, names) (subst (All Named) i.stands named)).1 in
    let size : length names ≡ count_for k rs = ap length here.0 ∙ length-names_for k rs in
    let Less : FinalizedKey × List String → Type 0 = λ g. (g.0 ≡ k) ⊎ (length g.1 < length names) in
    let less : All Less (map (group_of rs) keys) = subst (All Less) (sym i.stands) (
      All-joined Less i.before i.after (k, names)
        (All-imp _ _ i.before (λ g h. inr h) i.more_than_before) (inl refl)
        (All-imp _ _ i.after (λ g h. inr h) i.more_than_after)) in
    let enough = i.enough in
    let counted : 1 ≤ count_for k rs = here.1 in
    (
      counted,
      omega arith,
      keys_of-All (Beaten k rs) rs (
          All-imp _ _ keys (λ x h. as_count k x names rs size h)
            (All-of_map Less (group_of rs) keys less)),
    )
  where
    as_count :
        (k x : FinalizedKey) (names : List String) (rs : List Result)
        → length names ≡ count_for k rs
        → (x ≡ k) ⊎ (length (names_for finalized_eq x rs) < length names)
        → Beaten k rs x
    as_count k x names rs size (inl same) = inl same
    as_count k x names rs size (inr less) = inr (let m = length-names_for x rs in omega arith)

-- And what the count says of the groups.
HasMost-IsWinner :
    (min_agreement : ℕ) (k : FinalizedKey) (rs : List Result)
    → HasMost min_agreement k rs
    → IsWinner min_agreement (groups finalized_eq rs) (group_of rs k)
unfolding groups
HasMost-IsWinner min_agreement k rs (some', enough, beaten) =
    let keys = keys_of finalized_eq rs in
    let (before, after, there, b, c) =
      exists-StandsIn k keys (count_for-exists k rs some') (keys_of-Apart rs) in
    let (first, self, last) =
      All-parts (Beaten k rs) before after k
        (subst (All (Beaten k rs)) there (All-keys_of (Beaten k rs) rs beaten)) in
    record {
      before = map (group_of rs) before;
      after = map (group_of rs) after;
      stands = ap (map (group_of rs)) there ∙ map-append (group_of rs) before (k ∷ after);
      enough = let n = length-names_for k rs in omega arith;
      more_than_before = fewer_names k rs before b first;
      more_than_after = fewer_names k rs after c last;
    }

-- LatestFinalized returns a height with its hash exactly where some provider reported both, at least
-- as many as the minimum did, and fewer reported any other pair; a provider that failed counts for
-- none, and the order in which the providers and their groups come does not matter.
pub latest_finalized-HasMost :
    (min_agreement : ℕ) (rs : List Result) (k : FinalizedKey)
    → (latest_finalized min_agreement rs ≡ agreed k) ↔ HasMost min_agreement k rs
unfolding latest_finalized resolve_agreement
latest_finalized-HasMost min_agreement rs k =
    let d = decide-IsWinner min_agreement (groups finalized_eq rs) k in
    (
      λ h. let (names, i) = d.0 h in IsWinner-HasMost min_agreement k names rs i,
      λ m. d.1 (names_for finalized_eq k rs, HasMost-IsWinner min_agreement k rs m),
    )
