-- ===== src/Watcher/Agreement/Winner.antt =====
-- Which result depositwatcher/internal/chain/agreement.go takes.
use convert_usdt_from_trc.Base.{
  ℕ, ◌≡◌, refl, sym, ap, ◌∙◌, subst, true, false, none, some, List, [], ◌∷◌, ◌++◌, ◌==◌, ◌≤◌, ◌<◌,
  ◌↔◌, ltb, arith, Bool-cases, inl, inr, All, All-imp, length, ==_iff,
}
use convert_usdt_from_trc.Base.Text.{String}
use convert_usdt_from_trc.Watcher.Agreement.{agreed, Leader, consider, tally, outcome, decide}

module _ {K : Type 0} (min_agreement : ℕ) where
  abbrev votes : K × List String → ℕ
  votes g = length g.1

  -- A group that is large enough, and larger than every other.
  pub record IsWinner (gs : List (K × List String)) (w : K × List String) : Type 0 where
    pub before : List (K × List String)
    pub after : List (K × List String)
    pub stands : gs ≡ before ++ w ∷ after
    pub enough : min_agreement ≤ length w.1
    pub more_than_before : All (λ g. length g.1 < length w.1) before
    pub more_than_after : All (λ g. length g.1 < length w.1) after

  -- What the loop knows of the groups it has seen.
  abbrev Known : List (K × List String) → Leader K → Type 0
  Known gs (none, ambiguous) = (ambiguous ≡ false) × All (λ g. length g.1 < min_agreement) gs
  Known gs (some w, ambiguous) =
      (min_agreement ≤ length w.1)
      × All (λ g. length g.1 ≤ length w.1) gs
      × (ambiguous ≡ false → IsWinner gs w)

  within :
      (w : K × List String) (gs : List (K × List String))
      → IsWinner gs w
      → All (λ g. length g.1 ≤ length w.1) gs
  within w gs i =
      subst (All (λ g. length g.1 ≤ length w.1)) (sym i.stands)
        (joined i.before (All-imp _ _ i.before (λ g h. omega arith) i.more_than_before))
    where
      joined :
          (gs : List (K × List String))
          → All (λ g. length g.1 ≤ length w.1) gs
          → All (λ g. length g.1 ≤ length w.1) (gs ++ w ∷ i.after)
      joined [] a = (omega arith, All-imp _ _ i.after (λ g h. omega arith) i.more_than_after)
      joined (g ∷ gs) a = (a.0, joined gs a.1)

  first-IsWinner :
      (g : K × List String) (gs : List (K × List String))
      → min_agreement ≤ length g.1
      → All (λ h. length h.1 < length g.1) gs
      → IsWinner (g ∷ gs) g
  first-IsWinner g gs m a = record {
    before = [];
    after = gs;
    stands = refl;
    enough = m;
    more_than_before = tt;
    more_than_after = a;
  }

  later-IsWinner :
      (g w : K × List String) (gs : List (K × List String))
      → length g.1 < length w.1
      → IsWinner gs w
      → IsWinner (g ∷ gs) w
  later-IsWinner g w gs small i = record {
    before = g ∷ i.before;
    after = i.after;
    stands = ap (λ t. g ∷ t) i.stands;
    enough = i.enough;
    more_than_before = (small, i.more_than_before);
    more_than_after = i.more_than_after;
  }

  consider-Known :
      (g : K × List String) (gs : List (K × List String)) (l : Leader K)
      → Known gs l
      → Known (g ∷ gs) (consider min_agreement g l)
  consider-Known g gs (none, amb) k = elim (Bool-cases (ltb (length g.1) min_agreement)) [
    | inl few ↦ rw few (k.0, (ground (arith, few), k.1))
    | inr many ↦
        let enough : min_agreement ≤ length g.1 = ground (arith, many) in
        rw many (
          enough,
          (omega arith, All-imp _ _ gs (λ h b. omega arith) k.1),
          λ q. first-IsWinner g gs enough (All-imp _ _ gs (λ h b. omega arith) k.1),
        )
  ]
  consider-Known g gs (some w, amb) k = elim (Bool-cases (ltb (length g.1) min_agreement)) [
    | inl few ↦
        let small : length g.1 < min_agreement = ground (arith, few) in
        let m = k.0 in
        rw few (m, (omega arith, k.1), λ q. later-IsWinner g w gs (omega arith) (k.2 q))
    | inr many ↦
        let enough : min_agreement ≤ length g.1 = ground (arith, many) in
        elim (Bool-cases (length g.1 == length w.1)) [
          | inl tie ↦
              let same = (==_iff (length g.1) (length w.1)).0 tie in
              rw many (rw tie (k.0, (omega arith, k.1), λ q. cc))
          | inr apart ↦ elim (Bool-cases (ltb (length w.1) (length g.1))) [
            | inl more ↦
                let larger : length w.1 < length g.1 = ground (arith, more) in
                rw many (
                  rw apart (
                    rw more (
                      enough,
                      (omega arith, All-imp _ _ gs (λ h b. omega arith) k.1),
                      λ q. first-IsWinner g gs enough (All-imp _ _ gs (λ h b. omega arith) k.1),
                    )))
            | inr less ↦
                let smaller : length g.1 < length w.1 = ground (arith, apart, less) in
                rw many (
                  rw apart
                    (rw less (k.0, (omega arith, k.1), λ q. later-IsWinner g w gs smaller (k.2 q))))
          ]
        ]
  ]

  tally-Known : (gs : List (K × List String)) → Known gs (tally min_agreement gs)
  tally-Known [] = (refl, tt)
  tally-Known (g ∷ gs) = consider-Known g gs (tally min_agreement gs) (tally-Known gs)

  -- The leader has fewer than `n` votes.
  abbrev Below : ℕ → Leader K → Type 0
  Below n (none, ambiguous) = ambiguous ≡ false
  Below n (some w, ambiguous) = length w.1 < n

  consider-Below :
      (n : ℕ) (g : K × List String) (l : Leader K)
      → length g.1 < n
      → Below n l
      → Below n (consider min_agreement g l)
  consider-Below n g (none, amb) small b = elim (Bool-cases (ltb (length g.1) min_agreement)) [
    | inl few ↦ rw few b
    | inr many ↦ rw many small
  ]
  consider-Below n g (some w, amb) small b = elim (Bool-cases (ltb (length g.1) min_agreement)) [
    | inl few ↦ rw few b
    | inr many ↦ elim (Bool-cases (length g.1 == length w.1)) [
      | inl tie ↦ rw many (rw tie b)
      | inr apart ↦ elim (Bool-cases (ltb (length w.1) (length g.1))) [
        | inl more ↦ rw many (rw apart (rw more small))
        | inr less ↦ rw many (rw apart (rw less b))
      ]
    ]
  ]

  tally-Below :
      (n : ℕ) (gs : List (K × List String))
      → All (λ g. length g.1 < n) gs
      → Below n (tally min_agreement gs)
  tally-Below n [] a = refl
  tally-Below n (g ∷ gs) a = consider-Below n g (tally min_agreement gs) a.0 (tally-Below n gs a.1)

  abbrev leads : K × List String → Leader K
  leads w = (some w, false)

  takes_lead :
      (w : K × List String) (l : Leader K)
      → min_agreement ≤ length w.1
      → Below (length w.1) l
      → consider min_agreement w l ≡ leads w
  takes_lead w (none, amb) m b =
      let many : ltb (length w.1) min_agreement ≡ false = ground arith in rw many (rw b refl)
  takes_lead w (some v, amb) m b =
      let many : ltb (length w.1) min_agreement ≡ false = ground arith in
      let apart : (length w.1 == length v.1) ≡ false = ground arith in
      let more : ltb (length v.1) (length w.1) ≡ true = ground arith in
      rw many (rw apart (rw more refl))

  keeps_lead :
      (w g : K × List String)
      → length g.1 < length w.1
      → consider min_agreement g (leads w) ≡ leads w
  keeps_lead w g small = elim (Bool-cases (ltb (length g.1) min_agreement)) [
    | inl few ↦ rw few refl
    | inr many ↦
        let apart : (length g.1 == length w.1) ≡ false = ground arith in
        let less : ltb (length w.1) (length g.1) ≡ false = ground arith in
        rw many (rw apart (rw less refl))
  ]

  tally-leads :
      (before after : List (K × List String)) (w : K × List String)
      → min_agreement ≤ length w.1
      → All (λ g. length g.1 < length w.1) before
      → All (λ g. length g.1 < length w.1) after
      → tally min_agreement (before ++ w ∷ after) ≡ leads w
  tally-leads [] after w m b a =
      takes_lead w (tally min_agreement after) m (tally-Below (length w.1) after a)
  tally-leads (g ∷ gs) after w m b a =
      ap (consider min_agreement g) (tally-leads gs after w m b.1 a) ∙ keeps_lead w g b.0

  decided :
      (gs : List (K × List String)) (l : Leader K) (k : K)
      → Known gs l
      → outcome min_agreement l ≡ agreed k
      → (names : List String) × IsWinner gs (k, names)
  decided gs (none, true) k known h = cc
  decided gs (none, false) k known h = cc
  decided gs (some w, true) k known h = cc
  decided gs (some (k', names), false) k known h =
      let same : k' ≡ k = cc in (names, subst (λ x. IsWinner gs (x, names)) same (known.2 refl))

  pub decide-IsWinner :
      (gs : List (K × List String)) (k : K)
      → (decide min_agreement gs ≡ agreed k) ↔ ((names : List String) × IsWinner gs (k, names))
  decide-IsWinner gs k = (
    decided gs (tally min_agreement gs) k (tally-Known gs),
    λ (names, i).
        ap (λ x. decide min_agreement x) i.stands
        ∙ ap (outcome min_agreement)
            (tally-leads i.before i.after (k, names) i.enough i.more_than_before i.more_than_after),
  )
