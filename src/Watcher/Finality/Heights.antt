-- ===== src/Watcher/Finality/Heights.antt =====
-- The deposits that depositwatcher/internal/finality/finality.go checks in one pass, height by height.
use convert_usdt_from_trc.Base.{
  ℕ, ◌≡◌, refl, sym, ◌∙◌, Bool, true, false, Option, none, some, List, [], ◌∷◌, ◌==◌, arith,
  Bool-cases, inl, inr, All, All-imp, All-zip, ==_iff,
}
use convert_usdt_from_trc.Base.Table.{exists, select}
use convert_usdt_from_trc.Watcher.Candidates.{Key, Candidate, key_of}
use convert_usdt_from_trc.Watcher.Deposits.{Row}
use convert_usdt_from_trc.Watcher.Finality.{
  Env, State, has, check_each, check_read, check_heights, heights, at_height, topics_for,
  check_ready, ready_candidates,
}
use convert_usdt_from_trc.Watcher.Finality.Keys.{key_eq_sym, is_open, IsDistinct, AllOpen}
use convert_usdt_from_trc.Watcher.Finality.Closing.{Inv, IsDurable, check_each-Inv}

absent-select :
    (k : Key) (p : Candidate → Bool) (cs : List Candidate)
    → exists (has k) cs ≡ false
    → exists (has k) (select p cs) ≡ false
absent-select k p [] h = refl
absent-select k p (c ∷ cs) h = ground (arith, absent-select k p cs)

select-IsDistinct :
    (p : Candidate → Bool) (cs : List Candidate) → IsDistinct cs → IsDistinct (select p cs)
select-IsDistinct p [] d = tt
select-IsDistinct p (c ∷ cs) d = elim (Bool-cases (p c)) [
  | inl hit ↦ rw hit (absent-select (key_of c) p cs d.0, select-IsDistinct p cs d.1)
  | inr miss ↦ rw miss (select-IsDistinct p cs d.1)
]

pub All-select :
    (p : Candidate → Bool) (Q : Candidate → Type 0) (cs : List Candidate)
    → All (λ c. p c ≡ true → Q c) cs
    → All Q (select p cs)
All-select p Q [] a = tt
All-select p Q (c ∷ cs) a = elim (Bool-cases (p c)) [
  | inl hit ↦ rw hit (a.0 hit, All-select p Q cs a.1)
  | inr miss ↦ rw miss (All-select p Q cs a.1)
]

pub absent-All :
    (k : Key) (cs : List Candidate) → exists (has k) cs ≡ false → All (λ c. has k c ≡ false) cs
absent-All k [] h = tt
absent-All k (c ∷ cs) h = elim (Bool-cases (has k c)) [
  | inl hit ↦ let bad = rw hit at h in cc
  | inr miss ↦ (miss, absent-All k cs (let rest = rw miss at h in rest))
]

abbrev Elsewhere : ℕ → List Candidate → Candidate → Type 0
Elsewhere h ready d =
    (d.log.height == h) ≡ false → exists (has (key_of d)) (at_height h ready) ≡ false

-- Among distinct deposits, none of another height has the key of one of this height.
other_height : (h : ℕ) (cs : List Candidate) → IsDistinct cs → All (Elsewhere h cs) cs
other_height h [] d = tt
other_height h (c ∷ cs) d = (
  λ off. rw off (absent-select (key_of c) (λ x. x.log.height == h) cs d.0),
  All-zip (Elsewhere h cs) (λ x. has (key_of c) x ≡ false) (Elsewhere h (c ∷ cs)) cs step
      (other_height h cs d.1) (absent-All (key_of c) cs d.0),
)
  where
    step : (x : Candidate) → Elsewhere h cs x → has (key_of c) x ≡ false → Elsewhere h (c ∷ cs) x
    step x old differs off = elim (Bool-cases (c.log.height == h)) [
      | inl on ↦ rw on (rw (key_eq_sym (key_of x) (key_of c) differs) (old off))
      | inr other ↦ rw other (old off)
    ]

abbrev IsNodup : List ℕ → Type 0
IsNodup [] = Unit
IsNodup (h ∷ hs) = (exists (λ x. h == x) hs ≡ false) × IsNodup hs

heights-IsNodup : (cs : List Candidate) → IsNodup (heights cs)
heights-IsNodup [] = tt
heights-IsNodup (c ∷ cs) = elim (Bool-cases (exists (λ h. c.log.height == h) (heights cs))) [
  | inl there ↦ rw there (heights-IsNodup cs)
  | inr new ↦ rw new (new, heights-IsNodup cs)
]

-- A deposit of one of these heights is open.
abbrev Todo : List ℕ → List Row → Candidate → Type 0
Todo hs rows d = exists (λ h. d.log.height == h) hs ≡ true → is_open (key_of d) rows ≡ true

module _ (env : Env) (ok : IsDurable env) where
  check_heights-Inv :
      (hs : List ℕ) (ready : List Candidate) (s : State)
      → IsNodup hs
      → IsDistinct ready
      → All (Todo hs s.deposits) ready
      → Inv s
      → Inv (check_heights env hs ready s)
  check_heights-Inv [] ready s n d a i = i
  check_heights-Inv (h ∷ hs) ready s n d a i =
      by_logs (λ t b j. check_heights-Inv hs ready t n.1 d b j)
        (env.logs_at h (topics_for (at_height h ready)))
    where
      later :
          (rows : List Row)
          → ((x : Candidate)
              → Elsewhere h ready x
              → (x.log.height == h) ≡ false
              → is_open (key_of x) rows ≡ is_open (key_of x) s.deposits)
          → All (Todo hs rows) ready
      later rows keep =
          All-zip (Elsewhere h ready) (Todo (h ∷ hs) s.deposits) (Todo hs rows) ready
            (λ x other todo member. elim (Bool-cases (x.log.height == h)) [
              | inl on ↦
                  let clash = rw ((==_iff x.log.height h).0 on) at member in
                  let both = sym clash ∙ n.0 in cc
              | inr off ↦ keep x other off ∙ todo (rw off member)
            ])
            (other_height h ready d) a

      here : AllOpen s.deposits (at_height h ready)
      here =
          All-select (λ x. x.log.height == h) (λ x. is_open (key_of x) s.deposits ≡ true) ready
            (All-imp (Todo (h ∷ hs) s.deposits)
              (λ x. (x.log.height == h) ≡ true → is_open (key_of x) s.deposits ≡ true) ready
              (λ x todo on. todo (rw on refl)) a)

      by_logs :
          ((t : State)
            → All (Todo hs t.deposits) ready
            → Inv t
            → Inv (check_heights env hs ready t))
          → (o : Option (List Key))
          → Inv (check_heights env hs ready (check_read env o (at_height h ready) s))
      by_logs next none = next s (later s.deposits (λ x e off. refl)) i
      by_logs next (some present) =
          let (done, others) =
            check_each-Inv env ok present (at_height h ready) s
              (select-IsDistinct (λ x. x.log.height == h) ready d) here i in
          next (check_each env present (at_height h ready) s)
            (later (check_each env present (at_height h ready) s).deposits
              (λ x e off. others (key_of x) (e off)))
            done

  AllOpen-select :
      (p : Candidate → Bool) (rows : List Row) (cs : List Candidate)
      → AllOpen rows cs
      → AllOpen rows (select p cs)
  AllOpen-select p rows [] a = tt
  AllOpen-select p rows (c ∷ cs) a = elim (Bool-cases (p c)) [
    | inl hit ↦ rw hit (a.0, AllOpen-select p rows cs a.1)
    | inr miss ↦ rw miss (AllOpen-select p rows cs a.1)
  ]

  open-Todo :
      (hs : List ℕ) (rows : List Row) (cs : List Candidate)
      → AllOpen rows cs
      → All (Todo hs rows) cs
  open-Todo hs rows [] a = tt
  open-Todo hs rows (c ∷ cs) a = (λ member. a.0, open-Todo hs rows cs a.1)

  pub check_ready-Inv : (h : ℕ) (s : State) → Inv s → Inv (check_ready env h s)
  unfolding check_ready ready_candidates
  check_ready-Inv h s i =
      let ready = ready_candidates h s in
      check_heights-Inv (heights ready) ready s (heights-IsNodup ready)
        (select-IsDistinct _ s.pending i.pending_distinct)
        (open-Todo (heights ready) s.deposits ready
          (AllOpen-select _ s.deposits s.pending i.pending_open))
        i
