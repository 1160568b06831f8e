-- ===== src/Watcher/Finality/Progress.antt =====
-- What a tick of depositwatcher/internal/finality/finality.go leaves pending when everyone answers.
use convert_usdt_from_trc.Base.{
  ℕ, ◌≡◌, refl, sym, ap, ◌∙◌, subst, Bool, true, false, ◌||◌, not, some, List, [], ◌∷◌, ◌==◌, arith,
  Bool-cases, inl, inr, ◌⊎◌, All, All-imp, ==_iff, leb,
}
use convert_usdt_from_trc.Base.Table.{exists, select}
use convert_usdt_from_trc.Base.Text.{String}
use convert_usdt_from_trc.Watcher.Candidates.{Key, key_eq, Candidate, key_of}
use convert_usdt_from_trc.Watcher.Deposits.{Status, reported, orphaned, dropped}
use convert_usdt_from_trc.Watcher.Finality.{
  delivered, refused, Env, State, has, remove, record_status, drop, handle_unreportable, finalize,
  not_there, check_one, check_each, check_read, check_heights, heights, at_height, topics_for,
  check_ready, ready_candidates, check_stale_pending, check_finality, check_finality_at,
}
use convert_usdt_from_trc.Watcher.Finality.Keys.{key_eq_refl, key_eq_sym}
use convert_usdt_from_trc.Watcher.Finality.Recheck.{check_post_final_reorgs-SameCore}

-- The maps alone: what stays after the keys of some candidates are removed.
abbrev remove_all : List Candidate → List Candidate → List Candidate
remove_all [] p = p
remove_all (c ∷ cs) p = remove_all cs (remove (key_of c) p)

abbrev remove_heights : List ℕ → List Candidate → List Candidate → List Candidate
remove_heights [] ready p = p
remove_heights (h ∷ hs) ready p = remove_heights hs ready (remove_all (at_height h ready) p)

-- The ledger takes a deposit, or refuses it for good and the refusal is recorded.
abbrev pub Answered : Env → Candidate → Type 0
Answered env c =
    (env.on_final c ≡ delivered)
    ⊎ ((note : String) × (env.on_final c ≡ refused note) × (env.record_orphan c ≡ true))

module _ (env : Env) (answers : (c : Candidate) → Answered env c) where
  record_status-pending :
      (k : Key) (st : Status) (note : String) (s : State)
      → (record_status env k st note s).pending ≡ s.pending
  unfolding record_status
  record_status-pending k st note s =
      elim (Bool-cases (not env.has_store || env.set_status_fails k)) [
        | inl off ↦ rw off refl
        | inr on ↦ rw on refl
      ]

  finalize-pending :
      (c : Candidate) (s : State) → (finalize env c s).pending ≡ remove (key_of c) s.pending
  unfolding finalize handle_unreportable drop
  finalize-pending c s = elim (answers c) [
    | inl taken ↦ rw taken (
        ap (remove (key_of c)) (
          record_status-pending (key_of c) reported ""
            (record s { reports = key_of c ∷ s.reports })))
    | inr (note, gone, kept) ↦ rw gone (
        rw kept (
          ap (remove (key_of c)) (
            record_status-pending (key_of c) orphaned note
              (record s { orphans = key_of c ∷ s.orphans }))))
  ]

  check_one-pending :
      (present : List Key) (c : Candidate) (s : State)
      → (check_one env present c s).pending ≡ remove (key_of c) s.pending
  unfolding drop
  check_one-pending present c s = elim (Bool-cases (exists (key_eq (key_of c)) present)) [
    | inl there ↦ rw there (finalize-pending c s)
    | inr gone ↦ rw gone (record_status-pending (key_of c) dropped not_there (drop (key_of c) s))
  ]

  check_each-pending :
      (present : List Key) (cs : List Candidate) (s : State)
      → (check_each env present cs s).pending ≡ remove_all cs s.pending
  check_each-pending present [] s = refl
  check_each-pending present (c ∷ cs) s =
      check_each-pending present cs (check_one env present c s)
      ∙ ap (remove_all cs) (check_one-pending present c s)

  check_heights-pending :
      ((x : ℕ) (ts : List String) → (present : List Key) × (env.logs_at x ts ≡ some present))
      → (hs : List ℕ) (ready : List Candidate) (s : State)
      → (check_heights env hs ready s).pending ≡ remove_heights hs ready s.pending
  check_heights-pending agree [] ready s = refl
  check_heights-pending agree (h ∷ hs) ready s =
      let (present, read) = agree h (topics_for (at_height h ready)) in
      let next =
        check_read env (env.logs_at h (topics_for (at_height h ready))) (at_height h ready) s in
      let same : next.pending ≡ remove_all (at_height h ready) s.pending =
        ap (λ o. (check_read env o (at_height h ready) s).pending) read
        ∙ check_each-pending present (at_height h ready) s in
      check_heights-pending agree hs ready next ∙ ap (remove_heights hs ready) same

remove-All :
    (P : Candidate → Type 0) (d : Candidate) (p : List Candidate)
    → All P p
    → All (λ c. P c × (has (key_of c) d ≡ false)) (remove (key_of d) p)
remove-All P d [] a = tt
remove-All P d (c ∷ cs) a = elim (Bool-cases (has (key_of d) c)) [
  | inl hit ↦ rw hit (remove-All P d cs a.1)
  | inr miss ↦ rw miss ((a.0, key_eq_sym (key_of c) (key_of d) miss), remove-All P d cs a.1)
]

remove_all-All :
    (cs : List Candidate) (P : Candidate → Type 0) (p : List Candidate)
    → All P p
    → All (λ c. P c × (exists (has (key_of c)) cs ≡ false)) (remove_all cs p)
remove_all-All [] P p a = All-imp P (λ c. P c × (false ≡ false)) p (λ c h. (h, refl)) a
remove_all-All (d ∷ cs) P p a =
    All-imp (λ c. (P c × (has (key_of c) d ≡ false)) × (exists (has (key_of c)) cs ≡ false))
      (λ c. P c × (exists (has (key_of c)) (d ∷ cs) ≡ false)) (remove_all cs (remove (key_of d) p))
      (λ c h. (h.0.0, rw (h.0.1) (h.1)))
      (remove_all-All cs (λ c. P c × (has (key_of c) d ≡ false)) (remove (key_of d) p)
        (remove-All P d p a))

abbrev member : List ℕ → Candidate → Bool
member hs d = exists (λ x. d.log.height == x) hs

-- What is found at some of the heights, and not at the first, is found at the others.
exists-at_height :
    (q : Candidate → Bool) (h : ℕ) (hs : List ℕ) (ready : List Candidate)
    → exists q (select (member (h ∷ hs)) ready) ≡ true
    → exists q (at_height h ready) ≡ false
    → exists q (select (member hs) ready) ≡ true
exists-at_height q h hs [] a b = a
exists-at_height q h hs (d ∷ ds) a b = ground (arith, exists-at_height q h hs ds)

abbrev Left : ℕ → List ℕ → List Candidate → Candidate → Type 0
Left final_height hs ready c =
    leb c.log.height final_height ≡ true → exists (has (key_of c)) (select (member hs) ready) ≡ true

none-select :
    (q : Candidate → Bool) (cs : List Candidate) → exists q (select (λ d. false) cs) ≡ false
none-select q [] = refl
none-select q (c ∷ cs) = none-select q cs

remove_heights-All :
    (final_height : ℕ) (hs : List ℕ) (ready p : List Candidate)
    → All (Left final_height hs ready) p
    → All (λ c. leb c.log.height final_height ≡ false) (remove_heights hs ready p)
remove_heights-All final_height [] ready p a = All-imp _ _ p (λ c left. done c left) a
  where
    done : (c : Candidate) → Left final_height [] ready c → leb c.log.height final_height ≡ false
    done c left = elim (Bool-cases (leb c.log.height final_height)) [
      | inr high ↦ high
      | inl low ↦ let both = sym (left low) ∙ none-select (has (key_of c)) ready in cc
    ]
remove_heights-All final_height (h ∷ hs) ready p a =
    remove_heights-All final_height hs ready (remove_all (at_height h ready) p) (
      All-imp _ _ _ (λ c r low. exists-at_height (has (key_of c)) h hs ready (r.0 low) (r.1))
        (remove_all-All (at_height h ready) (Left final_height (h ∷ hs) ready) p a))

heights-member : (cs : List Candidate) → All (λ d. member (heights cs) d ≡ true) cs
heights-member [] = tt
heights-member (c ∷ cs) = elim (Bool-cases (member (heights cs) c)) [
  | inl there ↦
      let same : heights (c ∷ cs) ≡ heights cs = rw there refl in
      subst (λ hs. All (λ d. member hs d ≡ true) (c ∷ cs)) (sym same) (there, heights-member cs)
  | inr new ↦
      let same : heights (c ∷ cs) ≡ c.log.height ∷ heights cs = rw new refl in
      subst (λ hs. All (λ d. member hs d ≡ true) (c ∷ cs)) (sym same)
        (
          rw ((==_iff c.log.height c.log.height).1 refl) refl,
          All-imp _ _ cs (λ d h. rw h (ground arith)) (heights-member cs),
        )
]

select-All :
    (p : Candidate → Bool) (cs : List Candidate) → All (λ c. p c ≡ true) cs → select p cs ≡ cs
select-All p [] a = refl
select-All p (c ∷ cs) a = rw (a.0) (ap (λ t. c ∷ t) (select-All p cs a.1))

low-found :
    (h : ℕ) (p : List Candidate)
    → All
        (λ c.
          leb c.log.height h ≡ true
          → exists (has (key_of c)) (select (λ d. leb d.log.height h) p) ≡ true)
        p
low-found h [] = tt
low-found h (c ∷ cs) = (
  (λ l. rw l (rw (key_eq_refl (key_of c)) refl)),
  All-imp _ _ cs (λ d f l. later d (f l)) (low-found h cs),
)
  where
    later :
        (d : Candidate)
        → exists (has (key_of d)) (select (λ x. leb x.log.height h) cs) ≡ true
        → exists (has (key_of d)) (select (λ x. leb x.log.height h) (c ∷ cs)) ≡ true
    later d f = ground (arith, f)

-- When the providers agree on a finalized height and on the logs of every block, and the ledger takes every
-- deposit or its refusal is recorded, a tick leaves no deposit pending at or below that height.
pub check_finality-leaves :
    (env : Env) (h : ℕ) (s : State)
    → env.latest_finalized ≡ some h
    → ((x : ℕ) (ts : List String) → (present : List Key) × (env.logs_at x ts ≡ some present))
    → ((c : Candidate) → Answered env c)
    → All (λ c. leb c.log.height h ≡ false) (check_finality env s).1.pending
unfolding check_finality check_ready ready_candidates
check_finality-leaves env h s final agree answers =
    let stale = check_stale_pending env s in
    let ready = ready_candidates h stale in
    let checked = check_ready env h stale in
    let (p, d, r) = check_post_final_reorgs-SameCore env checked in
    let start : All (Left h (heights ready) ready) stale.pending =
      All-imp _ _ stale.pending
        (λ c f low.
          subst (λ cs. exists (has (key_of c)) cs ≡ true)
            (sym (select-All (member (heights ready)) ready (heights-member ready))) (f low))
        (low-found h stale.pending) in
    subst (λ o. All (λ c. leb c.log.height h ≡ false) (check_finality_at env o s).1.pending)
      (sym final)
      (subst (All (λ c. leb c.log.height h ≡ false))
        (sym (p ∙ check_heights-pending env answers agree (heights ready) ready stale))
        (remove_heights-All h (heights ready) ready stale.pending start))
