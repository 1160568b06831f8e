-- ===== src/Watcher/Confirmations/Quorum.antt =====
-- What the statuses of depositwatcher/internal/finality/async.go say of the providers' votes.
use convert_usdt_from_trc.Base.{
  ℕ, ◌≡◌, refl, sym, ◌∙◌, subst, Bool, true, false, not, Option, none, some, List, [], ◌∷◌, ◌++◌,
  ◌≤◌, leb, ltb, if◌then◌else◌, arith, Bool-cases, inl, inr, All, All-imp, length, leb→le,
}
use convert_usdt_from_trc.Base.Int.{pos}
use convert_usdt_from_trc.Base.Text.{String, str_eq, eq_refl}
use convert_usdt_from_trc.Watcher.Confirmations.{
  quorum_reached, disagreement_alert, ProviderObservation, HashKey, FactsKey, hash_key, facts_key,
  hash_eq, facts_eq, delete, CandidateConfirmations, new_candidate_confirmations, status_locked,
  seen_view, missing_view, store_view, record_disagreement, contradicts, record_confirmed,
}
use convert_usdt_from_trc.Watcher.Confirmations.Maps.{
  hash_eq-eq, facts_eq-eq, DistinctNames, deleted, delete-DistinctNames, All-delete, agreeing,
}

-- Votes, the latest first.
abbrev pub Votes : Type 0
Votes = List (String × ProviderObservation)

unfoldable pub confirmations : ℕ → Votes → CandidateConfirmations
confirmations n [] = new_candidate_confirmations n
confirmations n ((name, obs) ∷ vs) = (record_confirmed name obs (confirmations n vs)).1

abbrev pub latest : String → Votes → Option ProviderObservation
latest name [] = none
latest name ((n, obs) ∷ vs) = if str_eq name n then some obs else latest name vs

-- The provider's latest vote is that the deposit is there, with these facts.
abbrev pub VotesFor : Votes → String × FactsKey → Type 0
VotesFor vs e =
    (obs : ProviderObservation) × (latest e.0 vs ≡ some obs)
    × (obs.present ≡ true)
    × (facts_key obs ≡ e.1)

-- Without a disagreement, all votes are of one block, and those that see the deposit see the same.
record Inv (n : ℕ) (vs : Votes) (c : CandidateConfirmations) : Type 0 where
  pub least : c.min_agreement ≡ (if ltb n 1 then 1 else n)
  pub distinct : DistinctNames c.present_by_provider
  pub voted : All (VotesFor vs) c.present_by_provider
  pub facts : FactsKey
  pub same_facts : c.disagreement ≡ false → All (λ e. e.1 ≡ facts) c.present_by_provider
  pub same_block : c.disagreement ≡ false → All (λ e. e.1 ≡ facts.hash) c.absent_by_provider

later_vote :
    (name : String) (obs : ProviderObservation) (vs : Votes) (e : String × FactsKey)
    → str_eq e.0 name ≡ false
    → VotesFor vs e
    → VotesFor ((name, obs) ∷ vs) e
later_vote name obs vs e other (o, last, there, same) = (o, rw other last, there, same)

own_vote :
    (name : String) (obs : ProviderObservation) (vs : Votes)
    → obs.present ≡ true
    → VotesFor ((name, obs) ∷ vs) (name, facts_key obs)
own_vote name obs vs there = (obs, rw (eq_refl name) refl, there, refl)

eq_true_of_not : (b : Bool) → not b ≡ false → b ≡ true
eq_true_of_not true h = refl
eq_true_of_not false h = cc

-- Some facts that all agreeing entries have.
abbrev facts_after : List (String × FactsKey) → HashKey → FactsKey
facts_after [] h = record { hash = h; order_id = 0; amount = pos 0 }
facts_after (e ∷ es) h = e.1

All-facts_after :
    (m : List (String × FactsKey)) (h : HashKey) (f : FactsKey)
    → All (λ e. e.1 ≡ f) m
    → All (λ e. e.1 ≡ facts_after m h) m
All-facts_after [] h f a = tt
All-facts_after (e ∷ es) h f a = (refl, All-imp _ _ es (λ x same. same ∙ sym (a.0)) a.1)

hash_after :
    (m : List (String × FactsKey)) (h : HashKey)
    → All (λ e. e.1.hash ≡ h) m
    → (facts_after m h).hash ≡ h
hash_after [] h a = refl
hash_after (e ∷ es) h a = a.0

module _ (name : String) (obs : ProviderObservation) (c : CandidateConfirmations)
    (quiet : contradicts name obs c ≡ false) where
  present_block : All (λ e. e.1.hash ≡ hash_key obs) (delete name c.present_by_provider)
  unfolding contradicts
  present_block =
      All-imp _ _ _ (λ e h. hash_eq-eq e.1.hash (hash_key obs) (eq_true_of_not _ h))
        (agreeing name (λ f. not (hash_eq f.hash (hash_key obs))) c.present_by_provider
          (ground (arith, quiet)))

  absent_block : All (λ e. e.1 ≡ hash_key obs) (delete name c.absent_by_provider)
  unfolding contradicts
  absent_block =
      All-imp _ _ _ (λ e h. hash_eq-eq e.1 (hash_key obs) (eq_true_of_not _ h))
        (agreeing name (λ h. not (hash_eq h (hash_key obs))) c.absent_by_provider
          (ground (arith, quiet)))

  present_facts :
      obs.present ≡ true → All (λ e. e.1 ≡ facts_key obs) (delete name c.present_by_provider)
  unfolding contradicts
  present_facts there =
      All-imp _ _ _ (λ e h. facts_eq-eq e.1 (facts_key obs) (eq_true_of_not _ h))
        (agreeing name (λ f. not (facts_eq f (facts_key obs))) c.present_by_provider
          (ground (arith, quiet, there)))

store_view-Inv :
    (n : ℕ) (vs : Votes) (name : String) (obs : ProviderObservation) (c : CandidateConfirmations)
    (d : Bool)
    → Inv n vs c
    → (d ≡ false → (c.disagreement ≡ false) × (contradicts name obs c ≡ false))
    → Inv n ((name, obs) ∷ vs) (store_view name obs (record c { disagreement = d }))
store_view-Inv n vs name obs c d i q = by_view obs.present refl
  where
    c' : CandidateConfirmations
    c' = record c { disagreement = d }

    kept : List (String × FactsKey)
    kept = delete name c.present_by_provider

    by_view :
        (b : Bool)
        → obs.present ≡ b
        → Inv n ((name, obs) ∷ vs) (if b then seen_view name obs c' else missing_view name obs c')
    by_view true there = record {
      least = i.least;
      distinct = (
        deleted name c.present_by_provider,
        delete-DistinctNames name c.present_by_provider i.distinct,
      );
      voted = (
        own_vote name obs vs there,
        All-delete name (VotesFor vs) (VotesFor ((name, obs) ∷ vs)) c.present_by_provider
            (later_vote name obs vs) i.voted,
      );
      facts = facts_key obs;
      same_facts = λ h. (refl, present_facts name obs c (q h).1 there);
      same_block = λ h. absent_block name obs c (q h).1;
    }
    by_view false gone = record {
      least = i.least;
      distinct = delete-DistinctNames name c.present_by_provider i.distinct;
      voted =
          All-delete name (VotesFor vs) (VotesFor ((name, obs) ∷ vs)) c.present_by_provider
            (later_vote name obs vs) i.voted;
      facts = facts_after kept (hash_key obs);
      same_facts = λ h. All-facts_after kept (hash_key obs) i.facts (
          All-delete name (λ e. e.1 ≡ i.facts) (λ e. e.1 ≡ i.facts) c.present_by_provider
            (λ e other s. s) (i.same_facts (q h).0));
      same_block = λ h.
          let hash = hash_after kept (hash_key obs) (present_block name obs c (q h).1) in
          (sym hash, All-imp _ _ _ (λ e s. s ∙ sym hash) (absent_block name obs c (q h).1));
    }

record_confirmed-Inv :
    (n : ℕ) (vs : Votes) (name : String) (obs : ProviderObservation) (c : CandidateConfirmations)
    → Inv n vs c
    → Inv n ((name, obs) ∷ vs) (record_confirmed name obs c).1
unfolding record_confirmed record_disagreement
record_confirmed-Inv n vs name obs c i = elim (Bool-cases (contradicts name obs c)) [
  | inl clash ↦ rw clash (store_view-Inv n vs name obs c true i (λ h. cc))
  | inr quiet ↦ rw quiet (store_view-Inv n vs name obs c c.disagreement i (λ h. (h, quiet)))
]

confirmations-Inv : (n : ℕ) (vs : Votes) → Inv n vs (confirmations n vs)
unfolding confirmations new_candidate_confirmations
confirmations-Inv n [] = record {
  least = refl;
  distinct = tt;
  voted = tt;
  facts = record { hash = record { height = 0; block_hash = "" }; order_id = 0; amount = pos 0 };
  same_facts = λ h. tt;
  same_block = λ h. tt;
}
confirmations-Inv n ((name, obs) ∷ vs) =
    record_confirmed-Inv n vs name obs (confirmations n vs) (confirmations-Inv n vs)

-- A quorum: enough different providers, the latest vote of each of them being that the deposit is there,
-- with the same facts.
pub record IsQuorum (n : ℕ) (vs : Votes) (m : List (String × FactsKey)) : Type 0 where
  pub facts : FactsKey
  pub enough : (if ltb n 1 then 1 else n) ≤ length m
  pub distinct : DistinctNames m
  pub voted : All (VotesFor vs) m
  pub agreed : All (λ e. e.1 ≡ facts) m

-- However the providers vote, and vote again, QUORUM_REACHED means that at least as many different
-- providers as required, and at least one, see the deposit in their latest vote, with the same block, order and
-- amount.
pub status_locked-IsQuorum :
    (n : ℕ) (vs : Votes)
    → status_locked (confirmations n vs) ≡ quorum_reached
    → IsQuorum n vs (confirmations n vs).present_by_provider
unfolding status_locked
status_locked-IsQuorum n vs h =
    let c = confirmations n vs in
    let i = confirmations-Inv n vs in
    elim (Bool-cases c.disagreement) [
      | inl clash ↦ let bad = rw clash at h in cc
      | inr quiet ↦ elim (Bool-cases (leb c.min_agreement (length c.present_by_provider))) [
        | inl enough ↦ record {
          facts = i.facts;
          enough =
              subst (λ x. x ≤ length c.present_by_provider) i.least
                (leb→le c.min_agreement (length c.present_by_provider) enough);
          distinct = i.distinct;
          voted = i.voted;
          agreed = i.same_facts quiet;
        }
        | inr few ↦ elim (Bool-cases (leb c.min_agreement (length c.absent_by_provider))) [
          | inl gone ↦
              let k = rw quiet at h in let k' = rw few at k in let bad = rw gone at k' in cc
          | inr still ↦
              let k = rw quiet at h in let k' = rw few at k in let bad = rw still at k' in cc
        ]
      ]
    ]

record_confirmed-disagreement :
    (name : String) (obs : ProviderObservation) (c : CandidateConfirmations)
    → c.disagreement ≡ true
    → (record_confirmed name obs c).1.disagreement ≡ true
unfolding record_confirmed record_disagreement
record_confirmed-disagreement name obs c h = ground (arith, h)

-- A disagreement is never forgotten: whatever is voted afterwards, the status stays DISAGREEMENT_ALERT.
pub disagreement_stays :
    (n : ℕ) (us vs : Votes)
    → (confirmations n vs).disagreement ≡ true
    → status_locked (confirmations n (us ++ vs)) ≡ disagreement_alert
unfolding status_locked confirmations
disagreement_stays n us vs h = rw (still us) refl
  where
    still : (ws : Votes) → (confirmations n (ws ++ vs)).disagreement ≡ true
    still [] = h
    still ((name, obs) ∷ ws) =
        record_confirmed-disagreement name obs (confirmations n (ws ++ vs)) (still ws)
