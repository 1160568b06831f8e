-- ===== src/Relayd/Deposit/Recorded.antt =====
-- What recordDeposit of relayd/internal/orchestrate/amounts.go stores, and what it says afterwards.
use convert_usdt_from_trc.Base.{
  ◌≡◌, refl, Bool, true, false, ◌&&◌, ◌||◌, not, Option, none, some, List, [], ◌∷◌, ap, ◌∙◌, subst,
  is_some, Bool-cases, inl, inr,
}
use convert_usdt_from_trc.Base.Int.{pos, ltb_ℤ, leb_ℤ}
use convert_usdt_from_trc.Base.Action.{
  ok, >>=-eq-ok, after_check, state_of, ok_injective, or_raise-eq_ok,
}
use convert_usdt_from_trc.Base.Result.{Result}
use convert_usdt_from_trc.Base.Table.{find, exists, update}
use convert_usdt_from_trc.Base.Text.{String}
use convert_usdt_from_trc.Money.{Amount, asset_eq}
use convert_usdt_from_trc.Relayd.Legs.{Leg, Legs, Error, has_id, get_by_external_id, update_rows}
use convert_usdt_from_trc.Relayd.Legs.Amounts.{
  sum_is, unrecorded, with_deposit, allowed_parts, store_parts, store_deposit,
}
use convert_usdt_from_trc.Relayd.Legs.Lifecycle.{parts_agree, deposit_recorded, run}
use convert_usdt_from_trc.Relayd.Legs.Safety.{AllClean, run-AllClean, All-find}
use convert_usdt_from_trc.Relayd.Pricing.{split}
use convert_usdt_from_trc.Relayd.Deposit.{
  LedgerOrder, Outside, record_new, record_known, record_deposit, lift, pricing_for, parts,
  parts_missing, under_minimum, sender_of,
}

-- The deposit of a leg as it is stored: both parts are there, and add up to what was received.
abbrev pub Stored : Leg → Type 0
Stored leg =
    (r : Amount) × (p : Amount) × (f : Amount) × (leg.received_amount ≡ some r)
    × (leg.profit_amount ≡ some p)
    × (leg.forward_amount ≡ some f)
    × (sum_is p f r ≡ true)

agree-Stored :
    (p f r : Option Amount)
    → is_some r ≡ true
    → parts_agree p f r ≡ true
    → (r' : Amount) × (p' : Amount) × (f' : Amount) × (r ≡ some r')
      × (p ≡ some p')
      × (f ≡ some f')
      × (sum_is p' f' r' ≡ true)
agree-Stored (some p) (some f) (some r) h a = (r, p, f, refl, refl, refl, a)
agree-Stored none none (some r) h a = cc
agree-Stored none (some f) (some r) h a = cc
agree-Stored (some p) none (some r) h a = cc
agree-Stored p f none h a = cc

-- Once the UPDATE is made, what a query by the id finds is recorded.
find-recorded :
    (e : String) (received : Amount) (sender : String) (p f : Amount) (ls : List Leg) (l : Leg)
    → find (has_id e) (update (unrecorded e) (with_deposit received sender p f) ls) ≡ some l
    → is_some l.received_amount ≡ true
find-recorded e received sender p f [] l h = cc
find-recorded e received sender p f (x ∷ xs) l h = elim (Bool-cases (has_id e x)) [
  | inr other ↦ find-recorded e received sender p f xs l (let k = rw other at h in rw other at k)
  | inl same ↦ elim (Bool-cases (is_some x.received_amount)) [
    | inl old ↦
        let k = rw old at h in
        let here = rw same at k in
        let e : x ≡ l = cc in subst (λ y. is_some y.received_amount ≡ true) e old
    | inr new ↦
        let k = rw new at h in
        let here = rw same at k in
        let e : with_deposit received sender p f x ≡ l = cc in
        subst (λ y. is_some y.received_amount ≡ true) e refl
  ]
]

-- A successful RecordDeposit returns the stored row, which has its deposit.
store_deposit-found :
    (e : String) (received : Amount) (sender : String) (p f : Amount) (t t' : Legs) (leg : Leg)
    → store_deposit e received sender p f t ≡ ok leg t'
    → (find (has_id e) t'.rows ≡ some leg) × (is_some leg.received_amount ≡ true)
unfolding store_deposit store_parts get_by_external_id
store_deposit-found e received sender p f t t' leg h =
    let (balanced, h1) =
      after_check
        (not (sum_is p f received)
          || not (asset_eq p.asset received.asset)
          || not (asset_eq f.asset received.asset))
        _ _ h in
    elim (Bool-cases (exists (unrecorded e) t.rows && not (allowed_parts received p f))) [
      | inl bad ↦ let k = rw bad at h1 in cc
      | inr good ↦
          let k = rw good at h1 in
          let now = update_rows (unrecorded e) (with_deposit received sender p f) t in
          let (found, same) = or_raise-eq_ok (find (has_id e) now.rows) _ leg now t' k in
          (
            subst (λ s. find (has_id e) s.rows ≡ some leg) same found,
            find-recorded e received sender p f t.rows leg found,
          )
    ]

store_deposit-AllClean :
    (e : String) (received : Amount) (sender : String) (p f : Amount) (t t' : Legs) (leg : Leg)
    → AllClean t
    → store_deposit e received sender p f t ≡ ok leg t'
    → AllClean t'
unfolding run
store_deposit-AllClean e received sender p f t t' leg c h =
    subst AllClean (ap state_of h) (run-AllClean 0 (deposit_recorded e received sender p f) t c)

store_deposit-Stored :
    (e : String) (received : Amount) (sender : String) (p f : Amount) (t t' : Legs) (leg : Leg)
    → AllClean t
    → store_deposit e received sender p f t ≡ ok leg t'
    → Stored leg
store_deposit-Stored e received sender p f t t' leg c h =
    let (found, recorded) = store_deposit-found e received sender p f t t' leg h in
    let clean =
      All-find (has_id e) t'.rows leg (store_deposit-AllClean e received sender p f t t' leg c h)
        found in
    agree-Stored leg.profit_amount leg.forward_amount leg.received_amount recorded clean.parts_known

lift-state : {A : Type 0} (r : Result Error A) (a : A) (t t' : Legs) → lift r t ≡ ok a t' → t ≡ t'
lift-state (Result.ok b) a t t' h = ap state_of h
lift-state (Result.err e) a t t' h = cc

record_new-Stored :
    (outside : Outside) (leg : Leg) (order : LedgerOrder) (t t' : Legs) (leg' : Leg) (small : Bool)
    → AllClean t
    → record_new outside leg order t ≡ ok (leg', small) t'
    → Stored leg' × (find (has_id leg.external_id) t'.rows ≡ some leg')
unfolding record_new
record_new-Stored outside leg order t t' leg' small c h =
    let (received, t1, booked, h1) = >>=-eq-ok (lift outside.booked) _ h in
    let (positive, h2) = after_check (leb_ℤ received.units (pos 0)) _ _ h1 in
    let (asset, h3) = after_check (not (asset_eq received.asset leg.amount_in.asset)) _ _ h2 in
    let (cfg, t2, priced, h4) = >>=-eq-ok (lift (pricing_for outside leg order)) _ h3 in
    let same : t ≡ t2 =
      lift-state outside.booked received t t1 booked
      ∙ lift-state (pricing_for outside leg order) cfg t1 t2 priced in
    let all =
      parts
        (ltb_ℤ received.units leg.amount_in.units && under_minimum outside.pricing received.units)
        received (split cfg received) in
    let (leg'', t3, stored, h5) =
      >>=-eq-ok
        (store_deposit leg.external_id received (sender_of order.sender_address) all.0 all.1) _
        h4 in
    let (pairs, tables) = ok_injective h5 in
    let same_leg : leg'' ≡ leg' = ap (λ x. x.0) pairs in
    let k =
      subst
        (λ x.
          store_deposit leg.external_id received (sender_of order.sender_address) all.0 all.1 t2
          ≡ ok x t3)
        same_leg stored in
    (
      store_deposit-Stored leg.external_id received _ all.0 all.1 t2 t3 leg' (subst AllClean same c)
          k,
      subst (λ s. find (has_id leg.external_id) s.rows ≡ some leg') tables
          (store_deposit-found leg.external_id received _ all.0 all.1 t2 t3 leg' k).0,
    )

Stored-again :
    (outside : Outside) (leg : Leg) (order : LedgerOrder) (t : Legs)
    → Stored leg
    → record_deposit outside leg order t ≡ ok (leg, false) t
unfolding record_deposit
Stored-again outside leg order t (r, p, f, hr, hp, hf, sum) =
    ap (λ x. record_known outside leg order x t) hr
    ∙ ap (λ x. ok (leg, parts_missing x leg.forward_amount r) t) hp
    ∙ ap (λ x. ok (leg, parts_missing (some p) x r) t) hf
    ∙ ap (λ x. ok (leg, not x) t) sum

-- In a table whose legs are clean, a successful first call, also on a stale copy of the leg, returns the leg as
-- the table then has it, with its deposit in two parts; every later call on that leg returns it as it is, in
-- any table, whatever the ledger and the pricing say by then, and calls it large enough to forward, also
-- where the first call said that it was too small.
pub record_deposit_again :
    (now later : Outside) (leg : Leg) (order order' : LedgerOrder) (t t' t'' : Legs) (leg' : Leg)
    (small : Bool)
    → AllClean t
    → leg.received_amount ≡ none
    → record_deposit now leg order t ≡ ok (leg', small) t'
    → Stored leg'
      × (find (has_id leg.external_id) t'.rows ≡ some leg')
      × (record_deposit later leg' order' t'' ≡ ok (leg', false) t'')
unfolding record_deposit
record_deposit_again now later leg order order' t t' t'' leg' small c new h =
    let (stored, found) =
      record_new-Stored now leg order t t' leg' small c
        (subst (λ x. record_known now leg order x t ≡ ok (leg', small) t') new h) in
    (stored, found, Stored-again later leg' order' t'' stored)
