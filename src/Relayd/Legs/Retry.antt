-- ===== src/Relayd/Legs/Retry.antt =====
-- Calling a Mark of relayd/internal/relay/relay.go again.
use convert_usdt_from_trc.Base.{
  ℕ, ◌≡◌, refl, sym, ap, ◌∙◌, subst, Bool, true, false, ◌&&◌, ◌||◌, not, some, List, [], ◌∷◌,
  if◌then◌else◌, arith, Bool-cases, inl, inr,
}
use convert_usdt_from_trc.Base.Action.{ok, ◌>>=◌, raise_if, or_raise, state_of}
use convert_usdt_from_trc.Base.Table.{find, exists, update, find-update, find-exists}
use convert_usdt_from_trc.Base.Text.{String, eq_iff}
use convert_usdt_from_trc.Money.{Amount}
use convert_usdt_from_trc.Relayd.Legs.{
  Status, forwarding, forwarded, settled, failed, refund_pending, refunded, unrecoverable, expired,
  status_eq, Leg, Legs, Error, M, update_rows, has_id, mark, check_already_at, get_by_external_id,
  selects, leg_not_found,
}
use convert_usdt_from_trc.Relayd.Legs.Marks.{
  order_taken, from_awaiting, from_forwarding, from_forwarded, from_refund_pending, mark_forwarding,
  mark_forwarded, mark_settled, mark_failed, mark_refund_pending, mark_refunded, mark_unrecoverable,
  mark_expired,
}
use convert_usdt_from_trc.Relayd.Legs.Lifecycle.{Op, run, Moves, Effect, inserted, updated, nothing}
use convert_usdt_from_trc.Relayd.Legs.Moves.{
  status_eq_refl, check_already_at-state, forwarding-Moves, forwarded-Moves, settled-Moves,
  expired-Moves, unrecoverable-Moves, failed-Moves, refund_pending-Moves, refunded-Moves,
}
use convert_usdt_from_trc.Relayd.Legs.Effects.{run-Effect}

-- UNIQUE (external_id).
abbrev pub IsUnique : List Leg → Type 0
IsUnique [] = Unit
IsUnique (l ∷ ls) = (exists (has_id l.external_id) ls ≡ false) × IsUnique ls

exists-update_id :
    (e : String) (p : Leg → Bool) (f : Leg → Leg) (ls : List Leg)
    → Moves p f
    → exists (has_id e) (update p f ls) ≡ exists (has_id e) ls
exists-update_id e p f [] h = refl
exists-update_id e p f (l ∷ ls) h = elim (Bool-cases (p l)) [
  | inl hit ↦ rw hit (
      rw (h l hit).same_leg
        (ap (λ t. if has_id e l then true else t) (exists-update_id e p f ls h)))
  | inr miss ↦ rw miss (ap (λ t. if has_id e l then true else t) (exists-update_id e p f ls h))
]

update-IsUnique :
    (p : Leg → Bool) (f : Leg → Leg) (ls : List Leg)
    → Moves p f
    → IsUnique ls
    → IsUnique (update p f ls)
update-IsUnique p f [] h u = tt
update-IsUnique p f (l ∷ ls) h u = elim (Bool-cases (p l)) [
  | inl hit ↦ rw hit (
    ap (λ e. exists (has_id e) (update p f ls)) (h l hit).same_leg
        ∙ exists-update_id l.external_id p f ls h
        ∙ u.0,
    update-IsUnique p f ls h u.1,
  )
  | inr miss ↦ rw miss (exists-update_id l.external_id p f ls h ∙ u.0, update-IsUnique p f ls h u.1)
]

-- Every call keeps the external ids of the table different.
pub run-IsUnique : (now : ℕ) (op : Op) (t : Legs) → IsUnique t.rows → IsUnique (run now op t).rows
run-IsUnique now op t u = from_effect (run now op t) (run-Effect now op t)
  where
    from_effect : (t' : Legs) → Effect t t' → IsUnique t'.rows
    from_effect t' (nothing same) = subst (λ s. IsUnique s.rows) (sym same) u
    from_effect t' (inserted at l fresh same) = subst (λ s. IsUnique s.rows) (sym same) (fresh, u)
    from_effect t' (updated p f h same) =
        subst (λ s. IsUnique s.rows) (sym same) (update-IsUnique p f t.rows h u)

-- Where external ids differ, the selected row is the one that a query by the id finds.
selected-found :
    (e : String) (from : Status → Bool) (ls : List Leg)
    → IsUnique ls
    → exists (selects e from) ls ≡ true
    → (l : Leg) × (find (has_id e) ls ≡ some l) × (selects e from l ≡ true)
selected-found e from [] u h = cc
selected-found e from (l ∷ ls) u h = elim (Bool-cases (has_id e l)) [
  | inr other ↦
      let (x, found, hit) = selected-found e from ls u.1 (let k = rw other at h in k) in
      (x, rw other found, hit)
  | inl same ↦ elim (Bool-cases (from l.status)) [
    | inl at ↦ (l, rw same refl, rw same (rw at refl))
    | inr off ↦
        let later : exists (selects e from) ls ≡ true = let k = rw same at h in rw off at k in
        let (x, found, hit) = selected-found e from ls u.1 later in
        let there = find-exists (has_id e) ls x found in
        let clash = rw ((eq_iff l.external_id e).0 same) at u.0 in cc
  ]
]

none_left :
    (e : String) (from : Status → Bool) (to : Status) (f : Leg → Leg) (ls : List Leg)
    → from to ≡ false
    → ((l : Leg) → (f l).status ≡ to)
    → exists (selects e from) (update (selects e from) f ls) ≡ false
none_left e from to f [] off h = refl
none_left e from to f (l ∷ ls) off h = elim (Bool-cases (selects e from l)) [
  | inl hit ↦
      let gone : selects e from (f l) ≡ false = rw (h l) (rw off (ground arith)) in
      rw hit (rw gone (none_left e from to f ls off h))
  | inr miss ↦ rw miss (rw miss (none_left e from to f ls off h))
]

check_already_at_here :
    (e : String) (to : Status) (l : Leg) (t : Legs)
    → find (has_id e) t.rows ≡ some l
    → l.status ≡ to
    → check_already_at e to t ≡ ok tt t
unfolding check_already_at get_by_external_id
check_already_at_here e to l t found at =
    ap
      (λ r.
        (or_raise r leg_not_found >>= λ current.
        raise_if (not (status_eq current.status to)) Error.not_in_expected_status)
          t)
      found
    ∙ ap (λ b. raise_if (not b) Error.not_in_expected_status t) same
  where
    same : status_eq l.status to ≡ true
    same = rw at (status_eq_refl to)

-- After a guarded UPDATE that succeeded, the same one leaves everything alone, whatever it would set.
mark-again :
    (e : String) (from : Status → Bool) (to : Status) (f g : Leg → Leg) (t t' : Legs)
    → IsUnique t.rows
    → Moves (selects e from) f
    → ((l : Leg) → (f l).status ≡ to)
    → from to ≡ false
    → mark e from to f t ≡ ok tt t'
    → (exists (selects e from) t'.rows ≡ false) × (mark e from to g t' ≡ ok tt t')
unfolding mark
mark-again e from to f g t t' u m sets off h = elim (Bool-cases (exists (selects e from) t.rows)) [
  | inr miss ↦
      let replay : check_already_at e to t ≡ ok tt t' = let k = rw miss at h in k in
      let same : t ≡ t' = sym (check_already_at-state e to t) ∙ ap state_of replay in
      (
        subst (λ s. exists (selects e from) s.rows ≡ false) same miss,
        subst (λ s. mark e from to g s ≡ ok tt s) same
            (rw miss (replay ∙ ap (λ s. ok tt s) (sym same))),
      )
  | inl hit ↦
      let moved : update_rows (selects e from) f t ≡ t' = ap state_of (let k = rw hit at h in k) in
      let (l, found, selected) = selected-found e from t.rows u hit in
      let gone = none_left e from to f t.rows off sets in
      let there =
        find-update (has_id e) (selects e from) f t.rows l (λ y k. rw (m y k).same_leg refl)
          found in
      let at : (if selects e from l then f l else l).status ≡ to = rw selected (sets l) in
      (
        subst (λ s. exists (selects e from) s.rows ≡ false) moved gone,
        subst (λ s. mark e from to g s ≡ ok tt s) moved
            (rw gone (check_already_at_here e to _ (update_rows (selects e from) f t) there at)),
      )
]

-- The calls that set a status, with what they record.
pub data Mark : Type 0 where
  as_forwarding : String → String → String → Mark
  as_forwarded as_refunded : String → Mark
  as_settled : Amount → Mark
  as_failed as_refund_pending as_unrecoverable as_expired : Mark

unfoldable pub call : ℕ → String → Mark → M (Unit {0})
call now e (as_forwarding p o a) = mark_forwarding now e p o a
call now e (as_forwarded x) = mark_forwarded now e x
call now e (as_refunded x) = mark_refunded now e x
call now e (as_settled a) = mark_settled now e a
call now e as_failed = mark_failed now e
call now e as_refund_pending = mark_refund_pending now e
call now e as_unrecoverable = mark_unrecoverable now e
call now e as_expired = mark_expired now e

abbrev pub target : Mark → Status
target (as_forwarding p o a) = forwarding
target (as_forwarded x) = forwarded
target (as_refunded x) = refunded
target (as_settled a) = settled
target as_failed = failed
target as_refund_pending = refund_pending
target as_unrecoverable = unrecoverable
target as_expired = expired

forwarding-again :
    (now later : ℕ) (e p o a p' o' a' : String) (t t' : Legs)
    → IsUnique t.rows
    → mark_forwarding now e p o a t ≡ ok tt t'
    → mark_forwarding later e p' o' a' t' ≡ ok tt t'
unfolding mark_forwarding
forwarding-again now later e p o a p' o' a' t t' u h =
    elim (Bool-cases
      (exists (selects e from_awaiting) t.rows && exists (order_taken e p o) t.rows)) [
        | inl taken ↦ let k = rw taken at h in cc
        | inr free ↦
            let (gone, again) =
              mark-again e from_awaiting forwarding _ _ t t' u (forwarding-Moves now e p o a)
                (λ l. refl) refl (let k = rw free at h in k) in
            rw gone again
      ]

-- Where external ids differ, a call that succeeded succeeds again and changes nothing, also where it would
-- record another vendor order, transaction or amount.
pub call-call :
    (now later : ℕ) (e : String) (m m' : Mark) (t t' : Legs)
    → IsUnique t.rows
    → target m' ≡ target m
    → call now e m t ≡ ok tt t'
    → call later e m' t' ≡ ok tt t'
unfolding call mark_forwarded mark_refunded mark_settled mark_failed mark_refund_pending
    mark_unrecoverable mark_expired
call-call now later e (as_forwarding p o a) (as_forwarding p' o' a') t t' u same h =
    forwarding-again now later e p o a p' o' a' t t' u h
call-call now later e (as_forwarded x) (as_forwarded x') t t' u same h =
    (mark-again e from_forwarding forwarded _ _ t t' u (forwarded-Moves now e x) (λ l. refl) refl
      h).1
call-call now later e (as_refunded x) (as_refunded x') t t' u same h =
    (mark-again e from_refund_pending refunded _ _ t t' u (refunded-Moves now e x) (λ l. refl) refl
      h).1
call-call now later e (as_settled a) (as_settled a') t t' u same h =
    (mark-again e from_forwarded settled _ _ t t' u (settled-Moves now e a) (λ l. refl) refl h).1
call-call now later e as_failed as_failed t t' u same h =
    (mark-again e (λ s. from_forwarding s || from_forwarded s) failed _ _ t t' u
      (failed-Moves now e) (λ l. refl) refl h).1
call-call now later e as_refund_pending as_refund_pending t t' u same h =
    (mark-again e (λ s. from_awaiting s || from_forwarding s) refund_pending _ _ t t' u
      (refund_pending-Moves now e) (λ l. refl) refl h).1
call-call now later e as_unrecoverable as_unrecoverable t t' u same h =
    (mark-again e from_forwarded unrecoverable _ _ t t' u (unrecoverable-Moves now e) (λ l. refl)
      refl h).1
call-call now later e as_expired as_expired t t' u same h =
    (mark-again e from_awaiting expired _ _ t t' u (expired-Moves now e) (λ l. refl) refl h).1
call-call now later e m m' t t' u same h = cc
