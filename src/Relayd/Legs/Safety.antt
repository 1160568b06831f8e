-- ===== src/Relayd/Legs/Safety.antt =====
-- What holds of every leg under any sequence of calls of the store of relayd/internal/relay/relay.go.
use convert_usdt_from_trc.Base.{
  ℕ, ◌+◌, ◌≡◌, refl, sym, subst, Bool, true, false, ◌&&◌, Option, none, some, List, [], ◌∷◌,
  if◌then◌else◌, is_some, arith, Bool-cases, inl, inr, All, ◌≤◌,
}
use convert_usdt_from_trc.Base.Table.{find, update, find-update, find-exists}
use convert_usdt_from_trc.Base.Text.{String, str_eq, eq_iff}
use convert_usdt_from_trc.Relayd.Legs.{
  Status, awaiting_deposit, forwarding, forwarded, settled, failed, refund_pending, refunded,
  unrecoverable, expired, status_eq, Leg, Legs, has_id,
}
use convert_usdt_from_trc.Relayd.Legs.Creation.{NewLeg, new_row}
use convert_usdt_from_trc.Relayd.Legs.Lifecycle.{
  Op, run, edge, IsClean, Advances, Moves, Effect, inserted, updated, nothing,
}
use convert_usdt_from_trc.Relayd.Legs.Moves.{status_eq-eq, status_eq_refl}
use convert_usdt_from_trc.Relayd.Legs.Effects.{run-Effect}

-- Calls at their times, the latest first.
abbrev pub History : Type 0
History = List (ℕ × Op)

unfoldable pub run_all : History → Legs → Legs
run_all [] t = t
run_all ((now, op) ∷ h) t = run now op (run_all h t)

abbrev pub empty_table : Legs
empty_table = record { rows = []; next_id = 1 }

abbrev pub AllClean : Legs → Type 0
AllClean t = All IsClean t.rows

update-AllClean :
    (p : Leg → Bool) (f : Leg → Leg) (rows : List Leg)
    → Moves p f
    → All IsClean rows
    → All IsClean (update p f rows)
update-AllClean p f [] h c = tt
update-AllClean p f (l ∷ ls) h c = elim (Bool-cases (p l)) [
  | inl hit ↦ rw hit ((h l hit).clean c.0, update-AllClean p f ls h c.1)
  | inr miss ↦ rw miss (c.0, update-AllClean p f ls h c.1)
]

new_row-IsClean : (now id : ℕ) (l : NewLeg) → IsClean (new_row now id l)
new_row-IsClean now id l = record {
  forward_known = refl;
  refund_known = refl;
  forward_sent = refl;
  refund_sent = refl;
  parts_known = refl;
}

Effect-AllClean : (t t' : Legs) → Effect t t' → AllClean t → AllClean t'
Effect-AllClean t t' (nothing same) c = subst AllClean (sym same) c
Effect-AllClean t t' (inserted now l fresh same) c =
    subst AllClean (sym same) (new_row-IsClean now t.next_id l, c)
Effect-AllClean t t' (updated p f h same) c =
    subst AllClean (sym same) (update-AllClean p f t.rows h c)

-- Every call keeps every leg clean: a forward transaction is recorded from FORWARDED on, where a failed leg may
-- have one or not, a refund transaction exactly under REFUNDED, and a recorded deposit has both parts,
-- which add up.
pub run-AllClean : (now : ℕ) (op : Op) (t : Legs) → AllClean t → AllClean (run now op t)
run-AllClean now op t c = Effect-AllClean t (run now op t) (run-Effect now op t) c

pub run_all-AllClean : (h : History) (t : Legs) → AllClean t → AllClean (run_all h t)
unfolding run_all
run_all-AllClean [] t c = c
run_all-AllClean ((now, op) ∷ h) t c = run-AllClean now op (run_all h t) (run_all-AllClean h t c)

pub All-find :
    (p : Leg → Bool) (rows : List Leg) (l : Leg)
    → All IsClean rows
    → find p rows ≡ some l
    → IsClean l
All-find p [] l c h = cc
All-find p (x ∷ xs) l c h = elim (Bool-cases (p x)) [
  | inl hit ↦ let same : x ≡ l = let k = rw hit at h in cc in subst IsClean same c.0
  | inr miss ↦ All-find p xs l c.1 (rw miss at h)
]

clean-never_both : (l : Leg) → IsClean l → is_some l.forward_tx_id && is_some l.refund_tx_id ≡ false
clean-never_both l c = elim (Bool-cases (is_some l.refund_tx_id)) [
  | inr kept ↦ ground (arith, kept)
  | inl back ↦
      let at = status_eq-eq l.status refunded (let k = rw back at c.refund_known in k) in
      let k = rw at at c.forward_known in ground (arith, k)
]

-- Whatever calls were made, in whatever order, no leg was both forwarded and refunded.
pub never_both :
    (h : History) (p : Leg → Bool) (l : Leg)
    → find p (run_all h empty_table).rows ≡ some l
    → is_some l.forward_tx_id && is_some l.refund_tx_id ≡ false
never_both h p l found =
    clean-never_both l
      (All-find p (run_all h empty_table).rows l (run_all-AllClean h empty_table tt) found)

Advances-refl : (l : Leg) → Advances l l
Advances-refl l = record {
  same_leg = refl;
  same_amount = refl;
  along = rw (status_eq_refl l.status) refl;
  deposit_kept = inr (refl, refl, refl, refl);
  clean = λ c. c;
}

-- The leg under an external id after a call: it is the same leg, advanced.
abbrev pub FoundAdvanced : String → Leg → Legs → Type 0
FoundAdvanced e l t = (l' : Leg) × (find (has_id e) t.rows ≡ some l') × Advances l l'

Effect-found :
    (e : String) (l : Leg) (t t' : Legs)
    → Effect t t'
    → find (has_id e) t.rows ≡ some l
    → FoundAdvanced e l t'
Effect-found e l t t' (nothing same) h =
    subst (FoundAdvanced e l) (sym same) (l, h, Advances-refl l)
Effect-found e l t t' (inserted now n fresh same) h =
    subst (FoundAdvanced e l) (sym same) (elim (Bool-cases (str_eq n.external_id e)) [
      | inr other ↦ (l, rw other h, Advances-refl l)
      | inl same_id ↦
          let there = find-exists (has_id e) t.rows l h in
          let clash = rw ((eq_iff n.external_id e).0 same_id) at fresh in cc
    ])
Effect-found e l t t' (updated p f m same) h = subst (FoundAdvanced e l) (sym same) (
  _,
  find-update (has_id e) p f t.rows l (λ y hit. rw (m y hit).same_leg refl) h,
  elim (Bool-cases (p l)) [ inl hit ↦ rw hit (m l hit) | inr miss ↦ rw miss (Advances-refl l) ],
)

-- No call loses a leg: after it, successful or not, the leg with this external id is there, with the same
-- quoted amount, at the same status or one edge further, and, where a deposit was recorded, with the
-- same received amount, sender, profit and forwarded amount.
pub run-find :
    (now : ℕ) (op : Op) (t : Legs) (e : String) (l : Leg)
    → find (has_id e) t.rows ≡ some l
    → FoundAdvanced e l (run now op t)
run-find now op t e l h = Effect-found e l t (run now op t) (run-Effect now op t) h

-- How many changes of status may still come.
abbrev pub rank : Status → ℕ
rank awaiting_deposit = 3
rank forwarding = 2
rank forwarded = 1
rank refund_pending = 1
rank settled = 0
rank failed = 0
rank refunded = 0
rank unrecoverable = 0
rank expired = 0

edge-rank : (s t : Status) → edge s t ≡ true → rank t + 1 ≤ rank s
edge-rank s t h = ground arith

-- Whether two reads of a leg show the same status.
abbrev pub same_status : Option Leg → Option Leg → Bool
same_status none none = true
same_status (some l) (some l') = status_eq l.status l'.status
same_status _ _ = false

-- How often the status of the leg with an external id changes.
unfoldable pub changes : String → History → Legs → ℕ
changes e [] t = 0
changes e ((now, op) ∷ h) t =
    changes e h t
    + (if same_status (find (has_id e) (run_all h t).rows)
          (find (has_id e) (run now op (run_all h t)).rows)
        then 0
        else 1)

-- Along one edge or none.
step-rank :
    (l l' : Leg)
    → Advances l l'
    → (if status_eq l.status l'.status then 0 else 1) + rank l'.status ≤ rank l.status
step-rank l l' a = elim (Bool-cases (status_eq l.status l'.status)) [
  | inl same ↦ rw same (let e = status_eq-eq l.status l'.status same in rw e (omega arith))
  | inr moved ↦
      rw moved
        (let k = rw moved at a.along in let r = edge-rank l.status l'.status k in omega arith)
]

abbrev CountedTo : ℕ → Leg → Option Leg → Type 0
CountedTo n l found = (l' : Leg) × (found ≡ some l') × (n + rank l'.status ≤ rank l.status)

run_all-CountedTo :
    (h : History) (t : Legs) (e : String) (l : Leg)
    → find (has_id e) t.rows ≡ some l
    → CountedTo (changes e h t) l (find (has_id e) (run_all h t).rows)
unfolding run_all changes
run_all-CountedTo [] t e l found = (l, found, omega arith)
run_all-CountedTo ((now, op) ∷ h) t e l found =
    let (before, found_before, bound) = run_all-CountedTo h t e l found in
    let (after, found_after, advanced) = run-find now op (run_all h t) e before found_before in
    let step = step-rank before after advanced in
    (after, found_after, rw found_before (rw found_after (omega arith)))

-- A leg ends: whatever calls are made, its status changes at most as often as its rank says, three times
-- from AWAITING_DEPOSIT and never again once it is settled, failed, refunded, unrecoverable or expired.
pub changes-bounded :
    (h : History) (t : Legs) (e : String) (l : Leg)
    → find (has_id e) t.rows ≡ some l
    → changes e h t ≤ rank l.status
changes-bounded h t e l found =
    let (after, found_after, bound) = run_all-CountedTo h t e l found in omega arith
