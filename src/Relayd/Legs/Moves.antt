-- ===== src/Relayd/Legs/Moves.antt =====
-- What each statement of relayd/internal/relay/relay.go does to a leg that it selects.
use convert_usdt_from_trc.Base.{
  ℕ, ◌≡◌, refl, sym, ap, ◌∙◌, Bool, true, false, ◌||◌, not, Option, none, some, is_some, arith,
  Bool-cases, inl, inr,
}
use convert_usdt_from_trc.Base.Action.{◌>>=◌, raise_if, or_raise, state_of}
use convert_usdt_from_trc.Base.Table.{find, exists, update-none}
use convert_usdt_from_trc.Base.Text.{String}
use convert_usdt_from_trc.Money.{Amount}
use convert_usdt_from_trc.Relayd.Legs.{
  Status, awaiting_deposit, forwarding, forwarded, settled, failed, refund_pending, refunded,
  unrecoverable, expired, status_eq, Leg, Error, Legs, leg_not_found, get_by_external_id,
  check_already_at, update_rows, selects, mark, has_id,
}
use convert_usdt_from_trc.Relayd.Legs.Marks.{
  from_awaiting, from_forwarding, from_forwarded, from_refund_pending,
}
use convert_usdt_from_trc.Relayd.Legs.Lifecycle.{
  DepositKept, edge, after_forward, needs_forward, parts_agree, IsClean, Advances, Moves, Effect,
  updated,
}

found-state :
    (found : Option Leg) (s : Status) (t : Legs)
    → state_of (
        (or_raise found leg_not_found >>= λ current.
        raise_if (not (status_eq current.status s)) Error.not_in_expected_status)
          t)
      ≡ t
found-state none s t = refl
found-state (some l) s t = elim (Bool-cases (status_eq l.status s)) [
  | inl there ↦ rw there refl
  | inr elsewhere ↦ rw elsewhere refl
]

pub check_already_at-state :
    (e : String) (s : Status) (t : Legs) → state_of (check_already_at e s t) ≡ t
unfolding check_already_at get_by_external_id
check_already_at-state e s t = found-state (find (has_id e) t.rows) s t

-- A guarded UPDATE leaves the table as if it had no second part.
pub mark-state :
    (e : String) (from : Status → Bool) (to : Status) (f : Leg → Leg) (t : Legs)
    → state_of (mark e from to f t) ≡ update_rows (selects e from) f t
unfolding mark
mark-state e from to f t = elim (Bool-cases (exists (selects e from) t.rows)) [
  | inl hit ↦ rw hit refl
  | inr miss ↦ rw miss (
      check_already_at-state e to t
      ∙ ap (λ rows. record t { rows = rows }) (sym (update-none (selects e from) f t.rows miss)))
]

pub mark-Effect :
    (e : String) (from : Status → Bool) (to : Status) (f : Leg → Leg) (t : Legs)
    → Moves (selects e from) f
    → Effect t (state_of (mark e from to f t))
mark-Effect e from to f t h = updated (selects e from) f h (mark-state e from to f t)

pub status_eq-eq : (s t : Status) → status_eq s t ≡ true → s ≡ t
status_eq-eq awaiting_deposit awaiting_deposit h = refl
status_eq-eq forwarding forwarding h = refl
status_eq-eq forwarded forwarded h = refl
status_eq-eq settled settled h = refl
status_eq-eq failed failed h = refl
status_eq-eq refund_pending refund_pending h = refl
status_eq-eq refunded refunded h = refl
status_eq-eq unrecoverable unrecoverable h = refl
status_eq-eq expired expired h = refl
status_eq-eq s t h = cc

pub status_eq_refl : (s : Status) → status_eq s s ≡ true
status_eq_refl awaiting_deposit = refl
status_eq_refl forwarding = refl
status_eq_refl forwarded = refl
status_eq_refl settled = refl
status_eq_refl failed = refl
status_eq_refl refund_pending = refl
status_eq_refl refunded = refl
status_eq_refl unrecoverable = refl
status_eq_refl expired = refl

pub or_true : (b : Bool) → b || true ≡ true
or_true true = refl
or_true false = refl

-- The new row of a leg whose deposit columns are as they were.
leg-Advances :
    (l l' : Leg) (s to : Status)
    → l.status ≡ s
    → l'.status ≡ to
    → edge s to ≡ true
    → l'.external_id ≡ l.external_id
    → l'.amount_in ≡ l.amount_in
    → l'.received_amount ≡ l.received_amount
    → l'.sender_address ≡ l.sender_address
    → l'.profit_amount ≡ l.profit_amount
    → l'.forward_amount ≡ l.forward_amount
    → (IsClean l → not (is_some l'.forward_tx_id) || after_forward to ≡ true)
    → (IsClean l → not (is_some l'.refund_tx_id) || status_eq to refunded ≡ true)
    → (IsClean l → not (needs_forward to) || is_some l'.forward_tx_id ≡ true)
    → not (status_eq to refunded) || is_some l'.refund_tx_id ≡ true
    → Advances l l'
leg-Advances l l' s to h h' step e a r d p f sent back sent' back' = record {
  same_leg = e;
  same_amount = a;
  along = rw h (rw h' (rw step (ground arith)));
  deposit_kept = inr (r, d, p, f);
  clean = λ c. record {
    forward_known = rw h' (sent c);
    refund_known = rw h' (back c);
    forward_sent = rw h' (sent' c);
    refund_sent = rw h' back';
    parts_known =
        ap (λ t. parts_agree t l'.forward_amount l'.received_amount) p
        ∙ ap (λ t. parts_agree l.profit_amount t l'.received_amount) f
        ∙ ap (λ t. parts_agree l.profit_amount l.forward_amount t) r
        ∙ c.parts_known;
  };
}

-- What a leg's status says of its transactions.
no_forward :
    (l : Leg) (s : Status)
    → l.status ≡ s
    → after_forward s ≡ false
    → IsClean l
    → is_some l.forward_tx_id ≡ false
no_forward l s h a c = let k = rw h at c.forward_known in ground (arith, k, a)

no_refund :
    (l : Leg) (s : Status)
    → l.status ≡ s
    → status_eq s refunded ≡ false
    → IsClean l
    → is_some l.refund_tx_id ≡ false
no_refund l s h a c = let k = rw h at c.refund_known in ground (arith, k, a)

pub at_status :
    (e : String) (from : Status → Bool) (l : Leg) → selects e from l ≡ true → from l.status ≡ true
at_status e from l h = ground (arith, h)

-- A statement that leaves the status and the transactions alone.
pub same-Advances :
    (l l' : Leg)
    → l'.external_id ≡ l.external_id
    → l'.amount_in ≡ l.amount_in
    → l'.status ≡ l.status
    → l'.forward_tx_id ≡ l.forward_tx_id
    → l'.refund_tx_id ≡ l.refund_tx_id
    → DepositKept l l'
    → (IsClean l → parts_agree l'.profit_amount l'.forward_amount l'.received_amount ≡ true)
    → Advances l l'
same-Advances l l' i a s f r d parts = record {
  same_leg = i;
  same_amount = a;
  along = rw s (rw (status_eq_refl l.status) refl);
  deposit_kept = d;
  clean = λ c. record {
    forward_known = rw f (rw s c.forward_known);
    refund_known = rw r (rw s c.refund_known);
    forward_sent = rw f (rw s c.forward_sent);
    refund_sent = rw r (rw s c.refund_sent);
    parts_known = parts c;
  };
}

module _ (now : ℕ) (e : String) where
  pub forwarding-Moves :
      (p o a : String)
      → Moves (selects e from_awaiting) (λ l. record l {
        status = forwarding;
        upstream_provider_name = some p;
        upstream_order_id = some o;
        upstream_deposit_address = some a;
        updated_at = now;
      })
  forwarding-Moves p o a l h =
      let s = status_eq-eq l.status awaiting_deposit (at_status e from_awaiting l h) in
      leg-Advances l _ awaiting_deposit forwarding s refl refl refl refl refl refl refl refl
        (λ c. rw (no_forward l awaiting_deposit s refl c) refl)
        (λ c. rw (no_refund l awaiting_deposit s refl c) refl) (λ c. refl) refl

  pub forwarded-Moves :
      (tx : String)
      → Moves
          (selects e from_forwarding)
          (λ l. record l { status = forwarded; forward_tx_id = some tx; updated_at = now })
  forwarded-Moves tx l h =
      let s = status_eq-eq l.status forwarding (at_status e from_forwarding l h) in
      leg-Advances l _ forwarding forwarded s refl refl refl refl refl refl refl refl (λ c. refl)
        (λ c. rw (no_refund l forwarding s refl c) refl) (λ c. refl) refl

  pub settled-Moves :
      (x : Amount)
      → Moves (selects e from_forwarded) (λ l. record l {
        status = settled;
        amount_out_actual = some (record { asset = l.amount_out_expected.asset; units = x.units });
        updated_at = now;
      })
  settled-Moves x l h =
      let s = status_eq-eq l.status forwarded (at_status e from_forwarded l h) in
      leg-Advances l _ forwarded settled s refl refl refl refl refl refl refl refl
        (λ c. or_true (not (is_some l.forward_tx_id)))
        (λ c. rw (no_refund l forwarded s refl c) refl) (λ c. let k = rw s at c.forward_sent in k)
        refl

  pub plain-Moves :
      (s to : Status) (l : Leg)
      → l.status ≡ s
      → edge s to ≡ true
      → not (after_forward s) || after_forward to ≡ true
      → status_eq s refunded ≡ false
      → not (needs_forward to) || needs_forward s ≡ true
      → status_eq to refunded ≡ false
      → Advances l (record l { status = to; updated_at = now })
  plain-Moves s to l h step sent back from out =
      leg-Advances l _ s to h refl step refl refl refl refl refl refl
        (λ c. let k = rw h at c.forward_known in ground (arith, k, sent))
        (λ c. rw (no_refund l s h back c) refl)
        (λ c. let k = rw h at c.forward_sent in ground (arith, k, from)) (rw out refl)

  pub failed-Moves :
      Moves
        (selects e (λ s. from_forwarding s || from_forwarded s))
        (λ l. record l { status = failed; updated_at = now })
  failed-Moves l h = elim (Bool-cases (from_forwarding l.status)) [
    | inl f ↦
        plain-Moves forwarding failed l (status_eq-eq l.status forwarding f) refl refl refl refl
          refl
    | inr n ↦
        plain-Moves forwarded failed l (status_eq-eq l.status forwarded (ground (arith, h, n))) refl
          refl refl refl refl
  ]

  pub refund_pending-Moves :
      Moves
        (selects e (λ s. from_awaiting s || from_forwarding s))
        (λ l. record l { status = refund_pending; updated_at = now })
  refund_pending-Moves l h = elim (Bool-cases (from_awaiting l.status)) [
    | inl f ↦
        plain-Moves awaiting_deposit refund_pending l (status_eq-eq l.status awaiting_deposit f)
          refl refl refl refl refl
    | inr n ↦
        plain-Moves forwarding refund_pending l
          (status_eq-eq l.status forwarding (ground (arith, h, n))) refl refl refl refl refl
  ]

  pub refunded-Moves :
      (tx : String)
      → Moves
          (selects e from_refund_pending)
          (λ l. record l { status = refunded; refund_tx_id = some tx; updated_at = now })
  refunded-Moves tx l h =
      let s = status_eq-eq l.status refund_pending (at_status e from_refund_pending l h) in
      leg-Advances l _ refund_pending refunded s refl refl refl refl refl refl refl refl
        (λ c. rw (no_forward l refund_pending s refl c) refl) (λ c. refl) (λ c. refl) refl

  pub unrecoverable-Moves :
      Moves (selects e from_forwarded) (λ l. record l { status = unrecoverable; updated_at = now })
  unrecoverable-Moves l h =
      plain-Moves forwarded unrecoverable l
        (status_eq-eq l.status forwarded (at_status e from_forwarded l h)) refl refl refl refl refl

  pub expired-Moves :
      Moves (selects e from_awaiting) (λ l. record l { status = expired; updated_at = now })
  expired-Moves l h =
      plain-Moves awaiting_deposit expired l
        (status_eq-eq l.status awaiting_deposit (at_status e from_awaiting l h)) refl refl refl refl
        refl
