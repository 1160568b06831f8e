-- ===== src/Ledger/Orders/Transition/Outcomes.antt =====
-- The two ways in which Transition of ledger/internal/orders/store.go succeeds: a move by the table,
-- and the repetition of one.
use convert_usdt_from_trc.Base.{
  ℕ, ◌≡◌, refl, sym, ap, ◌∙◌, subst, Bool, true, false, ◌&&◌, ◌||◌, not, Option, none, some, List,
  [], ◌∷◌, ◌==◌, is_some, arith, Bool-cases, inl, inr, ◌⊎◌, ==_iff,
}
use convert_usdt_from_trc.Base.Text.{String, str_eq}
use convert_usdt_from_trc.Base.Table.{find}
use convert_usdt_from_trc.Ledger.Rows.{
  World, Env, State, Order, OrderRow, EntryRequest, Entry, funded, entry_not_found,
}
use convert_usdt_from_trc.Ledger.Monad.{ok, pure, >>=-eq-ok, ok_injective, after_check, or_raise}
use convert_usdt_from_trc.Ledger.Journal.Sound.{IsSound}
use convert_usdt_from_trc.Ledger.Journal.Hash.{canonical_hash}
use convert_usdt_from_trc.Ledger.Journal.Post.{post, get_entry_by_idempotency_key, key_taken}
use convert_usdt_from_trc.Ledger.Journal.Post.Replay.{Records, post-known}
use convert_usdt_from_trc.Ledger.Journal.Post.Frame.{SameOrders-trans, SameOrders-eq}
use convert_usdt_from_trc.Ledger.Orders.{
  Rule, transition_table, valid_state, state_eq, scan_order, get,
}
use convert_usdt_from_trc.Ledger.Orders.Transition.{
  TransitionParams, validate_transition, known_of, key_exists, replay_if_already_posted,
  illegal_or_replay, check_halt, or_illegal, legal, by_rule, transition,
}
use convert_usdt_from_trc.Ledger.Orders.Transition.Steps.{
  EntryInRange, SameJournal, SameJournal-trans, Carried, get-eq_ok, validate_transition-eq_ok,
  OnlyCache, check_halt-eq_ok, Moved, move-Moved, same_books,
}

pub Carried-eq : (w v : World) → w ≡ v → Carried w v
Carried-eq w v e = (SameOrders-eq w v e, λ s. subst IsSound e s)

pub Carried-trans : (u v w : World) → Carried u v → Carried v w → Carried u w
Carried-trans u v w a b = (SameOrders-trans u v w a.0 b.0, λ s. b.1 (a.1 s))

OnlyCache-Carried : (w v : World) → OnlyCache w v → Carried w v
OnlyCache-Carried w v e = (
  (
    ap (λ (t : World). t.orders) e,
    ap (λ (t : World). t.transitions) e,
    ap (λ (t : World). t.system) e,
  ),
  same_books v w w.orders w.transitions v.halt_cache e,
)

OnlyCache-SameJournal : (w v : World) → OnlyCache w v → SameJournal w v
OnlyCache-SameJournal w v e = (
  ap (λ (t : World). t.entries) e,
  ap (λ (t : World). t.lines) e,
  ap (λ (t : World). t.balances) e,
)

Moved-earlier :
    (env : Env) (id : ℕ) (from to : State) (n : ℕ) (p : TransitionParams) (w v : World) (o : Order)
    (w' : World)
    → Carried w v
    → (p.entry ≡ none → SameJournal w v)
    → Moved env id from to n p v o w'
    → Moved env id from to n p w o w'
Moved-earlier env id from to n p w v o w' ((os, ts, sys), sound) journal m = record {
  target = m.target;
  entry = m.entry;
  hit = rw (sym os) m.hit;
  result = m.result;
  rows = rw (sym os) m.rows;
  log = rw (sym ts) m.log;
  flags = m.flags ∙ sys;
  books = λ s. m.books (sound s);
  unposted = λ h. (SameJournal-trans w v w' (journal h) (m.unposted h).0, (m.unposted h).1);
}

-- Transition by the table: the rule that it found, and what the rule asked for.
pub record LegalMove (env : Env) (id : ℕ) (from to : State) (n : ℕ) (p : TransitionParams)
    (w : World) (o : Order) (w' : World) : Type 0 where
  pub rule : Rule
  pub in_table : transition_table from to ≡ some rule
  pub running : rule.halt_blocked ≡ true → w.system.halted ≡ false
  pub entry_given : rule.requires_entry ≡ (is_some p.entry || is_some p.entry_id)
  pub sender_funds : is_some p.sender_address ≡ true → state_eq to funded ≡ true
  pub moved : Moved env id from to n p w o w'

legal-LegalMove :
    (env : Env) (r : Rule) (current : Order) (id : ℕ) (to : State) (n : ℕ) (p : TransitionParams)
    (o : Order) (w w' : World)
    → EntryInRange p.entry
    → transition_table current.state to ≡ some r
    → legal env r current id to n p w ≡ ok o w'
    → LegalMove env id current.state to n p w o w'
unfolding legal
legal-LegalMove env r current id to n p o w w' range t e =
    let (u, w1, halt, e1) = >>=-eq-ok (check_halt env r) _ e in
    let (only, running) = check_halt-eq_ok env r u w w1 halt in
    let e2 =
      after_check (r.requires_entry && not (is_some p.entry) && not (is_some p.entry_id)) _ _ e1 in
    let e3 =
      after_check (not r.requires_entry && (is_some p.entry || is_some p.entry_id)) _ _ e2.1 in
    let e4 = after_check (is_some p.sender_address && not (state_eq to funded)) _ _ e3.1 in
    let (v, carried, journal, m) = move-Moved env id current.state to n p o w1 w' range e4.1 in
    record {
      rule = r;
      in_table = t;
      running = running;
      entry_given = ground (arith, e2.0, e3.0);
      sender_funds = λ h. ground (arith, e4.0, h);
      moved =
          Moved-earlier env id current.state to n p w v o w'
            (Carried-trans w w1 v (OnlyCache-Carried w w1 only) carried)
            (λ h. SameJournal-trans w w1 v (OnlyCache-SameJournal w w1 only) (journal h)) m;
    }

-- Transition without a move: the order already stands in the state that is asked for, the key of the
-- request names an entry that was posted with the request's hash, and nothing changes.
pub record Repeated (env : Env) (current : Order) (to : State) (req : EntryRequest) (w : World)
    (o : Order) (w' : World) : Type 0 where
  pub there : state_eq to current.state ≡ true
  pub unchanged : o ≡ current
  pub posted : (id : ℕ) × Records w req (canonical_hash env req) id
  pub same : w' ≡ w

known_of-eq_ok :
    (key : String) (es : List Entry) (b : Bool) (w w' : World)
    → known_of (or_raise (find (λ (e : Entry). str_eq e.idempotency_key key) es) entry_not_found w)
      ≡ ok b w'
    → (w ≡ w') × (key_taken key es ≡ b)
known_of-eq_ok key [] b w w' e = let d = ok_injective e in (d.1, d.0)
known_of-eq_ok key (x ∷ es) b w w' e = elim (Bool-cases (str_eq x.idempotency_key key)) [
  | inl hit ↦ let d = ok_injective (rw hit at e) in (d.1, rw hit d.0)
  | inr miss ↦ let k = known_of-eq_ok key es b w w' (rw miss at e) in (k.0, rw miss k.1)
]

key_exists-eq_ok :
    (key : String) (b : Bool) (w w' : World)
    → key_exists key w ≡ ok b w'
    → (w ≡ w') × (key_taken key w.entries ≡ b)
unfolding key_exists get_entry_by_idempotency_key
key_exists-eq_ok key b w w' e = known_of-eq_ok key w.entries b w w' e

replay-eq_ok :
    (env : Env) (current : Order) (req : EntryRequest) (o : Order) (w w' : World)
    → replay_if_already_posted env current req w ≡ ok (some o) w'
    → (o ≡ current) × (w' ≡ w) × ((id : ℕ) × Records w req (canonical_hash env req) id)
unfolding replay_if_already_posted
replay-eq_ok env current req o w w' e =
    let (known, w1, read, e1) = >>=-eq-ok (key_exists req.idempotency_key) _ e in
    let (same, taken) = key_exists-eq_ok req.idempotency_key known w w1 read in
    elim (Bool-cases known) [
      | inl used ↦
          let (entry, w2, posted, e2) =
            >>=-eq-ok (post env req) (λ e. pure (some current)) {w = w1} (rw used at e1) in
          let d = ok_injective e2 in
          let (kept, recorded) =
            post-known env req entry w w2 (taken ∙ used)
              (subst (λ (t : World). post env req t ≡ ok entry w2) (sym same) posted) in
          (let step = d.0 in cc, sym d.1 ∙ kept, (entry.id, recorded))
      | inr new ↦ absurd (let d = ok_injective (rw new at e1) in cc (d.0))
    ]

or_illegal-eq_ok :
    (found : Option Order) (o : Order) (w w' : World)
    → or_illegal found w ≡ ok o w'
    → (found ≡ some o) × (w ≡ w')
or_illegal-eq_ok none o w w' e = cc
or_illegal-eq_ok (some c) o w w' e = let d = ok_injective e in (ap some d.0, d.1)

illegal_or_replay-Repeated :
    (env : Env) (current : Order) (to : State) (entry : Option EntryRequest) (o : Order)
    (w w' : World)
    → illegal_or_replay env current to entry w ≡ ok o w'
    → (req : EntryRequest) × (entry ≡ some req) × Repeated env current to req w o w'
unfolding illegal_or_replay
illegal_or_replay-Repeated env current to none o w w' e = cc
illegal_or_replay-Repeated env current to (some req) o w w' e =
    elim (Bool-cases (state_eq to current.state)) [
      | inl there ↦
          let (found, w1, replay, e1) =
            >>=-eq-ok (replay_if_already_posted env current req) or_illegal {w = w}
              (rw there at e) in
          let (found_eq, last) = or_illegal-eq_ok found o w1 w' e1 in
          let (same, kept, posted) = replay-eq_ok env current req o w w1 (rw found_eq at replay) in
          (
            req,
            refl,
            record { there = there; unchanged = same; posted = posted; same = sym last ∙ kept },
          )
      | inr elsewhere ↦ absurd (let bad = rw elsewhere at e in cc)
    ]

by_rule-cases :
    (env : Env) (found : Option Rule) (current : Order) (id : ℕ) (to : State) (n : ℕ)
    (p : TransitionParams) (o : Order) (w w' : World)
    → transition_table current.state to ≡ found
    → EntryInRange p.entry
    → by_rule env found current id to n p w ≡ ok o w'
    → LegalMove env id current.state to n p w o w'
      ⊎ ((req : EntryRequest) × (p.entry ≡ some req) × Repeated env current to req w o w')
by_rule-cases env none current id to n p o w w' t range e =
    inr (illegal_or_replay-Repeated env current to p.entry o w w' e)
by_rule-cases env (some r) current id to n p o w w' t range e =
    inl (legal-LegalMove env r current id to n p o w w' range t e)

-- Transition succeeds by a legal move, or as a repetition of a call that succeeded before.
pub transition-eq_ok :
    (env : Env) (id : ℕ) (to : State) (n : ℕ) (p : TransitionParams) (o : Order) (w w' : World)
    → EntryInRange p.entry
    → transition env id to n p w ≡ ok o w'
    → (row : OrderRow) × (find (λ (r : OrderRow). r.id == id) w.orders ≡ some row)
      × (row.version ≡ n)
      × (LegalMove env id row.state to n p w o w'
          ⊎ ((req : EntryRequest) × (p.entry ≡ some req)
              × Repeated env (scan_order row) to req w o w'))
unfolding transition scan_order
transition-eq_ok env id to n p o w w' range e =
    let e1 = after_check (not (valid_state to)) _ _ e in
    let (u, w1, valid, e2) = >>=-eq-ok (validate_transition p) _ e1.1 in
    let same = validate_transition-eq_ok p valid in
    let (current, w2, read, e3) = >>=-eq-ok (get id) _ e2 in
    let (row, found, scanned, same2) = get-eq_ok id read in
    let e4 = after_check (not (current.version == n)) _ _ e3 in
    let at' = same ∙ same2 in
    let rest : by_rule env (transition_table row.state to) (scan_order row) id to n p w ≡ ok o w' =
      subst (λ (c : Order). by_rule env (transition_table c.state to) c id to n p w ≡ ok o w')
        scanned
        (subst (λ t. by_rule env (transition_table current.state to) current id to n p t ≡ ok o w')
          (sym at') e4.1) in
    (
      row,
      subst (λ (t : World). find (λ (r : OrderRow). r.id == id) t.orders ≡ some row) (sym same)
          found,
      ground (arith, e4.0, ap (λ (c : Order). c.version) scanned, ==_iff current.version n),
      by_rule-cases env (transition_table row.state to) (scan_order row) id to n p o w w' refl range
          rest,
    )
