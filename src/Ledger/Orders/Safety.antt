-- ===== src/Ledger/Orders/Safety.antt =====
-- The order state machine of ledger/internal/orders/store.go: what every successful Transition
-- respects, whatever other transactions commit meanwhile.
use convert_usdt_from_trc.Base.{
  ℕ, ◌+◌, ◌≡◌, refl, sym, ap, ◌∙◌, subst, Bool, true, ◌&&◌, ◌||◌, not, some, List, [], ◌∷◌, ◌==◌,
  is_some, arith, All, Bool-cases, inl, inr, ==_iff,
}
use convert_usdt_from_trc.Base.Text.{eq_iff}
use convert_usdt_from_trc.Base.Table.{find, update}
use convert_usdt_from_trc.Ledger.Rows.{
  World, Env, State, Order, OrderRow, TransitionRow, EntryRequest, quoted, funded, screened,
  dispatching, settled, held, refunded, expired,
}
use convert_usdt_from_trc.Ledger.Monad.{ok}
use convert_usdt_from_trc.Ledger.Journal.Sound.{IsSound}
use convert_usdt_from_trc.Ledger.Journal.Hash.{canonical_hash}
use convert_usdt_from_trc.Ledger.Journal.Post.Replay.{Records}
use convert_usdt_from_trc.Ledger.Orders.{state_eq, scan_order}
use convert_usdt_from_trc.Ledger.Orders.Table.{pays_out, pays_out-blocked, Legal, Legal-open, Walk}
use convert_usdt_from_trc.Ledger.Orders.Transition.{TransitionParams, transition, at_version, moved}
use convert_usdt_from_trc.Ledger.Orders.Transition.Steps.{EntryInRange}
use convert_usdt_from_trc.Ledger.Orders.Transition.Outcomes.{Repeated, transition-eq_ok}

pub find-true : {A : Type 0} (q : A → Bool) (xs : List A) (x : A) → find q xs ≡ some x → q x ≡ true
find-true q [] x h = cc
find-true q (y ∷ ys) x h = ground (arith, find-true q ys x)

pub some_eq : {A : Type 0} (a b : A) → some a ≡ some b → a ≡ b
some_eq a b h = cc

state_eq-eq : (s t : State) → state_eq s t ≡ true → s ≡ t
state_eq-eq quoted quoted h = refl
state_eq-eq funded funded h = refl
state_eq-eq screened screened h = refl
state_eq-eq dispatching dispatching h = refl
state_eq-eq settled settled h = refl
state_eq-eq held held h = refl
state_eq-eq refunded refunded h = refl
state_eq-eq expired expired h = refl
state_eq-eq (State.other s) (State.other t) h = ap State.other ((eq_iff s t).0 h)
state_eq-eq s t h = cc

module _ (env : Env) (id : ℕ) (to : State) (n : ℕ) (p : TransitionParams) (o : Order)
    (w w' : World) where
  -- A successful transition keeps the books sound, whether it posts an entry or not.
  pub transition-IsSound :
      EntryInRange p.entry → transition env id to n p w ≡ ok o w' → IsSound w → IsSound w'
  transition-IsSound range e s =
      let (row, found, version, how) = transition-eq_ok env id to n p o w w' range e in
      elim how [ inl l ↦ l.moved.books s | inr (req, given, r) ↦ subst IsSound (sym r.same) s ]

  -- The order's row, as it stands before the call.
  abbrev pub Stands : OrderRow → Type 0
  Stands row = find (λ (r : OrderRow). r.id == id) w.orders ≡ some row

  -- The call repeats one that succeeded before: the order stands in the state that is asked for and is
  -- returned as it stands, the request's key names a posted entry with the request's hash, and no
  -- table changes.
  abbrev pub Repeats : Type 0
  Repeats =
      (w' ≡ w)
      × ((row : OrderRow) × Stands row
          × (o ≡ scan_order row)
          × (row.version ≡ n)
          × (state_eq to row.state ≡ true))
      × ((req : EntryRequest) × (p.entry ≡ some req)
          × ((id' : ℕ) × Records w req (canonical_hash env req) id'))

  Repeated-Repeats :
      (row : OrderRow) (req : EntryRequest)
      → Stands row
      → row.version ≡ n
      → p.entry ≡ some req
      → Repeated env (scan_order row) to req w o w'
      → Repeats
  unfolding scan_order
  Repeated-Repeats row req found version given r =
      (r.same, (row, found, r.unchanged, version, r.there), (req, given, r.posted))

  -- While the ledger is halted, a transition into a state that pays out fails, or repeats a call that
  -- succeeded before: the order stands in that state, the key of the request names a posted entry
  -- with its hash, and no table changes, the journal included.
  pub halted-pays_out :
      EntryInRange p.entry
      → w.system.halted ≡ true
      → pays_out to ≡ true
      → transition env id to n p w ≡ ok o w'
      → Repeats
  halted-pays_out range h out e =
      let (row, found, version, how) = transition-eq_ok env id to n p o w w' range e in
      elim how [
        | inl l ↦
            let blocked = (pays_out-blocked row.state to out).0 in
            let stopped = l.running (rw l.in_table at blocked) in absurd (cc (h, stopped))
        | inr (req, given, r) ↦ Repeated-Repeats row req found version given r
      ]

  -- The call moved the order: from the state of its row along one edge of the table, which the log's new
  -- row tells, from the version that the caller expected to the next one, and with an entry where
  -- the new state pays out; the rows that others have committed stay, but for this order's.
  abbrev pub MovedOn : OrderRow → Type 0
  MovedOn row =
      Stands row
      × (row.version ≡ n)
      × Legal row.state to
      × (o.state ≡ to)
      × (o.id ≡ id)
      × (o.version ≡ n + 1)
      × (not (pays_out to) || (is_some p.entry || is_some p.entry_id) ≡ true)
      × ((t : TransitionRow) × (w'.transitions ≡ t ∷ w.transitions)
          × (t.order_id ≡ id)
          × (t.from_state ≡ row.state)
          × (t.to_state ≡ to))
      × (w'.orders
          ≡ update (λ (r : OrderRow). r.id == id && r.version == n) (moved env to p.sender_address)
              (env.other_commits w.orders))

  -- Every logged transition is an edge of the table, and a successful transition keeps it so.
  pub transition-log-Legal :
      EntryInRange p.entry
      → transition env id to n p w ≡ ok o w'
      → All (λ (t : TransitionRow). Legal t.from_state t.to_state) w.transitions
      → All (λ (t : TransitionRow). Legal t.from_state t.to_state) w'.transitions
  transition-log-Legal range e logged =
      let (row, found, version, how) = transition-eq_ok env id to n p o w w' range e in
      elim how [
        | inl l ↦
            subst (All (λ (t : TransitionRow). Legal t.from_state t.to_state)) (sym l.moved.log)
              (ap is_some l.in_table, logged)
        | inr (req, given, r) ↦
            subst (All (λ (t : TransitionRow). Legal t.from_state t.to_state))
              (sym (ap (λ (t : World). t.transitions) r.same)) logged
      ]

-- Every order has come from `quoted` to its state in as many moves as its version says.
abbrev pub HasWalk : List OrderRow → Type 0
HasWalk rows = All (λ (r : OrderRow). Walk r.state r.version) rows

-- The rows that still carry the version of `row` are in its state.
abbrev pub SameAtVersion : OrderRow → List OrderRow → Type 0
SameAtVersion row later =
    All
      (λ (r : OrderRow).
        not (r.id == row.id && r.version == row.version) || state_eq row.state r.state ≡ true)
      later

moved-HasWalk :
    (env : Env) (row : OrderRow) (to : State) (sender : _) (later : List OrderRow)
    → Legal row.state to
    → HasWalk later
    → SameAtVersion row later
    → HasWalk (update (at_version row.id row.version) (moved env to sender) later)
moved-HasWalk env row to sender [] l paths same = tt
moved-HasWalk env row to sender (x ∷ xs) l paths same = (
  elim (Bool-cases (at_version row.id row.version x)) [
    | inl hit ↦
        let states = state_eq-eq row.state x.state (ground (arith, same.0, hit)) in
        let edge = subst (λ s. Legal s to) states l in
        rw hit (Walk.step paths.0 edge (Legal-open x.state to edge))
    | inr miss ↦ rw miss paths.0
  ],
  moved-HasWalk env row to sender xs l paths.1 same.1,
)

-- However other transactions interleave, as long as they too give an order a new version with every
-- new state and keep every order on such a walk, a successful transition keeps each order on a walk
-- from `quoted` to its state, of as many moves of the table as its version counts, none of them out
-- of a terminal state.
pub transition-HasWalk :
    (env : Env) (id : ℕ) (to : State) (n : ℕ) (p : TransitionParams) (o : Order) (row : OrderRow)
    (w w' : World)
    → EntryInRange p.entry
    → transition env id to n p w ≡ ok o w'
    → find (λ (r : OrderRow). r.id == id) w.orders ≡ some row
    → HasWalk w.orders
    → HasWalk (env.other_commits w.orders)
    → SameAtVersion row (env.other_commits w.orders)
    → HasWalk w'.orders
transition-HasWalk env id to n p o row w w' range e here paths later same =
    let (row', found, version, how) = transition-eq_ok env id to n p o w w' range e in
    let row_eq : row' ≡ row = some_eq row' row (sym found ∙ here) in
    elim how [
      | inl l ↦
          let key = find-true (λ (x : OrderRow). x.id == id) w.orders row here in
          let id_eq : row.id ≡ id = ground (arith, key, ==_iff row.id id) in
          let n_eq : row.version ≡ n = sym (ap (λ (r : OrderRow). r.version) row_eq) ∙ version in
          let edge = subst (λ (r : OrderRow). Legal r.state to) row_eq (ap is_some l.in_table) in
          let result =
            moved-HasWalk env row to p.sender_address (env.other_commits w.orders) edge later
              same in
          subst HasWalk (sym l.moved.rows) (
            subst
              (λ k. HasWalk (
                update (at_version k n) (moved env to p.sender_address)
                  (env.other_commits w.orders)))
              id_eq
              (subst
                (λ k. HasWalk (
                  update (at_version row.id k) (moved env to p.sender_address)
                    (env.other_commits w.orders)))
                n_eq result))
      | inr (req, given, r) ↦ subst HasWalk (sym (ap (λ (t : World). t.orders) r.same)) paths
    ]
