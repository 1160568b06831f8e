-- ===== src/Ledger/Orders/Transition/Steps.antt =====
-- What a successful Transition of ledger/internal/orders/store.go went through, step by step.
use convert_usdt_from_trc.Base.{
  ℕ, ◌≡◌, refl, sym, ap, ◌∙◌, subst, Bool, true, false, Option, none, some, List, ◌∷◌, ◌==◌, arith,
  All, Bool-cases, inl, inr,
}
use convert_usdt_from_trc.Base.Int64.{IsInt64}
use convert_usdt_from_trc.Base.Table.{find, update}
use convert_usdt_from_trc.Base.Text.{String}
use convert_usdt_from_trc.Ledger.Rows.{
  World, Env, State, Order, OrderRow, TransitionRow, EntryRequest, order_not_found, HaltCache,
}
use convert_usdt_from_trc.Ledger.Monad.{
  ok, pure, >>=-eq-ok, ok_injective, raise_if-eq-ok, after_check, or_raise, or_raise-eq-ok,
}
use convert_usdt_from_trc.Ledger.Halt.{is_halted, cache_is_halted}
use convert_usdt_from_trc.Ledger.Journal.Sound.{IsSound}
use convert_usdt_from_trc.Ledger.Journal.Post.{post}
use convert_usdt_from_trc.Ledger.Journal.Post.Books.{post-IsSound}
use convert_usdt_from_trc.Ledger.Journal.Post.Frame.{SameOrders, SameOrders-eq, post-SameOrders}
use convert_usdt_from_trc.Ledger.Orders.{Rule, scan_order, get}
use convert_usdt_from_trc.Ledger.Orders.Transition.{
  TransitionParams, validate_transition, at_version, check_halt_flags, check_halt, moved, swap,
  compare_and_swap, transition_row, log_transition, post_entry, move,
}

-- Units that a request names are int64 in Go.
abbrev pub EntryInRange : Option EntryRequest → Type 0
EntryInRange none = Unit
EntryInRange (some req) = All (λ l. IsInt64 l.amount.units) req.lines

-- The same orders, and books that are sound if they were.
abbrev pub Carried : World → World → Type 0
Carried w v = SameOrders w v × (IsSound w → IsSound v)

pub get-eq_ok :
    (id : ℕ) {o : Order} {w w' : World}
    → get id w ≡ ok o w'
    → (row : OrderRow) × (find (λ (r : OrderRow). r.id == id) w.orders ≡ some row)
      × (o ≡ scan_order row)
      × (w ≡ w')
unfolding get
get-eq_ok id {o} {w} {w'} e =
    let found = find (λ (r : OrderRow). r.id == id) w.orders in
    let (row, w1, hit, e1) =
      >>=-eq-ok (or_raise found order_not_found) (λ row. pure (scan_order row)) e in
    let h = or_raise-eq-ok found order_not_found row w w1 hit in
    let d = ok_injective e1 in (row, h.0, sym d.0, h.1 ∙ d.1)

pub validate_transition-eq_ok :
    (p : TransitionParams) {u : Unit {0}} {w w' : World}
    → validate_transition p w ≡ ok u w'
    → w ≡ w'
unfolding validate_transition
validate_transition-eq_ok p e = ground arith

-- A read of the flags touches the cache alone.
abbrev pub OnlyCache : World → World → Type 0
OnlyCache w v = v ≡ record w { halt_cache = v.halt_cache }

pub cache_is_halted-eq_ok :
    (env : Env) (b : Bool) (w w' : World) → cache_is_halted env w ≡ ok b w' → OnlyCache w w'
unfolding cache_is_halted
cache_is_halted-eq_ok env b w w' e = ground arith

check_halt_flags-eq_ok :
    (env : Env) (u : Unit {0}) (w w' : World)
    → check_halt_flags env w ≡ ok u w'
    → OnlyCache w w' × (w.system.halted ≡ false)
unfolding check_halt_flags is_halted
check_halt_flags-eq_ok env u w w' e =
    let (fast, w1, read, e1) = >>=-eq-ok (cache_is_halted env) _ e in
    let only = cache_is_halted-eq_ok env fast w w1 read in
    let e2 = after_check fast _ _ e1 in
    let e3 = raise_if-eq-ok w1.system.halted _ e2.1 in
    (
      sym e3.1 ∙ only ∙ ap (λ (t : World). record w { halt_cache = t.halt_cache }) e3.1,
      ap (λ (t : World). t.system.halted) (sym only) ∙ e3.0,
    )

pub check_halt-eq_ok :
    (env : Env) (r : Rule) (u : Unit {0}) (w w' : World)
    → check_halt env r w ≡ ok u w'
    → OnlyCache w w' × (r.halt_blocked ≡ true → w.system.halted ≡ false)
unfolding check_halt
check_halt-eq_ok env r u w w' e = elim (Bool-cases r.halt_blocked) [
  | inl blocked ↦ let c = check_halt_flags-eq_ok env u w w' (rw blocked at e) in (c.0, λ h. c.1)
  | inr free ↦
      let c = ok_injective (rw free at e) in
      (sym c.1 ∙ ap (λ (t : World). record w { halt_cache = t.halt_cache }) c.1, λ h. cc)
]

post_entry-Carried :
    (env : Env) (p : TransitionParams) (req : Option EntryRequest) (id : Option ℕ) (w w' : World)
    → EntryInRange req
    → post_entry env p req w ≡ ok id w'
    → Carried w w'
post_entry-Carried env p none id w w' range e =
    let d = ok_injective e in (SameOrders-eq w w' d.1, λ s. subst IsSound d.1 s)
post_entry-Carried env p (some req) id w w' range e =
    let (entry, w1, posted, e1) = >>=-eq-ok (post env req) (λ entry. pure (some entry.id)) e in
    let d = ok_injective e1 in
    (
      subst (SameOrders w) d.1 (post-SameOrders env req entry w w1 range posted),
      λ s. subst IsSound d.1 (post-IsSound env req range s posted),
    )

-- The journal as it was.
abbrev pub SameJournal : World → World → Type 0
SameJournal w v = (v.entries ≡ w.entries) × (v.lines ≡ w.lines) × (v.balances ≡ w.balances)

pub SameJournal-trans : (u v w : World) → SameJournal u v → SameJournal v w → SameJournal u w
SameJournal-trans u v w (a, b, c) (x, y, z) = (x ∙ a, y ∙ b, z ∙ c)

post_entry-unposted :
    (env : Env) (p : TransitionParams) (req : Option EntryRequest) (id : Option ℕ) (w w' : World)
    → req ≡ none
    → post_entry env p req w ≡ ok id w'
    → SameJournal w w' × (id ≡ p.entry_id)
post_entry-unposted env p none id w w' h e =
    let d = ok_injective e in
    (
      (
        ap (λ (t : World). t.entries) (sym d.1),
        ap (λ (t : World). t.lines) (sym d.1),
        ap (λ (t : World). t.balances) (sym d.1),
      ),
      sym d.0,
    )
post_entry-unposted env p (some req) id w w' h e = cc

-- What a hit of the UPDATE did.
abbrev Swapped :
    Env → ℕ → State → ℕ → Option String → Option OrderRow → Order → World → World → Type 0
Swapped env id to expected sender found o w w' =
    (target : OrderRow) × (found ≡ some target)
    × (o ≡ scan_order (moved env to sender target))
    × (w' ≡ record w {
      orders = update (at_version id expected) (moved env to sender) (env.other_commits w.orders);
    })

swap-eq_ok :
    (env : Env) (id : ℕ) (to : State) (expected : ℕ) (sender : Option String)
    (found : Option OrderRow) (o : Order) (w w' : World)
    → swap env id to expected sender found w ≡ ok o w'
    → Swapped env id to expected sender found o w w'
swap-eq_ok env id to expected sender none o w w' e = cc
swap-eq_ok env id to expected sender (some target) o w w' e =
    let d = ok_injective e in (target, refl, sym d.0, sym d.1)

compare_and_swap-eq_ok :
    (env : Env) (id : ℕ) (to : State) (expected : ℕ) (sender : Option String) (o : Order)
    (w w' : World)
    → compare_and_swap env id to expected sender w ≡ ok o w'
    → Swapped env id to expected sender
        (find (at_version id expected) (env.other_commits w.orders))
        o
        w
        w'
unfolding compare_and_swap
compare_and_swap-eq_ok env id to expected sender o w w' e =
    swap-eq_ok env id to expected sender _ o w w' e

log_transition-eq_ok :
    (env : Env) (row : TransitionRow) (u : Unit {0}) (w w' : World)
    → log_transition env row w ≡ ok u w'
    → w' ≡ record w { transitions = row ∷ w.transitions }
unfolding log_transition
log_transition-eq_ok env row u w w' e = ground arith

-- An order has moved from `from` to `to`.
pub record Moved (env : Env) (id : ℕ) (from to : State) (expected : ℕ) (p : TransitionParams)
    (w : World) (o : Order) (w' : World) : Type 0 where
  pub target : OrderRow
  pub entry : Option ℕ
  pub hit : find (at_version id expected) (env.other_commits w.orders) ≡ some target
  pub result : o ≡ scan_order (moved env to p.sender_address target)
  pub rows :
      w'.orders
      ≡ update (at_version id expected) (moved env to p.sender_address) (env.other_commits w.orders)
  pub log : w'.transitions ≡ transition_row env id from to entry p ∷ w.transitions
  pub flags : w'.system ≡ w.system
  pub books : IsSound w → IsSound w'
  pub unposted : p.entry ≡ none → SameJournal w w' × (entry ≡ p.entry_id)

pub same_books :
    (v w : World) (os : List OrderRow) (ts : List TransitionRow) (c : Option HaltCache)
    → v ≡ record w { orders = os; transitions = ts; halt_cache = c }
    → IsSound w
    → IsSound v
same_books v w os ts c e s = subst IsSound (sym e) (record {
  cache_agrees = s.cache_agrees;
  entries_balance = s.entries_balance;
  trial_closes = s.trial_closes;
  lines_posted = s.lines_posted;
  lines_named = s.lines_named;
  accounts_known = s.accounts_known;
  units_in_range = s.units_in_range;
  ids_drawn = s.ids_drawn;
})

pub move-Moved :
    (env : Env) (id : ℕ) (from to : State) (expected : ℕ) (p : TransitionParams) (o : Order)
    (w w' : World)
    → EntryInRange p.entry
    → move env id from to expected p w ≡ ok o w'
    → (v : World) × Carried w v
      × (p.entry ≡ none → SameJournal w v)
      × Moved env id from to expected p v o w'
unfolding move
move-Moved env id from to expected p o w w' range e =
    let (entry, w1, posted, e1) = >>=-eq-ok (post_entry env p p.entry) _ e in
    let carried = post_entry-Carried env p p.entry entry w w1 range posted in
    let (updated, w2, swapped, e2) =
      >>=-eq-ok (compare_and_swap env id to expected p.sender_address) _ e1 in
    let (target, hit, result, rows) =
      compare_and_swap-eq_ok env id to expected p.sender_address updated w1 w2 swapped in
    let (u, w3, logged, e3) =
      >>=-eq-ok (log_transition env (transition_row env id from to entry p)) _ e2 in
    let log = log_transition-eq_ok env (transition_row env id from to entry p) u w2 w3 logged in
    let d = ok_injective e3 in
    let world : w' ≡ record w1 {
      orders =
          update (at_version id expected) (moved env to p.sender_address)
            (env.other_commits w1.orders);
      transitions = transition_row env id from to entry p ∷ w1.transitions;
    } =
      sym d.1
      ∙ log
      ∙ ap
          (λ (t : World). record t {
            transitions = transition_row env id from to entry p ∷ t.transitions;
          })
          rows in
    (
      w1,
      carried,
      λ h. (post_entry-unposted env p p.entry entry w w1 h posted).0,
      record {
        target = target;
        entry = entry;
        hit = hit;
        result = sym d.0 ∙ result;
        rows = ap (λ (t : World). t.orders) world;
        log = ap (λ (t : World). t.transitions) world;
        flags = ap (λ (t : World). t.system) world;
        books = same_books w' w1 _ _ _ world;
        unposted = λ h. (
          (
            ap (λ (t : World). t.entries) world,
            ap (λ (t : World). t.lines) world,
            ap (λ (t : World). t.balances) world,
          ),
          (post_entry-unposted env p p.entry entry w w1 h posted).1,
        );
      },
    )
