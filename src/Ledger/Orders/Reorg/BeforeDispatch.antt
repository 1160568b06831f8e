-- ===== src/Ledger/Orders/Reorg/BeforeDispatch.antt =====
-- What HandleDepositReorg of ledger/internal/orders/reorg.go does to a funded order, and when its report is
-- delivered again.
use convert_usdt_from_trc.Base.{
  ℕ, ◌+◌, ◌≡◌, refl, sym, ap, ◌∙◌, subst, Bool, true, ◌&&◌, not, Option, none, some, List, [], ◌∷◌,
  ◌==◌, is_some, inl, inr, arith, ==_iff,
}
use convert_usdt_from_trc.Base.Int.{neg, ◌+ℤ◌}
use convert_usdt_from_trc.Base.Table.{find, exists, update}
use convert_usdt_from_trc.Base.Text.{String}
use convert_usdt_from_trc.Ledger.Rows.{
  World, Env, Order, OrderRow, TransitionRow, Entry, quoted, entry_not_found,
}
use convert_usdt_from_trc.Ledger.Monad.{ok, or_raise, >>=-eq-ok, ok_injective, after_check}
use convert_usdt_from_trc.Ledger.Journal.Sound.{IsSound}
use convert_usdt_from_trc.Ledger.Journal.Balance.{cached_units}
use convert_usdt_from_trc.Ledger.Journal.Post.{
  get_entry_by_idempotency_key, reversal_of, reverses, found_reversal, with_lines, load_lines,
}
use convert_usdt_from_trc.Ledger.Journal.Reverse.{reverse_entry}
use convert_usdt_from_trc.Ledger.Journal.Reverse.Once.{
  reverse_entry-exists, cached-reverse_entry, entry_account_units,
}
use convert_usdt_from_trc.Ledger.Orders.{scan_order}
use convert_usdt_from_trc.Ledger.Orders.Transition.{TransitionParams, transition, at_version, moved}
use convert_usdt_from_trc.Ledger.Orders.Transition.Steps.{SameJournal, EntryInRange}
use convert_usdt_from_trc.Ledger.Orders.Transition.Outcomes.{transition-eq_ok}
use convert_usdt_from_trc.Ledger.Orders.Safety.{transition-IsSound, find-true, some_eq}
use convert_usdt_from_trc.Ledger.Orders.Reorg.{
  known_entry, reorg_scenario_a, reorg_retry_from_quoted,
}
use convert_usdt_from_trc.Ledger.Orders.Reorg.AfterPayout.{
  Names, lookup-eq_ok, reverse_entry-Carried, TakenBack,
}

known_entry-eq_ok :
    (found : Option Entry) (entry : Entry) (w w' : World)
    → known_entry (or_raise found entry_not_found w) ≡ ok entry w'
    → (found ≡ some entry) × (w ≡ w')
known_entry-eq_ok none entry w w' e = cc
known_entry-eq_ok (some r) entry w w' e =
    let d = ok_injective e in (ap (λ (t : Entry). some t) d.0, d.1)

found_reversal-eq_ok :
    (found r : Option Entry) (w w' : World)
    → found_reversal found w ≡ ok r w'
    → (is_some found ≡ is_some r) × (w ≡ w')
unfolding with_lines load_lines
found_reversal-eq_ok none r w w' e = let d = ok_injective e in (ap is_some d.0, d.1)
found_reversal-eq_ok (some x) r w w' e = let d = ok_injective e in (ap is_some d.0, d.1)

find-some : (q : Entry → Bool) (es : List Entry) → is_some (find q es) ≡ true → exists q es ≡ true
find-some q [] h = cc
find-some q (e ∷ es) h = ground (arith, find-some q es)

reversal_of-eq_ok :
    (id : ℕ) (r : Option Entry) (w w' : World)
    → reversal_of id w ≡ ok r w'
    → (is_some r ≡ true → exists (reverses id) w.entries ≡ true) × (w ≡ w')
unfolding reversal_of
reversal_of-eq_ok id r w w' e =
    let (there, same) = found_reversal-eq_ok _ r w w' e in
    (λ h. find-some (reverses id) w.entries (there ∙ h), same)

known-eq_ok :
    (key : String) (entry : Entry) (w w' : World)
    → known_entry (get_entry_by_idempotency_key key w) ≡ ok entry w'
    → Names key entry w × (w ≡ w')
unfolding get_entry_by_idempotency_key
known-eq_ok key entry w w' e = known_entry-eq_ok _ entry w w' e

pub retry-eq_ok :
    (order : Order) (key : String) (o : Order) (w w' : World)
    → reorg_retry_from_quoted order key w ≡ ok o w'
    → (o ≡ order) × (w ≡ w') × TakenBack key w w'
unfolding reorg_retry_from_quoted
retry-eq_ok order key o w w' e =
    let (original, w1, hit, e1) =
      >>=-eq-ok (λ t. known_entry (get_entry_by_idempotency_key key t)) _ e in
    let (named, first) = known-eq_ok key original w w1 hit in
    let (reversal, w2, read, e2) = >>=-eq-ok (reversal_of original.id) _ e1 in
    let (there, same) = reversal_of-eq_ok original.id reversal w1 w2 read in
    let e3 = after_check (not (is_some reversal)) _ _ e2 in
    let d = ok_injective e3.1 in
    (
      sym d.0,
      first ∙ same ∙ d.1,
      (
        original,
        named,
        subst (λ (t : World). exists (reverses original.id) t.entries ≡ true) (same ∙ d.1)
            (there (ground (arith, e3.0))),
      ),
    )

-- The deposit of a funded order is taken back: the entry that the key named has a reversal, and the
-- cached balance of every account has fallen by what that entry moved there.
abbrev pub DepositReversed : String → World → World → Type 0
DepositReversed key w w' =
    (original : Entry) × Names key original w
    × (exists (reverses original.id) w'.entries ≡ true)
    × ((account : ℕ)
        → cached_units account w'.balances
          ≡ cached_units account w.balances
            +ℤ neg (entry_account_units original.id account w.lines))

-- The order is back at quoted, at the next version, in its row and in the log.
abbrev pub BackToQuoted : Env → OrderRow → Order → World → World → Type 0
BackToQuoted env row o w w' =
    (o.state ≡ quoted)
    × (o.id ≡ row.id)
    × (o.version ≡ row.version + 1)
    × (w'.orders
        ≡ update (λ (r : OrderRow). r.id == row.id && r.version == row.version)
            (λ (r : OrderRow). record r {
              state = quoted;
              version = r.version + 1;
              updated_at = env.now;
            })
            (env.other_commits w.orders))
    × ((t : TransitionRow) × (w'.transitions ≡ t ∷ w.transitions)
        × (t.order_id ≡ row.id)
        × (t.from_state ≡ row.state)
        × (t.to_state ≡ quoted))

order_moved :
    (env : Env) (row : OrderRow) (p : TransitionParams) (o : Order) (w w' : World)
    → find (λ (r : OrderRow). r.id == row.id) w.orders ≡ some row
    → p.entry ≡ none
    → p.sender_address ≡ none
    → transition env row.id quoted row.version p w ≡ ok o w'
    → BackToQuoted env row o w w' × SameJournal w w'
unfolding scan_order
order_moved env row p o w w' here unposted unsent e =
    let range : EntryInRange p.entry = rw unposted tt in
    let (row', found, version, how) =
      transition-eq_ok env row.id quoted row.version p o w w' range e in
    let same : row' ≡ row = some_eq row' row (sym found ∙ here) in
    elim how [
      | inl l ↦
          let hit =
            find-true (at_version row.id row.version) (env.other_commits w.orders) l.moved.target
              l.moved.hit in
          (
            (
              ap (λ (t : Order). t.state) l.moved.result,
              ground (
                arith,
                ap (λ (t : Order). t.id) l.moved.result,
                hit,
                ==_iff l.moved.target.id row.id,
              ),
              ground (
                arith,
                ap (λ (t : Order). t.version) l.moved.result,
                hit,
                ==_iff l.moved.target.version row.version,
              ),
              l.moved.rows
                  ∙ ap
                      (λ a.
                        update (at_version row.id row.version) (moved env quoted a)
                          (env.other_commits w.orders))
                      unsent,
              (_, l.moved.log, refl, ap (λ (r : OrderRow). r.state) same, refl),
            ),
            (l.moved.unposted unposted).0,
          )
      | inr (req, given, r) ↦ absurd (let bad = sym unposted ∙ given in cc)
    ]

pub reorg_scenario_a-quoted :
    (env : Env) (row : OrderRow) (key actor : String) (o : Order) (w w' : World)
    → find (λ (r : OrderRow). r.id == row.id) w.orders ≡ some row
    → IsSound w
    → reorg_scenario_a env (scan_order row) key actor w ≡ ok o w'
    → DepositReversed key w w' × BackToQuoted env row o w w' × IsSound w'
unfolding reorg_scenario_a scan_order
reorg_scenario_a-quoted env row key actor o w w' here s e =
    let (original, w1, found, e1) = >>=-eq-ok (get_entry_by_idempotency_key key) _ e in
    let (named, same) = lookup-eq_ok key original w w1 found in
    let (reversal, w2, reversed, e2) =
      >>=-eq-ok (reverse_entry env original.id actor _ env.clock) _ e1 in
    let reversed' =
      subst
        (λ (t : World).
          reverse_entry env original.id actor "deposit reorged out before dispatch" env.clock t
          ≡ ok reversal w2)
        (sym same) reversed in
    let carried =
      reverse_entry-Carried env original.id actor _ env.clock reversal w w2 s reversed' in
    let ((state, id, version, rows, log), journal) =
      order_moved env row _ o w2 w' (rw carried.0.0 here) refl refl e2 in
    (
      (
        original,
        named,
        rw journal.0
            (reverse_entry-exists env original.id actor _ env.clock reversal w w2 s reversed'),
        λ account.
            ap (cached_units account) journal.2
            ∙ cached-reverse_entry env original.id actor _ env.clock reversal w w2 s reversed'
                account,
      ),
      (
        state,
        id,
        version,
        rw (sym carried.0.0) rows,
        (log.0, log.1 ∙ ap (λ ts. log.0 ∷ ts) carried.0.1, log.2, log.3, log.4),
      ),
      transition-IsSound env row.id quoted row.version _ o w2 w' tt e2 (carried.1 s),
    )
