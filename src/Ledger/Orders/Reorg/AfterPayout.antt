-- ===== src/Ledger/Orders/Reorg/AfterPayout.antt =====
-- What HandleDepositReorg of ledger/internal/orders/reorg.go does to an order that was paid out.
use convert_usdt_from_trc.Base.{
  ℕ, ◌≡◌, refl, sym, ap, ◌∙◌, subst, true, some, List, [], ◌∷◌, All, map,
}
use Prim.Native.String.{◌++◌ as append}
use convert_usdt_from_trc.Base.Int64.{IsInt64, wrap_neg, wrap64-IsInt64}
use convert_usdt_from_trc.Base.Table.{find, exists}
use convert_usdt_from_trc.Base.Text.{String, str_eq, print_decimal}
use convert_usdt_from_trc.Ledger.Rows.{World, Env, Order, Entry, EntryRequest, entry_not_found}
use convert_usdt_from_trc.Ledger.Monad.{ok, >>=-eq-ok, ok_injective, or_raise-eq-ok}
use convert_usdt_from_trc.Ledger.Halt.{set}
use convert_usdt_from_trc.Ledger.Journal.Sound.{IsSound, written, with_entry}
use convert_usdt_from_trc.Ledger.Journal.Hash.{canonical_hash, asset_text}
use convert_usdt_from_trc.Ledger.Journal.Post.{post, get_entry_by_idempotency_key, reverses}
use convert_usdt_from_trc.Ledger.Journal.Post.Books.{post-IsSound}
use convert_usdt_from_trc.Ledger.Journal.Post.Frame.{SameOrders-eq, post-SameOrders, post-exists}
use convert_usdt_from_trc.Ledger.Journal.Post.Replay.{Records, post-Records}
use convert_usdt_from_trc.Ledger.Journal.Reverse.{reverse_entry, line_to_apply}
use convert_usdt_from_trc.Ledger.Journal.Reverse.Once.{
  reverse_entry-Reversed, reverse_entry-IsSound, reverse_entry-exists,
}
use convert_usdt_from_trc.Ledger.Orders.Transition.Steps.{Carried}
use convert_usdt_from_trc.Ledger.Orders.Transition.Outcomes.{Carried-eq, Carried-trans}
use convert_usdt_from_trc.Ledger.Orders.Reorg.{
  corridor_account_for, loss_request, halt_params, reorg_scenario_b,
}

-- The entry that a key names.
abbrev pub Names : String → Entry → World → Type 0
Names key original w = find (λ (r : Entry). str_eq r.idempotency_key key) w.entries ≡ some original

pub lookup-eq_ok :
    (key : String) (entry : Entry) (w w' : World)
    → get_entry_by_idempotency_key key w ≡ ok entry w'
    → Names key entry w × (w ≡ w')
unfolding get_entry_by_idempotency_key
lookup-eq_ok key entry w w' e =
    let h =
      or_raise-eq-ok (find (λ (r : Entry). str_eq r.idempotency_key key) w.entries) entry_not_found
        entry w w' e in
    (h.0, h.1)

-- Reverse moves no order.
pub reverse_entry-Carried :
    (env : Env) (id : ℕ) (actor reason : String) (at' : ℕ) (entry : Entry) (w w' : World)
    → IsSound w
    → reverse_entry env id actor reason at' w ≡ ok entry w'
    → Carried w w'
reverse_entry-Carried env id actor reason at' entry w w' s e =
    let r = (reverse_entry-Reversed env id actor reason at' entry w w' s e).1 in
    (
      SameOrders-eq (written env r.row.id (map line_to_apply r.negated) (with_entry r.row w)) w'
          (sym r.tables),
      λ t. reverse_entry-IsSound env id actor reason at' entry w w' t e,
    )

loss_in_range :
    (now : ℕ) (order : Order) (actor : String)
    → IsInt64 order.amount_out.units
    → All (λ l. IsInt64 l.amount.units) (loss_request now order actor).lines
unfolding wrap_neg
loss_in_range now order actor h = (h, (wrap64-IsInt64 _, tt))

-- A reorganisation that strikes after the payout halts the ledger, moves no order
-- and keeps the books sound.
abbrev pub Halted : World → World → Type 0
Halted w w' =
    (w'.system.halted ≡ true)
    × (w'.orders ≡ w.orders)
    × (w'.transitions ≡ w.transitions)
    × IsSound w'

set-Halted :
    (env : Env) (p : _) (u : Unit {0}) (w w' : World)
    → set env p w ≡ ok u w'
    → IsSound w
    → Halted w w'
unfolding set
set-Halted env p u w w' e s =
    let world = (ok_injective e).1 in
    (
      ap (λ (t : World). t.system.halted) (sym world),
      ap (λ (t : World). t.orders) (sym world),
      ap (λ (t : World). t.transitions) (sym world),
      subst IsSound world (record {
        cache_agrees = s.cache_agrees;
        entries_balance = s.entries_balance;
        trial_closes = s.trial_closes;
        lines_posted = s.lines_posted;
        lines_named = s.lines_named;
        accounts_known = s.accounts_known;
        units_in_range = s.units_in_range;
        ids_drawn = s.ids_drawn;
      }),
    )

-- After the call, the entry that the key named before it has a reversal.
abbrev pub TakenBack : String → World → World → Type 0
TakenBack key w w' =
    (original : Entry) × Names key original w × (exists (reverses original.id) w'.entries ≡ true)

-- The loss of an order is booked: the key of its loss names an entry with the hash of a request that
-- takes what was paid out from the corridor account to the account of the losses.
abbrev pub LossBooked : Env → Order → World → Type 0
LossBooked env order w =
    (req : EntryRequest) × ((id : ℕ) × Records w req (canonical_hash env req) id)
    × (req.idempotency_key ≡ append "ledger:reorg_loss:" (print_decimal order.id))
    × (req.lines
        ≡ record { account_code = "expense:loss:reorg"; amount = order.amount_out }
          ∷ record {
            account_code = append "position:corridor:" (asset_text order.amount_out.asset);
            amount = record {
              asset = order.amount_out.asset;
              units = wrap_neg order.amount_out.units;
            };
          }
          ∷ [])

Records-same_entries :
    (req : EntryRequest) (hash : List ℕ) (id : ℕ) (w w' : World)
    → w'.entries ≡ w.entries
    → Records w req hash id
    → Records w' req hash id
Records-same_entries req hash id w w' same (row, found, same_hash, same_id) =
    (row, rw same found, same_hash, same_id)

set-same_entries :
    (env : Env) (p : _) (u : Unit {0}) (w w' : World)
    → set env p w ≡ ok u w'
    → w'.entries ≡ w.entries
unfolding set
set-same_entries env p u w w' e = ap (λ (t : World). t.entries) (sym (ok_injective e).1)

pub reorg_scenario_b-Halted :
    (env : Env) (order : Order) (key actor : String) (o : Order) (w w' : World)
    → IsInt64 order.amount_out.units
    → IsSound w
    → reorg_scenario_b env order key actor w ≡ ok o w'
    → (o ≡ order) × Halted w w' × TakenBack key w w' × LossBooked env order w'
unfolding reorg_scenario_b corridor_account_for
reorg_scenario_b-Halted env order key actor o w w' range s e =
    let (original, w1, found, e1) = >>=-eq-ok (get_entry_by_idempotency_key key) _ e in
    let (named, same) = lookup-eq_ok key original w w1 found in
    let step1 = Carried-eq w w1 same in
    let (reversal, w2, reversed, e2) =
      >>=-eq-ok (reverse_entry env original.id actor _ env.clock) _ e1 in
    let step2 =
      reverse_entry-Carried env original.id actor _ env.clock reversal w1 w2 (step1.1 s) reversed in
    let (loss, w3, posted, e3) = >>=-eq-ok (post env (loss_request env.clock order actor)) _ e2 in
    let in_range = loss_in_range env.clock order actor range in
    let step3 : Carried w2 w3 = (
      post-SameOrders env (loss_request env.clock order actor) loss w2 w3 in_range posted,
      λ t. post-IsSound env (loss_request env.clock order actor) in_range t posted,
    ) in
    let all = Carried-trans w w1 w3 step1 (Carried-trans w1 w2 w3 step2 step3) in
    let (u, w4, halted, e4) = >>=-eq-ok (set env (halt_params order key actor)) _ e3 in
    let done = ok_injective e4 in
    let h = set-Halted env (halt_params order key actor) u w3 w4 halted (all.1 s) in
    let last : w'.entries ≡ w3.entries =
      ap (λ (t : World). t.entries) (sym done.1)
      ∙ set-same_entries env (halt_params order key actor) u w3 w4 halted in
    let taken =
      post-exists env (loss_request env.clock order actor) loss (reverses original.id) w2 w3
        in_range posted
        (reverse_entry-exists env original.id actor _ env.clock reversal w1 w2 (step1.1 s)
          reversed) in
    let booked = (post-Records env (loss_request env.clock order actor) loss w2 w3 posted).0 in
    (
      sym done.0,
      subst (Halted w) done.1 (h.0, h.1 ∙ all.0.0, h.2 ∙ all.0.1, h.3),
      (original, named, rw last taken),
      (
        loss_request env.clock order actor,
        (
          loss.id,
          Records-same_entries (loss_request env.clock order actor)
              (canonical_hash env (loss_request env.clock order actor)) loss.id w3 w' last booked,
        ),
        refl,
        refl,
      ),
    )
