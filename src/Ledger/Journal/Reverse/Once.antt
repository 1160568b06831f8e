-- ===== src/Ledger/Journal/Reverse/Once.antt =====
-- Reversing an entry (ledger/internal/journal/reversal.go): the books stay sound, the reversal takes
-- back exactly what the entry moved, and it happens at most once.
use convert_usdt_from_trc.Base.{
  ℕ, ◌<◌, ◌≡◌, sym, ap, ◌∙◌, Bool, true, false, ◌&&◌, some, List, [], ◌∷◌, map, ◌==◌, arith, All,
  subst, is_some, ==_iff,
}
use convert_usdt_from_trc.Base.Int.{ℤ, pos, ◌+ℤ◌, neg}
use convert_usdt_from_trc.Base.Int64.{IsInt64}
use convert_usdt_from_trc.Base.Table.{find, exists, sum_where, sum_where-append, sum_where-map}
use convert_usdt_from_trc.Base.Text.{String, str_eq}
use convert_usdt_from_trc.Money.{Asset, asset_eq}
use convert_usdt_from_trc.Ledger.Rows.{
  World, Env, Entry, EntryRequest, LineRow, already_reversed, cannot_reverse_a_reversal, created,
}
use convert_usdt_from_trc.Ledger.Monad.{ok, err, ◌>>=◌, >>=-eq-ok, ok_injective, pure}
use convert_usdt_from_trc.Ledger.Journal.Hash.{canonical_hash}
use convert_usdt_from_trc.Ledger.Journal.Validate.{validate_idempotency_key}
use convert_usdt_from_trc.Ledger.Journal.Validate.Balanced.{validate_idempotency_key-eq_ok}
use convert_usdt_from_trc.Ledger.Journal.Post.{
  LineToApply, line_row, get_entry_by_id, load_lines, stored_lines, reverses, entry_row,
  insert_lines_and_apply_balances,
}
use convert_usdt_from_trc.Ledger.Journal.Balance.{computed_units, cached_units}
use convert_usdt_from_trc.Ledger.Journal.Reverse.{
  NegatedLine, negate_lines, line_to_apply, reversal_request, insert_reversal, reverse_lines,
  reverse_entry,
}
use convert_usdt_from_trc.Ledger.Journal.Reverse.Negation.{
  Negates, negate_lines-eq_ok, stored_lines-range, stored_lines-known, stored_lines-sum,
}
use convert_usdt_from_trc.Ledger.Journal.Sound.{
  IsSound, is_known, written, insert_lines-eq, written-IsSound, with_entry, with_entry-IsSound,
  posted_first,
}

-- What a successful reversal of `original` did: one new row that names it, and its lines negated.
pub record Reversed (env : Env) (original : Entry) (w : World) (entry : Entry) (w' : World)
    : Type 0 where
  pub row : Entry
  pub negated : List NegatedLine
  pub names : row.reversal_of ≡ some original.id
  pub drawn : row.id ≡ w.next_entry
  pub opposite : Negates (stored_lines original.id w) negated
  pub tables : w' ≡ written env row.id (map line_to_apply negated) (with_entry row w)
  pub result : entry.id ≡ row.id

insert_reversal-eq_ok :
    (env : Env) (req : EntryRequest) (hash : List ℕ) (id : ℕ) (row : Entry) (w v : World)
    → insert_reversal env req hash id w ≡ ok row v
    → (row ≡ entry_row env w.next_entry req hash (some id)) × (v ≡ with_entry row w)
unfolding insert_reversal
insert_reversal-eq_ok env req hash id row w v e = ground arith

load_lines-eq_ok :
    (id : ℕ) {ls : _} {w v : World} → load_lines id w ≡ ok ls v → (stored_lines id w ≡ ls) × (w ≡ v)
unfolding load_lines
load_lines-eq_ok id e = ok_injective e

written_reversal :
    (env : Env) (row : Entry) (ls : List LineToApply) (entry : Entry) (v w' : World)
    → (insert_lines_and_apply_balances env row.id ls >>= λ posted.
          pure (record row { lines = posted; outcome = created }))
        v
      ≡ ok entry w'
    → (w' ≡ written env row.id ls v) × (entry.id ≡ row.id)
written_reversal env row ls entry v w' e =
    let d = ok_injective (rw (insert_lines-eq env row.id ls v) at e) in
    (sym d.1, sym (ap (λ (t : Entry). t.id) d.0))

reverse_lines-Reversed :
    (env : Env) (original : Entry) (actor reason : String) (at' : ℕ) (entry : Entry) (w w' : World)
    → IsSound w
    → reverse_lines env original actor reason at' w ≡ ok entry w'
    → Reversed env original w entry w'
unfolding reverse_lines
reverse_lines-Reversed env original actor reason at' entry w w' s e =
    let (pls, w1, loaded, e1) = >>=-eq-ok (load_lines original.id) _ e in
    let (stored, same1) = load_lines-eq_ok original.id loaded in
    let (ns, w2, negation, e2) = >>=-eq-ok (negate_lines pls) _ e1 in
    let range = stored_lines-range original.id w s.accounts_known s.units_in_range in
    let (same2, opposite) =
      negate_lines-eq_ok pls (subst (λ t. All (λ l. IsInt64 l.amount.units) t) stored range)
        negation in
    let req = reversal_request original ns actor reason at' in
    let (u, w3, key, e3) = >>=-eq-ok (validate_idempotency_key req.idempotency_key) _ e2 in
    let same3 = validate_idempotency_key-eq_ok req.idempotency_key key in
    let (row, w4, ins, e4) =
      >>=-eq-ok (insert_reversal env req (canonical_hash env req) original.id) _ e3 in
    let (row_eq, world) =
      insert_reversal-eq_ok env req (canonical_hash env req) original.id row w3 w4 ins in
    let (tables, result) = written_reversal env row (map line_to_apply ns) entry w4 w' e4 in
    let same = same1 ∙ same2 ∙ same3 in
    record {
      row = row;
      negated = ns;
      names = ap (λ (t : Entry). t.reversal_of) row_eq;
      drawn = ap (λ (t : Entry). t.id) row_eq ∙ ap (λ (t : World). t.next_entry) (sym same);
      opposite = subst (λ t. Negates t ns) (sym stored) opposite;
      tables =
          tables
          ∙ ap (written env row.id (map line_to_apply ns)) (world ∙ ap (with_entry row) (sym same));
      result = result;
    }

-- The guards of Reverse, up to the lines of the entry.
reverse_entry-eq_ok :
    (env : Env) (id : ℕ) (actor reason : String) (at' : ℕ) (entry : Entry) (w w' : World)
    → reverse_entry env id actor reason at' w ≡ ok entry w'
    → (original : Entry) × (find (λ (e : Entry). e.id == id) w.entries ≡ some original)
      × (is_some original.reversal_of ≡ false)
      × (exists (reverses id) w.entries ≡ false)
      × (reverse_lines env original actor reason at' w ≡ ok entry w')
unfolding reverse_entry get_entry_by_id
reverse_entry-eq_ok env id actor reason at' entry w w' e = ground arith

find_id :
    (id n : ℕ) (es : List Entry) (o : Entry)
    → All (λ e. e.id < n) es
    → find (λ (e : Entry). e.id == id) es ≡ some o
    → (o.id ≡ id) × (id < n)
find_id id n [] o h f = cc
find_id id n (e ∷ es) o h f = ground (arith, find_id id n es o h.1)

-- What the reversal of an entry adds to a sum over the lines is the opposite of what the entry added.
batch-negated :
    (p : ℕ → Asset → Bool) (id : ℕ) (w : World) (ns : List NegatedLine)
    → IsSound w
    → Negates (stored_lines id w) ns
    → sum_where (λ (l : LineToApply). p l.account_id l.asset) (λ l. l.units) (map line_to_apply ns)
      ≡ neg (
          sum_where
            (λ (l : LineRow). l.entry_id == id && p l.account_id l.asset)
            (λ l. l.units)
            w.lines)
batch-negated p id w ns s opposite =
    sum_where-map (λ (l : LineToApply). p l.account_id l.asset) (λ l. l.units) line_to_apply ns
    ∙ opposite.0 p
    ∙ ap neg (stored_lines-sum id w s.accounts_known s.units_in_range p)

All-map :
    {A B : Type 0} (P : B → Type 0) (f : A → B) (xs : List A)
    → All (λ x. P (f x)) xs
    → All P (map f xs)
All-map P f [] h = tt
All-map P f (x ∷ xs) h = (h.0, All-map P f xs h.1)

neg_of_zero : (u : ℤ) → u ≡ pos 0 → neg u ≡ pos 0
unfolding neg
neg_of_zero u h = rw h

Reversed-IsSound :
    (env : Env) (original entry : Entry) (w w' : World)
    → IsSound w
    → Reversed env original w entry w'
    → IsSound w'
Reversed-IsSound env original entry w w' s r = subst IsSound (sym r.tables) (
    written-IsSound env r.row.id (map line_to_apply r.negated) (with_entry r.row w)
      (with_entry-IsSound r.row w r.drawn s) (omega (arith, r.drawn)) (posted_first r.row w.entries)
      (λ a.
        batch-negated (λ k b. asset_eq b a) original.id w r.negated s r.opposite
        ∙ neg_of_zero _ (s.entries_balance original.id a))
      (All-map (λ (l : LineToApply). is_known w.accounts l.account_id ≡ true) line_to_apply
        r.negated
        (r.opposite.2 w.accounts
          (stored_lines-known original.id w s.accounts_known s.units_in_range)))
      (All-map (λ (l : LineToApply). IsInt64 l.units) line_to_apply r.negated r.opposite.1))

pub reverse_entry-Reversed :
    (env : Env) (id : ℕ) (actor reason : String) (at' : ℕ) (entry : Entry) (w w' : World)
    → IsSound w
    → reverse_entry env id actor reason at' w ≡ ok entry w'
    → (original : Entry) × Reversed env original w entry w'
      × (original.id ≡ id)
      × (id < w.next_entry)
      × (find (λ (e : Entry). e.id == id) w.entries ≡ some original)
      × (is_some original.reversal_of ≡ false)
reverse_entry-Reversed env id actor reason at' entry w w' s e =
    let (original, found, fresh, once, lines) =
      reverse_entry-eq_ok env id actor reason at' entry w w' e in
    let here = find_id id w.next_entry w.entries original s.ids_drawn found in
    (
      original,
      reverse_lines-Reversed env original actor reason at' entry w w' s lines,
      here.0,
      here.1,
      found,
      fresh,
    )

-- Reverse keeps the books sound.
pub reverse_entry-IsSound :
    (env : Env) (id : ℕ) (actor reason : String) (at' : ℕ) (entry : Entry) (w w' : World)
    → IsSound w
    → reverse_entry env id actor reason at' w ≡ ok entry w'
    → IsSound w'
reverse_entry-IsSound env id actor reason at' entry w w' s e =
    let r = reverse_entry-Reversed env id actor reason at' entry w w' s e in
    Reversed-IsSound env r.0 entry w w' s r.1

-- The units that one entry carries on one account.
abbrev pub entry_account_units : ℕ → ℕ → List LineRow → ℤ
entry_account_units e account =
    sum_where (λ l. l.entry_id == e && l.account_id == account) (λ l. l.units)

-- Reverse takes back on every account exactly what the entry had moved there: the cached balance
-- falls by the sum of the entry's lines on the account.
pub cached-reverse_entry :
    (env : Env) (id : ℕ) (actor reason : String) (at' : ℕ) (entry : Entry) (w w' : World)
    → IsSound w
    → reverse_entry env id actor reason at' w ≡ ok entry w'
    → (account : ℕ)
    → cached_units account w'.balances
      ≡ cached_units account w.balances +ℤ neg (entry_account_units id account w.lines)
cached-reverse_entry env id actor reason at' entry w w' s e account =
    let (original, r, same_id, drawn, found, fresh) =
      reverse_entry-Reversed env id actor reason at' entry w w' s e in
    let batch = map line_to_apply r.negated in
    (Reversed-IsSound env original entry w w' s r).cache_agrees account
    ∙ ap (λ (t : World). computed_units account t.lines) r.tables
    ∙ sum_where-append (λ (l : LineRow). l.account_id == account) (λ l. l.units) w.lines
        (map (line_row r.row.id) batch)
    ∙ ap (λ t. computed_units account w.lines +ℤ t)
        (sum_where-map (λ (l : LineRow). l.account_id == account) (λ l. l.units) (line_row r.row.id)
            batch
          ∙ batch-negated (λ k b. k == account) original.id w r.negated s r.opposite
          ∙ ap (λ t. neg (entry_account_units t account w.lines)) same_id)
    ∙ ap (λ t. t +ℤ neg (entry_account_units id account w.lines)) (sym (s.cache_agrees account))

module _ (env : Env) (id : ℕ) (actor reason : String) (at' : ℕ) (o : Entry) (w : World)
    (named : str_eq actor "" ≡ false) (given : str_eq reason "" ≡ false)
    (dated : (at' == 0) ≡ false) (found : find (λ (e : Entry). e.id == id) w.entries ≡ some o) where
  already :
      is_some o.reversal_of ≡ false
      → exists (reverses id) w.entries ≡ true
      → reverse_entry env id actor reason at' w ≡ err already_reversed w
  unfolding reverse_entry get_entry_by_id
  already fresh reversed = rw (named, given, dated, found, fresh, reversed)

  itself :
      is_some o.reversal_of ≡ true
      → reverse_entry env id actor reason at' w ≡ err cannot_reverse_a_reversal w
  unfolding reverse_entry get_entry_by_id
  itself reversal = rw (named, given, dated, found, reversal)

-- The entries after a reversal: the old ones are found as before, and the new one by its id.
found_behind :
    (row o : Entry) (id n : ℕ) (es : List Entry)
    → row.id ≡ n
    → id < n
    → find (λ (e : Entry). e.id == id) es ≡ some o
    → find (λ (e : Entry). e.id == id) (row ∷ es) ≡ some o
found_behind row o id n es drawn lt h = ground arith

found_first :
    (row : Entry) (es : List Entry) → find (λ (e : Entry). e.id == row.id) (row ∷ es) ≡ some row
found_first row es = ground (arith, ==_iff row.id row.id)

reverses_first :
    (row : Entry) (id : ℕ) (es : List Entry)
    → row.reversal_of ≡ some id
    → (exists (reverses id) (row ∷ es) ≡ true) × (is_some row.reversal_of ≡ true)
reverses_first row id es h = (rw h (ground (arith, ==_iff id id)), rw h)

-- After a successful Reverse the entry has a reversal.
pub reverse_entry-exists :
    (env : Env) (id : ℕ) (actor reason : String) (at' : ℕ) (entry : Entry) (w w' : World)
    → IsSound w
    → reverse_entry env id actor reason at' w ≡ ok entry w'
    → exists (reverses id) w'.entries ≡ true
reverse_entry-exists env id actor reason at' entry w w' s e =
    let (original, r, same_id, drawn, found, fresh) =
      reverse_entry-Reversed env id actor reason at' entry w w' s e in
    rw (ap (λ (t : World). t.entries) r.tables)
      (reverses_first r.row id w.entries (r.names ∙ ap (λ t. some t) same_id)).0

-- An entry is reversed at most once, and a reversal is never reversed: after a successful Reverse,
-- every further one of the same entry gets ErrAlreadyReversed and every one of the reversal itself
-- ErrCannotReverseAReversal, with the tables unchanged.
pub reverse_entry_once :
    (env env' : Env) (id : ℕ) (actor actor' reason reason' : String) (at' at'' : ℕ) (entry : Entry)
    (w w' : World)
    → IsSound w
    → reverse_entry env id actor reason at' w ≡ ok entry w'
    → str_eq actor' "" ≡ false
    → str_eq reason' "" ≡ false
    → (at'' == 0) ≡ false
    → (reverse_entry env' id actor' reason' at'' w' ≡ err already_reversed w')
      × (reverse_entry env' entry.id actor' reason' at'' w' ≡ err cannot_reverse_a_reversal w')
reverse_entry_once env env' id actor actor' reason reason' at' at'' entry w w' s e ha hr ht =
    let (original, r, same_id, drawn, found, fresh) =
      reverse_entry-Reversed env id actor reason at' entry w w' s e in
    let entries_eq : w'.entries ≡ r.row ∷ w.entries = ap (λ (t : World). t.entries) r.tables in
    let first = reverses_first r.row id w.entries (r.names ∙ ap (λ t. some t) same_id) in
    (
      already env' id actor' reason' at'' original w' ha hr ht
          (rw entries_eq
            (found_behind r.row original id w.next_entry w.entries r.drawn drawn found))
          fresh (rw entries_eq first.0),
      rw r.result (
          itself env' r.row.id actor' reason' at'' r.row w' ha hr ht
            (rw entries_eq (found_first r.row w.entries)) first.1),
    )
