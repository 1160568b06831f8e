-- ===== src/Ledger/Journal/Sound.antt =====
-- The books are sound: the balance cache agrees with the lines, and every entry and the whole
-- ledger sum to zero in every asset. What ledger/internal/journal/post.go writes keeps them so.
use convert_usdt_from_trc.Base.{
  ℕ, ◌+◌, ◌<◌, ◌≡◌, refl, sym, ap, ◌∙◌, Bool, true, false, ◌&&◌, List, [], ◌∷◌, ◌++◌, map, ◌==◌,
  if◌then◌else◌, arith, All, All-imp, All-map, ==_iff,
}
use convert_usdt_from_trc.Base.Int.{ℤ, pos, ◌+ℤ◌, zero_+ℤ, +ℤ_assoc, +ℤ_comm, +ℤ_zero}
use convert_usdt_from_trc.Base.Int64.{IsInt64}
use convert_usdt_from_trc.Base.Table.{
  exists, sum_where, order_by, sum_where-append, sum_where-order_by, sum_where-map,
  sum_where-const_and,
}
use convert_usdt_from_trc.Money.{Asset, asset_eq}
use convert_usdt_from_trc.Ledger.Rows.{World, Env, Account, Entry, LineRow, BalanceRow}
use convert_usdt_from_trc.Ledger.Monad.{ok}
use convert_usdt_from_trc.Ledger.Journal.Post.{
  LineToApply, line_row, posted_line, apply_balance, apply_balances, account_key,
  insert_lines_and_apply_balances,
}
use convert_usdt_from_trc.Ledger.Journal.Balance.{cached_units, computed_units, asset_units}

-- The signed units that one entry carries in one asset.
abbrev pub entry_units : ℕ → Asset → List LineRow → ℤ
entry_units e a = sum_where (λ l. l.entry_id == e && asset_eq l.asset a) (λ l. l.units)

abbrev pub is_known : List Account → ℕ → Bool
is_known accounts id = exists (λ a. a.id == id) accounts

-- Whether some row of journal_entries has this id.
abbrev pub is_posted : List Entry → ℕ → Bool
is_posted entries id = exists (λ (e : Entry). e.id == id) entries

pub record IsSound (w : World) : Type 0 where
  pub cache_agrees : (id : ℕ) → cached_units id w.balances ≡ computed_units id w.lines
  pub entries_balance : (e : ℕ) (a : Asset) → entry_units e a w.lines ≡ pos 0
  pub trial_closes : (a : Asset) → asset_units a w.lines ≡ pos 0
  pub lines_posted : All (λ l. l.entry_id < w.next_entry) w.lines
  pub lines_named : All (λ l. is_posted w.entries l.entry_id ≡ true) w.lines
  pub accounts_known : All (λ l. is_known w.accounts l.account_id ≡ true) w.lines
  pub units_in_range : All (λ l. IsInt64 l.units) w.lines
  pub ids_drawn : All (λ e. e.id < w.next_entry) w.entries

-- The units that a batch of lines moves, on one account and in one asset.
abbrev pub batch_units : ℕ → List LineToApply → ℤ
batch_units id = sum_where (λ l. l.account_id == id) (λ l. l.units)

abbrev pub batch_asset_units : Asset → List LineToApply → ℤ
batch_asset_units a = sum_where (λ l. asset_eq l.asset a) (λ l. l.units)

cached-apply_balance :
    (id now e : ℕ) (l : LineToApply) (bs : List BalanceRow)
    → cached_units id (apply_balance now e l bs)
      ≡ (if l.account_id == id then l.units else pos 0) +ℤ cached_units id bs
unfolding cached_units apply_balance
cached-apply_balance id now e l [] = ground (arith, +ℤ_zero l.units, +ℤ_zero (pos 0))
cached-apply_balance id now e l (b ∷ bs) = ground (
  arith,
  cached-apply_balance id now e l bs,
  zero_+ℤ b.balance_units,
  zero_+ℤ (cached_units id bs),
  +ℤ_comm b.balance_units l.units,
)

cached-apply_balances :
    (id now e : ℕ) (ls : List LineToApply) (bs : List BalanceRow)
    → cached_units id (apply_balances now e ls bs) ≡ batch_units id ls +ℤ cached_units id bs
unfolding apply_balances
cached-apply_balances id now e [] bs = sym (zero_+ℤ (cached_units id bs))
cached-apply_balances id now e (l ∷ ls) bs =
    cached-apply_balances id now e ls (apply_balance now e l bs)
    ∙ ap (λ t. batch_units id ls +ℤ t) (cached-apply_balance id now e l bs)
    ∙ sym (
        +ℤ_assoc (batch_units id ls) (if l.account_id == id then l.units else pos 0)
          (cached_units id bs))
    ∙ ap (λ t. t +ℤ cached_units id bs)
        (+ℤ_comm (batch_units id ls) (if l.account_id == id then l.units else pos 0))

All-append : {A : Type 0} (P : A → Type 0) (xs ys : List A) → All P xs → All P ys → All P (xs ++ ys)
All-append P [] ys h k = k
All-append P (x ∷ xs) ys h k = (h.0, All-append P xs ys h.1 k)

All-of : {A : Type 0} (P : A → Type 0) (xs : List A) → ((x : A) → P x) → All P xs
All-of P [] f = tt
All-of P (x ∷ xs) f = (f x, All-of P xs f)

-- The tables after a batch is written under the entry `e`, which some statement has inserted.
abbrev pub written : Env → ℕ → List LineToApply → World → World
written env e ls w = record w {
  lines = w.lines ++ map (line_row e) ls;
  balances = apply_balances env.now e (order_by account_key ls) w.balances;
}

pub insert_lines-eq :
    (env : Env) (e : ℕ) (ls : List LineToApply) (w : World)
    → insert_lines_and_apply_balances env e ls w ≡ ok (map posted_line ls) (written env e ls w)
unfolding insert_lines_and_apply_balances
insert_lines-eq env e ls w = refl

entry_units-batch :
    (e k : ℕ) (a : Asset) (ls : List LineToApply)
    → entry_units k a (map (line_row e) ls) ≡ (if e == k then batch_asset_units a ls else pos 0)
entry_units-batch e k a ls =
    sum_where-map (λ l. l.entry_id == k && asset_eq l.asset a) (λ l. l.units) (line_row e) ls
    ∙ sum_where-const_and (e == k) (λ l. asset_eq l.asset a) (λ l. l.units) ls

balanced_if : (b : Bool) (u : ℤ) → u ≡ pos 0 → (if b then u else pos 0) ≡ pos 0
balanced_if true u h = h
balanced_if false u h = refl

sum_of_zeros : (u v : ℤ) → u ≡ pos 0 → v ≡ pos 0 → u +ℤ v ≡ pos 0
sum_of_zeros u v h k = rw (h, k) (zero_+ℤ (pos 0))

-- Writing a batch that balances in every asset, at known accounts and under a posted entry, keeps
-- the books sound.
pub written-IsSound :
    (env : Env) (e : ℕ) (ls : List LineToApply) (w : World)
    → IsSound w
    → e < w.next_entry
    → is_posted w.entries e ≡ true
    → ((a : Asset) → batch_asset_units a ls ≡ pos 0)
    → All (λ l. is_known w.accounts l.account_id ≡ true) ls
    → All (λ l. IsInt64 l.units) ls
    → IsSound (written env e ls w)
written-IsSound env e ls w s posted named zeros known range = record {
  cache_agrees = λ id.
      cached-apply_balances id env.now e (order_by account_key ls) w.balances
      ∙ ap (λ t. t +ℤ cached_units id w.balances)
          (sum_where-order_by (λ l. l.account_id == id) (λ l. l.units) account_key ls)
      ∙ ap (λ t. batch_units id ls +ℤ t) (s.cache_agrees id)
      ∙ +ℤ_comm (batch_units id ls) (computed_units id w.lines)
      ∙ ap (λ t. computed_units id w.lines +ℤ t)
          (sym (sum_where-map (λ l. l.account_id == id) (λ l. l.units) (line_row e) ls))
      ∙ sym
          (sum_where-append (λ l. l.account_id == id) (λ l. l.units) w.lines (map (line_row e) ls));
  entries_balance = λ k a.
      sum_where-append (λ l. l.entry_id == k && asset_eq l.asset a) (λ l. l.units) w.lines
        (map (line_row e) ls)
      ∙ sum_of_zeros _ _ (s.entries_balance k a)
          (entry_units-batch e k a ls ∙ balanced_if (e == k) (batch_asset_units a ls) (zeros a));
  trial_closes = λ a.
      sum_where-append (λ l. asset_eq l.asset a) (λ l. l.units) w.lines (map (line_row e) ls)
      ∙ sum_of_zeros _ _ (s.trial_closes a)
          (sum_where-map (λ l. asset_eq l.asset a) (λ l. l.units) (line_row e) ls ∙ zeros a);
  lines_posted =
      All-append (λ l. l.entry_id < w.next_entry) w.lines (map (line_row e) ls) s.lines_posted
        (All-map (λ l. l.entry_id < w.next_entry) (line_row e) ls
          (All-of (λ l. e < w.next_entry) ls (λ l. posted)));
  lines_named =
      All-append (λ l. is_posted w.entries l.entry_id ≡ true) w.lines (map (line_row e) ls)
        s.lines_named
        (All-map (λ l. is_posted w.entries l.entry_id ≡ true) (line_row e) ls
          (All-of (λ l. is_posted w.entries e ≡ true) ls (λ l. named)));
  units_in_range =
      All-append (λ l. IsInt64 l.units) w.lines (map (line_row e) ls) s.units_in_range
        (All-map (λ l. IsInt64 l.units) (line_row e) ls range);
  ids_drawn = s.ids_drawn;
  accounts_known =
      All-append (λ l. is_known w.accounts l.account_id ≡ true) w.lines (map (line_row e) ls)
        s.accounts_known
        (All-map (λ l. is_known w.accounts l.account_id ≡ true) (line_row e) ls known);
}

-- The tables after `row` is inserted into journal_entries.
abbrev pub with_entry : Entry → World → World
with_entry row w = record w { entries = row ∷ w.entries; next_entry = w.next_entry + 1 }

posted_behind :
    (row : Entry) (es : List Entry) (id : ℕ)
    → is_posted es id ≡ true
    → is_posted (row ∷ es) id ≡ true
posted_behind row es id h = ground (arith, h)

pub posted_first : (row : Entry) (es : List Entry) → is_posted (row ∷ es) row.id ≡ true
posted_first row es = ground (arith, ==_iff row.id row.id)

pub with_entry-IsSound :
    (row : Entry) (w : World) → row.id ≡ w.next_entry → IsSound w → IsSound (with_entry row w)
with_entry-IsSound row w drawn s = record {
  cache_agrees = s.cache_agrees;
  entries_balance = s.entries_balance;
  trial_closes = s.trial_closes;
  lines_posted =
      All-imp (λ l. l.entry_id < w.next_entry) (λ l. l.entry_id < w.next_entry + 1) w.lines
        (λ l h. omega arith) s.lines_posted;
  lines_named =
      All-imp (λ l. is_posted w.entries l.entry_id ≡ true)
        (λ l. is_posted (row ∷ w.entries) l.entry_id ≡ true) w.lines
        (λ l h. posted_behind row w.entries l.entry_id h) s.lines_named;
  accounts_known = s.accounts_known;
  units_in_range = s.units_in_range;
  ids_drawn = (
    omega arith,
    All-imp (λ (r : Entry). r.id < w.next_entry) (λ r. r.id < w.next_entry + 1) w.entries
        (λ r h. omega arith) s.ids_drawn,
  );
}
