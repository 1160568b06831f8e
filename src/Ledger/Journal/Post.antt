-- ===== src/Ledger/Journal/Post.antt =====
-- ledger/internal/journal/post.go and lookup.go: posting an entry, and finding one.
pub mod Books
pub mod Replay
pub mod Frame
use convert_usdt_from_trc.Base.{
  ℕ, ◌+◌, ◌-◌, Bool, true, false, ◌&&◌, not, Option, none, some, List, [], ◌∷◌, ◌++◌, map, ◌==◌,
  if◌then◌else◌,
}
use convert_usdt_from_trc.Base.Int.{ℤ, ◌+ℤ◌, pos_part, neg_part}
use convert_usdt_from_trc.Base.Table.{find, exists, select, order_by}
use convert_usdt_from_trc.Base.Text.{String, str_eq}
use convert_usdt_from_trc.Money.{Asset}
use convert_usdt_from_trc.Ledger.Rows.{
  World, Env, Account, EntryRequest, Entry, PostedLine, LineRow, BalanceRow, OrderRow, created,
  replayed, Detail, entry_not_found, idempotency_conflict, constraint_violation,
}
use convert_usdt_from_trc.Ledger.Monad.{
  ok, err, M, ◌>>=◌, ◌>>◌, pure, raise_if, gets, modify, or_raise,
}
use convert_usdt_from_trc.Ledger.Journal.Hash.{canonical_hash}
use convert_usdt_from_trc.Ledger.Journal.Validate.{ResolvedLine, validate}

pub record LineToApply : Type 0 where
  pub seq : ℤ
  pub account_id : ℕ
  pub account_code : String
  pub asset : Asset
  pub units : ℤ

abbrev pub line_row : ℕ → LineToApply → LineRow
line_row entry_id l = record {
  entry_id = entry_id;
  seq = l.seq;
  account_id = l.account_id;
  asset = l.asset;
  units = l.units;
}

abbrev pub posted_line : LineToApply → PostedLine
posted_line l = record {
  seq = l.seq;
  account_id = l.account_id;
  account_code = l.account_code;
  amount = record { asset = l.asset; units = l.units };
}

-- `INSERT INTO account_balances … ON CONFLICT (account_id) DO UPDATE …`.
unfoldable pub apply_balance : ℕ → ℕ → LineToApply → List BalanceRow → List BalanceRow
apply_balance now entry_id l [] =
    record {
      account_id = l.account_id;
      asset = l.asset;
      balance_units = l.units;
      last_entry_id = entry_id;
      updated_at = now;
    }
    ∷ []
apply_balance now entry_id l (b ∷ bs) =
    if b.account_id == l.account_id
    then record b {
      balance_units = b.balance_units +ℤ l.units;
      last_entry_id = entry_id;
      updated_at = now;
    }
      ∷ bs
    else b ∷ apply_balance now entry_id l bs

-- `for _, l := range sorted`.
unfoldable pub apply_balances : ℕ → ℕ → List LineToApply → List BalanceRow → List BalanceRow
apply_balances now entry_id [] bs = bs
apply_balances now entry_id (l ∷ ls) bs =
    apply_balances now entry_id ls (apply_balance now entry_id l bs)

-- The key of the order in which balances are applied.
abbrev pub account_key : LineToApply → ℕ
account_key l = l.account_id

-- `ORDER BY jl.seq`, as a key that is a natural number: a smallint is at least -2^15.
abbrev pub seq_key : PostedLine → ℕ
seq_key pl = pos_part pl.seq + 32768 - neg_part pl.seq

abbrev pub lines_of : ℕ → List LineRow → List LineRow
lines_of entry_id = select (λ r. r.entry_id == entry_id)

-- `JOIN accounts a ON a.id = jl.account_id`.
unfoldable pub join_accounts : List Account → List LineRow → List PostedLine
join_accounts accounts [] = []
join_accounts accounts (r ∷ rs) = elim (find (λ a. a.id == r.account_id) accounts) [
  | none ↦ join_accounts accounts rs
  | some a ↦
      record {
        seq = r.seq;
        account_id = r.account_id;
        account_code = a.code;
        amount = record { asset = r.asset; units = r.units };
      }
      ∷ join_accounts accounts rs
]

-- The lines of an entry as the query yields them.
unfoldable pub stored_lines : ℕ → World → List PostedLine
stored_lines entry_id w = order_by seq_key (join_accounts w.accounts (lines_of entry_id w.lines))

unfoldable pub load_lines : ℕ → M (List PostedLine)
load_lines entry_id = gets (stored_lines entry_id)

unfoldable pub get_entry_by_idempotency_key : String → M Entry
get_entry_by_idempotency_key key = do
  found ← gets (λ w. find (λ e. str_eq e.idempotency_key key) w.entries)
  or_raise found entry_not_found

unfoldable pub get_entry_by_id : ℕ → M Entry
get_entry_by_id id = do
  found ← gets (λ w. find (λ e. e.id == id) w.entries)
  or_raise found entry_not_found

unfoldable pub with_lines : Entry → M Entry
with_lines e = do ls ← load_lines e.id; pure (record e { lines = ls })

-- `reversal_of = $1`.
abbrev pub reverses : ℕ → Entry → Bool
reverses id e = elim e.reversal_of [ none ↦ false | some o ↦ o == id ]

abbrev pub found_reversal : Option Entry → M (Option Entry)
found_reversal none = pure none
found_reversal (some e) = do full ← with_lines e; pure (some full)

unfoldable pub reversal_of : ℕ → M (Option Entry)
reversal_of id = do found ← gets (λ w. find (reverses id) w.entries); found_reversal found

abbrev pub bytes_equal : List ℕ → List ℕ → Bool
bytes_equal [] [] = true
bytes_equal (a ∷ as') (b ∷ bs) = a == b && bytes_equal as' bs
bytes_equal _ _ = false

-- The foreign key of journal_entries.order_id.
abbrev pub order_exists : Option ℕ → List OrderRow → Bool
order_exists none os = true
order_exists (some id) os = exists (λ o. o.id == id) os

-- The unique keys of journal_entries.
abbrev pub key_taken : String → List Entry → Bool
key_taken key es = exists (λ e. str_eq e.idempotency_key key) es

abbrev pub reversal_taken : Option ℕ → List Entry → Bool
reversal_taken none es = false
reversal_taken (some id) es = exists (reverses id) es

abbrev metadata_of : Option Detail → Detail
metadata_of none = []
metadata_of (some d) = d

abbrev pub to_apply : ResolvedLine → LineToApply
to_apply r = record {
  seq = r.seq;
  account_id = r.account.id;
  account_code = r.account.code;
  asset = r.amount.asset;
  units = r.amount.units;
}

unfoldable pub resolve_existing : EntryRequest → List ℕ → M Entry
resolve_existing req hash = do
  existing ← get_entry_by_idempotency_key req.idempotency_key
  raise_if (not (bytes_equal existing.payload_hash hash)) idempotency_conflict
  ls ← load_lines existing.id
  pure (record existing { lines = ls; outcome = replayed })

module _ (env : Env) where
  unfoldable pub insert_lines_and_apply_balances : ℕ → List LineToApply → M (List PostedLine)
  insert_lines_and_apply_balances entry_id ls = do
    modify (λ w. record w { lines = w.lines ++ map (line_row entry_id) ls })
    modify (λ w. record w {
      balances = apply_balances env.now entry_id (order_by account_key ls) w.balances;
    })
    pure (map posted_line ls)

  -- The row that `INSERT INTO journal_entries` writes.
  abbrev pub entry_row : ℕ → EntryRequest → List ℕ → Option ℕ → Entry
  entry_row id req hash reversal = record {
    id = id;
    idempotency_key = req.idempotency_key;
    payload_hash = hash;
    entry_type = req.entry_type;
    order_id = req.order_id;
    actor = req.actor;
    occurred_at = req.occurred_at;
    recorded_at = env.now;
    reversal_of = reversal;
    metadata = metadata_of req.metadata;
    lines = [];
    outcome = created;
  }

  -- `INSERT INTO journal_entries … ON CONFLICT (idempotency_key) DO NOTHING RETURNING …`.
  unfoldable pub insert_entry : EntryRequest → List ℕ → M (Option Entry)
  insert_entry req hash w =
      let row = entry_row w.next_entry req hash none in
      if key_taken req.idempotency_key w.entries
      then ok none w
      else if order_exists req.order_id w.orders
      then ok (some row) (record w { entries = row ∷ w.entries; next_entry = w.next_entry + 1 })
      else err constraint_violation w

  unfoldable pub post_lines : Entry → List ResolvedLine → M Entry
  post_lines entry resolved = do
    posted ← insert_lines_and_apply_balances entry.id (map to_apply resolved)
    pure (record entry { lines = posted; outcome = created })

  abbrev pub created_or_existing :
      EntryRequest → List ℕ → List ResolvedLine → Option Entry → M Entry
  created_or_existing req hash resolved (some entry) = post_lines entry resolved
  created_or_existing req hash resolved none = resolve_existing req hash

  unfoldable pub post : EntryRequest → M Entry
  post req = do
    resolved ← validate req
    inserted ← insert_entry req (canonical_hash env req)
    created_or_existing req (canonical_hash env req) resolved inserted
