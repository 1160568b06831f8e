-- ===== src/Ledger/Journal/Reverse/Negation.antt =====
-- The lines that a reversal writes are those of the entry, negated (ledger/internal/journal/reversal.go).
use convert_usdt_from_trc.Base.{
  ℕ, ◌≡◌, refl, sym, ap, ◌∙◌, Bool, true, false, ◌&&◌, some, List, [], ◌∷◌, leb, ◌==◌,
  if◌then◌else◌, All, Bool-cases, inl, inr, subst, Option-cases,
}
use convert_usdt_from_trc.Base.Int.{ℤ, pos, ◌+ℤ◌, neg, zero_+ℤ, int_laws}
use convert_usdt_from_trc.Base.Int64.{IsInt64}
use convert_usdt_from_trc.Base.Table.{
  find, select, insert_by, sum_where, order_by, sum_where-order_by, sum_where-select,
}
use convert_usdt_from_trc.Money
use convert_usdt_from_trc.Money.{Asset, Amount, asset_eq, negate}
use convert_usdt_from_trc.Money.Bounds.{negate-eq_ok}
use convert_usdt_from_trc.Base.Result.{Result}
use convert_usdt_from_trc.Ledger.Rows.{World, Account, LineRow, PostedLine}
use convert_usdt_from_trc.Ledger.Monad.{ok, lift_money, >>=-eq-ok, ok_injective}
use convert_usdt_from_trc.Ledger.Journal.Post.{join_accounts, lines_of, stored_lines, seq_key}
use convert_usdt_from_trc.Ledger.Journal.Reverse.{NegatedLine, negate_lines}
use convert_usdt_from_trc.Ledger.Journal.Sound.{is_known}

neg_add : (a b : ℤ) → neg a +ℤ neg b ≡ neg (a +ℤ b)
neg_add a b = omega int_laws

known-find :
    (id : ℕ) (accounts : List Account)
    → is_known accounts id ≡ true
    → (a : Account) × (find (λ a. a.id == id) accounts ≡ some a)
known-find id [] h = cc
known-find id (a ∷ as') h = elim (Bool-cases (a.id == id)) [
  | inl here ↦ (a, rw here)
  | inr later ↦ rw later (known-find id as' (rw later at h))
]

-- The rows with a known account pass the join, and keep their account, asset and units.
join-sum :
    (p : ℕ → Asset → Bool) (accounts : List Account) (rows : List LineRow)
    → All (λ r. is_known accounts r.account_id ≡ true) rows
    → sum_where
        (λ l. p l.account_id l.amount.asset)
        (λ l. l.amount.units)
        (join_accounts accounts rows)
      ≡ sum_where (λ r. p r.account_id r.asset) (λ r. r.units) rows
unfolding join_accounts
join-sum p accounts [] h = refl
join-sum p accounts (r ∷ rows) h =
    let (a, found) = known-find r.account_id accounts h.0 in
    rw (found, join_accounts)
      (ap (λ t. (if p r.account_id r.asset then r.units else pos 0) +ℤ t)
        (join-sum p accounts rows h.1))

join-range :
    (accounts : List Account) (rows : List LineRow)
    → All (λ r. IsInt64 r.units) rows
    → All (λ (l : PostedLine). IsInt64 l.amount.units) (join_accounts accounts rows)
unfolding join_accounts
join-range accounts [] h = tt
join-range accounts (r ∷ rows) h = elim (Option-cases (find (λ a. a.id == r.account_id) accounts)) [
  | inl missing ↦ rw (missing, join_accounts) (join-range accounts rows h.1)
  | inr (a, found) ↦ rw (found, join_accounts) (h.0, join-range accounts rows h.1)
]

join-known :
    (accounts : List Account) (rows : List LineRow)
    → All (λ r. is_known accounts r.account_id ≡ true) rows
    → All (λ (l : PostedLine). is_known accounts l.account_id ≡ true) (join_accounts accounts rows)
unfolding join_accounts
join-known accounts [] h = tt
join-known accounts (r ∷ rows) h = elim (Option-cases (find (λ a. a.id == r.account_id) accounts)) [
  | inl missing ↦ rw (missing, join_accounts) (join-known accounts rows h.1)
  | inr (a, found) ↦ rw (found, join_accounts) (h.0, join-known accounts rows h.1)
]

All-select :
    {A : Type 0} (P : A → Type 0) (s : A → Bool) (xs : List A) → All P xs → All P (select s xs)
All-select P s [] h = tt
All-select P s (x ∷ xs) h = elim (Bool-cases (s x)) [
  | inl kept ↦ rw kept (h.0, All-select P s xs h.1)
  | inr dropped ↦ rw dropped (All-select P s xs h.1)
]

All-insert_by :
    {A : Type 0} (P : A → Type 0) (key : A → ℕ) (x : A) (xs : List A)
    → P x
    → All P xs
    → All P (insert_by key x xs)
All-insert_by P key x [] h k = (h, tt)
All-insert_by P key x (y ∷ ys) h k = elim (Bool-cases (leb (key x) (key y))) [
  | inl le ↦ rw le (h, k)
  | inr gt ↦ rw gt (k.0, All-insert_by P key x ys h k.1)
]

All-order_by :
    {A : Type 0} (P : A → Type 0) (key : A → ℕ) (xs : List A) → All P xs → All P (order_by key xs)
unfolding order_by
All-order_by P key [] h = tt
All-order_by P key (x ∷ xs) h =
    All-insert_by P key x (order_by key xs) h.0 (All-order_by P key xs h.1)

-- The lines `ns` keep the accounts and the assets of `pls`, and turn every sum over them into its
-- opposite.
abbrev pub Negates : List PostedLine → List NegatedLine → Type 0
Negates pls ns =
    ((p : ℕ → Asset → Bool)
      → sum_where (λ n. p n.account_id n.amount.asset) (λ n. n.amount.units) ns
        ≡ neg (sum_where (λ l. p l.account_id l.amount.asset) (λ l. l.amount.units) pls))
    × All (λ n. IsInt64 n.amount.units) ns
    × ((accounts : List Account)
        → All (λ l. is_known accounts l.account_id ≡ true) pls
        → All (λ n. is_known accounts n.account_id ≡ true) ns)

negated_sum :
    (b c : Bool) (u v s t : ℤ)
    → b ≡ c
    → u ≡ neg v
    → s ≡ neg t
    → (if b then u else pos 0) +ℤ s ≡ neg ((if c then v else pos 0) +ℤ t)
negated_sum b c u v s t same h k = rw (same, h, k) (lemma c)
  where
    lemma : (c : Bool) → (if c then neg v else pos 0) +ℤ neg t ≡ neg ((if c then v else pos 0) +ℤ t)
    lemma true = neg_add v t
    lemma false = zero_+ℤ (neg t) ∙ ap neg (sym (zero_+ℤ t))

neg_zero : pos 0 ≡ neg (pos 0)
unfolding neg
neg_zero = refl

lift_money-eq_ok :
    {A : Type 0} (r : Result Money.Error A) {a : A} {w w' : World}
    → lift_money r w ≡ ok a w'
    → (w ≡ w') × (r ≡ Result.ok a)
lift_money-eq_ok (Result.ok a) e = let d = ok_injective e in (d.1, ap (λ t. Result.ok t) d.0)
lift_money-eq_ok (Result.err x) e = cc

pub negate_lines-eq_ok :
    (pls : List PostedLine) {ns : List NegatedLine} {w w' : World}
    → All (λ l. IsInt64 l.amount.units) pls
    → negate_lines pls w ≡ ok ns w'
    → (w ≡ w') × Negates pls ns
unfolding negate_lines
negate_lines-eq_ok [] {ns} range e =
    let d = ok_injective e in (d.1, subst (Negates []) d.0 (λ p. neg_zero, tt, λ accounts h. tt))
negate_lines-eq_ok (pl ∷ pls) {ns} range e =
    let (y, w1, first, e1) = >>=-eq-ok (lift_money (negate pl.amount)) _ e in
    let (same, negated) = lift_money-eq_ok (negate pl.amount) first in
    let (asset_eq', units_eq, in_range) = negate-eq_ok pl.amount y range.0 negated in
    let (rest, w2, later, e2) = >>=-eq-ok (negate_lines pls) _ e1 in
    let (same', sums) = negate_lines-eq_ok pls range.1 later in
    let d = ok_injective e2 in
    (
      same ∙ same' ∙ d.1,
      subst (Negates (pl ∷ pls)) d.0 (
        λ p.
            negated_sum (p pl.account_id y.asset) (p pl.account_id pl.amount.asset) y.units
              pl.amount.units _ _ (ap (p pl.account_id) asset_eq') units_eq (sums.0 p),
        (in_range, sums.1),
        λ accounts h. (h.0, sums.2 accounts h.1),
      ),
    )

-- What the query for an entry's lines yields: every stored line, in range and at a known account.
module _ (id : ℕ) (w : World) (known : All (λ l. is_known w.accounts l.account_id ≡ true) w.lines)
    (range : All (λ l. IsInt64 l.units) w.lines) where
  pub stored_lines-range : All (λ l. IsInt64 l.amount.units) (stored_lines id w)
  unfolding stored_lines
  stored_lines-range =
      All-order_by (λ (l : PostedLine). IsInt64 l.amount.units) seq_key _
        (join-range w.accounts (lines_of id w.lines)
          (All-select (λ (l : LineRow). IsInt64 l.units) (λ l. l.entry_id == id) w.lines range))

  known_selected : All (λ l. is_known w.accounts l.account_id ≡ true) (lines_of id w.lines)
  known_selected =
      All-select (λ (l : LineRow). is_known w.accounts l.account_id ≡ true) (λ l. l.entry_id == id)
        w.lines known

  pub stored_lines-known : All (λ l. is_known w.accounts l.account_id ≡ true) (stored_lines id w)
  unfolding stored_lines
  stored_lines-known =
      All-order_by (λ (l : PostedLine). is_known w.accounts l.account_id ≡ true) seq_key _
        (join-known w.accounts (lines_of id w.lines) known_selected)

  pub stored_lines-sum :
      (p : ℕ → Asset → Bool)
      → sum_where (λ l. p l.account_id l.amount.asset) (λ l. l.amount.units) (stored_lines id w)
        ≡ sum_where (λ l. l.entry_id == id && p l.account_id l.asset) (λ l. l.units) w.lines
  unfolding stored_lines
  stored_lines-sum p =
      sum_where-order_by (λ l. p l.account_id l.amount.asset) (λ l. l.amount.units) seq_key
        (join_accounts w.accounts (lines_of id w.lines))
      ∙ join-sum p w.accounts (lines_of id w.lines) known_selected
      ∙ sum_where-select (λ l. p l.account_id l.asset) (λ l. l.entry_id == id) (λ l. l.units)
          w.lines
