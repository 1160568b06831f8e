-- ===== src/Ledger/Journal/Validate/Balanced.antt =====
-- What a request that passes ledger/internal/journal/validate.go is known to satisfy.
use convert_usdt_from_trc.Base.{
  ℕ, suc, ◌+◌, ◌≤◌, ◌<◌, ◌≡◌, refl, sym, ap, ◌∙◌, true, false, some, List, [], ◌∷◌, ltb,
  if◌then◌else◌, length, arith, All, subst,
}
use convert_usdt_from_trc.Base.Int.{ℤ, pos, is_zero, ◌+ℤ◌, is_zero_eq, zero_+ℤ, +ℤ_assoc, +ℤ_zero}
use convert_usdt_from_trc.Base.Int64.{to_int16, IsInt64}
use convert_usdt_from_trc.Base.Table.{find, sum_where}
use convert_usdt_from_trc.Base.Text.{String, str_eq}
use convert_usdt_from_trc.Money
use convert_usdt_from_trc.Money.{Asset, Amount, asset_eq, asset_eq_iff}
use convert_usdt_from_trc.Money.Bounds.{add-eq_ok}
use convert_usdt_from_trc.Base.Result
use convert_usdt_from_trc.Ledger.Rows.{World, Account, Line, EntryRequest}
use convert_usdt_from_trc.Ledger.Monad.{ok, raise_if, >>=-eq-ok, raise_if-eq-ok, ok_injective}
use convert_usdt_from_trc.Ledger.Accounts.{get_by_code}
use convert_usdt_from_trc.Ledger.Journal.Validate.{
  ResolvedLine, Sums, max_lines, validate_idempotency_key, sum_of, put_sum, check_line, check_lines,
  all_zero, check_sums, validate,
}

sum_of-put_sum :
    (a b : Asset) (s : Amount) (sums : Sums)
    → sum_of b (put_sum a s sums) ≡ (if asset_eq b a then s else sum_of b sums)
unfolding sum_of put_sum
sum_of-put_sum a b s [] = refl
sum_of-put_sum a b s ((c, t) ∷ rest) =
    ground (arith, asset_eq_iff a c, asset_eq_iff b c, asset_eq_iff b a, sum_of-put_sum a b s rest)

-- What one line that passes is known to satisfy.
abbrev pub Fits : World → Line → Account → Type 0
Fits w line acc =
    (is_zero line.amount.units ≡ false)
    × (find (λ a. str_eq a.code line.account_code) w.accounts ≡ some acc)
    × (asset_eq line.amount.asset acc.asset ≡ true)

pub check_line-eq_ok :
    (line : Line) (sums : Sums) {acc : Account} {sum : Amount} {w w' : World}
    → check_line line sums w ≡ ok (acc, sum) w'
    → (w ≡ w') × Fits w line acc × (Money.add (sum_of acc.asset sums) line.amount ≡ Result.ok sum)
unfolding check_line get_by_code
check_line-eq_ok line sums e = ground arith

all_zero-sum_of : (a : Asset) (sums : Sums) → all_zero sums ≡ true → (sum_of a sums).units ≡ pos 0
unfolding all_zero sum_of
all_zero-sum_of a [] h = refl
all_zero-sum_of a ((b, s) ∷ rest) h = ground (arith, is_zero_eq s.units, all_zero-sum_of a rest)

-- The signed units that the lines of a request carry in one asset.
abbrev pub requested_units : Asset → List Line → ℤ
requested_units a = sum_where (λ l. asset_eq l.amount.asset a) (λ l. l.amount.units)

-- The resolved lines are the request's, in order, at their accounts, numbered from `i` on.
abbrev pub Resolves : World → ℕ → List Line → List ResolvedLine → Type 0
Resolves w i [] [] = Unit
Resolves w i (l ∷ ls) (r ∷ rs) =
    (r.seq ≡ to_int16 i) × (r.amount ≡ l.amount) × Fits w l r.account × Resolves w (suc i) ls rs
Resolves w i _ _ = ⊥

-- One more line moves the sum of its own asset only.
put_sum-adds :
    (line : Line) (acc : Account) (sum : Amount) (sums : Sums)
    → IsInt64 line.amount.units
    → ((a : Asset) → IsInt64 (sum_of a sums).units)
    → asset_eq line.amount.asset acc.asset ≡ true
    → Money.add (sum_of acc.asset sums) line.amount ≡ Result.ok sum
    → (a : Asset)
    → ((sum_of a (put_sum acc.asset sum sums)).units
        ≡ (sum_of a sums).units
          +ℤ (if asset_eq line.amount.asset a then line.amount.units else pos 0))
      × IsInt64 (sum_of a (put_sum acc.asset sum sums)).units
put_sum-adds line acc sum sums range ranges same added a =
    let exact = add-eq_ok (sum_of acc.asset sums) line.amount sum (ranges acc.asset) range added in
    rw (sum_of-put_sum acc.asset a sum sums) (
      ground (
        arith,
        exact,
        asset_eq_iff line.amount.asset acc.asset,
        asset_eq_iff a acc.asset,
        asset_eq_iff line.amount.asset a,
        ranges a,
        +ℤ_zero (sum_of a sums).units,
      ))

-- What the loop establishes from `sums` on: the sums of the assets grow by what the lines carry.
abbrev Checked : World → ℕ → List Line → Sums → List ResolvedLine × Sums → Type 0
Checked w i ls sums r =
    Resolves w i ls r.0
    × ((a : Asset) → (sum_of a r.1).units ≡ (sum_of a sums).units +ℤ requested_units a ls)

pub check_lines-eq_ok :
    (i : ℕ) (ls : List Line) (sums : Sums) {r : List ResolvedLine × Sums} {w w' : World}
    → All (λ l. IsInt64 l.amount.units) ls
    → ((a : Asset) → IsInt64 (sum_of a sums).units)
    → check_lines i ls sums w ≡ ok r w'
    → (w ≡ w') × Checked w i ls sums r
unfolding check_lines
check_lines-eq_ok i [] sums {r} {w} {w'} range ranges e =
    let (result, world) = ok_injective e in
    (
      world,
      subst (λ t. Checked w i [] sums t) result (tt, λ a. sym (+ℤ_zero (sum_of a sums).units)),
    )
check_lines-eq_ok i (l ∷ ls) sums {r} {w} {w'} range ranges e =
    let (p, v, first, e') = >>=-eq-ok (check_line l sums) _ e in
    let (same, fits, added) = check_line-eq_ok l sums first in
    let (q, v', rest, e'') = >>=-eq-ok (check_lines (suc i) ls (put_sum p.0.asset p.1 sums)) _ e' in
    let moved = put_sum-adds l p.0 p.1 sums range.0 ranges fits.2 added in
    let (same', checked) =
      check_lines-eq_ok (suc i) ls (put_sum p.0.asset p.1 sums) range.1 (λ a. (moved a).1) rest in
    let (result, world) = ok_injective e'' in
    (
      same ∙ same' ∙ world,
      subst (λ t. Checked w i (l ∷ ls) sums t) result
          (
            (refl, refl, fits, subst (λ t. Resolves t (suc i) ls q.0) (sym same) checked.0),
            λ a.
                checked.1 a
                ∙ ap (λ t. t +ℤ requested_units a ls) (moved a).0
                ∙ +ℤ_assoc (sum_of a sums).units _ (requested_units a ls),
          ),
    )

-- The same, with the index itself as the sequence number.
abbrev pub ResolvesExactly : World → ℕ → List Line → List ResolvedLine → Type 0
ResolvesExactly w i [] [] = Unit
ResolvesExactly w i (l ∷ ls) (r ∷ rs) =
    (r.seq ≡ pos i) × (r.amount ≡ l.amount) × Fits w l r.account × ResolvesExactly w (suc i) ls rs
ResolvesExactly w i _ _ = ⊥

to_int16-small : (i : ℕ) → i < 32768 → to_int16 i ≡ pos i
unfolding to_int16
to_int16-small i h = ground arith

Resolves-exactly :
    (w : World) (i : ℕ) (ls : List Line) (rs : List ResolvedLine)
    → i + length ls ≤ 32767
    → Resolves w i ls rs
    → ResolvesExactly w i ls rs
Resolves-exactly w i [] [] h r = tt
Resolves-exactly w i [] (x ∷ rs) h r = r
Resolves-exactly w i (l ∷ ls) [] h r = r
Resolves-exactly w i (l ∷ ls) (x ∷ rs) h r = (
  r.0 ∙ to_int16-small i (omega arith),
  r.1,
  r.2,
  Resolves-exactly w (suc i) ls rs (omega arith) r.3,
)

no_sums : (a : Asset) → IsInt64 (sum_of a []).units
unfolding sum_of
no_sums a = omega arith

zero_start : (a : Asset) (u : ℤ) → (sum_of a []).units +ℤ u ≡ u
unfolding sum_of
zero_start a u = zero_+ℤ u

pub validate_idempotency_key-eq_ok :
    (key : String) {u : Unit {0}} {w w' : World} → validate_idempotency_key key w ≡ ok u w' → w ≡ w'
unfolding validate_idempotency_key
validate_idempotency_key-eq_ok key e = ground arith

check_sums-eq_ok :
    (r : List ResolvedLine × Sums) {rs : List ResolvedLine} {w w' : World}
    → check_sums r w ≡ ok rs w'
    → (w ≡ w') × (all_zero r.1 ≡ true) × (r.0 ≡ rs)
check_sums-eq_ok r e = ground arith

-- A request that Post accepts as valid has between two and 32767 lines, each with a nonzero amount
-- in the asset of its account, numbered in order without a wrap-around of the sequence number, and
-- for every asset its signed amounts sum to zero. Validation changes no table.
pub validate_sound :
    (req : EntryRequest) {rs : List ResolvedLine} {w w' : World}
    → All (λ l. IsInt64 l.amount.units) req.lines
    → validate req w ≡ ok rs w'
    → (w ≡ w')
      × ResolvesExactly w 0 req.lines rs
      × ((a : Asset) → requested_units a req.lines ≡ pos 0)
      × (2 ≤ length req.lines)
      × (length req.lines ≤ max_lines)
unfolding validate
validate_sound req {rs} {w} {w'} range e =
    let (u, w1, key, e1) = >>=-eq-ok (validate_idempotency_key req.idempotency_key) _ e in
    let (u2, w2, few, e2) = >>=-eq-ok (raise_if (ltb (length req.lines) 2) _) _ e1 in
    let (u3, w3, many, e3) = >>=-eq-ok (raise_if (ltb max_lines (length req.lines)) _) _ e2 in
    let (r, w4, loop, e4) = >>=-eq-ok (check_lines 0 req.lines []) _ e3 in
    let (same, checked) = check_lines-eq_ok 0 req.lines [] range no_sums loop in
    let (same', zero_sums, result) = check_sums-eq_ok r e4 in
    let (enough, same1) = raise_if-eq-ok _ _ few in
    let (capped, same2) = raise_if-eq-ok _ _ many in
    let start = validate_idempotency_key-eq_ok req.idempotency_key key ∙ same1 ∙ same2 in
    (
      start ∙ same ∙ same',
      subst (λ t. ResolvesExactly w 0 req.lines t) result
          (Resolves-exactly w 0 req.lines r.0 (ground arith)
            (subst (λ t. Resolves t 0 req.lines r.0) (sym start) checked.0)),
      λ a.
          sym (zero_start a (requested_units a req.lines))
          ∙ sym (checked.1 a)
          ∙ all_zero-sum_of a r.1 zero_sums,
      ground arith,
      ground arith,
    )
