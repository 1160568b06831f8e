-- ===== src/Ledger/Accounts.antt =====
-- ledger/internal/accounts: account codes, types and the chart of accounts.
use convert_usdt_from_trc.Base.{
  ℕ, zero, suc, ◌+◌, Bool, true, false, ◌||◌, not, Option, none, some, List, [], ◌∷◌, ◌==◌,
  if◌then◌else◌,
}
use convert_usdt_from_trc.Base.Int.{ℤ, pos, negsuc}
use convert_usdt_from_trc.Base.Table.{find, exists}
use convert_usdt_from_trc.Base.Text.{String, str_eq}
use convert_usdt_from_trc.Base.Result
use convert_usdt_from_trc.Base.Result.{Result}
use convert_usdt_from_trc.Money.{Asset, valid, unknown_asset}
use convert_usdt_from_trc.Ledger.Rows.{
  Env, Error, Account, AccountType, asset, liability, revenue, expense, equity, position, money,
  invalid_code, unknown_account_type, account_not_found,
}
use convert_usdt_from_trc.Ledger.Monad.{ok, err, M, ◌>>=◌, ◌>>◌, pure, raise_if, gets, or_raise}
use Prim.Native.Char.{code}

pub record Code : Type 0 where
  pub raw : String
  pub category : String
  pub segments : List String

abbrev prepend_part : Prim.Native.Char.Char → List String → List String
prepend_part c [] = String.◌∷◌ c "" ∷ []
prepend_part c (p ∷ ps) = String.◌∷◌ c p ∷ ps

-- `strings.Split(code, ":")`.
unfoldable pub split_colon : String → List String
split_colon String.[] = "" ∷ []
split_colon (String.◌∷◌ c s) =
    let rest = split_colon s in if code c == b':' then "" ∷ rest else prepend_part c rest

abbrev pub has_empty : List String → Bool
has_empty [] = false
has_empty (p ∷ ps) = str_eq p "" || has_empty ps

-- `Code{Raw: code, Category: parts[0], Segments: parts[1:]}` once the parts are checked.
unfoldable pub code_of_parts : String → List String → Result Error Code
code_of_parts raw [] = Result.err invalid_code
code_of_parts raw (p ∷ []) = Result.err invalid_code
code_of_parts raw (p ∷ q ∷ ps) =
    if has_empty (p ∷ q ∷ ps)
    then Result.err invalid_code
    else Result.ok (record { raw = raw; category = p; segments = q ∷ ps })

unfoldable pub parse_code : String → Result Error Code
unfolding split_colon code_of_parts
parse_code raw =
    if str_eq raw "" then Result.err invalid_code else code_of_parts raw (split_colon raw)

-- `c.Segments[i]` in range; `i` is not negative here.
abbrev nth : List String → ℕ → Option String
nth [] k = none
nth (s ∷ ss) zero = some s
nth (s ∷ ss) (suc k) = nth ss k

unfoldable pub segment : Code → ℕ → Option String
segment c i = nth c.segments i

unfoldable pub normal_side_for : AccountType → Result Error ℤ
normal_side_for asset = Result.ok (pos 1)
normal_side_for expense = Result.ok (pos 1)
normal_side_for liability = Result.ok (negsuc 0)
normal_side_for revenue = Result.ok (negsuc 0)
normal_side_for equity = Result.ok (negsuc 0)
normal_side_for position = Result.ok (pos 0)
normal_side_for (AccountType.other s) = Result.err unknown_account_type

-- Raises the error of a call that keeps no state.
abbrev pub lift : {A : Type 0} → Result Error A → M A
lift (Result.ok a) w = ok a w
lift (Result.err e) w = err e w

unfoldable pub get_by_code : String → M Account
get_by_code c = do
  found ← gets (λ w. find (λ a. str_eq a.code c) w.accounts)
  or_raise found account_not_found

module _ (env : Env) where
  abbrev new_account : ℕ → String → AccountType → Asset → ℤ → Account
  new_account id c t a side = record {
    id = id;
    code = c;
    account_type = t;
    asset = a;
    normal_side = side;
    is_active = true;
    opened_at = env.now;
    metadata = [];
  }

  -- `INSERT INTO accounts … ON CONFLICT (code) DO NOTHING RETURNING …`.
  unfoldable pub insert_account : String → AccountType → Asset → ℤ → M (Option Account)
  insert_account c t a side w =
      let row = new_account w.next_account c t a side in
      if exists (λ r. str_eq r.code c) w.accounts
      then ok none w
      else ok (some row)
          (record w { accounts = row ∷ w.accounts; next_account = w.next_account + 1 })

  abbrev created_or_existing : String → Option Account → M Account
  created_or_existing c (some acc) = pure acc
  created_or_existing c none = get_by_code c

  unfoldable pub create : String → AccountType → Asset → M Account
  unfolding parse_code normal_side_for insert_account get_by_code valid
  create c t a = do
    parsed ← lift (parse_code c)
    raise_if (not (Result.is_ok (normal_side_for t))) unknown_account_type
    raise_if (not (valid a)) (money unknown_asset)
    side ← lift (normal_side_for t)
    inserted ← insert_account c t a side
    created_or_existing c inserted
