-- ===== src/Ledger/Journal/Hash.antt =====
-- ledger/internal/journal/hash.go: the payload hash of an entry request.
use convert_usdt_from_trc.Base.{ℕ, ◌-◌, ◌%◌, Bool, true, false, List, [], ◌∷◌, if◌then◌else◌}
use convert_usdt_from_trc.Base.Int.{ltb_ℤ}
use convert_usdt_from_trc.Base.Text.{String, str_eq}
use convert_usdt_from_trc.Money.{Asset, usdt_bep20, usdt_trc20, trx, bnb}
use convert_usdt_from_trc.Ledger.Rows.{Line, EntryRequest, HashPayload, Env}
use Prim.Native.Nat.{Ordering}
use Prim.Native.String.{compare}

-- The spelling of an asset.
unfoldable pub asset_text : Asset → String
asset_text usdt_bep20 = "USDT_BEP20"
asset_text usdt_trc20 = "USDT_TRC20"
asset_text trx = "TRX"
asset_text bnb = "BNB"
asset_text (Asset.other s) = s

-- `s < t` on strings.
abbrev pub text_lt : String → String → Bool
text_lt s t = elim (compare s t) [ Ordering.lt ↦ true | _ ↦ false ]

-- The `less` of canonicalHash: by account code, asset, amount.
unfoldable pub line_lt : Line → Line → Bool
line_lt a b =
    if str_eq a.account_code b.account_code
    then if str_eq (asset_text a.amount.asset) (asset_text b.amount.asset)
      then ltb_ℤ a.amount.units b.amount.units
      else text_lt (asset_text a.amount.asset) (asset_text b.amount.asset)
    else text_lt a.account_code b.account_code

abbrev insert_line : Line → List Line → List Line
insert_line x [] = x ∷ []
insert_line x (y ∷ ys) = let rest = insert_line x ys in if line_lt y x then y ∷ rest else x ∷ y ∷ ys

-- `sort.Slice(lines, …)`.
unfoldable pub sort_lines : List Line → List Line
sort_lines [] = []
sort_lines (x ∷ xs) = insert_line x (sort_lines xs)

-- `t.Truncate(time.Microsecond)`.
abbrev pub truncate_micro : ℕ → ℕ
truncate_micro t = t - t % 1000

unfoldable pub hash_payload : EntryRequest → HashPayload
hash_payload req = record {
  entry_type = req.entry_type;
  order_id = req.order_id;
  lines = sort_lines req.lines;
  occurred_at = truncate_micro req.occurred_at;
}

unfoldable pub canonical_hash : Env → EntryRequest → List ℕ
canonical_hash env req = env.digest (hash_payload req)
