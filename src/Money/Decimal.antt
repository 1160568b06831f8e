-- ===== src/Money/Decimal.antt =====
-- ledger/internal/money/decimal.go: decimal texts, as lists of their bytes.
use convert_usdt_from_trc.Base.{
  ℕ, zero, suc, ◌+◌, ◌-◌, ◌*◌, ◌/◌, ◌%◌, ◌^◌, Bool, true, false, ◌&&◌, ◌||◌, not, List, [], ◌∷◌,
  ◌++◌, ltb, leb, ◌==◌, if◌then◌else◌, length, take, drop, replicate,
}
use convert_usdt_from_trc.Base.Int.{ℤ, pos, negsuc, is_neg}
use convert_usdt_from_trc.Base.Result.{Result, ok, err, ◌>>=◌, ◌>>◌, fail_if}
use convert_usdt_from_trc.Money.{
  Error, Asset, Amount, overflow, invalid_decimal, too_many_decimals, decimals, validate, negate,
}

-- `r < '0' || r > '9'` does not hold.
abbrev pub is_digit : ℕ → Bool
is_digit c = leb b'0' c && leb c b'9'

abbrev pub all_digits : List ℕ → Bool
all_digits [] = true
all_digits (c ∷ cs) = is_digit c && all_digits cs

abbrev pub is_empty : List ℕ → Bool
is_empty [] = true
is_empty (c ∷ cs) = false

unfoldable pub is_digits : List ℕ → Bool
is_digits s = not (is_empty s) && all_digits s

-- `strings.Contains(s, ".")`.
unfoldable pub contains_dot : List ℕ → Bool
contains_dot [] = false
contains_dot (c ∷ cs) = c == b'.' || contains_dot cs

abbrev pub prepend : ℕ → List ℕ × List ℕ × Bool → List ℕ × List ℕ × Bool
prepend c (before, after, found) = (c ∷ before, after, found)

-- `strings.Cut(s, ".")`: what stands before the first dot, what stands after it, whether there is one.
unfoldable pub cut_dot : List ℕ → List ℕ × List ℕ × Bool
cut_dot [] = ([], [], false)
cut_dot (c ∷ cs) = let rest = prepend c (cut_dot cs) in if c == b'.' then ([], cs, true) else rest

-- The number that digits spell, after those that spelled `acc`.
unfoldable pub value_from : ℕ → List ℕ → ℕ
value_from acc [] = acc
value_from acc (c ∷ cs) = value_from (acc * 10 + (c - b'0')) cs

-- `strconv.ParseInt(digits, 10, 64)` of a text of digits: a range error from 2^63 on.
abbrev pub parse_int_value : ℕ → Result Error ℤ
parse_int_value n = if ltb n (2 ^ 63) then ok (pos n) else err overflow

unfoldable pub parse_int : List ℕ → Result Error ℤ
parse_int s = parse_int_value (value_from 0 s)

-- The leading sign and what follows it.
unfoldable pub take_sign : List ℕ → Bool × List ℕ
take_sign [] = (false, [])
take_sign (c ∷ cs) =
    if c == b'-' then (true, cs) else if c == b'+' then (false, cs) else (false, c ∷ cs)

-- `if neg { … .Neg() … }`.
unfoldable pub apply_sign : Bool → Amount → Result Error Amount
apply_sign false a = ok a
apply_sign true a = elim (negate a) [ ok b ↦ ok b | err e ↦ err overflow ]

-- The checks of the integer and the fractional part, and the value of both.
unfoldable pub parse_parts : Bool → List ℕ × List ℕ × Bool → ℕ → Asset → Result Error Amount
unfolding is_digits parse_int contains_dot apply_sign value_from
parse_parts neg (int_part, frac_part, has_dot) places asset = do
  fail_if (has_dot && contains_dot frac_part) invalid_decimal
  fail_if (is_empty int_part && is_empty frac_part) invalid_decimal
  let int_digits = if is_empty int_part then b'0' ∷ [] else int_part
  fail_if (not (is_digits int_digits)) invalid_decimal
  fail_if (not (is_empty frac_part) && not (is_digits frac_part)) invalid_decimal
  fail_if (ltb places (length frac_part)) too_many_decimals
  units ← parse_int (int_digits ++ (frac_part ++ replicate (places - length frac_part) b'0'))
  apply_sign neg (record { asset = asset; units = units })

unfoldable pub parse_decimal : List ℕ → Asset → Result Error Amount
unfolding take_sign cut_dot parse_parts
parse_decimal s asset = do
  places ← decimals asset
  fail_if (is_empty s) invalid_decimal
  let (neg, rest) = take_sign s
  fail_if (is_empty rest) invalid_decimal
  parse_parts neg (cut_dot rest) places asset

-- The decimal digits of a number, by repeated division, on fuel.
unfoldable pub digits_of : ℕ → ℕ → List ℕ
digits_of zero n = []
digits_of (suc f) n =
    let rest = digits_of f (n / 10) in
    let last = (b'0' + n % 10) ∷ [] in if ltb n 10 then last else rest ++ last

-- `strconv.FormatInt(u, 10)` without its sign: an int64 value has at most 19 digits.
abbrev pub magnitude : ℤ → ℕ
magnitude (pos n) = n
magnitude (negsuc n) = suc n

-- `for len(digits) < want { digits = "0" + digits }`, on fuel.
unfoldable pub pad : ℕ → ℕ → List ℕ → List ℕ
pad zero want ds = ds
pad (suc f) want ds =
    let padded = pad f want (b'0' ∷ ds) in if ltb (length ds) want then padded else ds

-- Where the point and the sign go: `at` digits stand behind the point.
unfoldable pub place_point : ℕ → Bool → List ℕ → List ℕ
place_point places neg digits =
    let whole = length digits - places in
    let int_part = take whole digits in
    let frac_part = drop whole digits in
    let out = if ltb 0 places then int_part ++ (b'.' ∷ frac_part) else int_part in
    if neg then b'-' ∷ out else out

unfoldable pub format : Amount → Result Error (List ℕ)
unfolding digits_of pad place_point
format a = do
  validate a
  places ← decimals a.asset
  let digits = pad (places + 1) (places + 1) (digits_of 20 (magnitude a.units))
  ok (place_point places (is_neg a.units) digits)
