-- ===== src/Money/RoundTrip.antt =====
-- What ledger/internal/money/decimal.go formats, it parses back.
use convert_usdt_from_trc.Base.{
  ℕ, zero, suc, ◌+◌, ◌-◌, ◌*◌, ◌/◌, ◌%◌, ◌^◌, ◌≤◌, ◌<◌, ◌≡◌, refl, Bool, true, false, ◌&&◌, not,
  List, [], ◌∷◌, ◌++◌, arith, ltb, if◌then◌else◌, length, take, drop, ◌∙◌, ap, Bool-cases, inl, inr,
}
use convert_usdt_from_trc.Base.Int.{ℤ, pos, negsuc, is_neg, neg}
use convert_usdt_from_trc.Base.Int64.{IsInt64, wrap64}
use convert_usdt_from_trc.Base.Result.{ok, err, ◌>>=◌}
use convert_usdt_from_trc.Money.{Asset, Amount, overflow, decimals, validate, negate, is_min}
use convert_usdt_from_trc.Money.Decimal.{
  all_digits, is_empty, is_digits, contains_dot, cut_dot, value_from, parse_int, parse_int_value,
  take_sign, apply_sign, parse_parts, parse_decimal, digits_of, magnitude, pad, place_point, format,
}
use native.Mathlib.Nat.{pow-suc}
use mathlib.Core.List.{append-nil}

value_from-append :
    (acc : ℕ) (xs ys : List ℕ) → value_from acc (xs ++ ys) ≡ value_from (value_from acc xs) ys
unfolding value_from
value_from-append acc [] ys = refl
value_from-append acc (x ∷ xs) ys = value_from-append (acc * 10 + (x - b'0')) xs ys

value_from_one : (acc n : ℕ) → value_from acc ((b'0' + n % 10) ∷ []) ≡ acc * 10 + n % 10
unfolding value_from
value_from_one acc n = omega arith

-- With fuel for its digits a number is spelled by them.
value-digits_of : (f n : ℕ) → n < 10 ^ f → value_from 0 (digits_of f n) ≡ n
unfolding digits_of value_from
value-digits_of zero n h = omega arith
value-digits_of (suc f) n h = elim (Bool-cases (ltb n 10)) [
  | inl small ↦ rw small (value_from_one 0 n ∙ ground arith)
  | inr big ↦ rw big (
      value_from-append 0 (digits_of f (n / 10)) ((b'0' + n % 10) ∷ [])
      ∙ ap (λ t. value_from t ((b'0' + n % 10) ∷ []))
          (value-digits_of f (n / 10) (omega (arith, pow-suc 10 f)))
      ∙ value_from_one (n / 10) n
      ∙ omega arith)
]

all_digits-append :
    (xs ys : List ℕ) → all_digits xs ≡ true → all_digits ys ≡ true → all_digits (xs ++ ys) ≡ true
all_digits-append [] ys h k = k
all_digits-append (x ∷ xs) ys h k = ground (arith, all_digits-append xs ys)

all_digits_one : (n : ℕ) → all_digits ((b'0' + n % 10) ∷ []) ≡ true
all_digits_one n = ground arith

all_digits-digits_of : (f n : ℕ) → all_digits (digits_of f n) ≡ true
unfolding digits_of
all_digits-digits_of zero n = refl
all_digits-digits_of (suc f) n = elim (Bool-cases (ltb n 10)) [
  | inl small ↦ rw small (all_digits_one n)
  | inr big ↦ rw big (
      all_digits-append (digits_of f (n / 10)) ((b'0' + n % 10) ∷ [])
        (all_digits-digits_of f (n / 10)) (all_digits_one n))
]

-- Leading zeros change neither the value nor the alphabet, and fill the text up to the width wanted.
value-pad : (f want : ℕ) (ds : List ℕ) → value_from 0 (pad f want ds) ≡ value_from 0 ds
unfolding pad value_from
value-pad zero want ds = refl
value-pad (suc f) want ds = ground (arith, value-pad f want (b'0' ∷ ds))

all_digits-pad :
    (f want : ℕ) (ds : List ℕ) → all_digits ds ≡ true → all_digits (pad f want ds) ≡ true
unfolding pad
all_digits-pad zero want ds h = h
all_digits-pad (suc f) want ds h = ground (arith, all_digits-pad f want (b'0' ∷ ds) h)

length-pad : (f want : ℕ) (ds : List ℕ) → want ≤ f + length ds → want ≤ length (pad f want ds)
unfolding pad
length-pad zero want ds h = omega arith
length-pad (suc f) want ds h = ground (arith, length-pad f want (b'0' ∷ ds))

take-append-drop : (n : ℕ) (xs : List ℕ) → take n xs ++ drop n xs ≡ xs
take-append-drop zero xs = refl
take-append-drop (suc n) [] = refl
take-append-drop (suc n) (x ∷ xs) = ap (λ t. x ∷ t) (take-append-drop n xs)

all_digits-take : (n : ℕ) (xs : List ℕ) → all_digits xs ≡ true → all_digits (take n xs) ≡ true
all_digits-take zero xs h = refl
all_digits-take (suc n) [] h = refl
all_digits-take (suc n) (x ∷ xs) h = ground (arith, all_digits-take n xs)

all_digits-drop : (n : ℕ) (xs : List ℕ) → all_digits xs ≡ true → all_digits (drop n xs) ≡ true
all_digits-drop zero xs h = h
all_digits-drop (suc n) [] h = refl
all_digits-drop (suc n) (x ∷ xs) h = ground (arith, all_digits-drop n xs)

length-drop : (n : ℕ) (xs : List ℕ) → length (drop n xs) ≡ length xs - n
length-drop zero xs = omega arith
length-drop (suc n) [] = omega arith
length-drop (suc n) (x ∷ xs) = omega (arith, length-drop n xs)

is_empty-take : (n : ℕ) (xs : List ℕ) → 0 < n → 0 < length xs → is_empty (take n xs) ≡ false
is_empty-take zero xs h k = absurd (omega arith)
is_empty-take (suc n) [] h k = absurd (omega arith)
is_empty-take (suc n) (x ∷ xs) h k = refl

-- The cut finds the point behind digits, and digits hold no point.
cut_dot-digits :
    (xs ys : List ℕ) → all_digits xs ≡ true → cut_dot (xs ++ (b'.' ∷ ys)) ≡ (xs, ys, true)
unfolding cut_dot
cut_dot-digits [] ys h = refl
cut_dot-digits (x ∷ xs) ys h = ground (arith, cut_dot-digits xs ys)

contains_dot-digits : (xs : List ℕ) → all_digits xs ≡ true → contains_dot xs ≡ false
unfolding contains_dot
contains_dot-digits [] h = refl
contains_dot-digits (x ∷ xs) h = ground (arith, contains_dot-digits xs)

take_sign-digits :
    (xs ys : List ℕ)
    → all_digits xs ≡ true
    → is_empty xs ≡ false
    → take_sign (xs ++ ys) ≡ (false, xs ++ ys)
unfolding take_sign
take_sign-digits [] ys h k = cc
take_sign-digits (x ∷ xs) ys h k = ground arith

digits_accepted : (b : Bool) → (not b && not (not b && true)) ≡ false
digits_accepted true = refl
digits_accepted false = refl

no_extra_zeros : (m n : ℕ) → m ≡ n → (ltb n m ≡ false) × (n - m ≡ 0)
no_extra_zeros m n h = ground arith

-- Two runs of digits, the second as long as the asset has decimals, are read as one number.
parse_parts-digits :
    (neg : Bool) (xs ys : List ℕ) (places : ℕ) (asset : Asset)
    → all_digits xs ≡ true
    → is_empty xs ≡ false
    → all_digits ys ≡ true
    → length ys ≡ places
    → parse_parts neg (xs, ys, true) places asset
      ≡ (parse_int (xs ++ ys) >>= λ u. apply_sign neg (record { asset = asset; units = u }))
unfolding parse_parts is_digits
parse_parts-digits neg xs ys places asset h e k l = simp (
  contains_dot-digits ys k,
  e,
  h,
  k,
  digits_accepted (is_empty ys),
  (no_extra_zeros (length ys) places l).0,
  (no_extra_zeros (length ys) places l).1,
  append-nil,
)

-- The sign that `format` writes is the one that `parse_decimal` reads.
take_sign-signed :
    (b : Bool) (xs ys : List ℕ)
    → all_digits xs ≡ true
    → is_empty xs ≡ false
    → take_sign (if b then b'-' ∷ (xs ++ ys) else (xs ++ ys)) ≡ (b, xs ++ ys)
unfolding take_sign
take_sign-signed true xs ys h k = refl
take_sign-signed false xs ys h k = take_sign-digits xs ys h k

is_empty-append : (xs ys : List ℕ) → is_empty xs ≡ false → is_empty (xs ++ ys) ≡ false
is_empty-append [] ys h = cc
is_empty-append (x ∷ xs) ys h = refl

is_empty-signed :
    (b : Bool) (zs : List ℕ) → is_empty zs ≡ false → is_empty (if b then b'-' ∷ zs else zs) ≡ false
is_empty-signed true zs h = refl
is_empty-signed false zs h = h

parse_decimal-signed :
    (asset : Asset) (places : ℕ) (neg : Bool) (xs ys : List ℕ)
    → decimals asset ≡ ok places
    → all_digits xs ≡ true
    → is_empty xs ≡ false
    → all_digits ys ≡ true
    → length ys ≡ places
    → parse_decimal (if neg then b'-' ∷ (xs ++ (b'.' ∷ ys)) else (xs ++ (b'.' ∷ ys))) asset
      ≡ (parse_int (xs ++ ys) >>= λ u. apply_sign neg (record { asset = asset; units = u }))
unfolding parse_decimal
parse_decimal-signed asset places neg xs ys d h e k l =
    simp
      (
        d,
        is_empty-signed neg (xs ++ (b'.' ∷ ys)) (is_empty-append xs (b'.' ∷ ys) e),
        take_sign-signed neg xs (b'.' ∷ ys) h e,
        is_empty-append xs (b'.' ∷ ys) e,
        cut_dot-digits xs ys h,
      )
      (parse_parts-digits neg xs ys places asset h e k l)

-- Reading back what `place_point` writes: the digits on both sides of the point spell the number.
parse-place_point :
    (asset : Asset) (places : ℕ) (neg : Bool) (ds : List ℕ)
    → decimals asset ≡ ok places
    → 0 < places
    → all_digits ds ≡ true
    → places < length ds
    → parse_decimal (place_point places neg ds) asset
      ≡ (parse_int ds >>= λ u. apply_sign neg (record { asset = asset; units = u }))
unfolding place_point
parse-place_point asset places neg ds d pl a l =
    let whole = length ds - places in
    let positive : ltb 0 places ≡ true = ground arith in
    rw positive (
      parse_decimal-signed asset places neg (take whole ds) (drop whole ds) d
        (all_digits-take whole ds a) (is_empty-take whole ds (omega arith) (omega arith))
        (all_digits-drop whole ds a) (omega (arith, length-drop whole ds))
      ∙ ap (λ t. parse_int t >>= λ u. apply_sign neg (record { asset = asset; units = u }))
          (take-append-drop whole ds))

decimals_pos : (a : Asset) (n : ℕ) → decimals a ≡ ok n → (0 < n) × (n ≤ 9)
unfolding decimals
decimals_pos a n h = ground arith

is_ok-validate : (a : Amount) (n : ℕ) → decimals a.asset ≡ ok n → validate a ≡ ok tt
unfolding validate decimals
is_ok-validate a n h = ground arith

magnitude-lt : (u : ℤ) → IsInt64 u → magnitude u < 10 ^ 20
magnitude-lt (pos n) h = omega arith
magnitude-lt (negsuc n) h = omega arith

-- The units that the sign and the digits of an int64 value give back.
apply_sign-magnitude :
    (a : Asset) (n : ℕ) (u : ℤ)
    → decimals a ≡ ok n
    → IsInt64 u
    → (parse_int_value (magnitude u) >>= λ v.
        apply_sign (is_neg u) (record { asset = a; units = v }))
      ≡ (if is_min u then err overflow else ok (record { asset = a; units = u }))
unfolding apply_sign negate wrap64 neg
apply_sign-magnitude a n (pos m) d h = ground arith
apply_sign-magnitude a n (negsuc m) d h =
    ground (arith, is_ok-validate (record { asset = a; units = pos (suc m) }) n d)

-- Parsing what Format prints gives the amount back, at every known asset and int64 amount of units
-- but one: the text of math.MinInt64 is refused with ErrOverflow.
pub parse_decimal-format :
    (a : Amount) (n : ℕ)
    → decimals a.asset ≡ ok n
    → IsInt64 a.units
    → (format a >>= λ text. parse_decimal text a.asset)
      ≡ (if is_min a.units then err overflow else ok a)
unfolding format parse_int
parse_decimal-format a n d h =
    let ds = digits_of 20 (magnitude a.units) in
    let padded = pad (n + 1) (n + 1) ds in
    let bounds = decimals_pos a.asset n d in
    let spelled = all_digits-digits_of 20 (magnitude a.units) in
    simp (is_ok-validate a n d, d)
      (parse-place_point a.asset n (is_neg a.units) padded d bounds.0
          (all_digits-pad (n + 1) (n + 1) ds spelled) (omega (arith, length-pad (n + 1) (n + 1) ds))
        ∙ ap
            (λ t. parse_int_value t >>= λ u.
              apply_sign (is_neg a.units) (record { asset = a.asset; units = u }))
            (value-pad (n + 1) (n + 1) ds
              ∙ value-digits_of 20 (magnitude a.units) (magnitude-lt a.units h))
        ∙ apply_sign-magnitude a.asset n a.units d h)
