-- ===== src/Base/Text.antt =====
-- Texts: equality tests, and the bytes of a text.
use Prim.Native.Nat.{ℕ, zero, suc, ◌+◌, ◌/◌, ◌%◌}
use convert_usdt_from_trc.Base.Tests.{ltb, ◌==◌, if◌then◌else◌}
use Prim.Native.String.{◌++◌ as append}
use Prim.Native.Char.{code}
use Prim.Native.String.{String}
use mathlib.Core.List.{List, [], ◌∷◌}
pub use Prim.Native.String.{String}
pub use text.Mathlib.Text.{◌==◌ as str_eq}
pub use text.Mathlib.TextEquality.{eq_iff}
pub use text.Mathlib.TextPositions.{eq_refl}

-- The bytes of an ASCII text.
abbrev pub codes : String → List ℕ
codes String.[] = []
codes (String.◌∷◌ c s) = code c ∷ codes s

-- How many bytes a character takes in UTF-8.
abbrev utf8_width : ℕ → ℕ
utf8_width c = if ltb c 128 then 1 else if ltb c 2048 then 2 else if ltb c 65536 then 3 else 4

abbrev bytes : String → ℕ
bytes String.[] = 0
bytes (String.◌∷◌ c s) = utf8_width (code c) + bytes s

-- `len` of a string, which counts its bytes.
abbrev pub len : String → ℕ
len s = bytes s

abbrev digit_text : ℕ → String
digit_text n =
    if n == 0
    then "0"
    else if n == 1
    then "1"
    else if n == 2
    then "2"
    else if n == 3
    then "3"
    else if n == 4
    then "4"
    else if n == 5
    then "5"
    else if n == 6
    then "6"
    else if n == 7
    then "7"
    else if n == 8
    then "8"
    else "9"

-- The decimal digits of a number, on fuel: as many steps as there are digits.
abbrev print_digits : ℕ → ℕ → String
print_digits zero n = ""
print_digits (suc f) n =
    let rest = print_digits f (n / 10) in
    if ltb n 10 then digit_text n else append rest (digit_text (n % 10))

-- `%d` of a non-negative int64, which has at most 19 digits.
unfoldable pub print_decimal : ℕ → String
print_decimal n = print_digits 19 n
