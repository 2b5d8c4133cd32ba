-- ===== src/Base/Decimal.antt =====
-- strconv.ParseInt(value, 10, 32) and strconv.Atoi over the bytes of a text.
use Prim.Native.Nat.{ℕ, zero, suc, ◌+◌, ◌-◌, ◌*◌, ◌/◌, ◌%◌}
use Prim.Native.Char.{code}
use Prim.Native.String.{String, slice, ◌++◌}
use mathlib.Core.Path.{◌≡◌, refl}
use mathlib.Core.Bool.{◌&&◌}
use mathlib.Core.Option.{Option, none, some}
use mathlib.Core.List.{List, [], ◌∷◌}
use matrixone_operator.Base.Tests.{leb, ltb, ◌==◌, if◌then◌else◌}
use matrixone_operator.Base.Int.{ℤ, pos, negsuc, sub_ℕ}

codes : String → List ℕ
codes String.[] = []
codes (String.◌∷◌ c s) = code c ∷ codes s

digits_value : ℕ → List ℕ → Option ℕ
digits_value acc [] = some acc
digits_value acc (c ∷ cs) =
    let rest = digits_value (acc * 10 + (c - b'0')) cs in
    if leb b'0' c && leb c b'9' then rest else none

parse_uint : List ℕ → Option ℕ
parse_uint [] = none
parse_uint (c ∷ cs) = digits_value 0 (c ∷ cs)

-- The two range checks of a signed result: below `cutoff`, and down to its negative.
in_range_pos : ℕ → Option ℕ → Option ℤ
in_range_pos cutoff none = none
in_range_pos cutoff (some n) = if ltb n cutoff then some (pos n) else none

in_range_neg : ℕ → Option ℕ → Option ℤ
in_range_neg cutoff none = none
in_range_neg cutoff (some n) = if leb n cutoff then some (sub_ℕ 0 n) else none

parse_signed : ℕ → List ℕ → Option ℤ
parse_signed cutoff [] = none
parse_signed cutoff (c ∷ cs) =
    if c == b'-'
    then in_range_neg cutoff (parse_uint cs)
    else if c == b'+'
    then in_range_pos cutoff (parse_uint cs)
    else in_range_pos cutoff (parse_uint (c ∷ cs))

unfoldable pub parse_int32 : String → Option ℤ
unfolding parse_signed in_range_neg in_range_pos parse_uint digits_value codes
parse_int32 s = parse_signed 2147483648 (codes s)

-- strconv.Atoi
unfoldable pub parse_int64 : String → Option ℤ
unfolding parse_signed in_range_neg in_range_pos parse_uint digits_value codes
parse_int64 s = parse_signed 9223372036854775808 (codes s)

parse_negative : parse_int32 "-12" ≡ some (negsuc 11)
unfolding parse_int32
parse_negative = refl

parse_too_large : parse_int32 "2147483648" ≡ none
unfolding parse_int32
parse_too_large = refl

-- strconv.Itoa. The first argument is a bound on the number of digits.
digits_text : ℕ → ℕ → String
digits_text zero n = ""
digits_text (suc fuel) n =
    let front = digits_text fuel (n / 10) in
    let last = slice "0123456789" (n % 10) (n % 10 + 1) in
    if n == n % 10 then last else front ++ last

-- A number has at most as many digits as its value and one.
unfoldable pub show_int : ℤ → String
unfolding digits_text
show_int (pos n) = digits_text (suc n) n
show_int (negsuc n) = "-" ++ digits_text (suc (suc n)) (suc n)

show_zero : show_int (pos 0) ≡ "0"
unfolding show_int
show_zero = refl

show_count : show_int (pos 1207) ≡ "1207"
unfolding show_int
show_count = refl

show_negative : show_int (negsuc 11) ≡ "-12"
unfolding show_int
show_negative = refl
