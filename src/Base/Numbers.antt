-- ===== src/Base/Numbers.antt =====
-- Go's `int` and `float64`, and the texts of numbers, as far as the program converts them.
use Prim.Native.Nat.{ℕ, zero, suc, ◌+◌, ◌-◌, ◌*◌, ◌/◌, ◌%◌, ◌^◌}
use mathlib.Core.Path.{◌≡◌, refl}
use mathlib.Core.Bool.{Bool, true, false, ◌&&◌, ◌||◌}
use mathlib.Core.Option.{Option, none, some}
use mathlib.Core.List.{[], ◌∷◌}
use codex_model_tester.Base.Tests.{◌==◌, ltb, leb, if◌then◌else◌}
use codex_model_tester.Base.Strings.{Str, bytes}

-- A Go `int` or `int64`.
pub data ℤ : Type 0 where
  pos : ℕ → ℤ
  negsuc : ℕ → ℤ

-- A `float64`: NaN, or its place in the order of the other values, which is the value's bit pattern
-- read as sign and magnitude and moved up by 2^63.
pub data Float64 : Type 0 where
  nan : Float64
  num : ℕ → Float64

abbrev pub float_zero : Float64
float_zero = num (2 ^ 63)

-- `a < b`, false as soon as one side is NaN.
abbrev pub float_lt : Float64 → Float64 → Bool
float_lt nan b = false
float_lt (num a) nan = false
float_lt (num a) (num b) = ltb a b

-- What a conversion from a float gives outside of the range of `int64`: on amd64, -2^63.
abbrev pub min_int : ℤ
min_int = negsuc (2 ^ 63 - 1)

-- The bits of a 64-bit integer, and back.
unfoldable pub residue : ℤ → ℕ
residue (pos n) = n % 2 ^ 64
residue (negsuc n) = 2 ^ 64 - 1 - n % 2 ^ 64

unfoldable pub signed : ℕ → ℤ
signed r = if ltb r (2 ^ 63) then pos r else negsuc (2 ^ 64 - 1 - r)

-- `a + b` on `int64`, which wraps.
unfoldable pub add_int : ℤ → ℤ → ℤ
unfolding residue signed
add_int a b = signed ((residue a + residue b) % 2 ^ 64)

-- A sign and a magnitude as an `int64`, `none` out of range.
unfoldable pub checked : Bool → ℕ → Option ℤ
checked false n = if ltb n (2 ^ 63) then some (pos n) else none
checked true n =
    if n == 0 then some (pos 0) else if leb n (2 ^ 63) then some (negsuc (n - 1)) else none

abbrev or_min : Option ℤ → ℤ
or_min none = min_int
or_min (some i) = i

-- The whole part of the magnitude with these bits, `2 ^ 64` for those at least as great.
unfoldable pub whole_part : ℕ → ℕ
whole_part bits =
    if leb (1087 * 2 ^ 52) bits
    then 2 ^ 64
    else if leb (1075 * 2 ^ 52) bits
    then (2 ^ 52 + bits % 2 ^ 52) * 2 ^ (bits / 2 ^ 52 - 1075)
    else if leb (2 ^ 52) bits
    then (2 ^ 52 + bits % 2 ^ 52) / 2 ^ (1075 - bits / 2 ^ 52)
    else 0

-- `int64(f)`
unfoldable pub truncate : Float64 → ℤ
unfolding checked whole_part
truncate nan = min_int
truncate (num p) =
    if leb (2 ^ 63) p
    then or_min (checked false (whole_part (p - 2 ^ 63)))
    else or_min (checked true (whole_part (2 ^ 63 - p)))

-- How many binary digits a number below `2 ^ fuel` has.
unfoldable pub bit_length : ℕ → ℕ → ℕ
bit_length zero n = 0
bit_length (suc fuel) n = elim (n == 0) [ true ↦ 0 | false ↦ suc (bit_length fuel (n / 2)) ]

-- The quotient rounded to the nearest whole number, a half to the even one; `b` is not 0.
unfoldable pub round_half_even : ℕ → ℕ → ℕ
round_half_even a b =
    if ltb (2 * (a % b)) b || (2 * (a % b) == b && (a / b) % 2 == 0) then a / b else a / b + 1

-- The quotient with 53 binary digits, when `t` is how many its whole part has.
unfoldable pub nearest_at : ℕ → ℕ → ℕ → ℕ
unfolding round_half_even
nearest_at t a b =
    if leb t 53
    then round_half_even (a * 2 ^ (53 - t)) b / 2 ^ (53 - t)
    else round_half_even a (b * 2 ^ (t - 53)) * 2 ^ (t - 53)

-- The whole part of the `float64` nearest to `a / b`, `2 ^ 64` for quotients at least as great.
unfoldable pub nearest : ℕ → ℕ → ℕ
unfolding bit_length nearest_at
nearest a b = if leb (2 ^ 64) (a / b) then 2 ^ 64 else nearest_at (bit_length 64 (a / b)) a b

-- `int64(float64(i))`
unfoldable pub through_float : ℤ → ℤ
unfolding nearest checked
through_float (pos n) = or_min (checked false (nearest n 1))
through_float (negsuc n) = or_min (checked true (nearest (suc n) 1))

abbrev pub is_digit : ℕ → Bool
is_digit c = leb 48 c && leb c 57

-- The digits at the front: their value and count after those read, and what follows.
unfoldable pub read_digits : ℕ → ℕ → Str → ℕ × ℕ × Str
read_digits value count [] = (value, count, [])
read_digits value count (c ∷ s) =
    let rest = read_digits (10 * value + (c - 48)) (suc count) s in
    if is_digit c then rest else (value, count, c ∷ s)

-- Digits to the end of the text, at least one.
abbrev all_digits : Bool → ℕ × ℕ × Str → Option ℤ
all_digits negative (value, zero, rest) = none
all_digits negative (value, suc n, []) = checked negative value
all_digits negative (value, suc n, c ∷ rest) = none

-- `strconv.ParseInt(s, 10, 64)` and `strconv.Atoi(s)`, `none` for an error.
unfoldable pub parse_int : Str → Option ℤ
unfolding read_digits checked
parse_int [] = none
parse_int (c ∷ s) =
    if c == b'-'
    then all_digits true (read_digits 0 0 s)
    else if c == b'+'
    then all_digits false (read_digits 0 0 s)
    else all_digits false (read_digits 0 0 (c ∷ s))

-- A JSON number's exponent: whether it is negative, and its magnitude.
unfoldable pub read_exponent : Str → Bool × ℕ
unfolding read_digits
read_exponent [] = (false, 0)
read_exponent (e ∷ []) = (false, 0)
read_exponent (e ∷ c ∷ s) =
    if c == b'-'
    then (true, (read_digits 0 0 s).0)
    else if c == b'+'
    then (false, (read_digits 0 0 s).0)
    else (false, (read_digits 0 0 (c ∷ s)).0)

-- `decimals` of the digits of `value` stand after the point.
unfoldable pub scale : ℕ → ℕ → Bool × ℕ → ℕ
unfolding nearest
scale value decimals (true, x) = nearest value (10 ^ (decimals + x))
scale value decimals (false, x) = nearest (value * 10 ^ x) (10 ^ decimals)

-- After the whole part.
unfoldable pub read_fraction : ℕ → Str → ℕ
unfolding read_digits read_exponent scale
read_fraction value [] = scale value 0 (false, 0)
read_fraction value (c ∷ s) =
    let (digits, count, rest) = read_digits value 0 s in
    if c == b'.'
    then scale digits count (read_exponent rest)
    else scale value 0 (read_exponent (c ∷ s))

unfoldable pub read_magnitude : Str → ℕ
unfolding read_digits read_fraction
read_magnitude s = let (value, count, rest) = read_digits 0 0 s in read_fraction value rest

-- `int64` of the `float64` that `strconv.ParseFloat` reads in the text of a JSON number.
unfoldable pub parse_float : Str → ℤ
unfolding read_magnitude checked
parse_float [] = pos 0
parse_float (c ∷ s) =
    if c == b'-'
    then or_min (checked true (read_magnitude s))
    else or_min (checked false (read_magnitude (c ∷ s)))

truncate_test : truncate (num (2 ^ 63 + 0x4009_21fb_5444_2d18)) ≡ pos 3
unfolding truncate
truncate_test = refl

parse_int_test : parse_int (bytes "-9223372036854775808") ≡ some min_int
unfolding parse_int
parse_int_test = refl

parse_float_test : parse_float (bytes "-12.75e1") ≡ negsuc 126
unfolding parse_float
parse_float_test = refl

parse_float_odd : parse_float (bytes "9007199254740993") ≡ pos 9007199254740992
unfolding parse_float
parse_float_odd = refl
