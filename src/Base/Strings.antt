-- ===== src/Base/Strings.antt =====
-- Go strings as lists of bytes, with the functions of Go's package `strings` that the program calls.
-- `trim_space` is `strings.TrimSpace`: it takes off, at both ends, the UTF-8 encodings of the code
-- points that `unicode.IsSpace` accepts.
use Prim.Native.Nat.{ℕ, zero, suc, ◌+◌}
use Prim.Native.Char.{code}
use Prim.Native.String.{String}
use mathlib.Core.Path.{◌≡◌, refl}
use mathlib.Core.Logic.{◌↔◌}
use mathlib.Core.Bool.{Bool, true, false, ◌&&◌, ◌||◌}
use mathlib.Core.Option.{Option, none, some}
use mathlib.Core.List.{List, [], ◌∷◌, ◌++◌, map, reverse}
use native.Mathlib.Omega.{arith}
use codex_model_tester.Base.Tests.{◌==◌, leb, ltb, if◌then◌else◌}

abbrev pub Str : Type 0
Str = List ℕ

-- The bytes of an ASCII literal.
abbrev pub bytes : String → Str
bytes String.[] = []
bytes (String.◌∷◌ c s) = code c ∷ bytes s

unfoldable pub str_eq : Str → Str → Bool
str_eq [] [] = true
str_eq [] (d ∷ t) = false
str_eq (c ∷ s) [] = false
str_eq (c ∷ s) (d ∷ t) = c == d && str_eq s t

pub str_eq_refl : (s : Str) → str_eq s s ≡ true
unfolding str_eq
str_eq_refl [] = refl
str_eq_refl (c ∷ s) = ground (arith, str_eq_refl s)

pub str_eq_sound : (s t : Str) → str_eq s t ≡ true → s ≡ t
unfolding str_eq
str_eq_sound [] [] h = refl
str_eq_sound [] (d ∷ t) h = cc
str_eq_sound (c ∷ s) [] h = cc
str_eq_sound (c ∷ s) (d ∷ t) h = ground (arith, str_eq_sound s t)

pub str_eq_iff : (s t : Str) → (str_eq s t ≡ true) ↔ (s ≡ t)
str_eq_iff s t = (str_eq_sound s t, λ e. rw e (str_eq_refl t))

-- `s == ""`.
abbrev pub is_empty : Str → Bool
is_empty [] = true
is_empty (c ∷ s) = false

-- `strings.Compare(s, t) < 0`: the order of the bytes.
unfoldable pub str_lt : Str → Str → Bool
str_lt s [] = false
str_lt [] (d ∷ t) = true
str_lt (c ∷ s) (d ∷ t) = if c == d then str_lt s t else ltb c d

-- `cmp.Or(s, t)` and `jsonutil.FirstNonEmpty(s, t)` on two strings.
abbrev pub or_str : Str → Str → Str
or_str [] t = t
or_str (c ∷ s) t = c ∷ s

-- `unicode.IsSpace` on one byte: tab, line feed, vertical tab, form feed, carriage return, space.
abbrev ascii_space : ℕ → Bool
ascii_space c = (leb 9 c && leb c 13) || c == 32

-- U+0085 and U+00A0.
abbrev space2 : ℕ → ℕ → Bool
space2 a b = a == 0xc2 && (b == 0x85 || b == 0xa0)

-- U+1680, U+2000 to U+200A, U+2028, U+2029, U+202F, U+205F and U+3000.
abbrev space3 : ℕ → ℕ → ℕ → Bool
space3 a b c =
    (a == 0xe1 && b == 0x9a && c == 0x80)
    || (a == 0xe2 && b == 0x80 && (leb 0x80 c && leb c 0x8a || c == 0xa8 || c == 0xa9 || c == 0xaf))
    || (a == 0xe2 && b == 0x81 && c == 0x9f)
    || (a == 0xe3 && b == 0x80 && c == 0x80)

-- How many bytes the space at the front takes; `back` reads the bytes in reverse order.
abbrev space_width : Bool → Str → ℕ
space_width back [] = 0
space_width back (a ∷ []) = if ascii_space a then 1 else 0
space_width back (a ∷ b ∷ []) =
    if ascii_space a then 1 else if (if back then space2 b a else space2 a b) then 2 else 0
space_width back (a ∷ b ∷ c ∷ s) =
    if ascii_space a
    then 1
    else if (if back then space2 b a else space2 a b)
    then 2
    else if (if back then space3 c b a else space3 a b c)
    then 3
    else 0

-- Drop spaces at the front; the first argument is what is left of the space under way.
trim_front : Bool → ℕ → Str → Str
trim_front back n [] = []
trim_front back (suc n) (c ∷ s) = trim_front back n s
trim_front back zero (c ∷ s) = elim (space_width back (c ∷ s)) [
  | zero ↦ c ∷ s
  | suc n ↦ trim_front back n s
]

unfoldable pub trim_space : Str → Str
unfolding trim_front
trim_space s = reverse (trim_front true 0 (reverse (trim_front false 0 s)))

trim_space_ascii : trim_space (bytes "  a b \t") ≡ bytes "a b"
unfolding trim_space
trim_space_ascii = refl

trim_space_unicode :
    trim_space (0xe3 ∷ 0x80 ∷ 0x80 ∷ 0x61 ∷ 0xc2 ∷ 0xa0 ∷ 0xe2 ∷ 0x80 ∷ 0x8a ∷ []) ≡ bytes "a"
unfolding trim_space
trim_space_unicode = refl

-- `strings.HasPrefix(s, prefix)`
unfoldable pub has_prefix : Str → Str → Bool
has_prefix s [] = true
has_prefix [] (d ∷ t) = false
has_prefix (c ∷ s) (d ∷ t) = c == d && has_prefix s t

-- `strings.LastIndex(s, sep)` for a text `sep` that is not empty, where `none` is -1.
unfoldable pub last_index : Str → Str → Option ℕ
unfolding has_prefix
last_index [] sep = none
last_index (c ∷ s) sep = elim (last_index s sep) [
  | some i ↦ some (suc i)
  | none ↦ if has_prefix (c ∷ s) sep then some 0 else none
]

-- `strings.ToLower` as far as the ASCII letters of its result: `İ`, the bytes c4 b0, gives an `i` too,
-- and the Kelvin sign, the bytes e2 84 aa, a `k`. `skip` bytes at the front are the rest of such a letter.
unfoldable pub lower_from : ℕ → Str → Str
lower_from skip [] = []
lower_from (suc skip) (b ∷ s) = lower_from skip s
lower_from zero (b ∷ s) =
    let dotted = b == 0xc4 && has_prefix s (0xb0 ∷ []) in
    let kelvin = b == 0xe2 && has_prefix s (0x84 ∷ 0xaa ∷ []) in
    let rest = lower_from (if dotted then 1 else if kelvin then 2 else 0) s in
    (if dotted then 105 else if kelvin then 107 else if leb 65 b && leb b 90 then b + 32 else b)
    ∷ rest

unfoldable pub to_lower : Str → Str
unfolding lower_from
to_lower s = lower_from 0 s

-- `strings.Contains`
unfoldable pub contains_str : Str → Str → Bool
contains_str [] sub = is_empty sub
contains_str (b ∷ s) sub = has_prefix (b ∷ s) sub || contains_str s sub

abbrev pub fold_byte : ℕ → ℕ
fold_byte b = if leb 65 b && leb b 90 then b + 32 else b

-- `strings.EqualFold(s, t)` for a `t` of lower-case ASCII letters other than k and s.
unfoldable pub fold_eq : Str → Str → Bool
fold_eq s t = str_eq (map fold_byte s) t

-- `strings.Join`
unfoldable pub join : List Str → Str → Str
join [] sep = []
join (s ∷ []) sep = s
join (s ∷ t ∷ rest) sep = s ++ (sep ++ join (t ∷ rest) sep)
