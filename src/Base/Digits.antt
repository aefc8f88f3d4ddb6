-- ===== src/Base/Digits.antt =====
-- Numbers in text, as Go's `strconv.Itoa` and the verbs %d and %08x print them.

use Prim.Native.Nat.{ℕ, zero, suc, ◌+◌, ◌-◌, ◌/◌, ◌%◌}
use mathlib.Core.Path.{◌≡◌, refl}
use mathlib.Core.List.{List, [], ◌∷◌, ◌++◌, map, reverse}
use codex_model_tester.Base.Tests.{◌==◌, ltb, if◌then◌else◌}
use codex_model_tester.Base.Lists.{length}
use codex_model_tester.Base.Strings.{Str, bytes}

-- The digits of `n`, the least significant first. The fuel is above `n`.
unfoldable pub digits_rev : ℕ → ℕ → ℕ → List ℕ
digits_rev base zero n = []
digits_rev base (suc fuel) n =
    let rest = digits_rev base fuel (n / base) in
    if n / base == 0 then n % base ∷ [] else n % base ∷ rest

abbrev pub digit_char : ℕ → ℕ
digit_char d = if ltb d 10 then 48 + d else 87 + d

-- The text of `n` in reverse.
unfoldable pub text_rev : ℕ → ℕ → Str
unfolding digits_rev
text_rev base n = map digit_char (digits_rev base (suc n) n)

unfoldable pub itoa : ℕ → Str
unfolding text_rev
itoa n = reverse (text_rev 10 n)

-- Zeros that bring a text up to `width`.
pub pad_zero : ℕ → Str
pad_zero zero = []
pad_zero (suc n) = b'0' ∷ pad_zero n

unfoldable pub hex8 : ℕ → Str
unfolding text_rev pad_zero
hex8 n = pad_zero (8 - length (text_rev 16 n)) ++ reverse (text_rev 16 n)

itoa_test : itoa 1045 ≡ bytes "1045"
unfolding itoa
itoa_test = refl

hex8_test : hex8 0x2af ≡ bytes "000002af"
unfolding hex8
hex8_test = refl

itoa_zero : itoa 0 ≡ bytes "0"
unfolding itoa
itoa_zero = refl
