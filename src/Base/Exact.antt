-- ===== src/Base/Exact.antt =====
-- Whole numbers below 2^53 go through a `float64` unchanged.
use native.Mathlib.Nat.{mul-div_cancel, mod-one, div-one, pow-suc}
use Prim.Native.Nat.{ℕ, zero, suc, ◌-◌, ◌*◌, ◌/◌, ◌^◌, ◌≤◌, ◌<◌}
use mathlib.Core.Path.{◌≡◌}
use native.Mathlib.Omega.{arith}
use mathlib.Core.Bool.{true, false}
use codex_model_tester.Base.Tests.{leb}
use codex_model_tester.Base.Numbers.{
  ℤ, pos, negsuc, bit_length, round_half_even, nearest, nearest_at, checked, through_float,
}

pow_pos : (k : ℕ) → 0 < 2 ^ k
pow_pos zero = omega arith
pow_pos (suc k) = rw (pow-suc 2 k) (omega (arith, pow_pos k))

bit_length-le : (fuel k n : ℕ) → n < 2 ^ k → bit_length fuel n ≤ k
unfolding bit_length
bit_length-le zero k n h = omega arith
bit_length-le (suc f) zero n h = ground arith
bit_length-le (suc f) (suc k) n h =
    let half : n / 2 < 2 ^ k = omega (arith, pow-suc 2 k) in
    ground (arith, bit_length-le f k (n / 2) half)

round-one : (a : ℕ) → round_half_even a 1 ≡ a
unfolding round_half_even
round-one a = ground (arith, mod-one a, div-one a)

nearest_at-id : (t n : ℕ) → t ≤ 53 → nearest_at t n 1 ≡ n
unfolding nearest_at
nearest_at-id t n h =
    let short : leb t 53 ≡ true = ground arith in
    let p = 2 ^ (53 - t) in rw short (rw (round-one (n * p)) (mul-div_cancel n (pow_pos (53 - t))))

small : (n : ℕ) → n < 2 ^ 53 → leb (2 ^ 64) (n / 1) ≡ false
small n h = rw (div-one n) (ground arith)

nearest-id : (n : ℕ) → n < 2 ^ 53 → nearest n 1 ≡ n
unfolding nearest
nearest-id n h =
    rw (small n h)
      (nearest_at-id (bit_length 64 (n / 1)) n (rw (div-one n) (bit_length-le 64 53 n h)))

-- A magnitude below 2^53.
abbrev pub IsSmall : ℤ → Type 0
IsSmall (pos n) = n < 2 ^ 53
IsSmall (negsuc n) = suc n < 2 ^ 53

-- An integer below 2^53 in magnitude is a float of the same value.
pub through_float-id : (i : ℤ) → IsSmall i → through_float i ≡ i
unfolding through_float checked
through_float-id (pos n) h = rw (nearest-id n h) (ground arith)
through_float-id (negsuc n) h = rw (nearest-id (suc n) h) (ground arith)
