-- ===== src/Accounts/Rotation.antt =====
-- internal/accounts/rotation.go: how the next account is chosen among the candidates.
pub mod Sorting
pub mod Picks
pub mod Select
pub mod Fair
pub mod Cycle
use Prim.Native.Nat.{◌%◌}
use codex_model_tester.Base.{
  ℕ, suc, ◌+◌, ◌-◌, ◌^◌, Bool, true, false, Option, none, some, List, [], ◌∷◌, reverse,
  if◌then◌else◌, ltb, ◌==◌, Str, str_lt, length, get_elem?, keep, is_some,
}
use codex_model_tester.Accounts.Types.{Time, Float64, float_lt, float_zero, QuotaSnapshot, Record}

-- The result of a Go comparison function.
pub data Sign : Type 0 where
  below same above : Sign

-- `cmp.Or(a, b)` on comparisons.
abbrev pub or_sign : Sign → Sign → Sign
or_sign same b = b
or_sign below b = below
or_sign above b = above

-- `time.Time.Compare`
abbrev pub time_compare : Time → Time → Sign
time_compare t u = if ltb t u then below else if ltb u t then above else same

-- `strings.Compare`
abbrev pub str_compare : Str → Str → Sign
str_compare s t = if str_lt s t then below else if str_lt t s then above else same

abbrev pub is_below : Sign → Bool
is_below below = true
is_below _ = false

abbrev pub is_same : Sign → Bool
is_same same = true
is_same _ = false

-- `slices.SortFunc` on a short slice (at most 12 elements) is this insertion sort: each element goes
-- from the right past the larger ones. The sorted part is kept in reverse.
module _ {ℓ} {A : Type ℓ} (compare : A → A → Sign) where
  unfoldable pub insert_back : A → List A → List A
  insert_back x [] = x ∷ []
  insert_back x (y ∷ ys) =
      let rest = insert_back x ys in if is_below (compare x y) then y ∷ rest else x ∷ y ∷ ys

  unfoldable pub sort_back : List A → List A → List A
  sort_back done [] = done
  sort_back done (x ∷ xs) = sort_back (insert_back x done) xs

  unfoldable pub sort_func : List A → List A
  unfolding insert_back sort_back
  sort_func xs = reverse (sort_back [] xs)

abbrev pub by_id : Record → Record → Sign
by_id a b = str_compare a.id b.id

-- The index is an `int`, kept as its bit pattern. `index % n` of a negative index is negative or 0.
unfoldable pub signed_rem : ℕ → ℕ → Option ℕ
signed_rem index n =
    if ltb index (2 ^ 63)
    then some (index % n)
    else if (2 ^ 64 - index) % n == 0
    then some 0
    else none

-- `*index = *index + 1`
abbrev pub next_index : ℕ → ℕ
next_index index = (index + 1) % 2 ^ 64

-- `candidates[*index%n]`, where `none` is the panic of an index out of range.
unfoldable pub pick : List Record → ℕ → ℕ → Option Record
unfolding signed_rem
pick candidates index n = elim (signed_rem index n) [
  | none ↦ none
  | some i ↦ get_elem? candidates i
]

-- The record and the next index; `none` is a panic, also that of `index % 0`.
unfoldable pub select_round_robin : List Record → ℕ → Option (Record × ℕ)
unfolding sort_func pick
select_round_robin candidates index =
    elim (pick (sort_func by_id candidates) index (length candidates)) [
      | none ↦ none
      | some r ↦ some (r, next_index index)
    ]

unfoldable pub primary_percent : Option QuotaSnapshot → Float64
primary_percent none = float_zero
primary_percent (some q) = elim q.rate_limit.used_percent [ none ↦ float_zero | some p ↦ p ]

-- `secondaryPercent` and its flag.
unfoldable pub secondary_percent : Option QuotaSnapshot → Option Float64
secondary_percent none = none
secondary_percent (some q) = elim q.secondary_rate_limit [ none ↦ none | some w ↦ w.used_percent ]

-- `primaryReset` and its flag.
unfoldable pub primary_reset : Option QuotaSnapshot → Option Time
primary_reset none = none
primary_reset (some q) = q.rate_limit.reset_at

-- `case a < b: return -1; case a > b: return 1`, else go on.
abbrev pub float_compare : Float64 → Float64 → Sign
float_compare a b = if float_lt a b then below else if float_lt b a then above else same

-- Compared only where both values are there.
abbrev pub compare_both {ℓ} : {A : Type ℓ} → (A → A → Sign) → Option A → Option A → Sign
compare_both f none b = same
compare_both f (some a) none = same
compare_both f (some a) (some b) = f a b

unfoldable pub compare_least_used_quota : Record → Record → Sign
unfolding primary_percent secondary_percent primary_reset
compare_least_used_quota a b =
    or_sign (float_compare (primary_percent a.cached_quota) (primary_percent b.cached_quota)) (
      or_sign
        (compare_both float_compare (secondary_percent a.cached_quota)
          (secondary_percent b.cached_quota))
        (compare_both time_compare (primary_reset a.cached_quota) (primary_reset b.cached_quota)))

abbrev pub by_least_used : Record → Record → Sign
by_least_used a b = or_sign (compare_least_used_quota a b) (by_id a b)

-- `CachedQuota != nil && CachedQuota.RateLimit.UsedPercent != nil`
abbrev pub has_quota : Record → Bool
has_quota r = elim r.cached_quota [ none ↦ false | some q ↦ is_some q.rate_limit.used_percent ]

-- The loop that counts the elements tied with the first one.
unfoldable pub tied_count : Record → List Record → ℕ
unfolding compare_least_used_quota
tied_count first [] = 0
tied_count first (x ∷ xs) =
    let rest = suc (tied_count first xs) in
    if is_same (compare_least_used_quota first x) then rest else 0

unfoldable pub select_least_used : List Record → ℕ → Option (Record × ℕ)
unfolding select_round_robin sort_func tied_count pick
select_least_used candidates index = elim (sort_func by_least_used (keep has_quota candidates)) [
  | [] ↦ select_round_robin candidates index
  | first ∷ rest ↦ elim (pick (first ∷ rest) index (suc (tied_count first rest))) [
    | none ↦ none
    | some r ↦ some (r, next_index index)
  ]
]
