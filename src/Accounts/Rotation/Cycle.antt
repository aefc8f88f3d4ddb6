-- ===== src/Accounts/Rotation/Cycle.antt =====
-- The comparison that internal/accounts/rotation.go hands to `slices.SortFunc`, as an order.
use codex_model_tester.Base.{◌≡◌, true, none, some, arith, str_lt}
use codex_model_tester.Accounts.Types.{Float64, float_lt, Record}
use codex_model_tester.Accounts.Rotation.{
  below, primary_percent, secondary_percent, primary_reset, compare_least_used_quota, by_least_used,
}

-- Three records with one primary percentage and no reset time, ordered by their IDs, of which
-- the second has no secondary percentage and the third has a lower one than the first, are each
-- sorted before the next, and the third before the first: the comparison is not a strict weak
-- order.
pub by_least_used-cycle :
    (a b c : Record) (p s t : Float64)
    → primary_percent a.cached_quota ≡ p
    → primary_percent b.cached_quota ≡ p
    → primary_percent c.cached_quota ≡ p
    → primary_reset a.cached_quota ≡ none
    → primary_reset b.cached_quota ≡ none
    → primary_reset c.cached_quota ≡ none
    → secondary_percent a.cached_quota ≡ some s
    → secondary_percent b.cached_quota ≡ none
    → secondary_percent c.cached_quota ≡ some t
    → float_lt t s ≡ true
    → str_lt a.id b.id ≡ true
    → str_lt b.id c.id ≡ true
    → (by_least_used a b ≡ below) × (by_least_used b c ≡ below) × (by_least_used c a ≡ below)
unfolding compare_least_used_quota
by_least_used-cycle a b c p s t pa pb pc ra rb rc sa sb sc lt ab bc =
    (ground arith, ground arith, ground arith)
