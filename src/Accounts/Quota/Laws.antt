-- ===== src/Accounts/Quota/Laws.antt =====
-- Laws of the quota windows of internal/accounts/rotation.go and quota_reset.go.
use codex_model_tester.Base.{◌≡◌, refl, none, some, arith, Option}
use codex_model_tester.Accounts.Types.{Time, RateLimitWindow, QuotaSnapshot}
use codex_model_tester.Accounts.Quota.{
  normalize_rate_limit_window, normalize_rate_limit_window_ptr, normalize_quota_snapshot,
  window_availability_blocked, window_limit_active, quota_blocks_general_routing,
}

window_blocks_same :
    (w : RateLimitWindow) (now : Time)
    → let w' = (normalize_rate_limit_window w now).0 in
      (window_availability_blocked (some w') now ≡ window_availability_blocked (some w) now)
      × (window_limit_active (some w') now ≡ window_limit_active (some w) now)
unfolding normalize_rate_limit_window window_availability_blocked window_limit_active
window_blocks_same w now = (ground arith, ground arith)

window_ptr_blocks_same :
    (w : Option RateLimitWindow) (now : Time)
    → window_limit_active (normalize_rate_limit_window_ptr w now).0 now ≡ window_limit_active w now
unfolding normalize_rate_limit_window_ptr
window_ptr_blocks_same none now = refl
window_ptr_blocks_same (some w) now = (window_blocks_same w now).1

-- Opening the windows whose reset has passed does not change whether the quota blocks.
pub normalize-blocks :
    (q : QuotaSnapshot) (now : Time)
    → quota_blocks_general_routing (some (normalize_quota_snapshot q now).0) now
      ≡ quota_blocks_general_routing (some q) now
unfolding quota_blocks_general_routing normalize_quota_snapshot
normalize-blocks q now =
    ground (
      arith,
      window_blocks_same q.rate_limit now,
      window_ptr_blocks_same q.secondary_rate_limit now,
    )
