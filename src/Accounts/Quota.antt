-- ===== src/Accounts/Quota.antt =====
-- internal/accounts/rotation.go (windows and eligibility) and quota_reset.go.
pub mod Laws
use codex_model_tester.Base.{
  Bool, true, false, not, ◌&&◌, ◌||◌, Option, none, some, if◌then◌else◌, trim_space, is_empty,
}
use codex_model_tester.Accounts.Types.{
  Time, after, RateLimitWindow, QuotaSnapshot, Record, is_active,
}

-- `window.ResetAt == nil || window.ResetAt.After(now)`: the test for a reset that is still to come.
abbrev pub reset_pending : Option Time → Time → Bool
reset_pending none now = true
reset_pending (some t) now = after t now

-- A window whose reset time has passed is opened; the flag tells whether it was.
unfoldable pub normalize_rate_limit_window : RateLimitWindow → Time → RateLimitWindow × Bool
normalize_rate_limit_window w now = if reset_pending w.reset_at now then (w, false) else (
  record w { allowed = true; limit_reached = false; used_percent = none; reset_at = none },
  true,
)

-- The same through a pointer that may be nil.
unfoldable pub normalize_rate_limit_window_ptr :
    Option RateLimitWindow → Time → Option RateLimitWindow × Bool
unfolding normalize_rate_limit_window
normalize_rate_limit_window_ptr none now = (none, false)
normalize_rate_limit_window_ptr (some w) now =
    let (w', changed) = normalize_rate_limit_window w now in (some w', changed)

unfoldable pub normalize_quota_snapshot : QuotaSnapshot → Time → QuotaSnapshot × Bool
unfolding normalize_rate_limit_window normalize_rate_limit_window_ptr
normalize_quota_snapshot q now =
    let (primary, primary_changed) = normalize_rate_limit_window q.rate_limit now in
    let (secondary, secondary_changed) =
      normalize_rate_limit_window_ptr q.secondary_rate_limit now in
    let (code_review, code_review_changed) =
      normalize_rate_limit_window_ptr q.code_review_rate_limit now in
    (
      record q {
        rate_limit = primary;
        secondary_rate_limit = secondary;
        code_review_rate_limit = code_review;
      },
      primary_changed || secondary_changed || code_review_changed,
    )

unfoldable pub window_availability_blocked : Option RateLimitWindow → Time → Bool
window_availability_blocked none now = false
window_availability_blocked (some w) now = if w.allowed then false else reset_pending w.reset_at now

unfoldable pub window_limit_active : Option RateLimitWindow → Time → Bool
window_limit_active none now = false
window_limit_active (some w) now = if w.limit_reached then reset_pending w.reset_at now else false

unfoldable pub quota_blocks_general_routing : Option QuotaSnapshot → Time → Bool
unfolding window_availability_blocked window_limit_active
quota_blocks_general_routing none now = false
quota_blocks_general_routing (some q) now =
    window_availability_blocked (some q.rate_limit) now
    || window_limit_active (some q.rate_limit) now
    || window_limit_active q.secondary_rate_limit now

-- `record.CooldownUntil != nil && record.CooldownUntil.After(now)`
abbrev pub cooling : Option Time → Time → Bool
cooling none now = false
cooling (some t) now = after t now

unfoldable pub is_eligible : Record → Time → Bool
unfolding quota_blocks_general_routing
is_eligible r now =
    if not (is_active r.status)
    then false
    else if is_empty (trim_space r.token.access_token)
    then false
    else if cooling r.cooldown_until now
    then false
    else not (quota_blocks_general_routing r.cached_quota now)

-- The reset of a window that blocks and will open.
unfoldable pub active_window_reset_window : Option RateLimitWindow → Time → Option Time
active_window_reset_window none now = none
active_window_reset_window (some w) now = elim w.reset_at [
  | none ↦ none
  | some t ↦
      if not (after t now) then none else if w.allowed && not w.limit_reached then none else some t
]

unfoldable pub primary_rate_limit_reset : Option QuotaSnapshot → Time → Option Time
unfolding active_window_reset_window
primary_rate_limit_reset none now = none
primary_rate_limit_reset (some q) now = active_window_reset_window (some q.rate_limit) now

unfoldable pub quota_reset : Option QuotaSnapshot → Time → Option Time
unfolding active_window_reset_window
quota_reset none now = none
quota_reset (some q) now = elim (active_window_reset_window (some q.rate_limit) now) [
  | some t ↦ some t
  | none ↦ active_window_reset_window q.secondary_rate_limit now
]
