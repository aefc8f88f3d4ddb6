-- ===== src/Accounts/Clone.antt =====
-- internal/accounts/clone.go: the deep copies that the service hands out and takes in. A value has no
-- aliases here, so a copy is the value itself, but for a nil map of cookies, which becomes an empty one.
use codex_model_tester.Base.{refl, ◌∙◌, ap, ◌≡◌, Option, none, some, [], Str, Dict, arith}
use codex_model_tester.Accounts.Types.{Record, RateLimitWindow, CreditsSnapshot, QuotaSnapshot}

-- `if p != nil { value := *p; q = &value }`
abbrev copy_ptr : {A : Type 0} → Option A → Option A
copy_ptr none = none
copy_ptr (some a) = some a

unfoldable pub clone_rate_limit_window : RateLimitWindow → RateLimitWindow
clone_rate_limit_window w = record w {
  used_percent = copy_ptr w.used_percent;
  reset_at = copy_ptr w.reset_at;
  limit_window_seconds = copy_ptr w.limit_window_seconds;
}

unfoldable pub clone_rate_limit_window_ptr : Option RateLimitWindow → Option RateLimitWindow
unfolding clone_rate_limit_window
clone_rate_limit_window_ptr none = none
clone_rate_limit_window_ptr (some w) = some (clone_rate_limit_window w)

abbrev clone_credits : Option CreditsSnapshot → Option CreditsSnapshot
clone_credits none = none
clone_credits (some c) = some (record c { balance = copy_ptr c.balance })

unfoldable pub clone_quota_snapshot : QuotaSnapshot → QuotaSnapshot
unfolding clone_rate_limit_window clone_rate_limit_window_ptr
clone_quota_snapshot q = record q {
  rate_limit = clone_rate_limit_window q.rate_limit;
  secondary_rate_limit = clone_rate_limit_window_ptr q.secondary_rate_limit;
  code_review_rate_limit = clone_rate_limit_window_ptr q.code_review_rate_limit;
  credits = clone_credits q.credits;
}

-- `maps.Clone`, which keeps nil, and then the test for nil.
abbrev clone_cookies : Option (Dict Str) → Option (Dict Str)
clone_cookies none = some []
clone_cookies (some m) = some m

abbrev clone_cached : Option QuotaSnapshot → Option QuotaSnapshot
clone_cached none = none
clone_cached (some q) = some (clone_quota_snapshot q)

unfoldable pub clone_record : Record → Record
unfolding clone_quota_snapshot
clone_record r = record r {
  cookies = clone_cookies r.cookies;
  cooldown_until = copy_ptr r.cooldown_until;
  cached_quota = clone_cached r.cached_quota;
}

-- A clone differs from the record in the cookies alone.
pub clone_record_lem :
    (r : Record) → clone_record r ≡ record r { cookies = clone_cookies r.cookies }
unfolding clone_record
clone_record_lem r = ground arith

clone_cookies_idem : (m : Option (Dict Str)) → clone_cookies (clone_cookies m) ≡ clone_cookies m
clone_cookies_idem none = refl
clone_cookies_idem (some m) = refl

pub clone_record_idem : (r : Record) → clone_record (clone_record r) ≡ clone_record r
unfolding clone_record
clone_record_idem r =
    clone_record_lem (clone_record r)
    ∙ ap (λ m. record (clone_record r) { cookies = m }) (clone_cookies_idem r.cookies)
