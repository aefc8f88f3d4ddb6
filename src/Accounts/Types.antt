-- ===== src/Accounts/Types.antt =====
-- internal/accounts/account.go and persistence.go: the data of the account store.
pub use codex_model_tester.Base.{ℤ, pos, negsuc, Float64, nan, num, float_zero, float_lt}
use codex_model_tester.Base.{ℕ, Bool, true, false, Option, List, Str, Dict, ltb}

-- A `time.Time` is the number of nanoseconds since Go's zero time; `UTC()` changes no instant.
abbrev pub Time : Type 0
Time = ℕ

-- `t.After(u)`
abbrev pub after : Time → Time → Bool
after t u = ltb u t

-- `type Status string`; `other` holds every text but the four constants.
pub data Status : Type 0 where
  active disabled expired banned : Status
  other : Str → Status

pub record OauthToken : Type 0 where
  pub access_token : Str
  pub refresh_token : Str
  pub expires_at : Time

pub record RateLimitWindow : Type 0 where
  pub allowed : Bool
  pub limit_reached : Bool
  pub used_percent : Option Float64
  pub reset_at : Option Time
  pub limit_window_seconds : Option ℤ

pub record CreditsSnapshot : Type 0 where
  pub has_credits : Bool
  pub unlimited : Bool
  pub balance : Option Float64
  pub active_limit : Str

pub record QuotaSnapshot : Type 0 where
  pub plan_type : Str
  pub rate_limit : RateLimitWindow
  pub secondary_rate_limit : Option RateLimitWindow
  pub code_review_rate_limit : Option RateLimitWindow
  pub credits : Option CreditsSnapshot
  pub source : Str
  pub fetched_at : Time

-- `cookies` is `none` for a nil map.
pub record Record : Type 0 where
  pub id : Str
  pub account_id : Str
  pub user_id : Str
  pub email : Str
  pub plan_type : Str
  pub label : Str
  pub status : Status
  pub last_error : Str
  pub token : OauthToken
  pub cookies : Option (Dict Str)
  pub cached_quota : Option QuotaSnapshot
  pub cooldown_until : Option Time
  pub created_at : Time
  pub updated_at : Time

-- `type RotationStrategy string`; the empty text, no strategy stored, is `other []`.
pub data RotationStrategy : Type 0 where
  least_used round_robin sticky : RotationStrategy
  other : Str → RotationStrategy

-- What the store loads and saves.
pub record State : Type 0 where
  pub records : List Record
  pub rotation_strategy : RotationStrategy

-- `status == StatusActive` and the like.
abbrev pub is_active : Status → Bool
is_active active = true
is_active _ = false

abbrev pub is_disabled : Status → Bool
is_disabled disabled = true
is_disabled _ = false

abbrev pub is_banned : Status → Bool
is_banned banned = true
is_banned _ = false
