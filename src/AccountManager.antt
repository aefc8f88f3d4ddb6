-- ===== src/AccountManager.antt =====
-- internal/accountmanager/manager.go: accounts with credentials that are fresh enough to use.
pub mod Ready
pub mod Failed
pub mod Tests
pub mod Usable
pub mod Refreshed
use codex_model_tester.Base.{
  ℕ, ◌+◌, ◌*◌, Bool, true, false, Option, none, some, if◌then◌else◌, ltb, Str, is_empty,
}
use codex_model_tester.Accounts.Types.{
  Time, expired, Record, OauthToken, QuotaSnapshot, is_disabled,
}
use codex_model_tester.Accounts.Store.{Error, Result, ok, err, Env, Service, Done, Outcome}
use codex_model_tester.Accounts.Service.{get}
use codex_model_tester.Accounts.Edit.{observe_quota, update_auth, mark_error, set_cooldown}
use codex_model_tester.Accounts.Acquire.{acquire, acquire_matching}

-- What `oauth.Refresh` returns: a token and an account ID, or an error with its text and whether
-- `IsTerminalCredentialFailure` holds of it.
pub data RefreshAnswer : Type 0 where
  granted : OauthToken → Str → RefreshAnswer
  refused : Str → Bool → RefreshAnswer

-- What the HTTP client's `GetUsage` returns.
pub data UsageAnswer : Type 0 where
  usage : Option QuotaSnapshot → UsageAnswer
  usage_error : Str → UsageAnswer

pub data Failure : Type 0 where
  service_failed : Error → Failure
  not_found account_disabled no_access_token : Failure
  refresh_failed usage_failed : Str → Failure
  -- `account … disappeared after …`, with the account's ID.
  disappeared : Str → Failure

pub data Reply (A : Type 0) : Type 0 where
  done : A → Reply A
  failed : Failure → Reply A

-- What one call of the manager meets: the environment of its n-th call of the service, what other
-- goroutines do to the service before that call, the upstream's answers, and when a refresh failed.
pub record World : Type 0 where
  pub at : ℕ → Env
  pub others : ℕ → Service → Service
  pub refresh_skew : ℕ
  pub oauth_refresh : OauthToken → Str → RefreshAnswer
  pub get_usage_answer : Record → UsageAnswer
  pub failed_at : Time

-- `accounts.DefaultRateLimitFallback` in nanoseconds.
abbrev pub default_rate_limit_fallback : ℕ
default_rate_limit_fallback = 60 * 1000000000

abbrev pub get_reply : Outcome (Option Record) → Service × Reply Record
get_reply (s, ok none) = (s, failed not_found)
get_reply (s, ok (some r)) = (s, done r)
get_reply (s, err e) = (s, failed (service_failed e))

unfoldable pub get_record : Env → Str → Service → Service × Reply Record
get_record env id s = get_reply (get env id s)

unfoldable pub validate_ready_record : Record → Option Failure
validate_ready_record r =
    if is_disabled r.status
    then some account_disabled
    else if is_empty r.token.access_token
    then some no_access_token
    else none

-- `time.Until(record.Token.ExpiresAt) > m.cfg.RefreshSkew`
abbrev pub is_fresh : ℕ → Time → Record → Bool
is_fresh skew now r = ltb (now + skew) r.token.expires_at

-- How `EnsureReady` finds an account: to be returned, to be refreshed, or an error.
pub data Check : Type 0 where
  ready stale : Record → Check
  broken : Failure → Check

unfoldable pub checked : ℕ → Time → Record → Option Failure → Check
checked skew now r (some e) = broken e
checked skew now r none = if is_fresh skew now r then ready r else stale r

unfoldable pub check_reply : ℕ → Time → Service × Reply Record → Service × Check
unfolding validate_ready_record checked
check_reply skew now (s, failed e) = (s, broken e)
check_reply skew now (s, done r) = (s, checked skew now r (validate_ready_record r))

-- The three tests that `EnsureReady` makes before and after it has the account's lock.
unfoldable pub check : ℕ → Env → Str → Service → Service × Check
unfolding check_reply get_record
check skew env id s = check_reply skew env.now (get_record env id s)

-- Where the status cannot be saved the code only logs that.
unfoldable pub mark_refresh_failure : World → Env → Str → Str → Bool → Service → Service
mark_refresh_failure w env id text true s = (mark_error env id expired text s).0
mark_refresh_failure w env id text false s =
    (set_cooldown env id (some (w.failed_at + default_rate_limit_fallback)) text s).0

abbrev pub or_disappeared : Str → Service × Reply Record → Service × Reply Record
or_disappeared id (s, failed not_found) = (s, failed (disappeared id))
or_disappeared id (s, failed e) = (s, failed e)
or_disappeared id (s, done r) = (s, done r)

-- What `refreshLocked` does once the token is stored.
unfoldable pub after_update : World → Str → Outcome Done → Service × Reply Record
unfolding get_record
after_update w id (s, err e) = (s, failed (service_failed e))
after_update w id (s, ok u) = or_disappeared id (get_record (w.at 3) id (w.others 3 s))

unfoldable pub after_refresh : World → Record → RefreshAnswer → Service → Service × Reply Record
unfolding mark_refresh_failure after_update
after_refresh w r (refused text terminal) s =
    (mark_refresh_failure w (w.at 2) r.id text terminal s, failed (refresh_failed text))
after_refresh w r (granted token account_id) s =
    after_update w r.id (update_auth (w.at 2) r.id account_id token s)

unfoldable pub refresh_locked : World → Record → Service → Service × Reply Record
unfolding after_refresh
refresh_locked w r s = after_refresh w r (w.oauth_refresh r.token r.account_id) (w.others 2 s)

unfoldable pub after_second : World → Service × Check → Service × Reply Record
unfolding refresh_locked
after_second w (s, ready r) = (s, done r)
after_second w (s, broken e) = (s, failed e)
after_second w (s, stale r) = refresh_locked w r s

-- The second check is made with the account's lock held; other calls may have come before it.
unfoldable pub after_first : World → Str → Service × Check → Service × Reply Record
unfolding after_second check
after_first w id (s, ready r) = (s, done r)
after_first w id (s, broken e) = (s, failed e)
after_first w id (s, stale r) = after_second w (check w.refresh_skew (w.at 1) id (w.others 1 s))

unfoldable pub ensure_ready : World → Str → Service → Service × Reply Record
unfolding after_first check
ensure_ready w id s = after_first w id (check w.refresh_skew (w.at 0) id s)

abbrev pub refresh_found : World → Service × Reply Record → Service × Reply Record
refresh_found w (s, failed e) = (s, failed e)
refresh_found w (s, done r) = refresh_locked w r s

unfoldable pub refresh : World → Str → Service → Service × Reply Record
unfolding get_record refresh_locked
refresh w id s = refresh_found w (get_record (w.at 0) id s)

-- The acquisition meets `env`, then other calls may come.
abbrev pub ensure_acquired : World → Outcome Record → Service × Reply Record
ensure_acquired w (s, err e) = (s, failed (service_failed e))
ensure_acquired w (s, ok r) = ensure_ready w r.id (w.others 0 s)

unfoldable pub acquire_ready : World → Env → Str → Service → Service × Reply Record
unfolding ensure_ready
acquire_ready w env preferred_id s = ensure_acquired w (acquire env preferred_id s)

abbrev model_test : Option (Record → Str → Bool) → Str → Record → Bool
model_test none model r = true
model_test (some supports) model r = supports r model

unfoldable pub acquire_ready_for_model :
    World → Env → Option (Record → Str → Bool) → Str → Str → Service → Service × Reply Record
unfolding ensure_ready
acquire_ready_for_model w env models preferred_id model s =
    ensure_acquired w (acquire_matching env preferred_id (some (model_test models model)) s)

abbrev cached_usage : Service × Reply Record → Service × Reply (Record × Option QuotaSnapshot)
cached_usage (s, failed e) = (s, failed e)
cached_usage (s, done r) = (s, done (r, r.cached_quota))

abbrev updated_usage :
    Option QuotaSnapshot → Service × Reply Record → Service × Reply (Record × Option QuotaSnapshot)
updated_usage quota (s, failed e) = (s, failed e)
updated_usage quota (s, done r) = (s, done (r, quota))

abbrev after_observe :
    World
    → Str
    → Option QuotaSnapshot
    → Outcome Done
    → Service × Reply (Record × Option QuotaSnapshot)
after_observe w id quota (s, err e) = (s, failed (service_failed e))
after_observe w id quota (s, ok u) =
    updated_usage quota (or_disappeared id (get_record (w.at 5) id (w.others 5 s)))

abbrev answered_usage :
    World → Record → UsageAnswer → Service → Service × Reply (Record × Option QuotaSnapshot)
answered_usage w r (usage_error text) s = (s, failed (usage_failed text))
answered_usage w r (usage quota) s =
    after_observe w r.id quota (observe_quota (w.at 4) r.id quota s)

abbrev fetched_usage :
    World → Service × Reply Record → Service × Reply (Record × Option QuotaSnapshot)
fetched_usage w (s, failed e) = (s, failed e)
fetched_usage w (s, done r) = answered_usage w r (w.get_usage_answer r) (w.others 4 s)

-- The record that comes beside an error is left out.
unfoldable pub get_usage :
    World → Str → Bool → Service → Service × Reply (Record × Option QuotaSnapshot)
unfolding ensure_ready get_record
get_usage w id true s = cached_usage (get_record (w.at 0) id s)
get_usage w id false s = fetched_usage w (ensure_ready w id s)
