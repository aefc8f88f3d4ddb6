-- ===== src/Server/Upstream/Cooldown.antt =====
-- The cooldowns of internal/server/upstream_errors.go end after the failure.
use codex_model_tester.Accounts.Service.{get as service_get}
use codex_model_tester.Base.{
  Option, Option-cases, Str, arith, inl, inr, negsuc, none, pos, refl, signed, some, subst, suc,
  zero, ℕ, ℤ, ◌%◌, ◌*◌, ◌+◌, ◌^◌, ◌≡◌, ◌≤◌,
}
use codex_model_tester.Server.Upstream.{
  seconds, rate_limit_fallback, quota_fallback, Meets, reset_or, quota_cooldown_until,
  rate_limit_cooldown_until,
}
use codex_model_tester.Accounts.Types.{Time, QuotaSnapshot, Record}
use codex_model_tester.Accounts.Quota.{primary_rate_limit_reset, quota_reset}
use codex_model_tester.Accounts.Store.{ok, err, Env, Service, Outcome}
use codex_model_tester.Accounts.Store.Keys.{IsKeyed}
use codex_model_tester.Accounts.Edit.{discard}
use codex_model_tester.Accounts.System.{gets, step}
use codex_model_tester.Accounts.System.Calls.{step-IsKeyed}

-- A wait below 2^63 nanoseconds.
abbrev pub IsShort : ℤ → Type 0
IsShort (pos n) = n ≤ 9223372036
IsShort (negsuc n) = Unit

seconds-short : (n : ℕ) → n ≤ 9223372036 → seconds n ≡ pos (n * 1000000000)
unfolding seconds signed
seconds-short n h =
    let small : n * 1000000000 % 2 ^ 64 ≡ n * 1000000000 = omega arith in rw small (ground arith)

-- The quota that reading an account finds.
abbrev pub quota_read : Outcome (Option Record) → Option QuotaSnapshot
quota_read (s, ok (some r)) = r.cached_quota
quota_read (s, ok none) = none
quota_read (s, err e) = none

abbrev pub first_known : Option Time → Time → Time
first_known none t = t
first_known (some reset) t = reset

-- When a rate limit ends: after the seconds that the upstream named, or else at the reset of the
-- primary window, or else after a minute.
abbrev pub rate_limit_end : Time → ℤ → Option QuotaSnapshot → Time
rate_limit_end now (pos (suc n)) quota = now + suc n * 1000000000
rate_limit_end now _ quota = first_known (primary_rate_limit_reset quota now) (now + 60000000000)

reset_or-end :
    (w : Meets) (reset : Option QuotaSnapshot → Time → Option Time) (d : ℕ)
    (found : Outcome (Option Record))
    → reset none w.now ≡ none
    → (reset_or w reset (pos d) found).1 ≡ first_known (reset (quota_read found) w.now) (w.now + d)
reset_or-end w reset d (s, err e) h = rw h refl
reset_or-end w reset d (s, ok none) h = rw h refl
reset_or-end w reset d (s, ok (some r)) h = elim (Option-cases (reset r.cached_quota w.now)) [
  | inl e ↦ rw e refl
  | inr (t, e) ↦ rw e refl
]

pub quota_cooldown-end :
    (w : Meets) (id : Str) (s : Service)
    → (quota_cooldown_until w id s).1
      ≡ first_known
          (quota_reset (quota_read (service_get w.read id s)) w.now)
          (w.now + 300000000000)
unfolding quota_cooldown_until quota_reset
quota_cooldown-end w id s = reset_or-end w quota_reset 300000000000 (service_get w.read id s) refl

pub rate_limit_cooldown-end :
    (w : Meets) (id : Str) (retry : ℤ) (s : Service)
    → IsShort retry
    → (rate_limit_cooldown_until w id retry s).1
      ≡ rate_limit_end w.now retry (quota_read (service_get w.read id s))
unfolding rate_limit_cooldown_until primary_rate_limit_reset
rate_limit_cooldown-end w id (pos (suc n)) s h = rw (seconds-short (suc n) h) refl
rate_limit_cooldown-end w id (pos zero) s h =
    reset_or-end w primary_rate_limit_reset 60000000000 (service_get w.read id s) refl
rate_limit_cooldown-end w id (negsuc n) s h =
    reset_or-end w primary_rate_limit_reset 60000000000 (service_get w.read id s) refl

-- Reading the account keeps each record under its own ID.
reset_or-service :
    (w : Meets) (reset : Option QuotaSnapshot → Time → Option Time) (d : ℤ)
    (found : Outcome (Option Record))
    → (reset_or w reset d found).0 ≡ found.0
reset_or-service w reset d (s, err e) = refl
reset_or-service w reset d (s, ok none) = refl
reset_or-service w reset d (s, ok (some r)) = refl

discard-service : {A : Type 0} (o : Outcome A) → (discard o).0 ≡ o.0
discard-service (s, ok a) = refl
discard-service (s, err e) = refl

read-IsKeyed :
    (env : Env) (id : Str) (s : Service)
    → IsKeyed s.records
    → IsKeyed (service_get env id s).0.records
unfolding step
read-IsKeyed env id s k =
    subst (λ t. IsKeyed t.records) (discard-service (service_get env id s))
      (step-IsKeyed env (gets id) s k)

pub quota-IsKeyed :
    (w : Meets) (id : Str) (s : Service)
    → IsKeyed s.records
    → IsKeyed (quota_cooldown_until w id s).0.records
unfolding quota_cooldown_until
quota-IsKeyed w id s k =
    rw (reset_or-service w quota_reset quota_fallback (service_get w.read id s))
      (read-IsKeyed w.read id s k)

pub rate_limit-IsKeyed :
    (w : Meets) (id : Str) (retry : ℤ) (s : Service)
    → IsKeyed s.records
    → IsKeyed (rate_limit_cooldown_until w id retry s).0.records
unfolding rate_limit_cooldown_until
rate_limit-IsKeyed w id (pos (suc n)) s k = k
rate_limit-IsKeyed w id (pos zero) s k =
    rw (reset_or-service w primary_rate_limit_reset rate_limit_fallback (service_get w.read id s))
      (read-IsKeyed w.read id s k)
rate_limit-IsKeyed w id (negsuc n) s k =
    rw (reset_or-service w primary_rate_limit_reset rate_limit_fallback (service_get w.read id s))
      (read-IsKeyed w.read id s k)
