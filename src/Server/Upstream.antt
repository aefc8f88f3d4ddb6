-- ===== src/Server/Upstream.antt =====
-- internal/server/upstream_errors.go, internal/codex/stream_error.go and the errors of
-- internal/codex/upstream_error.go: what a failure of the upstream means for the client and for the
-- account. `status_text` is `http.StatusText`; readings of the clock are arguments.
pub mod Effects
pub mod Failover
pub mod Tests
pub mod StreamError
pub mod Cooldown
use codex_model_tester.Accounts.Service.{get as service_get}
use codex_model_tester.Base.{
  Bool, List, Option, Str, [], bytes, contains_str, false, if◌then◌else◌, is_empty, leb, ltb,
  negsuc, none, not, or_str, pos, signed, some, suc, to_lower, trim_space, ℕ, ℤ, ◌%◌, ◌&&◌, ◌*◌,
  ◌+◌, ◌-◌, ◌==◌, ◌^◌, ◌||◌, ◌∷◌,
}
use codex_model_tester.Accounts.Types.{Time, Status, expired, QuotaSnapshot, Record}
use codex_model_tester.Accounts.Store.{ok, err, Env, Service, Outcome}
use codex_model_tester.Accounts.Quota.{primary_rate_limit_reset, quota_reset}
use codex_model_tester.Accounts.Edit.{mark_error, set_cooldown}

pub record UpstreamError : Type 0 where
  pub op : Str
  pub status_code : ℤ
  pub body : Str
  pub code : Str
  pub retry_after : ℤ

-- An error: its text, and the upstream's error that `errors.As` finds in it.
pub record Cause : Type 0 where
  pub text : Str
  pub upstream : Option UpstreamError

-- `e.Message()`
unfoldable pub message : (ℤ → Str) → UpstreamError → Str
message status_text e =
    or_str (trim_space e.body)
      (or_str (trim_space (status_text e.status_code)) (bytes "upstream request failed"))

abbrev pub http : ℕ → ℤ
http n = pos n

abbrev pub is_status : ℕ → ℤ → Bool
is_status n (pos k) = k == n
is_status n (negsuc k) = false

-- `strings.Contains` of one text or another.
abbrev pub contains_one : Str → List Str → Bool
contains_one s [] = false
contains_one s (t ∷ ts) = contains_str s t || contains_one s ts

unfoldable pub clamp_upstream_status : ℤ → ℕ
clamp_upstream_status (pos n) = if leb 400 n && ltb n 600 then n else 502
clamp_upstream_status (negsuc n) = 502

unfoldable pub looks_like_cloudflare_block : Str → Bool
unfolding to_lower contains_str
looks_like_cloudflare_block text =
    contains_one (to_lower (trim_space text))
      (bytes "cf_chl" ∷ bytes "<!doctype" ∷ bytes "<html" ∷ [])

-- `now.Add(d)`
abbrev pub time_add : Time → ℤ → Time
time_add now (pos d) = now + d
time_add now (negsuc d) = now - suc d

-- `time.Duration(n) * time.Second`, which wraps.
unfoldable pub seconds : ℕ → ℤ
unfolding signed
seconds n = signed (n * 1000000000 % 2 ^ 64)

abbrev pub rate_limit_fallback : ℤ
rate_limit_fallback = pos 60000000000

abbrev pub quota_fallback : ℤ
quota_fallback = pos 300000000000

-- What one classification meets: the clock, the environments of its two calls of the service, and what
-- others do to the service in between.
pub record Meets : Type 0 where
  pub now : Time
  pub read : Env
  pub others : Service → Service
  pub write : Env

abbrev pub or_fallback : Time → ℤ → Option Time → Time
or_fallback now fallback none = time_add now fallback
or_fallback now fallback (some reset) = reset

abbrev pub reset_or :
    Meets
    → (Option QuotaSnapshot → Time → Option Time)
    → ℤ
    → Outcome (Option Record)
    → Service × Time
reset_or w reset fallback (s, ok (some r)) =
    (s, or_fallback w.now fallback (reset r.cached_quota w.now))
reset_or w reset fallback (s, ok none) = (s, time_add w.now fallback)
reset_or w reset fallback (s, err e) = (s, time_add w.now fallback)

unfoldable pub quota_cooldown_until : Meets → Str → Service → Service × Time
quota_cooldown_until w account_id s =
    reset_or w quota_reset quota_fallback (service_get w.read account_id s)

unfoldable pub rate_limit_cooldown_until : Meets → Str → ℤ → Service → Service × Time
unfolding seconds
rate_limit_cooldown_until w account_id (pos (suc n)) s = (s, time_add w.now (seconds (suc n)))
rate_limit_cooldown_until w account_id _ s =
    reset_or w primary_rate_limit_reset rate_limit_fallback (service_get w.read account_id s)

unfoldable pub set_account_cooldown : Meets → Str → Str → Service × Time → Service
set_account_cooldown w account_id text (s, until) =
    if is_empty (trim_space account_id)
    then s
    else (set_cooldown w.write account_id (some until) text (w.others s)).0

unfoldable pub mark_account_error : Meets → Str → Status → Str → Service → Service
mark_account_error w account_id status text s =
    (mark_error w.write account_id status text (w.others s)).0

pub record Classified : Type 0 where
  pub status : ℕ
  pub code : Str
  pub text : Str

abbrev pub classified : ℕ → Str → Str → Classified
classified status code text = record { status = status; code = code; text = text }

-- The case of a 403: a cooldown, unless the answer is Cloudflare's.
unfoldable pub cool_forbidden : Meets → Str → Str → Str → Service → Service
unfolding set_account_cooldown looks_like_cloudflare_block
cool_forbidden w account_id body text s =
    if looks_like_cloudflare_block body
    then s
    else set_account_cooldown w account_id text (s, time_add w.now rate_limit_fallback)

abbrev pub other_status : (ℤ → Str) → UpstreamError → Classified
other_status status_text e =
    classified (clamp_upstream_status e.status_code) (bytes "upstream_error")
      (message status_text e)

unfoldable pub classify_upstream :
    (ℤ → Str) → Meets → Str → Str → UpstreamError → Service → Service × Classified
unfolding mark_account_error cool_forbidden set_account_cooldown quota_cooldown_until
    rate_limit_cooldown_until clamp_upstream_status message to_lower
classify_upstream status_text w account_id text e s =
    if is_status 401 e.status_code
    then (
      mark_account_error w account_id expired text s,
      classified 401 (bytes "upstream_unauthorized") (bytes "upstream account unauthorized"),
    )
    else if is_status 403 e.status_code
    then (
      cool_forbidden w account_id (to_lower (message status_text e)) text s,
      other_status status_text e,
    )
    else if is_status 402 e.status_code
    then (
      set_account_cooldown w account_id text (quota_cooldown_until w account_id s),
      classified 402 (bytes "quota_exhausted") (bytes "upstream account quota exhausted"),
    )
    else if is_status 429 e.status_code
    then (
      set_account_cooldown w account_id text
          (rate_limit_cooldown_until w account_id e.retry_after s),
      classified 429 (bytes "rate_limited") (bytes "upstream account rate limited"),
    )
    else (s, other_status status_text e)

unfoldable pub classify_upstream_error :
    (ℤ → Str) → Meets → Str → Cause → Service → Service × Classified
unfolding classify_upstream
classify_upstream_error status_text w account_id cause s = elim cause.upstream [
  | none ↦ (s, classified 502 (bytes "upstream_error") cause.text)
  | some e ↦ classify_upstream status_text w account_id cause.text e s
]

-- `shouldFailoverRequest` on an error that is not nil; `cancelled` holds where `errors.Is` finds a
-- cancellation or a deadline in it.
unfoldable pub should_failover_request : Bool → Cause → Bool
should_failover_request cancelled cause = elim cause.upstream [
  | none ↦ not cancelled
  | some e ↦
      not cancelled
      && (is_status 401 e.status_code
          || is_status 402 e.status_code
          || is_status 403 e.status_code
          || is_status 408 e.status_code
          || is_status 429 e.status_code
          || is_status 500 e.status_code
          || is_status 502 e.status_code
          || is_status 503 e.status_code
          || is_status 504 e.status_code)
]
