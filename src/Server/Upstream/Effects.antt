-- ===== src/Server/Upstream/Effects.antt =====
-- What classifyUpstreamError of internal/server/upstream_errors.go does to the account that failed.
use codex_model_tester.Accounts.Service.{get as service_get}
use codex_model_tester.Base.{
  Bool, Bool-cases, List, Option, Str, arith, false, if◌then◌else◌, inl, inr, is_empty, negsuc,
  none, not, pos, refl, some, to_lower, trim_space, true, ℤ, ◌&&◌, ◌+◌, ◌<◌, ◌||◌, ◌≡◌, ◌≢◌, ◌≤◌,
}
use codex_model_tester.Server.Upstream.{
  UpstreamError, message, is_status, looks_like_cloudflare_block, time_add, rate_limit_fallback,
  Meets, quota_cooldown_until, rate_limit_cooldown_until, set_account_cooldown, mark_account_error,
  cool_forbidden, classify_upstream,
}
use codex_model_tester.Server.Upstream.Cooldown.{
  IsShort, quota_read, first_known, rate_limit_end, quota_cooldown-end, rate_limit_cooldown-end,
  quota-IsKeyed, rate_limit-IsKeyed,
}
use codex_model_tester.Accounts.Types.{Time, expired, Record}
use codex_model_tester.Accounts.Quota.{quota_reset}
use codex_model_tester.Accounts.Store.{ok, Env, Service}
use codex_model_tester.Accounts.Store.Keys.{IsKeyed}
use codex_model_tester.Accounts.Acquire.{acquire_matching}
use codex_model_tester.Accounts.System.{Call, marks_error, sets_cooldown, step, run}
use codex_model_tester.Accounts.System.Calls.{step-IsKeyed}
use codex_model_tester.Accounts.Rest.{CoolsTill, IsResting, Rests, AllSpare}
use codex_model_tester.Accounts.Rest.Calls.{set_cooldown-Rests, mark_error-Rests, acquire-Rests}

-- The failures for which the account is to rest: its credentials, its quota, a rate limit, and a
-- refusal that is not Cloudflare's.
abbrev pub is_penalised : (ℤ → Str) → UpstreamError → Bool
is_penalised status_text e =
    is_status 401 e.status_code
    || is_status 402 e.status_code
    || is_status 429 e.status_code
    || (is_status 403 e.status_code
        && not (looks_like_cloudflare_block (to_lower (message status_text e))))

-- When the rest ends: never for refused credentials; at the reset of the quota that is known, or else
-- after five minutes; as the rate limit says; and a minute after any other refusal.
abbrev pub rest_end : Meets → Str → UpstreamError → Service → Option Time
rest_end w id e s =
    let quota = quota_read (service_get w.read id s) in
    if is_status 401 e.status_code
    then none
    else if is_status 402 e.status_code
    then some (first_known (quota_reset quota w.now) (w.now + 300000000000))
    else if is_status 429 e.status_code
    then some (rate_limit_end w.now e.retry_after quota)
    else some (w.now + 60000000000)

abbrev pub IsWithin : Time → Option Time → Type 0
IsWithin until none = Unit
IsWithin until (some t) = until ≤ t

-- The service after the failure: the account rests, and each record stands under its own ID.
abbrev RestsKeyed : Time → Str → Service → Type 0
RestsKeyed until id s = Rests until id s × IsKeyed s.records

abbrev KeepsKeys : (Service → Service) → Type 0
KeepsKeys f = (s : Service) → IsKeyed s.records → IsKeyed (f s).records

CoolsTill-shorter :
    (until t : Time) (c : Option Time) → until ≤ t → CoolsTill t c → CoolsTill until c
CoolsTill-shorter until t none le h = h
CoolsTill-shorter until t (some x) le h = omega (arith, le, h)

IsResting-shorter : (until t : Time) (q : Record) → until ≤ t → IsResting t q → IsResting until q
IsResting-shorter until t q le (inl h) = inl h
IsResting-shorter until t q le (inr c) = inr (CoolsTill-shorter until t q.cooldown_until le c)

cooled :
    (w : Meets) (id text : Str) (until : Time) (x : Service × Time)
    → is_empty (trim_space id) ≡ false
    → KeepsKeys w.others
    → IsKeyed x.0.records
    → until ≤ x.1
    → RestsKeyed until id (set_account_cooldown w id text x)
unfolding set_account_cooldown step
cooled w id text until (s, t) b others k le = rw b (
  λ q e. IsResting-shorter until t q le (set_cooldown-Rests w.write id text t (w.others s) q e),
  step-IsKeyed w.write (sets_cooldown id (some t) text) (w.others s) (others s k),
)

marked :
    (w : Meets) (id text : Str) (until : Time) (s : Service)
    → KeepsKeys w.others
    → IsKeyed s.records
    → RestsKeyed until id (mark_account_error w id expired text s)
unfolding mark_account_error step
marked w id text until s others k = (
  mark_error-Rests until w.write id text expired (w.others s) refl,
  step-IsKeyed w.write (marks_error id expired text) (w.others s) (others s k),
)

status-other :
    (c : ℤ) → is_status 403 c ≡ true → (is_status 402 c ≡ false) × (is_status 429 c ≡ false)
status-other (pos n) h = ground arith
status-other (negsuc n) h = cc

forbidden-cools :
    (status_text : ℤ → Str) (e : UpstreamError)
    → is_penalised status_text e ≡ true
    → is_status 401 e.status_code ≡ false
    → is_status 403 e.status_code ≡ true
    → looks_like_cloudflare_block (to_lower (message status_text e)) ≡ false
forbidden-cools status_text e p u f =
    let (q, l) = status-other e.status_code f in
    elim (Bool-cases (looks_like_cloudflare_block (to_lower (message status_text e)))) [
      | inr x ↦ x
      | inl x ↦ absurd (cc (rw (u, q, l, f, x) at p))
    ]

forbidden :
    (w : Meets) (id body text : Str) (until : Time) (s : Service)
    → is_empty (trim_space id) ≡ false
    → KeepsKeys w.others
    → IsKeyed s.records
    → looks_like_cloudflare_block body ≡ false
    → until ≤ w.now + 60000000000
    → RestsKeyed until id (cool_forbidden w id body text s)
unfolding cool_forbidden
forbidden w id body text until s b others k x le =
    rw x (cooled w id text until (s, time_add w.now rate_limit_fallback) b others k le)

classified-Rests :
    (status_text : ℤ → Str) (w : Meets) (id text : Str) (until : Time) (e : UpstreamError)
    (s : Service)
    → IsKeyed s.records
    → KeepsKeys w.others
    → is_empty (trim_space id) ≡ false
    → IsShort e.retry_after
    → is_penalised status_text e ≡ true
    → IsWithin until (rest_end w id e s)
    → RestsKeyed until id (classify_upstream status_text w id text e s).0
unfolding classify_upstream
classified-Rests status_text w id text until e s k others b short p le =
    elim (Bool-cases (is_status 401 e.status_code)) [
      | inl u ↦ rw u (marked w id text until s others k)
      | inr u ↦ elim (Bool-cases (is_status 403 e.status_code)) [
        | inl f ↦
            let (q, l) = status-other e.status_code f in
            rw (u, f)
              (forbidden w id (to_lower (message status_text e)) text until s b others k
                (forbidden-cools status_text e p u f) (rw (u, q, l) at le))
        | inr f ↦ elim (Bool-cases (is_status 402 e.status_code)) [
          | inl q ↦
              rw (u, f, q)
                (cooled w id text until (quota_cooldown_until w id s) b others
                  (quota-IsKeyed w id s k) (rw (quota_cooldown-end w id s) (rw (u, q) at le)))
          | inr q ↦ elim (Bool-cases (is_status 429 e.status_code)) [
            | inl l ↦
                rw (u, f, q, l)
                  (cooled w id text until (rate_limit_cooldown_until w id e.retry_after s) b others
                    (rate_limit-IsKeyed w id e.retry_after s k)
                    (rw (rate_limit_cooldown-end w id e.retry_after s short) (rw (u, q, l) at le)))
            | inr l ↦ absurd (cc (rw (u, f, q, l) at p))
          ]
        ]
      ]
    ]

-- After the upstream has refused an account's credentials, its quota is used up, its rate is
-- limited, or it was forbidden by anyone but Cloudflare, no acquisition hands the account out
-- before the end of its rest, even where nothing could be saved. The end is: none, when the
-- credentials were refused; the reset of the account's quota, or else five minutes after the
-- failure, when the quota is used up; the seconds that the upstream named, or else the reset of
-- the primary limit, or else one minute, when the rate is limited; and one minute, when it was
-- forbidden. This holds after any calls before the end that spare the account (none stores a
-- token of a login; of the account, none observes its quota, updates its credentials, patches
-- its status, marks it active or sets a cooldown that ends earlier), where each record stands
-- under its own ID, once, which the calls in between of others keep, the ID is not blank and
-- the wait that the upstream named is below 2^63 nanoseconds.
pub classify_upstream-acquire :
    (status_text : ℤ → Str) (w : Meets) (later : Env) (id preferred_id text : Str) (until : Time)
    (allow : Option (Record → Bool)) (calls : List (Env × Call)) (e : UpstreamError)
    (s s' : Service) (r : Record)
    → IsKeyed s.records
    → KeepsKeys w.others
    → is_empty (trim_space id) ≡ false
    → IsShort e.retry_after
    → is_penalised status_text e ≡ true
    → IsWithin until (rest_end w id e s)
    → AllSpare until id calls
    → later.now < until
    → acquire_matching later preferred_id allow
        (run calls (classify_upstream status_text w id text e s).0)
      ≡ (s', ok r)
    → r.id ≢ id
classify_upstream-acquire status_text w later id preferred_id text until allow calls e s s' r k
      others b short p le spare t h =
    let (rests, keyed) = classified-Rests status_text w id text until e s k others b short p le in
    acquire-Rests until later id preferred_id allow calls
      (classify_upstream status_text w id text e s).0 s' r keyed rests spare t h
