-- ===== src/Server/Upstream/Failover.antt =====
-- What classifyUpstreamError of internal/server/upstream_errors.go tells the client, and
-- shouldFailoverRequest of public.go.
use codex_model_tester.Base.{
  Bool-cases, Option-cases, Str, arith, false, inl, inr, negsuc, pos, refl, some, true, ℤ, ◌<◌,
  ◌||◌, ◌≡◌, ◌≤◌, ◌⊎◌,
}
use codex_model_tester.Server.Upstream.{
  UpstreamError, Cause, is_status, clamp_upstream_status, Meets, classify_upstream,
  classify_upstream_error, should_failover_request,
}
use codex_model_tester.Accounts.Store.{Service}

clamp-bounds : (c : ℤ) → (400 ≤ clamp_upstream_status c) × (clamp_upstream_status c < 600)
unfolding clamp_upstream_status
clamp-bounds (pos n) = ground arith
clamp-bounds (negsuc n) = omega arith

upstream-bounds :
    (status_text : ℤ → Str) (w : Meets) (id text : Str) (e : UpstreamError) (s : Service)
    → (400 ≤ (classify_upstream status_text w id text e s).1.status)
      × ((classify_upstream status_text w id text e s).1.status < 600)
unfolding classify_upstream
upstream-bounds status_text w id text e s = ground (arith, clamp-bounds e.status_code)

upstream-kept :
    (status_text : ℤ → Str) (w : Meets) (id text : Str) (e : UpstreamError) (s : Service)
    → is_status 401 e.status_code ≡ false
    → is_status 402 e.status_code ≡ false
    → is_status 403 e.status_code ≡ false
    → is_status 429 e.status_code ≡ false
    → (classify_upstream status_text w id text e s).0 ≡ s
unfolding classify_upstream
upstream-kept status_text w id text e s u q f l = rw (u, f, q, l) refl

other-statuses :
    (c : ℤ)
    → (is_status 401 c
        || is_status 402 c
        || is_status 403 c
        || is_status 408 c
        || is_status 429 c
        || is_status 500 c
        || is_status 502 c
        || is_status 503 c
        || is_status 504 c)
      ≡ false
    → (is_status 401 c ≡ false)
      × (is_status 402 c ≡ false)
      × (is_status 403 c ≡ false)
      × (is_status 429 c ≡ false)
other-statuses c h = ground arith

-- Either the failure may be moved to another account, or the service is as it was.
upstream-failover :
    (status_text : ℤ → Str) (w : Meets) (id text : Str) (e : UpstreamError) (s : Service)
    → (should_failover_request false (record { text = text; upstream = some e }) ≡ true)
      ⊎ ((classify_upstream status_text w id text e s).0 ≡ s)
unfolding should_failover_request
upstream-failover status_text w id text e s =
    elim (Bool-cases (should_failover_request false (record { text = text; upstream = some e }))) [
      | inl h ↦ inl h
      | inr h ↦
          let (u, q, f, l) = other-statuses e.status_code h in
          inr (upstream-kept status_text w id text e s u q f l)
    ]

-- A failure gives the client a status from 400 to 599; and either `shouldFailoverRequest` holds
-- of the failure, where it is no cancellation, or `classifyUpstreamError` left the account
-- service as it was.
pub classify_upstream_error-should_failover_request :
    (status_text : ℤ → Str) (w : Meets) (id : Str) (cause : Cause) (s : Service)
    → (400 ≤ (classify_upstream_error status_text w id cause s).1.status)
      × ((classify_upstream_error status_text w id cause s).1.status < 600)
      × ((should_failover_request false cause ≡ true)
          ⊎ ((classify_upstream_error status_text w id cause s).0 ≡ s))
unfolding classify_upstream_error
classify_upstream_error-should_failover_request status_text w id cause s =
    elim (Option-cases cause.upstream) [
      | inl h ↦ rw h (omega arith, omega arith, inr refl)
      | inr (e, h) ↦ rw h (
        (upstream-bounds status_text w id cause.text e s).0,
        (upstream-bounds status_text w id cause.text e s).1,
        upstream-failover status_text w id cause.text e s,
      )
    ]
