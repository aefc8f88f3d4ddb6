-- ===== src/Server/Upstream/StreamError.antt =====
-- internal/codex/stream_error.go: the errors among a stream's events.

use codex_model_tester.Base.{
  Bool, List, Option, Str, [], bytes, contains_str, false, if◌then◌else◌, ltb, negsuc, none, or_str,
  pos, some, str_eq, suc, to_lower, trim_space, ℕ, ℤ, ◌++◌, ◌-◌, ◌||◌, ◌∷◌,
}
use codex_model_tester.Server.Upstream.{UpstreamError, http, contains_one}
use codex_model_tester.Json.{
  Fields, get, get_opt, string_value, map_value, int_value, first_non_empty,
}
use codex_model_tester.Turn.Accumulator.{StreamEvent}

-- `slices`-like tests of the `switch` on a normalised code.
abbrev one_of : Str → List Str → Bool
one_of s [] = false
one_of s (t ∷ ts) = str_eq s t || one_of s ts

unfoldable pub upstream_status_code_from_code : Str → ℤ
unfolding to_lower contains_str
upstream_status_code_from_code code =
    let c = to_lower (trim_space code) in
    if one_of c
      (bytes "rate_limited" ∷ bytes "rate_limit_exceeded" ∷ bytes "too_many_requests" ∷ [])
    then http 429
    else if one_of c (
        bytes "quota_exhausted"
        ∷ bytes "usage_limit_reached"
        ∷ bytes "payment_required"
        ∷ bytes "subscription_required"
        ∷ [])
    then http 402
    else if one_of c (
        bytes "invalid_api_key"
        ∷ bytes "unauthorized"
        ∷ bytes "authentication_error"
        ∷ bytes "invalid_token"
        ∷ [])
    then http 401
    else if contains_one c (bytes "rate_limit" ∷ bytes "too_many" ∷ [])
    then http 429
    else if contains_one c (bytes "quota" ∷ bytes "usage_limit" ∷ bytes "payment" ∷ [])
    then http 402
    else if contains_one c (bytes "unauthorized" ∷ bytes "auth" ∷ [])
    then http 401
    else http 0

-- `if parsed, ok := jsonutil.IntValue(value); ok && parsed > 0`
abbrev positive : Option ℤ → Option ℕ
positive (some (pos (suc n))) = some (suc n)
positive _ = none

abbrev left_until : ℕ → Option ℕ → Option ℕ
left_until now none = none
left_until now (some n) = if ltb now n then some (n - now) else none

abbrev or_next {ℓ} : {A : Type ℓ} → Option A → Option A → Option A
or_next none b = b
or_next (some a) b = some a

-- One round of `firstRetryAfterSeconds`; `now` is in seconds since 1970.
unfoldable pub retry_after_of : ℕ → Option Fields → Option ℕ
unfolding int_value
retry_after_of now m =
    or_next (positive (int_value (get_opt (bytes "resets_in_seconds") m)))
      (left_until now (positive (int_value (get_opt (bytes "resets_at") m))))

abbrev or_zero : Option ℕ → ℤ
or_zero none = pos 0
or_zero (some n) = pos n

unfoldable pub first_retry_after_seconds : ℕ → Option Fields → Fields → ℤ
unfolding retry_after_of
first_retry_after_seconds now nested raw =
    or_zero (or_next (retry_after_of now nested) (retry_after_of now (some raw)))

abbrev or_status : Option ℤ → Str → ℤ
or_status (some (pos (suc n))) code = pos (suc n)
or_status (some (negsuc n)) code = negsuc n
or_status _ code = upstream_status_code_from_code code

-- The status of the first member that has one.
unfoldable pub status_of : Option Fields → Fields → Option ℤ
unfolding int_value
status_of nested raw = or_next (int_value (get_opt (bytes "status_code") nested)) (
    or_next (int_value (get_opt (bytes "status") nested))
      (or_next (int_value (get (bytes "status_code") raw)) (int_value (get (bytes "status") raw))))

abbrev nested_error : Fields → Option Fields
nested_error raw =
    or_next (map_value (bytes "error") (some raw))
      (map_value (bytes "error") (map_value (bytes "response") (some raw)))

unfoldable pub extract_upstream_event_details : ℕ → StreamEvent → UpstreamError
unfolding status_of first_retry_after_seconds upstream_status_code_from_code
extract_upstream_event_details now e =
    let nested = nested_error e.raw in
    let code = first_non_empty (
      string_value (get_opt (bytes "code") nested)
      ∷ string_value (get_opt (bytes "type") nested)
      ∷ string_value (get (bytes "code") e.raw)
      ∷ string_value (get (bytes "type") e.raw)
      ∷ []) in
    record {
      op = bytes "codex stream";
      status_code = or_status (status_of nested e.raw) code;
      body =
          or_str
            (first_non_empty (
              string_value (get_opt (bytes "message") nested)
              ∷ string_value (get_opt (bytes "detail") nested)
              ∷ string_value (get (bytes "message") e.raw)
              ∷ string_value (get (bytes "detail") e.raw)
              ∷ []))
            (bytes "upstream " ++ e.type);
      code = code;
      retry_after = first_retry_after_seconds now nested e.raw;
    }

unfoldable pub stream_event_error : ℕ → StreamEvent → Option UpstreamError
unfolding extract_upstream_event_details
stream_event_error now e =
    if str_eq e.type (bytes "error") || str_eq e.type (bytes "response.failed")
    then some (extract_upstream_event_details now e)
    else none
