-- ===== src/Turn/Usage/RoundTrip.antt =====
-- The usage object of the Responses API, read back by usageFromRaw of internal/turn/usage.go.
use codex_model_tester.Base.{
  IsSmall, Option, ap, bytes, none, refl, some, str_eq, through_float, through_float-id, ℤ, ◌∙◌,
  ◌≡◌,
}
use codex_model_tester.Turn.Usage.{
  Usage, usage_object, responses_usage_object, number_value, optional_int64_value, count_or_detail,
  usage_from_raw,
}
use codex_model_tester.Json.{Json, null, object, Fields, get, map_value}

abbrev counts : ℤ → ℤ → Option ℤ → Option ℤ → Usage
counts i o c r = record {
  input_tokens = i;
  output_tokens = o;
  cached_tokens = c;
  reasoning_tokens = r;
}

abbrev written : Usage → Fields
written u =
    usage_object (bytes "input_tokens") (bytes "output_tokens") (bytes "input_tokens_details")
      (bytes "output_tokens_details") u

-- What is read, before the two totals go through a float.
read_back :
    (i o : ℤ) (c r : Option ℤ)
    → usage_from_raw (object (written (counts i o c r)))
      ≡ some (counts (through_float i) (through_float o) c r)
unfolding usage_from_raw usage_object number_value count_or_detail optional_int64_value get str_eq
    map_value
read_back i o none none = refl
read_back i o none (some b) = refl
read_back i o (some a) none = refl
read_back i o (some a) (some b) = refl

abbrev pub as_json : Option Fields → Json
as_json none = null
as_json (some m) = object m

-- Reading back the usage that a response shows gives the counts that it was made of, where the
-- input and output tokens are below 2^53 in size.
pub usage_from_raw-responses_usage_object :
    (u : Usage)
    → IsSmall u.input_tokens
    → IsSmall u.output_tokens
    → usage_from_raw (as_json (responses_usage_object (some u))) ≡ some u
unfolding responses_usage_object
usage_from_raw-responses_usage_object u i o =
    read_back u.input_tokens u.output_tokens u.cached_tokens u.reasoning_tokens
    ∙ ap some (
        ap (λ n. counts n (through_float u.output_tokens) u.cached_tokens u.reasoning_tokens)
          (through_float-id u.input_tokens i)
        ∙ ap (λ n. counts u.input_tokens n u.cached_tokens u.reasoning_tokens)
            (through_float-id u.output_tokens o))
