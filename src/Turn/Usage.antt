-- ===== src/Turn/Usage.antt =====
-- internal/turn/usage.go: token counts in events, and in the objects that answer a client.
pub mod RoundTrip
use codex_model_tester.Base.{
  Option, Str, add_int, bytes, none, parse_float, parse_int, pos, some, through_float, trim_space,
  truncate, ℤ,
}
use codex_model_tester.Json.{
  Json, float, integer, number, str, object, Fields, end, field, get, get_opt, map_value,
}

pub record Usage : Type 0 where
  pub input_tokens : ℤ
  pub output_tokens : ℤ
  pub cached_tokens : Option ℤ
  pub reasoning_tokens : Option ℤ

abbrev pub counted : Str → Option ℤ → Fields → Fields
counted key none m = m
counted key (some i) m = field key (integer i) m

-- The details under `details_key`, where there are any.
abbrev pub details : Str → Str → Option ℤ → Fields → Fields
details details_key key none m = m
details details_key key (some i) m = field details_key (object (field key (integer i) end)) m

-- `usageObject` with the four keys.
unfoldable pub usage_object : Str → Str → Str → Str → Usage → Fields
usage_object input_key output_key input_details_key output_details_key u =
    field input_key (integer u.input_tokens) (
      field output_key (integer u.output_tokens) (
        field (bytes "total_tokens") (integer (add_int u.input_tokens u.output_tokens)) (
          details input_details_key (bytes "cached_tokens") u.cached_tokens
            (details output_details_key (bytes "reasoning_tokens") u.reasoning_tokens end))))

unfoldable pub chat_usage_object : Option Usage → Option Fields
unfolding usage_object
chat_usage_object none = none
chat_usage_object (some u) = some (
    usage_object (bytes "prompt_tokens") (bytes "completion_tokens") (bytes "prompt_tokens_details")
      (bytes "completion_tokens_details") u)

unfoldable pub responses_usage_object : Option Usage → Option Fields
unfolding usage_object
responses_usage_object none = none
responses_usage_object (some u) = some (
    usage_object (bytes "input_tokens") (bytes "output_tokens") (bytes "input_tokens_details")
      (bytes "output_tokens_details") u)

-- `int64(numberValue(v))`
unfoldable pub number_value : Json → ℤ
number_value (float x) = truncate x
number_value (integer i) = through_float i
number_value (number s) = parse_float s
number_value _ = pos 0

-- The package's own `intValue`: no fractions in a `json.Number`, and no strings.
unfoldable pub int_value : Json → Option ℤ
int_value (integer i) = some i
int_value (float x) = some (truncate x)
int_value (number s) = parse_int s
int_value _ = none

unfoldable pub optional_int64_value : Json → Option ℤ
optional_int64_value (integer i) = some i
optional_int64_value (float x) = some (truncate x)
optional_int64_value (number s) = parse_int s
optional_int64_value (str s) = parse_int (trim_space s)
optional_int64_value _ = none

-- The count under `key`, or else the one in the details.
unfoldable pub count_or_detail : Str → Str → Fields → Option ℤ
unfolding optional_int64_value
count_or_detail key details_key m = elim (optional_int64_value (get key m)) [
  | some i ↦ some i
  | none ↦ optional_int64_value (get_opt key (map_value details_key (some m)))
]

-- A decoded value holds no `Usage`.
unfoldable pub usage_from_raw : Json → Option Usage
unfolding number_value count_or_detail
usage_from_raw (object m) = some record {
  input_tokens = number_value (get (bytes "input_tokens") m);
  output_tokens = number_value (get (bytes "output_tokens") m);
  cached_tokens = count_or_detail (bytes "cached_tokens") (bytes "input_tokens_details") m;
  reasoning_tokens = count_or_detail (bytes "reasoning_tokens") (bytes "output_tokens_details") m;
}
usage_from_raw _ = none
