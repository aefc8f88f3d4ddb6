-- ===== src/Turn/Tests.antt =====
-- Tool names of internal/turn/tool_names.go at concrete data.
use codex_model_tester.Base.{
  ◌≡◌, ◌≢◌, refl, ap, some, List, [], ◌∷◌, ◌++◌, arith, Str, bytes, length, take, lookup, insert,
  str_eq, trim_space, has_prefix,
}
use codex_model_tester.Base.{pos, none}
use codex_model_tester.Turn.Usage.{Usage, responses_usage_object, usage_from_raw}
use codex_model_tester.Turn.Usage.RoundTrip.{as_json, usage_from_raw-responses_usage_object}
use codex_model_tester.Turn.ToolNames.{
  ToolNames, contains, tool_name_candidate, choose_name, register, shorten_trimmed, shorten,
  keep_one, keep_short, shorten_all, new_tool_names, aliases, restore_tool_name,
}
use codex_model_tester.Turn.ToolNames.Promises.{
  new_tool_names-total, new_tool_names-restore, new_tool_names_unique,
}
use codex_model_tester.Turn.ToolNames.Spaces.{restore-cut}

abbrev ten : Str
ten = bytes "abcdefghij"

-- A name of seventy bytes.
abbrev long_name : Str
long_name = ten ++ ten ++ ten ++ ten ++ ten ++ ten ++ ten

abbrev names : List Str
names = long_name ∷ bytes "read" ∷ []

-- The mapping that the names lead to.
abbrev mapping : ToolNames
mapping = record {
  original_to_short = (bytes "read", bytes "read") ∷ (long_name, take 64 long_name) ∷ [];
  short_to_original = (take 64 long_name, long_name) ∷ [];
  used = take 64 long_name ∷ bytes "read" ∷ [];
}

new_tool_names-total_example : (m : ToolNames) × (new_tool_names names ≡ some m)
new_tool_names-total_example = new_tool_names-total names

new_tool_names-restore_example :
    restore_tool_name (take 64 long_name) (aliases mapping) ≡ trim_space long_name
unfolding new_tool_names keep_short keep_one shorten_all shorten shorten_trimmed register
    choose_name tool_name_candidate contains trim_space lookup insert str_eq has_prefix
new_tool_names-restore_example =
    new_tool_names-restore names mapping long_name (take 64 long_name) (omega arith) refl refl
      (λ e. cc) refl

new_tool_names_unique_example : trim_space long_name ≡ trim_space long_name
unfolding new_tool_names keep_short keep_one shorten_all shorten shorten_trimmed register
    choose_name tool_name_candidate contains trim_space lookup insert str_eq has_prefix
new_tool_names_unique_example =
    new_tool_names_unique names mapping long_name long_name (take 64 long_name) (omega arith) refl
      (λ e. cc) (λ e. cc) refl refl

-- A name whose sixty-fourth byte is a space.
abbrev spaced_name : Str
spaced_name = ten ++ ten ++ ten ++ ten ++ ten ++ ten ++ bytes "abc defg"

spaced_name_cut : trim_space (take 64 spaced_name) ≢ take 64 spaced_name
unfolding trim_space
spaced_name_cut e = omega (arith, ap length e)

restore-cut_example :
    (m : ToolNames) × (new_tool_names (spaced_name ∷ []) ≡ some m)
    × (restore_tool_name (take 64 spaced_name) (aliases m) ≡ take 64 spaced_name)
    × (take 64 spaced_name ≢ spaced_name)
unfolding trim_space has_prefix
restore-cut_example = restore-cut spaced_name (omega arith) refl refl spaced_name_cut

abbrev counted_usage : Usage
counted_usage = record {
  input_tokens = pos 12;
  output_tokens = pos 34;
  cached_tokens = some (pos 5);
  reasoning_tokens = none;
}

usage_from_raw-responses_usage_object_example :
    usage_from_raw (as_json (responses_usage_object (some counted_usage))) ≡ some counted_usage
usage_from_raw-responses_usage_object_example =
    usage_from_raw-responses_usage_object counted_usage (omega arith) (omega arith)
