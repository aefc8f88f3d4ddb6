-- ===== src/Turn/Accumulator/Tests.antt =====
-- Turns of internal/turn/accumulator.go at concrete data.
use codex_model_tester.Turn.Usage.{int_value}
use codex_model_tester.Json.{map_value, get, first_non_empty}
use codex_model_tester.Base.{
  In, List, [], bytes, inl, length, refl, ◌++◌, ◌+◌, ◌∷◌, ◌≡◌, ◌≤◌, lookup, str_eq, trim_space,
  has_prefix, contains_str, insert, fold_eq,
}
use codex_model_tester.Turn.Samples.{
  question, normalized_of, say, think, call_added, call_argued, tool_call, called,
}
use codex_model_tester.Turn.Request.{NormalizedRequest}
use codex_model_tester.Turn.Accumulator.{StreamEvent, new_accumulator, update_at}
use codex_model_tester.Turn.Accumulator.Apply.{run}
use codex_model_tester.Turn.Accumulator.Text.{text_deltas, run-text_deltas}
use codex_model_tester.Turn.Accumulator.Emit.{response_output_item, is_incomplete}
use codex_model_tester.Turn.Accumulator.Emit.Counts.{emitted, added_type, done_type}
use codex_model_tester.Turn.Accumulator.Emit.Runs.{serve_all, finish}
use codex_model_tester.Turn.Accumulator.Emit.Promises.{serve_all-bounds, finish-done}
use codex_model_tester.Turn.Accumulator.Objects.Output.{responses_output}
use codex_model_tester.Turn.Accumulator.Objects.Promises.{responses_output-call}

abbrev plain : NormalizedRequest
plain = normalized_of (question ∷ [])

-- A call that is announced, and whose arguments come.
abbrev calling : List StreamEvent
calling = call_added ∷ call_argued ∷ []

served_once :
    emitted added_type (serve_all (call_added ∷ call_argued ∷ []) (new_accumulator plain)).1 ≡ 1
unfolding emitted serve_all lookup str_eq map_value get first_non_empty trim_space has_prefix
    contains_str new_accumulator insert int_value update_at
served_once = refl

run-text_deltas_example :
    (run
      (say (bytes "b") ∷ think (bytes "z") ∷ say (bytes "c") ∷ [])
      (run (say (bytes "a") ∷ []) (new_accumulator plain))).text_builder
    ≡ (run (say (bytes "a") ∷ []) (new_accumulator plain)).text_builder
      ++ text_deltas (say (bytes "b") ∷ think (bytes "z") ∷ say (bytes "c") ∷ [])
unfolding run lookup str_eq get map_value has_prefix contains_str new_accumulator
run-text_deltas_example =
    run-text_deltas (say (bytes "a") ∷ [])
      (say (bytes "b") ∷ think (bytes "z") ∷ say (bytes "c") ∷ []) plain refl

serve_all-bounds_example :
    (emitted done_type (serve_all calling (new_accumulator plain)).1
      ≤ emitted added_type (serve_all calling (new_accumulator plain)).1)
    × (emitted added_type (serve_all calling (new_accumulator plain)).1
        ≤ length (serve_all calling (new_accumulator plain)).0.tool_calls)
serve_all-bounds_example = serve_all-bounds calling plain

finish-done_example :
    (emitted added_type (finish (serve_all calling (new_accumulator plain))).1
      ≡ length (finish (serve_all calling (new_accumulator plain))).0.tool_calls)
    × (emitted done_type (finish (serve_all calling (new_accumulator plain))).1
        ≡ length (finish (serve_all calling (new_accumulator plain))).0.tool_calls)
unfolding is_incomplete str_eq serve_all lookup get map_value has_prefix first_non_empty trim_space
    contains_str new_accumulator insert int_value update_at fold_eq
finish-done_example = finish-done calling plain refl

responses_output-call_example :
    In (response_output_item (bytes "completed") tool_call) (responses_output (bytes "done") called)
    × (length (responses_output (bytes "done") called)
        ≡ length called.tool_calls + length called.output_items)
unfolding is_incomplete str_eq fold_eq trim_space
responses_output-call_example =
    responses_output-call (bytes "done") called tool_call refl (inl refl)
