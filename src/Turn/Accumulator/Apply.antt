-- ===== src/Turn/Accumulator/Apply.antt =====
-- `Accumulator.Apply` of internal/turn/accumulator.go, and applyToolArgumentEvent of
-- accumulator_tools.go.
use codex_model_tester.Base.{
  Bool, List, Option, Str, [], bytes, contains_str, has_prefix, if◌then◌else◌, is_empty, none,
  or_str, pos, some, suc, ℤ, ◌++◌, ◌||◌, ◌∷◌,
}
use codex_model_tester.Turn.Accumulator.{
  StreamEvent, Accumulator, EventKind, text_delta, reasoning_delta, text_done, part_done,
  response_completed, response_incomplete, event_kind, is_terminal_kind, output_index_from_map,
}
use codex_model_tester.Turn.Usage.{Usage, int_value, usage_from_raw}
use codex_model_tester.Json.{
  Fields, get, get_opt, string_value, map_value, first_map, slice_of_maps, first_non_empty,
}
use codex_model_tester.Turn.Accumulator.Capture.{
  apply_tool_argument_event, capture_output_item, replace_output_items, replace_some,
}

abbrev pub or_usage : Option Usage → Option Usage → Option Usage
or_usage none old = old
or_usage (some u) old = some u

abbrev pub created_or : Option ℤ → ℤ → ℤ
created_or (some (pos (suc n))) old = pos (suc n)
created_or _ old = old

unfoldable pub apply_response_metadata : Option Fields → Accumulator → Accumulator
unfolding replace_output_items
apply_response_metadata none a = a
apply_response_metadata (some response) a =
    replace_some (slice_of_maps (get (bytes "output") response)) record a {
      response_id = or_str (string_value (get (bytes "id") response)) a.response_id;
      created_at = created_or (int_value (get (bytes "created_at") response)) a.created_at;
      model = or_str (string_value (get (bytes "model") response)) a.model;
      status = or_str (string_value (get (bytes "status") response)) a.status;
      usage = or_usage (usage_from_raw (get (bytes "usage") response)) a.usage;
    }

unfoldable pub apply_root_metadata : Fields → Accumulator → Accumulator
apply_root_metadata raw a = record a {
  response_id = or_str a.response_id (string_value (get (bytes "response_id") raw));
  model = or_str a.model (string_value (get (bytes "model") raw));
}

abbrev pub add_text : Str → Accumulator → Accumulator
add_text s a = record a { text_builder = a.text_builder ++ s }

-- A text that stands in where none came before.
abbrev pub add_first_text : Str → Accumulator → Accumulator
add_first_text s a = if is_empty a.text_builder then add_text s a else a

abbrev pub apply_text : EventKind → Fields → Option Fields → Accumulator → Accumulator
apply_text text_delta raw response a = add_text (string_value (get (bytes "delta") raw)) a
apply_text reasoning_delta raw response a = record a {
  reasoning_summary_builder = a.reasoning_summary_builder ++ string_value (get (bytes "delta") raw);
}
apply_text text_done raw response a = add_first_text (string_value (get (bytes "text") raw)) a
apply_text part_done raw response a =
    add_first_text (string_value (get_opt (bytes "text") (map_value (bytes "part") (some raw)))) a
apply_text response_completed raw response a =
    add_first_text (string_value (get_opt (bytes "output_text") response)) a
apply_text response_incomplete raw response a =
    add_first_text (string_value (get_opt (bytes "output_text") response)) a
apply_text _ raw response a = a

unfoldable pub apply_text_event : StreamEvent → Option Fields → Accumulator → Accumulator
unfolding event_kind
apply_text_event e response a = apply_text (event_kind e.type) e.raw response a

unfoldable pub apply_fallback_text : StreamEvent → Accumulator → Accumulator
apply_fallback_text e a =
    if contains_str e.type (bytes "text")
    then add_first_text
        (first_non_empty (
          string_value (get (bytes "output_text") e.raw)
          ∷ string_value (get_opt (bytes "text") (map_value (bytes "item") (some e.raw)))
          ∷ []))
        a
    else a

-- The item of an event, under either of its names.
abbrev pub item_of : Fields → Option Fields
item_of raw =
    first_map (map_value (bytes "item") (some raw)) (map_value (bytes "output_item") (some raw))

abbrev pub capture_some : Option Fields → ℤ → Accumulator → Accumulator
capture_some none explicit_index a = a
capture_some (some item) explicit_index a = capture_output_item item explicit_index a

unfoldable pub apply_output_event : Fields → Accumulator → Accumulator
unfolding capture_output_item replace_output_items output_index_from_map
apply_output_event raw a =
    replace_some (slice_of_maps (get (bytes "output") raw))
      (capture_some (item_of raw) (output_index_from_map raw) a)

abbrev pub finish_response : Option Fields → Accumulator → Accumulator
finish_response none a = a
finish_response (some response) a =
    replace_some (slice_of_maps (get (bytes "output") response))
      record a { usage = or_usage (usage_from_raw (get (bytes "usage") response)) a.usage }

unfoldable pub apply_terminal_event : StreamEvent → Option Fields → Accumulator → Accumulator
unfolding event_kind replace_output_items
apply_terminal_event e response a =
    if is_terminal_kind (event_kind e.type)
    then finish_response response
        (record a { terminal_event_type = e.type; raw_final = some e.raw })
    else a

abbrev pub is_tool_argument : Str → Bool
is_tool_argument type =
    has_prefix type (bytes "response.function_call_arguments.")
    || has_prefix type (bytes "response.custom_tool_call_input.")

abbrev pub apply_arguments : StreamEvent → Accumulator → Accumulator
apply_arguments e a = if is_tool_argument e.type then apply_tool_argument_event e a else a

abbrev pub apply_usage : Fields → Accumulator → Accumulator
apply_usage raw a = record a { usage = or_usage (usage_from_raw (get (bytes "usage") raw)) a.usage }

unfoldable pub apply : StreamEvent → Accumulator → Accumulator
unfolding apply_response_metadata apply_root_metadata apply_text_event apply_fallback_text
    apply_tool_argument_event apply_output_event apply_terminal_event
apply e a =
    let response = map_value (bytes "response") (some e.raw) in
    let head = apply_root_metadata e.raw (apply_response_metadata response a) in
    let text = apply_fallback_text e (apply_text_event e response head) in
    apply_terminal_event e response
      (apply_usage e.raw (apply_output_event e.raw (apply_arguments e text)))

unfoldable pub run : List StreamEvent → Accumulator → Accumulator
unfolding apply
run [] a = a
run (e ∷ es) a = run es (apply e a)
