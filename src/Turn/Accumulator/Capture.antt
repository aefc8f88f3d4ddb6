-- ===== src/Turn/Accumulator/Capture.antt =====
-- captureOutputItem, replaceOutputItems and applyToolArgumentEvent of internal/turn.
use codex_model_tester.Base.{
  Bool, Dict, List, Option, Str, [], bytes, if◌then◌else◌, insert, is_empty, itoa, length, lookup,
  none, or_str, pos, some, str_eq, suc, ℕ, ℤ, ◌&&◌, ◌++◌, ◌||◌, ◌∷◌,
}
use codex_model_tester.Turn.Accumulator.{
  ToolCallState, StreamEvent, Accumulator, EventKind, arguments_delta, arguments_done, input_delta,
  input_done, event_kind, resolve_output_index, output_index_from_map, update_at, update_call,
  ensure_tool_call_state,
}
use codex_model_tester.Turn.ToolNames.{aliases, restore_tool_name}
use codex_model_tester.Json.{Fields, get, no_fields, string_value, clone_fields, first_non_empty}

-- `if name := ...; name != ""`: a name is restored, no name leaves the old one.
abbrev pub named : Str → Dict Str → Str → Str
named [] aliases old = old
named (c ∷ name) aliases old = restore_tool_name (c ∷ name) aliases

-- What an argument event does to its call.
abbrev pub argue : EventKind → Fields → ToolCallState → ToolCallState
argue arguments_delta raw c = record c {
  tool_type = bytes "function";
  arguments = c.arguments ++ string_value (get (bytes "delta") raw);
}
argue arguments_done raw c = record c {
  tool_type = bytes "function";
  arguments = or_str (string_value (get (bytes "arguments") raw)) c.arguments;
  status = bytes "completed";
}
argue input_delta raw c = record c {
  tool_type = bytes "custom";
  input = c.input ++ string_value (get (bytes "delta") raw);
}
argue input_done raw c = record c {
  tool_type = bytes "custom";
  input = or_str (string_value (get (bytes "input") raw)) c.input;
  status = bytes "completed";
}
argue _ raw c = c

abbrev pub rename : Str → Dict Str → ToolCallState → ToolCallState
rename name aliases c = record c { name = named name aliases c.name }

abbrev pub with_call : (ToolCallState → ToolCallState) → Accumulator × Option ℕ → Accumulator
with_call f (a, none) = a
with_call f (a, some i) = update_call i f a

unfoldable pub apply_tool_argument_event : StreamEvent → Accumulator → Accumulator
unfolding ensure_tool_call_state output_index_from_map event_kind
apply_tool_argument_event e a =
    let item_id = string_value (get (bytes "item_id") e.raw) in
    let call_id = first_non_empty (string_value (get (bytes "call_id") e.raw) ∷ item_id ∷ []) in
    let name = string_value (get (bytes "name") e.raw) in
    if is_empty call_id && is_empty item_id
    then a
    else with_call
        (λ c. argue (event_kind e.type) e.raw (rename name a.normalized.tool_name_aliases c))
        (ensure_tool_call_state item_id call_id (output_index_from_map e.raw) a)

abbrev pub is_call_type : Str → Bool
is_call_type type = str_eq type (bytes "function_call") || str_eq type (bytes "custom_tool_call")

-- What an output item does to its call.
unfoldable pub absorb : Str → Dict Str → Fields → ToolCallState → ToolCallState
absorb type aliases item c =
    let renamed = rename (string_value (get (bytes "name") item)) aliases c in
    let filled =
      if str_eq type (bytes "custom_tool_call")
      then record renamed {
        tool_type = bytes "custom";
        input = or_str (string_value (get (bytes "input") item)) c.input;
      }
      else record renamed {
        tool_type = bytes "function";
        arguments = or_str (string_value (get (bytes "arguments") item)) c.arguments;
      } in
    record filled { status = or_str (string_value (get (bytes "status") item)) c.status }

unfoldable pub capture_call : Str → Fields → ℤ → Accumulator → Accumulator
unfolding ensure_tool_call_state absorb
capture_call type item explicit_index a =
    let id = string_value (get (bytes "id") item) in
    let call_id = first_non_empty (string_value (get (bytes "call_id") item) ∷ id ∷ []) in
    let item_id = first_non_empty (id ∷ call_id ∷ []) in
    if is_empty call_id && is_empty item_id
    then a
    else with_call (absorb type a.normalized.tool_name_aliases item)
        (ensure_tool_call_state item_id call_id explicit_index a)

unfoldable pub output_item_key : Fields → ℕ → Str
output_item_key item index =
    let id = string_value (get (bytes "id") item) in
    if is_empty id then bytes "index:" ++ itoa index else bytes "id:" ++ id

-- A known item is written in place, a new one is appended.
unfoldable pub put_item : Fields → ℕ → Str → Option ℕ → Accumulator → Accumulator
put_item item index key (some i) a = record a {
  output_items = update_at i (λ s. record s { item = item; output_index = index }) a.output_items;
}
put_item item index key none a = record a {
  output_items = a.output_items ++ record { output_index = index; item = item } ∷ [];
  output_item_by_key = insert key (length a.output_items) a.output_item_by_key;
}

unfoldable pub capture_item : Fields → ℤ → Accumulator → Accumulator
unfolding resolve_output_index output_item_key put_item
capture_item item explicit_index a =
    let (a', index) = resolve_output_index explicit_index a in
    let key = output_item_key item index in
    put_item (clone_fields item) index key (lookup key a'.output_item_by_key) a'

unfoldable pub capture_output_item : Fields → ℤ → Accumulator → Accumulator
unfolding capture_call capture_item
capture_output_item item explicit_index a =
    let type = string_value (get (bytes "type") item) in
    if no_fields item
    then a
    else if is_call_type type
    then capture_call type item explicit_index a
    else capture_item item explicit_index a

unfoldable pub capture_from : ℕ → List Fields → Accumulator → Accumulator
unfolding capture_output_item
capture_from index [] a = a
capture_from index (item ∷ items) a =
    capture_from (suc index) items (capture_output_item item (pos index) a)

unfoldable pub replace_output_items : List Fields → Accumulator → Accumulator
unfolding capture_from
replace_output_items items a =
    capture_from 0 items (record a { output_items = []; output_item_by_key = [] })

-- `if output := ...; len(output) > 0`
abbrev pub replace_some : List Fields → Accumulator → Accumulator
replace_some [] a = a
replace_some (item ∷ items) a = replace_output_items (item ∷ items) a
