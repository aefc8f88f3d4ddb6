-- ===== src/Turn/Accumulator/Emit.antt =====
-- The events for a client of the Responses API: ResponsesStreamEventsForEvent and
-- PendingResponseToolCallCompletionEvents of internal/turn/accumulator.go, with their helpers in
-- accumulator_tools.go.
pub mod Counts
pub mod Runs
pub mod Promises
use codex_model_tester.Base.{
  Bool, List, Option, Str, [], bytes, false, fold_eq, get_elem?, if◌then◌else◌, is_empty, none, not,
  pos, some, str_eq, trim_space, true, ℕ, ◌&&◌, ◌++◌, ◌||◌, ◌∷◌,
}
use codex_model_tester.Turn.Accumulator.{
  ToolCallState, ResponseStreamEvent, StreamEvent, Accumulator, EventKind, arguments_delta,
  arguments_done, input_delta, input_done, item_added, item_done, event_kind, update_call,
  find_call,
}
use codex_model_tester.Turn.Accumulator.Apply.{item_of}
use codex_model_tester.Turn.Accumulator.Capture.{is_call_type}
use codex_model_tester.Json.{
  Json, integer, str, object, Fields, get, get_opt, fields_of, string_value, first_non_empty,
}

unfoldable pub response_output_item : Str → ToolCallState → Fields
response_output_item status c =
    let item_status = first_non_empty (status ∷ c.status ∷ bytes "completed" ∷ []) in
    if str_eq c.tool_type (bytes "custom")
    then fields_of (
        (bytes "type", str (bytes "custom_tool_call"))
        ∷ (bytes "id", str c.item_id)
        ∷ (bytes "call_id", str c.call_id)
        ∷ (bytes "name", str c.name)
        ∷ (bytes "input", str c.input)
        ∷ (bytes "status", str item_status)
        ∷ [])
    else fields_of (
        (bytes "type", str (bytes "function_call"))
        ∷ (bytes "id", str c.item_id)
        ∷ (bytes "call_id", str c.call_id)
        ∷ (bytes "name", str c.name)
        ∷ (bytes "arguments", str c.arguments)
        ∷ (bytes "status", str item_status)
        ∷ [])

-- The call ID and the item ID of an argument event.
abbrev pub argument_ids : Fields → Str × Str
argument_ids raw =
    let item_id = string_value (get (bytes "item_id") raw) in
    (first_non_empty (string_value (get (bytes "call_id") raw) ∷ item_id ∷ []), item_id)

-- Those of an event with an item, none where the item is no call.
abbrev pub item_ids : Fields → Option (Str × Str)
item_ids raw =
    let item = item_of raw in
    let item_id =
      first_non_empty (
        string_value (get_opt (bytes "id") item) ∷ string_value (get (bytes "item_id") raw) ∷ []) in
    if is_call_type (string_value (get_opt (bytes "type") item))
    then some
        (first_non_empty (string_value (get_opt (bytes "call_id") item) ∷ item_id ∷ []), item_id)
    else none

-- The call that an event is about: its two IDs, none for an event about no call.
unfoldable pub event_ids : StreamEvent → Option (Str × Str)
unfolding event_kind
event_ids e = elim (event_kind e.type) [
  | arguments_delta ↦ some (argument_ids e.raw)
  | arguments_done ↦ some (argument_ids e.raw)
  | input_delta ↦ some (argument_ids e.raw)
  | input_done ↦ some (argument_ids e.raw)
  | item_added ↦ item_ids e.raw
  | item_done ↦ item_ids e.raw
  | _ ↦ none
]

abbrev pub found_call : Option (Str × Str) → Accumulator → Option ℕ
found_call none a = none
found_call (some (call_id, item_id)) a = find_call call_id item_id a.tool_call_by_id

unfoldable pub tool_call_state_for_event : StreamEvent → Accumulator → Option ℕ
unfolding event_ids find_call
tool_call_state_for_event e a = found_call (event_ids e) a

abbrev pub mark_added : ToolCallState → ToolCallState
mark_added c = record c {
  added_emitted = true;
  status = first_non_empty (c.status ∷ bytes "in_progress" ∷ []);
}

abbrev pub mark_done : ToolCallState → ToolCallState
mark_done c = record c { status = bytes "completed"; done_emitted = true }

abbrev pub event_of : Str → Fields → ResponseStreamEvent
event_of type payload = record { type = type; payload = payload }

abbrev pub index_value : ToolCallState → Json
index_value c = integer (pos c.output_index)

unfoldable pub added_event : ToolCallState → ResponseStreamEvent
unfolding response_output_item
added_event c = event_of (bytes "response.output_item.added") (
    fields_of (
      (bytes "output_index", index_value c)
      ∷ (bytes "item", object (response_output_item (bytes "in_progress") c))
      ∷ []))

-- `ensureResponseOutputItemAdded` on the call: the call after it, and the events.
unfoldable pub ensure_added : ToolCallState → ToolCallState × List ResponseStreamEvent
unfolding added_event
ensure_added c =
    if c.added_emitted then (c, []) else (mark_added c, added_event (mark_added c) ∷ [])

-- The last of a call's arguments or input.
unfoldable pub arguments_event : ToolCallState → ResponseStreamEvent
arguments_event c =
    if str_eq c.tool_type (bytes "custom")
    then event_of (bytes "response.custom_tool_call_input.done") (
        fields_of (
          (bytes "item_id", str c.item_id)
          ∷ (bytes "output_index", index_value c)
          ∷ (bytes "input", str c.input)
          ∷ []))
    else event_of (bytes "response.function_call_arguments.done") (
        fields_of (
          (bytes "item_id", str c.item_id)
          ∷ (bytes "call_id", str c.call_id)
          ∷ (bytes "output_index", index_value c)
          ∷ (bytes "name", str c.name)
          ∷ (bytes "arguments", str c.arguments)
          ∷ []))

unfoldable pub done_event : ToolCallState → ResponseStreamEvent
unfolding response_output_item
done_event c = event_of (bytes "response.output_item.done") (
    fields_of (
      (bytes "output_index", index_value c)
      ∷ (bytes "item", object (response_output_item (bytes "completed") c))
      ∷ []))

-- The completion of a call that was not completed before.
unfoldable pub complete_call : ToolCallState → ToolCallState × List ResponseStreamEvent
unfolding ensure_added arguments_event done_event
complete_call c =
    let (c', events) = ensure_added c in
    (mark_done c', events ++ arguments_event c' ∷ done_event (mark_done c') ∷ [])

unfoldable pub ensure_completed : ToolCallState → ToolCallState × List ResponseStreamEvent
unfolding complete_call
ensure_completed c = if c.done_emitted then (c, []) else complete_call c

-- The delta of an argument event, where it is not empty.
unfoldable pub delta_events : StreamEvent → ToolCallState → List ResponseStreamEvent
delta_events e c =
    let delta = string_value (get (bytes "delta") e.raw) in
    if is_empty delta
    then []
    else event_of e.type (
        fields_of (
          (bytes "item_id", str c.item_id)
          ∷ (bytes "output_index", index_value c)
          ∷ (bytes "delta", str delta)
          ∷ []))
      ∷ []

unfoldable pub answer_delta : StreamEvent → ToolCallState → ToolCallState × List ResponseStreamEvent
unfolding ensure_added delta_events
answer_delta e c = let (c', events) = ensure_added c in (c', events ++ delta_events e c')

-- What an event makes of its call.
abbrev pub answer :
    EventKind → StreamEvent → ToolCallState → ToolCallState × List ResponseStreamEvent
answer arguments_delta e c = answer_delta e c
answer input_delta e c = answer_delta e c
answer arguments_done e c = ensure_completed c
answer input_done e c = ensure_completed c
answer item_done e c = ensure_completed c
answer item_added e c = ensure_added c
answer _ e c = (c, [])

-- The events, and whether they stand in for the event of the upstream.
abbrev pub answer_call :
    StreamEvent
    → Option ℕ
    → Option ToolCallState
    → Accumulator
    → Accumulator × List ResponseStreamEvent × Bool
answer_call e (some i) (some c) a =
    let (c', events) = answer (event_kind e.type) e c in (update_call i (λ _. c') a, events, true)
answer_call e _ _ a = (a, [], false)

abbrev pub call_at : Option ℕ → List ToolCallState → Option ToolCallState
call_at none calls = none
call_at (some i) calls = get_elem? calls i

unfoldable pub responses_stream_events_for_event :
    StreamEvent → Accumulator → Accumulator × List ResponseStreamEvent × Bool
unfolding tool_call_state_for_event event_kind answer_delta ensure_added ensure_completed
responses_stream_events_for_event e a =
    let found = tool_call_state_for_event e a in answer_call e found (call_at found a.tool_calls) a

unfoldable pub is_incomplete : Accumulator → Bool
is_incomplete a =
    str_eq a.terminal_event_type (bytes "response.incomplete")
    || fold_eq (trim_space a.status) (bytes "incomplete")

-- Whether the loop passes over the call.
unfoldable pub is_skipped : Bool → ToolCallState → Bool
is_skipped incomplete c =
    c.done_emitted || (incomplete && not (fold_eq (trim_space c.status) (bytes "completed")))

unfoldable pub pending_calls :
    Bool → List ToolCallState → List ToolCallState × List ResponseStreamEvent
unfolding is_skipped ensure_completed
pending_calls incomplete [] = ([], [])
pending_calls incomplete (c ∷ cs) =
    let (cs', later) = pending_calls incomplete cs in
    let (c', events) = ensure_completed c in
    if is_skipped incomplete c then (c ∷ cs', later) else (c' ∷ cs', events ++ later)

unfoldable pub pending_response_tool_call_completion_events :
    Accumulator → Accumulator × List ResponseStreamEvent
unfolding pending_calls is_incomplete
pending_response_tool_call_completion_events a =
    let (calls, events) = pending_calls (is_incomplete a) a.tool_calls in
    (record a { tool_calls = calls }, events)
