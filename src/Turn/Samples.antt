-- ===== src/Turn/Samples.antt =====
-- Requests and items of internal/turn for the tests.
use codex_model_tester.Base.{List, Str, [], bytes, false, none, pos, true, ◌∷◌}
use codex_model_tester.Turn.Types.{InputItem}
use codex_model_tester.Turn.Request.{Request, NormalizedRequest, text_part, message_item}
use codex_model_tester.Turn.Accumulator.{ToolCallState, StreamEvent, Accumulator}
use codex_model_tester.Json.{str, object, Fields, end, field}

abbrev pub question : InputItem
question = message_item (bytes "user") (text_part (bytes "input_text") (bytes "hi") ∷ [])

abbrev pub reply : InputItem
reply = message_item (bytes "assistant") (text_part (bytes "output_text") (bytes "ho") ∷ [])

abbrev pub follow_up : InputItem
follow_up = message_item (bytes "user") (text_part (bytes "input_text") (bytes "more") ∷ [])

abbrev pub request_of : List InputItem → Request
request_of items = record {
  model = bytes "m";
  instructions = [];
  input = items;
  stream = true;
  store = false;
  tools = [];
  tool_choice = [];
  text = none;
  reasoning = none;
  service_tier = [];
  previous_response_id = [];
  prompt_cache_key = bytes "talk";
  include = [];
  parallel_tool_calls = none;
}

abbrev pub normalized_of : List InputItem → NormalizedRequest
normalized_of items = record {
  request = request_of items;
  model_explicit = true;
  generate = none;
  web_socket_append = false;
  tuple_schema = none;
  response_schema = none;
  tool_name_aliases = [];
}

-- An event whose object has these texts.
abbrev pub fields : List (Str × Str) → Fields
fields [] = end
fields ((key, value) ∷ rest) = field key (str value) (fields rest)

abbrev pub event : Str → List (Str × Str) → StreamEvent
event type members = record { type = type; raw = fields members }

abbrev pub say : Str → StreamEvent
say text = event (bytes "response.output_text.delta") ((bytes "delta", text) ∷ [])

abbrev pub think : Str → StreamEvent
think text = event (bytes "response.reasoning_summary_text.delta") ((bytes "delta", text) ∷ [])

-- The announcement of a call of a tool, and its arguments.
abbrev pub call_added : StreamEvent
call_added = record {
  type = bytes "response.output_item.added";
  raw =
      field (bytes "item")
        (object (
          fields (
            (bytes "type", bytes "function_call")
            ∷ (bytes "id", bytes "fc")
            ∷ (bytes "call_id", bytes "c")
            ∷ (bytes "name", bytes "f")
            ∷ [])))
        end;
}

abbrev pub call_argued : StreamEvent
call_argued =
    event (bytes "response.function_call_arguments.done")
      ((bytes "item_id", bytes "fc") ∷ (bytes "arguments", bytes "{}") ∷ [])

abbrev pub tool_call : ToolCallState
tool_call = record {
  item_id = bytes "fc";
  call_id = bytes "c";
  tool_type = bytes "function_call";
  name = bytes "f";
  input = [];
  arguments = bytes "{}";
  output_index = 0;
  status = bytes "completed";
  added_emitted = false;
  done_emitted = false;
}

-- A turn that answers `question` with one call.
abbrev pub called : Accumulator
called = record {
  normalized = normalized_of (question ∷ []);
  response_id = bytes "resp";
  created_at = pos 0;
  model = bytes "m";
  text_builder = [];
  reasoning_summary_builder = [];
  usage = none;
  tool_calls = tool_call ∷ [];
  tool_call_by_id = (bytes "fc", 0) ∷ (bytes "c", 0) ∷ [];
  output_items = [];
  output_item_by_key = [];
  status = bytes "completed";
  terminal_event_type = bytes "response.completed";
  raw_final = none;
  next_output_index = 1;
}
