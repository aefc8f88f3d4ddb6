-- ===== src/Server/Session/History.antt =====
-- internal/server/continuation_history.go, functionCallIDs of session.go and rememberContinuation of
-- public.go: what is stored of a turn, for the requests after it.
pub mod Remembered
use codex_model_tester.Conversation.Continuation.{put as store}
use codex_model_tester.Base.{
  Bool, Dict, List, Option, Str, [], bytes, false, if◌then◌else◌, is_empty, none, or_str, some,
  str_eq, trim_space, true, ℕ, ◌&&◌, ◌++◌, ◌||◌, ◌∷◌,
}
use codex_model_tester.Json.{Fields, get, no_fields, string_value, slice_of_maps, first_non_empty}
use codex_model_tester.Turn.Types.{ContentPart, ReasoningPart, InputItem, elements}
use codex_model_tester.Turn.Request.{NormalizedRequest}
use codex_model_tester.Turn.ToolNames.{contains, aliases, upstream_tool_name}
use codex_model_tester.Conversation.Continuation.{ContinuationRecord, ContinuationManager}
use codex_model_tester.Conversation.Key.{derive}
use codex_model_tester.Accounts.Types.{Time}
use codex_model_tester.Turn.Accumulator.{ToolCallState, Accumulator}
use codex_model_tester.Turn.Accumulator.Objects.{text, created_at}
use codex_model_tester.Turn.Accumulator.Objects.Output.{responses_output}

-- A slice that is nil where there is nothing to put in it.
abbrev pub or_nil : {A : Type 0} → List A → Option (List A)
or_nil [] = none
or_nil (x ∷ xs) = some (x ∷ xs)

unfoldable summary_parts : List Fields → List ReasoningPart
summary_parts [] = []
summary_parts (p ∷ ps) =
    record {
      type = string_value (get (bytes "type") p);
      text = string_value (get (bytes "text") p);
    }
    ∷ summary_parts ps

unfoldable pub summary_parts_from_maps : List Fields → Option (List ReasoningPart)
unfolding summary_parts
summary_parts_from_maps ps = or_nil (summary_parts ps)

unfoldable content_parts : List Fields → List ContentPart
content_parts [] = []
content_parts (p ∷ ps) =
    record {
      type = string_value (get (bytes "type") p);
      text = string_value (get (bytes "text") p);
      image_url = string_value (get (bytes "image_url") p);
      detail = string_value (get (bytes "detail") p);
      file_url = string_value (get (bytes "file_url") p);
      file_data = string_value (get (bytes "file_data") p);
      file_id = string_value (get (bytes "file_id") p);
      filename = string_value (get (bytes "filename") p);
    }
    ∷ content_parts ps

unfoldable pub content_parts_from_maps : List Fields → Option (List ContentPart)
unfolding content_parts
content_parts_from_maps ps = or_nil (content_parts ps)

-- A message loses its type, and is the assistant's where it names no role.
abbrev pub as_message : InputItem → InputItem
as_message i = record i { role = or_str i.role (bytes "assistant"); type = [] }

abbrev no_parts : List ContentPart → Bool
no_parts [] = true
no_parts (p ∷ ps) = false

-- The item that is left out.
abbrev pub is_hollow : InputItem → Bool
is_hollow i =
    is_empty i.role
    && is_empty i.type
    && no_parts (elements i.content)
    && no_parts (elements i.output_content)
    && is_empty i.call_id
    && is_empty i.id

-- The item before its type is looked at.
unfoldable pub item_from_map : Fields → Dict Str → InputItem
unfolding summary_parts_from_maps content_parts_from_maps
item_from_map m aliases = record {
  role = string_value (get (bytes "role") m);
  type = string_value (get (bytes "type") m);
  phase = string_value (get (bytes "phase") m);
  content = content_parts_from_maps (slice_of_maps (get (bytes "content") m));
  call_id = string_value (get (bytes "call_id") m);
  name = upstream_tool_name (string_value (get (bytes "name") m)) aliases;
  input = string_value (get (bytes "input") m);
  arguments = string_value (get (bytes "arguments") m);
  output_text = string_value (get (bytes "output") m);
  output_content = content_parts_from_maps (slice_of_maps (get (bytes "output") m));
  id = string_value (get (bytes "id") m);
  status = string_value (get (bytes "status") m);
  summary = summary_parts_from_maps (slice_of_maps (get (bytes "summary") m));
  encrypted_content = string_value (get (bytes "encrypted_content") m);
}

unfoldable pub typed_item : InputItem → InputItem
typed_item i = if str_eq i.type (bytes "message") then as_message i else i

unfoldable pub continuation_input_item_from_response_output : Fields → Dict Str → Option InputItem
unfolding item_from_map typed_item
continuation_input_item_from_response_output m aliases =
    let i = typed_item (item_from_map m aliases) in
    if no_fields m || is_hollow i then none else some i

abbrev pub add_item : Option InputItem → List InputItem → List InputItem
add_item none is = is
add_item (some i) is = i ∷ is

unfoldable pub items_from_output : Dict Str → List Fields → List InputItem
unfolding continuation_input_item_from_response_output
items_from_output aliases [] = []
items_from_output aliases (m ∷ ms) =
    add_item (continuation_input_item_from_response_output m aliases) (items_from_output aliases ms)

-- `ResponsesObject()["output"]` is the output for the text of the turn.
unfoldable pub continuation_output_history : Accumulator → List InputItem
unfolding items_from_output
continuation_output_history a =
    items_from_output a.normalized.tool_name_aliases (responses_output (text a) a)

unfoldable pub continuation_input_history : Accumulator → List InputItem
unfolding continuation_output_history
continuation_input_history a = a.normalized.request.input ++ continuation_output_history a

-- The trimmed call IDs, each once; `seen` has those before.
unfoldable pub call_ids_from : List Str → List ToolCallState → List Str
call_ids_from seen [] = []
call_ids_from seen (c ∷ cs) =
    let id = trim_space c.call_id in
    let skip = is_empty id || contains id seen in
    let rest = call_ids_from (if skip then seen else id ∷ seen) cs in
    if skip then rest else id ∷ rest

unfoldable pub function_call_ids : Accumulator → List Str
unfolding call_ids_from
function_call_ids a = call_ids_from [] a.tool_calls

module _ (sum256 : Str → List ℕ) (strip_reminder : Str → Str) where
  unfoldable pub resolution_conversation_key : NormalizedRequest → Str
  resolution_conversation_key n = elim (trim_space n.request.prompt_cache_key) [
    | [] ↦ derive sum256 strip_reminder n.request
    | c ∷ key ↦ c ∷ key
  ]

  unfoldable pub stored_key : NormalizedRequest → Str
  unfolding resolution_conversation_key
  stored_key n =
      if is_empty (trim_space n.request.prompt_cache_key)
      then resolution_conversation_key n
      else n.request.prompt_cache_key

  -- The record of a turn; its times are stamped when it is put.
  unfoldable pub continuation_of : Str → Str → Accumulator → ContinuationRecord
  unfolding stored_key continuation_input_history function_call_ids
  continuation_of account_id turn_state a = record {
    response_id = a.response_id;
    account_id = account_id;
    conversation_key = stored_key a.normalized;
    turn_state = trim_space turn_state;
    instructions = trim_space a.normalized.request.instructions;
    model = first_non_empty (a.model ∷ a.normalized.request.model ∷ []);
    input_history = continuation_input_history a;
    function_call_ids = function_call_ids a;
    tool_name_aliases = a.normalized.tool_name_aliases;
    created_at = 0;
    expires_at = 0;
  }

  unfoldable pub remember_continuation :
      Time → Time → Str → Str → Accumulator → ContinuationManager → ContinuationManager
  unfolding continuation_of store
  remember_continuation created stored account_id turn_state a m =
      if is_empty a.response_id
      then m
      else store created stored (continuation_of account_id turn_state a) m
