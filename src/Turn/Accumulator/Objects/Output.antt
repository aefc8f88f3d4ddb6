-- ===== src/Turn/Accumulator/Objects/Output.antt =====
-- responsesOutput and ResponsesObject of internal/turn/accumulator.go.
use codex_model_tester.Base.{
  Bool, List, Option, Str, [], bytes, false, if◌then◌else◌, is_empty, length, map, none, not, some,
  str_eq, suc, trim_space, true, ℕ, ◌&&◌, ◌++◌, ◌∷◌,
}
use codex_model_tester.Turn.Accumulator.Objects.{text}
use codex_model_tester.Turn.Accumulator.Emit.{response_output_item, is_incomplete}
use codex_model_tester.Turn.Accumulator.{ToolCallState, OutputItemState, Accumulator}
use codex_model_tester.Turn.Usage.{responses_usage_object}
use codex_model_tester.Json.{
  Json, str, array, object, Items, nil, Fields, end, field, get, put, fields_of, items_of,
  string_value, map_value, slice_of_maps, clone_fields, clone_map, copy, first_non_empty,
}
use codex_model_tester.Accounts.Rotation.{Sign, or_sign, time_compare, sort_func}

pub record OutputEntry : Type 0 where
  pub output_index : ℕ
  pub order : ℕ
  pub item : Fields

-- The status that an item of the output gets.
unfoldable pub call_status : Bool → ToolCallState → Str
call_status incomplete c =
    if incomplete
    then (if is_empty (trim_space c.status) then bytes "incomplete" else c.status)
    else bytes "completed"

unfoldable pub call_entries : Bool → ℕ → List ToolCallState → List OutputEntry
unfolding call_status response_output_item
call_entries incomplete order [] = []
call_entries incomplete order (c ∷ cs) =
    record {
      output_index = c.output_index;
      order = order;
      item = response_output_item (call_status incomplete c) c;
    }
    ∷ call_entries incomplete (suc order) cs

unfoldable pub response_text_content : Str → Items
response_text_content text =
    if is_empty (trim_space text)
    then nil
    else items_of
        (fields_of ((bytes "type", str (bytes "output_text")) ∷ (bytes "text", str text) ∷ []) ∷ [])

abbrev no_maps : List Fields → Bool
no_maps [] = true
no_maps (m ∷ ms) = false

abbrev terminal_status : Bool → Str
terminal_status incomplete = if incomplete then bytes "incomplete" else bytes "completed"

-- A message without content gets the text, one without a status gets the turn's.
unfoldable pub completed_item : Bool → Str → Fields → Fields
unfolding response_text_content
completed_item incomplete text item =
    let filled =
      if no_maps (slice_of_maps (get (bytes "content") item)) && not (is_empty (trim_space text))
      then put (bytes "content") (array (response_text_content text)) item
      else item in
    let finished =
      if is_empty (string_value (get (bytes "status") item))
      then put (bytes "status") (str (terminal_status incomplete)) filled
      else filled in
    if str_eq (string_value (get (bytes "type") item)) (bytes "message") then finished else item

unfoldable pub item_entries : Bool → Str → ℕ → List OutputItemState → List OutputEntry
unfolding completed_item
item_entries incomplete text order [] = []
item_entries incomplete text order (s ∷ ss) =
    record {
      output_index = s.output_index;
      order = order;
      item = completed_item incomplete text (clone_fields s.item);
    }
    ∷ item_entries incomplete text (suc order) ss

abbrev pub by_place : OutputEntry → OutputEntry → Sign
by_place a b = or_sign (time_compare a.output_index b.output_index) (time_compare a.order b.order)

-- The tool calls and then the output items, in the order of their indices.
unfoldable pub output_entries : Str → Accumulator → List OutputEntry
unfolding call_entries item_entries is_incomplete
output_entries text a = sort_func by_place (
    call_entries (is_incomplete a) 0 a.tool_calls
    ++ item_entries (is_incomplete a) text (length a.tool_calls) a.output_items)

-- An output with nothing in it becomes one message, unless there is no text and the turn is incomplete.
abbrev pub or_message : Bool → Str → List Fields → List Fields
or_message incomplete text (m ∷ ms) = m ∷ ms
or_message incomplete text [] =
    if incomplete && is_empty (trim_space text)
    then []
    else fields_of (
        (bytes "type", str (bytes "message"))
        ∷ (bytes "role", str (bytes "assistant"))
        ∷ (bytes "status", str (terminal_status incomplete))
        ∷ (bytes "content", array (response_text_content text))
        ∷ [])
      ∷ []

unfoldable pub responses_output : Str → Accumulator → List Fields
unfolding output_entries is_incomplete response_text_content
responses_output text a =
    or_message (is_incomplete a) text (map (λ e. e.item) (output_entries text a))

abbrev or_end : Option Fields → Fields
or_end none = end
or_end (some m) = m

-- One member of the rebuilt usage: details are merged, a count is set.
abbrev pub merge_member : Str → Json → Fields → Fields
merge_member key (object members) usage =
    put key (object (copy (or_end (clone_map (map_value key (some usage)))) members)) usage
merge_member key value usage = put key value usage

unfoldable pub merge_usage : Fields → Fields → Fields
merge_usage usage end = usage
merge_usage usage (field key value rebuilt) = merge_usage (merge_member key value usage) rebuilt

abbrev with_usage : Option Fields → Fields → Fields
with_usage none response = response
with_usage (some rebuilt) response =
    put (bytes "usage")
      (object
        (merge_usage (or_end (clone_map (map_value (bytes "usage") (some response)))) rebuilt))
      response

-- The first text that is not blank of the member, between two others.
abbrev pub member_or : Str → Str → Fields → Str → Str
member_or before key response after =
    first_non_empty (before ∷ string_value (get key response) ∷ after ∷ [])

unfoldable pub responses_object : Accumulator → Fields
unfolding text responses_output merge_usage responses_usage_object
responses_object a =
    let r = or_end (clone_map (map_value (bytes "response") a.raw_final)) in
    let object_kind =
      first_non_empty (string_value (get (bytes "object") r) ∷ bytes "response" ∷ []) in
    with_usage (responses_usage_object a.usage) (
      put (bytes "output_text") (str (text a)) (
        put (bytes "output") (array (items_of (responses_output (text a) a))) (
          put (bytes "status") (str (member_or a.status (bytes "status") r (bytes "completed"))) (
            put (bytes "model")
              (str (member_or a.model (bytes "model") r a.normalized.request.model))
              (put (bytes "object") (str object_kind) (
                put (bytes "id") (str (member_or a.response_id (bytes "id") r (bytes "resp_proxy")))
                  r))))))
