-- ===== src/Turn/Accumulator/Objects.antt =====
-- The objects that answer a client: Text, the finish reasons, ChatCompletionObject, CompletionObject,
-- ResponsesObject and what they are made of, in internal/turn/accumulator.go. The time of the answer,
-- where the upstream named none, is an argument.
pub mod Output
pub mod Promises
pub mod Completion
use codex_model_tester.Base.{
  Bool, List, Option, Str, [], bytes, if◌then◌else◌, is_empty, map, negsuc, none, not, or_str, pos,
  some, str_eq, suc, to_lower, trim_space, ℕ, ℤ, ◌++◌, ◌==◌, ◌||◌, ◌∷◌,
}
use codex_model_tester.Turn.Accumulator.{ToolCallState, OutputItemState, Accumulator}
use codex_model_tester.Turn.Accumulator.Emit.{is_incomplete}
use codex_model_tester.Json.{
  integer, str, object, Fields, get, get_opt, fields_of, string_value, map_value, slice_of_maps,
  first_non_empty,
}
use codex_model_tester.Accounts.Rotation.{Sign, time_compare, sort_func}

abbrev by_index : OutputItemState → OutputItemState → Sign
by_index a b = time_compare a.output_index b.output_index

unfoldable pub sorted_output_items : Accumulator → List Fields
sorted_output_items a = map (λ s. s.item) (sort_func by_index a.output_items)

-- The first text that is not empty among an item's parts.
unfoldable pub content_text : List Fields → Str
content_text [] = []
content_text (part ∷ parts) = or_str (string_value (get (bytes "text") part)) (content_text parts)

unfoldable pub message_text : List Fields → Str
unfolding content_text
message_text [] = []
message_text (item ∷ items) =
    let rest = message_text items in
    if str_eq (string_value (get (bytes "type") item)) (bytes "message")
    then or_str (content_text (slice_of_maps (get (bytes "content") item))) rest
    else rest

unfoldable pub text : Accumulator → Str
unfolding sorted_output_items message_text
text a = or_str (trim_space a.text_builder) (message_text (sorted_output_items a))

unfoldable pub is_completed : Accumulator → Bool
is_completed a = str_eq a.terminal_event_type (bytes "response.completed")

unfoldable pub is_terminal : Accumulator → Bool
is_terminal a = not (is_empty a.terminal_event_type)

unfoldable pub native_finish_reason : Accumulator → Str
unfolding is_incomplete
native_finish_reason a =
    let response = map_value (bytes "response") a.raw_final in
    let incomplete = map_value (bytes "incomplete_details") response in
    if is_incomplete a
    then first_non_empty (
        string_value (get_opt (bytes "reason") incomplete)
        ∷ string_value (get_opt (bytes "stop_reason") response)
        ∷ [])
    else []

-- The `switch` on the native reason of an incomplete response.
unfoldable pub incomplete_reason : Str → Str
incomplete_reason reason =
    if str_eq reason (bytes "max_tokens")
      || str_eq reason (bytes "max_output_tokens")
      || str_eq reason (bytes "context_length_exceeded")
    then bytes "length"
    else if str_eq reason (bytes "content_filter") || str_eq reason (bytes "refusal")
    then bytes "content_filter"
    else bytes "stop"

abbrev pub calls_reason : List ToolCallState → Str
calls_reason [] = bytes "stop"
calls_reason (c ∷ cs) = bytes "tool_calls"

unfoldable pub chat_finish_reason : Accumulator → Str
unfolding is_incomplete native_finish_reason incomplete_reason
chat_finish_reason a =
    if is_incomplete a
    then incomplete_reason (native_finish_reason a)
    else calls_reason a.tool_calls

unfoldable pub reasoning_summary : Accumulator → Str
reasoning_summary a = trim_space a.reasoning_summary_builder

unfoldable pub created_at : ℕ → Accumulator → ℤ
created_at now a = elim a.created_at [
  | pos n ↦ if n == 0 then pos now else pos n
  | negsuc n ↦ pos now
]

abbrev mime_type : Str → Str
mime_type format =
    if str_eq format (bytes "jpeg") || str_eq format (bytes "jpg")
    then bytes "image/jpeg"
    else if str_eq format (bytes "webp")
    then bytes "image/webp"
    else if str_eq format (bytes "gif")
    then bytes "image/gif"
    else bytes "image/png"

unfoldable pub chat_image : ℕ → Str → Str → Option Fields
unfolding to_lower
chat_image index output_format base64_data =
    if is_empty (trim_space base64_data)
    then none
    else some (
        fields_of (
          (bytes "index", integer (pos index))
          ∷ (bytes "type", str (bytes "image_url"))
          ∷ (
            bytes "image_url",
            object (
                fields_of (
                  (
                    bytes "url",
                    str (
                        bytes "data:"
                        ++ (mime_type (to_lower (trim_space output_format))
                            ++ (bytes ";base64," ++ base64_data))),
                  )
                  ∷ [])),
          )
          ∷ []))

abbrev pub image_of : ℕ → Fields → Option Fields
image_of index item =
    if str_eq (string_value (get (bytes "type") item)) (bytes "image_generation_call")
    then chat_image index (string_value (get (bytes "output_format") item))
        (string_value (get (bytes "result") item))
    else none

abbrev next_image : ℕ → Option Fields → ℕ
next_image index none = index
next_image index (some image) = suc index

abbrev add_image : Option Fields → List Fields → List Fields
add_image none images = images
add_image (some image) images = image ∷ images

-- The loop of `ChatImages`, from the index of the next image.
unfoldable pub images_from : ℕ → List Fields → List Fields
unfolding chat_image
images_from index [] = []
images_from index (item ∷ items) =
    add_image (image_of index item) (images_from (next_image index (image_of index item)) items)

unfoldable pub chat_images : Accumulator → List Fields
unfolding images_from sorted_output_items
chat_images a = images_from 0 (sorted_output_items a)
