-- ===== src/Turn/Accumulator/Objects/Completion.antt =====
-- ChatCompletionObject, CompletionObject and the chunks of a stream, in internal/turn/accumulator.go.
use codex_model_tester.Base.{
  List, Option, Str, [], bytes, if◌then◌else◌, map, none, pos, some, str_eq, ℕ, ℤ, ◌∷◌,
}
use codex_model_tester.Turn.Accumulator.{ToolCallState, Accumulator}
use codex_model_tester.Turn.Usage.{chat_usage_object}
use codex_model_tester.Turn.Request.{Reasoning, set_text}
use codex_model_tester.Json.{
  Json, null, integer, str, array, object, Fields, put, fields_of, items_of, first_non_empty,
}
use codex_model_tester.Turn.Accumulator.Objects.{
  text, native_finish_reason, chat_finish_reason, reasoning_summary, created_at, chat_images,
}

unfoldable pub chat_completion_tool_call : ToolCallState → Fields
chat_completion_tool_call c =
    if str_eq c.tool_type (bytes "custom")
    then fields_of (
        (bytes "id", str c.call_id)
        ∷ (bytes "type", str (bytes "custom"))
        ∷ (
          bytes "custom",
          object (fields_of ((bytes "name", str c.name) ∷ (bytes "input", str c.input) ∷ [])),
        )
        ∷ [])
    else fields_of (
        (bytes "id", str c.call_id)
        ∷ (bytes "type", str (bytes "function"))
        ∷ (
          bytes "function",
          object
              (fields_of ((bytes "name", str c.name) ∷ (bytes "arguments", str c.arguments) ∷ [])),
        )
        ∷ [])

-- A member that stands only where the list is not empty.
abbrev unless_empty : Str → List Fields → Fields → Fields
unless_empty key [] m = m
unless_empty key (x ∷ xs) m = put key (array (items_of (x ∷ xs))) m

abbrev opt_object : Option Fields → Json
opt_object none = null
opt_object (some m) = object m

abbrev summary_if_asked : Option Reasoning → Str → Fields → Fields
summary_if_asked none summary m = m
summary_if_asked (some r) summary m = set_text (bytes "reasoning_content") summary m

unfoldable pub chat_message : Accumulator → Fields
unfolding text reasoning_summary chat_completion_tool_call chat_images
chat_message a = unless_empty (bytes "images") (chat_images a) (
    unless_empty (bytes "tool_calls") (map chat_completion_tool_call a.tool_calls) (
      summary_if_asked a.normalized.request.reasoning (reasoning_summary a) (
        fields_of
          ((bytes "role", str (bytes "assistant")) ∷ (bytes "content", str (text a)) ∷ []))))

-- The one choice of an answer, with what it holds under `key`.
unfoldable pub choice_of : Str → Json → Accumulator → Fields
unfolding native_finish_reason chat_finish_reason
choice_of key value a = set_text (bytes "native_finish_reason") (native_finish_reason a) (
    fields_of (
      (bytes "index", integer (pos 0))
      ∷ (key, value)
      ∷ (bytes "finish_reason", str (chat_finish_reason a))
      ∷ []))

-- The object around the choice.
unfoldable pub completion_around : ℕ → Str → Str → Fields → Accumulator → Fields
unfolding created_at chat_usage_object
completion_around now fallback_id kind choice a = fields_of (
    (bytes "id", str (first_non_empty (a.response_id ∷ fallback_id ∷ [])))
    ∷ (bytes "object", str kind)
    ∷ (bytes "created", integer (created_at now a))
    ∷ (bytes "model", str (first_non_empty (a.model ∷ a.normalized.request.model ∷ [])))
    ∷ (bytes "choices", array (items_of (choice ∷ [])))
    ∷ (bytes "usage", opt_object (chat_usage_object a.usage))
    ∷ [])

unfoldable pub chat_completion_object : ℕ → Accumulator → Fields
unfolding chat_message choice_of completion_around
chat_completion_object now a =
    completion_around now (bytes "chatcmpl_proxy") (bytes "chat.completion")
      (choice_of (bytes "message") (object (chat_message a)) a) a

unfoldable pub completion_object : ℕ → Accumulator → Fields
unfolding text choice_of completion_around
completion_object now a =
    completion_around now (bytes "cmpl_proxy") (bytes "text_completion")
      (choice_of (bytes "text") (str (text a)) a) a

unfoldable pub chat_chunk : Str → Str → Fields → Str → ℤ → Fields
chat_chunk response_id model delta finish_reason created = fields_of (
    (bytes "id", str (first_non_empty (response_id ∷ bytes "chatcmpl_proxy" ∷ [])))
    ∷ (bytes "object", str (bytes "chat.completion.chunk"))
    ∷ (bytes "created", integer created)
    ∷ (bytes "model", str model)
    ∷ (
      bytes "choices",
      array (
          items_of (
            set_text (bytes "finish_reason") finish_reason
              (fields_of ((bytes "index", integer (pos 0)) ∷ (bytes "delta", object delta) ∷ []))
            ∷ [])),
    )
    ∷ [])

-- The map that `ResponseEventJSON` encodes.
unfoldable pub response_event_payload : Str → Str → Fields → Fields
response_event_payload event_type response_id payload =
    put (bytes "type") (str event_type) (set_text (bytes "response_id") response_id payload)
