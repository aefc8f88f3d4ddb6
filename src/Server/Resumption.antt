-- ===== src/Server/Resumption.antt =====
-- internal/server/session.go: whether a request can resume a stored record, and what is left of its
-- input.
use codex_model_tester.Base.{
  Bool, List, Option, Str, [], bytes, drop, false, if◌then◌else◌, is_empty, leb, length, none, not,
  some, str_eq, trim_space, true, ◌&&◌, ◌||◌, ◌∷◌,
}
use codex_model_tester.Turn.Types.{InputItem}
use codex_model_tester.Turn.Request.{NormalizedRequest}
use codex_model_tester.Turn.Equality.{deep_equal}
use codex_model_tester.Turn.ToolNames.{contains}
use codex_model_tester.Conversation.Continuation.{ContinuationRecord}

unfoldable pub is_history_item : InputItem → Bool
is_history_item i =
    str_eq i.role (bytes "assistant")
    || str_eq i.type (bytes "function_call")
    || str_eq i.type (bytes "custom_tool_call")
    || str_eq i.type (bytes "function_call_output")
    || str_eq i.type (bytes "custom_tool_call_output")

unfoldable pub has_prior_assistant_or_tool_history : List InputItem → Bool
unfolding is_history_item
has_prior_assistant_or_tool_history [] = false
has_prior_assistant_or_tool_history (i ∷ is) =
    is_history_item i || has_prior_assistant_or_tool_history is

unfoldable pub can_implicitly_resume : ContinuationRecord → NormalizedRequest → Bool
unfolding has_prior_assistant_or_tool_history
can_implicitly_resume stored n =
    not (is_empty (trim_space stored.response_id))
    && str_eq (trim_space stored.model) (trim_space n.request.model)
    && str_eq (trim_space stored.instructions) (trim_space n.request.instructions)
    && has_prior_assistant_or_tool_history n.request.input

-- The trimmed function call IDs that are not empty.
unfoldable pub allowed_call_ids : List Str → List Str
allowed_call_ids [] = []
allowed_call_ids (id ∷ ids) =
    let rest = allowed_call_ids ids in
    if is_empty (trim_space id) then rest else trim_space id ∷ rest

abbrev pub is_output_type : Str → Bool
is_output_type type =
    str_eq type (bytes "function_call_output") || str_eq type (bytes "custom_tool_call_output")

-- An output must answer a call of the response.
unfoldable pub is_allowed : List Str → InputItem → Bool
is_allowed allowed i =
    not (is_output_type i.type)
    || (not (is_empty (trim_space i.call_id)) && contains (trim_space i.call_id) allowed)

unfoldable pub all_allowed : List Str → List InputItem → Bool
unfolding is_allowed
all_allowed allowed [] = true
all_allowed allowed (i ∷ is) = is_allowed allowed i && all_allowed allowed is

-- The loop over the history: each of its items is the input's item at that place.
unfoldable pub is_continued : List InputItem → List InputItem → Bool
is_continued input [] = true
is_continued [] (h ∷ history) = false
is_continued (i ∷ input) (h ∷ history) = deep_equal i h && is_continued input history

abbrev pub if_allowed : List Str → List InputItem → Option (List InputItem)
if_allowed allowed items = if all_allowed allowed items then some items else none

unfoldable pub trimmed_continuation_input :
    List InputItem → ContinuationRecord → Option (List InputItem)
unfolding is_continued allowed_call_ids all_allowed
trimmed_continuation_input input stored =
    let history = stored.input_history in
    if leb (length history) 0
      || leb (length input) (length history)
      || not (is_continued input history)
    then none
    else if_allowed (allowed_call_ids stored.function_call_ids) (drop (length history) input)
