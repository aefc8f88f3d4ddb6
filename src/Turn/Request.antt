-- ===== src/Turn/Request.antt =====
-- internal/turn/request.go, normalized.go and the rest of types.go: a request, before and after the
-- translation of the API it came by.
-- A `*bool` and a pointer to a struct are an `Option`; a nil map and a map are `none` and `some`.
use codex_model_tester.Base.{
  Bool, Dict, List, Option, Str, [], bytes, false, if◌then◌else◌, is_empty, join, keep, length,
  none, not, some, str_eq, trim_space, true, ◌&&◌, ◌==◌, ◌||◌, ◌∷◌,
}
use codex_model_tester.Json.{Json, str, array, object, Items, nil, cons, Fields, end, field, put}
use codex_model_tester.Turn.Types.{ContentPart, ReasoningPart, InputItem, elements}

pub record Reasoning : Type 0 where
  pub effort : Str
  pub summary : Str

pub record TextFormat : Type 0 where
  pub type : Str
  pub name : Str
  pub schema : Option Fields
  pub strict : Bool

pub record TextConfig : Type 0 where
  pub format : TextFormat
  pub verbosity : Str

pub record FunctionTool : Type 0 where
  pub name : Str
  pub description : Str
  pub parameters : Option Fields
  pub strict : Bool

-- `extra_fields` has the text of each other member of the object.
pub record ToolDefinition : Type 0 where
  pub type : Str
  pub function : Option FunctionTool
  pub name : Str
  pub description : Str
  pub parameters : Option Fields
  pub format : Option Fields
  pub strict : Bool
  pub search_context_size : Str
  pub user_location : Option Fields
  pub extra_fields : Dict Str

-- `tool_choice` is the text of a JSON value, empty for none.
pub record Request : Type 0 where
  pub model : Str
  pub instructions : Str
  pub input : List InputItem
  pub stream : Bool
  pub store : Bool
  pub tools : List ToolDefinition
  pub tool_choice : Str
  pub text : Option TextConfig
  pub reasoning : Option Reasoning
  pub service_tier : Str
  pub previous_response_id : Str
  pub prompt_cache_key : Str
  pub include : List Str
  pub parallel_tool_calls : Option Bool

pub record NormalizedRequest : Type 0 where
  pub request : Request
  pub model_explicit : Bool
  pub generate : Option Bool
  pub web_socket_append : Bool
  pub tuple_schema : Option Fields
  pub response_schema : Option Fields
  pub tool_name_aliases : Dict Str

abbrev pub set_input : List InputItem → NormalizedRequest → NormalizedRequest
set_input items r = record r { request = record (r.request) { input = items } }

-- The test of `DeleteFunc`.
abbrev pub has_encrypted_reasoning : InputItem → Bool
has_encrypted_reasoning i = str_eq i.type (bytes "reasoning") && not (is_empty i.encrypted_content)

unfoldable pub strip_reasoning_encrypted_content : NormalizedRequest → NormalizedRequest × Bool
strip_reasoning_encrypted_content r =
    let filtered = keep (λ i. not (has_encrypted_reasoning i)) r.request.input in
    if length filtered == length r.request.input then (r, false) else (set_input filtered r, true)

abbrev pub text_part : Str → Str → ContentPart
text_part type text = record {
  type = type;
  text = text;
  image_url = [];
  detail = [];
  file_url = [];
  file_data = [];
  file_id = [];
  filename = [];
}

-- An item with a role and content and nothing else.
abbrev pub message_item : Str → List ContentPart → InputItem
message_item role content = record {
  role = role;
  type = [];
  phase = [];
  content = some content;
  call_id = [];
  name = [];
  input = [];
  arguments = [];
  output_text = [];
  output_content = none;
  id = [];
  status = [];
  summary = none;
  encrypted_content = [];
}

unfoldable pub prepend_developer_instructions : List InputItem → Str → List InputItem
prepend_developer_instructions input text =
    if is_empty (trim_space text)
    then input
    else message_item (bytes "developer") (text_part (bytes "input_text") (trim_space text) ∷ [])
      ∷ input

-- One member with `omitempty`, or set where the text is not empty.
abbrev pub set_text : Str → Str → Fields → Fields
set_text key [] m = m
set_text key (c ∷ s) m = put key (str (c ∷ s)) m

-- A content part as JSON, by the tags of its type.
unfoldable pub content_part_fields : ContentPart → Fields
content_part_fields p = set_text (bytes "filename") p.filename (
    set_text (bytes "file_id") p.file_id (
      set_text (bytes "file_data") p.file_data (
        set_text (bytes "file_url") p.file_url (
          set_text (bytes "detail") p.detail (
            set_text (bytes "image_url") p.image_url
              (set_text (bytes "text") p.text (field (bytes "type") (str p.type) end)))))))

unfoldable pub reasoning_part_fields : ReasoningPart → Fields
reasoning_part_fields p = set_text (bytes "text") p.text (field (bytes "type") (str p.type) end)

unfoldable pub content_items : List ContentPart → Items
content_items [] = nil
content_items (p ∷ ps) = cons (object (content_part_fields p)) (content_items ps)

unfoldable pub summary_items : List ReasoningPart → Items
summary_items [] = nil
summary_items (p ∷ ps) = cons (object (reasoning_part_fields p)) (summary_items ps)

abbrev pub is_text_type : Str → Bool
is_text_type type =
    is_empty type
    || str_eq type (bytes "text")
    || str_eq type (bytes "input_text")
    || str_eq type (bytes "output_text")
    || str_eq type (bytes "reasoning_text")

abbrev pub add_text : Str → Option (List Str) → Option (List Str)
add_text s none = none
add_text s (some texts) = some (s ∷ texts)

-- The texts of the parts, `none` as soon as one part is no text.
unfoldable pub text_parts : List ContentPart → Option (List Str)
text_parts [] = some []
text_parts (p ∷ ps) =
    let rest = text_parts ps in
    if is_text_type p.type
    then (if is_empty (trim_space p.text) then rest else add_text p.text rest)
    else none

abbrev pub joined : List ContentPart → Option (List Str) → Json
joined content none = array (content_items content)
joined content (some texts) = str (join texts (10 ∷ []))

unfoldable pub append_input_item_content : InputItem → Fields → Fields
unfolding content_items text_parts
append_input_item_content i m = elim (elements i.content) [
  | [] ↦ m
  | p ∷ ps ↦
      if is_empty i.role
      then put (bytes "content") (array (content_items (p ∷ ps))) m
      else put (bytes "content") (joined (p ∷ ps) (text_parts (p ∷ ps))) m
]

unfoldable pub append_input_item_output : InputItem → Fields → Fields
unfolding content_items
append_input_item_output i m = elim (elements i.output_content) [
  | p ∷ ps ↦ put (bytes "output") (array (content_items (p ∷ ps))) m
  | [] ↦
      if not (is_empty i.output_text)
      then put (bytes "output") (str i.output_text) m
      else if str_eq i.type (bytes "function_call_output")
          || str_eq i.type (bytes "custom_tool_call_output")
      then put (bytes "output") (str []) m
      else m
]

unfoldable pub append_summary : InputItem → Fields → Fields
unfolding summary_items
append_summary i m =
    if str_eq i.type (bytes "reasoning")
    then put (bytes "summary") (array (summary_items (elements i.summary))) m
    else elim (elements i.summary) [
      | [] ↦ m
      | p ∷ ps ↦ put (bytes "summary") (array (summary_items (p ∷ ps))) m
    ]

-- The payload of `InputItem.MarshalJSON`.
unfoldable pub input_item_fields : InputItem → Fields
unfolding append_input_item_content append_input_item_output append_summary
input_item_fields i =
    let head =
      set_text (bytes "phase") i.phase
        (set_text (bytes "type") i.type (set_text (bytes "role") i.role end)) in
    let call = set_text (bytes "arguments") i.arguments (
      set_text (bytes "input") i.input (
        set_text (bytes "name") i.name
          (set_text (bytes "call_id") i.call_id (append_input_item_content i head)))) in
    let tail =
      set_text (bytes "status") i.status
        (set_text (bytes "id") i.id (append_input_item_output i call)) in
    set_text (bytes "encrypted_content") i.encrypted_content (append_summary i tail)
