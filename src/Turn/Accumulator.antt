-- ===== src/Turn/Accumulator.antt =====
-- internal/turn/accumulator.go and accumulator_tools.go: what a turn's events add up to.
-- Tool calls and output items are pointers that a list and a map share: here the map has the place in
-- the list. An output index is unbounded: an index that an event names is at most 2^63 - 1024, and each
-- further item adds one.
pub mod Kept
pub mod Frame
pub mod Captured
pub mod Applied
pub mod Text
pub mod Apply
pub mod Emit
pub mod Objects
pub mod Linked
pub mod Capture
pub mod Tests
use codex_model_tester.Base.{
  Bool, Dict, List, Option, Str, [], bytes, false, get_elem?, if◌then◌else◌, insert, is_empty, leb,
  length, lookup, negsuc, none, or_str, pos, some, str_eq, suc, trim_space, true, zero, ℕ, ℤ, ◌++◌,
  ◌||◌, ◌∷◌,
}
use codex_model_tester.Turn.Usage.{Usage, int_value}
use codex_model_tester.Json.{Fields, get, first_non_empty}
use codex_model_tester.Turn.Request.{NormalizedRequest}

pub record ToolCallState : Type 0 where
  pub item_id : Str
  pub call_id : Str
  pub tool_type : Str
  pub name : Str
  pub input : Str
  pub arguments : Str
  pub output_index : ℕ
  pub status : Str
  pub added_emitted : Bool
  pub done_emitted : Bool

pub record ResponseStreamEvent : Type 0 where
  pub type : Str
  pub payload : Fields

pub record OutputItemState : Type 0 where
  pub output_index : ℕ
  pub item : Fields

pub record StreamEvent : Type 0 where
  pub type : Str
  pub raw : Fields

pub record Accumulator : Type 0 where
  pub normalized : NormalizedRequest
  pub response_id : Str
  pub created_at : ℤ
  pub model : Str
  pub text_builder : Str
  pub reasoning_summary_builder : Str
  pub usage : Option Usage
  pub tool_calls : List ToolCallState
  pub tool_call_by_id : Dict ℕ
  pub output_items : List OutputItemState
  pub output_item_by_key : Dict ℕ
  pub status : Str
  pub terminal_event_type : Str
  pub raw_final : Option Fields
  pub next_output_index : ℕ

unfoldable pub new_accumulator : NormalizedRequest → Accumulator
new_accumulator normalized = record {
  normalized = normalized;
  response_id = [];
  created_at = pos 0;
  model = [];
  text_builder = [];
  reasoning_summary_builder = [];
  usage = none;
  tool_calls = [];
  tool_call_by_id = [];
  output_items = [];
  output_item_by_key = [];
  status = [];
  terminal_event_type = [];
  raw_final = none;
  next_output_index = 0;
}

-- The types of events that the code tells apart.
pub data EventKind : Type 0 where
  text_delta reasoning_delta text_done part_done : EventKind
  response_completed response_incomplete : EventKind
  arguments_delta arguments_done input_delta input_done : EventKind
  item_added item_done other_kind : EventKind

abbrev kinds : List (Str × EventKind)
kinds =
    (bytes "response.output_text.delta", text_delta)
    ∷ (bytes "response.reasoning_summary_text.delta", reasoning_delta)
    ∷ (bytes "response.output_text.done", text_done)
    ∷ (bytes "response.content_part.done", part_done)
    ∷ (bytes "response.completed", response_completed)
    ∷ (bytes "response.incomplete", response_incomplete)
    ∷ (bytes "response.function_call_arguments.delta", arguments_delta)
    ∷ (bytes "response.function_call_arguments.done", arguments_done)
    ∷ (bytes "response.custom_tool_call_input.delta", input_delta)
    ∷ (bytes "response.custom_tool_call_input.done", input_done)
    ∷ (bytes "response.output_item.added", item_added)
    ∷ (bytes "response.output_item.done", item_done)
    ∷ []

abbrev or_other : Option EventKind → EventKind
or_other none = other_kind
or_other (some k) = k

-- The case of the `switch` on an event's type.
unfoldable pub event_kind : Str → EventKind
event_kind type = or_other (lookup type kinds)

-- `event.IsTerminalResponse()`
abbrev pub is_terminal_kind : EventKind → Bool
is_terminal_kind response_completed = true
is_terminal_kind response_incomplete = true
is_terminal_kind _ = false

-- `preferred` is -1, or another negative number, where an event names no index.
unfoldable pub resolve_output_index : ℤ → Accumulator → Accumulator × ℕ
resolve_output_index (pos n) a =
    (if leb a.next_output_index n then record a { next_output_index = suc n } else a, n)
resolve_output_index (negsuc n) a =
    (record a { next_output_index = suc a.next_output_index }, a.next_output_index)

unfoldable pub output_index_from_map : Fields → ℤ
output_index_from_map raw = elim (int_value (get (bytes "output_index") raw)) [
  | some i ↦ i
  | none ↦ negsuc 0
]

-- A write through the pointer to the element at that place.
unfoldable pub update_at {ℓ} : {A : Type ℓ} → ℕ → (A → A) → List A → List A
update_at i f [] = []
update_at zero f (x ∷ xs) = f x ∷ xs
update_at (suc i) f (x ∷ xs) = x ∷ update_at i f xs

abbrev pub update_call : ℕ → (ToolCallState → ToolCallState) → Accumulator → Accumulator
update_call i f a = record a { tool_calls = update_at i f a.tool_calls }

unfoldable pub register_aliases : ℕ → List Str → Dict ℕ → Dict ℕ
register_aliases call [] m = m
register_aliases call (id ∷ ids) m =
    register_aliases call ids (if is_empty (trim_space id) then m else insert id call m)

unfoldable pub register_tool_call_aliases : ℕ → List Str → Accumulator → Accumulator
unfolding register_aliases
register_tool_call_aliases call ids a = record a {
  tool_call_by_id = register_aliases call ids a.tool_call_by_id;
}

-- The changes to the IDs of a call that is there already.
unfoldable pub rejoin : Str → Str → ToolCallState → ToolCallState
rejoin item_id call_id c =
    let placeholder_item = is_empty c.item_id || str_eq c.item_id c.call_id in
    let placeholder_call = is_empty c.call_id || str_eq c.call_id c.item_id in
    let item = if placeholder_item then first_non_empty (item_id ∷ c.item_id ∷ []) else c.item_id in
    let call = if placeholder_call then first_non_empty (call_id ∷ c.call_id ∷ []) else c.call_id in
    let item' = first_non_empty (item ∷ item_id ∷ call ∷ []) in
    record c { item_id = item'; call_id = first_non_empty (call ∷ call_id ∷ item' ∷ []) }

-- `if explicitIndex >= 0 { existing.OutputIndex = ... }`
unfoldable pub move_call : ℤ → ℕ → Accumulator → Accumulator
unfolding resolve_output_index
move_call (pos n) i a =
    let (a', index) = resolve_output_index (pos n) a in
    update_call i (λ c. record c { output_index = index }) a'
move_call (negsuc n) i a = a

abbrev pub ids_of : Option ToolCallState → List Str
ids_of none = []
ids_of (some c) = c.call_id ∷ c.item_id ∷ []

-- `ensureToolCallState` where the call is there already.
unfoldable pub join_call : Str → Str → ℤ → ℕ → Accumulator → Accumulator
unfolding rejoin move_call register_tool_call_aliases
join_call item_id call_id explicit_index i a =
    let a' = update_call i (rejoin item_id call_id) (move_call explicit_index i a) in
    register_tool_call_aliases i (ids_of (get_elem? a'.tool_calls i) ++ call_id ∷ item_id ∷ []) a'

abbrev pub new_call : Str → Str → ℕ → ToolCallState
new_call item_id call_id index = record {
  item_id = item_id;
  call_id = call_id;
  tool_type = [];
  name = [];
  input = [];
  arguments = [];
  output_index = index;
  status = bytes "in_progress";
  added_emitted = false;
  done_emitted = false;
}

-- `ensureToolCallState` where the call is new.
unfoldable pub add_call : Str → Str → ℤ → Accumulator → Accumulator
unfolding resolve_output_index register_tool_call_aliases
add_call item_id call_id explicit_index a =
    let (a', index) = resolve_output_index explicit_index a in
    register_tool_call_aliases (length a'.tool_calls) (call_id ∷ item_id ∷ [])
      (record a' { tool_calls = a'.tool_calls ++ new_call item_id call_id index ∷ [] })

-- `a.toolCallByID[callID]`, then `a.toolCallByID[itemID]`.
unfoldable pub find_call : Str → Str → Dict ℕ → Option ℕ
find_call call_id item_id m = elim (lookup call_id m) [ some i ↦ some i | none ↦ lookup item_id m ]

abbrev pub join_or_add : Str → Str → ℤ → Option ℕ → Accumulator → Accumulator × Option ℕ
join_or_add item_id call_id explicit_index (some i) a =
    (join_call item_id call_id explicit_index i a, some i)
join_or_add item_id call_id explicit_index none a =
    (add_call item_id call_id explicit_index a, some (length a.tool_calls))

-- Both IDs trimmed, each standing for the other where that one is blank.
unfoldable pub ensure_tool_call_state : Str → Str → ℤ → Accumulator → Accumulator × Option ℕ
unfolding find_call join_call add_call
ensure_tool_call_state item_id call_id explicit_index a =
    let item = or_str (trim_space item_id) (trim_space call_id) in
    let call = or_str (trim_space call_id) item in
    if is_empty item || is_empty call
    then (a, none)
    else join_or_add item call explicit_index (find_call call item a.tool_call_by_id) a
