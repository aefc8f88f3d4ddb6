-- ===== src/Conversation/Key.antt =====
-- internal/conversation/key.go: the key that requests of one conversation share. SHA-256 and the
-- regular expression that takes leading system reminders off a text are parameters.
pub mod Stable
use Prim.Native.Nat.{◌/◌, ◌%◌}
use codex_model_tester.Base.{
  Bool, List, Option, Str, [], bytes, digit_char, drop, false, if◌then◌else◌, is_empty, join, map,
  none, not, or_str, some, str_eq, take, trim_space, true, ℕ, ◌%◌, ◌&&◌, ◌++◌, ◌/◌, ◌||◌, ◌∷◌,
}
use codex_model_tester.Turn.Types.{ContentPart, InputItem, elements}
use codex_model_tester.Turn.Request.{Request, is_text_type}

abbrev unit_separator : Str
unit_separator = 0x1f ∷ []

abbrev record_separator : Str
record_separator = 0x1e ∷ []

-- `item.Role == "assistant"`, or a call of a tool.
abbrev pub is_model_item : InputItem → Bool
is_model_item i =
    str_eq i.role (bytes "assistant")
    || str_eq i.type (bytes "function_call")
    || str_eq i.type (bytes "custom_tool_call")

-- The items up to the last one of the model, `none` where there is none: `items[:prefixEnd+1]`.
unfoldable pub prefix_to_model : List InputItem → Option (List InputItem)
prefix_to_model [] = none
prefix_to_model (i ∷ is) = elim (prefix_to_model is) [
  | some rest ↦ some (i ∷ rest)
  | none ↦ if is_model_item i then some (i ∷ []) else none
]

abbrev or_items : List InputItem → Option (List InputItem) → List InputItem
or_items items none = items
or_items items (some rest) = rest

-- `fmt.Sprintf` of a word and trimmed texts, with colons between them.
abbrev tagged : Str → List Str → Str
tagged word texts = join (word ∷ map trim_space texts) (bytes ":")

-- What a part adds to the text: empty for parts of other types.
unfoldable pub part_value : ContentPart → Str
part_value p =
    if is_text_type p.type
    then p.text
    else if str_eq p.type (bytes "input_image")
    then tagged (bytes "image") (p.image_url ∷ p.detail ∷ [])
    else if str_eq p.type (bytes "input_file")
    then tagged (bytes "file") (p.file_id ∷ p.filename ∷ p.file_url ∷ p.file_data ∷ p.detail ∷ [])
    else []

abbrev field_text : Str → Str → List Str → List Str
field_text name [] rest = rest
field_text name (c ∷ s) rest = (name ++ c ∷ s) ∷ rest

-- `%x` of bytes.
unfoldable pub hex : List ℕ → Str
hex [] = []
hex (b ∷ bs) = digit_char (b / 16) ∷ digit_char (b % 16) ∷ hex bs

-- The first 16 bytes of the sum, in groups.
unfoldable pub group_sum : List ℕ → Str
unfolding hex
group_sum s =
    join
      (hex (take 4 s)
        ∷ hex (take 2 (drop 4 s))
        ∷ hex (take 2 (drop 6 s))
        ∷ hex (take 2 (drop 8 s))
        ∷ hex (take 6 (drop 10 s))
        ∷ [])
      (bytes "-")

module _ (sum256 : Str → List ℕ) (strip_reminder : Str → Str) where
  -- The first text loses its reminders, unless nothing is left of it.
  abbrev stripped : Bool → Str → Str
  stripped strip value = if strip then or_str (trim_space (strip_reminder value)) value else value

  unfoldable pub content_texts : List ContentPart → Bool → List Str
  unfolding part_value
  content_texts [] strip = []
  content_texts (p ∷ ps) strip =
      let rest = content_texts ps (strip && is_empty (part_value p)) in
      if is_empty (part_value p) then rest else stripped strip (part_value p) ∷ rest

  unfoldable pub serialize_content : List ContentPart → Bool → Str
  unfolding content_texts
  serialize_content parts strip = join (content_texts parts strip) (10 ∷ [])

  unfoldable pub serialize_item : InputItem → Bool → Str
  unfolding serialize_content
  serialize_item i strip =
      join
        (field_text (bytes "role=") (trim_space i.role) (
          field_text (bytes "type=") (trim_space i.type) (
            field_text (bytes "call_id=") (trim_space i.call_id) (
              field_text (bytes "name=") (trim_space i.name) (
                field_text (bytes "input=") (trim_space i.input) (
                  field_text (bytes "arguments=") (trim_space i.arguments) (
                    field_text (bytes "output=") (trim_space i.output_text) (
                      field_text (bytes "content=") (serialize_content (elements i.content) strip) (
                        field_text (bytes "output_content=")
                          (serialize_content (elements i.output_content) false) [])))))))))
        unit_separator

  -- The loop over the items; `first` holds until an item of the user was written.
  unfoldable pub transcript_parts : List InputItem → Bool → List Str
  unfolding serialize_item
  transcript_parts [] first = []
  transcript_parts (i ∷ is) first =
      let text = serialize_item i first in
      let rest =
        transcript_parts is (first && (is_empty text || not (str_eq i.role (bytes "user")))) in
      if is_empty text then rest else text ∷ rest

  unfoldable pub extract_seed : Request → Str × Str
  unfolding prefix_to_model transcript_parts
  extract_seed r = (
    take 2000 (trim_space r.instructions),
    join (transcript_parts (or_items r.input (prefix_to_model r.input)) true) record_separator,
  )

  unfoldable pub key_of : Str → Str × Str → Str
  unfolding group_sum
  key_of model (instructions, transcript) =
      if is_empty instructions && is_empty transcript
      then []
      else group_sum (sum256 (join (trim_space model ∷ instructions ∷ transcript ∷ []) (0 ∷ [])))

  unfoldable pub derive : Request → Str
  unfolding extract_seed key_of
  derive r = key_of r.model (extract_seed r)
