-- ===== src/Turn/Accumulator/Applied.antt =====
-- `Accumulator.Apply` in three parts: what comes before the text of an event, the text, and the rest.
use codex_model_tester.Base.{Bool-cases, Option, bytes, inl, inr, none, or_str, refl, some, ℤ, ◌≡◌}
use codex_model_tester.Turn.Accumulator.Captured.{
  arguments-Kept, capture_output_item-Kept, replace_some-Kept,
}
use codex_model_tester.Turn.Usage.{int_value, usage_from_raw}
use codex_model_tester.Turn.Accumulator.{
  StreamEvent, Accumulator, event_kind, is_terminal_kind, output_index_from_map,
}
use codex_model_tester.Turn.Accumulator.Kept.{IsLinked, Kept, Kept-refl, unrelated-Kept, Kept-trans}
use codex_model_tester.Turn.Accumulator.Apply.{
  or_usage, created_or, apply_response_metadata, apply_root_metadata, apply_text_event,
  apply_fallback_text, item_of, capture_some, apply_output_event, finish_response,
  apply_terminal_event, is_tool_argument, apply_arguments, apply_usage, apply,
}
use codex_model_tester.Turn.Accumulator.Capture.{replace_some}
use codex_model_tester.Json.{Fields, get, string_value, map_value, slice_of_maps}

abbrev pub response_of : StreamEvent → Option Fields
response_of e = map_value (bytes "response") (some e.raw)

abbrev pub head_of : StreamEvent → Accumulator → Accumulator
head_of e a = apply_root_metadata e.raw (apply_response_metadata (response_of e) a)

abbrev pub text_of : StreamEvent → Accumulator → Accumulator
text_of e a = apply_fallback_text e (apply_text_event e (response_of e) a)

abbrev pub tail_of : StreamEvent → Accumulator → Accumulator
tail_of e a =
    apply_terminal_event e (response_of e)
      (apply_usage e.raw (apply_output_event e.raw (apply_arguments e a)))

pub apply-parts :
    (e : StreamEvent) (a : Accumulator) → apply e a ≡ tail_of e (text_of e (head_of e a))
unfolding apply
apply-parts e a = refl

response-Kept :
    (response : Option Fields) (a : Accumulator)
    → IsLinked a
    → Kept a (apply_response_metadata response a)
unfolding apply_response_metadata
response-Kept none a h = Kept-refl a
response-Kept (some response) a h =
    let b = record a {
      response_id = or_str (string_value (get (bytes "id") response)) a.response_id;
      created_at = created_or (int_value (get (bytes "created_at") response)) a.created_at;
      model = or_str (string_value (get (bytes "model") response)) a.model;
      status = or_str (string_value (get (bytes "status") response)) a.status;
      usage = or_usage (usage_from_raw (get (bytes "usage") response)) a.usage;
    } in
    let items = slice_of_maps (get (bytes "output") response) in
    let one = unrelated-Kept a b refl refl refl refl refl refl in
    Kept-trans a b (replace_some items b) one (replace_some-Kept items b (one.linked h))

pub head-Kept : (e : StreamEvent) (a : Accumulator) → IsLinked a → Kept a (head_of e a)
unfolding apply_root_metadata
head-Kept e a h =
    let b = apply_response_metadata (response_of e) a in
    Kept-trans a b (head_of e a) (response-Kept (response_of e) a h)
      (unrelated-Kept b (head_of e a) refl refl refl refl refl refl)

capture_some-Kept :
    (item : Option Fields) (index : ℤ) (a : Accumulator)
    → IsLinked a
    → Kept a (capture_some item index a)
capture_some-Kept none index a h = Kept-refl a
capture_some-Kept (some item) index a h = capture_output_item-Kept item index a h

output-Kept : (raw : Fields) (a : Accumulator) → IsLinked a → Kept a (apply_output_event raw a)
unfolding apply_output_event
output-Kept raw a h =
    let b = capture_some (item_of raw) (output_index_from_map raw) a in
    let items = slice_of_maps (get (bytes "output") raw) in
    let one = capture_some-Kept (item_of raw) (output_index_from_map raw) a h in
    Kept-trans a b (replace_some items b) one (replace_some-Kept items b (one.linked h))

finish-Kept :
    (response : Option Fields) (a : Accumulator) → IsLinked a → Kept a (finish_response response a)
finish-Kept none a h = Kept-refl a
finish-Kept (some response) a h =
    let b = record a { usage = or_usage (usage_from_raw (get (bytes "usage") response)) a.usage } in
    let items = slice_of_maps (get (bytes "output") response) in
    let one = unrelated-Kept a b refl refl refl refl refl refl in
    Kept-trans a b (replace_some items b) one (replace_some-Kept items b (one.linked h))

terminal-Kept :
    (e : StreamEvent) (response : Option Fields) (a : Accumulator)
    → IsLinked a
    → Kept a (apply_terminal_event e response a)
unfolding apply_terminal_event
terminal-Kept e response a h =
    let b = record a { terminal_event_type = e.type; raw_final = some e.raw } in
    let one = unrelated-Kept a b refl refl refl refl refl refl in
    elim (Bool-cases (is_terminal_kind (event_kind e.type))) [
      | inl t ↦
          rw t (
            Kept-trans a b (finish_response response b) one (finish-Kept response b (one.linked h)))
      | inr t ↦ rw t (Kept-refl a)
    ]

apply_arguments-Kept :
    (e : StreamEvent) (a : Accumulator) → IsLinked a → Kept a (apply_arguments e a)
apply_arguments-Kept e a h = elim (Bool-cases (is_tool_argument e.type)) [
  | inl t ↦ rw t (arguments-Kept e a h)
  | inr t ↦ rw t (Kept-refl a)
]

pub tail-Kept : (e : StreamEvent) (a : Accumulator) → IsLinked a → Kept a (tail_of e a)
tail-Kept e a h =
    let b = apply_arguments e a in
    let c = apply_output_event e.raw b in
    let d = apply_usage e.raw c in
    let ab = apply_arguments-Kept e a h in
    let ac = Kept-trans a b c ab (output-Kept e.raw b (ab.linked h)) in
    let ad = Kept-trans a c d ac (unrelated-Kept c d refl refl refl refl refl refl) in
    Kept-trans a d (tail_of e a) ad (terminal-Kept e (response_of e) d (ad.linked h))
