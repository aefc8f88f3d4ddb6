-- ===== src/Turn/Accumulator/Captured.antt =====
-- captureOutputItem, replaceOutputItems and applyToolArgumentEvent keep what `Kept` names.
use codex_model_tester.Base.{
  Bool-cases, Dict, List, Option, Str, [], arith, bytes, inl, inr, is_empty, lookup, none, pos,
  refl, some, suc, ℕ, ℤ, ◌&&◌, ◌∷◌,
}
use codex_model_tester.Turn.Accumulator.{
  ToolCallState, StreamEvent, Accumulator, EventKind, arguments_delta, arguments_done, input_delta,
  input_done, event_kind, resolve_output_index, output_index_from_map, update_call,
  ensure_tool_call_state,
}
use codex_model_tester.Turn.Accumulator.Kept.{
  KeepsMarks, IsLinked, Kept, Kept-refl, Kept-trans, update_call-Kept,
}
use codex_model_tester.Turn.Accumulator.Frame.{resolve-Kept, ensure-Kept, put_item-Kept}
use codex_model_tester.Turn.Accumulator.Capture.{
  argue, rename, with_call, apply_tool_argument_event, is_call_type, absorb, capture_call,
  output_item_key, put_item, capture_item, capture_output_item, capture_from, replace_output_items,
  replace_some,
}
use codex_model_tester.Json.{Fields, get, no_fields, string_value, clone_fields, first_non_empty}

with_call-Kept :
    (f : ToolCallState → ToolCallState) (a : Accumulator) (found : Accumulator × Option ℕ)
    → KeepsMarks f
    → Kept a found.0
    → Kept a (with_call f found)
with_call-Kept f a (b, none) h k = k
with_call-Kept f a (b, some i) h k = Kept-trans a b (update_call i f b) k (update_call-Kept i f b h)

argue-KeepsMarks :
    (k : EventKind) (raw : Fields) (name : Str) (aliases : Dict Str)
    → KeepsMarks (λ c. argue k raw (rename name aliases c))
argue-KeepsMarks arguments_delta raw name aliases c = (refl, refl)
argue-KeepsMarks arguments_done raw name aliases c = (refl, refl)
argue-KeepsMarks input_delta raw name aliases c = (refl, refl)
argue-KeepsMarks input_done raw name aliases c = (refl, refl)
argue-KeepsMarks _ raw name aliases c = (refl, refl)

pub arguments-Kept :
    (e : StreamEvent) (a : Accumulator) → IsLinked a → Kept a (apply_tool_argument_event e a)
unfolding apply_tool_argument_event
arguments-Kept e a h =
    let item_id = string_value (get (bytes "item_id") e.raw) in
    let call_id = first_non_empty (string_value (get (bytes "call_id") e.raw) ∷ item_id ∷ []) in
    let name = string_value (get (bytes "name") e.raw) in
    let index = output_index_from_map e.raw in
    elim (Bool-cases (is_empty call_id && is_empty item_id)) [
      | inl t ↦ rw t (Kept-refl a)
      | inr t ↦ rw t (
          with_call-Kept
            (λ c. argue (event_kind e.type) e.raw (rename name a.normalized.tool_name_aliases c)) a
            (ensure_tool_call_state item_id call_id index a)
            (argue-KeepsMarks (event_kind e.type) e.raw name a.normalized.tool_name_aliases)
            (ensure-Kept item_id call_id index a h))
    ]

absorb-KeepsMarks :
    (type : Str) (aliases : Dict Str) (item : Fields) → KeepsMarks (absorb type aliases item)
unfolding absorb
absorb-KeepsMarks type aliases item c = ground arith

capture_call-Kept :
    (type : Str) (item : Fields) (index : ℤ) (a : Accumulator)
    → IsLinked a
    → Kept a (capture_call type item index a)
unfolding capture_call
capture_call-Kept type item index a h =
    let id = string_value (get (bytes "id") item) in
    let call_id = first_non_empty (string_value (get (bytes "call_id") item) ∷ id ∷ []) in
    let item_id = first_non_empty (id ∷ call_id ∷ []) in
    elim (Bool-cases (is_empty call_id && is_empty item_id)) [
      | inl t ↦ rw t (Kept-refl a)
      | inr t ↦ rw t (
          with_call-Kept (absorb type a.normalized.tool_name_aliases item) a
            (ensure_tool_call_state item_id call_id index a)
            (absorb-KeepsMarks type a.normalized.tool_name_aliases item)
            (ensure-Kept item_id call_id index a h))
    ]

capture_item-Kept :
    (item : Fields) (index : ℤ) (a : Accumulator) → Kept a (capture_item item index a)
unfolding capture_item
capture_item-Kept item index a =
    let (b, i) = resolve_output_index index a in
    let key = output_item_key item i in
    Kept-trans a b (put_item (clone_fields item) i key (lookup key b.output_item_by_key) b)
      (resolve-Kept index a)
      (put_item-Kept (clone_fields item) i key (lookup key b.output_item_by_key) b)

pub capture_output_item-Kept :
    (item : Fields) (index : ℤ) (a : Accumulator)
    → IsLinked a
    → Kept a (capture_output_item item index a)
unfolding capture_output_item
capture_output_item-Kept item index a h =
    let type = string_value (get (bytes "type") item) in
    elim (Bool-cases (no_fields item)) [
      | inl e ↦ rw e (Kept-refl a)
      | inr e ↦ elim (Bool-cases (is_call_type type)) [
        | inl t ↦ rw (e, t) (capture_call-Kept type item index a h)
        | inr t ↦ rw (e, t) (capture_item-Kept item index a)
      ]
    ]

capture_from-Kept :
    (n : ℕ) (items : List Fields) (a : Accumulator) → IsLinked a → Kept a (capture_from n items a)
unfolding capture_from
capture_from-Kept n [] a h = Kept-refl a
capture_from-Kept n (item ∷ items) a h =
    let b = capture_output_item item (pos n) a in
    let one = capture_output_item-Kept item (pos n) a h in
    Kept-trans a b (capture_from (suc n) items b) one
      (capture_from-Kept (suc n) items b (one.linked h))

emptied-Kept : (a : Accumulator) → Kept a (record a { output_items = []; output_item_by_key = [] })
unfolding lookup
emptied-Kept a = record {
  text = refl;
  summary = refl;
  marks = λ k. refl;
  grows = omega arith;
  linked = λ h. record { calls = h.calls; items = λ key i e. ground arith };
}

pub replace_some-Kept :
    (items : List Fields) (a : Accumulator) → IsLinked a → Kept a (replace_some items a)
unfolding replace_output_items
replace_some-Kept [] a h = Kept-refl a
replace_some-Kept (item ∷ items) a h =
    let b = record a { output_items = []; output_item_by_key = [] } in
    Kept-trans a b (capture_from 0 (item ∷ items) b) (emptied-Kept a)
      (capture_from-Kept 0 (item ∷ items) b ((emptied-Kept a).linked h))
