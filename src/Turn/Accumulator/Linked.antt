-- ===== src/Turn/Accumulator/Linked.antt =====
-- Each ID and key of internal/turn/accumulator.go leads somewhere, after any events.

use codex_model_tester.Base.{
  Bool-cases, List, Option, Str, [], ap, arith, bytes, contains_str, inl, inr, is_empty, lookup,
  refl, some, ◌∙◌, ◌∷◌, ◌≡◌,
}
use codex_model_tester.Turn.Accumulator.Applied.{
  response_of, head_of, text_of, apply-parts, head-Kept, tail-Kept,
}
use codex_model_tester.Turn.Request.{NormalizedRequest}
use codex_model_tester.Turn.Accumulator.{
  StreamEvent, Accumulator, new_accumulator, EventKind, text_delta, reasoning_delta, text_done,
  part_done, response_completed, response_incomplete, event_kind,
}
use codex_model_tester.Turn.Accumulator.Kept.{IsLinked}
use codex_model_tester.Turn.Accumulator.Apply.{
  add_first_text, apply_text, apply_text_event, apply_fallback_text, apply, run,
}
use codex_model_tester.Json.{Fields, get, get_opt, string_value, map_value, first_non_empty}

-- The accumulator with these texts.
abbrev with_texts : Str → Str → Accumulator → Accumulator
with_texts t r a = record a { text_builder = t; reasoning_summary_builder = r }

abbrev SameButTexts : Accumulator → Accumulator → Type 0
SameButTexts a b = b ≡ with_texts b.text_builder b.reasoning_summary_builder a

add_first_text-same : (s : Str) (a : Accumulator) → SameButTexts a (add_first_text s a)
add_first_text-same s a = elim (Bool-cases (is_empty a.text_builder)) [
  | inl e ↦ rw e refl
  | inr e ↦ rw e refl
]

apply_text-same :
    (k : EventKind) (raw : Fields) (response : Option Fields) (a : Accumulator)
    → SameButTexts a (apply_text k raw response a)
apply_text-same text_delta raw response a = refl
apply_text-same reasoning_delta raw response a = refl
apply_text-same text_done raw response a =
    add_first_text-same (string_value (get (bytes "text") raw)) a
apply_text-same part_done raw response a =
    add_first_text-same
      (string_value (get_opt (bytes "text") (map_value (bytes "part") (some raw)))) a
apply_text-same response_completed raw response a =
    add_first_text-same (string_value (get_opt (bytes "output_text") response)) a
apply_text-same response_incomplete raw response a =
    add_first_text-same (string_value (get_opt (bytes "output_text") response)) a
apply_text-same _ raw response a = refl

-- The text that stands in for a first one, from an event with "text" in its type.
abbrev pub fallback_text : StreamEvent → Str
fallback_text e = first_non_empty (
    string_value (get (bytes "output_text") e.raw)
    ∷ string_value (get_opt (bytes "text") (map_value (bytes "item") (some e.raw)))
    ∷ [])

fallback-same : (e : StreamEvent) (a : Accumulator) → SameButTexts a (apply_fallback_text e a)
unfolding apply_fallback_text
fallback-same e a = elim (Bool-cases (contains_str e.type (bytes "text"))) [
  | inl t ↦ rw t (add_first_text-same (fallback_text e) a)
  | inr t ↦ rw t refl
]

SameButTexts-IsLinked : (a b : Accumulator) → SameButTexts a b → IsLinked a → IsLinked b
SameButTexts-IsLinked a b s h = rw s record { calls = h.calls; items = h.items }

pub text_of-IsLinked : (e : StreamEvent) (a : Accumulator) → IsLinked a → IsLinked (text_of e a)
unfolding apply_text_event
text_of-IsLinked e a h =
    let b = apply_text (event_kind e.type) e.raw (response_of e) a in
    SameButTexts-IsLinked b (apply_fallback_text e b) (fallback-same e b)
      (SameButTexts-IsLinked a b (apply_text-same (event_kind e.type) e.raw (response_of e) a) h)

pub text_of-calls : (e : StreamEvent) (a : Accumulator) → (text_of e a).tool_calls ≡ a.tool_calls
unfolding apply_text_event
text_of-calls e a =
    let b = apply_text (event_kind e.type) e.raw (response_of e) a in
    ap (λ c. c.tool_calls) (fallback-same e b)
    ∙ ap (λ c. c.tool_calls) (apply_text-same (event_kind e.type) e.raw (response_of e) a)

pub apply-IsLinked : (e : StreamEvent) (a : Accumulator) → IsLinked a → IsLinked (apply e a)
apply-IsLinked e a h =
    let b = head_of e a in
    let c = text_of e b in
    rw (apply-parts e a) (
      (tail-Kept e c (text_of-IsLinked e b ((head-Kept e a h).linked h))).linked
        (text_of-IsLinked e b ((head-Kept e a h).linked h)))

run-IsLinked_from : (es : List StreamEvent) (a : Accumulator) → IsLinked a → IsLinked (run es a)
unfolding run
run-IsLinked_from [] a h = h
run-IsLinked_from (e ∷ es) a h = run-IsLinked_from es (apply e a) (apply-IsLinked e a h)

pub new-IsLinked : (n : NormalizedRequest) → IsLinked (new_accumulator n)
unfolding new_accumulator lookup
new-IsLinked n = record { calls = λ key i e. ground arith; items = λ key i e. ground arith }

-- After any events, each ID in the map of tool calls leads to a call of the list, and each key in the
-- map of output items to an item.
pub run-IsLinked :
    (es : List StreamEvent) (n : NormalizedRequest) → IsLinked (run es (new_accumulator n))
run-IsLinked es n = run-IsLinked_from es (new_accumulator n) (new-IsLinked n)
