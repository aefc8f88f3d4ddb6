-- ===== src/Turn/Accumulator/Text.antt =====
-- The text that the events of internal/turn/accumulator.go add up to.
use mathlib.Core.List.{append-nil, append_assoc}
use codex_model_tester.Base.{
  Bool-cases, List, Option, Str, [], ap, arith, bytes, contains_str, false, inl, inr, is_empty,
  refl, sym, ◌++◌, ◌∙◌, ◌∷◌, ◌≡◌,
}
use codex_model_tester.Turn.Accumulator.Applied.{
  response_of, head_of, text_of, apply-parts, head-Kept, tail-Kept,
}
use codex_model_tester.Turn.Request.{NormalizedRequest}
use codex_model_tester.Turn.Accumulator.{
  StreamEvent, Accumulator, new_accumulator, EventKind, text_delta, event_kind,
}
use codex_model_tester.Turn.Accumulator.Kept.{IsLinked}
use codex_model_tester.Turn.Accumulator.Apply.{
  add_first_text, apply_text, apply_text_event, apply_fallback_text, apply, run,
}
use codex_model_tester.Json.{Fields, get, string_value}
use codex_model_tester.Turn.Accumulator.Linked.{
  fallback_text, text_of-IsLinked, apply-IsLinked, run-IsLinked,
}

-- The piece of text that an event brings.
abbrev text_piece : EventKind → Fields → Str
text_piece text_delta raw = string_value (get (bytes "delta") raw)
text_piece _ raw = []

-- The pieces of all events, one after the other.
unfoldable pub text_deltas : List StreamEvent → Str
text_deltas [] = []
text_deltas (e ∷ es) = text_piece (event_kind e.type) e.raw ++ text_deltas es

add_first_text-nonempty :
    (s : Str) (a : Accumulator) → is_empty a.text_builder ≡ false → add_first_text s a ≡ a
add_first_text-nonempty s a h = rw h refl

is_empty-append : (s t : Str) → is_empty s ≡ false → is_empty (s ++ t) ≡ false
is_empty-append [] t h = cc
is_empty-append (c ∷ s) t h = refl

fallback-nonempty :
    (e : StreamEvent) (a : Accumulator)
    → is_empty a.text_builder ≡ false
    → apply_fallback_text e a ≡ a
unfolding apply_fallback_text
fallback-nonempty e a h = elim (Bool-cases (contains_str e.type (bytes "text"))) [
  | inl t ↦ rw t (add_first_text-nonempty (fallback_text e) a h)
  | inr t ↦ rw t refl
]

apply_text-nonempty :
    (k : EventKind) (raw : Fields) (response : Option Fields) (a : Accumulator)
    → is_empty a.text_builder ≡ false
    → (apply_text k raw response a).text_builder ≡ a.text_builder ++ text_piece k raw
apply_text-nonempty text_delta raw response a h = refl
apply_text-nonempty k raw response a h = ground (arith, append-nil a.text_builder)

apply-nonempty :
    (e : StreamEvent) (a : Accumulator)
    → IsLinked a
    → is_empty a.text_builder ≡ false
    → (apply e a).text_builder ≡ a.text_builder ++ text_piece (event_kind e.type) e.raw
unfolding apply_text_event
apply-nonempty e a l h =
    let b = head_of e a in
    let k = event_kind e.type in
    let kept = head-Kept e a l in
    let full : is_empty b.text_builder ≡ false = rw kept.text h in
    let c = apply_text k e.raw (response_of e) b in
    let grown = apply_text-nonempty k e.raw (response_of e) b full in
    let after : is_empty c.text_builder ≡ false =
      rw grown (is_empty-append b.text_builder (text_piece k e.raw) full) in
    rw (apply-parts e a) (
      (tail-Kept e (text_of e b) (text_of-IsLinked e b (kept.linked l))).text
      ∙ ap (λ d. d.text_builder) (fallback-nonempty e c after)
      ∙ grown
      ∙ ap (λ t. t ++ text_piece k e.raw) kept.text)

deltas-nonempty :
    (es : List StreamEvent) (a : Accumulator)
    → IsLinked a
    → is_empty a.text_builder ≡ false
    → (run es a).text_builder ≡ a.text_builder ++ text_deltas es
unfolding run text_deltas
deltas-nonempty [] a l h = sym (append-nil a.text_builder)
deltas-nonempty (e ∷ es) a l h =
    let piece = text_piece (event_kind e.type) e.raw in
    let one = apply-nonempty e a l h in
    deltas-nonempty es (apply e a) (apply-IsLinked e a l)
      (rw one (is_empty-append a.text_builder piece h))
    ∙ ap (λ t. t ++ text_deltas es) one
    ∙ append_assoc a.text_builder piece (text_deltas es)

-- Once the accumulator of a turn has some text, the text after any further events is that text
-- followed by the deltas of the text events among them, in order: neither the texts that done
-- and terminal events repeat nor the fallback are added again.
pub run-text_deltas :
    (before after : List StreamEvent) (n : NormalizedRequest)
    → is_empty (run before (new_accumulator n)).text_builder ≡ false
    → (run after (run before (new_accumulator n))).text_builder
      ≡ (run before (new_accumulator n)).text_builder ++ text_deltas after
run-text_deltas before after n h =
    deltas-nonempty after (run before (new_accumulator n)) (run-IsLinked before n) h
