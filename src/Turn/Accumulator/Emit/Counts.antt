-- ===== src/Turn/Accumulator/Emit/Counts.antt =====
-- How many announcements and completions of tool calls the code of accumulator_tools.go emits.
-- Events of one type among those emitted.
use codex_model_tester.Base.{
  Bool, Bool-cases, List, Str, [], ap, arith, bytes, false, if◌then◌else◌, inl, inr, is_empty,
  lookup, refl, str_eq, str_eq_sound, suc, sym, true, ℕ, ◌++◌, ◌+◌, ◌∙◌, ◌∷◌, ◌≡◌,
}
use codex_model_tester.Turn.Accumulator.Emit.{
  mark_added, mark_done, event_of, added_event, ensure_added, arguments_event, done_event,
  complete_call, ensure_completed, delta_events, answer_delta, answer,
}
use codex_model_tester.Turn.Accumulator.{
  ToolCallState, ResponseStreamEvent, StreamEvent, EventKind, arguments_delta, arguments_done,
  input_delta, input_done, item_added, item_done, event_kind,
}
use codex_model_tester.Turn.Accumulator.Kept.{Mark, added, done, broken, has_mark}
use codex_model_tester.Json.{Fields, get, string_value}

unfoldable pub emitted : Str → List ResponseStreamEvent → ℕ
emitted type [] = 0
emitted type (e ∷ es) = let rest = emitted type es in if str_eq e.type type then suc rest else rest

pub emitted-append :
    (type : Str) (xs ys : List ResponseStreamEvent)
    → emitted type (xs ++ ys) ≡ emitted type xs + emitted type ys
unfolding emitted
emitted-append type [] ys = omega arith
emitted-append type (x ∷ xs) ys = ground (arith, emitted-append type xs ys)

abbrev pub added_type : Str
added_type = bytes "response.output_item.added"

abbrev pub done_type : Str
done_type = bytes "response.output_item.done"

-- The mark that an event of each kind leaves: how often a call has it, and how often it was emitted.
abbrev pub marked : Mark → ToolCallState → ℕ
marked k c = if has_mark k c then 1 else 0

-- A call may be finished only when it was announced.
abbrev pub IsOrdered : ToolCallState → Type 0
IsOrdered c = has_mark broken c ≡ false

-- What one answer promises about a call before, the call after, and the events.
pub record Answered (c c' : ToolCallState) (events : List ResponseStreamEvent) : Type 0 where
  pub added_once : marked added c' ≡ marked added c + emitted added_type events
  pub done_once : marked done c' ≡ marked done c + emitted done_type events
  pub ordered : IsOrdered c → IsOrdered c'

added_event-counts :
    (c : ToolCallState)
    → (emitted added_type (added_event c ∷ []) ≡ 1) × (emitted done_type (added_event c ∷ []) ≡ 0)
unfolding emitted added_event str_eq
added_event-counts c = (refl, refl)

abbrev arguments_type : Bool → Str
arguments_type true = bytes "response.custom_tool_call_input.done"
arguments_type false = bytes "response.function_call_arguments.done"

arguments_event-type :
    (c : ToolCallState)
    → (arguments_event c).type ≡ arguments_type (str_eq c.tool_type (bytes "custom"))
unfolding arguments_event
arguments_event-type c = ground arith

arguments_type-other :
    (b : Bool)
    → (str_eq (arguments_type b) added_type ≡ false) × (str_eq (arguments_type b) done_type ≡ false)
unfolding str_eq
arguments_type-other true = (refl, refl)
arguments_type-other false = (refl, refl)

done_event-type :
    (d : ToolCallState)
    → (str_eq (done_event d).type added_type ≡ false)
      × (str_eq (done_event d).type done_type ≡ true)
unfolding done_event str_eq
done_event-type d = (refl, refl)

done_events-counts :
    (c d : ToolCallState)
    → (emitted added_type (arguments_event c ∷ done_event d ∷ []) ≡ 0)
      × (emitted done_type (arguments_event c ∷ done_event d ∷ []) ≡ 1)
unfolding emitted
done_events-counts c d =
    rw (arguments_event-type c) (
      ground (arith, arguments_type-other (str_eq c.tool_type (bytes "custom")), done_event-type d))

pub Answered-refl : (c : ToolCallState) → Answered c c []
unfolding emitted
Answered-refl c = record { added_once = omega arith; done_once = omega arith; ordered = λ h. h }

Answered-trans :
    (c d e : ToolCallState) (xs ys : List ResponseStreamEvent)
    → Answered c d xs
    → Answered d e ys
    → Answered c e (xs ++ ys)
Answered-trans c d e xs ys h g = record {
  added_once = omega (arith, h.added_once, g.added_once, emitted-append added_type xs ys);
  done_once = omega (arith, h.done_once, g.done_once, emitted-append done_type xs ys);
  ordered = λ o. g.ordered (h.ordered o);
}

-- A branch on what was emitted before.
Answered-if :
    (b : Bool) (c : ToolCallState) (x y : ToolCallState × List ResponseStreamEvent)
    → (b ≡ true → Answered c x.0 x.1)
    → (b ≡ false → Answered c y.0 y.1)
    → Answered c (if b then x else y).0 (if b then x else y).1
Answered-if true c x y h g = h refl
Answered-if false c x y h g = g refl

mark_added-Answered :
    (c : ToolCallState)
    → c.added_emitted ≡ false
    → Answered c (mark_added c) (added_event (mark_added c) ∷ [])
unfolding emitted str_eq added_event
mark_added-Answered c t = record {
  added_once = rw t (sym (added_event-counts (mark_added c)).0);
  done_once = ground (arith, added_event-counts (mark_added c));
  ordered = λ h. ground arith;
}

mark_done-Answered :
    (c : ToolCallState)
    → c.added_emitted ≡ true
    → c.done_emitted ≡ false
    → Answered c (mark_done c) (arguments_event c ∷ done_event (mark_done c) ∷ [])
mark_done-Answered c a t = record {
  added_once = ground (arith, done_events-counts c (mark_done c));
  done_once = ground (arith, done_events-counts c (mark_done c));
  ordered = λ h. ground arith;
}

pub ensure_added-Answered : (c : ToolCallState) → Answered c (ensure_added c).0 (ensure_added c).1
unfolding ensure_added
ensure_added-Answered c =
    Answered-if c.added_emitted c (c, []) (mark_added c, added_event (mark_added c) ∷ [])
      (λ t. Answered-refl c) (λ t. mark_added-Answered c t)

ensure_added-marks :
    (c : ToolCallState)
    → ((ensure_added c).0.added_emitted ≡ true) × ((ensure_added c).0.done_emitted ≡ c.done_emitted)
unfolding ensure_added
ensure_added-marks c = ground arith

complete_call-Answered :
    (c : ToolCallState)
    → c.done_emitted ≡ false
    → Answered c (complete_call c).0 (complete_call c).1
unfolding complete_call
complete_call-Answered c t =
    let (c', events) = ensure_added c in
    let marks = ensure_added-marks c in
    Answered-trans c c' (mark_done c') events (arguments_event c' ∷ done_event (mark_done c') ∷ [])
      (ensure_added-Answered c) (mark_done-Answered c' marks.0 (marks.1 ∙ t))

pub ensure_completed-Answered :
    (c : ToolCallState) → Answered c (ensure_completed c).0 (ensure_completed c).1
unfolding ensure_completed
ensure_completed-Answered c =
    Answered-if c.done_emitted c (c, []) (complete_call c) (λ t. Answered-refl c)
      (complete_call-Answered c)

-- An argument's delta is no announcement and no completion.
abbrev is_delta : EventKind → Bool
is_delta arguments_delta = true
is_delta input_delta = true
is_delta _ = false

kind-other :
    (type other : Str)
    → is_delta (event_kind type) ≡ true
    → is_delta (event_kind other) ≡ false
    → str_eq type other ≡ false
kind-other type other d o = elim (Bool-cases (str_eq type other)) [
  | inr e ↦ e
  | inl e ↦
      (let clash : true ≡ false =
          sym d ∙ ap (λ t. is_delta (event_kind t)) (str_eq_sound type other e) ∙ o in
        cc)
]

kinds-known : (is_delta (event_kind added_type) ≡ false) × (is_delta (event_kind done_type) ≡ false)
unfolding event_kind lookup str_eq
kinds-known = (refl, refl)

quiet-Answered :
    (c : ToolCallState) (x : ResponseStreamEvent)
    → str_eq x.type added_type ≡ false
    → str_eq x.type done_type ≡ false
    → Answered c c (x ∷ [])
unfolding emitted
quiet-Answered c x a d = record {
  added_once = ground arith;
  done_once = ground arith;
  ordered = λ h. h;
}

delta_events-Answered :
    (e : StreamEvent) (c : ToolCallState)
    → is_delta (event_kind e.type) ≡ true
    → Answered c c (delta_events e c)
unfolding delta_events
delta_events-Answered e c d =
    let delta = string_value (get (bytes "delta") e.raw) in
    let quiet = λ (payload : Fields).
      quiet-Answered c (event_of e.type payload) (kind-other e.type added_type d kinds-known.0)
        (kind-other e.type done_type d kinds-known.1) in
    elim (Bool-cases (is_empty delta)) [ inl t ↦ rw t (Answered-refl c) | inr t ↦ rw t (quiet _) ]

answer_delta-Answered :
    (e : StreamEvent) (c : ToolCallState)
    → is_delta (event_kind e.type) ≡ true
    → Answered c (answer_delta e c).0 (answer_delta e c).1
unfolding answer_delta
answer_delta-Answered e c d =
    let (c', events) = ensure_added c in
    Answered-trans c c' c' events (delta_events e c') (ensure_added-Answered c)
      (delta_events-Answered e c' d)

pub answer-Answered :
    (k : EventKind) (e : StreamEvent) (c : ToolCallState)
    → event_kind e.type ≡ k
    → Answered c (answer k e c).0 (answer k e c).1
answer-Answered arguments_delta e c h = answer_delta-Answered e c (ap is_delta h)
answer-Answered input_delta e c h = answer_delta-Answered e c (ap is_delta h)
answer-Answered arguments_done e c h = ensure_completed-Answered c
answer-Answered input_done e c h = ensure_completed-Answered c
answer-Answered item_done e c h = ensure_completed-Answered c
answer-Answered item_added e c h = ensure_added-Answered c
answer-Answered _ e c h = Answered-refl c
