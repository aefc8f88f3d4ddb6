-- ===== src/Turn/Accumulator/Emit/Runs.antt =====
-- A turn's events, each accumulated and then answered, as the streams of internal/server do, and the
-- completions at its end.
use mathlib.Core.List.{append-nil}
use codex_model_tester.Base.{
  Bool, List, Option, Option-cases, [], arith, false, get_elem?, if◌then◌else◌, inl, inr, none,
  refl, some, subst, suc, true, zero, ℕ, ◌++◌, ◌+◌, ◌∙◌, ◌∷◌, ◌≡◌,
}
use codex_model_tester.Turn.Accumulator.Emit.{
  tool_call_state_for_event, ensure_completed, answer, answer_call, call_at,
  responses_stream_events_for_event, is_incomplete, is_skipped, pending_calls,
  pending_response_tool_call_completion_events,
}
use codex_model_tester.Turn.Accumulator.Emit.Counts.{
  emitted, emitted-append, added_type, done_type, Answered, Answered-refl,
  ensure_completed-Answered, answer-Answered,
}
use codex_model_tester.Turn.Accumulator.{
  ToolCallState, ResponseStreamEvent, StreamEvent, Accumulator, event_kind, update_at,
}
use codex_model_tester.Turn.Accumulator.Kept.{
  added, done, broken, count, length-update_at, IsLinked, Kept,
}
use codex_model_tester.Turn.Accumulator.Apply.{apply}
use codex_model_tester.Turn.Accumulator.Applied.{
  head_of, text_of, tail_of, apply-parts, head-Kept, tail-Kept,
}
use codex_model_tester.Turn.Accumulator.Linked.{text_of-IsLinked, text_of-calls, apply-IsLinked}

-- Accumulate an event and answer it: the accumulator and the events for the client.
unfoldable pub serve : StreamEvent → Accumulator → Accumulator × List ResponseStreamEvent
unfolding apply responses_stream_events_for_event
serve e a =
    let (b, events, handled) = responses_stream_events_for_event e (apply e a) in (b, events)

unfoldable pub serve_all : List StreamEvent → Accumulator → Accumulator × List ResponseStreamEvent
unfolding serve
serve_all [] a = (a, [])
serve_all (e ∷ es) a =
    let (b, events) = serve e a in let (c, later) = serve_all es b in (c, events ++ later)

unfoldable pub finish :
    Accumulator × List ResponseStreamEvent → Accumulator × List ResponseStreamEvent
unfolding pending_response_tool_call_completion_events
finish (a, events) =
    let (b, later) = pending_response_tool_call_completion_events a in (b, events ++ later)

-- The calls of `a` and those of `b`, and what was emitted in between.
pub record Answers (a b : List ToolCallState) (events : List ResponseStreamEvent) : Type 0 where
  pub added_once : count added b ≡ count added a + emitted added_type events
  pub done_once : count done b ≡ count done a + emitted done_type events
  pub ordered : count broken a ≡ 0 → count broken b ≡ 0

Answers-trans :
    (a b c : List ToolCallState) (xs ys : List ResponseStreamEvent)
    → Answers a b xs
    → Answers b c ys
    → Answers a c (xs ++ ys)
Answers-trans a b c xs ys h g = record {
  added_once = omega (arith, h.added_once, g.added_once, emitted-append added_type xs ys);
  done_once = omega (arith, h.done_once, g.done_once, emitted-append done_type xs ys);
  ordered = λ o. g.ordered (h.ordered o);
}

Answers-refl : (a : List ToolCallState) → Answers a a []
unfolding emitted
Answers-refl a = record { added_once = omega arith; done_once = omega arith; ordered = λ h. h }

Answers-cons :
    (c c' : ToolCallState) (cs ds : List ToolCallState) (xs ys : List ResponseStreamEvent)
    → Answered c c' xs
    → Answers cs ds ys
    → Answers (c ∷ cs) (c' ∷ ds) (xs ++ ys)
unfolding count
Answers-cons c c' cs ds xs ys h g = record {
  added_once = ground (arith, h.added_once, g.added_once, emitted-append added_type xs ys);
  done_once = ground (arith, h.done_once, g.done_once, emitted-append done_type xs ys);
  ordered = λ o. ground (arith, h.ordered, g.ordered);
}

update-Answers :
    (i : ℕ) (c c' : ToolCallState) (cs : List ToolCallState) (xs : List ResponseStreamEvent)
    → get_elem? cs i ≡ some c
    → Answered c c' xs
    → Answers cs (update_at i (λ _. c') cs) xs
unfolding update_at
update-Answers i c c' [] xs e h = cc
update-Answers zero c c' (d ∷ cs) xs e h =
    let answered : Answered d c' xs = ground (arith, h) in
    subst (Answers (d ∷ cs) (c' ∷ cs)) (append-nil xs)
      (Answers-cons d c' cs cs xs [] answered (Answers-refl cs))
update-Answers (suc i) c c' (d ∷ cs) xs e h =
    Answers-cons d d cs (update_at i (λ _. c') cs) [] xs (Answered-refl d)
      (update-Answers i c c' cs xs e h)

answer_call-Answers :
    (e : StreamEvent) (found : Option ℕ) (a : Accumulator)
    → Answers a.tool_calls
        (answer_call e found (call_at found a.tool_calls) a).0.tool_calls
        (answer_call e found (call_at found a.tool_calls) a).1
answer_call-Answers e none a = Answers-refl a.tool_calls
answer_call-Answers e (some i) a = elim (Option-cases (get_elem? a.tool_calls i)) [
  | inl h ↦ rw h (Answers-refl a.tool_calls)
  | inr (c, h) ↦ rw h (
      update-Answers i c (answer (event_kind e.type) e c).0 a.tool_calls
        (answer (event_kind e.type) e c).1 h (answer-Answered (event_kind e.type) e c refl))
]

Kept-Answers : (a b : Accumulator) → Kept a b → Answers a.tool_calls b.tool_calls []
unfolding emitted
Kept-Answers a b h = record {
  added_once = ground (arith, h.marks added);
  done_once = ground (arith, h.marks done);
  ordered = λ o. h.marks broken ∙ o;
}

apply-Answers :
    (e : StreamEvent) (a : Accumulator)
    → IsLinked a
    → Answers a.tool_calls (apply e a).tool_calls []
apply-Answers e a l =
    let b = head_of e a in
    let kept = head-Kept e a l in
    let c = text_of e b in
    let linked = text_of-IsLinked e b (kept.linked l) in
    rw (apply-parts e a) (
      Answers-trans a.tool_calls b.tool_calls (tail_of e c).tool_calls [] [] (Kept-Answers a b kept)
        (subst (λ cs. Answers cs (tail_of e c).tool_calls []) (text_of-calls e b)
          (Kept-Answers c (tail_of e c) (tail-Kept e c linked))))

serve-Answers :
    (e : StreamEvent) (a : Accumulator)
    → IsLinked a
    → Answers a.tool_calls (serve e a).0.tool_calls (serve e a).1
unfolding serve responses_stream_events_for_event
serve-Answers e a l =
    let b = apply e a in
    let found = tool_call_state_for_event e b in
    Answers-trans a.tool_calls b.tool_calls
      (answer_call e found (call_at found b.tool_calls) b).0.tool_calls []
      (answer_call e found (call_at found b.tool_calls) b).1 (apply-Answers e a l)
      (answer_call-Answers e found b)

answer_call-IsLinked :
    (e : StreamEvent) (found : Option ℕ) (c : Option ToolCallState) (a : Accumulator)
    → IsLinked a
    → IsLinked (answer_call e found c a).0
answer_call-IsLinked e none c a h = h
answer_call-IsLinked e (some i) none a h = h
answer_call-IsLinked e (some i) (some c) a h = record {
  calls = rw (length-update_at i (λ _. (answer (event_kind e.type) e c).0) a.tool_calls) h.calls;
  items = h.items;
}

serve-IsLinked : (e : StreamEvent) (a : Accumulator) → IsLinked a → IsLinked (serve e a).0
unfolding serve responses_stream_events_for_event
serve-IsLinked e a l =
    let b = apply e a in
    let found = tool_call_state_for_event e b in
    answer_call-IsLinked e found (call_at found b.tool_calls) b (apply-IsLinked e a l)

pub serve_all-Answers :
    (es : List StreamEvent) (a : Accumulator)
    → IsLinked a
    → Answers a.tool_calls (serve_all es a).0.tool_calls (serve_all es a).1
unfolding serve_all
serve_all-Answers [] a l = Answers-refl a.tool_calls
serve_all-Answers (e ∷ es) a l =
    let (b, events) = serve e a in
    let (c, later) = serve_all es b in
    Answers-trans a.tool_calls b.tool_calls c.tool_calls events later (serve-Answers e a l)
      (serve_all-Answers es b (serve-IsLinked e a l))

Answers-if :
    (t : Bool) (c : ToolCallState) (cs : List ToolCallState)
    (x y : List ToolCallState × List ResponseStreamEvent)
    → Answers cs x.0 x.1
    → Answers cs y.0 y.1
    → Answers cs (if t then x else y).0 (if t then x else y).1
Answers-if true c cs x y h g = h
Answers-if false c cs x y h g = g

pending_calls-Answers :
    (incomplete : Bool) (cs : List ToolCallState)
    → Answers cs (pending_calls incomplete cs).0 (pending_calls incomplete cs).1
unfolding pending_calls
pending_calls-Answers incomplete [] = Answers-refl []
pending_calls-Answers incomplete (c ∷ cs) =
    let (ds, later) = pending_calls incomplete cs in
    let (c', events) = ensure_completed c in
    let rest = pending_calls-Answers incomplete cs in
    Answers-if (is_skipped incomplete c) c (c ∷ cs) (c ∷ ds, later) (c' ∷ ds, events ++ later)
      (Answers-cons c c cs ds [] later (Answered-refl c) rest)
      (Answers-cons c c' cs ds events later (ensure_completed-Answered c) rest)

pub finish-Answers :
    (a : Accumulator) (events : List ResponseStreamEvent) (cs : List ToolCallState)
    → Answers cs a.tool_calls events
    → Answers cs (finish (a, events)).0.tool_calls (finish (a, events)).1
unfolding finish pending_response_tool_call_completion_events
finish-Answers a events cs h =
    let (ds, later) = pending_calls (is_incomplete a) a.tool_calls in
    Answers-trans cs a.tool_calls ds events later h
      (pending_calls-Answers (is_incomplete a) a.tool_calls)
