-- ===== src/Turn/Accumulator/Emit/Promises.antt =====
-- The announcements and completions of tool calls that the client of a stream sees.
use codex_model_tester.Base.{
  Bool, List, [], ap, arith, false, if◌then◌else◌, length, refl, suc, true, ◌++◌, ◌+◌, ◌∙◌, ◌∷◌,
  ◌≡◌, ◌≤◌,
}
use codex_model_tester.Turn.Accumulator.Emit.{
  complete_call, ensure_completed, is_incomplete, is_skipped, pending_calls,
  pending_response_tool_call_completion_events,
}
use codex_model_tester.Turn.Accumulator.Emit.Runs.{
  serve_all, finish, Answers, serve_all-Answers, finish-Answers,
}
use codex_model_tester.Turn.Accumulator.Emit.Counts.{emitted, added_type, done_type}
use codex_model_tester.Turn.Accumulator.{
  ToolCallState, ResponseStreamEvent, StreamEvent, Accumulator, new_accumulator,
}
use codex_model_tester.Turn.Accumulator.Kept.{Mark, added, done, broken, count}
use codex_model_tester.Turn.Accumulator.Linked.{new-IsLinked}
use codex_model_tester.Turn.Request.{NormalizedRequest}

count-le : (k : Mark) (cs : List ToolCallState) → count k cs ≤ length cs
unfolding count
count-le k [] = omega arith
count-le k (c ∷ cs) = ground (arith, count-le k cs)

done_le_added : (cs : List ToolCallState) → count done cs ≤ count added cs + count broken cs
unfolding count
done_le_added [] = omega arith
done_le_added (c ∷ cs) = ground (arith, done_le_added cs)

-- What a stream from its start has emitted, and its calls.
served :
    (es : List StreamEvent) (n : NormalizedRequest)
    → Answers []
        (serve_all es (new_accumulator n)).0.tool_calls
        (serve_all es (new_accumulator n)).1
served es n = unfold new_accumulator in serve_all-Answers es (new_accumulator n) (new-IsLinked n)

bounded :
    (cs : List ToolCallState) (events : List ResponseStreamEvent)
    → Answers [] cs events
    → (emitted done_type events ≤ emitted added_type events)
      × (emitted added_type events ≤ length cs)
unfolding count
bounded cs events h =
    ground (arith, done_le_added cs, count-le added cs, h.added_once, h.done_once, h.ordered refl)

-- While the events of a turn are accumulated and answered one after the other, at most as many
-- tool calls have been completed for the client as were announced to it, and at most as many
-- were announced as the accumulator holds.
pub serve_all-bounds :
    (es : List StreamEvent) (n : NormalizedRequest)
    → (emitted done_type (serve_all es (new_accumulator n)).1
        ≤ emitted added_type (serve_all es (new_accumulator n)).1)
      × (emitted added_type (serve_all es (new_accumulator n)).1
          ≤ length (serve_all es (new_accumulator n)).0.tool_calls)
serve_all-bounds es n =
    bounded (serve_all es (new_accumulator n)).0.tool_calls (serve_all es (new_accumulator n)).1
      (served es n)

done_cons :
    (c : ToolCallState) (cs : List ToolCallState)
    → c.done_emitted ≡ true
    → count done (c ∷ cs) ≡ suc (count done cs)
unfolding count
done_cons c cs h = rw h refl

complete_call-done : (c : ToolCallState) → (complete_call c).0.done_emitted ≡ true
unfolding complete_call
complete_call-done c = refl

ensure_completed-done : (c : ToolCallState) → (ensure_completed c).0.done_emitted ≡ true
unfolding ensure_completed
ensure_completed-done c = ground (arith, complete_call-done c)

pending_if-done :
    (t : Bool) (x y : List ToolCallState × List ResponseStreamEvent)
    → (t ≡ true → count done x.0 ≡ length x.0)
    → count done y.0 ≡ length y.0
    → count done (if t then x else y).0 ≡ length (if t then x else y).0
pending_if-done true x y h g = h refl
pending_if-done false x y h g = g

is_skipped-done : (c : ToolCallState) → is_skipped false c ≡ true → c.done_emitted ≡ true
unfolding is_skipped
is_skipped-done c h = ground arith

pending_calls-done :
    (cs : List ToolCallState)
    → count done (pending_calls false cs).0 ≡ length (pending_calls false cs).0
unfolding pending_calls count
pending_calls-done [] = refl
pending_calls-done (c ∷ cs) =
    let (ds, later) = pending_calls false cs in
    let (c', events) = ensure_completed c in
    pending_if-done (is_skipped false c) (c ∷ ds, later) (c' ∷ ds, events ++ later)
      (λ t. done_cons c ds (is_skipped-done c t) ∙ ap suc (pending_calls-done cs))
      (done_cons c' ds (ensure_completed-done c) ∙ ap suc (pending_calls-done cs))

finish-calls :
    (a : Accumulator) (events : List ResponseStreamEvent)
    → is_incomplete a ≡ false
    → (finish (a, events)).0.tool_calls ≡ (pending_calls false a.tool_calls).0
unfolding finish pending_response_tool_call_completion_events
finish-calls a events h = rw h refl

exact :
    (cs : List ToolCallState) (events : List ResponseStreamEvent)
    → Answers [] cs events
    → count done cs ≡ length cs
    → (emitted added_type events ≡ length cs) × (emitted done_type events ≡ length cs)
unfolding count
exact cs events h d =
    ground (arith, done_le_added cs, count-le added cs, h.added_once, h.done_once, h.ordered refl)

-- When a turn's stream has ended without being incomplete and the pending completions have been
-- sent, then exactly as many tool calls were announced, and exactly as many completed, as the
-- accumulator holds.
pub finish-done :
    (es : List StreamEvent) (n : NormalizedRequest)
    → is_incomplete (serve_all es (new_accumulator n)).0 ≡ false
    → (emitted added_type (finish (serve_all es (new_accumulator n))).1
        ≡ length (finish (serve_all es (new_accumulator n))).0.tool_calls)
      × (emitted done_type (finish (serve_all es (new_accumulator n))).1
          ≡ length (finish (serve_all es (new_accumulator n))).0.tool_calls)
finish-done es n h =
    let (a, events) = serve_all es (new_accumulator n) in
    exact (finish (a, events)).0.tool_calls (finish (a, events)).1
      (finish-Answers a events [] (served es n))
      (rw (finish-calls a events h) (pending_calls-done a.tool_calls))
