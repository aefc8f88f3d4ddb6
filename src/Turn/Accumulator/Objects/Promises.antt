-- ===== src/Turn/Accumulator/Objects/Promises.antt =====
-- What the answers of internal/turn/accumulator.go say about the tool calls of a turn.
use codex_model_tester.Base.{
  Bool, In, In-append_left, List, Str, [], ap, arith, bytes, false, inl, inr, length, length-append,
  length-map, map, refl, subst, suc, ℕ, ◌++◌, ◌+◌, ◌<◌, ◌∙◌, ◌∷◌, ◌≡◌,
}
use codex_model_tester.Turn.Accumulator.Objects.Output.{
  OutputEntry, call_status, call_entries, item_entries, by_place, output_entries, or_message,
  responses_output,
}
use codex_model_tester.Turn.Accumulator.{ToolCallState, OutputItemState, Accumulator}
use codex_model_tester.Turn.Accumulator.Emit.{response_output_item, is_incomplete}
use codex_model_tester.Json.{Fields}
use codex_model_tester.Accounts.Rotation.{sort_func}
use codex_model_tester.Accounts.Rotation.Sorting.{In-sort_func, length-sort_func}

map-In : {A B : Type 0} (f : A → B) (a : A) (xs : List A) → In a xs → In (f a) (map f xs)
map-In f a [] h = absurd h
map-In f a (x ∷ xs) (inl e) = inl (ap f e)
map-In f a (x ∷ xs) (inr h) = inr (map-In f a xs h)

call_entries-In :
    (n : ℕ) (c : ToolCallState) (cs : List ToolCallState)
    → In c cs
    → (e : OutputEntry) × In e (call_entries false n cs)
      × (e.item ≡ response_output_item (bytes "completed") c)
unfolding call_entries call_status
call_entries-In n c [] i = absurd i
call_entries-In n c (d ∷ cs) (inl e) = (
  record {
    output_index = d.output_index;
    order = n;
    item = response_output_item (bytes "completed") d;
  },
  inl refl,
  ap (response_output_item (bytes "completed")) e,
)
call_entries-In n c (d ∷ cs) (inr i) =
    let (e, there, shown) = call_entries-In (suc n) c cs i in (e, inr there, shown)

length-call_entries :
    (b : Bool) (n : ℕ) (cs : List ToolCallState) → length (call_entries b n cs) ≡ length cs
unfolding call_entries
length-call_entries b n [] = refl
length-call_entries b n (c ∷ cs) = ap suc (length-call_entries b (suc n) cs)

length-item_entries :
    (b : Bool) (t : Str) (n : ℕ) (ss : List OutputItemState)
    → length (item_entries b t n ss) ≡ length ss
unfolding item_entries
length-item_entries b t n [] = refl
length-item_entries b t n (s ∷ ss) = ap suc (length-item_entries b t (suc n) ss)

length-output_entries :
    (t : Str) (a : Accumulator)
    → length (output_entries t a) ≡ length a.tool_calls + length a.output_items
unfolding output_entries
length-output_entries t a =
    let calls = call_entries (is_incomplete a) 0 a.tool_calls in
    let items = item_entries (is_incomplete a) t (length a.tool_calls) a.output_items in
    omega (
      arith,
      length-sort_func by_place (calls ++ items),
      length-append {0} calls items,
      length-call_entries (is_incomplete a) 0 a.tool_calls,
      length-item_entries (is_incomplete a) t (length a.tool_calls) a.output_items,
    )

or_message-In :
    (b : Bool) (t : Str) (m : Fields) (ms : List Fields) → In m ms → In m (or_message b t ms)
or_message-In b t m [] h = absurd h
or_message-In b t m (x ∷ ms) h = h

or_message-same : (b : Bool) (t : Str) (ms : List Fields) → 0 < length ms → or_message b t ms ≡ ms
or_message-same b t [] h = absurd (omega arith)
or_message-same b t (x ∷ ms) h = refl

In-length : {A : Type 0} (a : A) (xs : List A) → In a xs → 0 < length xs
In-length a [] h = absurd h
In-length a (x ∷ xs) h = omega arith

output_entries-call :
    (t : Str) (a : Accumulator) (c : ToolCallState)
    → is_incomplete a ≡ false
    → In c a.tool_calls
    → In
        (response_output_item (bytes "completed") c)
        (map (λ (e : OutputEntry). e.item) (output_entries t a))
unfolding output_entries
output_entries-call t a c h i =
    let (e, there, shown) = call_entries-In 0 c a.tool_calls i in
    let items = item_entries (is_incomplete a) t (length a.tool_calls) a.output_items in
    let calls = call_entries (is_incomplete a) 0 a.tool_calls in
    let listed : In e calls = rw h there in
    let sorted = In-sort_func by_place e (calls ++ items) (In-append_left e calls items listed) in
    subst (λ x. In x (map (λ (e : OutputEntry). e.item) (sort_func by_place (calls ++ items))))
      shown (map-In (λ (e : OutputEntry). e.item) e (sort_func by_place (calls ++ items)) sorted)

-- The output of a turn that is not incomplete holds each of its tool calls, as completed, and
-- has as many entries as there are tool calls and other items, as long as there is a call.
pub responses_output-call :
    (t : Str) (a : Accumulator) (c : ToolCallState)
    → is_incomplete a ≡ false
    → In c a.tool_calls
    → In (response_output_item (bytes "completed") c) (responses_output t a)
      × (length (responses_output t a) ≡ length a.tool_calls + length a.output_items)
unfolding responses_output
responses_output-call t a c h i =
    let shown = map (λ (e : OutputEntry). e.item) (output_entries t a) in
    let there = output_entries-call t a c h i in
    (
      or_message-In (is_incomplete a) t (response_output_item (bytes "completed") c) shown there,
      rw
          (or_message-same (is_incomplete a) t shown
            (In-length (response_output_item (bytes "completed") c) shown there))
          (length-map {0} (output_entries t a) (λ (e : OutputEntry). e.item)
            ∙ length-output_entries t a),
    )
