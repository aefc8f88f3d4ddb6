-- ===== src/Turn/Accumulator/Frame.antt =====
-- The operations of ensureToolCallState and captureOutputItem keep what `Kept` names.
use codex_model_tester.Base.{
  Bool-cases, List, Option, Str, [], arith, false, get_elem?, inl, inr, is_empty, leb, length,
  length-append, lookup-insert, negsuc, none, or_str, pos, refl, some, suc, trim_space, ℕ, ℤ, ◌++◌,
  ◌<◌, ◌||◌, ◌∷◌, ◌≡◌,
}
use codex_model_tester.Turn.Accumulator.{
  ToolCallState, Accumulator, resolve_output_index, update_call, register_tool_call_aliases, rejoin,
  move_call, ids_of, join_call, new_call, add_call, find_call, join_or_add, ensure_tool_call_state,
}
use codex_model_tester.Turn.Accumulator.Kept.{
  count-append_unmarked, KeepsMarks, length-update_at, InRange-le, InRange-register, IsLinked, Kept,
  Kept-refl, unrelated-Kept, Kept-trans, update_call-Kept,
}
use codex_model_tester.Turn.Accumulator.Capture.{put_item}
use codex_model_tester.Json.{Fields}

pub resolve-Kept : (i : ℤ) (a : Accumulator) → Kept a (resolve_output_index i a).0
unfolding resolve_output_index
resolve-Kept (negsuc n) a =
    unrelated-Kept a (record a { next_output_index = suc a.next_output_index }) refl refl refl refl
      refl refl
resolve-Kept (pos n) a = elim (Bool-cases (leb a.next_output_index n)) [
  | inr e ↦ rw e (Kept-refl a)
  | inl e ↦
      rw e (unrelated-Kept a (record a { next_output_index = suc n }) refl refl refl refl refl refl)
]

rejoin-KeepsMarks : (item_id call_id : Str) → KeepsMarks (rejoin item_id call_id)
unfolding rejoin
rejoin-KeepsMarks item_id call_id c = (refl, refl)

move_call-Kept : (e : ℤ) (i : ℕ) (a : Accumulator) → Kept a (move_call e i a)
unfolding move_call
move_call-Kept (negsuc n) i a = Kept-refl a
move_call-Kept (pos n) i a =
    let (a', index) = resolve_output_index (pos n) a in
    Kept-trans a a' (update_call i (λ c. record c { output_index = index }) a')
      (resolve-Kept (pos n) a)
      (update_call-Kept i (λ c. record c { output_index = index }) a' (λ c. (refl, refl)))

register-Kept :
    (i : ℕ) (ids : List Str) (a : Accumulator)
    → i < length a.tool_calls
    → Kept a (register_tool_call_aliases i ids a)
unfolding register_tool_call_aliases
register-Kept i ids a l = record {
  text = refl;
  summary = refl;
  marks = λ k. refl;
  grows = omega arith;
  linked = λ h. record {
    calls = InRange-register (length a.tool_calls) i ids a.tool_call_by_id l h.calls;
    items = h.items;
  };
}

join_call-Kept :
    (item_id call_id : Str) (e : ℤ) (i : ℕ) (a : Accumulator)
    → i < length a.tool_calls
    → Kept a (join_call item_id call_id e i a)
unfolding join_call
join_call-Kept item_id call_id e i a l =
    let b = move_call e i a in
    let c = update_call i (rejoin item_id call_id) b in
    let moved = move_call-Kept e i a in
    let joined =
      Kept-trans a b c moved
        (update_call-Kept i (rejoin item_id call_id) b (rejoin-KeepsMarks item_id call_id)) in
    let ids = ids_of (get_elem? c.tool_calls i) ++ call_id ∷ item_id ∷ [] in
    Kept-trans a c (register_tool_call_aliases i ids c) joined
      (register-Kept i ids c (ground (arith, joined.grows)))

append_call-Kept :
    (c : ToolCallState) (a : Accumulator)
    → c.added_emitted ≡ false
    → c.done_emitted ≡ false
    → Kept a (record a { tool_calls = a.tool_calls ++ c ∷ [] })
append_call-Kept c a x y = record {
  text = refl;
  summary = refl;
  marks = λ k. count-append_unmarked k a.tool_calls c x y;
  grows = ground (arith, length-append {0} a.tool_calls (c ∷ []));
  linked = λ h. record {
    calls =
        InRange-le (length a.tool_calls) (length (a.tool_calls ++ c ∷ [])) a.tool_call_by_id
          (ground (arith, length-append {0} a.tool_calls (c ∷ []))) h.calls;
    items = h.items;
  };
}

add_call-Kept :
    (item_id call_id : Str) (e : ℤ) (a : Accumulator) → Kept a (add_call item_id call_id e a)
unfolding add_call
add_call-Kept item_id call_id e a =
    let (b, index) = resolve_output_index e a in
    let c = record b { tool_calls = b.tool_calls ++ new_call item_id call_id index ∷ [] } in
    let n = length b.tool_calls in
    Kept-trans a b (register_tool_call_aliases n (call_id ∷ item_id ∷ []) c) (resolve-Kept e a) (
      Kept-trans b c (register_tool_call_aliases n (call_id ∷ item_id ∷ []) c)
        (append_call-Kept (new_call item_id call_id index) b refl refl)
        (register-Kept n (call_id ∷ item_id ∷ []) c
          (ground (arith, length-append {0} b.tool_calls (new_call item_id call_id index ∷ [])))))

found_lt :
    (a : Accumulator) (call_id item_id : Str) (i : ℕ)
    → IsLinked a
    → find_call call_id item_id a.tool_call_by_id ≡ some i
    → i < length a.tool_calls
unfolding find_call
found_lt a call_id item_id i h e = ground (arith, h.calls call_id i, h.calls item_id i)

join_or_add-Kept :
    (item_id call_id : Str) (e : ℤ) (found : Option ℕ) (a : Accumulator)
    → IsLinked a
    → find_call call_id item_id a.tool_call_by_id ≡ found
    → Kept a (join_or_add item_id call_id e found a).0
join_or_add-Kept item_id call_id e none a h f = add_call-Kept item_id call_id e a
join_or_add-Kept item_id call_id e (some i) a h f =
    join_call-Kept item_id call_id e i a (found_lt a call_id item_id i h f)

pub ensure-Kept :
    (item_id call_id : Str) (e : ℤ) (a : Accumulator)
    → IsLinked a
    → Kept a (ensure_tool_call_state item_id call_id e a).0
unfolding ensure_tool_call_state
ensure-Kept item_id call_id e a h =
    let item = or_str (trim_space item_id) (trim_space call_id) in
    let call = or_str (trim_space call_id) item in
    elim (Bool-cases (is_empty item || is_empty call)) [
      | inl t ↦ rw t (Kept-refl a)
      | inr t ↦ rw t (join_or_add-Kept item call e (find_call call item a.tool_call_by_id) a h refl)
    ]

pub put_item-Kept :
    (item : Fields) (index : ℕ) (key : Str) (found : Option ℕ) (a : Accumulator)
    → Kept a (put_item item index key found a)
unfolding put_item
put_item-Kept item index key (some i) a = record {
  text = refl;
  summary = refl;
  marks = λ k. refl;
  grows = omega arith;
  linked = λ h. record {
    calls = h.calls;
    items =
        rw (length-update_at i (λ s. record s { item = item; output_index = index }) a.output_items)
          h.items;
  };
}
put_item-Kept item index key none a = record {
  text = refl;
  summary = refl;
  marks = λ k. refl;
  grows = omega arith;
  linked = λ h. record {
    calls = h.calls;
    items = λ j i e. ground (
      arith,
      lookup-insert key j (length a.output_items) a.output_item_by_key,
      h.items j i,
      length-append {0} a.output_items (record { output_index = index; item = item } ∷ []),
    );
  };
}
