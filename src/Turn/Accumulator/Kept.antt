-- ===== src/Turn/Accumulator/Kept.antt =====
-- What each change of an accumulator outside of its text and of the emitted events leaves as it was.
use codex_model_tester.Base.{
  Bool, Bool-cases, Dict, List, Str, [], ap, arith, false, if◌then◌else◌, inl, inr, insert,
  is_empty, length, lookup, lookup-insert, not, refl, some, suc, trim_space, zero, ℕ, ◌&&◌, ◌++◌,
  ◌<◌, ◌∙◌, ◌∷◌, ◌≡◌, ◌≤◌,
}
use codex_model_tester.Turn.Accumulator.{
  ToolCallState, Accumulator, update_at, update_call, register_aliases,
}

-- A mark on a call: announced, finished, or finished without having been announced.
pub data Mark : Type 0 where
  added done broken : Mark

abbrev pub has_mark : Mark → ToolCallState → Bool
has_mark added c = c.added_emitted
has_mark done c = c.done_emitted
has_mark broken c = c.done_emitted && not c.added_emitted

unfoldable pub count : Mark → List ToolCallState → ℕ
count k [] = 0
count k (c ∷ cs) = if has_mark k c then suc (count k cs) else count k cs

has_mark_none :
    (k : Mark) (c : ToolCallState)
    → c.added_emitted ≡ false
    → c.done_emitted ≡ false
    → has_mark k c ≡ false
has_mark_none added c a d = a
has_mark_none done c a d = d
has_mark_none broken c a d = rw d refl

pub count-append_unmarked :
    (k : Mark) (cs : List ToolCallState) (c : ToolCallState)
    → c.added_emitted ≡ false
    → c.done_emitted ≡ false
    → count k (cs ++ c ∷ []) ≡ count k cs
unfolding count
count-append_unmarked k [] c a d = rw (has_mark_none k c a d) refl
count-append_unmarked k (b ∷ cs) c a d = rw (count-append_unmarked k cs c a d) refl

-- A change of a call that leaves its marks.
abbrev pub KeepsMarks : (ToolCallState → ToolCallState) → Type 0
KeepsMarks f =
    (c : ToolCallState)
    → ((f c).added_emitted ≡ c.added_emitted) × ((f c).done_emitted ≡ c.done_emitted)

has_mark-kept :
    (k : Mark) (c d : ToolCallState)
    → c.added_emitted ≡ d.added_emitted
    → c.done_emitted ≡ d.done_emitted
    → has_mark k c ≡ has_mark k d
has_mark-kept added c d a b = a
has_mark-kept done c d a b = b
has_mark-kept broken c d a b = rw (a, b) refl

pub count-update_at :
    (k : Mark) (i : ℕ) (f : ToolCallState → ToolCallState) (cs : List ToolCallState)
    → KeepsMarks f
    → count k (update_at i f cs) ≡ count k cs
unfolding count update_at
count-update_at k i f [] h = refl
count-update_at k zero f (c ∷ cs) h = rw (has_mark-kept k (f c) c (h c).0 (h c).1) refl
count-update_at k (suc i) f (c ∷ cs) h = rw (count-update_at k i f cs h) refl

pub length-update_at {ℓ} :
    {A : Type ℓ} (i : ℕ) (f : A → A) (xs : List A) → length (update_at i f xs) ≡ length xs
unfolding update_at
length-update_at i f [] = refl
length-update_at zero f (x ∷ xs) = refl
length-update_at (suc i) f (x ∷ xs) = ap suc (length-update_at i f xs)

-- Every place in a map is the place of an element.
abbrev pub InRange : ℕ → Dict ℕ → Type 0
InRange n m = (key : Str) (i : ℕ) → lookup key m ≡ some i → i < n

pub InRange-insert :
    (n : ℕ) (key : Str) (i : ℕ) (m : Dict ℕ) → i < n → InRange n m → InRange n (insert key i m)
InRange-insert n key i m l h other j e = ground (arith, lookup-insert key other i m, h other j)

pub InRange-le : (n p : ℕ) (m : Dict ℕ) → n ≤ p → InRange n m → InRange p m
InRange-le n p m l h key i e = ground (arith, h key i e)

pub InRange-register :
    (n i : ℕ) (ids : List Str) (m : Dict ℕ)
    → i < n
    → InRange n m
    → InRange n (register_aliases i ids m)
unfolding register_aliases
InRange-register n i [] m l h = h
InRange-register n i (id ∷ ids) m l h = elim (Bool-cases (is_empty (trim_space id))) [
  | inl e ↦ rw e (InRange-register n i ids m l h)
  | inr e ↦ rw e (InRange-register n i ids (insert id i m) l (InRange-insert n id i m l h))
]

-- The maps of an accumulator lead to its calls and items.
pub record IsLinked (a : Accumulator) : Type 0 where
  pub calls : InRange (length a.tool_calls) a.tool_call_by_id
  pub items : InRange (length a.output_items) a.output_item_by_key

-- From `a` to `b` the texts and the counts of marked calls stay, and no call is lost.
pub record Kept (a b : Accumulator) : Type 0 where
  pub text : b.text_builder ≡ a.text_builder
  pub summary : b.reasoning_summary_builder ≡ a.reasoning_summary_builder
  pub marks : (k : Mark) → count k b.tool_calls ≡ count k a.tool_calls
  pub grows : length a.tool_calls ≤ length b.tool_calls
  pub linked : IsLinked a → IsLinked b

pub Kept-refl : (a : Accumulator) → Kept a a
Kept-refl a = record {
  text = refl;
  summary = refl;
  marks = λ k. refl;
  grows = omega arith;
  linked = λ h. h;
}

pub unrelated-Kept :
    (a b : Accumulator)
    → b.text_builder ≡ a.text_builder
    → b.reasoning_summary_builder ≡ a.reasoning_summary_builder
    → b.tool_calls ≡ a.tool_calls
    → b.tool_call_by_id ≡ a.tool_call_by_id
    → b.output_items ≡ a.output_items
    → b.output_item_by_key ≡ a.output_item_by_key
    → Kept a b
unrelated-Kept a b t r c i o k = record {
  text = t;
  summary = r;
  marks = λ m. rw c refl;
  grows = rw c (omega arith);
  linked = λ h. record { calls = rw (c, i) h.calls; items = rw (o, k) h.items };
}

pub Kept-trans : (a b c : Accumulator) → Kept a b → Kept b c → Kept a c
Kept-trans a b c h g = record {
  text = g.text ∙ h.text;
  summary = g.summary ∙ h.summary;
  marks = λ k. g.marks k ∙ h.marks k;
  grows = ground (arith, h.grows, g.grows);
  linked = λ l. g.linked (h.linked l);
}

pub update_call-Kept :
    (i : ℕ) (f : ToolCallState → ToolCallState) (a : Accumulator)
    → KeepsMarks f
    → Kept a (update_call i f a)
update_call-Kept i f a h = record {
  text = refl;
  summary = refl;
  marks = λ k. count-update_at k i f a.tool_calls h;
  grows = ground (arith, length-update_at i f a.tool_calls);
  linked = λ l. record { calls = rw (length-update_at i f a.tool_calls) l.calls; items = l.items };
}
