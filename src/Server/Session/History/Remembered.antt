-- ===== src/Server/Session/History/Remembered.antt =====
-- What a later request can build on, after rememberContinuation of internal/server/public.go.
use codex_model_tester.Base.{
  All, Bool-cases, In, List, Str, [], ap, arith, false, inl, inr, is_empty, length, refl, some,
  str_eq, str_eq_refl, str_eq_sound, subst, sym, trim_space, true, ℕ, ◌++◌, ◌<◌, ◌||◌, ◌∙◌, ◌∷◌,
  ◌≡◌, ◌⊎◌,
}
use codex_model_tester.Server.Session.History.{
  continuation_input_history, call_ids_from, function_call_ids, continuation_of,
}
use codex_model_tester.Server.Resumption.{
  allowed_call_ids, is_output_type, is_allowed, all_allowed, trimmed_continuation_input,
}
use codex_model_tester.Server.Session.Resume.{trimmed-append}
use codex_model_tester.Turn.Types.{InputItem}
use codex_model_tester.Turn.ToolNames.{contains}
use codex_model_tester.Turn.Accumulator.{ToolCallState, Accumulator}

contains-cons : (id x : Str) (xs : List Str) → contains id xs ≡ true → contains id (x ∷ xs) ≡ true
unfolding contains
contains-cons id x xs h = ground arith

contains_self : (id : Str) (xs : List Str) → contains id (id ∷ xs) ≡ true
unfolding contains
contains_self id xs = ground (arith, str_eq_refl id)

abbrev id_of : ToolCallState → Str
id_of c = trim_space c.call_id

abbrev Known : Str → List Str → List Str → Type 0
Known id seen ids = (contains id seen ≡ true) ⊎ (contains id ids ≡ true)

-- Adding an ID to those seen, and to the list, loses none.
Known-step : (id x : Str) (seen ids : List Str) → Known id (x ∷ seen) ids → Known id seen (x ∷ ids)
unfolding contains
Known-step id x seen ids (inr h) = inr (contains-cons id x ids h)
Known-step id x seen ids (inl h) = elim (Bool-cases (str_eq x id)) [
  | inl e ↦ inr (rw e refl)
  | inr e ↦ inl (rw e at h)
]

-- A call's ID is seen before or listed.
call_ids-contains :
    (c : ToolCallState) (cs : List ToolCallState) (seen : List Str)
    → In c cs
    → is_empty (id_of c) ≡ false
    → Known (id_of c) seen (call_ids_from seen cs)
unfolding call_ids_from
call_ids-contains c [] seen i h = absurd i
call_ids-contains c (d ∷ cs) seen (inl e) h =
    let same : id_of d ≡ id_of c = ap id_of e in
    elim (Bool-cases (is_empty (id_of d) || contains (id_of d) seen)) [
      | inl s ↦ inl (ground arith)
      | inr s ↦ rw s (
          inr (
            subst (λ x. contains x (id_of d ∷ call_ids_from (id_of d ∷ seen) cs) ≡ true) same
              (contains_self (id_of d) (call_ids_from (id_of d ∷ seen) cs))))
    ]
call_ids-contains c (d ∷ cs) seen (inr i) h =
    elim (Bool-cases (is_empty (id_of d) || contains (id_of d) seen)) [
      | inl s ↦ rw s (call_ids-contains c cs seen i h)
      | inr s ↦ rw s (
          Known-step (id_of c) (id_of d) seen (call_ids_from (id_of d ∷ seen) cs)
            (call_ids-contains c cs (id_of d ∷ seen) i h))
    ]

no_Known : (id : Str) (ids : List Str) → Known id [] ids → contains id ids ≡ true
unfolding contains
no_Known id ids (inl h) = cc
no_Known id ids (inr h) = h

allowed-contains :
    (id : Str) (ids : List Str)
    → trim_space id ≡ id
    → is_empty id ≡ false
    → contains id ids ≡ true
    → contains id (allowed_call_ids ids) ≡ true
unfolding allowed_call_ids contains
allowed-contains id [] t e h = cc
allowed-contains id (x ∷ ids) t e h = elim (Bool-cases (str_eq x id)) [
  | inl s ↦
      let same = str_eq_sound x id s in
      let trimmed : trim_space x ≡ id = ap trim_space same ∙ t in
      rw (trimmed, e, str_eq_refl id) refl
  | inr s ↦
      let rest = allowed-contains id ids t e (rw s at h) in
      elim (Bool-cases (is_empty (trim_space x))) [
        | inl b ↦ rw b rest
        | inr b ↦ rw b (contains-cons id (trim_space x) (allowed_call_ids ids) rest)
      ]
]

-- An item that is no output, or the output of a call of the turn whose ID has no space around it.
abbrev pub Answers : List ToolCallState → InputItem → Type 0
Answers calls i =
    (is_output_type i.type ≡ false)
    ⊎ ((c : ToolCallState) × In c calls
        × (trim_space i.call_id ≡ c.call_id)
        × (trim_space c.call_id ≡ c.call_id)
        × (is_empty c.call_id ≡ false))

is_allowed-other :
    (ids : List Str) (i : InputItem) → is_output_type i.type ≡ false → is_allowed ids i ≡ true
unfolding is_allowed
is_allowed-other ids i h = rw h refl

is_allowed-known :
    (ids : List Str) (i : InputItem)
    → is_empty (trim_space i.call_id) ≡ false
    → contains (trim_space i.call_id) ids ≡ true
    → is_allowed ids i ≡ true
unfolding is_allowed
is_allowed-known ids i e h = ground arith

Answers-is_allowed :
    (a : Accumulator) (i : InputItem)
    → Answers a.tool_calls i
    → is_allowed (allowed_call_ids (function_call_ids a)) i ≡ true
unfolding function_call_ids
Answers-is_allowed a i (inl h) =
    is_allowed-other (allowed_call_ids (call_ids_from [] a.tool_calls)) i h
Answers-is_allowed a i (inr (c, there, same, t, e)) =
    let ids = call_ids_from [] a.tool_calls in
    let filled : is_empty (id_of c) ≡ false = rw t e in
    let listed = no_Known (id_of c) ids (call_ids-contains c a.tool_calls [] there filled) in
    let known = allowed-contains c.call_id ids t e (subst (λ x. contains x ids ≡ true) t listed) in
    is_allowed-known (allowed_call_ids ids) i (rw same e)
      (subst (λ x. contains x (allowed_call_ids ids) ≡ true) (sym same) known)

Answers-all_allowed :
    (a : Accumulator) (items : List InputItem)
    → All (Answers a.tool_calls) items
    → all_allowed (allowed_call_ids (function_call_ids a)) items ≡ true
unfolding all_allowed
Answers-all_allowed a [] h = refl
Answers-all_allowed a (i ∷ items) h =
    rw (Answers-is_allowed a i h.0) (Answers-all_allowed a items h.1)

-- After a turn, a request that repeats what was remembered of its input and output, not empty,
-- and adds at least one item, each of which is no tool output or answers a call of the turn
-- whose ID has no space around it and is not empty, is trimmed to the items that it adds.
pub trimmed-continuation_of :
    (sum256 : Str → List ℕ) (strip_reminder : Str → Str) (account_id turn_state : Str)
    (a : Accumulator) (items : List InputItem)
    → 0 < length (continuation_input_history a)
    → 0 < length items
    → All (Answers a.tool_calls) items
    → trimmed_continuation_input
        (continuation_input_history a ++ items)
        (continuation_of sum256 strip_reminder account_id turn_state a)
      ≡ some items
unfolding continuation_of
trimmed-continuation_of sum256 strip_reminder account_id turn_state a items old new answers =
    trimmed-append items (continuation_of sum256 strip_reminder account_id turn_state a) old new
      (Answers-all_allowed a items answers)
