-- ===== src/Server/Session/Resume.antt =====
-- When a stored response of internal/server/session.go is resumed, and with what input.
use codex_model_tester.Base.{
  Bool, In, List, Option, Option-cases, [], arith, drop, false, if◌then◌else◌, inl, inr, length,
  length-drop, none, refl, some, str_eq, subst, trim_space, true, ◌++◌, ◌<◌, ◌∙◌, ◌∷◌, ◌≡◌,
  length-append,
}
use codex_model_tester.Server.Session.{with_stored, resumable, first_resumable}
use codex_model_tester.Server.Resumption.{
  can_implicitly_resume, allowed_call_ids, all_allowed, is_continued, trimmed_continuation_input,
}
use codex_model_tester.Turn.Types.{InputItem}
use codex_model_tester.Turn.Request.{NormalizedRequest}
use codex_model_tester.Turn.Equality.{deep_equal_sound, deep_equal_refl}
use codex_model_tester.Conversation.Continuation.{ContinuationRecord}

-- A request that repeats the whole history of a stored response, adds at least one item to it, and
-- answers only calls of that response.
pub record Resumes (r : ContinuationRecord) (n : NormalizedRequest) (rest : List InputItem)
    : Type 0 where
  pub same_model : str_eq (trim_space r.model) (trim_space n.request.model) ≡ true
  pub same_instructions :
      str_eq (trim_space r.instructions) (trim_space n.request.instructions) ≡ true
  pub split : n.request.input ≡ r.input_history ++ rest
  pub old : 0 < length r.input_history
  pub new : 0 < length rest
  pub allowed : all_allowed (allowed_call_ids r.function_call_ids) rest ≡ true

is_continued-split :
    (input history : List InputItem)
    → is_continued input history ≡ true
    → input ≡ history ++ drop (length history) input
unfolding is_continued
is_continued-split input [] h = refl
is_continued-split [] (x ∷ history) h = cc
is_continued-split (i ∷ input) (x ∷ history) h =
    ground (arith, deep_equal_sound i x, is_continued-split input history)

is_continued-append :
    (history rest : List InputItem) → is_continued (history ++ rest) history ≡ true
unfolding is_continued
is_continued-append [] rest = refl
is_continued-append (x ∷ history) rest = rw (deep_equal_refl x) (is_continued-append history rest)

drop-append : (history rest : List InputItem) → drop (length history) (history ++ rest) ≡ rest
drop-append [] rest = refl
drop-append (x ∷ history) rest = drop-append history rest

-- What the trimmed input is, where there is one.
pub trimmed-split :
    (input rest : List InputItem) (r : ContinuationRecord)
    → trimmed_continuation_input input r ≡ some rest
    → (input ≡ r.input_history ++ rest)
      × (0 < length r.input_history)
      × (0 < length rest)
      × (all_allowed (allowed_call_ids r.function_call_ids) rest ≡ true)
unfolding trimmed_continuation_input
trimmed-split input rest r h =
    ground
      (arith, is_continued-split input r.input_history, length-drop (length r.input_history) input)

-- A request that repeats the history of a response and adds items that it allows is trimmed to those
-- items.
pub trimmed-append :
    (rest : List InputItem) (r : ContinuationRecord)
    → 0 < length r.input_history
    → 0 < length rest
    → all_allowed (allowed_call_ids r.function_call_ids) rest ≡ true
    → trimmed_continuation_input (r.input_history ++ rest) r ≡ some rest
unfolding trimmed_continuation_input
trimmed-append rest r o n a = ground (
  arith,
  is_continued-append r.input_history rest,
  drop-append r.input_history rest,
  length-append {0} r.input_history rest,
)

can_resume-same :
    (r : ContinuationRecord) (n : NormalizedRequest)
    → can_implicitly_resume r n ≡ true
    → (str_eq (trim_space r.model) (trim_space n.request.model) ≡ true)
      × (str_eq (trim_space r.instructions) (trim_space n.request.instructions) ≡ true)
unfolding can_implicitly_resume
can_resume-same r n h = ground arith

with_stored-some :
    (r q : ContinuationRecord) (rest : List InputItem) (found : Option (List InputItem))
    → with_stored q found ≡ some (r, rest)
    → (q ≡ r) × (found ≡ some rest)
with_stored-some r q rest none h = cc
with_stored-some r q rest (some t) h = ground (arith, h)

if-some :
    {A : Type 0} (b : Bool) (x : Option A) (a : A)
    → (if b then x else none) ≡ some a
    → (b ≡ true) × (x ≡ some a)
if-some true x a h = (refl, h)
if-some false x a h = cc

resumable-Resumes :
    (n : NormalizedRequest) (q r : ContinuationRecord) (rest : List InputItem)
    → resumable n q ≡ some (r, rest)
    → (q ≡ r) × Resumes q n rest
unfolding resumable
resumable-Resumes n q r rest h =
    let (can, found) =
      if-some (can_implicitly_resume q n)
        (with_stored q (trimmed_continuation_input n.request.input q)) (r, rest) h in
    let (same, trimmed) =
      with_stored-some r q rest (trimmed_continuation_input n.request.input q) found in
    let (split, old, new, allowed) = trimmed-split n.request.input rest q trimmed in
    let (model, instructions) = can_resume-same q n can in
    (
      same,
      record {
        same_model = model;
        same_instructions = instructions;
        split = split;
        old = old;
        new = new;
        allowed = allowed;
      },
    )

-- A record that is found stands in the list, and the request resumes it.
pub first_resumable-Resumes :
    (n : NormalizedRequest) (rs : List ContinuationRecord) (r : ContinuationRecord)
    (rest : List InputItem)
    → first_resumable n rs ≡ some (r, rest)
    → In r rs × Resumes r n rest
unfolding first_resumable
first_resumable-Resumes n [] r rest h = cc
first_resumable-Resumes n (q ∷ rs) r rest h = elim (Option-cases (resumable n q)) [
  | inl e ↦
      let (there, resumes) = first_resumable-Resumes n rs r rest (rw e at h) in (inr there, resumes)
  | inr ((p, t), e) ↦
      let found : resumable n q ≡ some (r, rest) = e ∙ (rw e at h) in
      let (same, resumes) = resumable-Resumes n q r rest found in
      (inl same, subst (λ x. Resumes x n rest) same resumes)
]
