-- ===== src/Server/Session/Resolve.antt =====
-- What resolveSession of internal/server/session.go promises about the requests it rewrites.
use codex_model_tester.Base.{
  Bool, Bool-cases, In, In-keep, IsMap, List, Option, Option-cases, Str, [], ap, arith, false, inl,
  inr, is_empty, keep, map, none, not, refl, some, subst, trim_space, true, ℕ, ◌∙◌, ◌∷◌, ◌≡◌,
}
use codex_model_tester.Server.Session.{
  SessionResolution, new_resolution, set_aliases, set_some_key, resume_from, first_resumable,
  excluded_ids, fall_back, resolve_implicit_resume_fallback, resume_or_fall_back, resolved,
  key_or_derived, continue_model, with_replay, continue_from, continued, keyed_resolution,
  resume_conversation, resolve_session,
}
use codex_model_tester.Server.Resumption.{has_prior_assistant_or_tool_history}
use codex_model_tester.Server.Session.Resume.{first_resumable-Resumes}
use codex_model_tester.Turn.Types.{InputItem}
use codex_model_tester.Turn.Request.{NormalizedRequest}
use codex_model_tester.Turn.ToolNames.{contains}
use codex_model_tester.Conversation.Continuation.{
  ContinuationRecord, ContinuationManager, get, list_all, list_by_trimmed, list_by_conversation,
}
use codex_model_tester.Accounts.Types.{Time}
use codex_model_tester.Server.Session.Stored.{
  Continues, Stored, list_all-Stored, by_trimmed-Stored, by_trimmed-rest, Resumes-same, SameRequest,
  set_some_key-same, keyed-same, resume_from-Continues, set_some_key-Continues,
}

-- A search over stored records.
found-Continues :
    (m : ContinuationManager) (n : NormalizedRequest) (s : SessionResolution)
    (rs : List ContinuationRecord) (r : ContinuationRecord) (rest : List InputItem)
    → SameRequest s n
    → ((q : ContinuationRecord) → In q rs → Stored m q)
    → first_resumable s.request rs ≡ some (r, rest)
    → Continues m n (resume_from r rest s)
found-Continues m n s rs r rest same stored e =
    let (there, resumes) = first_resumable-Resumes s.request rs r rest e in
    resume_from-Continues m n s r rest (stored r there)
      (Resumes-same r n s.request rest same.model same.instructions same.input resumes)

fall_back-Continues :
    (m : ContinuationManager) (n : NormalizedRequest) (s : SessionResolution)
    (rs : List ContinuationRecord) (found : Option (ContinuationRecord × List InputItem))
    → SameRequest s n
    → ((q : ContinuationRecord) → In q rs → Stored m q)
    → first_resumable s.request rs ≡ found
    → (fall_back found s).implicit_resume ≡ true
    → Continues m n (fall_back found s)
fall_back-Continues m n s rs none same stored e h = absurd (cc (h, same.fresh))
fall_back-Continues m n s rs (some (r, rest)) same stored e h =
    set_some_key-Continues m n (trim_space r.conversation_key) (resume_from r rest s)
      (found-Continues m n s rs r rest same stored e)

fallback-Continues :
    (now : Time) (excluded : List ContinuationRecord) (m : ContinuationManager)
    (n : NormalizedRequest) (s : SessionResolution)
    → SameRequest s n
    → IsMap m.records
    → (resolve_implicit_resume_fallback now excluded s m).1.implicit_resume ≡ true
    → Continues m n (resolve_implicit_resume_fallback now excluded s m).1
unfolding resolve_implicit_resume_fallback
fallback-Continues now excluded m n s same map h =
    let p : ContinuationRecord → Bool = λ r. not (contains r.response_id (excluded_ids excluded)) in
    let records = (list_all now m).1 in
    elim (Bool-cases (has_prior_assistant_or_tool_history s.request.request.input)) [
      | inr e ↦ absurd (cc (rw e at h, same.fresh))
      | inl e ↦ rw e (
          fall_back-Continues m n s (keep p records) (first_resumable s.request (keep p records))
            same (λ q i. list_all-Stored now q m map (In-keep p q records i).0) refl (rw e at h))
    ]

Continues-in :
    (m m' : ContinuationManager) (n : NormalizedRequest) (s : SessionResolution)
    → ((r : ContinuationRecord) → Stored m' r → Stored m r)
    → Continues m' n s
    → Continues m n s
Continues-in m m' n s sub h =
    let (id, found) = sub h.stored (h.id, h.found) in
    record {
      stored = h.stored;
      id = id;
      found = found;
      resumes = h.resumes;
      previous = h.previous;
      account = h.account;
      model = h.model;
    }

conversation-Continues :
    (now later : Time) (n : NormalizedRequest) (s : SessionResolution) (m : ContinuationManager)
    → SameRequest s n
    → IsMap m.records
    → (resume_or_fall_back later
        (first_resumable n (list_by_conversation now s.conversation_key m).1)
        (list_by_conversation now s.conversation_key m).1
        s
        (list_by_conversation now s.conversation_key m).0).1.implicit_resume
      ≡ true
    → Continues m n
        (resume_or_fall_back later
          (first_resumable n (list_by_conversation now s.conversation_key m).1)
          (list_by_conversation now s.conversation_key m).1
          s
          (list_by_conversation now s.conversation_key m).0).1
unfolding list_by_conversation
conversation-Continues now later n s m same map h =
    let key = trim_space s.conversation_key in
    let (m', records) = list_by_trimmed now key m in
    let (map', sub) = by_trimmed-rest now key m map in
    elim (Option-cases (first_resumable n records)) [
      | inl e ↦ rw e (
          Continues-in m m' n (resolve_implicit_resume_fallback later records s m').1 sub
            (fallback-Continues later records m' n s same map' (rw e at h)))
      | inr ((r, rest), e) ↦
          let (there, resumes) = first_resumable-Resumes n records r rest e in
          rw e
            (resume_from-Continues m n s r rest (by_trimmed-Stored now key r m map there) resumes)
    ]

with_replay-fresh :
    (sum256 : Str → List ℕ) (strip_reminder : Str → Str) (history : List InputItem)
    (s : SessionResolution)
    → (with_replay sum256 strip_reminder history s).implicit_resume ≡ s.implicit_resume
with_replay-fresh sum256 strip_reminder [] s = refl
with_replay-fresh sum256 strip_reminder (h ∷ history) s = refl

continue_from-fresh :
    (sum256 : Str → List ℕ) (strip_reminder : Str → Str) (r : ContinuationRecord)
    (n : NormalizedRequest)
    → (continue_from sum256 strip_reminder r n).implicit_resume ≡ false
unfolding continue_from
continue_from-fresh sum256 strip_reminder r n =
    let n' = continue_model sum256 strip_reminder r n in
    let key = key_or_derived sum256 strip_reminder (trim_space r.conversation_key) n'.request in
    let keyed = set_some_key key (new_resolution n') in
    let same = set_some_key-same key n' in
    with_replay-fresh sum256 strip_reminder r.input_history record keyed {
      request = set_aliases r.tool_name_aliases keyed.request;
      original = set_aliases r.tool_name_aliases keyed.original;
      preferred_account_id = r.account_id;
      turn_state = trim_space r.turn_state;
      explicit_previous = true;
    }
    ∙ same.fresh

continued-fresh :
    (sum256 : Str → List ℕ) (strip_reminder : Str → Str) (n : NormalizedRequest)
    (found : ContinuationManager × Option ContinuationRecord) (s : SessionResolution)
    → (continued sum256 strip_reminder n found).1 ≡ some s
    → s.implicit_resume ≡ false
continued-fresh sum256 strip_reminder n (m, none) s h = cc
continued-fresh sum256 strip_reminder n (m, some r) s h =
    ground (arith, continue_from-fresh sum256 strip_reminder r n)

resolved-some :
    (x : ContinuationManager × SessionResolution) (s : SessionResolution)
    → (resolved x).1 ≡ some s
    → x.1 ≡ s
resolved-some (m, t) s h = ground arith

resolved-Continues :
    (m : ContinuationManager) (n : NormalizedRequest) (x : ContinuationManager × SessionResolution)
    (s : SessionResolution)
    → (resolved x).1 ≡ some s
    → s.implicit_resume ≡ true
    → (x.1.implicit_resume ≡ true → Continues m n x.1)
    → Continues m n s
resolved-Continues m n x s h resumed c =
    let same = resolved-some x s h in
    subst (Continues m n) same (c (ap (λ t. t.implicit_resume) same ∙ resumed))

new-not_resumed :
    (n : NormalizedRequest) (s : SessionResolution)
    → some (new_resolution n) ≡ some s
    → s.implicit_resume ≡ false
new-not_resumed n s h = ground arith

-- Where the stored continuations are a map, a session that is resolved by an implicit resume
-- goes on from a continuation stored under some ID: the request has its model and instructions,
-- but for space around them, repeats its whole history, which is not empty, adds at least one
-- item, and each tool output that it adds names a call of that response; the resolution takes
-- the continuation's response ID, account and model, and only the added items are sent.
pub resolve_session-Continues :
    (sum256 : Str → List ℕ) (strip_reminder : Str → Str) (now later : Time) (n : NormalizedRequest)
    (m : ContinuationManager) (s : SessionResolution)
    → IsMap m.records
    → (resolve_session sum256 strip_reminder now later n m).1 ≡ some s
    → s.implicit_resume ≡ true
    → Continues m n s
unfolding resolve_session
resolve_session-Continues sum256 strip_reminder now later n m s map h resumed =
    let k = keyed_resolution sum256 strip_reminder n in
    let same = keyed-same sum256 strip_reminder n in
    elim (Bool-cases (is_empty n.request.previous_response_id)) [
      | inr e ↦ absurd (
          cc (
            continued-fresh sum256 strip_reminder n (get now n.request.previous_response_id m) s
                (rw e at h),
            resumed,
          ))
      | inl e ↦ elim (Bool-cases (is_empty (trim_space n.request.model))) [
        | inl f ↦ absurd (cc (new-not_resumed n s (rw (e, f) at h), resumed))
        | inr f ↦ elim (Bool-cases (is_empty k.conversation_key)) [
          | inl g ↦
              resolved-Continues m n (resolve_implicit_resume_fallback later [] k m) s
                (rw (e, f, g) at h) resumed (fallback-Continues later [] m n k same map)
          | inr g ↦
              resolved-Continues m n (resume_conversation sum256 strip_reminder now later n k m) s
                (rw (e, f, g) at h) resumed (conversation-Continues now later n k m same map)
        ]
      ]
    ]
