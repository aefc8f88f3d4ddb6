-- ===== src/Server/Opening/Unlinked.antt =====
-- Which openings of internal/server/public.go are tied to one account.
use codex_model_tester.Base.{
  All, Bool, Bool-cases, List, Option, Str, [], arith, false, inl, inr, is_empty, is_some, keep,
  none, not, refl, some, subst, trim_space, true, ℕ, ◌&&◌, ◌||◌, ◌∷◌, ◌≡◌, ◌⊎◌,
}
use codex_model_tester.Server.Opening.{Opening, once, with_failover, open_linked, open_stream}
use codex_model_tester.Server.Session.{
  SessionResolution, new_resolution, set_aliases, set_some_key, resume_from, first_resumable,
  excluded_ids, fall_back, resolve_implicit_resume_fallback, resume_or_fall_back, resolved,
  key_or_derived, continue_model, with_replay, continue_from, continued, keyed_resolution,
  resolve_session,
}
use codex_model_tester.Server.Resumption.{has_prior_assistant_or_tool_history}
use codex_model_tester.Turn.Types.{InputItem}
use codex_model_tester.Turn.Request.{NormalizedRequest}
use codex_model_tester.Turn.ToolNames.{contains}
use codex_model_tester.Conversation.Continuation.{
  ContinuationRecord, ContinuationManager, get, list_all, list_by_conversation,
}
use codex_model_tester.Conversation.Key.{derive}
use codex_model_tester.Accounts.Types.{Time}

-- An opening that may change the account names no earlier response, one that may not names one.
abbrev pub IsTied : Opening → Type 0
IsTied (once s) = is_empty s.request.request.previous_response_id ≡ false
IsTied (with_failover t s) = s.request.request.previous_response_id ≡ []

-- The request that a resolution can fall back on names no earlier response.
abbrev IsUnlinked : SessionResolution → Type 0
IsUnlinked s = s.original.request.previous_response_id ≡ []

-- There is such a request, or no use for one.
abbrev IsSafe : SessionResolution → Type 0
IsSafe s = IsUnlinked s ⊎ ((s.implicit_resume ≡ false) × (s.replay_available ≡ false))

is_empty_nil : (s : Str) → is_empty s ≡ true → s ≡ []
is_empty_nil [] h = refl
is_empty_nil (c ∷ s) h = cc

set_some_key-IsUnlinked :
    (key : Str) (s : SessionResolution) → IsUnlinked s → IsUnlinked (set_some_key key s)
set_some_key-IsUnlinked [] s h = h
set_some_key-IsUnlinked (c ∷ key) s h = h

fall_back-IsUnlinked :
    (found : Option (ContinuationRecord × List InputItem)) (s : SessionResolution)
    → IsUnlinked s
    → IsUnlinked (fall_back found s)
fall_back-IsUnlinked none s h = h
fall_back-IsUnlinked (some (r, trimmed)) s h =
    set_some_key-IsUnlinked (trim_space r.conversation_key) (resume_from r trimmed s) h

resolve_fallback-IsUnlinked :
    (now : Time) (excluded : List ContinuationRecord) (s : SessionResolution)
    (m : ContinuationManager)
    → IsUnlinked s
    → IsUnlinked (resolve_implicit_resume_fallback now excluded s m).1
unfolding resolve_implicit_resume_fallback
resolve_fallback-IsUnlinked now excluded s m h =
    let others =
      keep (λ r. not (contains r.response_id (excluded_ids excluded))) (list_all now m).1 in
    elim (Bool-cases (has_prior_assistant_or_tool_history s.request.request.input)) [
      | inl e ↦ rw e (fall_back-IsUnlinked (first_resumable s.request others) s h)
      | inr e ↦ rw e h
    ]

resume-IsUnlinked :
    (now : Time) (found : Option (ContinuationRecord × List InputItem))
    (records : List ContinuationRecord) (s : SessionResolution) (m : ContinuationManager)
    → IsUnlinked s
    → IsUnlinked (resume_or_fall_back now found records s m).1
resume-IsUnlinked now none records s m h = resolve_fallback-IsUnlinked now records s m h
resume-IsUnlinked now (some (r, trimmed)) records s m h = h

found-IsSafe : (t s : SessionResolution) → some t ≡ some s → IsSafe t → IsSafe s
found-IsSafe t s h safe = let same : t ≡ s = cc h in subst IsSafe same safe

module _ (sum256 : Str → List ℕ) (strip_reminder : Str → Str) where
  keyed-IsUnlinked :
      (n : NormalizedRequest)
      → n.request.previous_response_id ≡ []
      → IsUnlinked (keyed_resolution sum256 strip_reminder n)
  unfolding keyed_resolution
  keyed-IsUnlinked n h =
      elim (trim_space n.request.prompt_cache_key)
        as (λ key. IsUnlinked (elim key [
          | [] ↦ set_some_key (derive sum256 strip_reminder n.request) (new_resolution n)
          | c ∷ key ↦ record (new_resolution n) { conversation_key = c ∷ key }
        ])) [
          | [] ↦
              set_some_key-IsUnlinked (derive sum256 strip_reminder n.request) (new_resolution n) h
          | c ∷ key ↦ h
        ]

  with_replay-IsSafe :
      (history : List InputItem) (s : SessionResolution)
      → s.implicit_resume ≡ false
      → s.replay_available ≡ false
      → IsSafe (with_replay sum256 strip_reminder history s)
  with_replay-IsSafe [] s i r = inr (i, r)
  with_replay-IsSafe (h ∷ history) s i r = inl refl

  fresh :
      (key : Str) (n : NormalizedRequest)
      → ((set_some_key key (new_resolution n)).implicit_resume ≡ false)
        × ((set_some_key key (new_resolution n)).replay_available ≡ false)
  fresh [] n = (refl, refl)
  fresh (c ∷ key) n = (refl, refl)

  continue_from-IsSafe :
      (r : ContinuationRecord) (n : NormalizedRequest)
      → IsSafe (continue_from sum256 strip_reminder r n)
  unfolding continue_from
  continue_from-IsSafe r n =
      let n' = continue_model sum256 strip_reminder r n in
      let key = key_or_derived sum256 strip_reminder (trim_space r.conversation_key) n'.request in
      let keyed = set_some_key key (new_resolution n') in
      let (i, p) = fresh key n' in
      with_replay-IsSafe r.input_history
        (record keyed {
          request = set_aliases r.tool_name_aliases keyed.request;
          original = set_aliases r.tool_name_aliases keyed.original;
          preferred_account_id = r.account_id;
          turn_state = trim_space r.turn_state;
          explicit_previous = true;
        })
        i p

  continued-IsSafe :
      (n : NormalizedRequest) (found : ContinuationManager × Option ContinuationRecord)
      (s : SessionResolution)
      → (continued sum256 strip_reminder n found).1 ≡ some s
      → IsSafe s
  continued-IsSafe n (m, none) s h = cc
  continued-IsSafe n (m, some r) s h =
      found-IsSafe (continue_from sum256 strip_reminder r n) s h (continue_from-IsSafe r n)

  resolved-IsSafe :
      (x : ContinuationManager × SessionResolution) (s : SessionResolution)
      → (resolved x).1 ≡ some s
      → IsUnlinked x.1
      → IsSafe s
  resolved-IsSafe (m, t) s h u = found-IsSafe t s h (inl u)

  resolve_session-IsSafe :
      (now later : Time) (n : NormalizedRequest) (m : ContinuationManager) (s : SessionResolution)
      → (resolve_session sum256 strip_reminder now later n m).1 ≡ some s
      → IsSafe s
  unfolding resolve_session list_by_conversation
  resolve_session-IsSafe now later n m s h =
      let k = keyed_resolution sum256 strip_reminder n in
      elim (Bool-cases (is_empty n.request.previous_response_id)) [
        | inr e ↦ continued-IsSafe n (get now n.request.previous_response_id m) s (rw e at h)
        | inl e ↦
            let u = keyed-IsUnlinked n (is_empty_nil n.request.previous_response_id e) in
            elim (Bool-cases (is_empty (trim_space n.request.model))) [
              | inl f ↦ found-IsSafe (new_resolution n) s (rw (e, f) at h) (inr (refl, refl))
              | inr f ↦ elim (Bool-cases (is_empty k.conversation_key)) [
                | inl g ↦
                    resolved-IsSafe (resolve_implicit_resume_fallback later [] k m) s
                      (rw (e, f, g) at h) (resolve_fallback-IsUnlinked later [] k m u)
                | inr g ↦
                    let (m', records) = list_by_conversation now k.conversation_key m in
                    resolved-IsSafe
                      (resume_or_fall_back later (first_resumable n records) records k m') s
                      (rw (e, f, g) at h)
                      (resume-IsUnlinked later (first_resumable n records) records k m' u)
              ]
            ]
      ]

IsUnlinked-resumed : (s : SessionResolution) → IsSafe s → s.implicit_resume ≡ true → IsUnlinked s
IsUnlinked-resumed s (inl u) h = u
IsUnlinked-resumed s (inr (i, r)) h = absurd (cc (i, h))

IsUnlinked-replay : (s : SessionResolution) → IsSafe s → s.replay_available ≡ true → IsUnlinked s
IsUnlinked-replay s (inl u) h = u
IsUnlinked-replay s (inr (i, r)) h = absurd (cc (r, h))

linked-IsTied :
    (failed : Opening → Bool) (s : SessionResolution)
    → IsSafe s
    → is_empty s.request.request.previous_response_id ≡ false
    → All IsTied (open_linked failed s)
linked-IsTied failed s safe e = elim (Bool-cases (not (failed (once s)) || not s.implicit_resume)) [
  | inl f ↦ rw f (e, tt)
  | inr f ↦ rw f (e, (IsUnlinked-resumed s safe (ground arith), tt))
]

open_stream-IsTied :
    (failed : Opening → Bool) (s : SessionResolution) → IsSafe s → All IsTied (open_stream failed s)
unfolding open_stream
open_stream-IsTied failed s safe =
    elim (Bool-cases (is_empty s.request.request.previous_response_id)) [
      | inl e ↦
          let u = is_empty_nil s.request.request.previous_response_id e in
          elim (Bool-cases (is_some s.request.generate)) [
            | inl g ↦ rw (e, g) (u, tt)
            | inr g ↦ rw (e, g) (u, tt)
          ]
      | inr e ↦ elim (Bool-cases (s.explicit_previous && s.replay_available)) [
        | inl r ↦ rw (e, r) (IsUnlinked-replay s safe (ground arith), tt)
        | inr r ↦ rw (e, r) (linked-IsTied failed s safe e)
      ]
    ]

-- Whichever openings fail, of the streams that are opened for a resolved session, one that may
-- be moved to another account sends no link to an earlier response, and one that sends a link
-- is opened once, without a change of account.
pub open_stream-resolve_session :
    (sum256 : Str → List ℕ) (strip_reminder : Str → Str) (failed : Opening → Bool)
    (now later : Time) (n : NormalizedRequest) (m : ContinuationManager) (s : SessionResolution)
    → (resolve_session sum256 strip_reminder now later n m).1 ≡ some s
    → All IsTied (open_stream failed s)
open_stream-resolve_session sum256 strip_reminder failed now later n m s h =
    open_stream-IsTied failed s (resolve_session-IsSafe sum256 strip_reminder now later n m s h)
