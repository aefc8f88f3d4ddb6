-- ===== src/Server/Session/Tests.antt =====
-- Requests of internal/server/session.go that continue a response, at concrete data.
use codex_model_tester.Turn.Equality.{deep_equal}
use codex_model_tester.Accounts.Rotation.{sort_func}
use codex_model_tester.Conversation.Continuation.{put as store}
use codex_model_tester.Base.{
  All, List, Str, [], true, arith, bytes, inl, inr, none, refl, some, ℕ, ◌++◌, ◌∷◌, ◌≡◌, lookup,
  trim_space, keep_values, str_eq,
}
use codex_model_tester.Server.Session.{
  SessionResolution, set_previous, resume_from, keyed_resolution, resolve_session,
}
use codex_model_tester.Server.Opening.{once, with_failover, http_stream, fallback, open_stream}
use codex_model_tester.Server.Opening.Unlinked.{IsTied, open_stream-resolve_session}
use codex_model_tester.Server.Resumption.{trimmed_continuation_input}
use codex_model_tester.Server.Session.Stored.{Continues}
use codex_model_tester.Server.Session.Resolve.{resolve_session-Continues}
use codex_model_tester.Server.Session.Explicit.{Replays, put-resolve_session}
use codex_model_tester.Server.Session.History.{continuation_input_history, continuation_of}
use codex_model_tester.Server.Session.History.Remembered.{trimmed-continuation_of}
use codex_model_tester.Turn.Samples.{question, reply, follow_up, normalized_of, tool_call, called}
use codex_model_tester.Turn.Types.{InputItem}
use codex_model_tester.Turn.Request.{NormalizedRequest, message_item}
use codex_model_tester.Conversation.Continuation.{ContinuationRecord, ContinuationManager}

-- A short text in place of the sum, and no reminders.
abbrev sum : Str → List ℕ
sum s = s

abbrev keep_text : Str → Str
keep_text s = s

abbrev stored : ContinuationRecord
stored = record {
  response_id = bytes "resp";
  account_id = bytes "a";
  conversation_key = bytes "talk";
  turn_state = [];
  instructions = [];
  model = bytes "m";
  input_history = question ∷ reply ∷ [];
  function_call_ids = [];
  tool_name_aliases = [];
  created_at = 10;
  expires_at = 110;
}

abbrev manager : ContinuationManager
manager = record { ttl = 100; records = (bytes "resp", stored) ∷ [] }

abbrev asked : NormalizedRequest
asked = normalized_of (question ∷ reply ∷ follow_up ∷ [])

abbrev resumed : SessionResolution
resumed = resume_from stored (follow_up ∷ []) (keyed_resolution sum keep_text asked)

resolve_session-Continues_example : Continues manager asked resumed
unfolding lookup resolve_session trim_space sort_func keep_values str_eq deep_equal
    native.Mathlib.Decide.ℕ_discrete
resolve_session-Continues_example =
    resolve_session-Continues sum keep_text 50 50 asked manager resumed (refl, tt) refl refl

-- A request that names the response.
abbrev naming : NormalizedRequest
naming = set_previous (bytes "resp") (normalized_of (follow_up ∷ []))

put-resolve_session_example :
    (s : SessionResolution) × ((resolve_session sum keep_text 50 50 naming
        (store 10 10 stored manager)).1
      ≡ some s)
    × Replays stored naming s
put-resolve_session_example =
    put-resolve_session sum keep_text 10 10 50 50 stored naming manager (omega arith) refl refl
      (omega arith)

-- The answer to the call of a turn.
abbrev answered : InputItem
answered = record (message_item [] []) {
  type = bytes "function_call_output";
  call_id = bytes "c";
  content = none;
}

trimmed-continuation_of_example :
    trimmed_continuation_input
      (continuation_input_history called ++ answered ∷ [])
      (continuation_of sum keep_text (bytes "a") [] called)
    ≡ some (answered ∷ [])
unfolding continuation_input_history trim_space
trimmed-continuation_of_example =
    trimmed-continuation_of sum keep_text (bytes "a") [] called (answered ∷ []) (omega arith)
      (omega arith) (inr (tool_call, inl refl, refl, refl, refl), tt)

open_stream-resolve_session_example : All IsTied (open_stream (λ o. true) resumed)
unfolding resolve_session trim_space sort_func keep_values str_eq deep_equal
    native.Mathlib.Decide.ℕ_discrete
open_stream-resolve_session_example =
    open_stream-resolve_session sum keep_text (λ o. true) 50 50 asked manager resumed refl

-- The link does not work out: the whole conversation is sent to any account.
both_opened :
    open_stream (λ o. true) resumed
    ≡ once resumed ∷ with_failover http_stream (fallback resumed) ∷ []
unfolding open_stream keyed_resolution trim_space
both_opened = refl
