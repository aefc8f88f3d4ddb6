-- ===== src/Conversation/Tests.antt =====
-- Continuations of internal/conversation/continuation.go at concrete data.
use codex_model_tester.Base.{◌++◌, ◌≡◌, refl, some, none, [], ◌∷◌, bytes, str_eq}
use codex_model_tester.Accounts.Types.{Time}
use codex_model_tester.Conversation.Continuation.{
  ContinuationRecord, ContinuationManager, put, finish_get, get,
}
use codex_model_tester.Turn.Samples.{question, reply, follow_up, request_of}
use codex_model_tester.Conversation.Key.{derive, prefix_to_model}
use codex_model_tester.Conversation.Key.Stable.{with_items, derive-append}
use codex_model_tester.Conversation.Continuation.Expiry.{get-put_race}

abbrev answer : Time → ContinuationRecord
answer expires_at = record {
  response_id = bytes "resp";
  account_id = bytes "a";
  conversation_key = bytes "talk";
  turn_state = [];
  instructions = [];
  model = [];
  input_history = [];
  function_call_ids = [];
  tool_name_aliases = [];
  created_at = 10;
  expires_at = expires_at;
}

abbrev manager : ContinuationManager
manager = record { ttl = 100; records = (bytes "resp", answer 110) ∷ [] }

get-put_race_example :
    (get 210
      (bytes "resp")
      (finish_get 200 (bytes "resp") (some (answer 110)) (put 201 201 (answer 0) manager)).0).1
    ≡ none
get-put_race_example = get-put_race 200 201 201 210 (answer 0) (answer 110) manager refl

-- A conversation with one reply, and what the user says after it.
derive-append_example :
    derive
      (λ s. s)
      (λ s. s)
      (with_items ((question ∷ reply ∷ []) ++ follow_up ∷ []) (request_of []))
    ≡ derive (λ s. s) (λ s. s) (with_items (question ∷ reply ∷ []) (request_of []))
unfolding str_eq prefix_to_model
derive-append_example =
    derive-append (λ s. s) (λ s. s) (request_of []) (question ∷ reply ∷ []) (follow_up ∷ [])
      (question ∷ reply ∷ []) (refl, tt) refl
