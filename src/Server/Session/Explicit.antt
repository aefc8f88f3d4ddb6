-- ===== src/Server/Session/Explicit.antt =====
-- A request that names the response it continues, in resolveSession of internal/server/session.go.
use codex_model_tester.Conversation.Continuation.{put as store}
use codex_model_tester.Base.{
  List, Option, Str, [], ap, arith, false, is_empty, length, none, refl, some, trim_space, true, ℕ,
  ◌++◌, ◌+◌, ◌<◌, ◌∷◌, ◌≡◌, ◌≤◌,
}
use codex_model_tester.Conversation.Continuation.{ContinuationRecord, ContinuationManager, get}
use codex_model_tester.Server.Session.{
  SessionResolution, new_resolution, set_aliases, set_some_key, key_or_derived, continue_model,
  with_replay, continue_from, continued, resolve_session,
}
use codex_model_tester.Turn.Types.{InputItem}
use codex_model_tester.Turn.Request.{NormalizedRequest}
use codex_model_tester.Conversation.Continuation.Expiry.{put-get}
use codex_model_tester.Accounts.Types.{Time}

-- What a resolution takes from a stored response that the request names.
pub record Replays (r : ContinuationRecord) (n : NormalizedRequest) (s : SessionResolution)
    : Type 0 where
  pub history : s.original.request.input ≡ r.input_history ++ n.request.input
  pub unlinked : s.original.request.previous_response_id ≡ []
  pub sent : s.request.request.input ≡ n.request.input
  pub linked : s.request.request.previous_response_id ≡ n.request.previous_response_id
  pub account : s.preferred_account_id ≡ r.account_id
  pub replay : s.replay_available ≡ true

-- The input and the linked response of both requests are still those of the request.
abbrev Untouched : NormalizedRequest → SessionResolution → Type 0
Untouched n s =
    (s.original.request.input ≡ n.request.input)
    × (s.request.request.input ≡ n.request.input)
    × (s.request.request.previous_response_id ≡ n.request.previous_response_id)

keyed-Untouched :
    (key : Str) (n p : NormalizedRequest)
    → p.request.input ≡ n.request.input
    → p.request.previous_response_id ≡ n.request.previous_response_id
    → Untouched n (set_some_key key (new_resolution p))
keyed-Untouched [] n p i r = (i, i, r)
keyed-Untouched (c ∷ key) n p i r = (i, i, r)

model-same :
    (sum256 : Str → List ℕ) (strip_reminder : Str → Str) (r : ContinuationRecord)
    (n : NormalizedRequest)
    → ((continue_model sum256 strip_reminder r n).request.input ≡ n.request.input)
      × ((continue_model sum256 strip_reminder r n).request.previous_response_id
          ≡ n.request.previous_response_id)
unfolding continue_model
model-same sum256 strip_reminder r n = ground arith

with_replay-Replays :
    (sum256 : Str → List ℕ) (strip_reminder : Str → Str) (history : List InputItem)
    (r : ContinuationRecord) (n : NormalizedRequest) (s : SessionResolution)
    → r.input_history ≡ history
    → 0 < length history
    → Untouched n s
    → s.preferred_account_id ≡ r.account_id
    → Replays r n (with_replay sum256 strip_reminder history s)
with_replay-Replays sum256 strip_reminder [] r n s e l u a = absurd (omega arith)
with_replay-Replays sum256 strip_reminder (h ∷ history) r n s e l (o, i, p) a = record {
  history = rw (e, o) refl;
  unlinked = refl;
  sent = i;
  linked = p;
  account = a;
  replay = refl;
}

pub continue_from-Replays :
    (sum256 : Str → List ℕ) (strip_reminder : Str → Str) (r : ContinuationRecord)
    (n : NormalizedRequest)
    → 0 < length r.input_history
    → Replays r n (continue_from sum256 strip_reminder r n)
unfolding continue_from
continue_from-Replays sum256 strip_reminder r n l =
    let n' = continue_model sum256 strip_reminder r n in
    let (i, p) = model-same sum256 strip_reminder r n in
    let key = key_or_derived sum256 strip_reminder (trim_space r.conversation_key) n'.request in
    let keyed = set_some_key key (new_resolution n') in
    with_replay-Replays sum256 strip_reminder r.input_history r n
      (record keyed {
        request = set_aliases r.tool_name_aliases keyed.request;
        original = set_aliases r.tool_name_aliases keyed.original;
        preferred_account_id = r.account_id;
        turn_state = trim_space r.turn_state;
        explicit_previous = true;
      })
      refl l (keyed-Untouched key n n' i p) refl

abbrev stamped : Time → Time → ContinuationManager → ContinuationRecord → ContinuationRecord
stamped created stored m r = record r { created_at = created; expires_at = stored + m.ttl }

continued-found :
    (sum256 : Str → List ℕ) (strip_reminder : Str → Str) (n : NormalizedRequest)
    (found : ContinuationManager × Option ContinuationRecord) (r : ContinuationRecord)
    → found.1 ≡ some r
    → (continued sum256 strip_reminder n found).1 ≡ some (continue_from sum256 strip_reminder r n)
continued-found sum256 strip_reminder n (m, none) r h = cc
continued-found sum256 strip_reminder n (m, some q) r h =
    ap (λ o. (continued sum256 strip_reminder n (m, o)).1) h

named :
    (sum256 : Str → List ℕ) (strip_reminder : Str → Str) (now later : Time) (n : NormalizedRequest)
    (m : ContinuationManager) (r : ContinuationRecord)
    → is_empty n.request.previous_response_id ≡ false
    → (get now n.request.previous_response_id m).1 ≡ some r
    → (resolve_session sum256 strip_reminder now later n m).1
      ≡ some (continue_from sum256 strip_reminder r n)
unfolding resolve_session
named sum256 strip_reminder now later n m r e f =
    rw e (continued-found sum256 strip_reminder n (get now n.request.previous_response_id m) r f)

-- Until its time to live is over, a stored continuation whose history is not empty is found by
-- a request that names its response ID, which is not empty: the request goes on with that
-- response's account and its own input, and the whole conversation, the stored history and then
-- the input, is ready to be sent without the link.
pub put-resolve_session :
    (sum256 : Str → List ℕ) (strip_reminder : Str → Str) (created stored now later : Time)
    (r : ContinuationRecord) (n : NormalizedRequest) (m : ContinuationManager)
    → now ≤ stored + m.ttl
    → is_empty r.response_id ≡ false
    → n.request.previous_response_id ≡ r.response_id
    → 0 < length r.input_history
    → (s : SessionResolution) × ((resolve_session sum256 strip_reminder now later n
          (store created stored r m)).1
        ≡ some s)
      × Replays r n s
put-resolve_session sum256 strip_reminder created stored now later r n m t e id l =
    let q = stamped created stored m r in
    let m' = store created stored r m in
    let found : (get now n.request.previous_response_id m').1 ≡ some q =
      rw id (put-get created stored now r m t) in
    let h = continue_from-Replays sum256 strip_reminder q n l in
    (
      continue_from sum256 strip_reminder q n,
      named sum256 strip_reminder now later n m' q (rw id e) found,
      record {
        history = h.history;
        unlinked = h.unlinked;
        sent = h.sent;
        linked = h.linked;
        account = h.account;
        replay = h.replay;
      },
    )
