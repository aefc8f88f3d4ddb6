-- ===== src/Conversation/Continuation/Expiry.antt =====
-- What the continuation manager of internal/conversation/continuation.go keeps and forgets.
use codex_model_tester.Base.{
  ◌+◌, ◌≤◌, ◌≡◌, true, not, none, some, arith, Str, str_eq_refl, lookup, lookup-insert,
  lookup-erase, lookup-keep_values, filter_option, IsMap,
}
use codex_model_tester.Accounts.Types.{Time}
use codex_model_tester.Conversation.Continuation.{
  ContinuationRecord, ContinuationManager, put, is_expired, evict, finish_get, get, sweep,
}

-- A stored continuation is found, with its times stamped, until its time to live is over.
pub put-get :
    (created stored now : Time) (r : ContinuationRecord) (m : ContinuationManager)
    → now ≤ stored + m.ttl
    → (get now r.response_id (put created stored r m)).1
      ≡ some (record r { created_at = created; expires_at = stored + m.ttl })
unfolding get put
put-get created stored now r m h = ground (
  arith,
  lookup-insert r.response_id r.response_id
      (record r { created_at = created; expires_at = stored + m.ttl }) m.records,
  str_eq_refl r.response_id,
)

-- The entries a sweep leaves are those that have not expired at its time.
pub lookup-sweep :
    (now : Time) (id : Str) (m : ContinuationManager)
    → IsMap m.records
    → lookup id (sweep now m).records
      ≡ filter_option (λ r. not (is_expired now r)) (lookup id m.records)
unfolding sweep
lookup-sweep now id m h = lookup-keep_values (λ r. not (is_expired now r)) id m.records h

-- When `Get` reads a continuation that has expired, and a `Put` under the same ID comes before
-- its second critical section, then the new continuation is deleted: no `Get` afterwards finds
-- it, although its time need not be over.
pub get-put_race :
    (now created stored later : Time) (r old : ContinuationRecord) (m : ContinuationManager)
    → is_expired now old ≡ true
    → (get later r.response_id
        (finish_get now r.response_id (some old) (put created stored r m)).0).1
      ≡ none
unfolding finish_get get put evict
get-put_race now created stored later r old m h = ground (
  arith,
  lookup-erase r.response_id r.response_id (put created stored r m).records,
  str_eq_refl r.response_id,
)
