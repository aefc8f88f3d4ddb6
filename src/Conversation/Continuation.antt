-- ===== src/Conversation/Continuation.antt =====
-- internal/conversation/continuation.go: a map of continuations that expire. Readings of the clock
-- are arguments.
pub mod Expiry
pub mod Listing
use codex_model_tester.Base.{
  ℕ, ◌+◌, Bool, true, false, not, Option, none, some, List, [], ◌∷◌, map, if◌then◌else◌, Str, Dict,
  keep, str_eq, is_empty, trim_space, lookup, insert, erase, keep_values,
}
use codex_model_tester.Accounts.Types.{Time, after}
use codex_model_tester.Accounts.Rotation.{Sign, or_sign, time_compare, str_compare, sort_func}
use codex_model_tester.Turn.Types.{InputItem}

pub record ContinuationRecord : Type 0 where
  pub response_id : Str
  pub account_id : Str
  pub conversation_key : Str
  pub turn_state : Str
  pub instructions : Str
  pub model : Str
  pub input_history : List InputItem
  pub function_call_ids : List Str
  pub tool_name_aliases : Dict Str
  pub created_at : Time
  pub expires_at : Time

-- `ttl` is in nanoseconds.
pub record ContinuationManager : Type 0 where
  pub ttl : ℕ
  pub records : Dict ContinuationRecord

unfoldable pub new_continuation_manager : ℕ → ContinuationManager
new_continuation_manager ttl = record { ttl = ttl; records = [] }

-- `Put` reads the clock twice.
unfoldable pub put : Time → Time → ContinuationRecord → ContinuationManager → ContinuationManager
put created now r m = record m {
  records =
      insert r.response_id (record r { created_at = created; expires_at = now + m.ttl }) m.records;
}

-- `time.Now().After(record.ExpiresAt)`
abbrev pub is_expired : Time → ContinuationRecord → Bool
is_expired now r = after now r.expires_at

-- The first critical section of `Get`, under the read lock.
unfoldable pub read : Str → ContinuationManager → Option ContinuationRecord
read response_id m = lookup response_id m.records

-- The second one, under the write lock.
unfoldable pub evict : Str → ContinuationManager → ContinuationManager
evict response_id m = record m { records = erase response_id m.records }

-- What `Get` does with what it read: the manager at that time, and the result.
unfoldable pub finish_get :
    Time
    → Str
    → Option ContinuationRecord
    → ContinuationManager
    → ContinuationManager × Option ContinuationRecord
unfolding evict
finish_get now response_id none m = (m, none)
finish_get now response_id (some r) m =
    if is_expired now r then (evict response_id m, none) else (m, some r)

-- `Get` with no other call between its two sections.
unfoldable pub get :
    Time → Str → ContinuationManager → ContinuationManager × Option ContinuationRecord
unfolding read finish_get
get now response_id m = finish_get now response_id (read response_id m) m

unfoldable pub sweep : Time → ContinuationManager → ContinuationManager
sweep now m = record m { records = keep_values (λ r. not (is_expired now r)) m.records }

-- Newest first, then by response ID.
abbrev pub by_age : ContinuationRecord → ContinuationRecord → Sign
by_age a b =
    or_sign (time_compare b.created_at a.created_at) (str_compare a.response_id b.response_id)

unfoldable pub list_all : Time → ContinuationManager → ContinuationManager × List ContinuationRecord
unfolding sweep
list_all now m = let m' = sweep now m in (m', sort_func by_age (map (λ e. e.1) m'.records))

abbrev has_key : Str → ContinuationRecord → Bool
has_key key r = str_eq (trim_space r.conversation_key) key

unfoldable pub list_by_trimmed :
    Time → Str → ContinuationManager → ContinuationManager × List ContinuationRecord
unfolding list_all
list_by_trimmed now [] m = (m, [])
list_by_trimmed now (b ∷ key) m =
    let (m', records) = list_all now m in (m', keep (has_key (b ∷ key)) records)

unfoldable pub list_by_conversation :
    Time → Str → ContinuationManager → ContinuationManager × List ContinuationRecord
unfolding list_by_trimmed
list_by_conversation now key m = list_by_trimmed now (trim_space key) m
