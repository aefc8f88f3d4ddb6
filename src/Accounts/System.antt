-- ===== src/Accounts/System.antt =====
-- internal/accounts/service.go as a state machine: any call of the service's methods, and histories.
pub mod Sound
pub mod Calls
use codex_model_tester.Base.{Option, none, some, List, [], ◌∷◌, Str, Bool}
use codex_model_tester.Accounts.Types.{
  Time, Record, QuotaSnapshot, RotationStrategy, Status, OauthToken,
}
use codex_model_tester.Accounts.Store.{Error, Result, ok, err, Env, Service, Done, Outcome}
use codex_model_tester.Accounts.Service.{
  list, get, eligible_now, upsert_from_token, remove, note_success, set_rotation_strategy,
}
use codex_model_tester.Accounts.Edit.{
  patch, observe_quota, update_auth, mark_error, set_cooldown, discard,
}
use codex_model_tester.Accounts.Acquire.{acquire_matching}

pub data Call : Type 0 where
  lists : Call
  gets asks_eligible removes notes_success : Str → Call
  upserts : Str → OauthToken → Call
  patches : Str → Option Str → Option Status → Call
  observes : Str → Option QuotaSnapshot → Call
  updates_auth : Str → Str → OauthToken → Call
  marks_error : Str → Status → Str → Call
  sets_cooldown : Str → Option Time → Str → Call
  acquires : Str → Option (Record → Bool) → Call
  sets_strategy : RotationStrategy → Call

-- The new state, and whether the call failed.
unfoldable pub step : Env → Call → Service → Outcome Done
step env lists s = discard (list env s)
step env (gets id) s = discard (get env id s)
step env (asks_eligible id) s = discard (eligible_now env id s)
step env (upserts account_id token) s = discard (upsert_from_token env account_id token s)
step env (removes id) s = remove env id s
step env (notes_success id) s = (note_success id s, ok tt)
step env (patches id label status) s = discard (patch env id label status s)
step env (observes id quota) s = observe_quota env id quota s
step env (updates_auth id account_id token) s = update_auth env id account_id token s
step env (marks_error id status message) s = mark_error env id status message s
step env (sets_cooldown id until message) s = set_cooldown env id until message s
step env (acquires preferred_id allow) s = discard (acquire_matching env preferred_id allow s)
step env (sets_strategy strategy) s = set_rotation_strategy env strategy s

-- A history: each call with the environment that it meets.
unfoldable pub run : List (Env × Call) → Service → Service
run [] s = s
run ((env, call) ∷ calls) s = run calls (step env call s).0
