-- ===== src/AccountManager/Failed.antt =====
-- What a refused refresh of internal/accountmanager/manager.go means for later acquisitions.
use codex_model_tester.Base.{Bool, List, Option, Str, false, refl, some, true, ◌+◌, ◌<◌, ◌≡◌, ◌≢◌}
use codex_model_tester.AccountManager.{
  refused, World, mark_refresh_failure, after_refresh, refresh_locked,
}
use codex_model_tester.Accounts.Types.{expired, Record}
use codex_model_tester.Accounts.Store.{ok, Env, Service}
use codex_model_tester.Accounts.Store.Keys.{IsKeyed}
use codex_model_tester.Accounts.Acquire.{acquire_matching}
use codex_model_tester.Accounts.Rest.{Rests, AllSpare}
use codex_model_tester.Accounts.Rest.Calls.{set_cooldown-Rests, mark_error-Rests, acquire-Rests}
use codex_model_tester.Accounts.System.{Call, marks_error, sets_cooldown, step, run}
use codex_model_tester.Accounts.System.Calls.{step-IsKeyed}

mark_refresh_failure-Rests :
    (w : World) (env : Env) (id text : Str) (terminal : Bool) (s : Service)
    → Rests (w.failed_at + 60000000000) id (mark_refresh_failure w env id text terminal s)
unfolding mark_refresh_failure
mark_refresh_failure-Rests w env id text true s =
    mark_error-Rests (w.failed_at + 60000000000) env id text expired s refl
mark_refresh_failure-Rests w env id text false s =
    set_cooldown-Rests env id text (w.failed_at + 60000000000) s

mark_refresh_failure-IsKeyed :
    (w : World) (env : Env) (id text : Str) (terminal : Bool) (s : Service)
    → IsKeyed s.records
    → IsKeyed (mark_refresh_failure w env id text terminal s).records
unfolding mark_refresh_failure step
mark_refresh_failure-IsKeyed w env id text true s k =
    step-IsKeyed env (marks_error id expired text) s k
mark_refresh_failure-IsKeyed w env id text false s k =
    step-IsKeyed env (sets_cooldown id (some (w.failed_at + 60000000000)) text) s k

-- Where each record stands under its own ID, once, and the upstream refuses to refresh an
-- account's token, no acquisition hands the account out within a minute of the failure, whether
-- the refusal is terminal or not and whether or not the status could be saved, after any calls
-- within that minute that spare the account (none stores a token of a login; of the account,
-- none observes its quota, updates its credentials, patches its status, marks it active or sets
-- a cooldown that ends earlier).
pub refresh_locked-refused :
    (w : World) (later : Env) (r q : Record) (text preferred_id : Str) (terminal : Bool)
    (allow : Option (Record → Bool)) (calls : List (Env × Call)) (s s' : Service)
    → IsKeyed (w.others 2 s).records
    → w.oauth_refresh r.token r.account_id ≡ refused text terminal
    → AllSpare (w.failed_at + 60000000000) r.id calls
    → later.now < w.failed_at + 60000000000
    → acquire_matching later preferred_id allow (run calls (refresh_locked w r s).0) ≡ (s', ok q)
    → q.id ≢ r.id
unfolding refresh_locked after_refresh
refresh_locked-refused w later r q text preferred_id terminal allow calls s s' k e spare t h =
    acquire-Rests (w.failed_at + 60000000000) later r.id preferred_id allow calls
      (mark_refresh_failure w (w.at 2) r.id text terminal (w.others 2 s)) s' q
      (mark_refresh_failure-IsKeyed w (w.at 2) r.id text terminal (w.others 2 s) k)
      (mark_refresh_failure-Rests w (w.at 2) r.id text terminal (w.others 2 s)) spare t
      (rw (e, refresh_locked) at h)
