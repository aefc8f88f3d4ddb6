-- ===== src/Accounts/Effects.antt =====
-- What a cooldown set by internal/accounts/service.go means for later calls.
use codex_model_tester.Base.{Bool, List, Option, Str, some, ◌<◌, ◌≡◌, ◌≢◌}
use codex_model_tester.Accounts.Types.{Time, Record}
use codex_model_tester.Accounts.Store.{ok, Env, Service}
use codex_model_tester.Accounts.Store.Keys.{IsKeyed}
use codex_model_tester.Accounts.Edit.{set_cooldown}
use codex_model_tester.Accounts.Acquire.{acquire_matching}
use codex_model_tester.Accounts.System.{Call, sets_cooldown, step, run}
use codex_model_tester.Accounts.System.Calls.{step-IsKeyed}
use codex_model_tester.Accounts.Rest.{AllSpare}
use codex_model_tester.Accounts.Rest.Calls.{set_cooldown-Rests, acquire-Rests}

-- Where each record stands under its own ID, once, an account put in cooldown is not handed out
-- before the cooldown's end, even where saving failed, after any calls before that end that
-- spare it (none stores a token of a login; of the account, none observes its quota, updates
-- its credentials, patches its status, marks it active or sets a cooldown that ends earlier).
pub set_cooldown-acquire :
    (env later : Env) (id preferred_id message : Str) (until : Time)
    (allow : Option (Record → Bool)) (calls : List (Env × Call)) (s s' : Service) (r : Record)
    → IsKeyed s.records
    → AllSpare until id calls
    → later.now < until
    → acquire_matching later preferred_id allow
        (run calls (set_cooldown env id (some until) message s).0)
      ≡ (s', ok r)
    → r.id ≢ id
unfolding step
set_cooldown-acquire env later id preferred_id message until allow calls s s' r k spare lt h =
    acquire-Rests until later id preferred_id allow calls
      (set_cooldown env id (some until) message s).0 s' r
      (step-IsKeyed env (sets_cooldown id (some until) message) s k)
      (set_cooldown-Rests env id message until s) spare lt h
