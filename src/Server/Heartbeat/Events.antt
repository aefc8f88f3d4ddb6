-- ===== src/Server/Heartbeat/Events.antt =====
-- The calls of the heartbeat manager of internal/server/heartbeat.go in any order.
use codex_model_tester.Base.{
  ℕ, ◌≡◌, Bool, true, false, Option, some, List, [], ◌∷◌, Str, str_eq, lookup, is_some,
}
use codex_model_tester.Accounts.Types.{Time}
use codex_model_tester.Server.Heartbeat.{upsert, remove, remove_by_account, release, complete}
use codex_model_tester.Server.Monitor.{HeartbeatOutcome, HeartbeatManager}
use codex_model_tester.Server.Claims.{claim, claim_due}

-- The calls of the manager. An upsert comes with the hash function.
pub data Event : Type 0 where
  upserted : (List ℕ → List ℕ) → Option Str → ℕ → Str → Str → ℕ → Time → Event
  removed : Option Str → Str → Event
  account_removed : Option Str → Str → Event
  claimed : Str → Bool → Time → Event
  claimed_due : Time → Event
  released : Str → Event
  finished : Option Str → ℕ → Str → HeartbeatOutcome → Time → Event

unfoldable pub step : Event → HeartbeatManager → HeartbeatManager
step (upserted sum256 failure draw account_id model seconds now) m =
    (upsert sum256 failure draw account_id model seconds now m).0
step (removed failure id) m = (remove failure id m).0
step (account_removed failure account_id) m = (remove_by_account failure account_id m).0
step (claimed id force now) m = (claim id force now m).0
step (claimed_due now) m = (claim_due now m).0
step (released id) m = release id m
step (finished failure draw id o now) m = (complete failure draw id o now m).0

unfoldable pub run : List Event → HeartbeatManager → HeartbeatManager
unfolding step
run [] m = m
run (e ∷ es) m = run es (step e m)

-- Whether the call may end the run of the monitor: a release, a completion or a removal of it, or the
-- removal of an account.
abbrev pub may_end : Str → Event → Bool
may_end id (released j) = str_eq j id
may_end id (finished failure draw j o now) = str_eq j id
may_end id (removed failure j) = str_eq j id
may_end id (account_removed failure account_id) = true
may_end id (upserted sum256 failure draw account_id model seconds now) = false
may_end id (claimed j force now) = false
may_end id (claimed_due now) = false

-- A stored monitor that runs.
abbrev pub IsBusy : Str → HeartbeatManager → Type 0
IsBusy id m = (lookup id m.running ≡ some true) × (is_some (lookup id m.monitors) ≡ true)
