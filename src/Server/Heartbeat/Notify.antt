-- ===== src/Server/Heartbeat/Notify.antt =====
-- When internal/server/heartbeat.go notifies of a monitor's change.
use codex_model_tester.Base.{
  ℕ, ◌≡◌, refl, Bool, false, Option, none, some, arith, Str, str_eq_refl, lookup, lookup-insert,
}
use codex_model_tester.Accounts.Types.{Time}
use codex_model_tester.Server.Heartbeat.{
  save_locked, release, heartbeat_notification_key, completed, should_notify, complete,
  complete_found,
}
use codex_model_tester.Server.Monitor.{HeartbeatMonitor, HeartbeatOutcome, HeartbeatManager, done}

-- What a completion leaves stored, when it is saved.
complete_found-stored :
    (draw : ℕ) (id : Str) (o : HeartbeatOutcome) (now : Time) (found : Option HeartbeatMonitor)
    (m : HeartbeatManager) (b : HeartbeatMonitor) (told : Bool)
    → (complete_found none draw id o now found m).1 ≡ done (b, told)
    → lookup id (complete_found none draw id o now found m).0.monitors ≡ some b
unfolding complete_found save_locked
complete_found-stored draw id o now none m b told h = cc
complete_found-stored draw id o now (some c) m b told h =
    ground (arith, lookup-insert id id (completed draw o now c) m.monitors, str_eq_refl id)

complete_found-outcome :
    (draw : ℕ) (id : Str) (o : HeartbeatOutcome) (now : Time) (found : Option HeartbeatMonitor)
    (m : HeartbeatManager) (b : HeartbeatMonitor) (told : Bool)
    → (complete_found none draw id o now found m).1 ≡ done (b, told)
    → (b.last_status ≡ o.status)
      × (b.last_error_code ≡ o.error_code)
      × (b.last_upstream_model ≡ o.upstream_model)
unfolding complete_found save_locked completed
complete_found-outcome draw id o now none m b told h = cc
complete_found-outcome draw id o now (some c) m b told h = ground arith

key-same :
    (o : HeartbeatOutcome) (b : HeartbeatMonitor)
    → b.last_status ≡ o.status
    → b.last_error_code ≡ o.error_code
    → b.last_upstream_model ≡ o.upstream_model
    → heartbeat_notification_key o.status o.error_code o.upstream_model
      ≡ heartbeat_notification_key b.last_status b.last_error_code b.last_upstream_model
key-same o b s e u = cc

should_notify-same :
    (o : HeartbeatOutcome) (b : HeartbeatMonitor)
    → heartbeat_notification_key o.status o.error_code o.upstream_model
      ≡ heartbeat_notification_key b.last_status b.last_error_code b.last_upstream_model
    → should_notify o b ≡ false
unfolding should_notify
should_notify-same o b h =
    rw (h, should_notify)
      (rw
        (str_eq_refl
          (heartbeat_notification_key b.last_status b.last_error_code b.last_upstream_model))
        refl)

complete_found-same :
    (draw : ℕ) (id : Str) (o : HeartbeatOutcome) (now : Time) (found : Option HeartbeatMonitor)
    (m : HeartbeatManager) (b : HeartbeatMonitor)
    → found ≡ some b
    → should_notify o b ≡ false
    → (complete_found none draw id o now found m).1 ≡ done (completed draw o now b, false)
unfolding complete_found save_locked
complete_found-same draw id o now none m b h n = cc
complete_found-same draw id o now (some c) m b h n = ground arith

-- After a saved completion with an outcome, a second saved completion of that monitor with the
-- same outcome, at any time, succeeds without notifying again.
pub complete-twice :
    (draw again : ℕ) (id : Str) (o : HeartbeatOutcome) (now later : Time) (m : HeartbeatManager)
    (b : HeartbeatMonitor) (told : Bool)
    → (complete none draw id o now m).1 ≡ done (b, told)
    → (complete none again id o later (complete none draw id o now m).0).1
      ≡ done (completed again o later b, false)
unfolding complete
complete-twice draw again id o now later m b told h =
    let (s, e, u) =
      complete_found-outcome draw id o now (lookup id m.monitors) (release id m) b told h in
    let m' = (complete_found none draw id o now (lookup id m.monitors) (release id m)).0 in
    complete_found-same again id o later (lookup id m'.monitors) (release id m') b
      (complete_found-stored draw id o now (lookup id m.monitors) (release id m) b told h)
      (should_notify-same o b (key-same o b s e u))
