-- ===== src/Server/Tests.antt =====
-- Heartbeats of internal/server/heartbeat.go at concrete data.
use codex_model_tester.Base.{
  ◌+◌, ◌*◌, ◌≤◌, ◌≡◌, ◌↔◌, refl, max, true, false, some, none, [], ◌∷◌, Str, bytes, In, lookup,
  str_eq,
}
use codex_model_tester.Server.Monitor.{
  HeartbeatMonitor, HeartbeatOutcome, HeartbeatManager, done, failed, heartbeat_running,
  heartbeat_error,
}
use codex_model_tester.Server.Claims.{claim, claim_found, claim_due, is_running}
use codex_model_tester.Server.Heartbeat.{
  scheduled, completed, complete, complete_found, save_locked, should_notify,
}
use codex_model_tester.Server.Heartbeat.Events.{claimed_due, run}
use codex_model_tester.Server.Heartbeat.Exclusive.{claim-run}
use codex_model_tester.Server.Heartbeat.Due.{claim_due_iff}
use codex_model_tester.Server.Heartbeat.Notify.{complete-twice}
use codex_model_tester.Server.Heartbeat.Delay.{next_run-bounds}

-- A monitor that failed last time.
abbrev monitor : HeartbeatMonitor
monitor = record {
  id = bytes "hb";
  account_id = bytes "a";
  model = bytes "m";
  interval_seconds = 60;
  enabled = true;
  created_at = 5;
  updated_at = 5;
  next_run_at = 100;
  last_run_at = some 40;
  last_status = heartbeat_error;
  last_upstream_model = [];
  last_error_code = bytes "timeout";
  last_error = [];
  consecutive_failures = 3;
}

abbrev manager : HeartbeatManager
manager = record { monitors = (bytes "hb", monitor) ∷ []; running = []; saved = none }

abbrev outcome : Str → HeartbeatOutcome
outcome status = record {
  status = status;
  upstream_model = [];
  error_code = bytes "timeout";
  error = [];
}

claim-run_example :
    claim
      (bytes "hb")
      true
      300
      (run (claimed_due 200 ∷ []) (claim (bytes "hb") false 150 manager).0)
    ≡ (
      run (claimed_due 200 ∷ []) (claim (bytes "hb") false 150 manager).0,
      failed heartbeat_running,
    )
unfolding claim claim_found lookup str_eq
claim-run_example =
    claim-run (bytes "hb") false true 150 300 monitor (claimed_due 200 ∷ []) manager refl (refl, tt)

claim_due_iff_example : In monitor (claim_due 150 manager).1 ↔ (
    (id : Str) × (lookup id manager.monitors ≡ some monitor)
    × (is_running id manager ≡ false)
    × (monitor.enabled ≡ true)
    × (monitor.next_run_at ≤ 150))
unfolding lookup
claim_due_iff_example = claim_due_iff 150 monitor manager (refl, tt)

complete-twice_example :
    (complete none 8
      (bytes "hb")
      (outcome heartbeat_error)
      400
      (complete none 7 (bytes "hb") (outcome heartbeat_error) 200 manager).0).1
    ≡ done (
      completed 8 (outcome heartbeat_error) 400 (completed 7 (outcome heartbeat_error) 200 monitor),
      false,
    )
unfolding complete complete_found save_locked lookup str_eq should_notify
complete-twice_example =
    complete-twice 7 8 (bytes "hb") (outcome heartbeat_error) 200 400 manager
      (completed 7 (outcome heartbeat_error) 200 monitor) false refl

next_run-bounds_example :
    ((200 + 300 * 1000000000 ≤ (scheduled 77 300 200 monitor).next_run_at)
      × ((scheduled 77 300 200 monitor).next_run_at ≤ 200 + max 600 (300 * 3) * 1000000000))
    × ((200 + monitor.interval_seconds * 1000000000
          ≤ (completed 77 (outcome heartbeat_error) 200 monitor).next_run_at)
        × ((completed 77 (outcome heartbeat_error) 200 monitor).next_run_at
            ≤ 200 + max 600 (monitor.interval_seconds * 3) * 1000000000))
next_run-bounds_example = next_run-bounds 77 300 (outcome heartbeat_error) 200 monitor
