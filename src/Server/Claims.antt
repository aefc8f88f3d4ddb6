-- ===== src/Server/Claims.antt =====
-- internal/server/heartbeat.go: which monitors start to run.
use codex_model_tester.Base.{
  Bool, true, false, not, ◌&&◌, ◌||◌, Option, none, some, List, [], ◌∷◌, if◌then◌else◌, ltb, Str,
  Dict, lookup, insert,
}
use codex_model_tester.Accounts.Types.{Time}
use codex_model_tester.Server.Monitor.{
  HeartbeatMonitor, HeartbeatManager, HeartbeatResult, heartbeat_not_found, heartbeat_running, done,
  failed,
}
use codex_model_tester.Accounts.Rotation.{Sign, time_compare, sort_func}

-- `m.running[id]`
abbrev pub is_running : Str → HeartbeatManager → Bool
is_running id m = elim (lookup id m.running) [ none ↦ false | some b ↦ b ]

abbrev pub mark_running : Str → HeartbeatManager → HeartbeatManager
mark_running id m = record m { running = insert id true m.running }

abbrev pub is_due : Time → HeartbeatMonitor → Bool
is_due now b = not (ltb now b.next_run_at)

-- `claim` from the lookup on.
unfoldable pub claim_found :
    Str
    → Bool
    → Time
    → Option HeartbeatMonitor
    → HeartbeatManager
    → HeartbeatManager × HeartbeatResult HeartbeatMonitor
claim_found id force now none m = (m, failed heartbeat_not_found)
claim_found id force now (some b) m =
    if is_running id m
    then (m, failed heartbeat_running)
    else if not b.enabled || (not force && not (is_due now b))
    then (m, failed heartbeat_not_found)
    else (mark_running id m, done b)

unfoldable pub claim :
    Str → Bool → Time → HeartbeatManager → HeartbeatManager × HeartbeatResult HeartbeatMonitor
unfolding claim_found
claim id force now m = claim_found id force now (lookup id m.monitors) m

abbrev pub by_next_run : HeartbeatMonitor → HeartbeatMonitor → Sign
by_next_run a b = time_compare a.next_run_at b.next_run_at

-- The loop of `claimDue`, over the monitors that are left.
unfoldable pub claim_each :
    Time → Dict HeartbeatMonitor → HeartbeatManager → HeartbeatManager × List HeartbeatMonitor
claim_each now [] m = (m, [])
claim_each now ((id, b) ∷ rest) m =
    let free = b.enabled && not (is_running id m) && is_due now b in
    let (m', claimed) = claim_each now rest (if free then mark_running id m else m) in
    (m', if free then b ∷ claimed else claimed)

unfoldable pub claim_due : Time → HeartbeatManager → HeartbeatManager × List HeartbeatMonitor
unfolding claim_each
claim_due now m =
    let (m', claimed) = claim_each now m.monitors m in (m', sort_func by_next_run claimed)
