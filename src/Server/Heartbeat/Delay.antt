-- ===== src/Server/Heartbeat/Delay.antt =====
-- The times at which internal/server/heartbeat.go plans the next run.
use codex_model_tester.Base.{ℕ, ◌+◌, ◌-◌, ◌*◌, ◌≤◌, ◌<◌, ◌≡◌, arith, max}
use codex_model_tester.Accounts.Types.{Time}
use codex_model_tester.Server.Heartbeat.{scheduled, completed}
use codex_model_tester.Server.Monitor.{
  HeartbeatMonitor, HeartbeatOutcome, heartbeat_delay_bounds, random_heartbeat_index,
  randomized_heartbeat_delay,
}

-- Whatever is drawn, the index is below the size.
random_heartbeat_index-lt : (draw size : ℕ) → 0 < size → random_heartbeat_index draw size < size
unfolding random_heartbeat_index
random_heartbeat_index-lt draw size h = grind (arith)

-- The bounds start at the interval, in order, and end below ten minutes or three times the interval.
heartbeat_delay_bounds_lem :
    (base : ℕ)
    → ((heartbeat_delay_bounds base).0 ≡ base)
      × (base ≤ (heartbeat_delay_bounds base).1)
      × ((heartbeat_delay_bounds base).1 ≤ max 600 (base * 3))
unfolding heartbeat_delay_bounds
heartbeat_delay_bounds_lem base = ground arith

randomized_heartbeat_delay-bounds :
    (draw base : ℕ)
    → (base * 1000000000 ≤ randomized_heartbeat_delay draw base)
      × (randomized_heartbeat_delay draw base ≤ max 600 (base * 3) * 1000000000)
randomized_heartbeat_delay-bounds draw base =
    let (lo, hi, top) = heartbeat_delay_bounds_lem base in
    let span = (heartbeat_delay_bounds base).1 - (heartbeat_delay_bounds base).0 + 1 in
    unfold randomized_heartbeat_delay in
    omega (arith, random_heartbeat_index-lt draw span (omega arith), lo, hi, top)

-- A monitor that is scheduled or completed runs next no sooner than its interval after that
-- time, and no later than the larger of ten minutes and three intervals after it.
pub next_run-bounds :
    (draw seconds : ℕ) (o : HeartbeatOutcome) (now : Time) (b : HeartbeatMonitor)
    → ((now + seconds * 1000000000 ≤ (scheduled draw seconds now b).next_run_at)
        × ((scheduled draw seconds now b).next_run_at ≤ now + max 600 (seconds * 3) * 1000000000))
      × ((now + b.interval_seconds * 1000000000 ≤ (completed draw o now b).next_run_at)
          × ((completed draw o now b).next_run_at
              ≤ now + max 600 (b.interval_seconds * 3) * 1000000000))
next_run-bounds draw seconds o now b =
    unfold scheduled completed in
    omega (
      arith,
      randomized_heartbeat_delay-bounds draw seconds,
      randomized_heartbeat_delay-bounds draw b.interval_seconds,
    )
