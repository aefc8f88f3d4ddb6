-- ===== src/Server/Heartbeat.antt =====
-- internal/server/heartbeat.go: the monitors that call an account's model from time to time. The
-- manager's lock makes each operation one step. Readings of the clock, what the random generator
-- draws and whether the file can be written are arguments.

pub mod Events
pub mod Exclusive
pub mod Due
pub mod Notify
pub mod Delay
use codex_model_tester.Base.{
  ℕ, ◌+◌, ◌-◌, ◌*◌, ◌/◌, ◌%◌, ◌^◌, Bool, true, false, not, ◌&&◌, ◌||◌, Option, none, some, List, [],
  ◌∷◌, ◌++◌, map, if◌then◌else◌, ltb, leb, ◌==◌, Str, bytes, Dict, take, str_eq, is_empty,
  trim_space, str_lt, lookup, insert, erase, is_some, digit_char,
}
use codex_model_tester.Accounts.Types.{Time}
use codex_model_tester.Accounts.Rotation.{Sign, or_sign, time_compare, str_compare, sort_func}
use codex_model_tester.Server.Monitor.{
  HeartbeatMonitor, HeartbeatOutcome, HeartbeatManager, HeartbeatFailure, HeartbeatFile, no_file,
  unreadable, undecodable, decoded, read_failed, decode_failed, HeartbeatResult, heartbeat_healthy,
  heartbeat_mismatch, heartbeat_error, default_heartbeat_seconds, valid_heartbeat_interval,
  encode_hex, heartbeat_monitor_id, heartbeat_delay_bounds, random_heartbeat_index,
  randomized_heartbeat_delay, heartbeat_monitor_id, is_blank, heartbeat_not_found,
  heartbeat_running, unsupported_interval, save_failed, done, failed,
}

-- Seconds are the code's int64 where it is not negative; one below zero is refused, and replaced at
-- load, as any other interval that is not allowed.
unfoldable pub load_monitor :
    Time → ℕ → HeartbeatMonitor → Dict HeartbeatMonitor → Dict HeartbeatMonitor
unfolding randomized_heartbeat_delay valid_heartbeat_interval
load_monitor now draw b m =
    let seconds =
      if valid_heartbeat_interval b.interval_seconds
      then b.interval_seconds
      else default_heartbeat_seconds in
    let next =
      if b.next_run_at == 0 then now + randomized_heartbeat_delay draw seconds else b.next_run_at in
    if is_blank b.id || is_blank b.account_id || is_blank b.model
    then m
    else insert b.id (record b { interval_seconds = seconds; next_run_at = next }) m

unfoldable pub load_monitors :
    Time → (ℕ → ℕ) → List HeartbeatMonitor → Dict HeartbeatMonitor → Dict HeartbeatMonitor
unfolding load_monitor
load_monitors now draws [] m = m
load_monitors now draws (b ∷ bs) m =
    load_monitors now (λ n. draws (n + 1)) bs (load_monitor now (draws 0) b m)

-- `newHeartbeatManager`; `draws n` is what the generator gives in round n.
unfoldable pub new_heartbeat_manager :
    Time → (ℕ → ℕ) → HeartbeatFile → HeartbeatResult HeartbeatManager
unfolding load_monitors
new_heartbeat_manager now draws no_file =
    done (record { monitors = []; running = []; saved = none })
new_heartbeat_manager now draws (unreadable e) = failed (read_failed e)
new_heartbeat_manager now draws (undecodable e) = failed (decode_failed e)
new_heartbeat_manager now draws (decoded bs) =
    done (record { monitors = load_monitors now draws bs []; running = []; saved = none })

abbrev pub items : HeartbeatManager → List HeartbeatMonitor
items m = map (λ e. e.1) m.monitors

abbrev pub by_creation : HeartbeatMonitor → HeartbeatMonitor → Sign
by_creation a b = or_sign (time_compare a.created_at b.created_at) (str_compare a.id b.id)

abbrev pub by_monitor_id : HeartbeatMonitor → HeartbeatMonitor → Sign
by_monitor_id a b = str_compare a.id b.id

unfoldable pub list : HeartbeatManager → List HeartbeatMonitor
list m = sort_func by_creation (items m)

-- `saveLocked`: `failure` is what marshalling, making the folder, writing or renaming returns. The file
-- is replaced by the renaming, so the last save stays as it was when one of them fails.
unfoldable pub save_locked {ℓ} :
    {A : Type ℓ} → Option Str → A → HeartbeatManager → HeartbeatManager × HeartbeatResult A
save_locked none a m = (record m { saved = some (sort_func by_monitor_id (items m)) }, done a)
save_locked (some e) a m = (m, failed (save_failed e))

-- A monitor as `upsert` makes it where there is none.
abbrev pub new_monitor : Str → Str → Str → Time → HeartbeatMonitor
new_monitor id account_id model now = record {
  id = id;
  account_id = account_id;
  model = model;
  interval_seconds = 0;
  enabled = false;
  created_at = now;
  updated_at = 0;
  next_run_at = 0;
  last_run_at = none;
  last_status = [];
  last_upstream_model = [];
  last_error_code = [];
  last_error = [];
  consecutive_failures = 0;
}

abbrev pub or_new : HeartbeatMonitor → Option HeartbeatMonitor → HeartbeatMonitor
or_new fresh none = fresh
or_new fresh (some b) = b

-- What `upsert` writes.
unfoldable pub scheduled : ℕ → ℕ → Time → HeartbeatMonitor → HeartbeatMonitor
unfolding randomized_heartbeat_delay
scheduled draw seconds now b = record b {
  interval_seconds = seconds;
  enabled = true;
  updated_at = now;
  next_run_at = now + randomized_heartbeat_delay draw seconds;
}

-- `upsert` from the monitor's ID on.
unfoldable pub upsert_monitor :
    Option Str
    → ℕ
    → Str
    → Str
    → Str
    → ℕ
    → Time
    → HeartbeatManager
    → HeartbeatManager × HeartbeatResult HeartbeatMonitor
unfolding save_locked scheduled valid_heartbeat_interval
upsert_monitor failure draw id account_id model seconds now m =
    let b =
      scheduled draw seconds now
        (or_new (new_monitor id account_id model now) (lookup id m.monitors)) in
    if valid_heartbeat_interval seconds
    then save_locked failure b (record m { monitors = insert id b m.monitors })
    else (m, failed unsupported_interval)

unfoldable pub upsert :
    (List ℕ → List ℕ)
    → Option Str
    → ℕ
    → Str
    → Str
    → ℕ
    → Time
    → HeartbeatManager
    → HeartbeatManager × HeartbeatResult HeartbeatMonitor
unfolding upsert_monitor heartbeat_monitor_id
upsert sum256 failure draw account_id model seconds now m =
    upsert_monitor failure draw (heartbeat_monitor_id sum256 account_id model) account_id model
      seconds now m

abbrev pub without : Str → HeartbeatManager → HeartbeatManager
without id m = record m { monitors = erase id m.monitors; running = erase id m.running }

unfoldable pub remove :
    Option Str → Str → HeartbeatManager → HeartbeatManager × HeartbeatResult (Unit {0})
unfolding save_locked
remove failure id m =
    if is_some (lookup id m.monitors)
    then save_locked failure tt (without id m)
    else (m, failed heartbeat_not_found)

-- The loop of `removeByAccount`; the flag is `changed`.
unfoldable pub remove_each :
    Str → Dict HeartbeatMonitor → Bool → HeartbeatManager → HeartbeatManager × Bool
remove_each account_id [] changed m = (m, changed)
remove_each account_id ((id, b) ∷ rest) changed m =
    remove_each account_id rest (changed || str_eq b.account_id account_id)
      (if str_eq b.account_id account_id then without id m else m)

unfoldable pub remove_by_account :
    Option Str → Str → HeartbeatManager → HeartbeatManager × HeartbeatResult (Unit {0})
unfolding save_locked remove_each
remove_by_account failure account_id m =
    let (m', changed) = remove_each account_id m.monitors false m in
    if changed then save_locked failure tt m' else (m', done tt)

unfoldable pub release : Str → HeartbeatManager → HeartbeatManager
release id m = record m { running = erase id m.running }

unfoldable pub heartbeat_notification_key : Str → Str → Str → Str
heartbeat_notification_key status error_code upstream_model =
    if str_eq status heartbeat_error
    then status ++ b':' ∷ error_code
    else if str_eq status heartbeat_mismatch
    then status ++ b':' ∷ upstream_model
    else status

-- What `complete` makes of a monitor. The counter is a 64-bit `int`, kept as its bit pattern.
unfoldable pub completed : ℕ → HeartbeatOutcome → Time → HeartbeatMonitor → HeartbeatMonitor
unfolding randomized_heartbeat_delay
completed draw o now b = record b {
  last_run_at = some now;
  last_status = o.status;
  last_upstream_model = o.upstream_model;
  last_error_code = o.error_code;
  last_error = o.error;
  updated_at = now;
  next_run_at = now + randomized_heartbeat_delay draw b.interval_seconds;
  consecutive_failures =
      if str_eq o.status heartbeat_healthy then 0 else (b.consecutive_failures + 1) % 2 ^ 64;
}

-- `shouldNotify`
unfoldable pub should_notify : HeartbeatOutcome → HeartbeatMonitor → Bool
unfolding heartbeat_notification_key
should_notify o b =
    not (
      str_eq (heartbeat_notification_key o.status o.error_code o.upstream_model)
        (heartbeat_notification_key b.last_status b.last_error_code b.last_upstream_model))
    && (not (str_eq o.status heartbeat_healthy) || not (is_empty b.last_status))

-- `complete` from the lookup on: the monitor and whether to notify. The monitor that comes beside an
-- error is left out: the caller drops it.
unfoldable pub complete_found :
    Option Str
    → ℕ
    → Str
    → HeartbeatOutcome
    → Time
    → Option HeartbeatMonitor
    → HeartbeatManager
    → HeartbeatManager × HeartbeatResult (HeartbeatMonitor × Bool)
unfolding completed should_notify save_locked
complete_found failure draw id o now none m = (m, failed heartbeat_not_found)
complete_found failure draw id o now (some b) m =
    save_locked failure (completed draw o now b, should_notify o b)
      (record m { monitors = insert id (completed draw o now b) m.monitors })

unfoldable pub complete :
    Option Str
    → ℕ
    → Str
    → HeartbeatOutcome
    → Time
    → HeartbeatManager
    → HeartbeatManager × HeartbeatResult (HeartbeatMonitor × Bool)
unfolding complete_found release
complete failure draw id o now m =
    complete_found failure draw id o now (lookup id m.monitors) (release id m)
