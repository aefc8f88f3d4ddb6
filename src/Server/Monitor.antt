-- ===== src/Server/Monitor.antt =====
-- internal/server/heartbeat.go: the data of a monitor and of the manager, and the random delay.
use codex_model_tester.Base.{
  ℕ, ◌+◌, ◌-◌, ◌*◌, ◌/◌, ◌%◌, Bool, ◌||◌, Option, List, [], ◌∷◌, ◌++◌, if◌then◌else◌, leb, ◌==◌,
  Str, bytes, Dict, take, is_empty, trim_space, digit_char,
}
use codex_model_tester.Accounts.Types.{Time}

pub record HeartbeatMonitor : Type 0 where
  pub id : Str
  pub account_id : Str
  pub model : Str
  pub interval_seconds : ℕ
  pub enabled : Bool
  pub created_at : Time
  pub updated_at : Time
  pub next_run_at : Time
  pub last_run_at : Option Time
  pub last_status : Str
  pub last_upstream_model : Str
  pub last_error_code : Str
  pub last_error : Str
  pub consecutive_failures : ℕ

pub record HeartbeatOutcome : Type 0 where
  pub status : Str
  pub upstream_model : Str
  pub error_code : Str
  pub error : Str

-- `saved` is the value whose JSON text the last save of this process wrote, nothing before it; the
-- text itself is not modelled.
pub record HeartbeatManager : Type 0 where
  pub monitors : Dict HeartbeatMonitor
  pub running : Dict Bool
  pub saved : Option (List HeartbeatMonitor)

pub data HeartbeatFailure : Type 0 where
  heartbeat_not_found heartbeat_running unsupported_interval : HeartbeatFailure
  save_failed read_failed decode_failed : Str → HeartbeatFailure

-- What `os.ReadFile` and then `json.Unmarshal` give for the file of the monitors.
pub data HeartbeatFile : Type 0 where
  no_file : HeartbeatFile
  unreadable undecodable : Str → HeartbeatFile
  decoded : List HeartbeatMonitor → HeartbeatFile

pub data HeartbeatResult {ℓ} (A : Type ℓ) : Type ℓ where
  done : A → HeartbeatResult A
  failed : HeartbeatFailure → HeartbeatResult A

abbrev pub heartbeat_healthy : Str
heartbeat_healthy = bytes "healthy"

abbrev pub heartbeat_mismatch : Str
heartbeat_mismatch = bytes "mismatch"

abbrev pub heartbeat_error : Str
heartbeat_error = bytes "error"

abbrev pub default_heartbeat_seconds : ℕ
default_heartbeat_seconds = 21600

-- The keys of `allowedHeartbeatIntervals`.
unfoldable pub valid_heartbeat_interval : ℕ → Bool
valid_heartbeat_interval s =
    s == 60
    || s == 300
    || s == 600
    || s == 900
    || s == 1800
    || s == 3600
    || s == 10800
    || s == 21600
    || s == 43200
    || s == 86400

-- `hex.EncodeToString`
abbrev pub encode_hex : List ℕ → Str
encode_hex [] = []
encode_hex (b ∷ bs) = digit_char (b / 16) ∷ digit_char (b % 16) ∷ encode_hex bs

-- `sum256` is `sha256.Sum256`.
unfoldable pub heartbeat_monitor_id : (List ℕ → List ℕ) → Str → Str → Str
heartbeat_monitor_id sum256 account_id model =
    bytes "hb_" ++ encode_hex (take 8 (sum256 (trim_space account_id ++ 0 ∷ trim_space model)))

unfoldable pub heartbeat_delay_bounds : ℕ → ℕ × ℕ
heartbeat_delay_bounds base =
    if leb base 60
    then (base, 600)
    else if leb base 3600
    then (base, base * 3)
    else (base, base * 2)

-- `draw` is what the generator, or the clock in its place, gives; both fit it to the size.
unfoldable pub random_heartbeat_index : ℕ → ℕ → ℕ
random_heartbeat_index draw size = if leb size 1 then 0 else draw % size

-- In nanoseconds.
unfoldable pub randomized_heartbeat_delay : ℕ → ℕ → ℕ
unfolding heartbeat_delay_bounds random_heartbeat_index
randomized_heartbeat_delay draw base =
    let (minimum, maximum) = heartbeat_delay_bounds base in
    (minimum + random_heartbeat_index draw (maximum - minimum + 1)) * 1000000000

abbrev pub is_blank : Str → Bool
is_blank s = is_empty (trim_space s)

-- One round of the loop of `newHeartbeatManager`, with its reading of the generator.
