-- ===== src/Accounts/Samples.antt =====
-- Accounts of internal/accounts for the tests.
use codex_model_tester.Base.{
  Dict, Float64, List, Option, Str, [], bytes, false, none, some, true, ◌∷◌,
}
use codex_model_tester.Accounts.Types.{
  Time, active, RateLimitWindow, QuotaSnapshot, Record, RotationStrategy, round_robin,
}
use codex_model_tester.Accounts.Store.{Env, Service}
use codex_model_tester.Accounts.System.{Call, gets}

abbrev pub account : Str → Option QuotaSnapshot → Record
account id quota = record {
  id = id;
  account_id = id;
  user_id = [];
  email = [];
  plan_type = [];
  label = [];
  status = active;
  last_error = [];
  token = record { access_token = bytes "t"; refresh_token = []; expires_at = 9000 };
  cookies = some [];
  cached_quota = quota;
  cooldown_until = none;
  created_at = 1;
  updated_at = 1;
}

abbrev pub window : Option Float64 → RateLimitWindow
window used = record {
  allowed = true;
  limit_reached = false;
  used_percent = used;
  reset_at = none;
  limit_window_seconds = none;
}

abbrev pub quota : Float64 → Option Float64 → QuotaSnapshot
quota primary secondary = record {
  plan_type = [];
  rate_limit = window (some primary);
  secondary_rate_limit = some (window secondary);
  code_review_rate_limit = none;
  credits = none;
  source = [];
  fetched_at = 1;
}

abbrev pub first_account : Record
first_account = account (bytes "a") none

abbrev pub second_account : Record
second_account = account (bytes "b") none

abbrev pub two_accounts : Dict Record
two_accounts = (bytes "a", first_account) ∷ (bytes "b", second_account) ∷ []

abbrev pub at : Time → Env
at now = record { now = now; decode_payload = λ s. none; save_error = λ s. none }

abbrev pub service : RotationStrategy → Str → Dict Record → Service
service strategy last records = record {
  records = records;
  rotation_strategy = strategy;
  round_robin_index = 0;
  sticky_account_id = last;
  account_id_sequence = 0;
  disk = record { records = []; rotation_strategy = strategy };
}

abbrev pub two : Service
two = service round_robin [] two_accounts

-- A call in between that changes no account's availability.
abbrev pub sparing : List (Env × Call)
sparing = (at 1500, gets (bytes "a")) ∷ []
