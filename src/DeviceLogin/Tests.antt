-- ===== src/DeviceLogin/Tests.antt =====
-- Device logins of internal/devicelogin at concrete data.
use codex_model_tester.Base.{
  [], bytes, erase, insert, itoa, lookup, none, refl, some, str_eq, trim_space, ◌∷◌, ◌≡◌, ◌⊎◌,
}
use codex_model_tester.DeviceLogin.{
  login_pending, login_expired, PendingLogin, polls, Goroutine, DeviceLoginService,
  DeviceCodeResponse, new_device_login_service, new_login, start, set_status, set_stage, PollAnswer,
  exchanged, tick_login, tick, settle, finish,
}
use codex_model_tester.DeviceLogin.Events.{finished, swept, Setting, step, run}
use codex_model_tester.DeviceLogin.Final.{after_start, run-final}
use codex_model_tester.DeviceLogin.Stored.{WasStored, tick-ready}
use codex_model_tester.Accounts.Store.{persist_locked}
use codex_model_tester.Accounts.Service.{
  same_account, find_entry, update_from_token, upsert_from_token,
}
use codex_model_tester.Accounts.Samples.{first_account, at, two}
use codex_model_tester.Accounts.Clone.{clone_record}

abbrev setting : Setting
setting = record { format = itoa; url = bytes "url"; describe = λ e. bytes "failed" }

abbrev response : DeviceCodeResponse
response = record { user_code = bytes "code"; device_auth_id = bytes "auth"; interval = 1 }

abbrev pending : PendingLogin
pending = record {
  login = record {
    login_id = bytes "login_7";
    auth_url = bytes "url";
    user_code = bytes "code";
    status = login_pending;
    error = [];
    created_at = 7;
    expires_at = 57;
  };
  device_auth_id = bytes "auth";
  interval = 5000000000;
}

abbrev over : PendingLogin
over = record pending {
  login = record (pending.login) { status = login_expired; error = bytes "device login expired" };
}

abbrev decided : DeviceLoginService
decided = after_start setting two 50 [] response 7 (finished 0 ∷ [])

run-final_example :
    (lookup (bytes "login_7") (run setting (swept 9 ∷ []) decided).logins ≡ some over)
    ⊎ (lookup (bytes "login_7") (run setting (swept 9 ∷ []) decided).logins ≡ none)
unfolding run step start new_login finish set_status set_stage new_device_login_service itoa lookup
    insert erase str_eq
run-final_example =
    run-final setting two 50 [] (finished 0 ∷ []) (swept 9 ∷ []) response 7 over tt (refl, tt)
      (refl, tt) refl refl

abbrev goroutine : Goroutine
goroutine = record { login_id = bytes "login_7"; stage = polls }

abbrev waiting : DeviceLoginService
waiting = record {
  accounts = two;
  timeout = 50;
  logins = (bytes "login_7", pending) ∷ [];
  polling = goroutine ∷ [];
}

abbrev answer : PollAnswer
answer = exchanged (first_account.token) (bytes "a")

abbrev after_tick : DeviceLoginService
after_tick = tick (at 1000) 0 answer waiting

tick-ready_example : WasStored (at 1000) answer waiting after_tick.accounts
unfolding tick tick_login settle set_stage set_status upsert_from_token find_entry same_account
    update_from_token persist_locked trim_space lookup insert str_eq clone_record
tick-ready_example =
    tick-ready (at 1000) setting.describe (bytes "login_7") 0 answer goroutine waiting after_tick
      refl refl refl (λ h. cc) refl
