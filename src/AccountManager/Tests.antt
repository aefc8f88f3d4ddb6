-- ===== src/AccountManager/Tests.antt =====
-- internal/accountmanager at concrete data.
use codex_model_tester.Base.{
  [], arith, bytes, insert, lookup, none, refl, str_eq, str_lt, trim_space, true, ◌≢◌, ◌⊎◌,
}
use codex_model_tester.Accounts.Token.{metadata_from_token}
use codex_model_tester.AccountManager.{
  granted, refused, usage_error, World, mark_refresh_failure, after_refresh, refresh_locked,
  ensure_ready,
}
use codex_model_tester.AccountManager.Failed.{refresh_locked-refused}
use codex_model_tester.AccountManager.Ready.{ensure_ready-done}
use codex_model_tester.AccountManager.Refreshed.{WasRefreshed}
use codex_model_tester.AccountManager.Usable.{IsUsable}
use codex_model_tester.Accounts.Acquire.{preferred_candidate, choose, acquire_matching}
use codex_model_tester.Accounts.Clone.{clone_record}
use codex_model_tester.Accounts.Edit.{update_auth, mark_error}
use codex_model_tester.Accounts.Quota.{is_eligible}
use codex_model_tester.Accounts.Rotation.{sort_func, select_round_robin}
use codex_model_tester.Accounts.Samples.{first_account, second_account, at, two, sparing}
use codex_model_tester.Accounts.Service.{get}
use codex_model_tester.Accounts.Store.{persist_locked, refresh_all_locked}
use codex_model_tester.Accounts.System.{step, run}
use codex_model_tester.Accounts.Types.{OauthToken, Record}

-- No other calls come between, and the upstream refuses every refresh for good.
abbrev world : World
world = record {
  at = λ n. at 1000;
  others = λ n s. s;
  refresh_skew = 100;
  oauth_refresh = λ token account_id. refused (bytes "invalid_grant") true;
  get_usage_answer = λ r. usage_error [];
  failed_at = 1000;
}

abbrev new_token : OauthToken
new_token = record { access_token = bytes "u"; refresh_token = []; expires_at = 90000 }

-- The token is about to expire, and is refreshed.
abbrev refreshing : World
refreshing = record world {
  refresh_skew = 10000;
  oauth_refresh = λ token account_id. granted new_token (bytes "a");
}

abbrev refreshed : Record
refreshed = record first_account { token = new_token; updated_at = 1000 }

ensure_ready-done_example :
    IsUsable 10000 1000 refreshed
    ⊎ (IsUsable 10000 1000 refreshed ⊎ WasRefreshed refreshing (bytes "a") two refreshed)
unfolding ensure_ready get refresh_all_locked lookup str_eq clone_record update_auth insert
    trim_space metadata_from_token
ensure_ready-done_example =
    ensure_ready-done refreshing (bytes "a") refreshed two
      (ensure_ready refreshing (bytes "a") two).0 refl

refresh_locked-refused_example : bytes "b" ≢ bytes "a"
unfolding refresh_locked after_refresh mark_refresh_failure mark_error persist_locked insert
    acquire_matching refresh_all_locked is_eligible trim_space select_round_robin sort_func str_lt
    clone_record lookup str_eq choose preferred_candidate run step get
refresh_locked-refused_example =
    refresh_locked-refused world (at 2000) first_account second_account (bytes "invalid_grant") []
      true none sparing two
      (acquire_matching (at 2000) [] none
        (run sparing (refresh_locked world first_account two).0)).0
      (refl, refl, (refl, refl, tt)) refl (omega arith, tt, tt) (omega arith) refl
