-- ===== src/Server/Upstream/Tests.antt =====
-- Failures of the upstream, of internal/server/upstream_errors.go, at concrete data.
use codex_model_tester.Accounts.Service.{get}
use codex_model_tester.Base.{
  Str, [], arith, bytes, false, insert, lookup, none, pos, refl, some, str_eq, trim_space, true, ℤ,
  ◌<◌, ◌≡◌, ◌≢◌, ◌≤◌, ◌⊎◌,
}
use codex_model_tester.Server.Upstream.{
  UpstreamError, Cause, Meets, classify_upstream, classify_upstream_error, should_failover_request,
}
use codex_model_tester.Server.Upstream.Effects.{classify_upstream-acquire}
use codex_model_tester.Server.Upstream.Failover.{classify_upstream_error-should_failover_request}
use codex_model_tester.Accounts.Acquire.{acquire_matching}
use codex_model_tester.Accounts.Clone.{clone_record}
use codex_model_tester.Accounts.Edit.{set_cooldown}
use codex_model_tester.Accounts.Quota.{is_eligible}
use codex_model_tester.Accounts.Rotation.{select_round_robin}
use codex_model_tester.Accounts.Samples.{second_account, at, two, sparing}
use codex_model_tester.Accounts.Store.{refresh_all_locked}
use codex_model_tester.Accounts.System.{run, step}
use codex_model_tester.Accounts.Types.{Time}

abbrev status_name : ℤ → Str
status_name status = bytes "failed"

abbrev limited : UpstreamError
limited = record {
  op = [];
  status_code = pos 429;
  body = bytes "slow down";
  code = [];
  retry_after = pos 5;
}

abbrev moment : Meets
moment = record { now = 1000; read = at 1000; others = λ s. s; write = at 1000 }

abbrev cooled : Time
cooled = 5000000000

classify_upstream-acquire_example : bytes "b" ≢ bytes "a"
unfolding lookup str_eq trim_space acquire_matching refresh_all_locked classify_upstream
    set_cooldown insert is_eligible select_round_robin clone_record run step get
classify_upstream-acquire_example =
    classify_upstream-acquire status_name moment (at 2000) (bytes "a") [] (bytes "slow") cooled none
      sparing limited two
      (acquire_matching (at 2000) [] none (
        run sparing
          (classify_upstream status_name moment (bytes "a") (bytes "slow") limited two).0)).0
      second_account (refl, refl, (refl, refl, tt)) (λ s k. k) refl (omega arith) refl (omega arith)
      (omega arith, tt, tt) (omega arith) refl

-- A request that the upstream finds wrong.
abbrev refused : Cause
refused = record { text = bytes "bad"; upstream = some (record limited { status_code = pos 400 }) }

classify_upstream_error-should_failover_request_example :
    (400 ≤ (classify_upstream_error status_name moment (bytes "a") refused two).1.status)
    × ((classify_upstream_error status_name moment (bytes "a") refused two).1.status < 600)
    × ((should_failover_request false refused ≡ true)
        ⊎ ((classify_upstream_error status_name moment (bytes "a") refused two).0 ≡ two))
classify_upstream_error-should_failover_request_example =
    classify_upstream_error-should_failover_request status_name moment (bytes "a") refused two
