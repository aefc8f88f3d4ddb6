-- ===== src/Accounts/Tests.antt =====
-- Runs of the account store of internal/accounts at concrete data.
use codex_model_tester.Accounts.Service.{get}
use codex_model_tester.Base.{
  Dict, In, [], arith, bytes, false, inl, inr, insert, lookup, none, refl, some, str_eq, str_lt,
  subst, trim_space, ◌∷◌, ◌≡◌, ◌≢◌,
}
use codex_model_tester.Accounts.Acquire.{preferred_candidate, choose, acquire_matching}
use codex_model_tester.Accounts.Acquire.Choice.{Source}
use codex_model_tester.Accounts.Acquire.Promises.{
  acquire_matching-Source, acquire_matching-preferred, acquire_matching-total,
  acquire_matching-sticky,
}
use codex_model_tester.Accounts.Clone.{clone_record}
use codex_model_tester.Accounts.Edit.{set_cooldown}
use codex_model_tester.Accounts.Effects.{set_cooldown-acquire}
use codex_model_tester.Accounts.Quota.{is_eligible}
use codex_model_tester.Accounts.Rotation.{sort_func, select_round_robin}
use codex_model_tester.Accounts.Samples.{
  first_account, second_account, two_accounts, at, service, two, sparing,
}
use codex_model_tester.Accounts.Store.{
  ok, values, persist_locked, refresh_record, refresh_records, refresh_all_locked,
}
use codex_model_tester.Accounts.Types.{Record, sticky}
use codex_model_tester.Accounts.System.{run, step}

-- A run of the rotation over two accounts hands out the first.
first_acquired : (acquire_matching (at 1000) [] none two).1 ≡ ok first_account
unfolding acquire_matching refresh_all_locked is_eligible trim_space select_round_robin sort_func
    str_lt clone_record lookup str_eq choose preferred_candidate
first_acquired = refl

acquire_matching-Source_example :
    Source none 1000 (refresh_records 1000 two_accounts).0 first_account
unfolding acquire_matching refresh_all_locked is_eligible trim_space select_round_robin sort_func
    str_lt clone_record lookup str_eq choose preferred_candidate
acquire_matching-Source_example =
    acquire_matching-Source (at 1000) [] none two (acquire_matching (at 1000) [] none two).0
      first_account refl

acquire_matching-preferred_example :
    (acquire_matching (at 1000) (bytes "b") none two).1
    ≡ ok (clone_record (refresh_record 1000 second_account).0)
unfolding acquire_matching refresh_all_locked is_eligible trim_space select_round_robin sort_func
    str_lt clone_record lookup str_eq choose preferred_candidate
acquire_matching-preferred_example =
    acquire_matching-preferred (at 1000) (bytes "b") none two refl second_account (λ e. cc) refl
      refl refl

acquire_matching-total_example : (r : Record) × ((acquire_matching (at 1000) [] none two).1 ≡ ok r)
unfolding acquire_matching refresh_all_locked is_eligible trim_space select_round_robin sort_func
    str_lt clone_record lookup str_eq choose preferred_candidate
acquire_matching-total_example =
    acquire_matching-total (at 1000) [] none two refl (bytes "b") second_account refl refl refl
      (omega arith)

acquire_matching-sticky_example :
    (r : Record) × ((acquire_matching (at 1000) [] none (service sticky (bytes "b") two_accounts)).1
      ≡ ok r)
    × (r.id ≡ bytes "b")
unfolding acquire_matching refresh_all_locked is_eligible trim_space select_round_robin sort_func
    str_lt clone_record lookup str_eq choose preferred_candidate
acquire_matching-sticky_example =
    acquire_matching-sticky (at 1000) [] none (service sticky (bytes "b") two_accounts) refl
      second_account refl refl (λ e. cc) (refl, refl, (refl, refl, tt)) refl refl refl

abbrev cooling_accounts : Dict Record
cooling_accounts = (bytes "a", record first_account { cooldown_until = some 5000 }) ∷ []

none_eligible : (q : Record) → In q (values cooling_accounts) → is_eligible q 1000 ≡ false
unfolding is_eligible trim_space
none_eligible q (inl e) = subst (λ (x : Record). is_eligible x 1000 ≡ false) e refl
none_eligible q (inr i) = absurd i

set_cooldown-acquire_example : bytes "b" ≢ bytes "a"
unfolding acquire_matching refresh_all_locked is_eligible trim_space select_round_robin sort_func
    str_lt clone_record lookup str_eq choose preferred_candidate set_cooldown persist_locked insert
    run step get
set_cooldown-acquire_example =
    set_cooldown-acquire (at 1000) (at 2000) (bytes "a") [] (bytes "slow") 5000 none sparing two
      (acquire_matching (at 2000) [] none
        (run sparing (set_cooldown (at 1000) (bytes "a") (some 5000) (bytes "slow") two).0)).0
      second_account (refl, refl, (refl, refl, tt)) (omega arith, tt, tt) (omega arith) refl
