-- ===== src/Accounts/RuleTests.antt =====
-- The rules of internal/accounts at concrete data.
use codex_model_tester.Base.{
  ◌≡◌, refl, true, false, none, some, [], ◌∷◌, arith, bytes, inl, inr, In, lookup, insert, str_eq,
  str_lt, trim_space,
}
use codex_model_tester.Accounts.Samples.{
  account, quota, first_account, second_account, two_accounts, at,
}
use codex_model_tester.Accounts.Types.{num, float_lt, Record, round_robin, sticky, State}
use codex_model_tester.Accounts.Token.{metadata_from_token}
use codex_model_tester.Accounts.Clone.{clone_record}
use codex_model_tester.Accounts.Rotation.{
  below, by_least_used, select_least_used, compare_least_used_quota, primary_percent,
  secondary_percent, primary_reset, sort_func, tied_count, pick, signed_rem, has_quota,
}
use codex_model_tester.Accounts.Rotation.Select.{select_least_used-least}
use codex_model_tester.Accounts.Rotation.Fair.{turns, turns-fair}
use codex_model_tester.Accounts.Rotation.Cycle.{by_least_used-cycle}
use codex_model_tester.Accounts.Store.{Service, ok, persist_locked}
use codex_model_tester.Accounts.Store.Keys.{IsKeyed}
use codex_model_tester.Accounts.Store.Refresh.{IsSaved}
use codex_model_tester.Accounts.Edit.{set_cooldown}
use codex_model_tester.Accounts.Acquire.{new_service, load_records, normalize_loaded_record}
use codex_model_tester.Accounts.System.{removes, sets_cooldown, step, run}
use codex_model_tester.Accounts.System.Calls.{step-IsSaved, new_service-run-IsKeyed}

abbrev busy : Record
busy = account (bytes "a") (some (quota (num 80) (some (num 40))))

abbrev idle : Record
idle = account (bytes "b") (some (quota (num 20) none))

abbrev calm : Record
calm = account (bytes "c") (some (quota (num 80) (some (num 10))))

abbrev middle : Record
middle = account (bytes "b") (some (quota (num 80) none))

select_least_used-least_example :
    (has_quota idle ≡ true)
    × (float_lt (primary_percent idle.cached_quota) (primary_percent idle.cached_quota) ≡ false)
unfolding select_least_used sort_func compare_least_used_quota primary_percent secondary_percent
    primary_reset str_lt tied_count pick signed_rem
select_least_used-least_example =
    select_least_used-least (busy ∷ idle ∷ []) 0 1 idle busy (omega arith) (λ e. cc, (λ e. cc, tt))
      refl (inl refl) refl

turns-fair_example : In second_account (turns (first_account ∷ second_account ∷ []) 7 2)
turns-fair_example =
    turns-fair second_account (first_account ∷ second_account ∷ []) 7 (omega arith) (inr (inl refl))

by_least_used-cycle_example :
    (by_least_used busy middle ≡ below)
    × (by_least_used middle calm ≡ below)
    × (by_least_used calm busy ≡ below)
unfolding primary_percent secondary_percent primary_reset str_lt
by_least_used-cycle_example =
    by_least_used-cycle busy middle calm (num 80) (num 40) (num 10) refl refl refl refl refl refl
      refl refl refl refl refl refl

abbrev stored : State
stored = record { records = first_account ∷ second_account ∷ []; rotation_strategy = round_robin }

abbrev loaded_service : Service
loaded_service = record {
  records = two_accounts;
  rotation_strategy = round_robin;
  round_robin_index = 0;
  sticky_account_id = [];
  account_id_sequence = 0;
  disk = stored;
}

new_service-run-IsKeyed_example :
    IsKeyed (run ((at 1000, removes (bytes "a")) ∷ []) loaded_service).records
unfolding new_service load_records normalize_loaded_record trim_space str_eq insert clone_record
    lookup metadata_from_token
new_service-run-IsKeyed_example =
    new_service-run-IsKeyed (at 1000) (ok stored) sticky 0 loaded_service refl
      ((at 1000, removes (bytes "a")) ∷ [])

step-IsSaved_example :
    IsSaved (step (at 1000) (sets_cooldown (bytes "a") (some 5000) []) loaded_service).0
unfolding step set_cooldown persist_locked lookup str_eq insert clone_record
step-IsSaved_example =
    step-IsSaved (at 1000) (sets_cooldown (bytes "a") (some 5000) []) loaded_service refl tt
