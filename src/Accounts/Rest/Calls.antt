-- ===== src/Accounts/Rest/Calls.antt =====
-- Calls of internal/accounts/service.go while an account rests: sparing calls before its end let it rest,
-- and it is not handed out after them.
use codex_model_tester.Base.{
  Bool, List, Option, Option-cases, Str, [], arith, false, inl, inr, lookup, lookup-erase, none,
  some, str_eq, ◌<◌, ◌∷◌, ◌≡◌, ◌≢◌,
}
use codex_model_tester.Accounts.Types.{Time, Status, Record, is_active}
use codex_model_tester.Accounts.Store.{ok, Env, Service}
use codex_model_tester.Accounts.Store.Keys.{IsKeyed}
use codex_model_tester.Accounts.Service.{
  list, get, eligible_now, remove, note_success, set_rotation_strategy,
}
use codex_model_tester.Accounts.Edit.{
  patch, observe_quota, update_auth, mark_error_record, mark_error, set_cooldown_record,
  set_cooldown,
}
use codex_model_tester.Accounts.Acquire.{acquire_matching}
use codex_model_tester.Accounts.Acquire.Promises.{acquire_matching-ineligible}
use codex_model_tester.Accounts.System.{
  Call, lists, gets, asks_eligible, removes, notes_success, upserts, patches, observes,
  updates_auth, marks_error, sets_cooldown, acquires, sets_strategy, step, run,
}
use codex_model_tester.Accounts.System.Calls.{quiet, choose-Quiet, run-IsKeyed}
use codex_model_tester.Accounts.Rest.{
  discard-state, clone_result-state, edited, IsResting, Rests, Spares, AllSpare,
  ineligible-IsResting, refreshed-Rests, with_record-Rests, mark_error_record-IsResting,
  set_cooldown_record-IsResting, patch_label-IsResting, or_keeps, persist-records,
}

remove-Rests :
    (until : Time) (env : Env) (j id : Str) (s : Service)
    → Rests until id s
    → Rests until id (remove env j s).0
unfolding remove
remove-Rests until env j id s h q e = elim (Option-cases (lookup j s.records)) [
  | inl n ↦ h q (rw (n, remove) at e)
  | inr (r, f) ↦ h q (ground (arith, rw (f, remove, persist-records, lookup-erase) at e))
]

note_success-records : (j : Str) (s : Service) → (note_success j s).records ≡ s.records
unfolding note_success
note_success-records j s = ground arith

-- A sparing call before `until` lets the account rest.
step-Rests :
    (until : Time) (env : Env) (id : Str) (call : Call) (s : Service)
    → env.now < until
    → Spares until id call
    → Rests until id s
    → Rests until id (step env call s).0
unfolding step list get eligible_now patch observe_quota update_auth mark_error set_cooldown
    acquire_matching set_rotation_strategy
step-Rests until env id lists s lt k h =
    rw discard-state (refreshed-Rests until env id s _ (λ t. quiet t) lt h)
step-Rests until env id (gets j) s lt k h =
    rw discard-state (refreshed-Rests until env id s _ (λ t. quiet t) lt h)
step-Rests until env id (asks_eligible j) s lt k h =
    rw discard-state (refreshed-Rests until env id s _ (λ t. quiet t) lt h)
step-Rests until env id (acquires preferred_id allow) s lt k h =
    rw discard-state
      (refreshed-Rests until env id s _ (choose-Quiet allow env.now preferred_id) lt h)
step-Rests until env id (upserts account_id token) s lt k h = absurd k
step-Rests until env id (removes j) s lt k h = remove-Rests until env j id s h
step-Rests until env id (notes_success j) s lt k h = rw (note_success-records j s) h
step-Rests until env id (patches j label none) s lt k h =
    rw (discard-state, clone_result-state)
      (with_record-Rests until env j id _ s (inr (patch_label-IsResting until env.now label)) h)
step-Rests until env id (patches j label (some status)) s lt k h =
    rw (discard-state, clone_result-state) (with_record-Rests until env j id _ s (inl k) h)
step-Rests until env id (observes j quota) s lt k h =
    rw discard-state (with_record-Rests until env j id _ s (inl k) h)
step-Rests until env id (updates_auth j account_id token) s lt k h =
    rw discard-state (with_record-Rests until env j id _ s (inl k) h)
step-Rests until env id (marks_error j status message) s lt k h = rw discard-state (
    with_record-Rests until env j id _ s
      (or_keeps (str_eq j id) _ _ k
        (λ a r x. mark_error_record-IsResting until env.now status message r a))
      h)
step-Rests until env id (sets_cooldown j t message) s lt k h = rw discard-state (
    with_record-Rests until env j id _ s
      (or_keeps (str_eq j id) _ _ k
        (λ c r x. set_cooldown_record-IsResting until env.now t message r c))
      h)
step-Rests until env id (sets_strategy strategy) s lt k h = rw persist-records h

run-Rests :
    (until : Time) (id : Str) (calls : List (Env × Call)) (s : Service)
    → AllSpare until id calls
    → Rests until id s
    → Rests until id (run calls s)
unfolding run
run-Rests until id [] s k h = h
run-Rests until id ((env, call) ∷ calls) s (lt, k, ks) h =
    run-Rests until id calls (step env call s).0 ks (step-Rests until env id call s lt k h)

-- A cooldown makes an account rest, whether or not it could be saved.
pub set_cooldown-Rests :
    (env : Env) (id message : Str) (until : Time) (s : Service)
    → Rests until id (set_cooldown env id (some until) message s).0
unfolding set_cooldown
set_cooldown-Rests env id message until s q e =
    edited (IsResting until) env id (set_cooldown_record env.now (some until) message) s q
      (λ r. set_cooldown_record-IsResting until env.now (some until) message r (omega arith))
      (rw discard-state at e)

-- So does a status that is not active, for any time.
pub mark_error-Rests :
    (until : Time) (env : Env) (id message : Str) (status : Status) (s : Service)
    → is_active status ≡ false
    → Rests until id (mark_error env id status message s).0
unfolding mark_error
mark_error-Rests until env id message status s na q e =
    edited (IsResting until) env id (mark_error_record env.now status message) s q
      (λ r. mark_error_record-IsResting until env.now status message r na) (rw discard-state at e)

-- A resting account is not handed out after sparing calls.
pub acquire-Rests :
    (until : Time) (later : Env) (id preferred_id : Str) (allow : Option (Record → Bool))
    (calls : List (Env × Call)) (s s' : Service) (r : Record)
    → IsKeyed s.records
    → Rests until id s
    → AllSpare until id calls
    → later.now < until
    → acquire_matching later preferred_id allow (run calls s) ≡ (s', ok r)
    → r.id ≢ id
acquire-Rests until later id preferred_id allow calls s s' r k rests spare lt h =
    acquire_matching-ineligible later preferred_id allow (run calls s) s' r id
      (run-IsKeyed calls s k)
      (λ q e.
        ineligible-IsResting until later.now q lt (run-Rests until id calls s spare rests q e))
      h
