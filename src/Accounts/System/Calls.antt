-- ===== src/Accounts/System/Calls.antt =====
-- The methods of the account service of internal/accounts/service.go, one by one and in a row.
use codex_model_tester.Accounts.Clone.{clone_record}
use codex_model_tester.Base.{
  ℕ, ◌≡◌, refl, inl, inr, Option, none, some, List, [], ◌∷◌, arith, Str, Option-cases, lookup,
  insert, Bool, false, Dict,
}
use codex_model_tester.Accounts.Types.{
  Time, Record, QuotaSnapshot, RotationStrategy, least_used, round_robin, sticky, other, Status,
  OauthToken, State,
}
use codex_model_tester.Accounts.Token.{TokenMetadata, metadata_from_token}
use codex_model_tester.Accounts.Store.{
  Result, ok, err, Env, Service, Done, account_not_found, no_active_accounts, persist_locked,
}
use codex_model_tester.Accounts.Store.Refresh.{IsSaved}
use codex_model_tester.Accounts.Store.Keys.{IsKeyed, insert-IsKeyed, erase-IsKeyed}
use codex_model_tester.Accounts.Service.{
  list, get, eligible_now, same_account, find_entry, upsert_from_token, remove, note_success,
  set_rotation_strategy,
}
use codex_model_tester.Accounts.Edit.{
  patch, observe_quota, update_auth, mark_error, set_cooldown, patch_record, observe_record,
  update_auth_record, mark_error_record, set_cooldown_record,
}
use codex_model_tester.Accounts.Acquire.{
  candidates, preferred_candidate, rotate, choose, acquire_matching, normalize_loaded_record,
  load_records, new_service,
}
use codex_model_tester.Accounts.System.{
  Call, lists, gets, asks_eligible, removes, notes_success, upserts, patches, observes,
  updates_auth, marks_error, sets_cooldown, acquires, sets_strategy, step, run,
}
use codex_model_tester.Accounts.System.Sound.{
  IsOk, Sound, Quiet, fail-Sound, discard-Sound, returning-Sound, persist-Sound, refreshed-Sound,
  with_record-Sound, clone_result-Sound,
}

pub quiet : {A : Type 0} {r : Result A} (s : Service) → Quiet {A = A} s (s, r)
quiet s = record { records = refl; rotation_strategy = refl; disk = refl }

rotate-Quiet :
    (strategy : RotationStrategy) (cs : List Record) (s : Service) → Quiet s (rotate strategy cs s)
unfolding rotate
rotate-Quiet round_robin cs s = ground arith
rotate-Quiet sticky cs s = ground arith
rotate-Quiet least_used cs s = ground arith
rotate-Quiet (other name) cs s = ground arith

pub choose-Quiet :
    (allow : Option (Record → Bool)) (now : Time) (id : Str) (s : Service)
    → Quiet s (choose allow now id s)
unfolding choose
choose-Quiet allow now id s = elim (Option-cases (preferred_candidate allow now id s.records)) [
  | inr (r, e) ↦ rw (e, choose) (quiet s)
  | inl e ↦ rw (e, choose) (none_preferred (candidates allow now s.records))
]
  where
    none_preferred :
        (cs : List Record)
        → Quiet s (elim cs [
          | [] ↦ (s, err no_active_accounts)
          | c ∷ cs ↦ rotate s.rotation_strategy (c ∷ cs) s
        ])
    none_preferred [] = quiet s
    none_preferred (c ∷ cs) = rotate-Quiet s.rotation_strategy (c ∷ cs) s

find_entry-id :
    (p : Record → Bool) (m : Dict Record) (k : Str) (r : Record)
    → IsKeyed m
    → find_entry p m ≡ some (k, r)
    → r.id ≡ k
unfolding find_entry
find_entry-id p [] k r h e = cc
find_entry-id p ((j, w) ∷ m) k r h e = ground (arith, find_entry-id p m k r h.2)

upsert-Sound :
    (env : Env) (account_id : Str) (token : OauthToken) (s : Service)
    → Sound s (upsert_from_token env account_id token s)
unfolding upsert_from_token
upsert-Sound env account_id token s =
    elim (Option-cases (find_entry (λ r. same_account r account_id metadata.user_id) s.records)) [
      | inl e ↦
          rw (e, upsert_from_token)
            (returning-Sound s _ _ (persist-Sound env s _ refl (insert-IsKeyed _ _ s.records refl)))
      | inr ((k, r), e) ↦
          rw (e, upsert_from_token)
            (returning-Sound s _ _ (
              persist-Sound env s _ refl
                (λ h. insert-IsKeyed k _ s.records (find_entry-id _ s.records k r h e) h)))
    ]
  where
    metadata : TokenMetadata
    metadata = metadata_from_token env.decode_payload token

remove-Sound : (env : Env) (id : Str) (s : Service) → Sound s (remove env id s)
unfolding remove
remove-Sound env id s = elim (Option-cases (lookup id s.records)) [
  | inl e ↦ rw (e, remove) (fail-Sound s account_not_found)
  | inr (r, e) ↦ rw (e, remove) (persist-Sound env s _ refl (erase-IsKeyed id s.records))
]

note_success-Sound : (id : Str) (s : Service) → Sound {A = Done} s (note_success id s, ok tt)
unfolding note_success
note_success-Sound id s = elim (Option-cases (lookup id s.records)) [
  | inl e ↦ rw (e, note_success) (record { keyed = λ k. k; saved = λ v o. v; whole = inl refl })
  | inr (r, e) ↦
      rw (e, note_success) (record { keyed = λ k. k; saved = λ v o. v; whole = inl refl })
]

patch_record-id :
    (now : Time) (label : Option Str) (status : Option Status) (r : Record)
    → (patch_record now label status r).id ≡ r.id
unfolding patch_record
patch_record-id now label status r = ground arith

observe_record-id :
    (now : Time) (quota : Option QuotaSnapshot) (r : Record)
    → (observe_record now quota r).id ≡ r.id
unfolding observe_record
observe_record-id now none r = refl
observe_record-id now (some q) r = refl

step-Sound : (env : Env) (call : Call) (s : Service) → Sound s (step env call s)
unfolding step list get eligible_now patch observe_quota update_auth mark_error set_cooldown
    acquire_matching set_rotation_strategy update_auth_record mark_error_record set_cooldown_record
step-Sound env lists s = discard-Sound s _ (refreshed-Sound env s _ (λ t. quiet t))
step-Sound env (gets id) s = discard-Sound s _ (refreshed-Sound env s _ (λ t. quiet t))
step-Sound env (asks_eligible id) s = discard-Sound s _ (refreshed-Sound env s _ (λ t. quiet t))
step-Sound env (upserts account_id token) s =
    discard-Sound s _ (upsert-Sound env account_id token s)
step-Sound env (removes id) s = remove-Sound env id s
step-Sound env (notes_success id) s = note_success-Sound id s
step-Sound env (patches id label status) s =
    discard-Sound s _
      (clone_result-Sound s _ (with_record-Sound env id _ s (patch_record-id env.now label status)))
step-Sound env (observes id quota) s =
    discard-Sound s _ (with_record-Sound env id _ s (observe_record-id env.now quota))
step-Sound env (updates_auth id account_id token) s =
    discard-Sound s _ (with_record-Sound env id _ s (λ r. refl))
step-Sound env (marks_error id status message) s =
    discard-Sound s _ (with_record-Sound env id _ s (λ r. refl))
step-Sound env (sets_cooldown id until message) s =
    discard-Sound s _ (with_record-Sound env id _ s (λ r. refl))
step-Sound env (acquires preferred_id allow) s =
    discard-Sound s _ (refreshed-Sound env s _ (choose-Quiet allow env.now preferred_id))
step-Sound env (sets_strategy strategy) s = persist-Sound env s _ refl (λ k. k)

-- Whatever is called, each record stays under its own ID, once.
pub step-IsKeyed :
    (env : Env) (call : Call) (s : Service)
    → IsKeyed s.records
    → IsKeyed (step env call s).0.records
step-IsKeyed env call s k = (step-Sound env call s).keyed k

-- A call that succeeds leaves the store with what the service holds, if it was so before.
pub step-IsSaved :
    (env : Env) (call : Call) (s : Service)
    → IsSaved s
    → IsOk (step env call s).1
    → IsSaved (step env call s).0
step-IsSaved env call s v o = (step-Sound env call s).saved v o

load_records-IsKeyed :
    (env : Env) (rs : List Record) (m : Dict Record) (c : Bool)
    → IsKeyed m
    → IsKeyed (load_records env rs (m, c)).0
unfolding load_records
load_records-IsKeyed env [] m c h = h
load_records-IsKeyed env (r ∷ rs) m c h =
    let r' = (normalize_loaded_record env (clone_record r)).0 in
    load_records-IsKeyed env rs (insert r'.id r' m) _ (insert-IsKeyed r'.id r' m refl h)

abbrev loaded_list : Result State → List Record
loaded_list (ok state) = state.records
loaded_list (err e) = []

new_service_records :
    (env : Env) (loaded : Result State) (default : RotationStrategy) (sequence : ℕ) (s : Service)
    → new_service env loaded default sequence ≡ ok s
    → s.records ≡ (load_records env (loaded_list loaded) ([], false)).0
unfolding new_service persist_locked
new_service_records env (err e) default sequence s h = cc
new_service_records env (ok state) default sequence s h = ground arith

new_service-IsKeyed :
    (env : Env) (loaded : Result State) (default : RotationStrategy) (sequence : ℕ) (s : Service)
    → new_service env loaded default sequence ≡ ok s
    → IsKeyed s.records
new_service-IsKeyed env loaded default sequence s h =
    rw (new_service_records env loaded default sequence s h)
      (load_records-IsKeyed env (loaded_list loaded) [] false tt)

pub run-IsKeyed :
    (calls : List (Env × Call)) (s : Service) → IsKeyed s.records → IsKeyed (run calls s).records
unfolding run
run-IsKeyed [] s k = k
run-IsKeyed ((env, call) ∷ calls) s k = run-IsKeyed calls _ (step-IsKeyed env call s k)

-- From the start of the process, after any calls, whatever the store answers, each record
-- stands under its own ID, once.
pub new_service-run-IsKeyed :
    (env : Env) (loaded : Result State) (default : RotationStrategy) (sequence : ℕ) (s : Service)
    → new_service env loaded default sequence ≡ ok s
    → (calls : List (Env × Call)) → IsKeyed (run calls s).records
new_service-run-IsKeyed env loaded default sequence s h calls =
    run-IsKeyed calls s (new_service-IsKeyed env loaded default sequence s h)
