-- ===== src/Accounts/Service.antt =====
-- internal/accounts/service.go: the methods that look up, change and remove accounts.
use codex_model_tester.Base.{
  Bool, true, false, not, ◌||◌, Option, none, some, List, [], ◌∷◌, map, if◌then◌else◌, Str, Dict,
  bytes, str_eq, is_empty, trim_space, lookup, insert, erase, ◌++◌,
}
use codex_model_tester.Accounts.Types.{Time, Record, RotationStrategy, OauthToken, active}
use codex_model_tester.Accounts.Clone.{clone_record}
use codex_model_tester.Accounts.Quota.{is_eligible}
use codex_model_tester.Accounts.Rotation.{Sign, or_sign, time_compare, str_compare, sort_func}
use codex_model_tester.Accounts.Token.{TokenMetadata, metadata_from_token}
use codex_model_tester.Accounts.Store.{
  account_not_found, ok, err, Env, Service, Done, Outcome, values, persist_locked, returning,
  refresh_all_locked, next_account_id,
}

-- `cmp.Or(a.CreatedAt.Compare(b.CreatedAt), cmp.Compare(a.ID, b.ID))`
abbrev pub by_created : Record → Record → Sign
by_created a b = or_sign (time_compare a.created_at b.created_at) (str_compare a.id b.id)

-- What runs after `refreshAllLocked`, unless that failed.
abbrev pub and_then : {A : Type 0} → Outcome Done → (Service → Outcome A) → Outcome A
and_then (s, ok u) next = next s
and_then (s, err e) next = (s, err e)

abbrev pub refreshed : {A : Type 0} → Env → Service → (Service → Outcome A) → Outcome A
refreshed env s next = and_then (refresh_all_locked env s) next

unfoldable pub list : Env → Service → Outcome (List Record)
list env s =
    refreshed env s λ s'. (s', ok (sort_func by_created (map clone_record (values s'.records))))

abbrev pub clone_found : Option Record → Option Record
clone_found none = none
clone_found (some r) = some (clone_record r)

unfoldable pub get : Env → Str → Service → Outcome (Option Record)
get env id s = refreshed env s λ s'. (s', ok (clone_found (lookup id s'.records)))

abbrev eligible_entry : Option Record → Time → Bool
eligible_entry none now = false
eligible_entry (some r) now = is_eligible r now

unfoldable pub eligible_now : Env → Str → Service → Outcome Bool
eligible_now env id s =
    refreshed env s λ s'. (s', ok (eligible_entry (lookup id s'.records) env.now))

unfoldable pub same_account : Record → Str → Str → Bool
same_account existing account_id user_id =
    let existing_user_id = trim_space existing.user_id in
    let new_user_id = trim_space user_id in
    if not (str_eq existing.account_id account_id)
    then false
    else if is_empty existing_user_id || is_empty new_user_id
    then true
    else str_eq existing_user_id new_user_id

-- The key and record of the first entry that the test accepts.
unfoldable pub find_entry : (Record → Bool) → Dict Record → Option (Str × Record)
find_entry p [] = none
find_entry p ((k, r) ∷ m) = let rest = find_entry p m in if p r then some (k, r) else rest

unfoldable pub update_from_token : Time → TokenMetadata → OauthToken → Record → Record
update_from_token now metadata token r = record r {
  token = token;
  email = metadata.email;
  plan_type = metadata.plan_type;
  user_id = metadata.user_id;
  status = active;
  last_error = [];
  cooldown_until = none;
  updated_at = now;
}

unfoldable pub new_record : Time → Str → Str → TokenMetadata → OauthToken → Record
new_record now id account_id metadata token = record {
  id = id;
  account_id = account_id;
  user_id = metadata.user_id;
  email = metadata.email;
  plan_type = metadata.plan_type;
  label = [];
  status = active;
  last_error = [];
  token = token;
  cookies = some [];
  cached_quota = none;
  cooldown_until = none;
  created_at = now;
  updated_at = now;
}

unfoldable pub upsert_from_token : Env → Str → OauthToken → Service → Outcome Record
unfolding update_from_token new_record next_account_id
upsert_from_token env account_id token s =
    let metadata = metadata_from_token env.decode_payload token in
    elim (find_entry (λ r. same_account r account_id metadata.user_id) s.records) [
      | some (k, existing) ↦
          let r = update_from_token env.now metadata token existing in
          returning (persist_locked env (record s { records = insert k r s.records }))
            (clone_record r)
      | none ↦
          let (number, sequence) = next_account_id env s in
          let r = new_record env.now (bytes "acct_" ++ number) account_id metadata token in
          returning
            (persist_locked env
              (record s { records = insert r.id r s.records; account_id_sequence = sequence }))
            (clone_record r)
    ]

unfoldable pub remove : Env → Str → Service → Outcome Done
remove env id s = elim (lookup id s.records) [
  | none ↦ (s, err account_not_found)
  | some r ↦ persist_locked env (record s {
    records = erase id s.records;
    sticky_account_id = if str_eq s.sticky_account_id id then [] else s.sticky_account_id;
  })
]

-- Not saved: the sticky account lives in memory only.
unfoldable pub note_success : Str → Service → Service
note_success id s = elim (lookup id s.records) [
  | none ↦ s
  | some r ↦ record s { sticky_account_id = id }
]

unfoldable pub set_rotation_strategy : Env → RotationStrategy → Service → Outcome Done
set_rotation_strategy env strategy s =
    persist_locked env (record s { rotation_strategy = strategy })
