-- ===== src/Accounts/Edit.antt =====
-- internal/accounts/service.go: the methods that change one account's record and save.
pub mod Laws
use codex_model_tester.Base.{
  not, ◌&&◌, Option, none, some, [], if◌then◌else◌, Str, bytes, str_eq, is_empty, trim_space,
  or_str, lookup, insert,
}
use codex_model_tester.Accounts.Types.{
  Time, Record, QuotaSnapshot, OauthToken, Status, active, disabled, is_disabled, is_banned,
  is_active,
}
use codex_model_tester.Accounts.Clone.{clone_record, clone_quota_snapshot}
use codex_model_tester.Accounts.Quota.{normalize_quota_snapshot, quota_blocks_general_routing}
use codex_model_tester.Accounts.Token.{TokenMetadata, metadata_from_token}
use codex_model_tester.Accounts.Store.{
  account_not_found, ok, err, Env, Service, Done, Outcome, persist_locked, returning,
}

-- The methods that change one record by `f` and save.
abbrev pub with_record : Env → Str → (Record → Record) → Service → Outcome Record
with_record env id f s = elim (lookup id s.records) [
  | none ↦ (s, err account_not_found)
  | some r ↦ returning (persist_locked env (record s { records = insert id (f r) s.records })) (f r)
]

abbrev pub discard : {A : Type 0} → Outcome A → Outcome Done
discard (s, ok a) = (s, ok tt)
discard (s, err e) = (s, err e)

abbrev pub clone_result : Outcome Record → Outcome Record
clone_result (s, ok r) = (s, ok (clone_record r))
clone_result (s, err e) = (s, err e)

abbrev patch_label : Option Str → Record → Record
patch_label none r = r
patch_label (some label) r = record r { label = trim_space label }

abbrev patch_status : Option Status → Record → Record
patch_status none r = r
patch_status (some active) r = record r {
  status = active;
  cooldown_until = none;
  last_error = [];
  cached_quota = none;
}
patch_status (some disabled) r = record r {
  status = disabled;
  cooldown_until = none;
  last_error = [];
}
patch_status (some status) r = record r { status = status }

unfoldable pub patch_record : Time → Option Str → Option Status → Record → Record
patch_record now label status r = record (patch_status status (patch_label label r)) {
  updated_at = now;
}

unfoldable pub patch : Env → Str → Option Str → Option Status → Service → Outcome Record
unfolding patch_record
patch env id label status s =
    clone_result (with_record env id (patch_record env.now label status) s)

-- `if plan := strings.TrimSpace(…); plan != "" && plan != "unknown" { record.PlanType = plan }`
abbrev observed_plan : Str → Str → Str
observed_plan plan old =
    let trimmed = trim_space plan in
    if not (is_empty trimmed) && not (str_eq trimmed (bytes "unknown")) then trimmed else old

unfoldable pub observe_record : Time → Option QuotaSnapshot → Record → Record
observe_record now none r = record r { cached_quota = none; updated_at = now }
observe_record now (some quota) r =
    let (cloned, changed) = normalize_quota_snapshot (clone_quota_snapshot quota) now in
    record r {
      cached_quota = some cloned;
      plan_type = observed_plan cloned.plan_type r.plan_type;
      cooldown_until =
          if not (quota_blocks_general_routing (some cloned) now) then none else r.cooldown_until;
      updated_at = now;
    }

unfoldable pub observe_quota : Env → Str → Option QuotaSnapshot → Service → Outcome Done
unfolding observe_record
observe_quota env id quota s = discard (with_record env id (observe_record env.now quota) s)

unfoldable pub update_auth_record : Time → Str → TokenMetadata → OauthToken → Record → Record
update_auth_record now account_id metadata token r = record r {
  account_id = or_str (trim_space account_id) r.account_id;
  token = token;
  email = or_str metadata.email r.email;
  plan_type = or_str metadata.plan_type r.plan_type;
  user_id = or_str metadata.user_id r.user_id;
  status = if not (is_disabled r.status) && not (is_banned r.status) then active else r.status;
  last_error = [];
  updated_at = now;
}

unfoldable pub update_auth : Env → Str → Str → OauthToken → Service → Outcome Done
unfolding update_auth_record
update_auth env id account_id token s =
    let metadata = metadata_from_token env.decode_payload token in
    discard (with_record env id (update_auth_record env.now account_id metadata token) s)

unfoldable pub mark_error_record : Time → Status → Str → Record → Record
mark_error_record now status message r = record r {
  status = status;
  last_error = trim_space message;
  cooldown_until = if not (is_active status) then none else r.cooldown_until;
  updated_at = now;
}

unfoldable pub mark_error : Env → Str → Status → Str → Service → Outcome Done
unfolding mark_error_record
mark_error env id status message s =
    discard (with_record env id (mark_error_record env.now status message) s)

unfoldable pub set_cooldown_record : Time → Option Time → Str → Record → Record
set_cooldown_record now until message r = record r {
  cooldown_until = until;
  last_error = trim_space message;
  updated_at = now;
}

unfoldable pub set_cooldown : Env → Str → Option Time → Str → Service → Outcome Done
unfolding set_cooldown_record
set_cooldown env id until message s =
    discard (with_record env id (set_cooldown_record env.now until message) s)
