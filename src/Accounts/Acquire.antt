-- ===== src/Accounts/Acquire.antt =====
-- internal/accounts/service.go: `AcquireMatching`, `NewService` and the records that it loads.
pub mod Choice
pub mod Found
pub mod Promises
use codex_model_tester.Base.{
  Bool, true, false, not, ◌&&◌, ◌||◌, Option, none, some, List, [], ◌∷◌, map, if◌then◌else◌, Str,
  Dict, str_eq, is_empty, trim_space, lookup, insert, keep, ◌==◌, ℕ,
}
use codex_model_tester.Accounts.Types.{
  Time, Record, RotationStrategy, least_used, round_robin, sticky, other, State, Status, active,
}
use codex_model_tester.Accounts.Clone.{clone_record}
use codex_model_tester.Accounts.Quota.{is_eligible}
use codex_model_tester.Accounts.Rotation.{select_round_robin, select_least_used}
use codex_model_tester.Accounts.Token.{metadata_from_token}
use codex_model_tester.Accounts.Store.{
  no_active_accounts, index_panic, Result, ok, err, Env, Service, Done, Outcome, values,
  persist_locked, normalize_cached, clear_expired_cooldown_locked,
}
use codex_model_tester.Accounts.Service.{refreshed}

-- `allow == nil || allow(candidate)`
abbrev pub allows : Option (Record → Bool) → Record → Bool
allows none r = true
allows (some allow) r = allow r

-- Eligible, and its clone is allowed.
abbrev pub is_candidate : Option (Record → Bool) → Time → Record → Bool
is_candidate allow now r = is_eligible r now && allows allow (clone_record r)

abbrev pub candidates : Option (Record → Bool) → Time → Dict Record → List Record
candidates allow now records = map clone_record (keep (is_candidate allow now) (values records))

-- The preferred account, if it is named, known, eligible and allowed.
unfoldable pub preferred_candidate :
    Option (Record → Bool) → Time → Str → Dict Record → Option Record
preferred_candidate allow now id records = if is_empty id then none else elim (lookup id records) [
  | none ↦ none
  | some r ↦ if is_candidate allow now r then some (clone_record r) else none
]

-- The first candidate with this ID; an empty ID names none.
unfoldable pub sticky_candidate : Str → List Record → Option Record
sticky_candidate id [] = none
sticky_candidate id (c ∷ cs) =
    let rest = sticky_candidate id cs in
    if is_empty id then none else if str_eq c.id id then some c else rest

-- The new index is stored; `none` is the panic.
abbrev pub picked : Service → Option (Record × ℕ) → Outcome Record
picked s none = (s, err index_panic)
picked s (some (r, index)) = (record s { round_robin_index = index }, ok (clone_record r))

abbrev pub sticky_or_least_used : Service → List Record → Option Record → Outcome Record
sticky_or_least_used s cs (some c) = (s, ok (clone_record c))
sticky_or_least_used s cs none = picked s (select_least_used cs s.round_robin_index)

-- The `switch` on the strategy; any other text is treated as least used.
unfoldable pub rotate : RotationStrategy → List Record → Service → Outcome Record
unfolding sticky_candidate
rotate round_robin cs s = picked s (select_round_robin cs s.round_robin_index)
rotate sticky cs s = sticky_or_least_used s cs (sticky_candidate s.sticky_account_id cs)
rotate least_used cs s = picked s (select_least_used cs s.round_robin_index)
rotate (other name) cs s = picked s (select_least_used cs s.round_robin_index)

-- What `AcquireMatching` does once the records are refreshed.
unfoldable pub choose : Option (Record → Bool) → Time → Str → Service → Outcome Record
unfolding preferred_candidate rotate
choose allow now preferred_id s = elim (preferred_candidate allow now preferred_id s.records) [
  | some r ↦ (s, ok r)
  | none ↦ elim (candidates allow now s.records) [
    | [] ↦ (s, err no_active_accounts)
    | c ∷ cs ↦ rotate s.rotation_strategy (c ∷ cs) s
  ]
]

unfoldable pub acquire_matching : Env → Str → Option (Record → Bool) → Service → Outcome Record
unfolding choose
acquire_matching env preferred_id allow s = refreshed env s (choose allow env.now preferred_id)

unfoldable pub acquire : Env → Str → Service → Outcome Record
unfolding acquire_matching
acquire env preferred_id s = acquire_matching env preferred_id none s

-- Both tests of the status: the empty text and any other unknown one become active.
abbrev normalize_status : Status → Status × Bool
normalize_status (other name) = (active, true)
normalize_status status = (status, false)

-- `if x == "" && y != "" { x = y; changed = true }`, with `y` trimmed.
abbrev fill_text : Str → Str → Str × Bool
fill_text old new =
    if is_empty old && not (is_empty (trim_space new)) then (trim_space new, true) else (old, false)

-- `if t.IsZero() { t = d; changed = true }`
abbrev fill_time : Time → Time → Time × Bool
fill_time t d = if t == 0 then (d, true) else (t, false)

abbrev fill_cookies : Option (Dict Str) → Option (Dict Str) × Bool
fill_cookies none = (some [], true)
fill_cookies (some m) = (some m, false)

unfoldable pub normalize_loaded_record : Env → Record → Record × Bool
unfolding clear_expired_cooldown_locked
normalize_loaded_record env r =
    let metadata = metadata_from_token env.decode_payload r.token in
    let (status, c1) = normalize_status r.status in
    let (created_at, c2) = fill_time r.created_at env.now in
    let (updated_at, c3) = fill_time r.updated_at created_at in
    let (cookies, c4) = fill_cookies r.cookies in
    let (user_id, c5) = fill_text r.user_id metadata.user_id in
    let (email, c6) = fill_text r.email metadata.email in
    let (plan_type, c7) = fill_text r.plan_type metadata.plan_type in
    let (quota, c8) = normalize_cached r.cached_quota env.now in
    let (r', c9) =
      clear_expired_cooldown_locked
        (record r {
          status = status;
          created_at = created_at;
          updated_at = updated_at;
          cookies = cookies;
          user_id = user_id;
          email = email;
          plan_type = plan_type;
          cached_quota = quota;
        })
        env.now in
    (r', c1 || c2 || c3 || c4 || c5 || c6 || c7 || c8 || c9)

-- The loop of `NewService`: a later record with the same ID replaces an earlier one.
unfoldable pub load_records : Env → List Record → Dict Record × Bool → Dict Record × Bool
unfolding normalize_loaded_record
load_records env [] acc = acc
load_records env (stored ∷ rest) (records, needs_persist) =
    let (r, changed) = normalize_loaded_record env (clone_record stored) in
    load_records env rest (insert r.id r records, needs_persist || changed)

-- `cmp.Or(state.RotationStrategy, defaultStrategy)`
abbrev or_strategy : RotationStrategy → RotationStrategy → RotationStrategy
or_strategy (other []) default = default
or_strategy strategy default = strategy

abbrev loaded : Outcome Done → Result Service
loaded (s, ok u) = ok s
loaded (s, err e) = err e

-- The counter is the package's and starts with the process.
unfoldable pub new_service : Env → Result State → RotationStrategy → ℕ → Result Service
unfolding load_records
new_service env (err e) default sequence = err e
new_service env (ok state) default sequence =
    let (records, needs_persist) = load_records env state.records ([], false) in
    let s : Service = record {
      records = records;
      rotation_strategy = or_strategy state.rotation_strategy default;
      round_robin_index = 0;
      sticky_account_id = [];
      account_id_sequence = sequence;
      disk = state;
    } in
    if needs_persist then loaded (persist_locked env s) else ok s
