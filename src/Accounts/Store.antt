-- ===== src/Accounts/Store.antt =====
-- internal/accounts/service.go: the service's state, its environment, saving and refreshing.
-- A call runs under the service's lock from start to end, so it is one function of the state.
pub mod Refresh
pub mod Keys
use codex_model_tester.Base.{
  ℕ, ◌+◌, ◌-◌, ◌*◌, ◌%◌, ◌^◌, Bool, true, false, not, ◌||◌, Option, none, some, List, [], ◌∷◌, ◌++◌,
  map, if◌then◌else◌, Str, Dict, bytes, itoa, hex8,
}
use codex_model_tester.Accounts.Types.{Time, after, Record, QuotaSnapshot, RotationStrategy, State}
use codex_model_tester.Accounts.Clone.{clone_record}
use codex_model_tester.Accounts.Quota.{normalize_quota_snapshot}
use codex_model_tester.Accounts.Token.{JwtClaims}

pub data Error : Type 0 where
  account_not_found no_active_accounts : Error
  -- What the store's `Load` or `Save` reports.
  store_error : Str → Error
  -- An index out of range.
  index_panic : Error

pub data Result {ℓ} (A : Type ℓ) : Type ℓ where
  ok : A → Result A
  err : Error → Result A

-- What one call meets: the clock, the token decoder and the store's answer to `Save`.
pub record Env : Type 0 where
  pub now : Time
  pub decode_payload : Str → Option JwtClaims
  pub save_error : State → Option Str

-- `disk` is what the store holds; `account_id_sequence` is the package's atomic counter, a uint64.
pub record Service : Type 0 where
  pub records : Dict Record
  pub rotation_strategy : RotationStrategy
  pub round_robin_index : ℕ
  pub sticky_account_id : Str
  pub account_id_sequence : ℕ
  pub disk : State

abbrev pub Done : Type 0
Done = Unit {0}

-- A method's new state and its result.
abbrev pub Outcome : Type 0 → Type 0
Outcome A = Service × Result A

abbrev pub values : Dict Record → List Record
values = map λ e. e.1

-- The state that `persistLocked` hands to the store.
abbrev pub saved_state : Service → State
saved_state s = record {
  records = map clone_record (values s.records);
  rotation_strategy = s.rotation_strategy;
}

abbrev settle : Service → State → Option Str → Outcome Done
settle s st none = (record s { disk = st }, ok tt)
settle s st (some e) = (s, err (store_error e))

unfoldable pub persist_locked : Env → Service → Outcome Done
persist_locked env s = settle s (saved_state s) (env.save_error (saved_state s))

-- The value that a method returns where saving went well.
abbrev pub returning : {A : Type 0} → Outcome Done → A → Outcome A
returning (s, ok u) a = (s, ok a)
returning (s, err e) a = (s, err e)

abbrev pub clear_expired : Option Time → Time → Option Time × Bool
clear_expired none now = (none, false)
clear_expired (some t) now = if after t now then (some t, false) else (none, true)

unfoldable pub clear_expired_cooldown_locked : Record → Time → Record × Bool
clear_expired_cooldown_locked r now =
    let (cooldown, changed) = clear_expired r.cooldown_until now in
    (record r { cooldown_until = cooldown }, changed)

-- `record.CachedQuota != nil && normalizeQuotaSnapshot(record.CachedQuota, now)`
abbrev pub normalize_cached : Option QuotaSnapshot → Time → Option QuotaSnapshot × Bool
normalize_cached none now = (none, false)
normalize_cached (some q) now =
    let (q', changed) = normalize_quota_snapshot q now in (some q', changed)

-- One round of the loop of `refreshAllLocked`.
unfoldable pub refresh_record : Time → Record → Record × Bool
unfolding clear_expired_cooldown_locked
refresh_record now r =
    let (quota, quota_changed) = normalize_cached r.cached_quota now in
    let (r', cooldown_changed) =
      clear_expired_cooldown_locked (record r { cached_quota = quota }) now in
    let changed = quota_changed || cooldown_changed in
    (if changed then record r' { updated_at = now } else r', changed)

unfoldable pub refresh_records : Time → Dict Record → Dict Record × Bool
unfolding refresh_record
refresh_records now [] = ([], false)
refresh_records now ((k, r) ∷ m) =
    let (r', changed) = refresh_record now r in
    let (m', rest_changed) = refresh_records now m in ((k, r') ∷ m', changed || rest_changed)

unfoldable pub refresh_all_locked : Env → Service → Outcome Done
unfolding persist_locked refresh_records
refresh_all_locked env s =
    let (records, changed) = refresh_records env.now s.records in
    let s' = record s { records = records } in
    if not changed then (s', ok tt) else persist_locked env s'

-- `t.UnixNano()`, for a time after 1970.
abbrev unix_nano : Time → ℕ
unix_nano t = t - 62135596800 * 10 ^ 9

-- `nextAccountID`: the atomic counter is raised first.
unfoldable pub next_account_id : Env → Service → Str × ℕ
unfolding itoa hex8
next_account_id env s =
    let sequence = (s.account_id_sequence + 1) % 2 ^ 64 in
    (itoa (unix_nano env.now) ++ bytes "_" ++ hex8 sequence, sequence)
