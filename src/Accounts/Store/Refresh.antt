-- ===== src/Accounts/Store/Refresh.antt =====
-- What `refreshAllLocked` of internal/accounts/service.go does and leaves alone.
use codex_model_tester.Base.{
  ◌≡◌, refl, ap, false, Option, none, some, [], ◌∷◌, arith, Dict, Str, lookup,
}
use codex_model_tester.Accounts.Types.{Time, Record, QuotaSnapshot}
use codex_model_tester.Accounts.Quota.{
  normalize_quota_snapshot, quota_blocks_general_routing, is_eligible,
}
use codex_model_tester.Accounts.Quota.Laws.{normalize-blocks}
use codex_model_tester.Accounts.Store.{
  Env, Service, saved_state, persist_locked, normalize_cached, refresh_record, refresh_records,
  refresh_all_locked,
}

normalize_cached-blocks :
    (q : Option QuotaSnapshot) (now : Time)
    → quota_blocks_general_routing (normalize_cached q now).0 now
      ≡ quota_blocks_general_routing q now
normalize_cached-blocks none now = refl
normalize_cached-blocks (some q) now = normalize-blocks q now

-- Refreshing a record at some time does not change whether it is eligible at that time.
pub refresh_record-eligible :
    (now : Time) (r : Record) → is_eligible (refresh_record now r).0 now ≡ is_eligible r now
unfolding refresh_record is_eligible
refresh_record-eligible now r = ground (arith, normalize_cached-blocks r.cached_quota now)

normalize_quota_same :
    (q : QuotaSnapshot) (now : Time)
    → (normalize_quota_snapshot q now).1 ≡ false
    → (normalize_quota_snapshot q now).0 ≡ q
unfolding normalize_quota_snapshot
normalize_quota_same q now h = ground arith

normalize_cached_same :
    (q : Option QuotaSnapshot) (now : Time)
    → (normalize_cached q now).1 ≡ false
    → (normalize_cached q now).0 ≡ q
normalize_cached_same none now h = refl
normalize_cached_same (some q) now h =
    ap {B = Option QuotaSnapshot} some (normalize_quota_same q now h)

refresh_record_same :
    (now : Time) (r : Record) → (refresh_record now r).1 ≡ false → (refresh_record now r).0 ≡ r
unfolding refresh_record
refresh_record_same now r h = ground (arith, normalize_cached_same r.cached_quota now)

-- Where the refresh reports no change, it made none.
pub refresh_records_same :
    (now : Time) (m : Dict Record)
    → (refresh_records now m).1 ≡ false
    → (refresh_records now m).0 ≡ m
unfolding refresh_records
refresh_records_same now [] h = refl
refresh_records_same now ((k, r) ∷ m) h =
    ground (arith, refresh_record_same now r, refresh_records_same now m)

abbrev pub map_option {ℓ} : {A B : Type ℓ} → (A → B) → Option A → Option B
map_option f none = none
map_option f (some a) = some (f a)

-- Every record is refreshed, under its own key.
pub lookup-refresh_records :
    (now : Time) (id : Str) (m : Dict Record)
    → lookup id (refresh_records now m).0 ≡ map_option (λ r. (refresh_record now r).0) (lookup id m)
unfolding refresh_records lookup
lookup-refresh_records now id [] = refl
lookup-refresh_records now id ((k, r) ∷ m) = ground (arith, lookup-refresh_records now id m)

-- The store holds what the service holds.
abbrev pub IsSaved : Service → Type 0
IsSaved s = s.disk ≡ saved_state s

-- How a refresh ends: the records are refreshed and all else but the disk is left alone.
pub record Refreshed (env : Env) (s s' : Service) : Type 0 where
  pub records : s'.records ≡ (refresh_records env.now s.records).0
  pub rotation_strategy : s'.rotation_strategy ≡ s.rotation_strategy
  pub round_robin_index : s'.round_robin_index ≡ s.round_robin_index
  pub sticky_account_id : s'.sticky_account_id ≡ s.sticky_account_id
  pub account_id_sequence : s'.account_id_sequence ≡ s.account_id_sequence

pub refresh_all-Refreshed : (env : Env) (s : Service) → Refreshed env s (refresh_all_locked env s).0
unfolding refresh_all_locked persist_locked
refresh_all-Refreshed env s = ground arith
